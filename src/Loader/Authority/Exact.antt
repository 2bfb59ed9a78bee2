-- ===== src/Loader/Authority/Exact.antt =====
-- Exactly when SetAuthority succeeds.
use solana_sdk_sample.Base.{
  ℕ, ◌+◌, ◌≤◌, ◌≡◌, ◌≢◌, ◌↔◌, refl, ap, sym, subst, ◌∙◌, true, Option, none, some, List, length,
  arith,
}
use solana_sdk_sample.Runtime.Outcome.{Outcome, ok, ◌>>=◌}
use solana_sdk_sample.Runtime.Account.{
  Account, Bytes, Pubkey, KeyedAccount, InvokeContext, keyed_account_at_index,
}
use solana_sdk_sample.Runtime.Action.Success.{Succeeds-lift, Succeeds-reads, Succeeds-modify}
use solana_sdk_sample.Runtime.Sdk.{Sdk}
use solana_sdk_sample.Runtime.Sdk.Laws.{IsStateCodec}
use solana_sdk_sample.State
use solana_sdk_sample.State.{UpgradeableLoaderState, metadata_size}
use solana_sdk_sample.Loader.Accounts.{state_of}
use solana_sdk_sample.Loader.Authority.{new_state, set_authority, optional_key}
use solana_sdk_sample.Loader.Authority.Laws.{
  authority_of, replace_authority, IsBuffer, set_authority-Replaced,
}

-- What SetAuthority asks for, in the state `s` of the account.
pub record MaySetAuthority (present : KeyedAccount) (new : Option Pubkey)
    (s : UpgradeableLoaderState) : Type 0 where
  pub had_authority : authority_of s ≡ some present.unsigned_key
  pub signed : present.is_signer ≡ true
  pub buffer_keeps_one : IsBuffer s → new ≢ none

new_state-accepts :
    (s : UpgradeableLoaderState) (present : KeyedAccount) (new : Option Pubkey)
    → authority_of s ≡ some present.unsigned_key
    → present.is_signer ≡ true
    → (IsBuffer s → new ≢ none)
    → new_state s present new ≡ ok (replace_authority s new)
unfolding new_state
new_state-accepts (State.buffer a) present none had signed keeps = absurd (keeps (a, refl) refl)
new_state-accepts (State.buffer a) present (some k) had signed keeps = ground arith
new_state-accepts (State.program_data slot a) present new had signed keeps = ground arith
new_state-accepts State.uninitialized present new had signed keeps = cc
new_state-accepts (State.program k) present new had signed keeps = cc

same_size :
    (s : UpgradeableLoaderState) (new : Option Pubkey)
    → metadata_size (replace_authority s new) ≡ metadata_size s
same_size (State.buffer a) new = refl
same_size (State.program_data slot a) new = refl
same_size State.uninitialized new = refl
same_size (State.program k) new = refl

-- SetAuthority on an account with room for its metadata succeeds exactly when the account is a Buffer
-- or a ProgramData account with an authority, that authority is the second account and signed, and a
-- Buffer is given a new one.
pub set_authority_iff :
    (sdk : Sdk) (accounts : List KeyedAccount) (first : ℕ) (c : InvokeContext)
    (account present : KeyedAccount) (s : UpgradeableLoaderState)
    → IsStateCodec sdk
    → keyed_account_at_index accounts first ≡ ok account
    → keyed_account_at_index accounts (first + 1) ≡ ok present
    → state_of sdk account c ≡ ok s
    → metadata_size s ≤ length (c.cells account.cell).data_bytes
    → ((set_authority sdk accounts first c).0 ≡ ok tt)
      ↔ MaySetAuthority present (optional_key (keyed_account_at_index accounts (first + 2))) s
unfolding set_authority
set_authority_iff sdk accounts first c account present s codec ea ep es room = (
  λ e.
      let c' = (set_authority sdk accounts first c).1 in
      let (t, r) =
        set_authority-Replaced sdk accounts first c c' account present codec ea ep
          (λ i. (e i, c')) in
      let same : t ≡ s = cc (r.was, es) in
      record {
        had_authority = ap authority_of (sym same) ∙ r.had_authority;
        signed = r.signed;
        buffer_keeps_one = subst (λ t. IsBuffer t → new ≢ none) same r.buffer_keeps_one;
      },
  λ m.
      let (d, stored) =
        codec.set_state_fits (replace_authority s new) old.data_bytes
          (omega (arith, same_size s new, room)) in
      Succeeds-lift _ _ c account ea (
        Succeeds-lift _ _ c present ep (
          Succeeds-reads (state_of sdk account) _ c s es (
            Succeeds-lift _ _ c (replace_authority s new)
              (new_state-accepts s present new m.had_authority m.signed m.buffer_keeps_one)
              (Succeeds-modify account.cell _ c (record old { data_bytes = d })
                (ap (λ (r : Outcome Bytes). r >>= λ d. ok (record old { data_bytes = d }))
                  stored))))),
)
  where
    new : Option Pubkey
    new = optional_key (keyed_account_at_index accounts (first + 2))

    old : Account
    old = c.cells account.cell
