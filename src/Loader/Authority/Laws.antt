-- ===== src/Loader/Authority/Laws.antt =====
-- Who may change an authority, and to what.
use solana_sdk_sample.Base.{
  ℕ, ◌+◌, ◌≡◌, ◌≢◌, ap, sym, subst, ◌∙◌, true, Option, none, some, List, arith, ==_refl,
}
use solana_sdk_sample.Runtime.Outcome.{ok}
use solana_sdk_sample.Runtime.Account.{
  Account, Pubkey, KeyedAccount, InvokeContext, keyed_account_at_index, update, update_self,
  update_ne,
}
use solana_sdk_sample.Runtime.Action.At.{At-known, At-reads, At-lift, At-modify, At-ok}
use solana_sdk_sample.Runtime.Sdk.{Sdk}
use solana_sdk_sample.Runtime.Sdk.Laws.{IsStateCodec}
use solana_sdk_sample.State
use solana_sdk_sample.State.{UpgradeableLoaderState}
use solana_sdk_sample.Loader.Accounts.{state_of, with_state}
use solana_sdk_sample.Loader.Authority.{new_state, set_authority, optional_key}

-- The authority of a Buffer or ProgramData account.
abbrev pub authority_of : UpgradeableLoaderState → Option Pubkey
authority_of (State.buffer a) = a
authority_of (State.program_data slot a) = a
authority_of _ = none

abbrev pub replace_authority : UpgradeableLoaderState → Option Pubkey → UpgradeableLoaderState
replace_authority (State.buffer a) b = State.buffer b
replace_authority (State.program_data slot a) b = State.program_data slot b
replace_authority s b = s

abbrev pub IsBuffer : UpgradeableLoaderState → Type 0
IsBuffer s = (a : Option Pubkey) × (s ≡ State.buffer a)

-- What a successful SetAuthority has checked and done, from the state `s`.
pub record Replaced (sdk : Sdk) (account present : KeyedAccount) (new : Option Pubkey)
    (s : UpgradeableLoaderState) (c c' : InvokeContext) : Type 0 where
  pub was : state_of sdk account c ≡ ok s
  pub had_authority : authority_of s ≡ some present.unsigned_key
  pub signed : present.is_signer ≡ true
  pub state_now : state_of sdk account c' ≡ ok (replace_authority s new)
  pub buffer_keeps_one : IsBuffer s → new ≢ none
  pub lamports_kept : (c'.cells account.cell).lamports ≡ (c.cells account.cell).lamports
  pub others_kept : (q : ℕ) → q ≢ account.cell → c'.cells q ≡ c.cells q

new_state_checked :
    (s t : UpgradeableLoaderState) (present : KeyedAccount) (new : Option Pubkey)
    → new_state s present new ≡ ok t
    → (authority_of s ≡ some present.unsigned_key)
      × (present.is_signer ≡ true)
      × (t ≡ replace_authority s new)
      × (IsBuffer s → new ≢ none)
unfolding new_state
new_state_checked (State.buffer a) t present none e = cc
new_state_checked (State.buffer a) t present (some k) e =
    (ground arith, ground arith, ground arith, λ b h. cc)
new_state_checked (State.program_data slot a) t present new e =
    (ground arith, ground arith, ground arith, λ b. cc (b.1))
new_state_checked State.uninitialized t present new e = cc
new_state_checked (State.program k) t present new e = cc

pub with_state-stored :
    (sdk : Sdk) (t : UpgradeableLoaderState) (a b : Account)
    → IsStateCodec sdk
    → with_state sdk t a ≡ ok b
    → (sdk.state b.data_bytes ≡ ok t) × (b.lamports ≡ a.lamports)
with_state-stored sdk t a b codec e =
    (ground (arith, codec.state-set_state t a.data_bytes b.data_bytes), ground arith)

-- `Replaced` for the state that the account had and the new authority that was given.
abbrev pub ReplacedBy :
    Sdk
    → List KeyedAccount
    → ℕ
    → KeyedAccount
    → KeyedAccount
    → InvokeContext
    → InvokeContext
    → Type 0
ReplacedBy sdk accounts first account present c c' =
    (s : UpgradeableLoaderState) × Replaced sdk account present
      (optional_key (keyed_account_at_index accounts (first + 2))) s c c'

-- A successful SetAuthority was signed by the authority that the account had; it puts the new one
-- in its place, which for a Buffer is never none, and changes no lamports and no other account.
pub set_authority-Replaced :
    (sdk : Sdk) (accounts : List KeyedAccount) (first : ℕ) (c c' : InvokeContext)
    (account present : KeyedAccount)
    → IsStateCodec sdk
    → keyed_account_at_index accounts first ≡ ok account
    → keyed_account_at_index accounts (first + 1) ≡ ok present
    → set_authority sdk accounts first c ≡ (ok tt, c')
    → ReplacedBy sdk accounts first account present c c'
unfolding set_authority
set_authority-Replaced sdk accounts first c c' account present codec ea ep e =
    At-ok _ (ReplacedBy sdk accounts first account present c) c c' tt
      (At-known _ _ account ea (
        At-known _ _ present ep (
          At-reads (state_of sdk account) _ λ s es.
            At-lift _ _ λ t et. At-modify account.cell _ λ b eb. (s, replaced s t b es et eb))))
      e
  where
    replaced :
        (s t : UpgradeableLoaderState) (b : Account)
        → state_of sdk account c ≡ ok s
        → new_state s present (optional_key (keyed_account_at_index accounts (first + 2))) ≡ ok t
        → with_state sdk t (c.cells account.cell) ≡ ok b
        → Replaced sdk account present
            (optional_key (keyed_account_at_index accounts (first + 2)))
            s
            c
            (record c { cells = update c.cells account.cell b })
    replaced s t b es et eb =
        let (had, signed, next, keeps) = new_state_checked s t present _ et in
        let (stored, same) = with_state-stored sdk t (c.cells account.cell) b codec eb in
        record {
          was = es;
          had_authority = had;
          signed = signed;
          state_now =
              subst
                (λ (y : Account).
                  sdk.state y.data_bytes
                  ≡ ok (
                      replace_authority s
                        (optional_key (keyed_account_at_index accounts (first + 2)))))
                (sym (update_self c.cells account.cell b)) (stored ∙ ap ok next);
          buffer_keeps_one = keeps;
          lamports_kept = rw (==_refl account.cell) same;
          others_kept = λ q ne. update_ne c.cells account.cell q b (λ w. ne (sym w));
        }
