-- ===== src/Loader/Close/Exact.antt =====
-- Exactly when Close succeeds.
use solana_sdk_sample.Base.{
  ℕ, ◌+◌, ◌≤◌, ◌≡◌, ◌↔◌, ap, subst, true, some, List, length, arith, ==_ne, ==_refl,
}
use solana_sdk_sample.Runtime.Outcome.{Outcome, ok, ◌>>=◌}
use solana_sdk_sample.Runtime.Account.{
  Account, Bytes, Pubkey, KeyedAccount, InvokeContext, keyed_account_at_index,
}
use solana_sdk_sample.Runtime.Action
use solana_sdk_sample.Runtime.Action.{lift, lamports_while}
use solana_sdk_sample.Runtime.Action.Success.{
  Succeeds, Succeeds-lift, Succeeds-reads, Succeeds-modify, Succeeds-bind,
}
use solana_sdk_sample.Runtime.Action.Triple.{Triple, Triple-strengthen}
use solana_sdk_sample.Runtime.Action.At.{At, At-known, At-reads, At-lift, At-ok}
use solana_sdk_sample.Runtime.Sdk.{Sdk}
use solana_sdk_sample.Runtime.Sdk.Laws.{IsCheckedAdd, IsStateCodec}
use solana_sdk_sample.State
use solana_sdk_sample.State.{UpgradeableLoaderState}
use solana_sdk_sample.Loader.Accounts.{check_authority, state_of}
use solana_sdk_sample.Loader.Close.{
  drain, common_close_account, check_program, close_by_state, close,
}
use solana_sdk_sample.Loader.Close.Checks.{
  Points, ClosesFrom, uninitialized, buffer, program_data, MayDrain, MayClose, drained,
  drain-drained, drained-data, close_by_state-MayClose,
}

module _ (sdk : Sdk) (law : IsCheckedAdd sdk) (codec : IsStateCodec sdk)
    (closed recipient : KeyedAccount) (c : InvokeContext) where
  abbrev now : InvokeContext
  now = drained sdk law codec closed recipient c

  check_authority-accepts :
      (authority : KeyedAccount) (key : Pubkey)
      → key ≡ authority.unsigned_key
      → authority.is_signer ≡ true
      → check_authority (some key) authority ≡ ok tt
  unfolding check_authority
  check_authority-accepts authority key same signed = ground arith

  -- The end of Close after the checks.
  common_close_account-Succeeds :
      (authority : KeyedAccount) (key : Pubkey)
      → key ≡ authority.unsigned_key
      → authority.is_signer ≡ true
      → 4 ≤ length (c.cells closed.cell).data_bytes
      → MayDrain closed recipient c
      → Succeeds (common_close_account sdk (some key) authority closed recipient) c
  unfolding common_close_account
  common_close_account-Succeeds authority key same signed room m =
      let (d, stored) =
        codec.set_state_fits State.uninitialized (now.cells closed.cell).data_bytes
          (omega (arith, ap length (drained-data sdk law codec closed recipient c m), room)) in
      let b : Account = record (now.cells closed.cell) { data_bytes = d } in
      Succeeds-lift _ _ c tt (check_authority-accepts authority key same signed) (
        Succeeds-bind (drain sdk closed recipient) _ c now tt
          (drain-drained sdk law codec closed recipient c m)
          (Succeeds-modify closed.cell _ now b (
            ap
              (λ (r : Outcome Bytes).
                r >>= λ d. ok (record (now.cells closed.cell) { data_bytes = d }))
              stored)))

  check_program-runs :
      (accounts : List KeyedAccount) (i : ℕ) (id : Pubkey)
      → (p : Points sdk accounts i id closed.unsigned_key c)
      → check_program sdk p.program closed id c ≡ (ok tt, c)
  unfolding check_program Action.◌>>=◌
  check_program-runs accounts i id p =
      rw (p.is_writable, p.owned, ==_refl id, p.points, ==_refl closed.unsigned_key)

  close_by_state-Succeeds :
      (s : UpgradeableLoaderState) (accounts : List KeyedAccount) (first : ℕ) (id : Pubkey)
      → 4 ≤ length (c.cells closed.cell).data_bytes
      → MayDrain closed recipient c
      → ClosesFrom sdk accounts first id closed c s
      → Succeeds (close_by_state sdk s accounts first id closed recipient) c
  unfolding close_by_state
  close_by_state-Succeeds s accounts first id room m uninitialized =
      ap (λ (r : Outcome (Unit {0}) × InvokeContext). r.0)
        (drain-drained sdk law codec closed recipient c m)
  close_by_state-Succeeds s accounts first id room m (buffer {key} signs) =
      Succeeds-lift _ _ c signs.account signs.at
        (common_close_account-Succeeds signs.account key signs.has_key signs.signed room m)
  close_by_state-Succeeds s accounts first id room m (program_data {slot} {key} signs points) =
      Succeeds-lift _ _ c points.program points.at (
        Succeeds-bind (check_program sdk points.program closed id) _ c c tt
          (check_program-runs accounts (first + 3) id points)
          (Succeeds-lift _ _ c signs.account signs.at
            (common_close_account-Succeeds signs.account key signs.has_key signs.signed room m)))

-- Close on an account with at least four bytes succeeds exactly when its key is not the recipient's,
-- the two are two accounts whose lamports fit into one, and the account is uninitialised, or is a
-- Buffer or ProgramData account whose authority is the third account and signed; for a ProgramData
-- account the fourth has to be the writable Program account of the loader that points to it.
pub close_iff :
    (sdk : Sdk) (accounts : List KeyedAccount) (first : ℕ) (id : Pubkey) (c : InvokeContext)
    (closed recipient : KeyedAccount) (s : UpgradeableLoaderState)
    → IsCheckedAdd sdk
    → IsStateCodec sdk
    → keyed_account_at_index accounts first ≡ ok closed
    → keyed_account_at_index accounts (first + 1) ≡ ok recipient
    → state_of sdk closed c ≡ ok s
    → 4 ≤ length (c.cells closed.cell).data_bytes
    → ((close sdk accounts first id c).0 ≡ ok tt)
      ↔ MayClose sdk accounts first id closed recipient s c
unfolding close
close_iff sdk accounts first id c closed recipient s law codec ec er es room = (
  λ e.
      At-ok _ (λ d. MayClose sdk accounts first id closed recipient s c) c
        (close sdk accounts first id c).1 tt
        (At-known _ _ closed ec (
          At-known _ _ recipient er (
            At-lift _ _ λ _ differ. At-reads (state_of sdk closed) _ λ t et.
              subst
                (λ t.
                  Triple (At c) (close_by_state sdk t accounts first id closed recipient)
                    (λ d. MayClose sdk accounts first id closed recipient s c))
                (cc)
                (Triple-strengthen _
                  (close_by_state-MayClose sdk law codec closed recipient c s accounts first id)
                  λ d m. record {
                    two_keys = λ same. ground arith;
                    drains = m.0;
                    from_state = m.1;
                  }))))
        (λ i. (e i, (close sdk accounts first id c).1)),
  λ m. Succeeds-lift _ _ c closed ec (
      Succeeds-lift _ _ c recipient er (
        Succeeds-lift _ _ c tt (rw (==_ne closed.unsigned_key recipient.unsigned_key m.two_keys)) (
          Succeeds-reads (state_of sdk closed) _ c s es (
            close_by_state-Succeeds sdk law codec closed recipient c s accounts first id room
              m.drains m.from_state)))),
)
