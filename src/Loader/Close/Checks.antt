-- ===== src/Loader/Close/Checks.antt =====
-- What Close asks for, and that a Close that succeeds had it.
use solana_sdk_sample.Base.{
  ℕ, ◌+◌, ◌<◌, ◌≡◌, ◌≢◌, refl, ap, sym, subst, ◌∙◌, true, Option, some, List, arith, u64_bound,
  ==_ne,
}
use solana_sdk_sample.Runtime.Outcome.{ok}
use solana_sdk_sample.Runtime.Account.{
  Account, Pubkey, KeyedAccount, InvokeContext, keyed_account_at_index, update, update_self,
  update_ne,
}
use solana_sdk_sample.Runtime.Action
use solana_sdk_sample.Runtime.Action.{lift, lamports_while}
use solana_sdk_sample.Runtime.Action.Triple.{
  Triple, Triple-bind, Triple-modify_account, Triple-strengthen, Triple-weaken, Triple-lift_bind,
}
use solana_sdk_sample.Runtime.Action.At.{
  At, At-reads, At-lift, At-lift_end, Triple-from, At-modify, At-modify_bind,
}
use solana_sdk_sample.Runtime.Sdk.{Sdk}
use solana_sdk_sample.Runtime.Sdk.Laws.{IsCheckedAdd, IsStateCodec}
use solana_sdk_sample.State
use solana_sdk_sample.State.{UpgradeableLoaderState}
use solana_sdk_sample.Loader.Accounts.{check_authority, state_of, set_lamports, credit}
use solana_sdk_sample.Loader.Close.{
  program_address, drain, common_close_account, check_program, close_by_state,
}
use solana_sdk_sample.Loader.Close.Laws.{check_authority-ok}

-- The account is an authority that signed.
pub record Signs (accounts : List KeyedAccount) (i : ℕ) (key : Pubkey) : Type 0 where
  pub account : KeyedAccount
  pub at : keyed_account_at_index accounts i ≡ ok account
  pub has_key : key ≡ account.unsigned_key
  pub signed : account.is_signer ≡ true

-- The account is a writable Program account of the loader that points to the address.
pub record Points (sdk : Sdk) (accounts : List KeyedAccount) (i : ℕ) (id address : Pubkey)
    (c : InvokeContext) : Type 0 where
  pub program : KeyedAccount
  pub at : keyed_account_at_index accounts i ≡ ok program
  pub is_writable : program.is_writable ≡ true
  pub owned : (c.cells program.cell).owner ≡ id
  pub points : state_of sdk program c ≡ ok (State.program address)

-- What Close asks for in each state of the account.
pub data ClosesFrom (sdk : Sdk) (accounts : List KeyedAccount) (first : ℕ) (id : Pubkey)
    (closed : KeyedAccount) (c : InvokeContext) : UpgradeableLoaderState → Type 0 where
  uninitialized : ClosesFrom sdk accounts first id closed c State.uninitialized
  buffer :
      {key : Pubkey}
      → Signs accounts (first + 2) key
      → ClosesFrom sdk accounts first id closed c (State.buffer (some key))
  program_data :
      {slot : ℕ} {key : Pubkey}
      → Signs accounts (first + 2) key
      → Points sdk accounts (first + 3) id closed.unsigned_key c
      → ClosesFrom sdk accounts first id closed c (State.program_data slot (some key))

-- The two accounts of Close are two, and the lamports fit into one.
pub record MayDrain (closed recipient : KeyedAccount) (c : InvokeContext) : Type 0 where
  pub two_accounts : recipient.cell ≢ closed.cell
  pub sum_fits : (c.cells recipient.cell).lamports + (c.cells closed.cell).lamports < u64_bound

pub record MayClose (sdk : Sdk) (accounts : List KeyedAccount) (first : ℕ) (id : Pubkey)
    (closed recipient : KeyedAccount) (s : UpgradeableLoaderState) (c : InvokeContext)
    : Type 0 where
  pub two_keys : closed.unsigned_key ≢ recipient.unsigned_key
  pub drains : MayDrain closed recipient c
  pub from_state : ClosesFrom sdk accounts first id closed c s

module _ (sdk : Sdk) (law : IsCheckedAdd sdk) (codec : IsStateCodec sdk)
    (closed recipient : KeyedAccount) (c : InvokeContext) where
  abbrev amount : ℕ
  amount = (c.cells closed.cell).lamports

  abbrev paid : Account
  paid = let old = c.cells recipient.cell in record old { lamports = old.lamports + amount }

  abbrev pub drained : InvokeContext
  drained =
      let cells = update c.cells recipient.cell paid in
      record c { cells = update cells closed.cell (record (cells closed.cell) { lamports = 0 }) }

  pub drain-drained : MayDrain closed recipient c → drain sdk closed recipient c ≡ (ok tt, drained)
  unfolding drain Action.◌>>=◌
  drain-drained m =
      let free : lamports_while recipient.cell closed.cell c ≡ ok amount =
        rw (==_ne recipient.cell closed.cell m.two_accounts) in
      let credited : credit sdk amount (c.cells recipient.cell) ≡ ok paid =
        rw (law.fits (c.cells recipient.cell).lamports amount m.sum_fits) in
      rw (free, credited)

  pub drained-data :
      MayDrain closed recipient c
      → (drained.cells closed.cell).data_bytes ≡ (c.cells closed.cell).data_bytes
  drained-data m =
      let cells = update c.cells recipient.cell paid in
      ap (λ (a : Account). a.data_bytes)
        (update_self cells closed.cell (record (cells closed.cell) { lamports = 0 }))
      ∙ ap (λ (a : Account). a.data_bytes)
          (update_ne c.cells recipient.cell closed.cell paid m.two_accounts)

  drain-MayDrain : Triple (At c) (drain sdk closed recipient) (λ d. MayDrain closed recipient c)
  unfolding drain
  drain-MayDrain = At-reads (lamports_while recipient.cell closed.cell) _ λ n en.
      At-modify_bind recipient.cell (credit sdk n) _ λ a ea.
        At-modify closed.cell (set_lamports 0) λ b eb. record {
          two_accounts = λ same. ground arith;
          sum_fits = ground (arith, law.overflows (c.cells recipient.cell).lamports amount);
        }

  Signs-from :
      (accounts : List KeyedAccount) (i : ℕ) (o : Option Pubkey) (a : KeyedAccount)
      → keyed_account_at_index accounts i ≡ ok a
      → check_authority o a ≡ ok tt
      → (key : Pubkey) × (o ≡ some key) × Signs accounts i key
  Signs-from accounts i o a ea e =
      let (is, signed) = check_authority-ok o a e in
      (a.unsigned_key, is, record { account = a; at = ea; has_key = refl; signed = signed })

  common_close_account-MayDrain :
      (o : Option Pubkey) (authority : KeyedAccount) (X : Type 0)
      → (check_authority o authority ≡ ok tt → MayDrain closed recipient c → X)
      → Triple (At c) (common_close_account sdk o authority closed recipient) (λ d. X)
  unfolding common_close_account
  common_close_account-MayDrain o authority X so =
      At-lift (check_authority o authority) _ λ _ allowed.
        Triple-bind _ _ drain-MayDrain
          λ _. Triple-modify_account closed.cell _ λ d b h eb. so allowed h

  check_program-Points :
      (accounts : List KeyedAccount) (i : ℕ) (program : KeyedAccount) (id : Pubkey)
      → keyed_account_at_index accounts i ≡ ok program
      → Triple
          (At c)
          (check_program sdk program closed id)
          (λ d. At c d × Points sdk accounts i id closed.unsigned_key c)
  unfolding check_program
  check_program-Points accounts i program id ep = At-lift _ _ λ _ writable. At-reads _ _ λ owner eo.
      At-lift _ _ λ _ owned. At-reads (state_of sdk program) _ λ s es.
        At-lift (program_address s) _ λ address ea. At-lift_end _ λ _ same. (
          refl,
          record {
            program = program;
            at = ep;
            is_writable = ground arith;
            owned = ground (arith, eo, owned);
            points = ground (arith, es, ea, same);
          },
        )

  pub close_by_state-MayClose :
      (s : UpgradeableLoaderState) (accounts : List KeyedAccount) (first : ℕ) (id : Pubkey)
      → Triple
          (At c)
          (close_by_state sdk s accounts first id closed recipient)
          (λ d. MayDrain closed recipient c × ClosesFrom sdk accounts first id closed c s)
  unfolding close_by_state lift
  close_by_state-MayClose State.uninitialized accounts first id =
      Triple-strengthen _ drain-MayDrain λ d m. (m, uninitialized)
  close_by_state-MayClose (State.buffer o) accounts first id = At-lift _ _ λ a ea.
      common_close_account-MayDrain o a _ λ e m.
        let (key, is, signs) = Signs-from accounts (first + 2) o a ea e in
        (
          m,
          subst (λ o. ClosesFrom sdk accounts first id closed c (State.buffer o)) (sym is)
              (buffer signs),
        )
  close_by_state-MayClose (State.program_data slot o) accounts first id = At-lift _ _ λ p ep.
      Triple-bind _ _ (check_program-Points accounts (first + 3) p id ep) λ _.
        Triple-lift_bind _ _ λ a ea. Triple-from _ λ d h.
          Triple-weaken _
            (common_close_account-MayDrain o a _ λ e m.
              let (key, is, signs) = Signs-from accounts (first + 2) o a ea e in
              (
                m,
                subst (λ o. ClosesFrom sdk accounts first id closed c (State.program_data slot o))
                    (sym is) (program_data signs h.1),
              ))
            (λ e same. same ∙ h.0)
  close_by_state-MayClose (State.program k) accounts first id = record { at = λ d h. tt }
