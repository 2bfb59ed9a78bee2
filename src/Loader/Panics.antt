-- ===== src/Loader/Panics.antt =====
-- The handlers that copy no program bits do not panic: no account, no data and no index makes them
-- slice out of range or overflow.
pub mod Checks
pub mod Upgrade
pub mod Whole
pub mod Fitted
pub mod Deploy
pub mod Any
pub mod Process
use solana_sdk_sample.Base.{ℕ, ◌+◌, ◌≡◌, ◌≢◌, refl, Bool, true, not, Option, List, arith, subst}
use solana_sdk_sample.Runtime.Outcome.{Outcome, ok, err, panic, fail_if, InstructionError}
use solana_sdk_sample.Runtime.Account.{
  Account, Bytes, Pubkey, KeyedAccount, InvokeContext, keyed_account_at_index,
}
use solana_sdk_sample.Runtime.Action.{modify_account, lamports_while}
use solana_sdk_sample.Runtime.Action.Triple.{Assertion}
use solana_sdk_sample.Runtime.Action.Calm.{
  Calm, Calm-lift, Calm-lift_bind, Calm-reads_bind, Calm-bind, Calm-modify_account,
}
use solana_sdk_sample.Runtime.Sdk.{Sdk}
use solana_sdk_sample.State
use solana_sdk_sample.State.{UpgradeableLoaderState}
use solana_sdk_sample.Loader.Accounts.{check_authority, with_state, credit, set_lamports, state_of}
use solana_sdk_sample.Loader.Buffer
use solana_sdk_sample.Loader.Buffer.{
  initialize_buffer, write_program_data, check_buffer, write_bytes, is_uninitialized,
}
use solana_sdk_sample.Loader.Authority.{set_authority, new_state}
use solana_sdk_sample.Loader.Close.{
  drain, program_address, common_close_account, check_program, close_by_state, close,
}

-- The SDK's functions that return a `Result` return one.
pub record IsTotal (sdk : Sdk) : Type 0 where
  pub state_returns : (d : Bytes) → sdk.state d ≢ panic
  pub set_state_returns : (s : UpgradeableLoaderState) (d : Bytes) → sdk.set_state s d ≢ panic
  pub add_returns : (a b : ℕ) → sdk.checked_add_lamports a b ≢ panic
  pub rent_returns : (k : Pubkey) (d : Bytes) → sdk.rent_from_keyed_account k d ≢ panic
  pub clock_returns : (k : Pubkey) (d : Bytes) → sdk.clock_from_keyed_account k d ≢ panic

pub index_returns :
    (accounts : List KeyedAccount) (i : ℕ) → keyed_account_at_index accounts i ≢ panic
index_returns accounts i e = ground arith

pub fail_if_returns : (b : Bool) (x : InstructionError) → fail_if b x ≢ panic
fail_if_returns b x e = ground arith

pub check_authority-returns : (o : Option Pubkey) (a : KeyedAccount) → check_authority o a ≢ panic
unfolding check_authority
check_authority-returns o a e = ground arith

check_buffer-returns : (s : UpgradeableLoaderState) (a : KeyedAccount) → check_buffer s a ≢ panic
unfolding check_authority
check_buffer-returns s a e = ground arith

new_state-returns :
    (s : UpgradeableLoaderState) (a : KeyedAccount) (o : Option Pubkey) → new_state s a o ≢ panic
unfolding new_state
new_state-returns s a o e = ground arith

program_address-returns : (s : UpgradeableLoaderState) → program_address s ≢ panic
program_address-returns s e = ground arith

module _ (sdk : Sdk) (total : IsTotal sdk) (accounts : List KeyedAccount) where
  abbrev pub Given : Assertion
  Given c = c.keyed_accounts ≡ ok accounts

  pub with_state-returns : (s : UpgradeableLoaderState) (a : Account) → with_state sdk s a ≢ panic
  with_state-returns s a e = ground (arith, total.set_state_returns s a.data_bytes)

  pub credit-returns : (n : ℕ) (a : Account) → credit sdk n a ≢ panic
  credit-returns n a e = ground (arith, total.add_returns a.lamports n)

  pub Calm-modify :
      (cell : ℕ) (f : Account → Outcome Account)
      → ((a : Account) → f a ≢ panic)
      → Calm Given (modify_account cell f) Given
  Calm-modify cell f calm = Calm-modify_account cell f (λ c h. calm (c.cells cell)) (λ c a h e. h)

  pub Calm-initialize_buffer : (first : ℕ) → Calm Given (initialize_buffer sdk accounts first) Given
  unfolding initialize_buffer
  Calm-initialize_buffer first = Calm-lift_bind _ _ (index_returns accounts first) λ b _.
      Calm-reads_bind (state_of sdk b) _ (λ c h. total.state_returns _)
        λ c h s _. Calm-lift_bind _ _ (fail_if_returns _ _) λ _ _.
          Calm-lift_bind _ _ (index_returns accounts (first + 1))
            λ a _. Calm-modify b.cell _ (with_state-returns _)

  Calm-write_program_data :
      (first offset : ℕ) (bytes : Bytes) → Calm Given (write_program_data first offset bytes) Given
  unfolding write_program_data
  Calm-write_program_data first offset bytes =
      Calm-reads_bind (λ c. c.keyed_accounts) _ (λ c h e. cc (h, e))
        λ c h found _.
          Calm-lift_bind _ _ (index_returns found first)
            λ p _. Calm-modify p.cell (write_bytes offset bytes) (λ a e. ground arith)

  pub Calm-write :
      (first offset : ℕ) (bytes : Bytes)
      → Calm Given (Buffer.write sdk accounts first offset bytes) Given
  unfolding Buffer.write
  Calm-write first offset bytes = Calm-lift_bind _ _ (index_returns accounts first) λ b _.
      Calm-lift_bind _ _ (index_returns accounts (first + 1)) λ a _.
        Calm-reads_bind (state_of sdk b) _ (λ c h. total.state_returns _)
          λ c h s _. Calm-lift_bind _ _ (check_buffer-returns s a) λ _ _.
            Calm-lift_bind _ _ (λ e. cc) λ o _. Calm-write_program_data first (o + offset) bytes

  pub Calm-set_authority : (first : ℕ) → Calm Given (set_authority sdk accounts first) Given
  unfolding set_authority
  Calm-set_authority first = Calm-lift_bind _ _ (index_returns accounts first) λ a _.
      Calm-lift_bind _ _ (index_returns accounts (first + 1)) λ p _.
        Calm-reads_bind (state_of sdk a) _ (λ c h. total.state_returns _)
          λ c h s _.
            Calm-lift_bind _ _ (new_state-returns s p _)
              λ t _. Calm-modify a.cell _ (with_state-returns t)

  pub Calm-drain : (source recipient : KeyedAccount) → Calm Given (drain sdk source recipient) Given
  unfolding drain
  Calm-drain source recipient =
      Calm-reads_bind (lamports_while recipient.cell source.cell) _ (λ c h e. ground arith)
        λ c h n _.
          Calm-bind _ _ (Calm-modify recipient.cell _ (credit-returns n))
            λ _. Calm-modify source.cell (set_lamports 0) (λ a e. cc)

  Calm-common_close_account :
      (o : Option Pubkey) (a closed recipient : KeyedAccount)
      → Calm Given (common_close_account sdk o a closed recipient) Given
  unfolding common_close_account
  Calm-common_close_account o a closed recipient =
      Calm-lift_bind _ _ (check_authority-returns o a) λ _ _.
        Calm-bind _ _ (Calm-drain closed recipient)
          λ _. Calm-modify closed.cell _ (with_state-returns _)

  Calm-check_program :
      (program closed : KeyedAccount) (id : Pubkey)
      → Calm Given (check_program sdk program closed id) Given
  unfolding check_program
  Calm-check_program program closed id = Calm-lift_bind _ _ (fail_if_returns _ _) λ _ _.
      Calm-reads_bind _ _ (λ c h e. cc)
        λ c h o _. Calm-lift_bind _ _ (fail_if_returns _ _) λ _ _.
          Calm-reads_bind (state_of sdk program) _ (λ c h. total.state_returns _)
            λ c h s _.
              Calm-lift_bind _ _ (program_address-returns s)
                λ k _. Calm-lift _ (fail_if_returns _ _)

  Calm-close_by_state :
      (s : UpgradeableLoaderState) (first : ℕ) (id : Pubkey) (closed recipient : KeyedAccount)
      → Calm Given (close_by_state sdk s accounts first id closed recipient) Given
  unfolding close_by_state
  Calm-close_by_state State.uninitialized first id closed recipient = Calm-drain closed recipient
  Calm-close_by_state (State.buffer o) first id closed recipient =
      Calm-lift_bind _ _ (index_returns accounts (first + 2))
        λ a _. Calm-common_close_account o a closed recipient
  Calm-close_by_state (State.program_data slot o) first id closed recipient =
      Calm-lift_bind _ _ (index_returns accounts (first + 3)) λ p _.
        Calm-bind _ _ (Calm-check_program p closed id) λ _.
          Calm-lift_bind _ _ (index_returns accounts (first + 2))
            λ a _. Calm-common_close_account o a closed recipient
  Calm-close_by_state (State.program k) first id closed recipient = Calm-lift _ (λ e. cc)

  pub Calm-close : (first : ℕ) (id : Pubkey) → Calm Given (close sdk accounts first id) Given
  unfolding close
  Calm-close first id = Calm-lift_bind _ _ (index_returns accounts first) λ closed _.
      Calm-lift_bind _ _ (index_returns accounts (first + 1)) λ recipient _.
        Calm-lift_bind _ _ (fail_if_returns _ _) λ _ _.
          Calm-reads_bind (state_of sdk closed) _ (λ c h. total.state_returns _)
            λ c h s _. Calm-close_by_state s first id closed recipient
