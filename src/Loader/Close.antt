-- ===== src/Loader/Close.antt =====
-- scripts/ref/bpf_loader/src/lib.rs: the instruction Close, and `common_close_account`.
pub mod Laws
pub mod Checks
pub mod Exact
use solana_sdk_sample.Base.{ℕ, ◌+◌, not, Option, List, ◌==◌}
use solana_sdk_sample.Runtime.Outcome.{
  Outcome, ok, err, fail_if, incorrect_program_id, invalid_argument,
}
use solana_sdk_sample.Runtime.Account.{Pubkey, KeyedAccount, InvokeContext, keyed_account_at_index}
use solana_sdk_sample.Runtime.Action.{
  Action, ◌>>=◌, ◌>>◌, reads, lift, modify_account, lamports_while,
}
use solana_sdk_sample.Runtime.Sdk.{Sdk}
use solana_sdk_sample.State
use solana_sdk_sample.State.{UpgradeableLoaderState}
use solana_sdk_sample.Loader.Accounts.{
  check_authority, set_lamports, state_of, set_state_of, credit,
}

-- `programdata_address` of a Program account
abbrev pub program_address : UpgradeableLoaderState → Outcome Pubkey
program_address (State.program programdata_address) = ok programdata_address
program_address _ = err invalid_argument

module _ (sdk : Sdk) where
  -- All lamports of `source` go to `recipient`.
  unfoldable pub drain : KeyedAccount → KeyedAccount → Action (Unit {0})
  drain source recipient = do
    amount ← reads (lamports_while recipient.cell source.cell)
    modify_account recipient.cell (credit sdk amount)
    modify_account source.cell (set_lamports 0)

  unfoldable pub common_close_account :
      Option Pubkey → KeyedAccount → KeyedAccount → KeyedAccount → Action (Unit {0})
  unfolding check_authority drain
  common_close_account authority_address authority_account close_account recipient_account = do
    lift (check_authority authority_address authority_account)
    drain close_account recipient_account
    set_state_of sdk close_account State.uninitialized

  -- The checks on the Program account whose ProgramData account is closed.
  unfoldable pub check_program : KeyedAccount → KeyedAccount → Pubkey → Action (Unit {0})
  check_program program_account close_account program_id = do
    lift (fail_if (not program_account.is_writable) invalid_argument)
    owner ← reads (λ c. ok (c.cells program_account.cell).owner)
    lift (fail_if (not (owner == program_id)) incorrect_program_id)
    state ← reads (state_of sdk program_account)
    programdata_address ← lift (program_address state)
    lift (fail_if (not (programdata_address == close_account.unsigned_key)) invalid_argument)

  -- `match close_account.state()?`
  unfoldable pub close_by_state :
      UpgradeableLoaderState
      → List KeyedAccount
      → ℕ
      → Pubkey
      → KeyedAccount
      → KeyedAccount
      → Action (Unit {0})
  unfolding common_close_account check_program
  close_by_state State.uninitialized keyed_accounts first program_id close_account recipient =
      drain close_account recipient
  close_by_state (State.buffer authority_address) keyed_accounts first program_id close_account
        recipient =
      do
        authority ← lift (keyed_account_at_index keyed_accounts (first + 2))
        common_close_account authority_address authority close_account recipient
  close_by_state (State.program_data slot authority_address) keyed_accounts first program_id
        close_account recipient =
      do
        program_account ← lift (keyed_account_at_index keyed_accounts (first + 3))
        check_program program_account close_account program_id
        authority ← lift (keyed_account_at_index keyed_accounts (first + 2))
        common_close_account authority_address authority close_account recipient
  close_by_state _ keyed_accounts first program_id close_account recipient =
      lift (err invalid_argument)

  unfoldable pub close : List KeyedAccount → ℕ → Pubkey → Action (Unit {0})
  unfolding close_by_state
  close keyed_accounts first_instruction_account program_id = do
    close_account ← lift (keyed_account_at_index keyed_accounts first_instruction_account)
    recipient_account ← lift (keyed_account_at_index keyed_accounts (first_instruction_account + 1))
    lift (fail_if (close_account.unsigned_key == recipient_account.unsigned_key) invalid_argument)
    state ← reads (state_of sdk close_account)
    close_by_state state keyed_accounts first_instruction_account program_id close_account
        recipient_account
