-- ===== src/Loader/Buffer.antt =====
-- scripts/ref/bpf_loader/src/lib.rs: `write_program_data`, and the instructions InitializeBuffer
-- and Write of the upgradeable loader.
pub mod Laws
pub mod Initialize
pub mod Upload
use solana_sdk_sample.Base.{
  ℕ, ◌+◌, Bool, not, Option, some, List, ltb, length, splice, if◌then◌else◌,
}
use solana_sdk_sample.Runtime.Outcome.{
  Outcome, ok, err, fail_if, account_already_initialized, account_data_too_small,
  invalid_account_data,
}
use solana_sdk_sample.Runtime.Account.{
  Account, Bytes, KeyedAccount, InvokeContext, keyed_account_at_index,
}
use solana_sdk_sample.Runtime.Action.{Action, ◌>>=◌, ◌>>◌, reads, lift, modify_account}
use solana_sdk_sample.Runtime.Sdk.{Sdk}
use solana_sdk_sample.State
use solana_sdk_sample.State.{UpgradeableLoaderState, buffer_data_offset}
use solana_sdk_sample.Loader.Accounts.{check_authority, state_of, set_state_of}

abbrev pub is_uninitialized : UpgradeableLoaderState → Bool
is_uninitialized State.uninitialized = Bool.true
is_uninitialized _ = Bool.false

abbrev pub write_bytes : ℕ → Bytes → Account → Outcome Account
write_bytes offset bytes a =
    if ltb (length a.data_bytes) (offset + length bytes)
    then err account_data_too_small
    else ok (record a { data_bytes = splice offset bytes a.data_bytes })

-- `write_program_data`
unfoldable pub write_program_data : ℕ → ℕ → Bytes → Action (Unit {0})
write_program_data program_account_index program_data_offset bytes = do
  keyed_accounts ← reads (λ c. c.keyed_accounts)
  program ← lift (keyed_account_at_index keyed_accounts program_account_index)
  modify_account program.cell (write_bytes program_data_offset bytes)

-- The checks of Write on the buffer's state.
abbrev pub check_buffer : UpgradeableLoaderState → KeyedAccount → Outcome (Unit {0})
check_buffer (State.buffer authority_address) authority =
    check_authority authority_address authority
check_buffer _ authority = err invalid_account_data

module _ (sdk : Sdk) where
  unfoldable pub initialize_buffer : List KeyedAccount → ℕ → Action (Unit {0})
  initialize_buffer keyed_accounts first_instruction_account = do
    buffer ← lift (keyed_account_at_index keyed_accounts first_instruction_account)
    state ← reads (state_of sdk buffer)
    lift (fail_if (not (is_uninitialized state)) account_already_initialized)
    authority ← lift (keyed_account_at_index keyed_accounts (first_instruction_account + 1))
    set_state_of sdk buffer (State.buffer (some authority.unsigned_key))

  unfoldable pub write : List KeyedAccount → ℕ → ℕ → Bytes → Action (Unit {0})
  unfolding check_authority write_program_data
  write keyed_accounts first_instruction_account offset bytes = do
    buffer ← lift (keyed_account_at_index keyed_accounts first_instruction_account)
    authority ← lift (keyed_account_at_index keyed_accounts (first_instruction_account + 1))
    state ← reads (state_of sdk buffer)
    lift (check_buffer state authority)
    data_offset ← lift buffer_data_offset
    write_program_data first_instruction_account (data_offset + offset) bytes
