-- ===== src/Loader/Upgrade.antt =====
-- scripts/ref/bpf_loader/src/lib.rs: the checks of the instruction Upgrade.
pub mod Commit
pub mod Laws
pub mod Whole
pub mod Room
pub mod Success
use solana_sdk_sample.Base.{
  ℕ, ◌+◌, Bool, not, Option, none, some, List, ◌==◌, ltb, max, saturating_sub,
}
use solana_sdk_sample.Runtime.Outcome.{
  Outcome, ok, err, ◌>>=◌, ◌>>◌, fail_if, add_u64, account_data_too_small, account_not_executable,
  incorrect_program_id, insufficient_funds, invalid_account_data, invalid_argument,
}
use solana_sdk_sample.Runtime.Account.{Pubkey, KeyedAccount, InvokeContext, keyed_account_at_index}
use solana_sdk_sample.Runtime.Sdk.{Sdk, Rent, Clock}
use solana_sdk_sample.State
use solana_sdk_sample.State.{
  UpgradeableLoaderState, buffer_data_offset, programdata_len, programdata_data_offset,
}
use solana_sdk_sample.Loader.Accounts.{check_authority, state_of}
use solana_sdk_sample.Loader.Deploy.{
  match_buffer_authority, check_buffer_size, data_len, rent_of, clock_of,
}

pub record UpgradeAccounts : Type 0 where
  pub programdata : KeyedAccount
  pub program : KeyedAccount
  pub buffer : KeyedAccount
  pub rent : Rent
  pub clock : Clock
  pub authority : KeyedAccount

pub record UpgradeLengths : Type 0 where
  pub buffer_data_offset : ℕ
  pub buffer_data_len : ℕ
  pub programdata_data_offset : ℕ
  pub programdata_balance_required : ℕ

abbrev pub check_program_state : UpgradeableLoaderState → KeyedAccount → Outcome (Unit {0})
check_program_state (State.program programdata_address) programdata =
    fail_if (not (programdata_address == programdata.unsigned_key)) invalid_argument
check_program_state _ programdata = err invalid_account_data

abbrev pub check_programdata_state : UpgradeableLoaderState → KeyedAccount → Outcome (Unit {0})
check_programdata_state (State.program_data slot upgrade_authority_address) authority =
    check_authority upgrade_authority_address authority
check_programdata_state _ authority = err invalid_account_data

module _ (sdk : Sdk) where
  unfoldable pub upgrade_accounts : List KeyedAccount → ℕ → InvokeContext → Outcome UpgradeAccounts
  upgrade_accounts keyed_accounts first c = do
    programdata ← keyed_account_at_index keyed_accounts first
    program ← keyed_account_at_index keyed_accounts (first + 1)
    buffer ← keyed_account_at_index keyed_accounts (first + 2)
    rent ← rent_of sdk keyed_accounts (first + 4) c
    clock ← clock_of sdk keyed_accounts (first + 5) c
    authority ← keyed_account_at_index keyed_accounts (first + 6)
    ok (record {
      programdata = programdata;
      program = program;
      buffer = buffer;
      rent = rent;
      clock = clock;
      authority = authority;
    })

  -- "Verify Program account"
  unfoldable pub verify_program : UpgradeAccounts → Pubkey → InvokeContext → Outcome (Unit {0})
  verify_program u program_id c = do
    fail_if (not (c.cells u.program.cell).executable) account_not_executable
    fail_if (not u.program.is_writable) invalid_argument
    fail_if (not ((c.cells u.program.cell).owner == program_id)) incorrect_program_id
    state ← state_of sdk u.program c
    check_program_state state u.programdata

  -- "Verify Buffer account"
  unfoldable pub verify_buffer : UpgradeAccounts → InvokeContext → Outcome UpgradeLengths
  verify_buffer u c = do
    state ← state_of sdk u.buffer c
    match_buffer_authority state u.authority
    data_offset ← buffer_data_offset
    programdata_offset ← programdata_data_offset
    check_buffer_size (data_len u.buffer c)
    ok (record {
      buffer_data_offset = data_offset;
      buffer_data_len = saturating_sub (data_len u.buffer c) data_offset;
      programdata_data_offset = programdata_offset;
      programdata_balance_required = max 1 (u.rent.minimum_balance (data_len u.programdata c));
    })

  -- "Verify ProgramData account"
  unfoldable pub verify_programdata :
      UpgradeAccounts → UpgradeLengths → InvokeContext → Outcome (Unit {0})
  unfolding check_authority
  verify_programdata u l c = do
    needed ← programdata_len l.buffer_data_len
    fail_if (ltb (data_len u.programdata c) needed) account_data_too_small
    funds ← add_u64 (c.cells u.programdata.cell).lamports (c.cells u.buffer.cell).lamports
    fail_if (ltb funds l.programdata_balance_required) insufficient_funds
    state ← state_of sdk u.programdata c
    check_programdata_state state u.authority
