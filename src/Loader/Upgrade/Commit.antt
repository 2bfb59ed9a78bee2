-- ===== src/Loader/Upgrade/Commit.antt =====
-- scripts/ref/bpf_loader/src/lib.rs: the part of Upgrade that changes the context, and the whole
-- instruction.
use solana_sdk_sample.Base.{ℕ, ◌+◌, Bool, some, List, saturating_sub}
use solana_sdk_sample.Runtime.Outcome.{add_u64}
use solana_sdk_sample.Runtime.Account.{Pubkey, KeyedAccount, keyed_account_at_index}
use solana_sdk_sample.Runtime.Action.{
  Action, ◌>>=◌, ◌>>◌, reads, lift, modify_account, lamports_while,
}
use solana_sdk_sample.Runtime.Sdk.{Sdk}
use solana_sdk_sample.State
use solana_sdk_sample.Loader.Accounts.{set_lamports, zero_from, set_state_of, credit}
use solana_sdk_sample.Loader.Executor.{create_executor}
use solana_sdk_sample.Loader.Deploy.Commit.{add_executor, copy_program}
use solana_sdk_sample.Loader.Upgrade.{
  UpgradeAccounts, UpgradeLengths, upgrade_accounts, verify_program, verify_buffer,
  verify_programdata,
}

module _ (sdk : Sdk) where
  -- "Fund ProgramData to rent-exemption, spill the rest"
  unfoldable pub fund_programdata :
      KeyedAccount → KeyedAccount → KeyedAccount → ℕ → Action (Unit {0})
  fund_programdata programdata buffer spill programdata_balance_required = do
    held ← reads (lamports_while spill.cell programdata.cell)
    brought ← reads (lamports_while spill.cell buffer.cell)
    funds ← lift (add_u64 held brought)
    modify_account spill.cell (credit sdk (saturating_sub funds programdata_balance_required))
    modify_account buffer.cell (set_lamports 0)
    modify_account programdata.cell (set_lamports programdata_balance_required)

  -- "Update the ProgramData account, record the upgraded data, and zero the rest"
  unfoldable pub record_upgrade :
      UpgradeAccounts → UpgradeLengths → List KeyedAccount → ℕ → Action (Unit {0})
  record_upgrade u l keyed_accounts first = do
    programdata ← lift (keyed_account_at_index keyed_accounts first)
    buffer ← lift (keyed_account_at_index keyed_accounts (first + 2))
    spill ← lift (keyed_account_at_index keyed_accounts (first + 3))
    authority ← lift (keyed_account_at_index keyed_accounts (first + 6))
    set_state_of sdk programdata (State.program_data u.clock.slot (some authority.unsigned_key))
    copy_program programdata l.programdata_data_offset l.buffer_data_len buffer l.buffer_data_offset
    modify_account programdata.cell (zero_from (l.programdata_data_offset + l.buffer_data_len))
    fund_programdata programdata buffer spill l.programdata_balance_required

  unfoldable pub upgrade : List KeyedAccount → ℕ → Pubkey → Bool → Action (Unit {0})
  upgrade keyed_accounts first program_id use_jit = do
    u ← reads (upgrade_accounts sdk keyed_accounts first)
    reads (verify_program sdk u program_id)
    l ← reads (verify_buffer sdk u)
    reads (verify_programdata sdk u l)
    executor ← reads (create_executor sdk (first + 2) l.buffer_data_offset use_jit)
    add_executor u.program.unsigned_key executor
    keyed_accounts_after ← reads (λ c. c.keyed_accounts)
    record_upgrade u l keyed_accounts_after first
