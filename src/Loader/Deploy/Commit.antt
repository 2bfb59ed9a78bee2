-- ===== src/Loader/Deploy/Commit.antt =====
-- scripts/ref/bpf_loader/src/lib.rs: the part of DeployWithMaxDataLen that changes the context,
-- and the whole instruction.
use solana_sdk_sample.Base.{ℕ, ◌+◌, Bool, not, some, List, [], ◌∷◌, ◌==◌, if◌then◌else◌}
use solana_sdk_sample.Runtime.Outcome.{Outcome, ok, ◌>>=◌ as outcome_bind}
use solana_sdk_sample.Runtime.Account.{
  Pubkey, KeyedAccount, BpfExecutor, keyed_account_at_index, reduce_required_deploy_balance,
}
use solana_sdk_sample.Runtime.Action.{Action, ◌>>=◌, ◌>>◌, reads, lift, when, modify_account}
use solana_sdk_sample.Runtime.Sdk.{Sdk, Seed}
use solana_sdk_sample.State
use solana_sdk_sample.Loader.Accounts.{
  set_executable, write_range, slice_while, has_range, set_state_of,
}
use solana_sdk_sample.Loader.Executor.{create_executor}
use solana_sdk_sample.Loader.Close.{drain}
use solana_sdk_sample.Loader.Deploy.{
  DeployAccounts, Lengths, deploy_accounts, verify_program, verify_buffer, derive_bump,
  create_instruction,
}

-- `invoke_context.add_executor`
unfoldable pub add_executor : Pubkey → BpfExecutor → Action (Unit {0})
add_executor k e c = (ok tt, record c { executors = λ j. if j == k then some e else c.executors j })

-- The program bits of `buffer` are copied into `programdata`:
-- `programdata.data_as_mut_slice()[start..start + n].copy_from_slice(&buffer.data()[from..])`.
unfoldable pub copy_program : KeyedAccount → ℕ → ℕ → KeyedAccount → ℕ → Action (Unit {0})
copy_program programdata start n buffer from = do
  reads (has_range programdata.cell start n)
  bytes ← reads (slice_while programdata.cell buffer.cell from n)
  modify_account programdata.cell (write_range start bytes)

module _ (sdk : Sdk) where
  -- The signer that the loader is for the new account: the derived address.
  abbrev pub derived_signer : Pubkey → ℕ → Pubkey → Outcome (List Pubkey)
  derived_signer new_program_id bump_seed caller =
      outcome_bind
        (sdk.create_program_address (Seed.key new_program_id ∷ Seed.bump bump_seed ∷ []) caller)
        (λ signer. ok (signer ∷ []))

  -- "Create ProgramData account", with the buffer drained before it if the feature is active
  unfoldable pub create_programdata :
      DeployAccounts → Lengths → ℕ → Bool → Pubkey → Action (Unit {0})
  create_programdata d l bump_seed predrain_buffer program_id = do
    when predrain_buffer (drain sdk d.buffer d.payer)
    caller ← reads (λ c. c.caller)
    signers ← lift (derived_signer d.program.unsigned_key bump_seed caller)
    sdk.native_invoke (create_instruction sdk d l.programdata_len program_id) signers

  -- "Update the ProgramData account and record the program bits", "Update the Program account"
  unfoldable pub record_program :
      DeployAccounts → Lengths → Bool → List KeyedAccount → ℕ → Action (Unit {0})
  record_program d l predrain_buffer keyed_accounts first = do
    payer ← lift (keyed_account_at_index keyed_accounts first)
    programdata ← lift (keyed_account_at_index keyed_accounts (first + 1))
    program ← lift (keyed_account_at_index keyed_accounts (first + 2))
    buffer ← lift (keyed_account_at_index keyed_accounts (first + 3))
    set_state_of sdk programdata (State.program_data d.clock.slot (some d.authority.unsigned_key))
    copy_program programdata l.programdata_data_offset l.buffer_data_len buffer l.buffer_data_offset
    set_state_of sdk program (State.program programdata.unsigned_key)
    modify_account program.cell set_executable
    when (not predrain_buffer) (drain sdk buffer payer)

  unfoldable pub deploy : List KeyedAccount → ℕ → Pubkey → ℕ → Bool → Action (Unit {0})
  deploy keyed_accounts first program_id max_data_len use_jit = do
    d ← reads (deploy_accounts sdk keyed_accounts first)
    reads (verify_program sdk d)
    l ← reads (verify_buffer sdk d max_data_len)
    bump_seed ← lift (derive_bump sdk d program_id)
    predrain_buffer ← reads (λ c. ok (c.is_feature_active reduce_required_deploy_balance))
    create_programdata d l bump_seed predrain_buffer program_id
    executor ← reads (create_executor sdk (first + 3) l.buffer_data_offset use_jit)
    add_executor d.program.unsigned_key executor
    keyed_accounts_after ← reads (λ c. c.keyed_accounts)
    record_program d l predrain_buffer keyed_accounts_after first
