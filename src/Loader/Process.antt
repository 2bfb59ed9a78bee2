-- ===== src/Loader/Process.antt =====
-- scripts/ref/bpf_loader/src/lib.rs: `process_instruction` and the dispatch to the handlers. The
-- debug assertions on the index of the first account are left out.
pub mod Closed
pub mod Runs
use solana_sdk_sample.Base.{
  ℕ, ◌+◌, Bool, true, false, not, ◌||◌, Option, none, some, List, ◌==◌, if◌then◌else◌,
}
use solana_sdk_sample.Runtime.Outcome.{
  Outcome, ok, err, ◌>>=◌ as outcome_bind, fail_if, incorrect_program_id, invalid_account_data,
  invalid_argument, invalid_instruction_data, missing_required_signature,
}
use solana_sdk_sample.Runtime.Account.{
  Pubkey, Bytes, KeyedAccount, InvokeContext, BpfExecutor, keyed_account_at_index,
}
use solana_sdk_sample.Runtime.Action.{Action, ◌>>=◌, ◌>>◌, reads, lift, pure, modify_account}
use solana_sdk_sample.Runtime.Sdk.{Sdk}
use solana_sdk_sample.Instruction
use solana_sdk_sample.Instruction.{UpgradeableLoaderInstruction, LoaderInstruction}
use solana_sdk_sample.State
use solana_sdk_sample.State.{UpgradeableLoaderState, programdata_data_offset}
use solana_sdk_sample.Loader.Accounts.{state_of, set_executable}
use solana_sdk_sample.Loader.Executor.{create_executor}
use solana_sdk_sample.Loader.Executor.Execute.{execute}
use solana_sdk_sample.Loader.Buffer
use solana_sdk_sample.Loader.Deploy.Commit.{deploy, add_executor}
use solana_sdk_sample.Loader.Upgrade.Commit.{upgrade}
use solana_sdk_sample.Loader.Authority.{set_authority}
use solana_sdk_sample.Loader.Close.{close}

module _ (sdk : Sdk) where
  -- The `match` of `process_loader_upgradeable_instruction`. The last two instructions came after
  -- this loader, to which their numbers are no instruction.
  unfoldable pub run_upgradeable :
      UpgradeableLoaderInstruction → List KeyedAccount → ℕ → Pubkey → Bool → Action (Unit {0})
  run_upgradeable Instruction.initialize_buffer accounts first program_id use_jit =
      Buffer.initialize_buffer sdk accounts first
  run_upgradeable (UpgradeableLoaderInstruction.write offset bytes) accounts first program_id
        use_jit =
      Buffer.write sdk accounts first offset bytes
  run_upgradeable (Instruction.deploy_with_max_data_len n) accounts first program_id use_jit =
      deploy sdk accounts first program_id n use_jit
  run_upgradeable Instruction.upgrade accounts first program_id use_jit =
      upgrade sdk accounts first program_id use_jit
  run_upgradeable Instruction.set_authority accounts first program_id use_jit =
      set_authority sdk accounts first
  run_upgradeable Instruction.close accounts first program_id use_jit =
      close sdk accounts first program_id
  run_upgradeable (Instruction.extend_program n) accounts first program_id use_jit =
      lift (err invalid_instruction_data)
  run_upgradeable Instruction.set_authority_checked accounts first program_id use_jit =
      lift (err invalid_instruction_data)

  unfoldable pub process_loader_upgradeable_instruction : ℕ → Bytes → Bool → Action (Unit {0})
  process_loader_upgradeable_instruction first instruction_data use_jit = do
    program_id ← reads (λ c. c.caller)
    accounts ← reads (λ c. c.keyed_accounts)
    instruction ← lift (sdk.deserialize_upgradeable instruction_data)
    run_upgradeable instruction accounts first program_id use_jit

  -- The instruction Finalize of the first loader
  unfoldable pub finalize : ℕ → Bool → Action (Unit {0})
  finalize first use_jit = do
    executor ← reads (create_executor sdk first 0 use_jit)
    accounts ← reads (λ c. c.keyed_accounts)
    program ← lift (keyed_account_at_index accounts first)
    add_executor program.unsigned_key executor
    modify_account program.cell set_executable

  abbrev run_loader : LoaderInstruction → KeyedAccount → ℕ → Bool → Action (Unit {0})
  run_loader (LoaderInstruction.write offset bytes) program first use_jit = do
    lift (fail_if (not program.is_signer) missing_required_signature)
    Buffer.write_program_data first offset bytes
  run_loader LoaderInstruction.finalize program first use_jit = do
    lift (fail_if (not program.is_signer) missing_required_signature)
    finalize first use_jit

  unfoldable pub process_loader_instruction : ℕ → Bytes → Bool → Action (Unit {0})
  process_loader_instruction first instruction_data use_jit = do
    program_id ← reads (λ c. c.caller)
    accounts ← reads (λ c. c.keyed_accounts)
    program ← lift (keyed_account_at_index accounts first)
    owner ← reads (λ c. ok (c.cells program.cell).owner)
    lift (fail_if (not (owner == program_id)) incorrect_program_id)
    instruction ← lift (sdk.deserialize_loader instruction_data)
    run_loader instruction program first use_jit

  unfoldable pub check_loader_id : Pubkey → Bool
  check_loader_id id =
      id == sdk.bpf_loader_id
      || id == sdk.bpf_loader_deprecated_id
      || id == sdk.bpf_loader_upgradeable_id

  -- `second_account.map(|a| a.unsigned_key() == program_id).unwrap_or(false)`
  abbrev second_is_program : Outcome KeyedAccount → Pubkey → Bool
  second_is_program (ok a) program_id = a.unsigned_key == program_id
  second_is_program _ program_id = false

  -- The program's account and the index of the first account after it.
  unfoldable pub select_program :
      ℕ → Pubkey → List KeyedAccount → KeyedAccount → InvokeContext → Outcome (KeyedAccount × ℕ)
  select_program first program_id accounts first_account c =
      let second_account = keyed_account_at_index accounts (first + 1) in
      if first_account.unsigned_key == program_id
      then ok (first_account, first)
      else if second_is_program second_account program_id
      then outcome_bind second_account (λ a. ok (a, first + 1))
      else if (c.cells first_account.cell).executable
      then err incorrect_program_id
      else ok (first_account, first)

  abbrev check_is_programdata : UpgradeableLoaderState → Outcome ℕ
  check_is_programdata (State.program_data slot authority) = programdata_data_offset
  check_is_programdata _ = err invalid_account_data

  -- Where the program bits lie, for a Program account in the given state.
  unfoldable pub upgradeable_offset :
      UpgradeableLoaderState → KeyedAccount → InvokeContext → Outcome ℕ
  upgradeable_offset (State.program programdata_address) first_account c =
      if not (programdata_address == first_account.unsigned_key)
      then err invalid_argument
      else outcome_bind (state_of sdk first_account c) check_is_programdata
  upgradeable_offset _ first_account c = err invalid_account_data

  unfoldable pub program_data_offset : KeyedAccount → KeyedAccount → InvokeContext → Outcome ℕ
  program_data_offset program first_account c =
      if (c.cells program.cell).owner == sdk.bpf_loader_upgradeable_id
      then outcome_bind (state_of sdk program c) (λ s. upgradeable_offset s first_account c)
      else ok 0

  abbrev pub cached_or_new : Option BpfExecutor → ℕ → ℕ → Bool → Action BpfExecutor
  cached_or_new (some executor) first offset use_jit = pure executor
  cached_or_new none first offset use_jit = do
    executor ← reads (create_executor sdk first offset use_jit)
    program_id ← reads (λ c. c.caller)
    add_executor program_id executor
    pure executor

  -- The first account's program is run.
  unfoldable pub invoke_program :
      KeyedAccount → KeyedAccount → ℕ → ℕ → Pubkey → Bytes → Bool → Action (Unit {0})
  invoke_program program first_account first next program_id instruction_data use_jit = do
    owner ← reads (λ c. ok (c.cells program.cell).owner)
    lift (fail_if (not (check_loader_id owner)) incorrect_program_id)
    offset ← reads (program_data_offset program first_account)
    cached ← reads (λ c. ok (c.executors program_id))
    executor ← cached_or_new cached first offset use_jit
    execute sdk executor next instruction_data use_jit

  -- An instruction of the loader itself is processed.
  unfoldable pub process_management : Pubkey → ℕ → Bytes → Bool → Action (Unit {0})
  process_management program_id first instruction_data use_jit c =
      if program_id == sdk.bpf_loader_upgradeable_id
      then process_loader_upgradeable_instruction first instruction_data use_jit c
      else if program_id == sdk.bpf_loader_id || program_id == sdk.bpf_loader_deprecated_id
      then process_loader_instruction first instruction_data use_jit c
      else (err incorrect_program_id, c)

  unfoldable pub process_instruction_common : ℕ → Bytes → Bool → Action (Unit {0})
  process_instruction_common first instruction_data use_jit = do
    program_id ← reads (λ c. c.caller)
    accounts ← reads (λ c. c.keyed_accounts)
    first_account ← lift (keyed_account_at_index accounts first)
    (program, next) ← reads (select_program first program_id accounts first_account)
    executable ← reads (λ c. ok (c.cells program.cell).executable)
    if executable
        then invoke_program program first_account first next program_id instruction_data use_jit
        else process_management program_id first instruction_data use_jit

  unfoldable pub process_instruction : ℕ → Bytes → Action (Unit {0})
  process_instruction first instruction_data =
      process_instruction_common first instruction_data false

  unfoldable pub process_instruction_jit : ℕ → Bytes → Action (Unit {0})
  process_instruction_jit first instruction_data =
      process_instruction_common first instruction_data true
