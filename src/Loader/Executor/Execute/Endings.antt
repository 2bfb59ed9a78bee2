-- ===== src/Loader/Executor/Execute/Endings.antt =====
-- Every way in which an execution ends, and what it leaves of the accounts.
use solana_sdk_sample.Base.{ℕ, ◌+◌, ◌≡◌, ◌⊎◌, Bool, some, List, drop}
use solana_sdk_sample.Runtime.Outcome.{
  Outcome, ok, err, panic, InstructionError, program_environment_setup_failure,
}
use solana_sdk_sample.Runtime.Account.{
  Bytes, Pubkey, KeyedAccount, BpfExecutor, InvokeContext, keyed_account_at_index,
  do_support_realloc,
}
use solana_sdk_sample.Runtime.Action.{Action, ◌>>=◌, ◌>>◌, reads, lift, pure}
use solana_sdk_sample.Runtime.Sdk.{Sdk, VmResult, status}
use solana_sdk_sample.Loader.Executor.{or_err}
use solana_sdk_sample.Loader.Executor.Execute.{create_vm, run_vm, check_result, store_parameters}
use solana_sdk_sample.Loader.Executor.Execute.Machine.{Metered, new_machine}

module _ (sdk : Sdk) (executor : BpfExecutor) (first_instruction_account : ℕ)
    (instruction_data : Bytes) (use_jit : Bool) where
  abbrev pub passed : List KeyedAccount → List KeyedAccount
  passed accounts = drop (first_instruction_account + 1) accounts

  -- The machine's run in an execution from `c`: what it was given, and what it gave back.
  pub record Run (c : InvokeContext) : Type 0 where
    pub accounts : List KeyedAccount
    pub program : KeyedAccount
    pub program_id : Pubkey
    pub parameter_bytes : Bytes
    pub account_lengths : List ℕ
    pub vm : ℕ
    pub started : InvokeContext
    pub result : VmResult
    pub bytes : Bytes
    pub ended : InvokeContext
    pub accounts_of : c.keyed_accounts ≡ ok accounts
    pub program_of : keyed_account_at_index accounts first_instruction_account ≡ ok program
    pub caller_of : c.caller ≡ ok program_id
    pub serialized :
        sdk.serialize_parameters
          (c.cells program.cell).owner
          program_id
          (passed accounts)
          instruction_data
          c.cells
        ≡ ok (parameter_bytes, account_lengths)
    pub made :
        new_machine sdk (c.cells program.cell).owner executor parameter_bytes account_lengths c
        ≡ some vm
    pub metered : Metered sdk c started
    pub ran : sdk.execute_program use_jit vm parameter_bytes started ≡ ((result, bytes), ended)

  -- A success has stored the parameters that the program left, in the accounts that it left.
  abbrev pub IsStored : (c : InvokeContext) → Run c → InvokeContext → Type 0
  IsStored c r d =
      (r.result ≡ status 0)
      × ((accounts : List KeyedAccount) × (r.ended.keyed_accounts ≡ ok accounts)
          × (sdk.deserialize_parameters (c.cells r.program.cell).owner (passed accounts) r.bytes
                r.account_lengths (r.ended.is_feature_active do_support_realloc) r.ended.cells
              ≡ (ok tt, d.cells))
          × (d ≡ record r.ended { cells = d.cells }))

  -- An error is the program's, with all that the machine left as it was, or it came after a run that
  -- succeeded.
  abbrev pub IsFailed : (c : InvokeContext) → Run c → InstructionError → InvokeContext → Type 0
  IsFailed c r e d = ((check_result sdk r.result ≡ err e) × (d ≡ r.ended)) ⊎ (r.result ≡ status 0)

  abbrev pub Execution : InvokeContext → Outcome (Unit {0}) × InvokeContext → Type 0
  Execution c (ok a, d) = (r : Run c) × IsStored c r d
  Execution c (err e, d) = (d.cells ≡ c.cells) ⊎ ((r : Run c) × IsFailed c r e d)
  Execution c (panic, d) = Unit

  -- What follows the machine's run.
  abbrev finish : Pubkey → List ℕ → VmResult × Bytes → Action (Unit {0})
  finish loader_id account_lengths (result, bytes) = do
    lift (check_result sdk result)
    accounts_after ← reads (λ c. c.keyed_accounts)
    realloc ← reads (λ c. ok (c.is_feature_active do_support_realloc))
    store_parameters sdk loader_id (passed accounts_after) bytes account_lengths realloc
    caller ← reads (λ c. c.caller)
    pure tt

  -- The machine's set-up, its run, and what follows.
  abbrev launch : Pubkey → Bytes → List ℕ → Action (Unit {0})
  launch loader_id parameter_bytes account_lengths = do
    vm ← create_vm sdk loader_id executor.executable parameter_bytes account_lengths
    machine ← lift (or_err vm program_environment_setup_failure)
    after ← run_vm sdk use_jit machine parameter_bytes
    finish loader_id account_lengths after
