-- ===== src/Loader/Executor/Execute.antt =====
-- scripts/ref/bpf_loader/src/lib.rs: `create_vm` and `Executor::execute`, without the log, the
-- timers and the trace. The machine runs the program with the invoke context in hand, so its run is
-- an action; the system calls' own errors come back through it.
pub mod Machine
pub mod Endings
use Prim.Native.Nat.{◌/◌}
use mathlib.Core.Option
use solana_sdk_sample.Base.{
  ℕ, ◌+◌, ◌*◌, Bool, Option, List, leb, ◌==◌, u64_bound, saturating_sub, drop, if◌then◌else◌,
}
use solana_sdk_sample.Runtime.Outcome.{
  Outcome, ok, err, panic, program_environment_setup_failure, program_failed_to_complete,
}
use solana_sdk_sample.Runtime.Account.{
  Bytes, Pubkey, KeyedAccount, ComputeBudget, Executable, BpfExecutor, keyed_account_at_index,
  requestable_heap_size, do_support_realloc,
}
use solana_sdk_sample.Runtime.Action.{Action, ◌>>=◌, ◌>>◌, reads, lift, pure, when}
use solana_sdk_sample.Runtime.Sdk.{Sdk, VmResult, status, syscall_error, vm_error}
use solana_sdk_sample.Loader.Executor.{or_err}

-- `SUCCESS` of the entry point
abbrev success : ℕ
success = 0

module _ (sdk : Sdk) where
  -- The heap's cost in compute units, in `u64` with overflow checks.
  abbrev pub heap_charge : ComputeBudget → Outcome ℕ
  heap_charge b =
      let pages = Option.get_or b.heap_size sdk.heap_length / (32 * 1024) in
      let cost = saturating_sub pages 1 * b.heap_cost in
      if leb u64_bound cost then panic else ok cost

  -- `consume` on the compute meter, its error ignored
  unfoldable pub consume : ℕ → Action (Unit {0})
  consume amount c =
      (ok tt, record c { compute_remaining = sdk.consume c.compute_remaining amount })

  -- `create_vm`: `none` is an error that the caller only logs.
  unfoldable pub create_vm : Pubkey → Executable → Bytes → List ℕ → Action (Option ℕ)
  unfolding consume
  create_vm loader_id program parameter_bytes orig_data_lens = do
    requestable ← reads (λ c. ok (c.is_feature_active requestable_heap_size))
    budget ← reads (λ c. ok c.compute_budget)
    when requestable (do cost ← lift (heap_charge budget); consume cost)
    let heap_size = Option.get_or budget.heap_size sdk.heap_length
    pure (
        Option.bind (sdk.new_vm program heap_size parameter_bytes)
          (λ vm. sdk.bind_syscall_context_objects loader_id vm orig_data_lens))

  -- The machine's run, with the parameter bytes that it leaves.
  abbrev pub run_vm : Bool → ℕ → Bytes → Action (VmResult × Bytes)
  run_vm use_jit vm bytes c =
      let (result, c') = sdk.execute_program use_jit vm bytes c in (ok result, c')

  abbrev pub check_result : VmResult → Outcome (Unit {0})
  check_result (status s) = if s == success then ok tt else err (sdk.error_of_status s)
  check_result (syscall_error e) = err e
  check_result vm_error = err program_failed_to_complete

  abbrev pub store_parameters :
      Pubkey → List KeyedAccount → Bytes → List ℕ → Bool → Action (Unit {0})
  store_parameters loader_id accounts bytes lens realloc c =
      let (result, cells) =
        sdk.deserialize_parameters loader_id accounts bytes lens realloc c.cells in
      (result, record c { cells = cells })

  -- `Executor::execute`
  unfoldable pub execute : BpfExecutor → ℕ → Bytes → Bool → Action (Unit {0})
  unfolding create_vm
  execute executor first_instruction_account instruction_data use_jit = do
    accounts ← reads (λ c. c.keyed_accounts)
    program ← lift (keyed_account_at_index accounts first_instruction_account)
    loader_id ← reads (λ c. ok (c.cells program.cell).owner)
    program_id ← reads (λ c. c.caller)
    let passed = drop (first_instruction_account + 1) accounts
    (parameter_bytes, account_lengths) ←
        reads (λ c. sdk.serialize_parameters loader_id program_id passed instruction_data c.cells)
    caller ← reads (λ c. c.caller)
    vm ← create_vm loader_id executor.executable parameter_bytes account_lengths
    machine ← lift (or_err vm program_environment_setup_failure)
    (result, bytes) ← run_vm use_jit machine parameter_bytes
    lift (check_result result)
    accounts_after ← reads (λ c. c.keyed_accounts)
    realloc ← reads (λ c. ok (c.is_feature_active do_support_realloc))
    let returned = drop (first_instruction_account + 1) accounts_after
    store_parameters loader_id returned bytes account_lengths realloc
    caller ← reads (λ c. c.caller)
    pure tt
