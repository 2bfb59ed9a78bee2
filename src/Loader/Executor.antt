-- ===== src/Loader/Executor.antt =====
-- scripts/ref/bpf_loader/src/lib.rs: `create_executor`. What it logs is left out.
pub mod Execute
pub mod Made
use Prim.Native.Nat.{◌/◌}
use mathlib.Core.Option
use solana_sdk_sample.Base.{
  ℕ, ◌+◌, ◌*◌, Bool, true, false, not, Option, none, some, List, ltb, leb, ◌==◌, u64_bound,
  saturating_sub, length, drop, if◌then◌else◌,
}
use solana_sdk_sample.Runtime.Outcome.{
  Outcome, ok, err, panic, ◌>>=◌, ◌>>◌, fail_if, InstructionError, invalid_account_data,
  program_environment_setup_failure, program_failed_to_compile, program_failed_to_complete,
}
use solana_sdk_sample.Runtime.Account.{
  Account, Bytes, Pubkey, KeyedAccount, InvokeContext, ComputeBudget, Executable, BpfExecutor,
  keyed_account_at_index, requestable_heap_size, do_support_realloc, stop_verify_mul64_imm_nonzero,
}
use solana_sdk_sample.Runtime.Action.{Action}
use solana_sdk_sample.Runtime.Sdk.{Sdk, Config, VmResult, status, syscall_error, vm_error}

-- `map_err`, where the error's text is only logged
abbrev pub or_err : {A : Type 0} → Option A → InstructionError → Outcome A
or_err none e = err e
or_err (some a) e = ok a

module _ (sdk : Sdk) where
  abbrev pub vm_config : InvokeContext → Config
  vm_config c = record {
    max_call_depth = c.compute_budget.max_call_depth;
    stack_frame_size = c.compute_budget.stack_frame_size;
    enable_instruction_tracing = sdk.log_enabled_trace;
    verify_mul64_imm_nonzero = not (c.is_feature_active stop_verify_mul64_imm_nonzero);
  }

  -- `&programdata.try_account_ref()?.data()[programdata_offset..]`
  abbrev pub elf_bytes : ℕ → Account → Outcome Bytes
  elf_bytes offset a =
      if ltb (length a.data_bytes) offset then panic else ok (drop offset a.data_bytes)

  abbrev pub compile : Bool → Executable → Outcome Executable
  compile true e = or_err (sdk.jit_compile e) program_failed_to_compile
  compile false e = ok e

  -- `create_executor`: it reads the context, and no call in it changes an account
  unfoldable pub create_executor : ℕ → ℕ → Bool → InvokeContext → Outcome BpfExecutor
  create_executor programdata_account_index programdata_offset use_jit c = do
    registry ← or_err (sdk.register_syscalls c) program_environment_setup_failure
    keyed_accounts ← c.keyed_accounts
    programdata ← keyed_account_at_index keyed_accounts programdata_account_index
    bytes ← elf_bytes programdata_offset (c.cells programdata.cell)
    executable ← or_err (sdk.from_elf bytes (vm_config c) registry) invalid_account_data
    fail_if (not (sdk.verifier_check (sdk.get_text_bytes executable) (vm_config c)))
        invalid_account_data
    compiled ← compile use_jit executable
    ok (record { executable = compiled })
