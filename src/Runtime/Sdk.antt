-- ===== src/Runtime/Sdk.antt =====
-- The functions of the Solana SDK, the runtime and the virtual machine that the code calls and
-- that this repository does not hold: a parameter of every definition that uses them.
pub mod Laws
use solana_sdk_sample.Base.{ℕ, Bool, Option, List}
use solana_sdk_sample.Runtime.Outcome.{Outcome, InstructionError}
use solana_sdk_sample.Runtime.Account.{
  Pubkey, Bytes, Cells, KeyedAccount, Executable, InvokeContext,
}
use solana_sdk_sample.Runtime.Action.{Action}
use solana_sdk_sample.State.{UpgradeableLoaderState}
use solana_sdk_sample.Instruction.{UpgradeableLoaderInstruction, LoaderInstruction, Call}

-- The rent sysvar, by the one function of it that the loader calls.
pub record Rent : Type 0 where
  pub minimum_balance : ℕ → ℕ

pub record Clock : Type 0 where
  pub slot : ℕ

-- A seed of a derived address: the bytes of a key, or the bump seed.
pub data Seed : Type 0 where
  key : Pubkey → Seed
  bump : ℕ → Seed

-- `solana_rbpf::vm::Config`, with the fields that the loader sets
pub record Config : Type 0 where
  pub max_call_depth : ℕ
  pub stack_frame_size : ℕ
  pub enable_instruction_tracing : Bool
  pub verify_mul64_imm_nonzero : Bool

-- What the virtual machine returns: a status, an error that a system call returned, or another.
pub data VmResult : Type 0 where
  status : ℕ → VmResult
  syscall_error : InstructionError → VmResult
  vm_error : VmResult

pub record Sdk : Type 0 where
  pub bpf_loader_id : Pubkey
  pub bpf_loader_deprecated_id : Pubkey
  pub bpf_loader_upgradeable_id : Pubkey
  pub system_program_id : Pubkey
  pub rent_id : Pubkey
  pub clock_id : Pubkey
  pub heap_length : ℕ
  pub max_permitted_data_length : ℕ
  pub log_enabled_trace : Bool
  -- bincode
  pub serialize_upgradeable : UpgradeableLoaderInstruction → Bytes
  pub deserialize_upgradeable : Bytes → Outcome UpgradeableLoaderInstruction
  pub deserialize_loader : Bytes → Outcome LoaderInstruction
  pub state : Bytes → Outcome UpgradeableLoaderState
  pub set_state : UpgradeableLoaderState → Bytes → Outcome Bytes
  -- accounts, sysvars and addresses
  pub checked_add_lamports : ℕ → ℕ → Outcome ℕ
  pub rent_from_keyed_account : Pubkey → Bytes → Outcome Rent
  pub clock_from_keyed_account : Pubkey → Bytes → Outcome Clock
  pub find_program_address : List Seed → Pubkey → Pubkey × ℕ
  pub create_program_address : List Seed → Pubkey → Outcome Pubkey
  pub create_account : Pubkey → Pubkey → ℕ → ℕ → Pubkey → Call
  -- `InstructionProcessor::native_invoke`
  pub native_invoke : Call → List Pubkey → Action (Unit {0})
  -- the virtual machine
  pub register_syscalls : InvokeContext → Option ℕ
  pub from_elf : Bytes → Config → ℕ → Option Executable
  pub get_text_bytes : Executable → Bytes
  pub verifier_check : Bytes → Config → Bool
  pub jit_compile : Executable → Option Executable
  pub consume : ℕ → ℕ → ℕ
  pub new_vm : Executable → ℕ → Bytes → Option ℕ
  pub bind_syscall_context_objects : Pubkey → ℕ → List ℕ → Option ℕ
  pub execute_program : Bool → ℕ → Bytes → InvokeContext → (VmResult × Bytes) × InvokeContext
  pub error_of_status : ℕ → InstructionError
  -- serialization.rs
  pub serialize_parameters :
      Pubkey → Pubkey → List KeyedAccount → Bytes → Cells → Outcome (Bytes × List ℕ)
  pub deserialize_parameters :
      Pubkey → List KeyedAccount → Bytes → List ℕ → Bool → Cells → Outcome (Unit {0}) × Cells
