-- ===== src/Instruction.antt =====
-- scripts/ref/loader_upgradable_instruction.rs: the instructions of the upgradeable loader; and
-- the SDK's `LoaderInstruction`, `AccountMeta` and `Instruction` as the loader uses them.
use solana_sdk_sample.Base.{ℕ, Bool, List}
use solana_sdk_sample.Runtime.Account.{Pubkey, Bytes}

pub data UpgradeableLoaderInstruction : Type 0 where
  initialize_buffer : UpgradeableLoaderInstruction
  write : ℕ → Bytes → UpgradeableLoaderInstruction  -- offset, bytes
  deploy_with_max_data_len : ℕ → UpgradeableLoaderInstruction  -- max_data_len
  upgrade : UpgradeableLoaderInstruction
  set_authority : UpgradeableLoaderInstruction
  close : UpgradeableLoaderInstruction
  extend_program : ℕ → UpgradeableLoaderInstruction  -- additional_bytes
  set_authority_checked : UpgradeableLoaderInstruction

pub data LoaderInstruction : Type 0 where
  write : ℕ → Bytes → LoaderInstruction  -- offset, bytes
  finalize : LoaderInstruction

pub record AccountMeta : Type 0 where
  pub pubkey : Pubkey
  pub is_signer : Bool
  pub is_writable : Bool

pub record Call : Type 0 where
  pub program_id : Pubkey
  pub accounts : List AccountMeta
  pub data_bytes : Bytes
