-- ===== src/Builders.antt =====
-- scripts/ref/bpf_loader_upgradable.rs: the functions that build the instructions of the
-- upgradeable loader, and the tests on serialised instructions.
pub mod Laws
pub mod Process
use solana_sdk_sample.Base.{
  ℕ, Bool, true, false, Option, none, some, List, [], ◌∷◌, ◌++◌, ◌==◌, not, ◌&&◌,
}
use solana_sdk_sample.Runtime.Outcome.{Outcome, ok}
use solana_sdk_sample.Runtime.Account.{Pubkey, Bytes}
use solana_sdk_sample.Runtime.Sdk.{Sdk, Seed}
use solana_sdk_sample.State.{size_of_buffer, size_of_program}
use solana_sdk_sample.Instruction
use solana_sdk_sample.Instruction.{UpgradeableLoaderInstruction, AccountMeta, Call}

-- `AccountMeta::new`
abbrev pub new : Pubkey → Bool → AccountMeta
new key signer = record { pubkey = key; is_signer = signer; is_writable = true }

-- `AccountMeta::new_readonly`
abbrev pub new_readonly : Pubkey → Bool → AccountMeta
new_readonly key signer = record { pubkey = key; is_signer = signer; is_writable = false }

-- `is_empty` and the first byte
abbrev starts_with : ℕ → Bytes → Bool
starts_with n [] = false
starts_with n (b ∷ bs) = n == b

unfoldable pub is_upgrade_instruction : Bytes → Bool
is_upgrade_instruction = starts_with 3

unfoldable pub is_set_authority_instruction : Bytes → Bool
is_set_authority_instruction = starts_with 4

unfoldable pub is_close_instruction : Bytes → Bool
is_close_instruction = starts_with 5

unfoldable pub is_set_authority_checked_instruction : Bytes → Bool
is_set_authority_checked_instruction = starts_with 7

-- `if let Some(address) = key { metas.push(meta(address)) }`
abbrev push_key : Option Pubkey → (Pubkey → AccountMeta) → List AccountMeta
push_key none meta = []
push_key (some k) meta = meta k ∷ []

module _ (sdk : Sdk) where
  -- `Instruction::new_with_bincode(id(), instruction, accounts)`
  abbrev pub new_with_bincode : UpgradeableLoaderInstruction → List AccountMeta → Call
  new_with_bincode instruction metas = record {
    program_id = sdk.bpf_loader_upgradeable_id;
    accounts = metas;
    data_bytes = sdk.serialize_upgradeable instruction;
  }

  unfoldable pub get_program_data_address : Pubkey → Pubkey
  get_program_data_address program_address =
      (sdk.find_program_address (Seed.key program_address ∷ []) sdk.bpf_loader_upgradeable_id).0

  unfoldable pub create_buffer : Pubkey → Pubkey → Pubkey → ℕ → ℕ → Outcome (List Call)
  create_buffer payer_address buffer_address authority_address lamports program_len = ok (
      sdk.create_account payer_address buffer_address lamports (size_of_buffer program_len)
        sdk.bpf_loader_upgradeable_id
      ∷ new_with_bincode Instruction.initialize_buffer
          (new buffer_address false ∷ new_readonly authority_address false ∷ [])
      ∷ [])

  unfoldable pub write : Pubkey → Pubkey → ℕ → Bytes → Call
  write buffer_address authority_address offset bytes =
      new_with_bincode (UpgradeableLoaderInstruction.write offset bytes)
        (new buffer_address false ∷ new_readonly authority_address true ∷ [])

  unfoldable pub deploy_with_max_program_len :
      Pubkey → Pubkey → Pubkey → Pubkey → ℕ → ℕ → Outcome (List Call)
  deploy_with_max_program_len payer_address program_address buffer_address upgrade_authority_address
        program_lamports max_data_len =
      ok (
        sdk.create_account payer_address program_address program_lamports size_of_program
          sdk.bpf_loader_upgradeable_id
        ∷ new_with_bincode (Instruction.deploy_with_max_data_len max_data_len) (
            new payer_address true
            ∷ new (get_program_data_address program_address) false
            ∷ new program_address false
            ∷ new buffer_address false
            ∷ new_readonly sdk.rent_id false
            ∷ new_readonly sdk.clock_id false
            ∷ new_readonly sdk.system_program_id false
            ∷ new_readonly upgrade_authority_address true
            ∷ [])
        ∷ [])

  unfoldable pub upgrade : Pubkey → Pubkey → Pubkey → Pubkey → Call
  upgrade program_address buffer_address authority_address spill_address =
      new_with_bincode Instruction.upgrade (
        new (get_program_data_address program_address) false
        ∷ new program_address false
        ∷ new buffer_address false
        ∷ new spill_address false
        ∷ new_readonly sdk.rent_id false
        ∷ new_readonly sdk.clock_id false
        ∷ new_readonly authority_address true
        ∷ [])

  unfoldable pub set_buffer_authority : Pubkey → Pubkey → Pubkey → Call
  set_buffer_authority buffer_address current_authority_address new_authority_address =
      new_with_bincode Instruction.set_authority (
        new buffer_address false
        ∷ new_readonly current_authority_address true
        ∷ new_readonly new_authority_address false
        ∷ [])

  unfoldable pub set_buffer_authority_checked : Pubkey → Pubkey → Pubkey → Call
  set_buffer_authority_checked buffer_address current_authority_address new_authority_address =
      new_with_bincode Instruction.set_authority_checked (
        new buffer_address false
        ∷ new_readonly current_authority_address true
        ∷ new_readonly new_authority_address true
        ∷ [])

  unfoldable pub set_upgrade_authority : Pubkey → Pubkey → Option Pubkey → Call
  set_upgrade_authority program_address current_authority_address new_authority_address =
      new_with_bincode Instruction.set_authority (
        (new (get_program_data_address program_address) false
          ∷ new_readonly current_authority_address true
          ∷ [])
        ++ push_key new_authority_address (λ k. new_readonly k false))

  unfoldable pub set_upgrade_authority_checked : Pubkey → Pubkey → Pubkey → Call
  set_upgrade_authority_checked program_address current_authority_address new_authority_address =
      new_with_bincode Instruction.set_authority_checked (
        new (get_program_data_address program_address) false
        ∷ new_readonly current_authority_address true
        ∷ new_readonly new_authority_address true
        ∷ [])

  unfoldable pub close_any : Pubkey → Pubkey → Option Pubkey → Option Pubkey → Call
  close_any close_address recipient_address authority_address program_address =
      new_with_bincode Instruction.close (
        (new close_address false ∷ new recipient_address false ∷ [])
        ++ (push_key authority_address (λ k. new_readonly k true)
            ++ push_key program_address (λ k. new k false)))

  unfoldable pub close : Pubkey → Pubkey → Pubkey → Call
  unfolding close_any
  close close_address recipient_address authority_address =
      close_any close_address recipient_address (some authority_address) none

  abbrev payer_metas : Option Pubkey → List AccountMeta
  payer_metas none = []
  payer_metas (some payer_address) =
      new_readonly sdk.system_program_id false ∷ new payer_address true ∷ []

  unfoldable pub extend_program : Pubkey → Option Pubkey → ℕ → Call
  extend_program program_address payer_address additional_bytes =
      new_with_bincode (Instruction.extend_program additional_bytes) (
        (new (get_program_data_address program_address) false ∷ new program_address false ∷ [])
        ++ payer_metas payer_address)
