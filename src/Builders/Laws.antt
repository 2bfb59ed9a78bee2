-- ===== src/Builders/Laws.antt =====
-- The instruction builders against the tests on serialised instructions and against the handlers.
use solana_sdk_sample.Base.{◌≡◌, refl, sym, subst, Bool, true, false, ◌∷◌, ◌==◌}
use solana_sdk_sample.Runtime.Account.{Bytes}
use solana_sdk_sample.Runtime.Sdk.{Sdk}
use solana_sdk_sample.Runtime.Sdk.Laws.{variant_index}
use solana_sdk_sample.Instruction
use solana_sdk_sample.Instruction.{UpgradeableLoaderInstruction}
use solana_sdk_sample.Builders.{
  is_upgrade_instruction, is_set_authority_instruction, is_close_instruction,
  is_set_authority_checked_instruction,
}

-- bincode writes the number of the variant first, as a little-endian `u32`.
pub record IsTagged (sdk : Sdk) : Type 0 where
  pub tagged :
      (i : UpgradeableLoaderInstruction)
      → (rest : Bytes) × (sdk.serialize_upgradeable i ≡ variant_index i ∷ rest)

-- The four tests on an instruction, written on the instruction itself.
abbrev pub is_upgrade : UpgradeableLoaderInstruction → Bool
is_upgrade Instruction.upgrade = true
is_upgrade _ = false

abbrev pub is_set_authority : UpgradeableLoaderInstruction → Bool
is_set_authority Instruction.set_authority = true
is_set_authority _ = false

abbrev pub is_close : UpgradeableLoaderInstruction → Bool
is_close Instruction.close = true
is_close _ = false

abbrev pub is_set_authority_checked : UpgradeableLoaderInstruction → Bool
is_set_authority_checked Instruction.set_authority_checked = true
is_set_authority_checked _ = false

-- The tests on the serialised form answer as those on the instruction do.
pub record IsClassified (i : UpgradeableLoaderInstruction) (data_bytes : Bytes) : Type 0 where
  pub upgrade_test : is_upgrade_instruction data_bytes ≡ is_upgrade i
  pub set_authority_test : is_set_authority_instruction data_bytes ≡ is_set_authority i
  pub close_test : is_close_instruction data_bytes ≡ is_close i
  pub set_authority_checked_test :
      is_set_authority_checked_instruction data_bytes ≡ is_set_authority_checked i

-- The first byte decides each test.
is_upgrade_lem : (i : UpgradeableLoaderInstruction) → (3 == variant_index i) ≡ is_upgrade i
is_upgrade_lem Instruction.initialize_buffer = refl
is_upgrade_lem (UpgradeableLoaderInstruction.write o b) = refl
is_upgrade_lem (Instruction.deploy_with_max_data_len n) = refl
is_upgrade_lem Instruction.upgrade = refl
is_upgrade_lem Instruction.set_authority = refl
is_upgrade_lem Instruction.close = refl
is_upgrade_lem (Instruction.extend_program n) = refl
is_upgrade_lem Instruction.set_authority_checked = refl

is_set_authority_lem :
    (i : UpgradeableLoaderInstruction) → (4 == variant_index i) ≡ is_set_authority i
is_set_authority_lem Instruction.initialize_buffer = refl
is_set_authority_lem (UpgradeableLoaderInstruction.write o b) = refl
is_set_authority_lem (Instruction.deploy_with_max_data_len n) = refl
is_set_authority_lem Instruction.upgrade = refl
is_set_authority_lem Instruction.set_authority = refl
is_set_authority_lem Instruction.close = refl
is_set_authority_lem (Instruction.extend_program n) = refl
is_set_authority_lem Instruction.set_authority_checked = refl

is_close_lem : (i : UpgradeableLoaderInstruction) → (5 == variant_index i) ≡ is_close i
is_close_lem Instruction.initialize_buffer = refl
is_close_lem (UpgradeableLoaderInstruction.write o b) = refl
is_close_lem (Instruction.deploy_with_max_data_len n) = refl
is_close_lem Instruction.upgrade = refl
is_close_lem Instruction.set_authority = refl
is_close_lem Instruction.close = refl
is_close_lem (Instruction.extend_program n) = refl
is_close_lem Instruction.set_authority_checked = refl

is_set_authority_checked_lem :
    (i : UpgradeableLoaderInstruction) → (7 == variant_index i) ≡ is_set_authority_checked i
is_set_authority_checked_lem Instruction.initialize_buffer = refl
is_set_authority_checked_lem (UpgradeableLoaderInstruction.write o b) = refl
is_set_authority_checked_lem (Instruction.deploy_with_max_data_len n) = refl
is_set_authority_checked_lem Instruction.upgrade = refl
is_set_authority_checked_lem Instruction.set_authority = refl
is_set_authority_checked_lem Instruction.close = refl
is_set_authority_checked_lem (Instruction.extend_program n) = refl
is_set_authority_checked_lem Instruction.set_authority_checked = refl

first_byte-IsClassified :
    (i : UpgradeableLoaderInstruction) (rest : Bytes) → IsClassified i (variant_index i ∷ rest)
unfolding is_upgrade_instruction is_set_authority_instruction is_close_instruction
    is_set_authority_checked_instruction
first_byte-IsClassified i rest = record {
  upgrade_test = is_upgrade_lem i;
  set_authority_test = is_set_authority_lem i;
  close_test = is_close_lem i;
  set_authority_checked_test = is_set_authority_checked_lem i;
}

-- The four tests on a serialised instruction answer as the instruction itself does, for each of the
-- eight instructions: bincode writes the number of the variant first.
pub serialize-IsClassified :
    (sdk : Sdk) (i : UpgradeableLoaderInstruction)
    → IsTagged sdk
    → IsClassified i (sdk.serialize_upgradeable i)
serialize-IsClassified sdk i law =
    let (rest, e) = law.tagged i in subst (IsClassified i) (sym e) (first_byte-IsClassified i rest)
