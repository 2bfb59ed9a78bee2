-- ===== src/Client/Layout.antt =====
-- The data of a Write instruction against bincode's layout of it.
use solana_sdk_sample.Base.{
  Bool, true, ◌≤◌, ℕ, ◌+◌, ◌*◌, ◌^◌, ◌<◌, ◌≡◌, Option, none, some, [], ◌∷◌, arith, ◌==◌, ◌&&◌, leb,
  length, take, drop, if◌then◌else◌,
}
use solana_sdk_sample.Runtime.Account.{Bytes}
use solana_sdk_sample.Runtime.Outcome.{ok}
use solana_sdk_sample.Runtime.Sdk.{Sdk}
use solana_sdk_sample.Instruction
use solana_sdk_sample.Instruction.{UpgradeableLoaderInstruction}
use solana_sdk_sample.Client.{
  encode_deploy_with_max_data_len_instruction, le, encode_write_instruction,
}

-- A little-endian number.
abbrev pub from_le : Bytes → ℕ
from_le [] = 0
from_le (b ∷ bs) = b + 256 * from_le bs

-- bincode's layout: the variant's number and the offset in four bytes each, the length in eight, and
-- as many bytes.
unfoldable pub layout_write : Bytes → Option (ℕ × Bytes)
layout_write d =
    let bytes = drop 16 d in
    if leb 16 (length d) && from_le (take 4 d) == 1 && from_le (take 8 (drop 8 d)) == length bytes
    then some (from_le (take 4 (drop 4 d)), bytes)
    else none

abbrev pub layout_initialize_buffer : Bytes → Bool
layout_initialize_buffer d = length d == 4 && from_le d == 0

unfoldable pub layout_deploy_with_max_data_len : Bytes → Option ℕ
layout_deploy_with_max_data_len d =
    if length d == 12 && from_le (take 4 d) == 2 then some (from_le (drop 4 d)) else none

-- `limited_deserialize` reads instructions in bincode's layout, up to the size of a packet.
pub record IsBincode (sdk : Sdk) : Type 0 where
  pub reads_write :
      (d : Bytes) (offset : ℕ) (bytes : Bytes)
      → layout_write d ≡ some (offset, bytes)
      → length d ≤ 1232
      → sdk.deserialize_upgradeable d ≡ ok (UpgradeableLoaderInstruction.write offset bytes)
  pub reads_initialize_buffer :
      (d : Bytes)
      → layout_initialize_buffer d ≡ true
      → sdk.deserialize_upgradeable d ≡ ok Instruction.initialize_buffer
  pub reads_deploy :
      (d : Bytes) (n : ℕ)
      → layout_deploy_with_max_data_len d ≡ some n
      → sdk.deserialize_upgradeable d ≡ ok (Instruction.deploy_with_max_data_len n)

le_four : (x : ℕ) → x < 4294967296 → from_le (le 4 x) ≡ x
le_four x h = omega arith

le_eight : (x : ℕ) → x < 18446744073709551616 → from_le (le 8 x) ≡ x
le_eight x h = omega arith

-- What the client encodes is read back under bincode's layout, for an offset in `u32` and a length in
-- `u64`.
pub layout_write-encode_write_instruction :
    (offset : ℕ) (bytes : Bytes)
    → offset < 2 ^ 32
    → length bytes < 2 ^ 64
    → layout_write (encode_write_instruction offset bytes) ≡ some (offset, bytes)
unfolding layout_write encode_write_instruction
layout_write-encode_write_instruction offset bytes small fits =
    ground (arith, le_four offset, le_eight (length bytes))

-- So is the data of DeployWithMaxDataLen, for a length in `u64`.
pub layout_deploy-encode_lem :
    (n : ℕ)
    → n < 2 ^ 64
    → layout_deploy_with_max_data_len (encode_deploy_with_max_data_len_instruction n) ≡ some n
unfolding layout_deploy_with_max_data_len encode_deploy_with_max_data_len_instruction
layout_deploy-encode_lem n small = ground (arith, le_eight n)
