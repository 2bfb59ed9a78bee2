-- ===== src/Runtime/Sdk/Laws.antt =====
-- What the code relies on: the documented behaviour of the SDK's functions, as named hypotheses.
use solana_sdk_sample.Base.{ℕ, ◌+◌, ◌≤◌, ◌<◌, ◌≡◌, ◌≢◌, [], take, drop, length, u64_bound}
use solana_sdk_sample.Runtime.Outcome.{ok, err, arithmetic_overflow}
use solana_sdk_sample.Runtime.Account.{Bytes}
use solana_sdk_sample.State.{UpgradeableLoaderState, metadata_size}
use solana_sdk_sample.Instruction.{UpgradeableLoaderInstruction}
use solana_sdk_sample.Instruction
use solana_sdk_sample.Runtime.Sdk.{Sdk}

-- `AccountSharedData::checked_add_lamports` adds on `u64` and reports an overflow.
pub record IsCheckedAdd (sdk : Sdk) : Type 0 where
  pub fits : (a b : ℕ) → a + b < u64_bound → sdk.checked_add_lamports a b ≡ ok (a + b)
  pub overflows :
      (a b : ℕ) → u64_bound ≤ a + b → sdk.checked_add_lamports a b ≡ err arithmetic_overflow

-- `State::state` and `State::set_state` on account data: bincode at the front of the data, which
-- keeps their length and what lies behind the metadata.
pub record IsStateCodec (sdk : Sdk) : Type 0 where
  pub state-set_state :
      (s : UpgradeableLoaderState) (d d' : Bytes) → sdk.set_state s d ≡ ok d' → sdk.state d' ≡ ok s
  pub length-set_state :
      (s : UpgradeableLoaderState) (d d' : Bytes) → sdk.set_state s d ≡ ok d' → length d' ≡ length d
  pub drop-set_state :
      (s : UpgradeableLoaderState) (d d' : Bytes)
      → sdk.set_state s d ≡ ok d'
      → drop (metadata_size s) d' ≡ drop (metadata_size s) d
  pub set_state_fits :
      (s : UpgradeableLoaderState) (d : Bytes)
      → metadata_size s ≤ length d
      → (d' : Bytes) × (sdk.set_state s d ≡ ok d')
  pub not_empty : (s : UpgradeableLoaderState) → sdk.state [] ≢ ok s
  -- Bytes behind the metadata do not count.
  pub state-take :
      (s : UpgradeableLoaderState) (d d' : Bytes)
      → sdk.state d ≡ ok s
      → take (metadata_size s) d' ≡ take (metadata_size s) d
      → sdk.state d' ≡ ok s

-- The first byte of a serialised instruction is the number of its variant.
abbrev pub variant_index : UpgradeableLoaderInstruction → ℕ
variant_index Instruction.initialize_buffer = 0
variant_index (Instruction.UpgradeableLoaderInstruction.write o b) = 1
variant_index (Instruction.deploy_with_max_data_len n) = 2
variant_index Instruction.upgrade = 3
variant_index Instruction.set_authority = 4
variant_index Instruction.close = 5
variant_index (Instruction.extend_program n) = 6
variant_index Instruction.set_authority_checked = 7
