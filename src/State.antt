-- ===== src/State.antt =====
-- scripts/ref/bpf_loader_upgradable.rs: the states of an account of the upgradeable loader, and
-- the sizes of their serialised forms. `usize` is 64 bits wide.
use solana_sdk_sample.Base.{ℕ, Option, saturating_add}
use solana_sdk_sample.Runtime.Account.{Pubkey}
use solana_sdk_sample.Runtime.Outcome.{Outcome, ok}

pub data UpgradeableLoaderState : Type 0 where
  uninitialized : UpgradeableLoaderState
  buffer : Option Pubkey → UpgradeableLoaderState
  program : Pubkey → UpgradeableLoaderState
  program_data : ℕ → Option Pubkey → UpgradeableLoaderState

abbrev pub size_of_uninitialized : ℕ
size_of_uninitialized = 4

abbrev pub size_of_buffer_metadata : ℕ
size_of_buffer_metadata = 37

abbrev pub size_of_programdata_metadata : ℕ
size_of_programdata_metadata = 45

abbrev pub size_of_program : ℕ
size_of_program = 36

abbrev pub size_of_buffer : ℕ → ℕ
size_of_buffer program_len = saturating_add size_of_buffer_metadata program_len

abbrev pub size_of_programdata : ℕ → ℕ
size_of_programdata program_len = saturating_add size_of_programdata_metadata program_len

abbrev pub buffer_len : ℕ → Outcome ℕ
buffer_len program_len = ok (size_of_buffer program_len)

abbrev pub buffer_data_offset : Outcome ℕ
buffer_data_offset = ok size_of_buffer_metadata

abbrev pub program_len : Outcome ℕ
program_len = ok size_of_program

abbrev pub programdata_len : ℕ → Outcome ℕ
programdata_len len = ok (size_of_programdata len)

abbrev pub programdata_data_offset : Outcome ℕ
programdata_data_offset = ok size_of_programdata_metadata

-- The greatest serialised size of each state.
abbrev pub metadata_size : UpgradeableLoaderState → ℕ
metadata_size uninitialized = size_of_uninitialized
metadata_size (buffer a) = size_of_buffer_metadata
metadata_size (program p) = size_of_program
metadata_size (program_data s a) = size_of_programdata_metadata
