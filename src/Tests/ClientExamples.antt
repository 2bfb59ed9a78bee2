-- ===== src/Tests/ClientExamples.antt =====
-- Uploads at concrete inputs.
use solana_sdk_sample.Base.{
  ℕ, ◌≡◌, Bool, ◌+◌, ◌%◌, ◌≤◌, ◌<◌, ◌↔◌, refl, sym, true, false, none, some, Option, [], ◌∷◌, ◌++◌,
  ◌==◌, arith, replicate, if◌then◌else◌,
}
use solana_sdk_sample.Runtime.Outcome.{Outcome, ok, err, invalid_instruction_data}
use solana_sdk_sample.Runtime.Account.{Account, Bytes, Pubkey, Cells, InvokeContext}
use solana_sdk_sample.Runtime.Sdk.{Sdk}
use solana_sdk_sample.Runtime.Sdk.Laws.{IsStateCodec}
use solana_sdk_sample.State
use solana_sdk_sample.Instruction
use solana_sdk_sample.Instruction.{UpgradeableLoaderInstruction}
use solana_sdk_sample.Client.{
  Network, lost, landed, IsHonest, buffer_size, encode_write_instruction,
}
use mathlib.Core.Option
use solana_sdk_sample.Client.Layout.{
  layout_initialize_buffer, layout_deploy_with_max_data_len, layout_write,
  layout_write-encode_write_instruction,
}
use solana_sdk_sample.Client.Layout.{IsBincode}
use solana_sdk_sample.Client.Upload.Completes.{IsOpen}
use solana_sdk_sample.Client.Upload.Liveness.{Lands, Uploaded, upload-Uploaded}
use solana_sdk_sample.Client.Sizes.{buffer_size_iff}
use solana_sdk_sample.Tests.Codec.{
  encode, demo_state-set, state-set_lem, length-set_lem, drop-set_lem, set_fits_lem, state-take_lem,
}
use solana_sdk_sample.Tests.Accounts.{demo_cells, demo_context, loader}
use solana_sdk_sample.Tests.DemoSdk.{demo_sdk}

abbrev as_write : Option (ℕ × Bytes) → Outcome UpgradeableLoaderInstruction
as_write none = err invalid_instruction_data
as_write (some (offset, bytes)) = ok (UpgradeableLoaderInstruction.write offset bytes)

abbrev as_deploy : Option ℕ → Bytes → Outcome UpgradeableLoaderInstruction
as_deploy none d = as_write (layout_write d)
as_deploy (some n) d = ok (Instruction.deploy_with_max_data_len n)

abbrev decode : Bytes → Outcome UpgradeableLoaderInstruction
decode d =
    if layout_initialize_buffer d
    then ok Instruction.initialize_buffer
    else as_deploy (layout_deploy_with_max_data_len d) d

-- The stand-in for the SDK with bincode's layout of three instructions.
abbrev pub client_sdk : Sdk
client_sdk = record demo_sdk { deserialize_upgradeable = decode }

write_is_long :
    (d : Bytes) (offset : ℕ) (bytes : Bytes)
    → layout_write d ≡ some (offset, bytes)
    → (layout_initialize_buffer d ≡ false) × (layout_deploy_with_max_data_len d ≡ none)
unfolding layout_write layout_deploy_with_max_data_len
write_is_long d offset bytes e = (ground arith, ground arith)

deploy_is_long :
    (d : Bytes) (n : ℕ)
    → layout_deploy_with_max_data_len d ≡ some n
    → layout_initialize_buffer d ≡ false
unfolding layout_deploy_with_max_data_len
deploy_is_long d n e = ground arith

pub client_sdk-IsBincode : IsBincode client_sdk
client_sdk-IsBincode = record {
  reads_write = λ d offset bytes e small.
      let (other, another) = write_is_long d offset bytes e in rw (other, another, e);
  reads_initialize_buffer = λ d e. rw e;
  reads_deploy = λ d n e. rw (deploy_is_long d n e, e);
}

pub client_sdk-IsStateCodec : IsStateCodec client_sdk
client_sdk-IsStateCodec = record {
  state-set_state = state-set_lem;
  length-set_state = length-set_lem;
  drop-set_state = drop-set_lem;
  set_state_fits = set_fits_lem;
  not_empty = λ s e. cc;
  state-take = state-take_lem;
}

-- A buffer of 1024 bytes under authority 7 in cell 30.
abbrev client_account : Account
client_account = record {
  lamports = 1024;
  data_bytes = encode (State.buffer (some 7)) ++ replicate 987 0;
  owner = 3;
  executable = false;
}

abbrev client_cells : Cells
client_cells c = if c == 30 then client_account else demo_cells c

abbrev client_context : InvokeContext
client_context = record (demo_context []) { cells = client_cells }

abbrev pub cell_of : Pubkey → ℕ
cell_of k = k

-- The first attempt for each chunk is lost with an error, the second one lands.
abbrev pub second_lands : Network
second_lands = record {
  initialize_buffer = landed true false;
  blockhash = λ i. true;
  chunk = λ i k. if k == 1 then landed true false else lost false;
  deploy = landed true false;
}

second_lands-Lands : Lands second_lands
second_lands-Lands i = (refl, (1, omega arith, refl))

pub second_lands-IsHonest : (i k : ℕ) → IsHonest (second_lands.chunk i k)
second_lands-IsHonest i k = at (k == 1)
  where
    at : (b : Bool) → IsHonest (if b then landed true false else lost false)
    at true = refl
    at false = refl

-- Two chunks.
abbrev program : Bytes
program = replicate 700 5

client_context-IsOpen :
    (n : ℕ)
    → buffer_size n ≡ 1024
    → IsOpen client_sdk client_sdk-IsStateCodec client_sdk-IsBincode cell_of loader false 30 7
        (buffer_size n)
        client_context
client_context-IsOpen n e = record {
  is_buffer = demo_state-set (State.buffer (some 7)) (replicate 987 0);
  has_size = sym e;
}

size_700 : buffer_size 700 ≡ 1024
unfolding buffer_size
size_700 = refl

upload-Uploaded_example :
    Uploaded client_sdk cell_of loader false 30 7 second_lands program client_context
upload-Uploaded_example =
    upload-Uploaded client_sdk client_sdk-IsStateCodec client_sdk-IsBincode cell_of loader false 30
      7 second_lands program client_context (omega arith) (omega arith) second_lands-Lands
      second_lands-IsHonest (client_context-IsOpen 700 size_700)

abbrev pub short_program : Bytes
short_program = 1 ∷ 2 ∷ 3 ∷ []

abbrev unlucky_program : Bytes
unlucky_program = replicate 988 5

-- The first attempt for each chunk is lost with an error; the second one is lost too, and is reported
-- as a success.
abbrev false_success : Network
false_success = record second_lands { chunk = λ i k. if k == 1 then lost true else lost false }

layout_write-encode_write_instruction_example :
    layout_write (encode_write_instruction 70000 (1 ∷ 2 ∷ 3 ∷ [])) ≡ some (70000, 1 ∷ 2 ∷ 3 ∷ [])
layout_write-encode_write_instruction_example =
    layout_write-encode_write_instruction 70000 (1 ∷ 2 ∷ 3 ∷ []) (omega arith) (omega arith)

buffer_size_iff_example : (37 + 1500 ≤ buffer_size 1500) ↔ ((1500 + 32) % 1024 < 1020)
buffer_size_iff_example = buffer_size_iff 1500
