-- ===== src/Client.antt =====
-- scripts/deployment/deploy.ts: the sizes, the instruction data and the upload loop of the
-- deployment. The network is a parameter: it says what becomes of each attempt to send.
pub mod Layout
pub mod Sizes
pub mod Upload
pub mod Deploy
use solana_sdk_sample.Base.{
  ℕ, zero, suc, ◌+◌, ◌-◌, ◌*◌, ◌/◌, ◌%◌, ◌≡◌, min, Bool, true, false, Option, none, some, List, [],
  ◌∷◌, ◌++◌, length, take, drop, if◌then◌else◌,
}
use mathlib.Core.Option
use solana_sdk_sample.Runtime.Outcome.{Outcome, ok, err, panic}
use solana_sdk_sample.Runtime.Account.{Pubkey, Bytes, KeyedAccount, InvokeContext}
use solana_sdk_sample.Runtime.Sdk.{Sdk, Seed}
use solana_sdk_sample.Instruction.{AccountMeta, Call}
use solana_sdk_sample.Runtime.Invoke.{invoked}
use solana_sdk_sample.Loader.Process.{process_loader_upgradeable_instruction}

-- `writeUInt32LE` and `writeBigUInt64LE`: the `n` bytes of a number, the lowest first.
abbrev pub le : ℕ → ℕ → Bytes
le zero x = []
le (suc n) x = x % 256 ∷ le n (x / 256)

-- `Math.ceil(a / b)`
abbrev pub ceil_div : ℕ → ℕ → ℕ
ceil_div a b = (a + (b - 1)) / b

-- The length of the buffer account for a program of the given length.
unfoldable pub buffer_size : ℕ → ℕ
buffer_size program_length = ceil_div (program_length + 33) 1024 * 1024

pub record ChunkPlan : Type 0 where
  pub chunk_size : ℕ
  pub total_chunks : ℕ

unfoldable pub calculate_optimal_chunk_size : ℕ → ChunkPlan
calculate_optimal_chunk_size data_length =
    let max_data_size : ℕ = 1232 - 400 - 5 - 150 in
    let chunk_size : ℕ = min max_data_size 600 in
    record { chunk_size = chunk_size; total_chunks = ceil_div data_length chunk_size }

unfoldable pub encode_write_instruction : ℕ → Bytes → Bytes
encode_write_instruction offset bytes =
    (1 ∷ 0 ∷ 0 ∷ 0 ∷ []) ++ (le 4 offset ++ (le 8 (length bytes) ++ bytes))

unfoldable pub encode_deploy_with_max_data_len_instruction : ℕ → Bytes
encode_deploy_with_max_data_len_instruction size = (2 ∷ 0 ∷ 0 ∷ 0 ∷ []) ++ le 8 size

-- What becomes of an attempt to send a transaction, and whether the client is told of a success. The
-- two are apart: the connection's `confirmTransaction` asks no one, and its `sendTransaction` returns
-- for a transaction that Fireblocks is still broadcasting. An attempt is lost, or lands before the
-- next one is made; and if it lands, the client is told one thing if the instruction succeeds and
-- another if it fails. Where the code waits after it, that includes the answers to the wait's polls.
pub data Attempt : Type 0 where
  lost : Bool → Attempt
  landed : Bool → Bool → Attempt

-- No success is reported but of an instruction that has succeeded.
abbrev pub IsHonest : Attempt → Type 0
IsHonest (lost told) = told ≡ false
IsHonest (landed told_done told_failed) = told_failed ≡ false

-- What the network does in one deployment: to the instructions InitializeBuffer and
-- DeployWithMaxDataLen, to the request for a blockhash for each chunk, and to the attempts to send the
-- chunk.
pub record Network : Type 0 where
  pub initialize_buffer : Attempt
  pub blockhash : ℕ → Bool
  pub chunk : ℕ → ℕ → Attempt
  pub deploy : Attempt

-- The runtime rolls back an instruction that fails.
abbrev pub settle :
    Outcome (Unit {0}) × InvokeContext → Bool → Bool → InvokeContext → Bool × InvokeContext
settle (ok a, c') told_done told_failed c = (told_done, c')
settle (err e, c') told_done told_failed c = (told_failed, c)
settle (panic, c') told_done told_failed c = (told_failed, c)

module _ (sdk : Sdk) (cell_of : Pubkey → ℕ) (loader : KeyedAccount) (jit : Bool) where
  -- The instruction's run by the loader.
  abbrev pub invoke : Call → InvokeContext → Outcome (Unit {0}) × InvokeContext
  invoke call c =
      process_loader_upgradeable_instruction sdk 1 call.data_bytes jit
        (invoked cell_of loader call c)

  -- `sendAndConfirmTransaction`: whether it reports success, and what is on the chain after it.
  unfoldable pub send_and_confirm : Attempt → Call → InvokeContext → Bool × InvokeContext
  send_and_confirm (lost told) call c = (told, c)
  send_and_confirm (landed told_done told_failed) call c =
      settle (invoke call c) told_done told_failed c

  -- The wait for the transaction, which polls `getTransaction` until it is there: for one that is lost,
  -- it can only end with an error of a poll. That it may never end is left out.
  unfoldable pub wait_confirmed : Attempt → Bool × InvokeContext → Bool × InvokeContext
  wait_confirmed (lost told) (done, c) = (false, c)
  wait_confirmed (landed told_done told_failed) (done, c) = (done, c)

  abbrev pub send_and_wait : Attempt → Call → InvokeContext → Bool × InvokeContext
  send_and_wait a call c = wait_confirmed a (send_and_confirm a call c)

  -- The retry loop, with the retries left and the attempts made: `none` is the error thrown.
  unfoldable pub retry : ℕ → ℕ → (ℕ → Attempt) → Call → InvokeContext → Option InvokeContext
  retry zero made network call c = none
  retry (suc left) made network call c =
      let (done, c') = send_and_confirm (network made) call c in
      let rest = retry left (made + 1) network call c' in if done then some c' else rest

  abbrev pub max_retries : ℕ
  max_retries = 3

  -- One chunk: an attempt with a wait, and retries without one if it fails.
  unfoldable pub send_chunk : (ℕ → Attempt) → Call → InvokeContext → Option InvokeContext
  unfolding retry
  send_chunk network call c =
      let (done, c') = send_and_wait (network 0) call c in
      let rest = retry max_retries 1 network call c' in if done then some c' else rest

  module _ (buffer payer : Pubkey) where
    unfoldable pub write_instruction : ℕ → Bytes → Call
    unfolding encode_write_instruction
    write_instruction offset bytes = record {
      program_id = sdk.bpf_loader_upgradeable_id;
      accounts =
          record { pubkey = buffer; is_signer = false; is_writable = true }
          ∷ record { pubkey = payer; is_signer = true; is_writable = false }
          ∷ [];
      data_bytes = encode_write_instruction offset bytes;
    }

    -- One round of the loop: without a blockhash there is no attempt.
    unfoldable pub write_chunk : Network → ℕ → Call → InvokeContext → Option InvokeContext
    unfolding send_chunk
    write_chunk network i call c =
        if network.blockhash i then send_chunk (network.chunk i) call c else none

    -- The loop over the chunks, with the rounds left.
    unfoldable pub upload_from : ℕ → ℕ → ℕ → Network → Bytes → InvokeContext → Option InvokeContext
    upload_from zero i chunk_size network program c = some c
    upload_from (suc rounds) i chunk_size network program c =
        let offset = i * chunk_size in
        let chunk = take chunk_size (drop offset program) in
        Option.bind (write_chunk network i (write_instruction offset chunk) c)
          (λ c'. upload_from rounds (i + 1) chunk_size network program c')

    unfoldable pub upload : Network → Bytes → InvokeContext → Option InvokeContext
    unfolding upload_from calculate_optimal_chunk_size
    upload network program c =
        let plan = calculate_optimal_chunk_size (length program) in
        upload_from plan.total_chunks 0 plan.chunk_size network program c

    unfoldable pub initialize_buffer_instruction : Call
    initialize_buffer_instruction = record {
      program_id = sdk.bpf_loader_upgradeable_id;
      accounts =
          record { pubkey = buffer; is_signer = false; is_writable = true }
          ∷ record { pubkey = payer; is_signer = false; is_writable = false }
          ∷ [];
      data_bytes = 0 ∷ 0 ∷ 0 ∷ 0 ∷ [];
    }

    -- A transaction that is sent once: an error ends the deployment.
    unfoldable pub send_once : Attempt → Call → InvokeContext → Option InvokeContext
    unfolding send_and_confirm
    send_once attempt call c =
        let (done, c') = send_and_confirm attempt call c in if done then some c' else none

    -- InitializeBuffer, which is waited for.
    unfoldable pub initialize : Attempt → InvokeContext → Option InvokeContext
    unfolding initialize_buffer_instruction
    initialize attempt c =
        let (done, c') = send_and_wait attempt initialize_buffer_instruction c in
        if done then some c' else none

    module _ (program_account : Pubkey) where
      abbrev pub program_data_address : Pubkey
      program_data_address =
          (sdk.find_program_address (Seed.key program_account ∷ []) sdk.bpf_loader_upgradeable_id).0

      -- DeployWithMaxDataLen with the buffer's length as the program's greatest length.
      unfoldable pub deploy_instruction : ℕ → Call
      unfolding encode_deploy_with_max_data_len_instruction
      deploy_instruction size = record {
        program_id = sdk.bpf_loader_upgradeable_id;
        accounts =
            record { pubkey = payer; is_signer = true; is_writable = true }
            ∷ record { pubkey = program_data_address; is_signer = false; is_writable = true }
            ∷ record { pubkey = program_account; is_signer = false; is_writable = true }
            ∷ record { pubkey = buffer; is_signer = false; is_writable = true }
            ∷ record { pubkey = sdk.rent_id; is_signer = false; is_writable = false }
            ∷ record { pubkey = sdk.clock_id; is_signer = false; is_writable = false }
            ∷ record { pubkey = sdk.system_program_id; is_signer = false; is_writable = false }
            ∷ record { pubkey = payer; is_signer = true; is_writable = false }
            ∷ [];
        data_bytes = encode_deploy_with_max_data_len_instruction size;
      }

      -- `deployProgram`, once the program's account and the buffer account are created.
      unfoldable pub deploy_program : Network → Bytes → InvokeContext → Option InvokeContext
      unfolding buffer_size initialize send_once upload deploy_instruction
      deploy_program network program c = Option.bind (initialize network.initialize_buffer c) λ c₁.
          Option.bind (upload network program c₁)
            λ c₂. send_once network.deploy (deploy_instruction (buffer_size (length program))) c₂
