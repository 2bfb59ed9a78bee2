-- ===== src/Client/Upload/Liveness.antt =====
-- An upload into a large enough buffer ends, if the network lets one attempt in four through.
use solana_sdk_sample.Base.{
  ℕ, zero, suc, ◌+◌, ◌*◌, ◌^◌, ◌%◌, ◌≤◌, ◌<◌, ◌≡◌, refl, subst, Bool, true, Option, none, some,
  arith, length, take, drop, length-take, length-drop,
}
use mathlib.Core.Option
use solana_sdk_sample.Runtime.Account.{Pubkey, Bytes, KeyedAccount, InvokeContext}
use solana_sdk_sample.Runtime.Sdk.{Sdk}
use solana_sdk_sample.Runtime.Sdk.Laws.{IsStateCodec}
use solana_sdk_sample.Instruction.{Call}
use solana_sdk_sample.Loader.Buffer.Laws.{Written}
use solana_sdk_sample.Client.{
  Network, IsHonest, write_chunk, send_chunk, upload_from, upload, buffer_size,
  calculate_optimal_chunk_size,
}
use solana_sdk_sample.Client.Sizes.{buffer_size_iff}
use solana_sdk_sample.Client.Layout.{IsBincode}
use solana_sdk_sample.Client.Upload.Rounds.{upload-Written}
use solana_sdk_sample.Client.Upload.Completes.{IsOpen, IsEffective, send_chunk-completes}

-- Each round has its blockhash, and of its four attempts one lands and is reported.
abbrev pub Lands : Network → Type 0
Lands network =
    (i : ℕ) → (network.blockhash i ≡ true) × ((k : ℕ) × (k < 4) × IsEffective (network.chunk i k))

module _ (sdk : Sdk) (codec : IsStateCodec sdk) (bincode : IsBincode sdk) (cell_of : Pubkey → ℕ)
    (loader : KeyedAccount) (jit : Bool) (buffer payer : Pubkey) (size : ℕ) (network : Network)
    (lands : Lands network) (program : Bytes) (small : length program < 2 ^ 32)
    (fits : 37 + length program ≤ size) where
  abbrev Open : InvokeContext → Type 0
  Open = IsOpen sdk codec bincode cell_of loader jit buffer payer size

  bind_Sent :
      (r : Option InvokeContext) (k : InvokeContext → Option InvokeContext)
      → (d : InvokeContext) × (r ≡ some d) × Open d
      → ((d : InvokeContext) → Open d → (e : InvokeContext) × (k d ≡ some e) × Open e)
      → (e : InvokeContext) × (Option.bind r k ≡ some e) × Open e
  unfolding Option.bind
  bind_Sent none k h more = cc (h.1)
  bind_Sent (some d) k h more = more d (subst Open (cc (h.1)) h.2)

  round_Sent :
      (i : ℕ) (call : Call) (c : InvokeContext)
      → network.blockhash i ≡ true
      → (e : InvokeContext) × (send_chunk sdk cell_of loader jit (network.chunk i) call c ≡ some e)
        × Open e
      → (e : InvokeContext) × (write_chunk sdk cell_of loader jit buffer payer network i call c
          ≡ some e)
        × Open e
  unfolding write_chunk
  round_Sent i call c hash (e, sent, o) = (e, ground arith, o)

  upload_from-completes :
      (rounds i : ℕ) (c : InvokeContext)
      → (i + rounds) * 600 < length program + 600
      → Open c
      → (e : InvokeContext) × (upload_from sdk cell_of loader jit buffer payer rounds i 600 network
            program c
          ≡ some e)
        × Open e
  unfolding upload_from
  upload_from-completes zero i c covered o = (c, refl, o)
  upload_from-completes (suc rounds) i c covered o =
      let (hash, found) = lands i in
      let (k, lt, sent) = found in
      let n = length-take 600 (drop (i * 600) program) in
      let m = length-drop (i * 600) program in
      bind_Sent _ _
        (round_Sent i _ c hash (
          send_chunk-completes sdk codec bincode cell_of loader jit buffer payer size (i * 600)
            (take 600 (drop (i * 600) program)) (omega arith) (omega (arith, n))
            (omega (arith, n, m)) k (network.chunk i) c lt sent o))
        (λ d u. upload_from-completes rounds (i + 1) d (omega arith) u)

-- The program is on the chain after an upload that ends without an error.
pub record Uploaded (sdk : Sdk) (cell_of : Pubkey → ℕ) (loader : KeyedAccount) (jit : Bool)
    (buffer payer : Pubkey) (network : Network) (program : Bytes) (c : InvokeContext) : Type 0 where
  pub e : InvokeContext
  pub runs : upload sdk cell_of loader jit buffer payer network program c ≡ some e
  pub written : Written sdk 37 program (cell_of buffer) c e

-- An upload into the buffer account that the client makes, under the payer's authority, ends without
-- an error and leaves the program in it, if each chunk has its blockhash and one of its four attempts
-- lands and its success is reported, no attempt is reported as a success but one whose instruction has
-- succeeded, and the program's length is not one of the four in 1024 for which the account is too
-- small.
pub upload-Uploaded :
    (sdk : Sdk) (codec : IsStateCodec sdk) (bincode : IsBincode sdk) (cell_of : Pubkey → ℕ)
    (loader : KeyedAccount) (jit : Bool) (buffer payer : Pubkey) (network : Network)
    (program : Bytes) (c : InvokeContext)
    → length program < 2 ^ 32
    → (length program + 32) % 1024 < 1020
    → Lands network
    → ((i k : ℕ) → IsHonest (network.chunk i k))
    → IsOpen sdk codec bincode cell_of loader jit buffer payer (buffer_size (length program)) c
    → Uploaded sdk cell_of loader jit buffer payer network program c
unfolding upload calculate_optimal_chunk_size
upload-Uploaded sdk codec bincode cell_of loader jit buffer payer network program c small residue
      lands honest o =
    let (e, runs, _) =
      upload_from-completes sdk codec bincode cell_of loader jit buffer payer
        (buffer_size (length program)) network lands program small
        ((buffer_size_iff (length program)).1 residue)
        (calculate_optimal_chunk_size (length program)).total_chunks 0 c (omega arith) o in
    record {
      e = e;
      runs = runs;
      written =
          upload-Written sdk cell_of loader jit buffer payer network program c e codec bincode small
            honest runs;
    }
