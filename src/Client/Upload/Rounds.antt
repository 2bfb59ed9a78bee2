-- ===== src/Client/Upload/Rounds.antt =====
-- The whole upload: what it leaves on the chain when it ends without an error.
use solana_sdk_sample.Base.{
  ℕ, zero, suc, ◌+◌, ◌*◌, ◌^◌, ◌≤◌, ◌<◌, ◌≡◌, refl, ap, sym, subst, subst₂, ◌∙◌, Bool, some, [],
  ◌++◌, arith, length, take, drop, length-take, length-drop, take-add, drop-drop, take-all,
}
use mathlib.Core.Option
use solana_sdk_sample.Runtime.Account.{Pubkey, Bytes, KeyedAccount, InvokeContext}
use solana_sdk_sample.Runtime.Sdk.{Sdk}
use solana_sdk_sample.Runtime.Sdk.Laws.{IsStateCodec}
use solana_sdk_sample.Instruction.{Call}
use solana_sdk_sample.Loader.Buffer.Laws.{Written}
use solana_sdk_sample.Loader.Buffer.Upload.{Written-append, Written-nil}
use solana_sdk_sample.Client.{
  IsHonest, Network, write_chunk, send_chunk, upload_from, upload, calculate_optimal_chunk_size,
}
use solana_sdk_sample.Client.Layout.{IsBincode}
use solana_sdk_sample.Client.Upload.{send_chunk_lem}

module _ (sdk : Sdk) (codec : IsStateCodec sdk) (bincode : IsBincode sdk) (cell_of : Pubkey → ℕ)
    (loader : KeyedAccount) (jit : Bool) (buffer payer : Pubkey) where
  pub write_chunk-sends :
      (network : Network) (i : ℕ) (call : Call) (c d : InvokeContext)
      → write_chunk sdk cell_of loader jit buffer payer network i call c ≡ some d
      → send_chunk sdk cell_of loader jit (network.chunk i) call c ≡ some d
  unfolding write_chunk
  write_chunk-sends network i call c d h = ground arith

  abbrev slice : ℕ → ℕ → Bytes → Bytes
  slice from n program = take n (drop from program)

  slice-append :
      (from m n : ℕ) (program : Bytes)
      → from + m ≤ length program
      → (length (slice from m program) ≡ m)
        × (slice from (m + n) program ≡ slice from m program ++ slice (from + m) n program)
  slice-append from m n program h = (
    omega (arith, length-take m (drop from program), length-drop from program),
    take-add m n (m + n) (drop from program) refl
        ∙ ap (λ r. slice from m program ++ take n r) (drop-drop from m (from + m) program refl),
  )

  -- A chunk, which is full unless it is the last one, and the chunks after it.
  chunk-append :
      (rounds i : ℕ) (program : Bytes) (c d e : InvokeContext)
      → (i + suc rounds) * 600 < length program + 600
      → Written sdk (37 + i * 600) (slice (i * 600) 600 program) (cell_of buffer) c d
      → (rounds ≡ 0 → d ≡ e)
      → Written sdk
          (37 + (i + 1) * 600)
          (slice ((i + 1) * 600) (rounds * 600) program)
          (cell_of buffer)
          d
          e
      → Written sdk (37 + i * 600) (slice (i * 600) (suc rounds * 600) program) (cell_of buffer) c e
  chunk-append zero i program c d e covered first last rest =
      subst (Written sdk (37 + i * 600) (slice (i * 600) 600 program) (cell_of buffer) c)
        (last refl) first
  chunk-append (suc rounds) i program c d e covered first last rest =
      let n : ℕ = suc rounds * 600 in
      let (full, split) = slice-append (i * 600) 600 n program (omega arith) in
      let next : (i + 1) * 600 ≡ i * 600 + 600 = omega arith in
      let size : suc (suc rounds) * 600 ≡ 600 + n = omega arith in
      subst (λ xs. Written sdk (37 + i * 600) xs (cell_of buffer) c e)
        (sym (ap (λ k. slice (i * 600) k program) size ∙ split))
        (Written-append sdk (37 + i * 600) (slice (i * 600) 600 program)
          (slice (i * 600 + 600) n program) (cell_of buffer) c d e first
          (subst₂ (λ start from. Written sdk start (slice from n program) (cell_of buffer) d e)
            (omega (arith, full)) next rest))

  last_round :
      (rounds i : ℕ) (network : Network) (program : Bytes) (d e : InvokeContext)
      → upload_from sdk cell_of loader jit buffer payer rounds i 600 network program d ≡ some e
      → rounds ≡ 0
      → d ≡ e
  unfolding upload_from
  last_round zero i network program d e h z = cc
  last_round (suc rounds) i network program d e h z = absurd (omega arith)

  -- The chunks from number `i` on, when those before the last are full.
  upload_from-Written :
      (rounds i : ℕ) (network : Network) (program : Bytes) (c e : InvokeContext)
      → (i + rounds) * 600 < length program + 600
      → length program < 2 ^ 32
      → ((j k : ℕ) → IsHonest (network.chunk j k))
      → upload_from sdk cell_of loader jit buffer payer rounds i 600 network program c ≡ some e
      → Written sdk (37 + i * 600) (slice (i * 600) (rounds * 600) program) (cell_of buffer) c e
  unfolding upload_from
  upload_from-Written zero i network program c e covered small honest h =
      subst (λ d. Written sdk (37 + i * 600) [] (cell_of buffer) c d) (cc)
        (Written-nil sdk (37 + i * 600) (cell_of buffer) c)
  upload_from-Written (suc rounds) i network program c e covered small honest h =
      let (d, round, more) = (Option.bind-eq-some_iff _ _).0 h in
      let sent = write_chunk-sends network i _ c d round in
      let first =
        send_chunk_lem sdk codec bincode cell_of loader jit buffer payer (i * 600)
          (slice (i * 600) 600 program) (omega arith)
          (omega (arith, length-take 600 (drop (i * 600) program))) (network.chunk i) c d (honest i)
          sent in
      chunk-append rounds i program c d e covered first
        (last_round rounds (i + 1) network program d e more)
        (upload_from-Written rounds (i + 1) network program d e (omega arith) small honest more)

pub upload-Written :
    (sdk : Sdk) (cell_of : Pubkey → ℕ) (loader : KeyedAccount) (jit : Bool) (buffer payer : Pubkey)
    (network : Network) (program : Bytes) (c e : InvokeContext)
    → IsStateCodec sdk
    → IsBincode sdk
    → length program < 2 ^ 32
    → ((i k : ℕ) → IsHonest (network.chunk i k))
    → upload sdk cell_of loader jit buffer payer network program c ≡ some e
    → Written sdk 37 program (cell_of buffer) c e
unfolding upload calculate_optimal_chunk_size
upload-Written sdk cell_of loader jit buffer payer network program c e codec bincode small honest
      h =
    subst (λ xs. Written sdk 37 xs (cell_of buffer) c e) (take-all _ program (omega arith))
      (upload_from-Written sdk codec bincode cell_of loader jit buffer payer
        (calculate_optimal_chunk_size (length program)).total_chunks 0 network program c e
        (omega arith) small honest h)
