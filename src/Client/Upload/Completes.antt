-- ===== src/Client/Upload/Completes.antt =====
-- When a chunk's attempts end without an error.
use solana_sdk_sample.Base.{
  ℕ, zero, suc, ◌+◌, ◌^◌, ◌≤◌, ◌<◌, ◌≡◌, ◌≢◌, inl, inr, refl, ap, sym, subst, ◌∙◌, Bool, true,
  false, Option, some, arith, length, if◌then◌else◌,
}
use solana_sdk_sample.Runtime.Outcome.{Outcome, ok, err, panic}
use solana_sdk_sample.Runtime.Account.{Pubkey, Bytes, KeyedAccount, InvokeContext}
use solana_sdk_sample.Runtime.Sdk.{Sdk}
use solana_sdk_sample.Runtime.Sdk.Laws.{IsStateCodec}
use solana_sdk_sample.State
use solana_sdk_sample.Loader.Buffer.Laws.{Written, write_iff}
use solana_sdk_sample.Client.{
  Attempt, lost, landed, settle, invoke, send_and_confirm, wait_confirmed, send_and_wait, retry,
  send_chunk,
}
use solana_sdk_sample.Instruction.{Call}
use solana_sdk_sample.Client.Layout.{IsBincode}
use solana_sdk_sample.Client.Upload.{
  Tried, call_of, write_accounts, given, invoke-write, send_and_confirm_lem,
}

-- The attempt lands, and its success is reported.
abbrev pub IsEffective : Attempt → Type 0
IsEffective (lost told) = ⊥
IsEffective (landed told_done told_failed) = told_done ≡ true

module _ (sdk : Sdk) (codec : IsStateCodec sdk) (bincode : IsBincode sdk) (cell_of : Pubkey → ℕ)
    (loader : KeyedAccount) (jit : Bool) (buffer payer : Pubkey) (size : ℕ) where
  -- The buffer is the payer's, and has `size` bytes.
  pub record IsOpen (c : InvokeContext) : Type 0 where
    pub is_buffer : sdk.state (c.cells (cell_of buffer)).data_bytes ≡ ok (State.buffer (some payer))
    pub has_size : length (c.cells (cell_of buffer)).data_bytes ≡ size

  Written-IsOpen :
      (start : ℕ) (bytes : Bytes) (c d : InvokeContext)
      → IsOpen c
      → Written sdk start bytes (cell_of buffer) c d
      → IsOpen d
  Written-IsOpen start bytes c d o w = record {
    is_buffer = w.state_kept ∙ o.is_buffer;
    has_size = w.length_kept ∙ o.has_size;
  }

  module _ (offset : ℕ) (bytes : Bytes) (small : offset < 2 ^ 32) (short : length bytes ≤ 600)
      (fits : 37 + offset + length bytes ≤ size) where
    invoke-runs :
        (c : InvokeContext)
        → IsOpen c
        → (invoke sdk cell_of loader jit
            (call_of sdk codec bincode cell_of loader jit buffer payer offset bytes)
            c).0
          ≡ ok tt
    invoke-runs c o =
        ap (λ (r : Outcome (Unit {0}) × InvokeContext). r.0)
          (invoke-write sdk codec bincode cell_of loader jit buffer payer offset bytes c small
            short)
        ∙ (write_iff sdk (write_accounts sdk codec bincode cell_of loader jit buffer payer) 1 offset
              bytes (given sdk codec bincode cell_of loader jit buffer payer c) _ _ refl refl
              refl).1
            (record { is_buffer = o.is_buffer; signed = refl; fits = omega (arith, o.has_size) })

    settle-reports :
        (r : Outcome (Unit {0}) × InvokeContext) (told_failed : Bool) (c : InvokeContext)
        → r.0 ≡ ok tt
        → (settle r true told_failed c).0 ≡ true
    settle-reports (ok a, d) told_failed c e = refl
    settle-reports (err x, d) told_failed c e = cc
    settle-reports (panic, d) told_failed c e = cc

    abbrev pub call : Call
    call = call_of sdk codec bincode cell_of loader jit buffer payer offset bytes

    send_and_confirm-reports :
        (a : Attempt) (c : InvokeContext)
        → IsOpen c
        → IsEffective a
        → (send_and_confirm sdk cell_of loader jit a call c).0 ≡ true
    unfolding send_and_confirm
    send_and_confirm-reports (lost told) c o e = absurd e
    send_and_confirm-reports (landed false told_failed) c o e = cc
    send_and_confirm-reports (landed true told_failed) c o e =
        settle-reports (invoke sdk cell_of loader jit call c) told_failed c (invoke-runs c o)

    send_and_confirm-IsOpen :
        (a : Attempt) (c : InvokeContext)
        → IsOpen c
        → IsOpen (send_and_confirm sdk cell_of loader jit a call c).1
    send_and_confirm-IsOpen a c o =
        tried c _
          (send_and_confirm_lem sdk codec bincode cell_of loader jit buffer payer offset bytes small
            short a c).0
          o
      where
        tried :
            (c d : InvokeContext)
            → Tried sdk codec bincode cell_of loader jit buffer payer offset bytes small short c d
            → IsOpen c
            → IsOpen d
        tried c d (inl same) o = subst IsOpen (sym same) o
        tried c d (inr w) o = Written-IsOpen (37 + offset) bytes c d o w

    send_and_wait-reports :
        (a : Attempt) (c : InvokeContext)
        → IsOpen c
        → IsEffective a
        → (send_and_wait sdk cell_of loader jit a call c).0 ≡ true
    unfolding wait_confirmed
    send_and_wait-reports (lost told) c o e = absurd e
    send_and_wait-reports (landed told_done told_failed) c o e =
        send_and_confirm-reports (landed told_done told_failed) c o e

    send_and_wait-IsOpen :
        (a : Attempt) (c : InvokeContext)
        → IsOpen c
        → IsOpen (send_and_wait sdk cell_of loader jit a call c).1
    unfolding wait_confirmed
    send_and_wait-IsOpen (lost told) c o = send_and_confirm-IsOpen (lost told) c o
    send_and_wait-IsOpen (landed told_done told_failed) c o =
        send_and_confirm-IsOpen (landed told_done told_failed) c o

    -- The chunk is sent, and the buffer is as before.
    abbrev pub Sent : Option InvokeContext → Type 0
    Sent r = (e : InvokeContext) × (r ≡ some e) × IsOpen e

    after_attempt :
        (r : Bool × InvokeContext) (rest : Option InvokeContext)
        → IsOpen r.1
        → (r.0 ≡ false → Sent rest)
        → Sent (if r.0 then some r.1 else rest)
    after_attempt (true, d) rest o more = (d, refl, o)
    after_attempt (false, d) rest o more = more refl

    retry-completes :
        (left made k : ℕ) (network : ℕ → Attempt) (c : InvokeContext)
        → made ≤ k
        → k < made + left
        → IsEffective (network k)
        → IsOpen c
        → Sent (retry sdk cell_of loader jit left made network call c)
    unfolding retry
    retry-completes zero made k network c le lt lands o = absurd (omega arith)
    retry-completes (suc left) made k network c le lt lands o =
        after_attempt (send_and_confirm sdk cell_of loader jit (network made) call c) _
          (send_and_confirm-IsOpen (network made) c o)
          (λ failed.
            let other : made ≢ k = λ e. cc (
              send_and_confirm-reports (network made) c o
                  (subst (λ j. IsEffective (network j)) (sym e) lands),
              failed,
            ) in
            retry-completes left (made + 1) k network _ (omega (arith, other)) (omega arith) lands
              (send_and_confirm-IsOpen (network made) c o))

    pub send_chunk-completes :
        (k : ℕ) (network : ℕ → Attempt) (c : InvokeContext)
        → k < 4
        → IsEffective (network k)
        → IsOpen c
        → Sent (send_chunk sdk cell_of loader jit network call c)
    unfolding send_chunk
    send_chunk-completes k network c lt lands o =
        after_attempt (send_and_wait sdk cell_of loader jit (network 0) call c) _
          (send_and_wait-IsOpen (network 0) c o)
          (λ failed.
            let other : 0 ≢ k = λ e. cc (
              send_and_wait-reports (network 0) c o
                  (subst (λ j. IsEffective (network j)) (sym e) lands),
              failed,
            ) in
            retry-completes 3 1 k network _ (omega (arith, other)) (omega arith) lands
              (send_and_wait-IsOpen (network 0) c o))
