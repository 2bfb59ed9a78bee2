-- ===== src/Client/Upload.antt =====
-- One chunk of the upload: what its attempts leave on the chain, for a network that reports no false
-- success.
pub mod Rounds
pub mod Unfit
pub mod Completes
pub mod Liveness
use solana_sdk_sample.Base.{
  ℕ, zero, suc, ◌+◌, ◌-◌, ◌*◌, ◌^◌, ◌≤◌, if◌then◌else◌, length-take, length-drop, take-add,
  drop-drop, take-all, ◌<◌, ◌≡◌, ◌≢◌, ◌⊎◌, inl, inr, refl, ap, sym, subst, subst₂, ◌∙◌, Bool, true,
  false, Option, none, some, List, [], ◌∷◌, ◌++◌, arith, length, take, drop,
}
use solana_sdk_sample.Runtime.Outcome.{Outcome, ok, err, panic}
use solana_sdk_sample.Runtime.Account.{Pubkey, Bytes, KeyedAccount, InvokeContext}
use solana_sdk_sample.Runtime.Invoke.{resolve, invoked}
use solana_sdk_sample.Runtime.Sdk.{Sdk}
use solana_sdk_sample.Runtime.Sdk.Laws.{IsStateCodec}
use solana_sdk_sample.Instruction.{Call, AccountMeta, UpgradeableLoaderInstruction}
use solana_sdk_sample.Loader.Buffer
use solana_sdk_sample.Loader.Buffer.Laws.{Written, write-Written}
use solana_sdk_sample.Loader.Buffer.Upload.{Written-from, Written-append, Written-nil}
use solana_sdk_sample.Loader.Process.{run_upgradeable}
use solana_sdk_sample.Loader.Process.Runs.{process-runs}
use solana_sdk_sample.Client.{
  Attempt, lost, landed, IsHonest, settle, invoke, send_and_confirm, wait_confirmed, send_and_wait,
  retry, send_chunk, write_instruction, upload_from, upload, encode_write_instruction,
  calculate_optimal_chunk_size,
}
use solana_sdk_sample.Client.Layout.{IsBincode, layout_write, layout_write-encode_write_instruction}

-- A range that is written twice with the same bytes.
Written-again :
    (sdk : Sdk) (start : ℕ) (bytes : Bytes) (cell : ℕ) (c d e : InvokeContext)
    → Written sdk start bytes cell c d
    → Written sdk start bytes cell d e
    → Written sdk start bytes cell c e
Written-again sdk start bytes cell c d e v w = record {
  range_written = w.range_written;
  before_kept = w.before_kept ∙ v.before_kept;
  behind_kept = w.behind_kept ∙ v.behind_kept;
  length_kept = w.length_kept ∙ v.length_kept;
  state_kept = w.state_kept ∙ v.state_kept;
  lamports_kept = w.lamports_kept ∙ v.lamports_kept;
  others_kept = λ q ne. w.others_kept q ne ∙ v.others_kept q ne;
}

encoded_length :
    (offset : ℕ) (bytes : Bytes)
    → length bytes ≤ 600
    → length (encode_write_instruction offset bytes) ≤ 1232
unfolding encode_write_instruction
encoded_length offset bytes h = omega arith

module _ (sdk : Sdk) (codec : IsStateCodec sdk) (bincode : IsBincode sdk) (cell_of : Pubkey → ℕ)
    (loader : KeyedAccount) (jit : Bool) (buffer payer : Pubkey) where
  abbrev pub write_accounts : List KeyedAccount
  write_accounts =
      loader
      ∷ resolve cell_of (
          record { pubkey = buffer; is_signer = false; is_writable = true }
          ∷ record { pubkey = payer; is_signer = true; is_writable = false }
          ∷ [])

  abbrev pub call_of : ℕ → Bytes → Call
  call_of offset bytes = write_instruction sdk cell_of loader jit buffer payer offset bytes

  -- The context in which the loader runs the instruction.
  abbrev pub given : InvokeContext → InvokeContext
  given c = record c {
    caller = ok sdk.bpf_loader_upgradeable_id;
    keyed_accounts = ok write_accounts;
  }

  -- The client's instruction is the loader's Write.
  pub invoke-write :
      (offset : ℕ) (bytes : Bytes) (c : InvokeContext)
      → offset < 2 ^ 32
      → length bytes ≤ 600
      → invoke sdk cell_of loader jit (call_of offset bytes) c
        ≡ Buffer.write sdk write_accounts 1 offset bytes (given c)
  unfolding write_instruction run_upgradeable
  invoke-write offset bytes c small short =
      process-runs sdk (UpgradeableLoaderInstruction.write offset bytes)
        (encode_write_instruction offset bytes) sdk.bpf_loader_upgradeable_id write_accounts 1 jit
        (given c)
        (bincode.reads_write (encode_write_instruction offset bytes) offset bytes
          (layout_write-encode_write_instruction offset bytes small (omega arith))
          (encoded_length offset bytes short))
        refl refl

  module _ (offset : ℕ) (bytes : Bytes) (small : offset < 2 ^ 32) (short : length bytes ≤ 600) where
    abbrev pub Wrote : InvokeContext → InvokeContext → Type 0
    Wrote = Written sdk (37 + offset) bytes (cell_of buffer)

    -- The chunk is not written yet, or it is.
    abbrev pub Tried : InvokeContext → InvokeContext → Type 0
    Tried c d = (d ≡ c) ⊎ Wrote c d

    Wrote-again : (c d e : InvokeContext) → Tried c d → Wrote d e → Wrote c e
    Wrote-again c d e (inl same) w = subst (λ x. Wrote x e) same w
    Wrote-again c d e (inr v) w = Written-again sdk (37 + offset) bytes (cell_of buffer) c d e v w

    settle_lem :
        (r : Outcome (Unit {0}) × InvokeContext) (told_done told_failed : Bool) (c : InvokeContext)
        → ((d : InvokeContext) → r ≡ (ok tt, d) → Wrote c d)
        → let s = settle r told_done told_failed c in
          Tried c s.1 × (told_failed ≡ false → s.0 ≡ true → Wrote c s.1)
    settle_lem (ok tt, d) told_done told_failed c keep = (inr (keep d refl), λ _ _. keep d refl)
    settle_lem (err e, d) told_done told_failed c keep = (inl refl, λ o h. cc)
    settle_lem (panic, d) told_done told_failed c keep = (inl refl, λ o h. cc)

    invoke-Written :
        (c d : InvokeContext)
        → invoke sdk cell_of loader jit (call_of offset bytes) c ≡ (ok tt, d)
        → Wrote c d
    invoke-Written c d e =
        Written-from sdk (37 + offset) bytes (cell_of buffer) (given c) c d refl (
          write-Written sdk write_accounts 1 offset bytes (given c) d _ _ codec refl refl refl
            (sym (invoke-write offset bytes c small short) ∙ e))

    pub send_and_confirm_lem :
        (a : Attempt) (c : InvokeContext)
        → let r = send_and_confirm sdk cell_of loader jit a (call_of offset bytes) c in
          Tried c r.1 × (IsHonest a → r.0 ≡ true → Wrote c r.1)
    unfolding send_and_confirm
    send_and_confirm_lem (lost told) c = (inl refl, λ o h. cc)
    send_and_confirm_lem (landed told_done told_failed) c =
        settle_lem (invoke sdk cell_of loader jit (call_of offset bytes) c) told_done told_failed c
          (invoke-Written c)

    attempt_lem :
        (a : Attempt) (c : InvokeContext)
        → IsHonest a
        → let r = send_and_confirm sdk cell_of loader jit a (call_of offset bytes) c in
          Tried c r.1 × (r.0 ≡ true → Wrote c r.1)
    attempt_lem a c honest =
        let (tried, written) = send_and_confirm_lem a c in (tried, written honest)

    pub send_and_wait_lem :
        (a : Attempt) (c : InvokeContext)
        → let r = send_and_wait sdk cell_of loader jit a (call_of offset bytes) c in
          Tried c r.1 × (IsHonest a → r.0 ≡ true → Wrote c r.1)
    unfolding wait_confirmed send_and_confirm
    send_and_wait_lem (lost told) c = (inl refl, λ o h. cc)
    send_and_wait_lem (landed told_done told_failed) c =
        send_and_confirm_lem (landed told_done told_failed) c

    first_lem :
        (a : Attempt) (c : InvokeContext)
        → IsHonest a
        → let r = send_and_wait sdk cell_of loader jit a (call_of offset bytes) c in
          Tried c r.1 × (r.0 ≡ true → Wrote c r.1)
    first_lem a c honest = let (tried, written) = send_and_wait_lem a c in (tried, written honest)

    pub Tried-after : (c d e : InvokeContext) → Tried c d → Tried d e → Tried c e
    Tried-after c d e t (inl same) = subst (Tried c) (sym same) t
    Tried-after c d e t (inr w) = inr (Wrote-again c d e t w)

    -- After an attempt that reports success the chunk is written; after another one the rest goes on.
    after_attempt :
        (r : Bool × InvokeContext) (rest : Option InvokeContext) (c d e : InvokeContext)
        → Tried c d
        → Tried d r.1 × (r.0 ≡ true → Wrote d r.1)
        → (Tried c r.1 → rest ≡ some e → Wrote c e)
        → (if r.0 then some r.1 else rest) ≡ some e
        → Wrote c e
    after_attempt (true, f) rest c d e t a more h =
        subst (Wrote c) (cc) (Wrote-again c d f t (a.1 refl))
    after_attempt (false, f) rest c d e t a more h = more (Tried-after c d f t a.0) h

    retry_lem :
        (left made : ℕ) (network : ℕ → Attempt) (c d e : InvokeContext)
        → ((k : ℕ) → IsHonest (network k))
        → Tried c d
        → retry sdk cell_of loader jit left made network (call_of offset bytes) d ≡ some e
        → Wrote c e
    unfolding retry
    retry_lem zero made network c d e honest t h = cc
    retry_lem (suc left) made network c d e honest t h =
        after_attempt
          (send_and_confirm sdk cell_of loader jit (network made) (call_of offset bytes) d) _ c d e
          t (attempt_lem (network made) d (honest made))
          (λ u k. retry_lem left (made + 1) network c _ e honest u k) h

    pub send_chunk_lem :
        (network : ℕ → Attempt) (c e : InvokeContext)
        → ((k : ℕ) → IsHonest (network k))
        → send_chunk sdk cell_of loader jit network (call_of offset bytes) c ≡ some e
        → Wrote c e
    unfolding send_chunk
    send_chunk_lem network c e honest h =
        after_attempt (send_and_wait sdk cell_of loader jit (network 0) (call_of offset bytes) c) _
          c c e (inl refl) (first_lem (network 0) c (honest 0))
          (λ u k. retry_lem 3 1 network c _ e honest u k) h
