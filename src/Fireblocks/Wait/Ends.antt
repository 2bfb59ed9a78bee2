-- ===== src/Fireblocks/Wait/Ends.antt =====
-- When the wait ends, and what its end says of the answers.
use solana_sdk_sample.Base.{
  ℕ, zero, suc, ◌≤◌, ◌≡◌, ◌≢◌, ◌↔◌, refl, sym, ap, subst, ◌∙◌, none, some, arith,
}
use native.Mathlib.Decide.{ℕ_discrete}
use solana_sdk_sample.Fireblocks.{
  TransactionStatus, completed, broadcasting, blocked, cancelled, failed, rejected, other,
  TransactionResponse, Thrown, Result, returned, thrown,
}
use solana_sdk_sample.Fireblocks.Wait.{wait_for_signature}
use solana_sdk_sample.Fireblocks.Wait.Verdict.{
  Ending, settles, is_error, errors, verdict, wait_for_signature-first_verdict,
}
use solana_sdk_sample.Fireblocks.Wait.Settled.{first_verdict-IsEarliest, first_verdict-found}

-- The answers up to call number `n` end the wait.
pub data Settles (api : ℕ → Result TransactionResponse) (n : ℕ) : Type 0 where
  by_status :
      (t : TransactionResponse)
      → api n ≡ returned t
      → ((m : ℕ) → t.status ≢ other m)
      → Settles api n
  by_first_error : (x : Thrown) → api 0 ≡ thrown x → Settles api n
  by_errors : 4 ≤ errors api (suc n) → Settles api n

settles_named :
    (t : TransactionResponse) (s : TransactionStatus)
    → ((m : ℕ) → s ≢ other m)
    → (r : Result TransactionResponse) × (settles s t ≡ some r)
settles_named t completed h = (_, refl)
settles_named t broadcasting h = (_, refl)
settles_named t blocked h = (_, refl)
settles_named t cancelled h = (_, refl)
settles_named t failed h = (_, refl)
settles_named t rejected h = (_, refl)
settles_named t (other m) h = absurd (h m refl)

module _ (api : ℕ → Result TransactionResponse) where
  -- A call with a verdict, up to number `n`.
  abbrev Decided : ℕ → Type 0
  Decided n = (k : ℕ) × (k ≤ n) × ((r : Result TransactionResponse) × (verdict api k ≡ some r))

  Decided-errors : (n : ℕ) → 4 ≤ errors api (suc n) → Decided n
  unfolding errors verdict
  Decided-errors zero h = go (api 0) refl
    where
      go : (a : Result TransactionResponse) → api 0 ≡ a → Decided 0
      go (returned t) e = absurd (omega (arith, h, ap is_error e))
      go (thrown x) e = (0, omega arith, (thrown x, rw e refl))
  Decided-errors (suc n) h = go (api (suc n)) refl (Decided-errors n)
    where
      go :
          (a : Result TransactionResponse)
          → api (suc n) ≡ a
          → (4 ≤ errors api (suc n) → Decided n)
          → Decided (suc n)
      go (returned t) e ih =
          let (k, le, found) = ih (omega (arith, h, ap is_error e)) in (k, omega arith, found)
      go (thrown x) e ih = (suc n, omega arith, (thrown x, ground (arith, e, h)))

  Decided-Settles : (n : ℕ) → Settles api n → Decided n
  unfolding verdict
  Decided-Settles n (by_status t e named) =
      let (r, h) = settles_named t t.status named in (n, omega arith, (r, rw e h))
  Decided-Settles n (by_first_error x e) = (0, omega arith, (thrown x, rw e refl))
  Decided-Settles n (by_errors h) = Decided-errors n h

  Settles-verdict :
      (k : ℕ) (r : Result TransactionResponse) → verdict api k ≡ some r → Settles api k
  unfolding verdict errors
  Settles-verdict k r h = go (api k) refl
    where
      go : (a : Result TransactionResponse) → api k ≡ a → Settles api k
      go (returned t) e = by_status t e λ m o. ground (arith, e, o, h)
      go (thrown x) e = elim (ℕ_discrete k 0) [
        | yes zeroth ↦ by_first_error x (subst (λ m. api m ≡ thrown x) zeroth e)
        | no later ↦ by_errors (ground (arith, e, h))
      ]

  -- The wait ends within a number of calls after the first exactly when the answers to them settle
  -- it: a status that is signed or failed, an error of the first call, or four errors. It has no limit
  -- of its own, and goes on as long as none of these comes.
  pub wait_for_signature_ends_iff :
      (fuel : ℕ) → (wait_for_signature api fuel ≢ none) ↔ ((n : ℕ) × (n ≤ fuel) × Settles api n)
  wait_for_signature_ends_iff fuel = (to (wait_for_signature api fuel) refl, from)
    where
      to :
          (o : Ending)
          → wait_for_signature api fuel ≡ o
          → wait_for_signature api fuel ≢ none
          → (n : ℕ) × (n ≤ fuel) × Settles api n
      to none e h = absurd (h e)
      to (some r) e h =
          let (k, le, lt, is) =
            first_verdict-IsEarliest api (suc fuel) 0 r
              (sym (wait_for_signature-first_verdict api fuel) ∙ e) in
          (k, omega arith, Settles-verdict k r is.has_verdict)

      from : (n : ℕ) × (n ≤ fuel) × Settles api n → wait_for_signature api fuel ≢ none
      from (n, le, s) e =
          let (k, below, found) = Decided-Settles n s in
          let (r, h) = found in
          first_verdict-found api (suc fuel) 0 k r (omega arith) (omega arith) h
            (sym (wait_for_signature-first_verdict api fuel) ∙ e)
