-- ===== src/Fireblocks/Wait/Settled.antt =====
-- The first verdict on the answers, and the errors before it.
use solana_sdk_sample.Base.{ℕ, zero, suc, ◌+◌, ◌≤◌, ◌<◌, ◌≡◌, ◌≢◌, refl, subst, none, some, arith}
use native.Mathlib.Decide.{ℕ_discrete}
use solana_sdk_sample.Fireblocks.{TransactionResponse, Result, returned, thrown}
use solana_sdk_sample.Fireblocks.Wait.Verdict.{Ending, errors, verdict, first_verdict}

module _ (api : ℕ → Result TransactionResponse) where
  -- Call number `k` has a verdict, and none before it, from number `n` on.
  pub record IsEarliest (n k : ℕ) (r : Result TransactionResponse) : Type 0 where
    pub has_verdict : verdict api k ≡ some r
    pub none_before : (j : ℕ) → n ≤ j → j < k → verdict api j ≡ none

  pub first_verdict-IsEarliest :
      (count n : ℕ) (r : Result TransactionResponse)
      → first_verdict api count n ≡ some r
      → (k : ℕ) × (n ≤ k) × (k < n + count) × IsEarliest n k r
  unfolding first_verdict
  first_verdict-IsEarliest zero n r h = cc
  first_verdict-IsEarliest (suc count) n r h =
      go (verdict api n) refl (first_verdict-IsEarliest count (suc n) r)
    where
      go :
          (o : Ending)
          → verdict api n ≡ o
          → (first_verdict api count (suc n) ≡ some r
              → (k : ℕ) × (suc n ≤ k) × (k < suc n + count) × IsEarliest (suc n) k r)
          → (k : ℕ) × (n ≤ k) × (k < n + suc count) × IsEarliest n k r
      go (some x) e ih = (
        n,
        omega arith,
        omega arith,
        record { has_verdict = ground (arith, e); none_before = λ j a b. absurd (omega arith) },
      )
      go none e ih =
          let (k, le, lt, is) = ih (ground (arith, e)) in
          (
            k,
            omega arith,
            omega arith,
            record {
              has_verdict = is.has_verdict;
              none_before = λ j a b. elim (ℕ_discrete n j) [
                | yes same ↦ subst (λ m. verdict api m ≡ none) same e
                | no apart ↦ is.none_before j (omega (arith, apart)) b
              ];
            },
          )

  pub first_verdict-found :
      (count n k : ℕ) (r : Result TransactionResponse)
      → n ≤ k
      → k < n + count
      → verdict api k ≡ some r
      → first_verdict api count n ≢ none
  unfolding first_verdict
  first_verdict-found zero n k r le lt h e = absurd (omega arith)
  first_verdict-found (suc count) n k r le lt h e =
      go (verdict api n) refl e (first_verdict-found count (suc n) k r)
    where
      go :
          (o : Ending)
          → verdict api n ≡ o
          → first_verdict api (suc count) n ≡ none
          → (suc n ≤ k
              → k < suc n + count
              → verdict api k ≡ some r
              → first_verdict api count (suc n) ≢ none)
          → ⊥
      go (some x) v e ih = ground (arith, v, e)
      go none v e ih = elim (ℕ_discrete n k) [
        | yes same ↦ cc (subst (λ m. verdict api m ≡ none) same v)
        | no apart ↦ ih (omega (arith, apart)) (omega arith) h (ground (arith, v, e))
      ]

  -- As long as there is no verdict, three errors at most were tolerated.
  pub errors_bound : (k : ℕ) → ((j : ℕ) → 0 ≤ j → j < k → verdict api j ≡ none) → errors api k ≤ 3
  unfolding errors verdict
  errors_bound zero h = omega arith
  errors_bound (suc k) h =
      go (api k) refl (errors_bound k (λ j a b. h j a (omega arith)))
        (h k (omega arith) (omega arith))
    where
      go :
          (a : Result TransactionResponse)
          → api k ≡ a
          → errors api k ≤ 3
          → verdict api k ≡ none
          → errors api (suc k) ≤ 3
      go (returned t) e le v = rw e (omega arith)
      go (thrown x) e le v = ground (arith, e, v)
