-- ===== src/Fireblocks/Wait/Verdict.antt =====
-- What the wait comes to, said of the answers alone: the first of them that settles it.
use solana_sdk_sample.Base.{
  ℕ, zero, suc, ◌+◌, ◌≤◌, ◌≡◌, refl, ap, ◌∙◌, Bool, ◌||◌, Option, none, some, arith, leb, ◌==◌,
  if◌then◌else◌,
}
use solana_sdk_sample.Fireblocks.{
  TransactionStatus, completed, broadcasting, blocked, cancelled, failed, rejected, other,
  TransactionResponse, failed_with_status, Result, returned, thrown,
}
use solana_sdk_sample.Fireblocks.Wait.{
  is_signed, has_failed, examine, after_poll, poll_loop, wait_for_signature,
}

abbrev pub Ending : Type 0
Ending = Option (Result TransactionResponse)

abbrev pub or_else : Ending → Ending → Ending
or_else (some r) rest = some r
or_else none rest = rest

-- What a status settles.
abbrev pub settles : TransactionStatus → TransactionResponse → Ending
settles completed t = some (returned t)
settles broadcasting t = some (returned t)
settles blocked t = some (thrown (failed_with_status t))
settles cancelled t = some (thrown (failed_with_status t))
settles failed t = some (thrown (failed_with_status t))
settles rejected t = some (thrown (failed_with_status t))
settles (other n) t = none

-- What an answer settles; an error does if no more is tolerated.
abbrev pub answer_settles : Bool → Result TransactionResponse → Ending
answer_settles fatal (returned t) = settles t.status t
answer_settles fatal (thrown e) = if fatal then some (thrown e) else none

abbrev pub is_error : Result TransactionResponse → ℕ
is_error (returned t) = 0
is_error (thrown e) = 1

module _ (api : ℕ → Result TransactionResponse) where
  -- The calls before number `n` that gave an error.
  unfoldable pub errors : ℕ → ℕ
  errors zero = 0
  errors (suc n) = errors n + is_error (api n)

  -- The first call's error is fatal, and so is one after three others.
  unfoldable pub verdict : ℕ → Ending
  unfolding errors
  verdict n = answer_settles (n == 0 || leb 3 (errors n)) (api n)

  -- The first verdict among a number of calls from one on.
  unfoldable pub first_verdict : ℕ → ℕ → Ending
  unfolding verdict
  first_verdict zero n = none
  first_verdict (suc count) n = or_else (verdict n) (first_verdict count (suc n))

examine_lem :
    (t : TransactionResponse) (rest : Ending) → examine t rest ≡ or_else (settles t.status t) rest
unfolding examine is_signed has_failed
examine_lem t rest = go t.status refl
  where
    go : (s : TransactionStatus) → t.status ≡ s → examine t rest ≡ or_else (settles t.status t) rest
    go completed e = rw e refl
    go broadcasting e = rw e refl
    go blocked e = rw e refl
    go cancelled e = rw e refl
    go failed e = rw e refl
    go rejected e = rw e refl
    go (other n) e = rw e refl

module _ (api : ℕ → Result TransactionResponse) where
  -- One poll, when the status before it settles nothing.
  poll_step :
      (fuel made retries : ℕ) (t : TransactionResponse) (a : Result TransactionResponse)
      → api made ≡ a
      → retries ≡ errors api made
      → 1 ≤ made
      → settles t.status t ≡ none
      → ((r : ℕ) (u : TransactionResponse)
          → r ≡ errors api (suc made)
          → poll_loop api fuel (suc made) r u
            ≡ or_else (settles u.status u) (first_verdict api fuel (suc made)))
      → after_poll retries t a (poll_loop api fuel (suc made))
        ≡ or_else (verdict api made) (first_verdict api fuel (suc made))
  unfolding after_poll verdict errors
  poll_step fuel made retries t (returned u) e same later undecided ih =
      ih retries u (omega (arith, ap is_error e)) ∙ rw e refl
  poll_step fuel made retries t (thrown x) e same later undecided ih =
      let next = ih (retries + 1) t (omega (arith, ap is_error e)) in
      let settled : poll_loop api fuel (suc made) (retries + 1) t
          ≡ first_verdict api fuel (suc made) =
        next ∙ ap (λ o. or_else o (first_verdict api fuel (suc made))) undecided in
      rw e (ground (arith, settled))

  loop_step :
      (fuel made retries : ℕ) (t : TransactionResponse)
      → retries ≡ errors api made
      → 1 ≤ made
      → ((r : ℕ) (u : TransactionResponse)
          → r ≡ errors api (suc made)
          → poll_loop api fuel (suc made) r u
            ≡ or_else (settles u.status u) (first_verdict api fuel (suc made)))
      → (o : Ending) → settles t.status t ≡ o
      → poll_loop api (suc fuel) made retries t
        ≡ or_else (settles t.status t) (first_verdict api (suc fuel) made)
  unfolding poll_loop first_verdict
  loop_step fuel made retries t same later ih (some r) e = examine_lem t _ ∙ rw e refl
  loop_step fuel made retries t same later ih none e =
      examine_lem t _ ∙ rw e (poll_step fuel made retries t (api made) refl same later e ih)

  -- The loop, from a call on that it has already counted.
  loop-first_verdict :
      (fuel made retries : ℕ) (t : TransactionResponse)
      → retries ≡ errors api made
      → 1 ≤ made
      → poll_loop api fuel made retries t
        ≡ or_else (settles t.status t) (first_verdict api fuel made)
  unfolding poll_loop first_verdict
  loop-first_verdict zero made retries t same later = examine_lem t none
  loop-first_verdict (suc fuel) made retries t same later =
      loop_step fuel made retries t same later
        (λ r u h. loop-first_verdict fuel (suc made) r u h (omega arith)) (settles t.status t) refl

-- The wait's result is the first verdict on its answers: the first answer with a final or a failed
-- status, or the first call's error, or the fourth error. While none is among the answers to the
-- calls that it may make, there is no result.
pub wait_for_signature-first_verdict :
    (api : ℕ → Result TransactionResponse) (fuel : ℕ)
    → wait_for_signature api fuel ≡ first_verdict api (suc fuel) 0
unfolding wait_for_signature first_verdict verdict errors
wait_for_signature-first_verdict api fuel = go (api 0) refl
  where
    go :
        (a : Result TransactionResponse)
        → api 0 ≡ a
        → wait_for_signature api fuel ≡ first_verdict api (suc fuel) 0
    go (returned t) e =
        rw e (loop-first_verdict api fuel 1 0 t (omega (arith, ap is_error e)) (omega arith))
    go (thrown x) e = rw e refl
