-- ===== src/Fireblocks/Wait/Outcomes.antt =====
-- What the result of the wait says of the answers.
use solana_sdk_sample.Base.{
  ℕ, suc, ◌≤◌, ◌<◌, ◌≡◌, ◌⊎◌, inl, inr, refl, sym, ap, ◌∙◌, ◌||◌, none, some, arith, leb, ◌==◌,
  if◌then◌else◌,
}
use native.Mathlib.Decide.{ℕ_discrete}
use solana_sdk_sample.Fireblocks.{
  TransactionStatus, completed, broadcasting, blocked, cancelled, failed, rejected, other,
  TransactionResponse, Thrown, failed_with_status, Result, returned, thrown,
}
use solana_sdk_sample.Fireblocks.Wait.{wait_for_signature}
use solana_sdk_sample.Fireblocks.Wait.Verdict.{
  settles, answer_settles, errors, verdict, wait_for_signature-first_verdict,
}
use solana_sdk_sample.Fireblocks.Wait.Settled.{first_verdict-IsEarliest, errors_bound}

-- The status is one of the four that the code counts as failed.
abbrev pub IsFailed : TransactionStatus → Type 0
IsFailed s = (s ≡ blocked) ⊎ (s ≡ cancelled) ⊎ (s ≡ failed) ⊎ (s ≡ rejected)

-- What has come by call number `k`, of which the wait ends with `r`.
abbrev pub Ends : (ℕ → Result TransactionResponse) → ℕ → Result TransactionResponse → Type 0
Ends api k (returned t) =
    (api k ≡ returned t) × ((t.status ≡ completed) ⊎ (t.status ≡ broadcasting))
Ends api k (thrown x) =
    ((t : TransactionResponse) × (api k ≡ returned t)
      × (x ≡ failed_with_status t)
      × IsFailed t.status)
    ⊎ ((api k ≡ thrown x) × ((k ≡ 0) ⊎ (errors api k ≡ 3)))

pub record IsEnd (api : ℕ → Result TransactionResponse) (fuel : ℕ) (r : Result TransactionResponse)
    : Type 0 where
  pub k : ℕ
  pub within : k ≤ fuel
  pub ends : Ends api k r
  pub tolerated : errors api k ≤ 3
  pub pending_before :
      (j : ℕ) (u : TransactionResponse)
      → j < k
      → api j ≡ returned u
      → (m : ℕ) × (u.status ≡ other m)

pending :
    (u : TransactionResponse) (s : TransactionStatus) → settles s u ≡ none → (m : ℕ) × (s ≡ other m)
pending u completed h = cc
pending u broadcasting h = cc
pending u blocked h = cc
pending u cancelled h = cc
pending u failed h = cc
pending u rejected h = cc
pending u (other m) h = (m, refl)

module _ (api : ℕ → Result TransactionResponse) (k : ℕ) (bound : errors api k ≤ 3) where
  status-Ends :
      (t : TransactionResponse) (s : TransactionStatus) (r : Result TransactionResponse)
      → api k ≡ returned t
      → t.status ≡ s
      → settles s t ≡ some r
      → Ends api k r
  status-Ends t completed (returned u) e same h =
      let w : u ≡ t = cc in (cc, inl (ap (λ (v : TransactionResponse). v.status) w ∙ same))
  status-Ends t broadcasting (returned u) e same h =
      let w : u ≡ t = cc in (cc, inr (ap (λ (v : TransactionResponse). v.status) w ∙ same))
  status-Ends t blocked (thrown x) e same h = inl (t, e, cc, inl same)
  status-Ends t cancelled (thrown x) e same h = inl (t, e, cc, inr (inl same))
  status-Ends t failed (thrown x) e same h = inl (t, e, cc, inr (inr (inl same)))
  status-Ends t rejected (thrown x) e same h = inl (t, e, cc, inr (inr (inr same)))
  status-Ends t completed (thrown x) e same h = cc
  status-Ends t broadcasting (thrown x) e same h = cc
  status-Ends t blocked (returned u) e same h = cc
  status-Ends t cancelled (returned u) e same h = cc
  status-Ends t failed (returned u) e same h = cc
  status-Ends t rejected (returned u) e same h = cc
  status-Ends t (other m) r e same h = cc

  error-Ends :
      (x : Thrown) (r : Result TransactionResponse)
      → api k ≡ thrown x
      → (if k == 0 || leb 3 (errors api k) then some (thrown x) else none) ≡ some r
      → Ends api k r
  error-Ends x (returned u) e h = ground (arith, h)
  error-Ends x (thrown y) e h = inr (
    ground (arith, e, h),
    elim (ℕ_discrete k 0) [ yes zeroth ↦ inl zeroth | no later ↦ inr (ground (arith, h, bound)) ],
  )

  verdict-Ends : (r : Result TransactionResponse) → verdict api k ≡ some r → Ends api k r
  unfolding verdict
  verdict-Ends r h = go (api k) refl
    where
      go : (a : Result TransactionResponse) → api k ≡ a → Ends api k r
      go (returned t) e =
          status-Ends t t.status r e refl
            (sym (ap (answer_settles (k == 0 || leb 3 (errors api k))) e) ∙ h)
      go (thrown x) e =
          error-Ends x r e (sym (ap (answer_settles (k == 0 || leb 3 (errors api k))) e) ∙ h)

-- A transaction that the wait returns is the answer to one of its calls, with the status COMPLETED or
-- BROADCASTING. An error that it throws is an answer's failed status (BLOCKED, CANCELLED, FAILED or
-- REJECTED), the error of the first call, or the error of a later one after exactly three others. No
-- more than three errors came before, and every answer before has another status.
pub wait_for_signature-IsEnd :
    (api : ℕ → Result TransactionResponse) (fuel : ℕ) (r : Result TransactionResponse)
    → wait_for_signature api fuel ≡ some r
    → IsEnd api fuel r
unfolding verdict
wait_for_signature-IsEnd api fuel r e =
    let (k, le, lt, is) =
      first_verdict-IsEarliest api (suc fuel) 0 r
        (sym (wait_for_signature-first_verdict api fuel) ∙ e) in
    let bound = errors_bound api k is.none_before in
    record {
      k = k;
      within = omega arith;
      ends = verdict-Ends api k bound r is.has_verdict;
      tolerated = bound;
      pending_before = λ j u before answer. pending u u.status (
          sym (ap (answer_settles (j == 0 || leb 3 (errors api j))) answer)
          ∙ is.none_before j (omega arith) before);
    }
