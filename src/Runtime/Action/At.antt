-- ===== src/Runtime/Action/At.antt =====
-- Triples from one known context: the rules follow an action step by step, with the values that it
-- reads as equations.
use solana_sdk_sample.Base.{ℕ, ◌≡◌, refl, sym, subst}
use solana_sdk_sample.Runtime.Outcome.{Outcome, ok, err, panic}
use solana_sdk_sample.Runtime.Account.{Account, InvokeContext, update}
use solana_sdk_sample.Runtime.Action.{
  Action, and_then, ◌>>=◌, reads, lift, put_account, modify_account,
}
use solana_sdk_sample.Runtime.Action.Triple.{
  Assertion, After, Triple, Triple-lift_bind, Triple-reads_bind, Triple-modify_account, after_ok,
}

abbrev pub At : InvokeContext → Assertion
At c d = d ≡ c

module _ {Q : Assertion} {c : InvokeContext} where
  pub At-reads :
      {A B : Type 0} (f : InvokeContext → Outcome A) (k : A → Action B)
      → ((a : A) → f c ≡ ok a → Triple (At c) (k a) Q)
      → Triple (At c) (reads f >>= k) Q
  At-reads f k keep = Triple-reads_bind f k λ d h a e. keep a (subst (λ d. f d ≡ ok a) h e)

  pub At-lift :
      {A B : Type 0} (r : Outcome A) (k : A → Action B)
      → ((a : A) → r ≡ ok a → Triple (At c) (k a) Q)
      → Triple (At c) (lift r >>= k) Q
  At-lift r k keep = Triple-lift_bind r k keep

  -- A check at the end of an action.
  pub At-lift_end :
      {A : Type 0} (r : Outcome A) → ((a : A) → r ≡ ok a → Q c) → Triple (At c) (lift r) Q
  unfolding lift
  At-lift_end {A} r keep = record { at = λ d h. subst (λ d. After Q (r, d)) (sym h) (go r refl) }
    where
      go : (x : Outcome A) → r ≡ x → After Q (x, c)
      go (ok a) e = keep a e
      go (err x) e = tt
      go panic e = tt

  pub At-known :
      {A B : Type 0} (r : Outcome A) (k : A → Action B) (a : A)
      → r ≡ ok a
      → Triple (At c) (k a) Q
      → Triple (At c) (lift r >>= k) Q
  At-known r k a e keep = Triple-lift_bind r k λ b eb. subst (λ b. Triple (At c) (k b) Q) (cc) keep

  pub At-modify :
      (cell : ℕ) (f : Account → Outcome Account)
      → ((a : Account) → f (c.cells cell) ≡ ok a → Q (record c { cells = update c.cells cell a }))
      → Triple (At c) (modify_account cell f) Q
  At-modify cell f keep = Triple-modify_account cell f λ d a h e.
      subst (λ d. Q (record d { cells = update d.cells cell a })) (sym h)
        (keep a (subst (λ (d : InvokeContext). f (d.cells cell) ≡ ok a) h e))

  -- A change of one account, and then the rest from the context that it leaves.
  pub At-modify_bind :
      {B : Type 0} (cell : ℕ) (f : Account → Outcome Account) (k : Unit {0} → Action B)
      → ((a : Account)
          → f (c.cells cell) ≡ ok a
          → Triple (At (record c { cells = update c.cells cell a })) (k tt) Q)
      → Triple (At c) (modify_account cell f >>= k) Q
  unfolding ◌>>=◌
  At-modify_bind cell f k keep = record {
    at = λ d h.
        subst
          (λ d. After Q (
            and_then (put_account cell (f (d.cells cell)) d).0 k
              (put_account cell (f (d.cells cell)) d).1))
          (sym h) (go (f (c.cells cell)) refl);
  }
    where
      go :
          (r : Outcome Account)
          → f (c.cells cell) ≡ r
          → After Q (and_then (put_account cell r c).0 k (put_account cell r c).1)
      go (ok a) e = (keep a e).at _ refl
      go (err x) e = tt
      go panic e = tt

pub At-ok :
    {A : Type 0} (m : Action A) (Q : Assertion) (c c' : InvokeContext) (a : A)
    → Triple (At c) m Q
    → m c ≡ (ok a, c')
    → Q c'
At-ok m Q c c' a t e = after_ok (At c) m Q c c' a t refl e

-- From one context that is not known to the rest.
pub Triple-from :
    {A : Type 0} {P Q : Assertion} (m : Action A)
    → ((e : InvokeContext) → P e → Triple (At e) m Q)
    → Triple P m Q
Triple-from m t = record { at = λ e h. (t e h).at e refl }
