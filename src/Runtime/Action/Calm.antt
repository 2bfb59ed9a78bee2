-- ===== src/Runtime/Action/Calm.antt =====
-- Actions that do not panic: triples whose action returns a value or an error, with one rule for each
-- way to build an action.
use solana_sdk_sample.Base.{ℕ, ◌≡◌, ◌≢◌, refl, sym, subst}
use solana_sdk_sample.Runtime.Outcome.{Outcome, ok, err, panic}
use solana_sdk_sample.Runtime.Account.{Account, InvokeContext, update}
use solana_sdk_sample.Runtime.Action.{
  Action, and_then, ◌>>=◌, reads, lift, put_account, modify_account,
}
use solana_sdk_sample.Runtime.Action.Triple.{Assertion}

abbrev pub CalmAfter : {A : Type 0} → Assertion → Outcome A × InvokeContext → Type 0
CalmAfter Q (ok a, c) = Q c
CalmAfter Q (err e, c) = Unit
CalmAfter Q (panic, c) = ⊥

-- From a context where `P` holds, `m` returns or gives an error; if it returns, `Q` holds after it.
pub record Calm {A : Type 0} (P : Assertion) (m : Action A) (Q : Assertion) : Type 0 where
  pub at : (c : InvokeContext) → P c → CalmAfter Q (m c)

not_panic :
    {A : Type 0} (Q : Assertion) (r : Outcome A × InvokeContext) → CalmAfter Q r → r.0 ≢ panic
not_panic Q (ok a, c) h e = cc
not_panic Q (err x, c) h e = cc
not_panic Q (panic, c) h e = absurd h

pub Calm-not_panic :
    {A : Type 0} {P Q : Assertion} (m : Action A) (c : InvokeContext)
    → Calm P m Q
    → P c
    → (m c).0 ≢ panic
Calm-not_panic {Q = Q} m c t h = not_panic Q (m c) (t.at c h)

and_then-Calm :
    {P Q : Assertion} {A B : Type 0} (r : Outcome A) (k : A → Action B) (c : InvokeContext)
    → r ≢ panic
    → ((a : A) → r ≡ ok a → Calm P (k a) Q)
    → P c
    → CalmAfter Q (and_then r k c)
and_then-Calm (ok a) k c calm keep h = (keep a refl).at c h
and_then-Calm (err e) k c calm keep h = tt
and_then-Calm panic k c calm keep h = absurd (calm refl)

after-Calm :
    {P Q : Assertion} {A B : Type 0} (r : Outcome A × InvokeContext) (k : A → Action B)
    → CalmAfter P r
    → ((a : A) → Calm P (k a) Q)
    → CalmAfter Q (and_then r.0 k r.1)
after-Calm (ok a, c) k h keep = (keep a).at c h
after-Calm (err e, c) k h keep = tt
after-Calm (panic, c) k h keep = absurd h

lift-CalmAfter :
    {A : Type 0} (P : Assertion) (r : Outcome A) (c : InvokeContext)
    → r ≢ panic
    → P c
    → CalmAfter P (r, c)
lift-CalmAfter P (ok a) c calm h = h
lift-CalmAfter P (err e) c calm h = tt
lift-CalmAfter P panic c calm h = absurd (calm refl)

put_account-CalmAfter :
    (Q : Assertion) (cell : ℕ) (r : Outcome Account) (c : InvokeContext)
    → r ≢ panic
    → ((a : Account) → r ≡ ok a → Q (record c { cells = update c.cells cell a }))
    → CalmAfter Q (put_account cell r c)
put_account-CalmAfter Q cell (ok a) c calm keep = keep a refl
put_account-CalmAfter Q cell (err e) c calm keep = tt
put_account-CalmAfter Q cell panic c calm keep = absurd (calm refl)

pub Calm-lift : {A : Type 0} {P : Assertion} (r : Outcome A) → r ≢ panic → Calm P (lift r) P
unfolding lift
Calm-lift {P = P} r calm = record { at = λ c h. lift-CalmAfter P r c calm h }

module _ {P Q : Assertion} where
  pub Calm-reads_bind :
      {A B : Type 0} (f : InvokeContext → Outcome A) (k : A → Action B)
      → ((c : InvokeContext) → P c → f c ≢ panic)
      → ((c : InvokeContext) → P c → (a : A) → f c ≡ ok a → Calm P (k a) Q)
      → Calm P (reads f >>= k) Q
  unfolding ◌>>=◌
  Calm-reads_bind f k calm keep = record {
    at = λ c h. and_then-Calm (f c) k c (calm c h) (λ a e. keep c h a e) h;
  }

  pub Calm-lift_bind :
      {A B : Type 0} (r : Outcome A) (k : A → Action B)
      → r ≢ panic
      → ((a : A) → r ≡ ok a → Calm P (k a) Q)
      → Calm P (lift r >>= k) Q
  unfolding ◌>>=◌
  Calm-lift_bind r k calm keep = record { at = λ c h. and_then-Calm r k c calm keep h }

  pub Calm-modify_account :
      (cell : ℕ) (f : Account → Outcome Account)
      → ((c : InvokeContext) → P c → f (c.cells cell) ≢ panic)
      → ((c : InvokeContext) (a : Account)
          → P c
          → f (c.cells cell) ≡ ok a
          → Q (record c { cells = update c.cells cell a }))
      → Calm P (modify_account cell f) Q
  unfolding modify_account
  Calm-modify_account cell f calm keep = record {
    at = λ c h. put_account-CalmAfter Q cell (f (c.cells cell)) c (calm c h) (λ a e. keep c a h e);
  }

pub Calm-bind :
    {A B : Type 0} {P Q R : Assertion} (m : Action A) (k : A → Action B)
    → Calm P m R
    → ((a : A) → Calm R (k a) Q)
    → Calm P (m >>= k) Q
unfolding ◌>>=◌
Calm-bind m k km kk = record { at = λ c h. after-Calm (m c) k (km.at c h) kk }

pub Calm-weaken :
    {A : Type 0} {P Q R : Assertion} (m : Action A)
    → Calm R m Q
    → ((c : InvokeContext) → P c → R c)
    → Calm P m Q
Calm-weaken m t weaken = record { at = λ c h. t.at c (weaken c h) }

-- A read from one known context.
pub Calm-reads_at :
    {A B : Type 0} {Q : Assertion} {c : InvokeContext} (f : InvokeContext → Outcome A)
    (k : A → Action B)
    → f c ≢ panic
    → ((a : A) → f c ≡ ok a → Calm (λ d. d ≡ c) (k a) Q)
    → Calm (λ d. d ≡ c) (reads f >>= k) Q
Calm-reads_at f k calm keep =
    Calm-reads_bind f k (λ d h. subst (λ d. f d ≢ panic) (sym h) calm)
      λ d h a e. keep a (subst (λ d. f d ≡ ok a) h e)

strengthen-CalmAfter :
    {A : Type 0} (Q R : Assertion) (r : Outcome A × InvokeContext)
    → ((c : InvokeContext) → Q c → R c)
    → CalmAfter Q r
    → CalmAfter R r
strengthen-CalmAfter Q R (ok a, c) f h = f c h
strengthen-CalmAfter Q R (err e, c) f h = tt
strengthen-CalmAfter Q R (panic, c) f h = h

pub Calm-strengthen :
    {A : Type 0} {P Q R : Assertion} (m : Action A)
    → Calm P m Q
    → ((c : InvokeContext) → Q c → R c)
    → Calm P m R
Calm-strengthen {Q = Q} {R = R} m t f = record {
  at = λ c h. strengthen-CalmAfter Q R (m c) f (t.at c h);
}
