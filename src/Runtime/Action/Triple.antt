-- ===== src/Runtime/Action/Triple.antt =====
-- Triples of actions: what holds after an action that returns, with one rule for each way to build
-- an action. A triple says nothing of an error or a panic.
use solana_sdk_sample.Base.{ℕ, ◌≡◌, refl, sym, ap, subst, ◌∙◌, Bool, true, false}
use solana_sdk_sample.Runtime.Outcome.{Outcome, ok, err, panic}
use solana_sdk_sample.Runtime.Account.{Account, InvokeContext, update}
use solana_sdk_sample.Runtime.Action.{
  Action, and_then, ◌>>=◌, reads, lift, when, put_account, modify_account,
}

abbrev pub Assertion : Type 1
Assertion = InvokeContext → Type 0

abbrev pub After : {A : Type 0} → Assertion → Outcome A × InvokeContext → Type 0
After Q (ok a, c) = Q c
After Q (err e, c) = Unit
After Q (panic, c) = Unit

-- If `m` returns from a context where `P` holds, `Q` holds of the context that it leaves.
pub record Triple {A : Type 0} (P : Assertion) (m : Action A) (Q : Assertion) : Type 0 where
  pub at : (c : InvokeContext) → P c → After Q (m c)

abbrev pub Keeps : {A : Type 0} → Assertion → Action A → Type 0
Keeps P m = Triple P m P

pub after_ok :
    {A : Type 0} (P : Assertion) (m : Action A) (Q : Assertion) (c c' : InvokeContext) (a : A)
    → Triple P m Q
    → P c
    → m c ≡ (ok a, c')
    → Q c'
after_ok P m Q c c' a t h e = subst (After Q) e (t.at c h)

lift-After : {A : Type 0} (P : Assertion) (r : Outcome A) (c : InvokeContext) → P c → After P (r, c)
lift-After P (ok a) c h = h
lift-After P (err e) c h = tt
lift-After P panic c h = tt

module _ {P : Assertion} where
  pub Triple-reads : {A : Type 0} (f : InvokeContext → Outcome A) → Keeps P (reads f)
  unfolding reads
  Triple-reads f = record { at = λ c h. lift-After P (f c) c h }

  pub Triple-lift : {A : Type 0} (r : Outcome A) → Keeps P (lift r)
  unfolding lift
  Triple-lift r = record { at = λ c h. lift-After P r c h }

and_then-Triple :
    {P Q : Assertion} {A B : Type 0} (r : Outcome A) (k : A → Action B)
    → ((a : A) → r ≡ ok a → Triple P (k a) Q)
    → (c : InvokeContext) → After P (r, c)
    → After Q (and_then r k c)
and_then-Triple (ok a) k keep c h = (keep a refl).at c h
and_then-Triple (err e) k keep c h = tt
and_then-Triple panic k keep c h = tt

module _ {P Q : Assertion} where
  -- After a read, the rest may use what was read in a context where `P` held.
  pub Triple-reads_bind :
      {A B : Type 0} (f : InvokeContext → Outcome A) (k : A → Action B)
      → ((c : InvokeContext) → P c → (a : A) → f c ≡ ok a → Triple P (k a) Q)
      → Triple P (reads f >>= k) Q
  unfolding ◌>>=◌
  Triple-reads_bind f k keep = record {
    at = λ c h. and_then-Triple (f c) k (λ a e. keep c h a e) c (lift-After P (f c) c h);
  }

  pub Triple-lift_bind :
      {A B : Type 0} (r : Outcome A) (k : A → Action B)
      → ((a : A) → r ≡ ok a → Triple P (k a) Q)
      → Triple P (lift r >>= k) Q
  unfolding ◌>>=◌
  Triple-lift_bind r k keep = record { at = λ c h. and_then-Triple r k keep c (lift-After P r c h) }

  -- The same, where the rest needs that what was read still stands.
  pub Triple-reads_keep :
      {A B : Type 0} (f : InvokeContext → Outcome A) (k : A → Action B)
      → ((a : A) → Triple (λ c. P c × (f c ≡ ok a)) (k a) Q)
      → Triple P (reads f >>= k) Q
  unfolding ◌>>=◌
  Triple-reads_keep f k keep = record {
    at = λ c h.
        and_then-Triple {P = λ d. d ≡ c} (f c) k
          (λ a e. record { at = λ d same. (keep a).at d (subst P (sym same) h, ap f same ∙ e) }) c
          (lift-After (λ d. d ≡ c) (f c) c refl);
  }

  pub Triple-weaken :
      {A : Type 0} {R : Assertion} (m : Action A)
      → Triple R m Q
      → ((c : InvokeContext) → P c → R c)
      → Triple P m Q
  Triple-weaken m t weaken = record { at = λ c h. t.at c (weaken c h) }

module _ {P Q R : Assertion} where
  pub Triple-bind :
      {A B : Type 0} (m : Action A) (k : A → Action B)
      → Triple P m R
      → ((a : A) → Triple R (k a) Q)
      → Triple P (m >>= k) Q
  unfolding ◌>>=◌
  Triple-bind m k km kk = record {
    at = λ c h. let (r, c') = m c in and_then-Triple r k (λ a _. kk a) c' (km.at c h);
  }

when-Triple :
    (P : Assertion) (b : Bool) (m : Action (Unit {0}))
    → (b ≡ true → Keeps P m)
    → (c : InvokeContext) → P c
    → After P (when b m c)
unfolding when
when-Triple P true m km c h = (km refl).at c h
when-Triple P false m km c h = h

pub Triple-when :
    {P : Assertion} (b : Bool) (m : Action (Unit {0})) → (b ≡ true → Keeps P m) → Keeps P (when b m)
Triple-when {P} b m km = record { at = when-Triple P b m km }

put_account-Triple :
    (Q : Assertion) (cell : ℕ) (r : Outcome Account) (c : InvokeContext)
    → ((a : Account) → r ≡ ok a → Q (record c { cells = update c.cells cell a }))
    → After Q (put_account cell r c)
put_account-Triple Q cell (ok a) c keep = keep a refl
put_account-Triple Q cell (err e) c keep = tt
put_account-Triple Q cell panic c keep = tt

-- The rule for one account that changes.
pub Triple-modify_account :
    {P Q : Assertion} (cell : ℕ) (f : Account → Outcome Account)
    → ((c : InvokeContext) (a : Account)
        → P c
        → f (c.cells cell) ≡ ok a
        → Q (record c { cells = update c.cells cell a }))
    → Triple P (modify_account cell f) Q
unfolding modify_account
Triple-modify_account {P} {Q} cell f keep = record {
  at = λ c h. put_account-Triple Q cell (f (c.cells cell)) c (λ a e. keep c a h e);
}

frame-After :
    {A : Type 0} (P : Assertion) (X : Type 0) (r : Outcome A × InvokeContext)
    → X
    → After P r
    → After (λ c. P c × X) r
frame-After P X (ok a, c) x h = (h, x)
frame-After P X (err e, c) x h = tt
frame-After P X (panic, c) x h = tt

-- A fact that does not speak of the context stays.
pub Triple-frame :
    {A : Type 0} {P : Assertion} (X : Type 0) (m : Action A) → Keeps P m → Keeps (λ c. P c × X) m
Triple-frame {A} {P} X m t = record { at = λ c h. frame-After P X (m c) h.1 (t.at c h.0) }

strengthen-After :
    {A : Type 0} (Q R : Assertion) (r : Outcome A × InvokeContext)
    → ((c : InvokeContext) → Q c → R c)
    → After Q r
    → After R r
strengthen-After Q R (ok a, c) f h = f c h
strengthen-After Q R (err e, c) f h = tt
strengthen-After Q R (panic, c) f h = tt

pub Triple-strengthen :
    {A : Type 0} {P Q R : Assertion} (m : Action A)
    → Triple P m Q
    → ((c : InvokeContext) → Q c → R c)
    → Triple P m R
Triple-strengthen {A} {P} {Q} {R} m t f = record {
  at = λ c h. strengthen-After Q R (m c) f (t.at c h);
}
