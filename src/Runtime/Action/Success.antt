-- ===== src/Runtime/Action/Success.antt =====
-- When an action succeeds: one rule for each way to build an action, from a known context.
use solana_sdk_sample.Base.{ℕ, ◌≡◌}
use solana_sdk_sample.Runtime.Outcome.{Outcome, ok}
use solana_sdk_sample.Runtime.Account.{Account, InvokeContext, update}
use solana_sdk_sample.Runtime.Action.{Action, ◌>>=◌, reads, lift, modify_account}

abbrev pub Succeeds : Action (Unit {0}) → InvokeContext → Type 0
Succeeds m c = (m c).0 ≡ ok tt

pub Succeeds-reads :
    {A : Type 0} (f : InvokeContext → Outcome A) (k : A → Action (Unit {0})) (c : InvokeContext)
    (a : A)
    → f c ≡ ok a
    → Succeeds (k a) c
    → Succeeds (reads f >>= k) c
unfolding ◌>>=◌
Succeeds-reads f k c a e h = rw e h

pub Succeeds-lift :
    {A : Type 0} (r : Outcome A) (k : A → Action (Unit {0})) (c : InvokeContext) (a : A)
    → r ≡ ok a
    → Succeeds (k a) c
    → Succeeds (lift r >>= k) c
unfolding ◌>>=◌
Succeeds-lift r k c a e h = rw e h

pub Succeeds-modify :
    (cell : ℕ) (f : Account → Outcome Account) (c : InvokeContext) (a : Account)
    → f (c.cells cell) ≡ ok a
    → Succeeds (modify_account cell f) c
unfolding modify_account
Succeeds-modify cell f c a e = rw e

pub Succeeds-modify_bind :
    (cell : ℕ) (f : Account → Outcome Account) (k : Unit {0} → Action (Unit {0}))
    (c : InvokeContext) (a : Account)
    → f (c.cells cell) ≡ ok a
    → Succeeds (k tt) (record c { cells = update c.cells cell a })
    → Succeeds (modify_account cell f >>= k) c
unfolding ◌>>=◌
Succeeds-modify_bind cell f k c a e h = rw e h

-- After an action that leaves a known context.
pub Succeeds-bind :
    {A : Type 0} (m : Action A) (k : A → Action (Unit {0})) (c c' : InvokeContext) (a : A)
    → m c ≡ (ok a, c')
    → Succeeds (k a) c'
    → Succeeds (m >>= k) c
unfolding ◌>>=◌
Succeeds-bind m k c c' a e h = rw e h
