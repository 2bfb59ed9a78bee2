-- ===== src/Runtime/Action/Steps.antt =====
-- One step of an action's run, with what it reads.
use solana_sdk_sample.Base.{◌≡◌, ap}
use solana_sdk_sample.Runtime.Outcome.{Outcome, InstructionError, ok, err, panic}
use solana_sdk_sample.Runtime.Account.{InvokeContext}
use solana_sdk_sample.Runtime.Action.{Action, ◌>>=◌, reads, lift, and_then}

pub read_step :
    {A B : Type 0} (f : InvokeContext → Outcome A) (k : A → Action B) (c : InvokeContext) (a : A)
    → f c ≡ ok a
    → (reads f >>= k) c ≡ k a c
unfolding ◌>>=◌
read_step f k c a e = ap (λ r. and_then r k c) e

pub lift_step :
    {A B : Type 0} (r : Outcome A) (k : A → Action B) (c : InvokeContext) (a : A)
    → r ≡ ok a
    → (lift r >>= k) c ≡ k a c
unfolding ◌>>=◌
lift_step r k c a e = ap (λ r. and_then r k c) e

pub read_fails :
    {A B : Type 0} (f : InvokeContext → Outcome A) (k : A → Action B) (c : InvokeContext)
    (e : InstructionError)
    → f c ≡ err e
    → (reads f >>= k) c ≡ (err e, c)
unfolding ◌>>=◌
read_fails f k c e h = ap (λ r. and_then r k c) h

pub read_panics :
    {A B : Type 0} (f : InvokeContext → Outcome A) (k : A → Action B) (c : InvokeContext)
    → f c ≡ panic
    → (reads f >>= k) c ≡ (panic, c)
unfolding ◌>>=◌
read_panics f k c h = ap (λ r. and_then r k c) h
