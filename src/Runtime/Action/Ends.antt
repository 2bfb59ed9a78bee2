-- ===== src/Runtime/Action/Ends.antt =====
-- Rules for a property of every end of an action, errors and panics included, that follow the
-- action from a known context step by step.
use solana_sdk_sample.Base.{◌≡◌, refl}
use solana_sdk_sample.Runtime.Outcome.{Outcome, ok, err, panic, InstructionError}
use solana_sdk_sample.Runtime.Account.{InvokeContext}
use solana_sdk_sample.Runtime.Action.{Action, and_then, ◌>>=◌, reads, lift}

-- A property of an action's end, by that of its first part and of the rest.
module _ {A B : Type 0} (Q : Outcome B × InvokeContext → Type 0) (k : A → Action B) where
  and_then-ends :
      (r : Outcome A) (c : InvokeContext)
      → ((a : A) → r ≡ ok a → Q (k a c))
      → ((e : InstructionError) → r ≡ err e → Q (err e, c))
      → Q (panic, c)
      → Q (and_then r k c)
  and_then-ends (ok a) c go fail p = go a refl
  and_then-ends (err e) c go fail p = fail e refl
  and_then-ends panic c go fail p = p

  pub bind-ends :
      (m : Action A) (c : InvokeContext)
      → ((a : A) → (m c).0 ≡ ok a → Q (k a (m c).1))
      → ((e : InstructionError) → (m c).0 ≡ err e → Q (err e, (m c).1))
      → Q (panic, (m c).1)
      → Q ((m >>= k) c)
  unfolding ◌>>=◌
  bind-ends m c go fail p = and_then-ends (m c).0 (m c).1 go fail p

  pub reads-ends :
      (f : InvokeContext → Outcome A) (c : InvokeContext)
      → ((a : A) → f c ≡ ok a → Q (k a c))
      → ((e : InstructionError) → Q (err e, c))
      → Q (panic, c)
      → Q ((reads f >>= k) c)
  unfolding ◌>>=◌
  reads-ends f c go fail p = and_then-ends (f c) c go (λ e _. fail e) p

  pub known-ends :
      (f : InvokeContext → A) (c : InvokeContext)
      → Q (k (f c) c)
      → Q ((reads (λ d. ok (f d)) >>= k) c)
  unfolding ◌>>=◌
  known-ends f c go = go

  -- A step that always gives a value.
  pub value-ends :
      (f : InvokeContext → A × InvokeContext) (c : InvokeContext)
      → Q (k (f c).0 (f c).1)
      → Q (((λ d. (ok (f d).0, (f d).1)) >>= k) c)
  unfolding ◌>>=◌
  value-ends f c go = go

  pub lift-ends :
      (r : Outcome A) (c : InvokeContext)
      → ((a : A) → r ≡ ok a → Q (k a c))
      → ((e : InstructionError) → r ≡ err e → Q (err e, c))
      → Q (panic, c)
      → Q ((lift r >>= k) c)
  unfolding ◌>>=◌
  lift-ends r c go fail p = and_then-ends r c go fail p
