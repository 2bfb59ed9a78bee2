-- ===== src/Loader/Executor/Execute/Machine.antt =====
-- The machine's set-up: what it changes of the context, and the machine that it makes.
use mathlib.Core.Option
use solana_sdk_sample.Base.{ℕ, ◌≡◌, refl, ap, ◌⊎◌, inl, inr, Bool, true, false, Option, List}
use solana_sdk_sample.Runtime.Outcome.{Outcome, ok, err, panic, InstructionError}
use solana_sdk_sample.Runtime.Account.{
  Bytes, Pubkey, BpfExecutor, InvokeContext, requestable_heap_size,
}
use solana_sdk_sample.Runtime.Action.{◌>>=◌}
use solana_sdk_sample.Runtime.Sdk.{Sdk}
use solana_sdk_sample.Loader.Executor.Execute.{heap_charge, create_vm}

module _ (sdk : Sdk) where
  -- What the machine's set-up does to the context: with the feature on, the meter pays for the heap.
  abbrev pub Metered : InvokeContext → InvokeContext → Type 0
  Metered c d =
      ((c.is_feature_active requestable_heap_size ≡ false) × (d ≡ c))
      ⊎ ((cost : ℕ) × (c.is_feature_active requestable_heap_size ≡ true)
          × (heap_charge sdk c.compute_budget ≡ ok cost)
          × (d ≡ record c { compute_remaining = sdk.consume c.compute_remaining cost }))

  abbrev pub new_machine : Pubkey → BpfExecutor → Bytes → List ℕ → InvokeContext → Option ℕ
  new_machine loader_id executor bytes lens c =
      Option.bind
        (sdk.new_vm executor.executable (Option.get_or c.compute_budget.heap_size sdk.heap_length)
          bytes)
        (λ vm. sdk.bind_syscall_context_objects loader_id vm lens)

  abbrev pub VmEnd : InvokeContext → Option ℕ → Outcome (Option ℕ) × InvokeContext → Type 0
  VmEnd c vm (ok a, d) = Metered c d × (a ≡ vm)
  VmEnd c vm (err e, d) = d.cells ≡ c.cells
  VmEnd c vm (panic, d) = Unit

  pub create_vm_lem :
      (loader_id : Pubkey) (executor : BpfExecutor) (bytes : Bytes) (lens : List ℕ)
      (c : InvokeContext)
      → VmEnd c
          (new_machine loader_id executor bytes lens c)
          (create_vm sdk loader_id executor.executable bytes lens c)
  unfolding create_vm ◌>>=◌
  create_vm_lem loader_id executor bytes lens c =
      go (c.is_feature_active requestable_heap_size) (heap_charge sdk c.compute_budget) refl refl
    where
      go :
          (b : Bool) (r : Outcome ℕ)
          → c.is_feature_active requestable_heap_size ≡ b
          → heap_charge sdk c.compute_budget ≡ r
          → VmEnd c
              (new_machine loader_id executor bytes lens c)
              (create_vm sdk loader_id executor.executable bytes lens c)
      go false r off h = rw off (inl (off, refl), refl)
      go true (ok cost) on h = rw (on, h) (inr (cost, on, h, refl), refl)
      go true (err e) on h = rw (on, h) refl
      go true panic on h = rw (on, h) tt

  pub VmEnd-ok :
      (c : InvokeContext) (vm : Option ℕ) (r : Outcome (Option ℕ) × InvokeContext) (a : Option ℕ)
      → VmEnd c vm r
      → r.0 ≡ ok a
      → Metered c r.1 × (a ≡ vm)
  VmEnd-ok c vm (ok b, d) a h e = (h.0, cc (h.1))
  VmEnd-ok c vm (err x, d) a h e = cc
  VmEnd-ok c vm (panic, d) a h e = cc

  pub VmEnd-err :
      (c : InvokeContext) (vm : Option ℕ) (r : Outcome (Option ℕ) × InvokeContext)
      (x : InstructionError)
      → VmEnd c vm r
      → r.0 ≡ err x
      → r.1.cells ≡ c.cells
  VmEnd-err c vm (ok b, d) x h e = cc
  VmEnd-err c vm (err y, d) x h e = h
  VmEnd-err c vm (panic, d) x h e = cc

  pub Metered-cells : (c d : InvokeContext) → Metered c d → d.cells ≡ c.cells
  Metered-cells c d (inl (off, same)) = cc
  Metered-cells c d (inr (cost, on, charge, same)) = ap (λ (x : InvokeContext). x.cells) same
