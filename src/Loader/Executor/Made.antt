-- ===== src/Loader/Executor/Made.antt =====
-- What `create_executor` makes, described apart from it.
use solana_sdk_sample.Base.{
  ℕ, ◌≤◌, ◌≡◌, refl, ap, sym, subst, ◌∙◌, Bool, true, false, not, Option, none, some, List, arith,
  drop, length,
}
use solana_sdk_sample.Runtime.Outcome.{
  Outcome, ok, err, panic, ◌>>=◌, fail_if, InstructionError, invalid_account_data,
  program_failed_to_compile, program_environment_setup_failure,
}
use solana_sdk_sample.Runtime.Account.{
  Account, Bytes, KeyedAccount, InvokeContext, Executable, BpfExecutor, keyed_account_at_index,
  stop_verify_mul64_imm_nonzero,
}
use solana_sdk_sample.Runtime.Sdk.{Sdk, Config}
use solana_sdk_sample.Loader.Executor.{create_executor, or_err, elf_bytes, compile, vm_config}

-- The virtual machine's configuration: the budget's limits, tracing if it is logged, and the check of
-- multiplications unless the feature stops it.
abbrev pub budgeted : Sdk → InvokeContext → Config
budgeted sdk c = record {
  max_call_depth = c.compute_budget.max_call_depth;
  stack_frame_size = c.compute_budget.stack_frame_size;
  enable_instruction_tracing = sdk.log_enabled_trace;
  verify_mul64_imm_nonzero = not (c.is_feature_active stop_verify_mul64_imm_nonzero);
}

-- The executable that runs: compiled, or as it was read.
abbrev pub Runnable : Sdk → Bool → Executable → Executable → Type 0
Runnable sdk true parsed executable = sdk.jit_compile parsed ≡ some executable
Runnable sdk false parsed executable = parsed ≡ executable

-- The executor is that of the program in the given bytes, which pass the verifier.
pub record IsMadeFrom (sdk : Sdk) (bytes : Bytes) (jit : Bool) (c : InvokeContext) (x : BpfExecutor)
    : Type 0 where
  pub registry : ℕ
  pub registered : sdk.register_syscalls c ≡ some registry
  pub parsed : Executable
  pub is_parsed : sdk.from_elf bytes (budgeted sdk c) registry ≡ some parsed
  pub verified : sdk.verifier_check (sdk.get_text_bytes parsed) (budgeted sdk c) ≡ true
  pub runnable : Runnable sdk jit parsed x.executable

bind-ok :
    {A B : Type 0} (m : Outcome A) (k : A → Outcome B) (b : B)
    → (m >>= k) ≡ ok b
    → (a : A) × (m ≡ ok a) × (k a ≡ ok b)
bind-ok (ok a) k b h = (a, refl, h)
bind-ok (err e) k b h = cc
bind-ok panic k b h = cc

or_err-ok :
    {A : Type 0} (o : Option A) (e : InstructionError) (a : A) → or_err o e ≡ ok a → o ≡ some a
or_err-ok none e a h = cc
or_err-ok (some x) e a h = cc

elf_bytes-ok :
    (sdk : Sdk) (offset : ℕ) (a : Account) (bytes : Bytes)
    → elf_bytes sdk offset a ≡ ok bytes
    → (offset ≤ length a.data_bytes) × (drop offset a.data_bytes ≡ bytes)
elf_bytes-ok sdk offset a bytes h = (ground arith, ground arith)

elf_bytes-fits :
    (sdk : Sdk) (offset : ℕ) (a : Account)
    → offset ≤ length a.data_bytes
    → elf_bytes sdk offset a ≡ ok (drop offset a.data_bytes)
elf_bytes-fits sdk offset a h = ground arith

fail_if-ok : (b : Bool) → fail_if (not b) invalid_account_data ≡ ok tt → b ≡ true
fail_if-ok true h = refl
fail_if-ok false h = cc

module _ (sdk : Sdk) (jit : Bool) (c : InvokeContext) (x : BpfExecutor) where
  compile-Runnable :
      (jit : Bool) (parsed executable : Executable)
      → compile sdk jit parsed ≡ ok executable
      → Runnable sdk jit parsed executable
  compile-Runnable true parsed executable h = or_err-ok _ _ executable h
  compile-Runnable false parsed executable h = cc

  Runnable-compile :
      (jit : Bool) (parsed executable : Executable)
      → Runnable sdk jit parsed executable
      → compile sdk jit parsed ≡ ok executable
  Runnable-compile true parsed executable h = ap (λ o. or_err o program_failed_to_compile) h
  Runnable-compile false parsed executable h = ap ok h

  module _ (accounts : List KeyedAccount) (i offset : ℕ) (a : KeyedAccount)
      (given : c.keyed_accounts ≡ ok accounts) (at : keyed_account_at_index accounts i ≡ ok a) where
    abbrev program_data : Bytes
    program_data = (c.cells a.cell).data_bytes

    pub create_executor-IsMadeFrom :
        create_executor sdk i offset jit c ≡ ok x
        → (offset ≤ length program_data) × IsMadeFrom sdk (drop offset program_data) jit c x
    unfolding create_executor
    create_executor-IsMadeFrom h =
        let (registry, e0, h0) =
          bind-ok (or_err (sdk.register_syscalls c) program_environment_setup_failure) _ x h in
        let (found, e1, h1) = bind-ok c.keyed_accounts _ x h0 in
        let (b, e2, h2) = bind-ok (keyed_account_at_index found i) _ x h1 in
        let (bytes, e3, h3) = bind-ok (elf_bytes sdk offset (c.cells b.cell)) _ x h2 in
        let (parsed, e4, h4) =
          bind-ok (or_err (sdk.from_elf bytes (vm_config sdk c) registry) invalid_account_data) _ x
            h3 in
        let (_, e5, h5) =
          bind-ok
            (fail_if (not (sdk.verifier_check (sdk.get_text_bytes parsed) (vm_config sdk c)))
              invalid_account_data)
            _ x h4 in
        let (executable, e6, h6) = bind-ok (compile sdk jit parsed) _ x h5 in
        let same : found ≡ accounts = cc (given) in
        let here : b ≡ a = cc (at) in
        let (fits, cut) = elf_bytes-ok sdk offset (c.cells b.cell) bytes e3 in
        let made : executable ≡ x.executable =
          ap
            (λ (r : Outcome BpfExecutor). elim r [
              | ok y ↦ y.executable
              | err y ↦ executable
              | panic ↦ executable
            ])
            h6 in
        (
          subst (λ (k : KeyedAccount). offset ≤ length (c.cells k.cell).data_bytes) here fits,
          record {
            registry = registry;
            registered = or_err-ok _ _ registry e0;
            parsed = parsed;
            is_parsed =
                subst (λ xs. sdk.from_elf xs (budgeted sdk c) registry ≡ some parsed)
                  (sym cut
                    ∙ ap (λ (k : KeyedAccount). drop offset (c.cells k.cell).data_bytes) here)
                  (or_err-ok _ _ parsed e4);
            verified = fail_if-ok _ e5;
            runnable =
                subst (Runnable sdk jit parsed) made (compile-Runnable jit parsed executable e6);
          },
        )

    pub IsMadeFrom-create_executor :
        offset ≤ length program_data
        → IsMadeFrom sdk (drop offset program_data) jit c x
        → create_executor sdk i offset jit c ≡ ok x
    unfolding create_executor
    IsMadeFrom-create_executor fits m = rw (
      m.registered,
      given,
      at,
      elf_bytes-fits sdk offset (c.cells a.cell) fits,
      m.is_parsed,
      m.verified,
      Runnable-compile jit m.parsed x.executable m.runnable,
    )
