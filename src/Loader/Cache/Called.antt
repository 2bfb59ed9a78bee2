-- ===== src/Loader/Cache/Called.antt =====
-- A call of a program of the upgradeable loader: which executor runs.
use solana_sdk_sample.Base.{
  ℕ, ◌+◌, ◌≤◌, ◌≡◌, ◌≢◌, sym, subst, length, drop, arith, refl, ap, ◌∙◌, Bool, true, Option, none,
  some, ◌==◌, if◌then◌else◌,
}
use solana_sdk_sample.Runtime.Outcome.{Outcome, ok, err, panic}
use solana_sdk_sample.Runtime.Account.{Pubkey, Bytes, KeyedAccount, InvokeContext, BpfExecutor}
use solana_sdk_sample.Runtime.Action.{Action, ◌>>=◌, pure, and_then}
use solana_sdk_sample.Runtime.Action.Steps.{read_step, lift_step, read_fails, read_panics}
use solana_sdk_sample.Runtime.Sdk.{Sdk}
use solana_sdk_sample.State
use solana_sdk_sample.Loader.Accounts.{state_of}
use solana_sdk_sample.Loader.Executor.{create_executor}
use solana_sdk_sample.Loader.Executor.Made.{
  IsMadeFrom, create_executor-IsMadeFrom, IsMadeFrom-create_executor,
}
use solana_sdk_sample.Loader.Executor.Execute.{execute}
use solana_sdk_sample.Loader.Deploy.Commit.{add_executor}
use solana_sdk_sample.Loader.Upgrade.Whole.{with_executor}
use solana_sdk_sample.Loader.Process.{
  process_instruction_common, invoke_program, program_data_offset, upgradeable_offset,
  cached_or_new,
}
use solana_sdk_sample.Loader.Process.Closed.{IsCall, selected, owner_passes}

-- What a call may do: run the executor in the cache; run one that is made from the program behind the
-- 45 bytes of metadata, and cache it; or, if none is made from that, fail.
pub data IsCalled (sdk : Sdk) (id : Pubkey) (programdata : KeyedAccount) (jit : Bool)
    (run : BpfExecutor → Action (Unit {0})) (c : InvokeContext)
    : Outcome (Unit {0}) × InvokeContext → Type 0 where
  runs_cached :
      (x : BpfExecutor) → c.executors id ≡ some x → IsCalled sdk id programdata jit run c (run x c)
  runs_made :
      (x : BpfExecutor)
      → c.executors id ≡ none
      → 45 ≤ length (c.cells programdata.cell).data_bytes
      → IsMadeFrom sdk (drop 45 (c.cells programdata.cell).data_bytes) jit c x
      → IsCalled sdk id programdata jit run c
          (run x (record c { executors = λ j. if j == id then some x else c.executors j }))
  fails :
      (o : Outcome (Unit {0}))
      → c.executors id ≡ none
      → ((x : BpfExecutor)
          → 45 ≤ length (c.cells programdata.cell).data_bytes
          → IsMadeFrom sdk (drop 45 (c.cells programdata.cell).data_bytes) jit c x
          → ⊥)
      → o ≢ ok tt
      → IsCalled sdk id programdata jit run c (o, c)

module _ (sdk : Sdk) (first : ℕ) (id : Pubkey) (programdata program : KeyedAccount)
    (instruction_data : Bytes) (jit : Bool) (c : InvokeContext) (slot : ℕ)
    (authority : Option Pubkey) (call : IsCall sdk first id programdata program c)
    (holds : state_of sdk programdata c ≡ ok (State.program_data slot authority)) where
  offset_of : program_data_offset sdk program programdata c ≡ ok 45
  unfolding program_data_offset upgradeable_offset
  offset_of = ground (arith, call.owner, call.points)

  -- The steps up to the choice of the executor.
  reaches_cache :
      process_instruction_common sdk first instruction_data jit c
      ≡ (cached_or_new sdk (c.executors id) first 45 jit >>= λ executor.
            execute sdk executor (first + 1) instruction_data jit)
          c
  unfolding process_instruction_common invoke_program
  reaches_cache =
      read_step (λ d. d.caller) _ c id call.caller_is_program
      ∙ read_step (λ d. d.keyed_accounts) _ c call.accounts call.given_accounts
      ∙ lift_step _ _ c programdata call.at_first
      ∙ read_step _ _ c (program, first + 1) (selected sdk first id programdata program c call)
      ∙ read_step _ _ c true (ap ok call.executable)
      ∙ read_step _ _ c sdk.bpf_loader_upgradeable_id (ap ok call.owner)
      ∙ lift_step _ _ c tt (owner_passes sdk sdk.bpf_loader_upgradeable_id refl)
      ∙ read_step _ _ c 45 offset_of
      ∙ read_step _ _ c (c.executors id) refl

  abbrev run_with : BpfExecutor → Action (Unit {0})
  run_with executor = execute sdk executor (first + 1) instruction_data jit

  after_cache :
      (o : Option BpfExecutor) (r : Outcome BpfExecutor × InvokeContext)
      → c.executors id ≡ o
      → cached_or_new sdk o first 45 jit c ≡ r
      → process_instruction_common sdk first instruction_data jit c ≡ and_then r.0 run_with r.1
  unfolding ◌>>=◌
  after_cache o r h e =
      reaches_cache
      ∙ ap (λ o. (cached_or_new sdk o first 45 jit >>= run_with) c) h
      ∙ ap (λ (r : Outcome BpfExecutor × InvokeContext). and_then r.0 run_with r.1) e

  new-made :
      (x : BpfExecutor)
      → create_executor sdk first 45 jit c ≡ ok x
      → cached_or_new sdk none first 45 jit c ≡ (ok x, with_executor id x c)
  unfolding ◌>>=◌ add_executor
  new-made x made =
      read_step (create_executor sdk first 45 jit) _ c x made
      ∙ read_step (λ d. d.caller) _ c id call.caller_is_program

  pub call-cached :
      (x : BpfExecutor)
      → c.executors id ≡ some x
      → process_instruction_common sdk first instruction_data jit c ≡ run_with x c
  unfolding pure
  call-cached x h = after_cache (some x) (ok x, c) h refl

  abbrev Called : Outcome (Unit {0}) × InvokeContext → Type 0
  Called = IsCalled sdk id programdata jit run_with c

  -- No executor is made from the account's bytes.
  none_made :
      (r : Outcome BpfExecutor)
      → create_executor sdk first 45 jit c ≡ r
      → ((x : BpfExecutor) → r ≢ ok x)
      → (x : BpfExecutor) → 45 ≤ length (c.cells programdata.cell).data_bytes
      → IsMadeFrom sdk (drop 45 (c.cells programdata.cell).data_bytes) jit c x
      → ⊥
  none_made r e other x fits m = other x (
      sym e
      ∙ IsMadeFrom-create_executor sdk jit c x call.accounts first 45 programdata
          call.given_accounts call.at_first fits m)

  call_lem :
      (o : Option BpfExecutor) (r : Outcome BpfExecutor)
      → c.executors id ≡ o
      → create_executor sdk first 45 jit c ≡ r
      → Called (process_instruction_common sdk first instruction_data jit c)
  call_lem (some x) r h e = subst Called (sym (call-cached x h)) (runs_cached x h)
  call_lem none (ok x) h e =
      let (fits, m) =
        create_executor-IsMadeFrom sdk jit c x call.accounts first 45 programdata
          call.given_accounts call.at_first e in
      subst Called (sym (after_cache none (ok x, with_executor id x c) h (new-made x e)))
        (runs_made x h fits m)
  call_lem none (err x) h e =
      subst Called
        (sym
          (after_cache none (err x, c) h (read_fails (create_executor sdk first 45 jit) _ c x e)))
        (fails (err x) h (none_made (err x) e (λ y k. cc)) (λ k. cc))
  call_lem none panic h e =
      subst Called
        (sym (after_cache none (panic, c) h (read_panics (create_executor sdk first 45 jit) _ c e)))
        (fails panic h (none_made panic e (λ y k. cc)) (λ k. cc))

  -- A call of a program of the upgradeable loader, whose ProgramData account holds a program, runs the
  -- executor in the cache. If there is none, it runs the one made from the bytes behind the account's
  -- 45 bytes of metadata, with the syscalls registered, the verifier passed and the budget's limits,
  -- and compiled if the loader is the one that compiles; that one is in the cache from then on. And if
  -- none can be made of them, the call fails and changes nothing.
  pub process_instruction_common-IsCalled :
      IsCalled sdk id programdata jit
        (λ x. execute sdk x (first + 1) instruction_data jit)
        c
        (process_instruction_common sdk first instruction_data jit c)
  process_instruction_common-IsCalled =
      call_lem (c.executors id) (create_executor sdk first 45 jit c) refl refl
