-- ===== src/Tests/CallExamples.antt =====
-- Calls of programs, and their executions, at concrete inputs.
use solana_sdk_sample.Base.{◌≡◌, drop, splice, refl, false, some, [], ◌∷◌, arith}
use solana_sdk_sample.Runtime.Outcome.{Outcome, ok}
use solana_sdk_sample.Runtime.Account.{BpfExecutor, InvokeContext}
use solana_sdk_sample.Runtime.Action
use solana_sdk_sample.Loader.Executor.{create_executor}
use solana_sdk_sample.Loader.Executor.Made.{IsMadeFrom}
use solana_sdk_sample.Loader.Executor.Execute.{execute}
use solana_sdk_sample.Loader.Deploy.Commit.{add_executor, copy_program}
use solana_sdk_sample.Loader.Upgrade
use solana_sdk_sample.Loader.Upgrade.{
  UpgradeAccounts, verify_program, verify_buffer, verify_programdata,
}
use solana_sdk_sample.Loader.Upgrade.Commit.{upgrade, record_upgrade, fund_programdata}
use solana_sdk_sample.Loader.Process.{process_instruction_common}
use solana_sdk_sample.Loader.Process.Closed.{IsCall}
use solana_sdk_sample.Loader.Cache.Called.{IsCalled, process_instruction_common-IsCalled}
use solana_sdk_sample.Loader.Cache.Renewed.{IsLater, process_instruction_common-upgrade}
use solana_sdk_sample.Tests.DemoSdk.{demo_sdk, demo_sdk-IsStateCodec}
use solana_sdk_sample.Tests.ExactExamples.{upgrade_u, upgrade_found}
use solana_sdk_sample.Tests.Accounts.{keyed, demo_context, upgrade_accounts}

abbrev executor : BpfExecutor
executor = record { executable = 1 }

-- Program 105 is called, with its data before it.
abbrev at_call : InvokeContext
at_call = record (demo_context (keyed 4 ∷ keyed 5 ∷ [])) { caller = ok 105 }

demo-IsCall : IsCall demo_sdk 0 105 (keyed 4) (keyed 5) at_call
demo-IsCall = record {
  accounts = keyed 4 ∷ keyed 5 ∷ [];
  caller_is_program = refl;
  given_accounts = refl;
  at_first = refl;
  at_second = refl;
  program_key = refl;
  programdata_key = omega arith;
  executable = refl;
  owner = refl;
  points = refl;
}

process_instruction_common-IsCalled_example :
    IsCalled demo_sdk 105
      (keyed 4)
      false
      (λ x. execute demo_sdk x 1 [] false)
      at_call
      (process_instruction_common demo_sdk 0 [] false at_call)
process_instruction_common-IsCalled_example =
    process_instruction_common-IsCalled demo_sdk 0 105 (keyed 4) (keyed 5) [] false at_call 9
      (some 7) demo-IsCall refl

abbrev before : InvokeContext
before = demo_context upgrade_accounts

abbrev upgrade_run : Outcome (Unit {0}) × InvokeContext
upgrade_run = upgrade demo_sdk upgrade_accounts 1 3 false before

-- The call of the upgraded program.
abbrev after : InvokeContext
after = record upgrade_run.1 { caller = ok 105; keyed_accounts = ok (keyed 4 ∷ keyed 5 ∷ []) }

upgrade_run-ok : upgrade_run ≡ (ok tt, upgrade_run.1)
unfolding Action.◌>>=◌ upgrade Upgrade.upgrade_accounts verify_program verify_buffer
    verify_programdata create_executor add_executor record_upgrade copy_program splice
    fund_programdata
upgrade_run-ok = refl

upgraded-IsLater : IsLater demo_sdk upgrade_u 0 (keyed 4) (keyed 5) upgrade_run.1 after
unfolding Action.◌>>=◌ upgrade Upgrade.upgrade_accounts verify_program verify_buffer
    verify_programdata create_executor add_executor record_upgrade copy_program splice
    fund_programdata
upgraded-IsLater = record {
  same_entry = refl;
  same_data = refl;
  same_account = refl;
  call = record {
    accounts = keyed 4 ∷ keyed 5 ∷ [];
    caller_is_program = refl;
    given_accounts = refl;
    at_first = refl;
    at_second = refl;
    program_key = refl;
    programdata_key = omega arith;
    executable = refl;
    owner = refl;
    points = refl;
  };
}

process_instruction_common-upgrade_example :
    (x : BpfExecutor) × IsMadeFrom demo_sdk (drop 37 (before.cells 0).data_bytes) false before x
    × (process_instruction_common demo_sdk 0 [] false after ≡ execute demo_sdk x 1 [] false after)
process_instruction_common-upgrade_example =
    process_instruction_common-upgrade demo_sdk upgrade_accounts 1 3 false before upgrade_run.1
      after upgrade_u 0 (keyed 4) (keyed 5) [] false demo_sdk-IsStateCodec refl upgrade_found
      upgrade_run-ok upgraded-IsLater
