-- ===== src/Tests/ExactExamples.antt =====
-- Exactly when the handlers succeed, at concrete inputs.
use solana_sdk_sample.Base.{◌≡◌, ◌↔◌, refl, false, some, none, arith}
use solana_sdk_sample.Runtime.Outcome.{ok}
use solana_sdk_sample.State
use solana_sdk_sample.Loader.Authority.{set_authority}
use solana_sdk_sample.Loader.Authority.Exact.{MaySetAuthority, set_authority_iff}
use solana_sdk_sample.Loader.Close.{close}
use solana_sdk_sample.Loader.Close.Checks.{MayClose}
use solana_sdk_sample.Loader.Close.Exact.{close_iff}
use solana_sdk_sample.Runtime.Account.{BpfExecutor}
use solana_sdk_sample.Loader.Executor.{create_executor}
use solana_sdk_sample.Loader.Upgrade
use solana_sdk_sample.Loader.Upgrade.{UpgradeAccounts}
use solana_sdk_sample.Loader.Upgrade.Commit.{upgrade}
use solana_sdk_sample.Loader.Upgrade.Success.{CanUpgrade, upgrade_succeeds}
use solana_sdk_sample.Tests.DemoSdk.{demo_sdk, demo_sdk-IsCheckedAdd, demo_sdk-IsStateCodec}
use solana_sdk_sample.Tests.Accounts.{
  keyed, authority, demo_context, close_accounts, set_authority_accounts, upgrade_accounts,
}

set_authority_iff_example :
    ((set_authority demo_sdk set_authority_accounts 1 (demo_context set_authority_accounts)).0
      ≡ ok tt)
    ↔ MaySetAuthority authority none (State.program_data 9 (some 7))
set_authority_iff_example =
    set_authority_iff demo_sdk set_authority_accounts 1 (demo_context set_authority_accounts)
      (keyed 4) authority (State.program_data 9 (some 7)) demo_sdk-IsStateCodec refl refl refl
      (omega arith)

close_iff_example :
    ((close demo_sdk close_accounts 1 3 (demo_context close_accounts)).0 ≡ ok tt)
    ↔ MayClose demo_sdk close_accounts 1 3
        (keyed 0)
        (keyed 2)
        (State.buffer (some 7))
        (demo_context close_accounts)
close_iff_example =
    close_iff demo_sdk close_accounts 1 3 (demo_context close_accounts) (keyed 0) (keyed 2)
      (State.buffer (some 7)) demo_sdk-IsCheckedAdd demo_sdk-IsStateCodec refl refl refl
      (omega arith)

abbrev pub upgrade_u : UpgradeAccounts
upgrade_u = record {
  programdata = keyed 4;
  program = keyed 5;
  buffer = keyed 0;
  rent = record { minimum_balance = λ n. n };
  clock = record { slot = 50 };
  authority = authority;
}

pub upgrade_found :
    Upgrade.upgrade_accounts demo_sdk upgrade_accounts 1 (demo_context upgrade_accounts)
    ≡ ok upgrade_u
unfolding Upgrade.upgrade_accounts
upgrade_found = refl

upgrade_compiles :
    (x : BpfExecutor) × (create_executor demo_sdk 3 37 false (demo_context upgrade_accounts) ≡ ok x)
unfolding create_executor
upgrade_compiles = (record { executable = 1 }, refl)

upgrade_u-CanUpgrade :
    CanUpgrade demo_sdk upgrade_accounts 1 3 false upgrade_u
      (keyed 2)
      (demo_context upgrade_accounts)
upgrade_u-CanUpgrade = record {
  found = upgrade_found;
  at_spill = refl;
  allowed = record {
    signed = refl;
    buffer_authority = refl;
    upgrade_authority = (9, refl);
    program_points = refl;
    program_executable = refl;
    program_owned = refl;
    buffer_not_empty = omega arith;
  };
  program_writable = refl;
  compiles = upgrade_compiles;
  fits = record {
    buffer_apart = λ e. cc;
    spill_apart = λ e. cc;
    spill_not_buffer = λ e. cc;
    has_metadata = omega arith;
    program_fits = omega arith;
    sum_fits = omega arith;
    spill_fits = omega arith;
  };
  enough = omega arith;
}

upgrade_succeeds_example :
    (upgrade demo_sdk upgrade_accounts 1 3 false (demo_context upgrade_accounts)).0 ≡ ok tt
upgrade_succeeds_example =
    upgrade_succeeds demo_sdk demo_sdk-IsCheckedAdd demo_sdk-IsStateCodec upgrade_accounts 1 3 false
      upgrade_u (keyed 2) (demo_context upgrade_accounts) upgrade_u-CanUpgrade refl
