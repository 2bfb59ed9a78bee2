-- ===== src/Tests/DeployExamples.antt =====
-- A deployment at a concrete input.
use solana_sdk_sample.Base.{
  ℕ, ◌+◌, ◌<◌, length, arith, u64_bound, ◌≡◌, refl, true, false, List, [], ◌∷◌, ◌==◌, if◌then◌else◌,
  splice,
}
use solana_sdk_sample.Runtime.Outcome.{Outcome, ok}
use solana_sdk_sample.Runtime.Account.{Account, Cells, KeyedAccount, InvokeContext, BpfExecutor}
use solana_sdk_sample.Runtime.Action
use solana_sdk_sample.Loader.Close.{drain}
use solana_sdk_sample.Loader.Executor.{create_executor}
use solana_sdk_sample.Loader.Deploy.{
  DeployAccounts, deploy_accounts, verify_program, verify_buffer, derive_bump, create_instruction,
}
use solana_sdk_sample.Loader.Deploy.Commit.{
  create_programdata, record_program, copy_program, add_executor, deploy,
}
use solana_sdk_sample.Loader.Deploy.Whole.{Deployed, deploy-Deployed}
use solana_sdk_sample.Loader.Deploy.Possible.{CanDeploy}
use solana_sdk_sample.Loader.Deploy.Success.{deploy_succeeds}
use solana_sdk_sample.Tests.System.{run_create}
use solana_sdk_sample.Tests.DemoSdk.{
  demo_sdk, demo_sdk-IsCheckedAdd, demo_sdk-IsStateCodec, demo_sdk-IsCreateAccount,
}
use solana_sdk_sample.Tests.Accounts.{keyed, loader, demo_cells, authority, demo_context, sysvar}

abbrev empty : ℕ → Account
empty lamports = record { lamports = lamports; data_bytes = []; owner = 0; executable = false }

-- The cells of the other tests, a new ProgramData account in cell 9 and a payer in cell 10.
abbrev deploy_cells : Cells
deploy_cells c = if c == 9 then empty 0 else if c == 10 then empty 100 else demo_cells c

abbrev programdata : KeyedAccount
programdata = record { is_signer = false; is_writable = true; unsigned_key = 101; cell = 9 }

abbrev pub deploy_list : List KeyedAccount
deploy_list =
    loader
    ∷ keyed 10
    ∷ programdata
    ∷ keyed 6
    ∷ keyed 0
    ∷ sysvar 4
    ∷ sysvar 5
    ∷ sysvar 0
    ∷ authority
    ∷ []

abbrev pub at_deploy : InvokeContext
at_deploy = record (demo_context deploy_list) { cells = deploy_cells }

abbrev deploy_run : Outcome (Unit {0}) × InvokeContext
deploy_run = deploy demo_sdk deploy_list 1 3 6 false at_deploy

deploy_run-ok : deploy_run.0 ≡ ok tt
unfolding Action.◌>>=◌ deploy deploy_accounts verify_program verify_buffer derive_bump
    create_programdata run_create create_instruction create_executor add_executor record_program
    copy_program drain splice
deploy_run-ok = refl

deploy-Deployed_example : Deployed demo_sdk deploy_list 1 3 6 at_deploy deploy_run.1
deploy-Deployed_example =
    deploy-Deployed demo_sdk deploy_list 1 3 6 false at_deploy deploy_run.1 demo_sdk-IsStateCodec
      demo_sdk-IsCreateAccount refl (λ i. (deploy_run-ok i, deploy_run.1))

abbrev deploy_d : DeployAccounts
deploy_d = record {
  payer = keyed 10;
  programdata = programdata;
  program = keyed 6;
  buffer = keyed 0;
  rent = record { minimum_balance = λ n. n };
  clock = record { slot = 50 };
  authority = authority;
}

deploy_found : deploy_accounts demo_sdk deploy_list 1 at_deploy ≡ ok deploy_d
unfolding deploy_accounts
deploy_found = refl

-- The context that CreateAccount leaves.
abbrev after_create : InvokeContext
after_create =
    (demo_sdk.native_invoke (create_instruction demo_sdk deploy_d 51 3) (102 ∷ []) at_deploy).1

after_create-ok :
    demo_sdk.native_invoke (create_instruction demo_sdk deploy_d 51 3) (102 ∷ []) at_deploy
    ≡ (ok tt, after_create)
unfolding run_create create_instruction
after_create-ok = refl

after_create-space : length (after_create.cells 9).data_bytes ≡ 51
unfolding run_create create_instruction
after_create-space = refl

deploy_compiles : (x : BpfExecutor) × (create_executor demo_sdk 4 37 false after_create ≡ ok x)
unfolding create_executor run_create create_instruction
deploy_compiles = (record { executable = 1 }, refl)

deploy_sum : (after_create.cells 10).lamports + (after_create.cells 0).lamports < u64_bound
unfolding run_create create_instruction
deploy_sum = omega arith

deploy_d-CanDeploy :
    CanDeploy demo_sdk demo_sdk-IsCheckedAdd demo_sdk-IsStateCodec deploy_list 1 3 6 false deploy_d
      at_deploy after_create
deploy_d-CanDeploy = record {
  found = deploy_found;
  allowed = record {
    signed = refl;
    buffer_authority = refl;
    program_is_new = refl;
    program_rent_exempt = omega arith;
    program_has_room = omega arith;
    buffer_not_empty = omega arith;
    program_fits = omega arith;
    address_is_derived = refl;
  };
  permitted = omega arith;
  bounded = omega arith;
  caller = 3;
  at_caller = refl;
  signers = 102 ∷ [];
  signs = refl;
  created = after_create-ok;
  space = after_create-space;
  compiles = deploy_compiles;
  drains_before = λ active. cc;
  drains_after = λ off. record { two_accounts = λ e. cc; sum_fits = deploy_sum };
}

deploy_succeeds_example : (deploy demo_sdk deploy_list 1 3 6 false at_deploy).0 ≡ ok tt
deploy_succeeds_example =
    deploy_succeeds demo_sdk demo_sdk-IsCheckedAdd demo_sdk-IsStateCodec demo_sdk-IsCreateAccount
      deploy_list 1 3 6 false deploy_d at_deploy after_create deploy_d-CanDeploy refl
