-- ===== src/Tests/Examples.antt =====
-- The theorems on the loader and on the instruction builders, at concrete inputs.
use solana_sdk_sample.Base.{
  ℕ, ◌≤◌, length, ◌==◌, if◌then◌else◌, ◌≡◌, ◌≢◌, ◌↔◌, refl, false, some, none, [], ◌∷◌, arith,
  splice,
}
use solana_sdk_sample.Runtime.Outcome.{Outcome, ok}
use solana_sdk_sample.Runtime.Account.{Pubkey, InvokeContext}
use solana_sdk_sample.Runtime.Action
use solana_sdk_sample.State
use solana_sdk_sample.Instruction.{Call, UpgradeableLoaderInstruction}
use solana_sdk_sample.Builders
use solana_sdk_sample.Runtime.Invoke.{resolve}
use solana_sdk_sample.Builders.Process.{IsInvoked, process-write}
use solana_sdk_sample.Builders.Laws.{IsClassified, serialize-IsClassified}
use solana_sdk_sample.Loader.Buffer.{write}
use solana_sdk_sample.Loader.Buffer.Laws.{
  MayWrite, Written, write-Written, write_iff, write_fails_unchanged,
}
use solana_sdk_sample.Loader.Buffer.Upload
use solana_sdk_sample.Loader.Buffer.Upload.{Uploads-Written}
use solana_sdk_sample.Loader.Buffer.Initialize.{Initialized, initialize_buffer-Initialized}
use solana_sdk_sample.Loader.Authority.{set_authority}
use solana_sdk_sample.Loader.Authority.Laws.{ReplacedBy, set_authority-Replaced}
use solana_sdk_sample.Loader.Close.{close}
use solana_sdk_sample.Loader.Close.Laws.{Closed, Authorized, close-Closed}
use solana_sdk_sample.Loader.Upgrade.Commit.{upgrade, record_upgrade, fund_programdata}
use solana_sdk_sample.Loader.Upgrade
use solana_sdk_sample.Loader.Upgrade.{verify_program, verify_buffer, verify_programdata}
use solana_sdk_sample.Loader.Executor.{create_executor}
use solana_sdk_sample.Loader.Deploy.Commit.{add_executor, copy_program}
use solana_sdk_sample.Loader.Upgrade.Whole.{Upgraded, upgrade-Upgraded}
use solana_sdk_sample.Loader.Process.{run_upgradeable, process_loader_upgradeable_instruction}
use solana_sdk_sample.Loader.Lamports.{total, AllBelow}
use solana_sdk_sample.Loader.Lamports.Process.{total-process_loader_upgradeable_instruction}
use solana_sdk_sample.Loader.Frozen.{Preserved}
use solana_sdk_sample.Loader.Frozen.Process.{next, here, Runs-Preserved}
use solana_sdk_sample.Tests.DemoSdk.{
  demo_sdk, demo_sdk-IsCheckedAdd, demo_sdk-IsStateCodec, demo_sdk-IsTagged, demo_sdk-IsBalanced,
  demo_sdk-IsCreateAccount, demo_sdk-IsInstructionCodec,
}
use solana_sdk_sample.Tests.Accounts.{
  keyed, loader, demo_cells, authority, demo_context, buffer_accounts, new_buffer_accounts,
  close_accounts, immutable_accounts, set_authority_accounts, upgrade_accounts,
}

-- A run that succeeds, with the context that it leaves.
succeeded : (r : Outcome (Unit {0}) × InvokeContext) → r.0 ≡ ok tt → r ≡ (ok tt, r.1)
succeeded r e = λ i. (e i, r.1)

abbrev at_buffer : InvokeContext
at_buffer = demo_context buffer_accounts

abbrev write_run : Outcome (Unit {0}) × InvokeContext
write_run = write demo_sdk buffer_accounts 1 1 (9 ∷ 9 ∷ []) at_buffer

write_run-ok : write_run.0 ≡ ok tt
unfolding write Action.◌>>=◌
write_run-ok = refl

write-Written_example : Written demo_sdk 38 (9 ∷ 9 ∷ []) 0 at_buffer write_run.1
write-Written_example =
    write-Written demo_sdk buffer_accounts 1 1 (9 ∷ 9 ∷ []) at_buffer write_run.1 (keyed 0)
      authority demo_sdk-IsStateCodec refl refl refl (succeeded write_run write_run-ok)

write_iff_example : (write_run.0 ≡ ok tt) ↔ MayWrite demo_sdk at_buffer (keyed 0) authority 40
write_iff_example =
    write_iff demo_sdk buffer_accounts 1 1 (9 ∷ 9 ∷ []) at_buffer (keyed 0) authority refl refl refl

-- Three bytes at offset 2 do not fit.
abbrev long_run : Outcome (Unit {0}) × InvokeContext
long_run = write demo_sdk buffer_accounts 1 2 (9 ∷ 9 ∷ 9 ∷ []) at_buffer

long_run-fails : long_run.0 ≢ ok tt
unfolding write Action.◌>>=◌
long_run-fails e = cc

write_fails_unchanged_example : long_run.1 ≡ at_buffer
write_fails_unchanged_example =
    write_fails_unchanged demo_sdk buffer_accounts 1 2 (9 ∷ 9 ∷ 9 ∷ []) at_buffer (keyed 0)
      authority refl refl refl long_run-fails

initialize_buffer-Initialized_example :
    Initialized demo_sdk new_buffer_accounts 1
      (keyed 6)
      authority
      (demo_context new_buffer_accounts)
initialize_buffer-Initialized_example =
    initialize_buffer-Initialized demo_sdk new_buffer_accounts 1 (demo_context new_buffer_accounts)
      (keyed 6) authority demo_sdk-IsStateCodec refl refl refl (omega arith)

-- The upgrade authority is given up.
abbrev set_authority_run : Outcome (Unit {0}) × InvokeContext
set_authority_run =
    set_authority demo_sdk set_authority_accounts 1 (demo_context set_authority_accounts)

set_authority_run-ok : set_authority_run.0 ≡ ok tt
unfolding set_authority Action.◌>>=◌
set_authority_run-ok = refl

set_authority-Replaced_example :
    ReplacedBy demo_sdk set_authority_accounts 1
      (keyed 4)
      authority
      (demo_context set_authority_accounts)
      set_authority_run.1
set_authority-Replaced_example =
    set_authority-Replaced demo_sdk set_authority_accounts 1 (demo_context set_authority_accounts)
      set_authority_run.1 (keyed 4) authority demo_sdk-IsStateCodec refl refl
      (succeeded set_authority_run set_authority_run-ok)

abbrev at_close : InvokeContext
at_close = demo_context close_accounts

abbrev close_run : Outcome (Unit {0}) × InvokeContext
close_run = close demo_sdk close_accounts 1 3 at_close

close_run-ok : close_run.0 ≡ ok tt
unfolding close Action.◌>>=◌
close_run-ok = refl

close-Closed_example :
    Closed demo_sdk (keyed 0) (keyed 2) at_close close_run.1
    × Authorized (State.buffer (some 7)) close_accounts 3
close-Closed_example =
    close-Closed demo_sdk close_accounts 1 3 at_close close_run.1 (keyed 0) (keyed 2)
      (State.buffer (some 7)) demo_sdk-IsCheckedAdd demo_sdk-IsStateCodec refl refl refl
      (succeeded close_run close_run-ok)

abbrev at_upgrade : InvokeContext
at_upgrade = demo_context upgrade_accounts

abbrev upgrade_run : Outcome (Unit {0}) × InvokeContext
upgrade_run = upgrade demo_sdk upgrade_accounts 1 3 false at_upgrade

upgrade_run-ok : upgrade_run.0 ≡ ok tt
unfolding Action.◌>>=◌ upgrade Upgrade.upgrade_accounts verify_program verify_buffer
    verify_programdata create_executor add_executor record_upgrade copy_program splice
    fund_programdata
upgrade_run-ok = refl

upgrade-Upgraded_example : Upgraded demo_sdk upgrade_accounts 1 3 at_upgrade upgrade_run.1
upgrade-Upgraded_example =
    upgrade-Upgraded demo_sdk upgrade_accounts 1 3 false at_upgrade upgrade_run.1
      demo_sdk-IsStateCodec refl (succeeded upgrade_run upgrade_run-ok)

-- The instruction Upgrade, by its serialised form.
abbrev process_run : Outcome (Unit {0}) × InvokeContext
process_run = process_loader_upgradeable_instruction demo_sdk 1 (3 ∷ []) false at_upgrade

process_run-ok : process_run.0 ≡ ok tt
unfolding process_loader_upgradeable_instruction run_upgradeable Action.◌>>=◌ upgrade
    Upgrade.upgrade_accounts verify_program verify_buffer verify_programdata create_executor
    add_executor record_upgrade copy_program splice fund_programdata
process_run-ok = refl

all_below : AllBelow 9 upgrade_accounts
all_below = (
  omega arith,
  (
    omega arith,
    (omega arith, (omega arith, (omega arith, (omega arith, (omega arith, (omega arith, tt)))))),
  ),
)

total-process_loader_upgradeable_instruction_example :
    total 9 process_run.1.cells ≡ total 9 at_upgrade.cells
total-process_loader_upgradeable_instruction_example =
    total-process_loader_upgradeable_instruction 9 upgrade_accounts demo_sdk 1 (3 ∷ []) false
      at_upgrade process_run.1 demo_sdk-IsCheckedAdd demo_sdk-IsBalanced refl all_below
      (succeeded process_run process_run-ok)

-- The buffer is closed, and its lamports go to the immutable account.
abbrev at_immutable : InvokeContext
at_immutable = demo_context immutable_accounts

abbrev immutable_run : Outcome (Unit {0}) × InvokeContext
immutable_run = process_loader_upgradeable_instruction demo_sdk 1 (5 ∷ []) false at_immutable

immutable_run-ok : immutable_run.0 ≡ ok tt
unfolding process_loader_upgradeable_instruction run_upgradeable close Action.◌>>=◌
immutable_run-ok = refl

Runs-Preserved_example : Preserved (at_immutable.cells 3) (immutable_run.1.cells 3)
Runs-Preserved_example =
    Runs-Preserved demo_sdk 3 (State.program_data 9 none) at_immutable immutable_run.1
      demo_sdk-IsCheckedAdd demo_sdk-IsStateCodec demo_sdk-IsCreateAccount refl refl
      (next here immutable_accounts at_immutable 1 (5 ∷ []) false refl refl
        (succeeded immutable_run immutable_run-ok))

serialize-IsClassified_example :
    IsClassified
      (UpgradeableLoaderInstruction.write 3 (4 ∷ []))
      (demo_sdk.serialize_upgradeable (UpgradeableLoaderInstruction.write 3 (4 ∷ [])))
serialize-IsClassified_example =
    serialize-IsClassified demo_sdk (UpgradeableLoaderInstruction.write 3 (4 ∷ []))
      demo_sdk-IsTagged

-- Two chunks of two bytes.
abbrev first_chunk : Outcome (Unit {0}) × InvokeContext
first_chunk = write demo_sdk buffer_accounts 1 0 (9 ∷ 8 ∷ []) at_buffer

abbrev at_second : InvokeContext
at_second = record at_buffer { cells = first_chunk.1.cells }

abbrev second_chunk : Outcome (Unit {0}) × InvokeContext
second_chunk = write demo_sdk buffer_accounts 1 2 (7 ∷ 6 ∷ []) at_second

chunks-ok : (first_chunk.0 ≡ ok tt) × (second_chunk.0 ≡ ok tt)
unfolding write Action.◌>>=◌ splice
chunks-ok = (refl, refl)

Uploads-Written_example : Written demo_sdk 37 (9 ∷ 8 ∷ 7 ∷ 6 ∷ []) 0 at_buffer second_chunk.1
Uploads-Written_example =
    Uploads-Written demo_sdk buffer_accounts 1 (keyed 0) authority second_chunk.1 0
      ((9 ∷ 8 ∷ []) ∷ (7 ∷ 6 ∷ []) ∷ []) at_buffer demo_sdk-IsStateCodec refl refl
      (Upload.next at_buffer refl refl (succeeded first_chunk chunks-ok.0)
        (Upload.next at_second refl refl (succeeded second_chunk chunks-ok.1) Upload.done))

-- The builder's instruction on the same buffer, whose address is 100.
abbrev cell_of : Pubkey → ℕ
cell_of k = if k == 7 then 1 else 0

abbrev call : Call
call = Builders.write demo_sdk 100 7 2 (5 ∷ [])

abbrev at_call : InvokeContext
at_call = demo_context (loader ∷ resolve cell_of call.accounts)

call-IsInvoked : IsInvoked demo_sdk cell_of call loader at_call
unfolding Builders.write
call-IsInvoked = record { caller_is_program = refl; given_accounts = refl }

process-write_example :
    ((process_loader_upgradeable_instruction demo_sdk 1 call.data_bytes false at_call).0 ≡ ok tt)
    ↔ ((demo_sdk.state (demo_cells 0).data_bytes ≡ ok (State.buffer (some 7)))
        × (40 ≤ length (demo_cells 0).data_bytes))
unfolding Builders.write
process-write_example =
    process-write demo_sdk cell_of 100 7 2 (5 ∷ []) loader false at_call demo_sdk-IsInstructionCodec
      (omega arith) call-IsInvoked
