-- ===== src/Tests/ProcessExamples.antt =====
-- The theorem on calls of closed programs, at a concrete input.
use solana_sdk_sample.Base.{◌≡◌, refl, true, false, [], ◌∷◌, arith}
use solana_sdk_sample.Runtime.Outcome.{ok, err, invalid_account_data}
use solana_sdk_sample.Runtime.Account.{KeyedAccount, InvokeContext}
use solana_sdk_sample.State
use solana_sdk_sample.Loader.Process.{process_instruction_common}
use solana_sdk_sample.Loader.Process.Closed.{IsCall, process_instruction_common-closed}
use solana_sdk_sample.Tests.DemoSdk.{demo_sdk}
use solana_sdk_sample.Tests.Accounts.{keyed, demo_context}

-- The ProgramData account of program 105 is at 104, and is uninitialised.
abbrev programdata : KeyedAccount
programdata = record { is_signer = false; is_writable = true; unsigned_key = 104; cell = 6 }

abbrev at_call : InvokeContext
at_call = record (demo_context (programdata ∷ keyed 5 ∷ [])) { caller = ok 105 }

demo-IsCall : IsCall demo_sdk 0 105 programdata (keyed 5) at_call
demo-IsCall = record {
  accounts = programdata ∷ keyed 5 ∷ [];
  caller_is_program = refl;
  given_accounts = refl;
  at_first = refl;
  at_second = refl;
  program_key = refl;
  programdata_key = omega arith;
  executable = refl;
  owner = refl;
  points = refl;
}

process_instruction_common-closed_example :
    process_instruction_common demo_sdk 0 [] false at_call ≡ (err invalid_account_data, at_call)
process_instruction_common-closed_example =
    process_instruction_common-closed demo_sdk 0 105 programdata (keyed 5) [] false at_call
      State.uninitialized demo-IsCall refl refl
