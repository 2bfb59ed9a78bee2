-- ===== src/Tests/ShipExamples.antt =====
-- A whole deployment at a concrete input.
use solana_sdk_sample.Base.{
  ℕ, ◌≡◌, refl, false, Option, none, some, true, ◌++◌, ◌∷◌, [], arith, ◌==◌, replicate,
  if◌then◌else◌, splice,
}
use solana_sdk_sample.Runtime.Account.{Account, Bytes, update, Cells, InvokeContext}
use mathlib.Core.Option
use solana_sdk_sample.Runtime.Action.{◌>>=◌}
use solana_sdk_sample.Loader.Process.{process_loader_upgradeable_instruction, run_upgradeable}
use solana_sdk_sample.State
use solana_sdk_sample.Tests.Codec.{encode}
use solana_sdk_sample.Runtime.Outcome.{ok}
use solana_sdk_sample.Runtime.Invoke.{resolve}
use solana_sdk_sample.Loader.Buffer.{initialize_buffer, write, write_program_data}
use solana_sdk_sample.Loader.Accounts.{check_authority}
use solana_sdk_sample.Loader.Close.{drain}
use solana_sdk_sample.Loader.Executor.{create_executor}
use solana_sdk_sample.Loader.Deploy.{
  deploy_accounts, verify_program, verify_buffer, derive_bump, create_instruction,
}
use solana_sdk_sample.Loader.Deploy.Commit.{
  create_programdata, record_program, copy_program, add_executor, deploy,
}
use solana_sdk_sample.Loader.Frozen.{IsCreateAccount}
use solana_sdk_sample.Tests.DemoSdk.{demo_sdk-IsCreateAccount}
use solana_sdk_sample.Client.Layout.{layout_write, layout_deploy_with_max_data_len}
use solana_sdk_sample.Tests.System.{run_create}
use solana_sdk_sample.Client.{
  calculate_optimal_chunk_size, upload_from, write_chunk, send_chunk, retry,
  encode_write_instruction, encode_deploy_with_max_data_len_instruction, deploy_instruction,
}
use solana_sdk_sample.Instruction.{Call}
use solana_sdk_sample.Client.{
  initialize, wait_confirmed, initialize_buffer_instruction, send_once, send_and_confirm, landed,
  upload, buffer_size, write_instruction, deploy_program,
}
use solana_sdk_sample.Client.Deploy.{Shipped, deploy_program-Shipped}
use solana_sdk_sample.Tests.Accounts.{demo_context, loader}
use solana_sdk_sample.Tests.ClientExamples.{
  client_sdk, client_sdk-IsBincode, client_sdk-IsStateCodec, second_lands, second_lands-IsHonest,
  cell_of, short_program,
}

abbrev account : ℕ → ℕ → Account
account lamports size = record {
  lamports = lamports;
  data_bytes = replicate size 0;
  owner = 3;
  executable = false;
}

-- A payer in cell 7, an uninitialised buffer in cell 30 and the program's account in cell 31.
abbrev ship_cells : Cells
ship_cells c =
    if c == 30
    then account 1024 1024
    else if c == 31
    then account 44 44
    else if c == 7
    then account 5000 0
    else account 0 0

abbrev ship_context : InvokeContext
ship_context = record (demo_context []) { cells = ship_cells }

-- The context that an instruction of the client leaves, with the given data in the buffer account.
abbrev buffer_with : Call → Bytes → InvokeContext → InvokeContext
buffer_with call d c = record c {
  keyed_accounts = ok (loader ∷ resolve cell_of call.accounts);
  cells = update c.cells 30 (record (account 1024 1024) { data_bytes = d });
}

abbrev initialize_call : Call
initialize_call = initialize_buffer_instruction client_sdk cell_of loader false 30 7

abbrev initialized : InvokeContext
initialized =
    buffer_with initialize_call (encode (State.buffer (some 7)) ++ replicate 987 0) ship_context

initializes :
    initialize client_sdk cell_of loader false 30 7 (landed true false) ship_context
    ≡ some initialized
unfolding initialize wait_confirmed send_and_confirm initialize_buffer_instruction
    process_loader_upgradeable_instruction run_upgradeable ◌>>=◌ initialize_buffer
initializes = refl

abbrev uploaded : InvokeContext
uploaded =
    buffer_with (write_instruction client_sdk cell_of loader false 30 7 0 short_program)
      (encode (State.buffer (some 7)) ++ short_program ++ replicate 984 0) initialized

uploads :
    upload client_sdk cell_of loader false 30 7 second_lands short_program initialized
    ≡ some uploaded
unfolding upload calculate_optimal_chunk_size upload_from write_chunk send_chunk retry
    wait_confirmed send_and_confirm write_instruction encode_write_instruction layout_write
    layout_deploy_with_max_data_len process_loader_upgradeable_instruction run_upgradeable ◌>>=◌
    write write_program_data splice check_authority Option.bind
uploads = refl

abbrev ship : Call
ship = deploy_instruction client_sdk cell_of loader false 30 7 31 1024

abbrev or_else : Option InvokeContext → InvokeContext
or_else none = ship_context
or_else (some e) = e

abbrev shipped : InvokeContext
shipped = or_else (send_once client_sdk cell_of loader false 30 7 (landed true false) ship uploaded)

ships :
    send_once client_sdk cell_of loader false 30 7 (landed true false) ship uploaded ≡ some shipped
unfolding send_once send_and_confirm deploy_instruction encode_deploy_with_max_data_len_instruction
    layout_deploy_with_max_data_len process_loader_upgradeable_instruction run_upgradeable ◌>>=◌
    deploy deploy_accounts verify_program verify_buffer derive_bump create_programdata run_create
    create_instruction create_executor add_executor record_program copy_program drain splice
ships = refl

whole :
    deploy_program client_sdk cell_of loader false 30 7 31 second_lands short_program ship_context
    ≡ some shipped
unfolding deploy_program buffer_size
whole =
    (Option.bind-eq-some_iff
        (initialize client_sdk cell_of loader false 30 7 (landed true false) ship_context) _).1
      (
        initialized,
        initializes,
        (Option.bind-eq-some_iff
              (upload client_sdk cell_of loader false 30 7 second_lands short_program initialized)
              _).1
            (uploaded, uploads, ships),
      )

client_sdk-IsCreateAccount : IsCreateAccount client_sdk
unfolding create_instruction
client_sdk-IsCreateAccount = record {
  keeps_data = demo_sdk-IsCreateAccount.keeps_data;
  new_has_no_data = demo_sdk-IsCreateAccount.new_has_no_data;
  keeps_accounts = demo_sdk-IsCreateAccount.keeps_accounts;
}

deploy_program-Shipped_example : Shipped client_sdk cell_of 7 31 101 short_program shipped
deploy_program-Shipped_example =
    deploy_program-Shipped client_sdk cell_of loader false 30 7 31 second_lands short_program
      ship_context shipped client_sdk-IsStateCodec client_sdk-IsBincode client_sdk-IsCreateAccount
      (omega arith) second_lands-IsHonest refl whole
