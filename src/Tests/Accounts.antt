-- ===== src/Tests/Accounts.antt =====
-- Accounts and a context for the tests.
use solana_sdk_sample.Base.{
  ℕ, true, false, none, some, List, [], ◌∷◌, ◌++◌, ◌+◌, ◌==◌, if◌then◌else◌,
}
use solana_sdk_sample.Runtime.Outcome.{ok}
use solana_sdk_sample.Runtime.Account.{Account, Bytes, Cells, Pubkey, KeyedAccount, InvokeContext}
use solana_sdk_sample.State
use solana_sdk_sample.Tests.Codec.{encode}

abbrev account : ℕ → Bytes → Account
account lamports data_bytes = record {
  lamports = lamports;
  data_bytes = data_bytes;
  owner = 3;
  executable = false;
}

-- The cells: 0 a buffer of authority 7, 1 that authority, 2 a recipient, 3 an immutable program's
-- data, 4 the data of program 5 under authority 7, 5 that program, 6 an uninitialised account.
abbrev pub demo_cells : Cells
demo_cells c =
    if c == 0
    then account 60 (encode (State.buffer (some 7)) ++ (1 ∷ 2 ∷ 3 ∷ 4 ∷ []))
    else if c == 1
    then account 5 []
    else if c == 2
    then account 8 []
    else if c == 3
    then account 47 (encode (State.program_data 9 none) ++ (6 ∷ 6 ∷ []))
    else if c == 4
    then account 52 (encode (State.program_data 9 (some 7)) ++ (8 ∷ 8 ∷ 8 ∷ 8 ∷ 8 ∷ 8 ∷ []))
    else if c == 5
    then record {
      lamports = 36;
      data_bytes = encode (State.program 104);
      owner = 3;
      executable = true;
    }
    else account 40 (encode State.uninitialized ++ encode (State.program 0))

-- A keyed account in the cell `c`, under a key that is 100 more.
abbrev pub keyed : ℕ → KeyedAccount
keyed c = record { is_signer = false; is_writable = true; unsigned_key = 100 + c; cell = c }

abbrev pub authority : KeyedAccount
authority = record { is_signer = true; is_writable = false; unsigned_key = 7; cell = 1 }

abbrev pub sysvar : Pubkey → KeyedAccount
sysvar k = record { is_signer = false; is_writable = false; unsigned_key = k; cell = 7 }

abbrev pub demo_context : List KeyedAccount → InvokeContext
demo_context accounts = record {
  caller = ok 3;
  keyed_accounts = ok accounts;
  cells = demo_cells;
  is_feature_active = λ f. false;
  executors = λ k. none;
  compute_budget = record {
    max_call_depth = 20;
    stack_frame_size = 4096;
    heap_size = none;
    heap_cost = 8;
  };
  compute_remaining = 1000;
  invoke_depth = 1;
}

-- A keyed account for the loader stands before those of an instruction, which starts at 1.
abbrev pub loader : KeyedAccount
loader = record { is_signer = false; is_writable = false; unsigned_key = 3; cell = 8 }

abbrev pub buffer_accounts : List KeyedAccount
buffer_accounts = loader ∷ keyed 0 ∷ authority ∷ []

abbrev pub new_buffer_accounts : List KeyedAccount
new_buffer_accounts = loader ∷ keyed 6 ∷ authority ∷ []

abbrev pub close_accounts : List KeyedAccount
close_accounts = loader ∷ keyed 0 ∷ keyed 2 ∷ authority ∷ []

abbrev pub immutable_accounts : List KeyedAccount
immutable_accounts = loader ∷ keyed 0 ∷ keyed 3 ∷ authority ∷ []

abbrev pub set_authority_accounts : List KeyedAccount
set_authority_accounts = loader ∷ keyed 4 ∷ authority ∷ []

abbrev pub upgrade_accounts : List KeyedAccount
upgrade_accounts =
    loader ∷ keyed 4 ∷ keyed 5 ∷ keyed 0 ∷ keyed 2 ∷ sysvar 4 ∷ sysvar 5 ∷ authority ∷ []
