-- ===== src/Loader/Deploy.antt =====
-- scripts/ref/bpf_loader/src/lib.rs: the instruction DeployWithMaxDataLen, in the parts that the
-- source's comments name.
pub mod Commit
pub mod Laws
pub mod Recorded
pub mod Whole
pub mod Room
pub mod Possible
pub mod Success
use solana_sdk_sample.Base.{
  ℕ, ◌+◌, Bool, not, Option, none, some, List, [], ◌∷◌, ◌++◌, ◌==◌, ◌||◌, ltb, max, length,
  saturating_sub,
}
use solana_sdk_sample.Runtime.Outcome.{
  Outcome, ok, err, ◌>>=◌, ◌>>◌, fail_if, account_already_initialized, account_data_too_small,
  executable_account_not_rent_exempt, incorrect_authority, invalid_account_data, invalid_argument,
  missing_required_signature,
}
use solana_sdk_sample.Runtime.Account.{
  Pubkey, KeyedAccount, InvokeContext, BpfExecutor, keyed_account_at_index,
}
use solana_sdk_sample.Runtime.Sdk.{Sdk, Rent, Clock, Seed}
use solana_sdk_sample.Instruction.{AccountMeta, Call}
use solana_sdk_sample.State
use solana_sdk_sample.State.{
  UpgradeableLoaderState, buffer_data_offset, program_len, programdata_len, programdata_data_offset,
}
use solana_sdk_sample.Loader.Accounts.{is_key, state_of}
use solana_sdk_sample.Loader.Buffer.{is_uninitialized}

-- The accounts of the instruction, and the values of its two sysvars.
pub record DeployAccounts : Type 0 where
  pub payer : KeyedAccount
  pub programdata : KeyedAccount
  pub program : KeyedAccount
  pub buffer : KeyedAccount
  pub rent : Rent
  pub clock : Clock
  pub authority : KeyedAccount

-- What the checks on the lengths compute.
pub record Lengths : Type 0 where
  pub buffer_data_offset : ℕ
  pub buffer_data_len : ℕ
  pub programdata_data_offset : ℕ
  pub programdata_len : ℕ

-- The Buffer account of Deploy and Upgrade: its authority has to be the given account, and sign.
abbrev pub match_buffer_authority : UpgradeableLoaderState → KeyedAccount → Outcome (Unit {0})
match_buffer_authority (State.buffer authority_address) authority = do
  fail_if (not (is_key authority_address authority.unsigned_key)) incorrect_authority
  fail_if (not authority.is_signer) missing_required_signature
match_buffer_authority _ authority = err invalid_argument

abbrev pub data_len : KeyedAccount → InvokeContext → ℕ
data_len account c = length (c.cells account.cell).data_bytes

-- The Buffer account of Deploy and Upgrade holds at least one byte of program data.
abbrev pub check_buffer_size : ℕ → Outcome (Unit {0})
check_buffer_size len = do
  data_offset ← buffer_data_offset
  fail_if (ltb len data_offset || saturating_sub len data_offset == 0) invalid_account_data

abbrev pub lengths : KeyedAccount → ℕ → InvokeContext → Outcome Lengths
lengths buffer max_data_len c = do
  data_offset ← buffer_data_offset
  programdata_offset ← programdata_data_offset
  len ← programdata_len max_data_len
  ok (record {
    buffer_data_offset = data_offset;
    buffer_data_len = saturating_sub (data_len buffer c) data_offset;
    programdata_data_offset = programdata_offset;
    programdata_len = len;
  })

module _ (sdk : Sdk) where
  abbrev pub rent_of : List KeyedAccount → ℕ → InvokeContext → Outcome Rent
  rent_of keyed_accounts i c = do
    account ← keyed_account_at_index keyed_accounts i
    sdk.rent_from_keyed_account account.unsigned_key (c.cells account.cell).data_bytes

  abbrev pub clock_of : List KeyedAccount → ℕ → InvokeContext → Outcome Clock
  clock_of keyed_accounts i c = do
    account ← keyed_account_at_index keyed_accounts i
    sdk.clock_from_keyed_account account.unsigned_key (c.cells account.cell).data_bytes

  unfoldable pub deploy_accounts : List KeyedAccount → ℕ → InvokeContext → Outcome DeployAccounts
  deploy_accounts keyed_accounts first c = do
    payer ← keyed_account_at_index keyed_accounts first
    programdata ← keyed_account_at_index keyed_accounts (first + 1)
    program ← keyed_account_at_index keyed_accounts (first + 2)
    buffer ← keyed_account_at_index keyed_accounts (first + 3)
    rent ← rent_of keyed_accounts (first + 4) c
    clock ← clock_of keyed_accounts (first + 5) c
    authority ← keyed_account_at_index keyed_accounts (first + 7)
    ok (record {
      payer = payer;
      programdata = programdata;
      program = program;
      buffer = buffer;
      rent = rent;
      clock = clock;
      authority = authority;
    })

  -- "Verify Program account"
  unfoldable pub verify_program : DeployAccounts → InvokeContext → Outcome (Unit {0})
  verify_program d c = do
    state ← state_of sdk d.program c
    fail_if (not (is_uninitialized state)) account_already_initialized
    len ← program_len
    fail_if (ltb (data_len d.program c) len) account_data_too_small
    fail_if (ltb (c.cells d.program.cell).lamports (d.rent.minimum_balance (data_len d.program c)))
        executable_account_not_rent_exempt

  -- "Verify Buffer account"
  unfoldable pub verify_buffer : DeployAccounts → ℕ → InvokeContext → Outcome Lengths
  verify_buffer d max_data_len c = do
    state ← state_of sdk d.buffer c
    match_buffer_authority state d.authority
    l ← lengths d.buffer max_data_len c
    check_buffer_size (data_len d.buffer c)
    fail_if (ltb max_data_len l.buffer_data_len) account_data_too_small
    fail_if (ltb sdk.max_permitted_data_length l.programdata_len) invalid_argument
    ok l

  -- The bump seed of the ProgramData account's address, if that is the given account's key.
  unfoldable pub derive_bump : DeployAccounts → Pubkey → Outcome ℕ
  derive_bump d program_id =
      let (derived_address, bump_seed) =
        sdk.find_program_address (Seed.key d.program.unsigned_key ∷ []) program_id in
      fail_if (not (derived_address == d.programdata.unsigned_key)) invalid_argument >> ok bump_seed

  -- The system program's instruction that creates the ProgramData account, with the buffer as an
  -- extra account.
  unfoldable pub create_instruction : DeployAccounts → ℕ → Pubkey → Call
  create_instruction d programdata_len program_id =
      let call =
        sdk.create_account d.payer.unsigned_key d.programdata.unsigned_key
          (max 1 (d.rent.minimum_balance programdata_len)) programdata_len program_id in
      let extra : AccountMeta = record {
        pubkey = d.buffer.unsigned_key;
        is_signer = Bool.false;
        is_writable = Bool.true;
      } in
      record call { accounts = call.accounts ++ extra ∷ [] }
