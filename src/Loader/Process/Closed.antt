-- ===== src/Loader/Process/Closed.antt =====
-- A program whose ProgramData account is closed is not run.
use solana_sdk_sample.Base.{ℕ, ◌+◌, ◌≡◌, ◌≢◌, refl, ap, ◌∙◌, not, Bool, true, false, List, arith}
use solana_sdk_sample.Runtime.Outcome.{ok, err, fail_if, incorrect_program_id, invalid_account_data}
use solana_sdk_sample.Runtime.Account.{
  Pubkey, Bytes, KeyedAccount, InvokeContext, keyed_account_at_index,
}
use solana_sdk_sample.Runtime.Action.Steps.{read_step, lift_step, read_fails}
use solana_sdk_sample.Runtime.Sdk.{Sdk}
use solana_sdk_sample.State
use solana_sdk_sample.State.{UpgradeableLoaderState}
use solana_sdk_sample.Loader.Accounts.{state_of}
use solana_sdk_sample.Loader.Process.{
  process_instruction_common, select_program, invoke_program, check_loader_id, program_data_offset,
  upgradeable_offset,
}

abbrev pub is_program_data : UpgradeableLoaderState → Bool
is_program_data (State.program_data slot authority) = true
is_program_data _ = false

-- A program of the upgradeable loader is called, with its ProgramData account before it.
pub record IsCall (sdk : Sdk) (first : ℕ) (id : Pubkey) (programdata program : KeyedAccount)
    (c : InvokeContext) : Type 0 where
  pub accounts : List KeyedAccount
  pub caller_is_program : c.caller ≡ ok id
  pub given_accounts : c.keyed_accounts ≡ ok accounts
  pub at_first : keyed_account_at_index accounts first ≡ ok programdata
  pub at_second : keyed_account_at_index accounts (first + 1) ≡ ok program
  pub program_key : program.unsigned_key ≡ id
  pub programdata_key : programdata.unsigned_key ≢ id
  pub executable : (c.cells program.cell).executable ≡ true
  pub owner : (c.cells program.cell).owner ≡ sdk.bpf_loader_upgradeable_id
  pub points : state_of sdk program c ≡ ok (State.program programdata.unsigned_key)

pub selected :
    (sdk : Sdk) (first : ℕ) (id : Pubkey) (programdata program : KeyedAccount) (c : InvokeContext)
    (call : IsCall sdk first id programdata program c)
    → select_program sdk first id call.accounts programdata c ≡ ok (program, first + 1)
unfolding select_program
selected sdk first id programdata program c call =
    ground (arith, call.at_second, call.program_key, call.programdata_key)

refused :
    (sdk : Sdk) (first : ℕ) (id : Pubkey) (programdata program : KeyedAccount) (c : InvokeContext)
    (s : UpgradeableLoaderState)
    → IsCall sdk first id programdata program c
    → state_of sdk programdata c ≡ ok s
    → is_program_data s ≡ false
    → program_data_offset sdk program programdata c ≡ err invalid_account_data
unfolding program_data_offset upgradeable_offset
refused sdk first id programdata program c s call es closed =
    ground (arith, call.owner, call.points)

pub owner_passes :
    (sdk : Sdk) (owner : Pubkey)
    → owner ≡ sdk.bpf_loader_upgradeable_id
    → fail_if (not (check_loader_id sdk owner)) incorrect_program_id ≡ ok tt
unfolding check_loader_id
owner_passes sdk owner e = ground arith

-- A call of a program of the upgradeable loader, whose ProgramData account is in any other state than
-- ProgramData, as Close leaves it, fails with InvalidAccountData and changes nothing: neither a
-- cached executor nor a new one is run.
pub process_instruction_common-closed :
    (sdk : Sdk) (first : ℕ) (id : Pubkey) (programdata program : KeyedAccount)
    (instruction_data : Bytes) (jit : Bool) (c : InvokeContext) (s : UpgradeableLoaderState)
    → IsCall sdk first id programdata program c
    → state_of sdk programdata c ≡ ok s
    → is_program_data s ≡ false
    → process_instruction_common sdk first instruction_data jit c ≡ (err invalid_account_data, c)
unfolding process_instruction_common invoke_program
process_instruction_common-closed sdk first id programdata program instruction_data jit c s call es
      closed =
    read_step (λ d. d.caller) _ c id call.caller_is_program
    ∙ read_step (λ d. d.keyed_accounts) _ c call.accounts call.given_accounts
    ∙ lift_step _ _ c programdata call.at_first
    ∙ read_step _ _ c (program, first + 1) (selected sdk first id programdata program c call)
    ∙ read_step _ _ c true (ap ok call.executable)
    ∙ read_step _ _ c sdk.bpf_loader_upgradeable_id (ap ok call.owner)
    ∙ lift_step _ _ c tt (owner_passes sdk sdk.bpf_loader_upgradeable_id refl)
    ∙ read_fails _ _ c invalid_account_data
        (refused sdk first id programdata program c s call es closed)
