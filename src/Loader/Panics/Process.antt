-- ===== src/Loader/Panics/Process.antt =====
-- An instruction of the upgradeable loader does not panic.
use solana_sdk_sample.Base.{ℕ, ◌≡◌, ◌≢◌, refl, sym, subst, Bool, true, false, List}
use solana_sdk_sample.Runtime.Outcome.{Outcome, ok, panic}
use solana_sdk_sample.Runtime.Account.{Bytes, Pubkey, KeyedAccount, InvokeContext}
use solana_sdk_sample.Runtime.Action.{lift}
use solana_sdk_sample.Runtime.Action.Calm.{Calm-not_panic}
use solana_sdk_sample.Runtime.Sdk.{Sdk}
use solana_sdk_sample.Runtime.Sdk.Laws.{IsStateCodec}
use solana_sdk_sample.Instruction
use solana_sdk_sample.Instruction.{UpgradeableLoaderInstruction}
use solana_sdk_sample.Loader.Process.{run_upgradeable, process_loader_upgradeable_instruction}
use solana_sdk_sample.Loader.Process.Runs.{process-runs}
use solana_sdk_sample.Loader.Panics.{
  IsTotal, Calm-initialize_buffer, Calm-write, Calm-set_authority, Calm-close,
}
use solana_sdk_sample.Loader.Panics.Upgrade.{Small, Addressable}
use solana_sdk_sample.Loader.Panics.Whole.{Calm-upgrade}

-- DeployWithMaxDataLen, the one instruction that makes an account.
abbrev pub is_deploy : UpgradeableLoaderInstruction → Bool
is_deploy (Instruction.deploy_with_max_data_len n) = true
is_deploy _ = false

run_upgradeable-returns :
    (sdk : Sdk) (total : IsTotal sdk) (codec : IsStateCodec sdk) (accounts : List KeyedAccount)
    (c : InvokeContext) (given : c.keyed_accounts ≡ ok accounts) (small : Small c)
    (addressable : Addressable c) (i : UpgradeableLoaderInstruction) (first : ℕ) (id : Pubkey)
    (jit : Bool)
    → is_deploy i ≡ false
    → (run_upgradeable sdk i accounts first id jit c).0 ≢ panic
unfolding run_upgradeable lift
run_upgradeable-returns sdk total codec accounts c given small addressable
      Instruction.initialize_buffer first id jit other =
    Calm-not_panic _ c (Calm-initialize_buffer sdk total accounts first) given
run_upgradeable-returns sdk total codec accounts c given small addressable
      (UpgradeableLoaderInstruction.write offset bytes) first id jit other =
    Calm-not_panic _ c (Calm-write sdk total accounts first offset bytes) given
run_upgradeable-returns sdk total codec accounts c given small addressable
      (Instruction.deploy_with_max_data_len n) first id jit other =
    cc
run_upgradeable-returns sdk total codec accounts c given small addressable Instruction.upgrade first
      id jit other =
    Calm-not_panic _ c
      (Calm-upgrade sdk total codec accounts c given small addressable first id jit) refl
run_upgradeable-returns sdk total codec accounts c given small addressable Instruction.set_authority
      first id jit other =
    Calm-not_panic _ c (Calm-set_authority sdk total accounts first) given
run_upgradeable-returns sdk total codec accounts c given small addressable Instruction.close first
      id jit other =
    Calm-not_panic _ c (Calm-close sdk total accounts first id) given
run_upgradeable-returns sdk total codec accounts c given small addressable
      (Instruction.extend_program n) first id jit other =
    λ e. cc
run_upgradeable-returns sdk total codec accounts c given small addressable
      Instruction.set_authority_checked first id jit other =
    λ e. cc

-- No instruction of the upgradeable loader but DeployWithMaxDataLen panics, whatever the accounts, their
-- data and the instruction's fields are: no slice is out of range and no addition overflows. Each
-- account has less than 2 ^ 63 lamports and less than 2 ^ 63 bytes of data, and the SDK's functions
-- return.
pub process-returns :
    (sdk : Sdk) (accounts : List KeyedAccount) (first : ℕ) (instruction_data : Bytes) (jit : Bool)
    (id : Pubkey) (i : UpgradeableLoaderInstruction) (c : InvokeContext)
    → IsTotal sdk
    → IsStateCodec sdk
    → c.caller ≡ ok id
    → c.keyed_accounts ≡ ok accounts
    → sdk.deserialize_upgradeable instruction_data ≡ ok i
    → is_deploy i ≡ false
    → Small c
    → Addressable c
    → (process_loader_upgradeable_instruction sdk first instruction_data jit c).0 ≢ panic
process-returns sdk accounts first instruction_data jit id i c total codec ec ea ei other small
      addressable =
    subst (λ (r : Outcome (Unit {0}) × InvokeContext). r.0 ≢ panic)
      (sym (process-runs sdk i instruction_data id accounts first jit c ei ec ea))
      (run_upgradeable-returns sdk total codec accounts c ea small addressable i first id jit other)
