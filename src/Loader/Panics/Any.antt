-- ===== src/Loader/Panics/Any.antt =====
-- No instruction of the upgradeable loader panics, DeployWithMaxDataLen included.
use solana_sdk_sample.Base.{ℕ, ◌≡◌, ◌≢◌, refl, sym, subst, Bool, List}
use solana_sdk_sample.Runtime.Outcome.{Outcome, ok, panic}
use solana_sdk_sample.Runtime.Account.{Bytes, Pubkey, KeyedAccount, InvokeContext}
use solana_sdk_sample.Runtime.Action.Calm.{Calm-not_panic}
use solana_sdk_sample.Runtime.Sdk.{Sdk}
use solana_sdk_sample.Runtime.Sdk.Laws.{IsStateCodec}
use solana_sdk_sample.Instruction
use solana_sdk_sample.Instruction.{UpgradeableLoaderInstruction}
use solana_sdk_sample.Loader.Process.{run_upgradeable, process_loader_upgradeable_instruction}
use solana_sdk_sample.Loader.Process.Runs.{process-runs}
use solana_sdk_sample.Loader.Frozen.{IsCreateAccount}
use solana_sdk_sample.Loader.Panics.{IsTotal}
use solana_sdk_sample.Loader.Panics.Upgrade.{Small, Addressable}
use solana_sdk_sample.Loader.Panics.Process.{process-returns}
use solana_sdk_sample.Loader.Panics.Deploy.{OneCell, MakesSpace, Calm-deploy}

-- No instruction of the upgradeable loader panics, DeployWithMaxDataLen included, whatever the
-- accounts, their data and the instruction's fields are. Each account has less than 2 ^ 63 lamports and
-- less than 2 ^ 63 bytes of data, keyed accounts under one key are one account, the SDK's functions
-- return, and the system program's CreateAccount leaves accounts with data alone and makes an account
-- of the length that it is asked for.
pub process_any-returns :
    (sdk : Sdk) (accounts : List KeyedAccount) (first : ℕ) (instruction_data : Bytes) (jit : Bool)
    (id : Pubkey) (i : UpgradeableLoaderInstruction) (c : InvokeContext)
    → IsTotal sdk
    → IsStateCodec sdk
    → IsCreateAccount sdk
    → MakesSpace sdk
    → OneCell accounts
    → c.caller ≡ ok id
    → c.keyed_accounts ≡ ok accounts
    → sdk.deserialize_upgradeable instruction_data ≡ ok i
    → Small c
    → Addressable c
    → (process_loader_upgradeable_instruction sdk first instruction_data jit c).0 ≢ panic
unfolding run_upgradeable
process_any-returns sdk accounts first instruction_data jit id
      (Instruction.deploy_with_max_data_len n) c total codec create space one ec ea ei small
      addressable =
    subst (λ (r : Outcome (Unit {0}) × InvokeContext). r.0 ≢ panic)
      (sym (
        process-runs sdk (Instruction.deploy_with_max_data_len n) instruction_data id accounts first
          jit c ei ec ea))
      (Calm-not_panic _ c
        (Calm-deploy sdk total codec create space accounts one first c id ec ea addressable n jit)
        refl)
process_any-returns sdk accounts first instruction_data jit id Instruction.initialize_buffer c total
      codec create space one ec ea ei small addressable =
    process-returns sdk accounts first instruction_data jit id Instruction.initialize_buffer c total
      codec ec ea ei refl small addressable
process_any-returns sdk accounts first instruction_data jit id
      (UpgradeableLoaderInstruction.write offset bytes) c total codec create space one ec ea ei
      small addressable =
    process-returns sdk accounts first instruction_data jit id
      (UpgradeableLoaderInstruction.write offset bytes) c total codec ec ea ei refl small
      addressable
process_any-returns sdk accounts first instruction_data jit id Instruction.upgrade c total codec
      create space one ec ea ei small addressable =
    process-returns sdk accounts first instruction_data jit id Instruction.upgrade c total codec ec
      ea ei refl small addressable
process_any-returns sdk accounts first instruction_data jit id Instruction.set_authority c total
      codec create space one ec ea ei small addressable =
    process-returns sdk accounts first instruction_data jit id Instruction.set_authority c total
      codec ec ea ei refl small addressable
process_any-returns sdk accounts first instruction_data jit id Instruction.close c total codec
      create space one ec ea ei small addressable =
    process-returns sdk accounts first instruction_data jit id Instruction.close c total codec ec ea
      ei refl small addressable
process_any-returns sdk accounts first instruction_data jit id (Instruction.extend_program n) c
      total codec create space one ec ea ei small addressable =
    process-returns sdk accounts first instruction_data jit id (Instruction.extend_program n) c
      total codec ec ea ei refl small addressable
process_any-returns sdk accounts first instruction_data jit id Instruction.set_authority_checked c
      total codec create space one ec ea ei small addressable =
    process-returns sdk accounts first instruction_data jit id Instruction.set_authority_checked c
      total codec ec ea ei refl small addressable
