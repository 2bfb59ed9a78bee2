-- ===== src/Loader/Process/Runs.antt =====
-- One instruction of the upgradeable loader, once its data is read.
use solana_sdk_sample.Base.{ℕ, ◌≡◌, Bool, List}
use solana_sdk_sample.Runtime.Outcome.{ok}
use solana_sdk_sample.Runtime.Account.{Pubkey, Bytes, KeyedAccount, InvokeContext}
use solana_sdk_sample.Runtime.Action.{◌>>=◌}
use solana_sdk_sample.Runtime.Sdk.{Sdk}
use solana_sdk_sample.Instruction.{UpgradeableLoaderInstruction}
use solana_sdk_sample.Loader.Process.{process_loader_upgradeable_instruction, run_upgradeable}

pub process-runs :
    (sdk : Sdk) (i : UpgradeableLoaderInstruction) (instruction_data : Bytes) (id : Pubkey)
    (accounts : List KeyedAccount) (first : ℕ) (jit : Bool) (c : InvokeContext)
    → sdk.deserialize_upgradeable instruction_data ≡ ok i
    → c.caller ≡ ok id
    → c.keyed_accounts ≡ ok accounts
    → process_loader_upgradeable_instruction sdk first instruction_data jit c
      ≡ run_upgradeable sdk i accounts first id jit c
unfolding process_loader_upgradeable_instruction ◌>>=◌
process-runs sdk i instruction_data id accounts first jit c ei ec ea = rw (ec, ea, ei)
