-- ===== src/Loader/Frozen/Process.antt =====
-- A whole instruction, and any sequence of instructions, on a fixed account.
use solana_sdk_sample.Base.{ℕ, ◌≡◌, refl, sym, subst, Bool, true, List, arith}
use solana_sdk_sample.Runtime.Outcome.{ok}
use solana_sdk_sample.Runtime.Account.{Account, Bytes, Pubkey, KeyedAccount, InvokeContext}
use solana_sdk_sample.Runtime.Action.Triple.{
  Keeps, Triple-lift, Triple-reads_bind, Triple-lift_bind, after_ok,
}
use solana_sdk_sample.Runtime.Sdk.{Sdk}
use solana_sdk_sample.Runtime.Sdk.Laws.{IsCheckedAdd, IsStateCodec}
use solana_sdk_sample.Instruction
use solana_sdk_sample.Instruction.{UpgradeableLoaderInstruction}
use solana_sdk_sample.State.{UpgradeableLoaderState}
use solana_sdk_sample.Loader.Process.{run_upgradeable, process_loader_upgradeable_instruction}
use solana_sdk_sample.Loader.Frozen.{is_fixed, Preserved, IsCreateAccount}
use solana_sdk_sample.Loader.Frozen.Steps.{Frozen}
use solana_sdk_sample.Loader.Frozen.Handlers.{
  Frozen-initialize_buffer, Frozen-write, Frozen-set_authority, Frozen-close,
}
use solana_sdk_sample.Loader.Frozen.Commits.{Frozen-upgrade}
use solana_sdk_sample.Loader.Frozen.Deploy.{Frozen-deploy}

module _ (x : ℕ) (before : Account) (accounts : List KeyedAccount) (sdk : Sdk)
    (law : IsCheckedAdd sdk) (codec : IsStateCodec sdk) (create : IsCreateAccount sdk)
    (s : UpgradeableLoaderState) (es : sdk.state before.data_bytes ≡ ok s)
    (frozen : is_fixed s ≡ true) where
  abbrev P : InvokeContext → Type 0
  P = Frozen x before accounts

  Frozen-run_upgradeable :
      (i : UpgradeableLoaderInstruction) (first : ℕ) (id : Pubkey) (jit : Bool)
      → Keeps P (run_upgradeable sdk i accounts first id jit)
  unfolding run_upgradeable
  Frozen-run_upgradeable Instruction.initialize_buffer first id jit =
      Frozen-initialize_buffer x before accounts sdk law s es frozen first
  Frozen-run_upgradeable (UpgradeableLoaderInstruction.write offset bytes) first id jit =
      Frozen-write x before accounts sdk law s es frozen first offset bytes
  Frozen-run_upgradeable (Instruction.deploy_with_max_data_len n) first id jit =
      Frozen-deploy x before accounts sdk law codec create s es frozen first id n jit
  Frozen-run_upgradeable Instruction.upgrade first id jit =
      Frozen-upgrade x before accounts sdk law s es frozen first id jit
  Frozen-run_upgradeable Instruction.set_authority first id jit =
      Frozen-set_authority x before accounts sdk law s es frozen first
  Frozen-run_upgradeable Instruction.close first id jit =
      Frozen-close x before accounts sdk law s es frozen first id
  Frozen-run_upgradeable (Instruction.extend_program n) first id jit = Triple-lift _
  Frozen-run_upgradeable Instruction.set_authority_checked first id jit = Triple-lift _

  pub Frozen-process :
      (first : ℕ) (instruction_data : Bytes) (jit : Bool)
      → Keeps P (process_loader_upgradeable_instruction sdk first instruction_data jit)
  unfolding process_loader_upgradeable_instruction
  Frozen-process first instruction_data jit =
      Triple-reads_bind (λ c. c.caller) _
        λ c h id _.
          Triple-reads_bind (λ c. c.keyed_accounts) _
            λ c' h' found e. Triple-lift_bind _ _ λ i _.
              subst (λ found. Keeps P (run_upgradeable sdk i found first id jit))
                (cc (h'.same_accounts)) (Frozen-run_upgradeable i first id jit)

-- Successful instructions of the upgradeable loader, one after another. Each comes with accounts of
-- its own; a failed instruction is rolled back by the runtime, and so is no step.
pub data Runs (sdk : Sdk) (c : InvokeContext) : InvokeContext → Type 0 where
  here : Runs sdk c c
  next :
      {d e : InvokeContext}
      → Runs sdk c d
      → (accounts : List KeyedAccount) (given : InvokeContext) (first : ℕ)
        (instruction_data : Bytes) (jit : Bool)
      → given.cells ≡ d.cells
      → given.keyed_accounts ≡ ok accounts
      → process_loader_upgradeable_instruction sdk first instruction_data jit given ≡ (ok tt, e)
      → Runs sdk c e

Preserved-refl : (a : Account) → Preserved a a
Preserved-refl a = record {
  data_same = refl;
  owner_same = refl;
  executable_same = refl;
  lamports_le = omega arith;
}

-- A ProgramData or Buffer account without an authority, and a Program account, stays as it is
-- through any sequence of successful instructions of the upgradeable loader, in whatever role they
-- name it: its data, its owner and its executable flag are the same, and no lamports leave it. The
-- hypotheses are on the SDK: checked addition, the codec of the account states, and the system
-- program's CreateAccount.
pub Runs-Preserved :
    (sdk : Sdk) (x : ℕ) (s : UpgradeableLoaderState) (c c' : InvokeContext)
    → IsCheckedAdd sdk
    → IsStateCodec sdk
    → IsCreateAccount sdk
    → sdk.state (c.cells x).data_bytes ≡ ok s
    → is_fixed s ≡ true
    → Runs sdk c c'
    → Preserved (c.cells x) (c'.cells x)
Runs-Preserved sdk x s c c' law codec create es frozen here = Preserved-refl (c.cells x)
Runs-Preserved sdk x s c c' law codec create es frozen
      (next {d} {e} r accounts given first instruction_data jit same has run) =
    (after_ok _ _ _ given e tt
      (Frozen-process x (c.cells x) accounts sdk law codec create s es frozen first instruction_data
        jit)
      (record {
        preserved =
            subst (λ cells. Preserved (c.cells x) (cells x)) (sym same)
              (Runs-Preserved sdk x s c d law codec create es frozen r);
        same_accounts = has;
      })
      run).preserved
