-- ===== src/Loader/Lamports/Process.antt =====
-- The sum of the lamports over a whole instruction of the upgradeable loader.
use solana_sdk_sample.Base.{ℕ, ◌≡◌, refl, subst, Bool, List}
use solana_sdk_sample.Runtime.Outcome.{ok}
use solana_sdk_sample.Runtime.Account.{Bytes, Pubkey, KeyedAccount, InvokeContext}
use solana_sdk_sample.Runtime.Action.Triple.{
  Triple, Triple-lift, Triple-reads_bind, Triple-lift_bind, Triple-weaken, after_ok,
}
use solana_sdk_sample.Runtime.Sdk.{Sdk}
use solana_sdk_sample.Runtime.Sdk.Laws.{IsCheckedAdd}
use solana_sdk_sample.Instruction
use solana_sdk_sample.Instruction.{UpgradeableLoaderInstruction}
use solana_sdk_sample.Loader.Process.{run_upgradeable, process_loader_upgradeable_instruction}
use solana_sdk_sample.Loader.Lamports.{total, AllBelow, IsBalanced}
use solana_sdk_sample.Loader.Lamports.Steps.{Holds}
use solana_sdk_sample.Loader.Lamports.Conserved.{
  Holds-initialize_buffer, Holds-write, Holds-set_authority, Holds-close,
}
use solana_sdk_sample.Loader.Lamports.Whole.{Holds-upgrade, Holds-deploy}

module _ (n : ℕ) (accounts : List KeyedAccount) (below : AllBelow n accounts) (sdk : Sdk)
    (law : IsCheckedAdd sdk) (balanced : IsBalanced sdk) (start : InvokeContext) where
  -- The context is the one at the start.
  abbrev AtStart : InvokeContext → Type 0
  AtStart c = (c ≡ start) × (c.keyed_accounts ≡ ok accounts)

  abbrev Kept : InvokeContext → Type 0
  Kept = Holds n (total n start.cells) accounts

  Kept-AtStart : (c : InvokeContext) → AtStart c → Kept c
  Kept-AtStart c h = record { lamports_total = λ i. total n (h.0 i).cells; same_accounts = h.1 }

  Kept-run_upgradeable :
      (i : UpgradeableLoaderInstruction) (first : ℕ) (id : Pubkey) (jit : Bool)
      → Triple AtStart (run_upgradeable sdk i accounts first id jit) Kept
  unfolding run_upgradeable
  Kept-run_upgradeable Instruction.initialize_buffer first id jit =
      Triple-weaken _ (Holds-initialize_buffer n _ accounts below sdk law first) Kept-AtStart
  Kept-run_upgradeable (UpgradeableLoaderInstruction.write offset bytes) first id jit =
      Triple-weaken _ (Holds-write n _ accounts below sdk law first offset bytes) Kept-AtStart
  Kept-run_upgradeable (Instruction.deploy_with_max_data_len k) first id jit =
      Triple-weaken _ (Holds-deploy n accounts below sdk law balanced _ first id k jit) Kept-AtStart
  Kept-run_upgradeable Instruction.upgrade first id jit =
      Holds-upgrade n accounts below sdk law start first id jit
  Kept-run_upgradeable Instruction.set_authority first id jit =
      Triple-weaken _ (Holds-set_authority n _ accounts below sdk law first) Kept-AtStart
  Kept-run_upgradeable Instruction.close first id jit =
      Triple-weaken _ (Holds-close n _ accounts below sdk law first id) Kept-AtStart
  Kept-run_upgradeable (Instruction.extend_program k) first id jit =
      Triple-weaken _ (Triple-lift _) Kept-AtStart
  Kept-run_upgradeable Instruction.set_authority_checked first id jit =
      Triple-weaken _ (Triple-lift _) Kept-AtStart

  Kept-process :
      (first : ℕ) (instruction_data : Bytes) (jit : Bool)
      → Triple AtStart (process_loader_upgradeable_instruction sdk first instruction_data jit) Kept
  unfolding process_loader_upgradeable_instruction
  Kept-process first instruction_data jit =
      Triple-reads_bind (λ c. c.caller) _
        λ c h id _.
          Triple-reads_bind (λ c. c.keyed_accounts) _
            λ c' h' found e. Triple-lift_bind _ _ λ i _.
              subst (λ found. Triple AtStart (run_upgradeable sdk i found first id jit) Kept)
                (cc (h'.1)) (Kept-run_upgradeable i first id jit)

-- An instruction of the upgradeable loader that succeeds keeps the sum of the lamports over any
-- range of cells that holds all of its accounts, whichever of those are one account. The SDK's
-- addition of lamports is checked, and the system program's invocation is balanced.
pub total-process_loader_upgradeable_instruction :
    (n : ℕ) (accounts : List KeyedAccount) (sdk : Sdk) (first : ℕ) (instruction_data : Bytes)
    (jit : Bool) (c c' : InvokeContext)
    → IsCheckedAdd sdk
    → IsBalanced sdk
    → c.keyed_accounts ≡ ok accounts
    → AllBelow n accounts
    → process_loader_upgradeable_instruction sdk first instruction_data jit c ≡ (ok tt, c')
    → total n c'.cells ≡ total n c.cells
total-process_loader_upgradeable_instruction n accounts sdk first instruction_data jit c c' law
      balanced e below run =
    (after_ok _ _ _ c c' tt
      (Kept-process n accounts below sdk law balanced c first instruction_data jit) (refl, e)
      run).lamports_total
