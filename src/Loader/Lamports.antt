-- ===== src/Loader/Lamports.antt =====
-- The sum of the lamports over the accounts of a context, and how one changed account moves it.
pub mod Steps
pub mod Conserved
pub mod Upgrade
pub mod Whole
pub mod Process
use solana_sdk_sample.Base.{
  ℕ, zero, suc, ◌+◌, ◌≤◌, ◌<◌, ◌≡◌, refl, List, [], ◌∷◌, arith, Bool-cases, inl, inr, ◌==◌,
  get_elem?, some, if◌then◌else◌,
}
use solana_sdk_sample.Runtime.Outcome.{ok}
use solana_sdk_sample.Instruction.{Call}
use solana_sdk_sample.Runtime.Sdk.{Sdk}
use solana_sdk_sample.Runtime.Account.{
  Account, Pubkey, InvokeContext, Cells, KeyedAccount, keyed_account_at_index, update,
}

-- The lamports of the cells below `n`.
abbrev pub total : ℕ → Cells → ℕ
total zero cells = 0
total (suc n) cells = (cells n).lamports + total n cells

-- Every account of the list lies in a cell below `n`.
abbrev pub AllBelow : ℕ → List KeyedAccount → Type 0
AllBelow n [] = Unit
AllBelow n (a ∷ rest) = (a.cell < n) × AllBelow n rest

total-update_ge :
    (n : ℕ) (cells : Cells) (p : ℕ) (a : Account)
    → n ≤ p
    → total n (update cells p a) ≡ total n cells
total-update_ge zero cells p a h = refl
total-update_ge (suc n) cells p a h = ground (arith, total-update_ge n cells p a)

pub total-update :
    (n : ℕ) (cells : Cells) (p : ℕ) (a : Account)
    → p < n
    → total n (update cells p a) + (cells p).lamports ≡ total n cells + a.lamports
total-update zero cells p a h = absurd (omega arith)
total-update (suc n) cells p a h =
    ground (arith, total-update n cells p a, total-update_ge n cells p a, ap-lamports)
  where
    ap-lamports : p ≡ n → (cells p).lamports ≡ (cells n).lamports
    ap-lamports e = λ i. (cells (e i)).lamports

pub cell_below :
    (n : ℕ) (accounts : List KeyedAccount) (i : ℕ) (a : KeyedAccount)
    → AllBelow n accounts
    → keyed_account_at_index accounts i ≡ ok a
    → a.cell < n
cell_below n [] i a h e = cc
cell_below n (x ∷ rest) zero a h e = ground arith
cell_below n (x ∷ rest) (suc i) a h e = cell_below n rest i a h.1 e

-- The runtime checks that a native invocation moves no lamports in or out of the instruction's
-- accounts, and gives the caller its accounts back.
pub record IsBalanced (sdk : Sdk) : Type 0 where
  pub keeps_total :
      (call : Call) (signers : List Pubkey) (c c' : InvokeContext) (accounts : List KeyedAccount)
      (n : ℕ)
      → c.keyed_accounts ≡ ok accounts
      → AllBelow n accounts
      → sdk.native_invoke call signers c ≡ (ok tt, c')
      → total n c'.cells ≡ total n c.cells
  pub keeps_accounts :
      (call : Call) (signers : List Pubkey) (c c' : InvokeContext)
      → sdk.native_invoke call signers c ≡ (ok tt, c')
      → c'.keyed_accounts ≡ c.keyed_accounts
