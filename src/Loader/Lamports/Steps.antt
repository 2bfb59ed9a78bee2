-- ===== src/Loader/Lamports/Steps.antt =====
-- The sum of the lamports under the actions that the handlers are made of.
use solana_sdk_sample.Base.{ℕ, ◌+◌, ◌<◌, ◌≡◌, List, arith}
use solana_sdk_sample.Runtime.Outcome.{Outcome, ok}
use solana_sdk_sample.Runtime.Account.{Account, Pubkey, KeyedAccount, InvokeContext, BpfExecutor}
use solana_sdk_sample.Runtime.Action.{modify_account, lamports_while}
use solana_sdk_sample.Runtime.Action.Triple.{
  Triple, Keeps, Triple-reads, Triple-reads_keep, Triple-bind, Triple-modify_account,
}
use solana_sdk_sample.Runtime.Sdk.{Sdk}
use solana_sdk_sample.Runtime.Sdk.Laws.{IsCheckedAdd}
use solana_sdk_sample.State.{UpgradeableLoaderState}
use solana_sdk_sample.Loader.Accounts.{
  set_lamports, set_executable, write_range, slice_while, has_range, with_state, set_state_of,
  credit,
}
use solana_sdk_sample.Loader.Close.{drain}
use solana_sdk_sample.Loader.Deploy.Commit.{add_executor, copy_program}
use solana_sdk_sample.Loader.Lamports.{total, total-update}

-- The accounts below `n` hold `sum` lamports together, and the instruction's accounts are given.
pub record Holds (n sum : ℕ) (accounts : List KeyedAccount) (c : InvokeContext) : Type 0 where
  pub lamports_total : total n c.cells ≡ sum
  pub same_accounts : c.keyed_accounts ≡ ok accounts

-- A successful credit adds exactly the amount.
pub credit-lamports :
    (sdk : Sdk) (amount : ℕ) (a b : Account)
    → IsCheckedAdd sdk
    → credit sdk amount a ≡ ok b
    → b.lamports ≡ a.lamports + amount
credit-lamports sdk amount a b law e =
    ground (arith, law.fits a.lamports amount, law.overflows a.lamports amount)

module _ (n sum : ℕ) (accounts : List KeyedAccount) where
  -- A change that leaves the lamports of its account alone keeps the sum.
  pub Holds-same_lamports :
      (cell : ℕ) (f : Account → Outcome Account)
      → cell < n
      → ((x y : Account) → f x ≡ ok y → y.lamports ≡ x.lamports)
      → Keeps (Holds n sum accounts) (modify_account cell f)
  Holds-same_lamports cell f below same = Triple-modify_account cell f λ c a h e. record {
    lamports_total =
        omega
          (arith, total-update n c.cells cell a below, same (c.cells cell) a e, h.lamports_total);
    same_accounts = h.same_accounts;
  }

  pub Holds-add_executor :
      (k : Pubkey) (e : BpfExecutor) → Keeps (Holds n sum accounts) (add_executor k e)
  unfolding add_executor
  Holds-add_executor k e = record {
    at = λ c h. record { lamports_total = h.lamports_total; same_accounts = h.same_accounts };
  }

  module _ (sdk : Sdk) where
    with_state-lamports :
        (s : UpgradeableLoaderState) (x y : Account)
        → with_state sdk s x ≡ ok y
        → y.lamports ≡ x.lamports
    with_state-lamports s x y e = ground arith

    pub Holds-set_state_of :
        (a : KeyedAccount) (s : UpgradeableLoaderState)
        → a.cell < n
        → Keeps (Holds n sum accounts) (set_state_of sdk a s)
    Holds-set_state_of a s below =
        Holds-same_lamports a.cell (with_state sdk s) below (with_state-lamports s)

    -- After the credit and before the source is emptied.
    abbrev Credited : ℕ → ℕ → InvokeContext → Type 0
    Credited source amount c =
        (total n c.cells ≡ sum + amount)
        × (c.keyed_accounts ≡ ok accounts)
        × ((c.cells source).lamports ≡ amount)

    drain_credit :
        (source recipient : KeyedAccount) (amount : ℕ)
        → IsCheckedAdd sdk
        → recipient.cell < n
        → Triple
            (λ c.
              Holds n sum accounts c × (lamports_while recipient.cell source.cell c ≡ ok amount))
            (modify_account recipient.cell (credit sdk amount))
            (Credited source.cell amount)
    drain_credit source recipient amount law below =
        Triple-modify_account recipient.cell (credit sdk amount) λ c a h e. (
          omega (
            arith,
            total-update n c.cells recipient.cell a below,
            credit-lamports sdk amount (c.cells recipient.cell) a law e,
            h.0.lamports_total,
          ),
          h.0.same_accounts,
          ground (arith, h.1),
        )

    -- Moving all lamports of one account to another keeps the sum: one account alone is refused.
    pub Holds-drain :
        (source recipient : KeyedAccount)
        → IsCheckedAdd sdk
        → source.cell < n
        → recipient.cell < n
        → Keeps (Holds n sum accounts) (drain sdk source recipient)
    unfolding drain
    Holds-drain source recipient law s r =
        Triple-reads_keep (lamports_while recipient.cell source.cell) _ λ amount.
          Triple-bind _ _ (drain_credit source recipient amount law r) λ _.
            Triple-modify_account source.cell (set_lamports 0) λ c a h e. record {
              lamports_total = ground (arith, total-update n c.cells source.cell a s);
              same_accounts = h.1;
            }

    -- A copy changes no lamports, and it returns for two different accounts only.
    pub Holds-copy_program :
        (programdata buffer : KeyedAccount) (start k from : ℕ)
        → programdata.cell < n
        → Keeps (Holds n sum accounts) (copy_program programdata start k buffer from)
    unfolding copy_program
    Holds-copy_program programdata buffer start k from below =
        Triple-bind _ _ (Triple-reads (has_range programdata.cell start k)) λ _.
          Triple-bind _ _ (Triple-reads (slice_while programdata.cell buffer.cell from k)) λ bytes.
            Holds-same_lamports programdata.cell (write_range start bytes) below
              (λ x y e. ground arith)

    pub Holds-set_executable :
        (a : KeyedAccount)
        → a.cell < n
        → Keeps (Holds n sum accounts) (modify_account a.cell set_executable)
    Holds-set_executable a below =
        Holds-same_lamports a.cell set_executable below (λ x y e. ground arith)
