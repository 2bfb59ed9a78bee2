-- ===== src/Loader/Lamports/Whole.antt =====
-- Upgrade, DeployWithMaxDataLen and the whole instruction keep the sum of the lamports.
use solana_sdk_sample.Base.{ℕ, ◌+◌, ◌≤◌, ◌<◌, ◌≡◌, ◌≢◌, ap, sym, subst, Bool, List, arith}
use solana_sdk_sample.Runtime.Outcome.{ok}
use solana_sdk_sample.Runtime.Account.{Pubkey, KeyedAccount, InvokeContext, keyed_account_at_index}
use solana_sdk_sample.Runtime.Action.{modify_account}
use solana_sdk_sample.Runtime.Action.Triple.{
  Triple, Keeps, Triple-reads_bind, Triple-lift_bind, Triple-bind, Triple-weaken, Triple-frame,
}
use solana_sdk_sample.Runtime.Sdk.{Sdk}
use solana_sdk_sample.Runtime.Sdk.Laws.{IsCheckedAdd}
use solana_sdk_sample.Loader.Accounts.{zero_from}
use solana_sdk_sample.Loader.Executor.{create_executor}
use solana_sdk_sample.Loader.Deploy.{DeployAccounts, deploy_accounts, verify_program, verify_buffer}
use solana_sdk_sample.Loader.Deploy.Commit.{record_program, deploy}
use solana_sdk_sample.Loader.Upgrade
use solana_sdk_sample.Loader.Upgrade.{
  UpgradeAccounts, UpgradeLengths, upgrade_accounts, verify_programdata,
}
use solana_sdk_sample.Loader.Upgrade.Commit.{record_upgrade, upgrade}
use solana_sdk_sample.Loader.Lamports.{total, AllBelow, cell_below, IsBalanced}
use solana_sdk_sample.Loader.Lamports.Steps.{Holds, Holds-add_executor}
use solana_sdk_sample.Loader.Lamports.Conserved.{
  Holds-create_programdata, Holds-record_program, Holds-accounts,
}
use solana_sdk_sample.Loader.Lamports.Upgrade.{
  Untouched, Untouched-same_lamports, Untouched-add_executor, Untouched-copy_program, Copied,
  Holds-fund_programdata,
}

-- The accounts that Upgrade finds stand at their indices.
pub record UpgradeIndices (accounts : List KeyedAccount) (first : ℕ) (u : UpgradeAccounts)
    : Type 0 where
  pub at_programdata : keyed_account_at_index accounts first ≡ ok u.programdata
  pub at_program : keyed_account_at_index accounts (first + 1) ≡ ok u.program
  pub at_buffer : keyed_account_at_index accounts (first + 2) ≡ ok u.buffer
  pub at_authority : keyed_account_at_index accounts (first + 6) ≡ ok u.authority

pub upgrade_accounts-Indices :
    (sdk : Sdk) (accounts : List KeyedAccount) (first : ℕ) (c : InvokeContext) (u : UpgradeAccounts)
    → upgrade_accounts sdk accounts first c ≡ ok u
    → UpgradeIndices accounts first u
unfolding upgrade_accounts
upgrade_accounts-Indices sdk accounts first c u e = ground arith

-- What the checks on the ProgramData account show.
pub verify_programdata-enough :
    (sdk : Sdk) (u : UpgradeAccounts) (l : UpgradeLengths) (c : InvokeContext)
    → verify_programdata sdk u l c ≡ ok tt
    → l.programdata_balance_required
      ≤ (c.cells u.programdata.cell).lamports + (c.cells u.buffer.cell).lamports
unfolding verify_programdata
verify_programdata-enough sdk u l c e = ground arith

module _ (n : ℕ) (accounts : List KeyedAccount) (below : AllBelow n accounts) (sdk : Sdk)
    (law : IsCheckedAdd sdk) where
  module _ (start : InvokeContext) (u : UpgradeAccounts) (l : UpgradeLengths) (first : ℕ) where
    Holds-record_upgrade :
        UpgradeIndices accounts first u
        → l.programdata_balance_required
          ≤ (start.cells u.programdata.cell).lamports + (start.cells u.buffer.cell).lamports
        → Triple
            (Untouched start.cells accounts)
            (record_upgrade sdk u l accounts first)
            (Holds n (total n start.cells) accounts)
    unfolding record_upgrade Copied
    Holds-record_upgrade at enough = Triple-lift_bind _ _ λ p ep. Triple-lift_bind _ _ λ b eb.
        Triple-lift_bind _ _ λ s es. Triple-lift_bind _ _ λ a ea.
          let below_p = cell_below n accounts first p below ep in
          let below_b = cell_below n accounts (first + 2) b below eb in
          let below_s = cell_below n accounts (first + 3) s below es in
          let same_p : u.programdata ≡ p = cc (at.at_programdata) in
          let same_b : u.buffer ≡ b = cc (at.at_buffer) in
          Triple-bind _ _
            (Untouched-same_lamports start.cells accounts p.cell _ (λ x y e. ground arith))
            λ _. Triple-bind _ _ (Untouched-copy_program start.cells accounts p b _ _ _) λ _.
              Triple-bind _ _ (zeroed p b _) λ _.
                Holds-fund_programdata start.cells accounts n sdk law p b s _ below_p below_b
                  below_s (rw (← same_p, ← same_b) enough)
      where
        zeroed :
            (p b : KeyedAccount) (from : ℕ)
            → Keeps (Copied start.cells accounts p b) (modify_account p.cell (zero_from from))
        zeroed p b from = Triple-frame (p.cell ≢ b.cell) _ (
            Untouched-same_lamports start.cells accounts p.cell (zero_from from)
              (λ x y e. ground arith))

  pub Holds-upgrade :
      (start : InvokeContext) (first : ℕ) (id : Pubkey) (jit : Bool)
      → Triple
          (λ c. (c ≡ start) × (c.keyed_accounts ≡ ok accounts))
          (upgrade sdk accounts first id jit)
          (Holds n (total n start.cells) accounts)
  unfolding upgrade
  Holds-upgrade start first id jit =
      Triple-reads_bind (upgrade_accounts sdk accounts first) _ λ c h u eu.
        Triple-reads_bind (Upgrade.verify_program sdk u id) _ λ c1 h1 _ _.
          Triple-reads_bind (Upgrade.verify_buffer sdk u) _ λ c2 h2 l el.
            Triple-reads_bind (verify_programdata sdk u l) _ λ c3 h3 _ ev.
              Triple-reads_bind (create_executor sdk (first + 2) l.buffer_data_offset jit) _
                λ c4 h4 x _.
                  Triple-bind _ _
                    (Triple-weaken _
                      (Untouched-add_executor start.cells accounts u.program.unsigned_key x)
                      (λ d hd. record {
                        each = λ p. ap (λ (e : InvokeContext). (e.cells p).lamports) hd.0;
                        same_accounts = hd.1;
                      }))
                    λ _.
                      Triple-reads_bind (λ d. d.keyed_accounts) _
                        λ d hd found ef.
                          subst
                            (λ found.
                              Triple (Untouched start.cells accounts)
                                (record_upgrade sdk u l found first)
                                (Holds n (total n start.cells) accounts))
                            (cc (hd.same_accounts))
                            (Holds-record_upgrade start u l first
                              (upgrade_accounts-Indices sdk accounts first c u eu)
                              (subst
                                (λ (e : InvokeContext).
                                  l.programdata_balance_required
                                  ≤ (e.cells u.programdata.cell).lamports
                                    + (e.cells u.buffer.cell).lamports)
                                h3.0 (verify_programdata-enough sdk u l c3 ev)))

  module _ (balanced : IsBalanced sdk) (sum : ℕ) where
    abbrev P : InvokeContext → Type 0
    P = Holds n sum accounts

    pub Holds-deploy :
        (first : ℕ) (id : Pubkey) (max_data_len : ℕ) (jit : Bool)
        → Keeps P (deploy sdk accounts first id max_data_len jit)
    unfolding deploy deploy_accounts
    Holds-deploy first id max_data_len jit =
        Triple-reads_bind (deploy_accounts sdk accounts first) _ λ c h d ed.
          Triple-reads_bind (verify_program sdk d) _ λ _ _ _ _.
            Triple-reads_bind (verify_buffer sdk d max_data_len) _ λ _ _ l _.
              Triple-lift_bind _ _ λ bump _. Triple-reads_bind _ _ λ _ _ predrain _.
                let (below_buffer, below_payer) = deploy_below first c d ed in
                Triple-bind _ _
                  (Holds-create_programdata n sum accounts below sdk law balanced d l bump predrain
                    id below_buffer below_payer)
                  λ _.
                    Triple-reads_bind (create_executor sdk (first + 3) l.buffer_data_offset jit) _
                      λ _ _ x _. Triple-bind _ _ (Holds-add_executor n sum accounts _ x) λ _.
                        Triple-reads_bind (λ e. e.keyed_accounts) _
                          λ e he found ef.
                            subst (λ found. Keeps P (record_program sdk d l predrain found first))
                              (sym (Holds-accounts n sum accounts below sdk law e found he ef))
                              (Holds-record_program n sum accounts below sdk law balanced d l
                                predrain first)
      where
        deploy_below :
            (first : ℕ) (c : InvokeContext) (d : DeployAccounts)
            → deploy_accounts sdk accounts first c ≡ ok d
            → (d.buffer.cell < n) × (d.payer.cell < n)
        deploy_below first c d e = (
          cell_below n accounts (first + 3) d.buffer below (ground arith),
          cell_below n accounts first d.payer below (ground arith),
        )
