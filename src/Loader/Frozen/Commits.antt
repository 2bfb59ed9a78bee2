-- ===== src/Loader/Frozen/Commits.antt =====
-- Upgrade and DeployWithMaxDataLen do not change a fixed account.
use solana_sdk_sample.Base.{ℕ, ◌+◌, ◌≡◌, ◌≢◌, subst, Bool, true, false, List, arith}
use solana_sdk_sample.Runtime.Outcome.{ok}
use solana_sdk_sample.Runtime.Account.{Account, Pubkey, KeyedAccount, InvokeContext}
use solana_sdk_sample.Runtime.Action.Triple.{
  Keeps, Triple-reads_bind, Triple-lift_bind, Triple-bind,
}
use solana_sdk_sample.Runtime.Sdk.{Sdk}
use solana_sdk_sample.Runtime.Sdk.Laws.{IsCheckedAdd}
use solana_sdk_sample.State.{UpgradeableLoaderState}
use solana_sdk_sample.Loader.Accounts.{state_of}
use solana_sdk_sample.Loader.Executor.{create_executor}
use solana_sdk_sample.Loader.Deploy
use solana_sdk_sample.Loader.Deploy.{
  DeployAccounts, Lengths, deploy_accounts, derive_bump, create_instruction,
}
use solana_sdk_sample.Loader.Upgrade
use solana_sdk_sample.Loader.Upgrade.{
  UpgradeAccounts, UpgradeLengths, upgrade_accounts, verify_programdata,
}
use solana_sdk_sample.Loader.Upgrade.Commit.{fund_programdata, record_upgrade, upgrade}
use solana_sdk_sample.Loader.Lamports.Whole.{UpgradeIndices, upgrade_accounts-Indices}
use solana_sdk_sample.Loader.Frozen.{is_fixed}
use solana_sdk_sample.Loader.Frozen.Steps.{
  Frozen, Frozen-modify_ne, Frozen-add_executor, Frozen-copy_program, Frozen-credit,
}
use solana_sdk_sample.Loader.Frozen.Handlers.{differs}

-- The ProgramData account that Upgrade accepts has an authority, and so has its buffer.
programdata_upgradeable :
    (sdk : Sdk) (u : UpgradeAccounts) (l : UpgradeLengths) (c : InvokeContext)
    → verify_programdata sdk u l c ≡ ok tt
    → (t : UpgradeableLoaderState) × (state_of sdk u.programdata c ≡ ok t) × (is_fixed t ≡ false)
unfolding verify_programdata
programdata_upgradeable sdk u l c e = ground arith

upgrade_buffer :
    (sdk : Sdk) (u : UpgradeAccounts) (l : UpgradeLengths) (c : InvokeContext)
    → Upgrade.verify_buffer sdk u c ≡ ok l
    → (t : UpgradeableLoaderState) × (state_of sdk u.buffer c ≡ ok t) × (is_fixed t ≡ false)
unfolding Upgrade.verify_buffer
upgrade_buffer sdk u l c e = ground arith

pub deploy_buffer :
    (sdk : Sdk) (d : DeployAccounts) (l : Lengths) (n : ℕ) (c : InvokeContext)
    → Deploy.verify_buffer sdk d n c ≡ ok l
    → (t : UpgradeableLoaderState) × (state_of sdk d.buffer c ≡ ok t) × (is_fixed t ≡ false)
unfolding Deploy.verify_buffer
deploy_buffer sdk d l n c e = ground arith

pub deploy_program :
    (sdk : Sdk) (d : DeployAccounts) (c : InvokeContext)
    → Deploy.verify_program sdk d c ≡ ok tt
    → (t : UpgradeableLoaderState) × (state_of sdk d.program c ≡ ok t) × (is_fixed t ≡ false)
unfolding Deploy.verify_program
deploy_program sdk d c e = ground arith

module _ (x : ℕ) (before : Account) (accounts : List KeyedAccount) (sdk : Sdk)
    (law : IsCheckedAdd sdk) (s : UpgradeableLoaderState) (es : sdk.state before.data_bytes ≡ ok s)
    (frozen : is_fixed s ≡ true) where
  abbrev P : InvokeContext → Type 0
  P = Frozen x before accounts

  Frozen-fund_programdata :
      (programdata buffer spill : KeyedAccount) (required : ℕ)
      → programdata.cell ≢ x
      → buffer.cell ≢ x
      → Keeps P (fund_programdata sdk programdata buffer spill required)
  unfolding fund_programdata
  Frozen-fund_programdata programdata buffer spill required np nb =
      Triple-reads_bind _ _ λ _ _ held _. Triple-reads_bind _ _ λ _ _ brought _.
        Triple-lift_bind _ _ λ funds _.
          Triple-bind _ _ (Frozen-credit x before accounts sdk law spill.cell _) λ _.
            Triple-bind _ _ (Frozen-modify_ne x before accounts buffer.cell _ nb)
              λ _. Frozen-modify_ne x before accounts programdata.cell _ np

  Frozen-record_upgrade :
      (u : UpgradeAccounts) (l : UpgradeLengths) (first : ℕ)
      → UpgradeIndices accounts first u
      → u.programdata.cell ≢ x
      → u.buffer.cell ≢ x
      → Keeps P (record_upgrade sdk u l accounts first)
  unfolding record_upgrade
  Frozen-record_upgrade u l first at np nb = Triple-lift_bind _ _ λ p ep.
      Triple-lift_bind _ _ λ b eb. Triple-lift_bind _ _ λ spill _. Triple-lift_bind _ _ λ a _.
        let same_p : u.programdata ≡ p = cc (at.at_programdata) in
        let same_b : u.buffer ≡ b = cc (at.at_buffer) in
        let np' : p.cell ≢ x = subst (λ (q : KeyedAccount). q.cell ≢ x) same_p np in
        let nb' : b.cell ≢ x = subst (λ (q : KeyedAccount). q.cell ≢ x) same_b nb in
        Triple-bind _ _ (Frozen-modify_ne x before accounts p.cell _ np') λ _.
          Triple-bind _ _ (Frozen-copy_program x before accounts p b _ _ _ np') λ _.
            Triple-bind _ _ (Frozen-modify_ne x before accounts p.cell _ np')
              λ _. Frozen-fund_programdata p b spill _ np' nb'

  -- An account whose state was read, and has an authority.
  pub other :
      (a : KeyedAccount) (c : InvokeContext)
      → P c
      → ((t : UpgradeableLoaderState) × (state_of sdk a c ≡ ok t) × (is_fixed t ≡ false))
      → a.cell ≢ x
  other a c h (t, et, has) = differs x before accounts sdk law s es frozen t a c h et has

  pub Frozen-upgrade :
      (first : ℕ) (id : Pubkey) (jit : Bool) → Keeps P (upgrade sdk accounts first id jit)
  unfolding upgrade
  Frozen-upgrade first id jit =
      Triple-reads_bind (upgrade_accounts sdk accounts first) _ λ c h u eu.
        Triple-reads_bind (Upgrade.verify_program sdk u id) _ λ _ _ _ _.
          Triple-reads_bind (Upgrade.verify_buffer sdk u) _ λ c2 h2 l el.
            Triple-reads_bind (verify_programdata sdk u l) _ λ c3 h3 _ ev.
              Triple-reads_bind (create_executor sdk (first + 2) l.buffer_data_offset jit) _
                λ _ _ e _. Triple-bind _ _ (Frozen-add_executor x before accounts _ e) λ _.
                  Triple-reads_bind (λ d. d.keyed_accounts) _
                    λ d hd found ef.
                      subst (λ found. Keeps P (record_upgrade sdk u l found first))
                        (cc (hd.same_accounts))
                        (Frozen-record_upgrade u l first
                          (upgrade_accounts-Indices sdk accounts first c u eu)
                          (other u.programdata c3 h3 (programdata_upgradeable sdk u l c3 ev))
                          (other u.buffer c2 h2 (upgrade_buffer sdk u l c2 el)))
