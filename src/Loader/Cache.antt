-- ===== src/Loader/Cache.antt =====
-- scripts/ref/bpf_loader/src/lib.rs: the executor cache. Which executor is cached after Upgrade, and
-- which one a call of the program runs.
pub mod Called
pub mod Renewed
use solana_sdk_sample.Base.{ℕ, ◌≡◌, some, List, Bool, not}
use solana_sdk_sample.Runtime.Outcome.{Outcome}
use solana_sdk_sample.Runtime.Account.{
  Account, Pubkey, KeyedAccount, BpfExecutor, keyed_account_at_index,
}
use solana_sdk_sample.Runtime.Action.{Action, ◌>>=◌, reads, lift, modify_account}
use solana_sdk_sample.Runtime.Action.Triple.{
  Assertion, Keeps, Triple-reads_bind, Triple-lift_bind, Triple-bind, Triple-modify_account,
}
use solana_sdk_sample.Runtime.Sdk.{Sdk}
use solana_sdk_sample.State
use solana_sdk_sample.Loader.Accounts.{set_state_of}
use solana_sdk_sample.Loader.Deploy.Commit.{copy_program}
use solana_sdk_sample.Loader.Upgrade.{UpgradeAccounts, UpgradeLengths}
use solana_sdk_sample.Loader.Upgrade.Commit.{fund_programdata, record_upgrade}

-- The program's executor in the cache.
abbrev pub Caches : Pubkey → BpfExecutor → Assertion
Caches id executor c = c.executors id ≡ some executor

module _ (id : Pubkey) (executor : BpfExecutor) where
  -- A change of an account is none of the cache.
  modify-Caches :
      (cell : ℕ) (f : Account → Outcome Account)
      → Keeps (Caches id executor) (modify_account cell f)
  modify-Caches cell f = Triple-modify_account cell f λ c a h e. h

  copy_program-Caches :
      (programdata : KeyedAccount) (start n : ℕ) (buffer : KeyedAccount) (from : ℕ)
      → Keeps (Caches id executor) (copy_program programdata start n buffer from)
  unfolding copy_program
  copy_program-Caches programdata start n buffer from =
      Triple-reads_bind _ _ λ c h _ _. Triple-reads_bind _ _ λ d k bytes _. modify-Caches _ _

  fund_programdata-Caches :
      (sdk : Sdk) (programdata buffer spill : KeyedAccount) (required : ℕ)
      → Keeps (Caches id executor) (fund_programdata sdk programdata buffer spill required)
  unfolding fund_programdata
  fund_programdata-Caches sdk programdata buffer spill required = Triple-reads_bind _ _ λ _ _ _ _.
      Triple-reads_bind _ _ λ _ _ _ _. Triple-lift_bind _ _ λ _ _.
        Triple-bind _ _ (modify-Caches _ _)
          λ _. Triple-bind _ _ (modify-Caches _ _) λ _. modify-Caches _ _

  pub record_upgrade-Caches :
      (sdk : Sdk) (u : UpgradeAccounts) (l : UpgradeLengths) (accounts : List KeyedAccount)
      (first : ℕ)
      → Keeps (Caches id executor) (record_upgrade sdk u l accounts first)
  unfolding record_upgrade
  record_upgrade-Caches sdk u l accounts first = Triple-lift_bind _ _ λ _ _.
      Triple-lift_bind _ _ λ _ _. Triple-lift_bind _ _ λ _ _. Triple-lift_bind _ _ λ _ _.
        Triple-bind _ _ (modify-Caches _ _) λ _.
          Triple-bind _ _ (copy_program-Caches _ _ _ _ _)
            λ _. Triple-bind _ _ (modify-Caches _ _) λ _. fund_programdata-Caches sdk _ _ _ _
