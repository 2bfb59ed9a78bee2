-- ===== src/Loader/Panics/Checks.antt =====
-- The checks of Upgrade, and the compilation of the buffer, do not panic.
use solana_sdk_sample.Base.{ℕ, ◌^◌, ◌≤◌, ◌<◌, ◌≡◌, ◌≢◌, Bool, true, false, List, arith, length}
use solana_sdk_sample.Runtime.Outcome.{ok, panic}
use solana_sdk_sample.Runtime.Account.{KeyedAccount, InvokeContext, keyed_account_at_index}
use solana_sdk_sample.Runtime.Sdk.{Sdk}
use solana_sdk_sample.Loader.Executor.{create_executor}
use solana_sdk_sample.Loader.Upgrade
use solana_sdk_sample.Loader.Upgrade.{
  UpgradeAccounts, UpgradeLengths, verify_program, verify_buffer, verify_programdata,
}
use solana_sdk_sample.Loader.Panics.{IsTotal}

module _ (sdk : Sdk) (total : IsTotal sdk) (accounts : List KeyedAccount) where
  -- The account's data reaches to the offset.
  pub create_executor-returns :
      (i offset : ℕ) (jit : Bool) (a : KeyedAccount) (c : InvokeContext)
      → c.keyed_accounts ≡ ok accounts
      → keyed_account_at_index accounts i ≡ ok a
      → offset ≤ length (c.cells a.cell).data_bytes
      → create_executor sdk i offset jit c ≢ panic
  unfolding create_executor
  create_executor-returns i offset true a c given ea reaches e = ground arith
  create_executor-returns i offset false a c given ea reaches e = ground arith

  pub upgrade_accounts-returns :
      (first : ℕ) (c : InvokeContext) → Upgrade.upgrade_accounts sdk accounts first c ≢ panic
  unfolding Upgrade.upgrade_accounts
  upgrade_accounts-returns first c e = grind (arith, total.rent_returns, total.clock_returns)

  module _ (u : UpgradeAccounts) (c : InvokeContext) where
    pub verify_program-returns : (id : ℕ) → verify_program sdk u id c ≢ panic
    unfolding verify_program
    verify_program-returns id e =
        ground (arith, total.state_returns (c.cells u.program.cell).data_bytes)

    pub verify_buffer-returns : verify_buffer sdk u c ≢ panic
    unfolding verify_buffer
    verify_buffer-returns e = ground (arith, total.state_returns (c.cells u.buffer.cell).data_bytes)

    pub verify_programdata-returns :
        (l : UpgradeLengths)
        → (c.cells u.programdata.cell).lamports < 2 ^ 63
        → (c.cells u.buffer.cell).lamports < 2 ^ 63
        → verify_programdata sdk u l c ≢ panic
    unfolding verify_programdata
    verify_programdata-returns l small_p small_b e =
        ground
          (arith, small_p, small_b, total.state_returns (c.cells u.programdata.cell).data_bytes)
