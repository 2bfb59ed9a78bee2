-- ===== src/Loader/Frozen.antt =====
-- Fixed accounts: a ProgramData or Buffer account without an authority, and a Program account; and
-- what keeps their data, their owner and their lamports.
pub mod Steps
pub mod Handlers
pub mod Commits
pub mod Deploy
pub mod Process
use solana_sdk_sample.Base.{ℕ, ◌≤◌, ◌≡◌, ◌≢◌, Bool, true, false, Option, none, some, List, []}
use solana_sdk_sample.Runtime.Outcome.{ok}
use solana_sdk_sample.Runtime.Account.{
  Account, Bytes, Pubkey, KeyedAccount, InvokeContext, keyed_account_at_index,
}
use solana_sdk_sample.Runtime.Sdk.{Sdk}
use solana_sdk_sample.State
use solana_sdk_sample.State.{UpgradeableLoaderState}
use solana_sdk_sample.Loader.Deploy.{DeployAccounts, create_instruction}

abbrev pub is_fixed : UpgradeableLoaderState → Bool
is_fixed (State.buffer none) = true
is_fixed (State.program_data slot none) = true
is_fixed (State.program k) = true
is_fixed _ = false

-- The account is the same, but for lamports that it may have got.
pub record Preserved (a b : Account) : Type 0 where
  pub data_same : b.data_bytes ≡ a.data_bytes
  pub owner_same : b.owner ≡ a.owner
  pub executable_same : b.executable ≡ a.executable
  pub lamports_le : a.lamports ≤ b.lamports

-- The system program's CreateAccount, invoked by the loader: it refuses a new account that has
-- data, and a payer that has data; so it leaves every account with data alone. The caller gets its
-- accounts back.
pub record IsCreateAccount (sdk : Sdk) : Type 0 where
  pub keeps_data :
      (d : DeployAccounts) (len : ℕ) (id : Pubkey) (signers : List Pubkey) (c c' : InvokeContext)
      (x : ℕ)
      → sdk.native_invoke (create_instruction sdk d len id) signers c ≡ (ok tt, c')
      → (c.cells x).data_bytes ≢ []
      → Preserved (c.cells x) (c'.cells x)
  pub new_has_no_data :
      (d : DeployAccounts) (len : ℕ) (id : Pubkey) (signers : List Pubkey) (c c' : InvokeContext)
      (accounts : List KeyedAccount) (i : ℕ) (a : KeyedAccount)
      → sdk.native_invoke (create_instruction sdk d len id) signers c ≡ (ok tt, c')
      → c.keyed_accounts ≡ ok accounts
      → keyed_account_at_index accounts i ≡ ok a
      → a.unsigned_key ≡ d.programdata.unsigned_key
      → (c.cells a.cell).data_bytes ≡ []
  pub keeps_accounts :
      (d : DeployAccounts) (len : ℕ) (id : Pubkey) (signers : List Pubkey) (c c' : InvokeContext)
      → sdk.native_invoke (create_instruction sdk d len id) signers c ≡ (ok tt, c')
      → c'.keyed_accounts ≡ c.keyed_accounts
