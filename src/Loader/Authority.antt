-- ===== src/Loader/Authority.antt =====
-- scripts/ref/bpf_loader/src/lib.rs: the instruction SetAuthority.
pub mod Laws
pub mod Exact
use solana_sdk_sample.Base.{ℕ, ◌+◌, Option, none, some, List}
use solana_sdk_sample.Runtime.Outcome.{
  Outcome, ok, err, panic, ◌>>=◌ as outcome_bind, incorrect_authority, invalid_argument,
}
use solana_sdk_sample.Runtime.Account.{Pubkey, KeyedAccount, InvokeContext, keyed_account_at_index}
use solana_sdk_sample.Runtime.Action.{Action, ◌>>=◌, ◌>>◌, reads, lift}
use solana_sdk_sample.Runtime.Sdk.{Sdk}
use solana_sdk_sample.State
use solana_sdk_sample.State.{UpgradeableLoaderState}
use solana_sdk_sample.Loader.Accounts.{check_authority, state_of, set_state_of}

-- `.ok().map(|account| account.unsigned_key())`
abbrev pub optional_key : Outcome KeyedAccount → Option Pubkey
optional_key (ok a) = some a.unsigned_key
optional_key (err e) = none
optional_key panic = none

-- The state to write, or the refusal.
unfoldable pub new_state :
    UpgradeableLoaderState → KeyedAccount → Option Pubkey → Outcome UpgradeableLoaderState
unfolding check_authority
new_state (State.buffer authority_address) present none = err incorrect_authority
new_state (State.buffer authority_address) present (some new) =
    outcome_bind (check_authority authority_address present) (λ _. ok (State.buffer (some new)))
new_state (State.program_data slot upgrade_authority_address) present new_authority =
    outcome_bind (check_authority upgrade_authority_address present)
      (λ _. ok (State.program_data slot new_authority))
new_state _ present new_authority = err invalid_argument

module _ (sdk : Sdk) where
  unfoldable pub set_authority : List KeyedAccount → ℕ → Action (Unit {0})
  unfolding new_state
  set_authority keyed_accounts first_instruction_account = do
    account ← lift (keyed_account_at_index keyed_accounts first_instruction_account)
    present_authority ← lift (keyed_account_at_index keyed_accounts (first_instruction_account + 1))
    let new_authority =
        optional_key (keyed_account_at_index keyed_accounts (first_instruction_account + 2))
    state ← reads (state_of sdk account)
    next ← lift (new_state state present_authority new_authority)
    set_state_of sdk account next
