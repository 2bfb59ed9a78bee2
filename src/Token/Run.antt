-- ===== src/Token/Run.antt =====
-- programs/simple-token/src/lib.rs: the instructions, with the accounts that their `Accounts`
-- structs name. What the framework does around a handler is a parameter.
use solana_sdk_sample.Base.{ℕ, ◌≡◌, ◌≢◌}
use solana_sdk_sample.Runtime.Outcome.{Outcome, ok, ◌>>=◌}
use solana_sdk_sample.Runtime.Account.{Pubkey}
use solana_sdk_sample.Token.{TokenAccount, initialize, mint, burn, transfer}

-- The framework over a ledger of token accounts: `load` deserialises one into a copy, `exit` writes
-- a copy back, and `create` makes the account of an `init` constraint, paid by the user.
pub record Anchor (Ledger : Type 0) : Type 0 where
  pub load : Pubkey → Ledger → Outcome TokenAccount
  pub exit : Pubkey → TokenAccount → Ledger → Ledger
  pub create : Pubkey → Pubkey → Ledger → Outcome Ledger

-- What a handler relies on: a balance that was written is read back, and no other changes.
pub record IsFaithful {Ledger : Type 0} (anchor : Anchor Ledger) : Type 0 where
  pub load-exit_self :
      (k : Pubkey) (a : TokenAccount) (l : Ledger) → anchor.load k (anchor.exit k a l) ≡ ok a
  pub load-exit_ne :
      (k j : Pubkey) (a : TokenAccount) (l : Ledger)
      → k ≢ j
      → anchor.load j (anchor.exit k a l) ≡ anchor.load j l

module _ {Ledger : Type 0} (anchor : Anchor Ledger) where
  unfoldable pub run_initialize : Pubkey → Pubkey → Ledger → Outcome Ledger
  unfolding initialize
  run_initialize mint_key user l = do
    created ← anchor.create mint_key user l
    account ← anchor.load mint_key created
    account' ← initialize account
    ok (anchor.exit mint_key account' created)

  unfoldable pub run_mint : Pubkey → ℕ → Ledger → Outcome Ledger
  run_mint mint_key amount l = do
    account ← anchor.load mint_key l
    account' ← mint account amount
    ok (anchor.exit mint_key account' l)

  unfoldable pub run_burn : Pubkey → ℕ → Ledger → Outcome Ledger
  run_burn mint_key amount l = do
    account ← anchor.load mint_key l
    account' ← burn account amount
    ok (anchor.exit mint_key account' l)

  -- Both accounts are loaded before the handler, and written back in the order of the struct.
  unfoldable pub run_transfer : Pubkey → Pubkey → ℕ → Ledger → Outcome Ledger
  run_transfer from_key to_key amount l = do
    from ← anchor.load from_key l
    to ← anchor.load to_key l
    (from', to') ← transfer from to amount
    ok (anchor.exit to_key to' (anchor.exit from_key from' l))
