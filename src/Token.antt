-- ===== src/Token.antt =====
-- programs/simple-token/src/lib.rs: the handlers of the simple token, each on the copies of its
-- accounts that the framework loads. The workspace's release profile has overflow checks, so `+=`
-- and `-=` panic out of range.
pub mod Run
pub mod Laws
pub mod Supply
use solana_sdk_sample.Base.{ℕ, ◌+◌, ◌-◌, ltb, leb, not, u64_bound, if◌then◌else◌}
use solana_sdk_sample.Runtime.Outcome.{
  Outcome, ok, err, panic, ◌>>=◌, ◌>>◌, fail_if, InstructionError, add_u64, other,
}

pub record TokenAccount : Type 0 where
  pub amount : ℕ  -- u64

-- `ErrorCode::InsufficientFunds`: the first of an Anchor program's own error codes
abbrev pub insufficient_funds : InstructionError
insufficient_funds = other 6000

-- `a - b` on `u64`, with overflow checks
abbrev pub sub_u64 : ℕ → ℕ → Outcome ℕ
sub_u64 a b = if ltb a b then panic else ok (a - b)

unfoldable pub initialize : TokenAccount → Outcome TokenAccount
initialize mint = ok (record mint { amount = 0 })

unfoldable pub mint : TokenAccount → ℕ → Outcome TokenAccount
mint account amount = do
  total ← add_u64 account.amount amount
  ok (record account { amount = total })

unfoldable pub burn : TokenAccount → ℕ → Outcome TokenAccount
burn account amount = do
  fail_if (not (leb amount account.amount)) insufficient_funds
  rest ← sub_u64 account.amount amount
  ok (record account { amount = rest })

unfoldable pub transfer : TokenAccount → TokenAccount → ℕ → Outcome (TokenAccount × TokenAccount)
transfer from to amount = do
  fail_if (not (leb amount from.amount)) insufficient_funds
  rest ← sub_u64 from.amount amount
  total ← add_u64 to.amount amount
  ok (record from { amount = rest }, record to { amount = total })
