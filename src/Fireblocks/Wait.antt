-- ===== src/Fireblocks/Wait.antt =====
-- scripts/fireblocks/lib/helpers.ts: `waitForSignature`. Call number `n` of `getTransactionById` gets
-- the answer `api n`. The loop has no limit of its own, so it runs on fuel, the calls that it may still
-- make; without an end within them the result is `none`. What it logs and its delays are left out.
pub mod Verdict
pub mod Settled
pub mod Ends
pub mod Outcomes
use solana_sdk_sample.Base.{
  ℕ, zero, suc, ◌+◌, Bool, true, false, ◌||◌, Option, none, some, leb, if◌then◌else◌,
}
use solana_sdk_sample.Fireblocks.{
  TransactionStatus, completed, broadcasting, blocked, cancelled, failed, rejected, other,
  TransactionResponse, Thrown, failed_with_status, Result, returned, thrown,
}

abbrev pub max_retries : ℕ
max_retries = 3

-- The condition that ends the loop
unfoldable pub is_signed : TransactionStatus → Bool
is_signed completed = true
is_signed broadcasting = true
is_signed _ = false

-- `failedStatuses.has(status)`
unfoldable pub has_failed : TransactionStatus → Bool
has_failed blocked = true
has_failed cancelled = true
has_failed failed = true
has_failed rejected = true
has_failed _ = false

-- The loop's condition and its first test, and the rest of a round if neither ends it.
unfoldable pub examine :
    TransactionResponse → Option (Result TransactionResponse) → Option (Result TransactionResponse)
unfolding is_signed has_failed
examine tx_response rest =
    if is_signed tx_response.status
    then some (returned tx_response)
    else if has_failed tx_response.status
    then some (thrown (failed_with_status tx_response))
    else rest

-- The second part of a round: an answer, or an error, of which three are tolerated.
unfoldable pub after_poll :
    ℕ
    → TransactionResponse
    → Result TransactionResponse
    → (ℕ → TransactionResponse → Option (Result TransactionResponse))
    → Option (Result TransactionResponse)
after_poll retries tx_response (returned answer) next = next retries answer
after_poll retries tx_response (thrown error) next =
    if leb max_retries retries then some (thrown error) else next (retries + 1) tx_response

module _ (api : ℕ → Result TransactionResponse) where
  -- The loop, with the calls that it may still make, the calls made and the errors tolerated.
  unfoldable pub poll_loop : ℕ → ℕ → ℕ → TransactionResponse → Option (Result TransactionResponse)
  unfolding examine after_poll
  poll_loop zero made retries tx_response = examine tx_response none
  poll_loop (suc fuel) made retries tx_response =
      examine tx_response (after_poll retries tx_response (api made) (poll_loop fuel (suc made)))

  -- An error of the first call is not tolerated.
  abbrev pub enter_loop : Result TransactionResponse → ℕ → Option (Result TransactionResponse)
  enter_loop (returned tx_response) fuel = poll_loop fuel 1 0 tx_response
  enter_loop (thrown error) fuel = some (thrown error)

  unfoldable pub wait_for_signature : ℕ → Option (Result TransactionResponse)
  unfolding poll_loop
  wait_for_signature fuel = enter_loop (api 0) fuel
