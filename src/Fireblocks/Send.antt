-- ===== src/Fireblocks/Send.antt =====
-- scripts/fireblocks/lib/FireblocksConnectionAdapter.ts: `sendTransaction` and `signWithFireblocks`.
-- The transaction's object is a value: what an error leaves of it is left out.
pub mod Signers
pub mod Prepared
pub mod Laws
use Prim.Native.String.{String}
use mathlib.Core.Option
use text.Mathlib.Text.{◌==◌}
use solana_sdk_sample.Base.{
  ℕ, Bool, Option, none, some, List, [], ◌∷◌, ◌==◌ as key_eq, if◌then◌else◌,
}
use solana_sdk_sample.Runtime.Account.{Pubkey, Bytes}
use solana_sdk_sample.Fireblocks.{
  Result, returned, thrown, Thrown, ◌>>=◌, rethrow, CreateTransactionResponse, TransactionResponse,
  hash_not_found, no_account_key, failed_to_sign, failed_to_send,
}
use solana_sdk_sample.Fireblocks.Wait.{wait_for_signature}
use solana_sdk_sample.Fireblocks.Adapter.{Adapter, Services, TransactionArguments}

-- What the adapter reads and writes of a transaction, and the rest of it.
pub record LegacyTransaction : Type 0 where
  pub recent_blockhash : String
  pub fee_payer : Option Pubkey
  pub rest : Bytes

pub record VersionedTransaction : Type 0 where
  pub recent_blockhash : String
  pub static_account_keys : List Pubkey
  pub rest : Bytes

pub data Transaction : Type 0 where
  legacy : LegacyTransaction → Transaction
  versioned : VersionedTransaction → Transaction

pub record Signer : Type 0 where
  pub public_key : Pubkey
  pub secret_key : Bytes

-- The web3 package.
pub record Web3 : Type 0 where
  pub public_key : String → Result Pubkey
  pub get_latest_blockhash : Result String
  pub partial_sign : LegacyTransaction → Signer → Result LegacyTransaction
  pub sign : VersionedTransaction → Signer → Result VersionedTransaction
  pub serialize : Transaction → Result Bytes
  pub base64 : Bytes → String

-- The first account of a message pays its fee.
abbrev pub with_payer : Pubkey → List Pubkey → Result (List Pubkey)
with_payer payer [] = thrown no_account_key
with_payer payer (key ∷ keys) =
    if key_eq key payer then returned (key ∷ keys) else returned (payer ∷ keys)

module _ (w : Web3) where
  abbrev pub fill_legacy : String → LegacyTransaction → Result Transaction
  fill_legacy account tx = do
    blockhash ← w.get_latest_blockhash
    payer ← w.public_key account
    returned (legacy (record tx { recent_blockhash = blockhash; fee_payer = some payer }))

  abbrev pub fill_versioned : String → VersionedTransaction → Result Transaction
  fill_versioned account tx = do
    blockhash ← w.get_latest_blockhash
    payer ← w.public_key account
    keys ← with_payer payer tx.static_account_keys
    returned (versioned (record tx { recent_blockhash = blockhash; static_account_keys = keys }))

  -- Without a blockhash, the transaction gets one, and the account as its fee payer.
  unfoldable pub prepare : String → Transaction → Result Transaction
  prepare account (legacy tx) =
      if tx.recent_blockhash == "" then fill_legacy account tx else returned (legacy tx)
  prepare account (versioned tx) =
      if tx.recent_blockhash == "" then fill_versioned account tx else returned (versioned tx)

  unfoldable pub sign_one : Transaction → Signer → Result Transaction
  sign_one (legacy tx) signer = do signed ← w.partial_sign tx signer; returned (legacy signed)
  sign_one (versioned tx) signer = do signed ← w.sign tx signer; returned (versioned signed)

  -- The loop over the signers, which the fee payer ends.
  unfoldable pub sign_each : String → List Signer → Transaction → Result Transaction
  unfolding sign_one
  sign_each account [] tx = returned tx
  sign_each account (signer ∷ signers) tx = w.public_key account >>= λ payer.
      let rest = sign_one tx signer >>= sign_each account signers in
      if key_eq signer.public_key payer then returned tx else rest

  -- `signers` may be absent, or be the options.
  abbrev pub given_signers : Option (List Signer) → List Signer
  given_signers none = []
  given_signers (some signers) = signers

  unfoldable pub ready : Adapter → Transaction → Option (List Signer) → Result Transaction
  unfolding prepare sign_each
  ready a tx signers = do
    prepared ← prepare a.account tx
    sign_each a.account (given_signers signers) prepared

  -- `note: this.txNote || "Created by Solana Web3 Adapter"`
  abbrev pub note_of : String → String
  note_of tx_note = if tx_note == "" then "Created by Solana Web3 Adapter" else tx_note

  unfoldable pub payload_of : Adapter → Bytes → TransactionArguments
  payload_of a serialized = record {
    asset_id = a.asset_id;
    fee_level = a.fee_level;
    source_id = a.config.vault_account_id;
    note = note_of a.tx_note;
    program_call_data = w.base64 serialized;
    external_tx_id = a.external_tx_id;
  }

  -- What one call of the adapter has submitted to Fireblocks, and its result.
  abbrev pub Submission : Type 0 → Type 0
  Submission A = List TransactionArguments × A

  -- The request with a transaction's bytes, if there are any.
  abbrev pub submit_bytes :
      Services → Adapter → Result Bytes → Submission (Result CreateTransactionResponse)
  submit_bytes s a (thrown e) = ([], thrown (failed_to_sign e))
  submit_bytes s a (returned serialized) =
      let payload = payload_of a serialized in
      (payload ∷ [], rethrow failed_to_sign (s.create_transaction payload))

  unfoldable pub sign_with_fireblocks :
      Services → Adapter → Transaction → Submission (Result CreateTransactionResponse)
  unfolding payload_of
  sign_with_fireblocks s a tx = submit_bytes s a (w.serialize tx)

  abbrev pub hash_of : Result TransactionResponse → Result String
  hash_of (thrown e) = thrown e
  hash_of (returned t) = if t.tx_hash == "" then thrown hash_not_found else returned t.tx_hash

  -- The wait for the submitted transaction; `none` when it is not over after the calls.
  unfoldable pub await_hash :
      Services → ℕ → Result CreateTransactionResponse → Option (Result String)
  await_hash s fuel (thrown e) = some (thrown e)
  await_hash s fuel (returned response) =
      Option.map hash_of (wait_for_signature (s.get_transaction_by_id response.id) fuel)

  abbrev pub after_submit :
      Services
      → ℕ
      → Submission (Result CreateTransactionResponse)
      → Submission (Option (Result String))
  after_submit s fuel (sent, response) =
      (sent, Option.map (rethrow failed_to_send) (await_hash s fuel response))

  abbrev pub submit :
      Services → Adapter → ℕ → Result Transaction → Submission (Option (Result String))
  submit s a fuel (thrown e) = ([], some (thrown (failed_to_send e)))
  submit s a fuel (returned tx) = after_submit s fuel (sign_with_fireblocks s a tx)

  unfoldable pub send_transaction :
      Services
      → Adapter
      → ℕ
      → Transaction
      → Option (List Signer)
      → Submission (Option (Result String))
  unfolding ready sign_with_fireblocks await_hash
  send_transaction s a fuel tx signers = submit s a fuel (ready a tx signers)
