-- ===== src/Fireblocks/Send/Laws.antt =====
-- What `sendTransaction` has done when it returns a hash.
use Prim.Native.String.{String}
use text.Mathlib.Text.{◌==◌}
use mathlib.Core.Option
use solana_sdk_sample.Base.{
  ℕ, ◌≡◌, refl, sym, ap, subst, ◌∙◌, Bool, true, false, Option, none, some, List, [], ◌∷◌,
  if◌then◌else◌,
}
use solana_sdk_sample.Runtime.Account.{Bytes}
use solana_sdk_sample.Fireblocks.{
  Result, returned, thrown, rethrow, rethrow-returned, CreateTransactionResponse,
  TransactionResponse, hash_not_found, failed_to_sign, failed_to_send,
}
use solana_sdk_sample.Fireblocks.Wait.{wait_for_signature}
use solana_sdk_sample.Fireblocks.Wait.Outcomes.{IsEnd, wait_for_signature-IsEnd}
use solana_sdk_sample.Fireblocks.Adapter.{Adapter, Services, TransactionArguments}
use solana_sdk_sample.Fireblocks.Send.Prepared.{
  IsPrepared, AreSigning, IsSignedBy, IsRequest, ready-Signed, payload_of-IsRequest,
}
use solana_sdk_sample.Fireblocks.Send.{
  Transaction, Signer, Web3, ready, payload_of, sign_with_fireblocks, hash_of, await_hash,
  submit_bytes, after_submit, submit, send_transaction,
}

-- The hash that is returned is there.
text_end :
    (b : Bool) (x hash : String)
    → (x == "") ≡ b
    → rethrow failed_to_send (if b then thrown hash_not_found else returned x) ≡ returned hash
    → (x ≡ hash) × ((hash == "") ≡ false)
text_end true x hash e h = cc
text_end false x hash e h =
    let same : x ≡ hash = cc in (same, subst (λ y. (y == "") ≡ false) same e)

module _ (w : Web3) (s : Services) (a : Adapter) (fuel : ℕ) where
  -- The transaction that Fireblocks got, and how it came to the hash.
  pub record IsSent (tx : Transaction) (signers : Option (List Signer))
      (sent : List TransactionArguments) (hash : String) : Type 0 where
    pub prepared : Transaction
    pub signing : List Signer
    pub signed : Transaction
    pub serialized : Bytes
    pub request : TransactionArguments
    pub response : CreateTransactionResponse
    pub final : TransactionResponse
    pub is_prepared : IsPrepared w a.account tx prepared
    pub are_signing : AreSigning w a.account signers signing
    pub is_signed : IsSignedBy w signing prepared signed
    pub is_serialized : w.serialize signed ≡ returned serialized
    pub is_request : IsRequest w a serialized request
    pub is_submitted : sent ≡ request ∷ []
    pub is_created : s.create_transaction request ≡ returned response
    pub is_waited_for : IsEnd (s.get_transaction_by_id response.id) fuel (returned final)
    pub is_hash : final.tx_hash ≡ hash
    pub is_there : (hash == "") ≡ false

  -- The hash at the end of the wait.
  awaited :
      (response : Result CreateTransactionResponse) (hash : String)
      → Option.map (rethrow failed_to_send) (await_hash w s fuel response) ≡ some (returned hash)
      → (r : CreateTransactionResponse) × (response ≡ returned r)
        × ((t : TransactionResponse) × (wait_for_signature (s.get_transaction_by_id r.id) fuel
              ≡ some (returned t))
            × (t.tx_hash ≡ hash)
            × ((hash == "") ≡ false))
  unfolding await_hash
  awaited (thrown e) hash h = cc
  awaited (returned r) hash h =
      (r, refl, go (wait_for_signature (s.get_transaction_by_id r.id) fuel) refl h)
    where
      go :
          (o : Option (Result TransactionResponse))
          → wait_for_signature (s.get_transaction_by_id r.id) fuel ≡ o
          → Option.map (rethrow failed_to_send) (Option.map (hash_of w) o) ≡ some (returned hash)
          → (t : TransactionResponse) × (wait_for_signature (s.get_transaction_by_id r.id) fuel
              ≡ some (returned t))
            × (t.tx_hash ≡ hash)
            × ((hash == "") ≡ false)
      go none e h = cc
      go (some (thrown x)) e h = cc
      go (some (returned t)) e h =
          let (same, there) = text_end (t.tx_hash == "") t.tx_hash hash refl (cc) in
          (t, e, same, there)

  -- The submission of a transaction that is ready.
  submitted :
      (tx signed : Transaction) (signers : Option (List Signer)) (x : Result Bytes)
      (sent : List TransactionArguments) (hash : String)
      → ready w a tx signers ≡ returned signed
      → w.serialize signed ≡ x
      → after_submit w s fuel (submit_bytes w s a x) ≡ (sent, some (returned hash))
      → IsSent tx signers sent hash
  unfolding await_hash
  submitted tx signed signers (thrown e) sent hash is_ready es h = cc
  submitted tx signed signers (returned bytes) sent hash is_ready es h =
      let (r, created, rest) =
        awaited (rethrow failed_to_sign (s.create_transaction (payload_of w a bytes))) hash
          (ap (λ (x : List TransactionArguments × Option (Result String)). x.1) h) in
      let (prepared, is_prepared, by) = ready-Signed w a tx signed signers is_ready in
      let (t, waited, same, there) = rest in
      record {
        prepared = prepared;
        signing = by.0;
        signed = signed;
        serialized = bytes;
        request = payload_of w a bytes;
        response = r;
        final = t;
        is_prepared = is_prepared;
        are_signing = by.1;
        is_signed = by.2;
        is_serialized = es;
        is_request = payload_of-IsRequest w a bytes;
        is_submitted = ap (λ (x : List TransactionArguments × Option (Result String)). x.0) (sym h);
        is_created = rethrow-returned failed_to_sign _ r created;
        is_waited_for =
            wait_for_signature-IsEnd (s.get_transaction_by_id r.id) fuel (returned t) waited;
        is_hash = same;
        is_there = there;
      }

  -- A hash that `sendTransaction` returns is that of one transaction: the one given, with the latest
  -- blockhash and the account as its fee payer if it had no blockhash, signed by the signers before the
  -- fee payer, one after another. Its bytes were submitted to Fireblocks, for the adapter's asset, vault
  -- account, fee level, note and external id, and nothing else was. The wait for it ended with an answer whose status is COMPLETED or BROADCASTING, and which has this hash,
  -- and the hash is not empty.
  pub send_transaction-IsSent :
      (tx : Transaction) (signers : Option (List Signer)) (sent : List TransactionArguments)
      (hash : String)
      → send_transaction w s a fuel tx signers ≡ (sent, some (returned hash))
      → IsSent tx signers sent hash
  unfolding send_transaction sign_with_fireblocks
  send_transaction-IsSent tx signers sent hash = go (ready w a tx signers) refl
    where
      go :
          (r : Result Transaction)
          → ready w a tx signers ≡ r
          → submit w s a fuel (ready w a tx signers) ≡ (sent, some (returned hash))
          → IsSent tx signers sent hash
      go (thrown e) er h = cc
      go (returned signed) er h =
          submitted tx signed signers (w.serialize signed) sent hash er refl
            (sym (ap (submit w s a fuel) er) ∙ h)
