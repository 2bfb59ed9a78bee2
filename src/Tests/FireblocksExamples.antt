-- ===== src/Tests/FireblocksExamples.antt =====
-- The Fireblocks connection at concrete inputs, with stand-ins for the two packages.
use Prim.Native.String.{String}
use text.Mathlib.Text.{◌==◌}
use solana_sdk_sample.Base.{
  ℕ, ◌≤◌, ◌≡◌, ◌≢◌, ◌↔◌, refl, Bool, ◌||◌, false, none, some, List, [], ◌∷◌, ltb, if◌then◌else◌,
}
use solana_sdk_sample.Fireblocks.{
  TransactionStatus, broadcasting, other, TransactionResponse, Result, returned, thrown, external,
}
use solana_sdk_sample.Fireblocks.Wait.{
  is_signed, has_failed, examine, after_poll, poll_loop, wait_for_signature,
}
use solana_sdk_sample.Fireblocks.Wait.Verdict.{first_verdict, wait_for_signature-first_verdict}
use solana_sdk_sample.Fireblocks.Wait.Ends.{Settles, wait_for_signature_ends_iff}
use solana_sdk_sample.Fireblocks.Wait.Outcomes.{IsEnd, wait_for_signature-IsEnd}
use solana_sdk_sample.Fireblocks.Adapter.{
  FeeLevel, Config, Adapter, Services, AssetId, new_adapter, set_account, set_external_tx_id,
  create, is_devnet, split_dot,
}
use solana_sdk_sample.Fireblocks.Adapter.Laws.{IsMade, IsUndotted, create-IsMade, create-IsUndotted}
use solana_sdk_sample.Fireblocks.Send.{
  Transaction, legacy, Signer, Web3, prepare, sign_one, sign_each, ready, payload_of,
  sign_with_fireblocks, await_hash, send_transaction,
}
use solana_sdk_sample.Fireblocks.Send.Signers.{before, sign_all, sign_each-before}
use solana_sdk_sample.Fireblocks.Send.Laws.{IsSent, send_transaction-IsSent}

abbrev answer : TransactionStatus → TransactionResponse
answer status = record { id = "tx"; status = status; sub_status = ""; tx_hash = "hash" }

-- Two pending answers, three errors, and the transaction is signed.
abbrev demo_api : ℕ → Result TransactionResponse
demo_api n =
    if ltb n 2
    then returned (answer (other 0))
    else if ltb n 5
    then thrown (external "timeout")
    else returned (answer broadcasting)

demo_wait : wait_for_signature demo_api 7 ≡ some (returned (answer broadcasting))
unfolding wait_for_signature poll_loop examine after_poll is_signed has_failed
demo_wait = refl

-- A fourth error ends the wait.
abbrev broken_api : ℕ → Result TransactionResponse
broken_api n = if ltb n 2 then returned (answer (other 0)) else thrown (external "timeout")

broken_wait : wait_for_signature broken_api 7 ≡ some (thrown (external "timeout"))
unfolding wait_for_signature poll_loop examine after_poll is_signed has_failed
broken_wait = refl

wait_for_signature-first_verdict_example :
    wait_for_signature demo_api 7 ≡ first_verdict demo_api 8 0
wait_for_signature-first_verdict_example = wait_for_signature-first_verdict demo_api 7

wait_for_signature_ends_iff_example :
    (wait_for_signature demo_api 7 ≢ none) ↔ ((n : ℕ) × (n ≤ 7) × Settles demo_api n)
wait_for_signature_ends_iff_example = wait_for_signature_ends_iff demo_api 7

wait_for_signature-IsEnd_example : IsEnd demo_api 7 (returned (answer broadcasting))
wait_for_signature-IsEnd_example =
    wait_for_signature-IsEnd demo_api 7 (returned (answer broadcasting)) demo_wait

-- web3's check of an endpoint, for the two that the tests use.
abbrev starts_http : String → Bool
starts_http endpoint =
    endpoint == "https://api.devnet.solana.com" || endpoint == "http://localhost:8899"

abbrev demo_services : Services
demo_services = record {
  connect = λ endpoint.
      if starts_http endpoint
      then returned tt
      else thrown (external "Endpoint URL must start with `http:` or `https:`.");
  read_file = λ path. returned "secret";
  get_deposit_addresses = λ vault asset. returned ("7" ∷ []);
  create_transaction = λ payload. returned (record { id = "tx" });
  get_transaction_by_id = λ id. demo_api;
}

abbrev demo_config : Config
demo_config = record {
  api_key = "key";
  api_secret_path = "path";
  vault_account_id = "0";
  devnet = false;
  fee_level = none;
}

abbrev demo_adapter : String → Adapter
demo_adapter endpoint = record {
  config = record demo_config { devnet = is_devnet endpoint };
  devnet = is_devnet endpoint;
  asset_id = if is_devnet endpoint then AssetId.solana_devnet else AssetId.solana_mainnet;
  fee_level = FeeLevel.medium;
  account = "7";
  tx_note = "";
  external_tx_id = "";
}

made :
    create demo_services "https://api.devnet.solana.com" demo_config
    ≡ returned (demo_adapter "https://api.devnet.solana.com")
unfolding create set_account new_adapter is_devnet split_dot set_external_tx_id
made = refl

create-IsMade_example :
    IsMade demo_services "https://api.devnet.solana.com" demo_config
      (demo_adapter "https://api.devnet.solana.com")
create-IsMade_example =
    create-IsMade demo_services "https://api.devnet.solana.com" demo_config
      (demo_adapter "https://api.devnet.solana.com") made

made_local :
    create demo_services "http://localhost:8899" demo_config
    ≡ returned (demo_adapter "http://localhost:8899")
unfolding create set_account new_adapter is_devnet split_dot set_external_tx_id
made_local = refl

local-IsUndotted : IsUndotted "http://localhost:8899"
local-IsUndotted = (
  refl,
  (
    refl,
    (
      refl,
      (
        refl,
        (
          refl,
          (
            refl,
            (
              refl,
              (
                refl,
                (
                  refl,
                  (
                    refl,
                    (
                      refl,
                      (
                        refl,
                        (refl, (refl, (refl, (refl, (refl, (refl, (refl, (refl, (refl, tt))))))))),
                      ),
                    ),
                  ),
                ),
              ),
            ),
          ),
        ),
      ),
    ),
  ),
)

create-IsUndotted_example :
    ((demo_adapter "http://localhost:8899").asset_id ≡ AssetId.solana_mainnet)
    × ((demo_adapter "http://localhost:8899").config.devnet ≡ false)
create-IsUndotted_example =
    create-IsUndotted demo_services "http://localhost:8899" demo_config
      (demo_adapter "http://localhost:8899") local-IsUndotted made_local

-- The account is the key 7, and signing adds the signer's key to the transaction's bytes.
abbrev demo_web3 : Web3
demo_web3 = record {
  public_key = λ account. returned 7;
  get_latest_blockhash = returned "block";
  partial_sign = λ tx signer. returned (record tx { rest = signer.public_key ∷ tx.rest });
  sign = λ tx signer. returned tx;
  serialize = λ tx. returned (1 ∷ 2 ∷ []);
  base64 = λ bytes. "AQI=";
}

abbrev signer_of : ℕ → Signer
signer_of key = record { public_key = key; secret_key = [] }

abbrev demo_signers : List Signer
demo_signers = signer_of 3 ∷ signer_of 7 ∷ signer_of 4 ∷ []

abbrev demo_transaction : Transaction
demo_transaction = legacy (record { recent_blockhash = ""; fee_payer = none; rest = [] })

sign_each-before_example :
    sign_each demo_web3 "7" demo_signers demo_transaction
    ≡ sign_all demo_web3 (before 7 demo_signers) demo_transaction
sign_each-before_example = sign_each-before demo_web3 "7" 7 demo_signers demo_transaction refl

abbrev at : Adapter
at = demo_adapter "https://api.devnet.solana.com"

sent :
    send_transaction demo_web3 demo_services at 7 demo_transaction (some demo_signers)
    ≡ (payload_of demo_web3 at (1 ∷ 2 ∷ []) ∷ [], some (returned "hash"))
unfolding send_transaction ready prepare sign_each sign_one sign_with_fireblocks await_hash
    wait_for_signature poll_loop examine after_poll is_signed has_failed
sent = refl

send_transaction-IsSent_example :
    IsSent demo_web3 demo_services at 7 demo_transaction
      (some demo_signers)
      (payload_of demo_web3 at (1 ∷ 2 ∷ []) ∷ [])
      "hash"
send_transaction-IsSent_example =
    send_transaction-IsSent demo_web3 demo_services at 7 demo_transaction (some demo_signers)
      (payload_of demo_web3 at (1 ∷ 2 ∷ []) ∷ []) "hash" sent
