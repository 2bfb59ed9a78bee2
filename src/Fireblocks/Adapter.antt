-- ===== src/Fireblocks/Adapter.antt =====
-- scripts/fireblocks/lib/FireblocksConnectionAdapter.ts: the adapter, its setters, and its factory
-- `create`. `validateConfig` is never called, and is left out.
pub mod Laws
use Prim.Native.Char.{Char, code}
use Prim.Native.String
use Prim.Native.String.{String}
use text.Mathlib.Text.{◌==◌}
use solana_sdk_sample.Base.{
  ℕ, Bool, true, false, ◌||◌, Option, none, some, List, [], ◌∷◌, get_elem?, ◌==◌ as nat_eq,
  if◌then◌else◌,
}
use solana_sdk_sample.Runtime.Account.{Pubkey, Bytes}
use solana_sdk_sample.Fireblocks.{
  Result, returned, thrown, Thrown, ◌>>=◌, rethrow, CreateTransactionResponse, TransactionResponse,
  endpoint_required, no_wallet_address, failed_to_set_account, failed_to_initialize,
}

pub data FeeLevel : Type 0 where
  high medium low : FeeLevel

pub data AssetId : Type 0 where
  solana_devnet solana_mainnet : AssetId

-- The fields of the configuration that the code reads. `vaultAccountId` is a text or a number, and is
-- only used as the text.
pub record Config : Type 0 where
  pub api_key : String
  pub api_secret_path : String
  pub vault_account_id : String
  pub devnet : Bool
  pub fee_level : Option FeeLevel

pub record Adapter : Type 0 where
  pub config : Config
  pub devnet : Bool
  pub asset_id : AssetId
  pub fee_level : FeeLevel
  pub account : String
  pub tx_note : String
  pub external_tx_id : String

-- The request that Fireblocks gets, with its constant parts left out: the operation PROGRAM_CALL, the
-- source's type VAULT_ACCOUNT, and the durable nonce.
pub record TransactionArguments : Type 0 where
  pub asset_id : AssetId
  pub fee_level : FeeLevel
  pub source_id : String
  pub note : String
  pub program_call_data : String
  pub external_tx_id : String

-- `config.feeLevel || FeeLevel.MEDIUM`
abbrev pub or_medium : Option FeeLevel → FeeLevel
or_medium none = FeeLevel.medium
or_medium (some l) = l

abbrev pub asset_of : Bool → AssetId
asset_of devnet = if devnet then AssetId.solana_devnet else AssetId.solana_mainnet

unfoldable pub set_tx_note : String → Adapter → Adapter
set_tx_note tx_note a = record a { tx_note = tx_note }

unfoldable pub set_external_tx_id : String → Adapter → Adapter
set_external_tx_id id a = record a { external_tx_id = id }

unfoldable pub set_fee_level : FeeLevel → Adapter → Adapter
set_fee_level level a = record a { fee_level = level }

abbrev pub on_first : Char → List String → List String
on_first ch [] = []
on_first ch (part ∷ parts) = String.◌∷◌ ch part ∷ parts

-- `text.split(".")`
unfoldable pub split_dot : String → List String
split_dot String.[] = "" ∷ []
split_dot (String.◌∷◌ ch rest) =
    let parts = split_dot rest in if nat_eq (code ch) b'.' then "" ∷ parts else on_first ch parts

abbrev pub is_test_environment : Option String → Bool
is_test_environment none = false
is_test_environment (some environment) = environment == "devnet" || environment == "testnet"

-- Whether the endpoint's second part, behind its first dot, is `devnet` or `testnet`.
unfoldable pub is_devnet : String → Bool
unfolding split_dot
is_devnet endpoint = is_test_environment (get_elem? (split_dot endpoint) 1)

-- The files, web3's connection, and the Fireblocks client.
pub record Services : Type 0 where
  -- web3's `Connection` constructor, which throws for an endpoint that is no URL
  pub connect : String → Result (Unit {0})
  pub read_file : String → Result String
  pub get_deposit_addresses : String → AssetId → Result (List String)
  pub create_transaction : TransactionArguments → Result CreateTransactionResponse
  -- the answer to each call for the transaction of the given id
  pub get_transaction_by_id : String → ℕ → Result TransactionResponse

-- The constructor, which makes the connection first
unfoldable pub new_adapter : Services → String → Config → Result Adapter
new_adapter s endpoint config = do
  connection ← s.connect endpoint
  returned (record {
    config = config;
    devnet = config.devnet;
    asset_id = asset_of config.devnet;
    fee_level = or_medium config.fee_level;
    account = "";
    tx_note = "";
    external_tx_id = "";
  })

-- `solWallet?.[0]?.address`, which has to be there
abbrev pub first_address : List String → Result String
first_address [] = thrown no_wallet_address
first_address (address ∷ rest) =
    if address == "" then thrown no_wallet_address else returned address

unfoldable pub set_account : Services → String → Bool → Adapter → Result Adapter
set_account s vault_account devnet a = rethrow failed_to_set_account (do
  addresses ← s.get_deposit_addresses vault_account (asset_of devnet)
  address ← first_address addresses
  returned (record a { account = address }))

-- The factory, by which `config.devnet` is overwritten.
unfoldable pub create : Services → String → Config → Result Adapter
unfolding is_devnet new_adapter set_account set_external_tx_id
create s endpoint config =
    let devnet = is_devnet endpoint in
    if endpoint == ""
    then thrown endpoint_required
    else rethrow failed_to_initialize (do
      secret ← s.read_file config.api_secret_path
      adapter ← new_adapter s endpoint (record config { devnet = devnet })
      ready ← set_account s config.vault_account_id devnet adapter
      returned (set_external_tx_id "" ready))
