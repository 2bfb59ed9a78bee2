-- ===== src/Fireblocks/Adapter/Laws.antt =====
-- What the factory makes, and which network it takes an endpoint for.
use Prim.Native.Char.{code}
use Prim.Native.String.{String}
use text.Mathlib.Text.{◌==◌}
use solana_sdk_sample.Base.{
  ◌≡◌, refl, ap, subst, ◌⊎◌, inl, inr, ◌||◌, Option, none, some, ◌∙◌, Bool, true, false, List, [],
  ◌∷◌, get_elem?, ◌==◌ as nat_eq, if◌then◌else◌,
}
use solana_sdk_sample.Fireblocks.{
  Result, returned, thrown, ◌>>=◌, rethrow, rethrow-returned, bind-returned, endpoint_required,
  no_wallet_address, failed_to_set_account, failed_to_initialize,
}
use solana_sdk_sample.Fireblocks.Adapter.{
  FeeLevel, Config, Adapter, Services, AssetId, asset_of, or_medium, new_adapter, set_account,
  first_address, create, is_devnet, is_test_environment, split_dot, set_external_tx_id,
}

-- No character of the text is a dot.
abbrev pub IsUndotted : String → Type 0
IsUndotted String.[] = Unit
IsUndotted (String.◌∷◌ ch rest) = (nat_eq (code ch) b'.' ≡ false) × IsUndotted rest

split_dot-IsUndotted : (text : String) → IsUndotted text → split_dot text ≡ text ∷ []
unfolding split_dot
split_dot-IsUndotted String.[] h = refl
split_dot-IsUndotted (String.◌∷◌ ch rest) (h, more) = rw (h, split_dot-IsUndotted rest more) refl

-- The endpoint's part behind its first dot, up to the next one, names a test network.
abbrev pub IsTest : String → Type 0
IsTest endpoint =
    (environment : String) × (get_elem? (split_dot endpoint) 1 ≡ some environment)
    × (((environment == "devnet") ≡ true) ⊎ ((environment == "testnet") ≡ true))

or_true : (b : Bool) → (b || true) ≡ true
or_true true = refl
or_true false = refl

is_test_environment-true :
    (o : Option String) (environment : String)
    → o ≡ some environment
    → ((environment == "devnet") ≡ true) ⊎ ((environment == "testnet") ≡ true)
    → is_test_environment o ≡ true
is_test_environment-true none environment e h = cc
is_test_environment-true (some x) environment e h =
    let same : x ≡ environment = cc in
    named h (ap (λ y. y == "devnet") same) (ap (λ y. y == "testnet") same)
  where
    named :
        ((environment == "devnet") ≡ true) ⊎ ((environment == "testnet") ≡ true)
        → (x == "devnet") ≡ (environment == "devnet")
        → (x == "testnet") ≡ (environment == "testnet")
        → (x == "devnet" || x == "testnet") ≡ true
    named (inl d) a b = rw (a, d) refl
    named (inr t) a b = rw (b, t) (or_true (x == "devnet"))

is_test_environment-named :
    (o : Option String)
    → is_test_environment o ≡ true
    → (environment : String) × (o ≡ some environment)
      × (((environment == "devnet") ≡ true) ⊎ ((environment == "testnet") ≡ true))
is_test_environment-named none h = cc
is_test_environment-named (some x) h = (x, refl, go (x == "devnet") (x == "testnet") h)
  where
    go : (a b : Bool) → (a || b) ≡ true → (a ≡ true) ⊎ (b ≡ true)
    go true b h = inl refl
    go false b h = inr h

-- A made adapter, and the wallet that it is for.
pub record IsMade (s : Services) (endpoint : String) (config : Config) (a : Adapter) : Type 0 where
  pub secret : String
  pub wallet : List String
  pub has_secret : s.read_file config.api_secret_path ≡ returned secret
  pub connected : s.connect endpoint ≡ returned tt
  pub found :
      s.get_deposit_addresses config.vault_account_id a.asset_id ≡ returned (a.account ∷ wallet)
  pub has_account : (a.account == "") ≡ false
  pub on_test : IsTest endpoint → (a.asset_id ≡ AssetId.solana_devnet) × (a.config.devnet ≡ true)
  pub on_main :
      (IsTest endpoint → ⊥) → (a.asset_id ≡ AssetId.solana_mainnet) × (a.config.devnet ≡ false)
  pub level_given : (l : FeeLevel) → config.fee_level ≡ some l → a.fee_level ≡ l
  pub level_default : config.fee_level ≡ none → a.fee_level ≡ FeeLevel.medium

first_address_lem :
    (addresses : List String) (address : String)
    → first_address addresses ≡ returned address
    → (rest : List String) × (addresses ≡ address ∷ rest) × ((address == "") ≡ false)
first_address_lem [] address h = cc
first_address_lem (x ∷ rest) address h = go (x == "") refl h
  where
    go :
        (b : Bool)
        → (x == "") ≡ b
        → (if b then thrown no_wallet_address else returned x) ≡ returned address
        → (more : List String) × ((x ∷ rest) ≡ address ∷ more) × ((address == "") ≡ false)
    go true e h = cc
    go false e h =
        let same : x ≡ address = cc in
        (rest, ap (λ y. y ∷ rest) same, subst (λ y. (y == "") ≡ false) same e)

module _ (s : Services) (endpoint : String) (config : Config) where
  -- What the constructor makes.
  abbrev base : Adapter
  base = record {
    config = record config { devnet = is_devnet endpoint };
    devnet = is_devnet endpoint;
    asset_id = asset_of (is_devnet endpoint);
    fee_level = or_medium config.fee_level;
    account = "";
    tx_note = "";
    external_tx_id = "";
  }

  on_network :
      (b : Bool)
      → is_devnet endpoint ≡ b
      → (IsTest endpoint → (asset_of b ≡ AssetId.solana_devnet) × (b ≡ true))
        × ((IsTest endpoint → ⊥) → (asset_of b ≡ AssetId.solana_mainnet) × (b ≡ false))
  unfolding is_devnet
  on_network true e = (
    λ t. (refl, refl),
    λ other. absurd (other (is_test_environment-named (get_elem? (split_dot endpoint) 1) e)),
  )
  on_network false e = (
    λ t. cc (is_test_environment-true (get_elem? (split_dot endpoint) 1) t.0 t.1 t.2),
    λ other. (refl, refl),
  )

  level :
      (o : Option FeeLevel)
      → ((l : FeeLevel) → o ≡ some l → or_medium o ≡ l) × (o ≡ none → or_medium o ≡ FeeLevel.medium)
  level none = (λ l e. cc, λ e. refl)
  level (some x) = (λ l e. cc, λ e. cc)

  set_account-IsMade :
      (a b : Adapter) (secret : String)
      → s.read_file config.api_secret_path ≡ returned secret
      → s.connect endpoint ≡ returned tt
      → set_account s config.vault_account_id (is_devnet endpoint) base ≡ returned b
      → set_external_tx_id "" b ≡ a
      → IsMade s endpoint config a
  unfolding set_account set_external_tx_id
  set_account-IsMade a b secret read connected made same =
      let (addresses, found, more) =
        bind-returned
          (s.get_deposit_addresses config.vault_account_id (asset_of (is_devnet endpoint))) _ b
          (rethrow-returned failed_to_set_account _ b made) in
      let (address, first, built) = bind-returned (first_address addresses) _ b more in
      let (rest, shape, there) = first_address_lem addresses address first in
      let whole : record base { account = address } ≡ b = cc in
      let (on_test, on_main) = on_network (is_devnet endpoint) refl in
      let (level_given, level_default) = level config.fee_level in
      subst (IsMade s endpoint config) (ap (set_external_tx_id "") whole ∙ same) (record {
        secret = secret;
        wallet = rest;
        has_secret = read;
        connected = connected;
        found = found ∙ ap returned shape;
        has_account = there;
        on_test = on_test;
        on_main = on_main;
        level_given = level_given;
        level_default = level_default;
      })

  -- The factory's steps, for an endpoint that is there.
  abbrev steps : Result Adapter
  steps = do
    secret ← s.read_file config.api_secret_path
    made ← new_adapter s endpoint (record config { devnet = is_devnet endpoint })
    ready ← set_account s config.vault_account_id (is_devnet endpoint) made
    returned (set_external_tx_id "" ready)

  steps_lem :
      (a : Adapter) (b : Bool)
      → (if b then thrown endpoint_required else rethrow failed_to_initialize steps) ≡ returned a
      → IsMade s endpoint config a
  unfolding new_adapter
  steps_lem a true h = cc
  steps_lem a false h =
      let (secret, read, more) =
        bind-returned (s.read_file config.api_secret_path) _ a
          (rethrow-returned failed_to_initialize steps a h) in
      let (made, built, rest) =
        bind-returned (new_adapter s endpoint (record config { devnet = is_devnet endpoint })) _ a
          more in
      let (_, connected, shape) = bind-returned (s.connect endpoint) _ made built in
      let whole : base ≡ made = cc in
      let (ready, set, last) =
        bind-returned (set_account s config.vault_account_id (is_devnet endpoint) made) _ a rest in
      set_account-IsMade a ready secret read connected
        (ap (set_account s config.vault_account_id (is_devnet endpoint)) whole ∙ set) (cc)

-- An adapter that the factory makes is for the first address of the configured vault account, which is
-- not empty, once the secret is read and web3 accepts the endpoint. It is on the network that the
-- endpoint's part behind its first dot names: the test asset for `devnet` and `testnet`, and the main
-- one for all else, whatever the configuration says of it. Its fee level is the configured one, or
-- MEDIUM.
pub create-IsMade :
    (s : Services) (endpoint : String) (config : Config) (a : Adapter)
    → create s endpoint config ≡ returned a
    → IsMade s endpoint config a
unfolding create new_adapter
create-IsMade s endpoint config a h = steps_lem s endpoint config a (endpoint == "") h

-- An endpoint without a dot that web3 accepts, such as that of a local node, is taken for the main
-- network: the adapter signs for the main asset.
pub create-IsUndotted :
    (s : Services) (endpoint : String) (config : Config) (a : Adapter)
    → IsUndotted endpoint
    → create s endpoint config ≡ returned a
    → (a.asset_id ≡ AssetId.solana_mainnet) × (a.config.devnet ≡ false)
create-IsUndotted s endpoint config a undotted h =
    (create-IsMade s endpoint config a h).on_main
      (λ t. cc (ap (λ parts. get_elem? parts 1) (split_dot-IsUndotted endpoint undotted), t.1))
