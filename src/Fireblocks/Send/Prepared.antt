-- ===== src/Fireblocks/Send/Prepared.antt =====
-- What happens to a transaction before it goes to Fireblocks, described apart from the code.
use Prim.Native.String.{String}
use text.Mathlib.Text.{◌==◌}
use solana_sdk_sample.Base.{
  ◌≡◌, ◌⊎◌, inl, inr, refl, ap, sym, subst, ◌∙◌, Bool, true, false, Option, none, some, List, [],
  ◌∷◌, arith, ◌==◌ as key_eq, if◌then◌else◌,
}
use solana_sdk_sample.Runtime.Account.{Pubkey, Bytes}
use solana_sdk_sample.Fireblocks.{returned, bind-returned}
use solana_sdk_sample.Fireblocks.Adapter.{Adapter, TransactionArguments}
use solana_sdk_sample.Fireblocks.Send.{
  LegacyTransaction, VersionedTransaction, Transaction, legacy, versioned, Signer, Web3, with_payer,
  fill_legacy, fill_versioned, prepare, sign_one, sign_each, given_signers, ready, payload_of,
}
use solana_sdk_sample.Fireblocks.Send.Signers.{before, sign_all, sign_each-before}

-- A transaction with a blockhash stays as it is. Another one gets the latest blockhash, and the account
-- as its fee payer: the first account of a versioned one.
pub data IsPrepared (w : Web3) (account : String) : Transaction → Transaction → Type 0 where
  kept_legacy :
      (tx : LegacyTransaction)
      → (tx.recent_blockhash == "") ≡ false
      → IsPrepared w account (legacy tx) (legacy tx)
  kept_versioned :
      (tx : VersionedTransaction)
      → (tx.recent_blockhash == "") ≡ false
      → IsPrepared w account (versioned tx) (versioned tx)
  filled_legacy :
      (tx : LegacyTransaction) (blockhash : String) (payer : Pubkey)
      → (tx.recent_blockhash == "") ≡ true
      → w.get_latest_blockhash ≡ returned blockhash
      → w.public_key account ≡ returned payer
      → IsPrepared w account
          (legacy tx)
          (legacy (record tx { recent_blockhash = blockhash; fee_payer = some payer }))
  filled_versioned :
      (tx : VersionedTransaction) (blockhash : String) (payer key : Pubkey) (keys : List Pubkey)
      → (tx.recent_blockhash == "") ≡ true
      → w.get_latest_blockhash ≡ returned blockhash
      → w.public_key account ≡ returned payer
      → tx.static_account_keys ≡ key ∷ keys
      → IsPrepared w account (versioned tx) (
          versioned
            (record tx { recent_blockhash = blockhash; static_account_keys = payer ∷ keys }))

-- The signers have signed, one after another, each with web3's function for the transaction.
pub data IsSignedBy (w : Web3) : List Signer → Transaction → Transaction → Type 0 where
  no_signer : (tx : Transaction) → IsSignedBy w [] tx tx
  signed_legacy :
      (signer : Signer) (signers : List Signer) (tx next : LegacyTransaction) (last : Transaction)
      → w.partial_sign tx signer ≡ returned next
      → IsSignedBy w signers (legacy next) last
      → IsSignedBy w (signer ∷ signers) (legacy tx) last
  signed_versioned :
      (signer : Signer) (signers : List Signer) (tx next : VersionedTransaction)
      (last : Transaction)
      → w.sign tx signer ≡ returned next
      → IsSignedBy w signers (versioned next) last
      → IsSignedBy w (signer ∷ signers) (versioned tx) last

-- Those who sign: of the signers given, the ones before the account that pays.
abbrev pub AreSigning : Web3 → String → Option (List Signer) → List Signer → Type 0
AreSigning w account none signing = signing ≡ []
AreSigning w account (some given) signing =
    ((given ≡ []) × (signing ≡ []))
    ⊎ ((payer : Pubkey) × (w.public_key account ≡ returned payer) × (signing ≡ before payer given))

-- The request that is submitted for a transaction's bytes.
pub record IsRequest (w : Web3) (a : Adapter) (serialized : Bytes) (request : TransactionArguments)
    : Type 0 where
  pub of_asset : request.asset_id ≡ a.asset_id
  pub of_level : request.fee_level ≡ a.fee_level
  pub of_vault : request.source_id ≡ a.config.vault_account_id
  pub of_data : request.program_call_data ≡ w.base64 serialized
  pub of_external_id : request.external_tx_id ≡ a.external_tx_id
  pub note_given : (a.tx_note == "") ≡ false → request.note ≡ a.tx_note
  pub note_default : (a.tx_note == "") ≡ true → request.note ≡ "Created by Solana Web3 Adapter"

module _ (w : Web3) (account : String) where
  with_payer_lem :
      (payer : Pubkey) (keys paid : List Pubkey)
      → with_payer payer keys ≡ returned paid
      → (key : Pubkey) × (rest : List Pubkey) × (keys ≡ key ∷ rest) × (payer ∷ rest ≡ paid)
  with_payer_lem payer [] paid h = cc
  with_payer_lem payer (key ∷ rest) paid h = (key, rest, refl, go (key_eq key payer) refl h)
    where
      go :
          (b : Bool)
          → key_eq key payer ≡ b
          → (if b then returned (key ∷ rest) else returned (payer ∷ rest)) ≡ returned paid
          → payer ∷ rest ≡ paid
      go true e h =
          let same : payer ≡ key = ground arith in
          let left : key ∷ rest ≡ paid = cc in ap (λ k. k ∷ rest) same ∙ left
      go false e h = cc

  fill_legacy_lem :
      (tx : LegacyTransaction) (t : Transaction)
      → (tx.recent_blockhash == "") ≡ true
      → fill_legacy w account tx ≡ returned t
      → IsPrepared w account (legacy tx) t
  fill_legacy_lem tx t e h =
      let (blockhash, eb, h0) = bind-returned w.get_latest_blockhash _ t h in
      let (payer, ep, h1) = bind-returned (w.public_key account) _ t h0 in
      let left : legacy (record tx { recent_blockhash = blockhash; fee_payer = some payer }) ≡ t =
        cc in
      subst (IsPrepared w account (legacy tx)) left (filled_legacy tx blockhash payer e eb ep)

  fill_versioned_lem :
      (tx : VersionedTransaction) (t : Transaction)
      → (tx.recent_blockhash == "") ≡ true
      → fill_versioned w account tx ≡ returned t
      → IsPrepared w account (versioned tx) t
  fill_versioned_lem tx t e h =
      let (blockhash, eb, h0) = bind-returned w.get_latest_blockhash _ t h in
      let (payer, ep, h1) = bind-returned (w.public_key account) _ t h0 in
      let (paid, ek, h2) = bind-returned (with_payer payer tx.static_account_keys) _ t h1 in
      let (key, keys, shape, same) = with_payer_lem payer tx.static_account_keys paid ek in
      let left : versioned (record tx { recent_blockhash = blockhash; static_account_keys = paid })
          ≡ t =
        cc in
      subst (IsPrepared w account (versioned tx))
        (ap (λ ks. versioned (record tx { recent_blockhash = blockhash; static_account_keys = ks }))
            same
          ∙ left)
        (filled_versioned tx blockhash payer key keys e eb ep shape)

  prepare-IsPrepared :
      (tx t : Transaction) → prepare w account tx ≡ returned t → IsPrepared w account tx t
  unfolding prepare
  prepare-IsPrepared (legacy tx) t = go (tx.recent_blockhash == "") refl
    where
      go :
          (b : Bool)
          → (tx.recent_blockhash == "") ≡ b
          → (if b then fill_legacy w account tx else returned (legacy tx)) ≡ returned t
          → IsPrepared w account (legacy tx) t
      go true e h = fill_legacy_lem tx t e h
      go false e h =
          let left : legacy tx ≡ t = cc in
          subst (IsPrepared w account (legacy tx)) left (kept_legacy tx e)
  prepare-IsPrepared (versioned tx) t = go (tx.recent_blockhash == "") refl
    where
      go :
          (b : Bool)
          → (tx.recent_blockhash == "") ≡ b
          → (if b then fill_versioned w account tx else returned (versioned tx)) ≡ returned t
          → IsPrepared w account (versioned tx) t
      go true e h = fill_versioned_lem tx t e h
      go false e h =
          let left : versioned tx ≡ t = cc in
          subst (IsPrepared w account (versioned tx)) left (kept_versioned tx e)

  sign_all-IsSignedBy :
      (signers : List Signer) (tx t : Transaction)
      → sign_all w signers tx ≡ returned t
      → IsSignedBy w signers tx t
  unfolding sign_one
  sign_all-IsSignedBy [] tx t h =
      let left : tx ≡ t = cc in subst (IsSignedBy w [] tx) left (no_signer tx)
  sign_all-IsSignedBy (signer ∷ signers) (legacy tx) t h =
      let (signed, es, h0) = bind-returned (sign_one w (legacy tx) signer) _ t h in
      let (next, en, h1) = bind-returned (w.partial_sign tx signer) _ signed es in
      let left : signed ≡ legacy next = cc in
      signed_legacy signer signers tx next t en
        (subst (λ u. IsSignedBy w signers u t) left (sign_all-IsSignedBy signers signed t h0))
  sign_all-IsSignedBy (signer ∷ signers) (versioned tx) t h =
      let (signed, es, h0) = bind-returned (sign_one w (versioned tx) signer) _ t h in
      let (next, en, h1) = bind-returned (w.sign tx signer) _ signed es in
      let left : signed ≡ versioned next = cc in
      signed_versioned signer signers tx next t en
        (subst (λ u. IsSignedBy w signers u t) left (sign_all-IsSignedBy signers signed t h0))

  -- The signers that sign, and the transaction that they have signed.
  abbrev pub Signed : Option (List Signer) → Transaction → Transaction → Type 0
  Signed signers tx t =
      (signing : List Signer) × AreSigning w account signers signing × IsSignedBy w signing tx t

  sign_each-Signed :
      (given : List Signer) (tx t : Transaction)
      → sign_each w account given tx ≡ returned t
      → Signed (some given) tx t
  unfolding sign_each
  sign_each-Signed [] tx t h = ([], inl (refl, refl), sign_all-IsSignedBy [] tx t h)
  sign_each-Signed (signer ∷ signers) tx t h =
      let (payer, ep, _) = bind-returned (w.public_key account) _ t h in
      let given = signer ∷ signers in
      (
        before payer given,
        inr (payer, ep, refl),
        sign_all-IsSignedBy (before payer given) tx t
            (sym (sign_each-before w account payer given tx ep) ∙ h),
      )

  given-Signed :
      (signers : Option (List Signer)) (tx t : Transaction)
      → sign_each w account (given_signers w signers) tx ≡ returned t
      → Signed signers tx t
  unfolding sign_each
  given-Signed none tx t h = ([], refl, sign_all-IsSignedBy [] tx t h)
  given-Signed (some given) tx t h = sign_each-Signed given tx t h

-- A transaction that is ready was prepared and then signed.
pub ready-Signed :
    (w : Web3) (a : Adapter) (tx t : Transaction) (signers : Option (List Signer))
    → ready w a tx signers ≡ returned t
    → (prepared : Transaction) × IsPrepared w a.account tx prepared
      × Signed w a.account signers prepared t
unfolding ready
ready-Signed w a tx t signers h =
    let (prepared, ep, h0) = bind-returned (prepare w a.account tx) _ t h in
    (
      prepared,
      prepare-IsPrepared w a.account tx prepared ep,
      given-Signed w a.account signers prepared t h0,
    )

pub payload_of-IsRequest :
    (w : Web3) (a : Adapter) (serialized : Bytes)
    → IsRequest w a serialized (payload_of w a serialized)
unfolding payload_of
payload_of-IsRequest w a serialized = record {
  of_asset = refl;
  of_level = refl;
  of_vault = refl;
  of_data = refl;
  of_external_id = refl;
  note_given = λ e. rw e refl;
  note_default = λ e. rw e refl;
}
