-- ===== src/Fireblocks/Send/Signers.antt =====
-- Who signs: the signers before the fee payer.
use Prim.Native.String.{String}
use solana_sdk_sample.Base.{
  ◌≡◌, refl, ap, Bool, true, false, List, [], ◌∷◌, ◌==◌ as key_eq, if◌then◌else◌,
}
use solana_sdk_sample.Runtime.Account.{Pubkey}
use solana_sdk_sample.Fireblocks.{Result, returned, ◌>>=◌}
use solana_sdk_sample.Fireblocks.Send.{Transaction, Signer, Web3, sign_one, sign_each}

-- The signers up to the first with the given key.
abbrev pub before : Pubkey → List Signer → List Signer
before payer [] = []
before payer (signer ∷ signers) =
    let rest = before payer signers in if key_eq signer.public_key payer then [] else signer ∷ rest

-- Each signer signs, one after another.
abbrev pub sign_all : Web3 → List Signer → Transaction → Result Transaction
sign_all w [] tx = returned tx
sign_all w (signer ∷ signers) tx = sign_one w tx signer >>= sign_all w signers

step :
    (w : Web3) (account : String) (payer : Pubkey) (signer : Signer) (signers : List Signer)
    (tx : Transaction) (b : Bool)
    → sign_each w account signers ≡ sign_all w (before payer signers)
    → (if b then returned tx else sign_one w tx signer >>= sign_each w account signers)
      ≡ sign_all w (if b then [] else signer ∷ before payer signers) tx
step w account payer signer signers tx true ih = refl
step w account payer signer signers tx false ih = ap (λ f. sign_one w tx signer >>= f) ih

-- The signers before the fee payer sign, in order, and the fee payer and all that are listed after it
-- do not.
pub sign_each-before :
    (w : Web3) (account : String) (payer : Pubkey) (signers : List Signer) (tx : Transaction)
    → w.public_key account ≡ returned payer
    → sign_each w account signers tx ≡ sign_all w (before payer signers) tx
unfolding sign_each
sign_each-before w account payer [] tx e = refl
sign_each-before w account payer (signer ∷ signers) tx e = rw e (
    step w account payer signer signers tx (key_eq signer.public_key payer)
      (λ i u. sign_each-before w account payer signers u e i))
