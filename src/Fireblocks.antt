-- ===== src/Fireblocks.antt =====
-- scripts/fireblocks/lib: the connection adapter that has its transactions signed by Fireblocks.
-- A text that is absent is the empty one, which the code treats alike. The Fireblocks and web3 packages
-- are a parameter, `Services`. What the adapter logs is left out.
pub mod Wait
pub mod Adapter
pub mod Send
use Prim.Native.String.{String}
use solana_sdk_sample.Base.{ℕ, ◌≡◌, refl, Bool, Option, List}
use solana_sdk_sample.Runtime.Account.{Pubkey, Bytes}

-- The statuses that the code names; `other` stands for any that the package has besides.
pub data TransactionStatus : Type 0 where
  completed broadcasting blocked cancelled failed rejected : TransactionStatus
  other : ℕ → TransactionStatus

pub record CreateTransactionResponse : Type 0 where
  pub id : String

pub record TransactionResponse : Type 0 where
  pub id : String
  pub status : TransactionStatus
  pub sub_status : String
  pub tx_hash : String

-- The errors thrown: those of the packages, and the code's own, which may wrap another one.
pub data Thrown : Type 0 where
  external : String → Thrown
  failed_with_status : TransactionResponse → Thrown
  endpoint_required no_wallet_address hash_not_found no_account_key : Thrown
  failed_to_set_account failed_to_initialize failed_to_sign failed_to_send : Thrown → Thrown

pub data Result (A : Type 0) : Type 0 where
  returned : A → Result A
  thrown : Thrown → Result A

infixl 5 ◌>>=◌
-- `await`, in a function that does not catch
abbrev pub ◌>>=◌ : {A B : Type 0} → Result A → (A → Result B) → Result B
returned a >>= f = f a
thrown e >>= f = thrown e

-- `catch (error) { throw new Error(...) }`
abbrev pub rethrow : {A : Type 0} → (Thrown → Thrown) → Result A → Result A
rethrow wrap (returned a) = returned a
rethrow wrap (thrown e) = thrown (wrap e)

pub rethrow-returned :
    {A : Type 0} (wrap : Thrown → Thrown) (r : Result A) (x : A)
    → rethrow wrap r ≡ returned x
    → r ≡ returned x
rethrow-returned wrap (returned y) x h = h
rethrow-returned wrap (thrown e) x h = cc

pub bind-returned :
    {A B : Type 0} (m : Result A) (k : A → Result B) (b : B)
    → (m >>= k) ≡ returned b
    → (a : A) × (m ≡ returned a) × (k a ≡ returned b)
bind-returned (returned a) k b h = (a, refl, h)
bind-returned (thrown e) k b h = cc
