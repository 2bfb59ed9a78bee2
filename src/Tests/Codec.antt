-- ===== src/Tests/Codec.antt =====
-- A stand-in for bincode on account states: four numbers at the front of the metadata, and zeros.
use solana_sdk_sample.Base.{
  ℕ, ◌≤◌, ◌≡◌, ◌≢◌, refl, ap, sym, ◌∙◌, Option, none, some, [], ◌∷◌, ◌++◌, arith, ◌==◌, ltb, take,
  drop, take-take, length, replicate, length-append, length-drop, if◌then◌else◌,
}
use solana_sdk_sample.Runtime.Outcome.{
  Outcome, ok, err, panic, invalid_account_data, account_data_too_small,
}
use solana_sdk_sample.Runtime.Account.{Pubkey, Bytes}
use solana_sdk_sample.State
use solana_sdk_sample.State.{UpgradeableLoaderState, metadata_size}

abbrev key_of : ℕ → ℕ → Option Pubkey
key_of flag k = if flag == 0 then none else some k

abbrev parse : Bytes → Outcome UpgradeableLoaderState
parse (t ∷ x ∷ y ∷ z ∷ rest) =
    if t == 0
    then ok State.uninitialized
    else if t == 1
    then ok (State.buffer (key_of x y))
    else if t == 2
    then ok (State.program x)
    else ok (State.program_data x (key_of y z))
parse _ = err invalid_account_data

abbrev pub demo_state : Bytes → Outcome UpgradeableLoaderState
demo_state d = parse (take 4 d)

abbrev pub encode : UpgradeableLoaderState → Bytes
encode State.uninitialized = 0 ∷ 0 ∷ 0 ∷ 0 ∷ []
encode (State.buffer none) = 1 ∷ 0 ∷ 0 ∷ 0 ∷ replicate 33 0
encode (State.buffer (some k)) = 1 ∷ 1 ∷ k ∷ 0 ∷ replicate 33 0
encode (State.program k) = 2 ∷ k ∷ 0 ∷ 0 ∷ replicate 32 0
encode (State.program_data slot none) = 3 ∷ slot ∷ 0 ∷ 0 ∷ replicate 41 0
encode (State.program_data slot (some k)) = 3 ∷ slot ∷ 1 ∷ k ∷ replicate 41 0

abbrev pub demo_set_state : UpgradeableLoaderState → Bytes → Outcome Bytes
demo_set_state s d =
    if ltb (length d) (metadata_size s)
    then err account_data_too_small
    else ok (encode s ++ drop (metadata_size s) d)

stored :
    (s : UpgradeableLoaderState) (d d' : Bytes)
    → demo_set_state s d ≡ ok d'
    → (d' ≡ encode s ++ drop (metadata_size s) d) × (metadata_size s ≤ length d)
stored s d d' e = (ground arith, ground arith)

pub demo_state-set :
    (s : UpgradeableLoaderState) (rest : Bytes) → demo_state (encode s ++ rest) ≡ ok s
demo_state-set State.uninitialized rest = refl
demo_state-set (State.buffer none) rest = refl
demo_state-set (State.buffer (some k)) rest = refl
demo_state-set (State.program k) rest = refl
demo_state-set (State.program_data slot none) rest = refl
demo_state-set (State.program_data slot (some k)) rest = refl

drop-encode :
    (s : UpgradeableLoaderState) (rest : Bytes) → drop (metadata_size s) (encode s ++ rest) ≡ rest
drop-encode State.uninitialized rest = refl
drop-encode (State.buffer none) rest = refl
drop-encode (State.buffer (some k)) rest = refl
drop-encode (State.program k) rest = refl
drop-encode (State.program_data slot none) rest = refl
drop-encode (State.program_data slot (some k)) rest = refl

length-encode : (s : UpgradeableLoaderState) → length (encode s) ≡ metadata_size s
length-encode State.uninitialized = refl
length-encode (State.buffer none) = refl
length-encode (State.buffer (some k)) = refl
length-encode (State.program k) = refl
length-encode (State.program_data slot none) = refl
length-encode (State.program_data slot (some k)) = refl

four_le : (s : UpgradeableLoaderState) → 4 ≤ metadata_size s
four_le State.uninitialized = omega arith
four_le (State.buffer o) = omega arith
four_le (State.program k) = omega arith
four_le (State.program_data slot o) = omega arith

pub state-set_lem :
    (s : UpgradeableLoaderState) (d d' : Bytes) → demo_set_state s d ≡ ok d' → demo_state d' ≡ ok s
state-set_lem s d d' e = ap demo_state (stored s d d' e).0 ∙ demo_state-set s _

pub length-set_lem :
    (s : UpgradeableLoaderState) (d d' : Bytes) → demo_set_state s d ≡ ok d' → length d' ≡ length d
length-set_lem s d d' e =
    let (left, fits) = stored s d d' e in
    ap length left
    ∙ omega (
      arith,
      fits,
      length-append (encode s) (drop (metadata_size s) d),
      length-encode s,
      length-drop (metadata_size s) d,
    )

pub drop-set_lem :
    (s : UpgradeableLoaderState) (d d' : Bytes)
    → demo_set_state s d ≡ ok d'
    → drop (metadata_size s) d' ≡ drop (metadata_size s) d
drop-set_lem s d d' e = ap (drop (metadata_size s)) (stored s d d' e).0 ∙ drop-encode s _

pub set_fits_lem :
    (s : UpgradeableLoaderState) (d : Bytes)
    → metadata_size s ≤ length d
    → (d' : Bytes) × (demo_set_state s d ≡ ok d')
set_fits_lem s d h = (encode s ++ drop (metadata_size s) d, ground arith)

pub state-take_lem :
    (s : UpgradeableLoaderState) (d d' : Bytes)
    → demo_state d ≡ ok s
    → take (metadata_size s) d' ≡ take (metadata_size s) d
    → demo_state d' ≡ ok s
state-take_lem s d d' e same =
    ap parse (
      sym (take-take 4 (metadata_size s) d' (four_le s))
      ∙ ap (take 4) same
      ∙ take-take 4 (metadata_size s) d (four_le s))
    ∙ e

parse_returns : (d : Bytes) → parse d ≢ panic
parse_returns (t ∷ x ∷ y ∷ z ∷ rest) e = ground arith
parse_returns (t ∷ x ∷ y ∷ []) e = cc
parse_returns (t ∷ x ∷ []) e = cc
parse_returns (t ∷ []) e = cc
parse_returns [] e = cc

pub state_returns_lem : (d : Bytes) → demo_state d ≢ panic
state_returns_lem d = parse_returns (take 4 d)

pub set_state_returns_lem : (s : UpgradeableLoaderState) (d : Bytes) → demo_set_state s d ≢ panic
set_state_returns_lem s d e = ground arith
