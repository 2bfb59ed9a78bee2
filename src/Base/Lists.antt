-- ===== src/Base/Lists.antt =====
-- Lists measured and indexed by native numbers, and byte ranges.
use Prim.Native.Nat.{ℕ, zero, suc, ◌+◌, ◌-◌, ◌≤◌, min}
use mathlib.Core.Path.{◌≡◌, refl, ap, ◌∙◌}
use mathlib.Core.List.{List, [], ◌∷◌, ◌++◌, append-nil}
use mathlib.Core.Option.{Option, none, some}
use native.Mathlib.Omega.{arith}

module _ {ℓ} {A : Type ℓ} where
  abbrev pub length : List A → ℕ
  length [] = 0
  length (x ∷ xs) = suc (length xs)

  abbrev pub get_elem? : List A → ℕ → Option A
  get_elem? [] i = none
  get_elem? (x ∷ xs) zero = some x
  get_elem? (x ∷ xs) (suc i) = get_elem? xs i

  abbrev pub take : ℕ → List A → List A
  take zero xs = []
  take (suc n) [] = []
  take (suc n) (x ∷ xs) = x ∷ take n xs

  abbrev pub drop : ℕ → List A → List A
  drop zero xs = xs
  drop (suc n) [] = []
  drop (suc n) (x ∷ xs) = drop n xs

  abbrev pub replicate : ℕ → A → List A
  replicate zero a = []
  replicate (suc n) a = a ∷ replicate n a

  pub length-append : (xs ys : List A) → length (xs ++ ys) ≡ length xs + length ys
  length-append [] ys = omega arith
  length-append (x ∷ xs) ys = omega (arith, length-append xs ys)

  pub length-take : (n : ℕ) (xs : List A) → length (take n xs) ≡ min n (length xs)
  length-take zero xs = omega arith
  length-take (suc n) [] = omega arith
  length-take (suc n) (x ∷ xs) = omega (arith, length-take n xs)

  pub length-drop : (n : ℕ) (xs : List A) → length (drop n xs) ≡ length xs - n
  length-drop zero xs = omega arith
  length-drop (suc n) [] = omega arith
  length-drop (suc n) (x ∷ xs) = omega (arith, length-drop n xs)

  pub length-replicate : (n : ℕ) (a : A) → length (replicate n a) ≡ n
  length-replicate zero a = refl
  length-replicate (suc n) a = ap suc (length-replicate n a)

  -- The bytes `bytes` written over `xs` from `start` on. The range must lie inside `xs`.
  unfoldable pub splice : ℕ → List A → List A → List A
  splice zero bytes xs = bytes ++ drop (length bytes) xs
  splice (suc n) bytes [] = bytes
  splice (suc n) bytes (x ∷ xs) = x ∷ splice n bytes xs

module _ {ℓ} {A : Type ℓ} where
  pub length-splice :
      (n : ℕ) (bytes xs : List A)
      → n + length bytes ≤ length xs
      → length (splice n bytes xs) ≡ length xs
  unfolding splice
  length-splice zero bytes xs h =
      omega (arith, length-append bytes (drop (length bytes) xs), length-drop (length bytes) xs)
  length-splice (suc n) bytes [] h = omega arith
  length-splice (suc n) bytes (x ∷ xs) h = omega (arith, length-splice n bytes xs (omega arith))

  -- What lies before the range is kept.
  pub take-splice :
      (k n : ℕ) (bytes xs : List A) → k ≤ n → n ≤ length xs → take k (splice n bytes xs) ≡ take k xs
  unfolding splice
  take-splice zero n bytes xs h l = refl
  take-splice (suc k) zero bytes xs h l = absurd (omega arith)
  take-splice (suc k) (suc n) bytes [] h l = absurd (omega arith)
  take-splice (suc k) (suc n) bytes (x ∷ xs) h l =
      ap (λ r. x ∷ r) (take-splice k n bytes xs (omega arith) (omega arith))

  take-append : (xs ys : List A) → take (length xs) (xs ++ ys) ≡ xs
  take-append [] ys = refl
  take-append (x ∷ xs) ys = ap (λ r. x ∷ r) (take-append xs ys)

  drop-append : (xs ys : List A) → drop (length xs) (xs ++ ys) ≡ ys
  drop-append [] ys = refl
  drop-append (x ∷ xs) ys = drop-append xs ys

  -- The range holds the bytes afterwards.
  pub read-splice :
      (n : ℕ) (bytes xs : List A)
      → n ≤ length xs
      → take (length bytes) (drop n (splice n bytes xs)) ≡ bytes
  unfolding splice
  read-splice zero bytes xs h = take-append bytes (drop (length bytes) xs)
  read-splice (suc n) bytes [] h = absurd (omega arith)
  read-splice (suc n) bytes (x ∷ xs) h = read-splice n bytes xs (omega arith)

  -- What lies behind the range is kept.
  pub drop-splice :
      (n m : ℕ) (bytes xs : List A)
      → m ≡ n + length bytes
      → n ≤ length xs
      → drop m (splice n bytes xs) ≡ drop m xs
  unfolding splice
  drop-splice zero m bytes xs e h =
      let here : m ≡ length bytes = omega arith in
      rw here (drop-append bytes (drop (length bytes) xs))
  drop-splice (suc n) m bytes [] e h = absurd (omega arith)
  drop-splice (suc n) zero bytes (x ∷ xs) e h = absurd (omega arith)
  drop-splice (suc n) (suc m) bytes (x ∷ xs) e h =
      drop-splice n m bytes xs (omega arith) (omega arith)

  pub take-all : (n : ℕ) (xs : List A) → length xs ≤ n → take n xs ≡ xs
  take-all zero [] h = refl
  take-all zero (x ∷ xs) h = absurd (omega arith)
  take-all (suc n) [] h = refl
  take-all (suc n) (x ∷ xs) h = ap (λ r. x ∷ r) (take-all n xs (omega arith))

  pub take-append-drop : (n : ℕ) (xs : List A) → take n xs ++ drop n xs ≡ xs
  take-append-drop zero xs = refl
  take-append-drop (suc n) [] = refl
  take-append-drop (suc n) (x ∷ xs) = ap (λ r. x ∷ r) (take-append-drop n xs)

  -- A range before the spliced one is read as it was.
  pub take-drop-splice :
      (m k n : ℕ) (bytes xs : List A)
      → m + k ≤ n
      → n ≤ length xs
      → take k (drop m (splice n bytes xs)) ≡ take k (drop m xs)
  unfolding splice
  take-drop-splice zero k n bytes xs h l = take-splice k n bytes xs (omega arith) l
  take-drop-splice (suc m) k zero bytes xs h l = absurd (omega arith)
  take-drop-splice (suc m) k (suc n) bytes [] h l = absurd (omega arith)
  take-drop-splice (suc m) k (suc n) bytes (x ∷ xs) h l =
      take-drop-splice m k n bytes xs (omega arith) (omega arith)

  drop-all : (n : ℕ) (xs : List A) → n ≡ length xs → drop n xs ≡ []
  drop-all zero [] e = refl
  drop-all zero (x ∷ xs) e = absurd (omega arith)
  drop-all (suc n) [] e = absurd (omega arith)
  drop-all (suc n) (x ∷ xs) e = drop-all n xs (omega arith)

  -- A range that reaches the end is all that lies behind its start.
  pub drop-splice_end :
      (n : ℕ) (bytes xs : List A)
      → n + length bytes ≡ length xs
      → drop n (splice n bytes xs) ≡ bytes
  unfolding splice
  drop-splice_end zero bytes xs e =
      ap (λ r. bytes ++ r) (drop-all (length bytes) xs (omega arith)) ∙ append-nil bytes
  drop-splice_end (suc n) bytes [] e = absurd (omega arith)
  drop-splice_end (suc n) bytes (x ∷ xs) e = drop-splice_end n bytes xs (omega arith)
