-- ===== src/Base/Slices.antt =====
-- Lemmas on parts of lists: `take` and `drop`, one after another.
use Prim.Native.Nat.{ℕ, zero, suc, ◌+◌, ◌≤◌}
use mathlib.Core.Path.{◌≡◌, refl, sym, ap, ◌∙◌}
use mathlib.Core.List.{List, [], ◌∷◌, ◌++◌}
use native.Mathlib.Omega.{arith}
use solana_sdk_sample.Base.Lists.{take, drop}

module _ {ℓ} {A : Type ℓ} where
  take-nil : (n : ℕ) → take {A = A} n [] ≡ []
  take-nil zero = refl
  take-nil (suc n) = refl

  drop-nil : (n : ℕ) → drop {A = A} n [] ≡ []
  drop-nil zero = refl
  drop-nil (suc n) = refl

  pub take-take : (k m : ℕ) (xs : List A) → k ≤ m → take k (take m xs) ≡ take k xs
  take-take zero m xs h = refl
  take-take (suc k) zero xs h = absurd (omega arith)
  take-take (suc k) (suc m) [] h = refl
  take-take (suc k) (suc m) (x ∷ xs) h = ap (λ r. x ∷ r) (take-take k m xs (omega arith))

  -- Lists that agree up to `m` agree up to `k`.
  pub take-le : (k m : ℕ) (xs ys : List A) → k ≤ m → take m xs ≡ take m ys → take k xs ≡ take k ys
  take-le k m xs ys h e = sym (take-take k m xs h) ∙ ap (take k) e ∙ take-take k m ys h

  pub take-add : (m n k : ℕ) (xs : List A) → k ≡ m + n → take k xs ≡ take m xs ++ take n (drop m xs)
  take-add zero n k xs h = let same : k ≡ n = omega arith in ap (λ j. take j xs) same
  take-add (suc m) n zero xs h = absurd (omega arith)
  take-add (suc m) n (suc k) [] h = sym (take-nil n)
  take-add (suc m) n (suc k) (x ∷ xs) h = ap (λ r. x ∷ r) (take-add m n k xs (omega arith))

  pub drop-drop : (m n k : ℕ) (xs : List A) → k ≡ m + n → drop n (drop m xs) ≡ drop k xs
  drop-drop zero n k xs h = let same : n ≡ k = omega arith in ap (λ j. drop j xs) same
  drop-drop (suc m) n zero xs h = absurd (omega arith)
  drop-drop (suc m) n (suc k) [] h = drop-nil n
  drop-drop (suc m) n (suc k) (x ∷ xs) h = drop-drop m n k xs (omega arith)

  pub take-drop : (m n k : ℕ) (xs : List A) → k ≡ m + n → take n (drop m xs) ≡ drop m (take k xs)
  take-drop zero n k xs h = let same : n ≡ k = omega arith in ap (λ j. take j xs) same
  take-drop (suc m) n zero xs h = absurd (omega arith)
  take-drop (suc m) n (suc k) [] h = take-nil n
  take-drop (suc m) n (suc k) (x ∷ xs) h = take-drop m n k xs (omega arith)
