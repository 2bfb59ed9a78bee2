-- ===== src/Base/Words.antt =====
-- Machine words as native numbers: the bound of `u64` and `usize`, and saturating arithmetic.
use Prim.Native.Nat.{ℕ, ◌+◌, ◌-◌, ◌^◌, min}

-- One more than the greatest `u64` or 64-bit `usize`.
abbrev pub u64_bound : ℕ
u64_bound = 2 ^ 64

-- `a.saturating_add(b)` on `u64` and `usize`
abbrev pub saturating_add : ℕ → ℕ → ℕ
saturating_add a b = min (a + b) (2 ^ 64 - 1)

-- `a.saturating_sub(b)`: subtraction on ℕ stops at 0 as well.
abbrev pub saturating_sub : ℕ → ℕ → ℕ
saturating_sub a b = a - b
