-- ===== src/Values/Int.antt =====
-- Python's integers with their order, over the native numbers.
use scrutiny.Prelude.{ℕ, zero, suc, Bool, true, false, leb, if◌then◌else◌}

-- `negsuc n` is -(n + 1).
pub data ℤ : Type 0 where
  pos : ℕ → ℤ
  negsuc : ℕ → ℤ

abbrev pub neg : ℕ → ℤ
neg zero = pos 0
neg (suc n) = negsuc n

abbrev pub leb_int : ℤ → ℤ → Bool
leb_int (pos a) (pos b) = leb a b
leb_int (pos a) (negsuc b) = false
leb_int (negsuc a) (pos b) = true
leb_int (negsuc a) (negsuc b) = leb b a

-- min(a, b) and max(a, b)
abbrev pub min_int : ℤ → ℤ → ℤ
min_int a b = if leb_int a b then a else b

abbrev pub max_int : ℤ → ℤ → ℤ
max_int a b = if leb_int b a then a else b
