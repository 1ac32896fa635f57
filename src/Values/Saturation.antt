-- ===== src/Values/Saturation.antt =====
-- The branch of `Codecs.make_value_valid` (scrutiny/core/codecs.py) for integer types, on integers.
use scrutiny.Prelude.{
  lt_or_ge, inl, inr, subst, sym, ap, ℕ, zero, suc, ◌-◌, ◌^◌, ◌<◌, ◌≡◌, refl, min, Bool, true,
  false, Option, some, none, arith, if◌then◌else◌, Result, ok, err, value_error,
}
use scrutiny.Values.DataType.{EmbeddedDataType, get_size_bit, is_signed, is_integer}
use scrutiny.Values.Int.{ℤ, pos, negsuc, neg, min_int, max_int}

-- The bits that are used: those of the type, or of the bit field if these are fewer.
unfoldable pub used_bits : EmbeddedDataType → Option ℕ → ℕ
used_bits t none = get_size_bit t
used_bits t (some bitsize) = min (get_size_bit t) bitsize

-- Into the range of so many bits; shifting by -1 raises.
unfoldable pub saturate : Bool → ℕ → ℤ → Result ℤ
saturate true zero x = err value_error
saturate true (suc n) x = ok (max_int (min_int x (pos (2 ^ n - 1))) (neg (2 ^ n)))
saturate false n x = ok (max_int (min_int x (pos (2 ^ n - 1))) (pos 0))

unfoldable pub make_integer_valid : EmbeddedDataType → ℤ → Option ℕ → Result ℤ
make_integer_valid t x bitsize = saturate (is_signed t) (used_bits t bitsize) x

power_positive : (n : ℕ) → 0 < 2 ^ n
power_positive zero = omega arith
power_positive (suc n) = omega (arith, power_positive n)

-- Whether a number is in the range of a signed integer with `limit` numbers above -1, or of an
-- unsigned one with `limit` numbers.
abbrev pub Within : Bool → ℕ → ℤ → Type 0
Within true limit (pos a) = a < limit
Within true limit (negsuc a) = a < limit
Within false limit (pos a) = a < limit
Within false limit (negsuc a) = ⊥

-- What a field of so many bits, signed or not, can hold.
abbrev pub Holds : Bool → ℕ → ℤ → Type 0
Holds signed n x = Within signed (if signed then 2 ^ (n - 1) else 2 ^ n) x

abbrev clamp : Bool → ℕ → ℤ → ℤ
clamp true limit x = max_int (min_int x (pos (limit - 1))) (neg limit)
clamp false limit x = max_int (min_int x (pos (limit - 1))) (pos 0)

min_pos : (a m : ℕ) → min_int (pos a) (pos m) ≡ pos (min a m)
min_pos a m = ground arith

clamp-Within : (signed : Bool) (m : ℕ) (x : ℤ) → Within signed (suc m) (clamp signed (suc m) x)
clamp-Within true m (pos a) =
    let low : Within true (suc m) (max_int (pos (min a (suc m - 1))) (negsuc m)) = omega arith in
    subst (λ z. Within true (suc m) (max_int z (negsuc m))) (sym (min_pos a (suc m - 1))) low
clamp-Within true m (negsuc a) = elim (lt_or_ge m a) [
  | inl h ↦ ground (arith, h)
  | inr h ↦ ground (arith, h)
]
clamp-Within false m (pos a) =
    let low : Within false (suc m) (max_int (pos (min a (suc m - 1))) (pos 0)) = ground arith in
    subst (λ z. Within false (suc m) (max_int z (pos 0))) (sym (min_pos a (suc m - 1))) low
clamp-Within false m (negsuc a) = omega arith

clamp_same : (signed : Bool) (m : ℕ) (x : ℤ) → Within signed (suc m) x → clamp signed (suc m) x ≡ x
clamp_same true m (pos a) h = ground (arith, h)
clamp_same true m (negsuc a) h = ground (arith, h)
clamp_same false m (pos a) h = ground (arith, h)
clamp_same false m (negsuc a) h = absurd h

-- The same for a limit that is not zero.
limited-Within : (signed : Bool) (k : ℕ) (x : ℤ) → 0 < k → Within signed k (clamp signed k x)
limited-Within signed zero x p = absurd (omega arith)
limited-Within signed (suc m) x p = clamp-Within signed m x

limited_same : (signed : Bool) (k : ℕ) (x : ℤ) → 0 < k → Within signed k x → clamp signed k x ≡ x
limited_same signed zero x p h = absurd (omega arith)
limited_same signed (suc m) x p h = clamp_same signed m x h

one_less : (n : ℕ) → suc n - 1 ≡ n
one_less n = omega arith

saturate-Holds :
    (signed : Bool) (n : ℕ) (x : ℤ)
    → 0 < n
    → (y : ℤ) × (saturate signed n x ≡ ok y) × Holds signed n y
unfolding saturate
saturate-Holds true zero x p = absurd (omega arith)
saturate-Holds true (suc n) x p = (
  clamp true (2 ^ n) x,
  refl,
  subst (λ k. Within true (2 ^ k) (clamp true (2 ^ n) x)) (sym (one_less n))
      (limited-Within true (2 ^ n) x (power_positive n)),
)
saturate-Holds false n x p =
    (clamp false (2 ^ n) x, refl, limited-Within false (2 ^ n) x (power_positive n))

saturate_same :
    (signed : Bool) (n : ℕ) (x : ℤ) → 0 < n → Holds signed n x → saturate signed n x ≡ ok x
unfolding saturate
saturate_same true zero x p h = absurd (omega arith)
saturate_same true (suc n) x p h =
    ap (λ y. ok y)
      (limited_same true (2 ^ n) x (power_positive n)
        (subst (λ k. Within true (2 ^ k) x) (one_less n) h))
saturate_same false n x p h = ap (λ y. ok y) (limited_same false (2 ^ n) x (power_positive n) h)

-- For an integer type, and a bit field of at least one bit where there is one, any integer is
-- made one that the bits used can hold.
pub make_integer_valid-Holds :
    (t : EmbeddedDataType) (x : ℤ) (bitsize : Option ℕ)
    → is_integer t ≡ true
    → 0 < used_bits t bitsize
    → (y : ℤ) × (make_integer_valid t x bitsize ≡ ok y)
      × Holds (is_signed t) (used_bits t bitsize) y
unfolding make_integer_valid
make_integer_valid-Holds t x bitsize i p = saturate-Holds (is_signed t) (used_bits t bitsize) x p

-- An integer that the bits used of an integer type can hold, one bit at least, is left as it is.
pub make_integer_valid_same :
    (t : EmbeddedDataType) (x : ℤ) (bitsize : Option ℕ)
    → is_integer t ≡ true
    → 0 < used_bits t bitsize
    → Holds (is_signed t) (used_bits t bitsize) x
    → make_integer_valid t x bitsize ≡ ok x
unfolding make_integer_valid
make_integer_valid_same t x bitsize i p h = saturate_same (is_signed t) (used_bits t bitsize) x p h
