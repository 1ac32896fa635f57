-- ===== src/Protocol/Pack.antt =====
-- `struct.pack` and `struct.unpack` for the big-endian formats that the protocol uses, and masks on
-- one byte as arithmetic.
use scrutiny.Prelude.{
  ℕ, zero, suc, ◌+◌, ◌*◌, ◌/◌, ◌%◌, ◌<◌, ◌≡◌, refl, Bool, true, false, [], ◌∷◌, arith, Bytes, ltb,
  ◌==◌, if◌then◌else◌, Result, ok, err, struct_error, bit_and, ==_iff,
}

-- '>B', '>H' and '>L'
abbrev pub pack_u8 : ℕ → Result Bytes
pack_u8 n = if ltb n 256 then ok (n ∷ []) else err struct_error

abbrev pub u16_bytes : ℕ → Bytes
u16_bytes n = n / 256 ∷ n % 256 ∷ []

abbrev pub u32_bytes : ℕ → Bytes
u32_bytes n = n / 16777216 ∷ n / 65536 % 256 ∷ n / 256 % 256 ∷ n % 256 ∷ []

abbrev pub pack_u16 : ℕ → Result Bytes
pack_u16 n = if ltb n 65536 then ok (u16_bytes n) else err struct_error

abbrev pub pack_u32 : ℕ → Result Bytes
pack_u32 n = if ltb n 4294967296 then ok (u32_bytes n) else err struct_error

abbrev pub unpack_u16 : Bytes → Result ℕ
unpack_u16 (a ∷ b ∷ []) = ok (a * 256 + b)
unpack_u16 _ = err struct_error

abbrev pub unpack_u32 : Bytes → Result ℕ
unpack_u32 (a ∷ b ∷ c ∷ d ∷ []) = ok (a * 16777216 + b * 65536 + c * 256 + d)
unpack_u32 _ = err struct_error

pub unpack_u16-bytes : (n : ℕ) → n < 65536 → unpack_u16 (u16_bytes n) ≡ ok n
unpack_u16-bytes n h = let e : n / 256 * 256 + n % 256 ≡ n = omega arith in rw e

pub unpack_u32-bytes : (n : ℕ) → n < 4294967296 → unpack_u32 (u32_bytes n) ≡ ok n
unpack_u32-bytes n h =
    let e : n / 16777216 * 16777216 + n / 65536 % 256 * 65536 + n / 256 % 256 * 256 + n % 256 ≡ n =
      omega arith in
    rw e

-- Whether a test holds of all numbers below a bound.
every : (ℕ → Bool) → ℕ → Bool
every test zero = true
every test (suc bound) = if test bound then every test bound else false

every_holds : (test : ℕ → Bool) (bound i : ℕ) → every test bound ≡ true → i < bound → test i ≡ true
unfolding every
every_holds test zero i e p = absurd (omega arith)
every_holds test (suc bound) i e p = ground (arith, every_holds test bound i)

low_table : every (λ x. bit_and x 0x7f == x % 128) 256 ≡ true
unfolding every
low_table = refl

top_table : every (λ x. bit_and x 0x80 == x / 128 * 128) 256 ≡ true
unfolding every
top_table = refl

pub low_bits : (x : ℕ) → x < 256 → bit_and x 0x7f ≡ x % 128
low_bits x h = (==_iff _ _).0 (every_holds _ 256 x low_table h)

pub top_bit : (x : ℕ) → x < 256 → bit_and x 0x80 ≡ x / 128 * 128
top_bit x h = (==_iff _ _).0 (every_holds _ 256 x top_table h)
