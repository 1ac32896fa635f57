-- ===== src/Protocol/Crc.antt =====
-- scrutiny/server/protocol/crc32.py
use scrutiny.Prelude.{
  ℕ, zero, suc, ◌-◌, ◌/◌, ◌%◌, ◌<◌, ◌≡◌, refl, [], ◌∷◌, arith, Bytes, ◌==◌, if◌then◌else◌, bit_and,
  bit_xor,
}

-- One round of the inner loop, on the byte and the checksum.
unfoldable pub crc_bit : ℕ × ℕ → ℕ × ℕ
crc_bit (byte, crc) =
    let lsb = bit_and (bit_xor byte crc) 1 in
    let half = crc / 2 in (byte / 2, if lsb == 0 then half else bit_xor half 0xedb88320)

unfoldable pub crc_bits : ℕ → ℕ × ℕ → ℕ × ℕ
crc_bits zero s = s
crc_bits (suc n) s = crc_bits n (crc_bit s)

unfoldable pub crc_loop : ℕ → Bytes → ℕ
unfolding crc_bits crc_bit
crc_loop crc [] = crc
crc_loop crc (b ∷ bs) = crc_loop (crc_bits 8 (b, crc)).1 bs

-- `(~n) & 0xFFFFFFFF`: the complement of the low 32 bits.
unfoldable pub not32 : ℕ → ℕ
not32 n = 4294967295 - n % 4294967296

unfoldable pub crc32 : Bytes → ℕ
unfolding crc_loop not32
crc32 d = not32 (crc_loop 0xffffffff d)

pub crc32_bound : (d : Bytes) → crc32 d < 4294967296
unfolding crc32
crc32_bound d = omega arith

-- The check value of the CRC-32 in common use: that of the text "123456789".
crc32_check : crc32 (49 ∷ 50 ∷ 51 ∷ 52 ∷ 53 ∷ 54 ∷ 55 ∷ 56 ∷ 57 ∷ []) ≡ 0xcbf43926
unfolding crc32
crc32_check = refl
