-- ===== src/Values/Tests.antt =====
-- Two types and two regions (scrutiny/core/basic_types.py).
use scrutiny.Prelude.{some, arith, ℕ, ◌≡◌, ◌↔◌, refl, true, ok}
use scrutiny.Values.DataType
use scrutiny.Values.DataType.{
  is_integer, is_signed, get_size_bit, of_value-value, get_size_byte-make_bytes, of_value, value,
  get_size_byte, make_bytes,
}
use scrutiny.Values.Int.{ℤ, pos}
use scrutiny.Values.Saturation.{Holds, used_bits, make_integer_valid, make_integer_valid-Holds}
use scrutiny.Values.Region.{MemoryRegion, touches, Inside, touches_iff}

made : make_bytes DataType.type_uint 4 ≡ ok DataType.uint32
unfolding make_bytes DataType.make of_value
made = refl

abbrev flash : MemoryRegion
flash = record { start = 4096; size = 64 }

abbrev window : MemoryRegion
window = record { start = 4159; size = 2 }

touches_iff_example : (touches flash window ≡ true) ↔ ((x : ℕ) × Inside flash x × Inside window x)
touches_iff_example = touches_iff flash window

make_integer_valid-Holds_example :
    (y : ℤ) × (make_integer_valid DataType.sint8 (pos 300) (some 5) ≡ ok y)
    × Holds (is_signed DataType.sint8) (used_bits DataType.sint8 (some 5)) y
unfolding used_bits get_size_bit get_size_byte is_integer
make_integer_valid-Holds_example =
    make_integer_valid-Holds DataType.sint8 (pos 300) (some 5) refl (omega arith)
