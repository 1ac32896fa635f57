-- ===== src/Values/DataType.antt =====
-- `DataTypeType`, `DataTypeSize` and `EmbeddedDataType` of scrutiny/core/basic_types.py.
use scrutiny.Prelude.{
  ℕ, ◌*◌, ◌^◌, ◌≡◌, refl, Bool, false, ◌||◌, List, [], ◌∷◌, arith, ◌==◌, if◌then◌else◌, Result, ok,
  err, value_error, bit_and, bit_or,
}

pub data DataTypeType : Type 0 where
  type_sint type_uint type_float type_boolean type_cfloat type_struct type_na : DataTypeType

abbrev pub type_value : DataTypeType → ℕ
type_value type_sint = 0x00
type_value type_uint = 0x10
type_value type_float = 0x20
type_value type_boolean = 0x30
type_value type_cfloat = 0x40
type_value type_struct = 0x50
type_value type_na = 0xf

pub data DataTypeSize : Type 0 where
  size_8 size_16 size_32 size_64 size_128 size_256 size_na : DataTypeSize

abbrev pub size_value : DataTypeSize → ℕ
size_value size_8 = 0
size_value size_16 = 1
size_value size_32 = 2
size_value size_64 = 3
size_value size_128 = 4
size_value size_256 = 5
size_value size_na = 0xf

pub data EmbeddedDataType : Type 0 where
  sint8 sint16 sint32 sint64 sint128 sint256 : EmbeddedDataType
  uint8 uint16 uint32 uint64 uint128 uint256 : EmbeddedDataType
  float8 float16 float32 float64 float128 float256 : EmbeddedDataType
  cfloat8 cfloat16 cfloat32 cfloat64 cfloat128 cfloat256 : EmbeddedDataType
  boolean struct na : EmbeddedDataType

abbrev pub value : EmbeddedDataType → ℕ
value sint8 = bit_or (type_value type_sint) (size_value size_8)
value sint16 = bit_or (type_value type_sint) (size_value size_16)
value sint32 = bit_or (type_value type_sint) (size_value size_32)
value sint64 = bit_or (type_value type_sint) (size_value size_64)
value sint128 = bit_or (type_value type_sint) (size_value size_128)
value sint256 = bit_or (type_value type_sint) (size_value size_256)
value uint8 = bit_or (type_value type_uint) (size_value size_8)
value uint16 = bit_or (type_value type_uint) (size_value size_16)
value uint32 = bit_or (type_value type_uint) (size_value size_32)
value uint64 = bit_or (type_value type_uint) (size_value size_64)
value uint128 = bit_or (type_value type_uint) (size_value size_128)
value uint256 = bit_or (type_value type_uint) (size_value size_256)
value float8 = bit_or (type_value type_float) (size_value size_8)
value float16 = bit_or (type_value type_float) (size_value size_16)
value float32 = bit_or (type_value type_float) (size_value size_32)
value float64 = bit_or (type_value type_float) (size_value size_64)
value float128 = bit_or (type_value type_float) (size_value size_128)
value float256 = bit_or (type_value type_float) (size_value size_256)
value cfloat8 = bit_or (type_value type_cfloat) (size_value size_8)
value cfloat16 = bit_or (type_value type_cfloat) (size_value size_16)
value cfloat32 = bit_or (type_value type_cfloat) (size_value size_32)
value cfloat64 = bit_or (type_value type_cfloat) (size_value size_64)
value cfloat128 = bit_or (type_value type_cfloat) (size_value size_128)
value cfloat256 = bit_or (type_value type_cfloat) (size_value size_256)
value boolean = bit_or (type_value type_boolean) (size_value size_8)
value struct = bit_or (type_value type_struct) (size_value size_na)
value na = bit_or (type_value type_na) (size_value size_na)

abbrev members : List EmbeddedDataType
members =
    sint8 ∷ sint16 ∷ sint32 ∷ sint64 ∷ sint128 ∷ sint256 ∷ uint8 ∷ uint16 ∷ uint32 ∷ uint64
    ∷ uint128 ∷ uint256 ∷ float8 ∷ float16 ∷ float32 ∷ float64 ∷ float128 ∷ float256 ∷ cfloat8
    ∷ cfloat16 ∷ cfloat32 ∷ cfloat64 ∷ cfloat128 ∷ cfloat256 ∷ boolean ∷ struct ∷ na ∷ []

of_members : List EmbeddedDataType → ℕ → Result EmbeddedDataType
of_members [] n = err value_error
of_members (t ∷ ts) n = if value t == n then ok t else of_members ts n

-- EmbeddedDataType(n)
unfoldable pub of_value : ℕ → Result EmbeddedDataType
unfolding of_members
of_value n = of_members members n

unfoldable pub get_size_byte : EmbeddedDataType → ℕ
get_size_byte t =
    let size = bit_and (value t) 0xf in if size == size_value size_na then 0 else 2 ^ size

unfoldable pub get_size_bit : EmbeddedDataType → ℕ
get_size_bit t = get_size_byte t * 8

unfoldable pub is_integer : EmbeddedDataType → Bool
is_integer t =
    let kind = bit_and (value t) 0xf0 in
    (kind == type_value type_sint) || (kind == type_value type_uint)

unfoldable pub is_float : EmbeddedDataType → Bool
is_float t =
    let kind = bit_and (value t) 0xf0 in
    (kind == type_value type_float) || (kind == type_value type_cfloat)

unfoldable pub is_signed : EmbeddedDataType → Bool
is_signed t =
    let kind = bit_and (value t) 0xf0 in
    (kind == type_value type_sint)
    || (kind == type_value type_float)
    || (kind == type_value type_cfloat)

-- make(datatype_type, size) for a member of DataTypeSize
unfoldable pub make : DataTypeType → DataTypeSize → Result EmbeddedDataType
make kind size = of_value (bit_or (type_value kind) (size_value size))

-- make(datatype_type, size) for a number of bytes
unfoldable pub make_bytes : DataTypeType → ℕ → Result EmbeddedDataType
make_bytes kind n =
    if n == 1
    then make kind size_8
    else if n == 2
    then make kind size_16
    else if n == 4
    then make kind size_32
    else if n == 8
    then make kind size_64
    else if n == 16
    then make kind size_128
    else err value_error

-- Each member is found by its value: no two members share one.
pub of_value-value : (t : EmbeddedDataType) → of_value (value t) ≡ ok t
unfolding of_value of_members
of_value-value sint8 = refl
of_value-value sint16 = refl
of_value-value sint32 = refl
of_value-value sint64 = refl
of_value-value sint128 = refl
of_value-value sint256 = refl
of_value-value uint8 = refl
of_value-value uint16 = refl
of_value-value uint32 = refl
of_value-value uint64 = refl
of_value-value uint128 = refl
of_value-value uint256 = refl
of_value-value float8 = refl
of_value-value float16 = refl
of_value-value float32 = refl
of_value-value float64 = refl
of_value-value float128 = refl
of_value-value float256 = refl
of_value-value cfloat8 = refl
of_value-value cfloat16 = refl
of_value-value cfloat32 = refl
of_value-value cfloat64 = refl
of_value-value cfloat128 = refl
of_value-value cfloat256 = refl
of_value-value boolean = refl
of_value-value struct = refl
of_value-value na = refl

-- What `make` builds from a number of bytes has that size, if the kind is a type.
pub get_size_byte-make_bytes :
    (kind : DataTypeType) (n : ℕ) (t : EmbeddedDataType)
    → (type_value kind == 0xf) ≡ false
    → make_bytes kind n ≡ ok t
    → get_size_byte t ≡ n
unfolding make_bytes make of_value of_members get_size_byte
get_size_byte-make_bytes type_sint n t k e = ground (arith, k, e)
get_size_byte-make_bytes type_uint n t k e = ground (arith, k, e)
get_size_byte-make_bytes type_float n t k e = ground (arith, k, e)
get_size_byte-make_bytes type_boolean n t k e = ground (arith, k, e)
get_size_byte-make_bytes type_cfloat n t k e = ground (arith, k, e)
get_size_byte-make_bytes type_struct n t k e = ground (arith, k, e)
get_size_byte-make_bytes type_na n t k e = ground (arith, k, e)
