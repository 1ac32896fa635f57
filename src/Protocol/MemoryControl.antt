-- ===== src/Protocol/MemoryControl.antt =====
-- The memory blocks of the MemoryControl command: addresses of each width, the requests that read and
-- write blocks, and the loops that parse blocks (scrutiny/server/protocol/protocol.py).
pub mod RoundTrip
pub mod Ranges
pub mod Rpv
pub mod Masked
pub mod Fuel
pub mod Listing
use scrutiny.Prelude.{
  ℕ, zero, suc, ◌+◌, ◌*◌, ◌/◌, ◌%◌, List, [], ◌∷◌, ◌++◌, Bytes, length, take, drop, slice, ltb,
  ◌==◌, if◌then◌else◌, Result, ok, err, exception, value_error, struct_error, out_of_fuel, ◌>>=◌,
}
use scrutiny.Protocol.Pack.{pack_u16, unpack_u16, unpack_u32, u16_bytes, u32_bytes}
use scrutiny.Protocol.Commands.{Command}
use scrutiny.Protocol.Request.{Request}
use scrutiny.Protocol.Response
use scrutiny.Protocol.Response.{Response}

pub data AddressFormat : Type 0 where
  bits_8 bits_16 bits_32 bits_64 : AddressFormat

-- AddressFormat(nbits)
unfoldable pub make_format : ℕ → Result AddressFormat
make_format nbits =
    if nbits == 8
    then ok bits_8
    else if nbits == 16
    then ok bits_16
    else if nbits == 32
    then ok bits_32
    else if nbits == 64
    then ok bits_64
    else err value_error

unfoldable pub set_address_size_bytes : ℕ → Result AddressFormat
set_address_size_bytes n = make_format (n * 8)

abbrev pub get_address_size_bytes : AddressFormat → ℕ
get_address_size_bytes bits_8 = 1
get_address_size_bytes bits_16 = 2
get_address_size_bytes bits_32 = 4
get_address_size_bytes bits_64 = 8

-- One more than the address mask.
abbrev pub address_count : AddressFormat → ℕ
address_count bits_8 = 256
address_count bits_16 = 65536
address_count bits_32 = 4294967296
address_count bits_64 = 18446744073709551616

-- pack('>' + c, n) for a number that fits
abbrev pub pack_address : AddressFormat → ℕ → Bytes
pack_address bits_8 n = n ∷ []
pack_address bits_16 n = u16_bytes n
pack_address bits_32 n = u32_bytes n
pack_address bits_64 n = u32_bytes (n / 4294967296) ++ u32_bytes (n % 4294967296)

unfoldable pub encode_address : AddressFormat → ℕ → Bytes
encode_address f address = pack_address f (address % address_count f)

unpack_u8 : Bytes → Result ℕ
unpack_u8 (a ∷ []) = ok a
unpack_u8 _ = err struct_error

unpack_u64 : Bytes → Result ℕ
unpack_u64 d = do
  high ← unpack_u32 (take 4 d)
  low ← unpack_u32 (drop 4 d)
  ok (high * 4294967296 + low)

unpack_address : AddressFormat → Bytes → Result ℕ
unfolding unpack_u8 unpack_u64
unpack_address bits_8 d = unpack_u8 d
unpack_address bits_16 d = unpack_u16 d
unpack_address bits_32 d = unpack_u32 d
unpack_address bits_64 d = unpack_u64 d

unfoldable pub decode_address : AddressFormat → Bytes → Result ℕ
unfolding unpack_address
decode_address f buff = unpack_address f (slice 0 (get_address_size_bytes f) buff)

-- Address and size of each block.
unfoldable pub encode_ranges : AddressFormat → List (ℕ × ℕ) → Result Bytes
encode_ranges f [] = ok []
encode_ranges f ((address, size) ∷ more) = do
  n ← pack_u16 size
  rest ← encode_ranges f more
  ok (encode_address f address ++ (n ++ rest))

abbrev pub total_length : List (ℕ × ℕ) → ℕ
total_length [] = 0
total_length ((address, size) ∷ more) = size + total_length more

unfoldable pub read_memory_blocks : AddressFormat → List (ℕ × ℕ) → Result Request
read_memory_blocks f blocks = do
  payload ← encode_ranges f blocks
  ok (record {
    command = Command.memory_control;
    subfn = 1;
    payload = payload;
    response_payload_size = (get_address_size_bytes f + 2) * length blocks + total_length blocks;
  })

-- Address, size and bytes of each block.
unfoldable pub encode_blocks : AddressFormat → List (ℕ × Bytes) → Result Bytes
encode_blocks f [] = ok []
encode_blocks f ((address, memory) ∷ more) = do
  n ← pack_u16 (length memory)
  rest ← encode_blocks f more
  ok (encode_address f address ++ (n ++ (memory ++ rest)))

unfoldable pub write_memory_blocks : AddressFormat → List (ℕ × Bytes) → Result Request
write_memory_blocks f blocks = do
  payload ← encode_blocks f blocks
  ok (record {
    command = Command.memory_control;
    subfn = 2;
    payload = payload;
    response_payload_size = (get_address_size_bytes f + 2) * length blocks;
  })

unfoldable pub respond_read_memory_blocks : AddressFormat → List (ℕ × Bytes) → Result Response
respond_read_memory_blocks f blocks = do
  payload ← encode_blocks f blocks
  ok (record {
    command = Command.memory_control;
    subfn = 1;
    code = Response.ok_code;
    payload = payload;
  })

-- The loop that reads blocks off a payload, on fuel; `d` is the payload from `index` on.
unfoldable pub parse_blocks : AddressFormat → ℕ → Bytes → Result (List (ℕ × Bytes))
parse_blocks f zero d = err out_of_fuel
parse_blocks f (suc fuel) d =
    let header = get_address_size_bytes f + 2 in
    let body = drop header d in
    if ltb (length d) header then err exception else do
      address ← decode_address f d
      n ← unpack_u16 (slice (get_address_size_bytes f) header d)
      if ltb (length body) n then err exception else elim (drop n body) [
        | [] ↦ ok ((address, take n body) ∷ [])
        | x ∷ xs ↦ (do more ← parse_blocks f fuel (x ∷ xs); ok ((address, take n body) ∷ more))
      ]

-- Each round takes three bytes at least, so the length of the payload is fuel enough.
unfoldable pub parse_read_response : AddressFormat → Response → Result (List (ℕ × Bytes))
parse_read_response f r = parse_blocks f (suc (length r.payload)) r.payload

-- The loop of the request ends at `index >= len(payload)`, where no index exceeds the length.
unfoldable pub parse_write_request : AddressFormat → Request → Result (List (ℕ × Bytes))
parse_write_request f q = parse_blocks f (suc (length q.payload)) q.payload
