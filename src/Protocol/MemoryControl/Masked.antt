-- ===== src/Protocol/MemoryControl/Masked.antt =====
-- The masked writes of MemoryControl, and the parsers for a write of published values
-- (scrutiny/server/protocol/protocol.py).
use scrutiny.Prelude.{
  ℕ, zero, suc, ◌+◌, ◌*◌, Option, some, none, List, [], ◌∷◌, ◌++◌, Bytes, length, take, drop, slice,
  ltb, ◌==◌, not, if◌then◌else◌, Result, ok, err, exception, struct_error, out_of_fuel, ◌>>=◌,
}
use scrutiny.Protocol.Pack.{pack_u16, unpack_u16}
use scrutiny.Protocol.Commands.{Command}
use scrutiny.Protocol.Request.{Request}
use scrutiny.Protocol.Response
use scrutiny.Protocol.Response.{Response}
use scrutiny.Protocol.MemoryControl.{
  AddressFormat, get_address_size_bytes, encode_address, encode_ranges, decode_address,
}
use scrutiny.Values.DataType.{get_size_byte}
use scrutiny.Protocol.MemoryControl.Rpv.{RpvMap, type_of}
use scrutiny.Protocol.MemoryControl.Ranges.{write_single_memory_block}

-- Address, bytes and mask of a block.
pub record MaskedBlock : Type 0 where
  pub address : ℕ
  pub memory : Bytes
  pub mask : Bytes

unfoldable pub encode_masked_blocks : AddressFormat → List MaskedBlock → Result Bytes
encode_masked_blocks f [] = ok []
encode_masked_blocks f (b ∷ bs) =
    if not (length b.memory == length b.mask) then err exception else do
      n ← pack_u16 (length b.memory)
      rest ← encode_masked_blocks f bs
      ok (encode_address f b.address ++ (n ++ (b.memory ++ (b.mask ++ rest))))

unfoldable pub write_memory_blocks_masked : AddressFormat → List MaskedBlock → Result Request
unfolding encode_masked_blocks
write_memory_blocks_masked f blocks = do
  payload ← encode_masked_blocks f blocks
  ok (record {
    command = Command.memory_control;
    subfn = 3;
    payload = payload;
    response_payload_size = (get_address_size_bytes f + 2) * length blocks;
  })

-- With or without a mask.
unfoldable pub write_memory_block : AddressFormat → ℕ → Bytes → Option Bytes → Result Request
unfolding write_memory_blocks_masked write_single_memory_block
write_memory_block f address d none = write_single_memory_block f address d
write_memory_block f address d (some mask) =
    write_memory_blocks_masked f (record { address = address; memory = d; mask = mask } ∷ [])

unfoldable pub respond_write_memory_blocks_masked : AddressFormat → List (ℕ × ℕ) → Result Response
respond_write_memory_blocks_masked f blocks = do
  payload ← encode_ranges f blocks
  ok (record {
    command = Command.memory_control;
    subfn = 3;
    code = Response.ok_code;
    payload = payload;
  })

-- The loop over the blocks of a masked write, on fuel.
unfoldable pub parse_masked_blocks : AddressFormat → ℕ → Bytes → Result (List MaskedBlock)
parse_masked_blocks f zero d = err out_of_fuel
parse_masked_blocks f (suc fuel) d =
    let header = get_address_size_bytes f + 2 in
    let body = drop header d in
    if ltb (length d) header then err exception else do
      address ← decode_address f d
      n ← unpack_u16 (slice (get_address_size_bytes f) header d)
      let b : MaskedBlock = record {
        address = address;
        memory = take n body;
        mask = take n (drop n body);
      }
      if ltb (length body) (2 * n) then err exception else elim (drop (2 * n) body) [
        | [] ↦ ok (b ∷ [])
        | x ∷ xs ↦ (do more ← parse_masked_blocks f fuel (x ∷ xs); ok (b ∷ more))
      ]

-- Each round takes three bytes at least, so the length of the payload is fuel enough.
unfoldable pub parse_masked_write_request : AddressFormat → Request → Result (List MaskedBlock)
unfolding parse_masked_blocks
parse_masked_write_request f q = parse_masked_blocks f (suc (length q.payload)) q.payload

-- Identifier and size of each published value that was written.
unfoldable pub parse_written_values : Bytes → Result (List (ℕ × ℕ))
parse_written_values [] = ok []
parse_written_values (a ∷ b ∷ size ∷ more) = do
  id ← unpack_u16 (a ∷ b ∷ [])
  rest ← parse_written_values more
  ok ((id, size) ∷ rest)
parse_written_values _ = err exception

unfoldable pub parse_write_rpv_response : Response → Result (List (ℕ × ℕ))
unfolding parse_written_values
parse_write_rpv_response r = parse_written_values r.payload

-- The loop over the values of a write request, on fuel.
unfoldable pub parse_value_writes : RpvMap → ℕ → Bytes → Result (List (ℕ × Bytes))
unfolding type_of
parse_value_writes types fuel [] = ok []
parse_value_writes types zero (x ∷ xs) = err out_of_fuel
parse_value_writes types (suc fuel) (x ∷ xs) = do
  id ← unpack_u16 (take 2 (x ∷ xs))
  t ← type_of types id
  let body = drop 2 (x ∷ xs)
  if ltb (length body) (get_size_byte t) then err struct_error else do
    more ← parse_value_writes types fuel (drop (get_size_byte t) body)
    ok ((id, take (get_size_byte t) body) ∷ more)

-- Each round takes two bytes at least.
unfoldable pub parse_write_rpv_request : RpvMap → Request → Result (List (ℕ × Bytes))
unfolding parse_value_writes
parse_write_rpv_request types q = parse_value_writes types (length q.payload) q.payload
