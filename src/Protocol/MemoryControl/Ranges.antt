-- ===== src/Protocol/MemoryControl/Ranges.antt =====
-- The payloads of MemoryControl that hold addresses and sizes without the bytes: the parsed read
-- request and the answer to a write (scrutiny/server/protocol/protocol.py).
use scrutiny.Prelude.{
  ℕ, zero, suc, ◌+◌, ◌/◌, ◌%◌, List, [], ◌∷◌, Bytes, length, drop, slice, ltb, ◌==◌, if◌then◌else◌,
  Result, ok, err, exception, out_of_fuel, ◌>>=◌,
}
use scrutiny.Protocol.Pack.{unpack_u16}
use scrutiny.Protocol.Commands.{Command}
use scrutiny.Protocol.Request.{Request}
use scrutiny.Protocol.Response
use scrutiny.Protocol.Response.{Response}
use scrutiny.Protocol.MemoryControl
use scrutiny.Protocol.MemoryControl.{AddressFormat, get_address_size_bytes, encode_ranges}

unfoldable pub read_single_memory_block : AddressFormat → ℕ → ℕ → Result Request
unfolding MemoryControl.read_memory_blocks
read_single_memory_block f address n = MemoryControl.read_memory_blocks f ((address, n) ∷ [])

unfoldable pub write_single_memory_block : AddressFormat → ℕ → Bytes → Result Request
unfolding MemoryControl.write_memory_blocks
write_single_memory_block f address d = MemoryControl.write_memory_blocks f ((address, d) ∷ [])

-- The loop over the blocks of a read request; `d` is the payload from the next block on.
unfoldable pub parse_ranges : AddressFormat → ℕ → Bytes → Result (List (ℕ × ℕ))
parse_ranges f zero d = ok []
parse_ranges f (suc blocks) d = do
  address ← MemoryControl.decode_address f d
  n ← unpack_u16 (slice (get_address_size_bytes f) (get_address_size_bytes f + 2) d)
  more ← parse_ranges f blocks (drop (get_address_size_bytes f + 2) d)
  ok ((address, n) ∷ more)

unfoldable pub parse_read_request : AddressFormat → Request → Result (List (ℕ × ℕ))
parse_read_request f q =
    let block_size = 2 + get_address_size_bytes f in
    if length q.payload % block_size == 0
    then parse_ranges f (length q.payload / block_size) q.payload
    else err exception

unfoldable pub respond_write_memory_blocks : AddressFormat → List (ℕ × ℕ) → Result Response
respond_write_memory_blocks f blocks = do
  payload ← encode_ranges f blocks
  ok (record {
    command = Command.memory_control;
    subfn = 2;
    code = Response.ok_code;
    payload = payload;
  })

-- The loop over the written blocks of an answer, on fuel.
unfoldable pub parse_written : AddressFormat → ℕ → Bytes → Result (List (ℕ × ℕ))
parse_written f zero d = err out_of_fuel
parse_written f (suc fuel) d =
    let header = get_address_size_bytes f + 2 in
    if ltb (length d) header then err exception else do
      address ← MemoryControl.decode_address f d
      n ← unpack_u16 (slice (get_address_size_bytes f) header d)
      elim (drop header d) [
        | [] ↦ ok ((address, n) ∷ [])
        | x ∷ xs ↦ (do more ← parse_written f fuel (x ∷ xs); ok ((address, n) ∷ more))
      ]

-- Each round takes three bytes at least, so the length of the payload is fuel enough.
unfoldable pub parse_write_response : AddressFormat → Response → Result (List (ℕ × ℕ))
parse_write_response f r = parse_written f (suc (length r.payload)) r.payload
