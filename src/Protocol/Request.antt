-- ===== src/Protocol/Request.antt =====
-- scrutiny/server/protocol/request.py
pub mod RoundTrip
pub mod Canonical
use scrutiny.Prelude.{
  ℕ, ◌+◌, ◌-◌, ◌<◌, Bool, List, [], ◌∷◌, ◌++◌, Bytes, length, drop, slice, ltb, ◌==◌, if◌then◌else◌,
  Result, ok, err, exception, index_error, ◌>>=◌, bit_and, not,
}
use scrutiny.Protocol.Pack.{pack_u8, pack_u16, pack_u32, unpack_u16, unpack_u32}
use scrutiny.Protocol.Crc.{crc32}
use scrutiny.Protocol.Commands.{Command, request_id, from_command_id}

pub record Request : Type 0 where
  pub command : Command
  pub subfn : ℕ
  pub payload : Bytes
  pub response_payload_size : ℕ

abbrev pub overhead_size : ℕ
overhead_size = 8

abbrev pub response_overhead_size : ℕ
response_overhead_size = 9

unfoldable pub make_bytes_no_crc : Request → Result Bytes
make_bytes_no_crc r = do
  id ← pack_u8 (bit_and (request_id r.command) 0x7f)
  sub ← pack_u8 r.subfn
  n ← pack_u16 (length r.payload)
  ok (id ++ (sub ++ (n ++ r.payload)))

unfoldable pub to_bytes : Request → Result Bytes
to_bytes r = do d ← make_bytes_no_crc r; crc ← pack_u32 (crc32 d); ok (d ++ crc)

unfoldable pub get_expected_response_size : Request → ℕ
get_expected_response_size r = response_overhead_size + r.response_payload_size

unfoldable pub get_expected_response_data_size : Request → ℕ
get_expected_response_data_size r = r.response_payload_size

unfoldable pub size : Request → ℕ
size r = overhead_size + length r.payload

unfoldable pub data_size : Request → ℕ
data_size r = length r.payload

-- The checks behind the header.
unfoldable pub check : Bytes → ℕ → Request → Result Request
check d n r = if not (n == length r.payload) then err exception else do
  no_crc ← make_bytes_no_crc r
  received ← unpack_u32 (drop (length d - 4) d)
  if not (crc32 no_crc == received) then err exception else ok r

unfoldable pub from_header : Bytes → ℕ → ℕ → Result Request
from_header d cmd sub = if ltb 0 (bit_and cmd 0x80) then err exception else do
  command ← from_command_id cmd
  n ← unpack_u16 (slice 2 4 d)
  let payload = slice 4 (length d - 4) d
  check d n
      (record { command = command; subfn = sub; payload = payload; response_payload_size = 0 })

-- struct.unpack('>BB', data[:2])
unfoldable pub from_bytes : Bytes → Result Request
from_bytes (cmd ∷ sub ∷ d) =
    if ltb (length (cmd ∷ sub ∷ d)) 8 then err exception else from_header (cmd ∷ sub ∷ d) cmd sub
from_bytes _ = err exception
