-- ===== src/Protocol/Response.antt =====
-- scrutiny/server/protocol/response.py
pub mod RoundTrip
pub mod TopBit
use scrutiny.Prelude.{
  ℕ, zero, suc, ◌+◌, ◌-◌, ◌<◌, ◌≡◌, refl, Bool, List, [], ◌∷◌, ◌++◌, Bytes, length, drop, slice,
  ltb, ◌==◌, if◌then◌else◌, Result, ok, err, exception, value_error, ◌>>=◌, bit_and, not,
}
use scrutiny.Protocol.Pack.{pack_u8, pack_u16, pack_u32, unpack_u16, unpack_u32}
use scrutiny.Protocol.Crc.{crc32}
use scrutiny.Protocol.Commands.{Command, response_id, from_command_id}

pub data ResponseCode : Type 0 where
  ok_code invalid_request unsupported_feature overflow busy failure_to_proceed : ResponseCode

abbrev pub code_value : ResponseCode → ℕ
code_value ok_code = 0
code_value invalid_request = 1
code_value unsupported_feature = 2
code_value overflow = 3
code_value busy = 4
code_value failure_to_proceed = 5

-- ResponseCode(code)
abbrev pub code_of : ℕ → Result ResponseCode
code_of n =
    if n == 0
    then ok ok_code
    else if n == 1
    then ok invalid_request
    else if n == 2
    then ok unsupported_feature
    else if n == 3
    then ok overflow
    else if n == 4
    then ok busy
    else if n == 5
    then ok failure_to_proceed
    else err value_error

pub record Response : Type 0 where
  pub command : Command
  pub subfn : ℕ
  pub code : ResponseCode
  pub payload : Bytes

unfoldable pub size : Response → ℕ
size r = 9 + length r.payload

unfoldable pub data_size : Response → ℕ
data_size r = length r.payload

unfoldable pub make_bytes_no_crc : Response → Result Bytes
make_bytes_no_crc r = do
  id ← pack_u8 (response_id r.command)
  sub ← pack_u8 r.subfn
  code ← pack_u8 (code_value r.code)
  n ← pack_u16 (length r.payload)
  ok (id ++ (sub ++ (code ++ (n ++ r.payload))))

unfoldable pub to_bytes : Response → Result Bytes
to_bytes r = do d ← make_bytes_no_crc r; crc ← pack_u32 (crc32 d); ok (d ++ crc)

-- The checks behind the header.
unfoldable pub check : Bytes → ℕ → Response → Result Response
check d n r = if not (n == length r.payload) then err exception else do
  no_crc ← make_bytes_no_crc r
  received ← unpack_u32 (drop (length d - 4) d)
  if not (crc32 no_crc == received) then err exception else ok r

unfoldable pub from_header : Bytes → ℕ → ℕ → ℕ → Result Response
from_header d cmd sub code_byte = do
  command ← from_command_id cmd
  code ← code_of code_byte
  n ← unpack_u16 (slice 3 5 d)
  let payload = slice 5 (length d - 4) d
  check d n (record { command = command; subfn = sub; code = code; payload = payload })

-- struct.unpack('>BBB', data[:3])
unfoldable pub from_bytes : Bytes → Result Response
from_bytes (cmd ∷ sub ∷ code ∷ d) =
    if ltb (length (cmd ∷ sub ∷ code ∷ d)) 9
    then err exception
    else from_header (cmd ∷ sub ∷ code ∷ d) cmd sub code
from_bytes _ = err exception
