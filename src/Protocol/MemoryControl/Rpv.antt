-- ===== src/Protocol/MemoryControl/Rpv.antt =====
-- The payloads of MemoryControl for runtime published values (scrutiny/server/protocol/protocol.py).
-- A value stands for the bytes that its codec makes of it.
use scrutiny.Prelude.{
  ℕ, zero, suc, ◌+◌, ◌*◌, some, none, List, [], ◌∷◌, ◌++◌, Bytes, length, take, drop, ltb,
  if◌then◌else◌, Result, ok, err, exception, out_of_fuel, ◌>>=◌,
}
use scrutiny.Prelude.Dict
use scrutiny.Prelude.Dict.{Dict}
use scrutiny.Values.DataType.{EmbeddedDataType, get_size_byte}
use scrutiny.Protocol.Pack.{pack_u16, unpack_u16}
use scrutiny.Protocol.Commands.{Command}
use scrutiny.Protocol.Request.{Request}
use scrutiny.Protocol.Response
use scrutiny.Protocol.Response.{Response}

-- The protocol's map from identifiers to the types of the values.
abbrev pub RpvMap : Type 0
RpvMap = Dict EmbeddedDataType

-- self.rpv_map[id], after the test that it is there
unfoldable pub type_of : RpvMap → ℕ → Result EmbeddedDataType
type_of types id = elim (Dict.get types id) [ none ↦ err exception | some t ↦ ok t ]

unfoldable pub read_rpv_request_required_size : List EmbeddedDataType → ℕ
read_rpv_request_required_size types = 2 * length types

unfoldable pub read_rpv_response_required_size : List EmbeddedDataType → ℕ
read_rpv_response_required_size [] = 0
read_rpv_response_required_size (t ∷ types) =
    2 + get_size_byte t + read_rpv_response_required_size types

-- The size of the answer for the identifiers.
unfoldable pub expected_response_size : RpvMap → List ℕ → Result ℕ
unfolding type_of
expected_response_size types [] = ok 0
expected_response_size types (id ∷ ids) = do
  t ← type_of types id
  rest ← expected_response_size types ids
  ok (2 + get_size_byte t + rest)

-- pack('>HH…', *ids)
unfoldable pub pack_ids : List ℕ → Result Bytes
pack_ids [] = ok []
pack_ids (id ∷ ids) = do d ← pack_u16 id; rest ← pack_ids ids; ok (d ++ rest)

unfoldable pub read_runtime_published_values : RpvMap → List ℕ → Result Request
unfolding expected_response_size pack_ids
read_runtime_published_values types ids = do
  size ← expected_response_size types ids
  payload ← pack_ids ids
  ok (record {
    command = Command.memory_control;
    subfn = 4;
    payload = payload;
    response_payload_size = size;
  })

-- Identifier and bytes of each value.
unfoldable pub encode_values : RpvMap → List (ℕ × Bytes) → Result Bytes
unfolding type_of
encode_values types [] = ok []
encode_values types ((id, value) ∷ more) = do
  t ← type_of types id
  d ← pack_u16 id
  rest ← encode_values types more
  ok (d ++ (value ++ rest))

unfoldable pub write_runtime_published_values : RpvMap → List (ℕ × Bytes) → Result Request
unfolding encode_values
write_runtime_published_values types values = do
  payload ← encode_values types values
  ok (record {
    command = Command.memory_control;
    subfn = 5;
    payload = payload;
    response_payload_size = length values * 3;
  })

unfoldable pub respond_read_runtime_published_values : RpvMap → List (ℕ × Bytes) → Result Response
unfolding encode_values
respond_read_runtime_published_values types values = do
  payload ← encode_values types values
  ok (record {
    command = Command.memory_control;
    subfn = 4;
    code = Response.ok_code;
    payload = payload;
  })

-- The loop over the values of an answer, on fuel.
unfoldable pub parse_values : RpvMap → ℕ → Bytes → Result (List (ℕ × Bytes))
unfolding type_of
parse_values types fuel [] = ok []
parse_values types zero (x ∷ xs) = err out_of_fuel
parse_values types (suc fuel) (x ∷ xs) = if ltb (length (x ∷ xs)) 2 then err exception else do
  id ← unpack_u16 (take 2 (x ∷ xs))
  t ← type_of types id
  let body = drop 2 (x ∷ xs)
  if ltb (length body) (get_size_byte t) then err exception else do
    more ← parse_values types fuel (drop (get_size_byte t) body)
    ok ((id, take (get_size_byte t) body) ∷ more)

-- Each round takes two bytes at least.
unfoldable pub parse_read_rpv_response : RpvMap → Response → Result (List (ℕ × Bytes))
unfolding parse_values
parse_read_rpv_response types r = parse_values types (length r.payload) r.payload
