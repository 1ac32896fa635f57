-- ===== src/Protocol/CommControl.antt =====
-- The payloads of the CommControl command: scrutiny/server/protocol/commands/comm_control.py, and the
-- parts of scrutiny/server/protocol/protocol.py that build and parse them.
pub mod RoundTrip
use scrutiny.Prelude.{
  ℕ, ◌+◌, ◌-◌, ◌%◌, Bool, true, false, List, [], ◌∷◌, ◌++◌, Bytes, length, slice, drop, ltb,
  if◌then◌else◌, Result, ok, err, exception, value_error, struct_error, ◌>>=◌, ◌==◌,
}
use scrutiny.Protocol.Pack.{pack_u8, pack_u16, pack_u32, unpack_u16, unpack_u32}
use scrutiny.Protocol.Commands.{Command}
use scrutiny.Protocol.Request.{Request}
use scrutiny.Protocol.Response
use scrutiny.Protocol.Response.{Response, ResponseCode}

pub data Subfunction : Type 0 where
  discover heartbeat get_params connect disconnect : Subfunction

abbrev pub subfunction_value : Subfunction → ℕ
subfunction_value discover = 1
subfunction_value heartbeat = 2
subfunction_value get_params = 3
subfunction_value connect = 4
subfunction_value disconnect = 5

-- CommControl.Subfunction(n)
abbrev pub subfunction_of : ℕ → Result Subfunction
subfunction_of n =
    if n == 1
    then ok discover
    else if n == 2
    then ok heartbeat
    else if n == 3
    then ok get_params
    else if n == 4
    then ok connect
    else if n == 5
    then ok disconnect
    else err value_error

abbrev pub discover_magic : Bytes
discover_magic = 0x7e ∷ 0x18 ∷ 0xfc ∷ 0x68 ∷ []

abbrev pub connect_magic : Bytes
connect_magic = 0x82 ∷ 0x90 ∷ 0x22 ∷ 0x66 ∷ []

-- A request of this command, with the size of the payload that answers it.
abbrev pub comm_request : Subfunction → Bytes → ℕ → Request
comm_request sub payload answer = record {
  command = Command.comm_control;
  subfn = subfunction_value sub;
  payload = payload;
  response_payload_size = answer;
}

abbrev pub comm_response : Subfunction → Bytes → Response
comm_response sub payload = record {
  command = Command.comm_control;
  subfn = subfunction_value sub;
  code = ResponseCode.ok_code;
  payload = payload;
}

-- pack('>LH', session_id, n)
abbrev pub pack_session : ℕ → ℕ → Result Bytes
pack_session session_id n = do id ← pack_u32 session_id; rest ← pack_u16 n; ok (id ++ rest)

unfoldable pub comm_discover : Request
comm_discover = comm_request discover discover_magic 16

unfoldable pub comm_heartbeat : ℕ → ℕ → Result Request
comm_heartbeat session_id challenge = do
  payload ← pack_session session_id challenge
  ok (comm_request heartbeat payload 6)

unfoldable pub comm_get_params : Request
comm_get_params = comm_request get_params [] 17

unfoldable pub comm_connect : Request
comm_connect = comm_request connect connect_magic 8

unfoldable pub comm_disconnect : ℕ → Result Request
comm_disconnect session_id = do
  payload ← pack_u32 session_id
  ok (comm_request disconnect payload 0)

-- compute_challenge_16bits: the complement of the low 16 bits.
unfoldable pub heartbeat_expected_challenge_response : ℕ → ℕ
heartbeat_expected_challenge_response challenge = 65535 - challenge % 65536

-- bytes([n])
abbrev pub byte_of : ℕ → Result Bytes
byte_of n = if ltb n 256 then ok (n ∷ []) else err value_error

pub record DeviceParams : Type 0 where
  pub max_rx_data_size : ℕ
  pub max_tx_data_size : ℕ
  pub max_bitrate_bps : ℕ
  pub heartbeat_timeout_us : ℕ
  pub rx_timeout_us : ℕ
  pub address_size_byte : ℕ

-- The source counts the characters of the name, where the model, whose name is its bytes, counts those.
unfoldable pub respond_comm_discover : ℕ → ℕ → Bytes → Bytes → Result Response
respond_comm_discover major minor firmware_id display_name =
    if ltb 64 (length display_name) then err exception else do
      a ← byte_of major
      b ← byte_of minor
      ok (
          comm_response discover
            (a ++ (b ++ (firmware_id ++ (length display_name ∷ display_name)))))

unfoldable pub respond_comm_heartbeat : ℕ → ℕ → Result Response
respond_comm_heartbeat session_id challenge_response = do
  payload ← pack_session session_id challenge_response
  ok (comm_response heartbeat payload)

unfoldable pub respond_comm_get_params : DeviceParams → Result Response
respond_comm_get_params p = do
  rx ← pack_u16 p.max_rx_data_size
  tx ← pack_u16 p.max_tx_data_size
  bitrate ← pack_u32 p.max_bitrate_bps
  heartbeat_timeout ← pack_u32 p.heartbeat_timeout_us
  rx_timeout ← pack_u32 p.rx_timeout_us
  address_size ← pack_u8 p.address_size_byte
  ok (
      comm_response get_params
        (rx ++ (tx ++ (bitrate ++ (heartbeat_timeout ++ (rx_timeout ++ address_size))))))

unfoldable pub respond_comm_connect : ℕ → Result Response
respond_comm_connect session_id = do
  id ← pack_u32 session_id
  ok (comm_response connect (connect_magic ++ id))

unfoldable pub respond_comm_disconnect : Response
respond_comm_disconnect = comm_response disconnect []

-- What `parse_response` returns for this command. Names are the bytes that they are decoded from.
pub data CommData : Type 0 where
  nothing : CommData
  discovered : (major minor : ℕ) (firmware_id display_name : Bytes) → CommData
  beaten : (session_id challenge_response : ℕ) → CommData
  params_given : DeviceParams → CommData
  connected : (magic : Bytes) (session_id : ℕ) → CommData

parse_heartbeat : Bytes → Result CommData
parse_heartbeat d = do
  session_id ← unpack_u32 (slice 0 4 (slice 0 6 d))
  answer ← unpack_u16 (slice 4 6 d)
  ok (beaten session_id answer)

parse_connect : Bytes → Result CommData
parse_connect d = do session_id ← unpack_u32 (slice 4 8 d); ok (connected (slice 0 4 d) session_id)

-- unpack('>HHLLLB', payload[0:17])
parse_get_params : Bytes → Result CommData
parse_get_params d = do
  rx ← unpack_u16 (slice 0 2 d)
  tx ← unpack_u16 (slice 2 4 d)
  bitrate ← unpack_u32 (slice 4 8 d)
  heartbeat_timeout ← unpack_u32 (slice 8 12 d)
  rx_timeout ← unpack_u32 (slice 12 16 d)
  elim (drop 16 d) [
    | [] ↦ err struct_error
    | address_size ∷ rest ↦ ok (
        params_given (record {
          max_rx_data_size = rx;
          max_tx_data_size = tx;
          max_bitrate_bps = bitrate;
          heartbeat_timeout_us = heartbeat_timeout;
          rx_timeout_us = rx_timeout;
          address_size_byte = address_size;
        }))
  ]

-- The checks behind the two bytes of the version.
parse_name : ℕ → ℕ → Bytes → Bytes → Result CommData
parse_name major minor firmware_id [] = err exception
parse_name major minor firmware_id (n ∷ name) =
    if ltb (length name) n
    then err exception
    else ok (discovered major minor firmware_id (slice 0 n name))

parse_discover : Bytes → Result CommData
unfolding parse_name
parse_discover (major ∷ minor ∷ d) = parse_name major minor (slice 0 16 d) (drop 16 d)
parse_discover _ = err exception

parse_payload : Subfunction → Bytes → Result CommData
unfolding parse_heartbeat parse_connect parse_get_params parse_discover
parse_payload discover d = parse_discover d
parse_payload heartbeat d = parse_heartbeat d
parse_payload get_params d = parse_get_params d
parse_payload connect d = parse_connect d
parse_payload disconnect d = ok nothing

-- `parse_response` for a response of this command: no data is read where the code is not OK.
unfoldable pub parse_response : Response → Result CommData
unfolding parse_payload
parse_response r =
    if Response.code_value r.code == 0
    then (do sub ← subfunction_of r.subfn; parse_payload sub r.payload)
    else ok nothing
