-- ===== src/Protocol/CommControl/RoundTrip.antt =====
-- The answers to CommControl requests through their payloads (scrutiny/server/protocol/protocol.py).
use scrutiny.Prelude.{
  ℕ, ◌≤◌, ◌<◌, ◌≡◌, subst, [], ◌∷◌, ◌++◌, arith, Bytes, length, take, take_all, drop, ok,
  take-append_length, drop-append_length,
}
use scrutiny.Protocol.Pack.{u16_bytes, u32_bytes, unpack_u16-bytes, unpack_u32-bytes}
use scrutiny.Protocol.Response.{Response}
use scrutiny.Protocol.CommControl
use scrutiny.Protocol.CommControl.{CommData, DeviceParams, parse_response}

-- A heartbeat response whose session identifier has 32 bits and whose challenge response has 16 is
-- built, and parsed to those two numbers.
pub parse_response-respond_comm_heartbeat :
    (session_id answer : ℕ)
    → session_id < 4294967296
    → answer < 65536
    → (r : Response) × (CommControl.respond_comm_heartbeat session_id answer ≡ ok r)
      × (parse_response r ≡ ok (CommData.beaten session_id answer))
unfolding CommControl.respond_comm_heartbeat parse_response CommControl.parse_payload
    CommControl.parse_heartbeat
parse_response-respond_comm_heartbeat s a h k = (
  CommControl.comm_response CommControl.heartbeat (u32_bytes s ++ u16_bytes a),
  ground arith,
  ground (arith, unpack_u32-bytes s h, unpack_u16-bytes a k),
)

-- A connect response whose session identifier has 32 bits is built, and parsed to the identifier with
-- the magic bytes.
pub parse_response-respond_comm_connect :
    (session_id : ℕ)
    → session_id < 4294967296
    → (r : Response) × (CommControl.respond_comm_connect session_id ≡ ok r)
      × (parse_response r ≡ ok (CommData.connected CommControl.connect_magic session_id))
unfolding CommControl.respond_comm_connect parse_response CommControl.parse_payload
    CommControl.parse_connect
parse_response-respond_comm_connect s h = (
  CommControl.comm_response CommControl.connect (CommControl.connect_magic ++ u32_bytes s),
  ground arith,
  ground (arith, unpack_u32-bytes s h),
)

-- The fields of the parameters fit their widths in the payload.
pub record Fit (p : DeviceParams) : Type 0 where
  pub rx : p.max_rx_data_size < 65536
  pub tx : p.max_tx_data_size < 65536
  pub bitrate : p.max_bitrate_bps < 4294967296
  pub heartbeat : p.heartbeat_timeout_us < 4294967296
  pub timeout : p.rx_timeout_us < 4294967296
  pub address : p.address_size_byte < 256

-- Parameters that fit their widths are put into a response, and parsed back.
pub parse_response-respond_comm_get_params :
    (p : DeviceParams)
    → Fit p
    → (r : Response) × (CommControl.respond_comm_get_params p ≡ ok r)
      × (parse_response r ≡ ok (CommData.params_given p))
unfolding CommControl.respond_comm_get_params parse_response CommControl.parse_payload
    CommControl.parse_get_params
parse_response-respond_comm_get_params p f = (
  CommControl.comm_response CommControl.get_params (
      u16_bytes p.max_rx_data_size
      ++ (u16_bytes p.max_tx_data_size
          ++ (u32_bytes p.max_bitrate_bps
              ++ (u32_bytes p.heartbeat_timeout_us
                  ++ (u32_bytes p.rx_timeout_us ++ (p.address_size_byte ∷ [])))))),
  ground (arith, f.rx, f.tx, f.bitrate, f.heartbeat, f.timeout, f.address),
  ground (
    arith,
    unpack_u16-bytes p.max_rx_data_size f.rx,
    unpack_u16-bytes p.max_tx_data_size f.tx,
    unpack_u32-bytes p.max_bitrate_bps f.bitrate,
    unpack_u32-bytes p.heartbeat_timeout_us f.heartbeat,
    unpack_u32-bytes p.rx_timeout_us f.timeout,
  ),
)

-- A discover response with the version in two bytes, a firmware identifier of 16 bytes and a name of
-- 64 bytes at most is built, and parsed to them.
pub parse_response-respond_comm_discover :
    (major minor : ℕ) (firmware_id name : Bytes)
    → major < 256
    → minor < 256
    → length firmware_id ≡ 16
    → length name ≤ 64
    → (r : Response) × (CommControl.respond_comm_discover major minor firmware_id name ≡ ok r)
      × (parse_response r ≡ ok (CommData.discovered major minor firmware_id name))
unfolding CommControl.respond_comm_discover parse_response CommControl.parse_payload
    CommControl.parse_discover CommControl.parse_name
parse_response-respond_comm_discover major minor id name h k len short = (
  CommControl.comm_response CommControl.discover (major ∷ minor ∷ (id ++ (length name ∷ name))),
  ground arith,
  ground (arith, first, rest, take_all name),
)
  where
    first : take 16 (id ++ (length name ∷ name)) ≡ id
    first =
        subst (λ n. take n (id ++ (length name ∷ name)) ≡ id) len
          (take-append_length id (length name ∷ name))

    rest : drop 16 (id ++ (length name ∷ name)) ≡ length name ∷ name
    rest =
        subst (λ n. drop n (id ++ (length name ∷ name)) ≡ length name ∷ name) len
          (drop-append_length id (length name ∷ name))
