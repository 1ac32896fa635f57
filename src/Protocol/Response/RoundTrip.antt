-- ===== src/Protocol/Response/RoundTrip.antt =====
-- A response (scrutiny/server/protocol/response.py) through its bytes.
use scrutiny.Prelude.{
  ℕ, suc, ◌-◌, ◌<◌, ◌≡◌, refl, ◌∷◌, ◌++◌, arith, Bytes, length, drop, slice, length-append,
  take-append_length, drop-append_length, ok,
}
use scrutiny.Protocol.Pack.{u16_bytes, u32_bytes, unpack_u16-bytes, unpack_u32-bytes}
use scrutiny.Protocol.Crc.{crc32, crc32_bound}
use scrutiny.Protocol.Commands.{
  from_command_id-response_id, response_id, request_id_small, response_id-request_id,
}
use scrutiny.Protocol.Response
use scrutiny.Protocol.Response.{Response, ResponseCode, code_value, code_of}

-- What is behind a header of known length: the payload and the four bytes of the checksum.
drop_payload : (p : Bytes) (sum : ℕ) → drop (length p) (p ++ u32_bytes sum) ≡ u32_bytes sum
drop_payload p sum = drop-append_length p (u32_bytes sum)

code_small : (c : ResponseCode) → code_value c < 256
code_small ResponseCode.ok_code = omega arith
code_small ResponseCode.invalid_request = omega arith
code_small ResponseCode.unsupported_feature = omega arith
code_small ResponseCode.overflow = omega arith
code_small ResponseCode.busy = omega arith
code_small ResponseCode.failure_to_proceed = omega arith

code_of-value : (c : ResponseCode) → code_of (code_value c) ≡ ok c
code_of-value ResponseCode.ok_code = refl
code_of-value ResponseCode.invalid_request = refl
code_of-value ResponseCode.unsupported_feature = refl
code_of-value ResponseCode.overflow = refl
code_of-value ResponseCode.busy = refl
code_of-value ResponseCode.failure_to_proceed = refl

module _ (r : Response) where
  abbrev header : Bytes
  header = response_id r.command ∷ r.subfn ∷ code_value r.code ∷ u16_bytes (length r.payload)

  abbrev pub crc : ℕ
  crc = crc32 (header ++ r.payload)

  no_crc :
      r.subfn < 256
      → length r.payload < 65536
      → Response.make_bytes_no_crc r ≡ ok (header ++ r.payload)
  unfolding Response.make_bytes_no_crc
  no_crc h k =
      let small = request_id_small r.command in
      ground (arith, small, response_id-request_id r.command, code_small r.code)

  pub bytes :
      r.subfn < 256
      → length r.payload < 65536
      → Response.to_bytes r ≡ ok (header ++ (r.payload ++ u32_bytes crc))
  unfolding Response.to_bytes
  bytes h k = ground (arith, no_crc h k, crc32_bound (header ++ r.payload))

  abbrev pub frame : Bytes
  frame = header ++ (r.payload ++ u32_bytes crc)

  frame-length : length frame - 4 ≡ suc (suc (suc (suc (suc (length r.payload)))))
  frame-length = omega (arith, length-append r.payload (u32_bytes crc))

  payload : slice 5 (length frame - 4) frame ≡ r.payload
  payload =
      let e : suc (suc (suc (suc (suc (length r.payload))))) - 5 ≡ length r.payload = omega arith in
      rw frame-length (rw e (take-append_length r.payload (u32_bytes crc)))

  checked :
      r.subfn < 256
      → length r.payload < 65536
      → (n : ℕ) → n ≡ length r.payload
      → Response.check frame n r ≡ ok r
  unfolding Response.check
  checked h k n e =
      let dropped : drop (length frame - 4) frame ≡ u32_bytes crc =
        rw frame-length (drop_payload r.payload crc) in
      let bare : Response.make_bytes_no_crc r ≡ ok (header ++ r.payload) = no_crc h k in
      let read = unpack_u32-bytes crc (crc32_bound (header ++ r.payload)) in
      ground (arith, e, dropped, bare, read)

  pub parsed : r.subfn < 256 → length r.payload < 65536 → Response.from_bytes frame ≡ ok r
  unfolding Response.from_bytes Response.from_header
  parsed h k = ground (
    arith,
    length-append r.payload (u32_bytes crc),
    request_id_small r.command,
    from_command_id-response_id r.command,
    code_of-value r.code,
    payload,
    unpack_u16-bytes (length r.payload) k,
    checked h k (length r.payload) refl,
  )

-- A response whose subfunction is a byte and whose payload is shorter than 65536 has bytes, and they
-- are read back as that response, its code included.
pub from_bytes-to_bytes_response :
    (r : Response)
    → r.subfn < 256
    → length r.payload < 65536
    → (d : Bytes) × (Response.to_bytes r ≡ ok d) × (Response.from_bytes d ≡ ok r)
from_bytes-to_bytes_response r h k = (frame r, bytes r h k, parsed r h k)
