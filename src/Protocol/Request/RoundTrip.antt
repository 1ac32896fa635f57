-- ===== src/Protocol/Request/RoundTrip.antt =====
-- A request (scrutiny/server/protocol/request.py) through its bytes.
use scrutiny.Prelude.{
  ℕ, suc, ◌-◌, ◌<◌, ◌≡◌, refl, ◌∙◌, ◌∷◌, ◌++◌, arith, Bytes, length, drop, slice, length-append,
  take-append_length, drop-append_length, ok, bit_and,
}
use scrutiny.Protocol.Pack.{
  u16_bytes, u32_bytes, unpack_u16-bytes, unpack_u32-bytes, low_bits, top_bit,
}
use scrutiny.Protocol.Crc.{crc32, crc32_bound}
use scrutiny.Protocol.Commands.{request_id, from_command_id-request_id, request_id_small}
use scrutiny.Protocol.Request
use scrutiny.Protocol.Request.{Request}

-- What is behind a header of known length: the payload and the four bytes of the checksum.
drop_payload : (p : Bytes) (sum : ℕ) → drop (length p) (p ++ u32_bytes sum) ≡ u32_bytes sum
drop_payload p sum = drop-append_length p (u32_bytes sum)

module _ (r : Request) where
  abbrev pub header : Bytes
  header = request_id r.command ∷ r.subfn ∷ u16_bytes (length r.payload)

  abbrev pub crc : ℕ
  crc = crc32 (header ++ r.payload)

  pub no_crc :
      r.subfn < 256
      → length r.payload < 65536
      → Request.make_bytes_no_crc r ≡ ok (header ++ r.payload)
  unfolding Request.make_bytes_no_crc
  no_crc h k =
      let small = request_id_small r.command in
      let e : bit_and (request_id r.command) 0x7f ≡ request_id r.command =
        low_bits (request_id r.command) (omega arith) ∙ omega arith in
      ground (arith, e, small)

  pub bytes :
      r.subfn < 256
      → length r.payload < 65536
      → Request.to_bytes r ≡ ok (header ++ (r.payload ++ u32_bytes crc))
  unfolding Request.to_bytes
  bytes h k = ground (arith, no_crc h k, crc32_bound (header ++ r.payload))

  abbrev pub frame : Bytes
  frame = header ++ (r.payload ++ u32_bytes crc)

  frame-length : length frame - 4 ≡ suc (suc (suc (suc (length r.payload))))
  frame-length = omega (arith, length-append r.payload (u32_bytes crc))

  payload : slice 4 (length frame - 4) frame ≡ r.payload
  payload =
      let e : suc (suc (suc (suc (length r.payload)))) - 4 ≡ length r.payload = omega arith in
      rw frame-length (rw e (take-append_length r.payload (u32_bytes crc)))

  checked :
      r.subfn < 256
      → length r.payload < 65536
      → (n : ℕ) → n ≡ length r.payload
      → Request.check frame n (record r { response_payload_size = 0 })
        ≡ ok (record r { response_payload_size = 0 })
  unfolding Request.check
  checked h k n e =
      let dropped : drop (length frame - 4) frame ≡ u32_bytes crc =
        rw frame-length (drop_payload r.payload crc) in
      let bare : Request.make_bytes_no_crc (record r { response_payload_size = 0 })
          ≡ ok (header ++ r.payload) =
        unfold Request.make_bytes_no_crc in no_crc h k in
      let read = unpack_u32-bytes crc (crc32_bound (header ++ r.payload)) in
      ground (arith, e, dropped, bare, read)

  parsed :
      r.subfn < 256
      → length r.payload < 65536
      → Request.from_bytes frame ≡ ok (record r { response_payload_size = 0 })
  unfolding Request.from_bytes Request.from_header
  parsed h k = ground (
    arith,
    length-append r.payload (u32_bytes crc),
    request_id_small r.command,
    top_bit (request_id r.command),
    from_command_id-request_id r.command,
    payload,
    unpack_u16-bytes (length r.payload) k,
    checked h k (length r.payload) refl,
  )

-- A request whose subfunction is a byte and whose payload is shorter than 65536 has bytes, and they
-- are read back as that request; the expected response size is not sent.
pub from_bytes-to_bytes_request :
    (r : Request)
    → r.subfn < 256
    → length r.payload < 65536
    → (d : Bytes) × (Request.to_bytes r ≡ ok d)
      × (Request.from_bytes d ≡ ok (record r { response_payload_size = 0 }))
from_bytes-to_bytes_request r h k = (frame r, bytes r h k, parsed r h k)
