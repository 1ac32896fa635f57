-- ===== src/Protocol/MemoryControl/RoundTrip.antt =====
-- Memory blocks through the payloads of MemoryControl (scrutiny/server/protocol/protocol.py).
use scrutiny.Prelude.{
  ℕ, zero, suc, ◌+◌, ◌*◌, ◌<◌, ◌≡◌, refl, false, ap, ◌∙◌, List, [], ◌∷◌, ◌++◌, arith, All, Bytes,
  length, length-append, drop, slice, ok, take-append_length, drop-append_length, ltb, le→ltb,
}
use scrutiny.Protocol.Pack.{u16_bytes, unpack_u16, unpack_u16-bytes, unpack_u32-bytes}
use scrutiny.Protocol.Commands.{Command}
use scrutiny.Protocol.Request.{Request}
use scrutiny.Protocol.Response.{Response, ResponseCode}
use scrutiny.Protocol.MemoryControl
use scrutiny.Protocol.MemoryControl.{
  AddressFormat, get_address_size_bytes, address_count, encode_address, decode_address,
  encode_blocks, parse_blocks,
}

-- The address of a block fits the format, and its size fits 16 bits.
abbrev pub BlockFits : AddressFormat → ℕ × Bytes → Type 0
BlockFits f b = (b.0 < address_count f) × (length b.1 < 65536)

-- The bytes of the blocks.
plain : AddressFormat → List (ℕ × Bytes) → Bytes
plain f [] = []
plain f ((address, memory) ∷ more) =
    encode_address f address ++ (u16_bytes (length memory) ++ (memory ++ plain f more))

encode_blocks-plain :
    (f : AddressFormat) (bs : List (ℕ × Bytes))
    → All (BlockFits f) bs
    → encode_blocks f bs ≡ ok (plain f bs)
unfolding encode_blocks plain
encode_blocks-plain f [] h = refl
encode_blocks-plain f ((a, d) ∷ bs) ((fits, short), h) =
    ground (arith, short, encode_blocks-plain f bs h)

module _ (address : ℕ) (n : ℕ) (rest : Bytes) where
  abbrev pub framed : AddressFormat → Bytes
  framed f = encode_address f address ++ (u16_bytes n ++ rest)

  pub decoded :
      (f : AddressFormat) → address < address_count f → decode_address f (framed f) ≡ ok address
  unfolding encode_address decode_address MemoryControl.unpack_address MemoryControl.unpack_u8
      MemoryControl.unpack_u64
  decoded AddressFormat.bits_8 h = ground arith
  decoded AddressFormat.bits_16 h = ground (arith, unpack_u16-bytes address h)
  decoded AddressFormat.bits_32 h = ground (arith, unpack_u32-bytes address h)
  decoded AddressFormat.bits_64 h = ap (λ k. ok k) (omega (arith, h))

  size_field :
      (f : AddressFormat)
      → slice (get_address_size_bytes f) (get_address_size_bytes f + 2) (framed f) ≡ u16_bytes n
  unfolding encode_address
  size_field AddressFormat.bits_8 = refl
  size_field AddressFormat.bits_16 = refl
  size_field AddressFormat.bits_32 = refl
  size_field AddressFormat.bits_64 = refl

  pub size_read :
      (f : AddressFormat)
      → n < 65536
      → unpack_u16 (slice (get_address_size_bytes f) (get_address_size_bytes f + 2) (framed f))
        ≡ ok n
  size_read f h = ap unpack_u16 (size_field f) ∙ unpack_u16-bytes n h

  pub body_field : (f : AddressFormat) → drop (get_address_size_bytes f + 2) (framed f) ≡ rest
  unfolding encode_address
  body_field AddressFormat.bits_8 = refl
  body_field AddressFormat.bits_16 = refl
  body_field AddressFormat.bits_32 = refl
  body_field AddressFormat.bits_64 = refl

  pub framed-length :
      (f : AddressFormat) → length (framed f) ≡ get_address_size_bytes f + 2 + length rest
  unfolding encode_address
  framed-length AddressFormat.bits_8 = omega arith
  framed-length AddressFormat.bits_16 = omega arith
  framed-length AddressFormat.bits_32 = omega arith
  framed-length AddressFormat.bits_64 = omega arith

module _ (f : AddressFormat) (address : ℕ) (memory : Bytes) where
  abbrev block : Bytes → Bytes
  block tail = framed address (length memory) (memory ++ tail) f

  long_enough : (tail : Bytes) → ltb (length (block tail)) (get_address_size_bytes f + 2) ≡ false
  long_enough tail =
      le→ltb _ _ (omega (arith, framed-length address (length memory) (memory ++ tail) f))

  has_body : (tail : Bytes) → ltb (length (memory ++ tail)) (length memory) ≡ false
  has_body tail = le→ltb _ _ (omega (arith, length-append memory tail))

  last_block :
      (fuel : ℕ)
      → BlockFits f (address, memory)
      → parse_blocks f (suc fuel) (block []) ≡ ok ((address, memory) ∷ [])
  unfolding parse_blocks
  last_block fuel (fits, short) = rw (long_enough []) (
      rw (decoded address (length memory) (memory ++ []) f fits) (
        rw (size_read address (length memory) (memory ++ []) f short) (
          rw (body_field address (length memory) (memory ++ []) f) (
            rw (has_body []) (
              rw (drop-append_length memory []) (
                rw (body_field address (length memory) (memory ++ []) f)
                  (rw (take-append_length memory []) refl)))))))

  next_block :
      (fuel : ℕ) (tail : Bytes) (more : List (ℕ × Bytes))
      → BlockFits f (address, memory)
      → 0 < length tail
      → parse_blocks f fuel tail ≡ ok more
      → parse_blocks f (suc fuel) (block tail) ≡ ok ((address, memory) ∷ more)
  unfolding parse_blocks
  next_block fuel [] more fits full e = absurd (omega arith)
  next_block fuel (x ∷ xs) more (fits, short) full e = rw (long_enough (x ∷ xs)) (
      rw (decoded address (length memory) (memory ++ (x ∷ xs)) f fits) (
        rw (size_read address (length memory) (memory ++ (x ∷ xs)) f short) (
          rw (body_field address (length memory) (memory ++ (x ∷ xs)) f) (
            rw (has_body (x ∷ xs)) (
              rw (drop-append_length memory (x ∷ xs)) (
                rw (body_field address (length memory) (memory ++ (x ∷ xs)) f)
                  (rw (take-append_length memory (x ∷ xs)) (rw e refl))))))))

parse_blocks-plain :
    (f : AddressFormat) (fuel : ℕ) (b : ℕ × Bytes) (bs : List (ℕ × Bytes))
    → BlockFits f b
    → All (BlockFits f) bs
    → length (plain f (b ∷ bs)) < fuel
    → parse_blocks f fuel (plain f (b ∷ bs)) ≡ ok (b ∷ bs)
unfolding plain
parse_blocks-plain f zero b bs fits h enough = absurd (omega arith)
parse_blocks-plain f (suc fuel) (a, d) [] fits h enough = last_block f a d fuel fits
parse_blocks-plain f (suc fuel) (a, d) (b ∷ bs) fits (fits', h) enough =
    let size = framed-length a (length d) (d ++ plain f (b ∷ bs)) f in
    let size' = framed-length b.0 (length b.1) (b.1 ++ plain f bs) f in
    next_block f a d fuel (plain f (b ∷ bs)) (b ∷ bs) fits (omega (arith, size')) (
      parse_blocks-plain f fuel b bs fits' h
        (omega (arith, enough, size, size', length-append d (plain f (b ∷ bs)))))

-- A write request for some blocks, one at least, whose addresses fit the format and whose sizes fit
-- 16 bits, is built, and the device parses it to those blocks. It has the command and the subfunction of
-- a write.
pub parse_write_request-write_memory_blocks :
    (f : AddressFormat) (b : ℕ × Bytes) (bs : List (ℕ × Bytes))
    → All (BlockFits f) (b ∷ bs)
    → (q : Request) × (MemoryControl.write_memory_blocks f (b ∷ bs) ≡ ok q)
      × (MemoryControl.parse_write_request f q ≡ ok (b ∷ bs))
      × (q.command ≡ Command.memory_control)
      × (q.subfn ≡ 2)
unfolding MemoryControl.write_memory_blocks MemoryControl.parse_write_request
parse_write_request-write_memory_blocks f b bs h = (
  record {
    command = Command.memory_control;
    subfn = 2;
    payload = plain f (b ∷ bs);
    response_payload_size = (get_address_size_bytes f + 2) * length (b ∷ bs);
  },
  rw (encode_blocks-plain f (b ∷ bs) h) refl,
  parse_blocks-plain f _ b bs h.0 h.1 (omega arith),
  refl,
  refl,
)

-- A read response with some blocks, one at least, whose addresses fit the format and whose sizes fit
-- 16 bits, is built, and parsed to those blocks. It has the command and the subfunction of a read, and the
-- code of a success.
pub parse_read_response-respond_read_memory_blocks :
    (f : AddressFormat) (b : ℕ × Bytes) (bs : List (ℕ × Bytes))
    → All (BlockFits f) (b ∷ bs)
    → (r : Response) × (MemoryControl.respond_read_memory_blocks f (b ∷ bs) ≡ ok r)
      × (MemoryControl.parse_read_response f r ≡ ok (b ∷ bs))
      × (r.command ≡ Command.memory_control)
      × (r.subfn ≡ 1)
      × (r.code ≡ ResponseCode.ok_code)
unfolding MemoryControl.respond_read_memory_blocks MemoryControl.parse_read_response
parse_read_response-respond_read_memory_blocks f b bs h = (
  record {
    command = Command.memory_control;
    subfn = 1;
    code = ResponseCode.ok_code;
    payload = plain f (b ∷ bs);
  },
  rw (encode_blocks-plain f (b ∷ bs) h) refl,
  parse_blocks-plain f _ b bs h.0 h.1 (omega arith),
  refl,
  refl,
  refl,
)
