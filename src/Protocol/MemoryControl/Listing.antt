-- ===== src/Protocol/MemoryControl/Listing.antt =====
-- Addresses and sizes through the payloads of MemoryControl (scrutiny/server/protocol/protocol.py).
use scrutiny.Prelude.{
  ℕ, zero, suc, ◌+◌, ◌*◌, ◌/◌, ◌%◌, ◌<◌, ◌≡◌, refl, false, List, [], ◌∷◌, arith, All, Bytes, length,
  ok, ltb, le→ltb, ◌==◌, true,
}
use scrutiny.Protocol.Commands.{Command}
use scrutiny.Protocol.Request.{Request}
use scrutiny.Protocol.Response
use scrutiny.Protocol.Response.{Response}
use scrutiny.Protocol.MemoryControl
use scrutiny.Protocol.MemoryControl.{
  AddressFormat, get_address_size_bytes, address_count, encode_address, encode_ranges,
}
use scrutiny.Protocol.MemoryControl.RoundTrip.{
  framed, decoded, size_read, body_field, framed-length,
}
use scrutiny.Protocol.MemoryControl.Ranges
use scrutiny.Protocol.MemoryControl.Ranges.{parse_ranges, parse_written}

-- The address fits the format, and the size fits 16 bits.
abbrev pub RangeFits : AddressFormat → ℕ × ℕ → Type 0
RangeFits f b = (b.0 < address_count f) × (b.1 < 65536)

pub plain_ranges : AddressFormat → List (ℕ × ℕ) → Bytes
plain_ranges f [] = []
plain_ranges f ((address, n) ∷ more) = framed address n (plain_ranges f more) f

-- The sizes fit 16 bits.
abbrev pub AllShort : List (ℕ × ℕ) → Type 0
AllShort bs = All (λ (b : ℕ × ℕ). b.1 < 65536) bs

fits-AllShort : (f : AddressFormat) (bs : List (ℕ × ℕ)) → All (RangeFits f) bs → AllShort bs
fits-AllShort f [] h = tt
fits-AllShort f (b ∷ bs) h = (h.0.1, fits-AllShort f bs h.1)

pub encode_ranges-plain :
    (f : AddressFormat) (bs : List (ℕ × ℕ))
    → AllShort bs
    → encode_ranges f bs ≡ ok (plain_ranges f bs)
unfolding encode_ranges plain_ranges
encode_ranges-plain f [] h = refl
encode_ranges-plain f ((a, n) ∷ bs) (short, h) = ground (arith, short, encode_ranges-plain f bs h)

pub length-plain_ranges :
    (f : AddressFormat) (bs : List (ℕ × ℕ))
    → length (plain_ranges f bs) ≡ (get_address_size_bytes f + 2) * length bs
unfolding plain_ranges
length-plain_ranges f [] = omega arith
length-plain_ranges f ((a, n) ∷ bs) =
    grind (arith, framed-length a n (plain_ranges f bs) f, length-plain_ranges f bs)

parse_ranges-plain :
    (f : AddressFormat) (bs : List (ℕ × ℕ))
    → All (RangeFits f) bs
    → parse_ranges f (length bs) (plain_ranges f bs) ≡ ok bs
unfolding parse_ranges plain_ranges
parse_ranges-plain f [] h = refl
parse_ranges-plain f ((a, n) ∷ bs) ((fits, short), h) =
    rw (decoded a n (plain_ranges f bs) f fits) (
      rw (size_read a n (plain_ranges f bs) f short)
        (rw (body_field a n (plain_ranges f bs) f) (rw (parse_ranges-plain f bs h) refl)))

-- k blocks are as long as k times the size of one.
blocks_in :
    (f : AddressFormat) (d : Bytes) (k : ℕ)
    → length d ≡ (get_address_size_bytes f + 2) * k
    → ((length d % (2 + get_address_size_bytes f)) == 0 ≡ true)
      × (length d / (2 + get_address_size_bytes f) ≡ k)
blocks_in AddressFormat.bits_8 d k e = (ground (arith, e), omega (arith, e))
blocks_in AddressFormat.bits_16 d k e = (ground (arith, e), omega (arith, e))
blocks_in AddressFormat.bits_32 d k e = (ground (arith, e), omega (arith, e))
blocks_in AddressFormat.bits_64 d k e = (ground (arith, e), omega (arith, e))

-- A read request for some blocks whose addresses fit the format and whose sizes fit 16 bits is built,
-- and is parsed to those blocks.
pub parse_read_request-read_memory_blocks :
    (f : AddressFormat) (bs : List (ℕ × ℕ))
    → All (RangeFits f) bs
    → (q : Request) × (MemoryControl.read_memory_blocks f bs ≡ ok q)
      × (Ranges.parse_read_request f q ≡ ok bs)
unfolding MemoryControl.read_memory_blocks Ranges.parse_read_request
parse_read_request-read_memory_blocks f bs h =
    let (whole, count) = blocks_in f (plain_ranges f bs) (length bs) (length-plain_ranges f bs) in
    (
      record {
        command = Command.memory_control;
        subfn = 1;
        payload = plain_ranges f bs;
        response_payload_size =
            (get_address_size_bytes f + 2) * length bs + MemoryControl.total_length bs;
      },
      rw (encode_ranges-plain f bs (fits-AllShort f bs h)) refl,
      rw (whole, count) (parse_ranges-plain f bs h),
    )

module _ (f : AddressFormat) (fuel a n : ℕ) (fits : RangeFits f (a, n)) where
  written_last : parse_written f (suc fuel) (framed a n [] f) ≡ ok ((a, n) ∷ [])
  unfolding parse_written
  written_last =
      let long : ltb (length (framed a n [] f)) (get_address_size_bytes f + 2) ≡ false =
        le→ltb _ _ (omega (arith, framed-length a n [] f)) in
      rw long (
        rw (decoded a n [] f fits.0)
          (rw (size_read a n [] f fits.1) (rw (body_field a n [] f) refl)))

  written_next :
      (tail : Bytes) (more : List (ℕ × ℕ))
      → 0 < length tail
      → parse_written f fuel tail ≡ ok more
      → parse_written f (suc fuel) (framed a n tail f) ≡ ok ((a, n) ∷ more)
  unfolding parse_written
  written_next [] more full e = absurd (omega arith)
  written_next (x ∷ xs) more full e =
      let long : ltb (length (framed a n (x ∷ xs) f)) (get_address_size_bytes f + 2) ≡ false =
        le→ltb _ _ (omega (arith, framed-length a n (x ∷ xs) f)) in
      rw long (
        rw (decoded a n (x ∷ xs) f fits.0)
          (rw (size_read a n (x ∷ xs) f fits.1) (rw (body_field a n (x ∷ xs) f) (rw e refl))))

parse_written-plain :
    (f : AddressFormat) (fuel : ℕ) (b : ℕ × ℕ) (bs : List (ℕ × ℕ))
    → RangeFits f b
    → All (RangeFits f) bs
    → length bs < fuel
    → parse_written f fuel (plain_ranges f (b ∷ bs)) ≡ ok (b ∷ bs)
unfolding plain_ranges
parse_written-plain f zero b bs fits h enough = absurd (omega arith)
parse_written-plain f (suc fuel) (a, n) [] fits h enough = written_last f fuel a n fits
parse_written-plain f (suc fuel) (a, n) (b ∷ bs) fits (fits', h) enough =
    written_next f fuel a n fits (plain_ranges f (b ∷ bs)) (b ∷ bs)
      (omega (arith, framed-length b.0 b.1 (plain_ranges f bs) f))
      (parse_written-plain f fuel b bs fits' h (omega arith))

-- The answer to a write of some blocks, one at least, whose addresses fit the format and whose sizes
-- fit 16 bits, is built, and parsed to those blocks.
pub parse_write_response-respond_write_memory_blocks :
    (f : AddressFormat) (b : ℕ × ℕ) (bs : List (ℕ × ℕ))
    → All (RangeFits f) (b ∷ bs)
    → (r : Response) × (Ranges.respond_write_memory_blocks f (b ∷ bs) ≡ ok r)
      × (Ranges.parse_write_response f r ≡ ok (b ∷ bs))
unfolding Ranges.respond_write_memory_blocks Ranges.parse_write_response
parse_write_response-respond_write_memory_blocks f b bs h = (
  record {
    command = Command.memory_control;
    subfn = 2;
    code = Response.ok_code;
    payload = plain_ranges f (b ∷ bs);
  },
  rw (encode_ranges-plain f (b ∷ bs) (fits-AllShort f (b ∷ bs) h)) refl,
  parse_written-plain f _ b bs h.0 h.1
      (enough f (length bs) (length (plain_ranges f (b ∷ bs))) (length-plain_ranges f (b ∷ bs))),
)
  where
    enough : (f : AddressFormat) (k n : ℕ) → n ≡ (get_address_size_bytes f + 2) * suc k → k < suc n
    enough AddressFormat.bits_8 k n e = omega arith
    enough AddressFormat.bits_16 k n e = omega arith
    enough AddressFormat.bits_32 k n e = omega arith
    enough AddressFormat.bits_64 k n e = omega arith
