-- ===== src/Protocol/Response/TopBit.antt =====
-- The first bit of a frame, which tells a response from a request, and `Response.from_bytes`
-- (scrutiny/server/protocol/response.py).
use scrutiny.Prelude.{
  ℕ, suc, ◌+◌, ◌-◌, ◌≤◌, ◌<◌, ◌≡◌, refl, ap, ◌∙◌, [], ◌∷◌, arith, Bytes, length, drop, bit_and, inl,
  inr, lt_or_ge,
}
use scrutiny.Protocol.Pack.{low_bits}
use scrutiny.Protocol.Commands.{from_command_id, members, from_members}
use scrutiny.Protocol.Response
use scrutiny.Protocol.Response.{Response, ResponseCode, code_of}

from_command_id-top_bit : (cmd : ℕ) → cmd < 128 → from_command_id (cmd + 128) ≡ from_command_id cmd
unfolding from_command_id
from_command_id-top_bit cmd h =
    let e : bit_and (cmd + 128) 0x7f ≡ bit_and cmd 0x7f =
      low_bits (cmd + 128) (omega arith) ∙ omega (arith, low_bits cmd (omega arith)) in
    ap (from_members members) e

drop-head :
    (a b : ℕ) (d : Bytes)
    → 4 ≤ length d
    → drop (length (a ∷ d) - 4) (a ∷ d) ≡ drop (length (b ∷ d) - 4) (b ∷ d)
drop-head a b d h = let e : suc (length d) - 4 ≡ suc (length d - 4) = omega arith in rw e

check-head :
    (a b n : ℕ) (d : Bytes) (r : Response)
    → 4 ≤ length d
    → Response.check (a ∷ d) n r ≡ Response.check (b ∷ d) n r
unfolding Response.check
check-head a b n d r h = rw (drop-head a b d h)

-- `from_bytes` reads a frame and the frame with its first bit flipped alike, checksum and all: the
-- bit is set anew before the checksum is computed, so no check looks at the one received.
pub from_bytes-top_bit :
    (cmd : ℕ) (d : Bytes)
    → cmd < 128
    → Response.from_bytes ((cmd + 128) ∷ d) ≡ Response.from_bytes (cmd ∷ d)
unfolding Response.from_bytes Response.from_header
from_bytes-top_bit cmd [] h = refl
from_bytes-top_bit cmd (sub ∷ []) h = refl
from_bytes-top_bit cmd (sub ∷ code ∷ d) h = elim (lt_or_ge (length d) 6) [
  | inl p ↦ ground arith
  | inr p ↦
      let same =
        λ (n : ℕ) (r : Response). check-head (cmd + 128) cmd n (sub ∷ code ∷ d) r (omega arith) in
      rw (from_command_id-top_bit cmd h) (simp same)
]
