-- ===== src/Comm/Handler/Frames.antt =====
-- The bytes of a response and of its beginnings in the receive buffer of the communication handler
-- (scrutiny/server/protocol/comm_handler.py).
use scrutiny.Prelude.{
  ℕ, zero, suc, ◌+◌, ◌≤◌, ◌<◌, ◌≡◌, refl, ap, Option, some, none, List, [], ◌∷◌, ◌++◌, Bytes, ok,
  ◌⊎◌, inl, inr, arith, length, slice, take, length-append,
}
use scrutiny.Protocol.Pack.{u32_bytes, unpack_u16, unpack_u16-bytes}
use scrutiny.Protocol.Response
use scrutiny.Protocol.Response.{Response}
use scrutiny.Protocol.Response.RoundTrip
use scrutiny.Comm.Handler
use scrutiny.Comm.Handler.{CommHandler, RxData, answers}

abbrev pub join : List Bytes → Bytes
join [] = []
join (c ∷ cs) = c ++ join cs

pub take_prefix : (n : ℕ) (xs ys : Bytes) → n ≤ length xs → take n (xs ++ ys) ≡ take n xs
take_prefix zero xs ys h = refl
take_prefix (suc n) [] ys h = absurd (omega arith)
take_prefix (suc n) (x ∷ xs) ys h = ap (λ l. x ∷ l) (take_prefix n xs ys (omega arith))

pub header_prefix : (xs ys : Bytes) → 5 ≤ length xs → slice 3 5 (xs ++ ys) ≡ slice 3 5 xs
header_prefix (a ∷ b ∷ c ∷ d ∷ e ∷ xs) ys h = refl
header_prefix (a ∷ b ∷ c ∷ d ∷ []) ys h = absurd (omega arith)
header_prefix (a ∷ b ∷ c ∷ []) ys h = absurd (omega arith)
header_prefix (a ∷ b ∷ []) ys h = absurd (omega arith)
header_prefix (a ∷ []) ys h = absurd (omega arith)
header_prefix [] ys h = absurd (omega arith)

-- Bytes that decode to the response, with the length that their header names.
abbrev pub IsFrame : Bytes → ℕ → Response → Type 0
IsFrame F n r =
    (length F ≡ n + 9) × (unpack_u16 (slice 3 5 F) ≡ ok n) × (Response.from_bytes F ≡ ok r)

abbrev pub Known : Option ℕ → ℕ → Type 0
Known o n = (o ≡ none) ⊎ (o ≡ some n)

pub read-Known :
    (rx : RxData) (n : ℕ)
    → Known rx.length_field n
    → 5 ≤ length rx.data_buffer
    → unpack_u16 (slice 3 5 rx.data_buffer) ≡ ok n
    → (Handler.read_length rx).length_field ≡ some n
unfolding Handler.read_length
read-Known rx n (inl e) h u = ground (arith, e, h, u)
read-Known rx n (inr e) h u = ground (arith, e)

pub read_short :
    (rx : RxData) (n : ℕ)
    → Known rx.length_field n
    → length rx.data_buffer < 5
    → Known (Handler.read_length rx).length_field n
unfolding Handler.read_length
read_short rx n (inl e) h = inl (ground (arith, e, h))
read_short rx n (inr e) h = inr (ground (arith, e, h))

pub read_buffer : (rx : RxData) → (Handler.read_length rx).data_buffer ≡ rx.data_buffer
unfolding Handler.read_length
read_buffer rx = ground (arith)

pub frame-IsFrame :
    (r : Response)
    → r.subfn < 256
    → length r.payload < 65536
    → IsFrame (RoundTrip.frame r) (length r.payload) r
frame-IsFrame r h k = (
  omega (arith, length-append r.payload (u32_bytes (RoundTrip.crc r))),
  unpack_u16-bytes (length r.payload) k,
  RoundTrip.parsed r h k,
)

pub ok_injective : (d d' : Bytes) → ok d ≡ ok d' → d ≡ d'
ok_injective d d' e = ground (arith, e)
