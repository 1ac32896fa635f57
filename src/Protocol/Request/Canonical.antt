-- ===== src/Protocol/Request/Canonical.antt =====
-- What `Request.from_bytes` (scrutiny/server/protocol/request.py) accepts.
use scrutiny.Prelude.{
  ℕ, zero, suc, ◌+◌, ◌-◌, ◌*◌, ◌/◌, ◌%◌, ◌≤◌, ◌<◌, ◌≡◌, refl, ap, ◌∙◌, [], ◌∷◌, ◌++◌, arith, Bytes,
  IsByte, length, All, take, drop, slice, take-append-drop, Result, ok, err,
}
use scrutiny.Protocol.Pack.{u16_bytes, u32_bytes, unpack_u32, low_bits, top_bit}
use scrutiny.Protocol.Crc.{crc32}
use scrutiny.Protocol.Commands.{Command, request_id, from_command_id, request_id-from_command_id}
use scrutiny.Protocol.Request
use scrutiny.Protocol.Request.{Request}
use scrutiny.Protocol.Request.RoundTrip.{crc, no_crc, bytes}

u16_bytes-unpack : (a b : ℕ) → a < 256 → b < 256 → u16_bytes (a * 256 + b) ≡ a ∷ b ∷ []
u16_bytes-unpack a b h k =
    let e : (a * 256 + b) / 256 ≡ a = omega arith in
    let e' : (a * 256 + b) % 256 ≡ b = omega arith in rw e (rw e')

u32_bytes-unpack : (d : Bytes) (n : ℕ) → All IsByte d → unpack_u32 d ≡ ok n → u32_bytes n ≡ d
u32_bytes-unpack (a ∷ b ∷ c ∷ e ∷ []) n h k = ground arith
u32_bytes-unpack [] n h k = cc
u32_bytes-unpack (a ∷ []) n h k = cc
u32_bytes-unpack (a ∷ b ∷ []) n h k = cc
u32_bytes-unpack (a ∷ b ∷ c ∷ []) n h k = cc
u32_bytes-unpack (a ∷ b ∷ c ∷ e ∷ f ∷ g) n h k = cc

All-drop : (n : ℕ) (d : Bytes) → All IsByte d → All IsByte (drop n d)
All-drop zero d h = h
All-drop (suc n) [] h = tt
All-drop (suc n) (b ∷ d) h = All-drop n d h.1

check-length :
    (d : Bytes) (n : ℕ) (r r' : Request)
    → Request.check d n r ≡ ok r'
    → (r ≡ r') × (n ≡ length r.payload)
unfolding Request.check
check-length d n r r' e = ground arith

check-crc :
    (d : Bytes) (n : ℕ) (r r' : Request) (nc : Bytes)
    → Request.make_bytes_no_crc r ≡ ok nc
    → Request.check d n r ≡ ok r'
    → unpack_u32 (drop (length d - 4) d) ≡ ok (crc32 nc)
unfolding Request.check
check-crc d n r r' nc h e = ground arith

module _ (cmd sub hi lo : ℕ) (rest : Bytes) where
  abbrev whole : Bytes
  whole = cmd ∷ sub ∷ hi ∷ lo ∷ rest

  abbrev read_as : Command → Request
  read_as c = record {
    command = c;
    subfn = sub;
    payload = slice 4 (length whole - 4) whole;
    response_payload_size = 0;
  }

  header-ok :
      (r : Request)
      → cmd < 256
      → Request.from_bytes whole ≡ ok r
      → (4 ≤ length rest)
        × ((c : Command) × (request_id c ≡ cmd)
            × (Request.check whole (hi * 256 + lo) (read_as c) ≡ ok r))
  unfolding Request.from_bytes Request.from_header
  header-ok r h e = go (from_command_id cmd) refl
    where
      long : 4 ≤ length rest
      long = ground arith

      go :
          (q : Result Command)
          → from_command_id cmd ≡ q
          → (4 ≤ length rest)
            × ((c : Command) × (request_id c ≡ cmd)
                × (Request.check whole (hi * 256 + lo) (read_as c) ≡ ok r))
      go (ok c) f = (
        long,
        (
          c,
          ground (arith, request_id-from_command_id cmd c f, low_bits cmd, top_bit cmd),
          ground (arith, f),
        ),
      )
      go (err x) f = absurd (ground (arith, f))

  -- The frame of what was read is the frame that was read.
  frame-whole :
      (r : Request)
      → All IsByte whole
      → Request.from_bytes whole ≡ ok r
      → Request.to_bytes r ≡ ok whole
  frame-whole r b e =
      let (long, (c, id, run)) = header-ok r b.0 e in
      let q = read_as c in
      let (same, n) = check-length whole (hi * 256 + lo) q r run in
      let cut : length whole - 4 ≡ suc (suc (suc (suc (length rest - 4)))) = omega arith in
      let cut' : length whole - 4 - 4 ≡ length rest - 4 = omega arith in
      let bare = no_crc q b.1.0 (omega (arith, n, b.1.1.0, b.1.1.1.0)) in
      let sum : u32_bytes (crc q) ≡ drop (length rest - 4) rest =
        u32_bytes-unpack (drop (length whole - 4) whole) (crc q)
          (All-drop (length whole - 4) whole b) (check-crc whole (hi * 256 + lo) q r _ bare run)
        ∙ ap (λ (n : ℕ). drop n whole) cut in
      let p : q.payload ≡ take (length rest - 4) rest = rw cut' in
      let body : q.payload ++ u32_bytes (crc q) ≡ rest =
        rw (sum, p) (take-append-drop (length rest - 4) rest) in
      let head : u16_bytes (length q.payload) ≡ hi ∷ lo ∷ [] =
        rw (← n) (u16_bytes-unpack hi lo b.1.1.0 b.1.1.1.0) in
      rw (← same)
        (bytes q b.1.0 (omega (arith, n, b.1.1.0, b.1.1.1.0)) ∙ ground (arith, id, head, body))

-- `from_bytes` accepts, of bytes, only what `to_bytes` writes: the frame of a request that was read is
-- the frame that was received.
pub to_bytes-from_bytes :
    (d : Bytes) (r : Request)
    → All IsByte d
    → Request.from_bytes d ≡ ok r
    → Request.to_bytes r ≡ ok d
to_bytes-from_bytes (cmd ∷ sub ∷ hi ∷ lo ∷ rest) r b e = frame-whole cmd sub hi lo rest r b e
to_bytes-from_bytes [] r b e = absurd (unfold Request.from_bytes in ground arith)
to_bytes-from_bytes (a ∷ []) r b e = absurd (unfold Request.from_bytes in ground arith)
to_bytes-from_bytes (a ∷ a' ∷ []) r b e = absurd (unfold Request.from_bytes in ground arith)
to_bytes-from_bytes (a ∷ a' ∷ a'' ∷ []) r b e = absurd (unfold Request.from_bytes in ground arith)
