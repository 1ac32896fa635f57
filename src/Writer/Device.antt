-- ===== src/Writer/Device.antt =====
-- A device that stores what memory_writer.py writes, and the exchange of requests and answers with it.
-- This is the environment of the writer, written to state what it promises.
use scrutiny.Prelude.{
  ℕ, zero, suc, ◌+◌, ◌*◌, ◌<◌, ◌≡◌, refl, sym, ap, ◌∙◌, Option, some, none, List, [], ◌∷◌, ◌++◌,
  map, arith, Bytes, length, length-append, ◌==◌, if◌then◌else◌, Result, ok, err, out_of_fuel,
  ◌>>=◌,
}
use scrutiny.Protocol.Commands.{Command}
use scrutiny.Protocol.Request.{Request}
use scrutiny.Protocol.Response
use scrutiny.Protocol.Response.{Response}
use scrutiny.Protocol.MemoryControl.{
  AddressFormat, get_address_size_bytes, address_count, encode_blocks, encode_ranges,
  write_memory_blocks, parse_write_request,
}
use scrutiny.Protocol.MemoryControl.Ranges.{
  write_single_memory_block, respond_write_memory_blocks, parse_write_response,
}
use scrutiny.Protocol.MemoryControl.Listing.{parse_write_response-respond_write_memory_blocks}
use scrutiny.Protocol.MemoryControl.RoundTrip.{
  framed, framed-length, parse_write_request-write_memory_blocks,
}
use scrutiny.Reader.State.{Protocol}
use scrutiny.Writer.State.{RawMemoryWriteRequest, Event, MemoryWriter}
use scrutiny.Writer.Raw.{make_next_raw_memory_write_request}
use scrutiny.Writer.Callbacks.{Reaction, success_callback}

abbrev pub Cells : Type 0
Cells = ℕ → ℕ

-- The bytes, stored from an address on.
unfoldable pub store : Cells → ℕ → Bytes → Cells
store cells a [] = cells
store cells a (b ∷ bs) = store (λ x. if x == a then b else cells x) (suc a) bs

pub store-append :
    (cells : Cells) (a b : ℕ) (d more : Bytes)
    → a + length d ≡ b
    → store (store cells a d) b more ≡ store cells a (d ++ more)
unfolding store
store-append cells a b [] more e = let e' : b ≡ a = omega arith in rw e' refl
store-append cells a b (x ∷ xs) more e =
    store-append (λ y. if y == a then x else cells y) (suc a) b xs more (omega arith)

unfoldable pub store_blocks : Cells → List (ℕ × Bytes) → Cells
unfolding store
store_blocks cells [] = cells
store_blocks cells ((address, d) ∷ more) = store_blocks (store cells address d) more

abbrev pub range_of : ℕ × Bytes → ℕ × ℕ
range_of b = (b.0, length b.1)

unfoldable pub write_to : AddressFormat → Cells → Request → Result (Cells × Response)
unfolding store_blocks
write_to f cells q = do
  blocks ← parse_write_request f q
  r ← respond_write_memory_blocks f (map range_of blocks)
  ok (store_blocks cells blocks, r)

module _ (f : AddressFormat) where
  of_write :
      (address : ℕ) (d : Bytes) (q : Request)
      → length d < 65536
      → write_single_memory_block f address d ≡ ok q
      → length q.payload ≡ get_address_size_bytes f + 2 + length d
  unfolding write_single_memory_block write_memory_blocks encode_blocks
  of_write address d q short h =
      let built : Request = record {
        command = Command.memory_control;
        subfn = 2;
        payload = framed address (length d) (d ++ []) f;
        response_payload_size = (get_address_size_bytes f + 2) * 1;
      } in
      let plain : write_single_memory_block f address d ≡ ok built = ground (arith, short) in
      let same : q ≡ built = injected (sym h ∙ plain) in
      let bytes = framed-length address (length d) (d ++ []) f in
      let all : length q.payload ≡ length built.payload =
        ap (λ (t : Request). length t.payload) same in
      omega (arith, all, bytes, length-append d [])
    where
      injected : {x y : Request} → ok x ≡ ok y → x ≡ y
      injected {x} {y} e = ground (arith, e)

  of_answer :
      (bs : List (ℕ × ℕ)) (r : Response)
      → respond_write_memory_blocks f bs ≡ ok r
      → (r.subfn ≡ 2) × (r.code ≡ Response.ok_code)
  unfolding respond_write_memory_blocks
  of_answer bs r h = go (encode_ranges f bs) h
    where
      go :
          (d : Result Bytes)
          → (d >>= (λ payload. ok (record {
            command = Command.memory_control;
            subfn = 2;
            code = Response.ok_code;
            payload = payload;
          })))
            ≡ ok r
          → (r.subfn ≡ 2) × (r.code ≡ Response.ok_code)
      go (ok d) h = ground (arith, h)
      go (err e) h = absurd (ground (arith, h))

  -- The request to write one block, and the device's answer to it.
  pub record Round (address : ℕ) (d : Bytes) : Type 0 where
    pub request : Request
    pub response : Response
    pub sent : write_single_memory_block f address d ≡ ok request
    pub asks : request.subfn ≡ 2
    pub size : length request.payload ≡ get_address_size_bytes f + 2 + length d
    pub asked : parse_write_request f request ≡ ok ((address, d) ∷ [])
    pub answered : (cells : Cells) → write_to f cells request ≡ ok (store cells address d, response)
    pub written : parse_write_response f response ≡ ok ((address, length d) ∷ [])
    pub subfn : response.subfn ≡ 2
    pub code : response.code ≡ Response.ok_code

  pub round :
      (address : ℕ) (d : Bytes) → address < address_count f → length d < 65536 → Round address d
  unfolding write_single_memory_block write_to store_blocks
  round address d fits short =
      let (q, sent, asked, of_control, asks) =
        parse_write_request-write_memory_blocks f (address, d) [] ((fits, short), tt) in
      let (r, answered, written) =
        parse_write_response-respond_write_memory_blocks f (address, length d) []
          ((fits, short), tt) in
      let size = of_write address d q short sent in
      let (subfn, code) = of_answer ((address, length d) ∷ []) r answered in
      record {
        request = q;
        response = r;
        sent = sent;
        asks = asks;
        size = size;
        asked = asked;
        answered = λ cells. rw asked (rw answered refl);
        written = written;
        subfn = subfn;
        code = code;
      }

-- The writer, the memory and what was told.
abbrev pub Exchanged : Type 0 → Type 0
Exchanged V = MemoryWriter V × Cells × List (Event V)

module _ {V : Type 0} where
  -- What a callback told behind what was told before, unless it raised.
  abbrev pub settled : Cells → List (Event V) → Reaction V → Result (Exchanged V)
  settled cells told (s, more, ok done) = ok (s, cells, told ++ more)
  settled cells told (s, more, err e) = err e

  -- The answer to the request that was made, if one was made.
  unfoldable pub exchange_of :
      Protocol
      → Cells
      → MemoryWriter V
      → List (Event V)
      → Result (Option Request)
      → Result (Exchanged V)
  unfolding write_to
  exchange_of p cells s told (err e) = err e
  exchange_of p cells s told (ok none) = ok (s, cells, told)
  exchange_of p cells s told (ok (some q)) =
      write_to p.address_format cells q
      >>= (λ t. settled t.0 told (success_callback p (record s { pending_request = some q }) q t.1))

  -- One request of the writer, and the answer.
  unfoldable pub exchange : Protocol → Cells → MemoryWriter V → Result (Exchanged V)
  unfolding exchange_of
  exchange p cells s =
      let (s', told, made) = make_next_raw_memory_write_request p.address_format s in
      exchange_of p cells s' told made

  -- The exchanges that follow one, while a request is active.
  unfoldable pub exchange_on :
      (Cells → MemoryWriter V → Result (Exchanged V))
      → MemoryWriter V
      → Cells
      → List (Event V)
      → Option RawMemoryWriteRequest
      → Result (Exchanged V)
  exchange_on again s cells told none = ok (s, cells, told)
  exchange_on again s cells told (some a) = do t ← again cells s; ok (t.0, t.1, told ++ t.2)

  -- Exchanges until no request is active, on fuel.
  unfoldable pub exchanges : ℕ → Protocol → Cells → MemoryWriter V → Result (Exchanged V)
  unfolding exchange_on
  exchanges zero p cells s = err out_of_fuel
  exchanges (suc fuel) p cells s =
      exchange p cells s
      >>= (λ t. exchange_on (exchanges fuel p) t.0 t.1 t.2 t.0.active_raw_write_request)
