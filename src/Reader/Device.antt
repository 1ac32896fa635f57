-- ===== src/Reader/Device.antt =====
-- A device that answers the raw reads of memory_reader.py from its memory, and the exchange of requests
-- and answers with it. This is the environment of the reader, written to state what it promises.
use scrutiny.Prelude.{
  ℕ, zero, suc, ◌+◌, ◌*◌, ◌<◌, ◌≡◌, refl, ap, Bool, Option, some, none, List, [], ◌∷◌, ◌++◌, map,
  arith, Bytes, length, Result, ok, err, out_of_fuel, ◌>>=◌,
}
use scrutiny.Protocol.Commands.{Command}
use scrutiny.Protocol.Request.{Request}
use scrutiny.Protocol.Response
use scrutiny.Protocol.Response.{Response}
use scrutiny.Protocol.MemoryControl.{
  AddressFormat, get_address_size_bytes, total_length, address_count, encode_ranges,
  read_memory_blocks, respond_read_memory_blocks, parse_read_response,
}
use scrutiny.Protocol.MemoryControl.Ranges.{parse_read_request, read_single_memory_block}
use scrutiny.Protocol.MemoryControl.Listing.{parse_read_request-read_memory_blocks}
use scrutiny.Protocol.MemoryControl.RoundTrip.{parse_read_response-respond_read_memory_blocks}
use scrutiny.Reader.State.{RawMemoryReadRequest, Event, Protocol, MemoryReader}
use scrutiny.Reader.Raw.{make_next_raw_mem_read_request}
use scrutiny.Reader.Callbacks.{Reaction, success_callback}

-- n bytes of the memory, from an address on.
unfoldable pub cells : (ℕ → ℕ) → ℕ → ℕ → Bytes
cells memory a zero = []
cells memory a (suc n) = memory a ∷ cells memory (suc a) n

pub length-cells : (memory : ℕ → ℕ) (a n : ℕ) → length (cells memory a n) ≡ n
unfolding cells
length-cells memory a zero = refl
length-cells memory a (suc n) = ap suc (length-cells memory (suc a) n)

pub cells_add :
    (memory : ℕ → ℕ) (a b m n : ℕ)
    → a + m ≡ b
    → cells memory a m ++ cells memory b n ≡ cells memory a (m + n)
unfolding cells
cells_add memory a b zero n e =
    let e' : a ≡ b = omega arith in rw e' (let z : 0 + n ≡ n = omega arith in rw z refl)
cells_add memory a b (suc m) n e =
    let e' : suc m + n ≡ suc (m + n) = omega arith in
    rw e' (ap (λ l. memory a ∷ l) (cells_add memory (suc a) b m n (omega arith)))

abbrev pub block_from : (ℕ → ℕ) → ℕ × ℕ → ℕ × Bytes
block_from memory range = (range.0, cells memory range.0 range.1)

unfoldable pub answer : AddressFormat → (ℕ → ℕ) → Request → Result Response
unfolding cells
answer f memory q = do
  asked ← parse_read_request f q
  respond_read_memory_blocks f (map (block_from memory) asked)

module _ (f : AddressFormat) where
  of_read :
      (bs : List (ℕ × ℕ)) (q : Request)
      → read_memory_blocks f bs ≡ ok q
      → q.command ≡ Command.memory_control
  unfolding read_memory_blocks
  of_read bs q h = go (encode_ranges f bs) h
    where
      go :
          (r : Result Bytes)
          → (r >>= (λ payload. ok (record {
            command = Command.memory_control;
            subfn = 1;
            payload = payload;
            response_payload_size = (get_address_size_bytes f + 2) * length bs + total_length bs;
          })))
            ≡ ok q
          → q.command ≡ Command.memory_control
      go (ok d) h = ground (arith, h)
      go (err e) h = absurd (ground (arith, h))

  -- The request for one block, and the device's answer to it.
  pub record Round (memory : ℕ → ℕ) (address n : ℕ) : Type 0 where
    pub request : Request
    pub response : Response
    pub sent : read_single_memory_block f address n ≡ ok request
    pub command : request.command ≡ Command.memory_control
    pub asked : parse_read_request f request ≡ ok ((address, n) ∷ [])
    pub answered : answer f memory request ≡ ok response
    pub blocks : parse_read_response f response ≡ ok ((address, cells memory address n) ∷ [])
    pub subfn : response.subfn ≡ 1
    pub code : response.code ≡ Response.ok_code

  pub round :
      (memory : ℕ → ℕ) (address n : ℕ)
      → address < address_count f
      → n < 65536
      → Round memory address n
  unfolding answer read_single_memory_block
  round memory address n fits short =
      let (q, sent, asked) =
        parse_read_request-read_memory_blocks f ((address, n) ∷ []) ((fits, short), tt) in
      let d = cells memory address n in
      let (r, answered, blocks, of_control, subfn, code) =
        parse_read_response-respond_read_memory_blocks f (address, d) []
          ((fits, omega (arith, short, length-cells memory address n)), tt) in
      record {
        request = q;
        response = r;
        sent = sent;
        command = of_read ((address, n) ∷ []) q sent;
        asked = asked;
        answered = rw asked answered;
        blocks = blocks;
        subfn = subfn;
        code = code;
      }

-- What a callback told behind what was told before, unless it raised.
abbrev pub settled : List Event → Reaction → Result (MemoryReader × List Event)
settled told (s, more, ok done) = ok (s, told ++ more)
settled told (s, more, err e) = err e

-- The answer to the request that was made, if one was made.
unfoldable pub exchange_of :
    Protocol
    → (ℕ → ℕ)
    → MemoryReader
    → List Event
    → Result (Option Request × Bool)
    → Result (MemoryReader × List Event)
unfolding answer
exchange_of p memory s told (err e) = err e
exchange_of p memory s told (ok (none, done)) = ok (s, told)
exchange_of p memory s told (ok (some q, done)) =
    answer p.address_format memory q
    >>= (λ r. settled told (success_callback p (record s { pending_request = some q }) q r))

-- One request of the reader, and the answer.
unfoldable pub exchange : Protocol → (ℕ → ℕ) → MemoryReader → Result (MemoryReader × List Event)
unfolding exchange_of
exchange p memory s =
    let (s', told, made) = make_next_raw_mem_read_request p s in exchange_of p memory s' told made

-- The exchanges that follow one, while a request is active.
unfoldable pub exchange_on :
    (MemoryReader → Result (MemoryReader × List Event))
    → MemoryReader
    → List Event
    → Option RawMemoryReadRequest
    → Result (MemoryReader × List Event)
exchange_on again s told none = ok (s, told)
exchange_on again s told (some a) = do (last, more) ← again s; ok (last, told ++ more)

-- Exchanges until no request is active, on fuel.
unfoldable pub exchanges :
    ℕ → Protocol → (ℕ → ℕ) → MemoryReader → Result (MemoryReader × List Event)
unfolding exchange_on
exchanges zero p memory s = err out_of_fuel
exchanges (suc fuel) p memory s =
    exchange p memory s
    >>= (λ t. exchange_on (exchanges fuel p memory) t.0 t.1 t.0.active_raw_read_request)
