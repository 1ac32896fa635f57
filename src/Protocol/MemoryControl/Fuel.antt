-- ===== src/Protocol/MemoryControl/Fuel.antt =====
-- The loops that parse the payloads of MemoryControl (scrutiny/server/protocol/protocol.py) end, whatever
-- the bytes are.
use scrutiny.Prelude.{
  ℕ, zero, suc, ◌+◌, ◌*◌, ◌<◌, ◌≡◌, subst, false, Option, some, none, List, [], ◌∷◌, arith, Bytes,
  length, length-drop, take, drop, slice, ltb, ltb→le, if-cases, Exn, Result, ok, err, exception,
  out_of_fuel, ◌>>=◌,
}
use scrutiny.Prelude.Dict
use scrutiny.Values.DataType.{EmbeddedDataType, get_size_byte}
use scrutiny.Protocol.Pack.{unpack_u16, unpack_u32}
use scrutiny.Protocol.Request.{Request}
use scrutiny.Protocol.Response.{Response}
use scrutiny.Protocol.MemoryControl
use scrutiny.Protocol.MemoryControl.{
  AddressFormat, get_address_size_bytes, decode_address, parse_blocks, parse_read_response,
  parse_write_request,
}
use scrutiny.Protocol.MemoryControl.Ranges.{parse_written, parse_write_response}
use scrutiny.Protocol.MemoryControl.Rpv.{RpvMap, type_of, parse_values, parse_read_rpv_response}
use scrutiny.Protocol.MemoryControl.Masked.{
  parse_masked_blocks, parse_masked_write_request, parse_value_writes, parse_write_rpv_request,
}

-- The exception is one of Python.
abbrev Raised : Exn → Type 0
Raised out_of_fuel = ⊥
Raised _ = Unit {0}

-- A result, or an exception of Python.
abbrev Ends : {A : Type 0} → Result A → Type 0
Ends (ok a) = Unit {0}
Ends (err e) = Raised e

in_time : {A : Type 0} (r : Result A) → Ends r → ¬ (r ≡ err out_of_fuel)
in_time r h e = subst Ends e h

bind-Ends :
    {A B : Type 0} (r : Result A) (next : A → Result B)
    → Ends r
    → ((a : A) → Ends (next a))
    → Ends (r >>= next)
bind-Ends (ok a) next h k = k a
bind-Ends (err e) next h k = h

unpack_u16-Ends : (d : Bytes) → Ends (unpack_u16 d)
unpack_u16-Ends [] = tt
unpack_u16-Ends (a ∷ []) = tt
unpack_u16-Ends (a ∷ b ∷ []) = tt
unpack_u16-Ends (a ∷ b ∷ c ∷ d) = tt

unpack_u32-Ends : (d : Bytes) → Ends (unpack_u32 d)
unpack_u32-Ends [] = tt
unpack_u32-Ends (a ∷ []) = tt
unpack_u32-Ends (a ∷ b ∷ []) = tt
unpack_u32-Ends (a ∷ b ∷ c ∷ []) = tt
unpack_u32-Ends (a ∷ b ∷ c ∷ d ∷ []) = tt
unpack_u32-Ends (a ∷ b ∷ c ∷ d ∷ e ∷ l) = tt

unpack_address-Ends : (f : AddressFormat) (d : Bytes) → Ends (MemoryControl.unpack_address f d)
unfolding MemoryControl.unpack_address MemoryControl.unpack_u8 MemoryControl.unpack_u64
unpack_address-Ends AddressFormat.bits_8 [] = tt
unpack_address-Ends AddressFormat.bits_8 (a ∷ []) = tt
unpack_address-Ends AddressFormat.bits_8 (a ∷ b ∷ d) = tt
unpack_address-Ends AddressFormat.bits_16 d = unpack_u16-Ends d
unpack_address-Ends AddressFormat.bits_32 d = unpack_u32-Ends d
unpack_address-Ends AddressFormat.bits_64 d =
    bind-Ends (unpack_u32 (take 4 d)) _ (unpack_u32-Ends (take 4 d))
      (λ high. bind-Ends (unpack_u32 (drop 4 d)) _ (unpack_u32-Ends (drop 4 d)) (λ low. tt))

decode_address-Ends : (f : AddressFormat) (d : Bytes) → Ends (decode_address f d)
unfolding decode_address
decode_address-Ends f d = unpack_address-Ends f (slice 0 (get_address_size_bytes f) d)

type_of-Ends : (types : RpvMap) (id : ℕ) → Ends (type_of types id)
unfolding type_of
type_of-Ends types id = go (Dict.get types id)
  where
    go :
        (o : Option EmbeddedDataType)
        → Ends (elim o as (λ x. Result EmbeddedDataType) [ none ↦ err exception | some t ↦ ok t ])
    go none = tt
    go (some t) = tt

-- What follows a block: nothing, or the rest of the loop.
tail-Ends :
    {B : Type 0} (again : Bytes → Result (List B)) (b : B) (l : Bytes)
    → Ends (again l)
    → Ends (elim l as (λ x. Result (List B)) [
      | [] ↦ ok (b ∷ [])
      | x ∷ xs ↦ (again (x ∷ xs) >>= (λ more. ok (b ∷ more)))
    ])
tail-Ends again b [] h = tt
tail-Ends again b (x ∷ xs) h = bind-Ends (again (x ∷ xs)) _ h (λ more. tt)

-- What is left after the head of a block is shorter, by two bytes at least.
shorter :
    (n header fuel : ℕ) (d : Bytes)
    → 2 < header
    → ltb (length d) header ≡ false
    → length d < suc fuel
    → length (drop n (drop header d)) < fuel
shorter n header fuel d big long enough =
    let le = ltb→le (length d) header long in
    omega (arith, big, le, enough, length-drop n (drop header d), length-drop header d)

header_size : (f : AddressFormat) → 2 < get_address_size_bytes f + 2
header_size AddressFormat.bits_8 = omega arith
header_size AddressFormat.bits_16 = omega arith
header_size AddressFormat.bits_32 = omega arith
header_size AddressFormat.bits_64 = omega arith

module _ (f : AddressFormat) where
  abbrev header : ℕ
  header = get_address_size_bytes f + 2

  -- The head of a block.
  head-Ends :
      {B : Type 0} (d : Bytes) (next : ℕ → ℕ → Result B)
      → ((address n : ℕ) → Ends (next address n))
      → Ends (
          decode_address f d >>= (λ address.
            unpack_u16 (slice (get_address_size_bytes f) header d) >>= (λ n. next address n)))
  head-Ends d next k = bind-Ends (decode_address f d) _ (decode_address-Ends f d) (λ address.
      bind-Ends (unpack_u16 (slice (get_address_size_bytes f) header d)) _
        (unpack_u16-Ends (slice (get_address_size_bytes f) header d)) (k address))

  parse_blocks-Ends : (fuel : ℕ) (d : Bytes) → length d < fuel → Ends (parse_blocks f fuel d)
  unfolding parse_blocks
  parse_blocks-Ends zero d enough = absurd (omega (arith, enough))
  parse_blocks-Ends (suc fuel) d enough =
      if-cases Ends (ltb (length d) header) _ _ (λ short. tt)
        (λ long. head-Ends d _ (λ address n.
          if-cases Ends (ltb (length (drop header d)) n) _ _ (λ short. tt)
            (λ all.
              tail-Ends (parse_blocks f fuel) (address, take n (drop header d))
                (drop n (drop header d))
                (parse_blocks-Ends fuel (drop n (drop header d))
                  (shorter n header fuel d (header_size f) long enough)))))

  parse_written-Ends : (fuel : ℕ) (d : Bytes) → length d < fuel → Ends (parse_written f fuel d)
  unfolding parse_written
  parse_written-Ends zero d enough = absurd (omega (arith, enough))
  parse_written-Ends (suc fuel) d enough =
      if-cases Ends (ltb (length d) header) _ _ (λ short. tt)
        (λ long. head-Ends d _ (λ address n.
          tail-Ends (parse_written f fuel) (address, n) (drop header d)
            (parse_written-Ends fuel (drop header d)
              (shorter 0 header fuel d (header_size f) long enough))))

  parse_masked_blocks-Ends :
      (fuel : ℕ) (d : Bytes) → length d < fuel → Ends (parse_masked_blocks f fuel d)
  unfolding parse_masked_blocks
  parse_masked_blocks-Ends zero d enough = absurd (omega (arith, enough))
  parse_masked_blocks-Ends (suc fuel) d enough =
      if-cases Ends (ltb (length d) header) _ _ (λ short. tt)
        (λ long. head-Ends d _ (λ address n.
          if-cases Ends (ltb (length (drop header d)) (2 * n)) _ _ (λ short. tt)
            (λ all. tail-Ends (parse_masked_blocks f fuel) _ (drop (2 * n) (drop header d)) (
              parse_masked_blocks-Ends fuel (drop (2 * n) (drop header d))
                (shorter (2 * n) header fuel d (header_size f) long enough)))))

module _ (types : RpvMap) where
  parse_values-Ends :
      (fuel : ℕ) (d : Bytes) → length d < suc fuel → Ends (parse_values types fuel d)
  unfolding parse_values
  parse_values-Ends fuel [] enough = tt
  parse_values-Ends zero (x ∷ xs) enough = absurd (omega (arith, enough))
  parse_values-Ends (suc fuel) (x ∷ xs) enough =
      if-cases Ends (ltb (length (x ∷ xs)) 2) _ _ (λ short. tt)
        (λ long.
          bind-Ends (unpack_u16 (take 2 (x ∷ xs))) _ (unpack_u16-Ends (take 2 (x ∷ xs))) (λ id.
            bind-Ends (type_of types id) _ (type_of-Ends types id) (λ t.
              let body = drop 2 (x ∷ xs) in
              if-cases Ends (ltb (length body) (get_size_byte t)) _ _ (λ short. tt)
                (λ all.
                  bind-Ends (parse_values types fuel (drop (get_size_byte t) body)) _
                    (parse_values-Ends fuel (drop (get_size_byte t) body) (
                      omega (
                        arith,
                        enough,
                        length-drop (get_size_byte t) body,
                        length-drop 2 (x ∷ xs),
                      )))
                    (λ more. tt)))))

  parse_value_writes-Ends :
      (fuel : ℕ) (d : Bytes) → length d < suc fuel → Ends (parse_value_writes types fuel d)
  unfolding parse_value_writes
  parse_value_writes-Ends fuel [] enough = tt
  parse_value_writes-Ends zero (x ∷ xs) enough = absurd (omega (arith, enough))
  parse_value_writes-Ends (suc fuel) (x ∷ xs) enough =
      bind-Ends (unpack_u16 (take 2 (x ∷ xs))) _ (unpack_u16-Ends (take 2 (x ∷ xs))) (λ id.
        bind-Ends (type_of types id) _ (type_of-Ends types id) (λ t.
          let body = drop 2 (x ∷ xs) in
          if-cases Ends (ltb (length body) (get_size_byte t)) _ _ (λ short. tt)
            (λ all.
              bind-Ends (parse_value_writes types fuel (drop (get_size_byte t) body)) _
                (parse_value_writes-Ends fuel (drop (get_size_byte t) body) (
                  omega
                    (arith, enough, length-drop (get_size_byte t) body, length-drop 2 (x ∷ xs))))
                (λ more. tt))))

-- Whatever the payload of an answer or of a request is, no loop that parses it runs out of rounds: those
-- of an answer to a read or a write of memory and to a read of published values, and those of a write,
-- a masked write and a write of published values.
pub parse_read_response_ends :
    (f : AddressFormat) (types : RpvMap) (r : Response) (q : Request)
    → (¬ (parse_read_response f r ≡ err out_of_fuel))
      × (¬ (parse_write_response f r ≡ err out_of_fuel))
      × (¬ (parse_read_rpv_response types r ≡ err out_of_fuel))
      × (¬ (parse_write_request f q ≡ err out_of_fuel))
      × (¬ (parse_masked_write_request f q ≡ err out_of_fuel))
      × (¬ (parse_write_rpv_request types q ≡ err out_of_fuel))
unfolding parse_read_response parse_write_response parse_read_rpv_response parse_write_request
    parse_masked_write_request parse_write_rpv_request
parse_read_response_ends f types r q = (
  in_time _ (parse_blocks-Ends f (suc (length r.payload)) r.payload (omega arith)),
  in_time _ (parse_written-Ends f (suc (length r.payload)) r.payload (omega arith)),
  in_time _ (parse_values-Ends types (length r.payload) r.payload (omega arith)),
  in_time _ (parse_blocks-Ends f (suc (length q.payload)) q.payload (omega arith)),
  in_time _ (parse_masked_blocks-Ends f (suc (length q.payload)) q.payload (omega arith)),
  in_time _ (parse_value_writes-Ends types (length q.payload) q.payload (omega arith)),
)
