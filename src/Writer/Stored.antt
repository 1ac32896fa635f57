-- ===== src/Writer/Stored.antt =====
-- What comes of a raw write (memory_writer.py) that a device stores.
use scrutiny.Prelude.{
  ℕ, zero, suc, true, ◌≤◌, ◌+◌, ◌<◌, ◌≡◌, ◌⊎◌, refl, ap, ◌∙◌, some, none, List, [], ◌∷◌, ◌++◌,
  arith, min, inl, inr, Bytes, length, length-append, length-drop, take, drop, take-append-drop,
  Result, ok, ◌>>=◌,
}
use scrutiny.Protocol.MemoryControl.{AddressFormat, address_count}
use scrutiny.Reader.State.{Protocol}
use scrutiny.Writer.State.{
  RawMemoryWriteRequest, Reason, Event, MemoryWriter, clear_active_raw_write_request,
}
use scrutiny.Writer.Raw.{
  Piece, refusal, activate, piece_of, piece_for, make_next_raw_memory_write_request,
}
use scrutiny.Writer.Device.{
  Cells, store, store-append, Exchanged, exchange_of, exchange, exchange_on, exchanges,
}
use scrutiny.Writer.Pieces.{Progress, last_piece, more_pieces}

module _ {V : Type 0} (p : Protocol) (fuel : ℕ) (cells : Cells) (s s' : MemoryWriter V)
    (stored : Cells) (told : List (Event V))
    (run : exchange p cells s ≡ ok (s', stored, told)) where
  first_exchange :
      exchanges (suc fuel) p cells s
      ≡ exchange_on (exchanges fuel p) s' stored told s'.active_raw_write_request
  unfolding exchanges
  first_exchange =
      ap
        (λ (x : Result (Exchanged V)).
          x >>= (λ t. exchange_on (exchanges fuel p) t.0 t.1 t.2 t.0.active_raw_write_request))
        run

  exchanges_end :
      s'.active_raw_write_request ≡ none → exchanges (suc fuel) p cells s ≡ ok (s', stored, told)
  unfolding exchange_on
  exchanges_end idle = first_exchange ∙ ap (exchange_on (exchanges fuel p) s' stored told) idle

  exchanges_more :
      (a : RawMemoryWriteRequest) {last : Exchanged V}
      → s'.active_raw_write_request ≡ some a
      → exchanges fuel p stored s' ≡ ok last
      → exchanges (suc fuel) p cells s ≡ ok (last.0, last.1, told ++ last.2)
  unfolding exchange_on
  exchanges_more a active rest =
      first_exchange
      ∙ ap (exchange_on (exchanges fuel p) s' stored told) active
      ∙ ap (λ (x : Result (Exchanged V)). x >>= (λ t. ok (t.0, t.1, told ++ t.2))) rest

abbrev empty_or_not : (l : Bytes) → (l ≡ []) ⊎ ((x : ℕ) × (xs : Bytes) × (l ≡ x ∷ xs))
empty_or_not [] = inl refl
empty_or_not (x ∷ xs) = inr (x, xs, refl)

module _ {V : Type 0} (p : Protocol) (a : RawMemoryWriteRequest)
    (inside : a.address + length a.memory ≤ address_count p.address_format) where
  -- With fuel for the bytes that are left, the exchanges end with the request's completion.
  write_all :
      (fuel : ℕ) (cells : Cells) (s : MemoryWriter V) (written left : Bytes)
      → Progress p a inside s written left
      → s.max_request_payload_size < 65536
      → 0 < s.max_request_payload_size
      → length left < fuel
      → (s' : MemoryWriter V) × (exchanges fuel p cells s
          ≡ ok (
            s',
            store cells (a.address + length written) left,
            Event.set_completed a true Reason.no_reason ∷ [],
          ))
        × (s'.active_raw_write_request ≡ none)
        × (s'.raw_write_request_queue ≡ s.raw_write_request_queue)
  write_all zero cells s written left g fits room enough = absurd (omega (arith, enough))
  write_all (suc fuel) cells s written left g fits room enough =
      let n = min s.max_request_payload_size (length left) in
      elim (empty_or_not (drop n left)) [
        | inl end ↦
            let (s', run, idle, queue) = last_piece p a inside cells s written left g fits end in
            (s', exchanges_end p fuel cells s s' _ _ run idle, idle, queue)
        | inr (x, xs, more) ↦
            let (s', run, h, queue, limit) =
              more_pieces p a inside cells s written left g fits x xs more in
            let there_is : length (drop n left) ≡ suc (length xs) =
              ap (λ (l : Bytes). length l) more in
            let (last, runs, idle, queue') =
              write_all fuel (store cells (a.address + length written) (take n left)) s'
                (written ++ take n left) (drop n left) h (omega (arith, limit, fits))
                (omega (arith, limit, room))
                (omega (arith, enough, room, there_is, length-drop n left)) in
            (
              last,
              exchanges_more p fuel cells s s' _ _ run a h.active runs
                  ∙ ap
                      (λ (c : Cells).
                        ok (last, c, Event.set_completed a true Reason.no_reason ∷ []))
                      (store-append cells (a.address + length written) _ (take n left) (drop n left)
                          (omega (arith, length-append written (take n left)))
                        ∙ ap (store cells (a.address + length written)) (take-append-drop n left)),
              idle,
              queue' ∙ queue,
            )
      ]

-- The state in which the request at the head of the queue is active.
abbrev pub activated :
    {V : Type 0}
    → MemoryWriter V
    → RawMemoryWriteRequest
    → List RawMemoryWriteRequest
    → MemoryWriter V
activated s a rest = record (clear_active_raw_write_request s) {
  raw_write_request_queue = rest;
  active_raw_write_request = some a;
  active_raw_write_request_remaining_data = some a.memory;
}

module _ {V : Type 0} (f : AddressFormat) (s : MemoryWriter V) (a : RawMemoryWriteRequest)
    (rest : List RawMemoryWriteRequest) (no_active : s.active_raw_write_request ≡ none)
    (queue : s.raw_write_request_queue ≡ a ∷ rest) (sendable : refusal s a ≡ none) where
  activate_first : activate s (a ∷ rest) ≡ (activated s a rest, [])
  unfolding activate
  activate_first = rw (sendable, activate) refl

  pub made_from_queue :
      make_next_raw_memory_write_request f s
      ≡ make_next_raw_memory_write_request f (activated s a rest)
  unfolding make_next_raw_memory_write_request piece_for
  made_from_queue =
      let after =
        λ (t : MemoryWriter V × List (Event V)). piece_of f t.0 t.1 t.0.active_raw_write_request in
      ap (piece_for f s) no_active
      ∙ ap (λ (l : List RawMemoryWriteRequest). after (activate s l)) queue
      ∙ ap after activate_first

-- A raw write that stands first in the queue of a writer that works on nothing and that the writer does
-- not refuse, whose address the format can hold and which ends at the format's last address at most: with
-- exchanges for its bytes, a device that stores what it is asked to write makes the writer complete it
-- with success, in any number of pieces, and then the device's memory is as if all of the data had been
-- stored at once from the address on, and nothing else. No write is active then, and the rest of the queue
-- is the same. The limit on a request is positive and fits 16 bits.
pub exchanges-store :
    {V : Type 0} (p : Protocol) (cells : Cells) (s : MemoryWriter V) (a : RawMemoryWriteRequest)
    (rest : List RawMemoryWriteRequest)
    → s.active_raw_write_request ≡ none
    → s.raw_write_request_queue ≡ a ∷ rest
    → s.entry_being_updated ≡ none
    → refusal s a ≡ none
    → a.address < address_count p.address_format
    → a.address + length a.memory ≤ address_count p.address_format
    → s.max_request_payload_size < 65536
    → 0 < s.max_request_payload_size
    → (s' : MemoryWriter V) × (exchanges (suc (length a.memory)) p cells s
        ≡ ok (s', store cells a.address a.memory, Event.set_completed a true Reason.no_reason ∷ []))
      × (s'.active_raw_write_request ≡ none)
      × (s'.raw_write_request_queue ≡ rest)
unfolding clear_active_raw_write_request exchange exchanges
exchanges-store p cells s a rest no_active queue idle sendable place inside fits room =
    let start = activated s a rest in
    let (s', run, done, left) =
      write_all p a inside (suc (length a.memory)) cells start [] a.memory
        (record {
          active = refl;
          idle = idle;
          remaining = refl;
          whole = refl;
          next = omega (arith, place);
        })
        fits room (omega arith) in
    let from : a.address + 0 ≡ a.address = omega arith in
    let same : exchange p cells s ≡ exchange p cells start =
      ap (λ (x : Piece _). exchange_of p cells x.0 x.1 x.2)
        (made_from_queue p.address_format s a rest no_active queue sendable) in
    (
      s',
      ap
            (λ (x : Result (Exchanged _)). x >>= (λ t.
              exchange_on (exchanges (length a.memory) p) t.0 t.1 t.2 t.0.active_raw_write_request))
            same
          ∙ (run
              ∙ ap
                  (λ (b : ℕ).
                    ok (
                      s',
                      store cells b a.memory,
                      Event.set_completed a true Reason.no_reason ∷ [],
                    ))
                  from),
      done,
      left,
    )
