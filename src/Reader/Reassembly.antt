-- ===== src/Reader/Reassembly.antt =====
-- What comes of a raw read (memory_reader.py) that a device answers from its memory.
use scrutiny.Prelude.{
  ℕ, zero, suc, ◌+◌, ◌-◌, ◌<◌, ◌≡◌, refl, sym, ap, ◌∙◌, some, none, List, [], ◌∷◌, arith, min, inl,
  inr, lt_or_ge, Result, ok, ◌>>=◌,
}
use scrutiny.Protocol.MemoryControl.{address_count}
use scrutiny.Reader.State.{
  RawMemoryReadRequest, Reason, Event, Protocol, MemoryReader, clear_active_raw_read_request,
}
use scrutiny.Reader.Raw.{
  refusal, activate, next_piece, piece_of, piece_for, make_next_raw_mem_read_request, Piece,
}
use scrutiny.Reader.Pieces.{Progress, last_piece, more_pieces}
use scrutiny.Reader.Device.{cells, exchange_of, exchange, exchange_on, exchanges}

module _ (p : Protocol) (memory : ℕ → ℕ) (fuel : ℕ) (s s' : MemoryReader) where
  exchanges_end :
      (told : List Event)
      → exchange p memory s ≡ ok (s', told)
      → s'.active_raw_read_request ≡ none
      → exchanges (suc fuel) p memory s ≡ ok (s', told)
  unfolding exchanges exchange_on
  exchanges_end told run idle =
      ap
        (λ (x : Result (MemoryReader × List Event)).
          x >>= (λ t. exchange_on (exchanges fuel p memory) t.0 t.1 t.0.active_raw_read_request))
        run
      ∙ ap (exchange_on (exchanges fuel p memory) s' told) idle

  exchanges_more :
      (a : RawMemoryReadRequest) {last : MemoryReader × List Event}
      → exchange p memory s ≡ ok (s', [])
      → s'.active_raw_read_request ≡ some a
      → exchanges fuel p memory s' ≡ ok last
      → exchanges (suc fuel) p memory s ≡ ok last
  unfolding exchanges exchange_on
  exchanges_more a run active rest =
      ap
        (λ (x : Result (MemoryReader × List Event)).
          x >>= (λ t. exchange_on (exchanges fuel p memory) t.0 t.1 t.0.active_raw_read_request))
        run
      ∙ ap (exchange_on (exchanges fuel p memory) s' []) active
      ∙ ap (λ (x : Result (MemoryReader × List Event)). x >>= (λ t. ok (t.0, t.1))) rest

module _ (p : Protocol) (memory : ℕ → ℕ) (a : RawMemoryReadRequest)
    (inside : a.address + a.size < address_count p.address_format) (small : a.size < 65536) where
  -- With fuel for the bytes that are left, the exchanges end with the request's completion.
  read_all :
      (fuel : ℕ) (s : MemoryReader) (got : ℕ)
      → Progress p memory a inside small s got
      → 0 < s.max_response_payload_size
      → a.size < fuel + got
      → (s' : MemoryReader) × (exchanges fuel p memory s
          ≡ ok (
            s',
            Event.set_completed a (some (cells memory a.address a.size)) Reason.no_reason ∷ [],
          ))
        × (s'.active_raw_read_request ≡ none)
        × (s'.raw_read_request_queue ≡ s.raw_read_request_queue)
  read_all zero s got g room enough = absurd (omega (arith, g.less))
  read_all (suc fuel) s got g room enough =
      elim (lt_or_ge (got + min s.max_response_payload_size (a.size - got)) a.size) [
        | inl more ↦
            let (s', run, h, queue, limit) =
              more_pieces p memory a inside small s got g room more in
            let (last, runs, idle, queue') =
              read_all fuel s' (got + min s.max_response_payload_size (a.size - got)) h
                (omega (arith, limit, room)) (omega (arith, g.less, room)) in
            (last, exchanges_more p memory fuel s s' a run h.active runs, idle, queue' ∙ queue)
        | inr done ↦
            let (s', run, idle, queue) = last_piece p memory a inside small s got g room done in
            (s', exchanges_end p memory fuel s s' _ run idle, idle, queue)
      ]

pub allowed :
    (p : Protocol) (s : MemoryReader) (a : RawMemoryReadRequest)
    → refusal p s a ≡ none
    → (a.address + a.size < address_count p.address_format) × (a.size < 65536)
unfolding refusal
allowed p s a h = ground (arith, h)

-- The state in which the request at the head of the queue is active.
abbrev pub activated :
    MemoryReader → RawMemoryReadRequest → List RawMemoryReadRequest → MemoryReader
activated s a rest = record (clear_active_raw_read_request s) {
  raw_read_request_queue = rest;
  active_raw_read_request = some a;
}

activate_first :
    (p : Protocol) (s : MemoryReader) (a : RawMemoryReadRequest) (rest : List RawMemoryReadRequest)
    → refusal p s a ≡ none
    → activate p s (a ∷ rest) ≡ (activated s a rest, [])
unfolding activate
activate_first p s a rest sendable = rw (sendable, activate) refl

pub made_from_queue :
    (p : Protocol) (s : MemoryReader) (a : RawMemoryReadRequest) (rest : List RawMemoryReadRequest)
    → s.active_raw_read_request ≡ none
    → s.raw_read_request_queue ≡ a ∷ rest
    → refusal p s a ≡ none
    → make_next_raw_mem_read_request p s ≡ next_piece p (activated s a rest) a []
unfolding make_next_raw_mem_read_request piece_for piece_of
made_from_queue p s a rest idle queue sendable =
    let after = λ (t : MemoryReader × List Event). piece_of p t.0 t.1 t.0.active_raw_read_request in
    ap (piece_for p s) idle
    ∙ ap (λ (l : List RawMemoryReadRequest). after (activate p s l)) queue
    ∙ ap after (activate_first p s a rest sendable)

made_active :
    (p : Protocol) (s : MemoryReader) (a : RawMemoryReadRequest) (rest : List RawMemoryReadRequest)
    → make_next_raw_mem_read_request p (activated s a rest) ≡ next_piece p (activated s a rest) a []
unfolding make_next_raw_mem_read_request piece_for
made_active p s a rest = refl

same_exchange :
    (p : Protocol) (memory : ℕ → ℕ) (s : MemoryReader) (a : RawMemoryReadRequest)
    (rest : List RawMemoryReadRequest)
    → s.active_raw_read_request ≡ none
    → s.raw_read_request_queue ≡ a ∷ rest
    → refusal p s a ≡ none
    → exchange p memory s ≡ exchange p memory (activated s a rest)
unfolding exchange
same_exchange p memory s a rest idle queue sendable =
    ap (λ (x : Piece). exchange_of p memory x.0 x.1 x.2)
      (made_from_queue p s a rest idle queue sendable ∙ sym (made_active p s a rest))

same_exchanges :
    (p : Protocol) (memory : ℕ → ℕ) (fuel : ℕ) (s t : MemoryReader)
    → exchange p memory s ≡ exchange p memory t
    → exchanges (suc fuel) p memory s ≡ exchanges (suc fuel) p memory t
unfolding exchanges
same_exchanges p memory fuel s t e =
    ap
      (λ (x : Result (MemoryReader × List Event)).
        x >>= (λ t. exchange_on (exchanges fuel p memory) t.0 t.1 t.0.active_raw_read_request))
      e

-- A raw read of some bytes that stands first in the queue of a reader without an active raw read and that
-- the reader does not refuse, where the limit on an answer is positive and no entries of a read of
-- variables wait: with exchanges for its bytes, a device that answers from its memory makes the reader
-- complete it with the memory's bytes from its address on, in any number of pieces. Nothing else is told,
-- no request is active then, and the rest of the queue is the same.
pub exchanges-completes :
    (p : Protocol) (memory : ℕ → ℕ) (s : MemoryReader) (a : RawMemoryReadRequest)
    (rest : List RawMemoryReadRequest)
    → s.active_raw_read_request ≡ none
    → s.raw_read_request_queue ≡ a ∷ rest
    → s.entries_in_pending_read_var_request ≡ []
    → refusal p s a ≡ none
    → 0 < a.size
    → 0 < s.max_response_payload_size
    → (s' : MemoryReader) × (exchanges (suc a.size) p memory s
        ≡ ok (
          s',
          Event.set_completed a (some (cells memory a.address a.size)) Reason.no_reason ∷ [],
        ))
      × (s'.active_raw_read_request ≡ none)
      × (s'.raw_read_request_queue ≡ rest)
exchanges-completes p memory s a rest idle queue waiting sendable full room =
    let (inside, small) = allowed p s a sendable in
    let start = activated s a rest in
    let (s', run, done, left) =
      read_all p memory a inside small (suc a.size) start 0
        (unfold clear_active_raw_read_request cells in
          record { active = refl; waiting = waiting; cursor = refl; taken = refl; less = full })
        (unfold clear_active_raw_read_request in room) (omega arith) in
    (
      s',
      same_exchanges p memory a.size s start (same_exchange p memory s a rest idle queue sendable)
          ∙ run,
      done,
      left,
    )
