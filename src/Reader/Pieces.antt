-- ===== src/Reader/Pieces.antt =====
-- One piece of a raw read (memory_reader.py) that a device answers from its memory.
use scrutiny.Prelude.{
  ℕ, ◌+◌, ◌-◌, ◌<◌, ◌≤◌, ◌≡◌, refl, ap, ◌∙◌, true, Option, some, none, List, [], ◌∷◌, ◌++◌, arith,
  min, Bytes, length, leb, le→leb, lt→leb, if◌then◌else◌, Result, ok, err, ◌>>=◌, assertion_error,
}
use scrutiny.Protocol.Commands.{Command}
use scrutiny.Protocol.Request.{Request}
use scrutiny.Protocol.Response
use scrutiny.Protocol.Response.{Response}
use scrutiny.Protocol.MemoryControl.{address_count}
use scrutiny.Reader.State.{
  Variable, RawMemoryReadRequest, Reason, Event, Protocol, MemoryReader,
  clear_active_raw_read_request,
}
use scrutiny.Reader.Raw.{next_piece, piece_for, make_next_raw_mem_read_request, Piece}
use scrutiny.Reader.Callbacks.{
  received, expected_block, continue_raw, finish, success_callback, success_of,
  success_callback_memory_read, read_completed, completing, success_for, is_ok, is_memory_control,
}
use scrutiny.Reader.Device.{
  cells, length-cells, cells_add, Round, round, settled, exchange_of, exchange,
}

-- A block of the size that was asked for, that ends where the cursor is.
expected :
    (s : MemoryReader) (a : RawMemoryReadRequest) (address n : ℕ) (d : Bytes)
    → length d ≡ n
    → address + n ≡ a.address + s.active_raw_read_request_cursor
    → expected_block s a ((address, n) ∷ []) ((address, d) ∷ []) ≡ some d
unfolding expected_block
expected s a address n d size ends = ground (arith, size, ends)

completes :
    (s : MemoryReader) (a : RawMemoryReadRequest) (d total : Bytes)
    → s.active_raw_read_request_data ++ d ≡ total
    → a.size ≤ length total
    → continue_raw s a (ok d)
      ≡ (clear_active_raw_read_request s, Event.set_completed a (some total) Reason.no_reason ∷ [])
unfolding continue_raw finish
completes s a d total e full = rw e (rw (le→leb a.size (length total) full) refl)

goes_on :
    (s : MemoryReader) (a : RawMemoryReadRequest) (d total : Bytes)
    → s.active_raw_read_request_data ++ d ≡ total
    → length total < a.size
    → continue_raw s a (ok d) ≡ (record s { active_raw_read_request_data = total }, [])
unfolding continue_raw
goes_on s a d total e few = rw e (rw (lt→leb a.size (length total) few) refl)

answered_raw :
    (p : Protocol) (s : MemoryReader) (a : RawMemoryReadRequest) (q : Request) (r : Response)
    (d : Bytes)
    → is_ok r ≡ true
    → received p s a q r ≡ ok d
    → success_callback_memory_read p s q r [] (some a)
      ≡ ((continue_raw s a (ok d)).0, (continue_raw s a (ok d)).1, ok tt)
unfolding success_callback_memory_read
answered_raw p s a q r d good block = rw good (rw block refl)

-- The callback for a raw read that is answered with data.
success_raw :
    (p : Protocol) (s : MemoryReader) (a : RawMemoryReadRequest) (q : Request) (r : Response)
    (d : Bytes)
    → s.pending_request ≡ some q
    → q.command ≡ Command.memory_control
    → r.subfn ≡ 1
    → r.code ≡ Response.ok_code
    → s.entries_in_pending_read_var_request ≡ []
    → s.active_raw_read_request ≡ some a
    → received p s a q r ≡ ok d
    → success_callback p s q r
      ≡ (read_completed (continue_raw s a (ok d)).0, (continue_raw s a (ok d)).1, ok tt)
unfolding success_callback success_for success_of
success_raw p s a q r d pending command subfn code waiting active block =
    ap (success_for p s q r) pending
    ∙ ap
        (λ (c : Command).
          completing (if is_memory_control c then success_of p s q r r.subfn else (s, [], ok tt)))
        command
    ∙ ap (λ (n : ℕ). completing (success_of p s q r n)) subfn
    ∙ ap
        (λ (vs : List Variable).
          completing (success_callback_memory_read p s q r vs s.active_raw_read_request))
        waiting
    ∙ ap
        (λ (o : Option RawMemoryReadRequest).
          completing (success_callback_memory_read p s q r [] o))
        active
    ∙ ap completing (answered_raw p s a q r d (ground (arith, code)) block)

module _ (p : Protocol) (memory : ℕ → ℕ) (a : RawMemoryReadRequest)
    (inside : a.address + a.size < address_count p.address_format) (small : a.size < 65536) where
  -- So many bytes of the request were asked for and received, and no request is out.
  pub record Progress (s : MemoryReader) (got : ℕ) : Type 0 where
    pub active : s.active_raw_read_request ≡ some a
    pub waiting : s.entries_in_pending_read_var_request ≡ []
    pub cursor : s.active_raw_read_request_cursor ≡ got
    pub taken : s.active_raw_read_request_data ≡ cells memory a.address got
    pub less : got < a.size

  module _ (s : MemoryReader) (got : ℕ) (g : Progress s got)
      (room : 0 < s.max_response_payload_size) where
    abbrev step : ℕ
    step = min s.max_response_payload_size (a.size - got)

    abbrev there : Round p.address_format memory (a.address + got) step
    there =
        round p.address_format memory (a.address + got) step (omega (arith, g.less)) (omega arith)

    abbrev asked_for : MemoryReader
    asked_for = record s { active_raw_read_request_cursor = got + step }

    made :
        make_next_raw_mem_read_request p s
        ≡ (asked_for, [], ok (some there.request, leb a.size (got + step)))
    unfolding make_next_raw_mem_read_request piece_for next_piece
    made = rw g.active (rw g.cursor (rw (there.sent, next_piece) refl))

    abbrev out : MemoryReader
    out = record asked_for { pending_request = some there.request }

    block_received :
        received p out a there.request there.response ≡ ok (cells memory (a.address + got) step)
    unfolding received
    block_received = rw there.asked (
        rw there.blocks (
          ap
            (λ (o : Option Bytes). elim o as (λ x. Result Bytes) [
              | none ↦ err assertion_error
              | some d ↦ ok d
            ])
            (expected out a (a.address + got) step (cells memory (a.address + got) step)
              (length-cells memory (a.address + got) step) (omega arith))))

    joined :
        s.active_raw_read_request_data ++ cells memory (a.address + got) step
        ≡ cells memory a.address (got + step)
    joined = rw g.taken (cells_add memory a.address (a.address + got) got step refl)

    reaction : success_callback p out there.request there.response ≡ (
        let (s', events) = continue_raw out a (ok (cells memory (a.address + got) step)) in
        (read_completed s', events, ok tt))
    reaction =
        success_raw p out a there.request there.response (cells memory (a.address + got) step) refl
          there.command there.subfn there.code g.waiting g.active block_received

    abbrev next : MemoryReader × List Event
    next = continue_raw out a (ok (cells memory (a.address + got) step))

    exchanged : exchange p memory s ≡ ok (read_completed next.0, next.1)
    unfolding exchange exchange_of
    exchanged =
        ap (λ (x : Piece). exchange_of p memory x.0 x.1 x.2) made
        ∙ ap
            (λ (x : Result Response).
              x >>= (λ r. settled [] (success_callback p out there.request r)))
            there.answered
        ∙ ap (settled []) reaction

    abbrev whole : Event
    whole = Event.set_completed a (some (cells memory a.address a.size)) Reason.no_reason

    -- The last piece completes the request with all of the memory that it asked for.
    pub last_piece :
        a.size ≤ got + step
        → (s' : MemoryReader) × (exchange p memory s ≡ ok (s', whole ∷ []))
          × (s'.active_raw_read_request ≡ none)
          × (s'.raw_read_request_queue ≡ s.raw_read_request_queue)
    unfolding read_completed clear_active_raw_read_request
    last_piece done =
        let end : got + step ≡ a.size = omega (arith, g.less) in
        let ended =
          completes out a (cells memory (a.address + got) step) (cells memory a.address a.size)
            (joined ∙ ap (cells memory a.address) end)
            (omega (arith, length-cells memory a.address a.size)) in
        (
          read_completed (clear_active_raw_read_request out),
          exchanged ∙ ap (λ (x : MemoryReader × List Event). ok (read_completed x.0, x.1)) ended,
          refl,
          refl,
        )

    -- Any other one leaves more to do.
    pub more_pieces :
        got + step < a.size
        → (s' : MemoryReader) × (exchange p memory s ≡ ok (s', []))
          × Progress s' (got + step)
          × (s'.raw_read_request_queue ≡ s.raw_read_request_queue)
          × (s'.max_response_payload_size ≡ s.max_response_payload_size)
    unfolding read_completed
    more_pieces more =
        let on =
          goes_on out a (cells memory (a.address + got) step) (cells memory a.address (got + step))
            joined (omega (arith, length-cells memory a.address (got + step), more)) in
        (
          read_completed
              (record out { active_raw_read_request_data = cells memory a.address (got + step) }),
          exchanged ∙ ap (λ (x : MemoryReader × List Event). ok (read_completed x.0, x.1)) on,
          record {
            active = g.active;
            waiting = g.waiting;
            cursor = refl;
            taken = refl;
            less = more;
          },
          refl,
          refl,
        )
