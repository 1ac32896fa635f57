-- ===== src/Writer/Pieces.antt =====
-- One piece of a raw write (memory_writer.py) that a device stores.
use scrutiny.Prelude.{
  ℕ, suc, ◌≤◌, ◌+◌, ◌-◌, ◌<◌, ◌≡◌, refl, sym, ap, ◌∙◌, true, false, Option, some, none, [], ◌∷◌,
  ◌++◌, arith, min, Bytes, Bool, length, length-append, length-take, length-drop, take, drop,
  take-append-drop, append-nil, append_assoc, ==_refl, if◌then◌else◌, Result, ok, err, ◌>>=◌,
}
use scrutiny.Protocol.Request.{Request}
use scrutiny.Protocol.Response.{Response}
use scrutiny.Protocol.MemoryControl.{AddressFormat, address_count, parse_write_request}
use scrutiny.Reader.State.{Protocol}
use scrutiny.Reader.Callbacks.{is_ok}
use scrutiny.Writer.State.{
  Entry, RawMemoryWriteRequest, Reason, Event, MemoryWriter, clear_active_raw_write_request,
}
use scrutiny.Writer.Raw.{Piece, next_piece, piece_of, piece_for, make_next_raw_memory_write_request}
use scrutiny.Writer.Callbacks.{
  blocks_to_write, response_match_request, write_matches, continue_raw, after_piece, finish,
  completed, completing, memory_written, success_of, success_for, success_callback,
  success_callback_raw_memory_write,
}
use scrutiny.Writer.Device.{Cells, store, Round, round, Exchanged, settled, exchange_of, exchange}

pub matches :
    (f : AddressFormat) (address : ℕ) (d : Bytes) (t : Round f address d)
    → write_matches f t.request t.response ≡ ok true
unfolding write_matches blocks_to_write response_match_request parse_write_request
matches f address d t =
    rw t.asks (rw t.asked (rw t.written (rw (==_refl address) (rw (==_refl (length d)) refl))))

module _ {V : Type 0} (p : Protocol) where
  -- The callback for a piece whose answer matches the request.
  success_raw :
      (s : MemoryWriter V) (a : RawMemoryWriteRequest) (remaining : Bytes) (q : Request)
      (r : Response)
      → s.pending_request ≡ some q
      → r.subfn ≡ 2
      → s.entry_being_updated ≡ none
      → s.active_raw_write_request ≡ some a
      → s.active_raw_write_request_remaining_data ≡ some remaining
      → is_ok r ≡ true
      → write_matches p.address_format q r ≡ ok true
      → success_callback p s q r
        ≡ (completed (continue_raw s a remaining).0, (continue_raw s a remaining).1, ok tt)
  unfolding success_callback success_for success_of memory_written success_callback_raw_memory_write
      after_piece
  success_raw s a remaining q r pending subfn idle active left good match =
      ap (success_for p s q r) pending
      ∙ ap (λ (n : ℕ). completing (success_of p s q r n)) subfn
      ∙ ap (λ (e : Option Entry). completing (memory_written p s q r e s.active_raw_write_request))
          idle
      ∙ ap (λ (o : Option RawMemoryWriteRequest). completing (memory_written p s q r none o)) active
      ∙ ap (λ (o : Option Bytes). completing (success_callback_raw_memory_write p s q r a o)) left
      ∙ ap
          (λ (b : Bool). completing (
            if b
            then after_piece s a remaining (write_matches p.address_format q r)
            else (let (s', events) = finish s a false Reason.refused in (s', events, ok tt))))
          good
      ∙ ap (λ (m : Result Bool). completing (after_piece s a remaining m)) match

  module _ (a : RawMemoryWriteRequest)
      (inside : a.address + length a.memory ≤ address_count p.address_format) where
    -- What is written and what is left of the data, and no request is out.
    pub record Progress (s : MemoryWriter V) (written left : Bytes) : Type 0 where
      pub active : s.active_raw_write_request ≡ some a
      pub idle : s.entry_being_updated ≡ none
      pub remaining : s.active_raw_write_request_remaining_data ≡ some left
      pub whole : written ++ left ≡ a.memory
      pub next : a.address + length written < address_count p.address_format

    module _ (cells : Cells) (s : MemoryWriter V) (written left : Bytes)
        (g : Progress s written left) (fits : s.max_request_payload_size < 65536) where
      abbrev step : ℕ
      step = min s.max_request_payload_size (length left)

      all_bytes : length written + length left ≡ length a.memory
      all_bytes =
          let e = ap (λ (l : Bytes). length l) g.whole in
          omega (arith, e, length-append written left)

      pub there :
          Round p.address_format (a.address + (length a.memory - length left)) (take step left)
      there =
          round p.address_format (a.address + (length a.memory - length left)) (take step left)
            (omega (arith, all_bytes, g.next)) (omega (arith, fits, length-take step left))

      abbrev out : MemoryWriter V
      out = record s {
        active_raw_write_request_remaining_data = some (drop step left);
        pending_request = some there.request;
      }

      pub made : make_next_raw_memory_write_request p.address_format s ≡ (
        record s { active_raw_write_request_remaining_data = some (drop step left) },
        [],
        ok (some there.request),
      )
      unfolding make_next_raw_memory_write_request piece_for piece_of next_piece
      made =
          let sent = record s { active_raw_write_request_remaining_data = some (drop step left) } in
          ap (piece_for p.address_format s) g.active
          ∙ ap (next_piece p.address_format s [] a) g.remaining
          ∙ ap
              (λ (x : Result Request). elim x as (λ y. Piece V) [
                | err e ↦ (sent, [], err e)
                | ok q ↦ (sent, [], ok (some q))
              ])
              there.sent

      reaction : success_callback p out there.request there.response ≡ (
        completed (continue_raw out a (drop step left)).0,
        (continue_raw out a (drop step left)).1,
        ok tt,
      )
      reaction =
          success_raw out a (drop step left) there.request there.response refl there.subfn g.idle
            g.active refl (ground (arith, there.code))
            (matches p.address_format _ (take step left) there)

      abbrev here : ℕ
      here = a.address + (length a.memory - length left)

      exchanged :
          exchange p cells s
          ≡ ok (
            completed (continue_raw out a (drop step left)).0,
            store cells here (take step left),
            (continue_raw out a (drop step left)).1,
          )
      unfolding exchange exchange_of
      exchanged =
          ap (λ (x : Piece V). exchange_of p cells x.0 x.1 x.2) made
          ∙ ap
              (λ (x : Result (Cells × Response)).
                x >>= (λ t. settled t.0 [] (success_callback p out there.request t.1)))
              (there.answered cells)
          ∙ ap (settled (store cells here (take step left)) []) reaction

      placed : here ≡ a.address + length written
      placed = omega (arith, all_bytes)

      -- The outcome, by what is left after the piece and what the memory is.
      abbrev outcome : Cells → Bytes → Result (Exchanged V)
      outcome stored l = ok (completed (continue_raw out a l).0, stored, (continue_raw out a l).1)

      -- The last piece completes the request.
      pub last_piece :
          drop step left ≡ []
          → (s' : MemoryWriter V) × (exchange p cells s
              ≡ ok (
                s',
                store cells (a.address + length written) left,
                Event.set_completed a true Reason.no_reason ∷ [],
              ))
            × (s'.active_raw_write_request ≡ none)
            × (s'.raw_write_request_queue ≡ s.raw_write_request_queue)
      unfolding completed continue_raw finish clear_active_raw_write_request
      last_piece end =
          let all : take step left ≡ left =
            sym (append-nil (take step left))
            ∙ (ap (λ (l : Bytes). take step left ++ l) (sym end) ∙ take-append-drop step left) in
          (
            completed (clear_active_raw_write_request out),
            exchanged
                ∙ ap (outcome (store cells here (take step left))) end
                ∙ ap (λ (h : ℕ). outcome (store cells h (take step left)) []) placed
                ∙ ap (λ (d : Bytes). outcome (store cells (a.address + length written) d) []) all,
            refl,
            refl,
          )

      -- Another piece stores its bytes, and leaves the rest.
      pub more_pieces :
          (x : ℕ) (xs : Bytes)
          → drop step left ≡ x ∷ xs
          → (s' : MemoryWriter V) × (exchange p cells s
              ≡ ok (s', store cells (a.address + length written) (take step left), []))
            × Progress s' (written ++ take step left) (drop step left)
            × (s'.raw_write_request_queue ≡ s.raw_write_request_queue)
            × (s'.max_request_payload_size ≡ s.max_request_payload_size)
      unfolding completed continue_raw
      more_pieces x xs more =
          let there_is : length (drop step left) ≡ suc (length xs) =
            ap (λ (l : Bytes). length l) more in
          let ahead : a.address + length (written ++ take step left)
              < address_count p.address_format =
            omega (
              arith,
              inside,
              all_bytes,
              there_is,
              length-append written (take step left),
              length-take step left,
              length-drop step left,
            ) in
          (
            completed out,
            exchanged
                ∙ ap (outcome (store cells here (take step left))) more
                ∙ ap (λ (h : ℕ). outcome (store cells h (take step left)) (x ∷ xs)) placed,
            record {
              active = g.active;
              idle = g.idle;
              remaining = refl;
              whole =
                  append_assoc written (take step left) (drop step left)
                  ∙ (ap (λ (l : Bytes). written ++ l) (take-append-drop step left) ∙ g.whole);
              next = ahead;
            },
            refl,
            refl,
          )
