-- ===== src/Writer/Entries.antt =====
-- `make_next_entry_write_request` of scrutiny/server/device/submodules/memory_writer.py: the next update
-- of an entry of the datastore.
use scrutiny.Prelude.{
  ℕ, Bool, true, false, not, ◌&&◌, Option, some, none, List, [], ◌∷◌, ◌++◌, if◌then◌else◌, Result,
  ok, err, ◌>>=◌,
}
use scrutiny.Values.DataType.{EmbeddedDataType, get_size_byte}
use scrutiny.Values.Region.{MemoryRegion}
use scrutiny.Protocol.Request.{Request}
use scrutiny.Protocol.MemoryControl.Rpv.{type_of, write_runtime_published_values}
use scrutiny.Protocol.MemoryControl.Masked.{write_memory_block}
use scrutiny.Reader.State.{Protocol}
use scrutiny.Reader.Variables.{touches_any}
use scrutiny.Writer.State.{Entry, Codec, UpdateTargetRequest, Event, MemoryWriter}
use scrutiny.Writer.Raw.{Piece}

abbrev pub as_request : Result Request → Result (Option Request)
as_request (ok q) = ok (some q)
as_request (err e) = err e

module _ {V : Type 0} where
  -- Whether the entry may be written.
  unfoldable pub permitted : MemoryWriter V → Entry → Bool
  unfolding touches_any
  permitted s (Entry.published id n t) = true
  permitted s (Entry.variable id address t bitsize) =
      let region : MemoryRegion = record { start = address; size = get_size_byte t } in
      s.memory_write_allowed
      && (not (touches_any region s.readonly_regions)
          && not (touches_any region s.forbidden_regions))

  -- The loop that takes updates off the datastore's queue until one is permitted.
  unfoldable pub take_update :
      MemoryWriter V → List (UpdateTargetRequest V) → MemoryWriter V × List (Event V)
  unfolding permitted
  take_update s [] = (record s { target_update_request_queue = [] }, [])
  take_update s (u ∷ rest) =
      let later = take_update s rest in
      if permitted s u.entry
      then (
        record s {
          target_update_request_queue = rest;
          target_update_request_being_processed = some u;
          entry_being_updated = some u.entry;
        },
        [],
      )
      else (later.0, Event.complete u false ∷ later.1)

  -- protocol.write_runtime_published_values((id, value)), with the type that the protocol knows
  unfoldable pub write_published : Codec V → Protocol → ℕ → V → Result Request
  write_published c p id v = do
    t ← type_of p.rpv_map id
    d ← c.encode_published t v
    write_runtime_published_values p.rpv_map ((id, d) ∷ [])

  -- A value that can not be encoded raises here, out of the reach of the source's `try`.
  unfoldable pub write_variable :
      Codec V → Protocol → ℕ → EmbeddedDataType → Option ℕ → V → Result Request
  write_variable c p address t bitsize v = do
    m ← c.encode_variable t bitsize v
    write_memory_block p.address_format address m.0 m.1

  -- The request, once the value is made valid, or the completion if that raised.
  unfoldable pub encoded :
      Codec V
      → Protocol
      → MemoryWriter V
      → List (Event V)
      → UpdateTargetRequest V
      → Entry
      → Result V
      → Piece V
  unfolding write_published write_variable
  encoded c p s events u (Entry.variable id address t bitsize) (ok v) = (
    record s { target_update_value_written = some v },
    events,
    as_request (write_variable c p address t bitsize v),
  )
  encoded c p s events u (Entry.variable id address t bitsize) (err e) = (
    record s { target_update_value_written = none },
    events ++ (Event.complete u false ∷ []),
    ok none,
  )
  encoded c p s events u (Entry.published id n t) (ok v) = (
    record s { target_update_value_written = some v },
    events,
    as_request (write_published c p n v),
  )
  encoded c p s events u (Entry.published id n t) (err e) =
      (s, events ++ (Event.complete u false ∷ []), ok none)

  unfoldable pub valid_value : Codec V → Entry → V → Result V
  valid_value c (Entry.variable id address t bitsize) v = c.make_value_valid t v bitsize
  valid_value c (Entry.published id n t) v = c.make_value_valid t v none

  unfoldable pub write_value :
      Codec V
      → Protocol
      → MemoryWriter V
      → List (Event V)
      → UpdateTargetRequest V
      → Entry
      → Option V
      → Piece V
  unfolding encoded valid_value
  write_value c p s events u e none = (s, events, ok none)
  write_value c p s events u e (some v) = encoded c p s events u e (valid_value c e v)

  unfoldable pub update_of :
      Codec V
      → Protocol
      → MemoryWriter V
      → List (Event V)
      → Option Entry
      → Option (UpdateTargetRequest V)
      → Piece V
  unfolding write_value
  update_of c p s events (some e) (some u) = write_value c p s events u e u.value
  update_of c p s events _ _ = (s, events, ok none)

  unfoldable pub update_for : Codec V → Protocol → MemoryWriter V → Option Entry → Piece V
  unfolding update_of take_update
  update_for c p s (some e) = update_of c p s [] (some e) s.target_update_request_being_processed
  update_for c p s none =
      let (s', events) = take_update s s.target_update_request_queue in
      update_of c p s' events s'.entry_being_updated s'.target_update_request_being_processed

  unfoldable pub make_next_entry_write_request : Codec V → Protocol → MemoryWriter V → Piece V
  unfolding update_for
  make_next_entry_write_request c p s = update_for c p s s.entry_being_updated
