-- ===== src/Writer/Raw.antt =====
-- `make_next_raw_memory_write_request` of scrutiny/server/device/submodules/memory_writer.py.
use scrutiny.Prelude.{
  ◌+◌, ◌-◌, Option, some, none, List, [], ◌∷◌, min, Bytes, length, take, drop, false, if◌then◌else◌,
  Result, ok, err, assertion_error,
}
use scrutiny.Values.Region.{MemoryRegion}
use scrutiny.Protocol.Request.{Request}
use scrutiny.Protocol.MemoryControl.{AddressFormat}
use scrutiny.Protocol.MemoryControl.Ranges.{write_single_memory_block}
use scrutiny.Reader.Variables.{touches_any}
use scrutiny.Writer.State.{
  RawMemoryWriteRequest, Reason, Event, MemoryWriter, clear_active_raw_write_request,
}

-- The new state, what was told, and the request.
abbrev pub Piece : Type 0 → Type 0
Piece V = MemoryWriter V × List (Event V) × Result (Option Request)

module _ {V : Type 0} where
  -- Why a request is refused before it is sent, if it is.
  unfoldable pub refusal : MemoryWriter V → RawMemoryWriteRequest → Option Reason
  unfolding touches_any
  refusal s r =
      let region : MemoryRegion = record { start = r.address; size = length r.memory } in
      if touches_any region s.forbidden_regions
      then some Reason.forbidden
      else if touches_any region s.readonly_regions
      then some Reason.read_only
      else none

  -- The loop that takes requests off the queue until one may be sent.
  unfoldable pub activate :
      MemoryWriter V → List RawMemoryWriteRequest → MemoryWriter V × List (Event V)
  unfolding refusal clear_active_raw_write_request
  activate s [] = (record s { raw_write_request_queue = [] }, [])
  activate s (r ∷ rest) =
      let s' = record (clear_active_raw_write_request s) { raw_write_request_queue = rest } in
      elim (refusal s r) [
        | none ↦ (
          record s' {
            active_raw_write_request = some r;
            active_raw_write_request_remaining_data = some r.memory;
          },
          [],
        )
        | some reason ↦
            let (last, events) = activate s' rest in
            (last, Event.set_completed r false reason ∷ events)
      ]

  unfoldable pub next_piece :
      AddressFormat
      → MemoryWriter V
      → List (Event V)
      → RawMemoryWriteRequest
      → Option Bytes
      → Piece V
  next_piece f s events r none = (s, events, err assertion_error)
  next_piece f s events r (some remaining) =
      let cursor = length r.memory - length remaining in
      let n_to_write = min s.max_request_payload_size (length remaining) in
      let s' = record s {
        active_raw_write_request_remaining_data = some (drop n_to_write remaining);
      } in
      elim (write_single_memory_block f (r.address + cursor) (take n_to_write remaining)) [
        | err e ↦ (s', events, err e)
        | ok q ↦ (s', events, ok (some q))
      ]

  unfoldable pub piece_of :
      AddressFormat → MemoryWriter V → List (Event V) → Option RawMemoryWriteRequest → Piece V
  unfolding next_piece
  piece_of f s events none = (s, events, ok none)
  piece_of f s events (some r) = next_piece f s events r s.active_raw_write_request_remaining_data

  unfoldable pub piece_for : AddressFormat → MemoryWriter V → Option RawMemoryWriteRequest → Piece V
  unfolding piece_of activate
  piece_for f s (some r) = piece_of f s [] (some r)
  piece_for f s none =
      let (s', events) = activate s s.raw_write_request_queue in
      piece_of f s' events s'.active_raw_write_request

  unfoldable pub make_next_raw_memory_write_request : AddressFormat → MemoryWriter V → Piece V
  unfolding piece_for
  make_next_raw_memory_write_request f s = piece_for f s s.active_raw_write_request
