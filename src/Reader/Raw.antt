-- ===== src/Reader/Raw.antt =====
-- `make_next_raw_mem_read_request` of scrutiny/server/device/submodules/memory_reader.py: the next piece
-- of the raw memory that someone asked for.
use scrutiny.Prelude.{
  ℕ, ◌+◌, ◌-◌, Bool, true, Option, some, none, List, [], ◌∷◌, min, ltb, leb, if◌then◌else◌, Result,
  ok, err,
}
use scrutiny.Protocol.Request.{Request}
use scrutiny.Protocol.MemoryControl.{address_count}
use scrutiny.Protocol.MemoryControl.Ranges.{read_single_memory_block}
use scrutiny.Values.Region.{MemoryRegion}
use scrutiny.Reader.State.{
  RawMemoryReadRequest, Reason, Event, Protocol, MemoryReader, clear_active_raw_read_request,
}
use scrutiny.Reader.Variables.{touches_any}

-- MAX_RAW_READ_SIZE
abbrev pub max_raw_read_size : ℕ
max_raw_read_size = 16383

-- Why a request is refused before it is sent, if it is.
unfoldable pub refusal : Protocol → MemoryReader → RawMemoryReadRequest → Option Reason
unfolding touches_any
refusal p s r =
    let region : MemoryRegion = record { start = r.address; size = r.size } in
    if ltb max_raw_read_size r.size
    then some Reason.size_too_big
    else if leb (address_count p.address_format) (r.address + r.size)
    then some Reason.out_of_bound
    else if touches_any region s.forbidden_regions
    then some Reason.forbidden_region
    else none

-- The loop that takes requests off the queue until one may be sent.
unfoldable pub activate :
    Protocol → MemoryReader → List RawMemoryReadRequest → MemoryReader × List Event
unfolding refusal clear_active_raw_read_request
activate p s [] = (record s { raw_read_request_queue = [] }, [])
activate p s (r ∷ rest) =
    let s' = record (clear_active_raw_read_request s) { raw_read_request_queue = rest } in
    elim (refusal p s r) [
      | none ↦ (record s' { active_raw_read_request = some r }, [])
      | some reason ↦
          let (last, events) = activate p s' rest in
          (last, Event.set_completed r none reason ∷ events)
    ]

-- The new state, what was told, and the request with whether it is the last of its kind.
abbrev pub Piece : Type 0
Piece = MemoryReader × List Event × Result (Option Request × Bool)

unfoldable pub next_piece : Protocol → MemoryReader → RawMemoryReadRequest → List Event → Piece
next_piece p s r events =
    let size = min s.max_response_payload_size (r.size - s.active_raw_read_request_cursor) in
    let address = r.address + s.active_raw_read_request_cursor in
    let cursor = s.active_raw_read_request_cursor + size in
    elim (read_single_memory_block p.address_format address size) [
      | err e ↦ (s, events, err e)
      | ok q ↦ (
        record s { active_raw_read_request_cursor = cursor },
        events,
        ok (some q, leb r.size cursor),
      )
    ]

unfoldable pub piece_of : Protocol → MemoryReader → List Event → Option RawMemoryReadRequest → Piece
unfolding next_piece
piece_of p s events none = (s, events, ok (none, true))
piece_of p s events (some r) = next_piece p s r events

unfoldable pub piece_for : Protocol → MemoryReader → Option RawMemoryReadRequest → Piece
unfolding next_piece activate piece_of
piece_for p s (some r) = next_piece p s r []
piece_for p s none =
    let (s', events) = activate p s s.raw_read_request_queue in
    piece_of p s' events s'.active_raw_read_request

unfoldable pub make_next_raw_mem_read_request : Protocol → MemoryReader → Piece
unfolding piece_for
make_next_raw_mem_read_request p s = piece_for p s s.active_raw_read_request
