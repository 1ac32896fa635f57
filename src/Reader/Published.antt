-- ===== src/Reader/Published.antt =====
-- `make_next_read_rpv_request` of scrutiny/server/device/submodules/memory_reader.py: as many published
-- values in turn as the limits of the device allow.
use scrutiny.Prelude.{
  ℕ, suc, Bool, true, false, Option, some, none, List, [], ◌∷◌, ◌++◌, map, length, ltb, leb,
  if◌then◌else◌, Result, ok, ◌>>=◌,
}
use scrutiny.Values.DataType.{EmbeddedDataType}
use scrutiny.Protocol.Request.{Request}
use scrutiny.Protocol.MemoryControl.Rpv.{
  read_rpv_request_required_size, read_rpv_response_required_size, read_runtime_published_values,
}
use scrutiny.Reader.State.{Published, Protocol, MemoryReader}
use scrutiny.Reader.Loop.{loop}
use scrutiny.Reader.Variables.{entry_at}

-- The variables of the loop.
pub record Gather : Type 0 where
  pub cursor : ℕ
  pub wrapped : Bool
  pub entries_in_request : List Published

abbrev pub collected : Gather → ℕ
collected t = length t.entries_in_request

abbrev pub types_of : List Published → List EmbeddedDataType
types_of entries = map (λ e. e.datatype) entries

-- The candidates are kept, or the loop ends (`none`).
unfoldable pub keep : MemoryReader → Gather → List Published → Option Gather
unfolding read_rpv_request_required_size read_rpv_response_required_size
keep s t candidates =
    if ltb s.max_request_payload_size (read_rpv_request_required_size (types_of candidates))
    then none
    else if ltb s.max_response_payload_size (read_rpv_response_required_size (types_of candidates))
    then none
    else if leb (length s.watched_published) (suc t.cursor)
    then some (record { cursor = 0; wrapped = true; entries_in_request = candidates })
    else some (record t { cursor = suc t.cursor; entries_in_request = candidates })

unfoldable pub collect : MemoryReader → Gather → Result (Option Gather)
unfolding keep
collect s t = do
  next_entry ← entry_at s.watched_published t.cursor
  ok (keep s t (t.entries_in_request ++ (next_entry ∷ [])))

abbrev pub first_gather : MemoryReader → Gather
first_gather s = record {
  cursor = if leb (length s.watched_published) s.rpv_read_cursor then 0 else s.rpv_read_cursor;
  wrapped = false;
  entries_in_request = [];
}

abbrev pub ids_of : List Published → List ℕ
ids_of entries = map (λ (e : Published). e.id) entries

-- The request for the identifiers, if there are any.
unfoldable pub ask_rpv : Protocol → List ℕ → Result (Option Request)
ask_rpv p [] = ok none
ask_rpv p (id ∷ ids) = do q ← read_runtime_published_values p.rpv_map (id ∷ ids); ok (some q)

unfoldable pub make_next_read_rpv_request :
    Protocol → MemoryReader → Result (MemoryReader × Option Request × List Published × Bool)
unfolding loop collect ask_rpv
make_next_read_rpv_request p s = do
  t ←
      loop (suc (length s.watched_published)) collected (length s.watched_published) (collect s)
        (first_gather s)
  request ← ask_rpv p (ids_of t.entries_in_request)
  ok (record s { rpv_read_cursor = t.cursor }, request, t.entries_in_request, t.wrapped)
