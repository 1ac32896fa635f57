-- ===== src/Reader/Variables.antt =====
-- `make_next_var_entries_request` of scrutiny/server/device/submodules/memory_reader.py: the next
-- entries in turn are read in as few blocks as they lie in, within the limits of the device.
use scrutiny.Prelude.{
  ℕ, suc, ◌+◌, ◌/◌, Bool, true, false, Option, some, none, List, [], ◌∷◌, ◌++◌, map, get_elem?,
  length, ltb, leb, ◌||◌, if◌then◌else◌, Result, ok, err, index_error, ◌>>=◌,
}
use scrutiny.Memory.Cluster.{Cluster}
use scrutiny.Memory.Content.{MemoryContent, new, add_empty}
use scrutiny.Memory.Listing.{get_cluster_list_no_data_by_address}
use scrutiny.Values.Region.{MemoryRegion, touches}
use scrutiny.Protocol.Request.{Request}
use scrutiny.Protocol.MemoryControl.{AddressFormat, get_address_size_bytes, read_memory_blocks}
use scrutiny.Reader.State.{Variable, Protocol, MemoryReader}
use scrutiny.Reader.Loop.{loop}

-- watched[i]
abbrev pub entry_at {ℓ} : {A : Type ℓ} → List A → ℕ → Result A
entry_at l i = elim (get_elem? l i) [ none ↦ err index_error | some x ↦ ok x ]

-- The loop over the forbidden regions.
unfoldable pub touches_any : MemoryRegion → List MemoryRegion → Bool
touches_any region [] = false
touches_any region (f ∷ fs) = touches region f || touches_any region fs

abbrev pub region_of : Variable → MemoryRegion
region_of v = record { start = v.address; size = v.size }

unfoldable pub read_memory_response_overhead_size_per_block : AddressFormat → ℕ
read_memory_response_overhead_size_per_block f = get_address_size_bytes f + 2

unfoldable pub read_memory_request_size_per_block : AddressFormat → ℕ
read_memory_request_size_per_block f = get_address_size_bytes f + 2

unfoldable pub response_payload_size : AddressFormat → List Cluster → ℕ
unfolding read_memory_response_overhead_size_per_block
response_payload_size f [] = 0
response_payload_size f (c ∷ cs) =
    read_memory_response_overhead_size_per_block f + c.size + response_payload_size f cs

-- The variables of the loop.
pub record Scan : Type 0 where
  pub cursor : ℕ
  pub wrapped : Bool
  pub entries_in_request : List Variable
  pub skipped_entries_count : ℕ
  pub clusters_in_request : List Cluster
  pub memory_to_read : MemoryContent

-- len(entries_in_request) + skipped_entries_count
abbrev pub dealt : Scan → ℕ
dealt t = length t.entries_in_request + t.skipped_entries_count

unfoldable pub advance : ℕ → Scan → Scan
advance watched t =
    if leb watched (suc t.cursor)
    then record t { cursor = 0; wrapped = true }
    else record t { cursor = suc t.cursor }

-- The candidate is in the memory already: whether it fits, or the loop ends (`none`).
unfoldable pub fit : Protocol → MemoryReader → Scan → Variable → MemoryContent → Option Scan
unfolding response_payload_size read_memory_request_size_per_block
fit p s t candidate memory =
    let f = p.address_format in
    let clusters = get_cluster_list_no_data_by_address memory in
    if ltb (s.max_request_payload_size / read_memory_request_size_per_block f) (length clusters)
    then none
    else if ltb s.max_response_payload_size (response_payload_size f clusters)
    then none
    else some (record t {
      entries_in_request = t.entries_in_request ++ (candidate ∷ []);
      clusters_in_request = clusters;
      memory_to_read = memory;
    })

unfoldable pub consider : Protocol → MemoryReader → Scan → Variable → Result (Option Scan)
unfolding touches_any
consider p s t candidate =
    if touches_any (region_of candidate) s.forbidden_regions
    then ok (some (record t { skipped_entries_count = suc t.skipped_entries_count }))
    else (do
      memory ← add_empty t.memory_to_read candidate.address candidate.size
      ok (fit p s t candidate memory))

-- One round of the loop.
unfoldable pub visit : Protocol → MemoryReader → Scan → Result (Option Scan)
unfolding advance
visit p s t = do
  candidate ← entry_at s.watched_variables t.cursor
  next ← consider p s t candidate
  elim next [ none ↦ ok none | some t' ↦ ok (some (advance (length s.watched_variables) t')) ]

abbrev pub first_scan : MemoryReader → Scan
first_scan s = record {
  cursor =
      if leb (length s.watched_variables) s.memory_read_cursor then 0 else s.memory_read_cursor;
  wrapped = false;
  entries_in_request = [];
  skipped_entries_count = 0;
  clusters_in_request = [];
  memory_to_read = new false;
}

abbrev pub block_of : Cluster → ℕ × ℕ
block_of c = (c.start_addr, c.size)

-- The request for the blocks, if there are any.
unfoldable pub ask : AddressFormat → List (ℕ × ℕ) → Result (Option Request)
ask f [] = ok none
ask f (b ∷ bs) = do q ← read_memory_blocks f (b ∷ bs); ok (some q)

-- Each round takes an entry in or skips it, so one round more than there are entries is enough. Where the
-- source raises, its cursor has moved already; the model then returns no new state.
unfoldable pub make_next_var_entries_request :
    Protocol → MemoryReader → Result (MemoryReader × Option Request × List Variable × Bool)
unfolding ask loop
make_next_var_entries_request p s = do
  t ←
      loop (suc (length s.watched_variables)) dealt (length s.watched_variables) (visit p s)
        (first_scan s)
  request ← ask p.address_format (map block_of t.clusters_in_request)
  ok (record s { memory_read_cursor = t.cursor }, request, t.entries_in_request, t.wrapped)
