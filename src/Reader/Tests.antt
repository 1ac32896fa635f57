-- ===== src/Reader/Tests.antt =====
-- The memory reader (scrutiny/server/device/submodules/memory_reader.py) in small runs.
use scrutiny.Prelude.{
  ℕ, ◌+◌, ◌-◌, ◌≤◌, ◌<◌, ◌≡◌, refl, Bool, true, false, Option, some, none, List, [], ◌∷◌, arith,
  leb, All, ok, err, assertion_error,
}
use scrutiny.Prelude.Dict
use scrutiny.Values.DataType.{EmbeddedDataType}
use scrutiny.Values.Region
use scrutiny.Protocol.Commands.{Command}
use scrutiny.Protocol.Request
use scrutiny.Protocol.Request.{Request}
use scrutiny.Protocol.Response.{Response}
use scrutiny.Protocol.MemoryControl
use scrutiny.Protocol.MemoryControl.{AddressFormat}
use scrutiny.Memory.Cluster
use scrutiny.Memory.Content
use scrutiny.Memory.Listing
use scrutiny.Reader.Loop
use scrutiny.Dispatch.Queue.{failed}
use scrutiny.Dispatch.Dispatcher
use scrutiny.Dispatch.Dispatcher.{RequestDispatcher, register_request}
use scrutiny.Reader.State
use scrutiny.Reader.State.{
  Variable, Published, RawMemoryReadRequest, Reason, Event, Protocol, MemoryReader,
}
use scrutiny.Reader.Variables
use scrutiny.Reader.Variables.{make_next_var_entries_request, touches_any, region_of}
use scrutiny.Reader.Published.{make_next_read_rpv_request}
use scrutiny.Reader.Raw.{make_next_raw_mem_read_request, refusal}
use scrutiny.Reader.Callbacks.{success_callback, failure_callback}
use scrutiny.Reader.Turns.{turn, around, permitted}
use scrutiny.Reader.Asking.{Asked}
use scrutiny.Reader.Requests
use scrutiny.Reader.Requests.{
  first_cursor, make_next_var_entries_request-Asked, make_next_var_entries_request_in_turn,
}
use scrutiny.Reader.Polled.{Known}
use scrutiny.Reader.PolledTurns
use scrutiny.Reader.PolledTurns.{Polls, make_next_read_rpv_request_in_turn}
use scrutiny.Reader.Device.{cells, exchanges}
use scrutiny.Reader.Reassembly.{exchanges-completes}
use scrutiny.Reader.Mistakes.{register_request-oversize, success_callback-stale_entries}

abbrev protocol : Protocol
protocol = record {
  address_format = AddressFormat.bits_32;
  rpv_map = Dict.put (Dict.put Dict.empty 1 EmbeddedDataType.uint32) 2 EmbeddedDataType.uint8;
}

-- Four bytes, two right behind them, and two that the device forbids to read.
abbrev counter : Variable
counter = record { entry_id = 0; address = 1000; size = 4 }

abbrev flags : Variable
flags = record { entry_id = 1; address = 1004; size = 2 }

abbrev secret : Variable
secret = record { entry_id = 2; address = 2000; size = 2 }

abbrev speed : Published
speed = record { entry_id = 3; id = 1; datatype = EmbeddedDataType.uint32 }

abbrev mode : Published
mode = record { entry_id = 4; id = 2; datatype = EmbeddedDataType.uint8 }

-- Room for twelve bytes of an answer.
abbrev reader : MemoryReader
reader = record (State.make 5) {
  started = true;
  max_response_payload_size = 12;
  forbidden_regions = record { start = 2001; size = 16 } ∷ [];
  watched_variables = counter ∷ flags ∷ secret ∷ [];
  watched_published = speed ∷ mode ∷ [];
  memory_read_cursor = 2;
}

full : All (λ (v : Variable). 0 < v.size) reader.watched_variables
full = (omega arith, (omega arith, (omega arith, tt)))

-- The two neighbours are read in one block.
neighbours :
    (t : MemoryReader) × (q : Request) × (make_next_var_entries_request protocol reader
      ≡ ok (t, some q, counter ∷ flags ∷ [], true))
    × (t.memory_read_cursor ≡ 2)
    × (q.payload ≡ 0 ∷ 0 ∷ 3 ∷ 232 ∷ 0 ∷ 6 ∷ [])
unfolding make_next_var_entries_request Variables.visit Variables.consider Region.touches
    Content.add_empty Content.delete Cluster.make Content.delete_loop Content.delete_round
    Content.new Content.agglomerate Content.agglomerate_loop Content.bisect Content.touching
    Dict.get Dict.put Variables.fit State.make Cluster.add Cluster.all_data Cluster.extend
    Cluster.read Content.insert Content.merge_next Content.write_cluster Listing.bare
    Listing.get_cluster_list_no_data_by_address Listing.insert_by_address Listing.sort_by_address
    Dict.empty Dict.items Dict.lookup Dict.remove MemoryControl.encode_address
    MemoryControl.encode_ranges MemoryControl.read_memory_blocks Loop.loop Variables.advance
    Variables.ask Variables.read_memory_request_size_per_block
    Variables.read_memory_response_overhead_size_per_block Variables.response_payload_size
    touches_any Content.delete_near
neighbours = (_, _, refl, refl, refl)

make_next_var_entries_request-Asked_example :
    (s' : MemoryReader) × (out : Option Request) × (entries : List Variable) × (wrapped : Bool)
    × (make_next_var_entries_request protocol reader ≡ ok (s', out, entries, wrapped))
    × Asked protocol reader entries out
    × All (λ (v : Variable). touches_any (region_of v) reader.forbidden_regions ≡ false) entries
unfolding State.make
make_next_var_entries_request-Asked_example =
    make_next_var_entries_request-Asked protocol reader full (omega arith)

make_next_var_entries_request_in_turn_example :
    (taken : ℕ) × (s' : MemoryReader) × (out : Option Request) × (taken ≤ 3)
    × (make_next_var_entries_request protocol reader
        ≡ ok (
          s',
          out,
          permitted reader.forbidden_regions (turn reader.watched_variables 2 taken),
          leb 3 (2 + taken),
        ))
    × (s'.memory_read_cursor ≡ around 3 (2 + taken))
    × Requests.Stopped protocol reader full (omega arith) taken
unfolding State.make
make_next_var_entries_request_in_turn_example =
    make_next_var_entries_request_in_turn protocol reader full (omega arith) (omega arith)

known : All (Known protocol.rpv_map) reader.watched_published
unfolding Dict.get Dict.put Dict.empty
known = ((refl, omega arith), ((refl, omega arith), tt))

-- Six bytes for the one and three for the other are in the limit.
make_next_read_rpv_request_in_turn_example :
    (taken : ℕ) × (s' : MemoryReader) × (out : Option Request) × (taken ≤ 2)
    × (make_next_read_rpv_request protocol reader
        ≡ ok (s', out, turn reader.watched_published 0 taken, leb 2 (0 + taken)))
    × (s'.rpv_read_cursor ≡ around 2 (0 + taken))
    × Polls protocol reader (turn reader.watched_published 0 taken) out
    × PolledTurns.Stopped protocol reader known taken
unfolding State.make
make_next_read_rpv_request_in_turn_example =
    make_next_read_rpv_request_in_turn protocol reader known (omega arith)

-- Thirty bytes from address 5000 on, in pieces of twelve.
abbrev dump : RawMemoryReadRequest
dump = record { ticket = 7; address = 5000; size = 30 }

abbrev dumping : MemoryReader
dumping = record reader { raw_read_request_queue = dump ∷ [] }

dump_allowed : refusal protocol dumping dump ≡ none
unfolding refusal touches_any Region.touches
dump_allowed = refl

abbrev low_byte : ℕ → ℕ
low_byte x = x - 4990

exchanges-completes_example :
    (s' : MemoryReader) × (exchanges 31 protocol low_byte dumping
      ≡ ok (s', Event.set_completed dump (some (cells low_byte 5000 30)) Reason.no_reason ∷ []))
    × (s'.active_raw_read_request ≡ none)
    × (s'.raw_read_request_queue ≡ [])
unfolding State.make
exchanges-completes_example =
    exchanges-completes protocol low_byte dumping dump [] refl refl refl dump_allowed (omega arith)
      (omega arith)

abbrev limited : RequestDispatcher (Unit {0})
limited = record (Dispatcher.make 10) { tx_data_size_limit = some 12 }

register_request-oversize_example :
    (s' : MemoryReader) × (q : Request) × (last : Bool) × (make_next_raw_mem_read_request protocol
        dumping
      ≡ (s', [], ok (some q, last)))
    × (Request.get_expected_response_data_size q ≡ 18)
    × (register_request limited 0 q tt 5
        ≡ (record limited { critical_error = true }, failed tt q ∷ [], ok tt))
unfolding State.make
register_request-oversize_example =
    register_request-oversize protocol dumping dump [] refl refl dump_allowed limited 0 tt 5
      (omega arith) refl

-- The read of the counter is refused or lost, and a raw read is next.
abbrev waiting : MemoryReader
waiting = record dumping { entries_in_pending_read_var_request = counter ∷ [] }

abbrev lost : Request
lost = record {
  command = Command.memory_control;
  subfn = 1;
  payload = [];
  response_payload_size = 0;
}

success_callback-stale_entries_example :
    (s' : MemoryReader) × (q : Request) × (last : Bool) × (make_next_raw_mem_read_request protocol
        (failure_callback waiting lost).0
      ≡ (s', [], ok (some q, last)))
    × ((r : Response)
        → r.subfn ≡ 1
        → success_callback protocol (record s' { pending_request = some q }) q r
          ≡ (record s' { pending_request = some q }, [], err assertion_error))
unfolding State.make refusal
success_callback-stale_entries_example =
    success_callback-stale_entries protocol waiting lost counter [] dump [] refl refl refl
      dump_allowed
