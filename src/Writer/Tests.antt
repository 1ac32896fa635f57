-- ===== src/Writer/Tests.antt =====
-- The memory writer (scrutiny/server/device/submodules/memory_writer.py) in small runs.
use scrutiny.Prelude.{
  ℕ, ◌%◌, ◌≡◌, refl, true, false, Option, some, none, [], ◌∷◌, ◌++◌, arith, Bytes, length, Result,
  ok, err, value_error, assertion_error,
}
use scrutiny.Prelude.Dict
use scrutiny.Values.DataType.{EmbeddedDataType, get_size_byte}
use scrutiny.Values.Region
use scrutiny.Protocol.Request.{Request}
use scrutiny.Protocol.MemoryControl.{AddressFormat}
use scrutiny.Dispatch.Queue.{failed}
use scrutiny.Dispatch.Dispatcher
use scrutiny.Dispatch.Dispatcher.{RequestDispatcher, register_request}
use scrutiny.Reader.State.{Protocol}
use scrutiny.Reader.Variables.{touches_any}
use scrutiny.Writer.State
use scrutiny.Writer.State.{
  Entry, Codec, UpdateTargetRequest, RawMemoryWriteRequest, Reason, Event, MemoryWriter,
  request_memory_write,
}
use scrutiny.Writer.Raw.{refusal, make_next_raw_memory_write_request}
use scrutiny.Writer.Entries.{permitted, valid_value}
use scrutiny.Writer.Process.{process}
use scrutiny.Writer.Device.{Cells, store, exchanges}
use scrutiny.Writer.Stored.{exchanges-store}
use scrutiny.Writer.Oversize.{make_next_raw_memory_write_request-critical_error}
use scrutiny.Writer.Updates.{refusals, entry_exchange, entry_exchange-store}
use scrutiny.Writer.Stuck.{process-complete}
use scrutiny.Writer.Repeated.{turns}

-- Numbers that may be no number, which an integer can not hold.
abbrev Number : Type 0
Number = Option ℕ

abbrev checked : Number → Result Number
checked none = err value_error
checked (some n) = ok (some n)

abbrev low_byte : Number → Bytes
low_byte none = []
low_byte (some n) = n % 256 ∷ []

abbrev codec : Codec Number
codec = record {
  make_value_valid = λ t v bitsize. checked v;
  encode_variable = λ t bitsize v. ok (low_byte v, none);
  encode_published = λ t v. ok (low_byte v);
}

abbrev protocol : Protocol
protocol = record {
  address_format = AddressFormat.bits_32;
  rpv_map = Dict.put Dict.empty 1 EmbeddedDataType.uint8;
}

-- A byte that may be written, and one that the device only lets read.
abbrev gain : Entry
gain = Entry.variable 0 1000 EmbeddedDataType.uint8 none

abbrev serial : Entry
serial = Entry.variable 1 2000 EmbeddedDataType.uint8 none

abbrev update_gain : UpdateTargetRequest Number
update_gain = record { ticket = 0; entry = gain; value = some (some 300) }

abbrev update_serial : UpdateTargetRequest Number
update_serial = record { ticket = 1; entry = serial; value = some (some 1) }

abbrev no_number : UpdateTargetRequest Number
no_number = record { ticket = 2; entry = gain; value = some none }

-- Requests of up to eight bytes.
abbrev writer : MemoryWriter Number
writer = record (State.make 5) {
  started = true;
  max_request_payload_size = 8;
  readonly_regions = record { start = 2000; size = 16 } ∷ [];
}

abbrev text : RawMemoryWriteRequest
text = record {
  ticket = 7;
  address = 5000;
  memory = 10 ∷ 20 ∷ 30 ∷ 40 ∷ 50 ∷ 60 ∷ 70 ∷ 80 ∷ 90 ∷ 100 ∷ [];
}

abbrev writing : MemoryWriter Number
writing = record writer { raw_write_request_queue = text ∷ [] }

text_allowed : refusal writing text ≡ none
unfolding refusal touches_any Region.touches State.make
text_allowed = refl

abbrev blank : Cells
blank = λ x. 0

exchanges-store_example :
    (s' : MemoryWriter Number) × (exchanges 11 protocol blank writing
      ≡ ok (s', store blank 5000 text.memory, Event.set_completed text true Reason.no_reason ∷ []))
    × (s'.active_raw_write_request ≡ none)
    × (s'.raw_write_request_queue ≡ [])
unfolding State.make
exchanges-store_example =
    exchanges-store protocol blank writing text [] refl refl refl text_allowed (omega arith)
      (omega arith) (omega arith) (omega arith)

-- The third cell of the ten, and the one behind them.
stored : (store blank 5000 text.memory 5002 ≡ 30) × (store blank 5000 text.memory 5010 ≡ 0)
unfolding store
stored = (refl, refl)

abbrev limited : RequestDispatcher (Unit {0})
limited = record (Dispatcher.make 10) { rx_data_size_limit = some 8 }

make_next_raw_memory_write_request-critical_error_example :
    (s' : MemoryWriter Number) × (q : Request) × (make_next_raw_memory_write_request
        AddressFormat.bits_32 writing
      ≡ (s', [], ok (some q)))
    × (length q.payload ≡ 14)
    × (register_request limited 0 q tt 5
        ≡ (record limited { critical_error = true }, failed tt q ∷ [], ok tt))
unfolding State.make
make_next_raw_memory_write_request-critical_error_example =
    make_next_raw_memory_write_request-critical_error protocol writing text [] limited 0 tt 5 refl
      refl refl text_allowed (omega arith) (omega arith) (omega arith) (omega arith) refl

abbrev updating : MemoryWriter Number
updating = record writer {
  target_update_request_queue = update_serial ∷ update_gain ∷ no_number ∷ [];
}

serial_refused : permitted updating serial ≡ false
unfolding permitted touches_any Region.touches State.make get_size_byte
serial_refused = refl

gain_allowed : permitted updating gain ≡ true
unfolding permitted touches_any Region.touches State.make get_size_byte
gain_allowed = refl

entry_exchange-store_example :
    (s' : MemoryWriter Number) × (entry_exchange codec protocol blank updating
      ≡ ok (
        s',
        store blank 1000 (44 ∷ []),
        refusals (update_serial ∷ [])
            ++ (Event.set_value gain (some (some 300)) ∷ Event.complete update_gain true ∷ []),
      ))
    × (s'.entry_being_updated ≡ none)
    × (s'.target_update_request_queue ≡ no_number ∷ [])
unfolding State.make
entry_exchange-store_example =
    entry_exchange-store codec protocol updating (update_serial ∷ []) update_gain (no_number ∷ []) 0
      1000 EmbeddedDataType.uint8 none (some 300) (some 300) (44 ∷ []) refl refl
      (serial_refused, tt) gain_allowed refl refl refl refl (omega arith) (omega arith) blank

abbrev stuck : MemoryWriter Number
stuck = record writer { target_update_request_queue = no_number ∷ update_gain ∷ [] }

abbrev failure : Event Number
failure = Event.complete no_number false

still_allowed : permitted stuck gain ≡ true
unfolding permitted touches_any Region.touches State.make get_size_byte
still_allowed = refl

process-complete_example :
    (s' : MemoryWriter Number) × (turns 3 codec protocol stuck 0 tt limited
      ≡ ((s', failure ∷ failure ∷ failure ∷ []), limited, ok tt))
    × (s'.target_update_request_queue ≡ update_gain ∷ [])
    × ((r : RawMemoryWriteRequest)
        → process codec protocol (request_memory_write s' r) 0 tt limited
          ≡ ((request_memory_write s' r, []), limited, err assertion_error))
unfolding State.make valid_value
process-complete_example =
    process-complete codec protocol stuck no_number (update_gain ∷ []) none value_error refl refl
      refl refl refl refl refl still_allowed refl refl 2 0 tt limited
