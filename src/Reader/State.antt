-- ===== src/Reader/State.antt =====
-- The state of `MemoryReader` (scrutiny/server/device/submodules/memory_reader.py) and the methods that
-- start it, stop it and configure it.
-- Addresses and sizes are natural numbers: `MemoryRegion` refuses others before anything else is done.
use scrutiny.Prelude.{
  ℕ, Bool, true, false, not, ◌&&◌, Option, some, none, List, [], ◌∷◌, ◌++◌, Bytes, ltb,
  if◌then◌else◌,
}
use scrutiny.Prelude.Dict
use scrutiny.Prelude.Dict.{Dict}
use scrutiny.Values.DataType.{EmbeddedDataType}
use scrutiny.Values.Region.{MemoryRegion}
use scrutiny.Protocol.Request.{Request}
use scrutiny.Protocol.MemoryControl.{AddressFormat}

-- What the reader uses of a variable's entry in the datastore.
pub record Variable : Type 0 where
  pub entry_id : ℕ
  pub address : ℕ
  pub size : ℕ

-- The same for a runtime published value.
pub record Published : Type 0 where
  pub entry_id : ℕ
  pub id : ℕ
  pub datatype : EmbeddedDataType

-- A request for raw memory; `ticket` tells the caller's objects apart.
pub record RawMemoryReadRequest : Type 0 where
  pub ticket : ℕ
  pub address : ℕ
  pub size : ℕ

pub data Reason : Type 0 where
  no_reason stopping size_too_big out_of_bound forbidden_region refused no_response : Reason
  failed_with : Reason

-- What the reader tells others: a request's completion, with the data if it succeeded, and the bytes
-- of an entry.
pub data Event : Type 0 where
  set_completed : RawMemoryReadRequest → Option Bytes → Reason → Event
  set_value_from_data : ℕ → Bytes → Event

pub data ReadType : Type 0 where
  variable runtime_published_values raw_mem_read : ReadType

-- The parts of `Protocol` that the reader uses.
pub record Protocol : Type 0 where
  pub address_format : AddressFormat
  pub rpv_map : Dict EmbeddedDataType

-- The two sorted sets of watched entries are lists in their order.
pub record MemoryReader : Type 0 where
  pub request_priority : ℕ
  pub stop_requested : Bool
  pub pending_request : Option Request
  pub started : Bool
  pub max_request_payload_size : ℕ
  pub max_response_payload_size : ℕ
  pub forbidden_regions : List MemoryRegion
  pub watched_variables : List Variable
  pub watched_published : List Published
  pub memory_read_cursor : ℕ
  pub rpv_read_cursor : ℕ
  pub entries_in_pending_read_var_request : List Variable
  pub entries_in_pending_read_rpv_request : Dict Published
  pub actual_read_type : ReadType
  pub raw_read_request_queue : List RawMemoryReadRequest
  pub active_raw_read_request : Option RawMemoryReadRequest
  pub active_raw_read_request_cursor : ℕ
  pub active_raw_read_request_data : Bytes

unfoldable pub set_max_request_payload_size : MemoryReader → ℕ → MemoryReader
set_max_request_payload_size s max_size = record s { max_request_payload_size = max_size }

unfoldable pub set_max_response_payload_size : MemoryReader → ℕ → MemoryReader
set_max_response_payload_size s max_size = record s { max_response_payload_size = max_size }

unfoldable pub set_size_limits : MemoryReader → ℕ → ℕ → MemoryReader
unfolding set_max_request_payload_size set_max_response_payload_size
set_size_limits s request response =
    set_max_response_payload_size (set_max_request_payload_size s request) response

unfoldable pub add_forbidden_region : MemoryReader → ℕ → ℕ → MemoryReader
add_forbidden_region s start size =
    if ltb 0 size
    then record s {
      forbidden_regions = s.forbidden_regions ++ (record { start = start; size = size } ∷ []);
    }
    else s

unfoldable pub request_memory_read : MemoryReader → RawMemoryReadRequest → MemoryReader
request_memory_read s request = record s {
  raw_read_request_queue = s.raw_read_request_queue ++ (request ∷ []);
}

unfoldable pub start : MemoryReader → MemoryReader
start s = record s { started = true }

unfoldable pub stop : MemoryReader → MemoryReader
stop s = record s { stop_requested = true }

unfoldable pub fully_stopped : MemoryReader → Bool
fully_stopped s = not s.started && not s.stop_requested

unfoldable pub clear_active_raw_read_request : MemoryReader → MemoryReader
clear_active_raw_read_request s = record s {
  active_raw_read_request = none;
  active_raw_read_request_data = [];
  active_raw_read_request_cursor = 0;
}

-- The active request and the queued ones are told that the communication stops.
abbrev pub abandon : List RawMemoryReadRequest → List Event
abandon [] = []
abandon (r ∷ more) = set_completed r none stopping ∷ abandon more

abbrev pub abandon_active : Option RawMemoryReadRequest → List Event
abandon_active none = []
abandon_active (some r) = set_completed r none stopping ∷ []

unfoldable pub set_standby : MemoryReader → MemoryReader × List Event
unfolding clear_active_raw_read_request
set_standby s = (
  clear_active_raw_read_request (record s {
    stop_requested = false;
    pending_request = none;
    started = false;
    actual_read_type = variable;
    watched_variables = [];
    watched_published = [];
    memory_read_cursor = 0;
    rpv_read_cursor = 0;
    entries_in_pending_read_var_request = [];
    entries_in_pending_read_rpv_request = Dict.empty;
    raw_read_request_queue = [];
  }),
  abandon_active s.active_raw_read_request ++ abandon s.raw_read_request_queue,
)

unfoldable pub clear_config : MemoryReader → MemoryReader
clear_config s = record s {
  max_request_payload_size = 1024;
  max_response_payload_size = 1024;
  forbidden_regions = [];
}

unfoldable pub reset : MemoryReader → MemoryReader × List Event
unfolding set_standby clear_config
reset s = let (s', events) = set_standby s in (clear_config s', events)

-- MemoryReader(protocol, dispatcher, datastore, request_priority)
unfoldable pub make : ℕ → MemoryReader
make request_priority = record {
  request_priority = request_priority;
  stop_requested = false;
  pending_request = none;
  started = false;
  max_request_payload_size = 1024;
  max_response_payload_size = 1024;
  forbidden_regions = [];
  watched_variables = [];
  watched_published = [];
  memory_read_cursor = 0;
  rpv_read_cursor = 0;
  entries_in_pending_read_var_request = [];
  entries_in_pending_read_rpv_request = Dict.empty;
  actual_read_type = variable;
  raw_read_request_queue = [];
  active_raw_read_request = none;
  active_raw_read_request_cursor = 0;
  active_raw_read_request_data = [];
}
