-- ===== src/Writer/State.antt =====
-- The state of `MemoryWriter` (scrutiny/server/device/submodules/memory_writer.py) and the methods that
-- start it, stop it and configure it, over a type of values.
-- Addresses and sizes are natural numbers: `MemoryRegion` refuses others.
use scrutiny.Prelude.{
  ℕ, Bool, true, false, not, ◌&&◌, Option, some, none, List, [], ◌∷◌, ◌++◌, Bytes, ltb,
  if◌then◌else◌, Result,
}
use scrutiny.Values.DataType.{EmbeddedDataType}
use scrutiny.Values.Region.{MemoryRegion}
use scrutiny.Protocol.Request.{Request}

-- What the writer uses of an entry in the datastore.
pub data Entry : Type 0 where
  variable : ℕ → ℕ → EmbeddedDataType → Option ℕ → Entry
  published : ℕ → ℕ → EmbeddedDataType → Entry

-- How values become bytes: `Codecs.make_value_valid`, and the encoders of a variable (with a mask for a
-- bit field) and of a published value. Each may raise.
pub record Codec (V : Type 0) : Type 0 where
  pub make_value_valid : EmbeddedDataType → V → Option ℕ → Result V
  pub encode_variable : EmbeddedDataType → Option ℕ → V → Result (Bytes × Option Bytes)
  pub encode_published : EmbeddedDataType → V → Result Bytes

-- `ticket` tells the caller's objects apart.
pub record UpdateTargetRequest (V : Type 0) : Type 0 where
  pub ticket : ℕ
  pub entry : Entry
  pub value : Option V

pub record RawMemoryWriteRequest : Type 0 where
  pub ticket : ℕ
  pub address : ℕ
  pub memory : Bytes

pub data Reason : Type 0 where
  no_reason stopping forbidden read_only communication_error refused request_failed : Reason

pub data Event (V : Type 0) : Type 0 where
  set_completed : RawMemoryWriteRequest → Bool → Reason → Event V
  complete : UpdateTargetRequest V → Bool → Event V
  set_value : Entry → Option V → Event V

-- `target_update_request_queue` is that of the datastore.
pub record MemoryWriter (V : Type 0) : Type 0 where
  pub request_priority : ℕ
  pub stop_requested : Bool
  pub pending_request : Option Request
  pub started : Bool
  pub max_request_payload_size : ℕ
  pub max_response_payload_size : ℕ
  pub forbidden_regions : List MemoryRegion
  pub readonly_regions : List MemoryRegion
  pub memory_write_allowed : Bool
  pub entry_being_updated : Option Entry
  pub target_update_request_being_processed : Option (UpdateTargetRequest V)
  pub target_update_value_written : Option V
  pub raw_write_request_queue : List RawMemoryWriteRequest
  pub active_raw_write_request : Option RawMemoryWriteRequest
  pub active_raw_write_request_remaining_data : Option Bytes
  pub target_update_request_queue : List (UpdateTargetRequest V)

module _ {V : Type 0} where
  unfoldable pub set_max_request_payload_size : MemoryWriter V → ℕ → MemoryWriter V
  set_max_request_payload_size s max_size = record s { max_request_payload_size = max_size }

  unfoldable pub set_max_response_payload_size : MemoryWriter V → ℕ → MemoryWriter V
  set_max_response_payload_size s max_size = record s { max_response_payload_size = max_size }

  unfoldable pub set_size_limits : MemoryWriter V → ℕ → ℕ → MemoryWriter V
  unfolding set_max_request_payload_size set_max_response_payload_size
  set_size_limits s request response =
      set_max_response_payload_size (set_max_request_payload_size s request) response

  unfoldable pub add_forbidden_region : MemoryWriter V → ℕ → ℕ → MemoryWriter V
  add_forbidden_region s start size =
      if ltb 0 size
      then record s {
        forbidden_regions = s.forbidden_regions ++ (record { start = start; size = size } ∷ []);
      }
      else s

  unfoldable pub add_readonly_region : MemoryWriter V → ℕ → ℕ → MemoryWriter V
  add_readonly_region s start size =
      if ltb 0 size
      then record s {
        readonly_regions = s.readonly_regions ++ (record { start = start; size = size } ∷ []);
      }
      else s

  unfoldable pub request_memory_write : MemoryWriter V → RawMemoryWriteRequest → MemoryWriter V
  request_memory_write s request = record s {
    raw_write_request_queue = s.raw_write_request_queue ++ (request ∷ []);
  }

  unfoldable pub start : MemoryWriter V → MemoryWriter V
  start s = record s { started = true }

  unfoldable pub stop : MemoryWriter V → MemoryWriter V
  stop s = record s { stop_requested = true }

  unfoldable pub fully_stopped : MemoryWriter V → Bool
  fully_stopped s = not s.started && not s.stop_requested

  unfoldable pub allow_memory_write : MemoryWriter V → Bool → MemoryWriter V
  allow_memory_write s allowed = record s { memory_write_allowed = allowed }

  unfoldable pub clear_active_raw_write_request : MemoryWriter V → MemoryWriter V
  clear_active_raw_write_request s = record s {
    active_raw_write_request = none;
    active_raw_write_request_remaining_data = none;
  }

  unfoldable pub clear_active_entry_write_request : MemoryWriter V → MemoryWriter V
  clear_active_entry_write_request s = record s {
    entry_being_updated = none;
    target_update_request_being_processed = none;
    target_update_value_written = none;
  }

  abbrev pub abandon : List RawMemoryWriteRequest → List (Event V)
  abandon [] = []
  abandon (r ∷ more) = set_completed r false stopping ∷ abandon more

  abbrev pub abandon_active : Option RawMemoryWriteRequest → List (Event V)
  abandon_active none = []
  abandon_active (some r) = set_completed r false stopping ∷ []

  abbrev pub abandon_update : Option (UpdateTargetRequest V) → List (Event V)
  abandon_update none = []
  abandon_update (some u) = complete u false ∷ []

  unfoldable pub set_standby : MemoryWriter V → MemoryWriter V × List (Event V)
  unfolding clear_active_raw_write_request clear_active_entry_write_request
  set_standby s = (
    clear_active_raw_write_request (
        clear_active_entry_write_request (record s {
          stop_requested = false;
          pending_request = none;
          started = false;
          raw_write_request_queue = [];
        })),
    abandon_active s.active_raw_write_request
        ++ (abandon s.raw_write_request_queue
            ++ abandon_update s.target_update_request_being_processed),
  )

  unfoldable pub clear_config : MemoryWriter V → MemoryWriter V
  clear_config s = record s {
    max_request_payload_size = 1024;
    max_response_payload_size = 1024;
    forbidden_regions = [];
    readonly_regions = [];
    memory_write_allowed = true;
  }

  unfoldable pub reset : MemoryWriter V → MemoryWriter V × List (Event V)
  unfolding set_standby clear_config
  reset s = let (s', events) = set_standby s in (clear_config s', events)

  unfoldable pub make : ℕ → MemoryWriter V
  make priority = record {
    request_priority = priority;
    stop_requested = false;
    pending_request = none;
    started = false;
    max_request_payload_size = 1024;
    max_response_payload_size = 1024;
    forbidden_regions = [];
    readonly_regions = [];
    memory_write_allowed = true;
    entry_being_updated = none;
    target_update_request_being_processed = none;
    target_update_value_written = none;
    raw_write_request_queue = [];
    active_raw_write_request = none;
    active_raw_write_request_remaining_data = none;
    target_update_request_queue = [];
  }
