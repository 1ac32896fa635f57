-- ===== src/Connect/Searcher.antt =====
-- scrutiny/server/device/submodules/device_searcher.py
-- Times are whole microseconds of the monotonic clock, read by the caller.
use scrutiny.Prelude.{
  ℕ, ◌-◌, Bool, true, false, not, ◌&&◌, Option, some, none, ltb, ◌==◌, if◌then◌else◌, Bytes, Result,
  ok, err,
}
use scrutiny.Protocol.Response
use scrutiny.Protocol.Response.{Response}
use scrutiny.Protocol.CommControl
use scrutiny.Protocol.CommControl.{CommData}
use scrutiny.Dispatch.Dispatcher.{RequestDispatcher}
use scrutiny.Connect.Submit.{Answer, submit}
use scrutiny.Connect.Heartbeat.{due}

pub record DeviceSearcher : Type 0 where
  pub priority : ℕ
  pub pending : Bool
  pub last_request_timestamp : Option ℕ
  pub found_device_timestamp : ℕ
  pub started : Bool
  pub found_device : Option CommData

abbrev pub discover_interval : ℕ
discover_interval = 500_000

abbrev pub device_gone_delay : ℕ
device_gone_delay = 3_000_000

unfoldable pub make : ℕ → ℕ → DeviceSearcher
make priority now = record {
  priority = priority;
  pending = false;
  last_request_timestamp = none;
  found_device_timestamp = now;
  started = false;
  found_device = none;
}

unfoldable pub start : DeviceSearcher → DeviceSearcher
start s = record s { started = true }

unfoldable pub stop : DeviceSearcher → DeviceSearcher
stop s = record s { started = false }

unfoldable pub fully_stopped : DeviceSearcher → Bool
fully_stopped s = not s.started

unfoldable pub reset : DeviceSearcher → ℕ → DeviceSearcher
reset s now = make s.priority now

unfoldable pub device_found : DeviceSearcher → Bool
device_found s = elim s.found_device [ none ↦ false | some x ↦ true ]

abbrev pub firmware_of : CommData → Option Bytes
firmware_of (CommData.discovered major minor firmware_id name) = some firmware_id
firmware_of _ = none

unfoldable pub get_device_firmware_id : DeviceSearcher → Option Bytes
get_device_firmware_id s = elim s.found_device [ none ↦ none | some x ↦ firmware_of x ]

abbrev pub version_of : CommData → Option (ℕ × ℕ)
version_of (CommData.discovered major minor firmware_id name) = some (major, minor)
version_of _ = none

unfoldable pub get_device_protocol_version : DeviceSearcher → Option (ℕ × ℕ)
get_device_protocol_version s = elim s.found_device [ none ↦ none | some x ↦ version_of x ]

unfoldable pub completed : DeviceSearcher → DeviceSearcher
completed s = record s { pending = false }

unfoldable pub failure_callback : DeviceSearcher → DeviceSearcher
failure_callback s = completed (record s { found_device = none })

unfoldable pub answered : DeviceSearcher → ℕ → Result CommData → DeviceSearcher
answered s now (ok data') = record s { found_device_timestamp = now; found_device = some data' }
answered s now (err e) = record s { found_device = none }

unfoldable pub success_callback : DeviceSearcher → ℕ → Response → DeviceSearcher
success_callback s now r = completed (
    if not s.started
    then s
    else if Response.code_value r.code == 0
    then answered s now (CommControl.parse_response r)
    else record s { found_device = none })

-- A device that was last seen too long ago is gone.
unfoldable pub forget : DeviceSearcher → ℕ → DeviceSearcher
forget s now =
    if ltb device_gone_delay (now - s.found_device_timestamp)
    then record s { found_device = none }
    else s

unfoldable pub send :
    {K : Type 0} → DeviceSearcher → ℕ → K → RequestDispatcher K → Answer DeviceSearcher K
send s now k d =
    submit d now CommControl.comm_discover k s.priority s failure_callback
      (λ s'. record s' { pending = true; last_request_timestamp = some now })

unfoldable pub poll :
    {K : Type 0} → DeviceSearcher → ℕ → K → RequestDispatcher K → Answer DeviceSearcher K
poll s now k d =
    if not s.pending && due s.last_request_timestamp discover_interval now
    then send s now k d
    else (s, d, ok tt)

unfoldable pub process :
    {K : Type 0} → DeviceSearcher → ℕ → K → RequestDispatcher K → Answer DeviceSearcher K
process s now k d = if not s.started then (reset s now, d, ok tt) else poll (forget s now) now k d
