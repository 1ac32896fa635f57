-- ===== src/Connect/Session.antt =====
-- scrutiny/server/device/submodules/session_initializer.py
-- Times are whole microseconds of the monotonic clock, read by the caller.
use scrutiny.Prelude.{
  ℕ, Bool, true, false, not, ◌&&◌, Option, some, none, ◌==◌, if◌then◌else◌, Result, ok,
}
use scrutiny.Protocol.Response
use scrutiny.Protocol.Response.{Response}
use scrutiny.Protocol.CommControl
use scrutiny.Protocol.CommControl.{CommData}
use scrutiny.Dispatch.Dispatcher.{RequestDispatcher}
use scrutiny.Connect.Submit.{Answer, submit}
use scrutiny.Connect.Heartbeat.{due}

pub record SessionInitializer : Type 0 where
  pub priority : ℕ
  pub connection_pending : Bool
  pub stop_requested : Bool
  pub started : Bool
  pub last_connect_sent : Option ℕ
  pub success : Bool
  pub error : Bool
  pub session_id : Option ℕ

abbrev pub reconnect_delay : ℕ
reconnect_delay = 1_000_000

unfoldable pub make : ℕ → SessionInitializer
make priority = record {
  priority = priority;
  connection_pending = false;
  stop_requested = false;
  started = false;
  last_connect_sent = none;
  success = false;
  error = false;
  session_id = none;
}

unfoldable pub start : SessionInitializer → SessionInitializer
start s = record s { started = true; stop_requested = false }

unfoldable pub stop : SessionInitializer → SessionInitializer
stop s = record s { stop_requested = true }

unfoldable pub fully_stopped : SessionInitializer → Bool
fully_stopped s = not s.started && not s.stop_requested

unfoldable pub reset : SessionInitializer → SessionInitializer
reset s = make s.priority

-- completed()
unfoldable pub completed : SessionInitializer → SessionInitializer
completed s =
    if s.stop_requested
    then reset (record s { connection_pending = false })
    else record s { connection_pending = false }

-- The source reads a session identifier of whatever it was answered: a heartbeat has one too.
unfoldable pub accepted : SessionInitializer → Result CommData → SessionInitializer
accepted s (ok (CommData.connected magic session_id)) = record s {
  session_id = some session_id;
  success = true;
}
accepted s (ok (CommData.beaten session_id answer)) = record s {
  session_id = some session_id;
  success = true;
}
accepted s _ = record s { error = true }

unfoldable pub success_callback : SessionInitializer → Response → SessionInitializer
success_callback s r =
    completed
      (if Response.code_value r.code == 0 then accepted s (CommControl.parse_response r) else s)

unfoldable pub failure_callback : SessionInitializer → SessionInitializer
failure_callback s = completed (record s { error = true })

unfoldable pub send :
    {K : Type 0} → SessionInitializer → ℕ → K → RequestDispatcher K → Answer SessionInitializer K
send s now k d =
    submit d now CommControl.comm_connect k s.priority
      (record s { success = false; last_connect_sent = some now }) failure_callback
      (λ s'. record s' { connection_pending = true })

unfoldable pub process :
    {K : Type 0} → SessionInitializer → ℕ → K → RequestDispatcher K → Answer SessionInitializer K
process s now k d =
    if not s.started
    then (reset s, d, ok tt)
    else if s.error
    then (if s.stop_requested then (reset s, d, ok tt) else (s, d, ok tt))
    else if not s.connection_pending && s.stop_requested
    then (reset s, d, ok tt)
    else if not s.connection_pending && due s.last_connect_sent reconnect_delay now
    then send s now k d
    else (s, d, ok tt)
