-- ===== src/Connect/Heartbeat.antt =====
-- scrutiny/server/device/submodules/heartbeat_generator.py
-- Times are whole microseconds of the monotonic clock, read by the caller.
use scrutiny.Prelude.{
  ℕ, suc, ◌-◌, ◌%◌, Bool, true, false, not, ◌&&◌, Option, some, none, ltb, ◌==◌, if◌then◌else◌,
  Result, ok, err,
}
use scrutiny.Protocol.Response
use scrutiny.Protocol.Response.{Response}
use scrutiny.Protocol.CommControl
use scrutiny.Protocol.CommControl.{CommData}
use scrutiny.Dispatch.Dispatcher.{RequestDispatcher}
use scrutiny.Connect.Submit.{Answer, submit}

pub record HeartbeatGenerator : Type 0 where
  pub priority : ℕ
  pub session_id : Option ℕ
  pub last_heartbeat_request : Option ℕ
  pub last_heartbeat_timestamp : ℕ
  pub challenge : ℕ
  pub interval : ℕ
  pub pending : Bool
  pub started : Bool

unfoldable pub make : ℕ → ℕ → HeartbeatGenerator
make priority now = record {
  priority = priority;
  session_id = none;
  last_heartbeat_request = none;
  last_heartbeat_timestamp = now;
  challenge = 0;
  interval = 3_000_000;
  pending = false;
  started = false;
}

unfoldable pub set_interval : HeartbeatGenerator → ℕ → HeartbeatGenerator
set_interval g interval = record g { interval = interval }

unfoldable pub set_session_id : HeartbeatGenerator → ℕ → HeartbeatGenerator
set_session_id g session_id = record g { session_id = some session_id }

unfoldable pub start : HeartbeatGenerator → ℕ → HeartbeatGenerator
start g now = record g { started = true; last_heartbeat_timestamp = now }

unfoldable pub stop : HeartbeatGenerator → HeartbeatGenerator
stop g = record g { started = false }

unfoldable pub fully_stopped : HeartbeatGenerator → Bool
fully_stopped g = not g.started

unfoldable pub reset : HeartbeatGenerator → HeartbeatGenerator
reset g = record g { pending = false; started = false; session_id = none }

unfoldable pub completed : HeartbeatGenerator → HeartbeatGenerator
completed g = record g { challenge = suc g.challenge % 65536; pending = false }

-- Whether the last request is longer ago than the interval.
abbrev pub due : Option ℕ → ℕ → ℕ → Bool
due none interval now = true
due (some t) interval now = ltb interval (now - t)

unfoldable pub send :
    {K : Type 0}
    → HeartbeatGenerator
    → ℕ
    → K
    → RequestDispatcher K
    → Option ℕ
    → Answer HeartbeatGenerator K
send g now k d none = (g, d, ok tt)
send g now k d (some session_id) = elim (CommControl.comm_heartbeat session_id g.challenge) [
  | err e ↦ (g, d, err e)
  | ok q ↦
      submit d now q k g.priority g completed
        (λ g'. record g' { pending = true; last_heartbeat_request = some now })
]

unfoldable pub process :
    {K : Type 0} → HeartbeatGenerator → ℕ → K → RequestDispatcher K → Answer HeartbeatGenerator K
process g now k d =
    if not g.started
    then (reset g, d, ok tt)
    else if not g.pending && due g.last_heartbeat_request g.interval now
    then send g now k d g.session_id
    else (g, d, ok tt)

-- The parsed response against the session and the challenge; an exception is only logged.
unfoldable pub check_echo : HeartbeatGenerator → ℕ → Result CommData → Option ℕ → HeartbeatGenerator
check_echo g now (ok (CommData.beaten id answer)) (some session_id) =
    if id == session_id && (answer == CommControl.heartbeat_expected_challenge_response g.challenge)
    then record g { last_heartbeat_timestamp = now }
    else g
check_echo g now _ _ = g

unfoldable pub success_callback : HeartbeatGenerator → ℕ → Response → HeartbeatGenerator
success_callback g now r = completed (
    if g.started && (Response.code_value r.code == 0)
    then check_echo g now (CommControl.parse_response r) g.session_id
    else g)

unfoldable pub failure_callback : HeartbeatGenerator → HeartbeatGenerator
failure_callback g = completed g
