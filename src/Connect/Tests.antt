-- ===== src/Connect/Tests.antt =====
-- The submodules (scrutiny/server/device/submodules) in small runs.
use scrutiny.Prelude.{ℕ, ◌-◌, ◌≤◌, ◌≡◌, refl, true, false, some, none, [], ◌∷◌, arith, ok}
use scrutiny.Protocol.Commands.{Command}
use scrutiny.Protocol.Response
use scrutiny.Protocol.Response.{Response}
use scrutiny.Protocol.CommControl
use scrutiny.Protocol.CommControl.{CommData}
use scrutiny.Dispatch.Queue
use scrutiny.Dispatch.Dispatcher
use scrutiny.Dispatch.Dispatcher.{RequestDispatcher}
use scrutiny.Connect.Submit
use scrutiny.Connect.Heartbeat
use scrutiny.Connect.Heartbeat.{HeartbeatGenerator}
use scrutiny.Connect.Session
use scrutiny.Connect.Session.{SessionInitializer}
use scrutiny.Connect.Searcher
use scrutiny.Connect.Searcher.{DeviceSearcher}
use scrutiny.Connect.Liveness.{
  Echoes, success_callback-Echoes, success_callback-stale, process-fresh,
}
use scrutiny.Connect.Granted
use scrutiny.Connect.Granted.{Reachable, reachable_granted}

abbrev generator : HeartbeatGenerator
generator = record {
  priority = 5;
  session_id = some 305419896;
  last_heartbeat_request = some 4000;
  last_heartbeat_timestamp = 1000;
  challenge = 7;
  interval = 3000000;
  pending = true;
  started = true;
}

-- Session 0x12345678, challenge response 65528.
abbrev beat : Response
beat = record {
  command = Command.comm_control;
  subfn = 2;
  code = Response.ResponseCode.ok_code;
  payload = 18 ∷ 52 ∷ 86 ∷ 120 ∷ 255 ∷ 248 ∷ [];
}

beat_parsed :
    CommControl.parse_response beat
    ≡ ok (
        CommData.beaten 305419896
          (CommControl.heartbeat_expected_challenge_response generator.challenge))
unfolding CommControl.parse_response CommControl.heartbeat_expected_challenge_response
beat_parsed = refl

moved : (Heartbeat.success_callback generator 5000 beat).last_heartbeat_timestamp ≡ 5000
unfolding Heartbeat.success_callback Heartbeat.completed Heartbeat.check_echo
    CommControl.parse_response CommControl.heartbeat_expected_challenge_response
moved = refl

success_callback-Echoes_example :
    Echoes generator generator.session_id (CommControl.parse_response beat)
success_callback-Echoes_example = success_callback-Echoes generator 5000 beat (omega arith) moved

success_callback-stale_example :
    (Heartbeat.success_callback (Heartbeat.completed generator) 5000 beat).last_heartbeat_timestamp
    ≡ 1000
success_callback-stale_example = success_callback-stale generator 5000 305419896 beat beat_parsed

abbrev device : CommData
device = CommData.discovered 1 0 [] (65 ∷ [])

abbrev searcher : DeviceSearcher
searcher = record {
  priority = 1;
  pending = true;
  last_request_timestamp = some 0;
  found_device_timestamp = 1000;
  started = true;
  found_device = some device;
}

abbrev dispatcher : RequestDispatcher ℕ
dispatcher = record {
  request_queue = record {
    maxsize = some 100;
    data_list = [];
    priorities = [];
    last_warning_time = none;
  };
  rx_data_size_limit = none;
  tx_data_size_limit = none;
  critical_error = false;
}

still_there : (Searcher.process searcher 2000000 0 dispatcher).0.found_device ≡ some device
unfolding Searcher.process Searcher.poll Searcher.forget
still_there = refl

process-fresh_example :
    (searcher.started ≡ true)
    × (searcher.found_device ≡ some device)
    × (2000000 - searcher.found_device_timestamp ≤ 3_000_000)
process-fresh_example = process-fresh searcher 2000000 0 dispatcher device still_there

abbrev connected_response : Response
connected_response = record {
  command = Command.comm_control;
  subfn = 4;
  code = Response.ResponseCode.ok_code;
  payload = 0x82 ∷ 0x90 ∷ 0x22 ∷ 0x66 ∷ 0 ∷ 0 ∷ 1 ∷ 2 ∷ [];
}

abbrev session : SessionInitializer
session =
    Session.success_callback (Session.process (Session.start (Session.make 3)) 10 0 dispatcher).0
      connected_response

session-Reachable : Reachable ℕ session
session-Reachable =
    Granted.answered connected_response
      (Granted.processed 10 0 dispatcher (Granted.started (Granted.made 3)))

session_succeeds : session.success ≡ true
unfolding Session.success_callback Session.process Session.start Session.make Session.completed
    Session.accepted CommControl.parse_response Session.send Submit.submit
    Dispatcher.register_request Dispatcher.enqueue Queue.push Queue.check_oversize Queue.warn
    Queue.add
session_succeeds = refl

reachable_granted_example : (id : ℕ) × (session.session_id ≡ some id)
reachable_granted_example = reachable_granted session session-Reachable session_succeeds
