-- ===== src/Comm/Tests.antt =====
-- Runs of the communication handler (scrutiny/server/protocol/comm_handler.py) with a throttler that
-- counts bits and lets everything through.
use scrutiny.Prelude.{
  ℕ, ◌+◌, ◌≡◌, refl, Bool, true, false, some, none, List, [], ◌∷◌, arith, Bytes, ok, err, exception,
  All,
}
use scrutiny.Protocol.Commands
use scrutiny.Protocol.Commands.{Command}
use scrutiny.Protocol.Crc
use scrutiny.Protocol.Request
use scrutiny.Protocol.Request.{Request}
use scrutiny.Protocol.Response
use scrutiny.Protocol.Response.{Response}
use scrutiny.Comm.Timer
use scrutiny.Comm.Throttler.{Throttling}
use scrutiny.Comm.Handler
use scrutiny.Comm.Handler.{CommHandler, Env, answers}
use scrutiny.Comm.Handler.Reach
use scrutiny.Comm.Handler.Reach.{Reachable, get_response-answers}
use scrutiny.Comm.Handler.Reassembly.{receive_all, receive_all-reassembles}
use scrutiny.Comm.Handler.Timeout.{IsHealthy, process_all, process_rx-times_out, process_all-stalls}

abbrev counting : Throttling ℕ
counting = record {
  allowed = λ t n. true;
  possible = λ t n. true;
  consume_bandwidth = λ t n. t + n;
  process = λ t now. t;
}

abbrev request : Request
request = record { command = Command.get_info; subfn = 1; payload = []; response_payload_size = 1 }

abbrev response : Response
response = record {
  command = Command.get_info;
  subfn = 1;
  code = Response.ResponseCode.ok_code;
  payload = 5 ∷ [];
}

abbrev frame : Bytes
frame = 129 ∷ 1 ∷ 0 ∷ 0 ∷ 1 ∷ 5 ∷ 48 ∷ 63 ∷ 138 ∷ 160 ∷ []

frame_bytes : Response.to_bytes response ≡ ok frame
unfolding Response.to_bytes Response.make_bytes_no_crc Commands.response_id Commands.cmd_id
    Crc.crc32 Crc.crc_loop Crc.crc_bits Crc.crc_bit Crc.not32
frame_bytes = refl

-- The request has been sent at time 1000, and its timer runs.
abbrev waiting : CommHandler ℕ
waiting = record {
  active_request = some request;
  pending_request = none;
  received_response = none;
  response_timeout = 1000000;
  response_timer = record { start_time = some 1000; timeout = 1000000 };
  rx_data = Handler.clear_rx_data;
  opened = true;
  timed_out = false;
  throttler = 0;
  rx_queue = (1 ∷ []) ∷ [];
  sent = [];
}

receive_all-reassembles_example :
    (receive_all counting waiting (
      (129 ∷ 1 ∷ [])
      ∷ (0 ∷ 0 ∷ 1 ∷ 5 ∷ 48 ∷ [])
      ∷ (63 ∷ 138 ∷ 160 ∷ 7 ∷ [])
      ∷ [])).received_response
    ≡ some response
unfolding Commands.cmd_id
receive_all-reassembles_example =
    receive_all-reassembles counting waiting request response frame (7 ∷ [])
      ((129 ∷ 1 ∷ []) ∷ (0 ∷ 0 ∷ 1 ∷ 5 ∷ 48 ∷ []) ∷ (63 ∷ 138 ∷ 160 ∷ 7 ∷ []) ∷ []) refl refl refl
      refl refl (omega arith) (omega arith) frame_bytes refl

abbrev env_at : ℕ → Bool → Env
env_at now fails = record {
  now = now;
  has_link = true;
  initialized = true;
  operational = true;
  write_fails = fails;
}

waiting_waits : Handler.waiting_response waiting ≡ true
unfolding Handler.waiting_response
waiting_waits = refl

process_rx-times_out_example :
    ((Handler.process_rx counting waiting (env_at 1001001 false)).timed_out ≡ true)
    × (Handler.waiting_response (Handler.process_rx counting waiting (env_at 1001001 false))
        ≡ false)
    × ((Handler.process_rx counting waiting (env_at 1001001 false)).received_response ≡ none)
process_rx-times_out_example =
    process_rx-times_out counting waiting (env_at 1001001 false) 1000 waiting_waits refl
      (omega arith)

abbrev idle : CommHandler ℕ
idle = Handler.open_done (Handler.make 1000000 0)

idle-Reachable : Reachable counting idle
idle-Reachable = Reach.opened (Reach.made 1000000 0)

idle_waits : Handler.waiting_response idle ≡ false
unfolding Handler.waiting_response Handler.open_done Handler.make
idle_waits = refl

request_frame : Request.to_bytes request ≡ ok (1 ∷ 1 ∷ 0 ∷ 0 ∷ 152 ∷ 58 ∷ 210 ∷ 78 ∷ [])
unfolding Request.to_bytes Request.make_bytes_no_crc Commands.request_id Commands.cmd_id Crc.crc32
    Crc.crc_loop Crc.crc_bits Crc.crc_bit Crc.not32
request_frame = refl

abbrev later : List Env
later = env_at 5000 false ∷ env_at 900000000 false ∷ []

later-IsHealthy : All IsHealthy later
later-IsHealthy = ((refl, refl, refl), ((refl, refl, refl), tt))

abbrev stuck : CommHandler ℕ
stuck = process_all counting (Handler.send_request counting idle (env_at 1000 true) request).0 later

process_all-stalls_example :
    (Handler.waiting_response stuck ≡ true)
    × (stuck.timed_out ≡ false)
    × (Handler.send_request counting stuck (env_at 900000001 false) request
        ≡ (stuck, err exception))
unfolding Handler.open_done Handler.make
process_all-stalls_example =
    process_all-stalls counting idle (env_at 1000 true) request
      (1 ∷ 1 ∷ 0 ∷ 0 ∷ 152 ∷ 58 ∷ 210 ∷ 78 ∷ []) later (env_at 900000001 false) request
      idle-Reachable refl idle_waits refl refl request_frame refl later-IsHealthy

-- A request is sent, and its response arrives.
abbrev answered : CommHandler ℕ
answered =
    (Handler.process counting
      (Handler.rx_put (Handler.send_request counting idle (env_at 1000 false) request).0 frame)
      (env_at 2000 false)).0

answered-Reachable : Reachable counting answered
answered-Reachable =
    Reach.processed (env_at 2000 false)
      (Reach.received frame (Reach.sent (env_at 1000 false) request idle-Reachable))

answered_gets : (Handler.get_response answered).1 ≡ ok response
unfolding Handler.get_response Handler.process Handler.is_operational Handler.rx_put
    Handler.send_request Handler.waiting_response Handler.open_done Handler.make Handler.process_tx
    Handler.try_send Handler.transmit Request.to_bytes Request.make_bytes_no_crc Commands.request_id
    Crc.crc32 Handler.process_rx Handler.receive_next Handler.take_next Handler.expire
    Handler.accept Handler.clear_timeout Handler.close Handler.complete Handler.feed
    Handler.match_request Handler.read_length Handler.receive Handler.reset Handler.reset_rx
    Handler.response_available Timer.elapsed Timer.is_timed_out Timer.new Timer.start Timer.stop
    Commands.cmd_id Commands.from_command_id Commands.from_members Commands.response_id Crc.crc_bit
    Crc.crc_bits Crc.crc_loop Crc.not32 Request.get_expected_response_size Request.size
    Response.check Response.from_bytes Response.from_header Response.make_bytes_no_crc
answered_gets = refl

get_response-answers_example :
    ((q : Request) × (answered.active_request ≡ some q) × (answers q response ≡ true))
    × (answered.pending_request ≡ none)
    × (Handler.waiting_response (Handler.get_response answered).0 ≡ false)
get_response-answers_example =
    get_response-answers counting answered response answered-Reachable answered_gets
