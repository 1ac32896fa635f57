-- ===== src/Comm/Handler.antt =====
-- scrutiny/server/protocol/comm_handler.py. The link and its receive thread are the environment:
-- what the thread put into the receive queue, whether the link works, and whether a write raises.
-- The bit rate measurements, which nothing here reads, and the log are left out.
pub mod Coherence
pub mod Reach
pub mod Timeout
pub mod Frames
pub mod Reassembly
use scrutiny.Prelude.{
  ℕ, ◌+◌, ◌*◌, Bool, true, false, ◌&&◌, ◌||◌, not, Option, some, none, List, [], ◌∷◌, ◌++◌, Bytes,
  length, slice, take, leb, ◌==◌, if◌then◌else◌, Result, ok, err, exception,
}
use scrutiny.Protocol.Pack.{unpack_u16}
use scrutiny.Protocol.Commands.{Command, cmd_id}
use scrutiny.Protocol.Request
use scrutiny.Protocol.Request.{Request}
use scrutiny.Protocol.Response
use scrutiny.Protocol.Response.{Response}
use scrutiny.Comm.Timer
use scrutiny.Comm.Timer.{Timer}
use scrutiny.Comm.Throttler.{Throttling}

pub record RxData : Type 0 where
  pub data_buffer : Bytes
  pub length_field : Option ℕ
  pub length_bytes_received : ℕ

abbrev pub clear_rx_data : RxData
clear_rx_data = record { data_buffer = []; length_field = none; length_bytes_received = 0 }

-- `sent` holds the frames written to the link, the last one first.
pub record CommHandler (T : Type 0) : Type 0 where
  pub active_request : Option Request
  pub pending_request : Option Request
  pub received_response : Option Response
  pub response_timeout : ℕ
  pub response_timer : Timer
  pub rx_data : RxData
  pub opened : Bool
  pub timed_out : Bool
  pub throttler : T
  pub rx_queue : List Bytes
  pub sent : List Bytes

-- What one call sees of the world.
pub record Env : Type 0 where
  pub now : ℕ
  pub has_link : Bool
  pub initialized : Bool
  pub operational : Bool
  pub write_fails : Bool

abbrev pub is_some {ℓ} : {A : Type ℓ} → Option A → Bool
is_some none = false
is_some (some a) = true

-- Two commands are the same class.
abbrev pub same_command : Command → Command → Bool
same_command c d = cmd_id c == cmd_id d

-- Whether the answer is to the request.
abbrev pub answers : Request → Response → Bool
answers q r = same_command r.command q.command && (r.subfn == q.subfn)

unfoldable pub read_length : RxData → RxData
read_length rx = elim rx.length_field [
  | some n ↦ rx
  | none ↦
      if leb 5 (length rx.data_buffer)
      then record rx {
        length_field = elim (unpack_u16 (slice 3 5 rx.data_buffer)) [
          | ok n ↦ some n
          | err e ↦ none
        ];
      }
      else rx
]

module _ {T : Type 0} where
  -- CommHandler(params), whose throttler is given. The source first assigns the mark of a timeout when
  -- it sends a request or clears the mark; until then the model has `false`.
  unfoldable pub make : ℕ → T → CommHandler T
  make timeout throttler = record {
    active_request = none;
    pending_request = none;
    received_response = none;
    response_timeout = timeout;
    response_timer = Timer.new timeout;
    rx_data = clear_rx_data;
    opened = false;
    timed_out = false;
    throttler = throttler;
    rx_queue = [];
    sent = [];
  }

  -- What the receive thread does with data that it read.
  unfoldable pub rx_put : CommHandler T → Bytes → CommHandler T
  rx_put s d = record s { rx_queue = s.rx_queue ++ (d ∷ []) }

  unfoldable pub response_available : CommHandler T → Bool
  response_available s = is_some s.received_response

  unfoldable pub waiting_response : CommHandler T → Bool
  waiting_response s =
      if not s.opened then false else is_some s.active_request || is_some s.pending_request

  unfoldable pub reset_rx : CommHandler T → CommHandler T
  reset_rx s = record s {
    active_request = none;
    pending_request = none;
    received_response = none;
    response_timer = Timer.stop s.response_timer;
    rx_data = clear_rx_data;
  }

  unfoldable pub clear_timeout : CommHandler T → CommHandler T
  clear_timeout s = record s { timed_out = false }

  unfoldable pub reset : CommHandler T → CommHandler T
  reset s = clear_timeout (reset_rx s)

  unfoldable pub get_response : CommHandler T → CommHandler T × Result Response
  get_response s = elim s.received_response [
    | none ↦ (s, err exception)
    | some response ↦ (reset_rx s, ok response)
  ]

  unfoldable pub close : CommHandler T → CommHandler T
  close s = record (reset s) { opened = false }

  -- The rest of `open` once the link is up and the thread runs; `_rx_queue` is new.
  unfoldable pub open_done : CommHandler T → CommHandler T
  open_done s = record s { opened = true; rx_queue = [] }

  -- What is left when the link or its thread can not be started.
  unfoldable pub open_failed : CommHandler T → CommHandler T
  open_failed s = record s { opened = false }

  -- A decoded response against the active request; `reset_rx` is the handler of every exception.
  unfoldable pub match_request : CommHandler T → Response → Option Request → CommHandler T
  match_request s response none = reset_rx s
  match_request s response (some q) =
      if answers q response
      then record s {
        received_response = some response;
        rx_data = clear_rx_data;
        response_timer = Timer.stop s.response_timer;
      }
      else reset_rx s

  -- The result of Response.from_bytes on a complete frame.
  unfoldable pub accept : CommHandler T → Result Response → CommHandler T
  accept s (err e) = reset_rx s
  accept s (ok response) = match_request s response s.active_request

  unfoldable pub complete : CommHandler T → Option ℕ → CommHandler T
  complete s none = s
  complete s (some n) =
      if leb (n + 9) (length s.rx_data.data_buffer)
      then accept s (Response.from_bytes (take (n + 9) s.rx_data.data_buffer))
      else s

  -- Data that was taken from the queue while a response is expected.
  unfoldable pub feed : CommHandler T → Bytes → CommHandler T
  feed s d =
      let rx = read_length (record s.rx_data { data_buffer = s.rx_data.data_buffer ++ d }) in
      complete (record s { rx_data = rx }) rx.length_field

  unfoldable pub expire : CommHandler T → Env → CommHandler T
  expire s env =
      if waiting_response s && (Timer.is_timed_out s.response_timer env.now || not env.operational)
      then record (reset_rx s) { timed_out = true }
      else s

module _ {T : Type 0} (throttling : Throttling T) where
  unfoldable pub receive : CommHandler T → Bytes → CommHandler T
  receive s d =
      let s' = record s { throttler = throttling.consume_bandwidth s.throttler (length d * 8) } in
      if response_available s' || not (waiting_response s') then s' else feed s' d

  unfoldable pub take_next : CommHandler T → List Bytes → CommHandler T
  take_next s [] = s
  take_next s (d ∷ rest) = receive (record s { rx_queue = rest }) d

  unfoldable pub receive_next : CommHandler T → CommHandler T
  receive_next s = take_next s s.rx_queue

  unfoldable pub process_rx : CommHandler T → Env → CommHandler T
  process_rx s env = receive_next (expire s env)

  -- `to_bytes` raises for a payload that no frame can carry: then the request is active, not sent.
  unfoldable pub transmit : CommHandler T → Env → Result Bytes → CommHandler T × Result (Unit {0})
  transmit s env (err e) = (s, err e)
  transmit s env (ok d) = (
    if env.write_fails then s else record s {
      sent = d ∷ s.sent;
      throttler = throttling.consume_bandwidth s.throttler (length d * 8);
      response_timer = Timer.start s.response_timer env.now (some s.response_timeout);
    },
    ok tt,
  )

  unfoldable pub try_send : CommHandler T → Env → Option Request → CommHandler T × Result (Unit {0})
  try_send s env none = (s, ok tt)
  try_send s env (some q) =
      let bandwidth = (Request.size q + Request.get_expected_response_size q) * 8 in
      if throttling.allowed s.throttler bandwidth
      then transmit (record s { active_request = some q; pending_request = none }) env
          (Request.to_bytes q)
      else if not (throttling.possible s.throttler bandwidth)
      then (record s { pending_request = none }, ok tt)
      else (s, ok tt)

  unfoldable pub process_tx : CommHandler T → Env → CommHandler T × Result (Unit {0})
  process_tx s env = try_send s env s.pending_request

  unfoldable pub send_request : CommHandler T → Env → Request → CommHandler T × Result (Unit {0})
  send_request s env q =
      if waiting_response s
      then (s, err exception)
      else if s.opened
      then process_tx
          (record s { pending_request = some q; received_response = none; timed_out = false }) env
      else (s, ok tt)

  unfoldable pub is_operational : CommHandler T → Env → Bool
  is_operational s env = if not env.has_link then false else s.opened && env.operational

  unfoldable pub process : CommHandler T → Env → CommHandler T × Result (Unit {0})
  process s env =
      let s' = record s { throttler = throttling.process s.throttler env.now } in
      if not env.has_link
      then (reset s, ok tt)
      else if env.initialized && not env.operational
      then (close s, ok tt)
      else if is_operational s env
      then process_tx (process_rx s' env) env
      else (s, ok tt)
