-- ===== src/Dispatch/Dispatcher.antt =====
-- `RequestDispatcher` of scrutiny/server/device/request_dispatcher.py.
use scrutiny.Prelude.{
  ℕ, ◌+◌, ◌*◌, Bool, true, false, Option, some, none, List, [], ltb, if◌then◌else◌, Result,
}
use scrutiny.Protocol.Request
use scrutiny.Protocol.Request.{Request}
use scrutiny.Dispatch.Queue
use scrutiny.Dispatch.Queue.{RequestQueue, RequestRecord, Call}

pub record RequestDispatcher (K : Type 0) : Type 0 where
  pub request_queue : RequestQueue K
  pub rx_data_size_limit : Option ℕ
  pub tx_data_size_limit : Option ℕ
  pub critical_error : Bool

-- A method's new state, the callbacks that it made, and what it raised.
abbrev pub Outcome : Type 0 → Type 0
Outcome K = RequestDispatcher K × List (Call K) × Result (Unit {0})

abbrev pub over : Option ℕ → ℕ → Bool
over none n = false
over (some limit) n = ltb limit n

module _ {K : Type 0} where
  unfoldable pub reset : RequestDispatcher K → RequestDispatcher K
  reset d = record {
    request_queue = Queue.clear d.request_queue;
    rx_data_size_limit = none;
    tx_data_size_limit = none;
    critical_error = false;
  }

  -- RequestDispatcher(queue_size)
  unfoldable pub make : ℕ → RequestDispatcher K
  make queue_size = record {
    request_queue = Queue.clear (Queue.new (some queue_size));
    rx_data_size_limit = none;
    tx_data_size_limit = none;
    critical_error = false;
  }

  unfoldable pub is_in_error : RequestDispatcher K → Bool
  is_in_error d = d.critical_error

  unfoldable pub make_record : Request → K → RequestRecord K
  make_record request callbacks = record {
    request = request;
    callbacks = callbacks;
    completed = false;
    approximate_delta_bandwidth =
        (Request.size request + Request.get_expected_response_size request) * 8;
  }

  unfoldable pub drop_request : RequestDispatcher K → RequestRecord K → Outcome K
  drop_request d r =
      let (r', calls, out) = Queue.complete r false none in
      (record d { critical_error = true }, calls, out)

  unfoldable pub enqueue : RequestDispatcher K → ℕ → RequestRecord K → ℕ → Outcome K
  enqueue d now r priority =
      let (q, out) = Queue.push d.request_queue now r priority in
      (record d { request_queue = q }, [], out)

  unfoldable pub register_request : RequestDispatcher K → ℕ → Request → K → ℕ → Outcome K
  register_request d now request callbacks priority =
      let r = make_record request callbacks in
      if over d.rx_data_size_limit (Request.data_size request)
      then drop_request d r
      else if over d.tx_data_size_limit (Request.get_expected_response_data_size request)
      then drop_request d r
      else enqueue d now r priority

  unfoldable pub set_size_limits : RequestDispatcher K → Option ℕ → Option ℕ → RequestDispatcher K
  set_size_limits d rx tx = record d { rx_data_size_limit = rx; tx_data_size_limit = tx }

  unfoldable pub peek_next : RequestDispatcher K → Option (RequestRecord K)
  peek_next d = Queue.peek d.request_queue

  unfoldable pub pop_next : RequestDispatcher K → RequestDispatcher K × Option (RequestRecord K)
  pop_next d = let (q, r) = Queue.pop d.request_queue in (record d { request_queue = q }, r)
