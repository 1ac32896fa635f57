-- ===== src/Dispatch/Tests.antt =====
-- A queue of two requests (scrutiny/server/device/request_dispatcher.py) under the operations.
use scrutiny.Prelude.{
  ℕ, ◌+◌, ◌*◌, ◌≡◌, ◌⊎◌, refl, true, false, some, none, List, [], ◌∷◌, arith, ok, err,
  attribute_error, replicate,
}
use scrutiny.Protocol.Commands.{Command}
use scrutiny.Protocol.Request
use scrutiny.Protocol.Request.{Request}
use scrutiny.Dispatch.Queue
use scrutiny.Dispatch.Queue.{RequestRecord, RequestQueue, Call, failed, add, push, pop, is_full}
use scrutiny.Dispatch.Order.{IsOrdered}
use scrutiny.Dispatch.Order.Serving.{SameQueue, push-IsOrdered, pop-push_above, pop-push_below}
use scrutiny.Dispatch.Dispatcher
use scrutiny.Dispatch.Dispatcher.{RequestDispatcher, register_request}
use scrutiny.Dispatch.Admission.{
  AllFit, Fits, Queued, register_request-AllFit, register_request_accounted, push_tenth,
}

-- The callbacks are named by numbers.
abbrev record_of : ℕ → ℕ → RequestRecord ℕ
record_of name wanted = record {
  request = record {
    command = Command.memory_control;
    subfn = 1;
    payload = 1 ∷ 2 ∷ [];
    response_payload_size = wanted;
  };
  callbacks = name;
  completed = false;
  approximate_delta_bandwidth = (10 + (9 + wanted)) * 8;
}

abbrev queue : RequestQueue ℕ
queue = record {
  maxsize = some 5;
  data_list = record_of 1 8 ∷ record_of 2 8 ∷ [];
  priorities = 3 ∷ 7 ∷ [];
  last_warning_time = none;
}

queue-IsOrdered : IsOrdered queue
queue-IsOrdered = record { aligned = refl; ascending = ground arith }

push-IsOrdered_example : IsOrdered (push queue 0 (record_of 3 8) 5).0
push-IsOrdered_example = push-IsOrdered queue 0 (record_of 3 8) 5 queue-IsOrdered

pushed : (p : ℕ) → push queue 0 (record_of 3 8) p ≡ (add queue (record_of 3 8) p, ok tt)
unfolding push Queue.warn Queue.check_oversize add Queue.bisect_left
pushed p = ground arith

pop-push_above_example :
    ((pop (add queue (record_of 3 8) 9)).1 ≡ some (record_of 3 8))
    × SameQueue (pop (add queue (record_of 3 8) 9)).0 queue
pop-push_above_example =
    pop-push_above queue (add queue (record_of 3 8) 9) 0 (record_of 3 8) 9 queue-IsOrdered
      (pushed 9) (ground arith)

pop-push_below_example :
    ((pop (add queue (record_of 3 8) 7)).1 ≡ (pop queue).1)
    × SameQueue (pop (add queue (record_of 3 8) 7)).0 (add (pop queue).0 (record_of 3 8) 7)
pop-push_below_example =
    pop-push_below queue (add queue (record_of 3 8) 7) 0 (record_of 3 8) 7 7 queue-IsOrdered
      (pushed 7) refl (omega arith)

abbrev dispatcher : RequestDispatcher ℕ
dispatcher = record {
  request_queue = queue;
  rx_data_size_limit = some 16;
  tx_data_size_limit = some 32;
  critical_error = false;
}

dispatcher-AllFit : AllFit dispatcher
unfolding Request.data_size Request.get_expected_response_data_size
dispatcher-AllFit =
    (record { sent = refl; answered = refl }, (record { sent = refl; answered = refl }, tt))

register_request-AllFit_example :
    AllFit (register_request dispatcher 0 (record_of 3 64).request 3 5).0
register_request-AllFit_example =
    register_request-AllFit dispatcher 0 (record_of 3 64).request 3 5 dispatcher-AllFit

-- The device does not answer with 64 bytes.
abbrev dropped : RequestDispatcher ℕ
dropped = record dispatcher { critical_error = true }

abbrev reported : List (Call ℕ)
reported = failed 3 (record_of 3 64).request ∷ []

registered : register_request dispatcher 0 (record_of 3 64).request 3 5 ≡ (dropped, reported, ok tt)
unfolding register_request Dispatcher.drop_request Dispatcher.make_record Queue.complete
    Request.data_size Request.get_expected_response_data_size
registered = refl

register_request_accounted_example :
    (Fits (some 16) (some 32) (record_of 3 64).request
      × (reported ≡ [])
      × Queued dispatcher dropped (record_of 3 64).request 3 5)
    ⊎ ((¬ Fits (some 16) (some 32) (record_of 3 64).request)
        × (reported ≡ failed 3 (record_of 3 64).request ∷ [])
        × (dropped ≡ record dispatcher { critical_error = true }))
register_request_accounted_example =
    register_request_accounted dispatcher dropped 0 (record_of 3 64).request 3 5 reported
      queue-IsOrdered registered

abbrev nine : RequestQueue ℕ
nine = record {
  maxsize = some 100;
  data_list = replicate 9 (record_of 1 8);
  priorities = replicate 9 0;
  last_warning_time = none;
}

push_tenth_example :
    push nine 0 (record_of 3 8) 5 ≡ (add nine (record_of 3 8) 5, err attribute_error)
push_tenth_example = push_tenth nine 0 (record_of 3 8) 5 refl refl (omega arith)
