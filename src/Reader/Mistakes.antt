-- ===== src/Reader/Mistakes.antt =====
-- Two ways in which a raw read goes wrong (memory_reader.py, with request_dispatcher.py).
use scrutiny.Prelude.{
  ℕ, ◌+◌, ◌-◌, ◌*◌, ◌≤◌, ◌≡◌, inr, refl, sym, ap, ◌∙◌, subst, Bool, true, Option, some, none, List,
  [], ◌∷◌, arith, min, leb, if◌then◌else◌, Result, ok, err, assertion_error, Bytes, ◌>>=◌,
}
use scrutiny.Protocol.Commands.{Command}
use scrutiny.Protocol.Request
use scrutiny.Protocol.Request.{Request}
use scrutiny.Protocol.Response.{Response}
use scrutiny.Protocol.MemoryControl.{
  AddressFormat, get_address_size_bytes, encode_ranges, read_memory_blocks,
}
use scrutiny.Protocol.MemoryControl.Ranges.{read_single_memory_block}
use scrutiny.Dispatch.Dispatcher.{RequestDispatcher, register_request}
use scrutiny.Dispatch.Queue.{failed}
use scrutiny.Dispatch.Admission.{over_limit, over_some}
use scrutiny.Reader.State.{
  Variable, RawMemoryReadRequest, Protocol, MemoryReader, clear_active_raw_read_request,
}
use scrutiny.Reader.Raw.{refusal, next_piece, make_next_raw_mem_read_request}
use scrutiny.Reader.Callbacks.{
  success_callback, success_for, success_of, success_callback_memory_read, completing,
  failure_callback, failure_of, read_completed, is_memory_control,
}
use scrutiny.Reader.Device.{Round, round}
use scrutiny.Reader.Reassembly.{activated, allowed, made_from_queue}

answer_size :
    (f : AddressFormat) (address n : ℕ) (q : Request)
    → read_single_memory_block f address n ≡ ok q
    → Request.get_expected_response_data_size q ≡ get_address_size_bytes f + 2 + n
unfolding read_single_memory_block read_memory_blocks Request.get_expected_response_data_size
answer_size f address n q h = go (encode_ranges f ((address, n) ∷ [])) h
  where
    go :
        (r : Result Bytes)
        → (r >>= (λ payload. ok (record {
          command = Command.memory_control;
          subfn = 1;
          payload = payload;
          response_payload_size = (get_address_size_bytes f + 2) * 1 + (n + 0);
        })))
          ≡ ok q
        → q.response_payload_size ≡ get_address_size_bytes f + 2 + n
    go (ok d) h = ground (arith, h)
    go (err e) h = absurd (ground (arith, h))

module _ (p : Protocol) (s : MemoryReader) (a : RawMemoryReadRequest)
    (rest : List RawMemoryReadRequest) (idle : s.active_raw_read_request ≡ none)
    (queue : s.raw_read_request_queue ≡ a ∷ rest) (sendable : refusal p s a ≡ none) where
  abbrev step : ℕ
  step = min s.max_response_payload_size (a.size - 0)

  first : Round p.address_format (λ x. 0) (a.address + 0) step
  first =
      let (inside, small) = allowed p s a sendable in
      round p.address_format (λ x. 0) (a.address + 0) step (omega (arith, inside))
        (omega (arith, small))

  abbrev sent : MemoryReader
  sent = record (activated s a rest) { active_raw_read_request_cursor = 0 + step }

  first_piece :
      make_next_raw_mem_read_request p s
      ≡ (sent, [], ok (some first.request, leb a.size (0 + step)))
  unfolding next_piece clear_active_raw_read_request
  first_piece = made_from_queue p s a rest idle queue sendable ∙ rw (first.sent, next_piece) refl

  -- A raw read of as many bytes as the limit on an answer, or more, that stands first in the queue of a
  -- reader without an active raw read and is not refused: its first request asks for an answer of the
  -- limit and the head of a block. A dispatcher with the same limit on answers drops it: only the
  -- failure callback is called, the queue is the same, and the dispatcher is in critical error.
  pub register_request-oversize :
      {K : Type 0} (d : RequestDispatcher K) (now : ℕ) (k : K) (priority : ℕ)
      → s.max_response_payload_size ≤ a.size
      → d.tx_data_size_limit ≡ some s.max_response_payload_size
      → (s' : MemoryReader) × (q : Request) × (last : Bool) × (make_next_raw_mem_read_request p s
          ≡ (s', [], ok (some q, last)))
        × (Request.get_expected_response_data_size q
            ≡ get_address_size_bytes p.address_format + 2 + s.max_response_payload_size)
        × (register_request d now q k priority
            ≡ (record d { critical_error = true }, failed k q ∷ [], ok tt))
  register_request-oversize d now k priority big limit =
      let long = answer_size p.address_format (a.address + 0) step first.request first.sent in
      let whole : Request.get_expected_response_data_size first.request
          ≡ get_address_size_bytes p.address_format + 2 + s.max_response_payload_size =
        omega (arith, long, big) in
      (
        sent,
        first.request,
        leb a.size (0 + step),
        first_piece,
        whole,
        over_limit d now first.request k priority (
            inr (
              over_some d.tx_data_size_limit s.max_response_payload_size _ limit
                (omega (arith, whole)))),
      )

-- The callback, where entries of a variable read still wait.
stale_answer :
    (p : Protocol) (t : MemoryReader) (q : Request) (r : Response) (v : Variable)
    (vs : List Variable) (a : RawMemoryReadRequest)
    → t.pending_request ≡ some q
    → q.command ≡ Command.memory_control
    → r.subfn ≡ 1
    → t.entries_in_pending_read_var_request ≡ v ∷ vs
    → t.active_raw_read_request ≡ some a
    → success_callback p t q r ≡ (t, [], err assertion_error)
unfolding success_callback success_for success_of success_callback_memory_read
stale_answer p t q r v vs a pending command subfn waiting active =
    ap (success_for p t q r) pending
    ∙ ap
        (λ (c : Command).
          completing (if is_memory_control c then success_of p t q r r.subfn else (t, [], ok tt)))
        command
    ∙ ap (λ (n : ℕ). completing (success_of p t q r n)) subfn
    ∙ ap
        (λ (us : List Variable).
          completing (success_callback_memory_read p t q r us t.active_raw_read_request))
        waiting
    ∙ ap
        (λ (o : Option RawMemoryReadRequest).
          completing (success_callback_memory_read p t q r (v ∷ vs) o))
        active

failed_idle :
    (s : MemoryReader) (q : Request)
    → s.active_raw_read_request ≡ none
    → (failure_callback s q).0 ≡ read_completed s
unfolding failure_callback failure_of
failed_idle s q idle =
    ap (λ (o : Option RawMemoryReadRequest). read_completed (failure_of s q.subfn o).0) idle

-- When a read of variables has failed, the entries still wait. The next answer to a piece of a raw read
-- then trips an assertion, whatever it holds, and the request of the piece stays pending.
pub success_callback-stale_entries :
    (p : Protocol) (s : MemoryReader) (unanswered : Request) (v : Variable) (vs : List Variable)
    (a : RawMemoryReadRequest) (rest : List RawMemoryReadRequest)
    → s.entries_in_pending_read_var_request ≡ v ∷ vs
    → s.active_raw_read_request ≡ none
    → s.raw_read_request_queue ≡ a ∷ rest
    → refusal p s a ≡ none
    → (s' : MemoryReader) × (q : Request) × (last : Bool) × (make_next_raw_mem_read_request p
          (failure_callback s unanswered).0
        ≡ (s', [], ok (some q, last)))
      × ((r : Response)
          → r.subfn ≡ 1
          → success_callback p (record s' { pending_request = some q }) q r
            ≡ (record s' { pending_request = some q }, [], err assertion_error))
unfolding read_completed refusal clear_active_raw_read_request
success_callback-stale_entries p s unanswered v vs a rest waiting idle queue sendable =
    let t = read_completed s in
    (
      sent p t a rest idle queue sendable,
      (first p t a rest idle queue sendable).request,
      leb a.size (0 + step p t a rest idle queue sendable),
      subst
          (λ u. make_next_raw_mem_read_request p u ≡ (
            sent p t a rest idle queue sendable,
            [],
            ok (
              some (first p t a rest idle queue sendable).request,
              leb a.size (0 + step p t a rest idle queue sendable),
            ),
          ))
          (sym (failed_idle s unanswered idle)) (first_piece p t a rest idle queue sendable),
      λ r subfn.
          stale_answer p _ (first p t a rest idle queue sendable).request r v vs a refl
            (first p t a rest idle queue sendable).command subfn waiting refl,
    )
