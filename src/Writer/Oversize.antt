-- ===== src/Writer/Oversize.antt =====
-- A raw write of more than the device takes (memory_writer.py, with request_dispatcher.py).
use scrutiny.Prelude.{
  ℕ, ◌+◌, ◌<◌, ◌≤◌, ◌≡◌, inl, refl, ◌∙◌, true, some, none, List, [], ◌∷◌, arith, min, length,
  length-take, ok,
}
use scrutiny.Protocol.Request
use scrutiny.Protocol.Request.{Request}
use scrutiny.Protocol.MemoryControl.{address_count, get_address_size_bytes}
use scrutiny.Dispatch.Dispatcher.{RequestDispatcher, register_request}
use scrutiny.Dispatch.Queue.{failed}
use scrutiny.Dispatch.Admission.{over_limit, over_some}
use scrutiny.Reader.State.{Protocol}
use scrutiny.Writer.State.{RawMemoryWriteRequest, MemoryWriter, clear_active_raw_write_request}
use scrutiny.Writer.Raw.{refusal, make_next_raw_memory_write_request}
use scrutiny.Writer.Pieces.{Progress, there, made}
use scrutiny.Writer.Stored.{activated, made_from_queue}

-- A raw write of as many bytes as the limit on a request, or more, that stands first in the queue of a
-- writer that works on nothing and is not refused, whose address the format can hold and which ends at
-- the format's last address at most: its first request has a payload of the limit and the head of a
-- block, since the limit, which fits 16 bits, is taken for the data alone. A dispatcher with the same
-- limit on requests drops it: only the failure callback is called, the queue is the same, and the
-- dispatcher is in critical error.
pub make_next_raw_memory_write_request-critical_error :
    {V K : Type 0} (p : Protocol) (s : MemoryWriter V) (a : RawMemoryWriteRequest)
    (rest : List RawMemoryWriteRequest) (d : RequestDispatcher K) (now : ℕ) (k : K) (priority : ℕ)
    → s.active_raw_write_request ≡ none
    → s.raw_write_request_queue ≡ a ∷ rest
    → s.entry_being_updated ≡ none
    → refusal s a ≡ none
    → a.address < address_count p.address_format
    → a.address + length a.memory ≤ address_count p.address_format
    → s.max_request_payload_size < 65536
    → s.max_request_payload_size ≤ length a.memory
    → d.rx_data_size_limit ≡ some s.max_request_payload_size
    → (s' : MemoryWriter V) × (q : Request) × (make_next_raw_memory_write_request p.address_format s
        ≡ (s', [], ok (some q)))
      × (length q.payload
          ≡ get_address_size_bytes p.address_format + 2 + s.max_request_payload_size)
      × (register_request d now q k priority
          ≡ (record d { critical_error = true }, failed k q ∷ [], ok tt))
unfolding clear_active_raw_write_request Request.data_size
make_next_raw_memory_write_request-critical_error p s a rest d now k priority no_active queue idle
      sendable place inside fits big limit =
    let start = activated s a rest in
    let progress : Progress p a inside start [] a.memory = record {
      active = refl;
      idle = idle;
      remaining = refl;
      whole = refl;
      next = omega (arith, place);
    } in
    let piece = there p a inside (λ x. 0) start [] a.memory progress fits in
    let size : length piece.request.payload
        ≡ get_address_size_bytes p.address_format + 2 + s.max_request_payload_size =
      omega (
        arith,
        piece.size,
        big,
        length-take (min s.max_request_payload_size (length a.memory)) a.memory,
      ) in
    (
      _,
      piece.request,
      made_from_queue p.address_format s a rest no_active queue sendable
          ∙ made p a inside (λ x. 0) start [] a.memory progress fits,
      size,
      over_limit d now piece.request k priority (
          inl (
            over_some d.rx_data_size_limit s.max_request_payload_size _ limit
              (omega (arith, size)))),
    )
