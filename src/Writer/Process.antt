-- ===== src/Writer/Process.antt =====
-- `MemoryWriter.process` (scrutiny/server/device/submodules/memory_writer.py): raw writes come before the
-- entries of the datastore.
use scrutiny.Prelude.{
  ℕ, Bool, true, false, not, ◌&&◌, ◌||◌, Option, some, none, List, [], ◌∷◌, ◌++◌, if◌then◌else◌, ok,
  err, assertion_error,
}
use scrutiny.Protocol.Request.{Request}
use scrutiny.Dispatch.Dispatcher.{RequestDispatcher}
use scrutiny.Connect.Submit.{Answer, submit}
use scrutiny.Reader.State.{Protocol}
use scrutiny.Writer.State.{Codec, Event, MemoryWriter, set_standby}
use scrutiny.Writer.Raw.{Piece, make_next_raw_memory_write_request}
use scrutiny.Writer.Entries.{make_next_entry_write_request}
use scrutiny.Writer.Callbacks.{failure_callback}

abbrev pub is_some : {A : Type 0} → Option A → Bool
is_some none = false
is_some (some x) = true

abbrev pub waits : {A : Type 0} → List A → Bool
waits [] = false
waits (x ∷ xs) = true

module _ {V : Type 0} where
  -- The failure callback, should the dispatcher make it before it returns.
  abbrev pub fails : Request → MemoryWriter V × List (Event V) → MemoryWriter V × List (Event V)
  fails q (s, events) = let (s', more) = failure_callback s q in (s', events ++ more)

  unfoldable pub dispatch :
      {K : Type 0}
      → RequestDispatcher K
      → ℕ
      → K
      → Request
      → MemoryWriter V × List (Event V)
      → Answer (MemoryWriter V × List (Event V)) K
  dispatch d now k q (s, events) =
      submit d now q k s.request_priority (s, events) (fails q)
        (λ t. (record t.0 { pending_request = some q }, t.1))

  -- Sends the request that was made, if one was made.
  unfoldable pub send :
      {K : Type 0}
      → RequestDispatcher K
      → ℕ
      → K
      → Piece V
      → Answer (MemoryWriter V × List (Event V)) K
  unfolding dispatch
  send d now k (s, events, err e) = ((s, events), d, err e)
  send d now k (s, events, ok none) = ((s, events), d, ok tt)
  send d now k (s, events, ok (some q)) = dispatch d now k q (s, events)

  unfoldable pub raw_work : MemoryWriter V → Bool
  raw_work s = is_some s.active_raw_write_request || waits s.raw_write_request_queue

  unfoldable pub entry_work : MemoryWriter V → Bool
  entry_work s = is_some s.entry_being_updated || waits s.target_update_request_queue

  -- What is made while no request is out. The second assertion of the source is what the first test
  -- left.
  unfoldable pub next_request : Codec V → Protocol → MemoryWriter V → Piece V
  unfolding raw_work entry_work
  next_request c p s =
      if raw_work s
      then if is_some s.entry_being_updated
        then (s, [], err assertion_error)
        else make_next_raw_memory_write_request p.address_format s
      else if entry_work s
      then make_next_entry_write_request c p s
      else (s, [], ok none)

  unfoldable pub process :
      {K : Type 0}
      → Codec V
      → Protocol
      → MemoryWriter V
      → ℕ
      → K
      → RequestDispatcher K
      → Answer (MemoryWriter V × List (Event V)) K
  unfolding next_request send
  process c p s now k d =
      if not s.started || (s.stop_requested && not (is_some s.pending_request))
      then (set_standby s, d, ok tt)
      else if is_some s.pending_request
      then ((s, []), d, ok tt)
      else send d now k (next_request c p s)
