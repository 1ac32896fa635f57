-- ===== src/Writer/Callbacks.antt =====
-- The callbacks of `MemoryWriter` (scrutiny/server/device/submodules/memory_writer.py). An exception
-- leaves the state as it was.
use scrutiny.Prelude.{
  ℕ, Bool, true, false, Option, some, none, List, [], ◌∷◌, ◌++◌, map, Bytes, length, leb, ◌==◌,
  ◌&&◌, ◌||◌, if◌then◌else◌, Result, ok, err, value_error, key_error, assertion_error, ◌>>=◌,
}
use scrutiny.Protocol.Request.{Request}
use scrutiny.Protocol.Response.{Response}
use scrutiny.Protocol.MemoryControl.{AddressFormat, parse_write_request}
use scrutiny.Protocol.MemoryControl.Ranges.{parse_write_response}
use scrutiny.Protocol.MemoryControl.Masked.{
  MaskedBlock, parse_masked_write_request, parse_write_rpv_request, parse_write_rpv_response,
}
use scrutiny.Reader.State.{Protocol}
use scrutiny.Reader.Callbacks.{is_ok}
use scrutiny.Writer.State.{
  Entry, UpdateTargetRequest, RawMemoryWriteRequest, Reason, Event, MemoryWriter,
  clear_active_raw_write_request, clear_active_entry_write_request,
}

-- The new state, what was told, and what was raised.
abbrev pub Reaction : Type 0 → Type 0
Reaction V = MemoryWriter V × List (Event V) × Result (Unit {0})

abbrev unmasked : MaskedBlock → ℕ × Bytes
unmasked b = (b.address, b.memory)

-- parse_request(request)['blocks_to_write']; a request without blocks has no such key.
unfoldable pub blocks_to_write : AddressFormat → Request → Result (List (ℕ × Bytes))
blocks_to_write f q =
    if q.subfn == 2
    then parse_write_request f q
    else if q.subfn == 3
    then (do bs ← parse_masked_write_request f q; ok (map unmasked bs))
    else err key_error

-- One block was asked for, and one of that address and length was written.
unfoldable pub response_match_request : List (ℕ × Bytes) → List (ℕ × ℕ) → Bool
response_match_request ((address, d) ∷ []) ((address', n) ∷ []) =
    (address == address') && (length d == n)
response_match_request _ _ = false

unfoldable pub write_matches : AddressFormat → Request → Response → Result Bool
unfolding blocks_to_write response_match_request
write_matches f q r = do
  asked ← blocks_to_write f q
  written ← parse_write_response f r
  ok (response_match_request asked written)

-- One value was asked for, and one of that identifier was written.
unfoldable pub same_rpv : List (ℕ × Bytes) → List (ℕ × ℕ) → Bool
same_rpv ((id, d) ∷ []) ((id', n) ∷ []) = id == id'
same_rpv _ _ = false

unfoldable pub rpv_matches : Protocol → Request → Response → Result Bool
unfolding same_rpv
rpv_matches p q r = do
  asked ← parse_write_rpv_request p.rpv_map q
  written ← parse_write_rpv_response r
  ok (same_rpv asked written)

module _ {V : Type 0} where
  unfoldable pub completed : MemoryWriter V → MemoryWriter V
  completed s = record s { pending_request = none }

  unfoldable pub end_update :
      MemoryWriter V → UpdateTargetRequest V → Bool → List (Event V) → Reaction V
  unfolding clear_active_entry_write_request
  end_update s u success told =
      (clear_active_entry_write_request s, told ++ (Event.complete u success ∷ []), ok tt)

  -- With a value that is there.
  unfoldable pub store_variable :
      MemoryWriter V → UpdateTargetRequest V → Entry → Option V → Reaction V
  unfolding end_update
  store_variable s u e none = (s, [], err assertion_error)
  store_variable s u e (some v) = end_update s u true (Event.set_value e (some v) ∷ [])

  unfoldable pub success_callback_var_write :
      Protocol
      → MemoryWriter V
      → Request
      → Response
      → Entry
      → Option (UpdateTargetRequest V)
      → Reaction V
  unfolding write_matches end_update store_variable
  success_callback_var_write p s q r e none = (s, [], err assertion_error)
  success_callback_var_write p s q r e (some u) =
      if is_ok r
      then elim (write_matches p.address_format q r) [
        | err x ↦ (s, [], err x)
        | ok true ↦ store_variable s u e s.target_update_value_written
        | ok false ↦ end_update s u false []
      ]
      else end_update s u false []

  unfoldable pub success_callback_rpv_write :
      Protocol
      → MemoryWriter V
      → Request
      → Response
      → Entry
      → Option (UpdateTargetRequest V)
      → Reaction V
  unfolding rpv_matches end_update
  success_callback_rpv_write p s q r e none = (s, [], err assertion_error)
  success_callback_rpv_write p s q r e (some u) =
      if is_ok r
      then elim (rpv_matches p q r) [
        | err x ↦ (s, [], err x)
        | ok true ↦ end_update s u true (Event.set_value e s.target_update_value_written ∷ [])
        | ok false ↦ end_update s u false []
      ]
      else end_update s u false []

  unfoldable pub finish :
      MemoryWriter V → RawMemoryWriteRequest → Bool → Reason → MemoryWriter V × List (Event V)
  unfolding clear_active_raw_write_request
  finish s a success reason =
      (clear_active_raw_write_request s, Event.set_completed a success reason ∷ [])

  -- A piece is written: it may be the last.
  unfoldable pub continue_raw :
      MemoryWriter V → RawMemoryWriteRequest → Bytes → MemoryWriter V × List (Event V)
  unfolding finish
  continue_raw s a [] = finish s a true Reason.no_reason
  continue_raw s a (x ∷ xs) = (s, [])

  -- What the comparison of answer and request leads to.
  unfoldable pub after_piece :
      MemoryWriter V → RawMemoryWriteRequest → Bytes → Result Bool → Reaction V
  unfolding continue_raw finish
  after_piece s a remaining (err x) = (s, [], err x)
  after_piece s a remaining (ok true) =
      let (s', events) = continue_raw s a remaining in (s', events, ok tt)
  after_piece s a remaining (ok false) =
      let (s', events) = finish s a false Reason.communication_error in (s', events, ok tt)

  unfoldable pub success_callback_raw_memory_write :
      Protocol
      → MemoryWriter V
      → Request
      → Response
      → RawMemoryWriteRequest
      → Option Bytes
      → Reaction V
  unfolding write_matches after_piece finish
  success_callback_raw_memory_write p s q r a none = (s, [], err assertion_error)
  success_callback_raw_memory_write p s q r a (some remaining) =
      if is_ok r
      then after_piece s a remaining (write_matches p.address_format q r)
      else (let (s', events) = finish s a false Reason.refused in (s', events, ok tt))

  unfoldable pub memory_written :
      Protocol
      → MemoryWriter V
      → Request
      → Response
      → Option Entry
      → Option RawMemoryWriteRequest
      → Reaction V
  unfolding success_callback_var_write success_callback_raw_memory_write
  memory_written p s q r (some e) a =
      success_callback_var_write p s q r e s.target_update_request_being_processed
  memory_written p s q r none (some a) =
      success_callback_raw_memory_write p s q r a s.active_raw_write_request_remaining_data
  memory_written p s q r none none = (s, [], ok tt)

  unfoldable pub value_written :
      Protocol → MemoryWriter V → Request → Response → Option Entry → Reaction V
  unfolding success_callback_rpv_write
  value_written p s q r (some e) =
      success_callback_rpv_write p s q r e s.target_update_request_being_processed
  value_written p s q r none = (s, [], ok tt)

  -- By the subfunction of the answer; only 1 to 5 are members of the enumeration.
  unfoldable pub success_of : Protocol → MemoryWriter V → Request → Response → ℕ → Reaction V
  unfolding memory_written value_written
  success_of p s q r subfn =
      if (subfn == 2) || (subfn == 3)
      then memory_written p s q r s.entry_being_updated s.active_raw_write_request
      else if subfn == 5
      then value_written p s q r s.entry_being_updated
      else if (subfn == 0) || leb 6 subfn
      then (s, [], err value_error)
      else (s, [], ok tt)

  -- Behind what a callback did: `completed`, unless it raised.
  abbrev pub completing : Reaction V → Reaction V
  completing (s, events, ok done) = (completed s, events, ok tt)
  completing (s, events, err e) = (s, events, err e)

  unfoldable pub success_for :
      Protocol → MemoryWriter V → Request → Response → Option Request → Reaction V
  unfolding success_of completed
  success_for p s q r none = (s, [], err assertion_error)
  success_for p s q r (some pending) = completing (success_of p s q r r.subfn)

  -- The dispatcher calls back with the request that it was given, which is the pending one if there is
  -- one.
  unfoldable pub success_callback : Protocol → MemoryWriter V → Request → Response → Reaction V
  unfolding success_for
  success_callback p s q r = success_for p s q r s.pending_request

  unfoldable pub fail_update :
      MemoryWriter V → Option (UpdateTargetRequest V) → MemoryWriter V × List (Event V)
  unfolding clear_active_entry_write_request
  fail_update s none = (s, [])
  fail_update s (some u) = (clear_active_entry_write_request s, Event.complete u false ∷ [])

  unfoldable pub fail_raw :
      MemoryWriter V → Option RawMemoryWriteRequest → MemoryWriter V × List (Event V)
  unfolding finish
  fail_raw s none = (s, [])
  fail_raw s (some a) = finish s a false Reason.request_failed

  -- The request only decides what is logged.
  unfoldable pub failure_callback : MemoryWriter V → Request → MemoryWriter V × List (Event V)
  unfolding fail_update fail_raw completed
  failure_callback s q =
      let (t, told) = fail_update s s.target_update_request_being_processed in
      let (u, more) = fail_raw t t.active_raw_write_request in (completed u, told ++ more)
