-- ===== src/Reader/Callbacks.antt =====
-- The callbacks of `MemoryReader` (scrutiny/server/device/submodules/memory_reader.py). An exception
-- that the source catches and logs leaves the state as it was at that point.
-- `set_value_from_data` is taken to decode any bytes of the right length.
use scrutiny.Prelude.{
  ℕ, ◌+◌, ◌%◌, Bool, true, false, Option, some, none, List, [], ◌∷◌, ◌++◌, Bytes, length, leb, ◌==◌,
  ◌&&◌, ◌||◌, if◌then◌else◌, Result, ok, err, value_error, assertion_error, ◌>>=◌,
}
use scrutiny.Prelude.Dict
use scrutiny.Prelude.Dict.{Dict}
use scrutiny.Memory.Content
use scrutiny.Memory.Content.{MemoryContent}
use scrutiny.Protocol.Commands.{Command}
use scrutiny.Protocol.Request.{Request}
use scrutiny.Protocol.Response
use scrutiny.Protocol.Response.{Response}
use scrutiny.Protocol.MemoryControl.{address_count, parse_read_response}
use scrutiny.Protocol.MemoryControl.Ranges.{parse_read_request}
use scrutiny.Protocol.MemoryControl.Rpv.{parse_read_rpv_response}
use scrutiny.Reader.State.{
  Variable, Published, RawMemoryReadRequest, Reason, Event, Protocol, MemoryReader,
  clear_active_raw_read_request,
}

-- The new state, what was told, and what was raised.
abbrev pub Reaction : Type 0
Reaction = MemoryReader × List Event × Result (Unit {0})

unfoldable pub read_completed : MemoryReader → MemoryReader
read_completed s = record s { pending_request = none }

-- The blocks of the answer, written to a memory.
unfoldable pub write_blocks : MemoryContent → List (ℕ × Bytes) → Result MemoryContent
write_blocks memory [] = ok memory
write_blocks memory ((address, d) ∷ more) = do
  memory' ← Content.write memory address d
  write_blocks memory' more

-- The loop over the entries: what it told until it ended or raised.
unfoldable pub update_entries : Protocol → MemoryContent → List Variable → List Event
update_entries p memory [] = []
update_entries p memory (v ∷ vs) =
    elim (Content.read memory (v.address % address_count p.address_format) v.size) [
      | err e ↦ []
      | ok d ↦ Event.set_value_from_data v.entry_id d ∷ update_entries p memory vs
    ]

-- The first entry that is updated clears the list of the entries that wait.
abbrev pub wait_unless : List Event → List Variable → List Variable
wait_unless [] vs = vs
wait_unless (event ∷ more) vs = []

unfoldable pub update_variables : Protocol → MemoryReader → Response → MemoryReader × List Event
unfolding write_blocks update_entries
update_variables p s r =
    elim (parse_read_response p.address_format r >>= write_blocks (Content.new true)) [
      | err e ↦ (s, [])
      | ok memory ↦
          let events = update_entries p memory s.entries_in_pending_read_var_request in
          (
            record s {
              entries_in_pending_read_var_request =
                  wait_unless events s.entries_in_pending_read_var_request;
            },
            events,
          )
    ]

-- Whether the block is the one that was asked for, at the place that the active request is at.
unfoldable pub expected_block :
    MemoryReader → RawMemoryReadRequest → List (ℕ × ℕ) → List (ℕ × Bytes) → Option Bytes
expected_block s a ((address, size) ∷ []) ((address', d) ∷ []) =
    if (address' == address)
      && (length d == size)
      && (address' + length d == (a.address + s.active_raw_read_request_cursor))
    then some d
    else none
expected_block s a _ _ = none

-- The data of a block that is the expected one, or an exception.
unfoldable pub received :
    Protocol → MemoryReader → RawMemoryReadRequest → Request → Response → Result Bytes
unfolding expected_block
received p s a q r = do
  asked ← parse_read_request p.address_format q
  blocks ← parse_read_response p.address_format r
  elim (expected_block s a asked blocks) [ none ↦ err assertion_error | some d ↦ ok d ]

unfoldable pub finish :
    MemoryReader → RawMemoryReadRequest → Option Bytes → Reason → MemoryReader × List Event
unfolding clear_active_raw_read_request
finish s a result reason =
    (clear_active_raw_read_request s, Event.set_completed a result reason ∷ [])

unfoldable pub continue_raw :
    MemoryReader → RawMemoryReadRequest → Result Bytes → MemoryReader × List Event
unfolding finish
continue_raw s a (err e) = finish s a none Reason.failed_with
continue_raw s a (ok d) =
    let total = s.active_raw_read_request_data ++ d in
    if leb a.size (length total)
    then finish s a (some total) Reason.no_reason
    else (record s { active_raw_read_request_data = total }, [])

abbrev pub is_ok : Response → Bool
is_ok r = Response.code_value r.code == 0

unfoldable pub success_callback_memory_read :
    Protocol
    → MemoryReader
    → Request
    → Response
    → List Variable
    → Option RawMemoryReadRequest
    → Reaction
unfolding update_variables continue_raw received
success_callback_memory_read p s q r (v ∷ vs) (some a) = (s, [], err assertion_error)
success_callback_memory_read p s q r (v ∷ vs) none =
    if is_ok r
    then (let (s', events) = update_variables p s r in (s', events, ok tt))
    else (s, [], ok tt)
success_callback_memory_read p s q r [] none = (s, [], ok tt)
success_callback_memory_read p s q r [] (some a) =
    let (s', events) =
      if is_ok r then continue_raw s a (received p s a q r) else finish s a none Reason.refused in
    (s', events, ok tt)

-- The loop over the published values of an answer.
unfoldable pub update_published : Dict Published → List (ℕ × Bytes) → List Event
update_published waiting [] = []
update_published waiting ((id, d) ∷ more) = elim (Dict.get waiting id) [
  | none ↦ update_published waiting more
  | some e ↦ Event.set_value_from_data e.entry_id d ∷ update_published waiting more
]

unfoldable pub success_callback_rpv_read : Protocol → MemoryReader → Response → List Event
unfolding update_published
success_callback_rpv_read p s r =
    if is_ok r
    then elim (parse_read_rpv_response p.rpv_map r) [
      | err e ↦ []
      | ok values ↦ update_published s.entries_in_pending_read_rpv_request values
    ]
    else []

-- By the subfunction of the answer; only 1 to 5 are members of the enumeration.
unfoldable pub success_of : Protocol → MemoryReader → Request → Response → ℕ → Reaction
unfolding success_callback_memory_read success_callback_rpv_read
success_of p s q r subfn =
    if subfn == 1
    then success_callback_memory_read p s q r s.entries_in_pending_read_var_request
        s.active_raw_read_request
    else if subfn == 4
    then (s, success_callback_rpv_read p s r, ok tt)
    else if (subfn == 0) || leb 6 subfn
    then (s, [], err value_error)
    else (s, [], ok tt)

abbrev pub is_memory_control : Command → Bool
is_memory_control Command.memory_control = true
is_memory_control _ = false

-- Behind what a callback did: `read_completed`, unless it raised.
abbrev pub completing : Reaction → Reaction
completing (s, events, ok done) = (read_completed s, events, ok tt)
completing (s, events, err e) = (s, events, err e)

unfoldable pub success_for :
    Protocol → MemoryReader → Request → Response → Option Request → Reaction
unfolding success_of read_completed
success_for p s q r none = (s, [], err assertion_error)
success_for p s q r (some pending) =
    completing (if is_memory_control q.command then success_of p s q r r.subfn else (s, [], ok tt))

-- The dispatcher calls back with the request that it was given, which is the pending one if there is one.
unfoldable pub success_callback : Protocol → MemoryReader → Request → Response → Reaction
unfolding success_for
success_callback p s q r = success_for p s q r s.pending_request

unfoldable pub failure_of :
    MemoryReader → ℕ → Option RawMemoryReadRequest → MemoryReader × List Event
unfolding finish
failure_of s subfn none = (s, [])
failure_of s subfn (some a) = if subfn == 1 then finish s a none Reason.no_response else (s, [])

-- The reader's own requests have the subfunctions 1 and 4.
unfoldable pub failure_callback : MemoryReader → Request → MemoryReader × List Event
unfolding failure_of read_completed
failure_callback s q =
    let (s', events) = failure_of s q.subfn s.active_raw_read_request in (read_completed s', events)
