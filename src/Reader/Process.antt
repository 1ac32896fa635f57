-- ===== src/Reader/Process.antt =====
-- `MemoryReader.process` (scrutiny/server/device/submodules/memory_reader.py): it asks for the next piece
-- of one kind after the other, until there is a request out or no kind has anything to ask for.
use scrutiny.Prelude.{
  ℕ, zero, suc, Bool, true, false, not, ◌&&◌, ◌||◌, Option, some, none, List, [], ◌∷◌, ◌++◌, length,
  ltb, if◌then◌else◌, ok, err, out_of_fuel,
}
use scrutiny.Prelude.Dict
use scrutiny.Prelude.Dict.{Dict}
use scrutiny.Protocol.Request.{Request}
use scrutiny.Dispatch.Dispatcher.{RequestDispatcher}
use scrutiny.Connect.Submit.{Answer, submit}
use scrutiny.Reader.State.{Published, ReadType, Event, Protocol, MemoryReader, set_standby}
use scrutiny.Reader.Variables.{make_next_var_entries_request}
use scrutiny.Reader.Published.{make_next_read_rpv_request}
use scrutiny.Reader.Raw.{make_next_raw_mem_read_request}
use scrutiny.Reader.Callbacks.{failure_callback}

-- The reader with what it told so far.
abbrev pub Telling : Type 0
Telling = MemoryReader × List Event

-- The failure callback, should the dispatcher make it before it returns.
abbrev pub fails : Request → Telling → Telling
fails q (s, events) = let (s', more) = failure_callback s q in (s', events ++ more)

abbrev pub has_pending : Option Request → Bool
has_pending none = false
has_pending (some q) = true

-- `set_waiting` is what follows the call in the branch.
unfoldable pub dispatch :
    {K : Type 0}
    → RequestDispatcher K
    → ℕ
    → K
    → Request
    → Telling
    → (MemoryReader → MemoryReader)
    → Answer Telling K
dispatch d now k q (s, events) set_waiting =
    submit d now q k s.request_priority (s, events) (fails q)
      (λ t. (set_waiting (record t.0 { pending_request = some q }), t.1))

-- The next kind, if the kind is through or there is nothing to send.
unfoldable pub turn_to : ReadType → Bool → Telling → Telling
turn_to next through (s, events) =
    if through || not (has_pending s.pending_request)
    then (record s { actual_read_type = next }, events)
    else (s, events)

abbrev pub after : {K : Type 0} → ReadType → Bool → Answer Telling K → Answer Telling K
after next through (t, d, ok done) = (turn_to next through t, d, ok tt)
after next through (t, d, err e) = (t, d, err e)

-- Sends the request, if there is one.
unfoldable pub send :
    {K : Type 0}
    → RequestDispatcher K
    → ℕ
    → K
    → Telling
    → Option Request
    → (MemoryReader → MemoryReader)
    → Answer Telling K
unfolding dispatch
send d now k t none set_waiting = (t, d, ok tt)
send d now k t (some q) set_waiting = dispatch d now k q t set_waiting

abbrev pub waiting_for : List Published → Dict Published
waiting_for entries = fill entries Dict.empty
  where
    fill : List Published → Dict Published → Dict Published
    fill [] d = d
    fill (e ∷ es) d = fill es (Dict.put d e.id e)

-- One round of the loop, for the kind that is on.
unfoldable pub read_next :
    {K : Type 0} → Protocol → ℕ → K → Telling → RequestDispatcher K → ReadType → Answer Telling K
unfolding send
read_next p now k (s, events) d ReadType.variable = elim (make_next_var_entries_request p s) [
  | err e ↦ ((s, events), d, err e)
  | ok (s', request, entries, wrapped) ↦ after ReadType.runtime_published_values wrapped (
      send d now k (s', events) request
        (λ t. record t { entries_in_pending_read_var_request = entries }))
]
read_next p now k (s, events) d ReadType.runtime_published_values =
    elim (make_next_read_rpv_request p s) [
      | err e ↦ ((s, events), d, err e)
      | ok (s', request, entries, wrapped) ↦ after ReadType.raw_mem_read wrapped (
          send d now k (s', events) request
            (λ t. record t { entries_in_pending_read_rpv_request = waiting_for entries }))
    ]
read_next p now k (s, events) d ReadType.raw_mem_read =
    let (s', told, made) = make_next_raw_mem_read_request p s in
    elim made [
      | err e ↦ ((s', events ++ told), d, err e)
      | ok (request, done) ↦
          after ReadType.variable done (send d now k (s', events ++ told) request (λ t. t))
    ]

abbrev pub same_type : ReadType → ReadType → Bool
same_type ReadType.variable ReadType.variable = true
same_type ReadType.runtime_published_values ReadType.runtime_published_values = true
same_type ReadType.raw_mem_read ReadType.raw_mem_read = true
same_type _ _ = false

-- read_type_considered.add(t)
unfoldable pub add_type : ReadType → List ReadType → List ReadType
add_type t [] = t ∷ []
add_type t (u ∷ us) = let rest = add_type t us in if same_type t u then u ∷ us else u ∷ rest

-- The loop, on fuel.
unfoldable pub read_loop :
    {K : Type 0}
    → ℕ
    → Protocol
    → ℕ
    → K
    → List ReadType
    → Telling
    → RequestDispatcher K
    → Answer Telling K
unfolding add_type read_next
read_loop zero p now k considered t d = (t, d, err out_of_fuel)
read_loop (suc fuel) p now k considered (s, events) d =
    elim (not (has_pending s.pending_request) && ltb (length considered) 3) [
      | false ↦ ((s, events), d, ok tt)
      | true ↦
          let (t', d', out) = read_next p now k (s, events) d s.actual_read_type in
          elim out [
            | err e ↦ (t', d', err e)
            | ok done ↦ read_loop fuel p now k (add_type s.actual_read_type considered) t' d'
          ]
    ]

-- Each round but the last considers a kind that was not considered before.
unfoldable pub process :
    {K : Type 0} → Protocol → MemoryReader → ℕ → K → RequestDispatcher K → Answer Telling K
unfolding read_loop
process p s now k d =
    if not s.started || (s.stop_requested && not (has_pending s.pending_request))
    then (set_standby s, d, ok tt)
    else read_loop 4 p now k [] (s, []) d
