-- ===== src/Reader/PolledTurns.antt =====
-- The whole of `make_next_read_rpv_request` (memory_reader.py): the order of the values, and the limits.
use scrutiny.Prelude.{
  ℕ, suc, ◌+◌, ◌<◌, ◌≤◌, ◌≡◌, refl, ap, ◌∙◌, subst, Bool, Option, some, none, List, [], ◌∷◌, ◌++◌,
  arith, inl, inr, ◌⊎◌, get_elem?, length, leb, take, drop, All, All-append, All-take, All-drop,
  Result, ok,
}
use scrutiny.Protocol.Commands.{Command}
use scrutiny.Protocol.Request
use scrutiny.Protocol.Request.{Request}
use scrutiny.Protocol.MemoryControl.Rpv.{
  read_rpv_response_required_size, read_runtime_published_values,
}
use scrutiny.Reader.State.{Published, Protocol, MemoryReader}
use scrutiny.Reader.Loop.{Ended, loop, loop_ind}
use scrutiny.Reader.Turns.{turn, around, within}
use scrutiny.Reader.Published.{
  Gather, collected, types_of, ids_of, collect, first_gather, ask_rpv, make_next_read_rpv_request,
}
use scrutiny.Reader.Polled.{
  Known, first_rpv_cursor, Room, InOrder, first-InOrder, Full, collect-Keeps, collect-Full,
  answer_expected, ids_packed,
}

-- The request asks for the values, and it and its answer fit the device.
abbrev pub Polls : Protocol → MemoryReader → List Published → Option Request → Type 0
Polls p s entries none = entries ≡ []
Polls p s entries (some q) =
    (read_runtime_published_values p.rpv_map (ids_of entries) ≡ ok q)
    × (Request.data_size q ≤ s.max_request_payload_size)
    × (Request.get_expected_response_data_size q ≤ s.max_response_payload_size)

ask-Polls :
    (p : Protocol) (s : MemoryReader) (es : List Published)
    → All (Known p.rpv_map) es
    → Room s es
    → (out : Option Request) × (ask_rpv p (ids_of es) ≡ ok out) × Polls p s es out
unfolding ask_rpv
ask-Polls p s [] h room = (none, refl, refl)
ask-Polls p s (e ∷ es) h room =
    let (d, packed, size) = ids_packed p.rpv_map (e ∷ es) h in
    let q : Request = record {
      command = Command.memory_control;
      subfn = 4;
      payload = d;
      response_payload_size = read_rpv_response_required_size (types_of (e ∷ es));
    } in
    let built : read_runtime_published_values p.rpv_map (ids_of (e ∷ es)) ≡ ok q =
      unfold read_runtime_published_values in
      rw (answer_expected p.rpv_map (e ∷ es) h) (rw packed refl) in
    (
      some q,
      rw built refl,
      (
        built,
        unfold Request.data_size in omega (arith, size, room.sent),
        unfold Request.get_expected_response_data_size in room.answered,
      ),
    )

module _ (p : Protocol) (s : MemoryReader) (known : All (Known p.rpv_map) s.watched_published) where
  -- Those are all, or the next one has no room.
  abbrev pub Stopped : ℕ → Type 0
  Stopped taken =
      (taken ≡ length s.watched_published)
      ⊎ ((e : Published) × (get_elem? s.watched_published
              (around (length s.watched_published) (first_rpv_cursor s + taken))
            ≡ some e)
          × Full s (turn s.watched_published (first_rpv_cursor s) taken ++ (e ∷ [])))

  turn-Known : (c k : ℕ) → All (Known p.rpv_map) (turn s.watched_published c k)
  turn-Known c k =
      let P = Known p.rpv_map in
      All-take P k (drop c s.watched_published ++ take c s.watched_published) (
        All-append P (drop c s.watched_published) (take c s.watched_published)
          (All-drop P c s.watched_published known) (All-take P c s.watched_published known))

  stopped :
      (t : Gather)
      → InOrder s t
      → 0 < length s.watched_published
      → Ended collected (length s.watched_published) (collect s) t
      → Stopped (collected t)
  stopped t i some_watched (inl all) = inl (omega (arith, i.count, all))
  stopped t i some_watched (inr last) =
      let (e, there) = within s.watched_published t.cursor (ground (arith, i.place, i.count)) in
      inr (
        e,
        subst (λ j. get_elem? s.watched_published j ≡ some e) i.place there,
        subst (λ l. Full s (l ++ (e ∷ []))) i.taken (collect-Full s t e there last),
      )

  returned :
      (t : Gather) (out : Option Request) (es : List Published) (w : Bool)
      → loop
          (suc (length s.watched_published))
          collected
          (length s.watched_published)
          (collect s)
          (first_gather s)
        ≡ ok t
      → t.entries_in_request ≡ es
      → t.wrapped ≡ w
      → ask_rpv p (ids_of es) ≡ ok out
      → make_next_read_rpv_request p s ≡ ok (record s { rpv_read_cursor = t.cursor }, out, es, w)
  unfolding make_next_read_rpv_request
  returned t out es w run e f asked =
      rw run (rw (ap (λ l. ask_rpv p (ids_of l)) e ∙ asked) (results t out _ _ _ _ e f))
    where
      results :
          (t : Gather) (out : Option Request) (xs ys : List Published) (a b : Bool)
          → xs ≡ ys
          → a ≡ b
          → ◌≡◌ {A = Result (MemoryReader × Option Request × List Published × Bool)}
              (ok (record s { rpv_read_cursor = t.cursor }, out, xs, a))
              (ok (record s { rpv_read_cursor = t.cursor }, out, ys, b))
      results t out xs ys a b e f = cc

  -- Where there are watched values, each known to the protocol by an identifier of 16 bits and with its
  -- type: the call returns. It takes the next values in turn from its cursor on, the last one followed
  -- by the first, and stops when it has taken all of them, or where one more would exceed a limit of the
  -- device. Its request asks for those, and it and its answer fit the limits. The cursor moves on to
  -- where the call stopped, and a wrap is reported exactly when the last one was passed.
  pub make_next_read_rpv_request_in_turn :
      0 < length s.watched_published
      → (taken : ℕ) × (s' : MemoryReader) × (out : Option Request) × (taken
          ≤ length s.watched_published)
        × (make_next_read_rpv_request p s
            ≡ ok (
              s',
              out,
              turn s.watched_published (first_rpv_cursor s) taken,
              leb (length s.watched_published) (first_rpv_cursor s + taken),
            ))
        × (s'.rpv_read_cursor ≡ around (length s.watched_published) (first_rpv_cursor s + taken))
        × Polls p s (turn s.watched_published (first_rpv_cursor s) taken) out
        × Stopped taken
  make_next_read_rpv_request_in_turn some_watched =
      let (t, run, i, end) =
        loop_ind collected (length s.watched_published) (collect s) (InOrder s) (collect-Keeps s)
          (suc (length s.watched_published)) (first_gather s) (first-InOrder s) (omega arith)
          (omega arith) in
      let entries = turn s.watched_published (first_rpv_cursor s) (collected t) in
      let (out, asked, h) =
        ask-Polls p s entries (turn-Known (first_rpv_cursor s) (collected t))
          (subst (Room s) i.taken i.room) in
      let s' = record s { rpv_read_cursor = t.cursor } in
      (
        collected t,
        s',
        out,
        i.count,
        returned t out _ _ run i.taken (i.passed some_watched) asked,
        i.place,
        h,
        stopped t i some_watched end,
      )
