-- ===== src/Reader/Requests.antt =====
-- What `make_next_var_entries_request` (memory_reader.py) asks of the device.
use scrutiny.Prelude.{
  ℕ, suc, ◌+◌, ◌<◌, ◌≤◌, ◌≡◌, refl, ◌∙◌, subst, Bool, false, Option, some, none, List, [], ◌∷◌,
  ◌++◌, map, arith, inl, inr, ◌⊎◌, get_elem?, length, leb, All, All-get, Result, ok, err,
}
use scrutiny.Protocol.Request.{Request}
use scrutiny.Reader.State.{Variable, Protocol, MemoryReader}
use scrutiny.Reader.Variables.{
  Scan, dealt, visit, first_scan, entry_at, block_of, ask, make_next_var_entries_request,
  touches_any, region_of,
}
use scrutiny.Reader.Loop.{Keeps, Ended, loop, loop_ind}
use scrutiny.Reader.Gathering.{Gathered, first-Gathered, visit-Gathered}
use scrutiny.Reader.Fullness.{TooMuch, visit-TooMuch}
use scrutiny.Reader.Asking.{Asked, ask-Asked}
use scrutiny.Reader.Turns.{InTurn, permitted, turn, around, found, visit-InTurn}

abbrev pub first_cursor : MemoryReader → ℕ
first_cursor s = (first_scan s).cursor

module _ (p : Protocol) (s : MemoryReader)
    (full : All (λ (v : Variable). 0 < v.size) s.watched_variables) where
  abbrev Sound : Scan → Type 0
  Sound t = Gathered p s t × InTurn s (first_cursor s) t

  visit-Sound :
      (t : Scan)
      → Sound t
      → dealt t < length s.watched_variables
      → Keeps dealt Sound t (visit p s t)
  visit-Sound t (g, i) more =
      let c : first_cursor s < length s.watched_variables = ground arith in
      let (v, there) = found s (first_cursor s) t c i in
      let size = All-get (λ (v : Variable). 0 < v.size) s.watched_variables t.cursor v full there in
      both v there c (visit p s t) refl (visit-Gathered p s t v (rw (there, entry_at) refl) size g)
    where
      both :
          (v : Variable)
          → get_elem? s.watched_variables t.cursor ≡ some v
          → first_cursor s < length s.watched_variables
          → (r : Result (Option Scan)) → visit p s t ≡ r
          → Keeps dealt (Gathered p s) t r
          → Keeps dealt Sound t r
      both v there c (err e) run k = k
      both v there c (ok none) run k = tt
      both v there c (ok (some t')) run k =
          ((k.0, visit-InTurn p s (first_cursor s) t v t' c more there i run k.1), k.1)

  first-InTurn : InTurn s (first_cursor s) (first_scan s)
  unfolding permitted
  first-InTurn = record {
    count = omega arith;
    place = ground arith;
    passed = λ some. ground arith;
    taken = refl;
  }

  -- The loop ends.
  pub scanned :
      (t : Scan) × (loop
          (suc (length s.watched_variables))
          dealt
          (length s.watched_variables)
          (visit p s)
          (first_scan s)
        ≡ ok t)
      × Sound t
      × Ended dealt (length s.watched_variables) (visit p s) t
  scanned =
      loop_ind dealt (length s.watched_variables) (visit p s) Sound visit-Sound
        (suc (length s.watched_variables)) (first_scan s) (first-Gathered p s, first-InTurn)
        (omega arith) (omega arith)

module _ (p : Protocol) (s : MemoryReader)
    (full : All (λ (v : Variable). 0 < v.size) s.watched_variables)
    (short : s.max_response_payload_size < 65536) where
  -- The call's result, from the last state of the loop.
  returned :
      (t : Scan) (out : Option Request)
      → loop
          (suc (length s.watched_variables))
          dealt
          (length s.watched_variables)
          (visit p s)
          (first_scan s)
        ≡ ok t
      → ask p.address_format (map block_of t.clusters_in_request) ≡ ok out
      → make_next_var_entries_request p s
        ≡ ok (record s { memory_read_cursor = t.cursor }, out, t.entries_in_request, t.wrapped)
  unfolding make_next_var_entries_request
  returned t out run asked = rw run (rw asked refl)

  -- Where the watched variables have some bytes and the limit on the answer fits 16 bits, the call
  -- returns. It has a request unless there are no entries for it; the request and its answer fit the
  -- limits of the device, its blocks are the bytes of the entries and no others, and none of the
  -- entries touches a forbidden region.
  pub make_next_var_entries_request-Asked :
      (s' : MemoryReader) × (out : Option Request) × (entries : List Variable) × (wrapped : Bool)
      × (make_next_var_entries_request p s ≡ ok (s', out, entries, wrapped))
      × Asked p s entries out
      × All (λ (v : Variable). touches_any (region_of v) s.forbidden_regions ≡ false) entries
  make_next_var_entries_request-Asked =
      let (t, run, (g, i), end) = scanned p s full in
      let (out, asked, h) = ask-Asked p s t g short in
      (
        record s { memory_read_cursor = t.cursor },
        out,
        t.entries_in_request,
        t.wrapped,
        returned t out run asked,
        h,
        g.clear,
      )

  -- Why the call takes no more than so many entries: those are all, or the next one has no room.
  abbrev pub Stopped : ℕ → Type 0
  Stopped taken =
      (taken ≡ length s.watched_variables)
      ⊎ ((v : Variable) × (get_elem? s.watched_variables
              (around (length s.watched_variables) (first_cursor s + taken))
            ≡ some v)
          × (touches_any (region_of v) s.forbidden_regions ≡ false)
          × TooMuch p s (
              permitted s.forbidden_regions (turn s.watched_variables (first_cursor s) taken)
              ++ (v ∷ [])))

  stopped :
      (t : Scan)
      → Sound p s full t
      → 0 < length s.watched_variables
      → Ended dealt (length s.watched_variables) (visit p s) t
      → Stopped (dealt t)
  stopped t (g, i) some_watched (inl all) = inl (omega (arith, i.count, all))
  stopped t (g, i) some_watched (inr last) =
      let (v, there) = found s (first_cursor s) t (ground arith) i in
      let size = All-get (λ (v : Variable). 0 < v.size) s.watched_variables t.cursor v full there in
      let (clear, much) = visit-TooMuch p s t v g size (rw (there, entry_at) refl) last in
      inr (
        v,
        subst (λ j. get_elem? s.watched_variables j ≡ some v) i.place there,
        clear,
        subst (λ l. TooMuch p s (l ++ (v ∷ []))) i.taken much,
      )

  -- Where there are watched variables, each of some bytes, and the limit on the answer fits 16 bits: the
  -- call takes the next entries in turn from its cursor on, the last one followed by the first, and
  -- leaves out those that touch a forbidden region. It stops when it has been round all of them, or at
  -- an entry whose blocks, joined with those of the entries taken, exceed a limit of the device. Its
  -- cursor moves on to where it stopped, and it reports a wrap exactly when it passed the last one.
  pub make_next_var_entries_request_in_turn :
      0 < length s.watched_variables
      → (taken : ℕ) × (s' : MemoryReader) × (out : Option Request) × (taken
          ≤ length s.watched_variables)
        × (make_next_var_entries_request p s
            ≡ ok (
              s',
              out,
              permitted s.forbidden_regions (turn s.watched_variables (first_cursor s) taken),
              leb (length s.watched_variables) (first_cursor s + taken),
            ))
        × (s'.memory_read_cursor ≡ around (length s.watched_variables) (first_cursor s + taken))
        × Stopped taken
  make_next_var_entries_request_in_turn some_watched =
      let (t, run, (g, i), end) = scanned p s full in
      let (out, asked, h) = ask-Asked p s t g short in
      let s' = record s { memory_read_cursor = t.cursor } in
      (
        dealt t,
        s',
        out,
        i.count,
        returned t out run asked ∙ results s' out _ _ _ _ i.taken (i.passed some_watched),
        i.place,
        stopped t (g, i) some_watched end,
      )
    where
      results :
          (s' : MemoryReader) (out : Option Request) (xs ys : List Variable) (a b : Bool)
          → xs ≡ ys
          → a ≡ b
          → ◌≡◌ {A = Result (MemoryReader × Option Request × List Variable × Bool)}
              (ok (s', out, xs, a))
              (ok (s', out, ys, b))
      results s' out xs ys a b e f = cc
