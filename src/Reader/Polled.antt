-- ===== src/Reader/Polled.antt =====
-- What `make_next_read_rpv_request` (memory_reader.py) asks of the device, and in which order.
use scrutiny.Prelude.{
  ℕ, suc, ◌+◌, ◌<◌, ◌≤◌, ◌≡◌, refl, sym, ap, ◌∙◌, Bool, true, Option, some, none, List, [], ◌∷◌,
  ◌++◌, arith, inl, inr, ◌⊎◌, get_elem?, length, length-append, ltb, leb, ltb→lt, ltb→le,
  if◌then◌else◌, All, if-cases, Bool-cases, Result, ok, Bytes,
}
use scrutiny.Prelude.Dict
use scrutiny.Protocol.Pack.{u16_bytes}
use scrutiny.Protocol.MemoryControl.Rpv.{
  RpvMap, type_of, expected_response_size, pack_ids, read_rpv_request_required_size,
  read_rpv_response_required_size,
}
use scrutiny.Reader.State.{Published, MemoryReader}
use scrutiny.Reader.Loop.{Keeps}
use scrutiny.Reader.Variables.{entry_at}
use scrutiny.Reader.Turns.{turn, turn_next, around, within}
use scrutiny.Reader.Published.{Gather, collected, types_of, ids_of, keep, collect, first_gather}

-- The protocol knows the value, by an identifier of 16 bits and with the type of the entry.
abbrev pub Known : RpvMap → Published → Type 0
Known types e = (Dict.get types e.id ≡ some e.datatype) × (e.id < 65536)

module _ (s : MemoryReader) where
  abbrev pub n : ℕ
  n = length s.watched_published

  abbrev pub first_rpv_cursor : ℕ
  first_rpv_cursor = (first_gather s).cursor

  -- The sizes that the entries need are within the limits.
  pub record Room (entries : List Published) : Type 0 where
    pub sent : read_rpv_request_required_size (types_of entries) ≤ s.max_request_payload_size
    pub answered : read_rpv_response_required_size (types_of entries) ≤ s.max_response_payload_size

  pub record InOrder (t : Gather) : Type 0 where
    pub count : collected t ≤ n
    pub place : t.cursor ≡ around n (first_rpv_cursor + collected t)
    pub passed : 0 < n → t.wrapped ≡ leb n (first_rpv_cursor + collected t)
    pub taken : t.entries_in_request ≡ turn s.watched_published first_rpv_cursor (collected t)
    pub room : Room t.entries_in_request

  pub first-InOrder : InOrder (first_gather s)
  unfolding read_rpv_request_required_size read_rpv_response_required_size
  first-InOrder = record {
    count = omega arith;
    place = ground arith;
    passed = λ some. ground arith;
    taken = refl;
    room = record { sent = omega arith; answered = omega arith };
  }

  module _ (t : Gather) (e : Published) (i : InOrder t) (more : collected t < n)
      (there : get_elem? s.watched_published t.cursor ≡ some e) where
    abbrev candidates : List Published
    candidates = t.entries_in_request ++ (e ∷ [])

    one_more : length candidates ≡ suc (collected t)
    one_more = omega (arith, length-append t.entries_in_request (e ∷ []))

    in_order : candidates ≡ turn s.watched_published first_rpv_cursor (length candidates)
    in_order =
        ap (λ l. l ++ (e ∷ [])) i.taken
        ∙ sym (
            turn_next s.watched_published first_rpv_cursor (collected t) e (ground arith) more
              (rw (← i.place) there))
        ∙ ap (λ (k : ℕ). turn s.watched_published first_rpv_cursor k) (sym one_more)

    latched :
        (cursor : ℕ) (wrapped : Bool)
        → cursor ≡ (if leb n (suc t.cursor) then 0 else suc t.cursor)
        → wrapped ≡ (if leb n (suc t.cursor) then true else t.wrapped)
        → Room candidates
        → InOrder (record { cursor = cursor; wrapped = wrapped; entries_in_request = candidates })
    latched cursor wrapped moved flagged room = record {
      count = omega (arith, one_more, more);
      place = ground (arith, i.place, i.count, one_more, moved);
      passed = λ some. ground (arith, i.place, i.count, i.passed some, one_more, flagged);
      taken = in_order;
      room = room;
    }

    abbrev Good : Option Gather → Type 0
    Good o = Keeps collected InOrder t (ok o)

    keep-Keeps : Good (keep s t candidates)
    unfolding keep
    keep-Keeps =
        let request = read_rpv_request_required_size (types_of candidates) in
        let answer = read_rpv_response_required_size (types_of candidates) in
        if-cases Good (ltb s.max_request_payload_size request) _ _ (λ h. tt)
          (λ h.
            if-cases Good (ltb s.max_response_payload_size answer) _ _ (λ k. tt)
              (λ k.
                let room : Room candidates = record {
                  sent = ltb→le _ _ h;
                  answered = ltb→le _ _ k;
                } in
                if-cases Good (leb n (suc t.cursor)) _ _
                  (λ w. (latched 0 true (rw w refl) (rw w refl) room, one_more))
                  (λ w. (latched (suc t.cursor) t.wrapped (rw w refl) (rw w refl) room, one_more))))

  -- Why the call takes no more entries.
  abbrev pub Full : List Published → Type 0
  Full entries =
      (s.max_request_payload_size < read_rpv_request_required_size (types_of entries))
      ⊎ (s.max_response_payload_size < read_rpv_response_required_size (types_of entries))

  pub collect-Keeps :
      (t : Gather) → InOrder t → collected t < n → Keeps collected InOrder t (collect s t)
  unfolding collect
  collect-Keeps t i more =
      let (e, there) = within s.watched_published t.cursor (ground (arith, i.place, i.count)) in
      let at : entry_at s.watched_published t.cursor ≡ ok e = rw (there, entry_at) refl in
      rw at (keep-Keeps t e i more there)

  keep-Full :
      (t : Gather) (candidates : List Published) → keep s t candidates ≡ none → Full candidates
  unfolding keep
  keep-Full t candidates h =
      let request = read_rpv_request_required_size (types_of candidates) in
      let answer = read_rpv_response_required_size (types_of candidates) in
      elim (Bool-cases (ltb s.max_request_payload_size request)) [
        | inl k ↦ inl (ltb→lt _ _ k)
        | inr k ↦ inr (ltb→lt _ _ (ground (arith, rw k at h)))
      ]

  pub collect-Full :
      (t : Gather) (e : Published)
      → get_elem? s.watched_published t.cursor ≡ some e
      → collect s t ≡ ok none
      → Full (t.entries_in_request ++ (e ∷ []))
  unfolding collect
  collect-Full t e there h =
      let at : entry_at s.watched_published t.cursor ≡ ok e = rw (there, entry_at) refl in
      keep-Full t (t.entries_in_request ++ (e ∷ [])) (unwrapped _ (rw at at h))
    where
      unwrapped : (o : Option Gather) → ◌≡◌ {A = Result (Option Gather)} (ok o) (ok none) → o ≡ none
      unwrapped o e = cc

-- The identifiers of known values make a request of the sizes that the loop reckoned.
module _ (types : RpvMap) where
  pub answer_expected :
      (es : List Published)
      → All (Known types) es
      → expected_response_size types (ids_of es)
        ≡ ok (read_rpv_response_required_size (types_of es))
  unfolding expected_response_size type_of read_rpv_response_required_size
  answer_expected [] h = refl
  answer_expected (e ∷ es) h = ground (arith, h.0.0, answer_expected es h.1)

  pub ids_packed :
      (es : List Published)
      → All (Known types) es
      → (d : Bytes) × (pack_ids (ids_of es) ≡ ok d)
        × (length d ≡ read_rpv_request_required_size (types_of es))
  unfolding pack_ids read_rpv_request_required_size
  ids_packed [] h = ([], refl, omega arith)
  ids_packed (e ∷ es) h =
      let (d, run, size) = ids_packed es h.1 in
      (u16_bytes e.id ++ d, ground (arith, h.0.1, run), omega (arith, size))
