-- ===== src/Writer/Repeated.antt =====
-- A writer that works on an update whose value can not be made valid (memory_writer.py), call by call.
use scrutiny.Prelude.{
  ℕ, zero, suc, ◌≡◌, refl, ap, ◌∙◌, true, false, some, none, List, [], ◌∷◌, ◌++◌, ◌||◌, ◌&&◌, not,
  arith, if_true, if_false, Exn, ok, err, assertion_error,
}
use scrutiny.Dispatch.Dispatcher.{RequestDispatcher}
use scrutiny.Connect.Submit.{Answer}
use scrutiny.Reader.State.{Protocol}
use scrutiny.Writer.State.{
  Entry, Codec, UpdateTargetRequest, RawMemoryWriteRequest, Event, MemoryWriter,
}
use scrutiny.Writer.Entries.{
  encoded, valid_value, write_value, update_of, update_for, make_next_entry_write_request,
}
use scrutiny.Writer.Process.{process, next_request, send, raw_work, entry_work, is_some, waits}

-- What was told before, in front.
abbrev pub prepend :
    {V K : Type 0}
    → List (Event V)
    → Answer (MemoryWriter V × List (Event V)) K
    → Answer (MemoryWriter V × List (Event V)) K
prepend told ((t, more), d, out) = ((t, told ++ more), d, out)

-- The next call, unless this one raised.
unfoldable pub after_turn :
    {V K : Type 0}
    → (MemoryWriter V → RequestDispatcher K → Answer (MemoryWriter V × List (Event V)) K)
    → Answer (MemoryWriter V × List (Event V)) K
    → Answer (MemoryWriter V × List (Event V)) K
after_turn again (t, d, err e) = (t, d, err e)
after_turn again ((t, told), d, ok done) = prepend told (again t d)

-- The calls of `process`, one after the other; nothing is answered between them.
unfoldable pub turns :
    {V K : Type 0}
    → ℕ
    → Codec V
    → Protocol
    → MemoryWriter V
    → ℕ
    → K
    → RequestDispatcher K
    → Answer (MemoryWriter V × List (Event V)) K
unfolding after_turn
turns zero c p s now k d = ((s, []), d, ok tt)
turns (suc n) c p s now k d = after_turn (λ t d'. turns n c p t now k d') (process c p s now k d)

abbrev pub copies : {V : Type 0} → ℕ → Event V → List (Event V)
copies zero x = []
copies (suc n) x = x ∷ copies n x

-- A writer that is started and waits for nothing.
pub runs :
    {V K : Type 0} (c : Codec V) (p : Protocol) (s : MemoryWriter V) (now : ℕ) (k : K)
    (d : RequestDispatcher K)
    → s.started ≡ true
    → s.stop_requested ≡ false
    → s.pending_request ≡ none
    → process c p s now k d ≡ send d now k (next_request c p s)
unfolding process
runs c p s now k d started running quiet =
    let up : not s.started || (s.stop_requested && not (is_some s.pending_request)) ≡ false =
      simp (started, running) in
    if_false _ _ up ∙ if_false _ _ (ap is_some quiet)

-- A writer that has no raw write to make and an entry to write.
pub chooses_entry :
    {V : Type 0} (c : Codec V) (p : Protocol) (s : MemoryWriter V)
    → s.active_raw_write_request ≡ none
    → s.raw_write_request_queue ≡ []
    → is_some s.entry_being_updated || waits s.target_update_request_queue ≡ true
    → next_request c p s ≡ make_next_entry_write_request c p s
unfolding next_request raw_work entry_work
chooses_entry c p s idle empty work =
    let no_raw : is_some s.active_raw_write_request || waits s.raw_write_request_queue ≡ false =
      simp (idle, empty) in
    if_false _ _ no_raw ∙ if_true _ _ work

module _ {V : Type 0} (c : Codec V) (p : Protocol) (e : Entry) (u : UpdateTargetRequest V) (v : V)
    (x : Exn) (invalid : valid_value c e v ≡ err x) (value : u.value ≡ some v) where
  -- The state of a writer that works on the update.
  pub record Working (s : MemoryWriter V) : Type 0 where
    pub started : s.started ≡ true
    pub running : s.stop_requested ≡ false
    pub quiet : s.pending_request ≡ none
    pub entry : s.entry_being_updated ≡ some e
    pub update : s.target_update_request_being_processed ≡ some u

  -- Refusing to encode completes the update, and changes nothing that the writer goes by.
  refused :
      (s : MemoryWriter V) (t : Entry)
      → Working s
      → (s' : MemoryWriter V) × (encoded c p s [] u t (err x)
          ≡ (s', Event.complete u false ∷ [], ok none))
        × Working s'
        × (s'.active_raw_write_request ≡ s.active_raw_write_request)
        × (s'.raw_write_request_queue ≡ s.raw_write_request_queue)
        × (s'.target_update_request_queue ≡ s.target_update_request_queue)
  unfolding encoded
  refused s (Entry.variable id address t bitsize) h = (
    record s { target_update_value_written = none },
    refl,
    record {
      started = h.started;
      running = h.running;
      quiet = h.quiet;
      entry = h.entry;
      update = h.update;
    },
    refl,
    refl,
    refl,
  )
  refused s (Entry.published id n t) h = (s, refl, h, refl, refl, refl)

  made :
      (s : MemoryWriter V)
      → Working s
      → make_next_entry_write_request c p s ≡ encoded c p s [] u e (err x)
  unfolding make_next_entry_write_request update_for update_of write_value
  made s h =
      ap (update_for c p s) h.entry
      ∙ ap (update_of c p s [] (some e)) h.update
      ∙ ap (write_value c p s [] u e) value
      ∙ ap (encoded c p s [] u e) invalid

  -- Without raw work.
  one_turn :
      {K : Type 0} (s : MemoryWriter V) (now : ℕ) (k : K) (d : RequestDispatcher K)
      → Working s
      → s.active_raw_write_request ≡ none
      → s.raw_write_request_queue ≡ []
      → process c p s now k d ≡ send d now k (encoded c p s [] u e (err x))
  one_turn s now k d h idle empty =
      let work : is_some s.entry_being_updated || waits s.target_update_request_queue ≡ true =
        simp (h.entry) in
      runs c p s now k d h.started h.running h.quiet
      ∙ ap (send d now k) (chooses_entry c p s idle empty work ∙ made s h)

  pub blocked :
      {K : Type 0} (s : MemoryWriter V) (now : ℕ) (k : K) (d : RequestDispatcher K)
      (r : RawMemoryWriteRequest) (rest : List RawMemoryWriteRequest)
      → Working s
      → s.raw_write_request_queue ≡ r ∷ rest
      → process c p s now k d ≡ ((s, []), d, err assertion_error)
  unfolding next_request raw_work send
  blocked s now k d r rest h queue =
      let work : is_some s.active_raw_write_request || waits s.raw_write_request_queue ≡ true =
        ground (arith, queue) in
      runs c p s now k d h.started h.running h.quiet
      ∙ ap (send d now k) (if_true _ _ work ∙ if_true _ _ (ap is_some h.entry))

  sent :
      {K : Type 0} (s : MemoryWriter V) (now : ℕ) (k : K) (d : RequestDispatcher K)
      → Working s
      → s.active_raw_write_request ≡ none
      → s.raw_write_request_queue ≡ []
      → (s' : MemoryWriter V) × (process c p s now k d
          ≡ ((s', Event.complete u false ∷ []), d, ok tt))
        × Working s'
        × (s'.active_raw_write_request ≡ none)
        × (s'.raw_write_request_queue ≡ [])
        × (s'.target_update_request_queue ≡ s.target_update_request_queue)
  unfolding send
  sent s now k d h idle empty =
      let (s', run, h', idle', empty', same) = refused s e h in
      (
        s',
        one_turn s now k d h idle empty ∙ ap (send d now k) run,
        h',
        idle' ∙ idle,
        empty' ∙ empty,
        same,
      )

  another :
      {K : Type 0} (n : ℕ) (s t : MemoryWriter V) (now : ℕ) (k : K) (d : RequestDispatcher K)
      (told : List (Event V)) (last : MemoryWriter V × List (Event V))
      → process c p s now k d ≡ ((t, told), d, ok tt)
      → turns n c p t now k d ≡ (last, d, ok tt)
      → turns (suc n) c p s now k d ≡ ((last.0, told ++ last.1), d, ok tt)
  unfolding turns after_turn
  another n s t now k d told last first more =
      ap (after_turn (λ t' d'. turns n c p t' now k d')) first ∙ ap (prepend told) more

  pub repeats :
      {K : Type 0} (n : ℕ) (s : MemoryWriter V) (now : ℕ) (k : K) (d : RequestDispatcher K)
      → Working s
      → s.active_raw_write_request ≡ none
      → s.raw_write_request_queue ≡ []
      → (s' : MemoryWriter V) × (turns n c p s now k d
          ≡ ((s', copies n (Event.complete u false)), d, ok tt))
        × Working s'
        × (s'.raw_write_request_queue ≡ [])
        × (s'.target_update_request_queue ≡ s.target_update_request_queue)
  unfolding turns after_turn
  repeats zero s now k d h idle empty = (s, refl, h, empty, refl)
  repeats (suc n) s now k d h idle empty =
      let (t, first, h', idle', empty', same) = sent s now k d h idle empty in
      let (s', more, h'', none_left, same') = repeats n t now k d h' idle' empty' in
      (s', another n s t now k d _ _ first more, h'', none_left, same' ∙ same)
