-- ===== src/Writer/Stuck.antt =====
-- What becomes of an update whose value can not be made valid (memory_writer.py).
use scrutiny.Prelude.{
  ℕ, suc, ◌≡◌, refl, sym, ap, ◌∙◌, true, false, some, none, List, [], ◌∷◌, ◌++◌, ◌||◌, if_true, Exn,
  ok, err, assertion_error,
}
use scrutiny.Dispatch.Dispatcher.{RequestDispatcher}
use scrutiny.Reader.State.{Protocol}
use scrutiny.Writer.State.{
  Codec, UpdateTargetRequest, RawMemoryWriteRequest, Event, MemoryWriter, request_memory_write,
}
use scrutiny.Writer.Entries.{
  valid_value, update_of, update_for, make_next_entry_write_request, permitted, take_update,
}
use scrutiny.Writer.Updates.{taken_up}
use scrutiny.Writer.Process.{process, send, is_some, waits}
use scrutiny.Writer.Repeated.{
  after_turn, turns, copies, runs, chooses_entry, Working, blocked, repeats,
}

made_from_queue :
    {V : Type 0} (c : Codec V) (p : Protocol) (s : MemoryWriter V) (u : UpdateTargetRequest V)
    (rest : List (UpdateTargetRequest V))
    → s.entry_being_updated ≡ none
    → s.target_update_request_queue ≡ u ∷ rest
    → permitted s u.entry ≡ true
    → make_next_entry_write_request c p s ≡ make_next_entry_write_request c p (taken_up s u rest)
unfolding make_next_entry_write_request update_for take_update
made_from_queue c p s u rest idle queue allowed =
    let after = λ (t : MemoryWriter _ × List (Event _)).
      update_of c p t.0 t.1 t.0.entry_being_updated t.0.target_update_request_being_processed in
    ap (update_for c p s) idle
    ∙ ap (λ (l : List (UpdateTargetRequest _)). after (take_update s l)) queue
    ∙ ap after (if_true _ _ allowed)

module _ {V : Type 0} (c : Codec V) (p : Protocol) (s : MemoryWriter V) (u : UpdateTargetRequest V)
    (rest : List (UpdateTargetRequest V)) (v : V) (x : Exn) (started : s.started ≡ true)
    (running : s.stop_requested ≡ false) (quiet : s.pending_request ≡ none)
    (idle : s.entry_being_updated ≡ none) (no_raw : s.active_raw_write_request ≡ none)
    (empty : s.raw_write_request_queue ≡ []) (queue : s.target_update_request_queue ≡ u ∷ rest)
    (allowed : permitted s u.entry ≡ true) (value : u.value ≡ some v)
    (invalid : valid_value c u.entry v ≡ err x) where
  working : Working c p u.entry u v x invalid value (taken_up s u rest)
  working = record {
    started = started;
    running = running;
    quiet = quiet;
    entry = refl;
    update = refl;
  }

  same_process :
      {K : Type 0} (now : ℕ) (k : K) (d : RequestDispatcher K)
      → process c p s now k d ≡ process c p (taken_up s u rest) now k d
  same_process now k d =
      let work : is_some s.entry_being_updated || waits s.target_update_request_queue ≡ true =
        simp (idle, queue) in
      runs c p s now k d started running quiet
      ∙ ap (send d now k) (
          chooses_entry c p s no_raw empty work
          ∙ (made_from_queue c p s u rest idle queue allowed
              ∙ sym (chooses_entry c p (taken_up s u rest) no_raw empty refl)))
      ∙ sym (runs c p (taken_up s u rest) now k d started running quiet)

  same_turns :
      {K : Type 0} (n : ℕ) (now : ℕ) (k : K) (d : RequestDispatcher K)
      → turns (suc n) c p s now k d ≡ turns (suc n) c p (taken_up s u rest) now k d
  unfolding turns after_turn
  same_turns n now k d = ap (after_turn (λ t d'. turns n c p t now k d')) (same_process now k d)

  -- Where a started writer that is not asked to stop waits for no answer, works on no entry and has no raw
  -- write to make, and the first update in the queue is permitted but its value can not be made valid: in
  -- every call of `process` from then on, however many, the writer tells that the update is complete
  -- without success, and sends nothing. The updates behind it stay in the queue. A raw write that is
  -- requested then is not made: the next call trips an assertion.
  pub process-complete :
      {K : Type 0} (n : ℕ) (now : ℕ) (k : K) (d : RequestDispatcher K)
      → (s' : MemoryWriter V) × (turns (suc n) c p s now k d
          ≡ ((s', copies (suc n) (Event.complete u false)), d, ok tt))
        × (s'.target_update_request_queue ≡ rest)
        × ((r : RawMemoryWriteRequest)
            → process c p (request_memory_write s' r) now k d
              ≡ ((request_memory_write s' r, []), d, err assertion_error))
  unfolding request_memory_write
  process-complete n now k d =
      let (s', run, h, none_left, same) =
        repeats c p u.entry u v x invalid value (suc n) (taken_up s u rest) now k d working no_raw
          empty in
      (
        s',
        same_turns n now k d ∙ run,
        same,
        λ r.
            blocked c p u.entry u v x invalid value (request_memory_write s' r) now k d r []
              (record {
                started = h.started;
                running = h.running;
                quiet = h.quiet;
                entry = h.entry;
                update = h.update;
              })
              (ap (λ (l : List RawMemoryWriteRequest). l ++ (r ∷ [])) none_left),
      )
