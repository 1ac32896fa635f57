-- ===== src/Writer/Updates.antt =====
-- The update of an entry (memory_writer.py) that a device stores.
use scrutiny.Prelude.{
  ℕ, ◌<◌, ◌≡◌, refl, ap, ◌∙◌, if_true, if_false, Bool, true, false, Option, some, none, List, [],
  ◌∷◌, ◌++◌, arith, All, Bytes, length, Result, ok, err, ◌>>=◌,
}
use scrutiny.Values.DataType.{EmbeddedDataType}
use scrutiny.Protocol.Request.{Request}
use scrutiny.Protocol.Response.{Response}
use scrutiny.Protocol.MemoryControl.{address_count}
use scrutiny.Protocol.MemoryControl.Masked.{write_memory_block}
use scrutiny.Reader.State.{Protocol}
use scrutiny.Reader.Callbacks.{is_ok}
use scrutiny.Writer.State.{
  Entry, Codec, UpdateTargetRequest, Event, MemoryWriter, clear_active_entry_write_request,
}
use scrutiny.Writer.Raw.{Piece}
use scrutiny.Writer.Entries.{
  as_request, permitted, take_update, encoded, write_variable, valid_value, write_value, update_of,
  update_for, make_next_entry_write_request,
}
use scrutiny.Writer.Callbacks.{
  Reaction, write_matches, completed, completing, end_update, store_variable, memory_written,
  success_of, success_for, success_callback, success_callback_var_write,
}
use scrutiny.Writer.Device.{Cells, store, Round, round, Exchanged, settled, exchange_of}
use scrutiny.Writer.Pieces.{matches}

-- The state in which the update at the head of the queue is worked on.
abbrev pub taken_up :
    {V : Type 0}
    → MemoryWriter V
    → UpdateTargetRequest V
    → List (UpdateTargetRequest V)
    → MemoryWriter V
taken_up s u rest = record s {
  target_update_request_queue = rest;
  target_update_request_being_processed = some u;
  entry_being_updated = some u.entry;
}

module _ {V : Type 0} where
  abbrev pub refusals : List (UpdateTargetRequest V) → List (Event V)
  refusals [] = []
  refusals (u ∷ us) = Event.complete u false ∷ refusals us

  abbrev pub Refused : MemoryWriter V → UpdateTargetRequest V → Type 0
  Refused s u = permitted s u.entry ≡ false

  after_refusals :
      (s : MemoryWriter V) (before : List (UpdateTargetRequest V)) (u : UpdateTargetRequest V)
      (more : List (UpdateTargetRequest V))
      → All (Refused s) before
      → permitted s u.entry ≡ true
      → take_update s (before ++ (u ∷ more)) ≡ (taken_up s u more, refusals before)
  unfolding take_update
  after_refusals s [] u more h allowed = if_true _ _ allowed
  after_refusals s (b ∷ before) u more (h, hs) allowed =
      if_false _ _ h
      ∙ ap (λ (t : MemoryWriter V × List (Event V)). (t.0, Event.complete b false ∷ t.1))
          (after_refusals s before u more hs allowed)

  -- One request for an entry, and the answer.
  unfoldable pub entry_exchange : Codec V → Protocol → Cells → MemoryWriter V → Result (Exchanged V)
  unfolding exchange_of
  entry_exchange c p cells s =
      let (s', told, made) = make_next_entry_write_request c p s in exchange_of p cells s' told made

  success_var :
      (p : Protocol) (s : MemoryWriter V) (u : UpdateTargetRequest V) (e : Entry) (v : V)
      (q : Request) (r : Response)
      → s.pending_request ≡ some q
      → r.subfn ≡ 2
      → s.entry_being_updated ≡ some e
      → s.target_update_request_being_processed ≡ some u
      → s.target_update_value_written ≡ some v
      → is_ok r ≡ true
      → write_matches p.address_format q r ≡ ok true
      → success_callback p s q r ≡ (
        completed (clear_active_entry_write_request s),
        Event.set_value e (some v) ∷ Event.complete u true ∷ [],
        ok tt,
      )
  unfolding success_callback success_for success_of memory_written success_callback_var_write
      store_variable end_update
  success_var p s u e v q r pending subfn entry update value good match =
      ap (success_for p s q r) pending
      ∙ ap (λ (n : ℕ). completing (success_of p s q r n)) subfn
      ∙ ap (λ (o : Option Entry). completing (memory_written p s q r o s.active_raw_write_request))
          entry
      ∙ ap
          (λ (o : Option (UpdateTargetRequest V)).
            completing (success_callback_var_write p s q r e o))
          update
      ∙ ap completing (if_true _ _ good)
      ∙ ap
          (λ (m : Result Bool). completing (elim m as (λ x. Reaction V) [
            | err x ↦ (s, [], err x)
            | ok true ↦ store_variable s u e s.target_update_value_written
            | ok false ↦ end_update s u false []
          ]))
          match
      ∙ ap (λ (o : Option V). completing (store_variable s u e o)) value

  module _ (c : Codec V) (p : Protocol) (s : MemoryWriter V) (before : List (UpdateTargetRequest V))
      (u : UpdateTargetRequest V) (more : List (UpdateTargetRequest V)) (id address : ℕ)
      (t : EmbeddedDataType) (bitsize : Option ℕ) (v v' : V) (d : Bytes)
      (idle : s.entry_being_updated ≡ none)
      (queue : s.target_update_request_queue ≡ before ++ (u ∷ more))
      (refused : All (Refused s) before) (allowed : permitted s u.entry ≡ true)
      (entry : u.entry ≡ Entry.variable id address t bitsize) (value : u.value ≡ some v)
      (valid : c.make_value_valid t v bitsize ≡ ok v')
      (unmasked : c.encode_variable t bitsize v' ≡ ok (d, none))
      (fits : address < address_count p.address_format) (short : length d < 65536) where
    there : Round p.address_format address d
    there = round p.address_format address d fits short

    abbrev taking : MemoryWriter V
    taking = record (taken_up s u more) { target_update_value_written = some v' }

    made : make_next_entry_write_request c p s ≡ (taking, refusals before, ok (some there.request))
    unfolding make_next_entry_write_request update_for update_of write_value valid_value encoded
        write_variable write_memory_block
    made =
        let after = λ (w : MemoryWriter V × List (Event V)).
          update_of c p w.0 w.1 w.0.entry_being_updated w.0.target_update_request_being_processed in
        ap (update_for c p s) idle
        ∙ ap (λ (l : List (UpdateTargetRequest V)). after (take_update s l)) queue
        ∙ ap after (after_refusals s before u more refused allowed)
        ∙ ap (write_value c p (taken_up s u more) (refusals before) u u.entry) value
        ∙ ap
            (λ (e : Entry).
              encoded c p (taken_up s u more) (refusals before) u e (valid_value c e v))
            entry
        ∙ ap
            (encoded c p (taken_up s u more) (refusals before) u
              (Entry.variable id address t bitsize))
            valid
        ∙ ap
            (λ (m : Result (Bytes × Option Bytes)). (
              taking,
              refusals before,
              as_request (m >>= (λ x. write_memory_block p.address_format address x.0 x.1)),
            ))
            unmasked
        ∙ ap (λ (m : Result Request). (taking, refusals before, as_request m)) there.sent

    -- The first permitted update in the queue of a writer that works on none, of a variable whose value is
    -- made valid and encoded without a mask: the updates before it complete without success, the device
    -- stores the bytes at the variable's address and nothing else, the entry takes the value that was made
    -- valid, and the update completes with success. Then the writer works on no entry, and the updates
    -- behind it are in the queue. The address fits the format, and the number of bytes 16 bits.
    pub entry_exchange-store :
        (cells : Cells)
        → (s' : MemoryWriter V) × (entry_exchange c p cells s
            ≡ ok (
              s',
              store cells address d,
              refusals before ++ (Event.set_value u.entry (some v') ∷ Event.complete u true ∷ []),
            ))
          × (s'.entry_being_updated ≡ none)
          × (s'.target_update_request_queue ≡ more)
    unfolding entry_exchange exchange_of completed clear_active_entry_write_request
    entry_exchange-store cells =
        let out = record taking { pending_request = some there.request } in
        (
          completed (clear_active_entry_write_request out),
          ap (λ (x : Piece V). exchange_of p cells x.0 x.1 x.2) made
              ∙ ap
                  (λ (x : Result (Cells × Response)). x >>= (λ w.
                    settled w.0 (refusals before) (success_callback p out there.request w.1)))
                  (there.answered cells)
              ∙ ap (settled (store cells address d) (refusals before)) (
                  success_var p out u u.entry v' there.request there.response refl there.subfn refl
                    refl refl (ground (arith, there.code))
                    (matches p.address_format address d there)),
          refl,
          refl,
        )
