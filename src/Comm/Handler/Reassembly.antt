-- ===== src/Comm/Handler/Reassembly.antt =====
-- The pieces in which a link delivers a response to the communication handler
-- (scrutiny/server/protocol/comm_handler.py, `_process_rx`).
use scrutiny.Prelude.{
  ℕ, ◌+◌, ◌*◌, ◌≤◌, ◌<◌, ◌≡◌, refl, sym, ap, ◌∙◌, subst, true, some, none, List, [], ◌∷◌, ◌++◌,
  append_assoc, Bytes, ok, le→leb, lt→leb, lt_or_ge, ◌⊎◌, inl, inr, arith, length, slice, take,
  length-append, take-append_length,
}
use scrutiny.Protocol.Request.{Request}
use scrutiny.Protocol.Pack.{unpack_u16}
use scrutiny.Protocol.Response
use scrutiny.Protocol.Response.{Response}
use scrutiny.Protocol.Response.RoundTrip
use scrutiny.Comm.Throttler.{Throttling}
use scrutiny.Comm.Handler.Frames.{
  join, take_prefix, header_prefix, IsFrame, Known, read-Known, read_short, read_buffer,
  frame-IsFrame, ok_injective,
}
use scrutiny.Comm.Handler
use scrutiny.Comm.Handler.{CommHandler, RxData, answers}

-- The handler waits for the answer to `q` and has the first bytes of it.
abbrev Collecting : {T : Type 0} → CommHandler T → Request → ℕ → Bytes → Type 0
Collecting s q n p =
    (s.opened ≡ true)
    × (s.active_request ≡ some q)
    × (s.received_response ≡ none)
    × Known s.rx_data.length_field n
    × (s.rx_data.data_buffer ≡ p)

module _ {T : Type 0} (s : CommHandler T) (q : Request) (n : ℕ) where
  -- The receive buffer is extended and its header read, when there is one.
  abbrev extended : Bytes → RxData
  extended d = Handler.read_length (record s.rx_data { data_buffer = s.rx_data.data_buffer ++ d })

  completed :
      (r : Response) (F d : Bytes)
      → IsFrame F n r
      → answers q r ≡ true
      → s.active_request ≡ some q
      → (extended d).length_field ≡ some n
      → n + 9 ≤ length (extended d).data_buffer
      → take (n + 9) (extended d).data_buffer ≡ F
      → (Handler.feed s d).received_response ≡ some r
  unfolding Handler.feed Handler.complete Handler.accept Handler.match_request
  completed r F d (size, header, decoded) ans act field h k =
      rw field (rw (le→leb _ _ h) (rw k (rw decoded (rw act (rw ans refl)))))

  unfinished :
      (d : Bytes)
      → Known (extended d).length_field n
      → length (extended d).data_buffer < n + 9
      → Handler.feed s d ≡ record s { rx_data = extended d }
  unfolding Handler.feed Handler.complete
  unfinished d (inl e) h = rw e refl
  unfinished d (inr e) h = rw e (rw (lt→leb _ _ h) refl)

module _ {T : Type 0} (throttling : Throttling T) where
  pub receive_all : CommHandler T → List Bytes → CommHandler T
  receive_all s [] = s
  receive_all s (d ∷ ds) = receive_all (Handler.receive throttling s d) ds

  -- Data behind a response that is still there is dropped.
  kept :
      (s : CommHandler T) (r : Response) (ds : List Bytes)
      → s.received_response ≡ some r
      → (receive_all s ds).received_response ≡ some r
  unfolding receive_all Handler.receive Handler.response_available
  kept s r [] e = e
  kept s r (d ∷ ds) e = kept (Handler.receive throttling s d) r ds (rw e refl)

  expecting :
      (s : CommHandler T) (q : Request) (d : Bytes)
      → s.opened ≡ true
      → s.active_request ≡ some q
      → s.received_response ≡ none
      → Handler.receive throttling s d
        ≡ Handler.feed
            (record s { throttler = throttling.consume_bandwidth s.throttler (length d * 8) })
            d
  unfolding Handler.receive Handler.response_available Handler.waiting_response
  expecting s q d o a e = rw o (rw a (rw e refl))

  module _ (q : Request) (n : ℕ) (r : Response) (F extra : Bytes) where
    header_of :
        (p rest : Bytes)
        → IsFrame F n r
        → p ++ rest ≡ F ++ extra
        → 5 ≤ length p
        → unpack_u16 (slice 3 5 p) ≡ ok n
    header_of p rest (size, header, decoded) whole h =
        subst (λ l. unpack_u16 l ≡ ok n)
          (sym (header_prefix F extra (omega (arith, size)))
            ∙ ap (slice 3 5) (sym whole)
            ∙ header_prefix p rest h)
          header

    frame_of :
        (p rest : Bytes)
        → IsFrame F n r
        → p ++ rest ≡ F ++ extra
        → n + 9 ≤ length p
        → take (n + 9) p ≡ F
    frame_of p rest (size, header, decoded) whole h =
        sym (take_prefix (n + 9) p rest h)
        ∙ ap (take (n + 9)) whole
        ∙ subst (λ k. take k (F ++ extra) ≡ F) size (take-append_length F extra)

    -- One more piece: the response is there, or more is awaited.
    step :
        (s : CommHandler T) (p d rest : Bytes)
        → IsFrame F n r
        → answers q r ≡ true
        → Collecting s q n p
        → (p ++ d) ++ rest ≡ F ++ extra
        → ((Handler.receive throttling s d).received_response ≡ some r)
          ⊎ (Collecting (Handler.receive throttling s d) q n (p ++ d) × (length (p ++ d) < n + 9))
    step s p d rest frame ans (o, a, e, known, b) whole = elim (lt_or_ge (length (p ++ d)) 5) [
      | inl h ↦ more (read_short rx n known (subst (λ l. length l < 5) (sym grown) h)) (omega arith)
      | inr h ↦
          let field = read-Known rx n known (subst (λ l. 5 ≤ length l) (sym grown) h) (
            subst (λ l. unpack_u16 (slice 3 5 l) ≡ ok n) (sym grown)
              (header_of (p ++ d) rest frame whole h)) in
          elim (lt_or_ge (length (p ++ d)) (n + 9)) [
            | inl k ↦ more (inr field) k
            | inr k ↦ inl (
                ap (λ x. x.received_response) (expecting s q d o a e)
                ∙ completed s' q n r F d frame ans a field
                    (subst (λ l. n + 9 ≤ length l) (sym buffer) k)
                    (ap (take (n + 9)) buffer ∙ frame_of (p ++ d) rest frame whole k))
          ]
    ]
      where
        s' : CommHandler T
        s' = record s { throttler = throttling.consume_bandwidth s.throttler (length d * 8) }

        rx : RxData
        rx = record s.rx_data { data_buffer = s.rx_data.data_buffer ++ d }

        grown : rx.data_buffer ≡ p ++ d
        grown = ap (λ l. l ++ d) b

        buffer : (Handler.read_length rx).data_buffer ≡ p ++ d
        buffer = read_buffer rx ∙ grown

        more :
            Known (Handler.read_length rx).length_field n
            → length (p ++ d) < n + 9
            → ((Handler.receive throttling s d).received_response ≡ some r)
              ⊎ (Collecting (Handler.receive throttling s d) q n (p ++ d)
                  × (length (p ++ d) < n + 9))
        more k h =
            let same =
              expecting s q d o a e
              ∙ unfinished s' q n d k (subst (λ l. length l < n + 9) (sym buffer) h) in
            inr (subst (λ x. Collecting x q n (p ++ d)) (sym same) (o, a, e, k, buffer), h)

    collect :
        (s : CommHandler T) (p : Bytes) (ds : List Bytes)
        → IsFrame F n r
        → answers q r ≡ true
        → Collecting s q n p
        → length p < n + 9
        → p ++ join ds ≡ F ++ extra
        → (receive_all s ds).received_response ≡ some r
    unfolding receive_all
    collect s p [] (size, header, decoded) ans c short whole =
        absurd (omega (arith, size, length-append p [], ap length whole, length-append F extra))
    collect s p (d ∷ ds) frame ans c short whole =
        let whole' = append_assoc p d (join ds) ∙ whole in
        elim (step s p d (join ds) frame ans c whole') [
          | inl got ↦ kept _ r ds got
          | inr c' ↦ collect (Handler.receive throttling s d) (p ++ d) ds frame ans c'.0 c'.1 whole'
        ]

  -- An open handler that waits for the answer to the request `q` and has received nothing of it yet.
  -- When the data that then arrives, in whatever pieces, begins with the bytes of a response of `q`'s
  -- command and subfunction, whose subfunction is a byte and whose payload is shorter than 65536,
  -- the handler has that response in the end, whatever follows.
  pub receive_all-reassembles :
      (s : CommHandler T) (q : Request) (r : Response) (frame extra : Bytes) (chunks : List Bytes)
      → s.opened ≡ true
      → s.active_request ≡ some q
      → s.received_response ≡ none
      → s.rx_data ≡ Handler.clear_rx_data
      → answers q r ≡ true
      → r.subfn < 256
      → length r.payload < 65536
      → Response.to_bytes r ≡ ok frame
      → join chunks ≡ frame ++ extra
      → (receive_all s chunks).received_response ≡ some r
  receive_all-reassembles s q r frame extra chunks o a e empty ans h k bytes whole =
      collect q (length r.payload) r (RoundTrip.frame r) extra s [] chunks (frame-IsFrame r h k) ans
        (o, a, e, inl (ap (λ x. x.length_field) empty), ap (λ x. x.data_buffer) empty) (omega arith)
        (whole ∙ ap (λ l. l ++ extra) (ok_injective _ _ (sym bytes ∙ RoundTrip.bytes r h k)))
