-- ===== src/Comm/Handler/Coherence.antt =====
-- What the states of the communication handler (scrutiny/server/protocol/comm_handler.py) have in
-- common, whatever the order in which its user, the link and the clock act on it.
use scrutiny.Prelude.{
  if-cases, ℕ, ◌≡◌, ◌+◌, ◌*◌, refl, true, Option, some, none, List, [], ◌∷◌, Bytes, Result, ok, err,
  arith, ◌||◌, ◌++◌, length, leb, not, ◌&&◌,
}
use scrutiny.Protocol.Request
use scrutiny.Protocol.Request.{Request}
use scrutiny.Protocol.Response.{Response}
use scrutiny.Comm.Throttler.{Throttling}
use scrutiny.Comm.Handler
use scrutiny.Comm.Handler.{CommHandler, Env, RxData, answers}

-- At most one request is active or pending, a response is there only with the active request that it
-- answers, and the response timer runs only while a request is active.
abbrev pub Agree : Option Request → Option Request → Option Response → Option ℕ → Type 0
Agree none pending none none = Unit
Agree (some q) none none timer = Unit
Agree (some q) none (some r) timer = answers q r ≡ true
Agree _ _ _ _ = ⊥

unfoldable pub IsCoherent : {T : Type 0} → CommHandler T → Type 0
IsCoherent s =
    Agree s.active_request s.pending_request s.received_response s.response_timer.start_time

no_response :
    (a p : Option Request) (r : Option Response) (t : Option ℕ) → Agree a p r t → Agree a p none t
no_response none p none none h = tt
no_response none p none (some t) h = absurd h
no_response none p (some r) t h = absurd h
no_response (some q) none r t h = tt
no_response (some q) (some q') none t h = absurd h
no_response (some q) (some q') (some r) t h = absurd h

-- Nothing is active, so the timer is stopped.
pub resting :
    (a p : Option Request) (r : Option Response) (t : Option ℕ)
    → Agree a p r t
    → a ≡ none
    → t ≡ none
resting none p none none h e = refl
resting none p none (some t) h e = absurd h
resting none p (some r) t h e = absurd h
resting (some q) p r t h e = absurd (ground (arith, e))

answered :
    (a p : Option Request) (r : Option Response) (t t' : Option ℕ) (q : Request) (r' : Response)
    → Agree a p r t
    → a ≡ some q
    → answers q r' ≡ true
    → Agree a p (some r') t'
answered none p r t t' q r' h e k = absurd (ground (arith, e))
answered (some q0) none r t t' q r' h e k = ground (arith, e, k)
answered (some q0) (some p) r t t' q r' h e k = absurd (no_response (some q0) (some p) r t h)

sending :
    (a p : Option Request) (r : Option Response) (t t' : Option ℕ) (q : Request)
    → Agree a p r t
    → p ≡ some q
    → Agree (some q) none r t'
sending none p none t t' q h e = tt
sending none p (some r) t t' q h e = absurd h
sending (some q') none r t t' q h e = absurd (ground (arith, e))
sending (some q') (some p) r t t' q h e = absurd (no_response (some q') (some p) r t h)

dropping :
    (a p : Option Request) (r : Option Response) (t : Option ℕ) → Agree a p r t → Agree a none r t
dropping none p none none h = tt
dropping none p none (some t) h = absurd h
dropping none p (some r) t h = absurd h
dropping (some q') none r t h = h
dropping (some q') (some p) r t h = absurd (no_response (some q') (some p) r t h)

module _ {T : Type 0} where
  pub reset_rx-IsCoherent : (s : CommHandler T) → IsCoherent (Handler.reset_rx s)
  unfolding IsCoherent Handler.reset_rx Handler.Timer.stop
  reset_rx-IsCoherent s = tt

  match_request-IsCoherent :
      (s : CommHandler T) (r : Response) (a : Option Request)
      → s.active_request ≡ a
      → IsCoherent s
      → IsCoherent (Handler.match_request s r a)
  unfolding Handler.match_request IsCoherent Handler.Timer.stop
  match_request-IsCoherent s r none e h = reset_rx-IsCoherent s
  match_request-IsCoherent s r (some q) e h =
      if-cases (IsCoherent {T = T}) (answers q r) _ _
        (λ k.
          answered s.active_request s.pending_request s.received_response
            s.response_timer.start_time none q r h e k)
        (λ k. reset_rx-IsCoherent s)

  accept-IsCoherent :
      (s : CommHandler T) (r : Result Response) → IsCoherent s → IsCoherent (Handler.accept s r)
  unfolding Handler.accept
  accept-IsCoherent s (err e) h = reset_rx-IsCoherent s
  accept-IsCoherent s (ok r) h = match_request-IsCoherent s r s.active_request refl h

  complete-IsCoherent :
      (s : CommHandler T) (n : Option ℕ) → IsCoherent s → IsCoherent (Handler.complete s n)
  unfolding Handler.complete
  complete-IsCoherent s none h = h
  complete-IsCoherent s (some n) h =
      if-cases (IsCoherent {T = T}) (leb (n + 9) (length s.rx_data.data_buffer)) _ _
        (λ k. accept-IsCoherent s _ h) (λ k. h)

  feed-IsCoherent : (s : CommHandler T) (d : Bytes) → IsCoherent s → IsCoherent (Handler.feed s d)
  unfolding Handler.feed IsCoherent
  feed-IsCoherent s d h =
      let rx =
        Handler.read_length (record s.rx_data { data_buffer = s.rx_data.data_buffer ++ d }) in
      complete-IsCoherent (record s { rx_data = rx }) rx.length_field h

  expire-IsCoherent :
      (s : CommHandler T) (env : Env) → IsCoherent s → IsCoherent (Handler.expire s env)
  unfolding Handler.expire IsCoherent
  expire-IsCoherent s env h =
      if-cases (IsCoherent {T = T})
        (Handler.waiting_response s
          && (Handler.Timer.is_timed_out s.response_timer env.now || not env.operational))
        _ _ (λ k. reset_rx-IsCoherent s) (λ k. h)

module _ {T : Type 0} (throttling : Throttling T) where
  receive-IsCoherent :
      (s : CommHandler T) (d : Bytes) → IsCoherent s → IsCoherent (Handler.receive throttling s d)
  unfolding Handler.receive IsCoherent
  receive-IsCoherent s d h =
      let s' = record s { throttler = throttling.consume_bandwidth s.throttler (length d * 8) } in
      if-cases (IsCoherent {T = T})
        (Handler.response_available s' || not (Handler.waiting_response s')) _ _ (λ k. h)
        (λ k. feed-IsCoherent s' d h)

  take_next-IsCoherent :
      (s : CommHandler T) (l : List Bytes)
      → IsCoherent s
      → IsCoherent (Handler.take_next throttling s l)
  unfolding Handler.take_next IsCoherent
  take_next-IsCoherent s [] h = h
  take_next-IsCoherent s (d ∷ rest) h = receive-IsCoherent (record s { rx_queue = rest }) d h

  pub process_rx-IsCoherent :
      (s : CommHandler T) (env : Env)
      → IsCoherent s
      → IsCoherent (Handler.process_rx throttling s env)
  unfolding Handler.process_rx Handler.receive_next
  process_rx-IsCoherent s env h =
      take_next-IsCoherent (Handler.expire s env) _ (expire-IsCoherent s env h)

  -- Whatever the timer is, once the request is active.
  transmit-IsCoherent :
      (s : CommHandler T) (env : Env) (d : Result Bytes) (q : Request)
      → s.active_request ≡ some q
      → ((t : Option ℕ) → Agree (some q) s.pending_request s.received_response t)
      → IsCoherent (Handler.transmit throttling s env d).0
  unfolding Handler.transmit IsCoherent
  transmit-IsCoherent s env (err e) q a h = rw a (h s.response_timer.start_time)
  transmit-IsCoherent s env (ok d) q a h =
      if-cases (IsCoherent {T = T}) env.write_fails _ _ (λ k. rw a (h s.response_timer.start_time))
        (λ k.
          rw a
            (h (Handler.Timer.start s.response_timer env.now (some s.response_timeout)).start_time))

  try_send-IsCoherent :
      (s : CommHandler T) (env : Env) (q : Option Request)
      → s.pending_request ≡ q
      → IsCoherent s
      → IsCoherent (Handler.try_send throttling s env q).0
  unfolding Handler.try_send IsCoherent
  try_send-IsCoherent s env none e h = h
  try_send-IsCoherent s env (some q) e h =
      let bandwidth = (Request.size q + Request.get_expected_response_size q) * 8 in
      if-cases (λ (r : CommHandler T × Result (Unit {0})). IsCoherent r.0)
        (throttling.allowed s.throttler bandwidth) _ _
        (λ k.
          transmit-IsCoherent (record s { active_request = some q; pending_request = none }) env _ q
            refl
            (λ t.
              sending s.active_request s.pending_request s.received_response
                s.response_timer.start_time t q h e))
        (λ k.
          if-cases (λ (r : CommHandler T × Result (Unit {0})). IsCoherent r.0)
            (not (throttling.possible s.throttler bandwidth)) _ _
            (λ k.
              dropping s.active_request s.pending_request s.received_response
                s.response_timer.start_time h)
            (λ k. h))

  pub process_tx-IsCoherent :
      (s : CommHandler T) (env : Env)
      → IsCoherent s
      → IsCoherent (Handler.process_tx throttling s env).0
  unfolding Handler.process_tx
  process_tx-IsCoherent s env h = try_send-IsCoherent s env s.pending_request refl h
