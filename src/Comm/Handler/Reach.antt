-- ===== src/Comm/Handler/Reach.antt =====
-- The runs of the communication handler (scrutiny/server/protocol/comm_handler.py): its user calls it,
-- its thread receives, in any order. `throttled` covers that throttling is enabled or disabled.
use scrutiny.Prelude.{
  if-cases, ℕ, ◌≡◌, refl, subst, true, false, Option, some, none, Bytes, arith, Result, ok, err,
  exception, ◌&&◌, not,
}
use scrutiny.Protocol.Request.{Request}
use scrutiny.Protocol.Response.{Response}
use scrutiny.Comm.Throttler.{Throttling}
use scrutiny.Comm.Handler
use scrutiny.Comm.Handler.{CommHandler, Env, answers}
use scrutiny.Comm.Handler.Coherence.{
  IsCoherent, Agree, resting, reset_rx-IsCoherent, process_rx-IsCoherent, process_tx-IsCoherent,
}

module _ {T : Type 0} (throttling : Throttling T) where
  pub data Reachable : CommHandler T → Type 0 where
    made : (timeout : ℕ) (t : T) → Reachable (Handler.make timeout t)
    opened : {s : CommHandler T} → Reachable s → Reachable (Handler.open_done s)
    not_opened : {s : CommHandler T} → Reachable s → Reachable (Handler.open_failed s)
    throttled : {s : CommHandler T} (t : T) → Reachable s → Reachable (record s { throttler = t })
    closed : {s : CommHandler T} → Reachable s → Reachable (Handler.close s)
    was_reset : {s : CommHandler T} → Reachable s → Reachable (Handler.reset s)
    cleared : {s : CommHandler T} → Reachable s → Reachable (Handler.clear_timeout s)
    received : {s : CommHandler T} (d : Bytes) → Reachable s → Reachable (Handler.rx_put s d)
    read : {s : CommHandler T} → Reachable s → Reachable (Handler.get_response s).0
    sent :
        {s : CommHandler T} (env : Env) (q : Request)
        → Reachable s
        → Reachable (Handler.send_request throttling s env q).0
    processed :
        {s : CommHandler T} (env : Env)
        → Reachable s
        → Reachable (Handler.process throttling s env).0

  get_response-IsCoherent :
      (s : CommHandler T) → IsCoherent s → IsCoherent (Handler.get_response s).0
  unfolding Handler.get_response
  get_response-IsCoherent s h = go s.received_response
    where
      go :
          (r : Option Response)
          → IsCoherent
              (elim r as (λ x. CommHandler T × Result Response) [
                | none ↦ (s, err exception)
                | some response ↦ (Handler.reset_rx s, ok response)
              ]).0
      go none = h
      go (some response) = reset_rx-IsCoherent s

  abbrev P : CommHandler T × Result (Unit {0}) → Type 0
  P r = IsCoherent r.0

  idle :
      (s : CommHandler T)
      → Handler.waiting_response s ≡ false
      → s.opened ≡ true
      → s.active_request ≡ none
  unfolding Handler.waiting_response
  idle s h k = ground (arith, h, k)

  idle-Agree :
      (a p : Option Request) (r : Option Response) (t : Option ℕ) (q : Request)
      → Agree a p r t
      → a ≡ none
      → Agree a (some q) none t
  idle-Agree none p none none q h e = tt
  idle-Agree none p none (some t) q h e = absurd h
  idle-Agree none p (some r) t q h e = absurd h
  idle-Agree (some q') p r t q h e = absurd (ground (arith, e))

  send_request-IsCoherent :
      (s : CommHandler T) (env : Env) (q : Request)
      → IsCoherent s
      → IsCoherent (Handler.send_request throttling s env q).0
  unfolding Handler.send_request IsCoherent
  send_request-IsCoherent s env q h =
      if-cases P (Handler.waiting_response s) _ _ (λ k. h)
        (λ k.
          if-cases P s.opened _ _
            (λ k'.
              process_tx-IsCoherent throttling
                (record s { pending_request = some q; received_response = none; timed_out = false })
                env
                (idle-Agree s.active_request s.pending_request s.received_response
                  s.response_timer.start_time q h (idle s k k')))
            (λ k'. h))

  reset-IsCoherent : (s : CommHandler T) → IsCoherent (Handler.reset s)
  unfolding IsCoherent Handler.reset Handler.reset_rx Handler.clear_timeout Handler.Timer.stop
  reset-IsCoherent s = tt

  close-IsCoherent : (s : CommHandler T) → IsCoherent (Handler.close s)
  unfolding IsCoherent Handler.close Handler.reset Handler.reset_rx Handler.clear_timeout
      Handler.Timer.stop
  close-IsCoherent s = tt

  process-IsCoherent :
      (s : CommHandler T) (env : Env)
      → IsCoherent s
      → IsCoherent (Handler.process throttling s env).0
  unfolding Handler.process IsCoherent
  process-IsCoherent s env h =
      let s' = record s { throttler = throttling.process s.throttler env.now } in
      if-cases P (not env.has_link) _ _ (λ k. reset-IsCoherent s)
        (λ k.
          if-cases P (env.initialized && not env.operational) _ _ (λ k. close-IsCoherent s)
            (λ k.
              if-cases P (Handler.is_operational throttling s env) _ _
                (λ k.
                  process_tx-IsCoherent throttling (Handler.process_rx throttling s' env) env
                    (process_rx-IsCoherent throttling s' env h))
                (λ k. h)))

  Reachable-IsCoherent : (s : CommHandler T) → Reachable s → IsCoherent s
  unfolding IsCoherent Handler.make Handler.open_done Handler.open_failed Handler.close
      Handler.reset Handler.reset_rx Handler.clear_timeout Handler.rx_put Handler.Timer.new
      Handler.Timer.stop
  Reachable-IsCoherent _ (made timeout t) = tt
  Reachable-IsCoherent _ (opened {s = s} h) = Reachable-IsCoherent s h
  Reachable-IsCoherent _ (not_opened {s = s} h) = Reachable-IsCoherent s h
  Reachable-IsCoherent _ (throttled {s = s} t h) = Reachable-IsCoherent s h
  Reachable-IsCoherent _ (closed h) = tt
  Reachable-IsCoherent _ (was_reset h) = tt
  Reachable-IsCoherent _ (cleared {s = s} h) = Reachable-IsCoherent s h
  Reachable-IsCoherent _ (received {s = s} d h) = Reachable-IsCoherent s h
  Reachable-IsCoherent _ (read {s = s} h) = get_response-IsCoherent s (Reachable-IsCoherent s h)
  Reachable-IsCoherent _ (sent {s = s} env q h) =
      send_request-IsCoherent s env q (Reachable-IsCoherent s h)
  Reachable-IsCoherent _ (processed {s = s} env h) =
      process-IsCoherent s env (Reachable-IsCoherent s h)

  -- A handler that waits for nothing has stopped its response timer.
  pub timer_stopped :
      (s : CommHandler T)
      → Reachable s
      → s.opened ≡ true
      → Handler.waiting_response s ≡ false
      → s.response_timer.start_time ≡ none
  unfolding IsCoherent
  timer_stopped s h o w =
      resting s.active_request s.pending_request s.received_response s.response_timer.start_time
        (Reachable-IsCoherent s h) (idle s w o)

  answered_by :
      (a p : Option Request) (r : Response) (t : Option ℕ)
      → Agree a p (some r) t
      → (q : Request) × (a ≡ some q) × (answers q r ≡ true)
  answered_by none p r t h = absurd h
  answered_by (some q) none r t h = (q, refl, h)
  answered_by (some q) (some p) r t h = absurd h

  alone : (a p : Option Request) (r : Response) (t : Option ℕ) → Agree a p (some r) t → p ≡ none
  alone none p r t h = absurd h
  alone (some q) none r t h = refl
  alone (some q) (some p) r t h = absurd h

  free :
      (s : CommHandler T) (r : Response)
      → (Handler.get_response s).1 ≡ ok r
      → Handler.waiting_response (Handler.get_response s).0 ≡ false
  unfolding Handler.get_response Handler.waiting_response Handler.reset_rx
  free s r h = ground (arith, h)

  got :
      (s : CommHandler T) (r : Response)
      → (Handler.get_response s).1 ≡ ok r
      → s.received_response ≡ some r
  unfolding Handler.get_response
  got s r h = ground (arith, h)

  -- In every state that calls, receptions and time lead to from a new handler: a response that the
  -- user gets is for the command and the subfunction of the one active request, none is
  -- pending beside it, and afterwards the handler is free for a next request.
  pub get_response-answers :
      (s : CommHandler T) (r : Response)
      → Reachable s
      → (Handler.get_response s).1 ≡ ok r
      → ((q : Request) × (s.active_request ≡ some q) × (answers q r ≡ true))
        × (s.pending_request ≡ none)
        × (Handler.waiting_response (Handler.get_response s).0 ≡ false)
  unfolding IsCoherent
  get_response-answers s r h e =
      let h' =
        subst (λ o. Agree s.active_request s.pending_request o s.response_timer.start_time)
          (got s r e) (Reachable-IsCoherent s h) in
      (answered_by _ _ r _ h', alone _ _ r _ h', free s r e)
