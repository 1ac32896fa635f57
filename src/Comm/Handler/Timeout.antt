-- ===== src/Comm/Handler/Timeout.antt =====
-- Time in the communication handler (scrutiny/server/protocol/comm_handler.py): the response timer
-- and the frames that a link fails to write.
use scrutiny.Prelude.{
  ℕ, ◌+◌, ◌*◌, ◌-◌, ◌<◌, ◌≡◌, refl, sym, ap, ◌∙◌, subst, true, false, some, none, List, [], ◌∷◌,
  Bytes, ok, err, exception, arith, lt→ltb, All,
}
use scrutiny.Protocol.Request
use scrutiny.Protocol.Request.{Request}
use scrutiny.Comm.Timer
use scrutiny.Comm.Throttler.{Throttling}
use scrutiny.Comm.Handler
use scrutiny.Comm.Handler.{CommHandler, Env}
use scrutiny.Comm.Handler.Reach.{Reachable, timer_stopped}

-- The link is there, initialized and works.
abbrev pub IsHealthy : Env → Type 0
IsHealthy env = (env.has_link ≡ true) × (env.initialized ≡ true) × (env.operational ≡ true)

module _ {T : Type 0} (throttling : Throttling T) where
  ignored :
      (s : CommHandler T) (l : List Bytes)
      → Handler.waiting_response s ≡ false
      → s.received_response ≡ none
      → s.timed_out ≡ true
      → ((Handler.take_next throttling s l).timed_out ≡ true)
        × (Handler.waiting_response (Handler.take_next throttling s l) ≡ false)
        × ((Handler.take_next throttling s l).received_response ≡ none)
  unfolding Handler.take_next Handler.receive Handler.response_available Handler.waiting_response
  ignored s [] w r t = (t, w, r)
  ignored s (d ∷ l) w r t = ground (arith, w, r, t)

  overdue :
      (s : CommHandler T) (now start : ℕ)
      → s.response_timer.start_time ≡ some start
      → start + s.response_timer.timeout < now
      → Timer.is_timed_out s.response_timer now ≡ true
  unfolding Timer.is_timed_out Timer.elapsed
  overdue s now start e h =
      rw e (rw (lt→ltb s.response_timer.timeout (now - start) (omega arith)) refl)

  abandoned : CommHandler T → CommHandler T
  abandoned s = record (Handler.reset_rx s) { timed_out = true }

  abandoned_quiet : (s : CommHandler T) → Handler.waiting_response (abandoned s) ≡ false
  unfolding abandoned Handler.waiting_response Handler.reset_rx
  abandoned_quiet s = ground arith

  -- A handler that waits, whose response timer was started and has run longer than its timeout, gives
  -- up when it is processed, whatever the link received meanwhile: it marks the timeout, waits no
  -- more and has no response.
  pub process_rx-times_out :
      (s : CommHandler T) (env : Env) (start : ℕ)
      → Handler.waiting_response s ≡ true
      → s.response_timer.start_time ≡ some start
      → start + s.response_timer.timeout < env.now
      → ((Handler.process_rx throttling s env).timed_out ≡ true)
        × (Handler.waiting_response (Handler.process_rx throttling s env) ≡ false)
        × ((Handler.process_rx throttling s env).received_response ≡ none)
  unfolding Handler.process_rx Handler.receive_next Handler.expire Handler.reset_rx abandoned
  process_rx-times_out s env start w t h = rw w (
      rw (overdue s env.now start t h)
        (ignored (abandoned s) s.rx_queue (abandoned_quiet s) refl refl))

  -- The calls of `process` at given moments.
  pub process_all : CommHandler T → List Env → CommHandler T
  process_all s [] = s
  process_all s (env ∷ envs) = process_all (Handler.process throttling s env).0 envs

  -- A request is active, with no timer and nothing received.
  abbrev IsStalled : CommHandler T → Request → Type 0
  IsStalled s q =
      (s.opened ≡ true)
      × (s.active_request ≡ some q)
      × (s.pending_request ≡ none)
      × (s.received_response ≡ none)
      × (s.response_timer.start_time ≡ none)
      × (s.rx_queue ≡ [])
      × (s.timed_out ≡ false)

  no_expiry :
      (s : CommHandler T) (env : Env) (q : Request)
      → env.operational ≡ true
      → IsStalled s q
      → Handler.expire s env ≡ s
  unfolding Handler.expire Handler.waiting_response Timer.is_timed_out
  no_expiry s env q o (op, a, p, r, t, x, z) = rw op (rw a (rw t (rw o refl)))

  nothing_read : (s : CommHandler T) → s.rx_queue ≡ [] → Handler.receive_next throttling s ≡ s
  unfolding Handler.receive_next Handler.take_next
  nothing_read s x = rw x refl

  nothing_sent :
      (s : CommHandler T) (env : Env)
      → s.pending_request ≡ none
      → Handler.process_tx throttling s env ≡ (s, ok tt)
  unfolding Handler.process_tx Handler.try_send
  nothing_sent s env p = rw p refl

  process_stalled :
      (s : CommHandler T) (env : Env) (q : Request)
      → IsHealthy env
      → IsStalled s q
      → Handler.process throttling s env
        ≡ (record s { throttler = throttling.process s.throttler env.now }, ok tt)
  unfolding Handler.process Handler.is_operational Handler.process_rx
  process_stalled s env q (l, i, o) st =
      let s' = record s { throttler = throttling.process s.throttler env.now } in
      let quiet =
        ap (Handler.receive_next throttling) (no_expiry s' env q o st) ∙ nothing_read s' st.5 in
      run l i o st.0
        (ap (λ x. Handler.process_tx throttling x env) quiet ∙ nothing_sent s' env st.2)
    where
      run :
          env.has_link ≡ true
          → env.initialized ≡ true
          → env.operational ≡ true
          → s.opened ≡ true
          → Handler.process_tx throttling
              (Handler.receive_next throttling (
                Handler.expire
                  (record s { throttler = throttling.process s.throttler env.now })
                  env))
              env
            ≡ (record s { throttler = throttling.process s.throttler env.now }, ok tt)
          → Handler.process throttling s env
            ≡ (record s { throttler = throttling.process s.throttler env.now }, ok tt)
      run l i o op e = ground (arith, l, i, o, op, e)

  stays-IsStalled :
      (s : CommHandler T) (envs : List Env) (q : Request)
      → All IsHealthy envs
      → IsStalled s q
      → IsStalled (process_all s envs) q
  unfolding process_all
  stays-IsStalled s [] q h st = st
  stays-IsStalled s (env ∷ envs) q (h, hs) st =
      stays-IsStalled (Handler.process throttling s env).0 envs q hs
        (subst (λ x. IsStalled x.0 q) (sym (process_stalled s env q h st)) st)

  unsent :
      (s : CommHandler T) (env : Env) (q : Request) (d : Bytes)
      → s.opened ≡ true
      → Handler.waiting_response s ≡ false
      → s.response_timer.start_time ≡ none
      → s.rx_queue ≡ []
      → throttling.allowed s.throttler ((Request.size q + Request.get_expected_response_size q) * 8)
        ≡ true
      → Request.to_bytes q ≡ ok d
      → env.write_fails ≡ true
      → IsStalled (Handler.send_request throttling s env q).0 q
  unfolding Handler.send_request Handler.process_tx Handler.try_send Handler.transmit
  unsent s env q d op w t x allow bytes fails =
      rw w (rw op (rw allow (rw bytes (rw fails (refl, refl, refl, refl, t, x, refl)))))

  refused :
      (s : CommHandler T) (env : Env) (q q' : Request)
      → IsStalled s q
      → Handler.send_request throttling s env q' ≡ (s, err exception)
  unfolding Handler.send_request Handler.waiting_response
  refused s env q q' (op, a, p, r, t, x, z) = rw op (rw a refl)

  stalled_waits :
      (s : CommHandler T) (q : Request) → IsStalled s q → Handler.waiting_response s ≡ true
  unfolding Handler.waiting_response
  stalled_waits s q (op, a, p, r, t, x, z) = rw op (rw a refl)

  -- In any state that calls, receptions and time lead to from a new handler: an open handler that waits
  -- for nothing and has no data to read is given a request that the throttler lets through, and the link
  -- fails to write it. After any number of calls of `process` during which the link works and receives
  -- nothing, whatever time has passed, the handler still waits, has not timed out, and raises for every
  -- new request.
  pub process_all-stalls :
      (s : CommHandler T) (env : Env) (q : Request) (d : Bytes) (envs : List Env) (env' : Env)
      (q' : Request)
      → Reachable throttling s
      → s.opened ≡ true
      → Handler.waiting_response s ≡ false
      → s.rx_queue ≡ []
      → throttling.allowed s.throttler ((Request.size q + Request.get_expected_response_size q) * 8)
        ≡ true
      → Request.to_bytes q ≡ ok d
      → env.write_fails ≡ true
      → All IsHealthy envs
      → (Handler.waiting_response (process_all (Handler.send_request throttling s env q).0 envs)
          ≡ true)
        × ((process_all (Handler.send_request throttling s env q).0 envs).timed_out ≡ false)
        × (Handler.send_request throttling
              (process_all (Handler.send_request throttling s env q).0 envs)
              env'
              q'
            ≡ (process_all (Handler.send_request throttling s env q).0 envs, err exception))
  process_all-stalls s env q d envs env' q' h op w x allow bytes fails healthy =
      let t = timer_stopped throttling s h op w in
      let st = stays-IsStalled _ envs q healthy (unsent s env q d op w t x allow bytes fails) in
      (stalled_waits _ q st, st.6, refused _ env' q q' st)
