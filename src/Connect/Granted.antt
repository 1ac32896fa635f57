-- ===== src/Connect/Granted.antt =====
-- The runs of the session initializer (scrutiny/server/device/submodules/session_initializer.py).
use scrutiny.Prelude.{
  ℕ, ◌≡◌, refl, Bool, true, false, not, ◌&&◌, Option, some, none, arith, ◌==◌, if-cases, Result, ok,
  err,
}
use scrutiny.Protocol.Response
use scrutiny.Protocol.Response.{Response}
use scrutiny.Protocol.CommControl
use scrutiny.Protocol.CommControl.{CommData}
use scrutiny.Dispatch.Dispatcher.{RequestDispatcher}
use scrutiny.Connect.Submit.{Answer, submit_keeps}
use scrutiny.Connect.Heartbeat.{due}
use scrutiny.Connect.Session
use scrutiny.Connect.Session.{SessionInitializer}

-- A success comes with a session identifier.
abbrev Granted : Bool → Option ℕ → Type 0
Granted false id = Unit
Granted true (some id) = Unit
Granted true none = ⊥

unfoldable IsGranted : SessionInitializer → Type 0
IsGranted s = Granted s.success s.session_id

pub data Reachable (K : Type 0) : SessionInitializer → Type 0 where
  made : (priority : ℕ) → Reachable K (Session.make priority)
  started : {s : SessionInitializer} → Reachable K s → Reachable K (Session.start s)
  stopped : {s : SessionInitializer} → Reachable K s → Reachable K (Session.stop s)
  was_reset : {s : SessionInitializer} → Reachable K s → Reachable K (Session.reset s)
  answered :
      {s : SessionInitializer} (r : Response)
      → Reachable K s
      → Reachable K (Session.success_callback s r)
  failed : {s : SessionInitializer} → Reachable K s → Reachable K (Session.failure_callback s)
  processed :
      {s : SessionInitializer} (now : ℕ) (k : K) (d : RequestDispatcher K)
      → Reachable K s
      → Reachable K (Session.process s now k d).0

reset-IsGranted : (s : SessionInitializer) → IsGranted (Session.reset s)
unfolding IsGranted Session.reset Session.make
reset-IsGranted s = tt

completed-IsGranted : (s : SessionInitializer) → IsGranted s → IsGranted (Session.completed s)
unfolding Session.completed IsGranted
completed-IsGranted s h = if-cases IsGranted s.stop_requested _ _ (λ k. reset-IsGranted _) (λ k. h)

accepted-IsGranted :
    (s : SessionInitializer) (p : Result CommData) → IsGranted s → IsGranted (Session.accepted s p)
unfolding Session.accepted IsGranted
accepted-IsGranted s (ok (CommData.connected m id)) h = tt
accepted-IsGranted s (ok CommData.nothing) h = h
accepted-IsGranted s (ok (CommData.discovered a b c d)) h = h
accepted-IsGranted s (ok (CommData.params_given p)) h = h
accepted-IsGranted s (ok (CommData.beaten a b)) h = tt
accepted-IsGranted s (err e) h = h

success-IsGranted :
    (s : SessionInitializer) (r : Response) → IsGranted s → IsGranted (Session.success_callback s r)
unfolding Session.success_callback
success-IsGranted s r h = completed-IsGranted _ (
    if-cases IsGranted (Response.code_value r.code == 0) _ _ (λ k. accepted-IsGranted s _ h)
      (λ k. h))

failure-IsGranted : (s : SessionInitializer) → IsGranted s → IsGranted (Session.failure_callback s)
unfolding Session.failure_callback IsGranted
failure-IsGranted s h = completed-IsGranted (record s { error = true }) h

module _ {K : Type 0} where
  send-IsGranted :
      (s : SessionInitializer) (now : ℕ) (k : K) (d : RequestDispatcher K)
      → IsGranted s
      → IsGranted (Session.send s now k d).0
  unfolding Session.send IsGranted
  send-IsGranted s now k d h =
      let s' = record s { success = false; last_connect_sent = some now } in
      submit_keeps IsGranted d now CommControl.comm_connect k s.priority s' Session.failure_callback
        _ tt (failure-IsGranted s' tt) (λ t g. g)

  abbrev First : Answer SessionInitializer K → Type 0
  First r = IsGranted r.0

  process-IsGranted :
      (s : SessionInitializer) (now : ℕ) (k : K) (d : RequestDispatcher K)
      → IsGranted s
      → IsGranted (Session.process s now k d).0
  unfolding Session.process
  process-IsGranted s now k d h =
      if-cases First (not s.started) _ _ (λ e. reset-IsGranted s)
        (λ e.
          if-cases First s.error _ _
            (λ e. if-cases First s.stop_requested _ _ (λ e. reset-IsGranted s) (λ e. h))
            (λ e.
              if-cases First (not s.connection_pending && s.stop_requested) _ _
                (λ e. reset-IsGranted s)
                (λ e.
                  if-cases First
                    (not s.connection_pending
                      && due s.last_connect_sent Session.reconnect_delay now)
                    _ _ (λ e. send-IsGranted s now k d h) (λ e. h))))

  reachable-IsGranted : (s : SessionInitializer) → Reachable K s → IsGranted s
  unfolding IsGranted Session.make Session.start Session.stop
  reachable-IsGranted _ (made priority) = tt
  reachable-IsGranted _ (started {s = s} h) = reachable-IsGranted s h
  reachable-IsGranted _ (stopped {s = s} h) = reachable-IsGranted s h
  reachable-IsGranted _ (was_reset {s = s} h) = reset-IsGranted s
  reachable-IsGranted _ (answered {s = s} r h) = success-IsGranted s r (reachable-IsGranted s h)
  reachable-IsGranted _ (failed {s = s} h) = failure-IsGranted s (reachable-IsGranted s h)
  reachable-IsGranted _ (processed {s = s} now k d h) =
      process-IsGranted s now k d (reachable-IsGranted s h)

  -- Whatever the user, the device and the clock do: a session initializer that says that the
  -- connection was successful has a session identifier.
  pub reachable_granted :
      (s : SessionInitializer)
      → Reachable K s
      → s.success ≡ true
      → (id : ℕ) × (s.session_id ≡ some id)
  unfolding IsGranted
  reachable_granted s h e = go s.success s.session_id e (reachable-IsGranted s h)
    where
      go : (b : Bool) (o : Option ℕ) → b ≡ true → Granted b o → (id : ℕ) × (o ≡ some id)
      go true (some id) e g = (id, refl)
      go true none e g = absurd g
      go false o e g = absurd (ground (arith, e))
