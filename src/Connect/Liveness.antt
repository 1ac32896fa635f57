-- ===== src/Connect/Liveness.antt =====
-- What the submodules of scrutiny/server/device/submodules say about the device.
use scrutiny.Prelude.{
  ℕ, suc, ◌-◌, ◌%◌, ◌≤◌, ◌<◌, ◌≡◌, refl, Bool, true, false, not, ◌&&◌, Option, some, none, arith,
  ◌==◌, if◌then◌else◌, if-cases, ==_refl, Result, ok, err,
}
use scrutiny.Protocol.Response
use scrutiny.Protocol.Response.{Response}
use scrutiny.Protocol.CommControl
use scrutiny.Protocol.CommControl.{CommData}
use scrutiny.Dispatch.Dispatcher.{RequestDispatcher}
use scrutiny.Connect.Submit.{Answer, submit_keeps}
use scrutiny.Connect.Heartbeat
use scrutiny.Connect.Heartbeat.{HeartbeatGenerator, due}
use scrutiny.Connect.Searcher
use scrutiny.Connect.Searcher.{DeviceSearcher}

-- The response that keeps the generator's session alive.
abbrev pub Echoes : HeartbeatGenerator → Option ℕ → Result CommData → Type 0
Echoes g id parsed =
    (session_id : ℕ) × (id ≡ some session_id)
    × (parsed
        ≡ ok (
            CommData.beaten session_id
              (CommControl.heartbeat_expected_challenge_response g.challenge)))

echoed :
    (g : HeartbeatGenerator) (now : ℕ) (id : Option ℕ) (p : Result CommData)
    → g.last_heartbeat_timestamp < now
    → (Heartbeat.check_echo g now p id).last_heartbeat_timestamp ≡ now
    → Echoes g id p
unfolding Heartbeat.check_echo
echoed g now (some s) (ok (CommData.beaten id answer)) h e = (s, refl, ground (arith, h, e))
echoed g now none (ok (CommData.beaten id answer)) h e = absurd (omega (arith, e))
echoed g now id (ok CommData.nothing) h e = absurd (omega (arith, e))
echoed g now id (ok (CommData.discovered a b c d)) h e = absurd (omega (arith, e))
echoed g now id (ok (CommData.params_given p)) h e = absurd (omega (arith, e))
echoed g now id (ok (CommData.connected m s)) h e = absurd (omega (arith, e))
echoed g now id (err x) h e = absurd (omega (arith, e))

-- The time of the last life sign moves on to the time of a response only if that response is for the
-- session of the generator and answers the challenge that is out.
pub success_callback-Echoes :
    (g : HeartbeatGenerator) (now : ℕ) (r : Response)
    → g.last_heartbeat_timestamp < now
    → (Heartbeat.success_callback g now r).last_heartbeat_timestamp ≡ now
    → Echoes g g.session_id (CommControl.parse_response r)
unfolding Heartbeat.success_callback Heartbeat.completed
success_callback-Echoes g now r h e = go (g.started && (Response.code_value r.code == 0)) e
  where
    go :
        (b : Bool)
        → (if b
            then Heartbeat.check_echo g now (CommControl.parse_response r) g.session_id
            else g).last_heartbeat_timestamp
          ≡ now
        → Echoes g g.session_id (CommControl.parse_response r)
    go true e = echoed g now g.session_id (CommControl.parse_response r) h e
    go false e = absurd (omega (arith, e))

-- A started generator takes the answer that a device builds for its session and its challenge as a
-- life sign, asks the next challenge and has no request out.
pub success_callback-alive :
    (g : HeartbeatGenerator) (now session_id : ℕ) (r : Response)
    → g.started ≡ true
    → g.session_id ≡ some session_id
    → r.code ≡ Response.ok_code
    → CommControl.parse_response r
      ≡ ok (
          CommData.beaten session_id
            (CommControl.heartbeat_expected_challenge_response g.challenge))
    → Heartbeat.success_callback g now r ≡ record g {
      last_heartbeat_timestamp = now;
      challenge = suc g.challenge % 65536;
      pending = false;
    }
unfolding Heartbeat.success_callback Heartbeat.completed Heartbeat.check_echo
success_callback-alive g now s r st id code parsed = rw parsed (
    rw id (
      rw st (
        rw code (
          rw (==_refl s)
            (rw (==_refl (CommControl.heartbeat_expected_challenge_response g.challenge)) refl)))))

-- The answer to one challenge is no life sign for the generator that asks the next one.
pub success_callback-stale :
    (g : HeartbeatGenerator) (now session_id : ℕ) (r : Response)
    → CommControl.parse_response r
      ≡ ok (
          CommData.beaten session_id
            (CommControl.heartbeat_expected_challenge_response g.challenge))
    → (Heartbeat.success_callback (Heartbeat.completed g) now r).last_heartbeat_timestamp
      ≡ g.last_heartbeat_timestamp
unfolding Heartbeat.success_callback Heartbeat.completed Heartbeat.check_echo
    CommControl.heartbeat_expected_challenge_response
success_callback-stale g now s r parsed = ground (arith, parsed)

remembered :
    (s : DeviceSearcher) (now : ℕ) (x : CommData)
    → (Searcher.forget s now).found_device ≡ some x
    → (s.found_device ≡ some x) × (now - s.found_device_timestamp ≤ 3_000_000)
unfolding Searcher.forget
remembered s now x e = ground (arith, e)

module _ {K : Type 0} where
  polled :
      (s : DeviceSearcher) (now : ℕ) (k : K) (d : RequestDispatcher K) (x : CommData)
      → (Searcher.poll s now k d).0.found_device ≡ some x
      → s.found_device ≡ some x
  unfolding Searcher.poll Searcher.send Searcher.failure_callback Searcher.completed
  polled s now k d x =
      if-cases
        (λ (r : Answer DeviceSearcher K). r.0.found_device ≡ some x → s.found_device ≡ some x)
        (not s.pending && due s.last_request_timestamp Searcher.discover_interval now) _ _
        (λ go.
          submit_keeps (λ t. t.found_device ≡ some x → s.found_device ≡ some x) d now
            CommControl.comm_discover k s.priority s Searcher.failure_callback _ (λ e. e)
            (λ e. ground (arith, e)) (λ t h. h))
        (λ wait e. e)

  -- When the searcher has been processed, a device that it reports was reported before, and was seen
  -- within the last three seconds, by a searcher that is started.
  pub process-fresh :
      (s : DeviceSearcher) (now : ℕ) (k : K) (d : RequestDispatcher K) (x : CommData)
      → (Searcher.process s now k d).0.found_device ≡ some x
      → (s.started ≡ true)
        × (s.found_device ≡ some x)
        × (now - s.found_device_timestamp ≤ 3_000_000)
  unfolding Searcher.process Searcher.reset Searcher.make
  process-fresh s now k d x e = go s.started refl e
    where
      go :
          (b : Bool)
          → s.started ≡ b
          → (if not b
              then (Searcher.reset s now, d, ok tt)
              else Searcher.poll (Searcher.forget s now) now k d).0.found_device
            ≡ some x
          → (s.started ≡ true)
            × (s.found_device ≡ some x)
            × (now - s.found_device_timestamp ≤ 3_000_000)
      go true b e =
          let (same, near) = remembered s now x (polled (Searcher.forget s now) now k d x e) in
          (b, same, near)
      go false b e = absurd (ground (arith, e))
