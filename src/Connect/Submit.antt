-- ===== src/Connect/Submit.antt =====
-- How the submodules give a request to the dispatcher (scrutiny/server/device/request_dispatcher.py).
-- A request that is too big makes the dispatcher call the failure callback before it returns.
use scrutiny.Prelude.{ℕ, List, [], ◌∷◌, Result, ok, err}
use scrutiny.Protocol.Request.{Request}
use scrutiny.Dispatch.Queue.{Call}
use scrutiny.Dispatch.Dispatcher.{RequestDispatcher, register_request}

abbrev pub Answer : Type 0 → Type 0 → Type 0
Answer S K = S × RequestDispatcher K × Result (Unit {0})

-- The state once the calls are made: every call is one of the failure callback.
abbrev pub called : {S K : Type 0} → List (Call K) → S → (S → S) → S
called [] s on_failure = s
called (call ∷ more) s on_failure = on_failure s

-- After the registration: `on_failure` is what the failure callback does, `after` what follows the call.
unfoldable pub submit :
    {S K : Type 0} → RequestDispatcher K → ℕ → Request → K → ℕ → S → (S → S) → (S → S) → Answer S K
submit d now q k priority s on_failure after =
    let (d', calls, out) = register_request d now q k priority in
    let s' = called calls s on_failure in
    elim out [ err e ↦ (s', d', err e) | ok done ↦ (after s', d', ok tt) ]

-- A property of the state that the callback and the assignments after the call keep.
pub submit_keeps :
    {S K : Type 0} (P : S → Type 0) (d : RequestDispatcher K) (now : ℕ) (q : Request) (k : K)
    (priority : ℕ) (s : S) (on_failure after : S → S)
    → P s
    → P (on_failure s)
    → ((t : S) → P t → P (after t))
    → P (submit d now q k priority s on_failure after).0
unfolding submit
submit_keeps {S} {K} P d now q k priority s on_failure after p f a =
    go (register_request d now q k priority).1 (register_request d now q k priority).2
  where
    reported : (calls : List (Call K)) → P (called calls s on_failure)
    reported [] = p
    reported (call ∷ more) = f

    go :
        (calls : List (Call K)) (out : Result (Unit {0}))
        → P
            (elim out as (λ o. Answer S K) [
              | err e ↦ (called calls s on_failure, (register_request d now q k priority).0, err e)
              | ok done ↦ (
                after (called calls s on_failure),
                (register_request d now q k priority).0,
                ok tt,
              )
            ]).0
    go calls (err e) = reported calls
    go calls (ok done) = a (called calls s on_failure) (reported calls)
