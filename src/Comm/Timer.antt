-- ===== src/Comm/Timer.antt =====
-- scrutiny/tools/timer.py, in whole microseconds of the clock that the caller reads.
use scrutiny.Prelude.{ℕ, ◌-◌, Bool, true, false, ◌||◌, Option, some, none, ltb, ◌==◌}

pub record Timer : Type 0 where
  pub start_time : Option ℕ
  pub timeout : ℕ

unfoldable pub new : ℕ → Timer
new timeout = record { start_time = none; timeout = timeout }

unfoldable pub set_timeout : Timer → ℕ → Timer
set_timeout t timeout = record t { timeout = timeout }

-- start(timeout)
unfoldable pub start : Timer → ℕ → Option ℕ → Timer
start t now none = record t { start_time = some now }
start t now (some timeout) = record { start_time = some now; timeout = timeout }

unfoldable pub stop : Timer → Timer
stop t = record t { start_time = none }

unfoldable pub elapsed : Timer → ℕ → ℕ
elapsed t now = elim t.start_time [ none ↦ 0 | some s ↦ now - s ]

unfoldable pub is_stopped : Timer → Bool
is_stopped t = elim t.start_time [ none ↦ true | some s ↦ false ]

unfoldable pub is_timed_out : Timer → ℕ → Bool
unfolding elapsed
is_timed_out t now = elim t.start_time [
  | none ↦ false
  | some s ↦ ltb t.timeout (elapsed t now) || (t.timeout == 0)
]
