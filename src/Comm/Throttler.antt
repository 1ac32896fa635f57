-- ===== src/Comm/Throttler.antt =====
-- scrutiny/tools/throttler.py. The floats and their operations are a parameter.
use scrutiny.Prelude.{ℕ, ◌+◌, Bool, true, false, not, if◌then◌else◌, Result, ok, err, value_error}

-- What a user of a throttler calls.
pub record Throttling (T : Type 0) : Type 0 where
  pub allowed : T → ℕ → Bool
  pub possible : T → ℕ → Bool
  pub consume_bandwidth : T → ℕ → T
  pub process : T → ℕ → T

pub record Floats : Type 1 where
  pub Float : Type 0
  pub from_nat : ℕ → Float
  pub from_ratio : ℕ → ℕ → Float
  pub plus : Float → Float → Float
  pub minus : Float → Float → Float
  pub times : Float → Float → Float
  pub over : Float → Float → Float
  pub less : Float → Float → Bool

module _ (F : Floats) where
  open F use {Float, from_nat, from_ratio, plus, minus, times, over, less}

  pub record Throttler : Type 0 where
    pub enabled : Bool
    pub mean_bitrate : Float
    pub bitrate_estimation_window : Float
    pub slow_tau : Float
    pub fast_tau : Float
    pub last_process_timestamp : Float
    pub estimated_bitrate_slow : Float
    pub estimated_bitrate_fast : Float
    pub consumed_since_last_estimation : ℕ

  abbrev pub max_float : Float → Float → Float
  max_float a b = if less a b then b else a

  abbrev pub min_float : Float → Float → Float
  min_float a b = if less b a then b else a

  -- time.perf_counter() in seconds, from the microseconds of the caller
  abbrev pub seconds : ℕ → Float
  seconds now = from_ratio now 1_000_000

  unfoldable pub reset : Throttler → ℕ → Throttler
  reset t now = record t {
    last_process_timestamp = seconds now;
    estimated_bitrate_slow = from_nat 0;
    estimated_bitrate_fast = from_nat 0;
    consumed_since_last_estimation = 0;
  }

  unfoldable pub make : Float → Float → ℕ → Throttler
  make mean window now = record {
    enabled = false;
    mean_bitrate = mean;
    bitrate_estimation_window = window;
    slow_tau = max_float (from_nat 1) window;
    fast_tau = max_float (from_ratio 5 100) window;
    last_process_timestamp = seconds now;
    estimated_bitrate_slow = from_nat 0;
    estimated_bitrate_fast = from_nat 0;
    consumed_since_last_estimation = 0;
  }

  unfoldable pub set_bitrate : Throttler → Float → Throttler
  set_bitrate t mean = record t { mean_bitrate = mean }

  unfoldable pub enable : Throttler → ℕ → Result Throttler
  enable t now =
      if less (from_nat 100) t.mean_bitrate
      then ok (reset (record t { enabled = true }) now)
      else err value_error

  unfoldable pub disable : Throttler → Throttler
  disable t = record t { enabled = false }

  -- One low-pass filter with its time constant.
  unfoldable pub filter_step : Float → Float → Float → Float → Float
  filter_step dt tau input old =
      let b = min_float (from_nat 1) (over dt tau) in
      let a = minus (from_nat 1) b in plus (times b input) (times a old)

  unfoldable pub process : Throttler → ℕ → Throttler
  process t now =
      let dt = minus (seconds now) t.last_process_timestamp in
      let input = over (from_nat t.consumed_since_last_estimation) dt in
      if not t.enabled
      then reset t now
      else if less t.bitrate_estimation_window dt
      then record t {
        estimated_bitrate_fast = filter_step dt t.fast_tau input t.estimated_bitrate_fast;
        estimated_bitrate_slow = filter_step dt t.slow_tau input t.estimated_bitrate_slow;
        consumed_since_last_estimation = 0;
        last_process_timestamp = seconds now;
      }
      else t

  unfoldable pub allowed : Throttler → ℕ → Bool
  allowed t delta =
      let approx = max_float t.estimated_bitrate_slow t.estimated_bitrate_fast in
      if not t.enabled
      then true
      else not (less t.mean_bitrate (plus approx (from_nat t.consumed_since_last_estimation)))

  unfoldable pub possible : Throttler → ℕ → Bool
  possible t delta = if not t.enabled then true else less (from_nat 0) t.mean_bitrate

  unfoldable pub consume_bandwidth : Throttler → ℕ → Throttler
  consume_bandwidth t delta =
      if t.enabled
      then record t { consumed_since_last_estimation = t.consumed_since_last_estimation + delta }
      else t

  abbrev pub throttling : Throttling Throttler
  throttling = record {
    allowed = allowed;
    possible = possible;
    consume_bandwidth = consume_bandwidth;
    process = process;
  }
