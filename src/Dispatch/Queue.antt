-- ===== src/Dispatch/Queue.antt =====
-- `RequestQueue` and `RequestRecord` of scrutiny/server/device/request_dispatcher.py.
-- Times are whole microseconds of the monotonic clock, read by the caller.
use scrutiny.Prelude.{
  ℕ, suc, ◌-◌, Bool, true, false, Option, some, none, List, [], ◌∷◌, length, insert_at, last?, ltb,
  leb, if◌then◌else◌, Result, ok, err, exception, attribute_error, runtime_error, value_error,
}
use scrutiny.Protocol.Request.{Request}
use scrutiny.Protocol.Response.{Response}

-- A record, with the pair of callbacks and their parameters as one value that names them.
pub record RequestRecord (K : Type 0) : Type 0 where
  pub request : Request
  pub callbacks : K
  pub completed : Bool
  pub approximate_delta_bandwidth : ℕ

-- A call of one of the callbacks.
pub data Call (K : Type 0) : Type 0 where
  succeeded : K → Request → Response → Call K
  failed : K → Request → Call K

-- `maxsize` and `last_warning_time` are optional; the outer `none` of the latter is an attribute
-- that no assignment has made yet, as `__init__` leaves it.
pub record RequestQueue (K : Type 0) : Type 0 where
  pub maxsize : Option ℕ
  pub data_list : List (RequestRecord K)
  pub priorities : List ℕ
  pub last_warning_time : Option (Option ℕ)

abbrev pub oversize_warning_level : ℕ
oversize_warning_level = 10

abbrev pub oversize_error_level : ℕ
oversize_error_level = 100

abbrev pub warning_interval : ℕ
warning_interval = 2_000_000

-- bisect.bisect_left: where to insert in front of the equal keys of a sorted list.
unfoldable pub bisect_left : List ℕ → ℕ → ℕ
bisect_left [] p = 0
bisect_left (k ∷ ks) p = let rest = bisect_left ks p in if ltb k p then suc rest else 0

-- l without its last element, `del l[-1]`
abbrev pub init {ℓ} : {A : Type ℓ} → List A → List A
init [] = []
init (x ∷ []) = []
init (x ∷ y ∷ ys) = x ∷ init (y ∷ ys)

module _ {K : Type 0} where
  -- complete(success, response): the record, the calls made, and what was raised.
  unfoldable pub complete :
      RequestRecord K → Bool → Option Response → RequestRecord K × List (Call K) × Result (Unit {0})
  complete r true none = (record r { completed = true }, [], err value_error)
  complete r true (some response) =
      (record r { completed = true }, succeeded r.callbacks r.request response ∷ [], ok tt)
  complete r false response =
      (record r { completed = true }, failed r.callbacks r.request ∷ [], ok tt)

  unfoldable pub new : Option ℕ → RequestQueue K
  new maxsize = record {
    maxsize = maxsize;
    data_list = [];
    priorities = [];
    last_warning_time = none;
  }

  unfoldable pub clear : RequestQueue K → RequestQueue K
  clear q = record q { data_list = []; priorities = [] }

  abbrev pub is_full : RequestQueue K → Bool
  is_full q = elim q.maxsize [ none ↦ false | some n ↦ leb n (length q.data_list) ]

  unfoldable pub add : RequestQueue K → RequestRecord K → ℕ → RequestQueue K
  add q item priority =
      let index = bisect_left q.priorities priority in
      record q {
        data_list = insert_at q.data_list index item;
        priorities = insert_at q.priorities index priority;
      }

  -- The warning is rate limited by the attribute; reading one that was never set raises.
  unfoldable pub warn : RequestQueue K → ℕ → RequestQueue K × Result (Unit {0})
  warn q now =
      if ltb (length q.data_list) oversize_warning_level
      then (q, ok tt)
      else elim q.last_warning_time [
        | none ↦ (q, err attribute_error)
        | some none ↦ (record q { last_warning_time = some (some now) }, ok tt)
        | some (some t) ↦
            if ltb warning_interval (now - t)
            then (record q { last_warning_time = some (some now) }, ok tt)
            else (q, ok tt)
      ]

  unfoldable pub check_oversize :
      RequestQueue K × Result (Unit {0}) → RequestQueue K × Result (Unit {0})
  check_oversize (q, err e) = (q, err e)
  check_oversize (q, ok _) =
      if ltb oversize_error_level (length q.data_list) then (q, err runtime_error) else (q, ok tt)

  unfoldable pub push :
      RequestQueue K → ℕ → RequestRecord K → ℕ → RequestQueue K × Result (Unit {0})
  push q now item priority =
      if is_full q then (q, err exception) else check_oversize (warn (add q item priority) now)

  unfoldable pub pop : RequestQueue K → RequestQueue K × Option (RequestRecord K)
  pop q = elim (last? q.data_list) [
    | none ↦ (q, none)
    | some item ↦
        (record q { data_list = init q.data_list; priorities = init q.priorities }, some item)
  ]

  unfoldable pub peek : RequestQueue K → Option (RequestRecord K)
  peek q = last? q.data_list

  unfoldable pub is_empty : RequestQueue K → Bool
  is_empty q = elim q.data_list [ [] ↦ true | x ∷ xs ↦ false ]
