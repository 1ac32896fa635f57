-- ===== src/Dispatch/Order.antt =====
-- The order in which the queue of scrutiny/server/device/request_dispatcher.py serves requests:
-- by priority, and first in, first out among equals.
pub mod Serving
use scrutiny.Prelude.{
  ℕ, zero, suc, ◌+◌, ◌-◌, ◌≤◌, ◌<◌, ◌≡◌, refl, ap, ◌∙◌, Bool, true, false, Option, some, none, List,
  [], ◌∷◌, arith, length, insert_at, last?, ltb, leb, if◌then◌else◌, Result, ok, err, All,
  length-insert_at, attribute_error, Bool-cases, inl, inr, ltb→lt, ltb→le,
}
use scrutiny.Dispatch.Queue.{
  RequestRecord, RequestQueue, bisect_left, init, new, add, warn, check_oversize, push, pop,
  is_full, peek,
}

pub bisect_left-le : (ks : List ℕ) (p : ℕ) → bisect_left ks p ≤ length ks
unfolding bisect_left
bisect_left-le [] p = omega arith
bisect_left-le (k ∷ ks) p = ground (arith, bisect_left-le ks p)

-- Behind all keys, if all are smaller.
pub bisect_left_above : (ks : List ℕ) (p : ℕ) → All (λ k. k < p) ks → bisect_left ks p ≡ length ks
unfolding bisect_left
bisect_left_above [] p h = refl
bisect_left_above (k ∷ ks) p h = ground (arith, bisect_left_above ks p h.1)

-- In front of the last key, if that is not smaller.
pub bisect_left_below :
    (ks : List ℕ) (p m : ℕ)
    → last? ks ≡ some m
    → p ≤ m
    → (bisect_left ks p < length ks) × (bisect_left (init ks) p ≡ bisect_left ks p)
unfolding bisect_left
bisect_left_below [] p m e h = cc
bisect_left_below (k ∷ []) p m e h = ground arith
bisect_left_below (k ∷ l ∷ ks) p m e h = ground (arith, bisect_left_below (l ∷ ks) p m e h)

module _ {ℓ} {A : Type ℓ} where
  pub insert_at-end :
      (xs : List A) (i : ℕ) (v : A)
      → i ≡ length xs
      → (last? (insert_at xs i v) ≡ some v) × (init (insert_at xs i v) ≡ xs)
  insert_at-end [] i v e = (refl, refl)
  insert_at-end (x ∷ xs) zero v e = absurd (omega arith)
  insert_at-end (x ∷ []) (suc zero) v e = (refl, refl)
  insert_at-end (x ∷ []) (suc (suc i)) v e = absurd (omega arith)
  insert_at-end (x ∷ y ∷ xs) (suc zero) v e = absurd (omega arith)
  insert_at-end (x ∷ y ∷ xs) (suc (suc i)) v e =
      let (p, q) = insert_at-end (y ∷ xs) (suc i) v (omega arith) in (p, ap (λ l. x ∷ l) q)

  pub insert_at-inside :
      (xs : List A) (i : ℕ) (v : A)
      → i < length xs
      → (last? (insert_at xs i v) ≡ last? xs) × (init (insert_at xs i v) ≡ insert_at (init xs) i v)
  insert_at-inside [] i v h = absurd (omega arith)
  insert_at-inside (x ∷ []) zero v h = (refl, refl)
  insert_at-inside (x ∷ []) (suc i) v h = absurd (omega arith)
  insert_at-inside (x ∷ y ∷ xs) zero v h = (refl, refl)
  insert_at-inside (x ∷ y ∷ xs) (suc zero) v h =
      let (p, q) = insert_at-inside (y ∷ xs) zero v (omega arith) in (p, ap (λ l. x ∷ l) q)
  insert_at-inside (x ∷ y ∷ xs) (suc (suc i)) v h =
      let (p, q) = insert_at-inside (y ∷ xs) (suc i) v (omega arith) in (p, ap (λ l. x ∷ l) q)

-- The priorities ascend, one for each request.
abbrev pub IsAscending : List ℕ → Type 0
IsAscending [] = Unit
IsAscending (k ∷ ks) = All (λ l. k ≤ l) ks × IsAscending ks

pub record IsOrdered {K : Type 0} (q : RequestQueue K) : Type 0 where
  pub aligned : length q.priorities ≡ length q.data_list
  pub ascending : IsAscending q.priorities

All-insert_at :
    (ks : List ℕ) (i p n : ℕ) → n ≤ p → All (λ l. n ≤ l) ks → All (λ l. n ≤ l) (insert_at ks i p)
All-insert_at [] i p n h a = (h, tt)
All-insert_at (k ∷ ks) zero p n h a = (h, a)
All-insert_at (k ∷ ks) (suc i) p n h a = (a.0, All-insert_at ks i p n h a.1)

All-lower : (ks : List ℕ) (n m : ℕ) → n ≤ m → All (λ l. m ≤ l) ks → All (λ l. n ≤ l) ks
All-lower [] n m h a = tt
All-lower (k ∷ ks) n m h a = (omega arith, All-lower ks n m h a.1)

pub IsAscending-insert_at :
    (ks : List ℕ) (p : ℕ) → IsAscending ks → IsAscending (insert_at ks (bisect_left ks p) p)
unfolding bisect_left
IsAscending-insert_at [] p s = (tt, tt)
IsAscending-insert_at (k ∷ ks) p s = elim (Bool-cases (ltb k p)) [
  | inl h ↦ rw h (
    All-insert_at ks (bisect_left ks p) p k (omega (arith, ltb→lt k p h)) s.0,
    IsAscending-insert_at ks p s.1,
  )
  | inr h ↦ rw h ((ltb→le k p h, All-lower ks p k (ltb→le k p h) s.0), s)
]

All-init : (ks : List ℕ) (n : ℕ) → All (λ l. n ≤ l) ks → All (λ l. n ≤ l) (init ks)
All-init [] n a = tt
All-init (k ∷ []) n a = tt
All-init (k ∷ l ∷ ks) n a = (a.0, All-init (l ∷ ks) n a.1)

pub IsAscending-init : (ks : List ℕ) → IsAscending ks → IsAscending (init ks)
IsAscending-init [] s = tt
IsAscending-init (k ∷ []) s = tt
IsAscending-init (k ∷ l ∷ ks) s = (All-init (l ∷ ks) k s.0, IsAscending-init (l ∷ ks) s.1)

pub length-init {ℓ} : {A : Type ℓ} (xs : List A) → length (init xs) ≡ length xs - 1
length-init [] = omega arith
length-init (x ∷ []) = omega arith
length-init (x ∷ y ∷ xs) = omega (arith, length-init (y ∷ xs))

module _ {K : Type 0} where
  -- Whatever it raises, `push` leaves the queue as it was or with the request in it.
  pub push-add :
      (q q' : RequestQueue K) (now : ℕ) (item : RequestRecord K) (p : ℕ) (out : Result (Unit {0}))
      → push q now item p ≡ (q', out)
      → is_full q ≡ false
      → (q'.data_list ≡ (add q item p).data_list) × (q'.priorities ≡ (add q item p).priorities)
  unfolding push warn check_oversize
  push-add q q' now item p out e h = ground arith
