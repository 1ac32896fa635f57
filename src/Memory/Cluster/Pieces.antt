-- ===== src/Memory/Cluster/Pieces.antt =====
-- What the pieces of a sound cluster hold: a range read out of it, a shorter cluster, and the
-- cluster that two make together.
use scrutiny.Prelude.{
  ℕ, zero, suc, ◌+◌, ◌-◌, ◌≤◌, ◌<◌, ◌≡◌, ◌≢◌, refl, Bool, true, false, Option, some, none, [], ◌∷◌,
  ◌++◌, arith, Bytes, slice, length, get_elem?, drop, replicate, if◌then◌else◌, ok, length-take,
  length-append, length-slice, length-replicate, get_elem?-take, get_elem?-drop,
  get_elem?-append_left, get_elem?-append_right,
}
use scrutiny.Memory.Cluster.{Cluster, IsSound, make, read, shrink, add, content}

abbrev pub piece : Cluster → ℕ → ℕ → Bytes
piece c offset n = if c.has_data then slice offset (offset + n) c.internal_data else replicate n 0

-- The byte that a new cluster over `d` has at an offset.
abbrev pub held : Bool → Bytes → ℕ → Option ℕ
held r d i = if r then get_elem? d i else some 0

pub read-piece :
    (c : Cluster) (offset n : ℕ) → offset + n ≤ c.size → read c offset n ≡ ok (piece c offset n)
unfolding read
read-piece c offset n h = ground arith

pub length-piece :
    (r : Bool) (c : Cluster) (offset n : ℕ)
    → IsSound r c
    → offset + n ≤ c.size
    → length (piece c offset n) ≡ n
length-piece true c offset n s h =
    ground (arith, length-slice offset n c.internal_data, s.keeps, s.measured)
length-piece false c offset n s h = ground (arith, length-replicate {A = ℕ} n 0, s.keeps)

pub held-piece :
    (r : Bool) (c : Cluster) (offset n i : ℕ)
    → IsSound r c
    → i < n
    → held r (piece c offset n) i ≡ content c (offset + i)
held-piece true c offset n i s h = ground (
  arith,
  s.keeps,
  get_elem?-take (drop offset c.internal_data) (offset + n - offset) i,
  get_elem?-drop c.internal_data offset i (offset + i),
)
held-piece false c offset n i s h = ground (arith, s.keeps)

pub start_addr-make : (r : Bool) (start n : ℕ) (d : Bytes) → (make start n r d).start_addr ≡ start
unfolding make
start_addr-make r start n d = refl

pub size-make : (r : Bool) (start n : ℕ) (d : Bytes) → (make start n r d).size ≡ n
unfolding make
size-make r start n d = refl

pub start_addr-shrink : (c : Cluster) (n : ℕ) → (shrink c n).start_addr ≡ c.start_addr
unfolding shrink
start_addr-shrink c n = refl

pub size-shrink : (c : Cluster) (n : ℕ) → (shrink c n).size ≡ n
unfolding shrink
size-shrink c n = refl

pub make-IsSound :
    (r : Bool) (start n : ℕ) (d : Bytes) → length d ≡ n → IsSound r (make start n r d)
unfolding make
make-IsSound true start n d h = record { keeps = refl; measured = h }
make-IsSound false start n d h = record { keeps = refl; measured = refl }

pub content-make :
    (r : Bool) (start n i : ℕ) (d : Bytes) → content (make start n r d) i ≡ held r d i
unfolding make
content-make true start n i d = refl
content-make false start n i d = refl

pub shrink-IsSound :
    (r : Bool) (c : Cluster) (n : ℕ) → IsSound r c → n ≤ c.size → IsSound r (shrink c n)
unfolding shrink
shrink-IsSound true c n s h = ground (arith, s.keeps, s.measured, length-take n c.internal_data)
shrink-IsSound false c n s h = ground (arith, s.keeps, s.measured)

pub content-shrink : (c : Cluster) (n i : ℕ) → i < n → content (shrink c n) i ≡ content c i
unfolding shrink
content-shrink c n i h = ground (arith, get_elem?-take c.internal_data n i)

-- The cluster that `add` returns.
abbrev pub joined : Bool → Cluster → Cluster → Cluster
joined r c other = record c {
  size = c.size + other.size;
  internal_data = if r then c.internal_data ++ piece other 0 other.size else c.internal_data;
}

pub add-joined :
    (r : Bool) (c other : Cluster)
    → IsSound r c
    → IsSound r other
    → add c other ≡ ok (joined r c other)
unfolding add
add-joined true c other s t =
    ground (arith, s.keeps, read-piece other 0 other.size, length-piece true other 0 other.size)
add-joined false c other s t = ground (arith, s.keeps, read-piece other 0 other.size)

pub joined-IsSound :
    (r : Bool) (c other : Cluster) → IsSound r c → IsSound r other → IsSound r (joined r c other)
joined-IsSound true c other s t = ground (
  arith,
  s.keeps,
  s.measured,
  length-piece true other 0 other.size,
  length-append c.internal_data (piece other 0 other.size),
)
joined-IsSound false c other s t = ground (arith, s.keeps, s.measured)

pub content-joined_left :
    (r : Bool) (c other : Cluster) (i : ℕ)
    → IsSound r c
    → i < c.size
    → content (joined r c other) i ≡ content c i
content-joined_left true c other i s h =
    ground (
      arith,
      s.keeps,
      s.measured,
      get_elem?-append_left c.internal_data (piece other 0 other.size) i,
    )
content-joined_left false c other i s h = ground (arith, s.keeps)

pub content-joined_right :
    (r : Bool) (c other : Cluster) (i : ℕ)
    → IsSound r c
    → IsSound r other
    → i < other.size
    → content (joined r c other) (c.size + i) ≡ content other i
content-joined_right true c other i s t h = ground (
  arith,
  s.keeps,
  s.measured,
  get_elem?-append_right c.internal_data (piece other 0 other.size) (c.size + i) i,
  held-piece true other 0 other.size i,
)
content-joined_right false c other i s t h = ground (arith, s.keeps, t.keeps)

get_elem?-ne-none : (l : Bytes) (i : ℕ) → i < length l → get_elem? l i ≢ none
get_elem?-ne-none [] i h e = absurd (omega arith)
get_elem?-ne-none (x ∷ l) zero h e = cc
get_elem?-ne-none (x ∷ l) (suc i) h e = get_elem?-ne-none l i (omega arith) e

-- A sound cluster has a byte at each of its offsets.
pub content-ne-none :
    (r : Bool) (c : Cluster) (i : ℕ) → IsSound r c → i < c.size → content c i ≢ none
content-ne-none true c i s h e =
    ground (arith, s.keeps, s.measured, get_elem?-ne-none c.internal_data i)
content-ne-none false c i s h e = ground (arith, s.keeps)
