-- ===== src/Memory/Read.antt =====
-- `MemoryContent.read` of scrutiny/core/memory_content.py against the bytes at the addresses.
use scrutiny.Prelude.{
  ℕ, zero, suc, ◌+◌, ◌-◌, ◌≤◌, ◌<◌, ◌≡◌, refl, ap, ◌∙◌, Bool, true, false, Option, some, none, List,
  [], ◌∷◌, ◌++◌, arith, inl, inr, Result, ok, err, Exn, value_error, index_error, Bytes, length,
  get_elem?, get_elem?-replicate, lt_or_ge,
}
use scrutiny.Memory.Cluster
use scrutiny.Memory.Cluster.{Cluster, IsSound, content}
use scrutiny.Memory.Cluster.Pieces.{piece, length-piece, held-piece, read-piece}
use scrutiny.Memory.Content.{MemoryContent, read, bisect}
use scrutiny.Memory.Blocks.{Holds, starts, stop, byte_at, Apart, byte_at-below}
use scrutiny.Memory.Blocks.Concat.{reach, Apart-left, Apart-right, byte_at-append_behind}
use scrutiny.Memory.Place.{Place, first, behind, Above, place, key_at-Holds, cluster_at-Holds}
use scrutiny.Memory.Agglomerate.Scan.{before}

-- The bytes from address `a` on, if all of them are there.
unfoldable pub fetch : (ℕ → Option ℕ) → ℕ → ℕ → Option Bytes
fetch f a zero = some []
fetch f a (suc n) = elim (f a) [
  | none ↦ none
  | some b ↦ elim (fetch f (a + 1) n) [ none ↦ none | some d ↦ some (b ∷ d) ]
]

pub fetch-some :
    (f : ℕ → Option ℕ) (a n : ℕ) (d : Bytes)
    → length d ≡ n
    → ((i : ℕ) → i < n → f (a + i) ≡ get_elem? d i)
    → fetch f a n ≡ some d
unfolding fetch
fetch-some f a zero [] e h = refl
fetch-some f a zero (b ∷ d) e h = absurd (omega arith)
fetch-some f a (suc n) [] e h = absurd (omega arith)
fetch-some f a (suc n) (b ∷ d) e h =
    let head : f a ≡ some b = ap f (omega arith) ∙ h 0 (omega arith) in
    ground (
      arith,
      head,
      fetch-some f (a + 1) n d (omega arith) (λ i p. ap f (omega arith) ∙ h (suc i) (omega arith)),
    )

pub fetch-none : (f : ℕ → Option ℕ) (a n i : ℕ) → i < n → f (a + i) ≡ none → fetch f a n ≡ none
unfolding fetch
fetch-none f a zero i p e = absurd (omega arith)
fetch-none f a (suc n) zero p e =
    let head : f a ≡ none = ap f (omega arith) ∙ e in ground (arith, head)
fetch-none f a (suc n) (suc i) p e =
    ground (arith, fetch-none f (a + 1) n i (omega arith) (ap f (omega arith) ∙ e))

get_elem?-piece :
    (r : Bool) (c : Cluster) (offset n i : ℕ)
    → IsSound r c
    → i < n
    → get_elem? (piece c offset n) i ≡ content c (offset + i)
get_elem?-piece true c offset n i s h = held-piece true c offset n i s h
get_elem?-piece false c offset n i s h = ground (arith, s.keeps, get_elem?-replicate n i)

-- What `read` answers: the bytes if all of the range is there, an exception otherwise.
abbrev pub Answers : Result Bytes → Option Bytes → Type 0
Answers result (some d) = result ≡ ok d
Answers result none = (e : Exn) × (result ≡ err e)

module _ (m : MemoryContent) (addr n : ℕ) (pre : List Cluster) (c : Cluster) (post : List Cluster)
    (h : Holds m (pre ++ (c ∷ post))) (s : Apart m.retain_data 1 0 (pre ++ (c ∷ post)))
    (some_size : 0 < n) (from : c.start_addr ≤ addr) (next : Above addr post)
    (points : bisect (starts (pre ++ (c ∷ post))) addr ≡ suc (length pre)) where
  abbrev facts : Apart m.retain_data 1 (reach m.retain_data 1 0 pre) (c ∷ post)
  facts = Apart-right m.retain_data 1 0 pre (c ∷ post) s

  reads : read m addr n ≡ Cluster.read c (addr - c.start_addr) n
  unfolding read
  reads =
      let at : bisect m.sorted_keys addr ≡ suc (length pre) = rw h.keys points in
      ground (
        arith,
        at,
        key_at-Holds {m = m} pre c post h,
        cluster_at-Holds {m = m} pre c post h
            (before m.retain_data 0 pre c post s c.start_addr (omega arith)),
      )

  shows : (a : ℕ) → c.start_addr ≤ a → byte_at (pre ++ (c ∷ post)) a ≡ byte_at (c ∷ post) a
  shows a p =
      byte_at-append_behind m.retain_data 1 0 pre (c ∷ post) a
        (Apart-left m.retain_data 1 0 pre (c ∷ post) s) (omega (arith, facts.0))

  read_inside :
      addr + n ≤ stop c → Answers (read m addr n) (fetch (byte_at (pre ++ (c ∷ post))) addr n)
  read_inside p =
      let offset = addr - c.start_addr in
      let d = piece c offset n in
      rw
        (fetch-some (byte_at (pre ++ (c ∷ post))) addr n d
          (length-piece m.retain_data c offset n facts.2 (omega arith))
          (λ i q.
            let e : addr + i - c.start_addr ≡ offset + i = omega arith in
            shows (addr + i) (omega arith)
            ∙ (unfold byte_at in
                ground
                  (arith, ap (content c) e, get_elem?-piece m.retain_data c offset n i facts.2))))
        (reads ∙ read-piece c offset n (omega arith))

  -- The first address of the range that the cluster does not cover has no byte.
  free_from :
      (rest : List Cluster)
      → Apart m.retain_data 1 (stop c + 1) rest
      → Above addr rest
      → byte_at rest addr ≡ none
  free_from [] u w = unfold byte_at in refl
  free_from (d ∷ ds) u w =
      byte_at-below m.retain_data 1 d.start_addr (d ∷ ds) addr (omega arith, u.1, u.2, u.3) w

  not_all : stop c < addr + n → fetch (byte_at (pre ++ (c ∷ post))) addr n ≡ none
  unfolding byte_at
  not_all p = elim (lt_or_ge addr (stop c)) [
    | inl q ↦
        let e : addr + (stop c - addr) ≡ stop c = omega arith in
        fetch-none (byte_at (pre ++ (c ∷ post))) addr n (stop c - addr) (omega arith) (
          rw e (
            shows (stop c) (omega arith)
            ∙ ground (arith, byte_at-below m.retain_data 1 (stop c + 1) post (stop c) facts.3)))
    | inr q ↦
        let e : addr + 0 ≡ addr = omega arith in
        fetch-none (byte_at (pre ++ (c ∷ post))) addr n 0 some_size
          (rw e (shows addr from ∙ ground (arith, free_from post facts.3 next)))
  ]

  read_outside :
      stop c < addr + n → Answers (read m addr n) (fetch (byte_at (pre ++ (c ∷ post))) addr n)
  read_outside p = rw (not_all p) (index_error, reads ∙ (unfold Cluster.read in ground arith))

absent :
    (r : Bool) (addr : ℕ) (bs : List Cluster)
    → Apart r 1 0 bs
    → Above addr bs
    → byte_at bs addr ≡ none
unfolding byte_at
absent r addr [] s u = refl
absent r addr (d ∷ ds) s u =
    byte_at-below r 1 d.start_addr (d ∷ ds) addr (omega arith, s.1, s.2, s.3) u

-- `read` returns exactly when each address of the range has a byte, and then it returns the bytes.
pub read-Answers :
    (m : MemoryContent) (bs : List Cluster) (addr n : ℕ)
    → Holds m bs
    → Apart m.retain_data 1 0 bs
    → 0 < n
    → Answers (read m addr n) (fetch (byte_at bs) addr n)
read-Answers m bs addr n h s some_size = go (place addr bs)
  where
    below : Above addr bs → byte_at bs addr ≡ none
    below u = absent m.retain_data addr bs s u

    go : Place addr bs → Answers (read m addr n) (fetch (byte_at bs) addr n)
    go (first e u) =
        rw (fetch-none (byte_at bs) addr n 0 some_size (ap (byte_at bs) (omega arith) ∙ below u))
          (value_error, unfold read in ground (arith, h.keys, e))
    go (behind pre c post e from u points) =
        let h' : Holds m (pre ++ (c ∷ post)) = rw e at h in
        let s' : Apart m.retain_data 1 0 (pre ++ (c ∷ post)) = rw e at s in
        let points' : bisect (starts (pre ++ (c ∷ post))) addr ≡ suc (length pre) =
          rw e at points in
        rw e (elim (lt_or_ge (stop c) (addr + n)) [
          | inl p ↦ read_outside m addr n pre c post h' s' some_size from u points' p
          | inr p ↦ read_inside m addr n pre c post h' s' some_size from u points' p
        ])
