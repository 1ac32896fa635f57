-- ===== src/Memory/Place.antt =====
-- Where `bisect` points to among clusters, and the two reads of the source at an index.
use scrutiny.Prelude.{
  ℕ, suc, ◌≤◌, ◌<◌, ◌≡◌, refl, ap, none, List, [], ◌∷◌, ◌++◌, arith, length, leb, leb→le,
  Bool-cases, inl, inr, ok, get_elem?-append_length, get_elem?-append_next,
}
use scrutiny.Memory.Cluster.{Cluster}
use scrutiny.Memory.Content.{MemoryContent, bisect, key_at, cluster_at}
use scrutiny.Memory.Blocks.{Holds, starts, find, find-append, starts-append, length-starts}

-- The first cluster starts behind the address.
abbrev pub Above : ℕ → List Cluster → Type 0
Above addr [] = Unit
Above addr (d ∷ ds) = addr < d.start_addr

-- The clusters up to the one that starts at the address or next below it, and the others.
pub data Place (addr : ℕ) (bs : List Cluster) : Type 0 where
  first : bisect (starts bs) addr ≡ 0 → Above addr bs → Place addr bs
  behind :
      (pre : List Cluster) (c : Cluster) (post : List Cluster)
      → bs ≡ pre ++ (c ∷ post)
      → c.start_addr ≤ addr
      → Above addr post
      → bisect (starts bs) addr ≡ suc (length pre)
      → Place addr bs

shift :
    (addr : ℕ) (c : Cluster) (cs : List Cluster)
    → c.start_addr ≤ addr
    → Place addr cs
    → Place addr (c ∷ cs)
unfolding bisect
shift addr c cs h (first e u) = behind [] c cs refl h u (ground arith)
shift addr c cs h (behind pre d post e h' u b) =
    behind (c ∷ pre) d post (ap (λ l. c ∷ l) e) h' u (ground arith)

pub place : (addr : ℕ) (bs : List Cluster) → Place addr bs
unfolding bisect
place addr [] = first refl tt
place addr (c ∷ cs) = elim (Bool-cases (leb c.start_addr addr)) [
  | inl h ↦ shift addr c cs (leb→le c.start_addr addr h) (place addr cs)
  | inr h ↦ first (ground arith) (ground arith)
]

module _ {m : MemoryContent} where
  pub key_at-Holds :
      (pre : List Cluster) (c : Cluster) (post : List Cluster)
      → Holds m (pre ++ (c ∷ post))
      → key_at m (length pre) ≡ ok c.start_addr
  key_at-Holds pre c post h = ground (
    arith,
    h.keys,
    starts-append pre (c ∷ post),
    length-starts pre,
    get_elem?-append_length (starts pre) (starts post) c.start_addr,
  )

  pub key_at-Holds_next :
      (pre : List Cluster) (c d : Cluster) (post : List Cluster)
      → Holds m (pre ++ (c ∷ d ∷ post))
      → key_at m (suc (length pre)) ≡ ok d.start_addr
  key_at-Holds_next pre c d post h = ground (
    arith,
    h.keys,
    starts-append pre (c ∷ d ∷ post),
    length-starts pre,
    get_elem?-append_next (starts pre) (starts post) c.start_addr d.start_addr,
  )

  pub cluster_at-Holds :
      (pre : List Cluster) (c : Cluster) (post : List Cluster)
      → Holds m (pre ++ (c ∷ post))
      → find c.start_addr pre ≡ none
      → cluster_at m c.start_addr ≡ ok c
  unfolding find
  cluster_at-Holds pre c post h f =
      ground (arith, h.dict c.start_addr, find-append c.start_addr pre (c ∷ post))
