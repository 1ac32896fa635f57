-- ===== src/Memory/Write/Insert.antt =====
-- A cluster in a free range: where it goes, and the bytes of the clusters with it.
use scrutiny.Prelude.{
  ℕ, ◌+◌, ◌-◌, ◌≤◌, ◌<◌, ◌≡◌, Bool, none, List, [], ◌∷◌, ◌++◌, arith, ◌⊎◌, inl, inr, length,
  lt_or_ge, insert_at-append_length, ltb, leb, ◌&&◌, if◌then◌else◌,
}
use scrutiny.Prelude.Dict.{get-put}
use scrutiny.Memory.Cluster.{Cluster, IsSound, content}
use scrutiny.Memory.Cluster.Pieces.{content-ne-none}
use scrutiny.Memory.Content.{MemoryContent, insert}
use scrutiny.Memory.Blocks.{
  Holds, starts, stop, find, byte_at, Apart, find-append, find-below, starts-append, length-starts,
}
use scrutiny.Memory.Blocks.Concat.{
  reach, Apart-left, Apart-right, find-above, byte_at-append_behind,
}

-- A cluster covers no address without a byte.
pub uncovered :
    (r : Bool) (gap : ℕ) (pre : List Cluster) (b : Cluster) (post : List Cluster) (a : ℕ)
    → Apart r gap 0 (pre ++ (b ∷ post))
    → byte_at (pre ++ (b ∷ post)) a ≡ none
    → b.start_addr ≤ a
    → stop b ≤ a
unfolding byte_at
uncovered r gap pre b post a s e p = elim (lt_or_ge a (stop b)) [
  | inl q ↦
      let facts = Apart-right r gap 0 pre (b ∷ post) s in
      ground (
        arith,
        byte_at-append_behind r gap 0 pre (b ∷ post) a (Apart-left r gap 0 pre (b ∷ post) s)
            (omega (arith, facts.0)),
        content-ne-none r b (a - b.start_addr) facts.2,
      )
  | inr q ↦ q
]

-- A cluster says nothing of the addresses outside of it.
byte_at-skip :
    (pre : List Cluster) (c : Cluster) (post : List Cluster) (a : ℕ)
    → (a < c.start_addr) ⊎ (stop c ≤ a)
    → byte_at (pre ++ (c ∷ post)) a ≡ byte_at (pre ++ post) a
unfolding byte_at
byte_at-skip [] c post a h = ground arith
byte_at-skip (b ∷ pre) c post a h = ground (arith, byte_at-skip pre c post a h)

module _ (m : MemoryContent) (pre : List Cluster) (c : Cluster) (post : List Cluster)
    (left : Apart m.retain_data 1 0 pre) (near : reach m.retain_data 1 0 pre ≤ c.start_addr + 1)
    (full : 0 < c.size) (sound : IsSound m.retain_data c)
    (right : Apart m.retain_data 1 (stop c) post) where
  pub insert-Holds : Holds m (pre ++ post) → Holds (insert m (length pre) c) (pre ++ (c ∷ post))
  unfolding insert find
  insert-Holds h = record {
    keys = ground (
      arith,
      h.keys,
      starts-append pre post,
      starts-append pre (c ∷ post),
      length-starts pre,
      insert_at-append_length (starts pre) (starts post) c.start_addr,
    );
    dict = λ j. ground (
      arith,
      get-put m.clusters c.start_addr j c,
      h.dict j,
      find-append j pre post,
      find-append j pre (c ∷ post),
      find-above m.retain_data 1 0 pre j left,
      find-below m.retain_data 1 (stop c) post j right,
    );
  }

  pub byte_at-insert :
      (a : ℕ)
      → byte_at (pre ++ (c ∷ post)) a ≡ (
          if leb c.start_addr a && ltb a (stop c)
          then content c (a - c.start_addr)
          else byte_at (pre ++ post) a)
  unfolding byte_at
  byte_at-insert a = elim (lt_or_ge a c.start_addr) [
    | inl p ↦ ground (arith, byte_at-skip pre c post a (inl p))
    | inr p ↦ elim (lt_or_ge a (stop c)) [
      | inl q ↦ ground (arith, byte_at-append_behind m.retain_data 1 0 pre (c ∷ post) a left)
      | inr q ↦ ground (arith, byte_at-skip pre c post a (inr q))
    ]
  ]
