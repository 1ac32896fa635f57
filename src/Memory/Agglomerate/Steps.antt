-- ===== src/Memory/Agglomerate/Steps.antt =====
-- A round of `agglomerate`: whether two neighbours touch, and the cluster that they become.
use scrutiny.Prelude.{
  ℕ, suc, ◌+◌, ◌-◌, ◌≤◌, ◌<◌, ◌≡◌, ap, Bool, some, none, List, [], ◌∷◌, ◌++◌, arith, inl, inr, ok,
  length, erase_at, length-append, erase_at-append_next, lt_or_ge,
}
use scrutiny.Prelude.Dict
use scrutiny.Prelude.Dict.{get-put, get-remove}
use scrutiny.Memory.Cluster.{Cluster, IsSound, content}
use scrutiny.Memory.Cluster.Pieces.{joined, add-joined, content-joined_left, content-joined_right}
use scrutiny.Memory.Content.{MemoryContent, cluster_at, touching, merge_next}
use scrutiny.Memory.Blocks.{
  Holds, starts, stop, find, byte_at, find-append, starts-append, length-starts,
}
use scrutiny.Memory.Place.{key_at-Holds, key_at-Holds_next, cluster_at-Holds}

module _ (m : MemoryContent) (pre : List Cluster) (c : Cluster) (post : List Cluster)
    (h : Holds m (pre ++ (c ∷ post))) where
  length-keys : length m.sorted_keys ≡ length pre + suc (length post)
  length-keys =
      ground (arith, h.keys, length-starts (pre ++ (c ∷ post)), length-append pre (c ∷ post))

  pub touching_last : find c.start_addr pre ≡ none → post ≡ [] → touching m (length pre) ≡ ok none
  unfolding touching
  touching_last f e = ground (
    arith,
    key_at-Holds {m = m} pre c post h,
    cluster_at-Holds {m = m} pre c post h f,
    length-keys,
    ap length e,
  )

module _ (m : MemoryContent) (pre : List Cluster) (c d : Cluster) (post : List Cluster)
    (h : Holds m (pre ++ (c ∷ d ∷ post))) (low : (j : ℕ) → c.start_addr ≤ j → find j pre ≡ none)
    (next : c.start_addr < d.start_addr) where
  second : cluster_at m d.start_addr ≡ ok d
  unfolding find
  second =
      ground
        (arith, h.dict d.start_addr, find-append d.start_addr pre (c ∷ d ∷ post), low d.start_addr)

  first : cluster_at m c.start_addr ≡ ok c
  first = cluster_at-Holds {m = m} pre c (d ∷ post) h (low c.start_addr (omega arith))

  pub touching_apart : stop c < d.start_addr → touching m (length pre) ≡ ok none
  unfolding touching
  touching_apart p = ground (
    arith,
    key_at-Holds {m = m} pre c (d ∷ post) h,
    key_at-Holds_next {m = m} pre c d post h,
    first,
    second,
    length-keys m pre c (d ∷ post) h,
  )

  pub touching-some :
      d.start_addr ≤ stop c → touching m (length pre) ≡ ok (some (c.start_addr, d.start_addr))
  unfolding touching
  touching-some p = ground (
    arith,
    key_at-Holds {m = m} pre c (d ∷ post) h,
    key_at-Holds_next {m = m} pre c d post h,
    first,
    second,
    length-keys m pre c (d ∷ post) h,
  )

  -- The state behind the merge.
  abbrev pub merged : MemoryContent
  merged = record m {
    clusters =
        Dict.remove (Dict.put m.clusters c.start_addr (joined m.retain_data c d)) d.start_addr;
    sorted_keys = erase_at m.sorted_keys (suc (length pre));
  }

  pub merge_next-merged :
      IsSound m.retain_data c
      → IsSound m.retain_data d
      → merge_next m (length pre) c.start_addr d.start_addr ≡ ok merged
  unfolding merge_next
  merge_next-merged s t = ground (arith, first, second, add-joined m.retain_data c d s t)

  pub merged-Holds :
      ((j : ℕ) → j ≤ d.start_addr → find j post ≡ none)
      → Holds merged (pre ++ (joined m.retain_data c d ∷ post))
  unfolding find
  merged-Holds high = record {
    keys = ground (
      arith,
      h.keys,
      starts-append pre (c ∷ d ∷ post),
      starts-append pre (joined m.retain_data c d ∷ post),
      length-starts pre,
      erase_at-append_next (starts pre) (starts post) c.start_addr d.start_addr,
    );
    dict = λ j. ground (
      arith,
      get-remove (Dict.put m.clusters c.start_addr (joined m.retain_data c d)) d.start_addr j,
      get-put m.clusters c.start_addr j (joined m.retain_data c d),
      h.dict j,
      find-append j pre (c ∷ d ∷ post),
      find-append j pre (joined m.retain_data c d ∷ post),
      low j,
      high j,
    );
  }

-- A cluster and its neighbour hold the bytes of the two together.
pub byte_at-joined :
    (r : Bool) (pre : List Cluster) (c d : Cluster) (post : List Cluster) (a : ℕ)
    → IsSound r c
    → IsSound r d
    → stop c ≡ d.start_addr
    → byte_at (pre ++ (joined r c d ∷ post)) a ≡ byte_at (pre ++ (c ∷ d ∷ post)) a
unfolding byte_at
byte_at-joined r (b ∷ pre) c d post a s t e = ground (arith, byte_at-joined r pre c d post a s t e)
byte_at-joined r [] c d post a s t e = elim (lt_or_ge a d.start_addr) [
  | inl p ↦ ground (arith, content-joined_left r c d (a - c.start_addr) s)
  | inr p ↦
      let i : d.start_addr ≤ a → c.size + (a - d.start_addr) ≡ a - c.start_addr = omega arith in
      ground (
        arith,
        i p,
        content-joined_right r c d (a - d.start_addr) s t,
        ap (content (joined r c d)) (i p),
      )
]
