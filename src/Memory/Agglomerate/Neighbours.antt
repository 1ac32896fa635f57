-- ===== src/Memory/Agglomerate/Neighbours.antt =====
-- `agglomerate` from the cluster in front of the one that was inserted: the two neighbours are
-- merged if they touch it, and then all clusters lie apart.
use scrutiny.Prelude.{
  ℕ, zero, suc, ◌+◌, ◌-◌, ◌≤◌, ◌<◌, ◌≡◌, refl, ◌∙◌, Bool, some, none, List, [], ◌∷◌, ◌++◌, arith,
  inl, inr, ok, length, lt_or_ge,
}
use scrutiny.Memory.Cluster.{Cluster, IsSound}
use scrutiny.Memory.Cluster.Pieces.{joined, joined-IsSound}
use scrutiny.Memory.Content.{MemoryContent, agglomerate_loop, touching, merge_next}
use scrutiny.Memory.Blocks.{Holds, stop, find, byte_at, Apart, Apart-lower, find-below}
use scrutiny.Memory.Blocks.Concat.{reach, Apart-append, Apart-left, Apart-right}
use scrutiny.Memory.Agglomerate.Steps.{
  touching-some, merged, merge_next-merged, merged-Holds, byte_at-joined,
}
use scrutiny.Memory.Agglomerate.Scan.{scan, before, keys_more, loop_merge, loop_merge_last}

module _ (m : MemoryContent) (bs : List Cluster) (m' : MemoryContent) where
  -- The same bytes, in clusters of which no two touch.
  pub record Agglomerated : Type 0 where
    pub after : List Cluster
    pub holds : Holds m' after
    pub retain : m'.retain_data ≡ m.retain_data
    pub apart : Apart m.retain_data 1 0 after
    pub bytes : (a : ℕ) → byte_at after a ≡ byte_at bs a

-- A longer cluster in the place of the last one.
pub grown :
    (r : Bool) (pre : List Cluster) (c d : Cluster) (post : List Cluster)
    → Apart r 1 0 (pre ++ (c ∷ []))
    → IsSound r d
    → Apart r 1 (stop d + 1) post
    → stop c ≡ d.start_addr
    → Apart r 1 0 (pre ++ (joined r c d ∷ post))
grown r pre c d post s t u e =
    let facts = Apart-right r 1 0 pre (c ∷ []) s in
    let full : 0 < c.size = facts.1 in
    Apart-append r 1 0 pre (joined r c d ∷ post) (Apart-left r 1 0 pre (c ∷ []) s) (
      facts.0,
      omega arith,
      joined-IsSound r c d facts.2 t,
      Apart-lower r 1 (stop d + 1) _ post (omega arith) u,
    )

module _ (m : MemoryContent) (pre : List Cluster) (c : Cluster) where
  abbrev ResultAt : ℕ → ℕ → List Cluster → Type 0
  ResultAt fuel left post =
      (m' : MemoryContent) × (agglomerate_loop fuel m (length pre) (some left) ≡ ok m')
      × Agglomerated m (pre ++ (c ∷ post)) m'

  -- No neighbour behind `c` touches it.
  settled :
      (fuel left : ℕ) (post : List Cluster)
      → Holds m (pre ++ (c ∷ post))
      → Apart m.retain_data 1 0 (pre ++ (c ∷ post))
      → suc (length post) < fuel
      → ResultAt fuel left post
  settled fuel left post h s f = (
    m,
    scan (c ∷ post) fuel m pre (some left) h s f,
    record { after = pre ++ (c ∷ post); holds = h; retain = refl; apart = s; bytes = λ a. refl },
  )

  -- The neighbour behind `c` touches it.
  absorbed :
      (fuel left : ℕ) (d : Cluster) (post : List Cluster)
      → Holds m (pre ++ (c ∷ d ∷ post))
      → Apart m.retain_data 1 0 (pre ++ (c ∷ []))
      → Apart m.retain_data 1 (stop c) (d ∷ post)
      → stop c ≡ d.start_addr
      → suc (length (d ∷ post)) < suc fuel
      → ResultAt (suc fuel) left (d ∷ post)
  absorbed fuel left d post h s u e f = elim (lt_or_ge 1 left) [
    | inl w ↦ (
      m',
      loop_merge fuel m m' (length pre) c.start_addr d.start_addr left more touch run w
          ∙ scan (joined r c d ∷ post) fuel m' pre (some (left - 1)) held whole (omega arith),
      result,
    )
    | inr w ↦ (
      m',
      loop_merge_last fuel m m' (length pre) c.start_addr d.start_addr left more touch run w,
      result,
    )
  ]
    where
      r : Bool
      r = m.retain_data

      facts : Apart m.retain_data 1 (reach m.retain_data 1 0 pre) (c ∷ [])
      facts = Apart-right m.retain_data 1 0 pre (c ∷ []) s

      next : c.start_addr < d.start_addr
      next = let full : 0 < c.size = facts.1 in omega arith

      low : (j : ℕ) → c.start_addr ≤ j → find j pre ≡ none
      low = before m.retain_data 0 pre c [] s

      m' : MemoryContent
      m' = merged m pre c d post h low next

      more : length pre < length m.sorted_keys
      more = keys_more m pre c (d ∷ post) h

      touch : touching m (length pre) ≡ ok (some (c.start_addr, d.start_addr))
      touch = touching-some m pre c d post h low next (omega arith)

      run : merge_next m (length pre) c.start_addr d.start_addr ≡ ok m'
      run = merge_next-merged m pre c d post h low next facts.2 u.2

      whole : Apart m.retain_data 1 0 (pre ++ (joined m.retain_data c d ∷ post))
      whole = grown m.retain_data pre c d post s u.2 u.3 e

      held : Holds m' (pre ++ (joined m.retain_data c d ∷ post))
      held =
          merged-Holds m pre c d post h low next
            (λ j p. find-below m.retain_data 1 (stop d + 1) post j u.3 (omega arith))

      result : Agglomerated m (pre ++ (c ∷ d ∷ post)) m'
      result = record {
        after = pre ++ (joined m.retain_data c d ∷ post);
        holds = held;
        retain = refl;
        apart = whole;
        bytes = λ a. byte_at-joined m.retain_data pre c d post a facts.2 u.2 e;
      }

  -- From the cluster `c` on, where what lies in front of it does not touch it.
  pub from_inserted :
      (fuel left : ℕ) (post : List Cluster)
      → Holds m (pre ++ (c ∷ post))
      → Apart m.retain_data 1 0 (pre ++ (c ∷ []))
      → Apart m.retain_data 1 (stop c) post
      → suc (length post) < fuel
      → ResultAt fuel left post
  from_inserted zero left post h s u f = absurd (omega arith)
  from_inserted (suc fuel) left [] h s u f = settled (suc fuel) left [] h s f
  from_inserted (suc fuel) left (d ∷ post) h s u f = elim (lt_or_ge (stop c) d.start_addr) [
    | inl p ↦
        settled (suc fuel) left (d ∷ post) h
          (let r = m.retain_data in
            let facts = Apart-right r 1 0 pre (c ∷ []) s in
            Apart-append r 1 0 pre (c ∷ d ∷ post) (Apart-left r 1 0 pre (c ∷ []) s)
              (facts.0, facts.1, facts.2, (omega arith, u.1, u.2, u.3)))
          f
    | inr p ↦ absorbed fuel left d post h s u (omega (arith, u.0)) f
  ]
