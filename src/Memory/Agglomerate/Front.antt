-- ===== src/Memory/Agglomerate/Front.antt =====
-- `agglomerate` from the cluster in front of the one that was inserted.
use scrutiny.Prelude.{
  ℕ, zero, suc, ◌≤◌, ◌<◌, ◌≡◌, ◌∙◌, subst, some, none, List, [], ◌∷◌, ◌++◌, arith, inl, inr, ok,
  length, append_assoc, length-append, lt_or_ge,
}
use scrutiny.Memory.Cluster.{Cluster, IsSound}
use scrutiny.Memory.Cluster.Pieces.{joined}
use scrutiny.Memory.Content.{MemoryContent, agglomerate_loop}
use scrutiny.Memory.Blocks.{Holds, stop, find, Apart, Apart-lower, find-below}
use scrutiny.Memory.Blocks.Concat.{reach, Apart-append, Apart-left, Apart-right}
use scrutiny.Memory.Agglomerate.Steps.{
  touching_apart, touching-some, merged, merge_next-merged, merged-Holds, byte_at-joined,
}
use scrutiny.Memory.Agglomerate.Scan.{before, keys_more, loop_pass, loop_merge}
use scrutiny.Memory.Agglomerate.Neighbours.{Agglomerated, grown, from_inserted}

module _ (m : MemoryContent) (pre : List Cluster) (p c : Cluster) (post : List Cluster)
    (h : Holds m (pre ++ (p ∷ c ∷ post))) (s : Apart m.retain_data 1 0 (pre ++ (p ∷ [])))
    (sound : IsSound m.retain_data c) (full : 0 < c.size) (near : stop p ≤ c.start_addr)
    (u : Apart m.retain_data 1 (stop c) post) where
  abbrev front : Apart m.retain_data 1 (reach m.retain_data 1 0 pre) (p ∷ [])
  front = Apart-right m.retain_data 1 0 pre (p ∷ []) s

  low : (j : ℕ) → p.start_addr ≤ j → find j pre ≡ none
  low = before m.retain_data 0 pre p [] s

  next : p.start_addr < c.start_addr
  next = let some_size : 0 < p.size = front.1 in omega arith

  high : (j : ℕ) → j ≤ c.start_addr → find j post ≡ none
  high j q = find-below m.retain_data 1 (stop c) post j u (omega arith)

  abbrev Goal : ℕ → Type 0
  Goal fuel =
      (m' : MemoryContent) × (agglomerate_loop fuel m (length pre) (some 2) ≡ ok m')
      × Agglomerated m (pre ++ (p ∷ c ∷ post)) m'

  -- The cluster in front is merged first.
  touches : (fuel : ℕ) → stop p ≡ c.start_addr → suc (length post) < fuel → Goal (suc fuel)
  touches fuel e f =
      let r = m.retain_data in
      let whole = merged m pre p c post h low next in
      let last : Apart r 1 0 (pre ++ (joined r p c ∷ [])) = grown r pre p c [] s sound tt e in
      let (m', run, done) =
        from_inserted whole pre (joined r p c) fuel 1 post
          (merged-Holds m pre p c post h low next high) last
          (Apart-lower r 1 (stop c) _ post (omega arith) u) f in
      (
        m',
        loop_merge fuel m whole (length pre) p.start_addr c.start_addr 2
              (keys_more m pre p (c ∷ post) h)
              (touching-some m pre p c post h low next (omega arith))
              (merge_next-merged m pre p c post h low next front.2 sound) (omega arith)
            ∙ run,
        record {
          after = done.after;
          holds = done.holds;
          retain = done.retain;
          apart = done.apart;
          bytes = λ a. done.bytes a ∙ byte_at-joined r pre p c post a front.2 sound e;
        },
      )

  passed : (fuel : ℕ) → stop p < c.start_addr → suc (length post) < fuel → Goal (suc fuel)
  passed fuel e f =
      let r = m.retain_data in
      let q = append_assoc pre (p ∷ []) (c ∷ post) in
      let q' = append_assoc pre (p ∷ []) (c ∷ []) in
      let n : suc (length pre) ≡ length (pre ++ (p ∷ [])) =
        omega (arith, length-append pre (p ∷ [])) in
      let last : Apart r 1 0 (pre ++ (p ∷ c ∷ [])) =
        Apart-append r 1 0 pre (p ∷ c ∷ []) (Apart-left r 1 0 pre (p ∷ []) s)
          (front.0, front.1, front.2, (omega arith, full, sound, tt)) in
      let (m', run, done) =
        from_inserted m (pre ++ (p ∷ [])) c fuel 2 post (rw q h) (rw q' last) u f in
      (
        m',
        loop_pass fuel m (length pre) (some 2) (keys_more m pre p (c ∷ post) h)
              (touching_apart m pre p c post h low next e)
            ∙ rw n run,
        subst (λ l. Agglomerated m l m') q done,
      )

  pub from_front : (fuel : ℕ) → suc (suc (length post)) < fuel → Goal fuel
  from_front zero f = absurd (omega arith)
  from_front (suc fuel) f = elim (lt_or_ge (stop p) c.start_addr) [
    | inl q ↦ passed fuel q (omega arith)
    | inr q ↦ touches fuel (omega arith) (omega arith)
  ]
