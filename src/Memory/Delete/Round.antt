-- ===== src/Memory/Delete/Round.antt =====
-- A round of `delete`: it edits a cluster that the range touches, or stops with the range clear.
use scrutiny.Prelude.{
  ℕ, suc, ◌+◌, ◌-◌, ◌≤◌, ◌<◌, ◌≡◌, refl, sym, ap, ◌∙◌, subst, some, none, List, [], ◌∷◌, ◌++◌,
  arith, ◌⊎◌, inl, inr, ok, length, lt_or_ge, append_assoc, length-append,
}
use scrutiny.Memory.Cluster.{Cluster}
use scrutiny.Memory.Content.{MemoryContent, delete_at, delete_near, delete_round, bisect}
use scrutiny.Memory.Blocks.{Holds, starts, stop, byte_at, Apart, byte_at-below, length-starts}
use scrutiny.Memory.Blocks.Concat.{Apart-left, Apart-right, byte_at-append_behind}
use scrutiny.Memory.Place.{
  Place, first, behind, Above, place, key_at-Holds, key_at-Holds_next, cluster_at-Holds,
}
use scrutiny.Memory.Delete.Edited.{Edited, low}
use scrutiny.Memory.Delete.Touching.{delete_from-Edited}

abbrev pub IsClear : ℕ → ℕ → List Cluster → Type 0
IsClear addr size bs = (a : ℕ) → addr ≤ a → a < addr + size → byte_at bs a ≡ none

module _ (gap lo addr size : ℕ) (m : MemoryContent) (narrow : gap ≤ 1) (some_size : 0 < size) where
  delete_at-Edited :
      (pre : List Cluster) (c : Cluster) (post : List Cluster) (i : ℕ)
      → i ≡ length pre
      → Holds m (pre ++ (c ∷ post))
      → Apart m.retain_data gap lo (pre ++ (c ∷ post))
      → addr < stop c
      → c.start_addr < addr + size
      → (m' : MemoryContent) × (delete_at m addr size i ≡ ok m')
        × Edited gap lo addr size m (pre ++ (c ∷ post)) m'
  unfolding delete_at
  delete_at-Edited pre c post i e h s p q =
      let (m', run, edit) =
        delete_from-Edited gap lo addr size m pre c post narrow h s p q some_size in
      (
        m',
        ground (
          arith,
          key_at-Holds {m = m} pre c post h,
          cluster_at-Holds {m = m} pre c post h
              (low gap lo addr size m pre c post s c.start_addr (omega arith)),
          run,
        ),
        edit,
      )

  abbrev Outcome : List Cluster → Type 0
  Outcome bs =
      ((delete_round m addr size ≡ ok none) × IsClear addr size bs)
      ⊎ ((m' : MemoryContent) × (delete_round m addr size ≡ ok (some m'))
          × Edited gap lo addr size m bs m')

  module _ (pre : List Cluster) (c : Cluster) (post : List Cluster)
      (h : Holds m (pre ++ (c ∷ post))) (s : Apart m.retain_data gap lo (pre ++ (c ∷ post)))
      (points : bisect (starts (pre ++ (c ∷ post))) addr - 1 ≡ length pre) where
    count : length m.sorted_keys ≡ length pre + suc (length post)
    count = ground (arith, h.keys, length-starts (pre ++ (c ∷ post)), length-append pre (c ∷ post))

    enter : delete_round m addr size ≡ delete_near m addr size (length pre) c.start_addr c
    unfolding delete_round
    enter = ground (
      arith,
      count,
      h.keys,
      points,
      key_at-Holds {m = m} pre c post h,
      cluster_at-Holds {m = m} pre c post h
          (low gap lo addr size m pre c post s c.start_addr (omega arith)),
    )

    stop_before : addr + size ≤ c.start_addr → delete_round m addr size ≡ ok none
    unfolding delete_near
    stop_before p = enter ∙ ground arith

    edit_here : addr < stop c → c.start_addr < addr + size → Outcome (pre ++ (c ∷ post))
    unfolding delete_near
    edit_here p q =
        let (m', run, edit) = delete_at-Edited pre c post (length pre) refl h s p q in
        inr (m', enter ∙ ground (arith, run), edit)

    IsClear-behind :
        stop c ≤ addr
        → ((a : ℕ) → addr ≤ a → a < addr + size → byte_at post a ≡ none)
        → IsClear addr size (pre ++ (c ∷ post))
    unfolding byte_at
    IsClear-behind p after a q w =
        let facts = Apart-right m.retain_data gap lo pre (c ∷ post) s in
        byte_at-append_behind m.retain_data gap lo pre (c ∷ post) a
          (Apart-left m.retain_data gap lo pre (c ∷ post) s) (omega (arith, facts.0))
        ∙ ground (arith, after a q w)

    stop_last : c.start_addr ≤ addr → stop c ≤ addr → post ≡ [] → delete_round m addr size ≡ ok none
    unfolding delete_near
    stop_last p q e = enter ∙ ground (arith, count, ap length e)

  -- The range starts behind the cluster `c`, and the next one is `d`.
  module _ (pre : List Cluster) (c d : Cluster) (post : List Cluster)
      (h : Holds m (pre ++ (c ∷ d ∷ post))) (s : Apart m.retain_data gap lo (pre ++ (c ∷ d ∷ post)))
      (points : bisect (starts (pre ++ (c ∷ d ∷ post))) addr - 1 ≡ length pre)
      (from : c.start_addr ≤ addr) (past : stop c ≤ addr) (next : addr < d.start_addr) where
    stop_between : addr + size ≤ d.start_addr → delete_round m addr size ≡ ok none
    unfolding delete_near
    stop_between p =
        enter pre c (d ∷ post) h s points
        ∙ ground
            (arith, count pre c (d ∷ post) h s points, key_at-Holds_next {m = m} pre c d post h)

    edit_next : d.start_addr < addr + size → Outcome (pre ++ (c ∷ d ∷ post))
    unfolding delete_near
    edit_next p =
        let e = append_assoc pre (c ∷ []) (d ∷ post) in
        let facts = Apart-right m.retain_data gap lo pre (c ∷ d ∷ post) s in
        let full : 0 < d.size = facts.3.1 in
        let (m', run, edit) =
          delete_at-Edited (pre ++ (c ∷ [])) d post (length pre + 1)
            (omega (arith, length-append pre (c ∷ []))) (rw e h) (rw e s) (omega arith) p in
        inr (
          m',
          enter pre c (d ∷ post) h s points
              ∙ ground (
                arith,
                count pre c (d ∷ post) h s points,
                key_at-Holds_next {m = m} pre c d post h,
                run,
              ),
          subst (λ l. Edited gap lo addr size m l m') e edit,
        )

  round_first :
      (bs : List Cluster)
      → Holds m bs
      → Apart m.retain_data gap lo bs
      → bisect (starts bs) addr ≡ 0
      → Above addr bs
      → Outcome bs
  round_first [] h s e u =
      inl (unfold delete_round in ground (arith, h.keys), λ a p q. unfold byte_at in refl)
  round_first (c ∷ post) h s e u = elim (lt_or_ge c.start_addr (addr + size)) [
    | inl p ↦ edit_here [] c post h s (omega arith) (omega arith) p
    | inr p ↦ inl (
      stop_before [] c post h s (omega arith) p,
      λ a q w.
          byte_at-below m.retain_data gap c.start_addr (c ∷ post) a (omega arith, s.1, s.2, s.3)
            (omega arith),
    )
  ]

  round_behind :
      (pre : List Cluster) (c : Cluster) (post : List Cluster)
      → Holds m (pre ++ (c ∷ post))
      → Apart m.retain_data gap lo (pre ++ (c ∷ post))
      → bisect (starts (pre ++ (c ∷ post))) addr - 1 ≡ length pre
      → c.start_addr ≤ addr
      → stop c ≤ addr
      → Above addr post
      → Outcome (pre ++ (c ∷ post))
  round_behind pre c [] h s e from past u = inl (
    stop_last pre c [] h s e from past refl,
    IsClear-behind pre c [] h s e past (λ a p q. unfold byte_at in refl),
  )
  round_behind pre c (d ∷ post) h s e from past u =
      let facts = Apart-right m.retain_data gap lo pre (c ∷ d ∷ post) s in
      elim (lt_or_ge d.start_addr (addr + size)) [
        | inl p ↦ edit_next pre c d post h s e from past u p
        | inr p ↦ inl (
          stop_between pre c d post h s e from past u p,
          IsClear-behind pre c (d ∷ post) h s e past (λ a q w.
              byte_at-below m.retain_data gap d.start_addr (d ∷ post) a
                (omega arith, facts.3.1, facts.3.2, facts.3.3) (omega arith)),
        )
      ]

  pub delete_round-Outcome :
      (bs : List Cluster) → Holds m bs → Apart m.retain_data gap lo bs → Outcome bs
  delete_round-Outcome bs h s = go (place addr bs)
    where
      go : Place addr bs → Outcome bs
      go (first e u) = round_first bs h s e u
      go (behind pre c post e from u points) =
          subst Outcome (sym e) (elim (lt_or_ge addr (stop c)) [
            | inl p ↦
                edit_here pre c post (rw e at h) (rw e at s) (rw e at place_here) p (omega arith)
            | inr p ↦ round_behind pre c post (rw e at h) (rw e at s) (rw e at place_here) from p u
          ])
        where
          place_here : bisect (starts bs) addr - 1 ≡ length pre
          place_here = omega (arith, points)
