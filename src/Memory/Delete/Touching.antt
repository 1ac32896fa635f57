-- ===== src/Memory/Delete/Touching.antt =====
-- `delete_from` on a cluster that the range touches: which of the four edits runs, and its effect.
use scrutiny.Prelude.{
  ℕ, ◌+◌, ◌-◌, ◌≤◌, ◌<◌, ◌≡◌, refl, List, [], ◌∷◌, ◌++◌, arith, inl, inr, ok, length, lt_or_ge,
}
use scrutiny.Memory.Cluster.{Cluster}
use scrutiny.Memory.Content.{MemoryContent, delete_from, delete_around, delete_end}
use scrutiny.Memory.Blocks.{Holds, stop, Apart}
use scrutiny.Memory.Blocks.Concat.{reach, Apart-right}
use scrutiny.Memory.Delete.Edit.{
  delete_around-Holds, delete_begin-Holds, delete_end-Holds, delete_within-Holds,
}
use scrutiny.Memory.Delete.Remains.{around-Remains, begin-Remains, end-Remains, within-Remains}
use scrutiny.Memory.Delete.Edited.{Edited, edited, low, high}

module _ (gap lo addr size : ℕ) (m : MemoryContent) (pre : List Cluster) (c : Cluster)
    (post : List Cluster) (narrow : gap ≤ 1) (h : Holds m (pre ++ (c ∷ post)))
    (s : Apart m.retain_data gap lo (pre ++ (c ∷ post))) (ends : addr < stop c)
    (begins : c.start_addr < addr + size) where
  abbrev pub Goal : Type 0
  Goal =
      (m' : MemoryContent) × (delete_from m addr size (length pre) c.start_addr c ≡ ok m')
      × Edited gap lo addr size m (pre ++ (c ∷ post)) m'

  abbrev facts : Apart m.retain_data gap (reach m.retain_data gap lo pre) (c ∷ post)
  facts = Apart-right m.retain_data gap lo pre (c ∷ post) s

  around : addr ≤ c.start_addr → stop c ≤ addr + size → Goal
  around p q =
      let m' = delete_around m (length pre) c.start_addr in
      let below = low gap lo addr size m pre c post s in
      let above = high gap lo addr size m pre c post s in
      (
        m',
        unfold delete_from in ground arith,
        edited gap lo addr size m pre c post s m' []
            (delete_around-Holds m pre c post h below above facts.1) (unfold delete_around in refl)
            (around-Remains m.retain_data gap addr size c post narrow facts.2 facts.1 facts.3 ends
              begins p q),
      )

  begin : addr ≤ c.start_addr → addr + size < stop c → Goal
  begin p q =
      let offset = addr + size - c.start_addr in
      let below = low gap lo addr size m pre c post s in
      let above = high gap lo addr size m pre c post s in
      let (m', e, holds, keeps) =
        delete_begin-Holds m pre c post h below above facts.1 offset (omega arith) (omega arith) in
      (
        m',
        unfold delete_from in ground (arith, e),
        edited gap lo addr size m pre c post s m' _ holds keeps (
            begin-Remains m.retain_data gap addr size c post narrow facts.2 facts.1 facts.3 ends
              begins offset (omega arith) p (omega arith)),
      )

  end : c.start_addr < addr → stop c ≤ addr + size → Goal
  end p q =
      let n = c.size - 1 in
      let below = low gap lo addr size m pre c post s in
      let above = high gap lo addr size m pre c post s in
      let m' = delete_end m c.start_addr c n in
      let full : 0 < c.size = facts.1 in
      (
        m',
        unfold delete_from in ground arith,
        edited gap lo addr size m pre c post s m' _
            (delete_end-Holds m pre c post h below above full n) (unfold delete_end in refl)
            (end-Remains m.retain_data gap addr size c post narrow facts.2 full facts.3 ends begins
              n (omega arith) p q),
      )

  within : c.start_addr < addr → addr + size < stop c → 0 < size → Goal
  within p q w =
      let front = addr - c.start_addr in
      let offset = addr + size - c.start_addr in
      let below = low gap lo addr size m pre c post s in
      let above = high gap lo addr size m pre c post s in
      let (m', e, holds, keeps) =
        delete_within-Holds m pre c post h below above facts.1 front offset (omega arith)
          (omega arith) (omega arith) in
      (
        m',
        unfold delete_from in ground (arith, e),
        edited gap lo addr size m pre c post s m' _ holds keeps (
            within-Remains m.retain_data gap addr size c post narrow facts.2 facts.1 facts.3 ends
              begins front offset (omega arith) (omega arith) (omega arith) (omega arith)
              (omega arith)),
      )

  pub delete_from-Edited : 0 < size → Goal
  delete_from-Edited w = elim (lt_or_ge c.start_addr addr) [
    | inl p ↦ elim (lt_or_ge (addr + size) (stop c)) [ inl q ↦ within p q w | inr q ↦ end p q ]
    | inr p ↦ elim (lt_or_ge (addr + size) (stop c)) [ inl q ↦ begin p q | inr q ↦ around p q ]
  ]
