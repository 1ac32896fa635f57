-- ===== src/Memory/Delete/Loop.antt =====
-- The loop of `delete` ends within its fuel, clears the range and touches nothing outside of it.
use scrutiny.Prelude.{
  ℕ, zero, suc, ◌+◌, ◌≤◌, ◌<◌, ◌≡◌, refl, sym, ◌∙◌, subst, none, List, arith, inl, inr, ok,
  lt_or_ge, if◌then◌else◌, ◌&&◌, leb, ltb,
}
use scrutiny.Memory.Cluster.{Cluster}
use scrutiny.Memory.Content.{MemoryContent, delete_loop, delete}
use scrutiny.Memory.Blocks.{Holds, byte_at, Apart, inside, inside-le}
use scrutiny.Memory.Delete.Edited.{Edited}
use scrutiny.Memory.Delete.Round.{IsClear, delete_round-Outcome}

module _ (gap lo addr size : ℕ) (m : MemoryContent) (bs : List Cluster) (m' : MemoryContent) where
  -- What `delete` promises.
  pub record Deleted : Type 0 where
    pub after : List Cluster
    pub holds : Holds m' after
    pub retain : m'.retain_data ≡ m.retain_data
    pub apart : Apart m.retain_data gap lo after
    pub bytes :
        (a : ℕ)
        → byte_at after a ≡ (if leb addr a && ltb a (addr + size) then none else byte_at bs a)

module _ (gap lo addr size : ℕ) (narrow : gap ≤ 1) (some_size : 0 < size) where
  stopped :
      (m : MemoryContent) (bs : List Cluster)
      → Holds m bs
      → Apart m.retain_data gap lo bs
      → IsClear addr size bs
      → Deleted gap lo addr size m bs m
  stopped m bs h s clear = record {
    after = bs;
    holds = h;
    retain = refl;
    apart = s;
    bytes = λ a. ground (arith, clear a);
  }

  continued :
      (m : MemoryContent) (bs : List Cluster) (m' : MemoryContent) (m'' : MemoryContent)
      (edit : Edited gap lo addr size m bs m')
      → Deleted gap lo addr size m' edit.after m''
      → Deleted gap lo addr size m bs m''
  continued m bs m' m'' edit rest = record {
    after = rest.after;
    holds = rest.holds;
    retain = rest.retain ∙ edit.retain;
    apart = subst (λ r. Apart r gap lo rest.after) edit.retain rest.apart;
    bytes = λ a. rest.bytes a ∙ elim (lt_or_ge a addr) [
      | inl p ↦ ground (arith, edit.bytes a (inl p))
      | inr p ↦ elim (lt_or_ge a (addr + size)) [
        | inl q ↦ ground arith
        | inr q ↦ ground (arith, edit.bytes a (inr q))
      ]
    ];
  }

  delete_loop-Deleted :
      (fuel : ℕ) (m : MemoryContent) (bs : List Cluster)
      → inside addr size bs < fuel
      → Holds m bs
      → Apart m.retain_data gap lo bs
      → (m' : MemoryContent) × (delete_loop fuel m addr size ≡ ok m')
        × Deleted gap lo addr size m bs m'
  unfolding delete_loop
  delete_loop-Deleted zero m bs f h s = absurd (omega arith)
  delete_loop-Deleted (suc fuel) m bs f h s =
      elim (delete_round-Outcome gap lo addr size m narrow some_size bs h s) [
        | inl (run, clear) ↦ (m, rw (run, delete_loop), stopped m bs h s clear)
        | inr (m', run, edit) ↦
            let (m'', more, rest) =
              delete_loop-Deleted fuel m' edit.after (omega (arith, edit.fewer)) edit.holds
                (subst (λ r. Apart r gap lo edit.after) (sym edit.retain) edit.apart) in
            (m'', rw (run, delete_loop) more, continued m bs m' m'' edit rest)
      ]

-- On clusters that lie apart, `delete` returns (its fuel is enough): the clusters of the result lie
-- apart as before, the bytes of the range are gone, and all others are the same.
pub delete-Deleted :
    (gap addr size : ℕ) (m : MemoryContent) (bs : List Cluster)
    → gap ≤ 1
    → Holds m bs
    → Apart m.retain_data gap 0 bs
    → (m' : MemoryContent) × (delete m addr size ≡ ok m') × Deleted gap 0 addr size m bs m'
unfolding delete
delete-Deleted gap addr zero m bs narrow h s =
    (m, refl, record { after = bs; holds = h; retain = refl; apart = s; bytes = λ a. ground arith })
delete-Deleted gap addr (suc n) m bs narrow h s =
    let (m', run, done) =
      delete_loop-Deleted gap 0 addr (suc n) narrow (omega arith) (suc (suc n)) m bs
        (omega (arith, inside-le m.retain_data gap 0 addr (suc n) bs s)) h s in
    (m', ground (arith, run), done)
