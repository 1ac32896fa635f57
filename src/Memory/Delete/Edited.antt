-- ===== src/Memory/Delete/Edited.antt =====
-- A round of `delete` on the whole list of clusters, from what it leaves of one cluster.
use scrutiny.Prelude.{
  ℕ, ◌+◌, ◌≤◌, ◌<◌, ◌≡◌, sym, ◌∙◌, none, List, ◌∷◌, ◌++◌, arith, inl, inr, lt_or_ge,
}
use scrutiny.Memory.Cluster.{Cluster}
use scrutiny.Memory.Content.{MemoryContent}
use scrutiny.Memory.Blocks.{
  Holds, stop, find, byte_at, Apart, inside, Apart-lower, find-below, inside-append,
}
use scrutiny.Memory.Blocks.Concat.{
  reach, Apart-append, Apart-left, Apart-right, find-above, byte_at-append_behind,
  byte_at-append_before,
}
use scrutiny.Memory.Delete.Remains.{Outside, Remains}

module _ (gap lo addr size : ℕ) (m : MemoryContent) (bs : List Cluster) (m' : MemoryContent) where
  -- A state with less of the range, and all that lies outside of it.
  pub record Edited : Type 0 where
    pub after : List Cluster
    pub holds : Holds m' after
    pub retain : m'.retain_data ≡ m.retain_data
    pub apart : Apart m.retain_data gap lo after
    pub bytes : (a : ℕ) → Outside addr size a → byte_at after a ≡ byte_at bs a
    pub fewer : inside addr size after < inside addr size bs

module _ (gap lo addr size : ℕ) (m : MemoryContent) (pre : List Cluster) (c : Cluster)
    (post : List Cluster) (s : Apart m.retain_data gap lo (pre ++ (c ∷ post))) where
  at_c : Apart m.retain_data gap (reach m.retain_data gap lo pre) (c ∷ post)
  at_c = Apart-right m.retain_data gap lo pre (c ∷ post) s

  pub low : (j : ℕ) → c.start_addr ≤ j → find j pre ≡ none
  low j p =
      find-above m.retain_data gap lo pre j (Apart-left m.retain_data gap lo pre (c ∷ post) s)
        (omega (arith, at_c.0))

  pub high : (j : ℕ) → j < stop c → find j post ≡ none
  high j p = find-below m.retain_data gap (stop c + gap) post j at_c.3 (omega arith)

  pub edited :
      (m' : MemoryContent) (mid : List Cluster)
      → Holds m' (pre ++ (mid ++ post))
      → m'.retain_data ≡ m.retain_data
      → Remains m.retain_data gap addr size c post mid
      → Edited gap lo addr size m (pre ++ (c ∷ post)) m'
  edited m' mid h e rest =
      let r = m.retain_data in
      let left = Apart-left r gap lo pre (c ∷ post) s in
      record {
        after = pre ++ (mid ++ post);
        holds = h;
        retain = e;
        apart =
            Apart-append r gap lo pre (mid ++ post) left
              (Apart-lower r gap c.start_addr _ (mid ++ post) at_c.0 rest.apart);
        bytes = λ a o. elim (lt_or_ge a c.start_addr) [
          | inl p ↦
              byte_at-append_before r gap pre (mid ++ post) c.start_addr a rest.apart p
              ∙ sym (
                  byte_at-append_before r gap pre (c ∷ post) c.start_addr a
                    (omega arith, at_c.1, at_c.2, at_c.3) p)
          | inr p ↦
              byte_at-append_behind r gap lo pre (mid ++ post) a left (omega (arith, at_c.0))
              ∙ rest.bytes a o
              ∙ sym (byte_at-append_behind r gap lo pre (c ∷ post) a left (omega (arith, at_c.0)))
        ];
        fewer =
            unfold inside in
            omega (
              arith,
              rest.fewer,
              inside-append addr size pre (mid ++ post),
              inside-append addr size mid post,
              inside-append addr size pre (c ∷ post),
            );
      }
