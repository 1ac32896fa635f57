-- ===== src/Memory/Delete/Edit.antt =====
-- The four edits of `delete` on the dict and the keys, as edits of the list of clusters.
use scrutiny.Prelude.{
  ℕ, suc, ◌+◌, ◌-◌, ◌≤◌, ◌<◌, ◌≡◌, refl, none, List, ◌∷◌, ◌++◌, arith, length, ok, set, insert_at,
  set-append_length, erase_at-append_length, insert_at-append_next, ◌∙◌,
}
use scrutiny.Prelude.Dict
use scrutiny.Prelude.Dict.{get-put, get-remove}
use scrutiny.Memory.Cluster.{Cluster, make, shrink, tail_from}
use scrutiny.Memory.Cluster.Pieces.{piece, read-piece}
use scrutiny.Memory.Content.{MemoryContent, delete_around, delete_begin, delete_end, delete_within}
use scrutiny.Memory.Blocks.{Holds, starts, stop, find, find-append, starts-append, length-starts}

module _ (m : MemoryContent) (pre : List Cluster) (c : Cluster) (post : List Cluster)
    (h : Holds m (pre ++ (c ∷ post))) (low : (j : ℕ) → c.start_addr ≤ j → find j pre ≡ none)
    (high : (j : ℕ) → j < stop c → find j post ≡ none) (full : 0 < c.size) where
  keys_here : m.sorted_keys ≡ starts pre ++ (c.start_addr ∷ starts post)
  keys_here = h.keys ∙ starts-append pre (c ∷ post)

  pub delete_around-Holds : Holds (delete_around m (length pre) c.start_addr) (pre ++ post)
  unfolding delete_around find
  delete_around-Holds = record {
    keys = ground (
      arith,
      keys_here,
      length-starts pre,
      starts-append pre post,
      erase_at-append_length (starts pre) (starts post) c.start_addr,
    );
    dict = λ j. ground (
      arith,
      get-remove m.clusters c.start_addr j,
      h.dict j,
      find-append j pre (c ∷ post),
      find-append j pre post,
      low j,
      high j,
    );
  }

  pub delete_end-Holds :
      (n : ℕ) → Holds (delete_end m c.start_addr c n) (pre ++ (shrink c n ∷ post))
  unfolding delete_end find shrink
  delete_end-Holds n = record {
    keys = ground (arith, keys_here, starts-append pre (shrink c n ∷ post));
    dict = λ j. ground (
      arith,
      get-put m.clusters c.start_addr j (shrink c n),
      h.dict j,
      find-append j pre (c ∷ post),
      find-append j pre (shrink c n ∷ post),
      low j,
      high j,
    );
  }

  -- What is left of the cluster from an offset on.
  abbrev rest_from : ℕ → ℕ → ℕ → Cluster
  rest_from at offset n = make at n m.retain_data (piece c offset n)

  pub delete_begin-Holds :
      (offset : ℕ)
      → 0 < offset
      → offset < c.size
      → (m' : MemoryContent) × (delete_begin m
            (length pre)
            c.start_addr
            c
            (c.start_addr + offset)
            offset
          ≡ ok m')
        × Holds m' (pre ++ (rest_from (c.start_addr + offset) offset (c.size - offset) ∷ post))
        × (m'.retain_data ≡ m.retain_data)
  unfolding delete_begin find tail_from make
  delete_begin-Holds offset p q =
      let start = c.start_addr + offset in
      let rest = rest_from start offset (c.size - offset) in
      (
        record m {
          clusters = Dict.put (Dict.remove m.clusters c.start_addr) start rest;
          sorted_keys = set m.sorted_keys (length pre) start;
        },
        ground (arith, read-piece c offset (c.size - offset)),
        record {
          keys = ground (
            arith,
            keys_here,
            length-starts pre,
            starts-append pre (rest ∷ post),
            set-append_length (starts pre) (starts post) c.start_addr start,
          );
          dict = λ j. ground (
            arith,
            get-put (Dict.remove m.clusters c.start_addr) start j rest,
            get-remove m.clusters c.start_addr j,
            h.dict j,
            find-append j pre (c ∷ post),
            find-append j pre (rest ∷ post),
            low j,
            high j,
          );
        },
        refl,
      )

  pub delete_within-Holds :
      (front offset : ℕ)
      → 0 < front
      → front < offset
      → offset < c.size
      → (m' : MemoryContent) × (delete_within m
            (length pre)
            c.start_addr
            c
            (c.start_addr + offset)
            (c.size - offset)
            front
          ≡ ok m')
        × Holds m' (
            pre
            ++ (shrink c front ∷ rest_from (c.start_addr + offset) offset (c.size - offset) ∷ post))
        × (m'.retain_data ≡ m.retain_data)
  unfolding delete_within find make shrink
  delete_within-Holds front offset p q w =
      let start = c.start_addr + offset in
      let rest = rest_from start offset (c.size - offset) in
      let inner = Dict.put m.clusters c.start_addr (shrink c front) in
      let e : start - c.start_addr ≡ offset = omega arith in
      (
        record m {
          clusters = Dict.put inner start rest;
          sorted_keys = insert_at m.sorted_keys (suc (length pre)) start;
        },
        rw e (ground (arith, read-piece c offset (c.size - offset))),
        record {
          keys = ground (
            arith,
            keys_here,
            length-starts pre,
            starts-append pre (shrink c front ∷ rest ∷ post),
            insert_at-append_next (starts pre) (starts post) c.start_addr start,
          );
          dict = λ j. ground (
            arith,
            get-put inner start j rest,
            get-put m.clusters c.start_addr j (shrink c front),
            h.dict j,
            find-append j pre (c ∷ post),
            find-append j pre (shrink c front ∷ rest ∷ post),
            low j,
            high j,
          );
        },
        refl,
      )
