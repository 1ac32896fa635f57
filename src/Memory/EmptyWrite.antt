-- ===== src/Memory/EmptyWrite.antt =====
-- A write of no bytes to a `MemoryContent` (scrutiny/core/memory_content.py).
use scrutiny.Prelude.{
  ℕ, suc, ◌+◌, ◌≤◌, ◌≡◌, refl, Bool, true, some, none, List, [], ◌∷◌, ◌++◌, arith, ok, err,
  key_error, length, ltb, length-append, erase_at-append_next, get_elem?-append_length,
  get_elem?-append_next, insert_at-append_next,
}
use scrutiny.Prelude.Dict
use scrutiny.Prelude.Dict.{get-put, get-remove}
use scrutiny.Memory.Cluster.{Cluster, make}
use scrutiny.Memory.Cluster.Pieces.{add-joined, joined, make-IsSound, start_addr-make, size-make}
use scrutiny.Memory.Content.{
  MemoryContent, bisect, insert, agglomerate, agglomerate_loop, touching, merge_next, delete, write,
  write_cluster,
}
use scrutiny.Memory.Blocks.{
  Holds, starts, stop, find, Apart, Apart-lower, find-append, find-below, starts-append,
  length-starts,
}
use scrutiny.Memory.Blocks.Concat.{Apart-right}
use scrutiny.Memory.Place.{Place, first, behind, Above, place}
use scrutiny.Memory.Agglomerate.Scan.{before}
use scrutiny.Memory.Contract.{IsAgglomerated}

module _ (m : MemoryContent) (addr : ℕ) (ks ls : List ℕ) where
  abbrev empty_cluster : Cluster
  empty_cluster = make addr 0 m.retain_data []

  -- The key twice, and one empty cluster for both.
  doubled : MemoryContent
  doubled = record m {
    sorted_keys = ks ++ (addr ∷ addr ∷ ls);
    clusters = Dict.put m.clusters addr empty_cluster;
  }

  touching-doubled : touching doubled (length ks) ≡ ok (some (addr, addr))
  unfolding touching doubled
  touching-doubled = ground (
    arith,
    get_elem?-append_length ks (addr ∷ ls) addr,
    get_elem?-append_next ks ls addr addr,
    get-put m.clusters addr addr empty_cluster,
    size-make m.retain_data addr 0 [],
    length-append ks (addr ∷ addr ∷ ls),
  )

  halved : MemoryContent
  halved = record m {
    sorted_keys = ks ++ (addr ∷ ls);
    clusters =
        Dict.remove
          (Dict.put (Dict.put m.clusters addr empty_cluster) addr
            (joined m.retain_data empty_cluster empty_cluster))
          addr;
  }

  merge_next-doubled : merge_next doubled (length ks) addr addr ≡ ok halved
  unfolding merge_next doubled halved
  merge_next-doubled =
      let s = make-IsSound m.retain_data addr 0 [] refl in
      ground (
        arith,
        get-put m.clusters addr addr empty_cluster,
        add-joined m.retain_data empty_cluster empty_cluster s s,
        erase_at-append_next ks ls addr addr,
      )

  touching-halved : touching halved (length ks) ≡ err key_error
  unfolding touching halved
  touching-halved = ground (
    arith,
    get_elem?-append_length ks ls addr,
    get-remove
        (Dict.put (Dict.put m.clusters addr empty_cluster) addr
          (joined m.retain_data empty_cluster empty_cluster))
        addr addr,
  )

  loop-doubled :
      (fuel : ℕ) → agglomerate_loop (suc (suc fuel)) doubled (length ks) (some 2) ≡ err key_error
  unfolding agglomerate_loop
  loop-doubled fuel =
      let n : ltb (length ks) (length doubled.sorted_keys) ≡ true =
        unfold doubled in ground (arith, length-append ks (addr ∷ addr ∷ ls)) in
      let n' : ltb (length ks) (length halved.sorted_keys) ≡ true =
        unfold halved in ground (arith, length-append ks (addr ∷ ls)) in
      ground (arith, n, n', touching-doubled, merge_next-doubled, touching-halved)

find-Above :
    (r : Bool) (addr : ℕ) (bs : List Cluster) → Apart r 1 0 bs → Above addr bs → find addr bs ≡ none
unfolding find
find-Above r addr [] s u = refl
find-Above r addr (d ∷ ds) s u =
    find-below r 1 d.start_addr (d ∷ ds) addr (omega arith, s.1, s.2, s.3) u

-- The cluster that `bisect` finds is the one at the address, if there is one.
starts_here :
    (m : MemoryContent) (addr : ℕ) (pre : List Cluster) (p : Cluster) (post : List Cluster)
    {c : Cluster}
    → Apart m.retain_data 1 0 (pre ++ (p ∷ post))
    → p.start_addr ≤ addr
    → Above addr post
    → find addr (pre ++ (p ∷ post)) ≡ some c
    → p.start_addr ≡ addr
unfolding find
starts_here m addr pre p post s q u e =
    let facts = Apart-right m.retain_data 1 0 pre (p ∷ post) s in
    ground (
      arith,
      find-append addr pre (p ∷ post),
      before m.retain_data 0 pre p post s addr q,
      find-Above m.retain_data addr post
          (Apart-lower m.retain_data 1 (stop p + 1) 0 post (omega arith) facts.3) u,
    )

module _ (m : MemoryContent) (addr : ℕ) (pre : List Cluster) (p : Cluster) (post : List Cluster)
    (h : Holds m (pre ++ (p ∷ post))) (here : p.start_addr ≡ addr)
    (points : bisect (starts (pre ++ (p ∷ post))) addr ≡ suc (length pre)) where
  keys_split : m.sorted_keys ≡ starts pre ++ (addr ∷ starts post)
  keys_split = ground (arith, h.keys, starts-append pre (p ∷ post))

  inserted :
      insert m (suc (length pre)) (make addr 0 m.retain_data [])
      ≡ doubled m addr (starts pre) (starts post)
  unfolding insert doubled make
  inserted = ground (
    arith,
    keys_split,
    length-starts pre,
    insert_at-append_next (starts pre) (starts post) addr addr,
  )

  write_fails : write m addr [] ≡ err key_error
  unfolding write write_cluster agglomerate delete
  write_fails =
      let at : bisect m.sorted_keys addr ≡ suc (length pre) = rw h.keys points in
      let n : length (doubled m addr (starts pre) (starts post)).sorted_keys
          ≡ suc (length pre + suc (length post)) =
        unfold doubled in
        omega (
          arith,
          length-append (starts pre) (addr ∷ addr ∷ starts post),
          length-starts pre,
          length-starts post,
        ) in
      ground (
        arith,
        start_addr-make m.retain_data addr 0 [],
        size-make m.retain_data addr 0 [],
        at,
        inserted,
        n,
        length-starts pre,
        loop-doubled m addr (starts pre) (starts post) (length pre + length post + 1),
      )

-- Writing no bytes at the address of any cluster of a well-formed state raises a KeyError.
pub write-empty :
    (m : MemoryContent) (addr : ℕ) (w : IsAgglomerated m) {c : Cluster}
    → Dict.get m.clusters addr ≡ some c
    → write m addr [] ≡ err key_error
write-empty m addr w {c} e = go (place addr w.blocks)
  where
    present : find addr w.blocks ≡ some c
    present = ground (arith, e, w.holds.dict addr)

    go : Place addr w.blocks → write m addr [] ≡ err key_error
    go (first b u) =
        absurd (ground (arith, present, find-Above m.retain_data addr w.blocks w.apart u))
    go (behind pre p post q from u points) =
        write_fails m addr pre p post (rw q at w.holds)
          (starts_here m addr pre p post (rw q at w.apart) from u (rw q at present))
          (rw q at points)
