-- ===== src/Memory/Agglomerate/Scan.antt =====
-- The loop of `agglomerate` from the cluster that was inserted: at most two merges, then a scan.
use scrutiny.Prelude.{
  ℕ, zero, suc, ◌-◌, ◌≤◌, ◌<◌, ◌≡◌, refl, ap, ◌∙◌, Option, some, none, List, [], ◌∷◌, ◌++◌, arith,
  ok, length, append_assoc, length-append, lt→ltb, le→ltb, Bool,
}
use scrutiny.Memory.Cluster.{Cluster}
use scrutiny.Memory.Content.{MemoryContent, agglomerate_loop, touching, merge_next}
use scrutiny.Memory.Blocks.{Holds, find, Apart, length-starts}
use scrutiny.Memory.Blocks.Concat.{Apart-left, Apart-right, find-above}
use scrutiny.Memory.Agglomerate.Steps.{touching_last, touching_apart}

-- The loop ends where the index has passed the keys, and goes on past a cluster that touches none.
pub loop_end :
    (fuel : ℕ) (m : MemoryContent) (i : ℕ) (limit : Option ℕ)
    → length m.sorted_keys ≤ i
    → agglomerate_loop (suc fuel) m i limit ≡ ok m
unfolding agglomerate_loop
loop_end fuel m i limit h = rw (le→ltb i (length m.sorted_keys) h, agglomerate_loop)

pub loop_pass :
    (fuel : ℕ) (m : MemoryContent) (i : ℕ) (limit : Option ℕ)
    → i < length m.sorted_keys
    → touching m i ≡ ok none
    → agglomerate_loop (suc fuel) m i limit ≡ agglomerate_loop fuel m (suc i) limit
unfolding agglomerate_loop
loop_pass fuel m i limit h e = rw (lt→ltb i (length m.sorted_keys) h, agglomerate_loop) (rw e)

pub loop_merge :
    (fuel : ℕ) (m m' : MemoryContent) (i start1 start2 left : ℕ)
    → i < length m.sorted_keys
    → touching m i ≡ ok (some (start1, start2))
    → merge_next m i start1 start2 ≡ ok m'
    → 1 < left
    → agglomerate_loop (suc fuel) m i (some left) ≡ agglomerate_loop fuel m' i (some (left - 1))
unfolding agglomerate_loop
loop_merge fuel m m' i start1 start2 left h e e' w = ground (arith, e, e')

pub loop_merge_last :
    (fuel : ℕ) (m m' : MemoryContent) (i start1 start2 left : ℕ)
    → i < length m.sorted_keys
    → touching m i ≡ ok (some (start1, start2))
    → merge_next m i start1 start2 ≡ ok m'
    → left ≤ 1
    → agglomerate_loop (suc fuel) m i (some left) ≡ ok m'
unfolding agglomerate_loop
loop_merge_last fuel m m' i start1 start2 left h e e' w = ground (arith, e, e')

pub keys_more :
    (m : MemoryContent) (pre : List Cluster) (c : Cluster) (post : List Cluster)
    → Holds m (pre ++ (c ∷ post))
    → length pre < length m.sorted_keys
keys_more m pre c post h =
    omega (arith, ap length h.keys, length-starts (pre ++ (c ∷ post)), length-append pre (c ∷ post))

-- What lies in front of the cluster `c`, in a list that lies apart.
pub before :
    (r : Bool) (lo : ℕ) (pre : List Cluster) (c : Cluster) (post : List Cluster)
    → Apart r 1 lo (pre ++ (c ∷ post))
    → (j : ℕ) → c.start_addr ≤ j
    → find j pre ≡ none
before r lo pre c post s j p =
    let facts = Apart-right r 1 lo pre (c ∷ post) s in
    find-above r 1 lo pre j (Apart-left r 1 lo pre (c ∷ post) s) (omega (arith, facts.0))

-- Past clusters that lie apart the loop changes nothing.
pub scan :
    (post : List Cluster) (fuel : ℕ) (m : MemoryContent) (pre : List Cluster) (limit : Option ℕ)
    → Holds m (pre ++ post)
    → Apart m.retain_data 1 0 (pre ++ post)
    → length post < fuel
    → agglomerate_loop fuel m (length pre) limit ≡ ok m
scan post zero m pre limit h s f = absurd (omega arith)
scan [] (suc fuel) m pre limit h s f =
    loop_end fuel m (length pre) limit
      (omega (arith, ap length h.keys, length-starts (pre ++ []), length-append pre []))
scan (c ∷ post) (suc fuel) m pre limit h s f =
    let e = append_assoc pre (c ∷ []) post in
    let n : suc (length pre) ≡ length (pre ++ (c ∷ [])) =
      omega (arith, length-append pre (c ∷ [])) in
    loop_pass fuel m (length pre) limit (keys_more m pre c post h) (nothing post h s)
    ∙ rw n (scan post fuel m (pre ++ (c ∷ [])) limit (rw e h) (rw e s) (omega arith))
  where
    nothing :
        (rest : List Cluster)
        → Holds m (pre ++ (c ∷ rest))
        → Apart m.retain_data 1 0 (pre ++ (c ∷ rest))
        → touching m (length pre) ≡ ok none
    nothing [] h s =
        touching_last m pre c [] h (before m.retain_data 0 pre c [] s c.start_addr (omega arith))
          refl
    nothing (d ∷ ds) h s =
        let facts = Apart-right m.retain_data 1 0 pre (c ∷ d ∷ ds) s in
        touching_apart m pre c d ds h (before m.retain_data 0 pre c (d ∷ ds) s)
          (omega (arith, facts.3.0)) (omega (arith, facts.3.0))
