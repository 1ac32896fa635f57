-- ===== src/Memory/Write/Written.antt =====
-- What `write_cluster` does to the clusters and to the bytes.
use scrutiny.Prelude.{
  ℕ, suc, ◌+◌, ◌-◌, ◌≤◌, ◌<◌, ◌≡◌, refl, sym, ap, ◌∙◌, subst, Bool, none, List, [], ◌∷◌, ◌++◌,
  arith, inl, inr, ok, Result, length, lt_or_ge, ltb, leb, ◌&&◌, if◌then◌else◌, some, length-append,
  append_assoc,
}
use scrutiny.Memory.Cluster.{Cluster, IsSound, content}
use scrutiny.Memory.Content.{
  MemoryContent, insert, bisect, agglomerate, agglomerate_loop, write_cluster,
}
use scrutiny.Memory.Blocks.{Holds, starts, stop, byte_at, Apart, length-starts}
use scrutiny.Memory.Blocks.Concat.{reach, Apart-append, Apart-left, Apart-right}
use scrutiny.Memory.Place.{Place, first, behind, Above, place}
use scrutiny.Memory.Delete.Loop.{delete-Deleted}
use scrutiny.Memory.Agglomerate.Neighbours.{Agglomerated, from_inserted}
use scrutiny.Memory.Agglomerate.Front.{from_front}
use scrutiny.Memory.Write.Insert.{uncovered, insert-Holds, byte_at-insert}

module _ (m : MemoryContent) (bs : List Cluster) (c : Cluster) (m' : MemoryContent) where
  -- What `write_cluster` promises.
  pub record Written : Type 0 where
    pub after : List Cluster
    pub holds : Holds m' after
    pub retain : m'.retain_data ≡ m.retain_data
    pub apart : Apart m.retain_data 1 0 after
    pub bytes :
        (a : ℕ)
        → byte_at after a ≡ (
            if leb c.start_addr a && ltb a (stop c)
            then content c (a - c.start_addr)
            else byte_at bs a)

reach-append_one :
    (r : Bool) (pre : List Cluster) (p : Cluster) (lo : ℕ)
    → reach r 1 lo (pre ++ (p ∷ [])) ≡ stop p + 1
reach-append_one r [] p lo = refl
reach-append_one r (b ∷ pre) p lo = reach-append_one r pre p (stop b + 1)

agglomerate-from :
    (m : MemoryContent) (i k : ℕ) {r : Result MemoryContent}
    → i - 1 ≡ k
    → agglomerate_loop (suc (length m.sorted_keys)) m k (some 2) ≡ r
    → agglomerate m (some i) ≡ r
unfolding agglomerate
agglomerate-from m i k e run = rw e run

-- The state between the deletion and the end, over clusters that leave the range free.
module _ (m : MemoryContent) (bs : List Cluster) (c : Cluster) (h : Holds m bs)
    (s : Apart m.retain_data 1 0 bs) (sound : IsSound m.retain_data c) (full : 0 < c.size)
    (free : (a : ℕ) → c.start_addr ≤ a → a < stop c → byte_at bs a ≡ none) where
  abbrev put_in : MemoryContent
  put_in = insert m (bisect m.sorted_keys c.start_addr) c

  abbrev Goal : Type 0
  Goal =
      (m' : MemoryContent) × (agglomerate put_in (some (bisect m.sorted_keys c.start_addr)) ≡ ok m')
      × Written m bs c m'

  -- What follows the place of the cluster follows its end.
  clear_after :
      (pre post : List Cluster)
      → bs ≡ pre ++ post
      → Above c.start_addr post
      → Apart m.retain_data 1 (stop c) post
  clear_after pre [] e u = tt
  clear_after pre (d ∷ ds) e u =
      let facts = Apart-right m.retain_data 1 0 pre (d ∷ ds) (rw e at s) in
      elim (lt_or_ge d.start_addr (stop c)) [
        | inl p ↦ absurd (
            let some_size : 0 < d.size = facts.1 in
            let past : stop d ≤ d.start_addr =
              uncovered m.retain_data 1 pre d ds d.start_addr (rw e at s)
                (rw e at (free d.start_addr (omega arith) p)) (omega arith) in
            omega arith)
        | inr p ↦ (p, facts.1, facts.2, facts.3)
      ]

  -- The bytes are those of the list with the cluster in its place.
  written :
      (pre post : List Cluster) (m' : MemoryContent)
      → bs ≡ pre ++ post
      → Apart m.retain_data 1 0 pre
      → reach m.retain_data 1 0 pre ≤ c.start_addr + 1
      → Apart m.retain_data 1 (stop c) post
      → Agglomerated put_in (pre ++ (c ∷ post)) m'
      → Written m bs c m'
  unfolding insert
  written pre post m' e left near right done = record {
    after = done.after;
    holds = done.holds;
    retain = done.retain;
    apart = done.apart;
    bytes = λ a. rw e (done.bytes a ∙ byte_at-insert m pre c post left near full sound right a);
  }

  placed :
      (pre post : List Cluster)
      → bs ≡ pre ++ post
      → bisect m.sorted_keys c.start_addr ≡ length pre
      → Apart m.retain_data 1 0 pre
      → reach m.retain_data 1 0 pre ≤ c.start_addr + 1
      → Apart m.retain_data 1 (stop c) post
      → Holds put_in (pre ++ (c ∷ post))
  placed pre post e at left near right =
      rw at (insert-Holds m pre c post left near full sound right (rw e at h))

  fuel_enough :
      (pre post : List Cluster)
      → Holds put_in (pre ++ (c ∷ post))
      → length put_in.sorted_keys ≡ length pre + suc (length post)
  fuel_enough pre post held =
      omega (
        arith,
        ap length held.keys,
        length-starts (pre ++ (c ∷ post)),
        length-append pre (c ∷ post),
      )

  write_first : bisect (starts bs) c.start_addr ≡ 0 → Above c.start_addr bs → Goal
  write_first e u =
      let at : bisect m.sorted_keys c.start_addr ≡ 0 = rw h.keys e in
      let right = clear_after [] bs refl u in
      let held = placed [] bs refl at tt (omega arith) right in
      let (m', run, done) =
        from_inserted put_in [] c (suc (length put_in.sorted_keys)) 2 bs held
          (unfold insert in (omega arith, full, sound, tt)) (unfold insert in right)
          (omega (arith, fuel_enough [] bs held)) in
      (
        m',
        agglomerate-from put_in _ 0 (omega arith) run,
        written [] bs m' refl tt (omega arith) right done,
      )

  write_behind :
      (pre : List Cluster) (p : Cluster) (post : List Cluster)
      → bs ≡ pre ++ (p ∷ post)
      → bisect (starts bs) c.start_addr ≡ suc (length pre)
      → p.start_addr ≤ c.start_addr
      → Above c.start_addr post
      → Goal
  write_behind pre p post e b q u =
      let r = m.retain_data in
      let facts = Apart-right r 1 0 pre (p ∷ post) (rw e at s) in
      let before = Apart-left r 1 0 pre (p ∷ post) (rw e at s) in
      let ends : stop p ≤ c.start_addr =
        uncovered r 1 pre p post c.start_addr (rw e at s)
          (rw e at (free c.start_addr (omega arith) (omega arith))) q in
      let e' : bs ≡ (pre ++ (p ∷ [])) ++ post = e ∙ sym (append_assoc pre (p ∷ []) post) in
      let right = clear_after (pre ++ (p ∷ [])) post e' u in
      let left : Apart r 1 0 (pre ++ (p ∷ [])) =
        Apart-append r 1 0 pre (p ∷ []) before (facts.0, facts.1, facts.2, tt) in
      let near : reach r 1 0 (pre ++ (p ∷ [])) ≤ c.start_addr + 1 =
        rw (reach-append_one r pre p 0) (omega arith) in
      let here : bisect m.sorted_keys c.start_addr ≡ length (pre ++ (p ∷ [])) =
        rw h.keys (omega (arith, b, length-append pre (p ∷ []))) in
      let held = placed (pre ++ (p ∷ [])) post e' here left near right in
      let (m', run, done) =
        from_front put_in pre p c post (rw (append_assoc pre (p ∷ []) (c ∷ post)) at held)
          (unfold insert in left) (unfold insert in sound) full ends (unfold insert in right)
          (suc (length put_in.sorted_keys))
          (omega (arith, fuel_enough (pre ++ (p ∷ [])) post held, length-append pre (p ∷ []))) in
      (
        m',
        agglomerate-from put_in _ (length pre) (omega (arith, here, length-append pre (p ∷ [])))
            run,
        written (pre ++ (p ∷ [])) post m' e' left near right (
            subst (λ l. Agglomerated put_in l m') (sym (append_assoc pre (p ∷ []) (c ∷ post)))
              done),
      )

  pub insert-Written : Goal
  insert-Written = go (place c.start_addr bs)
    where
      go : Place c.start_addr bs → Goal
      go (first e u) = write_first e u
      go (behind pre p post e q u b) = write_behind pre p post e b q u

-- On clusters of which no two touch, `write_cluster` returns: the new bytes stand in their range,
-- all others are the same, and again no two clusters touch.
pub write_cluster-Written :
    (m : MemoryContent) (bs : List Cluster) (c : Cluster)
    → Holds m bs
    → Apart m.retain_data 1 0 bs
    → IsSound m.retain_data c
    → 0 < c.size
    → (m' : MemoryContent) × (write_cluster m c ≡ ok m') × Written m bs c m'
unfolding write_cluster
write_cluster-Written m bs c h s sound full =
    let (m1, run, gone) = delete-Deleted 1 c.start_addr c.size m bs (omega arith) h s in
    let r = gone.retain in
    let (m2, run2, done) =
      insert-Written m1 gone.after c gone.holds
        (subst (λ r. Apart r 1 0 gone.after) (sym gone.retain) gone.apart)
        (subst (λ r. IsSound r c) (sym gone.retain) sound) full
        (λ a p q. ground (arith, gone.bytes a)) in
    (
      m2,
      ground (arith, run, run2),
      record {
        after = done.after;
        holds = done.holds;
        retain = done.retain ∙ gone.retain;
        apart = subst (λ r. Apart r 1 0 done.after) gone.retain done.apart;
        bytes = λ a. ground (arith, done.bytes a, gone.bytes a);
      },
    )
