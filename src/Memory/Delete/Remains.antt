-- ===== src/Memory/Delete/Remains.antt =====
-- What the four edits of `delete` leave of one cluster: it lies apart from what follows, it holds
-- the bytes outside of the range, and less of the range than before.
use scrutiny.Prelude.{
  ℕ, suc, ◌+◌, ◌-◌, ◌≤◌, ◌<◌, ◌≡◌, ap, ◌∙◌, Bool, List, [], ◌∷◌, ◌++◌, arith, ◌⊎◌,
}
use scrutiny.Memory.Cluster.{Cluster, IsSound, make, shrink, content}
use scrutiny.Memory.Cluster.Pieces.{
  piece, length-piece, held-piece, make-IsSound, content-make, shrink-IsSound, content-shrink,
  start_addr-make, size-make, start_addr-shrink, size-shrink,
}
use scrutiny.Memory.Blocks.{stop, byte_at, Apart, inside, Apart-lower}

abbrev pub Outside : ℕ → ℕ → ℕ → Type 0
Outside addr size a = (a < addr) ⊎ (addr + size ≤ a)

module _ (r : Bool) (gap addr size : ℕ) (c : Cluster) (post : List Cluster) where
  pub record Remains (mid : List Cluster) : Type 0 where
    pub apart : Apart r gap c.start_addr (mid ++ post)
    pub bytes : (a : ℕ) → Outside addr size a → byte_at (mid ++ post) a ≡ byte_at (c ∷ post) a
    pub fewer : inside addr size mid < inside addr size (c ∷ [])

-- The bytes of a cluster that is cut off at an offset are those of the whole.
content-rest :
    (r : Bool) (c : Cluster) (offset n a : ℕ)
    → IsSound r c
    → c.start_addr + offset ≤ a
    → a < c.start_addr + offset + n
    → content (make (c.start_addr + offset) n r (piece c offset n)) (a - (c.start_addr + offset))
      ≡ content c (a - c.start_addr)
content-rest r c offset n a s p q =
    let i = a - (c.start_addr + offset) in
    let e : offset + i ≡ a - c.start_addr = omega arith in
    content-make r (c.start_addr + offset) n i (piece c offset n)
    ∙ held-piece r c offset n i s (omega arith)
    ∙ ap (content c) e

module _ (r : Bool) (gap addr size : ℕ) (c : Cluster) (post : List Cluster) (narrow : gap ≤ 1)
    (sound : IsSound r c) (full : 0 < c.size) (apart : Apart r gap (stop c + gap) post)
    (ends : addr < stop c) (begins : c.start_addr < addr + size) where
  pub around-Remains :
      addr ≤ c.start_addr → stop c ≤ addr + size → Remains r gap addr size c post []
  unfolding byte_at inside
  around-Remains p q = record {
    apart = Apart-lower r gap (stop c + gap) c.start_addr post (omega arith) apart;
    bytes = λ a o. ground arith;
    fewer = omega arith;
  }

  pub begin-Remains :
      (offset : ℕ)
      → c.start_addr + offset ≡ addr + size
      → addr ≤ c.start_addr
      → offset < c.size
      → Remains r gap addr size c post
          (make (c.start_addr + offset) (c.size - offset) r (piece c offset (c.size - offset)) ∷ [])
  unfolding byte_at
  begin-Remains offset e p q =
      let n = c.size - offset in
      let start = c.start_addr + offset in
      record {
        apart =
            unfold make in
            (
              omega arith,
              omega arith,
              make-IsSound r start n (piece c offset n)
                  (length-piece r c offset n sound (omega arith)),
              Apart-lower r gap (stop c + gap) (start + n + gap) post (omega arith) apart,
            );
        bytes = λ a o. ground (
          arith,
          content-rest r c offset n a sound,
          start_addr-make r start n (piece c offset n),
          size-make r start n (piece c offset n),
        );
        fewer = unfold inside make in omega arith;
      }

  pub end-Remains :
      (n : ℕ)
      → suc n ≡ c.size
      → c.start_addr < addr
      → stop c ≤ addr + size
      → Remains r gap addr size c post (shrink c n ∷ [])
  end-Remains n e p q = record {
    apart = (
      unfold shrink in omega arith,
      unfold shrink in omega arith,
      shrink-IsSound r c n sound (omega arith),
      Apart-lower r gap (stop c + gap) _ post (unfold shrink in omega arith) apart,
    );
    bytes = λ a o. unfold byte_at shrink in ground (arith, content-shrink c n (a - c.start_addr));
    fewer = unfold inside shrink in omega arith;
  }

  pub within-Remains :
      (front offset : ℕ)
      → c.start_addr + front ≡ addr
      → c.start_addr + offset ≡ addr + size
      → 0 < front
      → front < offset
      → offset < c.size
      → Remains r gap addr size c post (
          shrink c front
          ∷ make (c.start_addr + offset) (c.size - offset) r (piece c offset (c.size - offset))
          ∷ [])
  unfolding byte_at
  within-Remains front offset e e' p q w =
      let n = c.size - offset in
      let start = c.start_addr + offset in
      record {
        apart =
            unfold make shrink in
            (
              omega arith,
              omega arith,
              shrink-IsSound r c front sound (omega arith),
              (
                omega arith,
                omega arith,
                make-IsSound r start n (piece c offset n)
                    (length-piece r c offset n sound (omega arith)),
                Apart-lower r gap (stop c + gap) (start + n + gap) post (omega arith) apart,
              ),
            );
        bytes = λ a o. ground (
          arith,
          content-shrink c front (a - c.start_addr),
          start_addr-shrink c front,
          size-shrink c front,
          content-rest r c offset n a sound,
          start_addr-make r start n (piece c offset n),
          size-make r start n (piece c offset n),
        );
        fewer = unfold inside make shrink in omega arith;
      }
