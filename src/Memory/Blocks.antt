-- ===== src/Memory/Blocks.antt =====
-- The view of a `MemoryContent` as its clusters in the order of their addresses, and what it means
-- that they lie apart. The dict and the key list of the source are one list here.
pub mod Concat
use scrutiny.Prelude.{
  ℕ, suc, ◌+◌, ◌-◌, ◌≤◌, ◌<◌, ◌≡◌, refl, Bool, true, false, ◌&&◌, Option, none, some, List, [], ◌∷◌,
  ◌++◌, min, max, arith, length, leb, ltb, ◌==◌, if◌then◌else◌,
}
use scrutiny.Prelude.Dict
use scrutiny.Memory.Cluster.{Cluster, IsSound, content}
use scrutiny.Memory.Content.{MemoryContent}

abbrev pub stop : Cluster → ℕ
stop c = c.start_addr + c.size

abbrev pub starts : List Cluster → List ℕ
starts [] = []
starts (c ∷ cs) = c.start_addr ∷ starts cs

unfoldable pub find : ℕ → List Cluster → Option Cluster
find j [] = none
find j (c ∷ cs) = if c.start_addr == j then some c else find j cs

abbrev pub or_else {ℓ} : {A : Type ℓ} → Option A → Option A → Option A
or_else none b = b
or_else (some a) b = some a

-- The byte at an address.
unfoldable pub byte_at : List Cluster → ℕ → Option ℕ
byte_at [] a = none
byte_at (c ∷ cs) a =
    if leb c.start_addr a && ltb a (stop c) then content c (a - c.start_addr) else byte_at cs a

-- From address `lo` on the clusters ascend, `gap` addresses apart at least, and none is empty.
abbrev pub Apart : Bool → ℕ → ℕ → List Cluster → Type 0
Apart r gap lo [] = Unit
Apart r gap lo (c ∷ cs) =
    (lo ≤ c.start_addr) × (0 < c.size) × IsSound r c × Apart r gap (stop c + gap) cs

-- The state stands for the list.
pub record Holds (m : MemoryContent) (bs : List Cluster) : Type 0 where
  pub keys : m.sorted_keys ≡ starts bs
  pub dict : (j : ℕ) → Dict.get m.clusters j ≡ find j bs

-- How many addresses of the range the clusters fill.
abbrev pub overlap : ℕ → ℕ → Cluster → ℕ
overlap addr size c = min (stop c) (addr + size) - max c.start_addr addr

unfoldable pub inside : ℕ → ℕ → List Cluster → ℕ
inside addr size [] = 0
inside addr size (c ∷ cs) = overlap addr size c + inside addr size cs

pub find-append :
    (j : ℕ) (xs ys : List Cluster) → find j (xs ++ ys) ≡ or_else (find j xs) (find j ys)
unfolding find
find-append j [] ys = refl
find-append j (x ∷ xs) ys = ground (arith, find-append j xs ys)

pub starts-append : (xs ys : List Cluster) → starts (xs ++ ys) ≡ starts xs ++ starts ys
starts-append [] ys = refl
starts-append (x ∷ xs) ys = ground (arith, starts-append xs ys)

pub length-starts : (xs : List Cluster) → length (starts xs) ≡ length xs
length-starts [] = refl
length-starts (x ∷ xs) = ground (arith, length-starts xs)

pub inside-append :
    (addr size : ℕ) (xs ys : List Cluster)
    → inside addr size (xs ++ ys) ≡ inside addr size xs + inside addr size ys
unfolding inside
inside-append addr size [] ys = omega arith
inside-append addr size (x ∷ xs) ys = omega (arith, inside-append addr size xs ys)

module _ (r : Bool) (gap : ℕ) where
  pub Apart-lower :
      (lo lo' : ℕ) (bs : List Cluster) → lo' ≤ lo → Apart r gap lo bs → Apart r gap lo' bs
  Apart-lower lo lo' [] h s = tt
  Apart-lower lo lo' (c ∷ cs) h s = (omega arith, s.1, s.2, s.3)

  -- Below the first address there is nothing.
  pub find-below :
      (lo : ℕ) (bs : List Cluster) (j : ℕ) → Apart r gap lo bs → j < lo → find j bs ≡ none
  unfolding find
  find-below lo [] j s h = refl
  find-below lo (c ∷ cs) j s h = ground (arith, find-below (stop c + gap) cs j s.3)

  pub byte_at-below :
      (lo : ℕ) (bs : List Cluster) (a : ℕ) → Apart r gap lo bs → a < lo → byte_at bs a ≡ none
  unfolding byte_at
  byte_at-below lo [] a s h = refl
  byte_at-below lo (c ∷ cs) a s h = ground (arith, byte_at-below (stop c + gap) cs a s.3)

  pub inside-le :
      (lo addr size : ℕ) (bs : List Cluster)
      → Apart r gap lo bs
      → inside addr size bs ≤ addr + size - max lo addr
  unfolding inside
  inside-le lo addr size [] s = omega arith
  inside-le lo addr size (c ∷ cs) s = omega (arith, inside-le (stop c + gap) addr size cs s.3)
