-- ===== src/Memory/Blocks/Concat.antt =====
-- Clusters that lie apart, in two parts: what each part says of the whole.
use scrutiny.Prelude.{ℕ, ◌+◌, ◌≤◌, ◌<◌, ◌≡◌, refl, Bool, none, List, [], ◌∷◌, ◌++◌, arith}
use scrutiny.Memory.Cluster.{Cluster}
use scrutiny.Memory.Blocks.{stop, find, byte_at, Apart, byte_at-below}

module _ (r : Bool) (gap : ℕ) where
  -- The first address that is free behind the clusters.
  abbrev pub reach : ℕ → List Cluster → ℕ
  reach lo [] = lo
  reach lo (c ∷ cs) = reach (stop c + gap) cs

  pub le-reach : (lo : ℕ) (bs : List Cluster) → Apart r gap lo bs → lo ≤ reach lo bs
  le-reach lo [] s = omega arith
  le-reach lo (c ∷ cs) s = omega (arith, le-reach (stop c + gap) cs s.3)

  pub Apart-append :
      (lo : ℕ) (xs ys : List Cluster)
      → Apart r gap lo xs
      → Apart r gap (reach lo xs) ys
      → Apart r gap lo (xs ++ ys)
  Apart-append lo [] ys s t = t
  Apart-append lo (c ∷ cs) ys s t = (s.0, s.1, s.2, Apart-append (stop c + gap) cs ys s.3 t)

  pub Apart-left : (lo : ℕ) (xs ys : List Cluster) → Apart r gap lo (xs ++ ys) → Apart r gap lo xs
  Apart-left lo [] ys s = tt
  Apart-left lo (c ∷ cs) ys s = (s.0, s.1, s.2, Apart-left (stop c + gap) cs ys s.3)

  pub Apart-right :
      (lo : ℕ) (xs ys : List Cluster) → Apart r gap lo (xs ++ ys) → Apart r gap (reach lo xs) ys
  Apart-right lo [] ys s = s
  Apart-right lo (c ∷ cs) ys s = Apart-right (stop c + gap) cs ys s.3

  -- Behind the last cluster there is nothing.
  pub find-above :
      (lo : ℕ) (bs : List Cluster) (j : ℕ)
      → Apart r gap lo bs
      → reach lo bs ≤ j + gap
      → find j bs ≡ none
  unfolding find
  find-above lo [] j s h = refl
  find-above lo (c ∷ cs) j s h =
      ground (arith, find-above (stop c + gap) cs j s.3, le-reach (stop c + gap) cs s.3)

  pub byte_at-append_behind :
      (lo : ℕ) (xs ys : List Cluster) (a : ℕ)
      → Apart r gap lo xs
      → reach lo xs ≤ a + gap
      → byte_at (xs ++ ys) a ≡ byte_at ys a
  unfolding byte_at
  byte_at-append_behind lo [] ys a s h = refl
  byte_at-append_behind lo (c ∷ cs) ys a s h =
      ground
        (arith, byte_at-append_behind (stop c + gap) cs ys a s.3, le-reach (stop c + gap) cs s.3)

  pub byte_at-append_before :
      (xs ys : List Cluster) (hi a : ℕ)
      → Apart r gap hi ys
      → a < hi
      → byte_at (xs ++ ys) a ≡ byte_at xs a
  unfolding byte_at
  byte_at-append_before [] ys hi a s h = byte_at-below r gap hi ys a s h
  byte_at-append_before (c ∷ cs) ys hi a s h = ground (arith, byte_at-append_before cs ys hi a s h)
