-- ===== src/Prelude/Dict.antt =====
-- Python's `dict` with integer keys, sealed behind the laws of its lookups.
use Prim.Native.Nat.{ℕ}
use mathlib.Core.Path.{◌≡◌, refl}
use mathlib.Core.Option.{Option, none, some}
use mathlib.Core.List.{List, [], ◌∷◌}
use native.Mathlib.Omega.{arith}
use scrutiny.Prelude.Tests.{◌==◌, if◌then◌else◌}
use scrutiny.Prelude.Lists.{length}

-- The entries of a dict, the one put last in front, at most one for each key.
abbrev pub Entries {ℓ} : Type ℓ → Type ℓ
Entries V = List (ℕ × V)

unfoldable pub lookup {ℓ} : {V : Type ℓ} → Entries V → ℕ → Option V
lookup [] wanted = none
lookup ((key, value) ∷ more) wanted = if key == wanted then some value else lookup more wanted

unfoldable without {ℓ} : {V : Type ℓ} → Entries V → ℕ → Entries V
without [] dropped = []
without ((key, value) ∷ more) dropped =
    let kept = without more dropped in if key == dropped then kept else (key, value) ∷ kept

-- Each key once, with the value that a lookup finds.
unfoldable visible {ℓ} : {V : Type ℓ} → Entries V → Entries V
unfolding without
visible [] = []
visible ((key, value) ∷ more) = (key, value) ∷ without (visible more) key

abbrev pub Distinct {ℓ} : {V : Type ℓ} → Entries V → Type ℓ
Distinct [] = Unit
Distinct ((key, value) ∷ more) = (lookup more key ≡ none) × Distinct more

pub record Dict {ℓ} (V : Type ℓ) : Type ℓ where
  entries : Entries V

module _ {ℓ} {V : Type ℓ} where
  lookup-without :
      (entries : Entries V) (dropped wanted : ℕ)
      → lookup (without entries dropped) wanted
        ≡ (if dropped == wanted then none else lookup entries wanted)
  unfolding lookup without
  lookup-without [] dropped wanted = ground arith
  lookup-without ((key, value) ∷ more) dropped wanted =
      ground (arith, lookup-without more dropped wanted)

  lookup-visible :
      (entries : Entries V) (wanted : ℕ) → lookup (visible entries) wanted ≡ lookup entries wanted
  unfolding lookup visible
  lookup-visible [] wanted = refl
  lookup-visible ((key, value) ∷ more) wanted =
      ground (arith, lookup-without (visible more) key wanted, lookup-visible more wanted)

  without-Distinct :
      (entries : Entries V) (dropped : ℕ) → Distinct entries → Distinct (without entries dropped)
  unfolding without
  without-Distinct [] dropped h = tt
  without-Distinct ((key, value) ∷ more) dropped (fresh, h) =
      ground (arith, lookup-without more dropped key, without-Distinct more dropped h)

  visible-Distinct : (entries : Entries V) → Distinct (visible entries)
  unfolding visible
  visible-Distinct [] = tt
  visible-Distinct ((key, value) ∷ more) = (
    ground (arith, lookup-without (visible more) key key),
    without-Distinct (visible more) key (visible-Distinct more),
  )

  unfoldable pub empty : Dict V
  empty = record { entries = [] }

  unfoldable pub get : Dict V → ℕ → Option V
  unfolding lookup
  get d k = lookup d.entries k

  unfoldable pub remove : Dict V → ℕ → Dict V
  unfolding without
  remove d k = record { entries = without d.entries k }

  unfoldable pub put : Dict V → ℕ → V → Dict V
  unfolding without
  put d k v = record { entries = (k, v) ∷ without d.entries k }

  -- len(d)
  unfoldable pub count : Dict V → ℕ
  count d = length d.entries

  -- d.items(), in an order that is not Python's
  unfoldable pub items : Dict V → Entries V
  unfolding visible
  items d = visible d.entries

  pub lookup-items : (d : Dict V) (k : ℕ) → lookup (items d) k ≡ get d k
  unfolding items get
  lookup-items d k = lookup-visible d.entries k

  pub items-Distinct : (d : Dict V) → Distinct (items d)
  unfolding items
  items-Distinct d = visible-Distinct d.entries

  pub get-remove : (d : Dict V) (k j : ℕ) → get (remove d k) j ≡ (if k == j then none else get d j)
  unfolding get remove
  get-remove d k j = lookup-without d.entries k j

  pub get-put :
      (d : Dict V) (k j : ℕ) (v : V) → get (put d k v) j ≡ (if k == j then some v else get d j)
  unfolding get put lookup
  get-put d k j v = ground (arith, lookup-without d.entries k j)

pub get-empty {ℓ} : {V : Type ℓ} (k : ℕ) → get (empty {V = V}) k ≡ none
unfolding get empty
get-empty k = refl
