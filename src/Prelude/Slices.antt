-- ===== src/Prelude/Slices.antt =====
-- Byte strings as lists of numbers, and the slices of Python.
use Prim.Native.Nat.{ℕ, zero, suc, ◌+◌, ◌-◌, ◌≤◌, ◌<◌}
use mathlib.Core.Path.{◌≡◌, refl}
use mathlib.Core.List.{List}
use mathlib.Core.Option.{some}
use native.Mathlib.Omega.{arith}
use scrutiny.Prelude.Lists.{length, take, drop, replicate, get_elem?, length-take, length-drop}

abbrev pub Bytes : Type 0
Bytes = List ℕ

-- data[from:to] for 0 <= from and 0 <= to
abbrev pub slice : ℕ → ℕ → Bytes → Bytes
slice from to l = take (to - from) (drop from l)

abbrev pub IsByte : ℕ → Type 0
IsByte b = b < 256

pub length-slice :
    (from n : ℕ) (l : Bytes) → from + n ≤ length l → length (slice from (from + n) l) ≡ n
length-slice from n l h =
    omega (arith, length-take (from + n - from) (drop from l), length-drop from l)

pub get_elem?-replicate : (n i : ℕ) → i < n → get_elem? (replicate {A = ℕ} n 0) i ≡ some 0
get_elem?-replicate zero i h = absurd (omega arith)
get_elem?-replicate (suc n) zero h = refl
get_elem?-replicate (suc n) (suc i) h = get_elem?-replicate n i (omega arith)
