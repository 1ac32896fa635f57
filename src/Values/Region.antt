-- ===== src/Values/Region.antt =====
-- `MemoryRegion` of scrutiny/core/basic_types.py. The constructor refuses negative numbers.
use scrutiny.Prelude.{
  ℕ, ◌+◌, ◌-◌, ◌≤◌, ◌<◌, ◌≡◌, ◌↔◌, max, Bool, true, false, ◌||◌, arith, leb, ◌==◌, if◌then◌else◌,
}

pub record MemoryRegion : Type 0 where
  pub start : ℕ
  pub size : ℕ

unfoldable pub touches : MemoryRegion → MemoryRegion → Bool
touches a b =
    if (a.size == 0) || (b.size == 0)
    then false
    else if leb (b.start + b.size) a.start
    then false
    else if leb (a.start + a.size) b.start
    then false
    else true

-- The property `end`: the last address, or the start of an empty region.
unfoldable pub last_address : MemoryRegion → ℕ
last_address r = max r.start (r.start + r.size - 1)

abbrev pub Inside : MemoryRegion → ℕ → Type 0
Inside r x = (r.start ≤ x) × (x < r.start + r.size)

module _ (a b : MemoryRegion) where
  shared : touches a b ≡ true → Inside a (max a.start b.start) × Inside b (max a.start b.start)
  unfolding touches
  shared e = ground (arith, e)

  meets : (x : ℕ) → Inside a x → Inside b x → touches a b ≡ true
  unfolding touches
  meets x h k = ground (arith, h, k)

-- Two regions touch exactly when an address is inside both.
pub touches_iff : (a b : MemoryRegion) → (touches a b ≡ true) ↔ ((x : ℕ) × Inside a x × Inside b x)
touches_iff a b =
    ((λ e. let (h, k) = shared a b e in (max a.start b.start, h, k)), (λ p. meets a b p.0 p.1 p.2))
