-- ===== src/Reader/Fullness.antt =====
-- Why the loop of `make_next_var_entries_request` (memory_reader.py) leaves an entry for the next request.
use scrutiny.Prelude.{
  ℕ, ◌+◌, ◌*◌, ◌/◌, ◌<◌, ◌≤◌, ◌≡◌, refl, sym, ap, ◌∙◌, subst, Bool, false, ◌||◌, Option, some, none,
  List, [], ◌∷◌, ◌++◌, map, arith, inl, inr, ◌⊎◌, length, length-map, ltb, ltb→lt, if◌then◌else◌,
  Bool-cases, Result, ok, err, ◌>>=◌,
}
use scrutiny.Protocol.MemoryControl.{AddressFormat, get_address_size_bytes, total_length}
use scrutiny.Memory.Cluster
use scrutiny.Memory.Cluster.{Cluster}
use scrutiny.Memory.Content.{MemoryContent}
use scrutiny.Memory.Blocks.{Apart, stop}
use scrutiny.Memory.Contract.{IsAgglomerated, bytes_of, in_range}
use scrutiny.Memory.Emptied.{add_empty-IsAgglomerated}
use scrutiny.Memory.Listing.{bare, bare_of, listing, get_cluster_list_no_data_by_address}
use scrutiny.Reader.State.{Variable, Protocol, MemoryReader}
use scrutiny.Reader.Variables.{
  Scan, advance, fit, consider, visit, touches_any, region_of, block_of, response_payload_size,
  read_memory_request_size_per_block, read_memory_response_overhead_size_per_block, entry_at,
}
use scrutiny.Reader.Gathering.{covers, reads, reads-append_one, Gathered, block_bytes}

-- Whether an address is in one of the blocks of a request.
unfoldable pub asks_for : List (ℕ × ℕ) → ℕ → Bool
asks_for [] x = false
asks_for ((address, size) ∷ bs) x = in_range address size x || asks_for bs x

pub asks_for-block_of : (cs : List Cluster) (x : ℕ) → asks_for (map block_of cs) x ≡ covers cs x
unfolding asks_for covers
asks_for-block_of [] x = refl
asks_for-block_of (c ∷ cs) x = ground (arith, asks_for-block_of cs x)

-- The answer to the request is as long as the loop reckoned.
pub answer_size :
    (f : AddressFormat) (cs : List Cluster)
    → (get_address_size_bytes f + 2) * length (map block_of cs) + total_length (map block_of cs)
      ≡ response_payload_size f cs
unfolding response_payload_size read_memory_response_overhead_size_per_block
answer_size f [] = omega arith
answer_size f (c ∷ cs) = grind (arith, answer_size f cs)

-- The blocks ascend, each has some bytes, and no two of them overlap or touch.
abbrev pub Spread : ℕ → List (ℕ × ℕ) → Type 0
Spread lo [] = Unit
Spread lo ((address, size) ∷ bs) = (lo ≤ address) × (0 < size) × Spread (address + size + 1) bs

Apart-Spread :
    (r : Bool) (lo : ℕ) (cs : List Cluster)
    → Apart r 1 lo cs
    → Spread lo (map block_of (map bare_of cs))
unfolding bare Cluster.make
Apart-Spread r lo [] s = tt
Apart-Spread r lo (c ∷ cs) s = (s.0, s.1, Apart-Spread r (stop c + 1) cs s.3)

over_limit :
    (f : AddressFormat) (limit n : ℕ)
    → limit / read_memory_request_size_per_block f < n
    → limit < (get_address_size_bytes f + 2) * n
unfolding read_memory_request_size_per_block
over_limit AddressFormat.bits_8 limit n h = omega arith
over_limit AddressFormat.bits_16 limit n h = omega arith
over_limit AddressFormat.bits_32 limit n h = omega arith
over_limit AddressFormat.bits_64 limit n h = omega arith

-- The blocks of these entries, as few as they can be, are too many for a request or too long for an
-- answer.
abbrev pub TooMuch : Protocol → MemoryReader → List Variable → Type 0
TooMuch p s entries =
    (blocks : List (ℕ × ℕ)) × Spread 0 blocks
    × ((x : ℕ) → asks_for blocks x ≡ reads entries x)
    × ((s.max_request_payload_size < (get_address_size_bytes p.address_format + 2) * length blocks)
        ⊎ (s.max_response_payload_size
            < (get_address_size_bytes p.address_format + 2) * length blocks + total_length blocks))

unwrapped : (o : Option Scan) → ◌≡◌ {A = Result (Option Scan)} (ok o) (ok none) → o ≡ none
unwrapped o e = cc

module _ (p : Protocol) (s : MemoryReader) (t : Scan) (v : Variable) (g : Gathered p s t)
    (full : 0 < v.size) where
  module _ (m : MemoryContent) (w : IsAgglomerated m) (keeps : m.retain_data ≡ false)
      (filled : (x : ℕ)
        → bytes_of w x
          ≡ (if reads (t.entries_in_request ++ (v ∷ [])) x then some 0 else none)) where
    abbrev listed : List Cluster
    listed = get_cluster_list_no_data_by_address m

    same_list : listed ≡ map bare_of w.blocks
    same_list = listing m w.blocks w.holds w.apart

    abbrev TooMany : ℕ → ℕ → Type 0
    TooMany blocks answer =
        (s.max_request_payload_size / read_memory_request_size_per_block p.address_format < blocks)
        ⊎ (s.max_response_payload_size < answer)

    fitless :
        fit p s t v m ≡ none
        → TooMany (length listed) (response_payload_size p.address_format listed)
    unfolding fit
    fitless e =
        elim (Bool-cases (
          ltb (s.max_request_payload_size / read_memory_request_size_per_block p.address_format)
            (length listed))) [
              | inl h ↦ inl (ltb→lt _ _ h)
              | inr h ↦ inr (ltb→lt _ _ (ground (arith, rw h at e)))
            ]

    over :
        TooMany (length listed) (response_payload_size p.address_format listed)
        → (s.max_request_payload_size
            < (get_address_size_bytes p.address_format + 2) * length (map block_of listed))
          ⊎ (s.max_response_payload_size
              < (get_address_size_bytes p.address_format + 2) * length (map block_of listed)
                + total_length (map block_of listed))
    over (inl h) = inl (
        over_limit p.address_format s.max_request_payload_size (length (map block_of listed))
          (omega (arith, h, length-map block_of listed)))
    over (inr h) = inr (omega (arith, h, answer_size p.address_format listed))

    fit-TooMuch : fit p s t v m ≡ none → TooMuch p s (t.entries_in_request ++ (v ∷ []))
    fit-TooMuch e = (
      map block_of listed,
      subst (λ l. Spread 0 (map block_of l)) (sym same_list)
          (Apart-Spread m.retain_data 0 w.blocks w.apart),
      λ x.
          asks_for-block_of listed x
          ∙ ap (λ l. covers l x) same_list
          ∙ block_bytes m w x (reads (t.entries_in_request ++ (v ∷ [])) x) keeps (filled x),
      over (fitless e),
    )

  consider-TooMuch :
      consider p s t v ≡ ok none
      → (touches_any (region_of v) s.forbidden_regions ≡ false)
        × TooMuch p s (t.entries_in_request ++ (v ∷ []))
  unfolding consider
  consider-TooMuch e = elim (Bool-cases (touches_any (region_of v) s.forbidden_regions)) [
    | inl k ↦ absurd (ground (arith, rw k at e))
    | inr k ↦
        let (m, run, keeps, (w, bytes)) =
          add_empty-IsAgglomerated t.memory_to_read v.address v.size g.sound full in
        (
          k,
          fit-TooMuch m w (keeps ∙ g.keeps)
              (λ x. ground (arith, bytes x, g.filled x, reads-append_one t.entries_in_request v x))
              (unwrapped (fit p s t v m) (rw run at (rw k at e))),
        )
  ]

-- A round that ends the loop leaves the entry at the cursor, which has no room with the others.
pub visit-TooMuch :
    (p : Protocol) (s : MemoryReader) (t : Scan) (v : Variable)
    → Gathered p s t
    → 0 < v.size
    → entry_at s.watched_variables t.cursor ≡ ok v
    → visit p s t ≡ ok none
    → (touches_any (region_of v) s.forbidden_regions ≡ false)
      × TooMuch p s (t.entries_in_request ++ (v ∷ []))
unfolding visit
visit-TooMuch p s t v g full there e =
    consider-TooMuch p s t v g full (go (consider p s t v) (rw there at e))
  where
    go :
        (r : Result (Option Scan))
        → (r >>= (λ o. elim o as (λ x. Result (Option Scan)) [
          | none ↦ ok none
          | some t1 ↦ ok (some (advance (length s.watched_variables) t1))
        ]))
          ≡ ok none
        → r ≡ ok none
    go (ok none) e = refl
    go (ok (some t')) e = absurd (ground (arith, e))
    go (err x) e = absurd (ground (arith, e))
