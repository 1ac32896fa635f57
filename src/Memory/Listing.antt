-- ===== src/Memory/Listing.antt =====
-- The list of the clusters by address (scrutiny/core/memory_content.py), and what it says.
use scrutiny.Prelude.{
  ℕ, suc, ◌+◌, ◌≤◌, ◌<◌, ◌≡◌, refl, sym, ◌∙◌, Bool, false, Option, some, none, List, [], ◌∷◌, map,
  arith, leb, ◌==◌, if◌then◌else◌,
}
use scrutiny.Prelude.Dict
use scrutiny.Prelude.Dict.{Entries, Distinct, lookup, lookup-items, items-Distinct}
use scrutiny.Memory.Cluster
use scrutiny.Memory.Cluster.{Cluster}
use scrutiny.Memory.Content.{MemoryContent}
use scrutiny.Memory.Blocks.{Holds, find, stop, Apart, Apart-lower}

-- Cluster(start_addr=addr, size=len(c), has_data=False)
unfoldable pub bare : ℕ → Cluster → Cluster
unfolding Cluster.make
bare address c = Cluster.make address c.size false []

abbrev pub bare_of : Cluster → Cluster
bare_of c = bare c.start_addr c

abbrev pub bare_entries : Entries Cluster → List Cluster
bare_entries [] = []
bare_entries ((address, c) ∷ more) = bare address c ∷ bare_entries more

-- list.sort by the start address, which keeps the order of equal ones
unfoldable pub insert_by_address : Cluster → List Cluster → List Cluster
insert_by_address c [] = c ∷ []
insert_by_address c (d ∷ ds) =
    let rest = insert_by_address c ds in
    if leb c.start_addr d.start_addr then c ∷ d ∷ ds else d ∷ rest

unfoldable pub sort_by_address : List Cluster → List Cluster
unfolding insert_by_address
sort_by_address [] = []
sort_by_address (c ∷ cs) = insert_by_address c (sort_by_address cs)

unfoldable pub get_cluster_list_no_data_by_address : MemoryContent → List Cluster
unfolding bare sort_by_address
get_cluster_list_no_data_by_address m = sort_by_address (bare_entries (Dict.items m.clusters))

-- The addresses ascend strictly, from `lo` on.
abbrev Ascends : ℕ → List Cluster → Type 0
Ascends lo [] = Unit
Ascends lo (c ∷ cs) = (lo ≤ c.start_addr) × Ascends (suc c.start_addr) cs

abbrev Fresh : List Cluster → Type 0
Fresh [] = Unit
Fresh (c ∷ cs) = (find c.start_addr cs ≡ none) × Fresh cs

find-insert :
    (c : Cluster) (ds : List Cluster) (j : ℕ)
    → find c.start_addr ds ≡ none
    → find j (insert_by_address c ds) ≡ (if c.start_addr == j then some c else find j ds)
unfolding find insert_by_address
find-insert c [] j h = refl
find-insert c (d ∷ ds) j h = ground (arith, find-insert c ds j)

insert-Ascends :
    (lo : ℕ) (c : Cluster) (ds : List Cluster)
    → lo ≤ c.start_addr
    → find c.start_addr ds ≡ none
    → Ascends lo ds
    → Ascends lo (insert_by_address c ds)
unfolding find insert_by_address
insert-Ascends lo c [] le h a = (le, tt)
insert-Ascends lo c (d ∷ ds) le h a = ground (arith, insert-Ascends (suc d.start_addr) c ds)

find-sort : (cs : List Cluster) (j : ℕ) → Fresh cs → find j (sort_by_address cs) ≡ find j cs
unfolding find sort_by_address
find-sort [] j h = refl
find-sort (c ∷ cs) j (fresh, h) =
    find-insert c (sort_by_address cs) j (find-sort cs c.start_addr h ∙ fresh)
    ∙ ground (arith, find-sort cs j h)

sort-Ascends : (cs : List Cluster) → Fresh cs → Ascends 0 (sort_by_address cs)
unfolding sort_by_address
sort-Ascends [] h = tt
sort-Ascends (c ∷ cs) (fresh, h) =
    insert-Ascends 0 c (sort_by_address cs) (omega arith) (find-sort cs c.start_addr h ∙ fresh)
      (sort-Ascends cs h)

find-under : (lo : ℕ) (cs : List Cluster) (j : ℕ) → Ascends lo cs → j < lo → find j cs ≡ none
unfolding find
find-under lo [] j a h = refl
find-under lo (c ∷ cs) j a h = ground (arith, find-under (suc c.start_addr) cs j)

-- A list that ascends is known by its lookups.
Ascends-unique :
    (lo : ℕ) (xs ys : List Cluster)
    → Ascends lo xs
    → Ascends lo ys
    → ((j : ℕ) → find j xs ≡ find j ys)
    → xs ≡ ys
unfolding find
Ascends-unique lo [] [] a b h = refl
Ascends-unique lo [] (y ∷ ys) a b h = absurd (ground (arith, h y.start_addr))
Ascends-unique lo (x ∷ xs) [] a b h = absurd (ground (arith, h x.start_addr))
Ascends-unique lo (x ∷ xs) (y ∷ ys) a b h =
    let same : x.start_addr ≡ y.start_addr = ground (
      arith,
      h x.start_addr,
      h y.start_addr,
      find-under (suc x.start_addr) xs y.start_addr a.1,
      find-under (suc y.start_addr) ys x.start_addr b.1,
    ) in
    let heads : x ≡ y = ground (arith, h x.start_addr, same) in
    let tails : xs ≡ ys = Ascends-unique (suc x.start_addr) xs ys a.1 (rw same b.1) (λ j. ground (
      arith,
      h j,
      same,
      find-under (suc x.start_addr) xs j a.1,
      find-under (suc y.start_addr) ys j b.1,
    )) in
    cc

-- The lookups of the dict, each cluster without its data.
pub dropped : ℕ → Option Cluster → Option Cluster
dropped j none = none
dropped j (some c) = some (bare j c)

find-bare_entries :
    (es : Entries Cluster) (j : ℕ) → find j (bare_entries es) ≡ dropped j (lookup es j)
unfolding find bare Cluster.make lookup dropped
find-bare_entries [] j = refl
find-bare_entries ((a, c) ∷ es) j = ground (arith, find-bare_entries es j)

bare_entries-Fresh : (es : Entries Cluster) → Distinct es → Fresh (bare_entries es)
unfolding bare Cluster.make dropped
bare_entries-Fresh [] h = tt
bare_entries-Fresh ((a, c) ∷ es) (fresh, h) =
    (ground (arith, find-bare_entries es a), bare_entries-Fresh es h)

find-bare_of : (cs : List Cluster) (j : ℕ) → find j (map bare_of cs) ≡ dropped j (find j cs)
unfolding find bare Cluster.make dropped
find-bare_of [] j = refl
find-bare_of (c ∷ cs) j = ground (arith, find-bare_of cs j)

bare-Ascends :
    (r : Bool) (gap lo : ℕ) (bs : List Cluster)
    → 0 < gap
    → Apart r gap lo bs
    → Ascends lo (map bare_of bs)
unfolding bare Cluster.make
bare-Ascends r gap lo [] g s = tt
bare-Ascends r gap lo (c ∷ cs) g s = (
  omega arith,
  bare-Ascends r gap (suc c.start_addr) cs g
      (Apart-lower r gap (stop c + gap) (suc c.start_addr) cs (omega arith) s.3),
)

-- In a state that stands for clusters which lie apart the list is those clusters, without their data.
pub listing :
    (m : MemoryContent) (bs : List Cluster)
    → Holds m bs
    → Apart m.retain_data 1 0 bs
    → get_cluster_list_no_data_by_address m ≡ map bare_of bs
unfolding get_cluster_list_no_data_by_address
listing m bs h s =
    let es = Dict.items m.clusters in
    let fresh = bare_entries-Fresh es (items-Distinct m.clusters) in
    Ascends-unique 0 (sort_by_address (bare_entries es)) (map bare_of bs)
      (sort-Ascends (bare_entries es) fresh) (bare-Ascends m.retain_data 1 0 bs (omega arith) s)
      (λ j. rw (find-sort (bare_entries es) j fresh) (
        rw (find-bare_entries es j)
          (rw (lookup-items m.clusters j) (rw (h.dict j) (sym (find-bare_of bs j))))))
