-- ===== src/Reader/Turns.antt =====
-- The order in which `make_next_var_entries_request` (memory_reader.py) takes the entries: from its
-- cursor on, and from the first entry again.
use scrutiny.Prelude.{
  ℕ, zero, suc, ◌+◌, ◌-◌, ◌<◌, ◌≤◌, ◌≡◌, refl, sym, ap, ◌∙◌, subst, Bool, true, false, Option, some,
  none, List, [], ◌∷◌, ◌++◌, arith, inl, inr, get_elem?, take, drop, length, length-drop,
  get_elem?-append_left, get_elem?-append_right, get_elem?-drop, get_elem?-take, leb, if◌then◌else◌,
  lt_or_ge, Result, ok, err, ◌>>=◌,
}
use scrutiny.Values.Region.{MemoryRegion}
use scrutiny.Memory.Content.{MemoryContent, add_empty}
use scrutiny.Reader.State.{Variable, Protocol, MemoryReader}
use scrutiny.Reader.Variables.{
  Scan, dealt, advance, fit, consider, visit, touches_any, region_of, entry_at,
}
use scrutiny.Reader.Gathering.{dealt-advance}

-- The index that is i behind the first one of n.
abbrev pub around : ℕ → ℕ → ℕ
around n i = if leb n i then i - n else i

module _ {ℓ} {A : Type ℓ} where
  -- k elements from index c on, going around.
  abbrev pub turn : List A → ℕ → ℕ → List A
  turn xs c k = take k (drop c xs ++ take c xs)

  take_next :
      (l : List A) (k : ℕ) (x : A) → get_elem? l k ≡ some x → take (suc k) l ≡ take k l ++ (x ∷ [])
  take_next [] k x e = absurd (ground (arith, e))
  take_next (y ∷ ys) zero x e = ground (arith, e)
  take_next (y ∷ ys) (suc k) x e = ap (λ l. y ∷ l) (take_next ys k x e)

  get_elem?-around :
      (xs : List A) (c k : ℕ)
      → c < length xs
      → k < length xs
      → get_elem? (drop c xs ++ take c xs) k ≡ get_elem? xs (around (length xs) (c + k))
  get_elem?-around xs c k hc hk = elim (lt_or_ge k (length xs - c)) [
    | inl h ↦
        get_elem?-append_left (drop c xs) (take c xs) k (omega (arith, length-drop c xs))
        ∙ get_elem?-drop xs c k (around (length xs) (c + k)) (ground arith)
    | inr h ↦
        get_elem?-append_right (drop c xs) (take c xs) k (around (length xs) (c + k))
          (ground (arith, length-drop c xs))
        ∙ get_elem?-take xs c (around (length xs) (c + k)) (ground arith)
  ]

  pub turn_next :
      (xs : List A) (c k : ℕ) (x : A)
      → c < length xs
      → k < length xs
      → get_elem? xs (around (length xs) (c + k)) ≡ some x
      → turn xs c (suc k) ≡ turn xs c k ++ (x ∷ [])
  turn_next xs c k x hc hk e = take_next _ k x (get_elem?-around xs c k hc hk ∙ e)

-- What stands at an index in bounds.
pub within {ℓ} :
    {A : Type ℓ} (l : List A) (j : ℕ) → j < length l → (x : A) × (get_elem? l j ≡ some x)
within [] j h = absurd (omega arith)
within (x ∷ xs) zero h = (x, refl)
within (x ∷ xs) (suc j) h = within xs j (omega arith)

-- The entries that touch no forbidden region.
unfoldable pub permitted : List MemoryRegion → List Variable → List Variable
permitted fs [] = []
permitted fs (v ∷ vs) =
    let rest = permitted fs vs in if touches_any (region_of v) fs then rest else v ∷ rest

permitted-append_one :
    (fs : List MemoryRegion) (vs : List Variable) (v : Variable)
    → permitted fs (vs ++ (v ∷ []))
      ≡ (if touches_any (region_of v) fs then permitted fs vs else permitted fs vs ++ (v ∷ []))
unfolding permitted
permitted-append_one fs [] v = ground arith
permitted-append_one fs (u ∷ vs) v = ground (arith, permitted-append_one fs vs v)

module _ (s : MemoryReader) (c : ℕ) where
  abbrev n : ℕ
  n = length s.watched_variables

  -- The loop began at c: where it stands, and what it took in.
  pub record InTurn (t : Scan) : Type 0 where
    pub count : dealt t ≤ n
    pub place : t.cursor ≡ around n (c + dealt t)
    pub passed : 0 < n → t.wrapped ≡ leb n (c + dealt t)
    pub taken :
        t.entries_in_request ≡ permitted s.forbidden_regions (turn s.watched_variables c (dealt t))

  pub found :
      (t : Scan)
      → c < n
      → InTurn t
      → (v : Variable) × (get_elem? s.watched_variables t.cursor ≡ some v)
  found t h i = within s.watched_variables t.cursor (ground (arith, i.place, i.count))

  module _ (t : Scan) (v : Variable) (h : c < n) (more : dealt t < n)
      (there : get_elem? s.watched_variables t.cursor ≡ some v) (i : InTurn t) where
    further : permitted s.forbidden_regions (turn s.watched_variables c (suc (dealt t))) ≡ (
        if touches_any (region_of v) s.forbidden_regions
        then t.entries_in_request
        else t.entries_in_request ++ (v ∷ []))
    further =
        ap (permitted s.forbidden_regions)
          (turn_next s.watched_variables c (dealt t) v h more (rw (← i.place) there))
        ∙ replaced t.entries_in_request
            (permitted s.forbidden_regions (turn s.watched_variables c (dealt t))) i.taken
            (permitted-append_one s.forbidden_regions (turn s.watched_variables c (dealt t)) v)
      where
        replaced :
            (xs ys : List Variable) {l : List Variable}
            → xs ≡ ys
            → l ≡ (if touches_any (region_of v) s.forbidden_regions then ys else ys ++ (v ∷ []))
            → l ≡ (if touches_any (region_of v) s.forbidden_regions then xs else xs ++ (v ∷ []))
        replaced xs ys e q = rw e q

    -- The next state has the entries that are taken one step later.
    stepped :
        (t' : Scan)
        → dealt t' ≡ suc (dealt t)
        → t'.cursor ≡ t.cursor
        → t'.wrapped ≡ t.wrapped
        → t'.entries_in_request ≡ (
            if touches_any (region_of v) s.forbidden_regions
            then t.entries_in_request
            else t.entries_in_request ++ (v ∷ []))
        → InTurn (advance n t')
    unfolding advance
    stepped t' d e f g =
        let k : dealt (advance n t') ≡ suc (dealt t) = ground (arith, d) in
        let same : (advance n t').entries_in_request ≡ t'.entries_in_request = ground arith in
        record {
          count = omega (arith, k, more);
          place = ground (arith, i.place, i.count, k, e);
          passed = λ some. ground (arith, i.place, i.count, i.passed some, k, e, f);
          taken =
              same
              ∙ g
              ∙ sym further
              ∙ ap (λ (j : ℕ). permitted s.forbidden_regions (turn s.watched_variables c j))
                  (sym k);
        }

-- What `consider` changes where it does not end the loop.
abbrev Took : MemoryReader → Scan → Variable → Scan → Type 0
Took s t v t' =
    (t'.cursor ≡ t.cursor)
    × (t'.wrapped ≡ t.wrapped)
    × (t'.entries_in_request ≡ (
        if touches_any (region_of v) s.forbidden_regions
        then t.entries_in_request
        else t.entries_in_request ++ (v ∷ [])))

fit-Took :
    (p : Protocol) (s : MemoryReader) (t : Scan) (v : Variable) (m : MemoryContent) (t' : Scan)
    → touches_any (region_of v) s.forbidden_regions ≡ false
    → fit p s t v m ≡ some t'
    → Took s t v t'
unfolding fit
fit-Took p s t v m t' e h = ground (arith, e, h)

consider-Took :
    (p : Protocol) (s : MemoryReader) (t : Scan) (v : Variable) (t' : Scan)
    → consider p s t v ≡ ok (some t')
    → Took s t v t'
unfolding consider
consider-Took p s t v t' h =
    go (touches_any (region_of v) s.forbidden_regions) (add_empty t.memory_to_read v.address v.size)
      refl h
  where
    go :
        (b : Bool) (r : Result MemoryContent)
        → touches_any (region_of v) s.forbidden_regions ≡ b
        → (if b
            then ok (some (record t { skipped_entries_count = suc t.skipped_entries_count }))
            else (r >>= (λ m. ok (fit p s t v m))))
          ≡ ok (some t')
        → Took s t v t'
    go true r e h = ground (arith, e, h)
    go false (ok m) e h = fit-Took p s t v m t' e (ground (arith, h))
    go false (err x) e h = absurd (ground (arith, h))

-- A round keeps the turn, if it deals with one entry more.
pub visit-InTurn :
    (p : Protocol) (s : MemoryReader) (c : ℕ) (t : Scan) (v : Variable) (t' : Scan)
    → c < length s.watched_variables
    → dealt t < length s.watched_variables
    → get_elem? s.watched_variables t.cursor ≡ some v
    → InTurn s c t
    → visit p s t ≡ ok (some t')
    → dealt t' ≡ suc (dealt t)
    → InTurn s c t'
unfolding visit advance
visit-InTurn p s c t v t' h more there i run counted =
    let at : entry_at s.watched_variables t.cursor ≡ ok v = rw (there, entry_at) refl in
    go (consider p s t v) refl (rw at at run)
  where
    go :
        (r : Result (Option Scan))
        → consider p s t v ≡ r
        → (r >>= (λ o. elim o as (λ x. Result (Option Scan)) [
          | none ↦ ok none
          | some t1 ↦ ok (some (advance (length s.watched_variables) t1))
        ]))
          ≡ ok (some t')
        → InTurn s c t'
    go (err e) q e' = absurd (ground (arith, e'))
    go (ok none) q e' = absurd (ground (arith, e'))
    go (ok (some t1)) q e' =
        let last : advance (length s.watched_variables) t1 ≡ t' = cc in
        let (same, kept, taken) = consider-Took p s t v t1 q in
        let one : dealt t1 ≡ suc (dealt t) =
          sym (dealt-advance (length s.watched_variables) t1) ∙ ap dealt last ∙ counted in
        subst (InTurn s c) last (stepped s c t v h more there i t1 one same kept taken)
