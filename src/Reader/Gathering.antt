-- ===== src/Reader/Gathering.antt =====
-- What the loop of `make_next_var_entries_request` (memory_reader.py) has gathered after any round.
use scrutiny.Prelude.{
  ℕ, suc, ◌+◌, ◌/◌, ◌<◌, ◌≤◌, ◌≡◌, refl, sym, ap, ◌∙◌, subst, Bool, true, false, ◌&&◌, ◌||◌, Option,
  some, none, List, [], ◌∷◌, ◌++◌, map, arith, inl, inr, length, length-append, ltb, leb,
  if◌then◌else◌, All, All-append, Bool-cases, if-cases, ltb→le, Result, ok, err, ◌>>=◌,
}
use scrutiny.Memory.Cluster
use scrutiny.Memory.Cluster.{Cluster, IsSound}
use scrutiny.Memory.Content.{MemoryContent, new}
use scrutiny.Memory.Blocks.{byte_at, Apart, stop}
use scrutiny.Memory.Contract.{IsAgglomerated, bytes_of, in_range, new-IsAgglomerated}
use scrutiny.Memory.Emptied.{add_empty-IsAgglomerated}
use scrutiny.Memory.Listing.{bare, bare_of, listing, get_cluster_list_no_data_by_address}
use scrutiny.Reader.State.{Variable, Protocol, MemoryReader}
use scrutiny.Reader.Variables.{
  Scan, dealt, advance, fit, consider, visit, first_scan, touches_any, region_of,
  response_payload_size, read_memory_request_size_per_block, entry_at,
}
use scrutiny.Reader.Loop.{Keeps}

-- Whether an address is in one of the clusters, or in one of the entries.
unfoldable pub covers : List Cluster → ℕ → Bool
covers [] x = false
covers (c ∷ cs) x = (leb c.start_addr x && ltb x (stop c)) || covers cs x

unfoldable pub reads : List Variable → ℕ → Bool
reads [] x = false
reads (v ∷ vs) x = in_range v.address v.size x || reads vs x

pub reads-append_one :
    (vs : List Variable) (v : Variable) (x : ℕ)
    → reads (vs ++ (v ∷ [])) x ≡ (if in_range v.address v.size x then true else reads vs x)
unfolding reads
reads-append_one [] v x = ground arith
reads-append_one (u ∷ vs) v x = ground (arith, reads-append_one vs v x)

-- Where data is not retained the bytes say which addresses are covered.
covers-byte_at :
    (gap lo : ℕ) (bs : List Cluster) (x : ℕ)
    → Apart false gap lo bs
    → byte_at bs x ≡ (if covers bs x then some 0 else none)
unfolding covers byte_at
covers-byte_at gap lo [] x s = refl
covers-byte_at gap lo (c ∷ cs) x s =
    ground (arith, s.2.keeps, covers-byte_at gap (stop c + gap) cs x s.3)

pub covers-bare : (bs : List Cluster) (x : ℕ) → covers (map bare_of bs) x ≡ covers bs x
unfolding covers bare Cluster.make
covers-bare [] x = refl
covers-bare (c ∷ cs) x = ground (arith, covers-bare cs x)

-- The listed blocks of a memory without data are the addresses that have a byte.
pub block_bytes :
    (m : MemoryContent) (w : IsAgglomerated m) (x : ℕ) (b : Bool)
    → m.retain_data ≡ false
    → bytes_of w x ≡ (if b then some 0 else none)
    → covers (map bare_of w.blocks) x ≡ b
block_bytes m w x b keeps h =
    covers-bare w.blocks x
    ∙ same_test (covers w.blocks x) b
        (sym (covers-byte_at 1 0 w.blocks x (subst (λ r. Apart r 1 0 w.blocks) keeps w.apart)) ∙ h)
  where
    same_test :
        (a b : Bool)
        → ◌≡◌ {A = Option ℕ} (if a then some 0 else none) (if b then some 0 else none)
        → a ≡ b
    same_test a b h = ground (arith, h)

pub dealt-advance : (n : ℕ) (t : Scan) → dealt (advance n t) ≡ dealt t
unfolding advance
dealt-advance n t = ground arith

module _ (p : Protocol) (s : MemoryReader) where
  abbrev pub max_blocks : ℕ
  max_blocks = s.max_request_payload_size / read_memory_request_size_per_block p.address_format

  pub record Gathered (t : Scan) : Type 0 where
    pub keeps : t.memory_to_read.retain_data ≡ false
    pub sound : IsAgglomerated t.memory_to_read
    pub listed : t.clusters_in_request ≡ map bare_of sound.blocks
    pub filled :
        (x : ℕ) → bytes_of sound x ≡ (if reads t.entries_in_request x then some 0 else none)
    pub few : length t.clusters_in_request ≤ max_blocks
    pub small :
        response_payload_size p.address_format t.clusters_in_request ≤ s.max_response_payload_size
    pub clear :
        All
          (λ (v : Variable). touches_any (region_of v) s.forbidden_regions ≡ false)
          t.entries_in_request
    pub full : All (λ (v : Variable). 0 < v.size) t.entries_in_request

  pub first-Gathered : Gathered (first_scan s)
  unfolding new reads response_payload_size new-IsAgglomerated byte_at
  first-Gathered = record {
    keeps = refl;
    sound = new-IsAgglomerated false;
    listed = refl;
    filled = λ x. refl;
    few = omega arith;
    small = omega arith;
    clear = tt;
    full = tt;
  }

  -- The cursor does not matter.
  moved :
      (t : Scan) (cursor : ℕ) (wrapped : Bool)
      → Gathered t
      → Gathered (record t { cursor = cursor; wrapped = wrapped })
  moved t cursor wrapped g = record {
    keeps = g.keeps;
    sound = g.sound;
    listed = g.listed;
    filled = g.filled;
    few = g.few;
    small = g.small;
    clear = g.clear;
    full = g.full;
  }

  advance-Gathered : (n : ℕ) (t : Scan) → Gathered t → Gathered (advance n t)
  unfolding advance
  advance-Gathered n t g =
      if-cases Gathered (leb n (suc t.cursor)) _ _ (λ e. moved t 0 true g)
        (λ e. moved t (suc t.cursor) t.wrapped g)

  skipped-Gathered :
      (t : Scan)
      → Gathered t
      → Gathered (record t { skipped_entries_count = suc t.skipped_entries_count })
  skipped-Gathered t g = record {
    keeps = g.keeps;
    sound = g.sound;
    listed = g.listed;
    filled = g.filled;
    few = g.few;
    small = g.small;
    clear = g.clear;
    full = g.full;
  }

  -- What `fit` promises of the next state.
  abbrev Fitted : Scan → Option Scan → Type 0
  Fitted t none = Unit
  Fitted t (some t') = Gathered t' × (dealt t' ≡ suc (dealt t))

  fit-Fitted :
      (t : Scan) (v : Variable) (m : MemoryContent) (w : IsAgglomerated m)
      → Gathered t
      → m.retain_data ≡ false
      → touches_any (region_of v) s.forbidden_regions ≡ false
      → 0 < v.size
      → ((x : ℕ)
          → bytes_of w x ≡ (if reads (t.entries_in_request ++ (v ∷ [])) x then some 0 else none))
      → Fitted t (fit p s t v m)
  unfolding fit
  fit-Fitted t v m w g keeps clear full filled =
      let f = p.address_format in
      let cs = get_cluster_list_no_data_by_address m in
      if-cases (Fitted t) (ltb max_blocks (length cs)) _ _ (λ e. tt)
        (λ e.
          if-cases (Fitted t) (ltb s.max_response_payload_size (response_payload_size f cs)) _ _
            (λ e'. tt)
            (λ e'. (
              record {
                keeps = keeps;
                sound = w;
                listed = listing m w.blocks w.holds w.apart;
                filled = filled;
                few = ltb→le _ _ e;
                small = ltb→le _ _ e';
                clear =
                    All-append
                      (λ (v : Variable). touches_any (region_of v) s.forbidden_regions ≡ false)
                      t.entries_in_request (v ∷ []) g.clear (clear, tt);
                full =
                    All-append (λ (v : Variable). 0 < v.size) t.entries_in_request (v ∷ []) g.full
                      (full, tt);
              },
              omega (arith, length-append t.entries_in_request (v ∷ [])),
            )))

  Fitted-Keeps : (t : Scan) (o : Option Scan) → Fitted t o → Keeps dealt Gathered t (ok o)
  Fitted-Keeps t none h = tt
  Fitted-Keeps t (some t') h = h

  -- A candidate of some bytes never makes the memory raise.
  consider-Gathered :
      (t : Scan) (v : Variable)
      → 0 < v.size
      → Gathered t
      → Keeps dealt Gathered t (consider p s t v)
  unfolding consider
  consider-Gathered t v full g = elim (Bool-cases (touches_any (region_of v) s.forbidden_regions)) [
    | inl e ↦ rw e (skipped-Gathered t g, omega arith)
    | inr e ↦
        let (m, run, keeps, (w, bytes)) =
          add_empty-IsAgglomerated t.memory_to_read v.address v.size g.sound full in
        rw e (
          rw run (
            Fitted-Keeps t _ (
              fit-Fitted t v m w g (keeps ∙ g.keeps) e full (λ x.
                ground (arith, bytes x, g.filled x, reads-append_one t.entries_in_request v x)))))
  ]

  -- A round from a cursor in bounds.
  pub visit-Gathered :
      (t : Scan) (v : Variable)
      → entry_at s.watched_variables t.cursor ≡ ok v
      → 0 < v.size
      → Gathered t
      → Keeps dealt Gathered t (visit p s t)
  unfolding visit
  visit-Gathered t v there full g = rw there (go (consider p s t v) (consider-Gathered t v full g))
    where
      go :
          (r : Result (Option Scan))
          → Keeps dealt Gathered t r
          → Keeps dealt Gathered t (
              r >>= (λ o. elim o [
                | none ↦ ok none
                | some t' ↦ ok (some (advance (length s.watched_variables) t'))
              ]))
      go (err e) k = k
      go (ok none) k = k
      go (ok (some t')) k = (
        advance-Gathered (length s.watched_variables) t' k.0,
        dealt-advance (length s.watched_variables) t' ∙ k.1,
      )

  -- The blocks are the addresses of the entries.
  pub Gathered-covers :
      (t : Scan) (x : ℕ)
      → Gathered t
      → covers t.clusters_in_request x ≡ reads t.entries_in_request x
  Gathered-covers t x g =
      ap (λ (cs : List Cluster). covers cs x) g.listed
      ∙ block_bytes t.memory_to_read g.sound x (reads t.entries_in_request x) g.keeps (g.filled x)
