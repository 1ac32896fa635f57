-- ===== src/Memory/Contract.antt =====
-- What a `MemoryContent` (scrutiny/core/memory_content.py) promises its users: a partial map from
-- addresses to bytes, whatever clusters stand for it.
use scrutiny.Prelude.{
  ℕ, ◌+◌, ◌-◌, ◌<◌, ◌≡◌, refl, sym, ◌∙◌, subst, Bool, true, Option, some, none, List, [], arith, ok,
  Bytes, length, get_elem?, ltb, leb, ◌&&◌, if◌then◌else◌,
}
use scrutiny.Prelude.Dict.{get-empty}
use scrutiny.Memory.Cluster.{Cluster, make}
use scrutiny.Memory.Cluster.Pieces.{make-IsSound, content-make, start_addr-make, size-make}
use scrutiny.Memory.Content.{MemoryContent, new, read, write, delete}
use scrutiny.Memory.Blocks.{Holds, byte_at, find, Apart}
use scrutiny.Memory.Delete.Loop.{delete-Deleted}
use scrutiny.Memory.Write.Written.{write_cluster-Written}
use scrutiny.Memory.Read.{Answers, fetch, fetch-some, read-Answers}

-- The dict and the sorted keys agree, the clusters ascend, and no two of them overlap or touch.
pub record IsAgglomerated (m : MemoryContent) : Type 0 where
  pub blocks : List Cluster
  pub holds : Holds m blocks
  pub apart : Apart m.retain_data 1 0 blocks

-- The bytes of a state that is well formed.
abbrev pub bytes_of : {m : MemoryContent} → IsAgglomerated m → ℕ → Option ℕ
bytes_of w = byte_at w.blocks

abbrev pub in_range : ℕ → ℕ → ℕ → Bool
in_range addr size a = leb addr a && ltb a (addr + size)

unfoldable pub new-IsAgglomerated : (retain : Bool) → IsAgglomerated (new retain)
unfolding new find
new-IsAgglomerated retain = record {
  blocks = [];
  holds = record { keys = refl; dict = λ j. get-empty j };
  apart = tt;
}

-- From any well-formed state, `delete` returns a well-formed state (its loop ends): the bytes of
-- the range are gone, and each byte outside of it is the same.
pub delete-IsAgglomerated :
    (m : MemoryContent) (addr size : ℕ) (w : IsAgglomerated m)
    → (m' : MemoryContent) × (delete m addr size ≡ ok m')
      × ((w' : IsAgglomerated m') × ((a : ℕ)
            → bytes_of w' a ≡ (if in_range addr size a then none else bytes_of w a)))
delete-IsAgglomerated m addr size w =
    let (m', run, done) = delete-Deleted 1 addr size m w.blocks (omega arith) w.holds w.apart in
    (
      m',
      run,
      (
        record {
          blocks = done.after;
          holds = done.holds;
          apart = subst (λ r. Apart r 1 0 done.after) (sym done.retain) done.apart;
        },
        done.bytes,
      ),
    )

-- What the state holds at an offset of the data that was written: the data, or zeros where the
-- content is not retained.
abbrev pub stored : Bool → Bytes → ℕ → Option ℕ
stored retain d i = if retain then get_elem? d i else some 0

-- Writing a non-empty block into any well-formed state returns a well-formed state that retains its
-- data if the old one did: the block, or zeros where data is not retained, stands at its address, and
-- each byte outside of it is the same.
pub write-IsAgglomerated :
    (m : MemoryContent) (addr : ℕ) (d : Bytes) (w : IsAgglomerated m)
    → 0 < length d
    → (m' : MemoryContent) × (write m addr d ≡ ok m')
      × (m'.retain_data ≡ m.retain_data)
      × ((w' : IsAgglomerated m') × ((a : ℕ)
            → bytes_of w' a ≡ (
                if in_range addr (length d) a
                then stored m.retain_data d (a - addr)
                else bytes_of w a)))
unfolding write
write-IsAgglomerated m addr d w full =
    let r = m.retain_data in
    let c = make addr (length d) r d in
    let (m', run, done) =
      write_cluster-Written m w.blocks c w.holds w.apart (make-IsSound r addr (length d) d refl)
        (rw size-make full) in
    (
      m',
      run,
      done.retain,
      (
        record {
          blocks = done.after;
          holds = done.holds;
          apart = subst (λ r. Apart r 1 0 done.after) (sym done.retain) done.apart;
        },
        λ a. ground (
          arith,
          done.bytes a,
          start_addr-make r addr (length d) d,
          size-make r addr (length d) d,
          content-make r addr (length d) (a - addr) d,
        ),
      ),
    )

-- In a well-formed state `read` of a non-empty range returns the bytes of the range if every
-- address of it has one, and raises otherwise.
pub read-fetch :
    (m : MemoryContent) (addr n : ℕ) (w : IsAgglomerated m)
    → 0 < n
    → Answers (read m addr n) (fetch (bytes_of w) addr n)
read-fetch m addr n w p = read-Answers m w.blocks addr n w.holds w.apart p

-- Non-empty data that was written to a well-formed state that retains its data is read back.
pub read-write :
    (m : MemoryContent) (addr : ℕ) (d : Bytes)
    → IsAgglomerated m
    → m.retain_data ≡ true
    → 0 < length d
    → (m' : MemoryContent) × (write m addr d ≡ ok m') × (read m' addr (length d) ≡ ok d)
read-write m addr d w keeps full =
    let (m', run, retain, (w', bytes)) = write-IsAgglomerated m addr d w full in
    let there : fetch (bytes_of w') addr (length d) ≡ some d =
      fetch-some (bytes_of w') addr (length d) d refl (λ i p.
        bytes (addr + i)
        ∙ (let e : addr + i - addr ≡ i = omega arith in rw e (ground (arith, keeps)))) in
    (m', run, rw there at (read-fetch m' addr (length d) w' full))
