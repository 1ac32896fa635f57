-- ===== src/Memory/Emptied.antt =====
-- What `add_empty` of scrutiny/core/memory_content.py does to the bytes.
use scrutiny.Prelude.{
  ℕ, ◌-◌, ◌<◌, ◌≡◌, refl, sym, subst, Bool, true, false, some, [], arith, ok, Bytes, replicate,
  length-replicate, get_elem?-replicate, if◌then◌else◌,
}
use scrutiny.Memory.Cluster.{make, IsSound, content}
use scrutiny.Memory.Cluster.Pieces.{start_addr-make, size-make}
use scrutiny.Memory.Content.{MemoryContent, add_empty}
use scrutiny.Memory.Blocks.{Apart}
use scrutiny.Memory.Write.Written.{write_cluster-Written}
use scrutiny.Memory.Contract.{IsAgglomerated, bytes_of, in_range}

-- The bytes that `add_empty` writes.
abbrev zeros : Bool → ℕ → Bytes
zeros retain size = if retain then replicate size 0 else []

zeros-IsSound :
    (retain : Bool) (addr size : ℕ) → IsSound retain (make addr size retain (zeros retain size))
unfolding make
zeros-IsSound true addr size = record { keeps = refl; measured = length-replicate size 0 }
zeros-IsSound false addr size = record { keeps = refl; measured = refl }

content-zeros :
    (retain : Bool) (addr size i : ℕ)
    → i < size
    → content (make addr size retain (zeros retain size)) i ≡ some 0
unfolding make
content-zeros true addr size i h = get_elem?-replicate size i h
content-zeros false addr size i h = refl

-- From any well-formed state, adding an empty range of some bytes returns a well-formed state:
-- there are zeros in the range, and each byte outside of it is the same.
pub add_empty-IsAgglomerated :
    (m : MemoryContent) (addr size : ℕ) (w : IsAgglomerated m)
    → 0 < size
    → (m' : MemoryContent) × (add_empty m addr size ≡ ok m')
      × (m'.retain_data ≡ m.retain_data)
      × ((w' : IsAgglomerated m') × ((a : ℕ)
            → bytes_of w' a ≡ (if in_range addr size a then some 0 else bytes_of w a)))
unfolding add_empty
add_empty-IsAgglomerated m addr size w full =
    let r = m.retain_data in
    let c = make addr size r (zeros r size) in
    let (m', run, done) =
      write_cluster-Written m w.blocks c w.holds w.apart (zeros-IsSound r addr size)
        (rw size-make full) in
    (
      m',
      run,
      done.retain,
      (
        record {
          blocks = done.after;
          holds = done.holds;
          apart = subst (λ r. Apart r 1 0 done.after) (sym done.retain) done.apart;
        },
        λ a. ground (
          arith,
          done.bytes a,
          start_addr-make r addr size (zeros r size),
          size-make r addr size (zeros r size),
          content-zeros r addr size (a - addr),
        ),
      ),
    )
