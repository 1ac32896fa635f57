-- ===== src/Memory/Cluster.antt =====
-- `Cluster` of scrutiny/core/memory_content.py: a run of bytes with the address of the first.
-- Addresses, offsets and sizes are natural numbers, so the guards against negative ones are void.
-- `internal_data` is `None` exactly when `has_data` is false: that is the empty list here.
pub mod Pieces
use scrutiny.Prelude.{
  ℕ, ◌+◌, ◌-◌, ◌≤◌, ◌<◌, ◌≡◌, refl, Bool, true, false, ◌&&◌, not, Option, none, some, List, [], ◌∷◌,
  ◌++◌, arith, Bytes, slice, length, get_elem?, take, drop, replicate, ltb, ◌==◌, if◌then◌else◌,
  Result, ok, err, index_error, exception, ◌>>=◌,
}

pub record Cluster : Type 0 where
  pub start_addr : ℕ
  pub size : ℕ
  pub has_data : Bool
  pub internal_data : Bytes

-- Cluster(start_addr, size, has_data, data)
unfoldable pub make : ℕ → ℕ → Bool → Bytes → Cluster
make start size has d = record {
  start_addr = start;
  size = size;
  has_data = has;
  internal_data = if has then d else [];
}

unfoldable pub read : Cluster → ℕ → ℕ → Result Bytes
read c offset size =
    if ltb c.size (offset + size)
    then err index_error
    else if c.has_data
    then ok (slice offset (offset + size) c.internal_data)
    else ok (replicate size 0)

-- The property `data`.
unfoldable pub all_data : Cluster → Result Bytes
unfolding read
all_data c = read c 0 c.size

-- bytes [offset, offset + n) of a list, replaced by the n bytes of `d`
abbrev pub splice : ℕ → Bytes → Bytes → Bytes
splice offset d l = take offset l ++ (d ++ drop (offset + length d) l)

unfoldable pub write : Cluster → Bytes → ℕ → Result Cluster
write c d offset =
    if ltb c.size (offset + length d)
    then err exception
    else ok
        (record c { internal_data = if c.has_data then splice offset d c.internal_data else [] })

unfoldable pub shrink : Cluster → ℕ → Cluster
shrink c n = record c {
  size = n;
  internal_data = if c.has_data then take n c.internal_data else c.internal_data;
}

extend_data : Cluster → ℕ → Bytes → Result Cluster
extend_data c new_size delta =
    if length delta == (new_size - c.size)
    then ok (record c { size = new_size; internal_data = c.internal_data ++ delta })
    else err exception

extend_from : Cluster → ℕ → Option Bytes → Result Cluster
unfolding extend_data
extend_from c new_size none =
    if c.has_data then err exception else ok (record c { size = new_size })
extend_from c new_size (some delta) =
    if c.has_data then extend_data c new_size delta else ok (record c { size = new_size })

unfoldable pub extend : Cluster → ℕ → Option Bytes → Result Cluster
unfolding extend_from
extend c new_size delta =
    if ltb new_size c.size then err exception else extend_from c new_size delta

-- `self + other`. The copy is shallow in the source, and `self` is dropped by the one caller.
unfoldable pub add : Cluster → Cluster → Result Cluster
unfolding all_data extend
add c other = do delta ← all_data other; extend c (c.size + other.size) (some delta)

-- `self[from:]`
unfoldable pub tail_from : Cluster → ℕ → Result Bytes
unfolding read
tail_from c offset = read c offset (c.size - offset)

-- The byte at an offset: zero where the content is not retained.
abbrev pub content : Cluster → ℕ → Option ℕ
content c i = if c.has_data then get_elem? c.internal_data i else some 0

-- The recorded size is the length of the data, and the cluster keeps data if its owner does.
pub record IsSound (retain : Bool) (c : Cluster) : Type 0 where
  pub keeps : c.has_data ≡ retain
  pub measured : length c.internal_data ≡ (if retain then c.size else 0)
