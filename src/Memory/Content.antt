-- ===== src/Memory/Content.antt =====
-- `MemoryContent` of scrutiny/core/memory_content.py: clusters in a dict, and their sorted keys.
-- A bound that the source writes inclusively (`block_end`) is written here one past the end.
use scrutiny.Prelude.{
  ℕ, zero, suc, ◌+◌, ◌-◌, Bool, true, false, Option, none, some, List, [], ◌∷◌, min, max, Bytes,
  length, get_elem?, set, insert_at, erase_at, replicate, ltb, leb, ◌==◌, if◌then◌else◌, Result, ok,
  err, value_error, index_error, key_error, out_of_fuel, ◌>>=◌,
}
use scrutiny.Prelude.Dict
use scrutiny.Prelude.Dict.{Dict}
use scrutiny.Memory.Cluster
use scrutiny.Memory.Cluster.{Cluster}

pub record MemoryContent : Type 0 where
  pub clusters : Dict Cluster
  pub sorted_keys : List ℕ
  pub retain_data : Bool

unfoldable pub new : Bool → MemoryContent
new retain = record { clusters = Dict.empty; sorted_keys = []; retain_data = retain }

-- bisect.bisect: where to insert behind the equal keys of a sorted list.
unfoldable pub bisect : List ℕ → ℕ → ℕ
bisect [] x = 0
bisect (k ∷ ks) x = let rest = bisect ks x in if leb k x then suc rest else 0

-- self.sorted_keys[i]
abbrev pub key_at : MemoryContent → ℕ → Result ℕ
key_at m i = elim (get_elem? m.sorted_keys i) [ none ↦ err index_error | some k ↦ ok k ]

-- self.clusters[k]
abbrev pub cluster_at : MemoryContent → ℕ → Result Cluster
cluster_at m k = elim (Dict.get m.clusters k) [ none ↦ err key_error | some c ↦ ok c ]

unfoldable pub read : MemoryContent → ℕ → ℕ → Result Bytes
read m addr n =
    let x = bisect m.sorted_keys addr in
    if x == 0 then err value_error else do
      addr_start ← key_at m (x - 1)
      c ← cluster_at m addr_start
      Cluster.read c (addr - addr_start) n

-- del self.clusters[key]; del self.sorted_keys[i]
unfoldable pub delete_around : MemoryContent → ℕ → ℕ → MemoryContent
delete_around m i key = record m {
  clusters = Dict.remove m.clusters key;
  sorted_keys = erase_at m.sorted_keys i;
}

-- The head of the cluster goes: the rest moves to a key of its own.
unfoldable pub delete_begin : MemoryContent → ℕ → ℕ → Cluster → ℕ → ℕ → Result MemoryContent
delete_begin m i key c new_start new_offset = do
  new_data ← Cluster.tail_from c new_offset
  let rest = Cluster.make new_start (c.size - new_offset) m.retain_data new_data
  ok (record m {
    clusters = Dict.put (Dict.remove m.clusters key) new_start rest;
    sorted_keys = set m.sorted_keys i new_start;
  })

unfoldable pub delete_end : MemoryContent → ℕ → Cluster → ℕ → MemoryContent
delete_end m key c new_size = record m {
  clusters = Dict.put m.clusters key (Cluster.shrink c new_size);
}

-- A piece inside the cluster goes: what follows it gets a key of its own.
unfoldable pub delete_within : MemoryContent → ℕ → ℕ → Cluster → ℕ → ℕ → ℕ → Result MemoryContent
delete_within m i key c chunk_start chunk_size new_size = do
  chunk_data ← Cluster.read c (chunk_start - key) chunk_size
  let chunk = Cluster.make chunk_start chunk_size m.retain_data chunk_data
  ok (record m {
    clusters = Dict.put (Dict.put m.clusters key (Cluster.shrink c new_size)) chunk_start chunk;
    sorted_keys = insert_at m.sorted_keys (suc i) chunk_start;
  })

-- The four kinds of deletion from the cluster at index `i`.
unfoldable pub delete_from : MemoryContent → ℕ → ℕ → ℕ → ℕ → Cluster → Result MemoryContent
delete_from m addr size i key c =
    let cluster_stop = key + c.size in
    let delete_start = max key addr in
    let delete_stop = min cluster_stop (addr + size) in
    if leb delete_start key
    then (if leb cluster_stop delete_stop
        then ok (delete_around m i key)
        else delete_begin m i key c delete_stop (size - (delete_start - addr)))
    else (if leb cluster_stop delete_stop
        then ok (delete_end m key c (delete_stop - 1 - key))
        else delete_within m i key c delete_stop (cluster_stop - delete_stop) (delete_start - key))

unfoldable pub delete_at : MemoryContent → ℕ → ℕ → ℕ → Result MemoryContent
delete_at m addr size i = do key ← key_at m i; c ← cluster_at m key; delete_from m addr size i key c

-- One round of the loop, from the cluster that `bisect` points at: the next state, or `none` for
-- `break`.
unfoldable pub delete_near : MemoryContent → ℕ → ℕ → ℕ → ℕ → Cluster → Result (Option MemoryContent)
delete_near m addr size index block_start block =
    let start_in_block = ltb addr (block_start + block.size) in
    let here = (do m' ← delete_at m addr size index; ok (some m')) in
    let after = (do
      next ← key_at m (index + 1)
      if leb next (addr + size - 1)
          then (do m' ← delete_at m addr size (index + 1); ok (some m'))
          else ok none) in
    if ltb (addr + size - 1) block_start
    then ok none
    else if start_in_block
    then here
    else if leb (length m.sorted_keys - 1) index
    then ok none
    else after

unfoldable pub delete_round : MemoryContent → ℕ → ℕ → Result (Option MemoryContent)
delete_round m addr size =
    let index = bisect m.sorted_keys addr - 1 in
    if length m.sorted_keys == 0 then ok none else do
      block_start ← key_at m index
      block ← cluster_at m block_start
      delete_near m addr size index block_start block

-- `while True`, on fuel.
unfoldable pub delete_loop : ℕ → MemoryContent → ℕ → ℕ → Result MemoryContent
delete_loop zero m addr size = err out_of_fuel
delete_loop (suc fuel) m addr size = elim (delete_round m addr size) [
  | err e ↦ err e
  | ok none ↦ ok m
  | ok (some m') ↦ delete_loop fuel m' addr size
]

-- Each round takes a byte of the range away, so `size + 1` rounds are enough.
unfoldable pub delete : MemoryContent → ℕ → ℕ → Result MemoryContent
delete m addr size = if size == 0 then ok m else delete_loop (suc size) m addr size

-- `self.clusters[k] += self.clusters[k']`, and k' goes.
unfoldable pub merge_next : MemoryContent → ℕ → ℕ → ℕ → Result MemoryContent
merge_next m i start1 start2 = do
  c1 ← cluster_at m start1
  c2 ← cluster_at m start2
  c ← Cluster.add c1 c2
  ok (record m {
    clusters = Dict.remove (Dict.put m.clusters start1 c) start2;
    sorted_keys = erase_at m.sorted_keys (suc i);
  })

-- Whether the clusters at `i` and `i + 1` touch, with their keys.
unfoldable pub touching : MemoryContent → ℕ → Result (Option (ℕ × ℕ))
touching m i = do
  start1 ← key_at m i
  c1 ← cluster_at m start1
  if ltb i (length m.sorted_keys - 1)
      then (do
        start2 ← key_at m (suc i)
        c2 ← cluster_at m start2
        if leb start2 (start1 + c1.size) then ok (some (start1, start2)) else ok none)
      else ok none

-- `limit` holds the merges that are left until `merge_done >= 2` stops the loop.
unfoldable pub agglomerate_loop : ℕ → MemoryContent → ℕ → Option ℕ → Result MemoryContent
agglomerate_loop zero m i limit = err out_of_fuel
agglomerate_loop (suc fuel) m i limit = elim (ltb i (length m.sorted_keys)) [
  | false ↦ ok m
  | true ↦ elim (touching m i) [
    | err e ↦ err e
    | ok none ↦ agglomerate_loop fuel m (suc i) limit
    | ok (some (start1, start2)) ↦ elim (merge_next m i start1 start2) [
      | err e ↦ err e
      | ok m' ↦ elim limit [
        | none ↦ agglomerate_loop fuel m' i none
        | some left ↦ elim (leb left 1) [
          | true ↦ ok m'
          | false ↦ agglomerate_loop fuel m' i (some (left - 1))
        ]
      ]
    ]
  ]
]

-- Each round drops a key or passes one.
unfoldable pub agglomerate : MemoryContent → Option ℕ → Result MemoryContent
agglomerate m none = agglomerate_loop (suc (length m.sorted_keys)) m 0 none
agglomerate m (some i) = agglomerate_loop (suc (length m.sorted_keys)) m (i - 1) (some 2)

unfoldable pub insert : MemoryContent → ℕ → Cluster → MemoryContent
insert m i c = record m {
  sorted_keys = insert_at m.sorted_keys i c.start_addr;
  clusters = Dict.put m.clusters c.start_addr c;
}

unfoldable pub write_cluster : MemoryContent → Cluster → Result MemoryContent
unfolding insert
write_cluster m c = do
  m' ← delete m c.start_addr c.size
  let i = bisect m'.sorted_keys c.start_addr
  agglomerate (insert m' i c) (some i)

unfoldable pub write : MemoryContent → ℕ → Bytes → Result MemoryContent
unfolding write_cluster
write m addr d = write_cluster m (Cluster.make addr (length d) m.retain_data d)

unfoldable pub add_empty : MemoryContent → ℕ → ℕ → Result MemoryContent
unfolding write_cluster
add_empty m addr size =
    let d = if m.retain_data then replicate size 0 else [] in
    write_cluster m (Cluster.make addr size m.retain_data d)

unfoldable pub get_cluster_count : MemoryContent → ℕ
get_cluster_count m = Dict.count m.clusters
