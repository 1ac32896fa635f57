-- ===== src/Memory/Tests.antt =====
-- A memory with two clusters (scrutiny/core/memory_content.py) under the operations.
use scrutiny.Prelude.{
  ℕ, ◌-◌, ◌≡◌, refl, true, none, some, [], ◌∷◌, arith, ok, err, key_error, Bytes, if◌then◌else◌,
}
use scrutiny.Prelude.Dict
use scrutiny.Memory.Cluster.{Cluster}
use scrutiny.Memory.Content.{MemoryContent, read, write, delete}
use scrutiny.Memory.Blocks.{Holds, find}
use scrutiny.Memory.Read.{Answers, fetch}
use scrutiny.Memory.Contract.{
  IsAgglomerated, bytes_of, in_range, stored, delete-IsAgglomerated, write-IsAgglomerated,
  read-fetch, read-write,
}
use scrutiny.Memory.EmptyWrite.{write-empty}

abbrev low : Cluster
low = record { start_addr = 100; size = 3; has_data = true; internal_data = 1 ∷ 2 ∷ 3 ∷ [] }

abbrev high : Cluster
high = record { start_addr = 110; size = 2; has_data = true; internal_data = 8 ∷ 9 ∷ [] }

abbrev memory : MemoryContent
memory = record {
  clusters = Dict.put (Dict.put Dict.empty 110 high) 100 low;
  sorted_keys = 100 ∷ 110 ∷ [];
  retain_data = true;
}

memory-Holds : Holds memory (low ∷ high ∷ [])
unfolding find
memory-Holds = record {
  keys = refl;
  dict = λ j. ground (
    arith,
    Dict.get-put (Dict.put Dict.empty 110 high) 100 j low,
    Dict.get-put Dict.empty 110 j high,
    Dict.get-empty {V = Cluster} j,
  );
}

abbrev memory-IsAgglomerated : IsAgglomerated memory
memory-IsAgglomerated = record {
  blocks = low ∷ high ∷ [];
  holds = memory-Holds;
  apart = (
    omega arith,
    omega arith,
    record { keeps = refl; measured = refl },
    (omega arith, omega arith, record { keeps = refl; measured = refl }, tt),
  );
}

abbrev three_bytes : Bytes
three_bytes = 4 ∷ 5 ∷ 6 ∷ []

-- Three bytes into the end of the first cluster and behind it.
write-IsAgglomerated_example :
    (m' : MemoryContent) × (write memory 102 three_bytes ≡ ok m')
    × (m'.retain_data ≡ true)
    × ((w' : IsAgglomerated m') × ((a : ℕ)
          → bytes_of w' a ≡ (
              if in_range 102 3 a
              then stored true three_bytes (a - 102)
              else bytes_of memory-IsAgglomerated a)))
write-IsAgglomerated_example =
    write-IsAgglomerated memory 102 three_bytes memory-IsAgglomerated (omega arith)

read-write_example :
    (m' : MemoryContent) × (write memory 108 three_bytes ≡ ok m') × (read m' 108 3 ≡ ok three_bytes)
read-write_example = read-write memory 108 three_bytes memory-IsAgglomerated refl (omega arith)

-- From the middle of the first cluster into the second one.
delete-IsAgglomerated_example :
    (m' : MemoryContent) × (delete memory 101 10 ≡ ok m')
    × ((w' : IsAgglomerated m') × ((a : ℕ)
          → bytes_of w' a ≡ (if in_range 101 10 a then none else bytes_of memory-IsAgglomerated a)))
delete-IsAgglomerated_example = delete-IsAgglomerated memory 101 10 memory-IsAgglomerated

read-fetch_example : Answers (read memory 101 2) (fetch (bytes_of memory-IsAgglomerated) 101 2)
read-fetch_example = read-fetch memory 101 2 memory-IsAgglomerated (omega arith)

second_there : Dict.get memory.clusters 110 ≡ some high
unfolding Dict.get Dict.put Dict.empty
second_there = refl

write-empty_example : write memory 110 [] ≡ err key_error
write-empty_example = write-empty memory 110 memory-IsAgglomerated second_there
