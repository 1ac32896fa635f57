-- ===== src/Reader/Asking.antt =====
-- The request that `make_next_var_entries_request` (memory_reader.py) builds from its last state.
use scrutiny.Prelude.{
  ℕ, ◌+◌, ◌*◌, ◌/◌, ◌<◌, ◌≤◌, ◌≡◌, refl, sym, ap, ◌∙◌, false, Option, some, none, List, [], ◌∷◌,
  map, arith, length, length-map, All, ok,
}
use scrutiny.Protocol.Commands.{Command}
use scrutiny.Protocol.Request
use scrutiny.Protocol.Request.{Request}
use scrutiny.Protocol.MemoryControl.{
  AddressFormat, get_address_size_bytes, read_memory_blocks, total_length,
}
use scrutiny.Protocol.MemoryControl.Listing.{
  AllShort, plain_ranges, encode_ranges-plain, length-plain_ranges,
}
use scrutiny.Memory.Cluster.{Cluster}
use scrutiny.Reader.State.{Variable, Protocol, MemoryReader}
use scrutiny.Reader.Variables.{
  Scan, block_of, ask, response_payload_size, read_memory_request_size_per_block,
}
use scrutiny.Reader.Gathering.{covers, reads, Gathered, Gathered-covers}
use scrutiny.Reader.Fullness.{asks_for, asks_for-block_of, answer_size}

blocks-AllShort :
    (f : AddressFormat) (cs : List Cluster) (limit : ℕ)
    → response_payload_size f cs ≤ limit
    → limit < 65536
    → AllShort (map block_of cs)
unfolding response_payload_size
blocks-AllShort f [] limit h short = tt
blocks-AllShort f (c ∷ cs) limit h short =
    (omega arith, blocks-AllShort f cs limit (omega arith) short)

-- As many blocks as the limit has room for are no longer than the limit.
within_limit :
    (f : AddressFormat) (limit n : ℕ)
    → n ≤ limit / read_memory_request_size_per_block f
    → (get_address_size_bytes f + 2) * n ≤ limit
unfolding read_memory_request_size_per_block
within_limit AddressFormat.bits_8 limit n h = omega arith
within_limit AddressFormat.bits_16 limit n h = omega arith
within_limit AddressFormat.bits_32 limit n h = omega arith
within_limit AddressFormat.bits_64 limit n h = omega arith

-- The request reads the bytes of the entries and no others, and it and its answer fit the device.
abbrev pub Asked : Protocol → MemoryReader → List Variable → Option Request → Type 0
Asked p s entries none = entries ≡ []
Asked p s entries (some q) =
    (blocks : List (ℕ × ℕ)) × (read_memory_blocks p.address_format blocks ≡ ok q)
    × ((x : ℕ) → asks_for blocks x ≡ reads entries x)
    × (Request.data_size q ≤ s.max_request_payload_size)
    × (Request.get_expected_response_data_size q ≤ s.max_response_payload_size)

reads_nothing :
    (vs : List Variable)
    → ((x : ℕ) → reads vs x ≡ false)
    → All (λ (v : Variable). 0 < v.size) vs
    → vs ≡ []
unfolding reads
reads_nothing [] h full = refl
reads_nothing (v ∷ vs) h full = absurd (ground (arith, h v.address, full.0))

ask-some :
    (f : AddressFormat) (c : Cluster) (cs : List Cluster) (q : Request)
    → read_memory_blocks f (map block_of (c ∷ cs)) ≡ ok q
    → ask f (map block_of (c ∷ cs)) ≡ ok (some q)
unfolding ask
ask-some f c cs q h = rw h refl

module _ (p : Protocol) (s : MemoryReader) (t : Scan) (g : Gathered p s t)
    (short : s.max_response_payload_size < 65536) where
  abbrev ranges : List (ℕ × ℕ)
  ranges = map block_of t.clusters_in_request

  short_blocks : AllShort ranges
  short_blocks =
      blocks-AllShort p.address_format t.clusters_in_request s.max_response_payload_size g.small
        short

  request : Request
  request = record {
    command = Command.memory_control;
    subfn = 1;
    payload = plain_ranges p.address_format ranges;
    response_payload_size =
        (get_address_size_bytes p.address_format + 2) * length ranges + total_length ranges;
  }

  built : read_memory_blocks p.address_format ranges ≡ ok request
  unfolding read_memory_blocks request
  built = rw (encode_ranges-plain p.address_format ranges short_blocks) refl

  request-Asked : Asked p s t.entries_in_request (some request)
  unfolding request Request.data_size Request.get_expected_response_data_size
  request-Asked = (
    ranges,
    built,
    λ x. asks_for-block_of t.clusters_in_request x ∙ Gathered-covers p s t x g,
    (let count : length ranges ≡ length t.clusters_in_request =
          length-map block_of t.clusters_in_request in
        let room =
          within_limit p.address_format s.max_request_payload_size (length ranges)
            (omega (arith, count, g.few)) in
        omega (arith, length-plain_ranges p.address_format ranges, room)),
    omega (arith, answer_size p.address_format t.clusters_in_request, g.small),
  )

  pub ask-Asked :
      (out : Option Request) × (ask p.address_format ranges ≡ ok out)
      × Asked p s t.entries_in_request out
  ask-Asked = go t.clusters_in_request refl
    where
      go :
          (cs : List Cluster)
          → t.clusters_in_request ≡ cs
          → (out : Option Request) × (ask p.address_format ranges ≡ ok out)
            × Asked p s t.entries_in_request out
      go [] e = (
        none,
        unfold ask in rw e refl,
        reads_nothing t.entries_in_request
            (λ x.
              sym (Gathered-covers p s t x g)
              ∙ ap (λ (cs : List Cluster). covers cs x) e
              ∙ (unfold covers in refl))
            g.full,
      )
      go (c ∷ cs) e = (
        some request,
        ap (λ (l : List Cluster). ask p.address_format (map block_of l)) e
            ∙ ask-some p.address_format c cs request (
                ap (λ (l : List Cluster). read_memory_blocks p.address_format (map block_of l))
                  (sym e)
                ∙ built),
        request-Asked,
      )
