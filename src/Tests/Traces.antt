-- ===== src/Tests/Traces.antt =====
-- Concrete checksums, blocks, segments, bit sets and filters.
use bigarchive.Prelude.{
  ℕ, ◌*◌, ◌%◌, ◌^◌, ◌≤◌, ◌≡◌, refl, Bool, true, false, ◌⊎◌, List, [], ◌∷◌, ◌++◌, Option, none, some,
  take, arith, ltb, ◌==◌, ◌&&◌, ◌||◌, not, replicate, All,
}
use bigarchive.Exception.{ok}
use bigarchive.Marshal.Stream.{IStream, good}
use bigarchive.Snapshot.BitSet
use bigarchive.Snapshot.BitSet.{BitSet, set_position, get_position}
use bigarchive.Snapshot.BitSet.Laws.{IsWellFormed, Sets, set_position-Sets, IsEmptyOf, test}
use bigarchive.Snapshot.BitSet.RoundTrip.{merge-serialize}
use bigarchive.Snapshot.Bloom
use bigarchive.Snapshot.Bloom.{BloomFilter, Doubles, exist, used, reset}
use bigarchive.Snapshot.Bloom.Positions.{IsReady, all_positions}
use bigarchive.Snapshot.Bloom.Members.{
  add_elements, exist-add_elements, is_position_of, exist_true-add_elements,
}
use bigarchive.Snapshot.Bloom.Resets.{reset_keeps_old}
use bigarchive.Snapshot.Trace.{
  Checksum, zero_checksum, Block, Segment, new_segment, Sha, finish, init, segment_to_stream,
  segment_from_stream, blocks_to_stream, load_fix_size, fix_segment_size,
}
use bigarchive.Snapshot.Trace.Blocks.{Fits, add_blocks, segment_from_stream-to_stream}
use bigarchive.Snapshot.Trace.MinHash.{sum_sizes}
use bigarchive.Snapshot.Trace.Loading.{
  remaining, behind, filled, load_fix_size-partition, load_fix_size-total,
}

-- a digest that keeps the first checksum it is given
abbrev pub first_sha : Sha
first_sha = record {
  Ctx = List ℕ;
  init = [];
  update = λ ctx bytes. ctx ++ bytes;
  final = λ ctx. take 20 ctx;
}

abbrev pub low : Checksum
low = replicate 20 1

abbrev pub high : Checksum
high = replicate 20 2

abbrev pub block_high : Block
block_high = record { size = 4096; file_id = 1; offset = 0; cksum = high }

abbrev pub block_low : Block
block_low = record { size = 8000; file_id = 1; offset = 4096; cksum = low }

abbrev pub block_empty : Block
block_empty = record { size = 0; file_id = 1; offset = 12096; cksum = high }

block_high-Fits : Fits block_high
block_high-Fits = record {
  cksum_fits = refl;
  file_id_fits = omega arith;
  size_fits = omega arith;
  offset_fits = omega arith;
}

pub block_low-Fits : Fits block_low
block_low-Fits = record {
  cksum_fits = refl;
  file_id_fits = omega arith;
  size_fits = omega arith;
  offset_fits = omega arith;
}

block_empty-Fits : Fits block_empty
block_empty-Fits = record {
  cksum_fits = refl;
  file_id_fits = omega arith;
  size_fits = omega arith;
  offset_fits = omega arith;
}

abbrev pub trace : List Block
trace = block_high ∷ block_empty ∷ block_low ∷ []

pub trace-Fits : All Fits trace
trace-Fits = (block_high-Fits, (block_empty-Fits, (block_low-Fits, tt)))

abbrev segment : Segment
segment = record { blocklist = trace; min_idx = 2; size = 12096; cksum = zero_checksum }

segment_from_stream-to_stream_example :
    segment_from_stream first_sha new_segment (good (segment_to_stream segment ++ 7 ∷ [])) ≡ (
      true,
      finish first_sha (add_blocks first_sha (init first_sha new_segment) trace),
      good (7 ∷ []),
    )
segment_from_stream-to_stream_example =
    segment_from_stream-to_stream first_sha segment new_segment (7 ∷ []) trace-Fits (omega arith)

load_fix_size-total_example :
    (r : Bool × Segment × IStream) × (load_fix_size first_sha new_segment (good (1 ∷ 2 ∷ []))
      ≡ some r)
load_fix_size-total_example = load_fix_size-total first_sha new_segment (good (1 ∷ 2 ∷ []))

load_fix_size-partition_example :
    (taken : List Block) × (rest : Option (List Block)) × (load_fix_size first_sha new_segment
        (good (blocks_to_stream trace))
      ≡ (let seg = finish first_sha (add_blocks first_sha (init first_sha new_segment) taken) in
          some (not (seg.size == 0), seg, behind rest)))
    × (taken ++ remaining rest ≡ filled trace)
    × ((rest ≡ none) ⊎ (fix_segment_size ≤ sum_sizes taken % 2 ^ 32))
load_fix_size-partition_example = load_fix_size-partition first_sha new_segment trace trace-Fits

abbrev bits : BitSet
bits = record { bits_space = 0 ∷ 128 ∷ []; total_bits = 16; max_total_bits = 16 }

bits-IsWellFormed : IsWellFormed bits
bits-IsWellFormed = record {
  bytes = (omega arith, (omega arith, tt));
  room = omega arith;
  max_room = omega arith;
}

set_position-Sets_example : (b' : BitSet) × (set_position bits 3 ≡ ok b') × Sets bits 3 b'
set_position-Sets_example = set_position-Sets bits 3 bits-IsWellFormed (omega arith)

merge-serialize_example :
    (b' : BitSet) × (BitSet.merge bits (good (BitSet.serialize bits ++ [])) ≡ (true, b', good []))
    × IsWellFormed b'
    × (b'.total_bits ≡ bits.total_bits)
    × (test b' 8 ≡ (test bits 8 && test bits 8))
merge-serialize_example =
    merge-serialize bits bits [] 8 bits-IsWellFormed bits-IsWellFormed refl (omega arith)
      (omega arith)

abbrev filter : BloomFilter ℕ
filter = record {
  bits_space = bits;
  total_bits = 16;
  hash_functions = (λ n. n) ∷ (λ n. n * 7) ∷ [];
  hash_function_num = 2;
}

filter-IsReady : IsReady filter
filter-IsReady = record {
  well_formed = bits-IsWellFormed;
  same_total = refl;
  positive = omega arith;
}

exist-add_elements_example :
    (f' : BloomFilter ℕ) × (add_elements filter ((5 ∷ []) ++ 11 ∷ 3 ∷ []) ≡ ok f')
    × (exist f' 11 ≡ ok true)
exist-add_elements_example = exist-add_elements filter (5 ∷ []) (3 ∷ []) 11 filter-IsReady

exist_true-add_elements_example :
    (f' : BloomFilter ℕ) × (add_elements filter (5 ∷ []) ≡ ok f')
    × (exist f' 6
        ≡ ok (
            all_positions filter.total_bits 6 (used filter) (λ q.
              test filter.bits_space q
              || is_position_of filter.total_bits (5 ∷ []) (used filter) q)))
exist_true-add_elements_example = exist_true-add_elements filter (5 ∷ []) 6 filter-IsReady

reset_keeps_old_example :
    (f' : BloomFilter ℕ) × (reset filter ((λ n. n * 3) ∷ []) 1 ≡ ok f')
    × IsReady f'
    × IsEmptyOf filter.total_bits f'.bits_space
    × (used f' ≡ take 1 filter.hash_functions)
reset_keeps_old_example =
    reset_keeps_old filter ((λ n. n * 3) ∷ []) 1 filter-IsReady (omega arith) (omega arith)

abbrev eight_bits : Doubles
eight_bits = record {
  Double = ℕ;
  below_zero = λ p. false;
  above_one = λ p. ltb 1 p;
  bits_for = λ k n p. 8 * n;
}
