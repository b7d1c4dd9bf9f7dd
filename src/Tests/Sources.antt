-- ===== src/Tests/Sources.antt =====
-- A data source over a short trace and sample data of zeros.
use bigarchive.Prelude.{
  ℕ, ◌≡◌, refl, true, false, ◌⊎◌, List, [], ◌∷◌, ◌++◌, Option, some, arith, length, replicate,
  length-replicate,
}
use bigarchive.Marshal.Stream.{good}
use bigarchive.Snapshot.Trace.{Block, blocks_to_stream}
use bigarchive.Snapshot.Trace.Loading.{remaining, behind, filled}
use bigarchive.Snapshot.Types.{SegmentMeta, new_segment_meta}
use bigarchive.Snapshot.DataSource
use bigarchive.Snapshot.DataSource.{DataSource, sample_size, get_segment}
use bigarchive.Snapshot.DataSource.Segments.{get_segment-Describes}
use bigarchive.Snapshot.DataSource.Layout.{Describes}
use bigarchive.Snapshot.DataSource.Opening.{IsOpen, new-IsOpen}
use bigarchive.Tests.Traces.{
  first_sha, trace, trace-Fits, block_high, block_empty, block_low, block_low-Fits,
}

unfoldable zeros_of : ℕ → List ℕ
zeros_of n = replicate n 0

length-zeros_of : (n : ℕ) → length (zeros_of n) ≡ n
unfolding zeros_of
length-zeros_of n = length-replicate n 0

abbrev zeros : List ℕ
zeros = zeros_of sample_size

abbrev source : DataSource
source = record {
  sample_data = some zeros;
  trace_stream = good (blocks_to_stream trace);
  snapshot_size = 12096;
}

get_segment-Describes_example :
    (taken : List Block) × (rest : Option (List Block)) × (taken ++ remaining rest ≡ filled trace)
    × (((filled trace ≡ [])
          × (get_segment first_sha source new_segment_meta
              ≡ some (false, new_segment_meta, record source { trace_stream = behind rest })))
        ⊎ ((sm' : SegmentMeta) × (get_segment first_sha source new_segment_meta
              ≡ some (true, sm', record source { trace_stream = behind rest }))
            × Describes taken sm'))
get_segment-Describes_example =
    get_segment-Describes first_sha source zeros new_segment_meta trace refl
      (length-zeros_of sample_size) refl trace-Fits (omega arith, (omega arith, (omega arith, tt)))

new-IsOpen_example : IsOpen trace 12096 (DataSource.new (blocks_to_stream trace) zeros)
new-IsOpen_example =
    new-IsOpen (block_high ∷ block_empty ∷ []) block_low zeros block_low-Fits (omega arith)
      (omega (arith, length-zeros_of sample_size))
