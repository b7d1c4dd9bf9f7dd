-- ===== src/Snapshot/DataSource/Opening.antt =====
-- The constructor reads the size of the snapshot from the last record of the trace.
use bigarchive.Prelude.{
  ℕ, ◌+◌, ◌-◌, ◌^◌, ◌<◌, ◌≤◌, ◌≡◌, refl, some, List, [], ◌∷◌, ◌++◌, length, take, drop, append-nil,
  append_assoc, arith, ltb, leb, length-append, length-take, true, false,
}
use bigarchive.Prelude.Words.{bytes_of}
use bigarchive.Marshal.Stream.{good}
use bigarchive.Snapshot.Trace.{
  record_size, cksum_len, checksum_to_stream, Block, block_to_stream, blocks_to_stream, blank,
}
use bigarchive.Snapshot.Trace.Blocks.{Fits, block_from_stream-to_stream}
use bigarchive.Snapshot.DataSource
use bigarchive.Snapshot.DataSource.{sample_size, DataSource, last_record}

-- what the constructor leaves
pub record IsOpen (bs : List Block) (size : ℕ) (ds : DataSource) : Type 0 where
  pub sample : List ℕ
  pub has_sample : ds.sample_data ≡ some sample
  pub enough : length sample ≡ sample_size
  pub at_start : ds.trace_stream ≡ good (blocks_to_stream bs)
  pub known_size : ds.snapshot_size ≡ size

blocks_to_stream-append :
    (bs cs : List Block) → blocks_to_stream (bs ++ cs) ≡ blocks_to_stream bs ++ blocks_to_stream cs
unfolding blocks_to_stream
blocks_to_stream-append [] cs = refl
blocks_to_stream-append (b ∷ bs) cs = rw (blocks_to_stream-append bs cs, append_assoc) refl

length-block_to_stream : (b : Block) → Fits b → length (block_to_stream b) ≡ record_size
unfolding block_to_stream checksum_to_stream bytes_of
length-block_to_stream b fits = omega (
  arith,
  length-append (take cksum_len b.cksum)
      (bytes_of 4 b.file_id ++ (bytes_of 4 b.size ++ bytes_of 8 b.offset)),
  length-take cksum_len b.cksum,
  fits.cksum_fits,
)

drop_all_before : (xs ys : List ℕ) → drop (length xs) (xs ++ ys) ≡ ys
drop_all_before [] ys = refl
drop_all_before (x ∷ xs) ys = drop_all_before xs ys

last_record-append :
    (bs : List Block) (b : Block)
    → Fits b
    → last_record (blocks_to_stream (bs ++ b ∷ [])) ≡ good (block_to_stream b ++ [])
unfolding last_record blocks_to_stream
last_record-append bs b fits =
    let before = blocks_to_stream bs in
    let size = length-block_to_stream b fits in
    let total = length-append before (block_to_stream b) in
    let long : leb record_size (length (before ++ block_to_stream b)) ≡ true =
      ground (arith, size, total) in
    let place : length (before ++ block_to_stream b) - record_size ≡ length before =
      omega (arith, size, total) in
    rw (blocks_to_stream-append, append-nil, long, place, drop_all_before) refl

-- The constructor, on a trace whose last block fits its words and ends below 2 ^ 64 and on an image
-- with at least the sample and the reserved region, loads exactly those two regions, puts the
-- stream at the start of the trace, and takes the end of the last block for the size of the
-- snapshot.
pub new-IsOpen :
    (bs : List Block) (b : Block) (sample : List ℕ)
    → Fits b
    → b.offset + b.size < 2 ^ 64
    → sample_size ≤ length sample
    → IsOpen
        (bs ++ b ∷ [])
        (b.offset + b.size)
        (DataSource.new (blocks_to_stream (bs ++ b ∷ [])) sample)
unfolding DataSource.new
new-IsOpen bs b sample fits small enough =
    let long : ltb (length sample) sample_size ≡ false = ground (arith, enough) in
    record {
      sample = take sample_size sample;
      has_sample = rw long refl;
      enough = omega (arith, length-take sample_size sample, enough);
      at_start = refl;
      known_size =
          rw (last_record-append bs b fits, block_from_stream-to_stream blank b [] refl fits)
            (omega (arith, small));
    }
