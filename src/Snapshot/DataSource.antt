-- ===== src/Snapshot/DataSource.antt =====
-- snapshot/data_source.h and .cpp: blocks and segments with data, made from a scan trace and from
-- the sample data of a machine's image. The files are their contents. A pointer into `sample_data_`
-- is the bytes from there on; into no sample data it is `none`, where C++ has no defined result.
pub mod Layout
pub mod Segments
pub mod Opening
use bigarchive.Prelude.{
  ℕ, ◌+◌, ◌-◌, ◌*◌, ◌%◌, ◌^◌, Bool, true, false, Option, none, some, List, [], ◌∷◌, ◌++◌, length,
  take, drop, ltb, leb, ◌==◌, ◌&&◌, not, if◌then◌else◌,
}
use bigarchive.Marshal.Stream.{IStream, good}
use bigarchive.Snapshot.Trace.{
  record_size, first_4_bytes, Block, block_from_stream, blank, new_segment, Sha, load_fix_size,
}
use bigarchive.Snapshot.Types.{BlockMeta, new_block_meta, SegmentMeta}

abbrev pub reserved_region_size : ℕ
reserved_region_size = 8 * 1024 * 1024

abbrev pub sample_region_size : ℕ
sample_region_size = 128 * 1024 * 1024

abbrev pub sample_size : ℕ
sample_size = sample_region_size + reserved_region_size

pub record DataSource : Type 0 where
  pub sample_data : Option (List ℕ)
  pub trace_stream : IStream
  pub snapshot_size : ℕ

-- `trace_stream_.seekg(-RECORD_SIZE, ios::end)` fails on a file that is shorter.
unfoldable pub last_record : List ℕ → IStream
last_record trace =
    if leb record_size (length trace)
    then good (drop (length trace - record_size) trace)
    else record { rest = trace; eof = false; fail = true }

-- the constructor, on the contents of the two files
unfoldable pub new : List ℕ → List ℕ → DataSource
new trace sample =
    let (done, blk, is) = block_from_stream blank (last_record trace) in
    record {
      sample_data =
          if ltb (length sample) sample_size then none else some (take sample_size sample);
      trace_stream = good trace;
      snapshot_size = (blk.offset + blk.size) % 2 ^ 64;
    }

-- `&sample_data_[i]`
unfoldable pub sample_at : Option (List ℕ) → ℕ → Option (List ℕ)
sample_at none i = none
sample_at (some bytes) i = some (drop i bytes)

-- the result, and `bm` after it
unfoldable pub block_to_block_meta : DataSource → BlockMeta → Block → Bool × BlockMeta
block_to_block_meta ds bm blk =
    if blk.size == 0
    then (false, bm)
    else if ltb reserved_region_size blk.size
    then (false, bm)
    else (
      true,
      record bm {
        cksum = blk.cksum;
        end_offset = blk.size;
        size = blk.size;
        handle = 0;
        flags = 0;
        bytes = sample_at ds.sample_data (first_4_bytes blk.cksum % sample_region_size);
      },
    )

unfoldable pub get_block : DataSource → BlockMeta → Bool × BlockMeta × DataSource
get_block ds bm = elim ds.sample_data [
  | none ↦ (false, bm, ds)
  | some bytes ↦
      let (done, blk, is) = block_from_stream blank ds.trace_stream in
      let ds' : DataSource = record ds { trace_stream = is } in
      let (made, bm') = block_to_block_meta ds' bm blk in
      if done then (made, bm', ds') else (false, bm, ds')
]

-- the loop of `GetSegment`: whether it ran to its end, with `offset` and the recipe after it
unfoldable pub segment_loop :
    DataSource → BlockMeta → ℕ → List BlockMeta → List Block → Bool × ℕ × List BlockMeta
segment_loop ds bm offset recipe [] = (true, offset, recipe)
segment_loop ds bm offset recipe (blk ∷ blks) =
    let (made, bm') = block_to_block_meta ds bm blk in
    let offset' = (offset + blk.size) % 2 ^ 32 in
    let placed : BlockMeta = record bm' { end_offset = offset' } in
    let rest = segment_loop ds placed offset' (recipe ++ placed ∷ []) blks in
    if made then rest else (false, offset, recipe)

abbrev pub get_snapshot_size : DataSource → ℕ
get_snapshot_size ds = ds.snapshot_size

module _ (sha : Sha) where
  -- the result, `sm` and the source after it; `none` only if `LoadFixSize` had no fuel
  unfoldable pub get_segment : DataSource → SegmentMeta → Option (Bool × SegmentMeta × DataSource)
  get_segment ds sm = elim (load_fix_size sha new_segment ds.trace_stream) [
    | none ↦ none
    | some (loaded, seg, is) ↦
        let ds' : DataSource = record ds { trace_stream = is } in
        let (ran, offset, recipe) = segment_loop ds' new_block_meta 0 [] seg.blocklist in
        let filled : SegmentMeta = record sm { segment_recipe = recipe } in
        if not loaded
        then some (false, sm, ds')
        else if not ran
        then some (false, filled, ds')
        else some (
          true,
          record filled { cksum = seg.cksum; end_offset = offset; size = offset; handle = 0 },
          ds',
        )
  ]
