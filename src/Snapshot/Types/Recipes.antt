-- ===== src/Snapshot/Types/Recipes.antt =====
-- The sizes that a recipe does not store are computed anew from the end offsets.
use bigarchive.Prelude.{ℕ, ◌+◌, ◌%◌, ◌^◌, ◌≡◌, refl, false, none, List, [], ◌∷◌, map, All, arith}
use bigarchive.Marshal.RoundTrip.{ReadsBack}
use bigarchive.Snapshot.Types.{
  BlockMeta, new_block_meta, block_meta, SegmentMeta, new_segment_meta, segment_meta, sub_word,
}
use bigarchive.Snapshot.Types.Snapshots.{SnapshotMeta, add_segment, compute_segment_sizes}
use bigarchive.Snapshot.Types.Metas.{
  BlockFits, deserialize-serialize_block_meta, SegmentFits, deserialize-serialize_segment_meta,
}

-- what a stored block metadata gives again
abbrev pub stored_block : BlockMeta → BlockMeta
stored_block m = record new_block_meta {
  cksum = m.cksum;
  end_offset = m.end_offset;
  handle = m.handle;
  flags = m.flags;
}

abbrev pub stored_segment : SegmentMeta → SegmentMeta
stored_segment m = record new_segment_meta {
  cksum = m.cksum;
  end_offset = m.end_offset;
  handle = m.handle;
}

abbrev block_reads_back : ReadsBack block_meta
block_reads_back = record {
  Fits = BlockFits;
  restored = stored_block;
  round = λ m rest fits. deserialize-serialize_block_meta new_block_meta m rest refl fits;
}

abbrev pub segment_reads_back : ReadsBack segment_meta
segment_reads_back = record {
  Fits = SegmentFits;
  restored = stored_segment;
  round = λ m rest fits. deserialize-serialize_segment_meta new_segment_meta m rest refl fits;
}

-- Each block ends where its size takes it from the end of the one before.
unfoldable pub BlocksFollow : ℕ → List BlockMeta → Type 0
BlocksFollow last [] = Unit
BlocksFollow last (b ∷ bs) = (b.end_offset ≡ last + b.size) × BlocksFollow b.end_offset bs

-- what is left of a block by the round trip: its data is not stored
abbrev pub without_data : BlockMeta → BlockMeta
without_data m = record m { bytes = none; is_allocated = false }

unfoldable pub SegmentsFollow : ℕ → List SegmentMeta → Type 0
SegmentsFollow last [] = Unit
SegmentsFollow last (s ∷ ss) = (s.end_offset ≡ last + s.size) × SegmentsFollow s.end_offset ss

-- what is left of a segment by the round trip: its own recipe is stored elsewhere
abbrev pub without_recipe : SegmentMeta → SegmentMeta
without_recipe m = record m { segment_recipe = []; blkmap = [] }

pub compute_segment_sizes-stored :
    (last : ℕ) (ss : List SegmentMeta)
    → All SegmentFits ss
    → SegmentsFollow last ss
    → compute_segment_sizes last (map stored_segment ss) ≡ map without_recipe ss
unfolding compute_segment_sizes SegmentsFollow
compute_segment_sizes-stored last [] h f = refl
compute_segment_sizes-stored last (s ∷ ss) (hs, hss) (fs, fss) =
    let size : sub_word 64 s.end_offset last % 2 ^ 32 ≡ s.size =
      omega (arith, fs, hs.size_fits, hs.end_fits) in
    rw (size, compute_segment_sizes-stored s.end_offset ss hss fss) refl

-- `AddSegment` for each segment in turn
abbrev pub add_segments : List SegmentMeta → SnapshotMeta → SnapshotMeta
add_segments [] m = m
add_segments (s ∷ ss) m = add_segments ss (add_segment s m)
