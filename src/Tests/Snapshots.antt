-- ===== src/Tests/Snapshots.antt =====
-- Concrete recipes of segments and snapshots.
use bigarchive.Prelude.{
  ℕ, ◌+◌, ◌≡◌, refl, true, false, [], ◌∷◌, ◌++◌, none, some, arith, replicate, map,
}
use bigarchive.Exception.{ok}
use bigarchive.Marshal.Stream.{good}
use bigarchive.Snapshot.Trace.{Checksum}
use bigarchive.Snapshot.Types.{BlockMeta, SegmentMeta, build_index, search_block}
use bigarchive.Snapshot.Types.Snapshots.{
  SnapshotMeta, add_segment, serialize_snapshot_recipe, deserialize_snapshot_recipe,
  serialize_snapshot_meta, deserialize_snapshot_meta,
}
use bigarchive.Snapshot.Types.Metas.{deserialize-serialize_snapshot_meta}
use bigarchive.Snapshot.Types.Recipes.{SegmentsFollow, without_recipe}
use bigarchive.Snapshot.Types.Layout.{
  IsLaidOut, CanBeAdded, ends_at, add_segment-IsLaidOut, deserialize-serialize_snapshot_recipe,
}
use bigarchive.Snapshot.Types.Lookup.{last_with, search_block-build_index}

abbrev mark : ℕ → Checksum
mark n = replicate 20 n

abbrev first_block : BlockMeta
first_block = record {
  end_offset = 4096;
  size = 4096;
  cksum = mark 1;
  handle = 77;
  flags = 2;
  bytes = some (1 ∷ []);
  is_allocated = true;
}

abbrev second_block : BlockMeta
second_block = record {
  end_offset = 5000;
  size = 904;
  cksum = mark 2;
  handle = 78;
  flags = 1;
  bytes = none;
  is_allocated = false;
}

abbrev segment : SegmentMeta
segment = record {
  segment_recipe = first_block ∷ second_block ∷ [];
  end_offset = 0;
  size = 5000;
  cksum = mark 3;
  handle = 500;
  blkmap = [];
}

search_block-build_index_example :
    search_block (mark 2) (build_index segment) ≡ last_with (mark 2) segment.segment_recipe
search_block-build_index_example = search_block-build_index segment (mark 2) refl (refl, (refl, tt))

abbrev empty_snapshot : SnapshotMeta
empty_snapshot = record {
  snapshot_recipe = [];
  size = 0;
  vm_id = b'v' ∷ [];
  snapshot_id = b's' ∷ b'1' ∷ [];
}

empty-IsLaidOut : IsLaidOut empty_snapshot
unfolding SegmentsFollow ends_at
empty-IsLaidOut = record { fits = tt; follow = tt; to_size = refl }

segment-CanBeAdded : CanBeAdded segment empty_snapshot
segment-CanBeAdded = record {
  cksum_fits = refl;
  size_fits = omega arith;
  handle_fits = omega arith;
  room = omega arith;
}

add_segment-IsLaidOut_example :
    IsLaidOut (add_segment segment empty_snapshot)
    × ((add_segment segment empty_snapshot).size ≡ empty_snapshot.size + segment.size)
add_segment-IsLaidOut_example =
    add_segment-IsLaidOut segment empty_snapshot segment-CanBeAdded empty-IsLaidOut

abbrev snapshot : SnapshotMeta
snapshot = record empty_snapshot {
  snapshot_recipe = record segment { end_offset = 5000 } ∷ [];
  size = 5000;
}

snapshot-IsLaidOut : IsLaidOut snapshot
unfolding SegmentsFollow ends_at
snapshot-IsLaidOut = record {
  fits = (
    record {
      cksum_fits = refl;
      end_fits = omega arith;
      size_fits = omega arith;
      handle_fits = omega arith;
    },
    tt,
  );
  follow = (refl, tt);
  to_size = refl;
}

deserialize-serialize_snapshot_recipe_example :
    deserialize_snapshot_recipe empty_snapshot (good (serialize_snapshot_recipe snapshot ++ []))
    ≡ ok (
      record empty_snapshot { snapshot_recipe = map without_recipe snapshot.snapshot_recipe },
      good [],
    )
deserialize-serialize_snapshot_recipe_example =
    deserialize-serialize_snapshot_recipe empty_snapshot snapshot [] snapshot-IsLaidOut
      (omega arith)

deserialize-serialize_snapshot_meta_example :
    deserialize_snapshot_meta empty_snapshot (good (serialize_snapshot_meta snapshot ++ []))
    ≡ ok (record snapshot { snapshot_recipe = [] }, good [])
deserialize-serialize_snapshot_meta_example =
    deserialize-serialize_snapshot_meta empty_snapshot snapshot []
      (record { vm_fits = omega arith; snapshot_fits = omega arith; size_fits = omega arith })
