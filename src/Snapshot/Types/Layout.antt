-- ===== src/Snapshot/Types/Layout.antt =====
-- `AddSegment` lays the segments of a snapshot out one behind the other.
use bigarchive.Prelude.{
  ℕ, ◌+◌, ◌%◌, ◌^◌, ◌<◌, ◌≡◌, refl, List, [], ◌∷◌, ◌++◌, length, map, All, All-append, arith,
}
use bigarchive.Exception.{ok}
use bigarchive.Marshal.Stream.{good, ◌>>=◌}
use bigarchive.Marshal.RoundTrip.{deserialize-serialize_vector}
use bigarchive.Snapshot.Types.{SegmentMeta, segment_meta}
use bigarchive.Snapshot.Types.Snapshots.{
  SnapshotMeta, add_segment, serialize_snapshot_recipe, deserialize_snapshot_recipe,
}
use bigarchive.Snapshot.Types.Metas.{SegmentFits}
use bigarchive.Snapshot.Types.Recipes.{
  SegmentsFollow, without_recipe, segment_reads_back, compute_segment_sizes-stored,
}

-- where a recipe ends that starts at `last`
unfoldable pub ends_at : ℕ → List SegmentMeta → ℕ
ends_at last [] = last
ends_at last (s ∷ ss) = ends_at s.end_offset ss

-- The segments follow each other from 0 to the size of the snapshot.
pub record IsLaidOut (m : SnapshotMeta) : Type 0 where
  pub fits : All SegmentFits m.snapshot_recipe
  pub follow : SegmentsFollow 0 m.snapshot_recipe
  pub to_size : ends_at 0 m.snapshot_recipe ≡ m.size

follow-append :
    (last : ℕ) (ss : List SegmentMeta) (s : SegmentMeta)
    → SegmentsFollow last ss
    → s.end_offset ≡ ends_at last ss + s.size
    → SegmentsFollow last (ss ++ s ∷ [])
unfolding SegmentsFollow ends_at
follow-append last [] s f e = (e, tt)
follow-append last (a ∷ ss) s (fa, fs) e = (fa, follow-append a.end_offset ss s fs e)

ends_at-append :
    (last : ℕ) (ss : List SegmentMeta) (s : SegmentMeta)
    → ends_at last (ss ++ s ∷ []) ≡ s.end_offset
unfolding ends_at
ends_at-append last [] s = refl
ends_at-append last (a ∷ ss) s = ends_at-append a.end_offset ss s

-- The checks on a segment that is added: its end offset is written by `AddSegment`.
pub record CanBeAdded (s : SegmentMeta) (m : SnapshotMeta) : Type 0 where
  pub cksum_fits : length s.cksum ≡ 20
  pub size_fits : s.size < 2 ^ 32
  pub handle_fits : s.handle < 2 ^ 64
  pub room : m.size + s.size < 2 ^ 64

-- `AddSegment` keeps the segments of a snapshot one behind the other up to its size, which grows by
-- the size of the segment, when the sum fits in 64 bits.
pub add_segment-IsLaidOut :
    (s : SegmentMeta) (m : SnapshotMeta)
    → CanBeAdded s m
    → IsLaidOut m
    → IsLaidOut (add_segment s m) × ((add_segment s m).size ≡ m.size + s.size)
unfolding add_segment
add_segment-IsLaidOut s m can lay =
    let n : (m.size + s.size) % 2 ^ 64 ≡ m.size + s.size = omega (arith, can.room) in
    let placed : SegmentMeta = record s { end_offset = m.size + s.size } in
    rw n (
      record {
        fits = All-append SegmentFits m.snapshot_recipe (placed ∷ []) lay.fits (
          record {
            cksum_fits = can.cksum_fits;
            end_fits = can.room;
            size_fits = can.size_fits;
            handle_fits = can.handle_fits;
          },
          tt,
        );
        follow = follow-append 0 m.snapshot_recipe placed lay.follow (omega (arith, lay.to_size));
        to_size = ends_at-append 0 m.snapshot_recipe placed;
      },
      refl,
    )

-- The recipe of a laid-out snapshot of fewer than 2 ^ 32 segments is read back: of every segment
-- the checksum, the handle, the end offset and the size, which is not stored.
pub deserialize-serialize_snapshot_recipe :
    (old m : SnapshotMeta) (rest : List ℕ)
    → IsLaidOut m
    → length m.snapshot_recipe < 2 ^ 32
    → deserialize_snapshot_recipe old (good (serialize_snapshot_recipe m ++ rest))
      ≡ ok (record old { snapshot_recipe = map without_recipe m.snapshot_recipe }, good rest)
unfolding deserialize_snapshot_recipe serialize_snapshot_recipe
deserialize-serialize_snapshot_recipe old m rest lay small =
    rw
      (
        deserialize-serialize_vector segment_meta segment_reads_back m.snapshot_recipe rest lay.fits
            small,
        ◌>>=◌,
        compute_segment_sizes-stored 0 m.snapshot_recipe lay.fits lay.follow,
      )
      refl
