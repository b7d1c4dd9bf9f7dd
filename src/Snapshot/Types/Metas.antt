-- ===== src/Snapshot/Types/Metas.antt =====
-- The metadata of blocks, segments, snapshots and machines is read back from its bytes.
use bigarchive.Prelude.{ℕ, ◌^◌, ◌<◌, ◌≡◌, refl, List, ◌++◌, length, append_assoc}
use bigarchive.Exception.{ok}
use bigarchive.Marshal.Stream.{good, ◌>>=◌}
use bigarchive.Marshal.RoundTrip.{deserialize-serialize_word, deserialize-serialize_string}
use bigarchive.Snapshot.Trace.{cksum_len, Checksum, checksum_to_stream}
use bigarchive.Snapshot.Trace.Blocks.{checksum_from_stream-to_stream}
use bigarchive.Snapshot.Types.{
  BlockMeta, parse_checksum, serialize_block_meta, deserialize_block_meta, SegmentMeta,
  serialize_segment_meta, deserialize_segment_meta,
}
use bigarchive.Snapshot.Types.Snapshots.{
  SnapshotMeta, serialize_snapshot_meta, deserialize_snapshot_meta, VmMeta, serialize_vm_meta,
  deserialize_vm_meta,
}

parse_checksum-to_stream :
    (old c : Checksum) (rest : List ℕ)
    → length old ≡ cksum_len
    → length c ≡ cksum_len
    → parse_checksum old (good (checksum_to_stream c ++ rest)) ≡ ok (c, good rest)
unfolding parse_checksum
parse_checksum-to_stream old c rest ho hc =
    rw (checksum_from_stream-to_stream old c rest ho hc) refl

pub record BlockFits (m : BlockMeta) : Type 0 where
  pub cksum_fits : length m.cksum ≡ cksum_len
  pub end_fits : m.end_offset < 2 ^ 32
  pub size_fits : m.size < 2 ^ 32
  pub handle_fits : m.handle < 2 ^ 64
  pub flags_fits : m.flags < 2 ^ 16

-- The four stored members are read back, and the others stay as they were.
pub deserialize-serialize_block_meta :
    (old m : BlockMeta) (rest : List ℕ)
    → length old.cksum ≡ cksum_len
    → BlockFits m
    → deserialize_block_meta old (good (serialize_block_meta m ++ rest))
      ≡ ok (
        record old {
          cksum = m.cksum;
          end_offset = m.end_offset;
          handle = m.handle;
          flags = m.flags;
        },
        good rest,
      )
unfolding serialize_block_meta deserialize_block_meta
deserialize-serialize_block_meta old m rest ho fits =
    rw
      (
        append_assoc,
        parse_checksum-to_stream old.cksum m.cksum _ ho fits.cksum_fits,
        ◌>>=◌,
        append_assoc,
        deserialize-serialize_word 4 old.end_offset m.end_offset _ fits.end_fits,
        ◌>>=◌,
        append_assoc,
        deserialize-serialize_word 8 old.handle m.handle _ fits.handle_fits,
        ◌>>=◌,
        deserialize-serialize_word 2 old.flags m.flags rest fits.flags_fits,
        ◌>>=◌,
      )
      refl

pub record SegmentFits (m : SegmentMeta) : Type 0 where
  pub cksum_fits : length m.cksum ≡ cksum_len
  pub end_fits : m.end_offset < 2 ^ 64
  pub size_fits : m.size < 2 ^ 32
  pub handle_fits : m.handle < 2 ^ 64

pub deserialize-serialize_segment_meta :
    (old m : SegmentMeta) (rest : List ℕ)
    → length old.cksum ≡ cksum_len
    → SegmentFits m
    → deserialize_segment_meta old (good (serialize_segment_meta m ++ rest))
      ≡ ok (record old { cksum = m.cksum; end_offset = m.end_offset; handle = m.handle }, good rest)
unfolding serialize_segment_meta deserialize_segment_meta
deserialize-serialize_segment_meta old m rest ho fits =
    rw
      (
        append_assoc,
        parse_checksum-to_stream old.cksum m.cksum _ ho fits.cksum_fits,
        ◌>>=◌,
        append_assoc,
        deserialize-serialize_word 8 old.end_offset m.end_offset _ fits.end_fits,
        ◌>>=◌,
        deserialize-serialize_word 8 old.handle m.handle rest fits.handle_fits,
        ◌>>=◌,
      )
      refl

pub record SnapshotFits (m : SnapshotMeta) : Type 0 where
  pub vm_fits : length m.vm_id < 2 ^ 32
  pub snapshot_fits : length m.snapshot_id < 2 ^ 32
  pub size_fits : m.size < 2 ^ 64

-- A snapshot's names and size are read back, when they fit their words; the recipe of the object
-- that is read into stays.
pub deserialize-serialize_snapshot_meta :
    (old m : SnapshotMeta) (rest : List ℕ)
    → SnapshotFits m
    → deserialize_snapshot_meta old (good (serialize_snapshot_meta m ++ rest))
      ≡ ok (record m { snapshot_recipe = old.snapshot_recipe }, good rest)
unfolding serialize_snapshot_meta deserialize_snapshot_meta
deserialize-serialize_snapshot_meta old m rest fits =
    rw
      (
        append_assoc,
        deserialize-serialize_string m.vm_id _ fits.vm_fits,
        ◌>>=◌,
        append_assoc,
        deserialize-serialize_string m.snapshot_id _ fits.snapshot_fits,
        ◌>>=◌,
        deserialize-serialize_word 8 old.size m.size rest fits.size_fits,
        ◌>>=◌,
      )
      refl

pub record VmFits (m : VmMeta) : Type 0 where
  pub items_fit : m.filter_num_items < 2 ^ 64
  pub funcs_fit : m.filter_num_funcs < 2 ^ 32
  pub rate_fits : m.filter_fp_rate < 2 ^ 64

pub deserialize-serialize_vm_meta :
    (old m : VmMeta) (rest : List ℕ)
    → VmFits m
    → deserialize_vm_meta old (good (serialize_vm_meta m ++ rest)) ≡ ok (m, good rest)
unfolding serialize_vm_meta deserialize_vm_meta
deserialize-serialize_vm_meta old m rest fits =
    rw
      (
        append_assoc,
        deserialize-serialize_word 8 old.filter_num_items m.filter_num_items _ fits.items_fit,
        ◌>>=◌,
        append_assoc,
        deserialize-serialize_word 4 old.filter_num_funcs m.filter_num_funcs _ fits.funcs_fit,
        ◌>>=◌,
        deserialize-serialize_word 8 old.filter_fp_rate m.filter_fp_rate rest fits.rate_fits,
        ◌>>=◌,
      )
      refl
