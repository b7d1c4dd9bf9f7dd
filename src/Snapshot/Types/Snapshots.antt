-- ===== src/Snapshot/Types/Snapshots.antt =====
-- snapshot/snapshot_types.h and .cpp: `SnapshotMeta` with the recipe of a snapshot, and `VMMeta`.
use bigarchive.Prelude.{ℕ, ◌+◌, ◌%◌, ◌^◌, none, some, List, [], ◌∷◌, ◌++◌, length, get_elem?}
use bigarchive.Marshal.Stream.{Parser, ◌>>=◌, pure}
use bigarchive.Marshal.{
  serialize_word, deserialize_word, serialize_string, deserialize_string, serialize_vector,
  deserialize_vector,
}
use bigarchive.Snapshot.Types.{SegmentMeta, segment_meta, sub_word}

pub record SnapshotMeta : Type 0 where
  pub snapshot_recipe : List SegmentMeta
  pub size : ℕ
  pub vm_id : List ℕ
  pub snapshot_id : List ℕ

unfoldable pub serialize_snapshot_meta : SnapshotMeta → List ℕ
serialize_snapshot_meta m =
    serialize_string m.vm_id ++ (serialize_string m.snapshot_id ++ serialize_word 8 m.size)

unfoldable pub deserialize_snapshot_meta : SnapshotMeta → Parser SnapshotMeta
deserialize_snapshot_meta m = do
  v ← deserialize_string
  s ← deserialize_string
  n ← deserialize_word 8 m.size
  pure (record m { vm_id = v; snapshot_id = s; size = n })

unfoldable pub copy_snapshot_meta : SnapshotMeta → SnapshotMeta → SnapshotMeta
copy_snapshot_meta m sm = record m {
  vm_id = sm.vm_id;
  size = sm.size;
  snapshot_id = sm.snapshot_id;
  snapshot_recipe = sm.snapshot_recipe;
}

unfoldable pub get_snapshot_meta_bytes : SnapshotMeta → ℕ
get_snapshot_meta_bytes m = 8 + length m.vm_id + length m.snapshot_id

unfoldable pub get_segment_size : ℕ → SnapshotMeta → ℕ
get_segment_size index m = elim (get_elem? m.snapshot_recipe index) [ some s ↦ s.size | none ↦ 0 ]

abbrev pub get_snapshot_size : SnapshotMeta → ℕ
get_snapshot_size m = m.size

unfoldable pub add_segment : SegmentMeta → SnapshotMeta → SnapshotMeta
add_segment sm m =
    let n = (m.size + sm.size) % 2 ^ 64 in
    record m { snapshot_recipe = m.snapshot_recipe ++ record sm { end_offset = n } ∷ []; size = n }

unfoldable pub serialize_snapshot_recipe : SnapshotMeta → List ℕ
serialize_snapshot_recipe m = serialize_vector segment_meta m.snapshot_recipe

-- the loop of `DeserializeRecipe`: a difference of uint64_t, stored in the uint32_t `size_`
unfoldable pub compute_segment_sizes : ℕ → List SegmentMeta → List SegmentMeta
compute_segment_sizes last_ending [] = []
compute_segment_sizes last_ending (s ∷ ss) =
    record s { size = sub_word 64 s.end_offset last_ending % 2 ^ 32 }
    ∷ compute_segment_sizes s.end_offset ss

unfoldable pub deserialize_snapshot_recipe : SnapshotMeta → Parser SnapshotMeta
deserialize_snapshot_recipe m = do
  recipe ← deserialize_vector segment_meta
  pure (record m { snapshot_recipe = compute_segment_sizes 0 recipe })

-- A `double` is its 64 bits.
pub record VmMeta : Type 0 where
  pub filter_num_items : ℕ
  pub filter_num_funcs : ℕ
  pub filter_fp_rate : ℕ

unfoldable pub serialize_vm_meta : VmMeta → List ℕ
serialize_vm_meta m =
    serialize_word 8 m.filter_num_items
    ++ (serialize_word 4 m.filter_num_funcs ++ serialize_word 8 m.filter_fp_rate)

unfoldable pub deserialize_vm_meta : VmMeta → Parser VmMeta
deserialize_vm_meta m = do
  i ← deserialize_word 8 m.filter_num_items
  f ← deserialize_word 4 m.filter_num_funcs
  p ← deserialize_word 8 m.filter_fp_rate
  pure (record m { filter_num_items = i; filter_num_funcs = f; filter_fp_rate = p })
