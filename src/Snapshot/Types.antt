-- ===== src/Snapshot/Types.antt =====
-- snapshot/snapshot_types.h and .cpp: the metadata of blocks and of segments, and the recipe of a
-- segment. A pointer to a block of `segment_recipe_` is its place there. An object that C++ leaves
-- uninitialised has zeros here.
pub mod Snapshots
pub mod Metas
pub mod Recipes
pub mod Lookup
pub mod Layout
use bigarchive.Prelude.{
  ℕ, zero, suc, ◌+◌, ◌-◌, ◌*◌, ◌%◌, ◌^◌, Bool, true, false, Option, none, some, List, [], ◌∷◌, ◌++◌,
  length, take, get_elem?, ltb, ◌==◌, if◌then◌else◌, ◌≡◌, refl,
}
use bigarchive.Prelude.Words.{bytes_of, of_bytes}
use bigarchive.Exception.{ok}
use bigarchive.Marshal.Stream.{IStream, Parser, ◌>>=◌, pure}
use bigarchive.Marshal.{
  serialize_word, deserialize_word, Serializable, serialize_vector, deserialize_vector,
}
use bigarchive.Snapshot.Trace.{
  cksum_len, Checksum, zero_checksum, eq, checksum_to_stream, checksum_from_stream,
}

abbrev pub in_cds : ℕ
in_cds = 1

abbrev pub in_as : ℕ
in_as = 2

abbrev pub in_parent : ℕ
in_parent = 4

pub record BlockMeta : Type 0 where
  pub end_offset : ℕ
  pub size : ℕ
  pub cksum : Checksum
  pub handle : ℕ
  pub flags : ℕ
  pub bytes : Option (List ℕ)
  pub is_allocated : Bool

abbrev pub new_block_meta : BlockMeta
new_block_meta = record {
  end_offset = 0;
  size = 0;
  cksum = zero_checksum;
  handle = 0;
  flags = 0;
  bytes = none;
  is_allocated = false;
}

-- `cksum_.FromStream(is)`, whose result the callers drop
unfoldable pub parse_checksum : Checksum → Parser Checksum
parse_checksum old is = let (done, c, is') = checksum_from_stream old is in ok (c, is')

unfoldable pub serialize_block_meta : BlockMeta → List ℕ
serialize_block_meta m =
    checksum_to_stream m.cksum
    ++ (serialize_word 4 m.end_offset ++ (serialize_word 8 m.handle ++ serialize_word 2 m.flags))

unfoldable pub deserialize_block_meta : BlockMeta → Parser BlockMeta
deserialize_block_meta m = do
  c ← parse_checksum m.cksum
  e ← deserialize_word 4 m.end_offset
  h ← deserialize_word 8 m.handle
  f ← deserialize_word 2 m.flags
  pure (record m { cksum = c; end_offset = e; handle = h; flags = f })

abbrev pub block_meta : Serializable BlockMeta
block_meta = record {
  serialize = serialize_block_meta;
  deserialize = deserialize_block_meta;
  new = new_block_meta;
}

-- `os.write(data_, size_)`; a buffer shorter than `size_` has no defined result in C++.
unfoldable pub serialize_data : BlockMeta → List ℕ
serialize_data m = elim m.bytes [ none ↦ [] | some bytes ↦ take m.size bytes ]

-- `DeserializeData(const string& data)`
unfoldable pub deserialize_data : List ℕ → BlockMeta → BlockMeta
deserialize_data bytes m =
    let freed : BlockMeta = elim m.bytes [
      | none ↦ m
      | some old ↦ if m.is_allocated then record m { bytes = none; is_allocated = false } else m
    ] in
    if m.size == length bytes
    then record freed { bytes = some bytes; is_allocated = true }
    else freed

-- `Copy(from)`
unfoldable pub copy_block_meta : BlockMeta → BlockMeta → BlockMeta
copy_block_meta m bm = record m {
  handle = bm.handle;
  bytes = bm.bytes;
  cksum = bm.cksum;
  end_offset = bm.end_offset;
  flags = bm.flags;
  size = bm.size;
}

-- `sizeof` of the members on a machine with 8-byte pointers
abbrev pub get_size : ℕ
get_size = 4 + 8 + 8 + 2 + cksum_len

abbrev pub get_block_meta_size : BlockMeta → ℕ
get_block_meta_size m = m.size

-- the result, and the object after it
unfoldable pub set_handle : List ℕ → BlockMeta → ℕ × BlockMeta
set_handle handle m =
    if length handle == 8 then (of_bytes handle, record m { handle = of_bytes handle }) else (0, m)

unfoldable pub get_handle : BlockMeta → List ℕ
get_handle m = bytes_of 8 m.handle

-- `map<Checksum, BlockMeta*>`: only `find` and `[]` use it, so its order is left out.
abbrev pub BlkMap : Type 0
BlkMap = List (Checksum × ℕ)

-- `blkmap_[key] = place`
unfoldable pub assign : Checksum → ℕ → BlkMap → BlkMap
assign key place [] = (key, place) ∷ []
assign key place ((k, p) ∷ m) =
    let rest = assign key place m in if eq k key then (k, place) ∷ m else (k, p) ∷ rest

-- `blkmap_.find(key)`
unfoldable pub find : Checksum → BlkMap → Option ℕ
find key [] = none
find key ((k, p) ∷ m) = let rest = find key m in if eq k key then some p else rest

pub record SegmentMeta : Type 0 where
  pub segment_recipe : List BlockMeta
  pub end_offset : ℕ
  pub size : ℕ
  pub cksum : Checksum
  pub handle : ℕ
  pub blkmap : BlkMap

abbrev pub new_segment_meta : SegmentMeta
new_segment_meta = record {
  segment_recipe = [];
  end_offset = 0;
  size = 0;
  cksum = zero_checksum;
  handle = 0;
  blkmap = [];
}

unfoldable pub serialize_segment_meta : SegmentMeta → List ℕ
serialize_segment_meta m =
    checksum_to_stream m.cksum ++ (serialize_word 8 m.end_offset ++ serialize_word 8 m.handle)

unfoldable pub deserialize_segment_meta : SegmentMeta → Parser SegmentMeta
deserialize_segment_meta m = do
  c ← parse_checksum m.cksum
  e ← deserialize_word 8 m.end_offset
  h ← deserialize_word 8 m.handle
  pure (record m { cksum = c; end_offset = e; handle = h })

abbrev pub segment_meta : Serializable SegmentMeta
segment_meta = record {
  serialize = serialize_segment_meta;
  deserialize = deserialize_segment_meta;
  new = new_segment_meta;
}

unfoldable pub copy_segment_meta : SegmentMeta → SegmentMeta → SegmentMeta
copy_segment_meta m sm = record m {
  end_offset = sm.end_offset;
  handle = sm.handle;
  cksum = sm.cksum;
  size = sm.size;
  segment_recipe = sm.segment_recipe;
}

unfoldable pub get_block_size : ℕ → SegmentMeta → ℕ
get_block_size index m = elim (get_elem? m.segment_recipe index) [ some b ↦ b.size | none ↦ 0 ]

abbrev pub get_segment_meta_size : SegmentMeta → ℕ
get_segment_meta_size m = m.size

unfoldable pub serialize_recipe : SegmentMeta → List ℕ
serialize_recipe m = serialize_vector block_meta m.segment_recipe

-- `a - b` of two unsigned integers of `w` bits
abbrev pub sub_word : ℕ → ℕ → ℕ → ℕ
sub_word w a b = (a + 2 ^ w - b) % 2 ^ w

-- the loop of `DeserializeRecipe`
unfoldable pub compute_sizes : ℕ → List BlockMeta → List BlockMeta
compute_sizes last_ending [] = []
compute_sizes last_ending (b ∷ bs) =
    record b { size = sub_word 32 b.end_offset last_ending } ∷ compute_sizes b.end_offset bs

unfoldable pub deserialize_recipe : SegmentMeta → Parser SegmentMeta
deserialize_recipe m = do
  recipe ← deserialize_vector block_meta
  pure (record m { segment_recipe = compute_sizes 0 recipe })

unfoldable pub set_segment_handle : List ℕ → SegmentMeta → ℕ × SegmentMeta
set_segment_handle handle m =
    if length handle == 8 then (of_bytes handle, record m { handle = of_bytes handle }) else (0, m)

unfoldable pub get_segment_handle : SegmentMeta → List ℕ
get_segment_handle m = bytes_of 8 m.handle

-- the loop of `BuildIndex` from the place `i` on
unfoldable pub build_loop : ℕ → List BlockMeta → BlkMap → BlkMap
build_loop i [] blkmap = blkmap
build_loop i (b ∷ bs) blkmap = build_loop (suc i) bs (assign b.cksum i blkmap)

unfoldable pub build_index : SegmentMeta → SegmentMeta
build_index m = record m { blkmap = build_loop 0 m.segment_recipe [] }

unfoldable pub search_block : Checksum → SegmentMeta → Option BlockMeta
search_block cksum m = elim (find cksum m.blkmap) [
  | none ↦ none
  | some place ↦ get_elem? m.segment_recipe place
]
