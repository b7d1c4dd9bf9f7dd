-- ===== src/Snapshot/DataSource/Layout.antt =====
-- The recipe that the loop of `GetSegment` makes of the blocks of a segment.
use bigarchive.Prelude.{
  ℕ, ◌+◌, ◌%◌, ◌^◌, ◌<◌, ◌≤◌, ◌≡◌, refl, true, false, Option, some, List, [], ◌∷◌, ◌++◌, length,
  drop, map, All, append-nil, append_assoc, arith, ltb, ◌==◌, length-drop,
}
use bigarchive.Snapshot.Trace.{first_4_bytes, Block, Segment}
use bigarchive.Snapshot.Trace.Blocks.{Fits}
use bigarchive.Snapshot.Trace.MinHash.{sum_sizes}
use bigarchive.Snapshot.Types.{BlockMeta, SegmentMeta}
use bigarchive.Snapshot.Types.Metas.{BlockFits}
use bigarchive.Snapshot.Types.Recipes.{BlocksFollow}
use bigarchive.Snapshot.DataSource.{
  reserved_region_size, sample_region_size, sample_size, DataSource, sample_at, block_to_block_meta,
  segment_loop,
}

-- A block that the source turns into metadata: it has bytes, and no more than are reserved.
pub record IsGiven (b : Block) : Type 0 where
  pub some_bytes : 0 < b.size
  pub not_big : b.size ≤ reserved_region_size

-- the metadata of the block `b` that ends at `e`
abbrev pub meta_of : Option (List ℕ) → ℕ → Block → BlockMeta
meta_of sample e b = record {
  end_offset = e;
  size = b.size;
  cksum = b.cksum;
  handle = 0;
  flags = 0;
  bytes = sample_at sample (first_4_bytes b.cksum % sample_region_size);
  is_allocated = false;
}

-- the recipe of blocks that start at `offset`
pub layout : Option (List ℕ) → ℕ → List Block → List BlockMeta
layout sample offset [] = []
layout sample offset (b ∷ bs) =
    meta_of sample (offset + b.size) b ∷ layout sample (offset + b.size) bs

block_to_block_meta-IsGiven :
    (ds : DataSource) (bm : BlockMeta) (b : Block)
    → IsGiven b
    → bm.is_allocated ≡ false
    → block_to_block_meta ds bm b ≡ (true, meta_of ds.sample_data b.size b)
unfolding block_to_block_meta
block_to_block_meta-IsGiven ds bm b g fresh =
    let some_bytes : (b.size == 0) ≡ false = ground (arith, g.some_bytes) in
    let fits : ltb reserved_region_size b.size ≡ false = ground (arith, g.not_big) in
    rw (some_bytes, fits, fresh) refl

pub segment_loop-layout :
    (ds : DataSource) (bm : BlockMeta) (offset : ℕ) (recipe : List BlockMeta) (bs : List Block)
    → All IsGiven bs
    → bm.is_allocated ≡ false
    → offset + sum_sizes bs < 2 ^ 32
    → segment_loop ds bm offset recipe bs
      ≡ (true, offset + sum_sizes bs, recipe ++ layout ds.sample_data offset bs)
unfolding segment_loop layout sum_sizes
segment_loop-layout ds bm offset recipe [] g fresh small =
    let none_more : offset + 0 ≡ offset = omega arith in rw (append-nil, none_more) refl
segment_loop-layout ds bm offset recipe (b ∷ bs) (gb, gs) fresh small =
    let placed = meta_of ds.sample_data (offset + b.size) b in
    let same : (offset + b.size) % 2 ^ 32 ≡ offset + b.size = omega (arith, small) in
    let rest =
      segment_loop-layout ds placed (offset + b.size) (recipe ++ placed ∷ []) bs gs refl
        (omega arith) in
    let sum : offset + b.size + sum_sizes bs ≡ offset + (b.size + sum_sizes bs) = omega arith in
    rw (block_to_block_meta-IsGiven ds bm b gb fresh, same, rest, sum, append_assoc) refl

-- The block's data can be read in full.
pub HasData : BlockMeta → Type 0
HasData m = (bytes : List ℕ) × (m.bytes ≡ some bytes) × (m.size ≤ length bytes)

-- what a segment made from the blocks `bs` is
pub record Describes (bs : List Block) (m : SegmentMeta) : Type 0 where
  pub cksums : map (λ (b : BlockMeta). b.cksum) m.segment_recipe ≡ map (λ (b : Block). b.cksum) bs
  pub sizes : map (λ (b : BlockMeta). b.size) m.segment_recipe ≡ map (λ (b : Block). b.size) bs
  pub follow : BlocksFollow 0 m.segment_recipe
  pub fits : All BlockFits m.segment_recipe
  pub all_data : All HasData m.segment_recipe
  pub few : length m.segment_recipe < 2 ^ 32
  pub total : m.size ≡ sum_sizes bs
  pub ends : m.end_offset ≡ m.size

layout-cksums :
    (d : Option (List ℕ)) (offset : ℕ) (bs : List Block)
    → map (λ (b : BlockMeta). b.cksum) (layout d offset bs) ≡ map (λ (b : Block). b.cksum) bs
unfolding layout
layout-cksums d offset [] = refl
layout-cksums d offset (b ∷ bs) = rw (layout-cksums d (offset + b.size) bs) refl

layout-sizes :
    (d : Option (List ℕ)) (offset : ℕ) (bs : List Block)
    → map (λ (b : BlockMeta). b.size) (layout d offset bs) ≡ map (λ (b : Block). b.size) bs
unfolding layout
layout-sizes d offset [] = refl
layout-sizes d offset (b ∷ bs) = rw (layout-sizes d (offset + b.size) bs) refl

layout-BlocksFollow :
    (d : Option (List ℕ)) (offset : ℕ) (bs : List Block) → BlocksFollow offset (layout d offset bs)
unfolding layout BlocksFollow
layout-BlocksFollow d offset [] = tt
layout-BlocksFollow d offset (b ∷ bs) = (refl, layout-BlocksFollow d (offset + b.size) bs)

layout-BlockFits :
    (d : Option (List ℕ)) (offset : ℕ) (bs : List Block)
    → All Fits bs
    → offset + sum_sizes bs < 2 ^ 32
    → All BlockFits (layout d offset bs)
unfolding layout sum_sizes
layout-BlockFits d offset [] h small = tt
layout-BlockFits d offset (b ∷ bs) (hb, hs) small = (
  record {
    cksum_fits = hb.cksum_fits;
    end_fits = omega (arith, small);
    size_fits = hb.size_fits;
    handle_fits = omega arith;
    flags_fits = omega arith;
  },
  layout-BlockFits d (offset + b.size) bs hs (omega (arith, small)),
)

layout-HasData :
    (sample : List ℕ) (offset : ℕ) (bs : List Block)
    → length sample ≡ sample_size
    → All IsGiven bs
    → All HasData (layout (some sample) offset bs)
unfolding layout HasData sample_at
layout-HasData sample offset [] enough g = tt
layout-HasData sample offset (b ∷ bs) enough (gb, gs) =
    let place = first_4_bytes b.cksum % sample_region_size in
    (
      (drop place sample, refl, omega (arith, length-drop place sample, gb.not_big, enough)),
      layout-HasData sample (offset + b.size) bs enough gs,
    )

-- Every block has a byte at least.
length-layout :
    (d : Option (List ℕ)) (offset : ℕ) (bs : List Block)
    → All IsGiven bs
    → length (layout d offset bs) ≤ sum_sizes bs
unfolding layout sum_sizes
length-layout d offset [] g = omega arith
length-layout d offset (b ∷ bs) (gb, gs) =
    omega (arith, gb.some_bytes, length-layout d (offset + b.size) bs gs)

-- the metadata that `GetSegment` makes of the segment `seg`
abbrev pub made_of : Option (List ℕ) → SegmentMeta → Segment → SegmentMeta
made_of d sm seg = record sm {
  segment_recipe = layout d 0 seg.blocklist;
  cksum = seg.cksum;
  end_offset = 0 + sum_sizes seg.blocklist;
  size = 0 + sum_sizes seg.blocklist;
  handle = 0;
}

pub made_of-Describes :
    (sample : List ℕ) (sm : SegmentMeta) (seg : Segment)
    → length sample ≡ sample_size
    → All IsGiven seg.blocklist
    → All Fits seg.blocklist
    → sum_sizes seg.blocklist < 2 ^ 32
    → Describes seg.blocklist (made_of (some sample) sm seg)
made_of-Describes sample sm seg enough given fits small =
    let bs = seg.blocklist in
    record {
      cksums = layout-cksums (some sample) 0 bs;
      sizes = layout-sizes (some sample) 0 bs;
      follow = layout-BlocksFollow (some sample) 0 bs;
      fits = layout-BlockFits (some sample) 0 bs fits (omega (arith, small));
      all_data = layout-HasData sample 0 bs enough given;
      few = omega (arith, length-layout (some sample) 0 bs given, small);
      total = omega arith;
      ends = refl;
    }
