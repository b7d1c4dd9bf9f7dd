-- ===== src/AppendStore/Chunk/Blocks/Find.antt =====
-- `Read` finds every record of the blocks of a chunk.
use bigarchive.Prelude.{
  ℕ, zero, suc, ◌+◌, ◌-◌, ◌^◌, ◌<◌, ◌≤◌, ◌≡◌, refl, ◌∙◌, ap, true, false, some, List, [], ◌∷◌,
  length, get_elem?, All, arith, Bool-cases, inl, inr, ◌==◌, bit_and,
}
use bigarchive.Prelude.Bits.{bit_and-high}
use bigarchive.Exception.{ok}
use bigarchive.Fs.{Kfs}
use bigarchive.Fs.Log.{KfsLaws}
use bigarchive.AppendStore.Types.Cache.{Cache}
use bigarchive.AppendStore.Index
use bigarchive.AppendStore.Index.{IndexRecord}
use bigarchive.AppendStore.Index.Search.{count_below, find-count_below}
use bigarchive.AppendStore.Codec.{Codec, CodecLaws}
use bigarchive.AppendStore.Chunk.{Chunk, is_valid, start_offset, read_block, read}
use bigarchive.AppendStore.Chunk.Extract.{
  IsStored, serialize_all, value_of, has_index, cached, extract_data_from_block-serialize_all,
}
use bigarchive.AppendStore.Chunk.Read.{read_raw-image}
use bigarchive.AppendStore.Chunk.Blocks.{
  Block, records_from, next, data_of, entries, all_vals, AreBlocks,
}
use bigarchive.AppendStore.Chunk.Blocks.Locate.{entries-IsAscendingFrom, start_from, locate}

-- An index below 2 ^ 62 has neither of the two upper bits.
pub is_valid-small : (i : ℕ) → i < 2 ^ 62 → is_valid i ≡ true
unfolding is_valid
is_valid-small i h =
    let cleared : bit_and i 0xc000000000000000 ≡ 0 = bit_and-high 62 3 i h in rw cleared refl

records_from-IsStored :
    (low : ℕ) (vs : List (List ℕ))
    → All (λ (v : List ℕ). length v < 2 ^ 32) vs
    → low + length vs < 2 ^ 62
    → All IsStored (records_from low vs)
unfolding records_from
records_from-IsStored low [] h top = tt
records_from-IsStored low (v ∷ vs) (hv, hs) top = (
  record {
    fits = record { val_fits = hv; index_fits = omega arith };
    valid = is_valid-small (suc low) (omega arith);
  },
  records_from-IsStored (suc low) vs hs (omega arith),
)

value_of-behind :
    (i low : ℕ) (vs : List (List ℕ)) (old : List ℕ)
    → i ≤ low
    → value_of i (records_from low vs) old ≡ old
unfolding records_from value_of
value_of-behind i low [] old h = refl
value_of-behind i low (v ∷ vs) old h =
    let other : (suc low == i) ≡ false = ground arith in
    rw other (value_of-behind i (suc low) vs old (omega arith))

-- In a block the records are found at their indexes.
value_of-records_from :
    (i low : ℕ) (vs : List (List ℕ)) (v old : List ℕ)
    → low < i
    → get_elem? vs (i - suc low) ≡ some v
    → (value_of i (records_from low vs) old ≡ v) × (has_index i (records_from low vs) ≡ true)
unfolding records_from value_of has_index
value_of-records_from i low [] v old h e = absurd cc
value_of-records_from i low (w ∷ vs) v old h e = elim (Bool-cases (suc low == i)) [
  | inl same ↦
      let first : i - suc low ≡ 0 = ground arith in
      let w_v : w ≡ v = (let hit = rw first at e in cc) in
      rw same (value_of-behind i (suc low) vs w (ground arith) ∙ w_v, refl)
  | inr other ↦
      let later : i - suc low ≡ suc (i - suc (suc low)) = ground arith in
      rw other (value_of-records_from i (suc low) vs v old (ground arith) (rw later at e))
]

-- A chunk on the files of these blocks, with the codec and the cache alive and the index loaded.
pub record Holds (kfs : Kfs) (laws : KfsLaws kfs) (codec : Codec) (bs : List Block)
    (c : Chunk kfs.File) : Type 0 where
  pub data_bytes : laws.contents c.data_file ≡ data_of codec 0 bs
  pub index : c.index_map ≡ entries codec 0 0 bs
  pub codec_alive : c.chunk_codec ≡ some codec
  pub cache_alive : (cache : Cache) × (c.cache ≡ some cache)
  pub blocks : AreBlocks codec 0 bs

start_offset-start_from : (es : List IndexRecord) (k : ℕ) → start_offset es k ≡ start_from 0 es k
unfolding start_offset
start_offset-start_from es zero = refl
start_offset-start_from es (suc k) = refl

module _ (kfs : Kfs) (laws : KfsLaws kfs) (codec : Codec) (law : CodecLaws codec) where
  -- `Read` of an index that was given to a value in a written block succeeds and gives the value.
  pub read-all_vals :
      (bs : List Block) (c : Chunk kfs.File) (i : ℕ) (v old : List ℕ)
      → Holds kfs laws codec bs c
      → 0 < i
      → i < 2 ^ 62
      → get_elem? (all_vals bs) (i - 1) ≡ some v
      → (c' : Chunk kfs.File) × (read kfs i old c ≡ some (ok true, v, c'))
  unfolding read read_block
  read-all_vals bs c i v old holds pos top value =
      let es = entries codec 0 0 bs in
      let k = count_below i es in
      let at = locate codec i 0 0 bs v holds.blocks pos value in
      let found : Index.find c.index_map i ≡ some k =
        rw holds.index (find-count_below es i (entries-IsAscendingFrom codec 0 0 bs)) in
      let entry : get_elem? c.index_map k ≡ some at.entry = rw holds.index at.found in
      let start : start_offset c.index_map k ≡ some (length at.pre) =
        rw holds.index (start_offset-start_from es k ∙ at.start ∙ ap some (omega arith)) in
      let rs = records_from at.base at.b.vals in
      let ok_block = at.good_block in
      let (f', raw, same) =
        read_raw-image kfs laws codec (next at.base at.b) (length at.b.vals) (serialize_all rs)
          at.b.out at.pre at.post c law ok_block.block ok_block.small holds.codec_alive
          (holds.data_bytes ∙ at.stored) in
      let entry_valid : is_valid at.entry.index ≡ true =
        rw at.entry_index (is_valid-small (next at.base at.b) ok_block.valid) in
      let (hit, has) = value_of-records_from i at.base at.b.vals v old at.above at.value in
      let (cache, alive) = holds.cache_alive in
      let got =
        extract_data_from_block-serialize_all kfs rs i old (record c { data_file = f' }) cache alive
          (records_from-IsStored at.base at.b.vals ok_block.vals_fit ok_block.valid) in
      (
        record c { data_file = f'; cache = some (cached c.chunk_id rs []) },
        rw
            (
              read,
              is_valid-small i top,
              found,
              entry,
              entry_valid,
              read_block,
              start,
              raw,
              raw,
              got,
              hit,
              has,
            )
            refl,
      )
