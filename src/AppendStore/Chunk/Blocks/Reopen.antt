-- ===== src/AppendStore/Chunk/Blocks/Reopen.antt =====
-- A chunk that was written and then opened for reading gives every value back.
use bigarchive.Prelude.{
  ℕ, ◌+◌, ◌-◌, ◌^◌, ◌<◌, ◌≡◌, refl, none, some, List, [], ◌∷◌, length, length-append, get_elem?,
  All, arith, true,
}
use bigarchive.Exception.{ok}
use bigarchive.Fs.{Kfs}
use bigarchive.Fs.Log.{KfsLaws}
use bigarchive.AppendStore.Types.Cache.{Cache}
use bigarchive.AppendStore.Index.Bytes.{Fits}
use bigarchive.AppendStore.Index.Load.{load_from_file-index_of}
use bigarchive.AppendStore.Codec.{Codec, CodecLaws}
use bigarchive.AppendStore.Chunk.{Chunk, read, load_index}
use bigarchive.AppendStore.Chunk.Blocks.{
  Block, next, block_frame, data_of, entries, all_vals, AreBlocks,
}
use bigarchive.AppendStore.Chunk.Blocks.Find.{Holds, read-all_vals}
use bigarchive.AppendStore.Chunk.Blocks.Append.{Written}

pub entries-Fits :
    (codec : Codec) (low p : ℕ) (bs : List Block)
    → AreBlocks codec low bs
    → p + length (data_of codec low bs) < 2 ^ 64
    → All Fits (entries codec low p bs)
unfolding AreBlocks data_of entries
entries-Fits codec low p [] h small = tt
entries-Fits codec low p (b ∷ bs) (hb, hs) small =
    let first = block_frame codec low b in
    let len = length-append first (data_of codec (next low b) bs) in
    (
      record { offset_fits = omega (arith, len); index_fits = omega (arith, hb.valid) },
      entries-Fits codec (next low b) (p + length first) bs hs (omega (arith, len)),
    )

module _ (kfs : Kfs) (laws : KfsLaws kfs) (codec : Codec) (law : CodecLaws codec) where
  -- For a chunk whose values are all written, with less than 2 GiB of data, a codec that undoes its
  -- compression and a KFS client that reads what was written: `LoadIndex` ends, and `Read` of an
  -- index that `Append` gave out succeeds with the value that was appended under it.
  pub read-load_index :
      (bs : List Block) (c : Chunk kfs.File) (cache : Cache) (i : ℕ) (v old : List ℕ)
      → Written kfs laws codec bs [] c
      → c.cache ≡ some cache
      → length (data_of codec 0 bs) < 2 ^ 31
      → 0 < i
      → i < 2 ^ 62
      → get_elem? (all_vals bs) (i - 1) ≡ some v
      → (c₁ : Chunk kfs.File) × (c₂ : Chunk kfs.File) × (load_index kfs c ≡ some c₁)
        × (read kfs i old c₁ ≡ some (ok true, v, c₂))
  unfolding load_index
  read-load_index bs c cache i v old w alive small pos top value =
      let es = entries codec 0 0 bs in
      let loaded =
        load_from_file-index_of kfs laws es c.index_file
          (entries-Fits codec 0 0 bs w.blocks (omega arith)) w.index_bytes in
      let c₁ : Chunk kfs.File = record c {
        index_map = es;
        max_index = elim (get_elem? es (length es - 1)) [ none ↦ c.max_index | some r ↦ r.index ];
      } in
      let holds : Holds kfs laws codec bs c₁ = record {
        data_bytes = w.data_bytes;
        index = refl;
        codec_alive = w.codec_alive;
        cache_alive = (cache, alive);
        blocks = w.blocks;
      } in
      let (c₂, got) = read-all_vals kfs laws codec law bs c₁ i v old holds pos top value in
      (c₁, c₂, rw (load_index, loaded) refl, got)
