-- ===== src/AppendStore/Chunk/Blocks/Steps.antt =====
-- One `Append`: the value waits in the buffer, or the full buffer is written as a block.
use bigarchive.Prelude.{
  ℕ, suc, ◌+◌, ◌%◌, ◌^◌, ◌<◌, ◌≤◌, ◌≡◌, refl, sym, ◌∙◌, ap, subst, false, ◌⊎◌, List, [], ◌∷◌, ◌++◌,
  length, length-append, arith, Bool-cases, inl, inr, leb,
}
use bigarchive.Exception.{ok}
use bigarchive.Fs.{Kfs}
use bigarchive.Fs.Log.{KfsLaws}
use bigarchive.AppendStore.Types.Records.{serialize_data}
use bigarchive.AppendStore.Codec.{Codec}
use bigarchive.AppendStore.Index.Load.{index_of}
use bigarchive.AppendStore.Chunk.{Chunk, is_chunk_full, buffered, append}
use bigarchive.AppendStore.Chunk.Extract.{serialize_all}
use bigarchive.AppendStore.Chunk.Blocks.{Block, records_from, data_of, entries, BlockOk}
use bigarchive.AppendStore.Chunk.Blocks.Append.{
  total, records_from-append, Written, WritesAll, append_index-Written,
}

-- What an `Append` needs besides: the chunk is not full, the counters do not overflow, and the
-- block `b` that it may write is one of the format and fits the files.
pub record CanAppend (kfs : Kfs) (codec : Codec) (bs : List Block) (vals : List (List ℕ))
    (v : List ℕ) (b : Block) (c : Chunk kfs.File) : Type 0 where
  pub room : is_chunk_full kfs c ≡ false
  pub top : total bs + suc (length vals) < 2 ^ 62
  pub few : suc (length vals) < 2 ^ 32
  pub vals_of : b.vals ≡ vals ++ v ∷ []
  pub good_block : BlockOk codec (total bs) b
  pub data_small : length (data_of codec 0 (bs ++ b ∷ [])) < 2 ^ 31
  pub index_small : length (index_of (entries codec 0 0 (bs ++ b ∷ []))) < 2 ^ 31

module _ (kfs : Kfs) (laws : KfsLaws kfs) (all : WritesAll kfs) (codec : Codec) where
  pub buffered-Written :
      (bs : List Block) (vals : List (List ℕ)) (v : List ℕ) (c : Chunk kfs.File)
      → Written kfs laws codec bs vals c
      → total bs + suc (length vals) < 2 ^ 62
      → suc (length vals) < 2 ^ 32
      → Written kfs laws codec bs (vals ++ v ∷ []) (buffered kfs v c)
        × ((buffered kfs v c).max_index ≡ total bs + suc (length vals))
        × ((buffered kfs v c).flush_count ≡ suc (length vals))
  unfolding buffered
  buffered-Written bs vals v c w top few =
      let len : length (vals ++ v ∷ []) ≡ suc (length vals) =
        omega (arith, length-append vals (v ∷ [])) in
      let index : (c.max_index + 1) % 2 ^ 64 ≡ total bs + suc (length vals) =
        omega (arith, w.max) in
      let count : (c.flush_count + 1) % 2 ^ 32 ≡ suc (length vals) = omega (arith, w.count) in
      let same : suc (total bs + length vals) ≡ total bs + suc (length vals) = omega arith in
      let stream : c.block_stream
            ++ serialize_data (record { val = v; index = (c.max_index + 1) % 2 ^ 64 })
          ≡ serialize_all (records_from (total bs) (vals ++ v ∷ [])) =
        rw (w.stream, index, ← same) (sym (records_from-append (total bs) vals v)) in
      (
        record {
          data_bytes = w.data_bytes;
          index_bytes = w.index_bytes;
          max = index ∙ rw len refl;
          count = count ∙ sym len;
          stream = stream;
          codec_alive = w.codec_alive;
          blocks = w.blocks;
        },
        index,
        count,
      )

  -- Over a client that writes in full, `Append` to a chunk that is not full gives the next index;
  -- while the buffer has room the value waits there, and when it is full all waiting values are
  -- written as one block with its index record, in the format that the reader expects, as long as
  -- the counters and the files keep to their bounds.
  pub append-Written :
      (bs : List Block) (vals : List (List ℕ)) (v : List ℕ) (b : Block) (c : Chunk kfs.File)
      → Written kfs laws codec bs vals c
      → CanAppend kfs codec bs vals v b c
      → (c' : Chunk kfs.File) × (append kfs v c ≡ (ok (total bs + suc (length vals)), c'))
        × (((suc (length vals) < c.block_index_interval)
              × Written kfs laws codec bs (vals ++ v ∷ []) c')
            ⊎ ((c.block_index_interval ≤ suc (length vals))
                × Written kfs laws codec (bs ++ b ∷ []) [] c'))
  unfolding append
  append-Written bs vals v b c w can =
      let (waiting, index, count) = buffered-Written bs vals v c w can.top can.few in
      elim (Bool-cases (leb c.block_index_interval (buffered kfs v c).flush_count)) [
        | inl full ↦
            let ready =
              subst (λ (vs : List (List ℕ)). Written kfs laws codec bs vs (buffered kfs v c))
                (sym can.vals_of) waiting in
            let some_vals : 0 < length b.vals =
              omega (arith, ap length can.vals_of, length-append vals (v ∷ [])) in
            let (c', ran, written, last) =
              append_index-Written kfs laws all codec bs b (buffered kfs v c) ready can.good_block
                some_vals can.data_small can.index_small in
            (
              c',
              rw (append, can.room, full, ran, ran, index) refl,
              inr (ground (arith, count), written),
            )
        | inr free ↦ (
          buffered kfs v c,
          rw (append, can.room, free, index) refl,
          inl (ground (arith, count), waiting),
        )
      ]
