-- ===== src/AppendStore/Chunk/Blocks/Waiting.antt =====
-- `Append` while the buffer has room: the value waits, and nothing is written.
use bigarchive.Prelude.{
  ℕ, suc, ◌+◌, ◌^◌, ◌<◌, ◌≡◌, refl, ap, false, List, [], ◌∷◌, ◌++◌, length, arith, leb,
}
use bigarchive.Exception.{ok}
use bigarchive.Fs.{Kfs}
use bigarchive.Fs.Log.{KfsLaws}
use bigarchive.AppendStore.Codec.{Codec}
use bigarchive.AppendStore.Chunk.{Chunk, is_chunk_full, buffered, append}
use bigarchive.AppendStore.Chunk.Blocks.{Block}
use bigarchive.AppendStore.Chunk.Blocks.Append.{total, Written, WritesAll}
use bigarchive.AppendStore.Chunk.Blocks.Steps.{buffered-Written}

module _ (kfs : Kfs) (laws : KfsLaws kfs) (all : WritesAll kfs) (codec : Codec) where
  room_left :
      (v : List ℕ) (c : Chunk kfs.File)
      → (buffered kfs v c).max_index < 2 ^ 62
      → is_chunk_full kfs c ≡ false
      → is_chunk_full kfs (buffered kfs v c) ≡ false
  unfolding is_chunk_full buffered
  room_left v c small room = ground arith

  append-buffered :
      (v : List ℕ) (c : Chunk kfs.File)
      → is_chunk_full kfs c ≡ false
      → leb c.block_index_interval (buffered kfs v c).flush_count ≡ false
      → append kfs v c ≡ (ok (buffered kfs v c).max_index, buffered kfs v c)
  unfolding append
  append-buffered v c room waits = rw (append, room, waits) refl

  interval_kept :
      (v : List ℕ) (c : Chunk kfs.File)
      → (buffered kfs v c).block_index_interval ≡ c.block_index_interval
  unfolding buffered
  interval_kept v c = refl

  pub append-waits :
      (bs : List Block) (vals : List (List ℕ)) (v : List ℕ) (c : Chunk kfs.File)
      → Written kfs laws codec bs vals c
      → is_chunk_full kfs c ≡ false
      → total bs + suc (length vals) < 2 ^ 62
      → suc (length vals) < 2 ^ 32
      → suc (length vals) < c.block_index_interval
      → ((append kfs v c).0 ≡ ok (total bs + suc (length vals)))
        × Written kfs laws codec bs (vals ++ v ∷ []) (append kfs v c).1
        × (is_chunk_full kfs (append kfs v c).1 ≡ false)
        × ((append kfs v c).1.block_index_interval ≡ c.block_index_interval)
  append-waits bs vals v c w room top few free =
      let (waiting, index, count) = buffered-Written kfs laws all codec bs vals v c w top few in
      let waits : leb c.block_index_interval (buffered kfs v c).flush_count ≡ false =
        ground (arith, count) in
      rw (append-buffered v c room waits)
        (ap ok index, waiting, room_left v c (omega (arith, index, top)) room, interval_kept v c)
