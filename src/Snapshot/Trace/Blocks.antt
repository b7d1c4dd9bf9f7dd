-- ===== src/Snapshot/Trace/Blocks.antt =====
-- Blocks and segments are read back from what `ToStream` wrote.
use bigarchive.Prelude.{
  ℕ, ◌-◌, ◌%◌, ◌^◌, ◌<◌, ◌≡◌, refl, subst, sym, ◌∙◌, true, List, [], ◌∷◌, ◌++◌, length, take, drop,
  All, append-nil, append_assoc, arith,
}
use bigarchive.Prelude.Words.{bytes_of, of_bytes, length-bytes_of, of_bytes-bytes_of}
use bigarchive.Marshal.Stream.{good, read-append}
use bigarchive.Marshal.RoundTrip.{drop-length, take-length}
use bigarchive.Snapshot.Trace.{
  cksum_len, record_size, Checksum, checksum_to_stream, checksum_from_stream, Block,
  block_to_stream, block_from_stream, blocks_to_stream, Segment, segment_to_stream, Sha, Filling,
  init, add_block, finish, from_stream_loop, blank, segment_from_stream,
}

-- A checksum has its 20 bytes, and the integers fit in uint32_t and uint64_t.
pub record Fits (b : Block) : Type 0 where
  pub cksum_fits : length b.cksum ≡ cksum_len
  pub file_id_fits : b.file_id < 2 ^ 32
  pub size_fits : b.size < 2 ^ 32
  pub offset_fits : b.offset < 2 ^ 64

-- what stands behind the checksum
abbrev words : Block → List ℕ
words b = bytes_of 4 b.file_id ++ (bytes_of 4 b.size ++ bytes_of 8 b.offset)

length-words : (b : Block) → length (words b) ≡ record_size - cksum_len
unfolding bytes_of
length-words b = refl

pub checksum_from_stream-to_stream :
    (old c : Checksum) (rest : List ℕ)
    → length old ≡ cksum_len
    → length c ≡ cksum_len
    → checksum_from_stream old (good (checksum_to_stream c ++ rest)) ≡ (true, c, good rest)
unfolding checksum_from_stream checksum_to_stream
checksum_from_stream-to_stream old c rest ho hc =
    rw (take_cksum, read-append c rest hc, drop-length old (ho ∙ sym hc), append-nil, hc)
  where
    take_cksum : take cksum_len c ≡ c
    take_cksum = subst (λ (n : ℕ). take n c ≡ c) hc (take-length c)

words_back :
    (b : Block)
    → Fits b
    → (of_bytes (take 4 (words b)) ≡ b.file_id)
      × (of_bytes (take 4 (drop 4 (words b))) ≡ b.size)
      × (of_bytes (take 8 (drop 8 (words b))) ≡ b.offset)
unfolding bytes_of of_bytes
words_back b fits = (ground arith, ground arith, ground arith)

-- A block is read back, whatever the variable held before and whatever follows in the stream.
pub block_from_stream-to_stream :
    (old b : Block) (rest : List ℕ)
    → length old.cksum ≡ cksum_len
    → Fits b
    → block_from_stream old (good (block_to_stream b ++ rest)) ≡ (true, b, good rest)
unfolding block_from_stream block_to_stream
block_from_stream-to_stream old b rest ho fits =
    let (f, s, o) = words_back b fits in
    rw (
      append_assoc,
      checksum_from_stream-to_stream old.cksum b.cksum _ ho fits.cksum_fits,
      read-append (words b) rest (length-words b),
      length-words b,
      f,
      s,
      o,
    )

module _ (sha : Sha) where
  -- `AddBlock` for each block in turn
  abbrev pub add_blocks : Filling sha → List Block → Filling sha
  add_blocks f [] = f
  add_blocks f (b ∷ bs) = add_blocks (add_block sha f b) bs

  from_stream_loop-blocks_to_stream :
      (bs : List Block) (old : Block) (f : Filling sha) (rest : List ℕ)
      → length old.cksum ≡ cksum_len
      → All Fits bs
      → from_stream_loop sha (length bs) old f (good (blocks_to_stream bs ++ rest))
        ≡ (true, finish sha (add_blocks f bs), good rest)
  unfolding from_stream_loop blocks_to_stream
  from_stream_loop-blocks_to_stream [] old f rest ho h = refl
  from_stream_loop-blocks_to_stream (b ∷ bs) old f rest ho (hb, hs) = rw (
    append_assoc,
    block_from_stream-to_stream old b _ ho hb,
    from_stream_loop-blocks_to_stream bs b (add_block sha f b) rest hb.cksum_fits hs,
  )

  -- Reading what `ToStream` wrote of fewer than 2 ^ 32 fitting blocks gives the segment that
  -- `Init`, an `AddBlock` for each block and `Final` make, and stops behind it.
  pub segment_from_stream-to_stream :
      (s old : Segment) (rest : List ℕ)
      → All Fits s.blocklist
      → length s.blocklist < 2 ^ 32
      → segment_from_stream sha old (good (segment_to_stream s ++ rest))
        ≡ (true, finish sha (add_blocks (init sha old) s.blocklist), good rest)
  unfolding segment_from_stream segment_to_stream
  segment_from_stream-to_stream s old rest h small =
      let n = length s.blocklist in
      let same : n % 2 ^ 32 ≡ n = omega arith in
      rw (
        same,
        append_assoc,
        read-append (bytes_of 4 n) _ (length-bytes_of 4 n),
        length-bytes_of 4 n,
        of_bytes-bytes_of 4 n (omega arith),
        from_stream_loop-blocks_to_stream s.blocklist blank (init sha old) rest refl h,
      )
