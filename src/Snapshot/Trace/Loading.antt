-- ===== src/Snapshot/Trace/Loading.antt =====
-- `LoadFixSize` ends on every stream, and cuts a trace into segments of about 2 MiB.
use bigarchive.Prelude.{
  ◌⊎◌, Option-cases, ℕ, zero, suc, ◌+◌, ◌%◌, ◌^◌, ◌<◌, ◌≤◌, ◌≡◌, refl, ap, Bool, true, false, not,
  ◌||◌, inl, inr, Option, none, some, List, [], ◌∷◌, ◌++◌, length, length-take, length-drop,
  length-append, All, arith, Bool-cases, if◌then◌else◌, leb, ◌==◌, leb→le,
}
use bigarchive.Prelude.Words.{bytes_of}
use bigarchive.Marshal.Stream.{IStream, good, read}
use bigarchive.Snapshot.Trace.{
  cksum_len, checksum_to_stream, fix_segment_size, checksum_from_stream, Block, block_from_stream,
  block_to_stream, blocks_to_stream, Segment, Sha, Filling, init, add_block, finish, blank,
  load_loop, load_fix_size,
}
use bigarchive.Snapshot.Trace.MinHash.{sum_sizes}
use bigarchive.Snapshot.Trace.Blocks.{Fits, add_blocks, block_from_stream-to_stream}

-- Every byte is either read or left.
length-read :
    (n : ℕ) (is : IStream) → length (read n is).0 + length (read n is).1.rest ≡ length is.rest
unfolding read
length-read n is = elim (Bool-cases (is.fail || is.eof)) [
  | inl bad ↦ rw bad (omega arith)
  | inr fine ↦ elim (Bool-cases (leb n (length is.rest))) [
    | inl fits ↦ rw (fine, fits) (ground (arith, length-take n is.rest, length-drop n is.rest))
    | inr short ↦ rw (fine, short) (omega arith)
  ]
]

-- A block that was read made the stream shorter.
block_from_stream-shorter :
    (old : Block) (is : IStream)
    → (block_from_stream old is).0 ≡ true
    → length (block_from_stream old is).2.rest < length is.rest
unfolding block_from_stream checksum_from_stream
block_from_stream-shorter old is h =
    let is' = (read 20 is).1 in ground (arith, h, length-read 20 is, length-read 16 is')

module _ (sha : Sha) where
  -- One round more than the bytes that are left is enough.
  load_loop-total :
      (fuel : ℕ) (blk : Block) (f : Filling sha) (is : IStream)
      → length is.rest < fuel
      → (r : Filling sha × IStream) × (load_loop sha fuel blk f is ≡ some r)
  unfolding load_loop
  load_loop-total zero blk f is h = absurd (omega arith)
  load_loop-total (suc fuel) blk f is h = elim (Bool-cases (block_from_stream blk is).0) [
    | inl done ↦
        let shorter = block_from_stream-shorter blk is done in
        let blk' = (block_from_stream blk is).1 in
        let is' = (block_from_stream blk is).2 in
        let f' = add_block sha f blk' in
        let skip = load_loop-total fuel blk' f is' (omega arith) in
        let next = load_loop-total fuel blk' f' is' (omega arith) in
        elim (Bool-cases (blk'.size == 0)) [
          | inl empty ↦ rw (done, empty) skip
          | inr filled ↦ elim (Bool-cases (leb fix_segment_size f'.0.size)) [
            | inl full ↦ rw (done, filled, full) ((f', is'), refl)
            | inr room ↦ rw (done, filled, room) next
          ]
        ]
    | inr end ↦ rw end ((f, (block_from_stream blk is).2), refl)
  ]

  -- `LoadFixSize` ends on every stream, within one round more than the bytes that are left.
  pub load_fix_size-total :
      (s : Segment) (is : IStream)
      → (r : Bool × Segment × IStream) × (load_fix_size sha s is ≡ some r)
  unfolding load_fix_size
  load_fix_size-total s is =
      let ((f, is'), e) =
        load_loop-total (suc (length is.rest)) blank (init sha s) is (omega arith) in
      rw (load_fix_size, e) ((not ((finish sha f).size == 0), finish sha f, is'), refl)

-- What one segment takes of the blocks of a trace, after `size` bytes: blocks of no bytes are
-- skipped, and the block that reaches 2 MiB is the last one. `none` is left when the trace ended first.
unfoldable pub cut : ℕ → List Block → List Block × Option (List Block)
cut size [] = ([], none)
cut size (b ∷ bs) =
    let skip = cut size bs in
    let size' = (size + b.size) % 2 ^ 32 in
    let (taken, rest) = cut size' bs in
    if b.size == 0
    then skip
    else if leb fix_segment_size size'
    then (b ∷ [], some bs)
    else (b ∷ taken, rest)

-- the stream behind those blocks
abbrev pub behind : Option (List Block) → IStream
behind none = record { rest = []; eof = true; fail = true }
behind (some bs) = good (blocks_to_stream bs)

block_from_stream-nil : (old : Block) → (block_from_stream old (good [])).0 ≡ false
unfolding block_from_stream checksum_from_stream read
block_from_stream-nil old = refl

block_from_stream-nil_behind : (old : Block) → (block_from_stream old (good [])).2 ≡ behind none
unfolding block_from_stream checksum_from_stream read
block_from_stream-nil_behind old = refl

module _ (sha : Sha) where
  load_loop-cut :
      (fuel : ℕ) (old : Block) (f : Filling sha) (bs : List Block)
      → length bs < fuel
      → length old.cksum ≡ cksum_len
      → All Fits bs
      → load_loop sha fuel old f (good (blocks_to_stream bs))
        ≡ some (add_blocks sha f (cut f.0.size bs).0, behind (cut f.0.size bs).1)
  unfolding load_loop blocks_to_stream cut add_block
  load_loop-cut zero old f bs h ho fits = absurd (omega arith)
  load_loop-cut (suc fuel) old f [] h ho fits =
      rw (block_from_stream-nil old, block_from_stream-nil_behind old) refl
  load_loop-cut (suc fuel) old f (b ∷ bs) h ho (hb, hs) =
      let f' = add_block sha f b in
      let skip = load_loop-cut fuel b f bs (omega arith) hb.cksum_fits hs in
      let next = load_loop-cut fuel b f' bs (omega arith) hb.cksum_fits hs in
      rw (block_from_stream-to_stream old b _ ho hb) (elim (Bool-cases (b.size == 0)) [
        | inl empty ↦ rw empty skip
        | inr filled ↦ elim (Bool-cases (leb fix_segment_size ((f.0.size + b.size) % 2 ^ 32))) [
          | inl full ↦ rw (filled, full) refl
          | inr room ↦ rw (filled, room) next
        ]
      ])

  length-blocks_to_stream : (bs : List Block) → length bs ≤ length (blocks_to_stream bs)
  unfolding blocks_to_stream block_to_stream bytes_of
  length-blocks_to_stream [] = omega arith
  length-blocks_to_stream (b ∷ bs) = ground (
    arith,
    length-append (block_to_stream b) (blocks_to_stream bs),
    length-append (checksum_to_stream b.cksum)
        (bytes_of 4 b.file_id ++ (bytes_of 4 b.size ++ bytes_of 8 b.offset)),
    length-blocks_to_stream bs,
  )

-- the blocks that have bytes
pub filled : List Block → List Block
filled [] = []
filled (b ∷ bs) = let rest = filled bs in if b.size == 0 then rest else b ∷ rest

abbrev pub remaining : Option (List Block) → List Block
remaining none = []
remaining (some bs) = filled bs

-- Cutting loses no block that has bytes and keeps their order, and it leaves blocks behind only
-- when the segment has 2 MiB or more (as far as 32 bits count them).
pub cut_lem :
    (size : ℕ) (bs : List Block)
    → let (taken, rest) = cut size bs in
      (taken ++ remaining rest ≡ filled bs)
      × ((left : List Block)
          → rest ≡ some left
          → fix_segment_size ≤ (size + sum_sizes taken) % 2 ^ 32)
unfolding cut filled sum_sizes
cut_lem size [] = (refl, λ left e. absurd cc)
cut_lem size (b ∷ bs) =
    let size' = (size + b.size) % 2 ^ 32 in
    elim (Bool-cases (b.size == 0)) [
      | inl empty ↦ rw empty (cut_lem size bs)
      | inr some_bytes ↦ elim (Bool-cases (leb fix_segment_size size')) [
        | inl full ↦ rw (some_bytes, full) (refl, λ left e. omega (arith, leb→le _ _ full))
        | inr room ↦
            rw (some_bytes, room)
              (
                ap (λ (t : List Block). b ∷ t) (cut_lem size' bs).0,
                λ left e. omega (arith, (cut_lem size' bs).1 left e),
              )
      ]
    ]

module _ (sha : Sha) where
  pub load_fix_size-cut :
      (s : Segment) (bs : List Block)
      → All Fits bs
      → load_fix_size sha s (good (blocks_to_stream bs)) ≡ (
          let seg = finish sha (add_blocks sha (init sha s) (cut 0 bs).0) in
          some (not (seg.size == 0), seg, behind (cut 0 bs).1))
  unfolding load_fix_size init
  load_fix_size-cut s bs fits =
      rw
        (
          load_fix_size,
          load_loop-cut sha (suc (length (blocks_to_stream bs))) blank (init sha s) bs
              (omega (arith, length-blocks_to_stream sha bs)) refl fits,
        )
        refl

  -- On a trace of blocks that fit their words, `LoadFixSize` ends, takes blocks from the front and
  -- leaves the stream behind them; no block that has bytes is lost or moved, blocks stay behind
  -- only when the segment has 2 MiB or more as far as 32 bits count them, and it answers whether
  -- the segment has any bytes.
  pub load_fix_size-partition :
      (s : Segment) (bs : List Block)
      → All Fits bs
      → (taken : List Block) × (rest : Option (List Block)) × (load_fix_size sha s
            (good (blocks_to_stream bs))
          ≡ (let seg = finish sha (add_blocks sha (init sha s) taken) in
              some (not (seg.size == 0), seg, behind rest)))
        × (taken ++ remaining rest ≡ filled bs)
        × ((rest ≡ none) ⊎ (fix_segment_size ≤ sum_sizes taken % 2 ^ 32))
  load_fix_size-partition s bs fits =
      let (kept, full) = cut_lem 0 bs in
      ((cut 0 bs).0, (cut 0 bs).1, load_fix_size-cut s bs fits, kept, stopped full)
    where
      stopped :
          ((left : List Block)
            → (cut 0 bs).1 ≡ some left
            → fix_segment_size ≤ (0 + sum_sizes (cut 0 bs).0) % 2 ^ 32)
          → ((cut 0 bs).1 ≡ none) ⊎ (fix_segment_size ≤ sum_sizes (cut 0 bs).0 % 2 ^ 32)
      stopped full = elim (Option-cases (cut 0 bs).1) [
        | inl ended ↦ inl ended
        | inr (left, e) ↦ inr (omega (arith, full left e))
      ]
