-- ===== src/Snapshot/DataSource/Segments.antt =====
-- A segment that `GetSegment` makes has the blocks of the trace, one behind the other, with data.
use bigarchive.Prelude.{
  ℕ, ◌+◌, ◌%◌, ◌^◌, ◌<◌, ◌≤◌, ◌≡◌, refl, subst, sym, ◌⊎◌, inl, inr, true, false, Option, some,
  Option-cases, List, [], ◌∷◌, ◌++◌, length, All, arith, Bool-cases, leb, ◌==◌,
}
use bigarchive.Marshal.Stream.{good}
use bigarchive.Snapshot.Trace.{
  Block, fix_segment_size, new_segment, Sha, init, finish, blocks_to_stream,
}
use bigarchive.Snapshot.Trace.Blocks.{Fits, add_blocks}
use bigarchive.Snapshot.Trace.MinHash.{sum_sizes, add_blocks-IsFirstLeast}
use bigarchive.Snapshot.Trace.Loading.{cut, cut_lem, behind, filled, remaining, load_fix_size-cut}
use bigarchive.Snapshot.Types.{SegmentMeta, new_block_meta}
use bigarchive.Snapshot.DataSource.{reserved_region_size, sample_size, DataSource, get_segment}
use bigarchive.Snapshot.DataSource.Layout.{
  IsGiven, made_of, Describes, segment_loop-layout, made_of-Describes,
}

-- The blocks of one segment: all are given, all fit, and they have less than 10 MiB.
cut-IsGiven :
    (size : ℕ) (bs : List Block)
    → size < fix_segment_size
    → All Fits bs
    → All (λ (b : Block). b.size ≤ reserved_region_size) bs
    → let taken = (cut size bs).0 in
      All IsGiven taken
      × All Fits taken
      × (size + sum_sizes taken < fix_segment_size + reserved_region_size)
unfolding cut sum_sizes
cut-IsGiven size [] room h small = (tt, tt, omega arith)
cut-IsGiven size (b ∷ bs) room (hb, hs) (sb, ss) =
    let same : (size + b.size) % 2 ^ 32 ≡ size + b.size = omega (arith, room, sb) in
    let skip = cut-IsGiven size bs room hs ss in
    elim (Bool-cases (b.size == 0)) [
      | inl empty ↦ rw empty skip
      | inr some_bytes ↦
          let given : IsGiven b = record { some_bytes = ground arith; not_big = sb } in
          elim (Bool-cases (leb fix_segment_size (size + b.size))) [
            | inl full ↦
                rw (some_bytes, same, full) ((given, tt), (hb, tt), omega (arith, room, sb))
            | inr fewer ↦
                let (gs, fs, sum) = cut-IsGiven (size + b.size) bs (ground arith) hs ss in
                rw (some_bytes, same, fewer) ((given, gs), (hb, fs), omega (arith, sum))
          ]
    ]

-- A segment of no bytes has no block, and then no block with bytes is left.
none-taken :
    (bs : List Block) → All IsGiven (cut 0 bs).0 → sum_sizes (cut 0 bs).0 ≡ 0 → filled bs ≡ []
unfolding sum_sizes
none-taken bs given zero_sum =
    let (kept, full) = cut_lem 0 bs in
    let nothing = no_blocks (cut 0 bs).0 given zero_sum in
    elim (Option-cases (cut 0 bs).1) [
      | inl ended ↦ sym (rw (nothing, ended) at kept)
      | inr (left, e) ↦ absurd (omega (arith, full left e, zero_sum))
    ]
  where
    no_blocks : (taken : List Block) → All IsGiven taken → sum_sizes taken ≡ 0 → taken ≡ []
    no_blocks [] g e = refl
    no_blocks (b ∷ taken) (gb, gs) e = absurd (omega (arith, gb.some_bytes, e))

module _ (sha : Sha) where
  -- `LoadFixSize` keeps the blocks and their sizes, those of no blocks too.
  loaded :
      (bs : List Block)
      → All Fits bs
      → let seg = finish sha (add_blocks sha (init sha new_segment) bs) in
        (seg.blocklist ≡ bs) × (seg.size ≡ sum_sizes bs % 2 ^ 32)
  unfolding init finish sum_sizes
  loaded [] h = (refl, refl)
  loaded (b ∷ bs) h = let k = add_blocks-IsFirstLeast sha new_segment b bs h in (k.blocks, k.total)

  -- Over a trace of fitting blocks of at most 8 MiB each, with the sample data loaded, `GetSegment`
  -- ends, and loses or moves no block that has bytes. It answers `false` and leaves the metadata
  -- alone only when no such block is left. Otherwise the recipe has the checksums and the sizes of
  -- the blocks that were taken, one behind the other from 0 to the size of the segment, each fits
  -- its stored form, and its data can be read in full inside the sample data.
  pub get_segment-Describes :
      (ds : DataSource) (sample : List ℕ) (sm : SegmentMeta) (bs : List Block)
      → ds.sample_data ≡ some sample
      → length sample ≡ sample_size
      → ds.trace_stream ≡ good (blocks_to_stream bs)
      → All Fits bs
      → All (λ (b : Block). b.size ≤ reserved_region_size) bs
      → (taken : List Block) × (rest : Option (List Block)) × (taken ++ remaining rest ≡ filled bs)
        × (((filled bs ≡ [])
              × (get_segment sha ds sm
                  ≡ some (false, sm, record ds { trace_stream = behind rest })))
            ⊎ ((sm' : SegmentMeta) × (get_segment sha ds sm
                  ≡ some (true, sm', record ds { trace_stream = behind rest }))
                × Describes taken sm'))
  unfolding get_segment
  get_segment-Describes ds sample sm bs has enough trace h small =
      let taken = (cut 0 bs).0 in
      let rest = (cut 0 bs).1 in
      let (kept, full) = cut_lem 0 bs in
      let (given, fits, sum) = cut-IsGiven 0 bs (omega arith) h small in
      let (blocks, size) = loaded taken fits in
      let seg = finish sha (add_blocks sha (init sha new_segment) taken) in
      let run = load_fix_size-cut sha new_segment bs h in
      let ds' : DataSource = record ds { trace_stream = behind rest } in
      let made = segment_loop-layout ds' new_block_meta 0 [] taken given refl (omega arith) in
      let no_wrap : sum_sizes taken % 2 ^ 32 ≡ sum_sizes taken = omega (arith, sum) in
      (
        taken,
        rest,
        kept,
        elim (Bool-cases (sum_sizes taken == 0)) [
          | inl empty ↦ inl (
            none-taken bs given (ground (arith, empty)),
            rw (get_segment, trace, run, size, no_wrap, empty) refl,
          )
          | inr bytes ↦ inr (
            made_of ds.sample_data sm seg,
            rw (get_segment, trace, run, size, no_wrap, bytes, blocks, made) refl,
            subst (λ (t : List Block). Describes t (made_of ds.sample_data sm seg)) blocks
                (rw has (
                  made_of-Describes sample sm seg enough (rw blocks given) (rw blocks fits)
                    (rw blocks (omega (arith, sum))))),
          )
        ],
      )
