-- ===== src/AppendStore/Chunk/Blocks/Flush.antt =====
-- `Append` and `Flush` of a chunk together: after both, the appended value is in the files.
use bigarchive.Prelude.{
  ℕ, suc, ◌+◌, ◌^◌, ◌<◌, ◌≡◌, refl, sym, subst, true, false, ◌⊎◌, some, List, [], ◌∷◌, ◌++◌, length,
  length-append, get_elem?, get_elem?-append_last, append-nil, append_assoc, arith, inl, inr, ltb,
}
use bigarchive.Exception.{ok}
use bigarchive.Fs.{Kfs}
use bigarchive.Fs.Log.{KfsLaws}
use bigarchive.AppendStore.Codec.{Codec}
use bigarchive.AppendStore.Index.Load.{index_of}
use bigarchive.AppendStore.Chunk.{
  Chunk, append, append_index, append_raw, append_entry, flush, buffered,
}
use bigarchive.AppendStore.Chunk.Blocks.{Block, data_of, entries, all_vals, BlockOk}
use bigarchive.AppendStore.Chunk.Blocks.Append.{total, Written, WritesAll, append_index-Written}
use bigarchive.AppendStore.Chunk.Blocks.Steps.{CanAppend, append-Written}

-- the number of values, and where the last one is
pub length-all_vals : (bs : List Block) → length (all_vals bs) ≡ total bs
unfolding all_vals total
length-all_vals [] = refl
length-all_vals (b ∷ bs) = omega (arith, length-all_vals bs, length-append b.vals (all_vals bs))

pub all_vals-append :
    (bs : List Block) (b : Block) → all_vals (bs ++ b ∷ []) ≡ all_vals bs ++ b.vals
unfolding all_vals
all_vals-append [] b = append-nil b.vals
all_vals-append (a ∷ bs) b = rw (all_vals-append bs b, append_assoc) refl

pub last_of_blocks :
    (bs : List Block) (b : Block) (vals : List (List ℕ)) (v : List ℕ)
    → b.vals ≡ vals ++ v ∷ []
    → get_elem? (all_vals (bs ++ b ∷ [])) (total bs + length vals) ≡ some v
last_of_blocks bs b vals v e =
    let n : length (all_vals bs ++ vals) ≡ total bs + length vals =
      omega (arith, length-append (all_vals bs) vals, length-all_vals bs) in
    rw (all_vals-append bs b, e, sym (append_assoc (all_vals bs) vals (v ∷ [])), sym n)
      (get_elem?-append_last (all_vals bs ++ vals) v)

module _ (kfs : Kfs) where
  -- What no write of the chunk changes.
  pub record Same (c c' : Chunk kfs.File) : Type 0 where
    pub number : c'.chunk_id ≡ c.chunk_id
    pub data_on : c'.data_output_open ≡ c.data_output_open
    pub index_on : c'.index_output_open ≡ c.index_output_open
    pub dirty_kept : c'.dirty ≡ c.dirty
    pub cache_kept : c'.cache ≡ c.cache

  append_index-Same : (c : Chunk kfs.File) → Same c (append_index kfs c).1
  unfolding append_index append_raw append_entry
  append_index-Same c = record {
    number = ground arith;
    data_on = ground arith;
    index_on = ground arith;
    dirty_kept = ground arith;
    cache_kept = ground arith;
  }

  pub append-Same : (v : List ℕ) (c : Chunk kfs.File) → Same c (append kfs v c).1
  unfolding append buffered
  append-Same v c =
      let i = append_index-Same (buffered kfs v c) in
      record {
        number = ground (arith, i.number);
        data_on = ground (arith, i.data_on);
        index_on = ground (arith, i.index_on);
        dirty_kept = ground (arith, i.dirty_kept);
        cache_kept = ground (arith, i.cache_kept);
      }

  pub flush-Same : (c : Chunk kfs.File) → Same c (flush kfs c).1
  unfolding flush
  flush-Same c =
      let i = append_index-Same c in
      record {
        number = ground (arith, i.number);
        data_on = ground (arith, i.data_on);
        index_on = ground (arith, i.index_on);
        dirty_kept = ground (arith, i.dirty_kept);
        cache_kept = ground (arith, i.cache_kept);
      }

module _ (kfs : Kfs) (laws : KfsLaws kfs) (all : WritesAll kfs) (codec : Codec) where
  -- the value waits with those before it, or its block is written
  abbrev pub Pending : List Block → Block → Chunk kfs.File → Type 0
  Pending bs b c = Written kfs laws codec bs b.vals c ⊎ Written kfs laws codec (bs ++ b ∷ []) [] c

  pub append-Pending :
      (bs : List Block) (vals : List (List ℕ)) (v : List ℕ) (b : Block) (c : Chunk kfs.File)
      → Written kfs laws codec bs vals c
      → CanAppend kfs codec bs vals v b c
      → ((append kfs v c).0 ≡ ok (total bs + suc (length vals))) × Pending bs b (append kfs v c).1
  append-Pending bs vals v b c w can =
      let (c', ran, after) = append-Written kfs laws all codec bs vals v b c w can in
      rw ran (
        refl,
        elim after [
          | inl (few, waiting) ↦ inl (
              subst (λ (vs : List (List ℕ)). Written kfs laws codec bs vs c') (sym can.vals_of)
                waiting)
          | inr (full, written) ↦ inr written
        ],
      )

  pub flush-Written :
      (bs : List Block) (b : Block) (c : Chunk kfs.File)
      → c.dirty ≡ true
      → BlockOk codec (total bs) b
      → 0 < length b.vals
      → length b.vals < 2 ^ 32
      → length (data_of codec 0 (bs ++ b ∷ [])) < 2 ^ 31
      → length (index_of (entries codec 0 0 (bs ++ b ∷ []))) < 2 ^ 31
      → Pending bs b c
      → ((flush kfs c).0 ≡ ok tt) × Written kfs laws codec (bs ++ b ∷ []) [] (flush kfs c).1
  unfolding flush
  flush-Written bs b c dirty good_block some_vals few data_small index_small pending =
      elim pending [
        | inl waiting ↦
            let waits : ltb 0 c.flush_count ≡ true = rw waiting.count (ground arith) in
            let (c', ran, written, last) =
              append_index-Written kfs laws all codec bs b c waiting good_block some_vals data_small
                index_small in
            rw (ran, waits, dirty) (refl, written)
        | inr written ↦
            let none_waits : ltb 0 c.flush_count ≡ false = rw written.count refl in
            let kept : flush kfs c ≡ (ok tt, c) = ground (arith, none_waits) in
            rw kept (refl, written)
      ]
