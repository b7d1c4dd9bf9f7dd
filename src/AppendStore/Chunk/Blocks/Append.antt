-- ===== src/AppendStore/Chunk/Blocks/Append.antt =====
-- `Append` and `AppendIndex` keep the files of a chunk in step with the values that were appended.
use bigarchive.Prelude.{
  ℕ, suc, ◌+◌, ◌^◌, ◌<◌, ◌≡◌, refl, sym, ◌∙◌, ap, subst, false, Option, some, List, [], ◌∷◌, ◌++◌,
  length, length-append, append-nil, append_assoc, arith, ◌==◌,
}
use bigarchive.Exception.{Result, ok}
use bigarchive.Fs.{Kfs}
use bigarchive.Fs
use bigarchive.Fs.Log.{KfsLaws, frame, write-contents, write_with_retry-ok}
use bigarchive.AppendStore.Types.Records.{serialize_data}
use bigarchive.AppendStore.Index
use bigarchive.AppendStore.Index.{IndexRecord}
use bigarchive.AppendStore.Index.Load.{index_of}
use bigarchive.AppendStore.Codec.{Codec}
use bigarchive.AppendStore.Chunk.{Chunk, write_compressed, append_raw, append_entry, append_index}
use bigarchive.AppendStore.Chunk.Extract.{serialize_all}
use bigarchive.AppendStore.Chunk.Read.{image}
use bigarchive.AppendStore.Chunk.Blocks.{
  Block, records_from, next, block_bytes, block_frame, data_of, entries, BlockOk, AreBlocks,
}

-- how many values the blocks have
unfoldable pub total : List Block → ℕ
total [] = 0
total (b ∷ bs) = length b.vals + total bs

data_of-append :
    (codec : Codec) (low : ℕ) (bs : List Block) (b : Block)
    → data_of codec low (bs ++ b ∷ [])
      ≡ data_of codec low bs ++ block_frame codec (low + total bs) b
unfolding data_of total
data_of-append codec low [] b = let e : low + 0 ≡ low = omega arith in rw (e, append-nil) refl
data_of-append codec low (a ∷ bs) b =
    let e : low + (length a.vals + total bs) ≡ next low a + total bs = omega arith in
    rw (e, data_of-append codec (next low a) bs b)
      (sym (append_assoc (block_frame codec low a) (data_of codec (next low a) bs) _))

entries-append :
    (codec : Codec) (low p : ℕ) (bs : List Block) (b : Block)
    → entries codec low p (bs ++ b ∷ [])
      ≡ entries codec low p bs
        ++ record {
          offset = p + length (data_of codec low (bs ++ b ∷ []));
          index = low + total bs + length b.vals;
        }
          ∷ []
unfolding entries data_of total
entries-append codec low p [] b =
    let e : low + 0 + length b.vals ≡ next low b = omega arith in rw (append-nil, e) refl
entries-append codec low p (a ∷ bs) b =
    let first = block_frame codec low a in
    let others = data_of codec (next low a) (bs ++ b ∷ []) in
    let at : p + length (first ++ others) ≡ p + length first + length others =
      omega (arith, length-append first others) in
    let index : low + (length a.vals + total bs) + length b.vals
        ≡ next low a + total bs + length b.vals =
      omega arith in
    rw (at, index, entries-append codec (next low a) (p + length first) bs b) refl

index_of-append : (es fs : List IndexRecord) → index_of (es ++ fs) ≡ index_of es ++ index_of fs
unfolding index_of
index_of-append [] fs = refl
index_of-append (e ∷ es) fs =
    rw (index_of-append es fs)
      (sym (append_assoc (frame (Index.to_buffer e)) (index_of es) (index_of fs)))

AreBlocks-append :
    (codec : Codec) (low : ℕ) (bs : List Block) (b : Block)
    → AreBlocks codec low bs
    → BlockOk codec (low + total bs) b
    → AreBlocks codec low (bs ++ b ∷ [])
unfolding AreBlocks total
AreBlocks-append codec low [] b h k = (subst (λ (n : ℕ). BlockOk codec n b) (omega arith) k, tt)
AreBlocks-append codec low (a ∷ bs) b (ha, hs) k = (
  ha,
  AreBlocks-append codec (next low a) bs b hs
      (subst (λ (n : ℕ). BlockOk codec n b) (omega arith) k),
)

total-append : (bs : List Block) (b : Block) → total (bs ++ b ∷ []) ≡ total bs + length b.vals
unfolding total
total-append [] b = omega arith
total-append (a ∷ bs) b = omega (arith, total-append bs b)

pub records_from-append :
    (low : ℕ) (vs : List (List ℕ)) (v : List ℕ)
    → serialize_all (records_from low (vs ++ v ∷ []))
      ≡ serialize_all (records_from low vs)
        ++ serialize_data (record { val = v; index = suc (low + length vs) })
unfolding records_from serialize_all
records_from-append low [] v = let e : low + 0 ≡ low = omega arith in rw (e, append-nil) refl
records_from-append low (w ∷ vs) v =
    let e : low + suc (length vs) ≡ suc low + length vs = omega arith in
    rw (e, records_from-append (suc low) vs v, append_assoc) refl

-- What the chunk keeps when the values of `bs` were written and `vals` wait in the buffer.
pub record Written (kfs : Kfs) (laws : KfsLaws kfs) (codec : Codec) (bs : List Block)
    (vals : List (List ℕ)) (c : Chunk kfs.File) : Type 0 where
  pub data_bytes : laws.contents c.data_file ≡ data_of codec 0 bs
  pub index_bytes : laws.contents c.index_file ≡ index_of (entries codec 0 0 bs)
  pub max : c.max_index ≡ total bs + length vals
  pub count : c.flush_count ≡ length vals
  pub stream : c.block_stream ≡ serialize_all (records_from (total bs) vals)
  pub codec_alive : c.chunk_codec ≡ some codec
  pub blocks : AreBlocks codec 0 bs

-- The client writes what it is given in full.
abbrev pub WritesAll : Kfs → Type 0
WritesAll kfs = (bs : List ℕ) (f : kfs.File) → (kfs.write bs f).0 ≡ some (length bs)

module _ (kfs : Kfs) (laws : KfsLaws kfs) (all : WritesAll kfs) (codec : Codec) where
  -- one record more at the end of a log
  log_write :
      (bs : List ℕ) (f : kfs.File)
      → length (laws.contents f ++ frame bs) < 2 ^ 31
      → (Fs.write_with_retry kfs bs f
          ≡ (ok (length (laws.contents f ++ frame bs)), (Fs.write kfs bs f).1))
        × (laws.contents (Fs.write kfs bs f).1 ≡ laws.contents f ++ frame bs)
  log_write bs f small =
      let (done, stored) = write-contents kfs laws bs f (all (frame bs) f) small in
      (write_with_retry-ok kfs laws bs f (length (laws.contents f ++ frame bs)) done, stored)

  data_of-append₀ :
      (bs : List Block) (b : Block)
      → data_of codec 0 (bs ++ b ∷ []) ≡ data_of codec 0 bs ++ block_frame codec (total bs) b
  data_of-append₀ bs b =
      subst
        (λ (n : ℕ). data_of codec 0 (bs ++ b ∷ []) ≡ data_of codec 0 bs ++ block_frame codec n b)
        (omega arith) (data_of-append codec 0 bs b)

  index_of-append₀ :
      (bs : List Block) (b : Block)
      → index_of (entries codec 0 0 (bs ++ b ∷ []))
        ≡ index_of (entries codec 0 0 bs)
          ++ frame (
              Index.to_buffer (record {
                offset = length (data_of codec 0 (bs ++ b ∷ []));
                index = total bs + length b.vals;
              }))
  unfolding index_of
  index_of-append₀ bs b =
      let p : 0 + length (data_of codec 0 (bs ++ b ∷ []))
          ≡ length (data_of codec 0 (bs ++ b ∷ [])) =
        omega arith in
      let n : 0 + total bs + length b.vals ≡ total bs + length b.vals = omega arith in
      rw (entries-append codec 0 0 bs b, p, n, index_of-append, append-nil) refl

  append_raw-ok :
      (index numentry : ℕ) (bytes out : List ℕ) (c : Chunk kfs.File)
      → c.chunk_codec ≡ some codec
      → codec.compress bytes ≡ some out
      → length (laws.contents c.data_file ++ frame (image codec index numentry bytes out)) < 2 ^ 31
      → append_raw kfs index numentry bytes c ≡ (
        ok (length (laws.contents c.data_file ++ frame (image codec index numentry bytes out))),
        record c {
          data_file = (Fs.write kfs (image codec index numentry bytes out) c.data_file).1;
        },
      )
  unfolding append_raw write_compressed
  append_raw-ok index numentry bytes out c alive compresses small =
      let ran = (log_write (image codec index numentry bytes out) c.data_file small).0 in
      let wrote : write_compressed kfs (some codec) index numentry bytes c.data_file ≡ (
        ok (length (laws.contents c.data_file ++ frame (image codec index numentry bytes out))),
        (Fs.write kfs (image codec index numentry bytes out) c.data_file).1,
      ) =
        rw (compresses, ran) refl in
      ap (λ (r : Result ℕ × kfs.File). (r.0, record c { data_file = r.1 }))
        (ap (λ (o : Option Codec). write_compressed kfs o index numentry bytes c.data_file) alive
          ∙ wrote)

  append_entry-ok :
      (c : Chunk kfs.File)
      → let img = Index.to_buffer (record { offset = c.last_data; index = c.max_index }) in
        length (laws.contents c.index_file ++ frame img) < 2 ^ 31
        → append_entry kfs c ≡ (ok tt, record c { index_file = (Fs.write kfs img c.index_file).1 })
  unfolding append_entry
  append_entry-ok c small =
      let r : IndexRecord = record { offset = c.last_data; index = c.max_index } in
      let ran = (log_write (Index.to_buffer r) c.index_file small).0 in
      rw (append_entry, ran, ran) refl

  -- `AppendIndex` writes the waiting values as one block and its index record.
  pub append_index-Written :
      (bs : List Block) (b : Block) (c : Chunk kfs.File)
      → Written kfs laws codec bs b.vals c
      → BlockOk codec (total bs) b
      → 0 < length b.vals
      → length (data_of codec 0 (bs ++ b ∷ [])) < 2 ^ 31
      → length (index_of (entries codec 0 0 (bs ++ b ∷ []))) < 2 ^ 31
      → (c' : Chunk kfs.File) × (append_index kfs c ≡ (ok tt, c'))
        × Written kfs laws codec (bs ++ b ∷ []) [] c'
        × (c'.last_data ≡ length (data_of codec 0 (bs ++ b ∷ [])))
  unfolding append_index serialize_all records_from
  append_index-Written bs b c w good_block some_vals data_small index_small =
      let data' = data_of codec 0 (bs ++ b ∷ []) in
      let img = image codec c.max_index c.flush_count c.block_stream b.out in
      let same : img
          ≡ image codec (next (total bs) b) (length b.vals) (block_bytes (total bs) b) b.out =
        rw (w.max, w.count, w.stream) refl in
      let grown : laws.contents c.data_file ++ frame img ≡ data' =
        rw (same, w.data_bytes) (sym (data_of-append₀ bs b)) in
      let stored_at = length (laws.contents c.data_file ++ frame img) in
      let r : IndexRecord = record { offset = stored_at; index = c.max_index } in
      let indexed : laws.contents c.index_file ++ frame (Index.to_buffer r)
          ≡ index_of (entries codec 0 0 (bs ++ b ∷ [])) =
        rw (grown, w.index_bytes, w.max) (sym (index_of-append₀ bs b)) in
      let raw =
        append_raw-ok c.max_index c.flush_count c.block_stream b.out c w.codec_alive
          (rw w.stream good_block.block.compresses) (rw grown data_small) in
      let c₁ : Chunk kfs.File = record c {
        last_data = stored_at;
        flush_count = 0;
        block_stream = [];
        data_file = (Fs.write kfs img c.data_file).1;
      } in
      let entry = append_entry-ok c₁ (rw indexed index_small) in
      let waiting : (c.flush_count == 0) ≡ false = rw w.count (ground arith) in
      (
        record c₁ { index_file = (Fs.write kfs (Index.to_buffer r) c.index_file).1 },
        rw (append_index, waiting, raw, raw) entry,
        record {
          data_bytes = (log_write img c.data_file (rw grown data_small)).1 ∙ grown;
          index_bytes =
              (log_write (Index.to_buffer r) c.index_file (rw indexed index_small)).1 ∙ indexed;
          max = w.max ∙ omega (arith, total-append bs b);
          count = refl;
          stream = refl;
          codec_alive = w.codec_alive;
          blocks =
              AreBlocks-append codec 0 bs b w.blocks
                (subst (λ (n : ℕ). BlockOk codec n b) (omega arith) good_block);
        },
        ap length grown,
      )
