-- ===== src/AppendStore/Scanner/Blocks.antt =====
-- The scanner in a chunk of written blocks: the next record, and the next block.
use bigarchive.Prelude.{
  ℕ, suc, ◌+◌, ◌^◌, ◌<◌, ◌≡◌, refl, sym, ◌∙◌, ap, false, none, some, List, [], ◌∷◌, ◌++◌, length,
  replicate, take, All, length-append, append-nil, append_assoc, arith, ◌==◌, if◌then◌else◌,
}
use bigarchive.Exception.{ok}
use bigarchive.Marshal.Stream.{good}
use bigarchive.Prelude.Words.{bytes_of, length-bytes_of}
use bigarchive.Marshal.{serialize_word}
use bigarchive.Fs
use bigarchive.Fs.{Kfs}
use bigarchive.Fs.Log.{KfsLaws, read-frame_at}
use bigarchive.Fs.Tree.{KfsTree}
use bigarchive.AppendStore.Types.Handle.{to_string}
use bigarchive.AppendStore.Types.Records.{
  serialize_compressed, data_record, compressed_data_record, deserialize_compressed,
}
use bigarchive.AppendStore.Types.RecordLaws.{
  deserialize-serialize_data, deserialize-serialize_compressed,
}
use bigarchive.AppendStore.Codec.{Codec, CodecLaws}
use bigarchive.AppendStore.Index.Load.{size_at_end}
use bigarchive.AppendStore.Chunk.{compressed}
use bigarchive.AppendStore.Chunk.Extract.{serialize_all}
use bigarchive.AppendStore.Chunk.Read.{image, compressed-Fits, decompress_record-compressed}
use bigarchive.AppendStore.Chunk.Blocks.{
  Block, records_from, block_frame, data_of, BlockOk, AreBlocks,
}
use bigarchive.AppendStore.Scanner.{Scanner, found, member, next_block, next_record}
use bigarchive.AppendStore.Scanner.Rounds.{next_record-ok}

image-positive :
    (codec : Codec) (index n : ℕ) (bytes out : List ℕ) → 0 < length (image codec index n bytes out)
unfolding serialize_compressed serialize_word
image-positive codec index n bytes out =
    let c = compressed codec index n bytes out in
    omega (
      arith,
      length-append (bytes_of 8 c.index) (
          bytes_of 4 c.records
          ++ (bytes_of 4 c.orig_length
              ++ (bytes_of 4 c.compress_length
                  ++ (bytes_of 4 c.compress_length ++ take c.compress_length c.data_bytes)))),
      length-bytes_of 8 c.index,
    )

module _ (kfs : Kfs) (laws : KfsLaws kfs) (tree : KfsTree kfs) (codec : Codec)
    (law : CodecLaws codec) (k : ℕ) (removed : List ℕ) where
  open laws use {contents, position}

  -- The scanner is in the last chunk, with the records of `vs` behind the index `low` in its stream and
  -- the blocks `bs` behind its position in the file.
  pub record IsAt (low : ℕ) (vs : List (List ℕ)) (bs : List Block) (s : Scanner kfs.File)
      : Type 0 where
    pub stream : s.data_stream ≡ good (serialize_all (records_from low vs))
    pub last : s.chunk_list ≡ []
    pub codec_of : s.scanner_codec ≡ some codec
    pub number : s.chunk_id ≡ k
    pub deletes : s.delete_set ≡ removed
    pub pre : List ℕ
    pub f : kfs.File
    pub opened : s.scanner_file ≡ some f
    pub bytes : contents f ≡ pre ++ data_of codec (low + length vs) bs
    pub place : position f ≡ length pre
    pub vals_fit : All (λ (v : List ℕ). length v < 2 ^ 32) vs
    pub top : low + length vs < 2 ^ 62
    pub blocks : AreBlocks codec (low + length vs) bs
    pub some_vals : All (λ (b : Block). 0 < length b.vals) bs

  -- the next record of the stream
  pub next_record-IsAt :
      (low : ℕ) (v : List ℕ) (vs : List (List ℕ)) (bs : List Block) (s : Scanner kfs.File)
      → IsAt low (v ∷ vs) bs s
      → (s' : Scanner kfs.File) × (next_record kfs tree s ≡ (
        if member (suc low) removed
            then none
            else some (found (to_string (record { chunk_id = k; index = suc low })) v),
        s',
      ))
        × IsAt (suc low) vs bs s'
  unfolding records_from serialize_all
  next_record-IsAt low v vs bs s at =
      let parsed =
        deserialize-serialize_data data_record.new (record { val = v; index = suc low })
          (serialize_all (records_from (suc low) vs))
          (record { val_fits = at.vals_fit.0; index_fits = omega (arith, at.top) }) in
      let base : suc low + length vs ≡ low + suc (length vs) = omega arith in
      let s' : Scanner kfs.File = record s {
        data_stream = good (serialize_all (records_from (suc low) vs));
      } in
      (
        s',
        next_record-ok kfs tree s (record { val = v; index = suc low })
              (good (serialize_all (records_from (suc low) vs))) (rw at.stream parsed)
            ∙ ap
                (λ (d : List ℕ). (
                  if member (suc low) d
                      then none
                      else some
                          (found (to_string (record { chunk_id = s.chunk_id; index = suc low })) v),
                  s',
                ))
                at.deletes
            ∙ ap
                (λ (n : ℕ). (
                  if member (suc low) removed
                      then none
                      else some (found (to_string (record { chunk_id = n; index = suc low })) v),
                  s',
                ))
                at.number,
        record {
          stream = refl;
          last = at.last;
          codec_of = at.codec_of;
          number = at.number;
          deletes = at.deletes;
          pre = at.pre;
          f = at.f;
          opened = at.opened;
          bytes = rw base at.bytes;
          place = at.place;
          vals_fit = at.vals_fit.1;
          top = rw base at.top;
          blocks = rw base at.blocks;
          some_vals = at.some_vals;
        },
      )

  next_block-frame :
      (base : ℕ) (b : Block) (pre post : List ℕ) (f : kfs.File)
      → BlockOk codec base b
      → contents f ≡ pre ++ (block_frame codec base b ++ post)
      → position f ≡ length pre
      → (f' : kfs.File) × (next_block kfs (some codec) f
          ≡ (ok (some (serialize_all (records_from base b.vals))), f'))
        × (contents f' ≡ contents f)
        × (position f' ≡ length (pre ++ block_frame codec base b))
  unfolding next_block
  next_block-frame base b pre post f good_block c p =
      let bytes = serialize_all (records_from base b.vals) in
      let img = image codec (base + length b.vals) (length b.vals) bytes b.out in
      let (n, buf, same, pos) = read-frame_at kfs laws pre img post f c p good_block.small in
      let parsed =
        deserialize-serialize_compressed compressed_data_record.new
          (compressed codec (base + length b.vals) (length b.vals) bytes b.out) []
          (compressed-Fits codec (base + length b.vals) (length b.vals) bytes b.out
            good_block.block) in
      let whole : deserialize_compressed compressed_data_record.new (good img) ≡ _ =
        (rw append-nil at parsed) in
      let more : (length img == 0) ≡ false =
        ground (arith, image-positive codec (base + length b.vals) (length b.vals) bytes b.out) in
      (
        (Fs.read kfs (replicate (Fs.get_next_log_size kfs f).0 0) (Fs.get_next_log_size kfs f).1).1,
        rw
            (
              next_block,
              buf,
              n,
              more,
              whole,
              decompress_record-compressed codec (base + length b.vals) (length b.vals) bytes b.out
                  good_block.block law,
            )
            refl,
        same,
        pos,
      )

  pub next_block-end :
      (pre : List ℕ) (f : kfs.File)
      → contents f ≡ pre ++ []
      → position f ≡ length pre
      → (f' : kfs.File) × (next_block kfs (some codec) f ≡ (ok none, f'))
  unfolding next_block
  next_block-end pre f c p =
      let done = size_at_end kfs laws pre f (c ∙ append-nil pre) p in
      ((Fs.get_next_log_size kfs f).1, rw (next_block, done) refl)

  -- the stream is filled with the next block
  pub fill-IsAt :
      (low : ℕ) (b : Block) (bs : List Block) (s : Scanner kfs.File)
      → IsAt low [] (b ∷ bs) s
      → (f : kfs.File) × (f' : kfs.File) × (s.scanner_file ≡ some f)
        × (next_block kfs s.scanner_codec f
            ≡ (ok (some (serialize_all (records_from low b.vals))), f'))
        × IsAt low b.vals bs (record s {
          scanner_file = some f';
          data_stream = good (serialize_all (records_from low b.vals));
        })
  unfolding data_of AreBlocks
  fill-IsAt low b bs s at =
      let base : low + length {A = List ℕ} [] ≡ low = omega arith in
      let (hb, hs) = rw base at at.blocks in
      let (f', got, same, pos) =
        next_block-frame low b at.pre (data_of codec (low + length b.vals) bs) at.f hb
          (rw base at at.bytes) at.place in
      (
        at.f,
        f',
        at.opened,
        rw at.codec_of got,
        record {
          stream = refl;
          last = at.last;
          codec_of = at.codec_of;
          number = at.number;
          deletes = at.deletes;
          pre = at.pre ++ block_frame codec low b;
          f = f';
          opened = refl;
          bytes =
              same ∙ (rw base at at.bytes) ∙ sym (append_assoc at.pre (block_frame codec low b) _);
          place = pos;
          vals_fit = hb.vals_fit;
          top = hb.valid;
          blocks = hs;
          some_vals = at.some_vals.1;
        },
      )
