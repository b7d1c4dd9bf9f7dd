-- ===== src/AppendStore/Chunk/Read.antt =====
-- A block that was written is read back from its offset.
use bigarchive.Prelude.{
  ℕ, ◌+◌, ◌%◌, ◌^◌, ◌<◌, ◌≡◌, refl, some, List, [], ◌++◌, length, take, drop, replicate,
  length-append, append-nil, arith, ==_refl,
}
use bigarchive.Exception.{ok}
use bigarchive.Marshal.Stream.{good, take-append}
use bigarchive.Marshal.RoundTrip.{take-length}
use bigarchive.Fs
use bigarchive.Fs.{Kfs}
use bigarchive.Fs.Log.{KfsLaws, frame, read-frame}
use bigarchive.AppendStore.Types.Records.{
  compressed_data_record, serialize_compressed, deserialize_compressed,
}
use bigarchive.AppendStore.Types.RecordLaws.{CompressedFits, deserialize-serialize_compressed}
use bigarchive.AppendStore.Codec.{Codec, CodecLaws}
use bigarchive.AppendStore.Chunk.{Chunk, compressed, decompress_record, read_raw}

-- A block of `numentry` records up to `index`, whose bytes the codec compresses to `out`, and whose
-- numbers fit their words.
pub record IsBlock (codec : Codec) (index numentry : ℕ) (bytes out : List ℕ) : Type 0 where
  pub compresses : codec.compress bytes ≡ some out
  pub index_fits : index < 2 ^ 64
  pub records_fits : numentry < 2 ^ 32
  pub bytes_fit : length bytes < 2 ^ 32
  pub out_fits : length out + 24 < 2 ^ 32

-- the bytes that `AppendRaw` writes for it
abbrev pub image : Codec → ℕ → ℕ → List ℕ → List ℕ → List ℕ
image codec index numentry bytes out =
    serialize_compressed (compressed codec index numentry bytes out)

module _ (codec : Codec) (index numentry : ℕ) (bytes out : List ℕ)
    (blk : IsBlock codec index numentry bytes out) where
  pub compressed-Fits : CompressedFits (compressed codec index numentry bytes out)
  unfolding compressed
  compressed-Fits =
      let n : length out % 2 ^ 32 ≡ length out = omega (arith, blk.out_fits) in
      record {
        index_fits = blk.index_fits;
        records_fits = blk.records_fits;
        orig_fits = omega arith;
        compress_fits = omega arith;
        within = omega (
          arith,
          length-append out
              (drop (length out) (replicate (codec.get_buffer_size (length bytes % 2 ^ 32)) 0)),
        );
      }

  pub decompress_record-compressed :
      CodecLaws codec
      → decompress_record (some codec) (
          let crd = compressed codec index numentry bytes out in
          record crd { data_bytes = take crd.compress_length crd.data_bytes })
        ≡ ok bytes
  unfolding decompress_record compressed
  decompress_record-compressed law =
      let n : length out % 2 ^ 32 ≡ length out = omega (arith, blk.out_fits) in
      let m : length bytes % 2 ^ 32 ≡ length bytes = omega (arith, blk.bytes_fit) in
      rw (n, take-append, take-length, law.decompress-compress bytes out blk.compresses, m, ==_refl)
        refl

module _ (kfs : Kfs) (laws : KfsLaws kfs) where
  open laws use {contents}

  pub read_raw-image :
      (codec : Codec) (index numentry : ℕ) (bytes out pre post : List ℕ) (c : Chunk kfs.File)
      → CodecLaws codec
      → IsBlock codec index numentry bytes out
      → length (image codec index numentry bytes out) < 2 ^ 32
      → c.chunk_codec ≡ some codec
      → contents c.data_file ≡ pre ++ (frame (image codec index numentry bytes out) ++ post)
      → (f' : kfs.File) × (read_raw kfs (length pre) c ≡ (ok bytes, record c { data_file = f' }))
        × (contents f' ≡ contents c.data_file)
  unfolding read_raw
  read_raw-image codec index numentry bytes out pre post c law blk small alive at =
      let img = image codec index numentry bytes out in
      let (n, buf, same, pos) = read-frame kfs laws pre img post c.data_file at small in
      let parsed =
        deserialize-serialize_compressed compressed_data_record.new
          (compressed codec index numentry bytes out) []
          (compressed-Fits codec index numentry bytes out blk) in
      let whole : deserialize_compressed compressed_data_record.new (good img) ≡ _ =
        (rw append-nil at parsed) in
      (
        (Fs.read kfs
            (replicate (Fs.get_next_log_size kfs (Fs.seek kfs (length pre) c.data_file)).0 0)
            (Fs.get_next_log_size kfs (Fs.seek kfs (length pre) c.data_file)).1).1,
        rw
            (
              read_raw,
              buf,
              whole,
              alive,
              decompress_record-compressed codec index numentry bytes out blk law,
            )
            refl,
        same,
      )
