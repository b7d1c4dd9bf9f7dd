-- ===== src/AppendStore/Chunk.antt =====
-- append-store/append_store_chunk.h and .cpp: a chunk keeps its pending records in a buffer, writes
-- them as one compressed record, and finds a record by the index of its blocks. The codec and the
-- cache, which the chunk holds by weak pointers, are `none` once destroyed.
pub mod Read
pub mod Extract
pub mod Blocks
pub mod Files
pub mod Identity
use bigarchive.Prelude.{
  ℕ, zero, suc, ◌+◌, ◌-◌, ◌*◌, ◌/◌, ◌%◌, ◌^◌, Bool, true, false, not, ◌&&◌, ◌||◌, Option, none,
  some, List, [], ◌∷◌, ◌++◌, length, take, get_elem?, replicate, ltb, leb, ◌==◌, if◌then◌else◌,
  bit_and,
}
use bigarchive.Prelude.Words.{overwrite}
use bigarchive.Exception.{
  Result, ok, err, append_store_write, append_store_read, append_store_compression,
}
use bigarchive.Marshal.Stream.{IStream, good}
use bigarchive.Fs.{Kfs}
use bigarchive.Fs
use bigarchive.AppendStore.Types.Handle.{Handle}
use bigarchive.AppendStore.Types.Cache
use bigarchive.AppendStore.Types.Cache.{Cache}
use bigarchive.AppendStore.Types.Records.{
  DataRecord, data_record, serialize_data, deserialize_data, CompressedDataRecord,
  compressed_data_record, serialize_compressed, deserialize_compressed,
}
use bigarchive.AppendStore.Index
use bigarchive.AppendStore.Index.{IndexRecord}
use bigarchive.AppendStore.Index.Load.{load_from_file}
use bigarchive.AppendStore.Codec.{Codec}

-- The chunk over the files of a client: `File` is the type of those.
pub record Chunk (File : Type 0) : Type 0 where
  pub chunk_id : ℕ
  pub index_map : List IndexRecord
  pub max_index : ℕ
  pub last_data : ℕ
  pub max_chunk_size : ℕ
  pub flush_count : ℕ
  pub dirty : Bool
  pub chunk_codec : Option Codec
  pub cache : Option Cache
  pub block_index_interval : ℕ
  pub data_file : File
  pub index_file : File
  pub block_stream : List ℕ
  pub data_input_open : Bool
  pub data_output_open : Bool
  pub index_output_open : Bool

unfoldable pub is_valid : ℕ → Bool
is_valid value = bit_and value 0xc000000000000000 == 0

-- `mIndexMap->begin() + i`: the offset where the block starts that the entry `i` ends
unfoldable pub start_offset : List IndexRecord → ℕ → Option ℕ
start_offset values zero = some 0
start_offset values (suc i) = elim (get_elem? values i) [ none ↦ none | some r ↦ some r.offset ]

-- The loop of `ExtractDataFromBlock`, with `ret`, `*data` and the cache. The record starts
-- uninitialised in C++, and zero here. `none` is no fuel.
unfoldable pub extract_loop :
    ℕ → ℕ → ℕ → Bool → List ℕ → Cache → IStream → Option (Result Bool × List ℕ × Cache)
extract_loop zero chunk_id index ret data' cache is = none
extract_loop (suc fuel) chunk_id index ret data' cache is =
    let next : Option (Result Bool × List ℕ × Cache) = elim (deserialize_data data_record.new is) [
      | err e ↦ some (err e, data', cache)
      | ok (r, is') ↦
          let cache' = Cache.insert cache (record { chunk_id = chunk_id; index = r.index }) r.val in
          let hit = extract_loop fuel chunk_id index true r.val cache' is' in
          let miss = extract_loop fuel chunk_id index ret data' cache' is' in
          if not (is_valid r.index)
          then some (err append_store_read, data', cache)
          else if r.index == index
          then hit
          else miss
    ] in
    if length is.rest == 0 || is.eof || is.fail then some (ok ret, data', cache) else next

-- `decompress` of what the compressed record holds, and the checks behind it
unfoldable pub decompress_record : Option Codec → CompressedDataRecord → Result (List ℕ)
decompress_record none crd = err append_store_compression
decompress_record (some codec) crd =
    elim (codec.decompress (take crd.compress_length crd.data_bytes)) [
      | none ↦ err append_store_compression
      | some out ↦ if length out == crd.orig_length then ok out else err append_store_compression
    ]

-- `CompressedDataRecord crd(index, numentry, data.size(), compressedSize, sbuf)`
unfoldable pub compressed : Codec → ℕ → ℕ → List ℕ → List ℕ → CompressedDataRecord
compressed codec index numentry bytes out = record {
  index = index;
  records = numentry;
  orig_length = length bytes % 2 ^ 32;
  compress_length = length out % 2 ^ 32;
  data_bytes = overwrite out (replicate (codec.get_buffer_size (length bytes % 2 ^ 32)) 0);
}

module _ (kfs : Kfs) where
  open kfs use {File}

  -- The result, `*data` and the chunk after it; each round reads at least a byte of the block.
  unfoldable pub extract_data_from_block :
      List ℕ → ℕ → List ℕ → Chunk File → Option (Result Bool × List ℕ × Chunk File)
  extract_data_from_block buf index data' c = elim c.cache [
    | none ↦ some (err append_store_read, data', c)
    | some cache ↦
        elim (extract_loop (suc (length buf)) c.chunk_id index false data' (Cache.clear cache)
          (good buf)) [
            | none ↦ none
            | some (res, data'', cache') ↦ some (res, data'', record c { cache = some cache' })
          ]
  ]

  unfoldable pub read_raw : ℕ → Chunk File → Result (List ℕ) × Chunk File
  read_raw offset c =
      let (read_len, f) = Fs.get_next_log_size kfs (Fs.seek kfs offset c.data_file) in
      let (blkdata, f') = Fs.read kfs (replicate read_len 0) f in
      let c' : Chunk File = record c { data_file = f' } in
      elim (deserialize_compressed compressed_data_record.new (good blkdata)) [
        | err e ↦ (err e, c')
        | ok (crd, is) ↦ (decompress_record c.chunk_codec crd, c')
      ]

  -- the body of `AppendRaw`, over the codec and the data file
  unfoldable pub write_compressed : Option Codec → ℕ → ℕ → List ℕ → File → Result ℕ × File
  write_compressed none index numentry bytes f = (err append_store_compression, f)
  write_compressed (some codec) index numentry bytes f = elim (codec.compress bytes) [
    | none ↦ (err append_store_compression, f)
    | some out ↦
        Fs.write_with_retry kfs (serialize_compressed (compressed codec index numentry bytes out)) f
  ]

  unfoldable pub append_raw : ℕ → ℕ → List ℕ → Chunk File → Result ℕ × Chunk File
  append_raw index numentry bytes c =
      let (res, f) = write_compressed c.chunk_codec index numentry bytes c.data_file in
      (res, record c { data_file = f })

  -- The index record of the block that ends at `mLastData`. Its position is only logged.
  unfoldable pub append_entry : Chunk File → Result (Unit {0}) × Chunk File
  append_entry c =
      let r : IndexRecord = record { offset = c.last_data; index = c.max_index } in
      let (res, f) = Fs.write_with_retry kfs (Index.to_buffer r) c.index_file in
      let c' : Chunk File = record c { index_file = f } in
      elim res [ ok n ↦ (ok tt, c') | err e ↦ (err e, c') ]

  unfoldable pub append_index : Chunk File → Result (Unit {0}) × Chunk File
  append_index c =
      let (res, c') = append_raw c.max_index c.flush_count c.block_stream c in
      if c.flush_count == 0 then (ok tt, c) else (elim res [
        | err e ↦ (err e, c')
        | ok written ↦
            append_entry (record c' { last_data = written; flush_count = 0; block_stream = [] })
      ])

  unfoldable pub flush : Chunk File → Result (Unit {0}) × Chunk File
  flush c =
      let written = append_index c in if c.dirty && ltb 0 c.flush_count then written else (ok tt, c)

  unfoldable pub is_chunk_full : Chunk File → Bool
  is_chunk_full c =
      let size : ℕ =
        (bit_and c.last_data 0xffffffff
          + bit_and (c.last_data / 2 ^ 32) 0xffffffff * 64 * 1024 * 1024)
        % 2 ^ 64 in
      leb c.max_chunk_size size || c.max_index == 2 ^ 64 - 1

  -- the record that `Append` puts in the buffer, before it writes a full one
  unfoldable pub buffered : List ℕ → Chunk File → Chunk File
  buffered bytes c =
      let new_index = (c.max_index + 1) % 2 ^ 64 in
      record c {
        max_index = new_index;
        block_stream = c.block_stream ++ serialize_data (record { val = bytes; index = new_index });
        flush_count = (c.flush_count + 1) % 2 ^ 32;
      }

  unfoldable pub append : List ℕ → Chunk File → Result ℕ × Chunk File
  append bytes c =
      let c' = buffered bytes c in
      let (res, c'') = append_index c' in
      if is_chunk_full c
      then (err append_store_write, c)
      else if leb c.block_index_interval c'.flush_count
      then (elim res [ ok u ↦ (ok c'.max_index, c'') | err e ↦ (err e, c'') ])
      else (ok c'.max_index, c')

  -- What `Read` does once the entry `i` covers the index; an offset outside the vector is `none`.
  unfoldable pub read_block :
      ℕ → ℕ → List ℕ → Chunk File → Option (Result Bool × List ℕ × Chunk File)
  read_block i index data' c = elim (start_offset c.index_map i) [
    | none ↦ none
    | some offset ↦
        let (res, c') = read_raw offset c in
        elim res [
          | err e ↦ some (err e, data', c')
          | ok buf ↦ extract_data_from_block buf index data' c'
        ]
  ]

  -- The result, `*data` and the chunk after it; `none` is a read outside the index vector.
  unfoldable pub read : ℕ → List ℕ → Chunk File → Option (Result Bool × List ℕ × Chunk File)
  read index data' c =
      let found = Index.find c.index_map index in
      if not (is_valid index) then some (ok false, data', c) else (elim found [
        | none ↦ none
        | some i ↦ elim (get_elem? c.index_map i) [
          | none ↦ some (ok false, data', c)
          | some r ↦
              let block = read_block i index data' c in
              if is_valid r.index then block else some (ok false, data', c)
        ]
      ])

  unfoldable pub enable_write : Chunk File → Result (Unit {0}) × Chunk File
  enable_write c =
      let c' : Chunk File = record c { last_data = kfs.size c.data_file % 2 ^ 64 } in
      let (opened, f) = Fs.open_file kfs c.data_file in
      let (opened', f') = Fs.open_file kfs c.index_file in
      let with_data : Result (Unit {0}) × Chunk File =
        if c.data_output_open
        then (ok tt, c')
        else (opened, record c' { data_file = f; data_output_open = true }) in
      let (res, c'') = with_data in
      elim res [
        | err e ↦ (err e, c'')
        | ok u ↦
            if c.index_output_open
            then (ok tt, c'')
            else (opened', record c'' { index_file = f'; index_output_open = true })
      ]

  -- closing a helper that was opened for writing syncs its file
  unfoldable pub disable_write : Chunk File → Chunk File
  disable_write c = record c {
    data_file = if c.data_output_open then kfs.sync c.data_file else c.data_file;
    index_file = if c.index_output_open then kfs.sync c.index_file else c.index_file;
    data_output_open = false;
    index_output_open = false;
  }

  unfoldable pub disable_read : Chunk File → Chunk File
  disable_read c = record c { data_input_open = false }

  unfoldable pub check_read_permission : Chunk File → Bool
  check_read_permission c = c.data_input_open

  unfoldable pub check_write_permission : Chunk File → Bool
  check_write_permission c = c.data_output_open && c.index_output_open

  -- `LoadIndex`, with the largest index from the last entry; `none` is no fuel of the loading loop.
  unfoldable pub load_index : Chunk File → Option (Chunk File)
  load_index c = elim (load_from_file kfs c.index_file) [
    | none ↦ none
    | some es ↦ some (record c {
      index_map = es;
      max_index = elim (get_elem? es (length es - 1)) [ none ↦ c.max_index | some r ↦ r.index ];
    })
  ]
