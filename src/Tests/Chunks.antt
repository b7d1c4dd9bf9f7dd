-- ===== src/Tests/Chunks.antt =====
-- A chunk on files in memory: what is appended is written, loaded and read.
use bigarchive.Prelude.{
  ℕ, suc, ◌+◌, ◌<◌, ◌≤◌, ◌≡◌, refl, sym, true, false, ◌⊎◌, some, List, [], ◌∷◌, ◌++◌, length, take,
  drop, replicate, arith, All,
}
use bigarchive.Prelude.Words.{bytes_of}
use bigarchive.Exception.{ok}
use bigarchive.Marshal.{serialize_word, serialize_string}
use bigarchive.Fs
use bigarchive.Fs.{Kfs, header}
use bigarchive.Fs.Log.{KfsLaws, frame, read-frame}
use bigarchive.AppendStore.Types.Records.{DataRecord, serialize_data, serialize_compressed}
use bigarchive.AppendStore.Index
use bigarchive.AppendStore.Index.{IndexRecord}
use bigarchive.AppendStore.Index.Load.{index_of}
use bigarchive.AppendStore.Codec.{CodecLaws, none_codec}
use bigarchive.AppendStore.Chunk.{
  Chunk, compressed, is_chunk_full, is_valid, append, read, load_index, extract_data_from_block,
}
use bigarchive.AppendStore.Chunk.Extract.{
  IsStored, serialize_all, has_index, value_of, cached, extract_data_from_block-serialize_all,
}
use bigarchive.AppendStore.Chunk.Read.{IsBlock}
use bigarchive.AppendStore.Chunk.Blocks.{
  Block, records_from, data_of, entries, all_vals, BlockOk, AreBlocks,
}
use bigarchive.AppendStore.Chunk.Blocks.Append.{total, Written, WritesAll}
use bigarchive.AppendStore.Chunk.Blocks.Steps.{CanAppend, append-Written}
use bigarchive.AppendStore.Chunk.Blocks.Reopen.{read-load_index}

pub record MemFile : Type 0 where
  pub bytes : List ℕ
  pub position : ℕ

abbrev pub mem : Kfs
mem = record {
  File = MemFile;
  write = λ bs f. (some (length bs), record f { bytes = f.bytes ++ bs });
  tell = λ f. length f.bytes;
  seek = λ p f. record f { position = p };
  read = λ n f. (
    take n (drop f.position f.bytes),
    record f { position = f.position + length (take n (drop f.position f.bytes)) },
  );
  sync = λ f. f;
  open_append = λ f. (true, f);
  open_read = λ f. (true, record f { position = 0 });
  open_write = λ f. (true, f);
  size = λ f. length f.bytes;
}

abbrev pub mem_laws : KfsLaws mem
mem_laws = record {
  contents = λ f. f.bytes;
  position = λ f. f.position;
  write_whole = λ bs f e. (refl, refl);
  size_of = λ f. refl;
  seek_to = λ p f. (refl, refl);
  read_from = λ n f. (refl, refl, refl);
}

pub mem-WritesAll : WritesAll mem
mem-WritesAll bs f = refl

pub none_codec-CodecLaws : CodecLaws none_codec
unfolding none_codec
none_codec-CodecLaws = record { decompress-compress = λ bytes out e. sym e }

abbrev pub empty_file : MemFile
empty_file = record { bytes = []; position = 0 }

-- a chunk that writes a block after every second value
abbrev pub fresh : Chunk MemFile
fresh = record {
  chunk_id = 7;
  index_map = [];
  max_index = 0;
  last_data = 0;
  max_chunk_size = 1000;
  flush_count = 0;
  dirty = true;
  chunk_codec = some none_codec;
  cache = some [];
  block_index_interval = 1;
  data_file = empty_file;
  index_file = empty_file;
  block_stream = [];
  data_input_open = false;
  data_output_open = true;
  index_output_open = true;
}

abbrev pub value : List ℕ
value = 5 ∷ 6 ∷ []

abbrev pub block : Block
block = record { vals = value ∷ []; out = serialize_all (records_from 0 (value ∷ [])) }

program : Unit {0}
unfolding none_codec is_chunk_full total records_from serialize_all serialize_data serialize_word
    serialize_string bytes_of header compressed serialize_compressed data_of entries index_of
    all_vals AreBlocks Index.to_buffer is_valid
program = tt

block-IsBlock : IsBlock none_codec 1 1 (serialize_all (records_from 0 (value ∷ []))) block.out
unfolding program
block-IsBlock = record {
  compresses = refl;
  index_fits = omega arith;
  records_fits = omega arith;
  bytes_fit = omega arith;
  out_fits = omega arith;
}

pub block-BlockOk : BlockOk none_codec 0 block
unfolding program
block-BlockOk = record {
  block = block-IsBlock;
  small = omega arith;
  vals_fit = (omega arith, tt);
  valid = omega arith;
}

fresh-Written : Written mem mem_laws none_codec [] [] fresh
unfolding program
fresh-Written = record {
  data_bytes = refl;
  index_bytes = refl;
  max = refl;
  count = refl;
  stream = refl;
  codec_alive = refl;
  blocks = tt;
}

fresh-CanAppend : CanAppend mem none_codec [] [] value block fresh
unfolding program
fresh-CanAppend = record {
  room = refl;
  top = omega arith;
  few = omega arith;
  vals_of = refl;
  good_block = block-BlockOk;
  data_small = omega arith;
  index_small = omega arith;
}

append-Written_example :
    (c' : Chunk MemFile) × (append mem value fresh ≡ (ok (total [] + suc 0), c'))
    × (((suc 0 < 1) × Written mem mem_laws none_codec [] (value ∷ []) c')
        ⊎ ((1 ≤ suc 0) × Written mem mem_laws none_codec (block ∷ []) [] c'))
append-Written_example =
    append-Written mem mem_laws mem-WritesAll none_codec [] [] value block fresh fresh-Written
      fresh-CanAppend

abbrev stored : Chunk MemFile
stored = record fresh {
  max_index = 1;
  last_data = length (data_of none_codec 0 (block ∷ []));
  data_file = record { bytes = data_of none_codec 0 (block ∷ []); position = 0 };
  index_file = record { bytes = index_of (entries none_codec 0 0 (block ∷ [])); position = 0 };
}

stored-Written : Written mem mem_laws none_codec (block ∷ []) [] stored
unfolding program
stored-Written = record {
  data_bytes = refl;
  index_bytes = refl;
  max = refl;
  count = refl;
  stream = refl;
  codec_alive = refl;
  blocks = (block-BlockOk, tt);
}

read-load_index_example :
    (c₁ : Chunk MemFile) × (c₂ : Chunk MemFile) × (load_index mem stored ≡ some c₁)
    × (read mem 1 [] c₁ ≡ some (ok true, value, c₂))
unfolding program
read-load_index_example =
    read-load_index mem mem_laws none_codec none_codec-CodecLaws (block ∷ []) stored [] 1 value []
      stored-Written refl (omega arith) (omega arith) (omega arith) refl

abbrev two_records : List DataRecord
two_records = record { val = 9 ∷ []; index = 4 } ∷ record { val = 8 ∷ []; index = 5 } ∷ []

two_records-IsStored : All IsStored two_records
unfolding program
two_records-IsStored = (
  record { fits = record { val_fits = omega arith; index_fits = omega arith }; valid = refl },
  (record { fits = record { val_fits = omega arith; index_fits = omega arith }; valid = refl }, tt),
)

extract_data_from_block-serialize_all_example :
    extract_data_from_block mem (serialize_all two_records) 5 [] fresh
    ≡ some (
      ok (has_index 5 two_records),
      value_of 5 two_records [],
      record fresh { cache = some (cached 7 two_records []) },
    )
extract_data_from_block-serialize_all_example =
    extract_data_from_block-serialize_all mem two_records 5 [] fresh [] refl two_records-IsStored

abbrev front : List ℕ
front = 1 ∷ 2 ∷ []

abbrev log_file : MemFile
log_file = record { bytes = front ++ (frame value ++ 3 ∷ []); position = 0 }

read-frame_example :
    let (n, f₂) = Fs.get_next_log_size mem (Fs.seek mem (length front) log_file) in
    let (buf, f₃) = Fs.read mem (replicate n 0) f₂ in
    (n ≡ length value)
    × (buf ≡ value)
    × (f₃.bytes ≡ log_file.bytes)
    × (f₃.position ≡ length (front ++ frame value))
read-frame_example = read-frame mem mem_laws front value (3 ∷ []) log_file refl (omega arith)

abbrev records : List IndexRecord
records = record { offset = 40; index = 3 } ∷ record { offset = 90; index = 6 } ∷ []
