-- ===== src/Tests/Trees.antt =====
-- A store on files in memory: what is appended is read, by a reader that takes turns with the writer.
use bigarchive.Prelude.{
  ℕ, ◌+◌, ◌≡◌, refl, true, Bool, ◌*◌, Option, none, some, List, [], ◌∷◌, ◌++◌, get_elem?, length,
  arith, inr, All,
}
use bigarchive.Exception.{Result, ok}
use bigarchive.AppendStore.Names
use bigarchive.AppendStore.Names.{Name, get_max_chunk_id, get_dat_fname}
use bigarchive.AppendStore.Names.Listing
use bigarchive.AppendStore.Names.Listing.{Listed, chunk, other, get_max_chunk_id-largest}
use bigarchive.AppendStore.Types.Handle.{Handle, to_string}
use bigarchive.AppendStore.Codec.{Lzo, none_codec}
use bigarchive.AppendStore.Chunk.{Chunk, check_read_permission, check_write_permission}
use bigarchive.AppendStore.Store.{Store, State, append, flush}
use bigarchive.AppendStore.Store.Reading.{read}
use bigarchive.AppendStore.Store.Opening.{StoreParameter}
use bigarchive.AppendStore.Store.Exclusive.Steps.{Step, Reach, here, next, appends, reads, flushes}
use bigarchive.AppendStore.Chunk.Blocks.{data_of, entries, all_vals, AreBlocks, records_from}
use bigarchive.AppendStore.Chunk.Blocks.Append.{total}
use bigarchive.AppendStore.Chunk.Extract.{serialize_all}
use bigarchive.AppendStore.Index.Load.{index_of}
use bigarchive.AppendStore.Store.ReadsBack.{HasValue}
use bigarchive.AppendStore.Store.ReadsBack.Readers.{CanRead}
use bigarchive.AppendStore.Store.ReadsBack.Values.{read-value}
use bigarchive.AppendStore.Store.{load_append_chunk, load_chunk}
use bigarchive.AppendStore.Store.Kept.Values.{IsWriting, read-append}
use bigarchive.AppendStore.Chunk.Blocks.Steps.{CanAppend}
use bigarchive.Tests.Chunks.{mem-WritesAll}
use bigarchive.Tests.Chunks.{
  block-BlockOk, none_codec-CodecLaws, MemFile, fresh, mem, mem_laws, value, block,
}
use bigarchive.Tests.MemTree.{Files, mem_tree, mem_tree-TreeLaws}
use bigarchive.AppendStore.Store.Reading.{
  turn_off_writer, turn_on_read, read_reader, load_random_chunk, in_chunk_map, open_reader,
}
use bigarchive.AppendStore.Store.{find_chunk, valid_chunk_id}
use bigarchive.AppendStore.Types.Handle.{is_valid, of_string}
use bigarchive.AppendStore.Codec.{same_name}
use bigarchive.Tests.MemTree.{has, store}

get_max_chunk_id-largest_example :
    get_max_chunk_id (
      Listing.name_of (other (b'.' ∷ []))
      ∷ Listing.name_of (chunk 27)
      ∷ Listing.name_of (chunk 3)
      ∷ [])
    ≡ 27
unfolding Names.starts_with_dat
get_max_chunk_id-largest_example =
    get_max_chunk_id-largest (other (b'.' ∷ []) ∷ chunk 27 ∷ chunk 3 ∷ [])
      (refl, (omega arith, (omega arith, tt)))

-- a library that fails, for a store that does not compress
abbrev pub no_lzo : Lzo
no_lzo = record { compress = λ b. none; decompress = λ b. none }

abbrev para : StoreParameter
para = record {
  path = b's' ∷ [];
  max_chunk_size = 0;
  append = true;
  block_index_interval = 5;
  compression_flag = 0;
}

abbrev pub start : State mem mem_tree
start = (
  record {
    root = b's' ∷ b'/' ∷ [];
    append_mode = true;
    max_chunk_id = 0;
    append_chunk_id = 0;
    compression_type = 0;
    meta = record {
      storemajor = 1;
      storeminor = 0;
      max_chunk_size = 1024 * 1024 * 1024;
      block_index_interval = 1000;
      compression_flag = 0;
    };
    cache = [];
    codec = some none_codec;
    current_append = none;
    readers = [];
    current_random = none;
    chunk_map = [];
    delete_chunk_map = [];
  },
  [],
)

abbrev pub after_append : Option (Result (List ℕ) × State mem mem_tree) → State mem mem_tree
after_append none = start
after_append (some (res, st)) = st

abbrev pub after_open : Option (Result (Unit {0}) × State mem mem_tree) → State mem mem_tree
after_open none = start
after_open (some (res, st)) = st

abbrev after_read : Option (Result Bool × List ℕ × State mem mem_tree) → State mem mem_tree
after_read none = start
after_read (some (res, data', st)) = st

-- a value is appended, flushed and read, and then another one appended
abbrev written : State mem mem_tree
written = (flush mem mem_tree (after_append (append mem mem_tree value start))).1

abbrev pub handle : Handle
handle = record { chunk_id = 0; index = 1 }

abbrev read_back : State mem mem_tree
read_back = after_read (read mem mem_tree (to_string handle) [] written)

abbrev again : State mem mem_tree
again = after_append (append mem mem_tree value read_back)

unfoldable pub program : Unit {0}
unfolding append flush read is_valid of_string turn_off_writer turn_on_read read_reader
    load_random_chunk in_chunk_map open_reader valid_chunk_id
    bigarchive.AppendStore.Store.load_append_chunk bigarchive.AppendStore.Store.new_append_chunk
    bigarchive.AppendStore.Chunk.Files.new bigarchive.AppendStore.Chunk.Files.check_if_new
    bigarchive.Fs.Tree.is_file_exists has bigarchive.Fs.Tree.create bigarchive.Tests.MemTree.create
    store same_name Names.get_dat_fname Names.get_idx_fname bigarchive.AppendStore.Chunk.load_index
    bigarchive.AppendStore.Index.Load.load_from_file bigarchive.AppendStore.Chunk.Files.initial
    bigarchive.Tests.MemTree.file bigarchive.AppendStore.Chunk.Files.attach
    bigarchive.AppendStore.Chunk.Files.close bigarchive.AppendStore.Chunk.Files.detach
    bigarchive.AppendStore.Chunk.Files.enable_read bigarchive.AppendStore.Chunk.Files.load_data
    bigarchive.AppendStore.Chunk.append bigarchive.AppendStore.Chunk.append_entry
    bigarchive.AppendStore.Chunk.append_index bigarchive.AppendStore.Chunk.append_raw
    bigarchive.AppendStore.Chunk.buffered check_read_permission
    bigarchive.AppendStore.Chunk.check_write_permission bigarchive.AppendStore.Chunk.compressed
    bigarchive.AppendStore.Chunk.disable_read bigarchive.AppendStore.Chunk.disable_write
    bigarchive.AppendStore.Chunk.enable_write bigarchive.AppendStore.Chunk.flush
    bigarchive.AppendStore.Chunk.is_chunk_full bigarchive.AppendStore.Chunk.write_compressed
    bigarchive.AppendStore.Index.Load.load_loop bigarchive.AppendStore.Index.from_buffer
    bigarchive.AppendStore.Index.to_buffer Names.hex Names.hex_loop
    bigarchive.AppendStore.Store.alloc_next_chunk bigarchive.AppendStore.Store.append_loaded
    bigarchive.AppendStore.Store.find_chunk bigarchive.AppendStore.Store.next_append_chunk
    bigarchive.AppendStore.Store.turn_off_reader bigarchive.AppendStore.Store.turn_on_write
    bigarchive.AppendStore.Store.with_writer bigarchive.AppendStore.Types.Handle.to_int to_string
    bigarchive.AppendStore.Types.Records.serialize_compressed
    bigarchive.AppendStore.Types.Records.serialize_data bigarchive.Fs.as_offset
    bigarchive.Fs.get_next_log_size bigarchive.Fs.header bigarchive.Fs.open_file bigarchive.Fs.read
    bigarchive.Fs.second_try bigarchive.Fs.whole bigarchive.Fs.write bigarchive.Fs.write_with_retry
    bigarchive.Marshal.serialize_string bigarchive.Marshal.serialize_word
    bigarchive.Prelude.Words.bytes_of bigarchive.Prelude.Words.of_bytes
    bigarchive.Tests.MemTree.find none_codec bigarchive.AppendStore.Chunk.read
    bigarchive.AppendStore.Chunk.read_block bigarchive.AppendStore.Chunk.read_raw
    bigarchive.AppendStore.Chunk.extract_data_from_block bigarchive.AppendStore.Types.Cache.find
    bigarchive.AppendStore.Chunk.is_valid bigarchive.AppendStore.Index.find
    bigarchive.AppendStore.Index.bisearch bigarchive.AppendStore.Index.bisearch_loop
    bigarchive.AppendStore.Index.follow bigarchive.AppendStore.Index.probe
    bigarchive.AppendStore.Chunk.start_offset
    bigarchive.AppendStore.Types.Records.deserialize_compressed bigarchive.Marshal.deserialize_word
    bigarchive.Marshal.Stream.read bigarchive.Fs.seek bigarchive.Marshal.deserialize_string
    bigarchive.AppendStore.Chunk.decompress_record bigarchive.AppendStore.Chunk.extract_loop
    bigarchive.AppendStore.Types.Records.deserialize_data bigarchive.AppendStore.Types.Cache.insert
    bigarchive.AppendStore.Types.Handle.eq bigarchive.Marshal.read_word
    bigarchive.Marshal.unless_eof data_of entries all_vals index_of total AreBlocks records_from
    serialize_all
program = tt

abbrev pub some_or : {A : Type 0} → A → Option A → A
some_or a none = a
some_or a (some b) = b

-- the writer and the reader of the chunk afterwards
abbrev writer : Chunk MemFile
writer = some_or fresh again.0.current_append

abbrev reader : Chunk MemFile
reader = some_or fresh (get_elem? again.0.readers 0)

append_first :
    append mem mem_tree value start
    ≡ some (ok (to_string handle), after_append (append mem mem_tree value start))
unfolding program
append_first = refl

read_ok : read mem mem_tree (to_string handle) [] written ≡ some (ok true, value, read_back)
unfolding program
read_ok = refl

append_ok :
    append mem mem_tree value read_back
    ≡ some (ok (to_string (record { chunk_id = 0; index = 2 })), again)
unfolding program
append_ok = refl

run : Reach mem mem_tree start again
unfolding program
run =
    let appended : Step mem mem_tree start (after_append (append mem mem_tree value start)) =
      appends value start _ (ok (to_string handle))
        (record { room = omega arith; unread = λ e p r f. absurd (cc f) }) append_first in
    let flushed : Step mem mem_tree (after_append (append mem mem_tree value start)) written =
      flushes _ in
    let read_step : Step mem mem_tree written read_back =
      reads (to_string handle) [] value written read_back (ok true) read_ok in
    let appended_again : Step mem mem_tree read_back again =
      appends value read_back again (ok (to_string (record { chunk_id = 0; index = 2 })))
        (record { room = omega arith; unread = λ e. absurd (cc e) }) append_ok in
    next (next (next (next here appended) flushed) read_step) appended_again

written-HasValue : HasValue none_codec (block ∷ []) 1 value
unfolding program
written-HasValue = record {
  blocks = (block-BlockOk, tt);
  small = omega arith;
  positive = omega arith;
  top = omega arith;
  value = refl;
}

written-CanRead :
    CanRead mem mem_laws mem_tree mem_tree-TreeLaws none_codec 0 (block ∷ []) written.0 written.1
unfolding program
written-CanRead = record {
  indexed = record {
    ids = λ id p r f. absurd (cc f);
    current = λ p r e. absurd (cc e);
    known = λ id p f. absurd (cc f);
    placed = λ id p f. absurd (cc f);
    current_placed = λ p e. absurd (cc e);
  };
  known = omega arith;
  files = record { data_bytes = refl; index_bytes = refl };
  data_there = refl;
  index_there = refl;
  codec_alive = refl;
  up_to_date = λ p r f. absurd (cc f);
}

read-value_example :
    (st : State mem mem_tree) × (read mem mem_tree (to_string handle) [] written
      ≡ some (ok true, value, st))
unfolding program
read-value_example =
    read-value mem mem_laws mem_tree mem_tree-TreeLaws none_codec none_codec-CodecLaws 0
      (block ∷ []) 1 value [] written.0 written.1 (λ f. refl) (omega arith) written-HasValue
      written-CanRead (λ u e. absurd (cc e))

-- the store once its first chunk is open, and that chunk
abbrev pub opened : State mem mem_tree
opened = after_open (load_append_chunk mem mem_tree start)

abbrev pub first_writer : Chunk MemFile
first_writer = some_or fresh opened.0.current_append

pub opened-IsWriting :
    IsWriting mem mem_laws mem-WritesAll mem_tree mem_tree-TreeLaws none_codec [] [] first_writer
      opened.0 opened.1
unfolding program
opened-IsWriting = record {
  append_mode = refl;
  current = refl;
  on = refl;
  dirty = refl;
  codec_alive = refl;
  written = record {
    data_bytes = refl;
    index_bytes = refl;
    max = refl;
    count = refl;
    stream = refl;
    codec_alive = refl;
    blocks = tt;
  };
  indexed = record {
    ids = λ id p r f. absurd (cc f);
    current = λ p r e. absurd (cc e);
    known = λ id p f. absurd (cc f);
    placed = λ id p f. absurd (cc f);
    current_placed = λ p e. absurd (cc e);
  };
  known = omega arith;
  unread = refl;
  data_there = refl;
  index_there = refl;
}

opened-CanAppend :
    CanAppend mem none_codec [] [] value block (load_chunk mem mem_tree opened first_writer)
unfolding program
opened-CanAppend = record {
  room = refl;
  top = omega arith;
  few = omega arith;
  vals_of = refl;
  good_block = block-BlockOk;
  data_small = omega arith;
  index_small = omega arith;
}

read-append_example :
    (st₁ : State mem mem_tree) × (st₂ : State mem mem_tree) × (st₃ : State mem mem_tree) × (append
        mem mem_tree value opened
      ≡ some (ok (to_string handle), st₁))
    × (flush mem mem_tree st₁ ≡ (ok tt, st₂))
    × (read mem mem_tree (to_string handle) [] st₂ ≡ some (ok true, value, st₃))
unfolding program
read-append_example =
    read-append mem mem_laws mem-WritesAll mem_tree mem_tree-TreeLaws none_codec [] [] value []
      block first_writer opened.0 opened.1 (λ f. refl) none_codec-CodecLaws (omega arith)
      (omega arith) opened-IsWriting opened-CanAppend (λ u e. absurd (cc e))
