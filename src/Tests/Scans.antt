-- ===== src/Tests/Scans.antt =====
-- A scanner over a store on files in memory, from which a value was removed.
use bigarchive.Prelude.{ℕ, suc, true, false, ◌≡◌, refl, Option, none, some, List, [], ◌∷◌, arith}
use bigarchive.Exception.{Result, ok, err}
use bigarchive.AppendStore.Types.Handle.{to_string, delete_to_string, delete_of_string}
use bigarchive.AppendStore.Codec.{none_codec}
use bigarchive.AppendStore.Chunk.Blocks.{Block, records_from}
use bigarchive.AppendStore.Chunk.Blocks.{BlockOk}
use bigarchive.AppendStore.Chunk.Extract.{serialize_all}
use bigarchive.AppendStore.Chunk.Files.{DeleteChunk}
use bigarchive.AppendStore.Chunk.Files
use bigarchive.AppendStore.Store.{Store, State, append, flush}
use bigarchive.AppendStore.Store.Closing.{remove}
use bigarchive.AppendStore.Scanner
use bigarchive.AppendStore.Scanner.{Scanner, member, read_delete_loop}
use bigarchive.AppendStore.Scanner.Rounds.{listed, Yields}
use bigarchive.AppendStore.Scanner.Blocks.{IsAt}
use bigarchive.AppendStore.Scanner.Listing.{next-listed}
use bigarchive.AppendStore.Scanner.DeleteLog.{log_of, read_delete_loop-remove}
use bigarchive.AppendStore.Store.{batch_append}
use bigarchive.AppendStore.Store.Reading.{read}
use bigarchive.AppendStore.Store.Kept.Batch.{batch_append-read}
use bigarchive.AppendStore.Store.Kept.Filling.{handles_from}
use bigarchive.Tests.Chunks.{
  MemFile, mem, mem_laws, mem-WritesAll, none_codec-CodecLaws, empty_file, value,
}
use bigarchive.Tests.MemTree.{Files, mem_tree, mem_tree-TreeLaws}
use bigarchive.Tests.Trees.{
  program, no_lzo, start, after_append, some_or, handle, opened, first_writer, opened-IsWriting,
}

abbrev two : State mem mem_tree
two =
    (flush mem mem_tree
      (after_append (append mem mem_tree value (after_append (append mem mem_tree value start))))).1

-- the first value is removed
abbrev removed : State mem mem_tree
removed = (remove mem mem_tree (to_string handle) two).1

abbrev two_block : Block
two_block = record {
  vals = value ∷ value ∷ [];
  out = serialize_all (records_from 0 (value ∷ value ∷ []));
}

abbrev no_scanner : Scanner MemFile
no_scanner = record {
  root = [];
  chunk_list = [];
  data_stream = record { rest = []; eof = false; fail = false };
  scanner_codec = none;
  scanner_file = none;
  chunk_id = 0;
  delete_set = [];
}

abbrev made : Option (Result (Scanner MemFile) × Files) → Scanner MemFile
made none = no_scanner
made (some (err e, t)) = no_scanner
made (some (ok s, t)) = s

abbrev scanner : Scanner MemFile
scanner = made (Scanner.new mem mem_tree no_lzo (b's' ∷ []) 0 removed.1)

run : Unit {0}
unfolding program Scanner.new Scanner.get_all_chunk_id Scanner.chunk_ids Scanner.sort
    Scanner.insert_sorted Scanner.open_data Scanner.load_deletes Scanner.read_delete_log
    Scanner.read_delete_loop Scanner.open_read_only Scanner.member listed log_of remove
    bigarchive.AppendStore.Store.Closing.load_delete_chunk
    bigarchive.AppendStore.Store.Closing.remove_index bigarchive.AppendStore.Chunk.Files.remove
    bigarchive.AppendStore.Chunk.Files.remove_once
    bigarchive.AppendStore.Chunk.Files.load_delete_log bigarchive.Fs.Tree.open_helper
    bigarchive.Fs.Tree.open_there bigarchive.Fs.Tree.open_mode bigarchive.Fs.Tree.list_dir
    bigarchive.Fs.flush bigarchive.Fs.sync_after bigarchive.AppendStore.Store.put_chunk
    bigarchive.AppendStore.Store.Opening.with_slash bigarchive.AppendStore.Names.get_log_fname
    bigarchive.AppendStore.Names.get_idx_log_fname bigarchive.AppendStore.Names.chunk_number
    bigarchive.AppendStore.Names.after_last_dot bigarchive.AppendStore.Names.starts_with_dat
    bigarchive.AppendStore.Names.strtol_16 bigarchive.AppendStore.Names.drop_0x
    bigarchive.AppendStore.Names.parse_hex bigarchive.AppendStore.Names.hex_value
    bigarchive.AppendStore.Names.to_uint32 bigarchive.Tests.MemTree.list
    bigarchive.Tests.MemTree.rest_of delete_to_string delete_of_string
    bigarchive.AppendStore.Codec.get_codec
run = tt

two_block-BlockOk : BlockOk none_codec 0 two_block
unfolding run
two_block-BlockOk = record {
  block = record {
    compresses = refl;
    index_fits = omega arith;
    records_fits = omega arith;
    bytes_fit = omega arith;
    out_fits = omega arith;
  };
  small = omega arith;
  vals_fit = (omega arith, (omega arith, tt));
  valid = omega arith;
}

-- the file that the scanner has open
abbrev scanned : MemFile
scanned = some_or empty_file scanner.scanner_file

scanner-IsAt :
    IsAt mem mem_laws mem_tree none_codec none_codec-CodecLaws 0
      (1 ∷ [])
      0
      []
      (two_block ∷ [])
      scanner
unfolding run
scanner-IsAt = record {
  stream = refl;
  last = refl;
  codec_of = refl;
  number = refl;
  deletes = refl;
  pre = [];
  f = scanned;
  opened = refl;
  bytes = refl;
  place = refl;
  vals_fit = tt;
  top = omega arith;
  blocks = (two_block-BlockOk, tt);
  some_vals = (omega arith, tt);
}

next-listed_example :
    Yields mem mem_tree 3
      ((to_string (record { chunk_id = 0; index = 2 }), value) ∷ [])
      scanner
      removed.1
unfolding run
next-listed_example =
    next-listed mem mem_laws mem_tree none_codec none_codec-CodecLaws 0 (1 ∷ []) 3 (two_block ∷ [])
      scanner removed.1 scanner-IsAt (omega arith)

abbrev open_log : DeleteChunk
open_log = record { chunk_id = 0; delete_log_open = true }

abbrev one_removed : MemFile
one_removed = record { bytes = log_of (3 ∷ []); position = 0 }

read_delete_loop-remove_example :
    let (res, c', f') = Files.remove mem 5 open_log one_removed in
    (res ≡ ok true)
    × (f'.bytes ≡ log_of (3 ∷ 5 ∷ []))
    × ((set : List ℕ) × (read_delete_loop mem (suc (mem.size f')) [] (mem.seek 0 f') ≡ some set)
        × ((j : ℕ) → member j set ≡ member j (3 ∷ 5 ∷ [])))
unfolding run
read_delete_loop-remove_example =
    read_delete_loop-remove mem mem_laws mem-WritesAll mem_tree mem_tree-TreeLaws (3 ∷ []) 5
      open_log one_removed refl (omega arith, (omega arith, tt)) refl (omega arith)

batch_append-read_example :
    (st₁ : State mem mem_tree) × (st₂ : State mem mem_tree) × (batch_append mem mem_tree
        (value ∷ value ∷ [])
        opened
      ≡ some (ok (to_string handle ∷ to_string (record { chunk_id = 0; index = 2 }) ∷ []), st₁))
    × (read mem mem_tree (to_string (record { chunk_id = 0; index = 2 })) [] st₁
        ≡ some (ok true, value, st₂))
unfolding run handles_from
batch_append-read_example =
    batch_append-read mem mem_laws mem-WritesAll mem_tree mem_tree-TreeLaws none_codec [] []
      (value ∷ []) value value [] two_block 1 first_writer opened.0 opened.1 (λ f. refl)
      none_codec-CodecLaws (omega arith) (omega arith) opened-IsWriting
      (record { room = refl; top = omega arith; few = omega arith; free = omega arith }) refl
      two_block-BlockOk (omega arith) (omega arith) refl (λ u e. absurd (cc e))
