-- ===== src/AppendStore/Scanner.antt =====
-- append-store/append_store_scanner.h and .cpp: `AppendStoreScanner` goes over the values of a store
-- chunk by chunk, and skips those that the delete log names. A file that it reads is taken as it was
-- when the scanner opened it, with a descriptor of its own.
pub mod DeleteLog
pub mod Rounds
pub mod Blocks
pub mod Listing
use mathlib.Core.List.{reverse}
use bigarchive.Prelude.{
  ℕ, zero, suc, ◌+◌, ◌%◌, ◌^◌, Bool, true, false, not, ◌||◌, Option, none, some, List, [], ◌∷◌,
  ◌++◌, length, replicate, leb, ◌==◌, if◌then◌else◌,
}
use bigarchive.Exception.{Exception, Result, ok, err}
use bigarchive.Marshal.Stream.{IStream, good}
use bigarchive.Fs.{Kfs}
use bigarchive.Fs
use bigarchive.Fs.Tree.{KfsTree, Mode, is_file_exists, list_dir, open_helper}
use bigarchive.AppendStore.Names.{Name, dat_dir, get_dat_fname, get_log_fname, chunk_number}
use bigarchive.AppendStore.Types.Handle.{Handle, to_string, delete_of_string}
use bigarchive.AppendStore.Types.Records.{
  DataRecord, data_record, deserialize_data, compressed_data_record, deserialize_compressed,
}
use bigarchive.AppendStore.Codec.{Codec, Lzo, lzo_name, none_name, get_codec}
use bigarchive.AppendStore.Chunk.{decompress_record}
use bigarchive.AppendStore.Store.Opening.{with_slash}

-- The members that the scanner works with. `scanner_file` is `none` while no file is open;
-- `delete_set` holds the members of the set.
pub record Scanner (File : Type 0) : Type 0 where
  pub root : Name
  pub chunk_list : List ℕ
  pub data_stream : IStream
  pub scanner_codec : Option Codec
  pub scanner_file : Option File
  pub chunk_id : ℕ
  pub delete_set : List ℕ

-- What `Next` comes to: a handle and a value, `false`, an exception, or the use of a helper that was
-- never made or of the front of an empty list, which C++ does not define.
pub data Outcome : Type 0 where
  found : List ℕ → List ℕ → Outcome
  ended : Outcome
  threw : Exception → Outcome
  undefined : Outcome

unfoldable pub member : ℕ → List ℕ → Bool
member i [] = false
member i (j ∷ js) = j == i || member i js

-- the numbers of the data files, from the last of the listing to the first
unfoldable pub chunk_ids : List Name → List ℕ
chunk_ids [] = []
chunk_ids (name ∷ names) = elim (chunk_number name) [
  | none ↦ chunk_ids names
  | some id ↦ id % 2 ^ 16 ∷ chunk_ids names
]

unfoldable pub insert_sorted : ℕ → List ℕ → List ℕ
insert_sorted i [] = i ∷ []
insert_sorted i (j ∷ js) = if leb i j then i ∷ j ∷ js else j ∷ insert_sorted i js

-- `std::sort`
unfoldable pub sort : List ℕ → List ℕ
sort [] = []
sort (i ∷ is) = insert_sorted i (sort is)

-- `GetAllChunkID`, on the names that `ListDir` gave
unfoldable pub get_all_chunk_id : List Name → List ℕ
get_all_chunk_id names = sort (chunk_ids (reverse names))

module _ (kfs : Kfs) where
  open kfs use {File}

  -- The loop of `ReadDeleteLog`: the set after it; `none` is no fuel.
  unfoldable pub read_delete_loop : ℕ → List ℕ → File → Option (List ℕ)
  read_delete_loop zero set f = none
  read_delete_loop (suc fuel) set f =
      let (buf_size, f') = Fs.get_next_log_size kfs f in
      let (buf, f'') = Fs.read kfs (replicate buf_size 0) f' in
      let rest = read_delete_loop fuel ((delete_of_string buf).index ∷ set) f'' in
      if buf_size == 0 then some set else rest

  -- The next block of the file: its bytes, or that the file has ended, and the file.
  unfoldable pub next_block : Option Codec → File → Result (Option (List ℕ)) × File
  next_block codec f =
      let (buf_size, f') = Fs.get_next_log_size kfs f in
      let (buf, f'') = Fs.read kfs (replicate buf_size 0) f' in
      let parsed : Result (Option (List ℕ)) =
        elim (deserialize_compressed compressed_data_record.new (good buf)) [
          | err e ↦ err e
          | ok (crd, is) ↦ elim (decompress_record codec crd) [
            | err e ↦ err e
            | ok out ↦ ok (some out)
          ]
        ] in
      if buf_size == 0 then (ok none, f') else (parsed, f'')

  module _ (tree : KfsTree kfs) where
    open tree use {Tree, file}

    -- The file of a name, opened for reading.
    unfoldable pub open_read_only : Name → Tree → Result File × Tree
    open_read_only name t =
        let (res, t') = open_helper kfs tree Mode.read_only name t in
        elim res [ err e ↦ (err e, t') | ok u ↦ (ok (file name t'), t') ]

    -- The set that `ReadDeleteLog` leaves, and what it throws; each round reads a header at least.
    unfoldable pub read_delete_log : Name → Tree → Option (Result (List ℕ) × Tree)
    read_delete_log fname t =
        let (res, t') = open_read_only fname t in
        let run : Option (Result (List ℕ) × Tree) = elim res [
          | err e ↦ some (err e, t')
          | ok f ↦ elim (read_delete_loop (suc (kfs.size f)) [] f) [
            | none ↦ none
            | some set ↦ some (ok set, t')
          ]
        ] in
        if is_file_exists kfs tree fname t then run else some (ok [], t)

    -- the scanner with the data file of the chunk `id`
    unfoldable pub open_data : ℕ → Scanner File → Tree → Result (Unit {0}) × Scanner File × Tree
    open_data id s t =
        let (res, t') = open_read_only (get_dat_fname s.root id) t in
        let s' : Scanner File = record s { chunk_id = id; scanner_file = none } in
        elim res [
          | err e ↦ (err e, s', t')
          | ok f ↦ (ok tt, record s' { scanner_file = some f }, t')
        ]

    -- the scanner with the delete log of the chunk `id`
    unfoldable pub load_deletes :
        ℕ → Scanner File → Tree → Option (Result (Unit {0}) × Scanner File × Tree)
    load_deletes id s t = elim (read_delete_log (get_log_fname s.root id) t) [
      | none ↦ none
      | some (err e, t') ↦ some (err e, record s { delete_set = [] }, t')
      | some (ok set, t') ↦ some (ok tt, record s { delete_set = set }, t')
    ]

    -- `AppendStoreScanner(path, cflag)`; `none` is an empty path, or no fuel.
    unfoldable pub new : Lzo → Name → ℕ → Tree → Option (Result (Scanner File) × Tree)
    new lzo path cflag t = elim (with_slash path) [
      | none ↦ none
      | some root ↦
          let s : Scanner File = record {
            root = root;
            chunk_list = get_all_chunk_id (list_dir kfs tree (root ++ dat_dir) t);
            data_stream = good [];
            scanner_codec = get_codec lzo (if cflag == 0 then none_name else lzo_name) false;
            scanner_file = none;
            chunk_id = 0;
            delete_set = [];
          } in
          elim s.chunk_list [
            | [] ↦ some (ok s, t)
            | id ∷ ids ↦
                let (res, s', t') = open_data id (record s { chunk_list = ids }) t in
                let loaded : Option (Result (Scanner File) × Tree) = elim (load_deletes id s' t') [
                  | none ↦ none
                  | some (err e, s'', t'') ↦ some (err e, t'')
                  | some (ok u, s'', t'') ↦ some (ok s'', t'')
                ] in
                elim res [ err e ↦ some (err e, t') | ok u ↦ loaded ]
          ]
    ]

    -- The end of a round of `Next`: the next record of the stream, or `none` for one that is skipped.
    unfoldable pub next_record : Scanner File → Option Outcome × Scanner File
    next_record s = elim (deserialize_data data_record.new s.data_stream) [
      | err e ↦
          (some (threw e), record s { data_stream = record { rest = []; eof = true; fail = true } })
      | ok (r, is) ↦
          let s' : Scanner File = record s { data_stream = is } in
          let handle : Handle = record { chunk_id = s.chunk_id; index = r.index } in
          if member r.index s.delete_set
          then (none, s')
          else (some (found (to_string handle) r.val), s')
    ]

    -- The next chunk of the list. Its number is taken off before the delete log's name is made, so
    -- that log is the one of the chunk behind it.
    unfoldable pub next_chunk : Scanner File → Tree → Option (Option Outcome × Scanner File × Tree)
    next_chunk s t = elim s.chunk_list [
      | [] ↦ some (some ended, s, t)
      | id ∷ ids ↦
          let (res, s', t') = open_data id (record s { chunk_list = ids }) t in
          let opened : Option (Option Outcome × Scanner File × Tree) = elim ids [
            | [] ↦ some (some undefined, s', t')
            | log_id ∷ more ↦ elim (load_deletes log_id s' t') [
              | none ↦ none
              | some (err e, s'', t'') ↦ some (some (threw e), s'', t'')
              | some (ok u, s'', t'') ↦ some (none, s'', t'')
            ]
          ] in
          elim res [ err e ↦ some (some (threw e), s', t') | ok u ↦ opened ]
    ]

    -- One round of `Next`: `none` in front is no fuel of a delete log, and an outcome `none` goes on.
    unfoldable pub round : Scanner File → Tree → Option (Option Outcome × Scanner File × Tree)
    round s t =
        let is = s.data_stream in
        let (out, s') = next_record s in
        let fill : Option (Option Outcome × Scanner File × Tree) = elim s.scanner_file [
          | none ↦ some (some undefined, s, t)
          | some f ↦
              let (res, f') = next_block s.scanner_codec f in
              let s'' : Scanner File = record s { scanner_file = some f' } in
              elim res [
                | err e ↦ some (some (threw e), s'', t)
                | ok none ↦ next_chunk s'' t
                | ok (some buf) ↦
                    let (out', s₃) = next_record (record s'' { data_stream = good buf }) in
                    some (out', s₃, t)
              ]
        ] in
        if length is.rest == 0 || is.eof || is.fail then fill else some (out, s', t)

    -- `Next`, in so many rounds at most
    unfoldable pub next : ℕ → Scanner File → Tree → Option (Outcome × Scanner File × Tree)
    next zero s t = none
    next (suc fuel) s t = elim (round s t) [
      | none ↦ none
      | some (some out, s', t') ↦ some (out, s', t')
      | some (none, s', t') ↦ next fuel s' t'
    ]
