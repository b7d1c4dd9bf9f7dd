-- ===== src/AppendStore/Store.antt =====
-- append-store/append_store.h and .cpp: `PanguAppendStore`, the store over its chunks. A state is the
-- store with the tree of its files. `mCurrentRandomChunk` and `mChunkMap` share the chunks that are
-- opened for reading: both name places of `readers`. A chunk keeps its files in the tree and its
-- cache in the store while no operation of it runs. `none` is no fuel, or a place that is not there.
pub mod Reading
pub mod Closing
pub mod Opening
pub mod Exclusive
pub mod ReadsBack
pub mod Kept
use bigarchive.Prelude.{
  ℕ, ◌+◌, ◌%◌, ◌^◌, Bool, true, false, not, ◌&&◌, Option, none, some, List, [], ◌∷◌, ◌++◌, length,
  set, get_elem?, leb, ◌==◌, if◌then◌else◌,
}
use bigarchive.Exception.{
  Result, ok, err, append_store_write, append_store_mis_matched_ver, append_store_not_exist,
  append_store_codec,
}
use bigarchive.Fs.{Kfs}
use bigarchive.Fs.Tree.{KfsTree}
use bigarchive.AppendStore.Names.{Name}
use bigarchive.AppendStore.Types.Handle.{Handle, of_string, to_string, is_valid}
use bigarchive.AppendStore.Types.Cache
use bigarchive.AppendStore.Types.Cache.{Cache}
use bigarchive.AppendStore.Types.MetaData.{StoreMetaData}
use bigarchive.AppendStore.Codec.{Codec}
use bigarchive.AppendStore.Chunk
use bigarchive.AppendStore.Chunk.{
  Chunk, is_chunk_full, enable_write, disable_write, disable_read, check_read_permission,
  check_write_permission,
}
use bigarchive.AppendStore.Chunk.Files
use bigarchive.AppendStore.Chunk.Files.{
  ChunkParameter, DeleteChunk, enable_read, close, attach, detach, load_delete_log,
}

pub record Store (File : Type 0) : Type 0 where
  pub root : Name
  pub append_mode : Bool
  pub max_chunk_id : ℕ
  pub append_chunk_id : ℕ
  pub compression_type : ℕ
  pub meta : StoreMetaData
  pub cache : Cache
  pub codec : Option Codec
  pub current_append : Option (Chunk File)
  pub readers : List (Chunk File)
  pub current_random : Option ℕ
  pub chunk_map : List (ℕ × ℕ)
  pub delete_chunk_map : List (ℕ × DeleteChunk)

-- `find` in a map of chunk numbers
unfoldable pub find_chunk : {A : Type 0} → ℕ → List (ℕ × A) → Option A
find_chunk id [] = none
find_chunk id ((k, a) ∷ m) = if k == id then some a else find_chunk id m

-- the value of a key that is there is replaced
unfoldable pub put_chunk : {A : Type 0} → ℕ → A → List (ℕ × A) → List (ℕ × A)
put_chunk id a [] = (id, a) ∷ []
put_chunk id a ((k, b) ∷ m) = if k == id then (k, a) ∷ m else (k, b) ∷ put_chunk id a m

-- the entries of a map in the order of their keys, in which the code goes over it
unfoldable pub insert_by_key : {A : Type 0} → ℕ × A → List (ℕ × A) → List (ℕ × A)
insert_by_key e [] = e ∷ []
insert_by_key e (x ∷ m) = if leb e.0 x.0 then e ∷ x ∷ m else x ∷ insert_by_key e m

unfoldable pub by_key : {A : Type 0} → List (ℕ × A) → List (ℕ × A)
by_key [] = []
by_key (e ∷ m) = insert_by_key e (by_key m)

module _ (kfs : Kfs) (tree : KfsTree kfs) where
  open kfs use {File}
  open tree use {Tree, file, store}

  abbrev pub State : Type 0
  State = Store File × Tree

  -- the chunk with its files and the cache, for an operation of it
  abbrev pub load_chunk : State → Chunk File → Chunk File
  load_chunk (s, t) c = record (attach kfs tree s.root t c) { cache = some s.cache }

  -- the state after the operation
  abbrev pub save_chunk : Chunk File → State → State
  save_chunk c (s, t) = (
    record s { cache = elim c.cache [ none ↦ s.cache | some cache ↦ cache ] },
    detach kfs tree s.root c t,
  )

  unfoldable pub valid_chunk_id : Store File → ℕ → Bool
  valid_chunk_id s id = leb id s.max_chunk_id

  unfoldable pub alloc_next_chunk : Store File → Store File
  alloc_next_chunk s =
      let next = (s.max_chunk_id + 1) % 2 ^ 16 in
      record s { max_chunk_id = next; append_chunk_id = next }

  abbrev pub parameter : Store File → ℕ → Bool → ChunkParameter
  parameter s id append_flag = record {
    root = s.root;
    chunk_id = id;
    max_chunk_sz = s.meta.max_chunk_size;
    append_flag = append_flag;
    codec = s.codec;
    cache = some s.cache;
    index_interval = if append_flag then s.meta.block_index_interval else 1000;
  }

  -- the reader of a chunk loses its permission
  unfoldable pub turn_off_reader : ℕ → Store File → Store File
  turn_off_reader id s = elim (find_chunk id s.chunk_map) [
    | none ↦ s
    | some p ↦ elim (get_elem? s.readers p) [
      | none ↦ s
      | some r ↦
          if check_read_permission kfs r
          then record s { readers = set s.readers p (disable_read kfs r) }
          else s
    ]
  ]

  -- `TurnOnWrite` of a chunk that is the current one for appending: the result, that chunk, and the
  -- state
  unfoldable pub turn_on_write : Chunk File → State → Result (Unit {0}) × Chunk File × State
  turn_on_write c (s, t) =
      let s' = turn_off_reader c.chunk_id s in
      let (res, c') = enable_write kfs (load_chunk (s', t) c) in
      if check_write_permission kfs c then (ok tt, c, (s, t)) else (res, c', save_chunk c' (s', t))

  -- The new chunk becomes the current one. An old one was closed before, and its destructor does
  -- nothing more.
  unfoldable pub new_append_chunk : State → Option (Result (Unit {0}) × State)
  new_append_chunk (s, t) = elim (Files.new kfs tree (parameter s s.append_chunk_id true) t) [
    | none ↦ none
    | some (err e, t') ↦ some (err e, (s, t'))
    | some (ok c, t') ↦ some (ok tt, (record s { current_append = some c }, t'))
  ]

  -- a full chunk is closed, and the next number is taken
  unfoldable pub next_append_chunk : Chunk File → State → Option (Result (Unit {0}) × State)
  next_append_chunk c st =
      let (res, c', st') = turn_on_write c st in
      let (res', c'') = close kfs (load_chunk st' c') in
      let (s, t) = save_chunk c'' st' in
      let closed : Store File = record s { current_append = some c'' } in
      elim res [
        | err e ↦ some (err e, (record st'.0 { current_append = some c' }, st'.1))
        | ok u ↦ elim res' [
          | err e ↦ some (err e, (closed, t))
          | ok b ↦ new_append_chunk (alloc_next_chunk closed, t)
        ]
      ]

  unfoldable pub load_append_chunk : State → Option (Result (Unit {0}) × State)
  load_append_chunk (s, t) = elim s.current_append [
    | none ↦ new_append_chunk (s, t)
    | some c ↦ if is_chunk_full kfs c then next_append_chunk c (s, t) else some (ok tt, (s, t))
  ]

  -- `TurnOnWrite`, and then an operation of the chunk
  unfoldable pub with_writer :
      {A : Type 0} → (Chunk File → Result A × Chunk File) → Chunk File → State → Result A × State
  with_writer op c st =
      let (res, c', st') = turn_on_write c st in
      let (res', c'') = op (load_chunk st' c') in
      let (s, t) = save_chunk c'' st' in
      elim res [
        | err e ↦ (err e, (record st'.0 { current_append = some c' }, st'.1))
        | ok u ↦ (res', (record s { current_append = some c'' }, t))
      ]

  -- `Append` once the chunk is loaded: the handle of the index that the chunk gave
  unfoldable pub append_loaded : List ℕ → State → Result (List ℕ) × State
  append_loaded bytes (s, t) = elim s.current_append [
    | none ↦ (err append_store_write, (s, t))
    | some c ↦
        let (res, st) = with_writer (Chunk.append kfs bytes) c (s, t) in
        elim res [
          | err e ↦ (err e, st)
          | ok index ↦
              if index == 0
              then (err append_store_write, st)
              else (ok (to_string (record { chunk_id = c.chunk_id; index = index })), st)
        ]
  ]

  unfoldable pub append : List ℕ → State → Option (Result (List ℕ) × State)
  append bytes (s, t) =
      let loaded : Option (Result (List ℕ) × State) = elim (load_append_chunk (s, t)) [
        | none ↦ none
        | some (err e, st) ↦ some (err e, st)
        | some (ok u, st) ↦ some (append_loaded bytes st)
      ] in
      if not s.append_mode then some (err append_store_write, (s, t)) else loaded

  unfoldable pub flush : State → Result (Unit {0}) × State
  flush (s, t) = elim s.current_append [
    | none ↦ (ok tt, (s, t))
    | some c ↦ with_writer (Chunk.flush kfs) c (s, t)
  ]

  -- the loop of `BatchAppend`, with the handles so far
  unfoldable pub batch_loop :
      List (List ℕ) → List (List ℕ) → State → Option (Result (List (List ℕ)) × State)
  batch_loop handles [] st = some (ok handles, st)
  batch_loop handles (v ∷ vs) st = elim (append v st) [
    | none ↦ none
    | some (err e, st') ↦ some (err e, st')
    | some (ok h, st') ↦ batch_loop (handles ++ h ∷ []) vs st'
  ]

  unfoldable pub batch_append : List (List ℕ) → State → Option (Result (List (List ℕ)) × State)
  batch_append [] st = some (ok [], st)
  batch_append (v ∷ vs) st = elim (batch_loop [] (v ∷ vs) st) [
    | none ↦ none
    | some (err e, st') ↦ some (err e, st')
    | some (ok handles, st') ↦
        let (res, st'') = flush st' in
        elim res [ err e ↦ some (err e, st'') | ok u ↦ some (ok handles, st'') ]
  ]
