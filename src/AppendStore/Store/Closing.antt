-- ===== src/AppendStore/Store/Closing.antt =====
-- append-store/append_store.cpp: removal of a record, and the closing and reloading of the store.
use bigarchive.Prelude.{
  ℕ, Bool, true, not, Option, none, some, List, [], ◌∷◌, ◌++◌, set, get_elem?, if◌then◌else◌,
}
use bigarchive.Exception.{Result, ok, err}
use bigarchive.Fs.{Kfs}
use bigarchive.Fs.Tree.{KfsTree, list_dir}
use bigarchive.AppendStore.Names.{dat_dir, get_idx_log_fname, get_max_chunk_id}
use bigarchive.AppendStore.Types.Handle.{of_string, is_valid}
use bigarchive.AppendStore.Types.Cache
use bigarchive.AppendStore.Types.Cache.{Cache}
use bigarchive.AppendStore.Chunk.Files
use bigarchive.AppendStore.Chunk.Files.{
  ChunkParameter, DeleteChunk, enable_read, close, close_delete, attach, detach, load_delete_log,
}
use bigarchive.AppendStore.Store.{
  Store, State, by_key, find_chunk, put_chunk, load_chunk, save_chunk, valid_chunk_id, with_writer,
}

module _ (kfs : Kfs) (tree : KfsTree kfs) where
  open kfs use {File}
  open tree use {Tree, file, store}

  -- The chunk whose delete log is open, which is in the map then, or `none` for a number that no
  -- chunk has.
  unfoldable pub load_delete_chunk :
      ℕ → State kfs tree → Result (Option DeleteChunk) × State kfs tree
  load_delete_chunk id (s, t) =
      let (res, t') = load_delete_log kfs tree s.root id t in
      let opened : Result (Option DeleteChunk) × State kfs tree = elim res [
        | err e ↦ (err e, (s, t'))
        | ok c ↦ (ok (some c), (record s { delete_chunk_map = (id, c) ∷ s.delete_chunk_map }, t'))
      ] in
      if not (valid_chunk_id kfs tree s id)
      then (ok none, (s, t))
      else (elim (find_chunk id s.delete_chunk_map) [
        | none ↦ opened
        | some c ↦ (ok (some c), (s, t))
      ])

  -- `Remove` of the chunk, over its delete log
  unfoldable pub remove_index :
      ℕ → DeleteChunk → State kfs tree → Result (Unit {0}) × State kfs tree
  remove_index index c (s, t) =
      let log = get_idx_log_fname s.root c.chunk_id in
      let (res, c', f) = Files.remove kfs index c (file log t) in
      let s' : Store File = record s {
        delete_chunk_map = put_chunk c.chunk_id c' s.delete_chunk_map;
      } in
      elim res [ err e ↦ (err e, (s', store log f t)) | ok b ↦ (ok tt, (s', store log f t)) ]

  unfoldable pub remove : List ℕ → State kfs tree → Result (Unit {0}) × State kfs tree
  remove h st =
      let handle = of_string h in
      let (res, st') = load_delete_chunk handle.chunk_id st in
      let loaded : Result (Unit {0}) × State kfs tree = elim res [
        | err e ↦ (err e, st')
        | ok none ↦ (ok tt, st')
        | ok (some c) ↦ remove_index handle.index c st'
      ] in
      if not (is_valid handle) then (ok tt, st) else loaded

  -- the loop of `Close` over the chunks for reading, by their places
  unfoldable pub close_readers : List (ℕ × ℕ) → State kfs tree → Result (Unit {0}) × State kfs tree
  close_readers [] st = (ok tt, st)
  close_readers ((id, p) ∷ m) st = elim (get_elem? st.0.readers p) [
    | none ↦ close_readers m st
    | some r ↦
        let (res, r') = close kfs (load_chunk kfs tree st r) in
        let (s, t) = save_chunk kfs tree r' st in
        let st' : State kfs tree = (record s { readers = set s.readers p r' }, t) in
        elim res [ err e ↦ (err e, st') | ok b ↦ close_readers m st' ]
  ]

  -- the loop over the chunks with a delete log, behind those that were closed
  unfoldable pub close_deletes :
      List (ℕ × DeleteChunk) → List (ℕ × DeleteChunk) → State kfs tree → State kfs tree
  close_deletes closed [] (s, t) = (record s { delete_chunk_map = closed }, t)
  close_deletes closed ((id, c) ∷ m) (s, t) =
      let log = get_idx_log_fname s.root c.chunk_id in
      let (c', f) = close_delete kfs c (file log t) in
      close_deletes (closed ++ (id, c') ∷ []) m (s, store log f t)

  unfoldable pub close_writer : State kfs tree → Result Bool × State kfs tree
  close_writer (s, t) = elim s.current_append [
    | none ↦ (ok true, (s, t))
    | some c ↦
        if s.append_mode then with_writer kfs tree (close kfs) c (s, t) else (ok true, (s, t))
  ]

  unfoldable pub close_store : State kfs tree → Result (Unit {0}) × State kfs tree
  close_store st =
      let (res, st') = close_writer st in
      let (res', st'') = close_readers (by_key st'.0.chunk_map) st' in
      elim res [
        | err e ↦ (err e, st')
        | ok b ↦ elim res' [
          | err e ↦ (err e, st'')
          | ok u ↦ (ok tt, close_deletes [] (by_key st''.0.delete_chunk_map) st'')
        ]
      ]

  -- The readers that nothing points to any more are destroyed.
  unfoldable pub reload : State kfs tree → State kfs tree
  reload (s, t) = (
    record s {
      chunk_map = [];
      cache = Cache.clear s.cache;
      max_chunk_id = get_max_chunk_id (list_dir kfs tree (s.root ++ dat_dir) t);
      current_random = none;
      readers = [];
    },
    t,
  )

  -- The current reader stays, and is in no map.
  unfoldable pub garbage_collection : State kfs tree → State kfs tree
  garbage_collection (s, t) = (record s { chunk_map = [] }, t)
