-- ===== src/AppendStore/Store/Reading.antt =====
-- append-store/append_store.cpp: `Read`, with the chunks that it opens and the turns that reader and
-- writer of a chunk take.
use bigarchive.Prelude.{
  ℕ, Bool, true, false, not, ◌&&◌, Option, none, some, List, [], ◌∷◌, ◌++◌, length, set, get_elem?,
  ◌==◌, if◌then◌else◌,
}
use bigarchive.Exception.{Result, ok, err}
use bigarchive.Fs.{Kfs}
use bigarchive.Fs.Tree.{KfsTree}
use bigarchive.AppendStore.Types.Handle.{of_string, is_valid}
use bigarchive.AppendStore.Types.Cache
use bigarchive.AppendStore.Types.Cache.{Cache}
use bigarchive.AppendStore.Chunk
use bigarchive.AppendStore.Chunk.{
  Chunk, is_chunk_full, enable_write, disable_write, disable_read, check_read_permission,
  check_write_permission,
}
use bigarchive.AppendStore.Chunk.Files
use bigarchive.AppendStore.Chunk.Files.{
  ChunkParameter, DeleteChunk, enable_read, close, attach, detach, load_delete_log,
}
use bigarchive.AppendStore.Store.{
  State, find_chunk, load_chunk, save_chunk, valid_chunk_id, parameter,
}

module _ (kfs : Kfs) (tree : KfsTree kfs) where
  open kfs use {File}
  open tree use {Tree}

  -- a chunk that is opened for reading becomes the current one, and is in the map
  unfoldable pub open_reader : ℕ → State kfs tree → Option (Result (Option ℕ) × State kfs tree)
  open_reader id (s, t) = elim (Files.new kfs tree (parameter kfs tree s id false) t) [
    | none ↦ none
    | some (err e, t') ↦ some (err e, (s, t'))
    | some (ok c, t') ↦
        let p = length s.readers in
        some (
          ok (some p),
          (
            record s {
              readers = s.readers ++ c ∷ [];
              current_random = some p;
              chunk_map = (id, p) ∷ s.chunk_map;
            },
            t',
          ),
        )
  ]

  unfoldable pub in_chunk_map : ℕ → State kfs tree → Option (Result (Option ℕ) × State kfs tree)
  in_chunk_map id (s, t) = elim (find_chunk id s.chunk_map) [
    | none ↦ open_reader id (s, t)
    | some p ↦ some (ok (some p), (s, t))
  ]

  -- The place of the reader, or `none` for a number that no chunk has.
  unfoldable pub load_random_chunk :
      ℕ → State kfs tree → Option (Result (Option ℕ) × State kfs tree)
  load_random_chunk id (s, t) =
      let current : Option (Result (Option ℕ) × State kfs tree) = elim s.current_random [
        | none ↦ in_chunk_map id (s, t)
        | some p ↦ elim (get_elem? s.readers p) [
          | none ↦ none
          | some r ↦ if r.chunk_id == id then some (ok (some p), (s, t)) else in_chunk_map id (s, t)
        ]
      ] in
      if not (valid_chunk_id kfs tree s id) then some (ok none, (s, t)) else current

  -- the writer of the chunk `id` loses its permission
  unfoldable pub turn_off_writer : ℕ → State kfs tree → State kfs tree
  turn_off_writer id (s, t) = elim s.current_append [
    | none ↦ (s, t)
    | some w ↦
        let w' = disable_write kfs (load_chunk kfs tree (s, t) w) in
        let (s', t') = save_chunk kfs tree w' (s, t) in
        if w.chunk_id == id && check_write_permission kfs w
        then (record s' { current_append = some w' }, t')
        else (s, t)
  ]

  -- `TurnOnRead` of the reader `r`: the result, the reader, and the state
  unfoldable pub turn_on_read :
      Chunk File → State kfs tree → Result (Unit {0}) × Chunk File × State kfs tree
  turn_on_read r st =
      let st' = turn_off_writer r.chunk_id st in
      let (res, r') = enable_read kfs (load_chunk kfs tree st' r) in
      if check_read_permission kfs r then (ok tt, r, st') else (res, r', save_chunk kfs tree r' st')

  abbrev pub put_reader : ℕ → Chunk File → State kfs tree → State kfs tree
  put_reader p r (s, t) = (record s { readers = set s.readers p r }, t)

  -- `TurnOnRead` and `Read` of the reader at `p`
  unfoldable pub read_reader :
      ℕ → ℕ → List ℕ → State kfs tree → Option (Result Bool × List ℕ × State kfs tree)
  read_reader p index data' st = elim (get_elem? st.0.readers p) [
    | none ↦ none
    | some r ↦
        let (res, r', st') = turn_on_read r st in
        let run : Option (Result Bool × List ℕ × State kfs tree) =
          elim (Chunk.read kfs index data' (load_chunk kfs tree st' r')) [
            | none ↦ none
            | some (found, data'', r'') ↦
                some (found, data'', put_reader p r'' (save_chunk kfs tree r'' st'))
          ] in
        elim res [ err e ↦ some (err e, data', put_reader p r' st') | ok u ↦ run ]
  ]

  -- the result, `*data` and the state
  unfoldable pub read :
      List ℕ → List ℕ → State kfs tree → Option (Result Bool × List ℕ × State kfs tree)
  read h data' (s, t) =
      let handle = of_string h in
      let loaded : Option (Result Bool × List ℕ × State kfs tree) =
        elim (load_random_chunk handle.chunk_id (s, t)) [
          | none ↦ none
          | some (err e, st) ↦ some (err e, data', st)
          | some (ok none, st) ↦ some (ok false, data', st)
          | some (ok (some p), st) ↦ read_reader p handle.index data' st
        ] in
      let missed : Option (Result Bool × List ℕ × State kfs tree) =
        elim (Cache.find s.cache handle) [ some v ↦ some (ok true, v, (s, t)) | none ↦ loaded ] in
      if not (is_valid handle) then some (ok false, data', (s, t)) else missed
