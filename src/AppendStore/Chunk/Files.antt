-- ===== src/AppendStore/Chunk/Files.antt =====
-- append-store/append_store_chunk.cpp: a chunk is created, opened and closed by the names of its files,
-- and a record is removed by a line of the delete log.
use bigarchive.Prelude.{
  ℕ, ◌%◌, ◌^◌, Bool, true, false, not, ◌&&◌, ◌||◌, Option, none, some, List, [], if◌then◌else◌,
}
use bigarchive.Exception.{Result, ok, err, exception_base, append_store_write, file_open}
use bigarchive.Fs.{Kfs}
use bigarchive.Fs
use bigarchive.Fs.Tree.{KfsTree, Mode, create, get_size, is_file_exists, open_helper}
use bigarchive.AppendStore.Names.{Name, get_idx_fname, get_dat_fname, get_idx_log_fname}
use bigarchive.AppendStore.Types.Handle.{delete_to_string}
use bigarchive.AppendStore.Types.Cache.{Cache}
use bigarchive.AppendStore.Codec.{Codec}
use bigarchive.AppendStore.Chunk.{
  Chunk, flush, enable_write, disable_write, disable_read, load_index,
}

-- the arguments of the constructor
pub record ChunkParameter : Type 0 where
  pub root : Name
  pub chunk_id : ℕ
  pub max_chunk_sz : ℕ
  pub append_flag : Bool
  pub codec : Option Codec
  pub cache : Option Cache
  pub index_interval : ℕ

-- a chunk that was opened for its delete log only
pub record DeleteChunk : Type 0 where
  pub chunk_id : ℕ
  pub delete_log_open : Bool

module _ (kfs : Kfs) where
  open kfs use {File}

  unfoldable pub enable_read : Chunk File → Result (Unit {0}) × Chunk File
  enable_read c =
      let (done, f) = kfs.open_read c.data_file in
      if c.data_input_open
      then (ok tt, c)
      else if done
      then (ok tt, record c { data_file = f; data_input_open = true })
      else (err file_open, record c { data_file = f })

  unfoldable pub load_data : Bool → Chunk File → Result (Unit {0}) × Chunk File
  load_data wrflag c = if wrflag then enable_write kfs c else enable_read c

  -- The helpers are closed one by one, and an exception of `Flush` leaves them open.
  unfoldable pub close : Chunk File → Result Bool × Chunk File
  close c =
      let (res, c') = flush kfs c in
      elim res [ err e ↦ (err e, c') | ok u ↦ (ok true, disable_write kfs (disable_read kfs c')) ]

  -- One `Flush` of the delete log. A helper that is not open has no descriptor, and its write fails.
  unfoldable pub remove_once : List ℕ → DeleteChunk → File → Result ℕ × File
  remove_once tmp c f =
      if c.delete_log_open then Fs.flush kfs tmp f else (err append_store_write, f)

  -- `Remove`, over the delete log: on an exception the log is closed, and its new helper is not
  -- opened before the second try.
  unfoldable pub remove : ℕ → DeleteChunk → File → Result Bool × DeleteChunk × File
  remove index c f =
      let tmp = delete_to_string (record { index = index }) in
      let (res, f') = remove_once tmp c f in
      elim res [
        | ok n ↦ (ok true, c, f')
        | err e ↦ (
          err append_store_write,
          record c { delete_log_open = false },
          if c.delete_log_open then kfs.sync f' else f',
        )
      ]

  -- `Close` of a chunk with a delete log only
  unfoldable pub close_delete : DeleteChunk → File → DeleteChunk × File
  close_delete c f =
      (record c { delete_log_open = false }, if c.delete_log_open then kfs.sync f else f)

  module _ (tree : KfsTree kfs) where
    open tree use {Tree, file, store}

    unfoldable pub check_if_new : Name → ℕ → Tree → Result (Unit {0}) × Tree
    check_if_new root chunk_id t =
        let dat = get_dat_fname root chunk_id in
        let idx = get_idx_fname root chunk_id in
        let dexist = is_file_exists kfs tree dat t in
        let iexist = is_file_exists kfs tree idx t in
        let (res, t') = create kfs tree dat t in
        let created : Result (Unit {0}) × Tree = elim res [
          | err e ↦ (err e, t')
          | ok u ↦ create kfs tree idx t'
        ] in
        if not (dexist && iexist || not dexist && not iexist)
        then (err exception_base, t)
        else if dexist
        then (ok tt, t)
        else created

    -- the chunk with the files of its names
    unfoldable pub attach : Name → Tree → Chunk File → Chunk File
    attach root t c = record c {
      data_file = file (get_dat_fname root c.chunk_id) t;
      index_file = file (get_idx_fname root c.chunk_id) t;
    }

    -- the tree after the chunk changed its files
    unfoldable pub detach : Name → Chunk File → Tree → Tree
    detach root c t =
        store (get_idx_fname root c.chunk_id) c.index_file
          (store (get_dat_fname root c.chunk_id) c.data_file t)

    -- what the constructor sets before it calls the loading functions
    unfoldable pub initial : ChunkParameter → Tree → Chunk File
    initial p t = record {
      chunk_id = p.chunk_id;
      index_map = [];
      max_index = 0;
      last_data = 0;
      max_chunk_size = p.max_chunk_sz;
      flush_count = 0;
      dirty = p.append_flag;
      chunk_codec = p.codec;
      cache = p.cache;
      block_index_interval = p.index_interval;
      data_file = file (get_dat_fname p.root p.chunk_id) t;
      index_file = file (get_idx_fname p.root p.chunk_id) t;
      block_stream = [];
      data_input_open = false;
      data_output_open = false;
      index_output_open = false;
    }

    -- The constructor; `none` is no fuel of the loading loop.
    unfoldable pub new : ChunkParameter → Tree → Option (Result (Chunk File) × Tree)
    new p t =
        let (res, t') = check_if_new p.root p.chunk_id t in
        let loaded : Option (Result (Chunk File) × Tree) = elim (load_index kfs (initial p t')) [
          | none ↦ none
          | some c ↦
              let (res', c') = load_data p.append_flag c in
              let t'' = detach p.root c' t' in
              elim res' [ err e ↦ some (err e, t'') | ok u ↦ some (ok c', t'') ]
        ] in
        elim res [ err e ↦ some (err e, t') | ok u ↦ loaded ]

    -- `Chunk(root, chunk_id)`, which opens the delete log
    unfoldable pub load_delete_log : Name → ℕ → Tree → Result DeleteChunk × Tree
    load_delete_log root chunk_id t =
        let log = get_idx_log_fname root chunk_id in
        let (res, t') = create kfs tree log t in
        let made : Result (Unit {0}) × Tree =
          if is_file_exists kfs tree log t then (ok tt, t) else (res, t') in
        let (res', t'') = made in
        let (opened, t₃) = open_helper kfs tree Mode.append_only log t'' in
        elim res' [
          | err e ↦ (err e, t'')
          | ok u ↦ elim opened [
            | err e ↦ (err e, t₃)
            | ok u' ↦ (ok (record { chunk_id = chunk_id; delete_log_open = true }), t₃)
          ]
        ]

    unfoldable pub get_chunk_size : Name → ℕ → Tree → ℕ
    get_chunk_size root chunk_id t = get_size kfs tree (get_dat_fname root chunk_id) t % 2 ^ 32
