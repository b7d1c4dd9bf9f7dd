-- ===== src/AppendStore/Store/Opening.antt =====
-- append-store/append_store.cpp: the constructor of the store with its directories and its `.meta_`
-- file, and append-store/append_store_utility.cpp: the factory.
use bigarchive.Prelude.{
  ℕ, ◌*◌, Bool, true, false, not, ◌&&◌, Option, none, some, List, [], ◌∷◌, ◌++◌, replicate, ◌==◌,
  if◌then◌else◌,
}
use bigarchive.Exception.{
  Result, ok, err, append_store_write, append_store_mis_matched_ver, append_store_not_exist,
  append_store_codec, append_store_factory,
}
use bigarchive.Fs
use bigarchive.Fs.{Kfs}
use bigarchive.Fs.Tree.{
  KfsTree, Mode, create_directory, is_directory_exists, is_file_exists, list_dir, open_helper,
  close_file,
}
use bigarchive.AppendStore.Names.{Name, idx_dir, dat_dir, log_dir, get_max_chunk_id}
use bigarchive.AppendStore.Types.MetaData.{StoreMetaData, check, from_buffer, to_buffer}
use bigarchive.AppendStore.Codec.{Lzo, lzo_name, none_name, same_name, get_codec}
use bigarchive.AppendStore.Store.{Store}

-- `StoreParameter`, less a member that nothing reads
pub record StoreParameter : Type 0 where
  pub path : Name
  pub max_chunk_size : ℕ
  pub append : Bool
  pub block_index_interval : ℕ
  pub compression_flag : ℕ

abbrev pub df_chunk_sz : ℕ
df_chunk_sz = 1024 * 1024 * 1024

abbrev pub df_max_pending : ℕ
df_max_pending = 1000

-- `sizeof(StoreMetaData)`
abbrev pub meta_size : ℕ
meta_size = 24

abbrev pub meta_file_name : Name
meta_file_name = b'.' ∷ b'm' ∷ b'e' ∷ b't' ∷ b'a' ∷ b'_' ∷ []

abbrev pub major_ver : ℕ
major_ver = 1

abbrev pub minor_ver : ℕ
minor_ver = 0

-- The path with a slash at its end; `none` for an empty path, where `compare` throws `out_of_range`.
unfoldable pub with_slash : Name → Option Name
with_slash [] = none
with_slash (c ∷ []) = if c == b'/' then some (c ∷ []) else some (c ∷ b'/' ∷ [])
with_slash (c ∷ d ∷ cs) = elim (with_slash (d ∷ cs)) [ none ↦ none | some p ↦ some (c ∷ p) ]

-- the metadata that the constructor starts from; the interval of the parameter is not used
unfoldable pub meta_of : StoreParameter → StoreMetaData
meta_of para = record {
  storemajor = major_ver;
  storeminor = minor_ver;
  max_chunk_size = if para.max_chunk_size == 0 then df_chunk_sz else para.max_chunk_size;
  block_index_interval = df_max_pending;
  compression_flag = para.compression_flag;
}

-- the name of the codec of a compression type
unfoldable pub compress_algo : ℕ → Result Name
compress_algo flag =
    if flag == 0 then ok none_name else if flag == 1 then ok lzo_name else err append_store_codec

module _ (kfs : Kfs) (tree : KfsTree kfs) where
  open tree use {Tree, file, store}

  -- the exception that a caller throws instead
  unfoldable pub rethrow : {A : Type 0} → Result A × Tree → Result A × Tree
  rethrow (ok a, t) = (ok a, t)
  rethrow (err e, t) = (err append_store_write, t)

  -- `CreateDirs`; whether a directory was there is only logged
  unfoldable pub create_dirs : List Name → Tree → Result (Unit {0}) × Tree
  create_dirs [] t = (ok tt, t)
  create_dirs (d ∷ ds) t =
      let (res, t') = create_directory kfs tree d t in
      elim res [ err e ↦ (err e, t') | ok b ↦ create_dirs ds t' ]

  abbrev pub dirs_of : Name → List Name
  dirs_of root = root ∷ (root ++ idx_dir) ∷ (root ++ dat_dir) ∷ (root ++ log_dir) ∷ []

  unfoldable pub check_dirs : Name → Tree → Bool
  check_dirs root t =
      is_directory_exists kfs tree (root ++ idx_dir) t
      && is_directory_exists kfs tree (root ++ dat_dir) t
      && is_directory_exists kfs tree (root ++ log_dir) t

  -- the metadata of the file, or `none` if there is no file
  unfoldable pub read_meta_info : Name → StoreMetaData → Tree → Result (Option StoreMetaData) × Tree
  read_meta_info root meta t =
      let name = root ++ meta_file_name in
      let (res, t') = open_helper kfs tree Mode.read_only name t in
      let (buffer, f) = Fs.read kfs (replicate meta_size 0) (file name t') in
      if not (is_file_exists kfs tree name t)
      then (ok none, t)
      else (rethrow (elim res [
        | err e ↦ (err e, t')
        | ok u ↦ (
          ok (some (from_buffer buffer meta)),
          store name (close_file kfs tree Mode.read_only f) t',
        )
      ]))

  unfoldable pub write_meta_info : Name → StoreMetaData → Tree → Result (Unit {0}) × Tree
  write_meta_info root meta t =
      let name = root ++ meta_file_name in
      let (res, t') = open_helper kfs tree Mode.write_only name t in
      let (wrote, f) = Fs.write_data kfs (to_buffer meta (replicate meta_size 0)) (file name t') in
      rethrow (elim res [
        | err e ↦ (err e, t')
        | ok u ↦ elim wrote [
          | err e ↦ (err e, store name f t')
          | ok n ↦ (ok tt, store name (close_file kfs tree Mode.write_only f) t')
        ]
      ])

  -- the metadata of the store, read from its file or written into a new one
  unfoldable pub load_meta : Bool → Name → StoreMetaData → Tree → Result StoreMetaData × Tree
  load_meta iscreate root meta t =
      let (res, t') = read_meta_info root meta t in
      let (wrote, t'') = write_meta_info root meta t' in
      elim res [
        | err e ↦ (err e, t')
        | ok (some m) ↦
            if check m meta.storemajor meta.storeminor
            then (ok m, t')
            else (err append_store_mis_matched_ver, t')
        | ok none ↦
            if iscreate
            then (elim wrote [ err e ↦ (err e, t'') | ok u ↦ (ok meta, t'') ])
            else (err append_store_not_exist, t')
      ]

  -- the rest of `Init`, once the metadata is there
  unfoldable pub init_loaded :
      Lzo → StoreParameter → Name → StoreMetaData → Tree → Result (Store kfs.File)
  init_loaded lzo para root meta t = elim (compress_algo meta.compression_flag) [
    | err e ↦ err e
    | ok algo ↦
        let max_id = get_max_chunk_id (list_dir kfs tree (root ++ dat_dir) t) in
        if not (check_dirs root t)
        then err append_store_not_exist
        else ok (record {
          root = root;
          append_mode = para.append;
          max_chunk_id = max_id;
          append_chunk_id = if para.append then max_id else 0;
          compression_type = meta.compression_flag;
          meta = meta;
          cache = [];
          codec = get_codec lzo algo para.append;
          current_append = none;
          readers = [];
          current_random = none;
          chunk_map = [];
          delete_chunk_map = [];
        })
  ]

  unfoldable pub init : Bool → Lzo → StoreParameter → Name → Tree → Result (Store kfs.File) × Tree
  init iscreate lzo para root t =
      let made : Result (Unit {0}) × Tree =
        if iscreate then create_dirs (dirs_of root) t else (ok tt, t) in
      let (res, t') = made in
      let (loaded, t'') = load_meta iscreate root (meta_of para) t' in
      elim res [
        | err e ↦ (err e, t')
        | ok u ↦ elim loaded [
          | err e ↦ (err e, t'')
          | ok meta ↦ (init_loaded lzo para root meta t'', t'')
        ]
      ]

  -- `PanguAppendStore(para, iscreate)`
  unfoldable pub new : Bool → Lzo → StoreParameter → Tree → Option (Result (Store kfs.File) × Tree)
  new iscreate lzo para t = elim (with_slash para.path) [
    | none ↦ none
    | some root ↦ some (init iscreate lzo para root t)
  ]

  abbrev pub pangu_store : Name
  pangu_store =
      b'P' ∷ b'a' ∷ b'n' ∷ b'g' ∷ b'u' ∷ b'A' ∷ b'p' ∷ b'p' ∷ b'e' ∷ b'n' ∷ b'd' ∷ b'S' ∷ b't'
      ∷ b'o' ∷ b'r' ∷ b'e' ∷ []

  -- `StoreFactory::Create`, where `ok none` is the null pointer for an unknown type
  unfoldable pub create :
      Lzo → StoreParameter → Name → Tree → Option (Result (Option (Store kfs.File)) × Tree)
  create lzo para type t =
      let made : Option (Result (Option (Store kfs.File)) × Tree) = elim (new true lzo para t) [
        | none ↦ none
        | some (err e, t') ↦ some (err e, t')
        | some (ok s, t') ↦ some (ok (some s), t')
      ] in
      if not (same_name type pangu_store)
      then some (ok none, t)
      else if not para.append
      then some (err append_store_factory, t)
      else made

  -- `StoreFactory::Load`
  unfoldable pub load :
      Lzo → StoreParameter → Name → Tree → Option (Result (Option (Store kfs.File)) × Tree)
  load lzo para type t =
      let made : Option (Result (Option (Store kfs.File)) × Tree) = elim (new false lzo para t) [
        | none ↦ none
        | some (err e, t') ↦ some (err e, t')
        | some (ok s, t') ↦ some (ok (some s), t')
      ] in
      if not (same_name type pangu_store)
      then some (ok none, t)
      else if para.append
      then some (err append_store_factory, t)
      else made
