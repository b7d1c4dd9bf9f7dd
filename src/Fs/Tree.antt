-- ===== src/Fs/Tree.antt =====
-- fs/qfs_file_system_helper.h and .cpp: `QFSHelper`, and of `QFSFileHelper` the operations that go
-- by the name of a file. What the client keeps by name comes in as the interface `KfsTree`.
use bigarchive.Prelude.{ℕ, ◌≡◌, ◌≢◌, Bool, true, false, List, if◌then◌else◌}
use bigarchive.Exception.{
  Result, ok, err, file_open, file_creation, file_deletion, directory_deletion,
}
use bigarchive.Fs.{Kfs}
use bigarchive.Fs.Log.{KfsLaws}

-- the result of `Mkdirs`: zero, `-EEXIST`, or another error code
pub data Mkdirs : Type 0 where
  made there failed : Mkdirs

-- The client by names. `create`, `remove` and `rmdirs` tell whether the call succeeded. `file` is the file of
-- a name, and `store` the tree after that file was changed through its descriptors.
pub record KfsTree (kfs : Kfs) : Type 1 where
  pub Tree : Type 0
  pub exists : List ℕ → Tree → Bool
  pub create : List ℕ → Tree → Bool × Tree
  pub remove : List ℕ → Tree → Bool × Tree
  pub mkdirs : List ℕ → Tree → Mkdirs × Tree
  pub rmdirs : List ℕ → Tree → Bool × Tree
  pub read_dir : List ℕ → Tree → List (List ℕ)
  pub file : List ℕ → Tree → kfs.File
  pub store : List ℕ → kfs.File → Tree → Tree

-- The documented behaviour that the store relies on: a file is found as it was left, the files of
-- other names are not touched, no file goes away because one is written, and neither `Open` for
-- reading nor `Sync` changes the contents.
pub record TreeLaws (kfs : Kfs) (laws : KfsLaws kfs) (tree : KfsTree kfs) : Type 1 where
  pub file_store : (n : List ℕ) (f : kfs.File) (t : tree.Tree) → tree.file n (tree.store n f t) ≡ f
  pub file_store_other :
      (n m : List ℕ) (f : kfs.File) (t : tree.Tree)
      → n ≢ m
      → tree.file m (tree.store n f t) ≡ tree.file m t
  pub exists_store :
      (n m : List ℕ) (f : kfs.File) (t : tree.Tree)
      → tree.exists m t ≡ true
      → tree.exists m (tree.store n f t) ≡ true
  pub open_read_keeps : (f : kfs.File) → laws.contents (kfs.open_read f).1 ≡ laws.contents f
  pub sync_keeps : (f : kfs.File) → laws.contents (kfs.sync f) ≡ laws.contents f

-- `O_RDONLY`, `O_WRONLY` and `O_WRONLY | O_APPEND`
pub data Mode : Type 0 where
  read_only write_only append_only : Mode

module _ (kfs : Kfs) (tree : KfsTree kfs) where
  open tree use {Tree, exists, file, store}

  unfoldable pub is_file_exists : List ℕ → Tree → Bool
  is_file_exists fname t = exists fname t

  unfoldable pub is_directory_exists : List ℕ → Tree → Bool
  is_directory_exists dirname t = exists dirname t

  unfoldable pub get_size : List ℕ → Tree → ℕ
  get_size fname t = kfs.size (file fname t)

  unfoldable pub list_dir : List ℕ → Tree → List (List ℕ)
  list_dir pathname t = tree.read_dir pathname t

  -- whether the directory was made, or was there already
  unfoldable pub create_directory : List ℕ → Tree → Result Bool × Tree
  create_directory pathname t =
      let (res, t') = tree.mkdirs pathname t in
      elim res [
        | Mkdirs.made ↦ (ok true, t')
        | Mkdirs.there ↦ (ok false, t')
        | Mkdirs.failed ↦ (err file_creation, t')
      ]

  unfoldable pub create_file : List ℕ → Tree → Result (Unit {0}) × Tree
  create_file pathname t =
      let (done, t') = tree.create pathname t in (if done then ok tt else err file_creation, t')

  unfoldable pub remove_file : List ℕ → Tree → Result (Unit {0}) × Tree
  remove_file pathname t =
      let (done, t') = tree.remove pathname t in (if done then ok tt else err file_deletion, t')

  unfoldable pub remove_directory : List ℕ → Tree → Result (Unit {0}) × Tree
  remove_directory dirname t =
      let (done, t') = tree.rmdirs dirname t in (if done then ok tt else err directory_deletion, t')

  -- `QFSFileHelper::Create`
  unfoldable pub create : List ℕ → Tree → Result (Unit {0}) × Tree
  create filename t =
      let (done, t') = tree.create filename t in (if done then ok tt else err file_creation, t')

  -- the `Open` of the client, with the seek to the end that follows in append mode
  unfoldable pub open_mode : Mode → kfs.File → Bool × kfs.File
  open_mode Mode.read_only f = kfs.open_read f
  open_mode Mode.write_only f = kfs.open_write f
  open_mode Mode.append_only f = kfs.open_append f

  unfoldable pub open_there : Mode → List ℕ → Tree → Result (Unit {0}) × Tree
  open_there mode filename t =
      let (done, f) = open_mode mode (file filename t) in
      (if done then ok tt else err file_open, store filename f t)

  -- `QFSFileHelper::Open`, which creates a file that does not exist
  unfoldable pub open_helper : Mode → List ℕ → Tree → Result (Unit {0}) × Tree
  open_helper mode filename t =
      let (res, t') = create filename t in
      let opened = open_there mode filename t' in
      if is_file_exists filename t
      then open_there mode filename t
      else (elim res [ err e ↦ (err e, t') | ok u ↦ opened ])

  -- `QFSFileHelper::Close` on an opened file: a file that is written is synced
  unfoldable pub close_file : Mode → kfs.File → kfs.File
  close_file Mode.read_only f = f
  close_file Mode.write_only f = kfs.sync f
  close_file Mode.append_only f = kfs.sync f
