-- ===== src/Fs.antt =====
-- fs/qfs_file_helper.h and .cpp: `QFSFileHelper`, which writes a file as a log of records, each
-- behind a header with its length. The KFS client is a library: it comes in as the interface `Kfs`.
-- A file stands here for its bytes on KFS with the reading and the writing descriptor of its helpers.
pub mod Log
pub mod Tree
use bigarchive.Prelude.{
  ℕ, ◌+◌, ◌-◌, ◌%◌, ◌^◌, ◌≡◌, Bool, true, false, Option, none, some, List, [], ◌∷◌, ◌++◌, length,
  take, drop, replicate, ltb, ◌==◌, if◌then◌else◌,
}
use bigarchive.Prelude.Words.{bytes_of, of_bytes, overwrite}
use bigarchive.Exception.{Result, ok, err, append_store_write, file_open, file_creation}

-- What the helper calls of `kfsClient`. `write` gives the number of bytes written, or `none` for a
-- negative error code; `read` gives the bytes that were read; `open_append` tells whether it succeeded, and
-- leaves the writing descriptor at the end of the file; `open_read` and `open_write` leave the
-- descriptor at its start.
pub record Kfs : Type 1 where
  pub File : Type 0
  pub write : List ℕ → File → Option ℕ × File
  pub tell : File → ℕ
  pub seek : ℕ → File → File
  pub read : ℕ → File → List ℕ × File
  pub sync : File → File
  pub open_append : File → Bool × File
  pub open_read : File → Bool × File
  pub open_write : File → Bool × File
  pub size : File → ℕ

abbrev pub header_size : ℕ
header_size = 4

-- `Header(length)`, whose member has 32 bits
unfoldable pub header : ℕ → List ℕ
header length = bytes_of header_size (length % 2 ^ 32)

-- an `int` that is stored in a `uint64_t`, as the callers do with what `Write` returns
unfoldable pub as_offset : ℕ → ℕ
as_offset n = if ltb (n % 2 ^ 32) (2 ^ 31) then n % 2 ^ 32 else 2 ^ 64 - 2 ^ 32 + n % 2 ^ 32

module _ (kfs : Kfs) where
  open kfs use {File}

  -- the check of the two writes that must be whole
  unfoldable pub whole : {A : Type 0} → ℕ → Option ℕ → A → Result A
  whole n none result = err append_store_write
  whole n (some wrote) result = if wrote == n then ok result else err append_store_write

  -- `Write(buffer, length)`: the writing position after the header and the buffer
  unfoldable pub write : List ℕ → File → Result ℕ × File
  write buffer f =
      let bytes = header (length buffer) ++ buffer in
      let (wrote, f') = kfs.write bytes f in
      (whole (length bytes) wrote (as_offset (kfs.tell f')), f')

  -- `WriteData(buffer, length)`: the number of bytes written
  unfoldable pub write_data : List ℕ → File → Result ℕ × File
  write_data buffer f =
      let (wrote, f') = kfs.write buffer f in (whole (length buffer) wrote (length buffer), f')

  -- `Flush` and `FlushData`; an exception leaves them before `Sync`
  unfoldable pub sync_after : Result ℕ × File → Result ℕ × File
  sync_after (ok n, f) = (ok n, kfs.sync f)
  sync_after (err e, f) = (err e, f)

  unfoldable pub flush : List ℕ → File → Result ℕ × File
  flush buffer f = sync_after (write buffer f)

  unfoldable pub flush_data : List ℕ → File → Result ℕ × File
  flush_data buffer f = sync_after (write_data buffer f)

  unfoldable pub seek : ℕ → File → File
  seek offset f = kfs.seek offset f

  -- `Read(buffer, length)` over what the buffer held. `bytes_read` is a `size_t`, so the test for an
  -- error below zero never holds, and a read that fails or is short leaves the buffer as it is.
  unfoldable pub read : List ℕ → File → List ℕ × File
  read buffer f = let (got, f') = kfs.read (length buffer) f in (overwrite got buffer, f')

  unfoldable pub get_next_log_size : File → ℕ × File
  get_next_log_size f =
      let (buffer, f') = read (replicate header_size 0) f in
      (of_bytes (take header_size buffer), f')

  -- `CreateFileHelper(name, O_WRONLY | O_APPEND)` and `Open()`
  unfoldable pub open_file : File → Result (Unit {0}) × File
  open_file f = let (done, f') = kfs.open_append f in (if done then ok tt else err file_open, f')

  -- The handlers of the chunk around a write: on an exception the file is opened anew, and the write
  -- is tried once more; what is thrown then is the second exception, or that of `Open`.
  unfoldable pub second_try : List ℕ → File → Result ℕ × File
  second_try buffer f =
      let (res, f') = write buffer f in
      let (opened, f'') = open_file f' in
      elim res [
        | ok n ↦ (ok n, f')
        | err e ↦ elim opened [ ok u ↦ (err e, f'') | err e' ↦ (err e', f'') ]
      ]

  unfoldable pub write_with_retry : List ℕ → File → Result ℕ × File
  write_with_retry buffer f =
      let (res, f') = write buffer f in
      let (opened, f'') = open_file f' in
      elim res [
        | ok n ↦ (ok n, f')
        | err e ↦ elim opened [ ok u ↦ second_try buffer f'' | err e' ↦ (err e', f'') ]
      ]
