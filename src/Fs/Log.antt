-- ===== src/Fs/Log.antt =====
-- What was written to a log file is found again at its offset.
use bigarchive.Prelude.{
  ℕ, ◌+◌, ◌%◌, ◌^◌, ◌<◌, ◌≡◌, refl, sym, ◌∙◌, some, List, ◌++◌, length, take, drop, length-append,
  append-nil, append_assoc, arith, replicate, length-replicate, ==_refl,
}
use bigarchive.Prelude.Words.{bytes_of, of_bytes, length-bytes_of}
use bigarchive.Exception.{ok}
use bigarchive.Marshal.Stream.{take-append, drop-append}
use bigarchive.Marshal.RoundTrip.{drop-length}
use bigarchive.Fs.{
  Kfs, header, header_size, as_offset, whole, write, write_with_retry, seek, read,
  get_next_log_size,
}

-- The documented behaviour of the client that the log relies on: a write that reports its whole
-- length has put the bytes at the end; a read gives what stands at the position, as far as there is.
pub record KfsLaws (kfs : Kfs) : Type 1 where
  pub contents : kfs.File → List ℕ
  pub position : kfs.File → ℕ
  pub write_whole :
      (bs : List ℕ) (f : kfs.File)
      → (kfs.write bs f).0 ≡ some (length bs)
      → (contents (kfs.write bs f).1 ≡ contents f ++ bs)
        × (kfs.tell (kfs.write bs f).1 ≡ length (contents f ++ bs))
  pub size_of : (f : kfs.File) → kfs.size f ≡ length (contents f)
  pub seek_to :
      (p : ℕ) (f : kfs.File)
      → (contents (kfs.seek p f) ≡ contents f) × (position (kfs.seek p f) ≡ p)
  pub read_from :
      (n : ℕ) (f : kfs.File)
      → ((kfs.read n f).0 ≡ take n (drop (position f) (contents f)))
        × (contents (kfs.read n f).1 ≡ contents f)
        × (position (kfs.read n f).1
            ≡ position f + length (take n (drop (position f) (contents f))))

-- a record of the log
abbrev pub frame : List ℕ → List ℕ
frame bs = header (length bs) ++ bs

pub length-header : (n : ℕ) → length (header n) ≡ header_size
unfolding header
length-header n = length-bytes_of 4 (n % 2 ^ 32)

header-value : (n : ℕ) → n < 2 ^ 32 → of_bytes (take header_size (header n)) ≡ n
unfolding header bytes_of of_bytes
header-value n h = ground arith

-- Below 2 GiB the position that `Write` returns as an `int` is the position.
pub as_offset-small : (n : ℕ) → n < 2 ^ 31 → as_offset n ≡ n
unfolding as_offset
as_offset-small n h = ground arith

module _ (kfs : Kfs) (laws : KfsLaws kfs) where
  open laws use {contents, position}

  -- A write that is not reported short succeeds.
  pub write-contents :
      (bs : List ℕ) (f : kfs.File)
      → (kfs.write (frame bs) f).0 ≡ some (length (frame bs))
      → length (contents f ++ frame bs) < 2 ^ 31
      → ((write kfs bs f).0 ≡ ok (length (contents f ++ frame bs)))
        × (contents (write kfs bs f).1 ≡ contents f ++ frame bs)
  unfolding write whole
  write-contents bs f done small =
      let (c, t) = laws.write_whole (frame bs) f done in
      (
        rw (write, done, ==_refl, t, as_offset-small (length (contents f ++ frame bs)) small) refl,
        c,
      )

  -- What stands at the position is read over a buffer of its length.
  read-at :
      (pre bs post buffer : List ℕ) (f : kfs.File)
      → contents f ≡ pre ++ (bs ++ post)
      → position f ≡ length pre
      → length buffer ≡ length bs
      → ((read kfs buffer f).0 ≡ bs)
        × (contents (read kfs buffer f).1 ≡ contents f)
        × (position (read kfs buffer f).1 ≡ length (pre ++ bs))
  unfolding read
  read-at pre bs post buffer f c p n =
      let (got, same, moved) = laws.read_from (length buffer) f in
      let all : take (length buffer) (drop (position f) (contents f)) ≡ bs =
        rw (c, p, n, drop-append, take-append) refl in
      (
        rw (got, all) (rw (drop-length buffer n, append-nil) refl),
        same,
        moved ∙ rw (all, p) (sym (length-append pre bs)),
      )

  -- Reading a record at the position: its length from the header, then its bytes.
  pub read-frame_at :
      (pre bs post : List ℕ) (f : kfs.File)
      → contents f ≡ pre ++ (frame bs ++ post)
      → position f ≡ length pre
      → length bs < 2 ^ 32
      → let (n, f₂) = get_next_log_size kfs f in
        let (buf, f₃) = read kfs (replicate n 0) f₂ in
        (n ≡ length bs)
        × (buf ≡ bs)
        × (contents f₃ ≡ contents f)
        × (position f₃ ≡ length (pre ++ frame bs))
  unfolding get_next_log_size
  read-frame_at pre bs post f c p small =
      let h = header (length bs) in
      let (got, c₂, p₂) =
        read-at pre h (bs ++ post) (replicate 4 0) f (c ∙ rw append_assoc refl) p
          (sym (length-header (length bs))) in
      let f₂ = (read kfs (replicate 4 0) f).1 in
      let size : of_bytes (take 4 (read kfs (replicate 4 0) f).0) ≡ length bs =
        rw got (header-value (length bs) small) in
      let (got₃, c₃, p₃) =
        read-at (pre ++ h) bs post (replicate (length bs) 0) f₂
          (c₂ ∙ c ∙ rw (append_assoc, append_assoc) refl) p₂ (length-replicate (length bs) 0) in
      rw size (refl, got₃, c₃ ∙ c₂, rw append_assoc at p₃)

  -- At the offset of a record of a log file of less than 2 ^ 32 bytes, `GetNextLogSize` gives its
  -- length and `Read` its bytes, and the file stands behind it.
  pub read-frame :
      (pre bs post : List ℕ) (f : kfs.File)
      → contents f ≡ pre ++ (frame bs ++ post)
      → length bs < 2 ^ 32
      → let (n, f₂) = get_next_log_size kfs (seek kfs (length pre) f) in
        let (buf, f₃) = read kfs (replicate n 0) f₂ in
        (n ≡ length bs)
        × (buf ≡ bs)
        × (contents f₃ ≡ contents f)
        × (position f₃ ≡ length (pre ++ frame bs))
  unfolding seek
  read-frame pre bs post f c small =
      let (c₁, p₁) = laws.seek_to (length pre) f in
      let (n, buf, same, pos) =
        read-frame_at pre bs post (kfs.seek (length pre) f) (c₁ ∙ c) p₁ small in
      (n, buf, same ∙ c₁, pos)

  -- A write that succeeds is not tried again.
  pub write_with_retry-ok :
      (bs : List ℕ) (f : kfs.File) (n : ℕ)
      → (write kfs bs f).0 ≡ ok n
      → write_with_retry kfs bs f ≡ (ok n, (write kfs bs f).1)
  unfolding write_with_retry
  write_with_retry-ok bs f n e = rw (write_with_retry, e) refl
