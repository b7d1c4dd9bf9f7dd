-- ===== src/AppendStore/Index/Load.antt =====
-- append-store/append_store_index.cpp: `IndexVector::LoadFromFile`, and the index file of a vector.
use bigarchive.Prelude.{
  ℕ, zero, suc, ◌<◌, ◌≤◌, ◌≡◌, refl, sym, ◌∙◌, ap, false, Option, none, some, List, [], ◌∷◌, ◌++◌,
  length, take, drop, replicate, length-append, append_assoc, append-nil, All, arith, Bool-cases,
  inl, inr, ◌==◌, if◌then◌else◌,
}
use mathlib.Core.Option
use bigarchive.Prelude.Words.{of_bytes}
use bigarchive.Marshal.RoundTrip.{drop-length}
use bigarchive.Fs.{Kfs}
use bigarchive.Fs
use bigarchive.Fs.Log.{KfsLaws, frame, length-header, read-frame_at}
use bigarchive.AppendStore.Index.{IndexRecord, to_buffer, from_buffer}
use bigarchive.AppendStore.Index.Bytes.{Fits, from_buffer-to_buffer_index}

-- the index file of these records
unfoldable pub index_of : List IndexRecord → List ℕ
index_of [] = []
index_of (e ∷ es) = frame (to_buffer e) ++ index_of es

module _ (kfs : Kfs) where
  open kfs use {File}

  -- The loop, with `mValues` after it; `none` is no fuel.
  unfoldable pub load_loop : ℕ → File → Option (List IndexRecord)
  load_loop zero f = none
  load_loop (suc fuel) f =
      let (index_size, f') = Fs.get_next_log_size kfs f in
      let (buffer, f'') = Fs.read kfs (replicate index_size 0) f' in
      let rest = load_loop fuel f'' in
      if index_size == 0 then some [] else Option.map (λ es. from_buffer buffer ∷ es) rest

  -- The file is opened at its start. A missing file is an empty one here: both give no records.
  unfoldable pub load_from_file : File → Option (List IndexRecord)
  load_from_file f =
      let values = load_loop (suc (kfs.size f)) (kfs.seek 0 f) in
      if kfs.size f == 0 then some [] else values

module _ (kfs : Kfs) (laws : KfsLaws kfs) where
  open laws use {contents, position}

  pub size_at_end :
      (pre : List ℕ) (f : kfs.File)
      → contents f ≡ pre
      → position f ≡ length pre
      → (Fs.get_next_log_size kfs f).0 ≡ 0
  unfolding Fs.get_next_log_size Fs.read of_bytes
  size_at_end pre f c p =
      let (got, same, moved) = laws.read_from 4 f in
      let none_left : take 4 (drop (position f) (contents f)) ≡ [] =
        rw (c, p, drop-length pre refl) refl in
      rw (Fs.get_next_log_size, got, none_left) refl

  load_loop-index_of :
      (fuel : ℕ) (pre : List ℕ) (es : List IndexRecord) (f : kfs.File)
      → length es < fuel
      → All Fits es
      → contents f ≡ pre ++ index_of es
      → position f ≡ length pre
      → load_loop kfs fuel f ≡ some es
  unfolding load_loop index_of
  load_loop-index_of zero pre es f h fits c p = absurd (omega arith)
  load_loop-index_of (suc fuel) pre [] f h fits c p =
      let done = size_at_end pre f (c ∙ append-nil pre) p in rw (load_loop, done) refl
  load_loop-index_of (suc fuel) pre (e ∷ es) f h (he, hs) c p =
      let (len, image, parsed) = from_buffer-to_buffer_index e e [] he in
      let (n, buf, same, pos) =
        read-frame_at kfs laws pre (to_buffer e) (index_of es) f (c ∙ rw append_assoc refl) p
          (omega (arith, len)) in
      let first = (Fs.get_next_log_size kfs f).0 in
      let f₂ = (Fs.get_next_log_size kfs f).1 in
      let f₃ = (Fs.read kfs (replicate first 0) f₂).1 in
      let more : (first == 0) ≡ false = rw (n, len) refl in
      let rest =
        load_loop-index_of fuel (pre ++ frame (to_buffer e)) es f₃ (omega arith) hs
          (same ∙ c ∙ sym (append_assoc pre (frame (to_buffer e)) (index_of es))) pos in
      rw (load_loop, more, buf, rest, image) refl

  length-index_of : (es : List IndexRecord) → length es ≤ length (index_of es)
  unfolding index_of
  length-index_of [] = omega arith
  length-index_of (e ∷ es) = omega (
    arith,
    length-append (frame (to_buffer e)) (index_of es),
    length-append (Fs.header (length (to_buffer e))) (to_buffer e),
    length-header (length (to_buffer e)),
    length-index_of es,
  )

  pub load_from_file-index_of :
      (es : List IndexRecord) (f : kfs.File)
      → All Fits es
      → contents f ≡ index_of es
      → load_from_file kfs f ≡ some es
  unfolding load_from_file
  load_from_file-index_of es f fits c =
      let (c₀, p₀) = laws.seek_to 0 f in
      let size : kfs.size f ≡ length (index_of es) = laws.size_of f ∙ ap length c in
      let values =
        load_loop-index_of (suc (kfs.size f)) [] es (kfs.seek 0 f)
          (omega (arith, size, length-index_of es)) fits (c₀ ∙ c) p₀ in
      elim (Bool-cases (kfs.size f == 0)) [
        | inl empty ↦
            rw empty (ap some (sym (no_records es (ground (arith, size, length-index_of es)))))
        | inr more ↦ rw more values
      ]
    where
      no_records : (es : List IndexRecord) → length es ≡ 0 → es ≡ []
      no_records [] h = refl
      no_records (e ∷ es) h = absurd (omega arith)
