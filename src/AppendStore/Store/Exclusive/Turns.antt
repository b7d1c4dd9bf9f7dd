-- ===== src/AppendStore/Store/Exclusive/Turns.antt =====
-- A reader is read once the writer of its chunk has lost its permission.
use bigarchive.Prelude.{
  ℕ, ◌≡◌, ◌≢◌, refl, sym, ◌∙◌, Bool, true, false, ◌&&◌, Option, none, some, List, set, get_elem?,
  get_elem?-set, ◌==◌, arith, Bool-cases, Option-cases, inl, inr,
}
use bigarchive.Exception.{Result, Result-cases}
use bigarchive.Fs.{Kfs}
use bigarchive.Fs.Tree.{KfsTree}
use bigarchive.AppendStore.Types.Cache.{Cache}
use bigarchive.AppendStore.Chunk
use bigarchive.AppendStore.Chunk.{
  Chunk, disable_write, check_read_permission, check_write_permission,
}
use bigarchive.AppendStore.Chunk.Files.{attach}
use bigarchive.AppendStore.Chunk.Identity.{chunk_id-read, chunk_id-enable_read}
use bigarchive.AppendStore.Store.{Store, State, load_chunk}
use bigarchive.AppendStore.Store.Reading.{turn_off_writer, turn_on_read, read_reader}
use bigarchive.AppendStore.Store.Exclusive.{
  IsReaderOff, IsIndexed, IsExclusive, put_reader-IsIndexed, reindex,
}

module _ (kfs : Kfs) where
  open kfs use {File}

  -- exclusive but for the chunk `id`, whose reader has just been opened
  pub record IsExclusiveBut (id : ℕ) (s : Store File) : Type 0 where
    pub indexed : IsIndexed kfs s
    pub exclusive :
        (w : Chunk File)
        → s.current_append ≡ some w
        → check_write_permission kfs w ≡ true
        → w.chunk_id ≢ id
        → IsReaderOff kfs w.chunk_id s

  -- exclusive, and the writer of the chunk `id` has no permission
  record IsTurned (id : ℕ) (s : Store File) : Type 0 where
    still : IsExclusiveBut id s
    off :
        (w : Chunk File)
        → s.current_append ≡ some w
        → w.chunk_id ≡ id
        → check_write_permission kfs w ≡ false

  -- Where the writer has no permission, its reader may be replaced.
  put_reader-IsExclusive :
      (id p : ℕ) (s : Store File) (cache : Cache) (r r' : Chunk File)
      → IsTurned id s
      → get_elem? s.readers p ≡ some r
      → r.chunk_id ≡ id
      → r'.chunk_id ≡ id
      → IsExclusive kfs (record s { cache = cache; readers = set s.readers p r' })
  put_reader-IsExclusive id p s cache r r' turned at_p same same' = record {
    indexed =
        reindex kfs _ cache s.current_append
          (put_reader-IsIndexed kfs s p r r' at_p (same' ∙ sym same) turned.still.indexed);
    exclusive = λ w e may q a f g. elim (Bool-cases (w.chunk_id == id)) [
      | inl here ↦ absurd (cc (may, turned.off w e (ground (arith, here))))
      | inr there ↦ elim (get_elem?-set s.readers p q r' a g) [
        | inl (this, is) ↦ absurd (
            ground
              (arith, there, turned.still.indexed.ids w.chunk_id q r f (rw this at at_p), same))
        | inr (other, is) ↦ turned.still.exclusive w e may (λ h. ground (arith, there, h)) q a f is
      ]
    ];
  }

  disable_write_off : (c : Chunk File) → check_write_permission kfs (disable_write kfs c) ≡ false
  unfolding check_write_permission disable_write
  disable_write_off c = refl

  -- A writer without permission takes the place of the writer.
  switched :
      (id : ℕ) (s : Store File) (cache : Cache) (w : Chunk File) {w' : Chunk File}
      → check_write_permission kfs w' ≡ false
      → IsExclusiveBut id s
      → IsTurned id (record s { cache = cache; current_append = some w' })
  switched id s cache w {w'} off but = record {
    still = record {
      indexed = reindex kfs s cache (some w') but.indexed;
      exclusive = λ a h may other. absurd (cc (may, off, h));
    };
    off = λ a h same. cc (off, h);
  }

  with_cache :
      (id : ℕ) (s : Store File) (cache : Cache)
      → IsTurned id s
      → IsTurned id (record s { cache = cache })
  with_cache id s cache turned = record {
    still = record {
      indexed = reindex kfs s cache s.current_append turned.still.indexed;
      exclusive = turned.still.exclusive;
    };
    off = turned.off;
  }

  module _ (tree : KfsTree kfs) where
    turn_off_writer-IsTurned :
        (id : ℕ) (s : Store File) (t : tree.Tree)
        → IsExclusiveBut id s
        → IsTurned id (turn_off_writer kfs tree id (s, t)).0
          × ((turn_off_writer kfs tree id (s, t)).0.readers ≡ s.readers)
    unfolding turn_off_writer attach
    turn_off_writer-IsTurned id s t but = elim (Option-cases s.current_append) [
      | inl e ↦
          rw (turn_off_writer, e) (record { still = but; off = λ w h. absurd (cc (e, h)) }, refl)
      | inr (w, e) ↦ elim (Bool-cases (w.chunk_id == id && check_write_permission kfs w)) [
        | inl both ↦
            rw (turn_off_writer, e, both) (switched id s _ w (disable_write_off _) but, refl)
        | inr not_both ↦
            rw (turn_off_writer, e, not_both)
              (record { still = but; off = λ a h same. ground (arith, not_both, e, h, same) }, refl)
      ]
    ]

    turn_on_read-IsTurned :
        (r : Chunk File) (s : Store File) (t : tree.Tree)
        → IsExclusiveBut r.chunk_id s
        → let (res, r', st) = turn_on_read kfs tree r (s, t) in
          IsTurned r.chunk_id st.0 × (st.0.readers ≡ s.readers) × (r'.chunk_id ≡ r.chunk_id)
    unfolding turn_on_read attach
    turn_on_read-IsTurned r s t but =
        let (turned, same) = turn_off_writer-IsTurned r.chunk_id s t but in
        elim (Bool-cases (check_read_permission kfs r)) [
          | inl may ↦ rw may (turned, same, refl)
          | inr not_yet ↦ rw not_yet (with_cache _ _ _ turned, same, chunk_id-enable_read kfs _)
        ]

    abbrev pub KeepsData : Option (Result Bool × List ℕ × State kfs tree) → Type 0
    KeepsData none = Unit
    KeepsData (some (res, got, st)) = IsExclusive kfs st.0

    pub read_reader-Keeps :
        (p index : ℕ) (old : List ℕ) (r : Chunk File) (s : Store File) (t : tree.Tree)
        → get_elem? s.readers p ≡ some r
        → IsExclusiveBut r.chunk_id s
        → KeepsData (read_reader kfs tree p index old (s, t))
    unfolding read_reader attach
    read_reader-Keeps p index old r s t at_p but =
        let (turned, same, number) = turn_on_read-IsTurned r s t but in
        let on = turn_on_read kfs tree r (s, t) in
        elim (Result-cases on.0) [
          | inr (x, e) ↦
              rw (read_reader, at_p, e)
                (put_reader-IsExclusive r.chunk_id p _ _ r _ turned (rw same at_p) refl number)
          | inl (u, e) ↦
              elim (Option-cases (Chunk.read kfs index old (load_chunk kfs tree on.2 on.1))) [
                | inl e' ↦ rw (read_reader, at_p, e, e') tt
                | inr ((res, got, r''), e') ↦
                    rw (read_reader, at_p, e, e')
                      (put_reader-IsExclusive r.chunk_id p _ _ r r'' turned (rw same at_p) refl
                        (chunk_id-read kfs index old got res _ r'' e' ∙ number))
              ]
        ]

    pub no_reader :
        (p index : ℕ) (old : List ℕ) (s : Store File) (t : tree.Tree)
        → get_elem? s.readers p ≡ none
        → KeepsData (read_reader kfs tree p index old (s, t))
    unfolding read_reader
    no_reader p index old s t e = rw (read_reader, e) tt
