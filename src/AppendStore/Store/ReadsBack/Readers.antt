-- ===== src/AppendStore/Store/ReadsBack/Readers.antt =====
-- The chunk of a handle is found among the readers, or opened.
use bigarchive.Prelude.{
  ℕ, ◌-◌, ◌≤◌, ◌≡◌, refl, ◌∙◌, subst, true, false, none, some, List, [], ◌∷◌, ◌++◌, length,
  get_elem?, get_elem?-lt, get_elem?-append_last, leb, ◌==◌, arith, Bool-cases, Option-cases, inl,
  inr,
}
use bigarchive.Exception.{ok}
use bigarchive.Fs.{Kfs}
use bigarchive.Fs.Log.{KfsLaws}
use bigarchive.Fs.Tree.{KfsTree, TreeLaws, is_file_exists}
use bigarchive.AppendStore.Names.{Name, get_dat_fname, get_idx_fname}
use bigarchive.AppendStore.Index.Load.{load_from_file-index_of}
use bigarchive.AppendStore.Codec.{Codec}
use bigarchive.AppendStore.Chunk.{Chunk, load_index}
use bigarchive.AppendStore.Chunk.Files
use bigarchive.AppendStore.Chunk.Files.{
  ChunkParameter, attach, detach, enable_read, check_if_new, initial, load_data,
}
use bigarchive.AppendStore.Chunk.Blocks.{Block, entries}
use bigarchive.AppendStore.Chunk.Blocks.Reopen.{entries-Fits}
use bigarchive.AppendStore.Store.{Store, State, find_chunk, parameter, valid_chunk_id}
use bigarchive.AppendStore.Store.Exclusive.{IsIndexed}
use bigarchive.AppendStore.Store.Reading.{open_reader, in_chunk_map, load_random_chunk}
use bigarchive.AppendStore.Store.ReadsBack.{
  HasFiles, HasValue, Opens, detach-HasFiles, enable_read-IsOn,
}

module _ (kfs : Kfs) (laws : KfsLaws kfs) (tree : KfsTree kfs) (tree_laws : TreeLaws kfs laws tree)
    (codec : Codec) where
  open kfs use {File}

  -- The chunk `k` has these blocks, and the readers of it know its index.
  pub record CanRead (k : ℕ) (bs : List Block) (s : Store File) (t : tree.Tree) : Type 0 where
    pub indexed : IsIndexed kfs s
    pub known : k ≤ s.max_chunk_id
    pub files : HasFiles kfs laws tree tree_laws codec s.root k bs t
    pub data_there : tree.exists (get_dat_fname s.root k) t ≡ true
    pub index_there : tree.exists (get_idx_fname s.root k) t ≡ true
    pub codec_alive : s.codec ≡ some codec
    pub up_to_date :
        (p : ℕ) (r : Chunk File)
        → find_chunk k s.chunk_map ≡ some p
        → get_elem? s.readers p ≡ some r
        → (r.index_map ≡ entries codec 0 0 bs) × (r.chunk_codec ≡ some codec)

  check_if_new-there :
      (root : Name) (k : ℕ) (t : tree.Tree)
      → tree.exists (get_dat_fname root k) t ≡ true
      → tree.exists (get_idx_fname root k) t ≡ true
      → check_if_new kfs tree root k t ≡ (ok tt, t)
  unfolding check_if_new is_file_exists
  check_if_new-there root k t d i = rw (check_if_new, d, i) refl

  load_index-files :
      (k : ℕ) (bs : List Block) (i : ℕ) (v : List ℕ) (s : Store File) (t : tree.Tree)
      → HasValue codec bs i v
      → CanRead k bs s t
      → let c = initial kfs tree (parameter kfs tree s k false) t in
        (c' : Chunk File) × (load_index kfs c ≡ some c')
        × (c'.index_map ≡ entries codec 0 0 bs)
        × (c'.chunk_id ≡ k)
        × (c'.chunk_codec ≡ s.codec)
        × (c'.data_file ≡ tree.file (get_dat_fname s.root k) t)
        × (c'.index_file ≡ tree.file (get_idx_fname s.root k) t)
  unfolding load_index initial
  load_index-files k bs i v s t value can =
      let small = value.small in
      let loaded =
        load_from_file-index_of kfs laws (entries codec 0 0 bs) _
          (entries-Fits codec 0 0 bs value.blocks (omega arith)) can.files.index_bytes in
      let c = initial kfs tree (parameter kfs tree s k false) t in
      let es = entries codec 0 0 bs in
      let c' : Chunk File = record c {
        index_map = es;
        max_index = elim (get_elem? es (length es - 1)) [ none ↦ c.max_index | some r ↦ r.index ];
      } in
      (c', rw (load_index, loaded) refl, refl, refl, refl, refl, refl)

  -- A reader of the chunk `k` that knows its index, at the place `p` of a state.
  pub record IsReaderAt (k p : ℕ) (bs : List Block) (st : State kfs tree) : Type 0 where
    pub reader : Chunk File
    pub at_place : get_elem? st.0.readers p ≡ some reader
    pub number : reader.chunk_id ≡ k
    pub index : reader.index_map ≡ entries codec 0 0 bs
    pub codec_kept : reader.chunk_codec ≡ some codec
    pub files : HasFiles kfs laws tree tree_laws codec st.0.root k bs st.1

  new-ok :
      (p : ChunkParameter) (c : Chunk File) (t : tree.Tree)
      → check_if_new kfs tree p.root p.chunk_id t ≡ (ok tt, t)
      → load_index kfs (initial kfs tree p t) ≡ some c
      → p.append_flag ≡ false
      → (enable_read kfs c).0 ≡ ok tt
      → Files.new kfs tree p t
        ≡ some (ok (enable_read kfs c).1, detach kfs tree p.root (enable_read kfs c).1 t)
  unfolding Files.new load_data
  new-ok p c t checked loaded flag done = ground arith

  new-reader :
      (k : ℕ) (bs : List Block) (i : ℕ) (v : List ℕ) (s : Store File) (t : tree.Tree)
      → Opens kfs laws tree tree_laws codec
      → HasValue codec bs i v
      → CanRead k bs s t
      → (c : Chunk File) × (t' : tree.Tree) × (Files.new kfs tree (parameter kfs tree s k false) t
          ≡ some (ok c, t'))
        × (c.chunk_id ≡ k)
        × (c.index_map ≡ entries codec 0 0 bs)
        × (c.chunk_codec ≡ some codec)
        × HasFiles kfs laws tree tree_laws codec s.root k bs t'
  new-reader k bs i v s t opens value can =
      let (c, loaded, index, number, codec_kept, data_file, index_file) =
        load_index-files k bs i v s t value can in
      let checked = check_if_new-there s.root k t can.data_there can.index_there in
      let (done, on) = enable_read-IsOn kfs laws tree tree_laws codec c opens in
      let c' = (enable_read kfs c).1 in
      (
        c',
        detach kfs tree s.root c' t,
        new-ok (parameter kfs tree s k false) c t checked loaded refl done,
        on.number ∙ number,
        on.entries_kept ∙ index,
        on.codec_kept ∙ codec_kept ∙ can.codec_alive,
        subst
            (λ (n : ℕ).
              HasFiles kfs laws tree tree_laws codec s.root n bs (detach kfs tree s.root c' t))
            (on.number ∙ number)
            (detach-HasFiles kfs laws tree tree_laws codec s.root bs c' t
              (on.bytes ∙ rw data_file can.files.data_bytes)
              (rw (on.same_index, index_file) can.files.index_bytes)),
      )

  open_reader-new :
      (k : ℕ) (c : Chunk File) (s : Store File) (t t' : tree.Tree)
      → Files.new kfs tree (parameter kfs tree s k false) t ≡ some (ok c, t')
      → open_reader kfs tree k (s, t)
        ≡ some (
          ok (some (length s.readers)),
          (
            record s {
              readers = s.readers ++ c ∷ [];
              current_random = some (length s.readers);
              chunk_map = (k, length s.readers) ∷ s.chunk_map;
            },
            t',
          ),
        )
  unfolding open_reader
  open_reader-new k c s t t' made = rw (open_reader, made) refl

  in_chunk_map-reader :
      (k : ℕ) (bs : List Block) (i : ℕ) (v : List ℕ) (s : Store File) (t : tree.Tree)
      → Opens kfs laws tree tree_laws codec
      → HasValue codec bs i v
      → CanRead k bs s t
      → (p : ℕ) × (st : State kfs tree) × (in_chunk_map kfs tree k (s, t) ≡ some (ok (some p), st))
        × IsReaderAt k p bs st
  unfolding in_chunk_map
  in_chunk_map-reader k bs i v s t opens value can =
      elim (Option-cases (find_chunk k s.chunk_map)) [
        | inr (p, e) ↦
            let (r, at_p) = get_elem?-lt s.readers p (can.indexed.placed k p e) in
            let (index, alive) = can.up_to_date p r e at_p in
            (
              p,
              (s, t),
              rw (in_chunk_map, e) refl,
              record {
                reader = r;
                at_place = at_p;
                number = can.indexed.ids k p r e at_p;
                index = index;
                codec_kept = alive;
                files = can.files;
              },
            )
        | inl e ↦
            let (c, t', made, number, index, alive, files) =
              new-reader k bs i v s t opens value can in
            (
              length s.readers,
              (
                record s {
                  readers = s.readers ++ c ∷ [];
                  current_random = some (length s.readers);
                  chunk_map = (k, length s.readers) ∷ s.chunk_map;
                },
                t',
              ),
              rw (in_chunk_map, e) (open_reader-new k c s t t' made),
              record {
                reader = c;
                at_place = get_elem?-append_last s.readers c;
                number = number;
                index = index;
                codec_kept = alive;
                files = files;
              },
            )
      ]

  load_random_chunk-this :
      (k q : ℕ) (r : Chunk File) (s : Store File) (t : tree.Tree)
      → leb k s.max_chunk_id ≡ true
      → s.current_random ≡ some q
      → get_elem? s.readers q ≡ some r
      → (r.chunk_id == k) ≡ true
      → load_random_chunk kfs tree k (s, t) ≡ some (ok (some q), (s, t))
  unfolding load_random_chunk valid_chunk_id
  load_random_chunk-this k q r s t valid e at_q this = ground arith

  pub load_random_chunk-reader :
      (k : ℕ) (bs : List Block) (i : ℕ) (v : List ℕ) (s : Store File) (t : tree.Tree)
      → Opens kfs laws tree tree_laws codec
      → HasValue codec bs i v
      → CanRead k bs s t
      → (p : ℕ) × (st : State kfs tree) × (load_random_chunk kfs tree k (s, t)
          ≡ some (ok (some p), st))
        × IsReaderAt k p bs st
  unfolding load_random_chunk valid_chunk_id
  load_random_chunk-reader k bs i v s t opens value can =
      let valid : leb k s.max_chunk_id ≡ true = ground (arith, can.known) in
      let (p, st, ran, reader) = in_chunk_map-reader k bs i v s t opens value can in
      elim (Option-cases s.current_random) [
        | inl e ↦ (p, st, rw (load_random_chunk, valid, e, ran) refl, reader)
        | inr (q, e) ↦
            let (r, at_q) = get_elem?-lt s.readers q (can.indexed.current_placed q e) in
            elim (Bool-cases (r.chunk_id == k)) [
              | inr other ↦ (p, st, rw (load_random_chunk, valid, e, at_q, other, ran) refl, reader)
              | inl this ↦
                  let number : r.chunk_id ≡ k = ground (arith, this) in
                  let (index, alive) =
                    can.up_to_date q r (rw number at (can.indexed.current q r e at_q)) at_q in
                  (
                    q,
                    (s, t),
                    load_random_chunk-this k q r s t valid e at_q this,
                    record {
                      reader = r;
                      at_place = at_q;
                      number = number;
                      index = index;
                      codec_kept = alive;
                      files = can.files;
                    },
                  )
            ]
      ]
