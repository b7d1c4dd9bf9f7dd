-- ===== src/AppendStore/Store/ReadsBack.antt =====
-- The files of a chunk while its reader is turned on and its writer off.
pub mod Readers
pub mod Values
use bigarchive.Prelude.{
  ℕ, zero, suc, ◌+◌, ◌-◌, ◌^◌, ◌≤◌, ◌<◌, ◌≡◌, ◌≢◌, refl, sym, ap, ◌∙◌, subst, Bool, true, false,
  not, if_both, ◌&&◌, Option, none, some, List, [], ◌∷◌, ◌++◌, length, get_elem?,
  get_elem?-append_head, get_elem?-lt, get_elem?-append_last, set, leb, ◌==◌, arith, Bool-cases,
  Option-cases, inl, inr,
}
use bigarchive.Exception.{Result, Result-cases, ok, err}
use bigarchive.Fs.{Kfs}
use bigarchive.Fs.Log.{KfsLaws}
use bigarchive.Fs.Tree.{KfsTree, TreeLaws, is_file_exists}
use bigarchive.AppendStore.Names.{Name, get_dat_fname, get_idx_fname}
use bigarchive.AppendStore.Types.Handle.{Handle, to_string, of_string, is_valid}
use bigarchive.AppendStore.Types.HandleLaws.{IsPacked, of_string-to_string}
use bigarchive.AppendStore.Types.Cache
use bigarchive.AppendStore.Types.Cache.{Cache}
use bigarchive.AppendStore.Index.Load.{index_of, load_from_file-index_of}
use bigarchive.AppendStore.Codec.{Codec, CodecLaws}
use bigarchive.AppendStore.Chunk
use bigarchive.AppendStore.Chunk.{
  Chunk, load_index, disable_write, check_read_permission, check_write_permission,
}
use bigarchive.AppendStore.Chunk.Files
use bigarchive.AppendStore.Chunk.Files.{
  ChunkParameter, attach, detach, enable_read, check_if_new, initial, load_data,
}
use bigarchive.AppendStore.Chunk.Blocks.{Block, data_of, entries, all_vals, AreBlocks}
use bigarchive.AppendStore.Chunk.Blocks.Find.{Holds, read-all_vals}
use bigarchive.AppendStore.Chunk.Blocks.Reopen.{entries-Fits}
use bigarchive.AppendStore.Store.{
  Store, State, find_chunk, load_chunk, save_chunk, parameter, valid_chunk_id,
}
use bigarchive.AppendStore.Store.Exclusive.{IsIndexed}
use bigarchive.AppendStore.Store.Reading.{
  open_reader, in_chunk_map, load_random_chunk, turn_off_writer, turn_on_read, put_reader,
  read_reader, read,
}

-- The two files of a chunk have different names.
dat-ne-idx : (root : Name) (k : ℕ) → get_dat_fname root k ≢ get_idx_fname root k
unfolding get_dat_fname get_idx_fname
dat-ne-idx root k e =
    let d : get_elem? (get_dat_fname root k) (length root) ≡ some b'd' =
      get_elem?-append_head root b'd' _ in
    let i : get_elem? (get_idx_fname root k) (length root) ≡ some b'i' =
      get_elem?-append_head root b'i' _ in
    absurd (ground (arith, ap (λ (n : Name). get_elem? n (length root)) e, d, i))

-- the blocks with less than 2 GiB, and the value under the index `i`
pub record HasValue (codec : Codec) (bs : List Block) (i : ℕ) (v : List ℕ) : Type 0 where
  pub blocks : AreBlocks codec 0 bs
  pub small : length (data_of codec 0 bs) < 2 ^ 31
  pub positive : 0 < i
  pub top : i < 2 ^ 48
  pub value : get_elem? (all_vals bs) (i - 1) ≡ some v

module _ (kfs : Kfs) (laws : KfsLaws kfs) (tree : KfsTree kfs) (tree_laws : TreeLaws kfs laws tree)
    (codec : Codec) where
  open kfs use {File}
  open laws use {contents}

  -- The files of the chunk `k` are those of the blocks.
  pub record HasFiles (root : Name) (k : ℕ) (bs : List Block) (t : tree.Tree) : Type 0 where
    pub data_bytes : contents (tree.file (get_dat_fname root k) t) ≡ data_of codec 0 bs
    pub index_bytes :
        contents (tree.file (get_idx_fname root k) t) ≡ index_of (entries codec 0 0 bs)

  pub detach-HasFiles :
      (root : Name) (bs : List Block) (c : Chunk File) (t : tree.Tree)
      → contents c.data_file ≡ data_of codec 0 bs
      → contents c.index_file ≡ index_of (entries codec 0 0 bs)
      → HasFiles root c.chunk_id bs (detach kfs tree root c t)
  unfolding detach
  detach-HasFiles root bs c t d i = record {
    data_bytes =
        rw
          (
            tree_laws.file_store_other (get_idx_fname root c.chunk_id)
                (get_dat_fname root c.chunk_id) c.index_file
                (tree.store (get_dat_fname root c.chunk_id) c.data_file t)
                (λ e. dat-ne-idx root c.chunk_id (sym e)),
            tree_laws.file_store (get_dat_fname root c.chunk_id) c.data_file t,
          )
          d;
    index_bytes =
        rw
          (tree_laws.file_store (get_idx_fname root c.chunk_id) c.index_file
            (tree.store (get_dat_fname root c.chunk_id) c.data_file t))
          i;
  }

  disable_write_keeps :
      (c : Chunk File)
      → (contents (disable_write kfs c).data_file ≡ contents c.data_file)
        × (contents (disable_write kfs c).index_file ≡ contents c.index_file)
  unfolding disable_write
  disable_write_keeps c = (
    if_both (λ (f : File). contents f ≡ contents c.data_file) c.data_output_open
        (tree_laws.sync_keeps c.data_file) refl,
    if_both (λ (f : File). contents f ≡ contents c.index_file) c.index_output_open
        (tree_laws.sync_keeps c.index_file) refl,
  )

  synced :
      (w : Chunk File) (k : ℕ) (bs : List Block) (s : Store File) (t : tree.Tree)
      → w.chunk_id ≡ k
      → HasFiles s.root k bs t
      → HasFiles s.root k bs
          (detach kfs tree s.root (disable_write kfs (load_chunk kfs tree (s, t) w)) t)
  unfolding disable_write attach
  synced w k bs s t number has =
      let has' : HasFiles s.root w.chunk_id bs t =
        subst (λ (n : ℕ). HasFiles s.root n bs t) (sym number) has in
      let c = load_chunk kfs tree (s, t) w in
      let (d, i) = disable_write_keeps c in
      subst (λ (n : ℕ). HasFiles s.root n bs (detach kfs tree s.root (disable_write kfs c) t))
        number
        (detach-HasFiles s.root bs (disable_write kfs c) t (d ∙ has'.data_bytes)
          (i ∙ has'.index_bytes))

  turn_off_writer-HasFiles :
      (k : ℕ) (bs : List Block) (s : Store File) (t : tree.Tree)
      → HasFiles s.root k bs t
      → HasFiles
          (turn_off_writer kfs tree k (s, t)).0.root
          k
          bs
          (turn_off_writer kfs tree k (s, t)).1
        × ((turn_off_writer kfs tree k (s, t)).0.readers ≡ s.readers)
  unfolding turn_off_writer attach
  turn_off_writer-HasFiles k bs s t has = elim (Option-cases s.current_append) [
    | inl e ↦ rw (turn_off_writer, e) (has, refl)
    | inr (w, e) ↦ elim (Bool-cases (w.chunk_id == k && check_write_permission kfs w)) [
      | inr not_both ↦ rw (turn_off_writer, e, not_both) (has, refl)
      | inl both ↦
          rw (turn_off_writer, e, both) (synced w k bs s t (ground (arith, both)) has, refl)
    ]
  ]

  -- What a reader of the chunk `k` has that knows the index of these blocks.
  pub record Knows (k : ℕ) (bs : List Block) (r : Chunk File) : Type 0 where
    pub number : r.chunk_id ≡ k
    pub index : r.index_map ≡ entries codec 0 0 bs
    pub codec_alive : r.chunk_codec ≡ some codec

  -- Opening for reading succeeds.
  abbrev pub Opens : Type 0
  Opens = (f : File) → (kfs.open_read f).0 ≡ true

  -- A reader after its permission was turned on.
  pub record IsOn (r c : Chunk File) : Type 0 where
    pub bytes : contents c.data_file ≡ contents r.data_file
    pub same_index : c.index_file ≡ r.index_file
    pub number : c.chunk_id ≡ r.chunk_id
    pub entries_kept : c.index_map ≡ r.index_map
    pub codec_kept : c.chunk_codec ≡ r.chunk_codec

  pub enable_read-IsOn :
      (c : Chunk File) → Opens → ((enable_read kfs c).0 ≡ ok tt) × IsOn c (enable_read kfs c).1
  unfolding enable_read
  enable_read-IsOn c opens = elim (Bool-cases c.data_input_open) [
    | inl open_ ↦ rw open_ (
      refl,
      record {
        bytes = refl;
        same_index = refl;
        number = refl;
        entries_kept = refl;
        codec_kept = refl;
      },
    )
    | inr shut ↦
        rw (shut, opens c.data_file)
          (
            refl,
            record {
              bytes = tree_laws.open_read_keeps c.data_file;
              same_index = refl;
              number = refl;
              entries_kept = refl;
              codec_kept = refl;
            },
          )
  ]

  pub turn_on_read-ok :
      (bs : List Block) (r : Chunk File) (s : Store File) (t : tree.Tree)
      → Opens
      → HasFiles s.root r.chunk_id bs t
      → let (res, r', st) = turn_on_read kfs tree r (s, t) in
        (res ≡ ok tt)
        × (r'.chunk_id ≡ r.chunk_id)
        × (r'.index_map ≡ r.index_map)
        × (r'.chunk_codec ≡ r.chunk_codec)
        × HasFiles st.0.root r.chunk_id bs st.1
        × (st.0.readers ≡ s.readers)
  unfolding turn_on_read attach
  turn_on_read-ok bs r s t opens has =
      let (has', same) = turn_off_writer-HasFiles r.chunk_id bs s t has in
      elim (Bool-cases (check_read_permission kfs r)) [
        | inl may ↦ rw may (refl, refl, refl, refl, has', same)
        | inr not_yet ↦
            let st' = turn_off_writer kfs tree r.chunk_id (s, t) in
            let c = load_chunk kfs tree st' r in
            let (done, on) = enable_read-IsOn c opens in
            rw not_yet (
              done,
              on.number,
              on.entries_kept,
              on.codec_kept,
              subst
                  (λ (n : ℕ).
                    HasFiles st'.0.root n bs
                      (detach kfs tree st'.0.root (enable_read kfs c).1 st'.1))
                  on.number
                  (detach-HasFiles st'.0.root bs (enable_read kfs c).1 st'.1
                    (on.bytes ∙ has'.data_bytes) (ap contents on.same_index ∙ has'.index_bytes)),
              same,
            )
      ]
