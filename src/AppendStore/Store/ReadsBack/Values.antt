-- ===== src/AppendStore/Store/ReadsBack/Values.antt =====
-- `Read` of a handle gives the value that was written under it.
use bigarchive.Prelude.{
  ℕ, ◌-◌, ◌^◌, ◌<◌, ◌≡◌, refl, ap, ◌∙◌, true, none, some, List, get_elem?, arith, Option-cases, inl,
  inr,
}
use bigarchive.Exception.{ok}
use bigarchive.Fs.{Kfs}
use bigarchive.Fs.Log.{KfsLaws}
use bigarchive.Fs.Tree.{KfsTree, TreeLaws}
use bigarchive.AppendStore.Types.Handle.{Handle, to_string, of_string, is_valid}
use bigarchive.AppendStore.Types.HandleLaws.{of_string-to_string}
use bigarchive.AppendStore.Types.Cache
use bigarchive.AppendStore.Types.Cache.{Cache}
use bigarchive.AppendStore.Codec.{Codec, CodecLaws}
use bigarchive.AppendStore.Chunk.{Chunk}
use bigarchive.AppendStore.Chunk.Files.{attach}
use bigarchive.AppendStore.Chunk.Blocks.{Block, entries}
use bigarchive.AppendStore.Chunk.Blocks.Find.{Holds, read-all_vals}
use bigarchive.AppendStore.Store.{Store, State, load_chunk, save_chunk}
use bigarchive.AppendStore.Store.Reading.{
  load_random_chunk, turn_on_read, put_reader, read_reader, read,
}
use bigarchive.AppendStore.Store.ReadsBack.{HasFiles, HasValue, Opens, turn_on_read-ok}
use bigarchive.AppendStore.Store.ReadsBack.Readers.{CanRead, load_random_chunk-reader}

module _ (kfs : Kfs) (laws : KfsLaws kfs) (tree : KfsTree kfs) (tree_laws : TreeLaws kfs laws tree)
    (codec : Codec) (law : CodecLaws codec) where
  open kfs use {File}

  read_reader-value :
      (bs : List Block) (p i : ℕ) (v old : List ℕ) (r : Chunk File) (s : Store File) (t : tree.Tree)
      → Opens kfs laws tree tree_laws codec
      → HasValue codec bs i v
      → HasFiles kfs laws tree tree_laws codec s.root r.chunk_id bs t
      → get_elem? s.readers p ≡ some r
      → r.index_map ≡ entries codec 0 0 bs
      → r.chunk_codec ≡ some codec
      → (st : State kfs tree) × (read_reader kfs tree p i old (s, t) ≡ some (ok true, v, st))
  unfolding read_reader attach
  read_reader-value bs p i v old r s t opens value has at_p index alive =
      let (done, number, index', alive', has', same) =
        turn_on_read-ok kfs laws tree tree_laws codec bs r s t opens has in
      let on = turn_on_read kfs tree r (s, t) in
      let c = load_chunk kfs tree on.2 on.1 in
      let holds : Holds kfs laws codec bs c = record {
        data_bytes = rw number has'.data_bytes;
        index = index' ∙ index;
        codec_alive = alive' ∙ alive;
        cache_alive = (on.2.0.cache, refl);
        blocks = value.blocks;
      } in
      let (c', got) =
        read-all_vals kfs laws codec law bs c i v old holds value.positive
          (omega (arith, value.top)) value.value in
      (
        put_reader kfs tree p c' (save_chunk kfs tree c' on.2),
        rw (read_reader, at_p, done, got) refl,
      )

  is_valid-small :
      (k i : ℕ) → k < 2 ^ 16 - 1 → i < 2 ^ 48 → is_valid (record { chunk_id = k; index = i }) ≡ true
  unfolding is_valid
  is_valid-small k i hk hi = ground arith

  read-missed :
      (h old : List ℕ) (p : ℕ) (s : Store File) (t : tree.Tree) (st : State kfs tree)
      → is_valid (of_string h) ≡ true
      → Cache.find s.cache (of_string h) ≡ none
      → load_random_chunk kfs tree (of_string h).chunk_id (s, t) ≡ some (ok (some p), st)
      → read kfs tree h old (s, t) ≡ read_reader kfs tree p (of_string h).index old st
  unfolding read
  read-missed h old p s t st valid e ran = rw (valid, e, ran) refl

  read-cached :
      (h v old : List ℕ) (s : Store File) (t : tree.Tree)
      → is_valid (of_string h) ≡ true
      → Cache.find s.cache (of_string h) ≡ some v
      → read kfs tree h old (s, t) ≡ some (ok true, v, (s, t))
  unfolding read
  read-cached h v old s t valid e = rw (valid, e) refl

  -- Over a codec that undoes its compression and a KFS client whose openings for reading succeed:
  -- for a chunk below 2 ^ 16 - 1 whose files are those of written blocks of less than 2 GiB, whose
  -- opened reader, if any, has their index, and whose value is the only one that the store's cache
  -- may have under the handle, `Read` of the handle's string ends and gives the value, whether the
  -- reader is the current one, in the map, or opened for it, and whether or not the writer of the
  -- chunk was on.
  pub read-value :
      (k : ℕ) (bs : List Block) (i : ℕ) (v old : List ℕ) (s : Store File) (t : tree.Tree)
      → Opens kfs laws tree tree_laws codec
      → k < 2 ^ 16 - 1
      → HasValue codec bs i v
      → CanRead kfs laws tree tree_laws codec k bs s t
      → ((u : List ℕ) → Cache.find s.cache (record { chunk_id = k; index = i }) ≡ some u → u ≡ v)
      → (st : State kfs tree) × (read kfs tree
            (to_string (record { chunk_id = k; index = i }))
            old
            (s, t)
          ≡ some (ok true, v, st))
  read-value k bs i v old s t opens small value can cached =
      let h : Handle = record { chunk_id = k; index = i } in
      let handle : of_string (to_string h) ≡ h =
        of_string-to_string h (record { chunk_fits = omega arith; index_fits = value.top }) in
      let valid = is_valid-small k i small value.top in
      elim (Option-cases (Cache.find s.cache h)) [
        | inr (u, e) ↦ (
          (s, t),
          rw (read-cached (to_string h) u old s t (rw handle valid) (rw handle e), cached u e) refl,
        )
        | inl e ↦
            let (p, (s', t'), ran, reader) =
              load_random_chunk-reader kfs laws tree tree_laws codec k bs i v s t opens value can in
            let (st, got) =
              read_reader-value bs p i v old reader.reader s' t' opens value
                (rw reader.number reader.files) reader.at_place reader.index reader.codec_kept in
            let missed : read kfs tree (to_string h) old (s, t)
                ≡ read_reader kfs tree p i old (s', t') =
              read-missed (to_string h) old p s t (s', t') (rw handle valid) (rw handle e)
                (rw handle ran)
              ∙ ap (λ (n : Handle). read_reader kfs tree p n.index old (s', t')) handle in
            (st, missed ∙ got)
      ]
