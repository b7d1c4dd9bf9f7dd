-- ===== src/AppendStore/Store/Kept/Filling.antt =====
-- Values that wait in the buffer of a store's writer, one call of `Append` after the other.
use bigarchive.Prelude.{
  ℕ, suc, ◌+◌, ◌^◌, ◌<◌, ◌≡◌, refl, ap, ◌∙◌, subst, some, List, [], ◌∷◌, ◌++◌, length,
  length-append, append_assoc, append-nil, false, arith, inl,
}
use bigarchive.Exception.{ok}
use bigarchive.Fs.{Kfs}
use bigarchive.Fs.Log.{KfsLaws}
use bigarchive.Fs.Tree.{KfsTree, TreeLaws}
use bigarchive.AppendStore.Types.Handle.{to_string}
use bigarchive.AppendStore.Codec.{Codec}
use bigarchive.AppendStore.Chunk
use bigarchive.AppendStore.Chunk.{Chunk, is_chunk_full, check_write_permission}
use bigarchive.AppendStore.Chunk.Files.{attach, detach}
use bigarchive.AppendStore.Chunk.Blocks.{Block, data_of, entries, BlockOk, AreBlocks}
use bigarchive.AppendStore.Index.Load.{index_of}
use bigarchive.AppendStore.Chunk.Blocks.Append.{total, WritesAll}
use bigarchive.AppendStore.Chunk.Blocks.Flush.{append-Same, flush-Same, flush-Written}
use bigarchive.AppendStore.Store.{Store, State, batch_loop, load_chunk, append, flush}
use bigarchive.AppendStore.Store.Exclusive.{reindex}
use bigarchive.AppendStore.Store.ReadsBack.{HasFiles, detach-HasFiles}
use bigarchive.AppendStore.Store.ReadsBack.Readers.{CanRead}
use bigarchive.AppendStore.Store.Kept.{after, append-on, flush-on}
use bigarchive.AppendStore.Chunk.Blocks.Waiting.{append-waits}
use bigarchive.AppendStore.Store.Kept.Values.{IsWriting, Written-after, on_kept, there_after}

-- the handles of so many values, from the index behind `i`
unfoldable pub handles_from : ℕ → ℕ → List (List ℕ) → List (List ℕ)
handles_from k i [] = []
handles_from k i (v ∷ vs) =
    to_string (record { chunk_id = k; index = suc i }) ∷ handles_from k (suc i) vs

module _ (kfs : Kfs) (laws : KfsLaws kfs) (all : WritesAll kfs) (tree : KfsTree kfs)
    (tree_laws : TreeLaws kfs laws tree) (codec : Codec) where
  open kfs use {File}

  -- A writer whose chunk and whose buffer have room for `n` values more.
  pub record HasRoom (bs : List Block) (vals : List (List ℕ)) (n : ℕ) (w : Chunk File)
      : Type 0 where
    pub room : is_chunk_full kfs w ≡ false
    pub top : total bs + length vals + n < 2 ^ 62
    pub few : length vals + n < 2 ^ 32
    pub free : length vals + n < w.block_index_interval

  step :
      (bs : List Block) (vals : List (List ℕ)) (v : List ℕ) (n : ℕ) (w : Chunk File)
      (s : Store File) (t : tree.Tree)
      → IsWriting kfs laws all tree tree_laws codec bs vals w s t
      → HasRoom bs vals (suc n) w
      → (w' : Chunk File) × (w'.chunk_id ≡ w.chunk_id)
        × (append kfs tree v (s, t)
            ≡ some (
              ok (
                  to_string
                    (record { chunk_id = w.chunk_id; index = suc (total bs + length vals) })),
              after kfs tree w' (s, t),
            ))
        × IsWriting kfs laws all tree tree_laws codec bs
            (vals ++ v ∷ [])
            w'
            (after kfs tree w' (s, t)).0
            (after kfs tree w' (s, t)).1
        × HasRoom bs (vals ++ v ∷ []) n w'
  unfolding is_chunk_full attach check_write_permission
  step bs vals v n w s t writing has =
      let c = load_chunk kfs tree (s, t) w in
      let w' = (Chunk.append kfs v c).1 in
      let same = append-Same kfs v c in
      let (ran, written, room, interval) =
        append-waits kfs laws all codec bs vals v c writing.written has.room
          (omega (arith, has.top)) (omega (arith, has.few)) (omega (arith, has.free)) in
      let len : length (vals ++ v ∷ []) ≡ suc (length vals) =
        omega (arith, length-append vals (v ∷ [])) in
      let index : total bs + suc (length vals) ≡ suc (total bs + length vals) = omega arith in
      (
        w',
        same.number,
        append-on kfs tree v (total bs + length vals) w s t writing.append_mode writing.current
            has.room writing.on same.cache_kept (ran ∙ ap ok index),
        record {
          append_mode = writing.append_mode;
          current = refl;
          on = on_kept kfs laws all tree tree_laws codec c w' same writing.on;
          dirty = same.dirty_kept ∙ writing.dirty;
          codec_alive = writing.codec_alive;
          written =
              Written-after kfs laws all tree tree_laws codec bs (vals ++ v ∷ []) w' s t written;
          indexed = reindex kfs s s.cache (some w') writing.indexed;
          known = rw same.number writing.known;
          unread = rw same.number writing.unread;
          data_there =
              there_after kfs laws all tree tree_laws codec _ s.root w' t
                (rw same.number writing.data_there);
          index_there =
              there_after kfs laws all tree tree_laws codec _ s.root w' t
                (rw same.number writing.index_there);
        },
        record {
          room = room;
          top = omega (arith, has.top, len);
          few = omega (arith, has.few, len);
          free = rw interval (omega (arith, has.free, len));
        },
      )

  pub loop :
      (handles : List (List ℕ)) (bs : List Block) (vals vs : List (List ℕ)) (w : Chunk File)
      (s : Store File) (t : tree.Tree)
      → IsWriting kfs laws all tree tree_laws codec bs vals w s t
      → HasRoom bs vals (length vs) w
      → (w' : Chunk File) × (s' : Store File) × (t' : tree.Tree) × (w'.chunk_id ≡ w.chunk_id)
        × (batch_loop kfs tree handles vs (s, t)
            ≡ some (ok (handles ++ handles_from w.chunk_id (total bs + length vals) vs), (s', t')))
        × IsWriting kfs laws all tree tree_laws codec bs (vals ++ vs) w' s' t'
        × (s'.cache ≡ s.cache)
  unfolding batch_loop handles_from
  loop handles bs vals [] w s t writing has =
      (w, s, t, refl, rw append-nil refl, rw append-nil writing, refl)
  loop handles bs vals (v ∷ vs) w s t writing has =
      let (w₁, number, ran, writing₁, has₁) = step bs vals v (length vs) w s t writing has in
      let h : List ℕ =
        to_string (record { chunk_id = w.chunk_id; index = suc (total bs + length vals) }) in
      let (w', s', t', number', rest, writing', cache) =
        loop (handles ++ h ∷ []) bs (vals ++ v ∷ []) vs w₁ _ _ writing₁ has₁ in
      let count : total bs + length (vals ++ v ∷ []) ≡ suc (total bs + length vals) =
        omega (arith, length-append vals (v ∷ [])) in
      (
        w',
        s',
        t',
        number' ∙ number,
        rw (batch_loop, ran) (rest ∙ rw (append_assoc, number, count) refl),
        subst (λ (xs : List (List ℕ)). IsWriting kfs laws all tree tree_laws codec bs xs w' s' t')
            (append_assoc vals (v ∷ []) vs) writing',
        cache,
      )

  -- `Flush` writes what waits, and the chunk can be read.
  pub flush-CanRead :
      (bs : List Block) (b : Block) (w : Chunk File) (s : Store File) (t : tree.Tree)
      → IsWriting kfs laws all tree tree_laws codec bs b.vals w s t
      → BlockOk codec (total bs) b
      → 0 < length b.vals
      → length b.vals < 2 ^ 32
      → length (data_of codec 0 (bs ++ b ∷ [])) < 2 ^ 31
      → length (index_of (entries codec 0 0 (bs ++ b ∷ []))) < 2 ^ 31
      → (st : State kfs tree) × (flush kfs tree (s, t) ≡ (ok tt, st))
        × (st.0.cache ≡ s.cache)
        × AreBlocks codec 0 (bs ++ b ∷ [])
        × CanRead kfs laws tree tree_laws codec w.chunk_id (bs ++ b ∷ []) st.0 st.1
  unfolding attach
  flush-CanRead bs b w s t writing good_block some_vals few data_small index_small =
      let c = load_chunk kfs tree (s, t) w in
      let c' = (Chunk.flush kfs c).1 in
      let same = flush-Same kfs c in
      let (ran, written) =
        flush-Written kfs laws all codec bs b c writing.dirty good_block some_vals few data_small
          index_small (inl writing.written) in
      (
        after kfs tree c' (s, t),
        flush-on kfs tree w s t writing.current writing.on same.cache_kept ran,
        refl,
        written.blocks,
        record {
          indexed = reindex kfs s s.cache (some c') writing.indexed;
          known = writing.known;
          files =
              subst
                (λ (n : ℕ).
                  HasFiles kfs laws tree tree_laws codec s.root n (bs ++ b ∷ [])
                    (detach kfs tree s.root c' t))
                same.number
                (detach-HasFiles kfs laws tree tree_laws codec s.root (bs ++ b ∷ []) c' t
                  written.data_bytes written.index_bytes);
          data_there =
              there_after kfs laws all tree tree_laws codec _ s.root c' t writing.data_there;
          index_there =
              there_after kfs laws all tree tree_laws codec _ s.root c' t writing.index_there;
          codec_alive = writing.codec_alive;
          up_to_date = λ p r f g. absurd (cc (f, writing.unread));
        },
      )
