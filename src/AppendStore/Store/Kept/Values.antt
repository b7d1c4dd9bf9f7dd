-- ===== src/AppendStore/Store/Kept/Values.antt =====
-- A value that is appended to the store and flushed is read under its handle.
use bigarchive.Prelude.{
  ℕ, suc, ◌+◌, ◌-◌, ◌^◌, ◌≤◌, ◌<◌, ◌≡◌, refl, ap, ◌∙◌, subst, true, none, some, List, [], ◌∷◌, ◌++◌,
  length, length-append, get_elem?, arith, inl, inr,
}
use bigarchive.Exception.{ok}
use bigarchive.Fs.{Kfs}
use bigarchive.Fs.Log.{KfsLaws}
use bigarchive.Fs.Tree.{KfsTree, TreeLaws}
use bigarchive.AppendStore.Names.{Name, get_dat_fname, get_idx_fname}
use bigarchive.AppendStore.Types.Handle.{Handle, to_string}
use bigarchive.AppendStore.Types.Cache
use bigarchive.AppendStore.Types.Cache.{Cache}
use bigarchive.AppendStore.Codec.{Codec, CodecLaws}
use bigarchive.AppendStore.Chunk
use bigarchive.AppendStore.Chunk.{Chunk, is_chunk_full, check_write_permission}
use bigarchive.AppendStore.Chunk.Files.{attach, detach}
use bigarchive.AppendStore.Chunk.Blocks.{Block, all_vals}
use bigarchive.AppendStore.Chunk.Blocks.Append.{total, Written, WritesAll}
use bigarchive.AppendStore.Chunk.Blocks.Steps.{CanAppend}
use bigarchive.AppendStore.Chunk.Blocks.Flush.{
  Same, append-Same, flush-Same, Pending, append-Pending, flush-Written, last_of_blocks,
}
use bigarchive.AppendStore.Store.{Store, State, find_chunk, load_chunk, append, flush}
use bigarchive.AppendStore.Store.Exclusive.{IsIndexed, reindex}
use bigarchive.AppendStore.Store.Reading.{read}
use bigarchive.AppendStore.Store.ReadsBack.{HasFiles, HasValue, Opens, detach-HasFiles}
use bigarchive.AppendStore.Store.ReadsBack.Readers.{CanRead}
use bigarchive.AppendStore.Store.ReadsBack.Values.{read-value}
use bigarchive.AppendStore.Store.Kept.{after, append-on, flush-on}

module _ (kfs : Kfs) (laws : KfsLaws kfs) (all : WritesAll kfs) (tree : KfsTree kfs)
    (tree_laws : TreeLaws kfs laws tree) (codec : Codec) where
  open kfs use {File}

  pub Written-after :
      (bs : List Block) (vals : List (List ℕ)) (c : Chunk File) (s : Store File) (t : tree.Tree)
      → Written kfs laws codec bs vals c
      → Written kfs laws codec bs vals (load_chunk kfs tree (after kfs tree c (s, t)) c)
  unfolding attach
  Written-after bs vals c s t w =
      let files =
        detach-HasFiles kfs laws tree tree_laws codec s.root bs c t w.data_bytes w.index_bytes in
      record {
        data_bytes = files.data_bytes;
        index_bytes = files.index_bytes;
        max = w.max;
        count = w.count;
        stream = w.stream;
        codec_alive = w.codec_alive;
        blocks = w.blocks;
      }

  -- The chunk is loaded from the files as it left them.
  Pending-after :
      (bs : List Block) (b : Block) (c : Chunk File) (s : Store File) (t : tree.Tree)
      → Pending kfs laws all codec bs b c
      → Pending kfs laws all codec bs b (load_chunk kfs tree (after kfs tree c (s, t)) c)
  Pending-after bs b c s t p = elim p [
    | inl waiting ↦ inl (Written-after bs b.vals c s t waiting)
    | inr written ↦ inr (Written-after (bs ++ b ∷ []) [] c s t written)
  ]

  -- A store whose writer is on, with the values of `bs` in its files and others in its buffer.
  pub record IsWriting (bs : List Block) (vals : List (List ℕ)) (w : Chunk File) (s : Store File)
      (t : tree.Tree) : Type 0 where
    pub append_mode : s.append_mode ≡ true
    pub current : s.current_append ≡ some w
    pub on : check_write_permission kfs w ≡ true
    pub dirty : w.dirty ≡ true
    pub codec_alive : s.codec ≡ some codec
    pub written : Written kfs laws codec bs vals (load_chunk kfs tree (s, t) w)
    pub indexed : IsIndexed kfs s
    pub known : w.chunk_id ≤ s.max_chunk_id
    pub unread : find_chunk w.chunk_id s.chunk_map ≡ none
    pub data_there : tree.exists (get_dat_fname s.root w.chunk_id) t ≡ true
    pub index_there : tree.exists (get_idx_fname s.root w.chunk_id) t ≡ true

  pub on_kept :
      (c c' : Chunk File)
      → Same kfs c c'
      → check_write_permission kfs c ≡ true
      → check_write_permission kfs c' ≡ true
  unfolding check_write_permission
  on_kept c c' same on = rw (check_write_permission, same.data_on, same.index_on) on

  pub there_after :
      (n root : Name) (c : Chunk File) (t : tree.Tree)
      → tree.exists n t ≡ true
      → tree.exists n (detach kfs tree root c t) ≡ true
  unfolding detach
  there_after n root c t e =
      tree_laws.exists_store _ n c.index_file _ (tree_laws.exists_store _ n c.data_file t e)

  -- the states after the calls
  abbrev appended : List ℕ → Chunk File → Store File → tree.Tree → Chunk File
  appended v w s t = (Chunk.append kfs v (load_chunk kfs tree (s, t) w)).1

  abbrev flushed : Chunk File → Store File → tree.Tree → Chunk File
  flushed c s t = (Chunk.flush kfs (load_chunk kfs tree (after kfs tree c (s, t)) c)).1

  can_read :
      (bs : List Block) (w c c' : Chunk File) (s : Store File) (t : tree.Tree)
      (vals : List (List ℕ))
      → IsWriting bs vals w s t
      → c'.chunk_id ≡ w.chunk_id
      → (ds : List Block) → Written kfs laws codec ds [] c'
      → let (s', t') = after kfs tree c' (after kfs tree c (s, t)) in
        CanRead kfs laws tree tree_laws codec w.chunk_id ds s' t'
  can_read bs w c c' s t vals writing number ds written =
      let t₁ = detach kfs tree s.root c t in
      record {
        indexed = reindex kfs s s.cache (some c') writing.indexed;
        known = writing.known;
        files =
            subst
              (λ (n : ℕ).
                HasFiles kfs laws tree tree_laws codec s.root n ds (detach kfs tree s.root c' t₁))
              number
              (detach-HasFiles kfs laws tree tree_laws codec s.root ds c' t₁ written.data_bytes
                written.index_bytes);
        data_there = there_after _ s.root c' t₁ (there_after _ s.root c t writing.data_there);
        index_there = there_after _ s.root c' t₁ (there_after _ s.root c t writing.index_there);
        codec_alive = writing.codec_alive;
        up_to_date = λ p r f g. absurd (cc (f, writing.unread));
      }

  -- Over a codec that undoes its compression and a KFS client that writes in full and opens for
  -- reading: for a store whose writer is on, with a chunk below 2 ^ 16 - 1 that is not full, no
  -- opened reader of it, counters and files within their bounds, and no other value in the cache
  -- under the next handle: `Append` of a value gives that handle, `Flush` after it succeeds, and
  -- `Read` of the handle then ends and gives the value.
  pub read-append :
      (bs : List Block) (vals : List (List ℕ)) (v old : List ℕ) (b : Block) (w : Chunk File)
      (s : Store File) (t : tree.Tree)
      → Opens kfs laws tree tree_laws codec
      → CodecLaws codec
      → w.chunk_id < 2 ^ 16 - 1
      → suc (total bs + length vals) < 2 ^ 48
      → IsWriting bs vals w s t
      → CanAppend kfs codec bs vals v b (load_chunk kfs tree (s, t) w)
      → let h : Handle = record { chunk_id = w.chunk_id; index = suc (total bs + length vals) } in
        ((u : List ℕ) → Cache.find s.cache h ≡ some u → u ≡ v)
        → (st₁ : State kfs tree) × (st₂ : State kfs tree) × (st₃ : State kfs tree) × (append kfs
              tree v
              (s, t)
            ≡ some (ok (to_string h), st₁))
          × (flush kfs tree st₁ ≡ (ok tt, st₂))
          × (read kfs tree (to_string h) old st₂ ≡ some (ok true, v, st₃))
  unfolding is_chunk_full attach check_write_permission
  read-append bs vals v old b w s t opens law small top writing can cached =
      let i = total bs + length vals in
      let w' = load_chunk kfs tree (s, t) w in
      let c = appended v w s t in
      let c' = flushed c s t in
      let same = append-Same kfs v w' in
      let same' = flush-Same kfs (load_chunk kfs tree (after kfs tree c (s, t)) c) in
      let (ran, pending) = append-Pending kfs laws all codec bs vals v b w' writing.written can in
      let some_vals : length b.vals ≡ suc (length vals) =
        omega (arith, ap length can.vals_of, length-append vals (v ∷ [])) in
      let (ran', written) =
        flush-Written kfs laws all codec bs b (load_chunk kfs tree (after kfs tree c (s, t)) c)
          (same.dirty_kept ∙ writing.dirty) can.good_block (omega arith) (omega (arith, can.few))
          can.data_small can.index_small (Pending-after bs b c s t pending) in
      let index : total bs + suc (length vals) ≡ suc i = omega arith in
      let on' = on_kept w' c same writing.on in
      let value : HasValue codec (bs ++ b ∷ []) (suc i) v = record {
        blocks = written.blocks;
        small = can.data_small;
        positive = omega arith;
        top = top;
        value =
            subst (λ (n : ℕ). get_elem? (all_vals (bs ++ b ∷ [])) n ≡ some v) (omega arith)
              (last_of_blocks bs b vals v can.vals_of);
      } in
      let (st, got) =
        read-value kfs laws tree tree_laws codec law w.chunk_id (bs ++ b ∷ []) (suc i) v old
          (after kfs tree c' (after kfs tree c (s, t))).0
          (after kfs tree c' (after kfs tree c (s, t))).1 opens small value
          (can_read bs w c c' s t vals writing (same'.number ∙ same.number) (bs ++ b ∷ []) written)
          cached in
      (
        after kfs tree c (s, t),
        after kfs tree c' (after kfs tree c (s, t)),
        st,
        append-on kfs tree v i w s t writing.append_mode writing.current can.room writing.on
            same.cache_kept (ran ∙ ap ok index),
        flush-on kfs tree c (after kfs tree c (s, t)).0 (after kfs tree c (s, t)).1 refl on'
            same'.cache_kept ran',
        got,
      )
