-- ===== src/AppendStore/Store/Kept/Batch.antt =====
-- `BatchAppend` gives a handle for each value, and each handle is read as its value.
use bigarchive.Prelude.{
  ℕ, suc, ◌+◌, ◌-◌, ◌^◌, ◌<◌, ◌≡◌, ap, ◌∙◌, subst, true, some, List, [], ◌∷◌, ◌++◌, length,
  length-append, get_elem?, append_assoc, zero, sym, arith,
}
use bigarchive.Exception.{ok}
use bigarchive.Fs.{Kfs}
use bigarchive.Fs.Log.{KfsLaws}
use bigarchive.Fs.Tree.{KfsTree, TreeLaws}
use bigarchive.AppendStore.Types.Handle.{Handle, to_string}
use bigarchive.AppendStore.Types.Cache
use bigarchive.AppendStore.Types.Cache.{Cache}
use bigarchive.AppendStore.Codec.{Codec, CodecLaws}
use bigarchive.AppendStore.Chunk.{Chunk}
use bigarchive.AppendStore.Chunk.Blocks.{Block, all_vals, data_of, entries, BlockOk}
use bigarchive.AppendStore.Index.Load.{index_of}
use bigarchive.AppendStore.Chunk.Blocks.Locate.{get_elem?-append_ge}
use bigarchive.AppendStore.Chunk.Blocks.Append.{total, WritesAll}
use bigarchive.AppendStore.Store.{Store, State, batch_loop, batch_append, flush}
use bigarchive.AppendStore.Store.Reading.{read}
use bigarchive.AppendStore.Store.ReadsBack.{HasValue, Opens}
use bigarchive.AppendStore.Store.ReadsBack.Readers.{CanRead}
use bigarchive.AppendStore.Store.ReadsBack.Values.{read-value}
use bigarchive.AppendStore.Chunk.Blocks.Flush.{all_vals-append, length-all_vals}
use bigarchive.AppendStore.Store.Kept.Values.{IsWriting}
use bigarchive.AppendStore.Store.Kept.Filling.{handles_from, HasRoom, loop, flush-CanRead}

get_lt : (xs : List (List ℕ)) (j : ℕ) (u : List ℕ) → get_elem? xs j ≡ some u → j < length xs
get_lt [] j u e = absurd (cc e)
get_lt (x ∷ xs) zero u e = omega arith
get_lt (x ∷ xs) (suc j) u e = omega (arith, get_lt xs j u e)

-- where the values of a batch are
value_at :
    (bs : List Block) (vals vs : List (List ℕ)) (u : List ℕ) (b : Block) (j : ℕ)
    → b.vals ≡ vals ++ vs
    → get_elem? vs j ≡ some u
    → get_elem? (all_vals (bs ++ b ∷ [])) (suc (total bs + length vals + j) - 1) ≡ some u
value_at bs vals vs u b j vals_of at_j =
    let n : length (all_vals bs ++ vals) + j ≡ suc (total bs + length vals + j) - 1 =
      omega (arith, length-append (all_vals bs) vals, length-all_vals bs) in
    let split : all_vals (bs ++ b ∷ []) ≡ (all_vals bs ++ vals) ++ vs =
      all_vals-append bs b
      ∙ ap (λ (xs : List (List ℕ)). all_vals bs ++ xs) vals_of
      ∙ sym (append_assoc (all_vals bs) vals vs) in
    rw (split, sym n) (get_elem?-append_ge (all_vals bs ++ vals) vs j ∙ at_j)

module _ (kfs : Kfs) (laws : KfsLaws kfs) (all : WritesAll kfs) (tree : KfsTree kfs)
    (tree_laws : TreeLaws kfs laws tree) (codec : Codec) where
  open kfs use {File}

  batch_append-ok :
      (v : List ℕ) (vs hs : List (List ℕ)) (st st' st'' : State kfs tree)
      → batch_loop kfs tree [] (v ∷ vs) st ≡ some (ok hs, st')
      → flush kfs tree st' ≡ (ok tt, st'')
      → batch_append kfs tree (v ∷ vs) st ≡ some (ok hs, st'')
  unfolding batch_append
  batch_append-ok v vs hs st st' st'' ran flushed = ground (arith, ran, flushed)

  -- Over a codec that undoes its compression and a KFS client that writes in full and opens for
  -- reading: for a store whose writer is on, with a chunk below 2 ^ 16 - 1 that is not full, no
  -- opened reader of it, a buffer with room for all values, counters and files within their bounds:
  -- `BatchAppend` of values ends with one handle for each, of consecutive indexes, and `Read` of
  -- the handle of any of them ends and gives that value, when the cache has no other value under
  -- the handle.
  pub batch_append-read :
      (bs : List Block) (vals vs : List (List ℕ)) (v u old : List ℕ) (b : Block) (j : ℕ)
      (w : Chunk File) (s : Store File) (t : tree.Tree)
      → Opens kfs laws tree tree_laws codec
      → CodecLaws codec
      → w.chunk_id < 2 ^ 16 - 1
      → total bs + length b.vals < 2 ^ 48
      → IsWriting kfs laws all tree tree_laws codec bs vals w s t
      → HasRoom kfs laws all tree tree_laws codec bs vals (length (v ∷ vs)) w
      → b.vals ≡ vals ++ v ∷ vs
      → BlockOk codec (total bs) b
      → length (data_of codec 0 (bs ++ b ∷ [])) < 2 ^ 31
      → length (index_of (entries codec 0 0 (bs ++ b ∷ []))) < 2 ^ 31
      → get_elem? (v ∷ vs) j ≡ some u
      → let h : Handle = record {
        chunk_id = w.chunk_id;
        index = suc (total bs + length vals + j);
      } in
        ((x : List ℕ) → Cache.find s.cache h ≡ some x → x ≡ u)
        → (st₁ : State kfs tree) × (st₂ : State kfs tree) × (batch_append kfs tree (v ∷ vs) (s, t)
            ≡ some (ok (handles_from w.chunk_id (total bs + length vals) (v ∷ vs)), st₁))
          × (read kfs tree (to_string h) old st₁ ≡ some (ok true, u, st₂))
  batch_append-read bs vals vs v u old b j w s t opens law small top writing has vals_of good_block
        data_small index_small at_j cached =
      let i = total bs + length vals in
      let (w', s', t', number, ran, writing', cache) =
        loop kfs laws all tree tree_laws codec [] bs vals (v ∷ vs) w s t writing has in
      let len : length b.vals ≡ length vals + length (v ∷ vs) =
        omega (arith, ap length vals_of, length-append vals (v ∷ vs)) in
      let (st, flushed, cache', blocks, can) =
        flush-CanRead kfs laws all tree tree_laws codec bs b w' s' t'
          (subst
            (λ (xs : List (List ℕ)). IsWriting kfs laws all tree tree_laws codec bs xs w' s' t')
            (sym vals_of) writing')
          good_block (omega (arith, len)) (omega (arith, len, has.few)) data_small index_small in
      let value : HasValue codec (bs ++ b ∷ []) (suc (i + j)) u = record {
        blocks = blocks;
        small = data_small;
        positive = omega arith;
        top = omega (arith, top, len, get_lt (v ∷ vs) j u at_j);
        value = value_at bs vals (v ∷ vs) u b j vals_of at_j;
      } in
      let (st₂, got) =
        read-value kfs laws tree tree_laws codec law w.chunk_id (bs ++ b ∷ []) (suc (i + j)) u old
          st.0 st.1 opens small value
          (subst (λ (n : ℕ). CanRead kfs laws tree tree_laws codec n (bs ++ b ∷ []) st.0 st.1)
            number can)
          (λ x e. cached x (rw (cache', cache) at e)) in
      (
        st,
        st₂,
        batch_append-ok v vs (handles_from w.chunk_id i (v ∷ vs)) (s, t) (s', t') st ran flushed,
        got,
      )
