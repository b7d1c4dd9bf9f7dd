-- ===== src/AppendStore/Store/Kept.antt =====
-- `Append` and `Flush` of a store whose writer is on are those of its chunk.
pub mod Values
pub mod Filling
pub mod Batch
use bigarchive.Prelude.{
  ℕ, zero, suc, ◌+◌, ◌-◌, ◌^◌, ◌≤◌, ◌<◌, ◌≡◌, refl, sym, ap, ◌∙◌, subst, Bool, true, false, not,
  ◌&&◌, Option, none, some, List, [], ◌∷◌, ◌++◌, length, length-append, get_elem?, arith,
  Bool-cases, Option-cases, inl, inr, ◌==◌, if◌then◌else◌,
}
use bigarchive.Exception.{Result, Result-cases, ok, err, append_store_write}
use bigarchive.Fs.{Kfs}
use bigarchive.Fs.Log.{KfsLaws}
use bigarchive.Fs.Tree.{KfsTree, TreeLaws}
use bigarchive.AppendStore.Names.{Name, get_dat_fname, get_idx_fname}
use bigarchive.AppendStore.Types.Handle.{Handle, to_string}
use bigarchive.AppendStore.Types.Cache
use bigarchive.AppendStore.Types.Cache.{Cache}
use bigarchive.AppendStore.Codec.{Codec, CodecLaws}
use bigarchive.AppendStore.Chunk
use bigarchive.AppendStore.Chunk.{Chunk, is_chunk_full, check_write_permission}
use bigarchive.AppendStore.Chunk.Files.{attach, detach}
use bigarchive.AppendStore.Chunk.Blocks.{Block, all_vals}
use bigarchive.AppendStore.Chunk.Blocks.Append.{total, Written, WritesAll}
use bigarchive.AppendStore.Chunk.Blocks.Steps.{CanAppend}
use bigarchive.AppendStore.Chunk.Blocks.Flush.{
  Same, append-Same, flush-Same, Pending, append-Pending, flush-Written, last_of_blocks,
}
use bigarchive.AppendStore.Store.{
  Store, State, find_chunk, load_chunk, save_chunk, turn_on_write, load_append_chunk, with_writer,
  append_loaded, append, flush,
}
use bigarchive.AppendStore.Store.Exclusive.{IsIndexed, reindex}
use bigarchive.AppendStore.Store.Reading.{read}
use bigarchive.AppendStore.Store.ReadsBack.{HasFiles, HasValue, Opens, detach-HasFiles}
use bigarchive.AppendStore.Store.ReadsBack.Readers.{CanRead}
use bigarchive.AppendStore.Store.ReadsBack.Values.{read-value}

module _ (kfs : Kfs) (tree : KfsTree kfs) where
  open kfs use {File}

  -- the state once the writer is `c`
  abbrev pub after : Chunk File → State kfs tree → State kfs tree
  after c (s, t) = (record s { current_append = some c }, detach kfs tree s.root c t)

  -- a writer that is on needs no turn
  turn_on_write-on :
      (w : Chunk File) (s : Store File) (t : tree.Tree)
      → check_write_permission kfs w ≡ true
      → turn_on_write kfs tree w (s, t) ≡ (ok tt, w, (s, t))
  unfolding turn_on_write
  turn_on_write-on w s t on = rw (turn_on_write, on) refl

  abbrev run_op :
      {A : Type 0}
      → (Chunk File → Result A × Chunk File)
      → Result (Unit {0}) × Chunk File × State kfs tree
      → Result A × State kfs tree
  run_op op r =
      let (res, c') = op (load_chunk kfs tree r.2 r.1) in
      let (s, t) = save_chunk kfs tree c' r.2 in
      elim r.0 [
        | err e ↦ (err e, (record r.2.0 { current_append = some r.1 }, r.2.1))
        | ok u ↦ (res, (record s { current_append = some c' }, t))
      ]

  with_writer-run_op :
      {A : Type 0} (op : Chunk File → Result A × Chunk File) (w : Chunk File) (st : State kfs tree)
      → with_writer kfs tree op w st ≡ run_op op (turn_on_write kfs tree w st)
  unfolding with_writer
  with_writer-run_op op w st = refl

  cache_back :
      (c : Chunk File) (cache : Cache) (s : Store File)
      → c.cache ≡ some cache
      → elim c.cache [ none ↦ s.cache | some d ↦ d ] ≡ cache
  cache_back c cache s e = rw e refl

  with_writer-on :
      {A : Type 0} (op : Chunk File → Result A × Chunk File) (w : Chunk File) (s : Store File)
      (t : tree.Tree)
      → check_write_permission kfs w ≡ true
      → (op (load_chunk kfs tree (s, t) w)).1.cache ≡ some s.cache
      → with_writer kfs tree op w (s, t) ≡ (
        (op (load_chunk kfs tree (s, t) w)).0,
        after (op (load_chunk kfs tree (s, t) w)).1 (s, t),
      )
  with_writer-on {A} op w s t on same =
      let c' = (op (load_chunk kfs tree (s, t) w)).1 in
      let put : Cache → Result A × State kfs tree = λ cache. (
        (op (load_chunk kfs tree (s, t) w)).0,
        (record s { cache = cache; current_append = some c' }, detach kfs tree s.root c' t),
      ) in
      with_writer-run_op op w (s, t)
      ∙ ap (run_op op) (turn_on_write-on w s t on)
      ∙ ap put (cache_back c' s.cache s same)

  abbrev handle_of : Chunk File → Result ℕ × State kfs tree → Result (List ℕ) × State kfs tree
  handle_of c (err e, st) = (err e, st)
  handle_of c (ok index, st) =
      if index == 0
      then (err append_store_write, st)
      else (ok (to_string (record { chunk_id = c.chunk_id; index = index })), st)

  handle_of-suc :
      (c : Chunk File) (i : ℕ) (st : State kfs tree)
      → handle_of c (ok (suc i), st)
        ≡ (ok (to_string (record { chunk_id = c.chunk_id; index = suc i })), st)
  handle_of-suc c i st = let some_index : (suc i == 0) ≡ false = ground arith in rw some_index refl

  append_loaded-on :
      (v : List ℕ) (w : Chunk File) (s : Store File) (t : tree.Tree)
      → s.current_append ≡ some w
      → append_loaded kfs tree v (s, t)
        ≡ handle_of w (with_writer kfs tree (Chunk.append kfs v) w (s, t))
  unfolding append_loaded
  append_loaded-on v w s t cur =
      elim (Result-cases (with_writer kfs tree (Chunk.append kfs v) w (s, t)).0) [
        | inl (i, e) ↦ ground (arith, cur, e)
        | inr (x, e) ↦ ground (arith, cur, e)
      ]

  load_append_chunk-on :
      (w : Chunk File) (s : Store File) (t : tree.Tree)
      → s.current_append ≡ some w
      → is_chunk_full kfs w ≡ false
      → load_append_chunk kfs tree (s, t) ≡ some (ok tt, (s, t))
  unfolding load_append_chunk
  load_append_chunk-on w s t cur room = ground (arith, cur, room)

  pub append-on :
      (v : List ℕ) (i : ℕ) (w : Chunk File) (s : Store File) (t : tree.Tree)
      → s.append_mode ≡ true
      → s.current_append ≡ some w
      → is_chunk_full kfs w ≡ false
      → check_write_permission kfs w ≡ true
      → (Chunk.append kfs v (load_chunk kfs tree (s, t) w)).1.cache ≡ some s.cache
      → (Chunk.append kfs v (load_chunk kfs tree (s, t) w)).0 ≡ ok (suc i)
      → append kfs tree v (s, t)
        ≡ some (
          ok (to_string (record { chunk_id = w.chunk_id; index = suc i })),
          after (Chunk.append kfs v (load_chunk kfs tree (s, t) w)).1 (s, t),
        )
  unfolding append
  append-on v i w s t mode cur room on same ran =
      let st = after (Chunk.append kfs v (load_chunk kfs tree (s, t) w)).1 (s, t) in
      let opened = load_append_chunk-on w s t cur room in
      let appended : append kfs tree v (s, t) ≡ some (append_loaded kfs tree v (s, t)) =
        ground (arith, mode, opened) in
      appended
      ∙ ap some (
          append_loaded-on v w s t cur
          ∙ ap (handle_of w) (with_writer-on (Chunk.append kfs v) w s t on same)
          ∙ ap (λ (r : Result ℕ). handle_of w (r, st)) ran
          ∙ handle_of-suc w i st)

  pub flush-on :
      (w : Chunk File) (s : Store File) (t : tree.Tree)
      → s.current_append ≡ some w
      → check_write_permission kfs w ≡ true
      → (Chunk.flush kfs (load_chunk kfs tree (s, t) w)).1.cache ≡ some s.cache
      → (Chunk.flush kfs (load_chunk kfs tree (s, t) w)).0 ≡ ok tt
      → flush kfs tree (s, t)
        ≡ (ok tt, after (Chunk.flush kfs (load_chunk kfs tree (s, t) w)).1 (s, t))
  unfolding flush
  flush-on w s t cur on same ran =
      let st = after (Chunk.flush kfs (load_chunk kfs tree (s, t) w)).1 (s, t) in
      let flushed : flush kfs tree (s, t) ≡ with_writer kfs tree (Chunk.flush kfs) w (s, t) =
        ground (arith, cur) in
      flushed
      ∙ with_writer-on (Chunk.flush kfs) w s t on same
      ∙ ap (λ (r : Result (Unit {0})). (r, st)) ran
