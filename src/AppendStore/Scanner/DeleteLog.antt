-- ===== src/AppendStore/Scanner/DeleteLog.antt =====
-- What `Remove` writes to the delete log of a chunk is what the scanner skips.
use bigarchive.Prelude.{
  ℕ, zero, suc, ◌^◌, ◌<◌, ◌≤◌, ◌≡◌, refl, sym, ◌∙◌, ap, Bool, true, false, ◌||◌, some, List, [],
  ◌∷◌, ◌++◌, length, replicate, All, length-append, append-nil, append_assoc, arith, ◌==◌,
}
use bigarchive.Prelude.Words.{length-bytes_of}
use bigarchive.Exception.{Result, ok}
use bigarchive.Fs
use bigarchive.Fs.{Kfs}
use bigarchive.Fs.Log.{KfsLaws, frame, length-header, read-frame_at, write-contents}
use bigarchive.Fs.Tree.{KfsTree, TreeLaws}
use bigarchive.AppendStore.Types.Handle.{delete_to_string, delete_of_string}
use bigarchive.AppendStore.Types.HandleLaws.{delete_of_string-to_string}
use bigarchive.AppendStore.Index.Load.{size_at_end}
use bigarchive.AppendStore.Chunk.Files.{DeleteChunk, remove_once, remove}
use bigarchive.AppendStore.Chunk.Blocks.Append.{WritesAll}
use bigarchive.AppendStore.Scanner.{member, read_delete_loop}

abbrev removal : ℕ → List ℕ
removal i = delete_to_string (record { index = i })

-- the delete log of these removals
unfoldable pub log_of : List ℕ → List ℕ
log_of [] = []
log_of (i ∷ is) = frame (removal i) ++ log_of is

-- the set once these were inserted
abbrev added : List ℕ → List ℕ → List ℕ
added [] set = set
added (i ∷ is) set = added is (i ∷ set)

or_false : (b : Bool) → (b || false) ≡ b
or_false true = refl
or_false false = refl

or_swap : (a b c : Bool) → (a || (b || c)) ≡ ((b || a) || c)
or_swap true true c = refl
or_swap true false c = refl
or_swap false true c = refl
or_swap false false c = refl

member-added : (j : ℕ) (is set : List ℕ) → member j (added is set) ≡ (member j is || member j set)
unfolding member
member-added j [] set = refl
member-added j (i ∷ is) set =
    member-added j is (i ∷ set) ∙ or_swap (member j is) (i == j) (member j set)

log_of-append : (is : List ℕ) (i : ℕ) → log_of (is ++ i ∷ []) ≡ log_of is ++ frame (removal i)
unfolding log_of
log_of-append [] i = append-nil (frame (removal i))
log_of-append (j ∷ is) i =
    rw (log_of-append is i) (sym (append_assoc (frame (removal j)) (log_of is) (frame (removal i))))

length-removal : (i : ℕ) → length (removal i) ≡ 8
unfolding delete_to_string
length-removal i = length-bytes_of 8 i

length-log_of : (is : List ℕ) → length is ≤ length (log_of is)
unfolding log_of
length-log_of [] = omega arith
length-log_of (i ∷ is) = omega (
  arith,
  length-append (frame (removal i)) (log_of is),
  length-append (Fs.header (length (removal i))) (removal i),
  length-header (length (removal i)),
  length-log_of is,
)

module _ (kfs : Kfs) (laws : KfsLaws kfs) where
  open laws use {contents, position}

  read_delete_loop-log_of :
      (fuel : ℕ) (pre is set : List ℕ) (f : kfs.File)
      → length is < fuel
      → All (λ (i : ℕ). i < 2 ^ 48) is
      → contents f ≡ pre ++ log_of is
      → position f ≡ length pre
      → read_delete_loop kfs fuel set f ≡ some (added is set)
  unfolding read_delete_loop log_of
  read_delete_loop-log_of zero pre is set f h fits c p = absurd (omega arith)
  read_delete_loop-log_of (suc fuel) pre [] set f h fits c p =
      let done = size_at_end kfs laws pre f (c ∙ append-nil pre) p in
      rw (read_delete_loop, done) refl
  read_delete_loop-log_of (suc fuel) pre (i ∷ is) set f h (hi, hs) c p =
      let (n, buf, same, pos) =
        read-frame_at kfs laws pre (removal i) (log_of is) f (c ∙ rw append_assoc refl) p
          (omega (arith, length-removal i)) in
      let first = (Fs.get_next_log_size kfs f).0 in
      let f₂ = (Fs.get_next_log_size kfs f).1 in
      let f₃ = (Fs.read kfs (replicate first 0) f₂).1 in
      let more : (first == 0) ≡ false = rw (n, length-removal i) refl in
      let index : (delete_of_string (Fs.read kfs (replicate first 0) f₂).0).index ≡ i =
        rw (buf, (delete_of_string-to_string (record { index = i }) hi).0) refl in
      let rest =
        read_delete_loop-log_of fuel (pre ++ frame (removal i)) is (i ∷ set) f₃ (omega arith) hs
          (same ∙ c ∙ sym (append_assoc pre (frame (removal i)) (log_of is))) pos in
      rw (read_delete_loop, more, index, rest) refl

  flush-ok :
      (bs : List ℕ) (f : kfs.File) (n : ℕ)
      → (Fs.write kfs bs f).0 ≡ ok n
      → Fs.flush kfs bs f ≡ (ok n, kfs.sync (Fs.write kfs bs f).1)
  unfolding Fs.flush Fs.sync_after
  flush-ok bs f n ran = ap (λ (r : Result ℕ). Fs.sync_after kfs (r, (Fs.write kfs bs f).1)) ran

  remove-ok :
      (i : ℕ) (c : DeleteChunk) (f : kfs.File) (n : ℕ)
      → c.delete_log_open ≡ true
      → (Fs.write kfs (removal i) f).0 ≡ ok n
      → remove kfs i c f ≡ (ok true, c, kfs.sync (Fs.write kfs (removal i) f).1)
  unfolding remove remove_once
  remove-ok i c f n open_ ran =
      let flushed = flush-ok (removal i) f n ran in ground (arith, open_, flushed)

  module _ (all : WritesAll kfs) (tree : KfsTree kfs) (tree_laws : TreeLaws kfs laws tree) where
    -- Over a KFS client that writes in full: `Remove` of an index succeeds when the delete log is
    -- open, holds the removals of others and keeps below 2 GiB, all of indexes of 48 bits, and the
    -- set that `ReadDeleteLog` then reads from the start of the log has exactly the others and the
    -- index.
    pub read_delete_loop-remove :
        (is : List ℕ) (i : ℕ) (c : DeleteChunk) (f : kfs.File)
        → c.delete_log_open ≡ true
        → All (λ (j : ℕ). j < 2 ^ 48) (is ++ i ∷ [])
        → contents f ≡ log_of is
        → length (log_of (is ++ i ∷ [])) < 2 ^ 31
        → let (res, c', f') = remove kfs i c f in
          (res ≡ ok true)
          × (contents f' ≡ log_of (is ++ i ∷ []))
          × ((set : List ℕ) × (read_delete_loop kfs (suc (kfs.size f')) [] (kfs.seek 0 f')
                ≡ some set)
              × ((j : ℕ) → member j set ≡ member j (is ++ i ∷ [])))
    unfolding member
    read_delete_loop-remove is i c f open_ fits c₀ small =
        let after : contents f ++ frame (removal i) ≡ log_of (is ++ i ∷ []) =
          rw c₀ (sym (log_of-append is i)) in
        let (ran, stored) =
          write-contents kfs laws (removal i) f (all (frame (removal i)) f) (rw after small) in
        let f' = kfs.sync (Fs.write kfs (removal i) f).1 in
        let left : contents f' ≡ log_of (is ++ i ∷ []) =
          tree_laws.sync_keeps (Fs.write kfs (removal i) f).1 ∙ stored ∙ after in
        let (c₁, p₁) = laws.seek_to 0 f' in
        let size : kfs.size f' ≡ length (log_of (is ++ i ∷ [])) =
          laws.size_of f' ∙ ap length left in
        let set = added (is ++ i ∷ []) [] in
        let reads =
          read_delete_loop-log_of (suc (kfs.size f')) [] (is ++ i ∷ []) [] (kfs.seek 0 f')
            (omega (arith, size, length-log_of (is ++ i ∷ []))) fits (c₁ ∙ left) p₁ in
        rw (remove-ok i c f _ open_ ran) (
          refl,
          left,
          (set, reads, λ j. member-added j (is ++ i ∷ []) [] ∙ or_false (member j (is ++ i ∷ []))),
        )
