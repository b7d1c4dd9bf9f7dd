-- ===== src/AppendStore/Store/Exclusive/Writing.antt =====
-- The operations that write keep the turns of readers and writers.
use bigarchive.Prelude.{
  ℕ, ◌+◌, ◌-◌, ◌%◌, ◌^◌, ◌<◌, ◌≡◌, refl, subst, Bool, ◌==◌, true, not, if_both, Option, none, some,
  List, arith, Bool-cases, Option-cases, inl, inr,
}
use bigarchive.Exception.{Result, Result-cases, ok, err}
use bigarchive.Fs.{Kfs}
use bigarchive.Fs.Tree.{KfsTree}
use bigarchive.AppendStore.Chunk
use bigarchive.AppendStore.Chunk.{Chunk, is_chunk_full, check_write_permission}
use bigarchive.AppendStore.Chunk.Files.{close, attach}
use bigarchive.AppendStore.Chunk.Files
use bigarchive.AppendStore.Chunk.Identity.{
  chunk_id-append, chunk_id-flush, chunk_id-close, chunk_id-new,
}
use bigarchive.AppendStore.Store.{
  Store, State, find_chunk, load_chunk, parameter, alloc_next_chunk, turn_on_write,
  new_append_chunk, next_append_chunk, load_append_chunk, with_writer, append_loaded, append, flush,
}
use bigarchive.AppendStore.Store.Closing.{close_writer}
use bigarchive.AppendStore.Store.Exclusive.{
  IsReaderOff, IsExclusive, turn_on_write-IsSafe, written_back, with_writer-IsExclusive,
}

module _ (kfs : Kfs) where
  open kfs use {File}

  -- What `Append` needs: a number is left for a next chunk, and the last chunk is not open for
  -- reading when it is opened for the first append.
  pub record CanOpen (s : Store File) : Type 0 where
    pub room : s.max_chunk_id < 2 ^ 16 - 1
    pub unread : s.current_append ≡ none → IsReaderOff kfs s.append_chunk_id s

  module _ (tree : KfsTree kfs) where
    pub flush-IsExclusive :
        (s : Store File) (t : tree.Tree)
        → IsExclusive kfs s
        → IsExclusive kfs (flush kfs tree (s, t)).1.0
    unfolding flush
    flush-IsExclusive s t inv = elim (Option-cases s.current_append) [
      | inl e ↦ rw (flush, e) inv
      | inr (c, e) ↦
          rw (flush, e)
            (with_writer-IsExclusive kfs tree (Chunk.flush kfs) (chunk_id-flush kfs) c s t
              inv.indexed (inv.exclusive c e))
    ]

    append_loaded-IsExclusive :
        (v : List ℕ) (s : Store File) (t : tree.Tree)
        → IsExclusive kfs s
        → IsExclusive kfs (append_loaded kfs tree v (s, t)).1.0
    unfolding append_loaded
    append_loaded-IsExclusive v s t inv = elim (Option-cases s.current_append) [
      | inl e ↦ rw (append_loaded, e) inv
      | inr (c, e) ↦
          let next =
            with_writer-IsExclusive kfs tree (Chunk.append kfs v) (chunk_id-append kfs v) c s t
              inv.indexed (inv.exclusive c e) in
          elim (Result-cases (with_writer kfs tree (Chunk.append kfs v) c (s, t)).0) [
            | inl (index, got) ↦ elim (Bool-cases (index == 0)) [
              | inl none_ ↦ rw (append_loaded, e, got, none_) next
              | inr good ↦ rw (append_loaded, e, got, good) next
            ]
            | inr (x, got) ↦ rw (append_loaded, e, got) next
          ]
    ]

    -- A state that was reached is exclusive.
    abbrev pub Keeps : {A : Type 0} → Option (A × State kfs tree) → Type 0
    Keeps none = Unit
    Keeps (some (a, st)) = IsExclusive kfs st.0

    new_append_chunk-Keeps :
        (s : Store File) (t : tree.Tree)
        → IsExclusive kfs s
        → IsReaderOff kfs s.append_chunk_id s
        → Keeps (new_append_chunk kfs tree (s, t))
    unfolding new_append_chunk
    new_append_chunk-Keeps s t inv off =
        elim (Option-cases (Files.new kfs tree (parameter kfs tree s s.append_chunk_id true) t)) [
          | inl e ↦ rw (new_append_chunk, e) tt
          | inr ((res, t'), e) ↦ elim (Result-cases res) [
            | inl (c, is) ↦
                let made = rw is at e in
                rw (new_append_chunk, made)
                  record {
                    indexed = record {
                      ids = inv.indexed.ids;
                      current = inv.indexed.current;
                      known = inv.indexed.known;
                      placed = inv.indexed.placed;
                      current_placed = inv.indexed.current_placed;
                    };
                    exclusive = λ w same may p r f g.
                        let number : w.chunk_id ≡ s.append_chunk_id =
                          cc (same, chunk_id-new kfs tree _ t t' c made) in
                        off p r (subst (λ (n : ℕ). find_chunk n s.chunk_map ≡ some p) number f) g;
                  }
            | inr (x, is) ↦ rw (new_append_chunk, rw is at e) inv
          ]
        ]

    alloc_next_chunk-IsExclusive :
        (s : Store File)
        → s.max_chunk_id < 2 ^ 16 - 1
        → IsExclusive kfs s
        → IsExclusive kfs (alloc_next_chunk kfs tree s)
          × IsReaderOff kfs
              (alloc_next_chunk kfs tree s).append_chunk_id
              (alloc_next_chunk kfs tree s)
    unfolding alloc_next_chunk
    alloc_next_chunk-IsExclusive s room inv =
        let next : (s.max_chunk_id + 1) % 2 ^ 16 ≡ s.max_chunk_id + 1 = omega (arith, room) in
        (
          record {
            indexed = record {
              ids = inv.indexed.ids;
              current = inv.indexed.current;
              known = λ id p f. omega (arith, inv.indexed.known id p f, next);
              placed = inv.indexed.placed;
              current_placed = inv.indexed.current_placed;
            };
            exclusive = inv.exclusive;
          },
          λ p r f g. absurd (omega (arith, inv.indexed.known _ p f, next)),
        )

    alloc_new-Keeps :
        (s : Store File) (t : tree.Tree)
        → s.max_chunk_id < 2 ^ 16 - 1
        → IsExclusive kfs s
        → Keeps (new_append_chunk kfs tree (alloc_next_chunk kfs tree s, t))
    alloc_new-Keeps s t room inv =
        let (kept, off) = alloc_next_chunk-IsExclusive s room inv in
        new_append_chunk-Keeps (alloc_next_chunk kfs tree s) t kept off

    next_append_chunk-Keeps :
        (c : Chunk File) (s : Store File) (t : tree.Tree)
        → s.max_chunk_id < 2 ^ 16 - 1
        → IsExclusive kfs s
        → s.current_append ≡ some c
        → Keeps (next_append_chunk kfs tree c (s, t))
    unfolding next_append_chunk attach
    next_append_chunk-Keeps c s t room inv at_c =
        let safe = turn_on_write-IsSafe kfs tree c s t inv.indexed (inv.exclusive c at_c) in
        let turned = turn_on_write kfs tree c (s, t) in
        elim (Result-cases turned.0) [
          | inr (x, e) ↦ rw (next_append_chunk, e) (written_back kfs tree _ _ _ _ _ _ safe refl)
          | inl (u, e) ↦ elim (Result-cases (close kfs (load_chunk kfs tree turned.2 turned.1)).0) [
            | inr (x, e') ↦
                rw (next_append_chunk, e, e')
                  (written_back kfs tree _ _ _ _ _ _ safe (chunk_id-close kfs _))
            | inl (b, e') ↦
                rw (next_append_chunk, e, e')
                  (alloc_new-Keeps _ _ (omega (arith, room, safe.same_max))
                    (written_back kfs tree _ _ _ _ _ _ safe (chunk_id-close kfs _)))
          ]
        ]

    load_append_chunk-Keeps :
        (s : Store File) (t : tree.Tree)
        → CanOpen s
        → IsExclusive kfs s
        → Keeps (load_append_chunk kfs tree (s, t))
    unfolding load_append_chunk
    load_append_chunk-Keeps s t can inv = elim (Option-cases s.current_append) [
      | inl e ↦ rw (load_append_chunk, e) (new_append_chunk-Keeps s t inv (can.unread e))
      | inr (c, e) ↦ elim (Bool-cases (is_chunk_full kfs c)) [
        | inl full ↦ rw (load_append_chunk, e, full) (next_append_chunk-Keeps c s t can.room inv e)
        | inr free ↦ rw (load_append_chunk, e, free) inv
      ]
    ]

    pub append-Keeps :
        (v : List ℕ) (s : Store File) (t : tree.Tree)
        → CanOpen s
        → IsExclusive kfs s
        → Keeps (append kfs tree v (s, t))
    unfolding append
    append-Keeps v s t can inv =
        if_both (λ (o : Option (Result (List ℕ) × State kfs tree)). Keeps o) (not s.append_mode) inv
          (loaded (load_append_chunk-Keeps s t can inv))
      where
        loaded :
            Keeps (load_append_chunk kfs tree (s, t))
            → Keeps {A = Result (List ℕ)} (elim (load_append_chunk kfs tree (s, t)) [
              | none ↦ none
              | some (err e, st) ↦ some (err e, st)
              | some (ok u, st) ↦ some (append_loaded kfs tree v st)
            ])
        loaded k = elim (Option-cases (load_append_chunk kfs tree (s, t))) [
          | inl e ↦ rw e tt
          | inr ((res, (s', t')), e) ↦ elim (Result-cases res) [
            | inl (u, is) ↦
                rw (rw is at e) (append_loaded-IsExclusive v s' t' (rw (rw is at e) at k))
            | inr (x, is) ↦ rw (rw is at e) (rw (rw is at e) at k)
          ]
        ]

    pub close_writer-IsExclusive :
        (s : Store File) (t : tree.Tree)
        → IsExclusive kfs s
        → IsExclusive kfs (close_writer kfs tree (s, t)).1.0
    unfolding close_writer
    close_writer-IsExclusive s t inv = elim (Option-cases s.current_append) [
      | inl e ↦ rw (close_writer, e) inv
      | inr (c, e) ↦
          let closed =
            with_writer-IsExclusive kfs tree (close kfs) (chunk_id-close kfs) c s t inv.indexed
              (inv.exclusive c e) in
          rw (close_writer, e)
            (if_both (λ (r : Result Bool × State kfs tree). IsExclusive kfs r.1.0) s.append_mode
              closed inv)
    ]
