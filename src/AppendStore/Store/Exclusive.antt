-- ===== src/AppendStore/Store/Exclusive.antt =====
-- A chunk is open for reading or for writing, never for both: QFS does not allow the two at once.
pub mod Writing
pub mod Turns
pub mod Reads
pub mod Steps
use bigarchive.Prelude.{
  ℕ, zero, suc, ◌+◌, ◌%◌, ◌^◌, ◌<◌, ◌≤◌, ◌≡◌, ◌≢◌, refl, sym, ◌∙◌, subst, Bool, true, false, not,
  ◌&&◌, Option, none, some, List, [], ◌∷◌, ◌++◌, length, set, get_elem?, get_elem?-set, length-set,
  leb, ◌==◌, arith, Bool-cases, Option-cases, inl, inr, ◌⊎◌, if◌then◌else◌,
}
use bigarchive.Exception.{Result, Result-cases, ok, err}
use bigarchive.Fs.{Kfs}
use bigarchive.Fs.Tree.{KfsTree}
use bigarchive.AppendStore.Types.Handle.{of_string}
use bigarchive.AppendStore.Types.Cache.{Cache}
use bigarchive.AppendStore.Chunk
use bigarchive.AppendStore.Chunk.{
  Chunk, is_chunk_full, enable_write, disable_read, check_read_permission, check_write_permission,
}
use bigarchive.AppendStore.Chunk.Files.{close, attach}
use bigarchive.AppendStore.Chunk.Files
use bigarchive.AppendStore.Chunk.Identity.{chunk_id-enable_write}
use bigarchive.AppendStore.Store.{
  Store, State, find_chunk, load_chunk, save_chunk, alloc_next_chunk, parameter, turn_off_reader,
  turn_on_write, new_append_chunk, next_append_chunk, load_append_chunk, with_writer, append_loaded,
  append, flush,
}

module _ (kfs : Kfs) where
  open kfs use {File}

  -- the reader of the chunk `id`, if there is one, has no permission
  abbrev pub IsReaderOff : ℕ → Store File → Type 0
  IsReaderOff id s =
      (p : ℕ) (r : Chunk File)
      → find_chunk id s.chunk_map ≡ some p
      → get_elem? s.readers p ≡ some r
      → r.data_input_open ≡ false

  -- The maps name readers of their chunks, and the current reader is in its map.
  pub record IsIndexed (s : Store File) : Type 0 where
    pub ids :
        (id p : ℕ) (r : Chunk File)
        → find_chunk id s.chunk_map ≡ some p
        → get_elem? s.readers p ≡ some r
        → r.chunk_id ≡ id
    pub current :
        (p : ℕ) (r : Chunk File)
        → s.current_random ≡ some p
        → get_elem? s.readers p ≡ some r
        → find_chunk r.chunk_id s.chunk_map ≡ some p
    pub known : (id p : ℕ) → find_chunk id s.chunk_map ≡ some p → id ≤ s.max_chunk_id
    pub placed : (id p : ℕ) → find_chunk id s.chunk_map ≡ some p → p < length s.readers
    pub current_placed : (p : ℕ) → s.current_random ≡ some p → p < length s.readers

  -- Both, and the writer with write permission has no reader with read permission.
  pub record IsExclusive (s : Store File) : Type 0 where
    pub indexed : IsIndexed s
    pub exclusive :
        (w : Chunk File)
        → s.current_append ≡ some w
        → check_write_permission kfs w ≡ true
        → IsReaderOff w.chunk_id s

  -- a reader that is replaced by one of the same chunk
  pub put_reader-IsIndexed :
      (s : Store File) (p : ℕ) (r r' : Chunk File)
      → get_elem? s.readers p ≡ some r
      → r'.chunk_id ≡ r.chunk_id
      → IsIndexed s
      → IsIndexed (record s { readers = set s.readers p r' })
  put_reader-IsIndexed s p r r' at_p same inv = record {
    ids = λ id q a f g. elim (get_elem?-set s.readers p q r' a g) [
      | inl (here, is) ↦ rw is (same ∙ inv.ids id q r f (rw here at at_p))
      | inr (there, is) ↦ inv.ids id q a f is
    ];
    current = λ q a f g. elim (get_elem?-set s.readers p q r' a g) [
      | inl (here, is) ↦ rw (is, same) (inv.current q r f (rw here at at_p))
      | inr (there, is) ↦ inv.current q a f is
    ];
    known = inv.known;
    placed = λ id q f. rw (length-set s.readers p r') (inv.placed id q f);
    current_placed = λ q e. rw (length-set s.readers p r') (inv.current_placed q e);
  }

  -- The cache and the writer are no part of it.
  pub reindex :
      (s : Store File) (cache : Cache) (w : Option (Chunk File))
      → IsIndexed s
      → IsIndexed (record s { cache = cache; current_append = w })
  reindex s cache w inv = record {
    ids = inv.ids;
    current = inv.current;
    known = inv.known;
    placed = inv.placed;
    current_placed = inv.current_placed;
  }

  same_reader :
      (id : ℕ) (s : Store File) (q p : ℕ) (a r : Chunk File)
      → find_chunk id s.chunk_map ≡ some q
      → find_chunk id s.chunk_map ≡ some p
      → get_elem? s.readers p ≡ some r
      → get_elem? s.readers q ≡ some a
      → r ≡ a
  same_reader id s q p a r e f g at_q = ground arith

  module _ (tree : KfsTree kfs) where
    turn_off_reader-IsReaderOff :
        (id : ℕ) (s : Store File) → IsReaderOff id (turn_off_reader kfs tree id s)
    unfolding turn_off_reader check_read_permission disable_read
    turn_off_reader-IsReaderOff id s = elim (Option-cases (find_chunk id s.chunk_map)) [
      | inl e ↦ rw (turn_off_reader, e) (λ p r f g. absurd (cc))
      | inr (q, e) ↦ elim (Option-cases (get_elem? s.readers q)) [
        | inl at_q ↦ rw (turn_off_reader, e, at_q) (λ p r f g. absurd (cc (e, at_q)))
        | inr (a, at_q) ↦ elim (Bool-cases a.data_input_open) [
          | inl open_ ↦
              rw (turn_off_reader, e, at_q, open_)
                (λ p r f g. elim (get_elem?-set s.readers q p _ r g) [
                  | inl (here, is) ↦ rw is refl
                  | inr (there, is) ↦ absurd (there (cc (e, f)))
                ])
          | inr shut ↦
              rw (turn_off_reader, e, at_q, shut)
                (λ p r f g. rw (same_reader id s q p a r e f g at_q) shut)
        ]
      ]
    ]

    turn_off_reader-IsIndexed :
        (id : ℕ) (s : Store File) → IsIndexed s → IsIndexed (turn_off_reader kfs tree id s)
    unfolding turn_off_reader check_read_permission disable_read
    turn_off_reader-IsIndexed id s inv = elim (Option-cases (find_chunk id s.chunk_map)) [
      | inl e ↦ rw (turn_off_reader, e) inv
      | inr (q, e) ↦ elim (Option-cases (get_elem? s.readers q)) [
        | inl at_q ↦ rw (turn_off_reader, e, at_q) inv
        | inr (a, at_q) ↦ elim (Bool-cases a.data_input_open) [
          | inl open_ ↦
              rw (turn_off_reader, e, at_q, open_) (put_reader-IsIndexed s q a _ at_q refl inv)
          | inr shut ↦ rw (turn_off_reader, e, at_q, shut) inv
        ]
      ]
    ]

    -- What holds of a state and of a writer that is not in it yet.
    pub record IsSafe (c : Chunk File) (id max : ℕ) (s : Store File) : Type 0 where
      pub indexed : IsIndexed s
      pub off : IsReaderOff id s
      pub same_id : c.chunk_id ≡ id
      pub same_max : s.max_chunk_id ≡ max

    turn_off_reader-max :
        (id : ℕ) (s : Store File) → (turn_off_reader kfs tree id s).max_chunk_id ≡ s.max_chunk_id
    unfolding turn_off_reader
    turn_off_reader-max id s = ground arith

    pub turn_on_write-IsSafe :
        (c : Chunk File) (s : Store File) (t : tree.Tree)
        → IsIndexed s
        → (check_write_permission kfs c ≡ true → IsReaderOff c.chunk_id s)
        → let (res, c', st) = turn_on_write kfs tree c (s, t) in
          IsSafe c' c.chunk_id s.max_chunk_id st.0
    unfolding turn_on_write attach
    turn_on_write-IsSafe c s t inv off = elim (Bool-cases (check_write_permission kfs c)) [
      | inl may ↦ rw may (record { indexed = inv; off = off may; same_id = refl; same_max = refl })
      | inr not_yet ↦ rw not_yet record {
        indexed = reindex _ _ _ (turn_off_reader-IsIndexed c.chunk_id s inv);
        off = turn_off_reader-IsReaderOff c.chunk_id s;
        same_id = chunk_id-enable_write kfs _;
        same_max = turn_off_reader-max c.chunk_id s;
      }
    ]

    pub written_back :
        (c c' : Chunk File) (id max : ℕ) (s : Store File) (cache : Cache)
        → IsSafe c id max s
        → c'.chunk_id ≡ c.chunk_id
        → IsExclusive (record s { cache = cache; current_append = some c' })
    written_back c c' id max s cache safe same = record {
      indexed = reindex s cache (some c') safe.indexed;
      exclusive = λ w e may p r f g.
          let number : w.chunk_id ≡ id = cc (e, same, safe.same_id) in
          safe.off p r (subst (λ (n : ℕ). find_chunk n s.chunk_map ≡ some p) number f) g;
    }

    -- `TurnOnWrite` and an operation that keeps the number of the chunk
    pub with_writer-IsExclusive :
        {A : Type 0} (op : Chunk File → Result A × Chunk File)
        → ((c : Chunk File) → (op c).1.chunk_id ≡ c.chunk_id)
        → (c : Chunk File) (s : Store File) (t : tree.Tree) → IsIndexed s
        → (check_write_permission kfs c ≡ true → IsReaderOff c.chunk_id s)
        → IsExclusive (with_writer kfs tree op c (s, t)).1.0
    unfolding with_writer attach
    with_writer-IsExclusive op keeps c s t inv off =
        let safe = turn_on_write-IsSafe c s t inv off in
        elim (Result-cases (turn_on_write kfs tree c (s, t)).0) [
          | inl (u, e) ↦ rw (with_writer, e) (written_back _ _ _ _ _ _ safe (keeps _))
          | inr (x, e) ↦ rw (with_writer, e) (written_back _ _ _ _ _ _ safe refl)
        ]
