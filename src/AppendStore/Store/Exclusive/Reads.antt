-- ===== src/AppendStore/Store/Exclusive/Reads.antt =====
-- `Read` keeps the turns of readers and writers.
use bigarchive.Prelude.{
  ℕ, ◌≤◌, ◌≡◌, sym, ◌∙◌, false, not, if_both, Option, none, some, List, [], ◌∷◌, ◌++◌, length,
  get_elem?, length-append, get_elem?-append, get_elem?-append_last, leb, leb→le, ◌==◌, arith,
  Bool-cases, Option-cases, inl, inr,
}
use bigarchive.Exception.{Result, Result-cases, ok, err}
use bigarchive.Fs.{Kfs}
use bigarchive.Fs.Tree.{KfsTree}
use bigarchive.AppendStore.Types.Handle.{of_string, is_valid}
use bigarchive.AppendStore.Types.Cache
use bigarchive.AppendStore.Types.Cache.{Cache}
use bigarchive.AppendStore.Chunk.{Chunk}
use bigarchive.AppendStore.Chunk.Files.{attach}
use bigarchive.AppendStore.Chunk.Files
use bigarchive.AppendStore.Chunk.Identity.{chunk_id-new}
use bigarchive.AppendStore.Store.{Store, State, find_chunk, parameter, valid_chunk_id}
use bigarchive.AppendStore.Store.Reading.{
  open_reader, in_chunk_map, load_random_chunk, read_reader, read,
}
use bigarchive.AppendStore.Store.Exclusive.{IsExclusive}
use bigarchive.AppendStore.Store.Exclusive.Turns.{
  IsExclusiveBut, KeepsData, no_reader, read_reader-Keeps,
}

module _ (kfs : Kfs) where
  open kfs use {File}

  module _ (tree : KfsTree kfs) where
    -- a new reader of a chunk that no reader had
    add_reader-IsExclusiveBut :
        (id : ℕ) (c : Chunk File) (s : Store File)
        → IsExclusive kfs s
        → find_chunk id s.chunk_map ≡ none
        → id ≤ s.max_chunk_id
        → c.chunk_id ≡ id
        → IsExclusiveBut kfs id (record s {
          readers = s.readers ++ c ∷ [];
          current_random = some (length s.readers);
          chunk_map = (id, length s.readers) ∷ s.chunk_map;
        })
    unfolding find_chunk
    add_reader-IsExclusiveBut id c s inv new_one le number =
        let longer = length-append s.readers (c ∷ []) in
        let last = get_elem?-append_last s.readers c in
        let old_reader = λ (k q : ℕ) (f : find_chunk k s.chunk_map ≡ some q).
          get_elem?-append s.readers (c ∷ []) q (inv.indexed.placed k q f) in
        record {
          indexed = record {
            ids = λ k q a f g. elim (Bool-cases (id == k)) [
              | inl here ↦ ground (arith, here, f, g, last, number)
              | inr there ↦
                  let f' : find_chunk k s.chunk_map ≡ some q = rw there at f in
                  inv.indexed.ids k q a f' (sym (old_reader k q f') ∙ g)
            ];
            current = λ q a f g. ground (arith, f, g, last, number);
            known = λ k q f. elim (Bool-cases (id == k)) [
              | inl here ↦ ground (arith, here, le)
              | inr there ↦ inv.indexed.known k q (rw there at f)
            ];
            placed = λ k q f. elim (Bool-cases (id == k)) [
              | inl here ↦ ground (arith, here, f, longer)
              | inr there ↦ omega (arith, inv.indexed.placed k q (rw there at f), longer)
            ];
            current_placed = λ q e. ground (arith, e, longer);
          };
          exclusive = λ w e may other q a f g.
              let there : (id == w.chunk_id) ≡ false = ground (arith, other) in
              let f' : find_chunk w.chunk_id s.chunk_map ≡ some q = rw there at f in
              inv.exclusive w e may q a f' (sym (old_reader w.chunk_id q f') ∙ g);
        }

    -- The answer of a function that gives the place of a reader of the chunk `id`.
    abbrev IsReaderOf : ℕ → Option (Result (Option ℕ) × State kfs tree) → Type 0
    IsReaderOf id none = Unit
    IsReaderOf id (some (err e, st)) = IsExclusive kfs st.0
    IsReaderOf id (some (ok none, st)) = IsExclusive kfs st.0
    IsReaderOf id (some (ok (some p), st)) =
        IsExclusiveBut kfs id st.0
        × ((r : Chunk File) → get_elem? st.0.readers p ≡ some r → r.chunk_id ≡ id)

    still_exclusive : (id : ℕ) (s : Store File) → IsExclusive kfs s → IsExclusiveBut kfs id s
    still_exclusive id s inv = record {
      indexed = inv.indexed;
      exclusive = λ w e may other. inv.exclusive w e may;
    }

    open_reader-IsReaderOf :
        (id : ℕ) (s : Store File) (t : tree.Tree)
        → IsExclusive kfs s
        → find_chunk id s.chunk_map ≡ none
        → id ≤ s.max_chunk_id
        → IsReaderOf id (open_reader kfs tree id (s, t))
    unfolding open_reader
    open_reader-IsReaderOf id s t inv new_one le =
        elim (Option-cases (Files.new kfs tree (parameter kfs tree s id false) t)) [
          | inl e ↦ rw (open_reader, e) tt
          | inr ((res, t'), e) ↦ elim (Result-cases res) [
            | inl (c, is) ↦
                let made = rw is at e in
                let number = chunk_id-new kfs tree _ t t' c made in
                rw (open_reader, made)
                  (
                    add_reader-IsExclusiveBut id c s inv new_one le number,
                    λ r g. ground (arith, g, get_elem?-append_last s.readers c, number),
                  )
            | inr (x, is) ↦ rw (open_reader, rw is at e) inv
          ]
        ]

    in_chunk_map-IsReaderOf :
        (id : ℕ) (s : Store File) (t : tree.Tree)
        → IsExclusive kfs s
        → id ≤ s.max_chunk_id
        → IsReaderOf id (in_chunk_map kfs tree id (s, t))
    unfolding in_chunk_map
    in_chunk_map-IsReaderOf id s t inv le = elim (Option-cases (find_chunk id s.chunk_map)) [
      | inl e ↦ rw (in_chunk_map, e) (open_reader-IsReaderOf id s t inv e le)
      | inr (p, e) ↦
          rw (in_chunk_map, e) (still_exclusive id s inv, λ r g. inv.indexed.ids id p r e g)
    ]

    load_random_chunk-IsReaderOf :
        (id : ℕ) (s : Store File) (t : tree.Tree)
        → IsExclusive kfs s
        → IsReaderOf id (load_random_chunk kfs tree id (s, t))
    unfolding load_random_chunk valid_chunk_id
    load_random_chunk-IsReaderOf id s t inv = elim (Bool-cases (leb id s.max_chunk_id)) [
      | inr above ↦ rw (load_random_chunk, above) inv
      | inl valid ↦
          let looked_up = in_chunk_map-IsReaderOf id s t inv (leb→le _ _ valid) in
          elim (Option-cases s.current_random) [
            | inl e ↦ rw (load_random_chunk, valid, e) looked_up
            | inr (p, e) ↦ elim (Option-cases (get_elem? s.readers p)) [
              | inl e' ↦ rw (load_random_chunk, valid, e, e') tt
              | inr (r, e') ↦ elim (Bool-cases (r.chunk_id == id)) [
                | inl here ↦
                    rw (load_random_chunk, valid, e, e', here)
                      (still_exclusive id s inv, λ a g. ground (arith, here, e', g))
                | inr there ↦ rw (load_random_chunk, valid, e, e', there) looked_up
              ]
            ]
          ]
    ]

    loaded-KeepsData :
        (index : ℕ) (id : ℕ) (old : List ℕ) (o : Option (Result (Option ℕ) × State kfs tree))
        → IsReaderOf id o
        → KeepsData kfs tree (elim o [
          | none ↦ none
          | some (err e, st) ↦ some (err e, old, st)
          | some (ok none, st) ↦ some (ok false, old, st)
          | some (ok (some p), st) ↦ read_reader kfs tree p index old st
        ])
    loaded-KeepsData index id old none k = tt
    loaded-KeepsData index id old (some (err e, st)) k = k
    loaded-KeepsData index id old (some (ok none, st)) k = k
    loaded-KeepsData index id old (some (ok (some p), (s, t))) (but, number) =
        elim (Option-cases (get_elem? s.readers p)) [
          | inl e ↦ no_reader kfs tree p index old s t e
          | inr (r, e) ↦ read_reader-Keeps kfs tree p index old r s t e (rw (number r e) but)
        ]

    pub read-KeepsData :
        (h old : List ℕ) (s : Store File) (t : tree.Tree)
        → IsExclusive kfs s
        → KeepsData kfs tree (read kfs tree h old (s, t))
    unfolding read
    read-KeepsData h old s t inv =
        if_both (KeepsData kfs tree) (not (is_valid (of_string h))) inv
          (elim (Option-cases (Cache.find s.cache (of_string h))) [
            | inr (v, e) ↦ rw e inv
            | inl e ↦ rw e (
                loaded-KeepsData (of_string h).index (of_string h).chunk_id old _
                  (load_random_chunk-IsReaderOf (of_string h).chunk_id s t inv))
          ])
