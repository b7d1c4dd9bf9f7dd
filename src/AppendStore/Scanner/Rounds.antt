-- ===== src/AppendStore/Scanner/Rounds.antt =====
-- One round of `Next`, and the list of what it gives.
use bigarchive.Prelude.{
  ℕ, suc, ◌≡◌, false, none, some, List, [], ◌∷◌, length, arith, Bool-cases, inl, inr, ◌==◌,
  if◌then◌else◌,
}
use bigarchive.Exception.{ok}
use bigarchive.Marshal.Stream.{IStream, good}
use bigarchive.Fs.{Kfs}
use bigarchive.Fs.Tree.{KfsTree}
use bigarchive.AppendStore.Types.Handle.{to_string}
use bigarchive.AppendStore.Types.Records.{DataRecord, data_record, deserialize_data}
use bigarchive.AppendStore.Scanner.{
  Scanner, found, ended, member, next_block, next_record, next_chunk, round, next,
}

-- The handles and values of a chunk that are not removed, the first of which has the index behind
-- `low`.
unfoldable pub listed : ℕ → List ℕ → ℕ → List (List ℕ) → List (List ℕ × List ℕ)
listed k removed low [] = []
listed k removed low (v ∷ vs) =
    let others = listed k removed (suc low) vs in
    if member (suc low) removed
    then others
    else (to_string (record { chunk_id = k; index = suc low }), v) ∷ others

module _ (kfs : Kfs) (tree : KfsTree kfs) where
  -- `Next` gives these, and then `false`.
  unfoldable pub Yields : ℕ → List (List ℕ × List ℕ) → Scanner kfs.File → tree.Tree → Type 0
  Yields fuel [] s t = (s' : Scanner kfs.File) × (next kfs tree fuel s t ≡ some (ended, s', t))
  Yields fuel ((h, v) ∷ xs) s t =
      (s' : Scanner kfs.File) × (next kfs tree fuel s t ≡ some (found h v, s', t))
      × Yields fuel xs s' t

  pub round-pending :
      (s : Scanner kfs.File) (t : tree.Tree) (bs : List ℕ)
      → s.data_stream ≡ good bs
      → (length bs == 0) ≡ false
      → round kfs tree s t ≡ some ((next_record kfs tree s).0, (next_record kfs tree s).1, t)
  unfolding round
  round-pending s t bs e some_left = ground (arith, e, some_left)

  pub round-block :
      (s : Scanner kfs.File) (t : tree.Tree) (f f' : kfs.File) (buf : List ℕ)
      → s.data_stream ≡ good []
      → s.scanner_file ≡ some f
      → next_block kfs s.scanner_codec f ≡ (ok (some buf), f')
      → let r =
          next_record kfs tree (record s { scanner_file = some f'; data_stream = good buf }) in
        round kfs tree s t ≡ some (r.0, r.1, t)
  unfolding round
  round-block s t f f' buf e opened got = ground (arith, e, opened, got)

  pub round-end :
      (s : Scanner kfs.File) (t : tree.Tree) (f f' : kfs.File)
      → s.data_stream ≡ good []
      → s.scanner_file ≡ some f
      → s.chunk_list ≡ []
      → next_block kfs s.scanner_codec f ≡ (ok none, f')
      → round kfs tree s t ≡ some (some ended, record s { scanner_file = some f' }, t)
  unfolding round next_chunk
  round-end s t f f' e opened last got = ground (arith, e, opened, last, got)

  -- a record that is parsed is given out, unless it was removed
  pub next_record-ok :
      (s : Scanner kfs.File) (r : DataRecord) (is : IStream)
      → deserialize_data data_record.new s.data_stream ≡ ok (r, is)
      → next_record kfs tree s ≡ (
        if member r.index s.delete_set
            then none
            else some (found (to_string (record { chunk_id = s.chunk_id; index = r.index })) r.val),
        record s { data_stream = is },
      )
  unfolding next_record
  next_record-ok s r is parsed = elim (Bool-cases (member r.index s.delete_set)) [
    | inl hidden ↦ ground (arith, parsed, hidden)
    | inr shown ↦ ground (arith, parsed, shown)
  ]
