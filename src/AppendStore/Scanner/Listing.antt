-- ===== src/AppendStore/Scanner/Listing.antt =====
-- The scanner lists the values of a chunk, each under its handle, but for those that were removed.
use bigarchive.Prelude.{
  ℕ, zero, suc, ◌<◌, ◌≡◌, refl, ◌∙◌, ap, subst, Option, none, some, List, [], ◌∷◌, ◌++◌, length,
  arith, Bool-cases, inl, inr, if◌then◌else◌,
}
use bigarchive.Marshal.Stream.{good}
use bigarchive.Fs.{Kfs}
use bigarchive.Fs.Log.{KfsLaws}
use bigarchive.Fs.Tree.{KfsTree}
use bigarchive.AppendStore.Types.Handle.{to_string}
use bigarchive.AppendStore.Codec.{Codec, CodecLaws}
use bigarchive.AppendStore.Chunk.Extract.{serialize_all, serialize_data-positive}
use bigarchive.AppendStore.Chunk.Blocks.{Block, records_from, data_of, all_vals}
use bigarchive.AppendStore.Scanner.{
  Scanner, Outcome, found, ended, member, next_record, round, next,
}
use bigarchive.AppendStore.Scanner.Rounds.{listed, Yields, round-pending, round-block, round-end}
use bigarchive.AppendStore.Scanner.Blocks.{IsAt, next_record-IsAt, fill-IsAt, next_block-end}

module _ (kfs : Kfs) (laws : KfsLaws kfs) (tree : KfsTree kfs) (codec : Codec)
    (law : CodecLaws codec) (k : ℕ) (removed : List ℕ) where
  open kfs use {File}

  -- A state from which the values of `ws` are left.
  pub record IsLeft (low : ℕ) (ws : List (List ℕ)) (s : Scanner kfs.File) : Type 0 where
    pub vs : List (List ℕ)
    pub bs : List Block
    pub left : ws ≡ vs ++ all_vals bs
    pub here : IsAt kfs laws tree codec law k removed low vs bs s

  -- what one `Next` comes to
  First : ℕ → List (List ℕ × List ℕ) → Scanner kfs.File → tree.Tree → Type 0
  First fuel [] s t = (s' : Scanner kfs.File) × (next kfs tree fuel s t ≡ some (ended, s', t))
  First fuel ((h, v) ∷ xs) s t =
      (s' : Scanner kfs.File) × (next kfs tree fuel s t ≡ some (found h v, s', t))
      × (low : ℕ) × (ws : List (List ℕ)) × IsLeft low ws s'
      × (length ws < fuel)
      × (listed k removed low ws ≡ xs)

  first_later :
      (fuel : ℕ) (xs : List (List ℕ × List ℕ)) (s s' : Scanner kfs.File) (t : tree.Tree)
      → round kfs tree s t ≡ some (none, s', t)
      → First fuel xs s' t
      → First (suc fuel) xs s t
  unfolding First next
  first_later fuel [] s s' t ran (s'', e) = (s'', rw (next, ran) e)
  first_later fuel ((h, v) ∷ xs) s s' t ran (s'', e, low, ws, left, few, rest) =
      (s'', rw (next, ran) e, low, ws, left, omega (arith, few), rest)

  -- a record in front, in a round that reads it
  first_record :
      (fuel low : ℕ) (v : List ℕ) (ws : List (List ℕ)) (s s' : Scanner kfs.File) (t : tree.Tree)
      → round kfs tree s t
        ≡ some (
          if member (suc low) removed
              then none
              else some (found (to_string (record { chunk_id = k; index = suc low })) v),
          s',
          t,
        )
      → IsLeft (suc low) ws s'
      → length ws < fuel
      → First fuel (listed k removed (suc low) ws) s' t
      → First (suc fuel) (listed k removed low (v ∷ ws)) s t
  unfolding next listed First
  first_record fuel low v ws s s' t ran left few rest =
      elim (Bool-cases (member (suc low) removed)) [
        | inl hidden ↦
            rw hidden
              (first_later fuel (listed k removed (suc low) ws) s s' t (rw hidden at ran) rest)
        | inr shown ↦
            rw shown (s', rw (next, ran, shown) refl, suc low, ws, left, omega (arith, few), refl)
      ]

  -- what holds with less fuel
  Below : ℕ → tree.Tree → Type 0
  Below fuel t =
      (low : ℕ) (ws : List (List ℕ)) (s : Scanner kfs.File)
      → IsLeft low ws s
      → length ws < fuel
      → First fuel (listed k removed low ws) s t

  first_pending :
      (fuel low : ℕ) (v : List ℕ) (vs : List (List ℕ)) (bs : List Block) (s s₁ : Scanner kfs.File)
      (t : tree.Tree)
      → IsAt kfs laws tree codec law k removed low (v ∷ vs) bs s₁
      → round kfs tree s t ≡ some ((next_record kfs tree s₁).0, (next_record kfs tree s₁).1, t)
      → length (vs ++ all_vals bs) < fuel
      → Below fuel t
      → First (suc fuel) (listed k removed low (v ∷ vs ++ all_vals bs)) s t
  unfolding Below
  first_pending fuel low v vs bs s s₁ t at ran few below =
      let (s', got, at') = next_record-IsAt kfs laws tree codec law k removed low v vs bs s₁ at in
      let left : IsLeft (suc low) (vs ++ all_vals bs) s' = record {
        vs = vs;
        bs = bs;
        left = refl;
        here = at';
      } in
      first_record fuel low v (vs ++ all_vals bs) s s' t
        (ran ∙ ap (λ (r : Option Outcome × Scanner kfs.File). some (r.0, r.1, t)) got) left few
        (below (suc low) (vs ++ all_vals bs) s' left few)

  first_block :
      (fuel low : ℕ) (b : Block) (ws : List (List ℕ)) (bs : List Block) (s : Scanner kfs.File)
      (t : tree.Tree)
      → b.vals ≡ ws
      → IsAt kfs laws tree codec law k removed low [] (b ∷ bs) s
      → length (ws ++ all_vals bs) < suc fuel
      → Below fuel t
      → First (suc fuel) (listed k removed low (ws ++ all_vals bs)) s t
  unfolding serialize_all records_from
  first_block fuel low b [] bs s t e at few below =
      absurd (omega (arith, at.some_vals.0, ap length e))
  first_block fuel low b (v ∷ ws) bs s t e at few below =
      let (f, f', opened, got, at') = fill-IsAt kfs laws tree codec law k removed low b bs s at in
      let s₁ : Scanner kfs.File = record s {
        scanner_file = some f';
        data_stream = good (serialize_all (records_from low b.vals));
      } in
      first_pending fuel low v ws bs s s₁ t
        (subst (λ (vs : List (List ℕ)). IsAt kfs laws tree codec law k removed low vs bs s₁) e at')
        (round-block kfs tree s t f f' _ at.stream opened got) (omega (arith, few)) below

  first_at :
      (fuel low : ℕ) (vs : List (List ℕ)) (bs : List Block) (s : Scanner kfs.File) (t : tree.Tree)
      → IsAt kfs laws tree codec law k removed low vs bs s
      → length (vs ++ all_vals bs) < suc fuel
      → Below fuel t
      → First (suc fuel) (listed k removed low (vs ++ all_vals bs)) s t
  unfolding First listed next serialize_all records_from data_of all_vals
  first_at fuel low [] [] s t at few below =
      let (f', got) =
        next_block-end kfs laws tree codec law k removed at.pre at.f at.bytes at.place in
      let ran = round-end kfs tree s t at.f f' at.stream at.opened at.last (rw at.codec_of got) in
      (record s { scanner_file = some f' }, rw (next, ran) refl)
  first_at fuel low [] (b ∷ bs) s t at few below =
      first_block fuel low b b.vals bs s t refl at few below
  first_at fuel low (v ∷ vs) bs s t at few below =
      first_pending fuel low v vs bs s s t at
        (round-pending kfs tree s t _ at.stream
          (serialize_data-positive (record { val = v; index = suc low }) _))
        (omega (arith, few)) below

  first_left : (fuel : ℕ) (t : tree.Tree) → Below fuel t
  unfolding Below
  first_left zero t low ws s left few = absurd (omega arith)
  first_left (suc fuel) t low ws s left few = rw left.left (
      first_at fuel low left.vs left.bs s t left.here (omega (arith, few, ap length left.left))
        (first_left fuel t))

  yields :
      (fuel low : ℕ) (ws : List (List ℕ)) (xs : List (List ℕ × List ℕ)) (s : Scanner kfs.File)
      (t : tree.Tree)
      → listed k removed low ws ≡ xs
      → IsLeft low ws s
      → length ws < fuel
      → Yields kfs tree fuel xs s t
  unfolding Yields First Below
  yields fuel low ws [] s t e left few =
      subst (λ (xs : List (List ℕ × List ℕ)). First fuel xs s t) e
        (first_left fuel t low ws s left few)
  yields fuel low ws ((h, v) ∷ xs) s t e left few =
      let (s', got, low', ws', left', few', same) =
        subst (λ (ys : List (List ℕ × List ℕ)). First fuel ys s t) e
          (first_left fuel t low ws s left few) in
      (s', got, yields fuel low' ws' xs s' t same left' few')

  -- Over a codec that undoes its compression and a KFS client that reads what was written: a
  -- scanner that is at the start of the file of its last chunk, of written blocks that each have a
  -- value, gives on repeated `Next`, each within one round more than there are values, exactly the
  -- values of the chunk whose indexes are not in the delete set, in the order in which they were
  -- appended and each under its handle, and then `false`.
  pub next-listed :
      (fuel : ℕ) (bs : List Block) (s : Scanner kfs.File) (t : tree.Tree)
      → IsAt kfs laws tree codec law k removed 0 [] bs s
      → length (all_vals bs) < fuel
      → Yields kfs tree fuel (listed k removed 0 (all_vals bs)) s t
  next-listed fuel bs s t at few =
      yields fuel 0 (all_vals bs) (listed k removed 0 (all_vals bs)) s t refl
        (record { vs = []; bs = bs; left = refl; here = at }) few
