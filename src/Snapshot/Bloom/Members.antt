-- ===== src/Snapshot/Bloom/Members.antt =====
-- Elements that were added are found, and nothing that shares no position with them is.
use bigarchive.Prelude.{
  ℕ, ◌%◌, ◌≡◌, refl, ◌∙◌, ap, Bool, true, false, ◌||◌, List, [], ◌∷◌, ◌++◌, ◌==◌, ==_refl, arith,
}
use mathlib.Core.Path.{fun_ext}
use bigarchive.Exception.{Result, ok, ◌>>=◌}
use bigarchive.Snapshot.BitSet.Laws.{test}
use bigarchive.Snapshot.Bloom.{BloomFilter, used, add_element, exist}
use bigarchive.Snapshot.Bloom.Positions.{
  IsReady, is_position, all_positions, or_false, or_assoc, add_element-Adds, exist-all_positions,
}

module _ {A : Type 0} where
  -- `AddElement` of each of a list, as `UpdateBloomFilters` does
  unfoldable pub add_elements : BloomFilter A → List A → Result (BloomFilter A)
  add_elements f [] = ok f
  add_elements f (x ∷ xs) = add_element f x >>= λ f'. add_elements f' xs

  abbrev pub is_position_of : ℕ → List A → List (A → ℕ) → ℕ → Bool
  is_position_of total [] hs q = false
  is_position_of total (x ∷ xs) hs q = is_position total x hs q || is_position_of total xs hs q

  add_elements-test :
      (f : BloomFilter A) (xs : List A)
      → IsReady f
      → (f' : BloomFilter A) × (add_elements f xs ≡ ok f')
        × IsReady f'
        × (f'.total_bits ≡ f.total_bits)
        × (used f' ≡ used f)
        × ((q : ℕ)
            → test f'.bits_space q
              ≡ (test f.bits_space q || is_position_of f.total_bits xs (used f) q))
  unfolding add_elements
  add_elements-test f [] r = (f, refl, r, refl, refl, λ q. or_false (test f.bits_space q))
  add_elements-test f (x ∷ xs) r =
      let (f₁, run₁, adds) = add_element-Adds f x r in
      let (f₂, run₂, ready, total, same, tests) = add_elements-test f₁ xs adds.ready in
      (
        f₂,
        rw run₁ run₂,
        ready,
        total ∙ adds.same_total,
        same ∙ adds.same_used,
        λ q.
            tests q
            ∙ rw (adds.same_total, adds.same_used, adds.tests q)
                (or_assoc (test f.bits_space q) (is_position f.total_bits x (used f) q)
                  (is_position_of f.total_bits xs (used f) q)),
      )

  position_found :
      (total : ℕ) (e : A) (hs : List (A → ℕ)) (p : ℕ → Bool)
      → ((q : ℕ) → is_position total e hs q ≡ true → p q ≡ true)
      → all_positions total e hs p ≡ true
  position_found total e [] p h = refl
  position_found total e (g ∷ hs) p h =
      rw (h (g e % total) (rw (==_refl (g e % total))))
        (position_found total e hs p (λ q k. h q (rw (k, or_true (g e % total == q)))))
    where
      or_true : (x : Bool) → (x || true) ≡ true
      or_true true = refl
      or_true false = refl

  is_position_of_middle :
      (total : ℕ) (xs ys : List A) (e : A) (hs : List (A → ℕ)) (q : ℕ)
      → is_position total e hs q ≡ true
      → is_position_of total (xs ++ e ∷ ys) hs q ≡ true
  is_position_of_middle total [] ys e hs q h = rw h
  is_position_of_middle total (x ∷ xs) ys e hs q h =
      ground (arith, is_position_of_middle total xs ys e hs q h)

  -- Adding a list of elements to a ready filter does not throw, and `Exist` answers `true` for each
  -- of them afterwards.
  pub exist-add_elements :
      (f : BloomFilter A) (xs ys : List A) (e : A)
      → IsReady f
      → (f' : BloomFilter A) × (add_elements f (xs ++ e ∷ ys) ≡ ok f') × (exist f' e ≡ ok true)
  exist-add_elements f xs ys e r =
      let (f', run, ready, total, same, tests) = add_elements-test f (xs ++ e ∷ ys) r in
      (
        f',
        run,
        exist-all_positions f' e ready
            ∙ rw (total, same)
                (ap ok (
                  position_found f.total_bits e (used f) (test f'.bits_space) (λ q h.
                    tests q
                    ∙ ground (arith, is_position_of_middle f.total_bits xs ys e (used f) q h)))),
      )

  -- After additions to a ready filter `Exist` answers whether each position of the element was set
  -- before or is a position of an added element.
  pub exist_true-add_elements :
      (f : BloomFilter A) (xs : List A) (e : A)
      → IsReady f
      → (f' : BloomFilter A) × (add_elements f xs ≡ ok f')
        × (exist f' e
            ≡ ok (
                all_positions f.total_bits e
                  (used f)
                  (λ q. test f.bits_space q || is_position_of f.total_bits xs (used f) q)))
  exist_true-add_elements f xs e r =
      let (f', run, ready, total, same, tests) = add_elements-test f xs r in
      (f', run, exist-all_positions f' e ready ∙ rw (total, same, fun_ext tests))
