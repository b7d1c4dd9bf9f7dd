-- ===== src/Snapshot/Bloom/Resets.antt =====
-- `Clear`, `Reset` and the constructor.
use bigarchive.Prelude.{
  ℕ, suc, ◌≤◌, ◌<◌, ◌≡◌, refl, subst, ap, false, List, [], ◌∷◌, ◌++◌, length, take, ◌==◌, arith,
  zero,
}
use bigarchive.Exception.{ok}
use bigarchive.Snapshot.BitSet
use bigarchive.Snapshot.BitSet.Laws.{IsEmptyOf, clear-IsEmptyOf}
use bigarchive.Snapshot.Bloom
use bigarchive.Snapshot.Bloom.{BloomFilter, used, push_functions}
use bigarchive.Snapshot.Bloom.Positions.{IsReady}

take-append_le {ℓ} :
    {A : Type ℓ} (n : ℕ) (xs ys : List A) → n ≤ length xs → take n (xs ++ ys) ≡ take n xs
take-append_le zero xs ys h = refl
take-append_le (suc n) [] ys h = absurd (omega arith)
take-append_le (suc n) (x ∷ xs) ys h =
    ap (λ (t : List _). x ∷ t) (take-append_le n xs ys (omega arith))

module _ {A : Type 0} where
  -- `Clear` empties a ready filter and keeps its size and functions.
  pub clear_lem :
      (f : BloomFilter A)
      → IsReady f
      → IsReady (Bloom.clear f)
        × IsEmptyOf f.total_bits (Bloom.clear f).bits_space
        × (used (Bloom.clear f) ≡ used f)
  unfolding Bloom.clear
  clear_lem f r =
      let empty =
        subst (λ (n : ℕ). IsEmptyOf n (BitSet.clear f.bits_space)) r.same_total
          (clear-IsEmptyOf f.bits_space r.well_formed) in
      (
        record { well_formed = empty.well_formed; same_total = empty.total; positive = r.positive },
        empty,
        refl,
      )

  -- After `Reset` of a ready filter to at least one and no more functions than it had, the filter
  -- is ready and empty, and it uses the first of the old functions, whatever new ones were given.
  pub reset_keeps_old :
      (f : BloomFilter A) (array : List (A → ℕ)) (num : ℕ)
      → IsReady f
      → 0 < num
      → num ≤ length f.hash_functions
      → (f' : BloomFilter A) × (Bloom.reset f array num ≡ ok f')
        × IsReady f'
        × IsEmptyOf f.total_bits f'.bits_space
        × (used f' ≡ take num f.hash_functions)
  unfolding Bloom.reset push_functions Bloom.clear
  reset_keeps_old f array num r pos enough =
      let more : (num == 0) ≡ false = ground arith in
      let empty =
        subst (λ (n : ℕ). IsEmptyOf n (BitSet.clear f.bits_space)) r.same_total
          (clear-IsEmptyOf f.bits_space r.well_formed) in
      (
        _,
        rw more,
        record { well_formed = empty.well_formed; same_total = empty.total; positive = r.positive },
        empty,
        take-append_le num f.hash_functions (take num array) enough,
      )
