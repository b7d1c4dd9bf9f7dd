-- ===== src/Snapshot/Bloom/Positions.antt =====
-- A filter as a set of positions: what `AddElement` sets and `Exist` asks.
use bigarchive.Prelude.{
  ℕ, ◌%◌, ◌<◌, ◌≡◌, refl, ◌∙◌, Bool, true, false, not, ◌&&◌, ◌||◌, List, [], ◌∷◌, ◌==◌, leb,
  if◌then◌else◌, arith, Bool-cases, inl, inr,
}
use bigarchive.Exception.{Result, ok}
use bigarchive.Snapshot.BitSet.{BitSet}
use bigarchive.Snapshot.BitSet.Laws.{IsWellFormed, test, set_position-Sets, get_position-test}
use bigarchive.Snapshot.Bloom.{
  BloomFilter, used, calculate_position, add_loop, add_element, exist_loop, exist,
}

pub or_false : (x : Bool) → x ≡ (x || false)
or_false true = refl
or_false false = refl

pub or_assoc : (x y z : Bool) → ((x || y) || z) ≡ (x || (y || z))
or_assoc true y z = refl
or_assoc false y z = refl

-- The bit set is well formed, has the size that the filter goes by, and is not empty.
pub record IsReady {A : Type 0} (f : BloomFilter A) : Type 0 where
  pub well_formed : IsWellFormed f.bits_space
  pub same_total : f.bits_space.total_bits ≡ f.total_bits
  pub positive : 0 < f.total_bits

module _ {A : Type 0} where
  -- Whether a position is one of the element's.
  abbrev pub is_position : ℕ → A → List (A → ℕ) → ℕ → Bool
  is_position total elem [] q = false
  is_position total elem (h ∷ hs) q = h elem % total == q || is_position total elem hs q

  -- Whether all of the element's positions pass.
  abbrev pub all_positions : ℕ → A → List (A → ℕ) → (ℕ → Bool) → Bool
  all_positions total elem [] p = true
  all_positions total elem (h ∷ hs) p = p (h elem % total) && all_positions total elem hs p

  add_loop-test :
      (total : ℕ) (elem : A) (hs : List (A → ℕ)) (bits : BitSet)
      → IsWellFormed bits
      → bits.total_bits ≡ total
      → 0 < total
      → (bits' : BitSet) × (add_loop total elem hs bits ≡ ok bits')
        × IsWellFormed bits'
        × (bits'.total_bits ≡ total)
        × ((q : ℕ) → test bits' q ≡ (test bits q || is_position total elem hs q))
  unfolding add_loop calculate_position
  add_loop-test total elem [] bits w e pos = (bits, refl, w, e, λ q. or_false (test bits q))
  add_loop-test total elem (h ∷ hs) bits w e pos =
      let p = h elem % total in
      let in_range : p < total = omega arith in
      let inside : leb total p ≡ false = ground arith in
      let (bits₁, set, sets) = set_position-Sets bits p w (rw e in_range) in
      let (bits₂, run, w₂, e₂, tests) =
        add_loop-test total elem hs bits₁ sets.well_formed (sets.same_total ∙ e) pos in
      (
        bits₂,
        rw (inside, set) run,
        w₂,
        e₂,
        λ q.
            tests q
            ∙ rw (sets.tests q) (or_assoc (test bits q) (p == q) (is_position total elem hs q)),
      )

  exist_loop-test :
      (total : ℕ) (elem : A) (hs : List (A → ℕ)) (bits : BitSet)
      → bits.total_bits ≡ total
      → 0 < total
      → exist_loop total elem hs bits ≡ ok (all_positions total elem hs (test bits))
  unfolding exist_loop calculate_position
  exist_loop-test total elem [] bits e pos = refl
  exist_loop-test total elem (h ∷ hs) bits e pos =
      let p = h elem % total in
      let inside : leb total p ≡ false = ground arith in
      elim (get_position-test bits p) [
        | inl (v, get, tested, lt) ↦
            rw (inside, get, exist_loop-test total elem hs bits e pos, ← tested) (by_byte v _)
        | inr (bad, bad', ge) ↦ absurd (omega (arith, e))
      ]
    where
      by_byte :
          (v : ℕ) (b : Bool)
          → ◌≡◌ {A = Result Bool} (if v == 0 then ok false else ok b) (ok (not (v == 0) && b))
      by_byte v b = elim (Bool-cases (v == 0)) [ inl e ↦ rw e | inr e ↦ rw e ]

  -- `AddElement` of a ready filter does not throw: the filter stays ready, with the element's
  -- positions set and every other bit and member as it was.
  pub record Adds (f : BloomFilter A) (elem : A) (f' : BloomFilter A) : Type 0 where
    pub ready : IsReady f'
    pub same_total : f'.total_bits ≡ f.total_bits
    pub same_used : used f' ≡ used f
    pub tests :
        (q : ℕ)
        → test f'.bits_space q ≡ (test f.bits_space q || is_position f.total_bits elem (used f) q)

  pub add_element-Adds :
      (f : BloomFilter A) (elem : A)
      → IsReady f
      → (f' : BloomFilter A) × (add_element f elem ≡ ok f') × Adds f elem f'
  unfolding add_element
  add_element-Adds f elem r =
      let (bits, run, w, e, tests) =
        add_loop-test f.total_bits elem (used f) f.bits_space r.well_formed r.same_total
          r.positive in
      (
        record f { bits_space = bits },
        rw run,
        record {
          ready = record { well_formed = w; same_total = e; positive = r.positive };
          same_total = refl;
          same_used = refl;
          tests = tests;
        },
      )

  -- `Exist` on a ready filter does not throw, and answers whether all positions of the element are
  -- set.
  pub exist-all_positions :
      (f : BloomFilter A) (elem : A)
      → IsReady f
      → exist f elem ≡ ok (all_positions f.total_bits elem (used f) (test f.bits_space))
  unfolding exist
  exist-all_positions f elem r =
      exist_loop-test f.total_bits elem (used f) f.bits_space r.same_total r.positive
