-- ===== src/AppendStore/Index/Search.antt =====
-- `bisearch` is the lower bound of the key.
use bigarchive.Prelude.{
  ℕ, zero, suc, ◌+◌, ◌-◌, ◌/◌, ◌≤◌, ◌<◌, ◌≡◌, refl, ◌⊎◌, inl, inr, true, none, some, List, [], ◌∷◌,
  length, get_elem?, ltb, leb, ◌&&◌, ◌==◌, if◌then◌else◌, arith, Bool-cases,
}
use bigarchive.AppendStore.Index.{
  IndexRecord, here, go_right, go_left, probe, past_or_before, follow, bisearch_loop, bisearch,
  find,
}

-- Each record's index is at least that of the one before it, and at least `low`.
abbrev pub IsAscendingFrom : ℕ → List IndexRecord → Type 0
IsAscendingFrom low [] = Unit {0}
IsAscendingFrom low (x ∷ xs) = (low ≤ x.index) × IsAscendingFrom x.index xs

abbrev pub IsAscending : List IndexRecord → Type 0
IsAscending = IsAscendingFrom 0

-- How many records stand in front of the first one whose index is at least `key`.
abbrev pub count_below : ℕ → List IndexRecord → ℕ
count_below key [] = 0
count_below key (x ∷ xs) = if leb key x.index then 0 else suc (count_below key xs)

count_below-le : (key : ℕ) (v : List IndexRecord) → count_below key v ≤ length v
count_below-le key [] = omega arith
count_below-le key (x ∷ xs) = ground (arith, count_below-le key xs)

-- Every position in the vector has a record, below the key in front of the bound …
below_bound :
    (key i : ℕ) (v : List IndexRecord)
    → i < count_below key v
    → (x : IndexRecord) × (get_elem? v i ≡ some x) × (x.index < key)
below_bound key i [] h = absurd (omega arith)
below_bound key zero (x ∷ xs) h = (x, refl, ground arith)
below_bound key (suc i) (x ∷ xs) h = below_bound key i xs (ground arith)

ascending_at :
    (low i : ℕ) (v : List IndexRecord)
    → IsAscendingFrom low v
    → i < length v
    → (x : IndexRecord) × (get_elem? v i ≡ some x) × (low ≤ x.index)
ascending_at low i [] s h = absurd (omega arith)
ascending_at low zero (x ∷ xs) s h = (x, refl, s.0)
ascending_at low (suc i) (x ∷ xs) s h =
    let (y, e, le) = ascending_at x.index i xs s.1 (omega arith) in (y, e, omega (arith, s.0))

-- … and at least the key from there on.
from_bound :
    (low key i : ℕ) (v : List IndexRecord)
    → IsAscendingFrom low v
    → count_below key v ≤ i
    → i < length v
    → (x : IndexRecord) × (get_elem? v i ≡ some x) × (key ≤ x.index)
from_bound low key i [] s le h = absurd (omega arith)
from_bound low key zero (x ∷ xs) s le h = (x, refl, ground arith)
from_bound low key (suc i) (x ∷ xs) s le h = elim (Bool-cases (leb key x.index)) [
  | inl e ↦ let (y, at, ge) = ascending_at x.index i xs s.1 (omega arith) in (y, at, ground arith)
  | inr e ↦ from_bound x.index key i xs s.1 (ground arith) (omega arith)
]

module _ (v : List IndexRecord) (key : ℕ) (sorted : IsAscending v) where
  -- What a round decides, by where `mid` stands.
  probe_at :
      (mid : ℕ)
      → mid < length v
      → probe v key mid
        ≡ some (
            if ltb mid (count_below key v)
            then go_right
            else if mid == count_below key v
            then here
            else go_left)
  unfolding probe
  probe_at mid h = elim (Bool-cases (ltb mid (count_below key v))) [
    | inl before ↦
        let (x, e, lt) = below_bound key mid v (ground arith) in
        rw (before, e, probe) (ground arith)
    | inr after ↦
        let (x, e, ge) = from_bound 0 key mid v sorted (ground arith) h in
        elim (Bool-cases (mid == count_below key v)) [
          | inl at ↦ rw (after, at, e, probe) (first_at mid x at ge)
          | inr past ↦
              let (y, e', ge') = from_bound 0 key (mid - 1) v sorted (ground arith) (omega arith) in
              rw (after, past, e, e', probe) (ground arith)
        ]
  ]
    where
      first_at :
          (mid : ℕ) (x : IndexRecord)
          → (mid == count_below key v) ≡ true
          → key ≤ x.index
          → (if leb key x.index && mid == 0
              then some here
              else if leb key x.index
              then (elim (get_elem? v (mid - 1)) [
                | none ↦ none
                | some y ↦ if ltb y.index key then some here else some (past_or_before key x)
              ])
              else some (past_or_before key x))
            ≡ some here
      first_at zero x at ge = ground arith
      first_at (suc m) x at ge =
          let m_sub : suc m - 1 ≡ m = omega arith in
          let (y, e, lt) = below_bound key m v (ground arith) in rw (m_sub, e) (ground arith)

  bisearch_loop_lem :
      (fuel first end : ℕ)
      → end < first + fuel
      → first ≤ count_below key v
      → end ≤ length v
      → first ≤ end
      → (count_below key v < end) ⊎ (end ≡ length v)
      → bisearch_loop fuel v key first end
        ≡ some (ltb (count_below key v) (length v), count_below key v)
  unfolding bisearch_loop follow
  bisearch_loop_lem zero first end f a b c d = absurd (omega arith)
  bisearch_loop_lem (suc fuel) first end f a b c d =
      let mid : ℕ = (first + (end - 1)) / 2 in
      let bound : ℕ = count_below key v in
      elim (Bool-cases (ltb first end)) [
        | inl more ↦
            rw (more, bisearch_loop)
              (rw (probe_at mid (ground arith)) (elim (Bool-cases (ltb mid bound)) [
                | inl before ↦ rw before (
                    bisearch_loop_lem fuel (mid + 1) end (ground arith) (ground arith) b
                      (ground arith) d)
                | inr after ↦ rw after (elim (Bool-cases (mid == bound)) [
                  | inl at ↦ rw at (ground arith)
                  | inr past ↦ rw past (
                      bisearch_loop_lem fuel first mid (ground arith) a (ground arith)
                        (ground arith) (inl (ground arith)))
                ])
              ]))
        | inr done ↦ rw (done, bisearch_loop) (ground (arith, count_below-le key v))
      ]

  pub find-count_below : find v key ≡ some (count_below key v)
  unfolding find bisearch
  find-count_below =
      let bound = count_below-le key v in
      rw
        (bisearch_loop_lem (suc (length v)) 0 (0 + length v) (omega arith) (omega arith)
          (omega arith) (omega arith) (inr (omega arith)))
        (ground arith)
