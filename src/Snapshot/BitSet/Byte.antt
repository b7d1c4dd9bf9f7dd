-- ===== src/Snapshot/BitSet/Byte.antt =====
-- One bit of a byte, for every byte and every pair of places, checked by evaluation.
use bigarchive.Prelude.{
  ℕ, zero, suc, ◌/◌, ◌<◌, ◌≡◌, refl, Bool, true, false, not, ◌&&◌, ◌||◌, bit_and, bit_or, ◌==◌, ltb,
  arith,
}
use Prim.Native.Nat.{◌-◌, ◌≤◌}
use bigarchive.Prelude.Bits.{digit, digit-bit_and}
use bigarchive.Snapshot.BitSet.{mask}

-- Whether the bit at a place of the byte is set, as the C++ condition `byte & mask` is read.
abbrev pub bit_at : ℕ → ℕ → Bool
bit_at byte place = not (bit_and byte (mask place) == 0)

bool_eq : Bool → Bool → Bool
bool_eq true b = b
bool_eq false b = not b

bool_eq→≡ : (a b : Bool) → bool_eq a b ≡ true → a ≡ b
unfolding bool_eq
bool_eq→≡ true b h = ground arith
bool_eq→≡ false b h = ground arith

-- Every number below `n` passes.
all_below : ℕ → (ℕ → Bool) → Bool
all_below zero p = true
all_below (suc n) p = p n && all_below n p

all_below-lt : (n : ℕ) (p : ℕ → Bool) (x : ℕ) → all_below n p ≡ true → x < n → p x ≡ true
unfolding all_below
all_below-lt zero p x h lt = absurd (omega arith)
all_below-lt (suc n) p x h lt = ground (arith, all_below-lt n p x)

or_test : ℕ → ℕ → ℕ → Bool
or_test i j b =
    ltb (bit_or b (mask i)) 256 && bool_eq (bit_at (bit_or b (mask i)) j) (bit_at b j || i == j)

or_table : all_below 8 (λ i. all_below 8 (λ j. all_below 256 (or_test i j))) ≡ true
unfolding all_below or_test bool_eq
or_table = refl

pub bit_at-bit_or :
    (i j b : ℕ)
    → i < 8
    → j < 8
    → b < 256
    → (bit_or b (mask i) < 256) × (bit_at (bit_or b (mask i)) j ≡ (bit_at b j || i == j))
unfolding or_test
bit_at-bit_or i j b hi hj hb =
    let row = all_below-lt 8 (λ i. all_below 8 (λ j. all_below 256 (or_test i j))) i or_table hi in
    let cell =
      all_below-lt 256 (or_test i j) b (all_below-lt 8 (λ j. all_below 256 (or_test i j)) j row hj)
        hb in
    ground (arith, cell, bool_eq→≡ (bit_at (bit_or b (mask i)) j) (bit_at b j || i == j))

digit_test : ℕ → ℕ → Bool
digit_test j b = bool_eq (bit_at b j) (digit (7 - j) b == 1)

digit_table : all_below 8 (λ j. all_below 256 (digit_test j)) ≡ true
unfolding all_below digit_test bool_eq
digit_table = refl

bit_at-digit : (j b : ℕ) → j < 8 → b < 256 → bit_at b j ≡ (digit (7 - j) b == 1)
unfolding digit_test
bit_at-digit j b hj hb = bool_eq→≡ _ _ (
    all_below-lt 256 (digit_test j) b
      (all_below-lt 8 (λ j. all_below 256 (digit_test j)) j digit_table hj) hb)

digit-le : (k a : ℕ) → digit k a ≤ 1
digit-le zero a = omega arith
digit-le (suc k) a = digit-le k (a / 2)

-- The bits of a conjunction of bytes.
pub bit_at-bit_and :
    (j a b : ℕ)
    → j < 8
    → a < 256
    → b < 256
    → bit_and a b < 256
    → bit_at (bit_and a b) j ≡ (bit_at a j && bit_at b j)
bit_at-bit_and j a b hj ha hb hc =
    rw
      (
        bit_at-digit j a hj ha,
        bit_at-digit j b hj hb,
        bit_at-digit j (bit_and a b) hj hc,
        digit-bit_and (7 - j) a b,
      )
      (ground (arith, digit-le (7 - j) a, digit-le (7 - j) b))
