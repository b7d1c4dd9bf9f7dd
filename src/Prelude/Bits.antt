-- ===== src/Prelude/Bits.antt =====
-- Masks and shifts at every width, from the digit recursion that the native operations stand for.
use Prim.Native.Nat.{
  ℕ, zero, suc, ◌+◌, ◌-◌, ◌*◌, ◌/◌, ◌%◌, ◌^◌, ◌≤◌, ◌<◌, min, max, bit_and, bit_or, digits,
  bit_and-bitwise, bit_or-bitwise,
}
use mathlib.Core.Path.{◌≡◌, refl, ap, sym, ◌∙◌}
use native.Mathlib.Nat.{pow-suc, one-le-pow, div-add-mod', mod-lt}
use native.Mathlib.Omega.{arith}

-- More digits than the number has change nothing.
digits_more :
    (z : ℕ → ℕ) (f : ℕ → ℕ → ℕ) (n m a b : ℕ) → a ≤ n → a ≤ m → digits z f n a b ≡ digits z f m a b
digits_more z f zero zero zero b p q = refl
digits_more z f zero (suc m) zero b p q = refl
digits_more z f (suc n) zero zero b p q = refl
digits_more z f (suc n) (suc m) zero b p q = refl
digits_more z f zero m (suc a) b p q = absurd (omega arith)
digits_more z f (suc n) zero (suc a) b p q = absurd (omega arith)
digits_more z f (suc n) (suc m) (suc a) b p q =
    rw (digits_more z f n m (suc a / 2) (b / 2) (omega arith) (omega arith))

pub zero-bit_and : (x : ℕ) → bit_and 0 x ≡ 0
zero-bit_and x = bit_and-bitwise 0 x

-- Both operations act on the lowest digits, and on the halves for the others.
pub bit_or_step : (x y : ℕ) → bit_or x y ≡ max (x % 2) (y % 2) + 2 * bit_or (x / 2) (y / 2)
bit_or_step zero y = omega (arith, bit_or-bitwise 0 (y / 2), bit_or-bitwise 0 y)
bit_or_step (suc x) y =
    let half = suc x / 2 in
    let fuel = digits_more (λ y. y) max half x half (y / 2) (omega arith) (omega arith) in
    omega (arith, fuel, bit_or-bitwise half (y / 2), bit_or-bitwise (suc x) y)

pub bit_and_step : (x y : ℕ) → bit_and x y ≡ min (x % 2) (y % 2) + 2 * bit_and (x / 2) (y / 2)
bit_and_step zero y = omega (arith, zero-bit_and (y / 2), zero-bit_and y)
bit_and_step (suc x) y =
    let half = suc x / 2 in
    let fuel = digits_more (λ y. zero) min half x half (y / 2) (omega arith) (omega arith) in
    omega (arith, fuel, bit_and-bitwise half (y / 2), bit_and-bitwise (suc x) y)

bit_and-le_below : (n a b : ℕ) → a ≤ n → bit_and a b ≤ a
bit_and-le_below zero zero b h = omega (arith, zero-bit_and b)
bit_and-le_below zero (suc a) b h = absurd (omega arith)
bit_and-le_below (suc n) a b h =
    omega (arith, bit_and_step a b, bit_and-le_below n (a / 2) (b / 2) (omega arith))

pub bit_and-le : (a b : ℕ) → bit_and a b ≤ a
bit_and-le a b = bit_and-le_below a a b (omega arith)

bit_and_comm_below : (n a b : ℕ) → a ≤ n → b ≤ n → bit_and a b ≡ bit_and b a
bit_and_comm_below zero zero zero p q = refl
bit_and_comm_below zero (suc a) b p q = absurd (omega arith)
bit_and_comm_below zero zero (suc b) p q = absurd (omega arith)
bit_and_comm_below (suc n) a b p q =
    let half = bit_and_comm_below n (a / 2) (b / 2) (omega arith) (omega arith) in
    omega (arith, bit_and_step a b, bit_and_step b a, half)

pub bit_and_comm : (a b : ℕ) → bit_and a b ≡ bit_and b a
bit_and_comm a b = bit_and_comm_below (a + b) a b (omega arith) (omega arith)

bit_and-zero : (x : ℕ) → bit_and x 0 ≡ 0
bit_and-zero x = bit_and_comm x 0 ∙ zero-bit_and x

bit_or-zero_below : (bound x : ℕ) → x ≤ bound → x ≡ bit_or x 0
bit_or-zero_below bound zero le = refl
bit_or-zero_below zero (suc x) le = absurd (omega arith)
bit_or-zero_below (suc bound) (suc x) le =
    let rest = bit_or-zero_below bound (suc x / 2) (omega arith) in
    omega (arith, rest, bit_or_step (suc x) 0)

twice-pow : (q k : ℕ) → q * 2 ^ suc k ≡ 2 * (q * 2 ^ k)
twice-pow q k = omega (arith, ap (λ (t : ℕ). q * t) (pow-suc 2 k))

-- A mask of `k` ones keeps the digits below `2 ^ k`.
pub bit_and-ones : (k q r : ℕ) → r < 2 ^ k → bit_and (q * 2 ^ k + r) (2 ^ k - 1) ≡ r
bit_and-ones zero q r h = omega (arith, bit_and-zero (q * 1 + r))
bit_and-ones (suc k) q r h =
    let e : (q * 2 ^ suc k + r) / 2 ≡ q * 2 ^ k + r / 2 = omega (arith, twice-pow q k) in
    let m : (2 ^ suc k - 1) / 2 ≡ 2 ^ k - 1 = omega (arith, pow-suc 2 k) in
    let low : min ((q * 2 ^ suc k + r) % 2) ((2 ^ suc k - 1) % 2) + 2 * (r / 2) ≡ r =
      omega (arith, twice-pow q k, pow-suc 2 k, one-le-pow k 2 (omega arith)) in
    bit_and_step _ _ ∙ rw (e, m, bit_and-ones k q (r / 2) (omega (arith, pow-suc 2 k))) low

pub bit_and-low : (k x : ℕ) → bit_and x (2 ^ k - 1) ≡ x % 2 ^ k
bit_and-low k x =
    ap (λ (t : ℕ). bit_and t (2 ^ k - 1)) (sym (div-add-mod' x (2 ^ k)))
    ∙ bit_and-ones k (x / 2 ^ k) (x % 2 ^ k) (mod-lt x (one-le-pow k 2 (omega arith)))

-- Shifted digits and digits below them do not overlap.
pub bit_or_disjoint : (k q r : ℕ) → r < 2 ^ k → bit_or (q * 2 ^ k) r ≡ q * 2 ^ k + r
bit_or_disjoint zero q zero h = omega (arith, bit_or-zero_below (q * 1) (q * 1) (omega arith))
bit_or_disjoint zero q (suc r) h = absurd (omega arith)
bit_or_disjoint (suc k) q r h =
    let e : q * 2 ^ suc k / 2 ≡ q * 2 ^ k = omega (arith, twice-pow q k) in
    let low : max (q * 2 ^ suc k % 2) (r % 2) + 2 * (q * 2 ^ k + r / 2) ≡ q * 2 ^ suc k + r =
      omega (arith, twice-pow q k) in
    bit_or_step _ _ ∙ rw (e, bit_or_disjoint k q (r / 2) (omega (arith, pow-suc 2 k))) low

-- The binary digit at place `k`.
abbrev pub digit : ℕ → ℕ → ℕ
digit zero a = a % 2
digit (suc k) a = digit k (a / 2)

pub digit-bit_and : (k a b : ℕ) → digit k (bit_and a b) ≡ min (digit k a) (digit k b)
digit-bit_and zero a b = omega (arith, bit_and_step a b)
digit-bit_and (suc k) a b =
    let half : bit_and a b / 2 ≡ bit_and (a / 2) (b / 2) = omega (arith, bit_and_step a b) in
    rw half (digit-bit_and k (a / 2) (b / 2))

-- Digits below a mask of higher digits are cleared.
pub bit_and-high : (k q x : ℕ) → x < 2 ^ k → bit_and x (q * 2 ^ k) ≡ 0
bit_and-high zero q zero h = zero-bit_and (q * 1)
bit_and-high zero q (suc x) h = absurd (omega arith)
bit_and-high (suc k) q x h =
    let half : q * 2 ^ suc k / 2 ≡ q * 2 ^ k = omega (arith, twice-pow q k) in
    let rest : bit_and (x / 2) (q * 2 ^ suc k / 2) ≡ 0 =
      rw half (bit_and-high k q (x / 2) (omega (arith, pow-suc 2 k))) in
    omega (arith, bit_and_step x (q * 2 ^ suc k), twice-pow q k, rest)
