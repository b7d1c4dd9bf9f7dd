-- ===== src/Prelude/Words.antt =====
-- Little-endian words of `w` bytes, as `(char*)&t` shows an unsigned integer in memory.
use Prim.Native.Nat.{ℕ, zero, suc, ◌+◌, ◌-◌, ◌*◌, ◌/◌, ◌%◌, ◌^◌, ◌<◌}
use mathlib.Core.List.{List, [], ◌∷◌, ◌++◌}
use mathlib.Core.Path.{◌≡◌, refl, ap}
use native.Mathlib.Nat.{pow-suc}
use native.Mathlib.Omega.{arith}
use bigarchive.Prelude.Lists.{length, drop, All}
use bigarchive.Prelude.Tests.{ltb, if◌then◌else◌}

abbrev pub IsByte : ℕ → Type 0
IsByte b = b < 256

unfoldable pub bytes_of : ℕ → ℕ → List ℕ
bytes_of zero n = []
bytes_of (suc w) n = (n % 256) ∷ bytes_of w (n / 256)

unfoldable pub of_bytes : List ℕ → ℕ
of_bytes [] = 0
of_bytes (b ∷ bs) = b + 256 * of_bytes bs

pub length-bytes_of : (w n : ℕ) → length (bytes_of w n) ≡ w
unfolding bytes_of
length-bytes_of zero n = refl
length-bytes_of (suc w) n = ap suc (length-bytes_of w (n / 256))

pub bytes_of-IsByte : (w n : ℕ) → All IsByte (bytes_of w n)
unfolding bytes_of
bytes_of-IsByte zero n = tt
bytes_of-IsByte (suc w) n = (omega arith, bytes_of-IsByte w (n / 256))

-- A word that fits its bytes is read back.
pub of_bytes-bytes_of : (w n : ℕ) → n < 256 ^ w → of_bytes (bytes_of w n) ≡ n
unfolding bytes_of of_bytes
of_bytes-bytes_of zero n h = omega arith
of_bytes-bytes_of (suc w) n h =
    omega (arith, of_bytes-bytes_of w (n / 256) (omega (arith, pow-suc 256 w)))

pub of_bytes-lt : (bs : List ℕ) → All IsByte bs → of_bytes bs < 256 ^ length bs
unfolding of_bytes
of_bytes-lt [] h = omega arith
of_bytes-lt (b ∷ bs) h = omega (arith, of_bytes-lt bs h.1, pow-suc 256 (length bs))

-- `memcpy` of `got` over the front of an object whose bytes were `old`.
abbrev pub overwrite : List ℕ → List ℕ → List ℕ
overwrite got old = got ++ drop (length got) old

-- `%x` of a digit below sixteen
abbrev pub hex_digit : ℕ → ℕ
hex_digit n = if ltb n 10 then b'0' + n else b'a' + (n - 10)
