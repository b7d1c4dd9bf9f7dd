-- ===== src/Marshal/Stream.antt =====
-- The `std::istream` that include/serialize.h reads from, as the C++ standard describes `read`: a
-- stream that is not good reads nothing and fails; a short read takes what is left and sets both
-- flags. The bad bit is not modelled, since nothing sets it on a stream over memory.
use bigarchive.Prelude.{
  ℕ, ◌≡◌, refl, Bool, true, false, ◌||◌, List, [], ◌∷◌, ◌++◌, length, take, drop, leb,
  if◌then◌else◌, ap, length-append, Bool-cases, inl, inr, arith,
}
use bigarchive.Exception.{Result, ok, err}

pub record IStream : Type 0 where
  pub rest : List ℕ
  pub eof : Bool
  pub fail : Bool

-- A stream over the bytes `bs`, before any read.
abbrev pub good : List ℕ → IStream
good bs = record { rest = bs; eof = false; fail = false }

-- `is.read(p, n)`: the bytes that are stored through `p` (`is.gcount()` is their number).
unfoldable pub read : ℕ → IStream → List ℕ × IStream
read n s =
    if s.fail || s.eof
    then ([], record s { fail = true })
    else if leb n (length s.rest)
    then (take n s.rest, record s { rest = drop n s.rest })
    else (s.rest, record { rest = []; eof = true; fail = true })

abbrev pub Parser : Type 0 → Type 0
Parser A = IStream → Result (A × IStream)

infixl 5 ◌>>=◌
abbrev pub ◌>>=◌ : {A B : Type 0} → Parser A → (A → Parser B) → Parser B
◌>>=◌ m f s = elim (m s) [ ok (a, s') ↦ f a s' | err e ↦ err e ]

abbrev pub pure : {A : Type 0} → A → Parser A
pure a s = ok (a, s)

-- A step of a `do` block that returned.
pub >>=-ok :
    {A B : Type 0} (m : Parser A) (f : A → Parser B) {s s' : IStream} {a : A}
    → m s ≡ ok (a, s')
    → (m >>= f) s ≡ f a s'
>>=-ok m f {s} e = rw (e, ◌>>=◌)

pub take-append : (xs ys : List ℕ) → take (length xs) (xs ++ ys) ≡ xs
take-append [] ys = refl
take-append (x ∷ xs) ys = ap (λ (t : List ℕ). x ∷ t) (take-append xs ys)

pub drop-append : (xs ys : List ℕ) → drop (length xs) (xs ++ ys) ≡ ys
drop-append [] ys = refl
drop-append (x ∷ xs) ys = drop-append xs ys

-- A read of exactly the bytes in front.
pub read-append :
    (bs rest : List ℕ) {n : ℕ} → length bs ≡ n → read n (good (bs ++ rest)) ≡ (bs, good rest)
unfolding read
read-append bs rest e = rw (← e) (elim (Bool-cases (leb (length bs) (length (bs ++ rest)))) [
  | inl fits ↦ rw (fits, take-append, drop-append)
  | inr short ↦ absurd (ground (arith, length-append bs rest))
])
