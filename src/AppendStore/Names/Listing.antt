-- ===== src/AppendStore/Names/Listing.antt =====
-- The largest chunk number is found again in the names that the chunks' files have.
use mathlib.Core.List.{reverse, reverse-cons}
use native.Mathlib.Nat.{pow-suc}
use bigarchive.Prelude.{
  ℕ, zero, suc, ◌+◌, ◌*◌, ◌/◌, ◌%◌, ◌^◌, ◌<◌, ◌≡◌, refl, ◌∙◌, ap, true, false, none, some, List, [],
  ◌∷◌, ◌++◌, map, All, arith, Option-cases, ltb, ◌==◌, Bool-cases, inl, inr, if◌then◌else◌,
}
use bigarchive.Prelude.Words.{hex_digit}
use bigarchive.AppendStore.Names.{
  Name, hex, hex_loop, hex_value, parse_hex, drop_0x, to_uint32, strtol_16, after_last_dot,
  starts_with_dat, is_space, chunk_number, max_loop, get_max_chunk_id,
}

-- a lower-case hexadecimal digit
abbrev IsHex : ℕ → Type 0
IsHex c = (d : ℕ) × (d < 16) × (c ≡ hex_digit d)

hex_value-hex_digit : (d : ℕ) → d < 16 → hex_value (hex_digit d) ≡ some d
unfolding hex_value
hex_value-hex_digit d h = ground arith

parse_hex-hex_digit :
    (v d : ℕ) (cs : List ℕ) → d < 16 → parse_hex v (hex_digit d ∷ cs) ≡ parse_hex (16 * v + d) cs
unfolding parse_hex
parse_hex-hex_digit v d cs h = rw (parse_hex, hex_value-hex_digit d h) refl

-- Reading the digits of `n` before others gives `n` as the value so far.
parse_hex-hex_loop :
    (f n : ℕ) (acc : List ℕ)
    → n < 16 ^ suc f
    → parse_hex 0 (hex_loop (suc f) n acc) ≡ parse_hex n acc
unfolding hex_loop
parse_hex-hex_loop zero n acc h =
    let last : (n / 16 == 0) ≡ true = ground arith in
    rw last (
      parse_hex-hex_digit 0 (n % 16) acc (omega arith)
      ∙ ap (λ (v : ℕ). parse_hex v acc) (omega arith))
parse_hex-hex_loop (suc f) n acc h = elim (Bool-cases (n / 16 == 0)) [
  | inl last ↦ rw last (
      parse_hex-hex_digit 0 (n % 16) acc (omega arith)
      ∙ ap (λ (v : ℕ). parse_hex v acc) (ground arith))
  | inr more ↦ rw more (
      parse_hex-hex_loop f (n / 16) (hex_digit (n % 16) ∷ acc)
        (omega (arith, h, pow-suc 16 (suc f)))
      ∙ parse_hex-hex_digit (n / 16) (n % 16) acc (omega arith)
      ∙ ap (λ (v : ℕ). parse_hex v acc) (omega arith))
]

hex_loop-IsHex : (f n : ℕ) (acc : List ℕ) → All IsHex acc → All IsHex (hex_loop f n acc)
unfolding hex_loop
hex_loop-IsHex zero n acc h = h
hex_loop-IsHex (suc f) n acc h =
    let here : IsHex (hex_digit (n % 16)) = (n % 16, omega arith, refl) in
    let more = hex_loop-IsHex f (n / 16) (hex_digit (n % 16) ∷ acc) (here, h) in
    elim (Bool-cases (n / 16 == 0)) [ inl last ↦ rw last (here, h) | inr further ↦ rw further more ]

drop_0x-IsHex : (cs : List ℕ) → All IsHex cs → drop_0x cs ≡ cs
unfolding drop_0x
drop_0x-IsHex [] h = refl
drop_0x-IsHex (z ∷ []) h = refl
drop_0x-IsHex (z ∷ x ∷ []) h = refl
drop_0x-IsHex (z ∷ x ∷ d ∷ cs) (hz, (hx, (hd, hs))) =
    let no_x : (x == b'x') ≡ false = rw hx.2 (ground (arith, hx.1)) in
    let no_big_x : (x == b'X') ≡ false = rw hx.2 (ground (arith, hx.1)) in
    rw (hd.2, drop_0x, hex_value-hex_digit hd.0 hd.1, no_x, no_big_x) (ground arith)

-- Digits alone are read as they are.
strtol_16-IsHex :
    (c : ℕ) (cs : List ℕ)
    → All IsHex (c ∷ cs)
    → strtol_16 (c ∷ cs) ≡ to_uint32 false (parse_hex 0 (c ∷ cs))
unfolding strtol_16
strtol_16-IsHex c cs (hc, hs) =
    let no_space : is_space c ≡ false = rw hc.2 (ground (arith, hc.1)) in
    let no_minus : (c == b'-') ≡ false = rw hc.2 (ground (arith, hc.1)) in
    let no_plus : (c == b'+') ≡ false = rw hc.2 (ground (arith, hc.1)) in
    rw (no_space, no_minus, no_plus, drop_0x-IsHex (c ∷ cs) (hc, hs)) refl

hex_loop-cons :
    (f n : ℕ) (acc : List ℕ) → (c : ℕ) × (cs : List ℕ) × (hex_loop (suc f) n acc ≡ c ∷ cs)
unfolding hex_loop
hex_loop-cons zero n acc = elim (Bool-cases (n / 16 == 0)) [
  | inl last ↦ (hex_digit (n % 16), acc, rw last refl)
  | inr more ↦ (hex_digit (n % 16), acc, rw more refl)
]
hex_loop-cons (suc f) n acc = elim (Bool-cases (n / 16 == 0)) [
  | inl last ↦ (hex_digit (n % 16), acc, rw last refl)
  | inr more ↦ rw more (hex_loop-cons f (n / 16) (hex_digit (n % 16) ∷ acc))
]

parse_hex-nil : (n : ℕ) → parse_hex n [] ≡ n
unfolding parse_hex
parse_hex-nil n = refl

to_uint32-small : (n : ℕ) → n < 2 ^ 32 → to_uint32 false n ≡ n
unfolding to_uint32
to_uint32-small n h = ground arith

-- What `%x` wrote of a `uint32_t`, `strtol` reads.
pub strtol_16-hex : (n : ℕ) → n < 2 ^ 32 → strtol_16 (hex n) ≡ n
unfolding hex
strtol_16-hex n h =
    let (c, cs, e) = hex_loop-cons 7 n [] in
    let digits : All IsHex (c ∷ cs) = rw e at (hex_loop-IsHex 8 n [] tt) in
    let value : parse_hex 0 (c ∷ cs) ≡ n =
      rw (← e) (parse_hex-hex_loop 7 n [] h ∙ parse_hex-nil n) in
    rw e (strtol_16-IsHex c cs digits ∙ rw value (to_uint32-small n h))

after_last_dot-IsHex : (cs : List ℕ) → All IsHex cs → after_last_dot cs ≡ none
unfolding after_last_dot
after_last_dot-IsHex [] h = refl
after_last_dot-IsHex (c ∷ cs) ((d, small, e), hs) =
    let no_dot : (c == b'.') ≡ false = rw e (ground (arith, small)) in
    rw (after_last_dot, after_last_dot-IsHex cs hs, no_dot) refl

-- An entry of the data directory: the data file of a chunk, or a file of another name.
pub data Listed : Type 0 where
  chunk : ℕ → Listed
  other : Name → Listed

abbrev pub name_of : Listed → Name
name_of (chunk id) = b'd' ∷ b'a' ∷ b't' ∷ b'.' ∷ hex id
name_of (other name) = name

abbrev pub IsListed : Listed → Type 0
IsListed (chunk id) = id < 2 ^ 16
IsListed (other name) = starts_with_dat name ≡ false

-- the largest chunk number, or 0 for no chunk
abbrev pub largest : List Listed → ℕ
largest [] = 0
largest (chunk id ∷ es) = if ltb (largest es) id then id else largest es
largest (other name ∷ es) = largest es

chunk_number-chunk : (id : ℕ) → id < 2 ^ 16 → chunk_number (name_of (chunk id)) ≡ some id
unfolding chunk_number after_last_dot starts_with_dat
chunk_number-chunk id h =
    rw (chunk_number, after_last_dot-IsHex (hex id) (hex-IsHex id), strtol_16-hex id (omega arith))
      refl
  where
    hex-IsHex : (n : ℕ) → All IsHex (hex n)
    hex-IsHex n = unfold hex in hex_loop-IsHex 8 n [] tt

chunk_number-other : (name : Name) → starts_with_dat name ≡ false → chunk_number name ≡ none
unfolding chunk_number
chunk_number-other name h = elim (Option-cases (after_last_dot name)) [
  | inl e ↦ rw (chunk_number, e) refl
  | inr (ext, e) ↦ rw (chunk_number, e, h) refl
]

max_loop-append : (m : ℕ) (xs ys : List Name) → max_loop m (xs ++ ys) ≡ max_loop (max_loop m xs) ys
unfolding max_loop
max_loop-append m [] ys = refl
max_loop-append m (x ∷ xs) ys = elim (Option-cases (chunk_number x)) [
  | inl e ↦ rw (max_loop, e) (max_loop-append m xs ys)
  | inr (id, e) ↦ rw (max_loop, e) (max_loop-append (if ltb m id then id else m) xs ys)
]

max_loop-largest :
    (es : List Listed) → All IsListed es → max_loop 0 (reverse (map name_of es)) ≡ largest es
unfolding max_loop
max_loop-largest [] h = refl
max_loop-largest (e ∷ es) (h, hs) =
    rw (reverse-cons, max_loop-append, max_loop-largest es hs) (last e es h)
  where
    last :
        (e : Listed) (es : List Listed)
        → IsListed e
        → max_loop (largest es) (name_of e ∷ []) ≡ largest (e ∷ es)
    last (chunk id) es h = rw (max_loop, chunk_number-chunk id h) refl
    last (other name) es h = rw (max_loop, chunk_number-other name h) refl

largest_bound : (es : List Listed) → All IsListed es → largest es < 2 ^ 16
largest_bound [] h = omega arith
largest_bound (chunk id ∷ es) (h, hs) = ground (arith, largest_bound es hs)
largest_bound (other name ∷ es) (h, hs) = largest_bound es hs

-- On a listing of data files of 16-bit chunk numbers and of files whose names do not start with
-- dat, `GetMaxChunkID` gives the largest of the numbers, and 0 if there is none.
pub get_max_chunk_id-largest :
    (es : List Listed) → All IsListed es → get_max_chunk_id (map name_of es) ≡ largest es
unfolding get_max_chunk_id
get_max_chunk_id-largest es h =
    let small = largest_bound es h in rw (max_loop-largest es h) (omega arith)
