-- ===== src/AppendStore/Names.antt =====
-- append-store/append_store_chunk.cpp: the names of a chunk's files, and the largest chunk number
-- of a directory listing. A name is its bytes. `sprintf` writes into 1024 bytes: a longer name has no
-- defined result in C++.

pub mod Listing
use bigarchive.Prelude.{
  ℕ, zero, suc, ◌+◌, ◌-◌, ◌*◌, ◌/◌, ◌%◌, ◌^◌, Bool, true, false, ◌&&◌, ◌||◌, not, Option, none,
  some, List, [], ◌∷◌, ◌++◌, ltb, leb, ◌==◌, if◌then◌else◌,
}
use mathlib.Core.List.{reverse}
use bigarchive.Prelude.Words.{hex_digit}

abbrev pub Name : Type 0
Name = List ℕ

abbrev pub idx_dir : Name
idx_dir = b'i' ∷ b'n' ∷ b'd' ∷ b'e' ∷ b'x' ∷ b'/' ∷ []

abbrev pub dat_dir : Name
dat_dir = b'd' ∷ b'a' ∷ b't' ∷ b'a' ∷ b'/' ∷ []

abbrev pub log_dir : Name
log_dir = b'l' ∷ b'o' ∷ b'g' ∷ b'/' ∷ []

-- `%x` of a number that `f` digits hold, before `acc`
unfoldable pub hex_loop : ℕ → ℕ → List ℕ → List ℕ
hex_loop zero n acc = acc
hex_loop (suc f) n acc =
    let acc' = hex_digit (n % 16) ∷ acc in
    let more = hex_loop f (n / 16) acc' in if n / 16 == 0 then acc' else more

-- `%x` of a `uint32_t`
unfoldable pub hex : ℕ → List ℕ
hex n = hex_loop 8 n []

unfoldable pub get_idx_fname : Name → ℕ → Name
get_idx_fname root chunk_id = root ++ (idx_dir ++ (b'i' ∷ b'd' ∷ b'x' ∷ b'.' ∷ hex chunk_id))

unfoldable pub get_idx_log_fname : Name → ℕ → Name
get_idx_log_fname root chunk_id = root ++ (log_dir ++ (b'l' ∷ b'o' ∷ b'g' ∷ b'.' ∷ hex chunk_id))

unfoldable pub get_dat_fname : Name → ℕ → Name
get_dat_fname root chunk_id = root ++ (dat_dir ++ (b'd' ∷ b'a' ∷ b't' ∷ b'.' ∷ hex chunk_id))

unfoldable pub get_log_fname : Name → ℕ → Name
get_log_fname root chunk_id = root ++ (log_dir ++ (b'l' ∷ b'o' ∷ b'g' ∷ b'.' ∷ hex chunk_id))

-- `find("dat") == 0`
unfoldable pub starts_with_dat : Name → Bool
starts_with_dat (d ∷ a ∷ t ∷ rest) = d == b'd' && a == b'a' && t == b't'
starts_with_dat _ = false

-- `substr(find_last_of('.') + 1)`, or `none` for no dot
unfoldable pub after_last_dot : Name → Option Name
after_last_dot [] = none
after_last_dot (c ∷ cs) = elim (after_last_dot cs) [
  | some ext ↦ some ext
  | none ↦ if c == b'.' then some cs else none
]

unfoldable pub hex_value : ℕ → Option ℕ
hex_value c =
    if leb b'0' c && leb c b'9'
    then some (c - b'0')
    else if leb b'a' c && leb c b'f'
    then some (c - b'a' + 10)
    else if leb b'A' c && leb c b'F'
    then some (c - b'A' + 10)
    else none

-- the digits from the front, behind the value so far
unfoldable pub parse_hex : ℕ → List ℕ → ℕ
parse_hex v [] = v
parse_hex v (c ∷ cs) = elim (hex_value c) [ none ↦ v | some d ↦ parse_hex (16 * v + d) cs ]

-- `0x` counts only before a digit, and is dropped there
unfoldable pub drop_0x : List ℕ → List ℕ
drop_0x (z ∷ x ∷ d ∷ cs) = elim (hex_value d) [
  | none ↦ z ∷ x ∷ d ∷ cs
  | some v ↦ if z == b'0' && (x == b'x' || x == b'X') then d ∷ cs else z ∷ x ∷ d ∷ cs
]
drop_0x cs = cs

-- `strtol` of the digits as a `uint32_t`: a `long` of 64 bits that does not hold the value is its bound.
unfoldable pub to_uint32 : Bool → ℕ → ℕ
to_uint32 negative v =
    let top : ℕ = if negative then 2 ^ 63 else 2 ^ 63 - 1 in
    let capped : ℕ = if leb v top then v else top in
    if negative then (2 ^ 64 - capped) % 2 ^ 32 else capped % 2 ^ 32

abbrev pub is_space : ℕ → Bool
is_space c = c == b' ' || leb 9 c && leb c 13

-- `(uint32_t) strtol(ext, 0, 16)`
unfoldable pub strtol_16 : List ℕ → ℕ
strtol_16 [] = 0
strtol_16 (c ∷ cs) =
    let rest = strtol_16 cs in
    if is_space c
    then rest
    else if c == b'-'
    then to_uint32 true (parse_hex 0 (drop_0x cs))
    else if c == b'+'
    then to_uint32 false (parse_hex 0 (drop_0x cs))
    else to_uint32 false (parse_hex 0 (drop_0x (c ∷ cs)))

-- the number of a file of the data directory, if it has one
unfoldable pub chunk_number : Name → Option ℕ
chunk_number name = elim (after_last_dot name) [
  | none ↦ none
  | some ext ↦ if starts_with_dat name then some (strtol_16 ext) else none
]

-- the loop of `GetMaxChunkID`, on the names from the last to the first
unfoldable pub max_loop : ℕ → List Name → ℕ
max_loop chunk_id [] = chunk_id
max_loop chunk_id (name ∷ names) = elim (chunk_number name) [
  | none ↦ max_loop chunk_id names
  | some id ↦ max_loop (if ltb chunk_id id then id else chunk_id) names
]

-- `GetMaxChunkID`, on the names that `ListDir` gave
unfoldable pub get_max_chunk_id : List Name → ℕ
get_max_chunk_id names = max_loop 0 (reverse names) % 2 ^ 16
