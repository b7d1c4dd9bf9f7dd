-- ===== src/AppendStore/Types/HandleLaws.antt =====
-- Handles as packed words: 16 bits of chunk over 48 bits of index.
use bigarchive.Prelude.{
  ℕ, ◌+◌, ◌*◌, ◌/◌, ◌%◌, ◌^◌, ◌<◌, ◌≡◌, true, false, not, ◌&&◌, List, length, ltb, ◌==◌, All, arith,
  bit_and, ◌⊎◌, ◌↔◌, Bool-cases, inl, inr,
}
use bigarchive.Prelude.Bits.{bit_and-low, bit_and_comm, bit_or_disjoint}
use bigarchive.Prelude.Words.{
  IsByte, bytes_of, of_bytes, of_bytes-lt, of_bytes-bytes_of, length-bytes_of,
}
use bigarchive.AppendStore.Types.Handle.{
  Handle, of_int, of_string, to_int, to_string, is_valid, eq, lt, max_u16, DeleteRecord,
  delete_of_string, delete_to_string, delete_is_valid,
}

-- The handles that an `Append` can make: the fields fit the packed word.
pub record IsPacked (h : Handle) : Type 0 where
  pub chunk_fits : h.chunk_id < 2 ^ 16
  pub index_fits : h.index < 2 ^ 48

-- The packed word is the chunk number over the index.
pub to_int_packed : (h : Handle) → IsPacked h → to_int h ≡ h.chunk_id * 2 ^ 48 + h.index
unfolding to_int
to_int_packed h p =
    let shifted : bit_and 0xff_ffff_ffff h.chunk_id * 2 ^ 48 % 2 ^ 64 ≡ h.chunk_id * 2 ^ 48 =
      omega (arith, bit_and_comm 0xff_ffff_ffff h.chunk_id, bit_and-low 40 h.chunk_id) in
    rw shifted (bit_or_disjoint 48 h.chunk_id h.index p.index_fits)

-- `Handle(src)` splits any 64-bit word into its upper 16 and lower 48 bits.
pub of_int_fields :
    (src : ℕ)
    → src < 2 ^ 64
    → ((of_int src).chunk_id ≡ src / 2 ^ 48) × ((of_int src).index ≡ src % 2 ^ 48)
unfolding of_int
of_int_fields src h = (omega (arith, bit_and-low 16 (src / 2 ^ 48)), bit_and-low 48 src)

-- A packed handle is rebuilt from its number.
pub of_int-to_int : (h : Handle) → IsPacked h → of_int (to_int h) ≡ h
of_int-to_int h p =
    let e = to_int_packed h p in
    let fields = of_int_fields (to_int h) (omega arith) in ground (arith, e, fields)

-- A handle of a 16-bit chunk number and a 48-bit index is rebuilt from its string.
pub of_string-to_string : (h : Handle) → IsPacked h → of_string (to_string h) ≡ h
unfolding of_string to_string
of_string-to_string h p =
    let word : of_bytes (bytes_of 8 (to_int h)) ≡ to_int h =
      of_bytes-bytes_of 8 (to_int h) (omega (arith, to_int_packed h p)) in
    rw (length-bytes_of, word) (of_int-to_int h p)

-- The handle of a string of bytes is valid exactly when the string has eight bytes and its top
-- sixteen bits are not all ones.
pub is_valid-of_string :
    (src : List ℕ)
    → All IsByte src
    → is_valid (of_string src) ≡ (length src == 8 && not (of_bytes src / 2 ^ 48 == max_u16))
unfolding is_valid of_string
is_valid-of_string src h = elim (Bool-cases (length src == 8)) [
  | inl e ↦
      let eight : length src ≡ 8 = ground arith in
      let bound : of_bytes src < 2 ^ 64 = rw eight at (of_bytes-lt src h) in
      ground (arith, of_int_fields (of_bytes src) bound)
  | inr e ↦ rw e
]

-- The order of packed handles is the order of their numbers.
pub lt-to_int : (h k : Handle) → IsPacked h → IsPacked k → lt h k ≡ ltb (to_int h) (to_int k)
unfolding lt
lt-to_int h k p q = ground (arith, to_int_packed h p, to_int_packed k q)

-- `operator<` and `operator==` make a strict total order: exactly one holds of two handles.
pub lt_trichotomy :
    (h k : Handle)
    → ((lt h k ≡ true) × (eq h k ≡ false) × (lt k h ≡ false))
      ⊎ ((lt h k ≡ false) × (eq h k ≡ true) × (lt k h ≡ false))
      ⊎ ((lt h k ≡ false) × (eq h k ≡ false) × (lt k h ≡ true))
unfolding lt eq
lt_trichotomy h k = ground arith

pub lt_trans : (a b c : Handle) → lt a b ≡ true → lt b c ≡ true → lt a c ≡ true
unfolding lt
lt_trans a b c p q = ground arith

-- Two handles are `==` exactly when they are one.
pub eq_iff : (h k : Handle) → (eq h k ≡ true) ↔ (h ≡ k)
unfolding eq
eq_iff h k = ground arith

-- A removal record of a 48-bit index survives the delete log and is valid.
pub delete_of_string-to_string :
    (r : DeleteRecord)
    → r.index < 2 ^ 48
    → (delete_of_string (delete_to_string r) ≡ r) × (delete_is_valid r ≡ true)
unfolding delete_of_string delete_to_string delete_is_valid
delete_of_string-to_string r h =
    (rw (length-bytes_of, of_bytes-bytes_of 8 r.index (omega arith)), ground arith)
