-- ===== src/AppendStore/Types/Handle.antt =====
-- `Handle` and `DeleteRecord`. Strings of bytes are lists; `(IndexType)-1` is `max_u64`.
use bigarchive.Prelude.{
  ℕ, ◌-◌, ◌*◌, ◌/◌, ◌%◌, ◌^◌, bit_and, bit_or, Bool, true, false, not, ◌&&◌, List, length, ltb, leb,
  ◌==◌, if◌then◌else◌,
}
use bigarchive.Prelude.Words.{bytes_of, of_bytes}

abbrev pub max_u16 : ℕ
max_u16 = 2 ^ 16 - 1

abbrev pub max_u64 : ℕ
max_u64 = 2 ^ 64 - 1

pub record Handle : Type 0 where
  pub chunk_id : ℕ
  pub index : ℕ

-- `Handle(const uint64_t& src)`
unfoldable pub of_int : ℕ → Handle
of_int src = record {
  chunk_id = bit_and (src / 2 ^ 48) 0xffff;
  index = bit_and src 0x0000_ffff_ffff_ffff;
}

-- `Handle(const std::string& src)`
unfoldable pub of_string : List ℕ → Handle
unfolding of_int
of_string src =
    if not (length src == 8)
    then record { chunk_id = max_u16; index = max_u64 }
    else of_int (of_bytes src)

unfoldable pub to_int : Handle → ℕ
to_int h = bit_or (bit_and 0xff_ffff_ffff h.chunk_id * 2 ^ 48 % 2 ^ 64) h.index

unfoldable pub to_string : Handle → List ℕ
unfolding to_int
to_string h = bytes_of 8 (to_int h)

unfoldable pub is_valid : Handle → Bool
is_valid h = not (h.chunk_id == max_u16) && not (h.index == max_u64)

-- `operator==`, `operator!=` and `operator<`
unfoldable pub eq : Handle → Handle → Bool
eq h other = h.chunk_id == other.chunk_id && h.index == other.index

unfoldable pub ne : Handle → Handle → Bool
unfolding eq
ne h other = not (eq h other)

unfoldable pub lt : Handle → Handle → Bool
lt h other =
    if ltb h.chunk_id other.chunk_id
    then true
    else if h.chunk_id == other.chunk_id
    then ltb h.index other.index
    else false

pub record DeleteRecord : Type 0 where
  pub index : ℕ

-- `DeleteRecord(const std::string& src)`
unfoldable pub delete_of_string : List ℕ → DeleteRecord
delete_of_string src =
    if not (length src == 8) then record { index = max_u64 } else record { index = of_bytes src }

unfoldable pub delete_to_string : DeleteRecord → List ℕ
delete_to_string r = bytes_of 8 r.index

unfoldable pub delete_is_valid : DeleteRecord → Bool
delete_is_valid r = leb r.index 0x0000_ffff_ffff_ffff
