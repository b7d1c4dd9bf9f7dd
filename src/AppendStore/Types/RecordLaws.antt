-- ===== src/AppendStore/Types/RecordLaws.antt =====
-- Records are read back from the stream that they were written to.
use bigarchive.Prelude.{
  ℕ, ◌%◌, ◌^◌, ◌<◌, ◌≤◌, ◌≡◌, ap, sym, List, ◌++◌, length, take, append_assoc, arith, length-take,
}
use bigarchive.Exception.{ok}
use bigarchive.Marshal.Stream.{good, ◌>>=◌}
use bigarchive.Marshal.RoundTrip.{
  take-length, deserialize-serialize_word, deserialize-serialize_string,
}
use bigarchive.Marshal.{serialize_string, serialize_word}
use bigarchive.AppendStore.Types.Records.{
  DataRecord, serialize_data, deserialize_data, CompressedDataRecord, serialize_compressed,
  deserialize_compressed,
}

-- The members fit the words and the length prefix that store them.
pub record DataFits (r : DataRecord) : Type 0 where
  pub val_fits : length r.val < 2 ^ 32
  pub index_fits : r.index < 2 ^ 64

-- A data record that fits its words is read back whole, and the stream stands behind it.
pub deserialize-serialize_data :
    (old r : DataRecord) (rest : List ℕ)
    → DataFits r
    → deserialize_data old (good (serialize_data r ++ rest)) ≡ ok (r, good rest)
unfolding deserialize_data serialize_data
deserialize-serialize_data old r rest h = rw (
  append_assoc,
  deserialize-serialize_string r.val _ h.val_fits,
  ◌>>=◌,
  deserialize-serialize_word 8 old.index r.index rest h.index_fits,
)

pub record CompressedFits (r : CompressedDataRecord) : Type 0 where
  pub index_fits : r.index < 2 ^ 64
  pub records_fits : r.records < 2 ^ 32
  pub orig_fits : r.orig_length < 2 ^ 32
  pub compress_fits : r.compress_length < 2 ^ 32
  pub within : r.compress_length ≤ length r.data_bytes

-- The prefix of the written data and its length are a serialized string.
counted_prefix :
    (n : ℕ) (bs : List ℕ)
    → n ≤ length bs
    → n < 2 ^ 32
    → serialize_word 4 n ++ take n bs ≡ serialize_string (take n bs)
unfolding serialize_string
counted_prefix n bs h fits =
    let same : length (take n bs) ≡ n = omega (arith, length-take n bs) in
    let small : n % 2 ^ 32 ≡ n = omega arith in
    rw (same, small)
      (ap (λ (t : List ℕ). serialize_word 4 n ++ t) (sym (take_all n (take n bs) same)))
  where
    take_all : (n : ℕ) (xs : List ℕ) → length xs ≡ n → take n xs ≡ xs
    take_all n xs e = rw (← e) (take-length xs)

-- A compressed record that fits its words and has its compressed length of data is read back with
-- the data cut to that length, and the stream stands behind it.
pub deserialize-serialize_compressed :
    (old r : CompressedDataRecord) (rest : List ℕ)
    → CompressedFits r
    → deserialize_compressed old (good (serialize_compressed r ++ rest))
      ≡ ok (record r { data_bytes = take r.compress_length r.data_bytes }, good rest)
unfolding deserialize_compressed serialize_compressed
deserialize-serialize_compressed old r rest h =
    let cut : length (take r.compress_length r.data_bytes) < 2 ^ 32 =
      omega (arith, h.within, h.compress_fits, length-take r.compress_length r.data_bytes) in
    rw (
      counted_prefix r.compress_length r.data_bytes h.within h.compress_fits,
      append_assoc,
      deserialize-serialize_word 8 old.index r.index _ h.index_fits,
      ◌>>=◌,
      append_assoc,
      deserialize-serialize_word 4 old.records r.records _ h.records_fits,
      ◌>>=◌,
      append_assoc,
      deserialize-serialize_word 4 old.orig_length r.orig_length _ h.orig_fits,
      ◌>>=◌,
      append_assoc,
      deserialize-serialize_word 4 old.compress_length r.compress_length _ h.compress_fits,
      ◌>>=◌,
      deserialize-serialize_string (take r.compress_length r.data_bytes) rest cut,
    )
