-- ===== src/AppendStore/Types/Records.antt =====
-- What the data files hold: `DataRecord` (one append) and `CompressedDataRecord` (one block of
-- appends). A new object's members are uninitialised in C++ and zero here.
use bigarchive.Prelude.{ℕ, List, [], ◌++◌, take}
use bigarchive.Marshal.Stream.{Parser, ◌>>=◌, pure}
use bigarchive.Marshal.{
  serialize_word, deserialize_word, serialize_string, deserialize_string, Serializable,
}

pub record DataRecord : Type 0 where
  pub val : List ℕ
  pub index : ℕ

unfoldable pub serialize_data : DataRecord → List ℕ
serialize_data r = serialize_string r.val ++ serialize_word 8 r.index

unfoldable pub deserialize_data : DataRecord → Parser DataRecord
deserialize_data old = do
  val ← deserialize_string
  index ← deserialize_word 8 old.index
  pure (record { val = val; index = index })

abbrev pub data_record : Serializable DataRecord
data_record = record {
  serialize = serialize_data;
  deserialize = deserialize_data;
  new = record { val = []; index = 0 };
}

pub record CompressedDataRecord : Type 0 where
  pub index : ℕ
  pub records : ℕ
  pub orig_length : ℕ
  pub compress_length : ℕ
  pub data_bytes : List ℕ

-- The last two writes are the string format over the first `mCompressLength` bytes of `mData`.
unfoldable pub serialize_compressed : CompressedDataRecord → List ℕ
serialize_compressed r =
    serialize_word 8 r.index
    ++ (serialize_word 4 r.records
        ++ (serialize_word 4 r.orig_length
            ++ (serialize_word 4 r.compress_length
                ++ (serialize_word 4 r.compress_length ++ take r.compress_length r.data_bytes))))

unfoldable pub deserialize_compressed : CompressedDataRecord → Parser CompressedDataRecord
deserialize_compressed old = do
  index ← deserialize_word 8 old.index
  records ← deserialize_word 4 old.records
  orig_length ← deserialize_word 4 old.orig_length
  compress_length ← deserialize_word 4 old.compress_length
  data_bytes ← deserialize_string
  pure (record {
    index = index;
    records = records;
    orig_length = orig_length;
    compress_length = compress_length;
    data_bytes = data_bytes;
  })

abbrev pub compressed_data_record : Serializable CompressedDataRecord
compressed_data_record = record {
  serialize = serialize_compressed;
  deserialize = deserialize_compressed;
  new = record { index = 0; records = 0; orig_length = 0; compress_length = 0; data_bytes = [] };
}
