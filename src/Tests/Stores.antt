-- ===== src/Tests/Stores.antt =====
-- Concrete handles, records, metadata and index vectors of the append store.
use bigarchive.Prelude.{
  ℕ, ◌+◌, ◌*◌, ◌/◌, ◌%◌, ◌^◌, ◌≡◌, List, [], ◌∷◌, ◌++◌, some, length, take, arith, ltb, ◌==◌, ◌&&◌,
  not, replicate,
}
use bigarchive.Prelude.Words.{of_bytes}
use bigarchive.Exception.{ok}
use bigarchive.Marshal.Stream.{good}
use bigarchive.AppendStore.Types.Handle
use bigarchive.AppendStore.Types.Handle.{Handle, to_int, to_string, of_string, is_valid, lt}
use bigarchive.AppendStore.Types.HandleLaws.{
  IsPacked, of_string-to_string, lt-to_int, is_valid-of_string,
}
use bigarchive.AppendStore.Types.MetaData
use bigarchive.AppendStore.Types.MetaData.{StoreMetaData, from_buffer-to_buffer}
use bigarchive.AppendStore.Types.Records.{
  DataRecord, serialize_data, deserialize_data, CompressedDataRecord, serialize_compressed,
  deserialize_compressed,
}
use bigarchive.AppendStore.Types.RecordLaws.{
  deserialize-serialize_data, deserialize-serialize_compressed,
}
use bigarchive.AppendStore.Types.Cache
use bigarchive.AppendStore.Index
use bigarchive.AppendStore.Index.{IndexRecord, record_size}
use bigarchive.AppendStore.Index.Bytes
use bigarchive.AppendStore.Index.Search.{IsAscending, count_below, find-count_below}

abbrev handle : Handle
handle = record { chunk_id = 3; index = 70000 }

abbrev later : Handle
later = record { chunk_id = 4; index = 1 }

handle-IsPacked : IsPacked handle
handle-IsPacked = record { chunk_fits = omega arith; index_fits = omega arith }

later-IsPacked : IsPacked later
later-IsPacked = record { chunk_fits = omega arith; index_fits = omega arith }

of_string-to_string_example : of_string (to_string handle) ≡ handle
of_string-to_string_example = of_string-to_string handle handle-IsPacked

lt-to_int_example : lt handle later ≡ ltb (to_int handle) (to_int later)
lt-to_int_example = lt-to_int handle later handle-IsPacked later-IsPacked

abbrev short : List ℕ
short = 1 ∷ 2 ∷ 3 ∷ []

is_valid-of_string_example :
    is_valid (of_string short) ≡ (length short == 8 && not (of_bytes short / 2 ^ 48 == 65535))
is_valid-of_string_example =
    is_valid-of_string short (omega arith, (omega arith, (omega arith, tt)))

abbrev meta : StoreMetaData
meta = record {
  storemajor = 1;
  storeminor = 0;
  max_chunk_size = 5 * 2 ^ 32 + 7;
  block_index_interval = 1000;
  compression_flag = 1;
}

meta-Fits : MetaData.Fits meta
meta-Fits = record {
  major = omega arith;
  minor = omega arith;
  size = omega arith;
  interval = omega arith;
  flag = omega arith;
}

abbrev fresh : StoreMetaData
fresh = record {
  storemajor = 0;
  storeminor = 0;
  max_chunk_size = 0;
  block_index_interval = 0;
  compression_flag = 1;
}

fresh-Fits : MetaData.Fits fresh
fresh-Fits = record {
  major = omega arith;
  minor = omega arith;
  size = omega arith;
  interval = omega arith;
  flag = omega arith;
}

from_buffer-to_buffer_example :
    MetaData.from_buffer (MetaData.to_buffer meta (replicate 24 0)) fresh ≡ record meta {
      max_chunk_size = meta.max_chunk_size % 2 ^ 32 + fresh.max_chunk_size / 2 ^ 32 * 2 ^ 32;
    }
from_buffer-to_buffer_example =
    from_buffer-to_buffer meta fresh (replicate 24 0) meta-Fits fresh-Fits

abbrev entry : DataRecord
entry = record { val = 10 ∷ 20 ∷ []; index = 9 }

abbrev empty_entry : DataRecord
empty_entry = record { val = []; index = 0 }

deserialize-serialize_data_example :
    deserialize_data empty_entry (good (serialize_data entry ++ 255 ∷ []))
    ≡ ok (entry, good (255 ∷ []))
deserialize-serialize_data_example =
    deserialize-serialize_data empty_entry entry (255 ∷ [])
      (record { val_fits = omega arith; index_fits = omega arith })

abbrev packed : CompressedDataRecord
packed = record {
  index = 4;
  records = 2;
  orig_length = 9;
  compress_length = 3;
  data_bytes = 1 ∷ 2 ∷ 3 ∷ 4 ∷ [];
}

deserialize-serialize_compressed_example :
    deserialize_compressed packed (good (serialize_compressed packed ++ []))
    ≡ ok (record packed { data_bytes = take 3 (1 ∷ 2 ∷ 3 ∷ 4 ∷ []) }, good [])
deserialize-serialize_compressed_example =
    deserialize-serialize_compressed packed packed [] (record {
      index_fits = omega arith;
      records_fits = omega arith;
      orig_fits = omega arith;
      compress_fits = omega arith;
      within = omega arith;
    })

abbrev cached : Cache.Cache
cached = (handle, 1 ∷ []) ∷ []

abbrev vector : List IndexRecord
vector =
    record { offset = 0; index = 3 }
    ∷ record { offset = 100; index = 7 }
    ∷ record { offset = 250; index = 12 }
    ∷ []

vector-IsAscending : IsAscending vector
vector-IsAscending = (omega arith, (omega arith, (omega arith, tt)))

find-count_below_example : Index.find vector 8 ≡ some (count_below 8 vector)
find-count_below_example = find-count_below vector 8 vector-IsAscending

found_third : Index.find vector 8 ≡ some 2
found_third = find-count_below_example

abbrev one_record : IndexRecord
one_record = record { offset = 100; index = 7 }

from_buffer-to_buffer_index_example :
    (length (Index.to_buffer one_record) ≡ record_size)
    × (Index.from_buffer (Index.to_buffer one_record) ≡ one_record)
    × (Index.deserialize_index one_record (good (Index.serialize_index one_record ++ []))
        ≡ ok (one_record, good []))
from_buffer-to_buffer_index_example =
    Bytes.from_buffer-to_buffer_index one_record one_record []
      (record { offset_fits = omega arith; index_fits = omega arith })
