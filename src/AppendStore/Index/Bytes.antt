-- ===== src/AppendStore/Index/Bytes.antt =====
-- The two byte images of an index record.
use bigarchive.Prelude.{ℕ, ◌^◌, ◌<◌, ◌≡◌, List, ◌++◌, length, append_assoc, arith}
use bigarchive.Prelude.Words.{bytes_of, of_bytes}
use bigarchive.Exception.{ok}
use bigarchive.Marshal.Stream.{good, ◌>>=◌}
use bigarchive.Marshal.RoundTrip.{deserialize-serialize_word}
use bigarchive.AppendStore.Index.{
  IndexRecord, serialize_index, deserialize_index, to_buffer, from_buffer, record_size,
}

pub record Fits (r : IndexRecord) : Type 0 where
  pub offset_fits : r.offset < 2 ^ 64
  pub index_fits : r.index < 2 ^ 64

-- Both images of an index record of 64-bit members are read back whole, the buffer by `fromBuffer`
-- and the stream by `Deserialize`.
pub from_buffer-to_buffer_index :
    (old r : IndexRecord) (rest : List ℕ)
    → Fits r
    → (length (to_buffer r) ≡ record_size)
      × (from_buffer (to_buffer r) ≡ r)
      × (deserialize_index old (good (serialize_index r ++ rest)) ≡ ok (r, good rest))
from_buffer-to_buffer_index old r rest h = (
  unfold to_buffer bytes_of in ground arith,
  unfold to_buffer from_buffer bytes_of of_bytes in ground (arith, h),
  unfold serialize_index deserialize_index in
      rw (
        append_assoc,
        deserialize-serialize_word 8 old.offset r.offset _ h.offset_fits,
        ◌>>=◌,
        deserialize-serialize_word 8 old.index r.index rest h.index_fits,
      ),
)
