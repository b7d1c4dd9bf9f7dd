-- ===== src/AppendStore/Types/MetaData.antt =====
-- `StoreMetaData` and its 24-byte image in the file `.meta_`. `compressionFlag` is the integer
-- value of the enumeration, since `fromBuffer` stores any 32 bits into it.
use bigarchive.Prelude.{
  ℕ, ◌+◌, ◌*◌, ◌/◌, ◌%◌, ◌^◌, ◌<◌, ◌≡◌, Bool, true, false, ◌&&◌, List, ◌++◌, length, take, drop,
  ◌==◌, if◌then◌else◌, arith,
}
use bigarchive.Prelude.Words.{bytes_of, of_bytes, overwrite}

-- `memcpy(buffer + at, src, length src)`
abbrev pub store_at : ℕ → List ℕ → List ℕ → List ℕ
store_at at src buffer = take at buffer ++ (src ++ drop (at + length src) buffer)

-- the `n` bytes at `buffer + at`
abbrev pub load_at : ℕ → ℕ → List ℕ → List ℕ
load_at at n buffer = take n (drop at buffer)

pub record StoreMetaData : Type 0 where
  pub storemajor : ℕ
  pub storeminor : ℕ
  pub max_chunk_size : ℕ
  pub block_index_interval : ℕ
  pub compression_flag : ℕ

unfoldable pub check : StoreMetaData → ℕ → ℕ → Bool
check m omajor ominor = if omajor == m.storemajor && ominor == m.storeminor then true else false

-- Both functions set `s64` to `sizeof(uint32_t)`: four of the eight bytes of `maxChunkSize` move.
abbrev s32 : ℕ
s32 = 4

abbrev s64 : ℕ
s64 = 4

unfoldable pub from_buffer : List ℕ → StoreMetaData → StoreMetaData
from_buffer buffer m = record {
  storemajor = of_bytes (load_at 0 s32 buffer);
  storeminor = of_bytes (load_at s32 s32 buffer);
  max_chunk_size =
      of_bytes (overwrite (load_at (s32 + s32) s64 buffer) (bytes_of 8 m.max_chunk_size));
  block_index_interval = of_bytes (load_at (s32 + s32 + s64) s32 buffer);
  compression_flag = of_bytes (load_at (s32 + s32 + s64 + s32) s32 buffer);
}

unfoldable pub to_buffer : StoreMetaData → List ℕ → List ℕ
to_buffer m buffer =
    let b₁ = store_at 0 (bytes_of s32 m.storemajor) buffer in
    let b₂ = store_at s32 (bytes_of s32 m.storeminor) b₁ in
    let b₃ = store_at (s32 + s32) (take s64 (bytes_of 8 m.max_chunk_size)) b₂ in
    let b₄ = store_at (s32 + s32 + s64) (bytes_of s32 m.block_index_interval) b₃ in
    store_at (s32 + s32 + s64 + s32) (bytes_of s32 m.compression_flag) b₄

-- The members that fit their C++ types.
pub record Fits (m : StoreMetaData) : Type 0 where
  pub major : m.storemajor < 2 ^ 32
  pub minor : m.storeminor < 2 ^ 32
  pub size : m.max_chunk_size < 2 ^ 64
  pub interval : m.block_index_interval < 2 ^ 32
  pub flag : m.compression_flag < 2 ^ 32

-- Reading back the image of fitting metadata gives every member, but of `maxChunkSize` only the
-- lower 32 bits; the upper 32 bits stay those of the object that is read into.
pub from_buffer-to_buffer :
    (m old : StoreMetaData) (buffer : List ℕ)
    → Fits m
    → Fits old
    → from_buffer (to_buffer m buffer) old ≡ record m {
      max_chunk_size = m.max_chunk_size % 2 ^ 32 + old.max_chunk_size / 2 ^ 32 * 2 ^ 32;
    }
unfolding from_buffer to_buffer bytes_of of_bytes
from_buffer-to_buffer m old buffer f g = ground arith
