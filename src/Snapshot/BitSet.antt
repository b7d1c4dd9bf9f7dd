-- ===== src/Snapshot/BitSet.antt =====
-- snapshot/bloom_filter.h, `class BitSet`: the bits of a filter, eight to a byte, highest first.
-- `mBitsSpace` is the list of all bytes that are allocated; it may be longer than `mTotalBits` asks.
pub mod Byte
pub mod Laws
pub mod RoundTrip
use bigarchive.Prelude.{
  ℕ, ◌+◌, ◌*◌, ◌/◌, ◌%◌, ◌^◌, bit_and, bit_or, Bool, true, false, not, List, [], ◌∷◌, ◌++◌, length,
  take, drop, get_or, set, replicate, leb, ◌==◌, if◌then◌else◌,
}
use bigarchive.Prelude.Words.{bytes_of, of_bytes, overwrite}
use bigarchive.Exception.{Result, ok, err, bloom_filter_parameter_invalid}
use bigarchive.Marshal.Stream.{IStream, read}

pub record BitSet : Type 0 where
  pub bits_space : List ℕ
  pub total_bits : ℕ
  pub max_total_bits : ℕ

-- `(totalBits + 7) / 8`
abbrev pub bytes_for : ℕ → ℕ
bytes_for total_bits = (total_bits + 7) / 8

-- `0x80 >> bitShift`
abbrev pub mask : ℕ → ℕ
mask bit_shift = 0x80 / 2 ^ bit_shift

-- `memset(bits, 0, n)`
abbrev pub zeroed : ℕ → List ℕ → List ℕ
zeroed n bits = replicate n 0 ++ drop n bits

unfoldable pub new : ℕ → BitSet
new total_bits = record {
  bits_space = replicate (bytes_for total_bits) 0;
  total_bits = total_bits;
  max_total_bits = total_bits;
}

unfoldable pub set_position : BitSet → ℕ → Result BitSet
set_position b position =
    if leb b.total_bits position
    then err bloom_filter_parameter_invalid
    else (let byte_shift = position / 8 in
        let bit_shift = position % 8 in
        let byte = bit_or (get_or b.bits_space byte_shift 0) (mask bit_shift) in
        ok (record b { bits_space = set b.bits_space byte_shift byte }))

unfoldable pub get_position : BitSet → ℕ → Result ℕ
get_position b position =
    if leb b.total_bits position
    then err bloom_filter_parameter_invalid
    else (let byte_shift = position / 8 in
        let bit_shift = position % 8 in
        ok (bit_and (get_or b.bits_space byte_shift 0) (mask bit_shift)))

unfoldable pub clear : BitSet → BitSet
clear b = record b { bits_space = zeroed (bytes_for b.total_bits) b.bits_space }

unfoldable pub resize : BitSet → ℕ → Result BitSet
resize b new_size =
    if new_size == 0
    then err bloom_filter_parameter_invalid
    else if leb (bytes_for new_size) (bytes_for b.max_total_bits)
    then ok
        (record b { bits_space = zeroed (bytes_for new_size) b.bits_space; total_bits = new_size })
    else ok (record {
      bits_space = replicate (bytes_for new_size) 0;
      total_bits = new_size;
      max_total_bits = bytes_for new_size * 8;
    })

unfoldable pub serialize : BitSet → List ℕ
serialize b = bytes_of 8 b.total_bits ++ take (bytes_for b.total_bits) b.bits_space

-- The result, what the object has become, and the stream behind what was read. The bytes of a new
-- array are uninitialised in C++ and zero here.
unfoldable pub deserialize : BitSet → IStream → Bool × BitSet × IStream
deserialize b is =
    let (got, is') = read 8 is in
    let total_bits = of_bytes (overwrite got (bytes_of 8 b.total_bits)) in
    if not (length got == 8)
    then (false, record b { total_bits = total_bits }, is')
    else (let len_temp = bytes_for total_bits in
        let (bytes, is'') = read len_temp is' in
        (
          length bytes == len_temp,
          record {
            bits_space = overwrite bytes (replicate len_temp 0);
            total_bits = total_bits;
            max_total_bits = total_bits;
          },
          is'',
        ))

-- the loop of `Merge` over the bytes in use; it stops at the first byte that is not there
unfoldable pub merge_bytes : List ℕ → IStream → Bool × List ℕ × IStream
merge_bytes [] is = (true, [], is)
merge_bytes (old ∷ bits) is =
    let (got, is') = read 1 is in
    let (done, bits', is'') = merge_bytes bits is' in
    if not (length got == 1)
    then (false, old ∷ bits, is')
    else (done, bit_and old (get_or got 0 0) ∷ bits', is'')

-- `total_bits` of `Merge` is read whole before it is looked at.
unfoldable pub merge : BitSet → IStream → Bool × BitSet × IStream
merge b is =
    let (got, is') = read 8 is in
    if not (length got == 8)
    then (false, b, is')
    else if not (b.total_bits == of_bytes got)
    then (false, b, is')
    else (let len_temp = bytes_for b.total_bits in
        let (done, bits, is'') = merge_bytes (take len_temp b.bits_space) is' in
        (done, record b { bits_space = bits ++ drop len_temp b.bits_space }, is''))
