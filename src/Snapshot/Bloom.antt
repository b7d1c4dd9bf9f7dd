-- ===== src/Snapshot/Bloom.antt =====
-- snapshot/bloom_filter.h and .hpp, `class BloomFilter`, and bloom_filter_functions.h. `double` and
-- the logarithms of `GetM` are the C library's: they come in as the interface `Doubles`.
pub mod Positions
pub mod Members
pub mod Resets
use bigarchive.Prelude.{
  ℕ, zero, suc, ◌+◌, ◌-◌, ◌*◌, ◌/◌, ◌%◌, ◌<◌, ◌≡◌, Bool, true, false, not, ◌&&◌, ◌||◌, List, [],
  ◌∷◌, ◌++◌, length, take, drop, ltb, leb, ◌==◌, if◌then◌else◌,
}
use bigarchive.Prelude.Words.{of_bytes}
use bigarchive.Exception.{Result, ok, err, ◌>>=◌, bloom_filter_parameter_invalid, bad_hash_function}
use bigarchive.Marshal.Stream.{IStream}
use bigarchive.Snapshot.BitSet
use bigarchive.Snapshot.BitSet.{BitSet}

-- What the constructor uses of `double`: its two range tests, and the number of bits
-- `static_cast<uint64_t>(-1 / log(1 - pow(M_E, log(p) / k)) * k * n)`.
pub record Doubles : Type 1 where
  pub Double : Type 0
  pub below_zero : Double → Bool
  pub above_one : Double → Bool
  pub bits_for : ℕ → ℕ → Double → ℕ

module _ (d : Doubles) where
  open d use {Double, below_zero, above_one, bits_for}

  unfoldable pub get_m : ℕ → ℕ → Double → ℕ → Result ℕ
  get_m k n p max_m =
      if k == 0 || n == 0 || below_zero p || above_one p
      then err bloom_filter_parameter_invalid
      else (let m = bits_for k n p in if not (max_m == 0) && ltb max_m m then ok max_m else ok m)

-- The filter over elements of a type; a hash function is a function into `uint64_t`.
pub record BloomFilter (A : Type 0) : Type 0 where
  pub bits_space : BitSet
  pub total_bits : ℕ
  pub hash_functions : List (A → ℕ)
  pub hash_function_num : ℕ

-- `CalculatePosition`
unfoldable pub calculate_position : ℕ → ℕ → ℕ
calculate_position hash_value total_bits = hash_value % total_bits

module _ {A : Type 0} where
  -- the loops `push_back(hashFunctions[i])` over the first `num` of the array
  unfoldable pub push_functions : ℕ → List (A → ℕ) → List (A → ℕ) → List (A → ℕ)
  push_functions num array functions = functions ++ take num array

  -- the constructor
  unfoldable pub new : (d : Doubles) → ℕ → d.Double → List (A → ℕ) → ℕ → Result (BloomFilter A)
  new d total_elem_num fp array num =
      if total_elem_num == 0 || d.below_zero fp || d.above_one fp || num == 0
      then err bloom_filter_parameter_invalid
      else (get_m d num total_elem_num fp 0 >>= λ m.
          let total_bits = (m + 7) / 8 * 8 in
          if total_bits == 0
          then err bloom_filter_parameter_invalid
          else ok (record {
            bits_space = BitSet.new total_bits;
            total_bits = total_bits;
            hash_functions = push_functions num array [];
            hash_function_num = num;
          }))

  -- The functions that the loops `for (i = 0; i < mHashFunctionNum; ++i)` reach.
  abbrev pub used : BloomFilter A → List (A → ℕ)
  used f = take f.hash_function_num f.hash_functions

  -- the loop of `AddElement` over the remaining functions
  unfoldable pub add_loop : ℕ → A → List (A → ℕ) → BitSet → Result BitSet
  add_loop total elem [] bits = ok bits
  add_loop total elem (h ∷ hs) bits =
      let position = calculate_position (h elem) total in
      if leb total position
      then err bad_hash_function
      else (BitSet.set_position bits position >>= add_loop total elem hs)

  unfoldable pub add_element : BloomFilter A → A → Result (BloomFilter A)
  add_element f elem = do
    bits ← add_loop f.total_bits elem (used f) f.bits_space
    ok (record f { bits_space = bits })

  -- the loop of `Exist`
  unfoldable pub exist_loop : ℕ → A → List (A → ℕ) → BitSet → Result Bool
  exist_loop total elem [] bits = ok true
  exist_loop total elem (h ∷ hs) bits =
      let position = calculate_position (h elem) total in
      let rest = exist_loop total elem hs bits in
      if leb total position
      then err bad_hash_function
      else (BitSet.get_position bits position >>= λ byte. if byte == 0 then ok false else rest)

  unfoldable pub exist : BloomFilter A → A → Result Bool
  exist f elem = exist_loop f.total_bits elem (used f) f.bits_space

  unfoldable pub clear : BloomFilter A → BloomFilter A
  clear f = record f { bits_space = BitSet.clear f.bits_space }

  -- `Reset` adds the new functions behind the old ones, and does not remove those.
  unfoldable pub reset : BloomFilter A → List (A → ℕ) → ℕ → Result (BloomFilter A)
  reset f array num =
      if num == 0
      then err bloom_filter_parameter_invalid
      else (let f' = clear f in
          ok (record f' {
            hash_functions = push_functions num array f'.hash_functions;
            hash_function_num = num;
          }))

  unfoldable pub serialize : BloomFilter A → List ℕ
  serialize f = BitSet.serialize f.bits_space

  -- the result, the filter after it, and the stream after it
  abbrev pub adopt : BloomFilter A → Bool × BitSet × IStream → Bool × BloomFilter A × IStream
  adopt f (done, bits, is) =
      if done
      then (true, record f { bits_space = bits; total_bits = bits.total_bits }, is)
      else (false, record f { bits_space = bits }, is)

  unfoldable pub deserialize : BloomFilter A → IStream → Bool × BloomFilter A × IStream
  deserialize f is = adopt f (BitSet.deserialize f.bits_space is)

  unfoldable pub merge : BloomFilter A → IStream → Bool × BloomFilter A × IStream
  merge f is = adopt f (BitSet.merge f.bits_space is)

-- `hash_for_checksum`: eight bytes of the checksum from a place on, round its end
unfoldable pub hash_for_checksum : List ℕ → ℕ → ℕ
hash_for_checksum cksum start =
    let position = start % 20 in
    let bytes_remain = 20 - position in
    if leb 8 bytes_remain
    then of_bytes (take 8 (drop position cksum))
    else of_bytes (take bytes_remain (drop position cksum) ++ take (8 - bytes_remain) cksum)

-- the starts of `kBloomFilterFunctions`
abbrev pub function_starts : List ℕ
function_starts =
    0 ∷ 3 ∷ 6 ∷ 9 ∷ 12 ∷ 15 ∷ 18 ∷ 1 ∷ 4 ∷ 7 ∷ 10 ∷ 13 ∷ 16 ∷ 19 ∷ 2 ∷ 5 ∷ 8 ∷ 11 ∷ 14 ∷ 17 ∷ []

abbrev pub hash_functions_of : List ℕ → List (List ℕ → ℕ)
hash_functions_of [] = []
hash_functions_of (s ∷ ss) = (λ cksum. hash_for_checksum cksum s) ∷ hash_functions_of ss

abbrev pub bloom_filter_functions : List (List ℕ → ℕ)
bloom_filter_functions = hash_functions_of function_starts
