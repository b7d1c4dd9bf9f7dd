-- ===== src/Snapshot/BitSet/RoundTrip.antt =====
-- The stored form of a bit set: reading it back, and merging it into another.
use bigarchive.Prelude.{
  ℕ, zero, suc, ◌^◌, ◌<◌, ◌≤◌, ◌≡◌, refl, ap, true, false, ◌&&◌, List, [], ◌∷◌, ◌++◌, length, take,
  drop, get_or, length-append, length-take, length-replicate, replicate, append-nil, append_assoc,
  bit_and, All, ◌==◌, arith, ◌/◌, ◌%◌, ==_refl, sym, ◌∙◌, ◌≢◌, length-drop, All-append, All-drop,
  All-take,
}
use bigarchive.Prelude.Bits.{bit_and-le}
use bigarchive.Prelude.Words.{IsByte, bytes_of, length-bytes_of, of_bytes-bytes_of}
use bigarchive.Marshal.Stream.{good, read-append}
use bigarchive.Marshal.RoundTrip.{drop-length}
use bigarchive.Snapshot.BitSet.Byte.{bit_at, bit_at-bit_and}
use bigarchive.Snapshot.BitSet.Laws.{IsWellFormed, test}
use bigarchive.Snapshot.BitSet.{BitSet, bytes_for, serialize, deserialize, merge, merge_bytes}

length-take_le : (n : ℕ) (xs : List ℕ) → n ≤ length xs → length (take n xs) ≡ n
length-take_le n xs h = omega (arith, length-take n xs)

-- A stored bit set is read back into any other: its size, exactly the bytes in use, and the stream
-- behind it.
pub deserialize-serialize :
    (old b : BitSet) (rest : List ℕ)
    → b.total_bits < 2 ^ 64
    → bytes_for b.total_bits ≤ length b.bits_space
    → deserialize old (good (serialize b ++ rest)) ≡ (
      true,
      record {
        bits_space = take (bytes_for b.total_bits) b.bits_space;
        total_bits = b.total_bits;
        max_total_bits = b.total_bits;
      },
      good rest,
    )
unfolding deserialize serialize
deserialize-serialize old b rest h room =
    let n = bytes_for b.total_bits in
    let bits = take n b.bits_space in
    let size = length-take_le n b.bits_space room in
    rw
      (
        append_assoc,
        read-append (bytes_of 8 b.total_bits) (bits ++ rest) (length-bytes_of 8 b.total_bits),
        length-bytes_of,
        drop-length (bytes_of 8 old.total_bits) (length-bytes_of 8 old.total_bits),
        append-nil,
        of_bytes-bytes_of 8 b.total_bits h,
      )
      (rw (
        read-append bits rest size,
        size,
        ==_refl,
        drop-length (replicate n 0) (length-replicate {A = ℕ} n 0),
        append-nil,
      ))

-- The bytes of two sets, one by one.
and_bytes : List ℕ → List ℕ → List ℕ
and_bytes [] ys = []
and_bytes (x ∷ xs) [] = []
and_bytes (x ∷ xs) (y ∷ ys) = bit_and x y ∷ and_bytes xs ys

merge_bytes-and_bytes :
    (xs ys rest : List ℕ)
    → length xs ≡ length ys
    → merge_bytes xs (good (ys ++ rest)) ≡ (true, and_bytes xs ys, good rest)
unfolding merge_bytes and_bytes
merge_bytes-and_bytes [] [] rest h = refl
merge_bytes-and_bytes [] (y ∷ ys) rest h = absurd (omega arith)
merge_bytes-and_bytes (x ∷ xs) [] rest h = absurd (omega arith)
merge_bytes-and_bytes (x ∷ xs) (y ∷ ys) rest h =
    rw (read-append (y ∷ []) (ys ++ rest) refl, merge_bytes-and_bytes xs ys rest (omega arith))

length-and_bytes : (xs ys : List ℕ) → length xs ≡ length ys → length (and_bytes xs ys) ≡ length xs
unfolding and_bytes
length-and_bytes [] ys h = refl
length-and_bytes (x ∷ xs) [] h = absurd (omega arith)
length-and_bytes (x ∷ xs) (y ∷ ys) h = ap suc (length-and_bytes xs ys (omega arith))

and_bytes-IsByte : (xs ys : List ℕ) → All IsByte xs → All IsByte (and_bytes xs ys)
unfolding and_bytes
and_bytes-IsByte [] ys h = tt
and_bytes-IsByte (x ∷ xs) [] h = tt
and_bytes-IsByte (x ∷ xs) (y ∷ ys) h =
    (omega (arith, bit_and-le x y, h.0), and_bytes-IsByte xs ys h.1)

-- The bits of the first `n` bytes after the conjunction with the first `n` bytes of another set.
bit_at-and_bytes :
    (n i place : ℕ) (xs ys : List ℕ)
    → place < 8
    → i < n
    → n ≤ length xs
    → n ≤ length ys
    → All IsByte xs
    → All IsByte ys
    → bit_at (get_or (and_bytes (take n xs) (take n ys) ++ drop n xs) i 0) place
      ≡ (bit_at (get_or xs i 0) place && bit_at (get_or ys i 0) place)
unfolding and_bytes
bit_at-and_bytes zero i place xs ys p h k l hx hy = absurd (omega arith)
bit_at-and_bytes (suc n) i place [] ys p h k l hx hy = absurd (omega arith)
bit_at-and_bytes (suc n) i place (x ∷ xs) [] p h k l hx hy = absurd (omega arith)
bit_at-and_bytes (suc n) zero place (x ∷ xs) (y ∷ ys) p h k l hx hy =
    bit_at-bit_and place x y p hx.0 hy.0 (omega (arith, bit_and-le x y, hx.0))
bit_at-and_bytes (suc n) (suc i) place (x ∷ xs) (y ∷ ys) p h k l hx hy =
    bit_at-and_bytes n i place xs ys p (omega arith) (omega arith) (omega arith) hx.1 hy.1

merge-serialize_all :
    (b other : BitSet) (rest : List ℕ)
    → IsWellFormed b
    → IsWellFormed other
    → b.total_bits ≡ other.total_bits
    → b.total_bits < 2 ^ 64
    → (b' : BitSet) × (merge b (good (serialize other ++ rest)) ≡ (true, b', good rest))
      × IsWellFormed b'
      × (b'.total_bits ≡ b.total_bits)
      × ((q : ℕ) → q < b.total_bits → test b' q ≡ (test b q && test other q))
unfolding merge serialize test
merge-serialize_all b other rest w v same h =
    let n = bytes_for b.total_bits in
    let xs = take n b.bits_space in
    let ys = take n other.bits_space in
    let other_room : n ≤ length other.bits_space = rw same v.room in
    let size_x = length-take_le n b.bits_space w.room in
    let size_y = length-take_le n other.bits_space other_room in
    let bits = and_bytes xs ys ++ drop n b.bits_space in
    let size : length bits ≡ length b.bits_space = omega (
      arith,
      length-append (and_bytes xs ys) (drop n b.bits_space),
      size_x,
      size_y,
      length-and_bytes xs ys (size_x ∙ sym size_y),
      length-drop n b.bits_space,
      w.room,
    ) in
    (
      record b { bits_space = bits },
      rw (
        ← same,
        append_assoc,
        read-append (bytes_of 8 b.total_bits) (ys ++ rest) (length-bytes_of 8 b.total_bits),
        length-bytes_of,
        of_bytes-bytes_of 8 b.total_bits h,
        ==_refl,
        merge_bytes-and_bytes xs ys rest (size_x ∙ sym size_y),
      ),
      record {
        bytes =
            All-append IsByte _ _ (and_bytes-IsByte xs ys (All-take IsByte n _ w.bytes))
              (All-drop IsByte n _ w.bytes);
        room = rw size w.room;
        max_room = rw size w.max_room;
      },
      refl,
      λ q lt.
          bit_at-and_bytes n (q / 8) (q % 8) b.bits_space other.bits_space (omega arith)
            (omega arith) w.room other_room w.bytes v.bytes,
    )

-- `Merge` with the stored form of a well-formed set of the same size keeps a bit exactly when both
-- sets have it; the result is well formed, and the stream stands behind the stored set.
pub merge-serialize :
    (b other : BitSet) (rest : List ℕ) (q : ℕ)
    → IsWellFormed b
    → IsWellFormed other
    → b.total_bits ≡ other.total_bits
    → b.total_bits < 2 ^ 64
    → q < b.total_bits
    → (b' : BitSet) × (merge b (good (serialize other ++ rest)) ≡ (true, b', good rest))
      × IsWellFormed b'
      × (b'.total_bits ≡ b.total_bits)
      × (test b' q ≡ (test b q && test other q))
merge-serialize b other rest q w v same h lt =
    let (b', run, formed, total, tests) = merge-serialize_all b other rest w v same h in
    (b', run, formed, total, tests q lt)

-- `Merge` with a set of another size answers `false` and changes nothing.
pub merge_other_size :
    (b other : BitSet) (rest : List ℕ)
    → b.total_bits ≢ other.total_bits
    → other.total_bits < 2 ^ 64
    → ((merge b (good (serialize other ++ rest))).0 ≡ false)
      × ((merge b (good (serialize other ++ rest))).1 ≡ b)
unfolding merge serialize
merge_other_size b other rest ne h =
    let differs : (b.total_bits == other.total_bits) ≡ false = ground arith in
    (
      rw (
        append_assoc,
        read-append (bytes_of 8 other.total_bits) _ (length-bytes_of 8 other.total_bits),
        length-bytes_of,
        of_bytes-bytes_of 8 other.total_bits h,
        differs,
      ),
      rw (
        append_assoc,
        read-append (bytes_of 8 other.total_bits) _ (length-bytes_of 8 other.total_bits),
        length-bytes_of,
        of_bytes-bytes_of 8 other.total_bits h,
        differs,
      ),
    )
