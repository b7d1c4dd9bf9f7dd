-- ===== src/Snapshot/BitSet/Laws.antt =====
-- A bit set as a set of positions.
use bigarchive.Prelude.{
  ℕ, ◌/◌, ◌%◌, ◌≤◌, ◌<◌, ◌≡◌, refl, ap, Bool, true, false, not, ◌||◌, length, get_or, length-set,
  get_or-set, All, All-get_or, All-set, All-append, All-drop, All-replicate, length-append,
  length-replicate, length-drop, get_or-replicate_append, get_or-replicate, ◌==◌, leb, arith,
  replicate, drop, List, bit_or, ◌⊎◌, inl, inr, Bool-cases, set, if◌then◌else◌,
}
use bigarchive.Prelude.Bits.{zero-bit_and}
use bigarchive.Prelude.Words.{IsByte}
use bigarchive.Exception.{ok, err, bloom_filter_parameter_invalid}
use bigarchive.Snapshot.BitSet.Byte.{bit_at, bit_at-bit_or}
use bigarchive.Snapshot.BitSet.{
  BitSet, bytes_for, mask, zeroed, new, set_position, get_position, clear,
}

-- The allocated bytes are bytes, and cover the bits in use and the bits that `Resize` may use again.
pub record IsWellFormed (b : BitSet) : Type 0 where
  pub bytes : All IsByte b.bits_space
  pub room : bytes_for b.total_bits ≤ length b.bits_space
  pub max_room : bytes_for b.max_total_bits ≤ length b.bits_space

-- Whether the bit at a position is set.
unfoldable pub test : BitSet → ℕ → Bool
test b p = bit_at (get_or b.bits_space (p / 8) 0) (p % 8)

byte_at : (b : BitSet) (i : ℕ) → IsWellFormed b → get_or b.bits_space i 0 < 256
byte_at b i w = All-get_or IsByte b.bits_space i 0 w.bytes (omega arith)

-- `b'` is `b` with the position `p` set: well formed, of the same size, and no other bit changed.
pub record Sets (b : BitSet) (p : ℕ) (b' : BitSet) : Type 0 where
  pub well_formed : IsWellFormed b'
  pub same_total : b'.total_bits ≡ b.total_bits
  pub tests : (q : ℕ) → test b' q ≡ (test b q || p == q)

one_bit :
    (p q old other : ℕ)
    → old < 256
    → (p / 8 ≡ q / 8 → old ≡ other)
    → bit_at (if p / 8 == q / 8 then bit_or old (mask (p % 8)) else other) (q % 8)
      ≡ (bit_at other (q % 8) || p == q)
one_bit p q old other h same = elim (Bool-cases (p / 8 == q / 8)) [
  | inl e ↦
      let at : p / 8 ≡ q / 8 = ground arith in
      let bits = (bit_at-bit_or (p % 8) (q % 8) old (omega arith) (omega arith) h).1 in
      let places : (p % 8 == q % 8) ≡ (p == q) = ground arith in rw e (rw (bits, same at, places))
  | inr e ↦
      let apart : (p == q) ≡ false = ground arith in rw (e, apart) (or_false (bit_at other (q % 8)))
]
  where
    or_false : (x : Bool) → x ≡ (x || false)
    or_false true = refl
    or_false false = refl

-- `SetPosition` of a position in range of a well-formed set does not throw, and sets that bit and
-- no other; the set stays well formed.
pub set_position-Sets :
    (b : BitSet) (p : ℕ)
    → IsWellFormed b
    → p < b.total_bits
    → (b' : BitSet) × (set_position b p ≡ ok b') × Sets b p b'
unfolding set_position test
set_position-Sets b p w h =
    let byte = bit_or (get_or b.bits_space (p / 8) 0) (mask (p % 8)) in
    let inside : p / 8 < length b.bits_space = omega (arith, w.room) in
    (
      record b { bits_space = set b.bits_space (p / 8) byte },
      ground arith,
      record {
        well_formed = record {
          bytes =
              All-set IsByte b.bits_space (p / 8) byte w.bytes
                (bit_at-bit_or (p % 8) 0 _ (omega arith) (omega arith) (byte_at b (p / 8) w)).0;
          room = rw length-set w.room;
          max_room = rw length-set w.max_room;
        };
        same_total = refl;
        tests = λ q. rw (get_or-set b.bits_space (p / 8) (q / 8) byte 0 inside) (
            one_bit p q (get_or b.bits_space (p / 8) 0) (get_or b.bits_space (q / 8) 0)
              (byte_at b (p / 8) w) (λ e. ap (λ (i : ℕ). get_or b.bits_space i 0) e));
      },
    )

-- Outside the range both throw, and inside `GetPosition` reads the bit.
pub get_position-test :
    (b : BitSet) (p : ℕ)
    → ((v : ℕ) × (get_position b p ≡ ok v) × (not (v == 0) ≡ test b p) × (p < b.total_bits))
      ⊎ ((get_position b p ≡ err bloom_filter_parameter_invalid)
          × (set_position b p ≡ err bloom_filter_parameter_invalid)
          × (b.total_bits ≤ p))
unfolding get_position set_position test
get_position-test b p = elim (Bool-cases (leb b.total_bits p)) [
  | inl out ↦ inr (rw out, rw out, ground arith)
  | inr in_range ↦ inl (_, rw in_range, refl, ground arith)
]

-- A byte that is zero has no bit set.
zero_byte : (byte place : ℕ) → byte ≡ 0 → bit_at byte place ≡ false
zero_byte byte place e = rw (e, zero-bit_and (mask place))

-- Well formed, of the given size, and with no bit set.
pub record IsEmptyOf (n : ℕ) (b : BitSet) : Type 0 where
  pub well_formed : IsWellFormed b
  pub total : b.total_bits ≡ n
  pub none_set : (q : ℕ) → q < n → test b q ≡ false

fresh-IsEmptyOf :
    (n max : ℕ)
    → bytes_for max ≤ bytes_for n
    → IsEmptyOf n
        (record { bits_space = replicate (bytes_for n) 0; total_bits = n; max_total_bits = max })
unfolding test
fresh-IsEmptyOf n max h = record {
  well_formed = record {
    bytes = All-replicate IsByte (bytes_for n) 0 (omega arith);
    room = omega (arith, length-replicate {A = ℕ} (bytes_for n) 0);
    max_room = omega (arith, length-replicate {A = ℕ} (bytes_for n) 0);
  };
  total = refl;
  none_set = λ q lt. zero_byte _ (q % 8) (get_or-replicate (bytes_for n) (q / 8) 0);
}

pub new-IsEmptyOf : (n : ℕ) → IsEmptyOf n (new n)
unfolding new
new-IsEmptyOf n = fresh-IsEmptyOf n n (omega arith)

length-zeroed : (n : ℕ) (bits : List ℕ) → n ≤ length bits → length (zeroed n bits) ≡ length bits
length-zeroed n bits h = omega (
  arith,
  length-append (replicate n 0) (drop n bits),
  length-replicate {A = ℕ} n 0,
  length-drop n bits,
)

-- Zeroing the bytes that a size needs, within what is allocated, empties the set.
zeroed-IsEmptyOf :
    (n max : ℕ) (bits : List ℕ)
    → All IsByte bits
    → bytes_for n ≤ length bits
    → bytes_for max ≤ length bits
    → IsEmptyOf n
        (record { bits_space = zeroed (bytes_for n) bits; total_bits = n; max_total_bits = max })
unfolding test
zeroed-IsEmptyOf n max bits h k m = record {
  well_formed = record {
    bytes =
        All-append IsByte (replicate (bytes_for n) 0) (drop (bytes_for n) bits)
          (All-replicate IsByte (bytes_for n) 0 (omega arith))
          (All-drop IsByte (bytes_for n) bits h);
    room = rw (length-zeroed (bytes_for n) bits k) k;
    max_room = rw (length-zeroed (bytes_for n) bits k) m;
  };
  total = refl;
  none_set = λ q lt.
      zero_byte _ (q % 8)
        (get_or-replicate_append (bytes_for n) (q / 8) 0 (drop (bytes_for n) bits) (omega arith));
}

-- `Clear` keeps the size and empties the set.
pub clear-IsEmptyOf : (b : BitSet) → IsWellFormed b → IsEmptyOf b.total_bits (clear b)
unfolding clear
clear-IsEmptyOf b w =
    zeroed-IsEmptyOf b.total_bits b.max_total_bits b.bits_space w.bytes w.room w.max_room
