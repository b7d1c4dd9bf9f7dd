-- ===== src/Snapshot/Trace.antt =====
-- snapshot/trace_types.h and .cpp: checksums, the blocks of a scan trace, and segments of blocks.
-- A checksum is its 20 bytes. SHA-1 is OpenSSL's: it comes in as the interface `Sha`.
pub mod Order
pub mod Blocks
pub mod MinHash
pub mod Loading
use Prim.Native.Nat.{Ordering, compare}
use bigarchive.Prelude.{
  ℕ, zero, suc, ◌+◌, ◌-◌, ◌*◌, ◌/◌, ◌%◌, ◌^◌, Bool, true, false, not, Option, none, some, List, [],
  ◌∷◌, ◌++◌, length, take, drop, get_elem?, replicate, ltb, leb, ◌==◌, if◌then◌else◌,
}
use bigarchive.Prelude.Words.{bytes_of, of_bytes, overwrite, hex_digit}
use bigarchive.Marshal.Stream.{IStream, read}

abbrev pub cksum_len : ℕ
cksum_len = 20

abbrev pub record_size : ℕ
record_size = 36

abbrev pub fix_segment_size : ℕ
fix_segment_size = 2 * 1024 * 1024

abbrev pub Checksum : Type 0
Checksum = List ℕ

-- `Checksum()`
abbrev pub zero_checksum : Checksum
zero_checksum = replicate cksum_len 0

-- `memcmp(a, b, CKSUM_LEN)` on two checksums
unfoldable pub mem_cmp : Checksum → Checksum → Ordering
mem_cmp [] b = Ordering.eq
mem_cmp (x ∷ a) [] = Ordering.eq
mem_cmp (x ∷ a) (y ∷ b) =
    let rest = mem_cmp a b in if ltb x y then Ordering.lt else if ltb y x then Ordering.gt else rest

unfoldable pub eq : Checksum → Checksum → Bool
eq a b = elim (mem_cmp a b) [ Ordering.eq ↦ true | _ ↦ false ]

unfoldable pub ne : Checksum → Checksum → Bool
ne a b = elim (mem_cmp a b) [ Ordering.eq ↦ false | _ ↦ true ]

unfoldable pub lt : Checksum → Checksum → Bool
lt a b = elim (mem_cmp a b) [ Ordering.lt ↦ true | _ ↦ false ]

unfoldable pub checksum_to_stream : Checksum → List ℕ
checksum_to_stream c = take cksum_len c

-- the result, the checksum after it, and the stream after it
unfoldable pub checksum_from_stream : Checksum → IStream → Bool × Checksum × IStream
checksum_from_stream old is =
    let (got, is') = read cksum_len is in (length got == cksum_len, overwrite got old, is')

-- `sprintf("%02x")` of each byte in turn
unfoldable pub checksum_to_string : Checksum → List ℕ
checksum_to_string [] = []
checksum_to_string (b ∷ bs) = hex_digit (b / 16) ∷ hex_digit (b % 16) ∷ checksum_to_string bs

unfoldable pub first_4_bytes : Checksum → ℕ
first_4_bytes c = of_bytes (take 4 c)

unfoldable pub last_4_bytes : Checksum → ℕ
last_4_bytes c = of_bytes (take 4 (drop (cksum_len - 4) c))

unfoldable pub middle_4_bytes : Checksum → ℕ
middle_4_bytes c = of_bytes (take 4 (drop (cksum_len - 12) c))

pub record Block : Type 0 where
  pub size : ℕ
  pub file_id : ℕ
  pub offset : ℕ
  pub cksum : Checksum

unfoldable pub block_to_stream : Block → List ℕ
block_to_stream b =
    checksum_to_stream b.cksum
    ++ (bytes_of 4 b.file_id ++ (bytes_of 4 b.size ++ bytes_of 8 b.offset))

unfoldable pub block_from_stream : Block → IStream → Bool × Block × IStream
block_from_stream old is =
    let (done, cksum, is') = checksum_from_stream old.cksum is in
    let nbytes : ℕ = record_size - cksum_len in
    let (buf, is'') = read nbytes is' in
    if not done
    then (false, record old { cksum = cksum }, is')
    else if not (length buf == nbytes)
    then (false, record old { cksum = cksum }, is'')
    else (
      true,
      record {
        file_id = of_bytes (take 4 buf);
        size = of_bytes (take 4 (drop 4 buf));
        offset = of_bytes (take 8 (drop 8 buf));
        cksum = cksum;
      },
      is'',
    )

-- OpenSSL's streaming SHA-1
pub record Sha : Type 1 where
  pub Ctx : Type 0
  pub init : Ctx
  pub update : Ctx → List ℕ → Ctx
  pub final : Ctx → Checksum

pub record Segment : Type 0 where
  pub blocklist : List Block
  pub min_idx : ℕ
  pub size : ℕ
  pub cksum : Checksum

-- `Segment()`; the checksum is that of `Checksum()`
abbrev pub new_segment : Segment
new_segment = record { blocklist = []; min_idx = 0; size = 0; cksum = zero_checksum }

-- the checksum at a place of the vector; outside it the C++ has no defined result
abbrev pub cksum_at : List Block → ℕ → Checksum
cksum_at blocks i = elim (get_elem? blocks i) [ none ↦ zero_checksum | some b ↦ b.cksum ]

unfoldable pub get_offset : Segment → ℕ
get_offset s = elim s.blocklist [ [] ↦ 0 | b ∷ bs ↦ b.offset ]

unfoldable pub get_min_hash : Segment → Checksum
get_min_hash s = cksum_at s.blocklist s.min_idx

-- the loop over the blocks
unfoldable pub blocks_to_stream : List Block → List ℕ
blocks_to_stream [] = []
blocks_to_stream (b ∷ bs) = block_to_stream b ++ blocks_to_stream bs

unfoldable pub segment_to_stream : Segment → List ℕ
segment_to_stream s = bytes_of 4 (length s.blocklist % 2 ^ 32) ++ blocks_to_stream s.blocklist

unfoldable pub segment_eq : Segment → Segment → Bool
segment_eq s other = eq s.cksum other.cksum

-- `blk` starts uninitialised in C++, and zero here.
abbrev pub blank : Block
blank = record { size = 0; file_id = 0; offset = 0; cksum = zero_checksum }

module _ (sha : Sha) where
  open sha use {Ctx, update, final}

  -- A segment that is being filled, with its context `*ctx_`.
  abbrev pub Filling : Type 0
  Filling = Segment × Ctx

  unfoldable pub init : Segment → Filling
  init s = (record s { blocklist = []; min_idx = 0; size = 0 }, sha.init)

  unfoldable pub add_block : Filling → Block → Filling
  add_block (s, ctx) blk =
      let blocks = s.blocklist ++ blk ∷ [] in
      (
        record s {
          blocklist = blocks;
          size = (s.size + blk.size) % 2 ^ 32;
          min_idx =
              if lt blk.cksum (cksum_at blocks s.min_idx) then length blocks - 1 else s.min_idx;
        },
        update ctx blk.cksum,
      )

  unfoldable pub finish : Filling → Segment
  finish (s, ctx) = record s { cksum = final ctx }

  -- the loop of `FromStream` over the `n` blocks that are left
  unfoldable pub from_stream_loop : ℕ → Block → Filling → IStream → Bool × Segment × IStream
  from_stream_loop zero blk f is = (true, finish f, is)
  from_stream_loop (suc n) blk f is =
      let (done, blk', is') = block_from_stream blk is in
      let rest = from_stream_loop n blk' (add_block f blk') is' in
      if done then rest else (false, f.0, is')

  unfoldable pub segment_from_stream : Segment → IStream → Bool × Segment × IStream
  segment_from_stream s is =
      let f = init s in
      let (got, is') = read 4 is in
      if not (length got == 4)
      then (false, f.0, is')
      else from_stream_loop (of_bytes got) blank f is'

  -- the loop of `LoadFixSize`; `none` is no fuel
  unfoldable pub load_loop : ℕ → Block → Filling → IStream → Option (Filling × IStream)
  load_loop zero blk f is = none
  load_loop (suc fuel) blk f is =
      let (done, blk', is') = block_from_stream blk is in
      let f' = add_block f blk' in
      let skip = load_loop fuel blk' f is' in
      let next = load_loop fuel blk' f' is' in
      if not done
      then some (f, is')
      else if blk'.size == 0
      then skip
      else if leb fix_segment_size f'.0.size
      then some (f', is')
      else next

  -- Each round reads at least a byte, so one round more than the bytes left is enough.
  unfoldable pub load_fix_size : Segment → IStream → Option (Bool × Segment × IStream)
  load_fix_size s is = elim (load_loop (suc (length is.rest)) blank (init s) is) [
    | none ↦ none
    | some (f, is') ↦ some (not ((finish f).size == 0), finish f, is')
  ]
