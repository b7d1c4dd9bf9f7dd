-- ===== src/AppendStore/Index.antt =====
-- append-store/append_store_index.h and .cpp: the index of a chunk, one record for each flushed
-- block, by the last handle index in the block and the end of the block in the data file.
pub mod Search
pub mod Load
pub mod Bytes
use bigarchive.Prelude.{
  ℕ, zero, suc, ◌+◌, ◌-◌, ◌/◌, Bool, true, false, ◌&&◌, Option, none, some, List, ◌++◌, length,
  take, drop, get_elem?, ltb, leb, ◌==◌, if◌then◌else◌,
}
use mathlib.Core.Option
use bigarchive.Prelude.Words.{bytes_of, of_bytes}
use bigarchive.Exception.{ok}
use bigarchive.Marshal.Stream.{Parser, ◌>>=◌, pure}
use bigarchive.Marshal.{serialize_word, deserialize_word, Serializable}

pub record IndexRecord : Type 0 where
  pub offset : ℕ
  pub index : ℕ

unfoldable pub serialize_index : IndexRecord → List ℕ
serialize_index r = serialize_word 8 r.offset ++ serialize_word 8 r.index

unfoldable pub deserialize_index : IndexRecord → Parser IndexRecord
deserialize_index old = do
  offset ← deserialize_word 8 old.offset
  index ← deserialize_word 8 old.index
  pure (record { offset = offset; index = index })

abbrev pub index_record : Serializable IndexRecord
index_record = record {
  serialize = serialize_index;
  deserialize = deserialize_index;
  new = record { offset = 0; index = 0 };
}

-- `Size()`, the length of the image in the index file
abbrev pub record_size : ℕ
record_size = 16

-- The image that `toBuffer` writes into a buffer of `Size()` bytes, and `fromBuffer`.
unfoldable pub to_buffer : IndexRecord → List ℕ
to_buffer r = bytes_of 8 r.offset ++ bytes_of 8 r.index

unfoldable pub from_buffer : List ℕ → IndexRecord
from_buffer buffer = record {
  offset = of_bytes (take 8 buffer);
  index = of_bytes (take 8 (drop 8 buffer));
}

-- What one round of `bisearch` decides.
pub data Verdict : Type 0 where
  here go_right go_left : Verdict

-- the last two tests of a round
abbrev pub past_or_before : ℕ → IndexRecord → Verdict
past_or_before key x = if ltb x.index key then go_right else go_left

-- The tests of one round, in their order; `none` is a read outside the vector.
unfoldable pub probe : List IndexRecord → ℕ → ℕ → Option Verdict
probe val_v key mid = elim (get_elem? val_v mid) [
  | none ↦ none
  | some x ↦
      if leb key x.index && mid == 0
      then some here
      else if leb key x.index
      then (elim (get_elem? val_v (mid - 1)) [
        | none ↦ none
        | some y ↦ if ltb y.index key then some here else some (past_or_before key x)
      ])
      else some (past_or_before key x)
]

-- What the round does with its verdict; `again` is the next round.
unfoldable pub follow : (ℕ → ℕ → Option (Bool × ℕ)) → ℕ → ℕ → ℕ → Option Verdict → Option (Bool × ℕ)
follow again first mid end none = none
follow again first mid end (some here) = some (true, mid)
follow again first mid end (some go_right) = again (mid + 1) end
follow again first mid end (some go_left) = again first mid

-- The loop of `bisearch`. `int last` can be -1, so it is kept as `end = last + 1`. The result is
-- `found` and `pos`; `none` is a read outside the vector, or no fuel.
unfoldable pub bisearch_loop : ℕ → List IndexRecord → ℕ → ℕ → ℕ → Option (Bool × ℕ)
bisearch_loop zero val_v key first end = none
bisearch_loop (suc fuel) val_v key first end =
    let mid = (first + (end - 1)) / 2 in
    let next = follow (bisearch_loop fuel val_v key) first mid end (probe val_v key mid) in
    if ltb first end then next else some (false, end)

-- Each round shortens the range, so one round more than its length is enough.
unfoldable pub bisearch : List IndexRecord → ℕ → ℕ → ℕ → Option (Bool × ℕ)
bisearch val_v start nele key = bisearch_loop (suc nele) val_v key start (start + nele)

-- `IndexVector::find`: the position of the entry, or `end()`, which is the length
abbrev pub iterator : List IndexRecord → Bool × ℕ → ℕ
iterator values (found, pos) = if found then pos else length values

unfoldable pub find : List IndexRecord → ℕ → Option ℕ
find values key = Option.map (iterator values) (bisearch values 0 (length values) key)
