-- ===== src/AppendStore/Chunk/Extract.antt =====
-- A block that records were put in gives each of them back.
use bigarchive.Prelude.{
  ℕ, zero, suc, ◌%◌, ◌^◌, ◌<◌, ◌≤◌, ◌≡◌, refl, Bool, true, false, ◌||◌, some, List, [], ◌∷◌, ◌++◌,
  length, take, All, length-append, append-nil, arith, Bool-cases, inl, inr, ◌==◌, if◌then◌else◌,
}
use bigarchive.Prelude.Words.{bytes_of, length-bytes_of}
use bigarchive.Exception.{ok}
use bigarchive.Marshal.Stream.{good}
use bigarchive.Marshal.{serialize_word, serialize_string}
use bigarchive.AppendStore.Types.Handle.{Handle}
use bigarchive.AppendStore.Types.Cache
use bigarchive.AppendStore.Types.Cache.{Cache}
use bigarchive.AppendStore.Types.Records.{DataRecord, data_record, serialize_data}
use bigarchive.AppendStore.Types.RecordLaws.{DataFits, deserialize-serialize_data}
use bigarchive.Fs.{Kfs}
use bigarchive.AppendStore.Chunk.{Chunk, is_valid, extract_loop, extract_data_from_block}

-- the buffer after these records were put in
unfoldable pub serialize_all : List DataRecord → List ℕ
serialize_all [] = []
serialize_all (r ∷ rs) = serialize_data r ++ serialize_all rs

-- a record that `Append` makes
pub record IsStored (r : DataRecord) : Type 0 where
  pub fits : DataFits r
  pub valid : is_valid r.index ≡ true

-- the last of the records with an index, over what `*data` was
unfoldable pub value_of : ℕ → List DataRecord → List ℕ → List ℕ
value_of index [] old = old
value_of index (r ∷ rs) old =
    let found = value_of index rs r.val in
    let skipped = value_of index rs old in if r.index == index then found else skipped

unfoldable pub has_index : ℕ → List DataRecord → Bool
has_index index [] = false
has_index index (r ∷ rs) = r.index == index || has_index index rs

-- what the records put in the cache
unfoldable pub cached : ℕ → List DataRecord → Cache → Cache
cached chunk_id [] c = c
cached chunk_id (r ∷ rs) c =
    cached chunk_id rs (Cache.insert c (record { chunk_id = chunk_id; index = r.index }) r.val)

pub serialize_data-positive :
    (r : DataRecord) (rest : List ℕ) → (length (serialize_data r ++ rest) == 0) ≡ false
unfolding serialize_data serialize_string serialize_word
serialize_data-positive r rest =
    let n = length r.val % 2 ^ 32 in
    ground (
      arith,
      length-append (serialize_data r) rest,
      length-append (serialize_string r.val) (bytes_of 8 r.index),
      length-append (bytes_of 4 n) (take n r.val),
      length-bytes_of 4 n,
    )

or_false : (b : Bool) → (b || false) ≡ b
or_false true = refl
or_false false = refl

or_true : (b : Bool) → (b || true) ≡ true
or_true true = refl
or_true false = refl

extract_loop-serialize_all :
    (fuel chunk_id index : ℕ) (ret : Bool) (old : List ℕ) (c : Cache) (rs : List DataRecord)
    → length rs < fuel
    → All IsStored rs
    → extract_loop fuel chunk_id index ret old c (good (serialize_all rs))
      ≡ some (ok (ret || has_index index rs), value_of index rs old, cached chunk_id rs c)
unfolding extract_loop serialize_all value_of has_index cached
extract_loop-serialize_all zero chunk_id index ret old c rs h st = absurd (omega arith)
extract_loop-serialize_all (suc fuel) chunk_id index ret old c [] h st = rw (or_false ret) refl
extract_loop-serialize_all (suc fuel) chunk_id index ret old c (r ∷ rs) h (hr, hs) =
    let key : Handle = record { chunk_id = chunk_id; index = r.index } in
    let hit =
      extract_loop-serialize_all fuel chunk_id index true r.val (Cache.insert c key r.val) rs
        (omega arith) hs in
    let miss =
      extract_loop-serialize_all fuel chunk_id index ret old (Cache.insert c key r.val) rs
        (omega arith) hs in
    rw
      (
        extract_loop,
        deserialize-serialize_data data_record.new r (serialize_all rs) hr.fits,
        serialize_data-positive r (serialize_all rs),
        hr.valid,
      )
      (elim (Bool-cases (r.index == index)) [
        | inl same ↦ rw (same, hit, or_true ret) refl
        | inr other ↦ rw (other, miss) refl
      ])

length-serialize_all : (rs : List DataRecord) → length rs ≤ length (serialize_all rs)
unfolding serialize_all
length-serialize_all [] = omega arith
length-serialize_all (r ∷ rs) = ground (
  arith,
  length-append (serialize_data r) (serialize_all rs),
  serialize_data-positive r [],
  append-nil (serialize_data r),
  length-serialize_all rs,
)

module _ (kfs : Kfs) where
  -- From the records of a block, each as `Append` makes them, `ExtractDataFromBlock` ends and gives
  -- the data of the last record with the index, tells whether there was one, and leaves exactly the
  -- records of the block in the cache.
  pub extract_data_from_block-serialize_all :
      (rs : List DataRecord) (index : ℕ) (old : List ℕ) (c : Chunk kfs.File) (cache : Cache)
      → c.cache ≡ some cache
      → All IsStored rs
      → extract_data_from_block kfs (serialize_all rs) index old c
        ≡ some (
          ok (has_index index rs),
          value_of index rs old,
          record c { cache = some (cached c.chunk_id rs []) },
        )
  unfolding extract_data_from_block Cache.clear
  extract_data_from_block-serialize_all rs index old c cache e st =
      rw
        (
          extract_data_from_block,
          e,
          extract_loop-serialize_all (suc (length (serialize_all rs))) c.chunk_id index false old []
              rs (omega (arith, length-serialize_all rs)) st,
        )
        refl
