-- ===== src/AppendStore/Chunk/Blocks.antt =====
-- The blocks of a chunk that was written by `Append`: its data file, its index, and where a record is.
pub mod Locate
pub mod Find
pub mod Append
pub mod Steps
pub mod Flush
pub mod Waiting
pub mod Reopen
use bigarchive.Prelude.{ℕ, zero, suc, ◌+◌, ◌^◌, ◌<◌, ◌≤◌, List, [], ◌∷◌, ◌++◌, length, All}
use bigarchive.AppendStore.Types.Records.{DataRecord}
use bigarchive.AppendStore.Index.{IndexRecord}
use bigarchive.AppendStore.Codec.{Codec}
use bigarchive.AppendStore.Chunk.Extract.{serialize_all}
use bigarchive.AppendStore.Chunk.Read.{IsBlock, image}
use bigarchive.Fs.Log.{frame}

-- The values of a block, and what the codec made of their records.
pub record Block : Type 0 where
  pub vals : List (List ℕ)
  pub out : List ℕ

-- the records of values that are appended after the index `low`
unfoldable pub records_from : ℕ → List (List ℕ) → List DataRecord
records_from low [] = []
records_from low (v ∷ vs) = record { val = v; index = suc low } ∷ records_from (suc low) vs

abbrev pub next : ℕ → Block → ℕ
next low b = low + length b.vals

abbrev pub block_bytes : ℕ → Block → List ℕ
block_bytes low b = serialize_all (records_from low b.vals)

abbrev pub block_frame : Codec → ℕ → Block → List ℕ
block_frame codec low b = frame (image codec (next low b) (length b.vals) (block_bytes low b) b.out)

-- the data file of these blocks
unfoldable pub data_of : Codec → ℕ → List Block → List ℕ
data_of codec low [] = []
data_of codec low (b ∷ bs) = block_frame codec low b ++ data_of codec (next low b) bs

-- their index records, when the first block starts at the offset `p`
unfoldable pub entries : Codec → ℕ → ℕ → List Block → List IndexRecord
entries codec low p [] = []
entries codec low p (b ∷ bs) =
    let end = p + length (block_frame codec low b) in
    record { offset = end; index = next low b } ∷ entries codec (next low b) end bs

unfoldable pub all_vals : List Block → List (List ℕ)
all_vals [] = []
all_vals (b ∷ bs) = b.vals ++ all_vals bs

-- One block whose numbers fit their words and whose indexes stay below 2 ^ 62.
pub record BlockOk (codec : Codec) (low : ℕ) (b : Block) : Type 0 where
  pub block : IsBlock codec (next low b) (length b.vals) (block_bytes low b) b.out
  pub small : length (image codec (next low b) (length b.vals) (block_bytes low b) b.out) < 2 ^ 32
  pub vals_fit : All (λ (v : List ℕ). length v < 2 ^ 32) b.vals
  pub valid : next low b < 2 ^ 62

unfoldable pub AreBlocks : Codec → ℕ → List Block → Type 0
AreBlocks codec low [] = Unit
AreBlocks codec low (b ∷ bs) = BlockOk codec low b × AreBlocks codec (next low b) bs
