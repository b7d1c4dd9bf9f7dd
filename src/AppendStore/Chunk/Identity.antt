-- ===== src/AppendStore/Chunk/Identity.antt =====
-- No operation of a chunk changes its number.
use bigarchive.Prelude.{ℕ, ◌≡◌, refl, Bool, false, some, List, arith}
use bigarchive.Exception.{Result, ok}
use bigarchive.Fs.{Kfs}
use bigarchive.Fs.Tree.{KfsTree}
use bigarchive.AppendStore.Chunk.{
  Chunk, append_raw, append_entry, append_index, flush, buffered, append, enable_write,
  disable_write, disable_read, load_index, read, read_block, read_raw, extract_data_from_block,
}
use bigarchive.AppendStore.Chunk.Files.{ChunkParameter, enable_read, load_data, close, initial, new}

module _ (kfs : Kfs) where
  open kfs use {File}

  chunk_id-append_raw :
      (index n : ℕ) (bytes : List ℕ) (c : Chunk File)
      → (append_raw kfs index n bytes c).1.chunk_id ≡ c.chunk_id
  unfolding append_raw
  chunk_id-append_raw index n bytes c = refl

  chunk_id-append_entry : (c : Chunk File) → (append_entry kfs c).1.chunk_id ≡ c.chunk_id
  unfolding append_entry
  chunk_id-append_entry c = ground arith

  chunk_id-append_index : (c : Chunk File) → (append_index kfs c).1.chunk_id ≡ c.chunk_id
  unfolding append_index append_raw append_entry
  chunk_id-append_index c = ground arith

  pub chunk_id-flush : (c : Chunk File) → (flush kfs c).1.chunk_id ≡ c.chunk_id
  unfolding flush
  chunk_id-flush c = ground (arith, chunk_id-append_index c)

  pub chunk_id-append :
      (bytes : List ℕ) (c : Chunk File) → (append kfs bytes c).1.chunk_id ≡ c.chunk_id
  unfolding append buffered
  chunk_id-append bytes c = ground (arith, chunk_id-append_index (buffered kfs bytes c))

  pub chunk_id-enable_write : (c : Chunk File) → (enable_write kfs c).1.chunk_id ≡ c.chunk_id
  unfolding enable_write
  chunk_id-enable_write c = ground arith

  pub chunk_id-enable_read : (c : Chunk File) → (enable_read kfs c).1.chunk_id ≡ c.chunk_id
  unfolding enable_read
  chunk_id-enable_read c = ground arith

  pub chunk_id-close : (c : Chunk File) → (close kfs c).1.chunk_id ≡ c.chunk_id
  unfolding close disable_write disable_read
  chunk_id-close c = ground (arith, chunk_id-flush c)

  data_input_open-append_index :
      (c : Chunk File) → (append_index kfs c).1.data_input_open ≡ c.data_input_open
  unfolding append_index append_raw append_entry
  data_input_open-append_index c = ground arith

  -- A chunk that is not open for reading is not after its closing.
  pub data_input_open-close :
      (c : Chunk File) → c.data_input_open ≡ false → (close kfs c).1.data_input_open ≡ false
  unfolding close flush disable_write disable_read
  data_input_open-close c off = ground (arith, data_input_open-append_index c)

  chunk_id-load_data : (wr : Bool) (c : Chunk File) → (load_data kfs wr c).1.chunk_id ≡ c.chunk_id
  unfolding load_data
  chunk_id-load_data wr c = ground (arith, chunk_id-enable_write c, chunk_id-enable_read c)

  chunk_id-load_index : (c c' : Chunk File) → load_index kfs c ≡ some c' → c'.chunk_id ≡ c.chunk_id
  unfolding load_index
  chunk_id-load_index c c' e = ground arith

  pub chunk_id-extract :
      (buf : List ℕ) (i : ℕ) (old got : List ℕ) (res : Result Bool) (c c' : Chunk File)
      → extract_data_from_block kfs buf i old c ≡ some (res, got, c')
      → c'.chunk_id ≡ c.chunk_id
  unfolding extract_data_from_block
  chunk_id-extract buf i old got res c c' e = ground arith

  chunk_id-read_raw :
      (offset : ℕ) (c : Chunk File) → (read_raw kfs offset c).1.chunk_id ≡ c.chunk_id
  unfolding read_raw
  chunk_id-read_raw offset c = ground arith

  chunk_id-read_block :
      (n i : ℕ) (old got : List ℕ) (res : Result Bool) (c c' : Chunk File)
      → read_block kfs n i old c ≡ some (res, got, c')
      → c'.chunk_id ≡ c.chunk_id
  unfolding read_block
  chunk_id-read_block n i old got res c c' e = grind (arith, chunk_id-read_raw, chunk_id-extract)

  pub chunk_id-read :
      (i : ℕ) (old got : List ℕ) (res : Result Bool) (c c' : Chunk File)
      → read kfs i old c ≡ some (res, got, c')
      → c'.chunk_id ≡ c.chunk_id
  unfolding read
  chunk_id-read i old got res c c' e = grind (arith, chunk_id-read_block)

  module _ (tree : KfsTree kfs) where
    pub chunk_id-new :
        (p : ChunkParameter) (t t' : tree.Tree) (c : Chunk File)
        → new kfs tree p t ≡ some (ok c, t')
        → c.chunk_id ≡ p.chunk_id
    unfolding new initial
    chunk_id-new p t t' c e = grind (arith, chunk_id-load_data, chunk_id-load_index)
