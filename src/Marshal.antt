-- ===== src/Marshal.antt =====
-- include/serialize.h, `namespace marshall`: writing to a stream is the list of bytes written, and
-- reading is a `Parser`. `Deserialize(t, is)` overwrites `t`, so it takes the old value: a short
-- read leaves the bytes of `t` that it did not reach.
pub mod Stream
pub mod RoundTrip
use bigarchive.Prelude.{
  ℕ, zero, suc, ◌%◌, ◌^◌, List, [], ◌∷◌, ◌++◌, length, take, replicate, if◌then◌else◌,
}
use bigarchive.Prelude.Words.{bytes_of, of_bytes, overwrite}
use bigarchive.Exception.{ok, err, unexpected_end_of_stream}
use Stream.{IStream, read, Parser, ◌>>=◌, pure}

-- `if (is.eof()) throw …` in front of every `Deserialize`
unfoldable pub unless_eof : {A : Type 0} → Parser A → Parser A
unless_eof m s = if s.eof then err unexpected_end_of_stream else m s

-- `is.read((char*)&t, w)` into an unsigned integer of `w` bytes that held `old`
unfoldable pub read_word : ℕ → ℕ → Parser ℕ
read_word w old s = let (got, s') = read w s in ok (of_bytes (overwrite got (bytes_of w old)), s')

-- `os.write((char*)&t, sizeof(t))`, for each of the integer types
unfoldable pub serialize_word : ℕ → ℕ → List ℕ
serialize_word w t = bytes_of w t

unfoldable pub deserialize_word : ℕ → ℕ → Parser ℕ
unfolding unless_eof read_word
deserialize_word w old = unless_eof (read_word w old)

unfoldable pub serialize_string : List ℕ → List ℕ
serialize_string str = let s = length str % 2 ^ 32 in serialize_word 4 s ++ take s str

-- `s` and `buf` start uninitialised; the model has zero there, which no complete read shows.
unfoldable pub deserialize_string : Parser (List ℕ)
deserialize_string = do
  s ← deserialize_word 4 0
  λ is. let (buf, is') = read s is in ok (take s (overwrite buf (replicate s 0)), is')

-- `class Serializable`: the virtual functions that every stored class overrides.
pub record Serializable (A : Type 0) : Type 0 where
  pub serialize : A → List ℕ
  pub deserialize : A → Parser A
  pub new : A

module _ {A : Type 0} (T : Serializable A) where
  -- the generic `Deserialize(T& t, std::istream& is)`
  unfoldable pub deserialize_object : A → Parser A
  deserialize_object old = unless_eof (T.deserialize old)

  unfoldable pub serialize_elements : List A → List ℕ
  serialize_elements [] = []
  serialize_elements (x ∷ xs) = T.serialize x ++ serialize_elements xs

  unfoldable pub serialize_vector : List A → List ℕ
  serialize_vector v = serialize_word 4 (length v % 2 ^ 32) ++ serialize_elements v

  -- the loop over the elements that `v.resize(s)` made
  unfoldable pub deserialize_elements : ℕ → Parser (List A)
  deserialize_elements zero = pure []
  deserialize_elements (suc s) = do
    x ← deserialize_object T.new
    xs ← deserialize_elements s
    pure (x ∷ xs)

  unfoldable pub deserialize_vector : Parser (List A)
  deserialize_vector = do s ← deserialize_word 4 0; deserialize_elements s
