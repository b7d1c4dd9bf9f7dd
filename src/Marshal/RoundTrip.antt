-- ===== src/Marshal/RoundTrip.antt =====
-- What was serialized is deserialized, whatever follows it in the stream.
use bigarchive.Prelude.{
  ℕ, ◌%◌, ◌^◌, ◌<◌, ◌≡◌, refl, ap, ◌∙◌, List, [], ◌∷◌, ◌++◌, length, take, drop, map, All,
  append-nil, append_assoc, arith, replicate, length-replicate,
}
use bigarchive.Prelude.Words.{bytes_of, of_bytes, length-bytes_of, of_bytes-bytes_of}
use bigarchive.Exception.{ok}
use bigarchive.Marshal.Stream.{good, read-append, ◌>>=◌, >>=-ok}
use bigarchive.Marshal.{
  unless_eof, read_word, serialize_word, deserialize_word, serialize_string, deserialize_string,
  Serializable, deserialize_object, serialize_elements, serialize_vector, deserialize_elements,
  deserialize_vector,
}

pub drop-length : (xs : List ℕ) {n : ℕ} → length xs ≡ n → drop n xs ≡ []
drop-length xs e = rw (← e) (go xs)
  where
    go : (xs : List ℕ) → drop (length xs) xs ≡ []
    go [] = refl
    go (x ∷ xs) = go xs

pub take-length : (xs : List ℕ) → take (length xs) xs ≡ xs
take-length [] = refl
take-length (x ∷ xs) = ap (λ (t : List ℕ). x ∷ t) (take-length xs)

-- A complete read of a word gives the bytes read, and nothing of the old value.
pub deserialize_word-append :
    (w old : ℕ) (bs rest : List ℕ)
    → length bs ≡ w
    → deserialize_word w old (good (bs ++ rest)) ≡ ok (of_bytes bs, good rest)
unfolding deserialize_word unless_eof read_word
deserialize_word-append w old bs rest e =
    rw (read-append bs rest e, e, drop-length (bytes_of w old) (length-bytes_of w old), append-nil)

-- A word that fits its bytes is read back.
pub deserialize-serialize_word :
    (w old t : ℕ) (rest : List ℕ)
    → t < 256 ^ w
    → deserialize_word w old (good (serialize_word w t ++ rest)) ≡ ok (t, good rest)
unfolding serialize_word
deserialize-serialize_word w old t rest h = rw (
  deserialize_word-append w old (bytes_of w t) rest (length-bytes_of w t),
  of_bytes-bytes_of w t h,
)

-- A string shorter than 2 ^ 32 bytes is read back, and the stream stands behind it.
pub deserialize-serialize_string :
    (str rest : List ℕ)
    → length str < 2 ^ 32
    → deserialize_string (good (serialize_string str ++ rest)) ≡ ok (str, good rest)
unfolding serialize_string deserialize_string
deserialize-serialize_string str rest h =
    let n : length str % 2 ^ 32 ≡ length str = omega arith in
    rw (n, take-length, append_assoc)
      (>>=-ok (deserialize_word 4 0) _
          (deserialize-serialize_word 4 0 (length str) (str ++ rest) (omega arith))
        ∙ rw (
          read-append str rest refl,
          drop-length (replicate (length str) 0) (length-replicate (length str) 0),
          append-nil,
          take-length,
        ))

-- A class whose objects are read back into new ones: those that fit, up to the members that are not stored.
pub record ReadsBack {A : Type 0} (T : Serializable A) : Type 1 where
  pub Fits : A → Type 0
  pub restored : A → A
  pub round :
      (a : A) (rest : List ℕ)
      → Fits a
      → T.deserialize T.new (good (T.serialize a ++ rest)) ≡ ok (restored a, good rest)

module _ {A : Type 0} (T : Serializable A) (law : ReadsBack T) where
  deserialize-serialize_object :
      (x : A) (rest : List ℕ)
      → law.Fits x
      → deserialize_object T T.new (good (T.serialize x ++ rest)) ≡ ok (law.restored x, good rest)
  unfolding deserialize_object unless_eof
  deserialize-serialize_object = law.round

  deserialize-serialize_elements :
      (v : List A) (rest : List ℕ)
      → All law.Fits v
      → deserialize_elements T (length v) (good (serialize_elements T v ++ rest))
        ≡ ok (map (law.restored) v, good rest)
  unfolding serialize_elements deserialize_elements
  deserialize-serialize_elements [] rest h = refl
  deserialize-serialize_elements (x ∷ xs) rest (hx, hs) = rw (
    append_assoc,
    deserialize-serialize_object x _ hx,
    ◌>>=◌,
    deserialize-serialize_elements xs rest hs,
  )

  -- A vector is read back element by element, each into a new object.
  pub deserialize-serialize_vector :
      (v : List A) (rest : List ℕ)
      → All law.Fits v
      → length v < 2 ^ 32
      → deserialize_vector T (good (serialize_vector T v ++ rest))
        ≡ ok (map (law.restored) v, good rest)
  unfolding serialize_vector deserialize_vector
  deserialize-serialize_vector v rest h fits =
      let n : length v % 2 ^ 32 ≡ length v = omega arith in
      rw (n, append_assoc)
        (>>=-ok (deserialize_word 4 0) _ (
            deserialize-serialize_word 4 0 (length v) (serialize_elements T v ++ rest)
              (omega arith))
          ∙ deserialize-serialize_elements v rest h)
