-- ===== src/AppendStore/Codec.antt =====
-- append-store/CompressionCodec.h and .cpp, and LzoCompressor.cpp. miniLZO is a library, which comes
-- in as the interface `Lzo`; an output buffer stands for the bytes that were put there.
use bigarchive.Prelude.{
  ℕ, ◌+◌, ◌/◌, ◌%◌, ◌^◌, ◌≡◌, Bool, true, false, Option, none, some, List, [], ◌∷◌, ◌&&◌, ◌==◌,
  if◌then◌else◌,
}

-- `CompressionCodec`: `none` is a return value below zero.
pub record Codec : Type 0 where
  pub get_buffer_size : ℕ → ℕ
  pub compress : List ℕ → Option (List ℕ)
  pub decompress : List ℕ → Option (List ℕ)

-- `lzo1x_1_compress` and `lzo1x_decompress`: `none` is another code than `LZO_E_OK`
pub record Lzo : Type 0 where
  pub compress : List ℕ → Option (List ℕ)
  pub decompress : List ℕ → Option (List ℕ)

unfoldable pub lzo_buffer_size : ℕ → ℕ
lzo_buffer_size value = (value + value / 16 + 64 + 3) % 2 ^ 32

unfoldable pub lzo_codec : Lzo → Bool → Codec
lzo_codec lzo is_writer = record {
  get_buffer_size = λ size. elim is_writer [ true ↦ lzo_buffer_size size | false ↦ 0 ];
  compress = λ bytes. elim is_writer [ true ↦ lzo.compress bytes | false ↦ none ];
  decompress = lzo.decompress;
}

unfoldable pub none_codec : Codec
none_codec = record {
  get_buffer_size = λ size. (size + 1) % 2 ^ 32;
  compress = λ bytes. some bytes;
  decompress = λ bytes. some bytes;
}

-- `LzoCodec::mName` and `NoneCodec::mName`
abbrev pub lzo_name : List ℕ
lzo_name = b'l' ∷ b'z' ∷ b'o' ∷ []

abbrev pub none_name : List ℕ
none_name = b'n' ∷ b'o' ∷ b'n' ∷ b'e' ∷ []

-- `strcmp(a, b) == 0`
unfoldable pub same_name : List ℕ → List ℕ → Bool
same_name [] [] = true
same_name [] (y ∷ b) = false
same_name (x ∷ a) [] = false
same_name (x ∷ a) (y ∷ b) = x == y && same_name a b

unfoldable pub get_codec : Lzo → List ℕ → Bool → Option Codec
get_codec lzo name writeflag =
    if same_name name lzo_name
    then some (lzo_codec lzo writeflag)
    else if same_name name none_name
    then some none_codec
    else none

-- What the chunk relies on: what was compressed is decompressed, and the buffer has room for it.
pub record CodecLaws (c : Codec) : Type 0 where
  pub decompress-compress :
      (bytes out : List ℕ) → c.compress bytes ≡ some out → c.decompress out ≡ some bytes
