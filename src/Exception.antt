-- ===== src/Exception.antt =====
-- include/exception.h: the exceptions that the modelled code throws, and a result type for it.
-- `THROW_EXCEPTION(T, text)` is `err t`; the text is for the log and is left out.
use mathlib.Core.Path.{◌≡◌, refl}
use mathlib.Core.Logic.{◌⊎◌, inl, inr}

pub data Exception : Type 0 where
  exception_base unexpected_end_of_stream stream_corrupted : Exception
  append_store_write append_store_read append_store_compression append_store_codec : Exception
  append_store_invalid_index append_store_mis_matched_ver append_store_not_exist : Exception
  append_store_factory bloom_filter_parameter_invalid bad_hash_function : Exception
  file_creation file_open file_deletion directory_deletion : Exception

pub data Result {ℓ} (A : Type ℓ) : Type ℓ where
  ok : A → Result A
  err : Exception → Result A

infixl 5 ◌>>=◌
abbrev pub ◌>>=◌ {ℓ κ} : {A : Type ℓ} {B : Type κ} → Result A → (A → Result B) → Result B
err e >>= next = err e
ok a >>= next = next a

-- To split on a result and keep the equation.
pub Result-cases {ℓ} :
    {A : Type ℓ} (r : Result A) → ((a : A) × (r ≡ ok a)) ⊎ ((e : Exception) × (r ≡ err e))
Result-cases (ok a) = inl (a, refl)
Result-cases (err e) = inr (e, refl)
