-- ===== src/AppendStore/Types/Cache.antt =====
-- `Cache`: a `std::map` from handles to data, as an association list; the order of the map shows
-- in no result. Sizes are `uint32_t`.
use bigarchive.Prelude.{
  ℕ, ◌+◌, ◌%◌, ◌^◌, ◌≡◌, Option, none, some, List, [], ◌∷◌, length, if◌then◌else◌, arith,
}
use bigarchive.AppendStore.Types.Handle.{Handle, eq}
use bigarchive.AppendStore.Types.HandleLaws.{eq_iff}

abbrev pub Cache : Type 0
Cache = List (Handle × List ℕ)

-- `Find`: the data that `*data` receives, or `false`
unfoldable pub find : Cache → Handle → Option (List ℕ)
find [] idx = none
find ((k, v) ∷ c) idx = if eq k idx then some v else find c idx

-- `std::map::insert` changes nothing if the key is there.
unfoldable pub insert : Cache → Handle → List ℕ → Cache
insert c idx bytes = elim (find c idx) [ none ↦ (idx, bytes) ∷ c | some v ↦ c ]

unfoldable pub remove : Cache → Handle → Cache
remove [] idx = []
remove ((k, v) ∷ c) idx = let rest = remove c idx in if eq k idx then rest else (k, v) ∷ rest

unfoldable pub clear : Cache → Cache
clear c = []

unfoldable pub size : Cache → ℕ
size c = length c % 2 ^ 32

-- the loop of `GetTotalSize`, from the sum so far
unfoldable pub total_size_from : ℕ → Cache → ℕ
total_size_from sum [] = sum
total_size_from sum ((k, v) ∷ c) = total_size_from ((sum + length v) % 2 ^ 32) c

unfoldable pub get_total_size : Cache → ℕ
get_total_size c = total_size_from 0 c

-- A lookup after a removal.
pub find-remove :
    (c : Cache) (k j : Handle) → find (remove c k) j ≡ (if eq k j then none else find c j)
unfolding remove find
find-remove [] k j = ground arith
find-remove ((i, v) ∷ c) k j = ground (arith, find-remove c k j, eq_iff i k, eq_iff i j, eq_iff k j)
