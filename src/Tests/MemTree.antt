-- ===== src/Tests/MemTree.antt =====
-- The client by names, on files in memory.
use bigarchive.Prelude.{
  ℕ, ◌≡◌, refl, ap, Bool, true, false, Option, none, some, List, [], ◌∷◌, arith, Bool-cases, ◌==◌,
  inl, inr, if◌then◌else◌,
}
use bigarchive.Fs.Tree.{KfsTree, TreeLaws, Mkdirs}
use bigarchive.AppendStore.Codec.{same_name}
use bigarchive.Tests.Chunks.{MemFile, mem, mem_laws, empty_file}

-- the rest of a name after a directory's
unfoldable pub rest_of : List ℕ → List ℕ → Option (List ℕ)
rest_of [] name = some name
rest_of (c ∷ dir) [] = none
rest_of (c ∷ dir) (d ∷ name) = if c == d then rest_of dir name else none

abbrev pub Files : Type 0
Files = List (List ℕ × MemFile)

unfoldable pub find : List ℕ → Files → Option MemFile
find n [] = none
find n ((m, f) ∷ t) = if same_name m n then some f else find n t

unfoldable pub has : List ℕ → Files → Bool
has n [] = false
has n ((m, f) ∷ t) = if same_name m n then true else has n t

abbrev pub found : Option MemFile → MemFile
found none = empty_file
found (some f) = f

unfoldable pub file : List ℕ → Files → MemFile
file n t = found (find n t)

unfoldable pub store : List ℕ → MemFile → Files → Files
store n f [] = (n, f) ∷ []
store n f ((m, g) ∷ t) = if same_name m n then (n, f) ∷ t else (m, g) ∷ store n f t

unfoldable pub erase : List ℕ → Files → Files
erase n [] = []
erase n ((m, g) ∷ t) = if same_name m n then erase n t else (m, g) ∷ erase n t

unfoldable pub list : List ℕ → Files → List (List ℕ)
list dir [] = []
list dir ((n, f) ∷ t) = elim (rest_of dir n) [ none ↦ list dir t | some name ↦ name ∷ list dir t ]

unfoldable pub create : List ℕ → Files → Bool × Files
create n t = if has n t then (false, t) else (true, store n empty_file t)

unfoldable pub make_dir : List ℕ → Files → Mkdirs × Files
make_dir n t = if has n t then (Mkdirs.there, t) else (Mkdirs.made, store n empty_file t)

unfoldable pub remove : List ℕ → Files → Bool × Files
remove n t = if has n t then (true, erase n t) else (false, t)

abbrev pub mem_tree : KfsTree mem
mem_tree = record {
  Tree = Files;
  exists = has;
  create = create;
  remove = remove;
  mkdirs = make_dir;
  rmdirs = remove;
  read_dir = list;
  file = file;
  store = store;
}

same_name_refl : (n : List ℕ) → same_name n n ≡ true
unfolding same_name
same_name_refl [] = refl
same_name_refl (c ∷ n) = ground (arith, same_name_refl n)

same_name_sound : (n m : List ℕ) → same_name n m ≡ true → n ≡ m
unfolding same_name
same_name_sound [] [] e = refl
same_name_sound [] (d ∷ m) e = absurd (cc)
same_name_sound (c ∷ n) [] e = absurd (cc)
same_name_sound (c ∷ n) (d ∷ m) e =
    let here : c ≡ d = ground (arith, e) in
    let there : same_name n m ≡ true = ground (arith, e) in
    rw (here, same_name_sound n m there) refl

find-store : (n : List ℕ) (f : MemFile) (t : Files) → find n (store n f t) ≡ some f
unfolding find store
find-store n f [] = rw (same_name_refl n) refl
find-store n f ((m, g) ∷ t) = elim (Bool-cases (same_name m n)) [
  | inl same ↦ rw (same, same_name_refl n) refl
  | inr other ↦ rw (other, other) (find-store n f t)
]

find-store_other :
    (n m : List ℕ) (f : MemFile) (t : Files)
    → same_name n m ≡ false
    → find m (store n f t) ≡ find m t
unfolding find store
find-store_other n m f [] e = rw e refl
find-store_other n m f ((l, g) ∷ t) e = elim (Bool-cases (same_name l n)) [
  | inl same ↦ rw (same, e, same_name_sound l n same, e) refl
  | inr other ↦ rw other (
      ap (λ (r : Option MemFile). if same_name l m then some g else r) (find-store_other n m f t e))
]

has-store : (n m : List ℕ) (f : MemFile) (t : Files) → has m t ≡ true → has m (store n f t) ≡ true
unfolding has store
has-store n m f [] e = absurd (cc e)
has-store n m f ((l, g) ∷ t) e = elim (Bool-cases (same_name l n)) [
  | inl same ↦ elim (Bool-cases (same_name n m)) [
    | inl this ↦ rw (same, this) refl
    | inr other ↦ rw (same, other) (rw (same_name_sound l n same, other) at e)
  ]
  | inr other ↦ rw other (elim (Bool-cases (same_name l m)) [
    | inl this ↦ rw this refl
    | inr not_this ↦ rw not_this (has-store n m f t (rw not_this at e))
  ])
]

pub mem_tree-TreeLaws : TreeLaws mem mem_laws mem_tree
unfolding file
mem_tree-TreeLaws = record {
  file_store = λ n f t. ap found (find-store n f t);
  file_store_other = λ n m f t ne. elim (Bool-cases (same_name n m)) [
    | inl same ↦ absurd (ne (same_name_sound n m same))
    | inr other ↦ ap found (find-store_other n m f t other)
  ];
  exists_store = has-store;
  open_read_keeps = λ f. refl;
  sync_keeps = λ f. refl;
}
