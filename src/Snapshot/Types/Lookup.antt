-- ===== src/Snapshot/Types/Lookup.antt =====
-- `BuildIndex` and `SearchBlock` find the last block of the recipe that has a checksum.
use bigarchive.Prelude.{
  ℕ, suc, ◌≡◌, refl, sym, ◌∙◌, ap, subst, true, false, Option, none, some, List, [], ◌∷◌, ◌++◌,
  length, get_elem?, append_assoc, All, arith, Bool-cases, inl, inr, if◌then◌else◌, Option-cases,
  length-append,
}
use bigarchive.Snapshot.Trace.{cksum_len, Checksum, eq}
use bigarchive.Snapshot.Trace.Order.{eq_iff}
use bigarchive.Snapshot.Types.{
  BlockMeta, BlkMap, assign, find, SegmentMeta, build_loop, build_index, search_block,
}

-- the last block with that checksum
pub last_with : Checksum → List BlockMeta → Option BlockMeta
last_with c [] = none
last_with c (b ∷ bs) = elim (last_with c bs) [
  | some x ↦ some x
  | none ↦ if eq b.cksum c then some b else none
]

abbrev pub HasChecksum : BlockMeta → Type 0
HasChecksum b = length b.cksum ≡ cksum_len

abbrev HasKey : (Checksum × ℕ) → Type 0
HasKey e = length e.0 ≡ cksum_len

eq_same : (a b c : Checksum) → length a ≡ length b → eq a b ≡ true → eq a c ≡ eq b c
eq_same a b c h e = ap (λ (t : Checksum). eq t c) ((eq_iff a b h).0 e)

assign-HasKey :
    (key : Checksum) (place : ℕ) (m : BlkMap)
    → length key ≡ cksum_len
    → All HasKey m
    → All HasKey (assign key place m)
unfolding assign
assign-HasKey key place [] hk h = (hk, tt)
assign-HasKey key place ((k, p) ∷ m) hk h = elim (Bool-cases (eq k key)) [
  | inl same ↦ rw same h
  | inr other ↦ rw other (h.0, assign-HasKey key place m hk h.1)
]

eq_differ :
    (k key c : Checksum)
    → length k ≡ cksum_len
    → length key ≡ cksum_len
    → length c ≡ cksum_len
    → eq k key ≡ false
    → eq k c ≡ true
    → eq key c ≡ false
eq_differ k key c hk hkey hc other same = elim (Bool-cases (eq key c)) [
  | inr differ ↦ differ
  | inl again ↦
      let k_c = (eq_iff k c (hk ∙ sym hc)).0 same in
      let key_c = (eq_iff key c (hkey ∙ sym hc)).0 again in
      let k_key = (eq_iff k key (hk ∙ sym hkey)).1 (k_c ∙ sym key_c) in absurd (cc)
]

find-assign :
    (c key : Checksum) (place : ℕ) (m : BlkMap)
    → length c ≡ cksum_len
    → length key ≡ cksum_len
    → All HasKey m
    → find c (assign key place m) ≡ (if eq key c then some place else find c m)
unfolding find assign
find-assign c key place [] hc hk h = refl
find-assign c key place ((k, p) ∷ m) hc hk (hp, hm) = elim (Bool-cases (eq k key)) [
  | inl same ↦ rw (same, eq_same k key c (hp ∙ sym hk) same) (ground arith)
  | inr other ↦
      rw (other, find-assign c key place m hc hk hm)
        (elim (Bool-cases (eq k c)) [
          | inl hit ↦ rw (hit, eq_differ k key c hp hk hc other hit) refl
          | inr miss ↦ rw miss refl
        ])
]

-- the place of that block, when the list starts at the place `i`
last_place : Checksum → ℕ → List BlockMeta → Option ℕ
last_place c i [] = none
last_place c i (b ∷ bs) = elim (last_place c (suc i) bs) [
  | some j ↦ some j
  | none ↦ if eq b.cksum c then some i else none
]

or_else : Option ℕ → Option ℕ → Option ℕ
or_else none o = o
or_else (some j) o = some j

find-build_loop :
    (c : Checksum) (i : ℕ) (bs : List BlockMeta) (m : BlkMap)
    → length c ≡ cksum_len
    → All HasChecksum bs
    → All HasKey m
    → find c (build_loop i bs m) ≡ or_else (last_place c i bs) (find c m)
unfolding build_loop last_place or_else
find-build_loop c i [] m hc h k = refl
find-build_loop c i (b ∷ bs) m hc (hb, hs) k =
    rw
      (
        find-build_loop c (suc i) bs (assign b.cksum i m) hc hs (assign-HasKey b.cksum i m hb k),
        find-assign c b.cksum i m hc hb k,
      )
      (elim (Option-cases (last_place c (suc i) bs)) [
        | inl e ↦
            rw e
              (elim (Bool-cases (eq b.cksum c)) [ inl hit ↦ rw hit refl | inr miss ↦ rw miss refl ])
        | inr (j, e) ↦ rw e refl
      ])

abbrev look : List BlockMeta → Option ℕ → Option BlockMeta
look bs none = none
look bs (some j) = get_elem? bs j

get_elem?-append_length :
    (pre bs : List BlockMeta) (b : BlockMeta) → get_elem? (pre ++ b ∷ bs) (length pre) ≡ some b
get_elem?-append_length [] bs b = refl
get_elem?-append_length (a ∷ pre) bs b = get_elem?-append_length pre bs b

-- The place is none where the block is.
last_place-none :
    (c : Checksum) (i : ℕ) (bs : List BlockMeta) → last_with c bs ≡ none → last_place c i bs ≡ none
unfolding last_place last_with
last_place-none c i [] h = refl
last_place-none c i (b ∷ bs) h = elim (Option-cases (last_with c bs)) [
  | inl e ↦ rw (last_place-none c (suc i) bs e) (elim (Bool-cases (eq b.cksum c)) [
    | inl hit ↦ absurd (let bad = rw (last_with, e, hit) at h in cc)
    | inr miss ↦ rw miss refl
  ])
  | inr (x, e) ↦ absurd (let bad = rw (last_with, e) at h in cc)
]

look-last_place :
    (c : Checksum) (pre bs : List BlockMeta)
    → look (pre ++ bs) (last_place c (length pre) bs) ≡ last_with c bs
unfolding last_place last_with
look-last_place c pre [] = refl
look-last_place c pre (b ∷ bs) =
    let ih : look (pre ++ b ∷ bs) (last_place c (suc (length pre)) bs) ≡ last_with c bs =
      subst (λ (n : ℕ). look (pre ++ b ∷ bs) (last_place c n bs) ≡ last_with c bs)
        (omega (arith, length-append pre (b ∷ [])))
        (subst
          (λ (t : List BlockMeta).
            look t (last_place c (length (pre ++ b ∷ [])) bs) ≡ last_with c bs)
          (append_assoc pre (b ∷ []) bs) (look-last_place c (pre ++ b ∷ []) bs)) in
    elim (Option-cases (last_with c bs)) [
      | inl e ↦
          rw (e, last_place-none c (suc (length pre)) bs e)
            (elim (Bool-cases (eq b.cksum c)) [
              | inl hit ↦ rw hit (get_elem?-append_length pre bs b)
              | inr miss ↦ rw miss refl
            ])
      | inr (x, e) ↦ elim (Option-cases (last_place c (suc (length pre)) bs)) [
        | inl f ↦ absurd (let bad = rw (f, e) at ih in cc)
        | inr (j, f) ↦ rw (f, e) (rw (f, e) at ih)
      ]
    ]

-- After `BuildIndex` on blocks with 20-byte checksums, a search finds the last block of the recipe
-- with the checksum, or none when no block has it.
pub search_block-build_index :
    (m : SegmentMeta) (c : Checksum)
    → length c ≡ cksum_len
    → All HasChecksum m.segment_recipe
    → search_block c (build_index m) ≡ last_with c m.segment_recipe
unfolding search_block build_index find or_else
search_block-build_index m c hc h =
    let found = look-last_place c [] m.segment_recipe in
    rw (search_block, find-build_loop c 0 m.segment_recipe [] hc h tt)
      (elim (Option-cases (last_place c 0 m.segment_recipe)) [
        | inl e ↦ rw e (rw e at found)
        | inr (j, e) ↦ rw e (rw e at found)
      ])
