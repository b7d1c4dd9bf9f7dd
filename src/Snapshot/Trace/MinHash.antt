-- ===== src/Snapshot/Trace/MinHash.antt =====
-- `AddBlock` keeps `min_idx_` at the first block whose checksum is the least.
use bigarchive.Prelude.{
  ℕ, zero, suc, ◌+◌, ◌-◌, ◌%◌, ◌^◌, ◌<◌, ◌≡◌, refl, subst, sym, ◌∙◌, true, false, inl, inr, List,
  [], ◌∷◌, ◌++◌, length, All, All-append, append_assoc, append-nil, arith, length-append,
  Bool-cases, if◌then◌else◌,
}
use bigarchive.Snapshot.Trace.{
  cksum_len, Checksum, lt, Block, Segment, Sha, Filling, cksum_at, init, add_block,
}
use bigarchive.Snapshot.Trace.Order.{lt_irrefl, lt_asymm, le_trans, lt_le_trans}
use bigarchive.Snapshot.Trace.Blocks.{Fits, add_blocks}

-- No block of the list has a checksum below `c`.
abbrev pub NoneBelow : Checksum → List Block → Type 0
NoneBelow c = All (λ (b : Block). lt b.cksum c ≡ false)

-- `m` is the place of the least checksum, the first one of several.
pub record IsFirstLeast (bs : List Block) (m : ℕ) : Type 0 where
  pub within : m < length bs
  pub least : NoneBelow (cksum_at bs m) bs
  pub first : (j : ℕ) → j < m → lt (cksum_at bs m) (cksum_at bs j) ≡ true

cksum_at-append :
    (bs cs : List Block) (i : ℕ) → i < length bs → cksum_at (bs ++ cs) i ≡ cksum_at bs i
cksum_at-append [] cs i h = absurd (omega arith)
cksum_at-append (b ∷ bs) cs zero h = refl
cksum_at-append (b ∷ bs) cs (suc i) h = cksum_at-append bs cs i (omega arith)

cksum_at-last : (bs : List Block) (b : Block) → cksum_at (bs ++ b ∷ []) (length bs) ≡ b.cksum
cksum_at-last [] b = refl
cksum_at-last (c ∷ bs) b = cksum_at-last bs b

cksum_at-Fits : (bs : List Block) (i : ℕ) → All Fits bs → length (cksum_at bs i) ≡ cksum_len
cksum_at-Fits [] i h = refl
cksum_at-Fits (b ∷ bs) zero h = h.0.cksum_fits
cksum_at-Fits (b ∷ bs) (suc i) h = cksum_at-Fits bs i h.1

-- What is below no block stays so when it gets smaller.
below_smaller :
    (c d : Checksum) (bs : List Block)
    → length c ≡ cksum_len
    → length d ≡ cksum_len
    → All Fits bs
    → lt c d ≡ true
    → NoneBelow d bs
    → NoneBelow c bs
below_smaller c d [] hc hd h p k = tt
below_smaller c d (b ∷ bs) hc hd h p k = (
  le_trans c d b.cksum (hc ∙ sym hd) (hd ∙ sym h.0.cksum_fits) (lt_asymm c d p) k.0,
  below_smaller c d bs hc hd h.1 p k.1,
)

lt-cksum_at :
    (c d : Checksum) (bs : List Block) (i : ℕ)
    → length c ≡ cksum_len
    → length d ≡ cksum_len
    → All Fits bs
    → lt c d ≡ true
    → NoneBelow d bs
    → i < length bs
    → lt c (cksum_at bs i) ≡ true
lt-cksum_at c d [] i hc hd h p k q = absurd (omega arith)
lt-cksum_at c d (b ∷ bs) zero hc hd h p k q =
    lt_le_trans c d b.cksum (hc ∙ sym hd) (hd ∙ sym h.0.cksum_fits) p k.0
lt-cksum_at c d (b ∷ bs) (suc i) hc hd h p k q = lt-cksum_at c d bs i hc hd h.1 p k.1 (omega arith)

-- The new block is the least: the place moves to it.
moves :
    (bs : List Block) (m : ℕ) (b : Block)
    → All Fits bs
    → Fits b
    → IsFirstLeast bs m
    → lt b.cksum (cksum_at bs m) ≡ true
    → IsFirstLeast (bs ++ b ∷ []) (length bs)
moves bs m b h hb inv less = record {
  within = omega (arith, length-append bs (b ∷ []));
  least = rw (cksum_at-last) (
      All-append (λ (c : Block). lt c.cksum b.cksum ≡ false) bs (b ∷ [])
        (below_smaller b.cksum (cksum_at bs m) bs hb.cksum_fits (cksum_at-Fits bs m h) h less
          inv.least)
        (lt_irrefl b.cksum, tt));
  first = λ j p.
      rw (cksum_at-last, cksum_at-append bs (b ∷ []) j p)
        (lt-cksum_at b.cksum (cksum_at bs m) bs j hb.cksum_fits (cksum_at-Fits bs m h) h less
          inv.least p);
}

-- It is not: the place stays.
stays :
    (bs : List Block) (m : ℕ) (b : Block)
    → IsFirstLeast bs m
    → lt b.cksum (cksum_at bs m) ≡ false
    → IsFirstLeast (bs ++ b ∷ []) m
stays bs m b inv same =
    let at_m = cksum_at-append bs (b ∷ []) m inv.within in
    record {
      within = omega (arith, length-append bs (b ∷ []), inv.within);
      least = rw at_m (
          All-append (λ (c : Block). lt c.cksum (cksum_at bs m) ≡ false) bs (b ∷ []) inv.least
            (same, tt));
      first = λ j p.
          rw (at_m, cksum_at-append bs (b ∷ []) j (omega (arith, inv.within))) (inv.first j p);
    }

step :
    (bs : List Block) (m : ℕ) (b : Block)
    → All Fits bs
    → Fits b
    → IsFirstLeast bs m
    → IsFirstLeast
        (bs ++ b ∷ [])
        (if lt b.cksum (cksum_at (bs ++ b ∷ []) m) then length (bs ++ b ∷ []) - 1 else m)
step bs m b h hb inv = elim (Bool-cases (lt b.cksum (cksum_at bs m))) [
  | inl less ↦
      rw (cksum_at-append bs (b ∷ []) m inv.within, less)
        (subst (IsFirstLeast (bs ++ b ∷ [])) (omega (arith, length-append bs (b ∷ [])))
          (moves bs m b h hb inv less))
  | inr same ↦ rw (cksum_at-append bs (b ∷ []) m inv.within, same) (stays bs m b inv same)
]

-- the sum of the blocks' sizes
unfoldable pub sum_sizes : List Block → ℕ
sum_sizes [] = 0
sum_sizes (b ∷ bs) = b.size + sum_sizes bs

-- What a segment keeps of the blocks that were added to it.
pub record Keeps (bs : List Block) (s : Segment) : Type 0 where
  pub blocks : s.blocklist ≡ bs
  pub total : s.size ≡ sum_sizes bs % 2 ^ 32
  pub least : IsFirstLeast bs s.min_idx

sum_sizes-append : (bs cs : List Block) → sum_sizes (bs ++ cs) ≡ sum_sizes bs + sum_sizes cs
unfolding sum_sizes
sum_sizes-append [] cs = omega arith
sum_sizes-append (b ∷ bs) cs = omega (arith, sum_sizes-append bs cs)

module _ (sha : Sha) where
  add_block-Keeps :
      (bs : List Block) (b : Block) (f : Filling sha)
      → All Fits bs
      → Fits b
      → Keeps bs f.0
      → Keeps (bs ++ b ∷ []) (add_block sha f b).0
  unfolding add_block sum_sizes
  add_block-Keeps bs b f h hb k = record {
    blocks = rw k.blocks refl;
    total = omega (arith, k.total, sum_sizes-append bs (b ∷ []));
    least = rw k.blocks (step bs f.0.min_idx b h hb k.least);
  }

  add_blocks-Keeps :
      (bs cs : List Block) (f : Filling sha)
      → All Fits bs
      → All Fits cs
      → Keeps bs f.0
      → Keeps (bs ++ cs) (add_blocks sha f cs).0
  add_blocks-Keeps bs [] f h hc k = rw append-nil k
  add_blocks-Keeps bs (c ∷ cs) f h hc k = rw (← append_assoc bs (c ∷ []) cs) (
      add_blocks-Keeps (bs ++ c ∷ []) cs (add_block sha f c)
        (All-append Fits bs (c ∷ []) h (hc.0, tt)) hc.1 (add_block-Keeps bs c f h hc.0 k))

  first_block : (s : Segment) (b : Block) → Keeps (b ∷ []) (add_block sha (init sha s) b).0
  unfolding init add_block sum_sizes
  first_block s b = record {
    blocks = refl;
    total = omega arith;
    least = rw (lt_irrefl b.cksum) record {
      within = omega arith;
      least = (lt_irrefl b.cksum, tt);
      first = λ j p. absurd (omega arith);
    };
  }

  pub add_blocks-IsFirstLeast :
      (s : Segment) (b : Block) (bs : List Block)
      → All Fits (b ∷ bs)
      → Keeps (b ∷ bs) (add_blocks sha (init sha s) (b ∷ bs)).0
  add_blocks-IsFirstLeast s b bs (hb, hs) =
      add_blocks-Keeps (b ∷ []) bs (add_block sha (init sha s) b) (hb, tt) hs (first_block s b)
