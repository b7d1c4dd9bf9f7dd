-- ===== src/AppendStore/Chunk/Blocks/Locate.antt =====
-- The search in the index leads to the block that has a record, and to its offset.
use bigarchive.Prelude.{
  ℕ, zero, suc, ◌+◌, ◌-◌, ◌<◌, ◌≡◌, refl, sym, ◌∙◌, ap, Option, none, some, List, [], ◌∷◌, ◌++◌,
  length, get_elem?, length-append, append_assoc, arith, Bool-cases, inl, inr, leb, leb→le,
}
use bigarchive.AppendStore.Index.{IndexRecord}
use bigarchive.AppendStore.Index.Search.{IsAscendingFrom, count_below}
use bigarchive.AppendStore.Codec.{Codec}
use bigarchive.AppendStore.Chunk.Blocks.{
  Block, next, block_frame, data_of, entries, all_vals, BlockOk, AreBlocks,
}

get_elem?-append_lt :
    (xs ys : List (List ℕ)) (j : ℕ) → j < length xs → get_elem? (xs ++ ys) j ≡ get_elem? xs j
get_elem?-append_lt [] ys j h = absurd (omega arith)
get_elem?-append_lt (x ∷ xs) ys zero h = refl
get_elem?-append_lt (x ∷ xs) ys (suc j) h = get_elem?-append_lt xs ys j (omega arith)

pub get_elem?-append_ge :
    (xs ys : List (List ℕ)) (j : ℕ) → get_elem? (xs ++ ys) (length xs + j) ≡ get_elem? ys j
get_elem?-append_ge [] ys j = let e : 0 + j ≡ j = omega arith in rw e refl
get_elem?-append_ge (x ∷ xs) ys j =
    let e : suc (length xs) + j ≡ suc (length xs + j) = omega arith in
    rw e (get_elem?-append_ge xs ys j)

pub entries-IsAscendingFrom :
    (codec : Codec) (low p : ℕ) (bs : List Block) → IsAscendingFrom low (entries codec low p bs)
unfolding entries
entries-IsAscendingFrom codec low p [] = tt
entries-IsAscendingFrom codec low p (b ∷ bs) = (
  omega arith,
  entries-IsAscendingFrom codec (next low b) (p + length (block_frame codec low b)) bs,
)

-- where the block `k` starts, if the first one starts at `p`
abbrev pub start_from : ℕ → List IndexRecord → ℕ → Option ℕ
start_from p es zero = some p
start_from p es (suc k) = elim (get_elem? es k) [ none ↦ none | some r ↦ some r.offset ]

start_from-cons :
    (p : ℕ) (e : IndexRecord) (es : List IndexRecord) (k : ℕ)
    → start_from p (e ∷ es) (suc k) ≡ start_from e.offset es k
start_from-cons p e es zero = refl
start_from-cons p e es (suc k) = refl

-- The entry `k` of these blocks is that of the block `b`, which has the value `v` of the index `i`.
pub record At (codec : Codec) (i low p : ℕ) (bs : List Block) (v : List ℕ) (k : ℕ) : Type 0 where
  pub pre : List ℕ
  pub post : List ℕ
  pub base : ℕ
  pub b : Block
  pub entry : IndexRecord
  pub stored : data_of codec low bs ≡ pre ++ (block_frame codec base b ++ post)
  pub start : start_from p (entries codec low p bs) k ≡ some (p + length pre)
  pub found : get_elem? (entries codec low p bs) k ≡ some entry
  pub entry_index : entry.index ≡ next base b
  pub good_block : BlockOk codec base b
  pub above : base < i
  pub value : get_elem? b.vals (i - suc base) ≡ some v

pub locate :
    (codec : Codec) (i low p : ℕ) (bs : List Block) (v : List ℕ)
    → AreBlocks codec low bs
    → low < i
    → get_elem? (all_vals bs) (i - suc low) ≡ some v
    → At codec i low p bs v (count_below i (entries codec low p bs))
unfolding data_of entries all_vals AreBlocks
locate codec i low p [] v h above value = absurd cc
locate codec i low p (b ∷ bs) v (hb, hs) above value =
    let len = length (block_frame codec low b) in
    elim (Bool-cases (leb i (next low b))) [
      | inl inside ↦ rw inside record {
        pre = [];
        post = data_of codec (next low b) bs;
        base = low;
        b = b;
        entry = record { offset = p + len; index = next low b };
        stored = refl;
        start = ap some (omega arith);
        found = refl;
        entry_index = refl;
        good_block = hb;
        above = above;
        value =
            sym (
              get_elem?-append_lt b.vals (all_vals bs) (i - suc low)
                (omega (arith, leb→le i (next low b) inside)))
            ∙ value;
      }
      | inr behind ↦
          let past : next low b < i = ground arith in
          let split : i - suc low ≡ length b.vals + (i - suc (next low b)) = omega arith in
          let at = locate codec i (next low b) (p + len) bs v hs past (
            sym (get_elem?-append_ge b.vals (all_vals bs) (i - suc (next low b)))
            ∙ ap (get_elem? (b.vals ++ all_vals bs)) (sym split)
            ∙ value) in
          rw behind record {
            pre = block_frame codec low b ++ at.pre;
            post = at.post;
            base = at.base;
            b = at.b;
            entry = at.entry;
            stored =
                ap (λ (t : List ℕ). block_frame codec low b ++ t) at.stored
                ∙ sym (append_assoc (block_frame codec low b) at.pre _);
            start =
                start_from-cons p (record { offset = p + len; index = next low b })
                  (entries codec (next low b) (p + len) bs)
                  (count_below i (entries codec (next low b) (p + len) bs))
                ∙ at.start
                ∙ ap some (omega (arith, length-append (block_frame codec low b) at.pre));
            found = at.found;
            entry_index = at.entry_index;
            good_block = at.good_block;
            above = at.above;
            value = at.value;
          }
    ]
