-- ===== src/Snapshot/Trace/Order.antt =====
-- `memcmp` makes the checksums a total order.
use bigarchive.Prelude.{ℕ, ◌≡◌, refl, subst, true, false, [], ◌∷◌, length, arith, ◌↔◌}
use bigarchive.Snapshot.Trace.{Checksum, mem_cmp, eq, lt}

eq_refl : (a : Checksum) → eq a a ≡ true
unfolding eq mem_cmp
eq_refl [] = refl
eq_refl (x ∷ a) = ground (arith, eq_refl a)

eq_heads : (x y : ℕ) (a b : Checksum) → eq (x ∷ a) (y ∷ b) ≡ true → (x ≡ y) × (eq a b ≡ true)
unfolding eq mem_cmp
eq_heads x y a b p = ground arith

-- Two checksums of the same length compare equal exactly when they are the same bytes.
pub eq_iff : (a b : Checksum) → length a ≡ length b → (eq a b ≡ true) ↔ (a ≡ b)
eq_iff [] [] h = (λ e. refl, λ e. eq_refl [])
eq_iff [] (y ∷ b) h = absurd (omega arith)
eq_iff (x ∷ a) [] h = absurd (omega arith)
eq_iff (x ∷ a) (y ∷ b) h = (
  λ p. let (e, q) = eq_heads x y a b p in rw (e, (eq_iff a b (omega arith)).0 q) refl,
  λ p. subst (λ (t : Checksum). eq (x ∷ a) t ≡ true) p (eq_refl (x ∷ a)),
)

-- A checksum is not below itself, and of two that are below in turn the first is below the last.
pub lt_irrefl : (a : Checksum) → lt a a ≡ false
unfolding lt mem_cmp
lt_irrefl [] = refl
lt_irrefl (x ∷ a) = ground (arith, lt_irrefl a)

pub lt_trans :
    (a b c : Checksum)
    → length a ≡ length b
    → length b ≡ length c
    → lt a b ≡ true
    → lt b c ≡ true
    → lt a c ≡ true
unfolding lt mem_cmp
lt_trans [] b c h k p q = cc
lt_trans (x ∷ a) [] c h k p q = cc
lt_trans (x ∷ a) (y ∷ b) [] h k p q = cc
lt_trans (x ∷ a) (y ∷ b) (z ∷ c) h k p q = ground (arith, lt_trans a b c)

-- If `b` is not below `a` and `c` not below `b`, then `c` is not below `a`.
pub le_trans :
    (a b c : Checksum)
    → length a ≡ length b
    → length b ≡ length c
    → lt b a ≡ false
    → lt c b ≡ false
    → lt c a ≡ false
unfolding lt mem_cmp
le_trans [] b [] h k p q = refl
le_trans [] b (z ∷ c) h k p q = absurd (omega arith)
le_trans (x ∷ a) b [] h k p q = refl
le_trans (x ∷ a) [] (z ∷ c) h k p q = absurd (omega arith)
le_trans (x ∷ a) (y ∷ b) (z ∷ c) h k p q = ground (arith, le_trans a b c)

pub lt_asymm : (a b : Checksum) → lt a b ≡ true → lt b a ≡ false
unfolding lt mem_cmp
lt_asymm [] b p = cc
lt_asymm (x ∷ a) [] p = cc
lt_asymm (x ∷ a) (y ∷ b) p = ground (arith, lt_asymm a b)

pub lt_le_trans :
    (a b c : Checksum)
    → length a ≡ length b
    → length b ≡ length c
    → lt a b ≡ true
    → lt c b ≡ false
    → lt a c ≡ true
unfolding lt mem_cmp
lt_le_trans [] b c h k p q = cc
lt_le_trans (x ∷ a) [] c h k p q = cc
lt_le_trans (x ∷ a) (y ∷ b) [] h k p q = absurd (omega arith)
lt_le_trans (x ∷ a) (y ∷ b) (z ∷ c) h k p q = ground (arith, lt_le_trans a b c)
