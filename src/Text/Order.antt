-- ===== src/Text/Order.antt =====
-- The order of texts that channelKey, newChannel and channelDir of channel.go sort a pair by.
use Prim.Native.Nat.{Ordering, compare as compare_ℕ}
use Prim.Native.Char.{code}
use Prim.Native.String.{compare, then}
use Prim.Native.String.compare as clauses
use text.Mathlib.TextEquality.{path_by_compare}
use lalia.Prelude.{ℕ, ◌≡◌, refl, sym, ap, ◌∙◌, String, true, false, arith, Bool-cases, inl, inr}
use text.Mathlib.Text.{is_lt}
use lalia.Text.{str_lt}

abbrev swap : Ordering → Ordering
swap Ordering.lt = Ordering.gt
swap Ordering.eq = Ordering.eq
swap Ordering.gt = Ordering.lt

swap-then : (o r : Ordering) → swap (then o r) ≡ then (swap o) (swap r)
swap-then Ordering.lt r = refl
swap-then Ordering.eq r = refl
swap-then Ordering.gt r = refl

swap_numbers : (m n : ℕ) → compare_ℕ n m ≡ swap (compare_ℕ m n)
swap_numbers m n = ground arith

swap_texts : (s t : String) → compare t s ≡ swap (compare s t)
swap_texts String.[] String.[] = clauses.nil-nil ∙ sym (ap swap clauses.nil-nil)
swap_texts String.[] (String.◌∷◌ d t) = clauses.cons-nil d t ∙ sym (ap swap (clauses.nil-cons d t))
swap_texts (String.◌∷◌ c s) String.[] = clauses.nil-cons c s ∙ sym (ap swap (clauses.cons-nil c s))
swap_texts (String.◌∷◌ c s) (String.◌∷◌ d t) =
    clauses.cons-cons d c t s
    ∙ (ap (λ o. then o (compare t s)) (swap_numbers (code c) (code d))
        ∙ (ap (then (swap (compare_ℕ (code c) (code d)))) (swap_texts s t)
            ∙ (sym (swap-then (compare_ℕ (code c) (code d)) (compare s t))
                ∙ sym (ap swap (clauses.cons-cons c d s t)))))

-- Two texts neither of which is below the other are equal.
pub eq_of_not-lt : (s t : String) → str_lt s t ≡ false → str_lt t s ≡ false → s ≡ t
eq_of_not-lt s t h k =
    path_by_compare s t (not_both (compare s t) h (ap is_lt (sym (swap_texts s t)) ∙ k))
  where
    not_both : (o : Ordering) → is_lt o ≡ false → is_lt (swap o) ≡ false → o ≡ Ordering.eq
    not_both Ordering.lt h k = cc
    not_both Ordering.eq h k = refl
    not_both Ordering.gt h k = cc

-- and no two are each below the other.
pub not-lt_of_lt : (s t : String) → str_lt s t ≡ true → str_lt t s ≡ false
not-lt_of_lt s t h = ap is_lt (swap_texts s t) ∙ one_way (compare s t) h
  where
    one_way : (o : Ordering) → is_lt o ≡ true → is_lt (swap o) ≡ false
    one_way Ordering.lt h = refl
    one_way Ordering.eq h = cc
    one_way Ordering.gt h = cc

then_trans :
    (a b c : ℕ) (o p q : Ordering)
    → is_lt (then (compare_ℕ a b) o) ≡ true
    → is_lt (then (compare_ℕ b c) p) ≡ true
    → (is_lt o ≡ true → is_lt p ≡ true → is_lt q ≡ true)
    → is_lt (then (compare_ℕ a c) q) ≡ true
unfolding then
then_trans a b c o p q h k tail = ground (arith, tail)

-- The order is transitive.
pub str_lt_trans : (s t u : String) → str_lt s t ≡ true → str_lt t u ≡ true → str_lt s u ≡ true
str_lt_trans s t String.[] h k = absurd_below t k
  where
    absurd_below : (r : String) → str_lt r String.[] ≡ true → str_lt s String.[] ≡ true
    absurd_below String.[] e = cc (ap is_lt clauses.nil-nil)
    absurd_below (String.◌∷◌ d r) e = cc (ap is_lt (clauses.cons-nil d r))
str_lt_trans String.[] String.[] (String.◌∷◌ e u) h k = k
str_lt_trans (String.◌∷◌ c s) String.[] (String.◌∷◌ e u) h k = cc (ap is_lt (clauses.cons-nil c s))
str_lt_trans String.[] (String.◌∷◌ d t) (String.◌∷◌ e u) h k = ap is_lt (clauses.nil-cons e u)
str_lt_trans (String.◌∷◌ c s) (String.◌∷◌ d t) (String.◌∷◌ e u) h k =
    ap is_lt (clauses.cons-cons c e s u)
    ∙ then_trans (code c) (code d) (code e) (compare s t) (compare t u) (compare s u)
        (sym (ap is_lt (clauses.cons-cons c d s t)) ∙ h)
        (sym (ap is_lt (clauses.cons-cons d e t u)) ∙ k) (str_lt_trans s t u)

pub str_lt_irrefl : (s : String) → str_lt s s ≡ false
str_lt_irrefl s = elim (Bool-cases (str_lt s s)) [ inl h ↦ not-lt_of_lt s s h | inr h ↦ h ]
