-- ===== src/Prelude/Lists.antt =====
-- Lists measured by native numbers, and lists of texts used as sets.
use Prim.Native.Nat.{ℕ, zero, suc, ◌+◌, ◌≤◌}
use Prim.Native.String.{String}
use mathlib.Core.Path.{◌≡◌, refl}
use mathlib.Core.Bool.{Bool, false, ◌||◌}
use mathlib.Core.List.{List, [], ◌∷◌, ◌++◌}
use native.Mathlib.Omega.{arith}
use text.Mathlib.Text.{◌==◌}
use text.Mathlib.TextEquality.{eq_iff}
use lalia.Prelude.Tests.{if◌then◌else◌}

module _ {ℓ} {A : Type ℓ} where
  abbrev pub length : List A → ℕ
  length [] = 0
  length (x ∷ xs) = suc (length xs)

  abbrev pub drop : ℕ → List A → List A
  drop zero xs = xs
  drop (suc n) [] = []
  drop (suc n) (x ∷ xs) = drop n xs

  pub length-append : (xs ys : List A) → length (xs ++ ys) ≡ length xs + length ys
  length-append [] ys = omega arith
  length-append (x ∷ xs) ys = omega (arith, length-append xs ys)

  -- The entries that a Boolean test keeps, in order.
  unfoldable pub keep : (A → Bool) → List A → List A
  keep p [] = []
  keep p (x ∷ xs) = if p x then x ∷ keep p xs else keep p xs

  pub length-keep-le : (p : A → Bool) (xs : List A) → length (keep p xs) ≤ length xs
  unfolding keep
  length-keep-le p [] = omega arith
  length-keep-le p (x ∷ xs) = ground (arith, length-keep-le p xs)

  pub keep-append : (p : A → Bool) (xs ys : List A) → keep p (xs ++ ys) ≡ keep p xs ++ keep p ys
  unfolding keep
  keep-append p [] ys = refl
  keep-append p (x ∷ xs) ys = ground (arith, keep-append p xs ys)

-- A Go `map[string]bool` that holds only `true` entries is the list of its keys.
unfoldable pub contains : String → List String → Bool
contains k [] = false
contains k (x ∷ xs) = (x == k) || contains k xs

unfoldable pub add_name : String → List String → List String
add_name k xs = if contains k xs then xs else xs ++ (k ∷ [])

unfoldable pub remove_name : String → List String → List String
remove_name k [] = []
remove_name k (x ∷ xs) = if x == k then remove_name k xs else x ∷ remove_name k xs

-- No name stands twice.
abbrev pub Distinct : List String → Type 0
Distinct [] = Unit
Distinct (x ∷ xs) = (contains x xs ≡ false) × Distinct xs

pub contains-append :
    (j : String) (xs ys : List String) → contains j (xs ++ ys) ≡ (contains j xs || contains j ys)
unfolding contains
contains-append j [] ys = refl
contains-append j (x ∷ xs) ys = ground (arith, contains-append j xs ys)

pub contains-add_name :
    (k j : String) (xs : List String) → contains j (add_name k xs) ≡ ((k == j) || contains j xs)
unfolding add_name contains
contains-add_name k j xs = ground (arith, contains-append j xs (k ∷ []), eq_iff k j)

pub contains-remove_name :
    (k j : String) (xs : List String)
    → contains j (remove_name k xs) ≡ (if k == j then false else contains j xs)
unfolding remove_name contains
contains-remove_name k j [] = ground arith
contains-remove_name k j (x ∷ xs) =
    ground (arith, contains-remove_name k j xs, eq_iff x k, eq_iff k j, eq_iff x j)

Distinct-append_one :
    (k : String) (xs : List String)
    → contains k xs ≡ false
    → Distinct xs
    → Distinct (xs ++ (k ∷ []))
unfolding contains
Distinct-append_one k [] h d = ground arith
Distinct-append_one k (x ∷ xs) h d =
    ground (arith, Distinct-append_one k xs, contains-append x xs (k ∷ []), eq_iff x k, eq_iff k x)

pub add_name-Distinct : (k : String) (xs : List String) → Distinct xs → Distinct (add_name k xs)
unfolding add_name
add_name-Distinct k xs d = ground (arith, Distinct-append_one k xs)

pub remove_name-Distinct :
    (k : String) (xs : List String) → Distinct xs → Distinct (remove_name k xs)
unfolding remove_name
remove_name-Distinct k [] d = tt
remove_name-Distinct k (x ∷ xs) d =
    ground (arith, remove_name-Distinct k xs, contains-remove_name k x xs)

pub length-add_name-le : (k : String) (xs : List String) → length (add_name k xs) ≤ length xs + 1
unfolding add_name
length-add_name-le k xs = ground (arith, length-append xs (k ∷ []))

pub length-remove_name-le : (k : String) (xs : List String) → length (remove_name k xs) ≤ length xs
unfolding remove_name
length-remove_name-le k [] = omega arith
length-remove_name-le k (x ∷ xs) = ground (arith, length-remove_name-le k xs)
