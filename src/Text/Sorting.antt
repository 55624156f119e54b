-- ===== src/Text/Sorting.antt =====
-- sort.Strings, on the keys of a map: the result depends on the set of keys alone.
use lalia.Prelude.{
  ◌≡◌, refl, sym, ◌∙◌, String, true, false, ◌||◌, List, [], ◌∷◌, ◌==◌, contains, Distinct,
  Bool-cases, inl, inr, subst, arith, eq_iff, eq_refl,
}
use lalia.Text.{str_lt, insert_sorted, sort_strings}
use lalia.Text.Order.{eq_of_not-lt, not-lt_of_lt, str_lt_trans, str_lt_irrefl}

contains-insert_sorted :
    (x j : String) (ys : List String)
    → contains j (insert_sorted x ys) ≡ ((x == j) || contains j ys)
unfolding contains insert_sorted
contains-insert_sorted x j [] = refl
contains-insert_sorted x j (y ∷ ys) = ground (arith, contains-insert_sorted x j ys)

pub contains-sort_strings :
    (j : String) (xs : List String) → contains j (sort_strings xs) ≡ contains j xs
unfolding contains sort_strings
contains-sort_strings j [] = refl
contains-sort_strings j (x ∷ xs) =
    ground (arith, contains-insert_sorted x j (sort_strings xs), contains-sort_strings j xs)

-- Each text is below all that follow it.
abbrev pub IsSorted : List String → Type 0
IsSorted [] = Unit
IsSorted (x ∷ xs) = ((j : String) → contains j xs ≡ true → str_lt x j ≡ true) × IsSorted xs

lower : (x y : String) → (y == x) ≡ false → str_lt y x ≡ false → str_lt x y ≡ true
lower x y h above = elim (Bool-cases (str_lt x y)) [
  | inl first ↦ first
  | inr none_first ↦
      let same : x ≡ y = eq_of_not-lt x y none_first above in ground (arith, eq_iff y x, same)
]

insert_sorted-IsSorted :
    (x : String) (ys : List String)
    → contains x ys ≡ false
    → IsSorted ys
    → IsSorted (insert_sorted x ys)
unfolding insert_sorted
insert_sorted-IsSorted x [] h s = (λ j k. unfold contains in cc, tt)
insert_sorted-IsSorted x (y ∷ ys) h s = elim (Bool-cases (str_lt y x)) [
  | inl below ↦ rw below (
    λ j k. ground (arith, contains-insert_sorted x j ys, eq_iff x j, s.0 j, below),
    insert_sorted-IsSorted x ys (unfold contains in ground (arith, h)) s.1,
  )
  | inr above ↦
      let first : str_lt x y ≡ true = lower x y (unfold contains in ground (arith, h)) above in
      rw above (
        λ j k. elim (Bool-cases (y == j)) [
          | inl here ↦ subst (λ t. str_lt x t ≡ true) ((eq_iff y j).0 here) first
          | inr later ↦
              str_lt_trans x y j first (s.0 j (unfold contains in ground (arith, k, later)))
        ],
        s,
      )
]

pub sort_strings-IsSorted : (xs : List String) → Distinct xs → IsSorted (sort_strings xs)
unfolding sort_strings
sort_strings-IsSorted [] d = tt
sort_strings-IsSorted (x ∷ xs) d =
    insert_sorted-IsSorted x (sort_strings xs) (contains-sort_strings x xs ∙ d.0)
      (sort_strings-IsSorted xs d.1)

not_above : (x : String) (xs : List String) → IsSorted (x ∷ xs) → contains x xs ≡ false
not_above x xs s = elim (Bool-cases (contains x xs)) [
  | inl again ↦ cc (s.0 x again, str_lt_irrefl x)
  | inr fresh ↦ fresh
]

-- A sorted list without repetition is determined by its members.
sorted_unique :
    (xs ys : List String)
    → IsSorted xs
    → IsSorted ys
    → ((j : String) → contains j xs ≡ contains j ys)
    → xs ≡ ys
unfolding contains
sorted_unique [] [] s t same = refl
sorted_unique [] (y ∷ ys) s t same = ground (arith, same y, eq_refl y)
sorted_unique (x ∷ xs) [] s t same = ground (arith, same x, eq_refl x)
sorted_unique (x ∷ xs) (y ∷ ys) s t same = elim (Bool-cases (x == y)) [
  | inl heads ↦
      let tails = sorted_unique xs ys s.1 t.1 (λ j.
        ground (
          arith,
          same j,
          eq_iff x y,
          eq_iff x j,
          eq_iff y j,
          not_above x xs s,
          not_above y ys t,
        )) in
      ground (arith, eq_iff x y, tails)
  | inr differ ↦
      let x_in : contains x ys ≡ true = ground (arith, same x, eq_refl x, eq_iff x y, eq_iff y x) in
      let y_in : contains y xs ≡ true = ground (arith, same y, eq_refl y, eq_iff x y, eq_iff y x) in
      cc (s.0 y y_in, not-lt_of_lt y x (t.0 x x_in))
]

pub sort_strings_unique :
    (xs ys : List String)
    → Distinct xs
    → Distinct ys
    → ((j : String) → contains j xs ≡ contains j ys)
    → sort_strings xs ≡ sort_strings ys
sort_strings_unique xs ys d e same =
    sorted_unique (sort_strings xs) (sort_strings ys) (sort_strings-IsSorted xs d)
      (sort_strings-IsSorted ys e)
      (λ j. contains-sort_strings j xs ∙ same j ∙ sym (contains-sort_strings j ys))
