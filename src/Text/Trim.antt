-- ===== src/Text/Trim.antt =====
-- The package strings: Trim, TrimLeft and TrimRight by a set of characters, TrimSuffix, Split and
-- FieldsFunc, and a cut by length.
use Prim.Native.Nat.{suc, zero}
use Prim.Native.Char.{Char}
use lalia.Prelude.{
  ℕ, ◌≡◌, refl, String, Bool, false, ◌&&◌, List, [], ◌∷◌, if◌then◌else◌, ◌==◌, arith, eq_iff,
  Bool-cases, inl, inr, ap, sym, ◌∙◌,
}

unfoldable pub trim_left_by : (Char → Bool) → String → String
trim_left_by p String.[] = String.[]
trim_left_by p (String.◌∷◌ c s) =
    let rest = trim_left_by p s in if p c then rest else String.◌∷◌ c s

-- A character stays if a later one stays or it is not in the set.
unfoldable pub trim_right_by : (Char → Bool) → String → String
trim_right_by p String.[] = String.[]
trim_right_by p (String.◌∷◌ c s) =
    let rest = trim_right_by p s in if (rest == "") && p c then String.[] else String.◌∷◌ c rest

unfoldable pub trim_by : (Char → Bool) → String → String
trim_by p s = trim_right_by p (trim_left_by p s)

-- s[:n]
unfoldable pub take_chars : ℕ → String → String
take_chars zero s = String.[]
take_chars (suc n) String.[] = String.[]
take_chars (suc n) (String.◌∷◌ c s) = String.◌∷◌ c (take_chars n s)

-- TrimSuffix, of a suffix that is not empty
unfoldable pub trim_suffix : String → String → String
trim_suffix suffix String.[] = String.[]
trim_suffix suffix (String.◌∷◌ c s) =
    let rest = trim_suffix suffix s in
    if String.◌∷◌ c s == suffix then String.[] else String.◌∷◌ c rest

-- The part before the first separator, and the parts after it
unfoldable pub split_first : (Char → Bool) → String → String × List String
split_first p String.[] = (String.[], [])
split_first p (String.◌∷◌ c s) =
    let (part, parts) = split_first p s in
    if p c then (String.[], part ∷ parts) else (String.◌∷◌ c part, parts)

abbrev pub keep_field : String → List String → List String
keep_field part parts = if part == "" then parts else part ∷ parts

unfoldable pub nonempty : List String → List String
nonempty [] = []
nonempty (x ∷ xs) = keep_field x (nonempty xs)

-- FieldsFunc: the parts that are not empty
unfoldable pub fields_by : (Char → Bool) → String → List String
unfolding nonempty
fields_by p s = let (part, parts) = split_first p s in keep_field part (nonempty parts)

-- The last of a list, or what is given for an empty one
unfoldable pub last_or : String → List String → String
last_or d [] = d
last_or d (x ∷ xs) = last_or x xs

-- The first and the last character
unfoldable pub starts_by : (Char → Bool) → String → Bool
starts_by p String.[] = false
starts_by p (String.◌∷◌ c s) = p c

unfoldable pub ends_by : (Char → Bool) → String → Bool
ends_by p String.[] = false
ends_by p (String.◌∷◌ c s) = let rest = ends_by p s in if s == "" then p c else rest

module _ (p : Char → Bool) where
  pub starts_by-trim_left_by : (s : String) → starts_by p (trim_left_by p s) ≡ false
  unfolding starts_by trim_left_by
  starts_by-trim_left_by String.[] = refl
  starts_by-trim_left_by (String.◌∷◌ c s) = ground (arith, starts_by-trim_left_by s)

  pub starts_by-trim_right_by :
      (s : String) → starts_by p s ≡ false → starts_by p (trim_right_by p s) ≡ false
  unfolding starts_by trim_right_by
  starts_by-trim_right_by String.[] h = refl
  starts_by-trim_right_by (String.◌∷◌ c s) h = ground arith

  pub ends_by-trim_right_by : (s : String) → ends_by p (trim_right_by p s) ≡ false
  unfolding ends_by trim_right_by
  ends_by-trim_right_by String.[] = refl
  ends_by-trim_right_by (String.◌∷◌ c s) = elim (Bool-cases ((trim_right_by p s == "") && p c)) [
    | inl cut ↦ rw cut refl
    | inr kept ↦ rw kept (ground (arith, kept, ends_by-trim_right_by s))
  ]

  pub trim_left_by-id : (s : String) → starts_by p s ≡ false → trim_left_by p s ≡ s
  unfolding starts_by trim_left_by
  trim_left_by-id String.[] h = refl
  trim_left_by-id (String.◌∷◌ c s) h = ground arith

  pub trim_right_by-id : (s : String) → ends_by p s ≡ false → trim_right_by p s ≡ s
  unfolding ends_by trim_right_by
  trim_right_by-id String.[] h = refl
  trim_right_by-id (String.◌∷◌ c s) h = elim (Bool-cases (s == "")) [
    | inl empty ↦
        let last : p c ≡ false = rw empty at h in
        ap (λ t. trim_right_by p (String.◌∷◌ c t)) ((eq_iff s "").0 empty)
        ∙ (rw last refl ∙ ap (String.◌∷◌ c) (sym ((eq_iff s "").0 empty)))
    | inr more ↦
        let rest : trim_right_by p s ≡ s = trim_right_by-id s (rw more at h) in rw (rest, more) refl
  ]
