-- ===== src/Run/Arguments.antt =====
-- run.go: which argument lists parseRunArgs takes, and what it makes of them.
use lalia.Prelude.{
  ◌≡◌, refl, sym, ap, ◌∙◌, String, Bool, true, false, not, ◌&&◌, ◌||◌, Option, none, some, List, [],
  ◌∷◌, keep, contains, ◌==◌, Bool-cases, inl, inr, arith, eq_iff,
}
use lalia.Run.{
  Parsed, bad, good, multiple_harness_flags, missing_harness_flag, is_harness, add_arg, read_args,
  finish_args, parse_run_args,
}

-- The harness flags of the list, and the arguments that are no flag of `lalia run`
abbrev pub flags : List String → List String
flags args = keep is_harness args

abbrev pub others : List String → List String
others args = keep (λ a. not (is_harness a) && not (a == "--force")) args

-- What an argument list means: exactly one harness flag, wherever it stands
abbrev pub meaning : List String → List String → Parsed
meaning [] args = bad missing_harness_flag
meaning (h ∷ []) args =
    good record { harness = h; force = contains "--force" args; harness_args = others args }
meaning (h ∷ g ∷ more) args = bad multiple_harness_flags

-- A harness flag is no other text.
is_harness-differs : (a b : String) → is_harness b ≡ false → is_harness a ≡ true → (a == b) ≡ false
is_harness-differs a b other flag = elim (Bool-cases (a == b)) [
  | inl same ↦ let eq : is_harness a ≡ is_harness b = ap is_harness ((eq_iff a b).0 same) in cc
  | inr differ ↦ differ
]

is_harness-nonempty : (a : String) → is_harness a ≡ true → (a == "") ≡ false
is_harness-nonempty a = is_harness-differs a "" (unfold is_harness in refl)

is_harness-force : (a : String) → is_harness a ≡ true → (a == "--force") ≡ false
is_harness-force a = is_harness-differs a "--force" (unfold is_harness in refl)

-- What is read from a list whose harness flags, with the one before it, are `hs`
abbrev reading : List String → List String → Option (String × Bool × List String)
reading [] args = some ("", contains "--force" args, others args)
reading (h ∷ []) args = some (h, contains "--force" args, others args)
reading (h ∷ g ∷ more) args = none

reading-flag :
    (a : String) (hs args : List String)
    → is_harness a ≡ true
    → reading hs (a ∷ args) ≡ reading hs args
unfolding keep contains
reading-flag a [] args h = rw (is_harness-force a h, h) refl
reading-flag a (g ∷ []) args h = rw (is_harness-force a h, h) refl
reading-flag a (g ∷ k ∷ more) args h = refl

reading-other :
    (a : String) (hs args : List String)
    → is_harness a ≡ false
    → add_arg a (reading hs args) ≡ reading hs (a ∷ args)
unfolding keep contains add_arg
reading-other a [] args h = rw h (ground arith)
reading-other a (g ∷ []) args h = rw h (ground arith)
reading-other a (g ∷ k ∷ more) args h = refl

-- With a harness flag read, another is an error.
read_args-again :
    (h : String) (args : List String)
    → (h == "") ≡ false
    → read_args h args ≡ reading (h ∷ flags args) args
unfolding read_args keep contains
read_args-again h [] n = refl
read_args-again h (a ∷ args) n = elim (Bool-cases (is_harness a)) [
  | inl flag ↦ rw (flag, n) refl
  | inr other ↦
      rw other
        (ap (add_arg a) (read_args-again h args n) ∙ reading-other a (h ∷ flags args) args other)
]

read_args-reading : (args : List String) → read_args "" args ≡ reading (flags args) args
unfolding read_args keep contains
read_args-reading [] = refl
read_args-reading (a ∷ args) = elim (Bool-cases (is_harness a)) [
  | inl flag ↦ rw flag (
      read_args-again a args (is_harness-nonempty a flag)
      ∙ sym (reading-flag a (a ∷ flags args) args flag))
  | inr other ↦
      rw other (ap (add_arg a) (read_args-reading args) ∙ reading-other a (flags args) args other)
]

finish_args-reading :
    (hs args : List String)
    → ((h : String) → contains h hs ≡ true → (h == "") ≡ false)
    → finish_args (reading hs args) ≡ meaning hs args
unfolding finish_args contains
finish_args-reading [] args n = refl
finish_args-reading (h ∷ []) args n = rw (n h (ground (arith, eq_iff h h))) refl
finish_args-reading (h ∷ g ∷ more) args n = refl

flags-nonempty :
    (args : List String) (h : String) → contains h (flags args) ≡ true → (h == "") ≡ false
unfolding keep contains
flags-nonempty [] h k = ground (arith, k)
flags-nonempty (a ∷ args) h k = elim (Bool-cases (is_harness a)) [
  | inl flag ↦
      let here : ((a == h) || contains h (flags args)) ≡ true = rw flag at k in
      ground (arith, here, eq_iff a h, is_harness-nonempty a flag, flags-nonempty args h)
  | inr other ↦ flags-nonempty args h (rw other at k)
]

-- parseRunArgs takes exactly the lists with one harness flag, wherever it stands: then force tells
-- whether --force occurs, and the other arguments are passed on in their order; without a harness
-- flag and with several the two errors are given.
pub parse_run_args-meaning : (args : List String) → parse_run_args args ≡ meaning (flags args) args
unfolding parse_run_args
parse_run_args-meaning args =
    ap finish_args (read_args-reading args)
    ∙ finish_args-reading (flags args) args (flags-nonempty args)
