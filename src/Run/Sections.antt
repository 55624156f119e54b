-- ===== src/Run/Sections.antt =====
-- run.go: where upsertCopilotSection finds the section of a Copilot prompt file, and what it leaves.
use Prim.Native.Char.{Char, code}
use Prim.Native.String.{◌++◌ as append}
use Prim.Native.String.append as append_clauses
use text.Mathlib.TextEquality.{Char-path}
use text.Mathlib.TextLemmas.{append-nil}
use lalia.Prelude.{
  ◌≡◌, refl, sym, ap, ◌∙◌, String, true, false, Option, none, some, ◌==◌, eqb, Bool-cases,
  Option-cases, inl, inr, ◌⊎◌, arith, if◌then◌else◌,
}
use lalia.Text.Trim.{trim_left_by, trim_right_by}
use lalia.Run.{
  copilot_begin_marker, copilot_end_marker, is_newline, strip_prefix, prepend, found, found_here,
  find_split, contains_text, replace_tail, upsert_at, upsert_copilot_section,
}

eqb-code : (p c : Char) → eqb (code p) (code c) ≡ true → p ≡ c
eqb-code p c h = Char-path p c (ground arith)

strip_prefix_sound : (pat s r : String) → strip_prefix pat s ≡ some r → s ≡ append pat r
unfolding strip_prefix
strip_prefix_sound String.[] s r h = let same : s ≡ r = cc in same ∙ sym (append_clauses.nil r)
strip_prefix_sound (String.◌∷◌ p pat) String.[] r h = cc
strip_prefix_sound (String.◌∷◌ p pat) (String.◌∷◌ c s) r h =
    elim (Bool-cases (eqb (code p) (code c))) [
      | inl same ↦
          let rest : strip_prefix pat s ≡ some r = rw same at h in
          ap (λ d. String.◌∷◌ d s) (sym (eqb-code p c same))
          ∙ ap (String.◌∷◌ p) (strip_prefix_sound pat s r rest)
          ∙ sym (append_clauses.cons p pat r)
      | inr other ↦ let no : none ≡ some r = rw other at h in cc
    ]

-- A text that begins with a prefix still does when more follows.
strip_prefix_longer :
    (pat s t r : String)
    → strip_prefix pat s ≡ some r
    → strip_prefix pat (append s t) ≡ some (append r t)
unfolding strip_prefix
strip_prefix_longer String.[] s t r h = let same : s ≡ r = cc in ap (λ x. some (append x t)) same
strip_prefix_longer (String.◌∷◌ p pat) String.[] t r h = cc
strip_prefix_longer (String.◌∷◌ p pat) (String.◌∷◌ c s) t r h =
    ap (strip_prefix (String.◌∷◌ p pat)) (append_clauses.cons c s t)
    ∙ elim (Bool-cases (eqb (code p) (code c))) [
      | inl same ↦ rw same (strip_prefix_longer pat s t r (rw same at h))
      | inr other ↦ let no : none ≡ some r = rw other at h in cc
    ]

-- The text is cut at the first occurrence of the pattern: it does not occur before.
abbrev pub Cut : String → String → String → String → Type 0
Cut pat s before after = (s ≡ append before (append pat after)) × (contains_text pat before ≡ false)

-- No occurrence starts at a character at which the longer text has none.
contains_text_later :
    (pat x t : String) (c : Char)
    → contains_text pat x ≡ false
    → strip_prefix pat (append (String.◌∷◌ c x) t) ≡ none
    → contains_text pat (String.◌∷◌ c x) ≡ false
unfolding contains_text find_split
contains_text_later pat x t c h away = elim (Option-cases (strip_prefix pat (String.◌∷◌ c x))) [
  | inl nowhere ↦ rw nowhere (later (find_split pat x) h)
  | inr (r, here) ↦
      let clash : none ≡ some (append r t) =
        sym away ∙ strip_prefix_longer pat (String.◌∷◌ c x) t r here in
      cc
]
  where
    later :
        (f : Option (String × String))
        → found f ≡ false
        → found (found_here none (prepend c f)) ≡ false
    later none k = refl
    later (some (b, a)) k = cc

find_split-Cut : (pat s b a : String) → find_split pat s ≡ some (b, a) → Cut pat s b a
unfolding contains_text find_split found_here prepend
find_split-Cut pat String.[] b a h = cc
find_split-Cut pat (String.◌∷◌ c s) b a h =
    go (strip_prefix pat (String.◌∷◌ c s)) (find_split pat s) refl refl
      (λ x y. find_split-Cut pat s x y) h
  where
    go :
        (o : Option String) (f : Option (String × String))
        → strip_prefix pat (String.◌∷◌ c s) ≡ o
        → find_split pat s ≡ f
        → ((x y : String) → find_split pat s ≡ some (x, y) → Cut pat s x y)
        → found_here o (prepend c f) ≡ some (b, a)
        → Cut pat (String.◌∷◌ c s) b a
    go (some r) f e k ih h =
        let start : String.[] ≡ b = cc in
        let rest : r ≡ a = cc in
        (
          strip_prefix_sound pat (String.◌∷◌ c s) r e
              ∙ ap (append pat) rest
              ∙ sym (append_clauses.nil (append pat a))
              ∙ ap (λ x. append x (append pat a)) start,
          ap (contains_text pat) (sym start),
        )
    go none none e k ih h = cc
    go none (some (x, y)) e k ih h =
        let start : String.◌∷◌ c x ≡ b = cc in
        let rest : y ≡ a = cc in
        let (text, before) = ih x y k in
        let whole : String.◌∷◌ c s ≡ append (String.◌∷◌ c x) (append pat y) =
          ap (String.◌∷◌ c) text ∙ sym (append_clauses.cons c x (append pat y)) in
        (
          whole
              ∙ ap (λ z. append (String.◌∷◌ c x) (append pat z)) rest
              ∙ ap (λ z. append z (append pat a)) start,
          ap (contains_text pat) (sym start)
              ∙ contains_text_later pat x (append pat y) c before
                  (ap (strip_prefix pat) (sym whole) ∙ e),
        )

-- What follows the new section: nothing, or the text after the old one, apart by an empty line.
abbrev pub kept_after : String → String
kept_after tail =
    if trim_left_by is_newline tail == "" then "" else append "\n" (trim_left_by is_newline tail)

-- The result is the text with the section in place of the first old one, which ends with the first
-- end marker after its begin marker, and without an end marker with the text.
abbrev pub Replaces : String → String → String → Type 0
Replaces text section result =
    ((before mid tail : String) × Cut copilot_begin_marker text before
        (append mid (append copilot_end_marker tail))
      × (contains_text copilot_end_marker mid ≡ false)
      × (result
          ≡ append (trim_right_by is_newline before)
              (append "\n" (append section (kept_after tail)))))
    ⊎ ((before after : String) × Cut copilot_begin_marker text before after
        × (contains_text copilot_end_marker after ≡ false)
        × (result ≡ append (trim_right_by is_newline before) (append "\n" section)))

pub upsert_copilot_section-Replaces :
    (text section : String)
    → contains_text copilot_begin_marker text ≡ true
    → Replaces text section (upsert_copilot_section text section)
unfolding upsert_copilot_section upsert_at replace_tail
upsert_copilot_section-Replaces text section h =
    at (find_split copilot_begin_marker text) refl (unfold contains_text in h)
  where
    closed :
        (before mid tail : String)
        → append (trim_right_by is_newline before) (append "\n" (append section (kept_after tail)))
          ≡ replace_tail before section (some (mid, tail))
    closed before mid tail = elim (Bool-cases (trim_left_by is_newline tail == "")) [
      | inl e ↦ rw (e, append-nil) refl
      | inr n ↦ rw n refl
    ]

    tailed :
        (before after : String) (o : Option (String × String))
        → Cut copilot_begin_marker text before after
        → find_split copilot_end_marker after ≡ o
        → Replaces text section (replace_tail before section o)
    tailed before after none cut e =
        inr (before, after, cut, unfold contains_text in rw e refl, refl)
    tailed before after (some (mid, tail)) cut e =
        let (text_eq, first) = find_split-Cut copilot_end_marker after mid tail e in
        inl (
          before,
          mid,
          tail,
          (cut.0 ∙ ap (λ x. append before (append copilot_begin_marker x)) text_eq, cut.1),
          first,
          sym (closed before mid tail),
        )

    at :
        (o : Option (String × String))
        → find_split copilot_begin_marker text ≡ o
        → found o ≡ true
        → Replaces text section (upsert_at text section o)
    at none e k = cc
    at (some (before, after)) e k =
        tailed before after (find_split copilot_end_marker after)
          (find_split-Cut copilot_begin_marker text before after e) refl
