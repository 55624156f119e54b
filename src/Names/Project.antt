-- ===== src/Names/Project.antt =====
-- project.go: projectID reads the name of the repository from its URL.
use Prim.Native.String.{len, ◌++◌ as append}
use Prim.Native.String.len as len_clauses
use Prim.Native.String.append as append_clauses
use Prim.Native.Char.{Char}
use text.Mathlib.TextPositions.{len-append, len_utf8-pos}
use lalia.Prelude.{
  ◌≡◌, refl, sym, ap, ◌∙◌, String, true, false, not, List, [], ◌==◌, Bool-cases, inl, inr, arith,
  eq_iff, eq_refl,
}
use lalia.Text.{all_chars}
use lalia.Text.Trim.{trim_suffix, split_first, keep_field, nonempty, fields_by, last_or, ends_by}
use lalia.Names.{is_separator, repo_name, slugify, project_id}

longer : (c : Char) (s t : String) → (String.◌∷◌ c (append s t) == t) ≡ false
longer c s t = elim (Bool-cases (String.◌∷◌ c (append s t) == t)) [
  | inr differ ↦ differ
  | inl same ↦
      let lens : len (String.◌∷◌ c (append s t)) ≡ len t = ap len ((eq_iff _ t).0 same) in
      let (k, wide) = len_utf8-pos c in
      ground (arith, lens, len_clauses.cons c (append s t), len-append s t, wide)
]

trim_suffix_self : (t : String) → trim_suffix t t ≡ ""
unfolding trim_suffix
trim_suffix_self String.[] = refl
trim_suffix_self (String.◌∷◌ c t) = rw (eq_refl (String.◌∷◌ c t)) refl

trim_suffix-append : (s t : String) → trim_suffix t (append s t) ≡ s
unfolding trim_suffix
trim_suffix-append String.[] t = ap (trim_suffix t) (append_clauses.nil t) ∙ trim_suffix_self t
trim_suffix-append (String.◌∷◌ c s) t =
    ap (trim_suffix t) (append_clauses.cons c s t)
    ∙ rw (longer c s t) (ap (String.◌∷◌ c) (trim_suffix-append s t))

-- A name of a repository: not empty, and without separators
abbrev pub IsRepoName : String → Type 0
IsRepoName name = ((name == "") ≡ false) × (all_chars (λ c. not (is_separator c)) name ≡ true)

split_first-name :
    (name : String)
    → all_chars (λ c. not (is_separator c)) name ≡ true
    → split_first is_separator name ≡ (name, [])
unfolding split_first all_chars
split_first-name String.[] h = refl
split_first-name (String.◌∷◌ c s) h = ground (arith, split_first-name s)

last_or-keep_field :
    (d x : String) (xs : List String) (y : String)
    → ((e : String) → last_or e xs ≡ y)
    → last_or d (keep_field x xs) ≡ y
unfolding last_or
last_or-keep_field d x xs y h = elim (Bool-cases (x == "")) [
  | inl empty ↦ rw empty (h d)
  | inr full ↦ rw full (h x)
]

-- After any prefix that ends in a separator, the name is the last of the parts.
split_last :
    (c : Char) (pre name : String)
    → is_separator c ≡ true
    → IsRepoName name
    → (e : String)
    → last_or e (nonempty (split_first is_separator (append pre (String.◌∷◌ c name))).1) ≡ name
unfolding split_first nonempty last_or
split_last c String.[] name sep (full, plain) e =
    ap (λ t. last_or e (nonempty (split_first is_separator t).1))
      (append_clauses.nil (String.◌∷◌ c name))
    ∙ rw (sep, split_first-name name plain, full) refl
split_last c (String.◌∷◌ d pre) name sep v e =
    ap (λ t. last_or e (nonempty (split_first is_separator t).1))
      (append_clauses.cons d pre (String.◌∷◌ c name))
    ∙ (elim (Bool-cases (is_separator d)) [
      | inl cut ↦ rw cut (
          last_or-keep_field e (split_first is_separator (append pre (String.◌∷◌ c name))).0
            (nonempty (split_first is_separator (append pre (String.◌∷◌ c name))).1) name
            (split_last c pre name sep v))
      | inr plain ↦ rw plain (split_last c pre name sep v e)
    ])

fields_by-last :
    (c : Char) (pre name : String)
    → is_separator c ≡ true
    → IsRepoName name
    → last_or "" (fields_by is_separator (append pre (String.◌∷◌ c name))) ≡ name
unfolding fields_by
fields_by-last c pre name sep v =
    last_or-keep_field "" (split_first is_separator (append pre (String.◌∷◌ c name))).0
      (nonempty (split_first is_separator (append pre (String.◌∷◌ c name))).1) name
      (split_last c pre name sep v)

-- A text that ends in no separator has no slash to trim.
trim_slash-id : (s : String) → ends_by is_separator s ≡ false → trim_suffix "/" s ≡ s
unfolding trim_suffix ends_by
trim_slash-id String.[] h = refl
trim_slash-id (String.◌∷◌ c s) h = elim (Bool-cases (String.◌∷◌ c s == "/")) [
  | inl slash ↦
      let wrong : ends_by is_separator "/" ≡ false =
        sym (ap (ends_by is_separator) ((eq_iff (String.◌∷◌ c s) "/").0 slash)) ∙ h in
      cc
  | inr other ↦ rw other (ap (String.◌∷◌ c) (trim_slash-id s (tail_end c s h)))
]
  where
    tail_end :
        (c : Char) (s : String)
        → ends_by is_separator (String.◌∷◌ c s) ≡ false
        → ends_by is_separator s ≡ false
    tail_end c s h = elim (Bool-cases (s == "")) [
      | inl empty ↦ ap (ends_by is_separator) ((eq_iff s "").0 empty)
      | inr more ↦ rw more at h
    ]

ends_by-name :
    (name : String)
    → all_chars (λ c. not (is_separator c)) name ≡ true
    → ends_by is_separator name ≡ false
unfolding ends_by all_chars
ends_by-name String.[] h = refl
ends_by-name (String.◌∷◌ c s) h = ground (arith, ends_by-name s)

nonempty-append : (c : Char) (s t : String) → (append s (String.◌∷◌ c t) == "") ≡ false
nonempty-append c s t = elim (Bool-cases (append s (String.◌∷◌ c t) == "")) [
  | inr full ↦ full
  | inl empty ↦
      let lens : len (append s (String.◌∷◌ c t)) ≡ len "" = ap len ((eq_iff _ "").0 empty) in
      let (k, wide) = len_utf8-pos c in
      let none_left : len "" ≡ 0 = refl in
      ground (arith, lens, none_left, len_clauses.cons c t, len-append s (String.◌∷◌ c t), wide)
]

ends_by-append :
    (c : Char) (pre name : String)
    → IsRepoName name
    → ends_by is_separator (append pre (String.◌∷◌ c name)) ≡ false
unfolding ends_by
ends_by-append c String.[] name (full, plain) =
    ap (ends_by is_separator) (append_clauses.nil (String.◌∷◌ c name))
    ∙ rw full (ends_by-name name plain)
ends_by-append c (String.◌∷◌ d pre) name v =
    ap (ends_by is_separator) (append_clauses.cons d pre (String.◌∷◌ c name))
    ∙ rw (nonempty-append c pre name) (ends_by-append c pre name v)

-- For a URL that ends in a separator, a name that is not empty and holds no separator, and the
-- suffix .git, the project id is the slug of that name, whatever stands before it: https and ssh
-- URLs of a repository give one id.
pub project_id-url :
    (lower : Char → Char) (c : Char) (pre name fallback : String)
    → is_separator c ≡ true
    → IsRepoName name
    → project_id lower (append (append pre (String.◌∷◌ c name)) ".git") fallback
      ≡ slugify lower name
unfolding project_id repo_name
project_id-url lower c pre name fallback sep v =
    let url : String = append pre (String.◌∷◌ c name) in
    rw
      (
        nonempty-append "." url "git",
        trim_suffix-append url ".git",
        trim_slash-id url (ends_by-append c pre name v),
        fields_by-last c pre name sep v,
        v.0,
      )
      refl
