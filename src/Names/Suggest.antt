-- ===== src/Names/Suggest.antt =====
-- identity.go: the name that SuggestAgentName gives.
use Prim.Native.String.{len, ◌++◌ as append}
use Prim.Native.String.len as len_clauses
use Prim.Native.String.append as append_clauses
use Prim.Native.Char.{Char}
use text.Mathlib.TextPositions.{len-append, len_utf8-pos}
use lalia.Prelude.{
  suc, ◌≡◌, ◌≤◌, ◌+◌, ◌*◌, refl, ap, ◌∙◌, String, Bool, true, false, not, ◌&&◌, ◌||◌, List, [], ◌∷◌,
  ◌++◌, if◌then◌else◌, if_both, length, length-append, ◌==◌, Bool-cases, inl, inr, arith,
}
use lalia.Text.{all_chars}
use lalia.Session.{AgentInfo}
use lalia.Names.{
  is_alnum, is_dash, max_name_part, sanitize_name_part, join, compose_name, suggest_harness,
  suggest_scope, suggest_agent_name,
}
use lalia.Names.Slugs.{slug_char, all_chars-grouped, sanitize_name_part-IsSlug}

abbrev IsPart : String → Type 0
IsPart s = (all_chars slug_char s ≡ true) × (len s ≤ max_name_part)

abbrev AreParts : List String → Type 0
AreParts [] = Unit
AreParts (x ∷ xs) = IsPart x × AreParts xs

sanitize_name_part-IsPart : (lower : Char → Char) (s : String) → IsPart (sanitize_name_part lower s)
sanitize_name_part-IsPart lower s =
    let (v, short) = sanitize_name_part-IsSlug lower s in
    (all_chars-grouped false (sanitize_name_part lower s) v.groups, short)

all_chars-append :
    (p : Char → Bool) (s t : String)
    → all_chars p s ≡ true
    → all_chars p t ≡ true
    → all_chars p (append s t) ≡ true
unfolding all_chars
all_chars-append p String.[] t h k = ap (all_chars p) (append_clauses.nil t) ∙ k
all_chars-append p (String.◌∷◌ c s) t h k =
    ap (all_chars p) (append_clauses.cons c s t) ∙ ground (arith, h, all_chars-append p s t)

AreParts-append : (xs ys : List String) → AreParts xs → AreParts ys → AreParts (xs ++ ys)
AreParts-append [] ys p q = q
AreParts-append (x ∷ xs) ys (p, ps) q = (p, AreParts-append xs ys ps q)

abbrev glue : String → String
glue t = append "-" t

all_chars-glue : (t : String) → all_chars slug_char t ≡ true → all_chars slug_char (glue t) ≡ true
all_chars-glue t h = all_chars-append slug_char "-" t (unfold all_chars is_alnum is_dash in refl) h

len-dash : len "-" ≡ 1
len-dash = refl

-- Each part costs at most 48 bytes, and one for the dash that follows it.
join-bounds :
    (x : String) (xs : List String)
    → IsPart x
    → AreParts xs
    → (all_chars slug_char (join "-" (x ∷ xs)) ≡ true)
      × ((len x ≤ len (join "-" (x ∷ xs))) × (len (join "-" (x ∷ xs)) + 1 ≤ 49 * suc (length xs)))
unfolding join
join-bounds x [] (p, short) ps = (p, (ground arith, ground (arith, short)))
join-bounds x (y ∷ ys) (p, short) (q, qs) =
    let rest : String = join "-" (y ∷ ys) in
    let (chars, (low, high)) = join-bounds y ys q qs in
    (
      all_chars-append slug_char x (glue rest) p (all_chars-glue rest chars),
      (
        ground (arith, len-append x (glue rest)),
        ground (arith, len-append x (glue rest), len-append "-" rest, len-dash, short, high),
      ),
    )

len-nonempty : (s : String) → (s == "") ≡ false → 1 ≤ len s
len-nonempty String.[] h = ground (arith, h)
len-nonempty (String.◌∷◌ c s) h =
    let (k, wide) = len_utf8-pos c in ground (arith, len_clauses.cons c s, wide)

optional :
    (b : Bool) (x : String)
    → IsPart x
    → AreParts (if b then x ∷ [] else []) × (length (if b then x ∷ [] else []) ≤ 1)
optional true x p = ((p, tt), ground arith)
optional false x p = (tt, ground arith)

-- A text of the characters a-z, 0-9 and the dash, of 1 to 146 bytes
pub record IsName (s : String) : Type 0 where
  pub chars : all_chars slug_char s ≡ true
  pub nonempty : 1 ≤ len s
  pub bounded : len s ≤ 146

compose_name-IsName :
    (lower : Char → Char) (h r scope : String)
    → IsPart h
    → IsPart r
    → IsPart scope
    → 1 ≤ len h
    → IsName (compose_name lower h r scope)
unfolding compose_name
compose_name-IsName lower h r scope ph pr ps full =
    let b : Bool = not (r == "") && not (r == h) in
    let d : Bool = not (scope == "") && (not (scope == h) && not (scope == r)) in
    let xs : List String = if b then r ∷ [] else [] in
    let ys : List String = if d then scope ∷ [] else [] in
    let (px, one) = optional b r pr in
    let (py, two) = optional d scope ps in
    let (chars, (low, high)) = join-bounds h (xs ++ ys) ph (AreParts-append xs ys px py) in
    record {
      chars = chars;
      nonempty = ground (arith, low, full);
      bounded = ground (arith, high, length-append xs ys, one, two);
    }

-- The name that SuggestAgentName gives has at least one and at most 146 bytes, and its characters
-- are a-z, 0-9 and the dash, whatever was detected.
pub suggest_agent_name-IsName :
    (lower : Char → Char) (info : AgentInfo) (role : String)
    → IsName (suggest_agent_name lower info role)
unfolding suggest_agent_name suggest_harness suggest_scope
suggest_agent_name-IsName lower info role =
    let part = sanitize_name_part-IsPart lower in
    let h : String = sanitize_name_part lower info.harness in
    let worktree : String = sanitize_name_part lower info.worktree in
    let scope : String =
      if worktree == "" then sanitize_name_part lower info.branch else worktree in
    let scope' : String =
      if (scope == "") || (scope == "head") then sanitize_name_part lower info.project else scope in
    compose_name-IsName lower _ (sanitize_name_part lower role) _
      (if_both IsPart ((h == "") || (h == "unknown")) agent-IsPart (part info.harness)) (part role)
      (if_both IsPart (scope' == "") local-IsPart (
        if_both IsPart ((scope == "") || (scope == "head")) (part info.project)
          (if_both IsPart (worktree == "") (part info.branch) (part info.worktree))))
      (harness_full h)
  where
    agent-IsPart : IsPart "agent"
    agent-IsPart = (unfold all_chars is_alnum in refl, ground arith)

    local-IsPart : IsPart "local"
    local-IsPart = (unfold all_chars is_alnum in refl, ground arith)

    harness_full : (h : String) → 1 ≤ len (if (h == "") || (h == "unknown") then "agent" else h)
    harness_full h = elim (Bool-cases (h == "")) [
      | inl empty ↦ rw empty (ground arith)
      | inr full ↦
          rw full (if_both (λ s. 1 ≤ len s) (h == "unknown") (ground arith) (len-nonempty h full))
    ]
