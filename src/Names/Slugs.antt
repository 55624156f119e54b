-- ===== src/Names/Slugs.antt =====
-- identity.go and project.go: what sanitizeNamePart, SuggestAgentName and slugify return.
use Prim.Native.Nat.{zero, suc}
use Prim.Native.Char.{Char, len_utf8, len_utf8_def}
use Prim.Native.String.{len}
use Prim.Native.String.len as len_clauses
use text.Mathlib.TextEquality.{Char-path}
use lalia.Prelude.{
  ℕ, ◌≡◌, ◌≤◌, refl, String, Bool, true, false, not, ◌&&◌, ◌||◌, if◌then◌else◌, ltb, ◌==◌, arith,
  Bool-cases, inl, inr,
}
use lalia.Text.{all_chars, map_chars, trim_space}
use lalia.Text.Trim.{
  trim_left_by, trim_right_by, trim_by, take_chars, starts_by, ends_by, starts_by-trim_left_by,
  starts_by-trim_right_by, ends_by-trim_right_by, trim_left_by-id, trim_right_by-id,
}
use lalia.Names.{
  is_alnum, is_dash, dash, dashed, max_name_part, shorten, sanitize_name_part, slugify,
}

-- Letters and digits in groups that one dash separates; `prev` tells that a dash stands before.
unfoldable pub grouped : Bool → String → Bool
grouped prev String.[] = true
grouped prev (String.◌∷◌ c s) =
    let rest = grouped (not (is_alnum c)) s in
    if is_alnum c then rest else is_dash c && (not prev && rest)

-- A text of the characters a-z, 0-9 and single dashes that has no dash at its ends
pub record IsSlug (s : String) : Type 0 where
  pub groups : grouped false s ≡ true
  pub no_first_dash : starts_by is_dash s ≡ false
  pub no_last_dash : ends_by is_dash s ≡ false

is_alnum-dash : is_alnum dash ≡ false
unfolding is_alnum
is_alnum-dash = refl

is_dash-dash : is_dash dash ≡ true
unfolding is_dash
is_dash-dash = refl

grouped-dashed : (prev : Bool) (s : String) → grouped prev (dashed prev s) ≡ true
unfolding grouped dashed
grouped-dashed prev String.[] = refl
grouped-dashed prev (String.◌∷◌ c s) =
    ground (arith, grouped-dashed (not (is_alnum c)) s, is_alnum-dash, is_dash-dash)

grouped-weaker : (s : String) → grouped true s ≡ true → grouped false s ≡ true
unfolding grouped
grouped-weaker String.[] h = refl
grouped-weaker (String.◌∷◌ c s) h = ground arith

grouped-trim_left :
    (s : String) → grouped false s ≡ true → grouped false (trim_left_by is_dash s) ≡ true
unfolding grouped trim_left_by
grouped-trim_left String.[] h = refl
grouped-trim_left (String.◌∷◌ c s) h = ground (arith, grouped-trim_left s, grouped-weaker s)

grouped-trim_right :
    (prev : Bool) (s : String)
    → grouped prev s ≡ true
    → grouped prev (trim_right_by is_dash s) ≡ true
unfolding grouped trim_right_by
grouped-trim_right prev String.[] h = refl
grouped-trim_right prev (String.◌∷◌ c s) h =
    elim (Bool-cases ((trim_right_by is_dash s == "") && is_dash c)) [
      | inl cut ↦ rw cut refl
      | inr kept ↦ rw kept (ground (arith, h, grouped-trim_right (not (is_alnum c)) s))
    ]

grouped-take_chars :
    (n : ℕ) (prev : Bool) (s : String)
    → grouped prev s ≡ true
    → grouped prev (take_chars n s) ≡ true
unfolding grouped take_chars
grouped-take_chars zero prev s h = refl
grouped-take_chars (suc n) prev String.[] h = refl
grouped-take_chars (suc n) prev (String.◌∷◌ c s) h =
    ground (arith, grouped-take_chars n (not (is_alnum c)) s)

trim_by-IsSlug : (s : String) → grouped false s ≡ true → IsSlug (trim_by is_dash s)
unfolding trim_by
trim_by-IsSlug s h = record {
  groups = grouped-trim_right false (trim_left_by is_dash s) (grouped-trim_left s h);
  no_first_dash =
      starts_by-trim_right_by is_dash (trim_left_by is_dash s) (starts_by-trim_left_by is_dash s);
  no_last_dash = ends_by-trim_right_by is_dash (trim_left_by is_dash s);
}

len-trim_left : (s : String) → len (trim_left_by is_dash s) ≤ len s
unfolding trim_left_by
len-trim_left String.[] = ground arith
len-trim_left (String.◌∷◌ c s) = ground (arith, len_clauses.cons c s, len-trim_left s)

len-trim_right : (s : String) → len (trim_right_by is_dash s) ≤ len s
unfolding trim_right_by
len-trim_right String.[] = ground arith
len-trim_right (String.◌∷◌ c s) = elim (Bool-cases ((trim_right_by is_dash s == "") && is_dash c)) [
  | inl cut ↦ rw cut (ground arith)
  | inr kept ↦ rw kept (
      ground (
        arith,
        len_clauses.cons c s,
        len_clauses.cons c (trim_right_by is_dash s),
        len-trim_right s,
      ))
]

-- Every character is a letter a-z, a digit or a dash, which is one byte.
abbrev pub slug_char : Char → Bool
slug_char c = is_alnum c || is_dash c

len_utf8-slug_char : (c : Char) → slug_char c ≡ true → len_utf8 c ≡ 1
unfolding is_alnum is_dash
len_utf8-slug_char c h = let bytes = len_utf8_def c in ground (arith, bytes)

len-take_chars :
    (n : ℕ) (prev : Bool) (s : String) → grouped prev s ≡ true → len (take_chars n s) ≤ n
unfolding take_chars grouped
len-take_chars zero prev s h = ground arith
len-take_chars (suc n) prev String.[] h = ground arith
len-take_chars (suc n) prev (String.◌∷◌ c s) h = ground (
  arith,
  len_clauses.cons c (take_chars n s),
  len_utf8-slug_char c,
  len-take_chars n (not (is_alnum c)) s,
)

len-trim_by : (s : String) → len s ≤ max_name_part → len (trim_by is_dash s) ≤ max_name_part
unfolding trim_by
len-trim_by s h = ground (arith, len-trim_right (trim_left_by is_dash s), len-trim_left s)

pub shorten-IsSlug :
    (s : String) → IsSlug s → IsSlug (shorten s) × (len (shorten s) ≤ max_name_part)
unfolding shorten
shorten-IsSlug s v = elim (Bool-cases (ltb max_name_part (len s))) [
  | inl long ↦ rw long (
    trim_by-IsSlug (take_chars max_name_part s) (grouped-take_chars max_name_part false s v.groups),
    len-trim_by (take_chars max_name_part s) (len-take_chars max_name_part false s v.groups),
  )
  | inr short ↦ rw short (v, ground (arith, short))
]

pub sanitize_name_part-IsSlug :
    (lower : Char → Char) (s : String)
    → IsSlug (sanitize_name_part lower s) × (len (sanitize_name_part lower s) ≤ max_name_part)
unfolding sanitize_name_part
sanitize_name_part-IsSlug lower s =
    let low : String = map_chars lower (trim_space s) in
    shorten-IsSlug (trim_by is_dash (dashed false low))
      (trim_by-IsSlug (dashed false low) (grouped-dashed false low))

pub all_chars-grouped :
    (prev : Bool) (s : String) → grouped prev s ≡ true → all_chars slug_char s ≡ true
unfolding grouped all_chars
all_chars-grouped prev String.[] h = refl
all_chars-grouped prev (String.◌∷◌ c s) h = ground (arith, all_chars-grouped (not (is_alnum c)) s)

-- The functions of slugify leave a slug as it is.
module _ (lower : Char → Char) (fixed : (c : Char) → slug_char c ≡ true → lower c ≡ c) where
  lower-id : (s : String) → all_chars slug_char s ≡ true → map_chars lower s ≡ s
  unfolding all_chars map_chars
  lower-id String.[] h = refl
  lower-id (String.◌∷◌ c s) h = ground (arith, fixed c, lower-id s)

dash_only : (c : Char) → is_dash c ≡ true → c ≡ dash
unfolding is_dash
dash_only c h = Char-path c dash (ground arith)

dashed-id : (prev : Bool) (s : String) → grouped prev s ≡ true → dashed prev s ≡ s
unfolding grouped dashed
dashed-id prev String.[] h = refl
dashed-id prev (String.◌∷◌ c s) h = ground (arith, dashed-id (not (is_alnum c)) s, dash_only c)

slug_of : (Char → Char) → String → String
slug_of lower s = trim_by is_dash (dashed false (map_chars lower s))

slug_of-IsSlug : (lower : Char → Char) (s : String) → IsSlug (slug_of lower s)
unfolding slug_of
slug_of-IsSlug lower s = trim_by-IsSlug _ (grouped-dashed false (map_chars lower s))

default-IsSlug : IsSlug "default"
default-IsSlug = record {
  groups = unfold grouped is_alnum in refl;
  no_first_dash = unfold starts_by is_dash in refl;
  no_last_dash = unfold ends_by is_dash in refl;
}

pub slugify-IsSlug :
    (lower : Char → Char) (s : String)
    → IsSlug (slugify lower s) × ((slugify lower s == "") ≡ false)
unfolding slugify slug_of
slugify-IsSlug lower s = elim (Bool-cases (slug_of lower s == "")) [
  | inl empty ↦ rw empty (default-IsSlug, refl)
  | inr full ↦ rw full (slug_of-IsSlug lower s, full)
]

slugify-id :
    (lower : Char → Char)
    → ((c : Char) → slug_char c ≡ true → lower c ≡ c)
    → (s : String) → IsSlug s
    → (s == "") ≡ false
    → slugify lower s ≡ s
unfolding slugify trim_by
slugify-id lower fixed s v full =
    let lowered : map_chars lower s ≡ s =
      lower-id lower fixed s (all_chars-grouped false s v.groups) in
    rw
      (
        lowered,
        dashed-id false s v.groups,
        trim_left_by-id is_dash s v.no_first_dash,
        trim_right_by-id is_dash s v.no_last_dash,
        full,
      )
      refl

-- If unicode.ToLower leaves the characters a-z, 0-9 and the dash as they are, a slug is its own
-- slug.
pub slugify-idempotent :
    (lower : Char → Char)
    → ((c : Char) → slug_char c ≡ true → lower c ≡ c)
    → (s : String) → slugify lower (slugify lower s) ≡ slugify lower s
slugify-idempotent lower fixed s =
    let (v, full) = slugify-IsSlug lower s in slugify-id lower fixed (slugify lower s) v full
