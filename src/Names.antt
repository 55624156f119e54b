-- ===== src/Names.antt =====
-- identity.go and project.go: the names of agents and of projects. `lower` is unicode.ToLower,
-- which strings.ToLower applies to each character.
pub mod Slugs
pub mod Project
pub mod Suggest
use Prim.Native.Char.{Char, code}
use Prim.Native.String.{len, ◌++◌ as append}
use lalia.Prelude.{
  ℕ, String, Bool, false, not, ◌&&◌, ◌||◌, List, [], ◌∷◌, ◌++◌, if◌then◌else◌, ltb, leb, eqb, ◌==◌,
}
use lalia.Text.{map_chars, trim_space}
use lalia.Text.Trim.{trim_by, take_chars, trim_suffix, fields_by, last_or}
use lalia.Session.{AgentInfo}

unfoldable pub is_alnum : Char → Bool
is_alnum c = (leb b'a' (code c) && leb (code c) b'z') || (leb b'0' (code c) && leb (code c) b'9')

unfoldable pub is_dash : Char → Bool
is_dash c = eqb (code c) b'-'

abbrev pub dash : Char
dash = "-"

-- The loop of sanitizeNamePart, which is also nonAlnum.ReplaceAllString(s, "-"): one dash for each
-- run of other characters. `prev` is prevDash.
unfoldable pub dashed : Bool → String → String
unfolding is_alnum
dashed prev String.[] = String.[]
dashed prev (String.◌∷◌ c s) =
    let rest = dashed (not (is_alnum c)) s in
    if is_alnum c then String.◌∷◌ c rest else if prev then rest else String.◌∷◌ dash rest

abbrev pub max_name_part : ℕ
max_name_part = 48

-- The end of sanitizeNamePart. Its text has characters of one byte each, so that a cut by bytes is
-- one by characters.
unfoldable pub shorten : String → String
shorten out =
    if ltb max_name_part (len out) then trim_by is_dash (take_chars max_name_part out) else out

-- strings.Join
unfoldable pub join : String → List String → String
join sep [] = ""
join sep (x ∷ []) = x
join sep (x ∷ y ∷ more) = append x (append sep (join sep (y ∷ more)))

abbrev pub is_separator : Char → Bool
is_separator c = eqb (code c) b'/' || eqb (code c) b':'

module _ (lower : Char → Char) where
  -- sanitizeNamePart; an empty text comes out empty
  unfoldable pub sanitize_name_part : String → String
  unfolding shorten dashed map_chars trim_space
  sanitize_name_part s = shorten (trim_by is_dash (dashed false (map_chars lower (trim_space s))))

  -- The last part of SuggestAgentName
  unfoldable pub compose_name : String → String → String → String
  unfolding join
  compose_name harness r scope = join "-" (
      harness
      ∷ ((if not (r == "") && not (r == harness) then r ∷ [] else [])
          ++ (if not (scope == "") && (not (scope == harness) && not (scope == r))
              then scope ∷ []
              else [])))

  unfoldable pub suggest_harness : String → String
  suggest_harness h = if (h == "") || (h == "unknown") then "agent" else h

  unfoldable pub suggest_scope : AgentInfo → String
  suggest_scope info =
      let worktree = sanitize_name_part info.worktree in
      let scope = if worktree == "" then sanitize_name_part info.branch else worktree in
      let scope' =
        if (scope == "") || (scope == "head") then sanitize_name_part info.project else scope in
      if scope' == "" then "local" else scope'

  -- SuggestAgentName
  unfoldable pub suggest_agent_name : AgentInfo → String → String
  unfolding compose_name suggest_harness suggest_scope
  suggest_agent_name info role =
      compose_name (suggest_harness (sanitize_name_part info.harness)) (sanitize_name_part role)
        (suggest_scope info)

  -- slugify
  unfoldable pub slugify : String → String
  unfolding dashed map_chars
  slugify s =
      let slug = trim_by is_dash (dashed false (map_chars lower s)) in
      if slug == "" then "default" else slug

  unfoldable pub repo_name : String → String
  repo_name repo_url =
      if repo_url == ""
      then ""
      else last_or "" (fields_by is_separator (trim_suffix "/" (trim_suffix ".git" repo_url)))

  -- projectID
  unfoldable pub project_id : String → String → String
  unfolding repo_name
  project_id repo_url fallback =
      let raw = repo_name repo_url in slugify (if raw == "" then fallback else raw)
