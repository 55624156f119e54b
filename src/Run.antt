-- ===== src/Run.antt =====
-- run.go: the arguments of `lalia run`, and the prompt files that it writes before it starts a
-- harness.
pub mod Arguments
pub mod Prompts
pub mod Sections
use Prim.Native.Char.{Char, code}
use Prim.Native.String.{◌++◌ as append}
use lalia.Prelude.{
  String, Bool, true, false, not, ◌&&◌, ◌||◌, Option, none, some, List, [], ◌∷◌, if◌then◌else◌, eqb,
  ◌==◌,
}
use lalia.Text.{map_chars, trim_space}
use lalia.Text.Trim.{trim_left_by, trim_right_by, ends_by}

abbrev pub managed_prompt_marker : String
managed_prompt_marker = "<!-- lalia:managed -->"

abbrev pub copilot_begin_marker : String
copilot_begin_marker = "<!-- lalia-begin -->"

abbrev pub copilot_end_marker : String
copilot_end_marker = "<!-- lalia-end -->"

abbrev pub is_newline : Char → Bool
is_newline c = eqb (code c) 10

-- The results of parseRunArgs
pub record RunArgs : Type 0 where
  pub harness : String
  pub force : Bool
  pub harness_args : List String

pub data RunError : Type 0 where
  multiple_harness_flags missing_harness_flag : RunError

pub data Parsed : Type 0 where
  bad : RunError → Parsed
  good : RunArgs → Parsed

unfoldable pub is_harness : String → Bool
is_harness a = (a == "--claude-code") || (a == "--codex") || (a == "--copilot")

-- An argument that is no harness flag
unfoldable pub add_arg :
    String → Option (String × Bool × List String) → Option (String × Bool × List String)
add_arg a none = none
add_arg a (some (h, force, passed)) =
    if a == "--force" then some (h, true, passed) else some (h, force, a ∷ passed)

-- The loop of parseRunArgs, with what it has read so far; the arguments that are passed on come out
-- in their order.
unfoldable pub read_args : String → List String → Option (String × Bool × List String)
unfolding add_arg
read_args harness [] = some (harness, false, [])
read_args harness (a ∷ args) =
    let rest = read_args (if is_harness a then a else harness) args in
    if is_harness a && not (harness == "")
    then none
    else if is_harness a
    then rest
    else add_arg a rest

unfoldable pub finish_args : Option (String × Bool × List String) → Parsed
finish_args none = bad multiple_harness_flags
finish_args (some (h, force, passed)) =
    if h == ""
    then bad missing_harness_flag
    else good record { harness = h; force = force; harness_args = passed }

-- parseRunArgs
unfoldable pub parse_run_args : List String → Parsed
unfolding finish_args
parse_run_args args = finish_args (read_args "" args)

-- ensureTrailingNewline
unfoldable pub ensure_trailing_newline : String → String
ensure_trailing_newline s = if ends_by is_newline s then s else append s "\n"

-- renderManagedPrompt
unfoldable pub render_managed_prompt : String → String
unfolding ensure_trailing_newline
render_managed_prompt prompt =
    append managed_prompt_marker
      (append "\n\n" (ensure_trailing_newline (trim_left_by is_newline prompt)))

-- renderCopilotSection
unfoldable pub render_copilot_section : String → String
unfolding ensure_trailing_newline
render_copilot_section prompt =
    append copilot_begin_marker
      (append "\n" (append (ensure_trailing_newline prompt) (append copilot_end_marker "\n")))

-- The text before the first line feed
unfoldable pub first_line : String → String
first_line String.[] = String.[]
first_line (String.◌∷◌ c s) =
    let rest = first_line s in if is_newline c then String.[] else String.◌∷◌ c rest

-- hasManagedFirstLine
unfoldable pub has_managed_first_line : String → Bool
unfolding first_line trim_space
has_managed_first_line content = trim_space (first_line content) == managed_prompt_marker

-- What follows a prefix, if the text has it
unfoldable pub strip_prefix : String → String → Option String
strip_prefix String.[] s = some s
strip_prefix (String.◌∷◌ p pat) String.[] = none
strip_prefix (String.◌∷◌ p pat) (String.◌∷◌ c s) =
    let rest = strip_prefix pat s in if eqb (code p) (code c) then rest else none

unfoldable pub prepend : Char → Option (String × String) → Option (String × String)
prepend c none = none
prepend c (some (before, after)) = some (String.◌∷◌ c before, after)

unfoldable pub found_here : Option String → Option (String × String) → Option (String × String)
found_here none later = later
found_here (some after) later = some (String.[], after)

-- strings.Index and the two slices at it: what stands before the first occurrence of a text that is
-- not empty, and what stands after it
unfoldable pub find_split : String → String → Option (String × String)
unfolding prepend found_here strip_prefix
find_split pat String.[] = none
find_split pat (String.◌∷◌ c s) =
    found_here (strip_prefix pat (String.◌∷◌ c s)) (prepend c (find_split pat s))

abbrev pub found {ℓ} : {A : Type ℓ} → Option A → Bool
found none = false
found (some a) = true

-- strings.Contains, of a text that is not empty
unfoldable pub contains_text : String → String → Bool
contains_text pat s = found (find_split pat s)

unfoldable pub replace_tail : String → String → Option (String × String) → String
replace_tail before section none = append (trim_right_by is_newline before) (append "\n" section)
replace_tail before section (some (old, tail)) =
    let rest = trim_left_by is_newline tail in
    if rest == ""
    then append (trim_right_by is_newline before) (append "\n" section)
    else append (trim_right_by is_newline before) (append "\n" (append section (append "\n" rest)))

unfoldable pub upsert_at : String → String → Option (String × String) → String
upsert_at existing section none =
    if existing == ""
    then section
    else append (ensure_trailing_newline existing) (append "\n" section)
upsert_at existing section (some (before, after)) =
    replace_tail before section (find_split copilot_end_marker after)

-- upsertCopilotSection
unfoldable pub upsert_copilot_section : String → String → String
unfolding upsert_at replace_tail find_split ensure_trailing_newline
upsert_copilot_section existing section =
    upsert_at existing section (find_split copilot_begin_marker existing)

-- readExisting: no file, its text, or another error
pub data Existing : Type 0 where
  absent : Existing
  present : String → Existing
  unreadable : Existing

-- What a write of a prompt file ends with: an error of the file system, a refusal, or the new text
pub data Write : Type 0 where
  io_error refused : Write
  written : String → Write

unfoldable pub written_if : Bool → String → Write
written_if ok text = if ok then written text else io_error

-- writeManagedPromptFile. `ok` tells whether os.MkdirAll and os.WriteFile succeed.
unfoldable pub write_managed_prompt_file : Bool → Existing → String → Bool → Write
unfolding written_if
write_managed_prompt_file ok unreadable prompt force = io_error
write_managed_prompt_file ok absent prompt force = written_if ok (render_managed_prompt prompt)
write_managed_prompt_file ok (present old) prompt force =
    if not force && not (has_managed_first_line old)
    then refused
    else written_if ok (render_managed_prompt prompt)

-- writeCopilotPromptFile
unfoldable pub write_copilot_prompt_file : Bool → Existing → String → Bool → Write
unfolding written_if
write_copilot_prompt_file ok unreadable prompt force = io_error
write_copilot_prompt_file ok absent prompt force = written_if ok (render_copilot_section prompt)
write_copilot_prompt_file ok (present old) prompt force =
    if contains_text copilot_begin_marker old
    then written_if ok (upsert_copilot_section old (render_copilot_section prompt))
    else if force
    then written_if ok (render_copilot_section prompt)
    else refused

abbrev pub config_error_markers : List String
config_error_markers =
    "unknown" ∷ "unrecognized" ∷ "invalid" ∷ "not found" ∷ "no such" ∷ "unsupported" ∷ []

unfoldable pub contains_any : List String → String → Bool
contains_any [] s = false
contains_any (m ∷ ms) s = contains_text m s || contains_any ms s

-- isCodexConfigKeyError; `lower` is unicode.ToLower
unfoldable pub is_codex_config_key_error : (Char → Char) → String → Bool
is_codex_config_key_error lower stderr =
    contains_text "experimental_instructions_file" (map_chars lower stderr)
    && contains_any config_error_markers (map_chars lower stderr)
