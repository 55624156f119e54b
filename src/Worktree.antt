-- ===== src/Worktree.antt =====
-- task.go: the parser of `git worktree list --porcelain`, and the decision of ensureWorktree.
use lalia.Prelude.{
  String, Bool, true, false, not, Option, none, some, List, [], ◌∷◌, ◌++◌, if◌then◌else◌, ◌==◌,
}

-- worktreeEntry
pub record WorktreeEntry : Type 0 where
  pub path : String
  pub branch : String

-- A line of the listing by its prefix: empty, `worktree <path>`, `branch refs/heads/<name>` or
-- another. The text after the prefix is given.
pub data Line : Type 0 where
  blank other_line : Line
  worktree_line branch_line : String → Line

no_entry : WorktreeEntry
no_entry = record { path = ""; branch = "" }

flush : WorktreeEntry → List WorktreeEntry
flush cur = if cur.path == "" then [] else cur ∷ []

-- The loop of listWorktrees, with the entry that is being read.
scan_worktrees : WorktreeEntry → List Line → List WorktreeEntry
unfolding flush no_entry
scan_worktrees cur [] = flush cur
scan_worktrees cur (blank ∷ lines) = flush cur ++ scan_worktrees no_entry lines
scan_worktrees cur (worktree_line p ∷ lines) = scan_worktrees (record cur { path = p }) lines
scan_worktrees cur (branch_line b ∷ lines) = scan_worktrees (record cur { branch = b }) lines
scan_worktrees cur (other_line ∷ lines) = scan_worktrees cur lines

unfoldable pub parse_worktrees : List Line → List WorktreeEntry
unfolding scan_worktrees no_entry
parse_worktrees lines = scan_worktrees no_entry lines

-- What ensureWorktree sees of git and of the file system: canonicalPath, the listing (or its
-- failure), whether the target exists, and whether the parent's creation and `git worktree add`
-- succeed.
pub record Git : Type 0 where
  pub canonical : String → String
  pub listing : Option (List Line)
  pub exists : String → Bool
  pub mkdir_ok : Bool
  pub add_ok : Bool

-- The loop over the entries: `some (some false)` for a worktree that is already there,
-- `some none` for a refusal, and `none` if no entry decides.
unfoldable pub check_entries :
    (String → String) → String → String → List WorktreeEntry → Option (Option Bool)
check_entries canonical target branch [] = none
check_entries canonical target branch (e ∷ es) =
    if canonical e.path == target
    then (if e.branch == branch then some (some false) else some none)
    else if e.branch == branch
    then some none
    else check_entries canonical target branch es

create_worktree : Git → String → Option (Option Bool) → Option Bool
create_worktree git target (some decided) = decided
create_worktree git target none =
    if git.exists target
    then none
    else if not git.mkdir_ok
    then none
    else if git.add_ok
    then some true
    else none

ensure_listed : Git → String → String → Option (List Line) → Option Bool
unfolding create_worktree
ensure_listed git target branch none = none
ensure_listed git target branch (some lines) =
    create_worktree git (git.canonical target)
      (check_entries git.canonical (git.canonical target) branch (parse_worktrees lines))

-- ensureWorktree: whether it created the worktree, or `none` for an error
unfoldable pub ensure_worktree : Git → String → String → Option Bool
unfolding ensure_listed check_entries parse_worktrees
ensure_worktree git target branch = ensure_listed git target branch git.listing
