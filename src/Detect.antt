-- ===== src/Detect.antt =====
-- identity.go: DetectAgentInfo and detectHarness, which look at the process that registers.
pub mod Kinds
use lalia.Prelude.{String, Bool, false, not, ◌&&◌, ◌||◌, List, [], ◌∷◌, if◌then◌else◌, eqb, ◌==◌}
use Prim.Native.Char.{Char, code}
use lalia.Text.Trim.{trim_suffix, split_first, last_or}
use lalia.Session.{AgentInfo}

-- What the process sees: os.Getenv, os.Getwd (empty for an error), gitOutput, canonicalPath, and
-- the functions Base, Dir, IsAbs and Join of path/filepath.
pub record Surroundings : Type 0 where
  pub env : String → String
  pub cwd : String
  pub git : List String → String
  pub canonical : String → String
  pub base : String → String
  pub dir : String → String
  pub is_abs : String → Bool
  pub join : String → String → String

abbrev or_else : String → String → String
or_else s other = if s == "" then other else s

any_set : (String → String) → List String → Bool
any_set env [] = false
any_set env (name ∷ names) = not (env name == "") || any_set env names

-- detectHarness
unfoldable pub detect_harness : (String → String) → String
unfolding any_set
detect_harness env =
    if any_set env ("CLAUDECODE" ∷ "CLAUDE_CODE" ∷ [])
    then "claude-code"
    else if any_set env (
        "CODEX" ∷ "OPENAI_CODEX" ∷ "CODEX_HOME" ∷ "CODEX_LOG_DIR" ∷ "CODEX_CI" ∷ "CODEX_THREAD_ID"
        ∷ [])
    then "codex-cli"
    else if any_set env ("CURSOR_TRACE_ID" ∷ "CURSOR_SESSION_ID" ∷ [])
    then "cursor"
    else if any_set env ("AIDER_ENV" ∷ [])
    then "aider"
    else if any_set env ("GITHUB_COPILOT_CLI" ∷ "COPILOT_AGENT" ∷ [])
    then "copilot"
    else if any_set env ("GEMINI_CLI" ∷ "GEMINI_AGENT" ∷ [])
    then "gemini-cli"
    else "unknown"

abbrev is_slash : Char → Bool
is_slash c = eqb (code c) b'/'

-- The last segment of the URL of a repository, as DetectAgentInfo takes it
unfoldable pub url_project : String → String
url_project url =
    if url == ""
    then ""
    else let (part, parts) = split_first is_slash (trim_suffix "/" (trim_suffix ".git" url)) in
      last_or part parts

module _ (w : Surroundings) where
  -- The git directory that the worktrees share, as an absolute path
  unfoldable pub common_dir : String → String
  common_dir cwd =
      let dir = w.git ("rev-parse" ∷ "--git-common-dir" ∷ []) in
      if dir == "" then "" else if w.is_abs dir then dir else w.join cwd dir

  unfoldable pub main_root : String → String → String
  unfolding common_dir
  main_root cwd root =
      if (root == "") || (common_dir cwd == "") then "" else w.canonical (w.dir (common_dir cwd))

  -- WorktreeKind
  unfoldable pub worktree_kind : String → String → String → String
  unfolding common_dir
  worktree_kind cwd root branch =
      if root == ""
      then "outside"
      else if branch == "HEAD"
      then "detached"
      else if common_dir cwd == ""
      then ""
      else if root == w.canonical (w.dir (common_dir cwd))
      then "main"
      else "secondary"

  -- The steps that find a project
  unfoldable pub detect_project : String → String → String → String → String
  detect_project url main kind cwd =
      let named = url_project url in
      let local = if named == "" then (if main == "" then "" else w.base main) else named in
      if (local == "") && not (kind == "outside") then w.base cwd else local

  detect_root : String
  detect_root =
      let root = w.git ("rev-parse" ∷ "--show-toplevel" ∷ []) in
      if root == "" then "" else w.canonical root

  -- DetectAgentInfo, of the values that the caller overrides. The role, which the source passes
  -- beside the AgentInfo, stays as it is.
  unfoldable pub detect_agent_info : AgentInfo → AgentInfo
  unfolding detect_root
  detect_agent_info over =
      let cwd = or_else over.cwd (if w.cwd == "" then "" else w.canonical w.cwd) in
      let branch = or_else over.branch (w.git ("rev-parse" ∷ "--abbrev-ref" ∷ "HEAD" ∷ [])) in
      let url = or_else over.repo_url (w.git ("config" ∷ "--get" ∷ "remote.origin.url" ∷ [])) in
      let root = or_else over.repo_root detect_root in
      let main = main_root cwd root in
      let kind = worktree_kind cwd root branch in
      record {
        harness = or_else over.harness (detect_harness w.env);
        model = over.model;
        project = or_else over.project (detect_project url main kind cwd);
        repo_url = url;
        repo_root = root;
        main_repo_root = main;
        worktree_kind = kind;
        worktree = w.base cwd;
        branch = branch;
        cwd = cwd;
        role = over.role;
      }
