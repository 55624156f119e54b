-- ===== src/Examples/Processes.antt =====
-- The theorems on the background writer, on names and projects, and on the prompt files, at concrete
-- rows, texts and arguments.
use Prim.Native.Char.{Char}
use Prim.Native.String.{◌++◌ as append}
use lalia.Prelude.{ℕ, ◌≡◌, refl, String, true, false, List, [], ◌∷◌, contains, arith}
use lalia.Prelude.Dict.{get}
use lalia.Types.{QueueRow, Queue, FilePath, Content}
use lalia.Writer.{Disk, flush_pending}
use lalia.Writer.Rows.{Ascending, retried, boots, flush_pending-retried, boots-empty}
use lalia.Writer.Account.{Event, run, AllAccounted, run-AllAccounted}
use lalia.Text.{all_chars}
use lalia.Names.{slugify, suggest_agent_name, project_id}
use lalia.Names.Slugs.{slugify-idempotent}
use lalia.Names.Suggest.{IsName, suggest_agent_name-IsName}
use lalia.Names.Project.{IsRepoName, project_id-url}
use lalia.Session.{AgentInfo}
use lalia.Run.{
  parse_run_args, Existing, Write, write_managed_prompt_file, write_copilot_prompt_file,
  render_managed_prompt, render_copilot_section,
}
use lalia.Run.Arguments.{flags, meaning, parse_run_args-meaning}
use lalia.Run.Sections.{Replaces}
use lalia.Run.Prompts.{managed-rewritable, copilot-rewritable}
use lalia.Detect.{Surroundings, detect_agent_info}
use lalia.Detect.Kinds.{IsConsistent, detect_agent_info-IsConsistent}
use lalia.Registry.{Nickname}
use lalia.Nicknames.{Contents, Reply, cmd_nickname, without_follow}
use lalia.Nicknames.Resolving.{all_saved, Binds, cmd_nickname-resolves}
use lalia.Nicknames.Failing.{Keeps, cmd_nickname-Keeps}
use lalia.Examples.{bob, proj, tables, office}

abbrev queue_row : ℕ → ℕ → QueueRow
queue_row id attempts = record {
  id = id;
  rel_path = FilePath.task_list_file "proj";
  content = Content.task_list proj;
  attempts = attempts;
}

-- Three pending writes, one of them tried twice
abbrev backlog : Queue
backlog = record (tables []) {
  next_id = 8;
  queue = queue_row 2 0 ∷ queue_row 5 2 ∷ queue_row 7 1 ∷ [];
}

backlog-Ascending : Ascending 0 backlog.queue
backlog-Ascending = (ground arith, (ground arith, (ground arith, tt)))

abbrev working : Disk
working = record { mkdir_ok = true; write_ok = true; add_ok = true; commit_ok = true }

abbrev full : Disk
full = record { mkdir_ok = true; write_ok = false; add_ok = true; commit_ok = true }

flush_pending-retried_example :
    (flush_pending (λ r. full) backlog).queue ≡ retried (λ r. full) backlog.queue
flush_pending-retried_example = flush_pending-retried (λ r. full) backlog backlog-Ascending

boots-empty_example : (boots ((λ r. full) ∷ (λ r. working) ∷ (λ r. full) ∷ []) backlog).queue ≡ []
boots-empty_example = boots-empty (λ r. full) (λ r. working) (λ r. full) backlog backlog-Ascending

office_accounted : AllAccounted (office, [])
office_accounted = (tables [], refl, λ j low high. ground (arith, low, high))

abbrev day : List Event
day =
    Event.request (FilePath.task_list_file "proj") (Content.task_list proj)
    ∷ Event.write full
    ∷ Event.crash
    ∷ Event.start (λ r. working)
    ∷ []

run-AllAccounted_example : AllAccounted (run day (office, []))
run-AllAccounted_example = run-AllAccounted day (office, []) office_accounted

abbrev same_char : Char → Char
same_char c = c

slugify-idempotent_example :
    slugify same_char (slugify same_char "My Repo!") ≡ slugify same_char "My Repo!"
slugify-idempotent_example = slugify-idempotent same_char (λ c h. refl) "My Repo!"

abbrev laptop : AgentInfo
laptop = record {
  harness = "codex-cli";
  model = "";
  project = "";
  repo_url = "git@github.com:team/lalia.git";
  repo_root = "/src/lalia";
  main_repo_root = "";
  worktree_kind = "";
  worktree = "fix login";
  branch = "fix";
  cwd = "";
  role = "worker";
}

suggest_agent_name-IsName_example : IsName (suggest_agent_name same_char laptop "worker")
suggest_agent_name-IsName_example = suggest_agent_name-IsName same_char laptop "worker"

repo-IsRepoName : IsRepoName "lalia"
repo-IsRepoName = (refl, unfold all_chars in refl)

project_id-url_example :
    project_id same_char
      (append (append "git@github.com:team" (String.◌∷◌ "/" "lalia")) ".git")
      "none"
    ≡ slugify same_char "lalia"
project_id-url_example =
    project_id-url same_char "/" "git@github.com:team" "lalia" "none" refl repo-IsRepoName

abbrev arguments : List String
arguments = "--resume" ∷ "--codex" ∷ "--force" ∷ "now" ∷ []

parse_run_args-meaning_example : parse_run_args arguments ≡ meaning (flags arguments) arguments
parse_run_args-meaning_example = parse_run_args-meaning arguments

managed-rewritable_example :
    write_managed_prompt_file true (Existing.present (render_managed_prompt "first")) "second" false
    ≡ Write.written (render_managed_prompt "second")
managed-rewritable_example =
    managed-rewritable Existing.absent "first" "second" (render_managed_prompt "first") false
      (unfold write_managed_prompt_file in refl)

copilot-rewritable_example :
    (result : String) × (write_copilot_prompt_file true
        (Existing.present (render_copilot_section "first"))
        "second"
        false
      ≡ Write.written result)
    × Replaces (render_copilot_section "first") (render_copilot_section "second") result
copilot-rewritable_example =
    copilot-rewritable Existing.absent "first" "second" (render_copilot_section "first") false
      (unfold write_copilot_prompt_file in refl)

-- A worktree beside the main one
abbrev desk : Surroundings
desk = record {
  env = λ name. "";
  cwd = "/src/fix";
  git = λ args. "/src/lalia/.git";
  canonical = λ p. p;
  base = λ p. "fix";
  dir = λ p. "/src/lalia";
  is_abs = λ p. true;
  join = λ p q. q;
}

detect_agent_info-IsConsistent_example : IsConsistent (detect_agent_info desk laptop)
detect_agent_info-IsConsistent_example = detect_agent_info-IsConsistent desk laptop

-- One nickname is on file, and every address is that of the agent 2.
abbrev boss : Nickname
boss = record { follow = true; agent_id = ""; address = "sue" }

cmd_nickname-resolves_example :
    Binds
      (λ a. false)
      office
      false
      "mate"
      "bob"
      "2"
      (("boss", boss) ∷ [])
      (cmd_nickname all_saved
        (λ a. Reply.found "2")
        ("mate" ∷ "bob" ∷ [])
        (Contents.entries (("boss", boss) ∷ [])))
unfolding contains
cmd_nickname-resolves_example =
    cmd_nickname-resolves (λ a. false) (λ a. Reply.found "2") office "mate" "bob" [] [] "mate" "bob"
      "2" bob (("boss", boss) ∷ []) refl (unfold without_follow in refl) refl (unfold get in refl)

cmd_nickname-Keeps_example :
    Keeps Contents.unreadable
      (cmd_nickname all_saved (λ a. Reply.no_reply) ("mate" ∷ "bob" ∷ []) Contents.unreadable)
cmd_nickname-Keeps_example =
    cmd_nickname-Keeps all_saved (λ a. Reply.no_reply) ("mate" ∷ "bob" ∷ []) Contents.unreadable
