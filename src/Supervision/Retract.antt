-- ===== src/Supervision/Retract.antt =====
-- task.go: what opTaskUnpublish needs, and what it takes away.
use lalia.Prelude.{
  ℕ, ◌≡◌, refl, sym, ◌∙◌, ap, String, Bool, true, false, not, ◌&&◌, ◌||◌, none, some, List, [], ◌∷◌,
  if◌then◌else◌, ◌==◌, ltb, keep, arith, eq_iff, Bool-cases, inl, inr,
}
use lalia.Prelude.Dict.{get, get-put}
use lalia.Types.{Task, TaskList, State}
use lalia.Response.{Removal, ok, error_response, Payload}
use lalia.Queue.Frame.{tasks-enqueue_write}
use lalia.TaskRooms.{archive_room}
use lalia.TaskRooms.Frame.{tasks-archive_room}
use lalia.Registry.{agent_by_name}
use lalia.Task.{
  find_task, find_row, Row, row, no_list, no_task, require_supervisor, unless_refused, missing_row,
  set_tasks, persist_task_list, present,
}
use lalia.Supervision.{
  removal, log_length, is_live, drop_row, retract, unpublish_row, op_task_unpublish,
}
use lalia.Task.Rows.{find_row-inv}
use lalia.Task.Claims.{task_at, task_of}

find_task-keep :
    (slug j : String) (ts : List Task)
    → find_task j (keep (λ (t : Task). not (t.slug == slug)) ts)
      ≡ (if slug == j then none else find_task j ts)
unfolding find_task keep
find_task-keep slug j [] = ground arith
find_task-keep slug j (t ∷ ts) =
    ground (arith, find_task-keep slug j ts, eq_iff t.slug slug, eq_iff slug j, eq_iff t.slug j)

task_at-drop_row :
    (now : ℕ) (pid slug q j : String) (tl : TaskList) (s : State)
    → get pid s.tasks ≡ some tl
    → task_at q j (drop_row now pid slug (some tl) s)
      ≡ (if (pid == q) && (slug == j) then none else task_at q j s)
unfolding drop_row set_tasks persist_task_list
task_at-drop_row now pid slug q j tl s h =
    let tl' = record tl {
      tasks = keep (λ (t : Task). not (t.slug == slug)) tl.tasks;
      updated_at = now;
    } in
    elim (Bool-cases (pid == q)) [
      | inl here ↦
          rw (tasks-enqueue_write, get-put pid q tl' s.tasks, here)
            (find_task-keep slug j tl.tasks
              ∙ ap (λ o. if slug == j then none else o) (sym (found here)))
      | inr away ↦ rw (tasks-enqueue_write, get-put pid q tl' s.tasks, away) refl
    ]
  where
    found : (pid == q) ≡ true → task_at q j s ≡ find_task j tl.tasks
    found here =
        ap (λ k. task_of j (get k s.tasks)) (sym ((eq_iff pid q).0 here)) ∙ ap (task_of j) h

-- A retraction, of the list that the room's archiving left as it was.
task_at-retract :
    (now : ℕ) (pid slug q j : String) (has : Bool) (removed : Removal) (tl : TaskList) (s : State)
    → get pid s.tasks ≡ some tl
    → task_at q j (retract now pid slug has removed s).0
      ≡ (if (pid == q) && (slug == j) then none else task_at q j s)
unfolding retract
task_at-retract now pid slug q j has removed tl s h =
    let same = tasks-archive_room slug s in
    rw (ap (get pid) same ∙ h) (
      task_at-drop_row now pid slug q j tl (archive_room slug s).0 (ap (get pid) same ∙ h)
      ∙ ap (λ d. if (pid == q) && (slug == j) then none else task_of j (get q d)) same)

pub require_supervisor-owns :
    (from pid : String) (s : State) (tl : TaskList)
    → require_supervisor from pid s ≡ none
    → get pid s.tasks ≡ some tl
    → (tl.supervisor == from) ≡ true
unfolding require_supervisor
require_supervisor-owns from pid s tl h k = ground arith

module _ (force wipe evict is_clean is_removed : Bool) where
  unpublish_row-ok :
      (now : ℕ) (pid slug : String) (r : Row) (s : State) (p : Payload)
      → (unpublish_row force wipe evict is_clean is_removed now pid slug r s).1 ≡ ok p
      → (tl : TaskList) × (t : Task) × (r ≡ row tl t)
        × ((force || ((t.owner == "") && not (ltb 1 (log_length (get slug s.rooms))))) ≡ true)
        × ((wipe && (not (t.worktree == "") && not is_clean)) ≡ false)
        × ((wipe
              && (not (t.worktree == "")
                  && (not (t.owner == "") && (is_live now (agent_by_name t.owner s) && not evict))))
            ≡ false)
        × (has : Bool) × (removed : Removal) × (unpublish_row force wipe evict is_clean is_removed
              now pid slug r s
            ≡ retract now pid slug has removed s)
  unfolding unpublish_row missing_row error_response
  unpublish_row-ok now pid slug no_list s p h = cc
  unpublish_row-ok now pid slug no_task s p h = cc
  unpublish_row-ok now pid slug (row tl t) s p h = (
    tl,
    t,
    refl,
    ground arith,
    ground arith,
    ground arith,
    present (get slug s.rooms),
    removal wipe (not (t.worktree == "") && not (tl.repo_root == "")) is_removed,
    ground arith,
  )

  op_task_unpublish-row :
      (now : ℕ) (from slug pid : String) (s : State) (p : Payload)
      → (op_task_unpublish force wipe evict is_clean is_removed now from slug pid s).1 ≡ ok p
      → (op_task_unpublish force wipe evict is_clean is_removed now from slug pid s
          ≡ unpublish_row force wipe evict is_clean is_removed now pid slug (find_row pid slug s) s)
        × (require_supervisor from pid s ≡ none)
  unfolding op_task_unpublish unless_refused error_response
  op_task_unpublish-row now from slug pid s p h = ground arith

  -- A retraction that is answered with success was asked for by the supervisor of the list, of a
  -- task that is there; it was forced, or the task had no owner and its room at most one post; and a
  -- worktree that was to be wiped was clean and, unless eviction was asked for, of no owner with a
  -- live lease. Afterwards the task is gone, and every task of another slug or another project is as
  -- it was.
  pub unpublish_removes :
      (now : ℕ) (from slug pid : String) (s : State) (p : Payload)
      → (op_task_unpublish force wipe evict is_clean is_removed now from slug pid s).1 ≡ ok p
      → (tl : TaskList) × (t : Task) × (find_row pid slug s ≡ row tl t)
        × ((tl.supervisor == from) ≡ true)
        × ((force || ((t.owner == "") && not (ltb 1 (log_length (get slug s.rooms))))) ≡ true)
        × ((wipe && (not (t.worktree == "") && not is_clean)) ≡ false)
        × ((wipe
              && (not (t.worktree == "")
                  && (not (t.owner == "") && (is_live now (agent_by_name t.owner s) && not evict))))
            ≡ false)
        × ((q j : String)
            → task_at q j
                (op_task_unpublish force wipe evict is_clean is_removed now from slug pid s).0
              ≡ (if (pid == q) && (slug == j) then none else task_at q j s))
  unpublish_removes now from slug pid s p h =
      let (same, may) = op_task_unpublish-row now from slug pid s p h in
      let (tl, t, found, free, clean, lease, has, removed, done) =
        unpublish_row-ok now pid slug (find_row pid slug s) s p (rw same at h) in
      let (list, task) = find_row-inv pid slug s tl t found in
      (
        tl,
        t,
        found,
        require_supervisor-owns from pid s tl may list,
        free,
        clean,
        lease,
        λ q j. rw (same ∙ done) (task_at-retract now pid slug q j has removed tl s list),
      )
