-- ===== src/Task/Rows.antt =====
-- task.go: the rows of a task list, and what a write through findTask's pointer changes.
use lalia.Prelude.{
  ◌≡◌, refl, String, some, List, [], ◌∷◌, if◌then◌else◌, ◌==◌, arith, eq_iff, map, ℕ,
}
use lalia.Prelude.Dict.{get, get-put}
use lalia.Types.{Task, TaskList, State}
use lalia.Queue.Frame.{tasks-enqueue_write}
use lalia.Task.{find_task, set_task, find_row, row, store_task, persist_task_list}

pub find_task-slug :
    (slug : String) (ts : List Task) (t : Task) → find_task slug ts ≡ some t → t.slug ≡ slug
unfolding find_task
find_task-slug slug [] t h = ground arith
find_task-slug slug (x ∷ ts) t h = ground (arith, find_task-slug slug ts t, eq_iff x.slug slug)

-- The row that was found reads as what was stored, and every other slug as before.
pub find_task-set_task :
    (slug j : String) (t' : Task) (ts : List Task) (t : Task)
    → t'.slug ≡ slug
    → find_task slug ts ≡ some t
    → find_task j (set_task slug t' ts) ≡ (if slug == j then some t' else find_task j ts)
unfolding find_task set_task
find_task-set_task slug j t' [] t e h = ground arith
find_task-set_task slug j t' (x ∷ ts) t e h = ground (
  arith,
  find_task-set_task slug j t' ts t,
  eq_iff x.slug slug,
  eq_iff slug j,
  eq_iff x.slug j,
  eq_iff t'.slug j,
)

abbrev slugs : List Task → List String
slugs = map (λ (t : Task). t.slug)

pub slugs-set_task :
    (slug : String) (t' : Task) (ts : List Task)
    → t'.slug ≡ slug
    → map (λ (t : Task). t.slug) (set_task slug t' ts) ≡ map (λ (t : Task). t.slug) ts
unfolding set_task
slugs-set_task slug t' [] e = refl
slugs-set_task slug t' (x ∷ ts) e = ground (arith, slugs-set_task slug t' ts, eq_iff x.slug slug)

-- The list that a handler stores for a task, as the state holds it.
abbrev pub stored_list : ℕ → String → Task → TaskList → TaskList
stored_list now slug t tl = record tl { tasks = set_task slug t tl.tasks; updated_at = now }

pub get-store_task :
    (now : ℕ) (pid j slug : String) (t : Task) (tl : TaskList) (s : State)
    → get j (store_task now pid slug t tl s).tasks
      ≡ (if pid == j then some (stored_list now slug t tl) else get j s.tasks)
unfolding store_task persist_task_list
get-store_task now pid j slug t tl s =
    rw tasks-enqueue_write (get-put pid j (stored_list now slug t tl) s.tasks)

-- A row that is found stands in the list of its project.
pub find_row-inv :
    (pid slug : String) (s : State) (tl : TaskList) (t : Task)
    → find_row pid slug s ≡ row tl t
    → (get pid s.tasks ≡ some tl) × (find_task slug tl.tasks ≡ some t)
unfolding find_row
find_row-inv pid slug s tl t h = ground arith

pub find_row-intro :
    (pid slug : String) (s : State) (tl : TaskList) (t : Task)
    → get pid s.tasks ≡ some tl
    → find_task slug tl.tasks ≡ some t
    → find_row pid slug s ≡ row tl t
unfolding find_row
find_row-intro pid slug s tl t h k = ground arith
