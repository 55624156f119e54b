-- ===== src/Task/Claims.antt =====
-- task.go: who may change a task, and what each change does to the rows of all lists.
use lalia.Prelude.{
  ℕ, ◌≡◌, refl, sym, ◌∙◌, ap, String, Bool, true, false, ◌&&◌, ◌||◌, Option, none, some,
  if◌then◌else◌, ◌==◌, Bool-cases, inl, inr, arith, eq_iff, ◌⊎◌,
}
use lalia.Prelude.Dict.{get}
use lalia.Types.{Task, TaskList, State}
use lalia.Response.{Response, ok, err, error_response, Payload, task_row}
use lalia.TaskRooms.Frame.{tasks-persist_room_members, tasks-ensure_room_with_members}
use lalia.Registry.{agent_by_name}
use lalia.Task.{
  status_open, worker_status, valid_status, find_task, find_row, Row, row, no_list, no_task,
  store_task, claimed_task, claim_joined, missing_row, claim_row, op_task_claim, flip_row,
  op_task_status, role_is,
}
use lalia.Task.Rows.{
  find_task-slug, find_task-set_task, get-store_task, find_row-inv, find_row-intro,
}

-- The task of a slug in the list of a project.
abbrev pub task_of : String → Option TaskList → Option Task
task_of slug none = none
task_of slug (some tl) = find_task slug tl.tasks

abbrev pub task_at : String → String → State → Option Task
task_at pid slug s = task_of slug (get pid s.tasks)

abbrev pub IsError : Response → Type 0
IsError (ok p) = ⊥
IsError (err c r) = Unit

-- A write through the pointer that findTask returned, of a task of the same slug: that row reads as
-- written, and every other row of every project as before.
pub task_at-store_task :
    (now : ℕ) (pid slug p j : String) (t' : Task) (tl : TaskList) (t : Task) (s : State)
    → t'.slug ≡ slug
    → find_row pid slug s ≡ row tl t
    → task_at p j (store_task now pid slug t' tl s)
      ≡ (if (pid == p) && (slug == j) then some t' else task_at p j s)
task_at-store_task now pid slug p j t' tl t s e h =
    let (list, task) = find_row-inv pid slug s tl t h in
    elim (Bool-cases (pid == p)) [
      | inl here ↦
          rw (get-store_task, here)
            (find_task-set_task slug j t' tl.tasks t e task
              ∙ ap (λ o. if slug == j then some t' else o) (sym (found p list here)))
      | inr away ↦ rw (get-store_task, away) refl
    ]
  where
    found :
        (p : String)
        → get pid s.tasks ≡ some tl
        → (pid == p) ≡ true
        → task_at p j s ≡ find_task j tl.tasks
    found p list here =
        ap (λ k. task_of j (get k s.tasks)) (sym ((eq_iff pid p).0 here)) ∙ ap (task_of j) list

-- A claim of a row that was found open stores the claimed task, and changes no other list.
tasks-claim_row :
    (now : ℕ) (pid slug from : String) (tl : TaskList) (t : Task) (s : State)
    → (t.status == status_open) ≡ true
    → (claim_row now pid slug from (row tl t) s).0.tasks
      ≡ (store_task now pid slug (claimed_task now from t) tl s).tasks
unfolding claim_row claim_joined
tasks-claim_row now pid slug from tl t s h =
    rw h (tasks-persist_room_members _ _ ∙ tasks-ensure_room_with_members now slug _ _ _)

claim_row-ok :
    (now : ℕ) (pid slug from : String) (r : Row) (s : State) (p : Payload)
    → (claim_row now pid slug from r s).1 ≡ ok p
    → (tl : TaskList) × (t : Task) × (r ≡ row tl t) × ((t.status == status_open) ≡ true)
unfolding claim_row missing_row error_response
claim_row-ok now pid slug from no_list s p h = cc
claim_row-ok now pid slug from no_task s p h = cc
claim_row-ok now pid slug from (row tl t) s p h = (tl, t, refl, ground arith)

op_task_claim-row :
    (now : ℕ) (from slug pid : String) (s : State) (p : Payload)
    → (op_task_claim now from slug pid s).1 ≡ ok p
    → (op_task_claim now from slug pid s ≡ claim_row now pid slug from (find_row pid slug s) s)
      × (role_is "supervisor" (agent_by_name from s) ≡ false)
unfolding op_task_claim error_response
op_task_claim-row now from slug pid s p h = ground arith

claim_row-shut :
    (now : ℕ) (pid slug from : String) (r : Row) (tl : TaskList) (t : Task) (s : State)
    → r ≡ row tl t
    → (t.status == status_open) ≡ false
    → ((claim_row now pid slug from r s).0 ≡ s) × IsError (claim_row now pid slug from r s).1
unfolding claim_row error_response
claim_row-shut now pid slug from r tl t s e h = rw (e, h) (refl, tt)

pub claim_takes :
    (now : ℕ) (from slug pid : String) (s : State) (p : Payload)
    → (op_task_claim now from slug pid s).1 ≡ ok p
    → (t : Task) × (task_at pid slug s ≡ some t)
      × ((t.status == status_open) ≡ true)
      × (role_is "supervisor" (agent_by_name from s) ≡ false)
      × ((q j : String)
          → task_at q j (op_task_claim now from slug pid s).0
            ≡ (if (pid == q) && (slug == j) then some (claimed_task now from t) else task_at q j s))
claim_takes now from slug pid s p h =
    let (same, role) = op_task_claim-row now from slug pid s p h in
    let (tl, t, found, open_row) =
      claim_row-ok now pid slug from (find_row pid slug s) s p (rw same at h) in
    let (list, task) = find_row-inv pid slug s tl t found in
    let named = find_task-slug slug tl.tasks t task in
    (
      t,
      ap (task_of slug) list ∙ task,
      open_row,
      role,
      λ q j.
          rw (same, found)
            (ap (λ d. task_of j (get q d)) (tasks-claim_row now pid slug from tl t s open_row)
              ∙ task_at-store_task now pid slug q j (claimed_task now from t) tl t s
                  (unfold claimed_task in named) found),
    )

pub claim_not_open :
    (now : ℕ) (from slug pid : String) (s : State) (tl : TaskList) (t : Task)
    → find_row pid slug s ≡ row tl t
    → (t.status == status_open) ≡ false
    → ((op_task_claim now from slug pid s).0 ≡ s) × IsError (op_task_claim now from slug pid s).1
unfolding op_task_claim error_response
claim_not_open now from slug pid s tl t found h =
    ground (arith, claim_row-shut now pid slug from (find_row pid slug s) tl t s)

pub row_of_task_at :
    (pid slug : String) (s : State) (t : Task)
    → task_at pid slug s ≡ some t
    → (tl : TaskList) × (find_row pid slug s ≡ row tl t)
unfolding find_row
row_of_task_at pid slug s t h = go (get pid s.tasks) refl h
  where
    go :
        (o : Option TaskList)
        → get pid s.tasks ≡ o
        → task_of slug o ≡ some t
        → (tl : TaskList) × (find_row pid slug s ≡ row tl t)
    go none e k = cc
    go (some tl) e k = (tl, find_row-intro pid slug s tl t e k)

-- What the owner of a row may set, and what its supervisor may
abbrev pub owner_may : String → Bool
owner_may st = (st == "in-progress") || (st == "ready") || (st == "blocked")

abbrev pub supervisor_may : String → Bool
supervisor_may st = owner_may st || (st == "merged") || (st == "open") || (st == "assigned")

-- Who may set what
abbrev pub may_set : String → String → TaskList → Task → Bool
may_set from st tl t =
    if tl.supervisor == from then supervisor_may st else (t.owner == from) && owner_may st

worker_status-owner_may : (st : String) → worker_status st ≡ owner_may st
unfolding worker_status
worker_status-owner_may st = refl

valid_status-supervisor_may : (st : String) → valid_status st ≡ supervisor_may st
unfolding valid_status worker_status
valid_status-supervisor_may st = ground arith

flip_row-allowed :
    (now : ℕ) (pid slug from st : String) (tl : TaskList) (t : Task) (s : State)
    → may_set from st tl t ≡ true
    → flip_row now pid slug from st (row tl t) s ≡ (
      store_task now pid slug (record t { status = st; updated_at = now }) tl s,
      ok (task_row (record t { status = st; updated_at = now })),
    )
unfolding flip_row
flip_row-allowed now pid slug from st tl t s h =
    ground (arith, worker_status-owner_may st, valid_status-supervisor_may st)

flip_row-refused :
    (now : ℕ) (pid slug from st : String) (tl : TaskList) (t : Task) (s : State)
    → may_set from st tl t ≡ false
    → ((flip_row now pid slug from st (row tl t) s).0 ≡ s)
      × IsError (flip_row now pid slug from st (row tl t) s).1
unfolding flip_row error_response
flip_row-refused now pid slug from st tl t s h =
    ground (arith, worker_status-owner_may st, valid_status-supervisor_may st)

pub op_task_status-row :
    (now : ℕ) (from slug st pid : String) (s : State)
    → ((from == "") || (slug == "") || (st == "") || (pid == "")) ≡ false
    → op_task_status now from slug st pid s ≡ flip_row now pid slug from st (find_row pid slug s) s
unfolding op_task_status
op_task_status-row now from slug st pid s h = ground arith

-- On a row that exists, and with no argument missing, opTaskStatus sets the status exactly when the
-- rule allows it: the supervisor of the list may set in-progress, ready, blocked, merged, open and
-- assigned, and the owner of the row, if not the supervisor, may set in-progress, ready and blocked.
-- Then that row alone changes, in its status and time; otherwise the answer is an error and nothing
-- changes.
pub status_rule :
    (now : ℕ) (from slug st pid : String) (s : State) (tl : TaskList) (t : Task)
    → ((from == "") || (slug == "") || (st == "") || (pid == "")) ≡ false
    → find_row pid slug s ≡ row tl t
    → let after = op_task_status now from slug st pid s in
      ((may_set from st tl t ≡ true)
        × ((q j : String)
            → task_at q j after.0 ≡ (
                if (pid == q) && (slug == j)
                then some (record t { status = st; updated_at = now })
                else task_at q j s)))
      ⊎ ((may_set from st tl t ≡ false) × (after.0 ≡ s) × IsError after.1)
status_rule now from slug st pid s tl t given found =
    let same = op_task_status-row now from slug st pid s given in
    let named = find_task-slug slug tl.tasks t (find_row-inv pid slug s tl t found).1 in
    elim (Bool-cases (may_set from st tl t)) [
      | inl may ↦ inl (
        may,
        λ q j.
            rw (same, found, flip_row-allowed now pid slug from st tl t s may)
              (task_at-store_task now pid slug q j (record t { status = st; updated_at = now }) tl t
                s named found),
      )
      | inr may_not ↦
          let shut = flip_row-refused now pid slug from st tl t s may_not in
          inr (may_not, rw (same, found) shut.0, rw (same, found) shut.1)
    ]
