-- ===== src/Examples/Tasks.antt =====
-- The theorems on tasks, at the one task of the example project.
use lalia.Prelude.{
  List, [], ◌∷◌, ◌≡◌, refl, String, true, false, ◌&&◌, ◌||◌, not, ◌⊎◌, none, some, if◌then◌else◌,
  ◌==◌, contains, ltb,
}
use lalia.Prelude.Dict.{get}
use lalia.Types.{Task, TaskList, Room}
use lalia.Response.{ok, task_claimed, handed_off, unpublished, preserved_default}
use lalia.TaskRooms.{ensure_room_with_members}
use lalia.Queue.{enqueue_write}
use lalia.Registry.{agent_by_name}
use lalia.Task.{
  status_open, op_task_claim, op_task_status, find_row, row, store_task, role_is, claim_row,
  find_task, persist_task_list, unless_refused, require_supervisor,
}
use lalia.Supervision.{
  op_task_unpublish, op_task_handoff, log_length, is_live, hand_list, unpublish_row,
}
use lalia.Task.Claims.{task_at, IsError, may_set, status_rule}
use lalia.Task.Once.{Step, claim, flip, run, claim_once}
use lalia.Supervision.Retract.{unpublish_removes}
use lalia.Supervision.Handoff.{handed, is_unmerged, handoff_transfers, handoff_rooms}
use lalia.Examples.{fix, proj, fix_room, office}

-- The task after Bob's claim at time 9.
abbrev taken : Task
taken = record fix { owner = "bob"; status = "in-progress"; updated_at = 9 }

claim_succeeds : (op_task_claim 9 "bob" "fix" "proj" office).1 ≡ ok (task_claimed taken none)
unfolding op_task_claim agent_by_name get claim_row find_row find_task ensure_room_with_members
    store_task persist_task_list enqueue_write
claim_succeeds = refl

handoff_succeeds : (op_task_handoff 9 "sue" "sue" "proj" office).1 ≡ ok (handed_off "proj" "sue")
unfolding op_task_handoff unless_refused require_supervisor agent_by_name get hand_list
handoff_succeeds = refl

unpublish_succeeds :
    (op_task_unpublish false false false false false 9 "sue" "fix" "proj" office).1
    ≡ ok (unpublished "fix" true preserved_default)
unfolding op_task_unpublish unless_refused require_supervisor agent_by_name get unpublish_row
    find_row find_task
unpublish_succeeds = refl

fix_row : find_row "proj" "fix" office ≡ row proj fix
unfolding find_row get find_task
fix_row = refl

proj_list : get "proj" office.tasks ≡ some proj
unfolding get
proj_list = refl

fix_found : get "fix" office.rooms ≡ some fix_room
unfolding get
fix_found = refl

-- Eve tries, and Bob reports that the task is ready.
abbrev busy : List Step
busy = claim 10 "eve" "fix" "proj" ∷ flip 11 "bob" "fix" "ready" "proj" ∷ []

claim_once_example :
    let s = run busy (op_task_claim 9 "bob" "fix" "proj" office).0 in
    ((t : Task) × (task_at "proj" "fix" s ≡ some t)
      × (t.owner ≡ "bob")
      × ((t.status == status_open) ≡ false))
    × ((op_task_claim 12 "eve" "fix" "proj" s).0 ≡ s)
    × IsError (op_task_claim 12 "eve" "fix" "proj" s).1
claim_once_example =
    claim_once 9 12 "bob" "eve" "fix" "proj" office (task_claimed taken none) busy claim_succeeds
      refl

status_rule_example :
    let after = op_task_status 9 "sue" "fix" "merged" "proj" office in
    ((may_set "sue" "merged" proj fix ≡ true)
      × ((q j : String)
          → task_at q j after.0 ≡ (
              if ("proj" == q) && ("fix" == j)
              then some (record fix { status = "merged"; updated_at = 9 })
              else task_at q j office)))
    ⊎ ((may_set "sue" "merged" proj fix ≡ false) × (after.0 ≡ office) × IsError after.1)
status_rule_example = status_rule 9 "sue" "fix" "merged" "proj" office proj fix refl fix_row

unpublish_removes_example :
    (tl : TaskList) × (t : Task) × (find_row "proj" "fix" office ≡ row tl t)
    × ((tl.supervisor == "sue") ≡ true)
    × ((false || ((t.owner == "") && not (ltb 1 (log_length (get "fix" office.rooms))))) ≡ true)
    × ((false && (not (t.worktree == "") && not false)) ≡ false)
    × ((false
          && (not (t.worktree == "")
              && (not (t.owner == "") && (is_live 9 (agent_by_name t.owner office) && not false))))
        ≡ false)
    × ((q j : String)
        → task_at q j
            (op_task_unpublish false false false false false 9 "sue" "fix" "proj" office).0
          ≡ (if ("proj" == q) && ("fix" == j) then none else task_at q j office))
unpublish_removes_example =
    unpublish_removes false false false false false 9 "sue" "fix" "proj" office
      (unpublished "fix" true preserved_default) unpublish_succeeds

handoff_transfers_example :
    (tl : TaskList) × (get "proj" office.tasks ≡ some tl)
    × ((tl.supervisor == "sue") ≡ true)
    × (role_is "supervisor" (agent_by_name "sue" office) ≡ true)
    × ((q : String)
        → get q (op_task_handoff 9 "sue" "sue" "proj" office).0.tasks ≡ (
            if "proj" == q
            then some (record tl { supervisor = "sue"; updated_at = 9 })
            else get q office.tasks))
handoff_transfers_example =
    handoff_transfers 9 "sue" "sue" "proj" office (handed_off "proj" "sue") handoff_succeeds

-- A handoff of Sue to herself takes her out of her own room.
handoff_rooms_example :
    (u : Room) × (get "fix" (op_task_handoff 9 "sue" "sue" "proj" office).0.rooms ≡ some u)
    × ((j : String)
        → contains j u.members ≡ (
            if is_unmerged "fix" proj.tasks
            then handed "sue" "sue" fix_room j
            else contains j fix_room.members))
handoff_rooms_example =
    handoff_rooms 9 "sue" "sue" "proj" "fix" office (handed_off "proj" "sue") proj fix_room
      handoff_succeeds proj_list fix_found
