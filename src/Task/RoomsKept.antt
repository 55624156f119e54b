-- ===== src/Task/RoomsKept.antt =====
-- task.go: the handlers that change one task keep every room valid.
use lalia.Prelude.{
  ℕ, ◌≡◌, refl, String, not, ◌||◌, ◌&&◌, Option, none, some, remove_name-Distinct, if_both, ◌==◌,
}
use lalia.Types.{Room, Task, TaskList, State}
use lalia.Response.{Response, Reason}
use lalia.Queue.Frame.{rooms-enqueue_write}
use lalia.Rooms.Valid.{RoomsValid, KeepsRooms, rooms_frame}
use lalia.TaskRooms.Valid.{
  Fits, KeepsRoom, members-RoomIsValid, ensure_room_with_members-KeepsRoom, stored_room-RoomsValid,
}
use lalia.Registry.{agent_by_name}
use lalia.Task.{
  persist_task_list, set_tasks, store_task, role_is, present, require_supervisor, unless_refused,
  Row, row, no_list, no_task, find_row, missing_row, unassign_row, op_task_unassign, drop_old_owner,
  rewire, reassign_row, op_task_reassign, flip_row, op_task_status, worker_status, valid_status,
  claimed_task, claim_joined, claim_row, op_task_claim, status_open,
}

pub rooms-persist_task_list : (tl : TaskList) (s : State) → (persist_task_list tl s).rooms ≡ s.rooms
unfolding persist_task_list
rooms-persist_task_list tl s = rooms-enqueue_write _ _ s

pub rooms-set_tasks :
    (pid : String) (tl : TaskList) (s : State) → (set_tasks pid tl s).rooms ≡ s.rooms
unfolding set_tasks
rooms-set_tasks pid tl s = refl

pub rooms-store_task :
    (now : ℕ) (pid slug : String) (t : Task) (tl : TaskList) (s : State)
    → (store_task now pid slug t tl s).rooms ≡ s.rooms
unfolding store_task
rooms-store_task now pid slug t tl s = simp (rooms-persist_task_list, rooms-set_tasks) refl

pub unless_refused-KeepsRooms :
    (o : Option Reason) (done : State × Response) (s : State)
    → RoomsValid s.rooms
    → KeepsRooms done
    → KeepsRooms (unless_refused o done s)
unfolding unless_refused
unless_refused-KeepsRooms (some reason) done s v d = v
unless_refused-KeepsRooms none done s v d = d

pub missing_row-KeepsRooms :
    (r : Row) (s : State) → RoomsValid s.rooms → KeepsRooms (missing_row r s)
unfolding missing_row
missing_row-KeepsRooms no_list s v = v
missing_row-KeepsRooms no_task s v = v
missing_row-KeepsRooms (row tl t) s v = v

module _ (s : State) (v : RoomsValid s.rooms) where
  unassign_row-KeepsRooms :
      (now : ℕ) (pid slug : String) (r : Row) → KeepsRooms (unassign_row now pid slug r s)
  unfolding unassign_row
  unassign_row-KeepsRooms now pid slug (row tl t) = simp rooms-store_task v
  unassign_row-KeepsRooms now pid slug no_list = missing_row-KeepsRooms no_list s v
  unassign_row-KeepsRooms now pid slug no_task = missing_row-KeepsRooms no_task s v

  pub op_task_unassign-KeepsRooms :
      (now : ℕ) (from slug pid : String) → KeepsRooms (op_task_unassign now from slug pid s)
  unfolding op_task_unassign
  op_task_unassign-KeepsRooms now from slug pid = if_both KeepsRooms (from == "") v (
      if_both KeepsRooms (slug == "") v (
        if_both KeepsRooms (pid == "") v (
          unless_refused-KeepsRooms (require_supervisor from pid s) _ s v
            (unassign_row-KeepsRooms now pid slug (find_row pid slug s)))))

  drop_old_owner-Fits :
      (slug old new : String) (r : Room) → Fits slug r → Fits slug (drop_old_owner old new r)
  unfolding drop_old_owner
  drop_old_owner-Fits slug old new r (w, n) =
      if_both (Fits slug) (not (old == "") && not (old == new))
        (members-RoomIsValid _ r (remove_name-Distinct old r.members w.distinct) w, n) (w, n)

  rewire-RoomsValid :
      (slug new : String) (t : Task) (o : State × Room)
      → KeepsRoom slug o
      → RoomsValid (rewire slug t new o).rooms
  unfolding rewire
  rewire-RoomsValid slug new t (s', r) (kept, f) =
      stored_room-RoomsValid slug (drop_old_owner t.owner new r) s' kept
        (drop_old_owner-Fits slug t.owner new r f)

  reassign_row-KeepsRooms :
      (now : ℕ) (pid slug new : String) (r : Row) → KeepsRooms (reassign_row now pid slug new r s)
  unfolding reassign_row
  reassign_row-KeepsRooms now pid slug new (row tl t) =
      rewire-RoomsValid slug new t _
        (ensure_room_with_members-KeepsRoom now slug tl.supervisor _ _ (simp rooms-store_task v))
  reassign_row-KeepsRooms now pid slug new no_list = missing_row-KeepsRooms no_list s v
  reassign_row-KeepsRooms now pid slug new no_task = missing_row-KeepsRooms no_task s v

  pub op_task_reassign-KeepsRooms :
      (now : ℕ) (from slug new pid : String) → KeepsRooms (op_task_reassign now from slug new pid s)
  unfolding op_task_reassign
  op_task_reassign-KeepsRooms now from slug new pid = if_both KeepsRooms (from == "") v (
      if_both KeepsRooms ((slug == "") || (new == "")) v (
        if_both KeepsRooms (pid == "") v (
          unless_refused-KeepsRooms (require_supervisor from pid s) _ s v (
            if_both KeepsRooms (not (present (agent_by_name new s))) v
              (reassign_row-KeepsRooms now pid slug new (find_row pid slug s))))))

  flip_row-KeepsRooms :
      (now : ℕ) (pid slug from st : String) (r : Row)
      → KeepsRooms (flip_row now pid slug from st r s)
  unfolding flip_row
  flip_row-KeepsRooms now pid slug from st (row tl t) =
      if_both KeepsRooms (not (tl.supervisor == from) && not (t.owner == from)) v (
        if_both KeepsRooms (not (tl.supervisor == from) && not (worker_status st)) v
          (if_both KeepsRooms (not (valid_status st)) v (simp rooms-store_task v)))
  flip_row-KeepsRooms now pid slug from st no_list = missing_row-KeepsRooms no_list s v
  flip_row-KeepsRooms now pid slug from st no_task = missing_row-KeepsRooms no_task s v

  pub op_task_status-KeepsRooms :
      (now : ℕ) (from slug st pid : String) → KeepsRooms (op_task_status now from slug st pid s)
  unfolding op_task_status
  op_task_status-KeepsRooms now from slug st pid = if_both KeepsRooms (from == "") v (
      if_both KeepsRooms ((slug == "") || (st == "")) v (
        if_both KeepsRooms (pid == "") v
          (flip_row-KeepsRooms now pid slug from st (find_row pid slug s))))

  claim_joined-KeepsRooms :
      (slug : String) (t : Task) (o : State × Room)
      → KeepsRoom slug o
      → KeepsRooms (claim_joined t o)
  unfolding claim_joined
  claim_joined-KeepsRooms slug t (s', r) (kept, f) = simp rooms_frame kept

  claim_row-KeepsRooms :
      (now : ℕ) (pid slug from : String) (r : Row) → KeepsRooms (claim_row now pid slug from r s)
  unfolding claim_row
  claim_row-KeepsRooms now pid slug from (row tl t) =
      if_both KeepsRooms (not (t.status == status_open)) v (
        claim_joined-KeepsRooms slug (claimed_task now from t) _
          (ensure_room_with_members-KeepsRoom now slug tl.supervisor _ _ (simp rooms-store_task v)))
  claim_row-KeepsRooms now pid slug from no_list = missing_row-KeepsRooms no_list s v
  claim_row-KeepsRooms now pid slug from no_task = missing_row-KeepsRooms no_task s v

  pub op_task_claim-KeepsRooms :
      (now : ℕ) (from slug pid : String) → KeepsRooms (op_task_claim now from slug pid s)
  unfolding op_task_claim
  op_task_claim-KeepsRooms now from slug pid = if_both KeepsRooms (from == "") v (
      if_both KeepsRooms (slug == "") v (
        if_both KeepsRooms (pid == "") v (
          if_both KeepsRooms (role_is "supervisor" (agent_by_name from s)) v
            (claim_row-KeepsRooms now pid slug from (find_row pid slug s)))))
