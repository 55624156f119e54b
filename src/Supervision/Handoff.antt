-- ===== src/Supervision/Handoff.antt =====
-- task.go: what opTaskHandoff does to the lists and to the rooms.
use lalia.Prelude.{
  ℕ, ◌≡◌, refl, sym, ◌∙◌, ap, String, Bool, true, false, not, ◌&&◌, ◌||◌, Option, none, some, List,
  [], ◌∷◌, if◌then◌else◌, ◌==◌, contains, add_name, contains-add_name, contains-remove_name, arith,
  eq_iff,
}
use lalia.Prelude.Dict.{get, get-put}
use lalia.Types.{Room, Task, TaskList, State}
use lalia.Response.{ok, error_response, Payload}
use lalia.Queue.Frame.{tasks-enqueue_write, rooms-enqueue_write}
use lalia.TaskRooms.Frame.{tasks-persist_room_members, tasks-set_room}
use lalia.Room.{persist_room_members}
use lalia.Rooms.{set_room}
use lalia.Registry.{agent_by_name}
use lalia.Task.{role_is, require_supervisor, unless_refused, set_tasks, persist_task_list}
use lalia.Supervision.{active_slugs, hand_room, hand_found, hand_rooms, hand_list, op_task_handoff}
use lalia.Supervision.Retract.{require_supervisor-owns}

-- Some task of the list has this slug and is not merged.
abbrev pub is_unmerged : String → List Task → Bool
is_unmerged name [] = false
is_unmerged name (t ∷ ts) = ((t.slug == name) && not (t.status == "merged")) || is_unmerged name ts

contains-active_slugs :
    (name : String) (ts : List Task) → contains name (active_slugs ts) ≡ is_unmerged name ts
unfolding active_slugs contains
contains-active_slugs name [] = refl
contains-active_slugs name (t ∷ ts) = ground (arith, contains-active_slugs name ts)

-- Who is a member after the handoff of a room.
abbrev pub handed : String → String → Room → String → Bool
handed from to r j = if from == j then false else (to == j) || contains j r.members

contains-hand_room :
    (from to j : String) (r : Room) → contains j (hand_room from to r).members ≡ handed from to r j
unfolding hand_room
contains-hand_room from to j r =
    ground
      (arith, contains-remove_name from j (add_name to r.members), contains-add_name to j r.members)

rooms-persist_room_members : (r : Room) (s : State) → (persist_room_members r s).rooms ≡ s.rooms
unfolding persist_room_members
rooms-persist_room_members r s = rooms-enqueue_write _ _ s

get-hand_found :
    (from to slug name : String) (r : Room) (o : Option Room) (s : State)
    → get slug s.rooms ≡ o
    → get name s.rooms ≡ some r
    → get name (hand_found from to slug o s).rooms
      ≡ some (if slug == name then hand_room from to r else r)
unfolding hand_found set_room
get-hand_found from to slug name r none s h k = ground (arith, eq_iff slug name)
get-hand_found from to slug name r (some t) s h k =
    rw rooms-persist_room_members
      (ground (arith, eq_iff slug name, get-put slug name (hand_room from to t) s.rooms))

tasks-hand_found :
    (from to slug : String) (o : Option Room) (s : State)
    → (hand_found from to slug o s).tasks ≡ s.tasks
unfolding hand_found
tasks-hand_found from to slug none s = refl
tasks-hand_found from to slug (some r) s = tasks-persist_room_members _ _ ∙ tasks-set_room slug _ s

tasks-hand_rooms :
    (from to : String) (slugs : List String) (s : State)
    → (hand_rooms from to slugs s).tasks ≡ s.tasks
unfolding hand_rooms
tasks-hand_rooms from to [] s = refl
tasks-hand_rooms from to (x ∷ xs) s = tasks-hand_rooms from to xs _ ∙ tasks-hand_found from to x _ s

hand_rooms-members :
    (from to name : String) (slugs : List String) (r : Room) (s : State)
    → get name s.rooms ≡ some r
    → (u : Room) × (get name (hand_rooms from to slugs s).rooms ≡ some u)
      × ((j : String)
          → contains j u.members
            ≡ (if contains name slugs then handed from to r j else contains j r.members))
unfolding hand_rooms contains
hand_rooms-members from to name [] r s h = (r, h, λ j. refl)
hand_rooms-members from to name (x ∷ xs) r s h =
    let r' = if x == name then hand_room from to r else r in
    let (u, at, members) =
      hand_rooms-members from to name xs r' (hand_found from to x (get x s.rooms) s)
        (get-hand_found from to x name r (get x s.rooms) s refl h) in
    (u, at, λ j. ground (arith, members j, contains-hand_room from to j r))

op_task_handoff-row :
    (now : ℕ) (from to pid : String) (s : State) (p : Payload)
    → (op_task_handoff now from to pid s).1 ≡ ok p
    → (op_task_handoff now from to pid s ≡ hand_list now from to pid (get pid s.tasks) s)
      × (require_supervisor from pid s ≡ none)
      × (role_is "supervisor" (agent_by_name to s) ≡ true)
unfolding op_task_handoff unless_refused error_response
op_task_handoff-row now from to pid s p h = ground arith

hand_list-ok :
    (now : ℕ) (from to pid : String) (o : Option TaskList) (s : State) (p : Payload)
    → (hand_list now from to pid o s).1 ≡ ok p
    → (tl : TaskList) × (o ≡ some tl)
unfolding hand_list error_response
hand_list-ok now from to pid none s p h = cc
hand_list-ok now from to pid (some tl) s p h = (tl, refl)

module _ (now : ℕ) (from to pid : String) (tl : TaskList) (s : State) where
  tasks-hand_list :
      (q : String)
      → get q (hand_list now from to pid (some tl) s).0.tasks ≡ (
          if pid == q
          then some (record tl { supervisor = to; updated_at = now })
          else get q s.tasks)
  unfolding hand_list set_tasks persist_task_list
  tasks-hand_list q =
      rw (tasks-hand_rooms, tasks-enqueue_write)
        (get-put pid q (record tl { supervisor = to; updated_at = now }) s.tasks)

  rooms-hand_list :
      (name : String) (r : Room)
      → get name s.rooms ≡ some r
      → (u : Room) × (get name (hand_list now from to pid (some tl) s).0.rooms ≡ some u)
        × ((j : String)
            → contains j u.members ≡ (
                if contains name (active_slugs tl.tasks)
                then handed from to r j
                else contains j r.members))
  unfolding hand_list set_tasks persist_task_list
  rooms-hand_list name r h =
      hand_rooms-members from to name (active_slugs tl.tasks) r _
        (ap (get name) (rooms-enqueue_write _ _ _) ∙ h)

-- A handoff that is answered with success was asked for by the supervisor of the project's list, and
-- `to` is a registered supervisor. Afterwards the list has `to` as its supervisor and is otherwise
-- as it was but for its time, and the lists of other projects are untouched.
pub handoff_transfers :
    (now : ℕ) (from to pid : String) (s : State) (p : Payload)
    → (op_task_handoff now from to pid s).1 ≡ ok p
    → (tl : TaskList) × (get pid s.tasks ≡ some tl)
      × ((tl.supervisor == from) ≡ true)
      × (role_is "supervisor" (agent_by_name to s) ≡ true)
      × ((q : String)
          → get q (op_task_handoff now from to pid s).0.tasks ≡ (
              if pid == q
              then some (record tl { supervisor = to; updated_at = now })
              else get q s.tasks))
handoff_transfers now from to pid s p h =
    let (same, may, role) = op_task_handoff-row now from to pid s p h in
    let (tl, list) = hand_list-ok now from to pid (get pid s.tasks) s p (rw same at h) in
    let done = same ∙ ap (λ o. hand_list now from to pid o s) list in
    (
      tl,
      list,
      require_supervisor-owns from pid s tl may list,
      role,
      λ q. rw done (tasks-hand_list now from to pid tl s q),
    )

-- After a handoff that is answered with success, in a room whose name is the slug of some task of
-- the list with a status other than merged `to` is a member in place of `from` (and no member when
-- `to` is `from`), the other members being as they were; the members of all other rooms are as they
-- were.
pub handoff_rooms :
    (now : ℕ) (from to pid name : String) (s : State) (p : Payload) (tl : TaskList) (r : Room)
    → (op_task_handoff now from to pid s).1 ≡ ok p
    → get pid s.tasks ≡ some tl
    → get name s.rooms ≡ some r
    → (u : Room) × (get name (op_task_handoff now from to pid s).0.rooms ≡ some u)
      × ((j : String)
          → contains j u.members
            ≡ (if is_unmerged name tl.tasks then handed from to r j else contains j r.members))
handoff_rooms now from to pid name s p tl r h list found =
    let (same, _, _) = op_task_handoff-row now from to pid s p h in
    let done = same ∙ ap (λ o. hand_list now from to pid o s) list in
    let (u, at, members) = rooms-hand_list now from to pid tl s name r found in
    (u, rw done at, λ j. rw (sym (contains-active_slugs name tl.tasks)) (members j))
