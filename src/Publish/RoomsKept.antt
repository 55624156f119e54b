-- ===== src/Publish/RoomsKept.antt =====
-- task.go: opTaskPublish keeps every room valid.
use lalia.Prelude.{
  ℕ, ◌≡◌, refl, String, Bool, not, ◌&&◌, Option, none, some, List, [], ◌∷◌, if_both, ltb, ◌==◌,
  Option-cases, inl, inr,
}
use lalia.Prelude.Dict.{get}
use lalia.Types.{Room, State}
use lalia.Room.{persist_room_definition, persist_room_members}
use lalia.Rooms.Valid.{RoomsValid, KeepsRooms, rooms_frame}
use lalia.TaskRooms.{ensure_room_with_members, unarchive_room}
use lalia.TaskRooms.Valid.{
  ensure_room_with_members-KeepsRoom, unarchive_room-KeepsRooms, internal_post-RoomsValid,
}
use lalia.Task.RoomsKept.{rooms-persist_task_list, rooms-set_tasks}
use lalia.Worktree.{Git, ensure_worktree}
use lalia.Publish.{
  WsInput, Parsed, bad, good, parse_all, compose_bundle, check_publisher, publish_row, post_bundle,
  publish_room, publish_created, publish_one, note_result, publish_all, publish_checked,
  publish_rooted, or_empty, has_any, op_task_publish,
}

publish_row-KeepsRooms :
    (now : ℕ) (from pid root target : String) (w : WsInput) (s : State)
    → RoomsValid s.rooms
    → KeepsRooms (publish_row now from pid root target w s)
unfolding publish_row
publish_row-KeepsRooms now from pid root target w s v =
    simp (rooms-persist_task_list, rooms-set_tasks) v

post_bundle-KeepsRooms :
    (now : ℕ) (from : String) (repeated : Bool) (w : WsInput) (o : Option Room) (s : State)
    → RoomsValid s.rooms
    → get w.slug s.rooms ≡ o
    → KeepsRooms (post_bundle now from repeated w o s)
unfolding post_bundle
post_bundle-KeepsRooms now from repeated w none s v e = v
post_bundle-KeepsRooms now from repeated w (some r) s v e =
    let s' : State = persist_room_members r (persist_room_definition r s) in
    let v' : RoomsValid s'.rooms = simp rooms_frame v in
    if_both KeepsRooms (repeated && ltb 0 r.seq) v' (
      internal_post-RoomsValid now w.slug from (compose_bundle w.brief w.owned_paths w.contracts) r
        s' v' (simp rooms_frame e))

publish_room-KeepsRooms :
    (now : ℕ) (from : String) (w : WsInput) (created : Bool) (o : State × Bool)
    → KeepsRooms o
    → KeepsRooms (publish_room now from w created o)
unfolding publish_room
publish_room-KeepsRooms now from w created (s, was_open) v =
    let s1 : State = (ensure_room_with_members now w.slug from (from ∷ []) s).0 in
    let s2 : State = (unarchive_room w.slug s1).0 in
    post_bundle-KeepsRooms now from (not created && was_open) w (get w.slug s2.rooms) s2
      (unarchive_room-KeepsRooms w.slug s1
        (ensure_room_with_members-KeepsRoom now w.slug from (from ∷ []) s v).0)
      refl

publish_created-KeepsRooms :
    (now : ℕ) (from pid root target : String) (w : WsInput) (o : Option Bool) (s : State)
    → RoomsValid s.rooms
    → KeepsRooms (publish_created now from pid root target w o s)
unfolding publish_created
publish_created-KeepsRooms now from pid root target w none s v = v
publish_created-KeepsRooms now from pid root target w (some created) s v =
    publish_room-KeepsRooms now from w created _
      (publish_row-KeepsRooms now from pid root target w s v)

module _ (git : String → Git) (target : String → String) where
  note_result-KeepsRooms :
      (slug : String) (o : Option Bool) (r : State × List (String × Bool) × List String)
      → RoomsValid r.0.rooms
      → RoomsValid (note_result git target slug o r).0.rooms
  unfolding note_result
  note_result-KeepsRooms slug none r v = v
  note_result-KeepsRooms slug (some noop) r v = v

  publish_all-RoomsValid :
      (now : ℕ) (from pid root : String) (ws : List WsInput) (s : State)
      → RoomsValid s.rooms
      → RoomsValid (publish_all git target now from pid root ws s).0.rooms
  unfolding publish_all publish_one
  publish_all-RoomsValid now from pid root [] s v = v
  publish_all-RoomsValid now from pid root (w ∷ ws) s v = note_result-KeepsRooms w.slug _ _ (
      publish_all-RoomsValid now from pid root ws _ (
        publish_created-KeepsRooms now from pid root (target w.slug) w
          (ensure_worktree (git w.slug) (target w.slug) w.branch) s v))

  publish_checked-KeepsRooms :
      (abs : String → String) (now : ℕ) (from pid root : String) (p : Parsed) (s : State)
      → RoomsValid s.rooms
      → KeepsRooms (publish_checked git target abs now from pid root p s)
  unfolding publish_checked
  publish_checked-KeepsRooms abs now from pid root (bad reason) s v = v
  publish_checked-KeepsRooms abs now from pid root (good ws) s v =
      elim (Option-cases (check_publisher abs from pid root s)) [
        | inl passed ↦
            rw (passed, publish_checked) (publish_all-RoomsValid now from pid root ws s v)
        | inr (refusal, refused) ↦ rw (refused, publish_checked) v
      ]

  publish_rooted-KeepsRooms :
      (abs : String → Option String) (root_is_dir : Bool) (now : ℕ) (from pid : String)
      (raw : List (Option WsInput)) (root : Option String) (s : State)
      → RoomsValid s.rooms
      → KeepsRooms (publish_rooted git target abs root_is_dir now from pid raw root s)
  unfolding publish_rooted
  publish_rooted-KeepsRooms abs root_is_dir now from pid raw none s v = v
  publish_rooted-KeepsRooms abs root_is_dir now from pid raw (some root) s v =
      if_both KeepsRooms (not root_is_dir) v (
        publish_checked-KeepsRooms (λ p. or_empty (abs p)) now from pid root (parse_all [] raw) s v)

  pub op_task_publish-KeepsRooms :
      (abs : String → Option String) (root_is_dir : Bool) (now : ℕ) (from pid repo_root : String)
      (raw : List (Option WsInput)) (s : State)
      → RoomsValid s.rooms
      → KeepsRooms (op_task_publish git target abs root_is_dir now from pid repo_root raw s)
  unfolding op_task_publish
  op_task_publish-KeepsRooms abs root_is_dir now from pid repo_root raw s v =
      if_both KeepsRooms (from == "") v (
        if_both KeepsRooms (pid == "") v (
          if_both KeepsRooms (repo_root == "") v (
            if_both KeepsRooms (not (has_any raw)) v
              (publish_rooted-KeepsRooms abs root_is_dir now from pid raw (abs repo_root) s v))))
