-- ===== src/Session/RoomsKept.antt =====
-- state.go: the handlers on sessions keep every room valid.
use lalia.Prelude.{
  ℕ, ◌≡◌, refl, ◌∙◌, String, not, ◌||◌, ◌&&◌, Option, none, some, List, [], ◌∷◌, if◌then◌else◌,
  if_both, eqb, ◌==◌, contains,
}
use lalia.Prelude.Dict.{Dict, get}
use lalia.Types.{Agent, Channel, Room, State}
use lalia.Queue.Frame.{rooms-enqueue_write}
use lalia.Room.{send, remove_member, remove_members}
use lalia.Room.Invariant.{remove_members-RoomIsValid}
use lalia.Rooms.Valid.{RoomsValid, KeepsRooms}
use lalia.Channel.{release_to, release_waiter}
use lalia.Registry.{
  agent_by_name, index_agent, unindex, unindex_agent, persist_agent, renew_found, renew_lease,
}
use lalia.Session.{
  AgentInfo, pid_taken, session_clash, register_as, register_with, op_register, release_all,
  evict_all, release_channels, evict_rooms, is_busy, unregister_found, op_unregister, renew_op,
  op_renew, expired_agents, unindex_all, release_names, names_of, sweep_expired, sweep,
}

name-remove_members : (names : List String) (r : Room) → (remove_members names r).0.name ≡ r.name
unfolding remove_members remove_member
name-remove_members [] r = refl
name-remove_members (n ∷ ns) r =
    name-remove_members ns (if contains n r.members then remove_member n r else r)
    ∙ if_both (λ (x : Room). x.name ≡ r.name) (contains n r.members) refl refl

evict_all-RoomsValid :
    (names : List String) (d : Dict Room) (s : State)
    → RoomsValid d
    → RoomsValid (evict_all names d s).0
unfolding evict_all
evict_all-RoomsValid names [] s v = tt
evict_all-RoomsValid names ((k, r) ∷ d) s ((w, n), rest) = (
  (remove_members-RoomIsValid names r w, name-remove_members names r ∙ n),
  evict_all-RoomsValid names d _ rest,
)

rooms-release_to :
    (o : Option ℕ) (name : String) (c : Channel) (s : State)
    → (release_to o name c s).1.rooms ≡ s.rooms
unfolding release_to send
rooms-release_to none name c s = refl
rooms-release_to (some ch) name c s = refl

rooms-release_all :
    (name : String) (cs : Dict Channel) (s : State) → (release_all name cs s).1.rooms ≡ s.rooms
unfolding release_all release_waiter
rooms-release_all name [] s = refl
rooms-release_all name ((k, c) ∷ cs) s =
    rooms-release_all name cs _
    ∙ if_both (λ (o : Channel × State). o.1.rooms ≡ s.rooms)
        ((c.peer_a == name) || (c.peer_b == name)) (rooms-release_to (get name c.waiter) name c s)
        refl

rooms-release_channels : (name : String) (s : State) → (release_channels name s).rooms ≡ s.rooms
unfolding release_channels
rooms-release_channels name s = rooms-release_all name s.channels s

rooms-unindex_agent : (id : String) (s : State) → (unindex_agent id s).rooms ≡ s.rooms
unfolding unindex_agent
rooms-unindex_agent id s = go (get id s.agents)
  where
    go : (o : Option Agent) → (unindex id o s).rooms ≡ s.rooms
    go none = unfold unindex in refl
    go (some a) = unfold unindex in refl

pub rooms-persist_agent : (a : Agent) (s : State) → (persist_agent a s).rooms ≡ s.rooms
unfolding persist_agent
rooms-persist_agent a s = rooms-enqueue_write _ _ s

pub rooms-renew_found :
    (now : ℕ) (o : Option Agent) (s : State) → (renew_found now o s).rooms ≡ s.rooms
unfolding renew_found
rooms-renew_found now none s = refl
rooms-renew_found now (some a) s = rooms-persist_agent _ _

pub renew_lease-RoomsValid :
    (now : ℕ) (name : String) (s : State)
    → RoomsValid s.rooms
    → RoomsValid (renew_lease now name s).rooms
unfolding renew_lease
renew_lease-RoomsValid now name s v =
    if_both (λ (x : State). RoomsValid x.rooms) (name == "") v (simp rooms-renew_found v)

module _ (s : State) (v : RoomsValid s.rooms) where
  unregister_found-KeepsRooms :
      (from : String) (o : Option Agent) → KeepsRooms (unregister_found from o s)
  unfolding unregister_found evict_rooms
  unregister_found-KeepsRooms from none = v
  unregister_found-KeepsRooms from (some a) =
      if_both KeepsRooms (is_busy from s.tasks) v (
        evict_all-RoomsValid (from ∷ []) _ _ (simp (rooms-release_channels, rooms-unindex_agent) v))

  pub op_unregister-KeepsRooms : (from : String) → KeepsRooms (op_unregister from s)
  unfolding op_unregister
  op_unregister-KeepsRooms from =
      if_both KeepsRooms (from == "") v (unregister_found-KeepsRooms from (agent_by_name from s))

  renew_op-KeepsRooms : (now : ℕ) (o : Option Agent) → KeepsRooms (renew_op now o s)
  unfolding renew_op
  renew_op-KeepsRooms now none = v
  renew_op-KeepsRooms now (some a) = simp rooms-persist_agent v

  pub op_renew-KeepsRooms : (now : ℕ) (from : String) → KeepsRooms (op_renew now from s)
  unfolding op_renew
  op_renew-KeepsRooms now from =
      if_both KeepsRooms (from == "") v (renew_op-KeepsRooms now (agent_by_name from s))

  register_with-KeepsRooms :
      (now : ℕ) (fresh_id name : String) (pid : ℕ) (info : AgentInfo) (key : Option String)
      → KeepsRooms (register_with now fresh_id name pid info key s)
  unfolding register_with register_as index_agent
  register_with-KeepsRooms now fresh_id name pid info none = v
  register_with-KeepsRooms now fresh_id name pid info (some pub_hex) =
      if_both KeepsRooms (not (eqb pid 0) && pid_taken now pid name s.agents) v (
        if_both KeepsRooms (session_clash now info (agent_by_name name s)) v
          (simp rooms-persist_agent v))

  pub op_register-KeepsRooms :
      (now : ℕ) (fresh_id : String) (key : Option String) (name : String) (pid : ℕ)
      (info : AgentInfo)
      → KeepsRooms (op_register now fresh_id key name pid info s)
  unfolding op_register
  op_register-KeepsRooms now fresh_id key name pid info =
      if_both KeepsRooms (name == "") v (register_with-KeepsRooms now fresh_id name pid info key)

rooms-unindex_all : (ids : List String) (s : State) → (unindex_all ids s).rooms ≡ s.rooms
unfolding unindex_all
rooms-unindex_all [] s = refl
rooms-unindex_all (id ∷ ids) s =
    rooms-unindex_all ids (unindex_agent id s) ∙ rooms-unindex_agent id s

rooms-release_names : (names : List String) (s : State) → (release_names names s).rooms ≡ s.rooms
unfolding release_names
rooms-release_names [] s = refl
rooms-release_names (n ∷ ns) s =
    rooms-release_names ns (release_channels n s) ∙ rooms-release_channels n s

sweep_expired-RoomsValid :
    (expired : List (String × String)) (s : State)
    → RoomsValid s.rooms
    → RoomsValid (sweep_expired expired s).rooms
unfolding sweep_expired evict_rooms
sweep_expired-RoomsValid [] s v = v
sweep_expired-RoomsValid (e ∷ more) s v =
    evict_all-RoomsValid (names_of (e ∷ more)) _ _ (simp (rooms-release_names, rooms-unindex_all) v)

pub sweep-RoomsValid : (now : ℕ) (s : State) → RoomsValid s.rooms → RoomsValid (sweep now s).rooms
unfolding sweep
sweep-RoomsValid now s v = sweep_expired-RoomsValid (expired_agents now s.agents) s v
