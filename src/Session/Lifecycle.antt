-- ===== src/Session/Lifecycle.antt =====
-- state.go: the handlers that add, renew and remove agents, and the sweep, over a whole run.
use lalia.Prelude.{ℕ, ◌≡◌, refl, String, Option, none, some, List, [], ◌∷◌, if_both, ◌==◌, arith}
use lalia.Prelude.Dict.{Dict, get}
use lalia.Types.{Agent, Channel, Room, ChanId, State}
use lalia.Response.{Response}
use lalia.Queue.Frame.{agents-enqueue_write, name_idx-enqueue_write}
use lalia.Room.{remove_members, persist_room_members, send}
use lalia.Channel.{release_to, release_waiter}
use lalia.Registry.{agent_by_name, renewed_agent, renew_lease}
use lalia.Registry.Valid.{
  RegistryIsValid, agent_by_name-inv, unindex_agent-Valid, persist_agent-Valid, put-Valid,
  renew_lease-Valid,
}
use lalia.Session.{
  AgentInfo, op_register, op_unregister, unregister_found, op_renew, renew_op, sweep, sweep_expired,
  expired_agents, is_busy, unindex_all, release_names, ids_of, names_of, release_all,
  release_channels, evict_all, evict_rooms,
}
use lalia.Session.Register.{op_register-Valid}

-- Two states with the same agents.
abbrev SameAgents : State → State → Type 0
SameAgents s t = (t.agents ≡ s.agents) × (t.name_idx ≡ s.name_idx)

SameAgents-Valid : (s t : State) → SameAgents s t → RegistryIsValid s → RegistryIsValid t
SameAgents-Valid s t same v = rw (same.0, same.1) v

release_to-SameAgents :
    (o : Option ChanId) (name : String) (c : Channel) (s : State)
    → SameAgents s (release_to o name c s).1
unfolding release_to send
release_to-SameAgents none name c s = (refl, refl)
release_to-SameAgents (some ch) name c s = (refl, refl)

release_all-SameAgents :
    (name : String) (cs : Dict Channel) (s : State) → SameAgents s (release_all name cs s).1
unfolding release_all release_waiter
release_all-SameAgents name [] s = (refl, refl)
release_all-SameAgents name ((k, c) ∷ cs) s = ground (
  arith,
  release_to-SameAgents (get name c.waiter) name c s,
  release_all-SameAgents name cs (release_waiter name c s).1,
  release_all-SameAgents name cs s,
)

persist_room_members-SameAgents : (r : Room) (s : State) → SameAgents s (persist_room_members r s)
unfolding persist_room_members
persist_room_members-SameAgents r s = (agents-enqueue_write _ _ s, name_idx-enqueue_write _ _ s)

evict_all-SameAgents :
    (names : List String) (rs : Dict Room) (s : State) → SameAgents s (evict_all names rs s).1
unfolding evict_all
evict_all-SameAgents names [] s = (refl, refl)
evict_all-SameAgents names ((k, r) ∷ rs) s =
    let r' = (remove_members names r).0 in
    ground (
      arith,
      persist_room_members-SameAgents r' s,
      evict_all-SameAgents names rs (persist_room_members r' s),
      evict_all-SameAgents names rs s,
    )

evict_rooms-Valid :
    (names : List String) (s : State) → RegistryIsValid s → RegistryIsValid (evict_rooms names s)
unfolding evict_rooms
evict_rooms-Valid names s v =
    SameAgents-Valid s (evict_rooms names s) (evict_all-SameAgents names s.rooms s) v

release_channels-Valid :
    (name : String) (s : State) → RegistryIsValid s → RegistryIsValid (release_channels name s)
unfolding release_channels
release_channels-Valid name s v =
    SameAgents-Valid s (release_channels name s) (release_all-SameAgents name s.channels s) v

release_names-Valid :
    (names : List String) (s : State) → RegistryIsValid s → RegistryIsValid (release_names names s)
unfolding release_names
release_names-Valid [] s v = v
release_names-Valid (n ∷ ns) s v = release_names-Valid ns _ (release_channels-Valid n s v)

unindex_all-Valid :
    (ids : List String) (s : State) → RegistryIsValid s → RegistryIsValid (unindex_all ids s)
unfolding unindex_all
unindex_all-Valid [] s v = v
unindex_all-Valid (id ∷ ids) s v = unindex_all-Valid ids _ (unindex_agent-Valid id s v)

sweep-Valid : (now : ℕ) (s : State) → RegistryIsValid s → RegistryIsValid (sweep now s)
unfolding sweep
sweep-Valid now s v = go (expired_agents now s.agents)
  where
    go : (es : List (String × String)) → RegistryIsValid (sweep_expired es s)
    go [] = unfold sweep_expired in v
    go (e ∷ es) =
        unfold sweep_expired in
        (let names = names_of (e ∷ es) in
          let removed = unindex_all (ids_of (e ∷ es)) s in
          evict_rooms-Valid names (release_names names removed)
            (release_names-Valid names removed (unindex_all-Valid (ids_of (e ∷ es)) s v)))

op_unregister-Valid :
    (from : String) (s : State) → RegistryIsValid s → RegistryIsValid (op_unregister from s).0
unfolding op_unregister
op_unregister-Valid from s v =
    if_both (λ (o : State × Response). RegistryIsValid o.0) (from == "") v
      (go (agent_by_name from s))
  where
    go : (o : Option Agent) → RegistryIsValid (unregister_found from o s).0
    go none = unfold unregister_found in v
    go (some a) =
        unfold unregister_found in
        if_both (λ (o : State × Response). RegistryIsValid o.0) (is_busy from s.tasks) v
          (evict_rooms-Valid (from ∷ []) _
            (release_channels-Valid from _ (unindex_agent-Valid a.agent_id s v)))

op_renew-Valid :
    (now : ℕ) (from : String) (s : State)
    → RegistryIsValid s
    → RegistryIsValid (op_renew now from s).0
unfolding op_renew
op_renew-Valid now from s v =
    if_both (λ (o : State × Response). RegistryIsValid o.0) (from == "") v
      (go (agent_by_name from s) refl)
  where
    go : (o : Option Agent) → agent_by_name from s ≡ o → RegistryIsValid (renew_op now o s).0
    go none e = unfold renew_op in v
    go (some a) e =
        unfold renew_op in
        persist_agent-Valid (renewed_agent now a) _ (
          put-Valid a (renewed_agent now a) s v (agent_by_name-inv from s a v e).1
            (unfold renewed_agent in refl) (unfold renewed_agent in refl))

-- The requests that change the registry, the renewal that goes with any request, and a tick of the
-- sweeper.
pub data AgentCall : Type 0 where
  register : String → Option String → String → ℕ → AgentInfo → AgentCall
  unregister renew touch : String → AgentCall
  tick : AgentCall

abbrev pub agent_step : ℕ → AgentCall → State → State
agent_step now (register fresh_id key name pid info) s =
    (op_register now fresh_id key name pid info s).0
agent_step now (unregister from) s = (op_unregister from s).0
agent_step now (renew from) s = (op_renew now from s).0
agent_step now (touch from) s = renew_lease now from s
agent_step now tick s = sweep now s

abbrev pub agent_run : List (ℕ × AgentCall) → State → State
agent_run [] s = s
agent_run ((now, c) ∷ cs) s = agent_run cs (agent_step now c s)

-- The id that newAgentID gives to a registration is the id of no agent at that time.
abbrev pub IsFresh : AgentCall → State → Type 0
IsFresh (register fresh_id key name pid info) s = get fresh_id s.agents ≡ none
IsFresh c s = Unit

abbrev pub AllFresh : List (ℕ × AgentCall) → State → Type 0
AllFresh [] s = Unit
AllFresh ((now, c) ∷ cs) s = IsFresh c s × AllFresh cs (agent_step now c s)

agent_step-Valid :
    (now : ℕ) (c : AgentCall) (s : State)
    → IsFresh c s
    → RegistryIsValid s
    → RegistryIsValid (agent_step now c s)
agent_step-Valid now (register fresh_id key name pid info) s f v =
    op_register-Valid now fresh_id key name pid info s f v
agent_step-Valid now (unregister from) s f v = op_unregister-Valid from s v
agent_step-Valid now (renew from) s f v = op_renew-Valid now from s v
agent_step-Valid now (touch from) s f v = renew_lease-Valid now from s v
agent_step-Valid now tick s f v = sweep-Valid now s v

-- Over any sequence of registrations, unregistrations, renewals and sweeps, refused or not, in which
-- each fresh id is the id of no agent when it is given: if the two indexes of agents are in line at
-- the start, then so are they at the end. Every agent stands under its id, and every name leads to
-- an agent of that name.
pub agent_run-Valid :
    (calls : List (ℕ × AgentCall)) (s : State)
    → AllFresh calls s
    → RegistryIsValid s
    → RegistryIsValid (agent_run calls s)
agent_run-Valid [] s f v = v
agent_run-Valid ((now, c) ∷ cs) s f v =
    agent_run-Valid cs (agent_step now c s) f.1 (agent_step-Valid now c s f.0 v)
