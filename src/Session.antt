-- ===== src/Session.antt =====
-- state.go: the handlers of agents' sessions, and the sweeper.
pub mod RoomsKept
pub mod Register
pub mod Lifecycle
use lalia.Prelude.{
  ℕ, ◌+◌, String, Bool, false, not, ◌&&◌, ◌||◌, Option, none, some, List, [], ◌∷◌, map,
  if◌then◌else◌, ltb, eqb, ◌==◌,
}
use lalia.Prelude.Dict
use lalia.Prelude.Dict.{Dict, put}
use lalia.Types.{Room, Channel, Agent, Task, TaskList, State}
use lalia.Response.{
  Response, ok, error_response, registered, named, renewed, code_error, code_not_found,
  code_pid_conflict, code_session_conflict, code_supervisor_busy, missing_name, missing_from,
  keygen_failed, pid_in_use, session_conflict, not_registered, supervisor_busy,
}
use lalia.Room.{remove_members, persist_room_members}
use lalia.Channel.{release_waiter}
use lalia.Registry.{
  agent_by_name, index_agent, unindex_agent, persist_agent, renewed_agent, lease_ttl,
}

-- The optional arguments of a registration: AgentInfo, of identity.go, and the role.
pub record AgentInfo : Type 0 where
  pub harness : String
  pub model : String
  pub project : String
  pub repo_url : String
  pub repo_root : String
  pub main_repo_root : String
  pub worktree_kind : String
  pub worktree : String
  pub branch : String
  pub cwd : String
  pub role : String

-- The loop over `s.agents` that looks for a live agent of another name with the caller's pid.
unfoldable pub pid_taken : ℕ → ℕ → String → Dict Agent → Bool
pid_taken now pid name [] = false
pid_taken now pid name ((id, a) ∷ rest) =
    (eqb a.pid pid && (not (a.name == name) && ltb now a.expires_at)) || pid_taken now pid name rest

abbrev clash : String → String → Bool
clash new old = not (new == "") && (not (old == "") && not (new == old))

unfoldable pub session_clash : ℕ → AgentInfo → Option Agent → Bool
session_clash now info none = false
session_clash now info (some a) =
    ltb now a.expires_at && (clash info.harness a.harness || clash info.cwd a.cwd)

-- `if v != "" { a.F = v }`
abbrev override : String → String → String
override new old = if new == "" then old else new

unfoldable pub blank_agent : ℕ → String → String → Agent
blank_agent now fresh_id name = record {
  agent_id = fresh_id;
  name = name;
  pubkey = "";
  role = "";
  harness = "";
  model = "";
  project = "";
  repo_url = "";
  repo_root = "";
  main_repo_root = "";
  worktree_kind = "";
  worktree = "";
  branch = "";
  cwd = "";
  pid = 0;
  started_at = now;
  last_seen_at = 0;
  expires_at = 0;
}

abbrev agent_or : Agent → Option Agent → Agent
agent_or z none = z
agent_or z (some a) = a

unfoldable pub registered_agent : ℕ → ℕ → String → AgentInfo → Agent → Agent
registered_agent now pid pub_hex info a = record a {
  pid = pid;
  pubkey = pub_hex;
  last_seen_at = now;
  expires_at = now + lease_ttl;
  harness = override info.harness a.harness;
  model = override info.model a.model;
  project = override info.project a.project;
  repo_url = override info.repo_url a.repo_url;
  repo_root = override info.repo_root a.repo_root;
  main_repo_root = override info.main_repo_root a.main_repo_root;
  worktree_kind = override info.worktree_kind a.worktree_kind;
  worktree = override info.worktree a.worktree;
  branch = override info.branch a.branch;
  cwd = override info.cwd a.cwd;
  role = override info.role a.role;
}

unfoldable pub register_as : Agent → State → State × Response
register_as a s = (
  persist_agent a (index_agent a s),
  ok (registered a.name a.agent_id a.expires_at a.pubkey a.role),
)

unfoldable pub register_with :
    ℕ → String → String → ℕ → AgentInfo → Option String → State → State × Response
register_with now fresh_id name pid info none s = (s, error_response code_error keygen_failed)
register_with now fresh_id name pid info (some pub_hex) s =
    if not (eqb pid 0) && pid_taken now pid name s.agents
    then (s, error_response code_pid_conflict pid_in_use)
    else if session_clash now info (agent_by_name name s)
    then (s, error_response code_session_conflict session_conflict)
    else register_as
        (registered_agent now pid pub_hex info
          (agent_or (blank_agent now fresh_id name) (agent_by_name name s)))
        s

-- opRegister. `key` is what ensureKey returns for the name, in hex, or `none` for its error;
-- `fresh_id` is what newAgentID returns if it is called.
unfoldable pub op_register :
    ℕ → String → Option String → String → ℕ → AgentInfo → State → State × Response
op_register now fresh_id key name pid info s =
    if name == ""
    then (s, error_response code_error missing_name)
    else register_with now fresh_id name pid info key s

abbrev pub status_merged : String
status_merged = "merged"

-- The loops of opUnregister over the task lists: a task of the caller that is not merged.
unfoldable pub any_unmerged : List Task → Bool
any_unmerged [] = false
any_unmerged (t ∷ ts) = not (t.status == status_merged) || any_unmerged ts

unfoldable pub is_busy : String → Dict TaskList → Bool
unfolding any_unmerged
is_busy from [] = false
is_busy from ((pid, tl) ∷ rest) =
    ((tl.supervisor == from) && any_unmerged tl.tasks) || is_busy from rest

-- The loops over channels that release the pending read of a name, and over rooms that evict it.
unfoldable pub release_all : String → Dict Channel → State → Dict Channel × State
release_all name [] s = ([], s)
release_all name ((k, c) ∷ cs) s =
    let (c', s') =
      if (c.peer_a == name) || (c.peer_b == name) then release_waiter name c s else (c, s) in
    let (cs', s'') = release_all name cs s' in ((k, c') ∷ cs', s'')

unfoldable pub evict_all : List String → Dict Room → State → Dict Room × State
evict_all names [] s = ([], s)
evict_all names ((k, r) ∷ rs) s =
    let (r', changed) = remove_members names r in
    let (rs', s') = evict_all names rs (if changed then persist_room_members r' s else s) in
    ((k, r') ∷ rs', s')

unfoldable pub release_channels : String → State → State
unfolding release_all
release_channels name s =
    let (cs, s') = release_all name s.channels s in record s' { channels = cs }

unfoldable pub evict_rooms : List String → State → State
unfolding evict_all
evict_rooms names s = let (rs, s') = evict_all names s.rooms s in record s' { rooms = rs }

unfoldable pub unregister_found : String → Option Agent → State → State × Response
unregister_found from none s = (s, error_response code_not_found not_registered)
unregister_found from (some a) s =
    if is_busy from s.tasks
    then (s, error_response code_supervisor_busy supervisor_busy)
    else (let s1 = unindex_agent a.agent_id s in
        let s2 = record s1 { any_waiter = Dict.remove from s1.any_waiter } in
        (evict_rooms (from ∷ []) (release_channels from s2), ok (named from)))

-- opUnregister. The agent's file and private key, which it deletes, are not part of the state.
unfoldable pub op_unregister : String → State → State × Response
op_unregister from s =
    if from == ""
    then (s, error_response code_error missing_from)
    else unregister_found from (agent_by_name from s) s

-- opRenew
unfoldable pub renew_op : ℕ → Option Agent → State → State × Response
renew_op now none s = (s, error_response code_not_found not_registered)
renew_op now (some a) s = (
  persist_agent (renewed_agent now a)
      (record s { agents = put a.agent_id (renewed_agent now a) s.agents }),
  ok (renewed (now + lease_ttl)),
)

unfoldable pub op_renew : ℕ → String → State → State × Response
op_renew now from s =
    if from == ""
    then (s, error_response code_error missing_from)
    else renew_op now (agent_by_name from s) s

-- sweep
unfoldable pub expired_agents : ℕ → Dict Agent → List (String × String)
expired_agents now [] = []
expired_agents now ((id, a) ∷ rest) =
    if ltb a.expires_at now then (id, a.name) ∷ expired_agents now rest else expired_agents now rest

unfoldable pub unindex_all : List String → State → State
unindex_all [] s = s
unindex_all (id ∷ ids) s = unindex_all ids (unindex_agent id s)

unfoldable pub release_names : List String → State → State
release_names [] s = s
release_names (n ∷ ns) s = release_names ns (release_channels n s)

abbrev pub ids_of : List (String × String) → List String
ids_of = map (λ (e : String × String). e.0)

abbrev pub names_of : List (String × String) → List String
names_of = map (λ (e : String × String). e.1)

unfoldable pub sweep_expired : List (String × String) → State → State
unfolding release_names
sweep_expired [] s = s
sweep_expired (e ∷ more) s =
    let names = names_of (e ∷ more) in
    evict_rooms names (release_names names (unindex_all (ids_of (e ∷ more)) s))

unfoldable pub sweep : ℕ → State → State
unfolding sweep_expired expired_agents
sweep now s = sweep_expired (expired_agents now s.agents) s
