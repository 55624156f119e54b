-- ===== src/Registry.antt =====
-- registry.go and state.go: the index of agents, leases, and address resolution of identity.go.
pub mod Valid
use Prim.Native.Char.{code}
use Prim.Native.String.{◌++◌ as append}
use lalia.Prelude.{
  ℕ, ◌+◌, ◌*◌, String, Bool, true, false, ◌&&◌, ◌||◌, Option, none, some, List, [], ◌∷◌,
  if◌then◌else◌, eqb, ◌==◌,
}
use lalia.Prelude.Dict
use lalia.Prelude.Dict.{Dict, get, put}
use lalia.Types.{Agent, State, registry_file, Content}
use lalia.Queue.{enqueue_write}

-- leaseTTL, in nanoseconds
abbrev pub lease_ttl : ℕ
lease_ttl = 60 * 60 * 1000000000

-- agentByName: nil for a name without an entry, and for an entry without its agent
unfoldable pub by_id : Option String → State → Option Agent
by_id none s = none
by_id (some id) s = get id s.agents

unfoldable pub agent_by_name : String → State → Option Agent
unfolding by_id
agent_by_name name s = by_id (get name s.name_idx) s

-- indexAgent
unfoldable pub index_agent : Agent → State → State
index_agent a s = record s {
  agents = put a.agent_id a s.agents;
  name_idx = put a.name a.agent_id s.name_idx;
}

abbrev holds : String → Option String → Bool
holds id none = false
holds id (some i) = i == id

unfoldable pub unindex : String → Option Agent → State → State
unindex id none s = s
unindex id (some a) s = record s {
  agents = Dict.remove id s.agents;
  name_idx = if holds id (get a.name s.name_idx) then Dict.remove a.name s.name_idx else s.name_idx;
}

-- unindexAgent
unfoldable pub unindex_agent : String → State → State
unfolding unindex
unindex_agent id s = unindex id (get id s.agents) s

-- persistAgent
unfoldable pub persist_agent : Agent → State → State
persist_agent a s = enqueue_write (registry_file a.agent_id) (Content.agent_record a) s

-- The lease of an agent, renewed. The agent is a pointer in Go: the change is to its entry.
unfoldable pub renewed_agent : ℕ → Agent → Agent
renewed_agent now a = record a { last_seen_at = now; expires_at = now + lease_ttl }

unfoldable pub renew_found : ℕ → Option Agent → State → State
renew_found now none s = s
renew_found now (some a) s =
    persist_agent (renewed_agent now a)
      (record s { agents = put a.agent_id (renewed_agent now a) s.agents })

-- renewLease
unfoldable pub renew_lease : ℕ → String → State → State
unfolding renew_found
renew_lease now name s = if name == "" then s else renew_found now (agent_by_name name s) s

-- qualifiedName
unfoldable pub qualified_name : Agent → String
qualified_name a =
    if (a.project == "") && (a.branch == "")
    then a.name
    else if a.branch == ""
    then append a.name (append "@" a.project)
    else append a.name (append "@" (append a.project (append ":" a.branch)))

-- strings.SplitN with a one-character separator, one cut at a time: what stands before the first
-- separator, and what follows it.
unfoldable pub cut : ℕ → String → String × Option String
cut sep String.[] = (String.[], none)
cut sep (String.◌∷◌ c s) =
    let (head, rest) = cut sep s in
    if eqb (code c) sep then (String.[], some s) else (String.◌∷◌ c head, rest)

-- The parts of an address: name, project, branch, worktree; an absent part is empty.
pub record Address : Type 0 where
  pub name : String
  pub project : String
  pub branch : String
  pub worktree : String

cut_worktree : String → String → String × Option String → Address
cut_worktree name project (branch, none) = record {
  name = name;
  project = project;
  branch = branch;
  worktree = "";
}
cut_worktree name project (branch, some worktree) = record {
  name = name;
  project = project;
  branch = branch;
  worktree = worktree;
}

cut_branch : String → String × Option String → Address
unfolding cut_worktree
cut_branch name (project, none) = record {
  name = name;
  project = project;
  branch = "";
  worktree = "";
}
cut_branch name (project, some rest) = cut_worktree name project (cut b':' rest)

-- The name alone, which holds no `@`, is the address without the other parts.
cut_name : String × Option String → Address
unfolding cut_branch
cut_name (name, none) = record { name = name; project = ""; branch = ""; worktree = "" }
cut_name (name, some rest) = cut_branch name (cut b':' rest)

unfoldable pub parse_address : String → Address
unfolding cut_name cut
parse_address addr = cut_name (cut b'@' addr)

-- The tests of the loops in resolveAddressInner
unfoldable pub matches : Address → Agent → Bool
matches p a =
    (a.name == p.name)
    && ((p.project == "") || (a.project == p.project))
    && ((p.branch == "") || (a.branch == p.branch))
    && ((p.worktree == "") || (a.worktree == p.worktree))

unfoldable pub matching : Address → Dict Agent → List Agent
unfolding matches
matching p [] = []
matching p ((id, a) ∷ rest) = if matches p a then a ∷ matching p rest else matching p rest

-- The error values of ResolveAddress, by kind.
pub data Resolution : Type 0 where
  resolved : String → Resolution
  unknown_agent : Resolution
  ambiguous : List Agent → Resolution
  dangling_nickname : Resolution

unfoldable pub resolve_matches : List Agent → Resolution
resolve_matches [] = unknown_agent
resolve_matches (a ∷ []) = resolved a.agent_id
resolve_matches (a ∷ b ∷ more) = ambiguous (a ∷ b ∷ more)

-- Nickname, of nickname.go; `follow` is the mode of that name
pub record Nickname : Type 0 where
  pub follow : Bool
  pub agent_id : String
  pub address : String

abbrev present {ℓ} : {A : Type ℓ} → Option A → Bool
present none = false
present (some a) = true

-- `isULID` is the parser of the ulid package.
module _ (is_ulid : String → Bool) where
  -- resolveAddressInner
  unfoldable pub resolve_address_inner : String → State → Resolution
  unfolding resolve_matches
  resolve_address_inner addr s =
      if is_ulid addr
      then (if present (get addr s.agents) then resolved addr else unknown_agent)
      else resolve_matches (matching (parse_address addr) s.agents)

  resolve_nickname : String → Option Nickname → State → Resolution
  resolve_nickname addr none s = resolve_address_inner addr s
  resolve_nickname addr (some n) s =
      if n.follow
      then resolve_address_inner n.address s
      else if present (get n.agent_id s.agents)
      then resolved n.agent_id
      else dangling_nickname

  -- ResolveAddress
  unfoldable pub resolve_address : Dict Nickname → String → State → Resolution
  unfolding resolve_nickname
  resolve_address nicknames addr s = resolve_nickname addr (get addr nicknames) s

  name_of : Resolution → State → Option String
  name_of (resolved id) s = elim (get id s.agents) [ some a ↦ some a.name | none ↦ none ]
  name_of _ s = none

  -- resolvePeerName; every error is `none`
  unfoldable pub resolve_peer_name : Dict Nickname → String → State → Option String
  unfolding name_of
  resolve_peer_name nicknames addr s = name_of (resolve_address nicknames addr s) s
