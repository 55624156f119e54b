-- ===== src/Session/Register.antt =====
-- state.go: what opRegister guarantees.
use lalia.Prelude.{
  ◌⊎◌, ℕ, ◌+◌, ◌<◌, ◌≡◌, refl, sym, ◌∙◌, ap, String, true, false, not, ◌&&◌, Option, none, some, [],
  ◌∷◌, if_both, ◌==◌, eqb, Bool-cases, inl, inr, arith, eq_iff, eq_refl,
}
use lalia.Prelude.Dict
use lalia.Prelude.Dict.{Dict, get, put, get-put}
use lalia.Types.{Agent, State}
use lalia.Response.{Response, ok, error_response, Payload}
use lalia.Queue.Frame.{agents-enqueue_write, name_idx-enqueue_write}
use lalia.Registry.{agent_by_name, by_id, index_agent, persist_agent, lease_ttl}
use lalia.Registry.Valid.{
  RegistryIsValid, agent_by_name-inv, index_agent-Valid, persist_agent-Valid,
}
use lalia.Session.{
  AgentInfo, override, pid_taken, session_clash, blank_agent, agent_or, registered_agent,
  register_as, register_with, op_register,
}

-- The agent that a registration writes.
pub registrant : ℕ → String → String → String → ℕ → AgentInfo → State → Agent
registrant now fresh_id pub_hex name pid info s =
    registered_agent now pid pub_hex info
      (agent_or (blank_agent now fresh_id name) (agent_by_name name s))

-- A registration that succeeds has passed the checks, and writes the registrant.
register-ok :
    (now : ℕ) (fresh_id : String) (key : Option String) (name : String) (pid : ℕ) (info : AgentInfo)
    (s : State) (p : Payload)
    → (op_register now fresh_id key name pid info s).1 ≡ ok p
    → (pub_hex : String) × ((op_register now fresh_id key name pid info s).0
        ≡ persist_agent
            (registrant now fresh_id pub_hex name pid info s)
            (index_agent (registrant now fresh_id pub_hex name pid info s) s))
      × ((not (eqb pid 0) && pid_taken now pid name s.agents) ≡ false)
      × (session_clash now info (agent_by_name name s) ≡ false)
unfolding op_register register_with register_as registrant error_response
register-ok now fresh_id none name pid info s p h = absurd (ground arith)
register-ok now fresh_id (some pub_hex) name pid info s p h =
    (pub_hex, ground arith, ground arith, ground arith)

-- The registrant has the name that was asked for, and the id of the agent of that name, if any.
registrant-name :
    (now : ℕ) (fresh_id pub_hex name : String) (pid : ℕ) (info : AgentInfo) (s : State)
    → RegistryIsValid s
    → (registrant now fresh_id pub_hex name pid info s).name ≡ name
unfolding registrant registered_agent
registrant-name now fresh_id pub_hex name pid info s v = go (agent_by_name name s) refl
  where
    go :
        (o : Option Agent)
        → agent_by_name name s ≡ o
        → (agent_or (blank_agent now fresh_id name) o).name ≡ name
    go none e = unfold blank_agent in refl
    go (some a) e = (agent_by_name-inv name s a v e).0

registrant-fits :
    (now : ℕ) (fresh_id pub_hex name : String) (pid : ℕ) (info : AgentInfo) (s : State)
    → RegistryIsValid s
    → get fresh_id s.agents ≡ none
    → let a = registrant now fresh_id pub_hex name pid info s in
      (b : Agent) → get a.agent_id s.agents ≡ some b → b.name ≡ a.name
unfolding registrant registered_agent
registrant-fits now fresh_id pub_hex name pid info s v fresh b h = go (agent_by_name name s) refl h
  where
    go :
        (o : Option Agent)
        → agent_by_name name s ≡ o
        → get (agent_or (blank_agent now fresh_id name) o).agent_id s.agents ≡ some b
        → b.name ≡ (agent_or (blank_agent now fresh_id name) o).name
    go none e k = absurd (unfold blank_agent in ground (arith, fresh, k))
    go (some a) e k = let at = (agent_by_name-inv name s a v e).1 in ground (arith, at, k)

registered-Valid :
    (now : ℕ) (fresh_id pub_hex name : String) (pid : ℕ) (info : AgentInfo) (s : State)
    → RegistryIsValid s
    → get fresh_id s.agents ≡ none
    → let a = registrant now fresh_id pub_hex name pid info s in
      RegistryIsValid (persist_agent a (index_agent a s))
registered-Valid now fresh_id pub_hex name pid info s v fresh =
    let a = registrant now fresh_id pub_hex name pid info s in
    persist_agent-Valid a (index_agent a s)
      (index_agent-Valid a s v (registrant-fits now fresh_id pub_hex name pid info s v fresh))

-- A registration, refused or not, keeps the two indexes of agents in line, provided that a fresh id
-- is the id of no agent.
pub op_register-Valid :
    (now : ℕ) (fresh_id : String) (key : Option String) (name : String) (pid : ℕ) (info : AgentInfo)
    (s : State)
    → get fresh_id s.agents ≡ none
    → RegistryIsValid s
    → RegistryIsValid (op_register now fresh_id key name pid info s).0
unfolding op_register register_with register_as
op_register-Valid now fresh_id none name pid info s fresh v =
    if_both (λ (o : State × Response). RegistryIsValid o.0) (name == "") v v
op_register-Valid now fresh_id (some pub_hex) name pid info s fresh v =
    let K : State × Response → Type 0 = λ o. RegistryIsValid o.0 in
    if_both K (name == "") v (
      if_both K (not (eqb pid 0) && pid_taken now pid name s.agents) v (
        if_both K (session_clash now info (agent_by_name name s)) v
          (unfold registrant in registered-Valid now fresh_id pub_hex name pid info s v fresh)))

agent_by_name-index_agent :
    (a : Agent) (s : State) → agent_by_name a.name (persist_agent a (index_agent a s)) ≡ some a
unfolding agent_by_name by_id persist_agent index_agent
agent_by_name-index_agent a s =
    rw (name_idx-enqueue_write, agents-enqueue_write)
      (ground (
        arith,
        get-put a.name a.name a.agent_id s.name_idx,
        get-put a.agent_id a.agent_id a s.agents,
        eq_refl a.name,
        eq_refl a.agent_id,
      ))

-- A value that a registration gives is omitted, or new, or the one on record.
abbrev pub Agrees : String → String → Type 0
Agrees new old = (new ≡ "") ⊎ (old ≡ "") ⊎ (new ≡ old)

no_clash-keeps :
    (now : ℕ) (info : AgentInfo) (o : Option Agent) (b : Agent)
    → session_clash now info o ≡ false
    → o ≡ some b
    → now < b.expires_at
    → Agrees info.harness b.harness × Agrees info.cwd b.cwd
unfolding session_clash
no_clash-keeps now info o b h e live =
    (agrees info.harness b.harness (ground arith), agrees info.cwd b.cwd (ground arith))
  where
    agrees :
        (new old : String)
        → (not (new == "") && (not (old == "") && not (new == old))) ≡ false
        → Agrees new old
    agrees new old k = elim (Bool-cases (new == "")) [
      | inl omitted ↦ inl ((eq_iff new "").0 omitted)
      | inr given ↦ elim (Bool-cases (old == "")) [
        | inl blank ↦ inr (inl ((eq_iff old "").0 blank))
        | inr known ↦ inr (inr ((eq_iff new old).0 (ground arith)))
      ]
    ]

-- A value that agrees with the one on record leaves it as it is, unless there was none.
Agrees-keeps : (new old : String) → Agrees new old → ((old == "") ≡ true) ⊎ (override new old ≡ old)
Agrees-keeps new old (inl omitted) = inr (rw omitted refl)
Agrees-keeps new old (inr (inl blank)) = inl (rw blank refl)
Agrees-keeps new old (inr (inr same)) = elim (Bool-cases (new == "")) [
  | inl e ↦ inr (rw e refl)
  | inr n ↦ inr (rw n same)
]

-- After a registration that succeeds in a registry whose indexes are in line, the name leads to an
-- agent of that name with the caller's pid and a full lease.
pub register_binds :
    (now : ℕ) (fresh_id : String) (key : Option String) (name : String) (pid : ℕ) (info : AgentInfo)
    (s : State) (p : Payload)
    → RegistryIsValid s
    → (op_register now fresh_id key name pid info s).1 ≡ ok p
    → (a : Agent) × (agent_by_name name (op_register now fresh_id key name pid info s).0 ≡ some a)
      × (a.name ≡ name)
      × (a.pid ≡ pid)
      × (a.expires_at ≡ now + lease_ttl)
register_binds now fresh_id key name pid info s p v h =
    let (pub_hex, result, free, no_clash) = register-ok now fresh_id key name pid info s p h in
    let a = registrant now fresh_id pub_hex name pid info s in
    let named = registrant-name now fresh_id pub_hex name pid info s v in
    (
      a,
      rw result (
          ap (λ n. agent_by_name n (persist_agent a (index_agent a s))) (sym named)
          ∙ agent_by_name-index_agent a s),
      named,
      unfold registrant registered_agent in refl,
      unfold registrant registered_agent in refl,
    )

-- In a registry whose indexes are in line, a registration under a name whose lease is live succeeds
-- only if the harness that it gives is empty, or the one on record, or there is none on record, and
-- likewise its directory. Then the agent of the name keeps its id, and its harness and its directory
-- where they were on record, and has the pid of the caller.
pub register_keeps :
    (now : ℕ) (fresh_id : String) (key : Option String) (name : String) (pid : ℕ) (info : AgentInfo)
    (s : State) (p : Payload) (b : Agent)
    → RegistryIsValid s
    → agent_by_name name s ≡ some b
    → now < b.expires_at
    → (op_register now fresh_id key name pid info s).1 ≡ ok p
    → (a : Agent) × (agent_by_name name (op_register now fresh_id key name pid info s).0 ≡ some a)
      × (a.agent_id ≡ b.agent_id)
      × (a.pid ≡ pid)
      × Agrees info.harness b.harness
      × (((b.harness == "") ≡ true) ⊎ (a.harness ≡ b.harness))
      × Agrees info.cwd b.cwd
      × (((b.cwd == "") ≡ true) ⊎ (a.cwd ≡ b.cwd))
register_keeps now fresh_id key name pid info s p b v e live h =
    let (pub_hex, result, free, no_clash) = register-ok now fresh_id key name pid info s p h in
    let a = registrant now fresh_id pub_hex name pid info s in
    let named = registrant-name now fresh_id pub_hex name pid info s v in
    let (harness, cwd) = no_clash-keeps now info (agent_by_name name s) b no_clash e live in
    (
      a,
      rw result (
          ap (λ n. agent_by_name n (persist_agent a (index_agent a s))) (sym named)
          ∙ agent_by_name-index_agent a s),
      unfold registrant registered_agent in rw e refl,
      unfold registrant registered_agent in refl,
      harness,
      unfold registrant registered_agent in rw e (Agrees-keeps info.harness b.harness harness),
      cwd,
      unfold registrant registered_agent in rw e (Agrees-keeps info.cwd b.cwd cwd),
    )

pid_taken-free :
    (now pid : ℕ) (name id : String) (b : Agent) (agents : Dict Agent)
    → pid_taken now pid name agents ≡ false
    → get id agents ≡ some b
    → b.pid ≡ pid
    → now < b.expires_at
    → b.name ≡ name
unfolding pid_taken Dict.get
pid_taken-free now pid name id b [] h at e live = absurd (ground arith)
pid_taken-free now pid name id b ((j, a) ∷ rest) h at e live =
    ground (arith, pid_taken-free now pid name id b rest, eq_iff a.name name)

agents-registered :
    (a : Agent) (s : State) → (persist_agent a (index_agent a s)).agents ≡ put a.agent_id a s.agents
unfolding persist_agent index_agent
agents-registered a s = agents-enqueue_write _ _ _

-- In a registry whose indexes are in line, a registration with a process id other than 0 succeeds
-- only if no live agent of another name holds that id: afterwards every live agent with the id has
-- the caller's name.
pub register_pid_exclusive :
    (now : ℕ) (fresh_id : String) (key : Option String) (name : String) (pid : ℕ) (info : AgentInfo)
    (s : State) (p : Payload)
    → RegistryIsValid s
    → eqb pid 0 ≡ false
    → (op_register now fresh_id key name pid info s).1 ≡ ok p
    → (id : String) (b : Agent)
    → get id (op_register now fresh_id key name pid info s).0.agents ≡ some b
    → b.pid ≡ pid
    → now < b.expires_at
    → b.name ≡ name
register_pid_exclusive now fresh_id key name pid info s p v nonzero h id b at e live =
    let (pub_hex, result, free, _) = register-ok now fresh_id key name pid info s p h in
    let a = registrant now fresh_id pub_hex name pid info s in
    let named = registrant-name now fresh_id pub_hex name pid info s v in
    let stored : get id (put a.agent_id a s.agents) ≡ some b =
      sym (ap (get id) (ap (λ (t : State). t.agents) result ∙ agents-registered a s)) ∙ at in
    elim (Bool-cases (a.agent_id == id)) [
      | inl same ↦
          let eq : some a ≡ some b =
            sym (get-put a.agent_id id a s.agents ∙ rw same refl) ∙ stored in
          let one : a ≡ b = cc in sym (ap (λ (x : Agent). x.name) one) ∙ named
      | inr other ↦
          pid_taken-free now pid name id b s.agents (rw nonzero at free)
            (sym (get-put a.agent_id id a s.agents ∙ rw other refl) ∙ stored) e live
    ]
