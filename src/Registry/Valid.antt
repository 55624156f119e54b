-- ===== src/Registry/Valid.antt =====
-- registry.go and state.go: the two indexes of agents agree.
use lalia.Prelude.{
  ℕ, ◌≡◌, refl, sym, ◌∙◌, subst, String, false, Option, none, some, if◌then◌else◌, if_both, ◌==◌,
  Bool-cases, inl, inr, arith, eq_iff, eq_refl,
}
use lalia.Prelude.Dict
use lalia.Prelude.Dict.{Dict, get, put, get-put, get-remove}
use lalia.Types.{Agent, State}
use lalia.Queue.Frame.{agents-enqueue_write, name_idx-enqueue_write}
use lalia.Registry.{
  by_id, agent_by_name, index_agent, holds, unindex, unindex_agent, persist_agent, renewed_agent,
  renew_found, renew_lease,
}

-- Every agent stands under its id, and every name of the index under an agent of that name.
pub record IndexIsValid (agents : Dict Agent) (name_idx : Dict String) : Type 0 where
  pub keyed : (id : String) (a : Agent) → get id agents ≡ some a → a.agent_id ≡ id
  pub named :
      (n id : String)
      → get n name_idx ≡ some id
      → (a : Agent) × (get id agents ≡ some a) × (a.name ≡ n)

abbrev pub RegistryIsValid : State → Type 0
RegistryIsValid s = IndexIsValid s.agents s.name_idx

-- An agent found by its name has that name, and stands under its own id.
pub agent_by_name-inv :
    (name : String) (s : State) (a : Agent)
    → RegistryIsValid s
    → agent_by_name name s ≡ some a
    → (a.name ≡ name) × (get a.agent_id s.agents ≡ some a)
unfolding agent_by_name by_id
agent_by_name-inv name s a v h = go (get name s.name_idx) refl h
  where
    go :
        (o : Option String)
        → get name s.name_idx ≡ o
        → by_id o s ≡ some a
        → (a.name ≡ name) × (get a.agent_id s.agents ≡ some a)
    go none e k = cc
    go (some id) e k =
        let (b, found, n) = v.named name id e in
        let same : b ≡ a = ground (arith, found, k) in
        (
          subst (λ (x : Agent). x.name ≡ name) same n,
          subst (λ i. get i s.agents ≡ some a) (sym (v.keyed id a k)) k,
        )

-- An agent that is new under its id, or replaces one of the same name, keeps the indexes in line.
abbrev Fits : Agent → Dict Agent → Type 0
Fits a agents = (b : Agent) → get a.agent_id agents ≡ some b → b.name ≡ a.name

pub index_agent-Valid :
    (a : Agent) (s : State)
    → RegistryIsValid s
    → Fits a s.agents
    → RegistryIsValid (index_agent a s)
unfolding index_agent
index_agent-Valid a s v fits = record {
  keyed = λ id b h. keyed_put id b h;
  named = λ n id h. named_put n id h;
}
  where
    keyed_put :
        (id : String) (b : Agent) → get id (put a.agent_id a s.agents) ≡ some b → b.agent_id ≡ id
    keyed_put id b h =
        ground (arith, get-put a.agent_id id a s.agents, eq_iff a.agent_id id, v.keyed id b)

    found :
        (n id : String) (b : Agent)
        → get id s.agents ≡ some b
        → b.name ≡ n
        → (c : Agent) × (get id (put a.agent_id a s.agents) ≡ some c) × (c.name ≡ n)
    found n id b h e = elim (Bool-cases (a.agent_id == id)) [
      | inl same ↦
          let at : a.agent_id ≡ id = (eq_iff a.agent_id id).0 same in
          (a, get-put a.agent_id id a s.agents ∙ rw same refl, sym (fits b (rw at h)) ∙ e)
      | inr other ↦ (b, get-put a.agent_id id a s.agents ∙ rw other h, e)
    ]

    named_put :
        (n id : String)
        → get n (put a.name a.agent_id s.name_idx) ≡ some id
        → (b : Agent) × (get id (put a.agent_id a s.agents) ≡ some b) × (b.name ≡ n)
    named_put n id h = elim (Bool-cases (a.name == n)) [
      | inl same ↦
          let at : some a.agent_id ≡ some id =
            sym (get-put a.name n a.agent_id s.name_idx ∙ rw same refl) ∙ h in
          let eq : a.agent_id ≡ id = cc in
          (
            a,
            get-put a.agent_id id a s.agents ∙ rw ((eq_iff a.agent_id id).1 eq) refl,
            (eq_iff a.name n).0 same,
          )
      | inr other ↦
          let old =
            v.named n id (sym (get-put a.name n a.agent_id s.name_idx ∙ rw other refl) ∙ h) in
          found n id old.0 old.1 old.2
    ]

unindex-Valid :
    (id : String) (a : Agent) (s : State)
    → RegistryIsValid s
    → get id s.agents ≡ some a
    → RegistryIsValid (unindex id (some a) s)
unfolding unindex
unindex-Valid id a s v at = record {
  keyed = λ j b h. ground (arith, get-remove id j s.agents, v.keyed j b);
  named = λ n j h. kept n j h;
}
  where
    after : Dict String
    after = if holds id (get a.name s.name_idx) then Dict.remove a.name s.name_idx else s.name_idx

    -- An entry that is left was there, and is no entry of the removed id.
    old : (n j : String) → get n after ≡ some j → get n s.name_idx ≡ some j
    old n j h = ground (arith, get-remove a.name n s.name_idx)

    not_removed : (n j : String) → get n after ≡ some j → (id == j) ≡ false
    not_removed n j h = elim (Bool-cases (id == j)) [
      | inr other ↦ other
      | inl same ↦
          let (b, found, e) = v.named n j (old n j h) in
          ground (
            arith,
            get-remove a.name n s.name_idx,
            eq_iff id j,
            eq_iff a.name n,
            eq_refl id,
            found,
            e,
            at,
          )
    ]

    kept :
        (n j : String)
        → get n after ≡ some j
        → (b : Agent) × (get j (Dict.remove id s.agents) ≡ some b) × (b.name ≡ n)
    kept n j h =
        let (b, found, e) = v.named n j (old n j h) in
        (b, get-remove id j s.agents ∙ rw (not_removed n j h) found, e)

-- The removal of an agent keeps the two indexes of agents in line.
pub unindex_agent-Valid :
    (id : String) (s : State) → RegistryIsValid s → RegistryIsValid (unindex_agent id s)
unfolding unindex_agent
unindex_agent-Valid id s v = go (get id s.agents) refl
  where
    go : (o : Option Agent) → get id s.agents ≡ o → RegistryIsValid (unindex id o s)
    go none e = unfold unindex in v
    go (some a) e = unindex-Valid id a s v e

-- An agent that is written back under its id and name.
pub put-Valid :
    (a b : Agent) (s : State)
    → RegistryIsValid s
    → get a.agent_id s.agents ≡ some a
    → b.agent_id ≡ a.agent_id
    → b.name ≡ a.name
    → IndexIsValid (put a.agent_id b s.agents) s.name_idx
put-Valid a b s v at ei en = record {
  keyed = λ id c h.
      ground (arith, get-put a.agent_id id b s.agents, eq_iff a.agent_id id, v.keyed id c);
  named = λ n id h. kept n id (v.named n id h);
}
  where
    kept :
        (n id : String)
        → ((c : Agent) × (get id s.agents ≡ some c) × (c.name ≡ n))
        → (c : Agent) × (get id (put a.agent_id b s.agents) ≡ some c) × (c.name ≡ n)
    kept n id (c, found, e) = elim (Bool-cases (a.agent_id == id)) [
      | inl same ↦ (
        b,
        get-put a.agent_id id b s.agents ∙ rw same refl,
        en ∙ (ground (arith, eq_iff a.agent_id id, found, at, e)),
      )
      | inr other ↦ (c, get-put a.agent_id id b s.agents ∙ rw other found, e)
    ]

pub persist_agent-Valid :
    (a : Agent) (s : State) → RegistryIsValid s → RegistryIsValid (persist_agent a s)
unfolding persist_agent
persist_agent-Valid a s v = rw (agents-enqueue_write _ _ s, name_idx-enqueue_write _ _ s) v

-- A renewal of a lease keeps the two indexes of agents in line.
pub renew_lease-Valid :
    (now : ℕ) (name : String) (s : State)
    → RegistryIsValid s
    → RegistryIsValid (renew_lease now name s)
unfolding renew_lease
renew_lease-Valid now name s v =
    if_both RegistryIsValid (name == "") v (go (agent_by_name name s) refl)
  where
    go : (o : Option Agent) → agent_by_name name s ≡ o → RegistryIsValid (renew_found now o s)
    go none e = unfold renew_found in v
    go (some a) e =
        unfold renew_found in
        persist_agent-Valid (renewed_agent now a) _ (
          put-Valid a (renewed_agent now a) s v (agent_by_name-inv name s a v e).1
            (unfold renewed_agent in refl) (unfold renewed_agent in refl))
