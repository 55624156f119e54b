-- ===== src/Examples/Peers.antt =====
-- The theorems on peers, channels and the registry, at concrete agents and messages.
use mathlib.Core.List.{Perm}
use lalia.Prelude.{
  map, keep, length, ℕ, suc, ◌≡◌, ◌+◌, refl, String, true, ◌&&◌, ◌⊎◌, none, some, [], ◌∷◌, List,
  ◌++◌, if◌then◌else◌, ◌==◌, Bool-cases, inl, inr, subst, sym, arith, eq_iff,
}
use lalia.Prelude.Dict.{get, get_or, put}
use lalia.Types.{Agent, Message, Channel, State}
use lalia.Response.{Response, ok, told, registered, channel_rows}
use lalia.Text.{room_name_char, valid_room_name, all_chars}
use lalia.Channel.{channel_key, new_channel, peer_of, pending, next_peer_message, tell}
use lalia.Channel.Laws.{channel_key_comm, queues, tell_appends}
use lalia.Registry.{agent_by_name, lease_ttl, persist_agent, index_agent}
use lalia.Messaging.{op_channels}
use lalia.Messaging.Listing.{IsSorted, is_in, values, op_channels-lists}
use lalia.Queue.{enqueue_write}
use lalia.Registry.Valid.{RegistryIsValid}
use lalia.Session.{
  AgentInfo, op_register, register_with, pid_taken, session_clash, register_as, registered_agent,
}
use lalia.Session.Lifecycle.{AgentCall, agent_run, agent_run-Valid}
use lalia.Session.Register.{Agrees, register_binds, register_keeps, register_pid_exclusive}
use lalia.Examples.{sue, bob, office}

-- The channel of Bob and Sue, with one message for Sue.
abbrev hello : Message
hello = record { seq = 1; from = "bob"; ts = 3; body = "hello" }

abbrev line : Channel
line = record {
  peer_a = "bob";
  peer_b = "sue";
  seq = 1;
  log = hello ∷ [];
  mailbox = ("sue", hello ∷ []) ∷ [];
  waiter = [];
}

from_bob : peer_of "bob" line ≡ some "sue"
unfolding peer_of
from_bob = refl

from_sue : peer_of "sue" line ≡ some "bob"
unfolding peer_of
from_sue = refl

for_sue : pending line "sue" ≡ hello ∷ []
unfolding get_or
for_sue = refl

for_bob : pending line "bob" ≡ []
unfolding get_or
for_bob = refl

idle : queues "bob" line office ≡ true
unfolding get
idle = refl

channel_key_comm_example :
    (channel_key "sue" "bob" ≡ channel_key "bob" "sue")
    × (new_channel "sue" "bob" ≡ new_channel "bob" "sue")
channel_key_comm_example = channel_key_comm "sue" "bob"

tell_appends_example :
    let m = next_peer_message line "sue" 9 "hi" in
    let after = tell "sue" 9 "hi" line office in
    (after.2 ≡ ok (told (suc 1) "bob"))
    × (after.0.seq ≡ suc 1)
    × (after.0.log ≡ line.log ++ (m ∷ []))
    × ((j : String)
        → pending after.0 j ≡ (
            if ("bob" == j) && queues "bob" line office
            then pending line j ++ (m ∷ [])
            else pending line j))
tell_appends_example = tell_appends "sue" "bob" 9 "hi" line office from_sue

registry_fits : RegistryIsValid office
unfolding get
registry_fits = record {
  keyed = λ id a h. ground (arith, eq_iff "1" id, eq_iff "2" id);
  named = λ n id h. leads n id h;
}
  where
    leads :
        (n id : String)
        → get n office.name_idx ≡ some id
        → (a : Agent) × (get id office.agents ≡ some a) × (a.name ≡ n)
    leads n id h = elim (Bool-cases ("sue" == n)) [
      | inl first ↦
          let at : id ≡ "1" = ground arith in
          (sue, subst (λ i. get i office.agents ≡ some sue) (sym at) refl, (eq_iff "sue" n).0 first)
      | inr later ↦
          let at : id ≡ "2" = ground arith in
          (
            bob,
            subst (λ i. get i office.agents ≡ some bob) (sym at) refl,
            ground (arith, eq_iff "bob" n, eq_iff "sue" n),
          )
    ]

-- What Bob's harness says of itself.
abbrev info : AgentInfo
info = record {
  harness = "codex";
  model = "m";
  project = "";
  repo_url = "";
  repo_root = "";
  main_repo_root = "";
  worktree_kind = "";
  worktree = "";
  branch = "";
  cwd = "";
  role = "";
}

unused_id : get "9" office.agents ≡ none
unfolding get
unused_id = refl

bob_found : agent_by_name "bob" office ≡ some bob
unfolding agent_by_name get
bob_found = refl

-- Bob registers again while his lease is live.
abbrev again : State × Response
again = op_register 9 "9" (some "k") "bob" 22 info office

again_succeeds : again.1 ≡ ok (registered "bob" "2" (9 + lease_ttl) "k" "worker")
unfolding op_register register_with pid_taken session_clash agent_by_name get register_as
    registered_agent
again_succeeds = refl

register_binds_example :
    (a : Agent) × (agent_by_name "bob" again.0 ≡ some a)
    × (a.name ≡ "bob")
    × (a.pid ≡ 22)
    × (a.expires_at ≡ 9 + lease_ttl)
register_binds_example =
    register_binds 9 "9" (some "k") "bob" 22 info office
      (registered "bob" "2" (9 + lease_ttl) "k" "worker") registry_fits again_succeeds

register_keeps_example :
    (a : Agent) × (agent_by_name "bob" again.0 ≡ some a)
    × (a.agent_id ≡ "2")
    × (a.pid ≡ 22)
    × Agrees info.harness bob.harness
    × (((bob.harness == "") ≡ true) ⊎ (a.harness ≡ "codex"))
    × Agrees info.cwd bob.cwd
    × (((bob.cwd == "") ≡ true) ⊎ (a.cwd ≡ ""))
register_keeps_example =
    register_keeps 9 "9" (some "k") "bob" 22 info office
      (registered "bob" "2" (9 + lease_ttl) "k" "worker") bob registry_fits bob_found (omega arith)
      again_succeeds

abbrev again_bob : Agent
again_bob = record bob { pubkey = "k"; model = "m"; last_seen_at = 9; expires_at = 9 + lease_ttl }

bob_again : get "2" again.0.agents ≡ some again_bob
unfolding get op_register register_with pid_taken session_clash agent_by_name register_as
    persist_agent enqueue_write index_agent put registered_agent
bob_again = refl

register_pid_exclusive_example : again_bob.name ≡ "bob"
register_pid_exclusive_example =
    register_pid_exclusive 9 "9" (some "k") "bob" 22 info office
      (registered "bob" "2" (9 + lease_ttl) "k" "worker") registry_fits refl again_succeeds "2"
      again_bob bob_again refl (omega arith)

-- Bob registers again, the lease of Sue is renewed, Bob leaves, and the sweeper finds Sue expired.
abbrev calls : List (ℕ × AgentCall)
calls =
    (9, AgentCall.register "9" (some "k") "bob" 22 info)
    ∷ (10, AgentCall.touch "sue")
    ∷ (11, AgentCall.unregister "bob")
    ∷ (4000000000000, AgentCall.tick)
    ∷ []

agent_run-Valid_example : RegistryIsValid (agent_run calls office)
agent_run-Valid_example =
    agent_run-Valid calls office (unused_id, (tt, (tt, (tt, tt)))) registry_fits

good_name : valid_room_name "fix-1" ≡ true
unfolding valid_room_name all_chars room_name_char
good_name = refl

-- The office with that channel
abbrev talking : State
talking = record office { channels = ("bob-sue", line) ∷ [] }

found_sue : agent_by_name "sue" talking ≡ some sue
found_sue = unfold agent_by_name get in refl

op_channels-lists_example :
    (cs : List Channel) × (op_channels "sue" talking
      ≡ ok (
          channel_rows (
            map
              (λ (c : Channel).
                (if "sue" == c.peer_a then c.peer_b else c.peer_a, length (pending c "sue"), c.seq))
              cs)))
    × IsSorted cs
    × Perm cs (keep (is_in "sue") (values talking.channels))
op_channels-lists_example = op_channels-lists "sue" talking sue refl found_sue
