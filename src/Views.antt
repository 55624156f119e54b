-- ===== src/Views.antt =====
-- state.go and room.go: opAgents, opResolve and opRooms, and the shutdown of the daemon.
use lalia.Prelude.{ℕ, String, Bool, List, [], ◌∷◌, if◌then◌else◌, ltb, ◌==◌, length}
use lalia.Prelude.Dict.{Dict}
use lalia.Types.{Room, Agent, State}
use lalia.Response.{
  Response, ok, error_response, RoomRow, AgentRow, agent_rows, room_rows, agent_resolved,
  code_error, code_not_found, missing_from, missing_address, address_not_found,
}
use lalia.Text.{str_lt}
use lalia.Registry.{Nickname, Resolution, resolved, resolve_address, qualified_name}

agent_row : ℕ → Agent → AgentRow
agent_row now a = record { agent = a; qualified = qualified_name a; live = ltb now a.expires_at }

unfoldable pub list_agents : ℕ → Dict Agent → List AgentRow
unfolding agent_row
list_agents now [] = []
list_agents now ((id, a) ∷ rest) = agent_row now a ∷ list_agents now rest

-- opAgents, in the order of the map
unfoldable pub op_agents : ℕ → State → Response
op_agents now s = ok (agent_rows (list_agents now s.agents))

answer_resolution : Resolution → Response
answer_resolution (resolved id) = ok (agent_resolved id)
answer_resolution _ = error_response code_not_found address_not_found

-- opResolve
unfoldable pub op_resolve : (String → Bool) → Dict Nickname → String → State → Response
unfolding answer_resolution
op_resolve is_ulid nicknames address s =
    if address == ""
    then error_response code_error missing_address
    else answer_resolution (resolve_address is_ulid nicknames address s)

-- sort.Slice, by name
unfoldable pub insert_room : Room → List Room → List Room
insert_room x [] = x ∷ []
insert_room x (y ∷ ys) = if str_lt y.name x.name then y ∷ insert_room x ys else x ∷ y ∷ ys

unfoldable pub sort_rooms : Dict Room → List Room
sort_rooms [] = []
sort_rooms ((k, r) ∷ rest) = insert_room r (sort_rooms rest)

room_row : Room → RoomRow
room_row r = record {
  name = r.name;
  desc = r.desc;
  members = length r.members;
  messages = r.seq;
  archived = r.archived;
  created_by = r.created_by;
  created_at = r.created_at;
}

unfoldable pub list_rooms : List Room → List RoomRow
unfolding room_row
list_rooms [] = []
list_rooms (r ∷ rs) = room_row r ∷ list_rooms rs

-- opRooms
unfoldable pub op_rooms : String → State → Response
op_rooms from s =
    if from == ""
    then error_response code_error missing_from
    else ok (room_rows (list_rooms (sort_rooms s.rooms)))
