-- ===== src/Dispatch/Decode.antt =====
-- The arguments of a request, as opRegister, opRead, opTaskPublish and opTaskUnpublish take them
-- from the decoded JSON.
use lalia.Prelude.{ℕ, String, Bool, false, Option, none, some, List, [], ◌∷◌, if◌then◌else◌, ◌==◌}
use lalia.Prelude.Dict.{Dict, get}
use lalia.Types.{Contract}
use lalia.Signing.{
  Json, flag, number, text, array, object, Items, nil, item, Fields, end, field, text_of, text_arg,
}
use lalia.Session.{AgentInfo}
use lalia.Publish.{WsInput}

number_of : Option Json → ℕ
number_of (some (number n)) = n
number_of _ = 0

-- args[key].(float64)
unfoldable pub number_arg : String → Dict Json → ℕ
unfolding number_of
number_arg k args = number_of (get k args)

flag_of : Option Json → Bool
flag_of (some (flag b)) = b
flag_of _ = false

-- args[key].(bool)
unfoldable pub flag_arg : String → Dict Json → Bool
unfolding flag_of
flag_arg k args = flag_of (get k args)

unfoldable pub agent_info : Dict Json → AgentInfo
agent_info args = record {
  harness = text_arg "harness" args;
  model = text_arg "model" args;
  project = text_arg "project" args;
  repo_url = text_arg "repo_url" args;
  repo_root = text_arg "repo_root" args;
  main_repo_root = text_arg "main_repo_root" args;
  worktree_kind = text_arg "worktree_kind" args;
  worktree = text_arg "worktree" args;
  branch = text_arg "branch" args;
  cwd = text_arg "cwd" args;
  role = text_arg "role" args;
}

-- m[key] in a decoded object
unfoldable pub member : String → Fields → Option Json
member k end = none
member k (field j v rest) = if j == k then some v else member k rest

-- The loop over the owned paths
paths_of : Items → List String
paths_of nil = []
paths_of (item (text p) rest) = p ∷ paths_of rest
paths_of (item _ rest) = paths_of rest

owned_paths_of : Option Json → List String
owned_paths_of (some (array items)) = paths_of items
owned_paths_of _ = []

-- The loop over the contracts
contracts_in : Items → List Contract
contracts_in nil = []
contracts_in (item (object m) rest) =
    record { other_slug = text_of (member "other_slug" m); note = text_of (member "note" m) }
    ∷ contracts_in rest
contracts_in (item _ rest) = contracts_in rest

contracts_of : Option Json → List Contract
contracts_of (some (array items)) = contracts_in items
contracts_of _ = []

-- One entry of the payload; `none` stands for an entry that is no object
unfoldable pub workstream : Json → Option WsInput
unfolding owned_paths_of paths_of contracts_of contracts_in
workstream (object m) = some record {
  slug = text_of (member "slug" m);
  branch = text_of (member "branch" m);
  brief = text_of (member "brief" m);
  owned_paths = owned_paths_of (member "owned_paths" m);
  contracts = contracts_of (member "contracts" m);
}
workstream _ = none

all_workstreams : Items → List (Option WsInput)
all_workstreams nil = []
all_workstreams (item v rest) = workstream v ∷ all_workstreams rest

workstreams_of : Option Json → List (Option WsInput)
workstreams_of (some (array items)) = all_workstreams items
workstreams_of _ = []

-- args["workstreams"].([]any)
unfoldable pub workstreams : Dict Json → List (Option WsInput)
unfolding workstreams_of all_workstreams
workstreams args = workstreams_of (get "workstreams" args)
