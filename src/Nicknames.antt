-- ===== src/Nicknames.antt =====
-- nickname.go: the file of nicknames and the command `lalia nickname`. The answer of the daemon to
-- the request `resolve`, and which steps of writing the file succeed, are arguments.
pub mod Resolving
pub mod Failing
use lalia.Prelude.{
  ℕ, String, Bool, true, false, not, Option, none, some, List, [], ◌∷◌, if◌then◌else◌, ◌==◌,
  contains,
}
use lalia.Prelude.Dict.{Dict, get, put, remove}
use lalia.Registry.{Nickname}
use lalia.Signing.{keys}
use lalia.Text.{sort_strings}

-- nicknames.json: no such file, one that cannot be read, one that is no map of nicknames, the value
-- null, and a map. The mode of an entry is `stable` or `follow`, as saveNicknames writes it.
pub data Contents : Type 0 where
  missing unreadable malformed null : Contents
  entries : Dict Nickname → Contents

-- What loadNicknames returns: an error, the nil map, or a map.
pub data Loaded : Type 0 where
  failed nil_map : Loaded
  loaded : Dict Nickname → Loaded

-- loadNicknames
unfoldable pub load_nicknames : Contents → Loaded
load_nicknames missing = loaded []
load_nicknames unreadable = failed
load_nicknames malformed = failed
load_nicknames null = nil_map
load_nicknames (entries m) = loaded m

-- What the command prints: the rows of the list, one nickname, the name it assigned, nothing, or an
-- error. `panicked` is the assignment to an entry of the nil map.
pub data Output : Type 0 where
  listing : List (String × Option Nickname) → Output
  shown : String → Nickname → Output
  assigned : String → Output
  silent : Output
  usage not_found load_failed save_failed unreachable refused panicked : Output

-- The output, the exit code, and the file that is left
pub record Outcome : Type 0 where
  pub output : Output
  pub code : ℕ
  pub file : Contents

abbrev exit_with : Output → ℕ → Contents → Outcome
exit_with output code file = record { output = output; code = code; file = file }

-- request("resolve", ...): the daemon is not reached, answers with an error, or gives the agent id.
pub data Reply : Type 0 where
  no_reply : Reply
  error : ℕ → Reply
  found : String → Reply

-- Whether os.MkdirAll, os.WriteFile and os.Rename succeed; the encoding of a map does not fail.
pub record Saving : Type 0 where
  pub mkdir_ok : Bool
  pub write_ok : Bool
  pub rename_ok : Bool

-- nicknames.json and nicknames.json.tmp
pub record Folder : Type 0 where
  pub file : Contents
  pub tmp : Contents

-- os.WriteFile of the temporary file, which a failure may leave cut off
unfoldable pub write_tmp : Bool → Dict Nickname → Folder → Folder
write_tmp ok m d = record d { tmp = if ok then entries m else malformed }

-- os.Rename of the temporary file
unfoldable pub rename_tmp : Bool → Folder → Folder
rename_tmp ok d = if ok then record d { file = d.tmp; tmp = missing } else d

-- saveNicknames, with what the command prints and its exit code; no code reads the temporary file
-- that may be left.
unfoldable pub save_nicknames : Saving → Dict Nickname → Output → Contents → Outcome
unfolding write_tmp rename_tmp
save_nicknames w m done file =
    let before : Folder = record { file = file; tmp = missing } in
    let filled = write_tmp w.write_ok m before in
    let renamed = rename_tmp w.rename_ok filled in
    if not w.mkdir_ok
    then exit_with save_failed 1 before.file
    else if not w.write_ok
    then exit_with save_failed 1 filled.file
    else if not w.rename_ok
    then exit_with save_failed 1 renamed.file
    else exit_with done 0 renamed.file

abbrev rows : List String → Dict Nickname → List (String × Option Nickname)
rows [] m = []
rows (k ∷ ks) m = (k, get k m) ∷ rows ks m

-- cmdNickname without arguments
unfoldable pub list_nicknames : Loaded → Contents → Outcome
list_nicknames failed file = exit_with load_failed 1 file
list_nicknames nil_map file = exit_with silent 0 file
list_nicknames (loaded []) file = exit_with silent 0 file
list_nicknames (loaded (e ∷ m)) file =
    exit_with (listing (rows (sort_strings (keys (e ∷ m))) (e ∷ m))) 0 file

-- The deletion of a name that was looked up
unfoldable pub delete_found : Saving → String → Dict Nickname → Option Nickname → Contents → Outcome
unfolding save_nicknames
delete_found saved nick m none file = exit_with not_found 5 file
delete_found saved nick m (some n) file = save_nicknames saved (remove nick m) silent file

unfoldable pub delete_loaded : Saving → String → Loaded → Contents → Outcome
unfolding delete_found
delete_loaded saved nick failed file = exit_with load_failed 1 file
delete_loaded saved nick nil_map file = exit_with not_found 5 file
delete_loaded saved nick (loaded m) file = delete_found saved nick m (get nick m) file

-- cmdNickname after the flag -d
unfoldable pub delete_nickname : Saving → List String → Contents → Outcome
unfolding delete_loaded load_nicknames
delete_nickname saved [] file = exit_with usage 1 file
delete_nickname saved (nick ∷ more) file = delete_loaded saved nick (load_nicknames file) file

unfoldable pub show_found : String → Option Nickname → Contents → Outcome
show_found nick none file = exit_with not_found 5 file
show_found nick (some n) file = exit_with (shown nick n) 0 file

-- cmdNickname with a name alone
unfoldable pub show_nickname : String → Loaded → Contents → Outcome
unfolding show_found
show_nickname nick failed file = exit_with load_failed 1 file
show_nickname nick nil_map file = exit_with not_found 5 file
show_nickname nick (loaded m) file = show_found nick (get nick m) file

-- The loop that takes the first --follow out of the arguments
unfoldable pub without_follow : List String → List String
without_follow [] = []
without_follow (a ∷ args) =
    let rest = without_follow args in if a == "--follow" then args else a ∷ rest

unfoldable pub new_nickname : Bool → String → String → Nickname
new_nickname follow id address = record { follow = follow; agent_id = id; address = address }

-- nicknames[nick] = n, and the end of cmdNickname
unfoldable pub store_nickname : Saving → String → Nickname → Loaded → Contents → Outcome
unfolding save_nicknames
store_nickname saved nick n failed file = exit_with load_failed 1 file
store_nickname saved nick n nil_map file = exit_with panicked 2 file
store_nickname saved nick n (loaded m) file =
    save_nicknames saved (put nick n m) (assigned nick) file

-- The stable case, after the daemon's answer
unfoldable pub store_stable : Saving → String → String → Reply → Loaded → Contents → Outcome
unfolding store_nickname new_nickname
store_stable saved nick address no_reply m file = exit_with unreachable 1 file
store_stable saved nick address (error code) m file = exit_with refused code file
store_stable saved nick address (found id) m file =
    store_nickname saved nick (new_nickname false id address) m file

unfoldable pub assign_loaded :
    Saving → (String → Reply) → Bool → String → String → Loaded → Contents → Outcome
unfolding store_nickname store_stable new_nickname
assign_loaded saved resolve follow nick address failed file = exit_with load_failed 1 file
assign_loaded saved resolve follow nick address nil_map file =
    if follow
    then store_nickname saved nick (new_nickname true "" address) nil_map file
    else store_stable saved nick address (resolve address) nil_map file
assign_loaded saved resolve follow nick address (loaded m) file =
    if follow
    then store_nickname saved nick (new_nickname true "" address) (loaded m) file
    else store_stable saved nick address (resolve address) (loaded m) file

-- cmdNickname with a name and an address, which are what is left of the arguments
unfoldable pub assign_nickname : Saving → (String → Reply) → Bool → List String → Contents → Outcome
unfolding assign_loaded load_nicknames
assign_nickname saved resolve follow [] file = exit_with usage 1 file
assign_nickname saved resolve follow (nick ∷ []) file = exit_with usage 1 file
assign_nickname saved resolve follow (nick ∷ address ∷ more) file =
    assign_loaded saved resolve follow nick address (load_nicknames file) file

unfoldable pub named_nickname :
    Saving → (String → Reply) → String → List String → Contents → Outcome
unfolding assign_nickname show_nickname load_nicknames without_follow contains
named_nickname saved resolve nick [] file = show_nickname nick (load_nicknames file) file
named_nickname saved resolve nick (a ∷ args) file =
    assign_nickname saved resolve (contains "--follow" (nick ∷ a ∷ args))
      (without_follow (nick ∷ a ∷ args)) file

-- cmdNickname
unfoldable pub cmd_nickname : Saving → (String → Reply) → List String → Contents → Outcome
unfolding named_nickname delete_nickname list_nicknames load_nicknames
cmd_nickname saved resolve [] file = list_nicknames (load_nicknames file) file
cmd_nickname saved resolve (a ∷ args) file =
    if a == "-d" then delete_nickname saved args file else named_nickname saved resolve a args file
