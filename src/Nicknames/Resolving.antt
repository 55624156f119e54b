-- ===== src/Nicknames/Resolving.antt =====
-- nickname.go with identity.go: how the names that `lalia nickname` assigns resolve afterwards.
use lalia.Prelude.{
  ◌≡◌, refl, ◌∙◌, ap, String, Bool, true, false, some, List, ◌∷◌, if◌then◌else◌, ◌==◌, contains,
  eq_refl,
}
use lalia.Prelude.Dict.{Dict, get, put, get-put}
use lalia.Types.{State, Agent}
use lalia.Registry.{Nickname, resolved, resolve_address, resolve_address_inner}
use lalia.Nicknames.{
  Contents, Outcome, assigned, entries, Reply, found, cmd_nickname, named_nickname, assign_nickname,
  assign_loaded, store_nickname, store_stable, Saving, save_nicknames, write_tmp, rename_tmp,
  without_follow, new_nickname, load_nicknames,
}

-- Every step of writing the file succeeds.
abbrev pub all_saved : Saving
all_saved = record { mkdir_ok = true; write_ok = true; rename_ok = true }

-- The file after an assignment of the name
abbrev pub after : Bool → String → String → String → Dict Nickname → Dict Nickname
after follow nick id address m =
    put nick (new_nickname follow (if follow then "" else id) address) m

assign-after :
    (resolve : String → Reply) (follow : Bool) (nick address id : String) (more : List String)
    (m : Dict Nickname)
    → resolve address ≡ found id
    → assign_nickname all_saved resolve follow (nick ∷ address ∷ more) (entries m)
      ≡ record { output = assigned nick; code = 0; file = entries (after follow nick id address m) }
unfolding assign_nickname assign_loaded store_nickname store_stable save_nicknames load_nicknames
    write_tmp rename_tmp
assign-after resolve true nick address id more m h = refl
assign-after resolve false nick address id more m h = rw h refl

cmd-assign :
    (resolve : String → Reply) (a b : String) (args rest : List String) (file : Contents)
    → (a == "-d") ≡ false
    → without_follow (a ∷ b ∷ args) ≡ rest
    → cmd_nickname all_saved resolve (a ∷ b ∷ args) file
      ≡ assign_nickname all_saved resolve (contains "--follow" (a ∷ b ∷ args)) rest file
unfolding cmd_nickname named_nickname
cmd-assign resolve a b args rest file h k = rw (h, k) refl

resolve-after :
    (is_ulid : String → Bool) (s : State) (follow : Bool) (nick address id : String) (agent : Agent)
    (m : Dict Nickname)
    → get id s.agents ≡ some agent
    → resolve_address is_ulid (after follow nick id address m) nick s
      ≡ (if follow then resolve_address_inner is_ulid address s else resolved id)
unfolding resolve_address new_nickname
resolve-after is_ulid s true nick address id agent m h =
    rw (get-put nick nick (new_nickname true "" address) m, eq_refl nick) refl
resolve-after is_ulid s false nick address id agent m h =
    rw (get-put nick nick (new_nickname false id address) m, eq_refl nick, h) refl

-- The run exits with 0 and leaves a file in which the name resolves to what the address resolves to,
-- or to the agent it named when it was assigned, and every other name is as it was.
abbrev pub Binds :
    (String → Bool) → State → Bool → String → String → String → Dict Nickname → Outcome → Type 0
Binds is_ulid s follow nick address id m o =
    (later : Dict Nickname) × (o.code ≡ 0)
    × (o.file ≡ entries later)
    × (resolve_address is_ulid later nick s
        ≡ (if follow then resolve_address_inner is_ulid address s else resolved id))
    × ((k : String)
        → get k later ≡ (
            if nick == k
            then some (new_nickname follow (if follow then "" else id) address)
            else get k m))

-- When `lalia nickname` is given a name and an address after the first --follow is taken out, the
-- first argument is not -d, the file is a map and can be written, and the daemon resolves the
-- address to the id of a registered agent: the run exits with 0, and in the file that is left the
-- name resolves to that agent, or, with --follow, to what the stored address resolves to by itself;
-- the name stands for the new entry, and every other name is as it was.
pub cmd_nickname-resolves :
    (is_ulid : String → Bool) (resolve : String → Reply) (s : State) (a b : String)
    (args more : List String) (nick address id : String) (agent : Agent) (m : Dict Nickname)
    → (a == "-d") ≡ false
    → without_follow (a ∷ b ∷ args) ≡ nick ∷ address ∷ more
    → resolve address ≡ found id
    → get id s.agents ≡ some agent
    → Binds is_ulid s
        (contains "--follow" (a ∷ b ∷ args))
        nick
        address
        id
        m
        (cmd_nickname all_saved resolve (a ∷ b ∷ args) (entries m))
cmd_nickname-resolves is_ulid resolve s a b args more nick address id agent m h k r g =
    let follow = contains "--follow" (a ∷ b ∷ args) in
    let run =
      cmd-assign resolve a b args (nick ∷ address ∷ more) (entries m) h k
      ∙ assign-after resolve follow nick address id more m r in
    (
      after follow nick id address m,
      ap (λ o. o.code) run,
      ap (λ o. o.file) run,
      resolve-after is_ulid s follow nick address id agent m g,
      λ j. get-put nick j (new_nickname follow (if follow then "" else id) address) m,
    )
