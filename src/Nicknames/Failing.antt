-- ===== src/Nicknames/Failing.antt =====
-- nickname.go: a run of `lalia nickname` that fails leaves the file of nicknames alone.
use lalia.Prelude.{
  ◌≡◌, refl, ◌⊎◌, inr, String, Bool, true, Option, none, some, List, [], ◌∷◌, if_both, arith, ◌==◌,
}
use lalia.Prelude.Dict.{Dict, get}
use lalia.Registry.{Nickname}
use lalia.Nicknames.{
  Contents, Loaded, failed, nil_map, loaded, Output, Outcome, Reply, no_reply, error, found,
  cmd_nickname, named_nickname, assign_nickname, assign_loaded, store_nickname, store_stable,
  Saving, save_nicknames, write_tmp, rename_tmp, new_nickname, load_nicknames, list_nicknames,
  delete_found, delete_loaded, delete_nickname, show_found, show_nickname,
}

-- The run exits with 0 or leaves the file as it was.
abbrev pub Keeps : Contents → Outcome → Type 0
Keeps file o = (o.code ≡ 0) ⊎ (o.file ≡ file)

save-Keeps :
    (saved : Saving) (m : Dict Nickname) (done : Output) (file : Contents)
    → Keeps file (save_nicknames saved m done file)
unfolding save_nicknames write_tmp rename_tmp
save-Keeps w m done file = ground arith

list-Keeps : (l : Loaded) (file : Contents) → Keeps file (list_nicknames l file)
unfolding list_nicknames
list-Keeps failed file = inr refl
list-Keeps nil_map file = inr refl
list-Keeps (loaded []) file = inr refl
list-Keeps (loaded (e ∷ m)) file = inr refl

found-Keeps :
    (saved : Saving) (nick : String) (m : Dict Nickname) (n : Option Nickname) (file : Contents)
    → Keeps file (delete_found saved nick m n file)
unfolding delete_found
found-Keeps saved nick m none file = inr refl
found-Keeps saved nick m (some n) file = save-Keeps saved _ _ file

delete-Keeps :
    (saved : Saving) (nick : String) (l : Loaded) (file : Contents)
    → Keeps file (delete_loaded saved nick l file)
unfolding delete_loaded
delete-Keeps saved nick failed file = inr refl
delete-Keeps saved nick nil_map file = inr refl
delete-Keeps saved nick (loaded m) file = found-Keeps saved nick m (get nick m) file

shown-Keeps :
    (nick : String) (n : Option Nickname) (file : Contents) → Keeps file (show_found nick n file)
unfolding show_found
shown-Keeps nick none file = inr refl
shown-Keeps nick (some n) file = inr refl

show-Keeps : (nick : String) (l : Loaded) (file : Contents) → Keeps file (show_nickname nick l file)
unfolding show_nickname
show-Keeps nick failed file = inr refl
show-Keeps nick nil_map file = inr refl
show-Keeps nick (loaded m) file = shown-Keeps nick (get nick m) file

store-Keeps :
    (saved : Saving) (nick : String) (n : Nickname) (l : Loaded) (file : Contents)
    → Keeps file (store_nickname saved nick n l file)
unfolding store_nickname
store-Keeps saved nick n failed file = inr refl
store-Keeps saved nick n nil_map file = inr refl
store-Keeps saved nick n (loaded m) file = save-Keeps saved _ _ file

stable-Keeps :
    (saved : Saving) (nick address : String) (r : Reply) (l : Loaded) (file : Contents)
    → Keeps file (store_stable saved nick address r l file)
unfolding store_stable
stable-Keeps saved nick address no_reply l file = inr refl
stable-Keeps saved nick address (error code) l file = inr refl
stable-Keeps saved nick address (found id) l file = store-Keeps saved nick _ l file

assign-Keeps :
    (saved : Saving) (resolve : String → Reply) (follow : Bool) (l : Loaded) (nick address : String)
    (file : Contents)
    → Keeps file (assign_loaded saved resolve follow nick address l file)
unfolding assign_loaded
assign-Keeps saved resolve follow failed nick address file = inr refl
assign-Keeps saved resolve follow nil_map nick address file =
    if_both (Keeps file) follow (store-Keeps saved nick (new_nickname true "" address) nil_map file)
      (stable-Keeps saved nick address (resolve address) nil_map file)
assign-Keeps saved resolve follow (loaded m) nick address file =
    if_both (Keeps file) follow
      (store-Keeps saved nick (new_nickname true "" address) (loaded m) file)
      (stable-Keeps saved nick address (resolve address) (loaded m) file)

args-Keeps :
    (saved : Saving) (resolve : String → Reply) (follow : Bool) (args : List String)
    (file : Contents)
    → Keeps file (assign_nickname saved resolve follow args file)
unfolding assign_nickname
args-Keeps saved resolve follow [] file = inr refl
args-Keeps saved resolve follow (nick ∷ []) file = inr refl
args-Keeps saved resolve follow (nick ∷ address ∷ more) file =
    assign-Keeps saved resolve follow (load_nicknames file) nick address file

named-Keeps :
    (saved : Saving) (resolve : String → Reply) (nick : String) (args : List String)
    (file : Contents)
    → Keeps file (named_nickname saved resolve nick args file)
unfolding named_nickname
named-Keeps saved resolve nick [] file = show-Keeps nick (load_nicknames file) file
named-Keeps saved resolve nick (a ∷ args) file = args-Keeps saved resolve _ _ file

dropped-Keeps :
    (saved : Saving) (args : List String) (file : Contents)
    → Keeps file (delete_nickname saved args file)
unfolding delete_nickname
dropped-Keeps saved [] file = inr refl
dropped-Keeps saved (nick ∷ more) file = delete-Keeps saved nick (load_nicknames file) file

-- Whatever the arguments of `lalia nickname`, the file, the answer of the daemon and the outcome of
-- writing: the run exits with 0 or leaves the file of nicknames as it was.
pub cmd_nickname-Keeps :
    (saved : Saving) (resolve : String → Reply) (args : List String) (file : Contents)
    → Keeps file (cmd_nickname saved resolve args file)
unfolding cmd_nickname
cmd_nickname-Keeps saved resolve [] file = list-Keeps (load_nicknames file) file
cmd_nickname-Keeps saved resolve (a ∷ args) file =
    if_both (Keeps file) (a == "-d") (dropped-Keeps saved args file)
      (named-Keeps saved resolve a args file)
