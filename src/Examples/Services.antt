-- ===== src/Examples/Services.antt =====
-- The theorems on signatures, dispatch, the shutdown and the queues of a channel, at concrete
-- requests. The cryptography is a toy that has the laws the theorems ask for.
use Prim.Native.Nat.{zero, suc}
use Prim.Native.Char.{code}
use Prim.Native.String.{len}
use lalia.Prelude.{
  ℕ, ◌≡◌, ◌+◌, ◌⊎◌, refl, ap, ◌∙◌, String, Bool, true, false, none, some, List, [], ◌∷◌, map,
  if◌then◌else◌, eqb, ◌==◌, contains, Distinct, arith, eq_iff, subst, Bool-cases, inl, inr,
}
use lalia.Prelude.Dict.{Dict, get, get_or, put}
use lalia.Types.{Agent, Channel, State}
use lalia.Response.{Reason, answered, err, code_unauthorized}
use lalia.Signing.{
  Json, text, number, Bytes, Crypto, keys, text_arg, canonical_args, sign_request, verify_request,
}
use lalia.Signing.Laws.{CryptoLaws, canonical_args-same, verify_request-sign_request}
use lalia.Registry.{agent_by_name, by_id, renew_lease}
use lalia.Worktree.{Git}
use lalia.Dispatch.{World, is_open, handle, dispatch}
use lalia.Dispatch.Gate.{IsAuthentic, dispatch-gate, dispatch-signed}
use lalia.Rooms.Valid.{RoomsValid}
use lalia.Dispatch.Daemon.{Event, daemon, daemon-RoomsValid}
use lalia.Shutdown.{request_stop}
use lalia.Shutdown.Release.{IsReleased, request_stop-IsReleased}
use lalia.Channel.{pending}
use lalia.Channel.Fifo.{Mail, Call, Holds, box, name, code_run, spec_run, code_run-refines}
use lalia.Examples.{agent, sue, office}

abbrev write_number : ℕ → String → String
write_number zero s = String.◌∷◌ "b" s
write_number (suc n) s = String.◌∷◌ "a" (write_number n s)

abbrev write_bytes : Bytes → String
write_bytes [] = String.[]
write_bytes (n ∷ b) = write_number n (write_bytes b)

abbrev bump : Bytes → Bytes
bump [] = []
bump (n ∷ b) = suc n ∷ b

abbrev read_bytes : String → Bytes
read_bytes String.[] = []
read_bytes (String.◌∷◌ c s) = if eqb (code c) b'b' then 0 ∷ read_bytes s else bump (read_bytes s)

read-write_number : (n : ℕ) (s : String) → read_bytes (write_number n s) ≡ n ∷ read_bytes s
read-write_number zero s = refl
read-write_number (suc n) s = ap bump (read-write_number n s)

read-write_bytes : (b : Bytes) → read_bytes (write_bytes b) ≡ b
read-write_bytes [] = refl
read-write_bytes (n ∷ b) =
    read-write_number n (write_bytes b) ∙ ap (λ t. n ∷ t) (read-write_bytes b)

abbrev repeat : ℕ → ℕ → Bytes
repeat zero n = []
repeat (suc k) n = n ∷ repeat k n

abbrev sum : Bytes → ℕ
sum [] = 0
sum (n ∷ b) = n + sum b

abbrev head : Bytes → ℕ
head [] = 0
head (n ∷ b) = n

abbrev weight : String × Json → ℕ
weight (k, text s) = len k + len s
weight (k, number n) = len k + n
weight (k, _) = len k

abbrev toy : Crypto
toy = record {
  marshal = map weight;
  null_text = 0 ∷ [];
  hex_encode = write_bytes;
  hex_decode = λ s. some (read_bytes s);
  sign = λ priv b. repeat 64 (sum priv + sum b);
  verify = λ key b sig. eqb (head sig) (head key + sum b);
  public_key = λ priv. repeat 32 (sum priv);
}

toy_laws : CryptoLaws toy
toy_laws = record {
  decode_encode = λ b. ap some (read-write_bytes b);
  decode_nothing = refl;
  key_size = λ priv. refl;
  signature_size = λ priv b. refl;
  verify_sign = λ priv b. ground arith;
}

abbrev tell_args : Dict Json
tell_args = ("from", text "bob") ∷ ("peer", text "sue") ∷ ("body", text "hi") ∷ []

abbrev shuffled_args : Dict Json
shuffled_args =
    ("body", text "hi") ∷ ("sig", text "ab") ∷ ("from", text "bob") ∷ ("peer", text "sue") ∷ []

tell_args-Distinct : Distinct (keys tell_args)
tell_args-Distinct = unfold contains in (refl, (refl, (refl, tt)))

shuffled_args-Distinct : Distinct (keys shuffled_args)
shuffled_args-Distinct = unfold contains in (refl, (refl, (refl, (refl, tt))))

same_args : (k : String) → (k == "sig") ≡ false → get k tell_args ≡ get k shuffled_args
unfolding get
same_args k h = elim (Bool-cases ("body" == k)) [
  | inl is_body ↦ at_key "body" is_body refl
  | inr not_body ↦ elim (Bool-cases ("from" == k)) [
    | inl is_from ↦ at_key "from" is_from refl
    | inr not_from ↦
        let not_sig : ("sig" == k) ≡ false = ground (arith, h, eq_iff "sig" k, eq_iff k "sig") in
        rw (not_body, not_from, not_sig) refl
  ]
]
  where
    at_key :
        (t : String)
        → (t == k) ≡ true
        → get t tell_args ≡ get t shuffled_args
        → get k tell_args ≡ get k shuffled_args
    at_key t e same = subst (λ x. get x tell_args ≡ get x shuffled_args) ((eq_iff t k).0 e) same

canonical_args-same_example :
    canonical_args toy (some tell_args) ≡ canonical_args toy (some shuffled_args)
canonical_args-same_example =
    canonical_args-same toy tell_args shuffled_args tell_args-Distinct shuffled_args-Distinct
      same_args

abbrev secret : Bytes
secret = 1 ∷ 2 ∷ []

abbrev signature : Json
signature = text (sign_request toy secret (some tell_args))

verify_request-sign_request_example :
    verify_request toy (toy.hex_encode (toy.public_key secret)) (put "sig" signature tell_args)
    ≡ none
verify_request-sign_request_example =
    verify_request-sign_request toy toy_laws secret tell_args tell_args-Distinct

-- Bob, with the public key of that secret
abbrev keyed_bob : Agent
keyed_bob = record (agent "2" "bob" "worker" 22) { pubkey = toy.hex_encode (toy.public_key secret) }

abbrev keyed_office : State
keyed_office = record office { agents = ("1", sue) ∷ ("2", keyed_bob) ∷ [] }

abbrev no_git : Git
no_git = record {
  canonical = λ p. p;
  listing = none;
  exists = λ p. false;
  mkdir_ok = false;
  add_ok = false;
}

abbrev world : World
world = record {
  now = 50;
  fresh_id = "9";
  ensure_key = λ name. none;
  nicknames = [];
  is_ulid = λ s. false;
  crypto = toy;
  abs = λ p. some p;
  root_is_dir = false;
  git = λ slug. no_git;
  target = λ slug. slug;
  is_clean = true;
  is_removed = true;
}

tell_is_gated : is_open "tell" ≡ false
tell_is_gated = unfold is_open in refl

from_bob : (text_arg "from" tell_args == "") ≡ false
from_bob = unfold text_arg get in refl

found_bob : agent_by_name (text_arg "from" tell_args) keyed_office ≡ some keyed_bob
found_bob = unfold agent_by_name by_id text_arg get in refl

-- Without a signature the second case holds.
dispatch-gate_example :
    (IsAuthentic world.crypto tell_args keyed_office
      × (dispatch world "tell" tell_args keyed_office
          ≡ handle world "tell" tell_args
              (renew_lease world.now (text_arg "from" tell_args) keyed_office)))
    ⊎ ((reason : Reason) × (dispatch world "tell" tell_args keyed_office
          ≡ (keyed_office, answered (err code_unauthorized reason))))
dispatch-gate_example = dispatch-gate world "tell" tell_args keyed_office refl from_bob

dispatch-signed_example :
    dispatch world "tell" (put "sig" signature tell_args) keyed_office
    ≡ handle world "tell"
        (put "sig" signature tell_args)
        (renew_lease world.now (text_arg "from" tell_args) keyed_office)
dispatch-signed_example =
    dispatch-signed world "tell" tell_args keyed_office keyed_bob secret toy_laws tell_args-Distinct
      tell_is_gated from_bob found_bob refl refl

-- Bob makes a room, waits in it in vain, and tells Sue something without a signature.
abbrev room_args : Dict Json
room_args = ("from", text "bob") ∷ ("name", text "new") ∷ []

abbrev wait_args : Dict Json
wait_args = ("from", text "bob") ∷ ("room", text "new") ∷ ("timeout", number 2) ∷ []

abbrev signed : Dict Json → Dict Json
signed args = put "sig" (text (sign_request toy secret (some args))) args

abbrev day : List Event
day =
    Event.request world "room_create" (signed room_args)
    ∷ Event.request world "read" (signed wait_args)
    ∷ Event.room_timeout "bob" "new"
    ∷ Event.request world "tell" tell_args
    ∷ Event.tick 60
    ∷ []

abbrev vacant : State
vacant = record keyed_office { rooms = [] }

daemon-RoomsValid_example : RoomsValid (daemon day vacant).rooms
daemon-RoomsValid_example = daemon-RoomsValid day vacant tt

-- A channel in which Sue waits for a message
abbrev waiting_office : State
waiting_office = record office {
  channels =
      (
        "k",
        record {
          peer_a = "bob";
          peer_b = "sue";
          seq = 0;
          log = [];
          mailbox = [];
          waiter = ("sue", 4) ∷ [];
        },
      )
      ∷ [];
}

request_stop-IsReleased_example :
    (s' : State) × (request_stop false waiting_office ≡ some s') × IsReleased waiting_office s'
request_stop-IsReleased_example = request_stop-IsReleased waiting_office

abbrev quiet : Channel
quiet = record { peer_a = "bob"; peer_b = "sue"; seq = 0; log = []; mailbox = []; waiter = [] }

abbrev empty_mail : Mail
empty_mail = record { sent = 0; for_a = []; for_b = [] }

quiet-Holds : Holds "bob" "sue" quiet office empty_mail
unfolding get get_or
quiet-Holds = record {
  first = refl;
  second = refl;
  counted = refl;
  boxes = both;
  no_read = λ side. refl;
  no_read_any = λ side. refl;
}
  where
    both : (side : Bool) → pending quiet (name "bob" "sue" side) ≡ box side empty_mail
    both true = refl
    both false = refl

abbrev calls : List Call
calls =
    Call.send true 3 "hello"
    ∷ Call.send true 4 "again"
    ∷ Call.take false
    ∷ Call.send false 5 "yes"
    ∷ Call.take true
    ∷ Call.take true
    ∷ []

code_run-refines_example :
    Holds "bob" "sue"
      (code_run "bob" "sue" calls (quiet, office)).0.0
      (code_run "bob" "sue" calls (quiet, office)).0.1
      (spec_run "bob" "sue" calls empty_mail).0
    × ((code_run "bob" "sue" calls (quiet, office)).1 ≡ (spec_run "bob" "sue" calls empty_mail).1)
code_run-refines_example =
    code_run-refines "bob" "sue" refl calls quiet office empty_mail quiet-Holds
