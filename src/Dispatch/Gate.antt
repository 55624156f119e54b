-- ===== src/Dispatch/Gate.antt =====
-- state.go and signing.go: who may cause a request to be handled.
use lalia.Prelude.{
  ◌≡◌, refl, ap, ◌∙◌, ◌⊎◌, inl, inr, String, Bool, false, ◌||◌, Option, none, some, ◌==◌,
  Bool-cases, Option-cases, Distinct,
}
use lalia.Prelude.Dict.{Dict, put, get-put, get}
use lalia.Types.{Agent, State}
use lalia.Response.{
  Response, err, answered, Reason, error_response, code_unauthorized, not_registered,
  missing_pubkey, signature_rejected,
}
use lalia.Signing.{Json, text, Bytes, Crypto, keys, text_arg, text_of, sign_request, verify_request}
use lalia.Signing.Laws.{CryptoLaws, verify_request-sign_request}
use lalia.Registry.{agent_by_name, renew_lease}
use lalia.Dispatch.{
  World, is_open, check_signature, check_caller, authenticate, handle, renew_caller,
  unless_rejected, dispatch,
}

-- The caller is registered, with a key, and the request has a signature by it.
pub record IsAuthentic (c : Crypto) (args : Dict Json) (s : State) : Type 0 where
  pub agent : Agent
  pub registered : agent_by_name (text_arg "from" args) s ≡ some agent
  pub has_key : (agent.pubkey == "") ≡ false
  pub verified : verify_request c agent.pubkey args ≡ none

pub Rejected : Option Response → Type 0
Rejected o = (reason : Reason) × (o ≡ some (err code_unauthorized reason))

checked :
    (c : Crypto) (args : Dict Json) (s : State) (o : Option Agent)
    → agent_by_name (text_arg "from" args) s ≡ o
    → (IsAuthentic c args s × (check_caller c args o ≡ none)) ⊎ Rejected (check_caller c args o)
unfolding check_caller check_signature Rejected error_response
checked c args s none h = inr (not_registered, refl)
checked c args s (some a) h = elim (Bool-cases (a.pubkey == "")) [
  | inl empty ↦ inr (missing_pubkey, rw empty refl)
  | inr key ↦ elim (Option-cases (verify_request c a.pubkey args)) [
    | inl good ↦
        inl (
          record { agent = a; registered = h; has_key = key; verified = good },
          rw (key, good) refl,
        )
    | inr (e, bad) ↦ inr (signature_rejected, rw (key, bad) refl)
  ]
]

gated-check :
    (c : Crypto) (op : String) (args : Dict Json) (s : State)
    → is_open op ≡ false
    → (text_arg "from" args == "") ≡ false
    → authenticate c op args s ≡ check_caller c args (agent_by_name (text_arg "from" args) s)
unfolding authenticate
gated-check c op args s gated named = rw (gated, named) refl

renew_caller-named :
    (w : World) (args : Dict Json) (s : State)
    → (text_arg "from" args == "") ≡ false
    → renew_caller w args s ≡ renew_lease w.now (text_arg "from" args) s
unfolding renew_caller
renew_caller-named w args s named = rw named refl

dispatch-accepted :
    (w : World) (op : String) (args : Dict Json) (s : State)
    → authenticate w.crypto op args s ≡ none
    → dispatch w op args s ≡ handle w op args (renew_caller w args s)
unfolding dispatch unless_rejected
dispatch-accepted w op args s h = ap (λ r. unless_rejected w r op args s) {y = none} h

dispatch-rejected :
    (w : World) (op : String) (args : Dict Json) (s : State) (r : Response)
    → authenticate w.crypto op args s ≡ some r
    → dispatch w op args s ≡ (s, answered r)
unfolding dispatch unless_rejected
dispatch-rejected w op args s r h = ap (λ o. unless_rejected w o op args s) {y = some r} h

-- The operations that need no signature
abbrev pub is_exempt : String → Bool
is_exempt op = (op == "register") || (op == "stop") || (op == "agents") || (op == "resolve")

-- A request of an operation other than register, stop, agents and resolve that names a caller is
-- handled, after the renewal of the caller's lease, only if the caller is registered with a key and
-- the request has a signature that verifies under that key; otherwise the answer is an error of the
-- code for unauthorized requests, and the state is as it was.
pub dispatch-gate :
    (w : World) (op : String) (args : Dict Json) (s : State)
    → is_exempt op ≡ false
    → (text_arg "from" args == "") ≡ false
    → (IsAuthentic w.crypto args s
        × (dispatch w op args s ≡ handle w op args (renew_lease w.now (text_arg "from" args) s)))
      ⊎ ((reason : Reason) × (dispatch w op args s ≡ (s, answered (err code_unauthorized reason))))
unfolding Rejected is_open
dispatch-gate w op args s gated named =
    elim (checked w.crypto args s (agent_by_name (text_arg "from" args) s) refl) [
      | inl (good, passed) ↦ inl (
        good,
        dispatch-accepted w op args s (gated-check w.crypto op args s gated named ∙ passed)
            ∙ ap (handle w op args) (renew_caller-named w args s named),
      )
      | inr (reason, refused) ↦ inr (
        reason,
        dispatch-rejected w op args s (err code_unauthorized reason)
            (gated-check w.crypto op args s gated named ∙ refused),
      )
    ]

text_arg-put_other :
    (k : String) (v : Json) (args : Dict Json)
    → ("sig" == k) ≡ false
    → text_arg k (put "sig" v args) ≡ text_arg k args
unfolding text_arg
text_arg-put_other k v args other =
    ap text_of {y = get k args} (get-put "sig" k v args ∙ rw other refl)

check_caller-passes :
    (c : Crypto) (args : Dict Json) (a : Agent)
    → (a.pubkey == "") ≡ false
    → verify_request c a.pubkey args ≡ none
    → check_caller c args (some a) ≡ none
unfolding check_caller check_signature
check_caller-passes c args a key good = rw (key, good) refl

-- If the keys and signatures of the cryptographic library have their laws, a request whose arguments
-- have distinct names, signed with the private key of the public key that is registered for its
-- caller, passes the check: it is handled after the renewal of the caller's lease.
pub dispatch-signed :
    (w : World) (op : String) (args : Dict Json) (s : State) (a : Agent) (priv : Bytes)
    → CryptoLaws w.crypto
    → Distinct (keys args)
    → is_open op ≡ false
    → (text_arg "from" args == "") ≡ false
    → agent_by_name (text_arg "from" args) s ≡ some a
    → a.pubkey ≡ w.crypto.hex_encode (w.crypto.public_key priv)
    → (a.pubkey == "") ≡ false
    → dispatch w op (put "sig" (text (sign_request w.crypto priv (some args))) args) s
      ≡ handle w op
          (put "sig" (text (sign_request w.crypto priv (some args))) args)
          (renew_lease w.now (text_arg "from" args) s)
dispatch-signed w op args s a priv laws distinct gated named found key nonempty =
    let sig : Json = text (sign_request w.crypto priv (some args)) in
    let signed : Dict Json = put "sig" sig args in
    let from : text_arg "from" signed ≡ text_arg "from" args =
      text_arg-put_other "from" sig args refl in
    let good : verify_request w.crypto a.pubkey signed ≡ none =
      ap (λ h. verify_request w.crypto h signed) key
      ∙ verify_request-sign_request w.crypto laws priv args distinct in
    let named' : (text_arg "from" signed == "") ≡ false = ap (λ t. t == "") from ∙ named in
    let passed : check_caller w.crypto signed (agent_by_name (text_arg "from" signed) s) ≡ none =
      ap (λ t. check_caller w.crypto signed (agent_by_name t s)) from
      ∙ (ap (check_caller w.crypto signed) found
          ∙ check_caller-passes w.crypto signed a nonempty good) in
    dispatch-accepted w op signed s (gated-check w.crypto op signed s gated named' ∙ passed)
    ∙ (ap (handle w op signed) (renew_caller-named w signed s named')
        ∙ ap (λ t. handle w op signed (renew_lease w.now t s)) from)
