-- ===== src/Signing.antt =====
-- signing.go: the signature of a request. JSON encoding, hex encoding and ed25519 are parameters.
pub mod Laws
use lalia.Prelude.{
  ℕ, String, Bool, not, Option, none, some, List, [], ◌∷◌, if◌then◌else◌, eqb, ◌==◌, length,
}
use lalia.Prelude.Dict
use lalia.Prelude.Dict.{Dict, get, get_or}
use lalia.Text.{sort_strings}

-- The values that encoding/json decodes into `any`, with numbers that are whole and not negative.
mutual
  pub data Json : Type 0 where
    null : Json
    flag : Bool → Json
    number : ℕ → Json
    text : String → Json
    array : Items → Json
    object : Fields → Json

  pub data Items : Type 0 where
    nil : Items
    item : Json → Items → Items

  pub data Fields : Type 0 where
    end : Fields
    field : String → Json → Fields → Fields

abbrev pub Bytes : Type 0
Bytes = List ℕ

-- encoding/json, encoding/hex and crypto/ed25519. `marshal` encodes the list of keys and values
-- that canonicalArgs builds, which never fails on decoded values, and `null_text` is the encoding
-- of nil.
pub record Crypto : Type 0 where
  pub marshal : List (String × Json) → Bytes
  pub null_text : Bytes
  pub hex_encode : Bytes → String
  pub hex_decode : String → Option Bytes
  pub sign : Bytes → Bytes → Bytes
  pub verify : Bytes → Bytes → Bytes → Bool
  pub public_key : Bytes → Bytes

abbrev pub keys {ℓ} : {V : Type ℓ} → Dict V → List String
keys [] = []
keys ((k, v) ∷ m) = k ∷ keys m

abbrev pub lookup_all : Dict Json → List String → List (String × Json)
lookup_all m [] = []
lookup_all m (k ∷ ks) = (k, get_or k null m) ∷ lookup_all m ks

abbrev pub public_key_size : ℕ
public_key_size = 32

-- The errors of verifyRequest
pub data Refusal : Type 0 where
  missing_signature bad_signature_encoding bad_pubkey_encoding pubkey_size invalid : Refusal

abbrev pub text_of : Option Json → String
text_of (some (text s)) = s
text_of _ = ""

-- args[key].(string), with the empty text for a value that is missing or no text
unfoldable pub text_arg : String → Dict Json → String
text_arg k args = text_of (get k args)

module _ (c : Crypto) where
  -- canonicalArgs
  unfoldable pub canonical_args : Option (Dict Json) → Bytes
  canonical_args none = c.null_text
  canonical_args (some args) =
      let stripped = Dict.remove "sig" args in
      c.marshal (lookup_all stripped (sort_strings (keys stripped)))

  -- signRequest
  unfoldable pub sign_request : Bytes → Option (Dict Json) → String
  sign_request priv args = c.hex_encode (c.sign priv (canonical_args args))

  unfoldable pub verify_key : Option Bytes → Bytes → Dict Json → Option Refusal
  verify_key none sig args = some bad_pubkey_encoding
  verify_key (some pub_key) sig args =
      if not (eqb (length pub_key) public_key_size)
      then some pubkey_size
      else if c.verify pub_key (canonical_args (some args)) sig
      then none
      else some invalid

  unfoldable pub verify_sig : Option Bytes → String → Dict Json → Option Refusal
  verify_sig none pub_hex args = some bad_signature_encoding
  verify_sig (some sig) pub_hex args = verify_key (c.hex_decode pub_hex) sig args

  -- verifyRequest: the error, if there is one
  unfoldable pub verify_request : String → Dict Json → Option Refusal
  unfolding verify_sig verify_key text_arg
  verify_request pub_hex args =
      if text_arg "sig" args == ""
      then some missing_signature
      else verify_sig (c.hex_decode (text_arg "sig" args)) pub_hex args
