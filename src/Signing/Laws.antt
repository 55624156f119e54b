-- ===== src/Signing/Laws.antt =====
-- signing.go: what canonicalArgs depends on, and that a signed request is accepted.
use lalia.Prelude.{
  ◌≡◌, refl, sym, ◌∙◌, ap, String, Bool, true, false, ◌||◌, Option, none, some, List, [], ◌∷◌,
  if◌then◌else◌, ◌==◌, contains, Distinct, length, Bool-cases, inl, inr, arith, eq_iff, eq_refl,
}
use lalia.Prelude.Dict
use lalia.Prelude.Dict.{Dict, get, get_or, put, get-put, get-remove}
use lalia.Text.{sort_strings}
use lalia.Text.Sorting.{sort_strings_unique}
use lalia.Signing.{
  Json, null, text, Bytes, Crypto, keys, lookup_all, canonical_args, sign_request, verify_request,
  text_arg, text_of, public_key_size, verify_sig, verify_key,
}

module _ {ℓ} {V : Type ℓ} where
  abbrev is_some : Option V → Bool
  is_some none = false
  is_some (some v) = true

  contains-keys : (j : String) (m : Dict V) → contains j (keys m) ≡ is_some (get j m)
  unfolding contains get
  contains-keys j [] = refl
  contains-keys j ((k, v) ∷ m) = ground (arith, contains-keys j m)

  or_default : V → Option V → V
  or_default z none = z
  or_default z (some v) = v

  as_option : (j : String) (z : V) (m : Dict V) → get_or j z m ≡ or_default z (get j m)
  unfolding get_or get or_default
  as_option j z [] = refl
  as_option j z ((k, v) ∷ m) = ground (arith, as_option j z m)

  get_or-get : (j : String) (z : V) (m n : Dict V) → get j m ≡ get j n → get_or j z m ≡ get_or j z n
  get_or-get j z m n h = as_option j z m ∙ ap (or_default z) h ∙ sym (as_option j z n)

  contains-keys-remove :
      (k j : String) (m : Dict V)
      → contains j (keys (Dict.remove k m)) ≡ (if k == j then false else contains j (keys m))
  contains-keys-remove k j m =
      ground (arith, contains-keys j (Dict.remove k m), contains-keys j m, get-remove k j m)

  Distinct-keys-remove :
      (k : String) (m : Dict V) → Distinct (keys m) → Distinct (keys (Dict.remove k m))
  unfolding Dict.remove
  Distinct-keys-remove k [] d = tt
  Distinct-keys-remove k ((j, v) ∷ m) d =
      ground (arith, Distinct-keys-remove k m, contains-keys-remove k j m, eq_iff k j, eq_iff j k)

  contains-keys-put :
      (k j : String) (v : V) (m : Dict V)
      → contains j (keys (put k v m)) ≡ ((k == j) || contains j (keys m))
  contains-keys-put k j v m =
      ground (arith, contains-keys j (put k v m), contains-keys j m, get-put k j v m)

  Distinct-keys-put :
      (k : String) (v : V) (m : Dict V) → Distinct (keys m) → Distinct (keys (put k v m))
  unfolding put contains
  Distinct-keys-put k v [] d = (refl, tt)
  Distinct-keys-put k v ((j, w) ∷ m) d =
      ground (arith, Distinct-keys-put k v m, contains-keys-put k j v m, eq_iff k j, eq_iff j k)

pub lookup_all-get :
    (ks : List String) (m n : Dict Json)
    → ((k : String) → get k m ≡ get k n)
    → lookup_all m ks ≡ lookup_all n ks
lookup_all-get [] m n h = refl
lookup_all-get (k ∷ ks) m n h =
    ap (λ v. (k, v) ∷ lookup_all m ks) (get_or-get k null m n (h k))
    ∙ ap (λ r. (k, get_or k null n) ∷ r) (lookup_all-get ks m n h)

-- The two maps without the key "sig" hold the same
stripped :
    (args args' : Dict Json)
    → ((k : String) → (k == "sig") ≡ false → get k args ≡ get k args')
    → (k : String) → get k (Dict.remove "sig" args) ≡ get k (Dict.remove "sig" args')
stripped args args' h k = elim (Bool-cases (k == "sig")) [
  | inl here ↦ ground (
    arith,
    here,
    get-remove "sig" k args,
    get-remove "sig" k args',
    eq_iff k "sig",
    eq_iff "sig" k,
  )
  | inr other ↦ ground (
    arith,
    h k other,
    get-remove "sig" k args,
    get-remove "sig" k args',
    eq_iff k "sig",
    eq_iff "sig" k,
  )
]

-- What is signed depends on the values of the arguments alone: two maps of distinct names that hold
-- the same values under every name but sig have the same canonical form, whatever the order of their
-- entries.
pub canonical_args-same :
    (c : Crypto) (args args' : Dict Json)
    → Distinct (keys args)
    → Distinct (keys args')
    → ((k : String) → (k == "sig") ≡ false → get k args ≡ get k args')
    → canonical_args c (some args) ≡ canonical_args c (some args')
unfolding canonical_args
canonical_args-same c args args' d d' h =
    let m : Dict Json = Dict.remove "sig" args in
    let n : Dict Json = Dict.remove "sig" args' in
    let same : (k : String) → get k m ≡ get k n = stripped args args' h in
    let ks : sort_strings (keys m) ≡ sort_strings (keys n) =
      sort_strings_unique (keys m) (keys n) (Distinct-keys-remove "sig" args d)
        (Distinct-keys-remove "sig" args' d')
        (λ j. contains-keys j m ∙ ap is_some (same j) ∙ sym (contains-keys j n)) in
    ap c.marshal (lookup_all-get (sort_strings (keys m)) m n same ∙ ap (lookup_all n) ks)

-- What a request's signature relies on: encoding/hex decodes what it has encoded, an ed25519
-- public key has 32 bytes and accepts the signatures of its private key, which are not empty.
pub record CryptoLaws (c : Crypto) : Type 0 where
  pub decode_encode : (b : Bytes) → c.hex_decode (c.hex_encode b) ≡ some b
  pub decode_nothing : c.hex_decode "" ≡ some []
  pub key_size : (priv : Bytes) → length (c.public_key priv) ≡ public_key_size
  pub signature_size : (priv b : Bytes) → length (c.sign priv b) ≡ 64
  pub verify_sign : (priv b : Bytes) → c.verify (c.public_key priv) b (c.sign priv b) ≡ true

text_arg-put : (s : String) (args : Dict Json) → text_arg "sig" (put "sig" (text s) args) ≡ s
unfolding text_arg
text_arg-put s args =
    let found : get "sig" (put "sig" (text s) args) ≡ some (text s) =
      ground (arith, get-put "sig" "sig" (text s) args, eq_refl "sig") in
    ap text_of found

hex-nonempty :
    (c : Crypto) → CryptoLaws c → (priv b : Bytes) → (c.hex_encode (c.sign priv b) == "") ≡ false
hex-nonempty c l priv b = elim (Bool-cases (c.hex_encode (c.sign priv b) == "")) [
  | inl h ↦
      let same : some (c.sign priv b) ≡ some [] =
        sym (l.decode_encode (c.sign priv b))
        ∙ ap c.hex_decode ((eq_iff _ "").0 h)
        ∙ l.decode_nothing in
      ground (arith, same, l.signature_size priv b)
  | inr h ↦ h
]

accepted :
    (c : Crypto) (pub_hex : String) (args : Dict Json) (sig pub_key : Bytes)
    → (text_arg "sig" args == "") ≡ false
    → c.hex_decode (text_arg "sig" args) ≡ some sig
    → c.hex_decode pub_hex ≡ some pub_key
    → length pub_key ≡ public_key_size
    → c.verify pub_key (canonical_args c (some args)) sig ≡ true
    → verify_request c pub_hex args ≡ none
unfolding verify_request verify_sig verify_key
accepted c pub_hex args sig pub_key nonempty decoded key size good =
    rw (nonempty, decoded, key, size, good) refl

-- If the keys and signatures of the cryptographic library have their laws, verifyRequest accepts the
-- arguments to which the signature by signRequest is added under the key sig, if their names are
-- distinct.
pub verify_request-sign_request :
    (c : Crypto)
    → CryptoLaws c
    → (priv : Bytes) (args : Dict Json) → Distinct (keys args)
    → verify_request c
        (c.hex_encode (c.public_key priv))
        (put "sig" (text (sign_request c priv (some args))) args)
      ≡ none
unfolding sign_request
verify_request-sign_request c l priv args d =
    let sig : Bytes = c.sign priv (canonical_args c (some args)) in
    let signed : Dict Json = put "sig" (text (c.hex_encode sig)) args in
    let same : canonical_args c (some args) ≡ canonical_args c (some signed) =
      canonical_args-same c args signed d (Distinct-keys-put "sig" (text (c.hex_encode sig)) args d)
        (λ k h. ground (
          arith,
          h,
          get-put "sig" k (text (c.hex_encode sig)) args,
          eq_iff k "sig",
          eq_iff "sig" k,
        )) in
    let spelled : text_arg "sig" signed ≡ c.hex_encode sig = text_arg-put (c.hex_encode sig) args in
    accepted c (c.hex_encode (c.public_key priv)) signed sig (c.public_key priv)
      (ap (λ t. t == "") spelled ∙ hex-nonempty c l priv (canonical_args c (some args)))
      (ap c.hex_decode spelled ∙ l.decode_encode sig) (l.decode_encode (c.public_key priv))
      (l.key_size priv)
      (ap (λ b. c.verify (c.public_key priv) b sig) (sym same)
        ∙ l.verify_sign priv (canonical_args c (some args)))
