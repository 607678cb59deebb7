-- ===== src/Service/Roots.antt =====
-- The transitions of a service's root key: `_signature`, `_verify` and `_root_key`
-- of `service_contracts.py`, and the records of a transition.
pub mod Transitions
pub mod Advance
pub mod Chain
pub mod Trusted
pub mod Follow
pub mod Current
use limitlesslibrary.Base.{
  ℕ, ◌+◌, ◌-◌, String, ◌<>◌, Bool, true, false, not, ◌&&◌, ◌||◌, Option, none, some, List, [], ◌∷◌,
  ltb, leb, ◌==◌, codes, str_eq, length, if◌then◌else◌, Outcome, ok, raised, ◌>>=◌, ◌>>◌, require,
}
use limitlesslibrary.Base.Json.{
  Json, str, null, int, pos, object, Fields, get, equals_text, is_null,
}
use limitlesslibrary.Service.Shape.{
  Failure, contract_error, overflow_error, Bytes, Toolkit, exact_fields, bounded_text, digest_text,
  is_identifier, is_base64url, bounded_int, bytes_eq, timestamp, base64url_decode,
}

pub record Signature : Type 0 where
  pub key_id : String
  pub value : String

-- The times are the texts of `isoformat_utc`.
pub record RootKey : Type 0 where
  pub key_id : String
  pub public_key : String
  pub valid_from : String
  pub valid_until : String

pub record Unsigned : Type 0 where
  pub service_id : String
  pub sequence : ℕ
  pub previous_digest : Option String
  pub previous_key : RootKey
  pub next_key : RootKey
  pub effective_at : String
  pub issued_at : String

pub record Transition : Type 0 where
  pub unsigned : Unsigned
  pub digest : String
  pub authorization : Signature
  pub acceptance : Signature

abbrev signature_algorithm : String
signature_algorithm = "ed25519"

abbrev pub schema_version : String
schema_version = "limitless.service-root-key-transition/1.0"

abbrev pub text_or_null : Option String → Json
text_or_null none = null
text_or_null (some s) = str s

abbrev pub root_key_fields : List String
root_key_fields = "keyId" ∷ "algorithm" ∷ "publicKey" ∷ "validFrom" ∷ "validUntil" ∷ []

abbrev pub root_key_json : RootKey → Json
root_key_json k = object (
    ("keyId", str k.key_id)
    ∷ ("algorithm", str signature_algorithm)
    ∷ ("publicKey", str k.public_key)
    ∷ ("validFrom", str k.valid_from)
    ∷ ("validUntil", str k.valid_until)
    ∷ [])

abbrev unsigned_fields : Unsigned → List (String × Json) → List (String × Json)
unsigned_fields u more =
    ("schemaVersion", str schema_version)
    ∷ ("serviceId", str u.service_id)
    ∷ ("sequence", int (pos u.sequence))
    ∷ ("previousTransitionDigest", text_or_null u.previous_digest)
    ∷ ("previousRootKey", root_key_json u.previous_key)
    ∷ ("nextRootKey", root_key_json u.next_key)
    ∷ ("effectiveAt", str u.effective_at)
    ∷ ("issuedAt", str u.issued_at)
    ∷ more

abbrev pub unsigned_json : Unsigned → Json
unsigned_json u = object (unsigned_fields u [])

-- `{**unsigned, "transitionDigest": digest}`
abbrev pub signed_json : Unsigned → String → Json
signed_json u digest = object (unsigned_fields u (("transitionDigest", str digest) ∷ []))

abbrev signature_json : Signature → Json
signature_json s =
    object (
      ("keyId", str s.key_id)
      ∷ ("algorithm", str signature_algorithm)
      ∷ ("value", str s.value)
      ∷ [])

abbrev pub transition_json : Transition → Json
transition_json t = object (
    unsigned_fields t.unsigned (
      ("transitionDigest", str t.digest)
      ∷ (
        "signatures",
        object (
            ("authorization", signature_json t.authorization)
            ∷ ("acceptance", signature_json t.acceptance)
            ∷ []),
      )
      ∷ []))

-- `Mapping[str, bytes]`
abbrev pub Roots : Type 0
Roots = List (String × Bytes)

-- `roots.get(key_id)`
unfoldable pub root_of : Roots → String → Option Bytes
root_of [] key_id = none
root_of ((k, bytes) ∷ rest) key_id =
    let later = root_of rest key_id in if str_eq k key_id then some bytes else later

-- What a caller expects: `none` for an argument that is left out.
pub record Expected : Type 0 where
  pub roots : Option Roots
  pub service_id : Option String
  pub sequence : Option ℕ
  pub previous : Option (Option String)

abbrev pub fault : String → Failure
fault message = contract_error ("service root key transition " <> message)

-- `expected is None or value == expected`
abbrev pub fits_text : Option String → String → Bool
fits_text none s = true
fits_text (some e) s = str_eq s e

abbrev pub fits_number : Option ℕ → ℕ → Bool
fits_number none n = true
fits_number (some e) n = n == e

abbrev pub same_digest : Option String → Option String → Bool
same_digest none none = true
same_digest (some a) (some b) = str_eq a b
same_digest none (some b) = false
same_digest (some a) none = false

abbrev pub fits_digest : Option (Option String) → Option String → Bool
fits_digest none d = true
fits_digest (some e) d = same_digest d e

-- The last year of a datetime is 9999: a sum beyond it raises an `OverflowError`.
abbrev pub end_of_time : ℕ
end_of_time = 315537897600

-- `from < until <= from + maximum`
unfoldable pub within_lifetime : ℕ → ℕ → ℕ → Failure → Outcome Failure (Unit {0})
within_lifetime from until maximum e = do
  require (ltb from until) e
  require (ltb (from + maximum) end_of_time) overflow_error
  require (leb until (from + maximum)) e

module _ (kit : Toolkit) where
  -- `_signature`
  unfoldable pub signature : Json → String → Outcome Failure Signature
  signature value label = do
    item ← exact_fields value ("keyId" ∷ "algorithm" ∷ "value" ∷ []) label
    key_id ← bounded_text (get item "keyId") (label <> " keyId") 200 is_identifier
    algorithm ← bounded_text (get item "algorithm") (label <> " algorithm") 20 (λ _. true)
    text ← bounded_text (get item "value") (label <> " value") 86 (is_base64url 86)
    require (str_eq algorithm signature_algorithm)
        (contract_error (label <> " algorithm is invalid"))
    _ ← base64url_decode kit text 64 (label <> " value")
    ok (record { key_id = key_id; value = text })

  -- `_verify`, for a key that is given
  unfoldable pub verify : Json → Signature → Bytes → Outcome Failure (Unit {0})
  verify payload s public_key = elim (base64url_decode kit s.value 64 "signature value") [
    | raised _ ↦ raised (contract_error "signature is invalid")
    | ok value ↦
        require (kit.verifies public_key value (kit.canonical payload))
          (contract_error "signature is invalid")
  ]

  -- `_root_key`: a root key lives for 3660 days at most.
  unfoldable pub root_key : Json → String → Outcome Failure RootKey
  root_key value label = do
    item ← exact_fields value root_key_fields label
    from ← timestamp kit (get item "validFrom") (label <> " validFrom")
    until ← timestamp kit (get item "validUntil") (label <> " validUntil")
    within_lifetime from until 316224000 (contract_error (label <> " lifetime is invalid"))
    public ← bounded_text (get item "publicKey") (label <> " publicKey") 43 (is_base64url 43)
    _ ← base64url_decode kit public 32 (label <> " publicKey")
    algorithm ← bounded_text (get item "algorithm") (label <> " algorithm") 20 (λ _. true)
    require (str_eq algorithm signature_algorithm)
        (contract_error (label <> " algorithm is invalid"))
    key_id ← bounded_text (get item "keyId") (label <> " keyId") 200 is_identifier
    ok (record {
      key_id = key_id;
      public_key = public;
      valid_from = kit.isoformat from;
      valid_until = kit.isoformat until;
    })
