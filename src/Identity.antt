-- ===== src/Identity.antt =====
-- `installation_identity_contracts.py`: the keys of an installation and what they sign. The module's own
-- error is `contract_error`; a request lives for five minutes at most.
pub mod Requests
pub mod Attestation
pub mod Response
pub mod Bound
pub mod Build
pub mod Custody
pub mod Valid
pub mod Same
pub mod Steps
pub mod Session
pub mod Kept
pub mod Reread
pub mod Live
pub mod Ensured
use limitlesslibrary.Base.{
  ℕ, ◌+◌, String, ◌<>◌, Bool, true, false, not, ◌&&◌, ◌||◌, Option, none, some, List, [], ◌∷◌, ltb,
  leb, ◌==◌, codes, is_digit, str_eq, take_text, drop_text, in_list, length, all, any, map,
  if◌then◌else◌, is_sorted_set, Outcome, ok, raised, ◌>>=◌, ◌>>◌, require,
}
use limitlesslibrary.Base.Json.{
  Json, null, boolean, int, float, str, arr, obj, object, list_of, Fields, get, is_hashable,
}
use limitlesslibrary.Wire.Shape.{is_letter, is_hex, after_prefix}
use limitlesslibrary.Service.Shape.{
  Failure, contract_error, type_error, Bytes, Toolkit, exact_fields, bounded_text, is_identifier,
  is_base64url, is_name_char, timestamp, base64url_decode,
}
use limitlesslibrary.Service.Roots.{Signature, within_lifetime}

-- `{"keyId", "algorithm", "value"}`, with the one algorithm that there is
pub record PublicKey : Type 0 where
  pub key_id : String
  pub value : String

abbrev pub public_key_json : PublicKey → Json
public_key_json k =
    object (("keyId", str k.key_id) ∷ ("algorithm", str "ed25519") ∷ ("value", str k.value) ∷ [])

abbrev pub proof_json : Signature → Json
proof_json s =
    object (("keyId", str s.key_id) ∷ ("algorithm", str "ed25519") ∷ ("value", str s.value) ∷ [])

abbrev pub key_fields : List String
key_fields = "keyId" ∷ "algorithm" ∷ "value" ∷ []

-- A prefix, and so many hexadecimal digits.
abbrev pub is_hex_name : String → ℕ → List ℕ → Bool
is_hex_name prefix n text = elim (after_prefix (codes prefix) text) [
  | none ↦ false
  | some hex ↦ all is_hex hex && length hex == n
]

-- `_INSTALLATION`, `_INSTALLATION_SESSION`, `_INSTALLATION_SPACE`
unfoldable pub is_installation : List ℕ → Bool
is_installation text = is_hex_name "installation:" 32 text

unfoldable pub is_installation_session : List ℕ → Bool
is_installation_session text = is_hex_name "installation-session:" 32 text

unfoldable pub is_installation_space : List ℕ → Bool
is_installation_space text = is_hex_name "installation-space:" 32 text

abbrev request_name : List ℕ → Bool
request_name [] = false
request_name (c ∷ cs) = (is_letter c || is_digit c) && all is_name_char cs && leb (length cs) 119

-- `_REQUEST`
unfoldable pub is_request : List ℕ → Bool
is_request text = elim (after_prefix (codes "request:") text) [
  | none ↦ false
  | some name ↦ request_name name
]

-- `_SESSION_TOKEN`
unfoldable pub is_session_token : List ℕ → Bool
is_session_token text = elim (after_prefix (codes "lst_") text) [
  | none ↦ false
  | some rest ↦ is_base64url 43 rest
]

-- `INSTALLATION_SESSION_CAPABILITIES`
abbrev pub session_capabilities : List String
session_capabilities = "circles" ∷ "deliveries" ∷ "queries" ∷ "submissions" ∷ []

-- The texts of a list, where all of its items are texts.
abbrev pub texts_only : List Json → Option (List String)
texts_only [] = some []
texts_only (str s ∷ values) = elim (texts_only values) [ none ↦ none | some ss ↦ some (s ∷ ss) ]
texts_only (value ∷ values) = none

-- The types that Python orders among themselves. `None` is equal to itself only, so that two of them
-- are one in a set.
abbrev kind : Json → ℕ
kind null = 0
kind (boolean b) = 1
kind (int n) = 1
kind (float x) = 1
kind (str s) = 2
kind (arr xs) = 3
kind (obj d) = 3

abbrev one_kind : List Json → Bool
one_kind [] = true
one_kind (x ∷ xs) = all (λ y. kind y == kind x) xs

-- What `sorted(set(values))` and the tests on it raise for a list that is not of texts.
unfoldable pub mixed_fault : List Json → Failure → Failure
mixed_fault values e = if all is_hashable values && one_kind values then e else type_error

abbrev pub is_nonempty : List String → Bool
is_nonempty [] = false
is_nonempty (s ∷ ss) = true

-- The conditions on `capabilities`, which requests and responses share.
unfoldable pub capabilities_of : Json → Outcome Failure (List String)
capabilities_of (arr values) = elim (texts_only (list_of values)) [
  | none ↦ raised (
      mixed_fault (list_of values) (contract_error "installation session capabilities are invalid"))
  | some ss ↦ do
    require (is_sorted_set ss && is_nonempty ss && all (λ s. in_list s session_capabilities) ss)
        (contract_error "installation session capabilities are invalid")
    ok ss
]
capabilities_of _ = raised (contract_error "installation session capabilities are invalid")

-- `at`, where it is given: a time in whole seconds.
unfoldable pub is_current : Option ℕ → ℕ → ℕ → Bool
is_current none issued expires = true
is_current (some at) issued expires = not (ltb at issued || ltb expires at)

-- `installation_tenant_id`
unfoldable pub installation_tenant_id : String → Outcome Failure String
installation_tenant_id value = do
  installation ← bounded_text (str value) "installationId" 45 is_installation
  ok ("installation-space:" <> drop_text 13 installation)

module _ (kit : Toolkit) where
  -- `sha256_json`
  abbrev pub json_digest : Json → String
  json_digest value = kit.sha256 (kit.canonical value)

  -- `_decode`
  unfoldable pub decode_material : Json → String → Outcome Failure Bytes
  decode_material value label = do
    encoded ← bounded_text value label 43 (is_base64url 43)
    base64url_decode kit encoded 32 label

  -- `_lifetime`: both times, and their texts.
  unfoldable pub lifetime : Json → Json → Option ℕ → String → Outcome Failure (String × String)
  lifetime issued_value expires_value at label = do
    issued ← timestamp kit issued_value (label <> " issuedAt")
    expires ← timestamp kit expires_value (label <> " expiresAt")
    within_lifetime issued expires 300 (contract_error (label <> " lifetime is invalid"))
    require (is_current at issued expires) (contract_error (label <> " is not current"))
    ok (kit.isoformat issued, kit.isoformat expires)

  -- `installation_key_id`
  unfoldable pub installation_key_id : Bytes → Outcome Failure String
  installation_key_id public = do
    require (length public == 32) (contract_error "installation public key is invalid")
    ok ("key:installation:" <> take_text 32 (drop_text 7 (kit.sha256 public)))

  -- `installation_id`
  unfoldable pub installation_id : Json → Bytes → Outcome Failure String
  installation_id service_id public = do
    service ← bounded_text service_id "serviceId" 200 is_identifier
    ok (
        "installation:"
        <> take_text 32 (
            drop_text 7 (
              json_digest (
                object (
                  ("serviceId", str service)
                  ∷ ("publicKeyDigest", str (kit.sha256 public))
                  ∷ [])))))

  -- `_public_key`
  unfoldable pub public_key : Json → String → Outcome Failure (PublicKey × Bytes)
  public_key value label = do
    item ← exact_fields value key_fields label
    material ← decode_material (get item "value") (label <> " value")
    key_id ← bounded_text (get item "keyId") (label <> " keyId") 200 is_identifier
    algorithm ← bounded_text (get item "algorithm") (label <> " algorithm") 20 (λ _. true)
    require (str_eq algorithm "ed25519") (contract_error (label <> " algorithm is invalid"))
    derived ← installation_key_id material
    require (str_eq key_id derived) (contract_error (label <> " keyId is not derived from its key"))
    ok (record { key_id = key_id; value = kit.encode64 material }, material)

  -- `_signature`, which is not decoded yet.
  unfoldable pub signature_item : Json → String → Outcome Failure Signature
  signature_item value label = do
    item ← exact_fields value key_fields label
    key_id ← bounded_text (get item "keyId") (label <> " keyId") 200 is_identifier
    algorithm ← bounded_text (get item "algorithm") (label <> " algorithm") 20 (λ _. true)
    text ← bounded_text (get item "value") (label <> " value") 86 (is_base64url 86)
    require (str_eq algorithm "ed25519") (contract_error (label <> " algorithm is invalid"))
    ok (record { key_id = key_id; value = text })

  -- `_verify`
  unfoldable pub verify_signature : Json → Signature → Bytes → Outcome Failure (Unit {0})
  verify_signature payload s key = elim (kit.decode64 s.value) [
    | none ↦ raised (contract_error "signature is invalid")
    | some decoded ↦
        require ((length decoded == 64) && kit.verifies key decoded (kit.canonical payload))
          (contract_error "signature is invalid")
  ]
