-- ===== src/Identity/Requests.antt =====
-- The requests that an installation signs: the registration of its key, and the opening of a
-- session. Both validators check in the order of the source.
use limitlesslibrary.Base.{
  ℕ, String, ◌<>◌, ◌&&◌, Option, List, [], ◌∷◌, leb, str_eq, length, map, Outcome, ok, ◌>>=◌, ◌>>◌,
  require,
}
use limitlesslibrary.Base.Json.{Json, str, int, pos, object, array, Fields, get, equals_text}
use limitlesslibrary.Service.Shape.{
  Failure, contract_error, Bytes, Toolkit, exact_fields, bounded_text, digest_text, is_identifier,
  bounded_int,
}
use limitlesslibrary.Service.Roots.{Signature}
use limitlesslibrary.Identity.{
  PublicKey, public_key_json, proof_json, is_request, is_installation, capabilities_of, json_digest,
  lifetime, installation_key_id, public_key, signature_item, verify_signature,
}

abbrev pub registration_version : String
registration_version = "limitless.installation-registration-request/1.0"

abbrev pub session_request_version : String
session_request_version = "limitless.installation-session-request/1.0"

-- What is signed, without the digest. Times are the texts of `isoformat_utc`.
pub record UnsignedRegistration : Type 0 where
  pub request_id : String
  pub service_id : String
  pub key : PublicKey
  pub issued_at : String
  pub expires_at : String

pub record Registration : Type 0 where
  pub unsigned : UnsignedRegistration
  pub digest : String
  pub proof : Signature

pub record UnsignedSessionRequest : Type 0 where
  pub request_id : String
  pub service_id : String
  pub installation_id : String
  pub generation : ℕ
  pub current_key_id : String
  pub policy_digest : String
  pub capabilities : List String
  pub session_ttl : ℕ
  pub issued_at : String
  pub expires_at : String

pub record SessionRequest : Type 0 where
  pub unsigned : UnsignedSessionRequest
  pub digest : String
  pub proof : Signature

abbrev registration_items : UnsignedRegistration → List (String × Json) → List (String × Json)
registration_items u more =
    ("schemaVersion", str registration_version)
    ∷ ("requestId", str u.request_id)
    ∷ ("serviceId", str u.service_id)
    ∷ ("publicKey", public_key_json u.key)
    ∷ ("issuedAt", str u.issued_at)
    ∷ ("expiresAt", str u.expires_at)
    ∷ more

abbrev session_request_items : UnsignedSessionRequest → List (String × Json) → List (String × Json)
session_request_items u more =
    ("schemaVersion", str session_request_version)
    ∷ ("requestId", str u.request_id)
    ∷ ("serviceId", str u.service_id)
    ∷ ("installationId", str u.installation_id)
    ∷ ("generation", int (pos u.generation))
    ∷ ("currentKeyId", str u.current_key_id)
    ∷ ("acceptedPolicyDigest", str u.policy_digest)
    ∷ ("capabilities", array (map (λ s. str s) u.capabilities))
    ∷ ("sessionTtlSeconds", int (pos u.session_ttl))
    ∷ ("issuedAt", str u.issued_at)
    ∷ ("expiresAt", str u.expires_at)
    ∷ more

-- `unsigned`, `signed` and `result`
abbrev pub unsigned_registration_json : UnsignedRegistration → Json
unsigned_registration_json u = object (registration_items u [])

abbrev pub signed_registration_json : UnsignedRegistration → String → Json
signed_registration_json u digest =
    object (registration_items u (("requestDigest", str digest) ∷ []))

abbrev pub registration_json : Registration → Json
registration_json r = object (
    registration_items r.unsigned
      (("requestDigest", str r.digest) ∷ ("proof", proof_json r.proof) ∷ []))

abbrev pub unsigned_session_json : UnsignedSessionRequest → Json
unsigned_session_json u = object (session_request_items u [])

abbrev pub signed_session_json : UnsignedSessionRequest → String → Json
signed_session_json u digest = object (session_request_items u (("requestDigest", str digest) ∷ []))

abbrev pub session_request_json : SessionRequest → Json
session_request_json r = object (
    session_request_items r.unsigned
      (("requestDigest", str r.digest) ∷ ("proof", proof_json r.proof) ∷ []))

abbrev pub registration_fields : List String
registration_fields =
    "schemaVersion" ∷ "requestId" ∷ "serviceId" ∷ "publicKey" ∷ "issuedAt" ∷ "expiresAt"
    ∷ "requestDigest" ∷ "proof" ∷ []

abbrev pub session_request_fields : List String
session_request_fields =
    "schemaVersion" ∷ "requestId" ∷ "serviceId" ∷ "installationId" ∷ "generation" ∷ "currentKeyId"
    ∷ "acceptedPolicyDigest" ∷ "capabilities" ∷ "sessionTtlSeconds" ∷ "issuedAt" ∷ "expiresAt"
    ∷ "requestDigest" ∷ "proof" ∷ []

-- `MAX_REQUEST_BYTES`
unfoldable pub short_enough : Toolkit → Json → String → Outcome Failure (Unit {0})
short_enough kit value label =
    require (leb (length (kit.canonical value)) 8192)
      (contract_error (label <> " exceeds its byte limit"))

module _ (kit : Toolkit) where
  -- The signed content of a registration, and the key's bytes.
  unfoldable pub unsigned_registration_of :
      Fields → Option ℕ → Outcome Failure (UnsignedRegistration × Bytes)
  unsigned_registration_of request at = do
    require (equals_text (get request "schemaVersion") registration_version)
        (contract_error "installation registration schemaVersion is invalid")
    key ← public_key kit (get request "publicKey") "installation registration publicKey"
    times ←
        lifetime kit (get request "issuedAt") (get request "expiresAt") at
          "installation registration request"
    request_id ←
        bounded_text (get request "requestId") "installation registration requestId" 128 is_request
    service_id ←
        bounded_text (get request "serviceId") "installation registration serviceId" 200
          is_identifier
    ok (
      record {
        request_id = request_id;
        service_id = service_id;
        key = key.0;
        issued_at = times.0;
        expires_at = times.1;
      },
      key.1,
    )

  -- `validate_installation_registration_request`
  unfoldable pub validate_registration_request : Json → Option ℕ → Outcome Failure Registration
  validate_registration_request value at = do
    request ← exact_fields value registration_fields "installation registration request"
    found ← unsigned_registration_of request at
    digest ← digest_text (get request "requestDigest") "installation registration requestDigest"
    require (str_eq digest (json_digest kit (unsigned_registration_json found.0)))
        (contract_error "installation registration digest does not bind its exact content")
    proof ← signature_item kit (get request "proof") "installation registration proof"
    require (str_eq proof.key_id found.0.key.key_id)
        (contract_error "installation registration proof uses the wrong key")
    verify_signature kit (signed_registration_json found.0 digest) proof found.1
    let result : Registration = record { unsigned = found.0; digest = digest; proof = proof }
    short_enough kit (registration_json result) "installation registration request"
    ok result

  -- The signed content of a session request.
  unfoldable pub unsigned_session_of : Fields → Option ℕ → Outcome Failure UnsignedSessionRequest
  unsigned_session_of request at = do
    require (equals_text (get request "schemaVersion") session_request_version)
        (contract_error "installation session schemaVersion is invalid")
    generation ←
        bounded_int (get request "generation") 1 16
          (contract_error "installation session generation is invalid")
    capabilities ← capabilities_of (get request "capabilities")
    session_ttl ←
        bounded_int (get request "sessionTtlSeconds") 60 3600
          (contract_error "installation session lifetime is invalid")
    times ←
        lifetime kit (get request "issuedAt") (get request "expiresAt") at
          "installation session request"
    request_id ←
        bounded_text (get request "requestId") "installation session requestId" 128 is_request
    service_id ←
        bounded_text (get request "serviceId") "installation session serviceId" 200 is_identifier
    installation_id ←
        bounded_text (get request "installationId") "installation session installationId" 45
          is_installation
    current_key_id ←
        bounded_text (get request "currentKeyId") "installation session currentKeyId" 200
          is_identifier
    policy_digest ←
        digest_text (get request "acceptedPolicyDigest") "installation session acceptedPolicyDigest"
    ok (record {
      request_id = request_id;
      service_id = service_id;
      installation_id = installation_id;
      generation = generation;
      current_key_id = current_key_id;
      policy_digest = policy_digest;
      capabilities = capabilities;
      session_ttl = session_ttl;
      issued_at = times.0;
      expires_at = times.1;
    })

  -- `validate_installation_session_request`
  unfoldable pub validate_session_request : Json → Bytes → Option ℕ → Outcome Failure SessionRequest
  validate_session_request value current_public_key at = do
    request ← exact_fields value session_request_fields "installation session request"
    u ← unsigned_session_of request at
    digest ← digest_text (get request "requestDigest") "installation session requestDigest"
    require (str_eq digest (json_digest kit (unsigned_session_json u)))
        (contract_error "installation session digest does not bind its exact content")
    proof ← signature_item kit (get request "proof") "installation session proof"
    current_key_id ← installation_key_id kit current_public_key
    require (str_eq u.current_key_id current_key_id && str_eq proof.key_id current_key_id)
        (contract_error "installation session key binding is invalid")
    verify_signature kit (signed_session_json u digest) proof current_public_key
    let result : SessionRequest = record { unsigned = u; digest = digest; proof = proof }
    short_enough kit (session_request_json result) "installation session request"
    ok result
