-- ===== src/Identity/Attestation.antt =====
-- What the service states of an installation: which key is its current one.
use limitlesslibrary.Base.{
  ℕ, String, true, Option, none, some, List, [], ◌∷◌, ◌==◌, str_eq, in_list, Outcome, ok, raised,
  ◌>>=◌, ◌>>◌, require,
}
use limitlesslibrary.Base.Json.{Json, null, str, int, pos, object, Fields, get, equals_text}
use limitlesslibrary.Service.Shape.{
  Failure, contract_error, Bytes, Toolkit, exact_fields, bounded_text, digest_text, is_identifier,
  bounded_int, timestamp,
}
use limitlesslibrary.Service.Roots.{Signature, Roots, root_of, text_or_null}
use limitlesslibrary.Identity.{
  PublicKey, public_key_json, proof_json, is_installation, json_digest, installation_id, public_key,
  signature_item, verify_signature,
}
use limitlesslibrary.Identity.Requests.{short_enough}

abbrev pub attestation_version : String
attestation_version = "limitless.installation-attestation/1.0"

pub record UnsignedAttestation : Type 0 where
  pub service_id : String
  pub installation_id : String
  pub current_key : PublicKey
  pub generation : ℕ
  pub account_id : Option String
  pub status : String
  pub issued_at : String

pub record Attestation : Type 0 where
  pub unsigned : UnsignedAttestation
  pub digest : String
  pub service_signature : Signature

abbrev attestation_items : UnsignedAttestation → List (String × Json) → List (String × Json)
attestation_items u more =
    ("schemaVersion", str attestation_version)
    ∷ ("serviceId", str u.service_id)
    ∷ ("installationId", str u.installation_id)
    ∷ ("currentKey", public_key_json u.current_key)
    ∷ ("generation", int (pos u.generation))
    ∷ ("accountId", text_or_null u.account_id)
    ∷ ("status", str u.status)
    ∷ ("issuedAt", str u.issued_at)
    ∷ more

abbrev pub unsigned_attestation_json : UnsignedAttestation → Json
unsigned_attestation_json u = object (attestation_items u [])

abbrev pub signed_attestation_json : UnsignedAttestation → String → Json
signed_attestation_json u digest =
    object (attestation_items u (("attestationDigest", str digest) ∷ []))

abbrev pub attestation_json : Attestation → Json
attestation_json a = object (
    attestation_items a.unsigned
      (("attestationDigest", str a.digest) ∷ ("signature", proof_json a.service_signature) ∷ []))

abbrev pub attestation_fields : List String
attestation_fields =
    "schemaVersion" ∷ "serviceId" ∷ "installationId" ∷ "currentKey" ∷ "generation" ∷ "accountId"
    ∷ "status" ∷ "issuedAt" ∷ "attestationDigest" ∷ "signature" ∷ []

-- `accountId`, which may be `None`
unfoldable pub account_of : Json → Outcome Failure (Option String)
account_of null = ok none
account_of value = do
  account ← bounded_text value "installation attestation accountId" 200 is_identifier
  ok (some account)

module _ (kit : Toolkit) where
  -- The first key of an installation gives it its name.
  unfoldable pub check_derived : UnsignedAttestation → Bytes → Outcome Failure (Unit {0})
  check_derived u material = elim (u.generation == 1) [
    | true ↦ do
      derived ← installation_id kit (str u.service_id) material
      require (str_eq u.installation_id derived)
          (contract_error "installation attestation identity is not derived from its original key")
    | _ ↦ ok tt
  ]

  -- The content that the service signs, and the bytes of the installation's key.
  unfoldable pub unsigned_attestation_of : Fields → Outcome Failure (UnsignedAttestation × Bytes)
  unsigned_attestation_of attestation = do
    require (equals_text (get attestation "schemaVersion") attestation_version)
        (contract_error "installation attestation schemaVersion is invalid")
    key ← public_key kit (get attestation "currentKey") "installation attestation currentKey"
    generation ←
        bounded_int (get attestation "generation") 1 16
          (contract_error "installation attestation generation is invalid")
    account_id ← account_of (get attestation "accountId")
    status ←
        bounded_text (get attestation "status") "installation attestation status" 16 (λ _. true)
    require (in_list status ("active" ∷ "disabled" ∷ []))
        (contract_error "installation attestation status is invalid")
    service_id ←
        bounded_text (get attestation "serviceId") "installation attestation serviceId" 200
          is_identifier
    installation ←
        bounded_text (get attestation "installationId") "installation attestation installationId" 45
          is_installation
    issued_at ← timestamp kit (get attestation "issuedAt") "installation attestation issuedAt"
    ok (
      record {
        service_id = service_id;
        installation_id = installation;
        current_key = key.0;
        generation = generation;
        account_id = account_id;
        status = status;
        issued_at = kit.isoformat issued_at;
      },
      key.1,
    )

  -- The service's signature, where its keys are given.
  unfoldable pub check_signed : Option Roots → Json → Signature → Outcome Failure (Unit {0})
  check_signed none signed signature = ok tt
  check_signed (some keys) signed signature = elim (root_of keys signature.key_id) [
    | none ↦ raised (contract_error "installation attestation signing key is unknown")
    | some material ↦ verify_signature kit signed signature material
  ]

  -- `validate_installation_attestation`
  unfoldable pub validate_attestation : Json → Option Roots → Outcome Failure Attestation
  validate_attestation value service_public_keys = do
    attestation ← exact_fields value attestation_fields "installation attestation"
    found ← unsigned_attestation_of attestation
    check_derived found.0 found.1
    digest ←
        digest_text (get attestation "attestationDigest")
          "installation attestation attestationDigest"
    require (str_eq digest (json_digest kit (unsigned_attestation_json found.0)))
        (contract_error "installation attestation digest does not bind its exact content")
    signature ←
        signature_item kit (get attestation "signature") "installation attestation signature"
    check_signed service_public_keys (signed_attestation_json found.0 digest) signature
    let result : Attestation = record {
      unsigned = found.0;
      digest = digest;
      service_signature = signature;
    }
    short_enough kit (attestation_json result) "installation attestation"
    ok result
