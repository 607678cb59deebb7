-- ===== src/Identity/Build.antt =====
-- The requests as the client builds them: signed by its own key, and validated before they are sent.
use limitlesslibrary.Base.{
  ℕ, ◌+◌, String, ◌&&◌, Option, none, some, List, [], ◌∷◌, ltb, leb, Outcome, ok, raised, ◌>>=◌,
  ◌>>◌, require,
}
use limitlesslibrary.Base.Json.{Json}
use limitlesslibrary.Service.Shape.{Failure, contract_error, overflow_error, Bytes, Toolkit}
use limitlesslibrary.Service.Roots.{Signature, end_of_time}
use limitlesslibrary.Identity.{json_digest, installation_key_id}
use limitlesslibrary.Identity.Requests.{
  UnsignedRegistration, Registration, UnsignedSessionRequest, SessionRequest,
  unsigned_registration_json, signed_registration_json, registration_json, unsigned_session_json,
  signed_session_json, session_request_json, validate_registration_request,
  validate_session_request,
}
use limitlesslibrary.Identity.Attestation.{
  UnsignedAttestation, Attestation, unsigned_attestation_json, signed_attestation_json,
  attestation_json, validate_attestation,
}

-- `DecisionSigningAuthority`: the public key, and the signature of a payload, where signing does not
-- raise.
pub record Authority : Type 0 where
  pub public : Bytes
  pub sign : Bytes → Option String

-- What a session request asks for.
pub record SessionOrder : Type 0 where
  pub service_id : String
  pub installation_id : String
  pub generation : ℕ
  pub request_id : String
  pub policy_digest : String
  pub capabilities : List String
  pub request_ttl : ℕ
  pub session_ttl : ℕ

module _ (kit : Toolkit) where
  -- `_sign`
  unfoldable pub sign_payload : Json → Authority → String → Outcome Failure Signature
  sign_payload payload signer key_id = elim (signer.sign (kit.canonical payload)) [
    | none ↦ raised (contract_error "signature creation failed")
    | some value ↦ ok (record { key_id = key_id; value = value })
  ]

  -- `issued_at + timedelta(seconds=ttl)`
  unfoldable pub expiry : ℕ → ℕ → Outcome Failure String
  expiry issued ttl = do
    require (ltb (issued + ttl) end_of_time) overflow_error
    ok (kit.isoformat (issued + ttl))

  -- `build_installation_registration_request`
  unfoldable pub build_registration_request :
      Authority → String → String → ℕ → ℕ → Outcome Failure Registration
  build_registration_request signer service_id request_id issued ttl = do
    require (leb 1 ttl && leb ttl 300)
        (contract_error "installation registration lifetime is invalid")
    key_id ← installation_key_id kit signer.public
    expires ← expiry issued ttl
    let u : UnsignedRegistration = record {
      request_id = request_id;
      service_id = service_id;
      key = record { key_id = key_id; value = kit.encode64 signer.public };
      issued_at = kit.isoformat issued;
      expires_at = expires;
    }
    let digest : String = json_digest kit (unsigned_registration_json u)
    proof ← sign_payload (signed_registration_json u digest) signer key_id
    validate_registration_request kit
        (registration_json (record { unsigned = u; digest = digest; proof = proof })) none

  -- `build_installation_session_request`
  unfoldable pub build_session_request :
      Authority → SessionOrder → ℕ → Outcome Failure SessionRequest
  build_session_request signer o issued = do
    require (leb 1 o.request_ttl && leb o.request_ttl 300)
        (contract_error "installation session request lifetime is invalid")
    key_id ← installation_key_id kit signer.public
    expires ← expiry issued o.request_ttl
    let u : UnsignedSessionRequest = record {
      request_id = o.request_id;
      service_id = o.service_id;
      installation_id = o.installation_id;
      generation = o.generation;
      current_key_id = key_id;
      policy_digest = o.policy_digest;
      capabilities = o.capabilities;
      session_ttl = o.session_ttl;
      issued_at = kit.isoformat issued;
      expires_at = expires;
    }
    let digest : String = json_digest kit (unsigned_session_json u)
    proof ← sign_payload (signed_session_json u digest) signer key_id
    validate_session_request kit
        (session_request_json (record { unsigned = u; digest = digest; proof = proof }))
        signer.public none

  -- `build_installation_attestation`, which the service answers with.
  unfoldable pub build_attestation :
      String
      → String
      → Bytes
      → ℕ
      → Option String
      → String
      → ℕ
      → Authority
      → String
      → Outcome Failure Attestation
  build_attestation service_id installation public generation account_id status issued signer
        signer_key_id =
      do
        key_id ← installation_key_id kit public
        let u : UnsignedAttestation = record {
          service_id = service_id;
          installation_id = installation;
          current_key = record { key_id = key_id; value = kit.encode64 public };
          generation = generation;
          account_id = account_id;
          status = status;
          issued_at = kit.isoformat issued;
        }
        let digest : String = json_digest kit (unsigned_attestation_json u)
        signature ← sign_payload (signed_attestation_json u digest) signer signer_key_id
        validate_attestation kit
            (attestation_json
              (record { unsigned = u; digest = digest; service_signature = signature }))
            (some ((signer_key_id, signer.public) ∷ []))
