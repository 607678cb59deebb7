-- ===== src/Identity/Response.antt =====
-- `validate_installation_session_response`: a bearer token, bound to the signed request.
use limitlesslibrary.Base.{
  ℕ, ◌+◌, String, ◌<>◌, Bool, true, not, ◌&&◌, ◌||◌, Option, none, some, List, [], ◌∷◌, map, ltb,
  leb, texts_eq, codes, str_eq, take_text, drop_text, Outcome, ok, ◌>>=◌, ◌>>◌, require,
}
use limitlesslibrary.Base.Json.{Json, str, object, array, Fields, get, equals_text}
use limitlesslibrary.Service.Shape.{
  Failure, contract_error, overflow_error, Bytes, Toolkit, exact_fields, bounded_text, digest_text,
  timestamp,
}
use limitlesslibrary.Service.Roots.{end_of_time}
use limitlesslibrary.Identity.{
  is_installation, is_installation_session, is_installation_space, is_session_token,
  capabilities_of, installation_tenant_id,
}
use limitlesslibrary.Identity.Requests.{SessionRequest, validate_session_request, short_enough}

abbrev pub response_version : String
response_version = "limitless.installation-session-response/1.0"

pub record Response : Type 0 where
  pub access_token : String
  pub session_id : String
  pub installation_id : String
  pub tenant_id : String
  pub policy_digest : String
  pub capabilities : List String
  pub issued_at : String
  pub expires_at : String

abbrev pub response_json : Response → Json
response_json r = object (
    ("schemaVersion", str response_version)
    ∷ ("accessToken", str r.access_token)
    ∷ ("tokenType", str "Bearer")
    ∷ ("sessionId", str r.session_id)
    ∷ ("installationId", str r.installation_id)
    ∷ ("tenantId", str r.tenant_id)
    ∷ ("acceptedPolicyDigest", str r.policy_digest)
    ∷ ("capabilities", array (map (λ s. str s) r.capabilities))
    ∷ ("issuedAt", str r.issued_at)
    ∷ ("expiresAt", str r.expires_at)
    ∷ [])

abbrev pub response_fields : List String
response_fields =
    "schemaVersion" ∷ "accessToken" ∷ "tokenType" ∷ "sessionId" ∷ "installationId" ∷ "tenantId"
    ∷ "acceptedPolicyDigest" ∷ "capabilities" ∷ "issuedAt" ∷ "expiresAt" ∷ []

-- `at`, where it is given: the last second is not current.
unfoldable pub is_live : Option ℕ → ℕ → ℕ → Bool
is_live none issued expires = true
is_live (some at) issued expires = not (ltb at issued || leb expires at)

module _ (kit : Toolkit) where
  -- `sha256_bytes(token.encode("ascii"))`
  abbrev pub session_id_of : String → String
  session_id_of token =
      "installation-session:" <> take_text 32 (drop_text 7 (kit.sha256 (codes token)))

  -- The token, and the session that is named after it.
  unfoldable pub token_of : Fields → Outcome Failure (String × String)
  token_of response = do
    token ←
        bounded_text (get response "accessToken") "installation session accessToken" 47
          is_session_token
    session_id ←
        bounded_text (get response "sessionId") "installation session sessionId" 53
          is_installation_session
    require (str_eq session_id (session_id_of token))
        (contract_error "installation session token is unbound")
    ok (token, session_id)

  -- The times of a response, against those of its request.
  unfoldable pub response_times : Fields → SessionRequest → Option ℕ → Outcome Failure (ℕ × ℕ)
  response_times response request at = do
    issued ← timestamp kit (get response "issuedAt") "installation session issuedAt"
    expires ← timestamp kit (get response "expiresAt") "installation session expiresAt"
    request_issued ←
        timestamp kit (str request.unsigned.issued_at) "installation session request issuedAt"
    request_expires ←
        timestamp kit (str request.unsigned.expires_at) "installation session request expiresAt"
    require (leb request_issued issued && leb issued request_expires && ltb issued expires)
        (contract_error "installation session response lifetime is invalid")
    require (ltb (issued + request.unsigned.session_ttl) end_of_time) overflow_error
    require (leb expires (issued + request.unsigned.session_ttl))
        (contract_error "installation session response lifetime is invalid")
    require (is_live at issued expires)
        (contract_error "installation session response is not current")
    ok (issued, expires)

  -- What the response repeats of its request. The tenant's name is read when the rest agrees.
  unfoldable pub check_request :
      Fields → String → String → List String → SessionRequest → Outcome Failure (Unit {0})
  check_request response installation tenant capabilities request = do
    require
        (equals_text (get response "schemaVersion") response_version
          && equals_text (get response "tokenType") "Bearer"
          && str_eq installation request.unsigned.installation_id)
        (contract_error "installation session response differs from its request")
    expected_tenant ← installation_tenant_id installation
    require
        (str_eq tenant expected_tenant
          && equals_text (get response "acceptedPolicyDigest") request.unsigned.policy_digest
          && texts_eq capabilities request.unsigned.capabilities)
        (contract_error "installation session response differs from its request")
    ok tt

  -- The fields that a response repeats and adds, behind the checks on its request.
  unfoldable pub session_of : Fields → SessionRequest → Option ℕ → Outcome Failure Response
  session_of response request at = do
    token ← token_of response
    installation ←
        bounded_text (get response "installationId") "installation session installationId" 45
          is_installation
    tenant ←
        bounded_text (get response "tenantId") "installation session tenantId" 51
          is_installation_space
    capabilities ← capabilities_of (get response "capabilities")
    times ← response_times response request at
    check_request response installation tenant capabilities request
    policy_digest ←
        digest_text (get response "acceptedPolicyDigest")
          "installation session acceptedPolicyDigest"
    ok (record {
      access_token = token.0;
      session_id = token.1;
      installation_id = installation;
      tenant_id = tenant;
      policy_digest = policy_digest;
      capabilities = capabilities;
      issued_at = kit.isoformat times.0;
      expires_at = kit.isoformat times.1;
    })

  -- `validate_installation_session_response`; `expected_request` is a dict already.
  unfoldable pub validate_session_response :
      Json → Json → Bytes → Option ℕ → Outcome Failure (SessionRequest × Response)
  validate_session_response value expected_request current_public_key at = do
    response ← exact_fields value response_fields "installation session response"
    request ← validate_session_request kit expected_request current_public_key none
    result ← session_of response request at
    short_enough kit (response_json result) "installation session response"
    ok (request, result)
