-- ===== src/Tests/Identities.antt =====
-- An installation whose key is the character `a` throughout, at a service that signs with `b`. The clock
-- stands at 5.
use limitlesslibrary.Base.{
  ◌≡◌, refl, String, ◌<>◌, none, some, [], ◌∷◌, ok, raised, is_sorted_set, sort_unique,
  insert_unique, codes_lt,
}
use limitlesslibrary.Base.Json.{Json, obj, Fields, fields_of}
use limitlesslibrary.Wire.Shape.{is_text, is_digest}
use limitlesslibrary.Service.Shape.{
  exact_fields, bounded_text, digest_text, is_identifier, is_base64url, bounded_int, bytes_eq,
  parse_utc, timestamp, base64url_decode,
}
use limitlesslibrary.Service.Roots.{root_of, within_lifetime}
use limitlesslibrary.Tests.Kits.{ticks, repeated, text_a, text_b, zeros, kit}
use limitlesslibrary.Identity.{
  is_installation, is_installation_session, is_installation_space, is_session_token, is_request,
  session_capabilities, capabilities_of, is_current, installation_tenant_id, decode_material,
  lifetime, installation_key_id, installation_id, public_key, signature_item, verify_signature,
}
use limitlesslibrary.Identity.Requests.{
  SessionRequest, session_request_json, short_enough, unsigned_registration_of,
  validate_registration_request, unsigned_session_of, validate_session_request,
}
use limitlesslibrary.Identity.Attestation.{
  Attestation, attestation_json, account_of, check_derived, unsigned_attestation_of, check_signed,
  validate_attestation,
}
use limitlesslibrary.Identity.Response.{
  Response, response_json, is_live, token_of, response_times, check_request, session_of,
  validate_session_response,
}
use limitlesslibrary.Identity.Bound.{IsSigned, Answers, validate_session_response-Answers}
use limitlesslibrary.Identity.Build.{
  sign_payload, expiry, build_registration_request, build_session_request,
}
use limitlesslibrary.Identity.Custody.{
  identity_error, Keys, State, state_json, state_item, service_name, from_encoded,
  is_bound_attestation, given_attestation, attestation_of, is_bound_request, given_session,
  cached_session_of, validate_state,
}
use limitlesslibrary.Identity.Steps.{
  Connector, Os, Draw, cached_token, pending_state, read_state, registered, state_with_session,
  renewed,
}
use limitlesslibrary.Identity.Session.{
  replace_state, current_state, attested_state, token_state, authorized,
  ensure_installation_session,
}
use limitlesslibrary.Identity.Live.{IsLive}
use limitlesslibrary.Identity.Ensured.{
  Kept, ensure_installation_session-IsLive, ensure_installation_session_keeps,
}

abbrev keys : Keys
keys = record {
  public_of = λ m. m;
  sign_with = λ m payload. repeated 64 b'a';
  dict = λ value. raised (identity_error "no dict");
}

abbrev zeros32 : String
zeros32 = "00000000000000000000000000000000"

abbrev key_name : String
key_name = "key:installation:" <> zeros32

abbrev installation : String
installation = "installation:" <> zeros32

abbrev request : SessionRequest
request = record {
  unsigned = record {
    request_id = "request:session-1";
    service_id = "service:s";
    installation_id = installation;
    generation = 1;
    current_key_id = key_name;
    policy_digest = zeros;
    capabilities = session_capabilities;
    session_ttl = 900;
    issued_at = ticks 5;
    expires_at = ticks 125;
  };
  digest = zeros;
  proof = record { key_id = key_name; value = text_a <> text_a };
}

abbrev response : Response
response = record {
  access_token = "lst_" <> text_a;
  session_id = "installation-session:" <> zeros32;
  installation_id = installation;
  tenant_id = "installation-space:" <> zeros32;
  policy_digest = zeros;
  capabilities = session_capabilities;
  issued_at = ticks 5;
  expires_at = ticks 50;
}

accepts_response :
    validate_session_response kit
      (response_json response)
      (session_request_json request)
      (repeated 32 b'a')
      (some 5)
    ≡ ok (request, response)
unfolding validate_session_response validate_session_request exact_fields unsigned_session_of
    bounded_text is_text is_identifier bounded_int capabilities_of is_sorted_set sort_unique
    insert_unique codes_lt lifetime timestamp parse_utc within_lifetime is_current is_request
    is_installation is_digest digest_text signature_item is_base64url installation_key_id
    verify_signature short_enough session_of token_of is_session_token is_installation_session
    is_installation_space response_times is_live check_request installation_tenant_id
accepts_response = refl

validate_session_response-Answers_example :
    IsSigned kit (repeated 32 b'a') request × Answers kit (some 5) request response
validate_session_response-Answers_example =
    validate_session_response-Answers kit (response_json response) (session_request_json request)
      (repeated 32 b'a') (some 5) request response accepts_response

abbrev attestation : Attestation
attestation = record {
  unsigned = record {
    service_id = "service:s";
    installation_id = installation;
    current_key = record { key_id = key_name; value = text_a };
    generation = 1;
    account_id = none;
    status = "active";
    issued_at = ticks 5;
  };
  digest = zeros;
  service_signature = record { key_id = "result-key"; value = text_b <> text_b };
}

abbrev connector : Connector
connector = record {
  service_id = "service:s";
  policy_digest = zeros;
  inspect = ok (("result-key", repeated 32 b'b') ∷ []);
  register_installation = λ _. ok (attestation_json attestation);
  open_installation_session = λ _. ok (response_json response);
}

abbrev draw : Draw
draw = record {
  now = 5;
  fresh_key = repeated 32 b'a';
  registration_id = "request:registration-1";
  session_id = "request:session-1";
}

abbrev pending : State
pending = record {
  service_id = "service:s";
  installation_id = installation;
  generation = 1;
  private_key = text_a;
  signer = repeated 32 b'a';
  attestation = none;
  session = none;
}

abbrev request_fields : Json → Fields
request_fields (obj d) = d
request_fields _ = fields_of []

abbrev opened : State
opened = record pending {
  attestation = some attestation;
  session = some (record {
    written = request_fields (session_request_json request);
    request = request;
    response = response;
  });
}

abbrev os : Os
os = record {
  lock_fault = none;
  read_fault = none;
  write_fault = λ _. none;
  sync_fault = λ _. none;
  loads = λ _. ok (state_json pending);
}

-- The directory of the new file cannot be synchronised.
abbrev unsynced : Os
unsynced = record os {
  sync_fault = λ _. some (identity_error "installation identity state could not be persisted");
}

reads_pending : read_state kit keys unsynced (some (1 ∷ [])) ≡ ok (some pending)
unfolding read_state validate_state state_item service_name from_encoded installation_id
    bounded_text is_text is_identifier bounded_int attestation_of cached_session_of bytes_eq
reads_pending = refl

registers :
    registered kit keys connector draw pending (("result-key", repeated 32 b'b') ∷ [])
    ≡ ok (record pending { attestation = some attestation })
unfolding registered build_registration_request expiry sign_payload validate_registration_request
    unsigned_registration_of exact_fields public_key decode_material bounded_text is_text
    is_identifier is_base64url base64url_decode bytes_eq installation_key_id lifetime timestamp
    parse_utc within_lifetime is_current is_request digest_text is_digest signature_item
    verify_signature short_enough validate_attestation unsigned_attestation_of bounded_int
    account_of is_installation check_derived installation_id check_signed root_of validate_state
    state_item service_name from_encoded attestation_of given_attestation is_bound_attestation
    cached_session_of
registers = refl

opens :
    renewed kit keys connector draw (record pending { attestation = some attestation })
    ≡ ok ("lst_" <> text_a, opened)
unfolding renewed state_with_session build_session_request expiry sign_payload
    validate_session_response validate_session_request exact_fields unsigned_session_of bounded_text
    is_text is_identifier bounded_int capabilities_of is_sorted_set sort_unique insert_unique
    codes_lt lifetime timestamp parse_utc within_lifetime is_current is_request is_installation
    is_digest digest_text signature_item is_base64url installation_key_id verify_signature
    short_enough session_of token_of is_session_token is_installation_session is_installation_space
    response_times is_live check_request installation_tenant_id validate_state state_item
    service_name from_encoded installation_id attestation_of given_attestation is_bound_attestation
    cached_session_of given_session is_bound_request validate_attestation unsigned_attestation_of
    account_of check_derived check_signed public_key decode_material base64url_decode bytes_eq
opens = refl

-- A first call makes a key, registers it and opens a session.
first_call :
    (ensure_installation_session kit keys os connector draw none).0 ≡ ok ("lst_" <> text_a, opened)
unfolding ensure_installation_session current_state replace_state pending_state authorized
    attested_state token_state cached_token read_state validate_state state_item service_name
    from_encoded installation_id bounded_text is_text is_identifier bounded_int attestation_of
    cached_session_of bytes_eq registered build_registration_request expiry sign_payload
    validate_registration_request unsigned_registration_of exact_fields public_key decode_material
    is_base64url base64url_decode installation_key_id lifetime timestamp parse_utc within_lifetime
    is_current is_request digest_text is_digest signature_item verify_signature short_enough
    validate_attestation unsigned_attestation_of account_of is_installation check_derived
    check_signed root_of given_attestation is_bound_attestation renewed state_with_session
    build_session_request validate_session_response validate_session_request unsigned_session_of
    capabilities_of is_sorted_set sort_unique insert_unique codes_lt session_of token_of
    is_session_token is_installation_session is_installation_space response_times is_live
    check_request installation_tenant_id given_session is_bound_request
first_call = refl

ensure_installation_session-IsLive_example :
    IsLive kit keys connector draw ("lst_" <> text_a, opened)
ensure_installation_session-IsLive_example =
    ensure_installation_session-IsLive kit keys os connector draw none ("lst_" <> text_a, opened)
      first_call

ensure_installation_session_keeps_example :
    Kept kit keys unsynced connector draw pending
      (some (1 ∷ []))
      (ensure_installation_session kit keys unsynced connector draw (some (1 ∷ []))).1
ensure_installation_session_keeps_example =
    ensure_installation_session_keeps kit keys unsynced connector draw (some (1 ∷ [])) pending
      reads_pending
