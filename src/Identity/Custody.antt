-- ===== src/Identity/Custody.antt =====
-- The state that `service_identity.py` keeps on disk: one private key, what the service states of it, and a
-- session. `Keys` is Ed25519 on private keys; `dict` is what `dict(value)` makes of a value that is
-- no dict.
use limitlesslibrary.Base.{
  ℕ, String, Bool, true, false, ◌&&◌, Option, none, some, List, [], ◌∷◌, leb, ◌==◌, codes, str_eq,
  length, if◌then◌else◌, Outcome, ok, raised, ◌>>=◌, ◌>>◌, require,
}
use limitlesslibrary.Base.Json.{
  Json, null, str, int, pos, obj, object, Fields, fields_of, get, equals_text, keys_within,
  has_keys,
}
use text.Mathlib.Text.{starts_with}
use limitlesslibrary.Service.Shape.{
  Failure, contract_error, type_error, overflow_error, Bytes, Toolkit, bounded_int, exact_fields,
}
use limitlesslibrary.Identity.{installation_id, installation_key_id}
use limitlesslibrary.Identity.Requests.{SessionRequest}
use limitlesslibrary.Identity.Attestation.{Attestation, attestation_json, validate_attestation}
use limitlesslibrary.Identity.Response.{
  Response, response_json, response_fields, validate_session_response,
}
use limitlesslibrary.Identity.Build.{Authority}

-- `ServiceIdentityError` and `ServiceIdentityUnavailableError`, the connector's own error, and the
-- exceptions of the contracts that pass by.
pub data IdentityFailure : Type 0 where
  identity_error unavailable service_error : String → IdentityFailure
  passing : Failure → IdentityFailure

pub record Keys : Type 0 where
  pub public_of : Bytes → Bytes
  pub sign_with : Bytes → Bytes → Bytes
  pub dict : Json → Outcome IdentityFailure Fields

-- The request is kept as it was written, and as it was read.
pub record CachedSession : Type 0 where
  pub written : Fields
  pub request : SessionRequest
  pub response : Response

-- `signer` is the private key that `private_key` encodes.
pub record State : Type 0 where
  pub service_id : String
  pub installation_id : String
  pub generation : ℕ
  pub private_key : String
  pub signer : Bytes
  pub attestation : Option Attestation
  pub session : Option CachedSession

abbrev pub state_version : String
state_version = "limitless.installation-client-state/1.0"

abbrev pub attestation_or_null : Option Attestation → Json
attestation_or_null none = null
attestation_or_null (some a) = attestation_json a

abbrev pub session_json : Json → Response → Json
session_json written response =
    object (("request", written) ∷ ("response", response_json response) ∷ [])

abbrev pub session_or_null : Option CachedSession → Json
session_or_null none = null
session_or_null (some c) = session_json (obj c.written) c.response

-- A state with these two fields.
abbrev pub state_dict : State → Json → Json → Fields
state_dict s attestation session = fields_of (
    ("schemaVersion", str state_version)
    ∷ ("serviceId", str s.service_id)
    ∷ ("installationId", str s.installation_id)
    ∷ ("generation", int (pos s.generation))
    ∷ ("privateKey", str s.private_key)
    ∷ ("attestation", attestation)
    ∷ ("session", session)
    ∷ [])

abbrev pub state_with : State → Json → Json → Json
state_with s attestation session = obj (state_dict s attestation session)

abbrev pub state_json : State → Json
state_json s = state_with s (attestation_or_null s.attestation) (session_or_null s.session)

abbrev pub state_fields : List String
state_fields =
    "schemaVersion" ∷ "serviceId" ∷ "installationId" ∷ "generation" ∷ "privateKey" ∷ "attestation"
    ∷ "session" ∷ []

-- The exceptions of the contracts, and `except InstallationIdentityContractError`.
abbrev pub lifted : {A : Type 0} → Outcome Failure A → Outcome IdentityFailure A
lifted (ok a) = ok a
lifted (raised e) = raised (passing e)

abbrev pub caught : {A : Type 0} → Outcome Failure A → String → Outcome IdentityFailure A
caught (ok a) message = ok a
caught (raised (contract_error m)) message = raised (identity_error message)
caught (raised type_error) message = raised (passing type_error)
caught (raised overflow_error) message = raised (passing overflow_error)

abbrev no_key : IdentityFailure
no_key = identity_error "installation private key is invalid"

abbrev state_shape : Json → Bool
state_shape (obj d) =
    keys_within d state_fields
    && has_keys d state_fields
    && equals_text (get d "schemaVersion") state_version
state_shape _ = false

-- The dict of a state.
unfoldable pub state_item : Json → Outcome IdentityFailure Fields
state_item (obj d) =
    if state_shape (obj d)
    then ok d
    else raised (identity_error "installation identity state has an unsupported shape")
state_item _ = raised (identity_error "installation identity state has an unsupported shape")

unfoldable pub service_name : Json → Outcome IdentityFailure String
service_name (str s) =
    if starts_with s "service:"
    then ok s
    else raised (identity_error "installation identity service is invalid")
service_name _ = raised (identity_error "installation identity service is invalid")

module _ (kit : Toolkit) (keys : Keys) where
  -- `InstallationSigner.from_encoded`: the private key.
  unfoldable pub from_encoded : Json → Outcome IdentityFailure Bytes
  from_encoded (str s) = elim (kit.decode64 s) [
    | none ↦ raised no_key
    | some material ↦ do
      require
          ((length (codes s) == 43)
            && (length material == 32)
            && (length (keys.public_of material) == 32)
            && str_eq (kit.encode64 material) s)
          no_key
      ok material
  ]
  from_encoded _ = raised no_key

  -- `InstallationSigner`, as the builders take it.
  abbrev pub signer_of : Bytes → Authority
  signer_of material = record {
    public = keys.public_of material;
    sign = λ payload. some (kit.encode64 (keys.sign_with material payload));
  }

  -- The bindings of an attestation to the key.
  unfoldable pub is_bound_attestation : Attestation → String → String → ℕ → String → Bytes → Bool
  is_bound_attestation a service_id identifier generation key_id public =
      str_eq a.unsigned.service_id service_id
      && str_eq a.unsigned.installation_id identifier
      && (a.unsigned.generation == generation)
      && str_eq a.unsigned.current_key.key_id key_id
      && str_eq a.unsigned.current_key.value (kit.encode64 public)
      && str_eq a.unsigned.status "active"

  -- An attestation that is there, and whether there is one.
  unfoldable pub given_attestation :
      Json → String → String → ℕ → Bytes → Outcome IdentityFailure (Option Attestation)
  given_attestation value service_id identifier generation public = do
    a ← caught (validate_attestation kit value none) "installation attestation is invalid"
    key_id ← lifted (installation_key_id kit public)
    require (is_bound_attestation a service_id identifier generation key_id public)
        (identity_error "installation attestation is unbound")
    ok (some a)

  unfoldable pub attestation_of :
      Json → String → String → ℕ → Bytes → Outcome IdentityFailure (Option Attestation)
  attestation_of null service_id identifier generation public = do
    require (generation == 1) (identity_error "pending installation generation is invalid")
    ok none
  attestation_of value service_id identifier generation public =
      given_attestation value service_id identifier generation public

  -- `dict(value)`
  abbrev pub dict_of : Json → Outcome IdentityFailure Fields
  dict_of (obj d) = ok d
  dict_of value = keys.dict value

  abbrev pub is_attested : Option Attestation → Bool
  is_attested none = false
  is_attested (some a) = true

  -- The bindings of a session's request to the key.
  unfoldable pub is_bound_request :
      SessionRequest → String → String → ℕ → String → Option Attestation → Bool
  is_bound_request q service_id identifier generation key_id attestation =
      str_eq q.unsigned.service_id service_id
      && str_eq q.unsigned.installation_id identifier
      && (q.unsigned.generation == generation)
      && str_eq q.unsigned.current_key_id key_id
      && is_attested attestation

  -- A session that is there, and whether there is one.
  unfoldable pub given_session :
      Json
      → String
      → String
      → ℕ
      → Bytes
      → Option Attestation
      → Outcome IdentityFailure (Option CachedSession)
  given_session value service_id identifier generation public attestation = do
    session ←
        caught (exact_fields value ("request" ∷ "response" ∷ []) "")
          "cached installation session is invalid"
    _ ←
        caught (exact_fields (get session "response") response_fields "")
          "cached installation session is invalid"
    written ← dict_of (get session "request")
    valid ←
        caught (validate_session_response kit (get session "response") (obj written) public none)
          "cached installation session is invalid"
    key_id ← lifted (installation_key_id kit public)
    require (is_bound_request valid.0 service_id identifier generation key_id attestation)
        (identity_error "cached installation session is unbound")
    ok (some (record { written = written; request = valid.0; response = valid.1 }))

  unfoldable pub cached_session_of :
      Json
      → String
      → String
      → ℕ
      → Bytes
      → Option Attestation
      → Outcome IdentityFailure (Option CachedSession)
  cached_session_of null service_id identifier generation public attestation = ok none
  cached_session_of value service_id identifier generation public attestation =
      given_session value service_id identifier generation public attestation

  -- `validate_installation_state`
  unfoldable pub validate_state : Json → Outcome IdentityFailure State
  validate_state value = do
    d ← state_item value
    service_id ← service_name (get d "serviceId")
    signer ← from_encoded (get d "privateKey")
    identifier ← lifted (installation_id kit (str service_id) (keys.public_of signer))
    require (equals_text (get d "installationId") identifier)
        (identity_error "installation identity key binding is invalid")
    generation ←
        caught (bounded_int (get d "generation") 1 16 (contract_error ""))
          "installation identity key binding is invalid"
    attestation ←
        attestation_of (get d "attestation") service_id identifier generation
          (keys.public_of signer)
    session ←
        cached_session_of (get d "session") service_id identifier generation (keys.public_of signer)
          attestation
    let result : State = record {
      service_id = service_id;
      installation_id = identifier;
      generation = generation;
      private_key = kit.encode64 signer;
      signer = signer;
      attestation = attestation;
      session = session;
    }
    require (leb (length (kit.canonical (state_json result))) 32768)
        (identity_error "installation identity state exceeds its byte limit")
    ok result
