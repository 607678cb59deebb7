-- ===== src/Identity/Steps.antt =====
-- What `ensure_installation_session` of `service_identity.py` computes between the accesses to its file: the
-- token of a cached session, and the states with a new key, a new attestation or a new session.
use limitlesslibrary.Base.{
  ℕ, ◌+◌, String, Bool, not, ◌&&◌, ◌||◌, Option, none, some, ltb, leb, ◌==◌, str_eq, length,
  texts_eq, if◌then◌else◌, Outcome, ok, raised, ◌>>=◌, ◌>>◌, require,
}
use limitlesslibrary.Base.Json.{Json, null, str}
use limitlesslibrary.Service.Shape.{
  Failure, contract_error, overflow_error, Bytes, Toolkit, naive, out_of_range, instant,
}
use limitlesslibrary.Service.Roots.{Roots, end_of_time}
use limitlesslibrary.Identity.{session_capabilities, installation_id, installation_key_id}
use limitlesslibrary.Identity.Requests.{SessionRequest, registration_json, session_request_json}
use limitlesslibrary.Identity.Attestation.{attestation_json, validate_attestation}
use limitlesslibrary.Identity.Response.{Response, validate_session_response}
use limitlesslibrary.Identity.Build.{
  SessionOrder, build_registration_request, build_session_request,
}
use limitlesslibrary.Identity.Custody.{
  IdentityFailure, identity_error, unavailable, service_error, passing, Keys, CachedSession, State,
  attestation_or_null, session_json, state_with, lifted, caught, signer_of, validate_state,
}
use limitlesslibrary.Base.{in_list, [], ◌∷◌}
use limitlesslibrary.Base.Json.{object, int, pos}
use limitlesslibrary.Identity.{json_digest}
use limitlesslibrary.Identity.Custody.{is_attested}
use limitlesslibrary.Identity.Attestation.{Attestation}

-- What the connector's requests raise.
pub data ServiceFailure : Type 0 where
  service_unavailable : ServiceFailure
  service_refused : String → ServiceFailure

-- The connector: the service of its profile, the keys that `inspect` has verified, and the two
-- requests.
pub record Connector : Type 0 where
  pub service_id : String
  pub policy_digest : String
  pub inspect : Outcome ServiceFailure Roots
  pub register_installation : Json → Outcome ServiceFailure Json
  pub open_installation_session : Json → Outcome ServiceFailure Json

-- The operating system's part: what securing the directory and taking the lock raise, what the
-- checks of the file before it is read raise, what a write of these bytes raises before `os.replace`
-- has put them in place and what the synchronisation of the directory raises after it, and how bytes
-- are read as JSON, where each `ValueError` is a `contract_error`.
pub record Os : Type 0 where
  pub lock_fault : Option IdentityFailure
  pub read_fault : Option IdentityFailure
  pub write_fault : Bytes → Option IdentityFailure
  pub sync_fault : Bytes → Option IdentityFailure
  pub loads : Bytes → Outcome Failure Json

-- What a call draws: the time in whole seconds, a new private key, and the names of its requests.
pub record Draw : Type 0 where
  pub now : ℕ
  pub fresh_key : Bytes
  pub registration_id : String
  pub session_id : String

abbrev pub unless_fault :
    {A : Type 0} → Option IdentityFailure → Outcome IdentityFailure A → Outcome IdentityFailure A
unless_fault none o = o
unless_fault (some e) o = raised e

-- `except ServiceUnavailableError`, `except (ServiceConnectorError, InstallationIdentityContractError)`
abbrev pub answered :
    {A : Type 0} → Outcome ServiceFailure A → String → String → Outcome IdentityFailure A
answered (ok a) gone unverified = ok a
answered (raised service_unavailable) gone unverified = raised (unavailable gone)
answered (raised (service_refused m)) gone unverified = raised (identity_error unverified)

-- `inspect` is outside the second `except`.
abbrev pub inspected : Outcome ServiceFailure Roots → Outcome IdentityFailure Roots
inspected (ok keys) = ok keys
inspected (raised service_unavailable) =
    raised (unavailable "anonymous service identity is unavailable; continue locally")
inspected (raised (service_refused m)) = raised (service_error m)

module _ (kit : Toolkit) (keys : Keys) where
  -- `_parse_time`: the one text of its time.
  unfoldable pub parse_time : String → Outcome IdentityFailure ℕ
  parse_time s = elim (kit.fromisoformat s) [
    | none ↦ raised (identity_error "installation session expiresAt is invalid")
    | some naive ↦ raised (identity_error "installation session expiresAt is invalid")
    | some out_of_range ↦ raised (passing overflow_error)
    | some (instant seconds micros) ↦
        if (micros == 0) && str_eq (kit.isoformat seconds) s
        then ok seconds
        else raised (identity_error "installation session expiresAt is invalid")
  ]

  -- `expires <= now + SESSION_REFRESH_MARGIN`, for thirty seconds
  unfoldable pub is_expiring : ℕ → ℕ → Outcome IdentityFailure Bool
  is_expiring expires now =
      if ltb (now + 30) end_of_time
      then ok (leb expires (now + 30))
      else raised (passing overflow_error)

  -- A session that may be used: with this policy, with every capability, and for a while yet.
  unfoldable pub session_token :
      CachedSession → String → ℕ → Outcome IdentityFailure (Option String)
  session_token c policy_digest now =
      if not (str_eq c.response.policy_digest policy_digest)
        || not (str_eq c.request.unsigned.policy_digest policy_digest)
        || not (texts_eq c.request.unsigned.capabilities session_capabilities)
      then ok none
      else (do
        expires ← parse_time c.response.expires_at
        expiring ← is_expiring expires now
        ok (if expiring then none else some c.response.access_token))

  abbrev pub any_token : Option CachedSession → String → ℕ → Outcome IdentityFailure (Option String)
  any_token none policy_digest now = ok none
  any_token (some c) policy_digest now = session_token c policy_digest now

  -- `_cached_token`
  unfoldable pub cached_token : State → String → ℕ → Outcome IdentityFailure (Option String)
  cached_token s policy_digest now = any_token s.session policy_digest now

  -- `_pending_state`
  unfoldable pub pending_state : String → Bytes → Outcome IdentityFailure State
  pending_state service_id fresh = do
    identifier ← lifted (installation_id kit (str service_id) (keys.public_of fresh))
    ok (record {
      service_id = service_id;
      installation_id = identifier;
      generation = 1;
      private_key = kit.encode64 fresh;
      signer = fresh;
      attestation = none;
      session = none;
    })

  module _ (os : Os) where
    -- `except ServiceIdentityError: raise`, `except (OSError, UnicodeError, …, ValueError)`
    abbrev pub readable : Outcome IdentityFailure State → Outcome IdentityFailure State
    readable (raised (passing (contract_error m))) =
        raised (identity_error "installation identity state is unreadable")
    readable o = o

    abbrev pub loaded : Bytes → Outcome IdentityFailure State
    loaded raw = do
      require (leb 1 (length raw) && leb (length raw) 32768)
          (identity_error "installation identity state is invalid")
      value ← lifted (os.loads raw)
      validate_state kit keys value

    -- `_read_state`
    unfoldable pub read_state : Option Bytes → Outcome IdentityFailure (Option State)
    read_state none = ok none
    read_state (some raw) = do s ← unless_fault os.read_fault (readable (loaded raw)); ok (some s)

    abbrev digest_or_null : Option Attestation → Json
    digest_or_null none = null
    digest_or_null (some a) = str a.digest

    abbrev fingerprint_of : Option State → Option String
    fingerprint_of none = none
    fingerprint_of (some s) = some (
        json_digest kit (
          object (
            ("serviceId", str s.service_id)
            ∷ ("installationId", str s.installation_id)
            ∷ ("generation", int (pos s.generation))
            ∷ ("attestationDigest", digest_or_null s.attestation)
            ∷ [])))

    -- `installation_state_fingerprint`
    unfoldable pub state_fingerprint : Option Bytes → Outcome IdentityFailure (Option String)
    state_fingerprint file = do found ← read_state file; ok (fingerprint_of found)

    -- A state with which the installation may publish.
    abbrev publishing : Option State → String → Outcome IdentityFailure (State × CachedSession)
    publishing (some s) service_id = elim s.session [
      | some c ↦
          if str_eq s.service_id service_id && is_attested kit keys s.attestation
          then ok (s, c)
          else raised (identity_error "installation publisher authority is unavailable")
      | none ↦ raised (identity_error "installation publisher authority is unavailable")
    ]
    publishing none service_id =
        raised (identity_error "installation publisher authority is unavailable")

    -- `installation_publisher_authority`, for a path that is absolute: the private key, and who signs
    -- with it: the service, the publisher, the authority, the key and its generation.
    unfoldable pub publisher_authority :
        Option Bytes
        → String
        → Outcome IdentityFailure (Bytes × String × String × String × String × ℕ)
    publisher_authority file service_id = do
      unless_fault os.lock_fault (ok tt)
      found ← read_state file
      s ← publishing found service_id
      require (in_list "submissions" s.1.response.capabilities)
          (identity_error "installation session does not allow submissions")
      key_id ← lifted (installation_key_id kit (keys.public_of s.0.signer))
      ok (
        s.0.signer, s.0.service_id, s.0.installation_id, s.1.response.tenant_id, key_id,
        s.0.generation,
      )

  module _ (connector : Connector) (draw : Draw) where
    -- A new attestation, verified and bound.
    unfoldable pub registered : State → Roots → Outcome IdentityFailure State
    registered s service_keys = do
      r ← lifted (
          build_registration_request kit (signer_of kit keys s.signer) s.service_id
            draw.registration_id draw.now 120)
      value ←
          answered (connector.register_installation (registration_json r))
            "anonymous service registration is unavailable; continue locally"
            "anonymous service registration could not be verified"
      a ←
          caught (validate_attestation kit value (some service_keys))
            "anonymous service registration could not be verified"
      key_id ← lifted (installation_key_id kit (keys.public_of s.signer))
      require
          (str_eq a.unsigned.service_id s.service_id
            && str_eq a.unsigned.installation_id s.installation_id
            && (a.unsigned.generation == s.generation)
            && str_eq a.unsigned.current_key.key_id key_id
            && str_eq a.unsigned.status "active")
          (identity_error "anonymous service registration returned another identity")
      validate_state kit keys (state_with s (attestation_json a) null)

    abbrev pub order_of : State → SessionOrder
    order_of s = record {
      service_id = s.service_id;
      installation_id = s.installation_id;
      generation = s.generation;
      request_id = draw.session_id;
      policy_digest = connector.policy_digest;
      capabilities = session_capabilities;
      request_ttl = 120;
      session_ttl = 900;
    }

    -- The state with a session: its token is that of the response.
    unfoldable pub state_with_session :
        State → SessionRequest → Response → Outcome IdentityFailure (String × State)
    state_with_session s q r = do
      t ← validate_state kit keys (
          state_with s (attestation_or_null s.attestation)
            (session_json (session_request_json q) r))
      ok (r.access_token, t)

    unfoldable pub renewed : State → Outcome IdentityFailure (String × State)
    renewed s = do
      q ← lifted (build_session_request kit (signer_of kit keys s.signer) (order_of s) draw.now)
      value ←
          answered (connector.open_installation_session (session_request_json q))
            "anonymous service session is unavailable; continue locally"
            "anonymous service session could not be verified"
      valid ←
          caught
            (validate_session_response kit value (session_request_json q) (keys.public_of s.signer)
              (some draw.now))
            "anonymous service session could not be verified"
      state_with_session s q valid.1
