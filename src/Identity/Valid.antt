-- ===== src/Identity/Valid.antt =====
-- What a validated state of an installation holds, and what validation keeps of a state.
use limitlesslibrary.Base.{
  ℕ, ◌≡◌, refl, sym, ap, ◌∙◌, String, true, Option, none, some, leb, ◌==◌, str_eq, eq_iff, length,
  Outcome, ok, raised, bind_ok, require_ok, ok-injective, arith,
}
use mathlib.Core.Path.{subst}
use limitlesslibrary.Base.Json.{Json, null, str, obj, Fields, get, equals_text}
use limitlesslibrary.Service.Shape.{
  Failure, contract_error, type_error, overflow_error, Bytes, Toolkit, exact_fields, bounded_int,
}
use limitlesslibrary.Identity.{installation_id, installation_key_id}
use limitlesslibrary.Identity.Requests.{SessionRequest}
use limitlesslibrary.Identity.Attestation.{Attestation, validate_attestation}
use limitlesslibrary.Identity.Response.{response_fields, validate_session_response}
use limitlesslibrary.Identity.Bound.{IsSigned, Answers, validate_session_response-Answers}
use limitlesslibrary.Identity.Custody.{
  Keys, CachedSession, State, state_json, lifted, caught, state_item, service_name, from_encoded,
  is_bound_attestation, given_attestation, attestation_of, dict_of, is_attested, is_bound_request,
  given_session, cached_session_of, validate_state,
}

pub caught_ok :
    {A : Type 0} (o : Outcome Failure A) (m : String) (a : A) → caught o m ≡ ok a → o ≡ ok a
caught_ok (ok b) m a h = ap (λ x. ok x) (ok-injective h)
caught_ok (raised (contract_error e)) m a h = ground arith
caught_ok (raised type_error) m a h = ground arith
caught_ok (raised overflow_error) m a h = ground arith

pub lifted_ok : {A : Type 0} (o : Outcome Failure A) (a : A) → lifted o ≡ ok a → o ≡ ok a
lifted_ok (ok b) a h = ap (λ x. ok x) (ok-injective h)
lifted_ok (raised e) a h = ground arith

module _ (kit : Toolkit) (keys : Keys) where
  -- The service states that the key is this installation's, and that it is active.
  pub record Attests (s : State) (a : Attestation) : Type 0 where
    pub service : a.unsigned.service_id ≡ s.service_id
    pub installation : a.unsigned.installation_id ≡ s.installation_id
    pub key_named :
        installation_key_id kit (keys.public_of s.signer) ≡ ok a.unsigned.current_key.key_id
    pub status : a.unsigned.status ≡ "active"

  abbrev pub Attested : State → Option Attestation → Type 0
  Attested s none = s.generation ≡ 1
  Attested s (some a) = Attests s a

  -- A session was answered to a request that the key has signed, for this installation.
  pub record Holds (s : State) (c : CachedSession) : Type 0 where
    pub signed : IsSigned kit (keys.public_of s.signer) c.request
    pub answers : Answers kit none c.request c.response
    pub installation : c.request.unsigned.installation_id ≡ s.installation_id
    pub attested : is_attested kit keys s.attestation ≡ true

  abbrev pub Sessions : State → Option CachedSession → Type 0
  Sessions s none = Unit
  Sessions s (some c) = Holds s c

  pub record IsValid (s : State) : Type 0 where
    pub key_text : s.private_key ≡ kit.encode64 s.signer
    pub derived :
        installation_id kit (str s.service_id) (keys.public_of s.signer) ≡ ok s.installation_id
    pub attestation : Attested s s.attestation
    pub session : Sessions s s.session

  attestation_parts :
      (a : Attestation) (service identifier : String) (n : ℕ) (id : String) (public : Bytes)
      → is_bound_attestation kit keys a service identifier n id public ≡ true
      → (str_eq a.unsigned.service_id service ≡ true)
        × (str_eq a.unsigned.installation_id identifier ≡ true)
        × (str_eq a.unsigned.current_key.key_id id ≡ true)
        × (str_eq a.unsigned.status "active" ≡ true)
  unfolding is_bound_attestation
  attestation_parts a service identifier n id public h = ground arith

  request_parts :
      (q : SessionRequest) (service identifier : String) (n : ℕ) (id : String)
      (o : Option Attestation)
      → is_bound_request kit keys q service identifier n id o ≡ true
      → (str_eq q.unsigned.installation_id identifier ≡ true) × (is_attested kit keys o ≡ true)
  unfolding is_bound_request
  request_parts q service identifier n id o h = ground arith

  given-Attests :
      (value : Json) (service identifier : String) (n : ℕ) (public : Bytes) (o : Option Attestation)
      → given_attestation kit keys value service identifier n public ≡ ok o
      → (a : Attestation) × (o ≡ some a)
        × (a.unsigned.service_id ≡ service)
        × (a.unsigned.installation_id ≡ identifier)
        × (installation_key_id kit public ≡ ok a.unsigned.current_key.key_id)
        × (a.unsigned.status ≡ "active")
  unfolding given_attestation
  given-Attests value service identifier n public o h =
      let (a, _, h1) = bind_ok (caught (validate_attestation kit value none) _) _ h in
      let (id, named, h2) = bind_ok (lifted (installation_key_id kit public)) _ h1 in
      let (bound, h3) =
        require_ok (is_bound_attestation kit keys a service identifier n id public) _ _ h2 in
      let (b1, b2, b4, b6) = attestation_parts a service identifier n id public bound in
      (
        a,
        sym (ok-injective h3),
        (eq_iff a.unsigned.service_id service).0 b1,
        (eq_iff a.unsigned.installation_id identifier).0 b2,
        lifted_ok (installation_key_id kit public) id named
            ∙ ap (λ s. ok s) (sym ((eq_iff a.unsigned.current_key.key_id id).0 b4)),
        (eq_iff a.unsigned.status "active").0 b6,
      )

  attestation-Attested :
      (value : Json) (s : State)
      → attestation_of kit keys value s.service_id s.installation_id s.generation
          (keys.public_of s.signer)
        ≡ ok s.attestation
      → Attested s s.attestation
  unfolding attestation_of
  attestation-Attested null s h =
      let (first, h1) = require_ok (s.generation == 1) _ _ h in
      subst (Attested s) (ok-injective h1) (ground (arith, first))
  attestation-Attested value s h =
      let (a, e, service, installation, named, status) =
        given-Attests value s.service_id s.installation_id s.generation (keys.public_of s.signer)
          s.attestation h in
      subst (Attested s) (sym e) (record {
        service = service;
        installation = installation;
        key_named = named;
        status = status;
      })

  given-Holds :
      (value : Json) (s : State)
      → given_session kit keys value s.service_id s.installation_id s.generation
          (keys.public_of s.signer)
          s.attestation
        ≡ ok s.session
      → Sessions s s.session
  unfolding given_session
  given-Holds value s h =
      let public : Bytes = keys.public_of s.signer in
      let (d, _, h1) = bind_ok (caught (exact_fields value _ _) _) _ h in
      let (_, _, h2) =
        bind_ok (caught (exact_fields (get d "response") response_fields _) _) _ h1 in
      let (written, _, h3) = bind_ok (dict_of kit keys (get d "request")) _ h2 in
      let (valid, found, h4) =
        bind_ok
          (caught (validate_session_response kit (get d "response") (obj written) public none) _) _
          h3 in
      let (id, _, h5) = bind_ok (lifted (installation_key_id kit public)) _ h4 in
      let (bound, h6) =
        require_ok
          (is_bound_request kit keys valid.0 s.service_id s.installation_id s.generation id
            s.attestation)
          _ _ h5 in
      let (b2, b5) =
        request_parts valid.0 s.service_id s.installation_id s.generation id s.attestation bound in
      let (signed, answers) =
        validate_session_response-Answers kit (get d "response") (obj written) public none valid.0
          valid.1
          (caught_ok (validate_session_response kit (get d "response") (obj written) public none) _
            valid found) in
      subst (Sessions s) (ok-injective h6) (record {
        signed = signed;
        answers = answers;
        installation = (eq_iff valid.0.unsigned.installation_id s.installation_id).0 b2;
        attested = b5;
      })

  pub session-Holds :
      (value : Json) (s : State)
      → cached_session_of kit keys value s.service_id s.installation_id s.generation
          (keys.public_of s.signer)
          s.attestation
        ≡ ok s.session
      → Sessions s s.session
  unfolding cached_session_of
  session-Holds null s h = subst (Sessions s) (ok-injective h) tt
  session-Holds value s h = given-Holds value s h

  -- What a state has read from which field of its dict.
  pub record IsRead (d : Fields) (s : State) : Type 0 where
    pub service : service_name (get d "serviceId") ≡ ok s.service_id
    pub signer : from_encoded kit keys (get d "privateKey") ≡ ok s.signer
    pub key_text : s.private_key ≡ kit.encode64 s.signer
    pub derived :
        lifted (installation_id kit (str s.service_id) (keys.public_of s.signer))
        ≡ ok s.installation_id
    pub installation : equals_text (get d "installationId") s.installation_id ≡ true
    pub generation :
        (e : Failure) × (m : String) × (caught (bounded_int (get d "generation") 1 16 e) m
          ≡ ok s.generation)
    pub attestation :
        attestation_of kit keys
          (get d "attestation")
          s.service_id
          s.installation_id
          s.generation
          (keys.public_of s.signer)
        ≡ ok s.attestation
    pub session :
        cached_session_of kit keys
          (get d "session")
          s.service_id
          s.installation_id
          s.generation
          (keys.public_of s.signer)
          s.attestation
        ≡ ok s.session

  pub validate_state-IsRead :
      (value : Json) (s : State)
      → validate_state kit keys value ≡ ok s
      → (d : Fields) × (state_item value ≡ ok d) × IsRead d s
  unfolding validate_state
  validate_state-IsRead value s h =
      let (d, whole, h1) = bind_ok (state_item value) _ h in
      let (service_id, service, h2) = bind_ok (service_name (get d "serviceId")) _ h1 in
      let (signer, decoded, h3) = bind_ok (from_encoded kit keys (get d "privateKey")) _ h2 in
      let public : Bytes = keys.public_of signer in
      let (identifier, derived, h4) =
        bind_ok (lifted (installation_id kit (str service_id) public)) _ h3 in
      let (named, h5) = require_ok (equals_text (get d "installationId") identifier) _ _ h4 in
      let (generation, numbered, h6) =
        bind_ok (caught (bounded_int (get d "generation") 1 16 _) _) _ h5 in
      let (attestation, attested, h7) =
        bind_ok
          (attestation_of kit keys (get d "attestation") service_id identifier generation public) _
          h6 in
      let (session, held, h8) =
        bind_ok
          (cached_session_of kit keys (get d "session") service_id identifier generation public
            attestation)
          _ h7 in
      let found : State = record {
        service_id = service_id;
        installation_id = identifier;
        generation = generation;
        private_key = kit.encode64 signer;
        signer = signer;
        attestation = attestation;
        session = session;
      } in
      let (_, h9) = require_ok (leb (length (kit.canonical (state_json found))) 32768) _ _ h8 in
      (
        d,
        whole,
        subst (IsRead d) (ok-injective h9) (record {
          service = service;
          signer = decoded;
          key_text = refl;
          derived = derived;
          installation = named;
          generation = (_, _, numbered);
          attestation = attested;
          session = held;
        }),
      )

  -- Whatever is read from a file or sent by the service: a state that passes the validation is valid.
  pub validate_state-IsValid :
      (value : Json) (s : State) → validate_state kit keys value ≡ ok s → IsValid s
  validate_state-IsValid value s h =
      let (d, _, r) = validate_state-IsRead value s h in
      record {
        key_text = r.key_text;
        derived =
            lifted_ok (installation_id kit (str s.service_id) (keys.public_of s.signer))
              s.installation_id r.derived;
        attestation = attestation-Attested (get d "attestation") s r.attestation;
        session = session-Holds (get d "session") s r.session;
      }
