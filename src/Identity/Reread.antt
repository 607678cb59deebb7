-- ===== src/Identity/Reread.antt =====
-- Records that the client writes are read back with the texts that they were written with.
use limitlesslibrary.Base.{
  ℕ, ◌≡◌, sym, ap, ◌∙◌, String, Bool, ◌&&◌, Option, none, List, leb, str_eq, ok, bind_ok,
  require_ok, ok-injective, arith,
}
use mathlib.Core.Path.{subst}
use limitlesslibrary.Base.Json.{Json, str, obj, Fields, get, equals_text}
use limitlesslibrary.Service.Shape.{
  Bytes, Toolkit, exact_fields, bounded_text, digest_text, bounded_int, is_identifier,
}
use limitlesslibrary.Identity.{
  is_request, is_installation, is_installation_space, is_installation_session, is_session_token,
  capabilities_of, installation_key_id, json_digest, signature_item, verify_signature, lifetime,
}
use limitlesslibrary.Identity.Requests.{
  UnsignedSessionRequest, SessionRequest, session_request_version, session_request_fields,
  session_request_json, unsigned_session_json, signed_session_json, short_enough,
  unsigned_session_of, validate_session_request,
}
use limitlesslibrary.Identity.Response.{
  Response, response_fields, response_json, session_id_of, token_of, response_times, check_request,
  session_of, validate_session_response,
}
use limitlesslibrary.Identity.Build.{
  Authority, SessionOrder, sign_payload, expiry, build_session_request,
}

bounded_text-str :
    (value : Json) (label : String) (maximum : ℕ) (pattern : List ℕ → Bool) (s : String)
    → bounded_text value label maximum pattern ≡ ok s
    → value ≡ str s
unfolding bounded_text
bounded_text-str (str t) label maximum pattern s h = ground arith
bounded_text-str _ label maximum pattern s h = ground arith

str-injective : (s t : String) → str s ≡ str t → s ≡ t
str-injective s t h = cc

digest_text-str : (value : Json) (label s : String) → digest_text value label ≡ ok s → value ≡ str s
unfolding digest_text
digest_text-str value label s h = bounded_text-str value label 71 _ s h

pub exact_fields_same :
    (d e : Fields) (names : List String) (label : String)
    → exact_fields (obj d) names label ≡ ok e
    → e ≡ d
unfolding exact_fields
exact_fields_same d e names label h = ground arith

module _ (kit : Toolkit) where
  token_of-str :
      (d : Fields) (t : String × String) → token_of kit d ≡ ok t → get d "accessToken" ≡ str t.0
  unfolding token_of
  token_of-str d t h =
      let (token, e, h1) = bind_ok (bounded_text (get d "accessToken") _ 47 is_session_token) _ h in
      let (id, _, h2) =
        bind_ok (bounded_text (get d "sessionId") _ 53 is_installation_session) _ h1 in
      let (_, h3) = require_ok (str_eq id (session_id_of kit token)) _ _ h2 in
      let same : (token, id) ≡ t = ok-injective h3 in
      bounded_text-str (get d "accessToken") _ 47 is_session_token token e ∙ ap (λ p. str p.0) same

  abbrev pub ReadsFrom : Fields → Response → Type 0
  ReadsFrom d r =
      (get d "accessToken" ≡ str r.access_token)
      × (get d "acceptedPolicyDigest" ≡ str r.policy_digest)

  session_of-ReadsFrom :
      (d : Fields) (q : SessionRequest) (at : Option ℕ) (r : Response)
      → session_of kit d q at ≡ ok r
      → ReadsFrom d r
  unfolding session_of
  session_of-ReadsFrom d q at r h =
      let (token, bound, h3) = bind_ok (token_of kit d) _ h in
      let (installation, _, h4) =
        bind_ok (bounded_text (get d "installationId") _ 45 is_installation) _ h3 in
      let (tenant, _, h5) =
        bind_ok (bounded_text (get d "tenantId") _ 51 is_installation_space) _ h4 in
      let (capabilities, _, h6) = bind_ok (capabilities_of (get d "capabilities")) _ h5 in
      let (times, _, h7) = bind_ok (response_times kit d q at) _ h6 in
      let (_, _, h8) = bind_ok (check_request kit d installation tenant capabilities q) _ h7 in
      let (digest, policy, h9) = bind_ok (digest_text (get d "acceptedPolicyDigest") _) _ h8 in
      subst (ReadsFrom d) (ok-injective h9)
        (token_of-str d token bound, digest_text-str (get d "acceptedPolicyDigest") _ digest policy)

  -- A response that was validated and is validated again has the same token and policy.
  pub response_reread :
      (r0 : Response) (expected : Json) (key : Bytes) (at : Option ℕ) (q : SessionRequest)
      (r : Response)
      → validate_session_response kit (response_json r0) expected key at ≡ ok (q, r)
      → (r.access_token ≡ r0.access_token) × (r.policy_digest ≡ r0.policy_digest)
  unfolding validate_session_response
  response_reread r0 expected key at q r h =
      let (d, whole, h1) = bind_ok (exact_fields (response_json r0) response_fields _) _ h in
      let (request, _, h2) = bind_ok (validate_session_request kit expected key none) _ h1 in
      let (result, found, h3) = bind_ok (session_of kit d request at) _ h2 in
      let (_, _, h4) = bind_ok (short_enough kit (response_json result) _) _ h3 in
      let reads =
        subst (λ e. ReadsFrom e result) (exact_fields_same _ d response_fields _ whole)
          (session_of-ReadsFrom d request at result found) in
      let same : result ≡ r = ap (λ p. p.1) (ok-injective h4) in
      (
        ap (λ x. x.access_token) (sym same)
            ∙ sym (str-injective r0.access_token result.access_token reads.0),
        ap (λ x. x.policy_digest) (sym same)
            ∙ sym (str-injective r0.policy_digest result.policy_digest reads.1),
      )

  unsigned_session_of-str :
      (d : Fields) (at : Option ℕ) (u : UnsignedSessionRequest)
      → unsigned_session_of kit d at ≡ ok u
      → get d "acceptedPolicyDigest" ≡ str u.policy_digest
  unfolding unsigned_session_of
  unsigned_session_of-str d at u h =
      let (_, h1) =
        require_ok (equals_text (get d "schemaVersion") session_request_version) _ _ h in
      let (generation, _, h2) = bind_ok (bounded_int (get d "generation") 1 16 _) _ h1 in
      let (capabilities, _, h3) = bind_ok (capabilities_of (get d "capabilities")) _ h2 in
      let (session_ttl, _, h4) = bind_ok (bounded_int (get d "sessionTtlSeconds") 60 3600 _) _ h3 in
      let (times, _, h5) =
        bind_ok (lifetime kit (get d "issuedAt") (get d "expiresAt") at _) _ h4 in
      let (request_id, _, h6) = bind_ok (bounded_text (get d "requestId") _ 128 is_request) _ h5 in
      let (service_id, _, h7) =
        bind_ok (bounded_text (get d "serviceId") _ 200 is_identifier) _ h6 in
      let (installation_id, _, h8) =
        bind_ok (bounded_text (get d "installationId") _ 45 is_installation) _ h7 in
      let (key_id, _, h9) =
        bind_ok (bounded_text (get d "currentKeyId") _ 200 is_identifier) _ h8 in
      let (digest, e, h10) = bind_ok (digest_text (get d "acceptedPolicyDigest") _) _ h9 in
      digest_text-str (get d "acceptedPolicyDigest") _ digest e
      ∙ ap (λ v. str v.policy_digest) (ok-injective h10)

  pub request_reread :
      (q0 : SessionRequest) (key : Bytes) (at : Option ℕ) (q : SessionRequest)
      → validate_session_request kit (session_request_json q0) key at ≡ ok q
      → q.unsigned.policy_digest ≡ q0.unsigned.policy_digest
  unfolding validate_session_request
  request_reread q0 key at q h =
      let (d, whole, h1) =
        bind_ok (exact_fields (session_request_json q0) session_request_fields _) _ h in
      let (u, found, h2) = bind_ok (unsigned_session_of kit d at) _ h1 in
      let (digest, _, h3) = bind_ok (digest_text (get d "requestDigest") _) _ h2 in
      let (_, h4) = require_ok (str_eq digest (json_digest kit (unsigned_session_json u))) _ _ h3 in
      let (proof, _, h5) = bind_ok (signature_item kit (get d "proof") _) _ h4 in
      let (id, _, h6) = bind_ok (installation_key_id kit key) _ h5 in
      let (_, h7) = require_ok (str_eq u.current_key_id id && str_eq proof.key_id id) _ _ h6 in
      let (_, _, h8) =
        bind_ok (verify_signature kit (signed_session_json u digest) proof key) _ h7 in
      let (_, _, h9) =
        bind_ok
          (short_enough kit
            (session_request_json (record { unsigned = u; digest = digest; proof = proof })) _)
          _ h8 in
      let reads =
        subst (λ e. get e "acceptedPolicyDigest" ≡ str u.policy_digest)
          (exact_fields_same _ d session_request_fields _ whole)
          (unsigned_session_of-str d at u found) in
      ap (λ x. x.unsigned.policy_digest) (sym (ok-injective h9))
      ∙ sym (str-injective q0.unsigned.policy_digest u.policy_digest reads)

  -- A request that is built asks for the policy of its order.
  pub build_session_request_policy :
      (signer : Authority) (o : SessionOrder) (issued : ℕ) (q : SessionRequest)
      → build_session_request kit signer o issued ≡ ok q
      → q.unsigned.policy_digest ≡ o.policy_digest
  unfolding build_session_request
  build_session_request_policy signer o issued q h =
      let (_, h1) = require_ok (leb 1 o.request_ttl && leb o.request_ttl 300) _ _ h in
      let (id, _, h2) = bind_ok (installation_key_id kit signer.public) _ h1 in
      let (expires, _, h3) = bind_ok (expiry kit issued o.request_ttl) _ h2 in
      let u : UnsignedSessionRequest = record {
        request_id = o.request_id;
        service_id = o.service_id;
        installation_id = o.installation_id;
        generation = o.generation;
        current_key_id = id;
        policy_digest = o.policy_digest;
        capabilities = o.capabilities;
        session_ttl = o.session_ttl;
        issued_at = kit.isoformat issued;
        expires_at = expires;
      } in
      let (proof, _, h4) =
        bind_ok
          (sign_payload kit (signed_session_json u (json_digest kit (unsigned_session_json u)))
            signer id)
          _ h3 in
      request_reread
        (record { unsigned = u; digest = json_digest kit (unsigned_session_json u); proof = proof })
        signer.public none q h4

  -- The request that a response is compared with is the expected one.
  pub response_request :
      (value expected : Json) (key : Bytes) (at : Option ℕ) (q : SessionRequest) (r : Response)
      → validate_session_response kit value expected key at ≡ ok (q, r)
      → validate_session_request kit expected key none ≡ ok q
  unfolding validate_session_response
  response_request value expected key at q r h =
      let (d, _, h1) = bind_ok (exact_fields value response_fields _) _ h in
      let (request, valid, h2) = bind_ok (validate_session_request kit expected key none) _ h1 in
      let (result, _, h3) = bind_ok (session_of kit d request at) _ h2 in
      let (_, _, h4) = bind_ok (short_enough kit (response_json result) _) _ h3 in
      valid ∙ ap (λ p. ok p.0) (ok-injective h4)
