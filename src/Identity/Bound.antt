-- ===== src/Identity/Bound.antt =====
-- What an accepted request and an accepted response prove.
use limitlesslibrary.Base.{
  ℕ, ◌+◌, ◌≤◌, ◌<◌, ◌≡◌, refl, sym, ap, ◌∙◌, String, true, ◌&&◌, Option, none, some, List, ltb, leb,
  str_eq, eq_iff, texts_eq, eq_of_texts_eq, and_three, and_parts, ok, bind_ok, require_ok,
  ok-injective, arith,
}
use mathlib.Core.Path.{subst}
use limitlesslibrary.Base.Json.{Json, str, Fields, get, equals_text}
use limitlesslibrary.Service.Shape.{
  Bytes, Toolkit, exact_fields, bounded_text, digest_text, timestamp,
}
use limitlesslibrary.Service.Roots.{end_of_time}
use limitlesslibrary.Identity.{
  is_installation, is_installation_space, is_installation_session, is_session_token,
  capabilities_of, installation_key_id, json_digest, signature_item, verify_signature,
  installation_tenant_id,
}
use limitlesslibrary.Identity.Requests.{
  SessionRequest, session_request_fields, unsigned_session_json, signed_session_json,
  session_request_json, short_enough, unsigned_session_of, validate_session_request,
}
use limitlesslibrary.Identity.Response.{
  Response, response_fields, response_json, session_id_of, is_live, token_of, response_times,
  response_version, session_of, check_request, validate_session_response,
}

-- A request that the key with these bytes has signed, and whose digest binds its content.
pub record IsSigned (kit : Toolkit) (key : Bytes) (r : SessionRequest) : Type 0 where
  pub key_named : installation_key_id kit key ≡ ok r.unsigned.current_key_id
  pub proof_named : r.proof.key_id ≡ r.unsigned.current_key_id
  pub bound : r.digest ≡ json_digest kit (unsigned_session_json r.unsigned)
  pub signed : verify_signature kit (signed_session_json r.unsigned r.digest) r.proof key ≡ ok tt

abbrev Live : Option ℕ → ℕ → ℕ → Type 0
Live none issued expires = Unit
Live (some at) issued expires = (issued ≤ at) × (at < expires)

-- The times of a session: within its request's, no longer than it asked for, and current.
pub record InTime (kit : Toolkit) (at : Option ℕ) (q : SessionRequest) (r : Response) : Type 0 where
  pub issued : ℕ
  pub expires : ℕ
  pub from : ℕ
  pub until : ℕ
  pub from_request : (label : String) × (timestamp kit (str q.unsigned.issued_at) label ≡ ok from)
  pub until_request :
      (label : String) × (timestamp kit (str q.unsigned.expires_at) label ≡ ok until)
  pub issued_text : r.issued_at ≡ kit.isoformat issued
  pub expires_text : r.expires_at ≡ kit.isoformat expires
  pub within :
      (from ≤ issued)
      × (issued ≤ until)
      × (issued < expires)
      × (expires ≤ issued + q.unsigned.session_ttl)
  pub live : Live at issued expires

-- A response that answers the request, with a token that its session is named after.
pub record Answers (kit : Toolkit) (at : Option ℕ) (q : SessionRequest) (r : Response)
    : Type 0 where
  pub named : r.session_id ≡ session_id_of kit r.access_token
  pub installation : r.installation_id ≡ q.unsigned.installation_id
  pub tenant : installation_tenant_id r.installation_id ≡ ok r.tenant_id
  pub policy : r.policy_digest ≡ q.unsigned.policy_digest
  pub capabilities : r.capabilities ≡ q.unsigned.capabilities
  pub in_time : InTime kit at q r

module _ (kit : Toolkit) where
  pub validate_session_request-IsSigned :
      (value : Json) (key : Bytes) (at : Option ℕ) (r : SessionRequest)
      → validate_session_request kit value key at ≡ ok r
      → IsSigned kit key r
  unfolding validate_session_request
  validate_session_request-IsSigned value key at r h =
      let (d, _, h1) = bind_ok (exact_fields value session_request_fields _) _ h in
      let (u, _, h2) = bind_ok (unsigned_session_of kit d at) _ h1 in
      let (digest, _, h3) = bind_ok (digest_text (get d "requestDigest") _) _ h2 in
      let (binds, h4) =
        require_ok (str_eq digest (json_digest kit (unsigned_session_json u))) _ _ h3 in
      let (proof, _, h5) = bind_ok (signature_item kit (get d "proof") _) _ h4 in
      let (id, names, h6) = bind_ok (installation_key_id kit key) _ h5 in
      let (same, h7) = require_ok (str_eq u.current_key_id id && str_eq proof.key_id id) _ _ h6 in
      let (_, verified, h8) =
        bind_ok (verify_signature kit (signed_session_json u digest) proof key) _ h7 in
      let (_, _, h9) =
        bind_ok
          (short_enough kit
            (session_request_json (record { unsigned = u; digest = digest; proof = proof })) _)
          _ h8 in
      let here : u.current_key_id ≡ id = (eq_iff u.current_key_id id).0 ((and_parts same).0) in
      subst (IsSigned kit key) (ok-injective h9) (record {
        key_named = names ∙ ap (λ s. ok s) (sym here);
        proof_named = (eq_iff proof.key_id id).0 ((and_parts same).1) ∙ sym here;
        bound = (eq_iff digest _).0 binds;
        signed = verified;
      })

  Live-Live :
      (at : Option ℕ) (issued expires : ℕ)
      → is_live at issued expires ≡ true
      → Live at issued expires
  unfolding is_live
  Live-Live none issued expires h = tt
  Live-Live (some at) issued expires h = ground arith

  equals-digest :
      (value : Json) (label s t : String)
      → digest_text value label ≡ ok s
      → equals_text value t ≡ true
      → s ≡ t
  unfolding digest_text bounded_text
  equals-digest (str u) label s t h e = let same = (eq_iff u t).0 e in ground (arith, same)
  equals-digest _ label s t h e = ground arith

  InTime-response_times :
      (d : Fields) (q : SessionRequest) (at : Option ℕ) (r : Response) (times : ℕ × ℕ)
      → response_times kit d q at ≡ ok times
      → r.issued_at ≡ kit.isoformat times.0
      → r.expires_at ≡ kit.isoformat times.1
      → InTime kit at q r
  unfolding response_times
  InTime-response_times d q at r times h issued_text expires_text =
      let (issued, _, h1) = bind_ok (timestamp kit (get d "issuedAt") _) _ h in
      let (expires, _, h2) = bind_ok (timestamp kit (get d "expiresAt") _) _ h1 in
      let (from, starts, h3) = bind_ok (timestamp kit (str q.unsigned.issued_at) _) _ h2 in
      let (until, ends, h4) = bind_ok (timestamp kit (str q.unsigned.expires_at) _) _ h3 in
      let (order, h5) =
        require_ok (leb from issued && leb issued until && ltb issued expires) _ _ h4 in
      let (_, h6) = require_ok (ltb (issued + q.unsigned.session_ttl) end_of_time) _ _ h5 in
      let (short, h7) = require_ok (leb expires (issued + q.unsigned.session_ttl)) _ _ h6 in
      let (live, h8) = require_ok (is_live at issued expires) _ _ h7 in
      let same : (issued, expires) ≡ times = ok-injective h8 in
      let (o1, o2, o3) =
        and_three {a = leb from issued} {b = leb issued until} {c = ltb issued expires} order in
      record {
        issued = issued;
        expires = expires;
        from = from;
        until = until;
        from_request = (_, starts);
        until_request = (_, ends);
        issued_text = issued_text ∙ ap (λ t. kit.isoformat t.0) (sym same);
        expires_text = expires_text ∙ ap (λ t. kit.isoformat t.1) (sym same);
        within =
            (ground (arith, o1), ground (arith, o2), ground (arith, o3), ground (arith, short));
        live = Live-Live at issued expires live;
      }

  token_of_named :
      (d : Fields) (t : String × String) → token_of kit d ≡ ok t → t.1 ≡ session_id_of kit t.0
  unfolding token_of
  token_of_named d t h =
      let (token, _, h1) = bind_ok (bounded_text (get d "accessToken") _ 47 is_session_token) _ h in
      let (id, _, h2) =
        bind_ok (bounded_text (get d "sessionId") _ 53 is_installation_session) _ h1 in
      let (names, h3) = require_ok (str_eq id (session_id_of kit token)) _ _ h2 in
      let same : (token, id) ≡ t = ok-injective h3 in
      ap (λ p. p.1) (sym same)
      ∙ (eq_iff id (session_id_of kit token)).0 names
      ∙ ap (λ p. session_id_of kit p.0) same

  -- What the last comparison with the request gives.
  abbrev Agrees : Fields → String → String → List String → SessionRequest → Type 0
  Agrees d installation tenant capabilities q =
      (installation ≡ q.unsigned.installation_id)
      × (installation_tenant_id installation ≡ ok tenant)
      × (equals_text (get d "acceptedPolicyDigest") q.unsigned.policy_digest ≡ true)
      × (capabilities ≡ q.unsigned.capabilities)

  check_request-Agrees :
      (d : Fields) (installation tenant : String) (capabilities : List String) (q : SessionRequest)
      → check_request kit d installation tenant capabilities q ≡ ok tt
      → Agrees d installation tenant capabilities q
  unfolding check_request
  check_request-Agrees d installation tenant capabilities q h =
      let (first, h1) =
        require_ok
          (equals_text (get d "schemaVersion") response_version
            && equals_text (get d "tokenType") "Bearer"
            && str_eq installation q.unsigned.installation_id)
          _ _ h in
      let (named, tenants, h2) = bind_ok (installation_tenant_id installation) _ h1 in
      let (last, _) =
        require_ok
          (str_eq tenant named
            && equals_text (get d "acceptedPolicyDigest") q.unsigned.policy_digest
            && texts_eq capabilities q.unsigned.capabilities)
          _ _ h2 in
      let (_, _, same) =
        and_three {a = equals_text (get d "schemaVersion") response_version}
          {b = equals_text (get d "tokenType") "Bearer"}
          {c = str_eq installation q.unsigned.installation_id} first in
      let (t, p, c) =
        and_three {a = str_eq tenant named}
          {b = equals_text (get d "acceptedPolicyDigest") q.unsigned.policy_digest}
          {c = texts_eq capabilities q.unsigned.capabilities} last in
      (
        (eq_iff installation q.unsigned.installation_id).0 same,
        tenants ∙ ap (λ s. ok s) (sym ((eq_iff tenant named).0 t)),
        p,
        eq_of_texts_eq capabilities q.unsigned.capabilities c,
      )

  session_of-Answers :
      (d : Fields) (q : SessionRequest) (at : Option ℕ) (r : Response)
      → session_of kit d q at ≡ ok r
      → Answers kit at q r
  unfolding session_of
  session_of-Answers d q at r h =
      let (token, bound, h3) = bind_ok (token_of kit d) _ h in
      let (installation, _, h4) =
        bind_ok (bounded_text (get d "installationId") _ 45 is_installation) _ h3 in
      let (tenant, _, h5) =
        bind_ok (bounded_text (get d "tenantId") _ 51 is_installation_space) _ h4 in
      let (capabilities, _, h6) = bind_ok (capabilities_of (get d "capabilities")) _ h5 in
      let (times, timed, h7) = bind_ok (response_times kit d q at) _ h6 in
      let (_, agrees, h8) = bind_ok (check_request kit d installation tenant capabilities q) _ h7 in
      let (digest, policy, h9) = bind_ok (digest_text (get d "acceptedPolicyDigest") _) _ h8 in
      let (same, tenants, policies, listed) =
        check_request-Agrees d installation tenant capabilities q agrees in
      subst (Answers kit at q) (ok-injective h9) (record {
        named = token_of_named d token bound;
        installation = same;
        tenant = tenants;
        policy =
            equals-digest (get d "acceptedPolicyDigest") _ digest q.unsigned.policy_digest policy
              policies;
        capabilities = listed;
        in_time = InTime-response_times d q at _ times timed refl refl;
      })

  -- A response that is accepted answers a request that its key has signed: the token is bound to its
  -- session's id, installation, policy and capabilities are those of the request, the tenant is named
  -- after the installation, and the session begins within the request's life, lasts no longer than
  -- it asked for, and is live at the time that is given.
  pub validate_session_response-Answers :
      (value expected : Json) (key : Bytes) (at : Option ℕ) (q : SessionRequest) (r : Response)
      → validate_session_response kit value expected key at ≡ ok (q, r)
      → IsSigned kit key q × Answers kit at q r
  unfolding validate_session_response
  validate_session_response-Answers value expected key at q r h =
      let (d, _, h1) = bind_ok (exact_fields value response_fields _) _ h in
      let (request, valid, h2) = bind_ok (validate_session_request kit expected key none) _ h1 in
      let (result, found, h3) = bind_ok (session_of kit d request at) _ h2 in
      let (_, _, h4) = bind_ok (short_enough kit (response_json result) _) _ h3 in
      subst (λ p. IsSigned kit key p.0 × Answers kit at p.0 p.1) (ok-injective h4)
        (
          validate_session_request-IsSigned expected key none request valid,
          session_of-Answers d request at result found,
        )
