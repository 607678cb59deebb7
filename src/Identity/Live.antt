-- ===== src/Identity/Live.antt =====
-- What a call returns, and that it keeps the installation's key.
use limitlesslibrary.Base.{
  ℕ, ◌+◌, ◌<◌, ◌≡◌, refl, sym, ap, ◌∙◌, String, Bool, true, false, not, ◌||◌, Option, none, some,
  inl, inr, ◌⊎◌, str_eq, eq_iff, texts_eq, if◌then◌else◌, Outcome, ok, bind_ok, require_ok,
  ok-injective, arith,
}
use mathlib.Core.Path.{subst}
use limitlesslibrary.Base.Json.{Json, obj, get}
use limitlesslibrary.Service.Shape.{Bytes, Toolkit, exact_fields}
use limitlesslibrary.Identity.{session_capabilities, installation_key_id}
use limitlesslibrary.Identity.Requests.{SessionRequest, session_request_json}
use limitlesslibrary.Identity.Response.{Response, response_fields, validate_session_response}
use limitlesslibrary.Identity.Bound.{Answers, validate_session_response-Answers}
use limitlesslibrary.Identity.Build.{build_session_request}
use limitlesslibrary.Identity.Custody.{
  IdentityFailure, Keys, CachedSession, State, attestation_or_null, session_json, state_with,
  lifted, caught, signer_of, dict_of, is_bound_request, given_session, cached_session_of,
  validate_state,
}
use limitlesslibrary.Identity.Steps.{
  Connector, Draw, answered, parse_time, is_expiring, session_token, any_token, order_of,
  state_with_session, renewed,
}
use limitlesslibrary.Identity.Valid.{IsValid, validate_state-IsValid, caught_ok, lifted_ok}
use limitlesslibrary.Identity.Same.{state_with-Same}
use limitlesslibrary.Identity.Reread.{
  exact_fields_same, response_reread, request_reread, response_request,
  build_session_request_policy,
}

-- A token is given only if the test fails.
unless_ok :
    (b : Bool) (rest : Outcome IdentityFailure (Option String)) (t : String)
    → (if b then ok none else rest) ≡ ok (some t)
    → (b ≡ false) × (rest ≡ ok (some t))
unless_ok true rest t h = ground arith
unless_ok false rest t h = (refl, h)

module _ (kit : Toolkit) (keys : Keys) where
  -- A session that is put into a state is read back with its token and policy.
  given-reread :
      (w : Json) (r : Response) (service identifier : String) (n : ℕ) (public : Bytes)
      (a : Option _) (o : Option CachedSession)
      → given_session kit keys (session_json w r) service identifier n public a ≡ ok o
      → (c : CachedSession) × (o ≡ some c)
        × (c.response.access_token ≡ r.access_token)
        × (c.response.policy_digest ≡ r.policy_digest)
  unfolding given_session
  given-reread w r service identifier n public a o h =
      let (d, whole, h1) = bind_ok (caught (exact_fields (session_json w r) _ _) _) _ h in
      let (_, _, h2) =
        bind_ok (caught (exact_fields (get d "response") response_fields _) _) _ h1 in
      let (written, _, h3) = bind_ok (dict_of kit keys (get d "request")) _ h2 in
      let (valid, found, h4) =
        bind_ok
          (caught (validate_session_response kit (get d "response") (obj written) public none) _) _
          h3 in
      let (id, _, h5) = bind_ok (lifted (installation_key_id kit public)) _ h4 in
      let (_, h6) =
        require_ok (is_bound_request kit keys valid.0 service identifier n id a) _ _ h5 in
      let same =
        exact_fields_same _ d _ _ (caught_ok (exact_fields (session_json w r) _ _) _ d whole) in
      let again =
        caught_ok (validate_session_response kit (get d "response") (obj written) public none) _
          valid found in
      let (token, policy) = response_reread kit r (obj written) public none valid.0 valid.1 (
        subst
          (λ e.
            validate_session_response kit (get e "response") (obj written) public none ≡ ok valid)
          same again) in
      (_, sym (ok-injective h6), token, policy)

  module _ (connector : Connector) (draw : Draw) where
    -- A session of the state lasts for more than half a minute.
    abbrev pub Lasts : CachedSession → Type 0
    Lasts c =
        (expires : ℕ) × (parse_time kit keys c.response.expires_at ≡ ok expires)
        × (draw.now + 30 < expires)

    -- A response with this token answers a request at this time.
    abbrev pub IsAnswered : String → Type 0
    IsAnswered token =
        (q : SessionRequest) × (r : Response) × Answers kit (some draw.now) q r
        × (r.access_token ≡ token)

    -- The state is valid, the token is that of its session, under the connector's policy, and the
    -- session is live.
    abbrev pub IsLive : String × State → Type 0
    IsLive (token, s) =
        IsValid kit keys s
        × ((c : CachedSession) × (s.session ≡ some c)
            × (c.response.access_token ≡ token)
            × (c.response.policy_digest ≡ connector.policy_digest)
            × (Lasts c ⊎ IsAnswered token))

    token_unless :
        (expiring : Bool) (t token : String)
        → (if expiring then none else some t) ≡ some token
        → (expiring ≡ false) × (t ≡ token)
    token_unless true t token h = ground arith
    token_unless false t token h = ground arith

    is_expiring_late :
        (expires : ℕ) → is_expiring kit keys expires draw.now ≡ ok false → draw.now + 30 < expires
    unfolding is_expiring
    is_expiring_late expires h = ground arith

    session_token-Lasts :
        (c : CachedSession) (token : String)
        → session_token kit keys c connector.policy_digest draw.now ≡ ok (some token)
        → (c.response.access_token ≡ token)
          × (c.response.policy_digest ≡ connector.policy_digest)
          × Lasts c
    unfolding session_token
    session_token-Lasts c token h =
        let (usable, h1) =
          unless_ok
            (not (str_eq c.response.policy_digest connector.policy_digest)
              || not (str_eq c.request.unsigned.policy_digest connector.policy_digest)
              || not (texts_eq c.request.unsigned.capabilities session_capabilities))
            _ token h in
        let (expires, read, h2) = bind_ok (parse_time kit keys c.response.expires_at) _ h1 in
        let (expiring, late, h3) = bind_ok (is_expiring kit keys expires draw.now) _ h2 in
        let (fresh, same) = token_unless expiring c.response.access_token token (ok-injective h3) in
        (
          same,
          (eq_iff c.response.policy_digest connector.policy_digest).0 (ground (arith, usable)),
          (expires, read, is_expiring_late expires (late ∙ ap (λ b. ok b) fresh)),
        )

    pub any_token-IsLive :
        (s : State) (o : Option CachedSession) (token : String)
        → IsValid kit keys s
        → s.session ≡ o
        → any_token kit keys o connector.policy_digest draw.now ≡ ok (some token)
        → IsLive (token, s)
    any_token-IsLive s none token v e h = ground arith
    any_token-IsLive s (some c) token v e h =
        let (t, p, l) = session_token-Lasts c token h in (v, (c, e, t, p, inl l))

    state_with_session-IsLive :
        (s : State) (q q1 : SessionRequest) (r : Response) (p : String × State)
        → r.policy_digest ≡ connector.policy_digest
        → Answers kit (some draw.now) q1 r
        → state_with_session kit keys connector draw s q r ≡ ok p
        → IsLive p
    unfolding state_with_session cached_session_of
    state_with_session-IsLive s q q1 r p policy answers h =
        let written : Json = session_json (session_request_json q) r in
        let (t, e, h1) =
          bind_ok
            (validate_state kit keys (state_with s (attestation_or_null s.attestation) written)) _
            h in
        let (c, held, token, same) =
          given-reread (session_request_json q) r t.service_id t.installation_id t.generation
            (keys.public_of t.signer) t.attestation t.session
            ((state_with-Same kit keys s (attestation_or_null s.attestation) written t e).1) in
        subst IsLive (ok-injective h1) (
          validate_state-IsValid kit keys (state_with s (attestation_or_null s.attestation) written)
              t e,
          (c, held, token, same ∙ policy, inr (q1, r, answers, refl)),
        )

    pub renewed-IsLive :
        (s : State) (p : String × State) → renewed kit keys connector draw s ≡ ok p → IsLive p
    unfolding renewed
    renewed-IsLive s p h =
        let public : Bytes = keys.public_of s.signer in
        let (q, built, h1) =
          bind_ok
            (lifted (
              build_session_request kit (signer_of kit keys s.signer)
                (order_of kit keys connector draw s) draw.now))
            _ h in
        let (value, _, h2) =
          bind_ok (answered (connector.open_installation_session (session_request_json q)) _ _) _
            h1 in
        let (valid, found, h3) =
          bind_ok
            (caught
              (validate_session_response kit value (session_request_json q) public (some draw.now))
              _)
            _ h2 in
        let exact =
          caught_ok
            (validate_session_response kit value (session_request_json q) public (some draw.now)) _
            valid found in
        let answers =
          (validate_session_response-Answers kit value (session_request_json q) public
            (some draw.now) valid.0 valid.1 exact).1 in
        let repeated = request_reread kit q public none valid.0 (
          response_request kit value (session_request_json q) public (some draw.now) valid.0 valid.1
            exact) in
        let asked : q.unsigned.policy_digest ≡ connector.policy_digest =
          build_session_request_policy kit (signer_of kit keys s.signer)
            (order_of kit keys connector draw s) draw.now q
            (lifted_ok
              (build_session_request kit (signer_of kit keys s.signer)
                (order_of kit keys connector draw s) draw.now)
              q built) in
        state_with_session-IsLive s q valid.0 valid.1 p (answers.policy ∙ repeated ∙ asked) answers
          h3
