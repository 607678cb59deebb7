-- ===== src/Identity/Kept.antt =====
-- What a call makes of the state file, whatever the service and the operating system do.
use limitlesslibrary.Base.{
  ◌≡◌, refl, ◌∙◌, String, Option, none, some, inl, inr, ◌⊎◌, Outcome, ok, raised, bind_ok,
  require_ok, ok-injective,
}
use mathlib.Core.Path.{subst}
use limitlesslibrary.Base.Json.{Json, null}
use limitlesslibrary.Service.Shape.{Toolkit}
use limitlesslibrary.Service.Roots.{Roots}
use limitlesslibrary.Identity.{installation_key_id}
use limitlesslibrary.Identity.Requests.{SessionRequest, registration_json, session_request_json}
use limitlesslibrary.Identity.Attestation.{Attestation, attestation_json, validate_attestation}
use limitlesslibrary.Identity.Response.{Response, validate_session_response}
use limitlesslibrary.Identity.Build.{build_registration_request, build_session_request}
use limitlesslibrary.Identity.Custody.{
  IdentityFailure, Keys, State, attestation_or_null, session_or_null, session_json, state_json,
  state_with, lifted, caught, signer_of, validate_state,
}
use limitlesslibrary.Identity.Steps.{
  Connector, Os, Draw, answered, cached_token, order_of, registered, state_with_session, renewed,
}
use limitlesslibrary.Identity.Session.{
  File, Custody, continue_with, given, file_of, replaced, persisted, written, replace_state,
  with_attestation, attested_state, with_token, token_state, right_service, authorized,
}
use limitlesslibrary.Identity.Valid.{IsValid, validate_state-IsValid}
use limitlesslibrary.Identity.Same.{Same, state_with-Same}

-- The file ends up as `P` says, and a result is as `Q` says.
abbrev pub Ends :
    {A : Type 0} → (File → Type 0) → (A → Type 0) → Outcome IdentityFailure A × File → Type 0
Ends {A} P Q x = P x.1 × ((a : A) → x.0 ≡ ok a → Q a)

pub Ends-given :
    {A : Type 0} (P : File → Type 0) (Q : A → Type 0) (o : Outcome IdentityFailure A) (file : File)
    → P file
    → ((a : A) → o ≡ ok a → Q a)
    → Ends P Q (given o file)
Ends-given P Q o file p q = (p, q)

pub Ends-bind :
    {A B : Type 0} (P : File → Type 0) (Q : A → Type 0) (R : B → Type 0)
    (x : Outcome IdentityFailure A × File) (f : A → Custody B)
    → Ends P Q x
    → ((a : A) (file : File) → Q a → P file → Ends P R (f a file))
    → Ends P R (continue_with x f)
Ends-bind P Q R (ok a, file) f (p, q) next = next a file (q a refl) p
Ends-bind P Q R (raised e, file) f (p, q) next = (p, λ b h. cc)

pub Same-refl : (kit : Toolkit) (keys : Keys) (s : State) → Same kit keys s s
Same-refl kit keys s = record { service = refl; installation = refl; key = refl }

pub Same-trans :
    (kit : Toolkit) (keys : Keys) (s t u : State)
    → Same kit keys s t
    → Same kit keys t u
    → Same kit keys s u
Same-trans kit keys s t u p q = record {
  service = q.service ∙ p.service;
  installation = q.installation ∙ p.installation;
  key = q.key ∙ p.key;
}

module _ (kit : Toolkit) (keys : Keys) where
  -- A valid state of the installation of `s`.
  abbrev pub Follows : State → State → Type 0
  Follows s t = IsValid kit keys t × Same kit keys s t

  -- Writing such a state is allowed.
  abbrev pub Allows : (File → Type 0) → State → Type 0
  Allows P s = (t : State) → Follows s t → P (some (file_of kit t))

  pub Follows-state_with :
      (s t u : State) (a b : Json)
      → Same kit keys s t
      → validate_state kit keys (state_with t a b) ≡ ok u
      → Follows s u
  Follows-state_with s t u a b same h = (
    validate_state-IsValid kit keys _ u h,
    Same-trans kit keys s t u same ((state_with-Same kit keys t a b u h).0),
  )

  module _ (os : Os) where
    Ends-replaced :
        (P : File → Type 0) (f : Option IdentityFailure) (t : State)
        → P (some (file_of kit t))
        → Ends P (λ _. Unit {0}) (replaced kit keys os f t)
    Ends-replaced P none t new = (new, λ _ _. tt)
    Ends-replaced P (some e) t new = (new, λ _ _. tt)

    Ends-persisted :
        (P : File → Type 0) (f : Option IdentityFailure) (t : State) (file : File)
        → P (some (file_of kit t))
        → P file
        → Ends P (λ _. Unit {0}) (persisted kit keys os f t file)
    Ends-persisted P none t file new old = Ends-replaced P (os.sync_fault (file_of kit t)) t new
    Ends-persisted P (some e) t file new old = (old, λ _ _. tt)

    Ends-written :
        (P : File → Type 0) (t : State) (file : File)
        → P (some (file_of kit t))
        → P file
        → Ends P (λ _. Unit {0}) (written kit keys os t file)
    Ends-written P t file new old = Ends-persisted P (os.write_fault (file_of kit t)) t file new old

    pub Ends-replace :
        (P : File → Type 0) (s t : State) (file : File)
        → Allows P s
        → Same kit keys s t
        → P file
        → Ends P (λ _. Unit {0}) (replace_state kit keys os (state_json t) file)
    unfolding replace_state
    Ends-replace P s t file allows same p =
        Ends-bind P (Follows s) (λ _. Unit {0})
          (given (validate_state kit keys (state_json t)) file) _
          (Ends-given P (Follows s) (validate_state kit keys (state_json t)) file p (λ u h.
            Follows-state_with s t u (attestation_or_null t.attestation) (session_or_null t.session)
              same h))
          (λ u now follows q. Ends-written P u now (allows u follows) q)

  module _ (connector : Connector) (draw : Draw) where
    registered-Follows :
        (s t u : State) (service_keys : Roots)
        → Same kit keys s t
        → registered kit keys connector draw t service_keys ≡ ok u
        → Follows s u
    unfolding registered
    registered-Follows s t u service_keys same h =
        let (r, _, h1) =
          bind_ok
            (lifted (
              build_registration_request kit (signer_of kit keys t.signer) t.service_id
                draw.registration_id draw.now 120))
            _ h in
        let (value, _, h2) =
          bind_ok (answered (connector.register_installation (registration_json r)) _ _) _ h1 in
        let (a, _, h3) =
          bind_ok (caught (validate_attestation kit value (some service_keys)) _) _ h2 in
        let (id, _, h4) =
          bind_ok (lifted (installation_key_id kit (keys.public_of t.signer))) _ h3 in
        let (_, h5) = require_ok _ _ _ h4 in
        Follows-state_with s t u (attestation_json a) null same h5

    state_with_session-Follows :
        (s t : State) (q : SessionRequest) (r : Response) (p : String × State)
        → Same kit keys s t
        → state_with_session kit keys connector draw t q r ≡ ok p
        → Follows s p.1
    unfolding state_with_session
    state_with_session-Follows s t q r p same h =
        let (u, e, h1) =
          bind_ok
            (validate_state kit keys (
              state_with t (attestation_or_null t.attestation)
                (session_json (session_request_json q) r)))
            _ h in
        subst (λ x. Follows s x.1) (ok-injective h1)
          (Follows-state_with s t u (attestation_or_null t.attestation)
            (session_json (session_request_json q) r) same e)

    renewed-Follows :
        (s t : State) (p : String × State)
        → Same kit keys s t
        → renewed kit keys connector draw t ≡ ok p
        → Follows s p.1
    unfolding renewed
    renewed-Follows s t p same h =
        let (q, _, h1) =
          bind_ok
            (lifted (
              build_session_request kit (signer_of kit keys t.signer)
                (order_of kit keys connector draw t) draw.now))
            _ h in
        let (value, _, h2) =
          bind_ok (answered (connector.open_installation_session (session_request_json q)) _ _) _
            h1 in
        let (valid, _, h3) =
          bind_ok
            (caught
              (validate_session_response kit value (session_request_json q)
                (keys.public_of t.signer) (some draw.now))
              _)
            _ h2 in
        state_with_session-Follows s t q valid.1 p same h3

  module _ (os : Os) (connector : Connector) (draw : Draw) where
    -- A state that is read is valid, and a new one has no attestation yet.
    abbrev pub IsReady : State → Type 0
    IsReady t = IsValid kit keys t ⊎ (t.attestation ≡ none)

    Ends-with_attestation :
        (P : File → Type 0) (s t : State) (service_keys : Roots) (o : Option Attestation)
        (file : File)
        → Allows P s
        → IsValid kit keys t ⊎ (o ≡ none)
        → Same kit keys s t
        → P file
        → Ends P (Follows s) (with_attestation kit keys os connector draw t service_keys o file)
    Ends-with_attestation P s t service_keys (some a) file allows (inl valid) same p =
        (p, λ u h. subst (Follows s) (ok-injective h) (valid, same))
    Ends-with_attestation P s t service_keys (some a) file allows (inr e) same p = cc
    Ends-with_attestation P s t service_keys none file allows ready same p =
        Ends-bind P (Follows s) (Follows s)
          (given (registered kit keys connector draw t service_keys) file) _
          (p, λ u h. registered-Follows connector draw s t u service_keys same h)
          (λ u now follows pn.
            Ends-bind P (λ _. Unit {0}) (Follows s) (replace_state kit keys os (state_json u) now) _
              (Ends-replace os P s u now allows (follows.1) pn)
              (λ _ last _ pl. (pl, λ v h. subst (Follows s) (ok-injective h) follows)))

    module _ (Q : String × State → Type 0) where
      -- What makes a token good, cached or new.
      abbrev pub Grants : State → Type 0
      Grants s =
          (t : State)
          → Follows s t
          → ((token : String)
              → cached_token kit keys t connector.policy_digest draw.now ≡ ok (some token)
              → Q (token, t))
            × ((p : String × State) → renewed kit keys connector draw t ≡ ok p → Q p)

      Ends-with_token :
          (P : File → Type 0) (s t : State) (token : Option String) (file : File)
          → Allows P s
          → Follows s t
          → Grants s
          → cached_token kit keys t connector.policy_digest draw.now ≡ ok token
          → P file
          → Ends P Q (with_token kit keys os connector draw t token file)
      Ends-with_token P s t (some token) file allows (valid, same) grants e p =
          (p, λ a h. subst Q (ok-injective h) ((grants t (valid, same)).0 token e))
      Ends-with_token P s t none file allows (valid, same) grants e p =
          Ends-bind P (λ q. Q q × Follows s q.1) Q (given (renewed kit keys connector draw t) file)
            _
            (
              p,
              λ a h. ((grants t (valid, same)).1 a h, renewed-Follows connector draw s t a same h),
            )
            (λ q now (good, follows) pn.
              Ends-bind P (λ _. Unit {0}) Q (replace_state kit keys os (state_json q.1) now) _
                (Ends-replace os P s q.1 now allows (follows.1) pn)
                (λ _ last _ pl. (pl, λ a h. subst Q (ok-injective h) good)))

      -- What follows the reading of the file.
      pub Ends-authorized :
          (P : File → Type 0) (s : State) (service_keys : Roots) (file : File)
          → Allows P s
          → IsReady s
          → Grants s
          → P file
          → Ends P Q (authorized kit keys os connector draw service_keys s file)
      unfolding authorized attested_state token_state
      Ends-authorized P s service_keys file allows ready grants p =
          Ends-bind P (λ _. Unit {0}) Q (given (right_service kit keys os connector draw s) file) _
            (p, λ _ _. tt)
            (λ _ now _ pn.
              Ends-bind P (Follows s) Q
                (attested_state kit keys os connector draw s service_keys now) _
                (Ends-with_attestation P s s service_keys s.attestation now allows ready
                  (Same-refl kit keys s) pn)
                (λ t here follows ph.
                  Ends-bind P (λ o. cached_token kit keys t connector.policy_digest draw.now ≡ ok o)
                    Q (given (cached_token kit keys t connector.policy_digest draw.now) here) _
                    (ph, λ o e. e)
                    (λ o last e pl. Ends-with_token P s t o last allows follows grants e pl)))
