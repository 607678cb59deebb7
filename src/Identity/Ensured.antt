-- ===== src/Identity/Ensured.antt =====
-- The theorems on `ensure_installation_session`: what it returns, and what it leaves on disk.
use limitlesslibrary.Base.{
  ◌≡◌, refl, sym, ap, ◌∙◌, String, ◌&&◌, Option, none, some, inl, inr, ◌⊎◌, leb, length, Outcome,
  ok, raised, bind_ok, require_ok, ok-injective, arith,
}
use mathlib.Core.Path.{subst}
use limitlesslibrary.Service.Shape.{contract_error, Toolkit, Bytes}
use limitlesslibrary.Identity.Custody.{IdentityFailure, passing, Keys, State, lifted, state_json}
use limitlesslibrary.Base.Json.{str}
use limitlesslibrary.Identity.{installation_id}
use limitlesslibrary.Identity.Steps.{
  Connector, Os, Draw, unless_fault, inspected, cached_token, pending_state, readable, loaded,
  read_state,
}
use limitlesslibrary.Identity.Session.{
  File, Custody, continue_with, given, file_of, replace_state, begun, current_state,
  ensure_installation_session,
}
use limitlesslibrary.Identity.Valid.{IsValid, validate_state-IsValid}
use limitlesslibrary.Identity.Same.{Same}
use limitlesslibrary.Identity.Kept.{
  Ends, Ends-bind, Same-refl, Allows, Ends-replace, IsReady, Grants, Ends-authorized,
}
use limitlesslibrary.Identity.Live.{IsLive, any_token-IsLive, renewed-IsLive}

Ends-step :
    {A B : Type 0} (P : File → Type 0) (R : B → Type 0) (o : Outcome IdentityFailure A)
    (file : File) (f : A → Custody B)
    → P file
    → ((a : A) → o ≡ ok a → Ends P R (f a file))
    → Ends P R (continue_with (given o file) f)
Ends-step P R (ok a) file f p next = next a refl
Ends-step P R (raised e) file f p next = (p, λ b h. cc)

some_injective : {A : Type 0} {a b : A} → ◌≡◌ {A = Option A} (some a) (some b) → a ≡ b
some_injective h = cc

unless_fault_ok :
    {A : Type 0} (f : Option IdentityFailure) (o : Outcome IdentityFailure A) (a : A)
    → unless_fault f o ≡ ok a
    → o ≡ ok a
unless_fault_ok none o a h = h
unless_fault_ok (some e) o a h = ground arith

module _ (kit : Toolkit) (keys : Keys) (os : Os) where
  readable_ok :
      (o : Outcome IdentityFailure State) (s : State) → readable kit keys os o ≡ ok s → o ≡ ok s
  readable_ok (ok t) s h = h
  readable_ok (raised (passing (contract_error m))) s h = ground arith
  readable_ok (raised e) s h = ground arith

  loaded-IsValid : (raw : Bytes) (s : State) → loaded kit keys os raw ≡ ok s → IsValid kit keys s
  loaded-IsValid raw s h =
      let (_, h1) = require_ok (leb 1 (length raw) && leb (length raw) 32768) _ _ h in
      let (value, _, h2) = bind_ok (lifted (os.loads raw)) _ h1 in
      validate_state-IsValid kit keys value s h2

  read_state-IsValid :
      (file : File) (s : State) → read_state kit keys os file ≡ ok (some s) → IsValid kit keys s
  unfolding read_state
  read_state-IsValid none s h = ground arith
  read_state-IsValid (some raw) s h =
      let (t, e, h1) =
        bind_ok (unless_fault os.read_fault (readable kit keys os (loaded kit keys os raw))) _ h in
      let found =
        readable_ok (loaded kit keys os raw) t
          (unless_fault_ok os.read_fault (readable kit keys os (loaded kit keys os raw)) t e) in
      let same : t ≡ s = some_injective (ok-injective h1) in
      loaded-IsValid raw s (found ∙ ap (λ x. ok x) same)

  module _ (connector : Connector) (draw : Draw) where
    Grants-IsLive :
        (s : State) → Grants kit keys os connector draw (IsLive kit keys connector draw) s
    unfolding cached_token
    Grants-IsLive s t (valid, same) = (
      λ token e. any_token-IsLive kit keys connector draw t t.session token valid refl e,
      λ p e. renewed-IsLive kit keys connector draw t p e,
    )

    pending_unattested :
        (s : State)
        → pending_state kit keys connector.service_id draw.fresh_key ≡ ok s
        → s.attestation ≡ none
    unfolding pending_state
    pending_unattested s h =
        let (id, _, h1) =
          bind_ok
            (lifted
              (installation_id kit (str connector.service_id) (keys.public_of draw.fresh_key)))
            _ h in
        ap (λ t. t.attestation) (sym (ok-injective h1))

    -- The file of a new state.
    Ends-begun :
        (P : File → Type 0) (o : Option State) (file : File)
        → read_state kit keys os file ≡ ok o
        → ((s : State) → o ≡ none → Allows kit keys P s)
        → P file
        → Ends P
            (λ s. IsReady kit keys os connector draw s × ((t : State) → o ≡ some t → t ≡ s))
            (begun kit keys os connector draw o file)
    Ends-begun P (some s) file e allows p = (
      p,
      λ a h.
          subst
            (λ x. IsReady kit keys os connector draw x × ((t : State) → some s ≡ some t → t ≡ x))
            (ok-injective h) (inl (read_state-IsValid file s e), λ t k. sym (some_injective k)),
    )
    Ends-begun P none file e allows p =
        Ends-step P _ (pending_state kit keys connector.service_id draw.fresh_key) file _ p (λ s k.
          Ends-bind P (λ _. Unit {0}) _ (replace_state kit keys os (state_json s) file) _
            (Ends-replace kit keys os P s s file (allows s refl) (Same-refl kit keys s) p)
            (λ _ last _ pl. (
              pl,
              λ a h.
                  subst
                    (λ x.
                      IsReady kit keys os connector draw x × ((t : State) → none ≡ some t → t ≡ x))
                    (ok-injective h) (inr (pending_unattested s k), λ t n. cc),
            )))

    -- The same, in terms of what was read.
    begun_read :
        (P : File → Type 0) (o : Option State) (file : File)
        → read_state kit keys os file ≡ ok o
        → ((s : State)
            → ((t : State) → read_state kit keys os file ≡ ok (some t) → t ≡ s)
            → Allows kit keys P s)
        → P file
        → Ends P
            (λ s.
              IsReady kit keys os connector draw s
              × ((t : State) → read_state kit keys os file ≡ ok (some t) → t ≡ s))
            (begun kit keys os connector draw o file)
    begun_read P o file e allows p =
        let ends =
          Ends-begun P o file e
            (λ s n. allows s (λ t k. absurd (differ t (sym n ∙ ok-injective (sym e ∙ k))))) p in
        (ends.0, λ s h. ((ends.1 s h).0, λ t k. (ends.1 s h).1 t (ok-injective (sym e ∙ k))))
      where
        differ : (t : State) → ¬ (none ≡ some t)
        differ t h = cc

    Ends-ensure :
        (P : File → Type 0) (file : File)
        → P file
        → ((s : State)
            → ((t : State) → read_state kit keys os file ≡ ok (some t) → t ≡ s)
            → Allows kit keys P s)
        → Ends P
            (IsLive kit keys connector draw)
            (ensure_installation_session kit keys os connector draw file)
    unfolding ensure_installation_session current_state
    Ends-ensure P file p allows =
        Ends-step P _ (inspected connector.inspect) file _ p (λ service_keys _.
          Ends-step P _ (unless_fault os.lock_fault (ok tt)) file _ p (λ _ _.
            Ends-bind P
              (λ s.
                IsReady kit keys os connector draw s
                × ((t : State) → read_state kit keys os file ≡ ok (some t) → t ≡ s))
              _ (current_state kit keys os connector draw file) _
              (Ends-step P _ (read_state kit keys os file) file _ p
                (λ o e. begun_read P o file e allows p))
              (λ s now ready pn.
                Ends-authorized kit keys os connector draw (IsLive kit keys connector draw) P s
                  service_keys now (allows s ready.1) (ready.0) (Grants-IsLive s) pn)))

    -- Whatever the file holds, and whatever the service and the operating system do, a call that
    -- returns gives a valid state and the token of its session, under the policy that the connector's
    -- profile accepts: a session that lasts for more than half a minute, or one that was answered to a
    -- request of this moment.
    pub ensure_installation_session-IsLive :
        (file : File) (p : String × State)
        → (ensure_installation_session kit keys os connector draw file).0 ≡ ok p
        → IsLive kit keys connector draw p
    ensure_installation_session-IsLive file p h =
        (Ends-ensure (λ _. Unit {0}) file tt (λ _ _ _ _. tt)).1 p h

    -- The bytes that were there, or those of a valid state of the same installation.
    abbrev pub Kept : State → File → File → Type 0
    Kept s before after =
        (after ≡ before)
        ⊎ ((t : State) × (after ≡ some (file_of kit t)) × IsValid kit keys t × Same kit keys s t)

    -- However a call ends, with an error too, a file that held a valid state holds the same bytes, or
    -- those of a valid state of the same installation at the same service, with the same private key.
    pub ensure_installation_session_keeps :
        (file : File) (s : State)
        → read_state kit keys os file ≡ ok (some s)
        → Kept s file (ensure_installation_session kit keys os connector draw file).1
    ensure_installation_session_keeps file s e =
        (Ends-ensure (Kept s file) file (inl refl) (λ u same t follows.
          inr (t, refl, follows.0, subst (λ x. Same kit keys x t) (sym (same s e)) follows.1))).0
