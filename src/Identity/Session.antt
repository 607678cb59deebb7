-- ===== src/Identity/Session.antt =====
-- `ensure_installation_session` of `service_identity.py`: an installation registers once, uses a bearer token
-- while it lives, and asks for another one otherwise. The file is passed on explicitly, since what
-- was written before an error stays.
use limitlesslibrary.Base.{
  ◌++◌, String, Option, none, some, [], ◌∷◌, str_eq, Outcome, ok, raised, require,
}
use limitlesslibrary.Base.Json.{Json}
use limitlesslibrary.Service.Shape.{Bytes, Toolkit}
use limitlesslibrary.Service.Roots.{Roots}
use limitlesslibrary.Identity.Attestation.{Attestation}
use limitlesslibrary.Identity.Custody.{
  IdentityFailure, identity_error, Keys, State, state_json, validate_state,
}
use limitlesslibrary.Identity.Steps.{
  Connector, Os, Draw, unless_fault, inspected, cached_token, pending_state, read_state, registered,
  renewed,
}

-- The content of the state file.
abbrev pub File : Type 0
File = Option Bytes

-- A computation on the file, which may fail and leave what it has written.
abbrev pub Custody : Type 0 → Type 0
Custody A = File → Outcome IdentityFailure A × File

abbrev pub continue_with :
    {A B : Type 0}
    → Outcome IdentityFailure A × File
    → (A → Custody B)
    → Outcome IdentityFailure B × File
continue_with (ok a, file) f = f a file
continue_with (raised e, file) f = (raised e, file)

infixl 5 ◌>>=◌
abbrev pub ◌>>=◌ : {A B : Type 0} → Custody A → (A → Custody B) → Custody B
(m >>= f) file = continue_with (m file) f

abbrev pub given : {A : Type 0} → Outcome IdentityFailure A → Custody A
given o file = (o, file)

infixl 5 ◌>>◌
abbrev pub ◌>>◌ : {B : Type 0} → Custody (Unit {0}) → Custody B → Custody B
m >> k = m >>= λ _. k

-- The bytes of a state's file.
abbrev pub file_of : Toolkit → State → Bytes
file_of kit s = kit.canonical (state_json s) ++ (10 ∷ [])

module _ (kit : Toolkit) (keys : Keys) (os : Os) where
  -- After `os.replace` the file has the new bytes, also where the directory is then not synchronised.
  abbrev pub replaced : Option IdentityFailure → State → Outcome IdentityFailure (Unit {0}) × File
  replaced (some e) s = (raised e, some (file_of kit s))
  replaced none s = (ok tt, some (file_of kit s))

  -- Before it, the file has the bytes it had.
  abbrev pub persisted : Option IdentityFailure → State → Custody (Unit {0})
  persisted (some e) s file = (raised e, file)
  persisted none s file = replaced (os.sync_fault (file_of kit s)) s

  -- `_replace_state`
  abbrev pub written : State → Custody (Unit {0})
  written s file = persisted (os.write_fault (file_of kit s)) s file

  unfoldable pub replace_state : Json → Custody (Unit {0})
  replace_state value = do checked ← given (validate_state kit keys value); written checked

  module _ (connector : Connector) (draw : Draw) where
    -- A new state is written before it is used.
    abbrev pub begun : Option State → Custody State
    begun (some s) = given (ok s)
    begun none = do
      s ← given (pending_state kit keys connector.service_id draw.fresh_key)
      replace_state (state_json s)
      given (ok s)

    abbrev pub read : Custody (Option State)
    read file = (read_state kit keys os file, file)

    unfoldable pub current_state : Custody State
    current_state = do found ← read; begun found

    abbrev pub with_attestation : State → Roots → Option Attestation → Custody State
    with_attestation s service_keys (some a) = given (ok s)
    with_attestation s service_keys none = do
      t ← given (registered kit keys connector draw s service_keys)
      replace_state (state_json t)
      given (ok t)

    unfoldable pub attested_state : State → Roots → Custody State
    attested_state s service_keys = with_attestation s service_keys s.attestation

    abbrev pub with_token : State → Option String → Custody (String × State)
    with_token s (some t) = given (ok (t, s))
    with_token s none = do
      p ← given (renewed kit keys connector draw s)
      replace_state (state_json p.1)
      given (ok p)

    unfoldable pub token_state : State → Custody (String × State)
    token_state s = do
      token ← given (cached_token kit keys s connector.policy_digest draw.now)
      with_token s token

    abbrev pub right_service : State → Outcome IdentityFailure (Unit {0})
    right_service s =
        require (str_eq s.service_id connector.service_id)
          (identity_error "installation identity belongs to another service")

    -- Behind the reading of the file.
    unfoldable pub authorized : Roots → State → Custody (String × State)
    authorized service_keys s = do
      given (right_service s)
      t ← attested_state s service_keys
      token_state t

    -- `ensure_installation_session`, for a path that is absolute: the token, and the state that the
    -- details are read from.
    unfoldable pub ensure_installation_session : Custody (String × State)
    ensure_installation_session = do
      service_keys ← given (inspected connector.inspect)
      given (unless_fault os.lock_fault (ok tt))
      s ← current_state
      authorized service_keys s
