-- ===== src/Mcp/Session/Gate.antt =====
-- The handshake of initialization-era clients, and that no tool is reached without it.
use limitlesslibrary.Base.{
  ◌≡◌, refl, ap, ◌∙◌, true, false, Option, none, some, ◌⊎◌, inl, inr, List, [], ◌∷◌, arith, ok, All,
  eq_iff, Bool-cases,
}
use limitlesslibrary.Base.Json.{Json, str, Fields, get, equals_text}
use limitlesslibrary.Mcp.Messages.{has_modern_metadata, jsonrpc_error, jsonrpc_result}
use limitlesslibrary.Mcp.Requests.{legacy_request_error, legacy_initialize_request_error}
use limitlesslibrary.Mcp.Dispatcher.{Codec, Dispatcher}
use limitlesslibrary.Mcp.Handle
use limitlesslibrary.Mcp.Handle.{Handled}
use limitlesslibrary.Mcp.Handle.Calls.{call_excludes, handle-Reaches}
use limitlesslibrary.Mcp.Session.{
  Session, open_session, handle, run, is_notification, is_notification_name, has_result,
}

-- A message of the initialization era.
abbrev pub IsLegacy : Fields → Type 0
IsLegacy message = has_modern_metadata message ≡ false

-- An `initialize` request that passes every check.
pub record IsInitialize (message : Fields) : Type 0 where
  pub legacy : IsLegacy message
  pub method : equals_text (get message "method") "initialize" ≡ true
  pub envelope_ok : legacy_request_error message ≡ none
  pub params_ok : legacy_initialize_request_error message ≡ none

-- The `notifications/initialized` notification.
pub record IsInitialized (message : Fields) : Type 0 where
  pub legacy : IsLegacy message
  pub method : equals_text (get message "method") "notifications/initialized" ≡ true
  pub notification : is_notification message ≡ true

-- The notification is among the messages.
abbrev pub Notified : List Fields → Type 0
Notified [] = ⊥
Notified (message ∷ messages) = IsInitialized message ⊎ Notified messages

-- An accepted `initialize` is among the messages, and the notification comes after it.
abbrev pub Handshake : List Fields → Type 0
Handshake [] = ⊥
Handshake (message ∷ messages) = (IsInitialize message × Notified messages) ⊎ Handshake messages

abbrev NoResult : Option Json → Type 0
NoResult none = Unit
NoResult (some answer) = has_result (ok (some answer)) ≡ false

module _ {W : Type 0} (codec : Codec) (d : Dispatcher W) where
  -- What one step can do to the flags.
  pub ready_step :
      (message : Fields) (s : Session W)
      → (handle codec d message s).1.legacy_ready ≡ true
      → (s.legacy_ready ≡ true) ⊎ (IsInitialized message × (s.legacy_initialized ≡ true))
  unfolding handle
  ready_step message s h = ground arith

  NoResult-of_legacy : (message : Fields) → NoResult (legacy_request_error message)
  unfolding legacy_request_error jsonrpc_error
  NoResult-of_legacy message = ground arith

  NoResult-of_initialize : (message : Fields) → NoResult (legacy_initialize_request_error message)
  unfolding legacy_initialize_request_error jsonrpc_error
  NoResult-of_initialize message = ground arith

  initialize_excludes :
      (method : Json)
      → equals_text method "initialize" ≡ true
      → equals_text method "notifications/initialized" ≡ false
  initialize_excludes (str t) h = rw ((eq_iff t "initialize").0 h)
  initialize_excludes _ h = ground arith

  initialize_is_request :
      (method : Json) → equals_text method "initialize" ≡ true → is_notification_name method ≡ false
  initialize_is_request (str t) h = rw ((eq_iff t "initialize").0 h)
  initialize_is_request _ h = ground arith

  -- Only a request that passes every check is answered by a result.
  has_result-IsInitialize :
      (message : Fields) (w : W)
      → has_modern_metadata message ≡ false
      → equals_text (get message "method") "initialize" ≡ true
      → has_result (Handle.handle codec d message w).0 ≡ true
      → IsInitialize message
  unfolding Handle.handle Handle.legacy Handle.legacy_method Handle.initialize
  has_result-IsInitialize message w l m h = ground (
    arith,
    NoResult-of_legacy message,
    NoResult-of_initialize message,
    initialize_excludes (get message "method") m,
  )

  -- A request that passes every check is answered by a result, and reaches no tool.
  IsInitialize-has_result :
      (message : Fields) (w : W)
      → IsInitialize message
      → (has_result (Handle.handle codec d message w).0 ≡ true)
        × ((Handle.handle codec d message w).1 ≡ w)
  unfolding Handle.handle Handle.legacy Handle.legacy_method Handle.initialize jsonrpc_result
  IsInitialize-has_result message w i = ground (
    arith,
    i.legacy,
    i.method,
    i.envelope_ok,
    i.params_ok,
    initialize_excludes (get message "method") i.method,
  )

  initialized_step :
      (message : Fields) (s : Session W)
      → (handle codec d message s).1.legacy_initialized ≡ true
      → (s.legacy_initialized ≡ true) ⊎ IsInitialize message
  unfolding handle
  initialized_step message s h = ground (arith, has_result-IsInitialize message s.world)

  gate_step :
      (message : Fields) (s : Session W)
      → IsLegacy message
      → s.legacy_ready ≡ false
      → (handle codec d message s).1.world ≡ s.world
  unfolding handle
  gate_step message s l n =
      ground (arith, handle-Reaches codec d message s.world, call_excludes (get message "method"))

  -- An accepted `initialize` starts the handshake anew: the session is initialized, it is not
  -- ready, and no tool was reached.
  pub handle-IsInitialize :
      (message : Fields) (s : Session W)
      → IsInitialize message
      → (handle codec d message s).1
        ≡ record { legacy_initialized = true; legacy_ready = false; world = s.world }
  unfolding handle
  handle-IsInitialize message s i = ground (
    arith,
    i.legacy,
    i.method,
    initialize_is_request (get message "method") i.method,
    IsInitialize-has_result message s.world i,
  )

  handle-IsInitialized :
      (message : Fields) (w : W)
      → IsInitialized message
      → (handle codec d message
          (record { legacy_initialized = true; legacy_ready = false; world = w })).1
        ≡ record { legacy_initialized = true; legacy_ready = true; world = w }
  unfolding handle
  handle-IsInitialized message w n = ground (arith, n.legacy, n.method, n.notification)

  -- A handshake opens the session, whatever its state: after an accepted `initialize` and the
  -- notification it is ready, and no tool was reached on the way.
  pub run_handshake :
      (request notification : Fields) (s : Session W)
      → IsInitialize request
      → IsInitialized notification
      → run codec d (request ∷ notification ∷ []) s
        ≡ record { legacy_initialized = true; legacy_ready = true; world = s.world }
  unfolding run
  run_handshake request notification s i n =
      ap (λ t. (handle codec d notification t).1) (handle-IsInitialize request s i)
      ∙ handle-IsInitialized notification s.world n

  -- From a session that is not ready, readiness takes an accepted `initialize` (or one before) and
  -- the notification after it.
  run_ready :
      (messages : List Fields) (s : Session W)
      → (run codec d messages s).legacy_ready ≡ true
      → (s.legacy_ready ≡ true)
        ⊎ (((s.legacy_initialized ≡ true) × Notified messages) ⊎ Handshake messages)
  unfolding run
  run_ready [] s h = inl h
  run_ready (message ∷ messages) s h = ground (
    arith,
    run_ready messages (handle codec d message s).1 h,
    ready_step message s,
    initialized_step message s,
  )

  -- A fresh session is ready only after a handshake: an `initialize` that passed every check, and
  -- later the `notifications/initialized` notification.
  pub run-Handshake :
      (messages : List Fields) (w : W)
      → (run codec d messages (open_session w)).legacy_ready ≡ true
      → Handshake messages
  run-Handshake messages w h = ground (arith, run_ready messages (open_session w) h)

  run_gate :
      (messages : List Fields) (s : Session W)
      → All IsLegacy messages
      → s.legacy_ready ≡ false
      → (s.legacy_initialized ≡ true → ¬ Notified messages)
      → ¬ Handshake messages
      → (run codec d messages s).world ≡ s.world
  unfolding run
  run_gate [] s l r n h = refl
  run_gate (message ∷ messages) s (l, ls) r n h =
      run_gate messages (handle codec d message s).1 ls not_ready not_notified (λ k. h (inr k))
      ∙ gate_step message s l r
    where
      not_ready : (handle codec d message s).1.legacy_ready ≡ false
      not_ready = elim (Bool-cases (handle codec d message s).1.legacy_ready) [
        | inl yes_ready ↦ elim (ready_step message s yes_ready) [
          | inl was ↦ cc
          | inr (noted, was) ↦ absurd (n was (inl noted))
        ]
        | inr not_yet ↦ not_yet
      ]

      not_notified : (handle codec d message s).1.legacy_initialized ≡ true → ¬ Notified messages
      not_notified now later = elim (initialized_step message s now) [
        | inl was ↦ n was (inr later)
        | inr i ↦ h (inl (i, later))
      ]

  -- However many messages of the initialization era a fresh session handles, no tool is reached
  -- unless there is a handshake among them.
  pub run_without-Handshake :
      (messages : List Fields) (w : W)
      → All IsLegacy messages
      → ¬ Handshake messages
      → (run codec d messages (open_session w)).world ≡ w
  run_without-Handshake messages w l h = run_gate messages (open_session w) l refl (λ e. cc) h
