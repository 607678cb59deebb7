-- ===== src/Mcp/Session.antt =====
-- `McpToolSession`: the two flags that initialization-era clients need. A run handles the messages
-- in turn; one that raises leaves the session for the next.
pub mod Gate
use limitlesslibrary.Base.{
  String, Bool, true, false, not, ◌&&◌, ◌||◌, Option, none, some, List, [], ◌∷◌, str_eq,
  if◌then◌else◌, Outcome, ok, raised,
}
use limitlesslibrary.Base.Json.{Json, obj, str, Fields, minus, get, has_key, equals_text}
use limitlesslibrary.Mcp.Messages.{jsonrpc_error, has_modern_metadata}
use limitlesslibrary.Mcp.Dispatcher.{Failure, Codec, Dispatcher}
use limitlesslibrary.Mcp.Handle
use limitlesslibrary.Mcp.Handle.{Handled}
use text.Mathlib.Text.{starts_with}

pub record Session (W : Type 0) : Type 0 where
  pub legacy_initialized : Bool
  pub legacy_ready : Bool
  -- what the tools act on
  pub world : W

-- `__init__`
abbrev pub open_session : {W : Type 0} → W → Session W
open_session w = record { legacy_initialized = false; legacy_ready = false; world = w }

abbrev pub is_notification_name : Json → Bool
is_notification_name (str method) = starts_with method "notifications/"
is_notification_name _ = false

-- The first guard behind the modern branch.
abbrev pub is_notification : Fields → Bool
is_notification message =
    not (has_key message "id")
    && equals_text (get message "jsonrpc") "2.0"
    && is_notification_name (get message "method")

-- `isinstance(response, dict) and "result" in response`
abbrev pub has_result : Outcome Failure (Option Json) → Bool
has_result (ok (some (obj response))) = has_key response "result"
has_result _ = false

module _ {W : Type 0} (codec : Codec) (d : Dispatcher W) where
  abbrev delegated : Session W → Handled W → Outcome Failure (Option Json) × Session W
  delegated s (response, w) = (response, record s { world = w })

  abbrev initialized : Session W → Handled W → Outcome Failure (Option Json) × Session W
  initialized s (response, w) =
      if has_result response
      then (response, record { legacy_initialized = true; legacy_ready = false; world = w })
      else (response, record s { world = w })

  not_ready : Fields → Json
  not_ready message =
      jsonrpc_error (get message "id") (minus 32600)
        "legacy MCP requires initialize and notifications/initialized before requests" none

  unfoldable pub handle : Fields → Session W → Outcome Failure (Option Json) × Session W
  unfolding not_ready
  handle message s =
      if has_modern_metadata message
      then delegated s (Handle.handle codec d message s.world)
      else if is_notification message
      then (
        ok none,
        record s {
          legacy_ready =
              s.legacy_ready
              || (equals_text (get message "method") "notifications/initialized"
                  && s.legacy_initialized);
        },
      )
      else if equals_text (get message "method") "initialize"
      then initialized s (Handle.handle codec d message s.world)
      else if not s.legacy_ready
      then (ok (some (not_ready message)), s)
      else delegated s (Handle.handle codec d message s.world)

  -- The session after a list of messages.
  unfoldable pub run : List Fields → Session W → Session W
  run [] s = s
  run (message ∷ messages) s = run messages (handle message s).1
