-- ===== src/Mcp/Handle/Calls.antt =====
-- When a message reaches the tool.
use limitlesslibrary.Base.{◌≡◌, refl, Bool, true, false, none, ◌⊎◌, arith, eq_iff, if◌then◌else◌}
use limitlesslibrary.Base.Json.{Json, str, Fields, get, is_object, equals_text, one_of}
use limitlesslibrary.Mcp.Dispatcher.{Codec, Dispatcher, text_of}
use limitlesslibrary.Mcp.Messages.{has_modern_metadata}
use limitlesslibrary.Mcp.Requests.{modern_request_error, legacy_request_error}
use limitlesslibrary.Mcp.Handle.{
  handle, modern, legacy, legacy_method, checked_call, call, call_request_error, call_params,
  Handled,
}

-- A call is no other method.
pub call_excludes :
    (method : Json)
    → equals_text method "tools/call" ≡ true
    → (equals_text method "server/discover" ≡ false)
      × (equals_text method "tools/list" ≡ false)
      × (equals_text method "notifications/initialized" ≡ false)
      × (equals_text method "initialize" ≡ false)
call_excludes (str s) h = rw ((eq_iff s "tools/call").0 h) (refl, refl, refl, refl)
call_excludes _ h = ground arith

module _ {W : Type 0} (codec : Codec) (d : Dispatcher W) where
  abbrev pub params_of : Fields → Fields
  params_of message = call_params codec d (get message "params")

  -- The message is a call of a listed tool with object arguments.
  pub record CallsTool (message : Fields) : Type 0 where
    pub is_call : equals_text (get message "method") "tools/call" ≡ true
    pub is_listed : one_of (get (params_of message) "name") d.tool_names ≡ true
    pub has_arguments : is_object (get (params_of message) "arguments") ≡ true

  -- The world after the tool has been called with what the message names.
  abbrev pub after_call : Fields → W → W
  after_call message w =
      (d.call_tool (text_of (get (params_of message) "name")) (get (params_of message) "arguments")
        w).1

  abbrev pub Reaches : Fields → W → Handled W → Type 0
  Reaches message w result =
      (result.1 ≡ w) ⊎ (CallsTool message × (result.1 ≡ after_call message w))

  checked_call-Reaches :
      (message : Fields) (is_modern : Bool) (w : W)
      → equals_text (get message "method") "tools/call" ≡ true
      → Reaches message w (checked_call codec d message is_modern w)
  unfolding checked_call call call_request_error
  checked_call-Reaches message is_modern w h = ground arith

  modern-Reaches : (message : Fields) (w : W) → Reaches message w (modern codec d message w)
  unfolding modern
  modern-Reaches message w = ground (arith, checked_call-Reaches message true w)

  legacy-Reaches : (message : Fields) (w : W) → Reaches message w (legacy codec d message w)
  unfolding legacy legacy_method
  legacy-Reaches message w = ground (arith, checked_call-Reaches message false w)

  -- Handling a message leaves the world as it is, or the message calls a listed tool with object
  -- arguments and the world is what that one call leaves.
  pub handle-Reaches : (message : Fields) (w : W) → Reaches message w (handle codec d message w)
  unfolding handle
  handle-Reaches message w = ground (arith, modern-Reaches message w, legacy-Reaches message w)

  checked_call_world :
      (message : Fields) (is_modern : Bool) (w : W)
      → CallsTool message
      → (checked_call codec d message is_modern w).1 ≡ after_call message w
  unfolding checked_call call call_request_error
  checked_call_world message is_modern w c = ground (arith, c.is_listed, c.has_arguments)

  -- A message that passes its era's request check and calls a listed tool with object arguments
  -- reaches the tool, once.
  pub handle_calls :
      (message : Fields) (w : W)
      → CallsTool message
      → (if has_modern_metadata message
          then modern_request_error message
          else legacy_request_error message)
        ≡ none
      → (handle codec d message w).1 ≡ after_call message w
  unfolding handle modern legacy legacy_method
  handle_calls message w c h = ground (
    arith,
    c.is_call,
    call_excludes (get message "method") c.is_call,
    checked_call_world message true w c,
    checked_call_world message false w c,
  )
