-- ===== src/Mcp/Handle/Errors.antt =====
-- The messages that are answered by an exception.
use limitlesslibrary.Base.{◌≡◌, Bool, true, false, none, ◌⊎◌, arith, if◌then◌else◌, raised}
use limitlesslibrary.Base.Json.{Fields, get, is_object, equals_text, is_hashable}
use limitlesslibrary.Mcp.Messages.{has_modern_metadata}
use limitlesslibrary.Mcp.Requests.{modern_request_error, legacy_request_error}
use limitlesslibrary.Mcp.Dispatcher.{
  Failure, type_error, ToolReply, returned, call_error, failed, Codec, Dispatcher, text_of,
}
use limitlesslibrary.Mcp.Handle.{
  handle, modern, legacy, legacy_method, checked_call, call, call_request_error, reply_payload,
  Handled,
}
use limitlesslibrary.Mcp.Handle.Calls.{CallsTool, params_of, call_excludes}

-- The tool's reply is an exception, or a value that is no object.
abbrev pub Crashes : ToolReply → Failure → Type 0
Crashes (failed e) f = e ≡ f
Crashes (call_error message) f = ⊥
Crashes (returned value) f =
    (is_object value ≡ false) × (f ≡ type_error "MCP call_tool must return an object")

module _ {W : Type 0} (codec : Codec) (d : Dispatcher W) (message : Fields) (w : W) where
  abbrev pub tool_reply : ToolReply
  tool_reply =
      (d.call_tool (text_of (get (params_of codec d message) "name"))
        (get (params_of codec d message) "arguments") w).0

  abbrev pub BadName : Failure → Type 0
  BadName e =
      (is_hashable (get (params_of codec d message) "name") ≡ false)
      × (e ≡ type_error "unhashable type")

  abbrev Raises : Failure → Handled W → Type 0
  Raises e result =
      result.0 ≡ raised e → BadName e ⊎ (CallsTool codec d message × Crashes tool_reply e)

  reply_payload-Crashes :
      (is_modern : Bool) (reply : ToolReply) (e : Failure)
      → reply_payload codec d reply is_modern ≡ raised e
      → Crashes reply e
  unfolding reply_payload
  reply_payload-Crashes is_modern reply e h = ground arith

  checked_call-Raises :
      (is_modern : Bool) (e : Failure)
      → equals_text (get message "method") "tools/call" ≡ true
      → Raises e (checked_call codec d message is_modern w)
  unfolding checked_call call call_request_error
  checked_call-Raises is_modern e h r = ground (arith, reply_payload-Crashes is_modern tool_reply e)

  modern-Raises : (e : Failure) → Raises e (modern codec d message w)
  unfolding modern
  modern-Raises e r = ground (arith, checked_call-Raises true e)

  legacy-Raises : (e : Failure) → Raises e (legacy codec d message w)
  unfolding legacy legacy_method
  legacy-Raises e r = ground (arith, checked_call-Raises false e)

  -- An exception leaves `handle` only if the call's name is a list or a dict, or if a listed tool
  -- was called and itself raised, or returned a value that is no object.
  pub handle-Raises :
      (e : Failure)
      → (handle codec d message w).0 ≡ raised e
      → BadName e ⊎ (CallsTool codec d message × Crashes tool_reply e)
  unfolding handle
  handle-Raises e r = ground (arith, modern-Raises e, legacy-Raises e)

  -- A well-formed call whose name is a list or a dict is answered by a `TypeError`, in both eras,
  -- and not by the error for a tool that is not listed.
  pub handle_unhashable :
      (if has_modern_metadata message
          then modern_request_error message
          else legacy_request_error message)
        ≡ none
      → equals_text (get message "method") "tools/call" ≡ true
      → is_hashable (get (params_of codec d message) "name") ≡ false
      → handle codec d message w ≡ (raised (type_error "unhashable type"), w)
  unfolding handle modern legacy legacy_method checked_call call_request_error
  handle_unhashable h m b = ground (arith, call_excludes (get message "method") m)
