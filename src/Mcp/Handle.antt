-- ===== src/Mcp/Handle.antt =====
-- The methods of `McpToolDispatcher` that answer one message. A message that is answered by an
-- exception gives `raised`; the world comes back in every case.
pub mod Calls
pub mod Replies
pub mod Errors
use limitlesslibrary.Base.{
  String, ◌<>◌, Bool, true, false, not, ◌&&◌, ◌||◌, Option, none, some, List, [], ◌∷◌, map, str_eq,
  in_list, if◌then◌else◌, Outcome, ok, raised,
}
use limitlesslibrary.Base.Json.{
  Json, null, boolean, int, str, obj, Fields, minus, pos, object, array, get, has_key, is_object,
  equals_text, is_hashable, one_of,
}
use limitlesslibrary.Mcp.Messages.{
  jsonrpc_error, jsonrpc_result, has_modern_metadata, texts, supported_protocol_versions,
  initialization_protocol_versions, stable_protocol_version, server_info_meta_key,
}
use limitlesslibrary.Mcp.Requests.{
  modern_request_error, legacy_request_error, legacy_initialize_request_error,
  tools_list_request_error,
}
use limitlesslibrary.Mcp.Dispatcher.{
  Failure, type_error, ToolReply, returned, call_error, failed, Codec, Dispatcher, text_of,
}

-- What a handler gives back: an answer, or `None` where there is nothing to answer.
abbrev pub Handled : Type 0 → Type 0
Handled W = Outcome Failure (Option Json) × W

module _ {W : Type 0} (codec : Codec) (d : Dispatcher W) where
  unfoldable pub server_info_meta : Json
  server_info_meta = object (
      (
        server_info_meta_key,
        object (("name", str d.server_name) ∷ ("version", str d.server_version) ∷ []),
      )
      ∷ [])

  -- The two items that the modern era adds to a call's result.
  unfoldable pub modern_items : Bool → List (String × Json)
  unfolding server_info_meta
  modern_items true = ("resultType", str "complete") ∷ ("_meta", server_info_meta) ∷ []
  modern_items false = []

  -- `_tool_error`
  unfoldable pub tool_error : String → Bool → Json
  unfolding modern_items
  tool_error message modern = object (
      ("content", array (object (("type", str "text") ∷ ("text", str message) ∷ []) ∷ []))
      ∷ ("isError", boolean true)
      ∷ modern_items modern)

  unfoldable pub call_payload : String → Json → Bool → Json
  unfolding modern_items
  call_payload text safe_structured modern = object (
      ("content", array (object (("type", str "text") ∷ ("text", str text) ∷ []) ∷ []))
      ∷ ("structuredContent", safe_structured)
      ∷ ("isError", boolean false)
      ∷ modern_items modern)

  decoded_payload : String → Bool → Option Json → Json
  decoded_payload text modern none =
      tool_error "tool result cannot be encoded as strict JSON" modern
  decoded_payload text modern (some safe_structured) = call_payload text safe_structured modern

  encoded_payload : Bool → Option String → Json
  encoded_payload modern none = tool_error "tool result cannot be encoded as strict JSON" modern
  encoded_payload modern (some text) = decoded_payload text modern (codec.decode text)

  -- The part of `_call` behind the call of the tool.
  unfoldable pub reply_payload : ToolReply → Bool → Outcome Failure Json
  unfolding decoded_payload encoded_payload
  reply_payload (call_error message) modern = ok (tool_error message modern)
  reply_payload (failed e) modern = raised e
  reply_payload (returned (obj structured)) modern =
      ok (encoded_payload modern (codec.encode structured))
  reply_payload (returned _) modern = raised (type_error "MCP call_tool must return an object")

  abbrev call_params : Json → Fields
  call_params (obj params) = params
  call_params _ = Fields.end

  abbrev answered : Json → Outcome Failure Json × W → Handled W
  answered message_id (ok payload, w) = (ok (some (jsonrpc_result message_id payload)), w)
  answered message_id (raised e, w) = (raised e, w)

  -- `_call`, answered by `jsonrpc_result`. The request checks have made `params` an object, its
  -- name a listed text and its arguments an object.
  unfoldable pub call : Fields → Bool → W → Handled W
  call message modern w =
      let params = call_params (get message "params") in
      let (reply, w') = d.call_tool (text_of (get params "name")) (get params "arguments") w in
      answered (get message "id") (reply_payload reply modern, w')

  call_params_error : Json → Json → Outcome Failure (Option Json)
  call_params_error message_id (obj params) =
      if not (is_hashable (get params "name"))
      then raised (type_error "unhashable type")
      else if not (one_of (get params "name") d.tool_names)
          || not (is_object (get params "arguments"))
      then ok (
          some (
            jsonrpc_error message_id (minus 32602)
              "tools/call requires one listed tool and object arguments" none))
      else ok none
  call_params_error message_id _ =
      ok (some (jsonrpc_error message_id (minus 32602) "tools/call requires object params" none))

  -- `_call_request_error`. A name that is a list or a dict cannot be looked up in the frozenset.
  unfoldable pub call_request_error : Fields → Outcome Failure (Option Json)
  unfolding call_params_error
  call_request_error message = call_params_error (get message "id") (get message "params")

  abbrev unless_error : Outcome Failure (Option Json) → W → Handled W → Handled W
  unless_error (raised e) w next = (raised e, w)
  unless_error (ok (some error)) w next = (ok (some error), w)
  unless_error (ok none) w next = next

  unfoldable pub checked_call : Fields → Bool → W → Handled W
  checked_call message modern w =
      unless_error (call_request_error message) w (call message modern w)

  abbrev reply : Json → W → Handled W
  reply answer w = (ok (some answer), w)

  abbrev answer_or : Option Json → Json → Json
  answer_or none answer = answer
  answer_or (some error) answer = error

  unfoldable pub discover_payload : Json
  unfolding server_info_meta
  discover_payload = object (
      ("resultType", str "complete")
      ∷ ("supportedVersions", texts supported_protocol_versions)
      ∷ ("capabilities", object (("tools", object (("listChanged", boolean false) ∷ [])) ∷ []))
      ∷ ("instructions", str d.instructions)
      ∷ ("ttlMs", int (pos d.ttl_ms))
      ∷ ("cacheScope", str d.cache_scope)
      ∷ ("_meta", server_info_meta)
      ∷ [])

  abbrev tool_list : Json
  tool_list = array (map (λ t. obj t) d.tools)

  unfoldable pub modern_list_payload : Json
  unfolding server_info_meta
  modern_list_payload = object (
      ("resultType", str "complete")
      ∷ ("tools", tool_list)
      ∷ ("ttlMs", int (pos d.ttl_ms))
      ∷ ("cacheScope", str d.cache_scope)
      ∷ ("_meta", server_info_meta)
      ∷ [])

  unfoldable pub method_not_found : Fields → Json
  method_not_found message =
      jsonrpc_error (get message "id") (minus 32601)
        ("method not found: " <> text_of (get message "method")) none

  -- `_modern`
  unfoldable pub modern : Fields → W → Handled W
  modern message w =
      if equals_text (get message "method") "server/discover"
      then reply (jsonrpc_result (get message "id") discover_payload) w
      else if equals_text (get message "method") "tools/list"
      then reply
          (answer_or (tools_list_request_error message)
            (jsonrpc_result (get message "id") modern_list_payload))
          w
      else if equals_text (get message "method") "tools/call"
      then checked_call message true w
      else reply (method_not_found message) w

  requested_version : Json → Json
  requested_version (obj params) = get params "protocolVersion"
  requested_version _ = null

  -- A newer or unknown version is answered by the stable one.
  unfoldable pub negotiated : Fields → Json
  unfolding requested_version
  negotiated message =
      let requested = requested_version (get message "params") in
      if one_of requested initialization_protocol_versions
      then requested
      else str stable_protocol_version

  unfoldable pub initialize_payload : Fields → Json
  initialize_payload message = object (
      ("protocolVersion", negotiated message)
      ∷ ("capabilities", object (("tools", object (("listChanged", boolean false) ∷ [])) ∷ []))
      ∷ (
        "serverInfo",
        object (("name", str d.server_name) ∷ ("version", str d.server_version) ∷ []),
      )
      ∷ ("instructions", str d.instructions)
      ∷ [])

  unfoldable pub initialize : Fields → Json
  initialize message =
      answer_or (legacy_initialize_request_error message)
        (jsonrpc_result (get message "id") (initialize_payload message))

  unfoldable pub legacy_method : Fields → W → Handled W
  legacy_method message w =
      if equals_text (get message "method") "notifications/initialized"
      then (ok none, w)
      else if equals_text (get message "method") "initialize"
      then reply (initialize message) w
      else if equals_text (get message "method") "tools/list"
      then reply
          (answer_or (tools_list_request_error message)
            (jsonrpc_result (get message "id") (object (("tools", tool_list) ∷ []))))
          w
      else if equals_text (get message "method") "tools/call"
      then checked_call message false w
      else if has_key message "id"
      then reply (method_not_found message) w
      else (ok none, w)

  -- `_legacy`
  unfoldable pub legacy : Fields → W → Handled W
  legacy message w = unless_error (ok (legacy_request_error message)) w (legacy_method message w)

  -- `McpToolDispatcher.handle`
  unfoldable pub handle : Fields → W → Handled W
  handle message w =
      if has_modern_metadata message
      then unless_error (ok (modern_request_error message)) w (modern message w)
      else legacy message w
