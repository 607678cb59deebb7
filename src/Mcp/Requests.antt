-- ===== src/Mcp/Requests.antt =====
-- The checks of a request's envelope: the error answer, or `none` where the request is well formed.
use limitlesslibrary.Base.{
  Bool, false, not, ◌&&◌, ◌||◌, Option, none, some, [], ◌∷◌, is_blank, if◌then◌else◌,
}
use limitlesslibrary.Base.Json.{
  Json, null, str, obj, Fields, minus, object, get, has_key, is_nonempty_str, is_object, is_null,
  equals_text, one_of, lookup,
}
use limitlesslibrary.Mcp.Messages.{
  jsonrpc_error, is_bad_id, valid_implementation, modern_protocol_version, texts,
  supported_protocol_versions, protocol_version_meta_key, client_info_meta_key,
  client_capabilities_meta_key,
}

-- The object under `params._meta`, where both are objects.
abbrev pub meta_of : Json → Option Fields
meta_of (obj params) = elim (get params "_meta") [ obj meta ↦ some meta | _ ↦ none ]
meta_of _ = none

meta_error : Json → Option Fields → Option Json
meta_error message_id none =
    some (jsonrpc_error message_id (minus 32600) "modern requests require object params._meta" none)
meta_error message_id (some meta) =
    if not (equals_text (get meta protocol_version_meta_key) modern_protocol_version)
    then some (
        jsonrpc_error message_id (minus 32022) "Unsupported protocol version" (
          some (
            object (
              ("supported", texts supported_protocol_versions)
              ∷ ("requested", get meta protocol_version_meta_key)
              ∷ []))))
    else if not (is_object (get meta client_capabilities_meta_key))
    then some (
        jsonrpc_error message_id (minus 32600) "modern requests require object client capabilities"
          none)
    else if not (is_null (get meta client_info_meta_key))
        && not (valid_implementation (get meta client_info_meta_key))
    then some (
        jsonrpc_error message_id (minus 32600) "clientInfo requires non-empty name and version"
          none)
    else none

unfoldable pub modern_request_error : Fields → Option Json
unfolding meta_error
modern_request_error message =
    if not (equals_text (get message "jsonrpc") "2.0")
      || not (has_key message "id")
      || is_bad_id (get message "id")
      || not (is_nonempty_str (get message "method"))
    then some (
        jsonrpc_error (get message "id") (minus 32600)
          "modern requests require JSON-RPC 2.0 and a string or number id" none)
    else meta_error (get message "id") (meta_of (get message "params"))

unfoldable pub legacy_request_error : Fields → Option Json
legacy_request_error message =
    if not (equals_text (get message "jsonrpc") "2.0")
      || not (is_nonempty_str (get message "method"))
    then some (
        jsonrpc_error (get message "id") (minus 32600)
          "legacy requests require JSON-RPC 2.0 and a method" none)
    else if has_key message "id" && is_bad_id (get message "id")
    then some (
        jsonrpc_error (get message "id") (minus 32600)
          "legacy request id must be a string or number" none)
    else if one_of (get message "method") ("initialize" ∷ "tools/list" ∷ "tools/call" ∷ [])
        && not (has_key message "id")
    then some (jsonrpc_error null (minus 32600) "legacy MCP request methods require an id" none)
    else if equals_text (get message "method") "notifications/initialized" && has_key message "id"
    then some (
        jsonrpc_error (get message "id") (minus 32600)
          "legacy initialized notification must not include an id" none)
    else none

-- `isinstance(requested, str) and requested.strip()`, as a test
abbrev is_filled : Json → Bool
is_filled (str s) = not (is_blank s)
is_filled _ = false

initialize_params_error : Json → Json → Option Json
initialize_params_error message_id (obj params) =
    if not (is_filled (get params "protocolVersion"))
    then some (
        jsonrpc_error message_id (minus 32602)
          "initialize requires a non-empty protocolVersion string" none)
    else if not (is_object (get params "capabilities"))
    then some (
        jsonrpc_error message_id (minus 32602) "initialize requires object client capabilities"
          none)
    else if not (valid_implementation (get params "clientInfo"))
    then some (
        jsonrpc_error message_id (minus 32602) "initialize requires clientInfo name and version"
          none)
    else none
initialize_params_error message_id _ =
    some (jsonrpc_error message_id (minus 32602) "initialize requires object params" none)

-- `_legacy_initialize_request_error`
unfoldable pub legacy_initialize_request_error : Fields → Option Json
unfolding initialize_params_error
legacy_initialize_request_error message =
    initialize_params_error (get message "id") (get message "params")

list_params_error : Json → Json → Option Json
list_params_error message_id (obj params) =
    if has_key params "cursor"
    then some (jsonrpc_error message_id (minus 32602) "tools/list does not support cursors" none)
    else none
list_params_error message_id _ =
    some (jsonrpc_error message_id (minus 32602) "tools/list requires object params" none)

-- `message.get("params", {})`
abbrev params_or_empty : Option Json → Json
params_or_empty none = object []
params_or_empty (some params) = params

-- `_tools_list_request_error`
unfoldable pub tools_list_request_error : Fields → Option Json
unfolding list_params_error
tools_list_request_error message =
    list_params_error (get message "id") (params_or_empty (lookup "params" message))
