-- ===== src/Mcp/Messages.antt =====
-- JSON-RPC answers, the protocol versions, and the values that the request checks look for.
use limitlesslibrary.Base.{String, Bool, true, false, ◌&&◌, Option, none, some, List, [], ◌∷◌, map}
use limitlesslibrary.Base.Json.{
  Json, null, boolean, int, str, obj, arr, Fields, ℤ, object, array, get, has_key, is_nonempty_str,
  is_boolean, keys_within, lookup, field, end,
}

abbrev pub legacy_protocol_version : String
legacy_protocol_version = "2025-03-26"

abbrev pub stable_protocol_version : String
stable_protocol_version = "2025-06-18"

abbrev pub modern_protocol_version : String
modern_protocol_version = "2026-07-28"

abbrev pub initialization_protocol_versions : List String
initialization_protocol_versions = stable_protocol_version ∷ legacy_protocol_version ∷ []

abbrev pub supported_protocol_versions : List String
supported_protocol_versions = modern_protocol_version ∷ initialization_protocol_versions

abbrev pub protocol_version_meta_key : String
protocol_version_meta_key = "io.modelcontextprotocol/protocolVersion"

abbrev pub client_info_meta_key : String
client_info_meta_key = "io.modelcontextprotocol/clientInfo"

abbrev pub client_capabilities_meta_key : String
client_capabilities_meta_key = "io.modelcontextprotocol/clientCapabilities"

abbrev pub server_info_meta_key : String
server_info_meta_key = "io.modelcontextprotocol/serverInfo"

-- A tuple of texts as a JSON list.
abbrev pub texts : List String → Json
texts ts = array (map (λ t. str t) ts)

-- The keyword argument `data`, which is left out when it is `None`.
abbrev data_item : Option Json → List (String × Json)
data_item none = []
data_item (some value) = ("data", value) ∷ []

unfoldable pub jsonrpc_error : Json → ℤ → String → Option Json → Json
jsonrpc_error message_id code message details = object (
    ("jsonrpc", str "2.0")
    ∷ ("id", message_id)
    ∷ ("error", object (("code", int code) ∷ ("message", str message) ∷ data_item details))
    ∷ [])

unfoldable pub jsonrpc_result : Json → Json → Json
jsonrpc_result message_id payload =
    object (("jsonrpc", str "2.0") ∷ ("id", message_id) ∷ ("result", payload) ∷ [])

-- `isinstance(message_id, (bool, list, dict))`, or `None`
abbrev pub is_bad_id : Json → Bool
is_bad_id null = true
is_bad_id (boolean b) = true
is_bad_id (arr xs) = true
is_bad_id (obj d) = true
is_bad_id _ = false

-- `_valid_implementation`
unfoldable pub valid_implementation : Json → Bool
valid_implementation (obj d) = is_nonempty_str (get d "name") && is_nonempty_str (get d "version")
valid_implementation _ = false

-- A boolean where the key is there.
abbrev hint_ok : Option Json → Bool
hint_ok none = true
hint_ok (some value) = is_boolean value

abbrev title_ok : Option Json → Bool
title_ok none = true
title_ok (some value) = is_nonempty_str value

-- `_valid_tool_annotations`
unfoldable pub valid_tool_annotations : Json → Bool
valid_tool_annotations null = true
valid_tool_annotations (obj d) =
    keys_within d
      ("title" ∷ "readOnlyHint" ∷ "destructiveHint" ∷ "idempotentHint" ∷ "openWorldHint" ∷ [])
    && title_ok (lookup "title" d)
    && hint_ok (lookup "readOnlyHint" d)
    && hint_ok (lookup "destructiveHint" d)
    && hint_ok (lookup "idempotentHint" d)
    && hint_ok (lookup "openWorldHint" d)
valid_tool_annotations _ = false

abbrev meta_has_version : Json → Bool
meta_has_version (obj meta) = has_key meta protocol_version_meta_key
meta_has_version _ = false

abbrev params_have_version : Json → Bool
params_have_version (obj params) = meta_has_version (get params "_meta")
params_have_version _ = false

unfoldable pub has_modern_metadata : Fields → Bool
has_modern_metadata message = params_have_version (get message "params")

unfoldable pub modern_metadata : String → String → Fields
modern_metadata client_name client_version =
    field protocol_version_meta_key (str modern_protocol_version) (
      field client_info_meta_key
        (object (("name", str client_name) ∷ ("version", str client_version) ∷ []))
        (field client_capabilities_meta_key (object []) end))
