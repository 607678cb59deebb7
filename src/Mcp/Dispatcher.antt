-- ===== src/Mcp/Dispatcher.antt =====
-- `McpToolDispatcher`: the constructor's checks, and the answers of both protocol eras. The tool
-- is a parameter that acts on a world `W`; the JSON codec is one too.
pub mod Catalog
use limitlesslibrary.Base.{
  ℕ, String, ◌<>◌, Bool, true, false, not, ◌&&◌, ◌||◌, Option, none, some, List, [], ◌∷◌, ◌++◌, map,
  str_eq, in_list, is_blank, strip_text, if◌then◌else◌, Outcome, ok, raised,
}
use limitlesslibrary.Base.Json.{
  Json, null, boolean, int, str, obj, Fields, end, field, minus, pos, object, array, get, has_key,
  is_nonempty_str, is_object, is_null, equals_text, one_of, is_hashable, has_keys, keys_within,
  lookup,
}
use limitlesslibrary.Mcp.Messages.{
  jsonrpc_error, jsonrpc_result, valid_tool_annotations, has_modern_metadata, texts,
  supported_protocol_versions, initialization_protocol_versions, stable_protocol_version,
  server_info_meta_key,
}
use limitlesslibrary.Mcp.Requests.{
  modern_request_error, legacy_request_error, legacy_initialize_request_error,
  tools_list_request_error,
}

-- The exceptions that leave the dispatcher.
pub data Failure : Type 0 where
  value_error type_error other_error : String → Failure

-- How the caller's `call_tool` ends: a value, an `McpToolCallError`, or another exception.
pub data ToolReply : Type 0 where
  returned : Json → ToolReply
  call_error : String → ToolReply
  failed : Failure → ToolReply

-- `canonical_json_bytes(dict(structured)).decode("utf-8")` and `strict_json_loads(text)`; `none` is
-- a `TypeError` or a `ValueError`.
pub record Codec : Type 0 where
  pub encode : Fields → Option String
  pub decode : String → Option Json

pub record Dispatcher (W : Type 0) : Type 0 where
  pub server_name : String
  pub server_version : String
  pub instructions : String
  pub tools : List Fields
  pub tool_names : List String
  pub call_tool : String → Json → W → ToolReply × W
  pub ttl_ms : ℕ
  pub cache_scope : String

abbrev title_ok : Option Json → Bool
title_ok none = true
title_ok (some title) = is_nonempty_str title

-- `not isinstance(name, str) or not name or name in names`, negated
abbrev is_new_name : Json → List String → Bool
is_new_name (str name) names = not (str_eq name "") && not (in_list name names)
is_new_name _ names = false

-- The descriptor's conditions in the loop of `__init__`.
unfoldable pub valid_tool : Fields → List String → Bool
valid_tool tool names =
    has_keys tool ("name" ∷ "description" ∷ "inputSchema" ∷ "outputSchema" ∷ [])
    && keys_within tool
        ("name" ∷ "title" ∷ "description" ∷ "inputSchema" ∷ "outputSchema" ∷ "annotations" ∷ [])
    && is_new_name (get tool "name") names
    && is_nonempty_str (get tool "description")
    && is_object (get tool "inputSchema")
    && is_object (get tool "outputSchema")
    && title_ok (lookup "title" tool)
    && valid_tool_annotations (get tool "annotations")

-- The text of a value that the checks above have found to be one.
abbrev pub text_of : Json → String
text_of (str s) = s
text_of _ = ""

abbrev incomplete_tools : Failure
incomplete_tools = value_error "MCP tools must be unique, complete schema descriptors"

-- The loop over `tools`, with the `normalized` list and the set `names` so far.
unfoldable pub add_tools :
    List Fields → List Fields → List String → Outcome Failure (List Fields × List String)
unfolding valid_tool
add_tools [] normalized names = ok (normalized, names)
add_tools (tool ∷ rest) normalized names =
    if valid_tool tool names
    then add_tools rest (normalized ++ (tool ∷ [])) (text_of (get tool "name") ∷ names)
    else raised incomplete_tools

abbrev is_positive : ℕ → Bool
is_positive n = elim n [ Prim.Native.Nat.zero ↦ false | _ ↦ true ]

module _ {W : Type 0} where
  abbrev build :
      String
      → String
      → String
      → (String → Json → W → ToolReply × W)
      → ℕ
      → String
      → List Fields × List String
      → Outcome Failure (Dispatcher W)
  build server_name server_version instructions call_tool ttl_ms cache_scope ([], names) =
      raised (value_error "MCP tool catalog must not be empty")
  build server_name server_version instructions call_tool ttl_ms cache_scope (tool ∷ tools, names) =
      ok (record {
        server_name = strip_text server_name;
        server_version = strip_text server_version;
        instructions = strip_text instructions;
        tools = tool ∷ tools;
        tool_names = names;
        call_tool = call_tool;
        ttl_ms = ttl_ms;
        cache_scope = cache_scope;
      })

  -- `__init__`. The type of `call_tool` makes it callable.
  unfoldable pub init :
      String
      → String
      → String
      → List Fields
      → (String → Json → W → ToolReply × W)
      → Json
      → String
      → Outcome Failure (Dispatcher W)
  init server_name server_version instructions tools call_tool (int (pos ttl_ms)) cache_scope =
      if is_blank server_name || is_blank server_version || is_blank instructions
      then raised (value_error "MCP server name, version, and instructions are required")
      else if not (is_positive ttl_ms)
      then raised (value_error "MCP ttl_ms must be a positive integer")
      else if not (in_list cache_scope ("public" ∷ "private" ∷ []))
      then raised (value_error "MCP cache_scope must be public or private")
      else elim (add_tools tools [] []) [
        | raised e ↦ raised e
        | ok made ↦ build server_name server_version instructions call_tool ttl_ms cache_scope made
      ]
  init server_name server_version instructions tools call_tool _ cache_scope =
      if is_blank server_name || is_blank server_version || is_blank instructions
      then raised (value_error "MCP server name, version, and instructions are required")
      else raised (value_error "MCP ttl_ms must be a positive integer")
