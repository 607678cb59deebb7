-- ===== src/Tests/Sessions.antt =====
-- A dispatcher with one tool that counts its calls.
use limitlesslibrary.Base.{
  ℕ, suc, ◌≡◌, ◌≢◌, refl, String, true, some, [], ◌∷◌, map, ok, raised, All, in_list, is_blank,
  strip, strip_text, ◌⊎◌, inl, inr,
}
use limitlesslibrary.Base.Json.{Json, int, pos, str, Fields, object, fields_of}
use limitlesslibrary.Mcp.Messages.{
  has_modern_metadata, valid_implementation, valid_tool_annotations,
}
use limitlesslibrary.Mcp.Requests.{legacy_request_error, legacy_initialize_request_error}
use limitlesslibrary.Mcp.Dispatcher.{
  type_error, other_error, ToolReply, returned, failed, Codec, Dispatcher, init, valid_tool,
  add_tools,
}
use limitlesslibrary.Mcp.Dispatcher.Catalog.{IsComplete, Distinct, tool_name, init-Distinct}
use limitlesslibrary.Mcp.Handle
use limitlesslibrary.Mcp.Handle.Calls.{CallsTool, Reaches, handle-Reaches, handle_calls}
use limitlesslibrary.Mcp.Handle.Replies.{RepliesUnlessRaised, handle-Replies}
use limitlesslibrary.Mcp.Handle.Errors.{
  BadName, Crashes, tool_reply, handle-Raises, handle_unhashable,
}
use limitlesslibrary.Mcp.Session.{open_session, run}
use limitlesslibrary.Mcp.Session.Gate.{
  IsLegacy, IsInitialize, IsInitialized, Handshake, run_handshake, run-Handshake,
  run_without-Handshake,
}
use limitlesslibrary.Base.{Outcome, List, str_eq, if◌then◌else◌}
use limitlesslibrary.Base.Json.{obj}
use limitlesslibrary.Mcp.Dispatcher.{Failure, value_error}
use limitlesslibrary.Server.{Frame, line, too_long, serve}
use limitlesslibrary.Server.Serve.{messages_of, Ran, serve-Ran, serve_without-Handshake}

abbrev codec : Codec
codec = record { encode = λ d. some "{}"; decode = λ t. some (object []) }

abbrev count_call : String → Json → ℕ → ToolReply × ℕ
count_call name arguments calls = (returned (object []), suc calls)

abbrev tool : Fields
tool = fields_of (
    ("name", str "query")
    ∷ ("description", str "Query")
    ∷ ("inputSchema", object [])
    ∷ ("outputSchema", object [])
    ∷ [])

abbrev server : Dispatcher ℕ
server = record {
  server_name = "limitless";
  server_version = "0.1";
  instructions = "Check first.";
  tools = tool ∷ [];
  tool_names = "query" ∷ [];
  call_tool = count_call;
  ttl_ms = 3600000;
  cache_scope = "public";
}

-- The same server with a tool that raises.
abbrev broken : Dispatcher ℕ
broken = record server {
  call_tool = λ name arguments calls. (failed (other_error "disk"), suc calls);
}

abbrev request : String → Json → Fields
request method params = fields_of (
    ("jsonrpc", str "2.0") ∷ ("id", int (pos 7)) ∷ ("method", str method) ∷ ("params", params) ∷ [])

abbrev call_message : Json → Fields
call_message name = request "tools/call" (object (("name", name) ∷ ("arguments", object []) ∷ []))

abbrev initialize_message : Fields
initialize_message = request "initialize" (
    object (
      ("protocolVersion", str "2025-03-26")
      ∷ ("capabilities", object [])
      ∷ ("clientInfo", object (("name", str "agent") ∷ ("version", str "1") ∷ []))
      ∷ []))

abbrev initialized_message : Fields
initialized_message =
    fields_of (("jsonrpc", str "2.0") ∷ ("method", str "notifications/initialized") ∷ [])

call_is_legacy : IsLegacy (call_message (str "query"))
unfolding has_modern_metadata
call_is_legacy = refl

query_call : CallsTool codec server (call_message (str "query"))
query_call = record { is_call = refl; is_listed = refl; has_arguments = refl }

handle_calls_example : (Handle.handle codec server (call_message (str "query")) 3).1 ≡ 4
unfolding has_modern_metadata legacy_request_error
handle_calls_example = handle_calls codec server (call_message (str "query")) 3 query_call refl

handle-Reaches_example :
    Reaches codec server
      (call_message (str "query"))
      3
      (Handle.handle codec server (call_message (str "query")) 3)
handle-Reaches_example = handle-Reaches codec server (call_message (str "query")) 3

handle-Replies_example :
    RepliesUnlessRaised
      (call_message (str "query"))
      (Handle.handle codec server (call_message (str "query")) 3).0
handle-Replies_example = handle-Replies codec server (call_message (str "query")) 3

disk_failure :
    (Handle.handle codec broken (call_message (str "query")) 3).0 ≡ raised (other_error "disk")
unfolding Handle.handle Handle.legacy Handle.legacy_method Handle.checked_call Handle.call
    Handle.call_request_error Handle.reply_payload has_modern_metadata legacy_request_error
disk_failure = refl

handle-Raises_example :
    BadName codec broken (call_message (str "query")) 3 (other_error "disk")
    ⊎ (CallsTool codec broken (call_message (str "query"))
        × Crashes (tool_reply codec broken (call_message (str "query")) 3) (other_error "disk"))
handle-Raises_example =
    handle-Raises codec broken (call_message (str "query")) 3 (other_error "disk") disk_failure

handle_unhashable_example :
    Handle.handle codec server (call_message (object [])) 3
    ≡ (raised (type_error "unhashable type"), 3)
unfolding has_modern_metadata legacy_request_error
handle_unhashable_example =
    handle_unhashable codec server (call_message (object [])) 3 refl refl refl

IsInitialize-ok : IsInitialize initialize_message
unfolding has_modern_metadata legacy_request_error legacy_initialize_request_error
    valid_implementation is_blank strip
IsInitialize-ok = record { legacy = refl; method = refl; envelope_ok = refl; params_ok = refl }

IsInitialized-ok : IsInitialized initialized_message
unfolding has_modern_metadata
IsInitialized-ok = record { legacy = refl; method = refl; notification = refl }

run_handshake_example :
    run codec server (initialize_message ∷ initialized_message ∷ []) (open_session 0)
    ≡ record { legacy_initialized = true; legacy_ready = true; world = 0 }
run_handshake_example =
    run_handshake codec server initialize_message initialized_message (open_session 0)
      IsInitialize-ok IsInitialized-ok

ready_after :
    (run codec server (initialize_message ∷ initialized_message ∷ []) (open_session 0)).legacy_ready
    ≡ true
ready_after = rw run_handshake_example

run-Handshake_example : Handshake (initialize_message ∷ initialized_message ∷ [])
run-Handshake_example =
    run-Handshake codec server (initialize_message ∷ initialized_message ∷ []) 0 ready_after

no-Handshake : ¬ Handshake (call_message (str "query") ∷ initialized_message ∷ [])
no-Handshake (inl (i, _)) = cc (i.method)
no-Handshake (inr (inl (i, _))) = cc (i.method)
no-Handshake (inr (inr h)) = h

run_without-Handshake_example :
    (run codec server
      (call_message (str "query") ∷ initialized_message ∷ [])
      (open_session 0)).world
    ≡ 0
run_without-Handshake_example =
    run_without-Handshake codec server (call_message (str "query") ∷ initialized_message ∷ []) 0
      (call_is_legacy, (IsInitialized-ok.legacy, tt)) no-Handshake

init_runs :
    init "limitless" "0.1" "Check first." (tool ∷ []) count_call (int (pos 3600000)) "public"
    ≡ ok server
unfolding init add_tools valid_tool valid_tool_annotations is_blank strip strip_text
init_runs = refl

init-Distinct_example :
    (server.tools ≡ tool ∷ [])
    × (server.tools ≢ [])
    × All IsComplete server.tools
    × Distinct server.tool_names
    × ((n : String) → in_list n server.tool_names ≡ in_list n (map tool_name server.tools))
init-Distinct_example =
    init-Distinct "limitless" "0.1" "Check first." (tool ∷ []) count_call (int (pos 3600000))
      "public" server init_runs

-- The text of a call, and any other text, which is no JSON.
abbrev loads : String → Outcome Failure Json
loads t =
    if str_eq t "call"
    then ok (obj (call_message (str "query")))
    else raised (value_error "no JSON")

abbrev frames : List Frame
frames = too_long ∷ line "call" ∷ line "{" ∷ []

no_frames-Handshake : ¬ Handshake (messages_of codec server loads frames)
unfolding messages_of
no_frames-Handshake (inl (i, _)) = cc (i.method)
no_frames-Handshake (inr h) = h

frames-IsLegacy : All IsLegacy (messages_of codec server loads frames)
unfolding messages_of
frames-IsLegacy = (call_is_legacy, tt)

serve_without-Handshake_example :
    (serve codec server loads frames (open_session 0)).session.world ≡ 0
serve_without-Handshake_example =
    serve_without-Handshake codec server loads frames 0 frames-IsLegacy no_frames-Handshake

serve-Ran_example :
    Ran codec server loads
      (messages_of codec server loads frames)
      (open_session 0)
      (serve codec server loads frames (open_session 0))
serve-Ran_example = serve-Ran codec server loads frames (open_session 0)
