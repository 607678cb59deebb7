-- ===== src/Mcp/Handle/Replies.antt =====
-- What an answer says: it is a JSON-RPC answer to the message that it answers.
use limitlesslibrary.Base.{◌≡◌, Bool, true, false, Option, none, some, arith, Outcome, ok, raised}
use limitlesslibrary.Base.Json.{Json, str, obj, Fields, get, lookup}
use limitlesslibrary.Mcp.Messages.{jsonrpc_error, jsonrpc_result}
use limitlesslibrary.Mcp.Requests.{
  modern_request_error, legacy_request_error, legacy_initialize_request_error,
  tools_list_request_error,
}
use limitlesslibrary.Mcp.Dispatcher.{Failure, Codec, Dispatcher}
use limitlesslibrary.Mcp.Handle.{
  handle, modern, legacy, legacy_method, checked_call, call, call_request_error, initialize,
  method_not_found,
}

-- The version and the id that an answer carries.
abbrev pub envelope : Json → Option Json × Option Json
envelope (obj answer) = (lookup "jsonrpc" answer, lookup "id" answer)
envelope _ = (none, none)

abbrev pub Answers : Fields → Json → Type 0
Answers message answer = envelope answer ≡ (some (str "2.0"), some (get message "id"))

-- An answer to the message, or none.
abbrev pub Replies : Fields → Option Json → Type 0
Replies message none = Unit
Replies message (some answer) = Answers message answer

-- An answer to the message, none, or an exception.
abbrev pub RepliesUnlessRaised : Fields → Outcome Failure (Option Json) → Type 0
RepliesUnlessRaised message (raised e) = Unit
RepliesUnlessRaised message (ok answer) = Replies message answer

module _ (message : Fields) where
  modern_request_error-Replies : Replies message (modern_request_error message)
  unfolding modern_request_error jsonrpc_error
  modern_request_error-Replies = ground arith

  legacy_request_error-Replies : Replies message (legacy_request_error message)
  unfolding legacy_request_error jsonrpc_error
  legacy_request_error-Replies = ground arith

  initialize_error-Replies : Replies message (legacy_initialize_request_error message)
  unfolding legacy_initialize_request_error jsonrpc_error
  initialize_error-Replies = ground arith

  list_error-Replies : Replies message (tools_list_request_error message)
  unfolding tools_list_request_error jsonrpc_error
  list_error-Replies = ground arith

module _ {W : Type 0} (codec : Codec) (d : Dispatcher W) (message : Fields) (w : W) where
  call_error-Replies : RepliesUnlessRaised message (call_request_error codec d message)
  unfolding call_request_error jsonrpc_error
  call_error-Replies = ground arith

  checked_call-Replies :
      (is_modern : Bool) → RepliesUnlessRaised message (checked_call codec d message is_modern w).0
  unfolding checked_call call jsonrpc_result
  checked_call-Replies is_modern = ground (arith, call_error-Replies)

  modern-Replies : RepliesUnlessRaised message (modern codec d message w).0
  unfolding modern jsonrpc_result method_not_found jsonrpc_error
  modern-Replies = ground (arith, checked_call-Replies true, list_error-Replies message)

  initialize-Replies : Answers message (initialize codec d message)
  unfolding initialize jsonrpc_result
  initialize-Replies = ground (arith, initialize_error-Replies message)

  legacy_method-Replies : RepliesUnlessRaised message (legacy_method codec d message w).0
  unfolding legacy_method jsonrpc_result method_not_found jsonrpc_error
  legacy_method-Replies =
      ground (arith, checked_call-Replies false, list_error-Replies message, initialize-Replies)

  legacy-Replies : RepliesUnlessRaised message (legacy codec d message w).0
  unfolding legacy
  legacy-Replies = ground (arith, legacy_method-Replies, legacy_request_error-Replies message)

  -- Whatever the message and the tool, an answer is a JSON-RPC 2.0 object with the message's id
  -- (null where the message has none).
  pub handle-Replies : RepliesUnlessRaised message (handle codec d message w).0
  unfolding handle
  handle-Replies =
      ground (arith, modern-Replies, legacy-Replies, modern_request_error-Replies message)
