-- ===== src/Server.antt =====
-- `_bounded_lines` and the loop of `main` of `src/limitless_library/mcp_server.py`: the frames of the
-- standard input, and what is answered to them.
pub mod Frames
pub mod Serve
use limitlesslibrary.Base.{
  ℕ, zero, suc, ◌+◌, String, Bool, true, false, not, ◌&&◌, ◌||◌, Option, none, some, List, [], ◌∷◌,
  ltb, ◌==◌, length, if◌then◌else◌, Outcome, ok, raised,
}
use limitlesslibrary.Base.Json.{Json, null, obj, Fields, minus}
use limitlesslibrary.Mcp.Messages.{jsonrpc_error}
use limitlesslibrary.Mcp.Dispatcher.{
  Failure, value_error, type_error, other_error, Codec, Dispatcher,
}
use limitlesslibrary.Mcp.Session.{Session}
use limitlesslibrary.Mcp.Session

abbrev pub Bytes : Type 0
Bytes = List ℕ

abbrev pub in_front : ℕ → Bytes × Bytes → Bytes × Bytes
in_front b (line, rest) = (b ∷ line, rest)

-- `stream.readline(size)`: up to so many bytes, and no further than a newline; with the rest.
unfoldable pub readline : ℕ → Bytes → Bytes × Bytes
readline zero bytes = ([], bytes)
readline (suc n) [] = ([], [])
readline (suc n) (b ∷ bytes) =
    let more = readline n bytes in if b == 10 then (b ∷ [], bytes) else in_front b more

-- `raw.endswith(b"\n")`
unfoldable pub ends : Bytes → Bool
ends [] = false
ends (b ∷ []) = b == 10
ends (b ∷ c ∷ bytes) = ends (c ∷ bytes)

-- A frame: a line, or an error of the framing.
pub data Frame : Type 0 where
  line : String → Frame
  too_long : Frame
  not_utf8 : Frame

abbrev pub is_too_long : ℕ → Bytes → Bool
is_too_long maximum raw = ltb maximum (length raw) || ((length raw == maximum) && not (ends raw))

-- The `while` that reads on to the end of a line that is too long: the rest behind it.
unfoldable pub skip : ℕ → ℕ → Bytes → Bytes → Bytes
unfolding ends readline
skip zero maximum raw rest = rest
skip (suc fuel) maximum [] rest = rest
skip (suc fuel) maximum (b ∷ raw) rest =
    let next = readline (suc maximum) rest in
    let later = skip fuel maximum next.0 next.1 in if ends (b ∷ raw) then rest else later

module _ (decode : Bytes → Option String) where
  -- `raw.decode("utf-8")`
  abbrev pub decoded : Bytes → Frame
  decoded raw = elim (decode raw) [ none ↦ not_utf8 | some s ↦ line s ]

  abbrev pub frame_of : ℕ → Bytes → Frame
  frame_of maximum raw = if is_too_long maximum raw then too_long else decoded raw

  -- Where the next round begins.
  abbrev pub behind : ℕ → Bytes → Bytes → Bytes
  behind maximum raw rest =
      if is_too_long maximum raw then skip (suc (length rest)) maximum raw rest else rest

  -- `_bounded_lines`: each round reads a byte at least, so the input's length bounds the rounds.
  unfoldable pub bounded_lines : ℕ → ℕ → Bytes → List Frame
  unfolding readline skip
  bounded_lines zero maximum bytes = []
  bounded_lines (suc fuel) maximum bytes =
      let (raw, rest) = readline (suc maximum) bytes in
      elim raw [
        | [] ↦ []
        | b ∷ more ↦
            frame_of maximum (b ∷ more)
            ∷ bounded_lines fuel maximum (behind maximum (b ∷ more) rest)
      ]

-- How `main` goes on: with the session, or out of the loop by an exception that it does not catch.
pub record Served (W : Type 0) : Type 0 where
  pub responses : List Json
  pub session : Session W
  pub crashed : Bool

abbrev parse_error : String → Json
parse_error message = jsonrpc_error null (minus 32700) message none

abbrev pub answer : {W : Type 0} → Json → Served W → Served W
answer response s = record s { responses = response ∷ s.responses }

abbrev pub answer_some : {W : Type 0} → Option Json → Served W → Served W
answer_some none s = s
answer_some (some response) s = answer response s

abbrev pub stopped : {W : Type 0} → Session W → Served W
stopped s = record { responses = []; session = s; crashed = true }

-- What is printed for one message, and the rest of the loop where it goes on.
abbrev pub respond : {W : Type 0} → Outcome Failure (Option Json) × Session W → Served W → Served W
respond (ok response, s) rest = answer_some response rest
respond (raised (type_error m), s) rest = answer (parse_error m) rest
respond (raised (value_error m), s) rest = answer (parse_error m) rest
respond (raised (other_error m), s) rest = stopped s

module _ {W : Type 0} (codec : Codec) (d : Dispatcher W)
    (loads : String → Outcome Failure Json) where
  -- What a line is answered, where the rest of the loop is a function of the session.
  abbrev pub read_line : Outcome Failure Json → Session W → (Session W → Served W) → Served W
  read_line (ok (obj message)) s next =
      respond (Session.handle codec d message s) (next (Session.handle codec d message s).1)
  read_line (ok _) s next = answer (parse_error "JSON-RPC message must be an object") (next s)
  read_line (raised failure) s next = respond (raised failure, s) (next s)

  -- The loop of `main`; `loads` is `strict_json_loads`, which may raise.
  unfoldable pub serve : List Frame → Session W → Served W
  serve [] s = record { responses = []; session = s; crashed = false }
  serve (too_long ∷ frames) s =
      answer (parse_error "MCP request exceeds 1048576 bytes") (serve frames s)
  serve (not_utf8 ∷ frames) s =
      answer (parse_error "MCP request is not UTF-8 JSON") (serve frames s)
  serve (line text ∷ frames) s = read_line (loads text) s (λ t. serve frames t)
