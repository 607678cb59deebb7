-- ===== src/Mcp/Dispatcher/Catalog.antt =====
-- What the constructor's loop over the tools leaves.
use limitlesslibrary.Base.{
  ◌≡◌, refl, sym, ap, ◌∙◌, ◌≢◌, String, true, false, ◌||◌, List, [], ◌∷◌, ◌++◌, map, arith, in_list,
  ok, All, inl, inr, Bool-cases,
}
use limitlesslibrary.Base.Json.{Json, Fields, get, is_object, is_nonempty_str}
use limitlesslibrary.Mcp.Dispatcher.{ToolReply, Dispatcher, valid_tool, text_of, add_tools, init}
use mathlib.Core.List.{append-nil, append_assoc}
use mathlib.Core.Path.{subst}

abbrev pub tool_name : Fields → String
tool_name tool = text_of (get tool "name")

-- A name, and two schemas.
abbrev pub IsComplete : Fields → Type 0
IsComplete tool =
    (is_nonempty_str (get tool "name") ≡ true)
    × (is_object (get tool "inputSchema") ≡ true)
    × (is_object (get tool "outputSchema") ≡ true)

-- No name of the list comes again behind it.
abbrev pub Distinct : List String → Type 0
Distinct [] = Unit
Distinct (name ∷ names) = (in_list name names ≡ false) × Distinct names

valid_tool-IsComplete :
    (tool : Fields) (names : List String)
    → valid_tool tool names ≡ true
    → IsComplete tool × (in_list (tool_name tool) names ≡ false)
unfolding valid_tool
valid_tool-IsComplete tool names h = ground arith

record Added (tools normalized : List Fields) (names : List String) (made : List Fields)
    (made_names : List String) : Type 0 where
  pub kept : made ≡ normalized ++ tools
  pub complete : All IsComplete tools
  pub distinct : Distinct made_names
  pub listed :
      (n : String) → in_list n made_names ≡ (in_list n (map tool_name tools) || in_list n names)

add_tools-Added :
    (tools normalized : List Fields) (names : List String) (made : List Fields)
    (made_names : List String)
    → Distinct names
    → add_tools tools normalized names ≡ ok (made, made_names)
    → Added tools normalized names made made_names
unfolding add_tools
add_tools-Added [] normalized names made made_names u h =
    let e : normalized ≡ made = cc in
    let f : names ≡ made_names = cc in
    record {
      kept = sym e ∙ sym (append-nil normalized);
      complete = tt;
      distinct = rw (← f) u;
      listed = λ n. rw f refl;
    }
add_tools-Added (tool ∷ tools) normalized names made made_names u h =
    elim (Bool-cases (valid_tool tool names)) [
      | inl valid ↦
          let (complete, fresh) = valid_tool-IsComplete tool names valid in
          let a : Added tools (normalized ++ (tool ∷ [])) (tool_name tool ∷ names) made made_names =
            add_tools-Added tools (normalized ++ (tool ∷ [])) (tool_name tool ∷ names) made
              made_names (fresh, u) (rw valid at h) in
          record {
            kept = a.kept ∙ append_assoc normalized (tool ∷ []) tools;
            complete = (complete, a.complete);
            distinct = a.distinct;
            listed = λ n. ground (arith, a.listed n);
          }
      | inr invalid ↦ absurd (rejected invalid h)
    ]
  where
    rejected :
        valid_tool tool names ≡ false
        → add_tools (tool ∷ tools) normalized names ≡ ok (made, made_names)
        → ⊥
    rejected invalid h = ground arith

module _ {W : Type 0} where
  init_parts :
      (server_name server_version instructions : String) (tools : List Fields)
      (call_tool : String → Json → W → ToolReply × W) (ttl_ms : Json) (cache_scope : String)
      (d : Dispatcher W)
      → init server_name server_version instructions tools call_tool ttl_ms cache_scope ≡ ok d
      → (add_tools tools [] [] ≡ ok (d.tools, d.tool_names)) × (d.tools ≢ [])
  unfolding init
  init_parts server_name server_version instructions tools call_tool ttl_ms cache_scope d h =
      ground arith

  -- If the constructor succeeds, the dispatcher lists exactly the tools that it was given, at least
  -- one, each with a name and two schemas; a name is in the set of tool names exactly when a tool
  -- has it, and no two tools share one.
  pub init-Distinct :
      (server_name server_version instructions : String) (tools : List Fields)
      (call_tool : String → Json → W → ToolReply × W) (ttl_ms : Json) (cache_scope : String)
      (d : Dispatcher W)
      → init server_name server_version instructions tools call_tool ttl_ms cache_scope ≡ ok d
      → (d.tools ≡ tools)
        × (d.tools ≢ [])
        × All IsComplete d.tools
        × Distinct d.tool_names
        × ((n : String) → in_list n d.tool_names ≡ in_list n (map tool_name d.tools))
  init-Distinct server_name server_version instructions tools call_tool ttl_ms cache_scope d h =
      let (made, nonempty) =
        init_parts server_name server_version instructions tools call_tool ttl_ms cache_scope d h in
      let a = add_tools-Added tools [] [] d.tools d.tool_names tt made in
      (
        a.kept,
        nonempty,
        subst (All IsComplete) (sym a.kept) a.complete,
        a.distinct,
        λ n. ground (arith, a.listed n, ap (λ t. in_list n (map tool_name t)) a.kept),
      )
