-- ===== src/Service/Context.antt =====
-- `_sorted_texts` and `_receiver_context` of `service_contracts.py`: what of the receiver crosses
-- to the service.
use limitlesslibrary.Base.{
  ℕ, String, ◌<>◌, Bool, false, ◌&&◌, ◌||◌, Option, none, some, List, [], ◌∷◌, map, leb, codes,
  is_digit, str_eq, in_list, length, all, if◌then◌else◌, is_sorted_set, Outcome, ok, raised, ◌>>=◌,
  ◌>>◌, require,
}
use limitlesslibrary.Base.Json.{Json, str, null, arr, list_of, array, object, get, is_null}
use limitlesslibrary.Wire.Shape.{anything, is_letter, after_prefix}
use limitlesslibrary.Service.Shape.{
  Failure, contract_error, exact_fields, bounded_text, is_name_char,
}

pub record Target : Type 0 where
  pub id : String
  pub platform : String
  pub architecture : String
  pub runtime : String
  pub version_range : String
  pub interfaces : List String

pub record Execution : Type 0 where
  pub platform : String
  pub architecture : String
  pub runtime : String
  pub version : String

-- `selected` is none where all targets count.
pub record Context : Type 0 where
  pub receiver_id : String
  pub allowed_use : String
  pub interfaces : List String
  pub execution : Execution
  pub targets : List Target
  pub mode : String
  pub selected : Option String

abbrev pub texts_json : List String → Json
texts_json ts = array (map (λ s. str s) ts)

abbrev pub target_json : Target → Json
target_json t = object (
    ("id", str t.id)
    ∷ ("platform", str t.platform)
    ∷ ("architecture", str t.architecture)
    ∷ ("runtime", str t.runtime)
    ∷ ("versionRange", str t.version_range)
    ∷ ("interfaces", texts_json t.interfaces)
    ∷ [])

abbrev selected_json : Option String → Json
selected_json none = null
selected_json (some s) = str s

abbrev pub context_json : Context → Json
context_json c = object (
    ("receiverId", str c.receiver_id)
    ∷ ("allowedUse", str c.allowed_use)
    ∷ ("interfaces", texts_json c.interfaces)
    ∷ (
      "execution",
      object (
          ("platform", str c.execution.platform)
          ∷ ("architecture", str c.execution.architecture)
          ∷ ("runtime", str c.execution.runtime)
          ∷ ("version", str c.execution.version)
          ∷ []),
    )
    ∷ ("targets", array (map target_json c.targets))
    ∷ ("compatibilityMode", str c.mode)
    ∷ ("selectedTarget", selected_json c.selected)
    ∷ [])

abbrev wrong : String → Failure
wrong message = contract_error ("receiverContext " <> message)

-- A prefix, a letter or a digit, and up to 119 more characters of a name.
unfoldable pub is_prefixed : String → List ℕ → Bool
is_prefixed prefix text = elim (after_prefix (codes prefix) text) [
  | some (c ∷ cs) ↦ (is_letter c || is_digit c) && all is_name_char cs && leb (length cs) 119
  | some [] ↦ false
  | none ↦ false
]

unfoldable pub text_loop : List Json → String → ℕ → Outcome Failure (List String)
text_loop [] label maximum = ok []
text_loop (value ∷ values) label maximum = do
  s ← bounded_text value label maximum anything
  rest ← text_loop values label maximum
  ok (s ∷ rest)

-- `_sorted_texts` for a list that may not be empty, with no further restriction
unfoldable pub sorted_texts : Json → String → ℕ → ℕ → Outcome Failure (List String)
sorted_texts (arr values) label maximum_items maximum_length = do
  require (leb 1 (length (list_of values)) && leb (length (list_of values)) maximum_items)
      (contract_error (label <> " is invalid"))
  texts ← text_loop (list_of values) label maximum_length
  require (is_sorted_set texts) (contract_error (label <> " must be sorted and unique"))
  ok texts
sorted_texts _ label maximum_items maximum_length = raised (contract_error (label <> " is invalid"))

-- One round of the loop.
unfoldable pub target_of : Json → Outcome Failure Target
target_of value = do
  target ←
      exact_fields value
        ("id" ∷ "platform" ∷ "architecture" ∷ "runtime" ∷ "versionRange" ∷ "interfaces" ∷ [])
        "receiverContext target"
  id ← bounded_text (get target "id") "receiverContext target id" 128 (is_prefixed "target:")
  platform ← bounded_text (get target "platform") "receiverContext target platform" 64 anything
  architecture ←
      bounded_text (get target "architecture") "receiverContext target architecture" 64 anything
  runtime ← bounded_text (get target "runtime") "receiverContext target runtime" 64 anything
  version_range ←
      bounded_text (get target "versionRange") "receiverContext target versionRange" 120 anything
  interfaces ← sorted_texts (get target "interfaces") "receiverContext target interfaces" 32 128
  ok (record {
    id = id;
    platform = platform;
    architecture = architecture;
    runtime = runtime;
    version_range = version_range;
    interfaces = interfaces;
  })

unfoldable pub target_loop : List Json → Outcome Failure (List Target)
target_loop [] = ok []
target_loop (value ∷ values) = do t ← target_of value; ts ← target_loop values; ok (t ∷ ts)

-- One to eight targets, whose ids are their own sorted set: sorted by id, and no id twice.
unfoldable pub targets_of : Json → Outcome Failure (List Target)
targets_of (arr values) = do
  require (leb 1 (length (list_of values)) && leb (length (list_of values)) 8)
      (wrong "targets are invalid")
  targets ← target_loop (list_of values)
  require (is_sorted_set (map (λ t. t.id) targets)) (wrong "targets must be sorted and unique")
  ok targets
targets_of _ = raised (wrong "targets are invalid")

-- The selected target, which is one of them, or none for all.
unfoldable pub selected_target : Json → String → List Target → Outcome Failure (Option String)
selected_target value mode targets =
    if str_eq mode "all-targets"
    then (do
      require (is_null value)
          (contract_error "all-targets receiverContext cannot select one target")
      ok none)
    else (do
      selected ← bounded_text value "receiverContext selectedTarget" 128 (is_prefixed "target:")
      require (in_list selected (map (λ t. t.id) targets)) (wrong "selectedTarget is unavailable")
      ok (some selected))

-- The targets that count.
unfoldable pub applicable : Option String → List Target → List Target
applicable none targets = targets
applicable (some selected) [] = []
applicable (some selected) (t ∷ ts) =
    let rest = applicable (some selected) ts in if str_eq t.id selected then t ∷ rest else rest

-- `set(texts) <= set(others)`
abbrev pub covered_by : List String → List String → Bool
covered_by texts others = all (λ s. in_list s others) texts

-- `_receiver_context`
unfoldable pub receiver_context : Json → Outcome Failure Context
receiver_context value = do
  context ←
      exact_fields value
        ("receiverId" ∷ "allowedUse" ∷ "interfaces" ∷ "execution" ∷ "targets" ∷ "compatibilityMode"
          ∷ "selectedTarget" ∷ [])
        "receiverContext"
  execution ←
      exact_fields (get context "execution")
        ("platform" ∷ "architecture" ∷ "runtime" ∷ "version" ∷ []) "receiverContext execution"
  targets ← targets_of (get context "targets")
  mode ←
      bounded_text (get context "compatibilityMode") "receiverContext compatibilityMode" 20 anything
  require (in_list mode ("all-targets" ∷ "one-target" ∷ [])) (wrong "compatibilityMode is invalid")
  selected ← selected_target (get context "selectedTarget") mode targets
  interfaces ← sorted_texts (get context "interfaces") "receiverContext interfaces" 32 128
  require (all (λ t. covered_by interfaces t.interfaces) (applicable selected targets))
      (wrong "target interfaces do not cover the receiver")
  receiver_id ←
      bounded_text (get context "receiverId") "receiverContext receiverId" 128
        (is_prefixed "receiver:")
  allowed_use ← bounded_text (get context "allowedUse") "receiverContext allowedUse" 128 anything
  platform ←
      bounded_text (get execution "platform") "receiverContext execution platform" 64 anything
  architecture ←
      bounded_text (get execution "architecture") "receiverContext execution architecture" 64
        anything
  runtime ← bounded_text (get execution "runtime") "receiverContext execution runtime" 64 anything
  version ← bounded_text (get execution "version") "receiverContext execution version" 80 anything
  ok (record {
    receiver_id = receiver_id;
    allowed_use = allowed_use;
    interfaces = interfaces;
    execution = record {
      platform = platform;
      architecture = architecture;
      runtime = runtime;
      version = version;
    };
    targets = targets;
    mode = mode;
    selected = selected;
  })
