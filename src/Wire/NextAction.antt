-- ===== src/Wire/NextAction.antt =====
-- `validate_next_action`: the bounded action that follows a signed service result. The dict that
-- the source returns is `action_json` of the value here.
pub mod Accepts
use limitlesslibrary.Base.{
  ℕ, String, Bool, true, false, not, ◌&&◌, ◌||◌, Option, none, some, List, [], ◌∷◌, map, ltb, leb,
  ◌==◌, codes, in_list, str_eq, length, any, if◌then◌else◌, Outcome, ok, raised, ◌>>=◌, ◌>>◌,
  require, ◌<>◌,
}
use limitlesslibrary.Base.Json.{
  Json, str, arr, obj, int, pos, boolean, Fields, get, has_key, list_of, object, array, equals_text,
  is_boolean,
}
use limitlesslibrary.Wire.Shape.{Checked, exact, text, is_text, anything, is_digest, is_true}
use limitlesslibrary.Wire.Checks.{Check, checks, checks_json, predicates, locator}

-- A normalised method step.
pub record Step : Type 0 where
  pub instruction : String
  pub check : String
  pub expected : String
  pub locator : String
  pub in_repo : Bool

abbrev pub step_json : Step → Json
step_json s = object (
    ("instruction", str s.instruction)
    ∷ ("check", str s.check)
    ∷ ("expected", str s.expected)
    ∷ ("locator", str s.locator)
    ∷ ("inRepo", boolean s.in_repo)
    ∷ [])

-- One constructor for each kind. The first step and the only check of a method are given apart.
pub data NextAction : Type 0 where
  install_and_verify : String → List Check → String → NextAction
  handoff_native_add : String → List Check → String → NextAction
  apply_method_step : Check → ℕ → Step → List Step → NextAction
  supply_missing_fact : String → Check → String → NextAction
  use_local_catalog : String → Check → NextAction
  re_query : String → Check → NextAction

abbrev plain_json : String → String → List Check → List (String × Json) → Json
plain_json kind instruction cs rest = object (
    ("kind", str kind)
    ∷ ("instruction", str instruction)
    ∷ ("checks", checks_json cs)
    ∷ ("localReuseAvailable", boolean true)
    ∷ rest)

-- The dict that is returned.
abbrev pub action_json : NextAction → Json
action_json (install_and_verify instruction cs digest) =
    plain_json "install-and-verify" instruction cs
      (("handoff", str "library-install") ∷ ("artifactDigest", str digest) ∷ [])
action_json (handoff_native_add instruction cs handoff) =
    plain_json "handoff-native-add" instruction cs (("handoff", str handoff) ∷ [])
action_json (apply_method_step c index first rest) =
    plain_json "apply-method-step" first.instruction (c ∷ []) (
      ("stepIndex", int (pos index))
      ∷ ("steps", array (step_json first ∷ map step_json rest))
      ∷ ("locator", str first.locator)
      ∷ [])
action_json (supply_missing_fact instruction c missing) =
    plain_json "supply-missing-fact" instruction (c ∷ []) (("missingFact", str missing) ∷ [])
action_json (use_local_catalog instruction c) =
    plain_json "use-local-catalog" instruction (c ∷ []) []
action_json (re_query instruction c) = plain_json "re-query" instruction (c ∷ []) []

-- `NEXT_ACTION_KINDS`
abbrev pub next_action_kinds : List String
next_action_kinds =
    "install-and-verify" ∷ "handoff-native-add" ∷ "apply-method-step" ∷ "supply-missing-fact"
    ∷ "use-local-catalog" ∷ "re-query" ∷ []

-- `SIGNED_MISSING_FACTS`, and the two facts that only an unsigned action may miss.
abbrev pub signed_missing_facts : List String
signed_missing_facts =
    "receiverFacts.runtime" ∷ "receiverFacts.versionRange" ∷ "receiverFacts.interfaces"
    ∷ "receiverFacts.allowedUse" ∷ "receiverFacts.platform" ∷ "receiverContext.targets"
    ∷ "requestedScopes" ∷ "disambiguating-constraint" ∷ "eligible-authorized-supply"
    ∷ "decision-budget" ∷ []

abbrev pub missing_facts : List String
missing_facts = "rate-limited" ∷ "local-catalog" ∷ signed_missing_facts

abbrev pub instruction_of : Fields → Checked String
instruction_of action = text (get action "instruction") "nextAction instruction" 280 anything

-- A check that expects this digest.
abbrev pub expects_digest : String → Check → Bool
expects_digest digest c = str_eq c.predicate "digest-equals" && str_eq c.expected digest

abbrev pub is_digest_check : Check → Bool
is_digest_check c = str_eq c.predicate "digest-equals"

unfoldable pub install_action : Json → Checked NextAction
install_action value = do
  action ←
      exact value
        ("kind" ∷ "instruction" ∷ "checks" ∷ "localReuseAvailable" ∷ "handoff" ∷ "artifactDigest"
          ∷ [])
        "nextAction"
  digest ← text (get action "artifactDigest") "nextAction artifactDigest" 71 is_digest
  cs ← checks (get action "checks") 1 8
  require (any (expects_digest digest) cs) "install-and-verify requires the artifact digest"
  require
      (equals_text (get action "handoff") "library-install"
        && is_true (get action "localReuseAvailable"))
      "install-and-verify action is invalid"
  instruction ← instruction_of action
  ok (install_and_verify instruction cs digest)

-- The handoffs of a native add.
abbrev pub handoffs : List String
handoffs = "library-install" ∷ "provider-native-add" ∷ "omarchy-native-add" ∷ []

unfoldable pub handoff_action : Json → Checked NextAction
handoff_action value = do
  action ←
      exact value ("kind" ∷ "instruction" ∷ "checks" ∷ "localReuseAvailable" ∷ "handoff" ∷ [])
        "nextAction"
  handoff ← text (get action "handoff") "nextAction handoff" 40 anything
  cs ← checks (get action "checks") 1 8
  require
      (in_list handoff handoffs
        && not (any is_digest_check cs)
        && is_true (get action "localReuseAvailable"))
      "handoff-native-add action is invalid"
  instruction ← instruction_of action
  ok (handoff_native_add instruction cs handoff)

abbrev pub is_true_value : Json → Bool
is_true_value (boolean b) = b
is_true_value _ = false

-- One round of the loop over the steps.
unfoldable pub step : Json → Checked Step
step value = do
  item ←
      exact value ("instruction" ∷ "check" ∷ "expected" ∷ "locator" ∷ "inRepo" ∷ []) "method step"
  check ← text (get item "check") "method step check" 32 anything
  require (in_list check predicates && is_boolean (get item "inRepo")) "method step is invalid"
  instruction ← text (get item "instruction") "method step instruction" 280 anything
  expected ← text (get item "expected") "method step expected" 160 anything
  place ← locator (get item "locator") "method step locator"
  ok (record {
    instruction = instruction;
    check = check;
    expected = expected;
    locator = place;
    in_repo = is_true_value (get item "inRepo");
  })

pub step_loop : List Json → Checked (List Step)
step_loop [] = ok []
step_loop (value ∷ values) = do s ← step value; ss ← step_loop values; ok (s ∷ ss)

unfoldable pub steps : Json → Checked (List Step)
steps (arr values) =
    if leb 1 (length (list_of values)) && leb (length (list_of values)) 8
    then step_loop (list_of values)
    else raised "method steps are invalid"
steps _ = raised "method steps are invalid"

-- `1 <= index <= len(normalized_steps)`, for an `int` that is no `bool`
unfoldable pub step_index : Json → ℕ → Checked ℕ
step_index (int (pos n)) count =
    if leb 1 n && leb n count then ok n else raised "nextAction stepIndex is invalid"
step_index _ count = raised "nextAction stepIndex is invalid"

-- `checks[0]` and `normalized_steps[0]`
unfoldable pub head_or {ℓ} : {A : Type ℓ} → List A → Checked (A × List A)
head_or [] = raised "list index out of range"
head_or (a ∷ rest) = ok (a, rest)

abbrev inconsistent_step : String
inconsistent_step = "apply-method-step action is inconsistent"

unfoldable pub step_agrees : String → Step → Check → Json → Bool
step_agrees place first c available =
    str_eq place first.locator
    && str_eq c.predicate first.check
    && str_eq c.expected first.expected
    && is_true available

unfoldable pub method_action : Json → Checked NextAction
method_action value = do
  action ←
      exact value
        ("kind" ∷ "instruction" ∷ "checks" ∷ "localReuseAvailable" ∷ "stepIndex" ∷ "steps"
          ∷ "locator" ∷ [])
        "nextAction"
  normalized ← steps (get action "steps")
  index ← step_index (get action "stepIndex") (length normalized)
  (first, rest) ← head_or normalized
  cs ← checks (get action "checks") 1 1
  (c, _) ← head_or cs
  require (equals_text (get action "instruction") first.instruction) inconsistent_step
  place ← locator (get action "locator") "nextAction locator"
  require (step_agrees place first c (get action "localReuseAvailable")) inconsistent_step
  ok (apply_method_step c index first rest)

unfoldable pub missing_agrees : Bool → String → Check → Json → Bool
missing_agrees allow_unsigned_facts missing c available =
    in_list missing (if allow_unsigned_facts then missing_facts else signed_missing_facts)
    && str_eq c.predicate "fact-present"
    && str_eq c.expected missing
    && is_true available

unfoldable pub missing_action : Json → Bool → Checked NextAction
missing_action value allow_unsigned_facts = do
  action ←
      exact value ("kind" ∷ "instruction" ∷ "checks" ∷ "localReuseAvailable" ∷ "missingFact" ∷ [])
        "nextAction"
  missing ← text (get action "missingFact") "nextAction missingFact" 40 anything
  cs ← checks (get action "checks") 1 1
  (c, _) ← head_or cs
  require (missing_agrees allow_unsigned_facts missing c (get action "localReuseAvailable"))
      "supply-missing-fact action is inconsistent"
  instruction ← instruction_of action
  ok (supply_missing_fact instruction c missing)

unfoldable pub plain_agrees : Bool → Check → Json → Bool
plain_agrees is_local c available =
    str_eq c.predicate (if is_local then "fact-present" else "generation-current")
    && not (is_local && not (str_eq c.expected "local-catalog"))
    && is_true available

-- The dict of the last `return`, for either kind.
abbrev pub plain_of : Bool → String → Check → NextAction
plain_of true instruction c = use_local_catalog instruction c
plain_of false instruction c = re_query instruction c

unfoldable pub plain_action : Json → String → Checked NextAction
plain_action value kind = do
  action ← exact value ("kind" ∷ "instruction" ∷ "checks" ∷ "localReuseAvailable" ∷ []) "nextAction"
  cs ← checks (get action "checks") 1 1
  (c, _) ← head_or cs
  require (plain_agrees (str_eq kind "use-local-catalog") c (get action "localReuseAvailable"))
      (kind <> " action is inconsistent")
  instruction ← instruction_of action
  ok (plain_of (str_eq kind "use-local-catalog") instruction c)

-- The branches on `kind`.
unfoldable pub action_of_kind : String → Json → Bool → Checked NextAction
action_of_kind kind value allow_unsigned_facts =
    if str_eq kind "install-and-verify"
    then install_action value
    else if str_eq kind "handoff-native-add"
    then handoff_action value
    else if str_eq kind "apply-method-step"
    then method_action value
    else if str_eq kind "supply-missing-fact"
    then missing_action value allow_unsigned_facts
    else plain_action value kind

kind_of : Json → Checked Json
kind_of (obj d) =
    if has_key d "kind" then ok (get d "kind") else raised "nextAction has an unsupported shape"
kind_of _ = raised "nextAction has an unsupported shape"

unfoldable pub validate_next_action : Json → Bool → Checked NextAction
unfolding kind_of
validate_next_action value allow_unsigned_facts = do
  found ← kind_of value
  kind ← text found "nextAction kind" 40 anything
  require (in_list kind next_action_kinds) "nextAction kind is invalid"
  action_of_kind kind value allow_unsigned_facts
