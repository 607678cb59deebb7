-- ===== src/Tests/Actions.antt =====
-- Actions that are accepted.
use limitlesslibrary.Base.{◌≡◌, refl, true, false, [], ◌∷◌, ok}
use limitlesslibrary.Base.Json.{Json, str, object, array, boolean}
use limitlesslibrary.Wire.Shape.{exact, text, is_text, is_check_id, is_digest}
use limitlesslibrary.Wire.Checks.{Check, checks, check, check_loop, fits}
use limitlesslibrary.Wire.NextAction.{
  NextAction, re_query, action_json, validate_next_action, action_of_kind, plain_action,
  plain_agrees, head_or,
}
use limitlesslibrary.Wire.NextAction.Accepts.{
  IsNextAction, validate_next_action-IsNextAction, validate_next_action_idem,
  action_json-validate_next_action,
}

abbrev current : Check
current = record { id = "fresh"; predicate = "generation-current"; expected = "7" }

abbrev retry : NextAction
retry = re_query "Ask again." current

-- The same action with its keys in another order.
abbrev retry_json : Json
retry_json = object (
    ("instruction", str "Ask again.")
    ∷ ("localReuseAvailable", boolean true)
    ∷ (
      "checks",
      array (
          object (
            ("expected", str "7")
            ∷ ("id", str "fresh")
            ∷ ("predicate", str "generation-current")
            ∷ [])
          ∷ []),
    )
    ∷ ("kind", str "re-query")
    ∷ [])

accepted : validate_next_action retry_json false ≡ ok retry
unfolding validate_next_action action_of_kind plain_action plain_agrees head_or exact text is_text
    checks check check_loop fits is_check_id is_digest
accepted = refl

validate_next_action-IsNextAction_example : IsNextAction false retry
validate_next_action-IsNextAction_example =
    validate_next_action-IsNextAction retry_json false retry accepted

validate_next_action_idem_example : validate_next_action (action_json retry) false ≡ ok retry
validate_next_action_idem_example = validate_next_action_idem retry_json false retry accepted

action_json-validate_next_action_example : validate_next_action (action_json retry) false ≡ ok retry
action_json-validate_next_action_example =
    action_json-validate_next_action false retry validate_next_action-IsNextAction_example
