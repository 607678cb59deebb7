-- ===== src/Wire/NextAction/Accepts.antt =====
-- Which actions `validate_next_action` accepts, and that its result passes it again.
mod Steps
mod Kinds
mod Single
use limitlesslibrary.Base.{
  ℕ, ◌≡◌, refl, String, Bool, true, false, not, ◌&&◌, ◌||◌, List, [], ◌∷◌, in_list, str_eq, length,
  any, All, if◌then◌else◌, arith, leb, ok, ◌>>=◌, ◌>>◌, require, bind_ok, require_ok, eq_iff,
  eq_refl, Bool-cases, inl, inr,
}
use limitlesslibrary.Base.Json.{Json, str, obj, get}
use limitlesslibrary.Wire.Shape.{text, text-str, is_text, anything}
use limitlesslibrary.Wire.NextAction.{
  NextAction, install_and_verify, handoff_native_add, apply_method_step, supply_missing_fact,
  use_local_catalog, re_query, action_json, validate_next_action, action_of_kind, kind_of,
  next_action_kinds,
}
use Kinds.{
  IsNextAction, install_action_sound, install_action_complete, handoff_action_sound,
  handoff_action_complete,
}
use Single.{
  missing_action_sound, missing_action_complete, method_action_sound, method_action_complete,
  plain_action_sound, use_local_catalog_complete, re_query_complete,
}
pub use Kinds.{IsNextAction}

action_of_kind_sound :
    (kind : String) (value : Json) (u : Bool) (a : NextAction)
    → action_of_kind kind value u ≡ ok a
    → IsNextAction u a
unfolding action_of_kind
action_of_kind_sound kind value u a h = elim (Bool-cases (str_eq kind "install-and-verify")) [
  | inl t ↦ install_action_sound value u a (rw t at h)
  | inr f1 ↦ elim (Bool-cases (str_eq kind "handoff-native-add")) [
    | inl t ↦ handoff_action_sound value u a (rw (f1, t) at h)
    | inr f2 ↦ elim (Bool-cases (str_eq kind "apply-method-step")) [
      | inl t ↦ method_action_sound value u a (rw (f1, f2, t) at h)
      | inr f3 ↦ elim (Bool-cases (str_eq kind "supply-missing-fact")) [
        | inl t ↦ missing_action_sound value u a (rw (f1, f2, f3, t) at h)
        | inr f4 ↦ plain_action_sound value kind u a (rw (f1, f2, f3, f4) at h)
      ]
    ]
  ]
]

-- What is accepted is well formed: every text and every list of checks or steps is within its
-- bounds, an install binds its digest by a check, a native add checks no digest, a method's index
-- lies within its steps and its check is the first step's, and a missing fact is the one checked.
pub validate_next_action-IsNextAction :
    (value : Json) (unsigned : Bool) (a : NextAction)
    → validate_next_action value unsigned ≡ ok a
    → IsNextAction unsigned a
unfolding validate_next_action
validate_next_action-IsNextAction value unsigned a h =
    let (found, _, h1) = bind_ok (kind_of value) _ h in
    let (kind, _, h2) = bind_ok (text found _ _ _) _ h1 in
    let (_, h3) = require_ok (in_list kind next_action_kinds) _ _ h2 in
    action_of_kind_sound kind value unsigned a h3

-- Every well-formed action, written as the dict that the source returns, is accepted, and comes
-- back unchanged.
pub action_json-validate_next_action :
    (unsigned : Bool) (a : NextAction)
    → IsNextAction unsigned a
    → validate_next_action (action_json a) unsigned ≡ ok a
unfolding validate_next_action action_of_kind text is_text
action_json-validate_next_action u (install_and_verify i cs d) v =
    install_action_complete i cs d u v
action_json-validate_next_action u (handoff_native_add i cs h) v =
    handoff_action_complete i cs h u v
action_json-validate_next_action u (apply_method_step c n f rest) v =
    method_action_complete c n f rest u v
action_json-validate_next_action u (supply_missing_fact i c m) v = missing_action_complete i c m u v
action_json-validate_next_action u (use_local_catalog i c) v = use_local_catalog_complete i c u v
action_json-validate_next_action u (re_query i c) v = re_query_complete i c u v

-- The dict that is returned passes the validation again, and comes back unchanged.
pub validate_next_action_idem :
    (value : Json) (unsigned : Bool) (a : NextAction)
    → validate_next_action value unsigned ≡ ok a
    → validate_next_action (action_json a) unsigned ≡ ok a
validate_next_action_idem value unsigned a h =
    action_json-validate_next_action unsigned a
      (validate_next_action-IsNextAction value unsigned a h)
