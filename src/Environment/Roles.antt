-- ===== src/Environment/Roles.antt =====
-- The roles of a valid profile.
use limitlesslibrary.Base.{
  ◌≡◌, refl, String, Bool, true, ◌&&◌, some, List, [], ◌∷◌, map, all, All, str_eq, in_list,
  Ascending, is_sorted_set, is_sorted_set-Ascending, ok, bind_ok, require_ok, ok-injective, arith,
  and_parts,
}
use mathlib.Core.Path.{subst}
use limitlesslibrary.Base.Json.{
  Json, null, boolean, int, float, str, arr, obj, list_of, get, equals_text,
}
use limitlesslibrary.Service.Shape.{Toolkit}
use limitlesslibrary.Environment.{Environment, Profile, exact_item, environment_of}
use limitlesslibrary.Environment.Validation.{
  environment_loop, environments_of, bindings_of, is_agent_host, is_place, is_target, known,
  referenced, check_targets, check_bindings, validate_profile,
}

-- The environment of an id, with a property.
abbrev pub Bound : List Environment → (Environment → Bool) → String → Type 0
Bound es test id = (e : Environment) × (environment_of es id ≡ some e) × (test e ≡ true)

pub record IsProfile (p : Profile) : Type 0 where
  pub ordered : Ascending (map (λ e. e.id) p.environments)
  pub named : All (λ id. in_list id (map (λ e. e.id) p.environments) ≡ true) (referenced p.bindings)
  pub host :
      Bound p.environments (λ e. str_eq e.kind "compute" && is_agent_host e) p.bindings.agent_host
  pub work : Bound p.environments is_place p.bindings.work_environment
  pub targets :
      All (Bound p.environments (λ e. is_place e && is_target e)) p.bindings.target_environments

known_found :
    (es : List Environment) (id : String) (e : Environment)
    → known es id ≡ ok e
    → environment_of es id ≡ some e
unfolding known
known_found es id e h = ground arith

All-all :
    (test : String → Bool) (ids : List String)
    → all test ids ≡ true
    → All (λ id. test id ≡ true) ids
All-all test [] h = tt
All-all test (id ∷ ids) h = ((and_parts h).0, All-all test ids ((and_parts h).1))

check_targets-Bound :
    (es : List Environment) (ids : List String)
    → check_targets es ids ≡ ok tt
    → All (Bound es (λ e. is_place e && is_target e)) ids
unfolding check_targets
check_targets-Bound es [] h = tt
check_targets-Bound es (id ∷ ids) h =
    let (e, found, h1) = bind_ok (known es id) _ h in
    let (place, h2) = require_ok (is_place e) _ _ h1 in
    let (complete, h3) = require_ok (is_target e) _ _ h2 in
    ((e, known_found es id e found, rw (place, complete) refl), check_targets-Bound es ids h3)

environments_of-Ascending :
    (kit : Toolkit) (value : Json) (es : List Environment)
    → environments_of kit value ≡ ok es
    → Ascending (map (λ e. e.id) es)
unfolding environments_of
environments_of-Ascending kit null es h = ground arith
environments_of-Ascending kit (boolean b) es h = ground arith
environments_of-Ascending kit (int n) es h = ground arith
environments_of-Ascending kit (float x) es h = ground arith
environments_of-Ascending kit (str s) es h = ground arith
environments_of-Ascending kit (obj d) es h = ground arith
environments_of-Ascending kit (arr values) es h =
    let (_, h1) = require_ok _ _ _ h in
    let (fs, _, h2) = bind_ok (environment_loop kit (list_of values)) _ h1 in
    let (sorted, h3) = require_ok (is_sorted_set (map (λ e. e.id) fs)) _ _ h2 in
    subst (λ es. Ascending (map (λ e. e.id) es)) (ok-injective h3)
      (is_sorted_set-Ascending (map (λ e. e.id) fs) sorted)

-- A profile that is accepted has its environments in the strict order of their ids, and names only
-- those. The agent's host is a computer with complete execution facts, the work environment is a
-- computer or a physical device, and so is each target, which has complete compatibility facts.
pub validate_profile-IsProfile :
    (kit : Toolkit) (value : Json) (p : Profile) → validate_profile kit value ≡ ok p → IsProfile p
unfolding validate_profile check_bindings
validate_profile-IsProfile kit value p h =
    let (profile, _, h1) = bind_ok (exact_item value _ _) _ h in
    let (_, h2) =
      require_ok
        (equals_text (get profile "schemaVersion") "limitless.receiver-environment-profile/1.0") _ _
        h1 in
    let (es, e1, h3) = bind_ok (environments_of kit (get profile "environments")) _ h2 in
    let (b, _, h4) = bind_ok (bindings_of (get profile "bindings")) _ h3 in
    let (_, checked, h5) = bind_ok (check_bindings es b) _ h4 in
    let (all_known, c1) =
      require_ok (all (λ id. in_list id (map (λ e. e.id) es)) (referenced b)) _ _ checked in
    let (host, e2, c2) = bind_ok (known es b.agent_host) _ c1 in
    let (computer, c3) = require_ok (str_eq host.kind "compute") _ _ c2 in
    let (complete, c4) = require_ok (is_agent_host host) _ _ c3 in
    let (work, e3, c5) = bind_ok (known es b.work_environment) _ c4 in
    let (place, c6) = require_ok (is_place work) _ _ c5 in
    subst IsProfile (ok-injective h5) (record {
      ordered = environments_of-Ascending kit (get profile "environments") es e1;
      named = All-all (λ id. in_list id (map (λ e. e.id) es)) (referenced b) all_known;
      host = (host, known_found es b.agent_host host e2, rw (computer, complete) refl);
      work = (work, known_found es b.work_environment work e3, place);
      targets = check_targets-Bound es b.target_environments c6;
    })
