-- ===== src/Environment/Minimal.antt =====
-- The projection depends on little of a profile.
use limitlesslibrary.Base.{
  ◌≡◌, refl, sym, String, true, Option, none, some, List, [], ◌∷◌, All, Outcome, ok, raised, arith,
  in_list, eq_iff, str_eq, Bool-cases, inl, inr,
}
use mathlib.Core.Path.{subst}
use limitlesslibrary.Base.Json.{Json}
use limitlesslibrary.Service.Shape.{Failure, Toolkit}
use limitlesslibrary.Environment.{Facts, Environment, Profile, environment_of}
use limitlesslibrary.Environment.Validation.{known, validate_profile}
use limitlesslibrary.Environment.Projection.{
  Request, project_context, available_sets, service_targets, projection, projection_of,
  selected_environment, applicable_ids,
}

-- What the service may know of a target, and of the agent's host.
abbrev pub TargetView : Type 0
TargetView = Option String × Option String × Option String × Option String × List String

abbrev pub target_view : Facts → TargetView
target_view f = (f.platform, f.architecture, f.runtime, f.version_range, f.interfaces)

abbrev pub host_view : Facts → Option String × Option String × Option String × Option String
host_view f = (f.platform, f.architecture, f.runtime, f.version)

abbrev pub view_of {ℓ} : {A : Type ℓ} → (Facts → A) → Option Environment → Option A
view_of view none = none
view_of view (some e) = some (view e.facts)

-- Two lists of environments that look alike at an id.
abbrev pub Alike : List Environment → List Environment → String → Type 0
Alike es fs id =
    view_of target_view (environment_of es id) ≡ view_of target_view (environment_of fs id)

same_sets :
    (es fs : List Environment) (ids : List String)
    → All (Alike es fs) ids
    → available_sets es ids ≡ available_sets fs ids
unfolding available_sets known
same_sets es fs [] alike = refl
same_sets es fs (id ∷ ids) (here, rest) = let ih = same_sets es fs ids rest in ground arith

same_targets :
    (es fs : List Environment) (ids : List String)
    → All (Alike es fs) ids
    → service_targets es ids ≡ service_targets fs ids
unfolding service_targets known
same_targets es fs [] alike = refl
same_targets es fs (id ∷ ids) (here, rest) = let ih = same_targets es fs ids rest in ground arith

All-in_list :
    (P : String → Type 0) (ids : List String) (id : String)
    → All P ids
    → in_list id ids ≡ true
    → P id
All-in_list P [] id each h = ground arith
All-in_list P (i ∷ is) id (here, rest) h = elim (Bool-cases (str_eq id i)) [
  | inl same ↦ subst P (sym ((eq_iff id i).0 same)) here
  | inr other ↦ All-in_list P is id rest (ground arith)
]

selected_in :
    (r : Request) (targets : List String) (id : String)
    → selected_environment r targets ≡ ok (some id)
    → in_list id targets ≡ true
unfolding selected_environment
selected_in r [] id h = ground arith
selected_in r (i ∷ []) id h = ground (arith, eq_iff id i)
selected_in r (i ∷ j ∷ js) id h = ground arith

-- What is selected is among the targets.
selected_environment-Alike :
    (P : String → Type 0) (r : Request) (targets : List String) (selected : Option String)
    → All P targets
    → selected_environment r targets ≡ ok selected
    → All P (applicable_ids selected targets)
selected_environment-Alike P r targets none each h = each
selected_environment-Alike P r targets (some id) each h =
    (All-in_list P targets id each (selected_in r targets id h), tt)

projection_of_same :
    (p q : Profile) (r : Request) (selected : Option String)
    → p.bindings.target_environments ≡ q.bindings.target_environments
    → All (Alike p.environments q.environments) p.bindings.target_environments
    → All
        (Alike p.environments q.environments)
        (applicable_ids selected p.bindings.target_environments)
    → view_of host_view (environment_of p.environments p.bindings.agent_host)
      ≡ view_of host_view (environment_of q.environments q.bindings.agent_host)
    → projection_of p r selected ≡ projection_of q r selected
unfolding projection_of known
projection_of_same p q r selected targets each applicable host =
    let sets =
      same_sets p.environments q.environments
        (applicable_ids selected p.bindings.target_environments) applicable in
    let views = same_targets p.environments q.environments p.bindings.target_environments each in
    ground arith

-- Two valid profiles with the same targets and the same host, as far as the service may know them,
-- are projected alike, whatever else they hold: other environments, the work environment, the
-- verification receivers, kinds, observations and attributes, and the host's other facts.
pub project_context_minimal :
    (kit : Toolkit) (v w : Json) (p q : Profile) (r : Request)
    → validate_profile kit v ≡ ok p
    → validate_profile kit w ≡ ok q
    → p.bindings.target_environments ≡ q.bindings.target_environments
    → All (Alike p.environments q.environments) p.bindings.target_environments
    → view_of host_view (environment_of p.environments p.bindings.agent_host)
      ≡ view_of host_view (environment_of q.environments q.bindings.agent_host)
    → project_context kit v r ≡ project_context kit w r
unfolding project_context projection
project_context_minimal kit v w p q r hv hw targets each host =
    let same : projection p r ≡ projection q r =
      chosen (selected_environment r p.bindings.target_environments) refl in
    rw (hv, hw, same) refl
  where
    chosen :
        (s : Outcome Failure (Option String))
        → selected_environment r p.bindings.target_environments ≡ s
        → projection p r ≡ projection q r
    chosen (raised e) h = ground arith
    chosen (ok selected) h =
        let parts =
          projection_of_same p q r selected targets each
            (selected_environment-Alike (Alike p.environments q.environments) r
              p.bindings.target_environments selected each h)
            host in
        ground arith
