-- ===== src/Environment/Projection.antt =====
-- `project_service_receiver_context` of `receiver_environment.py`: what of a profile is sent to the
-- service.
use limitlesslibrary.Base.{
  String, ◌<>◌, Bool, true, false, not, ◌&&◌, Option, none, some, List, [], ◌∷◌, map, ◌==◌, codes,
  str_eq, in_list, all, if◌then◌else◌, text_lt, sort_unique, Outcome, ok, raised, ◌>>=◌, ◌>>◌,
  require,
}
use Prim.Native.Char.{code}
use limitlesslibrary.Base.Json.{Json, str, null, array, object}
use limitlesslibrary.Service.Shape.{Failure, contract_error, type_error, overflow_error, Toolkit}
use limitlesslibrary.Service.Context.{Context, texts_json, covered_by, receiver_context}
use limitlesslibrary.Environment.{Facts, Environment, Profile, is_interface}
use limitlesslibrary.Environment.Validation.{validate_profile, known, has_interfaces}

-- The arguments of the caller.
pub record Request : Type 0 where
  pub receiver_id : String
  pub allowed_use : String
  pub mode : String
  pub selected_target : Option String
  pub required_interfaces : List Json

pub record ServiceTarget : Type 0 where
  pub id : String
  pub platform : Option String
  pub architecture : Option String
  pub runtime : Option String
  pub version_range : Option String
  pub interfaces : List String

abbrev pub nullable : Option String → Json
nullable none = null
nullable (some s) = str s

abbrev service_target_json : ServiceTarget → Json
service_target_json t = object (
    ("id", str t.id)
    ∷ ("platform", nullable t.platform)
    ∷ ("architecture", nullable t.architecture)
    ∷ ("runtime", nullable t.runtime)
    ∷ ("versionRange", nullable t.version_range)
    ∷ ("interfaces", texts_json t.interfaces)
    ∷ [])

-- The part of a text behind its first colon.
unfoldable pub behind_colon : String → Option String
behind_colon String.[] = none
behind_colon (String.◌∷◌ c s) =
    let later = behind_colon s in if code c == b':' then some s else later

-- `_target_id`
unfoldable pub target_id : String → String
target_id id = elim (behind_colon id) [ none ↦ "target:" <> id | some suffix ↦ "target:" <> suffix ]

-- The environment that the request selects, where it selects one.
unfoldable pub selected_environment : Request → List String → Outcome Failure (Option String)
selected_environment r targets =
    if str_eq r.mode "one-target"
    then elim r.selected_target [
      | none ↦ elim targets [
        | id ∷ [] ↦ ok (some id)
        | _ ↦ raised (contract_error "multiple targets require an explicit selectedTarget")
      ]
      | some id ↦ do
        require (in_list id targets)
            (contract_error "selectedTarget is not an authorized target binding")
        ok (some id)
    ]
    else if str_eq r.mode "all-targets"
    then elim r.selected_target [
      | none ↦ ok none
      | some id ↦ raised (contract_error "all-targets compatibility cannot select one target")
    ]
    else raised (contract_error "compatibilityMode is unsupported")

abbrev interface_text : Json → Bool
interface_text (str s) = is_interface (codes s)
interface_text _ = false

abbrev texts_of : List Json → List String
texts_of [] = []
texts_of (str s ∷ values) = s ∷ texts_of values
texts_of (value ∷ values) = texts_of values

-- The interfaces that are asked for, sorted and once each.
unfoldable pub requested_interfaces : List Json → Outcome Failure (List String)
requested_interfaces values = do
  require (all interface_text values) (contract_error "required receiver interfaces are invalid")
  ok (sort_unique (texts_of values))

-- The interfaces of each of the environments.
unfoldable pub available_sets :
    List Environment → List String → Outcome Failure (List (List String))
available_sets es [] = ok []
available_sets es (id ∷ ids) = do
  e ← known es id
  rest ← available_sets es ids
  ok (e.facts.interfaces ∷ rest)

abbrev keep_texts : (String → Bool) → List String → List String
keep_texts test [] = []
keep_texts test (s ∷ ss) = let rest = keep_texts test ss in if test s then s ∷ rest else rest

-- `sorted(set.intersection(*available))`
unfoldable pub common_interfaces : List (List String) → List String
common_interfaces [] = []
common_interfaces (first ∷ rest) =
    sort_unique (keep_texts (λ s. all (λ set. in_list s set) rest) first)

-- The interfaces of the projection: those that are asked for, or else those that are shared.
unfoldable pub chosen_interfaces : List String → List (List String) → Outcome Failure (List String)
chosen_interfaces requested available = do
  let interfaces : List String =
      if has_interfaces requested then requested else common_interfaces available
  require (has_interfaces interfaces && all (λ set. covered_by interfaces set) available)
      (contract_error "applicable targets do not share every required receiver interface")
  ok interfaces

unfoldable pub service_targets :
    List Environment → List String → Outcome Failure (List ServiceTarget)
service_targets es [] = ok []
service_targets es (id ∷ ids) = do
  e ← known es id
  rest ← service_targets es ids
  ok (
      record {
        id = target_id id;
        platform = e.facts.platform;
        architecture = e.facts.architecture;
        runtime = e.facts.runtime;
        version_range = e.facts.version_range;
        interfaces = e.facts.interfaces;
      }
      ∷ rest)

-- A stable sort by id.
unfoldable pub insert_target : ServiceTarget → List ServiceTarget → List ServiceTarget
insert_target t [] = t ∷ []
insert_target t (u ∷ us) =
    let rest = insert_target t us in if text_lt u.id t.id then u ∷ rest else t ∷ u ∷ us

unfoldable pub sort_targets : List ServiceTarget → List ServiceTarget
sort_targets [] = []
sort_targets (t ∷ ts) = insert_target t (sort_targets ts)

abbrev distinct : List String → Bool
distinct [] = true
distinct (s ∷ ss) = not (in_list s ss) && distinct ss

abbrev selected_id : Option String → Json
selected_id none = null
selected_id (some id) = str (target_id id)

abbrev pub applicable_ids : Option String → List String → List String
applicable_ids none targets = targets
applicable_ids (some id) targets = id ∷ []

-- The facts of the host that are sent.
abbrev execution_json : Facts → Json
execution_json f = object (
    ("platform", nullable f.platform)
    ∷ ("architecture", nullable f.architecture)
    ∷ ("runtime", nullable f.runtime)
    ∷ ("version", nullable f.version)
    ∷ [])

-- The record that is sent, for what was selected.
unfoldable pub projection_of : Profile → Request → Option String → Outcome Failure Json
projection_of profile r selected = do
  requested ← requested_interfaces r.required_interfaces
  available ←
      available_sets profile.environments
        (applicable_ids selected profile.bindings.target_environments)
  interfaces ← chosen_interfaces requested available
  found ← service_targets profile.environments profile.bindings.target_environments
  require (distinct (map (λ t. t.id) (sort_targets found)))
      (contract_error "receiver environment ids collide after service projection")
  host ← known profile.environments profile.bindings.agent_host
  ok (
      object (
        ("receiverId", str r.receiver_id)
        ∷ ("allowedUse", str r.allowed_use)
        ∷ ("interfaces", texts_json interfaces)
        ∷ ("execution", execution_json host.facts)
        ∷ ("targets", array (map service_target_json (sort_targets found)))
        ∷ ("compatibilityMode", str r.mode)
        ∷ ("selectedTarget", selected_id selected)
        ∷ []))

unfoldable pub projection : Profile → Request → Outcome Failure Json
projection profile r = do
  selected ← selected_environment r profile.bindings.target_environments
  projection_of profile r selected

abbrev rewrapped : Outcome Failure Context → Outcome Failure Context
rewrapped (ok c) = ok c
rewrapped (raised (contract_error m)) =
    raised (contract_error ("service receiver projection is invalid: " <> m))
rewrapped (raised type_error) = raised type_error
rewrapped (raised overflow_error) = raised overflow_error

-- `project_service_receiver_context`
unfoldable pub project_context : Toolkit → Json → Request → Outcome Failure Context
project_context kit value r = do
  profile ← validate_profile kit value
  context ← projection profile r
  rewrapped (receiver_context context)
