-- ===== src/Environment/Validation.antt =====
-- `validate_receiver_environment_profile` of `receiver_environment.py`, the checks in the order of
-- the source.
use limitlesslibrary.Base.{
  String, ◌<>◌, Bool, true, false, ◌&&◌, Option, none, some, List, [], ◌∷◌, ◌++◌, map, leb, str_eq,
  in_list, length, all, is_sorted_set, Outcome, ok, raised, ◌>>=◌, ◌>>◌, require,
}
use limitlesslibrary.Base.Json.{Json, arr, list_of, get, equals_text}
use limitlesslibrary.Wire.Shape.{is_digest}
use limitlesslibrary.Service.Shape.{Failure, contract_error, Toolkit, is_identifier}
use limitlesslibrary.Environment.{
  Attribute, Environment, Bindings, Profile, exact_item, plain_text, is_interface, optional_text,
  optional_token, member_of, sorted_list, environment_of, checked_time,
}

abbrev whole : String → Failure
whole message = contract_error ("receiver environment " <> message)

unfoldable pub attribute_of : Json → Outcome Failure Attribute
attribute_of value = do
  attribute ← exact_item value ("name" ∷ "value" ∷ []) "receiver environment attribute"
  name ← plain_text (get attribute "name") "receiver environment attribute name" 128 is_interface
  text ← plain_text (get attribute "value") "receiver environment attribute value" 256 (λ _. true)
  ok (record { name = name; value = text })

unfoldable pub attribute_loop : List Json → Outcome Failure (List Attribute)
attribute_loop [] = ok []
attribute_loop (value ∷ values) = do
  a ← attribute_of value
  rest ← attribute_loop values
  ok (a ∷ rest)

-- The names are their own sorted set: sorted by name, and no name twice.
unfoldable pub attributes_of : Json → Outcome Failure (List Attribute)
attributes_of (arr values) = do
  require (leb (length (list_of values)) 64) (whole "attributes must be a bounded list")
  attributes ← attribute_loop (list_of values)
  require (is_sorted_set (map (λ a. a.name) attributes))
      (whole "attributes must be sorted by unique name")
  ok attributes
attributes_of _ = raised (whole "attributes must be a bounded list")

-- One round of the loop: the texts of the facts are read first, its tokens last.
unfoldable pub environment_item : Toolkit → Json → Outcome Failure Environment
environment_item kit value = do
  environment ←
      exact_item value ("id" ∷ "kind" ∷ "facts" ∷ "observation" ∷ []) "receiver environment"
  id ← plain_text (get environment "id") "receiver environment id" 200 is_identifier
  kind ←
      member_of (get environment "kind") ("compute" ∷ "physical-device" ∷ "human-observer" ∷ [])
        (whole "kind is unsupported")
  facts ←
      exact_item (get environment "facts")
        ("platform" ∷ "architecture" ∷ "runtime" ∷ "version" ∷ "versionRange" ∷ "interfaces"
          ∷ "attributes" ∷ [])
        "receiver environment facts"
  version ← optional_text (get facts "version") "receiver environment version" 80 (λ _. true)
  version_range ←
      optional_text (get facts "versionRange") "receiver environment versionRange" 120 (λ _. true)
  interfaces ←
      sorted_list (get facts "interfaces") "receiver environment interfaces" 0 32 is_interface
  attributes ← attributes_of (get facts "attributes")
  observation ←
      exact_item (get environment "observation")
        ("source" ∷ "authority" ∷ "observedAt" ∷ "evidenceDigest" ∷ [])
        "receiver environment observation"
  source ←
      member_of (get observation "source")
        ("host-detected" ∷ "user-declared" ∷ "remote-observed" ∷ "receiver-observed"
          ∷ "physical-witness" ∷ [])
        (whole "observation source is unsupported")
  platform ← optional_token (get facts "platform") "receiver environment platform"
  architecture ← optional_token (get facts "architecture") "receiver environment architecture"
  runtime ← optional_token (get facts "runtime") "receiver environment runtime"
  authority ←
      plain_text (get observation "authority") "receiver environment observation authority" 200
        is_identifier
  observed_at ← checked_time kit (get observation "observedAt") "receiver environment observedAt"
  evidence_digest ←
      plain_text (get observation "evidenceDigest") "receiver environment evidenceDigest" 71
        is_digest
  ok (record {
    id = id;
    kind = kind;
    facts = record {
      platform = platform;
      architecture = architecture;
      runtime = runtime;
      version = version;
      version_range = version_range;
      interfaces = interfaces;
      attributes = attributes;
    };
    observation = record {
      source = source;
      authority = authority;
      observed_at = observed_at;
      evidence_digest = evidence_digest;
    };
  })

unfoldable pub environment_loop : Toolkit → List Json → Outcome Failure (List Environment)
environment_loop kit [] = ok []
environment_loop kit (value ∷ values) = do
  e ← environment_item kit value
  es ← environment_loop kit values
  ok (e ∷ es)

unfoldable pub environments_of : Toolkit → Json → Outcome Failure (List Environment)
environments_of kit (arr values) = do
  require (leb 1 (length (list_of values)) && leb (length (list_of values)) 16)
      (contract_error "receiver environments must contain one through sixteen entries")
  environments ← environment_loop kit (list_of values)
  require (is_sorted_set (map (λ e. e.id) environments))
      (contract_error "receiver environments must be sorted by unique id")
  ok environments
environments_of kit _ =
    raised (contract_error "receiver environments must contain one through sixteen entries")

unfoldable pub bindings_of : Json → Outcome Failure Bindings
bindings_of value = do
  bindings ←
      exact_item value
        ("agentHost" ∷ "workEnvironment" ∷ "targetEnvironments" ∷ "verificationReceivers" ∷ [])
        "receiver environment bindings"
  agent_host ← plain_text (get bindings "agentHost") "agentHost binding" 200 is_identifier
  work_environment ←
      plain_text (get bindings "workEnvironment") "workEnvironment binding" 200 is_identifier
  targets ←
      sorted_list (get bindings "targetEnvironments") "targetEnvironments bindings" 1 8
        is_identifier
  verifiers ←
      sorted_list (get bindings "verificationReceivers") "verificationReceivers bindings" 1 8
        is_identifier
  ok (record {
    agent_host = agent_host;
    work_environment = work_environment;
    target_environments = targets;
    verification_receivers = verifiers;
  })

abbrev given : Option String → Bool
given none = false
given (some s) = true

abbrev pub has_interfaces : List String → Bool
has_interfaces [] = false
has_interfaces (i ∷ is) = true

-- An agent's host is a computer with complete execution facts.
abbrev pub is_agent_host : Environment → Bool
is_agent_host e =
    given e.facts.platform
    && given e.facts.architecture
    && given e.facts.runtime
    && given e.facts.version

abbrev pub is_place : Environment → Bool
is_place e = in_list e.kind ("compute" ∷ "physical-device" ∷ [])

-- A target has complete compatibility facts.
abbrev pub is_target : Environment → Bool
is_target e =
    given e.facts.platform
    && given e.facts.architecture
    && given e.facts.runtime
    && given e.facts.version_range
    && has_interfaces e.facts.interfaces

-- `by_id[id]` for an id that is known
unfoldable pub known : List Environment → String → Outcome Failure Environment
known es id = elim (environment_of es id) [
  | none ↦ raised (whole "bindings name unknown ids")
  | some e ↦ ok e
]

-- The ids that the bindings name.
abbrev pub referenced : Bindings → List String
referenced b =
    b.agent_host ∷ b.work_environment ∷ (b.target_environments ++ b.verification_receivers)

unfoldable pub check_targets : List Environment → List String → Outcome Failure (Unit {0})
check_targets es [] = ok tt
check_targets es (id ∷ ids) = do
  target ← known es id
  require (is_place target)
      (contract_error "targetEnvironments must bind compute or physical-device environments")
  require (is_target target)
      (contract_error "each targetEnvironment requires complete compatibility facts")
  check_targets es ids

-- The roles of the bound environments.
unfoldable pub check_bindings : List Environment → Bindings → Outcome Failure (Unit {0})
check_bindings es b = do
  require (all (λ id. in_list id (map (λ e. e.id) es)) (referenced b))
      (whole "bindings name unknown ids")
  host ← known es b.agent_host
  require (str_eq host.kind "compute") (contract_error "agentHost must bind a compute environment")
  require (is_agent_host host) (contract_error "agentHost requires complete execution facts")
  work ← known es b.work_environment
  require (is_place work)
      (contract_error "workEnvironment must bind a compute or physical-device environment")
  check_targets es b.target_environments

-- `validate_receiver_environment_profile`
unfoldable pub validate_profile : Toolkit → Json → Outcome Failure Profile
validate_profile kit value = do
  profile ←
      exact_item value ("schemaVersion" ∷ "environments" ∷ "bindings" ∷ [])
        "receiver environment profile"
  require (equals_text (get profile "schemaVersion") "limitless.receiver-environment-profile/1.0")
      (whole "profile schemaVersion is unsupported")
  environments ← environments_of kit (get profile "environments")
  bindings ← bindings_of (get profile "bindings")
  check_bindings environments bindings
  ok (record { environments = environments; bindings = bindings })
