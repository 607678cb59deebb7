-- ===== src/Tests/Receivers.antt =====
-- A receiver with one environment, one with an observer beside it, and a receipt of one check.
use limitlesslibrary.Base.{
  ◌≡◌, refl, String, none, some, List, [], ◌∷◌, ok, is_sorted_set, sort_unique, insert_unique,
  codes_lt,
}
use limitlesslibrary.Base.Json.{obj, fields_of, Json, str, null, Fields, object, array}
use limitlesslibrary.Wire.Shape.{is_digest, is_text}
use limitlesslibrary.Tests.Kits.{zeros, kit}
use limitlesslibrary.Service.Shape.{exact_fields, bounded_text, is_identifier, parse_utc}
use limitlesslibrary.Service.Context.{
  Target, Context, context_json, is_prefixed, text_loop, sorted_texts, target_of, target_loop,
  targets_of, selected_target, applicable, receiver_context,
}
use limitlesslibrary.Service.Covers.{IsContext, receiver_context-IsContext}
use limitlesslibrary.Environment.{
  Observation, Environment, Bindings, Profile, exact_item, plain_text, is_token, is_interface,
  optional_text, optional_token, member_of, plain_texts, sorted_list, environment_of, checked_time,
}
use limitlesslibrary.Environment.Validation.{
  attribute_loop, attributes_of, environment_item, environment_loop, environments_of, bindings_of,
  known, check_targets, check_bindings, validate_profile,
}
use limitlesslibrary.Environment.Projection.{Request, project_context}
use limitlesslibrary.Environment.Digest.{profile_digest}
use limitlesslibrary.Environment.Roles.{IsProfile, validate_profile-IsProfile}
use limitlesslibrary.Environment.Minimal.{project_context_minimal}
use limitlesslibrary.Evidence.{
  Check, digest_value, identifier, with_fields, evidence_time, check_of, checks_loop,
  normalize_checks, outcome,
}
use limitlesslibrary.Evidence.Validation.{Evidence, receipt_digest}
use limitlesslibrary.Evidence.Honest.{outcome_total}
use limitlesslibrary.Evidence.Build.{receipt_of}

abbrev observation_json : Json
observation_json = object (
    ("source", str "host-detected")
    ∷ ("authority", str "host")
    ∷ ("observedAt", str "xx")
    ∷ ("evidenceDigest", str zeros)
    ∷ [])

abbrev host_json : Json
host_json = object (
    ("id", str "host")
    ∷ ("kind", str "compute")
    ∷ (
      "facts",
      object (
          ("platform", str "linux")
          ∷ ("architecture", str "x86")
          ∷ ("runtime", str "python")
          ∷ ("version", str "3.12")
          ∷ ("versionRange", str ">=3")
          ∷ ("interfaces", array (str "cli" ∷ []))
          ∷ ("attributes", array [])
          ∷ []),
    )
    ∷ ("observation", observation_json)
    ∷ [])

abbrev observer_json : Json
observer_json = object (
    ("id", str "observer")
    ∷ ("kind", str "human-observer")
    ∷ (
      "facts",
      object (
          ("platform", null)
          ∷ ("architecture", null)
          ∷ ("runtime", null)
          ∷ ("version", null)
          ∷ ("versionRange", null)
          ∷ ("interfaces", array [])
          ∷ ("attributes", array [])
          ∷ []),
    )
    ∷ ("observation", observation_json)
    ∷ [])

abbrev profile_with : List Json → List Json → Json
profile_with environments receivers = object (
    ("schemaVersion", str "limitless.receiver-environment-profile/1.0")
    ∷ ("environments", array environments)
    ∷ (
      "bindings",
      object (
          ("agentHost", str "host")
          ∷ ("workEnvironment", str "host")
          ∷ ("targetEnvironments", array (str "host" ∷ []))
          ∷ ("verificationReceivers", array receivers)
          ∷ []),
    )
    ∷ [])

abbrev lone : Json
lone = profile_with (host_json ∷ []) (str "host" ∷ [])

abbrev watched : Json
watched = profile_with (host_json ∷ observer_json ∷ []) (str "host" ∷ str "observer" ∷ [])

abbrev observation : Observation
observation = record {
  source = "host-detected";
  authority = "host";
  observed_at = "xx";
  evidence_digest = zeros;
}

abbrev host : Environment
host = record {
  id = "host";
  kind = "compute";
  facts = record {
    platform = some "linux";
    architecture = some "x86";
    runtime = some "python";
    version = some "3.12";
    version_range = some ">=3";
    interfaces = "cli" ∷ [];
    attributes = [];
  };
  observation = observation;
}

abbrev observer : Environment
observer = record {
  id = "observer";
  kind = "human-observer";
  facts = record {
    platform = none;
    architecture = none;
    runtime = none;
    version = none;
    version_range = none;
    interfaces = [];
    attributes = [];
  };
  observation = observation;
}

abbrev bindings_with : List String → Bindings
bindings_with receivers = record {
  agent_host = "host";
  work_environment = "host";
  target_environments = "host" ∷ [];
  verification_receivers = receivers;
}

abbrev lone_profile : Profile
lone_profile = record { environments = host ∷ []; bindings = bindings_with ("host" ∷ []) }

abbrev watched_profile : Profile
watched_profile = record {
  environments = host ∷ observer ∷ [];
  bindings = bindings_with ("host" ∷ "observer" ∷ []);
}

accepts_lone : validate_profile kit lone ≡ ok lone_profile
unfolding validate_profile exact_item environments_of environment_loop environment_item plain_text
    is_identifier member_of optional_text optional_token is_token sorted_list plain_texts
    is_interface is_sorted_set sort_unique insert_unique codes_lt attributes_of attribute_loop
    checked_time parse_utc is_digest bindings_of check_bindings known environment_of check_targets
accepts_lone = refl

accepts_watched : validate_profile kit watched ≡ ok watched_profile
unfolding validate_profile exact_item environments_of environment_loop environment_item plain_text
    is_identifier member_of optional_text optional_token is_token sorted_list plain_texts
    is_interface is_sorted_set sort_unique insert_unique codes_lt attributes_of attribute_loop
    checked_time parse_utc is_digest bindings_of check_bindings known environment_of check_targets
accepts_watched = refl

validate_profile-IsProfile_example : IsProfile watched_profile
validate_profile-IsProfile_example =
    validate_profile-IsProfile kit watched watched_profile accepts_watched

abbrev one_target : Request
one_target = record {
  receiver_id = "receiver:r";
  allowed_use = "internal";
  mode = "one-target";
  selected_target = none;
  required_interfaces = [];
}

project_context_minimal_example :
    project_context kit lone one_target ≡ project_context kit watched one_target
unfolding environment_of
project_context_minimal_example =
    project_context_minimal kit lone watched lone_profile watched_profile one_target accepts_lone
      accepts_watched refl (refl, tt) refl

abbrev sent_target : Target
sent_target = record {
  id = "target:host";
  platform = "linux";
  architecture = "x86";
  runtime = "python";
  version_range = ">=3";
  interfaces = "cli" ∷ [];
}

abbrev sent : Context
sent = record {
  receiver_id = "receiver:r";
  allowed_use = "internal";
  interfaces = "cli" ∷ [];
  execution = record {
    platform = "linux";
    architecture = "x86";
    runtime = "python";
    version = "3.12";
  };
  targets = sent_target ∷ [];
  mode = "one-target";
  selected = some "target:host";
}

accepts_sent : receiver_context (context_json sent) ≡ ok sent
unfolding receiver_context exact_fields targets_of target_loop target_of bounded_text is_text
    is_prefixed sorted_texts text_loop is_sorted_set sort_unique insert_unique codes_lt
    selected_target applicable
accepts_sent = refl

receiver_context-IsContext_example : IsContext sent
receiver_context-IsContext_example =
    receiver_context-IsContext (context_json sent) sent accepts_sent

abbrev passed_json : Json
passed_json = object (
    ("id", str "c1")
    ∷ ("kind", str "deterministic")
    ∷ ("environmentId", str "host")
    ∷ ("status", str "passed")
    ∷ ("reasonCode", str "ok")
    ∷ ("observedAt", str "xx")
    ∷ ("evidenceDigest", str zeros)
    ∷ [])

abbrev passed : Check
passed = record {
  id = "c1";
  kind = "deterministic";
  environment_id = "host";
  status = "passed";
  reason_code = "ok";
  observed_at = "xx";
  evidence_digest = zeros;
}

abbrev receipt_fields : Fields
receipt_fields = fields_of (
    ("schemaVersion", str "limitless.receiver-evidence/1.0")
    ∷ ("id", str "receiver-evidence:0000000000000000")
    ∷ ("decisionRef", str "decision:d1")
    ∷ ("receiverProfileDigest", str zeros)
    ∷ ("requiredCheckIds", array (str "c1" ∷ []))
    ∷ ("checks", array (passed_json ∷ []))
    ∷ ("outcome", str "verified")
    ∷ ("recordedAt", str "xx")
    ∷ ("receiptDigest", str zeros)
    ∷ [])

abbrev receipt_json : Json
receipt_json = obj receipt_fields

abbrev receipt : Evidence
receipt = record {
  given = receipt_fields;
  decision_ref = "decision:d1";
  profile_digest = zeros;
  required = "c1" ∷ [];
  checks = passed ∷ [];
  outcome = "verified";
  receipt_digest = zeros;
}

normalizes : normalize_checks kit (passed_json ∷ []) ≡ ok (passed ∷ [])
unfolding normalize_checks checks_loop check_of with_fields member_of identifier is_identifier
    evidence_time parse_utc digest_value is_digest is_sorted_set sort_unique insert_unique
normalizes = refl

outcome_total_example : (o : String) × (outcome (passed ∷ []) ("c1" ∷ []) ≡ ok o)
outcome_total_example = outcome_total kit (passed_json ∷ []) (passed ∷ []) ("c1" ∷ []) normalizes

abbrev built : Fields
built = receipt_of kit "decision:d1" zeros ("c1" ∷ []) (passed ∷ []) "verified" "xx"
