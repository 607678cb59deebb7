-- ===== src/Environment/Digest.antt =====
-- `receiver_environment_digest` of `receiver_environment.py`, with the dict that the validator
-- returns.
use limitlesslibrary.Base.{String, [], ◌∷◌, map, Outcome, ok, ◌>>=◌}
use limitlesslibrary.Base.Json.{Json, str, array, object}
use limitlesslibrary.Service.Shape.{Failure, Toolkit}
use limitlesslibrary.Service.Context.{texts_json}
use limitlesslibrary.Environment.{Attribute, Facts, Environment, Profile}
use limitlesslibrary.Environment.Validation.{validate_profile}
use limitlesslibrary.Environment.Projection.{nullable}

abbrev attribute_json : Attribute → Json
attribute_json a = object (("name", str a.name) ∷ ("value", str a.value) ∷ [])

abbrev facts_json : Facts → Json
facts_json f = object (
    ("platform", nullable f.platform)
    ∷ ("architecture", nullable f.architecture)
    ∷ ("runtime", nullable f.runtime)
    ∷ ("version", nullable f.version)
    ∷ ("versionRange", nullable f.version_range)
    ∷ ("interfaces", texts_json f.interfaces)
    ∷ ("attributes", array (map attribute_json f.attributes))
    ∷ [])

abbrev environment_json : Environment → Json
environment_json e = object (
    ("id", str e.id)
    ∷ ("kind", str e.kind)
    ∷ ("facts", facts_json e.facts)
    ∷ (
      "observation",
      object (
          ("source", str e.observation.source)
          ∷ ("authority", str e.observation.authority)
          ∷ ("observedAt", str e.observation.observed_at)
          ∷ ("evidenceDigest", str e.observation.evidence_digest)
          ∷ []),
    )
    ∷ [])

abbrev pub profile_json : Profile → Json
profile_json p = object (
    ("schemaVersion", str "limitless.receiver-environment-profile/1.0")
    ∷ ("environments", array (map environment_json p.environments))
    ∷ (
      "bindings",
      object (
          ("agentHost", str p.bindings.agent_host)
          ∷ ("workEnvironment", str p.bindings.work_environment)
          ∷ ("targetEnvironments", texts_json p.bindings.target_environments)
          ∷ ("verificationReceivers", texts_json p.bindings.verification_receivers)
          ∷ []),
    )
    ∷ [])

-- `receiver_environment_digest`
unfoldable pub profile_digest : Toolkit → Json → Outcome Failure String
profile_digest kit value = do
  p ← validate_profile kit value
  ok (kit.sha256 (kit.canonical (profile_json p)))
