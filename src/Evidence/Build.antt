-- ===== src/Evidence/Build.antt =====
-- `build_receiver_evidence` of `receiver_evidence.py`.
use limitlesslibrary.Base.{
  String, true, false, Option, none, some, List, [], ◌∷◌, map, all, codes, in_list, sort_unique,
  Outcome, ok, raised, ◌>>=◌, ◌>>◌, require,
}
use limitlesslibrary.Base.Json.{Json, str, array, obj, object, Fields, fields_of}
use limitlesslibrary.Service.Shape.{Failure, contract_error, Toolkit, is_identifier}
use limitlesslibrary.Environment.Validation.{validate_profile}
use limitlesslibrary.Environment.Digest.{profile_digest, profile_json}
use limitlesslibrary.Evidence.{Check, normalize_checks, outcome}
use limitlesslibrary.Evidence.Validation.{evidence_id, receipt_digest, validate_evidence}

abbrev pub check_json : Check → Json
check_json c = object (
    ("id", str c.id)
    ∷ ("kind", str c.kind)
    ∷ ("environmentId", str c.environment_id)
    ∷ ("status", str c.status)
    ∷ ("reasonCode", str c.reason_code)
    ∷ ("observedAt", str c.observed_at)
    ∷ ("evidenceDigest", str c.evidence_digest)
    ∷ [])

-- The required ids, which may come in any order and more than once.
abbrev bounded_ids : List Json → Option (List String)
bounded_ids [] = some []
bounded_ids (str s ∷ values) = elim (bounded_ids values) [
  | none ↦ none
  | some ss ↦ elim (is_identifier (codes s)) [ true ↦ some (s ∷ ss) | false ↦ none ]
]
bounded_ids (value ∷ values) = none

unfoldable pub given_ids : List Json → Outcome Failure (List String)
given_ids [] = raised (contract_error "requiredCheckIds must contain bounded identifiers")
given_ids (value ∷ values) = elim (bounded_ids (value ∷ values)) [
  | none ↦ raised (contract_error "requiredCheckIds must contain bounded identifiers")
  | some ss ↦ ok ss
]

-- The receipt without its digest and its id.
abbrev pub unsigned_receipt :
    String → String → List String → List Check → String → String → List (String × Json) → Fields
unsigned_receipt decision digest required checks honest recorded more = fields_of (
    ("schemaVersion", str "limitless.receiver-evidence/1.0")
    ∷ ("decisionRef", str decision)
    ∷ ("receiverProfileDigest", str digest)
    ∷ ("requiredCheckIds", array (map (λ s. str s) required))
    ∷ ("checks", array (map check_json checks))
    ∷ ("outcome", str honest)
    ∷ ("recordedAt", str recorded)
    ∷ more)

module _ (kit : Toolkit) where
  abbrev pub receipt_of : String → String → List String → List Check → String → String → Fields
  receipt_of decision digest required checks honest recorded =
      let bound : String =
        receipt_digest kit (unsigned_receipt decision digest required checks honest recorded []) in
      unsigned_receipt decision digest required checks honest recorded
        (("receiptDigest", str bound) ∷ ("id", str (evidence_id bound)) ∷ [])

  -- `build_receiver_evidence`; `recorded` is the text of `_recorded_at`, and `unordered` what the
  -- validator is given.
  unfoldable pub build_evidence :
      Json → String → List Json → List Json → String → Failure → Outcome Failure Fields
  build_evidence profile decision check_values id_values recorded unordered = do
    p ← validate_profile kit profile
    checks ← normalize_checks kit check_values
    ids ← given_ids id_values
    require (all (λ s. in_list s (map (λ c. c.id) checks)) (sort_unique ids))
        (contract_error "requiredCheckIds name absent checks")
    digest ← profile_digest kit (profile_json p)
    honest ← outcome checks (sort_unique ids)
    _ ←
        validate_evidence kit
          (obj (receipt_of decision digest (sort_unique ids) checks honest recorded))
          (some (profile_json p)) (some decision) unordered
    ok (receipt_of decision digest (sort_unique ids) checks honest recorded)
