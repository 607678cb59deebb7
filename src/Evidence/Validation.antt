-- ===== src/Evidence/Validation.antt =====
-- `validate_receiver_evidence` of `receiver_evidence.py`, the checks in the order of the source.
use limitlesslibrary.Base.{
  String, ◌<>◌, Bool, true, false, not, ◌&&◌, Option, none, some, List, [], ◌∷◌, map, str_eq, codes,
  in_list, take_text, drop_text, all, if◌then◌else◌, is_sorted_set, Outcome, ok, raised, ◌>>=◌,
  ◌>>◌, require,
}
use limitlesslibrary.Base.Json.{
  Json, str, arr, obj, list_of, Fields, end, field, keys, get, equals_text,
}
use limitlesslibrary.Service.Shape.{
  Failure, contract_error, type_error, overflow_error, Toolkit, is_identifier,
}
use limitlesslibrary.Environment.{Profile, environment_of}
use limitlesslibrary.Environment.Validation.{validate_profile}
use limitlesslibrary.Environment.Digest.{profile_digest, profile_json}
use limitlesslibrary.Evidence.{
  Check, evidence_fault, digest_value, with_fields, is_decision, evidence_time, normalize_checks,
  outcome,
}

-- A valid receipt: `given` is the dict that the source returns, and the rest is what was read from it.
pub record Evidence : Type 0 where
  pub given : Fields
  pub decision_ref : String
  pub profile_digest : String
  pub required : List String
  pub checks : List Check
  pub outcome : String
  pub receipt_digest : String

abbrev pub evidence_fields : List String
evidence_fields =
    "schemaVersion" ∷ "id" ∷ "decisionRef" ∷ "receiverProfileDigest" ∷ "requiredCheckIds" ∷ "checks"
    ∷ "outcome" ∷ "recordedAt" ∷ "receiptDigest" ∷ []

-- `for value in checks`: the keys of a dict and the characters of a text are no checks either.
unfoldable pub iterated : Json → Outcome Failure (List Json)
iterated (arr values) = ok (list_of values)
iterated (obj d) = ok (map (λ k. str k) (keys d))
iterated (str s) = ok (if str_eq s "" then [] else str s ∷ [])
iterated _ = raised type_error

-- The texts of a list, where all of its items are texts.
abbrev all_texts : List Json → Option (List String)
all_texts [] = some []
all_texts (str s ∷ values) = elim (all_texts values) [ none ↦ none | some ss ↦ some (s ∷ ss) ]
all_texts (value ∷ values) = none

-- `requiredCheckIds`. What is no list of texts is refused: by a `TypeError`, where its items have no
-- hash or no order.
abbrev pub has_text : List String → Bool
has_text [] = false
has_text (s ∷ ss) = true

unfoldable pub required_ids : Json → Failure → Outcome Failure (List String)
required_ids (arr values) e = elim (all_texts (list_of values)) [
  | none ↦ raised e
  | some ss ↦ do
    require (has_text ss && is_sorted_set ss)
        (evidence_fault "requiredCheckIds must be sorted and unique")
    require (all (λ s. is_identifier (codes s)) ss) (evidence_fault "requiredCheckIds are invalid")
    ok ss
]
required_ids _ e = raised (evidence_fault "requiredCheckIds must be sorted and unique")

abbrev pub fits_reference : Option String → String → Bool
fits_reference none s = true
fits_reference (some e) s = str_eq s e

-- `{key: item … if key not in {"id", "receiptDigest"}}`
unfoldable pub without_digest : Fields → Fields
without_digest end = end
without_digest (field k v d) =
    let rest = without_digest d in
    if in_list k ("id" ∷ "receiptDigest" ∷ []) then rest else field k v rest

-- `value["outcome"]`, which must be the outcome that the checks support.
unfoldable pub claimed_outcome : Json → String → Outcome Failure String
claimed_outcome (str s) honest =
    if str_eq s honest
    then ok s
    else raised (evidence_fault "outcome overclaims its required checks")
claimed_outcome _ honest = raised (evidence_fault "outcome overclaims its required checks")

unfoldable pub supported_outcome : Json → List Check → List String → Outcome Failure String
supported_outcome value checks required = do
  honest ← outcome checks required
  claimed_outcome value honest

-- `f"receiver-evidence:{digest[7:23]}"`
unfoldable pub evidence_id : String → String
evidence_id digest = "receiver-evidence:" <> take_text 16 (drop_text 7 digest)

-- One check against the profile.
unfoldable pub check_environment : Profile → Check → Outcome Failure (Unit {0})
check_environment p c = elim (environment_of p.environments c.environment_id) [
  | none ↦ raised (evidence_fault "check names an unknown environment")
  | some e ↦ do
    require (in_list c.environment_id p.bindings.verification_receivers)
        (evidence_fault "must come from a verificationReceiver")
    require (not (str_eq c.kind "human-witness" && not (str_eq e.kind "human-observer")))
        (contract_error "human-witness evidence must bind a human-observer environment")
]

unfoldable pub check_environments : Profile → List Check → Outcome Failure (Unit {0})
check_environments p [] = ok tt
check_environments p (c ∷ cs) = do check_environment p c; check_environments p cs

abbrev pub profile_of : Outcome Failure Profile → Outcome Failure Profile
profile_of (ok p) = ok p
profile_of (raised (contract_error m)) =
    raised (contract_error ("receiver evidence profile is invalid: " <> m))
profile_of (raised type_error) = raised type_error
profile_of (raised overflow_error) = raised overflow_error

module _ (kit : Toolkit) where
  -- The exact receiver, where one is given.
  unfoldable pub check_profile : Option Json → String → List Check → Outcome Failure (Unit {0})
  check_profile none digest checks = ok tt
  check_profile (some value) digest checks = do
    p ← profile_of (validate_profile kit value)
    actual ← profile_digest kit (profile_json p)
    require (str_eq digest actual) (evidence_fault "is bound to another receiver profile")
    check_environments p checks

  -- `_receipt_digest`
  unfoldable pub receipt_digest : Fields → String
  receipt_digest d = kit.sha256 (kit.canonical (obj (without_digest d)))

  -- The digest of the receipt, and the id that derives from it.
  unfoldable pub bound_digest : Fields → Outcome Failure String
  bound_digest d = do
    digest ← digest_value (get d "receiptDigest") "receiver evidence receiptDigest"
    require (str_eq digest (receipt_digest d)) (evidence_fault "digest does not bind its contents")
    require (equals_text (get d "id") (evidence_id digest))
        (evidence_fault "id does not derive from its digest")
    ok digest

  abbrev pub decision_text : Json → Outcome Failure String
  decision_text (str s) =
      if is_decision (codes s) then ok s else raised (evidence_fault "decisionRef is invalid")
  decision_text _ = raised (evidence_fault "decisionRef is invalid")

  -- `validate_receiver_evidence`; `unordered` is the failure for required ids that are no texts.
  unfoldable pub validate_evidence :
      Json → Option Json → Option String → Failure → Outcome Failure Evidence
  validate_evidence value profile reference unordered = do
    d ← with_fields value evidence_fields (evidence_fault "has unsupported or missing fields")
    require (equals_text (get d "schemaVersion") "limitless.receiver-evidence/1.0")
        (evidence_fault "schemaVersion is unsupported")
    decision_ref ← decision_text (get d "decisionRef")
    require (fits_reference reference decision_ref) (evidence_fault "is bound to another decision")
    items ← iterated (get d "checks")
    checks ← normalize_checks kit items
    required ← required_ids (get d "requiredCheckIds") unordered
    require (all (λ s. in_list s (map (λ c. c.id) checks)) required)
        (evidence_fault "requiredCheckIds name absent checks")
    claimed ← supported_outcome (get d "outcome") checks required
    _ ← evidence_time kit (get d "recordedAt") "receiver evidence recordedAt"
    profile_text ← digest_value (get d "receiverProfileDigest") "receiverProfileDigest"
    check_profile profile profile_text checks
    digest ← bound_digest d
    ok (record {
      given = d;
      decision_ref = decision_ref;
      profile_digest = profile_text;
      required = required;
      checks = checks;
      outcome = claimed;
      receipt_digest = digest;
    })
