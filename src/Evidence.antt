-- ===== src/Evidence.antt =====
-- The helpers of `src/limitless_library/receiver_evidence.py`: the checks of a receipt, and the
-- outcome that they support. The module's own error is `contract_error`.
pub mod Validation
pub mod Honest
pub mod Receipts
pub mod Build
pub mod Built
use limitlesslibrary.Base.{
  ℕ, String, ◌<>◌, Bool, true, false, not, ◌&&◌, ◌||◌, Option, none, some, List, [], ◌∷◌, map, leb,
  ◌==◌, codes, is_digit, str_eq, in_list, length, all, any, if◌then◌else◌, is_sorted_set, Outcome,
  ok, raised, ◌>>=◌, ◌>>◌, require,
}
use limitlesslibrary.Base.Json.{
  Json, str, arr, obj, list_of, Fields, end, field, keys_within, has_keys, get,
}
use limitlesslibrary.Wire.Shape.{is_letter, is_hex, is_digest, after_prefix}
use limitlesslibrary.Service.Shape.{
  Failure, contract_error, type_error, overflow_error, Toolkit, is_identifier, is_name_char,
  parse_utc,
}
use limitlesslibrary.Service.Context.{is_prefixed}
use limitlesslibrary.Environment.{member_of}

pub record Check : Type 0 where
  pub id : String
  pub kind : String
  pub environment_id : String
  pub status : String
  pub reason_code : String
  pub observed_at : String
  pub evidence_digest : String

abbrev pub evidence_fault : String → Failure
evidence_fault message = contract_error ("receiver evidence " <> message)

-- `_digest`
unfoldable pub digest_value : Json → String → Outcome Failure String
digest_value (str s) label =
    if is_digest (codes s)
    then ok s
    else raised (contract_error (label <> " must be a SHA-256 digest"))
digest_value _ label = raised (contract_error (label <> " must be a SHA-256 digest"))

-- `_identifier`
unfoldable pub identifier : Json → String → Outcome Failure String
identifier (str s) label =
    if is_identifier (codes s)
    then ok s
    else raised (contract_error (label <> " must be a bounded identifier"))
identifier _ label = raised (contract_error (label <> " must be a bounded identifier"))

-- `decision:…`, or the two managed decisions with sixteen hexadecimal digits
abbrev has_hex_after : String → List ℕ → Bool
has_hex_after prefix text = elim (after_prefix (codes prefix) text) [
  | none ↦ false
  | some hex ↦ all is_hex hex && length hex == 16
]

unfoldable pub is_decision : List ℕ → Bool
unfolding is_prefixed
is_decision text =
    is_prefixed "decision:" text
    || has_hex_after "managed-query-decision:" text
    || has_hex_after "control-decision:" text

abbrev pub check_fields : List String
check_fields =
    "id" ∷ "kind" ∷ "environmentId" ∷ "status" ∷ "reasonCode" ∷ "observedAt" ∷ "evidenceDigest" ∷ []

abbrev pub evidence_kinds : List String
evidence_kinds = "deterministic" ∷ "receiver-observation" ∷ "human-witness" ∷ []

abbrev pub statuses : List String
statuses = "passed" ∷ "failed" ∷ "blocked" ∷ "not-applicable" ∷ []

-- `set(value) == names`
unfoldable pub with_fields : Json → List String → Failure → Outcome Failure Fields
with_fields (obj d) names e = if keys_within d names && has_keys d names then ok d else raised e
with_fields _ names e = raised e

module _ (kit : Toolkit) where
  abbrev accepted_time : Outcome Failure (ℕ × ℕ) → String → String → Outcome Failure String
  accepted_time (ok _) s label = ok s
  accepted_time (raised (contract_error _)) s label =
      raised (contract_error (label <> " is invalid"))
  accepted_time (raised type_error) s label = raised type_error
  accepted_time (raised overflow_error) s label = raised overflow_error

  -- `_timestamp`
  unfoldable pub evidence_time : Json → String → Outcome Failure String
  evidence_time (str s) label = accepted_time (parse_utc kit (str s)) s label
  evidence_time _ label = raised (contract_error (label <> " is invalid"))

  -- One round of the loop of `_normalize_checks`.
  unfoldable pub check_of : Json → Outcome Failure Check
  check_of value = do
    item ← with_fields value check_fields (evidence_fault "check has unsupported or missing fields")
    kind ←
        member_of (get item "kind") evidence_kinds
          (evidence_fault "check kind or status is unsupported")
    status ←
        member_of (get item "status") statuses
          (evidence_fault "check kind or status is unsupported")
    id ← identifier (get item "id") "receiver evidence check id"
    environment_id ← identifier (get item "environmentId") "receiver evidence environment id"
    reason_code ← identifier (get item "reasonCode") "receiver evidence reasonCode"
    observed_at ← evidence_time (get item "observedAt") "receiver evidence observedAt"
    evidence_digest ←
        digest_value (get item "evidenceDigest") "receiver evidence check evidenceDigest"
    ok (record {
      id = id;
      kind = kind;
      environment_id = environment_id;
      status = status;
      reason_code = reason_code;
      observed_at = observed_at;
      evidence_digest = evidence_digest;
    })

  unfoldable pub checks_loop : List Json → Outcome Failure (List Check)
  checks_loop [] = ok []
  checks_loop (value ∷ values) = do c ← check_of value; cs ← checks_loop values; ok (c ∷ cs)

  -- `_normalize_checks`, for a list: the ids are their own sorted set.
  unfoldable pub normalize_checks : List Json → Outcome Failure (List Check)
  normalize_checks values = do
    checks ← checks_loop values
    require (leb 1 (length checks) && leb (length checks) 64)
        (evidence_fault "requires one through sixty-four checks")
    require (is_sorted_set (map (λ c. c.id) checks))
        (evidence_fault "checks must be sorted by unique id")
    ok checks

-- The checks whose id is required.
unfoldable pub required_checks : List Check → List String → List Check
required_checks [] ids = []
required_checks (c ∷ cs) ids =
    let rest = required_checks cs ids in if in_list c.id ids then c ∷ rest else rest

-- `_outcome`
unfoldable pub outcome : List Check → List String → Outcome Failure String
unfolding required_checks
outcome checks ids =
    let required : List Check = required_checks checks ids in
    if any (λ c. str_eq c.status "failed") required
    then ok "failed"
    else if any (λ c. in_list c.status ("blocked" ∷ "not-applicable" ∷ [])) required
    then ok "blocked"
    else if all (λ c. str_eq c.status "passed") required
    then ok "verified"
    else raised (evidence_fault "required checks have no honest outcome")
