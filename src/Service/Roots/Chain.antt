-- ===== src/Service/Roots/Chain.antt =====
-- `validate_service_root_key_transition_set` and `latest_service_root_keys` of
-- `service_contracts.py`, and `ServiceConnector._current_roots` of `service_connector.py`.
use limitlesslibrary.Base.{
  ℕ, suc, String, ◌<>◌, Bool, true, false, ◌&&◌, Option, none, some, List, [], ◌∷◌, map, ltb, leb,
  ◌==◌, length, if◌then◌else◌, Outcome, ok, raised, ◌>>=◌, ◌>>◌, require,
}
use limitlesslibrary.Base.Json.{
  Json, str, int, pos, arr, list_of, array, object, get, equals_text, is_null,
}
use limitlesslibrary.Service.Shape.{
  Failure, contract_error, Bytes, Toolkit, exact_fields, bounded_text, digest_text, is_identifier,
  bounded_int, timestamp, base64url_decode,
}
use limitlesslibrary.Service.Roots.{
  Transition, Roots, Expected, transition_json, same_digest, text_or_null,
}
use limitlesslibrary.Service.Roots.Transitions.{validate_root_key_transition}

pub record TransitionSet : Type 0 where
  pub service_id : String
  pub transitions : List Transition
  pub latest_sequence : ℕ
  pub latest_digest : Option String

abbrev set_version : String
set_version = "limitless.service-root-key-transition-set/1.0"

abbrev pub set_json : TransitionSet → Json
set_json s = object (
    ("schemaVersion", str set_version)
    ∷ ("serviceId", str s.service_id)
    ∷ ("transitions", array (map transition_json s.transitions))
    ∷ ("latestSequence", int (pos s.latest_sequence))
    ∷ ("latestTransitionDigest", text_or_null s.latest_digest)
    ∷ [])

abbrev set_fault : String → Failure
set_fault message = contract_error ("service root key transition set " <> message)

-- `isinstance(transitions, list)` with at most sixteen of them
unfoldable pub few_transitions : Json → Outcome Failure (List Json)
few_transitions (arr values) =
    if leb (length (list_of values)) 16
    then ok (list_of values)
    else raised (set_fault "transitions are invalid")
few_transitions _ = raised (set_fault "transitions are invalid")

abbrev no_items : List Json → Bool
no_items [] = true
no_items (v ∷ vs) = false

-- The digest of the last transition: none for an empty set.
unfoldable pub latest_digest_of : Json → List Json → ℕ → Outcome Failure (Option String)
latest_digest_of value transitions latest_sequence =
    if latest_sequence == 0
    then (do
      require (is_null value && no_items transitions) (set_fault "state is invalid")
      ok none)
    else (do
      digest ← digest_text value "service root key transition set latestTransitionDigest"
      require (length transitions == latest_sequence) (set_fault "is incomplete")
      ok (some digest))

-- The digest of the last transition that was walked.
unfoldable pub last_digest : Option String → List Transition → Option String
last_digest previous [] = previous
last_digest previous (t ∷ ts) = last_digest (some t.digest) ts

module _ (kit : Toolkit) where
  abbrev pub link_of : Option Roots → String → ℕ → Option String → Expected
  link_of roots service_id sequence previous = record {
    roots = roots;
    service_id = some service_id;
    sequence = some sequence;
    previous = some previous;
  }

  -- The loop: each transition is checked against the successor of the one before.
  unfoldable pub walk :
      List Json → Option Roots → String → ℕ → Option String → Outcome Failure (List Transition)
  walk [] roots service_id sequence previous = ok []
  walk (value ∷ values) roots service_id sequence previous = do
    t ← validate_root_key_transition kit value (link_of roots service_id sequence previous)
    public ←
        base64url_decode kit t.unsigned.next_key.public_key 32
          "service root key transition set successor publicKey"
    ts ←
        walk values (some ((t.unsigned.next_key.key_id, public) ∷ [])) service_id (suc sequence)
          (some t.digest)
    ok (t ∷ ts)

  -- `validate_service_root_key_transition_set`
  unfoldable pub validate_transition_set : Json → Option Roots → Outcome Failure TransitionSet
  validate_transition_set value roots = do
    document ←
        exact_fields value
          ("schemaVersion" ∷ "serviceId" ∷ "transitions" ∷ "latestSequence"
            ∷ "latestTransitionDigest" ∷ [])
          "service root key transition set"
    require (equals_text (get document "schemaVersion") set_version)
        (set_fault "schemaVersion is invalid")
    service_id ←
        bounded_text (get document "serviceId") "service root key transition set serviceId" 200
          is_identifier
    values ← few_transitions (get document "transitions")
    latest_sequence ←
        bounded_int (get document "latestSequence") 0 16 (set_fault "latestSequence is invalid")
    latest_digest ← latest_digest_of (get document "latestTransitionDigest") values latest_sequence
    transitions ← walk values roots service_id 1 none
    require (same_digest latest_digest (last_digest none transitions))
        (set_fault "latest digest differs")
    let checked : TransitionSet = record {
      service_id = service_id;
      transitions = transitions;
      latest_sequence = latest_sequence;
      latest_digest = latest_digest;
    }
    require (leb (length (kit.canonical (set_json checked))) 32768)
        (set_fault "exceeds its byte limit")
    ok checked

  -- The successor of the last transition, if there is one.
  unfoldable pub last_roots : List Transition → Outcome Failure Roots
  last_roots [] = ok []
  last_roots (t ∷ []) = do
    public ←
        base64url_decode kit t.unsigned.next_key.public_key 32
          "service root key transition set successor publicKey"
    ok ((t.unsigned.next_key.key_id, public) ∷ [])
  last_roots (t ∷ u ∷ ts) = last_roots (u ∷ ts)

  -- `latest_service_root_keys`
  unfoldable pub latest_root_keys : Json → Outcome Failure Roots
  latest_root_keys value = do
    checked ← validate_transition_set value none
    last_roots checked.transitions

  -- `_decode_key`
  unfoldable pub decode_key : String → Outcome Failure Bytes
  decode_key value = elim (kit.decode64 value) [
    | none ↦ raised (contract_error "service root public key is invalid")
    | some bytes ↦
        if length bytes == 32
        then ok bytes
        else raised (contract_error "service root public key is invalid")
  ]

  -- The loop of `ServiceConnector._current_roots`, up to the first transition that is not yet
  -- effective: the roots, and the end of the last successor. The times are texts that the
  -- validator wrote, in whole seconds.
  unfoldable pub effective_roots :
      List Transition → Roots → Option ℕ → ℕ → Outcome Failure (Roots × Option ℕ)
  effective_roots [] roots until now = ok (roots, until)
  effective_roots (t ∷ ts) roots until now = do
    effective ← timestamp kit (str t.unsigned.effective_at) "effectiveAt"
    elim (ltb now effective) [
      | true ↦ ok (roots, until)
      | false ↦ do
        public ← decode_key t.unsigned.next_key.public_key
        next_until ← timestamp kit (str t.unsigned.next_key.valid_until) "validUntil"
        effective_roots ts ((t.unsigned.next_key.key_id, public) ∷ []) (some next_until) now
    ]

  abbrev pub unexpired : Option ℕ → ℕ → Bool
  unexpired none now = true
  unexpired (some until) now = leb now until

  -- `ServiceConnector._current_roots`
  unfoldable pub current_roots : List Transition → Roots → ℕ → Outcome Failure Roots
  current_roots ts initial now = do
    found ← effective_roots ts initial none now
    require (unexpired found.1 now) (contract_error "current service root key has expired")
    ok found.0
