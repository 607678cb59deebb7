-- ===== src/Service/Roots/Transitions.antt =====
-- `validate_service_root_key_transition` and `advance_service_root_trust` of
-- `service_contracts.py`, the checks in the order of the source.
use limitlesslibrary.Base.{
  ℕ, ◌+◌, String, not, ◌&&◌, Option, none, some, List, [], ◌∷◌, ltb, leb, ◌==◌, str_eq, length,
  if◌then◌else◌, Outcome, ok, raised, ◌>>=◌, ◌>>◌, require,
}
use limitlesslibrary.Base.Json.{Json, str, Fields, get, equals_text, is_null}
use limitlesslibrary.Service.Shape.{
  Failure, contract_error, Bytes, Toolkit, exact_fields, bounded_text, digest_text, is_identifier,
  bounded_int, bytes_eq, timestamp, base64url_decode,
}
use limitlesslibrary.Service.Roots.{
  RootKey, Unsigned, Transition, Roots, Expected, schema_version, unsigned_json, signed_json,
  transition_json, root_of, fault, fits_text, fits_number, fits_digest, signature, verify, root_key,
}

-- The keys of a transition
abbrev pub transition_fields : List String
transition_fields =
    "schemaVersion" ∷ "serviceId" ∷ "sequence" ∷ "previousTransitionDigest" ∷ "previousRootKey"
    ∷ "nextRootKey" ∷ "effectiveAt" ∷ "issuedAt" ∷ "transitionDigest" ∷ "signatures" ∷ []

-- The predecessor's digest: none for the first transition.
unfoldable pub previous_digest : Json → ℕ → Outcome Failure (Option String)
previous_digest value sequence =
    if sequence == 1
    then (do
      require (is_null value)
          (contract_error "first service root key transition cannot name a predecessor")
      ok none)
    else (do
      digest ← digest_text value "service root key transition previousTransitionDigest"
      ok (some digest))

-- The predecessor among the trusted roots, with the same bytes.
unfoldable pub check_trusted : Option Roots → String → Bytes → Outcome Failure (Unit {0})
check_trusted none key_id public = ok tt
check_trusted (some roots) key_id public = elim (root_of roots key_id) [
  | none ↦ raised (fault "predecessor is not trusted")
  | some trusted ↦ require (bytes_eq trusted public) (fault "predecessor material differs")
]

abbrev pub expecting : Roots → String → ℕ → Option String → Expected
expecting roots service_id sequence previous = record {
  roots = some roots;
  service_id = some service_id;
  sequence = some sequence;
  previous = some previous;
}

module _ (kit : Toolkit) where
  -- `issuedAt` and `effectiveAt` against the lives of both keys. A lead is 90 days at most.
  unfoldable pub timing : Fields → RootKey → RootKey → Outcome Failure (ℕ × ℕ)
  timing item previous_key next_key = do
    issued_at ← timestamp kit (get item "issuedAt") "service root key transition issuedAt"
    effective_at ← timestamp kit (get item "effectiveAt") "service root key transition effectiveAt"
    previous_from ←
        timestamp kit (str previous_key.valid_from)
          "service root key transition previousRootKey validFrom"
    previous_until ←
        timestamp kit (str previous_key.valid_until)
          "service root key transition previousRootKey validUntil"
    next_from ←
        timestamp kit (str next_key.valid_from) "service root key transition nextRootKey validFrom"
    next_until ←
        timestamp kit (str next_key.valid_until)
          "service root key transition nextRootKey validUntil"
    require
        (leb previous_from issued_at
          && ltb issued_at effective_at
          && leb effective_at previous_until)
        (fault "timing is invalid")
    require
        (leb effective_at (issued_at + 7776000)
          && (next_from == effective_at)
          && ltb effective_at next_until)
        (fault "timing is invalid")
    ok (issued_at, effective_at)

  -- The content that is signed.
  unfoldable pub unsigned_of : Fields → Outcome Failure Unsigned
  unfolding previous_digest timing
  unsigned_of item = do
    require (equals_text (get item "schemaVersion") schema_version)
        (fault "schemaVersion is invalid")
    service_id ←
        bounded_text (get item "serviceId") "service root key transition serviceId" 200
          is_identifier
    sequence ← bounded_int (get item "sequence") 1 2147483647 (fault "sequence is invalid")
    previous ← previous_digest (get item "previousTransitionDigest") sequence
    previous_key ←
        root_key kit (get item "previousRootKey") "service root key transition previousRootKey"
    next_key ← root_key kit (get item "nextRootKey") "service root key transition nextRootKey"
    require
        (not (str_eq previous_key.key_id next_key.key_id)
          && not (str_eq previous_key.public_key next_key.public_key))
        (fault "does not change the root")
    times ← timing item previous_key next_key
    ok (record {
      service_id = service_id;
      sequence = sequence;
      previous_digest = previous;
      previous_key = previous_key;
      next_key = next_key;
      effective_at = kit.isoformat times.1;
      issued_at = kit.isoformat times.0;
    })

  -- The transition with its digest and its two signatures, which are not verified yet.
  unfoldable pub transition_of : Fields → Outcome Failure Transition
  transition_of item = do
    u ← unsigned_of item
    digest ←
        digest_text (get item "transitionDigest") "service root key transition transitionDigest"
    require (str_eq digest (kit.sha256 (kit.canonical (unsigned_json u))))
        (fault "digest does not bind its exact content")
    pair ←
        exact_fields (get item "signatures") ("authorization" ∷ "acceptance" ∷ [])
          "service root key transition signatures"
    authorization ←
        signature kit (get pair "authorization") "service root key transition authorization"
    acceptance ← signature kit (get pair "acceptance") "service root key transition acceptance"
    require
        (str_eq authorization.key_id u.previous_key.key_id
          && str_eq acceptance.key_id u.next_key.key_id)
        (fault "signatures use the wrong keys")
    ok (record {
      unsigned = u;
      digest = digest;
      authorization = authorization;
      acceptance = acceptance;
    })

  -- Whether it is what the caller expects, and short enough.
  unfoldable pub check_expected : Expected → Transition → Outcome Failure Transition
  check_expected e t = do
    require (fits_text e.service_id t.unsigned.service_id) (fault "service differs")
    require (fits_number e.sequence t.unsigned.sequence) (fault "sequence differs")
    require (fits_digest e.previous t.unsigned.previous_digest) (fault "predecessor differs")
    require (leb (length (kit.canonical (transition_json t))) 8192) (fault "exceeds its byte limit")
    ok t

  -- `validate_service_root_key_transition`
  unfoldable pub validate_root_key_transition : Json → Expected → Outcome Failure Transition
  validate_root_key_transition value e = do
    item ← exact_fields value transition_fields "service root key transition"
    t ← transition_of item
    previous_public ←
        base64url_decode kit t.unsigned.previous_key.public_key 32
          "service root key transition previousRootKey publicKey"
    next_public ←
        base64url_decode kit t.unsigned.next_key.public_key 32
          "service root key transition nextRootKey publicKey"
    check_trusted e.roots t.unsigned.previous_key.key_id previous_public
    verify kit (signed_json t.unsigned t.digest) t.authorization previous_public
    verify kit (signed_json t.unsigned t.digest) t.acceptance next_public
    check_expected e t

  -- The successor alone, once it is effective and while it has not expired.
  unfoldable pub successor_of : Transition → ℕ → Outcome Failure (Roots × ℕ × String)
  successor_of t now = do
    effective ←
        timestamp kit (str t.unsigned.effective_at) "service root key transition effectiveAt"
    next_until ←
        timestamp kit (str t.unsigned.next_key.valid_until)
          "service root key transition nextRootKey validUntil"
    require (leb effective now) (fault "is not yet effective")
    require (leb now next_until) (fault "successor has expired")
    next_public ←
        base64url_decode kit t.unsigned.next_key.public_key 32
          "service root key transition nextRootKey publicKey"
    ok ((t.unsigned.next_key.key_id, next_public) ∷ [], t.unsigned.sequence, t.digest)

  -- `advance_service_root_trust` at a time in whole seconds
  unfoldable pub advance_root_trust :
      Json → Roots → String → ℕ → Option String → ℕ → Outcome Failure (Roots × ℕ × String)
  advance_root_trust value roots service_id sequence previous now = do
    t ← validate_root_key_transition value (expecting roots service_id sequence previous)
    successor_of t now
