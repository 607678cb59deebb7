-- ===== src/Service/Shape.antt =====
-- The shapes that the validators of `service_contracts.py` share, with `parse_utc` of
-- `contracts.py`. `Toolkit` is what they take from Python's library and from `cryptography`.
use limitlesslibrary.Base.{
  ℕ, String, ◌<>◌, Bool, true, false, ◌&&◌, ◌||◌, Option, none, some, List, [], ◌∷◌, leb, ◌==◌,
  is_digit, str_eq, length, all, if◌then◌else◌, Outcome, ok, raised,
}
use limitlesslibrary.Base.Json.{Json, str, obj, int, pos, Fields, keys_within, has_keys}
use limitlesslibrary.Wire.Shape.{is_text, is_letter, is_digest}

-- `PublicServiceContractError`, and what passes the validators by.
pub data Failure : Type 0 where
  contract_error : String → Failure
  type_error overflow_error : Failure

abbrev pub Bytes : Type 0
Bytes = List ℕ

-- A datetime in UTC: the whole seconds since the year 1, and the microseconds. A conversion that
-- leaves the years 1 to 9999 has no instant.
pub data Instant : Type 0 where
  naive : Instant
  out_of_range : Instant
  instant : ℕ → ℕ → Instant

-- `datetime.fromisoformat`, `isoformat_utc`, `urlsafe_b64decode` of a text with its padding,
-- `urlsafe_b64encode` without padding, `sha256_bytes`, `canonical_json_bytes`, and whether an
-- Ed25519 public key verifies a signature of a payload.
pub record Toolkit : Type 0 where
  pub fromisoformat : String → Option Instant
  pub isoformat : ℕ → String
  pub decode64 : String → Option Bytes
  pub encode64 : Bytes → String
  pub sha256 : Bytes → String
  pub canonical : Json → Bytes
  pub verifies : Bytes → Bytes → Bytes → Bool

abbrev invalid : String → Failure
invalid label = contract_error (label <> " is invalid")

-- `_exact`
unfoldable pub exact_fields : Json → List String → String → Outcome Failure Fields
exact_fields (obj d) names label =
    if keys_within d names && has_keys d names
    then ok d
    else raised (contract_error (label <> " has an unsupported shape"))
exact_fields _ names label = raised (contract_error (label <> " has an unsupported shape"))

-- `_text`
unfoldable pub bounded_text : Json → String → ℕ → (List ℕ → Bool) → Outcome Failure String
bounded_text (str s) label maximum pattern =
    if is_text maximum pattern s then ok s else raised (invalid label)
bounded_text _ label maximum pattern = raised (invalid label)

-- `_digest`
unfoldable pub digest_text : Json → String → Outcome Failure String
digest_text value label = bounded_text value label 71 is_digest

abbrev pub is_name_char : ℕ → Bool
is_name_char c = is_letter c || is_digit c || c == b'.' || c == b'_' || c == b':' || c == b'-'

-- `^[A-Za-z][A-Za-z0-9._:-]{0,199}$`
unfoldable pub is_identifier : List ℕ → Bool
is_identifier [] = false
is_identifier (c ∷ cs) = is_letter c && all is_name_char cs && leb (length cs) 199

-- `^[A-Za-z0-9_-]{n}$`
unfoldable pub is_base64url : ℕ → List ℕ → Bool
is_base64url n text =
    all (λ c. is_letter c || is_digit c || c == b'_' || c == b'-') text && length text == n

-- An integer within bounds that is no `bool`.
unfoldable pub bounded_int : Json → ℕ → ℕ → Failure → Outcome Failure ℕ
bounded_int (int (pos n)) low high e = if leb low n && leb n high then ok n else raised e
bounded_int _ low high e = raised e

-- The equality of bytes.
unfoldable pub bytes_eq : Bytes → Bytes → Bool
bytes_eq [] [] = true
bytes_eq (a ∷ rest) (b ∷ bs) = (a == b) && bytes_eq rest bs
bytes_eq [] (b ∷ bs) = false
bytes_eq (a ∷ rest) [] = false

module _ (kit : Toolkit) where
  -- `parse_utc`, for a value of any type: `fromisoformat` raises a `TypeError` for what is no text.
  unfoldable pub parse_utc : Json → Outcome Failure (ℕ × ℕ)
  parse_utc (str s) = elim (kit.fromisoformat s) [
    | none ↦ raised (contract_error "timestamp")
    | some naive ↦ raised (contract_error "timestamp")
    | some out_of_range ↦ raised overflow_error
    | some (instant seconds micros) ↦ ok (seconds, micros)
  ]
  parse_utc _ = raised type_error

  abbrev whole_seconds : Outcome Failure (ℕ × ℕ) → String → Outcome Failure ℕ
  whole_seconds (ok (seconds, micros)) label =
      if micros == 0
      then ok seconds
      else raised (contract_error (label <> " must use whole seconds"))
  whole_seconds (raised (contract_error _)) label = raised (invalid label)
  whole_seconds (raised type_error) label = raised type_error
  whole_seconds (raised overflow_error) label = raised overflow_error

  -- `_timestamp`
  unfoldable pub timestamp : Json → String → Outcome Failure ℕ
  unfolding parse_utc
  timestamp value label = whole_seconds (parse_utc value) label

  -- `_base64url_decode`
  unfoldable pub base64url_decode : String → ℕ → String → Outcome Failure Bytes
  base64url_decode value expected_bytes label = elim (kit.decode64 value) [
    | none ↦ raised (invalid label)
    | some bytes ↦
        if (length bytes == expected_bytes) && str_eq (kit.encode64 bytes) value
        then ok bytes
        else raised (invalid label)
  ]
