-- ===== src/Environment.antt =====
-- The helpers and records of `src/limitless_library/receiver_environment.py`: the environments in
-- which an agent runs, works and is observed. The module's own error is `contract_error`.
pub mod Validation
pub mod Projection
pub mod Roles
pub mod Minimal
pub mod Digest
use limitlesslibrary.Base.{
  ℕ, String, ◌<>◌, Bool, true, false, not, ◌&&◌, ◌||◌, Option, none, some, List, [], ◌∷◌, map, leb,
  ◌==◌, codes, is_digit, str_eq, in_list, length, all, if◌then◌else◌, is_sorted_set, Outcome, ok,
  raised, ◌>>=◌, ◌>>◌, require,
}
use limitlesslibrary.Base.Json.{
  Json, str, null, arr, obj, list_of, Fields, keys_within, has_keys, get,
}
use limitlesslibrary.Wire.Shape.{is_lower, is_letter}
use limitlesslibrary.Service.Shape.{
  Failure, contract_error, type_error, overflow_error, Toolkit, is_name_char, parse_utc,
}

pub record Attribute : Type 0 where
  pub name : String
  pub value : String

pub record Facts : Type 0 where
  pub platform : Option String
  pub architecture : Option String
  pub runtime : Option String
  pub version : Option String
  pub version_range : Option String
  pub interfaces : List String
  pub attributes : List Attribute

pub record Observation : Type 0 where
  pub source : String
  pub authority : String
  pub observed_at : String
  pub evidence_digest : String

pub record Environment : Type 0 where
  pub id : String
  pub kind : String
  pub facts : Facts
  pub observation : Observation

pub record Bindings : Type 0 where
  pub agent_host : String
  pub work_environment : String
  pub target_environments : List String
  pub verification_receivers : List String

pub record Profile : Type 0 where
  pub environments : List Environment
  pub bindings : Bindings

-- `_exact`
unfoldable pub exact_item : Json → List String → String → Outcome Failure Fields
exact_item (obj d) names label =
    if keys_within d names && has_keys d names
    then ok d
    else raised (contract_error (label <> " has unsupported or missing fields"))
exact_item _ names label = raised (contract_error (label <> " has unsupported or missing fields"))

-- `_text`, for a pattern that is a full match
unfoldable pub plain_text : Json → String → ℕ → (List ℕ → Bool) → Outcome Failure String
plain_text (str s) label maximum pattern =
    if str_eq s "" || not (leb (length (codes s)) maximum)
    then raised (contract_error (label <> " must be a bounded non-empty string"))
    else if pattern (codes s)
    then ok s
    else raised (contract_error (label <> " has an invalid format"))
plain_text _ label maximum pattern =
    raised (contract_error (label <> " must be a bounded non-empty string"))

-- `^[a-z][a-z0-9._-]{0,63}$`
unfoldable pub is_token : List ℕ → Bool
is_token [] = false
is_token (c ∷ cs) =
    is_lower c
    && all (λ d. is_lower d || is_digit d || d == b'.' || d == b'_' || d == b'-') cs
    && leb (length cs) 63

-- `^[A-Za-z][A-Za-z0-9._:/-]{0,127}$`
unfoldable pub is_interface : List ℕ → Bool
is_interface [] = false
is_interface (c ∷ cs) =
    is_letter c && all (λ d. is_name_char d || d == b'/') cs && leb (length cs) 127

-- `None`, or a text
unfoldable pub optional_text : Json → String → ℕ → (List ℕ → Bool) → Outcome Failure (Option String)
unfolding plain_text
optional_text null label maximum pattern = ok none
optional_text value label maximum pattern = do
  s ← plain_text value label maximum pattern
  ok (some s)

-- `_optional_token`
unfoldable pub optional_token : Json → String → Outcome Failure (Option String)
optional_token value label = optional_text value label 64 is_token

-- `value in names`, for a set: a list or a dict has no hash.
unfoldable pub member_of : Json → List String → Failure → Outcome Failure String
member_of (str s) names e = if in_list s names then ok s else raised e
member_of (arr xs) names e = raised type_error
member_of (obj d) names e = raised type_error
member_of _ names e = raised e

unfoldable pub plain_texts : List Json → String → (List ℕ → Bool) → Outcome Failure (List String)
plain_texts [] label pattern = ok []
plain_texts (value ∷ values) label pattern = do
  s ← plain_text value label 128 pattern
  rest ← plain_texts values label pattern
  ok (s ∷ rest)

-- `_sorted_texts`, for a list of at least so many
unfoldable pub sorted_list : Json → String → ℕ → ℕ → (List ℕ → Bool) → Outcome Failure (List String)
sorted_list (arr values) label minimum maximum pattern = do
  require (leb minimum (length (list_of values)) && leb (length (list_of values)) maximum)
      (contract_error (label <> " must be a bounded list"))
  checked ← plain_texts (list_of values) label pattern
  require (is_sorted_set checked) (contract_error (label <> " must be sorted and unique"))
  ok checked
sorted_list _ label minimum maximum pattern =
    raised (contract_error (label <> " must be a bounded list"))

-- `by_id[id]`, of the environments in a dict by their id
unfoldable pub environment_of : List Environment → String → Option Environment
environment_of [] id = none
environment_of (e ∷ es) id =
    let later = environment_of es id in if str_eq e.id id then some e else later

module _ (kit : Toolkit) where
  abbrev moment : Outcome Failure (ℕ × ℕ) → String → String → Outcome Failure String
  moment (ok _) s label = ok s
  moment (raised (contract_error _)) s label = raised (contract_error (label <> " is invalid"))
  moment (raised type_error) s label = raised type_error
  moment (raised overflow_error) s label = raised overflow_error

  -- `_timestamp`
  unfoldable pub checked_time : Json → String → Outcome Failure String
  checked_time value label = do
    s ← plain_text value label 40 (λ _. true)
    moment (parse_utc kit (str s)) s label
