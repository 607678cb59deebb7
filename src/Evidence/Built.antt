-- ===== src/Evidence/Built.antt =====
-- What is built is honest, and accepted.
use limitlesslibrary.Base.{◌≡◌, String, List, All, sort_unique, some, ok}
use limitlesslibrary.Base.Json.{Json, str, obj, Fields, get}
use limitlesslibrary.Service.Shape.{Failure, Toolkit}
use limitlesslibrary.Environment.{Profile}
use limitlesslibrary.Environment.Validation.{validate_profile}
use limitlesslibrary.Environment.Digest.{profile_json}
use limitlesslibrary.Evidence.{Check, normalize_checks}
use limitlesslibrary.Evidence.Validation.{Evidence, validate_evidence}
use limitlesslibrary.Evidence.Honest.{Passes}
use limitlesslibrary.Evidence.Build.{given_ids}

module _ (kit : Toolkit) where
  -- The receipt is accepted for the profile and the decision, and it claims "verified" only where each
  -- required id has a check that passed.
  pub record IsHonest (profile : Json) (decision : String) (check_values id_values : List Json)
      (unordered : Failure) (d : Fields) : Type 0 where
    pub receiver : Profile
    pub valid : validate_profile kit profile ≡ ok receiver
    pub checks : List Check
    pub ids : List String
    pub checked : normalize_checks kit check_values ≡ ok checks
    pub given : given_ids id_values ≡ ok ids
    pub accepted :
        (r : Evidence) × (validate_evidence kit
            (obj d)
            (some (profile_json receiver))
            (some decision)
            unordered
          ≡ ok r)
    pub honest : get d "outcome" ≡ str "verified" → All (λ id. Passes id checks) (sort_unique ids)
