-- ===== src/Evidence/Receipts.antt =====
-- What a valid receipt proves.
use limitlesslibrary.Base.{
  ◌≡◌, refl, String, true, not, ◌&&◌, Option, none, some, List, [], ◌∷◌, map, all, All, str_eq,
  eq_refl, in_list, ok, arith,
}
use limitlesslibrary.Base.Json.{Json, str, obj, get, equals_text}
use limitlesslibrary.Service.Shape.{Failure, Toolkit}
use limitlesslibrary.Environment.{Environment, Profile, environment_of}
use limitlesslibrary.Environment.Validation.{validate_profile}
use limitlesslibrary.Environment.Digest.{profile_digest, profile_json}
use limitlesslibrary.Evidence.{Check, outcome, with_fields}
use limitlesslibrary.Evidence.Validation.{Evidence, evidence_fields, receipt_digest, evidence_id}

within_cons :
    (y : String) (ids xs : List String)
    → all (λ s. in_list s ids) xs ≡ true
    → all (λ s. in_list s (y ∷ ids)) xs ≡ true
within_cons y ids [] h = refl
within_cons y ids (x ∷ xs) h = let ih = within_cons y ids xs in ground (arith, ih)

pub within_self : (ids : List String) → all (λ s. in_list s ids) ids ≡ true
within_self [] = refl
within_self (x ∷ xs) =
    let same = eq_refl x in let rest = within_cons x xs xs (within_self xs) in ground arith

-- A check was observed by a verification receiver, and a human witness by a human.
abbrev pub Observed : Profile → Check → Type 0
Observed p c =
    (e : Environment) × (environment_of p.environments c.environment_id ≡ some e)
    × (in_list c.environment_id p.bindings.verification_receivers ≡ true)
    × (not (str_eq c.kind "human-witness" && not (str_eq e.kind "human-observer")) ≡ true)

-- The exact receiver, where one is given.
abbrev pub IsBound : Toolkit → Option Json → Evidence → Type 0
IsBound kit none r = Unit
IsBound kit (some value) r =
    (p : Profile) × (validate_profile kit value ≡ ok p)
    × (profile_digest kit (profile_json p) ≡ ok r.profile_digest)
    × All (Observed p) r.checks

pub record IsReceipt (kit : Toolkit) (value : Json) (profile : Option Json) (r : Evidence)
    : Type 0 where
  pub given : value ≡ obj r.given
  pub whole : (f : Failure) × (with_fields value evidence_fields f ≡ ok r.given)
  pub bound : str_eq r.receipt_digest (receipt_digest kit r.given) ≡ true
  pub named : equals_text (get r.given "id") (evidence_id r.receipt_digest) ≡ true
  pub claimed : get r.given "outcome" ≡ str r.outcome
  pub honest : outcome r.checks r.required ≡ ok r.outcome
  pub present : all (λ s. in_list s (map (λ c. c.id) r.checks)) r.required ≡ true
  pub receiver : IsBound kit profile r
