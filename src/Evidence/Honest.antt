-- ===== src/Evidence/Honest.antt =====
-- Evidence claims no more than its checks.
use limitlesslibrary.Base.{
  ◌≡◌, refl, sym, String, Bool, true, false, ◌&&◌, List, [], ◌∷◌, map, all, any, All, str_eq,
  eq_iff, in_list, ok, bind_ok, require_ok, ok-injective, arith, and_parts, if_intro, leb, length,
  is_sorted_set, ◌⊎◌, inl, inr, Bool-cases,
}
use mathlib.Core.Path.{subst}
use limitlesslibrary.Base.Json.{Json, get}
use limitlesslibrary.Service.Shape.{Failure, Toolkit}
use limitlesslibrary.Environment.{member_of}
use limitlesslibrary.Evidence.{
  Check, statuses, check_of, checks_loop, normalize_checks, required_checks, outcome, with_fields,
  evidence_time, digest_value, identifier,
}

-- A check that passed, for the id.
abbrev pub Passes : String → List Check → Type 0
Passes id [] = ⊥
Passes id (c ∷ cs) = ((c.id ≡ id) × (c.status ≡ "passed")) ⊎ Passes id cs

passed_of_all :
    (checks : List Check) (ids : List String) (id : String)
    → all (λ c. str_eq c.status "passed") (required_checks checks ids) ≡ true
    → in_list id ids ≡ true
    → in_list id (map (λ c. c.id) checks) ≡ true
    → Passes id checks
unfolding required_checks
passed_of_all [] ids id h required named = ground arith
passed_of_all (c ∷ cs) ids id h required named = elim (Bool-cases (str_eq id c.id)) [
  | inl same ↦
      let e : id ≡ c.id = (eq_iff id c.id).0 same in
      let here : in_list c.id ids ≡ true = subst (λ i. in_list i ids ≡ true) e required in
      inl (sym e, (eq_iff c.status "passed").0 (ground arith))
  | inr other ↦ inr (passed_of_all cs ids id (ground arith) required (ground arith))
]

-- `_outcome` says "verified" only if each required check that is there has passed.
pub outcome_verified :
    (checks : List Check) (ids : List String)
    → outcome checks ids ≡ ok "verified"
    → all (λ c. str_eq c.status "passed") (required_checks checks ids) ≡ true
unfolding outcome
outcome_verified checks ids h =
    ground (arith, eq_iff "blocked" "verified", eq_iff "failed" "verified")

-- Known statuses have an outcome.
pub Known : Check → Type 0
Known c = in_list c.status statuses ≡ true

settled :
    (cs : List Check)
    → All Known cs
    → any (λ c. str_eq c.status "failed") cs ≡ false
    → any (λ c. in_list c.status ("blocked" ∷ "not-applicable" ∷ [])) cs ≡ false
    → all (λ c. str_eq c.status "passed") cs ≡ true
unfolding Known
settled [] known f b = refl
settled (c ∷ cs) (here, rest) f b = let ih = settled cs rest in ground (arith, ih)

All-required_checks :
    (cs : List Check) (ids : List String) → All Known cs → All Known (required_checks cs ids)
unfolding required_checks
All-required_checks [] ids known = tt
All-required_checks (c ∷ cs) ids (here, rest) =
    if_intro (All Known) (in_list c.id ids) (λ _. (here, All-required_checks cs ids rest))
      (λ _. All-required_checks cs ids rest)

member_of_known :
    (value : Json) (names : List String) (e : Failure) (s : String)
    → member_of value names e ≡ ok s
    → in_list s names ≡ true
unfolding member_of
member_of_known value names e s h = ground arith

check_of-Known : (kit : Toolkit) (value : Json) (c : Check) → check_of kit value ≡ ok c → Known c
unfolding check_of Known
check_of-Known kit value c h =
    let (item, _, h1) = bind_ok (with_fields value _ _) _ h in
    let (kind, _, h2) = bind_ok (member_of (get item "kind") _ _) _ h1 in
    let (status, e, h3) = bind_ok (member_of (get item "status") statuses _) _ h2 in
    let (id, _, h4) = bind_ok (identifier (get item "id") _) _ h3 in
    let (environment_id, _, h5) = bind_ok (identifier (get item "environmentId") _) _ h4 in
    let (reason_code, _, h6) = bind_ok (identifier (get item "reasonCode") _) _ h5 in
    let (observed_at, _, h7) = bind_ok (evidence_time kit (get item "observedAt") _) _ h6 in
    let (digest, _, h8) = bind_ok (digest_value (get item "evidenceDigest") _) _ h7 in
    subst (λ (c : Check). in_list c.status statuses ≡ true) (ok-injective h8)
      (member_of_known (get item "status") statuses _ status e)

checks_loop-Known :
    (kit : Toolkit) (values : List Json) (cs : List Check)
    → checks_loop kit values ≡ ok cs
    → All Known cs
unfolding checks_loop
checks_loop-Known kit [] cs h = subst (All Known) (ok-injective h) tt
checks_loop-Known kit (value ∷ values) cs h =
    let (c, e1, h1) = bind_ok (check_of kit value) _ h in
    let (rest, e2, h2) = bind_ok (checks_loop kit values) _ h1 in
    subst (All Known) (ok-injective h2)
      (check_of-Known kit value c e1, checks_loop-Known kit values rest e2)

normalize_checks-Known :
    (kit : Toolkit) (values : List Json) (cs : List Check)
    → normalize_checks kit values ≡ ok cs
    → All Known cs
unfolding normalize_checks
normalize_checks-Known kit values cs h =
    let (ds, e, h1) = bind_ok (checks_loop kit values) _ h in
    let (_, h2) = require_ok (leb 1 (length ds) && leb (length ds) 64) _ _ h1 in
    let (_, h3) = require_ok (is_sorted_set (map (λ c. c.id) ds)) _ _ h2 in
    subst (All Known) (ok-injective h3) (checks_loop-Known kit values ds e)

-- Checks that were normalised always have an outcome, for any list of required ids: the error
-- behind the last test of `_outcome` is never raised.
pub outcome_total :
    (kit : Toolkit) (values : List Json) (cs : List Check) (ids : List String)
    → normalize_checks kit values ≡ ok cs
    → (o : String) × (outcome cs ids ≡ ok o)
unfolding outcome
outcome_total kit values cs ids h =
    let known = All-required_checks cs ids (normalize_checks-Known kit values cs h) in
    by_tests (any (λ c. str_eq c.status "failed") (required_checks cs ids)) refl
      (any (λ c. in_list c.status ("blocked" ∷ "not-applicable" ∷ [])) (required_checks cs ids))
      refl known
  where
    by_tests :
        (f : Bool)
        → any (λ c. str_eq c.status "failed") (required_checks cs ids) ≡ f
        → (b : Bool)
        → any (λ c. in_list c.status ("blocked" ∷ "not-applicable" ∷ [])) (required_checks cs ids)
          ≡ b
        → All Known (required_checks cs ids)
        → (o : String) × (outcome cs ids ≡ ok o)
    by_tests true f b g known = ("failed", rw f refl)
    by_tests false f true g known = ("blocked", rw (f, g) refl)
    by_tests false f false g known =
        ("verified", rw (f, g, settled (required_checks cs ids) known f g) refl)

pub required_pass :
    (checks : List Check) (ids all_ids : List String)
    → all (λ c. str_eq c.status "passed") (required_checks checks all_ids) ≡ true
    → all (λ s. in_list s (map (λ c. c.id) checks)) ids ≡ true
    → all (λ s. in_list s all_ids) ids ≡ true
    → All (λ id. Passes id checks) ids
required_pass checks [] all_ids h named within = tt
required_pass checks (id ∷ ids) all_ids h named within = (
  passed_of_all checks all_ids id h ((and_parts within).0) ((and_parts named).0),
  required_pass checks ids all_ids h ((and_parts named).1) ((and_parts within).1),
)
