-- ===== src/Wire/NextAction/Accepts/Steps.antt =====
-- The method steps that are accepted.
use limitlesslibrary.Base.{
  suc, ◌≡◌, refl, ap, true, ◌&&◌, List, [], ◌∷◌, map, in_list, length, All, arith, leb, ok, bind_ok,
  require_ok, ok-injective, and_parts,
}
use mathlib.Core.Path.{subst}
use limitlesslibrary.Base.Json.{Json, arr, get, list_of, list_of-items_of, array, is_boolean}
use limitlesslibrary.Wire.Shape.{exact, text, text-str, is_text, anything}
use limitlesslibrary.Wire.Checks.{
  predicates, locator, is_locator, locator-is_locator, is_locator-locator,
}
use limitlesslibrary.Wire.NextAction.{Step, step_json, step, step_loop, steps, is_true_value}

pub record IsStep (s : Step) : Type 0 where
  pub instruction : is_text 280 anything s.instruction ≡ true
  pub check : is_text 32 anything s.check ≡ true
  pub known : in_list s.check predicates ≡ true
  pub expected : is_text 160 anything s.expected ≡ true
  pub place : is_locator s.locator ≡ true

step-IsStep : (value : Json) (s : Step) → step value ≡ ok s → IsStep s
unfolding step
step-IsStep value s h =
    let (item, _, h1) = bind_ok (exact value _ _) _ h in
    let (check, e1, h2) = bind_ok (text (get item "check") _ _ _) _ h1 in
    let (known, h3) =
      require_ok (in_list check predicates && is_boolean (get item "inRepo")) _ _ h2 in
    let (instruction, e2, h4) = bind_ok (text (get item "instruction") _ _ _) _ h3 in
    let (expected, e3, h5) = bind_ok (text (get item "expected") _ _ _) _ h4 in
    let (place, e4, h6) = bind_ok (locator (get item "locator") _) _ h5 in
    let made : Step = record {
      instruction = instruction;
      check = check;
      expected = expected;
      locator = place;
      in_repo = is_true_value (get item "inRepo");
    } in
    let same : made ≡ s = ok-injective h6 in
    subst IsStep same (record {
      instruction = (text-str (get item "instruction") _ _ _ instruction e2).0;
      check = (text-str (get item "check") _ _ _ check e1).0;
      known = (and_parts known).0;
      expected = (text-str (get item "expected") _ _ _ expected e3).0;
      place = locator-is_locator (get item "locator") _ place e4;
    })

step_json-step : (s : Step) → IsStep s → step (step_json s) ≡ ok s
unfolding step exact text
step_json-step s v = rw (
  v.check,
  v.known,
  v.instruction,
  v.expected,
  is_locator-locator "method step locator" s.locator v.place,
)

step_loop-IsStep :
    (values : List Json) (ss : List Step)
    → step_loop values ≡ ok ss
    → All IsStep ss × (length ss ≡ length values)
unfolding step_loop
step_loop-IsStep [] ss h =
    let equal : [] ≡ ss = ok-injective h in
    subst (λ t. All IsStep t × (length t ≡ length {A = Json} [])) equal (tt, refl)
step_loop-IsStep (value ∷ values) ss h =
    let (s, e, h1) = bind_ok (step value) _ h in
    let (rest, f, h2) = bind_ok (step_loop values) _ h1 in
    let (each, same) = step_loop-IsStep values rest f in
    let equal : (s ∷ rest) ≡ ss = ok-injective h2 in
    subst (λ t. All IsStep t × (length t ≡ length (value ∷ values))) equal
      ((step-IsStep value s e, each), ap suc same)

step_loop-map : (ss : List Step) → All IsStep ss → step_loop (map step_json ss) ≡ ok ss
unfolding step_loop
step_loop-map [] v = refl
step_loop-map (s ∷ ss) (v, vs) = rw (step_json-step s v, step_loop-map ss vs)

length-map : (ss : List Step) → length (map step_json ss) ≡ length ss
length-map [] = refl
length-map (s ∷ ss) = ap suc (length-map ss)

-- One to eight well-formed steps.
pub record IsSteps (ss : List Step) : Type 0 where
  pub each : All IsStep ss
  pub some_step : leb 1 (length ss) ≡ true
  pub few : leb (length ss) 8 ≡ true

pub steps-IsSteps : (value : Json) (ss : List Step) → steps value ≡ ok ss → IsSteps ss
unfolding steps
steps-IsSteps (arr values) ss h =
    let run : step_loop (list_of values) ≡ ok ss = ground arith in
    let (each, same) = step_loop-IsStep (list_of values) ss run in
    record { each = each; some_step = rw same (ground arith); few = rw same (ground arith) }
steps-IsSteps _ ss h = ground arith

pub steps-array : (ss : List Step) → IsSteps ss → steps (array (map step_json ss)) ≡ ok ss
unfolding steps
steps-array ss v = rw (list_of-items_of, length-map, v.some_step, v.few) (step_loop-map ss v.each)
