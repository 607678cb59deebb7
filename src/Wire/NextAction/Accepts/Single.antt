-- ===== src/Wire/NextAction/Accepts/Single.antt =====
-- The actions with exactly one check, which must agree with the rest.
use limitlesslibrary.Base.{
  ℕ, ◌≡◌, refl, String, Bool, true, false, List, [], ◌∷◌, in_list, str_eq, eq_iff, length,
  if◌then◌else◌, arith, leb, ok, bind_ok, require_ok, ok-injective, and_four,
}
use mathlib.Core.Path.{subst}
use limitlesslibrary.Base.Json.{Json, get, equals_text}
use limitlesslibrary.Wire.Shape.{exact, text, text-str, is_true}
use limitlesslibrary.Wire.Checks.{
  Check, IsChecks, checks, checks-IsChecks, checks_json-checks, locator, is_locator-locator,
}
use limitlesslibrary.Wire.NextAction.{
  NextAction, apply_method_step, supply_missing_fact, use_local_catalog, re_query, action_json,
  method_action, missing_action, plain_action, missing_facts, signed_missing_facts, head_or,
  step_index, steps, Step, missing_agrees, step_agrees, plain_agrees, plain_of,
}
use limitlesslibrary.Wire.NextAction.Accepts.Steps.{IsSteps, steps-IsSteps, steps-array}
use limitlesslibrary.Wire.NextAction.Accepts.Kinds.{IsNextAction, IsInstruction}

step_index-bounds :
    (value : Json) (count n : ℕ)
    → step_index value count ≡ ok n
    → (leb 1 n ≡ true) × (leb n count ≡ true)
unfolding step_index
step_index-bounds value count n h = ground arith

head_or-cons :
    {A : Type 0} (xs : List A) (x : A) (rest : List A) → head_or xs ≡ ok (x, rest) → xs ≡ x ∷ rest
unfolding head_or
head_or-cons xs x rest h = ground arith

-- The checks of an action that must have exactly one.
only_check :
    (cs rest : List Check) (c : Check)
    → IsChecks 1 1 cs
    → head_or cs ≡ ok (c, rest)
    → IsChecks 1 1 (c ∷ [])
unfolding head_or
only_check [] rest c v h = cc
only_check (a ∷ []) rest c v h =
    let same : a ≡ c = ground arith in subst (λ t. IsChecks 1 1 (t ∷ [])) same v
only_check (a ∷ b ∷ cs) rest c v h = absurd (too_many v.few)
  where
    too_many : leb (length (a ∷ b ∷ cs)) 1 ≡ true → ⊥
    too_many h = ground arith

missing_agrees_parts :
    (u : Bool) (missing : String) (c : Check) (available : Json)
    → missing_agrees u missing c available ≡ true
    → (in_list missing (if u then missing_facts else signed_missing_facts) ≡ true)
      × (c.predicate ≡ "fact-present")
      × (c.expected ≡ missing)
unfolding missing_agrees
missing_agrees_parts u missing c available h =
    let (listed, fact, expected, _) =
      and_four {a = in_list missing (if u then missing_facts else signed_missing_facts)}
        {b = str_eq c.predicate "fact-present"} {c = str_eq c.expected missing}
        {d = is_true available} h in
    (listed, (eq_iff c.predicate "fact-present").0 fact, (eq_iff c.expected missing).0 expected)

pub missing_action_sound :
    (value : Json) (u : Bool) (a : NextAction) → missing_action value u ≡ ok a → IsNextAction u a
unfolding missing_action
missing_action_sound value u a h =
    let (action, _, h1) = bind_ok (exact value _ _) _ h in
    let (missing, e1, h2) = bind_ok (text (get action "missingFact") _ _ _) _ h1 in
    let (cs, e2, h3) = bind_ok (checks (get action "checks") _ _) _ h2 in
    let ((c, rest), e3, h4) = bind_ok (head_or cs) _ h3 in
    let (agreed, h5) =
      require_ok (missing_agrees u missing c (get action "localReuseAvailable")) _ _ h4 in
    let (instruction, e4, h6) = bind_ok (text (get action "instruction") _ _ _) _ h5 in
    let same : supply_missing_fact instruction c missing ≡ a = ok-injective h6 in
    let (listed, fact, expected) = missing_agrees_parts u missing c _ agreed in
    subst (IsNextAction u) same (
      (text-str (get action "instruction") _ _ _ instruction e4).0,
      only_check cs rest c (checks-IsChecks (get action "checks") 1 1 cs e2) e3,
      (text-str (get action "missingFact") _ _ _ missing e1).0,
      listed,
      fact,
      expected,
    )

pub missing_action_complete :
    (instruction : String) (c : Check) (missing : String) (u : Bool)
    → IsNextAction u (supply_missing_fact instruction c missing)
    → missing_action (action_json (supply_missing_fact instruction c missing)) u
      ≡ ok (supply_missing_fact instruction c missing)
unfolding missing_action exact text head_or missing_agrees
missing_action_complete instruction c missing u (i, v, t, l, p, e) = rw (
  t,
  checks_json-checks 1 1 (c ∷ []) v,
  l,
  (eq_iff c.predicate "fact-present").1 p,
  (eq_iff c.expected missing).1 e,
  i,
)

step_agrees_parts :
    (place : String) (first : Step) (c : Check) (available : Json)
    → step_agrees place first c available ≡ true
    → (c.predicate ≡ first.check) × (c.expected ≡ first.expected)
unfolding step_agrees
step_agrees_parts place first c available h =
    ground (arith, eq_iff c.predicate first.check, eq_iff c.expected first.expected)

pub method_action_sound :
    (value : Json) (u : Bool) (a : NextAction) → method_action value ≡ ok a → IsNextAction u a
unfolding method_action
method_action_sound value u a h =
    let (action, _, h1) = bind_ok (exact value _ _) _ h in
    let (normalized, e1, h2) = bind_ok (steps (get action "steps")) _ h1 in
    let (index, e2, h3) = bind_ok (step_index (get action "stepIndex") (length normalized)) _ h2 in
    let ((first, rest), e3, h4) = bind_ok (head_or normalized) _ h3 in
    let (cs, e4, h5) = bind_ok (checks (get action "checks") _ _) _ h4 in
    let ((c, others), e5, h6) = bind_ok (head_or cs) _ h5 in
    let (_, h7) = require_ok (equals_text (get action "instruction") first.instruction) _ _ h6 in
    let (place, e6, h8) = bind_ok (locator (get action "locator") _) _ h7 in
    let (agreed, h9) =
      require_ok (step_agrees place first c (get action "localReuseAvailable")) _ _ h8 in
    let same : apply_method_step c index first rest ≡ a = ok-injective h9 in
    let shape : normalized ≡ first ∷ rest = head_or-cons normalized first rest e3 in
    let (low, high) = step_index-bounds (get action "stepIndex") (length normalized) index e2 in
    let (predicate, expected) = step_agrees_parts place first c _ agreed in
    subst (IsNextAction u) same (
      subst IsSteps shape (steps-IsSteps (get action "steps") normalized e1),
      only_check cs others c (checks-IsChecks (get action "checks") 1 1 cs e4) e5,
      low,
      subst (λ t. leb index (length t) ≡ true) shape high,
      predicate,
      expected,
    )

pub method_action_complete :
    (c : Check) (index : ℕ) (first : Step) (rest : List Step) (u : Bool)
    → IsNextAction u (apply_method_step c index first rest)
    → method_action (action_json (apply_method_step c index first rest))
      ≡ ok (apply_method_step c index first rest)
unfolding method_action exact head_or step_index step_agrees
method_action_complete c index first rest u (v, k, low, high, p, e) = rw (
  steps-array (first ∷ rest) v,
  low,
  high,
  checks_json-checks 1 1 (c ∷ []) k,
  (eq_iff first.instruction first.instruction).1 refl,
  is_locator-locator "nextAction locator" first.locator v.each.0.place,
  (eq_iff first.locator first.locator).1 refl,
  (eq_iff c.predicate first.check).1 p,
  (eq_iff c.expected first.expected).1 e,
)

plain_agrees-IsNextAction :
    (is_local u : Bool) (c : Check) (available : Json) (instruction : String)
    → plain_agrees is_local c available ≡ true
    → IsInstruction instruction
    → IsChecks 1 1 (c ∷ [])
    → IsNextAction u (plain_of is_local instruction c)
unfolding plain_agrees
plain_agrees-IsNextAction true u c available instruction h i v = (
  i,
  v,
  ground (arith, eq_iff c.predicate "fact-present"),
  ground (arith, eq_iff c.expected "local-catalog"),
)
plain_agrees-IsNextAction false u c available instruction h i v =
    (i, v, ground (arith, eq_iff c.predicate "generation-current"))

pub plain_action_sound :
    (value : Json) (kind : String) (u : Bool) (a : NextAction)
    → plain_action value kind ≡ ok a
    → IsNextAction u a
unfolding plain_action
plain_action_sound value kind u a h =
    let (action, _, h1) = bind_ok (exact value _ _) _ h in
    let (cs, e1, h2) = bind_ok (checks (get action "checks") _ _) _ h1 in
    let ((c, rest), e2, h3) = bind_ok (head_or cs) _ h2 in
    let (agreed, h4) =
      require_ok
        (plain_agrees (str_eq kind "use-local-catalog") c (get action "localReuseAvailable")) _ _
        h3 in
    let (instruction, e3, h5) = bind_ok (text (get action "instruction") _ _ _) _ h4 in
    let same : plain_of (str_eq kind "use-local-catalog") instruction c ≡ a = ok-injective h5 in
    subst (IsNextAction u) same (
      plain_agrees-IsNextAction (str_eq kind "use-local-catalog") u c _ instruction agreed
        (text-str (get action "instruction") _ _ _ instruction e3).0
        (only_check cs rest c (checks-IsChecks (get action "checks") 1 1 cs e1) e2))

pub use_local_catalog_complete :
    (instruction : String) (c : Check) (u : Bool)
    → IsNextAction u (use_local_catalog instruction c)
    → plain_action (action_json (use_local_catalog instruction c)) "use-local-catalog"
      ≡ ok (use_local_catalog instruction c)
unfolding plain_action exact text head_or plain_agrees
use_local_catalog_complete instruction c u (i, v, p, e) = rw (
  checks_json-checks 1 1 (c ∷ []) v,
  (eq_iff c.predicate "fact-present").1 p,
  (eq_iff c.expected "local-catalog").1 e,
  i,
)

pub re_query_complete :
    (instruction : String) (c : Check) (u : Bool)
    → IsNextAction u (re_query instruction c)
    → plain_action (action_json (re_query instruction c)) "re-query" ≡ ok (re_query instruction c)
unfolding plain_action exact text head_or plain_agrees
re_query_complete instruction c u (i, v, p) =
    rw (checks_json-checks 1 1 (c ∷ []) v, (eq_iff c.predicate "generation-current").1 p, i)
