-- ===== src/Wire/NextAction/Accepts/Kinds.antt =====
-- The actions of each kind that are accepted.
use limitlesslibrary.Base.{
  ◌≡◌, String, Bool, true, false, not, ◌&&◌, List, [], ◌∷◌, in_list, length, any, if◌then◌else◌,
  leb, ok, bind_ok, require_ok, ok-injective, and_three, not-true,
}
use mathlib.Core.Path.{subst}
use limitlesslibrary.Base.Json.{Json, get, equals_text}
use limitlesslibrary.Wire.Shape.{exact, text, text-str, is_text, anything, is_digest, is_true}
use limitlesslibrary.Wire.Checks.{Check, IsChecks, checks, checks-IsChecks, checks_json-checks}
use limitlesslibrary.Wire.NextAction.{
  NextAction, install_and_verify, handoff_native_add, apply_method_step, supply_missing_fact,
  use_local_catalog, re_query, action_json, install_action, handoff_action, expects_digest,
  is_digest_check, handoffs, missing_facts, signed_missing_facts,
}
use limitlesslibrary.Wire.NextAction.Accepts.Steps.{IsSteps}

abbrev pub IsInstruction : String → Type 0
IsInstruction s = is_text 280 anything s ≡ true

-- What makes an action of each kind well formed.
abbrev pub IsNextAction : Bool → NextAction → Type 0
IsNextAction unsigned (install_and_verify instruction cs digest) =
    IsInstruction instruction
    × IsChecks 1 8 cs
    × (is_text 71 is_digest digest ≡ true)
    × (any (expects_digest digest) cs ≡ true)
IsNextAction unsigned (handoff_native_add instruction cs handoff) =
    IsInstruction instruction
    × IsChecks 1 8 cs
    × (is_text 40 anything handoff ≡ true)
    × (in_list handoff handoffs ≡ true)
    × (any is_digest_check cs ≡ false)
IsNextAction unsigned (apply_method_step c index first rest) =
    IsSteps (first ∷ rest)
    × IsChecks 1 1 (c ∷ [])
    × (leb 1 index ≡ true)
    × (leb index (length (first ∷ rest)) ≡ true)
    × (c.predicate ≡ first.check)
    × (c.expected ≡ first.expected)
IsNextAction unsigned (supply_missing_fact instruction c missing) =
    IsInstruction instruction
    × IsChecks 1 1 (c ∷ [])
    × (is_text 40 anything missing ≡ true)
    × (in_list missing (if unsigned then missing_facts else signed_missing_facts) ≡ true)
    × (c.predicate ≡ "fact-present")
    × (c.expected ≡ missing)
IsNextAction unsigned (use_local_catalog instruction c) =
    IsInstruction instruction
    × IsChecks 1 1 (c ∷ [])
    × (c.predicate ≡ "fact-present")
    × (c.expected ≡ "local-catalog")
IsNextAction unsigned (re_query instruction c) =
    IsInstruction instruction × IsChecks 1 1 (c ∷ []) × (c.predicate ≡ "generation-current")

pub install_action_sound :
    (value : Json) (u : Bool) (a : NextAction) → install_action value ≡ ok a → IsNextAction u a
unfolding install_action
install_action_sound value u a h =
    let (action, _, h1) = bind_ok (exact value _ _) _ h in
    let (digest, e1, h2) = bind_ok (text (get action "artifactDigest") _ _ _) _ h1 in
    let (cs, e2, h3) = bind_ok (checks (get action "checks") _ _) _ h2 in
    let (bound, h4) = require_ok (any (expects_digest digest) cs) _ _ h3 in
    let (_, h5) =
      require_ok
        (equals_text (get action "handoff") "library-install"
          && is_true (get action "localReuseAvailable"))
        _ _ h4 in
    let (instruction, e3, h6) = bind_ok (text (get action "instruction") _ _ _) _ h5 in
    let same : install_and_verify instruction cs digest ≡ a = ok-injective h6 in
    subst (IsNextAction u) same (
      (text-str (get action "instruction") _ _ _ instruction e3).0,
      checks-IsChecks (get action "checks") 1 8 cs e2,
      (text-str (get action "artifactDigest") _ _ _ digest e1).0,
      bound,
    )

pub install_action_complete :
    (instruction : String) (cs : List Check) (digest : String) (u : Bool)
    → IsNextAction u (install_and_verify instruction cs digest)
    → install_action (action_json (install_and_verify instruction cs digest))
      ≡ ok (install_and_verify instruction cs digest)
unfolding install_action exact text
install_action_complete instruction cs digest u (i, c, d, b) =
    rw (d, checks_json-checks 1 8 cs c, b, i)

pub handoff_action_sound :
    (value : Json) (u : Bool) (a : NextAction) → handoff_action value ≡ ok a → IsNextAction u a
unfolding handoff_action
handoff_action_sound value u a h =
    let (action, _, h1) = bind_ok (exact value _ _) _ h in
    let (handoff, e1, h2) = bind_ok (text (get action "handoff") _ _ _) _ h1 in
    let (cs, e2, h3) = bind_ok (checks (get action "checks") _ _) _ h2 in
    let (agreed, h4) =
      require_ok
        (in_list handoff handoffs
          && not (any is_digest_check cs)
          && is_true (get action "localReuseAvailable"))
        _ _ h3 in
    let (instruction, e3, h5) = bind_ok (text (get action "instruction") _ _ _) _ h4 in
    let same : handoff_native_add instruction cs handoff ≡ a = ok-injective h5 in
    subst (IsNextAction u) same (
      (text-str (get action "instruction") _ _ _ instruction e3).0,
      checks-IsChecks (get action "checks") 1 8 cs e2,
      (text-str (get action "handoff") _ _ _ handoff e1).0,
      (and_three agreed).0,
      not-true (and_three agreed).1,
    )

pub handoff_action_complete :
    (instruction : String) (cs : List Check) (handoff : String) (u : Bool)
    → IsNextAction u (handoff_native_add instruction cs handoff)
    → handoff_action (action_json (handoff_native_add instruction cs handoff))
      ≡ ok (handoff_native_add instruction cs handoff)
unfolding handoff_action exact text
handoff_action_complete instruction cs handoff u (i, c, t, l, n) =
    rw (t, checks_json-checks 1 8 cs c, l, n, i)
