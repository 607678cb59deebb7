-- ===== src/Wire/Checks.antt =====
-- `_checks` and `_locator`.
use limitlesslibrary.Base.{
  ℕ, ◌≡◌, refl, ap, String, ◌<>◌, Bool, true, false, not, ◌&&◌, ◌||◌, List, [], ◌∷◌, map, leb, ◌==◌,
  arith, codes, is_digit, in_list, str_eq, length, all, All, if◌then◌else◌, ok, raised, ◌>>=◌, ◌>>◌,
  require, require_ok, bind_ok, ok-injective, suc,
}
use mathlib.Core.Path.{subst}
use limitlesslibrary.Base.Json.{Json, str, arr, get, list_of, list_of-items_of, object, array}
use limitlesslibrary.Wire.Shape.{
  Checked, exact, text, text-str, is_text, anything, is_digest, is_check_id, is_letter,
}

-- A normalised check.
pub record Check : Type 0 where
  pub id : String
  pub predicate : String
  pub expected : String

abbrev pub check_json : Check → Json
check_json c =
    object (("id", str c.id) ∷ ("predicate", str c.predicate) ∷ ("expected", str c.expected) ∷ [])

-- `PREDICATES`
abbrev pub predicates : List String
predicates =
    "digest-equals" ∷ "symbol-exists" ∷ "file-exists" ∷ "interface-subset" ∷ "fact-present"
    ∷ "generation-current" ∷ []

-- A `digest-equals` check expects a digest.
unfoldable pub fits : String → String → Bool
fits predicate expected = not (str_eq predicate "digest-equals" && not (is_digest (codes expected)))

-- One round of the loop.
unfoldable pub check : Json → Checked Check
check value = do
  item ← exact value ("id" ∷ "predicate" ∷ "expected" ∷ []) "check"
  predicate ← text (get item "predicate") "check predicate" 32 anything
  expected ← text (get item "expected") "check expected" 160 anything
  require (in_list predicate predicates) "check predicate is invalid"
  require (fits predicate expected) "digest-equals expected is invalid"
  id ← text (get item "id") "check id" 32 is_check_id
  ok (record { id = id; predicate = predicate; expected = expected })

unfoldable pub check_loop : List Json → Checked (List Check)
check_loop [] = ok []
check_loop (value ∷ values) = do c ← check value; cs ← check_loop values; ok (c ∷ cs)

-- `_checks`
unfoldable pub checks : Json → ℕ → ℕ → Checked (List Check)
checks (arr values) minimum maximum =
    if leb minimum (length (list_of values)) && leb (length (list_of values)) maximum
    then check_loop (list_of values)
    else raised "checks are invalid"
checks _ minimum maximum = raised "checks are invalid"

abbrev pub checks_json : List Check → Json
checks_json cs = array (map check_json cs)

-- A check that the service may send.
pub record IsCheck (c : Check) : Type 0 where
  pub id : is_text 32 is_check_id c.id ≡ true
  pub predicate : is_text 32 anything c.predicate ≡ true
  pub expected : is_text 160 anything c.expected ≡ true
  pub known : in_list c.predicate predicates ≡ true
  pub fitting : fits c.predicate c.expected ≡ true

check-IsCheck : (value : Json) (c : Check) → check value ≡ ok c → IsCheck c
unfolding check
check-IsCheck value c h =
    let (item, _, h1) = bind_ok (exact value _ _) _ h in
    let (predicate, e1, h2) = bind_ok (text (get item "predicate") _ _ _) _ h1 in
    let (expected, e2, h3) = bind_ok (text (get item "expected") _ _ _) _ h2 in
    let (known, h4) = require_ok (in_list predicate predicates) _ _ h3 in
    let (fitting, h5) = require_ok (fits predicate expected) _ _ h4 in
    let (id, e3, h6) = bind_ok (text (get item "id") _ _ _) _ h5 in
    let made : Check = record { id = id; predicate = predicate; expected = expected } in
    let same : made ≡ c = ok-injective h6 in
    subst IsCheck same (record {
      id = (text-str (get item "id") _ _ _ id e3).0;
      predicate = (text-str (get item "predicate") _ _ _ predicate e1).0;
      expected = (text-str (get item "expected") _ _ _ expected e2).0;
      known = known;
      fitting = fitting;
    })

check_json-check : (c : Check) → IsCheck c → check (check_json c) ≡ ok c
unfolding check exact text
check_json-check c v = rw (v.predicate, v.expected, v.known, v.fitting, v.id)

-- What one round returns is a check that passes again.
pub check-check_json : (value : Json) (c : Check) → check value ≡ ok c → check (check_json c) ≡ ok c
check-check_json value c h = check_json-check c (check-IsCheck value c h)

-- Checks within the bounds that the action sets.
pub record IsChecks (minimum maximum : ℕ) (cs : List Check) : Type 0 where
  pub each : All IsCheck cs
  pub many : leb minimum (length cs) ≡ true
  pub few : leb (length cs) maximum ≡ true

check_loop-IsCheck :
    (values : List Json) (cs : List Check)
    → check_loop values ≡ ok cs
    → All IsCheck cs × (length cs ≡ length values)
unfolding check_loop
check_loop-IsCheck [] cs h =
    let equal : [] ≡ cs = ok-injective h in
    subst (λ t. All IsCheck t × (length t ≡ length {A = Json} [])) equal (tt, refl)
check_loop-IsCheck (value ∷ values) cs h =
    let (c, e, h1) = bind_ok (check value) _ h in
    let (rest, f, h2) = bind_ok (check_loop values) _ h1 in
    let (each, same) = check_loop-IsCheck values rest f in
    let equal : (c ∷ rest) ≡ cs = ok-injective h2 in
    subst (λ t. All IsCheck t × (length t ≡ length (value ∷ values))) equal
      ((check-IsCheck value c e, each), ap suc same)

check_loop-map : (cs : List Check) → All IsCheck cs → check_loop (map check_json cs) ≡ ok cs
unfolding check_loop
check_loop-map [] v = refl
check_loop-map (c ∷ cs) (v, vs) = rw (check_json-check c v, check_loop-map cs vs)

length-map : (cs : List Check) → length (map check_json cs) ≡ length cs
length-map [] = refl
length-map (c ∷ cs) = ap suc (length-map cs)

-- Accepted checks are well formed and within the bounds.
pub checks-IsChecks :
    (value : Json) (minimum maximum : ℕ) (cs : List Check)
    → checks value minimum maximum ≡ ok cs
    → IsChecks minimum maximum cs
unfolding checks
checks-IsChecks (arr values) minimum maximum cs h =
    let run : check_loop (list_of values) ≡ ok cs = ground arith in
    let (each, same) = check_loop-IsCheck (list_of values) cs run in
    record { each = each; many = rw same (ground arith); few = rw same (ground arith) }
checks-IsChecks _ minimum maximum cs h = ground arith

-- Well-formed checks within the bounds are accepted as they are.
pub checks_json-checks :
    (minimum maximum : ℕ) (cs : List Check)
    → IsChecks minimum maximum cs
    → checks (checks_json cs) minimum maximum ≡ ok cs
unfolding checks
checks_json-checks minimum maximum cs v =
    rw (list_of-items_of, length-map, v.many, v.few) (check_loop-map cs v.each)

-- `_LOCATOR`: a dotted name with a symbol, or a path of at most 159 characters. The
-- alternative `none` is such a path.
abbrev is_symbol_char : ℕ → Bool
is_symbol_char c = is_letter c || is_digit c || c == b'_' || c == b'.'

abbrev is_path_char : ℕ → Bool
is_path_char c = is_symbol_char c || c == b'/' || c == b'-'

abbrev is_symbol : List ℕ → Bool
is_symbol [] = false
is_symbol (c ∷ cs) = (is_letter c || c == b'_') && all is_symbol_char cs

-- Name characters up to a colon, and a symbol behind it. No name character is a colon.
is_qualified_rest : List ℕ → Bool
is_qualified_rest [] = false
is_qualified_rest (c ∷ cs) =
    let rest = is_qualified_rest cs in if c == b':' then is_symbol cs else is_symbol_char c && rest

abbrev is_qualified : List ℕ → Bool
is_qualified [] = false
is_qualified (c ∷ cs) = is_letter c && is_qualified_rest cs

abbrev is_short_path : List ℕ → Bool
is_short_path [] = false
is_short_path (c ∷ cs) = (is_letter c || is_digit c) && all is_path_char cs && leb (length cs) 158

unfoldable pub matches_locator : List ℕ → Bool
unfolding is_qualified_rest
matches_locator value = is_qualified value || is_short_path value

-- `".." in value`
unfoldable pub has_dots : List ℕ → Bool
has_dots [] = false
has_dots (c ∷ []) = false
has_dots (c ∷ d ∷ cs) = (c == b'.' && d == b'.') || has_dots (d ∷ cs)

-- `_locator`
unfoldable pub locator : Json → String → Checked String
locator value label = do
  selected ← text value label 160 anything
  require (not (has_dots (codes selected)) && matches_locator (codes selected))
      (label <> " is invalid")
  ok selected

abbrev pub is_locator : String → Bool
is_locator s = is_text 160 anything s && (not (has_dots (codes s)) && matches_locator (codes s))

pub locator-is_locator :
    (value : Json) (label s : String) → locator value label ≡ ok s → is_locator s ≡ true
unfolding locator
locator-is_locator value label s h = ground (arith, text-str value label 160 anything s)

pub is_locator-locator : (label s : String) → is_locator s ≡ true → locator (str s) label ≡ ok s
unfolding locator text
is_locator-locator label s h = ground arith
