-- ===== src/VersionRange.antt =====
-- The version ranges of `src/limitless_library/_service_support.py`: clauses, intervals, and the
-- test whether one range covers another.
mod Order
mod Bounds
pub mod Exact
pub mod Covers
use limitlesslibrary.Base.{
  ℕ, ◌+◌, ◌-◌, ◌*◌, ◌≡◌, refl, Bool, true, false, not, ◌&&◌, ◌||◌, Option, none, some, List, [],
  ◌∷◌, map, String, str_eq, codes, is_digit, ltb, leb, ◌==◌, if◌then◌else◌, strip, length, all,
}

-- A tuple of numbers, compared as Python compares tuples.
abbrev pub Version : Type 0
Version = List ℕ

unfoldable pub version_lt : Version → Version → Bool
version_lt [] [] = false
version_lt [] (y ∷ ys) = true
version_lt (x ∷ xs) [] = false
version_lt (x ∷ xs) (y ∷ ys) = ltb x y || (x == y && version_lt xs ys)

unfoldable pub version_eq : Version → Version → Bool
version_eq [] [] = true
version_eq [] (y ∷ ys) = false
version_eq (x ∷ xs) [] = false
version_eq (x ∷ xs) (y ∷ ys) = x == y && version_eq xs ys

-- `_Bound` and `_Interval`
pub record Bound : Type 0 where
  pub value : Version
  pub inclusive : Bool

pub record Interval : Type 0 where
  pub lower : Option Bound
  pub upper : Option Bound

-- The operators of `_CLAUSE`; `=` and no operator are read as `==`.
pub data Operator : Type 0 where
  at_least more at_most less equal : Operator

-- `text.split(mark)`
put_in_front : Bool → ℕ → List (List ℕ) → List (List ℕ)
put_in_front true c parts = [] ∷ parts
put_in_front false c [] = (c ∷ []) ∷ []
put_in_front false c (part ∷ parts) = (c ∷ part) ∷ parts

unfoldable pub split : ℕ → List ℕ → List (List ℕ)
unfolding put_in_front
split mark [] = [] ∷ []
split mark (c ∷ cs) = put_in_front (c == mark) c (split mark cs)

-- The operator in front of a clause, and the rest.
operator_of : List ℕ → Operator × List ℕ
operator_of (c ∷ d ∷ rest) =
    if c == b'>'
    then (if d == b'=' then (at_least, rest) else (more, d ∷ rest))
    else if c == b'<'
    then (if d == b'=' then (at_most, rest) else (less, d ∷ rest))
    else if c == b'='
    then (if d == b'=' then (equal, rest) else (equal, d ∷ rest))
    else (equal, c ∷ d ∷ rest)
operator_of text = (equal, text)

-- `int(part)`, for a part of digits
number_from : ℕ → List ℕ → ℕ
number_from n [] = n
number_from n (c ∷ cs) = number_from (n * 10 + (c - b'0')) cs

is_number : List ℕ → Bool
is_number [] = false
is_number (c ∷ cs) = is_digit c && all is_digit cs

-- `_version`: the numbers of the parts, with zeros up to four.
version_of : List (List ℕ) → Version
unfolding number_from
version_of [] = 0 ∷ 0 ∷ 0 ∷ 0 ∷ []
version_of (a ∷ []) = number_from 0 a ∷ 0 ∷ 0 ∷ 0 ∷ []
version_of (a ∷ b ∷ []) = number_from 0 a ∷ number_from 0 b ∷ 0 ∷ 0 ∷ []
version_of (a ∷ b ∷ c ∷ []) = number_from 0 a ∷ number_from 0 b ∷ number_from 0 c ∷ 0 ∷ []
version_of parts = map (number_from 0) parts

-- `_CLAUSE.fullmatch(raw.strip())`, with the operator and the version that it finds.
unfoldable pub parse_clause : List ℕ → Option (Operator × Version)
unfolding strip operator_of split is_number version_of
parse_clause raw =
    let (operator, rest) = operator_of (strip raw) in
    let parts = split b'.' rest in
    if all is_number parts && leb (length parts) 4 then some (operator, version_of parts) else none

lower_candidate : Operator → Version → Option Bound
lower_candidate equal v = some (record { value = v; inclusive = true })
lower_candidate more v = some (record { value = v; inclusive = false })
lower_candidate at_least v = some (record { value = v; inclusive = true })
lower_candidate at_most v = none
lower_candidate less v = none

upper_candidate : Operator → Version → Option Bound
upper_candidate equal v = some (record { value = v; inclusive = true })
upper_candidate more v = none
upper_candidate at_least v = none
upper_candidate at_most v = some (record { value = v; inclusive = true })
upper_candidate less v = some (record { value = v; inclusive = false })

-- The bound kept of the one so far and a candidate.
raise_lower : Option Bound → Option Bound → Option Bound
raise_lower lower none = lower
raise_lower none (some b) = some b
raise_lower (some a) (some b) =
    if version_lt a.value b.value || (version_eq b.value a.value && not b.inclusive)
    then some b
    else some a

drop_upper : Option Bound → Option Bound → Option Bound
drop_upper upper none = upper
drop_upper none (some b) = some b
drop_upper (some a) (some b) =
    if version_lt b.value a.value || (version_eq b.value a.value && not b.inclusive)
    then some b
    else some a

tighten : Interval → Operator → Version → Interval
unfolding lower_candidate upper_candidate raise_lower drop_upper
tighten i operator v = record {
  lower = raise_lower i.lower (lower_candidate operator v);
  upper = drop_upper i.upper (upper_candidate operator v);
}

-- The loop over the clauses.
fold_clauses : List (List ℕ) → Interval → Option Interval
fold_clauses [] i = some i
fold_clauses (raw ∷ rest) i = elim (parse_clause raw) [
  | none ↦ none
  | some (operator, v) ↦ fold_clauses rest (tighten i operator v)
]

-- No version can lie between the bounds.
is_empty : Option Bound → Option Bound → Bool
is_empty (some a) (some b) =
    version_lt b.value a.value || (version_eq a.value b.value && not (a.inclusive && b.inclusive))
is_empty lower upper = false

keep_inhabited : Option Interval → Option Interval
unfolding is_empty
keep_inhabited none = none
keep_inhabited (some i) = if is_empty i.lower i.upper then none else some i

unfoldable pub is_wildcard : String → Bool
is_wildcard value = str_eq value "*" || str_eq value "any"

abbrev pub unbounded : Interval
unbounded = record { lower = none; upper = none }

-- `_parse_range`
unfoldable pub parse_range : String → Option Interval
unfolding is_wildcard fold_clauses keep_inhabited tighten parse_clause
parse_range value =
    if is_wildcard value
    then some unbounded
    else if str_eq value "" || ltb 120 (length (codes value))
    then none
    else keep_inhabited (fold_clauses (split b',' (codes value)) unbounded)

pub lower_covers : Option Bound → Option Bound → Bool
lower_covers none required = true
lower_covers (some s) none = false
lower_covers (some s) (some r) =
    not
      (version_lt r.value s.value || (version_eq s.value r.value && r.inclusive && not s.inclusive))

pub upper_covers : Option Bound → Option Bound → Bool
upper_covers none required = true
upper_covers (some s) none = false
upper_covers (some s) (some r) =
    not
      (version_lt s.value r.value || (version_eq s.value r.value && r.inclusive && not s.inclusive))

unfoldable pub interval_covers : Option Interval → Option Interval → Bool
unfolding lower_covers upper_covers
interval_covers (some s) (some r) = lower_covers s.lower r.lower && upper_covers s.upper r.upper
interval_covers s r = false

-- `version_range_covers`
unfoldable pub version_range_covers : String → String → Bool
version_range_covers supported required =
    str_eq supported required
    || is_wildcard supported
    || interval_covers (parse_range supported) (parse_range required)
