-- ===== src/VersionRange/Exact.antt =====
-- What a range says, clause by clause, and that the interval parsed from it says the same.
use limitlesslibrary.Base.{
  ℕ, ◌≡◌, refl, Bool, true, false, not, ◌&&◌, ◌||◌, Option, none, some, inl, inr, List, [], ◌∷◌,
  String, str_eq, codes, ltb, length, all, arith, Option-cases,
}
use limitlesslibrary.VersionRange.{
  Version, Bound, Interval, version_lt, version_eq, raise_lower, drop_upper, Operator, at_least,
  more, at_most, less, equal, lower_candidate, upper_candidate, is_empty, tighten, fold_clauses,
  parse_clause, keep_inhabited, is_wildcard, unbounded, split, parse_range,
}
use limitlesslibrary.VersionRange.Order.{
  version_eq_refl, eq_of_version_eq, version_lt_irrefl, version_lt_trans, version_lt_total,
}
use limitlesslibrary.VersionRange.Bounds.{above, below}

-- A version against one clause, read from the operator's meaning.
abbrev pub satisfies : Operator → Version → Version → Bool
satisfies equal v w = version_eq v w
satisfies at_least v w = version_lt v w || version_eq v w
satisfies more v w = version_lt v w
satisfies at_most v w = version_lt w v || version_eq w v
satisfies less v w = version_lt w v

-- A text that is no clause is satisfied by no version.
abbrev pub clause_admits : Version → List ℕ → Bool
clause_admits w raw = elim (parse_clause raw) [
  | none ↦ false
  | some (operator, v) ↦ satisfies operator v w
]

-- The versions that a range text is for: all of them, or those that satisfy every clause.
unfoldable pub admits : String → Version → Bool
admits value w =
    is_wildcard value
    || (not (str_eq value "" || ltb 120 (length (codes value)))
        && all (clause_admits w) (split b',' (codes value)))

abbrev pub contains : Interval → Version → Bool
contains i w = above i.lower w && below i.upper w

-- `None` for an interval is a range with no version in it.
abbrev pub range_contains : Option Interval → Version → Bool
range_contains none w = false
range_contains (some i) w = contains i w

above-raise_lower :
    (a b : Option Bound) (w : Version) → above (raise_lower a b) w ≡ (above a w && above b w)
unfolding raise_lower
above-raise_lower none none w = refl
above-raise_lower (some a) none w = ground arith
above-raise_lower none (some b) w = refl
above-raise_lower (some a) (some b) w = ground (
  arith,
  version_lt_total a.value b.value,
  version_lt_trans a.value b.value w,
  version_lt_trans b.value a.value w,
  version_eq_refl a.value,
  eq_of_version_eq a.value w,
  eq_of_version_eq b.value w,
  eq_of_version_eq b.value a.value,
)

below-drop_upper :
    (a b : Option Bound) (w : Version) → below (drop_upper a b) w ≡ (below a w && below b w)
unfolding drop_upper
below-drop_upper none none w = refl
below-drop_upper (some a) none w = ground arith
below-drop_upper none (some b) w = refl
below-drop_upper (some a) (some b) w = ground (
  arith,
  version_lt_total a.value b.value,
  version_lt_trans w a.value b.value,
  version_lt_trans w b.value a.value,
  version_eq_refl a.value,
  eq_of_version_eq w a.value,
  eq_of_version_eq w b.value,
  eq_of_version_eq b.value a.value,
)

candidates_satisfy :
    (operator : Operator) (v w : Version)
    → (above (lower_candidate operator v) w && below (upper_candidate operator v) w)
      ≡ satisfies operator v w
unfolding lower_candidate upper_candidate
candidates_satisfy equal v w = ground (
  arith,
  version_lt_irrefl v,
  eq_of_version_eq v w,
  eq_of_version_eq w v,
  version_eq_refl v,
  version_lt_trans v w v,
)
candidates_satisfy more v w = ground arith
candidates_satisfy at_least v w = ground arith
candidates_satisfy at_most v w = ground arith
candidates_satisfy less v w = ground arith

contains-tighten :
    (i : Interval) (operator : Operator) (v w : Version)
    → contains (tighten i operator v) w ≡ (contains i w && satisfies operator v w)
unfolding tighten
contains-tighten i operator v w = ground (
  arith,
  above-raise_lower i.lower (lower_candidate operator v) w,
  below-drop_upper i.upper (upper_candidate operator v) w,
  candidates_satisfy operator v w,
)

contains-fold_clauses :
    (raws : List (List ℕ)) (i : Interval) (w : Version)
    → range_contains (fold_clauses raws i) w ≡ (contains i w && all (clause_admits w) raws)
unfolding fold_clauses
contains-fold_clauses [] i w = ground arith
contains-fold_clauses (raw ∷ raws) i w = elim (Option-cases (parse_clause raw)) [
  | inl e ↦ rw (e, range_contains, all) (ground arith)
  | inr ((operator, v), e) ↦
      rw (e, range_contains, all)
        (ground (
          arith,
          contains-fold_clauses raws (tighten i operator v) w,
          contains-tighten i operator v w,
        ))
]

above-is_empty :
    (a b : Option Bound) (w : Version) → is_empty a b ≡ true → (above a w && below b w) ≡ false
unfolding is_empty
above-is_empty none b w h = ground arith
above-is_empty (some a) none w h = ground arith
above-is_empty (some a) (some b) w h = ground (
  arith,
  version_lt_trans a.value w b.value,
  version_lt_trans b.value a.value w,
  version_lt_irrefl b.value,
  version_lt_trans a.value b.value a.value,
  version_lt_irrefl w,
  version_lt_trans b.value w b.value,
  version_lt_irrefl a.value,
  eq_of_version_eq a.value w,
  eq_of_version_eq w b.value,
  eq_of_version_eq a.value b.value,
)

contains-is_empty :
    (i : Interval) (w : Version) → is_empty i.lower i.upper ≡ true → contains i w ≡ false
contains-is_empty i w h = above-is_empty i.lower i.upper w h

contains-keep_inhabited :
    (o : Option Interval) (w : Version) → range_contains (keep_inhabited o) w ≡ range_contains o w
unfolding keep_inhabited
contains-keep_inhabited none w = refl
contains-keep_inhabited (some i) w = ground (arith, contains-is_empty i w)

-- The interval of a range holds exactly the versions that the range's text admits, and a text
-- for which there is no interval admits no version.
pub range_contains-parse_range :
    (value : String) (w : Version) → range_contains (parse_range value) w ≡ admits value w
unfolding parse_range admits
range_contains-parse_range value w = ground (
  arith,
  contains-keep_inhabited (fold_clauses (split b',' (codes value)) unbounded) w,
  contains-fold_clauses (split b',' (codes value)) unbounded w,
)

pub admits-is_wildcard :
    (value : String) (v : Version) → is_wildcard value ≡ true → admits value v ≡ true
unfolding admits
admits-is_wildcard value v h = rw h
