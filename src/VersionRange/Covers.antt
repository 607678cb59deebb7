-- ===== src/VersionRange/Covers.antt =====
-- What `version_range_covers` promises about the versions that the two ranges admit.
use limitlesslibrary.Base.{
  ◌≡◌, ◌∙◌, sym, true, false, Option, none, some, inl, inr, String, str_eq, eq_iff, codes, arith,
  Bool-cases,
}
use limitlesslibrary.VersionRange.{
  Version, Bound, Interval, lower_covers, upper_covers, is_empty, fold_clauses, keep_inhabited,
  is_wildcard, unbounded, split, parse_range, version_range_covers, interval_covers,
}
use limitlesslibrary.VersionRange.Order.{
  version_eq_refl, eq_of_version_eq, version_lt_irrefl, version_lt_trans, version_lt_total,
}
use limitlesslibrary.VersionRange.Bounds.{above, below, above-covers, below-covers}
use limitlesslibrary.VersionRange.Exact.{
  admits, contains, range_contains, range_contains-parse_range, admits-is_wildcard,
}

interval_covers_sound :
    (s r : Option Interval) (v : Version)
    → interval_covers s r ≡ true
    → range_contains r v ≡ true
    → range_contains s v ≡ true
unfolding interval_covers
interval_covers_sound none r v c h = ground arith
interval_covers_sound (some s) none v c h = ground arith
interval_covers_sound (some s) (some r) v c h =
    ground (arith, above-covers s.lower r.lower v, below-covers s.upper r.upper v)

-- If `version_range_covers` says that the supported range covers the required one, then every
-- version that the required range admits is admitted by the supported range.
pub version_range_covers_sound :
    (supported required : String) (v : Version)
    → version_range_covers supported required ≡ true
    → admits required v ≡ true
    → admits supported v ≡ true
unfolding version_range_covers
version_range_covers_sound supported required v c h =
    elim (Bool-cases (str_eq supported required)) [
      | inl same ↦ rw ((eq_iff supported required).0 same) h
      | inr differ ↦ elim (Bool-cases (is_wildcard supported)) [
        | inl wild ↦ admits-is_wildcard supported v wild
        | inr plain ↦
            sym (range_contains-parse_range supported v)
            ∙ interval_covers_sound (parse_range supported) (parse_range required) v
                (rw (differ, plain) at c) (range_contains-parse_range required v ∙ h)
      ]
    ]

-- A closed interval that has a version in it holds its two ends.
closed_ends :
    (a b : Bound)
    → is_empty (some a) (some b) ≡ false
    → a.inclusive ≡ true
    → b.inclusive ≡ true
    → (above (some a) b.value ≡ true) × (below (some b) a.value ≡ true)
unfolding is_empty
closed_ends a b h p q =
    ground
      (arith, version_lt_total a.value b.value, version_eq_refl a.value, version_eq_refl b.value)

lower_misses :
    (s : Option Bound) (a : Bound)
    → lower_covers s (some a) ≡ false
    → a.inclusive ≡ true
    → above s a.value ≡ false
unfolding lower_covers
lower_misses none a h p = ground arith
lower_misses (some s) a h p = ground (
  arith,
  version_lt_trans a.value s.value a.value,
  version_lt_irrefl a.value,
  eq_of_version_eq s.value a.value,
)

upper_misses :
    (s : Option Bound) (b : Bound)
    → upper_covers s (some b) ≡ false
    → b.inclusive ≡ true
    → below s b.value ≡ false
unfolding upper_covers
upper_misses none b h p = ground arith
upper_misses (some s) b h p = ground (
  arith,
  version_lt_trans b.value s.value b.value,
  version_lt_irrefl b.value,
  eq_of_version_eq s.value b.value,
  eq_of_version_eq b.value s.value,
  version_eq_refl b.value,
)

interval_misses :
    (s r : Interval) (a b : Bound)
    → r.lower ≡ some a
    → a.inclusive ≡ true
    → r.upper ≡ some b
    → b.inclusive ≡ true
    → is_empty r.lower r.upper ≡ false
    → interval_covers (some s) (some r) ≡ false
    → (w : Version) × (contains r w ≡ true) × (contains s w ≡ false)
unfolding interval_covers
interval_misses s r a b ra p rb q inhabited c =
    let closed : is_empty (some a) (some b) ≡ false = rw (← ra, ← rb) inhabited in
    elim (Bool-cases (lower_covers s.lower (some a))) [
      | inl l ↦
          let u : upper_covers s.upper (some b) ≡ false = rw (ra, rb, l) at c in
          (
            b.value,
            rw (ra, rb) (ground (arith, closed_ends a b closed p q, version_eq_refl b.value)),
            ground (arith, upper_misses s.upper b u q),
          )
      | inr l ↦ (
        a.value,
        rw (ra, rb) (ground (arith, closed_ends a b closed p q, version_eq_refl a.value)),
        ground (arith, lower_misses s.lower a l p),
      )
    ]

keep_inhabited-is_empty :
    (o : Option Interval) (j : Interval)
    → keep_inhabited o ≡ some j
    → is_empty j.lower j.upper ≡ false
unfolding keep_inhabited
keep_inhabited-is_empty none j h = ground arith
keep_inhabited-is_empty (some i) j h = ground arith

parse_range-is_empty :
    (value : String) (j : Interval) → parse_range value ≡ some j → is_empty j.lower j.upper ≡ false
unfolding parse_range
parse_range-is_empty value j h =
    ground (arith, keep_inhabited-is_empty (fold_clauses (split b',' (codes value)) unbounded) j)

-- If both ranges parse, the required one has an inclusive lower and an inclusive upper bound, and
-- `version_range_covers` says that it is not covered, then some version is admitted by the
-- required range and not by the supported one.
pub version_range_covers_complete :
    (supported required : String) (i j : Interval) (a b : Bound)
    → parse_range supported ≡ some i
    → parse_range required ≡ some j
    → j.lower ≡ some a
    → a.inclusive ≡ true
    → j.upper ≡ some b
    → b.inclusive ≡ true
    → version_range_covers supported required ≡ false
    → (w : Version) × (admits required w ≡ true) × (admits supported w ≡ false)
unfolding version_range_covers
version_range_covers_complete supported required i j a b si rj ja p jb q c =
    let shut : interval_covers (parse_range supported) (parse_range required) ≡ false =
      ground arith in
    let missed : interval_covers (some i) (some j) ≡ false = rw (si, rj) at shut in
    let (w, inside, outside) =
      interval_misses i j a b ja p jb q (parse_range-is_empty required j rj) missed in
    (
      w,
      sym (range_contains-parse_range required w) ∙ rw rj inside,
      sym (range_contains-parse_range supported w) ∙ rw si outside,
    )
