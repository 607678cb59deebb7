-- ===== src/Tests/Ranges.antt =====
-- Version ranges at concrete texts.
use limitlesslibrary.Base.{ℕ, ◌≡◌, refl, Bool, true, false, some, [], ◌∷◌}
use limitlesslibrary.VersionRange.{
  Version, Bound, Interval, version_range_covers, parse_range, version_lt, version_eq,
  interval_covers,
}
use limitlesslibrary.VersionRange.Exact.{admits, range_contains, range_contains-parse_range}
use limitlesslibrary.VersionRange.Covers.{version_range_covers_sound, version_range_covers_complete}

abbrev release : Version
release = 1 ∷ 4 ∷ 2 ∷ 0 ∷ []

covers_runs : version_range_covers ">=1.2, <2" "1.4.2" ≡ true
unfolding version_range_covers parse_range interval_covers version_lt version_eq
covers_runs = refl

covers_not : version_range_covers ">=1.2,<2" ">1.1,<=2" ≡ false
unfolding version_range_covers parse_range interval_covers version_lt version_eq
covers_not = refl

malformed : version_range_covers "> 1.1" "1.4" ≡ false
unfolding version_range_covers parse_range interval_covers version_lt version_eq
malformed = refl

admits_runs : admits "1.4.2" release ≡ true
unfolding admits parse_range version_lt version_eq
admits_runs = refl

version_range_covers_sound_example : admits ">=1.2, <2" release ≡ true
version_range_covers_sound_example =
    version_range_covers_sound ">=1.2, <2" "1.4.2" release covers_runs admits_runs

range_contains-parse_range_example :
    range_contains (parse_range ">=1.2, <2") release ≡ admits ">=1.2, <2" release
range_contains-parse_range_example = range_contains-parse_range ">=1.2, <2" release

abbrev bound : ℕ → ℕ → Bool → Bound
bound major minor inclusive = record { value = major ∷ minor ∷ 0 ∷ 0 ∷ []; inclusive = inclusive }

abbrev supported : Interval
supported = record { lower = some (bound 1 2 true); upper = some (bound 2 0 false) }

abbrev required : Interval
required = record { lower = some (bound 1 1 true); upper = some (bound 1 9 true) }

parse_supported : parse_range ">=1.2,<2" ≡ some supported
unfolding parse_range version_lt version_eq
parse_supported = refl

parse_required : parse_range ">=1.1,<=1.9" ≡ some required
unfolding parse_range version_lt version_eq
parse_required = refl

not_covered : version_range_covers ">=1.2,<2" ">=1.1,<=1.9" ≡ false
unfolding version_range_covers parse_range interval_covers version_lt version_eq
not_covered = refl

version_range_covers_complete_example :
    (w : Version) × (admits ">=1.1,<=1.9" w ≡ true) × (admits ">=1.2,<2" w ≡ false)
version_range_covers_complete_example =
    version_range_covers_complete ">=1.2,<2" ">=1.1,<=1.9" supported required (bound 1 1 true)
      (bound 1 9 true) parse_supported parse_required refl refl refl refl not_covered
