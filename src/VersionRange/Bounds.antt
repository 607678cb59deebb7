-- ===== src/VersionRange/Bounds.antt =====
-- What a bound lets through, and the comparison of two bounds.
use limitlesslibrary.Base.{◌≡◌, refl, Bool, true, ◌&&◌, ◌||◌, Option, none, some, arith}
use limitlesslibrary.VersionRange.{
  Version, Bound, version_lt, version_eq, lower_covers, upper_covers,
}
use limitlesslibrary.VersionRange.Order.{
  version_eq_refl, eq_of_version_eq, version_lt_trans, version_lt_total,
}

abbrev pub above : Option Bound → Version → Bool
above none v = true
above (some b) v = version_lt b.value v || (version_eq b.value v && b.inclusive)

abbrev pub below : Option Bound → Version → Bool
below none v = true
below (some b) v = version_lt v b.value || (version_eq v b.value && b.inclusive)

pub above-covers :
    (s r : Option Bound) (v : Version)
    → lower_covers s r ≡ true
    → above r v ≡ true
    → above s v ≡ true
unfolding lower_covers
above-covers none r v c h = refl
above-covers (some s) none v c h = ground arith
above-covers (some s) (some r) v c h = ground (
  arith,
  version_lt_total s.value r.value,
  version_lt_trans s.value r.value v,
  version_eq_refl s.value,
  eq_of_version_eq r.value v,
  eq_of_version_eq s.value r.value,
)

pub below-covers :
    (s r : Option Bound) (v : Version)
    → upper_covers s r ≡ true
    → below r v ≡ true
    → below s v ≡ true
unfolding upper_covers
below-covers none r v c h = refl
below-covers (some s) none v c h = ground arith
below-covers (some s) (some r) v c h = ground (
  arith,
  version_lt_total s.value r.value,
  version_lt_trans v r.value s.value,
  version_eq_refl s.value,
  eq_of_version_eq v r.value,
  eq_of_version_eq s.value r.value,
)
