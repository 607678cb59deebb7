-- ===== src/VersionRange/Order.antt =====
-- The order of version tuples.
use limitlesslibrary.Base.{◌≡◌, refl, true, false, ◌⊎◌, inl, inr, [], ◌∷◌, arith}
use limitlesslibrary.VersionRange.{Version, version_lt, version_eq}

pub version_eq_refl : (v : Version) → version_eq v v ≡ true
unfolding version_eq
version_eq_refl [] = refl
version_eq_refl (x ∷ v) = ground (arith, version_eq_refl v)

pub eq_of_version_eq : (v w : Version) → version_eq v w ≡ true → v ≡ w
unfolding version_eq
eq_of_version_eq [] [] h = refl
eq_of_version_eq [] (y ∷ w) h = ground arith
eq_of_version_eq (x ∷ v) [] h = ground arith
eq_of_version_eq (x ∷ v) (y ∷ w) h = ground (arith, eq_of_version_eq v w)

pub version_lt_irrefl : (v : Version) → version_lt v v ≡ false
unfolding version_lt
version_lt_irrefl [] = refl
version_lt_irrefl (x ∷ v) = ground (arith, version_lt_irrefl v)

pub version_lt_trans :
    (u v w : Version) → version_lt u v ≡ true → version_lt v w ≡ true → version_lt u w ≡ true
unfolding version_lt
version_lt_trans [] [] w h k = ground arith
version_lt_trans [] (y ∷ v) [] h k = ground arith
version_lt_trans [] (y ∷ v) (z ∷ w) h k = refl
version_lt_trans (x ∷ u) [] w h k = ground arith
version_lt_trans (x ∷ u) (y ∷ v) [] h k = ground arith
version_lt_trans (x ∷ u) (y ∷ v) (z ∷ w) h k = ground (arith, version_lt_trans u v w)

-- Any two versions compare one way or are equal.
pub version_lt_total :
    (v w : Version) → (version_lt v w ≡ true) ⊎ ((version_lt w v ≡ true) ⊎ (v ≡ w))
unfolding version_lt
version_lt_total [] [] = inr (inr refl)
version_lt_total [] (y ∷ w) = inl refl
version_lt_total (x ∷ v) [] = inr (inl refl)
version_lt_total (x ∷ v) (y ∷ w) = ground (arith, version_lt_total v w)
