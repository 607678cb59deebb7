-- ===== src/Catalog/Best.antt =====
-- The selected candidate is eligible, and it is the best in one way only.
use limitlesslibrary.Base.{
  ◌≡◌, refl, ap, ◌∙◌, Bool, true, false, ◌&&◌, if◌then◌else◌, ℕ, ◌+◌, ltb, leb, ◌==◌, List, [], ◌∷◌,
  ◌++◌, All, arith, if_intro,
}
use limitlesslibrary.Catalog.{
  Offer, Capsule, Request, Candidate, matches, offers_of, candidates, before, insert_by, sort_by,
  keep,
}

-- How many candidates pass a test.
unfoldable pub count_of : (Candidate → Bool) → List Candidate → ℕ
count_of test [] = 0
count_of test (x ∷ xs) = (if test x then 1 else 0) + count_of test xs

-- The offer of the candidate matches the request.
abbrev pub Eligible : Request → Candidate → Type 0
Eligible request c = matches c.offer request ≡ true

module _ (P : Candidate → Type 0) where
  All-insert_by :
      (rank : Candidate → ℕ) (x : Candidate) (xs : List Candidate)
      → P x
      → All P xs
      → All P (insert_by rank x xs)
  unfolding insert_by
  All-insert_by rank x [] px pxs = (px, pxs)
  All-insert_by rank x (y ∷ ys) px (py, pys) =
      if_intro (All P) (before rank y x) (λ _. (py, All-insert_by rank x ys px pys))
        (λ _. (px, (py, pys)))

  pub All-sort_by :
      (rank : Candidate → ℕ) (xs : List Candidate) → All P xs → All P (sort_by rank xs)
  unfolding sort_by
  All-sort_by rank [] all_of = all_of
  All-sort_by rank (x ∷ xs) (px, pxs) =
      All-insert_by rank x (sort_by rank xs) px (All-sort_by rank xs pxs)

  pub All-keep : (test : Candidate → Bool) (xs : List Candidate) → All P xs → All P (keep test xs)
  unfolding keep
  All-keep test [] all_of = all_of
  All-keep test (x ∷ xs) (px, pxs) =
      if_intro (All P) (test x) (λ _. (px, All-keep test xs pxs)) (λ _. All-keep test xs pxs)

  All-append : (xs ys : List Candidate) → All P xs → All P ys → All P (xs ++ ys)
  All-append [] ys pxs pys = pys
  All-append (x ∷ xs) ys (px, pxs) pys = (px, All-append xs ys pxs pys)

count_of-insert_by :
    (test : Candidate → Bool) (rank : Candidate → ℕ) (x : Candidate) (xs : List Candidate)
    → count_of test (insert_by rank x xs) ≡ count_of test (x ∷ xs)
unfolding count_of insert_by
count_of-insert_by test rank x [] = refl
count_of-insert_by test rank x (y ∷ ys) = let ih = count_of-insert_by test rank x ys in ground arith

pub count_of-sort_by :
    (test : Candidate → Bool) (rank : Candidate → ℕ) (xs : List Candidate)
    → count_of test (sort_by rank xs) ≡ count_of test xs
unfolding count_of sort_by
count_of-sort_by test rank [] = refl
count_of-sort_by test rank (x ∷ xs) =
    count_of-insert_by test rank x (sort_by rank xs)
    ∙ ap (λ n. (if test x then 1 else 0) + n) (count_of-sort_by test rank xs)

Eligible-offers_of :
    (request : Request) (capsule : Capsule) (offers : List Offer)
    → All (Eligible request) (offers_of request capsule offers)
unfolding offers_of
Eligible-offers_of request capsule [] = tt
Eligible-offers_of request capsule (offer ∷ offers) =
    if_intro (All (Eligible request)) (matches offer request)
      (λ yes. (yes, Eligible-offers_of request capsule offers))
      (λ _. Eligible-offers_of request capsule offers)

pub Eligible-candidates :
    (request : Request) (capsules : List Capsule)
    → All (Eligible request) (candidates request capsules)
unfolding candidates
Eligible-candidates request [] = tt
Eligible-candidates request (capsule ∷ capsules) =
    All-append (Eligible request) (offers_of request capsule capsule.offers)
      (candidates request capsules) (Eligible-offers_of request capsule capsule.offers)
      (Eligible-candidates request capsules)

-- Every later candidate has at most the rank of the one before.
abbrev pub Sorted : (Candidate → ℕ) → List Candidate → Type 0
Sorted rank [] = Unit
Sorted rank (x ∷ xs) = All (λ y. leb (rank y) (rank x) ≡ true) xs × Sorted rank xs

pub All-map :
    (P Q : Candidate → Type 0) (f : (c : Candidate) → P c → Q c) (xs : List Candidate)
    → All P xs
    → All Q xs
All-map P Q f [] all_of = tt
All-map P Q f (x ∷ xs) (px, pxs) = (f x px, All-map P Q f xs pxs)

before-leb :
    (rank : Candidate → ℕ) (x y : Candidate) → before rank y x ≡ true → leb (rank x) (rank y) ≡ true
unfolding before
before-leb rank x y h = ground arith

not-before-leb :
    (rank : Candidate → ℕ) (x y : Candidate)
    → before rank y x ≡ false
    → leb (rank y) (rank x) ≡ true
unfolding before
not-before-leb rank x y h = ground arith

pub leb_trans : (a b c : ℕ) → leb a b ≡ true → leb b c ≡ true → leb a c ≡ true
leb_trans a b c h k = ground arith

pub eq_of_same : (m n : ℕ) → (m == n) ≡ true → m ≡ n
eq_of_same m n h = ground arith

Sorted-insert_by :
    (rank : Candidate → ℕ) (x : Candidate) (xs : List Candidate)
    → Sorted rank xs
    → Sorted rank (insert_by rank x xs)
unfolding insert_by
Sorted-insert_by rank x [] sorted = (tt, tt)
Sorted-insert_by rank x (y ∷ ys) (below_y, sorted) =
    if_intro (Sorted rank) (before rank y x)
      (λ yes. (
        All-insert_by (λ z. leb (rank z) (rank y) ≡ true) rank x ys (before-leb rank x y yes)
            below_y,
        Sorted-insert_by rank x ys sorted,
      ))
      (λ no. (
        (
          not-before-leb rank x y no,
          All-map (λ z. leb (rank z) (rank y) ≡ true) (λ z. leb (rank z) (rank x) ≡ true)
              (λ z h. leb_trans (rank z) (rank y) (rank x) h (not-before-leb rank x y no)) ys
              below_y,
        ),
        (below_y, sorted),
      ))

pub Sorted-sort_by : (rank : Candidate → ℕ) (xs : List Candidate) → Sorted rank (sort_by rank xs)
unfolding sort_by
Sorted-sort_by rank [] = tt
Sorted-sort_by rank (x ∷ xs) = Sorted-insert_by rank x (sort_by rank xs) (Sorted-sort_by rank xs)

All-unsort_by :
    (P : Candidate → Type 0) (rank : Candidate → ℕ) (x : Candidate) (xs : List Candidate)
    → All P (insert_by rank x xs)
    → P x × All P xs
unfolding insert_by
All-unsort_by P rank x [] (px, pxs) = (px, pxs)
All-unsort_by P rank x (y ∷ ys) all_of =
    if_intro (λ zs. All P zs → P x × (P y × All P ys)) (before rank y x)
      (λ _ found. (
        (All-unsort_by P rank x ys (found.1)).0,
        (found.0, (All-unsort_by P rank x ys (found.1)).1),
      ))
      (λ _ found. found) all_of

pub All-of_sort_by :
    (P : Candidate → Type 0) (rank : Candidate → ℕ) (xs : List Candidate)
    → All P (sort_by rank xs)
    → All P xs
unfolding sort_by
All-of_sort_by P rank [] all_of = all_of
All-of_sort_by P rank (x ∷ xs) all_of =
    let (px, pxs) = All-unsort_by P rank x (sort_by rank xs) all_of in
    (px, All-of_sort_by P rank xs pxs)

-- Of a sorted list with a lower second rank, only the head has the head's rank.
pub count_of_lower :
    (rank : Candidate → ℕ) (n : ℕ) (xs : List Candidate)
    → All (λ y. ltb (rank y) n ≡ true) xs
    → count_of (λ d. leb n (rank d)) xs ≡ 0
unfolding count_of
count_of_lower rank n [] all_of = refl
count_of_lower rank n (x ∷ xs) (low, lows) = let ih = count_of_lower rank n xs lows in ground arith

pub count_of-keep :
    (test other : Candidate → Bool) (xs : List Candidate)
    → count_of other (keep test xs) ≡ count_of (λ d. test d && other d) xs
unfolding count_of keep
count_of-keep test other [] = refl
count_of-keep test other (x ∷ xs) = let ih = count_of-keep test other xs in ground arith

pub All-kept :
    (test : Candidate → Bool) (xs : List Candidate) → All (λ d. test d ≡ true) (keep test xs)
unfolding keep
All-kept test [] = tt
All-kept test (x ∷ xs) =
    if_intro (All (λ d. test d ≡ true)) (test x) (λ yes. (yes, All-kept test xs))
      (λ _. All-kept test xs)
