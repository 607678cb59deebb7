-- ===== src/Catalog/Selection.antt =====
-- What `query` promises of the candidate that it selects.
use limitlesslibrary.Base.{
  ◌≡◌, refl, sym, ap, ◌∙◌, String, Bool, true, false, ◌&&◌, ℕ, ltb, leb, ◌==◌, List, [], ◌∷◌,
  Option, none, some, All, arith, if◌then◌else◌, and_parts,
}
use mathlib.Core.Path.{subst}
use limitlesslibrary.Catalog.{
  Capsule, Request, Candidate, candidates, sort_by, keep, priority, top_of, winner, choose,
  objective_score, selected_candidate,
}
use limitlesslibrary.Catalog.Best.{
  count_of, Eligible, Sorted, All-sort_by, All-keep, All-kept, All-of_sort_by, All-map,
  count_of-sort_by, count_of-keep, count_of_lower, eq_of_same, Sorted-sort_by, Eligible-candidates,
}

-- Without an objective every candidate rivals the selected one, with one those do that score as
-- high.
abbrev pub rivals : (String → Candidate → ℕ) → Option String → Candidate → Candidate → Bool
rivals score none c d = true
rivals score (some objective) c d = leb (score objective c) (score objective d)

abbrev pub Scores : (String → Candidate → ℕ) → Option String → Candidate → Type 0
Scores score none c = Unit
Scores score (some objective) c = ltb 0 (score objective c) ≡ true

lower_than : (a b n : ℕ) → leb a b ≡ true → ltb b n ≡ true → ltb a n ≡ true
lower_than a b n h k = ground arith

some-injective : (a c : Candidate) → ◌≡◌ {A = Option Candidate} (some a) (some c) → a ≡ c
some-injective a c h = ap (λ o. elim o [ some v ↦ v | none ↦ a ]) h

guarded_some :
    (b : Bool) (a c : Candidate) → (if b then some a else none) ≡ some c → (b ≡ true) × (a ≡ c)
guarded_some true a c h = (refl, some-injective a c h)
guarded_some false a c h = ground arith

-- What is said of the head of the ranks.
abbrev Wins : (Candidate → Type 0) → (Candidate → ℕ) → List Candidate → Candidate → Type 0
Wins P rank xs c = P c × (ltb 0 (rank c) ≡ true) × (count_of (λ d. leb (rank c) (rank d)) xs ≡ 1)

head-Wins :
    (P : Candidate → Type 0) (rank : Candidate → ℕ) (x : Candidate) (xs : List Candidate)
    → P x
    → ltb 0 (rank x) ≡ true
    → All (λ z. ltb (rank z) (rank x) ≡ true) xs
    → Wins P rank (x ∷ xs) x
unfolding count_of
head-Wins P rank x xs px positive lows =
    let none_else = count_of_lower rank (rank x) xs lows in (px, positive, ground arith)

winner-Wins :
    (P : Candidate → Type 0) (rank : Candidate → ℕ) (xs : List Candidate) (c : Candidate)
    → Sorted rank xs
    → All P xs
    → winner rank xs ≡ some c
    → Wins P rank xs c
unfolding winner
winner-Wins P rank [] c sorted all_of h = ground arith
winner-Wins P rank (x ∷ []) c sorted all_of h =
    let (positive, same) = guarded_some (ltb 0 (rank x)) x c h in
    subst (Wins P rank (x ∷ [])) same (head-Wins P rank x [] (all_of.0) positive tt)
winner-Wins P rank (x ∷ y ∷ xs) c sorted all_of h =
    let (passed, same) = guarded_some (ltb 0 (rank x) && ltb (rank y) (rank x)) x c h in
    let (positive, low) = and_parts passed in
    subst (Wins P rank (x ∷ y ∷ xs)) same (
      head-Wins P rank x (y ∷ xs) (all_of.0) positive (
        low,
        All-map (λ z. leb (rank z) (rank y) ≡ true) (λ z. ltb (rank z) (rank x) ≡ true)
            (λ z k. lower_than (rank z) (rank y) (rank x) k low) xs (sorted.1.0),
      ))

choose-Scores :
    (P : Candidate → Type 0) (score : String → Candidate → ℕ) (objective : Option String)
    (top : List Candidate) (c : Candidate)
    → All P top
    → choose score objective top ≡ some c
    → P c × Scores score objective c × (count_of (rivals score objective c) top ≡ 1)
unfolding choose count_of
choose-Scores P score none [] c all_of h = ground arith
choose-Scores P score none (x ∷ []) c all_of h =
    subst (λ d. P d × Unit × (count_of (λ e. true) (x ∷ []) ≡ 1)) (some-injective x c h)
      (all_of.0, tt, refl)
choose-Scores P score none (x ∷ y ∷ xs) c all_of h = ground arith
choose-Scores P score (some o) top c all_of h =
    let (pc, scores, one) =
      winner-Wins P (score o) (sort_by (score o) top) c (Sorted-sort_by (score o) top)
        (All-sort_by P (score o) top all_of) h in
    (pc, scores, sym (count_of-sort_by (λ d. leb (score o c) (score o d)) (score o) top) ∙ one)

leb_refl : (n : ℕ) → leb n n ≡ true
leb_refl n = ground arith

-- The candidates of the highest priority, for a sorted list.
top_of-rivals :
    (P : Candidate → Type 0) (score : String → Candidate → ℕ) (objective : Option String)
    (xs : List Candidate) (c : Candidate)
    → Sorted priority xs
    → All P xs
    → choose score objective (top_of xs) ≡ some c
    → P c
      × Scores score objective c
      × All (λ d. leb (priority d) (priority c) ≡ true) xs
      × (count_of (λ d. (priority d == priority c) && rivals score objective c d) xs ≡ 1)
unfolding top_of choose winner sort_by
top_of-rivals P score none [] c sorted all_of h = ground arith
top_of-rivals P score (some o) [] c sorted all_of h = ground arith
top_of-rivals P score objective (x ∷ xs) c sorted all_of h =
    let test : Candidate → Bool = (λ d. priority d == priority x) in
    let kept = keep test (x ∷ xs) in
    let (pc, scores, one) =
      choose-Scores P score objective kept c (All-keep P test (x ∷ xs) all_of) h in
    let (as_high, _, _) =
      choose-Scores (λ d. test d ≡ true) score objective kept c (All-kept test (x ∷ xs)) h in
    let same = sym (eq_of_same (priority c) (priority x) as_high) in
    (
      pc,
      scores,
      subst (λ n. All (λ d. leb (priority d) n ≡ true) (x ∷ xs)) same
          (leb_refl (priority x), sorted.0),
      subst (λ n. count_of (λ d. (priority d == n) && rivals score objective c d) (x ∷ xs) ≡ 1) same
          (sym (count_of-keep test (rivals score objective c) (x ∷ xs)) ∙ one),
    )

module _ (lower : String → List ℕ) where
  -- If `query` selects a candidate, it matches the request, no matching candidate of the catalog has
  -- a higher priority, and it is alone: without an objective no other has its priority, and with
  -- one its score is positive and no other of its priority scores as high.
  pub selected_candidate-Eligible :
      (request : Request) (capsules : List Capsule) (c : Candidate)
      → selected_candidate lower request capsules ≡ some c
      → Eligible request c
        × Scores (objective_score lower) request.objective c
        × All (λ d. leb (priority d) (priority c) ≡ true) (candidates request capsules)
        × (count_of
              (λ d.
                (priority d == priority c) && rivals (objective_score lower) request.objective c d)
              (candidates request capsules)
            ≡ 1)
  unfolding selected_candidate
  selected_candidate-Eligible request capsules c h =
      let all = candidates request capsules in
      let (eligible, scores, highest, one) =
        top_of-rivals (Eligible request) (objective_score lower) request.objective
          (sort_by priority all) c (Sorted-sort_by priority all)
          (All-sort_by (Eligible request) priority all (Eligible-candidates request capsules)) h in
      (
        eligible,
        scores,
        All-of_sort_by (λ d. leb (priority d) (priority c) ≡ true) priority all highest,
        sym (
              count_of-sort_by
                (λ d.
                  (priority d == priority c)
                  && rivals (objective_score lower) request.objective c d)
                priority all)
            ∙ one,
      )
