-- ===== src/Base/Order.antt =====
-- Texts in order: `<`, `sorted(set(texts))`, and lists that are their own sorted set.
use Prim.Native.Nat.{ℕ}
use Prim.Native.Char.{code}
use Prim.Native.String.{String}
use mathlib.Core.Path.{◌≡◌, refl, sym, subst}
use mathlib.Core.Bool.{Bool, true, false, ◌&&◌, ◌||◌}
use mathlib.Core.List.{List, [], ◌∷◌}
use mathlib.Core.Logic.{inl, inr}
use native.Mathlib.Omega.{arith}
use text.Mathlib.Text.{◌==◌ as str_eq}
use text.Mathlib.TextEquality.{eq_iff, Char-path}
use limitlesslibrary.Base.Tests.{ltb, ◌==◌, if◌then◌else◌, and_parts, Bool-cases}
use limitlesslibrary.Base.Text.{codes}

-- `<` on texts, by code points
unfoldable pub codes_lt : List ℕ → List ℕ → Bool
codes_lt cs [] = false
codes_lt [] (d ∷ ds) = true
codes_lt (c ∷ cs) (d ∷ ds) = ltb c d || ((c == d) && codes_lt cs ds)

abbrev pub text_lt : String → String → Bool
text_lt s t = codes_lt (codes s) (codes t)

-- A text that is there already is not put in again.
unfoldable pub insert_unique : String → List String → List String
insert_unique x [] = x ∷ []
insert_unique x (y ∷ ys) =
    let rest = insert_unique x ys in
    if str_eq x y then y ∷ ys else if text_lt x y then x ∷ y ∷ ys else y ∷ rest

-- `sorted(set(texts))`
unfoldable pub sort_unique : List String → List String
sort_unique [] = []
sort_unique (x ∷ xs) = insert_unique x (sort_unique xs)

abbrev pub texts_eq : List String → List String → Bool
texts_eq [] [] = true
texts_eq (x ∷ xs) (y ∷ ys) = str_eq x y && texts_eq xs ys
texts_eq [] (y ∷ ys) = false
texts_eq (x ∷ xs) [] = false

-- `texts == sorted(set(texts))`
unfoldable pub is_sorted_set : List String → Bool
is_sorted_set xs = texts_eq xs (sort_unique xs)

-- Each text is before the next.
abbrev pub Ascending : List String → Type 0
Ascending [] = Unit
Ascending (x ∷ []) = Unit
Ascending (x ∷ y ∷ ys) = (text_lt x y ≡ true) × Ascending (y ∷ ys)

pub codes_lt_total : (cs ds : List ℕ) → ¬ (cs ≡ ds) → codes_lt cs ds ≡ false → codes_lt ds cs ≡ true
unfolding codes_lt
codes_lt_total [] [] h k = absurd (h refl)
codes_lt_total [] (d ∷ ds) h k = ground arith
codes_lt_total (c ∷ cs) [] h k = refl
codes_lt_total (c ∷ cs) (d ∷ ds) h k = elim (Bool-cases (c == d)) [
  | inl same ↦
      let e : c ≡ d = ground arith in
      let ih = codes_lt_total cs ds (λ tails. h (λ i. e i ∷ tails i)) in ground (arith, ih)
  | inr other ↦ ground arith
]

codes-injective : (s t : String) → codes s ≡ codes t → s ≡ t
codes-injective String.[] String.[] h = refl
codes-injective String.[] (String.◌∷◌ d t) h = ground arith
codes-injective (String.◌∷◌ c s) String.[] h = ground arith
codes-injective (String.◌∷◌ c s) (String.◌∷◌ d t) h =
    let heads : code c ≡ code d = cc in
    let tails : codes s ≡ codes t = cc in
    λ i. String.◌∷◌ (Char-path c d heads i) (codes-injective s t tails i)

text_lt_total : (s t : String) → str_eq s t ≡ false → text_lt s t ≡ false → text_lt t s ≡ true
text_lt_total s t h k =
    codes_lt_total (codes s) (codes t) (λ same. differ ((eq_iff s t).1 (codes-injective s t same)))
      k
  where
    differ : ¬ (str_eq s t ≡ true)
    differ e = ground arith

-- The head of the list with a text put in is the text or the old head.
insert_unique-Ascending :
    (x : String) (xs : List String) → Ascending xs → Ascending (insert_unique x xs)
unfolding insert_unique
insert_unique-Ascending x [] h = tt
insert_unique-Ascending x (y ∷ []) h = let total = text_lt_total x y in ground (arith, total)
insert_unique-Ascending x (y ∷ z ∷ zs) (first, rest) =
    let total = text_lt_total x y in
    let ih = insert_unique-Ascending x (z ∷ zs) rest in ground (arith, total, ih)

sort_unique-Ascending : (xs : List String) → Ascending (sort_unique xs)
unfolding sort_unique
sort_unique-Ascending [] = tt
sort_unique-Ascending (x ∷ xs) =
    insert_unique-Ascending x (sort_unique xs) (sort_unique-Ascending xs)

pub eq_of_texts_eq : (xs ys : List String) → texts_eq xs ys ≡ true → xs ≡ ys
eq_of_texts_eq [] [] h = refl
eq_of_texts_eq [] (y ∷ ys) h = ground arith
eq_of_texts_eq (x ∷ xs) [] h = ground arith
eq_of_texts_eq (x ∷ xs) (y ∷ ys) h =
    let heads : x ≡ y = (eq_iff x y).0 ((and_parts h).0) in
    let tails : xs ≡ ys = eq_of_texts_eq xs ys ((and_parts h).1) in λ i. heads i ∷ tails i

-- A list that is its own sorted set is in strict order.
pub is_sorted_set-Ascending : (xs : List String) → is_sorted_set xs ≡ true → Ascending xs
unfolding is_sorted_set
is_sorted_set-Ascending xs h =
    subst Ascending (sym (eq_of_texts_eq xs (sort_unique xs) h)) (sort_unique-Ascending xs)
