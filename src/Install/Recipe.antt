-- ===== src/Install/Recipe.antt =====
-- The records that the installer reads, once their JSON schemas have accepted them, and
-- `validate_recipe`.
use limitlesslibrary.Base.{
  ℕ, String, ◌<>◌, str_eq, Bool, true, not, ◌&&◌, ◌||◌, Option, List, [], ◌∷◌, ◌++◌, map, in_list,
  if◌then◌else◌, any, all, ◌==◌, codes, Outcome, ok, raised, ◌>>=◌, ◌>>◌, require, suc,
}
use limitlesslibrary.Receiver.Tree.{Tree}
use limitlesslibrary.Receiver.Paths.{
  Failure, adoption_error, catalog_error, contract_error, relative_path, regular_file_under,
}

pub record FileEntry : Type 0 where
  pub source : String
  pub digest : String

pub record Mapping : Type 0 where
  pub source : String
  pub target : String

pub record Verifier : Type 0 where
  pub id : String
  pub kind : String
  pub path : String
  pub digest : String
  pub argv : List String

pub record Recipe : Type 0 where
  pub recipe_digest : String
  pub capsule_digest : String
  pub offer_id : String
  pub mappings : List Mapping
  pub verifiers : List Verifier

-- The selected offer of a decision.
pub record Selected : Type 0 where
  pub capsule_digest : String
  pub offer_id : String
  pub files : List FileEntry

pub record Decision : Type 0 where
  pub decision : String
  pub treatment : String
  pub decision_digest : String
  pub selected : Option Selected

-- What a verifier reports.
pub record VerifierResult : Type 0 where
  pub verifier_id : String
  pub kind : String
  pub asset_digest : String

-- `len(xs) == len(set(xs))`
unfoldable pub all_distinct : List String → Bool
all_distinct [] = true
all_distinct (x ∷ xs) = not (in_list x xs) && all_distinct xs

-- `xs.count(x)`
unfoldable pub count : String → List String → ℕ
count x [] = 0
count x (y ∷ ys) = if str_eq x y then suc (count x ys) else count x ys

-- `sorted(xs) == sorted(ys)`: each text comes as often in both.
unfoldable pub same_items : List String → List String → Bool
unfolding count
same_items xs ys = all (λ x. count x xs == count x ys) (xs ++ ys)

-- An exception of the path helpers, raised again as an `AdoptionError`.
abbrev pub as_adoption {ℓ} : {A : Type ℓ} → Outcome Failure A → Outcome Failure A
as_adoption (raised (contract_error message)) = raised (adoption_error message)
as_adoption o = o

-- A `CatalogError` of the decision's validation, raised again as an `AdoptionError`.
abbrev pub as_undecided {ℓ} : {A : Type ℓ} → Outcome Failure A → Outcome Failure A
as_undecided (raised (catalog_error message)) = raised (adoption_error message)
as_undecided o = o

abbrev is_brace : ℕ → Bool
is_brace c = c == b'{' || c == b'}'

abbrev supported_argument : String → Bool
supported_argument item =
    not (any is_brace (codes item)) || in_list item ("{python}" ∷ "{receiver}" ∷ [])

valid_mappings : List Mapping → Outcome Failure (Unit {0})
valid_mappings [] = ok tt
valid_mappings (mapping ∷ rest) = do
  _ ← as_adoption (relative_path mapping.source "mapping source")
  _ ← as_adoption (relative_path mapping.target "mapping target")
  valid_mappings rest

module _ (digest : String → String) (recipe_digest_of : Recipe → String) (tree : Tree) where
  valid_verifier : Verifier → Outcome Failure (Unit {0})
  valid_verifier verifier = do
    content ← as_adoption (regular_file_under tree verifier.path "verifier source")
    require (str_eq (digest content) verifier.digest)
        (adoption_error ("verifier bytes differ: " <> verifier.id))
    require (all supported_argument verifier.argv)
        (adoption_error ("verifier " <> verifier.id <> " uses an unsupported argv placeholder"))

  valid_verifiers : List Verifier → Outcome Failure (Unit {0})
  valid_verifiers [] = ok tt
  valid_verifiers (verifier ∷ rest) = do valid_verifier verifier; valid_verifiers rest

  -- `validate_recipe`, behind the check of the recipe's schema.
  unfoldable pub validate_recipe : Recipe → Outcome Failure (Unit {0})
  unfolding valid_mappings valid_verifiers valid_verifier
  validate_recipe recipe = do
    require (str_eq recipe.recipe_digest (recipe_digest_of recipe))
        (adoption_error "recipeDigest does not bind the exact recipe")
    require
        (all_distinct (map (λ m. m.source) recipe.mappings)
          && all_distinct (map (λ m. m.target) recipe.mappings))
        (adoption_error "recipe mappings must have unique sources and targets")
    require (all_distinct (map (λ v. v.id) recipe.verifiers))
        (adoption_error "recipe verifier IDs must be unique")
    require
        (count "adherence" (map (λ v. v.kind) recipe.verifiers) == 1
          && in_list "obligation" (map (λ v. v.kind) recipe.verifiers))
        (adoption_error
          "recipe requires exactly one adherence verifier and at least one obligation verifier")
    valid_mappings recipe.mappings
    valid_verifiers recipe.verifiers
