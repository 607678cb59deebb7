-- ===== src/Catalog.antt =====
-- src/limitless_library/catalog.py: which offer `LocalCatalog.query` selects.
pub mod Best
pub mod Selection
use limitlesslibrary.Base.{
  String, str_eq, Bool, true, false, ◌&&◌, ◌||◌, not, if◌then◌else◌, ℕ, ◌+◌, ◌*◌, ltb, leb, ◌==◌,
  List, [], ◌∷◌, ◌++◌, map, length, all, any, Option, none, some, in_list, codes, codes_lt,
}

-- The parts of an offer that the selection reads. `method` has the summary and the texts of
-- the steps and the verification, where it is an object.
pub record Method : Type 0 where
  pub summary : String
  pub details : List String

pub record Offer : Type 0 where
  pub id : String
  pub task_kind : String
  pub priority : ℕ
  pub state : String
  pub allowed_uses : List String
  pub tenant_scopes : List String
  pub constraints : List String
  pub toolchain : List (String × List String)
  pub method : Option Method

pub record Capsule : Type 0 where
  pub id : String
  pub title : String
  pub offers : List Offer

pub record Request : Type 0 where
  pub task_kind : String
  pub requested_use : String
  pub tenant_scope : String
  pub constraints : List String
  pub toolchain : List (String × String)
  pub objective : Option String

pub record Candidate : Type 0 where
  pub capsule : Capsule
  pub offer : Offer

-- `receiver_toolchain.get(name) in allowed`
unfoldable pub has_tool : List (String × String) → String × List String → Bool
has_tool [] wanted = false
has_tool ((name, version) ∷ rest) (wanted, allowed) =
    let later = has_tool rest (wanted, allowed) in
    if str_eq name wanted then in_list version allowed else later

-- `_matches`
unfoldable pub matches : Offer → Request → Bool
unfolding has_tool
matches offer request =
    str_eq offer.task_kind request.task_kind
    && str_eq offer.state "active"
    && (in_list request.requested_use offer.allowed_uses || in_list "*" offer.allowed_uses)
    && (in_list request.tenant_scope offer.tenant_scopes || in_list "*" offer.tenant_scopes)
    && all (λ c. in_list c request.constraints) offer.constraints
    && all (has_tool request.toolchain) offer.toolchain

-- The offers of one capsule that match, and those of all capsules.
unfoldable pub offers_of : Request → Capsule → List Offer → List Candidate
offers_of request capsule [] = []
offers_of request capsule (offer ∷ offers) =
    let rest = offers_of request capsule offers in
    if matches offer request then record { capsule = capsule; offer = offer } ∷ rest else rest

unfoldable pub candidates : Request → List Capsule → List Candidate
candidates request [] = []
candidates request (capsule ∷ capsules) =
    offers_of request capsule capsule.offers ++ candidates request capsules

-- The keys `(-rank, capsule id, offer id)`, in order.
unfoldable pub before : (Candidate → ℕ) → Candidate → Candidate → Bool
unfolding codes_lt
before rank a b =
    ltb (rank b) (rank a)
    || ((rank a == rank b)
        && (codes_lt (codes a.capsule.id) (codes b.capsule.id)
            || (str_eq a.capsule.id b.capsule.id
                && codes_lt (codes a.offer.id) (codes b.offer.id))))

-- A stable sort: an element stays in front of those that are not before it.
unfoldable pub insert_by : (Candidate → ℕ) → Candidate → List Candidate → List Candidate
insert_by rank x [] = x ∷ []
insert_by rank x (y ∷ ys) =
    let rest = insert_by rank x ys in if before rank y x then y ∷ rest else x ∷ y ∷ ys

unfoldable pub sort_by : (Candidate → ℕ) → List Candidate → List Candidate
sort_by rank [] = []
sort_by rank (x ∷ xs) = insert_by rank x (sort_by rank xs)

unfoldable pub keep : (Candidate → Bool) → List Candidate → List Candidate
keep test [] = []
keep test (x ∷ xs) = let rest = keep test xs in if test x then x ∷ rest else rest

abbrev pub priority : Candidate → ℕ
priority c = c.offer.priority

-- The candidates of the highest priority.
unfoldable pub top_of : List Candidate → List Candidate
top_of [] = []
top_of (first ∷ rest) = keep (λ c. priority c == priority first) (first ∷ rest)

abbrev pub single : List Candidate → Option Candidate
single (c ∷ []) = some c
single _ = none

-- `ranked[0]`, where its score is positive and higher than that of `ranked[1]`.
unfoldable pub winner : (Candidate → ℕ) → List Candidate → Option Candidate
winner rank [] = none
winner rank (c ∷ []) = if ltb 0 (rank c) then some c else none
winner rank (c ∷ d ∷ rest) = if ltb 0 (rank c) && ltb (rank d) (rank c) then some c else none

unfoldable pub choose : (String → Candidate → ℕ) → Option String → List Candidate → Option Candidate
choose score none top = single top
choose score (some objective) top = winner (score objective) (sort_by (score objective) top)

abbrev same_word : List ℕ → List ℕ → Bool
same_word [] [] = true
same_word (c ∷ cs) (d ∷ ds) = (c == d) && same_word cs ds
same_word _ _ = false

abbrev has_word : List ℕ → List (List ℕ) → Bool
has_word word words = any (same_word word) words

-- `_SEARCH_NOISE`
abbrev pub search_noise : List (List ℕ)
search_noise = map codes (
    "a" ∷ "about" ∷ "an" ∷ "and" ∷ "for" ∷ "from" ∷ "in" ∷ "into" ∷ "library" ∷ "local" ∷ "method"
    ∷ "of" ∷ "omarchy" ∷ "plugin" ∷ "the" ∷ "to" ∷ "user" ∷ "with" ∷ [])

abbrev is_word_char : ℕ → Bool
is_word_char c = (leb b'a' c && leb c b'z') || (leb b'0' c && leb c b'9')

-- The runs of word characters: `here` is the run so far.
unfoldable pub words_from : List ℕ → List ℕ → List (List ℕ)
words_from here [] = here ∷ []
words_from here (c ∷ cs) =
    let inside = words_from (here ++ (c ∷ [])) cs in
    let outside = words_from [] cs in if is_word_char c then inside else here ∷ outside

-- The terms of a text as a set: each word of two characters or more that is no noise, once.
unfoldable pub terms_of : List (List ℕ) → List (List ℕ)
terms_of [] = []
terms_of (word ∷ words) =
    let rest = terms_of words in
    if ltb 1 (length word) && not (has_word word search_noise) && not (has_word word rest)
    then word ∷ rest
    else rest

-- How many terms two sets share.
unfoldable pub shared : List (List ℕ) → List (List ℕ) → ℕ
shared [] terms = 0
shared (word ∷ words) terms =
    let rest = shared words terms in if has_word word terms then 1 + rest else rest

module _ (lower : String → List ℕ) where
  -- `_search_terms`, where `lower` gives the characters of `value.lower()`
  unfoldable pub search_terms : String → List (List ℕ)
  unfolding words_from terms_of
  search_terms value = terms_of (words_from [] (lower value))

  abbrev details_of : List String → List (List ℕ)
  details_of [] = []
  details_of (text ∷ texts) = search_terms text ++ details_of texts

  abbrev method_score : List (List ℕ) → Option Method → ℕ
  method_score query none = 0
  method_score query (some method) =
      3 * shared query (search_terms method.summary) + shared query (details_of method.details)

  -- `_objective_score`: a term counts once for the details, however many of them have it.
  unfoldable pub objective_score : String → Candidate → ℕ
  unfolding search_terms shared
  objective_score objective c =
      let query = search_terms objective in
      5 * shared query (search_terms c.capsule.title) + method_score query c.offer.method

  -- `query`, up to the candidate that it selects.
  unfoldable pub selected_candidate : Request → List Capsule → Option Candidate
  selected_candidate request capsules =
      choose objective_score request.objective
        (top_of (sort_by priority (candidates request capsules)))
