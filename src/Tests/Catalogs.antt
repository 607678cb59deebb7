-- ===== src/Tests/Catalogs.antt =====
-- A catalog of two methods, and a request that its objective settles.
use limitlesslibrary.Base.{◌≡◌, refl, String, true, ◌&&◌, leb, ◌==◌, [], ◌∷◌, some, All, codes}
use limitlesslibrary.Catalog.{
  Offer, Capsule, Request, Candidate, candidates, priority, objective_score, selected_candidate,
  choose, winner, sort_by, top_of, offers_of, matches, insert_by, before, keep,
}
use limitlesslibrary.Catalog.Best.{count_of, Eligible}
use limitlesslibrary.Catalog.Selection.{Scores, rivals, selected_candidate-Eligible}

abbrev offer : String → String → Offer
offer id summary = record {
  id = id;
  task_kind = "build";
  priority = 5;
  state = "active";
  allowed_uses = "*" ∷ [];
  tenant_scopes = "public" ∷ [];
  constraints = [];
  toolchain = ("python", "3.12" ∷ []) ∷ [];
  method = some (record { summary = summary; details = [] });
}

abbrev parsing : Capsule
parsing = record { id = "parsing"; title = "A parser"; offers = offer "parse" "parse dates" ∷ [] }

abbrev printing : Capsule
printing = record {
  id = "printing";
  title = "A printer";
  offers = offer "print" "print dates" ∷ [];
}

abbrev request : Request
request = record {
  task_kind = "build";
  requested_use = "internal";
  tenant_scope = "public";
  constraints = [];
  toolchain = ("python", "3.12") ∷ [];
  objective = some "print dates";
}

abbrev printer : Candidate
printer = record { capsule = printing; offer = offer "print" "print dates" }

selects_printer : selected_candidate codes request (parsing ∷ printing ∷ []) ≡ some printer
unfolding selected_candidate choose winner sort_by top_of candidates offers_of matches insert_by
    before keep objective_score
selects_printer = refl

selected_candidate-Eligible_example :
    Eligible request printer
    × Scores (objective_score codes) request.objective printer
    × All
        (λ d. leb (priority d) (priority printer) ≡ true)
        (candidates request (parsing ∷ printing ∷ []))
    × (count_of
          (λ d.
            (priority d == priority printer)
            && rivals (objective_score codes) request.objective printer d)
          (candidates request (parsing ∷ printing ∷ []))
        ≡ 1)
selected_candidate-Eligible_example =
    selected_candidate-Eligible codes request (parsing ∷ printing ∷ []) printer selects_printer
