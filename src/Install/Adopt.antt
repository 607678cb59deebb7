-- ===== src/Install/Adopt.antt =====
-- `adopt_exact_component`. What it calls outside the installer is a parameter: the digests, the
-- catalog, the verifiers in their sandbox, and the writing of the receipt.
use limitlesslibrary.Base.{
  String, ◌<>◌, str_eq, Bool, true, false, not, ◌&&◌, ◌||◌, Option, none, some, List, [], ◌∷◌, map,
  in_list, if◌then◌else◌, any, Outcome, ok, raised, require,
}
use limitlesslibrary.Base as B
use limitlesslibrary.Receiver.Tree.{FilePath, file, Tree, node_at}
use limitlesslibrary.Receiver.Paths.{
  Failure, adoption_error, catalog_error, contract_error, sandbox_error, os_error, key_error,
  regular_file_under, safe_destination,
}
use limitlesslibrary.Install.Transaction.{
  Transaction, Os, Step, ◌>>=◌, ◌>>◌, lift, look, make_parent_directories, install_file, remember,
  roll_back,
}
use limitlesslibrary.Install.Recipe.{
  FileEntry, Mapping, Verifier, Recipe, Selected, Decision, VerifierResult, validate_recipe,
  as_adoption, as_undecided, same_items,
}

pub record Prepared : Type 0 where
  pub mapping : Mapping
  pub content : String
  pub destination : FilePath
  pub declared : String

pub record Installed : Type 0 where
  pub source : String
  pub target : String
  pub digest : String

pub record Evidence : Type 0 where
  pub id : String
  pub kind : String
  pub verifier_digest : String
  pub result_digest : String

pub record Receipt : Type 0 where
  pub decision_digest : String
  pub recipe_digest : String
  pub capsule_digest : String
  pub offer_id : String
  pub installed_files : List Installed
  pub verifier_results : List Evidence
  pub receiver_state_digest : String

pub record Host : Type 0 where
  pub os : Os
  pub digest : String → String
  pub recipe_digest_of : Recipe → String
  pub result_digest_of : VerifierResult → String
  -- `run_receiver_verifier` and the schema of its result
  pub run_verifier : Verifier → Tree → String → Outcome Failure VerifierResult
  pub valid_result : VerifierResult → Bool
  -- `tree_digest`
  pub state_digest : Tree → Outcome Failure String
  -- the receipt's schema
  pub valid_receipt : Receipt → Bool
  -- `catalog.validate_decision` and `catalog.selected_capsule_root`
  pub validate_decision : Decision → Outcome Failure (Unit {0})
  pub capsule_root : Decision → Outcome Failure Tree
  -- whether the receipt's path exists, and `write_new_json` there
  pub receipt_exists : Bool
  pub write_receipt : Receipt → Outcome Failure (Unit {0})

module _ (host : Host) where
  -- `sha256_file`
  unfoldable pub digest_at : FilePath → Tree → Outcome Failure String
  digest_at path tree = elim (node_at tree path) [
    | some (file content) ↦ ok (host.digest content)
    | _ ↦ raised (os_error "open")
  ]

  -- One round of the installation loop.
  unfoldable pub install_one : Prepared → Step Installed
  install_one p = do
    make_parent_directories host.os p.destination
    install_file host.os p.content p.destination
    remember p.destination
    found ← look (digest_at p.destination)
    lift (
        require (str_eq found p.declared)
          (adoption_error ("installed bytes differ: " <> p.mapping.target)))
    lift (ok (record { source = p.mapping.source; target = p.mapping.target; digest = found }))

  unfoldable pub install_all : List Prepared → Step (List Installed)
  install_all [] = lift (ok [])
  install_all (p ∷ rest) = do
    installed ← install_one p
    others ← install_all rest
    lift (ok (installed ∷ others))

  -- `_validate_verifier_result`
  unfoldable pub validate_verifier_result :
      VerifierResult → Verifier → String → Outcome Failure (Unit {0})
  validate_verifier_result result verifier asset_digest =
      if not (host.valid_result result)
      then raised (adoption_error ("verifier result " <> verifier.id))
      else if not (str_eq result.verifier_id verifier.id) || not (str_eq result.kind verifier.kind)
      then raised (adoption_error ("verifier result identity differs: " <> verifier.id))
      else if str_eq verifier.kind "adherence" && not (str_eq result.asset_digest asset_digest)
      then raised (adoption_error "adherence verifier did not bind the selected capsule")
      else ok tt

  unfoldable pub verify_all : String → List Verifier → Tree → Outcome Failure (List Evidence)
  verify_all asset_digest [] tree = ok []
  verify_all asset_digest (v ∷ rest) tree =
      B.◌>>=◌ (host.run_verifier v tree asset_digest) λ result.
        B.◌>>=◌ (validate_verifier_result result v asset_digest) λ _.
          B.◌>>=◌ (verify_all asset_digest rest tree) λ others. ok (
            record {
              id = v.id;
              kind = v.kind;
              verifier_digest = v.digest;
              result_digest = host.result_digest_of result;
            }
            ∷ others)

  -- The installed files again, after the verifiers.
  unfoldable pub recheck : List Installed → Tree → Outcome Failure (Unit {0})
  recheck [] tree = ok tt
  recheck (i ∷ rest) tree = B.◌>>=◌ (regular_file_under tree i.target "installed target") λ content.
      B.◌>>=◌
        (require (str_eq (host.digest content) i.digest)
          (adoption_error ("installed bytes changed during verification: " <> i.target)))
        λ _. recheck rest tree

  -- The body of the `try`.
  unfoldable pub transact : Decision → Recipe → Selected → List Prepared → Step Receipt
  transact decision recipe selected prepared = do
    installed ← install_all prepared
    evidence ← look (verify_all selected.capsule_digest recipe.verifiers)
    look (recheck installed)
    state ← look host.state_digest
    let receipt : Receipt = record {
      decision_digest = decision.decision_digest;
      recipe_digest = recipe.recipe_digest;
      capsule_digest = selected.capsule_digest;
      offer_id = selected.offer_id;
      installed_files = installed;
      verifier_results = evidence;
      receiver_state_digest = state;
    }
    lift (require (host.valid_receipt receipt) (adoption_error "adoption receipt"))
    lift (host.write_receipt receipt)
    lift (ok receipt)

  -- The error that leaves the handler: the first one as an `AdoptionError`, or that of the roll-back.
  abbrev pub rolled_back :
      String → Outcome Failure (Unit {0}) × Tree → Outcome Failure Receipt × Tree
  rolled_back message (ok _, tree) = (raised (adoption_error message), tree)
  rolled_back message (raised e, tree) = (raised e, tree)

  -- The `except` clause: four classes are rolled back and leave as an `AdoptionError`. An
  -- `OSError` passes it by, and so does a `KeyError`.
  unfoldable pub settle : Outcome Failure Receipt × Transaction → Outcome Failure Receipt × Tree
  settle (ok receipt, t) = (ok receipt, t.tree)
  settle (raised (os_error message), t) = (raised (os_error message), t.tree)
  settle (raised (key_error message), t) = (raised (key_error message), t.tree)
  settle (raised (adoption_error message), t) = rolled_back message (roll_back host.os t)
  settle (raised (catalog_error message), t) = rolled_back message (roll_back host.os t)
  settle (raised (contract_error message), t) = rolled_back message (roll_back host.os t)
  settle (raised (sandbox_error message), t) = rolled_back message (roll_back host.os t)

  -- `file_by_source[source]["digest"]`: of two entries of one source the later counts.
  unfoldable pub declared_digest : List FileEntry → String → Option String
  declared_digest [] source = none
  declared_digest (entry ∷ rest) source = elim (declared_digest rest source) [
    | some digest ↦ some digest
    | none ↦ if str_eq entry.source source then some entry.digest else none
  ]

  abbrev or_key_error : {A : Type 0} → Option A → String → Outcome Failure A
  or_key_error none key = raised (key_error key)
  or_key_error (some a) key = ok a

  -- One round of the preparing loop.
  unfoldable pub prepare_one : Tree → Tree → List FileEntry → Mapping → Outcome Failure Prepared
  prepare_one capsule tree files mapping =
      B.◌>>=◌ (as_adoption (regular_file_under capsule mapping.source "capsule source")) λ content.
        B.◌>>=◌ (as_adoption (safe_destination tree mapping.target)) λ destination.
          B.◌>>=◌ (or_key_error (declared_digest files mapping.source) mapping.source) λ declared.
            B.◌>>=◌
              (require (str_eq (host.digest content) declared)
                (adoption_error ("capsule source changed: " <> mapping.source)))
              λ _. ok (record {
                mapping = mapping;
                content = content;
                destination = destination;
                declared = declared;
              })

  unfoldable pub prepare_all :
      Tree → Tree → List FileEntry → List Mapping → Outcome Failure (List Prepared)
  prepare_all capsule tree files [] = ok []
  prepare_all capsule tree files (mapping ∷ rest) =
      B.◌>>=◌ (prepare_one capsule tree files mapping)
        λ p. B.◌>>=◌ (prepare_all capsule tree files rest) λ ps. ok (p ∷ ps)

  pub selected_of : Decision → Outcome Failure Selected
  selected_of decision = elim decision.selected [
    | none ↦ raised (adoption_error "exact-adoption decision has no selected offer")
    | some selected ↦ ok selected
  ]

  -- What is checked before anything is written. The receiver's root is a real directory.
  unfoldable pub check_adoption :
      Bool → Decision → Recipe → Tree → Outcome Failure (Selected × List Prepared)
  unfolding selected_of
  check_adoption owner_authorized decision recipe tree =
      B.◌>>=◌
        (require owner_authorized
          (adoption_error "receiver owner authorization must be explicitly asserted"))
        λ _. B.◌>>=◌ (as_undecided (host.validate_decision decision)) λ _.
          B.◌>>=◌ (validate_recipe host.digest host.recipe_digest_of tree recipe) λ _.
            B.◌>>=◌
              (require
                (str_eq decision.decision "reuse" && str_eq decision.treatment "exact-adoption")
                (adoption_error "only an exact-adoption reuse decision can be installed"))
              λ _. B.◌>>=◌ (selected_of decision) λ selected.
                B.◌>>=◌
                  (require
                    (str_eq recipe.capsule_digest selected.capsule_digest
                      && str_eq recipe.offer_id selected.offer_id)
                    (adoption_error "recipe is not bound to the selected offer"))
                  λ _.
                    B.◌>>=◌
                      (require
                        (same_items (map (λ f. f.source) selected.files)
                          (map (λ m. m.source) recipe.mappings))
                        (adoption_error "recipe must map every exact source exactly once"))
                      λ _. B.◌>>=◌ (host.capsule_root decision) λ capsule.
                        B.◌>>=◌ (prepare_all capsule tree selected.files recipe.mappings)
                          λ prepared.
                            B.◌>>=◌
                              (require (not host.receipt_exists)
                                (adoption_error "refusing to overwrite adoption receipt"))
                              λ _. ok (selected, prepared)

  abbrev pub opened : Tree → Transaction
  opened tree = record { tree = tree; created_files = []; created_directories = [] }

  unfoldable pub install_checked :
      Decision
      → Recipe
      → Tree
      → Outcome Failure (Selected × List Prepared)
      → Outcome Failure Receipt × Tree
  install_checked decision recipe tree (raised e) = (raised e, tree)
  install_checked decision recipe tree (ok (selected, prepared)) =
      settle (transact decision recipe selected prepared (opened tree))

  unfoldable pub adopt_exact_component :
      Bool → Decision → Recipe → Tree → Outcome Failure Receipt × Tree
  adopt_exact_component owner_authorized decision recipe tree =
      install_checked decision recipe tree (check_adoption owner_authorized decision recipe tree)
