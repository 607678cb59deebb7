-- ===== src/Tests/Installs.antt =====
-- Adoptions of one file by a small host.
use limitlesslibrary.Base.{
  ◌≡◌, refl, String, Bool, true, false, none, some, ◌⊎◌, [], ◌∷◌, map, Outcome, ok, raised, All,
  arith,
}
use limitlesslibrary.Receiver.Tree.{
  file, directory, Tree, node_at, Closed, has_children, path_eq, path_eq_iff,
}
use limitlesslibrary.Receiver.Paths.{
  Failure, adoption_error, contract_error, os_error, relative_path, walk, regular_file_under,
  safe_parents, safe_destination, parts_of,
}
use limitlesslibrary.Receiver.Grown.{unlink_all}
use limitlesslibrary.Install.Transaction as T
use limitlesslibrary.Install.Transaction.{Os, Transaction}
use limitlesslibrary.Install.Recipe.{
  Verifier, Recipe, Selected, Decision, validate_recipe, all_distinct, count, same_items,
}
use limitlesslibrary.Install.Adopt.{
  Host, Prepared, Installed, Receipt, adopt_exact_component, check_adoption, install_checked,
  transact, settle, install_all, install_one, digest_at, verify_all, validate_verifier_result,
  recheck, prepare_all, prepare_one, declared_digest,
}
use limitlesslibrary.Install.Outcomes.{adopt-roll_back, adopt-roll_back_exact, adopt_keeps}
use limitlesslibrary.Install.Success.{adopt-Vouched, Vouched}
use limitlesslibrary.Install.Leaks.{adopt_leaves_partial}

abbrev receiver : Tree
receiver = ("check.py" ∷ [], file "check") ∷ []

abbrev capsule : Tree
capsule = ("part.py" ∷ [], file "bytes") ∷ []

abbrev refusing : Bool → Os
refusing copy_fails = record {
  mkdir_fails = λ _. false;
  open_fails = λ _. false;
  copy_fails = λ _. copy_fails;
  partial = λ _. "byt";
  unlink_fails = λ _. false;
  rmdir_fails = λ _. false;
}

abbrev host : Bool → Outcome Failure (Unit {0}) → Host
host copy_fails written = record {
  os = refusing copy_fails;
  digest = λ content. content;
  recipe_digest_of = λ _. "recipe";
  result_digest_of = λ _. "result";
  run_verifier =
      λ v tree asset. ok (record { verifier_id = v.id; kind = v.kind; asset_digest = asset });
  valid_result = λ _. true;
  state_digest = λ _. ok "state";
  valid_receipt = λ _. true;
  validate_decision = λ _. ok tt;
  capsule_root = λ _. ok capsule;
  receipt_exists = false;
  write_receipt = λ _. written;
}

abbrev verifier : String → String → Verifier
verifier id kind = record {
  id = id;
  kind = kind;
  path = "check.py";
  digest = "check";
  argv = "{python}" ∷ [];
}

abbrev recipe : String → Recipe
recipe target = record {
  recipe_digest = "recipe";
  capsule_digest = "capsule";
  offer_id = "offer";
  mappings = record { source = "part.py"; target = target } ∷ [];
  verifiers = verifier "a" "adherence" ∷ verifier "o" "obligation" ∷ [];
}

abbrev selected : Selected
selected = record {
  capsule_digest = "capsule";
  offer_id = "offer";
  files = record { source = "part.py"; digest = "bytes" } ∷ [];
}

abbrev decision : Decision
decision = record {
  decision = "reuse";
  treatment = "exact-adoption";
  decision_digest = "decision";
  selected = some selected;
}

abbrev late_host : Host
late_host = host false (raised (contract_error "refusing to overwrite immutable output"))

abbrev good_host : Host
good_host = host false (ok tt)

abbrev full_host : Host
full_host = host true (ok tt)

receiver-Closed : Closed receiver
unfolding has_children
receiver-Closed p ne absent = ground (arith, path_eq_iff p [])

-- The directory that was made cannot be removed.
abbrev stuck_host : Host
stuck_host = record late_host { os = record (refusing false) { rmdir_fails = λ _. true } }

stuck_failure :
    (adopt_exact_component stuck_host true decision (recipe "bin/part.py") receiver).0
    ≡ raised (adoption_error "refusing to overwrite immutable output")
unfolding adopt_exact_component check_adoption install_checked transact settle install_all
    install_one digest_at verify_all validate_verifier_result recheck prepare_all prepare_one
    declared_digest validate_recipe relative_path walk regular_file_under safe_parents
    safe_destination node_at path_eq T.make_parent_directories T.make_directories T.install_file
    T.remember T.lift T.look T.roll_back unlink_all all_distinct count same_items parts_of
stuck_failure = refl

adopt-roll_back_example :
    (node_at
        (adopt_exact_component stuck_host true decision (recipe "bin/part.py") receiver).1
        ("bin" ∷ [])
      ≡ node_at receiver ("bin" ∷ []))
    ⊎ ((node_at receiver ("bin" ∷ []) ≡ none)
        × (node_at
              (adopt_exact_component stuck_host true decision (recipe "bin/part.py") receiver).1
              ("bin" ∷ [])
            ≡ some directory))
adopt-roll_back_example =
    adopt-roll_back stuck_host receiver true decision (recipe "bin/part.py")
      "refusing to overwrite immutable output" ("bin" ∷ []) receiver-Closed stuck_failure

late_failure :
    (adopt_exact_component late_host true decision (recipe "bin/part.py") receiver).0
    ≡ raised (adoption_error "refusing to overwrite immutable output")
unfolding adopt_exact_component check_adoption install_checked transact settle install_all
    install_one digest_at verify_all validate_verifier_result recheck prepare_all prepare_one
    declared_digest validate_recipe relative_path walk regular_file_under safe_parents
    safe_destination node_at path_eq T.make_parent_directories T.make_directories T.install_file
    T.remember T.lift T.look T.roll_back unlink_all all_distinct count same_items parts_of
late_failure = refl

adopt-roll_back_exact_example :
    (adopt_exact_component late_host true decision (recipe "bin/part.py") receiver).1 ≡ receiver
adopt-roll_back_exact_example =
    adopt-roll_back_exact late_host receiver true decision (recipe "bin/part.py")
      "refusing to overwrite immutable output" receiver-Closed (λ _. refl) late_failure

adopt_keeps_example :
    node_at
      (adopt_exact_component full_host true decision (recipe "bin/part.py") receiver).1
      ("check.py" ∷ [])
    ≡ some (file "check")
unfolding node_at path_eq
adopt_keeps_example =
    adopt_keeps full_host receiver true decision (recipe "bin/part.py") ("check.py" ∷ [])
      (file "check") receiver-Closed refl

abbrev installed : Installed
installed = record { source = "part.py"; target = "part.py"; digest = "bytes" }

abbrev receipt : Receipt
receipt = record {
  decision_digest = "decision";
  recipe_digest = "recipe";
  capsule_digest = "capsule";
  offer_id = "offer";
  installed_files = installed ∷ [];
  verifier_results =
      record { id = "a"; kind = "adherence"; verifier_digest = "check"; result_digest = "result" }
      ∷ record {
        id = "o";
        kind = "obligation";
        verifier_digest = "check";
        result_digest = "result";
      }
      ∷ [];
  receiver_state_digest = "state";
}

abbrev final : Tree
final = ("part.py" ∷ [], file "bytes") ∷ receiver

adopted :
    adopt_exact_component good_host true decision (recipe "part.py") receiver ≡ (ok receipt, final)
unfolding adopt_exact_component check_adoption install_checked transact settle install_all
    install_one digest_at verify_all validate_verifier_result recheck prepare_all prepare_one
    declared_digest validate_recipe relative_path walk regular_file_under safe_parents
    safe_destination node_at path_eq T.make_parent_directories T.make_directories T.install_file
    T.remember T.lift T.look T.roll_back unlink_all all_distinct count same_items parts_of
adopted = refl

adopt-Vouched_example :
    (true ≡ true)
    × All (Vouched good_host final) (installed ∷ [])
    × (map (λ (i : Installed). i.target) (installed ∷ []) ≡ "part.py" ∷ [])
adopt-Vouched_example =
    adopt-Vouched good_host true decision (recipe "part.py") receiver final receipt adopted

abbrev prepared : Prepared
prepared = record {
  mapping = record { source = "part.py"; target = "part.py" };
  content = "bytes";
  destination = "part.py" ∷ [];
  declared = "bytes";
}

checked :
    check_adoption full_host true decision (recipe "part.py") receiver
    ≡ ok (selected, prepared ∷ [])
unfolding adopt_exact_component check_adoption install_checked transact settle install_all
    install_one digest_at verify_all validate_verifier_result recheck prepare_all prepare_one
    declared_digest validate_recipe relative_path walk regular_file_under safe_parents
    safe_destination node_at path_eq T.make_parent_directories T.make_directories T.install_file
    T.remember T.lift T.look T.roll_back unlink_all all_distinct count same_items parts_of
checked = refl

adopt_leaves_partial_example :
    adopt_exact_component full_host true decision (recipe "part.py") receiver
    ≡ (raised (os_error "copy"), ("part.py" ∷ [], file "byt") ∷ receiver)
unfolding node_at path_eq
adopt_leaves_partial_example =
    adopt_leaves_partial full_host true decision (recipe "part.py") receiver selected prepared []
      "part.py" checked refl refl refl refl
