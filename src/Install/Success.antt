-- ===== src/Install/Success.antt =====
-- What a receipt vouches for.
use limitlesslibrary.Base.{
  ◌≡◌, refl, sym, ap, ◌∙◌, String, str_eq, eq_iff, Bool, true, List, [], ◌∷◌, map, arith, Outcome,
  ok, raised, bind_ok, require_ok, ok-injective, All, not, ◌&&◌,
}
use mathlib.Core.Path.{subst, ap₂}
use limitlesslibrary.Receiver.Tree.{Tree}
use limitlesslibrary.Receiver.Paths.{
  Failure, adoption_error, catalog_error, contract_error, sandbox_error, os_error, key_error,
  regular_file_under,
}
use limitlesslibrary.Install.Transaction.{
  Transaction, Step, ◌>>=◌, lift, look, continue, make_parent_directories, install_file, remember,
}
use limitlesslibrary.Install.Recipe.{
  FileEntry, Mapping, as_undecided, same_items, validate_recipe, Recipe, Selected, Decision,
}
use limitlesslibrary.Install.Adopt.{
  Host, Prepared, Installed, Receipt, install_one, install_all, transact, settle, opened, recheck,
  check_adoption, install_checked, adopt_exact_component, prepare_one, prepare_all, digest_at,
  selected_of,
}

continue_ok :
    {A B : Type 0} (r : Outcome Failure A × Transaction) (f : A → Step B) (b : B) (t' : Transaction)
    → continue r f ≡ (ok b, t')
    → (a : A) × (t : Transaction) × (r ≡ (ok a, t)) × (f a t ≡ (ok b, t'))
continue_ok (ok a, t) f b t' h = (a, t, refl, h)
continue_ok (raised e, t) f b t' h = ground arith

look_ok :
    {A B : Type 0} (o : Tree → Outcome Failure A) (f : A → Step B) (t : Transaction) (b : B)
    (t' : Transaction)
    → (look o >>= f) t ≡ (ok b, t')
    → (a : A) × (o t.tree ≡ ok a) × (f a t ≡ (ok b, t'))
unfolding look
look_ok o f t b t' h = opened_ok (o t.tree) refl h
  where
    opened_ok :
        (r : Outcome Failure _)
        → o t.tree ≡ r
        → continue (r, t) f ≡ (ok b, t')
        → (a : _) × (o t.tree ≡ ok a) × (f a t ≡ (ok b, t'))
    opened_ok (ok a) e k = (a, e, k)
    opened_ok (raised x) e k = ground arith

module _ (host : Host) where
  -- The file is there, below no symlink, with the bytes of the digest that the receipt names.
  abbrev pub Vouched : Tree → Installed → Type 0
  Vouched tree i =
      (content : String) × (regular_file_under tree i.target "installed target" ≡ ok content)
      × (host.digest content ≡ i.digest)

  recheck-Vouched :
      (is : List Installed) (tree : Tree) → recheck host is tree ≡ ok tt → All (Vouched tree) is
  unfolding recheck
  recheck-Vouched [] tree h = tt
  recheck-Vouched (i ∷ is) tree h =
      let (content, e, h1) = bind_ok (regular_file_under tree i.target "installed target") _ h in
      let (same, h2) = require_ok (str_eq (host.digest content) i.digest) _ _ h1 in
      ((content, e, (eq_iff _ _).0 same), recheck-Vouched is tree h2)

  lift_ok :
      {A B : Type 0} (o : Outcome Failure A) (f : A → Step B) (t : Transaction) (b : B)
      (t' : Transaction)
      → (lift o >>= f) t ≡ (ok b, t')
      → (a : A) × (o ≡ ok a) × (f a t ≡ (ok b, t'))
  unfolding lift
  lift_ok (ok a) f t b t' h = (a, refl, h)
  lift_ok (raised e) f t b t' h = ground arith

  return_ok :
      {A : Type 0} (a b : A) (t t' : Transaction)
      → lift {A = A} (ok a) t ≡ (ok b, t')
      → (a ≡ b) × (t ≡ t')
  unfolding lift
  return_ok a b t t' h = ground arith

  install_one_ok :
      (p : Prepared) (t : Transaction) (i : Installed) (t' : Transaction)
      → install_one host p t ≡ (ok i, t')
      → i.target ≡ p.mapping.target
  unfolding install_one
  install_one_ok p t i t' h =
      let (_, t1, _, h1) = continue_ok (make_parent_directories host.os p.destination t) _ i t' h in
      let (_, t2, _, h2) =
        continue_ok (install_file host.os p.content p.destination t1) _ i t' h1 in
      let (_, t3, _, h3) = continue_ok (remember p.destination t2) _ i t' h2 in
      let (found, _, h4) = look_ok (digest_at host p.destination) _ t3 i t' h3 in
      let (_, _, h5) = lift_ok _ _ t3 i t' h4 in
      let (same, _) = return_ok _ i t3 t' h5 in sym (ap (λ r. r.target) same)

  install_all_ok :
      (ps : List Prepared) (t : Transaction) (is : List Installed) (t' : Transaction)
      → install_all host ps t ≡ (ok is, t')
      → map (λ i. i.target) is ≡ map (λ p. p.mapping.target) ps
  unfolding install_all
  install_all_ok [] t is t' h =
      let (same, _) = return_ok [] is t t' h in sym (ap (map (λ i. i.target)) same)
  install_all_ok (p ∷ ps) t is t' h =
      let (i, t1, one, h1) = continue_ok (install_one host p t) _ is t' h in
      let (rest, t2, more, h2) = continue_ok (install_all host ps t1) _ is t' h1 in
      let (same, _) = return_ok (i ∷ rest) is t2 t' h2 in
      sym (ap (map (λ i. i.target)) same)
      ∙ ap₂ (λ x xs. x ∷ xs) (install_one_ok p t i t1 one) (install_all_ok ps t1 rest t2 more)

  prepare_one_ok :
      (capsule tree : Tree) (files : List FileEntry) (m : Mapping) (p : Prepared)
      → prepare_one host capsule tree files m ≡ ok p
      → p.mapping.target ≡ m.target
  unfolding prepare_one
  prepare_one_ok capsule tree files m p h = ground arith

  prepare_all_ok :
      (capsule tree : Tree) (files : List FileEntry) (ms : List Mapping) (ps : List Prepared)
      → prepare_all host capsule tree files ms ≡ ok ps
      → map (λ p. p.mapping.target) ps ≡ map (λ m. m.target) ms
  unfolding prepare_all
  prepare_all_ok capsule tree files [] ps h = ground arith
  prepare_all_ok capsule tree files (m ∷ ms) ps h =
      let (p, one, h1) = bind_ok (prepare_one host capsule tree files m) _ h in
      let (rest, more, h2) = bind_ok (prepare_all host capsule tree files ms) _ h1 in
      let same : (p ∷ rest) ≡ ps = ok-injective h2 in
      sym (ap (map (λ p. p.mapping.target)) same)
      ∙ ap₂ (λ x xs. x ∷ xs) (prepare_one_ok capsule tree files m p one)
          (prepare_all_ok capsule tree files ms rest more)

  transact_ok :
      (decision : Decision) (recipe : Recipe) (selected : Selected) (ps : List Prepared)
      (t : Transaction) (receipt : Receipt) (t' : Transaction)
      → transact host decision recipe selected ps t ≡ (ok receipt, t')
      → All (Vouched t'.tree) receipt.installed_files
        × (map (λ i. i.target) receipt.installed_files ≡ map (λ p. p.mapping.target) ps)
  unfolding transact
  transact_ok decision recipe selected ps t receipt t' h =
      let (is, t1, all_in, h1) = continue_ok (install_all host ps t) _ receipt t' h in
      let (evidence, _, h2) = look_ok _ _ t1 receipt t' h1 in
      let (_, again, h3) = look_ok (recheck host is) _ t1 receipt t' h2 in
      let (state, _, h4) = look_ok _ _ t1 receipt t' h3 in
      let (_, _, h5) = lift_ok _ _ t1 receipt t' h4 in
      let (_, _, h6) = lift_ok _ _ t1 receipt t' h5 in
      let (same, stays) = return_ok _ receipt t1 t' h6 in
      (
        subst (λ r. All (Vouched t'.tree) r.installed_files) same
            (subst (λ u. All (Vouched u.tree) is) stays (recheck-Vouched is t1.tree again)),
        sym (ap (λ r. map (λ i. i.target) r.installed_files) same)
            ∙ install_all_ok ps t is t1 all_in,
      )

  check_adoption_ok :
      (owner_authorized : Bool) (decision : Decision) (recipe : Recipe) (tree : Tree)
      (selected : Selected) (ps : List Prepared)
      → check_adoption host owner_authorized decision recipe tree ≡ ok (selected, ps)
      → (owner_authorized ≡ true)
        × (map (λ p. p.mapping.target) ps ≡ map (λ m. m.target) recipe.mappings)
  unfolding check_adoption
  check_adoption_ok owner_authorized decision recipe tree selected ps h =
      let (owner, h1) = require_ok owner_authorized _ _ h in
      let (_, _, h2) = bind_ok (as_undecided (host.validate_decision decision)) _ h1 in
      let (_, _, h3) =
        bind_ok (validate_recipe host.digest host.recipe_digest_of tree recipe) _ h2 in
      let (_, h4) =
        require_ok (str_eq decision.decision "reuse" && str_eq decision.treatment "exact-adoption")
          _ _ h3 in
      let (chosen, _, h5) = bind_ok (selected_of host decision) _ h4 in
      let (_, h6) =
        require_ok
          (str_eq recipe.capsule_digest chosen.capsule_digest
            && str_eq recipe.offer_id chosen.offer_id)
          _ _ h5 in
      let (_, h7) =
        require_ok
          (same_items (map (λ f. f.source) chosen.files) (map (λ m. m.source) recipe.mappings)) _ _
          h6 in
      let (capsule, _, h8) = bind_ok (host.capsule_root decision) _ h7 in
      let (made, all_made, h9) =
        bind_ok (prepare_all host capsule tree chosen.files recipe.mappings) _ h8 in
      let (_, h10) = require_ok (not host.receipt_exists) _ _ h9 in
      let same : made ≡ ps = ap (λ (q : Selected × List Prepared). q.1) (ok-injective h10) in
      (
        owner,
        sym (ap (map (λ p. p.mapping.target)) same)
            ∙ prepare_all_ok capsule tree chosen.files recipe.mappings made all_made,
      )

  settle_ok :
      (r : Outcome Failure Receipt × Transaction) (receipt : Receipt) (final : Tree)
      → settle host r ≡ (ok receipt, final)
      → (t : Transaction) × (r ≡ (ok receipt, t)) × (t.tree ≡ final)
  unfolding settle
  settle_ok (ok made, t) receipt final h = (t, ground arith, ground arith)
  settle_ok (raised (os_error m), t) receipt final h = ground arith
  settle_ok (raised (key_error m), t) receipt final h = ground arith
  settle_ok (raised (adoption_error m), t) receipt final h = ground arith
  settle_ok (raised (catalog_error m), t) receipt final h = ground arith
  settle_ok (raised (contract_error m), t) receipt final h = ground arith
  settle_ok (raised (sandbox_error m), t) receipt final h = ground arith

  never_checked :
      (e : Failure) (decision : Decision) (recipe : Recipe) (tree : Tree) (receipt : Receipt)
      (final : Tree)
      → ¬ (install_checked host decision recipe tree (raised e) ≡ (ok receipt, final))
  unfolding install_checked
  never_checked e decision recipe tree receipt final h = ground arith

  checked_ok :
      (decision : Decision) (recipe : Recipe) (selected : Selected) (ps : List Prepared)
      (tree : Tree) (receipt : Receipt) (final : Tree)
      → install_checked host decision recipe tree (ok (selected, ps)) ≡ (ok receipt, final)
      → (t : Transaction) × (transact host decision recipe selected ps (opened host tree)
          ≡ (ok receipt, t))
        × (t.tree ≡ final)
  unfolding install_checked
  checked_ok decision recipe selected ps tree receipt final h =
      settle_ok (transact host decision recipe selected ps (opened host tree)) receipt final h

  -- A receipt is given only with the owner's authorization. Its installed files are the recipe's
  -- targets in order, and in the tree that is left each of them is a regular file, below no
  -- symlink, whose bytes have the digest that the receipt names.
  pub adopt-Vouched :
      (owner_authorized : Bool) (decision : Decision) (recipe : Recipe) (tree final : Tree)
      (receipt : Receipt)
      → adopt_exact_component host owner_authorized decision recipe tree ≡ (ok receipt, final)
      → (owner_authorized ≡ true)
        × All (Vouched final) receipt.installed_files
        × (map (λ i. i.target) receipt.installed_files ≡ map (λ m. m.target) recipe.mappings)
  unfolding adopt_exact_component
  adopt-Vouched owner_authorized decision recipe tree final receipt h =
      checked_cases (check_adoption host owner_authorized decision recipe tree) refl h
    where
      checked_cases :
          (checked : Outcome Failure (Selected × List Prepared))
          → check_adoption host owner_authorized decision recipe tree ≡ checked
          → install_checked host decision recipe tree checked ≡ (ok receipt, final)
          → (owner_authorized ≡ true)
            × All (Vouched final) receipt.installed_files
            × (map (λ i. i.target) receipt.installed_files ≡ map (λ m. m.target) recipe.mappings)
      checked_cases (raised e) same k =
          absurd (never_checked e decision recipe tree receipt final k)
      checked_cases (ok (selected, ps)) same k =
          let (t, ran, left) = checked_ok decision recipe selected ps tree receipt final k in
          let (vouched, targets) =
            transact_ok decision recipe selected ps (opened host tree) receipt t ran in
          let (owner, made) =
            check_adoption_ok owner_authorized decision recipe tree selected ps same in
          (owner, subst (λ u. All (Vouched u) receipt.installed_files) left vouched, targets ∙ made)
