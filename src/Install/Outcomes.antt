-- ===== src/Install/Outcomes.antt =====
-- How an adoption ends: what it leaves of the receiver's tree on every path.
use limitlesslibrary.Base.{
  ◌≡◌, refl, sym, ap, ◌∙◌, ◌⊎◌, Option-cases, String, Bool, true, false, ◌||◌, none, some, List, [],
  ◌∷◌, inl, inr, arith, Outcome, ok, raised, Bool-cases,
}
use mathlib.Core.Path.{subst}
use limitlesslibrary.Receiver.Tree.{
  FilePath, Node, file, directory, Tree, node_at, is_there, Closed,
}
use limitlesslibrary.Receiver.Grown.{
  Grown, begin, add_file, undo-Grown, Grown-keeps, unlink_all, rmdir_all, erase_all,
  unlink_all_done, undo_leaves_directories, Keeps, unlink_all-Grown, rmdir_all-Keeps_added,
}
use limitlesslibrary.Receiver.Paths.{
  Failure, adoption_error, catalog_error, contract_error, sandbox_error, os_error, key_error,
}
use limitlesslibrary.Install.Transaction.{
  Transaction, Os, Step, ◌>>=◌, ◌>>◌, lift, look, continue, parent, make_directories,
  make_parent_directories, install_file, remember, roll_back, after_unlinking,
}
use limitlesslibrary.Install.RollBack.{IsFolder, folder_is_parent, make_directories-Made, Made}
use limitlesslibrary.Install.Recipe.{Recipe, Selected, Decision}
use limitlesslibrary.Install.Adopt.{
  Host, Prepared, Receipt, install_one, install_all, transact, rolled_back, settle, opened,
  install_checked, adopt_exact_component, digest_at,
}

-- The outcomes after which the handler knows of all that was created.
abbrev pub is_handled {ℓ} : {A : Type ℓ} → Outcome Failure A → Bool
is_handled (raised (os_error m)) = false
is_handled (raised (key_error m)) = false
is_handled _ = true

module _ (start : Tree) where
  -- Whatever happened, the start is kept; if the handler is reached, all additions are remembered.
  pub record Good {A : Type 0} (r : Outcome Failure A × Transaction) : Type 0 where
    pub remembered :
        is_handled r.0 ≡ true → Grown start r.1.tree r.1.created_files r.1.created_directories
    pub kept : (q : FilePath) (n : Node) → node_at start q ≡ some n → node_at r.1.tree q ≡ some n

  abbrev Known : Transaction → Type 0
  Known t = Grown start t.tree t.created_files t.created_directories

  Known-Good : {A : Type 0} (o : Outcome Failure A) (t : Transaction) → Known t → Good (o, t)
  Known-Good o t g = record { remembered = λ _. g; kept = λ q n h. Grown-keeps q n g h }

  continue-Good :
      {A B : Type 0} (r : Outcome Failure A × Transaction) (f : A → Step B)
      → Good r
      → ((a : A) (t : Transaction) → Known t → Good (f a t))
      → Good (continue r f)
  continue-Good (ok a, t) f g k = k a t (g.remembered refl)
  continue-Good (raised (os_error m), t) f g k = record { remembered = λ e. cc; kept = g.kept }
  continue-Good (raised (key_error m), t) f g k = record { remembered = λ e. cc; kept = g.kept }
  continue-Good (raised (adoption_error m), t) f g k = record {
    remembered = λ e. g.remembered refl;
    kept = g.kept;
  }
  continue-Good (raised (catalog_error m), t) f g k = record {
    remembered = λ e. g.remembered refl;
    kept = g.kept;
  }
  continue-Good (raised (contract_error m), t) f g k = record {
    remembered = λ e. g.remembered refl;
    kept = g.kept;
  }
  continue-Good (raised (sandbox_error m), t) f g k = record {
    remembered = λ e. g.remembered refl;
    kept = g.kept;
  }

  -- A new file that is remembered at once.
  install_file-Good :
      {B : Type 0} (os : Os) (content : String) (p : FilePath) (t : Transaction) (f : Step B)
      → Known t
      → IsFolder os start t.tree (parent os p)
      → ((t' : Transaction) → Known t' → Good (f t'))
      → Good ((install_file os content p >> (remember p >> f)) t)
  unfolding install_file remember
  install_file-Good os content [] t f g h k = Known-Good _ t g
  install_file-Good os content (part ∷ above) t f g h k =
      elim (Bool-cases (is_there (node_at t.tree (part ∷ above)) || os.open_fails (part ∷ above))) [
        | inl taken ↦ rw taken (Known-Good _ t g)
        | inr free ↦ elim (Bool-cases (os.copy_fails (part ∷ above))) [
          | inl broken ↦
              rw (free, broken)
                (record {
                  remembered = λ e. cc;
                  kept = λ q n e. kept_by (os.partial (part ∷ above)) free q n e;
                })
          | inr written ↦
              rw (free, written)
                (k _ (
                  add_file (part ∷ above) content g (absent free)
                    (folder_is_parent os start t.tree part above h)))
        ]
      ]
    where
      absent :
          (is_there (node_at t.tree (part ∷ above)) || os.open_fails (part ∷ above)) ≡ false
          → node_at t.tree (part ∷ above) ≡ none
      absent e = ground arith

      kept_by :
          (c : String)
          → (is_there (node_at t.tree (part ∷ above)) || os.open_fails (part ∷ above)) ≡ false
          → (q : FilePath) (n : Node) → node_at start q ≡ some n
          → node_at ((part ∷ above, file c) ∷ t.tree) q ≡ some n
      kept_by c free q n e =
          Grown-keeps q n
            (add_file (part ∷ above) c g (absent free)
              (folder_is_parent os start t.tree part above h))
            e

  look-Good :
      {A B : Type 0} (o : Tree → Outcome Failure A) (f : A → Step B) (t : Transaction)
      → Known t
      → ((a : A) (t' : Transaction) → Known t' → Good (f a t'))
      → Good ((look o >>= f) t)
  unfolding look
  look-Good o f t g k = continue-Good (o t.tree, t) f (Known-Good (o t.tree) t g) k

  lift-Good :
      {A B : Type 0} (o : Outcome Failure A) (f : A → Step B) (t : Transaction)
      → Known t
      → ((a : A) (t' : Transaction) → Known t' → Good (f a t'))
      → Good ((lift o >>= f) t)
  unfolding lift
  lift-Good o f t g k = continue-Good (o, t) f (Known-Good o t g) k

  return-Good : {A : Type 0} (o : Outcome Failure A) (t : Transaction) → Known t → Good (lift o t)
  unfolding lift
  return-Good o t g = Known-Good o t g

  parents-Good :
      {B : Type 0} (os : Os) (p : FilePath) (t : Transaction) (f : Unit {0} → Step B)
      → Known t
      → ((t' : Transaction) → Known t' → IsFolder os start t'.tree (parent os p) → Good (f tt t'))
      → Good ((make_parent_directories os p >>= f) t)
  unfolding make_parent_directories
  parents-Good {B} os p t f g k =
      made (make_directories os (parent os p) t) (make_directories-Made os start (parent os p) t g)
    where
      made :
          (r : Outcome Failure (Unit {0}) × Transaction)
          → Made os start (parent os p) r
          → Good (continue r f)
      made (ok tt, t') (g', h) = k t' g' (h refl)
      made (raised e, t') (g', h) = Known-Good (raised e) t' g'

  module _ (host : Host) where
    install_one-Good : (p : Prepared) (t : Transaction) → Known t → Good (install_one host p t)
    unfolding install_one
    install_one-Good p t g = parents-Good host.os p.destination t _ g λ t' g' h.
        install_file-Good host.os p.content p.destination t' _ g' h λ t'' g''.
          look-Good (digest_at host p.destination) _ t'' g''
            λ found t3 g3. lift-Good _ _ t3 g3 λ _ t4 g4. return-Good _ t4 g4

    install_all-Good :
        (ps : List Prepared) (t : Transaction) → Known t → Good (install_all host ps t)
    unfolding install_all
    install_all-Good [] t g = return-Good _ t g
    install_all-Good (p ∷ ps) t g =
        continue-Good (install_one host p t) _ (install_one-Good p t g) λ i t' g'.
          continue-Good (install_all host ps t') _ (install_all-Good ps t' g')
            λ is t'' g''. return-Good _ t'' g''

    transact-Good :
        (decision : Decision) (recipe : Recipe) (selected : Selected) (ps : List Prepared)
        (t : Transaction)
        → Known t
        → Good (transact host decision recipe selected ps t)
    unfolding transact
    transact-Good decision recipe selected ps t g =
        continue-Good (install_all host ps t) _ (install_all-Good ps t g) λ is t1 g1.
          look-Good _ _ t1 g1 λ evidence t2 g2. look-Good _ _ t2 g2 λ _ t3 g3.
            look-Good _ _ t3 g3 λ state t4 g4.
              lift-Good _ _ t4 g4 λ _ t5 g5. lift-Good _ _ t5 g5 λ _ t6 g6. return-Good _ t6 g6

some_ne_none : (n : Node) → ¬ (some n ≡ none)
some_ne_none n h = cc

-- What is kept and what is added, path by path.
same_or_directory :
    (tree after : Tree) (q : FilePath)
    → Keeps tree after
    → ((n : Node) → node_at after q ≡ some n → (node_at tree q ≡ some n) ⊎ (n ≡ directory))
    → (node_at after q ≡ node_at tree q)
      ⊎ ((node_at tree q ≡ none) × (node_at after q ≡ some directory))
same_or_directory tree after q keeps added = elim (Option-cases (node_at tree q)) [
  | inr (n, e) ↦ inl (keeps q n e ∙ sym e)
  | inl e ↦ elim (Option-cases (node_at after q)) [
    | inl f ↦ inl (f ∙ sym e)
    | inr (n, f) ↦ elim (added n f) [
      | inl there ↦ absurd (some_ne_none n (sym there ∙ e))
      | inr same ↦ inr (e, f ∙ ap (λ x. some x) same)
    ]
  ]
]

module _ (host : Host) (tree : Tree) where
  -- After an `AdoptionError` only directories may be left of what was made, and nothing where no
  -- removal of a directory is refused. After any ending the start is kept.
  record Settled (r : Outcome Failure Receipt × Tree) : Type 0 where
    pub undone :
        (m : String) (q : FilePath) (n : Node)
        → r.0 ≡ raised (adoption_error m)
        → node_at r.1 q ≡ some n
        → (node_at tree q ≡ some n) ⊎ (n ≡ directory)
    pub exact :
        (m : String)
        → ((p : FilePath) → host.os.rmdir_fails p ≡ false)
        → r.0 ≡ raised (adoption_error m)
        → r.1 ≡ tree
    pub kept : Keeps tree r.1

  rolled_back-Settled :
      (m : String) (t : Transaction) (u : Bool × Tree)
      → Closed tree
      → Grown tree t.tree t.created_files t.created_directories
      → unlink_all host.os.unlink_fails t.created_files t.tree ≡ u
      → Settled (rolled_back host m (after_unlinking host.os u t.created_directories))
  rolled_back-Settled m t (true, left) c g e =
      let gone : erase_all t.created_files t.tree ≡ left =
        unlink_all_done host.os.unlink_fails t.created_files t.tree left e in
      record {
        undone = λ m' q n _ h. undo_leaves_directories host.os.rmdir_fails q n g (
            subst (λ x. node_at (rmdir_all host.os.rmdir_fails t.created_directories x) q ≡ some n)
              (sym gone) h);
        exact = λ m' free _.
            ap (rmdir_all host.os.rmdir_fails t.created_directories) (sym gone)
            ∙ undo-Grown host.os.rmdir_fails free g c;
        kept =
            rmdir_all-Keeps_added host.os.rmdir_fails left g
              (subst (λ x. Keeps tree x.1) e (unlink_all-Grown host.os.unlink_fails g));
      }
  rolled_back-Settled m t (false, left) c g e = record {
    undone = λ m' q n h _. cc;
    exact = λ m' free h. cc;
    kept = subst (λ x. Keeps tree x.1) e (unlink_all-Grown host.os.unlink_fails g);
  }

  handled-Settled :
      (m : String) (t : Transaction)
      → Closed tree
      → Grown tree t.tree t.created_files t.created_directories
      → Settled (rolled_back host m (roll_back host.os t))
  unfolding roll_back
  handled-Settled m t c g = rolled_back-Settled m t _ c g refl

  unhandled-Settled :
      (o : Outcome Failure Receipt) (left : Tree)
      → ((m : String) → ¬ (o ≡ raised (adoption_error m)))
      → Keeps tree left
      → Settled (o, left)
  unhandled-Settled o left other keeps = record {
    undone = λ m q n h _. absurd (other m h);
    exact = λ m _ h. absurd (other m h);
    kept = keeps;
  }

  settle-Settled :
      (r : Outcome Failure Receipt × Transaction)
      → Closed tree
      → Good tree r
      → Settled (settle host r)
  unfolding settle
  settle-Settled (ok receipt, t) c g = unhandled-Settled _ t.tree (λ m e. cc) g.kept
  settle-Settled (raised (os_error m), t) c g = unhandled-Settled _ t.tree (λ m' e. cc) g.kept
  settle-Settled (raised (key_error m), t) c g = unhandled-Settled _ t.tree (λ m' e. cc) g.kept
  settle-Settled (raised (adoption_error m), t) c g = handled-Settled m t c (g.remembered refl)
  settle-Settled (raised (catalog_error m), t) c g = handled-Settled m t c (g.remembered refl)
  settle-Settled (raised (contract_error m), t) c g = handled-Settled m t c (g.remembered refl)
  settle-Settled (raised (sandbox_error m), t) c g = handled-Settled m t c (g.remembered refl)

  install_checked-Settled :
      (decision : Decision) (recipe : Recipe) (checked : Outcome Failure (Selected × List Prepared))
      → Closed tree
      → Settled (install_checked host decision recipe tree checked)
  unfolding install_checked
  install_checked-Settled decision recipe (raised e) c = record {
    undone = λ _ _ _ _ h. inl h;
    exact = λ _ _ _. refl;
    kept = λ _ _ h. h;
  }
  install_checked-Settled decision recipe (ok (selected, ps)) c =
      settle-Settled _ c
        (transact-Good tree host decision recipe selected ps (opened host tree) begin)

  -- If an adoption fails by an `AdoptionError`, whatever the step and whatever directory the system
  -- refuses to remove, the receiver's tree has at every path what it had before, except that a
  -- directory may be left at a path that was not there: no file of the adoption is left.
  pub adopt-roll_back :
      (owner_authorized : Bool) (decision : Decision) (recipe : Recipe) (m : String) (q : FilePath)
      → Closed tree
      → (adopt_exact_component host owner_authorized decision recipe tree).0
        ≡ raised (adoption_error m)
      → (node_at (adopt_exact_component host owner_authorized decision recipe tree).1 q
          ≡ node_at tree q)
        ⊎ ((node_at tree q ≡ none)
            × (node_at (adopt_exact_component host owner_authorized decision recipe tree).1 q
                ≡ some directory))
  unfolding adopt_exact_component
  adopt-roll_back owner_authorized decision recipe m q c e =
      let s = install_checked-Settled decision recipe _ c in
      same_or_directory tree _ q s.kept (λ n h. s.undone m q n e h)

  -- If an adoption fails by an `AdoptionError`, whatever the step, and the system refuses to remove
  -- no directory, the receiver's tree is exactly what it was before, for every tree in which nothing
  -- lies under a path that is not there.
  pub adopt-roll_back_exact :
      (owner_authorized : Bool) (decision : Decision) (recipe : Recipe) (m : String)
      → Closed tree
      → ((p : FilePath) → host.os.rmdir_fails p ≡ false)
      → (adopt_exact_component host owner_authorized decision recipe tree).0
        ≡ raised (adoption_error m)
      → (adopt_exact_component host owner_authorized decision recipe tree).1 ≡ tree
  unfolding adopt_exact_component
  adopt-roll_back_exact owner_authorized decision recipe m c free e =
      (install_checked-Settled decision recipe _ c).exact m free e

  -- However an adoption ends, with an `OSError` of the roll-back too, every path that was there holds
  -- what it held.
  pub adopt_keeps :
      (owner_authorized : Bool) (decision : Decision) (recipe : Recipe) (q : FilePath) (n : Node)
      → Closed tree
      → node_at tree q ≡ some n
      → node_at (adopt_exact_component host owner_authorized decision recipe tree).1 q ≡ some n
  unfolding adopt_exact_component
  adopt_keeps owner_authorized decision recipe q n c h =
      (install_checked-Settled decision recipe _ c).kept q n h
