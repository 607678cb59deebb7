-- ===== src/Install/RollBack.antt =====
-- What an installation that goes wrong leaves behind.
use limitlesslibrary.Base.{
  ◌≡◌, refl, String, Option, none, some, [], ◌∷◌, inl, inr, Outcome, ok, raised, Bool-cases,
}
use limitlesslibrary.Receiver.Tree.{
  FilePath, Node, file, directory, symlink, Tree, node_at, path_eq_iff,
}
use limitlesslibrary.Receiver.Grown.{Grown, add_directory, HasParent}
use limitlesslibrary.Receiver.Paths.{Failure}
use limitlesslibrary.Install.Transaction.{
  Transaction, Os, make_directory, make_directory_at, unless_there, continue, make_directories,
}

module _ (os : Os) (start : Tree) where
  -- The tree is the start and what the transaction remembers to have created.
  abbrev pub Remembers : Transaction → Type 0
  Remembers t = Grown start t.tree t.created_files t.created_directories

  -- A path at which a directory is, or the root.
  abbrev pub IsFolder : Tree → FilePath → Type 0
  IsFolder tree [] = Unit
  IsFolder tree (part ∷ above) = node_at tree (part ∷ above) ≡ some directory

  pub folder_is_parent :
      (tree : Tree) (part : String) (above : FilePath)
      → IsFolder tree above
      → HasParent tree (part ∷ above)
  folder_is_parent tree part [] h = tt
  folder_is_parent tree part (p ∷ ps) h = h

  -- What making the directories of a path leaves: success leaves the whole path.
  abbrev pub Made : FilePath → Outcome Failure (Unit {0}) × Transaction → Type 0
  Made p (o, t) = Remembers t × (o ≡ ok tt → IsFolder t.tree p)

  make_directory-Made :
      (part : String) (above : FilePath) (n : Option Node) (t : Transaction)
      → Remembers t
      → IsFolder t.tree above
      → node_at t.tree (part ∷ above) ≡ n
      → Made (part ∷ above) (make_directory_at os n (part ∷ above) t)
  unfolding make_directory_at node_at
  make_directory-Made part above (some directory) t g h e = (g, λ _. e)
  make_directory-Made part above (some (file c)) t g h e = (g, λ f. cc)
  make_directory-Made part above (some symlink) t g h e = (g, λ f. cc)
  make_directory-Made part above none t g h e = elim (Bool-cases (os.mkdir_fails (part ∷ above))) [
    | inl fails ↦ rw (fails, Made) (g, λ f. cc)
    | inr works ↦
        rw (works, Made)
          (
            add_directory (part ∷ above) g e (folder_is_parent t.tree part above h),
            λ _. rw ((path_eq_iff (part ∷ above) (part ∷ above)).1 refl),
          )
  ]

  -- Directories are made below what is there, whether or not the system refuses on the way.
  pub make_directories-Made :
      (p : FilePath) (t : Transaction) → Remembers t → Made p (make_directories os p t)
  unfolding make_directories
  make_directories-Made [] t g = (g, λ _. tt)
  make_directories-Made (part ∷ above) t g =
      there (node_at t.tree (part ∷ above)) refl
        (continued (make_directories os above t) (make_directories-Made above t g))
    where
      continued :
          (r : Outcome Failure (Unit {0}) × Transaction)
          → Made above r
          → Made (part ∷ above) (continue r (λ _. make_directory os (part ∷ above)))
      continued (ok _, t') (g', h) = make_directory-Made part above _ t' g' (h refl) refl
      continued (raised e, t') (g', h) = (g', λ f. cc)

      there :
          (n : Option Node)
          → node_at t.tree (part ∷ above) ≡ n
          → Made
              (part ∷ above)
              (continue (make_directories os above t) (λ _. make_directory os (part ∷ above)))
          → Made (part ∷ above) (
              unless_there os n t
                (continue (make_directories os above t) (λ _. make_directory os (part ∷ above))))
      there (some directory) e m = (g, λ _. e)
      there (some (file c)) e m = (g, λ f. cc)
      there (some symlink) e m = (g, λ f. cc)
      there none e m = m
