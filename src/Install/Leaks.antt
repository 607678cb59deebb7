-- ===== src/Install/Leaks.antt =====
-- The failures that the handler does not see.
use limitlesslibrary.Base.{◌≡◌, String, Bool, true, false, none, List, [], ◌∷◌, arith, ok, raised}
use limitlesslibrary.Receiver.Tree.{file, Tree, node_at}
use limitlesslibrary.Receiver.Paths.{os_error}
use limitlesslibrary.Install.Transaction.{make_parent_directories, make_directories, install_file}
use limitlesslibrary.Install.Recipe.{Recipe, Selected, Decision}
use limitlesslibrary.Install.Adopt.{
  Host, Prepared, install_one, install_all, transact, settle, check_adoption, install_checked,
  adopt_exact_component,
}

module _ (host : Host) where
  -- If the copy of the first file, to a new path in the receiver's root, is cut short by an
  -- `OSError`, the adoption fails by that `OSError` and the partial file is left behind.
  pub adopt_leaves_partial :
      (owner_authorized : Bool) (decision : Decision) (recipe : Recipe) (tree : Tree)
      (selected : Selected) (p : Prepared) (ps : List Prepared) (name : String)
      → check_adoption host owner_authorized decision recipe tree ≡ ok (selected, p ∷ ps)
      → p.destination ≡ name ∷ []
      → node_at tree (name ∷ []) ≡ none
      → host.os.open_fails (name ∷ []) ≡ false
      → host.os.copy_fails (name ∷ []) ≡ true
      → adopt_exact_component host owner_authorized decision recipe tree
        ≡ (raised (os_error "copy"), (name ∷ [], file (host.os.partial (name ∷ []))) ∷ tree)
  unfolding adopt_exact_component install_checked transact settle install_all install_one
      make_parent_directories make_directories install_file
  adopt_leaves_partial owner_authorized decision recipe tree selected p ps name c d n o w =
      ground arith
