-- ===== src/Receiver/Tree.antt =====
-- A file tree below the receiver's root. A path is its parts, the last one first, so that the
-- parent is the rest; the root is `[]`. The newest entry stands in front.
use limitlesslibrary.Base.{
  ◌≡◌, ◌≢◌, ◌↔◌, refl, String, str_eq, eq_iff, Bool, true, false, ◌&&◌, Option, none, some, List,
  [], ◌∷◌, if◌then◌else◌, any, arith,
}

abbrev pub FilePath : Type 0
FilePath = List String

pub data Node : Type 0 where
  -- a regular file with its content
  file : String → Node
  directory symlink : Node

abbrev pub Tree : Type 0
Tree = List (FilePath × Node)

unfoldable pub path_eq : FilePath → FilePath → Bool
path_eq [] [] = true
path_eq [] (q ∷ qs) = false
path_eq (p ∷ ps) [] = false
path_eq (p ∷ ps) (q ∷ qs) = str_eq p q && path_eq ps qs

pub path_eq_iff : (p q : FilePath) → (path_eq p q ≡ true) ↔ (p ≡ q)
unfolding path_eq
path_eq_iff [] [] = (λ h. refl, λ h. refl)
path_eq_iff [] (q ∷ qs) = ground arith
path_eq_iff (p ∷ ps) [] = ground arith
path_eq_iff (p ∷ ps) (q ∷ qs) = ground (arith, eq_iff p q, path_eq_iff ps qs)

-- `lstat`: what the path itself names
unfoldable pub node_at : Tree → FilePath → Option Node
node_at [] p = none
node_at ((q, n) ∷ tree) p = if path_eq p q then some n else node_at tree p

unfoldable pub erase : FilePath → Tree → Tree
erase p [] = []
erase p ((q, n) ∷ tree) = let rest = erase p tree in if path_eq p q then rest else (q, n) ∷ rest

abbrev pub is_child : FilePath → FilePath × Node → Bool
is_child p ([], n) = false
is_child p (part ∷ parent, n) = path_eq p parent

unfoldable pub has_children : FilePath → Tree → Bool
has_children p tree = any (is_child p) tree

abbrev pub is_there : Option Node → Bool
is_there none = false
is_there (some n) = true

abbrev pub is_directory : Option Node → Bool
is_directory (some directory) = true
is_directory _ = false

pub erase_absent : (p : FilePath) (tree : Tree) → node_at tree p ≡ none → erase p tree ≡ tree
unfolding node_at erase
erase_absent p [] h = refl
erase_absent p ((q, n) ∷ tree) h = ground (arith, erase_absent p tree)

pub node_at-erase :
    (p q : FilePath) (tree : Tree)
    → node_at (erase p tree) q ≡ (if path_eq p q then none else node_at tree q)
unfolding node_at erase
node_at-erase p q [] = ground arith
node_at-erase p q ((r, n) ∷ tree) =
    ground (arith, node_at-erase p q tree, path_eq_iff p q, path_eq_iff p r, path_eq_iff q r)

-- Nothing lies under what is not there.
abbrev pub Closed : Tree → Type 0
Closed tree = (p : FilePath) → p ≢ [] → node_at tree p ≡ none → has_children p tree ≡ false
