-- ===== src/Install/Transaction.antt =====
-- `_make_parent_directories` and `_install_file`, on a tree that remembers what was created. The
-- lists of what was created stand newest first, the order in which the roll-back reads them.
use limitlesslibrary.Base.{
  String, Bool, true, false, ◌||◌, Option, none, some, List, [], ◌∷◌, if◌then◌else◌, Outcome, ok,
  raised,
}
use limitlesslibrary.Receiver.Tree.{FilePath, Node, file, directory, Tree, node_at, is_there}
use limitlesslibrary.Receiver.Grown.{unlink_all, rmdir_all}
use limitlesslibrary.Receiver.Paths.{Failure, adoption_error, os_error}

pub record Transaction : Type 0 where
  pub tree : Tree
  pub created_files : List FilePath
  pub created_directories : List FilePath

-- Where the operating system refuses, in the roll-back too, and what a copy that is cut short leaves
-- in the file.
pub record Os : Type 0 where
  pub mkdir_fails : FilePath → Bool
  pub open_fails : FilePath → Bool
  pub copy_fails : FilePath → Bool
  pub partial : FilePath → String
  pub unlink_fails : FilePath → Bool
  pub rmdir_fails : FilePath → Bool

abbrev pub Step : Type 0 → Type 0
Step A = Transaction → Outcome Failure A × Transaction

-- What was done before an exception stays done.
abbrev pub continue :
    {A B : Type 0}
    → Outcome Failure A × Transaction
    → (A → Step B)
    → Outcome Failure B × Transaction
continue (ok a, t) f = f a t
continue (raised e, t) f = (raised e, t)

infixl 5 ◌>>=◌ ◌>>◌
abbrev pub ◌>>=◌ : {A B : Type 0} → Step A → (A → Step B) → Step B
◌>>=◌ m f t = continue (m t) f

abbrev pub ◌>>◌ : {B : Type 0} → Step (Unit {0}) → Step B → Step B
m >> k = m >>= λ _. k

unfoldable pub lift : {A : Type 0} → Outcome Failure A → Step A
lift o t = (o, t)

unfoldable pub look : {A : Type 0} → (Tree → Outcome Failure A) → Step A
look f t = (f t.tree, t)

module _ (os : Os) where
  -- `directory.mkdir`, for what `lstat` finds there: what exists already must be a directory.
  unfoldable pub make_directory_at : Option Node → FilePath → Step (Unit {0})
  make_directory_at (some directory) p t = (ok tt, t)
  make_directory_at (some _) p t =
      (raised (adoption_error "installation target parent changed during installation"), t)
  make_directory_at none p t = if os.mkdir_fails p then (raised (os_error "mkdir"), t) else (
    ok tt,
    record t { tree = (p, directory) ∷ t.tree; created_directories = p ∷ t.created_directories },
  )

  unfoldable pub make_directory : FilePath → Step (Unit {0})
  unfolding make_directory_at
  make_directory p t = make_directory_at (node_at t.tree p) p t

  -- Where something is, it must be a directory; where nothing is, the result of making it.
  unfoldable pub unless_there :
      Option Node
      → Transaction
      → Outcome Failure (Unit {0}) × Transaction
      → Outcome Failure (Unit {0}) × Transaction
  unless_there (some directory) t made = (ok tt, t)
  unless_there (some _) t made = (raised (adoption_error "installation target parent is unsafe"), t)
  unless_there none t made = made

  -- The two loops as one recursion: up the missing parents to the first path that exists, which
  -- must be a directory, and back down making them.
  unfoldable pub make_directories : FilePath → Step (Unit {0})
  unfolding unless_there make_directory
  make_directories [] t = (ok tt, t)
  make_directories (part ∷ above) t =
      unless_there (node_at t.tree (part ∷ above)) t
        (continue (make_directories above t) (λ _. make_directory (part ∷ above)))

  abbrev pub parent : FilePath → FilePath
  parent [] = []
  parent (part ∷ above) = above

  -- `_make_parent_directories`
  unfoldable pub make_parent_directories : FilePath → Step (Unit {0})
  make_parent_directories destination = make_directories (parent destination)

  -- `_install_file`: the file is created, which fails on any existing path (the
  -- root is one), and then written.
  unfoldable pub install_file : String → FilePath → Step (Unit {0})
  install_file content [] t = (raised (adoption_error "cannot create exact installation target"), t)
  install_file content (part ∷ above) t =
      let destination = part ∷ above in
      if is_there (node_at t.tree destination) || os.open_fails destination
      then (raised (adoption_error "cannot create exact installation target"), t)
      else if os.copy_fails destination
      then (
        raised (os_error "copy"),
        record t { tree = (destination, file (os.partial destination)) ∷ t.tree },
      )
      else (ok tt, record t { tree = (destination, file content) ∷ t.tree })

-- `created_files.append(destination)`
unfoldable pub remember : FilePath → Step (Unit {0})
remember destination t = (ok tt, record t { created_files = destination ∷ t.created_files })

module _ (os : Os) where
  -- The second loop of the handler, which takes no notice of a refusal; an `OSError` of the first
  -- passes it by.
  abbrev pub after_unlinking : Bool × Tree → List FilePath → Outcome Failure (Unit {0}) × Tree
  after_unlinking (true, tree) directories = (ok tt, rmdir_all os.rmdir_fails directories tree)
  after_unlinking (false, tree) directories = (raised (os_error "unlink"), tree)

  -- The handler of the `except` clause.
  unfoldable pub roll_back : Transaction → Outcome Failure (Unit {0}) × Tree
  roll_back t =
      after_unlinking (unlink_all os.unlink_fails t.created_files t.tree) t.created_directories
