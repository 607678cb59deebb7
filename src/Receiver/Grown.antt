-- ===== src/Receiver/Grown.antt =====
-- A tree that has grown by new files and directories, and the removal of what was added.
use limitlesslibrary.Base.{
  ◌≡◌, refl, ap, ◌∙◌, String, Bool, true, false, ◌&&◌, ◌||◌, none, some, List, [], ◌∷◌, ◌⊎◌, inl,
  inr, if◌then◌else◌, arith, length, Bool-cases, Option-cases, All,
}
use limitlesslibrary.Receiver.Tree.{
  FilePath, Node, file, directory, Tree, path_eq, path_eq_iff, node_at, erase, has_children,
  is_there, erase_absent, node_at-erase, Closed,
}

-- The directory that an entry is put into.
abbrev pub HasParent : Tree → FilePath → Type 0
HasParent tree [] = ⊥
HasParent tree (part ∷ []) = Unit
HasParent tree (part ∷ above ∷ rest) = node_at tree (above ∷ rest) ≡ some directory

-- The start, and what was added, the newest first.
pub data Grown (start : Tree) : Tree → List FilePath → List FilePath → Type 0 where
  begin : Grown start start [] []
  add_file :
      {tree : Tree} {files directories : List FilePath} (p : FilePath) (content : String)
      → Grown start tree files directories
      → node_at tree p ≡ none
      → HasParent tree p
      → Grown start ((p, file content) ∷ tree) (p ∷ files) directories
  add_directory :
      {tree : Tree} {files directories : List FilePath} (p : FilePath)
      → Grown start tree files directories
      → node_at tree p ≡ none
      → HasParent tree p
      → Grown start ((p, directory) ∷ tree) files (p ∷ directories)

-- What was there at the start stays as it was.
pub Grown-keeps :
    {start tree : Tree} {files directories : List FilePath} (q : FilePath) (n : Node)
    → Grown start tree files directories
    → node_at start q ≡ some n
    → node_at tree q ≡ some n
unfolding node_at
Grown-keeps q n begin h = h
Grown-keeps q n (add_file {tree} p content g fresh parent) h =
    ground (arith, Grown-keeps q n g h, path_eq_iff q p)
Grown-keeps q n (add_directory p g fresh parent) h =
    ground (arith, Grown-keeps q n g h, path_eq_iff q p)

Closed-step :
    (tree : Tree) (p : FilePath) (n : Node)
    → Closed tree
    → HasParent tree p
    → Closed ((p, n) ∷ tree)
unfolding node_at has_children
Closed-step tree [] n c h q ne absent = absurd h
Closed-step tree (part ∷ []) n c h q ne absent =
    ground (arith, c q ne, path_eq_iff q [], path_eq_iff q (part ∷ []))
Closed-step tree (part ∷ above ∷ rest) n c h q ne absent =
    ground (arith, c q ne, path_eq_iff q (above ∷ rest), path_eq_iff q (part ∷ above ∷ rest))

pub Grown-Closed :
    {start tree : Tree} {files directories : List FilePath}
    → Grown start tree files directories
    → Closed start
    → Closed tree
Grown-Closed begin c = c
Grown-Closed (add_file {tree} p content g fresh parent) c =
    Closed-step tree p (file content) (Grown-Closed g c) parent
Grown-Closed (add_directory {tree} p g fresh parent) c =
    Closed-step tree p directory (Grown-Closed g c) parent

-- `unlink(missing_ok=True)` for each created file: the first refusal ends the loop, and the rest of
-- the handler with it.
unfoldable pub unlink_all : (FilePath → Bool) → List FilePath → Tree → Bool × Tree
unlink_all refused [] tree = (true, tree)
unlink_all refused (p ∷ files) tree =
    let rest = unlink_all refused files (erase p tree) in
    if is_there (node_at tree p) && refused p then (false, tree) else rest

-- `rmdir`, which leaves a directory that is not empty, or where the system refuses.
unfoldable pub rmdir : (FilePath → Bool) → FilePath → Tree → Tree
rmdir refused p tree = if has_children p tree || refused p then tree else erase p tree

unfoldable pub rmdir_all : (FilePath → Bool) → List FilePath → Tree → Tree
unfolding rmdir
rmdir_all refused [] tree = tree
rmdir_all refused (p ∷ directories) tree = rmdir_all refused directories (rmdir refused p tree)

-- The removal of files that nothing refuses.
unfoldable pub erase_all : List FilePath → Tree → Tree
erase_all [] tree = tree
erase_all (p ∷ files) tree = erase_all files (erase p tree)

abbrev pub path_in : FilePath → List FilePath → Bool
path_in p [] = false
path_in p (q ∷ qs) = path_eq p q || path_in p qs

node_at-erase_all :
    (files : List FilePath) (q : FilePath) (tree : Tree)
    → node_at (erase_all files tree) q ≡ (if path_in q files then none else node_at tree q)
unfolding erase_all
node_at-erase_all [] q tree = refl
node_at-erase_all (p ∷ files) q tree = ground (
  arith,
  node_at-erase_all files q (erase p tree),
  node_at-erase p q tree,
  path_eq_iff p q,
  path_eq_iff q p,
)

erase_all-cons :
    (files : List FilePath) (p : FilePath) (n : Node) (tree : Tree)
    → path_in p files ≡ false
    → erase_all files ((p, n) ∷ tree) ≡ (p, n) ∷ erase_all files tree
unfolding erase_all erase
erase_all-cons [] p n tree h = refl
erase_all-cons (q ∷ files) p n tree h =
    ground (arith, erase_all-cons files p n (erase q tree), path_eq_iff p q, path_eq_iff q p)

-- Where a created file is, there is no directory, and not nothing.
created_is_file :
    {start tree : Tree} {files directories : List FilePath} (q : FilePath)
    → Grown start tree files directories
    → path_in q files ≡ true
    → (c : String) × (node_at tree q ≡ some (file c))
unfolding node_at
created_is_file q begin h = cc
created_is_file q (add_file p content g fresh parent) h = elim (Bool-cases (path_eq q p)) [
  | inl same ↦ (content, rw same)
  | inr differ ↦ rw differ (created_is_file q g (rw differ at h))
]
created_is_file q (add_directory {tree} p g fresh parent) h =
    let (c, e) = created_is_file q g h in (c, ground (arith, path_eq_iff q p))

not_created :
    {start tree : Tree} {files directories : List FilePath} (q : FilePath)
    → Grown start tree files directories
    → (node_at tree q ≡ none) ⊎ (node_at tree q ≡ some directory)
    → path_in q files ≡ false
not_created {files = files} q g h = elim (Bool-cases (path_in q files)) [
  | inl created ↦ let (c, e) = created_is_file q g created in ground arith
  | inr other ↦ other
]

HasParent-erase_all :
    {start tree : Tree} {files directories : List FilePath} (p : FilePath)
    → Grown start tree files directories
    → HasParent tree p
    → HasParent (erase_all files tree) p
HasParent-erase_all [] g h = h
HasParent-erase_all (part ∷ []) g h = tt
HasParent-erase_all {tree = tree} {files = files} (part ∷ above ∷ rest) g h =
    rw (node_at-erase_all, not_created (above ∷ rest) g (inr h)) h

-- The created files are gone, the created directories are left.
erase_all-Grown :
    {start tree : Tree} {files directories : List FilePath}
    → Grown start tree files directories
    → Grown start (erase_all files tree) [] directories
unfolding erase_all erase
erase_all-Grown begin = begin
erase_all-Grown {start} {directories = directories}
      (add_file {tree} {files} p content g fresh parent) =
    let gone : erase p ((p, file content) ∷ tree) ≡ tree =
      rw ((path_eq_iff p p).1 refl) (erase_absent p tree fresh) in
    rw gone (erase_all-Grown g)
erase_all-Grown (add_directory {tree} {files} p g fresh parent) =
    rw (erase_all-cons files p directory tree (not_created p g (inl fresh))) (
      add_directory p (erase_all-Grown g)
        (node_at-erase_all files p tree ∙ rw (not_created p g (inl fresh)) fresh)
        (HasParent-erase_all p g parent))

not_own_parent : (part : String) (parent : FilePath) → path_eq (part ∷ parent) parent ≡ false
not_own_parent part parent = elim (Bool-cases (path_eq (part ∷ parent) parent)) [
  | inl same ↦
      absurd (omega (arith, ap (length {A = String}) ((path_eq_iff (part ∷ parent) parent).0 same)))
  | inr differ ↦ differ
]

-- A directory that was just made is empty, and goes where nothing refuses.
rmdir_new :
    (refused : FilePath → Bool) (tree : Tree) (p : FilePath)
    → refused p ≡ false
    → node_at tree p ≡ none
    → HasParent tree p
    → Closed tree
    → rmdir refused p ((p, directory) ∷ tree) ≡ tree
unfolding rmdir erase has_children
rmdir_new refused tree [] free fresh parent c = absurd parent
rmdir_new refused tree (part ∷ above) free fresh parent c = ground (
  arith,
  not_own_parent part above,
  c (part ∷ above) (λ e. cc) fresh,
  erase_absent (part ∷ above) tree fresh,
  path_eq_iff (part ∷ above) (part ∷ above),
)

rmdir_all-Grown :
    {start tree : Tree} {files directories : List FilePath} (refused : FilePath → Bool)
    → ((p : FilePath) → refused p ≡ false)
    → Grown start tree files directories
    → files ≡ []
    → Closed start
    → rmdir_all refused directories tree ≡ start
unfolding rmdir_all
rmdir_all-Grown refused free begin e c = refl
rmdir_all-Grown refused free (add_file p content g fresh parent) e c = cc
rmdir_all-Grown refused free (add_directory {tree} p g fresh parent) e c =
    rw (rmdir_new refused tree p (free p) fresh parent (Grown-Closed g c))
      (rmdir_all-Grown refused free g e c)

-- Where no file is refused, all of them go.
pub unlink_all_done :
    (refused : FilePath → Bool) (files : List FilePath) (tree after : Tree)
    → unlink_all refused files tree ≡ (true, after)
    → erase_all files tree ≡ after
unfolding unlink_all erase_all
unlink_all_done refused [] tree after h = ap (λ x. x.1) h
unlink_all_done refused (p ∷ files) tree after h =
    elim (Bool-cases (is_there (node_at tree p) && refused p)) [
      | inl stop ↦ ground arith
      | inr free ↦ unlink_all_done refused files (erase p tree) after (rw free at h)
    ]

-- Removing what was added, files first and directories from the newest to the oldest, gives back
-- the tree of the start.
pub undo-Grown :
    {start tree : Tree} {files directories : List FilePath} (refused : FilePath → Bool)
    → ((p : FilePath) → refused p ≡ false)
    → Grown start tree files directories
    → Closed start
    → rmdir_all refused directories (erase_all files tree) ≡ start
undo-Grown refused free g c = rmdir_all-Grown refused free (erase_all-Grown g) refl c

-- What erasing leaves was there.
erase_shrinks :
    (p q : FilePath) (n : Node) (tree : Tree)
    → node_at (erase p tree) q ≡ some n
    → node_at tree q ≡ some n
erase_shrinks p q n tree h = ground (arith, node_at-erase p q tree)

rmdir_all_shrinks :
    (refused : FilePath → Bool) (directories : List FilePath) (q : FilePath) (n : Node)
    (tree : Tree)
    → node_at (rmdir_all refused directories tree) q ≡ some n
    → node_at tree q ≡ some n
unfolding rmdir_all rmdir
rmdir_all_shrinks refused [] q n tree h = h
rmdir_all_shrinks refused (p ∷ directories) q n tree h =
    let before = rmdir_all_shrinks refused directories q n (rmdir refused p tree) h in
    elim (Bool-cases (has_children p tree || refused p)) [
      | inl stays ↦ rw stays at before
      | inr goes ↦ erase_shrinks p q n tree (rw goes at before)
    ]

Grown-directories :
    {start tree : Tree} {files directories : List FilePath} (q : FilePath) (n : Node)
    → Grown start tree files directories
    → files ≡ []
    → node_at tree q ≡ some n
    → (node_at start q ≡ some n) ⊎ (n ≡ directory)
unfolding node_at
Grown-directories q n begin e h = inl h
Grown-directories q n (add_file p content g fresh parent) e h = cc
Grown-directories q n (add_directory {tree} p g fresh parent) e h =
    elim (Bool-cases (path_eq q p)) [
      | inl same ↦ inr (ground arith)
      | inr differ ↦ Grown-directories q n g e (rw differ at h)
    ]

-- Whatever the system refuses, only directories are left of what was added.
pub undo_leaves_directories :
    {start tree : Tree} {files directories : List FilePath} (refused : FilePath → Bool)
    (q : FilePath) (n : Node)
    → Grown start tree files directories
    → node_at (rmdir_all refused directories (erase_all files tree)) q ≡ some n
    → (node_at start q ≡ some n) ⊎ (n ≡ directory)
undo_leaves_directories {files = files} {directories = directories} refused q n g h =
    Grown-directories q n (erase_all-Grown g) refl (rmdir_all_shrinks refused directories q n _ h)

-- The tree has all that the start has.
abbrev pub Keeps : Tree → Tree → Type 0
Keeps start tree = (q : FilePath) (n : Node) → node_at start q ≡ some n → node_at tree q ≡ some n

erase-Keeps :
    (start tree : Tree) (p : FilePath)
    → node_at start p ≡ none
    → Keeps start tree
    → Keeps start (erase p tree)
erase-Keeps start tree p fresh keeps q n h =
    ground (arith, node_at-erase p q tree, path_eq_iff p q, keeps q n h)

abbrev AllNew : Tree → List FilePath → Type 0
AllNew start ps = All (λ p. node_at start p ≡ none) ps

unlink_all-Keeps :
    (refused : FilePath → Bool) (start tree : Tree) (files : List FilePath)
    → AllNew start files
    → Keeps start tree
    → Keeps start (unlink_all refused files tree).1
unfolding unlink_all
unlink_all-Keeps refused start tree [] new keeps = keeps
unlink_all-Keeps refused start tree (p ∷ files) new keeps =
    elim (Bool-cases (is_there (node_at tree p) && refused p)) [
      | inl stop ↦ rw stop keeps
      | inr free ↦ rw free (
          unlink_all-Keeps refused start (erase p tree) files new.1
            (erase-Keeps start tree p new.0 keeps))
    ]

rmdir_all-Keeps :
    (refused : FilePath → Bool) (start tree : Tree) (directories : List FilePath)
    → AllNew start directories
    → Keeps start tree
    → Keeps start (rmdir_all refused directories tree)
unfolding rmdir_all rmdir
rmdir_all-Keeps refused start tree [] new keeps = keeps
rmdir_all-Keeps refused start tree (p ∷ directories) new keeps =
    rmdir_all-Keeps refused start (rmdir refused p tree) directories new.1
      (elim (Bool-cases (has_children p tree || refused p)) [
        | inl stays ↦ rw stays keeps
        | inr goes ↦ rw goes (erase-Keeps start tree p new.0 keeps)
      ])

new_at_start :
    {start tree : Tree} {files directories : List FilePath} (p : FilePath)
    → Grown start tree files directories
    → node_at tree p ≡ none
    → node_at start p ≡ none
new_at_start {start} p g fresh = elim (Option-cases (node_at start p)) [
  | inl e ↦ e
  | inr (n, e) ↦ let there = Grown-keeps p n g e in ground arith
]

Grown-AllNew :
    {start tree : Tree} {files directories : List FilePath}
    → Grown start tree files directories
    → AllNew start files × AllNew start directories
Grown-AllNew begin = (tt, tt)
Grown-AllNew (add_file p content g fresh parent) =
    let (f, d) = Grown-AllNew g in ((new_at_start p g fresh, f), d)
Grown-AllNew (add_directory p g fresh parent) =
    let (f, d) = Grown-AllNew g in (f, (new_at_start p g fresh, d))

-- Whatever the system refuses, neither loop takes away what was there.
pub unlink_all-Grown :
    {start tree : Tree} {files directories : List FilePath} (refused : FilePath → Bool)
    → Grown start tree files directories
    → Keeps start (unlink_all refused files tree).1
unlink_all-Grown {start} {tree} {files} refused g =
    unlink_all-Keeps refused start tree files (Grown-AllNew g).0 (λ q n h. Grown-keeps q n g h)

pub rmdir_all-Keeps_added :
    {start tree : Tree} {files directories : List FilePath} (refused : FilePath → Bool)
    (left : Tree)
    → Grown start tree files directories
    → Keeps start left
    → Keeps start (rmdir_all refused directories left)
rmdir_all-Keeps_added {start} {directories = directories} refused left g keeps =
    rmdir_all-Keeps refused start left directories (Grown-AllNew g).1 keeps
