-- ===== src/Receiver/Paths.antt =====
-- `relative_path`, `regular_file_under` and `safe_destination` of `contracts.py`.
use Prim.Native.Char.{Char, code}
use limitlesslibrary.Base.{
  ℕ, String, ◌<>◌, str_eq, Bool, not, ◌||◌, Option, none, some, List, [], ◌∷◌, codes, in_list,
  if◌then◌else◌, any, ◌==◌, Outcome, ok, raised, ◌>>=◌, ◌>>◌, require,
}
use mathlib.Core.List.{reverse}
use limitlesslibrary.Receiver.Tree.{
  FilePath, Node, file, symlink, Tree, node_at, is_there, is_directory,
}

-- The exceptions of the installer and of what it calls; `os_error` is any other `OSError`.
pub data Failure : Type 0 where
  adoption_error catalog_error contract_error sandbox_error os_error key_error : String → Failure

abbrev put_in_front : Char → List String → List String
put_in_front c [] = String.◌∷◌ c String.[] ∷ []
put_in_front c (part ∷ parts) = String.◌∷◌ c part ∷ parts

-- `value.split("/")`
unfoldable pub parts_of : String → List String
parts_of String.[] = "" ∷ []
parts_of (String.◌∷◌ c s) =
    let rest = parts_of s in if code c == b'/' then "" ∷ rest else put_in_front c rest

abbrev is_forbidden_char : ℕ → Bool
is_forbidden_char c = c == 92 || c == 0

abbrev is_forbidden_part : String → Bool
is_forbidden_part part = in_list part ("" ∷ "." ∷ ".." ∷ [])

-- `relative_path`. That `PurePosixPath(value)` is relative and prints as `value` again says that no
-- part between slashes is empty or a dot.
unfoldable pub relative_path : String → String → Outcome Failure FilePath
unfolding parts_of
relative_path value label =
    if str_eq value ""
      || any is_forbidden_char (codes value)
      || any is_forbidden_part (parts_of value)
    then raised (contract_error (label <> " must be a canonical relative POSIX path"))
    else ok (reverse (parts_of value))

-- `lstat` of each part in turn.
unfoldable pub walk : Tree → FilePath → String → Outcome Failure (Unit {0})
walk tree [] label = ok tt
walk tree (part ∷ above) label = do
  walk tree above label
  elim (node_at tree (part ∷ above)) [
    | none ↦ raised (contract_error (label <> " is unavailable"))
    | some symlink ↦ raised (contract_error (label <> " crosses a symlink"))
    | some _ ↦ ok tt
  ]

regular : Option Node → String → Outcome Failure String
regular (some (file content)) label = ok content
regular _ label = raised (contract_error (label <> " must identify a regular file"))

-- `regular_file_under`, with the content of the file that it finds
unfoldable pub regular_file_under : Tree → String → String → Outcome Failure String
unfolding walk regular
regular_file_under tree relative label = do
  path ← relative_path relative label
  walk tree path label
  regular (node_at tree path) label

-- The loop over the parents.
unfoldable pub safe_parents : Tree → FilePath → Outcome Failure (Unit {0})
safe_parents tree [] = ok tt
safe_parents tree (part ∷ above) = do
  safe_parents tree above
  require
      (not (is_there (node_at tree (part ∷ above))) || is_directory (node_at tree (part ∷ above)))
      (contract_error "installation target has an unsafe parent")

new_path : Tree → FilePath → Outcome Failure FilePath
new_path tree [] = raised (contract_error "installation target is the root")
new_path tree (part ∷ above) = do
  safe_parents tree above
  require (not (is_there (node_at tree (part ∷ above))))
      (contract_error "refusing to overwrite receiver path")
  ok (part ∷ above)

-- `safe_destination`. A relative path has at least one part.
unfoldable pub safe_destination : Tree → String → Outcome Failure FilePath
unfolding new_path
safe_destination tree relative = do
  path ← relative_path relative "installation target"
  new_path tree path
