-- ===== src/Bundle/Paths.antt =====
-- `_path` of `exact_file_bundle.py`: what a path that it accepts is.
use limitlesslibrary.Base.{
  ℕ, ◌≤◌, ◌≡◌, ◌≢◌, refl, sym, ap, ◌∙◌, String, true, false, ◌||◌, some, List, [], ◌∷◌, ◌++◌, ◌==◌,
  length, codes, eq_iff, in_list, any, All, Option-cases, inl, inr, Outcome, ok, raised, require_ok,
  arith,
}
use mathlib.Core.List.{reverse, reverse-cons}
use limitlesslibrary.Base.Json.{Json, str}
use limitlesslibrary.Service.Shape.{Bytes, Toolkit}
use limitlesslibrary.Receiver.Tree.{FilePath}
use limitlesslibrary.Receiver.Paths as P
use limitlesslibrary.Receiver.Paths.{relative_path, parts_of}
use limitlesslibrary.Bundle.{Texts, is_control, without_git, path_of, short_normal}

-- Neither empty nor a dot, and no Git metadata.
abbrev pub IsPart : String → Type 0
IsPart s = (s ≢ "") × (s ≢ ".") × (s ≢ "..") × (s ≢ ".git")

-- No control character, and no backslash.
abbrev pub IsPlain : ℕ → Type 0
IsPlain c = (32 ≤ c) × (c ≢ 127) × (c ≢ 92)

-- Every part between the slashes is a name, so that the path is relative and canonical.
pub record IsPath (texts : Texts) (p : String) : Type 0 where
  pub named : All IsPart (parts_of p)
  pub plain : All IsPlain (codes p)
  pub normal : texts.nfc p ≡ p
  pub short : (encoded : Bytes) × (texts.utf8 p ≡ some encoded) × (length encoded ≤ 500)

in_list-append :
    (s : String) (xs ys : List String) → in_list s (xs ++ ys) ≡ (in_list s xs || in_list s ys)
in_list-append s [] ys = refl
in_list-append s (x ∷ xs) ys = ground (arith, in_list-append s xs ys)

in_list-reverse : (s : String) (xs : List String) → in_list s (reverse xs) ≡ in_list s xs
in_list-reverse s [] = refl
in_list-reverse s (x ∷ xs) =
    ap (in_list s) (reverse-cons x xs)
    ∙ in_list-append s (reverse xs) (x ∷ [])
    ∙ ground (arith, in_list-reverse s xs)

IsPart-All :
    (parts : List String)
    → any (λ part. in_list part ("" ∷ "." ∷ ".." ∷ [])) parts ≡ false
    → in_list ".git" parts ≡ false
    → All IsPart parts
IsPart-All [] h g = tt
IsPart-All (s ∷ parts) h g =
    let ih = IsPart-All parts in
    let e1 = eq_iff s "" in
    let e2 = eq_iff s "." in
    let e3 = eq_iff s ".." in
    let e4 = eq_iff ".git" s in
    (
      (
        λ e. ground (arith, e1),
        λ e. ground (arith, e2),
        λ e. ground (arith, e3),
        λ e. ground (arith, e4, sym e),
      ),
      ih (ground arith) (ground arith),
    )

IsPlain-All :
    (cs : List ℕ)
    → any is_control cs ≡ false
    → any (λ c. c == 92 || c == 0) cs ≡ false
    → All IsPlain cs
IsPlain-All [] h g = tt
IsPlain-All (c ∷ cs) h g =
    let ih = IsPlain-All cs in
    ((ground arith, ground arith, ground arith), ih (ground arith) (ground arith))

-- A canonical relative path, and what it is made of.
relative_path_ok :
    (s label : String) (parts : FilePath)
    → relative_path s label ≡ ok parts
    → (parts ≡ reverse (parts_of s))
      × (any (λ c. c == 92 || c == 0) (codes s) ≡ false)
      × (any (λ part. in_list part ("" ∷ "." ∷ ".." ∷ [])) (parts_of s) ≡ false)
unfolding relative_path
relative_path_ok s label parts h = ground arith

without_git_ok :
    (kit : Toolkit) (texts : Texts) (o : Outcome P.Failure FilePath) (s p : String)
    → without_git kit texts o s ≡ ok p
    → (parts : FilePath) × (o ≡ ok parts) × (in_list ".git" parts ≡ false) × (s ≡ p)
without_git_ok kit texts (raised e) s p h = ground arith
without_git_ok kit texts (ok parts) s p h = (parts, refl, ground arith, ground arith)

short_normal_ok :
    (kit : Toolkit) (texts : Texts) (s : String)
    → short_normal kit texts s ≡ true
    → (texts.nfc s ≡ s)
      × (any is_control (codes s) ≡ false)
      × ((encoded : Bytes) × (texts.utf8 s ≡ some encoded) × (length encoded ≤ 500))
short_normal_ok kit texts s h = elim (Option-cases (texts.utf8 s)) [
  | inl e ↦ ground (arith, e)
  | inr (encoded, e) ↦
      let same = eq_iff (texts.nfc s) s in
      (ground (arith, e, same), ground (arith, e), (encoded, e, ground (arith, e)))
]

module _ (kit : Toolkit) (texts : Texts) where
  pub path_of-str : (value : Json) (p : String) → path_of kit texts value ≡ ok p → value ≡ str p
  unfolding path_of
  path_of-str (str s) p h =
      let (_, h1) = require_ok (short_normal kit texts s) _ _ h in
      let (_, _, _, same) =
        without_git_ok kit texts (relative_path s "exact bundle file path") s p h1 in
      ap (λ t. str t) same
  path_of-str _ p h = ground arith

  pub path_of-IsPath : (p : String) → path_of kit texts (str p) ≡ ok p → IsPath texts p
  unfolding path_of
  path_of-IsPath p h =
      let (short, h1) = require_ok (short_normal kit texts p) _ _ h in
      let (parts, relative, git, _) =
        without_git_ok kit texts (relative_path p "exact bundle file path") p p h1 in
      let (same, unescaped, names) = relative_path_ok p "exact bundle file path" parts relative in
      let (normal, plain, bounded) = short_normal_ok kit texts p short in
      record {
        named =
            IsPart-All (parts_of p) names
              (sym (in_list-reverse ".git" (parts_of p)) ∙ ap (in_list ".git") (sym same) ∙ git);
        plain = IsPlain-All (codes p) plain unescaped;
        normal = normal;
        short = bounded;
      }
