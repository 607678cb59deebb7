-- ===== src/Service/Covers.antt =====
-- What an accepted receiver context promises to the service.
use limitlesslibrary.Base.{
  ℕ, suc, ◌≡◌, String, true, ◌&&◌, Option, none, some, List, [], ◌∷◌, map, all, All, leb, in_list,
  length, Ascending, is_sorted_set, is_sorted_set-Ascending, ok, bind_ok, require_ok, ok-injective,
  arith, and_parts,
}
use mathlib.Core.Path.{subst}
use limitlesslibrary.Base.Json.{Json, null, boolean, int, float, str, arr, obj, list_of, get}
use limitlesslibrary.Service.Shape.{exact_fields, bounded_text}
use limitlesslibrary.Service.Context.{
  Target, Context, text_loop, sorted_texts, target_loop, targets_of, selected_target, applicable,
  covered_by, receiver_context,
}

-- The targets that count are all, or the one that is selected.
abbrev pub IsSelected : Option String → List Target → Type 0
IsSelected none targets = Unit
IsSelected (some id) targets = in_list id (map (λ t. t.id) targets) ≡ true

pub record IsContext (c : Context) : Type 0 where
  pub ordered : Ascending (map (λ t. t.id) c.targets)
  pub interfaces : Ascending c.interfaces
  pub some_interface : leb 1 (length c.interfaces) ≡ true
  pub selected : IsSelected c.selected c.targets
  pub covered :
      All (λ t. covered_by c.interfaces t.interfaces ≡ true) (applicable c.selected c.targets)

All-covered :
    (texts : List String) (ts : List Target)
    → all (λ t. covered_by texts t.interfaces) ts ≡ true
    → All (λ t. covered_by texts t.interfaces ≡ true) ts
All-covered texts [] h = tt
All-covered texts (t ∷ ts) h = ((and_parts h).0, All-covered texts ts ((and_parts h).1))

targets_of-Ascending :
    (value : Json) (ts : List Target) → targets_of value ≡ ok ts → Ascending (map (λ t. t.id) ts)
unfolding targets_of
targets_of-Ascending null ts h = ground arith
targets_of-Ascending (boolean b) ts h = ground arith
targets_of-Ascending (int n) ts h = ground arith
targets_of-Ascending (float x) ts h = ground arith
targets_of-Ascending (str s) ts h = ground arith
targets_of-Ascending (obj d) ts h = ground arith
targets_of-Ascending (arr values) ts h =
    let (_, h1) =
      require_ok (leb 1 (length (list_of values)) && leb (length (list_of values)) 8) _ _ h in
    let (us, _, h2) = bind_ok (target_loop (list_of values)) _ h1 in
    let (sorted, h3) = require_ok (is_sorted_set (map (λ t. t.id) us)) _ _ h2 in
    subst (λ ts. Ascending (map (λ t. t.id) ts)) (ok-injective h3)
      (is_sorted_set-Ascending (map (λ t. t.id) us) sorted)

length-text_loop :
    (values : List Json) (label : String) (maximum : ℕ) (texts : List String)
    → text_loop values label maximum ≡ ok texts
    → length texts ≡ length values
unfolding text_loop
length-text_loop [] label maximum texts h = ground arith
length-text_loop (value ∷ values) label maximum texts h =
    let (s, _, h1) = bind_ok (bounded_text value label maximum _) _ h in
    let (rest, e, h2) = bind_ok (text_loop values label maximum) _ h1 in
    let ih = length-text_loop values label maximum rest e in
    let same : s ∷ rest ≡ texts = ok-injective h2 in
    subst (λ texts. length texts ≡ suc (length values)) same (omega (arith, ih))

sorted_texts-Ascending :
    (value : Json) (label : String) (items maximum : ℕ) (texts : List String)
    → sorted_texts value label items maximum ≡ ok texts
    → Ascending texts × (leb 1 (length texts) ≡ true)
unfolding sorted_texts
sorted_texts-Ascending null label items maximum texts h = ground arith
sorted_texts-Ascending (boolean b) label items maximum texts h = ground arith
sorted_texts-Ascending (int n) label items maximum texts h = ground arith
sorted_texts-Ascending (float x) label items maximum texts h = ground arith
sorted_texts-Ascending (str s) label items maximum texts h = ground arith
sorted_texts-Ascending (obj d) label items maximum texts h = ground arith
sorted_texts-Ascending (arr values) label items maximum texts h =
    let (sized, h1) =
      require_ok (leb 1 (length (list_of values)) && leb (length (list_of values)) items) _ _ h in
    let (us, e, h2) = bind_ok (text_loop (list_of values) label maximum) _ h1 in
    let (sorted, h3) = require_ok (is_sorted_set us) _ _ h2 in
    let long = length-text_loop (list_of values) label maximum us e in
    subst (λ texts. Ascending texts × (leb 1 (length texts) ≡ true)) (ok-injective h3)
      (is_sorted_set-Ascending us sorted, rw long ((and_parts sized).0))

selected_target-IsSelected :
    (value : Json) (mode : String) (ts : List Target) (s : Option String)
    → selected_target value mode ts ≡ ok s
    → IsSelected s ts
unfolding selected_target
selected_target-IsSelected value mode ts none h = tt
selected_target-IsSelected value mode ts (some id) h = ground arith

-- A context that is accepted lists its targets in the strict order of their ids, asks for at least
-- one interface, selects one of its targets or none, and every target that counts has all the
-- interfaces that are asked for.
pub receiver_context-IsContext :
    (value : Json) (c : Context) → receiver_context value ≡ ok c → IsContext c
unfolding receiver_context
receiver_context-IsContext value c h =
    let (context, _, h1) = bind_ok (exact_fields value _ _) _ h in
    let (execution, _, h2) = bind_ok (exact_fields (get context "execution") _ _) _ h1 in
    let (targets, e1, h3) = bind_ok (targets_of (get context "targets")) _ h2 in
    let (mode, _, h4) = bind_ok (bounded_text (get context "compatibilityMode") _ _ _) _ h3 in
    let (_, h5) = require_ok (in_list mode ("all-targets" ∷ "one-target" ∷ [])) _ _ h4 in
    let (selected, e2, h6) =
      bind_ok (selected_target (get context "selectedTarget") mode targets) _ h5 in
    let (interfaces, e3, h7) = bind_ok (sorted_texts (get context "interfaces") _ _ _) _ h6 in
    let (covered, h8) =
      require_ok (all (λ t. covered_by interfaces t.interfaces) (applicable selected targets)) _ _
        h7 in
    let (_, _, h9) = bind_ok (bounded_text (get context "receiverId") _ _ _) _ h8 in
    let (_, _, h10) = bind_ok (bounded_text (get context "allowedUse") _ _ _) _ h9 in
    let (_, _, h11) = bind_ok (bounded_text (get execution "platform") _ _ _) _ h10 in
    let (_, _, h12) = bind_ok (bounded_text (get execution "architecture") _ _ _) _ h11 in
    let (_, _, h13) = bind_ok (bounded_text (get execution "runtime") _ _ _) _ h12 in
    let (_, _, h14) = bind_ok (bounded_text (get execution "version") _ _ _) _ h13 in
    let (sorted, many) = sorted_texts-Ascending (get context "interfaces") _ _ _ interfaces e3 in
    subst IsContext (ok-injective h14) (record {
      ordered = targets_of-Ascending (get context "targets") targets e1;
      interfaces = sorted;
      some_interface = many;
      selected = selected_target-IsSelected (get context "selectedTarget") mode targets selected e2;
      covered = All-covered interfaces (applicable selected targets) covered;
    })
