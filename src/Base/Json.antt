-- ===== src/Base/Json.antt =====
-- The Python values that `json.loads` returns: `None`, `bool`, `int`, `float`, `str`, `list` and
-- `dict`. A float is kept as its literal, which the sources never read. A dict is its items in order.
use Prim.Native.Nat.{ℕ, ◌-◌}
use Prim.Native.String.{String}
use mathlib.Core.Path.{◌≡◌, refl, ap}
use mathlib.Core.Bool.{Bool, true, false, not}
use mathlib.Core.Option.{Option, none, some}
use mathlib.Core.List.{List, [], ◌∷◌}
use text.Mathlib.Text.{◌==◌ as str_eq}
use limitlesslibrary.Base.Tests.{if◌then◌else◌}
use limitlesslibrary.Base.Text.{in_list}
use limitlesslibrary.Base.Lists.{all}

-- `negsuc n` is -(n + 1).
pub data ℤ : Type 0 where
  pos : ℕ → ℤ
  negsuc : ℕ → ℤ

-- -n, for n above 0
abbrev pub minus : ℕ → ℤ
minus n = negsuc (n - 1)

mutual
  pub data Json : Type 0 where
    null : Json
    boolean : Bool → Json
    int : ℤ → Json
    float : String → Json
    str : String → Json
    arr : Items → Json
    obj : Fields → Json

  pub data Items : Type 0 where
    nil : Items
    cons : Json → Items → Items

  pub data Fields : Type 0 where
    end : Fields
    field : String → Json → Fields → Fields

abbrev pub items_of : List Json → Items
items_of [] = nil
items_of (j ∷ js) = cons j (items_of js)

abbrev pub list_of : Items → List Json
list_of nil = []
list_of (cons j js) = j ∷ list_of js

pub list_of-items_of : (js : List Json) → list_of (items_of js) ≡ js
list_of-items_of [] = refl
list_of-items_of (j ∷ js) = ap (λ t. j ∷ t) (list_of-items_of js)

abbrev pub fields_of : List (String × Json) → Fields
fields_of [] = end
fields_of ((k, v) ∷ d) = field k v (fields_of d)

-- A list display and a dict display.
abbrev pub array : List Json → Json
array js = arr (items_of js)

abbrev pub object : List (String × Json) → Json
object d = obj (fields_of d)

abbrev pub lookup : String → Fields → Option Json
lookup k end = none
lookup k (field j v d) = if str_eq k j then some v else lookup k d

-- `d.get(k)`, which is `None` for a missing key
abbrev pub get : Fields → String → Json
get d k = elim (lookup k d) [ none ↦ null | some v ↦ v ]

-- `k in d`
abbrev pub has_key : Fields → String → Bool
has_key d k = elim (lookup k d) [ none ↦ false | some _ ↦ true ]

abbrev pub keys : Fields → List String
keys end = []
keys (field k v d) = k ∷ keys d

-- `d[k] = v`
abbrev pub insert : Fields → String → Json → Fields
insert end k v = field k v end
insert (field j w d) k v = if str_eq k j then field j v d else field j w (insert d k v)

-- `set(d) <= names`
abbrev pub keys_within : Fields → List String → Bool
keys_within d names = all (λ k. in_list k names) (keys d)

-- `names <= set(d)`
abbrev pub has_keys : Fields → List String → Bool
has_keys d names = all (has_key d) names

-- `isinstance(value, dict)`, `isinstance(value, str)`
abbrev pub is_object : Json → Bool
is_object (obj d) = true
is_object _ = false

abbrev pub is_str : Json → Bool
is_str (str s) = true
is_str _ = false

-- `value == text`
abbrev pub equals_text : Json → String → Bool
equals_text (str s) t = str_eq s t
equals_text _ t = false

-- `value in (…)`, for a tuple of texts
abbrev pub one_of : Json → List String → Bool
one_of (str s) ts = in_list s ts
one_of _ ts = false

-- `isinstance(value, str) and value`, as a test
abbrev pub is_nonempty_str : Json → Bool
is_nonempty_str (str s) = not (str_eq s "")
is_nonempty_str _ = false

-- `value is None`
abbrev pub is_null : Json → Bool
is_null null = true
is_null _ = false

-- `isinstance(value, bool)`
abbrev pub is_boolean : Json → Bool
is_boolean (boolean b) = true
is_boolean _ = false

-- Lists and dicts have no hash.
abbrev pub is_hashable : Json → Bool
is_hashable (arr xs) = false
is_hashable (obj d) = false
is_hashable _ = true
