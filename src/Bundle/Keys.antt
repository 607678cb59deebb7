-- ===== src/Bundle/Keys.antt =====
-- `json.dumps(…, sort_keys=True)`: a value with the keys of every dict in order, as it is read back from its
-- canonical form.
use limitlesslibrary.Base.{◌≡◌, ap, String, List, [], ◌∷◌, map, codes, codes_lt, if◌then◌else◌}
use limitlesslibrary.Base.Json.{Json, arr, obj, Items, nil, cons, items_of, Fields, end, field}

-- A field before the first greater key.
unfoldable pub put : String → Json → Fields → Fields
put k v end = field k v end
put k v (field j w d) =
    let rest = put k v d in
    if codes_lt (codes k) (codes j) then field k v (field j w d) else field j w rest

unfoldable mutual
  pub by_keys : Json → Json
  by_keys (arr js) = arr (items_by_keys js)
  by_keys (obj d) = obj (fields_by_keys d)
  by_keys value = value

  pub items_by_keys : Items → Items
  items_by_keys nil = nil
  items_by_keys (cons value js) = cons (by_keys value) (items_by_keys js)

  pub fields_by_keys : Fields → Fields
  fields_by_keys end = end
  fields_by_keys (field k v d) = put k (by_keys v) (fields_by_keys d)

pub items_by_keys-map :
    (f : String → Json) (ps : List String)
    → items_by_keys (items_of (map f ps)) ≡ items_of (map (λ p. by_keys (f p)) ps)
unfolding items_by_keys
items_by_keys-map f [] = λ i. nil
items_by_keys-map f (p ∷ ps) = ap (cons (by_keys (f p))) (items_by_keys-map f ps)
