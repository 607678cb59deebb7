-- ===== src/Bundle/Exact.antt =====
-- What a payload that parses is.
use limitlesslibrary.Base.{
  ℕ, ◌≤◌, ◌≡◌, refl, sym, ap, ◌∙◌, String, Bool, true, false, ◌&&◌, ◌⊎◌, some, List, [], ◌∷◌, map,
  leb, ◌==◌, str_eq, eq_iff, length, Option-cases, Bool-cases, inl, inr, is_sorted_set,
  is_sorted_set-Ascending, Ascending, ok, bind_ok, require_ok, ok-injective, arith,
}
use mathlib.Core.Path.{subst}
use limitlesslibrary.Base.Json.{
  Json, str, int, pos, negsuc, arr, obj, Items, list_of, Fields, get, equals_text, keys_within,
  has_keys,
}
use limitlesslibrary.Service.Shape.{Failure, Bytes, Toolkit, bounded_int, bytes_eq}
use limitlesslibrary.Bundle.{
  Texts, BundleFile, bundle_version, maximum_payload, maximum_decoded, mode_of, digest_of, total,
  is_bundle_dict, files_of, path_of, data_of, file_dict, file_item, file_items, canonical_value,
  parse_bundle, listed_files,
}
use limitlesslibrary.Bundle.Paths.{IsPath, path_of-str, path_of-IsPath}

eq_of_bytes_eq : (a b : Bytes) → bytes_eq a b ≡ true → a ≡ b
unfolding bytes_eq
eq_of_bytes_eq [] [] h = refl
eq_of_bytes_eq [] (y ∷ b) h = ground arith
eq_of_bytes_eq (x ∷ a) [] h = ground arith
eq_of_bytes_eq (x ∷ a) (y ∷ b) h =
    let ih = eq_of_bytes_eq a b in
    let heads : x ≡ y = ground arith in
    let tails : a ≡ b = ground (arith, ih) in λ i. heads i ∷ tails i

pub bounded_int_below :
    (value : Json) (high n : ℕ) (e : Failure) → bounded_int value 0 high e ≡ ok n → n ≤ high
unfolding bounded_int
bounded_int_below value high n e h = ground arith

mode_of_ok :
    (value : Json) (m : String)
    → mode_of value ≡ ok m
    → (value ≡ str m) × ((m ≡ "0644") ⊎ (m ≡ "0755"))
unfolding mode_of
mode_of_ok (str s) m h =
    let plain = eq_iff s "0644" in
    let executable = eq_iff s "0755" in
    elim (Bool-cases (str_eq s "0644")) [
      | inl e ↦ (ground arith, inl (ground (arith, plain)))
      | inr e ↦ (ground arith, inr (ground (arith, executable)))
    ]
mode_of_ok _ m h = ground arith

digest_of_ok : (value : Json) (s : String) → digest_of value ≡ ok s → value ≡ str s
unfolding digest_of
digest_of_ok (str t) s h = ground arith
digest_of_ok _ s h = ground arith

bounded_int_ok :
    (value : Json) (low high n : ℕ) (e : Failure)
    → bounded_int value low high e ≡ ok n
    → value ≡ int (pos n)
unfolding bounded_int
bounded_int_ok (int (pos k)) low high n e h = ground arith
bounded_int_ok (int (negsuc k)) low high n e h = ground arith
bounded_int_ok _ low high n e h = ground arith

module _ (kit : Toolkit) (texts : Texts) where
  data_of_ok :
      (value : Json) (content : Bytes)
      → data_of kit texts value ≡ ok content
      → (s : String) × (value ≡ str s)
        × (kit.decode64 s ≡ some content)
        × (kit.encode64 content ≡ s)
  unfolding data_of
  data_of_ok (str s) content h = elim (Option-cases (kit.decode64 s)) [
    | inl e ↦ ground (arith, e)
    | inr (decoded, e) ↦
        let same = eq_iff (kit.encode64 decoded) s in
        let found : decoded ≡ content = ground (arith, e) in
        (s, refl, e ∙ ap (λ c. some c) found, ground (arith, e, same))
  ]
  data_of_ok _ content h = ground arith

  -- The file that a value describes: its bytes are those of the base64 text, with the length and the
  -- digest that the value states, and its path is relative and normal, outside Git's metadata.
  pub record Describes (value : Json) (f : BundleFile) : Type 0 where
    pub item : Fields
    pub dict : value ≡ obj item
    pub path : get item "path" ≡ str f.path
    pub valid : IsPath texts f.path
    pub mode : get item "mode" ≡ str f.mode
    pub regular : (f.mode ≡ "0644") ⊎ (f.mode ≡ "0755")
    pub stated_size : get item "byteLength" ≡ int (pos f.byte_length)
    pub size : length f.content ≡ f.byte_length
    pub small : f.byte_length ≤ maximum_decoded
    pub stated_digest : get item "contentDigest" ≡ str f.content_digest
    pub digest : kit.sha256 f.content ≡ f.content_digest
    pub encoded :
        (s : String) × (get item "data" ≡ str s)
        × (kit.decode64 s ≡ some f.content)
        × (kit.encode64 f.content ≡ s)

  -- One value for each file, in the same order.
  abbrev pub AllDescribe : List Json → List BundleFile → Type 0
  AllDescribe [] [] = Unit
  AllDescribe (v ∷ vs) (f ∷ fs) = Describes v f × AllDescribe vs fs
  AllDescribe [] (f ∷ fs) = ⊥
  AllDescribe (v ∷ vs) [] = ⊥

  pub record IsBundle (payload : Bytes) (files : List BundleFile) : Type 0 where
    pub bundle : Fields
    pub values : Items
    pub loaded : texts.loads payload ≡ some (obj bundle)
    pub canonical : kit.canonical (obj bundle) ≡ payload
    pub short : length payload ≤ maximum_payload
    pub version : get bundle "schemaVersion" ≡ str bundle_version
    pub listed : get bundle "files" ≡ arr values
    pub described : AllDescribe (list_of values) files
    pub sorted : Ascending (map (λ f. f.path) files)
    pub bounded : total (map (λ f. f.byte_length) files) ≤ maximum_decoded

  size_and_digest :
      (a n : ℕ) (s t : String) → ((a == n) && str_eq s t) ≡ true → (a ≡ n) × (str_eq s t ≡ true)
  size_and_digest a n s t h = ground arith

  file_dict_ok : (value : Json) (d : Fields) → file_dict kit texts value ≡ ok d → value ≡ obj d
  file_dict_ok (obj e) d h = ground arith
  file_dict_ok _ d h = ground arith

  file_item-Describes :
      (value : Json) (f : BundleFile) → file_item kit texts value ≡ ok f → Describes value f
  unfolding file_item
  file_item-Describes value f h =
      let (d, dict, h1) = bind_ok (file_dict kit texts value) _ h in
      let (p, path, h2) = bind_ok (path_of kit texts (get d "path")) _ h1 in
      let (m, mode, h3) = bind_ok (mode_of (get d "mode")) _ h2 in
      let (n, size, h4) = bind_ok (bounded_int (get d "byteLength") 0 maximum_decoded _) _ h3 in
      let (s, digest, h5) = bind_ok (digest_of (get d "contentDigest")) _ h4 in
      let (c, content, h6) = bind_ok (data_of kit texts (get d "data")) _ h5 in
      let (same, h7) = require_ok ((length c == n) && str_eq (kit.sha256 c) s) _ _ h6 in
      let (sizes, digests) = size_and_digest (length c) n (kit.sha256 c) s same in
      let (stated, regular) = mode_of_ok (get d "mode") m mode in
      let text : get d "path" ≡ str p = path_of-str kit texts (get d "path") p path in
      subst (Describes value) (ok-injective h7) (record {
        item = d;
        dict = file_dict_ok value d dict;
        path = text;
        valid = path_of-IsPath kit texts p (subst (λ v. path_of kit texts v ≡ ok p) text path);
        mode = stated;
        regular = regular;
        stated_size = bounded_int_ok (get d "byteLength") 0 maximum_decoded n _ size;
        size = sizes;
        small = bounded_int_below (get d "byteLength") maximum_decoded n _ size;
        stated_digest = digest_of_ok (get d "contentDigest") s digest;
        digest = (eq_iff (kit.sha256 c) s).0 digests;
        encoded = data_of_ok (get d "data") c content;
      })

  file_items-AllDescribe :
      (values : List Json) (fs : List BundleFile)
      → file_items kit texts values ≡ ok fs
      → AllDescribe values fs
  unfolding file_items
  file_items-AllDescribe [] fs h = subst (AllDescribe []) (ok-injective h) tt
  file_items-AllDescribe (v ∷ vs) fs h =
      let (f, e, h1) = bind_ok (file_item kit texts v) _ h in
      let (rest, k, h2) = bind_ok (file_items kit texts vs) _ h1 in
      subst (AllDescribe (v ∷ vs)) (ok-injective h2)
        (file_item-Describes v f e, file_items-AllDescribe vs rest k)

  and_ok : (a b : Bool) → (a && b) ≡ true → (a ≡ true) × (b ≡ true)
  and_ok true b h = (refl, h)
  and_ok false b h = cc

  equals_text_ok : (value : Json) (s : String) → equals_text value s ≡ true → value ≡ str s
  equals_text_ok (str t) s h = ap (λ x. str x) ((eq_iff t s).0 h)
  equals_text_ok _ s h = cc

  versioned_ok :
      (d : Fields)
      → is_bundle_dict d ≡ true
      → equals_text (get d "schemaVersion") bundle_version ≡ true
  unfolding is_bundle_dict
  versioned_ok d h =
      let names : List String = "schemaVersion" ∷ "files" ∷ [] in
      (and_ok (keys_within d names && has_keys d names)
        (equals_text (get d "schemaVersion") bundle_version) h).1

  listed_ok :
      (shaped : Bool) (value : Json) (values : List Json)
      → listed_files shaped value ≡ ok values
      → (items : Items) × (value ≡ arr items) × (shaped ≡ true) × (values ≡ list_of items)
  listed_ok shaped (arr items) values h = (items, refl, ground arith, ground arith)
  listed_ok shaped _ values h = ground arith

  -- The dict of a bundle and the list of its files.
  files_of_ok :
      (value : Json) (values : List Json)
      → files_of value ≡ ok values
      → (d : Fields) × (items : Items) × (value ≡ obj d)
        × (get d "schemaVersion" ≡ str bundle_version)
        × (get d "files" ≡ arr items)
        × (values ≡ list_of items)
  unfolding files_of is_bundle_dict
  files_of_ok (obj d) values h =
      let (items, listed, tested, same) = listed_ok (is_bundle_dict d) (get d "files") values h in
      let versioned = versioned_ok d tested in
      (
        d,
        items,
        refl,
        equals_text_ok (get d "schemaVersion") bundle_version versioned,
        listed,
        same,
      )
  files_of_ok _ values h = ground arith

  pub canonical_value_ok :
      (payload : Bytes) (value : Json)
      → canonical_value kit texts payload ≡ ok value
      → (texts.loads payload ≡ some value)
        × (kit.canonical value ≡ payload)
        × (length payload ≤ maximum_payload)
  unfolding canonical_value
  canonical_value_ok payload value h = elim (Option-cases (texts.loads payload)) [
    | inl e ↦ ground (arith, e)
    | inr (v, e) ↦ let same = eq_of_bytes_eq (kit.canonical v) payload in ground (arith, e, same)
  ]

  -- A payload that parses is the canonical form of the value that it is read as, and not too long.
  -- The value is a dict of this version, and the files are those that its list describes, in its
  -- order: each with the path, the mode and the bytes stated there, of the length and the digest
  -- stated there. Every path is relative and normal, has no control characters and no part that is
  -- ".git"; a mode is 0644 or 0755. The paths are in strict order, and together the files are not too
  -- long.
  pub parse_bundle-IsBundle :
      (payload : Bytes) (files : List BundleFile)
      → parse_bundle kit texts payload ≡ ok files
      → IsBundle payload files
  unfolding parse_bundle
  parse_bundle-IsBundle payload files h =
      let (value, e, h1) = bind_ok (canonical_value kit texts payload) _ h in
      let (values, v, h2) = bind_ok (files_of value) _ h1 in
      let (fs, k, h3) = bind_ok (file_items kit texts values) _ h2 in
      let (sorted, h4) = require_ok (is_sorted_set (map (λ f. f.path) fs)) _ _ h3 in
      let (small, h5) =
        require_ok (leb (total (map (λ f. f.byte_length) fs)) maximum_decoded) _ _ h4 in
      let (loaded, canonical, short) = canonical_value_ok payload value e in
      let (d, items, dict, version, listed, same) = files_of_ok value values v in
      subst (IsBundle payload) (ok-injective h5) (record {
        bundle = d;
        values = items;
        loaded = loaded ∙ ap (λ x. some x) dict;
        canonical = sym (ap kit.canonical dict) ∙ canonical;
        short = short;
        version = version;
        listed = listed;
        described = subst (λ vs. AllDescribe vs fs) same (file_items-AllDescribe values fs k);
        sorted = is_sorted_set-Ascending (map (λ f. f.path) fs) sorted;
        bounded = ground (arith, small);
      })
