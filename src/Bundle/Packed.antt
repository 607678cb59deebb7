-- ===== src/Bundle/Packed.antt =====
-- A payload that is built parses to the files that it was built from.
use limitlesslibrary.Base.{
  ℕ, ◌≡◌, refl, codes_lt, sym, ap, ◌∙◌, String, ◌&&◌, Option, some, List, [], ◌∷◌, map, all, leb,
  ◌==◌, str_eq, length, in_list, sort_unique, is_sorted_set, if◌then◌else◌, Outcome, ok, raised,
  bind_ok, require_ok, ok-injective, arith,
}
use mathlib.Core.Path.{subst, fun_ext}
use limitlesslibrary.Base.Json.{
  Json, arr, items_of, int, pos, str, obj, object, array, list_of-items_of, Fields, fields_of, get,
}
use limitlesslibrary.Service.Shape.{Failure, Bytes, Toolkit, bounded_int}
use limitlesslibrary.Bundle.{
  Texts, BundleFile, bundle_version, maximum_payload, maximum_decoded, mode_of, digest_of, total,
  is_bundle_dict, files_of, data_at, has_path, path_of, data_of, file_dict, file_item, file_items,
  canonical_value, parse_bundle, as_files, executables_of, checked_files, file_json, bundle_json,
  build_bundle,
}
use limitlesslibrary.Bundle.Exact.{canonical_value_ok}
use limitlesslibrary.Bundle.Paths.{path_of-str}
use limitlesslibrary.Bundle.Keys.{put, by_keys, items_by_keys, fields_by_keys, items_by_keys-map}

some-injective : {A : Type 0} (a b : A) → ◌≡◌ {A = Option A} (some a) (some b) → a ≡ b
some-injective a b h = cc

str-injective : (s t : String) → str s ≡ str t → s ≡ t
str-injective s t h = cc

mode_of_str : (s m : String) → mode_of (str s) ≡ ok m → m ≡ s
unfolding mode_of
mode_of_str s m h = ground arith

digest_of_str : (s m : String) → digest_of (str s) ≡ ok m → m ≡ s
unfolding digest_of
digest_of_str s m h = ground arith

bounded_int_pos : (a n high : ℕ) (e : Failure) → bounded_int (int (pos a)) 0 high e ≡ ok n → n ≡ a
unfolding bounded_int
bounded_int_pos a n high e h = ground arith

module _ (kit : Toolkit) (texts : Texts) (files : List (String × Bytes))
    (executables : List String) where
  -- What a file becomes.
  abbrev pub packed : String → BundleFile
  packed p = record {
    path = p;
    mode = if in_list p executables then "0755" else "0644";
    byte_length = length (data_at p files);
    content_digest = kit.sha256 (data_at p files);
    content = data_at p files;
  }

  -- The same dicts as the payload's, with the keys in the order of the canonical form.
  abbrev pub loaded_dict : String → Fields
  loaded_dict p = fields_of (
      ("byteLength", int (pos (length (data_at p files))))
      ∷ ("contentDigest", str (kit.sha256 (data_at p files)))
      ∷ ("data", str (kit.encode64 (data_at p files)))
      ∷ ("mode", str (if in_list p executables then "0755" else "0644"))
      ∷ ("path", str p)
      ∷ [])

  abbrev pub loaded_file : String → Json
  loaded_file p = obj (loaded_dict p)

  abbrev pub packed_paths : List String
  packed_paths = sort_unique (map (λ f. f.0) files)

  abbrev pub loaded_bundle : Json
  loaded_bundle =
      object (
        ("files", array (map loaded_file packed_paths))
        ∷ ("schemaVersion", str bundle_version)
        ∷ [])

  by_keys-file_json :
      (p : String) → by_keys (file_json kit texts files executables p) ≡ loaded_file p
  unfolding by_keys fields_by_keys put codes_lt
  by_keys-file_json p = refl

  by_keys-bundle_json : by_keys (bundle_json kit texts files executables) ≡ loaded_bundle
  unfolding by_keys fields_by_keys items_by_keys put codes_lt
  by_keys-bundle_json =
      ap (λ items. object (("files", arr items) ∷ ("schemaVersion", str bundle_version) ∷ []))
        (items_by_keys-map (file_json kit texts files executables) packed_paths
          ∙ ap (λ f. items_of (map f packed_paths)) (fun_ext by_keys-file_json))

  -- Base64 is read back.
  abbrev pub Decodes : Type 0
  Decodes = (p : String) → kit.decode64 (kit.encode64 (data_at p files)) ≡ some (data_at p files)

  data_of_encoded :
      (c d : Bytes)
      → kit.decode64 (kit.encode64 c) ≡ some c
      → data_of kit texts (str (kit.encode64 c)) ≡ ok d
      → d ≡ c
  unfolding data_of
  data_of_encoded c d e h = ground (arith, e)

  file_dict_same : (d e : Fields) → file_dict kit texts (obj d) ≡ ok e → e ≡ d
  file_dict_same d e h = ground arith

  -- What a file has read from which field of its dict.
  record IsItem (d : Fields) (f : BundleFile) : Type 0 where
    pub path : path_of kit texts (get d "path") ≡ ok f.path
    pub mode : mode_of (get d "mode") ≡ ok f.mode
    pub size :
        (e : Failure) × (bounded_int (get d "byteLength") 0 maximum_decoded e ≡ ok f.byte_length)
    pub digest : digest_of (get d "contentDigest") ≡ ok f.content_digest
    pub content : data_of kit texts (get d "data") ≡ ok f.content

  file_item-IsItem :
      (value : Json) (f : BundleFile)
      → file_item kit texts value ≡ ok f
      → (d : Fields) × (file_dict kit texts value ≡ ok d) × IsItem d f
  unfolding file_item
  file_item-IsItem value f h =
      let (d, whole, h1) = bind_ok (file_dict kit texts value) _ h in
      let (q, path, h2) = bind_ok (path_of kit texts (get d "path")) _ h1 in
      let (m, mode, h3) = bind_ok (mode_of (get d "mode")) _ h2 in
      let (n, size, h4) = bind_ok (bounded_int (get d "byteLength") 0 maximum_decoded _) _ h3 in
      let (s, digest, h5) = bind_ok (digest_of (get d "contentDigest")) _ h4 in
      let (c, content, h6) = bind_ok (data_of kit texts (get d "data")) _ h5 in
      let (_, h7) = require_ok ((length c == n) && str_eq (kit.sha256 c) s) _ _ h6 in
      (
        d,
        whole,
        subst (IsItem d) (ok-injective h7) (record {
          path = path;
          mode = mode;
          size = (_, size);
          digest = digest;
          content = content;
        }),
      )

  file_item-packed :
      (p : String) (f : BundleFile)
      → Decodes
      → file_item kit texts (loaded_file p) ≡ ok f
      → f ≡ packed p
  file_item-packed p f decodes h =
      let (d, whole, read) = file_item-IsItem (loaded_file p) f h in
      let item = subst (λ e. IsItem e f) (file_dict_same (loaded_dict p) d whole) read in
      let paths = str-injective p f.path (path_of-str kit texts (str p) f.path item.path) in
      let modes = mode_of_str (if in_list p executables then "0755" else "0644") f.mode item.mode in
      let sizes =
        bounded_int_pos (length (data_at p files)) f.byte_length maximum_decoded (item.size.0)
          (item.size.1) in
      let digests = digest_of_str (kit.sha256 (data_at p files)) f.content_digest item.digest in
      let contents = data_of_encoded (data_at p files) f.content (decodes p) item.content in
      λ i. record {
        path = sym paths i;
        mode = modes i;
        byte_length = sizes i;
        content_digest = digests i;
        content = contents i;
      }

  file_items-packed :
      (ps : List String) (fs : List BundleFile)
      → Decodes
      → file_items kit texts (map loaded_file ps) ≡ ok fs
      → fs ≡ map packed ps
  unfolding file_items
  file_items-packed [] fs decodes h = sym (ok-injective h)
  file_items-packed (p ∷ ps) fs decodes h =
      let (f, e, h1) = bind_ok (file_item kit texts (loaded_file p)) _ h in
      let (rest, k, h2) = bind_ok (file_items kit texts (map loaded_file ps)) _ h1 in
      sym (ok-injective h2)
      ∙ (λ i. file_item-packed p f decodes e i ∷ file_items-packed ps rest decodes k i)

  files_of_loaded :
      (values : List Json)
      → files_of loaded_bundle ≡ ok values
      → values ≡ map loaded_file packed_paths
  unfolding files_of is_bundle_dict
  files_of_loaded values h =
      let same = list_of-items_of (map loaded_file packed_paths) in ground (arith, same)

  as_files_ok : (o : Outcome Failure String) (q : String) → as_files o ≡ ok q → o ≡ ok q
  as_files_ok (ok p) q h = h
  as_files_ok (raised e) q h = ground arith

  executables_of_same : (ps qs : List String) → executables_of kit texts ps ≡ ok qs → qs ≡ ps
  unfolding executables_of
  executables_of_same [] qs h = sym (ok-injective h)
  executables_of_same (p ∷ ps) qs h =
      let (q, e, h1) = bind_ok (as_files (path_of kit texts (str p))) _ h in
      let (rest, k, h2) = bind_ok (executables_of kit texts ps) _ h1 in
      let head : p ≡ q =
        str-injective p q
          (path_of-str kit texts (str p) q (as_files_ok (path_of kit texts (str p)) q e)) in
      sym (ok-injective h2) ∙ (λ i. sym head i ∷ executables_of_same ps rest k i)

  -- What parses is what was packed.
  parse_bundle-packed :
      (payload : Bytes) (fs : List BundleFile)
      → Decodes
      → texts.loads payload ≡ some loaded_bundle
      → parse_bundle kit texts payload ≡ ok fs
      → fs ≡ map packed packed_paths
  unfolding parse_bundle
  parse_bundle-packed payload fs decodes loads h =
      let (value, e, h1) = bind_ok (canonical_value kit texts payload) _ h in
      let (values, v, h2) = bind_ok (files_of value) _ h1 in
      let (found, k, h3) = bind_ok (file_items kit texts values) _ h2 in
      let (_, h4) = require_ok (is_sorted_set (map (λ f. f.path) found)) _ _ h3 in
      let (_, h5) =
        require_ok (leb (total (map (λ f. f.byte_length) found)) maximum_decoded) _ _ h4 in
      let same : value ≡ loaded_bundle =
        some-injective value loaded_bundle
          (sym ((canonical_value_ok kit texts payload value e).0) ∙ loads) in
      let all_values : values ≡ map loaded_file packed_paths =
        files_of_loaded values (subst (λ x. files_of x ≡ ok values) same v) in
      sym (ok-injective h5)
      ∙ file_items-packed packed_paths found decodes
          (subst (λ x. file_items kit texts x ≡ ok found) all_values k)

-- What is built parses, and to the files that it was built from: sorted by their paths, with their
-- bytes, the mode 0755 for the executables and 0644 for the others. The conditions are that the
-- canonical form of a value is read back as that value with its keys in order, for the value that is
-- built, and that base64 is read back.
pub build_bundle-parse_bundle :
    (kit : Toolkit) (texts : Texts) (files : List (String × Bytes)) (executables : List String)
    (payload : Bytes)
    → Decodes kit texts files executables
    → texts.loads (kit.canonical (bundle_json kit texts files executables))
      ≡ some (by_keys (bundle_json kit texts files executables))
    → build_bundle kit texts files executables ≡ ok payload
    → parse_bundle kit texts payload
      ≡ ok (map (packed kit texts files executables) (packed_paths kit texts files executables))
unfolding build_bundle
build_bundle-parse_bundle kit texts files executables payload decodes loads h =
    let (ex, same, h1) = bind_ok (executables_of kit texts executables) _ h in
    let (_, h2) = require_ok (leb 1 (length files) && leb (length files) 512) _ _ h1 in
    let (_, _, h3) = bind_ok (checked_files kit texts [] files) _ h2 in
    let (_, h4) = require_ok (all (λ p. has_path p files) ex) _ _ h3 in
    let (_, h5) = require_ok (leb (total (map (λ f. length f.1) files)) maximum_decoded) _ _ h4 in
    let (_, h6) =
      require_ok (leb (length (kit.canonical (bundle_json kit texts files ex))) maximum_payload) _ _
        h5 in
    let (fs, parsed, h7) =
      bind_ok (parse_bundle kit texts (kit.canonical (bundle_json kit texts files ex))) _ h6 in
    let given : ex ≡ executables =
      executables_of_same kit texts files executables executables ex same in
    let bytes : kit.canonical (bundle_json kit texts files executables) ≡ payload =
      ap (λ x. kit.canonical (bundle_json kit texts files x)) (sym given) ∙ ok-injective h7 in
    let now : parse_bundle kit texts payload ≡ ok fs =
      subst (λ x. parse_bundle kit texts x ≡ ok fs) (ok-injective h7) parsed in
    now
    ∙ ap (λ x. ok x)
        (parse_bundle-packed kit texts files executables payload fs decodes
          (subst (λ x. texts.loads x ≡ some (loaded_bundle kit texts files executables)) bytes
            (loads ∙ ap (λ x. some x) (by_keys-bundle_json kit texts files executables)))
          now)
