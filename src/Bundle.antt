-- ===== src/Bundle.antt =====
-- `exact_file_bundle.py`: a directory as one canonical payload. The module's own error is `contract_error`.
pub mod Exact
pub mod Keys
pub mod Paths
pub mod Packed
use Prim.Native.Nat.{◌%◌}
use limitlesslibrary.Base.{
  ℕ, ◌+◌, String, Bool, true, false, not, ◌&&◌, ◌||◌, Option, none, some, List, [], ◌∷◌, map, ltb,
  leb, ◌==◌, codes, is_digit, str_eq, in_list, length, all, any, if◌then◌else◌, is_sorted_set,
  sort_unique, Outcome, ok, raised, ◌>>=◌, ◌>>◌, require,
}
use limitlesslibrary.Base.Json.{
  Json, str, int, pos, arr, obj, object, array, Items, list_of, Fields, get, equals_text,
  keys_within, has_keys, is_hashable,
}
use limitlesslibrary.Wire.Shape.{is_letter, is_digest}
use limitlesslibrary.Service.Shape.{
  Failure, contract_error, type_error, Bytes, Toolkit, bounded_int, bytes_eq,
}
use limitlesslibrary.Receiver.Paths as P
use limitlesslibrary.Receiver.Paths.{relative_path}
use limitlesslibrary.Receiver.Tree.{FilePath}

-- What the module takes from Python on texts: `encode("utf-8")`, `unicodedata.normalize("NFC", …)`, and
-- `strict_json_loads(payload.decode("utf-8"))`, each with its exceptions as `none`; `loads` has
-- those of `canonical_json_bytes` on the value too.
pub record Texts : Type 0 where
  pub utf8 : String → Option Bytes
  pub nfc : String → String
  pub loads : Bytes → Option Json

pub record BundleFile : Type 0 where
  pub path : String
  pub mode : String
  pub byte_length : ℕ
  pub content_digest : String
  pub content : Bytes

abbrev pub bundle_version : String
bundle_version = "limitless.exact-file-bundle/1.0"

-- `MAX_EXACT_FILE_BUNDLE_BYTES`, and both `MAX_EXACT_FILE_BUNDLE_DECODED_BYTES` and `MAX_EXACT_FILE_BYTES`
abbrev pub maximum_payload : ℕ
maximum_payload = 67108864

abbrev pub maximum_decoded : ℕ
maximum_decoded = 50331648

abbrev pub file_fields : List String
file_fields = "path" ∷ "mode" ∷ "byteLength" ∷ "contentDigest" ∷ "data" ∷ []

abbrev pub no_path : Failure
no_path = contract_error "exact bundle file path is invalid"

abbrev pub is_control : ℕ → Bool
is_control c = ltb c 32 || c == 127

-- `value in _MODES`, which hashes the value.
unfoldable pub mode_of : Json → Outcome Failure String
mode_of (str s) =
    if in_list s ("0644" ∷ "0755" ∷ [])
    then ok s
    else raised (contract_error "exact bundle file mode is invalid")
mode_of value =
    if is_hashable value
    then raised (contract_error "exact bundle file mode is invalid")
    else raised type_error

unfoldable pub digest_of : Json → Outcome Failure String
digest_of (str s) =
    if is_digest (codes s)
    then ok s
    else raised (contract_error "exact bundle file contentDigest is invalid")
digest_of _ = raised (contract_error "exact bundle file contentDigest is invalid")

-- `sum(item.byte_length for item in files)`
abbrev pub total : List ℕ → ℕ
total [] = 0
total (n ∷ ns) = n + total ns

-- `_BASE64URL`, and the lengths that base64 has
abbrev is_encoded : String → Bool
is_encoded s =
    all (λ c. is_letter c || is_digit c || c == b'_' || c == b'-') (codes s)
    && not (length (codes s) % 4 == 1)

unfoldable pub is_bundle_dict : Fields → Bool
is_bundle_dict d =
    keys_within d ("schemaVersion" ∷ "files" ∷ [])
    && has_keys d ("schemaVersion" ∷ "files" ∷ [])
    && equals_text (get d "schemaVersion") bundle_version

-- The list of the files, which is neither empty nor too long.
abbrev pub listed_files : Bool → Json → Outcome Failure (List Json)
listed_files shaped (arr values) = do
  require (shaped && leb 1 (length (list_of values)) && leb (length (list_of values)) 512)
      (contract_error "exact bundle has an unsupported shape")
  ok (list_of values)
listed_files shaped _ = raised (contract_error "exact bundle has an unsupported shape")

-- The files of a bundle's dict.
unfoldable pub files_of : Json → Outcome Failure (List Json)
files_of (obj d) = listed_files (is_bundle_dict d) (get d "files")
files_of _ = raised (contract_error "exact bundle has an unsupported shape")

abbrev pub has_path : String → List (String × Bytes) → Bool
has_path p [] = false
has_path p ((q, content) ∷ rest) = str_eq p q || has_path p rest

abbrev pub data_at : String → List (String × Bytes) → Bytes
data_at p [] = []
data_at p ((q, content) ∷ rest) = if str_eq p q then content else data_at p rest

-- `except (TypeError, ValueError)`
abbrev pub as_files : Outcome Failure String → Outcome Failure String
as_files (ok p) = ok p
as_files (raised e) = raised (contract_error "exact bundle files are invalid")

module _ (kit : Toolkit) (texts : Texts) where
  abbrev pub short_normal : String → Bool
  short_normal s = elim (texts.utf8 s) [
    | none ↦ false
    | some encoded ↦
        leb (length encoded) 500 && str_eq (texts.nfc s) s && not (any is_control (codes s))
  ]

  -- What `relative_path` makes of a path.
  abbrev pub without_git : Outcome P.Failure FilePath → String → Outcome Failure String
  without_git (raised e) s = raised no_path
  without_git (ok parts) s = do
    require (not (in_list ".git" parts)) (contract_error "exact bundle cannot contain Git metadata")
    ok s

  -- `_path`, which returns the text that it is given.
  unfoldable pub path_of : Json → Outcome Failure String
  path_of (str s) = do
    require (short_normal s) no_path
    without_git (relative_path s "exact bundle file path") s
  path_of _ = raised no_path

  -- `_data`
  unfoldable pub data_of : Json → Outcome Failure Bytes
  data_of (str s) = do
    require (is_encoded s) (contract_error "exact bundle file data is invalid")
    elim (kit.decode64 s) [
      | none ↦ raised (contract_error "exact bundle file data is invalid")
      | some decoded ↦ do
        require (str_eq (kit.encode64 decoded) s)
            (contract_error "exact bundle file data is noncanonical")
        ok decoded
    ]
  data_of _ = raised (contract_error "exact bundle file data is invalid")

  abbrev pub file_dict : Json → Outcome Failure Fields
  file_dict (obj d) =
      if keys_within d file_fields && has_keys d file_fields
      then ok d
      else raised (contract_error "exact bundle file has an unsupported shape")
  file_dict _ = raised (contract_error "exact bundle file has an unsupported shape")

  -- `_file`
  unfoldable pub file_item : Json → Outcome Failure BundleFile
  file_item value = do
    d ← file_dict value
    path ← path_of (get d "path")
    mode ← mode_of (get d "mode")
    byte_length ←
        bounded_int (get d "byteLength") 0 maximum_decoded
          (contract_error "exact bundle file byteLength is invalid")
    digest ← digest_of (get d "contentDigest")
    content ← data_of (get d "data")
    require ((length content == byte_length) && str_eq (kit.sha256 content) digest)
        (contract_error "exact bundle file bytes differ from their descriptor")
    ok (record {
      path = path;
      mode = mode;
      byte_length = byte_length;
      content_digest = digest;
      content = content;
    })

  unfoldable pub file_items : List Json → Outcome Failure (List BundleFile)
  file_items [] = ok []
  file_items (value ∷ values) = do f ← file_item value; fs ← file_items values; ok (f ∷ fs)

  -- The value of a payload, which is canonical.
  unfoldable pub canonical_value : Bytes → Outcome Failure Json
  canonical_value payload = do
    require (leb 1 (length payload) && leb (length payload) maximum_payload)
        (contract_error "exact bundle payload size is invalid")
    elim (texts.loads payload) [
      | none ↦ raised (contract_error "exact bundle payload is invalid")
      | some value ↦ do
        require (bytes_eq (kit.canonical value) payload)
            (contract_error "exact bundle payload is not canonical JSON")
        ok value
    ]

  -- `parse_exact_file_bundle`: the files of the bundle.
  unfoldable pub parse_bundle : Bytes → Outcome Failure (List BundleFile)
  parse_bundle payload = do
    value ← canonical_value payload
    values ← files_of value
    files ← file_items values
    require (is_sorted_set (map (λ f. f.path) files))
        (contract_error "exact bundle file paths must be sorted and unique")
    require (leb (total (map (λ f. f.byte_length) files)) maximum_decoded)
        (contract_error "exact bundle decoded bytes exceed their limit")
    ok files

  -- The paths of the executables: each error of a path becomes one of the files.
  unfoldable pub executables_of : List String → Outcome Failure (List String)
  executables_of [] = ok []
  executables_of (p ∷ ps) = do q ← as_files (path_of (str p)); qs ← executables_of ps; ok (q ∷ qs)

  -- The loop over the files, with those that are checked already.
  unfoldable pub checked_files :
      List (String × Bytes) → List (String × Bytes) → Outcome Failure (Unit {0})
  checked_files seen [] = ok tt
  checked_files seen ((p, content) ∷ rest) = do
    q ← path_of (str p)
    require (not (has_path q seen)) (contract_error "exact bundle files are invalid")
    checked_files ((q, content) ∷ seen) rest

  -- What a file is in the payload.
  abbrev pub file_json : List (String × Bytes) → List String → String → Json
  file_json files executables p = object (
      ("path", str p)
      ∷ ("mode", str (if in_list p executables then "0755" else "0644"))
      ∷ ("byteLength", int (pos (length (data_at p files))))
      ∷ ("contentDigest", str (kit.sha256 (data_at p files)))
      ∷ ("data", str (kit.encode64 (data_at p files)))
      ∷ [])

  abbrev pub bundle_json : List (String × Bytes) → List String → Json
  bundle_json files executables = object (
      ("schemaVersion", str bundle_version)
      ∷ ("files", array (map (file_json files executables) (sort_unique (map (λ f. f.0) files))))
      ∷ [])

  -- `build_exact_file_bundle`, for a mapping of texts to bytes.
  unfoldable pub build_bundle : List (String × Bytes) → List String → Outcome Failure Bytes
  build_bundle files executable_paths = do
    executables ← executables_of executable_paths
    require (leb 1 (length files) && leb (length files) 512)
        (contract_error "exact bundle files are invalid")
    checked_files [] files
    require (all (λ p. has_path p files) executables)
        (contract_error "exact bundle executable paths are invalid")
    require (leb (total (map (λ f. length f.1) files)) maximum_decoded)
        (contract_error "exact bundle decoded bytes exceed their limit")
    require (leb (length (kit.canonical (bundle_json files executables))) maximum_payload)
        (contract_error "exact bundle payload exceeds its limit")
    _ ← parse_bundle (kit.canonical (bundle_json files executables))
    ok (kit.canonical (bundle_json files executables))
