-- ===== src/Tests/Bundles.antt =====
-- A bundle of two files, the second an executable.
use limitlesslibrary.Base.{
  ℕ, zero, suc, ◌+◌, ◌++◌, ◌==◌, ◌≡◌, refl, String, Option, none, some, List, [], ◌∷◌, map, codes,
  ok, str_eq, if◌then◌else◌, if_intro, is_sorted_set, sort_unique, insert_unique, codes_lt,
}
use limitlesslibrary.Base.Json.{
  Json, null, str, int, pos, arr, obj, Items, nil, cons, Fields, end, field,
}
use limitlesslibrary.Bundle.Keys.{put, by_keys, items_by_keys, fields_by_keys}
use Prim.Native.Char.{code}
use Prim.Native.Nat.{◌-◌}
use limitlesslibrary.Wire.Shape.{is_digest}
use limitlesslibrary.Service.Shape.{Bytes, Toolkit, bytes_eq, bounded_int}
use limitlesslibrary.Receiver.Paths.{relative_path, parts_of}
use limitlesslibrary.Tests.Kits
use limitlesslibrary.Tests.Kits.{repeated, decoded, encoded}
use limitlesslibrary.Bundle.{
  Texts, BundleFile, mode_of, digest_of, is_bundle_dict, files_of, path_of, data_of, file_item,
  file_items, canonical_value, parse_bundle, executables_of, checked_files, bundle_json,
  build_bundle,
}
use limitlesslibrary.Bundle.Exact.{IsBundle, parse_bundle-IsBundle}
use limitlesslibrary.Bundle.Packed.{Decodes, packed, packed_paths, build_bundle-parse_bundle}

-- A writer and a reader of JSON, on a stack: 0 is null, 1 an empty text, 2 a zero, 3 an empty list, 4
-- an empty dict; 5 counts up, 6 adds to the list below, 7 the key and the value to the dict below, and
-- a number from 10 on is a character put before the text.
abbrev text_of : List ℕ → List ℕ → List ℕ
text_of [] written = written
text_of (c ∷ cs) written = text_of cs ((c + 10) ∷ written)

abbrev count_of : ℕ → List ℕ
count_of zero = []
count_of (suc n) = 5 ∷ count_of n

abbrev written_text : String → List ℕ
written_text s = 1 ∷ text_of (codes s) []

unfoldable mutual
  write : Json → List ℕ
  write (str s) = written_text s
  write (int (pos n)) = 2 ∷ count_of n
  write (arr js) = 3 ∷ write_items js
  write (obj d) = 4 ∷ write_fields d
  write _ = 0 ∷ []

  write_items : Items → List ℕ
  write_items nil = []
  write_items (cons value js) = write value ++ (6 ∷ write_items js)

  write_fields : Fields → List ℕ
  write_fields end = []
  write_fields (field k v d) = written_text k ++ (write v ++ (7 ∷ write_fields d))

abbrev add_item : Items → Json → Items
add_item nil value = cons value nil
add_item (cons w js) value = cons w (add_item js value)

abbrev add_field : Fields → String → Json → Fields
add_field end k v = field k v end
add_field (field j w d) k v = field j w (add_field d k v)

-- The characters that the files, their digests and their bytes are written with.
abbrev alphabet : String
alphabet = "abcdefghijklmnopqrstuvwxyzREADMELVDNT0123456789.-/:"

abbrev in_front_of : ℕ → String → String → String
in_front_of c String.[] s = s
in_front_of c (String.◌∷◌ a rest) s = if code a == c then String.◌∷◌ a s else in_front_of c rest s

abbrev counted : List Json → List Json
counted (int (pos n) ∷ stack) = int (pos (suc n)) ∷ stack
counted stack = stack

abbrev listed : List Json → List Json
listed (value ∷ arr js ∷ stack) = arr (add_item js value) ∷ stack
listed stack = stack

abbrev entered : List Json → List Json
entered (value ∷ str k ∷ obj d ∷ stack) = obj (add_field d k value) ∷ stack
entered stack = stack

abbrev spelled : ℕ → List Json → List Json
spelled c (str s ∷ stack) = str (in_front_of c alphabet s) ∷ stack
spelled c stack = stack

abbrev step : ℕ → List Json → List Json
step token stack =
    if token == 0
    then null ∷ stack
    else if token == 1
    then str "" ∷ stack
    else if token == 2
    then int (pos 0) ∷ stack
    else if token == 3
    then arr nil ∷ stack
    else if token == 4
    then obj end ∷ stack
    else if token == 5
    then counted stack
    else if token == 6
    then listed stack
    else if token == 7
    then entered stack
    else spelled (token - 10) stack

abbrev top : List Json → Option Json
top (value ∷ []) = some value
top stack = none

unfoldable read : List ℕ → List Json → Option Json
read [] stack = top stack
read (token ∷ tokens) stack = read tokens (step token stack)

abbrev kit : Toolkit
kit = record Kits.kit {
  decode64 = λ s. if str_eq s "" then some [] else decoded s;
  encode64 = λ bytes. if bytes_eq bytes [] then "" else encoded bytes;
  canonical = λ value. write (by_keys value);
}

abbrev files : List (String × Bytes)
files = ("run.sh", repeated 32 b'b') ∷ ("README", repeated 32 b'a') ∷ []

abbrev executables : List String
executables = "run.sh" ∷ []

abbrev texts : Texts
texts = record { utf8 = λ s. some (codes s); nfc = λ s. s; loads = λ payload. read payload [] }

abbrev payload : Bytes
payload = kit.canonical (bundle_json kit texts files executables)

decodes : Decodes kit texts files executables
unfolding bytes_eq
decodes p =
    if_intro (λ c. kit.decode64 (kit.encode64 c) ≡ some c) (str_eq p "run.sh") (λ _. refl)
      (λ _.
        if_intro (λ c. kit.decode64 (kit.encode64 c) ≡ some c) (str_eq p "README") (λ _. refl)
          (λ _. refl))

builds : build_bundle kit texts files executables ≡ ok payload
unfolding build_bundle executables_of checked_files path_of relative_path parts_of parse_bundle
    canonical_value files_of is_bundle_dict file_items file_item mode_of bounded_int digest_of
    is_digest data_of bytes_eq is_sorted_set sort_unique insert_unique codes_lt write read by_keys
    fields_by_keys items_by_keys put
builds = refl

reads_back : texts.loads payload ≡ some (by_keys (bundle_json kit texts files executables))
unfolding write read by_keys fields_by_keys items_by_keys put codes_lt sort_unique insert_unique
    bytes_eq
reads_back = refl

build_bundle-parse_bundle_example :
    parse_bundle kit texts payload
    ≡ ok (map (packed kit texts files executables) (packed_paths kit texts files executables))
build_bundle-parse_bundle_example =
    build_bundle-parse_bundle kit texts files executables payload decodes reads_back builds

abbrev both : List BundleFile
both =
    packed kit texts files executables "README" ∷ packed kit texts files executables "run.sh" ∷ []

parses : parse_bundle kit texts payload ≡ ok both
unfolding parse_bundle canonical_value files_of is_bundle_dict path_of relative_path parts_of
    file_items file_item mode_of bounded_int digest_of is_digest data_of bytes_eq is_sorted_set
    sort_unique insert_unique codes_lt write read by_keys fields_by_keys items_by_keys put
parses = refl

parse_bundle-IsBundle_example : IsBundle kit texts payload both
parse_bundle-IsBundle_example = parse_bundle-IsBundle kit texts payload both parses
