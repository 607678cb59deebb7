-- ===== src/Wire/Shape.antt =====
-- `_exact`, `_text` and the patterns of `_service_support.py`. The exceptions are all `ValueError`,
-- told apart by their message.
use limitlesslibrary.Base.{
  ℕ, ◌≡◌, String, ◌<>◌, Bool, true, false, not, ◌&&◌, ◌||◌, Option, none, some, List, [], ◌∷◌, ltb,
  leb, ◌==◌, arith, codes, is_digit, str_eq, length, all, any, if◌then◌else◌, Outcome, ok, raised,
}
use limitlesslibrary.Base.Json.{Json, str, obj, boolean, Fields, keys_within, has_keys}

abbrev pub Checked {ℓ} : Type ℓ → Type ℓ
Checked A = Outcome String A

-- `_exact`: a dict with these keys and no other.
unfoldable pub exact : Json → List String → String → Checked Fields
exact (obj d) names label =
    if keys_within d names && has_keys d names
    then ok d
    else raised (label <> " has an unsupported shape")
exact _ names label = raised (label <> " has an unsupported shape")

abbrev is_control : ℕ → Bool
is_control c = ltb c 32 || c == 127

-- The conditions of `_text` on a string, for a pattern that is a full match.
unfoldable pub is_text : ℕ → (List ℕ → Bool) → String → Bool
is_text maximum pattern s =
    not (str_eq s "")
    && leb (length (codes s)) maximum
    && not (any is_control (codes s))
    && pattern (codes s)

-- No pattern.
abbrev pub anything : List ℕ → Bool
anything text = true

-- `_text`
unfoldable pub text : Json → String → ℕ → (List ℕ → Bool) → Checked String
text (str s) label maximum pattern =
    if is_text maximum pattern s then ok s else raised (label <> " is invalid")
text _ label maximum pattern = raised (label <> " is invalid")

-- What `_text` returns is the string that it was given, and passes again.
pub text-str :
    (value : Json) (label : String) (maximum : ℕ) (pattern : List ℕ → Bool) (s : String)
    → text value label maximum pattern ≡ ok s
    → (is_text maximum pattern s ≡ true) × (text (str s) label maximum pattern ≡ ok s)
unfolding text
text-str value label maximum pattern s h = ground arith

abbrev pub is_lower : ℕ → Bool
is_lower c = leb b'a' c && leb c b'z'

abbrev pub is_upper : ℕ → Bool
is_upper c = leb b'A' c && leb c b'Z'

abbrev pub is_letter : ℕ → Bool
is_letter c = is_lower c || is_upper c

abbrev pub is_hex : ℕ → Bool
is_hex c = is_digit c || (leb b'a' c && leb c b'f')

-- The rest behind a prefix.
abbrev pub after_prefix : List ℕ → List ℕ → Option (List ℕ)
after_prefix [] text = some text
after_prefix (p ∷ ps) [] = none
after_prefix (p ∷ ps) (c ∷ cs) = let rest = after_prefix ps cs in if p == c then rest else none

-- `^sha256:[0-9a-f]{64}$`
unfoldable pub is_digest : List ℕ → Bool
is_digest text = elim (after_prefix (codes "sha256:") text) [
  | none ↦ false
  | some hex ↦ all is_hex hex && length hex == 64
]

-- `^[a-z][a-z0-9-]{0,31}$`
unfoldable pub is_check_id : List ℕ → Bool
is_check_id [] = false
is_check_id (c ∷ cs) =
    is_lower c && all (λ d. is_lower d || is_digit d || d == b'-') cs && leb (length cs) 31

-- `value is True`
abbrev pub is_true : Json → Bool
is_true (boolean true) = true
is_true _ = false
