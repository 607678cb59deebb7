-- ===== src/Base/Text.antt =====
-- Texts as the code points that the sources walk.
use Prim.Native.Char.{Char, code}
use Prim.Native.String.{String}
use Prim.Native.Nat.{ℕ, zero, suc}
use mathlib.Core.Bool.{Bool, true, false, ◌&&◌, ◌||◌}
use mathlib.Core.List.{List, [], ◌∷◌}
use text.Mathlib.Text.{◌==◌ as str_eq}
use limitlesslibrary.Base.Tests.{leb, ◌==◌, if◌then◌else◌}

abbrev pub codes : String → List ℕ
codes String.[] = []
codes (String.◌∷◌ c s) = code c ∷ codes s

-- `[0-9]`
abbrev pub is_digit : ℕ → Bool
is_digit c = leb b'0' c && leb c b'9'

-- `text in (…)`, for a tuple or a set of texts
abbrev pub in_list : String → List String → Bool
in_list s [] = false
in_list s (t ∷ ts) = str_eq s t || in_list s ts

-- The characters that `str.strip` removes.
unfoldable pub is_space : ℕ → Bool
is_space c =
    (leb 9 c && leb c 13)
    || (leb 28 c && leb c 32)
    || c == 133
    || c == 160
    || c == 5760
    || (leb 8192 c && leb c 8202)
    || c == 8232
    || c == 8233
    || c == 8239
    || c == 8287
    || c == 12288

unfoldable pub strip_left : List ℕ → List ℕ
unfolding is_space
strip_left [] = []
strip_left (c ∷ cs) = let rest = strip_left cs in if is_space c then rest else c ∷ cs

-- A space is kept if something is kept behind it.
abbrev keep_before : ℕ → List ℕ → List ℕ
keep_before c (d ∷ rest) = c ∷ d ∷ rest
keep_before c [] = if is_space c then [] else c ∷ []

unfoldable pub strip_right : List ℕ → List ℕ
unfolding is_space
strip_right [] = []
strip_right (c ∷ cs) = keep_before c (strip_right cs)

-- `text.strip()`
unfoldable pub strip : List ℕ → List ℕ
unfolding strip_left strip_right
strip text = strip_right (strip_left text)

-- `not text.strip()`
unfoldable pub is_blank : String → Bool
unfolding strip
is_blank text = elim (strip (codes text)) [ [] ↦ true | _ ↦ false ]

abbrev keep_char_before : Char → String → String
keep_char_before c (String.◌∷◌ d rest) = String.◌∷◌ c (String.◌∷◌ d rest)
keep_char_before c String.[] = if is_space (code c) then String.[] else String.◌∷◌ c String.[]

strip_text_right : String → String
strip_text_right String.[] = String.[]
strip_text_right (String.◌∷◌ c s) = keep_char_before c (strip_text_right s)

strip_text_left : String → String
strip_text_left String.[] = String.[]
strip_text_left (String.◌∷◌ c s) =
    let rest = strip_text_left s in if is_space (code c) then rest else String.◌∷◌ c s

-- `text.strip()`, as a text
unfoldable pub strip_text : String → String
unfolding is_space strip_text_right strip_text_left
strip_text s = strip_text_right (strip_text_left s)

-- `text[:n]` and `text[n:]`
abbrev pub take_text : ℕ → String → String
take_text zero s = String.[]
take_text (suc n) String.[] = String.[]
take_text (suc n) (String.◌∷◌ c s) = String.◌∷◌ c (take_text n s)

abbrev pub drop_text : ℕ → String → String
drop_text zero s = s
drop_text (suc n) String.[] = String.[]
drop_text (suc n) (String.◌∷◌ c s) = drop_text n s
