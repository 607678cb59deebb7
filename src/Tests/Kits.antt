-- ===== src/Tests/Kits.antt =====
-- A toolkit for the tests. A time is the length of its text, and the two keys and their signatures
-- are one character throughout.
use limitlesslibrary.Base.{
  ℕ, zero, suc, String, ◌<>◌, Bool, false, Option, some, [], ◌∷◌, codes, length, str_eq, ◌==◌,
  if◌then◌else◌,
}
use limitlesslibrary.Service.Shape.{Bytes, Toolkit, instant, bytes_eq}

abbrev pub ticks : ℕ → String
ticks zero = ""
ticks (suc n) = "x" <> ticks n

abbrev pub repeated : ℕ → ℕ → Bytes
repeated zero c = []
repeated (suc n) c = c ∷ repeated n c

abbrev pub text_a : String
text_a = "aaaaaaaaaaaaaaaaaaaaaaaaaaaaaaaaaaaaaaaaaaa"

abbrev pub text_b : String
text_b = "bbbbbbbbbbbbbbbbbbbbbbbbbbbbbbbbbbbbbbbbbbb"

abbrev pub decoded : String → Option Bytes
decoded s =
    if str_eq s text_a
    then some (repeated 32 b'a')
    else if str_eq s text_b
    then some (repeated 32 b'b')
    else if str_eq s (text_a <> text_a)
    then some (repeated 64 b'a')
    else some (repeated 64 b'b')

abbrev pub encoded : Bytes → String
encoded bytes =
    if bytes_eq bytes (repeated 32 b'a')
    then text_a
    else if bytes_eq bytes (repeated 32 b'b')
    then text_b
    else if bytes_eq bytes (repeated 64 b'a')
    then text_a <> text_a
    else text_b <> text_b

abbrev pub zeros : String
zeros = "sha256:0000000000000000000000000000000000000000000000000000000000000000"

abbrev pub same_head : Bytes → Bytes → Bool
same_head (a ∷ rest) (b ∷ bs) = a == b
same_head _ _ = false

abbrev pub kit : Toolkit
kit = record {
  fromisoformat = λ s. some (instant (length (codes s)) 0);
  isoformat = ticks;
  decode64 = decoded;
  encode64 = encoded;
  sha256 = λ _. zeros;
  canonical = λ _. [];
  verifies = λ public value _. same_head public value;
}
