-- ===== src/Tests/Frames.antt =====
-- Two lines for a server that takes three bytes at most: one is too long, and read in two pieces.
use limitlesslibrary.Base.{◌≡◌, refl, String, Option, some, [], ◌∷◌, map, arith}
use limitlesslibrary.Server.{Bytes, line, too_long, readline, ends, skip, frame_of, bounded_lines}
use limitlesslibrary.Server.Frames.{lines, bounded_lines-lines}

abbrev decode : Bytes → Option String
decode raw = some "ok"

abbrev input : Bytes
input = 97 ∷ 98 ∷ 99 ∷ 100 ∷ 101 ∷ 102 ∷ 10 ∷ 111 ∷ 107 ∷ 10 ∷ []

input_frames : bounded_lines decode 10 3 input ≡ too_long ∷ line "ok" ∷ []
unfolding bounded_lines readline ends skip
input_frames = refl

bounded_lines-lines_example :
    bounded_lines decode 10 3 input ≡ map (frame_of decode 3) (lines input)
bounded_lines-lines_example = bounded_lines-lines decode 10 3 input (omega arith)
