-- ===== src/SplitWriter/Tests.antt =====
-- The theorems on split_writer.go, at a file of two lines.
use baker.Common.{Bytes, List, concat, [], ◌∷◌, ok, take, ◌≡◌, refl, arith}
use baker.SplitWriter.{SplitWriter, find_split_point, close}
use baker.SplitWriter.LineEnd.{line_end, find_split_point-line_end}
use baker.SplitWriter.Parts.{IsSplit, close-Splits}

abbrev writer : SplitWriter
writer = record { maxsize = 4; bufsize = 2 }

-- "ab\ncde\n"
abbrev file : Bytes
file = b'a' ∷ b'b' ∷ b'\n' ∷ b'c' ∷ b'd' ∷ b'e' ∷ b'\n' ∷ []

find_split_point-line_end_example : find_split_point writer file ≡ ok (line_end (take 4 file))
find_split_point-line_end_example =
    find_split_point-line_end writer file (omega arith) (omega arith) (omega arith)

close-Splits_example :
    (ps : List Bytes) × (close writer file ≡ ok ps) × (concat ps ≡ file) × IsSplit writer ps
close-Splits_example = close-Splits writer file (omega arith) (omega arith)

two_parts : close writer file ≡ ok (take 3 file ∷ (b'c' ∷ b'd' ∷ b'e' ∷ b'\n' ∷ []) ∷ [])
unfolding close find_split_point
two_parts = refl
