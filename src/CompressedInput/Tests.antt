-- ===== src/CompressedInput/Tests.antt =====
-- The theorems on compressedstream.go, at a file of two lines.
use mathlib.Core.Option.{some}
use baker.Common.{Bytes, [], ◌∷◌, false, ok, length, ◌≡◌, refl, arith}
use baker.CompressedInput.{
  Stream, Sent, parse_file, ended, finished, no_newline, send_chunk, complete_line, send_completed,
  send, read_bytes, count_newlines,
}
use baker.CompressedInput.Whole.{IsSound, IsWhole, parse_file-IsWhole, parse_file_unterminated}

-- A reader that gives a byte at a time
abbrev bytewise : Stream
bytewise = record {
  stopping = λ left. false;
  read_size = λ left. some 1;
  line_fails = λ left. false;
}

bytewise-IsSound : IsSound bytewise
bytewise-IsSound = record {
  goes_on = λ left. refl;
  finds = λ left. refl;
  reads = λ left l. (1, refl, omega arith, omega (arith, l), omega arith);
}

-- "ab\nc\n"
abbrev file : Bytes
file = b'a' ∷ b'b' ∷ b'\n' ∷ b'c' ∷ b'\n' ∷ []

parse_file-IsWhole_example : (p : Sent) × (parse_file bytewise 6 file ≡ ok p) × IsWhole file p
parse_file-IsWhole_example = parse_file-IsWhole bytewise file bytewise-IsSound refl

two_chunks :
    parse_file bytewise 6 file
    ≡ ok record {
      chunks = (b'a' ∷ b'b' ∷ b'\n' ∷ []) ∷ (b'c' ∷ b'\n' ∷ []) ∷ [] ∷ [];
      num_processed_lines = 2;
      end = finished;
    }
unfolding parse_file send_chunk complete_line send_completed send read_bytes count_newlines
two_chunks = refl

-- A reader that gives all that is left
abbrev at_once : Stream
at_once = record {
  stopping = λ left. false;
  read_size = λ left. some (length left);
  line_fails = λ left. false;
}

-- "a\nb"
abbrev unterminated : Bytes
unterminated = b'a' ∷ b'\n' ∷ b'b' ∷ []

parse_file_unterminated_example : parse_file at_once 4 unterminated ≡ ok (ended no_newline)
parse_file_unterminated_example =
    parse_file_unterminated at_once unterminated b'b' refl refl refl (omega arith)
