-- ===== src/CompressedInput/Whole.antt =====
-- input/inpututils/compressedstream.go: what the filters are sent of a file.
use mathlib.Core.Option.{some}
use mathlib.Core.List.{Perm, perm_append_comm}
use mathlib.Core.List.Perm
use baker.Common.{
  Bytes, List, [], ◌∷◌, ◌++◌, ℕ, zero, suc, ◌+◌, ◌≤◌, ◌<◌, Result, ok, false, Bool-cases, All,
  length, length-append, length-take, length-drop, take, drop, take-drop, take-of_le, drop-all, ltb,
  ltb-false, ◌==◌, ==_ne, append_assoc, ◌≡◌, ◌≢◌, refl, sym, ap, ◌∙◌, subst, ◌⊎◌, inl, inr, arith,
}
use baker.SplitWriter.LineEnd.{line_end}
use baker.Topology.Lines.{lines}
use baker.CompressedInput.{
  chunk_buffer, Stream, finished, no_newline, Sent, ended, count_newlines, send, read_bytes,
  last_byte, send_completed, complete_line, send_chunk, parse_file,
}
use baker.CompressedInput.Lines.{
  EndsLine, lines_nil, lines-append, count_newlines-lines, EndsLine-append, last_byte-some,
  last_byte-EndsLine, read_bytes-OneLine, EndsLine-take-line_end, EndsLine-append_line,
  EndsLine-rest, EndsLine-more, lines_last,
}

-- The reader is that of bufio: until its end, a read takes some bytes, and no more than are asked for. It
-- does not fail, and nobody stops the input.
pub record IsSound (s : Stream) : Type 0 where
  pub goes_on : (left : Bytes) → s.stopping left ≡ false
  pub finds : (left : Bytes) → s.line_fails left ≡ false
  pub reads :
      (left : Bytes)
      → 0 < length left
      → (n : ℕ) × (s.read_size left ≡ some n) × (1 ≤ n) × (n ≤ length left) × (n ≤ 126976)

-- A chunk that is sent: whole lines that fit the buffer, or one line.
abbrev pub IsChunk : Bytes → Type 0
IsChunk c = EndsLine c × ((length c ≤ chunk_buffer) ⊎ (length (lines c) ≡ 1))

abbrev pub all_lines : List Bytes → List Bytes
all_lines [] = []
all_lines (c ∷ cs) = lines c ++ all_lines cs

-- All of a text was sent, and its lines were counted.
pub record IsWhole (text : Bytes) (p : Sent) : Type 0 where
  pub end : p.end ≡ finished
  pub kept : Perm (all_lines p.chunks) (lines text)
  pub counted : p.num_processed_lines ≡ length (lines text)
  pub chunks : All IsChunk p.chunks

send-IsWhole :
    (chunk left : Bytes) (t : Sent)
    → IsChunk chunk
    → IsWhole left t
    → IsWhole (chunk ++ left) (send chunk t)
unfolding send
send-IsWhole chunk left t c w = record {
  end = w.end;
  kept =
      subst (Perm (lines chunk ++ all_lines t.chunks)) (sym (lines-append chunk left c.0))
        (Perm.append_left (lines chunk) w.kept);
  counted = omega (
    arith,
    w.counted,
    count_newlines-lines chunk c.0,
    ap length (lines-append chunk left c.0),
    length-append (lines chunk) (lines left),
  );
  chunks = (c, w.chunks);
}

-- A line that is sent before those in front of it.
send_swapped :
    (front line left : Bytes) (t : Sent)
    → IsChunk front
    → IsChunk line
    → IsWhole left t
    → IsWhole ((front ++ line) ++ left) (send line (send front t))
unfolding send
send_swapped front line left t c d w =
    let text : lines ((front ++ line) ++ left) ≡ (lines front ++ lines line) ++ lines left =
      lines-append (front ++ line) left (EndsLine-append front line c.0 d.0)
      ∙ ap (λ u. u ++ lines left) (lines-append front line c.0) in
    record {
      end = w.end;
      kept =
          subst (λ u. Perm u (lines ((front ++ line) ++ left)))
            (append_assoc (lines line) (lines front) (all_lines t.chunks))
            (subst (Perm ((lines line ++ lines front) ++ all_lines t.chunks)) (sym text)
              (Perm.append (perm_append_comm (lines line) (lines front)) w.kept));
      counted = omega (
        arith,
        w.counted,
        count_newlines-lines front c.0,
        count_newlines-lines line d.0,
        ap length text,
        length-append (lines front ++ lines line) (lines left),
        length-append (lines front) (lines line),
      );
      chunks = (d, (c, w.chunks));
    }

send_completed-IsWhole :
    (chunk endl left : Bytes) (t : Sent)
    → EndsLine endl
    → length (lines endl) ≡ 1
    → length chunk ≤ chunk_buffer
    → IsWhole left t
    → IsWhole ((chunk ++ endl) ++ left) (send_completed chunk endl t)
unfolding send_completed
send_completed-IsWhole chunk endl left t e one l w =
    elim (Bool-cases (ltb chunk_buffer (length chunk + length endl))) [
      | inl big ↦
          let front = take (line_end chunk) chunk in
          let line = drop (line_end chunk) chunk ++ endl in
          let joined : front ++ line ≡ chunk ++ endl =
            sym (append_assoc front (drop (line_end chunk) chunk) endl)
            ∙ ap (λ u. u ++ endl) (take-drop (line_end chunk) chunk) in
          rw big (
            subst (λ u. IsWhole (u ++ left) (send line (send front t))) joined
              (send_swapped front line left t
                (
                  EndsLine-take-line_end chunk,
                  inl (omega (arith, l, length-take (line_end chunk) chunk)),
                )
                (
                  EndsLine-append_line (drop (line_end chunk) chunk) endl e one,
                  inr (lines_last chunk endl one),
                )
                w))
      | inr fits ↦ rw fits (
          send-IsWhole (chunk ++ endl) left t
            (
              EndsLine-append_line chunk endl e one,
              inl (omega (arith, ltb-false _ _ fits, length-append chunk endl)),
            )
            w)
    ]

-- What a run of the loop returns
abbrev Sends : Result Sent → Bytes → Type 0
Sends m text = (p : Sent) × (m ≡ ok p) × IsWhole text p

module _ (s : Stream) (sound : IsSound s) (next : Bytes → Result Sent) where
  complete_line-Sends :
      (chunk left : Bytes)
      → length chunk ≤ chunk_buffer
      → 0 < length left
      → EndsLine left
      → ((left' : Bytes) → length left' ≤ length left → EndsLine left' → Sends (next left') left')
      → Sends (complete_line s next chunk left) (chunk ++ left)
  complete_line-Sends chunk [] l n e rest = absurd (omega (arith, n))
  complete_line-Sends chunk (c ∷ cs) l n e rest =
      let r = read_bytes-OneLine c cs e in
      let (p, call, w) =
        rest r.rest (omega (arith, ap length r.joined, length-append r.line r.rest)) r.rest_ends in
      (
        send_completed chunk r.line p,
        unfold complete_line in rw (sound.finds (c ∷ cs), r.call, call) refl,
        subst (λ u. IsWhole u (send_completed chunk r.line p))
            (append_assoc chunk r.line r.rest ∙ ap (λ u. chunk ++ u) (sym r.joined))
            (send_completed-IsWhole chunk r.line r.rest p r.ends r.one l w),
      )

  send_chunk-Sends :
      (chunk left : Bytes)
      → 0 < length chunk
      → length chunk ≤ chunk_buffer
      → EndsLine (chunk ++ left)
      → ((left' : Bytes) → length left' ≤ length left → EndsLine left' → Sends (next left') left')
      → Sends (send_chunk s next chunk left) (chunk ++ left)
  send_chunk-Sends chunk left n l e rest =
      let (c, last) = last_byte-some chunk n in
      elim (Bool-cases (c == b'\n')) [
        | inl nl ↦
            let (p, call, w) = rest left (omega arith) (EndsLine-rest chunk left e) in
            (
              send chunk p,
              unfold send_chunk in rw (send_chunk, last, nl, call) refl,
              send-IsWhole chunk left p (last_byte-EndsLine chunk c last nl, inl l) w,
            )
        | inr other ↦
            let (p, call, w) =
              complete_line-Sends chunk left l (EndsLine-more chunk left c last other e)
                (EndsLine-rest chunk left e) rest in
            (p, unfold send_chunk in rw (send_chunk, last, other) call, w)
      ]

send_nothing-IsWhole : IsWhole [] (send [] (ended finished))
unfolding send count_newlines
send_nothing-IsWhole = record {
  end = refl;
  kept = rw lines_nil (Perm.refl []);
  counted = rw lines_nil refl;
  chunks = ((tt, inl (omega arith)), tt);
}

-- The loop on a text that is empty or ends with a newline, with as many rounds as it has bytes, sends it
-- whole.
parse_file-Sends :
    (s : Stream) (fuel : ℕ) (text : Bytes)
    → IsSound s
    → length text < fuel
    → EndsLine text
    → Sends (parse_file s fuel text) text
unfolding parse_file
parse_file-Sends s zero text sound l e = absurd (omega (arith, l))
parse_file-Sends s (suc fuel) [] sound l e =
    (send [] (ended finished), rw (sound.goes_on []) refl, send_nothing-IsWhole)
parse_file-Sends s (suc fuel) (c ∷ cs) sound l e =
    let (n, read, low, high, limit) = sound.reads (c ∷ cs) (omega arith) in
    let chunk = take n (c ∷ cs) in
    let left = drop n (c ∷ cs) in
    let joined : chunk ++ left ≡ c ∷ cs = take-drop n (c ∷ cs) in
    let size = length-take n (c ∷ cs) in
    let (p, call, w) =
      send_chunk-Sends s sound (λ u. parse_file s fuel u) chunk left
        (omega (arith, size, low, high)) (omega (arith, size, limit))
        (subst EndsLine (sym joined) e)
        (λ u k h.
          parse_file-Sends s fuel u sound (omega (arith, k, l, length-drop n (c ∷ cs), low)) h) in
    (
      p,
      rw (sound.goes_on (c ∷ cs), ==_ne (suc (length cs)) 0 (omega arith), read) call,
      subst (λ u. IsWhole u p) joined w,
    )

-- Let a text be empty or end with a newline, and let its reader neither fail nor be stopped. Then the loop
-- ends within one round more than the text has bytes, and has read all of it. The lines of the chunks
-- that it sends are those of the text, each as often as there, and are what it counts; each chunk ends
-- with a newline, and fits the buffer or is a single line.
pub parse_file-IsWhole :
    (s : Stream) (text : Bytes)
    → IsSound s
    → EndsLine text
    → (p : Sent) × (parse_file s (suc (length text)) text ≡ ok p) × IsWhole text p
parse_file-IsWhole s text sound e =
    parse_file-Sends s (suc (length text)) text sound (omega arith) e

complete_line_nil :
    (s : Stream) (next : Bytes → Result Sent) (chunk : Bytes)
    → complete_line s next chunk [] ≡ ok (ended no_newline)
unfolding complete_line read_bytes
complete_line_nil s next chunk = elim (Bool-cases (s.line_fails [])) [
  | inl fails ↦ rw fails refl
  | inr fine ↦ rw fine refl
]

send_chunk_nil :
    (s : Stream) (next : Bytes → Result Sent) (chunk : Bytes) (c : ℕ)
    → last_byte chunk ≡ some c
    → c ≢ b'\n'
    → send_chunk s next chunk [] ≡ ok (ended no_newline)
unfolding send_chunk
send_chunk_nil s next chunk c last other =
    rw (send_chunk, last, ==_ne c b'\n' other) (complete_line_nil s next chunk)

-- A file that is read at once, and whose last byte is no newline, sends nothing: all its lines are lost.
pub parse_file_unterminated :
    (s : Stream) (text : Bytes) (c : ℕ)
    → s.stopping text ≡ false
    → s.read_size text ≡ some (length text)
    → last_byte text ≡ some c
    → c ≢ b'\n'
    → parse_file s (suc (length text)) text ≡ ok (ended no_newline)
unfolding parse_file
parse_file_unterminated s [] c go read last other = cc
parse_file_unterminated s (d ∷ text) c go read last other =
    let next : Bytes → Result Sent = λ u. parse_file s (suc (length text)) u in
    let all : Bytes = d ∷ text in
    rw (go, ==_ne (suc (length text)) 0 (omega arith), read)
      (ap (λ u. send_chunk s next u (drop (length all) all))
          (take-of_le (length all) all (omega arith))
        ∙ ap (send_chunk s next all) (drop-all all)
        ∙ send_chunk_nil s next all c last other)
