-- ===== src/Tests/Reads.antt =====
-- Lines that are read from a stream.
use csup.Prelude.{
  ℕ, ◌≡◌, refl, sym, ap, arith, false, Bytes, [], ◌∷◌, length, take, drop, Option, some,
  length-take, length-drop, List, ◌++◌, ◌∙◌, drop-append_le, drop_all, take-append-drop,
}
use csup.Prelude.Run.{done}
use csup.Stream.{buf_grow, buf_prewrite, buf_more, buf_less}
use csup.Stream.Filled.{IsRead, IsReady, nothing}
use csup.Stream.Getln.{stream_getln-lines}
use csup.Stream.Files.{IsFile, Reads, text, stream_getln-file}
use csup.Stream.LineTaken.{Line}
use csup.Stream.Reading.{
  Reader, newline, newline_at, stream_fill, stream_fill_default, line_loop, take_line, find_line,
  stream_getln,
}

-- A line `ab`, and a last one without a newline.
abbrev input : Bytes
input = b'a' ∷ b'b' ∷ newline ∷ b'c' ∷ []

-- As much of a file as there is room for.
abbrev read_from : Bytes → Bytes → ℕ → Option Bytes
read_from file seen room = some (take room (drop (length seen) file))

abbrev read_input : Bytes → ℕ → Option Bytes
read_input = read_from input

-- With room for one byte.
abbrev reader : Reader
reader = record {
  rdbuf = record { cells = λ i. 0; size = 1; used = 0; off = 0 };
  eof = false;
  received = [];
}

two_lines :
    (after last : Reader) × (stream_getln read_input 9 false reader
      ≡ done (some (b'a' ∷ b'b' ∷ []), after))
    × (stream_getln read_input 9 false after ≡ done (some (b'c' ∷ []), last))
unfolding stream_getln find_line line_loop take_line stream_fill stream_fill_default newline_at
    buf_prewrite buf_grow buf_more buf_less
two_lines = (_, _, refl, refl)

read_from-IsRead : (file : Bytes) → IsRead (read_from file) (length file)
read_from-IsRead file seen room s le e =
    let same : take room (drop (length seen) file) ≡ s = cc in
    let len = length-take room (drop (length seen) file) in
    let left = length-drop (length seen) file in
    let total : length s ≡ length (take room (drop (length seen) file)) = ap length (sym same) in
    (omega (arith, len, total), omega (arith, len, left, total, le))

read_from-IsFile : (file : Bytes) → IsFile (read_from file) file
read_from-IsFile file seen rest room e pos =
    let behind : drop (length seen) file ≡ rest =
      ap (drop (length seen)) (sym e)
      ∙ drop-append_le (length seen) seen rest (omega arith)
      ∙ ap (λ t. t ++ rest) (drop_all (length seen) seen (omega arith)) in
    (
      take room rest,
      drop room rest,
      ap (λ t. some (take room t)) behind,
      take-append-drop room rest,
      λ none_taken.
          let len = length-take room rest in
          let zero_long : length (take room rest) ≡ 0 = ap length none_taken in
          length-zero rest (omega (arith, len, zero_long, pos)),
    )
  where
    length-zero : (s : Bytes) → length s ≡ 0 → s ≡ []
    length-zero [] h = refl
    length-zero (c ∷ s) h = absurd (omega (arith, h))

reader-IsReady : (file : Bytes) → IsReady (read_from file) (length file) reader
reader-IsReady file = record {
  ok = record { fits = omega arith; bound = omega arith; start = λ e. refl };
  size = omega arith;
  held = omega arith;
  seen = omega arith;
  given = nothing;
  ends = λ e. absurd (cc);
}

stream_getln-lines_example : Line read_input 4 false reader (stream_getln read_input 5 false reader)
stream_getln-lines_example =
    stream_getln-lines read_input 4 5 false reader (omega arith) (read_from-IsRead input)
      (reader-IsReady input) (omega arith)

-- Two lines, each with its newline.
abbrev two_text : List Bytes
two_text = (b'a' ∷ []) ∷ (b'b' ∷ b'c' ∷ []) ∷ []

stream_getln-file_example : Reads (read_from (text two_text)) 6 reader two_text
unfolding newline_at
stream_getln-file_example =
    stream_getln-file (read_from (text two_text)) (text two_text) 5 6 two_text reader (omega arith)
      (read_from-IsRead (text two_text)) (read_from-IsFile (text two_text)) (omega arith)
      ((refl, refl), ((refl, refl), tt))
      (record {
        ready = reader-IsReady (text two_text);
        rest = text two_text;
        whole = refl;
        left = refl;
      })
