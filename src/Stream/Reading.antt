-- ===== src/Stream/Reading.antt =====
-- stream.c: the reading side with the default fill method. The read function of the stream is an
-- argument; it gets what it has given before and the room that there is.
use csup.Prelude.{
  ℕ, zero, suc, ◌+◌, ◌-◌, Bool, true, ◌==◌, ltb, if◌then◌else◌, Bytes, [], ◌∷◌, ◌++◌, length, take,
  drop, get_or, min, Option, none, some,
}
use csup.Prelude.Run.{Run, done, abort, out_of_fuel, ◌>>=◌}
use csup.Mux.Word.{add_size, sub_size}
use csup.Stream.{
  Buf, buf_avail, contents, put, store, read, buf_grow, buf_prewrite, buf_more, buf_less,
}

abbrev pub newline : ℕ
newline = b'\n'

-- The reading side of a stream, and the bytes that its read function has given.
pub record Reader : Type 0 where
  pub rdbuf : Buf
  pub eof : Bool
  pub received : Bytes

-- `none` is -1, and 0 the end.
abbrev pub Fill : Type 0
Fill = Option ℕ × Reader

-- memchr(): where the first newline is.
unfoldable pub newline_at : Bytes → Option ℕ
newline_at [] = none
newline_at (c ∷ s) =
    if c == newline then some 0 else elim (newline_at s) [ none ↦ none | some i ↦ some (suc i) ]

-- The assertion of stream_fill(), with the count before.
abbrev pub counted : ℕ → Fill → Run Fill
counted old (none, r) = if r.rdbuf.used == old then done (none, r) else abort
counted old (some n, r) = if r.rdbuf.used == add_size old n then done (some n, r) else abort

-- The NUL in place of the newline, or behind the last line.
abbrev pub nul_place : Bytes → ℕ
nul_place line = if get_or line (length line - 1) 0 == newline then length line - 1 else length line

-- What a char pointer gives its caller: the bytes before the first NUL.
abbrev pub until_nul : Bytes → Bytes
until_nul [] = []
until_nul (c ∷ s) = if c == 0 then [] else c ∷ until_nul s

module _ (readfn : Bytes → ℕ → Option Bytes) where
  unfoldable pub stream_fill_default : Reader → Run Fill
  stream_fill_default r =
      let b : Buf = r.rdbuf in
      if r.eof
      then done (some 0, r)
      else if buf_avail b == 0
      then abort
      else elim (readfn r.received (buf_avail b)) [
        | none ↦ done (none, r)
        | some [] ↦ done (some 0, record r { eof = true })
        | some (c ∷ s) ↦
            buf_more (record b { cells = store b.cells (b.off + b.used) (c ∷ s) }) (length (c ∷ s))
            >>= λ more.
                done (
                  some (length (c ∷ s)),
                  record r { rdbuf = more; received = r.received ++ (c ∷ s) },
                )
      ]

  unfoldable pub stream_fill : Reader → Run Fill
  unfolding stream_fill_default
  stream_fill r = buf_prewrite r.rdbuf >>= λ b.
      stream_fill_default (record r { rdbuf = b }) >>= λ filled. counted b.used filled

  -- Some bytes: what is read, `none` for -1.
  unfoldable pub stream_read : Reader → ℕ → Run (Option Bytes × Reader)
  unfolding stream_fill
  stream_read r size =
      let from_buffer : Reader → Run (Option Bytes × Reader) = λ r'.
        let n : ℕ = min size r'.rdbuf.used in
        buf_less r'.rdbuf n >>= λ b.
        done (some (take n (contents r'.rdbuf)), record r' { rdbuf = b }) in
      if r.rdbuf.used == 0
      then (stream_fill r >>= λ (got, r'). elim got [
        | none ↦ done (none, r')
        | some zero ↦ done (none, r')
        | some (suc n) ↦ from_buffer r'
      ])
      else from_buffer r

  -- The loop of stream_getln() that looks for the newline behind the bytes that were searched, on
  -- fuel: each round gets a byte. The size of the line, `none` for an error.
  unfoldable pub line_loop : ℕ → ℕ → Reader → Run (Option ℕ × Reader)
  unfolding newline_at stream_fill
  line_loop zero searched r = out_of_fuel
  line_loop (suc fuel) searched r = elim (newline_at (drop searched (contents r.rdbuf))) [
    | some i ↦ done (some (searched + i + 1), r)
    | none ↦ stream_fill r >>= λ (got, r'). elim got [
      | none ↦ done (none, r')
      | some zero ↦ done (some r'.rdbuf.used, r')
      | some (suc n) ↦ line_loop fuel r.rdbuf.used r'
    ]
  ]

  -- The line is taken from the buffer; if the caller wants no length, it ends with a NUL, or with one
  -- that is in it.
  unfoldable pub take_line : Bool → Option ℕ → Reader → Run (Option Bytes × Reader)
  take_line len none r = done (none, r)
  take_line len (some size) r =
      let line : Bytes = take size (contents r.rdbuf) in
      buf_less r.rdbuf size >>= λ b.
      if len
      then done (some line, record r { rdbuf = b })
      else done (
        some (until_nul (take (nul_place line) line)),
        record r { rdbuf = record b { cells = put b.cells (r.rdbuf.off + nul_place line) 0 } },
      )

  unfoldable pub find_line : ℕ → Bool → Reader → Run (Option Bytes × Reader)
  unfolding line_loop take_line
  find_line fuel len r = line_loop fuel 0 r >>= λ found. take_line len found.0 found.1

  -- `none` is a null pointer.
  unfoldable pub stream_getln : ℕ → Bool → Reader → Run (Option Bytes × Reader)
  unfolding find_line stream_fill
  stream_getln fuel len r =
      if r.rdbuf.used == 0
      then (stream_fill r >>= λ (got, r'). elim got [
        | none ↦ done (none, r')
        | some zero ↦ done (none, r')
        | some (suc n) ↦ find_line fuel len r'
      ])
      else find_line fuel len r

-- A buffer as cookie: `used` counts what was read, and `off` is where the next byte is written.
unfoldable pub stream_read_buf : Buf → ℕ → Bytes × Buf
stream_read_buf b size =
    let avail : ℕ = sub_size b.off b.used in
    let n : ℕ = if ltb avail size then avail else size in
    (read b.cells b.used n, record b { used = add_size b.used n })

unfoldable pub stream_append_buf : Buf → Bytes → Run Buf
stream_append_buf b src =
    (if ltb (sub_size b.size b.off) (length src)
      then buf_grow b (add_size b.size (length src))
      else done b)
    >>= λ grown.
        let end : ℕ = add_size grown.off (length src) in
        done (record grown { cells = put (store grown.cells grown.off src) end 0; off = end })

-- Only the write offset changes; it is called with a number below 0, of which this is the size.
unfoldable pub stream_truncate_buf : Buf → ℕ → Buf
stream_truncate_buf b n = record b { off = sub_size b.off n }
