-- ===== src/Stream/Getln.antt =====
-- stream.c: what stream_getln() returns, and what it leaves.
use csup.Prelude.{
  subst, ℕ, suc, ◌+◌, ◌-◌, ◌^◌, ◌<◌, ◌≡◌, refl, sym, ◌∙◌, ap, arith, Bool, ◌==◌, Bool-cases, inl,
  inr, append_assoc, append-nil, Bytes, [], ◌∷◌, ◌++◌, length, length-append, Option, none, some,
  take, take_all,
}
use csup.Prelude.Run.{Run, done}
use csup.Stream.{contents, read}
use csup.Stream.Filled.{IsRead, IsReady, Received, stream_fill_lem, failed, ended, more}
use csup.Stream.Lines.{newline_at-take, newline_at_lt, Found, lost, last, found, line_loop_lem}
use csup.Stream.Memory.{length-read}
use csup.Stream.Reading.{Reader, newline_at, take_line, find_line, stream_getln}
use csup.Stream.LineTaken.{Line, NoLine, take_line_lem}

module _ (readfn : Bytes → ℕ → Option Bytes) (limit : ℕ) where
  -- What was received before the line is taken counts too.
  Line-after :
      (len : Bool) (r : Reader) (new : Bytes) (r' : Reader) (m m' : Run (Option Bytes × Reader))
      → Received readfn limit r new r'
      → m ≡ m'
      → Line readfn limit len r' m'
      → Line readfn limit len r m
  Line-after len r new r' m m' k e l =
      let stored = k.stored in
      let received = k.received in
      record {
        answer = l.answer;
        after = l.after;
        new = new ++ l.new;
        taken = l.taken;
        returns = e ∙ l.returns;
        ready = l.ready;
        received = l.received ∙ rw received (append_assoc r.received new l.new);
        order = l.order ∙ rw stored (append_assoc (contents r.rdbuf) new l.new);
        gives = l.gives;
      }

  Line-none :
      (len : Bool) (r : Reader) (new : Bytes) (r' : Reader) (m : Run (Option Bytes × Reader))
      → Received readfn limit r new r'
      → m ≡ done (none, r')
      → NoLine readfn r'
      → Line readfn limit len r m
  Line-none len r new r' m k e why = record {
    answer = none;
    after = r';
    new = new;
    taken = [];
    returns = e;
    ready = k.ready;
    received = k.received;
    order = k.stored;
    gives = inl (refl, refl, why);
  }

  after_found :
      (fuel : ℕ) (len : Bool) (r : Reader)
      → 0 < r.rdbuf.used
      → Found readfn limit r fuel 0
      → Line readfn limit len r (find_line readfn fuel len r)
  unfolding find_line take_line
  after_found fuel len r pos (lost new r' e why k) =
      Line-none len r new r' (find_line readfn fuel len r) k (rw (find_line, e, take_line) refl)
        (inl why)
  after_found fuel len r pos (last new r' e clear eof k) =
      let stored = k.stored in
      let count = length-read r.rdbuf.cells r.rdbuf.off r.rdbuf.used in
      let count' = length-read r'.rdbuf.cells r'.rdbuf.off r'.rdbuf.used in
      let more_used : length (contents r'.rdbuf) ≡ length (contents r.rdbuf) + length new =
        ap length stored ∙ length-append (contents r.rdbuf) new in
      let whole = take_all r'.rdbuf.used (contents r'.rdbuf) (omega (arith, count')) in
      Line-after len r new r' (find_line readfn fuel len r)
        (take_line readfn len (some r'.rdbuf.used) r') k (rw (find_line, e) refl)
        (take_line_lem readfn limit len r'.rdbuf.used r' k.ready
          (omega (arith, pos, count, count', more_used)) (omega arith)
          (inr (ap newline_at whole ∙ clear, refl, eof)))
  after_found fuel len r pos (found new r' i e at k) =
      let count' = length-read r'.rdbuf.cells r'.rdbuf.off r'.rdbuf.used in
      let inside = newline_at_lt (contents r'.rdbuf) i at in
      let next : i + 1 ≡ suc i = omega arith in
      let back : i ≡ i + 1 - 1 = omega arith in
      Line-after len r new r' (find_line readfn fuel len r) (take_line readfn len (some (i + 1)) r')
        k (rw (find_line, e) refl)
        (take_line_lem readfn limit len (i + 1) r' k.ready (omega arith)
          (omega (arith, inside, count'))
          (inl (
            ap (λ n. newline_at (take n (contents r'.rdbuf))) next
            ∙ newline_at-take (contents r'.rdbuf) i at
            ∙ ap some back)))

  search-Line :
      (fuel : ℕ) (len : Bool) (r : Reader)
      → limit < 2 ^ 62
      → IsRead readfn limit
      → IsReady readfn limit r
      → limit < fuel + length r.received
      → 0 < r.rdbuf.used
      → Line readfn limit len r (find_line readfn fuel len r)
  unfolding newline_at
  search-Line fuel len r small reads g enough pos =
      after_found fuel len r pos
        (line_loop_lem readfn limit fuel 0 r small reads g (omega arith) refl enough)

  -- If read() gives no more than there is room for, and fewer than 2^62 bytes in all, then on a
  -- reader whose buffer is valid, with more fuel than bytes can still come, stream_getln() ends and
  -- no assertion fails: what it takes and what stays in the buffer is what was there and what was
  -- received meanwhile. It returns null and takes nothing, where read() fails, or where it ends and
  -- nothing is left; or it takes a line and returns it (if no length is asked for, up to the
  -- newline or the first NUL): bytes whose only newline is the last of them, or, where read() ends,
  -- all that is left.
  pub stream_getln-lines :
      (fuel : ℕ) (len : Bool) (r : Reader)
      → limit < 2 ^ 62
      → IsRead readfn limit
      → IsReady readfn limit r
      → limit < fuel + length r.received
      → Line readfn limit len r (stream_getln readfn fuel len r)
  unfolding stream_getln
  stream_getln-lines fuel len r small reads g enough = elim (Bool-cases (r.rdbuf.used == 0)) [
    | inr some_in ↦
        let l = search-Line fuel len r small reads g enough (ground arith) in
        let e : stream_getln readfn fuel len r ≡ find_line readfn fuel len r =
          rw (stream_getln, some_in) refl in
        subst (λ m. Line readfn limit len r m) (sym e) l
    | inl empty ↦ elim (stream_fill_lem readfn limit r small reads g) [
      | failed r' e why k ↦
          Line-none len r [] r' (stream_getln readfn fuel len r) k
            (rw (stream_getln, empty, e) refl) (inl why)
      | ended r' e eof k ↦
          let none_in : r.rdbuf.used ≡ 0 = ground (arith, empty) in
          let nothing : contents r.rdbuf ≡ [] = ap (read r.rdbuf.cells r.rdbuf.off) none_in in
          Line-none len r [] r' (stream_getln readfn fuel len r) k
            (rw (stream_getln, empty, e) refl)
            (inr (eof, k.stored ∙ append-nil (contents r.rdbuf) ∙ nothing))
      | more c s r' e used k ↦
          let received = k.received in
          let all : length r'.received ≡ length r.received + suc (length s) =
            ap length received ∙ length-append r.received (c ∷ s) in
          Line-after len r (c ∷ s) r' (stream_getln readfn fuel len r)
            (find_line readfn fuel len r') k (rw (stream_getln, empty, e) refl)
            (search-Line fuel len r' small reads k.ready (omega (arith, enough, all))
              (omega (arith, used)))
    ]
  ]
