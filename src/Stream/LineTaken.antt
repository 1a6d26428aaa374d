-- ===== src/Stream/LineTaken.antt =====
-- stream.c: a line that stream_getln() takes from the front of the buffer.
use csup.Prelude.{
  ℕ, zero, suc, ◌+◌, ◌-◌, ◌<◌, ◌≤◌, ◌≡◌, refl, sym, ◌∙◌, ap, arith, Bool, true, false, ◌==◌, inl,
  inr, ◌⊎◌, append-nil, if◌then◌else◌, Bytes, [], ◌∷◌, ◌++◌, length, get_or, Option, none, some,
  take, take_all, length-take,
}
use csup.Prelude.Run.{Run, done}
use csup.Stream.{Buf, contents, put, read}
use csup.Stream.Filled.{Fails, IsReady}
use csup.Stream.Memory.{length-read, read-put}
use csup.Stream.Reading.{Reader, newline, newline_at, nul_place, take_line, until_nul}
use csup.Stream.Taken.{IsOk, Less, buf_less_lem}

abbrev cut : Option ℕ → Bytes → Bytes
cut none s = s
cut (some i) s = take i s

-- What lies before the first newline.
abbrev pub before_newline : Bytes → Bytes
before_newline s = cut (newline_at s) s

-- What the caller sees of a line: all of it if it asks for the length, else what is before a NUL.
abbrev pub seen : Bool → Bytes → Bytes
seen len s = if len then s else until_nul (before_newline s)

newline_at_get : (s : Bytes) (i : ℕ) → newline_at s ≡ some i → (get_or s i 0 == newline) ≡ true
unfolding newline_at
newline_at_get [] i h = absurd (cc)
newline_at_get (c ∷ s) zero h = ground arith
newline_at_get (c ∷ s) (suc i) h = ground (arith, newline_at_get s i)

newline_at-none : (s : Bytes) (i : ℕ) → newline_at s ≡ none → (get_or s i 0 == newline) ≡ false
unfolding newline_at
newline_at-none [] i h = refl
newline_at-none (c ∷ s) zero h = ground arith
newline_at-none (c ∷ s) (suc i) h = ground (arith, newline_at-none s i)

-- A line ends with its only newline, or nothing is behind it and the end was reached.
abbrev pub IsLine : Bytes → Reader → Type 0
IsLine s after =
    (newline_at s ≡ some (length s - 1))
    ⊎ ((newline_at s ≡ none) × (contents after.rdbuf ≡ []) × (after.eof ≡ true))

nul-before_newline :
    (s : Bytes) (after : Reader) → IsLine s after → take (nul_place s) s ≡ before_newline s
nul-before_newline s after (inl e) = let at = newline_at_get s (length s - 1) e in rw (e, at) refl
nul-before_newline s after (inr (e, left, eof)) =
    let at = newline_at-none s (length s - 1) e in rw (e, at) (take_all (length s) s (omega arith))

-- Why there is no line: read() fails, or its end was reached and nothing is left.
abbrev pub NoLine : (Bytes → ℕ → Option Bytes) → Reader → Type 0
NoLine readfn after =
    Fails readfn after.received ⊎ ((after.eof ≡ true) × (contents after.rdbuf ≡ []))

-- What a call comes to: the line that is taken off the front of what is there and what is received.
pub record Line (readfn : Bytes → ℕ → Option Bytes) (limit : ℕ) (len : Bool) (r : Reader)
    (result : Run (Option Bytes × Reader)) : Type 0 where
  pub answer : Option Bytes
  pub after : Reader
  pub new : Bytes
  pub taken : Bytes
  pub returns : result ≡ done (answer, after)
  pub ready : IsReady readfn limit after
  pub received : after.received ≡ r.received ++ new
  pub order : taken ++ contents after.rdbuf ≡ contents r.rdbuf ++ new
  pub gives :
      ((answer ≡ none) × (taken ≡ []) × NoLine readfn after)
      ⊎ ((answer ≡ some (seen len taken)) × (0 < length taken) × IsLine taken after)

-- The end of a line of `n` bytes at the front of the buffer.
abbrev IsEnd : Reader → ℕ → Type 0
IsEnd r n =
    (newline_at (take n (contents r.rdbuf)) ≡ some (n - 1))
    ⊎ ((newline_at (take n (contents r.rdbuf)) ≡ none) × (n ≡ r.rdbuf.used) × (r.eof ≡ true))

nul_place_lt :
    (r : Reader) (n : ℕ)
    → 0 < n
    → length (take n (contents r.rdbuf)) ≡ n
    → IsEnd r n
    → (r.rdbuf.used ≡ n) ⊎ (nul_place (take n (contents r.rdbuf)) < n)
nul_place_lt r n pos len (inl e) =
    let at = newline_at_get (take n (contents r.rdbuf)) (n - 1) e in
    inr (rw (nul_place, len, at) (omega arith))
nul_place_lt r n pos len (inr (e, used, eof)) = inl (sym used)

-- The NUL is not written over what is left.
contents-put :
    (b : Buf) (n at : ℕ) (l : Less b n)
    → (b.used ≡ n) ⊎ (at < n)
    → contents (record l.rest { cells = put l.rest.cells (b.off + at) 0 }) ≡ contents l.rest
contents-put b n at l h =
    let fewer = l.fewer in
    let place = l.place in
    read-put l.rest.cells (b.off + at) 0 l.rest.off l.rest.used
      (λ j le lt. ground (arith, fewer, place, h, le, lt))

left-IsReady :
    (readfn : Bytes → ℕ → Option Bytes) (limit : ℕ) (r : Reader) (n : ℕ) (l : Less r.rdbuf n)
    (b : Buf)
    → IsReady readfn limit r
    → IsOk b
    → b.size ≡ l.rest.size
    → b.used ≡ l.rest.used
    → IsReady readfn limit (record r { rdbuf = b })
left-IsReady readfn limit r n l b g ok size used =
    let same = l.same_size in
    let fewer = l.fewer in
    let pos = g.size in
    let held = g.held in
    record {
      ok = ok;
      size = omega (arith, size, same, pos);
      held = omega (arith, used, fewer, held);
      seen = g.seen;
      given = g.given;
      ends = g.ends;
    }

-- Nothing is left behind a line that ends with the stream.
IsEnd-IsLine :
    (r : Reader) (n : ℕ) (l : Less r.rdbuf n) (after : Reader)
    → length (take n (contents r.rdbuf)) ≡ n
    → contents after.rdbuf ≡ contents l.rest
    → after.eof ≡ r.eof
    → IsEnd r n
    → IsLine (take n (contents r.rdbuf)) after
IsEnd-IsLine r n l after len same eof (inl e) = inl (e ∙ ap (λ (k : ℕ). some (k - 1)) (sym len))
IsEnd-IsLine r n l after len same eof (inr (e, used, eof')) =
    let fewer = l.fewer in
    let zero_left : l.rest.used ≡ 0 = omega (arith, fewer, used) in
    let nothing : contents l.rest ≡ [] = ap (read l.rest.cells l.rest.off) zero_left in
    inr (e, same ∙ nothing, eof ∙ eof')

module _ (readfn : Bytes → ℕ → Option Bytes) (limit : ℕ) where
  pub take_line_lem :
      (len : Bool) (n : ℕ) (r : Reader)
      → IsReady readfn limit r
      → 0 < n
      → n ≤ r.rdbuf.used
      → IsEnd r n
      → Line readfn limit len r (take_line readfn len (some n) r)
  unfolding take_line
  take_line_lem true n r g pos le e =
      let l = buf_less_lem r.rdbuf n g.ok le in
      let s : Bytes = contents r.rdbuf in
      let count = length-read r.rdbuf.cells r.rdbuf.off r.rdbuf.used in
      let size : length (take n s) ≡ n = let k = length-take n s in ground (arith, k, count, le) in
      let after : Reader = record r { rdbuf = l.rest } in
      record {
        answer = some (take n s);
        after = after;
        new = [];
        taken = take n s;
        returns = rw (take_line, l.result) refl;
        ready = left-IsReady readfn limit r n l l.rest g l.ok refl refl;
        received = sym (append-nil r.received);
        order = l.split ∙ sym (append-nil s);
        gives = inr (refl, omega (arith, size, pos), IsEnd-IsLine r n l after size refl refl e);
      }
  take_line_lem false n r g pos le e =
      let l = buf_less_lem r.rdbuf n g.ok le in
      let s : Bytes = contents r.rdbuf in
      let count = length-read r.rdbuf.cells r.rdbuf.off r.rdbuf.used in
      let size : length (take n s) ≡ n = let k = length-take n s in ground (arith, k, count, le) in
      let at : ℕ = nul_place (take n s) in
      let b : Buf = record l.rest { cells = put l.rest.cells (r.rdbuf.off + at) 0 } in
      let kept = contents-put r.rdbuf n at l (nul_place_lt r n pos size e) in
      let after : Reader = record r { rdbuf = b } in
      let line = IsEnd-IsLine r n l after size kept refl e in
      let ok : IsOk b = record { fits = l.ok.fits; bound = l.ok.bound; start = l.ok.start } in
      record {
        answer = some (until_nul (before_newline (take n s)));
        after = after;
        new = [];
        taken = take n s;
        returns =
            rw (take_line, l.result)
              (ap (λ t. done (some (until_nul t), after))
                (nul-before_newline (take n s) after line));
        ready = left-IsReady readfn limit r n l b g ok refl refl;
        received = sym (append-nil r.received);
        order = ap (λ t. take n s ++ t) kept ∙ l.split ∙ sym (append-nil s);
        gives = inr (refl, omega (arith, size, pos), line);
      }
