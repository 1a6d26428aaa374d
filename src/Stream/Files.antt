-- ===== src/Stream/Files.antt =====
-- stream.c: stream_getln() on a file of lines, from its first line to its end.
use csup.Prelude.{
  ℕ, zero, suc, ◌-◌, ◌^◌, ◌<◌, ◌≡◌, refl, sym, ◌∙◌, ap, subst, arith, Bool, false, true, inl, inr,
  append-nil, append_assoc, Bytes, List, [], ◌∷◌, ◌++◌, length, length-append, Option, none, some,
  All, take-append_le, take_all,
}
use csup.Prelude.Run.{Run, done}
use csup.Stream.{contents}
use csup.Stream.Filled.{Fails, IsRead, IsReady, Given, nothing, behind}
use csup.Stream.Getln.{stream_getln-lines}
use csup.Stream.LineTaken.{Line, before_newline}
use csup.Stream.Lines.{newline_at-append}
use csup.Stream.Reading.{Reader, newline, newline_at, until_nul, stream_getln}

-- The bytes of a file of lines.
abbrev pub text : List Bytes → Bytes
text [] = []
text (l ∷ ls) = (l ++ (newline ∷ [])) ++ text ls

-- read() on a regular file: it does not fail, it gives what comes next in the file, and it gives
-- nothing only at the end.
abbrev pub IsFile : (Bytes → ℕ → Option Bytes) → Bytes → Type 0
IsFile readfn file =
    (seen rest : Bytes) (room : ℕ)
    → seen ++ rest ≡ file
    → 0 < room
    → (s left : Bytes) × (readfn seen room ≡ some s) × (s ++ left ≡ rest) × (s ≡ [] → rest ≡ [])

-- A line without its newline: neither a newline nor a NUL is in it.
abbrev pub IsText : Bytes → Type 0
IsText l = (newline_at l ≡ none) × (until_nul l ≡ l)

-- One line after the other is returned, and then null, at the end of the stream.
abbrev pub Reads : (Bytes → ℕ → Option Bytes) → ℕ → Reader → List Bytes → Type 0
Reads readfn fuel r [] =
    (r' : Reader) × (stream_getln readfn fuel false r ≡ done (none, r')) × (r'.eof ≡ true)
Reads readfn fuel r (l ∷ ls) =
    (r' : Reader) × (stream_getln readfn fuel false r ≡ done (some l, r')) × Reads readfn fuel r' ls

split_append : (a b x y : Bytes) → length a ≡ length b → a ++ x ≡ b ++ y → (a ≡ b) × (x ≡ y)
split_append [] [] x y n e = (refl, e)
split_append [] (d ∷ b) x y n e = absurd (omega (arith, n))
split_append (c ∷ a) [] x y n e = absurd (omega (arith, n))
split_append (c ∷ a) (d ∷ b) x y n e =
    let same : c ≡ d = cc in
    let t : a ++ x ≡ b ++ y = cc in
    let r = split_append a b x y (omega (arith, n)) t in let r0 = r.0 in (cc, r.1)

newline_at-front : (a b : Bytes) (i : ℕ) → newline_at a ≡ some i → newline_at (a ++ b) ≡ some i
unfolding newline_at
newline_at-front [] b i h = absurd (cc)
newline_at-front (c ∷ a) b zero h = ground arith
newline_at-front (c ∷ a) b (suc i) h = ground (arith, newline_at-front a b i)

newline_at-line :
    (l : Bytes) → newline_at l ≡ none → newline_at (l ++ (newline ∷ [])) ≡ some (length l)
unfolding newline_at
newline_at-line l h =
    newline_at-append l (newline ∷ []) 0 h refl ∙ ap (λ (n : ℕ). some n) (omega arith)

-- The text up to the first newline is the first line.
line_taken :
    (l taken x y : Bytes)
    → newline_at l ≡ none
    → newline_at taken ≡ some (length taken - 1)
    → 0 < length taken
    → taken ++ x ≡ (l ++ (newline ∷ [])) ++ y
    → (taken ≡ l ++ (newline ∷ [])) × (x ≡ y)
line_taken l taken x y h at pos e =
    let one : Bytes = l ++ (newline ∷ []) in
    let same : some (length taken - 1) ≡ some (length l) =
      sym (newline_at-front taken x (length taken - 1) at)
      ∙ ap newline_at e
      ∙ newline_at-front one y (length l) (newline_at-line l h) in
    let number : length taken - 1 ≡ length l = cc in
    let len = length-append l (newline ∷ []) in
    split_append taken one x y (omega (arith, number, len, pos)) e

line_before_newline : (l : Bytes) → newline_at l ≡ none → before_newline (l ++ (newline ∷ [])) ≡ l
line_before_newline l h =
    let at = newline_at-line l h in
    rw at (
      take-append_le (length l) l (newline ∷ []) (omega arith)
      ∙ take_all (length l) l (omega arith))

module _ (readfn : Bytes → ℕ → Option Bytes) (file : Bytes) where
  -- What is given is the front of the file.
  given_lem :
      (seen : Bytes)
      → IsFile readfn file
      → Given readfn seen
      → (rest : Bytes) × (seen ++ rest ≡ file)
  given_lem _ is nothing = (file, refl)
  given_lem _ is (behind seen room s g pos e) =
      let (rest, whole) = given_lem seen is g in
      let (s', left, gives, split, end) = is seen rest room whole pos in
      let same : s' ≡ s = cc in
      (
        left,
        append_assoc seen s left
            ∙ ap (λ t. seen ++ (t ++ left)) (sym same)
            ∙ ap (λ t. seen ++ t) split
            ∙ whole,
      )

  -- What is in the buffer and what follows in the file.
  pub record IsAt (limit : ℕ) (r : Reader) (s : Bytes) : Type 0 where
    pub ready : IsReady readfn limit r
    pub rest : Bytes
    pub whole : r.received ++ rest ≡ file
    pub left : contents r.rdbuf ++ rest ≡ s

  -- A reader that has seen the end has the whole file.
  at_end_lem :
      (limit : ℕ) (r : Reader) (s : Bytes) (at : IsAt limit r s)
      → IsFile readfn file
      → r.eof ≡ true
      → at.rest ≡ []
  at_end_lem limit r s at is e =
      let (room, pos, none_given) = at.ready.ends e in
      let (s', left, gives, split, end) = is r.received at.rest room at.whole pos in
      let same : s' ≡ [] = cc in end same

  -- A call moves on by what it takes.
  moved_on :
      (limit : ℕ) (len : Bool) (r : Reader) (s : Bytes) (m : Run (Option Bytes × Reader))
      (l : Line readfn limit len r m)
      → IsFile readfn file
      → IsAt limit r s
      → (t : Bytes) × (l.taken ++ t ≡ s) × IsAt limit l.after t
  moved_on limit len r s m l is at =
      let (rest, whole) = given_lem l.after.received is l.ready.given in
      let received = l.received in
      let both : r.received ++ (l.new ++ rest) ≡ r.received ++ at.rest =
        sym (append_assoc r.received l.new rest)
        ∙ ap (λ t. t ++ rest) (sym received)
        ∙ whole
        ∙ sym at.whole in
      let next : l.new ++ rest ≡ at.rest = (split_append r.received r.received _ _ refl both).1 in
      let left : Bytes = contents l.after.rdbuf ++ rest in
      (
        left,
        sym (append_assoc l.taken (contents l.after.rdbuf) rest)
            ∙ ap (λ t. t ++ rest) l.order
            ∙ append_assoc (contents r.rdbuf) l.new rest
            ∙ ap (λ t. contents r.rdbuf ++ t) next
            ∙ at.left,
        record { ready = l.ready; rest = rest; whole = whole; left = refl },
      )

  not_failed :
      (limit : ℕ) (r : Reader) (s : Bytes)
      → IsAt limit r s
      → IsFile readfn file
      → Fails readfn r.received
      → ⊥
  not_failed limit r s at is (room, pos, e) =
      let (s', left, gives, split, end) = is r.received at.rest room at.whole pos in cc

  -- Where the end was seen and the buffer is empty, the text is at its end.
  all_read :
      (limit : ℕ) (r : Reader) (s : Bytes)
      → IsAt limit r s
      → IsFile readfn file
      → r.eof ≡ true
      → contents r.rdbuf ≡ []
      → s ≡ []
  all_read limit r s at is eof empty =
      let none_left = at_end_lem limit r s at is eof in
      sym at.left ∙ ap (λ t. t ++ at.rest) empty ∙ none_left

  line_lem :
      (limit : ℕ) (r : Reader) (l : Bytes) (ls : List Bytes) (m : Run (Option Bytes × Reader))
      → IsFile readfn file
      → newline_at l ≡ none
      → until_nul l ≡ l
      → IsAt limit r (text (l ∷ ls))
      → Line readfn limit false r m
      → (r' : Reader) × (m ≡ done (some l, r')) × IsAt limit r' (text ls)
  unfolding newline_at
  line_lem limit r l ls m is clear whole_line at got =
      let (t, split, at') = moved_on limit false r (text (l ∷ ls)) m got is at in
      let first : newline_at (text (l ∷ ls)) ≡ some (length l) =
        newline_at-front (l ++ (newline ∷ [])) (text ls) (length l) (newline_at-line l clear) in
      elim got.gives [
        | inl (null, none_taken, why) ↦ elim why [
          | inl f ↦ absurd (not_failed limit got.after t at' is f)
          | inr (eof, empty) ↦
              let at_end = all_read limit got.after t at' is eof empty in
              let nothing_there : text (l ∷ ls) ≡ [] = sym split ∙ rw (none_taken, at_end) refl in
              absurd (no_line (sym first ∙ ap newline_at nothing_there))
        ]
        | inr (answer, some_taken, is_line) ↦ elim is_line [
          | inl at_last ↦
              let r = line_taken l got.taken t (text ls) clear at_last some_taken split in
              let one = r.0 in
              let shown : got.answer ≡ some l =
                answer
                ∙ ap (λ s. some (until_nul (before_newline s))) one
                ∙ ap (λ s. some (until_nul s)) (line_before_newline l clear)
                ∙ ap (λ s. some s) whole_line in
              (
                got.after,
                got.returns ∙ ap (λ a. done (a, got.after)) shown,
                subst (IsAt limit got.after) r.1 at',
              )
          | inr (none_in, empty, eof) ↦
              let at_end = all_read limit got.after t at' is eof empty in
              let whole_text : got.taken ≡ text (l ∷ ls) =
                sym (append-nil got.taken) ∙ ap (λ u. got.taken ++ u) (sym at_end) ∙ split in
              absurd (no_line (sym first ∙ ap newline_at (sym whole_text) ∙ none_in))
        ]
      ]
    where
      no_line : {n : ℕ} → some n ≡ none → ⊥
      no_line e = cc

  end_lem :
      (limit : ℕ) (r : Reader) (m : Run (Option Bytes × Reader))
      → IsFile readfn file
      → IsAt limit r []
      → Line readfn limit false r m
      → (r' : Reader) × (m ≡ done (none, r')) × (r'.eof ≡ true)
  end_lem limit r m is at got =
      let (t, split, at') = moved_on limit false r [] m got is at in
      elim got.gives [
        | inl (null, none_taken, why) ↦ elim why [
          | inl f ↦ absurd (not_failed limit got.after t at' is f)
          | inr (eof, empty) ↦ (got.after, got.returns ∙ ap (λ a. done (a, got.after)) null, eof)
        ]
        | inr (answer, some_taken, is_line) ↦
            let len = length-append got.taken t in
            let zero_long : length (got.taken ++ t) ≡ 0 = ap length split in
            absurd (omega (arith, len, zero_long, some_taken))
      ]

  -- If read() gives what comes next in a file of fewer than 2^62 bytes, no more than there is room
  -- for, and nothing only at the end, then on a reader whose buffer and what it has not received yet
  -- are lines with a newline behind each, without a NUL in them, with more fuel than the file has
  -- bytes, the calls of stream_getln() without a length return these lines, one after the other,
  -- and then null with the end of the stream.
  pub stream_getln-file :
      (limit fuel : ℕ) (ls : List Bytes) (r : Reader)
      → limit < 2 ^ 62
      → IsRead readfn limit
      → IsFile readfn file
      → limit < fuel
      → All IsText ls
      → IsAt limit r (text ls)
      → Reads readfn fuel r ls
  stream_getln-file limit fuel [] r small reads is enough clear at =
      end_lem limit r (stream_getln readfn fuel false r) is at
        (stream_getln-lines readfn limit fuel false r small reads at.ready (omega (arith, enough)))
  stream_getln-file limit fuel (l ∷ ls) r small reads is enough clear at =
      let (r', e, at') =
        line_lem limit r l ls (stream_getln readfn fuel false r) is clear.0.0 clear.0.1 at (
          stream_getln-lines readfn limit fuel false r small reads at.ready
            (omega (arith, enough))) in
      (r', e, stream_getln-file limit fuel ls r' small reads is enough clear.1 at')
