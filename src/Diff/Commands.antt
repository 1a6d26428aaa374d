-- ===== src/Diff/Commands.antt =====
-- diff.c, diff_geteditcmd(): the commands of a script as the server writes them, read back.
use csup.Prelude.{
  if◌then◌else◌, ℕ, ◌+◌, ◌^◌, ◌<◌, ◌≤◌, ◌≡◌, refl, sym, ap, ◌∙◌, Bool, true, false, ◌||◌, ltb, ◌==◌,
  Bytes, All, List, [], ◌∷◌, ◌++◌, some, length, append-nil, arith, map,
}
use csup.Prelude.Run.{done}
use csup.Prelude.Int.{pos}
use csup.Numbers.{print, strtoll}
use csup.Numbers.RoundTrip.{strtoll-print, print-All}
use csup.Diff.{
  Editcmd, ec_add, ec_del, Cmd, string_of, read_long, check_order, read_command, diff_geteditcmd,
}
use csup.Diff.Script.{Edit, adds, deletes}

-- "a12 3\n" and "d12 3\n"
abbrev pub command_text : ℕ → ℕ → ℕ → Bytes
command_text letter at count = letter ∷ (print 10 at ++ (b' ' ∷ print 10 count))

abbrev pub command_line : ℕ → ℕ → ℕ → Bytes
command_line letter at count = command_text letter at count ++ (10 ∷ [])

-- A line of text, with a dot before one that it starts with in checkout mode.
abbrev pub stuff : Bytes → Bytes
stuff [] = []
stuff (c ∷ line) = if c == b'.' then b'.' ∷ c ∷ line else c ∷ line

abbrev pub text_line : Bool → Bytes → Bytes
text_line true line = stuff line
text_line false line = line

-- The script as it is sent.
abbrev pub encode : Bool → List Edit → List Bytes
encode comode [] = []
encode comode (adds at texts ∷ s) =
    command_line b'a' at (length texts) ∷ (map (text_line comode) texts ++ encode comode s)
encode comode (deletes at count ∷ s) = command_line b'd' at count ∷ encode comode s

abbrev IsText : ℕ → Type 0
IsText c = (c == 0 || c == 10) ≡ false

digits-IsText : (n : ℕ) → All IsText (print 10 n)
digits-IsText n = print-All 10 (omega arith) (omega arith) IsText n (λ d lt. ground arith)

string_of-text : (s : Bytes) → All IsText s → string_of (s ++ (10 ∷ [])) ≡ s
unfolding string_of
string_of-text [] h = refl
string_of-text (c ∷ s) h = rw h.0 (ap (λ l. c ∷ l) (string_of-text s h.1))

IsText-append : (s t : Bytes) → All IsText s → All IsText t → All IsText (s ++ t)
IsText-append [] t hs ht = ht
IsText-append (c ∷ s) t hs ht = (hs.0, IsText-append s t hs.1 ht)

pub string_of-command_line :
    (letter at count : ℕ)
    → IsText letter
    → string_of (command_line letter at count) ≡ command_text letter at count
string_of-command_line letter at count h =
    string_of-text (command_text letter at count)
      (h, IsText-append (print 10 at) _ (digits-IsText at) (refl, digits-IsText count))

read_long-print :
    (n : ℕ) (rest : Bytes)
    → n < 2 ^ 63
    → read_long (print 10 n ++ (b' ' ∷ rest)) ≡ some (n, b' ' ∷ rest)
read_long-print n rest h =
    let e = strtoll-print 10 (omega arith) (omega arith) n (b' ' ∷ rest) h refl in
    rw (read_long, e) refl

read_long-print_end : (n : ℕ) → n < 2 ^ 63 → read_long (print 10 n) ≡ some (n, [])
read_long-print_end n h =
    let e : strtoll 10 (print 10 n) ≡ some (pos n, []) =
      ap (strtoll 10) (sym (append-nil (print 10 n)))
      ∙ strtoll-print 10 (omega arith) (omega arith) n [] h tt in
    rw (read_long, e) refl

read_command-print :
    (cmd : Cmd) (ec : Editcmd) (at count : ℕ)
    → at < 2 ^ 63
    → 0 < count
    → count < 2 ^ 63
    → read_command cmd ec (print 10 at ++ (b' ' ∷ print 10 count))
      ≡ check_order (record ec { cmd = cmd; at = at; count = count })
unfolding read_command
read_command-print cmd ec at count ha h0 hc =
    let e1 = read_long-print at (print 10 count) ha in
    let e2 = read_long-print_end count hc in
    let some_lines : (count == 0) ≡ false = ground arith in
    rw (read_command, e1, e2, some_lines) refl

-- An EC_ADD command in order.
pub diff_geteditcmd-add :
    (ec : Editcmd) (at count : ℕ)
    → ec.lasta ≤ at
    → at + 1 < 2 ^ 63
    → 0 < count
    → count < 2 ^ 63
    → diff_geteditcmd ec (command_text b'a' at count)
      ≡ done (some (record ec { cmd = ec_add; at = at; count = count; lasta = at + 1 }))
unfolding diff_geteditcmd check_order
diff_geteditcmd-add ec at count o ha h0 hc =
    let e = read_command-print ec_add ec at count (omega arith) h0 hc in
    let order : ltb at ec.lasta ≡ false = ground arith in
    let fits : ltb (at + 1) (2 ^ 63) ≡ true = ground arith in
    rw (diff_geteditcmd, e, check_order, order, fits) refl

-- An EC_DEL command in order.
pub diff_geteditcmd-del :
    (ec : Editcmd) (at count : ℕ)
    → ec.lasta ≤ at
    → ec.lastd ≤ at
    → at + count < 2 ^ 63
    → 0 < count
    → diff_geteditcmd ec (command_text b'd' at count)
      ≡ done (
          some (record ec { cmd = ec_del; at = at; count = count; lasta = at; lastd = at + count }))
unfolding diff_geteditcmd check_order
diff_geteditcmd-del ec at count oa od ha h0 =
    let e = read_command-print ec_del ec at count (omega arith) h0 (omega arith) in
    let order : (ltb at ec.lasta || ltb at ec.lastd) ≡ false = ground arith in
    let fits : ltb (at + count) (2 ^ 63) ≡ true = ground arith in
    rw (diff_geteditcmd, e, check_order, order, fits) refl
