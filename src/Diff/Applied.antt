-- ===== src/Diff/Applied.antt =====
-- diff.c, diff_apply(): a script that is sent is carried out.
use csup.Prelude.{
  ℕ, zero, suc, ◌+◌, ◌-◌, ◌^◌, ◌<◌, ◌≤◌, ◌≡◌, refl, sym, ap, ◌∙◌, Bool, true, false, ◌==◌, Bytes,
  List, All, [], ◌∷◌, ◌++◌, some, length, length-drop, take, drop, append_assoc, append-nil, arith,
  map, Bool-cases, inl, inr,
}
use csup.Prelude.Run.{Run, done}
use csup.Diff.{
  ec_add, ec_del, unstuff, copy_lines, diff_copyln, add_lines, skip_lines, run_command, copy_rest,
}
use csup.Diff.Script.{Edit, adds, deletes}
use csup.Diff.Commands.{stuff, text_line}

-- The commands lie within a file of `n` lines.
abbrev pub Fits : ℕ → List Edit → Type 0
Fits n [] = Unit
Fits n (adds at texts ∷ s) = (at ≤ n) × (0 < length texts) × (length texts < 2 ^ 63) × Fits n s
Fits n (deletes at count ∷ s) = (0 < at) × (0 < count) × (at + count ≤ n + 1) × Fits n s

unstuff-stuff : (line : Bytes) → unstuff (stuff line) ≡ line
unstuff-stuff [] = refl
unstuff-stuff (c ∷ line) = elim (Bool-cases (c == b'.')) [
  | inl e ↦ rw (stuff, e) refl
  | inr e ↦ rw (stuff, e, unstuff, e) refl
]

module _ (write : Bytes → Run Bytes) (text_of : Bytes → Bytes) where
  -- What is written for some lines.
  abbrev pub written : List Bytes → Bytes
  written [] = []
  written (line ∷ lines) = text_of line ++ written lines

  pub written-append : (a b : List Bytes) → written (a ++ b) ≡ written a ++ written b
  written-append [] b = refl
  written-append (line ∷ a) b =
      ap (λ l. text_of line ++ l) (written-append a b)
      ∙ sym (append_assoc (text_of line) (written a) (written b))

  -- diff_write() gives its text for this line.
  abbrev pub Writes : Bytes → Type 0
  Writes line = write line ≡ done (text_of line)

  -- And for each line that a script adds.
  abbrev pub WritesAdded : List Edit → Type 0
  WritesAdded [] = Unit
  WritesAdded (adds at texts ∷ s) = All Writes texts × WritesAdded s
  WritesAdded (deletes at count ∷ s) = WritesAdded s

  pub Writes-drop : (n : ℕ) (lines : List Bytes) → All Writes lines → All Writes (drop n lines)
  Writes-drop zero lines ok = ok
  Writes-drop (suc n) [] ok = ok
  Writes-drop (suc n) (line ∷ lines) ok = Writes-drop n lines ok.1

  copy_lines_lem :
      (n : ℕ) (rd orig : List Bytes) (dest : Bytes)
      → n ≤ length orig
      → All Writes orig
      → copy_lines write n (record { rd = rd; orig = orig; dest = dest })
        ≡ done (some (record { rd = rd; orig = drop n orig; dest = dest ++ written (take n orig) }))
  unfolding copy_lines
  copy_lines_lem zero rd orig dest h ok =
      ap (λ d. done (some (record { rd = rd; orig = orig; dest = d }))) (sym (append-nil dest))
  copy_lines_lem (suc n) rd [] dest h ok = absurd (omega arith)
  copy_lines_lem (suc n) rd (line ∷ orig) dest h ok =
      let order = append_assoc dest (text_of line) (written (take n orig)) in
      rw ok.0 (
        copy_lines_lem n rd orig (dest ++ text_of line) (omega arith) ok.1
        ∙ ap (λ d. done (some (record { rd = rd; orig = drop n orig; dest = d }))) order)

  add_lines_lem :
      (comode : Bool) (texts rd orig : List Bytes) (dest : Bytes)
      → All Writes texts
      → add_lines write comode
          (length texts)
          (record { rd = map (text_line comode) texts ++ rd; orig = orig; dest = dest })
        ≡ done (some (record { rd = rd; orig = orig; dest = dest ++ written texts }))
  unfolding add_lines
  add_lines_lem comode [] rd orig dest ok =
      ap (λ d. done (some (record { rd = rd; orig = orig; dest = d }))) (sym (append-nil dest))
  add_lines_lem true (line ∷ texts) rd orig dest ok =
      rw (unstuff-stuff line, ok.0)
        (add_lines_lem true texts rd orig (dest ++ text_of line) ok.1
          ∙ ap (λ d. done (some (record { rd = rd; orig = orig; dest = d })))
              (append_assoc dest (text_of line) (written texts)))
  add_lines_lem false (line ∷ texts) rd orig dest ok = rw ok.0 (
      add_lines_lem false texts rd orig (dest ++ text_of line) ok.1
      ∙ ap (λ d. done (some (record { rd = rd; orig = orig; dest = d })))
          (append_assoc dest (text_of line) (written texts)))

  skip_lines_lem :
      (n : ℕ) (rd orig : List Bytes) (dest : Bytes)
      → n ≤ length orig
      → skip_lines n (record { rd = rd; orig = orig; dest = dest })
        ≡ some (record { rd = rd; orig = drop n orig; dest = dest })
  unfolding skip_lines
  skip_lines_lem zero rd orig dest h = refl
  skip_lines_lem (suc n) rd [] dest h = absurd (omega arith)
  skip_lines_lem (suc n) rd (line ∷ orig) dest h = skip_lines_lem n rd orig dest (omega arith)

  pub copy_rest_lem :
      (orig : List Bytes) (dest : Bytes)
      → All Writes orig
      → copy_rest write orig dest ≡ done (dest ++ written orig)
  unfolding copy_rest
  copy_rest_lem [] dest ok = ap done (sym (append-nil dest))
  copy_rest_lem (line ∷ orig) dest ok = rw ok.0 (
      copy_rest_lem orig (dest ++ text_of line) ok.1
      ∙ ap done (append_assoc dest (text_of line) (written orig)))

  pub run_command-add :
      (comode : Bool) (at e lasta lastd : ℕ) (texts rd orig : List Bytes) (dest : Bytes)
      → at - e ≤ length orig
      → All Writes orig
      → All Writes texts
      → run_command write comode
          (record {
            cmd = ec_add;
            at = at;
            count = length texts;
            lasta = lasta;
            lastd = lastd;
            editline = e;
          })
          (record { rd = map (text_line comode) texts ++ rd; orig = orig; dest = dest })
        ≡ done (
            some (
              record {
                cmd = ec_add;
                at = at;
                count = length texts;
                lasta = lasta;
                lastd = lastd;
                editline = e + (at - e);
              },
              record {
                rd = rd;
                orig = drop (at - e) orig;
                dest = (dest ++ written (take (at - e) orig)) ++ written texts;
              },
            ))
  unfolding run_command diff_copyln
  run_command-add comode at e lasta lastd texts rd orig dest h ok oks =
      let copied = copy_lines_lem (at - e) (map (text_line comode) texts ++ rd) orig dest h ok in
      let texts_in =
        add_lines_lem comode texts rd (drop (at - e) orig) (dest ++ written (take (at - e) orig))
          oks in
      rw (run_command, diff_copyln, copied, texts_in) refl

  pub run_command-del :
      (comode : Bool) (at count e lasta lastd : ℕ) (rd orig : List Bytes) (dest : Bytes)
      → (at - 1 - e) + count ≤ length orig
      → All Writes orig
      → run_command write comode
          (record {
            cmd = ec_del;
            at = at;
            count = count;
            lasta = lasta;
            lastd = lastd;
            editline = e;
          })
          (record { rd = rd; orig = orig; dest = dest })
        ≡ done (
            some (
              record {
                cmd = ec_del;
                at = at;
                count = count;
                lasta = lasta;
                lastd = lastd;
                editline = e + (at - 1 - e) + count;
              },
              record {
                rd = rd;
                orig = drop count (drop (at - 1 - e) orig);
                dest = dest ++ written (take (at - 1 - e) orig);
              },
            ))
  unfolding run_command diff_copyln
  run_command-del comode at count e lasta lastd rd orig dest h ok =
      let n : ℕ = at - 1 - e in
      let len = length-drop n orig in
      let copied = copy_lines_lem n rd orig dest (omega (arith, h)) ok in
      let gone =
        skip_lines_lem count rd (drop n orig) (dest ++ written (take n orig))
          (omega (arith, h, len)) in
      rw (run_command, diff_copyln, copied, gone) refl
