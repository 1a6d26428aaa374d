-- ===== src/Diff/Carried.antt =====
-- diff.c, the loop of diff_apply(): a whole script is carried out.
use csup.Prelude.{
  ℕ, zero, suc, ◌+◌, ◌-◌, ◌^◌, ◌<◌, ◌≤◌, ◌≡◌, refl, sym, ap, ◌∙◌, subst, Bool, false, leb, Bytes,
  List, All, [], ◌∷◌, ◌++◌, Option, length, length-append, length-drop, take, drop, append_assoc,
  arith, map, Bool-cases, inl, inr, ◌⊎◌,
}
use csup.Prelude.Run.{Run}
use csup.Diff.{Editcmd, ec_add, ec_del, Ended, apply_loop}
use csup.Diff.Script.{Edit, adds, deletes, edited_from, Ordered, Ordered-From}
use csup.Diff.Cursor.{to_write, to_write-adds, to_write-deletes}
use csup.Diff.Commands.{
  text_line, encode, command_line, string_of-command_line, diff_geteditcmd-add, diff_geteditcmd-del,
}
use csup.Diff.Applied.{
  Fits, Writes, WritesAdded, Writes-drop, written, written-append, run_command-add, run_command-del,
}

edited_from_nil : (e : ℕ) (lines : List Bytes) → edited_from [] e lines ≡ lines
edited_from_nil e [] = refl
edited_from_nil e (line ∷ lines) = ap (λ l. line ∷ l) (edited_from_nil (suc e) lines)

-- Where the cursor is: no further than what is behind the last commands.
abbrev Behind : Editcmd → Type 0
Behind ec = (ec.editline ≤ ec.lasta - 1) ⊎ (ec.editline ≤ ec.lastd - 1)

Behind-add :
    (ec : Editcmd) (at : ℕ)
    → Behind ec
    → ec.lasta ≤ at
    → (ec.editline + (at - ec.editline) ≤ at + 1 - 1)
      ⊎ (ec.editline + (at - ec.editline) ≤ ec.lastd - 1)
Behind-add ec at (inl h) o = inl (omega (arith, h, o))
Behind-add ec at (inr h) o = elim (Bool-cases (leb ec.editline at)) [
  | inl y ↦ inl (ground arith)
  | inr y ↦ inr (ground arith)
]

module _ (write : Bytes → Run Bytes) (text_of : Bytes → Bytes) where
  abbrev pub out : List Bytes → Bytes
  out = written write text_of

  abbrev pub run_loop : ℕ → Bool → Editcmd → List Bytes → List Bytes → Bytes → Run (Option Ended)
  run_loop fuel comode ec rd orig dest =
      apply_loop write fuel comode false ec (record { rd = rd; orig = orig; dest = dest })

  -- The commands are carried out: the loop stands before what follows them.
  pub record Carried (fuel : ℕ) (comode : Bool) (ec : Editcmd) (rd finish orig : List Bytes)
      (dest all : Bytes) : Type 0 where
    pub fuel_left : ℕ
    pub ec' : Editcmd
    pub orig' : List Bytes
    pub dest' : Bytes
    pub runs :
        run_loop fuel comode ec rd orig dest ≡ run_loop fuel_left comode ec' finish orig' dest'
    pub writes' : All (Writes write text_of) orig'
    pub total : dest' ++ out orig' ≡ all
    pub enough : length finish < fuel_left

  step-add :
      (fuel : ℕ) (comode : Bool) (ec : Editcmd) (at : ℕ) (texts rd orig : List Bytes) (dest : Bytes)
      → ec.lasta ≤ at
      → at + 1 < 2 ^ 63
      → 0 < length texts
      → length texts < 2 ^ 63
      → at - ec.editline ≤ length orig
      → All (Writes write text_of) orig
      → All (Writes write text_of) texts
      → run_loop
          (suc fuel)
          comode
          ec
          (command_line b'a' at (length texts) ∷ (map (text_line comode) texts ++ rd))
          orig
          dest
        ≡ run_loop fuel comode
            (record {
              cmd = ec_add;
              at = at;
              count = length texts;
              lasta = at + 1;
              lastd = ec.lastd;
              editline = ec.editline + (at - ec.editline);
            })
            rd
            (drop (at - ec.editline) orig)
            ((dest ++ out (take (at - ec.editline) orig)) ++ out texts)
  unfolding apply_loop
  step-add fuel comode ec at texts rd orig dest o ha h0 hc le ok oks =
      let line = string_of-command_line b'a' at (length texts) refl in
      let command = diff_geteditcmd-add ec at (length texts) o ha h0 hc in
      let ran =
        run_command-add write text_of comode at ec.editline (at + 1) ec.lastd texts rd orig dest le
          ok oks in
      rw (apply_loop, line, command, ran) refl

  step-del :
      (fuel : ℕ) (comode : Bool) (ec : Editcmd) (at count : ℕ) (rd orig : List Bytes) (dest : Bytes)
      → ec.lasta ≤ at
      → ec.lastd ≤ at
      → at + count < 2 ^ 63
      → 0 < count
      → (at - 1 - ec.editline) + count ≤ length orig
      → All (Writes write text_of) orig
      → run_loop (suc fuel) comode ec (command_line b'd' at count ∷ rd) orig dest
        ≡ run_loop fuel comode
            (record {
              cmd = ec_del;
              at = at;
              count = count;
              lasta = at;
              lastd = at + count;
              editline = ec.editline + (at - 1 - ec.editline) + count;
            })
            rd
            (drop count (drop (at - 1 - ec.editline) orig))
            (dest ++ out (take (at - 1 - ec.editline) orig))
  unfolding apply_loop
  step-del fuel comode ec at count rd orig dest oa od ha h0 le ok =
      let line = string_of-command_line b'd' at count refl in
      let command = diff_geteditcmd-del ec at count oa od ha h0 in
      let ran =
        run_command-del write text_of comode at count ec.editline at (at + count) rd orig dest le
          ok in
      rw (apply_loop, line, command, ran) refl

  out_two : (dest : Bytes) (a b : List Bytes) → (dest ++ out a) ++ out b ≡ dest ++ out (a ++ b)
  out_two dest a b =
      append_assoc dest (out a) (out b)
      ∙ ap (λ l. dest ++ l) (sym (written-append write text_of a b))

  out_three :
      (dest : Bytes) (a b c : List Bytes)
      → ((dest ++ out a) ++ out b) ++ out c ≡ dest ++ out (a ++ (b ++ c))
  out_three dest a b c =
      ap (λ l. l ++ out c) (out_two dest a b)
      ∙ out_two dest (a ++ b) c
      ∙ ap (λ l. dest ++ out l) (append_assoc a b c)

  pub carried :
      (s : List Edit) (fuel : ℕ) (comode : Bool) (ec : Editcmd) (finish orig : List Bytes)
      (dest : Bytes) (n : ℕ)
      → Ordered ec.lasta ec.lastd s
      → Fits n s
      → n + 1 < 2 ^ 63
      → ec.editline + length orig ≡ n
      → Behind ec
      → length (encode comode s ++ finish) < fuel
      → All (Writes write text_of) orig
      → WritesAdded write text_of s
      → Carried fuel comode ec
          (encode comode s ++ finish)
          finish
          orig
          dest
          (dest ++ out (to_write s ec.editline orig))
  carried [] fuel comode ec finish orig dest n o fits max en behind lt ok oks = record {
    fuel_left = fuel;
    ec' = ec;
    orig' = orig;
    dest' = dest;
    runs = refl;
    writes' = ok;
    total = ap (λ l. dest ++ out l) (sym (edited_from_nil ec.editline orig));
    enough = lt;
  }
  carried s zero comode ec finish orig dest n o fits max en behind lt ok oks = absurd (omega arith)
  carried (adds at texts ∷ s) (suc fuel) comode ec finish orig dest n o fits max en behind lt ok
        oks =
      let e : ℕ = ec.editline in
      let ahead : ℕ = at - e in
      let le : ahead ≤ length orig = omega (arith, en, fits.0) in
      let texts_in : List Bytes = map (text_line comode) texts in
      let rd : List Bytes = encode comode s ++ finish in
      let lines : (texts_in ++ encode comode s) ++ finish ≡ texts_in ++ rd =
        append_assoc texts_in (encode comode s) finish in
      let len = length-append texts_in rd in
      let len' = ap length lines in
      let rest : List Bytes = drop ahead orig in
      let len_rest = length-drop ahead orig in
      let dest' : Bytes = (dest ++ out (take ahead orig)) ++ out texts in
      let ec' : Editcmd = record {
        cmd = ec_add;
        at = at;
        count = length texts;
        lasta = at + 1;
        lastd = ec.lastd;
        editline = e + ahead;
      } in
      let one =
        step-add fuel comode ec at texts rd orig dest o.0 (omega (arith, max, fits.0)) fits.1 fits.2
          le ok oks.0 in
      let next_order : Ordered (at + 1) ec.lastd s =
        let same : suc at ≡ at + 1 = omega arith in subst (λ i. Ordered i ec.lastd s) same o.1 in
      let more =
        carried s fuel comode ec' finish rest dest' n next_order fits.3 max
          (omega (arith, en, len_rest, le)) (Behind-add ec at behind o.0)
          (omega (arith, lt, len, len')) (Writes-drop write text_of ahead orig ok) oks.1 in
      let asked =
        to_write-adds at texts ec.lastd s e orig o.1
          (Ordered-From (suc at) ec.lastd at (suc at) s (omega arith) (inl (omega arith)) o.1) le in
      record {
        fuel_left = more.fuel_left;
        ec' = more.ec';
        orig' = more.orig';
        dest' = more.dest';
        writes' = more.writes';
        runs = rw lines (one ∙ more.runs);
        total =
            more.total
            ∙ out_three dest (take ahead orig) texts (to_write s (e + ahead) rest)
            ∙ ap (λ l. dest ++ out l) (sym asked);
        enough = more.enough;
      }
  carried (deletes at count ∷ s) (suc fuel) comode ec finish orig dest n o fits max en behind lt ok
        oks =
      let e : ℕ = ec.editline in
      let ahead : ℕ = at - 1 - e in
      let before : e ≤ at - 1 = elim behind [
        | inl h ↦ omega (arith, h, o.0)
        | inr h ↦ omega (arith, h, o.1)
      ] in
      let le : ahead + count ≤ length orig = omega (arith, en, fits.0, fits.2, before) in
      let rd : List Bytes = encode comode s ++ finish in
      let rest : List Bytes = drop count (drop ahead orig) in
      let len = length-drop ahead orig in
      let len_rest = length-drop count (drop ahead orig) in
      let dest' : Bytes = dest ++ out (take ahead orig) in
      let ec' : Editcmd = record {
        cmd = ec_del;
        at = at;
        count = count;
        lasta = at;
        lastd = at + count;
        editline = e + ahead + count;
      } in
      let one =
        step-del fuel comode ec at count rd orig dest o.0 o.1 (omega (arith, max, fits.2)) fits.1 le
          ok in
      let more =
        carried s fuel comode ec' finish rest dest' n o.2 fits.3 max
          (omega (arith, en, len, len_rest, le)) (inr (omega (arith, before, fits.0)))
          (omega (arith, lt))
          (Writes-drop write text_of count (drop ahead orig)
            (Writes-drop write text_of ahead orig ok))
          oks in
      let asked =
        to_write-deletes at count s e ahead orig o.2
          (Ordered-From at (at + count) at at s (omega arith) (inl (omega arith)) o.2) fits.0
          (omega (arith, before)) le in
      record {
        fuel_left = more.fuel_left;
        ec' = more.ec';
        orig' = more.orig';
        dest' = more.dest';
        writes' = more.writes';
        runs = one ∙ more.runs;
        total =
            more.total
            ∙ out_two dest (take ahead orig) (to_write s (e + ahead + count) rest)
            ∙ ap (λ l. dest ++ out l) (sym asked);
        enough = more.enough;
      }
