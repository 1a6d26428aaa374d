-- ===== src/Diff/Edited.antt =====
-- diff.c, diff_apply(): what comes out is the file that the script asks for.
use csup.Prelude.{
  ℕ, zero, suc, ◌+◌, ◌^◌, ◌<◌, ◌≡◌, refl, sym, ap, ◌∙◌, Bool, true, false, Bytes, List, All, [],
  ◌∷◌, ◌++◌, Option, none, some, length, arith, inl,
}
use csup.Prelude.Run.{Run, done}
use csup.Diff.{
  Editcmd, no_command, string_of, dot_line, dot_plus_line, apply_loop, drop_last, diff_apply,
}
use csup.Diff.Script.{Edit, edited, Ordered}
use csup.Diff.Cursor.{edited-to_write}
use csup.Diff.Commands.{encode}
use csup.Diff.Applied.{Fits, Writes, WritesAdded, copy_rest_lem}
use csup.Diff.Carried.{out, run_loop, carried}

-- How the edits end: with the lines, or in checkout mode with "." or ".+".
pub data Ending : Type 0 where
  no_more dot dot_plus : Ending

abbrev pub comode_of : Ending → Bool
comode_of no_more = false
comode_of _ = true

abbrev pub lines_of : Ending → List Bytes
lines_of no_more = []
lines_of dot = (b'.' ∷ 10 ∷ []) ∷ []
lines_of dot_plus = (b'.' ∷ b'+' ∷ 10 ∷ []) ∷ []

abbrev last_of : Ending → Option Bytes
last_of no_more = none
last_of dot = some dot_line
last_of dot_plus = some dot_plus_line

abbrev pub cut_off : Ending → Bytes → Option Bytes
cut_off dot_plus text = drop_last text
cut_off _ text = some text

module _ (write : Bytes → Run Bytes) (text_of : Bytes → Bytes) where
  -- The end of the commands, as it is reached.
  stops :
      (ending : Ending) (fuel : ℕ) (ec : Editcmd) (orig : List Bytes) (dest : Bytes)
      → length (lines_of ending) < fuel
      → run_loop write text_of fuel (comode_of ending) ec (lines_of ending) orig dest
        ≡ done (
            some (record {
              last = last_of ending;
              empty = false;
              left = record { rd = []; orig = orig; dest = dest };
            }))
  unfolding apply_loop string_of
  stops ending zero ec orig dest h = absurd (omega arith)
  stops no_more (suc fuel) ec orig dest h = refl
  stops dot (suc fuel) ec orig dest h = refl
  stops dot_plus (suc fuel) ec orig dest h = refl

  rest_copied :
      (ending : Ending) (rd lines orig : List Bytes) (dest : Bytes)
      → run_loop write text_of (length rd + 1) (comode_of ending) no_command rd lines []
        ≡ done (
            some (record {
              last = last_of ending;
              empty = false;
              left = record { rd = []; orig = orig; dest = dest };
            }))
      → All (Writes write text_of) orig
      → diff_apply write (comode_of ending) rd lines
        ≡ done (cut_off ending (dest ++ out write text_of orig))
  unfolding diff_apply
  rest_copied no_more rd lines orig dest h ok =
      rw (diff_apply, h, copy_rest_lem write text_of orig dest ok) refl
  rest_copied dot rd lines orig dest h ok =
      rw (diff_apply, h, copy_rest_lem write text_of orig dest ok) refl
  rest_copied dot_plus rd lines orig dest h ok =
      rw (diff_apply, h, copy_rest_lem write text_of orig dest ok) refl

  -- If diff_write() does not fail on the lines of the file and on those that the script adds: for a
  -- script in order and within the file, of fewer than 2^63 - 1 lines, sent with the ending of its
  -- mode, diff_apply() writes the lines that the script asks for, each as diff_write() does it, and
  -- after ".+" leaves the last byte off.
  pub diff_apply-edited :
      (ending : Ending) (script : List Edit) (lines : List Bytes)
      → Ordered 0 0 script
      → Fits (length lines) script
      → length lines + 1 < 2 ^ 63
      → All (Writes write text_of) lines
      → WritesAdded write text_of script
      → diff_apply write
          (comode_of ending)
          (encode (comode_of ending) script ++ lines_of ending)
          lines
        ≡ done (cut_off ending (out write text_of (edited script lines)))
  diff_apply-edited ending script lines o fits max ok oks =
      let rd : List Bytes = encode (comode_of ending) script ++ lines_of ending in
      let c =
        carried write text_of script (length rd + 1) (comode_of ending) no_command (lines_of ending)
          lines [] (length lines) o fits max (omega arith) (inl (omega arith)) (omega arith) ok
          oks in
      rest_copied ending rd lines c.orig' c.dest'
        (c.runs ∙ stops ending c.fuel_left c.ec' c.orig' c.dest' c.enough) c.writes'
      ∙ ap (λ d. done (cut_off ending d))
          (c.total ∙ ap (out write text_of) (sym (edited-to_write script lines)))
