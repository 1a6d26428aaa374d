-- ===== src/Diff.antt =====
-- diff.c: diff_apply() and the functions it calls. The streams are the lines that stream_getln() has
-- yet to give, each with its newline, and what is written. `write` gives the bytes that diff_write()
-- writes for a line; it is modelled in Keyword/Expand. Writing into the stream succeeds.
pub mod Script
pub mod Cursor
pub mod Commands
pub mod Applied
pub mod Carried
pub mod Edited
use csup.Prelude.{
  ℕ, zero, suc, ◌+◌, ◌-◌, ◌^◌, Bool, true, false, ◌&&◌, ◌||◌, not, ltb, leb, ◌==◌, if◌then◌else◌,
  Bytes, List, [], ◌∷◌, ◌++◌, Option, none, some, length,
}
use csup.Prelude.Run.{Run, done, abort, out_of_fuel, ◌>>=◌}
use csup.Prelude.Int.{ℤ, pos, negsuc}
use csup.Numbers.{strtoll}
use csup.Fattr.{same_bytes}

-- EC_ADD and EC_DEL
pub data Cmd : Type 0 where
  ec_add ec_del : Cmd

-- The editing command and the state of struct editcmd that diff_apply() uses, `at` for `where`.
pub record Editcmd : Type 0 where
  pub cmd : Cmd
  pub at : ℕ
  pub count : ℕ
  pub lasta : ℕ
  pub lastd : ℕ
  pub editline : ℕ

-- memset() to zero.
abbrev pub no_command : Editcmd
no_command = record { cmd = ec_add; at = 0; count = 0; lasta = 0; lastd = 0; editline = 0 }

-- A sum in a long; beyond LONG_MAX it is not defined.
abbrev pub add_long : ℕ → ℕ → Run ℕ
add_long a b = if ltb (a + b) (2 ^ 63) then done (a + b) else abort

-- The string that a line is once its newline is a NUL.
unfoldable pub string_of : Bytes → Bytes
string_of [] = []
string_of (c ∷ line) = if c == 0 || c == 10 then [] else c ∷ string_of line

-- A number of at least 0 and what follows it; `none` is an error.
abbrev pub read_long : Bytes → Option (ℕ × Bytes)
read_long line = elim (strtoll 10 line) [
  | some (pos n, end) ↦ some (n, end)
  | some (negsuc n, end) ↦ none
  | none ↦ none
]

-- The tests against `lasta` and `lastd`, and their new values.
unfoldable pub check_order : Editcmd → Run (Option Editcmd)
check_order ec = elim (ec.cmd) [
  | ec_add ↦
      if ltb ec.at ec.lasta
      then done none
      else add_long ec.at 1 >>= λ lasta. done (some (record ec { lasta = lasta }))
  | ec_del ↦
      if ltb ec.at ec.lasta || ltb ec.at ec.lastd
      then done none
      else add_long ec.at ec.count >>= λ lastd.
          done (some (record ec { lasta = ec.at; lastd = lastd }))
]

-- What stands behind the letter of a command: two numbers.
unfoldable pub read_command : Cmd → Editcmd → Bytes → Run (Option Editcmd)
unfolding check_order
read_command cmd ec line = elim (read_long line) [
  | none ↦ done none
  | some (at, []) ↦ done none
  | some (at, c ∷ rest) ↦ if not (c == b' ') then done none else elim (read_long rest) [
    | none ↦ done none
    | some (count, d ∷ more) ↦ done none
    | some (count, []) ↦
        if count == 0
        then done none
        else check_order (record ec { cmd = cmd; at = at; count = count })
  ]
]

-- `none` is -1.
unfoldable pub diff_geteditcmd : Editcmd → Bytes → Run (Option Editcmd)
unfolding read_command
diff_geteditcmd ec [] = done none
diff_geteditcmd ec (c ∷ line) =
    if c == b'a'
    then read_command ec_add ec line
    else if c == b'd'
    then read_command ec_del ec line
    else done none

-- The lines that are left of the edits and of the original, and what was written.
pub record Streams : Type 0 where
  pub rd : List Bytes
  pub orig : List Bytes
  pub dest : Bytes

-- `line[0] == '.'` is skipped.
abbrev pub unstuff : Bytes → Bytes
unstuff [] = []
unstuff (c ∷ line) = if c == b'.' then line else c ∷ line

abbrev pub dot_line : Bytes
dot_line = b'.' ∷ []

abbrev pub dot_plus_line : Bytes
dot_plus_line = b'.' ∷ b'+' ∷ []

-- The loop's end: the last line, `none` a null pointer, and whether an empty line was seen.
pub record Ended : Type 0 where
  pub last : Option Bytes
  pub empty : Bool
  pub left : Streams

-- The lines that an EC_DEL command skips.
unfoldable pub skip_lines : ℕ → Streams → Option Streams
skip_lines zero s = some s
skip_lines (suc n) s = elim (s.orig) [
  | [] ↦ none
  | line ∷ orig ↦ skip_lines n (record s { orig = orig })
]

-- `editline` is increased for each.
abbrev pub behind_lines : Editcmd → Option Streams → Option (Editcmd × Streams)
behind_lines ec none = none
behind_lines ec (some s) = some (record ec { editline = ec.editline + ec.count }, s)

-- stream_truncate_rel() by one byte, which fails on an empty file.
abbrev pub drop_last : Bytes → Option Bytes
drop_last [] = none
drop_last (c ∷ []) = some []
drop_last (c ∷ d ∷ s) = elim (drop_last (d ∷ s)) [ none ↦ none | some r ↦ some (c ∷ r) ]

-- ".+" stands for no ending newline.
abbrev pub noeol : Bool → Option Bytes → Bool → Bool
noeol comode none empty = false
noeol comode (some text) empty = comode && (same_bytes text dot_plus_line && not empty)

abbrev pub is_null : Option Bytes → Bool
is_null none = true
is_null (some text) = false

module _ (write : Bytes → Run Bytes) where
  -- diff_copyln() for a number of lines: `to - editline` of them. `none` is -1.
  unfoldable pub copy_lines : ℕ → Streams → Run (Option Streams)
  copy_lines zero s = done (some s)
  copy_lines (suc n) s = elim (s.orig) [
    | [] ↦ done none
    | line ∷ orig ↦
        write line >>= λ text. copy_lines n (record s { orig = orig; dest = s.dest ++ text })
  ]

  -- With `editline` afterwards.
  unfoldable pub diff_copyln : Editcmd → ℕ → Streams → Run (Option (Editcmd × Streams))
  unfolding copy_lines
  diff_copyln ec to s = copy_lines (to - ec.editline) s >>= λ copied. elim copied [
    | none ↦ done none
    | some s' ↦ done (some (record ec { editline = ec.editline + (to - ec.editline) }, s'))
  ]

  -- The lines that an EC_ADD command adds.
  unfoldable pub add_lines : Bool → ℕ → Streams → Run (Option Streams)
  add_lines comode zero s = done (some s)
  add_lines comode (suc n) s = elim (s.rd) [
    | [] ↦ done none
    | line ∷ rd ↦ write (if comode then unstuff line else line) >>= λ text.
        add_lines comode n (record s { rd = rd; dest = s.dest ++ text })
  ]

  -- One command; there is no line before line `at - 1` to copy if `at` is 0.
  unfoldable pub run_command : Bool → Editcmd → Streams → Run (Option (Editcmd × Streams))
  unfolding diff_copyln add_lines skip_lines
  run_command comode ec s = elim (ec.cmd) [
    | ec_add ↦ diff_copyln ec ec.at s >>= λ copied. elim copied [
      | none ↦ done none
      | some (ec', s') ↦ add_lines comode ec.count s' >>= λ added. elim added [
        | none ↦ done none
        | some s'' ↦ done (some (ec', s''))
      ]
    ]
    | ec_del ↦ diff_copyln ec (ec.at - 1) s >>= λ copied. elim copied [
      | none ↦ done none
      | some (ec', s') ↦ done (behind_lines ec' (skip_lines ec.count s'))
    ]
  ]

  -- The loop of diff_apply() over the commands, on fuel: each round reads a line. `none` is -1.
  unfoldable pub apply_loop : ℕ → Bool → Bool → Editcmd → Streams → Run (Option Ended)
  unfolding run_command
  apply_loop zero comode empty ec s = out_of_fuel
  apply_loop (suc fuel) comode empty ec s = elim (s.rd) [
    | [] ↦ done (some (record { last = none; empty = empty; left = s }))
    | line ∷ rd ↦
        let text : Bytes = string_of line in
        let read : Streams = record s { rd = rd } in
        let behind_empty = apply_loop fuel comode true ec read in
        let ended : Ended = record { last = some text; empty = empty; left = read } in
        if same_bytes text dot_line || same_bytes text dot_plus_line
        then done (some ended)
        else if same_bytes text []
        then if empty then done none else behind_empty
        else (diff_geteditcmd ec text >>= λ command. elim command [
          | none ↦ done none
          | some ec' ↦ run_command comode ec' read >>= λ ran. elim ran [
            | none ↦ done none
            | some (ec'', s') ↦ apply_loop fuel comode empty ec'' s'
          ]
        ])
  ]

  -- The rest of the original.
  unfoldable pub copy_rest : List Bytes → Bytes → Run Bytes
  copy_rest [] dest = done dest
  copy_rest (line ∷ orig) dest = write line >>= λ text. copy_rest orig (dest ++ text)

  -- What is written; `none` is -1.
  unfoldable pub diff_apply : Bool → List Bytes → List Bytes → Run (Option Bytes)
  unfolding apply_loop copy_rest
  diff_apply comode rd orig =
      let s : Streams = record { rd = rd; orig = orig; dest = [] } in
      apply_loop (length rd + 1) comode false no_command s >>= λ looped. elim looped [
        | none ↦ done none
        | some ended ↦
            if comode && is_null ended.last
            then done none
            else copy_rest ended.left.orig ended.left.dest >>= λ dest.
                done (if noeol comode ended.last ended.empty then drop_last dest else some dest)
      ]
