-- ===== src/Keyword/Tags.antt =====
-- keyword.c: tag_expand(), with rcsdatetotm() of misc.c and struct diffinfo of diff.h. strptime()
-- gives the time and what follows it in the text, strftime() the text.
use csup.Prelude.{
  ◌||◌, ℕ, ◌||◌, leb, ◌==◌, if◌then◌else◌, Bytes, [], ◌∷◌, ◌++◌, Option, none, some, length,
}
use csup.Prelude.Run.{Run, done, abort, ◌>>=◌}
use csup.Keyword.{
  Rcskey, author, cvsheader, date, header, id, locker, log, name, rcsfile, revision, source, state,
  ExpandMode,
}

abbrev pub dollar : ℕ
dollar = b'$'

abbrev pub colon : ℕ
colon = b':'

abbrev pub blank : ℕ
blank = b' '

-- struct diffinfo
pub record Diffinfo : Type 0 where
  pub di_rcsfile : Bytes
  pub di_cvsroot : Bytes
  pub di_revnum : Bytes
  pub di_revdate : Bytes
  pub di_author : Bytes
  pub di_tag : Option Bytes
  pub di_state : Bytes
  pub di_expand : ExpandMode

abbrev pub prepend : ℕ → Option (Bytes × Bytes) → Option (Bytes × Bytes)
prepend x none = none
prepend x (some (before, behind)) = some (x ∷ before, behind)

-- memchr() and strchr(): what stands before the byte, and behind it.
unfoldable pub find : ℕ → Bytes → Option (Bytes × Bytes)
find c [] = none
find c (x ∷ s) = if x == c then some ([], s) else prepend x (find c s)

-- "XXXX.XX..." and "XX.XX...": the formats "%Y.%m.%d.%H.%M.%S" and "%y.%m.%d.%H.%M.%S" differ in
-- the year.
abbrev pub date_format : ℕ → Bytes
date_format year =
    b'%' ∷ year ∷ b'.' ∷ b'%' ∷ b'm' ∷ b'.' ∷ b'%' ∷ b'd' ∷ b'.' ∷ b'%' ∷ b'H' ∷ b'.' ∷ b'%' ∷ b'M'
    ∷ b'.' ∷ b'%' ∷ b'S' ∷ []

-- "%Y/%m/%d %H:%M:%S"
abbrev pub cvs_format : Bytes
cvs_format =
    b'%' ∷ b'Y' ∷ b'/' ∷ b'%' ∷ b'm' ∷ b'/' ∷ b'%' ∷ b'd' ∷ blank ∷ b'%' ∷ b'H' ∷ b':' ∷ b'%' ∷ b'M'
    ∷ b':' ∷ b'%' ∷ b'S' ∷ []

-- "%s %s"
infixr 20 ◌⟨␣⟩◌
abbrev pub ◌⟨␣⟩◌ : Bytes → Bytes → Bytes
a ⟨␣⟩ b = a ++ (blank ∷ b)

-- What stands behind the last '/'.
unfoldable pub behind_last_slash : Bytes → Option Bytes
behind_last_slash [] = none
behind_last_slash (c ∷ s) = elim (behind_last_slash s) [
  | some file ↦ some file
  | none ↦ if c == b'/' then some s else none
]

unfoldable pub rcsfile_name : Bytes → Bytes
unfolding behind_last_slash
rcsfile_name file = elim (behind_last_slash file) [ some last ↦ last | none ↦ file ]

-- What the tag stands for, once the date is known; `none` is a null pointer.
unfoldable pub tag_value : Rcskey → Diffinfo → Bytes → Option Bytes
unfolding rcsfile_name
tag_value author di text = some (di.di_author)
tag_value cvsheader di text =
    some (di.di_rcsfile ⟨␣⟩ di.di_revnum ⟨␣⟩ text ⟨␣⟩ di.di_author ⟨␣⟩ di.di_state)
tag_value date di text = some text
tag_value header di text = some (
    (di.di_cvsroot ++ (b'/' ∷ di.di_rcsfile))
    ⟨␣⟩ di.di_revnum
    ⟨␣⟩ text
    ⟨␣⟩ di.di_author
    ⟨␣⟩ di.di_state)
tag_value id di text =
    some (rcsfile_name (di.di_rcsfile) ⟨␣⟩ di.di_revnum ⟨␣⟩ text ⟨␣⟩ di.di_author ⟨␣⟩ di.di_state)
tag_value locker di text = none
tag_value log di text = none
tag_value name di text = di.di_tag
tag_value rcsfile di text = some (rcsfile_name (di.di_rcsfile))
tag_value revision di text = some (di.di_revnum)
tag_value source di text = some (di.di_cvsroot ++ (b'/' ∷ di.di_rcsfile))
tag_value state di text = some (di.di_state)

-- strptime() of a text and a format, and strftime() of a format and a time.
abbrev pub Strptime : Type 0 → Type 0
Strptime Tm = Bytes → Bytes → Option (Tm × Bytes)

abbrev pub Strftime : Type 0 → Type 0
Strftime Tm = Bytes → Tm → Bytes

module _ {Tm : Type 0} (strptime : Strptime Tm) (strftime : Strftime Tm) where
  -- `none` is -1.
  unfoldable pub rcsdatetotm : Bytes → Option Tm
  unfolding find
  rcsdatetotm revdate = elim (find b'.' revdate) [
    | none ↦ none
    | some (year, rest) ↦
        let parsed : Option (Tm × Bytes) =
          if leb 4 (length year)
          then strptime revdate (date_format b'Y')
          else if length year == 2
          then strptime revdate (date_format b'y')
          else none in
        elim parsed [ some (tm, []) ↦ some tm | some (tm, c ∷ s) ↦ none | none ↦ none ]
  ]

  -- `cvsdate`, in a buffer of 32 bytes; err() ends the process.
  unfoldable pub cvsdate : Bytes → Run Bytes
  cvsdate revdate = elim (rcsdatetotm revdate) [
    | none ↦ abort
    | some tm ↦
        let text : Bytes = strftime cvs_format tm in
        if length text == 0 || leb 32 (length text) then abort else done text
  ]

  -- The printf() for a Log keyword is left out.
  unfoldable pub tag_expand : Rcskey → Diffinfo → Run (Option Bytes)
  tag_expand key di = cvsdate (di.di_revdate) >>= λ text. done (tag_value key di text)
