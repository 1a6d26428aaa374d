-- ===== src/Paths/Rcs.antt =====
-- misc.c: isrcs(), checkoutpath() and cvspath().
use csup.Prelude.{
  ℕ, ◌-◌, Bytes, Bool, true, false, ◌&&◌, ◌||◌, not, ◌==◌, ltb, if◌then◌else◌, [], ◌∷◌, ◌++◌,
  Option, none, some, length, take, get_or,
}
use csup.Paths.Common.{slash, pathlast}

abbrev pub dot : ℕ
dot = b'.'

-- `file[0] == '/'`
unfoldable pub starts_with_slash : Bytes → Bool
starts_with_slash [] = false
starts_with_slash (c ∷ s) = c == slash

-- `cp[2] == '\0'`
abbrev pub is_empty : Bytes → Bool
is_empty [] = true
is_empty (c ∷ s) = false

-- `cp == file` is a previous byte of `none`; `cp[-1]` is the previous byte.
abbrev pub after_slash : Option ℕ → Bool
after_slash none = false
after_slash (some c) = c == slash

abbrev pub at_start : Option ℕ → Bool
at_start none = true
at_start (some c) = false

-- The strstr(cp, "..") loop: whether some occurrence of ".." makes the name unacceptable. After an
-- occurrence that is accepted the search goes on behind it.
unfoldable pub bad_dots : Option ℕ → Bytes → Bool
bad_dots prev [] = false
bad_dots prev (c ∷ []) = false
bad_dots prev (c ∷ d ∷ rest) =
    let behind = bad_dots (some d) rest in
    let onward = bad_dots (some c) (d ∷ rest) in
    if c == dot && d == dot
    then if at_start prev || is_empty rest || (after_slash prev && starts_with_slash rest)
      then true
      else behind
    else onward

-- Whether the file is an RCS file, and the length of its name.
unfoldable pub isrcs : Bytes → Option ℕ
isrcs file =
    if starts_with_slash file
    then none
    else if bad_dots none file
    then none
    else if ltb (length file) 2
    then none
    else if not (get_or file (length file - 1) 0 == b'v')
    then none
    else if not (get_or file (length file - 2) 0 == b',')
    then none
    else some (length file)

-- "%s/%.*s"
unfoldable pub checkoutpath : Bytes → Bytes → Option Bytes
checkoutpath prefix file = elim (isrcs file) [
  | none ↦ none
  | some len ↦ some (prefix ++ (slash ∷ take (len - 2) file))
]

-- "Attic/"
abbrev pub attic_dir : Bytes
attic_dir = b'A' ∷ b't' ∷ b't' ∷ b'i' ∷ b'c' ∷ slash ∷ []

-- "%s/%.*sAttic/%s" or "%s/%s"; `last - file` is the length of what stands before `last`.
unfoldable pub cvspath : Bytes → Bytes → Bool → Bytes
cvspath prefix file attic =
    if attic
    then prefix
      ++ (slash
          ∷ (take (length file - length (pathlast file)) file ++ (attic_dir ++ pathlast file)))
    else prefix ++ (slash ∷ file)

-- access() tells whether the regular path is there.
unfoldable pub atticpath : (Bytes → Bool) → Bytes → Bytes → Bytes
atticpath exists prefix file =
    if exists (cvspath prefix file false)
    then cvspath prefix file false
    else cvspath prefix file true
