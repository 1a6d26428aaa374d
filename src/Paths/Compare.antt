-- ===== src/Paths/Compare.antt =====
-- misc.c: pathcmp().
use csup.Prelude.{ℕ, ◌+◌, ◌%◌, Bytes, ◌&&◌, not, ◌==◌, if◌then◌else◌, [], ◌∷◌}
use csup.Prelude.Int.{ℤ, pos, sub_ℕ}

-- `if (c == '/') c = 1;`
abbrev pub slash_first : ℕ → ℕ
slash_first c = if c == b'/' then 1 else c

-- `char` is signed: a byte c stands for c or c - 256. Adding 128 gives the place of the byte in the
-- order of `char`, and leaves the difference of two bytes as it is.
abbrev pub place : ℕ → ℕ
place c = (c + 128) % 256

-- `c1 - c2`, on the promoted values.
abbrev pub char_difference : ℕ → ℕ → ℤ
char_difference c1 c2 = sub_ℕ (place c1) (place c2)

-- The end of a list is the NUL that ends the string.
unfoldable pub pathcmp : Bytes → Bytes → ℤ
pathcmp [] [] = pos 0
pathcmp [] (d ∷ t) = char_difference 0 (slash_first d)
pathcmp (c ∷ s) [] = char_difference (slash_first c) 0
pathcmp (c ∷ s) (d ∷ t) =
    if slash_first c == slash_first d && not (slash_first c == 0)
    then pathcmp s t
    else char_difference (slash_first c) (slash_first d)
