-- ===== src/Paths/Common.antt =====
-- misc.c: commonpathlength() and pathlast().
use csup.Prelude.{ℕ, ◌+◌, Bytes, ◌==◌, if◌then◌else◌, [], ◌∷◌}

abbrev pub slash : ℕ
slash = b'/'

-- The loop at index `i`: `a` and `b` are the parts of the two paths from index `i` up to their
-- lengths, of which the first i bytes agree. The last two cases are a path that is a prefix of the
-- other, and two paths that are equal.
unfoldable pub common_from : Bytes → Bytes → ℕ → ℕ → ℕ
common_from (x ∷ a) (y ∷ b) i lastslash =
    if x == y
    then common_from a b (i + 1) (if x == slash then if i == 0 then 1 else i else lastslash)
    else lastslash
common_from (x ∷ a) [] i lastslash = if x == slash then i else lastslash
common_from [] (y ∷ b) i lastslash = if y == slash then i else lastslash
common_from [] [] i lastslash = i

unfoldable pub commonpathlength : Bytes → Bytes → ℕ
unfolding common_from
commonpathlength a b = common_from a b 0 0

-- strrchr(path, '/') + 1, or the path itself: `last` is what follows the latest slash seen.
unfoldable pub last_from : Bytes → Bytes → Bytes
last_from [] last = last
last_from (c ∷ path) last = last_from path (if c == slash then path else last)

unfoldable pub pathlast : Bytes → Bytes
unfolding last_from
pathlast path = last_from path path
