-- ===== src/Revision.antt =====
-- misc.c: rcsnum_cmp(), rcsrev_istrunk() and rcsrev_prefix(). A revision number is the list of its bytes.
pub mod Numeric
pub mod Branches
use csup.Prelude.{
  ℕ, zero, suc, ◌+◌, Bytes, Bool, true, false, Option, none, some, ◌||◌, ltb, ◌==◌, if◌then◌else◌,
  [], ◌∷◌, length,
}
use csup.Prelude.Run.{Run, done, abort, out_of_fuel}
use csup.Paths.Rcs.{dot, is_empty}

-- The sign of the value returned. Of strncmp()'s value no more is documented than its sign.
pub data Sign : Type 0 where
  less : Sign
  equal : Sign
  greater : Sign

-- The bytes from `ptr` up to the next dot or the end.
unfoldable pub field : Bytes → Bytes
field [] = []
field (c ∷ s) = let rest = field s in if c == dot then [] else c ∷ rest

-- What `ptr` is set to: behind the dot, or the end.
unfoldable pub behind : Bytes → Bytes
behind [] = []
behind (c ∷ s) = let rest = behind s in if c == dot then s else rest

-- strncmp() over the length of two fields that are equally long.
unfoldable pub strncmp : Bytes → Bytes → Sign
strncmp [] _ = equal
strncmp (c ∷ s) [] = greater
strncmp (c ∷ s) (d ∷ t) =
    let rest = strncmp s t in if ltb c d then less else if ltb d c then greater else rest

-- What is left when the loop ends.
unfoldable pub left_over : Bytes → Bytes → Sign
left_over [] [] = equal
left_over [] (d ∷ t) = less
left_over (c ∷ s) _ = greater

-- One field: the number of digits decides first.
unfoldable pub cmp_field : Bytes → Bytes → Sign
cmp_field a b =
    if ltb (length b) (length a)
    then greater
    else if ltb (length a) (length b)
    then less
    else strncmp a b

-- The loop, on fuel.
unfoldable pub cmp_from : ℕ → Bytes → Bytes → Run Sign
cmp_from zero a b = out_of_fuel
cmp_from (suc f) a b =
    if is_empty a || is_empty b
    then done (left_over a b)
    else elim (cmp_field (field a) (field b)) [
      | less ↦ done less
      | greater ↦ done greater
      | equal ↦ cmp_from f (behind a) (behind b)
    ]

unfoldable pub rcsnum_cmp : Bytes → Bytes → Run Sign
rcsnum_cmp revision1 revision2 = cmp_from (length revision1 + 1) revision1 revision2

-- What follows the first dot: strchr() and one step on.
unfoldable pub after_dot : Bytes → Option Bytes
after_dot [] = none
after_dot (c ∷ s) = let rest = after_dot s in if c == dot then some s else rest

-- Without a dot the pointer that is followed is a null pointer and one.
unfoldable pub rcsrev_istrunk : Bytes → Run Bool
rcsrev_istrunk revnum = elim (after_dot revnum) [
  | none ↦ abort
  | some tmp ↦ elim (after_dot tmp) [ some s ↦ done false | none ↦ done true ]
]

-- The string cut off at its last dot, if it has one.
unfoldable pub rcsrev_prefix : Bytes → Option Bytes
rcsrev_prefix [] = none
rcsrev_prefix (c ∷ s) =
    let rest = rcsrev_prefix s in
    elim rest [ some t ↦ some (c ∷ t) | none ↦ if c == dot then some [] else none ]
