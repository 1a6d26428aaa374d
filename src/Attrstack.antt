-- ===== src/Attrstack.antt =====
-- attrstack.c: a stack of file attributes in an array that grows. A `struct fattr *` is an element
-- of `A`.
pub mod Growth
use csup.Prelude.{
  ℕ, ◌+◌, ◌-◌, ◌*◌, ◌%◌, ◌^◌, leb, ◌==◌, if◌then◌else◌, List, ◌++◌, none, some, get_elem?, set,
}
use csup.Prelude.Run.{Run, done, abort}

-- ATTRSTACK_DEFSIZE
abbrev pub attrstack_defsize : ℕ
attrstack_defsize = 16

-- `struct attrstack`. The array has `size` slots, of which the first `cur` are in use.
pub record Attrstack (A : Type 0) : Type 0 where
  pub stack : List A
  pub cur : ℕ
  pub size : ℕ

module _ {A : Type 0} where
  -- `memory` is the array that xmalloc() returns.
  unfoldable pub attrstack_new : List A → Attrstack A
  attrstack_new memory = record { stack = memory; cur = 0; size = attrstack_defsize }

  -- A slot beyond the array cannot be read.
  unfoldable pub attrstack_pop : Attrstack A → Run (A × Attrstack A)
  attrstack_pop s = if s.cur == 0 then abort else elim (get_elem? s.stack (s.cur - 1)) [
    | none ↦ abort
    | some fa ↦ done (fa, record s { cur = s.cur - 1 })
  ]

  -- xrealloc() keeps the slots and adds `fresh` ones, s many again.
  unfoldable pub attrstack_room : List A → Attrstack A → Attrstack A
  attrstack_room fresh s =
      if leb s.size s.cur
      then record s { stack = s.stack ++ fresh; size = (s.size * 2) % 2 ^ 64 }
      else s

  unfoldable pub attrstack_push : List A → Attrstack A → A → Attrstack A
  unfolding attrstack_room
  attrstack_push fresh s fa =
      let bs : Attrstack A = attrstack_room fresh s in
      record bs { stack = set bs.stack bs.cur fa; cur = (bs.cur + 1) % 2 ^ 64 }

  unfoldable pub attrstack_size : Attrstack A → ℕ
  attrstack_size s = s.cur
