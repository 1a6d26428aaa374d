-- ===== src/Fixups.antt =====
-- fixups.c: the queue of fixup requests from the updater thread to the detailer thread. A
-- `struct fixup` is an element of `A`. Each function holds the lock from its first test to its last
-- write and is one step; the signal that may follow is another.
pub mod Steps
pub mod Delivered
use csup.Prelude.{ℕ, ◌+◌, ◌-◌, ◌%◌, ◌^◌, Bool, true, false, ◌&&◌, not, ◌==◌, if◌then◌else◌}
use csup.Prelude.{List, [], ◌∷◌, ◌++◌, Option, none, some}
use csup.Prelude.Run.{Run, done, abort}

-- `struct fixups`, less its lock and condition.
pub record Fixups (A : Type 0) : Type 0 where
  pub fixupq : List A
  pub cur : Option A
  pub size : ℕ
  pub is_closed : Bool

-- What one pass of fixups_get() comes to: a wait, the end of the queue, or a fixup with the one
-- before it, which is freed.
pub data Getting (A : Type 0) : Type 0 where
  get_waits : Getting A
  get_ended : Getting A
  got_fixup : A → Option A → Fixups A → Getting A

module _ {A : Type 0} where
  unfoldable pub fixups_new : Fixups A
  fixups_new = record { fixupq = []; cur = none; size = 0; is_closed = false }

  -- The queue, and whether the condition is to be signalled.
  unfoldable pub fixups_put : Fixups A → A → Run (Fixups A × Bool)
  fixups_put f fixup =
      if f.is_closed
      then abort
      else done (
        record f { fixupq = f.fixupq ++ (fixup ∷ []); size = (f.size + 1) % 2 ^ 64 },
        f.size == 0,
      )

  -- The size says that there is a fixup; an empty queue then has no first element.
  unfoldable pub fixups_get : Fixups A → Run (Getting A)
  fixups_get f =
      if f.size == 0 && not f.is_closed
      then done get_waits
      else if f.is_closed && f.size == 0
      then done get_ended
      else elim f.fixupq [
        | [] ↦ abort
        | fixup ∷ rest ↦ done (
            got_fixup fixup f.cur (record f { fixupq = rest; cur = some fixup; size = f.size - 1 }))
      ]

  unfoldable pub fixups_close : Fixups A → Fixups A × Bool
  fixups_close f = (record f { is_closed = true }, f.size == 0 && not f.is_closed)

  -- What fixups_free() frees: the queue that is left, and the current fixup.
  unfoldable pub fixups_free : Fixups A → Run (List A × Option A)
  fixups_free f = if f.is_closed then done (f.fixupq, f.cur) else abort
