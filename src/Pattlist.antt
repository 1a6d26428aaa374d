-- ===== src/Pattlist.antt =====
-- misc.c: a list of patterns in an array that grows.
pub mod Growth
use csup.Prelude.{
  ℕ, ◌+◌, ◌*◌, ◌%◌, ◌^◌, Bytes, ltb, ◌==◌, if◌then◌else◌, List, [], ◌++◌, Option, none, some,
  get_elem?, set,
}
use csup.Prelude.Run.{Run, done, abort}

-- `struct pattlist`. The array has `size` slots, of which the first `in_at` hold a pattern.
pub record Pattlist : Type 0 where
  pub patterns : List Bytes
  pub in_at : ℕ
  pub size : ℕ

-- `memory` is the array of four slots that xmalloc() returns.
unfoldable pub pattlist_new : List Bytes → Pattlist
pattlist_new memory = record { patterns = memory; in_at = 0; size = 4 }

-- xrealloc() keeps the slots and adds `fresh` ones, as many again.
unfoldable pub pattlist_room : List Bytes → Pattlist → Pattlist
pattlist_room fresh p =
    if p.in_at == p.size
    then record p { patterns = p.patterns ++ fresh; size = (p.size * 2) % 2 ^ 64 }
    else p

unfoldable pub pattlist_add : List Bytes → Pattlist → Bytes → Run Pattlist
unfolding pattlist_room
pattlist_add fresh p pattern =
    let q : Pattlist = pattlist_room fresh p in
    if ltb q.in_at q.size
    then done
        (record q { patterns = set q.patterns q.in_at pattern; in_at = (q.in_at + 1) % 2 ^ 64 })
    else abort

-- A slot beyond the array cannot be read.
unfoldable pub pattlist_get : Pattlist → ℕ → Run Bytes
pattlist_get p i =
    if ltb i p.in_at
    then elim (get_elem? p.patterns i) [ none ↦ abort | some pat ↦ done pat ]
    else abort

unfoldable pub pattlist_size : Pattlist → ℕ
pattlist_size p = p.in_at
