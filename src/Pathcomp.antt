-- ===== src/Pathcomp.antt =====
-- pathcomp.c: the directories to leave and to enter between one path and the next. A path is the
-- list of its bytes; `trashed` is the index of the slash that holds a NUL for now.
pub mod Slashes
pub mod Down
pub mod Steps
pub mod Walk
pub mod InSync
use csup.Prelude.{
  ℕ, zero, suc, ◌+◌, ◌-◌, Bool, true, false, ltb, leb, ◌==◌, ◌||◌, if◌then◌else◌, Bytes, List, [],
  ◌∷◌, length, take, drop, get_or, Option, none, some,
}
use csup.Prelude.Run.{Run, done, abort, out_of_fuel, ◌>>=◌}
use csup.Paths.Common.{slash, commonpathlength}

-- PC_DIRDOWN, PC_FILE, PC_DIRUP
pub data PcType : Type 0 where
  dirdown : PcType
  file : PcType
  dirup : PcType

pub record Pathcomp : Type 0 where
  pub target : Option Bytes
  pub targetlen : ℕ
  pub trashed : Option ℕ
  pub prev : Option Bytes
  pub prevlen : ℕ
  pub goal : ℕ
  pub curlen : ℕ

-- The memory for `goal` is not set.
unfoldable pub pathcomp_new : ℕ → Pathcomp
pathcomp_new memory = record {
  target = none;
  targetlen = 0;
  trashed = none;
  prev = none;
  prevlen = 0;
  goal = memory;
  curlen = 0;
}

-- strrchr(path, '/'), as an index.
abbrev pub last_slash : Bytes → Option ℕ
last_slash [] = none
last_slash (c ∷ s) = elim (last_slash s) [
  | some i ↦ some (suc i)
  | none ↦ if c == slash then some 0 else none
]

-- The length of the directory that a path is in.
abbrev pub dir_length : Bytes → ℕ
dir_length path = elim (last_slash path) [ none ↦ 0 | some i ↦ i ]

abbrev pub target_length : PcType → Bytes → ℕ
target_length dirdown path = length path
target_length file path = dir_length path
target_length dirup path = dir_length path

abbrev pub is_absolute : Bytes → Bool
is_absolute [] = false
is_absolute (c ∷ s) = c == slash

abbrev pub common_goal : Option Bytes → ℕ → Bytes → ℕ → ℕ
common_goal none prevlen path len = 0
common_goal (some p) prevlen path len = commonpathlength (take prevlen p) (take len path)

-- False if the path is refused.
unfoldable pub pathcomp_put : Pathcomp → PcType → Bytes → Run (Bool × Pathcomp)
pathcomp_put pc type path = elim pc.target [
  | some t ↦ abort
  | none ↦
      let len : ℕ = target_length type path in
      let goal : ℕ = common_goal pc.prev pc.prevlen path len in
      if is_absolute path
      then done (false, pc)
      else done (
        true,
        record pc {
          target = some path;
          targetlen = len;
          goal = if pc.curlen == goal then len else goal;
        },
      )
]

-- What pathcomp_get() returns: the type and the name, or nothing more.
abbrev pub Event : Type 0
Event = PcType × Bytes

abbrev pub Get : Type 0
Get = Run (Option Event × Pathcomp)

-- Going up. Writing the NUL cuts `prev`, and what is behind it is not read again.
unfoldable pub get_up : Pathcomp → Get
get_up pc = elim pc.prev [
  | none ↦ abort
  | some p ↦
      let name : Bytes = take pc.curlen p in
      let slashpos : ℕ = dir_length name in
      let up : Pathcomp = record pc { prev = some name; curlen = slashpos } in
      if leb slashpos pc.goal
      then if slashpos == pc.goal
        then done (some (dirup, name), record up { goal = pc.targetlen })
        else abort
      else done (some (dirup, name), up)
]

-- The loop that looks for the slash from `start` on.
abbrev pub first_slash : Bytes → ℕ
first_slash [] = 0
first_slash (c ∷ s) = if c == slash then 0 else suc (first_slash s)

-- The byte behind the slash that ends the directory.
abbrev pub start_of : ℕ → ℕ
start_of zero = 0
start_of (suc k) = suc k + 1

-- Going down.
unfoldable pub get_down : Pathcomp → Get
get_down pc = elim pc.target [
  | none ↦ abort
  | some t ↦
      let start : ℕ = start_of pc.curlen in
      let slashpos : ℕ = start + first_slash (take (pc.goal - start) (drop start t)) in
      let name : Bytes = take slashpos t in
      let c : ℕ = get_or t slashpos 0 in
      if c == 0
      then done (some (dirdown, name), record pc { trashed = none; curlen = slashpos })
      else if c == slash
      then done (some (dirdown, name), record pc { trashed = some slashpos; curlen = slashpos })
      else abort
]

unfoldable pub get_done : Pathcomp → Get
get_done pc = elim pc.target [
  | none ↦ done (none, pc)
  | some t ↦ done (
    none,
    record pc {
      trashed = none;
      prev = some (take pc.targetlen t);
      prevlen = pc.targetlen;
      target = none;
      targetlen = 0;
    },
  )
]

unfoldable pub pathcomp_get : Pathcomp → Get
unfolding get_up get_down get_done
pathcomp_get pc =
    if ltb pc.goal pc.curlen
    then get_up pc
    else if ltb pc.curlen pc.goal
    then get_down pc
    else get_done pc

unfoldable pub pathcomp_finish : Pathcomp → Pathcomp
pathcomp_finish pc = record pc { target = none; targetlen = 0; goal = 0 }

-- The callers' loop while pathcomp_get() returns 1, on fuel.
unfoldable pub get_all : ℕ → Pathcomp → Run (List Event × Pathcomp)
get_all zero pc = out_of_fuel
get_all (suc f) pc = pathcomp_get pc >>= λ (event, next). elim event [
  | none ↦ done ([], next)
  | some e ↦ get_all f next >>= λ (events, last). done (e ∷ events, last)
]
