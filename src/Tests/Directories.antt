-- ===== src/Tests/Directories.antt =====
-- The walk between two paths.
use csup.Prelude.{suc, ◌+◌, ◌≡◌, refl, true, Bytes, List, [], ◌∷◌, length, none, some}
use csup.Prelude.Run.{done}
use csup.Pathcomp.{Pathcomp, dirdown, dirup, file, Event, pathcomp_put, pathcomp_get, get_all}
use csup.Pathcomp.Steps.{Walk, resting, climbing}
use csup.Pathcomp.Walk.{IsResting, rested, target_dir, pathcomp_walks}

-- `a/b`
abbrev old_dir : Bytes
old_dir = b'a' ∷ b'/' ∷ b'b' ∷ []

-- `a/c`
abbrev new_dir : Bytes
new_dir = b'a' ∷ b'/' ∷ b'c' ∷ []

-- `a/c/f`
abbrev new_file : Bytes
new_file = b'a' ∷ b'/' ∷ b'c' ∷ b'/' ∷ b'f' ∷ []

-- Up from one, down to the other.
walk_to_file :
    get_all 3 (climbing (some new_file) 3 none old_dir 3 1 3)
    ≡ done ((dirup, old_dir) ∷ (dirdown, new_dir) ∷ [], resting new_dir 3 3)
unfolding get_all pathcomp_get
walk_to_file = refl

pathcomp_walks_example :
    (mid last : Pathcomp) × (events : List Event) × (pathcomp_put
        (resting old_dir 3 3)
        file
        new_file
      ≡ done (true, mid))
    × (get_all (suc (length old_dir + length new_file)) mid ≡ done (events, last))
    × Walk old_dir events (target_dir file new_file)
    × IsResting last (target_dir file new_file)
pathcomp_walks_example =
    pathcomp_walks file new_file refl (resting old_dir 3 3) old_dir (rested old_dir 3 refl refl)
