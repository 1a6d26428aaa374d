-- ===== src/Status/Removed.antt =====
-- status.c: status_delete() from its first entry on, and then status_close().
use csup.Status.Entries.{Entry}
use csup.Prelude.{Bytes, List, [], ◌∷◌}
use csup.Status.{World, Status}
use csup.Status.Canonical.{IsCanonical}

module _ {R : Type 0} (w : World R) (key : Bytes) where
  abbrev pub FirstIsCanonical : List Entry → Type 0
  FirstIsCanonical [] = Unit
  FirstIsCanonical (d ∷ ds) = IsCanonical w d
