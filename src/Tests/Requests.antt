-- ===== src/Tests/Requests.antt =====
-- fixups.c: a short run of the updater and the detailer.
use csup.Prelude.{ℕ, ◌≡◌, ◌++◌, refl, arith, true, false, [], ◌∷◌, some, none, map}
use csup.Prelude.Run.{done}
use csup.Fixups.{Fixups, Getting, fixups_new, fixups_put, fixups_get}
use csup.Fixups.Steps.{
  runs, waits, ended, Threads, ThreadReach, at_start, then_step, puts, gets, goes_to_wait, signals,
}
use csup.Fixups.Delivered.{fixups_delivered}

-- The detailer waits, the updater puts 7 and signals, and the detailer gets it.
abbrev one_queued : Fixups ℕ
one_queued = record { fixupq = 7 ∷ []; cur = none; size = 1; is_closed = false }

abbrev one_taken : Fixups ℕ
one_taken = record { fixupq = []; cur = some 7; size = 0; is_closed = false }

abbrev delivered : Threads ℕ
delivered = record {
  fixups = one_taken;
  signalling = false;
  detailer = runs;
  put = 7 ∷ [];
  got = 7 ∷ [];
  freed = none ∷ [];
}

delivered-ThreadReach : ThreadReach delivered
unfolding fixups_new fixups_put fixups_get
delivered-ThreadReach =
    then_step
      (then_step
        (then_step (then_step at_start (goes_to_wait refl refl))
          (puts 7 one_queued true refl (omega arith) refl))
        (signals refl))
      (gets 7 none one_taken refl refl)

fixups_delivered_example :
    (delivered.put ≡ delivered.got ++ delivered.fixups.fixupq)
    × (delivered.freed ++ (delivered.fixups.cur ∷ []) ≡ none ∷ map some delivered.got)
    × ((g : Getting ℕ) × (fixups_get delivered.fixups ≡ done g))
    × (delivered.detailer ≡ waits
        → delivered.signalling ≡ false
        → (delivered.fixups.fixupq ≡ []) × (delivered.fixups.is_closed ≡ false))
    × (delivered.detailer ≡ ended
        → (delivered.fixups.is_closed ≡ true) × (delivered.put ≡ delivered.got))
fixups_delivered_example = fixups_delivered delivered delivered-ThreadReach
