-- ===== src/Fixups/Steps.antt =====
-- fixups.c: the updater thread puts and closes, the detailer thread gets; their steps interleave
-- freely. pthread_cond_signal() comes after the lock is released, and wakes up a thread that waits
-- at that time.
use csup.Prelude.{◌+◌, ◌<◌, ◌^◌, ◌≡◌, Bool, true, false, List, [], ◌∷◌, ◌++◌, Option}
use csup.Prelude.Run.{done}
use csup.Fixups.{
  Fixups, get_waits, get_ended, got_fixup, fixups_new, fixups_put, fixups_get, fixups_close,
}

-- Where the detailer is: about to make a pass of fixups_get(), in pthread_cond_wait(), or past the
-- end of the queue.
pub data Detailer : Type 0 where
  runs : Detailer
  waits : Detailer
  ended : Detailer

pub record Threads (A : Type 0) : Type 0 where
  pub fixups : Fixups A
  -- The updater has released the lock and is about to signal.
  pub signalling : Bool
  pub detailer : Detailer
  -- What fixups_put() was given, what fixups_get() has returned, and what was freed.
  pub put : List A
  pub got : List A
  pub freed : List (Option A)

abbrev pub started : {A : Type 0} → Threads A
started = record {
  fixups = fixups_new;
  signalling = false;
  detailer = runs;
  put = [];
  got = [];
  freed = [];
}

-- What a signal or a spurious wakeup does to the detailer.
abbrev pub woken : Detailer → Detailer
woken waits = runs
woken d = d

pub data ThreadStep {A : Type 0} (t : Threads A) : Threads A → Type 0 where
  -- No more fixups are queued than memory holds.
  puts :
      (x : A) (f : Fixups A) (dosignal : Bool)
      → t.signalling ≡ false
      → t.fixups.size + 1 < 2 ^ 64
      → fixups_put t.fixups x ≡ done (f, dosignal)
      → ThreadStep t (record t { fixups = f; signalling = dosignal; put = t.put ++ (x ∷ []) })
  closes :
      t.signalling ≡ false
      → ThreadStep t
          (record t { fixups = (fixups_close t.fixups).0; signalling = (fixups_close t.fixups).1 })
  signals :
      t.signalling ≡ true
      → ThreadStep t (record t { signalling = false; detailer = woken t.detailer })
  gets :
      (x : A) (last : Option A) (f : Fixups A)
      → t.detailer ≡ runs
      → fixups_get t.fixups ≡ done (got_fixup x last f)
      → ThreadStep t
          (record t { fixups = f; got = t.got ++ (x ∷ []); freed = t.freed ++ (last ∷ []) })
  goes_to_wait :
      t.detailer ≡ runs
      → fixups_get t.fixups ≡ done get_waits
      → ThreadStep t (record t { detailer = waits })
  sees_end :
      t.detailer ≡ runs
      → fixups_get t.fixups ≡ done get_ended
      → ThreadStep t (record t { detailer = ended })
  wakes_spuriously : ThreadStep t (record t { detailer = woken t.detailer })

pub data ThreadReach {A : Type 0} : Threads A → Type 0 where
  at_start : ThreadReach started
  then_step : {t u : Threads A} → ThreadReach t → ThreadStep t u → ThreadReach u
