-- ===== src/Mux/State.antt =====
-- mux.c: the multiplexer and its table of channels.
use csup.Prelude.{
  ℕ, zero, suc, ◌+◌, Bool, true, false, leb, if◌then◌else◌, List, [], ◌∷◌, Option, none, some,
  get_elem?, set,
}
use csup.Prelude.Run.{Run, done, abort, out_of_fuel}
use csup.Mux.Channel.{unused, listening, Chan, chan_shutdown, Broadcast, no_broadcast}

-- MUX_MAXCHAN
abbrev pub mux_maxchan : ℕ
mux_maxchan = 2

-- Exit codes of misc.h; -1 while the multiplexer runs is no status.
pub data Status : Type 0 where
  status_success : Status
  status_failure : Status
  status_transient_failure : Status
  status_interrupted : Status

-- `struct mux`, less its locks, conditions, threads and socket. The table has MUX_MAXCHAN slots.
pub record Mux : Type 0 where
  pub is_closed : Bool
  pub status : Option Status
  pub channels : List (Option Chan)
  pub nchans : ℕ
  pub sender_lastid : ℕ

unfoldable pub mux_new : Mux
mux_new = record {
  is_closed = false;
  status = none;
  channels = none ∷ none ∷ [];
  nchans = 0;
  sender_lastid = 0;
}

-- The pointer in a slot; an index outside of the table is not a slot.
abbrev pub slot : Mux → ℕ → Option Chan
slot m id = elim (get_elem? m.channels id) [ none ↦ none | some c ↦ c ]

abbrev pub set_chan : Mux → ℕ → Chan → Mux
set_chan m id chan = record m { channels = set m.channels id (some chan) }

-- Get a channel from its ID, creating it if necessary.
unfoldable pub chan_get : Chan → Mux → ℕ → Run (Chan × Mux)
chan_get fresh m id = if leb mux_maxchan id then abort else elim (slot m id) [
  | some chan ↦ done (chan, m)
  | none ↦ done (fresh, record (set_chan m id fresh) { nchans = m.nchans + 1 })
]

-- The index of the first empty slot from index `i` on.
unfoldable pub empty_slot : List (Option Chan) → ℕ → Option ℕ
empty_slot [] i = none
empty_slot (none ∷ slots) i = some i
empty_slot (some c ∷ slots) i = empty_slot slots (i + 1)

-- Insert the new channel in the channel list. With no room the error is returned while the
-- multiplexer's lock is held, which `true` tells.
unfoldable pub chan_insert : Mux → Chan → Option ℕ × Bool × Mux
chan_insert m chan = elim (empty_slot m.channels 0) [
  | some i ↦ (some i, false, record (set_chan m i chan) { nchans = m.nchans + 1 })
  | none ↦ (none, true, m)
]

-- The first channel below `nchans` that is unused. A null pointer there is dereferenced.
unfoldable pub unused_slot : List (Option Chan) → ℕ → ℕ → Run (Option (ℕ × Chan))
unused_slot slots i zero = done none
unused_slot [] i (suc n) = abort
unused_slot (none ∷ slots) i (suc n) = abort
unused_slot (some c ∷ slots) i (suc n) = elim c.state [
  | unused ↦ done (some (i, c))
  | _ ↦ unused_slot slots (i + 1) n
]

-- Returns the ID of an available channel in the listening state.
unfoldable pub chan_listen : Chan → Mux → Run (Option ℕ × Bool × Mux)
chan_listen fresh m = elim (unused_slot m.channels 0 m.nchans) [
  | abort ↦ abort
  | out_of_fuel ↦ out_of_fuel
  | done (some (i, c)) ↦ done (some i, false, set_chan m i (record c { state = listening }))
  | done none ↦ done (chan_insert m (record fresh { state = listening }))
]

-- What mux_shutdown() comes to: nothing to do, the multiplexer with all its channels closed and what
-- was broadcast on each slot, or a wait for a channel's lock that the calling thread itself holds.
pub data Shutdown : Type 0 where
  was_closed : Shutdown
  shut_down : Mux → List Broadcast → Shutdown
  deadlock : Shutdown

abbrev pub shutdown_slots : List (Option Chan) → List (Option Chan) × List Broadcast
shutdown_slots [] = ([], [])
shutdown_slots (none ∷ slots) =
    let rest = shutdown_slots slots in (none ∷ rest.0, no_broadcast ∷ rest.1)
shutdown_slots (some c ∷ slots) =
    let rest = shutdown_slots slots in
    let closed = chan_shutdown c in (some closed.0 ∷ rest.0, closed.1 ∷ rest.1)

-- `held` is the channel whose lock the caller holds, if it holds one.
unfoldable pub mux_shutdown : Option ℕ → Mux → Status → Shutdown
mux_shutdown held m status =
    if m.is_closed
    then was_closed
    else let closed_mux : Mux = record m {
      is_closed = true;
      status = some status;
      channels = (shutdown_slots m.channels).0;
    } in
      let woken : List Broadcast = (shutdown_slots m.channels).1 in
      elim held [
        | none ↦ shut_down closed_mux woken
        | some id ↦ elim (slot m id) [ none ↦ shut_down closed_mux woken | some c ↦ deadlock ]
      ]
