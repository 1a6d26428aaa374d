-- ===== src/Mux/Shutdown.antt =====
-- mux.c: after mux_shutdown() no thread waits on a channel, for those that did are woken.
use csup.Prelude.{
  ℕ, zero, suc, ◌≡◌, ◌≢◌, ◌⊎◌, inl, inr, refl, ap, subst, arith, Bytes, false, true, List, [], ◌∷◌,
  Option, some, none, get_elem?,
}
use csup.Prelude.Run.{done}
use csup.Mux.Channel.{
  Chan, ChanState, unused, listening, connecting, established, rdclosed, wrclosed, closed,
  chan_read, chan_write, chan_accept, chan_connect_wait, chan_shutdown, read_eof, read_ebadf,
  read_waits, write_epipe, write_waits, wrote, accept_waits, accept_reset, Broadcast,
}
use csup.Mux.State.{Mux, Status, slot, shutdown_slots, mux_shutdown, shut_down}

-- What threads find in a channel that was shut down.
pub record NeverWaits (c : Chan) : Type 0 where
  pub reads_end : (n : ℕ) → (chan_read c n ≡ done read_eof) ⊎ (chan_read c n ≡ done read_ebadf)
  pub writes_fail : (x : ℕ) (xs : Bytes) → chan_write c (x ∷ xs) ≡ done write_epipe
  pub writes_nothing : chan_write c [] ≡ done (wrote c [])
  pub accept_fails : chan_accept c ≡ accept_reset
  pub connect_fails : chan_connect_wait c ≡ accept_reset

closed-NeverWaits : (c : Chan) → c.state ≡ closed → NeverWaits c
unfolding chan_read chan_write chan_accept chan_connect_wait
closed-NeverWaits c e = record {
  reads_end = λ n. inl (rw (chan_read, e) refl);
  writes_fail = λ x xs. rw (chan_write, e) refl;
  writes_nothing = refl;
  accept_fails = rw (chan_accept, e) refl;
  connect_fails = rw (chan_connect_wait, e) refl;
}

unused-NeverWaits : (c : Chan) → c.state ≡ unused → NeverWaits c
unfolding chan_read chan_write chan_accept chan_connect_wait
unused-NeverWaits c e = record {
  reads_end = λ n. inr (rw (chan_read, e) refl);
  writes_fail = λ x xs. rw (chan_write, e) refl;
  writes_nothing = refl;
  accept_fails = rw (chan_accept, e) refl;
  connect_fails = rw (chan_connect_wait, e) refl;
}

-- An unused channel stays as it is; another one is closed.
chan_shutdown-state :
    (c : Chan) → ((chan_shutdown c).0.state ≡ unused) ⊎ ((chan_shutdown c).0.state ≡ closed)
unfolding chan_shutdown
chan_shutdown-state c = by_state c.state refl
  where
    by_state :
        (s : ChanState)
        → c.state ≡ s
        → ((chan_shutdown c).0.state ≡ unused) ⊎ ((chan_shutdown c).0.state ≡ closed)
    by_state unused e = inl (rw (chan_shutdown, e) e)
    by_state listening e = inr (rw (chan_shutdown, e) refl)
    by_state connecting e = inr (rw (chan_shutdown, e) refl)
    by_state established e = inr (rw (chan_shutdown, e) refl)
    by_state rdclosed e = inr (rw (chan_shutdown, e) refl)
    by_state wrclosed e = inr (rw (chan_shutdown, e) refl)
    by_state closed e = inr (rw (chan_shutdown, e) refl)

chan_shutdown-NeverWaits : (c : Chan) → NeverWaits (chan_shutdown c).0
chan_shutdown-NeverWaits c = elim (chan_shutdown-state c) [
  | inl e ↦ unused-NeverWaits (chan_shutdown c).0 e
  | inr e ↦ closed-NeverWaits (chan_shutdown c).0 e
]

from_slot : Chan → Option (Option Chan) → Chan
from_slot d (some (some c)) = c
from_slot d _ = d

shutdown_slots-NeverWaits :
    (slots : List (Option Chan)) (i : ℕ) (c : Chan)
    → get_elem? (shutdown_slots slots).0 i ≡ some (some c)
    → NeverWaits c
unfolding from_slot
shutdown_slots-NeverWaits [] i c h = absurd (ground arith)
shutdown_slots-NeverWaits (none ∷ slots) zero c h = absurd (ground arith)
shutdown_slots-NeverWaits (some d ∷ slots) zero c h =
    subst NeverWaits (ap (from_slot c) h) (chan_shutdown-NeverWaits d)
shutdown_slots-NeverWaits (none ∷ slots) (suc i) c h = shutdown_slots-NeverWaits slots i c h
shutdown_slots-NeverWaits (some d ∷ slots) (suc i) c h = shutdown_slots-NeverWaits slots i c h

-- What a broadcast does for the threads that wait on a channel: it wakes those that wait to read or to
-- accept, if there can be any, and those that wait to write or to connect.
pub record Wakes (c : Chan) (b : Broadcast) : Type 0 where
  pub readers :
      (b.rdready ≡ true)
      ⊎ (((n : ℕ) → chan_read c n ≢ done read_waits) × (chan_accept c ≢ accept_waits))
  pub writers :
      (b.wrready ≡ true)
      ⊎ (((xs : Bytes) → chan_write c xs ≢ done write_waits) × (chan_connect_wait c ≢ accept_waits))

unused-Wakes : (c : Chan) (b : Broadcast) → c.state ≡ unused → Wakes c b
unfolding chan_write
unused-Wakes c b e =
    let never = unused-NeverWaits c e in
    let reset = never.accept_fails in
    let not_connected = never.connect_fails in
    record {
      readers = inr (λ n h. elim (never.reads_end n) [ inl k ↦ cc | inr k ↦ cc ], λ h. cc);
      writers = inr (no_writer, λ h. cc);
    }
  where
    no_writer : (xs : Bytes) → chan_write c xs ≢ done write_waits
    no_writer [] h = cc
    no_writer (x ∷ xs) h = let fails = (unused-NeverWaits c e).writes_fail x xs in cc

chan_shutdown-Wakes : (c : Chan) → Wakes c (chan_shutdown c).1
unfolding chan_shutdown
chan_shutdown-Wakes c = by_state c.state refl
  where
    all :
        (c.state ≡ c.state)
        → (chan_shutdown c).1 ≡ record { rdready = true; wrready = true }
        → Wakes c (chan_shutdown c).1
    all e h = record {
      readers = inl (ap (λ b. b.rdready) h);
      writers = inl (ap (λ b. b.wrready) h);
    }

    by_state : (s : ChanState) → c.state ≡ s → Wakes c (chan_shutdown c).1
    by_state unused e = unused-Wakes c (chan_shutdown c).1 e
    by_state listening e = all refl (rw (chan_shutdown, e) refl)
    by_state connecting e = all refl (rw (chan_shutdown, e) refl)
    by_state established e = all refl (rw (chan_shutdown, e) refl)
    by_state rdclosed e = all refl (rw (chan_shutdown, e) refl)
    by_state wrclosed e = all refl (rw (chan_shutdown, e) refl)
    by_state closed e = all refl (rw (chan_shutdown, e) refl)

shutdown_slots-Wakes :
    (slots : List (Option Chan)) (i : ℕ) (c : Chan)
    → get_elem? slots i ≡ some (some c)
    → (b : Broadcast) × (get_elem? (shutdown_slots slots).1 i ≡ some b) × Wakes c b
unfolding from_slot
shutdown_slots-Wakes [] i c h = absurd (ground arith)
shutdown_slots-Wakes (none ∷ slots) zero c h = absurd (ground arith)
shutdown_slots-Wakes (some d ∷ slots) zero c h = (
  (chan_shutdown d).1,
  refl,
  subst (λ x. Wakes x (chan_shutdown d).1) (ap (from_slot c) h) (chan_shutdown-Wakes d),
)
shutdown_slots-Wakes (none ∷ slots) (suc i) c h = shutdown_slots-Wakes slots i c h
shutdown_slots-Wakes (some d ∷ slots) (suc i) c h = shutdown_slots-Wakes slots i c h

slot-get_elem? :
    (m : Mux) (i : ℕ) (c : Chan) → slot m i ≡ some c → get_elem? m.channels i ≡ some (some c)
slot-get_elem? m i c h = ground arith

-- Shutting down a multiplexer that is not closed, by a thread that holds no channel's lock, closes
-- it. On each of its channels, the threads that wait, to read, accept, write or connect, are woken,
-- and then a read gives the end of the file or EBADF, a write of at least one byte EPIPE (and of
-- none success), and an accept or connect a reset.
pub mux_shutdown_ends_waits :
    (m : Mux) (status : Status)
    → m.is_closed ≡ false
    → (m' : Mux) × (bs : List Broadcast) × (mux_shutdown none m status ≡ shut_down m' bs)
      × (m'.is_closed ≡ true)
      × (m'.status ≡ some status)
      × ((i : ℕ) (c : Chan)
          → slot m i ≡ some c
          → (b : Broadcast) × (get_elem? bs i ≡ some b) × Wakes c b)
      × ((i : ℕ) (c : Chan) → slot m' i ≡ some c → NeverWaits c)
unfolding mux_shutdown
mux_shutdown_ends_waits m status running =
    let m' : Mux = record m {
      is_closed = true;
      status = some status;
      channels = (shutdown_slots m.channels).0;
    } in
    (
      m',
      (shutdown_slots m.channels).1,
      rw (mux_shutdown, running) refl,
      refl,
      refl,
      λ i c h. shutdown_slots-Wakes m.channels i c (slot-get_elem? m i c h),
      λ i c h. shutdown_slots-NeverWaits m.channels i c (slot-get_elem? m' i c h),
    )
