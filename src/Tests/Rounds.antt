-- ===== src/Tests/Rounds.antt =====
-- mux.c: rounds of the sender and the receiver on a table of two channels.
use csup.Prelude.{
  get_elem?, List, ◌⊎◌, ◌+◌, ℕ, zero, suc, ◌<◌, ◌≡◌, refl, arith, false, true, [], ◌∷◌, ◌++◌, some,
  none,
}
use csup.Prelude.Run.{done}
use csup.Mux.Buffer.{Buf}
use csup.Mux.Channel.{Broadcast, Chan, ChanState, listening, established, no_flags}
use csup.Mux.State.{chan_insert, mux_shutdown, shut_down, status_failure, Mux, slot, deadlock}
use csup.Mux.Packet.{close, encode}
use csup.Mux.Sender.{sender_scan}
use csup.Mux.Receiver.{Step, receive_close, receiver_round, receiver_end}
use csup.Mux.Scanning.{IsScannable, Answer, sender_scan_lem}
use csup.Mux.Shutdown.{NeverWaits, Wakes, mux_shutdown_ends_waits}
use csup.Mux.Table.{IsFirstEmpty, IsFull, chan_insert_lem}
use csup.Mux.Failing.{unexpected_close_deadlocks}

abbrev small_buf : Buf
small_buf = record { cells = 1 ∷ 2 ∷ 0 ∷ []; size = 2; in_at = 2; out_at = 0 }

abbrev chan_in : ChanState → Chan
chan_in state = record {
  flags = no_flags;
  state = state;
  recvbuf = small_buf;
  recvseq = 0;
  recvmss = 1024;
  sendbuf = small_buf;
  sendseq = 0;
  sendwin = 2;
  sendmss = 1024;
}

abbrev two_chans : Mux
two_chans = record {
  is_closed = false;
  status = none;
  channels = some (chan_in listening) ∷ some (chan_in established) ∷ [];
  nchans = 2;
  sender_lastid = 0;
}

two_chans-IsScannable : IsScannable two_chans
two_chans-IsScannable = record { present = present; last_lt = omega arith }
  where
    present : (i : ℕ) → i < 2 → (c : Chan) × (slot two_chans i ≡ some c)
    present zero h = (chan_in listening, refl)
    present (suc zero) h = (chan_in established, refl)
    present (suc (suc i)) h = absurd (omega arith)

sender_scan_lem_example : Answer two_chans (sender_scan two_chans)
sender_scan_lem_example = sender_scan_lem two_chans two_chans-IsScannable

nothing_to_close : receive_close (chan_in listening) ≡ none
unfolding receive_close
nothing_to_close = refl

unexpected_close_deadlocks_example :
    (s : Step) × (receiver_round (chan_in listening) two_chans (encode (close 0) ++ (9 ∷ []))
      ≡ done s)
    × (receiver_end s ≡ some deadlock)
unexpected_close_deadlocks_example =
    unexpected_close_deadlocks (chan_in listening) two_chans 0 (chan_in listening) (9 ∷ []) refl
      (omega arith) refl nothing_to_close

mux_shutdown_ends_waits_example :
    (m : Mux) × (bs : List Broadcast) × (mux_shutdown none two_chans status_failure
      ≡ shut_down m bs)
    × (m.is_closed ≡ true)
    × (m.status ≡ some status_failure)
    × ((i : ℕ) (c : Chan)
        → slot two_chans i ≡ some c
        → (b : Broadcast) × (get_elem? bs i ≡ some b) × Wakes c b)
    × ((i : ℕ) (c : Chan) → slot m i ≡ some c → NeverWaits c)
mux_shutdown_ends_waits_example = mux_shutdown_ends_waits two_chans status_failure refl

-- Both slots are taken: the second case of the two.
chan_insert_lem_example :
    ((i : ℕ) × (m : Mux) × (chan_insert two_chans (chan_in listening) ≡ (some i, false, m))
      × IsFirstEmpty two_chans.channels i
      × (slot m i ≡ some (chan_in listening))
      × (m.nchans ≡ two_chans.nchans + 1))
    ⊎ ((chan_insert two_chans (chan_in listening) ≡ (none, true, two_chans))
        × IsFull two_chans.channels)
chan_insert_lem_example = chan_insert_lem two_chans (chan_in listening)
