-- ===== src/Mux/Failing.antt =====
-- mux.c: what a CLOSE packet for a channel with nothing to close comes to.
use csup.Prelude.{ℕ, ◌<◌, ◌≡◌, refl, arith, Bytes, false, some, none, ◌++◌}
use csup.Prelude.Run.{done, ◌>>=◌}
use csup.Mux.Channel.{Chan}
use csup.Mux.Packet.{close, encode}
use csup.Mux.PacketRoundTrip.{receive_header-encode}
use csup.Mux.State.{Mux, slot, mux_maxchan, chan_get, mux_shutdown, deadlock}
use csup.Mux.Receiver.{Step, bad_proto, receive_close, receive_packet, receiver_round, receiver_end}

chan_get-slot :
    (fresh : Chan) (m : Mux) (id : ℕ) (c : Chan)
    → id < mux_maxchan
    → slot m id ≡ some c
    → chan_get fresh m id ≡ done (c, m)
unfolding chan_get
chan_get-slot fresh m id c lt e = ground (arith, e)

-- While the multiplexer is not closed: a CLOSE packet for an existing channel whose peer has
-- nothing to close is a protocol error, and the receiver's way out of its loop waits for the lock
-- of that channel, which it holds itself.
pub unexpected_close_deadlocks :
    (fresh : Chan) (m : Mux) (id : ℕ) (c : Chan) (rest : Bytes)
    → m.is_closed ≡ false
    → id < mux_maxchan
    → slot m id ≡ some c
    → receive_close c ≡ none
    → (s : Step) × (receiver_round fresh m (encode (close id) ++ rest) ≡ done s)
      × (receiver_end s ≡ some deadlock)
unfolding receiver_round receive_packet receiver_end mux_shutdown
unexpected_close_deadlocks fresh m id c rest running lt e nothing = (
  bad_proto (some id) m,
  rw
      (
        receiver_round,
        receive_header-encode (close id) rest (omega arith),
        receive_packet,
        chan_get-slot fresh m id c lt e,
        ◌>>=◌,
        nothing,
      )
      refl,
  rw (running, e) refl,
)
