-- ===== src/Mux/Receiver.antt =====
-- mux.c: receiver_loop(), one packet at a time.
use csup.Prelude.{
  ℕ, Bool, true, ◌||◌, not, ltb, if◌then◌else◌, Bytes, Option, none, some, take, drop, length, min,
}
use csup.Prelude.Run.{Run, done, ◌>>=◌}
use csup.Prelude.Slices.{overwrite}
use csup.Mux.Buffer.{Buf, buf_avail, advance, room}
use csup.Mux.Channel.{
  listening, connecting, established, rdclosed, wrclosed, closed, Chan, can_receive, can_send,
}
use csup.Mux.Packet.{
  Header, startup_req, startup_rep, connect, accept, reset, data_of, window, close, packet,
  bad_type, connection_lost, receive_header,
}
use csup.Mux.State.{
  Mux, set_chan, chan_get, Shutdown, mux_shutdown, status_failure, status_transient_failure,
}

-- MUX_CONNECT
unfoldable pub receive_connect : ℕ → ℕ → Chan → Chan
receive_connect mss win chan = elim chan.state [
  | listening ↦ record chan {
    state = established;
    sendmss = mss;
    sendwin = win;
    flags = record (chan.flags) { cf_accept = true };
  }
  | _ ↦ record chan { flags = record (chan.flags) { cf_reset = true } }
]

-- MUX_ACCEPT
unfoldable pub receive_accept : ℕ → ℕ → Chan → Chan
receive_accept mss win chan = elim chan.state [
  | connecting ↦ record chan { state = established; sendmss = mss; sendwin = win }
  | _ ↦ record chan { flags = record (chan.flags) { cf_reset = true } }
]

-- MUX_WINDOW
unfoldable pub receive_window_update : ℕ → Chan → Chan
receive_window_update win chan = if can_send chan.state then record chan { sendwin = win } else chan

-- MUX_DATA: the test that makes a packet a protocol error.
unfoldable pub data_refused : ℕ → Chan → Bool
data_refused len chan =
    not (can_receive chan.state) || (ltb (buf_avail chan.recvbuf) len || ltb chan.recvmss len)

-- The one or two reads into the receive buffer.
unfoldable pub receive_cells : Buf → Bytes → Bytes
receive_cells buf payload =
    let size : ℕ = min (room buf.size buf.in_at) (length payload) in
    if ltb size (length payload)
    then overwrite (overwrite buf.cells buf.in_at (take size payload)) 0 (drop size payload)
    else overwrite buf.cells buf.in_at (take size payload)

unfoldable pub receive_data : Bytes → Chan → Chan
unfolding receive_cells
receive_data payload chan = record chan {
  recvbuf = record (chan.recvbuf) {
    cells = receive_cells chan.recvbuf payload;
    in_at = advance chan.recvbuf.size chan.recvbuf.in_at (length payload);
  };
}

-- MUX_CLOSE: no channel is left for a state in which the peer has nothing to close.
unfoldable pub receive_close : Chan → Option Chan
receive_close chan = elim chan.state [
  | established ↦ some (record chan { state = rdclosed })
  | wrclosed ↦ some (record chan { state = closed })
  | _ ↦ none
]

-- What one packet comes to: the loop goes on with the rest of the stream, a protocol error with
-- the channel whose lock is still held, if one is, or the loss of the connection.
pub data Step : Type 0 where
  go_on : Mux → Bytes → Step
  bad_proto : Option ℕ → Mux → Step
  lost : Mux → Step

-- The channel is put back changed, and its lock released.
abbrev pub update_chan : Chan → Mux → ℕ → (Chan → Chan) → Bytes → Run Step
update_chan fresh m id f rest =
    chan_get fresh m id >>= λ (chan, m'). done (go_on (set_chan m' id (f chan)) rest)

-- One packet of receiver_loop(); `fresh` is the channel that chan_get() makes if it has to.
unfoldable pub receive_packet : Chan → Mux → Header → Bytes → Run Step
receive_packet fresh m (connect id mss win) rest =
    update_chan fresh m id (receive_connect mss win) rest
receive_packet fresh m (accept id mss win) rest =
    update_chan fresh m id (receive_accept mss win) rest
receive_packet fresh m (reset id) rest = done (bad_proto none m)
receive_packet fresh m (window id win) rest =
    update_chan fresh m id (receive_window_update win) rest
receive_packet fresh m (data_of id len) rest = chan_get fresh m id >>= λ (chan, m').
    if data_refused len chan
    then done (bad_proto none m')
    else if ltb (length rest) len
    then done (lost m')
    else done (go_on (set_chan m' id (receive_data (take len rest) chan)) (drop len rest))
receive_packet fresh m (close id) rest = chan_get fresh m id >>= λ (chan, m').
    elim (receive_close chan) [
      | some chan' ↦ done (go_on (set_chan m' id chan') rest)
      | none ↦ done (bad_proto (some id) m')
    ]
receive_packet fresh m (startup_req v) rest = done (bad_proto none m)
receive_packet fresh m (startup_rep v) rest = done (bad_proto none m)

unfoldable pub receiver_round : Chan → Mux → Bytes → Run Step
receiver_round fresh m stream = elim (receive_header stream) [
  | packet h rest ↦ receive_packet fresh m h rest
  | bad_type ↦ done (bad_proto none m)
  | connection_lost ↦ done (lost m)
]

-- The labels bad and badproto: the loop ends in mux_shutdown().
unfoldable pub receiver_end : Step → Option Shutdown
receiver_end (go_on m rest) = none
receiver_end (bad_proto held m) = some (mux_shutdown held m status_failure)
receiver_end (lost m) = some (mux_shutdown none m status_transient_failure)
