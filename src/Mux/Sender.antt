-- ===== src/Mux/Sender.antt =====
-- mux.c: the sender thread.
use csup.Prelude.{
  ℕ, zero, suc, ◌+◌, ◌-◌, Bool, true, false, ◌&&◌, not, ltb, leb, ◌==◌, if◌then◌else◌, Bytes, [],
  ◌++◌, Option, none, some, take, drop, min,
}
use csup.Prelude.Run.{Run, done, abort, out_of_fuel, ◌>>=◌}
use csup.Mux.Word.{add_u32, sub_u32}
use csup.Mux.Buffer.{Buf, buf_count, advance, room}
use csup.Mux.Channel.{ChanState, unused, Flags, Chan}
use csup.Mux.Packet.{Header, connect, accept, reset, data_of, window, close, encode}
use csup.Mux.State.{Mux, slot, set_chan}

-- The one flag that the sender takes up.
pub data Work : Type 0 where
  do_connect : Work
  do_accept : Work
  do_reset : Work
  do_window : Work
  do_data : Work
  do_close : Work

-- By order of importance.
unfoldable pub first_work : Flags → Option Work
first_work f =
    if f.cf_connect
    then some do_connect
    else if f.cf_accept
    then some do_accept
    else if f.cf_reset
    then some do_reset
    else if f.cf_window
    then some do_window
    else if f.cf_data
    then some do_data
    else if f.cf_close
    then some do_close
    else none

-- `flags &= ~what`
unfoldable pub clear_work : Work → Flags → Flags
clear_work do_connect f = record f { cf_connect = false }
clear_work do_accept f = record f { cf_accept = false }
clear_work do_reset f = record f { cf_reset = false }
clear_work do_window f = record f { cf_window = false }
clear_work do_data f = record f { cf_data = false }
clear_work do_close f = record f { cf_close = false }

abbrev pub is_unused : ChanState → Bool
is_unused unused = true
is_unused _ = false

-- `flags |= CF_DATA` if the window is open and there are bytes to send.
unfoldable pub data_flag : Chan → Flags
data_flag chan =
    if not (chan.sendseq == chan.sendwin) && ltb 0 (buf_count chan.sendbuf)
    then record (chan.flags) { cf_data = true }
    else chan.flags

-- What the scan finds in one channel: the work, and the channel with its flag taken.
unfoldable pub scan_chan : Chan → Option (Work × Chan)
unfolding first_work clear_work data_flag
scan_chan chan = if is_unused chan.state then none else elim (first_work (data_flag chan)) [
  | none ↦ none
  | some what ↦ some (what, record chan { flags = clear_work what (data_flag chan) })
]

abbrev pub next_id : Mux → ℕ → ℕ
next_id m id = if leb m.nchans (id + 1) then 0 else id + 1

pub data Scan : Type 0 where
  no_work : Scan
  found : ℕ → Work → Chan → Mux → Scan

-- The do loop of sender_scan(), from the channel behind `id`, on fuel.
unfoldable pub scan_from : ℕ → Mux → ℕ → Run Scan
unfolding scan_chan
scan_from zero m id = out_of_fuel
scan_from (suc f) m id = elim (slot m (next_id m id)) [
  | none ↦ abort
  | some chan ↦ elim (scan_chan chan) [
    | some (what, chan') ↦ done (
        found (next_id m id) what chan'
          (record (set_chan m (next_id m id) chan') { sender_lastid = next_id m id }))
    | none ↦ elim (next_id m id == m.sender_lastid) [
      | true ↦ done no_work
      | false ↦ scan_from f m (next_id m id)
    ]
  ]
]

-- Scan for work to do for the sender.
unfoldable pub sender_scan : Mux → Run Scan
unfolding scan_from
sender_scan m = if leb m.nchans 0 then done no_work else scan_from m.nchans m m.sender_lastid

-- The size of the next data packet; the least of what is stored, the segment size and the window.
unfoldable pub send_size : Chan → ℕ
send_size chan =
    let size : ℕ = min (buf_count chan.sendbuf) chan.sendmss in
    let winsize : ℕ = sub_u32 chan.sendwin chan.sendseq in
    if ltb winsize size then winsize else size

-- The one or two iovecs that point into the send buffer.
unfoldable pub send_bytes : Buf → ℕ → Bytes
send_bytes buf size =
    let len : ℕ = min size (room buf.size buf.out_at) in
    if ltb len size
    then take len (drop buf.out_at buf.cells) ++ take (size - len) buf.cells
    else take len (drop buf.out_at buf.cells)

-- The channel after a data packet has gone out.
unfoldable pub after_send : Chan → ℕ → Chan
after_send chan size = record chan {
  sendseq = add_u32 chan.sendseq size;
  sendbuf = record (chan.sendbuf) { out_at = advance chan.sendbuf.size chan.sendbuf.out_at size };
}

-- The window that is announced to the peer.
abbrev pub receive_window : Chan → ℕ
receive_window chan = add_u32 chan.recvseq chan.recvbuf.size

-- What goes out for one piece of work: a header, the data behind it, and the channel afterwards.
unfoldable pub send_work : Work → ℕ → Chan → Header × Bytes × Chan
unfolding send_size send_bytes after_send
send_work do_connect id chan = (connect id chan.recvmss (receive_window chan), [], chan)
send_work do_accept id chan = (accept id chan.recvmss (receive_window chan), [], chan)
send_work do_reset id chan = (reset id, [], chan)
send_work do_window id chan = (window id (receive_window chan), [], chan)
send_work do_data id chan =
    if ltb 0 (send_size chan)
    then (
      data_of id (send_size chan),
      send_bytes chan.sendbuf (send_size chan),
      after_send chan (send_size chan),
    )
    else (data_of id 0, [], chan)
send_work do_close id chan = (close id, [], chan)

-- One round of sender_loop() whose write succeeds: what is written, or a wait for work.
unfoldable pub sender_round : Mux → Run (Option (Bytes × Mux))
sender_round m = sender_scan m >>= λ s. elim s [
  | no_work ↦ done none
  | found id what chan m' ↦
      let (h, payload, chan') = send_work what id chan in
      done (some (encode h ++ payload, set_chan m' id chan'))
]
