-- ===== src/Mux/Delivery.antt =====
-- An open channel delivers its bytes: in order, with none refused.
use csup.Prelude.{
  ℕ, ◌+◌, ◌≡◌, ◌⊎◌, inl, inr, List, ◌≤◌, ◌<◌, refl, ap, arith, false, lt→ltb, Bytes, [], ◌∷◌, ◌++◌,
  length,
}
use csup.Mux.Buffer.{buf_count}
use csup.Mux.BufferCells.{contents}
use csup.Mux.Word.{sub_u32}
use csup.Mux.Channel.{Chan, chan_new, chan_bufsize, listening, chan_connect_start}
use csup.Mux.Packet.{data_of}
use csup.Mux.Sender.{do_data, send_work, send_size, send_bytes, after_send, receive_window}
use csup.Mux.Receiver.{receive_connect, receive_accept, data_refused}
use csup.Mux.ChannelOps.{chan_read-HasRead, chan_write-HasWritten}
use csup.Mux.Link.{
  Link, LinkStep, LinkReach, write, send, deliver, read, announce, update, here, then_step, joined,
}
use csup.Mux.LinkInv.{Inv, sent}
use csup.Mux.LinkSteps.{
  send-Inv, deliver-Inv, deliver_accepted, read-Inv, write-Inv, announce-Inv, update-Inv,
  window_bound,
}

send_work_data :
    (id : ℕ) (c : Chan)
    → 0 < send_size c
    → send_work do_data id c
      ≡ (data_of id (send_size c), send_bytes c.sendbuf (send_size c), after_send c (send_size c))
unfolding send_work
send_work_data id c h = rw (lt→ltb 0 (send_size c) h)

pub LinkStep-Inv : {l m : Link} → LinkStep l m → Inv l → Inv m
LinkStep-Inv {l} (write xs rest w h) i =
    write-Inv l i xs rest w (chan_write-HasWritten l.writer xs rest w i.send_valid h)
LinkStep-Inv {l} (send h) i = rw (send_work_data 0 l.writer h) (send-Inv l i)
LinkStep-Inv {l} (deliver p ps e h) i = deliver-Inv l i p ps e
LinkStep-Inv {l} (read n xs r h) i =
    read-Inv l i xs r (chan_read-HasRead l.reader n xs r i.recv_valid h)
LinkStep-Inv {l} announce i = announce-Inv l i
LinkStep-Inv {l} (update w ws e) i = update-Inv l i w ws e

LinkReach-Inv : {l m : Link} → LinkReach l m → Inv l → Inv m
LinkReach-Inv here i = i
LinkReach-Inv (then_step r s) i = LinkStep-Inv s (LinkReach-Inv r i)

-- The blocks of the four buffers of two channels.
pub record Blocks : Type 0 where
  pub connecting_out : Bytes
  pub connecting_in : Bytes
  pub listening_out : Bytes
  pub listening_in : Bytes

-- xmalloc() gives size + 1 bytes for each.
pub record AreBlocks (b : Blocks) : Type 0 where
  pub out_1 : length b.connecting_out ≡ chan_bufsize + 1
  pub in_1 : length b.connecting_in ≡ chan_bufsize + 1
  pub out_2 : length b.listening_out ≡ chan_bufsize + 1
  pub in_2 : length b.listening_in ≡ chan_bufsize + 1

-- The end that connects, having sent CONNECT.
abbrev pub asking : Blocks → Chan
asking b = (chan_connect_start (chan_new b.connecting_out b.connecting_in)).1

-- The end that listens, having received it.
abbrev pub answering : Blocks → Chan
answering b =
    receive_connect (asking b).recvmss (receive_window (asking b))
      (record (chan_new b.listening_out b.listening_in) { state = listening })

-- The end that connects, having received the ACCEPT that the other sent.
abbrev pub answered : Blocks → Chan
answered b = receive_accept (answering b).recvmss (receive_window (answering b)) (asking b)

abbrev pub open_link : Chan → Chan → Link
open_link w r = record {
  writer = w;
  wire = [];
  reader = r;
  updates = [];
  written = [];
  returned = [];
}

open_link-Inv :
    (b : Blocks)
    → AreBlocks b
    → Inv (open_link (answered b) (answering b)) × Inv (open_link (answering b) (answered b))
unfolding chan_connect_start chan_new receive_connect receive_accept buf_count
open_link-Inv b a = (
  record {
    send_valid = record {
      block = a.out_1;
      in_block = omega arith;
      out_block = omega arith;
      small = omega arith;
    };
    recv_valid = record {
      block = a.in_2;
      in_block = omega arith;
      out_block = omega arith;
      small = omega arith;
    };
    may_send = refl;
    may_receive = refl;
    mss_le = omega arith;
    segments = tt;
    in_order = refl;
    recvseq_eq = refl;
    sendseq_eq = refl;
    granted = chan_bufsize;
    sendwin_eq = refl;
    sent_le = omega arith;
    announced = omega arith;
  },
  record {
    send_valid = record {
      block = a.out_2;
      in_block = omega arith;
      out_block = omega arith;
      small = omega arith;
    };
    recv_valid = record {
      block = a.in_1;
      in_block = omega arith;
      out_block = omega arith;
      small = omega arith;
    };
    may_send = refl;
    may_receive = refl;
    mss_le = omega arith;
    segments = tt;
    in_order = refl;
    recvseq_eq = refl;
    sendseq_eq = refl;
    granted = chan_bufsize;
    sendwin_eq = refl;
    sent_le = omega arith;
    announced = omega arith;
  },
)

-- The link is reached from a channel that was just opened, in one direction or the other.
abbrev pub IsOpened : Blocks → Link → Type 0
IsOpened b l =
    LinkReach (open_link (answered b) (answering b)) l
    ⊎ LinkReach (open_link (answering b) (answered b)) l

IsOpened-Inv : (b : Blocks) (l : Link) → AreBlocks b → IsOpened b l → Inv l
IsOpened-Inv b l a (inl s) = LinkReach-Inv s (open_link-Inv b a).0
IsOpened-Inv b l a (inr s) = LinkReach-Inv s (open_link-Inv b a).1

-- A channel that was opened by CONNECT and ACCEPT, in the direction from the end that connects or
-- from the end that listens, after any interleaving of writes, data packets, deliveries, reads,
-- window announcements and window updates, in all of which its end is not closed: the bytes that
-- chan_write() took are the bytes that chan_read() returned, then those in the receive buffer, then
-- those on the wire, then those in the send buffer, in this order; the next data packet on the wire
-- is one that the reading end does not refuse; and what was sent never exceeds what was returned by
-- more than the receive buffer's size, though all counters are 32 bits wide.
pub opened_link_delivers :
    (b : Blocks) (l : Link)
    → AreBlocks b
    → IsOpened b l
    → (l.written
        ≡ l.returned ++ (contents l.reader.recvbuf ++ (joined l.wire ++ contents l.writer.sendbuf)))
      × ((p : Bytes) (ps : List Bytes) → l.wire ≡ p ∷ ps → data_refused (length p) l.reader ≡ false)
      × (sent l ≤ length l.returned + l.reader.recvbuf.size)
opened_link_delivers b l a r =
    let i = IsOpened-Inv b l a r in
    (i.in_order, deliver_accepted l i, omega (arith, window_bound l i, i.sent_le))

-- If an opened channel's wire is empty, its reader has read everything, and the window that the
-- writing end knows of is the reader's current one, then a writing end that has bytes stored and a
-- segment size above 0, with a reader whose buffer's size is above 0, can send a data packet with
-- at least one byte.
pub drained_link_sends :
    (b : Blocks) (l : Link)
    → AreBlocks b
    → IsOpened b l
    → l.wire ≡ []
    → buf_count l.reader.recvbuf ≡ 0
    → l.writer.sendwin ≡ receive_window l.reader
    → 0 < l.reader.recvbuf.size
    → 0 < buf_count l.writer.sendbuf
    → 0 < l.writer.sendmss
    → 0 < send_size l.writer
unfolding send_size
drained_link_sends b l a r empty read_all win size stored mss =
    let i = IsOpened-Inv b l a r in
    let none_sent : length (joined l.wire) ≡ 0 = ap (λ w. length (joined w)) empty in
    let left : sub_u32 l.writer.sendwin l.writer.sendseq ≡ l.reader.recvbuf.size =
      omega (arith, none_sent, i.sendseq_eq, i.recvseq_eq, i.recv_valid.small) in
    ground (arith, left)
