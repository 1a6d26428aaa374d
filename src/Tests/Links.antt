-- ===== src/Tests/Links.antt =====
-- mux.c: a channel opened between two programs, and its first bytes.
use csup.Prelude.{
  ℕ, ◌+◌, ◌≡◌, ◌≤◌, ◌<◌, inl, refl, arith, false, Bytes, List, [], ◌∷◌, ◌++◌, length,
  length-replicate, replicate,
}
use csup.Prelude.Run.{done}
use csup.Mux.BufferCells.{contents}
use csup.Mux.Buffer.{put_cells, buf_put, buf_avail, buf_count}
use csup.Mux.Channel.{Chan, chan_bufsize, chan_new, chan_write, wrote, chan_connect_start}
use csup.Mux.Sender.{send_size}
use csup.Mux.Receiver.{data_refused, receive_connect, receive_accept}
use csup.Mux.Link.{Link, joined, here, then_step, write}
use csup.Mux.LinkInv.{sent}
use csup.Mux.Delivery.{
  Blocks, AreBlocks, answering, answered, open_link, IsOpened, opened_link_delivers,
  drained_link_sends,
}

abbrev block : Bytes
block = replicate (chan_bufsize + 1) 0

abbrev blocks : Blocks
blocks = record {
  connecting_out = block;
  connecting_in = block;
  listening_out = block;
  listening_in = block;
}

blocks-AreBlocks : AreBlocks blocks
blocks-AreBlocks = record {
  out_1 = length-replicate {A = ℕ} (chan_bufsize + 1) 0;
  in_1 = length-replicate {A = ℕ} (chan_bufsize + 1) 0;
  out_2 = length-replicate {A = ℕ} (chan_bufsize + 1) 0;
  in_2 = length-replicate {A = ℕ} (chan_bufsize + 1) 0;
}

abbrev hello : Bytes
hello = b'h' ∷ b'i' ∷ []

-- The connecting end after chan_write() of two bytes.
abbrev with_hello : Chan
with_hello = record (answered blocks) {
  sendbuf = record ((answered blocks).sendbuf) {
    cells = put_cells (answered blocks).sendbuf hello;
    in_at = 2;
  };
}

abbrev link : Link
link = record (open_link (answered blocks) (answering blocks)) {
  writer = with_hello;
  written = hello;
}

hello_written : chan_write (answered blocks) hello ≡ done (wrote with_hello [])
unfolding chan_write chan_new chan_connect_start receive_accept receive_connect buf_put buf_avail
hello_written = refl

link-IsOpened : IsOpened blocks link
link-IsOpened = inl (then_step here (write hello [] with_hello hello_written))

opened_link_delivers_example :
    (link.written
      ≡ link.returned
        ++ (contents link.reader.recvbuf ++ (joined link.wire ++ contents link.writer.sendbuf)))
    × ((p : Bytes) (ps : List Bytes)
        → link.wire ≡ p ∷ ps
        → data_refused (length p) link.reader ≡ false)
    × (sent link ≤ length link.returned + link.reader.recvbuf.size)
opened_link_delivers_example = opened_link_delivers blocks link blocks-AreBlocks link-IsOpened

nothing_stored : buf_count link.reader.recvbuf ≡ 0
unfolding buf_count chan_new chan_connect_start receive_accept receive_connect
nothing_stored = refl

hello_stored : 0 < buf_count link.writer.sendbuf
unfolding buf_count chan_new chan_connect_start receive_accept receive_connect
hello_stored = omega arith

drained_link_sends_example : 0 < send_size link.writer
drained_link_sends_example =
    drained_link_sends blocks link blocks-AreBlocks link-IsOpened refl nothing_stored
      (unfold chan_new chan_connect_start receive_accept receive_connect in refl)
      (unfold chan_new chan_connect_start receive_accept receive_connect in omega arith)
      hello_stored
      (unfold chan_new chan_connect_start receive_accept receive_connect in omega arith)
