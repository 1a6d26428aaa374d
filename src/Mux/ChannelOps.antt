-- ===== src/Mux/ChannelOps.antt =====
-- What sending, receiving, reading and writing do to a channel with valid buffers.
use csup.Prelude.{
  ℕ, ◌+◌, ◌-◌, ◌≡◌, ◌≤◌, ◌∙◌, ap, arith, false, Bytes, length, ltb, take, drop, min, ◌++◌,
  length-take, length-drop, Bool-cases, inl, inr, ltb→lt, take_all, [], ◌∷◌, sym, refl, append-nil,
}
use csup.Prelude.Run.{done}
use csup.Prelude.Slices.{overwrite}
use csup.Mux.Word.{sub_u32, add_u32}
use csup.Mux.Buffer.{
  Buf, buf_count, buf_avail, buf_put, buf_get, room, advance, got_bytes, put_cells,
}
use csup.Mux.BufferCells.{IsValid, contents}
use csup.Mux.BufferQueue.{
  after_put-IsValid, after_get-IsValid, contents-after_put, contents-after_get, got_bytes-eq-take,
  advance_put, advance_get,
}
use csup.Mux.Channel.{Chan, chan_read, read_bytes, chan_write, wrote}
use csup.Mux.Sender.{send_size, send_bytes}
use csup.Mux.Receiver.{receive_data, receive_cells}

-- A data packet is as large as the stored bytes, the segment size and the window allow.
pub send_size_le :
    (c : Chan)
    → (send_size c ≤ buf_count c.sendbuf)
      × (send_size c ≤ c.sendmss)
      × (send_size c ≤ sub_u32 c.sendwin c.sendseq)
unfolding send_size
send_size_le c = ground arith

send_bytes-eq-got_bytes : (buf : Buf) (n : ℕ) → send_bytes buf n ≡ got_bytes buf n
unfolding send_bytes
send_bytes-eq-got_bytes buf n = elim (Bool-cases (ltb (room buf.size buf.out_at) n)) [
  | inl w ↦
      let e : min n (room buf.size buf.out_at) ≡ room buf.size buf.out_at =
        omega (arith, ltb→lt _ _ w) in
      rw (e, w)
  | inr s ↦
      let e : min n (room buf.size buf.out_at) ≡ n = ground arith in
      let z : ltb n n ≡ false = ground arith in rw (e, z, s)
]

-- The packet carries the oldest stored bytes.
pub send_bytes_lem :
    {buf : Buf} (n : ℕ) → IsValid buf → n ≤ buf_count buf → send_bytes buf n ≡ take n (contents buf)
send_bytes_lem {buf} n v h = send_bytes-eq-got_bytes buf n ∙ got_bytes-eq-take n v h

receive_cells-eq-put_cells : (buf : Buf) (xs : Bytes) → receive_cells buf xs ≡ put_cells buf xs
unfolding receive_cells
receive_cells-eq-put_cells buf xs = elim (Bool-cases (ltb (room buf.size buf.in_at) (length xs))) [
  | inl w ↦
      let e : min (room buf.size buf.in_at) (length xs) ≡ room buf.size buf.in_at =
        omega (arith, ltb→lt _ _ w) in
      rw (e, w)
  | inr s ↦
      let e : min (room buf.size buf.in_at) (length xs) ≡ length xs = ground arith in
      let z : ltb (length xs) (length xs) ≡ false = ground arith in
      rw (e, z, s) (ap (overwrite buf.cells buf.in_at) (take_all (length xs) xs (omega arith)))
]

-- A packet that is taken is appended to what is to be read.
pub receive_data_lem :
    (c : Chan) (xs : Bytes)
    → IsValid c.recvbuf
    → length xs ≤ buf_avail c.recvbuf
    → IsValid (receive_data xs c).recvbuf
      × (contents (receive_data xs c).recvbuf ≡ contents c.recvbuf ++ xs)
      × (buf_count (receive_data xs c).recvbuf ≡ buf_count c.recvbuf + length xs)
unfolding receive_data
receive_data_lem c xs v h =
    rw (receive_cells-eq-put_cells c.recvbuf xs)
      (after_put-IsValid xs v h, contents-after_put xs v h, (advance_put xs v h).1)

chan_read_inv :
    (c : Chan) (n : ℕ) (xs : Bytes) (c' : Chan)
    → chan_read c n ≡ done (read_bytes xs c')
    → let k : ℕ = min (buf_count c.recvbuf) n in
      (xs ≡ got_bytes c.recvbuf k)
      × (c'.recvbuf ≡ record (c.recvbuf) { out_at = advance c.recvbuf.size c.recvbuf.out_at k })
      × (c'.recvseq ≡ add_u32 c.recvseq k)
      × (c'.recvmss ≡ c.recvmss)
      × (c'.state ≡ c.state)
unfolding chan_read buf_get
chan_read_inv c n xs c' h = ground arith

-- The bytes that chan_read() returns, and the channel that it leaves.
pub record HasRead (c : Chan) (xs : Bytes) (c' : Chan) : Type 0 where
  pub taken : ℕ
  pub taken_le : taken ≤ buf_count c.recvbuf
  pub got : xs ≡ take taken (contents c.recvbuf)
  pub valid : IsValid c'.recvbuf
  pub rest : contents c'.recvbuf ≡ drop taken (contents c.recvbuf)
  pub count : buf_count c'.recvbuf + taken ≡ buf_count c.recvbuf
  pub seq : c'.recvseq ≡ add_u32 c.recvseq taken
  pub size : c'.recvbuf.size ≡ c.recvbuf.size
  pub mss : c'.recvmss ≡ c.recvmss
  pub state : c'.state ≡ c.state

pub chan_read-HasRead :
    (c : Chan) (n : ℕ) (xs : Bytes) (c' : Chan)
    → IsValid c.recvbuf
    → chan_read c n ≡ done (read_bytes xs c')
    → HasRead c xs c'
chan_read-HasRead c n xs c' v h =
    let k : ℕ = min (buf_count c.recvbuf) n in
    let le : k ≤ buf_count c.recvbuf = omega arith in
    let (ex, eb, es, em, et) = chan_read_inv c n xs c' h in
    record {
      taken = k;
      taken_le = le;
      got = ex ∙ got_bytes-eq-take k v le;
      valid = rw eb (after_get-IsValid k v le);
      rest = rw eb (contents-after_get k v le);
      count = rw eb (advance_get k v le).1;
      seq = es;
      size = rw eb;
      mss = em;
      state = et;
    }

chan_write_inv :
    (c : Chan) (x : ℕ) (ys rest : Bytes) (c' : Chan)
    → chan_write c (x ∷ ys) ≡ done (wrote c' rest)
    → let xs : Bytes = x ∷ ys in
      let k : ℕ = min (buf_avail c.sendbuf) (length xs) in
      (rest ≡ drop k xs)
      × (c'.sendbuf ≡ record (c.sendbuf) {
        cells = put_cells c.sendbuf (take k xs);
        in_at = advance c.sendbuf.size c.sendbuf.in_at (length (take k xs));
      })
      × (c'.sendseq ≡ c.sendseq)
      × (c'.sendwin ≡ c.sendwin)
      × (c'.sendmss ≡ c.sendmss)
      × (c'.state ≡ c.state)
unfolding chan_write buf_put
chan_write_inv c x ys rest c' h = ground arith

-- What chan_write() takes, and the channel that it leaves.
pub record HasWritten (c : Chan) (xs rest : Bytes) (c' : Chan) : Type 0 where
  pub taken : ℕ
  pub taken_eq : length xs - length rest ≡ taken
  pub left : rest ≡ drop taken xs
  pub valid : IsValid c'.sendbuf
  pub stored : contents c'.sendbuf ≡ contents c.sendbuf ++ take taken xs
  pub seq : c'.sendseq ≡ c.sendseq
  pub win : c'.sendwin ≡ c.sendwin
  pub mss : c'.sendmss ≡ c.sendmss
  pub state : c'.state ≡ c.state

pub chan_write-HasWritten :
    (c : Chan) (xs rest : Bytes) (c' : Chan)
    → IsValid c.sendbuf
    → chan_write c xs ≡ done (wrote c' rest)
    → HasWritten c xs rest c'
unfolding chan_write
chan_write-HasWritten c [] rest c' v h =
    let none_left : rest ≡ [] = ground arith in
    let same : c' ≡ c = ground arith in
    record {
      taken = 0;
      taken_eq = omega arith;
      left = none_left;
      valid = rw same v;
      stored = rw same (sym (append-nil (contents c.sendbuf)));
      seq = rw same refl;
      win = rw same refl;
      mss = rw same refl;
      state = rw same refl;
    }
chan_write-HasWritten c (x ∷ ys) rest c' v h =
    let xs : Bytes = x ∷ ys in
    let k : ℕ = min (buf_avail c.sendbuf) (length xs) in
    let lt = length-take k xs in
    let fits : length (take k xs) ≤ buf_avail c.sendbuf = omega (arith, lt) in
    let (er, eb, es, ew, em, et) = chan_write_inv c x ys rest c' h in
    record {
      taken = k;
      taken_eq = rw er (omega (arith, length-drop k xs));
      left = er;
      valid = rw eb (after_put-IsValid (take k xs) v fits);
      stored = rw eb (contents-after_put (take k xs) v fits);
      seq = es;
      win = ew;
      mss = em;
      state = et;
    }
