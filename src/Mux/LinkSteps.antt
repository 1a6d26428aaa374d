-- ===== src/Mux/LinkSteps.antt =====
-- Each step of an open channel keeps what holds of it.
use csup.Prelude.{
  ℕ, ◌+◌, ◌-◌, ◌%◌, ◌^◌, ◌≡◌, ◌≤◌, refl, sym, ◌∙◌, ap, ap₂, subst, arith, false, Bytes, All, List,
  [], ◌∷◌, ◌++◌, length, take, drop, length-append, length-take, take-append-drop, append_assoc,
}
use csup.Mux.Word.{sub_u32}
use csup.Mux.Buffer.{buf_avail}
use csup.Mux.BufferCells.{contents, length-contents, buf_count-add-avail}
use csup.Mux.BufferQueue.{after_get-IsValid, contents-after_get}
use csup.Mux.Channel.{Chan, can_send, can_receive}
use csup.Mux.Sender.{send_size, send_bytes, after_send, receive_window}
use csup.Mux.Receiver.{receive_data, data_refused, receive_window_update}
use csup.Mux.ChannelOps.{send_size_le, send_bytes_lem, receive_data_lem, HasRead, HasWritten}
use csup.Mux.Link.{Link, joined}
use csup.Mux.LinkInv.{
  Announced, sent, Inv, Announced-le, Announced-raise, Announced-append, joined-append,
  All-append-one,
}

module _ (l : Link) (i : Inv l) where
  -- The window is never larger than the reading end's buffer.
  pub window_bound : i.granted ≤ length l.returned + l.reader.recvbuf.size
  window_bound = Announced-le i.granted l.updates _ i.announced

  -- What the sender takes for the window is what is left of it.
  window_left : sub_u32 l.writer.sendwin l.writer.sendseq ≡ i.granted - sent l
  window_left =
      rw (i.sendwin_eq, i.sendseq_eq) (omega (arith, window_bound, i.sent_le, i.recv_valid.small))

  pub send-Inv : Inv (record l {
    writer = after_send l.writer (send_size l.writer);
    wire = l.wire ++ (send_bytes l.writer.sendbuf (send_size l.writer) ∷ []);
  })
  unfolding after_send
  send-Inv =
      let n : ℕ = send_size l.writer in
      let (count, mss, win) = send_size_le l.writer in
      let p : Bytes = send_bytes l.writer.sendbuf n in
      let ep : p ≡ take n (contents l.writer.sendbuf) = send_bytes_lem n i.send_valid count in
      let lp : length p ≡ n =
        ap length ep
        ∙ omega (
          arith,
          length-take n (contents l.writer.sendbuf),
          length-contents i.send_valid,
          count,
        ) in
      let lj : length (joined (l.wire ++ (p ∷ []))) ≡ length (joined l.wire) + n =
        ap length (joined-append l.wire p) ∙ omega (arith, length-append (joined l.wire) p, lp) in
      record {
        send_valid = after_get-IsValid n i.send_valid count;
        recv_valid = i.recv_valid;
        may_send = i.may_send;
        may_receive = i.may_receive;
        mss_le = i.mss_le;
        segments = All-append-one _ l.wire p i.segments (omega (arith, lp, mss, i.mss_le));
        in_order =
            i.in_order
            ∙ ap (λ t. l.returned ++ (contents l.reader.recvbuf ++ t))
                (ap (λ t. joined l.wire ++ t)
                    (sym (take-append-drop n (contents l.writer.sendbuf)) ∙ rw (← ep) refl)
                  ∙ sym (append_assoc (joined l.wire) p (drop n (contents l.writer.sendbuf)))
                  ∙ rw (joined-append l.wire p, contents-after_get n i.send_valid count));
        recvseq_eq = i.recvseq_eq;
        sendseq_eq = omega (arith, lj, i.sendseq_eq);
        granted = i.granted;
        sendwin_eq = i.sendwin_eq;
        sent_le = omega (arith, lj, win, window_left, i.sent_le);
        announced = i.announced;
      }

  joined_head :
      (p : Bytes) (ps : List Bytes)
      → l.wire ≡ p ∷ ps
      → length (joined l.wire) ≡ length p + length (joined ps)
  joined_head p ps e = ap (λ w. length (joined w)) e ∙ length-append p (joined ps)

  -- The packet at the head of the wire fits into the receive buffer.
  deliver_fits :
      (p : Bytes) (ps : List Bytes) → l.wire ≡ p ∷ ps → length p ≤ buf_avail l.reader.recvbuf
  deliver_fits p ps e =
      omega (arith, joined_head p ps e, window_bound, i.sent_le, buf_count-add-avail i.recv_valid)

  deliver_segments :
      (p : Bytes) (ps : List Bytes)
      → l.wire ≡ p ∷ ps
      → (length p ≤ l.reader.recvmss) × All (λ q. length q ≤ l.reader.recvmss) ps
  deliver_segments p ps e = subst (All (λ q. length q ≤ l.reader.recvmss)) e i.segments

  -- It is not refused.
  pub deliver_accepted :
      (p : Bytes) (ps : List Bytes) → l.wire ≡ p ∷ ps → data_refused (length p) l.reader ≡ false
  unfolding data_refused
  deliver_accepted p ps e =
      rw i.may_receive (ground (arith, deliver_fits p ps e, deliver_segments p ps e))

  pub deliver-Inv :
      (p : Bytes) (ps : List Bytes)
      → l.wire ≡ p ∷ ps
      → Inv (record l { wire = ps; reader = receive_data p l.reader })
  unfolding receive_data
  deliver-Inv p ps e =
      let fits = deliver_fits p ps e in
      let (valid, stored, count) = receive_data_lem l.reader p i.recv_valid fits in
      let total = joined_head p ps e in
      record {
        send_valid = i.send_valid;
        recv_valid = valid;
        may_send = i.may_send;
        may_receive = i.may_receive;
        mss_le = i.mss_le;
        segments = (deliver_segments p ps e).1;
        in_order =
            i.in_order
            ∙ ap (λ t. l.returned ++ t)
                (ap (λ w. contents l.reader.recvbuf ++ (joined w ++ contents l.writer.sendbuf)) e
                  ∙ ap (λ t. contents l.reader.recvbuf ++ t)
                      (append_assoc p (joined ps) (contents l.writer.sendbuf))
                  ∙ sym (
                      append_assoc (contents l.reader.recvbuf) p
                        (joined ps ++ contents l.writer.sendbuf))
                  ∙ ap (λ t. t ++ (joined ps ++ contents l.writer.sendbuf)) (sym stored));
        recvseq_eq = i.recvseq_eq;
        sendseq_eq = i.sendseq_eq ∙ ap (λ t. t % 2 ^ 32) (omega (arith, count, total));
        granted = i.granted;
        sendwin_eq = i.sendwin_eq;
        sent_le = omega (arith, count, total, i.sent_le);
        announced = i.announced;
      }

  pub read-Inv :
      (xs : Bytes) (r : Chan)
      → HasRead l.reader xs r
      → Inv (record l { reader = r; returned = l.returned ++ xs })
  read-Inv xs r h =
      let k : ℕ = h.taken in
      let c : Bytes = contents l.reader.recvbuf in
      let lx : length xs ≡ k =
        ap length h.got
        ∙ omega (arith, length-take k c, length-contents i.recv_valid, h.taken_le) in
      let lr = length-append l.returned xs in
      record {
        send_valid = i.send_valid;
        recv_valid = h.valid;
        may_send = i.may_send;
        may_receive = ap can_receive h.state ∙ i.may_receive;
        mss_le = omega (arith, h.mss, i.mss_le);
        segments = subst (λ m. All (λ q. length q ≤ m) l.wire) (sym h.mss) i.segments;
        in_order =
            i.in_order
            ∙ ap (λ t. l.returned ++ (t ++ (joined l.wire ++ contents l.writer.sendbuf)))
                (sym (take-append-drop k c) ∙ ap₂ ◌++◌ (sym h.got) (sym h.rest))
            ∙ ap (λ t. l.returned ++ t)
                (append_assoc xs (contents r.recvbuf) (joined l.wire ++ contents l.writer.sendbuf))
            ∙ sym (
                append_assoc l.returned xs
                  (contents r.recvbuf ++ (joined l.wire ++ contents l.writer.sendbuf)));
        recvseq_eq = h.seq ∙ omega (arith, i.recvseq_eq, lr, lx);
        sendseq_eq = i.sendseq_eq ∙ ap (λ t. t % 2 ^ 32) (omega (arith, lr, lx, h.count));
        granted = i.granted;
        sendwin_eq = i.sendwin_eq;
        sent_le = omega (arith, lr, lx, h.count, i.sent_le);
        announced = Announced-raise i.granted l.updates _ _ (omega (arith, lr, h.size)) i.announced;
      }

  pub write-Inv :
      (xs rest : Bytes) (w : Chan)
      → HasWritten l.writer xs rest w
      → Inv (record l { writer = w; written = l.written ++ take (length xs - length rest) xs })
  write-Inv xs rest w h =
      let new : Bytes = take h.taken xs in
      record {
        send_valid = h.valid;
        recv_valid = i.recv_valid;
        may_send = ap can_send h.state ∙ i.may_send;
        may_receive = i.may_receive;
        mss_le = omega (arith, h.mss, i.mss_le);
        segments = i.segments;
        in_order =
            ap₂ ◌++◌ i.in_order (ap (λ n. take n xs) h.taken_eq)
            ∙ append_assoc l.returned _ new
            ∙ ap (λ t. l.returned ++ t)
                (append_assoc (contents l.reader.recvbuf) _ new
                  ∙ ap (λ t. contents l.reader.recvbuf ++ t)
                      (append_assoc (joined l.wire) (contents l.writer.sendbuf) new
                        ∙ ap (λ t. joined l.wire ++ t) (sym h.stored)));
        recvseq_eq = i.recvseq_eq;
        sendseq_eq = h.seq ∙ i.sendseq_eq;
        granted = i.granted;
        sendwin_eq = h.win ∙ i.sendwin_eq;
        sent_le = i.sent_le;
        announced = i.announced;
      }

  pub announce-Inv : Inv (record l { updates = l.updates ++ (receive_window l.reader ∷ []) })
  announce-Inv = record {
    send_valid = i.send_valid;
    recv_valid = i.recv_valid;
    may_send = i.may_send;
    may_receive = i.may_receive;
    mss_le = i.mss_le;
    segments = i.segments;
    in_order = i.in_order;
    recvseq_eq = i.recvseq_eq;
    sendseq_eq = i.sendseq_eq;
    granted = i.granted;
    sendwin_eq = i.sendwin_eq;
    sent_le = i.sent_le;
    announced =
        Announced-append i.granted l.updates (receive_window l.reader) _
          (omega (arith, i.recvseq_eq)) i.announced;
  }

  pub update-Inv :
      (w : ℕ) (ws : List ℕ)
      → l.updates ≡ w ∷ ws
      → Inv (record l { updates = ws; writer = receive_window_update w l.writer })
  unfolding receive_window_update
  update-Inv w ws e =
      let (a, ew, le, rest) =
        subst (λ us. Announced i.granted us (length l.returned + l.reader.recvbuf.size)) e
          i.announced in
      rw i.may_send (record {
        send_valid = i.send_valid;
        recv_valid = i.recv_valid;
        may_send = i.may_send;
        may_receive = i.may_receive;
        mss_le = i.mss_le;
        segments = i.segments;
        in_order = i.in_order;
        recvseq_eq = i.recvseq_eq;
        sendseq_eq = i.sendseq_eq;
        granted = a;
        sendwin_eq = ew;
        sent_le = omega (arith, le, i.sent_le);
        announced = rest;
      })
