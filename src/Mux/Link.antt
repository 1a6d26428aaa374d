-- ===== src/Mux/Link.antt =====
-- One direction of an open channel, from end to end: the writing end's channel, the data packets on
-- the wire, the reading end's channel, and the window updates on their way back. The operations of
-- the two programs' threads interleave freely as steps.
use csup.Prelude.{ℕ, ◌-◌, ◌≡◌, ◌<◌, false, Bytes, List, [], ◌∷◌, ◌++◌, length, take}
use csup.Prelude.Run.{done}
use csup.Mux.Channel.{Chan, chan_read, read_bytes, chan_write, wrote}
use csup.Mux.Sender.{do_data, send_work, send_size, receive_window}
use csup.Mux.Receiver.{receive_data, data_refused, receive_window_update}

pub record Link : Type 0 where
  pub writer : Chan
  pub wire : List Bytes
  pub reader : Chan
  pub updates : List ℕ
  -- Every byte that chan_write() has taken, and every byte that chan_read() has returned.
  pub written : Bytes
  pub returned : Bytes

-- The bytes of the data packets on the wire.
abbrev pub joined : List Bytes → Bytes
joined [] = []
joined (p ∷ ps) = p ++ joined ps

pub data LinkStep (l : Link) : Link → Type 0 where
  -- chan_write() takes what fits of `xs`; `rest` is left.
  write :
      (xs rest : Bytes) (w : Chan)
      → chan_write l.writer xs ≡ done (wrote w rest)
      → LinkStep l
          (record l { writer = w; written = l.written ++ take (length xs - length rest) xs })
  -- The writing end's sender sends a data packet.
  send :
      0 < send_size l.writer
      → LinkStep l (record l {
        writer = (send_work do_data 0 l.writer).2;
        wire = l.wire ++ ((send_work do_data 0 l.writer).1 ∷ []);
      })
  -- The reading end's receiver takes a data packet that it does not refuse.
  deliver :
      (p : Bytes) (ps : List Bytes)
      → l.wire ≡ p ∷ ps
      → data_refused (length p) l.reader ≡ false
      → LinkStep l (record l { wire = ps; reader = receive_data p l.reader })
  -- chan_read() returns bytes.
  read :
      (n : ℕ) (xs : Bytes) (r : Chan)
      → chan_read l.reader n ≡ done (read_bytes xs r)
      → LinkStep l (record l { reader = r; returned = l.returned ++ xs })
  -- The reading end's sender announces its window.
  announce : LinkStep l (record l { updates = l.updates ++ (receive_window l.reader ∷ []) })
  -- The writing end's receiver takes a window update.
  update :
      (w : ℕ) (ws : List ℕ)
      → l.updates ≡ w ∷ ws
      → LinkStep l (record l { updates = ws; writer = receive_window_update w l.writer })

pub data LinkReach (l : Link) : Link → Type 0 where
  here : LinkReach l l
  then_step : {m n : Link} → LinkReach l m → LinkStep m n → LinkReach l n
