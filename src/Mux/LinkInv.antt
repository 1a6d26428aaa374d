-- ===== src/Mux/LinkInv.antt =====
-- What holds of an open channel's two ends and of what is on the wire between them.
use csup.Prelude.{
  ℕ, ◌+◌, ◌%◌, ◌^◌, ◌≡◌, ◌≤◌, arith, true, Bytes, All, List, [], ◌∷◌, ◌++◌, length, ◌∙◌, ap,
  append_assoc, append-nil, sym,
}
use csup.Mux.Buffer.{buf_count}
use csup.Mux.BufferCells.{IsValid, contents}
use csup.Mux.Channel.{can_send, can_receive}
use csup.Mux.Link.{Link, joined}

-- The window updates on the wire announce totals that do not fall, from `low` up to `high`.
abbrev pub Announced : ℕ → List ℕ → ℕ → Type 0
Announced low [] high = low ≤ high
Announced low (w ∷ ws) high = (a : ℕ) × (w ≡ a % 2 ^ 32) × (low ≤ a) × Announced a ws high

-- The number of bytes that have been sent so far.
abbrev pub sent : Link → ℕ
sent l = length l.returned + (buf_count l.reader.recvbuf + length (joined l.wire))

pub record Inv (l : Link) : Type 0 where
  pub send_valid : IsValid l.writer.sendbuf
  pub recv_valid : IsValid l.reader.recvbuf
  pub may_send : can_send l.writer.state ≡ true
  pub may_receive : can_receive l.reader.state ≡ true
  pub mss_le : l.writer.sendmss ≤ l.reader.recvmss
  pub segments : All (λ p. length p ≤ l.reader.recvmss) l.wire
  -- No byte is lost, doubled or out of order.
  pub in_order :
      l.written
      ≡ l.returned ++ (contents l.reader.recvbuf ++ (joined l.wire ++ contents l.writer.sendbuf))
  pub recvseq_eq : l.reader.recvseq ≡ length l.returned % 2 ^ 32
  pub sendseq_eq : l.writer.sendseq ≡ sent l % 2 ^ 32
  -- The window that the writing end knows of, as a total.
  pub granted : ℕ
  pub sendwin_eq : l.writer.sendwin ≡ granted % 2 ^ 32
  pub sent_le : sent l ≤ granted
  pub announced : Announced granted l.updates (length l.returned + l.reader.recvbuf.size)

pub Announced-le : (low : ℕ) (ws : List ℕ) (high : ℕ) → Announced low ws high → low ≤ high
Announced-le low [] high h = h
Announced-le low (w ∷ ws) high (a, e, le, h) = omega (arith, Announced-le a ws high h)

pub Announced-raise :
    (low : ℕ) (ws : List ℕ) (high high' : ℕ)
    → high ≤ high'
    → Announced low ws high
    → Announced low ws high'
Announced-raise low [] high high' le h = omega arith
Announced-raise low (w ∷ ws) high high' le (a, e, le', h) =
    (a, e, le', Announced-raise a ws high high' le h)

pub Announced-append :
    (low : ℕ) (ws : List ℕ) (w high : ℕ)
    → w ≡ high % 2 ^ 32
    → Announced low ws high
    → Announced low (ws ++ (w ∷ [])) high
Announced-append low [] w high e h = (high, e, h, omega arith)
Announced-append low (v ∷ ws) w high e (a, e', le, h) =
    (a, e', le, Announced-append a ws w high e h)

pub joined-append : (ps : List Bytes) (p : Bytes) → joined (ps ++ (p ∷ [])) ≡ joined ps ++ p
joined-append [] p = append-nil p
joined-append (q ∷ ps) p =
    ap (λ t. q ++ t) (joined-append ps p) ∙ sym (append_assoc q (joined ps) p)

pub All-append-one :
    (P : Bytes → Type 0) (ps : List Bytes) (p : Bytes) → All P ps → P p → All P (ps ++ (p ∷ []))
All-append-one P [] p h k = (k, tt)
All-append-one P (q ∷ ps) p h k = (h.0, All-append-one P ps p h.1 k)
