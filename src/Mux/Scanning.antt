-- ===== src/Mux/Scanning.antt =====
-- mux.c: sender_scan() ends, overlooks no channel, and takes turns.
use csup.Prelude.{
  ℕ, zero, suc, ◌+◌, ◌-◌, ◌<◌, ◌≡◌, inl, inr, refl, sym, subst, ap, ◌∙◌, arith, Bool-cases, ◌==◌,
  ==_iff, true, false, leb, Option, some, none, Option-cases, if◌then◌else◌,
}
use csup.Prelude.Run.{Run, done}
use csup.Mux.Channel.{Chan}
use csup.Mux.State.{Mux, slot, set_chan}
use csup.Mux.Sender.{Scan, Work, scan_chan, next_id, no_work, found, scan_from, sender_scan}

-- Every slot below `nchans` holds a channel, and the last channel served is one of them.
pub record IsScannable (m : Mux) : Type 0 where
  pub present : (i : ℕ) → i < m.nchans → (c : Chan) × (slot m i ≡ some c)
  pub last_lt : m.sender_lastid < m.nchans

-- The channel that the scan comes to after `k` others.
abbrev pub turn : Mux → ℕ → ℕ
turn m k =
    if leb m.nchans (m.sender_lastid + 1 + k)
    then m.sender_lastid + 1 + k - m.nchans
    else m.sender_lastid + 1 + k

-- Channel `i` has nothing to send.
abbrev pub IsIdle : Mux → ℕ → Type 0
IsIdle m i = (c : Chan) → slot m i ≡ some c → scan_chan c ≡ none

-- What a scan may answer: no channel has anything to send, or the first one in turn that has.
pub data Answer (m : Mux) (answer : Run Scan) : Type 0 where
  nothing_to_do : answer ≡ done no_work → ((i : ℕ) → i < m.nchans → IsIdle m i) → Answer m answer
  work_found :
      (k : ℕ) (what : Work) (c c' : Chan)
      → k < m.nchans
      → ((j : ℕ) → j < k → IsIdle m (turn m j))
      → slot m (turn m k) ≡ some c
      → scan_chan c ≡ some (what, c')
      → answer
        ≡ done (
            found
              (turn m k)
              what
              c'
              (record (set_chan m (turn m k) c') { sender_lastid = turn m k }))
      → Answer m answer

from_slot : Chan → Option Chan → Chan
from_slot c none = c
from_slot c (some d) = d

module _ (m : Mux) (s : IsScannable m) where
  turn_lt : (k : ℕ) → k < m.nchans → turn m k < m.nchans
  turn_lt k lt = ground (arith, s.last_lt)

  -- Which turn channel `i` has.
  turn_of : (i : ℕ) → i < m.nchans → (j : ℕ) × (j < m.nchans) × (turn m j ≡ i)
  turn_of i lt = elim (Bool-cases (leb i m.sender_lastid)) [
    | inl le ↦
        (i + m.nchans - m.sender_lastid - 1, ground (arith, s.last_lt), ground (arith, s.last_lt))
    | inr gt ↦ (i - m.sender_lastid - 1, ground (arith, s.last_lt), ground (arith, s.last_lt))
  ]

  next_turn : (k : ℕ) → k + 1 < m.nchans → next_id m (turn m k) ≡ turn m (k + 1)
  next_turn k lt = ground (arith, s.last_lt)

  last_turn : (k : ℕ) → k + 1 ≡ m.nchans → (turn m k == m.sender_lastid) ≡ true
  last_turn k e = ground (arith, s.last_lt)

  before_last : (k : ℕ) → k + 1 < m.nchans → (turn m k == m.sender_lastid) ≡ false
  before_last k lt = ground (arith, s.last_lt)

  IsIdle-next :
      (k : ℕ)
      → ((j : ℕ) → j < k → IsIdle m (turn m j))
      → IsIdle m (turn m k)
      → (j : ℕ) → j < k + 1
      → IsIdle m (turn m j)
  IsIdle-next k before idle j lt = elim (Bool-cases (j == k)) [
    | inl e ↦ subst (λ i. IsIdle m (turn m i)) (sym ((==_iff j k).0 e)) idle
    | inr ne ↦ before j (ground arith)
  ]

  slot-IsIdle : (i : ℕ) (c : Chan) → slot m i ≡ some c → scan_chan c ≡ none → IsIdle m i
  slot-IsIdle i c here none_here d there =
      unfold from_slot in
      subst (λ o. scan_chan o ≡ none) (ap (from_slot c) (sym here ∙ there)) none_here

  scan_stops :
      (f id : ℕ) (c : Chan)
      → slot m (next_id m id) ≡ some c
      → scan_chan c ≡ none
      → (next_id m id == m.sender_lastid) ≡ true
      → scan_from (suc f) m id ≡ done no_work
  unfolding scan_from
  scan_stops f id c here none_here last = rw (scan_from, here, none_here, last) refl

  scan_finds :
      (f id : ℕ) (what : Work) (c c' : Chan)
      → slot m (next_id m id) ≡ some c
      → scan_chan c ≡ some (what, c')
      → scan_from (suc f) m id
        ≡ done (
            found
              (next_id m id)
              what
              c'
              (record (set_chan m (next_id m id) c') { sender_lastid = next_id m id }))
  unfolding scan_from
  scan_finds f id what c c' here w = rw (scan_from, here, w) refl

  scan_goes_on :
      (f id : ℕ) (c : Chan)
      → slot m (next_id m id) ≡ some c
      → scan_chan c ≡ none
      → (next_id m id == m.sender_lastid) ≡ false
      → scan_from (suc f) m id ≡ scan_from f m (next_id m id)
  unfolding scan_from
  scan_goes_on f id c here none_here more = rw (scan_from, here, none_here, more) refl

  scan_from-Answer :
      (f k id : ℕ)
      → f + k ≡ m.nchans
      → k < m.nchans
      → next_id m id ≡ turn m k
      → ((j : ℕ) → j < k → IsIdle m (turn m j))
      → Answer m (scan_from f m id)
  unfolding scan_from
  scan_from-Answer zero k id e lt at before = absurd (omega arith)
  scan_from-Answer (suc f) k id e lt at before =
      let (c, here) = s.present (turn m k) (turn_lt k lt) in
      elim (Option-cases (scan_chan c)) [
        | inr ((what, c'), w) ↦ work_found k what c c' lt before here w (
            subst
              (λ i.
                scan_from (suc f) m id
                ≡ done (found i what c' (record (set_chan m i c') { sender_lastid = i })))
              at (scan_finds f id what c c' (rw at here) w))
        | inl none_here ↦
            let idle : IsIdle m (turn m k) = slot-IsIdle (turn m k) c here none_here in
            elim (Bool-cases (leb m.nchans (k + 1))) [
              | inl last ↦
                  nothing_to_do
                    (scan_stops f id c (rw at here) none_here (rw at (last_turn k (ground arith))))
                    (λ i li.
                      let (j, lj, ej) = turn_of i li in
                      subst (IsIdle m) ej (IsIdle-next k before idle j (ground arith)))
              | inr more ↦
                  rw
                    (
                      scan_goes_on f id c (rw at here) none_here
                          (rw at (before_last k (ground arith))),
                      at,
                    )
                    (scan_from-Answer f (k + 1) (turn m k) (omega arith) (ground arith)
                      (next_turn k (ground arith)) (IsIdle-next k before idle))
            ]
      ]

  -- If every slot below `nchans` holds a channel and the last one served is among them, the scan
  -- ends without a failure: either it answers that there is no work, and no channel has anything
  -- to send; or it answers with the first channel in turn, after the last one served, that has,
  -- and all channels before it in turn have nothing to send.
  pub sender_scan_lem : Answer m (sender_scan m)
  unfolding sender_scan
  sender_scan_lem =
      let some_chans : leb m.nchans 0 ≡ false = ground (arith, s.last_lt) in
      rw some_chans (
        scan_from-Answer m.nchans 0 m.sender_lastid (omega arith) (omega (arith, s.last_lt))
          (ground (arith, s.last_lt)) (λ j lt. elim lt [ ]))
