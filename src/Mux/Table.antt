-- ===== src/Mux/Table.antt =====
-- mux.c: chan_insert() and the channel table.
use csup.Prelude.{
  ℕ, zero, suc, ◌+◌, ◌<◌, ◌≡◌, ◌⊎◌, inl, inr, refl, ◌∙◌, ap, arith, true, false, List, [], ◌∷◌,
  length, Option, none, some, get_elem?, get_elem?-set_self, get_elem?_lt,
}
use csup.Mux.Channel.{Chan}
use csup.Mux.State.{Mux, slot, set_chan, empty_slot, chan_insert}

-- Index `i` is the first empty slot of the table.
pub record IsFirstEmpty (slots : List (Option Chan)) (i : ℕ) : Type 0 where
  pub is_empty : get_elem? slots i ≡ some none
  pub taken : (j : ℕ) → j < i → (c : Chan) × (get_elem? slots j ≡ some (some c))

-- Every slot of the table is taken.
abbrev pub IsFull : List (Option Chan) → Type 0
IsFull slots = (j : ℕ) → j < length slots → (c : Chan) × (get_elem? slots j ≡ some (some c))

taken_behind :
    (d : Chan) (slots : List (Option Chan)) (n : ℕ)
    → ((j : ℕ) → j < n → (c : Chan) × (get_elem? slots j ≡ some (some c)))
    → (j : ℕ) → j < suc n
    → (c : Chan) × (get_elem? (some d ∷ slots) j ≡ some (some c))
taken_behind d slots n h zero lt = (d, refl)
taken_behind d slots n h (suc j) lt = h j (omega arith)

empty_slot_lem :
    (slots : List (Option Chan)) (k : ℕ)
    → ((i : ℕ) × (empty_slot slots k ≡ some (k + i)) × IsFirstEmpty slots i)
      ⊎ ((empty_slot slots k ≡ none) × IsFull slots)
unfolding empty_slot
empty_slot_lem [] k = inr (refl, λ j h. absurd (omega arith))
empty_slot_lem (none ∷ slots) k =
    inl (0, ap some (omega arith), record { is_empty = refl; taken = λ j h. absurd (omega arith) })
empty_slot_lem (some c ∷ slots) k = elim (empty_slot_lem slots (k + 1)) [
  | inl (i, e, f) ↦ inl (
    suc i,
    e ∙ ap some (omega arith),
    record { is_empty = f.is_empty; taken = taken_behind c slots i f.taken },
  )
  | inr (e, f) ↦ inr (e, taken_behind c slots (length slots) f)
]

-- chan_insert() puts the channel in the first empty slot, counts it and returns the slot with the
-- multiplexer's lock released; or, if every slot is taken, it changes nothing and returns an error
-- with the lock still held.
pub chan_insert_lem :
    (m : Mux) (chan : Chan)
    → ((i : ℕ) × (m' : Mux) × (chan_insert m chan ≡ (some i, false, m'))
        × IsFirstEmpty m.channels i
        × (slot m' i ≡ some chan)
        × (m'.nchans ≡ m.nchans + 1))
      ⊎ ((chan_insert m chan ≡ (none, true, m)) × IsFull m.channels)
unfolding chan_insert
chan_insert_lem m chan = elim (empty_slot_lem m.channels 0) [
  | inl (i, e, f) ↦
      let first : empty_slot m.channels 0 ≡ some i = e ∙ ap some (omega arith) in
      inl (
        i,
        record (set_chan m i chan) { nchans = m.nchans + 1 },
        rw (chan_insert, first) refl,
        f,
        rw
            (
              slot,
              get_elem?-set_self m.channels i (some chan) (get_elem?_lt m.channels i f.is_empty),
            )
            refl,
        refl,
      )
  | inr (e, f) ↦ inr (rw (chan_insert, e) refl, f)
]
