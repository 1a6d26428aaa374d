-- ===== src/Stream/Prepared.antt =====
-- stream.c: room is made in the read buffer, and it is filled.
use csup.Prelude.{
  ℕ, zero, suc, ◌+◌, ◌-◌, ◌*◌, ◌^◌, ◌<◌, ◌≡◌, refl, sym, ◌∙◌, ap, ap₂, arith, true, false, ltb,
  lt→ltb, ◌==◌, ==_iff, Bool-cases, inl, inr, ◌∷◌,
}
use csup.Prelude.Run.{done}
use csup.Mux.Word.{add_size}
use csup.Stream.{Buf, Cells, buf_avail, contents, read, moved, next_size, buf_grow, buf_prewrite}
use csup.Stream.Taken.{IsOk, avail_lem}

-- A buffer that has room, with the same bytes in it.
pub record Prepared (b : Buf) : Type 0 where
  pub prepared : Buf
  pub result : buf_prewrite b ≡ done prepared
  pub ok : IsOk prepared
  pub same : contents prepared ≡ contents b
  pub used : prepared.used ≡ b.used
  pub room : 0 < prepared.size - prepared.off - prepared.used

read-same :
    (a b : Cells) (at at' n : ℕ)
    → ((i : ℕ) → i < n → a (at + i) ≡ b (at' + i))
    → read a at n ≡ read b at' n
read-same a b at at' zero h = refl
read-same a b at at' (suc n) h =
    let e1 : at ≡ at + 0 = omega arith in
    let e2 : at' ≡ at' + 0 = omega arith in
    let first : a at ≡ b at' = ap a e1 ∙ h 0 (omega arith) ∙ sym (ap b e2) in
    ap₂ ◌∷◌ first (
      read-same a b (at + 1) (at' + 1) n (λ i lt.
        let s1 : at + 1 + i ≡ at + suc i = omega arith in
        let s2 : at' + 1 + i ≡ at' + suc i = omega arith in
        ap a s1 ∙ h (suc i) (omega arith) ∙ sym (ap b s2)))

read-moved : (b : Buf) → read (moved b) 0 b.used ≡ read b.cells b.off b.used
read-moved b = read-same (moved b) b.cells 0 b.off b.used (λ i lt.
    let e : 0 + i ≡ i = omega arith in
    let inside : ltb i b.used ≡ true = lt→ltb i b.used lt in ap (moved b) e ∙ rw inside refl)

pos_not_zero : (n : ℕ) → 0 < n → (n == 0) ≡ false
pos_not_zero n h = ground arith

part_full : (b : Buf) → IsOk b → (b.used == b.size) ≡ false → b.used < b.size
part_full b ok h = let f = ok.fits in ground arith

avail_pos : (b : Buf) → IsOk b → (buf_avail b == 0) ≡ false → 0 < b.size - b.off - b.used
avail_pos b ok h =
    let e = avail_lem b ok in
    let h' : (b.size - b.off - b.used == 0) ≡ false = rw (← e) h in ground arith

pub buf_prewrite_lem : (b : Buf) → IsOk b → 0 < b.size → b.used < 2 ^ 62 → Prepared b
unfolding buf_prewrite buf_grow
buf_prewrite_lem b ok size small =
    let fits = ok.fits in
    let bound = ok.bound in
    let start = ok.start in
    elim (Bool-cases (b.used == b.size)) [
      | inl full ↦
          let f : b.used ≡ b.size = (==_iff _ _).0 full in
          let off : b.off ≡ 0 = omega (arith, fits, f) in
          let grown : next_size b.size ≡ b.size * 2 + 1 = omega (arith, f, small) in
          let spare : (add_size (b.size * 2 + 1) 1 == 0) ≡ false =
            let e : add_size (b.size * 2 + 1) 1 ≡ suc (b.size * 2 + 1) = omega (arith, f, small) in
            rw e (pos_not_zero _ (omega arith)) in
          let some_in : ltb 0 b.used ≡ true = lt→ltb 0 b.used (omega (arith, f, size)) in
          let b' : Buf = record b { size = b.size * 2 + 1 } in
          let ok' : IsOk b' = record {
            fits = omega (arith, fits);
            bound = omega (arith, f, small);
            start = start;
          } in
          let free : (buf_avail b' == 0) ≡ false =
            let e = avail_lem b' ok' in rw e (pos_not_zero _ (omega (arith, f, size, off))) in
          record {
            prepared = b';
            result = rw (buf_prewrite, full, buf_grow, grown, spare, some_in, free) refl;
            ok = ok';
            same = refl;
            used = refl;
            room = omega (arith, f, size, off);
          }
      | inr part ↦
          let f : b.used < b.size = part_full b ok part in
          let e = avail_lem b ok in
          elim (Bool-cases (ltb 0 b.used)) [
            | inl some_in ↦ elim (Bool-cases (buf_avail b == 0)) [
              | inl no_room ↦ record {
                prepared = record b { cells = moved b; off = 0 };
                result = rw (buf_prewrite, part, some_in, no_room) refl;
                ok = record { fits = omega (arith, f); bound = bound; start = λ z. refl };
                same = read-moved b;
                used = refl;
                room = omega (arith, f);
              }
              | inr free ↦ record {
                prepared = b;
                result = rw (buf_prewrite, part, some_in, free) refl;
                ok = ok;
                same = refl;
                used = refl;
                room = avail_pos b ok free;
              }
            ]
            | inr none_in ↦
                let z : b.used ≡ 0 = ground arith in
                let off = start z in
                record {
                  prepared = b;
                  result = rw (buf_prewrite, part, none_in) refl;
                  ok = ok;
                  same = refl;
                  used = refl;
                  room = omega (arith, z, off, size);
                }
          ]
    ]
