-- ===== src/Stream/Taken.antt =====
-- Bytes that are taken from the front of a buffer of stream.c.
use csup.Prelude.{
  ℕ, ◌+◌, ◌-◌, ◌^◌, ◌<◌, ◌≤◌, ◌≡◌, refl, sym, ◌∙◌, ap, ap₂, arith, le→leb, ◌==◌, ==_iff, Bool-cases,
  ◌⊎◌, inl, inr, [], ◌++◌, take, take-append_le, take_all,
}
use csup.Prelude.Run.{done}
use csup.Mux.Word.{add_size, sub_size}
use csup.Stream.{Buf, buf_avail, contents, buf_less, read}
use csup.Stream.Memory.{length-read, read_add}

-- The bytes in the buffer lie in it, and an empty buffer starts at its beginning.
pub record IsOk (b : Buf) : Type 0 where
  pub fits : b.off + b.used ≤ b.size
  pub bound : b.size < 2 ^ 64
  pub start : b.used ≡ 0 → b.off ≡ 0

pub avail_lem : (b : Buf) → IsOk b → buf_avail b ≡ b.size - b.off - b.used
avail_lem b ok = let f = ok.fits in let k = ok.bound in omega (arith, f, k)

-- Bytes that are taken from the front.
pub record Less (b : Buf) (n : ℕ) : Type 0 where
  pub rest : Buf
  pub result : buf_less b n ≡ done rest
  pub ok : IsOk rest
  pub split : take n (contents b) ++ contents rest ≡ contents b
  pub same_size : rest.size ≡ b.size
  pub fewer : rest.used ≡ b.used - n
  pub cells : rest.cells ≡ b.cells
  pub place : (rest.used ≡ 0) ⊎ (rest.off ≡ b.off + n)

pub buf_less_lem : (b : Buf) (n : ℕ) → IsOk b → n ≤ b.used → Less b n
unfolding buf_less
buf_less_lem b n ok h =
    let f = ok.fits in
    let k = ok.bound in
    let enough = le→leb n b.used h in
    let left : sub_size b.used n ≡ b.used - n = omega (arith, f, k, h) in
    let off : add_size b.off n ≡ b.off + n = omega (arith, f, k, h) in
    let parts : contents b ≡ read b.cells b.off n ++ read b.cells (b.off + n) (b.used - n) =
      let e : b.used ≡ n + (b.used - n) = omega (arith, h) in
      ap (read b.cells b.off) e ∙ read_add b.cells b.off n (b.used - n) in
    let front : take n (contents b) ≡ read b.cells b.off n =
      let len = length-read b.cells b.off n in
      ap (take n) parts
      ∙ take-append_le n (read b.cells b.off n) _ (omega (arith, len))
      ∙ take_all n (read b.cells b.off n) (omega (arith, len)) in
    elim (Bool-cases (b.used - n == 0)) [
      | inl y ↦
          let z : b.used - n ≡ 0 = (==_iff _ _).0 y in
          record {
            rest = record b { used = b.used - n; off = 0 };
            result = rw (buf_less, enough, left, y) refl;
            ok = record { fits = omega (arith, f, z); bound = k; start = λ e. refl };
            split =
                let no_more : (o : ℕ) → read b.cells o (b.used - n) ≡ [] = λ o. rw z refl in
                ap₂ ◌++◌ front (no_more 0 ∙ sym (no_more (b.off + n))) ∙ sym parts;
            same_size = refl;
            fewer = refl;
            cells = refl;
            place = inl z;
          }
      | inr y ↦ record {
        rest = record b { used = b.used - n; off = b.off + n };
        result = rw (buf_less, enough, left, y, off) refl;
        ok = record { fits = omega (arith, f, h); bound = k; start = λ e. absurd (ground arith) };
        split = ap (λ s. s ++ read b.cells (b.off + n) (b.used - n)) front ∙ sym parts;
        same_size = refl;
        fewer = refl;
        cells = refl;
        place = inr refl;
      }
    ]
