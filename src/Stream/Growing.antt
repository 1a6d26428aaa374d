-- ===== src/Stream/Growing.antt =====
-- The sizes of the buffers of stream.c.
use csup.Prelude.{
  ℕ, zero, suc, ◌+◌, ◌*◌, ◌^◌, ◌<◌, ◌≤◌, ◌≡◌, refl, subst, arith, false, ltb, ltb→lt, lt→ltb, ◌==◌,
  Bool-cases, inl, inr,
}
use csup.Prelude.Run.{Run, done}
use csup.Mux.Word.{add_size}
use csup.Stream.{Buf, next_size, grow_loop, buf_grow}

abbrev pow2 : ℕ → ℕ
pow2 zero = 1
pow2 (suc g) = pow2 g + pow2 g

next_size_lem : (size need : ℕ) → size < need → need ≤ 2 ^ 63 → next_size size ≡ size * 2 + 1
next_size_lem size need h k = omega arith

-- What the loop leaves: a size that is enough, and less than twice what is needed.
pub record Grown (size need : ℕ) (r : Run ℕ) : Type 0 where
  pub grown : ℕ
  pub result : r ≡ done grown
  pub enough : need ≤ grown
  pub below : grown < 2 * need

-- `g` doublings have been made, and `f` rounds are left.
grow_loop_lem :
    (f g size need : ℕ)
    → g + f ≡ 65
    → pow2 g ≤ size + 1
    → size < 2 * need
    → need ≤ 2 ^ 63
    → Grown size need (grow_loop f size need)
unfolding grow_loop
grow_loop_lem zero g size need h p k l =
    let e : g ≡ 65 = omega arith in
    let q : pow2 65 ≤ size + 1 = subst (λ i. pow2 i ≤ size + 1) e p in
    absurd (omega (arith, q, k, l))
grow_loop_lem (suc f) g size need h p k l = elim (Bool-cases (ltb size need)) [
  | inl y ↦
      let lt = ltb→lt size need y in
      let e = next_size_lem size need lt l in
      let rest =
        grow_loop_lem f (suc g) (next_size size) need (omega (arith, h)) (rw e (omega (arith, p)))
          (rw e (omega (arith, lt))) l in
      record {
        grown = rest.grown;
        result = rw (grow_loop, y) rest.result;
        enough = rest.enough;
        below = rest.below;
      }
  | inr n ↦
      let ge : need ≤ size = ground arith in
      record { grown = size; result = rw (grow_loop, n) refl; enough = ge; below = k }
]

-- If more is needed than the buffer has, and fewer than 2^63 bytes, buf_grow() ends within its fuel,
-- no assertion fails and no size wraps, nor does the size that it allocates, which is one more: the
-- new size is enough and less than twice what is needed, and nothing but the size changes.
pub buf_grow-bounds :
    (b : Buf) (need : ℕ)
    → b.size < need
    → need < 2 ^ 63
    → (n : ℕ) × (buf_grow b need ≡ done (record b { size = n })) × (need ≤ n) × (n < 2 * need)
unfolding buf_grow
buf_grow-bounds b need h k =
    let nonzero : (need == 0) ≡ false = ground arith in
    let more = lt→ltb b.size need h in
    let g =
      grow_loop_lem 65 0 b.size need refl (omega arith) (omega (arith, h)) (omega (arith, k)) in
    let below = g.below in
    let spare : (add_size g.grown 1 == 0) ≡ false =
      let e : add_size g.grown 1 ≡ suc g.grown = omega (arith, below, k) in ground (arith, e) in
    (g.grown, rw (buf_grow, nonzero, more, g.result, spare) refl, g.enough, g.below)
