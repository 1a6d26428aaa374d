-- ===== src/Fattr/Text/Fields.antt =====
-- The pieces of fattr_encode() and how fattr_scanattr() takes one of them.
use csup.Prelude.{
  ℕ, zero, suc, ◌+◌, ◌*◌, ◌/◌, ◌%◌, ◌^◌, ◌<◌, ◌≤◌, ◌≡◌, refl, ◌∙◌, ap, arith, true, false, ltb,
  ◌==◌, Bytes, [], ◌∷◌, ◌++◌, length, take, drop, some, Bool-cases, inl, inr, append_assoc,
  length-append, take_all, take-append_le, drop-append_le, drop_all,
}
use csup.Prelude.Run.{done}
use csup.Numbers.{print, digits_from, digit_char, print_signed}
use csup.Numbers.RoundTrip.{strtoul-print}
use csup.Prelude.Int.{ℤ, pos, negsuc}
use csup.Fattr.Text.{piece, scan_field}

-- At most one more digit in each round.
length-digits_from : (f r n : ℕ) (out : Bytes) → length (digits_from f r n out) ≤ f + length out
unfolding digits_from
length-digits_from zero r n out = omega arith
length-digits_from (suc f) r n out = elim (Bool-cases (n / r == 0)) [
  | inl z ↦ rw (digits_from, z) (omega arith)
  | inr nz ↦
      let rest = length-digits_from f r (n / r) (digit_char (n % r) ∷ out) in
      rw (digits_from, nz) (omega (arith, rest))
]

pub length-print : (r n : ℕ) → length (print r n) ≤ 64
unfolding print
length-print r n = length-digits_from 64 r n []

pub length-print_signed : (r : ℕ) (v : ℤ) → length (print_signed r v) ≤ 65
unfolding print_signed
length-print_signed r (pos n) = let b = length-print r n in omega (arith, b)
length-print_signed r (negsuc n) = let b = length-print r (n + 1) in omega (arith, b)

-- 10 ^ k
abbrev tens : ℕ → ℕ
tens zero = 1
tens (suc k) = 10 * tens k

-- A number below 10 ^ (k + 1) has at most k + 1 digits.
length-decimal :
    (f k n : ℕ) (out : Bytes)
    → n < 10 * tens k
    → length (digits_from f 10 n out) ≤ suc k + length out
unfolding digits_from
length-decimal zero k n out h = omega arith
length-decimal (suc f) zero n out h =
    let z : (n / 10 == 0) ≡ true = ground arith in rw (digits_from, z) (omega arith)
length-decimal (suc f) (suc k) n out h = elim (Bool-cases (n / 10 == 0)) [
  | inl z ↦ rw (digits_from, z) (omega arith)
  | inr nz ↦
      let rest = length-decimal f k (n / 10) (digit_char (n % 10) ∷ out) (omega (arith, h)) in
      rw (digits_from, nz) (omega (arith, rest))
]

pub take-print : (n : ℕ) → n < 1000 → take 3 (print 10 n) ≡ print 10 n
unfolding print
take-print n h = take_all 3 (print 10 n) (length-decimal 64 2 n [] (omega (arith, h)))

-- The field behind a length that the text has room for.
scan_field-length :
    (n : ℕ) (body : Bytes)
    → n < 2 ^ 64
    → n ≤ length body
    → scan_field (print 10 n ++ (b'#' ∷ body)) ≡ done (some (take n body, drop n body))
unfolding scan_field
scan_field-length n body h k =
    let number = strtoul-print 10 (omega arith) (omega arith) n (b'#' ∷ body) h refl in
    let small : ltb (length body) n ≡ false = ground arith in rw (scan_field, number, small) refl

-- A piece of less than 1000 bytes is taken as it was put.
pub scan_field-piece :
    (s rest : Bytes) → length s < 1000 → scan_field (piece s ++ rest) ≡ done (some (s, rest))
unfolding piece
scan_field-piece s rest h =
    let len : length s ≤ length (s ++ rest) = rw (length-append s rest) (omega arith) in
    let front : take (length s) (s ++ rest) ≡ s =
      take-append_le (length s) s rest (omega arith) ∙ take_all (length s) s (omega arith) in
    let back : drop (length s) (s ++ rest) ≡ rest =
      drop-append_le (length s) s rest (omega arith)
      ∙ ap (λ t. t ++ rest) (drop_all (length s) s (omega arith)) in
    rw (piece, take-print (length s) h, append_assoc (print 10 (length s)) (b'#' ∷ s) rest)
      (scan_field-length (length s) (s ++ rest) (omega arith) len ∙ rw (front, back) refl)
