-- ===== src/Numbers/RoundTrip.antt =====
-- What is printed is read back.
use csup.Prelude.{
  ℕ, zero, suc, ◌+◌, ◌*◌, ◌/◌, ◌%◌, ◌^◌, ◌<◌, ◌≤◌, ◌≡◌, refl, sym, ◌∙◌, ap, arith, true, false,
  ◌||◌, leb, ◌==◌, Bytes, All, [], ◌∷◌, ◌++◌, some, Bool-cases, inl, inr, lt→ltb, ltb, ==_iff,
}
use native.Mathlib.Nat.{div-add-mod', mod-lt}
use csup.Prelude.Int.{ℤ, pos, negsuc, neg}
use csup.Numbers.{
  digit_char, digits_from, print, print_signed, digit_value, scan_digits, skip_spaces, skip_prefix,
  read_sign, starts_digit, read_number, strtoll, strtoul,
}

-- 2 ^ f, by doubling.
abbrev doubled : ℕ → ℕ
doubled zero = 1
doubled (suc f) = doubled f + doubled f

-- Nothing follows, or a character that is no digit and no part of a prefix.
abbrev pub IsStop : Bytes → Type 0
IsStop [] = Unit
IsStop (c ∷ s) = (ltb (digit_value c) 16 || (c == b'x' || c == b'X')) ≡ false

-- The values of long long.
abbrev pub IsInt64 : ℤ → Type 0
IsInt64 (pos n) = n < 2 ^ 63
IsInt64 (negsuc n) = n < 2 ^ 63

digit_value-char : (d : ℕ) → d < 16 → digit_value (digit_char d) ≡ d
digit_value-char d h = ground arith

-- No letter of a prefix.
abbrev IsClean : ℕ → Type 0
IsClean c = (c == b'x' || c == b'X') ≡ false

char-IsClean : (d : ℕ) → d < 16 → IsClean (digit_char d)
char-IsClean d h = ground arith

skip_prefix-clean : (r z x : ℕ) (t : Bytes) → IsClean x → skip_prefix r (z ∷ x ∷ t) ≡ z ∷ x ∷ t
unfolding skip_prefix
skip_prefix-clean r z x [] h = refl
skip_prefix-clean r z x (c ∷ s) h = ground arith

skip_prefix-append :
    (r : ℕ) (p rest : Bytes) → All IsClean p → IsStop rest → skip_prefix r (p ++ rest) ≡ p ++ rest
unfolding skip_prefix
skip_prefix-append r [] [] h k = refl
skip_prefix-append r [] (c ∷ []) h k = refl
skip_prefix-append r [] (c ∷ d ∷ []) h k = refl
skip_prefix-append r [] (c ∷ d ∷ e ∷ s) h k = ground arith
skip_prefix-append r (z ∷ []) [] h k = refl
skip_prefix-append r (z ∷ []) (c ∷ s) h k = skip_prefix-clean r z c s (ground arith)
skip_prefix-append r (z ∷ x ∷ p) rest h k = skip_prefix-clean r z x (p ++ rest) h.1.0

module _ (r : ℕ) (lo : 2 ≤ r) (hi : r ≤ 16) where
  parts : (n : ℕ) → (n / r * r + n % r ≡ n) × (n % r < r) × (n / r * 2 ≤ n)
  parts n =
      let whole = div-add-mod' n r in
      let twice : n / r * 2 ≤ n / r * r = grind arith in
      (whole, mod-lt n (omega arith), omega (arith, twice, whole))

  scan_digit :
      (m d : ℕ) (s : Bytes)
      → d < r
      → scan_digits r m (digit_char d ∷ s) ≡ scan_digits r (m * r + d) s
  unfolding scan_digits
  scan_digit m d s h =
      let e : digit_value (digit_char d) ≡ d = digit_value-char d (omega arith) in
      rw (scan_digits, e, lt→ltb d r h) refl

  scan_digits-digits_from :
      (f n : ℕ) (out : Bytes)
      → n < doubled f
      → scan_digits r 0 (digits_from f r n out) ≡ scan_digits r n out
  unfolding digits_from
  scan_digits-digits_from zero n out h = let e : n ≡ 0 = omega arith in rw e refl
  scan_digits-digits_from (suc f) n out h =
      let (whole, below, half) = parts n in
      elim (Bool-cases (n / r == 0)) [
        | inl z ↦
            let q : n / r ≡ 0 = (==_iff (n / r) 0).0 z in
            let e : 0 * r + n % r ≡ n = omega (arith, whole, ap (λ (t : ℕ). t * r) q) in
            rw (digits_from, z) (scan_digit 0 (n % r) out below ∙ ap (λ m. scan_digits r m out) e)
        | inr nz ↦
            rw (digits_from, nz)
              (scan_digits-digits_from f (n / r) (digit_char (n % r) ∷ out) (omega (arith, half, h))
                ∙ scan_digit (n / r) (n % r) out below
                ∙ ap (λ m. scan_digits r m out) whole)
      ]

  digits_from-append :
      (f n : ℕ) (out rest : Bytes) → digits_from f r n (out ++ rest) ≡ digits_from f r n out ++ rest
  unfolding digits_from
  digits_from-append zero n out rest = refl
  digits_from-append (suc f) n out rest = elim (Bool-cases (n / r == 0)) [
    | inl z ↦ rw (digits_from, z) refl
    | inr nz ↦ rw (digits_from, nz) (digits_from-append f (n / r) (digit_char (n % r) ∷ out) rest)
  ]

  -- The first character printed is a digit.
  data Printed (s : Bytes) : Type 0 where
    printed : (d : ℕ) (t : Bytes) → d < r → s ≡ digit_char d ∷ t → Printed s

  digits_from-Printed :
      (f n d : ℕ) (t : Bytes) → d < r → Printed (digits_from f r n (digit_char d ∷ t))
  unfolding digits_from
  digits_from-Printed zero n d t h = printed d t h refl
  digits_from-Printed (suc f) n d t h = elim (Bool-cases (n / r == 0)) [
    | inl z ↦ rw (digits_from, z) (printed (n % r) (digit_char d ∷ t) (parts n).1 refl)
    | inr nz ↦
        rw (digits_from, nz) (digits_from-Printed f (n / r) (n % r) (digit_char d ∷ t) (parts n).1)
  ]

  digits-Printed : (f n : ℕ) → Printed (digits_from (suc f) r n [])
  unfolding digits_from
  digits-Printed f n = elim (Bool-cases (n / r == 0)) [
    | inl z ↦ rw (digits_from, z) (printed (n % r) [] (parts n).1 refl)
    | inr nz ↦ rw (digits_from, nz) (digits_from-Printed f (n / r) (n % r) [] (parts n).1)
  ]

  print-Printed : (n : ℕ) → Printed (print r n)
  unfolding print
  print-Printed n = digits-Printed 63 n

  scan_digits-stop : (n : ℕ) (rest : Bytes) → IsStop rest → scan_digits r n rest ≡ (n, rest)
  unfolding scan_digits
  scan_digits-stop n [] h = refl
  scan_digits-stop n (c ∷ s) h = ground arith

  scan_digits-print :
      (n : ℕ) (rest : Bytes)
      → n < 2 ^ 64
      → IsStop rest
      → scan_digits r 0 (print r n ++ rest) ≡ (n, rest)
  unfolding print
  scan_digits-print n rest h stop =
      ap (scan_digits r 0) (sym (digits_from-append 64 n [] rest))
      ∙ scan_digits-digits_from 64 n rest (omega (arith, h))
      ∙ scan_digits-stop n rest stop

  digits_from-All :
      (P : ℕ → Type 0) (f n : ℕ) (out : Bytes)
      → ((d : ℕ) → d < 16 → P (digit_char d))
      → All P out
      → All P (digits_from f r n out)
  unfolding digits_from
  digits_from-All P zero n out p h = h
  digits_from-All P (suc f) n out p h =
      let first = p (n % r) (omega (arith, (parts n).1)) in
      elim (Bool-cases (n / r == 0)) [
        | inl z ↦ rw (digits_from, z) (first, h)
        | inr nz ↦
            rw (digits_from, nz)
              (digits_from-All P f (n / r) (digit_char (n % r) ∷ out) p (first, h))
      ]

  -- What holds of every digit holds of all that is printed.
  pub print-All :
      (P : ℕ → Type 0) (n : ℕ) → ((d : ℕ) → d < 16 → P (digit_char d)) → All P (print r n)
  unfolding print
  print-All P n p = digits_from-All P 64 n [] p tt

  print-IsClean : (n : ℕ) → All IsClean (print r n)
  print-IsClean n = print-All IsClean n char-IsClean

  pub print_cons : (n : ℕ) → (c : ℕ) × (t : Bytes) × (print r n ≡ c ∷ t)
  print_cons n = elim (print-Printed n) [ printed d t lt e ↦ (digit_char d, t, e) ]

  read_sign-digit :
      (d : ℕ) (t : Bytes)
      → d < r
      → read_sign (skip_spaces (digit_char d ∷ t)) ≡ (false, digit_char d ∷ t)
  unfolding read_sign skip_spaces
  read_sign-digit d t h = ground arith

  -- A digit first, and no prefix behind it: the number is all that there is.
  pub read_number-print :
      (n : ℕ) (rest : Bytes)
      → n < 2 ^ 64
      → IsStop rest
      → read_number r (print r n ++ rest) ≡ some (false, n, rest)
  unfolding read_number
  read_number-print n rest h stop =
      let number = scan_digits-print n rest h stop in
      let prefix = skip_prefix-append r (print r n) rest (print-IsClean n) stop in
      elim (print-Printed n) [
        | printed d t lt e ↦
            let sign : read_sign (skip_spaces (print r n ++ rest)) ≡ (false, print r n ++ rest) =
              rw e (read_sign-digit d (t ++ rest) lt) in
            let digit : starts_digit r (print r n ++ rest) ≡ true =
              rw (e, digit_value-char d (omega arith)) (lt→ltb d r lt) in
            rw (read_number, sign, prefix, digit, number) refl
      ]

  pub strtoll-print :
      (n : ℕ) (rest : Bytes)
      → n < 2 ^ 63
      → IsStop rest
      → strtoll r (print r n ++ rest) ≡ some (pos n, rest)
  unfolding strtoll
  strtoll-print n rest h stop =
      let number = read_number-print n rest (omega (arith, h)) stop in
      let small : leb (2 ^ 63) n ≡ false = ground arith in rw (strtoll, number, small) refl

  pub strtoul-print :
      (n : ℕ) (rest : Bytes)
      → n < 2 ^ 64
      → IsStop rest
      → strtoul r (print r n ++ rest) ≡ some (n, rest)
  unfolding strtoul
  strtoul-print n rest h stop =
      let number = read_number-print n rest h stop in
      let small : leb (2 ^ 64) n ≡ false = ground arith in rw (strtoul, number, small) refl

  read_number-minus :
      (n : ℕ) (rest : Bytes)
      → n < 2 ^ 64
      → IsStop rest
      → read_number r (b'-' ∷ (print r n ++ rest)) ≡ some (true, n, rest)
  unfolding read_number
  read_number-minus n rest h stop =
      let number = scan_digits-print n rest h stop in
      let prefix = skip_prefix-append r (print r n) rest (print-IsClean n) stop in
      elim (print-Printed n) [
        | printed d t lt e ↦
            let digit : starts_digit r (print r n ++ rest) ≡ true =
              rw (e, digit_value-char d (omega arith)) (lt→ltb d r lt) in
            rw (read_number, prefix, digit, number) refl
      ]

  pub strtoll-print_signed :
      (v : ℤ) (rest : Bytes)
      → IsInt64 v
      → IsStop rest
      → strtoll r (print_signed r v ++ rest) ≡ some (v, rest)
  unfolding print_signed strtoll
  strtoll-print_signed (pos n) rest h stop = strtoll-print n rest h stop
  strtoll-print_signed (negsuc n) rest h stop =
      let number = read_number-minus (n + 1) rest (omega (arith, h)) stop in
      let small : ltb (2 ^ 63) (n + 1) ≡ false = ground arith in
      let value : neg (pos (n + 1)) ≡ negsuc n = ground arith in
      rw (strtoll, number, small, value) refl
