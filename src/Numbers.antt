-- ===== src/Numbers.antt =====
-- The conversions of the C library between numbers and text that the program uses: "%d", "%x" and
-- "%o" of printf(), strtol(), strtoll() and strtoul(), where long has 64 bits.
pub mod RoundTrip
use csup.Prelude.{
  ℕ, zero, suc, ◌+◌, ◌-◌, ◌*◌, ◌/◌, ◌%◌, ◌^◌, Bool, true, false, ◌&&◌, ◌||◌, ltb, leb, ◌==◌,
  if◌then◌else◌, Bytes, [], ◌∷◌, Option, none, some,
}
use csup.Prelude.Int.{ℤ, pos, negsuc, neg}

abbrev pub digit_char : ℕ → ℕ
digit_char d = if ltb d 10 then b'0' + d else b'a' + (d - 10)

-- The digits of `n` before `out`, on fuel: each round divides by the radix.
unfoldable pub digits_from : ℕ → ℕ → ℕ → Bytes → Bytes
digits_from zero r n out = out
digits_from (suc f) r n out =
    let more = digits_from f r (n / r) (digit_char (n % r) ∷ out) in
    if n / r == 0 then digit_char (n % r) ∷ out else more

-- A number of up to 64 bits has at most 64 digits in any radix.
unfoldable pub print : ℕ → ℕ → Bytes
unfolding digits_from
print r n = digits_from 64 r n []

-- "%lld" and the like: a minus sign for a negative number.
unfoldable pub print_signed : ℕ → ℤ → Bytes
unfolding print
print_signed r (pos n) = print r n
print_signed r (negsuc n) = b'-' ∷ print r (n + 1)

-- What a character stands for as a digit, in any radix up to 36.
abbrev pub digit_value : ℕ → ℕ
digit_value c =
    if leb b'0' c && leb c b'9'
    then c - b'0'
    else if leb b'a' c && leb c b'z'
    then c - b'a' + 10
    else if leb b'A' c && leb c b'Z'
    then c - b'A' + 10
    else 36

-- The digits that stand first, behind those that gave `n`, and what follows them.
unfoldable pub scan_digits : ℕ → ℕ → Bytes → ℕ × Bytes
scan_digits r n [] = (n, [])
scan_digits r n (c ∷ s) =
    let rest = scan_digits r (n * r + digit_value c) s in
    if ltb (digit_value c) r then rest else (n, c ∷ s)

abbrev pub is_space : ℕ → Bool
is_space c = c == 32 || (leb 9 c && leb c 13)

unfoldable pub skip_spaces : Bytes → Bytes
skip_spaces [] = []
skip_spaces (c ∷ s) = let rest = skip_spaces s in if is_space c then rest else c ∷ s

-- "0x" before a hexadecimal digit is skipped in radix 16.
unfoldable pub skip_prefix : ℕ → Bytes → Bytes
skip_prefix r (z ∷ x ∷ c ∷ s) =
    if r == 16 && (z == b'0' && ((x == b'x' || x == b'X') && ltb (digit_value c) 16))
    then c ∷ s
    else z ∷ x ∷ c ∷ s
skip_prefix r s = s

-- A sign: whether it is a minus, and what follows it.
unfoldable pub read_sign : Bytes → Bool × Bytes
read_sign [] = (false, [])
read_sign (c ∷ s) =
    if c == b'-' then (true, s) else if c == b'+' then (false, s) else (false, c ∷ s)

abbrev pub starts_digit : ℕ → Bytes → Bool
starts_digit r [] = false
starts_digit r (c ∷ s) = ltb (digit_value c) r

-- The sign, the absolute value and `*end`; with no digits, `none`: nothing is converted, and `*end`
-- is the string.
unfoldable pub read_number : ℕ → Bytes → Option (Bool × ℕ × Bytes)
unfolding skip_spaces skip_prefix read_sign scan_digits
read_number r s =
    let (minus, t) = read_sign (skip_spaces s) in
    let u : Bytes = skip_prefix r t in
    if starts_digit r u then some (minus, (scan_digits r 0 u).0, (scan_digits r 0 u).1) else none

-- strtol() and strtoll(): the value and `*end`; `none` if errno is set.
unfoldable pub strtoll : ℕ → Bytes → Option (ℤ × Bytes)
unfolding read_number
strtoll r s = elim (read_number r s) [
  | none ↦ some (pos 0, s)
  | some (minus, n, rest) ↦
      if minus
      then if ltb (2 ^ 63) n then none else some (neg (pos n), rest)
      else if leb (2 ^ 63) n
      then none
      else some (pos n, rest)
]

-- strtoul(): a minus sign negates the value in 64 bits.
unfoldable pub strtoul : ℕ → Bytes → Option (ℕ × Bytes)
unfolding read_number
strtoul r s = elim (read_number r s) [
  | none ↦ some (0, s)
  | some (minus, n, rest) ↦
      if leb (2 ^ 64) n
      then none
      else if minus
      then some ((2 ^ 64 - n) % 2 ^ 64, rest)
      else some (n, rest)
]

-- Casts to an unsigned type of `w` bits.
abbrev pub cast : ℕ → ℤ → ℕ
cast w (pos n) = n % 2 ^ w
cast w (negsuc n) = 2 ^ w - 1 - n % 2 ^ w
