-- ===== src/Revision/Numeric.antt =====
-- rcsnum_cmp() orders revisions by their numbers, the first difference deciding.
use csup.Prelude.{
  ℕ, zero, suc, ◌+◌, ◌-◌, ◌*◌, ◌<◌, ◌≤◌, ◌≡◌, refl, ◌∙◌, ap, ap₂, arith, false, Bytes, All, List,
  [], ◌∷◌, ◌++◌, length, length-append, ltb, ltb→lt, lt→ltb, ◌==◌, if◌then◌else◌, Bool-cases, inl,
  inr,
}
use csup.Prelude.Run.{Run, done}
use csup.Paths.Rcs.{dot, is_empty}
use csup.Revision.{
  Sign, less, equal, greater, field, behind, strncmp, left_over, cmp_field, cmp_from, rcsnum_cmp,
}

abbrev pub IsDigit : ℕ → Type 0
IsDigit c = (b'0' ≤ c) × (c ≤ b'9')

-- A decimal number: digits, without a leading zero unless it is the only digit.
pub data IsNumber : Bytes → Type 0 where
  a_digit : (c : ℕ) → IsDigit c → IsNumber (c ∷ [])
  more_digits :
      (c d : ℕ) (s : Bytes) → IsDigit c → b'0' < c → All IsDigit (d ∷ s) → IsNumber (c ∷ d ∷ s)

-- The number that the digits stand for, behind those that gave `n`.
abbrev pub value_from : ℕ → Bytes → ℕ
value_from n [] = n
value_from n (c ∷ s) = value_from (n * 10 + (c - b'0')) s

abbrev pub value : Bytes → ℕ
value s = value_from 0 s

abbrev pub cmp_ℕ : ℕ → ℕ → Sign
cmp_ℕ m n = if ltb m n then less else if ltb n m then greater else equal

-- The fields with dots between them.
abbrev pub join : List Bytes → Bytes
join [] = []
join (x ∷ []) = x
join (x ∷ y ∷ r) = x ++ (dot ∷ join (y ∷ r))

-- The order of two lists of numbers: the first difference decides, and a list comes before those
-- that continue it.
abbrev pub cmp_numbers : List Bytes → List Bytes → Sign
cmp_numbers [] [] = equal
cmp_numbers [] (y ∷ r) = less
cmp_numbers (x ∷ q) [] = greater
cmp_numbers (x ∷ q) (y ∷ r) = elim (cmp_ℕ (value x) (value y)) [
  | less ↦ less
  | greater ↦ greater
  | equal ↦ cmp_numbers q r
]

cmp_greater : (m n : ℕ) → n < m → greater ≡ cmp_ℕ m n
cmp_greater m n lt = ground arith

cmp_less : (m n : ℕ) → m < n → less ≡ cmp_ℕ m n
cmp_less m n lt = ground arith

value_from_grows : (n : ℕ) (s : Bytes) → n ≤ value_from n s
value_from_grows n [] = omega arith
value_from_grows n (c ∷ s) = omega (arith, value_from_grows (n * 10 + (c - b'0')) s)

-- A smaller start with no more digits stays smaller.
value_from_mono :
    (m n : ℕ) (s t : Bytes)
    → m < n
    → length s ≤ length t
    → All IsDigit s
    → value_from m s < value_from n t
value_from_mono m n [] t lt le ds = omega (arith, value_from_grows n t)
value_from_mono m n (c ∷ s) [] lt le ds = absurd (omega arith)
value_from_mono m n (c ∷ s) (d ∷ t) lt le ds =
    value_from_mono (m * 10 + (c - b'0')) (n * 10 + (d - b'0')) s t (omega (arith, ds.0))
      (omega arith) ds.1

strncmp-value :
    (n : ℕ) (s t : Bytes)
    → length s ≡ length t
    → All IsDigit s
    → All IsDigit t
    → strncmp s t ≡ cmp_ℕ (value_from n s) (value_from n t)
unfolding strncmp
strncmp-value n [] [] e hs ht = ground arith
strncmp-value n [] (d ∷ t) e hs ht = absurd (omega arith)
strncmp-value n (c ∷ s) [] e hs ht = absurd (omega arith)
strncmp-value n (c ∷ s) (d ∷ t) e hs ht =
    let len : length s ≡ length t = omega (arith, e) in
    let m : ℕ = n * 10 + (c - b'0') in
    let k : ℕ = n * 10 + (d - b'0') in
    elim (Bool-cases (ltb c d)) [
      | inl lt ↦
          let below : value_from m s < value_from k t =
            value_from_mono m k s t (omega (arith, ltb→lt c d lt, hs.0)) (omega (arith, len))
              hs.1 in
          rw (lt, lt→ltb (value_from m s) (value_from k t) below) refl
      | inr ge ↦ elim (Bool-cases (ltb d c)) [
        | inl gt ↦
            let above : value_from k t < value_from m s =
              value_from_mono k m t s (omega (arith, ltb→lt d c gt, ht.0)) (omega (arith, len))
                ht.1 in
            rw (ge, gt) (cmp_greater (value_from m s) (value_from k t) above)
        | inr le ↦
            let same : c ≡ d = ground arith in
            rw (ge, le) (rw same (strncmp-value (n * 10 + (d - b'0')) s t len hs.1 ht.1))
      ]
    ]

IsNumber-digits : (s : Bytes) → IsNumber s → All IsDigit s
IsNumber-digits s (a_digit c h) = (h, tt)
IsNumber-digits s (more_digits c d t h nz ds) = (h, ds)

number_pos : (s : Bytes) → IsNumber s → 0 < length s
number_pos s (a_digit c h) = omega arith
number_pos s (more_digits c d t h nz ds) = omega arith

-- A number with more digits is greater.
value_longer : (s t : Bytes) → IsNumber s → IsNumber t → length s < length t → value s < value t
value_longer s t hs (a_digit c h) lt = absurd (omega (arith, lt, number_pos s hs))
value_longer s t hs (more_digits c d t' h nz ds) lt =
    value_from_mono 0 (0 * 10 + (c - b'0')) s (d ∷ t') (omega (arith, nz)) (omega (arith, lt))
      (IsNumber-digits s hs)

abbrev pub NoDot : ℕ → Type 0
NoDot c = (c == dot) ≡ false

digits-NoDot : (s : Bytes) → All IsDigit s → All NoDot s
digits-NoDot [] h = tt
digits-NoDot (c ∷ s) h = (ground (arith, h.0), digits-NoDot s h.1)

cmp_field-value :
    (s t : Bytes) → IsNumber s → IsNumber t → cmp_field s t ≡ cmp_ℕ (value s) (value t)
unfolding cmp_field
cmp_field-value s t hs ht = elim (Bool-cases (ltb (length t) (length s))) [
  | inl gt ↦ rw gt (cmp_greater (value s) (value t) (value_longer t s ht hs (ltb→lt _ _ gt)))
  | inr le ↦ elim (Bool-cases (ltb (length s) (length t))) [
    | inl lt ↦ rw (le, lt) (cmp_less (value s) (value t) (value_longer s t hs ht (ltb→lt _ _ lt)))
    | inr ge ↦
        rw (le, ge)
          (strncmp-value 0 s t (ground arith) (IsNumber-digits s hs) (IsNumber-digits t ht))
  ]
]

field-join : (x : Bytes) (r : List Bytes) → All NoDot x → field (join (x ∷ r)) ≡ x
unfolding field
field-join [] [] h = refl
field-join [] (y ∷ r) h = refl
field-join (c ∷ x) [] h = rw h.0 (ap (λ l. c ∷ l) (field-join x [] h.1))
field-join (c ∷ x) (y ∷ r) h = rw h.0 (ap (λ l. c ∷ l) (field-join x (y ∷ r) h.1))

behind-join : (x : Bytes) (r : List Bytes) → All NoDot x → behind (join (x ∷ r)) ≡ join r
unfolding behind
behind-join [] [] h = refl
behind-join [] (y ∷ r) h = refl
behind-join (c ∷ x) [] h = rw h.0 (behind-join x [] h.1)
behind-join (c ∷ x) (y ∷ r) h = rw h.0 (behind-join x (y ∷ r) h.1)

-- The fields joined are not the empty string, and it is no shorter than there are fields.
left_over-join_less : (y : Bytes) (r : List Bytes) → IsNumber y → left_over [] (join (y ∷ r)) ≡ less
unfolding left_over
left_over-join_less y [] (a_digit c h) = refl
left_over-join_less y (z ∷ r) (a_digit c h) = refl
left_over-join_less y [] (more_digits c d s h nz ds) = refl
left_over-join_less y (z ∷ r) (more_digits c d s h nz ds) = refl

left_over-join_greater :
    (x : Bytes) (q : List Bytes) → IsNumber x → left_over (join (x ∷ q)) [] ≡ greater
unfolding left_over
left_over-join_greater x [] (a_digit c h) = refl
left_over-join_greater x (z ∷ q) (a_digit c h) = refl
left_over-join_greater x [] (more_digits c d s h nz ds) = refl
left_over-join_greater x (z ∷ q) (more_digits c d s h nz ds) = refl

is_empty-join : (x : Bytes) (q : List Bytes) → IsNumber x → is_empty (join (x ∷ q)) ≡ false
is_empty-join x [] (a_digit c h) = refl
is_empty-join x (z ∷ q) (a_digit c h) = refl
is_empty-join x [] (more_digits c d s h nz ds) = refl
is_empty-join x (z ∷ q) (more_digits c d s h nz ds) = refl

length-join : (a : List Bytes) → All IsNumber a → length a ≤ length (join a)
length-join [] h = omega arith
length-join (x ∷ []) h = omega (arith, number_pos x h.0)
length-join (x ∷ y ∷ r) h =
    omega (arith, number_pos x h.0, length-join (y ∷ r) h.1, length-append x (dot ∷ join (y ∷ r)))

first_difference :
    (s : Sign) (rest : Run Sign) (onward : Sign)
    → rest ≡ done onward
    → (elim s [ less ↦ done less | greater ↦ done greater | equal ↦ rest ])
      ≡ done (elim s [ less ↦ less | greater ↦ greater | equal ↦ onward ])
first_difference less rest onward e = refl
first_difference equal rest onward e = e
first_difference greater rest onward e = refl

cmp_from-numbers :
    (f : ℕ) (a b : List Bytes)
    → All IsNumber a
    → All IsNumber b
    → length a < f
    → cmp_from f (join a) (join b) ≡ done (cmp_numbers a b)
unfolding cmp_from left_over
cmp_from-numbers zero a b ha hb lt = absurd (omega arith)
cmp_from-numbers (suc f) [] [] ha hb lt = refl
cmp_from-numbers (suc f) [] (y ∷ r) ha hb lt = ap (λ v. done v) (left_over-join_less y r hb.0)
cmp_from-numbers (suc f) (x ∷ q) [] ha hb lt =
    rw (cmp_from, is_empty-join x q ha.0) (ap (λ v. done v) (left_over-join_greater x q ha.0))
cmp_from-numbers (suc f) (x ∷ q) (y ∷ r) ha hb lt =
    let no_dot_x = digits-NoDot x (IsNumber-digits x ha.0) in
    let no_dot_y = digits-NoDot y (IsNumber-digits y hb.0) in
    rw
      (
        cmp_from,
        is_empty-join x q ha.0,
        is_empty-join y r hb.0,
        field-join x q no_dot_x,
        field-join y r no_dot_y,
        cmp_field-value x y ha.0 hb.0,
      )
      (first_difference (cmp_ℕ (value x) (value y))
        (cmp_from f (behind (join (x ∷ q))) (behind (join (y ∷ r)))) (cmp_numbers q r)
        (ap₂ (cmp_from f) (behind-join x q no_dot_x) (behind-join y r no_dot_y)
          ∙ cmp_from-numbers f q r ha.1 hb.1 (omega arith)))

-- For any two revisions, each a list of decimal numbers without leading zeros with dots between
-- them, rcsnum_cmp() ends, and its sign is the order of the two lists of numbers in which the
-- first difference decides and a list comes before those that continue it.
pub rcsnum_cmp-numbers :
    (a b : List Bytes)
    → All IsNumber a
    → All IsNumber b
    → rcsnum_cmp (join a) (join b) ≡ done (cmp_numbers a b)
unfolding rcsnum_cmp
rcsnum_cmp-numbers a b ha hb =
    cmp_from-numbers (length (join a) + 1) a b ha hb (omega (arith, length-join a ha))
