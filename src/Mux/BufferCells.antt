-- ===== src/Mux/BufferCells.antt =====
-- Which cell of a circular buffer holds which byte.
use csup.Prelude.{
  ◌⊎◌, ltb→lt, leb→le, ℕ, ◌+◌, ◌-◌, ◌≤◌, ◌<◌, ◌≡◌, refl, ◌∙◌, inl, inr, arith, true, ltb, leb,
  if◌then◌else◌, Bytes, length, take, drop, get_elem?, ◌++◌, length-append, length-take,
  length-drop, Bool-cases, get_elem?-append_lt, ◌^◌,
}
use csup.Prelude.Slices.{
  overwrite, length-overwrite, get_elem?-overwrite_in, get_elem?-overwrite_out, get_elem?-take,
  get_elem?-drop, get_elem?-append_ge,
}
use csup.Mux.Buffer.{Buf, buf_count, buf_avail, room, put_cells}

-- The block has size + 1 bytes, the indices lie in it, and no size_t computation wraps.
pub record IsValid (buf : Buf) : Type 0 where
  pub block : length buf.cells ≡ buf.size + 1
  pub in_block : buf.in_at ≤ buf.size
  pub out_block : buf.out_at ≤ buf.size
  pub small : buf.size < 2 ^ 32

-- The bytes stored, oldest first.
abbrev pub contents : Buf → Bytes
contents buf =
    if leb buf.out_at buf.in_at
    then take (buf.in_at - buf.out_at) (drop buf.out_at buf.cells)
    else drop buf.out_at buf.cells ++ take buf.in_at buf.cells

pub length-contents : {buf : Buf} → IsValid buf → length (contents buf) ≡ buf_count buf
unfolding buf_count
length-contents {buf} v = elim (Bool-cases (leb buf.out_at buf.in_at)) [
  | inl le ↦ rw le (
      ground (
        arith,
        length-take (buf.in_at - buf.out_at) (drop buf.out_at buf.cells),
        length-drop buf.out_at buf.cells,
      ))
  | inr gt ↦ rw gt (
      ground (
        arith,
        length-append (drop buf.out_at buf.cells) (take buf.in_at buf.cells),
        length-take buf.in_at buf.cells,
        length-drop buf.out_at buf.cells,
      ))
]

pub buf_count-add-avail : {buf : Buf} → IsValid buf → buf_count buf + buf_avail buf ≡ buf.size
unfolding buf_count buf_avail
buf_count-add-avail {buf} v = ground arith

-- Where the i-th stored byte lies.
abbrev pub cell : Buf → ℕ → ℕ
cell buf i =
    if leb (buf.out_at + i) buf.size then buf.out_at + i else buf.out_at + i - (buf.size + 1)

pub get_elem?-contents :
    {buf : Buf} (i : ℕ)
    → IsValid buf
    → i < buf_count buf
    → get_elem? (contents buf) i ≡ get_elem? buf.cells (cell buf i)
unfolding buf_count
get_elem?-contents {buf} i v h = elim (Bool-cases (leb buf.out_at buf.in_at)) [
  | inl le ↦
      let lt : i < buf.in_at - buf.out_at = ground arith in
      let here : leb (buf.out_at + i) buf.size ≡ true = ground arith in
      rw (le, here)
        (get_elem?-take (buf.in_at - buf.out_at) (drop buf.out_at buf.cells) i lt
          ∙ get_elem?-drop buf.out_at buf.cells i (buf.out_at + i) refl)
  | inr gt ↦
      let len = length-drop buf.out_at buf.cells in
      elim (Bool-cases (leb (buf.out_at + i) buf.size)) [
        | inl here ↦
            let lt : i < length (drop buf.out_at buf.cells) = ground (arith, len) in
            rw (gt, here)
              (get_elem?-append_lt (drop buf.out_at buf.cells) (take buf.in_at buf.cells) i lt
                ∙ get_elem?-drop buf.out_at buf.cells i (buf.out_at + i) refl)
        | inr there ↦
            let k : ℕ = buf.out_at + i - (buf.size + 1) in
            let e : i ≡ length (drop buf.out_at buf.cells) + k = ground (arith, len) in
            let lt : k < buf.in_at = ground arith in
            rw (gt, there)
              (get_elem?-append_ge (drop buf.out_at buf.cells) (take buf.in_at buf.cells) i k e
                ∙ get_elem?-take buf.in_at buf.cells k lt)
      ]
]

-- The block after buf_put(): the k-th new byte lies k cells behind `in`, going round.
abbrev pub new_cell : Buf → ℕ → ℕ
new_cell buf k =
    if leb (buf.in_at + k) buf.size then buf.in_at + k else buf.in_at + k - (buf.size + 1)

room_lem : (size at : ℕ) → at ≤ size → size < 2 ^ 32 → room size at ≡ size + 1 - at
room_lem size at h s = omega arith

-- The two tests of buf_count() and buf_avail(), with no wrap-around.
pub avail_below :
    {buf : Buf} → IsValid buf → buf.in_at < buf.out_at → buf_avail buf + buf.in_at + 1 ≡ buf.out_at
unfolding buf_avail
avail_below v h = ground arith

pub avail_above :
    {buf : Buf}
    → IsValid buf
    → buf.out_at ≤ buf.in_at
    → buf_avail buf + buf.in_at ≡ buf.size + buf.out_at
unfolding buf_avail
avail_above v h = ground arith

pub avail_le : {buf : Buf} → IsValid buf → buf_avail buf ≤ buf.size
unfolding buf_avail
avail_le v = ground arith

pub count_below :
    {buf : Buf}
    → IsValid buf
    → buf.in_at < buf.out_at
    → buf_count buf + buf.out_at ≡ buf.size + 1 + buf.in_at
unfolding buf_count
count_below v h = ground arith

pub count_above :
    {buf : Buf} → IsValid buf → buf.out_at ≤ buf.in_at → buf_count buf + buf.out_at ≡ buf.in_at
unfolding buf_count
count_above v h = ground arith

module _ {buf : Buf} (xs : Bytes) (v : IsValid buf) (fits : length xs ≤ buf_avail buf) where
  abbrev gap : ℕ
  gap = room buf.size buf.in_at

  gap_lem : gap + buf.in_at ≡ buf.size + 1
  gap_lem = omega (arith, v.in_block, v.small)

  pub length-put_cells : length (put_cells buf xs) ≡ length buf.cells
  length-put_cells = elim (Bool-cases (ltb gap (length xs))) [
    | inl wraps ↦ rw wraps (
        length-overwrite (overwrite buf.cells buf.in_at (take gap xs)) 0 (drop gap xs)
        ∙ length-overwrite buf.cells buf.in_at (take gap xs))
    | inr straight ↦ rw straight (length-overwrite buf.cells buf.in_at xs)
  ]

  new_wrapped_low :
      (k : ℕ)
      → k < length xs
      → gap < length xs
      → buf.in_at + k ≤ buf.size
      → get_elem?
          (overwrite (overwrite buf.cells buf.in_at (take gap xs)) 0 (drop gap xs))
          (buf.in_at + k)
        ≡ get_elem? xs k
  new_wrapped_low k lt w h =
      let ld = length-drop gap xs in
      let lt' = length-take gap xs in
      get_elem?-overwrite_out (overwrite buf.cells buf.in_at (take gap xs)) 0 (drop gap xs)
        (buf.in_at + k) (inr (omega (arith, ld, gap_lem, fits, avail_le v)))
      ∙ get_elem?-overwrite_in buf.cells buf.in_at (take gap xs) (buf.in_at + k) k
          (omega (arith, lt', gap_lem, v.block)) (omega (arith, lt', gap_lem)) refl
      ∙ get_elem?-take gap xs k (omega (arith, gap_lem))

  new_wrapped_high :
      (k : ℕ)
      → k < length xs
      → gap < length xs
      → buf.size < buf.in_at + k
      → get_elem?
          (overwrite (overwrite buf.cells buf.in_at (take gap xs)) 0 (drop gap xs))
          (buf.in_at + k - (buf.size + 1))
        ≡ get_elem? xs k
  new_wrapped_high k lt w h =
      let ld = length-drop gap xs in
      let lo = length-overwrite buf.cells buf.in_at (take gap xs) in
      get_elem?-overwrite_in (overwrite buf.cells buf.in_at (take gap xs)) 0 (drop gap xs)
        (buf.in_at + k - (buf.size + 1)) (k - gap)
        (omega (arith, ld, lo, gap_lem, v.block, fits, avail_le v)) (omega (arith, ld, gap_lem))
        (omega (arith, gap_lem))
      ∙ get_elem?-drop gap xs (k - gap) k (omega (arith, gap_lem))

  pub get_elem?-put_cells_new :
      (k : ℕ) → k < length xs → get_elem? (put_cells buf xs) (new_cell buf k) ≡ get_elem? xs k
  get_elem?-put_cells_new k lt = elim (Bool-cases (ltb gap (length xs))) [
    | inl w ↦ elim (Bool-cases (leb (buf.in_at + k) buf.size)) [
      | inl low ↦ rw (w, low) (new_wrapped_low k lt (ltb→lt _ _ w) (leb→le _ _ low))
      | inr high ↦ rw (w, high) (new_wrapped_high k lt (ltb→lt _ _ w) (ground arith))
    ]
    | inr straight ↦
        let low : leb (buf.in_at + k) buf.size ≡ true = ground (arith, gap_lem) in
        rw (straight, low)
          (get_elem?-overwrite_in buf.cells buf.in_at xs (buf.in_at + k) k
            (ground (arith, gap_lem, v.block)) lt refl)
  ]

  -- A stored byte lies outside what is written.
  old_apart :
      (i : ℕ) → i < buf_count buf → (cell buf i < buf.in_at) ⊎ (buf.in_at + length xs ≤ cell buf i)
  old_apart i lt = elim (Bool-cases (ltb buf.in_at buf.out_at)) [
    | inl below ↦
        let a = avail_below v (ltb→lt _ _ below) in
        let c = count_below v (ltb→lt _ _ below) in
        elim (Bool-cases (leb (buf.out_at + i) buf.size)) [
          | inl low ↦ rw low (inr (omega (arith, a, c, fits)))
          | inr high ↦ rw high (inl (ground (arith, a, c, fits)))
        ]
    | inr above ↦
        let h : buf.out_at ≤ buf.in_at = ground arith in
        let c = count_above v h in
        let low : leb (buf.out_at + i) buf.size ≡ true = ground (arith, c, v.in_block) in
        rw low (inl (omega (arith, c)))
  ]

  old_wrapped :
      (i : ℕ)
      → i < buf_count buf
      → gap < length xs
      → (cell buf i < buf.in_at) × (length (drop gap xs) ≤ cell buf i)
  old_wrapped i lt w =
      let ld = length-drop gap xs in
      let above : buf.out_at ≤ buf.in_at = elim (Bool-cases (ltb buf.in_at buf.out_at)) [
        | inl below ↦
            absurd (omega (arith, avail_below v (ltb→lt _ _ below), gap_lem, v.out_block, fits))
        | inr above ↦ ground arith
      ] in
      let c = count_above v above in
      let a = avail_above v above in
      let low : leb (buf.out_at + i) buf.size ≡ true = ground (arith, c, v.in_block) in
      rw low (omega (arith, c), omega (arith, ld, a, c, gap_lem, fits))

  pub get_elem?-put_cells_old :
      (i : ℕ)
      → i < buf_count buf
      → get_elem? (put_cells buf xs) (cell buf i) ≡ get_elem? buf.cells (cell buf i)
  get_elem?-put_cells_old i lt = elim (Bool-cases (ltb gap (length xs))) [
    | inl w ↦
        let (before, behind) = old_wrapped i lt (ltb→lt _ _ w) in
        rw w (
          get_elem?-overwrite_out (overwrite buf.cells buf.in_at (take gap xs)) 0 (drop gap xs)
            (cell buf i) (inr (omega (arith, behind)))
          ∙ get_elem?-overwrite_out buf.cells buf.in_at (take gap xs) (cell buf i) (inl before))
    | inr straight ↦
        rw straight (get_elem?-overwrite_out buf.cells buf.in_at xs (cell buf i) (old_apart i lt))
  ]
