-- ===== src/Mux/BufferQueue.antt =====
-- A circular buffer is a queue of bytes: buf_put() appends and buf_get() takes from the front.
use csup.Prelude.{
  ℕ, ◌+◌, ◌-◌, ◌≤◌, ◌<◌, ◌≡◌, refl, sym, ap, ◌∙◌, inl, inr, arith, true, ltb, leb, Bytes, length,
  take, drop, get_elem?, ◌++◌, length-append, length-take, ltb→lt, length-drop, Bool-cases,
  get_elem?-append_lt,
}
use csup.Prelude.Run.{done}
use csup.Prelude.Slices.{get_elem?-take, get_elem?-drop, get_elem?-append_ge, list_ext}
use csup.Mux.Buffer.{
  Buf, buf_count, buf_avail, advance, room, put_cells, got_bytes, buf_put, buf_get,
}
use csup.Mux.BufferCells.{
  IsValid, contents, length-contents, get_elem?-contents, cell, new_cell, length-put_cells,
  get_elem?-put_cells_new, get_elem?-put_cells_old, avail_below, avail_above, count_below,
  count_above, buf_count-add-avail,
}

module _ {buf : Buf} (xs : Bytes) (v : IsValid buf) (fits : length xs ≤ buf_avail buf) where
  -- The buffer that buf_put() leaves.
  abbrev pub after_put : Buf
  after_put = record buf {
    cells = put_cells buf xs;
    in_at = advance buf.size buf.in_at (length xs);
  }

  pub advance_put :
      (advance buf.size buf.in_at (length xs) ≤ buf.size)
      × (buf_count after_put ≡ buf_count buf + length xs)
  unfolding buf_count
  advance_put = elim (Bool-cases (ltb buf.in_at buf.out_at)) [
    | inl below ↦ let a = avail_below v (ltb→lt _ _ below) in ground (arith, a)
    | inr above ↦
        let h : buf.out_at ≤ buf.in_at = ground arith in
        let a = avail_above v h in ground (arith, a)
  ]

  pub after_put-IsValid : IsValid after_put
  after_put-IsValid = record {
    block = length-put_cells xs v fits ∙ v.block;
    in_block = advance_put.0;
    out_block = v.out_block;
    small = v.small;
  }

  cell_new : (k : ℕ) → k < length xs → cell after_put (buf_count buf + k) ≡ new_cell buf k
  unfolding buf_count
  cell_new k lt = elim (Bool-cases (ltb buf.in_at buf.out_at)) [
    | inl below ↦ let a = avail_below v (ltb→lt _ _ below) in ground (arith, a)
    | inr above ↦
        let h : buf.out_at ≤ buf.in_at = ground arith in
        let a = avail_above v h in ground (arith, a)
  ]

  pub contents-after_put : contents after_put ≡ contents buf ++ xs
  contents-after_put = list_ext (contents after_put) (contents buf ++ xs) len at
    where
      len : length (contents after_put) ≡ length (contents buf ++ xs)
      len = omega (
        arith,
        length-contents after_put-IsValid,
        advance_put,
        length-append (contents buf) xs,
        length-contents v,
      )

      at :
          (j : ℕ)
          → j < length (contents after_put)
          → get_elem? (contents after_put) j ≡ get_elem? (contents buf ++ xs) j
      at j lt =
          let in_new : j < buf_count after_put = omega (arith, length-contents after_put-IsValid) in
          let read = get_elem?-contents j after_put-IsValid in_new in
          elim (Bool-cases (ltb j (buf_count buf))) [
            | inl old ↦
                let lt' = ltb→lt _ _ old in
                read
                ∙ get_elem?-put_cells_old xs v fits j lt'
                ∙ sym (get_elem?-contents j v lt')
                ∙ sym (get_elem?-append_lt (contents buf) xs j (omega (arith, length-contents v)))
            | inr new ↦
                let k : ℕ = j - buf_count buf in
                let e : j ≡ buf_count buf + k = ground arith in
                let lt' : k < length xs = ground (arith, advance_put) in
                read
                ∙ ap (λ n. get_elem? (put_cells buf xs) (cell after_put n)) e
                ∙ ap (get_elem? (put_cells buf xs)) (cell_new k lt')
                ∙ get_elem?-put_cells_new xs v fits k lt'
                ∙ sym (
                    get_elem?-append_ge (contents buf) xs j k (omega (arith, length-contents v, e)))
          ]

module _ {buf : Buf} (n : ℕ) (v : IsValid buf) (stored : n ≤ buf_count buf) where
  -- The buffer that buf_get() leaves.
  abbrev pub after_get : Buf
  after_get = record buf { out_at = advance buf.size buf.out_at n }

  count_le : buf_count buf ≤ buf.size
  count_le = omega (arith, buf_count-add-avail v)

  pub advance_get :
      (advance buf.size buf.out_at n ≤ buf.size) × (buf_count after_get + n ≡ buf_count buf)
  unfolding buf_count
  advance_get = elim (Bool-cases (ltb buf.in_at buf.out_at)) [
    | inl below ↦ let c = count_below v (ltb→lt _ _ below) in ground (arith, c)
    | inr above ↦
        let h : buf.out_at ≤ buf.in_at = ground arith in
        let c = count_above v h in ground (arith, c)
  ]

  pub after_get-IsValid : IsValid after_get
  after_get-IsValid = record {
    block = v.block;
    in_block = v.in_block;
    out_block = advance_get.0;
    small = v.small;
  }

  cell_kept : (j : ℕ) → n + j < buf_count buf → cell after_get j ≡ cell buf (n + j)
  cell_kept j lt = ground (arith, count_le)

  pub contents-after_get : contents after_get ≡ drop n (contents buf)
  contents-after_get = list_ext (contents after_get) (drop n (contents buf)) len at
    where
      len : length (contents after_get) ≡ length (drop n (contents buf))
      len = omega (
        arith,
        length-contents after_get-IsValid,
        advance_get,
        length-drop n (contents buf),
        length-contents v,
      )

      at :
          (j : ℕ)
          → j < length (contents after_get)
          → get_elem? (contents after_get) j ≡ get_elem? (drop n (contents buf)) j
      at j lt =
          let here : j < buf_count after_get = omega (arith, length-contents after_get-IsValid) in
          let there : n + j < buf_count buf = omega (arith, advance_get) in
          get_elem?-contents j after_get-IsValid here
          ∙ ap (get_elem? buf.cells) (cell_kept j there)
          ∙ sym (get_elem?-contents (n + j) v there)
          ∙ sym (get_elem?-drop n (contents buf) j (n + j) refl)

  got_bytes-at : (j : ℕ) → j < n → get_elem? (got_bytes buf n) j ≡ get_elem? buf.cells (cell buf j)
  got_bytes-at j lt =
      let gap : ℕ = room buf.size buf.out_at in
      let g : gap + buf.out_at ≡ buf.size + 1 = omega (arith, v.out_block, v.small) in
      let ld = length-drop buf.out_at buf.cells in
      let lt' = length-take gap (drop buf.out_at buf.cells) in
      elim (Bool-cases (ltb gap n)) [
        | inl w ↦ elim (Bool-cases (leb (buf.out_at + j) buf.size)) [
          | inl low ↦
              rw (w, low)
                (get_elem?-append_lt (take gap (drop buf.out_at buf.cells))
                    (take (n - gap) buf.cells) j (ground (arith, g, ld, lt', v.block))
                  ∙ get_elem?-take gap (drop buf.out_at buf.cells) j (ground (arith, g))
                  ∙ get_elem?-drop buf.out_at buf.cells j (buf.out_at + j) refl)
          | inr high ↦
              let k : ℕ = buf.out_at + j - (buf.size + 1) in
              rw (w, high)
                (get_elem?-append_ge (take gap (drop buf.out_at buf.cells))
                    (take (n - gap) buf.cells) j k (ground (arith, g, ld, lt', v.block))
                  ∙ get_elem?-take (n - gap) buf.cells k (ground (arith, g)))
        ]
        | inr straight ↦
            let low : leb (buf.out_at + j) buf.size ≡ true = ground (arith, g) in
            rw (straight, low)
              (get_elem?-take n (drop buf.out_at buf.cells) j lt
                ∙ get_elem?-drop buf.out_at buf.cells j (buf.out_at + j) refl)
      ]

  length-got_bytes : length (got_bytes buf n) ≡ n
  length-got_bytes =
      let gap : ℕ = room buf.size buf.out_at in
      let g : gap + buf.out_at ≡ buf.size + 1 = omega (arith, v.out_block, v.small) in
      let ld = length-drop buf.out_at buf.cells in
      elim (Bool-cases (ltb gap n)) [
        | inl w ↦ rw w (
            omega (
              arith,
              g,
              ld,
              v.block,
              length-take gap (drop buf.out_at buf.cells),
              length-take (n - gap) buf.cells,
              count_le,
              ltb→lt _ _ w,
              length-append (take gap (drop buf.out_at buf.cells)) (take (n - gap) buf.cells),
            ))
        | inr straight ↦
            rw straight (ground (arith, g, ld, v.block, length-take n (drop buf.out_at buf.cells)))
      ]

  pub got_bytes-eq-take : got_bytes buf n ≡ take n (contents buf)
  got_bytes-eq-take =
      list_ext (got_bytes buf n) (take n (contents buf))
        (omega (arith, length-got_bytes, length-take n (contents buf), length-contents v))
        (λ j lt.
          let lt' : j < n = omega (arith, length-got_bytes) in
          got_bytes-at j lt'
          ∙ sym (get_elem?-contents j v (omega arith))
          ∙ sym (get_elem?-take n (contents buf) j lt'))

-- On a valid buffer with room for them, buf_put() of one or more bytes does not fail its
-- assertions, keeps the buffer valid and appends exactly these bytes to what it stores, whether or
-- not they wrap around the end of the block.
pub buf_put_appends :
    {buf : Buf} (xs : Bytes)
    → IsValid buf
    → 0 < length xs
    → length xs ≤ buf_avail buf
    → (buf' : Buf) × (buf_put buf xs ≡ done buf')
      × IsValid buf'
      × (contents buf' ≡ contents buf ++ xs)
      × (buf_count buf' ≡ buf_count buf + length xs)
unfolding buf_put
buf_put_appends {buf} xs v pos fits = (
  after_put xs v fits,
  ground arith,
  after_put-IsValid xs v fits,
  contents-after_put xs v fits,
  (advance_put xs v fits).1,
)

-- On a valid buffer that stores at least `n` bytes, n > 0, buf_get() does not fail its assertions,
-- copies out the `n` oldest bytes in order, and leaves a valid buffer with the others.
pub buf_get_takes :
    {buf : Buf} (n : ℕ)
    → IsValid buf
    → 0 < n
    → n ≤ buf_count buf
    → (buf' : Buf) × (buf_get buf n ≡ done (take n (contents buf), buf'))
      × IsValid buf'
      × (contents buf' ≡ drop n (contents buf))
      × (buf_count buf' + n ≡ buf_count buf)
unfolding buf_get
buf_get_takes {buf} n v pos stored = (
  after_get n v stored,
  rw (← got_bytes-eq-take n v stored) (ground arith),
  after_get-IsValid n v stored,
  contents-after_get n v stored,
  (advance_get n v stored).1,
)
