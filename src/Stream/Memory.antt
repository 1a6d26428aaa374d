-- ===== src/Stream/Memory.antt =====
-- What is read from memory that was written.
use csup.Prelude.{
  ℕ, zero, suc, ◌+◌, ◌≤◌, ◌<◌, ◌≡◌, refl, ◌∙◌, ap, ap₂, arith, false, true, ◌==◌, Bytes, [], ◌∷◌,
  ◌++◌, length,
}
use csup.Stream.{Cells, put, store, read}

pub length-read : (cells : Cells) (at n : ℕ) → length (read cells at n) ≡ n
length-read cells at zero = refl
length-read cells at (suc n) = ap suc (length-read cells (at + 1) n)

-- A byte put outside of what is read changes nothing.
pub read-put :
    (cells : Cells) (i c at n : ℕ)
    → ((j : ℕ) → at ≤ j → j < at + n → (j == i) ≡ false)
    → read (put cells i c) at n ≡ read cells at n
read-put cells i c at zero h = refl
read-put cells i c at (suc n) h =
    let e : (at == i) ≡ false = h at (omega arith) (omega arith) in
    rw e (
      ap (λ s. cells at ∷ s)
        (read-put cells i c (at + 1) n (λ j a b. h j (omega arith) (omega arith))))

pub read-store_before :
    (cells : Cells) (to at n : ℕ) (s : Bytes)
    → at + n ≤ to
    → read (store cells to s) at n ≡ read cells at n
read-store_before cells to at n [] h = refl
read-store_before cells to at n (c ∷ s) h =
    read-put (store cells (to + 1) s) to c at n (λ j a b. ground arith)
    ∙ read-store_before cells (to + 1) at n s (omega arith)

pub read-store : (cells : Cells) (at : ℕ) (s : Bytes) → read (store cells at s) at (length s) ≡ s
read-store cells at [] = refl
read-store cells at (c ∷ s) =
    let e : (at == at) ≡ true = ground arith in
    rw e (
      ap (λ t. c ∷ t)
        (read-put (store cells (at + 1) s) at c (at + 1) (length s) (λ j a b. ground arith)
          ∙ read-store cells (at + 1) s))

pub read_add :
    (cells : Cells) (at m n : ℕ) → read cells at (m + n) ≡ read cells at m ++ read cells (at + m) n
read_add cells at zero n = ap₂ (read cells) (omega arith) (omega arith)
read_add cells at (suc m) n =
    let e : suc m + n ≡ suc (m + n) = omega arith in
    let k : at + suc m ≡ at + 1 + m = omega arith in
    rw (e, k) (ap (λ s. cells at ∷ s) (read_add cells (at + 1) m n))
