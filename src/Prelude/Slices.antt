-- ===== src/Prelude/Slices.antt =====
-- Blocks of memory: what a memcpy() leaves, read byte by byte.
use Prim.Native.Nat.{ℕ, zero, suc, ◌+◌, ◌≤◌, ◌<◌}
use mathlib.Core.Path.{◌≡◌, refl, sym, ap, ap₂, ◌∙◌}
use mathlib.Core.List.{List, [], ◌∷◌, ◌++◌}
use mathlib.Core.Option.{some}
use mathlib.Core.Logic.{◌⊎◌, inl, inr}
use native.Mathlib.Omega.{arith}
use csup.Prelude.{length, get_elem?, get_or, take, take_nil, drop, set}

module _ {ℓ} {A : Type ℓ} where
  -- memcpy(cells + p, xs, length xs), within the block.
  unfoldable pub overwrite : List A → ℕ → List A → List A
  overwrite [] p xs = []
  overwrite (c ∷ cells) zero [] = c ∷ cells
  overwrite (c ∷ cells) zero (x ∷ xs) = x ∷ overwrite cells zero xs
  overwrite (c ∷ cells) (suc p) xs = c ∷ overwrite cells p xs

  pub length-overwrite :
      (cells : List A) (p : ℕ) (xs : List A) → length (overwrite cells p xs) ≡ length cells
  unfolding overwrite
  length-overwrite [] p xs = refl
  length-overwrite (c ∷ cells) zero [] = refl
  length-overwrite (c ∷ cells) zero (x ∷ xs) = ap suc (length-overwrite cells zero xs)
  length-overwrite (c ∷ cells) (suc p) xs = ap suc (length-overwrite cells p xs)

  -- The written part reads as what was written.
  pub get_elem?-overwrite_in :
      (cells : List A) (p : ℕ) (xs : List A) (j k : ℕ)
      → p + length xs ≤ length cells
      → k < length xs
      → j ≡ p + k
      → get_elem? (overwrite cells p xs) j ≡ get_elem? xs k
  unfolding overwrite
  get_elem?-overwrite_in [] p xs j k h lt e = absurd (omega arith)
  get_elem?-overwrite_in (c ∷ cells) zero [] j k h lt e = absurd (omega arith)
  get_elem?-overwrite_in (c ∷ cells) zero (x ∷ xs) zero zero h lt e = refl
  get_elem?-overwrite_in (c ∷ cells) zero (x ∷ xs) zero (suc k) h lt e = absurd (omega arith)
  get_elem?-overwrite_in (c ∷ cells) zero (x ∷ xs) (suc j) zero h lt e = absurd (omega arith)
  get_elem?-overwrite_in (c ∷ cells) zero (x ∷ xs) (suc j) (suc k) h lt e =
      get_elem?-overwrite_in cells zero xs j k (omega arith) (omega arith) (omega arith)
  get_elem?-overwrite_in (c ∷ cells) (suc p) xs zero k h lt e = absurd (omega arith)
  get_elem?-overwrite_in (c ∷ cells) (suc p) xs (suc j) k h lt e =
      get_elem?-overwrite_in cells p xs j k (omega arith) lt (omega arith)

  -- The rest is as it was.
  pub get_elem?-overwrite_out :
      (cells : List A) (p : ℕ) (xs : List A) (j : ℕ)
      → (j < p) ⊎ (p + length xs ≤ j)
      → get_elem? (overwrite cells p xs) j ≡ get_elem? cells j
  unfolding overwrite
  get_elem?-overwrite_out [] p xs j h = refl
  get_elem?-overwrite_out (c ∷ cells) zero [] j h = refl
  get_elem?-overwrite_out (c ∷ cells) zero (x ∷ xs) zero h = absurd (omega arith)
  get_elem?-overwrite_out (c ∷ cells) zero (x ∷ xs) (suc j) h =
      get_elem?-overwrite_out cells zero xs j (inr (omega arith))
  get_elem?-overwrite_out (c ∷ cells) (suc p) xs zero h = refl
  get_elem?-overwrite_out (c ∷ cells) (suc p) xs (suc j) (inl h) =
      get_elem?-overwrite_out cells p xs j (inl (omega arith))
  get_elem?-overwrite_out (c ∷ cells) (suc p) xs (suc j) (inr h) =
      get_elem?-overwrite_out cells p xs j (inr (omega arith))

  pub get_elem?-take :
      (n : ℕ) (xs : List A) (j : ℕ) → j < n → get_elem? (take n xs) j ≡ get_elem? xs j
  get_elem?-take zero xs j h = elim h [ ]
  get_elem?-take (suc n) [] j h = refl
  get_elem?-take (suc n) (x ∷ xs) zero h = refl
  get_elem?-take (suc n) (x ∷ xs) (suc j) h = get_elem?-take n xs j (omega arith)

  pub get_elem?-drop :
      (n : ℕ) (xs : List A) (j k : ℕ) → k ≡ n + j → get_elem? (drop n xs) j ≡ get_elem? xs k
  get_elem?-drop zero xs j k e = ap (get_elem? xs) (omega arith)
  get_elem?-drop (suc n) [] j k e = refl
  get_elem?-drop (suc n) (x ∷ xs) j zero e = absurd (omega arith)
  get_elem?-drop (suc n) (x ∷ xs) j (suc k) e = get_elem?-drop n xs j k (omega arith)

  pub get_elem?-append_ge :
      (xs ys : List A) (j k : ℕ) → j ≡ length xs + k → get_elem? (xs ++ ys) j ≡ get_elem? ys k
  get_elem?-append_ge [] ys j k e = ap (get_elem? ys) (omega arith)
  get_elem?-append_ge (x ∷ xs) ys zero k e = absurd (omega arith)
  get_elem?-append_ge (x ∷ xs) ys (suc j) k e = get_elem?-append_ge xs ys j k (omega arith)

  -- Lists of one length that read alike are equal.
  pub list_ext :
      (xs ys : List A)
      → length xs ≡ length ys
      → ((j : ℕ) → j < length xs → get_elem? xs j ≡ get_elem? ys j)
      → xs ≡ ys
  list_ext [] [] h k = refl
  list_ext [] (y ∷ ys) h k = absurd (omega arith)
  list_ext (x ∷ xs) [] h k = absurd (omega arith)
  list_ext (x ∷ xs) (y ∷ ys) h k =
      let e : some x ≡ some y = k 0 (omega arith) in
      let head : x ≡ y = cc in
      ap₂ ◌∷◌ head (list_ext xs ys (omega arith) (λ j lt. k (suc j) (omega arith)))

module _ {ℓ} {A : Type ℓ} where
  take-suc-set :
      (xs : List A) (n : ℕ) (v : A)
      → n < length xs
      → take (suc n) (set xs n v) ≡ take n xs ++ (v ∷ [])
  take-suc-set [] n v h = absurd (omega arith)
  take-suc-set (x ∷ xs) zero v h = refl
  take-suc-set (x ∷ xs) (suc n) v h = ap (λ l. x ∷ l) (take-suc-set xs n v (omega arith))

  -- A write just behind the part in use extends it.
  pub take-set :
      (xs : List A) (m n : ℕ) (v : A)
      → m ≡ n + 1
      → n < length xs
      → take m (set xs n v) ≡ take n xs ++ (v ∷ [])
  take-set xs m n v e h = let e' : m ≡ suc n = omega (arith, e) in rw e' (take-suc-set xs n v h)

  pub get_elem?-some : (xs : List A) (i : ℕ) → i < length xs → (v : A) × (get_elem? xs i ≡ some v)
  get_elem?-some [] i h = absurd (omega arith)
  get_elem?-some (x ∷ xs) zero h = (x, refl)
  get_elem?-some (x ∷ xs) (suc i) h = get_elem?-some xs i (omega arith)

  take-suc_last :
      (xs : List A) (n : ℕ) (v : A)
      → get_elem? xs n ≡ some v
      → take (suc n) xs ≡ take n xs ++ (v ∷ [])
  take-suc_last [] n v h = absurd (ground arith)
  take-suc_last (x ∷ xs) zero v h = ground arith
  take-suc_last (x ∷ xs) (suc n) v h = ap (λ l. x ∷ l) (take-suc_last xs n v h)

  pub take_last :
      (xs : List A) (m n : ℕ) (v : A)
      → m ≡ n + 1
      → get_elem? xs n ≡ some v
      → take m xs ≡ take n xs ++ (v ∷ [])
  take_last xs m n v e h = let e' : m ≡ suc n = omega (arith, e) in rw e' (take-suc_last xs n v h)

  pub take-set_before : (xs : List A) (n : ℕ) (v : A) → take n (set xs n v) ≡ take n xs
  take-set_before [] n v = refl
  take-set_before (x ∷ xs) zero v = refl
  take-set_before (x ∷ xs) (suc n) v = ap (λ l. x ∷ l) (take-set_before xs n v)

  pub take_add : (m n : ℕ) (xs : List A) → take (m + n) xs ≡ take m xs ++ take n (drop m xs)
  take_add zero n xs = ap (λ i. take i xs) (omega arith)
  take_add (suc m) n [] = take_nil (suc m + n) ∙ sym (take_nil n)
  take_add (suc m) n (x ∷ xs) =
      let e : suc m + n ≡ suc (m + n) = omega arith in rw e (ap (λ l. x ∷ l) (take_add m n xs))

  pub take-take : (m n : ℕ) (xs : List A) → m ≤ n → take m (take n xs) ≡ take m xs
  take-take zero n xs h = refl
  take-take (suc m) zero xs h = absurd (omega arith)
  take-take (suc m) (suc n) [] h = refl
  take-take (suc m) (suc n) (x ∷ xs) h = ap (λ l. x ∷ l) (take-take m n xs (omega arith))

  pub get_or-some : (xs : List A) (i : ℕ) (v d : A) → get_elem? xs i ≡ some v → get_or xs i d ≡ v
  get_or-some [] i v d h = absurd (cc)
  get_or-some (x ∷ xs) zero v d h = cc
  get_or-some (x ∷ xs) (suc i) v d h = get_or-some xs i v d h

  pub get_or_ge : (xs : List A) (i : ℕ) (d : A) → length xs ≤ i → get_or xs i d ≡ d
  get_or_ge [] i d h = refl
  get_or_ge (x ∷ xs) zero d h = absurd (omega arith)
  get_or_ge (x ∷ xs) (suc i) d h = get_or_ge xs i d (omega arith)
