-- ===== src/Paths/CompareOrder.antt =====
-- pathcmp() orders the paths of a status file.
use csup.Prelude.{subst, ◌≤◌, ◌↔◌, ◌≢◌, ◌++◌, ℕ, ◌<◌, ◌≡◌, refl, arith, Bytes, All, [], ◌∷◌, true}
use csup.Prelude.Int.{pos, neg, is_negative}
use csup.Paths.Compare.{pathcmp}

-- A byte of a path: not NUL, a byte's value, and not the control character that '/' is read as.
abbrev pub IsPathByte : ℕ → Type 0
IsPathByte c = (1 < c) × (c < 256)

abbrev pub IsPath : Bytes → Type 0
IsPath = All IsPathByte

-- The order of two paths is the opposite of the order of the exchanged paths.
pathcmp-neg : (s t : Bytes) → IsPath s → IsPath t → pathcmp t s ≡ neg (pathcmp s t)
unfolding pathcmp
pathcmp-neg [] [] hs ht = refl
pathcmp-neg [] (d ∷ t) hs ht = ground arith
pathcmp-neg (c ∷ s) [] hs ht = ground arith
pathcmp-neg (c ∷ s) (d ∷ t) hs ht = ground (arith, pathcmp-neg s t hs.1 ht.1)

pathcmp-zero : (s t : Bytes) → IsPath s → IsPath t → pathcmp s t ≡ pos 0 → s ≡ t
unfolding pathcmp
pathcmp-zero [] [] hs ht e = refl
pathcmp-zero [] (d ∷ t) hs ht e = absurd (ground arith)
pathcmp-zero (c ∷ s) [] hs ht e = absurd (ground arith)
pathcmp-zero (c ∷ s) (d ∷ t) hs ht e = ground (arith, pathcmp-zero s t hs.1 ht.1)

pathcmp_self : (s : Bytes) → IsPath s → pathcmp s s ≡ pos 0
unfolding pathcmp
pathcmp_self [] hs = refl
pathcmp_self (c ∷ s) hs = ground (arith, pathcmp_self s hs.1)

pathcmp_trans :
    (s t u : Bytes)
    → IsPath s
    → IsPath t
    → IsPath u
    → is_negative (pathcmp s t) ≡ true
    → is_negative (pathcmp t u) ≡ true
    → is_negative (pathcmp s u) ≡ true
unfolding pathcmp
pathcmp_trans [] [] u hs ht hu p q = q
pathcmp_trans [] (d ∷ t) [] hs ht hu p q = ground arith
pathcmp_trans [] (d ∷ t) (e ∷ u) hs ht hu p q = ground arith
pathcmp_trans (c ∷ s) [] [] hs ht hu p q = ground arith
pathcmp_trans (c ∷ s) [] (e ∷ u) hs ht hu p q = ground arith
pathcmp_trans (c ∷ s) (d ∷ t) [] hs ht hu p q = ground arith
pathcmp_trans (c ∷ s) (d ∷ t) (e ∷ u) hs ht hu p q =
    ground (arith, pathcmp_trans s t u hs.1 ht.1 hu.1)

-- On strings with no NUL and no byte 1, pathcmp() is a strict total order: 0 exactly on equal
-- paths, of opposite sign on exchanged paths, and transitive where it is negative.
pub pathcmp-orders :
    (s t u : Bytes)
    → IsPath s
    → IsPath t
    → IsPath u
    → ((pathcmp s t ≡ pos 0) ↔ (s ≡ t))
      × (pathcmp t s ≡ neg (pathcmp s t))
      × (is_negative (pathcmp s t) ≡ true
          → is_negative (pathcmp t u) ≡ true
          → is_negative (pathcmp s u) ≡ true)
pathcmp-orders s t u hs ht hu = (
  (pathcmp-zero s t hs ht, λ e. subst (λ k. pathcmp s k ≡ pos 0) e (pathcmp_self s hs)),
  pathcmp-neg s t hs ht,
  pathcmp_trans s t u hs ht hu,
)

pathcmp-append : (d : Bytes) (s t : Bytes) → IsPath d → pathcmp (d ++ s) (d ++ t) ≡ pathcmp s t
unfolding pathcmp
pathcmp-append [] s t h = refl
pathcmp-append (c ∷ d) s t h = ground (arith, pathcmp-append d s t h.1)

-- What lies in the directory `d` comes before the names that continue the name of `d` by another
-- byte below 128, and after those that continue it by a byte from 128 on, which `char` reads as
-- negative.
pub pathcmp-directory_first :
    (d x y : Bytes) (c : ℕ)
    → IsPath d
    → IsPathByte c
    → c ≢ b'/'
    → (c < 128 → is_negative (pathcmp (d ++ (b'/' ∷ x)) (d ++ (c ∷ y))) ≡ true)
      × (128 ≤ c → is_negative (pathcmp (d ++ (c ∷ y)) (d ++ (b'/' ∷ x))) ≡ true)
pathcmp-directory_first d x y c hd hc ne = (
  λ low. rw (pathcmp-append d (b'/' ∷ x) (c ∷ y) hd) (unfold pathcmp in ground arith),
  λ high. rw (pathcmp-append d (c ∷ y) (b'/' ∷ x) hd) (unfold pathcmp in ground arith),
)
