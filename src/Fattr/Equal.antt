-- ===== src/Fattr/Equal.antt =====
-- What fattr_equal() compares.
use csup.Prelude.{
  ℕ, ◌≡◌, ◌≢◌, ◌↔◌, inl, inr, refl, ap, arith, Bool, true, false, ◌==◌, ==_iff, Bytes, [], ◌∷◌,
  Option, none, some, Bool-cases,
}
use csup.Prelude.Run.{Run, done}
use csup.Prelude.Int.{ℤ, pos, negsuc}
use csup.Fattr.{
  Attr, filetype, modtime, size, linktarget, rdev, owner, group, mode, fflags, linkcount, dev,
  inode, Mask, mask_and, Fattr, fattr_equal, ft_unknown, same_bytes, same_ℤ, target_differs,
  equal_behind_target, differs,
}
use csup.Fattr.Selected.{number, signed, text, value}

pub same_bytes_iff : (s t : Bytes) → (same_bytes s t ≡ true) ↔ (s ≡ t)
same_bytes_iff s t = (to s t, λ e. rw e (self t))
  where
    to : (s t : Bytes) → same_bytes s t ≡ true → s ≡ t
    to [] [] h = refl
    to [] (d ∷ t) h = absurd (ground arith)
    to (c ∷ s) [] h = absurd (ground arith)
    to (c ∷ s) (d ∷ t) h = ground (arith, to s t)

    self : (t : Bytes) → same_bytes t t ≡ true
    self [] = refl
    self (d ∷ t) = ground (arith, self t)

same_ℤ_iff : (x y : ℤ) → (same_ℤ x y ≡ true) ↔ (x ≡ y)
same_ℤ_iff x y = (to x y, from x y)
  where
    to : (x y : ℤ) → same_ℤ x y ≡ true → x ≡ y
    to (pos m) (pos n) h = ground arith
    to (pos m) (negsuc n) h = absurd (ground arith)
    to (negsuc m) (pos n) h = absurd (ground arith)
    to (negsuc m) (negsuc n) h = ground arith

    from : (x y : ℤ) → x ≡ y → same_ℤ x y ≡ true
    from (pos m) (pos n) h = ground arith
    from (pos m) (negsuc n) h = absurd (ground arith)
    from (negsuc m) (pos n) h = absurd (ground arith)
    from (negsuc m) (negsuc n) h = ground arith

-- The test answers, and says yes exactly if `P` holds.
abbrev Decides : Run Bool → Type 0 → Type 0
Decides r P = (b : Bool) × (r ≡ done b) × ((b ≡ true) ↔ P)

differs-Decides :
    {P Q : Type 0} (selected same : Bool) (rest : Run Bool)
    → ((same ≡ true) ↔ Q)
    → Decides rest P
    → Decides (differs selected same rest) ((selected ≡ true → Q) × P)
differs-Decides false same rest q (b, e, p) =
    (b, e, (λ t. (λ (s : false ≡ true). absurd (cc), p.0 t), λ (h, k). p.1 k))
differs-Decides true true rest q (b, e, p) = (b, e, (λ t. (λ s. q.0 refl, p.0 t), λ (h, k). p.1 k))
differs-Decides true false rest q (b, e, p) =
    (false, refl, (λ t. absurd (cc), λ (h, k). q.1 (h refl)))

-- A selected link target is not null.
abbrev pub HasTarget : Fattr → Type 0
HasTarget fa = fa.mask linktarget ≡ true → (s : Bytes) × (fa.linktarget_of ≡ some s)

-- Both have the attribute, with the same value.
abbrev pub Agrees : Fattr → Fattr → Attr → Type 0
Agrees fa1 fa2 a = fa1.mask a ≡ true → fa2.mask a ≡ true → value fa1 a ≡ value fa2 a

number_iff : (x y : ℕ) → ((x == y) ≡ true) ↔ (number x ≡ number y)
number_iff x y = (λ h. ap number ((==_iff x y).0 h), λ h. ground arith)

signed_iff : (x y : ℤ) → (same_ℤ x y ≡ true) ↔ (signed x ≡ signed y)
signed_iff x y = (λ h. ap signed ((same_ℤ_iff x y).0 h), λ h. (same_ℤ_iff x y).1 (cc))

text_iff : (s t : Bytes) → (same_bytes s t ≡ true) ↔ (text (some s) ≡ text (some t))
text_iff s t =
    (λ h. ap (λ u. text (some u)) ((same_bytes_iff s t).0 h), λ h. (same_bytes_iff s t).1 (cc))

target-Decides :
    {P : Type 0} (selected : Bool) (t1 t2 : Option Bytes) (rest : Run Bool)
    → (selected ≡ true → (s : Bytes) × (t1 ≡ some s))
    → (selected ≡ true → (s : Bytes) × (t2 ≡ some s))
    → Decides rest P
    → Decides (target_differs selected t1 t2 rest) ((selected ≡ true → text t1 ≡ text t2) × P)
target-Decides false t1 t2 rest n1 n2 (b, e, p) =
    (b, e, (λ t. (λ (s : false ≡ true). absurd (cc), p.0 t), λ (h, k). p.1 k))
target-Decides true none t2 rest n1 n2 d = absurd (cc (n1 refl).1)
target-Decides true (some s) none rest n1 n2 d = absurd (cc (n2 refl).1)
target-Decides true (some s) (some t) rest n1 n2 (b, e, p) = elim (Bool-cases (same_bytes s t)) [
  | inl same ↦ rw same (b, e, (λ h. (λ _. (text_iff s t).0 same, p.0 h), λ (h, k). p.1 k))
  | inr other ↦
      rw other (false, refl, (λ h. absurd (cc), λ (h, k). absurd (cc ((text_iff s t).1 (h refl)))))
]

done-Decides : Decides (done true) (Unit {0})
done-Decides = (true, refl, (λ _. tt, λ _. refl))

module _ (fa1 fa2 : Fattr) where
  abbrev both : Mask
  both = mask_and fa1.mask fa2.mask

  -- The attribute `a` agrees, if it is selected.
  abbrev Same : Attr → Type 0
  Same a = both a ≡ true → value fa1 a ≡ value fa2 a

  numbers :
      {P : Type 0} (selected : Bool) (x y : ℕ) (rest : Run Bool)
      → Decides rest P
      → Decides (differs selected (x == y) rest) ((selected ≡ true → number x ≡ number y) × P)
  numbers selected x y rest d = differs-Decides selected (x == y) rest (number_iff x y) d

  Same-Agrees : (a : Attr) → Same a → Agrees fa1 fa2 a
  Same-Agrees a h m1 m2 = h (rw (m1, m2) refl)

  Agrees-Same : (a : Attr) → Agrees fa1 fa2 a → Same a
  Agrees-Same a h m = h (ground arith) (ground arith)

  -- All attributes in the order of the tests.
  abbrev AllSame : Type 0
  AllSame =
      Same filetype
      × (Same modtime
          × (Same size
              × (Same linktarget
                  × (Same rdev
                      × (Same owner
                          × (Same group
                              × (Same mode
                                  × (Same fflags
                                      × (Same linkcount
                                          × (Same dev × (Same inode × (Unit {0}))))))))))))

  every : AllSame → (a : Attr) → Same a
  every h filetype = h.0
  every h modtime = h.1.0
  every h size = h.1.1.0
  every h linktarget = h.1.1.1.0
  every h rdev = h.1.1.1.1.0
  every h owner = h.1.1.1.1.1.0
  every h group = h.1.1.1.1.1.1.0
  every h mode = h.1.1.1.1.1.1.1.0
  every h fflags = h.1.1.1.1.1.1.1.1.0
  every h linkcount = h.1.1.1.1.1.1.1.1.1.0
  every h dev = h.1.1.1.1.1.1.1.1.1.1.0
  every h inode = h.1.1.1.1.1.1.1.1.1.1.1.0

  each : ((a : Attr) → Same a) → AllSame
  each g = (
    g filetype,
    (
      g modtime,
      (
        g size,
        (
          g linktarget,
          (
            g rdev,
            (g owner, (g group, (g mode, (g fflags, (g linkcount, (g dev, (g inode, tt))))))),
          ),
        ),
      ),
    ),
  )

  decided :
      (both linktarget ≡ true → (s : Bytes) × (fa1.linktarget_of ≡ some s))
      → (both linktarget ≡ true → (s : Bytes) × (fa2.linktarget_of ≡ some s))
      → Decides
          (differs (both filetype) (fa1.type_of == fa2.type_of) (
            differs (both modtime) (same_ℤ fa1.modtime_of fa2.modtime_of) (
              differs (both size) (same_ℤ fa1.size_of fa2.size_of) (
                target_differs
                  (both linktarget)
                  fa1.linktarget_of
                  fa2.linktarget_of
                  (equal_behind_target fa1 fa2)))))
          AllSame
  decided h1 h2 = numbers (both filetype) fa1.type_of fa2.type_of _ (
      differs-Decides (both modtime) (same_ℤ fa1.modtime_of fa2.modtime_of) _
        (signed_iff fa1.modtime_of fa2.modtime_of)
        (differs-Decides (both size) (same_ℤ fa1.size_of fa2.size_of) _
          (signed_iff fa1.size_of fa2.size_of)
          (target-Decides (both linktarget) fa1.linktarget_of fa2.linktarget_of _ h1 h2 (
            numbers (both rdev) fa1.rdev_of fa2.rdev_of _ (
              numbers (both owner) fa1.uid fa2.uid _ (
                numbers (both group) fa1.gid fa2.gid _ (
                  numbers (both mode) fa1.mode_of fa2.mode_of _ (
                    numbers (both fflags) fa1.flags_of fa2.flags_of _ (
                      numbers (both linkcount) fa1.linkcount_of fa2.linkcount_of _ (
                        numbers (both dev) fa1.dev_of fa2.dev_of _ (
                          numbers (both inode) fa1.inode_of fa2.inode_of _ (done-Decides))))))))))))

-- If a link target that is selected is not null, fattr_equal() answers, and it says that the two are
-- equal exactly if both types are known and every attribute that both have has the same value.
pub fattr_equal-Agrees :
    (fa1 fa2 : Fattr)
    → HasTarget fa1
    → HasTarget fa2
    → (b : Bool) × (fattr_equal fa1 fa2 ≡ done b)
      × ((b ≡ true) ↔ (
          (fa1.type_of ≢ ft_unknown)
          × (fa2.type_of ≢ ft_unknown)
          × ((a : Attr) → Agrees fa1 fa2 a)))
unfolding fattr_equal
fattr_equal-Agrees fa1 fa2 h1 h2 = elim (Bool-cases (fa1.type_of == ft_unknown)) [
  | inl z ↦
      let e : fa1.type_of ≡ ft_unknown = (==_iff _ _).0 z in
      (false, rw (fattr_equal, z) refl, (λ h. absurd (cc), λ (n1, n2, g). absurd (n1 e)))
  | inr k1 ↦ elim (Bool-cases (fa2.type_of == ft_unknown)) [
    | inl z ↦
        let e : fa2.type_of ≡ ft_unknown = (==_iff _ _).0 z in
        (false, rw (fattr_equal, k1, z) refl, (λ h. absurd (cc), λ (n1, n2, g). absurd (n2 e)))
    | inr k2 ↦
        let (b, e, p) = decided fa1 fa2 (λ s. h1 (ground arith)) (λ s. h2 (ground arith)) in
        (
          b,
          rw (fattr_equal, k1, k2) e,
          (
            λ t. (
              λ z. absurd (ground arith),
              λ z. absurd (ground arith),
              λ a. Same-Agrees fa1 fa2 a (every fa1 fa2 (p.0 t) a),
            ),
            λ (n1, n2, g). p.1 (each fa1 fa2 (λ a. Agrees-Same fa1 fa2 a (g a))),
          ),
        )
  ]
]
