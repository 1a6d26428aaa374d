-- ===== src/Pathcomp/Slashes.antt =====
-- The slashes of a path, as pathcomp.c looks for them.
use csup.Prelude.{
  ℕ, zero, suc, ◌<◌, ◌≤◌, ◌≡◌, refl, ◌∙◌, ap, arith, true, false, ◌==◌, ==_iff, ◌⊎◌, inl, inr,
  Bool-cases, Bytes, [], ◌∷◌, ◌++◌, length, take, get_elem?, All, Option, Option-cases, none, some,
  take-append_le, take_all, get_elem?_lt, get_elem?-append_length, length-append,
}
use csup.Paths.Common.{slash}
use csup.Pathcomp.{last_slash, dir_length, first_slash, is_absolute}

abbrev pub HasNoSlash : Bytes → Type 0
HasNoSlash = All (λ (c : ℕ). (c == slash) ≡ false)

-- The directory `plain` in `dir`; the top directory has no name.
abbrev pub child : Bytes → Bytes → Bytes
child [] plain = plain
child (c ∷ dir) plain = c ∷ (dir ++ (slash ∷ plain))

-- A path without a slash, or cut at its last one.
data Cut (d : Bytes) : Type 0 where
  whole : last_slash d ≡ none → HasNoSlash d → Cut d
  cut :
      (a plain : Bytes)
      → d ≡ a ++ (slash ∷ plain)
      → HasNoSlash plain
      → last_slash d ≡ some (length a)
      → Cut d

cut_last : (d : Bytes) → Cut d
cut_last [] = whole refl tt
cut_last (c ∷ s) = elim (cut_last s) [
  | whole e h ↦ elim (Bool-cases (c == slash)) [
    | inl y ↦ cut [] s (ap (λ x. x ∷ s) ((==_iff c slash).0 y)) h (rw (e, y) refl)
    | inr n ↦ whole (rw (e, n) refl) (n, h)
  ]
  | cut a plain e h k ↦ cut (c ∷ a) plain (ap (λ t. c ∷ t) e) h (rw k refl)
]

dir_length_eq :
    (d : Bytes) (o : Option ℕ)
    → last_slash d ≡ o
    → dir_length d ≡ (elim o [ none ↦ 0 | some i ↦ i ])
dir_length_eq d o e = ap (λ (p : Option ℕ). elim p as (λ _. ℕ) [ none ↦ 0 | some i ↦ i ]) e

-- The directory that a path is in, and the last component.
pub record Parted (d : Bytes) : Type 0 where
  pub dir : Bytes
  pub plain : Bytes
  pub parts : d ≡ child dir plain
  pub no_slash : HasNoSlash plain
  pub dir_taken : take (dir_length d) d ≡ dir
  pub dir_shorter : dir_length d < length d

pub parted : (d : Bytes) → is_absolute d ≡ false → 0 < length d → Parted d
parted d r h = elim (cut_last d) [
  | whole e k ↦ record {
    dir = [];
    plain = d;
    parts = refl;
    no_slash = k;
    dir_taken = rw (dir_length_eq d none e) refl;
    dir_shorter = rw (dir_length_eq d none e) h;
  }
  | cut [] plain e k l ↦ absurd (cc)
  | cut (c ∷ a) plain e k l ↦ record {
    dir = c ∷ a;
    plain = plain;
    parts = e;
    no_slash = k;
    dir_taken =
        rw (dir_length_eq d _ l, e)
          (take-append_le (length (c ∷ a)) (c ∷ a) (slash ∷ plain) (omega arith)
            ∙ take_all (length (c ∷ a)) (c ∷ a) (omega arith));
    dir_shorter =
        let n = length-append (c ∷ a) (slash ∷ plain) in
        rw (dir_length_eq d _ l, e) (omega (arith, n));
  }
]

-- The directory of a path ends at a slash, if it is not the top directory.
pub dir_length-slash : (d : Bytes) → 0 < dir_length d → get_elem? d (dir_length d) ≡ some slash
dir_length-slash d h = elim (cut_last d) [
  | whole e k ↦ let z = dir_length_eq d none e in absurd (omega (arith, z, h))
  | cut a plain e k l ↦
      rw (dir_length_eq d _ l, e) (get_elem?-append_length a slash plain (length a) refl)
]

pub dir_length_le : (d : Bytes) → dir_length d ≤ length d
dir_length_le d = elim (Bool-cases (dir_length d == 0)) [
  | inl y ↦ let z : dir_length d ≡ 0 = (==_iff _ _).0 y in omega (arith, z)
  | inr n ↦
      let b = get_elem?_lt d (dir_length d) (dir_length-slash d (ground arith)) in omega (arith, b)
]

-- No slash is behind the last one.
slash-last_slash :
    (d : Bytes) (g : ℕ) → get_elem? d g ≡ some slash → (i : ℕ) × (last_slash d ≡ some i) × (g ≤ i)
slash-last_slash [] g h = absurd (cc)
slash-last_slash (c ∷ s) zero h = elim (Option-cases (last_slash s)) [
  | inl e ↦ let y : (c == slash) ≡ true = ground arith in (0, rw (e, y) refl, omega arith)
  | inr (i, e) ↦ (suc i, rw e refl, omega arith)
]
slash-last_slash (c ∷ s) (suc g) h =
    let (i, e, le) = slash-last_slash s g h in (suc i, rw e refl, omega (arith, le))

pub slash-dir_length : (d : Bytes) (g : ℕ) → get_elem? d g ≡ some slash → g ≤ dir_length d
slash-dir_length d g h = let (i, e, le) = slash-last_slash d g h in rw (dir_length_eq d _ e) le

-- The loop stops at a slash or at the end, and passes none.
pub first_slash-HasNoSlash : (s : Bytes) → HasNoSlash (take (first_slash s) s)
first_slash-HasNoSlash [] = tt
first_slash-HasNoSlash (c ∷ s) = elim (Bool-cases (c == slash)) [
  | inl y ↦ rw y tt
  | inr n ↦ rw n (n, first_slash-HasNoSlash s)
]

pub first_slash-stop :
    (s : Bytes)
    → (first_slash s ≤ length s)
      × ((first_slash s ≡ length s) ⊎ (get_elem? s (first_slash s) ≡ some slash))
first_slash-stop [] = (omega arith, inl refl)
first_slash-stop (c ∷ s) = elim (Bool-cases (c == slash)) [
  | inl y ↦ rw y (omega arith, inr (ap (λ (x : ℕ). some x) ((==_iff c slash).0 y)))
  | inr n ↦
      let (le, stop) = first_slash-stop s in
      rw n (omega (arith, le), elim stop [ inl e ↦ inl (ap suc e) | inr e ↦ inr e ])
]
