-- ===== src/Pathcomp/Down.antt =====
-- pathcomp_get() going down: the next directory on the way to the target.
use csup.Prelude.{
  ℕ, zero, suc, ◌+◌, ◌-◌, ◌<◌, ◌≤◌, ◌≡◌, refl, sym, ◌∙◌, ap, subst, arith, false, ◌⊎◌, inl, inr,
  Bytes, [], ◌∷◌, ◌++◌, length, take, drop, get_elem?, get_or, some, length-take, length-drop,
  append_assoc, get_elem?_lt,
}
use csup.Prelude.Slices.{take_add, take-take, get_elem?-take, get_elem?-drop, take_last, get_or_ge}
use csup.Paths.Common.{slash}
use csup.Pathcomp.{start_of, first_slash, is_absolute}
use csup.Pathcomp.Slashes.{HasNoSlash, child, first_slash-HasNoSlash, first_slash-stop}

-- What stands between `start` and the goal.
abbrev rest_of : Bytes → ℕ → ℕ → Bytes
rest_of t goal start = take (goal - start) (drop start t)

abbrev pub next_slash : Bytes → ℕ → ℕ → ℕ
next_slash t goal k = start_of k + first_slash (rest_of t goal (start_of k))

-- The place of the next slash: the directory there is a child of the one before, and the path goes
-- on with a slash or ends.
pub record Entered (t : Bytes) (goal k : ℕ) : Type 0 where
  pub deeper : k < next_slash t goal k
  pub within : next_slash t goal k ≤ goal
  pub plain : Bytes
  pub no_slash : HasNoSlash plain
  pub named : take (next_slash t goal k) t ≡ child (take k t) plain
  pub stops :
      (get_elem? t (next_slash t goal k) ≡ some slash)
      ⊎ ((next_slash t goal k ≡ goal) × (get_or t (next_slash t goal k) 0 ≡ 0))

-- The goal is the end of the path, or stands at a slash.
abbrev pub EndsTarget : Bytes → ℕ → Type 0
EndsTarget t goal = (goal ≡ length t) ⊎ (get_elem? t goal ≡ some slash)

module _ (t : Bytes) (goal : ℕ) (le : goal ≤ length t) (ends : EndsTarget t goal) where
  length-rest : (start : ℕ) → start ≤ goal → length (rest_of t goal start) ≡ goal - start
  length-rest start h =
      let a = length-take (goal - start) (drop start t) in
      let b = length-drop start t in omega (arith, a, b, h, le)

  stopped :
      (start : ℕ)
      → start ≤ goal
      → let n : ℕ = start + first_slash (rest_of t goal start) in
        (n ≤ goal) × ((get_elem? t n ≡ some slash) ⊎ ((n ≡ goal) × (get_or t n 0 ≡ 0)))
  stopped start h =
      let (less, stop) = first_slash-stop (rest_of t goal start) in
      let len = length-rest start h in
      let at : (i : ℕ)
          → i < goal - start
          → get_elem? t (start + i) ≡ get_elem? (rest_of t goal start) i =
        λ i lt. sym (
          get_elem?-take (goal - start) (drop start t) i lt
          ∙ get_elem?-drop start t i (start + i) refl) in
      (
        omega (arith, less, len, h),
        elim stop [
          | inl e ↦
              let same : start + first_slash (rest_of t goal start) ≡ goal =
                omega (arith, e, len, h) in
              elim ends [
                | inl z ↦ inr (same, get_or_ge t _ 0 (omega (arith, same, z)))
                | inr y ↦ inl (subst (λ i. get_elem? t i ≡ some slash) (sym same) y)
              ]
          | inr y ↦
              let lt = get_elem?_lt (rest_of t goal start) (first_slash (rest_of t goal start)) y in
              inl (at (first_slash (rest_of t goal start)) (omega (arith, lt, len)) ∙ y)
        ],
      )

  taken :
      (start : ℕ)
      → start ≤ goal
      → let s : Bytes = rest_of t goal start in
        take (start + first_slash s) t ≡ take start t ++ take (first_slash s) s
  taken start h =
      let s : Bytes = rest_of t goal start in
      let (less, stop) = first_slash-stop s in
      let len = length-rest start h in
      take_add start (first_slash s) t
      ∙ ap (λ u. take start t ++ u)
          (sym (take-take (first_slash s) (goal - start) (drop start t) (omega (arith, less, len))))

first_slash_pos :
    (n : ℕ) (t : Bytes) → is_absolute t ≡ false → 0 < n → n ≤ length t → 0 < first_slash (take n t)
first_slash_pos zero t r h k = absurd (omega arith)
first_slash_pos (suc n) [] r h k = absurd (omega arith)
first_slash_pos (suc n) (c ∷ t) r h k = rw r (omega arith)

child_behind :
    (k : ℕ) (t plain : Bytes)
    → k < length t
    → 0 < k
    → child (take k t) plain ≡ take k t ++ (slash ∷ plain)
child_behind zero t plain h z = absurd (omega arith)
child_behind (suc k) [] plain h z = absurd (omega arith)
child_behind (suc k) (c ∷ t) plain h z = refl

pub entered :
    (t : Bytes) (goal k : ℕ)
    → goal ≤ length t
    → EndsTarget t goal
    → is_absolute t ≡ false
    → k < goal
    → (k ≡ 0) ⊎ (get_elem? t k ≡ some slash)
    → Entered t goal k
entered t goal zero le ends r lt at =
    let (within, stop) = stopped t goal le ends 0 (omega arith) in
    let pos = first_slash_pos (goal - 0) t r (omega (arith, lt)) (omega (arith, le)) in
    record {
      deeper = omega (arith, pos);
      within = within;
      plain = take (first_slash (rest_of t goal 0)) (rest_of t goal 0);
      no_slash = first_slash-HasNoSlash (rest_of t goal 0);
      named = taken t goal le ends 0 (omega arith);
      stops = stop;
    }
entered t goal (suc k) le ends r lt (inl z) = absurd (omega arith)
entered t goal (suc k) le ends r lt (inr y) =
    let s : Bytes = rest_of t goal (suc k + 1) in
    let plain : Bytes = take (first_slash s) s in
    let (within, stop) = stopped t goal le ends (suc k + 1) (omega (arith, lt)) in
    record {
      deeper = omega arith;
      within = within;
      plain = plain;
      no_slash = first_slash-HasNoSlash s;
      named =
          taken t goal le ends (suc k + 1) (omega (arith, lt))
          ∙ ap (λ u. u ++ plain) (take_last t (suc k + 1) (suc k) slash refl y)
          ∙ append_assoc (take (suc k) t) (slash ∷ []) plain
          ∙ sym (child_behind (suc k) t plain (omega (arith, lt, le)) (omega arith));
      stops = stop;
    }
