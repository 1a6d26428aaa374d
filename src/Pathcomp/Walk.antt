-- ===== src/Pathcomp/Walk.antt =====
-- What pathcomp_get() returns between two paths is a walk from one directory to the other.
use csup.Prelude.{
  ℕ, suc, ◌+◌, ◌<◌, ◌≤◌, ◌≡◌, refl, sym, ◌∙◌, ap, subst, arith, true, false, ◌==◌, ==_iff, ◌⊎◌, inl,
  inr, Bool-cases, if◌then◌else◌, Bytes, List, [], ◌∷◌, length, take, get_elem?, Option, none, some,
  get_elem?_lt, length-take, take_all,
}
use csup.Prelude.Run.{done}
use csup.Prelude.Slices.{take-take, get_elem?-take, list_ext}
use csup.Paths.Common.{slash, commonpathlength}
use csup.Paths.CommonLongest.{Agree, EndsDirectory, commonpathlength-IsLongest}
use csup.Pathcomp.{
  Pathcomp, PcType, dirdown, file, dirup, Event, pathcomp_new, target_length, is_absolute,
  pathcomp_put, get_all,
}
use csup.Pathcomp.Slashes.{dir_length-slash, dir_length_le}
use csup.Pathcomp.Down.{EndsTarget}
use csup.Pathcomp.Steps.{
  Walk, get_all-Gets, Reached, resting, going, climbing, descend, climb, is_absolute-take,
}

-- Between two paths: as pathcomp_new() makes it, in the top directory, or in the directory of the
-- path put last.
pub data IsResting : Pathcomp → Bytes → Type 0 where
  fresh : (memory : ℕ) → IsResting (pathcomp_new memory) []
  rested :
      (p : Bytes) (goal : ℕ)
      → is_absolute p ≡ false
      → length p ≡ goal
      → IsResting (resting p goal goal) p

-- The directory that a path leads to: itself, or the one that it is in.
abbrev pub target_dir : PcType → Bytes → Bytes
target_dir type path = take (target_length type path) path

target_length_le : (type : PcType) (path : Bytes) → target_length type path ≤ length path
target_length_le dirdown path = omega arith
target_length_le file path = dir_length_le path
target_length_le dirup path = dir_length_le path

target_length-EndsTarget :
    (type : PcType) (path : Bytes)
    → 0 < target_length type path
    → EndsTarget path (target_length type path)
target_length-EndsTarget dirdown path h = inl refl
target_length-EndsTarget file path h = inr (dir_length-slash path h)
target_length-EndsTarget dirup path h = inr (dir_length-slash path h)

-- Where two paths agree, what is taken of them is the same.
take-Agree : (a b : Bytes) (n : ℕ) → n ≤ length a → n ≤ length b → Agree a b n → take n a ≡ take n b
take-Agree a b n ha hb h =
    let la = length-take n a in
    let lb = length-take n b in
    list_ext (take n a) (take n b) (omega (arith, la, lb, ha, hb)) (λ j lt.
      let below : j < n = omega (arith, la, lt) in
      get_elem?-take n a j below ∙ h j below ∙ sym (get_elem?-take n b j below))

-- A shared directory of relative paths ends nowhere but at a slash, at the end or at the top.
ends_relative :
    (a : Bytes) (n : ℕ)
    → is_absolute a ≡ false
    → EndsDirectory a n
    → (n ≡ length a) ⊎ ((n ≡ 0) ⊎ (get_elem? a n ≡ some slash))
ends_relative a n r (inl (inl z)) = inr (inl z)
ends_relative a n r (inl (inr (inl e))) = inl e
ends_relative a n r (inl (inr (inr y))) = inr (inr y)
ends_relative [] n r (inr (one, y)) = absurd (cc)
ends_relative (c ∷ a) n r (inr (one, y)) = absurd (ground arith)

module _ (type : PcType) (path : Bytes) (relative : is_absolute path ≡ false) where
  abbrev len : ℕ
  len = target_length type path

  -- The walk that leads to the directory of the path.
  abbrev Led : Pathcomp → Bytes → ℕ → Type 0
  Led pc dir n = Reached pc dir (target_dir type path) (resting (target_dir type path) len len) n

  onward :
      (prev : Option Bytes) (prevlen k : ℕ)
      → k ≤ len
      → (k ≡ len) ⊎ ((k ≡ 0) ⊎ (get_elem? path k ≡ some slash))
      → Led (going path prev prevlen none len k) (take k path) len
  onward prev prevlen k h at =
      descend path len (target_length_le type path) (target_length-EndsTarget type path) relative
        prev prevlen len none k h at (omega arith)

  length-target_dir : length (target_dir type path) ≡ len
  length-target_dir =
      let a = length-take len path in let b = target_length_le type path in omega (arith, a, b)

  shared_place :
      (c : ℕ)
      → (c ≡ length (target_dir type path))
        ⊎ ((c ≡ 0) ⊎ (get_elem? (target_dir type path) c ≡ some slash))
      → (c ≡ len) ⊎ ((c ≡ 0) ⊎ (get_elem? path c ≡ some slash))
  shared_place c (inl e) = inl (e ∙ length-target_dir)
  shared_place c (inr (inl z)) = inr (inl z)
  shared_place c (inr (inr y)) =
      let lt = get_elem?_lt (target_dir type path) c y in
      inr (inr (sym (get_elem?-take len path c (omega (arith, lt, length-target_dir))) ∙ y))

  weaken : {pc : Pathcomp} {dir : Bytes} (n : ℕ) → Led pc dir len → Led pc dir (n + len)
  weaken n o = record {
    events = o.events;
    gets = o.gets;
    walk = o.walk;
    few = let b = o.few in omega (arith, b);
  }

  resumed :
      (p : Bytes)
      → is_absolute p ≡ false
      → let c : ℕ = commonpathlength p (target_dir type path) in
        Led
          (climbing (some path) len none p (length p) (if length p == c then len else c) (length p))
          p
          (length p + len)
  resumed p r =
      let c : ℕ = commonpathlength p (target_dir type path) in
      let l = commonpathlength-IsLongest p (target_dir type path) in
      let in_p : c ≤ length p = l.in_a in
      let in_dir : c ≤ length (target_dir type path) = l.in_b in
      let in_path : c ≤ len = omega (arith, in_dir, length-target_dir) in
      let same : take c p ≡ take c path =
        take-Agree p (target_dir type path) c in_p in_dir l.agree ∙ take-take c len path in_path in
      let all : take (length p) p ≡ p = take_all (length p) p (omega arith) in
      let place : (c ≡ len) ⊎ ((c ≡ 0) ⊎ (get_elem? path c ≡ some slash)) =
        shared_place c (ends_relative _ c (is_absolute-take len path relative) l.ends_b) in
      elim (Bool-cases (length p == c)) [
        | inl y ↦
            let e : length p ≡ c = (==_iff _ _).0 y in
            let start : take c path ≡ p = sym same ∙ ap (λ i. take i p) (sym e) ∙ all in
            let o : Led (going path (some p) (length p) none len c) p len =
              subst (λ d. Led (going path (some p) (length p) none len c) d len) start
                (onward (some p) (length p) c in_path place) in
            rw y (
              weaken (length p)
                (subst (λ i. Led (going path (some p) (length p) none len i) p len) (sym e) o))
        | inr other ↦
            let lt : c < length p = ground (arith, in_p) in
            let at : (c ≡ 0) ⊎ (get_elem? p c ≡ some slash) = elim (ends_relative p c r l.ends_a) [
              | inl e ↦ absurd (omega (arith, e, lt))
              | inr z ↦ z
            ] in
            let o =
              climb (some path) len (length p) none c (target_dir type path)
                (resting (target_dir type path) len len) len (length p) p (length p) r (omega arith)
                lt at (omega arith)
                (λ q' e.
                  subst (λ d. Led (going path (some q') (length p) none len c) d len) (sym same)
                    (onward (some q') (length p) c in_path place)) in
            rw other (
              subst
                (λ d.
                  Led (climbing (some path) len none p (length p) c (length p)) d (length p + len))
                all o)
      ]

  -- The walk that the put and the calls after it come to.
  abbrev Walks : Pathcomp → Bytes → Type 0
  Walks pc dir =
      (mid last : Pathcomp) × (events : List Event) × (pathcomp_put pc type path ≡ done (true, mid))
      × (get_all (suc (length dir + length path)) mid ≡ done (events, last))
      × Walk dir events (target_dir type path)
      × IsResting last (target_dir type path)

  walks :
      (pc mid : Pathcomp) (dir : Bytes)
      → pathcomp_put pc type path ≡ done (true, mid)
      → Led mid dir (length dir + len)
      → Walks pc dir
  walks pc mid dir e o =
      let few = o.few in
      let le = target_length_le type path in
      (
        mid,
        resting (target_dir type path) len len,
        o.events,
        e,
        get_all-Gets (suc (length dir + length path)) mid o.events _ o.gets
            (omega (arith, few, le)),
        o.walk,
        rested (target_dir type path) len (is_absolute-take len path relative) length-target_dir,
      )

  resting-Walks : (p : Bytes) → is_absolute p ≡ false → Walks (resting p (length p) (length p)) p
  unfolding pathcomp_put
  resting-Walks p r =
      let all : take (length p) p ≡ p = take_all (length p) p (omega arith) in
      let c : ℕ = commonpathlength p (target_dir type path) in
      walks (resting p (length p) (length p))
        (climbing (some path) len none p (length p) (if length p == c then len else c) (length p)) p
        (rw (pathcomp_put, relative, all) refl) (resumed p r)

  -- Between two paths, any relative path is accepted. As many calls of pathcomp_get() as both paths
  -- have bytes, and one more, return a walk from the directory that pathcomp was in to the one that
  -- the path leads to; no assertion fails, and pathcomp is at rest there.
  pub pathcomp_walks :
      (pc : Pathcomp) (dir : Bytes)
      → IsResting pc dir
      → (mid last : Pathcomp) × (events : List Event) × (pathcomp_put pc type path
          ≡ done (true, mid))
        × (get_all (suc (length dir + length path)) mid ≡ done (events, last))
        × Walk dir events (target_dir type path)
        × IsResting last (target_dir type path)
  unfolding pathcomp_put pathcomp_new
  pathcomp_walks _ _ (fresh memory) =
      walks (pathcomp_new memory) _ [] (rw (pathcomp_put, relative) refl)
        (weaken 0 (onward none 0 0 (omega arith) (inr (inl refl))))
  pathcomp_walks _ _ (rested p goal r e) =
      subst (λ g. Walks (resting p g g) p) e (resting-Walks p r)
