-- ===== src/Pathcomp/Steps.antt =====
-- The calls of pathcomp_get() in a row, up to the shared directory and down to the target.
use csup.Prelude.{
  ℕ, zero, suc, ◌+◌, ◌<◌, ◌≤◌, ◌≡◌, refl, sym, ◌∙◌, ap, subst, arith, true, false, ltb, leb, lt→ltb,
  le→leb, ◌==◌, ==_iff, ◌⊎◌, inl, inr, Bool-cases, Bytes, List, [], ◌∷◌, length, take, get_elem?,
  get_or, Option, none, some, length-take,
}
use csup.Prelude.Run.{done}
use csup.Prelude.Slices.{take-take, get_elem?-take, get_or-some}
use csup.Paths.Common.{slash}
use csup.Pathcomp.{
  Pathcomp, Event, dirdown, dirup, is_absolute, dir_length, pathcomp_get, get_up, get_down,
  get_done, get_all,
}
use csup.Pathcomp.Slashes.{HasNoSlash, child, parted, slash-dir_length}
use csup.Pathcomp.Down.{EndsTarget, next_slash, entered}

-- A walk over directories: each event leaves the directory that it names, for the one it is in, or
-- enters a directory in the one before.
pub data Walk : Bytes → List Event → Bytes → Type 0 where
  stay : (d : Bytes) → Walk d [] d
  up :
      (d dir plain : Bytes) (es : List Event) (to : Bytes)
      → d ≡ child dir plain
      → HasNoSlash plain
      → Walk dir es to
      → Walk d ((dirup, d) ∷ es) to
  down :
      (d sub plain : Bytes) (es : List Event) (to : Bytes)
      → sub ≡ child d plain
      → HasNoSlash plain
      → Walk sub es to
      → Walk d ((dirdown, sub) ∷ es) to

-- What pathcomp_get() returns until it returns 0.
pub data Gets : Pathcomp → List Event → Pathcomp → Type 0 where
  ended : (pc last : Pathcomp) → pathcomp_get pc ≡ done (none, last) → Gets pc [] last
  got :
      (pc next last : Pathcomp) (e : Event) (es : List Event)
      → pathcomp_get pc ≡ done (some e, next)
      → Gets next es last
      → Gets pc (e ∷ es) last

pub get_all-Gets :
    (f : ℕ) (pc : Pathcomp) (es : List Event) (last : Pathcomp)
    → Gets pc es last
    → length es < f
    → get_all f pc ≡ done (es, last)
unfolding get_all
get_all-Gets zero pc es last g h = absurd (omega arith)
get_all-Gets (suc f) _ _ _ (ended pc last e) h = rw (get_all, e) refl
get_all-Gets (suc f) _ _ _ (got pc next last e es k g) h =
    let rest = get_all-Gets f next es last g (omega (arith, h)) in rw (get_all, k, rest) refl

-- A walk of at most `n` steps that the calls return.
pub record Reached (pc : Pathcomp) (from to : Bytes) (last : Pathcomp) (n : ℕ) : Type 0 where
  pub events : List Event
  pub gets : Gets pc events last
  pub walk : Walk from events to
  pub few : length events ≤ n

-- At rest in the directory `p`, with the goal of the last put.
abbrev pub resting : Bytes → ℕ → ℕ → Pathcomp
resting p len goal = record {
  target = none;
  targetlen = 0;
  trashed = none;
  prev = some p;
  prevlen = len;
  goal = goal;
  curlen = goal;
}

abbrev pub going : Bytes → Option Bytes → ℕ → Option ℕ → ℕ → ℕ → Pathcomp
going t prev prevlen trashed goal k = record {
  target = some t;
  targetlen = goal;
  trashed = trashed;
  prev = prev;
  prevlen = prevlen;
  goal = goal;
  curlen = k;
}

module _ (t : Bytes) (goal : ℕ) (le : goal ≤ length t) (ends : 0 < goal → EndsTarget t goal)
    (relative : is_absolute t ≡ false) (prev : Option Bytes) (prevlen : ℕ) where
  at_goal :
      (trashed : Option ℕ) (n : ℕ)
      → Reached
          (going t prev prevlen trashed goal goal)
          (take goal t)
          (take goal t)
          (resting (take goal t) goal goal)
          n
  unfolding pathcomp_get get_done
  at_goal trashed n =
      let same : ltb goal goal ≡ false = ground arith in
      record {
        events = [];
        gets = ended _ _ (rw (pathcomp_get, same, get_done) refl);
        walk = stay (take goal t);
        few = omega arith;
      }

  -- One directory further down.
  enter :
      (trashed : Option ℕ) (k : ℕ)
      → k < goal
      → (k ≡ 0) ⊎ (get_elem? t k ≡ some slash)
      → (left : Option ℕ) × (pathcomp_get (going t prev prevlen trashed goal k)
          ≡ done (
            some (dirdown, take (next_slash t goal k) t),
            going t prev prevlen left goal (next_slash t goal k),
          ))
  unfolding pathcomp_get get_down
  enter trashed k lt at =
      let e = entered t goal k le (ends (omega (arith, lt))) relative lt at in
      let not_up : ltb goal k ≡ false = ground arith in
      let down_test : ltb k goal ≡ true = lt→ltb k goal lt in
      elim e.stops [
        | inl y ↦
            let c : get_or t (next_slash t goal k) 0 ≡ slash =
              get_or-some t (next_slash t goal k) slash 0 y in
            (some (next_slash t goal k), rw (pathcomp_get, not_up, down_test, get_down, c) refl)
        | inr (g, c) ↦ (none, rw (pathcomp_get, not_up, down_test, get_down, c) refl)
      ]

  abbrev Descent : ℕ → Option ℕ → ℕ → Type 0
  Descent n trashed k =
      Reached (going t prev prevlen trashed goal k) (take k t) (take goal t)
        (resting (take goal t) goal goal) n

  arrived : (n : ℕ) (trashed : Option ℕ) (k : ℕ) → k ≡ goal → Descent n trashed k
  arrived n trashed k e = subst (Descent n trashed) (sym e) (at_goal trashed n)

  -- Down to the goal.
  pub descend :
      (n : ℕ) (trashed : Option ℕ) (k : ℕ)
      → k ≤ goal
      → (k ≡ goal) ⊎ ((k ≡ 0) ⊎ (get_elem? t k ≡ some slash))
      → goal ≤ n + k
      → Descent n trashed k
  descend zero trashed k h at enough = arrived zero trashed k (omega arith)
  descend (suc n) trashed k h (inl e) enough = arrived (suc n) trashed k e
  descend (suc n) trashed k h (inr place) enough = elim (Bool-cases (k == goal)) [
    | inl y ↦ arrived (suc n) trashed k ((==_iff k goal).0 y)
    | inr other ↦
        let lt : k < goal = ground arith in
        let e = entered t goal k le (ends (omega (arith, lt))) relative lt place in
        let (left, step) = enter trashed k lt place in
        let deeper = e.deeper in
        let next : (next_slash t goal k ≡ goal)
            ⊎ ((next_slash t goal k ≡ 0) ⊎ (get_elem? t (next_slash t goal k) ≡ some slash)) =
          elim e.stops [ inl y ↦ inr (inr y) | inr (g, c) ↦ inl g ] in
        let onward =
          descend n left (next_slash t goal k) e.within next (omega (arith, deeper, enough)) in
        record {
          events = (dirdown, take (next_slash t goal k) t) ∷ onward.events;
          gets = got _ _ _ _ _ step onward.gets;
          walk = down _ _ e.plain _ _ e.named e.no_slash onward.walk;
          few = let b = onward.few in omega (arith, b);
        }
  ]

-- On the way up to the length `goal`, behind which the target is `len` bytes long.
abbrev pub climbing : Option Bytes → ℕ → Option ℕ → Bytes → ℕ → ℕ → ℕ → Pathcomp
climbing target len trashed q prevlen goal k = record {
  target = target;
  targetlen = len;
  trashed = trashed;
  prev = some q;
  prevlen = prevlen;
  goal = goal;
  curlen = k;
}

pub is_absolute-take : (k : ℕ) (q : Bytes) → is_absolute q ≡ false → is_absolute (take k q) ≡ false
is_absolute-take zero q r = refl
is_absolute-take (suc k) [] r = refl
is_absolute-take (suc k) (c ∷ q) r = r

module _ (target : Option Bytes) (len prevlen : ℕ) (trashed : Option ℕ) (goal : ℕ) (to : Bytes)
    (last : Pathcomp) (m : ℕ) where
  -- Up to the shared directory, and on from there.
  pub climb :
      (n : ℕ) (q : Bytes) (k : ℕ)
      → is_absolute q ≡ false
      → k ≤ length q
      → goal < k
      → (goal ≡ 0) ⊎ (get_elem? q goal ≡ some slash)
      → k ≤ n + goal
      → ((q' : Bytes)
          → take goal q' ≡ take goal q
          → Reached (climbing target len trashed q' prevlen len goal) (take goal q) to last m)
      → Reached (climbing target len trashed q prevlen goal k) (take k q) to last (n + m)
  unfolding pathcomp_get get_up
  climb zero q k r le lt at enough onward = absurd (omega arith)
  climb (suc n) q k r le lt at enough onward =
      let d : Bytes = take k q in
      let len_d : length d ≡ k = let b = length-take k q in omega (arith, b) in
      let p = parted d (is_absolute-take k q r) (omega (arith, len_d, lt)) in
      let up_test : ltb goal k ≡ true = lt→ltb goal k lt in
      let shorter = p.dir_shorter in
      let above : goal ≤ dir_length d = elim at [
        | inl z ↦ omega (arith, z)
        | inr y ↦ slash-dir_length d goal (get_elem?-take k q goal lt ∙ y)
      ] in
      let front : take goal d ≡ take goal q = take-take goal k q (omega (arith, lt)) in
      elim (Bool-cases (dir_length d == goal)) [
        | inl y ↦
            let there : dir_length d ≡ goal = (==_iff _ _).0 y in
            let low : leb (dir_length d) goal ≡ true = le→leb _ _ (omega (arith, there)) in
            let o = onward d front in
            let in_dir : Walk p.dir o.events to =
              subst (λ x. Walk x o.events to)
                (sym front ∙ ap (λ i. take i d) (sym there) ∙ p.dir_taken) o.walk in
            record {
              events = (dirup, d) ∷ o.events;
              gets = got _ _ _ _ _ (rw (pathcomp_get, up_test, get_up, low, y, there) refl) o.gets;
              walk = up d p.dir p.plain _ _ p.parts p.no_slash in_dir;
              few = let b = o.few in omega (arith, b);
            }
        | inr other ↦
            let high : leb (dir_length d) goal ≡ false = ground (arith, above) in
            let o =
              climb n d (dir_length d) (is_absolute-take k q r) (omega (arith, shorter))
                (ground (arith, above))
                (elim at [ inl z ↦ inl z | inr y ↦ inr (get_elem?-take k q goal lt ∙ y) ])
                (omega (arith, shorter, len_d, enough))
                (λ q' e.
                  subst (λ x. Reached (climbing target len trashed q' prevlen len goal) x to last m)
                    (sym front) (onward q' (e ∙ front))) in
            let in_dir : Walk p.dir o.events to =
              subst (λ x. Walk x o.events to) p.dir_taken o.walk in
            record {
              events = (dirup, d) ∷ o.events;
              gets = got _ _ _ _ _ (rw (pathcomp_get, up_test, get_up, high) refl) o.gets;
              walk = up d p.dir p.plain _ _ p.parts p.no_slash in_dir;
              few = let b = o.few in omega (arith, b);
            }
      ]
