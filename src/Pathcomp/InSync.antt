-- ===== src/Pathcomp/InSync.antt =====
-- pathcomp.c: one path in the directory where pathcomp is, one directory that is entered, and the
-- directory itself that is left.
use csup.Prelude.{
  ℕ, suc, ◌+◌, ◌-◌, ◌<◌, ◌≡◌, ◌≢◌, refl, sym, ◌∙◌, ap, arith, true, false, ltb, leb, lt→ltb, ◌==◌,
  if◌then◌else◌, Bytes, [], ◌∷◌, ◌++◌, length, length-append, take, drop, get_or, Option, none,
  some, take-append_le, take_all,
}
use csup.Prelude.Run.{done}
use csup.Paths.Common.{slash, commonpathlength, common_from}
use csup.Pathcomp.{
  Pathcomp, PcType, dirdown, file, dirup, last_slash, dir_length, target_length, is_absolute,
  first_slash, start_of, pathcomp_new, pathcomp_put, pathcomp_get, get_up, get_down, get_done,
}
use csup.Pathcomp.Slashes.{HasNoSlash, child}
use csup.Pathcomp.Steps.{resting}

-- Where a path is followed by a slash, the paths share all of it.
common-extended :
    (a b : Bytes) (i ls : ℕ)
    → (common_from a (a ++ (slash ∷ b)) i ls ≡ i + length a)
      × (common_from (a ++ (slash ∷ b)) a i ls ≡ i + length a)
      × (common_from a a i ls ≡ i + length a)
unfolding common_from
common-extended [] b i ls = (omega arith, omega arith, omega arith)
common-extended (c ∷ a) b i ls =
    let r = common-extended a b (i + 1) (if c == slash then if i == 0 then 1 else i else ls) in
    let e : (c == c) ≡ true = ground arith in
    let k : i + 1 + length a ≡ i + suc (length a) = omega arith in
    (rw e (r.0 ∙ k), rw e (r.1 ∙ k), rw e (r.2 ∙ k))

last_slash-plain : (p : Bytes) → HasNoSlash p → last_slash p ≡ none
last_slash-plain [] h = refl
last_slash-plain (c ∷ p) h = let e = h.0 in rw (last_slash-plain p h.1, e) refl

last_slash-append : (a p : Bytes) → HasNoSlash p → last_slash (a ++ (slash ∷ p)) ≡ some (length a)
last_slash-append [] p h = rw (last_slash-plain p h) refl
last_slash-append (c ∷ a) p h = rw (last_slash-append a p h) refl

first_slash-plain : (p : Bytes) → HasNoSlash p → first_slash p ≡ length p
first_slash-plain [] h = refl
first_slash-plain (c ∷ p) h = let e = h.0 in rw e (ap suc (first_slash-plain p h.1))

-- The directory that a child is in.
pub dir_length-child : (dir p : Bytes) → HasNoSlash p → dir_length (child dir p) ≡ length dir
dir_length-child [] p h = rw (dir_length, last_slash-plain p h) refl
dir_length-child (c ∷ dir) p h = rw (dir_length, last_slash-append dir p h) refl

take-child : (dir p : Bytes) → take (length dir) (child dir p) ≡ dir
take-child [] p = refl
take-child (c ∷ dir) p =
    ap (λ s. c ∷ s)
      (take-append_le (length dir) dir (slash ∷ p) (omega arith)
        ∙ take_all (length dir) dir (omega arith))

common_top : (p : Bytes) → (commonpathlength [] p ≡ 0) × (commonpathlength p [] ≡ 0)
unfolding commonpathlength common_from
common_top [] = (refl, refl)
common_top (c ∷ p) = (ground arith, ground arith)

common_self : (d : Bytes) → commonpathlength d d ≡ length d
unfolding commonpathlength
common_self d = let e = (common-extended d [] 0 0).2 in e ∙ omega arith

-- What a path shares with the directory that it is in.
common-child :
    (dir p : Bytes)
    → (commonpathlength dir (child dir p) ≡ length dir)
      × (commonpathlength (child dir p) dir ≡ length dir)
common-child [] p = common_top p
common-child (c ∷ dir) p =
    unfold commonpathlength in
    (let e = common-extended (c ∷ dir) p 0 0 in
      let k : 0 + length (c ∷ dir) ≡ length (c ∷ dir) = omega arith in (e.0 ∙ k, e.1 ∙ k))

-- At rest in a directory: new, in the top directory, or behind a path.
pub data IsAt : Pathcomp → Bytes → Type 0 where
  new : (memory : ℕ) → IsAt (pathcomp_new memory) []
  behind :
      (dir : Bytes) → is_absolute dir ≡ false → IsAt (resting dir (length dir) (length dir)) dir

put_at :
    (pc : Pathcomp) (dir : Bytes) (type : PcType) (path : Bytes) (n g : ℕ)
    → IsAt pc dir
    → is_absolute path ≡ false
    → target_length type path ≡ n
    → commonpathlength dir (take n path) ≡ g
    → pathcomp_put pc type path
      ≡ done (
        true,
        record {
          target = some path;
          targetlen = n;
          trashed = none;
          prev = pc.prev;
          prevlen = pc.prevlen;
          goal = if length dir == g then n else g;
          curlen = length dir;
        },
      )
unfolding pathcomp_put pathcomp_new
put_at _ _ type path n g (new memory) r e k =
    let z : 0 ≡ g = sym (common_top (take n path)).0 ∙ k in rw (pathcomp_put, r, e, ← z) refl
put_at _ _ type path n g (behind dir a) r e k =
    let all = take_all (length dir) dir (omega arith) in rw (pathcomp_put, r, e, all, k) refl

IsAt-relative : (pc : Pathcomp) (dir : Bytes) → IsAt pc dir → is_absolute dir ≡ false
IsAt-relative _ _ (new memory) = refl
IsAt-relative _ _ (behind dir a) = a

child-relative :
    (dir p : Bytes) → is_absolute dir ≡ false → HasNoSlash p → is_absolute (child dir p) ≡ false
child-relative [] [] a h = refl
child-relative [] (c ∷ p) a h = h.0
child-relative (c ∷ dir) p a h = a

-- Where the path `t` leads to, with what it was put with.
abbrev arrived : Bytes → Option Bytes → ℕ → ℕ → Pathcomp
arrived t prev prevlen n = record {
  target = some t;
  targetlen = n;
  trashed = none;
  prev = prev;
  prevlen = prevlen;
  goal = n;
  curlen = n;
}

-- No directory is entered or left, and pathcomp rests where it was.
get_rest :
    (t dir : Bytes) (prev : Option Bytes) (prevlen n : ℕ)
    → take n t ≡ dir
    → n ≡ length dir
    → is_absolute dir ≡ false
    → (last : Pathcomp) × (pathcomp_get (arrived t prev prevlen n) ≡ done (none, last))
      × IsAt last dir
unfolding pathcomp_get get_done
get_rest t dir prev prevlen n e k a =
    let same : ltb n n ≡ false = ground arith in
    (
      resting dir (length dir) (length dir),
      rw (pathcomp_get, same, get_done, e, k) refl,
      behind dir a,
    )

-- A file in the directory where pathcomp is: nothing is returned.
pub file_in_place :
    (pc : Pathcomp) (dir p : Bytes)
    → IsAt pc dir
    → HasNoSlash p
    → (mid last : Pathcomp) × (pathcomp_put pc file (child dir p) ≡ done (true, mid))
      × (pathcomp_get mid ≡ done (none, last))
      × IsAt last dir
file_in_place pc dir p at h =
    let a = IsAt-relative pc dir at in
    let put =
      put_at pc dir file (child dir p) (length dir) (length dir) at (child-relative dir p a h)
        (dir_length-child dir p h)
        (ap (commonpathlength dir) (take-child dir p) ∙ common_self dir) in
    let same : (length dir == length dir) ≡ true = ground arith in
    let (last, e, at') =
      get_rest (child dir p) dir pc.prev pc.prevlen (length dir) (take-child dir p) refl a in
    (_, last, put, rw same e, at')

length-child : (dir p : Bytes) → p ≢ [] → length dir < length (child dir p)
length-child [] [] ne = absurd (ne refl)
length-child [] (c ∷ p) ne = omega arith
length-child (d ∷ dir) p ne = let e = length-append dir (slash ∷ p) in omega (arith, e)

suc_first : (n : ℕ) → suc n + 1 ≡ suc (n + 1)
suc_first n = omega arith

drop_behind : (a p : Bytes) → drop (length a + 1) (a ++ (slash ∷ p)) ≡ p
drop_behind [] p = refl
drop_behind (c ∷ a) p =
    ap (λ n. drop n (c ∷ (a ++ (slash ∷ p)))) (suc_first (length a)) ∙ drop_behind a p

drop-child : (dir p : Bytes) → drop (start_of (length dir)) (child dir p) ≡ p
drop-child [] p = refl
drop-child (c ∷ dir) p = drop_behind (c ∷ dir) p

start-child : (dir p : Bytes) → p ≢ [] → start_of (length dir) + length p ≡ length (child dir p)
start-child [] p ne = omega arith
start-child (c ∷ dir) p ne = let e = length-append dir (slash ∷ p) in omega (arith, e)

get_or_end : (s : Bytes) → get_or s (length s) 0 ≡ 0
get_or_end [] = refl
get_or_end (c ∷ s) = get_or_end s

-- A directory in the one where pathcomp is: it is entered.
pub dir_entered :
    (pc : Pathcomp) (dir p : Bytes)
    → IsAt pc dir
    → HasNoSlash p
    → p ≢ []
    → (mid down last : Pathcomp) × (pathcomp_put pc dirdown (child dir p) ≡ done (true, mid))
      × (pathcomp_get mid ≡ done (some (dirdown, child dir p), down))
      × (pathcomp_get down ≡ done (none, last))
      × IsAt last (child dir p)
unfolding pathcomp_get get_down
dir_entered pc dir p at h ne =
    let a = IsAt-relative pc dir at in
    let sub : Bytes = child dir p in
    let n : ℕ = length sub in
    let all : take n sub ≡ sub = take_all n sub (omega arith) in
    let put =
      put_at pc dir dirdown sub n (length dir) at (child-relative dir p a h) refl
        (ap (commonpathlength dir) all ∙ (common-child dir p).0) in
    let same : (length dir == length dir) ≡ true = ground arith in
    let longer = length-child dir p ne in
    let below : ltb (length dir) n ≡ true = lt→ltb _ _ longer in
    let not_above : ltb n (length dir) ≡ false = ground arith in
    let start = start-child dir p ne in
    let rest : take (n - start_of (length dir)) (drop (start_of (length dir)) sub) ≡ p =
      ap (take (n - start_of (length dir))) (drop-child dir p)
      ∙ take_all _ p (omega (arith, start)) in
    let stop : start_of (length dir)
          + first_slash (take (n - start_of (length dir)) (drop (start_of (length dir)) sub))
        ≡ n =
      ap (λ s. start_of (length dir) + first_slash s) rest
      ∙ ap (λ k. start_of (length dir) + k) (first_slash-plain p h)
      ∙ start in
    let end = get_or_end sub in
    let (last, e, at') =
      get_rest sub sub pc.prev pc.prevlen n all refl (child-relative dir p a h) in
    (
      _,
      arrived sub pc.prev pc.prevlen n,
      last,
      put,
      rw (same, pathcomp_get, not_above, below, get_down, stop, end, all) refl,
      e,
      at',
    )

-- The directory where pathcomp is, which is left for the one it is in.
pub dir_left :
    (pc : Pathcomp) (d dir p : Bytes)
    → IsAt pc d
    → d ≡ child dir p
    → HasNoSlash p
    → p ≢ []
    → is_absolute dir ≡ false
    → (mid up last : Pathcomp) × (pathcomp_put pc dirup d ≡ done (true, mid))
      × (pathcomp_get mid ≡ done (some (dirup, d), up))
      × (pathcomp_get up ≡ done (none, last))
      × IsAt last dir
unfolding pathcomp_get get_up
dir_left _ _ dir p (new memory) e h ne a =
    let longer = length-child dir p ne in
    let none_left : length (child dir p) ≡ 0 = ap length (sym e) in
    absurd (omega (arith, longer, none_left))
dir_left pc _ dir p (behind d r) e h ne a =
    let parent : dir_length d ≡ length dir = ap dir_length e ∙ dir_length-child dir p h in
    let front : take (length dir) d ≡ dir = ap (take (length dir)) e ∙ take-child dir p in
    let put = put_at pc d dirup d (length dir) (length dir) (behind d r) r parent (
      ap (commonpathlength d) front
      ∙ ap (λ x. commonpathlength x dir) e
      ∙ (common-child dir p).1) in
    let longer : length dir < length d =
      let l = length-child dir p ne in let k = ap length e in omega (arith, l, k) in
    let differs : (length d == length dir) ≡ false = ground arith in
    let above : ltb (length dir) (length d) ≡ true = lt→ltb _ _ longer in
    let all : take (length d) d ≡ d = take_all (length d) d (omega arith) in
    let at_goal : leb (length dir) (length dir) ≡ true = ground arith in
    let same : (length dir == length dir) ≡ true = ground arith in
    let (last, e', at') = get_rest d dir (some d) (length d) (length dir) front refl a in
    (
      _,
      arrived d (some d) (length d) (length dir),
      last,
      put,
      rw (differs, pathcomp_get, above, get_up, all, parent, at_goal, same) refl,
      e',
      at',
    )
