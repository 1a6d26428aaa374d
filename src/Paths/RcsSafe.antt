-- ===== src/Paths/RcsSafe.antt =====
-- Which names isrcs() accepts, and where checkoutpath() puts them.
use csup.Prelude.{
  take, take-append-drop, ap, ◌∙◌, sym, ◌++◌, length-append, get_or-append_add, take-append_add,
  ltb, Option, ℕ, zero, suc, ◌+◌, ◌-◌, ◌≤◌, ◌≡◌, ◌≢◌, refl, subst, inl, inr, arith, Bytes, All,
  Bool, true, false, ◌==◌, ◌||◌, ◌&&◌, Bool-cases, Option-cases, if◌then◌else◌, List, [], ◌∷◌,
  Option, none, some, length, drop, get_or,
}
use csup.Paths.Common.{slash}
use csup.Paths.Rcs.{
  checkoutpath, dot, starts_with_slash, is_empty, after_slash, at_start, bad_dots, isrcs,
}

-- What stands before the first slash of a path.
abbrev pub first_component : Bytes → Bytes
first_component [] = []
first_component (c ∷ s) = if c == slash then [] else c ∷ first_component s

-- What stands between the others, and behind the last one.
abbrev pub later_components : Bytes → List Bytes
later_components [] = []
later_components (c ∷ s) =
    if c == slash then first_component s ∷ later_components s else later_components s

abbrev pub components : Bytes → List Bytes
components s = first_component s ∷ later_components s

abbrev pub dotdot : Bytes
dotdot = dot ∷ dot ∷ []

abbrev pub NotDotDot : Bytes → Type 0
NotDotDot x = x ≢ dotdot

-- A component begins here.
abbrev fresh : Option ℕ → Bool
fresh prev = at_start prev || after_slash prev

first_component-ne_nil :
    (s : Bytes) → is_empty s ≡ false → starts_with_slash s ≡ false → first_component s ≢ []
unfolding starts_with_slash
first_component-ne_nil [] e h = cc
first_component-ne_nil (c ∷ s) e h = rw h (λ p. cc)

-- Two dots: the component that they begin goes on, or has begun before.
dots-safe :
    (prev : Option ℕ) (rest : Bytes)
    → (at_start prev || is_empty rest || (after_slash prev && starts_with_slash rest)) ≡ false
    → fresh prev ≡ true
    → first_component rest ≢ []
dots-safe none rest h f = absurd (ground arith)
dots-safe (some c) rest h f = first_component-ne_nil rest (ground arith) (ground arith)

-- What an acceptable name has behind the first byte, or the place where a component begins.
abbrev SafeFrom : Option ℕ → Bytes → Type 0
SafeFrom prev s =
    All NotDotDot (later_components s) × (fresh prev ≡ true → first_component s ≢ dotdot)

dots-SafeFrom :
    (prev : Option ℕ) (rest : Bytes)
    → (bad_dots (some dot) rest ≡ false → SafeFrom (some dot) rest)
    → bad_dots prev (dot ∷ dot ∷ rest) ≡ false
    → SafeFrom prev (dot ∷ dot ∷ rest)
unfolding bad_dots
dots-SafeFrom prev rest ih h =
    ((ih (ground arith)).0, λ f e. dots-safe prev rest (ground arith) f (cc))

first_dot :
    (c d : ℕ) (s : Bytes)
    → ((c == dot) && (d == dot)) ≡ false
    → c ∷ first_component (d ∷ s) ≢ dotdot
first_dot c d s h = elim (Bool-cases (d == slash)) [
  | inl e ↦ rw e (λ p. cc)
  | inr e ↦ rw e (λ p. ground arith)
]

bad_dots-SafeFrom : (prev : Option ℕ) (s : Bytes) → bad_dots prev s ≡ false → SafeFrom prev s
unfolding bad_dots
bad_dots-SafeFrom prev [] h = (tt, λ f e. cc)
bad_dots-SafeFrom prev (c ∷ []) h = elim (Bool-cases (c == slash)) [
  | inl e ↦ rw e ((λ p. cc, tt), λ f p. cc)
  | inr e ↦ rw e (tt, λ f p. cc)
]
bad_dots-SafeFrom prev (c ∷ d ∷ rest) h = elim (Bool-cases ((c == dot) && (d == dot))) [
  | inl both ↦
      let ec : c ≡ dot = ground arith in
      let ed : d ≡ dot = ground arith in
      rw (ec, ed) (dots-SafeFrom prev rest (bad_dots-SafeFrom (some dot) rest) (rw (ec, ed) at h))
  | inr other ↦
      let ih = bad_dots-SafeFrom (some c) (d ∷ rest) (ground arith) in
      elim (Bool-cases (c == slash)) [
        | inl e ↦ rw e ((ih.1 (rw e), ih.0), λ f p. cc)
        | inr e ↦ rw e (ih.0, λ f. first_dot c d rest other)
      ]
]

-- The two last bytes.
drop_two :
    (f : Bytes) (k a b : ℕ)
    → length f ≡ k + 2
    → get_or f k 0 ≡ a
    → get_or f (k + 1) 0 ≡ b
    → drop k f ≡ a ∷ b ∷ []
drop_two [] k a b h ha hb = absurd (omega arith)
drop_two (x ∷ []) k a b h ha hb = absurd (omega arith)
drop_two (x ∷ y ∷ []) zero a b h ha hb = cc (ha, hb)
drop_two (x ∷ y ∷ z ∷ f) zero a b h ha hb = absurd (omega arith)
drop_two (x ∷ f) (suc k) a b h ha hb =
    let e : suc k + 1 ≡ suc (k + 1) = omega arith in
    drop_two f k a b (omega arith) ha (subst (λ n. get_or (x ∷ f) n 0 ≡ b) e hb)

abbrev pub rcs_suffix : Bytes
rcs_suffix = b',' ∷ b'v' ∷ []

-- What isrcs() and with it checkoutpath() promise of an accepted name.
pub record IsRcsName (file : Bytes) : Type 0 where
  pub relative : starts_with_slash file ≡ false
  pub no_parent : All NotDotDot (components file)
  pub long : 2 ≤ length file
  pub suffix : drop (length file - 2) file ≡ rcs_suffix

isrcs-long : (file : Bytes) (n : ℕ) → isrcs file ≡ some n → 2 ≤ length file
unfolding isrcs
isrcs-long file n h = ground arith

isrcs-IsRcsName : (file : Bytes) (n : ℕ) → isrcs file ≡ some n → IsRcsName file × (n ≡ length file)
unfolding isrcs
isrcs-IsRcsName file n h =
    let long : 2 ≤ length file = isrcs-long file n h in
    let behind : length file - 1 ≡ length file - 2 + 1 = omega arith in
    let v : get_or file (length file - 1) 0 ≡ b'v' = ground arith in
    let safe = bad_dots-SafeFrom none file (ground arith) in
    (
      record {
        relative = ground arith;
        no_parent = (safe.1 refl, safe.0);
        long = long;
        suffix =
            drop_two file (length file - 2) b',' b'v' (omega arith) (ground arith)
              (subst (λ k. get_or file k 0 ≡ b'v') behind v);
      },
      ground arith,
    )

-- If checkoutpath() answers, the file's name is relative, has no component "..", and ends in ",v";
-- the answer is the prefix, a slash and the name without that suffix.
pub checkoutpath-IsRcsName :
    (prefix file path : Bytes)
    → checkoutpath prefix file ≡ some path
    → IsRcsName file
      × (base : Bytes) × (file ≡ base ++ rcs_suffix)
      × (path ≡ prefix ++ (slash ∷ base))
unfolding checkoutpath
checkoutpath-IsRcsName prefix file path h = elim (Option-cases (isrcs file)) [
  | inl e ↦ absurd (ground arith)
  | inr (n, e) ↦
      let (name, len) = isrcs-IsRcsName file n e in
      let base = take (length file - 2) file in
      (
        name,
        base,
        sym (take-append-drop (length file - 2) file) ∙ ap (λ t. base ++ t) name.suffix,
        ground (arith, len),
      )
]

-- A directory's name stays acceptable with more bytes behind it, if those are acceptable.
bad_dots-append :
    (prev : Option ℕ) (d t : Bytes)
    → bad_dots prev d ≡ false
    → is_empty d ≡ false
    → ((c : ℕ) → bad_dots (some c) (slash ∷ t) ≡ false)
    → bad_dots prev (d ++ (slash ∷ t)) ≡ false
unfolding bad_dots starts_with_slash
bad_dots-append prev [] t h s k = cc
bad_dots-append prev (c ∷ []) t h s k = ground (arith, k c)
bad_dots-append prev (c ∷ d ∷ []) t h s k = ground (arith, k d, bad_dots-append (some c) (d ∷ []) t)
bad_dots-append prev (c ∷ d ∷ e ∷ rest) t h s k =
    ground (arith, bad_dots-append (some d) (e ∷ rest) t, bad_dots-append (some c) (d ∷ e ∷ rest) t)

starts_with_slash-append :
    (d t : Bytes) → is_empty d ≡ false → starts_with_slash (d ++ t) ≡ starts_with_slash d
unfolding starts_with_slash
starts_with_slash-append [] t h = cc
starts_with_slash-append (c ∷ d) t h = refl

-- "/.." and "/..,v"
abbrev pub parent : Bytes
parent = slash ∷ dotdot

abbrev pub parent_file : Bytes
parent_file = slash ∷ dot ∷ dot ∷ rcs_suffix

isrcs-parent :
    (d : Bytes)
    → is_empty d ≡ false
    → starts_with_slash d ≡ false
    → bad_dots none d ≡ false
    → isrcs (d ++ parent_file) ≡ some (length (d ++ parent_file))
unfolding isrcs
isrcs-parent d ne rel ok =
    let len = length-append d parent_file in
    let all : ℕ = length (d ++ parent_file) in
    let dots =
      bad_dots-append none d (dot ∷ dot ∷ rcs_suffix) ok ne
        (λ c. unfold bad_dots starts_with_slash in refl) in
    let long : ltb all 2 ≡ false = ground (arith, len) in
    let v = get_or-append_add d parent_file (all - 1) 4 0 (omega (arith, len)) in
    let comma = get_or-append_add d parent_file (all - 2) 3 0 (omega (arith, len)) in
    rw (starts_with_slash-append d parent_file ne, rel, dots, long, v, comma)

-- For every relative directory name that isrcs() has no objection to, it also accepts that name
-- followed by "/..,v", and checkoutpath() then names the parent of the directory, "/.." included.
pub checkoutpath-parent :
    (prefix d : Bytes)
    → is_empty d ≡ false
    → starts_with_slash d ≡ false
    → bad_dots none d ≡ false
    → checkoutpath prefix (d ++ parent_file) ≡ some (prefix ++ (slash ∷ (d ++ parent)))
unfolding checkoutpath
checkoutpath-parent prefix d ne rel ok =
    rw (isrcs-parent d ne rel ok, checkoutpath)
      (ap (λ b. some (prefix ++ (slash ∷ b)))
        (take-append_add d parent_file (length (d ++ parent_file) - 2) 3
          (omega (arith, length-append d parent_file))))
