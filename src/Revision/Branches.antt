-- ===== src/Revision/Branches.antt =====
-- Revisions on the trunk, and the branch that a revision is on.
use csup.Prelude.{
  ◌≡◌, refl, sym, ◌∙◌, ap, append_assoc, Bool, true, false, Bytes, All, List, [], ◌∷◌, ◌++◌, Option,
  none, some,
}
use csup.Prelude.Run.{done, abort}
use csup.Paths.Rcs.{dot}
use csup.Revision.{after_dot, rcsrev_istrunk, rcsrev_prefix}
use csup.Revision.Numeric.{NoDot, join}

abbrev pub has_no_more : List Bytes → Bool
has_no_more [] = true
has_no_more (x ∷ r) = false

-- The prefix of a revision that consists of these fields and one more.
abbrev pub prefix_of : List Bytes → Option Bytes
prefix_of [] = none
prefix_of (x ∷ r) = some (join (x ∷ r))

after_dot-none : (x : Bytes) → All NoDot x → after_dot x ≡ none
unfolding after_dot
after_dot-none [] h = refl
after_dot-none (c ∷ x) h = rw h.0 (after_dot-none x h.1)

after_dot-some : (x s : Bytes) → All NoDot x → after_dot (x ++ (dot ∷ s)) ≡ some s
unfolding after_dot
after_dot-some [] s h = refl
after_dot-some (c ∷ x) s h = rw h.0 (after_dot-some x s h.1)

prefix-none : (x : Bytes) → All NoDot x → rcsrev_prefix x ≡ none
unfolding rcsrev_prefix
prefix-none [] h = refl
prefix-none (c ∷ x) h = rw (prefix-none x h.1, h.0) refl

prefix-some : (p x : Bytes) → All NoDot x → rcsrev_prefix (p ++ (dot ∷ x)) ≡ some p
unfolding rcsrev_prefix
prefix-some [] x h = rw (prefix-none x h) refl
prefix-some (c ∷ p) x h = rw (prefix-some p x h) refl

join-append :
    (y : Bytes) (a : List Bytes) (x : Bytes)
    → join ((y ∷ a) ++ (x ∷ [])) ≡ join (y ∷ a) ++ (dot ∷ x)
join-append y [] x = refl
join-append y (z ∷ a) x =
    ap (λ s. y ++ (dot ∷ s)) (join-append z a x)
    ∙ sym (append_assoc y (dot ∷ join (z ∷ a)) (dot ∷ x))

istrunk-two :
    (x y : Bytes) (r : List Bytes)
    → All NoDot x
    → All NoDot y
    → rcsrev_istrunk (join (x ∷ y ∷ r)) ≡ done (has_no_more r)
unfolding rcsrev_istrunk
istrunk-two x y [] hx hy = rw (rcsrev_istrunk, after_dot-some x y hx, after_dot-none y hy) refl
istrunk-two x y (z ∷ r) hx hy =
    rw (rcsrev_istrunk, after_dot-some x (join (y ∷ z ∷ r)) hx, after_dot-some y (join (z ∷ r)) hy)
      refl

-- For fields without dots in them: a revision of two or more fields is on the trunk exactly if it
-- has two, and one of a single field makes rcsrev_istrunk() follow a null pointer; the prefix of a
-- revision is that revision less its last field, and a single field has none.
pub revision_branches :
    (x y : Bytes) (r : List Bytes)
    → All NoDot x
    → All NoDot y
    → (rcsrev_istrunk (join (x ∷ [])) ≡ abort)
      × (rcsrev_istrunk (join (x ∷ y ∷ r)) ≡ done (has_no_more r))
      × (rcsrev_prefix (join (r ++ (x ∷ []))) ≡ prefix_of r)
unfolding rcsrev_istrunk
revision_branches x y r hx hy =
    (rw (rcsrev_istrunk, after_dot-none x hx) refl, istrunk-two x y r hx hy, prefix r)
  where
    prefix : (a : List Bytes) → rcsrev_prefix (join (a ++ (x ∷ []))) ≡ prefix_of a
    prefix [] = prefix-none x hx
    prefix (z ∷ a) = ap rcsrev_prefix (join-append z a x) ∙ prefix-some (join (z ∷ a)) x hx
