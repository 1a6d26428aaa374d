-- ===== src/Keyword/Scan.antt =====
-- keyword.c, memchr(): how a line is cut at its dollars, and a segment at its colon.
use csup.Prelude.{
  ◌≡◌, refl, ap, subst, sym, false, ◌==◌, Bytes, All, [], ◌∷◌, inl, inr, ◌++◌, Option, none, some,
  Bool-cases, Option-cases, arith, ℕ,
}
use csup.Keyword.Tags.{dollar, colon, find, prepend}
use csup.Keyword.Expand.{first_segment, before_colon}

abbrev pub NoDollar : ℕ → Type 0
NoDollar c = (c == dollar) ≡ false

pub NoDollar-append : (s t : Bytes) → All NoDollar s → All NoDollar t → All NoDollar (s ++ t)
NoDollar-append [] t h k = k
NoDollar-append (c ∷ s) t h k = (h.0, NoDollar-append s t h.1 k)

prepend-some :
    (x : ℕ) (o : Option (Bytes × Bytes)) (a r : Bytes)
    → prepend x o ≡ some (a, r)
    → (b : Bytes) × (o ≡ some (b, r)) × (a ≡ x ∷ b)
prepend-some x none a r h = absurd (cc)
prepend-some x (some (b, s)) a r h =
    let pair : ◌≡◌ {A = Bytes × Bytes} (x ∷ b, s) (a, r) = cc in
    let es : s ≡ r = ap (λ p. p.1) pair in (b, rw es refl, sym (ap (λ p. p.0) pair))

-- What is found stands where the byte is found for the first time.
find-some : (s a r : Bytes) → find dollar s ≡ some (a, r) → (s ≡ a ++ (dollar ∷ r)) × All NoDollar a
unfolding find
find-some [] a r h = absurd (cc)
find-some (x ∷ s) a r h = elim (Bool-cases (x == dollar)) [
  | inl e ↦
      let k : some ([], s) ≡ some (a, r) = rw e at h in
      let pair : ◌≡◌ {A = Bytes × Bytes} ([], s) (a, r) = cc in
      let ex : x ≡ dollar = ground (arith, e) in
      rw (sym (ap (λ p. p.0) pair), sym (ap (λ p. p.1) pair), ex) (refl, tt)
  | inr e ↦
      let k : prepend x (find dollar s) ≡ some (a, r) = rw e at h in
      let (b, eb, ea) = prepend-some x (find dollar s) a r k in
      let (es, hb) = find-some s b r eb in rw ea (ap (λ l. x ∷ l) es, (e, hb))
]

pub find_first : (a r : Bytes) → All NoDollar a → find dollar (a ++ (dollar ∷ r)) ≡ some (a, r)
unfolding find
find_first [] r h = refl
find_first (x ∷ a) r h = rw (h.0, find_first a r h.1) refl

-- A line with a segment in it, cut there.
pub record Cut (rest before segment after : Bytes) : Type 0 where
  pub whole : rest ≡ before ++ (dollar ∷ (segment ++ (dollar ∷ after)))
  pub plain_before : All NoDollar before
  pub plain_segment : All NoDollar segment

pub first_segment-Cut :
    (rest before segment after : Bytes)
    → first_segment rest ≡ some (before, segment, after)
    → Cut rest before segment after
unfolding first_segment
first_segment-Cut rest before segment after h = elim (Option-cases (find dollar rest)) [
  | inl e ↦ let k : none ≡ some (before, segment, after) = rw (first_segment, e) at h in absurd (cc)
  | inr ((a, r), e) ↦ elim (Option-cases (find dollar r)) [
    | inl e2 ↦
        let k : none ≡ some (before, segment, after) = rw (first_segment, e, e2) at h in absurd (cc)
    | inr ((v, t), e2) ↦
        let k : some (a, v, t) ≡ some (before, segment, after) = rw (first_segment, e, e2) at h in
        let triple : ◌≡◌ {A = Bytes × Bytes × Bytes} (a, v, t) (before, segment, after) = cc in
        let (er, ha) = find-some rest a r e in
        let (et, hv) = find-some r v t e2 in
        let cut : Cut rest a v t = record {
          whole = rw (sym et) er;
          plain_before = ha;
          plain_segment = hv;
        } in
        subst (λ c. Cut rest (c.0) (c.1) (c.2)) triple cut
  ]
]

pub first_segment_cut :
    (before segment after : Bytes)
    → All NoDollar before
    → All NoDollar segment
    → first_segment (before ++ (dollar ∷ (segment ++ (dollar ∷ after))))
      ≡ some (before, segment, after)
unfolding first_segment
first_segment_cut a v t ha hv =
    rw (first_segment, find_first a (v ++ (dollar ∷ t)) ha, find_first v t hv) refl

pub NoDollar-before_colon : (s : Bytes) → All NoDollar s → All NoDollar (before_colon s)
unfolding before_colon
NoDollar-before_colon [] h = tt
NoDollar-before_colon (c ∷ s) h = elim (Bool-cases (c == colon)) [
  | inl e ↦ rw e tt
  | inr e ↦ rw e (h.0, NoDollar-before_colon s h.1)
]

-- A key has no colon, and is cut again from whatever follows it behind one.
pub before_colon_again :
    (s t : Bytes) → before_colon (before_colon s ++ (colon ∷ t)) ≡ before_colon s
unfolding before_colon
before_colon_again [] t = refl
before_colon_again (c ∷ s) t = elim (Bool-cases (c == colon)) [
  | inl e ↦ rw e refl
  | inr e ↦ rw (e, e) (ap (λ l. c ∷ l) (before_colon_again s t))
]
