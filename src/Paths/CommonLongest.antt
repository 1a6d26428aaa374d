-- ===== src/Paths/CommonLongest.antt =====
-- commonpathlength() finds the longest directory that two paths share.
use csup.Prelude.{
  ℕ, suc, ◌+◌, ◌≤◌, ◌<◌, ◌≡◌, refl, sym, ◌∙◌, ap, subst, ◌⊎◌, inl, inr, arith, Bytes, [], ◌∷◌,
  length, get_elem?, some, Bool-cases, false, ◌==◌, ==_iff, if◌then◌else◌, ltb, ltb→lt,
}
use csup.Paths.Common.{slash, common_from, commonpathlength}

-- The first `n` bytes of a path are all of it, nothing, or what stands before a slash.
abbrev pub EndsComponent : Bytes → ℕ → Type 0
EndsComponent a n = (n ≡ 0) ⊎ ((n ≡ length a) ⊎ (get_elem? a n ≡ some slash))

-- The same, or the leading slash alone.
abbrev pub EndsDirectory : Bytes → ℕ → Type 0
EndsDirectory a n = EndsComponent a n ⊎ ((n ≡ 1) × (get_elem? a 0 ≡ some slash))

-- The paths have their first `n` bytes in common.
abbrev pub Agree : Bytes → Bytes → ℕ → Type 0
Agree a b n = (j : ℕ) → j < n → get_elem? a j ≡ get_elem? b j

pub record IsLongest (a b : Bytes) (n : ℕ) : Type 0 where
  pub in_a : n ≤ length a
  pub in_b : n ≤ length b
  pub agree : Agree a b n
  pub ends_a : EndsDirectory a n
  pub ends_b : EndsDirectory b n
  pub longest :
      (m : ℕ)
      → m ≤ length a
      → m ≤ length b
      → Agree a b m
      → EndsComponent a m
      → EndsComponent b m
      → m ≤ n

-- `r` is what is left of `a` from index `i` on.
record IsRest (a : Bytes) (i : ℕ) (r : Bytes) : Type 0 where
  total : length a ≡ i + length r
  at : (j : ℕ) → get_elem? a (i + j) ≡ get_elem? r j

IsRest-head : (a : Bytes) (i x : ℕ) (r : Bytes) → IsRest a i (x ∷ r) → get_elem? a i ≡ some x
IsRest-head a i x r h = subst (λ k. get_elem? a k ≡ some x) (omega arith) (h.at 0)

IsRest-tail : (a : Bytes) (i x : ℕ) (r : Bytes) → IsRest a i (x ∷ r) → IsRest a (i + 1) r
IsRest-tail a i x r h = record {
  total = omega (arith, h.total);
  at = λ j. subst (λ k. get_elem? a k ≡ get_elem? r j) (omega arith) (h.at (suc j));
}

-- What the loop knows at index `i`.
record Inv (a b : Bytes) (i ls : ℕ) : Type 0 where
  same : Agree a b i
  ls_le : ls ≤ i
  ls_a : EndsDirectory a ls
  ls_b : EndsDirectory b ls
  best : (m : ℕ) → m < i → EndsComponent a m → EndsComponent b m → m ≤ ls

Agree-suc :
    (a b : Bytes) (i x : ℕ)
    → Agree a b i
    → get_elem? a i ≡ some x
    → get_elem? b i ≡ some x
    → Agree a b (i + 1)
Agree-suc a b i x h ga gb j lt = elim (Bool-cases (j == i)) [
  | inl e ↦ let e' : j ≡ i = (==_iff j i).0 e in rw e' (ga ∙ sym gb)
  | inr ne ↦ h j (ground arith)
]

-- A component that ends at index `i`, where the byte is `x`.
EndsComponent-at :
    (a : Bytes) (i x : ℕ)
    → i < length a
    → get_elem? a i ≡ some x
    → EndsComponent a i
    → (i ≡ 0) ⊎ (x ≡ slash)
EndsComponent-at a i x lt g h = ground arith

module _ (a b : Bytes) where
  Inv-step :
      (i ls x : ℕ)
      → i < length a
      → i < length b
      → get_elem? a i ≡ some x
      → get_elem? b i ≡ some x
      → Inv a b i ls
      → Inv a b (i + 1) (if x == slash then if i == 0 then 1 else i else ls)
  Inv-step i ls x la lb ga gb v = elim (Bool-cases (x == slash)) [
    | inl sl ↦
        let e : x ≡ slash = (==_iff x slash).0 sl in
        elim (Bool-cases (i == 0)) [
          | inl z ↦
              let z' : i ≡ 0 = (==_iff i 0).0 z in
              rw (sl, z)
                (record {
                  same = Agree-suc a b i x v.same ga gb;
                  ls_le = omega arith;
                  ls_a = inr (refl, subst (λ k. get_elem? a k ≡ some slash) z' (rw (← e) ga));
                  ls_b = inr (refl, subst (λ k. get_elem? b k ≡ some slash) z' (rw (← e) gb));
                  best = λ m lt ea eb. omega arith;
                })
          | inr nz ↦
              rw (sl, nz)
                (record {
                  same = Agree-suc a b i x v.same ga gb;
                  ls_le = omega arith;
                  ls_a = inl (inr (inr (rw (← e) ga)));
                  ls_b = inl (inr (inr (rw (← e) gb)));
                  best = λ m lt ea eb. omega arith;
                })
        ]
    | inr ns ↦ rw ns (record {
      same = Agree-suc a b i x v.same ga gb;
      ls_le = omega (arith, v.ls_le);
      ls_a = v.ls_a;
      ls_b = v.ls_b;
      best = λ m lt ea eb. elim (Bool-cases (m == i)) [
        | inl e ↦
            let e' : m ≡ i = (==_iff m i).0 e in
            let ea' : EndsComponent a i = subst (EndsComponent a) e' ea in
            ground (arith, EndsComponent-at a i x la ga ea')
        | inr ne ↦ v.best m (ground arith) ea eb
      ];
    })
  ]

  mismatch-IsLongest :
      (i ls x y : ℕ)
      → i < length a
      → i < length b
      → get_elem? a i ≡ some x
      → get_elem? b i ≡ some y
      → (x == y) ≡ false
      → Inv a b i ls
      → IsLongest a b ls
  mismatch-IsLongest i ls x y la lb ga gb ne v = record {
    in_a = omega (arith, v.ls_le);
    in_b = omega (arith, v.ls_le);
    agree = λ j lt. v.same j (omega (arith, v.ls_le));
    ends_a = v.ls_a;
    ends_b = v.ls_b;
    longest = λ m ma mb agr ea eb. elim (Bool-cases (ltb m i)) [
      | inl lt ↦ v.best m (ltb→lt m i lt) ea eb
      | inr ge ↦ elim (Bool-cases (m == i)) [
        | inl e ↦
            let e' : m ≡ i = (==_iff m i).0 e in
            let ea' : EndsComponent a i = subst (EndsComponent a) e' ea in
            let eb' : EndsComponent b i = subst (EndsComponent b) e' eb in
            ground (arith, EndsComponent-at a i x la ga ea', EndsComponent-at b i y lb gb eb')
        | inr nm ↦
            let lt : i < m = ground arith in
            let e : some x ≡ some y = sym ga ∙ (agr i lt ∙ gb) in absurd (ground arith)
      ]
    ];
  }

  -- One path has ended at index `i`, where the other goes on with the byte `x` (or ends too).
  end-IsLongest :
      (i : ℕ)
      → i ≤ length a
      → i ≤ length b
      → (length a ≤ i) ⊎ (length b ≤ i)
      → EndsDirectory a i
      → EndsDirectory b i
      → Agree a b i
      → IsLongest a b i
  end-IsLongest i ha hb one ea eb same = record {
    in_a = ha;
    in_b = hb;
    agree = same;
    ends_a = ea;
    ends_b = eb;
    longest = λ m ma mb agr ea' eb'. omega arith;
  }

  -- The longer path `c` goes on with a byte that is no slash: the last slash is where they end.
  inside-IsLongest :
      (i ls : ℕ)
      → i ≤ length a
      → i ≤ length b
      → (length a ≤ i) ⊎ (length b ≤ i)
      → (EndsComponent a i → EndsComponent b i → i ≡ 0)
      → Inv a b i ls
      → IsLongest a b ls
  inside-IsLongest i ls ha hb one no_end v = record {
    in_a = omega (arith, v.ls_le);
    in_b = omega (arith, v.ls_le);
    agree = λ j lt. v.same j (omega (arith, v.ls_le));
    ends_a = v.ls_a;
    ends_b = v.ls_b;
    longest = λ m ma mb agr ea eb. elim (Bool-cases (m == i)) [
      | inl e ↦
          let e' : m ≡ i = (==_iff m i).0 e in
          let z : i ≡ 0 = no_end (subst (EndsComponent a) e' ea) (subst (EndsComponent b) e' eb) in
          omega arith
      | inr ne ↦ v.best m (ground arith) ea eb
    ];
  }

  common_from-IsLongest :
      (ra rb : Bytes) (i ls : ℕ)
      → IsRest a i ra
      → IsRest b i rb
      → Inv a b i ls
      → IsLongest a b (common_from ra rb i ls)
  unfolding common_from
  common_from-IsLongest (x ∷ ra) (y ∷ rb) i ls ha hb v =
      let ga = IsRest-head a i x ra ha in
      let gb = IsRest-head b i y rb hb in
      let la : i < length a = omega (arith, ha.total) in
      let lb : i < length b = omega (arith, hb.total) in
      elim (Bool-cases (x == y)) [
        | inl e ↦
            let gb' = subst (λ k. get_elem? b i ≡ some k) (sym ((==_iff x y).0 e)) gb in
            rw e (
              common_from-IsLongest ra rb (i + 1) _ (IsRest-tail a i x ra ha)
                (IsRest-tail b i y rb hb) (Inv-step i ls x la lb ga gb' v))
        | inr ne ↦ rw ne (mismatch-IsLongest i ls x y la lb ga gb ne v)
      ]
  common_from-IsLongest (x ∷ ra) [] i ls ha hb v =
      let ga = IsRest-head a i x ra ha in
      let la : i < length a = omega (arith, ha.total) in
      let lb : i ≡ length b = omega (arith, hb.total) in
      elim (Bool-cases (x == slash)) [
        | inl e ↦ rw e (
            end-IsLongest i (omega arith) (omega arith) (inr (omega arith))
              (inl (inr (inr (subst (λ k. get_elem? a i ≡ some k) ((==_iff x slash).0 e) ga))))
              (inl (inr (inl lb))) v.same)
        | inr ne ↦ rw ne (
            inside-IsLongest i ls (omega arith) (omega arith) (inr (omega arith))
              (λ ea eb. ground (arith, EndsComponent-at a i x la ga ea)) v)
      ]
  common_from-IsLongest [] (y ∷ rb) i ls ha hb v =
      let gb = IsRest-head b i y rb hb in
      let lb : i < length b = omega (arith, hb.total) in
      let la : i ≡ length a = omega (arith, ha.total) in
      elim (Bool-cases (y == slash)) [
        | inl e ↦ rw e (
            end-IsLongest i (omega arith) (omega arith) (inl (omega arith)) (inl (inr (inl la)))
              (inl (inr (inr (subst (λ k. get_elem? b i ≡ some k) ((==_iff y slash).0 e) gb))))
              v.same)
        | inr ne ↦ rw ne (
            inside-IsLongest i ls (omega arith) (omega arith) (inl (omega arith))
              (λ ea eb. ground (arith, EndsComponent-at b i y lb gb eb)) v)
      ]
  common_from-IsLongest [] [] i ls ha hb v =
      let la : i ≡ length a = omega (arith, ha.total) in
      let lb : i ≡ length b = omega (arith, hb.total) in
      end-IsLongest i (omega arith) (omega arith) (inl (omega arith)) (inl (inr (inl la)))
        (inl (inr (inl lb))) v.same

-- For any two paths, commonpathlength() returns a length within both, up to which they agree, and
-- which is in each of them the end of a component or the leading slash; and no longer agreeing
-- length ends a component in both.
pub commonpathlength-IsLongest : (a b : Bytes) → IsLongest a b (commonpathlength a b)
unfolding commonpathlength
commonpathlength-IsLongest a b = common_from-IsLongest a b a b 0 0 start_a start_b (record {
  same = λ j lt. elim lt [ ];
  ls_le = omega arith;
  ls_a = inl (inl refl);
  ls_b = inl (inl refl);
  best = λ m lt. elim lt [ ];
})
  where
    start_a : IsRest a 0 a
    start_a = record { total = omega arith; at = λ j. ap (get_elem? a) (omega arith) }

    start_b : IsRest b 0 b
    start_b = record { total = omega arith; at = λ j. ap (get_elem? b) (omega arith) }
