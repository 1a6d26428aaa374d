-- ===== src/Globtree/Reduced.antt =====
-- The constructors of globtree.c against the boolean reading of the trees that they build.
use csup.Prelude.{Bytes, ℕ, ◌≤◌, ◌≡◌, refl, arith, ◌∙◌, ap, ◌==◌}
use csup.Prelude.{Bool, false, ◌&&◌, ◌||◌, not}
use csup.Prelude.Run.{done}
use csup.Globtree.{
  Globtree, not_node, and_node, or_node, match_node, regex_node, true_node, false_node, is_true,
  is_false, of_rv, no_match, globtree_and, globtree_or, globtree_not, globtree_eval, globtree_test,
}
use csup.Globtree.Meaning.{evaluate, accepts}
use csup.Globtree.Walk.{globtree_test-eq-evaluate}

-- No constant stands anywhere in the expression.
abbrev pub HasNoConstant : {Regex : Type 0} → Globtree Regex → Type 0
HasNoConstant (not_node c) = HasNoConstant c
HasNoConstant (and_node l r) = HasNoConstant l × HasNoConstant r
HasNoConstant (or_node l r) = HasNoConstant l × HasNoConstant r
HasNoConstant (match_node p f) = Unit
HasNoConstant (regex_node r) = Unit
HasNoConstant true_node = ⊥
HasNoConstant false_node = ⊥

-- A constant, or an expression with no constant anywhere in it.
pub data IsReduced {Regex : Type 0} (gt : Globtree Regex) : Type 0 where
  always : gt ≡ true_node → IsReduced gt
  never : gt ≡ false_node → IsReduced gt
  open_expression : HasNoConstant gt → IsReduced gt

-- What a node's type says of it.
data Shape {Regex : Type 0} (gt : Globtree Regex) : Type 0 where
  is_constant_true : gt ≡ true_node → Shape gt
  is_constant_false : gt ≡ false_node → Shape gt
  is_other : is_true gt ≡ false → is_false gt ≡ false → Shape gt

module _ {Regex : Type 0} where
  shape : (gt : Globtree Regex) → Shape gt
  shape true_node = is_constant_true refl
  shape false_node = is_constant_false refl
  shape _ = is_other refl refl

  open-is_false : (gt : Globtree Regex) → HasNoConstant gt → is_false gt ≡ false
  open-is_false false_node h = absurd h
  open-is_false _ h = refl

  open-is_true : (gt : Globtree Regex) → HasNoConstant gt → is_true gt ≡ false
  open-is_true true_node h = absurd h
  open-is_true _ h = refl

  globtree_not-IsReduced : (c : Globtree Regex) → IsReduced c → IsReduced (globtree_not c)
  unfolding globtree_not
  globtree_not-IsReduced c (always e) = never (rw e)
  globtree_not-IsReduced c (never e) = always (rw e)
  globtree_not-IsReduced c (open_expression h) =
      rw (open-is_true c h, open-is_false c h) (open_expression h)

  globtree_and-IsReduced :
      (l r : Globtree Regex) → IsReduced l → IsReduced r → IsReduced (globtree_and l r)
  unfolding globtree_and
  globtree_and-IsReduced l r (never e) hr = never (rw e)
  globtree_and-IsReduced l r (always e) (never f) = never (rw (e, f))
  globtree_and-IsReduced l r (always e) (always f) = always (rw (e, f))
  globtree_and-IsReduced l r (always e) (open_expression h) =
      rw (e, open-is_false r h) (open_expression h)
  globtree_and-IsReduced l r (open_expression h) (never f) = never (rw (f, open-is_false l h))
  globtree_and-IsReduced l r (open_expression h) (always f) =
      rw (f, open-is_false l h, open-is_true l h) (open_expression h)
  globtree_and-IsReduced l r (open_expression h) (open_expression k) =
      rw (open-is_false l h, open-is_true l h, open-is_false r k, open-is_true r k)
        (open_expression (h, k))

  globtree_or-IsReduced :
      (l r : Globtree Regex) → IsReduced l → IsReduced r → IsReduced (globtree_or l r)
  unfolding globtree_or
  globtree_or-IsReduced l r (always e) hr = always (rw e)
  globtree_or-IsReduced l r (never e) (always f) = always (rw (e, f))
  globtree_or-IsReduced l r (never e) (never f) = never (rw (e, f))
  globtree_or-IsReduced l r (never e) (open_expression h) =
      rw (e, open-is_true r h) (open_expression h)
  globtree_or-IsReduced l r (open_expression h) (always f) = always (rw (f, open-is_true l h))
  globtree_or-IsReduced l r (open_expression h) (never f) =
      rw (f, open-is_false l h, open-is_true l h) (open_expression h)
  globtree_or-IsReduced l r (open_expression h) (open_expression k) =
      rw (open-is_false l h, open-is_true l h, open-is_false r k, open-is_true r k)
        (open_expression (h, k))

  -- From operands that are a constant or free of constants, each of globtree_not(), globtree_and()
  -- and globtree_or() builds a tree that is again a constant or free of constants.
  pub constructors-IsReduced :
      (l r : Globtree Regex)
      → IsReduced l
      → IsReduced r
      → IsReduced (globtree_not l) × IsReduced (globtree_and l r) × IsReduced (globtree_or l r)
  constructors-IsReduced l r hl hr = (
    globtree_not-IsReduced l hl,
    globtree_and-IsReduced l r hl hr,
    globtree_or-IsReduced l r hl hr,
  )

module _ {Regex : Type 0} (fnmatch : Bytes → Bytes → ℕ → ℕ) (regexec : Regex → Bytes → ℕ) where
  abbrev meaning : Globtree Regex → Bytes → Bool
  meaning = accepts fnmatch regexec

  pub accepts-globtree_not :
      (c : Globtree Regex) (path : Bytes) → meaning (globtree_not c) path ≡ not (meaning c path)
  unfolding globtree_not accepts
  accepts-globtree_not c path = elim (shape c) [
    | is_constant_true e ↦ rw e
    | is_constant_false e ↦ rw e
    | is_other t f ↦ rw (t, f)
  ]

  pub accepts-globtree_and :
      (l r : Globtree Regex) (path : Bytes)
      → meaning (globtree_and l r) path ≡ (meaning l path && meaning r path)
  unfolding globtree_and accepts
  accepts-globtree_and l r path = elim (shape l) [
    | is_constant_false e ↦ rw e
    | is_constant_true e ↦ elim (shape r) [
      | is_constant_true e' ↦ rw (e, e')
      | is_constant_false e' ↦ rw (e, e')
      | is_other t f ↦ rw (e, f)
    ]
    | is_other t f ↦ elim (shape r) [
      | is_constant_true e' ↦ rw (e', t, f) (ground arith)
      | is_constant_false e' ↦ rw (e', f) (ground arith)
      | is_other t' f' ↦ rw (t, f, t', f')
    ]
  ]

  pub accepts-globtree_or :
      (l r : Globtree Regex) (path : Bytes)
      → meaning (globtree_or l r) path ≡ (meaning l path || meaning r path)
  unfolding globtree_or accepts
  accepts-globtree_or l r path = elim (shape l) [
    | is_constant_true e ↦ rw e
    | is_constant_false e ↦ elim (shape r) [
      | is_constant_true e' ↦ rw (e, e')
      | is_constant_false e' ↦ rw (e, e')
      | is_other t f ↦ rw (e, t)
    ]
    | is_other t f ↦ elim (shape r) [
      | is_constant_true e' ↦ rw (e', t) (ground arith)
      | is_constant_false e' ↦ rw (e', t, f) (ground arith)
      | is_other t' f' ↦ rw (t, f, t', f')
    ]
  ]

-- fnmatch() and regexec() answer with a match or with their mismatch code.
pub record Answers {Regex : Type 0} (fnmatch : Bytes → Bytes → ℕ → ℕ) (regexec : Regex → Bytes → ℕ)
    : Type 0 where
  pub fnmatch_answers : (p s : Bytes) (flags : ℕ) → fnmatch p s flags ≤ no_match
  pub regexec_answers : (r : Regex) (s : Bytes) → regexec r s ≤ no_match

of_rv_answer : (rv : ℕ) → rv ≤ no_match → of_rv rv ≡ done (rv == 0)
of_rv_answer rv h = ground arith

module _ {Regex : Type 0} {fnmatch : Bytes → Bytes → ℕ → ℕ} {regexec : Regex → Bytes → ℕ}
    (answers : Answers fnmatch regexec) where
  evaluate-eq-accepts :
      (gt : Globtree Regex) (path : Bytes)
      → evaluate fnmatch regexec gt path ≡ done (accepts fnmatch regexec gt path)
  unfolding evaluate accepts globtree_eval
  evaluate-eq-accepts (not_node c) path = rw (evaluate-eq-accepts c path)
  evaluate-eq-accepts (and_node l r) path =
      ground (arith, evaluate-eq-accepts l path, evaluate-eq-accepts r path)
  evaluate-eq-accepts (or_node l r) path =
      ground (arith, evaluate-eq-accepts l path, evaluate-eq-accepts r path)
  evaluate-eq-accepts (match_node p f) path = of_rv_answer _ (answers.fnmatch_answers p path f)
  evaluate-eq-accepts (regex_node r) path = of_rv_answer _ (answers.regexec_answers r path)
  evaluate-eq-accepts true_node path = refl
  evaluate-eq-accepts false_node path = refl

  pub globtree_test-eq-accepts :
      (gt : Globtree Regex) (path : Bytes)
      → globtree_test fnmatch regexec gt path ≡ done (accepts fnmatch regexec gt path)
  globtree_test-eq-accepts gt path =
      globtree_test-eq-evaluate fnmatch regexec gt path ∙ evaluate-eq-accepts gt path

  -- If fnmatch() and regexec() answer only with a match or their mismatch code, testing a tree
  -- always gives an answer, and testing the trees that globtree_not(), globtree_and() and
  -- globtree_or() build gives the negation, the conjunction and the disjunction of the answers of
  -- their operands, though constants have been folded away.
  pub globtree_test-constructors :
      (l r : Globtree Regex) (path : Bytes)
      → (a : Bool) × (b : Bool) × (globtree_test fnmatch regexec l path ≡ done a)
        × (globtree_test fnmatch regexec r path ≡ done b)
        × (globtree_test fnmatch regexec (globtree_not l) path ≡ done (not a))
        × (globtree_test fnmatch regexec (globtree_and l r) path ≡ done (a && b))
        × (globtree_test fnmatch regexec (globtree_or l r) path ≡ done (a || b))
  globtree_test-constructors l r path = (
    accepts fnmatch regexec l path,
    accepts fnmatch regexec r path,
    globtree_test-eq-accepts l path,
    globtree_test-eq-accepts r path,
    globtree_test-eq-accepts _ path
        ∙ ap (λ v. done v) (accepts-globtree_not fnmatch regexec l path),
    globtree_test-eq-accepts _ path
        ∙ ap (λ v. done v) (accepts-globtree_and fnmatch regexec l r path),
    globtree_test-eq-accepts _ path
        ∙ ap (λ v. done v) (accepts-globtree_or fnmatch regexec l r path),
  )
