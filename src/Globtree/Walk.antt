-- ===== src/Globtree/Walk.antt =====
-- `globtree_test` walks the tree with an explicit stack; the walk ends within its fuel.
use csup.Prelude.{Bytes, ℕ, zero, suc, ◌+◌, ◌≤◌, ◌≡◌, refl, ap, fun_ext, ◌∙◌, arith}
use csup.Prelude.{Bool, true, false, not, [], ◌∷◌}
use csup.Prelude.Run.{
  Run, done, abort, out_of_fuel, ◌>>=◌, outcome, is_done, is_abort, is_out_of_fuel,
}
use csup.Globtree.{
  Globtree, Stack, finished, descend_into, bad_stack, doing_left, doing_right, not_node, and_node,
  or_node, match_node, regex_node, true_node, false_node, globtree_eval, descend, ascend, leaves,
  walk, globtree_test,
}
use csup.Globtree.Meaning.{evaluate}

module _ {Regex : Type 0} (fnmatch : Bytes → Bytes → ℕ → ℕ) (regexec : Regex → Bytes → ℕ) where
  -- What the outer loop does with `g` rounds left once a subtree has the value `val`.
  abbrev resume : ℕ → Bytes → Stack Regex → Bool → Run Bool
  resume g path stack val = elim (ascend val stack) [
    | finished v ↦ done v
    | descend_into gt' stack' ↦ walk fnmatch regexec g gt' path stack'
    | bad_stack ↦ abort
  ]

  -- The walk of `gt` from `F` rounds evaluates it and resumes with at least `F - leaves gt` rounds.
  record Walks (gt : Globtree Regex) (path : Bytes) (stack : Stack Regex) (F : ℕ) : Type 0 where
    rounds : ℕ
    enough : F ≤ rounds + leaves gt
    same :
        walk fnmatch regexec F gt path stack
        ≡ (evaluate fnmatch regexec gt path >>= resume rounds path stack)

  leaves_pos : (gt : Globtree Regex) → 1 ≤ leaves gt
  unfolding leaves
  leaves_pos (not_node c) = leaves_pos c
  leaves_pos (and_node l r) = omega (arith, leaves_pos l, leaves_pos r)
  leaves_pos (or_node l r) = omega (arith, leaves_pos l, leaves_pos r)
  leaves_pos (match_node p f) = omega arith
  leaves_pos (regex_node r) = omega arith
  leaves_pos true_node = omega arith
  leaves_pos false_node = omega arith

  walk-not :
      (F : ℕ) (c : Globtree Regex) (path : Bytes) (stack : Stack Regex)
      → walk fnmatch regexec F (not_node c) path stack
        ≡ walk fnmatch regexec F c path ((not_node c, doing_left) ∷ stack)
  unfolding walk descend
  walk-not zero c path stack = refl
  walk-not (suc F) c path stack = refl

  walk-and :
      (F : ℕ) (l r : Globtree Regex) (path : Bytes) (stack : Stack Regex)
      → walk fnmatch regexec F (and_node l r) path stack
        ≡ walk fnmatch regexec F l path ((and_node l r, doing_left) ∷ stack)
  unfolding walk descend
  walk-and zero l r path stack = refl
  walk-and (suc F) l r path stack = refl

  walk-or :
      (F : ℕ) (l r : Globtree Regex) (path : Bytes) (stack : Stack Regex)
      → walk fnmatch regexec F (or_node l r) path stack
        ≡ walk fnmatch regexec F l path ((or_node l r, doing_left) ∷ stack)
  unfolding walk descend
  walk-or zero l r path stack = refl
  walk-or (suc F) l r path stack = refl

  resume-not :
      (g : ℕ) (c : Globtree Regex) (path : Bytes) (stack : Stack Regex) (v : Run Bool)
      → (v >>= resume g path ((not_node c, doing_left) ∷ stack))
        ≡ ((v >>= λ b. done (not b)) >>= resume g path stack)
  unfolding ascend
  resume-not g c path stack (done b) = refl
  resume-not g c path stack abort = refl
  resume-not g c path stack out_of_fuel = refl

  -- The right operand's walk, once the left operand has left the answer open.
  resume-and_true :
      (g : ℕ) (l r : Globtree Regex) (path : Bytes) (stack : Stack Regex)
      → resume g path ((and_node l r, doing_left) ∷ stack) true
        ≡ walk fnmatch regexec g r path ((and_node l r, doing_right) ∷ stack)
  unfolding ascend
  resume-and_true g l r path stack = refl

  resume-or_false :
      (g : ℕ) (l r : Globtree Regex) (path : Bytes) (stack : Stack Regex)
      → resume g path ((or_node l r, doing_left) ∷ stack) false
        ≡ walk fnmatch regexec g r path ((or_node l r, doing_right) ∷ stack)
  unfolding ascend
  resume-or_false g l r path stack = refl

  -- On the way up from the right operand its value is the operator's.
  resume-and_right :
      (g : ℕ) (l r : Globtree Regex) (path : Bytes) (stack : Stack Regex)
      → resume g path ((and_node l r, doing_right) ∷ stack) ≡ resume g path stack
  unfolding ascend
  resume-and_right g l r path stack = fun_ext (elim [ true ↦ refl | false ↦ refl ])

  resume-or_right :
      (g : ℕ) (l r : Globtree Regex) (path : Bytes) (stack : Stack Regex)
      → resume g path ((or_node l r, doing_right) ∷ stack) ≡ resume g path stack
  unfolding ascend
  resume-or_right g l r path stack = fun_ext (elim [ true ↦ refl | false ↦ refl ])

  -- What the right operand's walk adds, for either operator.
  and-Walks :
      (l r : Globtree Regex) (path : Bytes) (stack : Stack Regex) (F : ℕ)
      → leaves l + leaves r ≤ F
      → (w : Walks l path ((and_node l r, doing_left) ∷ stack) F)
      → ((g : ℕ) → leaves r ≤ g → Walks r path ((and_node l r, doing_right) ∷ stack) g)
      → Walks (and_node l r) path stack F
  unfolding evaluate leaves ascend
  and-Walks l r path stack F h w right = elim (outcome (evaluate fnmatch regexec l path)) [
    | is_done true e ↦
        let wr = right w.rounds (omega (arith, w.enough)) in
        record {
          rounds = wr.rounds;
          enough = omega (arith, w.enough, wr.enough);
          same =
              walk-and F l r path stack
              ∙ w.same
              ∙ rw e (
                  wr.same
                  ∙ ap (λ k. evaluate fnmatch regexec r path >>= k)
                      (resume-and_right wr.rounds l r path stack));
        }
    | is_done false e ↦ record {
      rounds = w.rounds;
      enough = omega (arith, w.enough);
      same = walk-and F l r path stack ∙ w.same ∙ rw e;
    }
    | is_abort e ↦ record {
      rounds = w.rounds;
      enough = omega (arith, w.enough);
      same = walk-and F l r path stack ∙ w.same ∙ rw e;
    }
    | is_out_of_fuel e ↦ record {
      rounds = w.rounds;
      enough = omega (arith, w.enough);
      same = walk-and F l r path stack ∙ w.same ∙ rw e;
    }
  ]

  or-Walks :
      (l r : Globtree Regex) (path : Bytes) (stack : Stack Regex) (F : ℕ)
      → leaves l + leaves r ≤ F
      → (w : Walks l path ((or_node l r, doing_left) ∷ stack) F)
      → ((g : ℕ) → leaves r ≤ g → Walks r path ((or_node l r, doing_right) ∷ stack) g)
      → Walks (or_node l r) path stack F
  unfolding evaluate leaves ascend
  or-Walks l r path stack F h w right = elim (outcome (evaluate fnmatch regexec l path)) [
    | is_done false e ↦
        let wr = right w.rounds (omega (arith, w.enough)) in
        record {
          rounds = wr.rounds;
          enough = omega (arith, w.enough, wr.enough);
          same =
              walk-or F l r path stack
              ∙ w.same
              ∙ rw e (
                  wr.same
                  ∙ ap (λ k. evaluate fnmatch regexec r path >>= k)
                      (resume-or_right wr.rounds l r path stack));
        }
    | is_done true e ↦ record {
      rounds = w.rounds;
      enough = omega (arith, w.enough);
      same = walk-or F l r path stack ∙ w.same ∙ rw e;
    }
    | is_abort e ↦ record {
      rounds = w.rounds;
      enough = omega (arith, w.enough);
      same = walk-or F l r path stack ∙ w.same ∙ rw e;
    }
    | is_out_of_fuel e ↦ record {
      rounds = w.rounds;
      enough = omega (arith, w.enough);
      same = walk-or F l r path stack ∙ w.same ∙ rw e;
    }
  ]

  walk-Walks :
      (gt : Globtree Regex) (path : Bytes) (stack : Stack Regex) (F : ℕ)
      → leaves gt ≤ F
      → Walks gt path stack F
  unfolding evaluate leaves walk descend ascend globtree_eval
  walk-Walks (not_node c) path stack F h =
      let w = walk-Walks c path ((not_node c, doing_left) ∷ stack) F h in
      record {
        rounds = w.rounds;
        enough = w.enough;
        same =
            walk-not F c path stack
            ∙ w.same
            ∙ resume-not w.rounds c path stack (evaluate fnmatch regexec c path);
      }
  walk-Walks (and_node l r) path stack F h =
      and-Walks l r path stack F h (walk-Walks l path _ F (omega arith))
        (λ g hg. walk-Walks r path ((and_node l r, doing_right) ∷ stack) g hg)
  walk-Walks (or_node l r) path stack F h =
      or-Walks l r path stack F h (walk-Walks l path _ F (omega arith))
        (λ g hg. walk-Walks r path ((or_node l r, doing_right) ∷ stack) g hg)
  walk-Walks gt path stack zero h = absurd (omega (arith, leaves_pos gt))
  walk-Walks (match_node p f) path stack (suc F) h = record {
    rounds = F;
    enough = omega arith;
    same = refl;
  }
  walk-Walks (regex_node r) path stack (suc F) h = record {
    rounds = F;
    enough = omega arith;
    same = refl;
  }
  walk-Walks true_node path stack (suc F) h = record {
    rounds = F;
    enough = omega arith;
    same = refl;
  }
  walk-Walks false_node path stack (suc F) h = record {
    rounds = F;
    enough = omega arith;
    same = refl;
  }

  >>=-done : (v : Run Bool) → (v >>= λ b. done b) ≡ v
  >>=-done (done b) = refl
  >>=-done abort = refl
  >>=-done out_of_fuel = refl

  -- For every tree and path, the stack walk returns what evaluating the tree from left to right
  -- returns, a failed assertion of a leaf included: the rounds allowed are enough, and no node
  -- without children is ever taken from the stack.
  pub globtree_test-eq-evaluate :
      (gt : Globtree Regex) (path : Bytes)
      → globtree_test fnmatch regexec gt path ≡ evaluate fnmatch regexec gt path
  unfolding globtree_test ascend
  globtree_test-eq-evaluate gt path =
      (walk-Walks gt path [] (leaves gt) (omega arith)).same ∙ >>=-done _
