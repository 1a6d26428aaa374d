-- ===== src/Globtree.antt =====
-- globtree.c: boolean expressions that accept or reject a file name.
-- A node is a constructor; the `left` and `right` pointers are its arguments and `data` and `flags`
-- its pattern. `fnmatch`, `regcomp` and `regexec` are parameters of the operations that call them.
-- Freeing a node leaves no trace in the model.
pub mod Meaning
pub mod Walk
pub mod Reduced
use csup.Prelude.{ℕ, zero, suc, ◌+◌, Bool, true, false, ◌&&◌, not, ◌==◌, if◌then◌else◌}
use csup.Prelude.{Bytes, List, [], ◌∷◌, Option, none, some}
use csup.Prelude.Run.{Run, done, abort, out_of_fuel, ◌>>=◌}

-- `struct globtree`.
pub data Globtree (Regex : Type 0) : Type 0 where
  not_node : Globtree Regex → Globtree Regex
  and_node : Globtree Regex → Globtree Regex → Globtree Regex
  or_node : Globtree Regex → Globtree Regex → Globtree Regex
  match_node : Bytes → ℕ → Globtree Regex
  regex_node : Regex → Globtree Regex
  true_node : Globtree Regex
  false_node : Globtree Regex

-- `walkstate_t`.
pub data WalkState : Type 0 where
  doing_left : WalkState
  doing_right : WalkState

-- The list threaded through `stack_next`; each node on it carries its `state`.
abbrev pub Stack : Type 0 → Type 0
Stack Regex = List (Globtree Regex × WalkState)

module _ {Regex : Type 0} where
  abbrev pub is_true : Globtree Regex → Bool
  is_true true_node = true
  is_true _ = false

  abbrev pub is_false : Globtree Regex → Bool
  is_false false_node = true
  is_false _ = false

  abbrev pub globtree_match : Bytes → ℕ → Globtree Regex
  globtree_match pattern flags = match_node pattern flags

  -- A pattern that does not compile fails the assertion.
  pub globtree_regex : (Bytes → Option Regex) → Bytes → Run (Globtree Regex)
  globtree_regex regcomp pattern = elim (regcomp pattern) [
    | some r ↦ done (regex_node r)
    | none ↦ abort
  ]

  unfoldable pub globtree_and : Globtree Regex → Globtree Regex → Globtree Regex
  globtree_and left right =
      if is_false left
      then false_node
      else if is_false right
      then false_node
      else if is_true left
      then right
      else if is_true right
      then left
      else and_node left right

  unfoldable pub globtree_or : Globtree Regex → Globtree Regex → Globtree Regex
  globtree_or left right =
      if is_true left
      then true_node
      else if is_true right
      then true_node
      else if is_false left
      then right
      else if is_false right
      then left
      else or_node left right

  unfoldable pub globtree_not : Globtree Regex → Globtree Regex
  globtree_not child =
      if is_true child then false_node else if is_false child then true_node else not_node child

-- A match answers 0 and a mismatch 1 (FNM_NOMATCH, REG_NOMATCH); `regexec` may fail otherwise.
abbrev pub no_match : ℕ
no_match = 1

-- The end of a matching leaf: 0 is true, the mismatch code false, and anything else asserts.
abbrev pub of_rv : ℕ → Run Bool
of_rv rv = if rv == 0 then done true else if rv == no_match then done false else abort

-- What one round of the ascent leaves the outer loop with.
pub data Next (Regex : Type 0) : Type 0 where
  finished : Bool → Next Regex
  descend_into : Globtree Regex → Stack Regex → Next Regex
  bad_stack : Next Regex

module _ {Regex : Type 0} (fnmatch : Bytes → Bytes → ℕ → ℕ) (regexec : Regex → Bytes → ℕ) where
  unfoldable pub globtree_eval : Globtree Regex → Bytes → Run Bool
  globtree_eval true_node path = done true
  globtree_eval false_node path = done false
  globtree_eval (match_node pattern flags) path = of_rv (fnmatch pattern path flags)
  globtree_eval (regex_node r) path = of_rv (regexec r path)
  globtree_eval (not_node _) path = abort
  globtree_eval (and_node _ _) path = abort
  globtree_eval (or_node _ _) path = abort

module _ {Regex : Type 0} where
  -- Descend to the left until we hit bottom.
  unfoldable pub descend : Globtree Regex → Stack Regex → Globtree Regex × Stack Regex
  descend (not_node c) stack = descend c ((not_node c, doing_left) ∷ stack)
  descend (and_node l r) stack = descend l ((and_node l r, doing_left) ∷ stack)
  descend (or_node l r) stack = descend l ((or_node l r, doing_left) ∷ stack)
  descend (match_node p f) stack = (match_node p f, stack)
  descend (regex_node r) stack = (regex_node r, stack)
  descend true_node stack = (true_node, stack)
  descend false_node stack = (false_node, stack)

  -- Ascend, propagating the value through operator nodes.
  unfoldable pub ascend : Bool → Stack Regex → Next Regex
  ascend val [] = finished val
  ascend val ((not_node c, state) ∷ stack) = ascend (not val) stack
  ascend true ((and_node l r, doing_left) ∷ stack) =
      descend_into r ((and_node l r, doing_right) ∷ stack)
  ascend val ((and_node l r, state) ∷ stack) = ascend val stack
  ascend false ((or_node l r, doing_left) ∷ stack) =
      descend_into r ((or_node l r, doing_right) ∷ stack)
  ascend val ((or_node l r, state) ∷ stack) = ascend val stack
  ascend val ((match_node p f, state) ∷ stack) = bad_stack
  ascend val ((regex_node r, state) ∷ stack) = bad_stack
  ascend val ((true_node, state) ∷ stack) = bad_stack
  ascend val ((false_node, state) ∷ stack) = bad_stack

  -- The number of leaves bounds the rounds of the outer loop.
  unfoldable pub leaves : Globtree Regex → ℕ
  leaves (not_node c) = leaves c
  leaves (and_node l r) = leaves l + leaves r
  leaves (or_node l r) = leaves l + leaves r
  leaves _ = 1

module _ {Regex : Type 0} (fnmatch : Bytes → Bytes → ℕ → ℕ) (regexec : Regex → Bytes → ℕ) where
  -- The outer loop of `globtree_test`, on fuel.
  unfoldable pub walk : ℕ → Globtree Regex → Bytes → Stack Regex → Run Bool
  walk zero gt path stack = out_of_fuel
  walk (suc f) gt path stack = globtree_eval fnmatch regexec (descend gt stack).0 path >>= λ val.
      elim (ascend val (descend gt stack).1) [
        | finished v ↦ done v
        | descend_into gt' stack' ↦ walk f gt' path stack'
        | bad_stack ↦ abort
      ]

  unfoldable pub globtree_test : Globtree Regex → Bytes → Run Bool
  globtree_test gt path = walk (leaves gt) gt path []
