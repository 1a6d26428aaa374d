-- ===== src/Globtree/Meaning.antt =====
-- What a file name expression means, by recursion on the tree and with no stack.
use csup.Prelude.{Bytes, ℕ, Bool, true, false, ◌&&◌, ◌||◌, not, ◌==◌}
use csup.Prelude.Run.{Run, done, ◌>>=◌}
use csup.Globtree.{Globtree, globtree_eval}
use csup.Globtree.{not_node, and_node, or_node, match_node, regex_node, true_node, false_node}

module _ {Regex : Type 0} (fnmatch : Bytes → Bytes → ℕ → ℕ) (regexec : Regex → Bytes → ℕ) where
  -- The evaluation that the walk stands for: left to right, and the right operand only where the
  -- left one leaves the answer open. A leaf that fails its assertion ends the process.
  unfoldable pub evaluate : Globtree Regex → Bytes → Run Bool
  evaluate (not_node c) path = evaluate c path >>= λ v. done (not v)
  evaluate (and_node l r) path =
      evaluate l path >>= λ v. elim v [ true ↦ evaluate r path | false ↦ done false ]
  evaluate (or_node l r) path =
      evaluate l path >>= λ v. elim v [ true ↦ done true | false ↦ evaluate r path ]
  evaluate (match_node p f) path = globtree_eval fnmatch regexec (match_node p f) path
  evaluate (regex_node r) path = globtree_eval fnmatch regexec (regex_node r) path
  evaluate true_node path = done true
  evaluate false_node path = done false

  -- The boolean reading, which every leaf answers: a matcher accepts by answering 0.
  unfoldable pub accepts : Globtree Regex → Bytes → Bool
  accepts (not_node c) path = not (accepts c path)
  accepts (and_node l r) path = accepts l path && accepts r path
  accepts (or_node l r) path = accepts l path || accepts r path
  accepts (match_node p f) path = fnmatch p path f == 0
  accepts (regex_node r) path = regexec r path == 0
  accepts true_node path = true
  accepts false_node path = false
