-- ===== src/Proto/Filtered.antt =====
-- Which names a collection's filters let through.
use csup.Prelude.{ℕ, Bytes, ◌≡◌, refl, ◌∙◌, ap, ap₂, arith}
use csup.Prelude.{Bool, true, false, ◌&&◌, ◌||◌, not, ◌==◌, List, [], ◌∷◌}
use csup.Prelude.Run.{done}
use csup.Globtree.{
  Globtree, globtree_match, globtree_or, globtree_and, globtree_not, false_node, globtree_test,
}
use csup.Globtree.Meaning.{accepts}
use csup.Globtree.Reduced.{
  Answers, globtree_test-eq-accepts, accepts-globtree_and, accepts-globtree_or,
  accepts-globtree_not,
}
use csup.Proto.Filters.{
  accept_flags, file_pattern, or_patterns, accept_tree, refuse_tree, dir_filter, file_filter,
}

module _ {Regex : Type 0} (fnmatch : Bytes → Bytes → ℕ → ℕ) (regexec : Regex → Bytes → ℕ) where
  -- Some pattern of the list, edited, matches the path.
  abbrev pub any_matches : (Bytes → Bytes) → ℕ → List Bytes → Bytes → Bool
  any_matches edit flags [] path = false
  any_matches edit flags (pat ∷ pats) path =
      (fnmatch (edit pat) path flags == 0) || any_matches edit flags pats path

  -- No accept pattern, or one that matches.
  abbrev pub accepted : (Bytes → Bytes) → List Bytes → Bytes → Bool
  accepted edit [] path = true
  accepted edit (pat ∷ pats) path = any_matches edit accept_flags (pat ∷ pats) path

  ||_assoc : (a b c : Bool) → ((a || b) || c) ≡ (a || (b || c))
  ||_assoc a b c = ground arith

  accepts-or_patterns :
      (edit : Bytes → Bytes) (flags : ℕ) (gt : Globtree Regex) (pats : List Bytes) (path : Bytes)
      → accepts fnmatch regexec (or_patterns edit flags gt pats) path
        ≡ (accepts fnmatch regexec gt path || any_matches edit flags pats path)
  unfolding or_patterns
  accepts-or_patterns edit flags gt [] path = ground arith
  accepts-or_patterns edit flags gt (pat ∷ pats) path =
      accepts-or_patterns edit flags (globtree_or gt (globtree_match (edit pat) flags)) pats path
      ∙ ap (λ b. b || any_matches edit flags pats path)
          (accepts-globtree_or fnmatch regexec gt (globtree_match (edit pat) flags) path)
      ∙ unfold accepts in
        ||_assoc (accepts fnmatch regexec gt path) (fnmatch (edit pat) path flags == 0)
          (any_matches edit flags pats path)

  accepts-accept_tree :
      (edit : Bytes → Bytes) (pats : List Bytes) (path : Bytes)
      → accepts fnmatch regexec (accept_tree edit pats) path ≡ accepted edit pats path
  unfolding accept_tree accepts
  accepts-accept_tree edit [] path = refl
  accepts-accept_tree edit (pat ∷ pats) path =
      accepts-or_patterns edit accept_flags false_node (pat ∷ pats) path

  accepts-refuse_tree :
      (edit : Bytes → Bytes) (pats : List Bytes) (path : Bytes)
      → accepts fnmatch regexec (refuse_tree edit pats) path ≡ any_matches edit 0 pats path
  unfolding refuse_tree accepts
  accepts-refuse_tree edit pats path = accepts-or_patterns edit 0 false_node pats path

  -- If fnmatch() and regexec() answer only with a match or their mismatch code, then testing a
  -- directory against `co_dirfilter`, and a file against `co_filefilter`, gives true exactly if an
  -- accept pattern matches (or there is none) and no refuse pattern matches; for files, in checkout
  -- mode, each pattern that does not end in a star is read with ",v" appended.
  pub collection_filters_lem :
      Answers fnmatch regexec
      → (checkout_mode : Bool) (accept_pats refuse_pats : List Bytes) (path : Bytes)
      → (globtree_test fnmatch regexec (dir_filter accept_pats refuse_pats) path
          ≡ done
              (accepted (λ p. p) accept_pats path && not (any_matches (λ p. p) 0 refuse_pats path)))
        × (globtree_test fnmatch regexec (file_filter checkout_mode accept_pats refuse_pats) path
            ≡ done (
                accepted (file_pattern checkout_mode) accept_pats path
                && not (any_matches (file_pattern checkout_mode) 0 refuse_pats path)))
  unfolding dir_filter file_filter
  collection_filters_lem answers checkout_mode aps rps path =
      (filter (λ p. p), filter (file_pattern checkout_mode))
    where
      filter :
          (edit : Bytes → Bytes)
          → globtree_test fnmatch regexec
              (globtree_and (accept_tree edit aps) (globtree_not (refuse_tree edit rps)))
              path
            ≡ done (accepted edit aps path && not (any_matches edit 0 rps path))
      filter edit =
          globtree_test-eq-accepts answers _ path
          ∙ ap (λ v. done v)
              (accepts-globtree_and fnmatch regexec (accept_tree edit aps)
                  (globtree_not (refuse_tree edit rps)) path
                ∙ ap₂ ◌&&◌ (accepts-accept_tree edit aps path) (
                    accepts-globtree_not fnmatch regexec (refuse_tree edit rps) path
                    ∙ ap not (accepts-refuse_tree edit rps path)))
