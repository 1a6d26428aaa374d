-- ===== src/Proto/Filters.antt =====
-- proto.c, proto_xchgcoll(): the filters that are built from a collection's accept and refuse
-- patterns. A `struct pattlist` is the list of its patterns, and the loops over it go from 0 up.
use csup.Prelude.{ℕ, ◌+◌, Bytes, Bool, false, ◌&&◌, not, ◌==◌, if◌then◌else◌, List, [], ◌∷◌, ◌++◌}
use csup.Globtree.{
  Globtree, true_node, false_node, globtree_match, globtree_and, globtree_or, globtree_not,
}

-- fnmatch.h
abbrev pub fnm_pathname : ℕ
fnm_pathname = 0x02

abbrev pub fnm_leading_dir : ℕ
fnm_leading_dir = 0x08

abbrev pub fnm_prefix_dirs : ℕ
fnm_prefix_dirs = 0x20

-- FNM_PATHNAME | FNM_LEADING_DIR | FNM_PREFIX_DIRS: the bits are distinct, so the sum is the union.
abbrev pub accept_flags : ℕ
accept_flags = fnm_pathname + fnm_leading_dir + fnm_prefix_dirs

-- `len > 0 && pat[len - 1] == '*'`
unfoldable pub ends_in_star : Bytes → Bool
ends_in_star [] = false
ends_in_star (c ∷ []) = c == b'*'
ends_in_star (c ∷ d ∷ pat) = ends_in_star (d ∷ pat)

-- In checkout mode a pattern must refer to the RCS file, rather than to the checked-out file.
unfoldable pub file_pattern : Bool → Bytes → Bytes
file_pattern checkout_mode pat =
    if checkout_mode && not (ends_in_star pat) then pat ++ (b',' ∷ b'v' ∷ []) else pat

module _ {Regex : Type 0} where
  -- for (...) gt = globtree_or(gt, globtree_match(edit(pat), flags));
  unfoldable pub or_patterns : (Bytes → Bytes) → ℕ → Globtree Regex → List Bytes → Globtree Regex
  or_patterns edit flags gt [] = gt
  or_patterns edit flags gt (pat ∷ pats) =
      or_patterns edit flags (globtree_or gt (globtree_match (edit pat) flags)) pats

  -- `diraccept` and `fileaccept`: with no pattern at all, everything is accepted.
  unfoldable pub accept_tree : (Bytes → Bytes) → List Bytes → Globtree Regex
  accept_tree edit [] = true_node
  accept_tree edit (pat ∷ pats) = or_patterns edit accept_flags false_node (pat ∷ pats)

  -- `dirrefuse` and `filerefuse`.
  unfoldable pub refuse_tree : (Bytes → Bytes) → List Bytes → Globtree Regex
  refuse_tree edit pats = or_patterns edit 0 false_node pats

  -- `co_dirfilter`.
  unfoldable pub dir_filter : List Bytes → List Bytes → Globtree Regex
  dir_filter accepts refusals =
      globtree_and (accept_tree (λ p. p) accepts) (globtree_not (refuse_tree (λ p. p) refusals))

  -- `co_filefilter`.
  unfoldable pub file_filter : Bool → List Bytes → List Bytes → Globtree Regex
  file_filter checkout_mode accepts refusals =
      globtree_and (accept_tree (file_pattern checkout_mode) accepts)
        (globtree_not (refuse_tree (file_pattern checkout_mode) refusals))
