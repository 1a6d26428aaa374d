-- ===== src/Tests/Trees.antt =====
-- globtree.c and the filters of proto.c on concrete trees and names.
use csup.Prelude.{
  ℕ, ◌≡◌, refl, arith, Bytes, [], ◌∷◌, Bool, true, false, ◌&&◌, ◌||◌, not, ◌==◌, if◌then◌else◌,
}
use csup.Prelude.Run.{done}
use csup.Globtree.{
  Globtree, match_node, regex_node, not_node, and_node, or_node, globtree_test, globtree_and,
  globtree_or, globtree_not, walk, leaves, globtree_eval, descend, ascend,
}
use csup.Globtree.Meaning.{evaluate}
use csup.Globtree.Walk.{globtree_test-eq-evaluate}
use csup.Globtree.Reduced.{Answers, globtree_test-constructors}
use csup.Proto.Filters.{
  dir_filter, file_filter, file_pattern, accept_tree, refuse_tree, or_patterns, ends_in_star,
}
use csup.Proto.Filtered.{accepted, any_matches, collection_filters_lem}

abbrev same : Bytes → Bytes → Bool
same [] [] = true
same [] (d ∷ t) = false
same (c ∷ s) [] = false
same (c ∷ s) (d ∷ t) = (c == d) && same s t

-- A matcher for which a pattern matches itself alone.
abbrev literal : Bytes → Bytes → ℕ → ℕ
literal p s flags = if same p s then 0 else 1

abbrev literal_regexec : Bytes → Bytes → ℕ
literal_regexec r s = if same r s then 0 else 1

literal-Answers : Answers literal literal_regexec
literal-Answers = record {
  fnmatch_answers = λ p s flags. ground arith;
  regexec_answers = λ r s. ground arith;
}

abbrev src : Bytes
src = b's' ∷ b'r' ∷ b'c' ∷ []

abbrev doc : Bytes
doc = b'd' ∷ b'o' ∷ b'c' ∷ []

abbrev src_v : Bytes
src_v = b's' ∷ b'r' ∷ b'c' ∷ b',' ∷ b'v' ∷ []

abbrev match_src : Globtree Bytes
match_src = match_node src 0

abbrev regex_doc : Globtree Bytes
regex_doc = regex_node doc

-- src & !(doc | src)
abbrev mixed : Globtree Bytes
mixed = or_node (and_node match_src (not_node (or_node regex_doc match_src))) regex_doc

mixed_on_src : globtree_test literal literal_regexec mixed src ≡ done false
unfolding globtree_test walk leaves globtree_eval descend ascend
mixed_on_src = refl

mixed_on_doc : globtree_test literal literal_regexec mixed doc ≡ done true
unfolding globtree_test walk leaves globtree_eval descend ascend
mixed_on_doc = refl

globtree_test-eq-evaluate_example :
    globtree_test literal literal_regexec mixed src ≡ evaluate literal literal_regexec mixed src
globtree_test-eq-evaluate_example = globtree_test-eq-evaluate literal literal_regexec mixed src

globtree_test-constructors_example :
    (a : Bool) × (b : Bool) × (globtree_test literal literal_regexec match_src doc ≡ done a)
    × (globtree_test literal literal_regexec regex_doc doc ≡ done b)
    × (globtree_test literal literal_regexec (globtree_not match_src) doc ≡ done (not a))
    × (globtree_test literal literal_regexec (globtree_and match_src regex_doc) doc ≡ done (a && b))
    × (globtree_test literal literal_regexec (globtree_or match_src regex_doc) doc ≡ done (a || b))
globtree_test-constructors_example =
    globtree_test-constructors literal-Answers match_src regex_doc doc

collection_filters_lem_example :
    (globtree_test literal literal_regexec (dir_filter (src ∷ []) (doc ∷ [])) src
      ≡ done (
          accepted literal literal_regexec (λ p. p) (src ∷ []) src
          && not (any_matches literal literal_regexec (λ p. p) 0 (doc ∷ []) src)))
    × (globtree_test literal literal_regexec (file_filter true (src ∷ []) (doc ∷ [])) src
        ≡ done (
            accepted literal literal_regexec (file_pattern true) (src ∷ []) src
            && not (any_matches literal literal_regexec (file_pattern true) 0 (doc ∷ []) src)))
collection_filters_lem_example =
    collection_filters_lem literal literal_regexec literal-Answers true (src ∷ []) (doc ∷ []) src

-- In checkout mode the pattern "src" is for the file "src,v".
checkout_pattern :
    globtree_test literal literal_regexec (file_filter true (src ∷ []) []) src_v ≡ done true
unfolding file_filter globtree_test walk leaves globtree_and accept_tree or_patterns globtree_or
    globtree_not refuse_tree globtree_eval descend file_pattern ends_in_star ascend
checkout_pattern = refl
