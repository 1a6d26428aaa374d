-- ===== src/Tests/Revisions.antt =====
-- misc.c: rcsnum_cmp() on "1.9" and "1.10.2".
use csup.Prelude.{◌≡◌, refl, arith, Bytes, List, [], ◌∷◌, ◌++◌, All}
use csup.Prelude.Run.{done, abort}
use csup.Revision.{rcsnum_cmp, less, field, behind, strncmp, cmp_field, cmp_from}
use csup.Revision.{rcsrev_istrunk, rcsrev_prefix}
use csup.Revision.Branches.{has_no_more, prefix_of, revision_branches}
use csup.Revision.Numeric.{
  IsNumber, IsDigit, a_digit, more_digits, join, cmp_numbers, rcsnum_cmp-numbers,
}

abbrev one_nine : List Bytes
one_nine = (b'1' ∷ []) ∷ (b'9' ∷ []) ∷ []

abbrev one_ten_two : List Bytes
one_ten_two = (b'1' ∷ []) ∷ (b'1' ∷ b'0' ∷ []) ∷ (b'2' ∷ []) ∷ []

one_nine-IsNumber : All IsNumber one_nine
one_nine-IsNumber =
    (a_digit b'1' (omega arith, omega arith), (a_digit b'9' (omega arith, omega arith), tt))

one_ten_two-IsNumber : All IsNumber one_ten_two
one_ten_two-IsNumber =
    let two : All IsNumber ((b'2' ∷ []) ∷ []) = (a_digit b'2' (omega arith, omega arith), tt) in
    let zero_digit : All IsDigit (b'0' ∷ []) = ((omega arith, omega arith), tt) in
    let ten : IsNumber (b'1' ∷ b'0' ∷ []) =
      more_digits b'1' b'0' [] (omega arith, omega arith) (omega arith) zero_digit in
    (a_digit b'1' (omega arith, omega arith), (ten, two))

nine_before_ten : rcsnum_cmp (join one_nine) (join one_ten_two) ≡ done less
unfolding rcsnum_cmp cmp_from field behind cmp_field strncmp
nine_before_ten = refl

rcsnum_cmp-numbers_example :
    rcsnum_cmp (join one_nine) (join one_ten_two) ≡ done (cmp_numbers one_nine one_ten_two)
rcsnum_cmp-numbers_example =
    rcsnum_cmp-numbers one_nine one_ten_two one_nine-IsNumber one_ten_two-IsNumber

revision_branches_example :
    (rcsrev_istrunk (join ((b'1' ∷ []) ∷ [])) ≡ abort)
    × (rcsrev_istrunk (join ((b'1' ∷ []) ∷ (b'4' ∷ []) ∷ one_nine)) ≡ done (has_no_more one_nine))
    × (rcsrev_prefix (join (one_nine ++ ((b'1' ∷ []) ∷ []))) ≡ prefix_of one_nine)
revision_branches_example = revision_branches (b'1' ∷ []) (b'4' ∷ []) one_nine (refl, tt) (refl, tt)
