-- ===== src/Tests/Names.antt =====
-- The path functions of misc.c on concrete names.
use csup.Prelude.{◌≡◌, ◌↔◌, ◌<◌, ◌≤◌, refl, arith, Bytes, [], ◌∷◌, ◌++◌, true, false, some, none}
use csup.Prelude.Int.{pos, neg, is_negative}
use csup.Paths.Compare.{pathcmp}
use csup.Paths.CompareOrder.{IsPath, pathcmp-orders, pathcmp-directory_first}
use csup.Paths.Common.{slash, commonpathlength, pathlast}
use csup.Paths.CommonLongest.{IsLongest, commonpathlength-IsLongest}
use csup.Paths.Rcs.{isrcs, checkoutpath, cvspath, bad_dots, starts_with_slash}
use csup.Paths.RcsSafe.{
  IsRcsName, rcs_suffix, parent, parent_file, checkoutpath-IsRcsName, checkoutpath-parent,
}

abbrev src : Bytes
src = b's' ∷ b'r' ∷ b'c' ∷ []

abbrev srv : Bytes
srv = b's' ∷ b'r' ∷ b'v' ∷ []

-- "src/a,v"
abbrev src_a_v : Bytes
src_a_v = src ++ (b'/' ∷ b'a' ∷ b',' ∷ b'v' ∷ [])

src-IsPath : IsPath src
src-IsPath =
    ((omega arith, omega arith), ((omega arith, omega arith), ((omega arith, omega arith), tt)))

pathcmp-orders_example :
    ((pathcmp src src ≡ pos 0) ↔ (src ≡ src))
    × (pathcmp src src ≡ neg (pathcmp src src))
    × (is_negative (pathcmp src src) ≡ true
        → is_negative (pathcmp src src) ≡ true
        → is_negative (pathcmp src src) ≡ true)
pathcmp-orders_example = pathcmp-orders src src src src-IsPath src-IsPath src-IsPath

pathcmp-directory_first_example :
    (b'-' < 128 → is_negative (pathcmp (src ++ (b'/' ∷ srv)) (src ++ (b'-' ∷ srv))) ≡ true)
    × (128 ≤ b'-' → is_negative (pathcmp (src ++ (b'-' ∷ srv)) (src ++ (b'/' ∷ srv))) ≡ true)
pathcmp-directory_first_example =
    pathcmp-directory_first src srv srv b'-' src-IsPath (omega arith) (λ e. absurd (omega arith))

commonpathlength-IsLongest_example : IsLongest src_a_v srv (commonpathlength src_a_v srv)
commonpathlength-IsLongest_example = commonpathlength-IsLongest src_a_v srv

common_of_two : commonpathlength src_a_v (src ++ (b'/' ∷ b'b' ∷ [])) ≡ 3
unfolding commonpathlength
common_of_two = refl

last_of_path : pathlast src_a_v ≡ b'a' ∷ b',' ∷ b'v' ∷ []
unfolding pathlast
last_of_path = refl

file_in_attic :
    cvspath srv src_a_v true
    ≡ srv ++ (slash ∷ src ++ (slash ∷ b'A' ∷ b't' ∷ b't' ∷ b'i' ∷ b'c' ∷ slash ∷ b'a' ∷ rcs_suffix))
unfolding cvspath pathlast
file_in_attic = refl

dots_refused : isrcs (b'.' ∷ b'.' ∷ slash ∷ src_a_v) ≡ none
unfolding isrcs bad_dots starts_with_slash
dots_refused = refl

src_a_checked_out : checkoutpath srv src_a_v ≡ some (srv ++ (slash ∷ (src ++ (slash ∷ b'a' ∷ []))))
unfolding checkoutpath isrcs bad_dots starts_with_slash
src_a_checked_out = refl

checkoutpath-IsRcsName_example :
    IsRcsName src_a_v
    × (base : Bytes) × (src_a_v ≡ base ++ rcs_suffix)
    × (srv ++ (slash ∷ (src ++ (slash ∷ b'a' ∷ []))) ≡ srv ++ (slash ∷ base))
checkoutpath-IsRcsName_example =
    checkoutpath-IsRcsName srv src_a_v (srv ++ (slash ∷ (src ++ (slash ∷ b'a' ∷ []))))
      src_a_checked_out

no_dots_in_src : bad_dots none src ≡ false
unfolding bad_dots
no_dots_in_src = refl

relative_src : starts_with_slash src ≡ false
unfolding starts_with_slash
relative_src = refl

checkoutpath-parent_example :
    checkoutpath srv (src ++ parent_file) ≡ some (srv ++ (slash ∷ (src ++ parent)))
checkoutpath-parent_example = checkoutpath-parent srv src refl relative_src no_dots_in_src
