-- ===== src/Fattr/Selected.antt =====
-- Which attributes fattr_override(), fattr_merge() and fattr_dup() take from where, and what
-- fattr_equal() compares.
use csup.Prelude.{
  ℕ, ◌≡◌, refl, arith, Bool, true, false, ◌&&◌, ◌||◌, not, if◌then◌else◌, Bytes, Option, none,
}
use csup.Prelude.Int.{ℤ}
use csup.Fattr.{
  Attr, filetype, modtime, size, linktarget, rdev, owner, group, mode, fflags, linkcount, dev,
  inode, Mask, mask_and, mask_not, all_attrs, Fattr, fattr_new, fattr_override, fattr_merge,
  fattr_dup, fattr_supported, ft_unknown, pick,
}

-- The value of an attribute.
pub data Value : Type 0 where
  number : ℕ → Value
  signed : ℤ → Value
  text : Option Bytes → Value

abbrev pub value : Fattr → Attr → Value
value fa filetype = number fa.type_of
value fa modtime = signed fa.modtime_of
value fa size = signed fa.size_of
value fa linktarget = text fa.linktarget_of
value fa rdev = number fa.rdev_of
value fa owner = number fa.uid
value fa group = number fa.gid
value fa mode = number fa.mode_of
value fa fflags = number fa.flags_of
value fa linkcount = number fa.linkcount_of
value fa dev = number fa.dev_of
value fa inode = number fa.inode_of

ap-pick {ℓ κ} :
    {A : Type ℓ} {B : Type κ} (f : A → B) (b : Bool) (x y : A)
    → f (pick b x y) ≡ (if b then f x else f y)
ap-pick f true x y = refl
ap-pick f false x y = refl

override-value :
    (fa from : Fattr) (which : Mask) (a : Attr)
    → value (fattr_override fa from which) a
      ≡ (if which a && from.mask a then value from a else value fa a)
unfolding fattr_override
override-value fa from which filetype = ap-pick number _ _ _
override-value fa from which modtime = ap-pick signed _ _ _
override-value fa from which size = ap-pick signed _ _ _
override-value fa from which linktarget = ap-pick text _ _ _
override-value fa from which rdev = ap-pick number _ _ _
override-value fa from which owner = ap-pick number _ _ _
override-value fa from which group = ap-pick number _ _ _
override-value fa from which mode = ap-pick number _ _ _
override-value fa from which fflags = ap-pick number _ _ _
override-value fa from which linkcount = ap-pick number _ _ _
override-value fa from which dev = ap-pick number _ _ _
override-value fa from which inode = ap-pick number _ _ _

-- For every attribute: fattr_merge() has it if one of the two has it, and takes its value from
-- `from` exactly where `from` has it and `fa` does not; fattr_dup() has the same attributes, with
-- the same values.
pub fattr_merge-dup :
    (fa from : Fattr) (a : Attr)
    → ((fattr_merge fa from).mask a ≡ (fa.mask a || from.mask a))
      × (value (fattr_merge fa from) a
          ≡ (if from.mask a && not (fa.mask a) then value from a else value fa a))
      × ((fattr_dup from).mask a ≡ from.mask a)
      × (from.mask a ≡ true → value (fattr_dup from) a ≡ value from a)
unfolding fattr_merge fattr_dup
fattr_merge-dup fa from a =
    let merged = override-value fa from (mask_and from.mask (mask_not fa.mask)) a in
    let copied = override-value (fattr_new ft_unknown none) from all_attrs a in
    (
      unfold fattr_override in ground arith,
      ground (arith, merged),
      unfold fattr_override fattr_new fattr_supported in ground arith,
      λ h. ground (arith, copied),
    )
