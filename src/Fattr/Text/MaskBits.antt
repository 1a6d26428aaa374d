-- ===== src/Fattr/Text/MaskBits.antt =====
-- The mask of fattr.c as a number: every bit is read back.
use csup.Prelude.{
  if◌then◌else◌, ℕ, ◌+◌, ◌*◌, ◌/◌, ◌%◌, ◌<◌, ◌≤◌, ◌≡◌, refl, arith, Bool, true, false, ◌==◌,
  fun_ext,
}
use csup.Fattr.{
  Attr, filetype, modtime, size, linktarget, rdev, owner, group, mode, fflags, linkcount, dev,
  inode, Mask,
}
use csup.Fattr.Text.{bit_if, bit, number_of_mask, mask_of_number}

abbrev one_if : Bool → ℕ
one_if false = 0
one_if true = 1

one_if_bound : (b : Bool) → one_if b ≤ 1
one_if_bound false = omega arith
one_if_bound true = omega arith

bit_if-one_if : (m : Mask) (a : Attr) → bit_if m a ≡ one_if (m a) * bit a
bit_if-one_if m a = go (m a) (bit a)
  where
    go : (b : Bool) (n : ℕ) → (if b then n else 0) ≡ one_if b * n
    go false n = omega arith
    go true n = omega arith

one_if-== : (b : Bool) → (one_if b == 1) ≡ b
one_if-== false = refl
one_if-== true = refl

-- The binary number of twelve digits, and each of its digits.
abbrev number12 : (x : Attr → ℕ) → ℕ
number12 x =
    x filetype
    + 2 * x modtime
    + 4 * x size
    + 8 * x linktarget
    + 16 * x rdev
    + 32 * x owner
    + 64 * x group
    + 128 * x mode
    + 256 * x fflags
    + 512 * x linkcount
    + 1024 * x dev
    + 2048 * x inode

number12_digit :
    (x : Attr → ℕ)
    → ((a : Attr) → x a ≤ 1)
    → (number12 x < 4096) × ((a : Attr) → number12 x / bit a % 2 ≡ x a)
number12_digit x h =
    let h0 = h filetype in
    let h1 = h modtime in
    let h2 = h size in
    let h3 = h linktarget in
    let h4 = h rdev in
    let h5 = h owner in
    let h6 = h group in
    let h7 = h mode in
    let h8 = h fflags in
    let h9 = h linkcount in
    let h10 = h dev in
    let h11 = h inode in (omega (arith, h0, h1, h2, h3, h4, h5, h6, h7, h8, h9, h10, h11), digit)
  where
    digit : (a : Attr) → number12 x / bit a % 2 ≡ x a
    digit filetype = omega (
      arith,
      h filetype,
      h modtime,
      h size,
      h linktarget,
      h rdev,
      h owner,
      h group,
      h mode,
      h fflags,
      h linkcount,
      h dev,
      h inode,
    )
    digit modtime = omega (
      arith,
      h filetype,
      h modtime,
      h size,
      h linktarget,
      h rdev,
      h owner,
      h group,
      h mode,
      h fflags,
      h linkcount,
      h dev,
      h inode,
    )
    digit size = omega (
      arith,
      h filetype,
      h modtime,
      h size,
      h linktarget,
      h rdev,
      h owner,
      h group,
      h mode,
      h fflags,
      h linkcount,
      h dev,
      h inode,
    )
    digit linktarget = omega (
      arith,
      h filetype,
      h modtime,
      h size,
      h linktarget,
      h rdev,
      h owner,
      h group,
      h mode,
      h fflags,
      h linkcount,
      h dev,
      h inode,
    )
    digit rdev = omega (
      arith,
      h filetype,
      h modtime,
      h size,
      h linktarget,
      h rdev,
      h owner,
      h group,
      h mode,
      h fflags,
      h linkcount,
      h dev,
      h inode,
    )
    digit owner = omega (
      arith,
      h filetype,
      h modtime,
      h size,
      h linktarget,
      h rdev,
      h owner,
      h group,
      h mode,
      h fflags,
      h linkcount,
      h dev,
      h inode,
    )
    digit group = omega (
      arith,
      h filetype,
      h modtime,
      h size,
      h linktarget,
      h rdev,
      h owner,
      h group,
      h mode,
      h fflags,
      h linkcount,
      h dev,
      h inode,
    )
    digit mode = omega (
      arith,
      h filetype,
      h modtime,
      h size,
      h linktarget,
      h rdev,
      h owner,
      h group,
      h mode,
      h fflags,
      h linkcount,
      h dev,
      h inode,
    )
    digit fflags = omega (
      arith,
      h filetype,
      h modtime,
      h size,
      h linktarget,
      h rdev,
      h owner,
      h group,
      h mode,
      h fflags,
      h linkcount,
      h dev,
      h inode,
    )
    digit linkcount = omega (
      arith,
      h filetype,
      h modtime,
      h size,
      h linktarget,
      h rdev,
      h owner,
      h group,
      h mode,
      h fflags,
      h linkcount,
      h dev,
      h inode,
    )
    digit dev = omega (
      arith,
      h filetype,
      h modtime,
      h size,
      h linktarget,
      h rdev,
      h owner,
      h group,
      h mode,
      h fflags,
      h linkcount,
      h dev,
      h inode,
    )
    digit inode = omega (
      arith,
      h filetype,
      h modtime,
      h size,
      h linktarget,
      h rdev,
      h owner,
      h group,
      h mode,
      h fflags,
      h linkcount,
      h dev,
      h inode,
    )

number_of_mask-number12 : (m : Mask) → number_of_mask m ≡ number12 (λ a. one_if (m a))
unfolding number_of_mask
number_of_mask-number12 m =
    let e0 = bit_if-one_if m filetype in
    let e1 = bit_if-one_if m modtime in
    let e2 = bit_if-one_if m size in
    let e3 = bit_if-one_if m linktarget in
    let e4 = bit_if-one_if m rdev in
    let e5 = bit_if-one_if m owner in
    let e6 = bit_if-one_if m group in
    let e7 = bit_if-one_if m mode in
    let e8 = bit_if-one_if m fflags in
    let e9 = bit_if-one_if m linkcount in
    let e10 = bit_if-one_if m dev in
    let e11 = bit_if-one_if m inode in
    omega (arith, e0, e1, e2, e3, e4, e5, e6, e7, e8, e9, e10, e11)

pub number_of_mask_bound : (m : Mask) → number_of_mask m < 4096
number_of_mask_bound m =
    rw (number_of_mask-number12 m) (number12_digit (λ a. one_if (m a)) (λ a. one_if_bound (m a))).0

-- The mask is read back from its number.
pub mask_of_number_of_mask : (m : Mask) → mask_of_number (number_of_mask m) ≡ m
mask_of_number_of_mask m = fun_ext λ a.
    rw
      (
        number_of_mask-number12 m,
        (number12_digit (λ b. one_if (m b)) (λ b. one_if_bound (m b))).1 a,
      )
      (one_if-== (m a))
