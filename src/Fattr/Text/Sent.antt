-- ===== src/Fattr/Text/Sent.antt =====
-- The attributes of fattr.c one by one: what fattr_encode() writes for one of them and what
-- fattr_scanattr() makes of it.
use csup.Prelude.{
  ℕ, suc, ◌%◌, ◌^◌, ◌<◌, ◌≤◌, ◌≡◌, refl, sym, arith, Bool, true, false, ltb, ltb→lt, ◌==◌, ◌/◌,
  Bytes, [], length, some, Option, Bool-cases, inl, inr, append-nil,
}
use csup.Prelude.Int.{ℤ, pos}
use native.Mathlib.Nat.{mod-eq_of_lt}
use csup.Numbers.{digits_from, print, print_signed, strtoul, strtoll, cast}
use csup.Numbers.RoundTrip.{strtoll-print, strtoul-print, strtoll-print_signed, IsInt64}
use csup.Fattr.{
  Attr, filetype, modtime, size, linktarget, rdev, owner, group, mode, fflags, linkcount, dev,
  inode, Mask, Fattr, pick,
}
use csup.Fattr.Text.{signed_of, name_or_empty, mode_mask, whole, scan_value}
use csup.Fattr.Text.Fields.{length-print, length-print_signed}

-- The value of `fa` for one attribute, if it is selected, put into `g`.
abbrev pub put_if : Bool → Attr → Fattr → Fattr → Fattr
put_if b filetype fa g = record g { type_of = pick b fa.type_of g.type_of }
put_if b modtime fa g = record g { modtime_of = pick b fa.modtime_of g.modtime_of }
put_if b size fa g = record g { size_of = pick b fa.size_of g.size_of }
put_if b linktarget fa g = record g { linktarget_of = pick b fa.linktarget_of g.linktarget_of }
put_if b rdev fa g = record g { rdev_of = pick b fa.rdev_of g.rdev_of }
put_if b owner fa g = record g { uid = pick b fa.uid g.uid }
put_if b group fa g = record g { gid = pick b fa.gid g.gid }
put_if b mode fa g = record g { mode_of = pick b fa.mode_of g.mode_of }
put_if b fflags fa g = record g { flags_of = pick b fa.flags_of g.flags_of }
put_if b linkcount fa g = record g { linkcount_of = pick b fa.linkcount_of g.linkcount_of }
put_if b dev fa g = record g { dev_of = pick b fa.dev_of g.dev_of }
put_if b inode fa g = record g { inode_of = pick b fa.inode_of g.inode_of }

abbrev pub put : Attr → Fattr → Fattr → Fattr
put a fa g = put_if true a fa g

pub put_if-false : (a : Attr) (fa g : Fattr) → put_if false a fa g ≡ g
put_if-false filetype fa g = refl
put_if-false modtime fa g = refl
put_if-false size fa g = refl
put_if-false linktarget fa g = refl
put_if-false rdev fa g = refl
put_if-false owner fa g = refl
put_if-false group fa g = refl
put_if-false mode fa g = refl
put_if-false fflags fa g = refl
put_if-false linkcount fa g = refl
put_if-false dev fa g = refl
put_if-false inode fa g = refl

-- A number in radix `r` that fits is read whole.
pub whole-strtoll :
    (r n : ℕ) → 2 ≤ r → r ≤ 16 → n < 2 ^ 63 → whole (strtoll r (print r n)) ≡ some (pos n)
whole-strtoll r n lo hi h = rw (sym (append-nil (print r n)), strtoll-print r lo hi n [] h tt) refl

whole-strtoul : (r n : ℕ) → 2 ≤ r → r ≤ 16 → n < 2 ^ 64 → whole (strtoul r (print r n)) ≡ some n
whole-strtoul r n lo hi h = rw (sym (append-nil (print r n)), strtoul-print r lo hi n [] h tt) refl

pub whole-signed :
    (r : ℕ) (v : ℤ) → 2 ≤ r → r ≤ 16 → IsInt64 v → whole (strtoll r (print_signed r v)) ≡ some v
whole-signed r v lo hi h =
    rw (sym (append-nil (print_signed r v)), strtoll-print_signed r lo hi v [] h tt) refl

pub cast-pos : (w n : ℕ) → n < 2 ^ w → cast w (pos n) ≡ n
cast-pos w n h = mod-eq_of_lt h

-- An unsigned number of 64 bits is printed as a signed one.
signed-IsInt64 : (n : ℕ) → n < 2 ^ 64 → IsInt64 (signed_of 64 n)
signed-IsInt64 n h = elim (Bool-cases (ltb n (2 ^ 63))) [
  | inl lo ↦ rw lo (ltb→lt n (2 ^ 63) lo)
  | inr hi ↦ let k : 2 ^ 63 ≤ n = ground arith in rw hi (omega (arith, k, h))
]

cast-signed : (n : ℕ) → n < 2 ^ 64 → cast 64 (signed_of 64 n) ≡ n
cast-signed n h = elim (Bool-cases (ltb n (2 ^ 63))) [
  | inl lo ↦ rw lo (cast-pos 64 n h)
  | inr hi ↦ let k : 2 ^ 63 ≤ n = ground arith in rw hi (omega (arith, k, h))
]

-- One digit is the same in any of the radices.
digits_from_digit : (f n : ℕ) → n < 10 → digits_from (suc f) 10 n [] ≡ digits_from (suc f) 16 n []
unfolding digits_from
digits_from_digit f n h =
    let z10 : (n / 10 == 0) ≡ true = ground arith in
    let z16 : (n / 16 == 0) ≡ true = ground arith in
    let m10 : n % 10 ≡ n = omega arith in
    let m16 : n % 16 ≡ n = omega arith in rw (digits_from, z10, z16, m10, m16) refl

print_digit : (n : ℕ) → n < 10 → print 10 n ≡ print 16 n
unfolding print
print_digit n h = digits_from_digit 63 n h

module _ (user_of group_of : ℕ → Option Bytes) (uid_of gid_of : Bytes → Option ℕ) (fa : Fattr) where
  -- What fattr_encode() writes for an attribute.
  abbrev pub text : Mask → Attr → Bytes
  text m filetype = print_signed 10 (signed_of 32 fa.type_of)
  text m modtime = print_signed 10 fa.modtime_of
  text m size = print_signed 10 fa.size_of
  text m linktarget = name_or_empty fa.linktarget_of
  text m rdev = print_signed 10 (signed_of 64 fa.rdev_of)
  text m owner = name_or_empty (user_of fa.uid)
  text m group = name_or_empty (group_of fa.gid)
  text m mode = print 8 (mode_mask m fa.mode_of)
  text m fflags = print 16 fa.flags_of
  text m linkcount = print_signed 10 (signed_of 64 fa.linkcount_of)
  text m dev = print 16 fa.dev_of
  text m inode = print_signed 10 (signed_of 64 fa.inode_of)

  -- A name of less than 1000 bytes.
  abbrev IsName : Bytes → Type 0
  IsName s = length s < 1000

  -- The values that arrive as they are.
  abbrev pub IsSendable : Attr → Type 0
  IsSendable filetype = (1 ≤ fa.type_of) × (fa.type_of ≤ 5)
  IsSendable modtime = IsInt64 fa.modtime_of
  IsSendable size = IsInt64 fa.size_of
  IsSendable linktarget = (s : Bytes) × (fa.linktarget_of ≡ some s) × IsName s
  IsSendable rdev = fa.rdev_of < 10
  IsSendable owner = (s : Bytes) × (user_of fa.uid ≡ some s) × (uid_of s ≡ some fa.uid) × IsName s
  IsSendable group = (s : Bytes) × (group_of fa.gid ≡ some s) × (gid_of s ≡ some fa.gid) × IsName s
  IsSendable mode = (fa.mode_of < 2 ^ 12) × (mode_mask fa.mask fa.mode_of ≡ fa.mode_of)
  IsSendable fflags = fa.flags_of < 2 ^ 32
  IsSendable linkcount = fa.linkcount_of < 10
  IsSendable dev = fa.dev_of < 2 ^ 63
  IsSendable inode = fa.inode_of < 2 ^ 64

  -- It is written in less than 1000 bytes, and read back.
  abbrev Arrives : Attr → Fattr → Type 0
  Arrives a g =
      (length (text g.mask a) < 1000)
      × (scan_value uid_of gid_of g a (text g.mask a) ≡ some (put a fa g))

  arrives_signed :
      (v : ℤ)
      → IsInt64 v
      → (length (print_signed 10 v) < 1000) × (whole (strtoll 10 (print_signed 10 v)) ≡ some v)
  arrives_signed v h =
      let b = length-print_signed 10 v in
      (omega (arith, b), whole-signed 10 v (omega arith) (omega arith) h)

  arrives_digit :
      (n : ℕ)
      → n < 10
      → (length (print_signed 10 (signed_of 64 n)) < 1000)
        × (whole (strtoll 16 (print_signed 10 (signed_of 64 n))) ≡ some (pos n))
  unfolding print_signed
  arrives_digit n h =
      let b = length-print_signed 10 (signed_of 64 n) in
      let small : ltb n (2 ^ 63) ≡ true = ground arith in
      let hex = whole-strtoll 16 n (omega arith) (omega arith) (omega (arith, h)) in
      (omega (arith, b), rw (small, print_signed, print_digit n h) hex)

  pub text-Arrives :
      (a : Attr) (g : Fattr)
      → IsSendable a
      → g.mask owner ≡ fa.mask owner
      → g.mask group ≡ fa.mask group
      → Arrives a g
  unfolding scan_value
  text-Arrives filetype g (h, k) o p =
      let small : ltb fa.type_of (2 ^ 31) ≡ true = ground arith in
      let fits : fa.type_of < 2 ^ 63 = omega (arith, k) in
      let (b, e) = arrives_signed (pos fa.type_of) fits in
      let back : cast 32 (pos fa.type_of) ≡ fa.type_of =
        cast-pos 32 fa.type_of (omega (arith, k)) in
      rw small (b, rw (scan_value, e, back) refl)
  text-Arrives modtime g h o p =
      let (b, e) = arrives_signed fa.modtime_of h in (b, rw (scan_value, e) refl)
  text-Arrives size g h o p =
      let (b, e) = arrives_signed fa.size_of h in (b, rw (scan_value, e) refl)
  text-Arrives linktarget g (s, e, b) o p = (rw e b, rw (scan_value, e) refl)
  text-Arrives rdev g h o p =
      let (b, e) = arrives_digit fa.rdev_of h in
      (b, rw (scan_value, e, cast-pos 64 fa.rdev_of (omega (arith, h))) refl)
  text-Arrives owner g (s, e, k, b) o p = (rw e b, rw (scan_value, e, k) refl)
  text-Arrives group g (s, e, k, b) o p = (rw e b, rw (scan_value, e, k) refl)
  text-Arrives mode g (h, k) o p =
      let same : mode_mask g.mask fa.mode_of ≡ fa.mode_of = rw (o, p) k in
      let b = length-print 8 fa.mode_of in
      let e = whole-strtoll 8 fa.mode_of (omega arith) (omega arith) (omega (arith, h)) in
      let back = cast-pos 32 fa.mode_of (omega (arith, h)) in
      rw same (omega (arith, b), rw (scan_value, e, back, same) refl)
  text-Arrives fflags g h o p =
      let b = length-print 16 fa.flags_of in
      let e = whole-strtoul 16 fa.flags_of (omega arith) (omega arith) (omega (arith, h)) in
      (omega (arith, b), rw (scan_value, e, mod-eq_of_lt h) refl)
  text-Arrives linkcount g h o p =
      let (b, e) = arrives_digit fa.linkcount_of h in
      (b, rw (scan_value, e, cast-pos 64 fa.linkcount_of (omega (arith, h))) refl)
  text-Arrives dev g h o p =
      let b = length-print 16 fa.dev_of in
      let e = whole-strtoll 16 fa.dev_of (omega arith) (omega arith) h in
      (omega (arith, b), rw (scan_value, e, cast-pos 64 fa.dev_of (omega (arith, h))) refl)
  text-Arrives inode g h o p =
      let (b, e) = arrives_signed (signed_of 64 fa.inode_of) (signed-IsInt64 fa.inode_of h) in
      (b, rw (scan_value, e, cast-signed fa.inode_of h) refl)
