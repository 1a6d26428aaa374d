-- ===== src/Fattr/Text.antt =====
-- fattr.c: file attributes as text. The lookups of names and identifiers, idcache.c, are arguments.
pub mod Fields
pub mod Sent
pub mod MaskBits
pub mod Steps
pub mod RoundTrip
use csup.Prelude.{
  ℕ, ◌+◌, ◌-◌, ◌/◌, ◌%◌, ◌^◌, Bool, true, false, ◌&&◌, ltb, ◌==◌, if◌then◌else◌, Bytes, [], ◌∷◌,
  ◌++◌, length, take, drop, Option, none, some,
}
use csup.Prelude.Run.{Run, done, abort, out_of_fuel, ◌>>=◌}
use csup.Prelude.Int.{ℤ, pos, negsuc}
use csup.Numbers.{print, print_signed, strtoll, strtoul, cast}
use csup.Fattr.{
  Attr, filetype, modtime, size, linktarget, rdev, owner, group, mode, fflags, linkcount, dev,
  inode, Mask, mask_and, mask_or, mask_not, only, Fattr, fattr_new, fattr_supported, ft_unknown,
  ft_symlink,
}

-- The numbers FA_FILETYPE to FA_INODE.
abbrev pub bit : Attr → ℕ
bit filetype = 0x0001
bit modtime = 0x0002
bit size = 0x0004
bit linktarget = 0x0008
bit rdev = 0x0010
bit owner = 0x0020
bit group = 0x0040
bit mode = 0x0080
bit fflags = 0x0100
bit linkcount = 0x0200
bit dev = 0x0400
bit inode = 0x0800

abbrev pub bit_if : Mask → Attr → ℕ
bit_if m a = if m a then bit a else 0

unfoldable pub number_of_mask : Mask → ℕ
number_of_mask m =
    bit_if m filetype
    + (bit_if m modtime
        + (bit_if m size
            + (bit_if m linktarget
                + (bit_if m rdev
                    + (bit_if m owner
                        + (bit_if m group
                            + (bit_if m mode
                                + (bit_if m fflags
                                    + (bit_if m linkcount + (bit_if m dev + bit_if m inode))))))))))

abbrev pub mask_of_number : ℕ → Mask
mask_of_number n a = n / bit a % 2 == 1

-- What follows a call, unless it has returned a null pointer.
abbrev pub unless_null {ℓ κ} :
    {A : Type ℓ} {B : Type κ} → Run (Option A) → (A → Run (Option B)) → Run (Option B)
unless_null (done none) f = done none
unless_null (done (some a)) f = f a
unless_null abort f = abort
unless_null out_of_fuel f = out_of_fuel

-- The text of one attribute, and what follows it; the length counts the bytes behind the '#'. With a
-- length that goes beyond the end of the string, the code changes and reads a byte that is none of
-- the string's; the model has no such bytes, and stops.
unfoldable pub scan_field : Bytes → Run (Option (Bytes × Bytes))
scan_field attr = elim (strtoul 10 attr) [
  | none ↦ done none
  | some (len, []) ↦ done none
  | some (len, c ∷ body) ↦
      if c == b'#'
      then if ltb (length body) len then abort else done (some (take len body, drop len body))
      else done none
]

-- The conversion must set no error and end at the end of the text.
abbrev pub whole {ℓ} : {A : Type ℓ} → Option (A × Bytes) → Option A
whole none = none
whole (some (v, [])) = some v
whole (some (v, c ∷ rest)) = none

abbrev pub mode_mask : Mask → ℕ → ℕ
mode_mask m n = if m owner && m group then n % 4096 else n % 512

-- A file type that is not known, and the attributes that the type does not support.
unfoldable pub supported_only : Fattr → Fattr
supported_only fa =
    let type : ℕ = if ltb ft_symlink fa.type_of then ft_unknown else fa.type_of in
    record fa { type_of = type; mask = mask_and fa.mask (fattr_supported type) }

-- The mask is an int: one that is negative is not above 0.
unfoldable pub mask_refused : ℕ → Bool
mask_refused n = ltb n (2 ^ 31) && ltb 0xfff n

module _ (uid_of gid_of : Bytes → Option ℕ) where
  -- The switch of fattr_scanattr(), but for FA_MASK.
  unfoldable pub scan_value : Fattr → Attr → Bytes → Option Fattr
  scan_value fa filetype s = elim (whole (strtoll 10 s)) [
    | none ↦ none
    | some v ↦ some (record fa { type_of = cast 32 v })
  ]
  scan_value fa modtime s = elim (whole (strtoll 10 s)) [
    | none ↦ none
    | some v ↦ some (record fa { modtime_of = v })
  ]
  scan_value fa size s = elim (whole (strtoll 10 s)) [
    | none ↦ none
    | some v ↦ some (record fa { size_of = v })
  ]
  scan_value fa linktarget s = some (record fa { linktarget_of = some s })
  scan_value fa rdev s = elim (whole (strtoll 16 s)) [
    | none ↦ none
    | some v ↦ some (record fa { rdev_of = cast 64 v })
  ]
  scan_value fa owner s = elim (uid_of s) [
    | none ↦ some (record fa { mask = mask_and fa.mask (mask_not (only owner)) })
    | some v ↦ some (record fa { uid = v })
  ]
  scan_value fa group s = elim (gid_of s) [
    | none ↦ some (record fa { mask = mask_and fa.mask (mask_not (only group)) })
    | some v ↦ some (record fa { gid = v })
  ]
  scan_value fa mode s = elim (whole (strtoll 8 s)) [
    | none ↦ none
    | some v ↦ some (record fa { mode_of = mode_mask fa.mask (cast 32 v) })
  ]
  scan_value fa fflags s = elim (whole (strtoul 16 s)) [
    | none ↦ none
    | some v ↦ some (record fa { flags_of = v % 2 ^ 32 })
  ]
  scan_value fa linkcount s = elim (whole (strtoll 16 s)) [
    | none ↦ none
    | some v ↦ some (record fa { linkcount_of = cast 64 v })
  ]
  scan_value fa dev s = elim (whole (strtoll 16 s)) [
    | none ↦ none
    | some v ↦ some (record fa { dev_of = cast 64 v })
  ]
  scan_value fa inode s = elim (whole (strtoll 10 s)) [
    | none ↦ none
    | some v ↦ some (record fa { inode_of = cast 64 v })
  ]

  -- fattr_scanattr(): `none` is a null pointer.
  unfoldable pub fattr_scanattr : Attr → Option (Fattr × Bytes) → Run (Option (Fattr × Bytes))
  fattr_scanattr a none = done none
  fattr_scanattr a (some (fa, attr)) =
      unless_null (scan_field attr)
        λ (s, next). unless_null (done (scan_value fa a s)) λ fa'. done (some (fa', next))

  -- `if (fa->mask & a) next = fattr_scanattr(fa, a, next);`
  unfoldable pub scan_if : Attr → Option (Fattr × Bytes) → Run (Option (Fattr × Bytes))
  scan_if a none = done none
  scan_if a (some (fa, attr)) =
      if fa.mask a then fattr_scanattr a (some (fa, attr)) else done (some (fa, attr))

  -- If the link count is missing but supported, fake it as 1.
  unfoldable pub scan_linkcount : Option (Fattr × Bytes) → Run (Option (Fattr × Bytes))
  scan_linkcount none = done none
  scan_linkcount (some (fa, attr)) =
      if fa.mask linkcount
      then fattr_scanattr linkcount (some (fa, attr))
      else if fattr_supported fa.type_of linkcount
      then done
          (some (record fa { mask = mask_or fa.mask (only linkcount); linkcount_of = 1 }, attr))
      else done (some (fa, attr))

  -- The attributes behind the file type.
  unfoldable pub scan_rest : Option (Fattr × Bytes) → Run (Option (Fattr × Bytes))
  scan_rest st = scan_if modtime st >>= λ s1. scan_if size s1 >>= λ s2.
      scan_if linktarget s2 >>= λ s3. scan_if rdev s3 >>= λ s4. scan_if owner s4 >>= λ s5.
      scan_if group s5 >>= λ s6. scan_if mode s6 >>= λ s7. scan_if fflags s7 >>= λ s8.
      scan_linkcount s8 >>= λ s9. scan_if dev s9 >>= λ s10. scan_if inode s10

  unfoldable pub fattr_decode : Bytes → Run (Option Fattr)
  fattr_decode attr = unless_null (scan_field attr) λ (s, next).
      unless_null (done (whole (strtoll 16 s))) λ v.
        if mask_refused (cast 32 v)
        then done none
        else let fa : Fattr = record (fattr_new ft_unknown none) {
          mask = mask_of_number (cast 32 v);
        } in
          let typed : Run (Option (Fattr × Bytes)) =
            if fa.mask filetype
            then fattr_scanattr filetype (some (fa, next))
            else done (some (record fa { mask = mask_or fa.mask (only filetype) }, next)) in
          unless_null typed λ (fa', next').
            unless_null (scan_rest (some (supported_only fa', next')))
              λ (fa'', next''). done (some fa'')

-- A number of 32 or 64 bits as the signed one that it stands for.
abbrev pub signed_of : ℕ → ℕ → ℤ
signed_of w n = if ltb n (2 ^ (w - 1)) then pos n else negsuc (2 ^ w - n - 1)

-- The length is printed into four bytes, of which the last is the NUL.
unfoldable pub piece : Bytes → Bytes
piece s = take 3 (print 10 (length s)) ++ (b'#' ∷ s)

abbrev pub piece_if : Bool → Bytes → Bytes
piece_if selected s = if selected then piece s else []

-- A name that is looked up; the mask has no bit for one that is not there.
abbrev pub name_or_empty : Option Bytes → Bytes
name_or_empty none = []
name_or_empty (some s) = s

abbrev pub is_none {ℓ} : {A : Type ℓ} → Option A → Bool
is_none none = true
is_none (some a) = false

module _ (user_of group_of : ℕ → Option Bytes) where
  -- `mask`, after the attributes that are not encoded have been taken out.
  unfoldable pub encoded_mask : Fattr → Option (ℕ → Mask) → Mask → Mask
  encoded_mask fa support ignore =
      let chosen : Mask =
        mask_and
          (elim support [ none ↦ fa.mask | some table ↦ mask_and fa.mask (table fa.type_of) ])
          (mask_not ignore) in
      let no_owner : Mask =
        if fa.mask owner && is_none (user_of fa.uid)
        then mask_and chosen (mask_not (only owner))
        else chosen in
      let no_group : Mask =
        if fa.mask group && is_none (group_of fa.gid)
        then mask_and no_owner (mask_not (only group))
        else no_owner in
      if fa.mask linkcount && fa.linkcount_of == 1
      then mask_and no_group (mask_not (only linkcount))
      else no_group

  unfoldable pub encode_with : Fattr → Mask → Bytes → Bytes
  encode_with fa m target =
      piece (print 16 (number_of_mask m))
      ++ (piece_if (m filetype) (print_signed 10 (signed_of 32 fa.type_of))
          ++ (piece_if (m modtime) (print_signed 10 fa.modtime_of)
              ++ (piece_if (m size) (print_signed 10 fa.size_of)
                  ++ (piece_if (m linktarget) target
                      ++ (piece_if (m rdev) (print_signed 10 (signed_of 64 fa.rdev_of))
                          ++ (piece_if (m owner) (name_or_empty (user_of fa.uid))
                              ++ (piece_if (m group) (name_or_empty (group_of fa.gid))
                                  ++ (piece_if (m mode) (print 8 (mode_mask m fa.mode_of))
                                      ++ (piece_if (m fflags) (print 16 fa.flags_of)
                                          ++ (piece_if (m linkcount)
                                                (print_signed 10 (signed_of 64 fa.linkcount_of))
                                              ++ (piece_if (m dev) (print 16 fa.dev_of)
                                                  ++ piece_if (m inode) (
                                                      print_signed 10
                                                        (signed_of 64 fa.inode_of)))))))))))))

  -- strlen() of a null link target does not return.
  unfoldable pub fattr_encode : Fattr → Option (ℕ → Mask) → Mask → Run Bytes
  fattr_encode fa support ignore =
      let m : Mask = encoded_mask fa support ignore in
      elim fa.linktarget_of [
        | none ↦ if m linktarget then abort else done (encode_with fa m [])
        | some target ↦ done (encode_with fa m target)
      ]
