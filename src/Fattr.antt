-- ===== src/Fattr.antt =====
-- fattr.c: file attributes, with the support table of fattr_posix.h (no file flags).
pub mod Text
pub mod Selected
pub mod Equal
use csup.Prelude.{
  ℕ, ◌-◌, Bool, true, false, ◌&&◌, ◌||◌, not, ltb, ◌==◌, if◌then◌else◌, Bytes, [], ◌∷◌, Option,
  none, some,
}
use Prim.Native.Nat.{bit_and}
use csup.Prelude.Run.{Run, done, abort, ◌>>=◌}
use csup.Prelude.Int.{ℤ, pos, negsuc}

-- The bits FA_FILETYPE to FA_INODE.
pub data Attr : Type 0 where
  filetype : Attr
  modtime : Attr
  size : Attr
  linktarget : Attr
  rdev : Attr
  owner : Attr
  group : Attr
  mode : Attr
  fflags : Attr
  linkcount : Attr
  dev : Attr
  inode : Attr

-- A set of these bits. `&`, `|` and `~` work bit by bit.
abbrev pub Mask : Type 0
Mask = Attr → Bool

abbrev pub no_attrs : Mask
no_attrs a = false

-- FA_MASK
abbrev pub all_attrs : Mask
all_attrs a = true

abbrev pub mask_and : Mask → Mask → Mask
mask_and m n a = m a && n a

abbrev pub mask_or : Mask → Mask → Mask
mask_or m n a = m a || n a

abbrev pub mask_not : Mask → Mask
mask_not m a = not (m a)

-- FT_UNKNOWN to FT_SYMLINK
abbrev pub ft_unknown : ℕ
ft_unknown = 0

abbrev pub ft_file : ℕ
ft_file = 1

abbrev pub ft_directory : ℕ
ft_directory = 2

abbrev pub ft_cdev : ℕ
ft_cdev = 3

abbrev pub ft_bdev : ℕ
ft_bdev = 4

abbrev pub ft_symlink : ℕ
ft_symlink = 5

abbrev supported_file : Mask
supported_file linktarget = false
supported_file rdev = false
supported_file fflags = false
supported_file _ = true

abbrev supported_directory : Mask
supported_directory filetype = true
supported_directory owner = true
supported_directory group = true
supported_directory mode = true
supported_directory _ = false

abbrev supported_device : Mask
supported_device modtime = false
supported_device size = false
supported_device linktarget = false
supported_device fflags = false
supported_device _ = true

abbrev supported_symlink : Mask
supported_symlink filetype = true
supported_symlink linktarget = true
supported_symlink _ = false

-- A type beyond the table is never looked up.
unfoldable pub fattr_supported : ℕ → Mask
fattr_supported type =
    if type == ft_file
    then supported_file
    else if type == ft_directory
    then supported_directory
    else if type == ft_cdev || type == ft_bdev
    then supported_device
    else if type == ft_symlink
    then supported_symlink
    else no_attrs

-- `struct fattr`. `type` is an int as a pattern of 32 bits; modtime and size are signed.
pub record Fattr : Type 0 where
  pub mask : Mask
  pub type_of : ℕ
  pub modtime_of : ℤ
  pub size_of : ℤ
  pub linktarget_of : Option Bytes
  pub rdev_of : ℕ
  pub uid : ℕ
  pub gid : ℕ
  pub mode_of : ℕ
  pub flags_of : ℕ
  pub linkcount_of : ℕ
  pub dev_of : ℕ
  pub inode_of : ℕ

-- What memset() leaves.
abbrev pub cleared : Fattr
cleared = record {
  mask = no_attrs;
  type_of = 0;
  modtime_of = pos 0;
  size_of = pos 0;
  linktarget_of = none;
  rdev_of = 0;
  uid = 0;
  gid = 0;
  mode_of = 0;
  flags_of = 0;
  linkcount_of = 0;
  dev_of = 0;
  inode_of = 0;
}

-- One attribute alone.
abbrev pub only : Attr → Mask
only filetype filetype = true
only modtime modtime = true
only size size = true
only linktarget linktarget = true
only rdev rdev = true
only owner owner = true
only group group = true
only mode mode = true
only fflags fflags = true
only linkcount linkcount = true
only dev dev = true
only inode inode = true
only _ _ = false

-- `none` stands for a modification time of -1.
unfoldable pub fattr_new : ℕ → Option ℤ → Fattr
unfolding fattr_supported
fattr_new type time =
    let typed : Fattr = record cleared {
      type_of = type;
      mask = if type == ft_unknown then no_attrs else only filetype;
    } in
    let timed : Fattr = elim time [
      | none ↦ typed
      | some t ↦ record typed { modtime_of = t; mask = mask_or typed.mask (only modtime) }
    ] in
    if fattr_supported type linkcount
    then record timed { mask = mask_or timed.mask (only linkcount); linkcount_of = 1 }
    else timed

-- `if (mask & a) to = from;`
abbrev pub pick {ℓ} : {A : Type ℓ} → Bool → A → A → A
pick b from to = if b then from else to

-- Override selected attributes of `fa` with values from `from`.
unfoldable pub fattr_override : Fattr → Fattr → Mask → Fattr
fattr_override fa from which =
    let m : Mask = mask_and which from.mask in
    record {
      mask = mask_or fa.mask m;
      type_of = pick (m filetype) from.type_of fa.type_of;
      modtime_of = pick (m modtime) from.modtime_of fa.modtime_of;
      size_of = pick (m size) from.size_of fa.size_of;
      linktarget_of = pick (m linktarget) from.linktarget_of fa.linktarget_of;
      rdev_of = pick (m rdev) from.rdev_of fa.rdev_of;
      uid = pick (m owner) from.uid fa.uid;
      gid = pick (m group) from.gid fa.gid;
      mode_of = pick (m mode) from.mode_of fa.mode_of;
      flags_of = pick (m fflags) from.flags_of fa.flags_of;
      linkcount_of = pick (m linkcount) from.linkcount_of fa.linkcount_of;
      dev_of = pick (m dev) from.dev_of fa.dev_of;
      inode_of = pick (m inode) from.inode_of fa.inode_of;
    }

-- Merge attributes from `from` that aren't present in `fa`.
unfoldable pub fattr_merge : Fattr → Fattr → Fattr
unfolding fattr_override
fattr_merge fa from = fattr_override fa from (mask_and from.mask (mask_not fa.mask))

unfoldable pub fattr_dup : Fattr → Fattr
unfolding fattr_new fattr_override
fattr_dup from = fattr_override (fattr_new ft_unknown none) from all_attrs

-- `mode & ~newumask`
abbrev pub and_not : ℕ → ℕ → ℕ
and_not m n = m - bit_and m n

unfoldable pub fattr_umask : Fattr → ℕ → Fattr
fattr_umask fa newumask =
    if fa.mask mode then record fa { mode_of = and_not fa.mode_of newumask } else fa

unfoldable pub fattr_maskout : Fattr → Mask → Fattr
fattr_maskout fa which = record fa {
  linktarget_of = pick (which linktarget && fa.mask linktarget) none fa.linktarget_of;
  mask = mask_and fa.mask (mask_not which);
}

-- The entry of `defaults` for a type, as fattr_init() makes it.
unfoldable pub default_fattr : ℕ → Fattr
unfolding fattr_new
default_fattr type =
    let fa : Fattr = fattr_new type none in
    record fa {
      mode_of = if type == ft_directory then 0x1ff else 0x1b6;
      mask = mask_or fa.mask (only mode);
    }

unfoldable pub fattr_mergedefault : Fattr → Fattr
unfolding fattr_merge default_fattr
fattr_mergedefault fa = fattr_merge fa (default_fattr fa.type_of)

-- `rcsattr->mode & 0111` tells an executable file; 0777 is 0x1ff, 0666 is 0x1b6, 0111 is 0x49.
unfoldable pub fattr_forcheckout : Fattr → ℕ → Fattr
unfolding fattr_new
fattr_forcheckout rcsattr umask =
    let fa : Fattr = fattr_new ft_file none in
    if rcsattr.mask mode
    then record fa {
      mode_of = and_not (if ltb 0 (bit_and rcsattr.mode_of 0x49) then 0x1ff else 0x1b6) umask;
      mask = mask_or fa.mask (only mode);
    }
    else fa

abbrev pub same_ℤ : ℤ → ℤ → Bool
same_ℤ (pos m) (pos n) = m == n
same_ℤ (negsuc m) (negsuc n) = m == n
same_ℤ _ _ = false

abbrev pub same_bytes : Bytes → Bytes → Bool
same_bytes [] [] = true
same_bytes [] (d ∷ t) = false
same_bytes (c ∷ s) [] = false
same_bytes (c ∷ s) (d ∷ t) = c == d && same_bytes s t

-- strcmp() of a null pointer does not return.
abbrev pub same_target : Option Bytes → Option Bytes → Run Bool
same_target (some s) (some t) = done (same_bytes s t)
same_target _ _ = abort

-- `if (mask & a) if (x != y) return (0);` and what follows it.
abbrev pub differs : Bool → Bool → Run Bool → Run Bool
differs selected same rest = if selected && not same then done false else rest

-- What fattr_equal() compares behind the link target.
abbrev pub equal_behind_target : Fattr → Fattr → Run Bool
equal_behind_target fa1 fa2 =
    let m : Mask = mask_and fa1.mask fa2.mask in
    differs (m rdev) (fa1.rdev_of == fa2.rdev_of) (
      differs (m owner) (fa1.uid == fa2.uid) (
        differs (m group) (fa1.gid == fa2.gid) (
          differs (m mode) (fa1.mode_of == fa2.mode_of) (
            differs (m fflags) (fa1.flags_of == fa2.flags_of) (
              differs (m linkcount) (fa1.linkcount_of == fa2.linkcount_of) (
                differs (m dev) (fa1.dev_of == fa2.dev_of)
                  (differs (m inode) (fa1.inode_of == fa2.inode_of) (done true))))))))

-- `if (mask & FA_LINKTARGET) if (strcmp(...) != 0) return (0);` and what follows it.
abbrev pub target_differs : Bool → Option Bytes → Option Bytes → Run Bool → Run Bool
target_differs false t1 t2 rest = rest
target_differs true t1 t2 rest = same_target t1 t2 >>= λ same. if same then rest else done false

unfoldable pub fattr_equal : Fattr → Fattr → Run Bool
fattr_equal fa1 fa2 =
    let m : Mask = mask_and fa1.mask fa2.mask in
    if fa1.type_of == ft_unknown || fa2.type_of == ft_unknown
    then done false
    else differs (m filetype) (fa1.type_of == fa2.type_of) (
        differs (m modtime) (same_ℤ fa1.modtime_of fa2.modtime_of) (
          differs (m size) (same_ℤ fa1.size_of fa2.size_of) (
            target_differs (m linktarget) fa1.linktarget_of fa2.linktarget_of
              (equal_behind_target fa1 fa2))))
