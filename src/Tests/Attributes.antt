-- ===== src/Tests/Attributes.antt =====
-- Runs of the functions of fattr.c.
use csup.Prelude.{
  ℕ, ◌≡◌, ◌≢◌, ◌↔◌, refl, arith, Bool, true, false, ◌||◌, ◌&&◌, not, ◌==◌, if◌then◌else◌, Bytes, [],
  ◌∷◌, Option, some, none,
}
use csup.Prelude.Run.{done}
use csup.Prelude.Int.{negsuc}
use csup.Numbers.{print, print_signed}
use csup.Fattr.{
  Attr, filetype, modtime, size, linktarget, rdev, owner, group, mode, fflags, linkcount, dev,
  inode, Mask, no_attrs, Fattr, cleared, fattr_merge, fattr_dup, fattr_equal, fattr_supported,
  same_bytes, ft_file, ft_symlink, ft_unknown,
}
use csup.Fattr.Selected.{value, fattr_merge-dup}
use csup.Fattr.Equal.{Agrees, fattr_equal-Agrees}
use csup.Fattr.Text.{fattr_encode, fattr_decode, encoded_mask, encode_with, piece, number_of_mask}
use csup.Fattr.Text.Sent.{IsSendable}
use csup.Fattr.Text.Steps.{IsComplete}
use csup.Fattr.Text.RoundTrip.{fattr_decode-fattr_encode}

abbrev file_mask : Mask
file_mask filetype = true
file_mask modtime = true
file_mask owner = true
file_mask mode = true
file_mask linkcount = true
file_mask _ = false

-- A file of the user 7, who is `ab`, with mode 0644.
abbrev file : Fattr
file = record cleared {
  mask = file_mask;
  type_of = ft_file;
  modtime_of = negsuc 4;
  uid = 7;
  mode_of = 0x1a4;
  linkcount_of = 1;
}

abbrev link_mask : Mask
link_mask filetype = true
link_mask linktarget = true
link_mask _ = false

abbrev link : Fattr
link = record cleared {
  mask = link_mask;
  type_of = ft_symlink;
  linktarget_of = some (b't' ∷ b'o' ∷ []);
}

abbrev user_name : ℕ → Option Bytes
user_name n = if n == 7 then some (b'a' ∷ b'b' ∷ []) else none

abbrev user_id : Bytes → Option ℕ
user_id s = if same_bytes s (b'a' ∷ b'b' ∷ []) then some 7 else none

abbrev file_text : Bytes
file_text =
    b'2' ∷ b'#' ∷ b'a' ∷ b'3' ∷ b'1' ∷ b'#' ∷ b'1' ∷ b'2' ∷ b'#' ∷ b'-' ∷ b'5' ∷ b'2' ∷ b'#' ∷ b'a'
    ∷ b'b' ∷ b'3' ∷ b'#' ∷ b'6' ∷ b'4' ∷ b'4' ∷ []

encode_file : fattr_encode user_name user_name file none no_attrs ≡ done file_text
unfolding fattr_encode encoded_mask encode_with piece print number_of_mask print_signed
encode_file = refl

file-IsComplete : IsComplete user_name user_name user_id user_id file
unfolding fattr_supported
file-IsComplete = record {
  typed = refl;
  supported = supported_ok;
  counted = λ h. refl;
  sendable = sendable_ok;
}
  where
    supported_ok : (a : Attr) → file.mask a ≡ true → fattr_supported file.type_of a ≡ true
    supported_ok filetype h = refl
    supported_ok modtime h = refl
    supported_ok owner h = refl
    supported_ok mode h = refl
    supported_ok linkcount h = refl
    supported_ok size h = absurd (cc)
    supported_ok linktarget h = absurd (cc)
    supported_ok rdev h = absurd (cc)
    supported_ok group h = absurd (cc)
    supported_ok fflags h = absurd (cc)
    supported_ok dev h = absurd (cc)
    supported_ok inode h = absurd (cc)

    sendable_ok :
        (a : Attr) → file.mask a ≡ true → IsSendable user_name user_name user_id user_id file a
    sendable_ok filetype h = (omega arith, omega arith)
    sendable_ok modtime h = omega arith
    sendable_ok owner h = ((b'a' ∷ b'b' ∷ []), refl, refl, omega arith)
    sendable_ok mode h = (omega arith, refl)
    sendable_ok linkcount h = omega arith
    sendable_ok size h = absurd (cc)
    sendable_ok linktarget h = absurd (cc)
    sendable_ok rdev h = absurd (cc)
    sendable_ok group h = absurd (cc)
    sendable_ok fflags h = absurd (cc)
    sendable_ok dev h = absurd (cc)
    sendable_ok inode h = absurd (cc)

fattr_decode-fattr_encode_example :
    (s : Bytes) × (g : Fattr) × (fattr_encode user_name user_name file none no_attrs ≡ done s)
    × (fattr_decode user_id user_id s ≡ done (some g))
    × ((a : Attr) → (g.mask a ≡ file.mask a) × (file.mask a ≡ true → value g a ≡ value file a))
fattr_decode-fattr_encode_example =
    fattr_decode-fattr_encode user_name user_name user_id user_id file file-IsComplete

fattr_merge-dup_example :
    ((fattr_merge file link).mask linktarget ≡ (file.mask linktarget || link.mask linktarget))
    × (value (fattr_merge file link) linktarget ≡ (
        if link.mask linktarget && not (file.mask linktarget)
        then value link linktarget
        else value file linktarget))
    × ((fattr_dup link).mask linktarget ≡ link.mask linktarget)
    × (link.mask linktarget ≡ true → value (fattr_dup link) linktarget ≡ value link linktarget)
fattr_merge-dup_example = fattr_merge-dup file link linktarget

fattr_equal-Agrees_example :
    (b : Bool) × (fattr_equal link link ≡ done b)
    × ((b ≡ true) ↔ (
        (link.type_of ≢ ft_unknown)
        × (link.type_of ≢ ft_unknown)
        × ((a : Attr) → Agrees link link a)))
fattr_equal-Agrees_example =
    fattr_equal-Agrees link link (λ h. ((b't' ∷ b'o' ∷ []), refl)) (λ h. ((b't' ∷ b'o' ∷ []), refl))
