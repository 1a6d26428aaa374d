-- ===== src/Fattr/Text/RoundTrip.antt =====
-- fattr_decode() of what fattr_encode() writes.
use csup.Prelude.{
  ℕ, Bytes, ◌≡◌, refl, sym, ◌∙◌, ap, arith, fun_ext, true, false, ltb, [], ◌++◌, some, none, Option,
  Bool-cases, Option-cases, inl, inr, append-nil,
}
use csup.Prelude.Run.{done}
use csup.Numbers.{print}
use csup.Fattr.{
  Attr, filetype, modtime, size, linktarget, rdev, owner, group, mode, fflags, linkcount, dev,
  inode, Mask, Fattr, mask_and, no_attrs, fattr_supported, ft_unknown, ft_symlink, fattr_new,
}
use csup.Fattr.Selected.{value}
use csup.Fattr.Text.{
  piece, scan_if, scan_rest, supported_only, mask_refused, fattr_decode, fattr_encode, encode_with,
  number_of_mask, mask_of_number, name_or_empty,
}
use csup.Fattr.Text.Fields.{scan_field-piece, length-print}
use csup.Fattr.Text.Sent.{put, put_if, text, whole-strtoll, cast-pos}
use csup.Fattr.Text.MaskBits.{number_of_mask_bound, mask_of_number_of_mask}
use csup.Fattr.Text.Steps.{
  sent_mask, written, scan-piece, step, encoded_mask_lem, count_step, IsComplete,
}

module _ (user_of group_of : ℕ → Option Bytes) (uid_of gid_of : Bytes → Option ℕ) (fa : Fattr) where
  module _ (ok : (IsComplete user_of group_of uid_of gid_of fa)) where
    abbrev tail : Bytes
    tail =
        written user_of group_of uid_of gid_of fa (sent_mask user_of group_of uid_of gid_of fa)
          modtime
        ++ (written user_of group_of uid_of gid_of fa (sent_mask user_of group_of uid_of gid_of fa)
              size
            ++ (written user_of group_of uid_of gid_of fa
                  (sent_mask user_of group_of uid_of gid_of fa) linktarget
                ++ (written user_of group_of uid_of gid_of fa
                      (sent_mask user_of group_of uid_of gid_of fa) rdev
                    ++ (written user_of group_of uid_of gid_of fa
                          (sent_mask user_of group_of uid_of gid_of fa) owner
                        ++ (written user_of group_of uid_of gid_of fa
                              (sent_mask user_of group_of uid_of gid_of fa) group
                            ++ (written user_of group_of uid_of gid_of fa
                                  (sent_mask user_of group_of uid_of gid_of fa) mode
                                ++ (written user_of group_of uid_of gid_of fa
                                      (sent_mask user_of group_of uid_of gid_of fa) fflags
                                    ++ (written user_of group_of uid_of gid_of fa
                                          (sent_mask user_of group_of uid_of gid_of fa) linkcount
                                        ++ (written user_of group_of uid_of gid_of fa
                                              (sent_mask user_of group_of uid_of gid_of fa) dev
                                            ++ (written user_of group_of uid_of gid_of fa
                                                  (sent_mask user_of group_of uid_of gid_of fa)
                                                  inode
                                                ++ []))))))))))

    abbrev put_all : Fattr → Fattr
    put_all g =
        let m : Mask = (sent_mask user_of group_of uid_of gid_of fa) in
        let g4 : Fattr = put_if (m rdev) rdev fa (
          put_if (m linktarget) linktarget fa
            (put_if (m size) size fa (put_if (m modtime) modtime fa g))) in
        let g8 : Fattr =
          put_if (m fflags) fflags fa
            (put_if (m mode) mode fa (put_if (m group) group fa (put_if (m owner) owner fa g4))) in
        let g9 : Fattr = record (put_if (fa.mask linkcount) linkcount fa g8) { mask = fa.mask } in
        put_if (m inode) inode fa (put_if (m dev) dev fa g9)

    before :
        (a : Attr) (g : Fattr) (rest : Bytes)
        → g.mask ≡ (sent_mask user_of group_of uid_of gid_of fa)
        → ((sent_mask user_of group_of uid_of gid_of fa) a ≡ true → fa.mask a ≡ true)
        → scan_if uid_of gid_of a (
            some (
              g,
              written user_of group_of uid_of gid_of fa
                    (sent_mask user_of group_of uid_of gid_of fa)
                    a
                  ++ rest,
            ))
          ≡ done (some (put_if ((sent_mask user_of group_of uid_of gid_of fa) a) a fa g, rest))
    before =
        step user_of group_of uid_of gid_of fa ok (sent_mask user_of group_of uid_of gid_of fa) refl
          refl

    scan_rest_lem :
        (g : Fattr)
        → g.mask ≡ (sent_mask user_of group_of uid_of gid_of fa)
        → g.type_of ≡ fa.type_of
        → scan_rest uid_of gid_of (some (g, tail)) ≡ done (some (put_all g, []))
    unfolding scan_rest
    scan_rest_lem g e t =
        let m : Mask = (sent_mask user_of group_of uid_of gid_of fa) in
        let g1 = put_if (m modtime) modtime fa g in
        let g2 = put_if (m size) size fa g1 in
        let g3 = put_if (m linktarget) linktarget fa g2 in
        let g4 = put_if (m rdev) rdev fa g3 in
        let g5 = put_if (m owner) owner fa g4 in
        let g6 = put_if (m group) group fa g5 in
        let g7 = put_if (m mode) mode fa g6 in
        let g8 = put_if (m fflags) fflags fa g7 in
        let g9 : Fattr = record (put_if (fa.mask linkcount) linkcount fa g8) { mask = fa.mask } in
        let g10 = put_if (m dev) dev fa g9 in
        rw
          (
            scan_rest,
            before modtime g _ e (λ h. h),
            before size g1 _ e (λ h. h),
            before linktarget g2 _ e (λ h. h),
            before rdev g3 _ e (λ h. h),
            before owner g4 _ e (λ h. h),
            before group g5 _ e (λ h. h),
            before mode g6 _ e (λ h. h),
            before fflags g7 _ e (λ h. h),
            count_step user_of group_of uid_of gid_of fa ok g8 _ e t,
            step user_of group_of uid_of gid_of fa ok fa.mask refl refl dev g9 _ refl (λ h. h),
            step user_of group_of uid_of gid_of fa ok fa.mask refl refl inode g10 _ refl (λ h. h),
          )
          refl

    sent-had :
        (a : Attr) → (sent_mask user_of group_of uid_of gid_of fa) a ≡ true → fa.mask a ≡ true
    sent-had filetype h = h
    sent-had modtime h = h
    sent-had size h = h
    sent-had linktarget h = h
    sent-had rdev h = h
    sent-had owner h = h
    sent-had group h = h
    sent-had mode h = h
    sent-had fflags h = h
    sent-had linkcount h = ground arith
    sent-had dev h = h
    sent-had inode h = h

    -- The mask and the type.
    abbrev started : Fattr
    started = put filetype fa (record (fattr_new ft_unknown none) {
      mask = (sent_mask user_of group_of uid_of gid_of fa);
    })

    values : (a : Attr) → fa.mask a ≡ true → value (put_all started) a ≡ value fa a
    values filetype h = refl
    values modtime h = rw h refl
    values size h = rw h refl
    values linktarget h = rw h refl
    values rdev h = rw h refl
    values owner h = rw h refl
    values group h = rw h refl
    values mode h = rw h refl
    values fflags h = rw h refl
    values linkcount h = rw h refl
    values dev h = rw h refl
    values inode h = rw h refl

    supported_only_lem : supported_only started ≡ started
    unfolding supported_only
    supported_only_lem =
        let (low, high) = ok.sendable filetype ok.typed in
        let known : ltb ft_symlink fa.type_of ≡ false = ground arith in
        let mask_same : mask_and (sent_mask user_of group_of uid_of gid_of fa)
              (fattr_supported fa.type_of)
            ≡ (sent_mask user_of group_of uid_of gid_of fa) =
          fun_ext λ a. elim (Bool-cases ((sent_mask user_of group_of uid_of gid_of fa) a)) [
            | inl y ↦ rw (y, ok.supported a (sent-had a y)) refl
            | inr n ↦ rw n refl
          ] in
        rw (supported_only, known, mask_same) refl

    fattr_decode-encode_with :
        fattr_decode uid_of gid_of (
          encode_with user_of group_of fa
            (sent_mask user_of group_of uid_of gid_of fa)
            (name_or_empty fa.linktarget_of))
        ≡ done (some (put_all started))
    unfolding fattr_decode encode_with
    fattr_decode-encode_with =
        let n : ℕ = number_of_mask (sent_mask user_of group_of uid_of gid_of fa) in
        let below = number_of_mask_bound (sent_mask user_of group_of uid_of gid_of fa) in
        let g : Fattr = record (fattr_new ft_unknown none) {
          mask = (sent_mask user_of group_of uid_of gid_of fa);
        } in
        let all : Bytes =
          piece (
            text user_of group_of uid_of gid_of fa (sent_mask user_of group_of uid_of gid_of fa)
              filetype)
          ++ tail in
        let short = length-print 16 n in
        let mask_field = scan_field-piece (print 16 n) all (omega (arith, short)) in
        let mask_read = whole-strtoll 16 n (omega arith) (omega arith) (omega (arith, below)) in
        let cast_same = cast-pos 32 n (omega (arith, below)) in
        let fine : mask_refused n ≡ false = unfold mask_refused in ground arith in
        let has_type : mask_of_number n filetype ≡ true =
          ap (λ (m : Mask). m filetype)
            (mask_of_number_of_mask (sent_mask user_of group_of uid_of gid_of fa))
          ∙ ok.typed in
        let typed =
          scan-piece user_of group_of uid_of gid_of fa filetype g tail
            (ok.sendable filetype ok.typed) refl refl in
        rw
          (
            fattr_decode,
            encode_with,
            ok.typed,
            sym (
                append-nil (
                  written user_of group_of uid_of gid_of fa
                    (sent_mask user_of group_of uid_of gid_of fa) inode)),
            mask_field,
            mask_read,
            cast_same,
            fine,
            has_type,
            mask_of_number_of_mask (sent_mask user_of group_of uid_of gid_of fa),
            typed,
            supported_only_lem,
            scan_rest_lem started refl refl,
          )
          refl

  encoded :
      (IsComplete user_of group_of uid_of gid_of fa)
      → fattr_encode user_of group_of fa none no_attrs
        ≡ done (
            encode_with user_of group_of fa
              (sent_mask user_of group_of uid_of gid_of fa)
              (name_or_empty fa.linktarget_of))
  unfolding fattr_encode encode_with
  encoded ok = elim (Bool-cases (fa.mask linktarget)) [
    | inl y ↦
        let (s, e, b) = ok.sendable linktarget y in
        rw (fattr_encode, e, encoded_mask_lem user_of group_of uid_of gid_of fa ok) refl
    | inr n ↦ elim (Option-cases fa.linktarget_of) [
      | inl e ↦ rw (fattr_encode, e, encoded_mask_lem user_of group_of uid_of gid_of fa ok, n) refl
      | inr (s, e) ↦
          rw (fattr_encode, e, encoded_mask_lem user_of group_of uid_of gid_of fa ok) refl
    ]
  ]

  -- What fattr_encode() writes of complete attributes, fattr_decode() turns back into the same
  -- attributes with the same values.
  pub fattr_decode-fattr_encode :
      (IsComplete user_of group_of uid_of gid_of fa)
      → (s : Bytes) × (g : Fattr) × (fattr_encode user_of group_of fa none no_attrs ≡ done s)
        × (fattr_decode uid_of gid_of s ≡ done (some g))
        × ((a : Attr) → (g.mask a ≡ fa.mask a) × (fa.mask a ≡ true → value g a ≡ value fa a))
  unfolding fattr_encode
  fattr_decode-fattr_encode ok = (
    encode_with user_of group_of fa (sent_mask user_of group_of uid_of gid_of fa)
        (name_or_empty fa.linktarget_of),
    put_all ok (started ok),
    encoded ok,
    fattr_decode-encode_with ok,
    λ a. (refl, values ok a),
  )
