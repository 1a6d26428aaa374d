-- ===== src/Fattr/Text/Steps.antt =====
-- The steps of fattr_decode() on what fattr_encode() writes.
use csup.Prelude.{
  ℕ, ◌≡◌, refl, sym, ◌∙◌, ap, arith, fun_ext, Bool, true, false, ◌==◌, ==_iff, ◌&&◌, not, ◌||◌,
  Bytes, ◌++◌, some, none, Option, Bool-cases, inl, inr, if◌then◌else◌,
}
use csup.Prelude.Run.{done}
use csup.Fattr.{
  Attr, filetype, modtime, size, linktarget, rdev, owner, group, mode, fflags, linkcount, dev,
  inode, Mask, Fattr, mask_and, mask_or, mask_not, only, no_attrs, fattr_supported,
}
use csup.Fattr.Text.{
  piece, piece_if, scan_field, scan_value, scan_if, scan_linkcount, fattr_scanattr, encoded_mask,
  is_none,
}
use csup.Fattr.Text.Fields.{scan_field-piece}
use csup.Fattr.Text.Sent.{put, put_if, put_if-false, text, IsSendable, text-Arrives}

module _ (user_of group_of : ℕ → Option Bytes) (uid_of gid_of : Bytes → Option ℕ) (fa : Fattr) where
  -- What fattr_encode() sends: not a link count of 1.
  abbrev pub sent_mask : Mask
  sent_mask linkcount = fa.mask linkcount && not (fa.linkcount_of == 1)
  sent_mask a = fa.mask a

  -- Attributes that arrive: the type is there and known, it supports what is there, a link count is
  -- there where it is supported, and each value is one that arrives.
  pub record IsComplete : Type 0 where
    pub typed : fa.mask filetype ≡ true
    pub supported : (a : Attr) → fa.mask a ≡ true → fattr_supported fa.type_of a ≡ true
    pub counted : fattr_supported fa.type_of linkcount ≡ true → fa.mask linkcount ≡ true
    pub sendable : (a : Attr) → fa.mask a ≡ true → IsSendable user_of group_of uid_of gid_of fa a

  abbrev pub written : Mask → Attr → Bytes
  written m a = piece_if (m a) (text user_of group_of uid_of gid_of fa m a)

  scanned :
      (a : Attr) (g : Fattr) (attr s next : Bytes) (g' : Fattr)
      → scan_field attr ≡ done (some (s, next))
      → scan_value uid_of gid_of g a s ≡ some g'
      → fattr_scanattr uid_of gid_of a (some (g, attr)) ≡ done (some (g', next))
  unfolding fattr_scanattr
  scanned a g attr s next g' f e = rw (fattr_scanattr, f, e) refl

  pub scan-piece :
      (a : Attr) (g : Fattr) (rest : Bytes)
      → IsSendable user_of group_of uid_of gid_of fa a
      → g.mask owner ≡ fa.mask owner
      → g.mask group ≡ fa.mask group
      → fattr_scanattr uid_of gid_of a
          (some (g, piece (text user_of group_of uid_of gid_of fa g.mask a) ++ rest))
        ≡ done (some (put a fa g, rest))
  scan-piece a g rest h o p =
      let (b, e) = text-Arrives user_of group_of uid_of gid_of fa a g h o p in
      let s : Bytes = text user_of group_of uid_of gid_of fa g.mask a in
      scanned a g (piece s ++ rest) s rest (put a fa g) (scan_field-piece s rest b) e

  module _ (ok : IsComplete) (m : Mask) (o : m owner ≡ fa.mask owner)
      (p : m group ≡ fa.mask group) where
    pub step :
        (a : Attr) (g : Fattr) (rest : Bytes)
        → g.mask ≡ m
        → (m a ≡ true → fa.mask a ≡ true)
        → scan_if uid_of gid_of a (some (g, written m a ++ rest))
          ≡ done (some (put_if (m a) a fa g, rest))
    unfolding scan_if
    step a g rest e sub = elim (Bool-cases (m a)) [
      | inl y ↦
          let gy : g.mask a ≡ true = rw e y in
          let piece_read = scan-piece a g rest (ok.sendable a (sub y)) (rw e o) (rw e p) in
          rw (y, scan_if, gy, sym e) piece_read
      | inr n ↦ let gn : g.mask a ≡ false = rw e n in rw (n, scan_if, gn, put_if-false a fa g) refl
    ]

  known-owner : IsComplete → (fa.mask owner && is_none (user_of fa.uid)) ≡ false
  known-owner ok = elim (Bool-cases (fa.mask owner)) [
    | inl y ↦ let (s, e, k, b) = ok.sendable owner y in rw (y, e) refl
    | inr n ↦ rw n refl
  ]

  known-group : IsComplete → (fa.mask group && is_none (group_of fa.gid)) ≡ false
  known-group ok = elim (Bool-cases (fa.mask group)) [
    | inl y ↦ let (s, e, k, b) = ok.sendable group y in rw (y, e) refl
    | inr n ↦ rw n refl
  ]

  without_count :
      (m : Mask) (b : Bool) (a : Attr)
      → (if m linkcount && b
            then mask_and (mask_and m (mask_not no_attrs)) (mask_not (only linkcount))
            else mask_and m (mask_not no_attrs))
          a
        ≡ (m a && not (only linkcount a && b))
  without_count m b a = ground arith

  sent_mask_lem :
      (a : Attr) → (fa.mask a && not (only linkcount a && (fa.linkcount_of == 1))) ≡ sent_mask a
  sent_mask_lem filetype = ground arith
  sent_mask_lem modtime = ground arith
  sent_mask_lem size = ground arith
  sent_mask_lem linktarget = ground arith
  sent_mask_lem rdev = ground arith
  sent_mask_lem owner = ground arith
  sent_mask_lem group = ground arith
  sent_mask_lem mode = ground arith
  sent_mask_lem fflags = ground arith
  sent_mask_lem linkcount = refl
  sent_mask_lem dev = ground arith
  sent_mask_lem inode = ground arith

  pub encoded_mask_lem : IsComplete → encoded_mask user_of group_of fa none no_attrs ≡ sent_mask
  unfolding encoded_mask
  encoded_mask_lem ok = fun_ext λ a.
      rw (encoded_mask, known-owner ok, known-group ok)
        (without_count fa.mask (fa.linkcount_of == 1) a ∙ sent_mask_lem a)

  -- With the link count back, the mask is what it was.
  restored : fa.mask linkcount ≡ true → mask_or sent_mask (only linkcount) ≡ fa.mask
  restored y = fun_ext go
    where
      go : (a : Attr) → (sent_mask a || only linkcount a) ≡ fa.mask a
      go filetype = ground arith
      go modtime = ground arith
      go size = ground arith
      go linktarget = ground arith
      go rdev = ground arith
      go owner = ground arith
      go group = ground arith
      go mode = ground arith
      go fflags = ground arith
      go linkcount = ground arith
      go dev = ground arith
      go inode = ground arith

  same_mask :
      (fa.mask linkcount && not (fa.linkcount_of == 1)) ≡ fa.mask linkcount → sent_mask ≡ fa.mask
  same_mask y = fun_ext go
    where
      go : (a : Attr) → sent_mask a ≡ fa.mask a
      go linkcount = y
      go filetype = refl
      go modtime = refl
      go size = refl
      go linktarget = refl
      go rdev = refl
      go owner = refl
      go group = refl
      go mode = refl
      go fflags = refl
      go dev = refl
      go inode = refl

  -- The link count, if it is sent; otherwise it is made 1 where it is supported.
  pub count_step :
      IsComplete
      → (g : Fattr) (rest : Bytes) → g.mask ≡ sent_mask
      → g.type_of ≡ fa.type_of
      → scan_linkcount uid_of gid_of (some (g, written sent_mask linkcount ++ rest))
        ≡ done (some (record (put_if (fa.mask linkcount) linkcount fa g) { mask = fa.mask }, rest))
  unfolding scan_linkcount
  count_step ok g rest e t = elim (Bool-cases (fa.mask linkcount)) [
    | inl y ↦ elim (Bool-cases (fa.linkcount_of == 1)) [
      | inl one ↦
          let unsent : g.mask linkcount ≡ false = rw e (rw (y, one) refl) in
          let can : fattr_supported g.type_of linkcount ≡ true = rw t (ok.supported linkcount y) in
          let all : mask_or g.mask (only linkcount) ≡ fa.mask = rw e (restored y) in
          let n : 1 ≡ fa.linkcount_of = sym ((==_iff fa.linkcount_of 1).0 one) in
          rw (scan_linkcount, unsent, can, y, one, all, n) refl
      | inr more ↦
          let sent : g.mask linkcount ≡ true = rw e (rw (y, more) refl) in
          let all : sent_mask ≡ fa.mask = same_mask (rw (y, more) refl) in
          let scan =
            scan-piece linkcount g rest (ok.sendable linkcount y) (rw e refl) (rw e refl) in
          rw (scan_linkcount, sent, y, more)
            (scan
              ∙ ap (λ (x : Mask). done (some (record (put linkcount fa g) { mask = x }, rest)))
                  (e ∙ all))
    ]
    | inr n ↦
        let unsent : g.mask linkcount ≡ false = rw e (rw n refl) in
        let all : g.mask ≡ fa.mask = e ∙ same_mask (rw n refl) in
        let cannot : fattr_supported g.type_of linkcount ≡ false =
          elim (Bool-cases (fattr_supported g.type_of linkcount)) [
            | inl yes_count ↦ absurd (cc (ok.counted (rw (sym t) yes_count)))
            | inr none_there ↦ none_there
          ] in
        rw (scan_linkcount, unsent, n, cannot)
          (ap (λ (x : Mask). done (some (record g { mask = x }, rest))) all)
  ]
