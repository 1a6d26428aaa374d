-- ===== src/Status/Edited.antt =====
-- status.c: what status_wr() writes for a record in its place, and a first entry written again.
use csup.Status.Entries.{Entry, Place, next_dir, Gives, name, child_ne, line, tail, Ready, advanced}
use csup.Status.Writing.{Done, cmd_of, pc_type, is_dir, format, wr_dirs, wr_record, status_wr}
use csup.Status.Canonical.{
  IsCanonical, IsRecord, IsText, dir_down, dir_up, file_live, file_dead, checkout_live,
  checkout_dead, fields, spaced, spaced-fields, with_attr, first_cooks,
}
use csup.Prelude.{
  ◌==◌, ℕ, suc, ◌+◌, ◌-◌, ◌<◌, arith, ◌≡◌, ◌≢◌, refl, sym, ◌∙◌, ap, subst, true, false, Bytes, List,
  [], ◌∷◌, ◌++◌, map, length, none, some,
}
use csup.Prelude.Run.{done}
use csup.Fattr.{Fattr, no_attrs}
use csup.Fattr.Text.{fattr_encode}
use csup.Pathcomp.{Pathcomp, pathcomp_put, pathcomp_get, is_absolute, file, dirdown}
use csup.Pathcomp.InSync.{IsAt, file_in_place, dir_entered, dir_left}
use csup.Pathcomp.Slashes.{HasNoSlash, child}
use csup.Proto.Escape.{space, proto_escape}
use csup.Proto.Lines.{continued}
use csup.Proto.Tokens.{proto_printf, convert, directive, string_arg, fattr_arg}
use csup.Status.{
  SrType, sr_dirdown, sr_checkoutlive, sr_checkoutdead, sr_filelive, sr_filedead, sr_dirup,
  Statusrec, raw, World, Status,
}
use csup.Status.Cooked.{statusrec_cook-Keeps}
use csup.Status.Copied.{IsWritten, emit_done}
use csup.Status.Deleted.{WellFormed-same, place_dir, same_dir}
use csup.Stream.Reading.{newline}

-- The line of a record, with its newline.
abbrev pub record_line : SrType → Bytes → List Bytes → Bytes
record_line kind n fs =
    (cmd_of kind ∷ space ∷ continued (proto_escape n) (fields fs)) ++ (newline ∷ [])

module _ {R : Type 0} (w : World R) where
  print_dir :
      (n : Bytes)
      → proto_printf w.user_of w.group_of (format b'D' (b's' ∷ [])) (string_arg n ∷ [])
        ≡ done (b'D' ∷ space ∷ (proto_escape n ++ spaced []))
  unfolding proto_printf directive convert
  print_dir n = refl

  print_attr :
      (c : ℕ) (n t : Bytes) (fa : Fattr)
      → (c == b'%') ≡ false
      → fattr_encode w.user_of w.group_of fa none no_attrs ≡ done t
      → proto_printf w.user_of w.group_of
          (format c (b's' ∷ b'a' ∷ []))
          (string_arg n ∷ fattr_arg fa ∷ [])
        ≡ done (c ∷ space ∷ (proto_escape n ++ spaced (t ∷ [])))
  unfolding proto_printf directive convert
  print_attr c n t fa k e = rw (k, e) refl

  print_live :
      (n tag date s rev revdate t : Bytes) (sa fa : Fattr)
      → fattr_encode w.user_of w.group_of sa none no_attrs ≡ done s
      → fattr_encode w.user_of w.group_of fa none no_attrs ≡ done t
      → proto_printf w.user_of w.group_of
          (format b'C' (b's' ∷ b's' ∷ b's' ∷ b'a' ∷ b's' ∷ b's' ∷ b'a' ∷ []))
          (string_arg n
            ∷ string_arg tag
            ∷ string_arg date
            ∷ fattr_arg sa
            ∷ string_arg rev
            ∷ string_arg revdate
            ∷ fattr_arg fa
            ∷ [])
        ≡ done (b'C' ∷ space ∷ (proto_escape n ++ spaced (tag ∷ date ∷ s ∷ rev ∷ revdate ∷ t ∷ [])))
  unfolding proto_printf directive convert
  print_live n tag date s rev revdate t sa fa e k = rw (e, k) refl

  print_dead :
      (n tag date s : Bytes) (sa : Fattr)
      → fattr_encode w.user_of w.group_of sa none no_attrs ≡ done s
      → proto_printf w.user_of w.group_of
          (format b'c' (b's' ∷ b's' ∷ b's' ∷ b'a' ∷ []))
          (string_arg n ∷ string_arg tag ∷ string_arg date ∷ fattr_arg sa ∷ [])
        ≡ done (b'c' ∷ space ∷ (proto_escape n ++ spaced (tag ∷ date ∷ s ∷ [])))
  unfolding proto_printf directive convert
  print_dead n tag date s sa e = rw e refl

  -- The status behind a line that was written, with pathcomp at rest.
  abbrev pub after_line : Status R → Pathcomp → Bytes → SrType → Bytes → List Bytes → Status R
  after_line st pc out kind n fs = record st { pc = pc; wr = some (out ++ record_line kind n fs) }

  abbrev succeeded : Status R → Done R
  succeeded st = done (true, st)

  written_line :
      (st : Status R) (pc : Pathcomp) (out : Bytes) (kind : SrType) (n : Bytes) (fs : List Bytes)
      → succeeded (record st {
        pc = pc;
        wr = some (out ++ (cmd_of kind ∷ space ∷ (proto_escape n ++ spaced fs)));
      })
        ≡ done (true, after_line st pc out kind n fs)
  written_line st pc out kind n fs =
      ap (λ t. succeeded (record st { pc = pc; wr = some (out ++ (cmd_of kind ∷ space ∷ t)) }))
        (sym (spaced-fields (proto_escape n) fs))

  -- A record of a file in the open directory: nothing is written before it.
  file_written :
      (st : Status R) (sr : Statusrec) (dir plain : Bytes)
      → pc_type sr.sr_type ≡ file
      → sr.sr_file ≡ child dir plain
      → HasNoSlash plain
      → IsAt st.pc dir
      → (pc : Pathcomp) × (status_wr w st sr ≡ wr_record w sr (record st { pc = pc })) × IsAt pc dir
  unfolding status_wr wr_dirs
  file_written st sr dir plain t n h at =
      let (mid, last, put, got, there) = file_in_place st.pc dir plain at h in
      (last, rw (status_wr, t, n, put, wr_dirs, got) refl, there)

  one_more : (a b : ℕ) → 0 < b → a + b ≡ suc (a + b - 1)
  one_more a b h = omega arith

  longer : (n : Bytes) → n ≢ [] → 0 < length n
  longer [] ne = absurd (ne refl)
  longer (c ∷ n) ne = omega arith

  -- A directory in the open one is entered, with its name escaped.
  pub dir_down_written :
      (st : Status R) (dir plain out : Bytes)
      → HasNoSlash plain
      → plain ≢ []
      → IsAt st.pc dir
      → IsWritten w
      → st.wr ≡ some out
      → (mid down pc : Pathcomp) × (pathcomp_put st.pc dirdown (child dir plain) ≡ done (true, mid))
        × (pathcomp_get mid ≡ done (some (dirdown, child dir plain), down))
        × (pathcomp_get down ≡ done (none, pc))
        × (status_wr w st (raw sr_dirdown (child dir plain))
            ≡ done (true, after_line st pc out sr_dirdown (child dir plain) []))
        × IsAt pc (child dir plain)
  unfolding status_wr wr_dirs wr_record
  dir_down_written st dir plain out h ne at ok e =
      let n : Bytes = child dir plain in
      let (mid, down, last, put, got, rest, there) = dir_entered st.pc dir plain at h ne in
      let fuel = one_more mid.curlen (length n) (longer n (child_ne dir plain ne)) in
      let out_line = emit_done w (record st { pc = down }) out _ _ _ e (print_dir n) (ok out _) in
      (
        mid,
        down,
        last,
        put,
        got,
        rest,
        rw (status_wr, put, wr_dirs, got, out_line, fuel, rest)
            (written_line st last out sr_dirdown n []),
        there,
      )

  -- The open directory is left, with the attributes that are given.
  dir_up_written :
      (st : Status R) (here dir plain out t : Bytes) (fa : Fattr)
      → here ≡ child dir plain
      → HasNoSlash plain
      → plain ≢ []
      → is_absolute dir ≡ false
      → IsAt st.pc here
      → IsWritten w
      → st.wr ≡ some out
      → fattr_encode w.user_of w.group_of fa none no_attrs ≡ done t
      → (pc : Pathcomp) × (status_wr w st (with_attr w sr_dirup here fa)
          ≡ done (true, after_line st pc out sr_dirup here (t ∷ [])))
        × IsAt pc dir
  unfolding status_wr wr_dirs wr_record
  dir_up_written st here dir plain out t fa k h ne a at ok e encodes =
      let (mid, up, last, put, got, rest, there) = dir_left st.pc here dir plain at k h ne a in
      let some_name : 0 < length here =
        let l = longer (child dir plain) (child_ne dir plain ne) in rw k l in
      let fuel = one_more mid.curlen (length here) some_name in
      let out_line =
        emit_done w (record st { pc = up }) out _ _ _ e (print_attr b'U' here t fa refl encodes)
          (ok out _) in
      (
        last,
        rw (status_wr, put, wr_dirs, got, out_line, fuel, rest)
            (written_line st last out sr_dirup here (t ∷ [])),
        there,
      )

  -- A record of a file, once pathcomp is at rest.
  abbrev RecordLine : Statusrec → SrType → Bytes → List Bytes → Type 0
  RecordLine sr kind n fs =
      (st : Status R) (out : Bytes)
      → IsWritten w
      → st.wr ≡ some out
      → wr_record w sr st ≡ done (true, after_line st st.pc out kind n fs)

  attr_line :
      (n t : Bytes) (fa : Fattr)
      → IsText w t fa
      → RecordLine (with_attr w sr_filelive n fa) sr_filelive n (t ∷ [])
        × RecordLine (with_attr w sr_filedead n fa) sr_filedead n (t ∷ [])
  unfolding wr_record
  attr_line n t fa a = (
    λ st out ok e.
        emit_done w st out _ _ _ e (print_attr b'V' n t fa refl a.encodes) (ok out _)
        ∙ written_line st st.pc out sr_filelive n (t ∷ []),
    λ st out ok e.
        emit_done w st out _ _ _ e (print_attr b'v' n t fa refl a.encodes) (ok out _)
        ∙ written_line st st.pc out sr_filedead n (t ∷ []),
  )

  file_line :
      (n : Bytes) (kind : SrType) (fs : List Bytes) (sr : Statusrec)
      → IsRecord w n kind fs sr
      → is_dir kind ≡ false
      → RecordLine sr kind n fs × (pc_type sr.sr_type ≡ file) × (sr.sr_file ≡ n)
  unfolding wr_record
  file_line n _ _ _ dir_down h = absurd (cc)
  file_line n _ _ _ (dir_up t fa a) h = absurd (cc)
  file_line n _ _ _ (file_live t fa a) h = ((attr_line n t fa a).0, refl, refl)
  file_line n _ _ _ (file_dead t fa a) h = ((attr_line n t fa a).1, refl, refl)
  file_line n _ _ _ (checkout_live tag date s rev revdate t sa fa h₁ h₂ h₃ h₄ a b) h = (
    λ st out ok e.
        emit_done w st out _ _ _ e (print_live n tag date s rev revdate t sa fa a.encodes b.encodes)
          (ok out _)
        ∙ written_line st st.pc out sr_checkoutlive n (tag ∷ date ∷ s ∷ rev ∷ revdate ∷ t ∷ []),
    refl,
    refl,
  )
  file_line n _ _ _ (checkout_dead tag date s sa h₁ h₂ a) h = (
    λ st out ok e.
        emit_done w st out _ _ _ e (print_dead n tag date s sa a.encodes) (ok out _)
        ∙ written_line st st.pc out sr_checkoutdead n (tag ∷ date ∷ s ∷ []),
    refl,
    refl,
  )

  -- What status_wr() writes for the record of an entry in its place, and where pathcomp then is.
  pub record Wrote (st : Status R) (e : Entry) (kind : SrType) (fs : List Bytes) (sr : Statusrec)
      (here out : Bytes) : Type 0 where
    pub pc : Pathcomp
    pub result : status_wr w st sr ≡ done (true, after_line st pc out kind (name e) fs)
    pub there : IsAt pc (next_dir e kind here)

  Wrote-file :
      (st : Status R) (e : Entry) (kind : SrType) (fs : List Bytes) (sr : Statusrec)
      (here out : Bytes) (depth : ℕ)
      → IsRecord w (name e) kind fs sr
      → is_dir kind ≡ false
      → Place e kind here depth
      → HasNoSlash e.plain
      → IsAt st.pc here
      → IsWritten w
      → st.wr ≡ some out
      → Wrote st e kind fs sr here out
  Wrote-file st e kind fs sr here out depth r d p h at ok k =
      let in_here = place_dir w e kind here depth d p in
      let (line_of, t, n) = file_line (name e) kind fs sr r d in
      let (pc, put, there) =
        file_written st sr e.dir e.plain t n h (subst (IsAt st.pc) (sym in_here) at) in
      record {
        pc = pc;
        result = put ∙ line_of (record st { pc = pc }) out ok k;
        there = subst (IsAt pc) (in_here ∙ sym (same_dir w e kind here d)) there;
      }

  Wrote-record :
      (st : Status R) (e : Entry) (kind : SrType) (fs : List Bytes) (sr : Statusrec)
      (here out : Bytes) (depth : ℕ)
      → IsRecord w (name e) kind fs sr
      → Place e kind here depth
      → HasNoSlash e.plain
      → e.plain ≢ []
      → IsAt st.pc here
      → IsWritten w
      → st.wr ≡ some out
      → Wrote st e kind fs sr here out
  Wrote-record st e _ _ _ here out depth dir_down p h ne at ok k =
      let (mid, down, pc, put, got, rest, wrote, there) =
        dir_down_written st e.dir e.plain out h ne (subst (IsAt st.pc) (sym p.0) at) ok k in
      record { pc = pc; result = wrote; there = there }
  Wrote-record st e _ _ _ here out depth (dir_up t fa a) p h ne at ok k =
      let (pc, wrote, there) =
        dir_up_written st (name e) e.dir e.plain out t fa refl h ne p.1 (subst (IsAt st.pc) p.0 at)
          ok k a.encodes in
      record { pc = pc; result = wrote; there = there }
  Wrote-record st e _ _ _ here out depth (file_live t fa a) p h ne at ok k =
      Wrote-file st e sr_filelive _ _ here out depth (file_live t fa a) refl p h at ok k
  Wrote-record st e _ _ _ here out depth (file_dead t fa a) p h ne at ok k =
      Wrote-file st e sr_filedead _ _ here out depth (file_dead t fa a) refl p h at ok k
  Wrote-record st e _ _ _ here out depth (checkout_live g d s r v t sa fa h₁ h₂ h₃ h₄ a b) p h ne at
        ok k =
      Wrote-file st e sr_checkoutlive _ _ here out depth
        (checkout_live g d s r v t sa fa h₁ h₂ h₃ h₄ a b) refl p h at ok k
  Wrote-record st e _ _ _ here out depth (checkout_dead g d s sa h₁ h₂ a) p h ne at ok k =
      Wrote-file st e sr_checkoutdead _ _ here out depth (checkout_dead g d s sa h₁ h₂ a) refl p h
        at ok k

  -- The status behind a first entry that was written again.
  abbrev pub rewritten : Status R → R → Entry → Statusrec → Pathcomp → Bytes → Status R
  rewritten st rd e sr pc out = record (advanced w st rd e) {
    previous = some sr;
    pc = pc;
    wr = some (out ++ (line e ++ (newline ∷ [])));
  }

  pub first_written :
      (st : Status R) (here : Bytes) (e : Entry) (es : List Entry) (out : Bytes) (rd : R)
      (c : IsCanonical w e)
      → IsWritten w
      → Ready w st here (e ∷ es) out
      → Gives w rd (map line es)
      → (pc : Pathcomp) × (status_wr w (record (advanced w st rd e) { previous = some c.sr }) c.sr
          ≡ done (true, rewritten st rd e c.sr pc out))
        × Ready w
            (rewritten st rd e c.sr pc out)
            (next_dir e e.kind here)
            es
            (out ++ (line e ++ (newline ∷ [])))
  first_written st here e es out rd c ok g more =
      let i = g.ordered.0 in
      let st' : Status R = record (advanced w st rd e) { previous = some c.sr } in
      let r =
        Wrote-record st' e e.kind c.behind c.sr here out st.depth c.is_record i.place i.no_slash
          i.named g.at ok g.writes in
      let (t, n) = statusrec_cook-Keeps w (raw e.kind (name e)) (tail e) c.sr (first_cooks w e c) in
      let as_read =
        ap
          (λ t. succeeded (record st' {
            pc = r.pc;
            wr = some (
                out
                ++ ((cmd_of e.kind ∷ space ∷ continued (proto_escape (name e)) t)
                    ++ (newline ∷ [])));
          }))
          (sym c.as_fields) in
      (
        r.pc,
        r.result ∙ as_read,
        record {
          source = rd;
          reads = refl;
          gives = more;
          not_ended = g.not_ended;
          no_error = g.no_error;
          writes = refl;
          at = r.there;
          ordered =
              WellFormed-same w (raw e.kind (name e)) c.sr (next_dir e e.kind here) _ es t n
                g.ordered.1;
        },
      )
