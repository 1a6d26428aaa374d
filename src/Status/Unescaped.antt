-- ===== src/Status/Unescaped.antt =====
-- status.c: the name of a directory that status_wrraw() copies.
use csup.Status.Reading.{entry, read_line, statusrec_cook, cook_as}
use csup.Status.Entries.{get_cmd, read_entry}
use csup.Status.Writing.{wr_raw, status_wr, status_wrraw, keep_in_sync, take_event, no_event}
use csup.Status.Edited.{dir_down_written, after_line}
use csup.Pathcomp.{Pathcomp}
use csup.Pathcomp.InSync.{IsAt}
use csup.Pathcomp.Slashes.{HasNoSlash, child}
use csup.Prelude.{subst, ◌≢◌, ℕ, ◌≡◌, refl, ap, true, Bytes, [], ◌∷◌, ◌++◌, none, some, All}
use csup.Prelude.Run.{done}
use csup.Proto.Escape.{space, proto_escape, proto_unescape, HasNoSpace}
use csup.Proto.Lines.{get_ascii-continued}
use csup.Proto.Tokens.{proto_get_ascii}
use csup.Status.{sr_dirdown, raw, World, Status}
use csup.Status.Copied.{print_raw_dir, emit_done, IsWritten}
use csup.Stream.Reading.{newline}

module _ {R : Type 0} (w : World R) where
  -- If what is written stands: for a directory in the open one, where pathcomp is at rest, whose
  -- name has a space behind at least one byte, status_wr() succeeds and adds a line that is read as
  -- that name with nothing behind it; status_wrraw() succeeds too, and leaves pathcomp the same, but
  -- the line that it adds is read as the name's part before the space, with the rest behind it, and
  -- such an entry of a directory is refused.
  pub status_wrraw-space :
      (st st₂ : Status R) (here plain : Bytes) (c : ℕ) (a b out : Bytes)
      → IsAt st.pc here
      → HasNoSlash plain
      → plain ≢ []
      → child here plain ≡ (c ∷ a) ++ (space ∷ b)
      → All HasNoSpace (c ∷ a)
      → IsWritten w
      → st.wr ≡ some out
      → let n : Bytes = (c ∷ a) ++ (space ∷ b) in
        let escaped : Bytes = b'D' ∷ space ∷ proto_escape n in
        let copied : Bytes = b'D' ∷ space ∷ n in
        (pc : Pathcomp) × (status_wr w st (raw sr_dirdown n)
          ≡ done (true, record st { pc = pc; wr = some (out ++ (escaped ++ (newline ∷ []))) }))
        × (read_line w st₂ escaped ≡ done (entry w st₂ sr_dirdown n none))
        × (status_wrraw w st (raw sr_dirdown n) none
            ≡ done (true, record st { pc = pc; wr = some (out ++ (copied ++ (newline ∷ []))) }))
        × (read_line w st₂ copied ≡ done (entry w st₂ sr_dirdown (proto_unescape (c ∷ a)) (some b)))
        × ((name : Bytes) → statusrec_cook w (raw sr_dirdown name) (some b) ≡ done none)
  unfolding status_wrraw keep_in_sync take_event no_event wr_raw read_line statusrec_cook cook_as
  status_wrraw-space st st₂ here plain c a b out at slash ne named h ok e =
      let n : Bytes = (c ∷ a) ++ (space ∷ b) in
      let cmd = get_cmd sr_dirdown n in
      let got = get_ascii-continued c a (some b) h in
      let behind : (proto_get_ascii (some n)).1 ≡ some b = ap (λ g. g.1) got in
      let (mid, down, pc, put, event, rest, wrote, there) =
        dir_down_written w st here plain out slash ne at ok e in
      let kept : keep_in_sync st.pc (raw sr_dirdown (child here plain)) ≡ done pc =
        rw (keep_in_sync, put, event, rest) refl in
      let kept_n : keep_in_sync st.pc (raw sr_dirdown n) ≡ done pc =
        subst (λ m. keep_in_sync st.pc (raw sr_dirdown m) ≡ done pc) named kept in
      let line_of =
        emit_done w (record st { pc = pc }) out _ _ _ e (print_raw_dir w n) (ok out _) in
      (
        pc,
        subst
            (λ m.
              status_wr w st (raw sr_dirdown m)
              ≡ done (true, after_line w st pc out sr_dirdown m []))
            named wrote,
        read_entry w st₂ sr_dirdown n none (λ k. absurd (cc)),
        rw (status_wrraw, e, kept_n, wr_raw) line_of,
        rw (read_line, cmd, got, behind) refl,
        λ name. refl,
      )
