-- ===== src/Status/Copied.antt =====
-- status.c: entries that are copied.
use csup.Status.Writing.{
  wr_raw, status_wrraw, cmd_of, raw_format, pc_type, is_dir, emit, take_event, no_event,
  keep_in_sync,
}
use csup.Prelude.{
  arith, append_assoc, map, ℕ, ◌≡◌, ◌≢◌, refl, sym, ◌∙◌, ap, subst, true, false, Bytes, List, [],
  ◌∷◌, ◌++◌, Option, none, some,
}
use csup.Prelude.Run.{done}
use csup.Pathcomp.{file, Pathcomp}
use csup.Pathcomp.InSync.{IsAt, file_in_place, dir_entered, dir_left}
use csup.Pathcomp.Slashes.{HasNoSlash}
use csup.Proto.Escape.{space, proto_escape}
use csup.Proto.Lines.{continued}
use csup.Stream.Reading.{newline}
use csup.Proto.Tokens.{Arg, char_arg, string_arg, proto_printf, directive, convert}
use csup.Status.{
  Statusrec, SrType, sr_dirdown, sr_checkoutlive, sr_checkoutdead, sr_filelive, sr_filedead,
  sr_dirup, raw, World, Status,
}
use csup.Status.Entries.{Entry, name, text_for, tail, line, Place, next_dir, Gives, Ready, advanced}

module _ {R : Type 0} (w : World R) where
  -- The line is written as it was read.
  print_raw :
      (c : ℕ) (n t : Bytes)
      → proto_printf w.user_of w.group_of
          (raw_format b'c' (b's' ∷ b'S' ∷ []))
          (char_arg c ∷ string_arg n ∷ string_arg t ∷ [])
        ≡ done (c ∷ space ∷ (proto_escape n ++ (space ∷ (t ++ (newline ∷ [])))))
  unfolding proto_printf directive convert
  print_raw c n t = refl

  pub print_raw_dir :
      (n : Bytes)
      → proto_printf w.user_of w.group_of
          (raw_format b'c' (b'S' ∷ []))
          (char_arg b'D' ∷ string_arg n ∷ [])
        ≡ done (b'D' ∷ space ∷ (n ++ (newline ∷ [])))
  unfolding proto_printf directive convert
  print_raw_dir n = refl

  pub emit_done :
      (st : Status R) (out : Bytes) (fmt : Bytes) (args : List Arg) (l : Bytes)
      → st.wr ≡ some out
      → proto_printf w.user_of w.group_of fmt args ≡ done l
      → w.refused out l ≡ none
      → emit w st fmt args ≡ done (true, record st { wr = some (out ++ l) })
  unfolding emit
  emit_done st out fmt args l e p k = rw (emit, e, p, k) refl

  pub in_place :
      (e : Entry) (kind : SrType) (pc : Pathcomp) (here : Bytes)
      → pc_type kind ≡ file
      → is_dir kind ≡ false
      → IsAt pc here
      → e.dir ≡ here
      → HasNoSlash e.plain
      → (pc' : Pathcomp) × (keep_in_sync pc (raw kind (name e)) ≡ done pc') × IsAt pc' here
  unfolding keep_in_sync take_event no_event
  in_place e kind pc here t d at p h =
      let (mid, last, put, got, there) =
        file_in_place pc e.dir e.plain (subst (IsAt pc) (sym p) at) h in
      (last, rw (keep_in_sync, t, put, d, got) refl, subst (IsAt last) p there)

  -- Pathcomp keeps up with the entries, and answers what status_wrraw() asserts.
  sync :
      (e : Entry) (kind : SrType) (pc : Pathcomp) (here : Bytes) (depth : ℕ)
      → IsAt pc here
      → Place e kind here depth
      → HasNoSlash e.plain
      → e.plain ≢ []
      → (pc' : Pathcomp) × (keep_in_sync pc (raw kind (name e)) ≡ done pc')
        × IsAt pc' (next_dir e kind here)
  unfolding keep_in_sync take_event no_event
  sync e sr_dirdown pc here depth at p h ne =
      let at' : IsAt pc e.dir = subst (IsAt pc) (sym p.0) at in
      let (mid, down, last, put, got, rest, there) = dir_entered pc e.dir e.plain at' h ne in
      (last, rw (keep_in_sync, put, got, rest) refl, there)
  sync e sr_dirup pc here depth at p h ne =
      let (mid, up, last, put, got, rest, there) = dir_left pc here e.dir e.plain at p.0 h ne p.1 in
      let same : keep_in_sync pc (raw sr_dirup here) ≡ done last =
        rw (keep_in_sync, put, got, rest) refl in
      (last, ap (λ n. keep_in_sync pc (raw sr_dirup n)) (sym p.0) ∙ same, there)
  sync e sr_checkoutlive pc here depth at p h ne =
      in_place e sr_checkoutlive pc here refl refl at p h
  sync e sr_checkoutdead pc here depth at p h ne =
      in_place e sr_checkoutdead pc here refl refl at p h
  sync e sr_filelive pc here depth at p h ne = in_place e sr_filelive pc here refl refl at p h
  sync e sr_filedead pc here depth at p h ne = in_place e sr_filedead pc here refl refl at p h

  -- What is written stands.
  abbrev pub IsWritten : Type 0
  IsWritten = (out l : Bytes) → w.refused out l ≡ none

  -- The status behind an entry that was copied.
  abbrev pub copied : Status R → R → Entry → Pathcomp → Bytes → Status R
  copied st rd e pc out = record (advanced w st rd e) {
    pc = pc;
    wr = some (out ++ (line e ++ (newline ∷ [])));
  }

  wrraw_step :
      (st : Status R) (sr : Statusrec) (l : Option Bytes) (out : Bytes) (pc : Pathcomp)
      → st.wr ≡ some out
      → keep_in_sync st.pc sr ≡ done pc
      → status_wrraw w st sr l ≡ wr_raw w (record st { pc = pc }) sr l
  unfolding status_wrraw
  wrraw_step st sr l out pc e k = ground arith

  wr_text :
      (st : Status R) (c : ℕ) (n t out : Bytes)
      → IsWritten
      → st.wr ≡ some out
      → emit w st
          (raw_format b'c' (b's' ∷ b'S' ∷ []))
          (char_arg c ∷ string_arg n ∷ string_arg t ∷ [])
        ≡ done (
          true,
          record st {
            wr = some (out ++ ((c ∷ space ∷ (proto_escape n ++ (space ∷ t))) ++ (newline ∷ [])));
          },
        )
  wr_text st c n t out ok e =
      emit_done st out _ _ _ e (print_raw c n t) (ok out _)
      ∙ ap (λ s. done (true, record st { wr = some (out ++ (c ∷ space ∷ s)) }))
          (sym (append_assoc (proto_escape n) (space ∷ t) (newline ∷ [])))

  wr_raw_lem :
      (st : Status R) (e : Entry) (kind : SrType) (here : Bytes) (depth : ℕ) (out : Bytes)
      → IsWritten
      → Place e kind here depth
      → st.wr ≡ some out
      → wr_raw w st (raw kind (name e)) (text_for kind e.text)
        ≡ done (
          true,
          record st {
            wr = some (
                out
                ++ ((cmd_of kind ∷ space ∷ continued (proto_escape (name e)) (text_for kind e.text))
                    ++ (newline ∷ [])));
          },
        )
  unfolding wr_raw
  wr_raw_lem st e sr_dirdown here depth out ok p k =
      emit_done st out _ _ _ k (print_raw_dir (name e)) (ok out _)
      ∙ ap
          (λ s.
            done (true, record st { wr = some (out ++ (b'D' ∷ space ∷ (s ++ (newline ∷ [])))) }))
          (sym p.1)
  wr_raw_lem st e sr_dirup here depth out ok p k = wr_text st b'U' (name e) e.text out ok k
  wr_raw_lem st e sr_checkoutlive here depth out ok p k = wr_text st b'C' (name e) e.text out ok k
  wr_raw_lem st e sr_checkoutdead here depth out ok p k = wr_text st b'c' (name e) e.text out ok k
  wr_raw_lem st e sr_filelive here depth out ok p k = wr_text st b'V' (name e) e.text out ok k
  wr_raw_lem st e sr_filedead here depth out ok p k = wr_text st b'v' (name e) e.text out ok k

  -- An entry is copied as it stands, and pathcomp keeps up.
  pub wrraw_lem :
      (st : Status R) (here : Bytes) (e : Entry) (es : List Entry) (out : Bytes) (rd : R)
      → IsWritten
      → Ready w st here (e ∷ es) out
      → Gives w rd (map line es)
      → (pc : Pathcomp) × (status_wrraw w (advanced w st rd e) (raw e.kind (name e)) (tail e)
          ≡ done (true, copied st rd e pc out))
        × Ready w
            (copied st rd e pc out)
            (next_dir e e.kind here)
            es
            (out ++ (line e ++ (newline ∷ [])))
  wrraw_lem st here e es out rd ok g more =
      let i = g.ordered.0 in
      let st' : Status R = advanced w st rd e in
      let (pc, kept, at) = sync e e.kind st.pc here st.depth g.at i.place i.no_slash i.named in
      (
        pc,
        wrraw_step st' (raw e.kind (name e)) (tail e) out pc g.writes kept
            ∙ wr_raw_lem (record st' { pc = pc }) e e.kind here st.depth out ok i.place g.writes,
        record {
          source = rd;
          reads = refl;
          gives = more;
          not_ended = g.not_ended;
          no_error = g.no_error;
          writes = refl;
          at = at;
          ordered = g.ordered.1;
        },
      )
