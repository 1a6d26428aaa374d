-- ===== src/Status/Closed.antt =====
-- status.c: an entry that is found and deleted, and the status file that status_close() leaves.
use csup.Status.Reading.{status_rdraw}
use csup.Status.Entries.{Entry, line, printed, Ready, rdraw_lem, next_dir}
use csup.Prelude.{
  ℕ, zero, suc, ◌<◌, ◌≡◌, refl, sym, ◌∙◌, ap, subst, arith, true, false, Bytes, List, [], ◌∷◌, ◌++◌,
  length, none, some, append_assoc, append-nil,
}
use csup.Prelude.Run.{done}
use csup.Pathcomp.{Pathcomp, pathcomp_new, pathcomp_finish, pathcomp_get, get_done}
use csup.Pathcomp.InSync.{IsAt, new, behind}
use csup.Status.{World, Status}
use csup.Status.Copied.{IsWritten, wrraw_lem, copied}
use csup.Status.Ops.{copy_rest, leave_dirs, put_current, status_close, renamed}
use csup.Stream.Reading.{newline}

finish_top :
    (pc : Pathcomp)
    → IsAt pc []
    → (pc' : Pathcomp) × (pathcomp_get (pathcomp_finish pc) ≡ done (none, pc'))
unfolding pathcomp_get pathcomp_finish pathcomp_new get_done
finish_top _ (new memory) = (_, refl)
finish_top _ (behind dir a) = (_, refl)

module _ {R : Type 0} (w : World R) where
  -- The rest of the file was copied.
  pub record Copied (st : Status R) (fuel : ℕ) (out : Bytes) : Type 0 where
    pub after : Status R
    pub result : copy_rest w fuel st ≡ done (true, after)
    pub whole : after.wr ≡ some out
    pub top : IsAt after.pc []

  copy_end :
      (st : Status R) (here : Bytes) (out : Bytes) (f : ℕ)
      → Ready w st here [] out
      → Copied st (suc f) (out ++ [])
  unfolding copy_rest status_rdraw
  copy_end st here out f g =
      let (rd, got, at_end) = g.gives in
      let reads = g.reads in
      let not_ended = g.not_ended in
      let no_error = g.no_error in
      let closed = g.ordered.1 in
      record {
        after = record st { rd = some rd; eof = true };
        result = ground (arith, closed);
        whole = g.writes ∙ ap some (sym (append-nil out));
        top = subst (IsAt st.pc) g.ordered.0 g.at;
      }

  copy_rest_lem :
      (es : List Entry) (f : ℕ) (st : Status R) (here : Bytes) (out : Bytes)
      → IsWritten w
      → length es < f
      → Ready w st here es out
      → Copied st f (out ++ printed w es)
  unfolding copy_rest
  copy_rest_lem es zero st here out ok h g = absurd (omega arith)
  copy_rest_lem [] (suc f) st here out ok h g = copy_end st here out f g
  copy_rest_lem (e ∷ es) (suc f) st here out ok h g =
      let (rd, got, more) = rdraw_lem w st here e es out g in
      let (pc, wrote, g') = wrraw_lem w st here e es out rd ok g more in
      let r =
        copy_rest_lem es f (copied w st rd e pc out) (next_dir e e.kind here)
          (out ++ (line e ++ (newline ∷ []))) ok (omega (arith, h)) g' in
      record {
        after = r.after;
        result = rw (copy_rest, got, wrote) r.result;
        whole = r.whole ∙ ap some (append_assoc out (line e ++ (newline ∷ [])) (printed w es));
        top = r.top;
      }

  -- At the top no directory is left open.
  leave_top :
      (st : Status R) (n : ℕ)
      → IsAt st.pc []
      → (pc : Pathcomp) × (leave_dirs w (suc n) (record st { pc = pathcomp_finish st.pc })
          ≡ done (true, record st { pc = pc }))
  unfolding leave_dirs
  leave_top st n at = let (pc, got) = finish_top st.pc at in (pc, rw (leave_dirs, got) refl)

  -- A changed status file is closed: what was written and the lines that are left become the file.
  pub status_close_lem :
      (es : List Entry) (f : ℕ) (st : Status R) (here : Bytes) (out : Bytes)
      → IsWritten w
      → w.rename_fails ≡ false
      → length es < f
      → st.dirty ≡ true
      → st.current ≡ false
      → Ready w st here es out
      → status_close w f st ≡ done (renamed (out ++ printed w es))
  unfolding status_close put_current
  status_close_lem es f st here out ok moved h dirty current g =
      let writes = g.writes in
      let c = copy_rest_lem es f st here out ok h g in
      let result = c.result in
      let whole = c.whole in
      let (pc, left) = leave_top c.after (pathcomp_finish c.after.pc).curlen c.top in ground arith
