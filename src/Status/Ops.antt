-- ===== src/Status/Ops.antt =====
-- status.c: status_get(), status_put(), status_delete() and status_close(). Loops run on fuel: a
-- round of a copying loop takes a line, a round of the loop that leaves directories an answer of
-- pathcomp_get().
use csup.Status.Reading.{status_rdraw, status_rd, Rec, cooked}
use csup.Prelude.{ℕ, zero, suc, Bool, true, false, not, if◌then◌else◌, Bytes, Option, none, some}
use csup.Prelude.Run.{Run, done, abort, out_of_fuel, ◌>>=◌}
use csup.Prelude.Int.{ℤ, pos}
use csup.Pathcomp.{Pathcomp, dirdown, file, dirup, pathcomp_get, pathcomp_finish}
use csup.Status.{
  SrType, sr_dirdown, sr_checkoutlive, sr_checkoutdead, sr_dirup, Statusrec, StatusError,
  err_rename, World, Status, is_dirup, not_below, statusrec_cmp,
}
use csup.Status.Writing.{need, Done, ◌then_do◌, emit, emit_up, fattr_bogus, status_wr, status_wrraw}

module _ {R : Type 0} (w : World R) where
  abbrev pub copies : Status R → Bool → Bool
  copies st deleteto = elim st.wr [ none ↦ false | some out ↦ not deleteto ]

  -- What status_get() returns: `none` is -1, false no entry; the entry is `*psr`.
  abbrev pub Found : Type 0
  Found = Option (Option Statusrec) × Status R

  -- No record: the end of the file, or an error.
  abbrev pub no_record : Status R → Found
  no_record st = elim st.error [ none ↦ (some none, st) | some e ↦ (none, st) ]

  -- The entry that the search stops at becomes the current one.
  abbrev pub stop : ℤ → Statusrec → Status R → Found
  stop (pos zero) sr st = (some (some sr), record st { current = true })
  stop _ sr st = (some none, record st { current = true })

  abbrev pub stop_cooked : ℤ → Rec w → Found
  stop_cooked c (none, st) = (none, st)
  stop_cooked c (some sr, st) = stop c sr st

  -- The loop for the entry; it passes over those that come before it.
  unfoldable pub find : ℕ → SrType → Bytes → Bool → Status R → Run Found
  unfolding status_rdraw
  find zero type name deleteto st = out_of_fuel
  find (suc f) type name deleteto st = status_rdraw w st >>= λ (got, st'). elim got [
    | none ↦ done (no_record st')
    | some (sr, line) ↦
        let c : ℤ = statusrec_cmp sr.sr_type sr.sr_file type name in
        elim (not_below c) [
          | true ↦ cooked w (some (sr, line), st') >>= λ rec. done (stop_cooked c rec)
          | false ↦
              (if copies st' deleteto then status_wrraw w st' sr line else done (true, st'))
              >>= λ (ok, st''). elim ok [
                | true ↦ find f type name deleteto st''
                | false ↦ done (none, st'')
              ]
        ]
  ]

  unfoldable pub search_from : ℕ → SrType → Bytes → Bool → Statusrec → Status R → Run Found
  unfolding find status_wr
  search_from fuel type name deleteto sr st =
      let c : ℤ = statusrec_cmp sr.sr_type sr.sr_file type name in
      elim (not_below c) [
        | true ↦ done (stop c sr st)
        | false ↦
            (if copies st deleteto then status_wr w st sr else done (true, st)) >>= λ (ok, st').
            elim ok [ true ↦ find fuel type name deleteto st' | false ↦ done (none, st') ]
      ]

  abbrev pub key_type : Bool → SrType
  key_type isdirup = if isdirup then sr_dirup else sr_checkoutlive

  -- The current entry, or the next one that is read.
  unfoldable pub start_entry : Status R → Run (Rec w)
  unfolding status_rd
  start_entry st =
      if st.current
      then need st.previous (λ sr. done (some sr, record st { current = false }))
      else status_rd w st

  unfoldable pub status_get : ℕ → Status R → Option Bytes → Bool → Bool → Run Found
  unfolding search_from start_entry
  status_get fuel st name isdirup deleteto =
      if st.eof then done (some none, st) else elim st.error [
        | some e ↦ done (none, st)
        | none ↦ elim name [
          | none ↦ status_rd w st >>= λ (got, st').
              done (elim got [ none ↦ no_record st' | some sr ↦ (some (some sr), st') ])
          | some key ↦ start_entry st >>= λ (got, st'). elim got [
            | none ↦ done (no_record st')
            | some sr ↦ search_from fuel (key_type isdirup) key deleteto sr st'
          ]
        ]
      ]

  abbrev pub is_checkout : SrType → Bool
  is_checkout sr_checkoutlive = true
  is_checkout sr_checkoutdead = true
  is_checkout _ = false

  -- The end of the directory that a file replaces must be found.
  abbrev pub replaced_dir : Found → Done R
  replaced_dir (none, st) = done (false, st)
  replaced_dir (some none, st) = abort
  replaced_dir (some (some sr), st) = done (true, st)

  -- Room is made for the record: the old one goes, or the directory that it replaces.
  unfoldable pub make_way : ℕ → Statusrec → Found → Done R
  unfolding status_get
  make_way fuel sr (none, st) = done (false, st)
  make_way fuel sr (some none, st) = done (true, st)
  make_way fuel sr (some (some old), st) = elim old.sr_type [
    | sr_dirdown ↦
        if is_checkout sr.sr_type
        then (status_get fuel st (some sr.sr_file) true true >>= replaced_dir)
        else done (true, st)
    | _ ↦ done (true, record st { current = false })
  ]

  unfoldable pub status_put : ℕ → Status R → Statusrec → Done R
  unfolding make_way status_wr
  status_put fuel st sr =
      status_get fuel st (some sr.sr_file) (is_dirup sr.sr_type) false
      >>= make_way fuel sr
      then_do λ st'. status_wr w (record st' { dirty = true }) sr

  abbrev pub deleted : Found → Bool × Status R
  deleted (none, st) = (false, st)
  deleted (some none, st) = (true, st)
  deleted (some (some sr), st) = (true, record st { current = false; dirty = true })

  unfoldable pub status_delete : ℕ → Status R → Bytes → Bool → Done R
  unfolding status_get
  status_delete fuel st name isdirup =
      status_get fuel st (some name) isdirup false >>= λ found. done (deleted found)

  -- The current record is written, if there is one.
  unfoldable pub put_current : Status R → Done R
  unfolding status_wr
  put_current st =
      if st.current
      then (need st.previous (status_wr w st) then_do λ st'.
          done (true, record st' { current = false }))
      else done (true, st)

  -- The rest of the file is copied. An error of the last read counts.
  unfoldable pub copy_rest : ℕ → Status R → Done R
  unfolding status_rdraw status_wrraw
  copy_rest zero st = out_of_fuel
  copy_rest (suc f) st = status_rdraw w st >>= λ (got, st'). elim got [
    | none ↦ done (elim st'.error [ none ↦ (true, st') | some e ↦ (false, st') ])
    | some (sr, line) ↦ status_wrraw w st' sr line then_do copy_rest f
  ]

  -- The directories that are open are left; pathcomp_get() must not enter one.
  unfoldable pub leave_dirs : ℕ → Status R → Done R
  unfolding emit
  leave_dirs zero st = out_of_fuel
  leave_dirs (suc f) st = pathcomp_get st.pc >>= λ (event, pc).
      let st' : Status R = record st { pc = pc } in
      elim event [
        | none ↦ done (true, st')
        | some (dirup, name) ↦ emit_up w st' name (some fattr_bogus) then_do leave_dirs f
        | some (dirdown, name) ↦ abort
        | some (file, name) ↦ abort
      ]

  -- What status_close() does with the new file, whose bytes may still wait in the stream's buffer.
  pub data Closed : Type 0 where
    read_only : Closed
    discarded : Closed
    renamed : Bytes → Closed
    failed : Option StatusError → Closed

  abbrev pub finish : Bool × Status R → Run Closed
  finish (false, st) = done (failed st.error)
  finish (true, st) =
      need st.wr λ out. done (if w.rename_fails then failed (some err_rename) else renamed out)

  unfoldable pub status_close : ℕ → Status R → Run Closed
  unfolding put_current copy_rest leave_dirs
  status_close fuel st = elim st.wr [
    | none ↦ done read_only
    | some out ↦
        if st.dirty
        then ((put_current st then_do copy_rest fuel then_do λ st'.
              let fin : Pathcomp = pathcomp_finish st'.pc in
              leave_dirs (suc fin.curlen) (record st' { pc = fin }))
            >>= finish)
        else done discarded
  ]
