-- ===== src/Status/Deleted.antt =====
-- status.c: an entry that is found, deleted, and gone when the status file is closed.
use csup.Status.Reading.{status_rdraw, statusrec_cook, cooked}
use csup.Status.Entries.{
  Entry, Place, Gives, name, line, tail, printed, Ready, WellFormed, rdraw_lem, advanced, next_dir,
  next_depth,
}
use csup.Status.Writing.{is_dir, status_wrraw}
use csup.Prelude.{
  ℕ, zero, suc, ◌<◌, ◌≡◌, refl, sym, ◌∙◌, subst, arith, true, false, Bytes, List, [], ◌∷◌, ◌++◌,
  map, length, Option, some, append_assoc, append-nil, All,
}
use csup.Prelude.Run.{Run, done}
use csup.Prelude.Int.{pos}
use csup.Status.{
  SrType, sr_dirdown, sr_checkoutlive, sr_checkoutdead, sr_filelive, sr_filedead, sr_dirup,
  Statusrec, raw, World, Status, statusrec_cmp, not_below,
}
use csup.Status.Cooked.{statusrec_cook-Keeps}
use csup.Status.Copied.{IsWritten, wrraw_lem, copied}
use csup.Status.Ops.{Found, find}
use csup.Stream.Reading.{newline}

module _ {R : Type 0} (w : World R) where
  pub same_dir :
      (e : Entry) (kind : SrType) (here : Bytes) → is_dir kind ≡ false → next_dir e kind here ≡ here
  same_dir e sr_dirdown here h = absurd (cc)
  same_dir e sr_dirup here h = absurd (cc)
  same_dir e sr_checkoutlive here h = refl
  same_dir e sr_checkoutdead here h = refl
  same_dir e sr_filelive here h = refl
  same_dir e sr_filedead here h = refl

  pub place_dir :
      (e : Entry) (kind : SrType) (here : Bytes) (depth : ℕ)
      → is_dir kind ≡ false
      → Place e kind here depth
      → e.dir ≡ here
  place_dir e sr_dirdown here depth h p = absurd (cc)
  place_dir e sr_dirup here depth h p = absurd (cc)
  place_dir e sr_checkoutlive here depth h p = p
  place_dir e sr_checkoutdead here depth h p = p
  place_dir e sr_filelive here depth h p = p
  place_dir e sr_filedead here depth h p = p

  -- Of the entry before, only the type and the name count.
  pub WellFormed-same :
      (p q : Statusrec) (here : Bytes) (depth : ℕ) (es : List Entry)
      → q.sr_type ≡ p.sr_type
      → q.sr_file ≡ p.sr_file
      → WellFormed w (some p) here depth es
      → WellFormed w (some q) here depth es
  WellFormed-same p q here depth [] t f h = h
  WellFormed-same p q here depth (e ∷ es) t f h =
      let i = h.0 in
      let sorted = i.sorted in
      (
        record {
          named = i.named;
          no_slash = i.no_slash;
          sorted = rw (t, f) sorted;
          place = i.place;
        },
        h.1,
      )

  -- The entry that the search stops at was read, and is not copied.
  pub passed :
      (st : Status R) (here : Bytes) (e : Entry) (es : List Entry) (out : Bytes) (rd : R)
      (sr : Statusrec)
      → is_dir e.kind ≡ false
      → statusrec_cook w (raw e.kind (name e)) (tail e) ≡ done (some sr)
      → Ready w st here (e ∷ es) out
      → Gives w rd (map line es)
      → Ready w
          (record (advanced w st rd e) { previous = some sr; current = false; dirty = true })
          here
          es
          out
  passed st here e es out rd sr file cook g more =
      let (t, f) = statusrec_cook-Keeps w (raw e.kind (name e)) (tail e) sr cook in
      let dir = same_dir e e.kind here file in
      record {
        source = rd;
        reads = refl;
        gives = more;
        not_ended = g.not_ended;
        no_error = g.no_error;
        writes = g.writes;
        at = g.at;
        ordered = WellFormed-same (raw e.kind (name e)) sr here _ es t f (
            subst (λ d. WellFormed w (some (raw e.kind (name e))) d (next_depth e.kind st.depth) es)
              dir g.ordered.1);
      }

  module _ (key : Bytes) where
    -- Entries that come before the key.
    abbrev pub IsBefore : Entry → Type 0
    IsBefore e = not_below (statusrec_cmp e.kind (name e) sr_checkoutlive key) ≡ false

    -- An entry that the key is equal to, which is a file's and can be decoded.
    pub record IsFound (e : Entry) : Type 0 where
      pub equal : statusrec_cmp e.kind (name e) sr_checkoutlive key ≡ pos 0
      pub is_file : is_dir e.kind ≡ false
      pub sr : Statusrec
      pub cooks : statusrec_cook w (raw e.kind (name e)) (tail e) ≡ done (some sr)

    -- It is found, and the others are still to be read.
    pub record Located (after : List Entry) (out : Bytes) (result : Run (Found w)) : Type 0 where
      pub state : Status R
      pub entry : Statusrec
      pub at : result ≡ done (some (some entry), state)
      pub here : Bytes
      pub left : Ready w (record state { current = false; dirty = true }) here after out

    find_stop :
        (f : ℕ) (st st₁ : Status R) (sr sr' : Statusrec) (l : Option Bytes)
        → status_rdraw w st ≡ done (some (sr, l), st₁)
        → statusrec_cmp sr.sr_type sr.sr_file sr_checkoutlive key ≡ pos 0
        → statusrec_cook w sr l ≡ done (some sr')
        → find w (suc f) sr_checkoutlive key false st
          ≡ done (some (some sr'), record st₁ { previous = some sr'; current = true })
    unfolding find cooked
    find_stop f st st₁ sr sr' l got equal cooks = rw (find, got) (ground arith)

    find_pass :
        (f : ℕ) (st st₁ st₂ : Status R) (sr : Statusrec) (l : Option Bytes) (out : Bytes)
        → status_rdraw w st ≡ done (some (sr, l), st₁)
        → not_below (statusrec_cmp sr.sr_type sr.sr_file sr_checkoutlive key) ≡ false
        → st₁.wr ≡ some out
        → status_wrraw w st₁ sr l ≡ done (true, st₂)
        → find w (suc f) sr_checkoutlive key false st ≡ find w f sr_checkoutlive key false st₂
    unfolding find
    find_pass f st st₁ st₂ sr l out got below writes wrote = rw (find, got) (ground arith)

    find_here :
        (e : Entry) (after : List Entry) (f : ℕ) (st : Status R) (here out : Bytes)
        → IsFound e
        → Ready w st here (e ∷ after) out
        → Located after out (find w (suc f) sr_checkoutlive key false st)
    find_here e after f st here out k g =
        let (rd, got, more) = rdraw_lem w st here e after out g in
        record {
          state = record (advanced w st rd e) { previous = some k.sr; current = true };
          entry = k.sr;
          at =
              find_stop f st (advanced w st rd e) (raw e.kind (name e)) k.sr (tail e) got k.equal
                k.cooks;
          here = here;
          left = passed st here e after out rd k.sr k.is_file k.cooks g more;
        }

    pub find_lem :
        (before : List Entry) (e : Entry) (after : List Entry) (f : ℕ) (st : Status R)
        (here out : Bytes)
        → IsWritten w
        → length before < f
        → All IsBefore before
        → IsFound e
        → Ready w st here (before ++ (e ∷ after)) out
        → Located after (out ++ printed w before) (find w f sr_checkoutlive key false st)
    find_lem before e after zero st here out ok h b k g = absurd (omega arith)
    find_lem [] e after (suc f) st here out ok h b k g =
        subst (λ o. Located after o (find w (suc f) sr_checkoutlive key false st))
          (sym (append-nil out)) (find_here e after f st here out k g)
    find_lem (d ∷ before) e after (suc f) st here out ok h b k g =
        let (rd, got, more) = rdraw_lem w st here d (before ++ (e ∷ after)) out g in
        let (pc, wrote, g') = wrraw_lem w st here d (before ++ (e ∷ after)) out rd ok g more in
        let one : Bytes = line d ++ (newline ∷ []) in
        let r =
          find_lem before e after f (copied w st rd d pc out) (next_dir d d.kind here) (out ++ one)
            ok (omega (arith, h)) b.1 k g' in
        record {
          state = r.state;
          entry = r.entry;
          at =
              find_pass f st (advanced w st rd d) (copied w st rd d pc out) (raw d.kind (name d))
                (tail d) out got b.0 g.writes wrote
              ∙ r.at;
          here = r.here;
          left =
              subst (λ o. Ready w (record r.state { current = false; dirty = true }) r.here after o)
                (append_assoc out one (printed w before)) r.left;
        }
