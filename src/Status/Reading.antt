-- ===== src/Status/Reading.antt =====
-- status.c: how the records of the status file are read.
use csup.Prelude.{
  ℕ, ◌+◌, ◌-◌, Bool, true, false, ◌==◌, ◌&&◌, ◌||◌, if◌then◌else◌, Bytes, [], ◌∷◌, Option, none,
  some,
}
use csup.Prelude.Run.{Run, done, abort, ◌>>=◌}
use csup.Prelude.Int.{ℤ, pos, negsuc}
use csup.Fattr.{Fattr, same_bytes}
use csup.Fattr.Text.{fattr_decode}
use csup.Proto.Tokens.{proto_get_ascii, proto_get_char, proto_get_int, proto_get_time}
use csup.Status.{
  SrType, sr_dirdown, sr_checkoutlive, sr_checkoutdead, sr_filelive, sr_filedead, sr_dirup,
  Statusrec, raw, StatusError, err_read, err_parse, err_unsorted, err_trunc, err_bogus_dirup,
  err_bad_type, World, Status, status_new, statusrec_cmp, not_below, at_end, unless_missing,
}

abbrev pub type_of_cmd : ℕ → Option SrType
type_of_cmd c =
    if c == b'A' || c == b'V'
    then some sr_filelive
    else if c == b'D'
    then some sr_dirdown
    else if c == b'C'
    then some sr_checkoutlive
    else if c == b'c'
    then some sr_checkoutdead
    else if c == b'U'
    then some sr_dirup
    else if c == b'v'
    then some sr_filedead
    else none

abbrev pub unsorted : Option Statusrec → SrType → Bytes → Bool
unsorted none type file = false
unsorted (some p) type file = not_below (statusrec_cmp p.sr_type p.sr_file type file)

abbrev pub is_int : ℕ → ℤ → Bool
is_int n (pos m) = m == n
is_int n (negsuc m) = false

-- strcmp() of a null pointer does not return.
abbrev pub header_id : Option Bytes → ℤ → Run Bool
header_id none ver = abort
header_id (some id) ver = done (same_bytes id (b'F' ∷ []) && is_int 5 ver)

module _ {R : Type 0} (w : World R) where
  -- A null pointer must not be decoded.
  abbrev pub decode : Option Bytes → (Fattr → Run (Option Statusrec)) → Run (Option Statusrec)
  decode none f = abort
  decode (some s) f = fattr_decode w.uid_of w.gid_of s >>= λ fa. unless_missing fa f

  -- A last token that is there, with nothing behind it.
  abbrev pub last_token :
      Option Bytes × Option Bytes → (Bytes → Run (Option Statusrec)) → Run (Option Statusrec)
  last_token (token, rest) f = unless_missing token (λ t. if at_end rest then f t else done none)

  abbrev pub client_only : Statusrec → Option Bytes → Run (Option Statusrec)
  client_only sr line =
      last_token (proto_get_ascii line)
        λ t. decode (some t) λ fa. done (some (record sr { sr_clientattr = some fa }))

  -- `none` is -1, after which the record is not used.
  unfoldable pub cook_as : SrType → Statusrec → Option Bytes → Run (Option Statusrec)
  cook_as sr_filelive sr line = client_only sr line
  cook_as sr_filedead sr line = client_only sr line
  cook_as sr_dirup sr line = client_only sr line
  cook_as sr_dirdown sr line = done (if at_end line then some sr else none)
  cook_as sr_checkoutlive sr line =
      let (tag, line1) = proto_get_ascii line in
      let (date, line2) = proto_get_ascii line1 in
      let (server, line3) = proto_get_ascii line2 in
      let (revnum, line4) = proto_get_ascii line3 in
      let (revdate, line5) = proto_get_ascii line4 in
      last_token (proto_get_ascii line5) λ t. decode server λ sa. decode (some t) λ ca. done (
        some (record sr {
          sr_tag = tag;
          sr_date = date;
          sr_revnum = revnum;
          sr_revdate = revdate;
          sr_serverattr = some sa;
          sr_clientattr = some ca;
        }))
  cook_as sr_checkoutdead sr line =
      let (tag, line1) = proto_get_ascii line in
      let (date, line2) = proto_get_ascii line1 in
      last_token (proto_get_ascii line2) λ t.
        decode (some t)
          λ sa. done (some (record sr { sr_tag = tag; sr_date = date; sr_serverattr = some sa }))

  unfoldable pub statusrec_cook : Statusrec → Option Bytes → Run (Option Statusrec)
  unfolding cook_as
  statusrec_cook sr line = cook_as sr.sr_type sr line

  -- The record that is read, and what is left of its line; `none` is a null pointer.
  abbrev pub Raw : Type 0
  Raw = Option (Statusrec × Option Bytes) × Status R

  abbrev pub fails : Status R → StatusError → Raw
  fails st e = (none, record st { error = some e })

  abbrev pub no_line : Status R → Bool → Raw
  no_line st ended =
      if ended
      then if st.depth == 0 then (none, record st { eof = true }) else fails st err_trunc
      else fails st err_read

  -- With the depth that the entry leads to.
  abbrev pub sorted_entry : Status R → SrType → Bytes → Option Bytes → Raw
  sorted_entry st type file rest =
      if unsorted st.previous type file
      then fails st err_unsorted
      else (some (raw type file, rest), record st { previous = some (raw type file) })

  unfoldable pub entry : Status R → SrType → Bytes → Option Bytes → Raw
  entry st sr_dirdown file rest =
      sorted_entry (record st { depth = st.depth + 1 }) sr_dirdown file rest
  entry st sr_dirup file rest =
      if st.depth == 0
      then fails st err_bogus_dirup
      else sorted_entry (record st { depth = st.depth - 1 }) sr_dirup file rest
  entry st type file rest = sorted_entry st type file rest

  abbrev pub typed_entry : Status R → Option ℕ → Bytes → Option Bytes → Raw
  typed_entry st none file rest = fails st (err_bad_type none)
  typed_entry st (some c) file rest = elim (type_of_cmd c) [
    | none ↦ fails st (err_bad_type (some c))
    | some type ↦ entry st type file rest
  ]

  unfoldable pub read_line : Status R → Bytes → Run Raw
  unfolding entry
  read_line st line = proto_get_char (some line) >>= λ (cmd, rest).
      let (file, rest') = proto_get_ascii rest in
      done (elim file [ none ↦ fails st err_parse | some f ↦ typed_entry st cmd f rest' ])

  unfoldable pub status_rdraw : Status R → Run Raw
  unfolding read_line
  status_rdraw st = elim st.rd [
    | none ↦ done (none, st)
    | some rd ↦
        if st.eof
        then done (none, st)
        else (w.getln rd >>= λ (line, rd'). elim line [
          | none ↦ done (no_line (record st { rd = some rd' }) (w.at_eof rd'))
          | some l ↦ read_line (record st { rd = some rd'; linenum = st.linenum + 1 }) l
        ])
  ]

  -- `*psr`, `none` if there is none.
  abbrev pub Rec : Type 0
  Rec = Option Statusrec × Status R

  unfoldable pub cooked : Raw → Run Rec
  unfolding statusrec_cook
  cooked (none, st) = done (none, st)
  cooked (some (sr, line), st) = statusrec_cook sr line >>= λ c. done (elim c [
    | none ↦ (none, record st { error = some err_parse })
    | some sr' ↦ (some sr', record st { previous = some sr' })
  ])

  unfoldable pub status_rd : Status R → Run Rec
  unfolding status_rdraw cooked
  status_rd st = status_rdraw st >>= cooked

  -- The first line; STATUS_VERSION is 5. `none`: the file is not taken.
  unfoldable pub status_fromrd : ℕ → R → Run (Option (Status R))
  unfolding status_new
  status_fromrd memory rd = w.getln rd >>= λ (line, rd'). unless_missing line λ l.
      let (id, line1) = proto_get_ascii (some l) in
      let (ver, line2) = proto_get_int line1 10 in
      let (time, line3) = proto_get_time line2 in
      unless_missing ver λ v. unless_missing time λ t.
        if at_end line3
        then (header_id id v >>= λ ok.
            done
              (if ok then some (record (status_new memory t (some rd')) { linenum = 1 }) else none))
        else done none

  -- No file: a scan time of -1.
  unfoldable pub status_fromnull : ℕ → Status R
  unfolding status_new
  status_fromnull memory = record (status_new memory (negsuc 0) none) { eof = true }
