-- ===== src/Status/Writing.antt =====
-- status.c: how records are written, and copied as they were read. The loop over the answers of
-- pathcomp_get() runs on fuel.
use csup.Prelude.{
  ℕ, zero, suc, ◌+◌, Bool, true, false, if◌then◌else◌, Bytes, List, [], ◌∷◌, ◌++◌, length, Option,
  none, some,
}
use csup.Prelude.Run.{Run, done, abort, out_of_fuel, ◌>>=◌}
use csup.Prelude.Int.{pos}
use csup.Fattr.{Fattr, Mask, modtime, size, mode, cleared}
use csup.Pathcomp.{Pathcomp, PcType, dirdown, file, dirup, pathcomp_put, pathcomp_get}
use csup.Proto.Tokens.{Arg, string_arg, char_arg, fattr_arg, proto_printf}
use csup.Status.{
  SrType, sr_dirdown, sr_checkoutlive, sr_checkoutdead, sr_filelive, sr_filedead, sr_dirup,
  Statusrec, err_write, World, Status, is_dirup,
}

-- FA_MODTIME | FA_SIZE | FA_MODE
abbrev bogus_mask : Mask
bogus_mask modtime = true
bogus_mask size = true
bogus_mask mode = true
bogus_mask _ = false

abbrev pub fattr_bogus : Fattr
fattr_bogus = record cleared { mask = bogus_mask; modtime_of = pos 1 }

-- A null pointer must not be printed.
abbrev pub need {ℓ κ} : {A : Type ℓ} {B : Type κ} → Option A → (A → Run B) → Run B
need none f = abort
need (some a) f = f a

abbrev pub pc_type : SrType → PcType
pc_type sr_dirdown = dirdown
pc_type sr_dirup = dirup
pc_type _ = file

abbrev pub cmd_of : SrType → ℕ
cmd_of sr_dirdown = b'D'
cmd_of sr_dirup = b'U'
cmd_of sr_checkoutlive = b'C'
cmd_of sr_checkoutdead = b'c'
cmd_of sr_filelive = b'V'
cmd_of sr_filedead = b'v'

abbrev pub is_dir : SrType → Bool
is_dir sr_dirdown = true
is_dir sr_dirup = true
is_dir _ = false

-- The formats: a character and conversions, with a space before each but the first, and a newline.
abbrev pub format : ℕ → Bytes → Bytes
format c [] = c ∷ b'\n' ∷ []
format c (d ∷ ds) = c ∷ b' ' ∷ b'%' ∷ format d ds

abbrev pub raw_format : ℕ → Bytes → Bytes
raw_format c ds = b'%' ∷ format c ds

abbrev same_type : PcType → SrType → Bool
same_type dirdown sr_dirdown = true
same_type dirup sr_dirup = true
same_type _ _ = false

-- pathcomp_get() for a directory that is entered or left.
unfoldable pub take_event : SrType → Pathcomp → Run Pathcomp
take_event type pc =
    if is_dir type
    then (pathcomp_get pc >>= λ (event, pc'). elim event [
      | none ↦ abort
      | some (t, name) ↦ if same_type t type then done pc' else abort
    ])
    else done pc

-- pathcomp_get() must not answer once more.
unfoldable pub no_event : Pathcomp → Run Pathcomp
no_event pc = pathcomp_get pc >>= λ (event, pc'). elim event [ none ↦ done pc' | some e ↦ abort ]

unfoldable pub keep_in_sync : Pathcomp → Statusrec → Run Pathcomp
unfolding take_event no_event
keep_in_sync pc sr = pathcomp_put pc (pc_type sr.sr_type) sr.sr_file >>= λ (ok, put).
    take_event sr.sr_type put >>= no_event

-- The next step, if the one before has not failed.
abbrev pub Done : Type 0 → Type 0
Done R = Run (Bool × Status R)

infixl 5 ◌then_do◌
abbrev pub ◌then_do◌ : {R : Type 0} → Done R → (Status R → Done R) → Done R
m then_do f = m >>= λ (ok, st). if ok then f st else done (false, st)

module _ {R : Type 0} (w : World R) where
  -- proto_printf() into the file that is written, and the error if it fails. There must be one.
  unfoldable pub emit : Status R → Bytes → List Arg → Done R
  emit st fmt args = need st.wr λ out. proto_printf w.user_of w.group_of fmt args >>= λ line.
      done (elim (w.refused out line) [
        | none ↦ (true, record st { wr = some (out ++ line) })
        | some part ↦ (false, record st { wr = some (out ++ part); error = some err_write })
      ])

  abbrev pub emit_up : Status R → Bytes → Option Fattr → Done R
  emit_up st name fa =
      need fa λ a. emit st (format b'U' (b's' ∷ b'a' ∷ [])) (string_arg name ∷ fattr_arg a ∷ [])

  -- The directories on the way; the first that is left gets the attributes that are given, if any.
  unfoldable pub wr_dirs : ℕ → Option (Option Fattr) → Status R → Done R
  unfolding emit
  wr_dirs zero up st = out_of_fuel
  wr_dirs (suc f) up st = pathcomp_get st.pc >>= λ (event, pc).
      let st' : Status R = record st { pc = pc } in
      elim event [
        | none ↦ done (true, st')
        | some (file, name) ↦ wr_dirs f up st'
        | some (dirdown, name) ↦
            emit st' (format b'D' (b's' ∷ [])) (string_arg name ∷ []) then_do wr_dirs f up
        | some (dirup, name) ↦
            emit_up st' name (elim up [ none ↦ some fattr_bogus | some fa ↦ fa ])
            then_do wr_dirs f none
      ]

  -- The record itself; a directory's was written on the way.
  unfoldable pub wr_record : Statusrec → Status R → Done R
  unfolding emit
  wr_record sr st = elim sr.sr_type [
    | sr_dirdown ↦ done (true, st)
    | sr_dirup ↦ done (true, st)
    | sr_checkoutlive ↦ need sr.sr_tag λ tag. need sr.sr_date λ date. need sr.sr_serverattr λ sa.
        need sr.sr_revnum λ rev. need sr.sr_revdate λ revdate. need sr.sr_clientattr λ ca.
          emit st (format b'C' (b's' ∷ b's' ∷ b's' ∷ b'a' ∷ b's' ∷ b's' ∷ b'a' ∷ [])) (
            string_arg sr.sr_file
            ∷ string_arg tag
            ∷ string_arg date
            ∷ fattr_arg sa
            ∷ string_arg rev
            ∷ string_arg revdate
            ∷ fattr_arg ca
            ∷ [])
    | sr_checkoutdead ↦ need sr.sr_tag λ tag. need sr.sr_date λ date. need sr.sr_serverattr λ sa.
        emit st (format b'c' (b's' ∷ b's' ∷ b's' ∷ b'a' ∷ []))
          (string_arg sr.sr_file ∷ string_arg tag ∷ string_arg date ∷ fattr_arg sa ∷ [])
    | sr_filelive ↦
        need sr.sr_clientattr
          λ ca. emit st (format b'V' (b's' ∷ b'a' ∷ [])) (string_arg sr.sr_file ∷ fattr_arg ca ∷ [])
    | sr_filedead ↦
        need sr.sr_clientattr
          λ ca. emit st (format b'v' (b's' ∷ b'a' ∷ [])) (string_arg sr.sr_file ∷ fattr_arg ca ∷ [])
  ]

  -- What pathcomp_put() answers is not tested.
  unfoldable pub status_wr : Status R → Statusrec → Done R
  unfolding wr_dirs wr_record
  status_wr st sr = pathcomp_put st.pc (pc_type sr.sr_type) sr.sr_file >>= λ (ok, pc).
      wr_dirs (suc (pc.curlen + length sr.sr_file))
        (if is_dirup sr.sr_type then some sr.sr_clientattr else none) (record st { pc = pc })
      then_do wr_record sr

  -- The line is written as it was read, the name of a directory without escapes.
  unfoldable pub wr_raw : Status R → Statusrec → Option Bytes → Done R
  unfolding emit
  wr_raw st sr line = elim sr.sr_type [
    | sr_dirdown ↦
        emit st (raw_format b'c' (b'S' ∷ [])) (char_arg b'D' ∷ string_arg sr.sr_file ∷ [])
    | type ↦ need line λ l.
        emit st (raw_format b'c' (b's' ∷ b'S' ∷ []))
          (char_arg (cmd_of type) ∷ string_arg sr.sr_file ∷ string_arg l ∷ [])
  ]

  unfoldable pub status_wrraw : Status R → Statusrec → Option Bytes → Done R
  unfolding keep_in_sync wr_raw
  status_wrraw st sr line = elim st.wr [
    | none ↦ done (true, st)
    | some out ↦ keep_in_sync st.pc sr >>= λ pc. wr_raw (record st { pc = pc }) sr line
  ]
