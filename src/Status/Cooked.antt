-- ===== src/Status/Cooked.antt =====
-- status.c: the rest of a record's line is read; its type and its name stay.
use csup.Status.Reading.{cook_as, statusrec_cook, decode, last_token, client_only}
use csup.Prelude.{◌≡◌, refl, arith, Bytes, Option, none, some}
use csup.Prelude.Run.{Run, done, abort, out_of_fuel, ◌>>=◌}
use csup.Fattr.{Fattr}
use csup.Fattr.Text.{fattr_decode}
use csup.Status.{
  SrType, sr_dirdown, sr_checkoutlive, sr_checkoutdead, sr_filelive, sr_filedead, sr_dirup,
  Statusrec, World, unless_missing,
}
use csup.Proto.Tokens.{proto_get_ascii}

-- If a record comes out, it has the type and the name of `sr`.
abbrev Keeps : Statusrec → Run (Option Statusrec) → Type 0
Keeps sr m =
    (sr' : Statusrec)
    → m ≡ done (some sr')
    → (sr'.sr_type ≡ sr.sr_type) × (sr'.sr_file ≡ sr.sr_file)

Keeps-missing :
    {A : Type 0} (sr : Statusrec) (o : Option A) (f : A → Run (Option Statusrec))
    → ((a : A) → Keeps sr (f a))
    → Keeps sr (unless_missing o f)
Keeps-missing sr none f h sr' e = absurd (cc)
Keeps-missing sr (some a) f h sr' e = h a sr' e

Keeps-bind :
    {A : Type 0} (sr : Statusrec) (m : Run A) (f : A → Run (Option Statusrec))
    → ((a : A) → Keeps sr (f a))
    → Keeps sr (m >>= f)
Keeps-bind sr (done a) f h sr' e = h a sr' e
Keeps-bind sr abort f h sr' e = absurd (cc)
Keeps-bind sr out_of_fuel f h sr' e = absurd (cc)

Keeps-done :
    (sr sr₁ : Statusrec)
    → sr₁.sr_type ≡ sr.sr_type
    → sr₁.sr_file ≡ sr.sr_file
    → Keeps sr (done (some sr₁))
Keeps-done sr sr₁ t f sr' e = ground arith

module _ {R : Type 0} (w : World R) (sr : Statusrec) where
  Keeps-decode :
      (s : Option Bytes) (f : Fattr → Run (Option Statusrec))
      → ((fa : Fattr) → Keeps sr (f fa))
      → Keeps sr (decode w s f)
  Keeps-decode none f h = λ sr' e. absurd (cc)
  Keeps-decode (some s) f h =
      Keeps-bind sr (fattr_decode w.uid_of w.gid_of s) _ (λ fa. Keeps-missing sr fa f h)

  Keeps-last :
      (got : Option Bytes × Option Bytes) (f : Bytes → Run (Option Statusrec))
      → ((t : Bytes) → Keeps sr (f t))
      → Keeps sr (last_token w got f)
  Keeps-last (none, rest) f h sr' e = absurd (cc)
  Keeps-last (some t, none) f h sr' e = h t sr' e
  Keeps-last (some t, some r) f h sr' e = absurd (cc)

  Keeps-client : (line : Option Bytes) → Keeps sr (client_only w sr line)
  Keeps-client line = Keeps-last (proto_get_ascii line) _ (λ t.
      Keeps-decode (some t) _
        (λ fa. Keeps-done sr (record sr { sr_clientattr = some fa }) refl refl))

  Keeps-cook : (type : SrType) (line : Option Bytes) → Keeps sr (cook_as w type sr line)
  unfolding cook_as
  Keeps-cook sr_dirdown none = λ sr' e. ground (arith, e)
  Keeps-cook sr_dirdown (some l) = λ sr' e. absurd (cc)
  Keeps-cook sr_checkoutlive line =
      let tag = proto_get_ascii line in
      let date = proto_get_ascii tag.1 in
      let server = proto_get_ascii date.1 in
      let revnum = proto_get_ascii server.1 in
      let revdate = proto_get_ascii revnum.1 in
      Keeps-last (proto_get_ascii revdate.1) _ (λ t. Keeps-decode server.0 _ (λ sa.
        Keeps-decode (some t) _ (λ ca.
          let cooked : Statusrec = record sr {
            sr_tag = tag.0;
            sr_date = date.0;
            sr_revnum = revnum.0;
            sr_revdate = revdate.0;
            sr_serverattr = some sa;
            sr_clientattr = some ca;
          } in
          Keeps-done sr cooked refl refl)))
  Keeps-cook sr_checkoutdead line =
      let tag = proto_get_ascii line in
      let date = proto_get_ascii tag.1 in
      Keeps-last (proto_get_ascii date.1) _ (λ t. Keeps-decode (some t) _ (λ sa.
        let cooked : Statusrec = record sr {
          sr_tag = tag.0;
          sr_date = date.0;
          sr_serverattr = some sa;
        } in
        Keeps-done sr cooked refl refl))
  Keeps-cook sr_filelive line = Keeps-client line
  Keeps-cook sr_filedead line = Keeps-client line
  Keeps-cook sr_dirup line = Keeps-client line

  pub statusrec_cook-Keeps :
      (line : Option Bytes) (sr' : Statusrec)
      → statusrec_cook w sr line ≡ done (some sr')
      → (sr'.sr_type ≡ sr.sr_type) × (sr'.sr_file ≡ sr.sr_file)
  unfolding statusrec_cook
  statusrec_cook-Keeps line = Keeps-cook sr.sr_type line
