-- ===== src/Status/Canonical.antt =====
-- status.c: entries in the form that status_wr() gives them, and what their lines are read as.
use csup.Status.Reading.{statusrec_cook, cook_as}
use csup.Status.Entries.{Entry, name, tail, get_name}
use csup.Prelude.{
  ◌≡◌, ◌≢◌, refl, ◌∙◌, ap, Bytes, List, [], ◌∷◌, ◌++◌, Option, none, some, append_assoc,
}
use csup.Prelude.Run.{done}
use csup.Fattr.{Fattr, no_attrs}
use csup.Fattr.Text.{fattr_decode, fattr_encode}
use csup.Proto.Escape.{space, proto_escape}
use csup.Proto.Lines.{continued}
use csup.Proto.Tokens.{proto_get_ascii}
use csup.Status.{
  SrType, sr_dirdown, sr_checkoutlive, sr_checkoutdead, sr_filelive, sr_filedead, sr_dirup,
  Statusrec, raw, World,
}
use csup.Stream.Reading.{newline}

-- The fields behind the name, as they stand in a line.
abbrev pub fields : List Bytes → Option Bytes
fields [] = none
fields (f ∷ fs) = some (continued (proto_escape f) (fields fs))

-- What follows the name as proto_printf() writes it.
abbrev pub spaced : List Bytes → Bytes
spaced [] = newline ∷ []
spaced (f ∷ fs) = space ∷ (proto_escape f ++ spaced fs)

pub spaced-fields :
    (s : Bytes) (fs : List Bytes) → continued s (fields fs) ++ (newline ∷ []) ≡ s ++ spaced fs
spaced-fields s [] = refl
spaced-fields s (f ∷ fs) =
    append_assoc s (space ∷ continued (proto_escape f) (fields fs)) (newline ∷ [])
    ∙ ap (λ t. s ++ (space ∷ t)) (spaced-fields (proto_escape f) fs)

module _ {R : Type 0} (w : World R) where
  -- The text of attributes that is read as these and written as it is.
  pub record IsText (text : Bytes) (fa : Fattr) : Type 0 where
    pub some_text : text ≢ []
    pub decodes : fattr_decode w.uid_of w.gid_of text ≡ done (some fa)
    pub encodes : fattr_encode w.user_of w.group_of fa none no_attrs ≡ done text

  abbrev pub with_attr : SrType → Bytes → Fattr → Statusrec
  with_attr kind n fa = record (raw kind n) { sr_clientattr = some fa }

  -- The fields of a record of each type.
  pub data IsRecord (n : Bytes) : SrType → List Bytes → Statusrec → Type 0 where
    dir_down : IsRecord n sr_dirdown [] (raw sr_dirdown n)
    dir_up :
        (t : Bytes) (fa : Fattr)
        → IsText t fa
        → IsRecord n sr_dirup (t ∷ []) (with_attr sr_dirup n fa)
    file_live :
        (t : Bytes) (fa : Fattr)
        → IsText t fa
        → IsRecord n sr_filelive (t ∷ []) (with_attr sr_filelive n fa)
    file_dead :
        (t : Bytes) (fa : Fattr)
        → IsText t fa
        → IsRecord n sr_filedead (t ∷ []) (with_attr sr_filedead n fa)
    checkout_live :
        (tag date s rev revdate t : Bytes) (sa fa : Fattr)
        → tag ≢ []
        → date ≢ []
        → rev ≢ []
        → revdate ≢ []
        → IsText s sa
        → IsText t fa
        → IsRecord n sr_checkoutlive
            (tag ∷ date ∷ s ∷ rev ∷ revdate ∷ t ∷ [])
            (record (raw sr_checkoutlive n) {
              sr_tag = some tag;
              sr_date = some date;
              sr_revnum = some rev;
              sr_revdate = some revdate;
              sr_serverattr = some sa;
              sr_clientattr = some fa;
            })
    checkout_dead :
        (tag date s : Bytes) (sa : Fattr)
        → tag ≢ []
        → date ≢ []
        → IsText s sa
        → IsRecord n sr_checkoutdead (tag ∷ date ∷ s ∷ []) (record (raw sr_checkoutdead n) {
          sr_tag = some tag;
          sr_date = some date;
          sr_serverattr = some sa;
        })

  got :
      (f : Bytes) (fs : List Bytes)
      → f ≢ []
      → proto_get_ascii (fields (f ∷ fs)) ≡ (some f, fields fs)
  got f fs ne = get_name f (fields fs) ne

  pub IsRecord-cook :
      (n : Bytes) (kind : SrType) (fs : List Bytes) (sr : Statusrec)
      → IsRecord n kind fs sr
      → statusrec_cook w (raw kind n) (fields fs) ≡ done (some sr)
  unfolding statusrec_cook cook_as
  IsRecord-cook n _ _ _ dir_down = refl
  IsRecord-cook n _ _ _ (dir_up t fa a) =
      let decodes = a.decodes in rw (statusrec_cook, cook_as, got t [] a.some_text, decodes) refl
  IsRecord-cook n _ _ _ (file_live t fa a) =
      let decodes = a.decodes in rw (statusrec_cook, cook_as, got t [] a.some_text, decodes) refl
  IsRecord-cook n _ _ _ (file_dead t fa a) =
      let decodes = a.decodes in rw (statusrec_cook, cook_as, got t [] a.some_text, decodes) refl
  IsRecord-cook n _ _ _ (checkout_live tag date s rev revdate t sa fa h₁ h₂ h₃ h₄ a b) =
      let server = a.decodes in
      let client = b.decodes in
      rw
        (
          statusrec_cook,
          cook_as,
          got tag (date ∷ s ∷ rev ∷ revdate ∷ t ∷ []) h₁,
          got date (s ∷ rev ∷ revdate ∷ t ∷ []) h₂,
          got s (rev ∷ revdate ∷ t ∷ []) a.some_text,
          got rev (revdate ∷ t ∷ []) h₃,
          got revdate (t ∷ []) h₄,
          got t [] b.some_text,
          server,
          client,
        )
        refl
  IsRecord-cook n _ _ _ (checkout_dead tag date s sa h₁ h₂ a) =
      let server = a.decodes in
      rw
        (
          statusrec_cook,
          cook_as,
          got tag (date ∷ s ∷ []) h₁,
          got date (s ∷ []) h₂,
          got s [] a.some_text,
          server,
        )
        refl

  -- An entry whose line is what status_wr() makes of its record.
  pub record IsCanonical (e : Entry) : Type 0 where
    pub behind : List Bytes
    pub sr : Statusrec
    pub is_record : IsRecord (name e) e.kind behind sr
    pub as_fields : tail e ≡ fields behind

  pub first_cooks :
      (e : Entry) (c : IsCanonical e)
      → statusrec_cook w (raw e.kind (name e)) (tail e) ≡ done (some c.sr)
  first_cooks e c =
      ap (λ t. statusrec_cook w (raw e.kind (name e)) t) c.as_fields
      ∙ IsRecord-cook (name e) e.kind c.behind c.sr c.is_record
