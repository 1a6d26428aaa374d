-- ===== src/Keyword/Values.antt =====
-- keyword.c, tag_expand(): values without dollars in them.
use csup.Prelude.{refl, subst, ◌==◌, Bytes, All, [], ◌∷◌, ◌++◌, Option-cases, Bool-cases, inl, inr}
use csup.Prelude.Run.{}
use csup.Keyword.{
  Rcskey, author, cvsheader, date, header, id, locker, log, name, rcsfile, revision, source, state,
}
use csup.Keyword.Tags.{blank, ◌⟨␣⟩◌, Diffinfo, behind_last_slash, rcsfile_name, tag_value}
use csup.Keyword.Expand.{or_empty}
use csup.Keyword.Scan.{NoDollar, NoDollar-append}

-- The texts that make up the values have no dollar in them.
pub record Plain (di : Diffinfo) : Type 0 where
  pub plain_rcsfile : All NoDollar (di.di_rcsfile)
  pub plain_cvsroot : All NoDollar (di.di_cvsroot)
  pub plain_revnum : All NoDollar (di.di_revnum)
  pub plain_author : All NoDollar (di.di_author)
  pub plain_tag : All NoDollar (or_empty (di.di_tag))
  pub plain_state : All NoDollar (di.di_state)

NoDollar-behind_last_slash :
    (s : Bytes) → All NoDollar s → All NoDollar (or_empty (behind_last_slash s))
unfolding behind_last_slash
NoDollar-behind_last_slash [] h = tt
NoDollar-behind_last_slash (c ∷ s) h =
    let ih = NoDollar-behind_last_slash s h.1 in
    elim (Option-cases (behind_last_slash s)) [
      | inl e ↦ elim (Bool-cases (c == b'/')) [
        | inl slash ↦ rw (e, slash) h.1
        | inr other ↦ rw (e, other) tt
      ]
      | inr (file, e) ↦ rw e (subst (λ o. All NoDollar (or_empty o)) e ih)
    ]

NoDollar-rcsfile_name : (s : Bytes) → All NoDollar s → All NoDollar (rcsfile_name s)
unfolding rcsfile_name
NoDollar-rcsfile_name s h = elim (Option-cases (behind_last_slash s)) [
  | inl e ↦ rw (rcsfile_name, e) h
  | inr (file, e) ↦
      rw (rcsfile_name, e)
        (subst (λ o. All NoDollar (or_empty o)) e (NoDollar-behind_last_slash s h))
]

NoDollar-words : (a b : Bytes) → All NoDollar a → All NoDollar b → All NoDollar (a ⟨␣⟩ b)
NoDollar-words a b ha hb = NoDollar-append a (blank ∷ b) ha (refl, hb)

NoDollar-path : (a b : Bytes) → All NoDollar a → All NoDollar b → All NoDollar (a ++ (b'/' ∷ b))
NoDollar-path a b ha hb = NoDollar-append a (b'/' ∷ b) ha (refl, hb)

-- A file, a revision, a date, an author and a state.
NoDollar-header :
    (di : Diffinfo) (file text : Bytes)
    → Plain di
    → All NoDollar file
    → All NoDollar text
    → All NoDollar (file ⟨␣⟩ di.di_revnum ⟨␣⟩ text ⟨␣⟩ di.di_author ⟨␣⟩ di.di_state)
NoDollar-header di file text p hf ht = NoDollar-words _ _ hf (
    NoDollar-words _ _ (p.plain_revnum)
      (NoDollar-words _ _ ht (NoDollar-words _ _ (p.plain_author) (p.plain_state))))

pub NoDollar-tag_value :
    (key : Rcskey) (di : Diffinfo) (text : Bytes)
    → Plain di
    → All NoDollar text
    → All NoDollar (or_empty (tag_value key di text))
unfolding tag_value
NoDollar-tag_value author di text p ht = p.plain_author
NoDollar-tag_value cvsheader di text p ht = NoDollar-header di _ text p (p.plain_rcsfile) ht
NoDollar-tag_value date di text p ht = ht
NoDollar-tag_value header di text p ht =
    NoDollar-header di _ text p (NoDollar-path _ _ (p.plain_cvsroot) (p.plain_rcsfile)) ht
NoDollar-tag_value id di text p ht =
    NoDollar-header di _ text p (NoDollar-rcsfile_name (di.di_rcsfile) (p.plain_rcsfile)) ht
NoDollar-tag_value locker di text p ht = tt
NoDollar-tag_value log di text p ht = tt
NoDollar-tag_value name di text p ht = p.plain_tag
NoDollar-tag_value rcsfile di text p ht = NoDollar-rcsfile_name (di.di_rcsfile) (p.plain_rcsfile)
NoDollar-tag_value revision di text p ht = p.plain_revnum
NoDollar-tag_value source di text p ht = NoDollar-path _ _ (p.plain_cvsroot) (p.plain_rcsfile)
NoDollar-tag_value state di text p ht = p.plain_state
