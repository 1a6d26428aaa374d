-- ===== src/Keyword/SameKey.antt =====
-- keyword.c, keyword_expand(): what is written in place of a segment has the segment's key.
use csup.Prelude.{
  leb, length, ◌||◌, ◌≡◌, ◌≢◌, refl, sym, ap, subst, ◌∙◌, ◌==◌, Bytes, All, [], ◌∷◌, ◌++◌, none,
  some, append_assoc, Option-cases, Bool-cases, inl, inr,
}
use csup.Prelude.Run.{
  Run, done, abort, out_of_fuel, ◌>>=◌, outcome, is_done, is_abort, is_out_of_fuel,
}
use csup.Keyword.{
  Rcskey, Keyword, Tag, ExpandMode, default, keyvalue, keyvaluelocker, key_only, old, binary,
  value_only,
}
use csup.Keyword.Tags.{
  dollar, colon, blank, Diffinfo, Strptime, Strftime, tag_value, cvsdate, tag_expand, cvs_format,
  rcsdatetotm,
}
use csup.Keyword.Expand.{replacement, expansion, tag_between, tag_of_key, before_colon, or_empty}
use csup.Keyword.Scan.{NoDollar, NoDollar-append, NoDollar-before_colon, before_colon_again}
use csup.Keyword.Values.{Plain, NoDollar-tag_value}
use csup.Keyword.Rewriting.{replaced}

-- The modes in which keywords are expanded and stay recognisable.
abbrev pub KeepsKeys : ExpandMode → Type 0
KeepsKeys value_only = ⊥
KeepsKeys old = ⊥
KeepsKeys binary = ⊥
KeepsKeys _ = Unit

abbrev pub collapsing : Diffinfo → Diffinfo
collapsing di = record di { di_expand = key_only }

-- A text that is written between dollars in place of a segment, and has its key.
abbrev pub SameKey : Bytes → Bytes → Type 0
SameKey segment text =
    (w : Bytes) × (text ≡ dollar ∷ (w ++ (dollar ∷ [])))
    × All NoDollar w
    × (before_colon w ≡ before_colon segment)

abbrev line_of : Run Bytes → Bytes
line_of (done text) = text
line_of _ = []

before_colon-before_colon : (s : Bytes) → before_colon (before_colon s) ≡ before_colon s
unfolding before_colon
before_colon-before_colon [] = refl
before_colon-before_colon (c ∷ s) = elim (Bool-cases (c == colon)) [
  | inl e ↦ rw e refl
  | inr e ↦ rw (e, e) (ap (λ l. c ∷ l) (before_colon-before_colon s))
]

SameKey-value :
    (segment value : Bytes)
    → All NoDollar segment
    → All NoDollar value
    → SameKey segment
        (dollar ∷ (before_colon segment ++ (colon ∷ blank ∷ (value ++ (blank ∷ dollar ∷ [])))))
SameKey-value segment value hs hv =
    let key : Bytes = before_colon segment in
    (
      key ++ (colon ∷ blank ∷ (value ++ (blank ∷ []))),
      ap (λ l. dollar ∷ l)
          (sym (
            append_assoc key (colon ∷ blank ∷ (value ++ (blank ∷ []))) (dollar ∷ [])
            ∙ ap (λ l. key ++ (colon ∷ blank ∷ l))
                (append_assoc value (blank ∷ []) (dollar ∷ [])))),
      NoDollar-append key _ (NoDollar-before_colon segment hs)
          (refl, (refl, NoDollar-append value (blank ∷ []) hv (refl, tt))),
      before_colon_again segment _,
    )

done_some :
    (run : Run Bytes) (text : Bytes)
    → (run >>= λ t. done (some t)) ≡ done (some text)
    → run ≡ done text
done_some (done t) text h = cc
done_some abort text h = absurd (cc)
done_some out_of_fuel text h = absurd (cc)

not_none : (run : Run Bytes) → (run >>= λ t. done (some t)) ≢ done none
not_none (done t) h = cc
not_none abort h = cc
not_none out_of_fuel h = cc

tag_between-tag_of_key :
    (keyword : Keyword) (segment : Bytes)
    → tag_between keyword segment ≡ tag_of_key keyword (before_colon segment)
unfolding tag_between before_colon tag_of_key
tag_between-tag_of_key keyword [] = refl
tag_between-tag_of_key keyword (c ∷ s) = refl

-- Segments with one key have one tag.
tag_between_key :
    (keyword : Keyword) (w segment : Bytes) (tag : Tag)
    → before_colon w ≡ before_colon segment
    → tag_between keyword segment ≡ done (some tag)
    → tag_between keyword w ≡ done (some tag)
tag_between_key keyword w segment tag ew e =
    tag_between-tag_of_key keyword w
    ∙ ap (tag_of_key keyword) ew
    ∙ sym (tag_between-tag_of_key keyword segment)
    ∙ e

module _ {Tm : Type 0} (strptime : Strptime Tm) (strftime : Strftime Tm) where
  NoDollar-cvsdate :
      (revdate text : Bytes)
      → ((tm : Tm) → All NoDollar (strftime cvs_format tm))
      → cvsdate strptime strftime revdate ≡ done text
      → All NoDollar text
  unfolding cvsdate
  NoDollar-cvsdate revdate text dates h =
      elim (Option-cases (rcsdatetotm strptime strftime revdate)) [
        | inl e ↦ let k : abort ≡ done text = rw (cvsdate, e) at h in absurd (cc)
        | inr (tm, e) ↦
            let day : Bytes = strftime cvs_format tm in
            elim (Bool-cases (length day == 0 || leb 32 (length day))) [
              | inl bad ↦ let k : abort ≡ done text = rw (cvsdate, e, bad) at h in absurd (cc)
              | inr good ↦
                  let k : done day ≡ done text = rw (cvsdate, e, good) at h in
                  subst (All NoDollar) (ap line_of k) (dates tm)
            ]
      ]

  module _ (di : Diffinfo) (plain : Plain di)
      (dates : (tm : Tm) → All NoDollar (strftime cvs_format tm)) where
    SameKey-full :
        (segment text : Bytes) (key : Rcskey)
        → All NoDollar segment
        → (tag_expand strptime strftime key di >>= (λ newval. done (or_empty newval)) >>= (λ newval.
            done (
              dollar
              ∷ (before_colon segment ++ (colon ∷ blank ∷ (newval ++ (blank ∷ dollar ∷ [])))))))
          ≡ done text
        → SameKey segment text
    unfolding tag_expand
    SameKey-full segment text key hs h =
        elim (outcome (cvsdate strptime strftime (di.di_revdate))) [
          | is_done day e ↦
              let value : Bytes = or_empty (tag_value key di day) in
              let k : done (
                    dollar
                    ∷ (before_colon segment ++ (colon ∷ blank ∷ (value ++ (blank ∷ dollar ∷ [])))))
                  ≡ done text =
                rw (tag_expand, e) at h in
              subst (SameKey segment) (ap line_of k) (
                SameKey-value segment value hs
                  (NoDollar-tag_value key di day plain (NoDollar-cvsdate _ day dates e)))
          | is_abort e ↦ let k : abort ≡ done text = rw (tag_expand, e) at h in absurd (cc)
          | is_out_of_fuel e ↦
              let k : out_of_fuel ≡ done text = rw (tag_expand, e) at h in absurd (cc)
        ]

    SameKey-expansion :
        (mode : ExpandMode) (segment text : Bytes) (tag : Tag)
        → di.di_expand ≡ mode
        → KeepsKeys mode
        → All NoDollar segment
        → expansion strptime strftime di (before_colon segment) tag ≡ done text
        → SameKey segment text
    unfolding expansion
    SameKey-expansion default segment text tag e keeps hs h =
        SameKey-full segment text (tag.key) hs (rw (expansion, e) at h)
    SameKey-expansion keyvalue segment text tag e keeps hs h =
        SameKey-full segment text (tag.key) hs (rw (expansion, e) at h)
    SameKey-expansion keyvaluelocker segment text tag e keeps hs h =
        SameKey-full segment text (tag.key) hs (rw (expansion, e) at h)
    SameKey-expansion key_only segment text tag e keeps hs h =
        let k : done (dollar ∷ (before_colon segment ++ (dollar ∷ []))) ≡ done text =
          rw (expansion, e) at h in
        (
          before_colon segment,
          sym (ap line_of k),
          NoDollar-before_colon segment hs,
          before_colon-before_colon segment,
        )
    SameKey-expansion old segment text tag e keeps hs h = absurd keeps
    SameKey-expansion binary segment text tag e keeps hs h = absurd keeps
    SameKey-expansion value_only segment text tag e keeps hs h = absurd keeps

    -- A segment with a tag, and the line without the value, whatever mode wrote it.
    pub replaced-some :
        (keyword : Keyword) (segment text : Bytes)
        → KeepsKeys (di.di_expand)
        → All NoDollar segment
        → replaced strptime strftime keyword di segment ≡ done (some text)
        → SameKey segment text
          × ((w : Bytes)
              → before_colon w ≡ before_colon segment
              → replaced strptime strftime keyword (collapsing di) w
                ≡ done (some (dollar ∷ (before_colon segment ++ (dollar ∷ [])))))
    unfolding replacement
    replaced-some keyword segment text keeps hs h = elim (outcome (tag_between keyword segment)) [
      | is_done none e ↦
          let k : done none ≡ done (some text) = rw (replacement, e) at h in absurd (cc)
      | is_done (some tag) e ↦
          let expanded : Run Bytes = expansion strptime strftime di (before_colon segment) tag in
          let k : (expanded >>= λ t. done (some t)) ≡ done (some text) = rw (replacement, e) at h in
          (
            SameKey-expansion (di.di_expand) segment text tag refl keeps hs
                (done_some expanded text k),
            λ w ew.
                rw (replacement, tag_between_key keyword w segment tag ew e, expansion, ew) refl,
          )
      | is_abort e ↦ let k : abort ≡ done (some text) = rw (replacement, e) at h in absurd (cc)
      | is_out_of_fuel e ↦
          let k : out_of_fuel ≡ done (some text) = rw (replacement, e) at h in absurd (cc)
    ]

    pub replaced-none :
        (keyword : Keyword) (segment : Bytes)
        → replaced strptime strftime keyword di segment ≡ done none
        → replaced strptime strftime keyword (collapsing di) segment ≡ done none
    unfolding replacement
    replaced-none keyword segment h = elim (outcome (tag_between keyword segment)) [
      | is_done none e ↦ rw (replacement, e) refl
      | is_done (some tag) e ↦
          let expanded : Run Bytes = expansion strptime strftime di (before_colon segment) tag in
          let k : (expanded >>= λ t. done (some t)) ≡ done none = rw (replacement, e) at h in
          absurd (not_none expanded k)
      | is_abort e ↦ let k : abort ≡ done none = rw (replacement, e) at h in absurd (cc)
      | is_out_of_fuel e ↦ let k : out_of_fuel ≡ done none = rw (replacement, e) at h in absurd (cc)
    ]
