-- ===== src/Keyword/Rewriting.antt =====
-- keyword.c, keyword_expand(): what becomes of a line, as a relation that follows its segments, and
-- the loop's agreement with it.
use csup.Prelude.{
  ℕ, zero, suc, ◌+◌, ◌<◌, ◌≤◌, ◌≡◌, refl, sym, ap, ◌∙◌, Bool, true, false, Bytes, ◌∷◌, ◌++◌, Option,
  none, some, length, length-append, append_assoc, Option-cases, inl, inr, if◌then◌else◌, arith,
}
use csup.Prelude.Run.{Run, done, abort, out_of_fuel, outcome, is_done, is_abort, is_out_of_fuel}
use csup.Keyword.{Keyword}
use csup.Keyword.Tags.{dollar, Diffinfo, Strptime, Strftime}
use csup.Keyword.Expand.{new_or_old, first_segment, replacement, expand_from}
use csup.Keyword.Scan.{Cut, first_segment-Cut}

leave_assoc :
    (front before segment new : Bytes)
    → (front ++ (before ++ (dollar ∷ segment))) ++ new
      ≡ front ++ (before ++ (dollar ∷ (segment ++ new)))
leave_assoc f b v n =
    append_assoc f (b ++ (dollar ∷ v)) n ∙ ap (λ l. f ++ l) (append_assoc b (dollar ∷ v) n)

replace_assoc :
    (front before text new : Bytes)
    → (front ++ (before ++ text)) ++ new ≡ front ++ (before ++ (text ++ new))
replace_assoc f b t n = append_assoc f (b ++ t) n ∙ ap (λ l. f ++ l) (append_assoc b t n)

-- Of a line that has not changed, `front` and the rest are the line.
abbrev pub Stands : Bytes → Bool → Bytes → Bytes → Type 0
Stands line changed front rest = changed ≡ false → line ≡ front ++ rest

Stands-left :
    (line : Bytes) (changed : Bool) (front rest before segment after : Bytes)
    → Stands line changed front rest
    → Cut rest before segment after
    → Stands line changed (front ++ (before ++ (dollar ∷ segment))) (dollar ∷ after)
Stands-left line changed f rest b v t hs cut e =
    hs e ∙ ap (λ l. f ++ l) (cut.whole) ∙ sym (leave_assoc f b v (dollar ∷ t))

Cut-shorter :
    (rest before segment after : Bytes)
    → Cut rest before segment after
    → length after + 2 ≤ length rest
Cut-shorter rest b v t cut =
    let e : length rest ≡ length (b ++ (dollar ∷ (v ++ (dollar ∷ t)))) = ap length (cut.whole) in
    omega (arith, e, length-append b (dollar ∷ (v ++ (dollar ∷ t))), length-append v (dollar ∷ t))

new_or_old_end :
    (line : Bytes) (changed : Bool) (front rest : Bytes)
    → Stands line changed front rest
    → new_or_old line (if changed then some (front ++ rest) else none) ≡ front ++ rest
new_or_old_end line true front rest hs = refl
new_or_old_end line false front rest hs = hs refl

abbrev pub result_of : Run (Option Bytes) → Option Bytes
result_of (done result) = result
result_of _ = none

module _ {Tm : Type 0} (strptime : Strptime Tm) (strftime : Strftime Tm) where
  abbrev pub replaced : Keyword → Diffinfo → Bytes → Run (Option Bytes)
  replaced = replacement strptime strftime

  -- What the rest of a line becomes.
  pub data Rewrites (keyword : Keyword) (di : Diffinfo) : Bytes → Bytes → Type 0 where
    ends : (rest : Bytes) → first_segment rest ≡ none → Rewrites keyword di rest rest
    leaves :
        (rest before segment after new : Bytes)
        → first_segment rest ≡ some (before, segment, after)
        → replaced keyword di segment ≡ done none
        → Rewrites keyword di (dollar ∷ after) new
        → Rewrites keyword di rest (before ++ (dollar ∷ (segment ++ new)))
    replaces :
        (rest before segment after text new : Bytes)
        → first_segment rest ≡ some (before, segment, after)
        → replaced keyword di segment ≡ done (some text)
        → Rewrites keyword di after new
        → Rewrites keyword di rest (before ++ (text ++ new))

  module _ (keyword : Keyword) (di : Diffinfo) where
    abbrev pub loop : ℕ → Bool → Bytes → Bytes → Run (Option Bytes)
    loop = expand_from strptime strftime keyword di

    -- A loop that ends has rewritten the rest.
    pub expand_from-Rewrites :
        (fuel : ℕ) (line : Bytes) (changed : Bool) (front rest : Bytes) (result : Option Bytes)
        → Stands line changed front rest
        → loop fuel changed front rest ≡ done result
        → (new : Bytes) × Rewrites keyword di rest new × (new_or_old line result ≡ front ++ new)
    unfolding expand_from
    expand_from-Rewrites zero line changed front rest result hs h = absurd (cc)
    expand_from-Rewrites (suc fuel) line changed front rest result hs h =
        elim (Option-cases (first_segment rest)) [
          | inl e ↦
              let k : done (if changed then some (front ++ rest) else none) ≡ done result =
                rw (expand_from, e) at h in
              (
                rest,
                ends rest e,
                ap (new_or_old line) (sym (ap result_of k))
                    ∙ new_or_old_end line changed front rest hs,
              )
          | inr ((before, segment, after), e) ↦
              let cut = first_segment-Cut rest before segment after e in
              elim (outcome (replaced keyword di segment)) [
                | is_done none r ↦
                    let k : loop fuel changed (front ++ (before ++ (dollar ∷ segment)))
                          (dollar ∷ after)
                        ≡ done result =
                      rw (expand_from, e, r) at h in
                    let (new, w, eq) =
                      expand_from-Rewrites fuel line changed
                        (front ++ (before ++ (dollar ∷ segment))) (dollar ∷ after) result
                        (Stands-left line changed front rest before segment after hs cut) k in
                    (
                      before ++ (dollar ∷ (segment ++ new)),
                      leaves rest before segment after new e r w,
                      eq ∙ leave_assoc front before segment new,
                    )
                | is_done (some text) r ↦
                    let k : loop fuel true (front ++ (before ++ text)) after ≡ done result =
                      rw (expand_from, e, r) at h in
                    let (new, w, eq) =
                      expand_from-Rewrites fuel line true (front ++ (before ++ text)) after result
                        (λ t. absurd (cc)) k in
                    (
                      before ++ (text ++ new),
                      replaces rest before segment after text new e r w,
                      eq ∙ replace_assoc front before text new,
                    )
                | is_abort r ↦
                    let k : abort ≡ done result = rw (expand_from, e, r) at h in absurd (cc)
                | is_out_of_fuel r ↦
                    let k : out_of_fuel ≡ done result = rw (expand_from, e, r) at h in absurd (cc)
              ]
        ]

    -- With fuel for the rest, the loop follows the relation to its end.
    pub Rewrites-expand_from :
        (fuel : ℕ) (line : Bytes) (changed : Bool) (front rest new : Bytes)
        → Stands line changed front rest
        → length rest < fuel
        → Rewrites keyword di rest new
        → (result : Option Bytes) × (loop fuel changed front rest ≡ done result)
          × (new_or_old line result ≡ front ++ new)
    unfolding expand_from
    Rewrites-expand_from zero line changed front rest new hs lt w = absurd (omega (arith, lt))
    Rewrites-expand_from (suc fuel) line changed front rest _ hs lt (ends _ e) = (
      if changed then some (front ++ rest) else none,
      rw (expand_from, e) refl,
      new_or_old_end line changed front rest hs,
    )
    Rewrites-expand_from (suc fuel) line changed front rest _ hs lt
          (leaves _ before segment after new e r w) =
        let cut = first_segment-Cut rest before segment after e in
        let (result, k, eq) =
          Rewrites-expand_from fuel line changed (front ++ (before ++ (dollar ∷ segment)))
            (dollar ∷ after) new (Stands-left line changed front rest before segment after hs cut)
            (omega (arith, lt, Cut-shorter rest before segment after cut)) w in
        (result, rw (expand_from, e, r) k, eq ∙ leave_assoc front before segment new)
    Rewrites-expand_from (suc fuel) line changed front rest _ hs lt
          (replaces _ before segment after text new e r w) =
        let cut = first_segment-Cut rest before segment after e in
        let (result, k, eq) =
          Rewrites-expand_from fuel line true (front ++ (before ++ text)) after new
            (λ t. absurd (cc)) (omega (arith, lt, Cut-shorter rest before segment after cut)) w in
        (result, rw (expand_from, e, r) k, eq ∙ replace_assoc front before text new)
