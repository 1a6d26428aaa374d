-- ===== src/Keyword/Collapse.antt =====
-- keyword.c, keyword_expand(): expanding a line and then taking the values out of it again.
use csup.Prelude.{
  ◌+◌, ◌≡◌, refl, sym, ap, subst, ◌∙◌, false, ◌==◌, Bytes, All, [], ◌∷◌, ◌++◌, Option, some,
  append_assoc, arith, length,
}
use csup.Prelude.Run.{Run, done, abort, out_of_fuel, ◌>>=◌}
use csup.Keyword.{
  Keyword, ExpandMode, default, keyvalue, keyvaluelocker, key_only, old, binary, value_only,
}
use csup.Keyword.Tags.{dollar, Diffinfo, Strptime, Strftime, cvs_format}
use csup.Keyword.Expand.{
  first_segment, before_colon, new_or_old, unless_kept, expand_from, keyword_expand, diff_write,
}
use csup.Keyword.Scan.{NoDollar, first_segment-Cut, first_segment_cut}
use csup.Keyword.Values.{Plain}
use csup.Keyword.SameKey.{KeepsKeys, collapsing, replaced-some, replaced-none}
use csup.Keyword.Rewriting.{
  Rewrites, ends, leaves, replaces, expand_from-Rewrites, Rewrites-expand_from,
}

-- A line that starts with a dollar.
abbrev StartsDollar : Bytes → Type 0
StartsDollar [] = ⊥
StartsDollar (c ∷ s) = c ≡ dollar

tail_of : (s : Bytes) → StartsDollar s → (t : Bytes) × (s ≡ dollar ∷ t)
tail_of [] h = absurd h
tail_of (c ∷ s) h = (s, ap (λ x. x ∷ s) h)

-- What stands before the first dollar of such a line is empty.
none_before :
    (before r new : Bytes)
    → All NoDollar before
    → StartsDollar (before ++ (dollar ∷ r))
    → StartsDollar new
    → StartsDollar (before ++ new)
none_before [] r new p h k = k
none_before (c ∷ before) r new p h k =
    let e : (c == dollar) ≡ false = p.0 in absurd (ground (arith, e, h))

done_inv :
    (run : Run (Option Bytes)) (f : Option Bytes → Bytes) (out : Bytes)
    → (run >>= λ r. done (f r)) ≡ done out
    → (result : Option Bytes) × (run ≡ done result) × (f result ≡ out)
done_inv (done result) f out h = (result, refl, cc)
done_inv abort f out h = absurd (cc)
done_inv out_of_fuel f out h = absurd (cc)

unless_kept_keeps :
    (mode : ExpandMode) (expanded : Run (Option Bytes))
    → KeepsKeys mode
    → unless_kept mode expanded ≡ expanded
unless_kept_keeps default expanded keeps = refl
unless_kept_keeps keyvalue expanded keeps = refl
unless_kept_keeps keyvaluelocker expanded keeps = refl
unless_kept_keeps key_only expanded keeps = refl
unless_kept_keeps old expanded keeps = absurd keeps
unless_kept_keeps binary expanded keeps = absurd keeps
unless_kept_keeps value_only expanded keeps = absurd keeps

module _ {Tm : Type 0} (strptime : Strptime Tm) (strftime : Strftime Tm) where
  diff_write-Rewrites :
      (keyword : Keyword) (di : Diffinfo) (line out : Bytes)
      → KeepsKeys (di.di_expand)
      → diff_write strptime strftime keyword di line ≡ done out
      → Rewrites strptime strftime keyword di line out
  unfolding diff_write keyword_expand
  diff_write-Rewrites keyword di line out keeps h =
      let run = expand_from strptime strftime keyword di (length line + 1) false [] line in
      let k : (run >>= λ expanded. done (new_or_old line expanded)) ≡ done out =
        rw (diff_write, keyword_expand, unless_kept_keeps (di.di_expand) run keeps) at h in
      let (result, er, eo) = done_inv run (new_or_old line) out k in
      let (new, w, en) =
        expand_from-Rewrites strptime strftime keyword di (length line + 1) line false [] line
          result (λ e. refl) er in
      subst (Rewrites strptime strftime keyword di line) (sym en ∙ eo) w

  Rewrites-diff_write :
      (keyword : Keyword) (di : Diffinfo) (line out : Bytes)
      → KeepsKeys (di.di_expand)
      → Rewrites strptime strftime keyword di line out
      → diff_write strptime strftime keyword di line ≡ done out
  unfolding diff_write keyword_expand
  Rewrites-diff_write keyword di line out keeps w =
      let (result, er, eo) =
        Rewrites-expand_from strptime strftime keyword di (length line + 1) line false [] line out
          (λ e. refl) (omega arith) w in
      let run = expand_from strptime strftime keyword di (length line + 1) false [] line in
      rw (diff_write, keyword_expand, unless_kept_keeps (di.di_expand) run keeps, er) (ap done eo)

  module _ (keyword : Keyword) (di : Diffinfo) (keeps : KeepsKeys (di.di_expand)) (plain : Plain di)
      (dates : (tm : Tm) → All NoDollar (strftime cvs_format tm)) where
    -- The relation for this line, and for taking the values out.
    abbrev Expands : Bytes → Bytes → Type 0
    Expands = Rewrites strptime strftime keyword di

    abbrev Collapses : Bytes → Bytes → Type 0
    Collapses = Rewrites strptime strftime keyword (collapsing di)

    StartsDollar-Expands :
        (rest new : Bytes) → Expands rest new → StartsDollar rest → StartsDollar new
    StartsDollar-Expands rest _ (ends _ e) h = h
    StartsDollar-Expands rest _ (leaves _ b v t new e r w) h =
        let cut = first_segment-Cut rest b v t e in
        none_before b _ (dollar ∷ (v ++ new)) (cut.plain_before) (subst StartsDollar (cut.whole) h)
          refl
    StartsDollar-Expands rest _ (replaces _ b v t text new e r w) h =
        let cut = first_segment-Cut rest b v t e in
        let ((between, etext, _, _), _) =
          replaced-some strptime strftime di plain dates keyword v text keeps (cut.plain_segment)
            r in
        none_before b _ (text ++ new) (cut.plain_before) (subst StartsDollar (cut.whole) h)
          (subst (λ t. StartsDollar (t ++ new)) (sym etext) refl)

    -- Both lines come to one.
    Expands-Collapses :
        (rest new : Bytes)
        → Expands rest new
        → (keys : Bytes) × Collapses rest keys × Collapses new keys
    Expands-Collapses rest _ (ends _ e) = (rest, ends rest e, ends rest e)
    Expands-Collapses rest _ (leaves _ b v t new e r w) =
        let cut = first_segment-Cut rest b v t e in
        let (keys, w1, w2) = Expands-Collapses (dollar ∷ t) new w in
        let (u, eu) = tail_of new (StartsDollar-Expands (dollar ∷ t) new w refl) in
        let none_again = replaced-none strptime strftime di plain dates keyword v r in
        let cut_again : first_segment (b ++ (dollar ∷ (v ++ new))) ≡ some (b, v, u) =
          rw eu (first_segment_cut b v u (cut.plain_before) (cut.plain_segment)) in
        (
          b ++ (dollar ∷ (v ++ keys)),
          leaves rest b v t keys e none_again w1,
          leaves _ b v u keys cut_again none_again (subst (λ n. Collapses n keys) eu w2),
        )
    Expands-Collapses rest _ (replaces _ b v t text new e r w) =
        let cut = first_segment-Cut rest b v t e in
        let (keys, w1, w2) = Expands-Collapses t new w in
        let ((between, etext, hb, ebetween), again) =
          replaced-some strptime strftime di plain dates keyword v text keeps (cut.plain_segment)
            r in
        let etail : text ++ new ≡ dollar ∷ (between ++ (dollar ∷ new)) =
          rw etext (ap (λ l. dollar ∷ l) (append_assoc between (dollar ∷ []) new)) in
        let cut_again : first_segment (b ++ (text ++ new)) ≡ some (b, between, new) =
          rw etail (first_segment_cut b between new (cut.plain_before) hb) in
        let only_key : Bytes = dollar ∷ (before_colon v ++ (dollar ∷ [])) in
        (
          b ++ (only_key ++ keys),
          replaces rest b v t only_key keys e (again v refl) w1,
          replaces _ b between new only_key keys cut_again (again between ebetween) w2,
        )

    -- If no dollar is in the values of the file (the RCS file, the CVS root, the revision number,
    -- the author, the tag and the state), and none in what strftime() writes: a line that
    -- diff_write() expands, in a mode that keeps the keywords, and then writes without the values is
    -- what the line itself is when written without the values.
    pub diff_write-diff_write :
        (line out : Bytes)
        → diff_write strptime strftime keyword di line ≡ done out
        → (keys : Bytes) × (diff_write strptime strftime keyword (collapsing di) out ≡ done keys)
          × (diff_write strptime strftime keyword (collapsing di) line ≡ done keys)
    diff_write-diff_write line out h =
        let w = diff_write-Rewrites keyword di line out keeps h in
        let (keys, wline, wout) = Expands-Collapses line out w in
        (
          keys,
          Rewrites-diff_write keyword (collapsing di) out keys tt wout,
          Rewrites-diff_write keyword (collapsing di) line keys tt wline,
        )
