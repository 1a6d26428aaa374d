-- ===== src/Diff/Cursor.antt =====
-- diff.c: a script carried out from the front of the original on: what is still to be written once
-- some lines of it have been copied or skipped.
use csup.Prelude.{
  ℕ, zero, suc, ◌+◌, ◌-◌, ◌<◌, ◌≤◌, ◌≡◌, refl, sym, ap, ◌∙◌, true, false, ◌&&◌, ltb, leb, ◌==◌,
  Bytes, List, [], ◌∷◌, ◌++◌, length, length-drop, take, drop, append_assoc, arith, Bool-cases, inl,
  inr, subst,
}
use csup.Diff.Script.{
  Edit, adds, deletes, added, added_upto, edited_from, edited, Ordered, From, added_upto_none,
  added_upto_first, is_deleted_none, added_upto-suc,
}

-- What is still to be written when `e` lines of the original are behind.
abbrev pub to_write : List Edit → ℕ → List Bytes → List Bytes
to_write s e lines = added_upto s e ++ edited_from s e lines

pub edited-to_write : (s : List Edit) (lines : List Bytes) → edited s lines ≡ to_write s 0 lines
edited-to_write s lines = ap (λ l. l ++ edited_from s 0 lines) (at_start s)
  where
    at_start : (s : List Edit) → added s 0 ≡ added_upto s 0
    at_start [] = refl
    at_start (deletes at count ∷ s) = at_start s
    at_start (adds at texts ∷ s) =
        let same : leb at 0 ≡ (at == 0) = ground arith in rw (same, at_start s) refl

-- A line before all that the script does is copied.
copy_one :
    (s : List Edit) (e : ℕ) (line : Bytes) (lines : List Bytes)
    → From (suc e) (suc (suc e)) s
    → to_write s e (line ∷ lines) ≡ line ∷ to_write s (suc e) lines
copy_one s e line lines h =
    let none = added_upto_none (suc e) (suc (suc e)) e s h (omega arith) in
    let first = added_upto_first (suc e) (suc (suc e)) (suc e) s h (omega arith) in
    let kept = is_deleted_none (suc e) (suc (suc e)) (suc e) s h (omega arith) in
    rw (none, first, kept) refl

From-weaken : (b d b' d' : ℕ) (s : List Edit) → b' ≤ b → d' ≤ d → From b d s → From b' d' s
From-weaken b d b' d' [] hb hd h = tt
From-weaken b d b' d' (adds at texts ∷ s) hb hd h =
    (omega (arith, hb, h.0), From-weaken b d b' d' s hb hd h.1)
From-weaken b d b' d' (deletes at count ∷ s) hb hd h =
    (omega (arith, hd, h.0), From-weaken b d b' d' s hb hd h.1)

copy_many :
    (s : List Edit) (n e f : ℕ) (lines : List Bytes)
    → f ≡ e + n
    → n ≤ length lines
    → From f (suc f) s
    → to_write s e lines ≡ take n lines ++ to_write s f (drop n lines)
copy_many s zero e f lines ef le h =
    let same : e ≡ f = omega arith in ap (λ i. to_write s i lines) same
copy_many s (suc n) e f [] ef le h = absurd (omega arith)
copy_many s (suc n) e f (line ∷ lines) ef le h =
    copy_one s e line lines
      (From-weaken f (suc f) (suc e) (suc (suc e)) s (omega arith) (omega arith) h)
    ∙ ap (λ l. line ∷ l) (copy_many s n (suc e) f lines (omega arith) (omega arith) h)

-- Behind its line, a command has no say.
edited_from-adds :
    (at : ℕ) (texts : List Bytes) (s : List Edit) (e : ℕ) (lines : List Bytes)
    → at ≤ e
    → edited_from (adds at texts ∷ s) e lines ≡ edited_from s e lines
edited_from-adds at texts s e [] h = refl
edited_from-adds at texts s e (line ∷ lines) h =
    let ne : (at == suc e) ≡ false = ground arith in
    rw (ne, edited_from-adds at texts s (suc e) lines (omega arith)) refl

edited_from-deletes :
    (at count : ℕ) (s : List Edit) (e : ℕ) (lines : List Bytes)
    → at + count ≤ suc e
    → edited_from (deletes at count ∷ s) e lines ≡ edited_from s e lines
edited_from-deletes at count s e [] h = refl
edited_from-deletes at count s e (line ∷ lines) h =
    let out : (leb at (suc e) && ltb (suc e) (at + count)) ≡ false = ground arith in
    rw (out, edited_from-deletes at count s (suc e) lines (omega arith)) refl

-- Of the lines that are deleted only what is added behind them is left.
skip_many :
    (at count lasta lastd : ℕ) (s : List Edit) (n k : ℕ) (lines : List Bytes)
    → Ordered lasta lastd s
    → at ≤ suc k
    → k + n < at + count
    → n ≤ length lines
    → added_upto s k ++ edited_from (deletes at count ∷ s) k lines
      ≡ added_upto s (k + n) ++ edited_from (deletes at count ∷ s) (k + n) (drop n lines)
skip_many at count la ld s zero k lines o h1 h2 le =
    let same : k ≡ k + 0 = omega arith in
    ap (λ i. added_upto s i ++ edited_from (deletes at count ∷ s) i lines) same
skip_many at count la ld s (suc n) k [] o h1 h2 le = absurd (omega arith)
skip_many at count la ld s (suc n) k (line ∷ lines) o h1 h2 le =
    let gone : (leb at (suc k) && ltb (suc k) (at + count)) ≡ true = ground arith in
    let rest : List Bytes = edited_from (deletes at count ∷ s) (suc k) lines in
    let one : added_upto s k ++ edited_from (deletes at count ∷ s) k (line ∷ lines)
        ≡ added_upto s (suc k) ++ rest =
      rw (gone, added_upto-suc la ld k s o)
        (sym (append_assoc (added_upto s k) (added s (suc k)) rest)) in
    let same : suc k + n ≡ k + suc n = omega arith in
    one
    ∙ skip_many at count la ld s n (suc k) lines o (omega arith) (omega arith) (omega arith)
    ∙ ap (λ i. added_upto s i ++ edited_from (deletes at count ∷ s) i (drop n lines)) same

-- An EC_ADD command: the lines up to its own are copied, unless they are behind, and its text
-- follows.
pub to_write-adds :
    (at : ℕ) (texts : List Bytes) (lastd : ℕ) (s : List Edit) (e : ℕ) (lines : List Bytes)
    → Ordered (suc at) lastd s
    → From at (suc at) s
    → at - e ≤ length lines
    → to_write (adds at texts ∷ s) e lines
      ≡ take (at - e) lines ++ (texts ++ to_write s (e + (at - e)) (drop (at - e) lines))
to_write-adds at texts ld s e lines o from le =
    let f : ℕ = e + (at - e) in
    let rest : List Bytes = drop (at - e) lines in
    let here : leb at f ≡ true = ground arith in
    let copied : to_write (adds at texts ∷ s) e lines
        ≡ take (at - e) lines ++ to_write (adds at texts ∷ s) f rest =
      elim (Bool-cases (leb at e)) [
        | inl behind ↦
            let none : at - e ≡ 0 = ground arith in
            let same : f ≡ e = ground arith in rw (same, none) refl
        | inr ahead ↦
            let same : at ≡ f = ground arith in
            copy_many (adds at texts ∷ s) (at - e) e f lines refl le
              (subst (λ i. From i (suc i) (adds at texts ∷ s)) same (omega arith, from))
      ] in
    let written : to_write (adds at texts ∷ s) f rest ≡ texts ++ to_write s f rest =
      rw (here, edited_from-adds at texts s f rest (omega arith))
        (append_assoc texts (added_upto s f) (edited_from s f rest)) in
    copied ∙ ap (λ l. take (at - e) lines ++ l) written

-- An EC_DEL command: the lines before its own are copied, and its own skipped.
pub to_write-deletes :
    (at count : ℕ) (s : List Edit) (e n : ℕ) (lines : List Bytes)
    → Ordered at (at + count) s
    → From at at s
    → 0 < at
    → e + n ≡ at - 1
    → n + count ≤ length lines
    → to_write (deletes at count ∷ s) e lines
      ≡ take n lines ++ to_write s (e + n + count) (drop count (drop n lines))
to_write-deletes at count s e n lines o from lt en le =
    let len = length-drop n lines in
    copy_many (deletes at count ∷ s) n e (e + n) lines refl (omega arith)
      (omega arith, From-weaken at at (e + n) (suc (e + n)) s (omega arith) (omega arith) from)
    ∙ ap (λ l. take n lines ++ l)
        (skip_many at count at (at + count) s count (e + n) (drop n lines) o (omega arith)
            (omega arith) (omega (arith, len, le))
          ∙ ap (λ l. added_upto s (e + n + count) ++ l)
              (edited_from-deletes at count s (e + n + count) (drop count (drop n lines))
                (omega arith)))
