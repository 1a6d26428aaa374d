-- ===== src/Fixups/Delivered.antt =====
-- Each fixup is delivered once and in order, and the detailer never sleeps over one.
use csup.Prelude.{
  subst, ◌+◌, ◌-◌, ◌%◌, ◌^◌, ◌≡◌, refl, sym, ◌∙◌, ap, ◌⊎◌, inl, inr, arith, Bool, true, false, List,
  [], ◌∷◌, ◌++◌, length, length-append, append_assoc, append-nil, Option, some, none, map,
  Bool-cases, ◌==◌,
}
use csup.Prelude.Run.{done}
use csup.Fixups.{
  Fixups, Getting, get_waits, get_ended, got_fixup, fixups_new, fixups_put, fixups_get,
  fixups_close,
}
use csup.Fixups.Steps.{
  Detailer, runs, waits, ended, Threads, woken, ThreadStep, puts, closes, signals, gets,
  goes_to_wait, sees_end, wakes_spuriously, ThreadReach, at_start, then_step,
}

-- What a detailer that waits with no signal to come, or has ended, has seen.
abbrev AtRest : {A : Type 0} → Detailer → Fixups A → Bool → Type 0
AtRest runs f signalling = Unit
AtRest waits f signalling = signalling ≡ false → (f.size ≡ 0) × (f.is_closed ≡ false)
AtRest ended f signalling = (f.size ≡ 0) × (f.is_closed ≡ true)

record Inv {A : Type 0} (t : Threads A) : Type 0 where
  counted : t.fixups.size ≡ length t.fixups.fixupq
  in_order : t.put ≡ t.got ++ t.fixups.fixupq
  one_late : t.freed ++ (t.fixups.cur ∷ []) ≡ none ∷ map some t.got
  at_rest : AtRest t.detailer t.fixups t.signalling

module _ {A : Type 0} where
  -- What a successful put comes to.
  fixups_put-done :
      (f : Fixups A) (x : A) (g : Fixups A) (dosignal : Bool)
      → fixups_put f x ≡ done (g, dosignal)
      → (f.is_closed ≡ false)
        × (g.fixupq ≡ f.fixupq ++ (x ∷ []))
        × (g.size ≡ (f.size + 1) % 2 ^ 64)
        × (g.cur ≡ f.cur)
        × ((f.size == 0) ≡ dosignal)
  unfolding fixups_put
  fixups_put-done f x g b h = ground arith

  -- What a successful get comes to.
  fixups_get-done :
      (f : Fixups A) (x : A) (last : Option A) (g : Fixups A)
      → fixups_get f ≡ done (got_fixup x last g)
      → (f.fixupq ≡ x ∷ g.fixupq) × (g.size ≡ f.size - 1) × (last ≡ f.cur) × (g.cur ≡ some x)
  unfolding fixups_get
  fixups_get-done f x last g h = ground arith

  fixups_get-waits :
      (f : Fixups A) → fixups_get f ≡ done get_waits → (f.size ≡ 0) × (f.is_closed ≡ false)
  unfolding fixups_get
  fixups_get-waits f h = ground arith

  fixups_get-ended :
      (f : Fixups A) → fixups_get f ≡ done get_ended → (f.size ≡ 0) × (f.is_closed ≡ true)
  unfolding fixups_get
  fixups_get-ended f h = ground arith

  AtRest-woken : (d : Detailer) (f : Fixups A) (s s' : Bool) → AtRest d f s → AtRest (woken d) f s'
  AtRest-woken runs f s s' h = tt
  AtRest-woken waits f s s' h = tt
  AtRest-woken ended f s s' h = h

  AtRest-put :
      (d : Detailer) (f g : Fixups A) (x : A) (dosignal : Bool)
      → fixups_put f x ≡ done (g, dosignal)
      → AtRest d f false
      → AtRest d g dosignal
  AtRest-put runs f g x b h r = tt
  AtRest-put waits f g x b h r =
      λ quiet. let p = fixups_put-done f x g b h in let q = r refl in absurd (ground arith)
  AtRest-put ended f g x b h r = let p = fixups_put-done f x g b h in absurd (ground arith)

  AtRest-close :
      (d : Detailer) (f : Fixups A)
      → AtRest d f false
      → AtRest d (fixups_close f).0 (fixups_close f).1
  unfolding fixups_close
  AtRest-close runs f r = tt
  AtRest-close waits f r = λ quiet. let q = r refl in absurd (ground arith)
  AtRest-close ended f r = (r.0, refl)

  map-append-one : (xs : List A) (x : A) → map some (xs ++ (x ∷ [])) ≡ map some xs ++ (some x ∷ [])
  map-append-one [] x = refl
  map-append-one (y ∷ xs) x = ap (λ l. some y ∷ l) (map-append-one xs x)

  step-Inv : {t u : Threads A} → ThreadStep t u → Inv t → Inv u
  step-Inv {t} (puts x f b ns lt h) i =
      let (open_queue, queue, size, cur, signal) = fixups_put-done t.fixups x f b h in
      record {
        counted = ground (arith, i.counted, length-append t.fixups.fixupq (x ∷ []));
        in_order =
            ap (λ l. l ++ (x ∷ [])) i.in_order
            ∙ append_assoc t.got t.fixups.fixupq (x ∷ [])
            ∙ ap (λ l. t.got ++ l) (sym queue);
        one_late = ap (λ c. t.freed ++ (c ∷ [])) cur ∙ i.one_late;
        at_rest =
            AtRest-put t.detailer t.fixups f x b h
              (subst (AtRest t.detailer t.fixups) ns i.at_rest);
      }
  step-Inv {t} (closes ns) i = record {
    counted = unfold fixups_close in i.counted;
    in_order = unfold fixups_close in i.in_order;
    one_late = unfold fixups_close in i.one_late;
    at_rest = AtRest-close t.detailer t.fixups (subst (AtRest t.detailer t.fixups) ns i.at_rest);
  }
  step-Inv {t} (signals s) i = record {
    counted = i.counted;
    in_order = i.in_order;
    one_late = i.one_late;
    at_rest = AtRest-woken t.detailer t.fixups t.signalling false i.at_rest;
  }
  step-Inv {t} (gets x last f r h) i =
      let (queue, size, freed, cur) = fixups_get-done t.fixups x last f h in
      record {
        counted = ground (arith, i.counted, ap length queue);
        in_order =
            i.in_order ∙ ap (λ l. t.got ++ l) queue ∙ sym (append_assoc t.got (x ∷ []) f.fixupq);
        one_late =
            ap (λ c. (t.freed ++ (last ∷ [])) ++ (c ∷ [])) cur
            ∙ ap (λ l. (t.freed ++ (l ∷ [])) ++ (some x ∷ [])) freed
            ∙ ap (λ l. l ++ (some x ∷ [])) i.one_late
            ∙ ap (λ l. none ∷ l) (sym (map-append-one t.got x));
        at_rest = subst (λ d. AtRest d f t.signalling) (sym r) tt;
      }
  step-Inv {t} (goes_to_wait r h) i = record {
    counted = i.counted;
    in_order = i.in_order;
    one_late = i.one_late;
    at_rest = λ quiet. fixups_get-waits t.fixups h;
  }
  step-Inv {t} (sees_end r h) i = record {
    counted = i.counted;
    in_order = i.in_order;
    one_late = i.one_late;
    at_rest = fixups_get-ended t.fixups h;
  }
  step-Inv {t} wakes_spuriously i = record {
    counted = i.counted;
    in_order = i.in_order;
    one_late = i.one_late;
    at_rest = AtRest-woken t.detailer t.fixups t.signalling t.signalling i.at_rest;
  }

  reach-Inv : {t : Threads A} → ThreadReach t → Inv t
  unfolding fixups_new
  reach-Inv at_start = record { counted = refl; in_order = refl; one_late = refl; at_rest = tt }
  reach-Inv (then_step r s) = step-Inv s (reach-Inv r)

  empty : (xs : List A) → length xs ≡ 0 → xs ≡ []
  empty [] h = refl
  empty (x ∷ xs) h = absurd (omega arith)

  uncons : (xs : List A) → (xs ≡ []) ⊎ ((x : A) × (rest : List A) × (xs ≡ x ∷ rest))
  uncons [] = inl refl
  uncons (x ∷ xs) = inr (x, xs, refl)

  fixups_get-answers :
      (f : Fixups A) → f.size ≡ length f.fixupq → (g : Getting A) × (fixups_get f ≡ done g)
  unfolding fixups_get
  fixups_get-answers f h = elim (Bool-cases (f.size == 0)) [
    | inl z ↦ elim (Bool-cases f.is_closed) [
      | inl c ↦ (get_ended, rw (fixups_get, z, c) refl)
      | inr o ↦ (get_waits, rw (fixups_get, z, o) refl)
    ]
    | inr nz ↦ elim (uncons f.fixupq) [
      | inl e ↦ let none_queued = ap length e in absurd (ground arith)
      | inr (x, rest, e) ↦ (
        got_fixup x f.cur (record f { fixupq = rest; cur = some x; size = f.size - 1 }),
        ground arith,
      )
    ]
  ]

  -- In every state that the updater and the detailer can reach: the fixups put are those that the
  -- detailer got and then those in the queue, in order; what was freed is, one get later, what the
  -- detailer got; fixups_get() does not fail; while the detailer waits and no signal is on its
  -- way, the queue is empty and not closed; and when the detailer has seen the end, the queue is
  -- closed and everything that was put has been got.
  pub fixups_delivered :
      (t : Threads A)
      → ThreadReach t
      → (t.put ≡ t.got ++ t.fixups.fixupq)
        × (t.freed ++ (t.fixups.cur ∷ []) ≡ none ∷ map some t.got)
        × ((g : Getting A) × (fixups_get t.fixups ≡ done g))
        × (t.detailer ≡ waits
            → t.signalling ≡ false
            → (t.fixups.fixupq ≡ []) × (t.fixups.is_closed ≡ false))
        × (t.detailer ≡ ended → (t.fixups.is_closed ≡ true) × (t.put ≡ t.got))
  fixups_delivered t r =
      let i = reach-Inv r in
      (
        i.in_order,
        i.one_late,
        fixups_get-answers t.fixups i.counted,
        λ w quiet.
            let h = subst (λ d. AtRest d t.fixups t.signalling) w i.at_rest quiet in
            (empty t.fixups.fixupq (omega (arith, h.0, i.counted)), h.1),
        λ e.
            let h = subst (λ d. AtRest d t.fixups t.signalling) e i.at_rest in
            (
              h.1,
              i.in_order
                  ∙ ap (λ l. t.got ++ l) (empty t.fixups.fixupq (omega (arith, h.0, i.counted)))
                  ∙ append-nil t.got,
            ),
      )
