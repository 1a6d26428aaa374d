-- ===== src/Attrstack/Growth.antt =====
-- The stack is last in, first out, through every growth of its array.
use csup.Prelude.{
  ◌+◌, ◌-◌, ◌%◌, ◌^◌, ◌<◌, ◌≤◌, ◌≡◌, refl, ◌∙◌, ap, arith, List, [], ◌∷◌, ◌++◌, Bool-cases, inl,
  inr, ◌⊎◌, leb, ◌==◌, length, take, set, get_elem?, some, length-set, get_elem?-set_self, false,
  length-append, take-append_le,
}
use csup.Prelude.Run.{done, abort}
use csup.Prelude.Slices.{take-set, take-set_before, take_last, get_elem?-some}
use csup.Attrstack.{Attrstack, attrstack_room, attrstack_push, attrstack_pop, attrstack_size}

pub record IsValid {A : Type 0} (s : Attrstack A) : Type 0 where
  pub slots : length s.stack ≡ s.size
  pub cur_le : s.cur ≤ s.size
  pub size_pos : 0 < s.size

-- From the bottom to the top.
abbrev pub contents : {A : Type 0} → Attrstack A → List A
contents s = take s.cur s.stack

module _ {A : Type 0} where
  attrstack_room_lem :
      (fresh : List A) (s : Attrstack A)
      → IsValid s
      → s.size < 2 ^ 62
      → length fresh ≡ s.size
      → ((attrstack_room fresh s).cur ≡ s.cur)
        × (s.cur < (attrstack_room fresh s).size)
        × (length (attrstack_room fresh s).stack ≡ (attrstack_room fresh s).size)
        × (contents (attrstack_room fresh s) ≡ contents s)
        × ((attrstack_room fresh s).size < 2 ^ 63)
  unfolding attrstack_room
  attrstack_room_lem fresh s v small f = elim (Bool-cases (leb s.size s.cur)) [
    | inl e ↦
        rw (attrstack_room, e)
          (
            refl,
            ground (arith, v.size_pos, small, v.cur_le),
            ground (arith, v.slots, small, length-append s.stack fresh),
            take-append_le s.cur s.stack fresh (omega (arith, v.slots, v.cur_le)),
            omega (arith, small),
          )
    | inr ne ↦
        rw (attrstack_room, ne)
          (refl, ground (arith, v.cur_le), v.slots, refl, omega (arith, small))
  ]

  -- On a valid stack of fewer than 2 ^ 62 slots, where xrealloc() adds as many slots as there are:
  -- a push puts the new element on top of what the stack holds and keeps the stack valid, and a pop
  -- then does not fail and returns that element, with the stack as it was before the push.
  pub attrstack_push-pop :
      (fresh : List A) (s : Attrstack A) (fa : A)
      → IsValid s
      → s.size < 2 ^ 62
      → length fresh ≡ s.size
      → IsValid (attrstack_push fresh s fa)
        × (contents (attrstack_push fresh s fa) ≡ contents s ++ (fa ∷ []))
        × (attrstack_size (attrstack_push fresh s fa) ≡ attrstack_size s + 1)
        × (t : Attrstack A) × (attrstack_pop (attrstack_push fresh s fa) ≡ done (fa, t))
        × (attrstack_size t ≡ attrstack_size s)
        × (contents t ≡ contents s)
  unfolding attrstack_push attrstack_pop attrstack_size
  attrstack_push-pop fresh s fa v lt f =
      let (same_cur, room, slots, kept, small) = attrstack_room_lem fresh s v lt f in
      let r : Attrstack A = attrstack_room fresh s in
      let next : (r.cur + 1) % 2 ^ 64 ≡ r.cur + 1 = omega (arith, small, room, same_cur) in
      let q : Attrstack A = record r { stack = set r.stack r.cur fa; cur = (r.cur + 1) % 2 ^ 64 } in
      let back : q.cur - 1 ≡ r.cur = omega (arith, next) in
      let some_used : (q.cur == 0) ≡ false = ground (arith, next) in
      let top : get_elem? q.stack (q.cur - 1) ≡ some fa =
        rw back (get_elem?-set_self r.stack r.cur fa (omega (arith, slots, room, same_cur))) in
      let len = length-set r.stack r.cur fa ∙ slots in
      (
        record {
          slots = len;
          cur_le = omega (arith, next, room, same_cur);
          size_pos = omega (arith, room);
        },
        take-set r.stack _ r.cur fa next (omega (arith, slots, room, same_cur))
            ∙ ap (λ l. l ++ (fa ∷ [])) kept,
        omega (arith, next, same_cur),
        record q { cur = q.cur - 1 },
        rw (attrstack_pop, attrstack_push, some_used, top) refl,
        omega (arith, back, same_cur),
        ap (λ n. take n q.stack) back ∙ take-set_before r.stack r.cur fa ∙ kept,
      )

  -- A pop of a valid stack fails exactly if the stack is empty; else it returns the last element
  -- and leaves the others.
  pub attrstack_pop_takes :
      (s : Attrstack A)
      → IsValid s
      → ((attrstack_pop s ≡ abort) × (contents s ≡ []))
        ⊎ ((fa : A) × (t : Attrstack A) × (attrstack_pop s ≡ done (fa, t))
            × IsValid t
            × (contents s ≡ contents t ++ (fa ∷ [])))
  unfolding attrstack_pop
  attrstack_pop_takes s v = elim (Bool-cases (s.cur == 0)) [
    | inl e ↦ let e' : s.cur ≡ 0 = ground arith in inl (rw (attrstack_pop, e) refl, rw e' refl)
    | inr ne ↦
        let pos : 0 < s.cur = ground arith in
        let (fa, at) = get_elem?-some s.stack (s.cur - 1) (omega (arith, v.slots, v.cur_le)) in
        inr (
          fa,
          record s { cur = s.cur - 1 },
          rw (attrstack_pop, ne, at) refl,
          record { slots = v.slots; cur_le = omega (arith, v.cur_le); size_pos = v.size_pos },
          take_last s.stack s.cur (s.cur - 1) fa (omega arith) at,
        )
  ]
