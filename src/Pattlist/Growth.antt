-- ===== src/Pattlist/Growth.antt =====
-- The list keeps what was added, in order, through every growth of its array.
use csup.Prelude.{
  ℕ, ◌+◌, ◌^◌, ◌<◌, ◌≤◌, ◌≡◌, refl, ◌∙◌, ap, arith, Bytes, List, [], ◌∷◌, ◌++◌, Bool-cases, inl,
  inr, ◌==◌, length, take, get_elem?, some, length-set, set, ltb, lt→ltb, true, ◌%◌, length-append,
  take-append_le,
}
use csup.Prelude.Run.{done}
use csup.Prelude.Slices.{take-set, get_elem?-some, get_elem?-take}
use csup.Pattlist.{Pattlist, pattlist_room, pattlist_add, pattlist_get, pattlist_size}

pub record IsValid (p : Pattlist) : Type 0 where
  pub slots : length p.patterns ≡ p.size
  pub in_le : p.in_at ≤ p.size
  pub size_pos : 0 < p.size

abbrev pub contents : Pattlist → List Bytes
contents p = take p.in_at p.patterns

pattlist_room_lem :
    (fresh : List Bytes) (p : Pattlist)
    → IsValid p
    → p.size < 2 ^ 62
    → length fresh ≡ p.size
    → ((pattlist_room fresh p).in_at ≡ p.in_at)
      × (p.in_at < (pattlist_room fresh p).size)
      × (length (pattlist_room fresh p).patterns ≡ (pattlist_room fresh p).size)
      × (contents (pattlist_room fresh p) ≡ contents p)
      × ((pattlist_room fresh p).size < 2 ^ 63)
unfolding pattlist_room
pattlist_room_lem fresh p v small f = elim (Bool-cases (p.in_at == p.size)) [
  | inl e ↦
      rw (pattlist_room, e)
        (
          refl,
          ground (arith, v.size_pos, small),
          ground (arith, v.slots, small, length-append p.patterns fresh),
          take-append_le p.in_at p.patterns fresh (ground (arith, v.slots, v.in_le)),
          ground (arith, small),
        )
  | inr ne ↦
      rw (pattlist_room, ne) (refl, ground (arith, v.in_le), v.slots, refl, omega (arith, small))
]

-- Adding a pattern to a valid list of fewer than 2 ^ 62 slots, where xrealloc() adds as many slots
-- as there are, never fails its assertion; the list afterwards holds the patterns it held and then
-- the new one, each of which pattlist_get() returns at its index.
pub pattlist_add_appends :
    (fresh : List Bytes) (p : Pattlist) (pattern : Bytes)
    → IsValid p
    → p.size < 2 ^ 62
    → length fresh ≡ p.size
    → (q : Pattlist) × (pattlist_add fresh p pattern ≡ done q)
      × IsValid q
      × (contents q ≡ contents p ++ (pattern ∷ []))
      × (pattlist_size q ≡ pattlist_size p + 1)
      × ((i : ℕ)
          → i < pattlist_size q
          → (pat : Bytes) × (pattlist_get q i ≡ done pat) × (get_elem? (contents q) i ≡ some pat))
unfolding pattlist_add pattlist_get pattlist_size
pattlist_add_appends fresh p pattern v lt f =
    let (same_in, room, slots, kept, small) = pattlist_room_lem fresh p v lt f in
    let r : Pattlist = pattlist_room fresh p in
    let fits : ltb r.in_at r.size ≡ true = ground (arith, same_in, room) in
    let q : Pattlist = record r {
      patterns = set r.patterns r.in_at pattern;
      in_at = (r.in_at + 1) % 2 ^ 64;
    } in
    let next : q.in_at ≡ r.in_at + 1 = omega (arith, small, room, same_in) in
    let len : length q.patterns ≡ r.size = length-set r.patterns r.in_at pattern ∙ slots in
    (
      q,
      rw (pattlist_add, fits) refl,
      record {
        slots = len;
        in_le = omega (arith, next, room, same_in);
        size_pos = omega (arith, room);
      },
      take-set r.patterns q.in_at r.in_at pattern next (omega (arith, slots, room, same_in))
          ∙ ap (λ l. l ++ (pattern ∷ [])) kept,
      omega (arith, next, same_in),
      λ i li.
          let (pat, at) = get_elem?-some q.patterns i (omega (arith, len, next, room, same_in)) in
          (
            pat,
            rw (pattlist_get, lt→ltb i q.in_at li, at) refl,
            get_elem?-take q.in_at q.patterns i li ∙ at,
          ),
    )
