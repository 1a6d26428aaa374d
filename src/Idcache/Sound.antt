-- ===== src/Idcache/Sound.antt =====
-- The caches of idcache.c answer what the password and group files answer.
use csup.Prelude.{
  ℕ, ◌%◌, ◌≡◌, refl, sym, ◌∙◌, ap, ◌==◌, ==_iff, ◌⊎◌, inl, inr, Bool-cases, Option-cases,
  if◌then◌else◌, Bytes, List, [], ◌∷◌, Option, none, some, All,
}
use csup.Prelude.Run.{done}
use csup.Fattr.{same_bytes}
use csup.Fattr.Equal.{same_bytes_iff}
use csup.Idcache.{
  table_size, hash, Entry, Table, Cache, empty_cache, insert, find_id, find_name, look_up_id,
  get_name, look_up_name, get_id,
}

module _ (name_of : ℕ → Option Bytes) (id_of : Bytes → Option ℕ) where
  -- Each number has one name, and each name one number.
  pub record IsMatched : Type 0 where
    pub named : (u : ℕ) (n : Bytes) → name_of u ≡ some n → id_of n ≡ some u
    pub numbered : (u : ℕ) (n : Bytes) → id_of n ≡ some u → name_of u ≡ some n

  abbrev id_stored : Entry → Option ℕ
  id_stored e = if e.valid then some e.id else none

  abbrev IsIdEntry : Entry → Type 0
  IsIdEntry e = e.name ≡ name_of e.id

  abbrev IsNameEntry : Entry → Type 0
  IsNameEntry e = (n : Bytes) × (e.name ≡ some n) × (id_stored e ≡ id_of n)

  -- Every entry is what the files say.
  pub record IsSound (c : Cache) : Type 0 where
    pub ids : (k : ℕ) → All IsIdEntry (c.to_name k)
    pub names : (k : ℕ) → All IsNameEntry (c.to_id k)

  insert-All :
      (P : Entry → Type 0) (table : Table) (e : Entry) (key : ℕ)
      → ((k : ℕ) → All P (table k))
      → P e
      → (k : ℕ) → All P (insert table e key k)
  insert-All P table e key h p k = elim (Bool-cases (k == key)) [
    | inl y ↦ rw y (p, h k)
    | inr n ↦ rw n (h k)
  ]

  -- What is found is what the files say.
  find_id_sound :
      (chain : List Entry) (u : ℕ)
      → All IsIdEntry chain
      → (find_id chain u ≡ none) ⊎ ((e : Entry) × (find_id chain u ≡ some e) × (e.name ≡ name_of u))
  find_id_sound [] u h = inl refl
  find_id_sound (e ∷ chain) u h = elim (Bool-cases (e.id == u)) [
    | inl y ↦ inr (e, rw y refl, h.0 ∙ ap name_of ((==_iff e.id u).0 y))
    | inr n ↦ rw n (find_id_sound chain u h.1)
  ]

  find_name_sound :
      (chain : List Entry) (n : Bytes)
      → All IsNameEntry chain
      → (find_name chain n ≡ done none)
        ⊎ ((e : Entry) × (find_name chain n ≡ done (some e)) × (id_stored e ≡ id_of n))
  unfolding find_name
  find_name_sound [] n h = inl refl
  find_name_sound (e ∷ chain) n h =
      let (m, named, stored) = h.0 in
      elim (Bool-cases (same_bytes m n)) [
        | inl y ↦
            let same : m ≡ n = (same_bytes_iff m n).0 y in
            inr (e, rw (find_name, named, y) refl, stored ∙ ap id_of same)
        | inr other ↦ rw (find_name, named, other) (find_name_sound chain n h.1)
      ]

  pub get_name-IsSound :
      IsMatched
      → (c : Cache) (u : ℕ) → IsSound c
      → ((get_name name_of id_of c u).0 ≡ name_of u) × IsSound (get_name name_of id_of c u).1
  unfolding get_name look_up_id
  get_name-IsSound matched c u s = elim (find_id_sound (c.to_name (u % table_size)) u (s.ids _)) [
    | inr (e, f, k) ↦ rw (get_name, f) (k, s)
    | inl f ↦ elim (Option-cases (name_of u)) [
      | inl e ↦
          rw (get_name, f, look_up_id, e)
            (
              refl,
              record { ids = insert-All IsIdEntry c.to_name _ _ s.ids (sym e); names = s.names },
            )
      | inr (n, e) ↦
          rw (get_name, f, look_up_id, e)
            (
              refl,
              record {
                ids = insert-All IsIdEntry c.to_name _ _ s.ids (sym e);
                names =
                    insert-All IsNameEntry c.to_id _ _ s.names (n, refl, sym (matched.named u n e));
              },
            )
    ]
  ]

  look_up_name-IsSound :
      IsMatched
      → (c : Cache) (n : Bytes) → IsSound c
      → ((look_up_name name_of id_of c n).0 ≡ id_of n) × IsSound (look_up_name name_of id_of c n).1
  unfolding look_up_name
  look_up_name-IsSound matched c n s = elim (Option-cases (id_of n)) [
    | inl e ↦
        rw (look_up_name, e)
          (
            refl,
            record {
              ids = s.ids;
              names = insert-All IsNameEntry c.to_id _ _ s.names (n, refl, sym e);
            },
          )
    | inr (u, e) ↦
        rw (look_up_name, e)
          (
            refl,
            record {
              ids = insert-All IsIdEntry c.to_name _ _ s.ids (sym (matched.numbered u n e));
              names = insert-All IsNameEntry c.to_id _ _ s.names (n, refl, sym e);
            },
          )
  ]

  pub get_id-IsSound :
      IsMatched
      → (c : Cache) (n : Bytes) → IsSound c
      → (c' : Cache) × (get_id name_of id_of c n ≡ done (id_of n, c')) × IsSound c'
  unfolding get_id
  get_id-IsSound matched c n s =
      elim (find_name_sound (c.to_id (hash n % table_size)) n (s.names _)) [
        | inr (e, f, k) ↦ (c, rw (get_id, f, k) refl, s)
        | inl f ↦
            let (same, sound) = look_up_name-IsSound matched c n s in
            let next : Cache = (look_up_name name_of id_of c n).1 in
            (next, rw (get_id, f) (ap (λ (v : Option ℕ). done (v, next)) same), sound)
      ]

  pub empty_cache-IsSound : IsSound empty_cache
  empty_cache-IsSound = record { ids = λ k. tt; names = λ k. tt }
