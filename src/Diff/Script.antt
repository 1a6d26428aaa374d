-- ===== src/Diff/Script.antt =====
-- diff.c: what an edit script asks for, line by line of the original, and in the order of its
-- commands.
use csup.Prelude.{
  ℕ, suc, ◌+◌, ◌<◌, ◌≤◌, ◌≡◌, refl, sym, Bool, true, false, ◌||◌, ◌&&◌, ltb, leb, ◌==◌,
  if◌then◌else◌, Bytes, List, [], ◌∷◌, ◌++◌, append_assoc, arith, Bool-cases, inl, inr, ◌⊎◌,
}

-- "a" with the lines to add behind line `at`, and "d" with the lines that go from line `at` on.
pub data Edit : Type 0 where
  adds : (at : ℕ) → (texts : List Bytes) → Edit
  deletes : (at count : ℕ) → Edit

-- The lines that the script adds behind line `i`, and behind the first `i` lines.
abbrev pub added : List Edit → ℕ → List Bytes
added [] i = []
added (adds at texts ∷ s) i = if at == i then texts ++ added s i else added s i
added (deletes at count ∷ s) i = added s i

abbrev pub added_upto : List Edit → ℕ → List Bytes
added_upto [] i = []
added_upto (adds at texts ∷ s) i = if leb at i then texts ++ added_upto s i else added_upto s i
added_upto (deletes at count ∷ s) i = added_upto s i

abbrev pub is_deleted : List Edit → ℕ → Bool
is_deleted [] i = false
is_deleted (adds at texts ∷ s) i = is_deleted s i
is_deleted (deletes at count ∷ s) i = (leb at i && ltb i (at + count)) || is_deleted s i

abbrev pub unless {ℓ} : {A : Type ℓ} → Bool → A → List A
unless gone line = if gone then [] else line ∷ []

-- The lines behind line `i`, each with what is added behind it.
abbrev pub edited_from : List Edit → ℕ → List Bytes → List Bytes
edited_from s i [] = []
edited_from s i (line ∷ lines) =
    unless (is_deleted s (suc i)) line ++ (added s (suc i) ++ edited_from s (suc i) lines)

-- The file that the script asks for.
abbrev pub edited : List Edit → List Bytes → List Bytes
edited s lines = added s 0 ++ edited_from s 0 lines

-- The order of the commands, as diff_geteditcmd() checks it.
abbrev pub Ordered : ℕ → ℕ → List Edit → Type 0
Ordered lasta lastd [] = Unit
Ordered lasta lastd (adds at texts ∷ s) = (lasta ≤ at) × Ordered (suc at) lastd s
Ordered lasta lastd (deletes at count ∷ s) = (lasta ≤ at) × (lastd ≤ at) × Ordered at (at + count) s

-- All adds from one line on, all deletes from another.
abbrev pub From : ℕ → ℕ → List Edit → Type 0
From b d [] = Unit
From b d (adds at texts ∷ s) = (b ≤ at) × From b d s
From b d (deletes at count ∷ s) = (d ≤ at) × From b d s

pub Ordered-From :
    (lasta lastd b d : ℕ) (s : List Edit)
    → b ≤ lasta
    → (d ≤ lasta) ⊎ (d ≤ lastd)
    → Ordered lasta lastd s
    → From b d s
Ordered-From la ld b d [] hb hd o = tt
Ordered-From la ld b d (adds at texts ∷ s) hb (inl hd) o = (
  omega (arith, hb, o.0),
  Ordered-From (suc at) ld b d s (omega (arith, hb, o.0)) (inl (omega (arith, hd, o.0))) o.1,
)
Ordered-From la ld b d (adds at texts ∷ s) hb (inr hd) o =
    (omega (arith, hb, o.0), Ordered-From (suc at) ld b d s (omega (arith, hb, o.0)) (inr hd) o.1)
Ordered-From la ld b d (deletes at count ∷ s) hb hd o =
    let below : d ≤ at = elim hd [
      | inl k ↦ omega (arith, k, o.0)
      | inr k ↦ omega (arith, k, o.1)
    ] in
    (below, Ordered-From at (at + count) b d s (omega (arith, hb, o.0)) (inl below) o.2)

pub added_upto_none : (b d k : ℕ) (s : List Edit) → From b d s → k < b → added_upto s k ≡ []
added_upto_none b d k [] h lt = refl
added_upto_none b d k (adds at texts ∷ s) h lt =
    let behind : leb at k ≡ false = ground (arith, h.0, lt) in
    rw behind (added_upto_none b d k s h.1 lt)
added_upto_none b d k (deletes at count ∷ s) h lt = added_upto_none b d k s h.1 lt

pub added_none : (b d k : ℕ) (s : List Edit) → From b d s → k < b → added s k ≡ []
added_none b d k [] h lt = refl
added_none b d k (adds at texts ∷ s) h lt =
    let behind : (at == k) ≡ false = ground (arith, h.0, lt) in
    rw behind (added_none b d k s h.1 lt)
added_none b d k (deletes at count ∷ s) h lt = added_none b d k s h.1 lt

pub added_upto_first : (b d k : ℕ) (s : List Edit) → From b d s → k ≤ b → added_upto s k ≡ added s k
added_upto_first b d k [] h le = refl
added_upto_first b d k (adds at texts ∷ s) h le =
    let same : leb at k ≡ (at == k) = ground (arith, h.0, le) in
    rw (same, added_upto_first b d k s h.1 le) refl
added_upto_first b d k (deletes at count ∷ s) h le = added_upto_first b d k s h.1 le

pub is_deleted_none : (b d k : ℕ) (s : List Edit) → From b d s → k < d → is_deleted s k ≡ false
is_deleted_none b d k [] h lt = refl
is_deleted_none b d k (adds at texts ∷ s) h lt = is_deleted_none b d k s h.1 lt
is_deleted_none b d k (deletes at count ∷ s) h lt =
    let behind : (leb at k) ≡ false = ground (arith, h.0, lt) in
    rw behind (is_deleted_none b d k s h.1 lt)

-- In order, what is added up to a line is what is added before it and behind it.
pub added_upto-suc :
    (lasta lastd k : ℕ) (s : List Edit)
    → Ordered lasta lastd s
    → added_upto s (suc k) ≡ added_upto s k ++ added s (suc k)
added_upto-suc la ld k [] o = refl
added_upto-suc la ld k (deletes at count ∷ s) o = added_upto-suc at (at + count) k s o.2
added_upto-suc la ld k (adds at texts ∷ s) o = elim (Bool-cases (leb at k)) [
  | inl le ↦
      let le' : leb at (suc k) ≡ true = ground arith in
      let ne : (at == suc k) ≡ false = ground arith in
      rw (le, le', ne, added_upto-suc (suc at) ld k s o.1)
        (sym (append_assoc texts (added_upto s k) (added s (suc k))))
  | inr gt ↦ elim (Bool-cases (at == suc k)) [
    | inl e ↦
        let le' : leb at (suc k) ≡ true = ground arith in
        let from : From (suc at) 0 s =
          Ordered-From (suc at) ld (suc at) 0 s (omega arith) (inl (omega arith)) o.1 in
        let none1 = added_upto_none (suc at) 0 (suc k) s from (ground arith) in
        let none2 = added_upto_none (suc at) 0 k s from (ground arith) in
        let none3 = added_none (suc at) 0 (suc k) s from (ground arith) in
        rw (gt, e, le', none1, none2, none3) refl
    | inr ne ↦
        let le' : leb at (suc k) ≡ false = ground arith in
        rw (gt, ne, le') (added_upto-suc (suc at) ld k s o.1)
  ]
]
