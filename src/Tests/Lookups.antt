-- ===== src/Tests/Lookups.antt =====
-- Lookups of users over the cache.
use csup.Prelude.{
  ℕ, ◌≡◌, refl, sym, arith, ◌==◌, ==_iff, Bool-cases, inl, inr, if◌then◌else◌, Bytes, List, [], ◌∷◌,
  map, Option, some, none,
}
use csup.Prelude.Run.{done}
use csup.Fattr.{same_bytes}
use csup.Fattr.Equal.{same_bytes_iff}
use csup.Idcache.{Idcache, idcache_init, Cache, empty_cache, hash, get_id, get_name}
use csup.Idcache.Sound.{IsMatched}
use csup.Idcache.Requests.{
  Request, user_id, user_name, group_name, requests, looked_up, AllSound, requests_answer,
}
use csup.Idcache.Aliases.{get_name-after_alias}

-- `root` and `toor`
abbrev root : Bytes
root = b'r' ∷ b'o' ∷ b'o' ∷ b't' ∷ []

abbrev toor : Bytes
toor = b't' ∷ b'o' ∷ b'o' ∷ b'r' ∷ []

hash-root : hash root ≡ 0x79664
unfolding hash
hash-root = refl

-- The user 7 is `root`, and there is no other; the same for groups.
abbrev one_user : ℕ → Option Bytes
one_user u = if u == 7 then some root else none

abbrev one_name : Bytes → Option ℕ
one_name n = if same_bytes n root then some 7 else none

one_user-IsMatched : IsMatched one_user one_name
one_user-IsMatched = record { named = named_by; numbered = numbered_by }
  where
    named_by : (u : ℕ) (n : Bytes) → one_user u ≡ some n → one_name n ≡ some u
    named_by u n h = elim (Bool-cases (u == 7)) [
      | inl y ↦
          let seven : u ≡ 7 = (==_iff u 7).0 y in
          let e : some root ≡ some n = ground arith in
          let same : root ≡ n = cc in rw (sym same, seven) refl
      | inr other ↦ absurd (ground arith)
    ]

    numbered_by : (u : ℕ) (n : Bytes) → one_name n ≡ some u → one_user u ≡ some n
    numbered_by u n h = elim (Bool-cases (same_bytes n root)) [
      | inl y ↦
          let same : n ≡ root = (same_bytes_iff n root).0 y in
          let e : 7 ≡ u = ground arith in rw (sym e, same) refl
      | inr other ↦ absurd (ground arith)
    ]

abbrev lookups : List Request
lookups = user_id root ∷ user_name 7 ∷ group_name 7 ∷ user_name 8 ∷ []

requests_answer_example :
    (last : Idcache) × (requests one_user one_name one_user one_name idcache_init lookups
      ≡ done (map (looked_up one_user one_name one_user one_name) lookups, last))
    × AllSound one_user one_name one_user one_name last
requests_answer_example =
    requests_answer one_user one_name one_user one_name one_user-IsMatched one_user-IsMatched
      lookups

-- Both names have the number 0, which the password file calls `root`.
get_name-after_alias_example :
    (c : Cache) × (get_id (λ u. some root) (λ n. some 0) empty_cache toor ≡ done (some 0, c))
    × ((get_name (λ u. some root) (λ n. some 0) c 0).0 ≡ some toor)
get_name-after_alias_example = get_name-after_alias (λ u. some root) (λ n. some 0) toor 0 refl
