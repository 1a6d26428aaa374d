-- ===== src/Idcache.antt =====
-- idcache.c: the caches of user and group names. The two are alike; `Cache` is one of them, with the
-- tables of 317 chains as functions. The password and group files are arguments.
pub mod Sound
pub mod Requests
pub mod Aliases
use csup.Prelude.{
  ℕ, ◌+◌, ◌-◌, ◌*◌, ◌/◌, ◌%◌, ◌^◌, Bool, true, false, ltb, ◌==◌, if◌then◌else◌, Bytes, List, [],
  ◌∷◌, Option, none, some,
}
use Prim.Native.Nat.{bit_xor}
use csup.Prelude.Run.{Run, done, ◌>>=◌}
use csup.Fattr.{same_target}

-- UIDTONAME_SZ and the like
abbrev pub table_size : ℕ
table_size = 317

-- A char, signed, as a number of 32 bits.
abbrev pub char_word : ℕ → ℕ
char_word c = if ltb c 128 then c else 2 ^ 32 - 256 + c

-- One round of the loop; what is above the 28 bits is folded back into them.
abbrev pub hash_byte : ℕ → ℕ → ℕ
hash_byte h c =
    let sum : ℕ = (h * 16 + char_word c) % 2 ^ 32 in
    let g : ℕ = sum / 2 ^ 28 * 2 ^ 28 in if g == 0 then sum else bit_xor sum (g / 2 ^ 24) % 2 ^ 28

abbrev pub hash_from : ℕ → Bytes → ℕ
hash_from h [] = h
hash_from h (c ∷ name) = hash_from (hash_byte h c) name

unfoldable pub hash : Bytes → ℕ
hash name = hash_from 0 name

-- `struct uidc` and `struct gidc`; the list of entries is `next`.
pub record Entry : Type 0 where
  pub name : Option Bytes
  pub id : ℕ
  pub valid : Bool

abbrev pub Table : Type 0
Table = ℕ → List Entry

-- uidtoname and nametouid, or gidtoname and nametogid.
pub record Cache : Type 0 where
  pub to_name : Table
  pub to_id : Table

abbrev pub empty_cache : Cache
empty_cache = record { to_name = λ key. []; to_id = λ key. [] }

-- uidc_insert() and gidc_insert()
abbrev pub insert : Table → Entry → ℕ → Table
insert table entry key k = if k == key then entry ∷ table k else table k

abbrev pub find_id : List Entry → ℕ → Option Entry
find_id [] id = none
find_id (e ∷ chain) id = if e.id == id then some e else find_id chain id

-- strcmp() with each name; a null pointer is not followed.
unfoldable pub find_name : List Entry → Bytes → Run (Option Entry)
find_name [] name = done none
find_name (e ∷ chain) name =
    let rest = find_name chain name in
    same_target e.name (some name) >>= λ same. if same then done (some e) else rest

module _ (name_of : ℕ → Option Bytes) (id_of : Bytes → Option ℕ) where
  -- What getuserbyid() and getgroupbyid() do when the number is not there.
  unfoldable pub look_up_id : Cache → ℕ → Option Bytes × Cache
  look_up_id c id = elim (name_of id) [
    | none ↦
        let miss : Entry = record { name = none; id = id; valid = false } in
        (none, record c { to_name = insert c.to_name miss (id % table_size) })
    | some n ↦
        let found : Entry = record { name = some n; id = id; valid = true } in
        (
          some n,
          record {
            to_name = insert c.to_name found (id % table_size);
            to_id = insert c.to_id found (hash n % table_size);
          },
        )
  ]

  -- getuserbyid() and getgroupbyid()
  unfoldable pub get_name : Cache → ℕ → Option Bytes × Cache
  get_name c id = elim (find_id (c.to_name (id % table_size)) id) [
    | some e ↦ (e.name, c)
    | none ↦ look_up_id c id
  ]

  -- The number of a name that is not there is -1.
  unfoldable pub look_up_name : Cache → Bytes → Option ℕ × Cache
  look_up_name c n = elim (id_of n) [
    | none ↦
        let miss : Entry = record { name = some n; id = 2 ^ 32 - 1; valid = false } in
        (none, record c { to_id = insert c.to_id miss (hash n % table_size) })
    | some id ↦
        let found : Entry = record { name = some n; id = id; valid = true } in
        (
          some id,
          record {
            to_name = insert c.to_name found (id % table_size);
            to_id = insert c.to_id found (hash n % table_size);
          },
        )
  ]

  -- getuidbyname() and getgidbyname(); `none` stands for the return of -1.
  unfoldable pub get_id : Cache → Bytes → Run (Option ℕ × Cache)
  get_id c n = find_name (c.to_id (hash n % table_size)) n >>= λ found. elim found [
    | some e ↦ done (if e.valid then some e.id else none, c)
    | none ↦ done (look_up_name c n)
  ]

-- The four tables.
pub record Idcache : Type 0 where
  pub users : Cache
  pub groups : Cache

-- idcache_init(): the tables are cleared.
abbrev pub idcache_init : Idcache
idcache_init = record { users = empty_cache; groups = empty_cache }

-- The password file and the group file.
module _ (getpwuid : ℕ → Option Bytes) (getpwnam : Bytes → Option ℕ) where
  unfoldable pub getuserbyid : Idcache → ℕ → Option Bytes × Idcache
  getuserbyid s uid =
      let (n, c) = get_name getpwuid getpwnam s.users uid in (n, record s { users = c })

  unfoldable pub getuidbyname : Idcache → Bytes → Run (Option ℕ × Idcache)
  getuidbyname s n =
      get_id getpwuid getpwnam s.users n >>= λ (uid, c). done (uid, record s { users = c })

module _ (getgrgid : ℕ → Option Bytes) (getgrnam : Bytes → Option ℕ) where
  unfoldable pub getgroupbyid : Idcache → ℕ → Option Bytes × Idcache
  getgroupbyid s gid =
      let (n, c) = get_name getgrgid getgrnam s.groups gid in (n, record s { groups = c })

  unfoldable pub getgidbyname : Idcache → Bytes → Run (Option ℕ × Idcache)
  getgidbyname s n =
      get_id getgrgid getgrnam s.groups n >>= λ (gid, c). done (gid, record s { groups = c })
