-- ===== src/Idcache/Aliases.antt =====
-- Two names for one number, idcache.c: what is answered depends on the calls before.
use csup.Prelude.{ℕ, ◌%◌, ◌≡◌, refl, arith, true, ◌==◌, Bytes, Option, some}
use csup.Prelude.Run.{done}
use csup.Idcache.{table_size, Cache, empty_cache, find_name, look_up_name, get_name, get_id}

-- If the name `alias` has the number `u`, then after getuidbyname() has been called for it on empty
-- caches, getuserbyid() answers `alias` for `u`, whatever name the password file has for `u`.
pub get_name-after_alias :
    (name_of : ℕ → Option Bytes) (id_of : Bytes → Option ℕ) (alias : Bytes) (u : ℕ)
    → id_of alias ≡ some u
    → (c : Cache) × (get_id name_of id_of empty_cache alias ≡ done (some u, c))
      × ((get_name name_of id_of c u).0 ≡ some alias)
unfolding get_id get_name look_up_name find_name
get_name-after_alias name_of id_of alias u h =
    let same : (u == u) ≡ true = ground arith in
    let key : (u % table_size == u % table_size) ≡ true = ground arith in
    (
      (look_up_name name_of id_of empty_cache alias).1,
      rw (get_id, look_up_name, h) refl,
      rw (get_name, look_up_name, h, key, same) refl,
    )
