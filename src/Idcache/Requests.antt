-- ===== src/Idcache/Requests.antt =====
-- Lookups of users and groups over idcache.c, one after the other.
use csup.Prelude.{ℕ, ◌≡◌, refl, Bytes, List, [], ◌∷◌, Option, map}
use csup.Prelude.Run.{Run, done, ◌>>=◌}
use csup.Idcache.{Idcache, idcache_init, getuserbyid, getgroupbyid, getuidbyname, getgidbyname}
use csup.Idcache.Sound.{IsMatched, IsSound, get_name-IsSound, get_id-IsSound, empty_cache-IsSound}

-- A call of one of the four functions, and its answer.
pub data Request : Type 0 where
  user_name : ℕ → Request
  group_name : ℕ → Request
  user_id : Bytes → Request
  group_id : Bytes → Request

pub data Answer : Type 0 where
  name : Option Bytes → Answer
  id : Option ℕ → Answer

module _ (getpwuid : ℕ → Option Bytes) (getpwnam : Bytes → Option ℕ) (getgrgid : ℕ → Option Bytes)
    (getgrnam : Bytes → Option ℕ) where
  abbrev pub request : Idcache → Request → Run (Answer × Idcache)
  request s (user_name u) = let (n, s') = getuserbyid getpwuid getpwnam s u in done (name n, s')
  request s (group_name g) = let (n, s') = getgroupbyid getgrgid getgrnam s g in done (name n, s')
  request s (user_id n) = getuidbyname getpwuid getpwnam s n >>= λ (u, s'). done (id u, s')
  request s (group_id n) = getgidbyname getgrgid getgrnam s n >>= λ (g, s'). done (id g, s')

  -- One after the other: each of them holds the lock of its tables.
  unfoldable pub requests : Idcache → List Request → Run (List Answer × Idcache)
  requests s [] = done ([], s)
  requests s (r ∷ rs) =
      request s r >>= λ (a, s'). (requests s' rs >>= λ (more, last). done (a ∷ more, last))

  -- What the files answer.
  abbrev pub looked_up : Request → Answer
  looked_up (user_name u) = name (getpwuid u)
  looked_up (group_name g) = name (getgrgid g)
  looked_up (user_id n) = id (getpwnam n)
  looked_up (group_id n) = id (getgrnam n)

  -- Every entry is what the files say.
  pub record AllSound (s : Idcache) : Type 0 where
    pub of_users : IsSound getpwuid getpwnam s.users
    pub of_groups : IsSound getgrgid getgrnam s.groups

  module _ (mu : IsMatched getpwuid getpwnam) (mg : IsMatched getgrgid getgrnam) where
    request_sound :
        (s : Idcache) (r : Request)
        → AllSound s
        → (s' : Idcache) × (request s r ≡ done (looked_up r, s')) × AllSound s'
    unfolding getuserbyid getgroupbyid getuidbyname getgidbyname
    request_sound s (user_name u) ok =
        let (same, sound) = get_name-IsSound getpwuid getpwnam mu s.users u ok.of_users in
        (_, rw same refl, record { of_users = sound; of_groups = ok.of_groups })
    request_sound s (group_name g) ok =
        let (same, sound) = get_name-IsSound getgrgid getgrnam mg s.groups g ok.of_groups in
        (_, rw same refl, record { of_users = ok.of_users; of_groups = sound })
    request_sound s (user_id n) ok =
        let (c, same, sound) = get_id-IsSound getpwuid getpwnam mu s.users n ok.of_users in
        (
          record s { users = c },
          rw (getuidbyname, same) refl,
          record { of_users = sound; of_groups = ok.of_groups },
        )
    request_sound s (group_id n) ok =
        let (c, same, sound) = get_id-IsSound getgrgid getgrnam mg s.groups n ok.of_groups in
        (
          record s { groups = c },
          rw (getgidbyname, same) refl,
          record { of_users = ok.of_users; of_groups = sound },
        )

    requests_sound :
        (s : Idcache) (rs : List Request)
        → AllSound s
        → (last : Idcache) × (requests s rs ≡ done (map looked_up rs, last)) × AllSound last
    unfolding requests
    requests_sound s [] ok = (s, refl, ok)
    requests_sound s (r ∷ rs) ok =
        let (s', same, sound) = request_sound s r ok in
        let (last, rest, ends) = requests_sound s' rs sound in (last, rw (same, rest) refl, ends)

    -- If in both files each number has one name and each name one number, then whatever calls are
    -- made behind idcache_init(), each of them answers what the password file or the group file
    -- answers, and every entry of the tables stays what the files say.
    pub requests_answer :
        (rs : List Request)
        → (last : Idcache) × (requests idcache_init rs ≡ done (map looked_up rs, last))
          × AllSound last
    requests_answer rs = requests_sound idcache_init rs (record {
      of_users = empty_cache-IsSound getpwuid getpwnam;
      of_groups = empty_cache-IsSound getgrgid getgrnam;
    })
