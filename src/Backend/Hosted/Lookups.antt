-- ===== src/Backend/Hosted/Lookups.antt =====
-- The lookup of a repository (Repository of pkg/backend/repo.go) and the access decision that makes it
-- (AccessLevelForUser of pkg/backend/user.go): what they return, and that they change the cache only.
use soft_serve.Base.{
  ◌≡◌, refl, ap, false, Option, none, some, Text, find, Bool-cases, Option-cases, inl, inr,
}
use soft_serve.Access.{AccessLevel}
use soft_serve.Env.{Env}
use soft_serve.Names.{sanitize_repo}
use soft_serve.Store.Schema.{Repo}
use soft_serve.Store.Exec
use soft_serve.Store.Exec.{Result, ok, err, get_one, one}
use soft_serve.Store.Repos.{titled, get_repo_by_name}
use soft_serve.System.{
  World, ◌>>=◌, pure, raise, on_db, on_cache, reads_disk, on_error, transaction, attempt,
}
use soft_serve.System.Disk.{exists}
use soft_serve.System.Cache.{Lru, LruLaws, hit}
use soft_serve.Backend.Users.{ProtoUser}
use soft_serve.Backend.Access.{is_admin, username_of}
use soft_serve.Backend.Access.Decide.{
  anon_of, anon_access_lem, collab_of, repo_of, ok_of, decide, decide-admin, found_access-decide,
}
use soft_serve.Backend.Repos
use soft_serve.Backend.Repos.{load_repository}
use soft_serve.Backend.Lifecycle.{Machine, path_of, load, repository}
use soft_serve.Backend.Hosted.{host_of, level_for_user}

module _ {C : Type 0} (env : Env) (lru : Lru C) (m : Machine) where
  -- the cache after a lookup, and the state with it
  abbrev pub after_lookup : Text → World C → C
  after_lookup name w = (repository env lru m name w).1.cache

  -- what a lookup returns
  abbrev pub looked : Text → World C → Result Repo
  looked name w = (Repos.repository env (host_of lru m w) name w.db).0

  -- Repository returns what it would return on the tables alone, and changes the cache only.
  pub lookup_lem :
      (name : Text) (w : World C)
      → repository env lru m name w ≡ (looked name w, record w { cache = after_lookup name w })
  unfolding repository load Repos.repository load_repository get_repo_by_name get_one one
      Exec.on_error Exec.transaction ◌>>=◌ on_db on_cache reads_disk on_error transaction raise pure
      Exec.raise Exec.pure
  lookup_lem name w = elim (Option-cases (hit lru (sanitize_repo env name) w.cache)) [
    | inr (r, found) ↦ rw (looked, after_lookup, found) refl
    | inl missed ↦ elim (Bool-cases (exists (path_of env m (sanitize_repo env name)) w.disk)) [
      | inr gone ↦ rw (looked, after_lookup, missed, gone) refl
      | inl there ↦
          elim (Option-cases
            (find (titled (sanitize_repo env (sanitize_repo env name))) w.db.repos)) [
              | inl missing ↦ rw (looked, after_lookup, missed, there, missing) refl
              | inr (r, found) ↦ rw (looked, after_lookup, missed, there, found) refl
            ]
    ]
  ]

  -- a second lookup returns the same
  pub lookup_again :
      (name : Text) (w : World C)
      → LruLaws lru
      → looked name (record w { cache = after_lookup name w }) ≡ looked name w
  unfolding repository load Repos.repository load_repository get_repo_by_name get_one one
      Exec.on_error Exec.transaction ◌>>=◌ on_db on_cache reads_disk on_error transaction raise pure
      Exec.pure
  lookup_again name w laws =
      let key = sanitize_repo env name in
      let kept = laws.hit-get key key w.cache in
      elim (Option-cases (hit lru key w.cache)) [
        | inr (r, found) ↦ rw (looked, after_lookup, found, kept, found) refl
        | inl missed ↦ elim (Bool-cases (exists (path_of env m key) w.disk)) [
          | inr gone ↦ rw (looked, after_lookup, missed, gone, kept, missed) refl
          | inl there ↦ elim (Option-cases (find (titled (sanitize_repo env key)) w.db.repos)) [
            | inl missing ↦
                rw (looked, after_lookup, missed, there, missing, kept, missed, missing) refl
            | inr (r, found) ↦
                rw
                  (
                    looked,
                    after_lookup,
                    missed,
                    there,
                    found,
                    laws.hit-add key r (lru.get key w.cache).1,
                  )
                  refl
          ]
        ]
      ]

  -- the cache after an access decision
  abbrev pub after_level : Text → Option ProtoUser → World C → C
  after_level repo u w = (level_for_user env lru m repo u w).1.cache

  -- the decision on what the state holds
  abbrev pub level_in : Text → Option ProtoUser → World C → AccessLevel
  level_in repo u w =
      decide env (anon_of w.db) u (repo_of env (host_of lru m w) w.db none repo)
        (collab_of env w.db repo (username_of u))

  found_level :
      (repo : Text) (u : Option ProtoUser) (w : World C) (r : Result Repo)
      → is_admin u ≡ false
      → looked repo w ≡ r
      → level_for_user env lru m repo u w
        ≡ (ok (level_in repo u w), record w { cache = after_lookup repo w })
  unfolding level_for_user ◌>>=◌ on_db attempt
  found_level repo u w (ok r) guest e = rw (
    anon_access_lem env w.db,
    guest,
    lookup_lem repo w,
    e,
    found_access-decide env (some r) repo u (anon_of w.db) w.db guest,
  )
  found_level repo u w (err x) guest e = rw (
    anon_access_lem env w.db,
    guest,
    lookup_lem repo w,
    e,
    found_access-decide env none repo u (anon_of w.db) w.db guest,
  )

  -- AccessLevelForUser returns the decision on what the state holds, and changes the cache only.
  pub level_lem :
      (repo : Text) (u : Option ProtoUser) (w : World C)
      → level_for_user env lru m repo u w
        ≡ (ok (level_in repo u w), record w { cache = after_level repo u w })
  unfolding level_for_user ◌>>=◌ on_db pure
  level_lem repo u w = elim (Bool-cases (is_admin u)) [
    | inl admin ↦ rw (
      after_level,
      anon_access_lem env w.db,
      admin,
      decide-admin env (anon_of w.db) u (repo_of env (host_of lru m w) w.db none repo)
          (collab_of env w.db repo (username_of u)) admin,
    )
    | inr guest ↦ rw (after_level, found_level repo u w (looked repo w) guest refl)
  ]

  -- a second decision is the same
  pub level_again :
      (repo : Text) (u : Option ProtoUser) (w : World C)
      → LruLaws lru
      → level_in repo u (record w { cache = after_level repo u w }) ≡ level_in repo u w
  unfolding level_for_user ◌>>=◌ on_db pure
  level_again repo u w laws = elim (Bool-cases (is_admin u)) [
    | inl admin ↦ rw (after_level, anon_access_lem env w.db, admin)
    | inr guest ↦
        rw (after_level, found_level repo u w (looked repo w) guest refl)
          (ap
            (λ r.
              decide env (anon_of w.db) u (ok_of env r) (collab_of env w.db repo (username_of u)))
            (lookup_again repo w laws))
  ]
