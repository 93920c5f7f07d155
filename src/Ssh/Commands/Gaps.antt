-- ===== src/Ssh/Commands/Gaps.antt =====
-- Commands of pkg/ssh/cmd whose check looks at a repository that the command does not concern.
use soft_serve.Base.{
  ◌≡◌, refl, true, none, some, [], Text, str, text_eq, find, update, ◌==◌, Bool-cases, inl, inr,
}
use soft_serve.Access.{admin_access}
use soft_serve.Env.{Env}
use soft_serve.Names.{sanitize_repo, to_lower, validate_username}
use soft_serve.Store.Schema.{User, Repo, Db}
use soft_serve.Store.Exec
use soft_serve.Store.Exec.{ok, err, on_error, transaction, valid, exec}
use soft_serve.Store.Found.{find-update}
use soft_serve.Store.Users as StoredUsers
use soft_serve.Store.Users.{named, update_user, lower_valid}
use soft_serve.System.{World, ◌>>=◌, pure, on_db}
use soft_serve.System.Cache.{Lru}
use soft_serve.Backend.Users
use soft_serve.Backend.Users.{ProtoUser}
use soft_serve.Backend.Access.Decide.{anon_of, collab_of, repo_of, decide-owner}
use soft_serve.Backend.Lifecycle.{Machine}
use soft_serve.Backend.Hosted.{host_of}
use soft_serve.Ssh.Session.{Server, is_public_key_admin, check_if_admin}
use soft_serve.Ssh.Session.Checks.{with_cache, level_at, cache_at, level_on_lem}
use soft_serve.Ssh.Commands.{user_set_admin}
use soft_serve.Ssh.Commands.Admin.{run_admin, run_checked}

module _ {C : Type 0} (env : Env) (lru : Lru C) (m : Machine) (server : Server) where
  owner_level :
      (key : Text) (u : ProtoUser) (arg : Text) (r : Repo) (w : World C)
      → repo_of env (host_of lru m w) w.db none (sanitize_repo env arg) ≡ some r
      → (r.user_id == u.user.id) ≡ true
      → level_at env lru m w (record { key = key; user = some u }) arg ≡ admin_access
  owner_level key u arg r w found mine = rw (
    found,
    decide-owner env (anon_of w.db) u r (collab_of env w.db (sanitize_repo env arg) u.user.username)
        mine,
  )

  set_admin_lem :
      (username : Text) (db : Db)
      → to_lower env username ≡ username
      → validate_username env username ≡ none
      → Users.set_admin env username true db ≡ (
        ok tt,
        record db { users = update (named username) (λ x. record x { admin = true }) db.users },
      )
  unfolding Users.set_admin StoredUsers.set_admin_by_username lower_valid on_error transaction valid
      Exec.◌>>=◌ update_user exec
  set_admin_lem username db low good = rw (low, low, good)

  -- the owner of a repository passes the check on it, which changes the cache only
  pub owner_passes :
      (key : Text) (u : ProtoUser) (arg : Text) (r : Repo) (w : World C)
      → repo_of env (host_of lru m w) w.db none (sanitize_repo env arg) ≡ some r
      → (r.user_id == u.user.id) ≡ true
      → (c : C) × (check_if_admin env lru m server (record { key = key; user = some u }) arg w
          ≡ (ok tt, with_cache w c))
  unfolding check_if_admin ◌>>=◌ pure
  owner_passes key u arg r w found mine = elim (Bool-cases (is_public_key_admin server key)) [
    | inl listed ↦ (w.cache, rw listed)
    | inr other ↦ elim (Bool-cases (u.user.admin)) [
      | inl admin ↦ (w.cache, rw (other, admin))
      | inr guest ↦ (
        cache_at env lru m w (record { key = key; user = some u }) arg,
        simp (
          other,
          guest,
          level_on_lem env lru m (record { key = key; user = some u }) arg w,
          owner_level key u arg r w found mine,
        ),
      )
    ]
  ]

  set_admin_run :
      (key : Text) (u : ProtoUser) (username : Text) (r : Repo) (w : World C)
      → to_lower env username ≡ username
      → validate_username env username ≡ none
      → repo_of env (host_of lru m w) w.db none (sanitize_repo env username) ≡ some r
      → (r.user_id == u.user.id) ≡ true
      → (c : C) × (run_admin env lru m server
            (record { key = key; user = some u })
            (user_set_admin username (str "true"))
            w
          ≡ (
            ok [],
            record w {
              db = record (w.db) {
                users = update (named username) (λ x. record x { admin = true }) w.db.users;
              };
              cache = c;
            },
          ))
  unfolding run_admin run_checked ◌>>=◌ on_db pure text_eq
  set_admin_run key u username r w low good found mine =
      let (c, passes) = owner_passes key u username r w found mine in
      (c, rw (passes, set_admin_lem username w.db low good))

  -- Whoever owns a repository whose name is the username of a user makes that user an administrator, by
  -- `user set-admin`: the check takes the username for the name of a repository. Neither the session's
  -- user nor its key needs to be an administrator's.
  pub run_admin-owner :
      (key : Text) (u : ProtoUser) (username : Text) (r : Repo) (x : User) (w : World C)
      → to_lower env username ≡ username
      → validate_username env username ≡ none
      → find (named username) w.db.users ≡ some x
      → repo_of env (host_of lru m w) w.db none (sanitize_repo env username) ≡ some r
      → (r.user_id == u.user.id) ≡ true
      → let (result, after) =
          run_admin env lru m server
            (record { key = key; user = some u })
            (user_set_admin username (str "true"))
            w in
        (result ≡ ok []) × (find (named username) after.db.users ≡ some (record x { admin = true }))
  run_admin-owner key u username r x w low good there found mine =
      let (c, ran) = set_admin_run key u username r w low good found mine in
      rw ran (
        refl,
        find-update (named username) (λ y. record y { admin = true }) (λ y. refl) w.db.users x
            there,
      )
