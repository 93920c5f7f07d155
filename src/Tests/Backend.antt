-- ===== src/Tests/Backend.antt =====
-- The backend at concrete inputs.
use soft_serve.Backend.Tokens.{create_access_token}
use soft_serve.Backend.Tokens.Created.{create_access_token-find}
use soft_serve.Store.Tokens
use soft_serve.Store.Tokens.{get_access_token, get_access_token_by_token, insert_access_token}
use soft_serve.Store.Schema.{Db, AccessToken}
use soft_serve.Base.{◌≡◌, refl, ◌↔◌, none, some, [], str, text_eq, trim_suffix, trim_prefix, arith}
use soft_serve.Access.{AccessLevel, read_only_access, no_access}
use soft_serve.Paths.{clean_rooted, join, split, resolve_all}
use soft_serve.Names.{sanitize, to_lower, sanitize_repo, validate_username}
use soft_serve.Store.Users.{lower_valid, insert_public_key, add_public_key_by_username}
use soft_serve.Store.Repos.{get_repo_by_name}
use soft_serve.Store.Exec.{◌>>=◌, on_error, transaction, get_one, Error, ok, err, token_expired}
use soft_serve.Backend.Users.{add_public_key, user_by_access_token}
use soft_serve.Backend.Users.Laws.{add_public_key_unique}
use soft_serve.Backend.Repos.{repository}
use soft_serve.Backend.Tokens.Laws.{user_by_access_token-expired}
use soft_serve.Backend.Access.{access_level_for_user}
use soft_serve.Backend.Access.Decide.{
  access_level_for_user-decide, decide, anon_of, repo_of, collab_of,
}
use soft_serve.Backend.Access.Laws.{
  access_level_for_user-private, access_level_for_user-Writer, access_level_for_user-public,
  CanWrite, Writer,
}
use soft_serve.Tests.Data.{env, host, bob_session, open_repo, secret_repo, old_token, db}

found_open : repo_of env host db none (str "a") ≡ some open_repo
unfolding repository on_error transaction get_repo_by_name get_one text_eq sanitize_repo trim_suffix
    clean_rooted join resolve_all split trim_prefix sanitize
found_open = refl

found_secret : repo_of env host db none (str "b") ≡ some secret_repo
unfolding repository on_error transaction get_repo_by_name get_one text_eq sanitize_repo trim_suffix
    clean_rooted join resolve_all split trim_prefix sanitize
found_secret = refl

bob_outside :
    (collab_of env db (str "a") (str "bob") ≡ none)
    × (collab_of env db (str "b") (str "bob") ≡ none)
unfolding text_eq validate_username to_lower
bob_outside = (refl, refl)

access_level_for_user-decide_example :
    access_level_for_user env host none (str "a") (some bob_session) db ≡ (
      ok (
          decide env
            (anon_of db)
            (some bob_session)
            (repo_of env host db none (str "a"))
            (collab_of env db (str "a") (str "bob"))),
      db,
    )
access_level_for_user-decide_example =
    access_level_for_user-decide env host none (str "a") (some bob_session) db

access_level_for_user-Writer_example :
    (l : AccessLevel) × (access_level_for_user env host none (str "a") none db ≡ (ok l, db))
    × (CanWrite l ↔ Writer (anon_of db) none open_repo (collab_of env db (str "a") []))
access_level_for_user-Writer_example =
    access_level_for_user-Writer env host none (str "a") none db open_repo found_open

access_level_for_user-private_example :
    access_level_for_user env host none (str "b") (some bob_session) db ≡ (ok no_access, db)
access_level_for_user-private_example =
    access_level_for_user-private env host none (str "b") (some bob_session) db secret_repo
      found_secret refl refl refl bob_outside.1

access_level_for_user-public_example :
    (access_level_for_user env host none (str "a") (some bob_session) db
      ≡ (ok read_only_access, db))
    × (access_level_for_user env host none (str "a") none db ≡ (ok (anon_of db), db))
access_level_for_user-public_example =
    access_level_for_user-public env host none (str "a") bob_session db open_repo found_open refl
      refl refl bob_outside.0

key_added :
    add_public_key env (str "bob") (str "key") db
    ≡ (ok tt, (add_public_key env (str "bob") (str "key") db).1)
unfolding add_public_key ◌>>=◌ validate_username to_lower on_error transaction
    add_public_key_by_username lower_valid text_eq insert_public_key
key_added = refl

add_public_key_unique_example :
    (x : Error) × (add_public_key env
        (str "ann")
        (str "key")
        (add_public_key env (str "bob") (str "key") db).1
      ≡ (err x, (add_public_key env (str "bob") (str "key") db).1))
add_public_key_unique_example =
    add_public_key_unique env (str "bob") (str "ann") (str "key") db
      (add_public_key env (str "bob") (str "key") db).1 key_added

user_by_access_token-expired_example :
    user_by_access_token env 11 (str "x") db ≡ (err token_expired, db)
unfolding text_eq
user_by_access_token-expired_example =
    user_by_access_token-expired env 11 10 (str "x") old_token db refl refl (omega arith)

abbrev token_db : Db
token_db = (create_access_token env (str "z") bob_session (str "cli") (some 9) db).1

token_created :
    create_access_token env (str "z") bob_session (str "cli") (some 9) db ≡ (ok (str "z"), token_db)
unfolding create_access_token Tokens.create_access_token insert_access_token get_access_token
    on_error transaction text_eq ◌>>=◌
token_created = refl

create_access_token-find_example :
    (t : AccessToken) × (get_access_token_by_token (env.hash_token (str "z")) token_db
      ≡ (ok t, token_db))
    × (t.user_id ≡ 2)
    × (t.name ≡ sanitize env (str "cli"))
    × (t.expires_at ≡ some 9)
create_access_token-find_example =
    create_access_token-find env (str "z") bob_session (str "cli") (some 9) (str "z") db token_db
      token_created
