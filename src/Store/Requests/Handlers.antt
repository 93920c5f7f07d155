-- ===== src/Store/Requests/Handlers.antt =====
-- The methods of pkg/store/database that write, one by one, and the consistency of the tables.
use soft_serve.Base.{
  ℕ, zero, suc, ◌≡◌, Bool, not, ◌&&◌, List, [], ◌∷◌, Text, text_eq, ◌==◌, any, find, select,
  All-select, update, Option-cases, inl, inr,
}
use soft_serve.Access.{AccessLevel}
use soft_serve.Env.{Env}
use soft_serve.Names.{sanitize_repo}
use soft_serve.Store.Schema.{
  User, Repo, AccessToken, Collab, PublicKey, LfsLock, LfsObject, Db, delete_users, delete_repos,
}
use soft_serve.Store.Exec.{◌>>=◌, exec, raise}
use soft_serve.Store.Exec.Preserves.{
  Preserves, Preserves-exec, Preserves-bind, Preserves-raise, Preserves-on_error, preserves_rules,
}
use soft_serve.Store.Rows.{Distinct-select}
use soft_serve.Store.Consistent.{IsConsistent}
use soft_serve.Store.Consistent.Deletes.{delete_users-IsConsistent, delete_repos-IsConsistent}
use soft_serve.Store.Consistent.Statements.{
  IsNumbered-select, insert_public_key-IsConsistent, insert_user-IsConsistent,
  users_kept-IsConsistent, update_username-IsConsistent,
}
use soft_serve.Store.Consistent.Rows.{
  insert_repo-IsConsistent, repos_kept-IsConsistent, insert_collab-IsConsistent, find-contains,
}
use soft_serve.Store.Users.{
  named, lower_valid, update_user, insert_public_keys, add_public_key_by_username, create_user,
  delete_user_by_username, remove_public_key_by_username, set_username_by_username,
}
use soft_serve.Store.Repos.{titled, create_repo}
use soft_serve.Store.Collabs.{
  joins, insert_collab_of, add_collab_by_username_and_repo, remove_collab_by_username_and_repo,
}

pub exec_users-IsConsistent :
    (p : User → Bool) (f : User → User)
    → ((u : User) → (f u).id ≡ u.id)
    → ((u : User) → (f u).username ≡ u.username)
    → Preserves IsConsistent (exec (λ db. record db { users = update p f db.users }))
exec_users-IsConsistent p f k n =
    Preserves-exec _ λ db h. users_kept-IsConsistent p f k {db = db} n h

pub exec_repos-IsConsistent :
    (p : Repo → Bool) (f : Repo → Repo)
    → ((r : Repo) → (f r).id ≡ r.id)
    → ((r : Repo) → (f r).user_id ≡ r.user_id)
    → ((r : Repo) → (f r).name ≡ r.name)
    → Preserves IsConsistent (exec (λ db. record db { repos = update p f db.repos }))
exec_repos-IsConsistent p f k o n =
    Preserves-exec _ λ db h. repos_kept-IsConsistent p f k o {db = db} n h

delete_users_rule : (p : User → Bool) → Preserves IsConsistent (exec (delete_users p))
delete_users_rule p = Preserves-exec _ λ db h. delete_users-IsConsistent {db = db} p h

pub delete_repos_rule : (p : Repo → Bool) → Preserves IsConsistent (exec (delete_repos p))
delete_repos_rule p = Preserves-exec _ λ db h. delete_repos-IsConsistent {db = db} p h

pub delete_tokens_rule :
    (p : AccessToken → Bool)
    → Preserves IsConsistent (exec (λ db. record db { access_tokens = select p db.access_tokens }))
delete_tokens_rule p = Preserves-exec _ λ db h. assumption (
  Distinct-select _ p db.access_tokens h.tokens,
  IsNumbered-select (λ r. r.id) db.next_token p db.access_tokens h.token_ids,
  All-select _ p db.access_tokens h.token_user,
)

pub delete_locks_rule :
    (p : LfsLock → Bool)
    → Preserves IsConsistent (exec (λ db. record db { lfs_locks = select p db.lfs_locks }))
delete_locks_rule p = Preserves-exec _ λ db h. assumption (
  Distinct-select _ p db.lfs_locks h.locks,
  IsNumbered-select (λ r. r.id) db.next_lock p db.lfs_locks h.lock_ids,
  All-select _ p db.lfs_locks h.lock_user,
  All-select _ p db.lfs_locks h.lock_repo,
)

pub delete_objects_rule :
    (p : LfsObject → Bool)
    → Preserves IsConsistent (exec (λ db. record db { lfs_objects = select p db.lfs_objects }))
delete_objects_rule p = Preserves-exec _ λ db h. assumption (
  Distinct-select _ p db.lfs_objects h.objects,
  IsNumbered-select (λ r. r.id) db.next_object p db.lfs_objects h.object_ids,
  All-select _ p db.lfs_objects h.object_repo,
)

-- the ids that the subqueries of the INSERT find belong to rows
insert_collab_of-IsConsistent :
    (level : AccessLevel) (name repo : Text) (db : Db)
    → IsConsistent db
    → IsConsistent
        (insert_collab_of level (find (named name) db.users) (find (titled repo) db.repos) db).1
insert_collab_of-IsConsistent level name repo db h =
    elim (Option-cases (find (named name) db.users)) [
      | inl no_user ↦ rw no_user (unfold raise in h)
      | inr (u, found) ↦ elim (Option-cases (find (titled repo) db.repos)) [
        | inl no_repo ↦ rw (found, no_repo) (unfold raise in h)
        | inr (r, found_repo) ↦
            rw (found, found_repo)
              (insert_collab-IsConsistent level u r db
                (find-contains (λ v. v.id) _ db.users u found)
                (find-contains (λ s. s.id) _ db.repos r found_repo) h)
      ]
    ]

module _ (env : Env) where
  lower_valid-IsConsistent : (username : Text) → Preserves IsConsistent (lower_valid env username)
  unfolding lower_valid
  lower_valid-IsConsistent username = search preserves_rules

  insert_public_keys-IsConsistent :
      (user_id : ℕ) (pks : List Text) → Preserves IsConsistent (insert_public_keys env user_id pks)
  unfolding insert_public_keys
  insert_public_keys-IsConsistent user_id [] = search preserves_rules
  insert_public_keys-IsConsistent user_id (pk ∷ pks) =
      Preserves-bind _ _ (insert_public_key-IsConsistent user_id (env.marshal_key pk))
        λ _. insert_public_keys-IsConsistent user_id pks

  ruleset consistent_rules = (
    preserves_rules, insert_public_key-IsConsistent, insert_user-IsConsistent,
    update_username-IsConsistent, lower_valid-IsConsistent, insert_public_keys-IsConsistent,
    delete_users_rule, delete_repos_rule,
  )

  pub add_public_key-IsConsistent :
      (username pk : Text) → Preserves IsConsistent (add_public_key_by_username env username pk)
  unfolding add_public_key_by_username
  add_public_key-IsConsistent username pk = search consistent_rules

  pub create_user-IsConsistent :
      (username : Text) (is_admin : Bool) (pks : List Text)
      → Preserves IsConsistent (create_user env username is_admin pks)
  unfolding create_user
  create_user-IsConsistent username is_admin pks = search consistent_rules

  pub delete_user-IsConsistent :
      (username : Text) → Preserves IsConsistent (delete_user_by_username env username)
  unfolding delete_user_by_username
  delete_user-IsConsistent username = search consistent_rules

  pub set_username-IsConsistent :
      (username new_username : Text)
      → Preserves IsConsistent (set_username_by_username env username new_username)
  unfolding set_username_by_username
  set_username-IsConsistent username new_username = search consistent_rules

  -- UPDATE users SET ... WHERE username = ?, behind the check of the name
  pub update_user-IsConsistent :
      (username : Text) (f : User → User)
      → ((u : User) → (f u).id ≡ u.id)
      → ((u : User) → (f u).username ≡ u.username)
      → Preserves IsConsistent (lower_valid env username >>= λ name. update_user name f)
  unfolding update_user
  update_user-IsConsistent username f k n =
      Preserves-bind _ _ (lower_valid-IsConsistent username)
        λ name. exec_users-IsConsistent (named name) f k n

  pub remove_key-IsConsistent :
      (username pk : Text) → Preserves IsConsistent (remove_public_key_by_username env username pk)
  unfolding remove_public_key_by_username
  remove_key-IsConsistent username pk =
      Preserves-bind _ _ (lower_valid-IsConsistent username) λ name. Preserves-exec _ λ db h.
        let left : PublicKey → Bool = λ k. not (
          any (λ u. named name u && u.id == k.user_id) db.users
          && text_eq k.public_key (env.marshal_key pk)) in
        assumption (
          Distinct-select _ left db.public_keys h.keys,
          IsNumbered-select (λ r. r.id) db.next_key left db.public_keys h.key_ids,
          All-select _ left db.public_keys h.key_user,
        )

  pub create_repo-IsConsistent :
      (name : Text) (user_id : ℕ) (project_name description : Text)
      (is_private is_hidden is_mirror : Bool)
      → Preserves IsConsistent
          (create_repo env name user_id project_name description is_private is_hidden is_mirror)
  unfolding create_repo
  create_repo-IsConsistent name zero project_name description is_private is_hidden is_mirror =
      Preserves-raise _
  create_repo-IsConsistent name (suc user_id) project_name description is_private is_hidden
        is_mirror =
      Preserves-on_error _ _ (insert_repo-IsConsistent _ _ _ _ _ _ _)

  pub add_collab-IsConsistent :
      (username repo : Text) (level : AccessLevel)
      → Preserves IsConsistent (add_collab_by_username_and_repo env username repo level)
  unfolding add_collab_by_username_and_repo ◌>>=◌
  add_collab-IsConsistent username repo level =
      Preserves-bind _ _ (lower_valid-IsConsistent username) λ name. record {
        at = λ db h. insert_collab_of-IsConsistent level name (sanitize_repo env repo) db h;
      }

  pub remove_collab-IsConsistent :
      (username repo : Text)
      → Preserves IsConsistent (remove_collab_by_username_and_repo env username repo)
  unfolding remove_collab_by_username_and_repo
  remove_collab-IsConsistent username repo =
      Preserves-bind _ _ (lower_valid-IsConsistent username) λ name. Preserves-exec _ λ db h.
        let left : Collab → Bool = λ c. not (joins db name (sanitize_repo env repo) c) in
        assumption (
          Distinct-select _ left db.collabs h.collabs,
          IsNumbered-select (λ r. r.id) db.next_collab left db.collabs h.collab_ids,
          All-select _ left db.collabs h.collab_user,
          All-select _ left db.collabs h.collab_repo,
        )
