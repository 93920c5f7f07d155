-- ===== src/Store/Repos.antt =====
-- pkg/store/database/repo.go
use soft_serve.Base.{
  ℕ, zero, suc, ◌+◌, Bool, not, ◌||◌, ◌&&◌, List, [], ◌∷◌, ◌++◌, Text, text_eq, ◌==◌, any, contains,
  select, update,
}
use soft_serve.Env.{Env}
use soft_serve.Names.{sanitize_repo}
use soft_serve.Store.Schema.{Repo, user_ids, delete_repos}
use soft_serve.Store.Exec.{
  Exec, ◌>>=◌, pure, gets, get_one, exec, checked, raise, constraint, not_null, on_error,
  wrap_error,
}

abbrev pub titled : Text → Repo → Bool
titled name r = text_eq r.name name

-- INSERT INTO repos: the name is unique, and the owner exists
unfoldable pub insert_repo : Text → ℕ → Text → Text → Bool → Bool → Bool → Exec (Unit {0})
insert_repo name user_id project_name description is_private is_hidden is_mirror db =
    checked (any (titled name) db.repos || not (contains (user_ids db) user_id)) constraint tt
      (λ d. record d {
        repos =
            d.repos
            ++ record {
              id = d.next_repo;
              name = name;
              project_name = project_name;
              description = description;
              private = is_private;
              mirror = is_mirror;
              hidden = is_hidden;
              user_id = user_id;
            }
              ∷ [];
        next_repo = d.next_repo + 1;
      })
      db

-- UPDATE repos ... WHERE name = ?, for columns without a constraint
unfoldable pub update_repo : Text → (Repo → Repo) → Exec (Unit {0})
update_repo name f = exec (λ db. record db { repos = update (titled name) f db.repos })

-- UPDATE repos SET name = new WHERE name = old: no other row may have the new name
unfoldable pub update_repo_name : Text → Text → Exec (Unit {0})
update_repo_name old new db =
    checked (not (text_eq old new) && any (titled old) db.repos && any (titled new) db.repos)
      constraint tt
      (λ d. record d { repos = update (titled old) (λ r. record r { name = new }) d.repos }) db

module _ (env : Env) where
  -- CreateRepo: without an owner the column user_id, which is NOT NULL, gets no value
  unfoldable pub create_repo : Text → ℕ → Text → Text → Bool → Bool → Bool → Exec (Unit {0})
  create_repo name zero project_name description is_private is_hidden is_mirror = raise not_null
  create_repo name (suc user_id) project_name description is_private is_hidden is_mirror =
      on_error wrap_error (
        insert_repo (sanitize_repo env name) (suc user_id) project_name description is_private
          is_hidden is_mirror)

  -- DeleteRepoByName
  unfoldable pub delete_repo_by_name : Text → Exec (Unit {0})
  delete_repo_by_name name = exec (delete_repos (titled (sanitize_repo env name)))

  -- GetAllRepos
  unfoldable pub get_all_repos : Exec (List Repo)
  get_all_repos = gets (λ db. db.repos)

  -- GetUserRepos
  unfoldable pub get_user_repos : ℕ → Exec (List Repo)
  get_user_repos user_id = gets (λ db. select (λ r. r.user_id == user_id) db.repos)

  -- GetRepoByName
  unfoldable pub get_repo_by_name : Text → Exec Repo
  get_repo_by_name name = get_one (λ db. db.repos) (titled (sanitize_repo env name))

  -- GetRepoDescriptionByName
  unfoldable pub get_repo_description_by_name : Text → Exec Text
  get_repo_description_by_name name = do r ← get_repo_by_name name; pure r.description

  -- GetRepoIsHiddenByName
  unfoldable pub get_repo_is_hidden_by_name : Text → Exec Bool
  get_repo_is_hidden_by_name name = do r ← get_repo_by_name name; pure r.hidden

  -- GetRepoIsMirrorByName
  unfoldable pub get_repo_is_mirror_by_name : Text → Exec Bool
  get_repo_is_mirror_by_name name = do r ← get_repo_by_name name; pure r.mirror

  -- GetRepoIsPrivateByName
  unfoldable pub get_repo_is_private_by_name : Text → Exec Bool
  get_repo_is_private_by_name name = do r ← get_repo_by_name name; pure r.private

  -- GetRepoProjectNameByName
  unfoldable pub get_repo_project_name_by_name : Text → Exec Text
  get_repo_project_name_by_name name = do r ← get_repo_by_name name; pure r.project_name

  -- SetRepoDescriptionByName
  unfoldable pub set_repo_description_by_name : Text → Text → Exec (Unit {0})
  set_repo_description_by_name name description =
      update_repo (sanitize_repo env name) (λ r. record r { description = description })

  -- SetRepoIsHiddenByName
  unfoldable pub set_repo_is_hidden_by_name : Text → Bool → Exec (Unit {0})
  set_repo_is_hidden_by_name name is_hidden =
      update_repo (sanitize_repo env name) (λ r. record r { hidden = is_hidden })

  -- SetRepoIsPrivateByName
  unfoldable pub set_repo_is_private_by_name : Text → Bool → Exec (Unit {0})
  set_repo_is_private_by_name name is_private =
      update_repo (sanitize_repo env name) (λ r. record r { private = is_private })

  -- SetRepoNameByName
  unfoldable pub set_repo_name_by_name : Text → Text → Exec (Unit {0})
  set_repo_name_by_name name new_name =
      on_error wrap_error (update_repo_name (sanitize_repo env name) (sanitize_repo env new_name))

  -- SetRepoProjectNameByName
  unfoldable pub set_repo_project_name_by_name : Text → Text → Exec (Unit {0})
  set_repo_project_name_by_name name project_name =
      update_repo (sanitize_repo env name) (λ r. record r { project_name = project_name })
