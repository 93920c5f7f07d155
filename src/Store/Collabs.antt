-- ===== src/Store/Collabs.antt =====
-- pkg/store/database/collab.go
use soft_serve.Base.{
  ℕ, ◌+◌, Bool, true, not, ◌&&◌, Option, some, List, [], ◌∷◌, ◌++◌, Text, ◌==◌, any, find, select,
}
use soft_serve.Access.{AccessLevel}
use soft_serve.Env.{Env}
use soft_serve.Names.{sanitize_repo}
use soft_serve.Store.Schema.{User, Repo, Collab, Db}
use soft_serve.Store.Exec.{Exec, ◌>>=◌, gets, get_one, exec, checked, raise, constraint, not_null}
use soft_serve.Store.Users.{named, lower_valid}
use soft_serve.Store.Repos.{titled}

-- INSERT INTO collabs: the pair of a user and a repository is unique
unfoldable pub insert_collab : AccessLevel → ℕ → ℕ → Exec (Unit {0})
insert_collab level user_id repo_id db =
    checked (any (λ c. c.user_id == user_id && c.repo_id == repo_id) db.collabs) constraint tt
      (λ d. record d {
        collabs =
            d.collabs
            ++ record {
              id = d.next_collab;
              repo_id = repo_id;
              user_id = user_id;
              access_level = level;
            }
              ∷ [];
        next_collab = d.next_collab + 1;
      })
      db

-- the INSERT whose ids are subqueries: one that finds no row is NULL, in a NOT NULL column
abbrev pub insert_collab_of : AccessLevel → Option User → Option Repo → Exec (Unit {0})
insert_collab_of level (some u) (some r) = insert_collab level u.id r.id
insert_collab_of level _ _ = raise not_null

-- the row is that of a user of this name and of a repository of this name
abbrev pub joins : Db → Text → Text → Collab → Bool
joins db username repo c =
    any (λ u. u.id == c.user_id && named username u) db.users
    && any (λ r. r.id == c.repo_id && titled repo r) db.repos

abbrev pub in_repo : Db → Text → Collab → Bool
in_repo db repo c = any (λ r. r.id == c.repo_id && titled repo r) db.repos

module _ (env : Env) where
  -- AddCollabByUsernameAndRepo
  unfoldable pub add_collab_by_username_and_repo : Text → Text → AccessLevel → Exec (Unit {0})
  add_collab_by_username_and_repo username repo level = do
    name ← lower_valid env username
    u ← gets (λ db. find (named name) db.users)
    r ← gets (λ db. find (titled (sanitize_repo env repo)) db.repos)
    insert_collab_of level u r

  -- GetCollabByUsernameAndRepo
  unfoldable pub get_collab_by_username_and_repo : Text → Text → Exec Collab
  get_collab_by_username_and_repo username repo = do
    name ← lower_valid env username
    rows ← gets (λ db. select (joins db name (sanitize_repo env repo)) db.collabs)
    get_one (λ _. rows) (λ _. true)

  -- ListCollabsByRepo
  unfoldable pub list_collabs_by_repo : Text → Exec (List Collab)
  list_collabs_by_repo repo = gets (λ db. select (in_repo db (sanitize_repo env repo)) db.collabs)

  -- ListCollabsByRepoAsUsers
  unfoldable pub list_collabs_by_repo_as_users : Text → Exec (List User)
  list_collabs_by_repo_as_users repo = gets (λ db.
      select (λ u. any (λ c. c.user_id == u.id && in_repo db (sanitize_repo env repo) c) db.collabs)
        db.users)

  -- RemoveCollabByUsernameAndRepo
  unfoldable pub remove_collab_by_username_and_repo : Text → Text → Exec (Unit {0})
  remove_collab_by_username_and_repo username repo = do
    name ← lower_valid env username
    exec (λ db. record db {
      collabs = select (λ c. not (joins db name (sanitize_repo env repo) c)) db.collabs;
    })
