-- ===== src/Backend/Lifecycle/Kept/Setters.antt =====
-- The setters of pkg/backend/repo.go, and the coherence of the cache.
use soft_serve.Base.{◌≡◌, refl, ap, Bool, Text, text_eq_refl}
use soft_serve.Env.{Env}
use soft_serve.Names.{sanitize_repo}
use soft_serve.Store.Schema.{Repo}
use soft_serve.Store.Repos.{
  update_repo, set_repo_description_by_name, set_repo_is_hidden_by_name,
  set_repo_is_private_by_name, set_repo_project_name_by_name,
}
use soft_serve.System.{◌>>=◌, on_db, on_cache}
use soft_serve.System.Cache.{Lru, LruLaws}
use soft_serve.System.Keeps.{
  Keeps, Quiet, Keeps-Quiet, Quiet-on_db, Quiet-on_disk, Quiet-bind, Quiet-transaction,
  Quiet-on_error, Keeps-bind,
}
use soft_serve.Backend.Lifecycle.{
  drop_cached, Machine, set_hidden, set_description, set_private_column, set_private,
  set_project_name,
}
use soft_serve.Backend.Lifecycle.Coherent.{IsSteady, IsCoherent, IsCoherentBut, update_repo-Agrees}
use soft_serve.Backend.Lifecycle.Cached.{Keeps-dropped, repository-IsCoherent}
use soft_serve.Backend.Lifecycle.Kept.{set_marker-Quiet, announce-Quiet}

module _ {C : Type 0} (env : Env) (lru : Lru C) (laws : LruLaws lru) (m : Machine) where
  update-Quiet :
      (name : Text) (f : Repo → Repo)
      → IsSteady env name
      → ((r : Repo) → (f r).id ≡ r.id)
      → ((r : Repo) → (f r).user_id ≡ r.user_id)
      → ((r : Repo) → (f r).name ≡ r.name)
      → Quiet
          (IsCoherentBut env lru (sanitize_repo env name))
          (on_db (update_repo (sanitize_repo env (sanitize_repo env name)) f))
  update-Quiet name f steady k o n = Quiet-on_db _ λ c.
      rw steady (update_repo-Agrees env lru c _ (sanitize_repo env name) f (text_eq_refl _) k o n)

  -- SetHidden
  pub set_hidden-IsCoherent :
      (name : Text) (hidden : Bool)
      → IsSteady env name
      → Keeps (IsCoherent env lru) (set_hidden env lru m name hidden)
  unfolding set_hidden set_repo_is_hidden_by_name
  set_hidden-IsCoherent name hidden steady = Keeps-dropped env lru laws (sanitize_repo env name) _ (
      Quiet-on_error _ _
        (Quiet-transaction _ (update-Quiet name _ steady (λ r. refl) (λ r. refl) (λ r. refl))))

  -- SetProjectName
  pub set_project_name-IsCoherent :
      (repo name : Text)
      → IsSteady env repo
      → Keeps (IsCoherent env lru) (set_project_name env lru m repo name)
  unfolding set_project_name set_repo_project_name_by_name
  set_project_name-IsCoherent repo name steady =
      Keeps-dropped env lru laws (sanitize_repo env repo) _ (
        Quiet-on_error _ _
          (Quiet-transaction _ (update-Quiet repo _ steady (λ r. refl) (λ r. refl) (λ r. refl))))

  -- SetDescription
  pub set_description-IsCoherent :
      (name desc : Text)
      → IsSteady env name
      → Keeps (IsCoherent env lru) (set_description env lru m name desc)
  unfolding set_description set_repo_description_by_name
  set_description-IsCoherent name desc steady =
      Keeps-dropped env lru laws (sanitize_repo env name) _ (
        Quiet-transaction _ (
          Quiet-bind _ _ (Quiet-on_disk _)
            λ _. update-Quiet name _ steady (λ r. refl) (λ r. refl) (λ r. refl)))

  pub set_private_column-Quiet :
      (name : Text) (private : Bool)
      → IsSteady env name
      → Quiet
          (IsCoherentBut env lru (sanitize_repo env name))
          (set_private_column env lru m (sanitize_repo env name) private)
  unfolding set_private_column set_repo_is_private_by_name
  set_private_column-Quiet name private steady = Quiet-on_error _ _ (
      Quiet-transaction _ (
        Quiet-bind _ _ (set_marker-Quiet env lru laws m _ _ private)
          λ _. update-Quiet name _ steady (λ r. refl) (λ r. refl) (λ r. refl)))

  -- SetPrivate
  pub set_private-IsCoherent :
      (name : Text) (private : Bool)
      → IsSteady env name
      → Keeps (IsCoherent env lru) (set_private env lru m name private)
  unfolding set_private drop_cached ◌>>=◌ on_cache
  set_private-IsCoherent name private steady = record {
    at =
        (Keeps-bind _ _
          (Keeps-dropped env lru laws (sanitize_repo env name) _
            (set_private_column-Quiet name private steady))
          λ _.
            Keeps-bind _ _
              (repository-IsCoherent env lru laws m (sanitize_repo env name)
                (ap (sanitize_repo env) steady))
              λ r. Keeps-Quiet _ (announce-Quiet env lru laws m _ r private)).at;
  }
