-- ===== src/Backend/Lifecycle/Columns.antt =====
-- SetDescription, SetPrivate, SetHidden and SetProjectName of pkg/backend/repo.go: the row afterwards.
use soft_serve.Base.{◌≡◌, refl, sym, ap, Bool, some, Text, find, update}
use soft_serve.Env.{Env}
use soft_serve.Names.{sanitize, sanitize_repo}
use soft_serve.Store.Schema.{Repo, Db}
use soft_serve.Store.Exec.{Result, ok, exec}
use soft_serve.Store.Found.{find-update}
use soft_serve.Store.Repos.{
  titled, update_repo, set_repo_description_by_name, set_repo_is_hidden_by_name,
  set_repo_is_private_by_name, set_repo_project_name_by_name,
}
use soft_serve.System.{World, Sys, ◌>>=◌, ◌>>◌, on_db, on_cache, on_disk, on_error, transaction}
use soft_serve.System.Cache.{Lru, LruLaws}
use soft_serve.System.Keeps.{Keeps, Quiet, Quiet-on_disk, unchanged_after}
use soft_serve.System.Bind.{sys_bind_ok, transaction_ok, transaction_result}
use soft_serve.Backend.Lifecycle.{
  Machine, marker, drop_cached, repository, announce, set_hidden, set_description, set_marker,
  set_private_column, set_private, set_project_name,
}
use soft_serve.Backend.Lifecycle.Coherent.{IsSteady, IsCoherent}
use soft_serve.Backend.Lifecycle.Cached.{looked_db}
use soft_serve.Backend.Lifecycle.Kept.{set_marker-Quiet, announce-Quiet}
use soft_serve.Backend.Lifecycle.Kept.Setters.{
  set_hidden-IsCoherent, set_description-IsCoherent, set_private-IsCoherent,
  set_project_name-IsCoherent,
}

module _ {C : Type 0} (env : Env) (lru : Lru C) where
  -- The cache agrees with the tables, and the row of the name is this one.
  pub record HasRow (name : Text) (r : Repo) (w : World C) : Type 0 where
    pub coherent : IsCoherent env lru w.cache w.db
    pub row : find (titled (sanitize_repo env name)) w.db.repos ≡ some r

module _ {C : Type 0} (env : Env) (lru : Lru C) (laws : LruLaws lru) (m : Machine) where
  -- an operation that keeps the cache coherent and rewrites the rows of the name
  changed_row :
      (op : Sys C (Unit {0})) (name : Text) (f : Repo → Repo) (r : Repo) (w after : World C)
      → Keeps (IsCoherent env lru) op
      → ((x : Repo) → (f x).name ≡ x.name)
      → op w ≡ (ok tt, after)
      → after.db.repos ≡ update (titled (sanitize_repo env name)) f w.db.repos
      → HasRow env lru name r w
      → HasRow env lru name (f r) after
  changed_row op name f r w after keeps same run rows h = record {
    coherent = rw run at (keeps.at w h.coherent);
    row =
        rw rows
          (find-update (titled (sanitize_repo env name)) f (λ x. rw (same x)) w.db.repos r h.row);
  }

  hidden_rows :
      (name : Text) (hidden : Bool) (w after : World C)
      → IsSteady env name
      → set_hidden env lru m name hidden w ≡ (ok tt, after)
      → after.db.repos
        ≡ update (titled (sanitize_repo env name)) (λ x. record x { hidden = hidden }) w.db.repos
  unfolding set_hidden drop_cached on_cache on_error transaction ◌>>=◌ on_db update_repo exec
      set_repo_is_hidden_by_name
  hidden_rows name hidden w after steady run = rw steady at (sym (ap (λ p. p.1.db.repos) run))

  project_name_rows :
      (repo name : Text) (w after : World C)
      → IsSteady env repo
      → set_project_name env lru m repo name w ≡ (ok tt, after)
      → after.db.repos
        ≡ update
            (titled (sanitize_repo env repo))
            (λ x. record x { project_name = sanitize env name })
            w.db.repos
  unfolding set_project_name drop_cached on_cache on_error transaction ◌>>=◌ on_db update_repo exec
      set_repo_project_name_by_name
  project_name_rows repo name w after steady run = rw steady at (sym (ap (λ p. p.1.db.repos) run))

  -- a statement after an operation that leaves the tables alone
  stated_rows :
      (op : Sys C (Unit {0})) (name : Text) (f : Repo → Repo) (w after : World C)
      → ((P : C → Db → Type 0) → Quiet P op)
      → (op >> on_db (update_repo name f)) w ≡ (ok tt, after)
      → after.db.repos ≡ update (titled name) f w.db.repos
  unfolding on_db update_repo exec
  stated_rows op name f w after quiet run =
      let (_, middle, first, second) = sys_bind_ok op _ tt w after run in
      let (tables, _) = unchanged_after op quiet (ok tt) w middle first in
      rw tables at (sym (ap (λ p. p.1.db.repos) second))

  dropped_tables :
      (name : Text) (w after : World C) (r : Result (Unit {0}))
      → drop_cached lru name w ≡ (r, after)
      → w.db ≡ after.db
  unfolding drop_cached on_cache
  dropped_tables name w after r run = ap (λ p. p.1.db) run

  description_rows :
      (name desc : Text) (w after : World C)
      → IsSteady env name
      → set_description env lru m name desc w ≡ (ok tt, after)
      → after.db.repos
        ≡ update
            (titled (sanitize_repo env name))
            (λ x. record x { description = sanitize env desc })
            w.db.repos
  unfolding set_description set_repo_description_by_name
  description_rows name desc w after steady run =
      let (_, w1, dropping, storing) =
        sys_bind_ok (drop_cached lru (sanitize_repo env name)) _ tt w after run in
      let body = transaction_result _ tt w1 after storing in
      let rows =
        stated_rows (on_disk _) (sanitize_repo env (sanitize_repo env name)) _ w1 after
          (λ P. Quiet-on_disk _) body in
      rw (steady, ← dropped_tables (sanitize_repo env name) w w1 _ dropping) at rows

  private_rows :
      (name : Text) (private : Bool) (w after : World C)
      → IsSteady env name
      → set_private env lru m name private w ≡ (ok tt, after)
      → after.db.repos
        ≡ update (titled (sanitize_repo env name)) (λ x. record x { private = private }) w.db.repos
  unfolding set_private set_private_column set_repo_is_private_by_name
  private_rows name private w after steady run =
      let (_, w1, dropping, run1) =
        sys_bind_ok (drop_cached lru (sanitize_repo env name))
          (λ _.
            set_private_column env lru m (sanitize_repo env name) private
            >> (repository env lru m (sanitize_repo env name) >>= λ r.
                announce env lru m r private))
          tt w after run in
      let (_, w2, storing, run2) =
        sys_bind_ok (set_private_column env lru m (sanitize_repo env name) private)
          (λ _. repository env lru m (sanitize_repo env name) >>= λ r. announce env lru m r private)
          tt w1 after run1 in
      let (r, w3, looking, run3) =
        sys_bind_ok (repository env lru m (sanitize_repo env name))
          (λ r. announce env lru m r private) tt w2 after run2 in
      let (same, _) =
        unchanged_after (announce env lru m r private)
          (λ P. announce-Quiet env lru laws m P r private) (ok tt) w3 after run3 in
      let body = transaction_ok _ _ tt w1 w2 storing in
      let rows =
        stated_rows (set_marker env lru m (marker env m (sanitize_repo env name)) private)
          (sanitize_repo env (sanitize_repo env name)) _ w1 w2
          (λ P. set_marker-Quiet env lru laws m P _ private) body in
      rw (same, looked_db env lru m (sanitize_repo env name) (ok r) w2 w3 looking)
        (rw (steady, ← dropped_tables (sanitize_repo env name) w w1 _ dropping) at rows)

  pub set_hidden-HasRow :
      (name : Text) (hidden : Bool) (r : Repo) (w after : World C)
      → IsSteady env name
      → set_hidden env lru m name hidden w ≡ (ok tt, after)
      → HasRow env lru name r w
      → HasRow env lru name (record r { hidden = hidden }) after
  set_hidden-HasRow name hidden r w after steady run =
      changed_row (set_hidden env lru m name hidden) name (λ x. record x { hidden = hidden }) r w
        after (set_hidden-IsCoherent env lru laws m name hidden steady) (λ x. refl) run
        (hidden_rows name hidden w after steady run)

  pub set_project_name-HasRow :
      (repo name : Text) (r : Repo) (w after : World C)
      → IsSteady env repo
      → set_project_name env lru m repo name w ≡ (ok tt, after)
      → HasRow env lru repo r w
      → HasRow env lru repo (record r { project_name = sanitize env name }) after
  set_project_name-HasRow repo name r w after steady run =
      changed_row (set_project_name env lru m repo name) repo _ r w after
        (set_project_name-IsCoherent env lru laws m repo name steady) (λ x. refl) run
        (project_name_rows repo name w after steady run)

  pub set_description-HasRow :
      (name desc : Text) (r : Repo) (w after : World C)
      → IsSteady env name
      → set_description env lru m name desc w ≡ (ok tt, after)
      → HasRow env lru name r w
      → HasRow env lru name (record r { description = sanitize env desc }) after
  set_description-HasRow name desc r w after steady run =
      changed_row (set_description env lru m name desc) name _ r w after
        (set_description-IsCoherent env lru laws m name desc steady) (λ x. refl) run
        (description_rows name desc w after steady run)

  pub set_private-HasRow :
      (name : Text) (private : Bool) (r : Repo) (w after : World C)
      → IsSteady env name
      → set_private env lru m name private w ≡ (ok tt, after)
      → HasRow env lru name r w
      → HasRow env lru name (record r { private = private }) after
  set_private-HasRow name private r w after steady run =
      changed_row (set_private env lru m name private) name _ r w after
        (set_private-IsCoherent env lru laws m name private steady) (λ x. refl) run
        (private_rows name private w after steady run)
