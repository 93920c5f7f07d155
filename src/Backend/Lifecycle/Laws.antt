-- ===== src/Backend/Lifecycle/Laws.antt =====
-- Repository, SetPrivate and CreateRepository of pkg/backend/repo.go: what they return and leave.
use soft_serve.Base.{◌≡◌, refl, sym, ap, Bool, true, none, some, Text, find, Option-cases, inl, inr}
use soft_serve.Env.{Env}
use soft_serve.Names.{sanitize_repo}
use soft_serve.Store.Schema.{Repo}
use soft_serve.Store.Exec
use soft_serve.Store.Exec.{Result, ok, err, exec, get_one, one, repo_not_found, repo_exist}
use soft_serve.Store.Found.{find-update}
use soft_serve.Store.Repos.{titled, get_repo_by_name, set_repo_is_private_by_name, update_repo}
use soft_serve.System.{World, ◌>>=◌, on_cache, on_db, reads_disk, on_error, transaction, raise}
use soft_serve.System.Disk.{exists}
use soft_serve.System.Cache.{Lru, LruLaws, hit}
use soft_serve.System.Keeps.{unchanged_after}
use soft_serve.System.Bind.{sys_bind_ok, transaction_ok}
use soft_serve.Backend.Repos
use soft_serve.Backend.Repos.{Host, load_repository}
use soft_serve.Backend.Lifecycle.{
  Machine, path_of, load, repository, drop_cached, marker, set_marker, set_private_column,
}
use soft_serve.Backend.Lifecycle.Coherent.{IsSteady, IsCoherent}
use soft_serve.Backend.Lifecycle.Kept.{set_marker-Quiet}

module _ {C : Type 0} (env : Env) (lru : Lru C) (m : Machine) where
  -- the machine without its cache, as the other operations see it
  abbrev pub uncached : World C → Host
  uncached w = record {
    cached = λ name. none;
    exists = λ path. exists path w.disk;
    data_path = m.data_path;
  }

  -- With a coherent cache and a name that sanitizing twice leaves as sanitizing once does, the lookup of
  -- a repository whose directory exists returns what the lookup in the tables returns, and it changes
  -- neither the tables nor the files.
  pub repository-uncached :
      (name : Text) (w : World C)
      → IsSteady env name
      → IsCoherent env lru w.cache w.db
      → exists (path_of env m (sanitize_repo env name)) w.disk ≡ true
      → ((repository env lru m name w).0 ≡ (Repos.repository env (uncached w) name w.db).0)
        × ((repository env lru m name w).1.db ≡ w.db)
        × ((repository env lru m name w).1.disk ≡ w.disk)
  unfolding repository load Repos.repository load_repository get_repo_by_name get_one one
      Exec.on_error Exec.transaction ◌>>=◌ on_db on_cache reads_disk on_error transaction raise
  repository-uncached name w steady h there =
      elim (Option-cases (hit lru (sanitize_repo env name) w.cache)) [
        | inr (r, found) ↦
            let row = h.hits (sanitize_repo env name) r refl found in
            rw (found, there, steady, row) (refl, refl, refl)
        | inl missed ↦ elim (Option-cases (find (titled (sanitize_repo env name)) w.db.repos)) [
          | inl missing ↦ rw (missed, there, steady, missing) (refl, refl, refl)
          | inr (r, found) ↦ rw (missed, there, steady, found) (refl, refl, refl)
        ]
      ]

module _ {C : Type 0} (env : Env) (lru : Lru C) (laws : LruLaws lru) (m : Machine) where
  -- a lookup on a name that the cache does not hold
  looked_up :
      (name : Text) (r : Repo) (w : World C)
      → IsSteady env name
      → exists (path_of env m (sanitize_repo env name)) w.disk ≡ true
      → find (titled (sanitize_repo env name)) w.db.repos ≡ some r
      → hit lru (sanitize_repo env name) w.cache ≡ none
      → (c : C) × (repository env lru m name w ≡ (ok r, record w { cache = c }))
        × (hit lru (sanitize_repo env name) c ≡ some r)
  unfolding repository load get_repo_by_name get_one one Exec.on_error Exec.transaction ◌>>=◌ on_db
      on_cache reads_disk on_error transaction
  looked_up name r w steady there row missed = (
    lru.add (sanitize_repo env name) r (lru.get (sanitize_repo env name) w.cache).1,
    rw (missed, there, steady, row),
    laws.hit-add (sanitize_repo env name) r _,
  )

  updated :
      (name : Text) (private : Bool) (r : Repo) (w after : World C)
      → IsSteady env name
      → find (titled (sanitize_repo env name)) w.db.repos ≡ some r
      → set_private_column env lru m (sanitize_repo env name) private w ≡ (ok tt, after)
      → (find (titled (sanitize_repo env name)) after.db.repos
          ≡ some (record r { private = private }))
        × (after.cache ≡ w.cache)
  unfolding set_private_column set_repo_is_private_by_name on_db exec update_repo
  updated name private r w after steady row run =
      let body = transaction_ok _ _ tt w after run in
      let (_, middle, marked, run') = sys_bind_ok _ _ tt w after body in
      let (tables, cache) =
        unchanged_after (set_marker env lru m (marker env m (sanitize_repo env name)) private)
          (λ P. set_marker-Quiet env lru laws m P (marker env m (sanitize_repo env name)) private) _
          w middle marked in
      let end = sym (ap (λ p. p.1) run') in
      (
        rw (ap (λ v. v.db) end, tables, steady)
            (find-update (titled (sanitize_repo env name)) (λ s. record s { private = private })
              (λ s. refl) w.db.repos r row),
        rw (ap (λ v. v.cache) end) cache,
      )

  -- SetPrivate forgets the cached repository before its transaction: if another request looks the
  -- repository up in between, then after the transaction the row has the new visibility, and lookups
  -- return the old row; for a name that sanitizing twice leaves as sanitizing once does.
  pub set_private_column-stale :
      (name : Text) (private : Bool) (r : Repo) (w after : World C)
      → IsSteady env name
      → exists (path_of env m (sanitize_repo env name)) w.disk ≡ true
      → find (titled (sanitize_repo env name)) w.db.repos ≡ some r
      → set_private_column env lru m
          (sanitize_repo env name)
          private
          (repository env lru m name (drop_cached lru (sanitize_repo env name) w).1).1
        ≡ (ok tt, after)
      → (find (titled (sanitize_repo env name)) after.db.repos
          ≡ some (record r { private = private }))
        × ((repository env lru m name after).0 ≡ ok r)
  unfolding drop_cached ◌>>=◌ on_cache
  set_private_column-stale name private r w after steady there row run =
      let dropped : World C = record w { cache = lru.remove (sanitize_repo env name) w.cache } in
      let (c, looked, held) =
        looked_up name r dropped steady there row
          (laws.hit-remove (sanitize_repo env name) w.cache) in
      let (row', same) =
        updated name private r (record w { cache = c }) after steady row (rw looked at run) in
      (row', unfold repository in rw (same, held))
