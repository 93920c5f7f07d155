-- ===== src/Backend/Lifecycle/Cached.antt =====
-- The lookup of a repository (Repository of pkg/backend/repo.go), the cache and the tables.
use soft_serve.Base.{
  ◌≡◌, refl, sym, ap, ◌∙◌, Bool, true, false, some, Text, text_eq, text_eq_iff, find, arith,
  Bool-cases, Option-cases, inl, inr,
}
use soft_serve.Env.{Env}
use soft_serve.Names.{sanitize_repo}
use soft_serve.Store.Schema.{Repo, Db}
use soft_serve.Store.Exec.{Result, ok, err, get_one, one}
use soft_serve.Store.Exec
use soft_serve.Store.Repos.{titled, get_repo_by_name}
use soft_serve.System.{
  raise, pure, World, Sys, ◌>>=◌, on_cache, on_db, reads_disk, on_error, transaction, deferred,
  commit,
}
use soft_serve.System.Disk.{exists}
use soft_serve.System.Cache.{Lru, LruLaws, hit}
use soft_serve.System.Keeps.{Keeps, Quiet}
use soft_serve.Backend.Lifecycle.{succeed, Machine, path_of, load, repository, drop_cached}
use soft_serve.Backend.Lifecycle.Coherent.{IsSteady, IsCoherent, IsCoherentBut}

module _ {C : Type 0} (env : Env) (lru : Lru C) (laws : LruLaws lru) where
  pub excuse :
      (name : Text) (c : C) (db : Db) → IsCoherent env lru c db → IsCoherentBut env lru name c db
  excuse name c db h = record {
    tables = h.tables;
    names = h.names;
    hits = λ n r e k. h.hits n r refl k;
  }

  -- a name out of date leaves the cache
  pub dropped-IsCoherent :
      (name : Text) (c : C) (db : Db)
      → IsCoherentBut env lru name c db
      → IsCoherent env lru (lru.remove name c) db
  dropped-IsCoherent name c db h = record {
    tables = h.tables;
    names = h.names;
    hits = λ n r e k. elim (Bool-cases (text_eq name n)) [
      | inl same ↦
          let gone = laws.hit-remove name c in
          absurd (ground (arith, gone, rw (← (text_eq_iff name n).0 same) at k))
      | inr apart ↦ h.hits n r apart (laws.hit-remove_other name n r c k)
    ];
  }

  -- the row of a name enters the cache
  pub added-IsCoherent :
      (name : Text) (r : Repo) (c : C) (db : Db)
      → IsCoherent env lru c db
      → find (titled name) db.repos ≡ some r
      → IsCoherent env lru (lru.add name r c) db
  added-IsCoherent name r c db h row = record {
    tables = h.tables;
    names = h.names;
    hits = λ n s e k. elim (Bool-cases (text_eq name n)) [
      | inl same ↦
          let there = laws.hit-add name r c in
          let found = rw (← (text_eq_iff name n).0 same) at k in
          rw (← (text_eq_iff name n).0 same) (ground (arith, there, found, row))
      | inr apart ↦ h.hits n s refl (laws.hit-add_other name n r s c apart k)
    ];
  }

  pub got-IsCoherent :
      (name : Text) (c : C) (db : Db)
      → IsCoherent env lru c db
      → IsCoherent env lru (lru.get name c).1 db
  got-IsCoherent name c db h = record {
    tables = h.tables;
    names = h.names;
    hits = λ n s e k. h.hits n s refl (rw (laws.hit-get name n c) at k);
  }

  -- the cache forgets the name before the operation
  pub Keeps-dropped :
      {A : Type 0} (name : Text) (m : Sys C A)
      → Quiet (IsCoherentBut env lru name) m
      → Keeps (IsCoherent env lru) (drop_cached lru name >>= λ _. m)
  unfolding drop_cached ◌>>=◌ on_cache
  Keeps-dropped name m q = record {
    at = λ w h.
        let w' : World C = record w { cache = lru.remove name w.cache } in
        rw (q.same w') (
          dropped-IsCoherent name w.cache (m w').1.db
            (q.at w' w.cache (excuse name w.cache w.db h)));
  }

  deferred_case :
      {A : Type 0} (name : Text) (before : Db) (r : Result A) (w : World C)
      → IsCoherentBut env lru name w.cache before
      → IsCoherentBut env lru name w.cache w.db
      → (let end = (commit before r (record w { cache = lru.remove name w.cache })).1 in
          IsCoherent env lru end.cache end.db)
  deferred_case name before (ok a) w h k = dropped-IsCoherent name w.cache w.db k
  deferred_case name before (err e) w h k = dropped-IsCoherent name w.cache before h

  -- the cache forgets the name at the end of the transaction
  pub Keeps-deferred :
      {A : Type 0} (name : Text) (m : Sys C A)
      → Quiet (IsCoherentBut env lru name) m
      → Keeps (IsCoherent env lru) (transaction (deferred (lru.remove name) m))
  unfolding transaction deferred
  Keeps-deferred name m q = record {
    at = λ w h.
        let k = excuse name w.cache w.db h in
        deferred_case name w.db (m w).0 (m w).1 (rw (q.same w) k)
          (rw (q.same w) (q.at w w.cache k));
  }

module _ {C : Type 0} (env : Env) (lru : Lru C) (laws : LruLaws lru) (m : Machine) where
  -- the lookup in the tables puts nothing but the row of the name into the cache
  load-IsCoherent :
      (name : Text)
      → IsSteady env name
      → Keeps (IsCoherent env lru) (load env lru m (sanitize_repo env name))
  unfolding load get_repo_by_name get_one one Exec.on_error Exec.transaction ◌>>=◌ on_db on_cache
      reads_disk on_error transaction
  load-IsCoherent name steady = record {
    at = λ w h. elim (Bool-cases (exists (path_of env m (sanitize_repo env name)) w.disk)) [
      | inr gone ↦ rw gone h
      | inl there ↦ elim (Option-cases (find (titled (sanitize_repo env name)) w.db.repos)) [
        | inl missing ↦ rw (there, steady, missing) h
        | inr (r, found) ↦
            rw (there, steady, found)
              (added-IsCoherent env lru laws (sanitize_repo env name) r w.cache w.db h found)
      ]
    ];
  }

  pub repository-IsCoherent :
      (name : Text) → IsSteady env name → Keeps (IsCoherent env lru) (repository env lru m name)
  unfolding repository ◌>>=◌ on_cache
  repository-IsCoherent name steady = record {
    at = λ w h.
        let w' : World C = record w { cache = (lru.get (sanitize_repo env name) w.cache).1 } in
        let k = got-IsCoherent env lru laws (sanitize_repo env name) w.cache w.db h in
        elim (Option-cases (hit lru (sanitize_repo env name) w.cache)) [
          | inl missed ↦ rw missed ((load-IsCoherent name steady).at w' k)
          | inr (r, found) ↦ rw found k
        ];
  }

module _ {C : Type 0} (env : Env) (lru : Lru C) (m : Machine) where
  -- a lookup changes the cache only
  pub repository-db :
      (name : Text) (w : World C)
      → (c : C) × ((repository env lru m name w).1 ≡ record w { cache = c })
  unfolding repository load get_repo_by_name get_one one Exec.on_error Exec.transaction ◌>>=◌ on_db
      on_cache reads_disk on_error transaction
  repository-db name w = elim (Option-cases (hit lru (sanitize_repo env name) w.cache)) [
    | inr (r, found) ↦ rw found (_, refl)
    | inl missed ↦ elim (Bool-cases (exists (path_of env m (sanitize_repo env name)) w.disk)) [
      | inr gone ↦ rw (missed, gone) (_, refl)
      | inl there ↦
          elim (Option-cases
            (find (titled (sanitize_repo env (sanitize_repo env name))) w.db.repos)) [
              | inl missing ↦ rw (missed, there, missing) (_, refl)
              | inr (r, found) ↦ rw (missed, there, found) (_, refl)
            ]
    ]
  ]

  pub looked_db :
      (name : Text) (r : Result Repo) (w after : World C)
      → repository env lru m name w ≡ (r, after)
      → after.db ≡ w.db
  looked_db name r w after h =
      let (c, same) = repository-db name w in ap (λ v. v.db) (sym (ap (λ p. p.1) h) ∙ same)

module _ {C : Type 0} where
  -- the outcome of an event changes nothing
  pub succeed_same :
      (b : Bool) (w after : World C) → succeed {C = C} b w ≡ (ok tt, after) → after ≡ w
  unfolding raise pure
  succeed_same true w after h = sym (ap (λ p. p.1) h)
  succeed_same false w after h = absurd (ground (arith, h))
