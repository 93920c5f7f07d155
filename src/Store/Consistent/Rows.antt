-- ===== src/Store/Consistent/Rows.antt =====
-- The inserts and updates of repositories, collaborators, tokens, objects and locks, and the
-- consistency of the tables.
use soft_serve.Base.{
  ℕ, ◌<◌, ◌≡◌, refl, ap, Bool, true, ◌&&◌, Option, some, List, [], ◌∷◌, map, Text, text_eq,
  All-append, All-update, any, find, contains, update, arith, ◌==◌, Bool-cases, inl, inr,
}
use soft_serve.Access.{AccessLevel}
use soft_serve.Store.Schema.{
  User, Repo, Collab, AccessToken, LfsLock, LfsObject, Db, user_ids, repo_ids,
}
use soft_serve.Store.Exec.{checked}
use soft_serve.Store.Exec.Preserves.{Preserves, Preserves-on_error}
use soft_serve.Store.Rows.{Distinct, Distinct-append, Distinct-update, Refers-insert, Refers-update}
use soft_serve.Store.Renames.{Distinct-update_name}
use soft_serve.Store.Repos.{titled, insert_repo, update_repo_name}
use soft_serve.Store.Collabs.{insert_collab}
use soft_serve.Store.Tokens.{insert_access_token}
use soft_serve.Store.Lfs.{create_lfs_lock_for_user, create_lfs_object, sanitize_path}
use soft_serve.Store.Consistent.{IsConsistent, same_repo_name, same_repo_id}
use soft_serve.Store.Consistent.Statements.{
  Preserves-checked, Preserves-inserted, ids_below_fresh, ids_below_next, IsNumbered-append,
}

pub insert_repo-IsConsistent :
    (name : Text) (user_id : ℕ) (project_name description : Text) (private hidden mirror : Bool)
    → Preserves IsConsistent
        (insert_repo name user_id project_name description private hidden mirror)
unfolding insert_repo
insert_repo-IsConsistent name user_id project_name description private hidden mirror =
    Preserves-inserted _ _ _ _ _ λ db fresh owned h.
      let r : Repo = record {
        id = db.next_repo;
        name = name;
        project_name = project_name;
        description = description;
        private = private;
        mirror = mirror;
        hidden = hidden;
        user_id = user_id;
      } in
      assumption (
        Distinct-append _ db.repos r fresh h.repo_names,
        Distinct-append _ db.repos r
            (ids_below_fresh (λ s. s.id) db.next_repo db.repos h.repo_ids_below)
            h.repo_ids_distinct,
        ids_below_next (λ s. s.id) db.next_repo db.repos r refl h.repo_ids_below,
        All-append _ db.repos (r ∷ []) h.repo_user (owned, tt),
        Refers-insert (λ c. c.repo_id) (λ s. s.id) db.repos r db.collabs h.collab_repo,
        Refers-insert (λ o. o.repo_id) (λ s. s.id) db.repos r db.lfs_objects h.object_repo,
        Refers-insert (λ l. l.repo_id) (λ s. s.id) db.repos r db.lfs_locks h.lock_repo,
        Refers-insert (λ w. w.repo_id) (λ s. s.id) db.repos r db.webhooks h.webhook_repo,
      )

-- an UPDATE of the repositories that leaves their ids and owners alone
module _ (p : Repo → Bool) (f : Repo → Repo) (same_id : (r : Repo) → (f r).id ≡ r.id)
    (same_owner : (r : Repo) → (f r).user_id ≡ r.user_id) where
  repos_updated-IsConsistent :
      {db : Db}
      → Distinct same_repo_name (update p f db.repos)
      → IsConsistent db
      → IsConsistent (record db { repos = update p f db.repos })
  repos_updated-IsConsistent {db} names h = assumption (
    Distinct-update same_repo_id p f (λ u v. ap (λ n. n == v.id) (same_id u))
        (λ u v. ap (λ n. u.id == n) (same_id v)) db.repos h.repo_ids_distinct,
    All-update (λ r. r.id < db.next_repo) p f db.repos (λ r b. rw (same_id r) b) h.repo_ids_below,
    All-update (λ r. contains (user_ids db) r.user_id ≡ true) p f db.repos
        (λ r b. rw (same_owner r) b) h.repo_user,
    Refers-update (λ c. c.repo_id) (λ s. s.id) p f db.repos db.collabs same_id h.collab_repo,
    Refers-update (λ o. o.repo_id) (λ s. s.id) p f db.repos db.lfs_objects same_id h.object_repo,
    Refers-update (λ l. l.repo_id) (λ s. s.id) p f db.repos db.lfs_locks same_id h.lock_repo,
    Refers-update (λ w. w.repo_id) (λ s. s.id) p f db.repos db.webhooks same_id h.webhook_repo,
  )

  pub repos_kept-IsConsistent :
      {db : Db}
      → ((r : Repo) → (f r).name ≡ r.name)
      → IsConsistent db
      → IsConsistent (record db { repos = update p f db.repos })
  repos_kept-IsConsistent {db} same_name h =
      repos_updated-IsConsistent {db = db}
        (Distinct-update same_repo_name p f (λ u v. ap (λ n. text_eq n v.name) (same_name u))
          (λ u v. ap (λ n. text_eq u.name n) (same_name v)) db.repos h.repo_names)
        h

pub update_repo_name-IsConsistent :
    (old new : Text) → Preserves IsConsistent (update_repo_name old new)
unfolding update_repo_name
update_repo_name-IsConsistent old new = Preserves-checked _ _ _ _ λ db pass h.
    repos_updated-IsConsistent (titled old) (λ r. record r { name = new }) (λ r. refl) (λ r. refl)
      {db = db}
      (Distinct-update_name (λ r. r.name) old new (λ r. record r { name = new }) (λ r. refl)
        db.repos pass h.repo_names)
      h

pub insert_access_token-IsConsistent :
    (name : Text) (user_id : ℕ) (token : Text) (expires_at : Option ℕ)
    → Preserves IsConsistent (insert_access_token name user_id token expires_at)
unfolding insert_access_token
insert_access_token-IsConsistent name user_id token expires_at =
    Preserves-inserted _ _ _ _ _ λ db fresh owned h.
      let t : AccessToken = record {
        id = db.next_token;
        name = name;
        user_id = user_id;
        token = token;
        expires_at = expires_at;
      } in
      assumption (
        Distinct-append _ db.access_tokens t fresh h.tokens,
        IsNumbered-append (λ r. r.id) db.next_token db.access_tokens t refl h.token_ids,
        All-append _ db.access_tokens (t ∷ []) h.token_user (owned, tt),
      )

pub create_lfs_object-IsConsistent :
    (repo_id : ℕ) (oid : Text) (size : ℕ)
    → Preserves IsConsistent (create_lfs_object repo_id oid size)
unfolding create_lfs_object
create_lfs_object-IsConsistent repo_id oid size = Preserves-on_error _ _ (
    Preserves-inserted _ _ _ _ _ λ db fresh owned h.
      let o : LfsObject = record {
        id = db.next_object;
        oid = oid;
        size = size;
        repo_id = repo_id;
      } in
      assumption (
        Distinct-append _ db.lfs_objects o fresh h.objects,
        IsNumbered-append (λ r. r.id) db.next_object db.lfs_objects o refl h.object_ids,
        All-append _ db.lfs_objects (o ∷ []) h.object_repo (owned, tt),
      ))

pub create_lfs_lock_for_user-IsConsistent :
    (repo_id user_id : ℕ) (path refname : Text)
    → Preserves IsConsistent (create_lfs_lock_for_user repo_id user_id path refname)
unfolding create_lfs_lock_for_user
create_lfs_lock_for_user-IsConsistent repo_id user_id path refname = Preserves-on_error _ _ (
    Preserves-checked _ _ _ _ λ db pass h.
      let l : LfsLock = record {
        id = db.next_lock;
        path = sanitize_path path;
        user_id = user_id;
        repo_id = repo_id;
        refname = refname;
      } in
      let has_repo : contains (repo_ids db) repo_id ≡ true = ground (arith, pass) in
      let has_user : contains (user_ids db) user_id ≡ true = ground (arith, pass) in
      assumption (
        Distinct-append _ db.lfs_locks l (ground (arith, pass)) h.locks,
        IsNumbered-append (λ r. r.id) db.next_lock db.lfs_locks l refl h.lock_ids,
        All-append _ db.lfs_locks (l ∷ []) h.lock_repo (has_repo, tt),
        All-append _ db.lfs_locks (l ∷ []) h.lock_user (has_user, tt),
      ))

pub insert_collab-IsConsistent :
    (level : AccessLevel) (u : User) (r : Repo) (db : Db)
    → contains (user_ids db) u.id ≡ true
    → contains (repo_ids db) r.id ≡ true
    → IsConsistent db
    → IsConsistent (insert_collab level u.id r.id db).1
unfolding insert_collab checked
insert_collab-IsConsistent level u r db has_user has_repo h =
    elim (Bool-cases (any (λ c. c.user_id == u.id && c.repo_id == r.id) db.collabs)) [
      | inl taken ↦ rw taken h
      | inr fresh ↦
          let c : Collab = record {
            id = db.next_collab;
            repo_id = r.id;
            user_id = u.id;
            access_level = level;
          } in
          rw fresh (
            assumption (
              Distinct-append _ db.collabs c fresh h.collabs,
              IsNumbered-append (λ r. r.id) db.next_collab db.collabs c refl h.collab_ids,
              All-append _ db.collabs (c ∷ []) h.collab_user (has_user, tt),
              All-append _ db.collabs (c ∷ []) h.collab_repo (has_repo, tt),
            ))
    ]

pub find-contains :
    {A : Type 0} (id : A → ℕ) (p : A → Bool) (rows : List A) (a : A)
    → find p rows ≡ some a
    → contains (map id rows) (id a) ≡ true
find-contains id p [] a e = cc
find-contains id p (x ∷ rows) a e = elim (Bool-cases (p x)) [
  | inl hit ↦ ground (arith, hit)
  | inr miss ↦ ground (arith, miss, find-contains id p rows a)
]
