-- ===== src/Backend/Lifecycle/Coherent.antt =====
-- What the cache of repositories and the tables have to do with each other, and the statements on the
-- repositories' table (pkg/store/database/repo.go).
use soft_serve.Base.{
  ℕ, ◌≡◌, Bool, true, false, not, ◌&&◌, some, List, Text, text_eq, text_eq_iff, All, All-append,
  All-select, All-update, any, find, update, arith, Bool-cases, inl, inr,
}
use soft_serve.Env.{Env}
use soft_serve.Names.{sanitize_repo}
use soft_serve.Store.Schema.{Repo, Db, delete_repos}
use soft_serve.Store.Exec.{Exec, exec}
use soft_serve.Store.Exec.Preserves.{Preserves, Preserves-exec}
use soft_serve.Store.Found.{
  find-append, find-any, find-select_other, find-update_other, update_none,
}
use soft_serve.Store.Consistent.{IsConsistent}
use soft_serve.Store.Consistent.Statements.{Preserves-checked}
use soft_serve.Store.Requests.Handlers.{exec_repos-IsConsistent, delete_repos_rule}
use soft_serve.Store.Consistent.Rows.{insert_repo-IsConsistent, update_repo_name-IsConsistent}
use soft_serve.Store.Repos.{titled, insert_repo, update_repo, update_repo_name}
use soft_serve.System.Cache.{Lru, hit}

-- Sanitizing the name twice is sanitizing it once.
abbrev pub IsSteady : Env → Text → Type 0
IsSteady env name = sanitize_repo env (sanitize_repo env name) ≡ sanitize_repo env name

module _ {C : Type 0} (env : Env) (lru : Lru C) where
  -- The tables are consistent, the names of repositories are steady, and a repository that the cache
  -- holds is the row of that name; the excused names may be out of date.
  pub record Agrees (excused : Text → Bool) (c : C) (db : Db) : Type 0 where
    pub tables : IsConsistent db
    pub names : All (λ r. IsSteady env r.name) db.repos
    pub hits :
        (name : Text) (r : Repo)
        → excused name ≡ false
        → hit lru name c ≡ some r
        → find (titled name) db.repos ≡ some r

  abbrev pub IsCoherent : C → Db → Type 0
  IsCoherent = Agrees (λ name. false)

  -- coherent but for the name
  abbrev pub IsCoherentBut : Text → C → Db → Type 0
  IsCoherentBut name = Agrees (text_eq name)

pub titled_apart :
    (name other : Text) (r : Repo)
    → text_eq name other ≡ false
    → titled name r ≡ true
    → titled other r ≡ false
titled_apart name other r n h =
    ground (arith, text_eq_iff name other, text_eq_iff r.name name, text_eq_iff r.name other)

module _ {C : Type 0} (env : Env) (lru : Lru C) (c : C) (excused : Text → Bool) where
  -- what `Agrees` says of the rows
  abbrev Rows : List Repo → Type 0
  Rows repos =
      All (λ r. IsSteady env r.name) repos
      × ((name : Text) (r : Repo)
          → excused name ≡ false
          → hit lru name c ≡ some r
          → find (titled name) repos ≡ some r)

  Preserves-Agrees :
      {A : Type 0} (m : Exec A)
      → Preserves IsConsistent m
      → Preserves (λ db. Rows db.repos) m
      → Preserves (Agrees env lru excused c) m
  Preserves-Agrees m k l = record {
    at = λ db h.
        let (names, hits) = l.at db (h.names, h.hits) in
        record { tables = k.at db h.tables; names = names; hits = hits };
  }

  excused_apart : (name n : Text) → excused name ≡ true → excused n ≡ false → text_eq name n ≡ false
  excused_apart name n out e = elim (Bool-cases (text_eq name n)) [
    | inl same ↦ absurd (ground (arith, rw ((text_eq_iff name n).0 same) at out))
    | inr apart ↦ apart
  ]

  -- one more row
  pub insert_repo-Agrees :
      (name : Text) (user_id : ℕ) (project_name description : Text) (private hidden mirror : Bool)
      → IsSteady env name
      → Preserves
          (Agrees env lru excused c)
          (insert_repo name user_id project_name description private hidden mirror)
  insert_repo-Agrees name user_id project_name description private hidden mirror steady =
      Preserves-Agrees _
        (insert_repo-IsConsistent name user_id project_name description private hidden mirror)
        (unfold insert_repo in
          Preserves-checked _ _ _ _ λ db pass (names, hits). (
            All-append _ db.repos _ names (steady, tt),
            λ n r e h. find-append (titled n) db.repos _ r (hits n r e h),
          ))

  -- other columns of the rows of an excused name
  pub update_repo-Agrees :
      (name : Text) (f : Repo → Repo)
      → excused name ≡ true
      → ((r : Repo) → (f r).id ≡ r.id)
      → ((r : Repo) → (f r).user_id ≡ r.user_id)
      → ((r : Repo) → (f r).name ≡ r.name)
      → Preserves (Agrees env lru excused c) (update_repo name f)
  unfolding update_repo
  update_repo-Agrees name f out same_id same_owner same_name =
      Preserves-Agrees _ (exec_repos-IsConsistent (titled name) f same_id same_owner same_name) (
        Preserves-exec _ λ db (names, hits). (
          All-update _ (titled name) f db.repos (λ r h. rw (same_name r) h) names,
          λ n r e h.
              rw
                (find-update_other (titled n) (titled name)
                  (λ x. titled_apart name n x (excused_apart name n out e)) f
                  (λ x t. rw (same_name x) (titled_apart name n x (excused_apart name n out e) t))
                  db.repos)
                (hits n r e h),
        ))

  -- an excused name, without its rows
  pub delete_repos-Agrees :
      (name : Text)
      → excused name ≡ true
      → Preserves (Agrees env lru excused c) (exec (delete_repos (titled name)))
  delete_repos-Agrees name out = Preserves-Agrees _ (delete_repos_rule (titled name)) (
      unfold delete_repos in
      Preserves-exec _ λ db (names, hits). (
        All-select _ (λ r. not (titled name r)) db.repos names,
        λ n r e h.
            rw
              (find-select_other (titled n) (titled name)
                (λ x. titled_apart name n x (excused_apart name n out e)) db.repos)
              (hits n r e h),
      ))

  renamed_hits :
      (old new : Text)
      → excused old ≡ true
      → text_eq old new ≡ false
      → (rows : List Repo)
      → (not (text_eq old new) && any (titled old) rows && any (titled new) rows) ≡ false
      → (n : Text) (r : Repo) → excused n ≡ false
      → find (titled n) rows ≡ some r
      → find (titled n) (update (titled old) (λ s. record s { name = new }) rows) ≡ some r
  renamed_hits old new out differ rows pass n r e h = elim (Bool-cases (text_eq new n)) [
    | inl same ↦
        let taken : any (titled new) rows ≡ true =
          find-any (titled new) rows r (rw (← (text_eq_iff new n).0 same) at h) in
        rw
          (update_none (titled old) (λ s. record s { name = new }) rows
            (ground (arith, differ, taken)))
          h
    | inr apart ↦
        rw
          (find-update_other (titled n) (titled old)
            (λ x. titled_apart old n x (excused_apart old n out e)) (λ s. record s { name = new })
            (λ x t. apart) rows)
          h
  ]

  -- an excused name, changed into a new one
  pub update_repo_name-Agrees :
      (old new : Text)
      → excused old ≡ true
      → text_eq old new ≡ false
      → IsSteady env new
      → Preserves (Agrees env lru excused c) (update_repo_name old new)
  update_repo_name-Agrees old new out differ steady =
      Preserves-Agrees _ (update_repo_name-IsConsistent old new) (
        unfold update_repo_name in
        Preserves-checked _ _ _ _ λ db pass (names, hits). (
          All-update _ (titled old) (λ r. record r { name = new }) db.repos (λ r h. steady) names,
          λ n r e h. renamed_hits old new out differ db.repos pass n r e (hits n r e h),
        ))
