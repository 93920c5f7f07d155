-- ===== src/Web/Locks/Pages.antt =====
-- serviceLfsLocksGet, serviceLfsLocksVerify and serviceLfsLocksCreate of pkg/web/git_lfs.go: pages of
-- locks, and locks that exist already.
use soft_serve.Base.{
  ℕ, zero, suc, ◌+◌, ◌-◌, ◌*◌, ◌≤◌, ◌<◌, ◌≡◌, refl, Bool, true, false, not, ◌&&◌, Option, none,
  some, List, [], ◌∷◌, map, select, take, drop, length, any, find, ◌==◌, ltb, lt→ltb, has_prefix,
  text_eq, Text, arith, Bool-cases, Option-cases, inl, inr, if◌then◌else◌,
}
use soft_serve.Env.{Env}
use soft_serve.Store.Schema.{Repo, User, LfsLock, Db}
use soft_serve.Store.Users.{get_user_by_id}
use soft_serve.Store.Lfs.{
  sanitize_path, create_lfs_lock_for_user, get_lfs_lock_for_user_path, get_lfs_lock_by_id,
  get_lfs_lock_for_path, get_lfs_locks,
}
use soft_serve.Store.Exec
use soft_serve.Store.Exec.{
  Result, ok, err, Exec, ◌>>=◌, pure, get_one, one, gets, checked, on_error,
}
use soft_serve.Backend.Users.{ProtoUser}
use soft_serve.Web.Locks.{
  LockResponse, Lock, conflict, listed, verified, lock_of, failure, not_acceptable, tried,
  with_owners, cons_lock, page_limit, list_page, page_number, answer_page, answer_verify, is_ours,
  show_lock, answer_create, conflict_of, with_owner, is_not_found, locks_get, locks_verify,
  locks_create, media_type,
}

-- the number of locks in an answer
abbrev pub shown : LockResponse → ℕ
shown (listed ls next) = length ls
shown (verified ours theirs next) = length ours + length theirs
shown other = 0

length-take : {A : Type 0} (n : ℕ) (xs : List A) → length (take n xs) ≤ n
length-take zero xs = ground arith
length-take (suc n) [] = ground arith
length-take (suc n) (x ∷ xs) = ground (arith, length-take n xs)

length-map : {A B : Type 0} (f : A → B) (xs : List A) → length (map f xs) ≡ length xs
length-map f [] = refl
length-map f (x ∷ xs) = ground (arith, length-map f xs)

length-split :
    {A : Type 0} (p : A → Bool) (xs : List A)
    → length (select p xs) + length (select (λ x. not (p x)) xs) ≡ length xs
length-split p [] = refl
length-split p (x ∷ xs) = ground (arith, length-split p xs)

page_limit_bound : (n : ℕ) → page_limit n ≤ 100
unfolding page_limit
page_limit_bound n = ground arith

-- each lock of the page has a name, or an owner was not found
abbrev Sized : List LfsLock → Option (List (ℕ × Lock)) → Type 0
Sized ls none = Unit
Sized ls (some named) = length named ≡ length ls

cons-Sized :
    (l : LfsLock) (u : User) (ls : List LfsLock) (o : Option (List (ℕ × Lock)))
    → Sized ls o
    → Sized (l ∷ ls) (cons_lock l u o)
cons-Sized l u ls none h = tt
cons-Sized l u ls (some named) h = ground (arith, h)

listed_few :
    (ls : List LfsLock) (o : Option (List (ℕ × Lock))) (limit cursor : ℕ)
    → Sized ls o
    → length ls ≤ 100
    → shown (answer_page limit cursor o) ≤ 100
listed_few ls none limit cursor h k = ground arith
listed_few ls (some named) limit cursor h k =
    ground (arith, h, k, length-map (λ (l : ℕ × Lock). l.1) named)

verified_few :
    (user : Option ProtoUser) (ls : List LfsLock) (o : Option (List (ℕ × Lock))) (limit cursor : ℕ)
    → Sized ls o
    → length ls ≤ 100
    → shown (answer_verify user limit cursor o) ≤ 100
verified_few user ls none limit cursor h k = ground arith
verified_few user ls (some named) limit cursor h k =
    let ours : ℕ × Lock → Bool = λ l. is_ours user l.0 in
    ground (
      arith,
      h,
      k,
      length-map (λ (l : ℕ × Lock). l.1) (select ours named),
      length-map (λ (l : ℕ × Lock). l.1) (select (λ l. not (ours l)) named),
      length-split ours named,
    )

module _ (env : Env) where
  with_owners-Sized :
      (users : List User) (ls : List LfsLock) (db : Db)
      → (o : Option (List (ℕ × Lock))) × (with_owners env users ls db ≡ (ok o, db)) × Sized ls o
  unfolding with_owners tried get_user_by_id get_one one pure ◌>>=◌
  with_owners-Sized users [] db = (some [], refl, refl)
  with_owners-Sized users (l ∷ ls) db = elim (Option-cases (find (λ u. u.id == l.user_id) users)) [
    | inr (u, known) ↦
        let (o, run, sized) = with_owners-Sized (u ∷ users) ls db in
        (cons_lock l u o, rw (known, run) refl, cons-Sized l u ls o sized)
    | inl unknown ↦ elim (Option-cases (find (λ u. u.id == l.user_id) db.users)) [
      | inl missing ↦ (none, rw (unknown, missing) refl, tt)
      | inr (u, found) ↦
          let (o, run, sized) = with_owners-Sized (u ∷ users) ls db in
          (cons_lock l u o, rw (unknown, found, run) refl, cons-Sized l u ls o sized)
    ]
  ]

  module _ (order : List LfsLock → List LfsLock) where
    -- the page that the store gives
    abbrev page : Repo → ℕ → ℕ → Db → List LfsLock
    page repo cursor limit db = take limit (
        drop (((if cursor == 0 then 1 else cursor) - 1) * limit)
          (order (select (λ l. l.repo_id == repo.id) db.lfs_locks)))

    page-Sized :
        (repo : Repo) (cursor limit : ℕ) (db : Db) → length (page repo cursor limit db) ≤ limit
    page-Sized repo cursor limit db = length-take limit _

    listed_page :
        (repo : Repo) (cursor limit : ℕ) (db : Db)
        → (r : LockResponse) × (list_page env order repo cursor limit db ≡ (ok r, db))
          × (shown r ≤ 100)
    unfolding list_page get_lfs_locks gets pure ◌>>=◌
    listed_page repo cursor limit db =
        let locks = page repo (page_number cursor) (page_limit limit) db in
        let (o, named, sized) = with_owners-Sized [] locks db in
        (
          answer_page (page_limit limit) (page_number cursor) o,
          rw named refl,
          listed_few locks o (page_limit limit) (page_number cursor) sized (
              ground (
                arith,
                page-Sized repo (page_number cursor) (page_limit limit) db,
                page_limit_bound limit,
              )),
        )

    -- one lock that was looked up
    one_lock :
        (l : Result LfsLock) (db : Db)
        → (r : LockResponse) × (show_lock env l db ≡ (ok r, db)) × (shown r ≤ 100)
    unfolding show_lock with_owner tried get_user_by_id get_one one pure ◌>>=◌
    one_lock (err e) db = elim (Bool-cases (is_not_found e)) [
      | inl absent ↦ (failure 404, rw absent refl, ground arith)
      | inr other ↦ (failure 500, rw other refl, ground arith)
    ]
    one_lock (ok l) db = elim (Option-cases (find (λ u. u.id == l.user_id) db.users)) [
      | inl missing ↦ (failure 500, rw missing refl, ground arith)
      | inr (u, found) ↦ (listed (lock_of l u.username ∷ []) none, rw found refl, ground arith)
    ]

    -- A GET request for locks is always answered, with at most 100 locks, and changes nothing.
    pub locks_get-bound :
        (accept : Text) (repo : Option Repo) (path : Text) (id cursor limit : ℕ) (db : Db)
        → (r : LockResponse) × (locks_get env order accept repo path id cursor limit db
            ≡ (ok r, db))
          × (shown r ≤ 100)
    unfolding locks_get get_lfs_lock_by_id get_lfs_lock_for_path get_one one tried pure ◌>>=◌
    locks_get-bound accept none path id cursor limit db =
        elim (Bool-cases (has_prefix accept media_type)) [
          | inr other ↦ (not_acceptable, rw other refl, ground arith)
          | inl lfs ↦ (failure 404, rw lfs refl, ground arith)
        ]
    locks_get-bound accept (some r) path id cursor limit db =
        elim (Bool-cases (has_prefix accept media_type)) [
          | inr other ↦ (not_acceptable, rw other refl, ground arith)
          | inl lfs ↦ elim (Bool-cases (ltb 0 id)) [
            | inl given ↦ elim (Option-cases (find (λ l. l.id == id) db.lfs_locks)) [
              | inl missing ↦ rw (lfs, given, missing) (one_lock (err Exec.record_not_found) db)
              | inr (l, found) ↦ rw (lfs, given, found) (one_lock (ok l) db)
            ]
            | inr absent ↦ elim (Bool-cases (text_eq path [])) [
              | inl empty ↦ rw (lfs, absent, empty) (listed_page r cursor limit db)
              | inr named ↦
                  elim (Option-cases (
                    find (λ l. l.repo_id == r.id && text_eq l.path (sanitize_path path))
                      db.lfs_locks)) [
                        | inl missing ↦
                            rw (lfs, absent, named, missing)
                              (one_lock (err Exec.record_not_found) db)
                        | inr (l, found) ↦ rw (lfs, absent, named, found) (one_lock (ok l) db)
                      ]
            ]
          ]
        ]

    -- A GET request with the id of a lock gets the same answer for every repository: the lock of that id
    -- is shown whichever repository it is in.
    pub locks_get-any_repo :
        (accept path : Text) (id cursor limit : ℕ) (db : Db) (repo other : Repo)
        → 0 < id
        → locks_get env order accept (some repo) path id cursor limit db
          ≡ locks_get env order accept (some other) path id cursor limit db
    unfolding locks_get
    locks_get-any_repo accept path id cursor limit db repo other given =
        let positive : ltb 0 id ≡ true = lt→ltb 0 id given in rw positive refl

    -- A request to verify locks is always answered, with at most 100 locks of the user and of others
    -- together, and changes nothing.
    pub locks_verify-bound :
        (lfs : Bool) (repo : Option Repo) (user : Option ProtoUser) (body : Option (ℕ × ℕ))
        (db : Db)
        → (r : LockResponse) × (locks_verify env order lfs repo user body db ≡ (ok r, db))
          × (shown r ≤ 100)
    unfolding locks_verify get_lfs_locks gets pure ◌>>=◌
    locks_verify-bound false repo user body db = (not_acceptable, refl, ground arith)
    locks_verify-bound true none user body db = (failure 404, refl, ground arith)
    locks_verify-bound true (some repo) user none db = (failure 400, refl, ground arith)
    locks_verify-bound true (some repo) user (some (cursor, limit)) db =
        let locks = page repo (page_number cursor) (page_limit limit) db in
        let (o, named, sized) = with_owners-Sized [] locks db in
        (
          answer_verify user (page_limit limit) (page_number cursor) o,
          rw named refl,
          verified_few user locks o (page_limit limit) (page_number cursor) sized (
              ground (
                arith,
                page-Sized repo (page_number cursor) (page_limit limit) db,
                page_limit_bound limit,
              )),
        )

  -- If another user holds the lock of a path, and the user holds none on it, a request to lock the path
  -- gets status 409 with an empty lock, and changes nothing.
  pub locks_create-conflict :
      (path refname : Text) (repo : Repo) (u : ProtoUser) (db : Db)
      → any (λ l. l.repo_id == repo.id && text_eq l.path (sanitize_path path)) db.lfs_locks ≡ true
      → find
          (λ l.
            l.repo_id == repo.id && l.user_id == u.user.id && text_eq l.path (sanitize_path path))
          db.lfs_locks
        ≡ none
      → locks_create env true (some (path, refname)) (some repo) (some u) db
        ≡ (ok (conflict none), db)
  unfolding locks_create answer_create conflict_of create_lfs_lock_for_user
      get_lfs_lock_for_user_path checked on_error get_one one tried pure ◌>>=◌
  locks_create-conflict path refname repo u db held own = rw (held, own) refl
