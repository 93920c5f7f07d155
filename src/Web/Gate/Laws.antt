-- ===== src/Web/Gate/Laws.antt =====
-- The tests of withAccess (pkg/web/git.go) behind the authentication.
use soft_serve.Base.{
  ◌≡◌, ◌≢◌, ◌⊎◌, [], ◌++◌, has_suffix, has_suffix-append, Bool, true, false, not, ◌&&◌, ◌||◌,
  Option, none, some, Text, str, text_eq, has_prefix, arith, Bool-cases, Option-cases, inl, inr,
}
use soft_serve.Base.Int.{ltbℤ}
use soft_serve.Access.{AccessLevel, read_only_access, read_write_access}
use soft_serve.Env.{Env}
use soft_serve.Store.Schema.{Repo, Db}
use soft_serve.Store.Exec.Bind.{bind_ok}
use soft_serve.Store.Exec.{Exec, ok, pure, attempt}
use soft_serve.Backend.Users.{ProtoUser}
use soft_serve.Backend.Repos.{Host}
use soft_serve.Backend.Access.{access_level_for_user}
use soft_serve.Backend.Access.Decide.{access_level_for_user-decide}
use soft_serve.Web.Auth.{AuthError}
use soft_serve.Web.Gate.{
  GitRequest, Method, method_post, method_put, upload_pack, upload_archive, get_service_type, pass,
  service_of, is_upload, receive_pack, is_lfs_write, last_check, check_upload, check_lfs,
  check_pushed, check_service, check_user, is_none, readable,
}

-- The paths by which the API of Git LFS lists, creates, deletes and verifies locks and uploads objects;
-- creating and listing locks have one path.
abbrev pub IsLfsChange : Text → Method → Type 0
IsLfsChange file method =
    (file ≡ str "info/lfs/locks")
    ⊎ (file ≡ str "info/lfs/locks/verify")
    ⊎ ((id : Text) × (file ≡ str "info/lfs/locks/" ++ id ++ str "/unlock") × (method ≡ method_post))
    ⊎ ((oid : Text) × (file ≡ str "info/lfs/objects/basic/" ++ oid) × (method ≡ method_put))

-- git-receive-pack, named by the route or, if the route names no service, by the form
abbrev pub IsPush : GitRequest → Type 0
IsPush r = (r.service ≡ receive_pack) ⊎ ((r.service ≡ []) × (r.form_service ≡ receive_pack))

-- a push, or a change of locks or objects of Git LFS for which neither the route nor the form names a
-- service that reads
abbrev pub IsWrite : GitRequest → Type 0
IsWrite r =
    IsPush r
    ⊎ ((r.service ≡ [])
        × (text_eq r.form_service upload_pack ≡ false)
        × (text_eq r.form_service upload_archive ≡ false)
        × IsLfsChange r.file r.method)

IsLfsChange-is_lfs_write :
    (file : Text) (method : Method)
    → IsLfsChange file method
    → has_prefix file (str "info/lfs") && is_lfs_write file method ≡ true
unfolding is_lfs_write has_prefix has_suffix text_eq
IsLfsChange-is_lfs_write file method (inl e) = rw e
IsLfsChange-is_lfs_write file method (inr (inl e)) = rw e
IsLfsChange-is_lfs_write file method (inr (inr (inl (id, e, post)))) =
    rw (e, post) (ground (arith, has_suffix-append (str "info/lfs/locks/" ++ id) (str "/unlock")))
IsLfsChange-is_lfs_write file method (inr (inr (inr (oid, e, put)))) = rw (e, put)

-- the test for a change, as the gate makes it
abbrev is_write : GitRequest → Bool
is_write r =
    text_eq (service_of r) receive_pack
    || (not (is_upload (service_of r))
        && has_prefix r.file (str "info/lfs")
        && is_lfs_write r.file r.method)

IsWrite-is_write : (r : GitRequest) → IsWrite r → is_write r ≡ true
unfolding get_service_type has_prefix text_eq
IsWrite-is_write r (inl (inl e)) = rw e
IsWrite-is_write r (inl (inr (e, f))) = rw (e, f)
IsWrite-is_write r (inr (e, f, g, change)) =
    elim (Bool-cases (has_prefix r.form_service (str "git-"))) [
      | inl named ↦
          rw (e, named, f, g, IsLfsChange-is_lfs_write r.file r.method change) (ground arith)
      | inr plain ↦ rw (e, plain, IsLfsChange-is_lfs_write r.file r.method change)
    ]

-- the request is no write, or the level is at least read-write
abbrev pub WritesAllowed : GitRequest → AccessLevel → Type 0
WritesAllowed r level = (¬ IsWrite r) ⊎ (ltbℤ level read_write_access ≡ false)

writes_allowed :
    (r : GitRequest) (level : AccessLevel)
    → is_write r && ltbℤ level read_write_access ≡ false
    → WritesAllowed r level
writes_allowed r level h = elim (Bool-cases (is_write r)) [
  | inl write ↦ inr (ground (arith, write, h))
  | inr read ↦ inl (λ write. ground (arith, IsWrite-is_write r write, read))
]

-- the repository that a handler gets, which only a request of the go tool may do without
abbrev pub IsServed : GitRequest → Option Repo → Type 0
IsServed r served = (served ≢ none) ⊎ (r.go_get ≡ true)

-- what holds of the level and of the repository that a handler gets
abbrev pub IsAllowed : GitRequest → AccessLevel → AccessLevel → Option Repo → Type 0
IsAllowed r level got served =
    (got ≡ level) × (ltbℤ level read_only_access ≡ false) × IsServed r served

module _ (r : GitRequest) (level got : AccessLevel) (served : Option Repo) where
  last_check-IsAllowed :
      (error : Option AuthError) (repo : Option Repo)
      → last_check r level error repo ≡ pass got served
      → IsAllowed r level got served
  unfolding last_check
  last_check-IsAllowed error none h = ground arith
  last_check-IsAllowed error (some repo) h = ground arith

  check_upload-IsAllowed :
      (error : Option AuthError) (repo : Option Repo)
      → check_upload r level error repo ≡ pass got served
      → IsAllowed r level got served
  unfolding check_upload
  check_upload-IsAllowed error none h = ground arith
  check_upload-IsAllowed error (some repo) h =
      ground (arith, last_check-IsAllowed error (some repo))

  check_lfs-IsAllowed :
      (enabled : Bool) (error : Option AuthError) (repo : Option Repo)
      → check_lfs enabled r level error repo ≡ pass got served
      → IsAllowed r level got served
        × (is_lfs_write r.file r.method && ltbℤ level read_write_access ≡ false)
  unfolding check_lfs
  check_lfs-IsAllowed enabled error none h = ground (arith, last_check-IsAllowed error none)
  check_lfs-IsAllowed enabled error (some repo) h =
      ground (arith, last_check-IsAllowed error (some repo))

module _ (create : Text → Option ProtoUser → Exec Repo) (enabled : Bool) (r : GitRequest)
    (user : Option ProtoUser) (level : AccessLevel) (error : Option AuthError) where
  check_pushed-IsAllowed :
      (repo : Option Repo) (got : AccessLevel) (served : Option Repo) (db after : Db)
      → check_pushed create r user level error repo db ≡ (ok (pass got served), after)
      → IsAllowed r level got served
  unfolding pure
  check_pushed-IsAllowed (some repo) got served db after h =
      check_upload-IsAllowed r level got served error (some repo) (ground (arith, h))
  check_pushed-IsAllowed none got served db after h =
      let (repo, middle, _, end) = bind_ok (attempt (create r.repo user)) _ _ db after h in
      elim (Option-cases repo) [
        | inl no_repo ↦ absurd (ground (arith, no_repo, end))
        | inr (found, is_found) ↦
            check_upload-IsAllowed r level got served none (some found)
              (ground (arith, is_found, end))
      ]

  check_service-IsAllowed :
      (repo : Option Repo) (got : AccessLevel) (served : Option Repo) (db after : Db)
      → check_service create enabled r user level error repo db ≡ (ok (pass got served), after)
      → IsAllowed r level got served × (is_write r && ltbℤ level read_write_access ≡ false)
  unfolding check_service pure
  check_service-IsAllowed repo got served db after h =
      elim (Bool-cases (text_eq (service_of r) receive_pack)) [
        | inl push ↦ elim (Bool-cases (ltbℤ level read_write_access)) [
          | inl low ↦ absurd (ground (arith, rw (push, low) at h))
          | inr high ↦ (
            check_pushed-IsAllowed repo got served db after (rw (push, high) at h),
            ground (arith, push, high),
          )
        ]
        | inr other ↦ elim (Bool-cases (is_upload (service_of r))) [
          | inl upload ↦ (
            check_upload-IsAllowed r level got served error repo
                (ground (arith, rw (other, upload) at h)),
            rw (other, upload),
          )
          | inr plain ↦ elim (Bool-cases (has_prefix r.file (str "info/lfs"))) [
            | inl lfs ↦
                let (allowed, high) =
                  check_lfs-IsAllowed r level got served enabled error repo
                    (ground (arith, rw (other, plain, lfs) at h)) in
                (allowed, rw (other, plain, lfs) high)
            | inr file ↦ (
              last_check-IsAllowed r level got served error repo
                  (ground (arith, rw (other, plain, file) at h)),
              rw (other, plain, file),
            )
          ]
        ]
      ]

-- a user, or a server that serves requests without one
abbrev pub IsAdmitted : Option ProtoUser → Bool → Type 0
IsAdmitted user keyless = (user ≢ none) ⊎ (keyless ≡ true)

module _ (create : Text → Option ProtoUser → Exec Repo) (env : Env) (host : Host) (enabled : Bool)
    (r : GitRequest) (repo : Option Repo) (user : Option ProtoUser) where
  -- the level that was decided, and what holds of it
  abbrev pub IsDecided : Db → AccessLevel → Option Repo → Type 0
  IsDecided db level served =
      (access_level_for_user env host repo r.repo user db ≡ (ok level, db))
      × (ltbℤ level read_only_access ≡ false)
      × IsServed r served
      × WritesAllowed r level

  pub check_user-IsDecided :
      (error : Option AuthError) (keyless : Bool) (got : AccessLevel) (served : Option Repo)
      (db after : Db)
      → check_user create env host enabled r repo user error keyless db
        ≡ (ok (pass got served), after)
      → IsAdmitted user keyless × IsDecided db got served
  unfolding check_user pure
  check_user-IsDecided error keyless got served db after h =
      elim (Bool-cases (is_none user && not keyless)) [
        | inl out ↦ absurd (ground (arith, rw out at h))
        | inr inside ↦
            let (level, middle, decided, end) =
              bind_ok (access_level_for_user env host repo r.repo user) _ _ db after
                (rw inside at h) in
            let ((same, readable, is_served), writable) =
              check_service-IsAllowed create enabled r user level error repo got served middle after
                end in
            let d = access_level_for_user-decide env host repo r.repo user db in
            (
              admitted inside,
              (
                rw same (ground (arith, decided, d)),
                rw same readable,
                is_served,
                rw same (writes_allowed r level writable),
              ),
            )
      ]
    where
      admitted : (is_none user && not keyless) ≡ false → IsAdmitted user keyless
      admitted e = elim (Option-cases user) [
        | inl nobody ↦ inr (ground (arith, rw nobody at e))
        | inr (u, somebody) ↦ inl (λ e'. ground (arith, somebody))
      ]
