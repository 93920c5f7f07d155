-- ===== src/Web/Gate/Served.antt =====
-- The requests that withAccess (pkg/web/git.go) hands to a handler.
use soft_serve.Base.{
  ℕ, ◌≡◌, Bool, false, Option, none, some, Text, text_eq, arith, inl, inr, Option-cases, has_prefix,
  [],
}
use soft_serve.Access.{AccessLevel, read_only_access}
use soft_serve.Env.{Env}
use soft_serve.Store.Schema.{Repo, Db}
use soft_serve.Store.Exec.Bind.{bind_reads}
use soft_serve.Store.Exec.{Exec, ok, ◌>>=◌, pure, attempt, or_else, transaction}
use soft_serve.Store.Exec.Preserves.{Preserves-attempt}
use soft_serve.Store.Settings.{get_allow_keyless_access}
use soft_serve.Backend.Users.{ProtoUser}
use soft_serve.Backend.Repos.{Host, repository}
use soft_serve.Backend.Settings.{allow_keyless}
use soft_serve.Backend.Access.{access_level_for_user}
use soft_serve.Backend.Access.Decide.{repository-Preserves}
use soft_serve.Web.Auth.{AuthError, Crypto, authenticate}
use soft_serve.Web.Reads.{allow_keyless-Preserves, authenticate-Preserves}
use soft_serve.Web.Gate.{
  GitRequest, Response, pass, check_user, check_service, with_access, get_service_type, upload_pack,
  check_upload, last_check,
}
use soft_serve.Web.Gate.Laws.{IsAdmitted, IsDecided, check_user-IsDecided}

module _ (create : Text → Option ProtoUser → Exec Repo) (env : Env) (host : Host) (crypto : Crypto)
    (now : ℕ) (enabled : Bool) (r : GitRequest) (got : AccessLevel) (served : Option Repo)
    (db after : Db) where
  -- keyless access, and the decision
  abbrev pub Decision : Option Repo → Option ProtoUser → Type 0
  Decision repo user =
      (keyless : Bool) × (allow_keyless db ≡ (ok keyless, db))
      × IsAdmitted user keyless
      × IsDecided create env host enabled r repo user db got served

  check_user-Decision :
      (repo : Option Repo) (user : Option ProtoUser) (error : Option AuthError)
      → (allow_keyless >>= check_user create env host enabled r repo user error) db
        ≡ (ok (pass got served), after)
      → Decision repo user
  check_user-Decision repo user error h =
      let (keyless, read, end) =
        bind_reads allow_keyless _ _ db after (allow_keyless-Preserves _) h in
      let (admitted, decided) =
        check_user-IsDecided create env host enabled r repo user error keyless got served db after
          end in
      (keyless, read, admitted, decided)

  -- the user, keyless access, and the decision
  abbrev pub Login : Option Repo → Type 0
  Login repo =
      (user : Option ProtoUser) × (error : Option AuthError) × (authenticate env crypto now repo
          r.header db
        ≡ (ok (user, error), db))
      × Decision repo user

  abbrev after_login : Option Repo → Option ProtoUser × Option AuthError → Exec Response
  after_login repo (user, error) =
      allow_keyless >>= check_user create env host enabled r repo user error

  authenticate-Login :
      (repo : Option Repo)
      → (authenticate env crypto now repo r.header >>= after_login repo) db
        ≡ (ok (pass got served), after)
      → Login repo
  authenticate-Login repo h =
      let ((user, error), login, end) =
        bind_reads (authenticate env crypto now repo r.header) (after_login repo) _ db after
          (authenticate-Preserves _ env crypto now repo r.header) h in
      (user, error, login, check_user-Decision repo user error end)

  -- A request that withAccess hands to a handler has a user, or keyless access is allowed; the
  -- handler's level is what AccessLevelForUser says of that user and the repository, and at least
  -- read-only; there is a repository, or the request is the go tool's; and the level is at least
  -- read-write for a push and for a request of the Git LFS API that lists, creates, deletes or verifies
  -- locks or uploads an object, if neither its route names a service nor its form git-upload-pack or
  -- git-upload-archive. All of this is read from the database as it was when the request came.
  pub with_access-IsDecided :
      with_access create env host crypto now enabled r db ≡ (ok (pass got served), after)
      → (repo : Option Repo) × (attempt (repository env host r.repo) db ≡ (ok repo, db))
        × Login repo
  unfolding with_access
  with_access-IsDecided h =
      let (repo, found, end) =
        bind_reads (attempt (repository env host r.repo)) _ _ db after
          (Preserves-attempt _ (repository-Preserves env _ host r.repo)) h in
      (repo, found, authenticate-Login repo end)

keyless_read : (db : Db) → (keyless : Bool) × (allow_keyless db ≡ (ok keyless, db))
unfolding allow_keyless get_allow_keyless_access or_else transaction ◌>>=◌
keyless_read db = elim (Option-cases db.allow_keyless) [
  | inl unset ↦ (false, rw unset)
  | inr (b, set) ↦ (b, rw set)
]

module _ (create : Text → Option ProtoUser → Exec Repo) (env : Env) (host : Host) (crypto : Crypto)
    (now : ℕ) (enabled : Bool) (r : GitRequest) where
  -- A request of a user with read-only access, to an existing repository, whose route names no
  -- service and whose form value "service" is git-upload-pack, is handed to its handler with that
  -- level, whatever its method and file are: the write access that Git LFS asks for is not tested,
  -- nor whether Git LFS is enabled.
  pub with_access-form_service :
      (repo : Repo) (u : ProtoUser) (db : Db)
      → r.service ≡ []
      → r.form_service ≡ upload_pack
      → attempt (repository env host r.repo) db ≡ (ok (some repo), db)
      → authenticate env crypto now (some repo) r.header db ≡ (ok (some u, none), db)
      → access_level_for_user env host (some repo) r.repo (some u) db ≡ (ok read_only_access, db)
      → with_access create env host crypto now enabled r db
        ≡ (ok (pass read_only_access (some repo)), db)
  unfolding with_access check_user check_service check_upload last_check get_service_type text_eq
      has_prefix pure ◌>>=◌
  with_access-form_service repo u db plain form found login level =
      let (keyless, read) = keyless_read db in
      rw (found, login, read, level, plain, form) (ground arith)
