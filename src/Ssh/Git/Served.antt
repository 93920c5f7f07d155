-- ===== src/Ssh/Git/Served.antt =====
-- The commands of gitRunE (pkg/ssh/cmd/git.go) that reach their service.
use soft_serve.Base.{
  ◌≡◌, sym, ◌≢◌, ◌⊎◌, Bool, true, false, not, ◌&&◌, ◌||◌, Option, none, some, [], ◌∷◌, ◌++◌, Text,
  str, text_eq, text_eq_iff, arith, Bool-cases, inl, inr,
}
use soft_serve.Base.Int.{ltbℤ}
use soft_serve.Access.{AccessLevel, read_only_access, read_write_access}
use soft_serve.Env.{Env}
use soft_serve.Names.{sanitize_repo}
use soft_serve.Store.Schema.{Repo, Db}
use soft_serve.Store.Exec.Preserves.{Preserves, Preserves-attempt}
use soft_serve.Store.Exec.Bind.{bind_ok, bind_reads}
use soft_serve.Store.Exec.{ok, ◌>>=◌, pure, attempt}
use soft_serve.Backend.Users.{ProtoUser}
use soft_serve.Backend.Repos.{Host, repository}
use soft_serve.Backend.Access.Decide.{access_level_for_user-decide, repository-Preserves}
use soft_serve.Backend.Access.{access_level_for_user}
use soft_serve.Ssh.Git.{
  GitError, GitHost, done, invalid, failed, Outcome, ran, receive_pack, is_upload, is_lfs,
  run_upload, run_lfs, clean_up, run_push, run_receive, run_service, git_run, ensure_within,
}

-- a push, or an upload of Git LFS
abbrev pub is_write : Text → Text → Bool
is_write service operation =
    text_eq service receive_pack
    || (not (is_upload service) && not (text_eq operation (str "download")))

abbrev pub IsAllowed : Text → Text → AccessLevel → Option Repo → Text → Type 0
IsAllowed service operation level repo name =
    (name ≡ service)
    × ((repo ≢ none) ⊎ (text_eq service receive_pack ≡ true))
    × (ltbℤ level read_only_access ≡ false)
    × (is_write service operation && ltbℤ level read_write_access ≡ false)

module _ (git : GitHost) (service name operation : Text) (level : AccessLevel) (which : Text)
    (error : Option GitError) where
  run_upload-IsAllowed :
      (repo : Option Repo)
      → text_eq service receive_pack ≡ false
      → is_upload service ≡ true
      → run_upload git service name operation level repo ≡ ran which error
      → IsAllowed service operation level repo which
  unfolding run_upload
  run_upload-IsAllowed none other upload h = ground arith
  run_upload-IsAllowed (some r) other upload h = ground arith

  run_lfs-IsAllowed :
      (repo : Option Repo)
      → text_eq service receive_pack ≡ false
      → run_lfs git service name operation level repo ≡ ran which error
      → IsAllowed service operation level repo which
  unfolding run_lfs
  run_lfs-IsAllowed none other h = ground arith
  run_lfs-IsAllowed (some r) other h = ground arith

module _ (git : GitHost) (name operation : Text) (which : Text) (error : Option GitError) where
  run_push-which :
      (repo : Option Repo) (o : Outcome) (db after : Db)
      → run_push git name operation repo o db ≡ (ok (ran which error), after)
      → which ≡ receive_pack
  unfolding ◌>>=◌ attempt pure
  run_push-which repo done db after h = ground arith
  run_push-which repo invalid db after h =
      let (_, middle, _, end) = bind_ok (clean_up git name repo) _ _ db after h in
      ground (arith, end)
  run_push-which repo failed db after h =
      let (_, middle, _, end) = bind_ok (clean_up git name repo) _ _ db after h in
      ground (arith, end)

  run_receive-which :
      (user : Option ProtoUser) (repo : Option Repo) (db after : Db)
      → run_receive git name operation user repo db ≡ (ok (ran which error), after)
      → which ≡ receive_pack
  run_receive-which user none db after h =
      let (_, middle, _, end) = bind_ok (git.create name user) _ _ db after h in
      run_push-which none (git.outcome receive_pack name operation) middle after end
  run_receive-which user (some r) db after h =
      run_push-which (some r) (git.outcome receive_pack name operation) db after h

  run_service-IsAllowed :
      (service : Text) (user : Option ProtoUser) (level : AccessLevel) (repo : Option Repo)
      (db after : Db)
      → run_service git service name operation user level repo db ≡ (ok (ran which error), after)
      → IsAllowed service operation level repo which
  unfolding run_service pure
  run_service-IsAllowed service user level repo db after h =
      elim (Bool-cases (text_eq service receive_pack)) [
        | inl push ↦ elim (Bool-cases (ltbℤ level read_write_access)) [
          | inl low ↦ absurd (ground (arith, rw (push, low) at h))
          | inr high ↦
              let e = run_receive-which user repo db after (rw (push, high) at h) in
              (
                rw e (sym ((text_eq_iff service receive_pack).0 push)),
                inr push,
                ground (arith, high),
                rw (push, high),
              )
        ]
        | inr other ↦ elim (Bool-cases (is_upload service)) [
          | inl upload ↦
              run_upload-IsAllowed git service name operation level which error repo other upload
                (ground (arith, rw (other, upload) at h))
          | inr plain ↦ elim (Bool-cases (is_lfs service)) [
            | inl lfs ↦
                run_lfs-IsAllowed git service name operation level which error repo other
                  (ground (arith, rw (other, plain, lfs) at h))
            | inr unknown ↦ absurd (ground (arith, rw (other, plain, unknown) at h))
          ]
        ]
      ]

access_level_for_user-Preserves :
    (env : Env) (host : Host) (context : Option Repo) (name : Text) (user : Option ProtoUser)
    (db : Db)
    → Preserves (λ d. d ≡ db) (access_level_for_user env host context name user)
access_level_for_user-Preserves env host context name user db = record {
  at = λ d same. ground (arith, access_level_for_user-decide env host context name user d);
}

module _ (env : Env) (host : Host) (git : GitHost) (context : Option Repo)
    (service arg operation : Text) (user : Option ProtoUser) where
  -- A service of git that runs for a command over SSH is the one that the command names, and the
  -- level that AccessLevelForUser gives the user on the repository is at least read-only, and at
  -- least read-write for a push and for an upload of Git LFS; but for a push, the repository is one
  -- that the backend finds.
  pub git_run-IsAllowed :
      (which : Text) (error : Option GitError) (db after : Db)
      → git_run env host git context service arg operation user db ≡ (ok (ran which error), after)
      → (level : AccessLevel) × (repo : Option Repo) × (access_level_for_user env host context
            (sanitize_repo env arg)
            user
            db
          ≡ (ok level, db))
        × (attempt (repository env host (sanitize_repo env arg)) db ≡ (ok repo, db))
        × IsAllowed service operation level repo which
  unfolding git_run pure
  git_run-IsAllowed which error db after h =
      let name = sanitize_repo env arg in
      let (level, decided, rest) =
        bind_reads (access_level_for_user env host context name user) _ _ db after
          (access_level_for_user-Preserves env host context name user db) h in
      elim (Bool-cases
        (not (ensure_within (host.data_path ++ str "repos" ∷ []) (name ++ str ".git")))) [
          | inl outside ↦ absurd (ground (arith, rw outside at rest))
          | inr inside ↦
              let (repo, found, end) =
                bind_reads (attempt (repository env host name)) _ _ db after
                  (Preserves-attempt _ (repository-Preserves env _ host name))
                  (rw inside at rest) in
              (
                level,
                repo,
                decided,
                found,
                run_service-IsAllowed git name operation which error service user level repo db
                    after end,
              )
        ]
