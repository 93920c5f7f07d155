-- ===== src/Backend/Access/Laws.antt =====
-- AccessLevelForUser (pkg/backend/user.go) on private and public repositories.
use soft_serve.Base.{◌≡◌, ◌⊎◌, ◌↔◌, true, false, Option, none, some, Text, arith, text_eq}
use soft_serve.Base.Int.{pos, negsuc, ltbℤ}
use soft_serve.Access.{AccessLevel, no_access, read_only_access, read_write_access}
use soft_serve.Env.{Env}
use soft_serve.Store.Schema.{Repo, Db}
use soft_serve.Store.Exec.{ok}
use soft_serve.Backend.Users.{ProtoUser}
use soft_serve.Backend.Repos.{Host}
use soft_serve.Backend.Access.{is_admin, owns, username_of, access_level_for_user}
use soft_serve.Backend.Access.Decide.{
  anon_of, collab_of, repo_of, decide, max_level, access_level_for_user-decide,
}

-- at least read-write
abbrev pub CanWrite : AccessLevel → Type 0
CanWrite l = ltbℤ l read_write_access ≡ false

module _ (env : Env) where
  decide-private :
      (anon : AccessLevel) (u : Option ProtoUser) (r : Repo)
      → r.private ≡ true
      → is_admin u ≡ false
      → owns u r ≡ false
      → decide env anon u (some r) none ≡ no_access
  decide-private anon none r hidden guest other = rw hidden
  decide-private anon (some u) r hidden guest other = rw (guest, other, hidden)

-- a collaborator, who writes by the level that was granted or by the anonymous one
abbrev pub Invited : AccessLevel → Option AccessLevel → Type 0
Invited anon none = ⊥
Invited anon (some l) = CanWrite l ⊎ CanWrite anon

-- no user, on a public repository that anonymous users may write to
abbrev pub Public : AccessLevel → Option ProtoUser → Repo → Option AccessLevel → Type 0
Public anon u r collab = (u ≡ none) × (collab ≡ none) × (r.private ≡ false) × CanWrite anon

-- who may write to a repository that exists
abbrev pub Writer : AccessLevel → Option ProtoUser → Repo → Option AccessLevel → Type 0
Writer anon u r collab =
    (is_admin u ≡ true) ⊎ (owns u r ≡ true) ⊎ Invited anon collab ⊎ Public anon u r collab

max_level-CanWrite : (l a : AccessLevel) → CanWrite (max_level l a) ↔ (CanWrite l ⊎ CanWrite a)
max_level-CanWrite (pos l) (pos a) = ground arith
max_level-CanWrite (pos l) (negsuc a) = ground arith
max_level-CanWrite (negsuc l) (pos a) = ground arith
max_level-CanWrite (negsuc l) (negsuc a) = ground arith

module _ (env : Env) (anon : AccessLevel) (r : Repo) where
  decide-Writer :
      (u : Option ProtoUser) (collab : Option AccessLevel)
      → CanWrite (decide env anon u (some r) collab) ↔ Writer anon u r collab
  decide-Writer none (some l) = ground (arith, max_level-CanWrite l anon)
  decide-Writer none none = ground arith
  decide-Writer (some u) (some l) = ground (arith, max_level-CanWrite l anon)
  decide-Writer (some u) none = ground arith

module _ (env : Env) (host : Host) (context : Option Repo) (repo : Text) (u : Option ProtoUser)
    (db : Db) where
  -- The repository of the request is private, and the user is no admin, not its owner and no
  -- collaborator: then the level is no-access, whatever the anonymous level is.
  pub access_level_for_user-private :
      (r : Repo)
      → repo_of env host db context repo ≡ some r
      → r.private ≡ true
      → is_admin u ≡ false
      → owns u r ≡ false
      → collab_of env db repo (username_of u) ≡ none
      → access_level_for_user env host context repo u db ≡ (ok no_access, db)
  access_level_for_user-private r found hidden guest other outside = rw (
    access_level_for_user-decide env host context repo u db,
    found,
    outside,
    decide-private env (anon_of db) u r hidden guest other,
  )

  -- On a repository that exists the level is at least read-write exactly for admins, for the owner,
  -- for collaborators whose granted or whose anonymous level is, and, with no user, on a public
  -- repository if the anonymous level is.
  pub access_level_for_user-Writer :
      (r : Repo)
      → repo_of env host db context repo ≡ some r
      → (l : AccessLevel) × (access_level_for_user env host context repo u db ≡ (ok l, db))
        × (CanWrite l ↔ Writer (anon_of db) u r (collab_of env db repo (username_of u)))
  access_level_for_user-Writer r found = (
    decide env (anon_of db) u (some r) (collab_of env db repo (username_of u)),
    rw (access_level_for_user-decide env host context repo u db, found),
    decide-Writer env (anon_of db) r u (collab_of env db repo (username_of u)),
  )

module _ (env : Env) (host : Host) (context : Option Repo) (repo : Text) (v : ProtoUser)
    (db : Db) where
  -- On a public repository a user who is no admin, not its owner and no collaborator gets read-only,
  -- while a request without a user gets the anonymous level, which may be higher.
  pub access_level_for_user-public :
      (r : Repo)
      → repo_of env host db context repo ≡ some r
      → r.private ≡ false
      → is_admin (some v) ≡ false
      → owns (some v) r ≡ false
      → collab_of env db repo v.user.username ≡ none
      → (access_level_for_user env host context repo (some v) db ≡ (ok read_only_access, db))
        × (access_level_for_user env host context repo none db ≡ (ok (anon_of db), db))
  unfolding text_eq
  access_level_for_user-public r found open' guest other outside = (
    rw (
      access_level_for_user-decide env host context repo (some v) db,
      found,
      outside,
      guest,
      other,
      open',
    ),
    rw (access_level_for_user-decide env host context repo none db, found, open'),
  )
