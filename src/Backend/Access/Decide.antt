-- ===== src/Backend/Access/Decide.antt =====
-- The decision of AccessLevelForUser (pkg/backend/user.go) as a function of what the tables hold.
use soft_serve.Base.{
  ◌==◌, ◌≡◌, refl, Bool, true, false, ◌||◌, Option, none, some, [], Text, text_eq, find, select,
  ltb, arith, if◌then◌else◌, Bool-cases, Option-cases, inl, inr,
}
use soft_serve.Base.Int.{negsuc, ltbℤ}
use soft_serve.Access.{
  AccessLevel, no_access, read_only_access, read_write_access, admin_access, parse_access_level,
}
use soft_serve.Env.{Env}
use soft_serve.Names.{sanitize_repo, repo_path, to_lower, validate_username}
use soft_serve.Store.Schema.{Repo, Collab, Db}
use soft_serve.Store.Exec.{Result, ok, err, ◌>>=◌, pure, or_else, attempt, on_error, transaction}
use soft_serve.Store.Exec.Preserves.{Preserves, Preserves-pure, preserves_rules}
use soft_serve.Store.Users.{lower_valid}
use soft_serve.Store.Collabs.{joins, get_collab_by_username_and_repo}
use soft_serve.Store.Repos.{get_repo_by_name}
use soft_serve.Store.Settings.{get_anon_access}
use soft_serve.Backend.Users.{ProtoUser}
use soft_serve.Backend.Repos.{Host, repository}
use soft_serve.Backend.Collabs.{is_collaborator}
use soft_serve.Backend.Settings.{anon_access}
use soft_serve.Backend.Access.{
  is_admin, username_of, context_or, repo_access, access_level_for_user,
}

-- the anonymous level of the settings table; without a row, no access
abbrev pub anon_of : Db → AccessLevel
anon_of db = elim db.anon_access [ none ↦ no_access | some s ↦ parse_access_level s ]

abbrev pub level_of : Option Collab → Option AccessLevel
level_of none = none
level_of (some c) = if ltb 0 c.id then some c.access_level else none

abbrev pub max_level : AccessLevel → AccessLevel → AccessLevel
max_level a b = if ltbℤ a b then b else a

module _ (env : Env) where
  -- the row of a collaboration between the user of a name and a repository
  abbrev pub collab_row : Db → Text → Text → Option Collab
  collab_row db repo username =
      find (λ _. true)
        (select (joins db (to_lower env username) (sanitize_repo env (sanitize_repo env repo)))
          db.collabs)

  abbrev if_valid : {A : Type 0} {E : Type 0} → Option E → Option A → Option A
  if_valid none a = a
  if_valid (some e) a = none

  -- the level of a collaborator; an empty or invalid name has none
  abbrev pub collab_of : Db → Text → Text → Option AccessLevel
  collab_of db repo username =
      if text_eq username []
      then none
      else if_valid (validate_username env (to_lower env username))
          (level_of (collab_row db repo username))

  abbrev collab_result : Option AccessLevel → AccessLevel × Bool
  collab_result none = (negsuc 0, false)
  collab_result (some l) = (l, true)

  pub anon_access_lem : (db : Db) → anon_access db ≡ (ok (anon_of db), db)
  unfolding anon_access get_anon_access or_else transaction ◌>>=◌
  anon_access_lem db = ground arith

  is_collaborator-same :
      (db : Db) (repo username : Text)
      → (l : AccessLevel) × (b : Bool) × (or_else
            (negsuc 0, false)
            (is_collaborator env repo username)
            db
          ≡ (ok (l, b), db))
        × ((if b then some l else none) ≡ collab_of db repo username)
  unfolding is_collaborator get_collab_by_username_and_repo lower_valid or_else on_error transaction
      ◌>>=◌
  is_collaborator-same db repo username = elim (Bool-cases (text_eq username [])) [
    | inl empty ↦ (negsuc 0, false, rw empty, rw empty)
    | inr named ↦ elim (Option-cases (validate_username env (to_lower env username))) [
      | inr (e, bad) ↦ (negsuc 0, false, rw (named, bad), rw (named, bad))
      | inl good ↦ elim (Option-cases (collab_row db repo username)) [
        | inl missing ↦ (negsuc 0, false, rw (named, good, missing), rw (named, good, missing))
        | inr (c, found) ↦
            (c.access_level, ltb 0 c.id, rw (named, good, found), rw (named, good, found))
      ]
    ]
  ]

  abbrev pub ok_of : {A : Type 0} → Result A → Option A
  ok_of (ok a) = some a
  ok_of (err e) = none

  -- the repository of the request: the context's, or the one that the lookup finds
  abbrev pub repo_of : Host → Db → Option Repo → Text → Option Repo
  repo_of host db none repo = ok_of (repository env host repo db).0
  repo_of host db (some r) repo = some r

  -- the decision, from the facts: the anonymous level, the user, the repository and the level of the
  -- user's collaboration
  abbrev pub decide :
      AccessLevel → Option ProtoUser → Option Repo → Option AccessLevel → AccessLevel
  decide anon none none collab = anon
  decide anon none (some r) (some l) = max_level l anon
  decide anon none (some r) none = if r.private then no_access else anon
  decide anon (some u) none collab =
      if u.user.admin then admin_access else max_level read_write_access anon
  decide anon (some u) (some r) (some l) =
      if u.user.admin || (r.user_id == u.user.id) then admin_access else max_level l anon
  decide anon (some u) (some r) none =
      if u.user.admin || (r.user_id == u.user.id)
      then admin_access
      else if r.private
      then no_access
      else read_only_access

  pub repository-Preserves :
      (P : Db → Type 0) (host : Host) (repo : Text) → Preserves P (repository env host repo)
  unfolding repository get_repo_by_name
  repository-Preserves P host repo = elim (Option-cases (host.cached (sanitize_repo env repo))) [
    | inr (r, hit) ↦ rw hit (Preserves-pure r)
    | inl miss ↦
        elim (Bool-cases (host.exists (repo_path env host.data_path (sanitize_repo env repo)))) [
          | inl there ↦ rw (miss, there) (search preserves_rules)
          | inr gone ↦ rw (miss, gone) (search preserves_rules)
        ]
  ]

  pub attempt-repository :
      (host : Host) (db : Db) (repo : Text)
      → attempt (repository env host repo) db ≡ (ok (ok_of (repository env host repo db).0), db)
  attempt-repository host db repo =
      split (repository env host repo db).0 (repository env host repo db).1 refl
        ((repository-Preserves (λ d. d ≡ db) host repo).at db refl)
    where
      split :
          (r : Result Repo) (after : Db)
          → repository env host repo db ≡ (r, after)
          → after ≡ db
          → attempt (repository env host repo) db ≡ (ok (ok_of (repository env host repo db).0), db)
      split (ok a) after e same = unfold attempt in rw (e, same)
      split (err x) after e same = unfold attempt in rw (e, same)

  context_or-repo_of :
      (host : Host) (db : Db) (context : Option Repo) (repo : Text)
      → context_or env host context (attempt (repository env host repo)) db
        ≡ (ok (repo_of host db context repo), db)
  context_or-repo_of host db none repo = attempt-repository host db repo
  context_or-repo_of host db (some r) repo = unfold pure in refl

  repo_access-decide :
      (r : Repo) (repo : Text) (u : Option ProtoUser) (anon : AccessLevel) (db : Db)
      → is_admin u ≡ false
      → repo_access env anon repo u (some r) db
        ≡ (ok (decide anon u (some r) (collab_of db repo (username_of u))), db)
  unfolding ◌>>=◌ pure
  repo_access-decide r repo none anon db guest =
      let (l, b, run, same) = is_collaborator-same db repo [] in
      elim (Bool-cases b) [ inl yes' ↦ rw (run, ← same, yes') | inr no' ↦ rw (run, ← same, no') ]
  repo_access-decide r repo (some u) anon db guest =
      let (l, b, run, same) = is_collaborator-same db repo u.user.username in
      elim (Bool-cases (r.user_id == u.user.id)) [
        | inl owner ↦ elim (Bool-cases b) [
          | inl yes' ↦ rw (guest, ← same, yes', owner)
          | inr no' ↦ rw (guest, ← same, no', owner)
        ]
        | inr other ↦ elim (Bool-cases b) [
          | inl yes' ↦ rw (guest, ← same, yes', other, run, yes')
          | inr no' ↦ rw (guest, ← same, no', other, run, no')
        ]
      ]

  pub decide-admin :
      (anon : AccessLevel) (u : Option ProtoUser) (r : Option Repo) (collab : Option AccessLevel)
      → is_admin u ≡ true
      → decide anon u r collab ≡ admin_access
  decide-admin anon none r collab admin = ground arith
  decide-admin anon (some u) none collab admin = rw admin
  decide-admin anon (some u) (some r) none collab = rw collab
  decide-admin anon (some u) (some r) (some l) admin = rw admin

  pub decide-owner :
      (anon : AccessLevel) (u : ProtoUser) (r : Repo) (collab : Option AccessLevel)
      → (r.user_id == u.user.id) ≡ true
      → decide anon (some u) (some r) collab ≡ admin_access
  decide-owner anon u r none mine = ground (arith, mine)
  decide-owner anon u r (some l) mine = ground (arith, mine)

  decide-absent :
      (repo : Text) (u : Option ProtoUser) (anon : AccessLevel) (db : Db)
      (collab : Option AccessLevel)
      → is_admin u ≡ false
      → repo_access env anon repo u none db ≡ (ok (decide anon u none collab), db)
  unfolding pure
  decide-absent repo none anon db collab guest = refl
  decide-absent repo (some u) anon db collab guest = rw guest

  pub found_access-decide :
      (r : Option Repo) (repo : Text) (u : Option ProtoUser) (anon : AccessLevel) (db : Db)
      → is_admin u ≡ false
      → repo_access env anon repo u r db
        ≡ (ok (decide anon u r (collab_of db repo (username_of u))), db)
  found_access-decide none repo u anon db guest =
      decide-absent repo u anon db (collab_of db repo (username_of u)) guest
  found_access-decide (some r) repo u anon db guest = repo_access-decide r repo u anon db guest

  -- AccessLevelForUser returns the decision on the facts that it finds, and changes nothing.
  pub access_level_for_user-decide :
      (host : Host) (context : Option Repo) (repo : Text) (u : Option ProtoUser) (db : Db)
      → access_level_for_user env host context repo u db ≡ (
        ok (
            decide
              (anon_of db)
              u
              (repo_of host db context repo)
              (collab_of db repo (username_of u))),
        db,
      )
  unfolding access_level_for_user ◌>>=◌
  access_level_for_user-decide host context repo u db = elim (Bool-cases (is_admin u)) [
    | inl admin ↦ rw (
      anon_access_lem db,
      admin,
      decide-admin (anon_of db) u (repo_of host db context repo) (collab_of db repo (username_of u))
          admin,
    )
    | inr guest ↦ rw (
      anon_access_lem db,
      guest,
      context_or-repo_of host db context repo,
      found_access-decide (repo_of host db context repo) repo u (anon_of db) db guest,
    )
  ]
