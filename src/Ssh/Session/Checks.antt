-- ===== src/Ssh/Session/Checks.antt =====
-- The checks of pkg/ssh/cmd/cmd.go as tests on the state.
use soft_serve.Base.{
  ◌≡◌, refl, ◌∙◌, ◌⊎◌, inl, inr, Bool, true, false, not, ◌||◌, Option, none, some, Text, Bool-cases,
}
use soft_serve.Base.Int.{ltbℤ}
use soft_serve.Access.{AccessLevel, read_only_access, read_write_access, admin_access}
use soft_serve.Env.{Env}
use soft_serve.Names.{sanitize_repo}
use soft_serve.Store.Exec.{Error, ok, err, repo_not_found, unauthorized}
use soft_serve.System.{World, Sys, ◌>>=◌, ◌>>◌, pure}
use soft_serve.System.Cache.{Lru, LruLaws}
use soft_serve.Backend.Users.{ProtoUser}
use soft_serve.Backend.Lifecycle.{Machine}
use soft_serve.Backend.Hosted.Lookups.{after_level, level_in, level_lem, level_again}
use soft_serve.Ssh.Session.{
  Server, Session, is_public_key_admin, level_on, check_if_readable, check_if_collab,
  check_if_readable_and_collab, check_if_admin, user_admin,
}

module _ {C : Type 0} where
  abbrev pub with_cache : World C → C → World C
  with_cache w c = record w { cache = c }

  -- The operation ends with an error, and leaves tables and files as they were; the cache may have taken
  -- in a repository that was looked up.
  abbrev pub Refused : {A : Type 0} → Sys C A → World C → Type 0
  Refused op w = (e : Error) × (c : C) × (op w ≡ (err e, with_cache w c))

  -- The check fails and changes the cache only; or it passes, changes the cache only, and the statement
  -- holds of the new cache.
  abbrev pub Verdict : Sys C (Unit {0}) → World C → (C → Type 0) → Type 0
  Verdict check w P = Refused check w ⊎ ((c : C) × (check w ≡ (ok tt, with_cache w c)) × P c)

  -- an operation behind a check is refused, or allowed
  pub check-bind :
      {A : Type 0} (check : Sys C (Unit {0})) (op : Sys C A) (w : World C) {P : C → Type 0}
      → Verdict check w P
      → Refused (check >> op) w ⊎ ((c : C) × ((check >> op) w ≡ op (with_cache w c)) × P c)
  unfolding ◌>>=◌
  check-bind check op w (inl (e, c, h)) = inl (e, c, rw h)
  check-bind check op w (inr (c, h, p)) = inr (c, rw h, p)

module _ {C : Type 0} (env : Env) (lru : Lru C) (m : Machine) where
  -- the decision for the session's user and the repository that the argument names
  abbrev pub level_at : World C → Session → Text → AccessLevel
  level_at w s arg = level_in env lru m (sanitize_repo env arg) s.user w

  -- the cache after that decision
  abbrev pub cache_at : World C → Session → Text → C
  cache_at w s arg = after_level env lru m (sanitize_repo env arg) s.user w

  pub level_on_lem :
      (s : Session) (arg : Text) (w : World C)
      → level_on env lru m s arg w ≡ (ok (level_at w s arg), with_cache w (cache_at w s arg))
  unfolding level_on
  level_on_lem s arg w = level_lem env lru m (sanitize_repo env arg) s.user w

  -- the user may administer the server, or owns what the argument names
  abbrev pub may_administer : Server → World C → Session → Text → Bool
  may_administer server w s arg = is_public_key_admin server s.key || elim (s.user) [
    | none ↦ false
    | some u ↦ u.user.admin || not (ltbℤ (level_at w s arg) admin_access)
  ]

  user_admin-Verdict :
      (s : Session) (arg : Text) (u : Option ProtoUser) (w : World C)
      → Verdict (user_admin env lru m s arg u) w λ c.
        elim u [
          | none ↦ false
          | some v ↦ v.user.admin || not (ltbℤ (level_at w s arg) admin_access)
        ]
        ≡ true
  unfolding ◌>>=◌ pure
  user_admin-Verdict s arg none w = inl (unauthorized, w.cache, refl)
  user_admin-Verdict s arg (some u) w = elim (Bool-cases (u.user.admin)) [
    | inl admin ↦ inr (w.cache, rw admin, rw admin)
    | inr guest ↦ elim (Bool-cases (ltbℤ (level_at w s arg) admin_access)) [
      | inl low ↦ inl (unauthorized, cache_at w s arg, rw (guest, level_on_lem s arg w, low))
      | inr enough ↦
          inr (cache_at w s arg, rw (guest, level_on_lem s arg w, enough), rw (guest, enough))
    ]
  ]

  pub check_if_admin-Verdict :
      (server : Server) (s : Session) (arg : Text) (w : World C)
      → Verdict (check_if_admin env lru m server s arg) w λ c. may_administer server w s arg ≡ true
  unfolding check_if_admin pure
  check_if_admin-Verdict server s arg w = elim (Bool-cases (is_public_key_admin server s.key)) [
    | inl key ↦ inr (w.cache, rw key, rw key)
    | inr other ↦ rw other (user_admin-Verdict s arg s.user w)
  ]

module _ {C : Type 0} (env : Env) (lru : Lru C) (laws : LruLaws lru) (m : Machine) where
  -- the level is not too low, and a second check of it finds the same
  abbrev pub Enough : AccessLevel → World C → Session → Text → C → Type 0
  Enough needed w s arg c =
      (ltbℤ (level_at env lru m w s arg) needed ≡ false)
      × (level_at env lru m (with_cache w c) s arg ≡ level_at env lru m w s arg)

  pub check_if_readable-Verdict :
      (s : Session) (arg : Text) (w : World C)
      → Verdict (check_if_readable env lru m s arg) w (Enough read_only_access w s arg)
  unfolding check_if_readable ◌>>=◌
  check_if_readable-Verdict s arg w =
      let again = level_again env lru m (sanitize_repo env arg) s.user w laws in
      elim (Bool-cases (ltbℤ (level_at env lru m w s arg) read_only_access)) [
        | inl low ↦
            inl
              (repo_not_found, cache_at env lru m w s arg, rw (level_on_lem env lru m s arg w, low))
        | inr enough ↦ inr (
          cache_at env lru m w s arg,
          rw (level_on_lem env lru m s arg w, enough),
          (enough, again),
        )
      ]

  pub check_if_collab-Verdict :
      (s : Session) (arg : Text) (w : World C)
      → Verdict (check_if_collab env lru m s arg) w (Enough read_write_access w s arg)
  unfolding check_if_collab ◌>>=◌
  check_if_collab-Verdict s arg w =
      let again = level_again env lru m (sanitize_repo env arg) s.user w laws in
      elim (Bool-cases (ltbℤ (level_at env lru m w s arg) read_write_access)) [
        | inl low ↦
            inl (unauthorized, cache_at env lru m w s arg, rw (level_on_lem env lru m s arg w, low))
        | inr enough ↦ inr (
          cache_at env lru m w s arg,
          rw (level_on_lem env lru m s arg w, enough),
          (enough, again),
        )
      ]

  pub check_if_readable_and_collab-Verdict :
      (s : Session) (arg : Text) (w : World C)
      → Verdict (check_if_readable_and_collab env lru m s arg) w (Enough read_write_access w s arg)
  unfolding check_if_readable_and_collab
  check_if_readable_and_collab-Verdict s arg w =
      elim (check-bind _ (check_if_collab env lru m s arg) w (check_if_readable-Verdict s arg w)) [
        | inl no' ↦ inl no'
        | inr (c, same, (_, again)) ↦ elim (check_if_collab-Verdict s arg (with_cache w c)) [
          | inl (e, d, h) ↦ inl (e, d, same ∙ h)
          | inr (d, h, (enough, again')) ↦ inr (d, same ∙ h, (rw again at enough, again' ∙ again))
        ]
      ]
