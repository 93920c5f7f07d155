-- ===== src/Backend/Users/Laws.antt =====
-- AddPublicKey (pkg/backend/user.go) on a key that some user has.
use soft_serve.Base.{
  ℕ, ◌≡◌, refl, ◌⊎◌, ◌||◌, not, true, List, [], ◌∷◌, ◌++◌, Text, text_eq, text_eq_refl, any, find,
  arith, Option-cases, Bool-cases, inl, inr, contains,
}
use soft_serve.Env.{Env}
use soft_serve.Names.{to_lower, validate_username}
use soft_serve.Store.Schema.{PublicKey, Db, user_ids}
use soft_serve.Store.Exec.{
  Error, err, ok, constraint, invalid_name, record_not_found, duplicate_key, checked, ◌>>=◌,
  on_error, transaction,
}
use soft_serve.Store.Users.{named, lower_valid, insert_public_key, add_public_key_by_username}
use soft_serve.Backend.Users.{add_public_key}

-- some row has this key
abbrev pub IsTaken : Text → Db → Type 0
IsTaken ak db = any (λ k. text_eq k.public_key ak) db.public_keys ≡ true

any-last :
    (ak : Text) (ks : List PublicKey) (k : PublicKey)
    → k.public_key ≡ ak
    → any (λ j. text_eq j.public_key ak) (ks ++ k ∷ []) ≡ true
any-last ak [] k e = rw (e, text_eq_refl ak)
any-last ak (j ∷ ks) k e = ground (arith, any-last ak ks k e)

insert-IsTaken :
    (user_id : ℕ) (ak : Text) (db : Db)
    → (insert_public_key user_id ak db).0 ≡ ok tt
    → IsTaken ak (insert_public_key user_id ak db).1
unfolding insert_public_key checked
insert-IsTaken user_id ak db e =
    elim (Bool-cases
      (any (λ k. text_eq k.public_key ak) db.public_keys || not (contains (user_ids db) user_id))) [
        | inl stop ↦ ground (arith, stop)
        | inr go ↦ rw go (any-last ak db.public_keys _ refl)
      ]

insert_refused :
    (user_id : ℕ) (ak : Text) (db : Db)
    → IsTaken ak db
    → insert_public_key user_id ak db ≡ (err constraint, db)
unfolding insert_public_key checked
insert_refused user_id ak db taken = rw taken

insert_cases :
    (user_id : ℕ) (ak : Text) (db : Db)
    → (insert_public_key user_id ak db ≡ (err constraint, db))
      ⊎ ((after : Db) × (insert_public_key user_id ak db ≡ (ok tt, after)))
unfolding insert_public_key checked
insert_cases user_id ak db =
    elim (Bool-cases
      (any (λ k. text_eq k.public_key ak) db.public_keys || not (contains (user_ids db) user_id))) [
        | inl stop ↦ inl (rw stop)
        | inr go ↦ inr ((insert_public_key user_id ak db).1, rw go)
      ]

module _ (env : Env) where
  -- the key goes in for some user, or there is an error and the database is as it was
  add_cases :
      (username pk : Text) (db : Db)
      → ((x : Error) × (add_public_key env username pk db ≡ (err x, db)))
        ⊎ ((user_id : ℕ) × (after : Db) × (insert_public_key user_id (env.marshal_key pk) db
              ≡ (ok tt, after))
            × (add_public_key env username pk db ≡ (ok tt, after)))
  unfolding add_public_key add_public_key_by_username lower_valid on_error transaction ◌>>=◌
  add_cases username pk db =
      let name = to_lower env username in
      let again = to_lower env name in
      elim (Option-cases (validate_username env name)) [
        | inr (x, bad) ↦ inl (invalid_name x, rw bad)
        | inl good ↦ elim (Option-cases (validate_username env again)) [
          | inr (x, bad) ↦ inl (invalid_name x, rw (good, bad))
          | inl fine ↦ elim (Option-cases (find (named again) db.users)) [
            | inl missing ↦ inl (record_not_found, rw (good, fine, missing))
            | inr (u, found) ↦ elim (insert_cases u.id (env.marshal_key pk) db) [
              | inl stop ↦ inl (duplicate_key, rw (good, fine, found, stop))
              | inr (after, go) ↦ inr (u.id, after, go, rw (good, fine, found, go))
            ]
          ]
        ]
      ]

  -- Once a public key has been added for a user, adding it again, for that user or for any other, is
  -- an error and changes nothing.
  pub add_public_key_unique :
      (username other pk : Text) (before db : Db)
      → add_public_key env username pk before ≡ (ok tt, db)
      → (x : Error) × (add_public_key env other pk db ≡ (err x, db))
  add_public_key_unique username other pk before db added = elim (add_cases username pk before) [
    | inl (x, failed) ↦ absurd (ground (arith, failed))
    | inr (user_id, after, inserted, done) ↦
        let same : after ≡ db = ground (arith, done) in
        let taken : IsTaken (env.marshal_key pk) db =
          rw (← same)
            (rw inserted at (insert-IsTaken user_id (env.marshal_key pk) before (rw inserted))) in
        elim (add_cases other pk db) [
          | inl refused ↦ refused
          | inr (other_id, last, again, _) ↦
              absurd (ground (arith, again, insert_refused other_id (env.marshal_key pk) db taken))
        ]
  ]
