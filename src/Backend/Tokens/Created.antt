-- ===== src/Backend/Tokens/Created.antt =====
-- The token that CreateAccessToken (pkg/backend/access_token.go) returns.
use soft_serve.Base.{
  ℕ, ◌≡◌, refl, sym, ap, false, not, ◌||◌, Option, some, List, [], ◌∷◌, ◌++◌, Text, text_eq,
  text_eq_refl, any, find, contains, ◌==◌, arith, Bool-cases, Option-cases, inl, inr,
}
use soft_serve.Env.{Env}
use soft_serve.Names.{sanitize}
use soft_serve.Store.Schema.{AccessToken, Db, user_ids}
use soft_serve.Store.Exec.{ok, checked, on_error, transaction, get_one, one, ◌>>=◌, pure}
use soft_serve.Store.Tokens.{insert_access_token, get_access_token, get_access_token_by_token}
use soft_serve.Store.Tokens
use soft_serve.Backend.Users.{ProtoUser}
use soft_serve.Backend.Tokens.{create_access_token}

module _ (hash : Text) where
  find-last :
      (ts : List AccessToken) (t : AccessToken)
      → any (λ s. text_eq s.token hash) ts ≡ false
      → t.token ≡ hash
      → find (λ s. text_eq s.token hash) (ts ++ t ∷ []) ≡ some t
  find-last [] t fresh e = rw (e, text_eq_refl hash)
  find-last (s ∷ ts) t fresh e = ground (arith, find-last ts t)

-- When CreateAccessToken succeeds with a token, the store then finds a row by the token's hash, with
-- the user, the sanitized name and the expiry time that were given.
pub create_access_token-find :
    (env : Env) (drawn : Text) (u : ProtoUser) (name : Text) (expires_at : Option ℕ) (token : Text)
    (before db : Db)
    → create_access_token env drawn u name expires_at before ≡ (ok token, db)
    → (t : AccessToken) × (get_access_token_by_token (env.hash_token token) db ≡ (ok t, db))
      × (t.user_id ≡ u.user.id)
      × (t.name ≡ sanitize env name)
      × (t.expires_at ≡ expires_at)
unfolding create_access_token Tokens.create_access_token insert_access_token get_access_token
    get_access_token_by_token checked on_error transaction get_one one pure ◌>>=◌
create_access_token-find env drawn u name expires_at token before db h =
    elim (Bool-cases (
      any (λ t. text_eq t.token (env.hash_token drawn)) before.access_tokens
      || not (contains (user_ids before) u.user.id))) [
        | inl stop ↦ absurd (ground (arith, rw stop at h))
        | inr go ↦
            let row : AccessToken = record {
              id = before.next_token;
              name = sanitize env name;
              user_id = u.user.id;
              token = env.hash_token drawn;
              expires_at = expires_at;
            } in
            elim (Option-cases
              (find (λ t. t.id == before.next_token) (before.access_tokens ++ row ∷ []))) [
                | inl lost ↦ absurd (ground (arith, rw (go, lost) at h))
                | inr (t, kept) ↦
                    let inserted : db.access_tokens ≡ before.access_tokens ++ row ∷ [] =
                      sym (ap (λ p. p.1.access_tokens) (rw (go, kept) at h)) in
                    let same : drawn ≡ token = ground (arith, rw (go, kept) at h) in
                    let found =
                      find-last (env.hash_token drawn) before.access_tokens row (ground (arith, go))
                        refl in
                    (row, rw (← same, inserted, found), refl, refl, refl)
              ]
      ]
