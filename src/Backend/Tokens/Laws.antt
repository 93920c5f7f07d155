-- ===== src/Backend/Tokens/Laws.antt =====
-- The expiry of tokens (UserByAccessToken of pkg/backend/user.go), and the deletion of another
-- user's token (DeleteAccessToken of pkg/backend/access_token.go).
use soft_serve.Base.{
  lt→ltb, ℕ, ◌≡◌, refl, ◌<◌, not, ◌&&◌, some, Bool, true, List, [], ◌∷◌, Text, All, text_eq, find,
  select, arith, ◌==◌,
}
use soft_serve.Env.{Env}
use soft_serve.Store.Schema.{AccessToken, Db}
use soft_serve.Store.Exec.{err, ok, raise, token_expired, ◌>>=◌, on_error, transaction}
use soft_serve.Store.Tokens.{
  get_access_token, get_access_token_by_token, delete_access_token_for_user,
}
use soft_serve.Backend.Users.{ProtoUser, user_by_access_token}
use soft_serve.Backend.Tokens.{delete_access_token}

-- A token whose expiry time lies before now is refused with ErrTokenExpired, and nothing changes.
pub user_by_access_token-expired :
    (env : Env) (now at : ℕ) (token : Text) (t : AccessToken) (db : Db)
    → find (λ s. text_eq s.token (env.hash_token token)) db.access_tokens ≡ some t
    → t.expires_at ≡ some at
    → at < now
    → user_by_access_token env now token db ≡ (err token_expired, db)
unfolding user_by_access_token raise get_access_token_by_token on_error transaction ◌>>=◌
user_by_access_token-expired env now at token t db found expires late =
    rw (found, expires, lt→ltb at now late)

select-All :
    (p : AccessToken → Bool) (ts : List AccessToken) → All (λ t. p t ≡ true) ts → select p ts ≡ ts
select-All p [] h = refl
select-All p (t ∷ ts) h = ground (arith, select-All p ts h.1)

-- the rows with this id belong to other users
abbrev pub OthersOnly : ℕ → ℕ → List AccessToken → Type 0
OthersOnly user_id id = All (λ t. not (t.user_id == user_id && t.id == id) ≡ true)

-- Deleting a token that exists and belongs to another user deletes nothing, and reports success.
pub delete_access_token-others :
    (u : ProtoUser) (id : ℕ) (t : AccessToken) (db : Db)
    → find (λ s. s.id == id) db.access_tokens ≡ some t
    → OthersOnly u.user.id id db.access_tokens
    → delete_access_token u id db ≡ (ok tt, db)
unfolding delete_access_token get_access_token delete_access_token_for_user on_error transaction
    ◌>>=◌
delete_access_token-others u id t db found others = rw (found, select-All _ db.access_tokens others)
