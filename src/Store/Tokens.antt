-- ===== src/Store/Tokens.antt =====
-- pkg/store/database/access_token.go
use soft_serve.Base.{
  ℕ, ◌+◌, not, ◌&&◌, ◌||◌, Option, List, [], ◌∷◌, ◌++◌, Text, text_eq, ◌==◌, any, contains, select,
}
use soft_serve.Store.Schema.{AccessToken, user_ids}
use soft_serve.Store.Exec.{Exec, ◌>>=◌, gets, get_one, exec, checked, constraint}

-- INSERT INTO access_tokens: the token is unique, and its user exists; returns the new id
unfoldable pub insert_access_token : Text → ℕ → Text → Option ℕ → Exec ℕ
insert_access_token name user_id token expires_at db =
    checked
      (any (λ t. text_eq t.token token) db.access_tokens || not (contains (user_ids db) user_id))
      constraint db.next_token
      (λ d. record d {
        access_tokens =
            d.access_tokens
            ++ record {
              id = d.next_token;
              name = name;
              user_id = user_id;
              token = token;
              expires_at = expires_at;
            }
              ∷ [];
        next_token = d.next_token + 1;
      })
      db

-- GetAccessToken
unfoldable pub get_access_token : ℕ → Exec AccessToken
get_access_token id = get_one (λ db. db.access_tokens) (λ t. t.id == id)

-- CreateAccessToken: `none` is the zero time, for a token that does not expire
unfoldable pub create_access_token : Text → ℕ → Text → Option ℕ → Exec AccessToken
create_access_token name user_id token expires_at = do
  id ← insert_access_token name user_id token expires_at
  get_access_token id

-- DeleteAccessToken
unfoldable pub delete_access_token : ℕ → Exec (Unit {0})
delete_access_token id =
    exec (λ db. record db { access_tokens = select (λ t. not (t.id == id)) db.access_tokens })

-- DeleteAccessTokenForUser
unfoldable pub delete_access_token_for_user : ℕ → ℕ → Exec (Unit {0})
delete_access_token_for_user user_id id = exec (λ db. record db {
  access_tokens = select (λ t. not (t.user_id == user_id && t.id == id)) db.access_tokens;
})

-- GetAccessTokensByUserID
unfoldable pub get_access_tokens_by_user_id : ℕ → Exec (List AccessToken)
get_access_tokens_by_user_id user_id =
    gets (λ db. select (λ t. t.user_id == user_id) db.access_tokens)

-- GetAccessTokenByToken
unfoldable pub get_access_token_by_token : Text → Exec AccessToken
get_access_token_by_token token = get_one (λ db. db.access_tokens) (λ t. text_eq t.token token)
