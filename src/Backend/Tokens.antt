-- ===== src/Backend/Tokens.antt =====
-- pkg/backend/access_token.go. A token's random text is an argument, the one that GenerateToken drew.
pub mod Laws
pub mod Created
use soft_serve.Base.{ℕ, Option, List, Text}
use soft_serve.Env.{Env}
use soft_serve.Names.{sanitize}
use soft_serve.Store.Schema.{AccessToken}
use soft_serve.Store.Exec.{
  Error, record_not_found, token_not_found, Exec, ◌>>=◌, ◌>>◌, pure, on_error, wrap_error,
  transaction,
}
use soft_serve.Store.Tokens
use soft_serve.Store.Tokens.{
  get_access_token, delete_access_token_for_user, get_access_tokens_by_user_id,
}
use soft_serve.Backend.Users.{ProtoUser}

abbrev pub token_error : Error → Error
token_error e = elim e [ record_not_found ↦ token_not_found | other ↦ other ]

module _ (env : Env) where
  -- Backend.CreateAccessToken: returns the token, of which the database holds only the hash
  unfoldable pub create_access_token : Text → ProtoUser → Text → Option ℕ → Exec Text
  create_access_token token u name expires_at = do
    t ← transaction (
        on_error wrap_error (
          Tokens.create_access_token (sanitize env name) u.user.id (env.hash_token token)
            expires_at))
    pure token

-- Backend.DeleteAccessToken
unfoldable pub delete_access_token : ProtoUser → ℕ → Exec (Unit {0})
delete_access_token u id = on_error token_error (
    transaction (do
      t ← on_error wrap_error (get_access_token id)
      on_error wrap_error (delete_access_token_for_user u.user.id id)))

-- Backend.ListAccessTokens: outside a transaction
unfoldable pub list_access_tokens : ProtoUser → Exec (List AccessToken)
list_access_tokens u = on_error wrap_error (get_access_tokens_by_user_id u.user.id)
